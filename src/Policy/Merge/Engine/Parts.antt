-- ===== src/Policy/Merge/Engine/Parts.antt =====
-- A successful merge, taken apart: each of its steps denied nothing, and what the steps built is
-- the effective document.
use paybond_kit_python.Prelude.{
  String, ◌≡◌, refl, ap, subst, Option, none, some, List, [], ◌∷◌, append-eq-nil_left,
  append-eq-nil_right,
}
use paybond_kit_python.Prelude.Dict.{Dict}
use paybond_kit_python.Policy.Schema.{ToolEntry, Extends, DocumentV1, DocumentV2, Document}
use paybond_kit_python.Policy.Merge.Report.{Merged, Denial, IsClean}
use paybond_kit_python.Policy.Merge.Tools.{clone_tool_entry, override_tools, append_tools}
use paybond_kit_python.Policy.Merge.Sections.{merge_intent}
use paybond_kit_python.Policy.Merge.Adapter.{merge_adapter_section}
use paybond_kit_python.Policy.Merge.Engine.{
  base_default_deny, base_tools, base_intent, base_adapter, clone_tools, base_document_to_effective,
  override_flag, override_entries, override_intent, override_adapter, merge_default_deny,
  check_approved, merge_effective, MergeResult, Result, ok, err, finish, merge_extending,
  merge_paybond_policies,
}

pub clone_tools_lem : (tools : Dict ToolEntry) → clone_tools tools ≡ tools
unfolding clone_tools clone_tool_entry
clone_tools_lem [] = refl
clone_tools_lem ((t, e) ∷ rest) = rw (clone_tools_lem rest)

module _ (base : Document) (overlay : DocumentV2) (extended : Extends) (value : DocumentV1)
    (applied : List String) where
  finish_lem :
      (ds : List Denial) {r : MergeResult}
      → finish base overlay extended value applied ds ≡ ok r
      → (ds ≡ []) × (value ≡ r.effective)
  unfolding finish
  finish_lem [] h = (refl, ap effective_of h)
    where
      effective_of : Result MergeResult → DocumentV1
      effective_of (ok r) = r.effective
      effective_of (err e) = value
  finish_lem (d ∷ ds) h = cc

module _ (approved : List String) (base : Document) (overlay : DocumentV2) where
  abbrev pub overridden : Merged (Dict ToolEntry)
  overridden = override_tools (override_entries overlay) (clone_tools (base_tools base))

  abbrev pub added : Merged (Dict ToolEntry)
  added = append_tools overlay.tools overridden.value

  -- The parts of a merge without denials, and the document that it builds.
  pub record Parts (effective : DocumentV1) : Type 0 where
    pub overrides_clean : IsClean overridden
    pub added_clean : IsClean added
    pub intent_clean :
        IsClean (merge_intent (base_intent base) overlay.intent (override_intent overlay))
    pub adapter_clean :
        IsClean
          (merge_adapter_section (base_adapter base) overlay.adapter (override_adapter overlay))
    pub approved_clean : IsClean (check_approved approved (base_tools base) added.value)
    pub deny_eq :
        effective.default_deny
        ≡ (merge_default_deny
            (base_default_deny base)
            overlay.default_deny
            (override_flag overlay)).value
    pub tools_eq : effective.tools ≡ added.value
    pub intent_eq :
        effective.intent
        ≡ (merge_intent (base_intent base) overlay.intent (override_intent overlay)).value
    pub adapter_eq :
        effective.adapter
        ≡ (merge_adapter_section
            (base_adapter base)
            overlay.adapter
            (override_adapter overlay)).value

  Parts-of_clean :
      IsClean (merge_effective approved base overlay)
      → Parts (merge_effective approved base overlay).value
  unfolding merge_effective base_document_to_effective
  Parts-of_clean h =
      let flag =
        merge_default_deny (base_default_deny base) overlay.default_deny (override_flag overlay) in
      let intent = merge_intent (base_intent base) overlay.intent (override_intent overlay) in
      let adapter =
        merge_adapter_section (base_adapter base) overlay.adapter (override_adapter overlay) in
      let checked = check_approved approved (base_tools base) added.value in
      let h₁ = append-eq-nil_right flag.denied _ h in
      let h₂ = append-eq-nil_right overridden.denied _ h₁ in
      let h₃ = append-eq-nil_right added.denied _ h₂ in
      let h₄ = append-eq-nil_right intent.denied _ h₃ in
      let h₅ = append-eq-nil_right adapter.denied _ h₄ in
      record {
        overrides_clean = append-eq-nil_left overridden.denied _ h₁;
        added_clean = append-eq-nil_left added.denied _ h₂;
        intent_clean = append-eq-nil_left intent.denied _ h₃;
        adapter_clean = append-eq-nil_left adapter.denied _ h₄;
        approved_clean = append-eq-nil_left checked.denied _ h₅;
        deny_eq = refl;
        tools_eq = refl;
        intent_eq = refl;
        adapter_eq = refl;
      }

  Parts-of_extending :
      (o : Option Extends) {r : MergeResult}
      → merge_extending approved base overlay o ≡ ok r
      → Parts r.effective
  unfolding merge_extending
  Parts-of_extending none h = cc
  Parts-of_extending (some extended) h =
      let m = merge_effective approved base overlay in
      let (clean, same) = finish_lem base overlay extended m.value m.applied m.denied h in
      subst Parts same (Parts-of_clean clean)

  pub merge-Parts :
      {r : MergeResult} → merge_paybond_policies approved base overlay ≡ ok r → Parts r.effective
  unfolding merge_paybond_policies
  merge-Parts h = Parts-of_extending overlay.extends_ h
