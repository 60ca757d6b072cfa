-- ===== src/Policy/Merge/Engine/Laws.antt =====
-- What a successful merge guarantees of the effective document, whatever the tenant wrote.
use paybond_kit_python.Prelude.{
  String, ◌≡◌, refl, subst, Bool, true, false, ◌||◌, Option, none, some, List, arith, ◌≢◌,
}
use paybond_kit_python.Prelude.Dict.{lookup}
use paybond_kit_python.Policy.Schema.{IntentSection, Budget, Number, nan, DocumentV2, Document}
use paybond_kit_python.Policy.Merge.Tools.Loops.{
  Refines, AllWellFormed, EntriesWellFormed, override_tools-Improves, append_tools-Improves,
  append_tools-Refines, Refines-trans,
}
use paybond_kit_python.Policy.Merge.Tools.Added.{lookup-override_tools, lookup-append_tools}
use paybond_kit_python.Policy.Merge.Sections.Laws.{
  IntentHeld, merge_intent-IntentHeld, IsVisible, SectionCapped, merge_intent-SectionCapped,
}
use paybond_kit_python.Policy.Merge.Adapter.{flag_of, is_true, is_false}
use paybond_kit_python.Policy.Merge.Adapter.Laws.{
  flag-merge_adapter_section, merge_adapter_section-not_relaxed,
}
use paybond_kit_python.Policy.Merge.Engine.Parts.{clone_tools_lem, overridden, added, merge-Parts}
use paybond_kit_python.Policy.Merge.Engine.{
  base_default_deny, base_tools, base_intent, base_adapter, clone_tools, override_flag,
  override_entries, override_intent, override_adapter, merge_default_deny, MergeResult, ok,
  merge_paybond_policies,
}

module _ (approved : List String) (base : Document) (overlay : DocumentV2) {r : MergeResult}
    (merged : merge_paybond_policies approved base overlay ≡ ok r) where
  -- In the document of a successful merge every tool of the base is there, is side-effecting if it
  -- was, and has a spend cap if it had one, which is at most the base's.
  pub merge-Refines : Refines (base_tools base) r.effective.tools
  merge-Refines =
      let p = merge-Parts approved base overlay merged in
      rw p.tools_eq (
        subst (λ t. Refines t (added approved base overlay).value)
          (clone_tools_lem (base_tools base))
          (Refines-trans
            (override_tools-Improves (override_entries overlay) (clone_tools (base_tools base))
              p.overrides_clean).refines
            (append_tools-Refines overlay.tools (overridden approved base overlay).value
              p.added_clean)))

  -- If the tools of the base and those that the overlay adds are well formed, so are all tools of
  -- the document of a successful merge: each side-effecting one names an evidence preset, and none
  -- sets both spend fields.
  pub merge-AllWellFormed :
      AllWellFormed (base_tools base)
      → EntriesWellFormed overlay.tools
      → AllWellFormed r.effective.tools
  merge-AllWellFormed b o =
      let p = merge-Parts approved base overlay merged in
      rw p.tools_eq (
        (append_tools-Improves overlay.tools (overridden approved base overlay).value o
            p.added_clean).well_formed
          ((override_tools-Improves (override_entries overlay) (clone_tools (base_tools base))
              p.overrides_clean).well_formed
            (rw clone_tools_lem b)))

  -- Under a name that the base has no tool for, the document of a successful merge has what the
  -- overlay adds there, or nothing.
  pub merge-lookup_added :
      (k : String)
      → lookup k (base_tools base) ≡ none
      → lookup k r.effective.tools ≡ lookup k overlay.tools
  merge-lookup_added k absent =
      let p = merge-Parts approved base overlay merged in
      rw (
        p.tools_eq,
        lookup-append_tools k overlay.tools (overridden approved base overlay).value p.added_clean,
        lookup-override_tools k (override_entries overlay) (clone_tools (base_tools base))
            (rw clone_tools_lem absent),
      )

  -- Where the base has an intent section, the document of a successful merge has one. If the base's
  -- allowlist is not empty, the merged one is not empty either and lies within it. If the base's
  -- binding names a template, the merged one names the same, no older version and, where the base
  -- pins a head digest, the same digest.
  pub merge-IntentHeld :
      (org : IntentSection) → base_intent base ≡ some org → IntentHeld org r.effective.intent
  merge-IntentHeld org e =
      let p = merge-Parts approved base overlay merged in
      rw (p.intent_eq, e)
        (merge_intent-IntentHeld org overlay.intent (override_intent overlay)
          (rw e at p.intent_clean))

  -- Where the base's budget has a cap that is a number, and the tenant's cap that the merge checks
  -- is a number or absent and is the one that the merged budget takes, the document of a successful
  -- merge has a cap and it is at most the base's.
  pub merge-SectionCapped :
      (cap : Number) (org : IntentSection) (budget : Budget)
      → base_intent base ≡ some org
      → org.budget ≡ some budget
      → budget.max_spend_usd ≡ some cap
      → cap ≢ nan
      → IsVisible overlay.intent (override_intent overlay)
      → SectionCapped cap r.effective.intent
  merge-SectionCapped cap org budget e b c n v =
      let p = merge-Parts approved base overlay merged in
      rw (p.intent_eq, e)
        (merge_intent-SectionCapped cap org budget b c n overlay.intent (override_intent overlay) v
          (rw e at p.intent_clean))

  -- The document of a successful merge denies by default exactly if the base, the overlay or the
  -- override says so.
  pub merge-default_deny :
      r.effective.default_deny
      ≡ (base_default_deny base || overlay.default_deny || is_true (override_flag overlay))
  unfolding merge_default_deny
  merge-default_deny =
      let p = merge-Parts approved base overlay merged in
      rw p.deny_eq (flag_lem (override_flag overlay))
    where
      flag_lem :
          (o : Option Bool)
          → (merge_default_deny (base_default_deny base) overlay.default_deny o).value
            ≡ (base_default_deny base || overlay.default_deny || is_true o)
      flag_lem none = ground arith
      flag_lem (some true) = refl
      flag_lem (some false) = refl

  -- The document of a successful merge denies provider-executed tools if the base does, and then
  -- neither the overlay nor its override says that it should not.
  pub merge-denies_provider_tools :
      is_true (flag_of (base_adapter base)) ≡ true
      → (is_true (flag_of r.effective.adapter) ≡ true)
        × (is_false (flag_of overlay.adapter) ≡ false)
        × (is_false (flag_of (override_adapter overlay)) ≡ false)
  merge-denies_provider_tools org =
      let p = merge-Parts approved base overlay merged in
      let kept =
        merge_adapter_section-not_relaxed (base_adapter base) overlay.adapter
          (override_adapter overlay) p.adapter_clean org in
      (
        rw (
          p.adapter_eq,
          flag-merge_adapter_section (base_adapter base) overlay.adapter (override_adapter overlay),
          org,
        ),
        kept.0,
        kept.1,
      )
