-- ===== src/Policy/Merge/Tools.antt =====
-- `_merge_tool_fields`, and the two loops of `merge_paybond_policies` over tools.
pub mod Laws
pub mod Loops
pub mod Added
use paybond_kit_python.Prelude.{
  ℕ, String, ◌<>◌, Bool, true, false, not, ◌&&◌, Option, none, some, List, [], ◌∷◌, ltb, is_some,
  truthy, if◌then◌else◌, str_eq,
}
use paybond_kit_python.Prelude.Dict.{Dict, lookup, insert}
use paybond_kit_python.Policy.Schema.{ToolEntry, ToolOverride}
use paybond_kit_python.Policy.Merge.Report.{
  Merged, pure, deny, apply, ◌>>=◌, disable_side_effecting, raise_spend_cap, override_spend_mode,
  missing_evidence_preset, conflicting_spend_fields, unknown_org_tool, replace_org_tool,
}

unfoldable pub clone_tool_entry : ToolEntry → ToolEntry
clone_tool_entry entry = record {
  side_effecting = entry.side_effecting;
  max_spend_cents = entry.max_spend_cents;
  spend_from_args = entry.spend_from_args;
  evidence_preset = entry.evidence_preset;
  vendor_pack = entry.vendor_pack;
  operation = entry.operation;
}

-- `x != y` on texts that may be `None`
abbrev pub differs : Option String → Option String → Bool
differs none none = false
differs (some x) (some y) = not (str_eq x y)
differs _ _ = true

-- The steps of `_merge_tool_fields`, each on the entry that the steps before it have built.
module _ (base : ToolEntry) (tool_name : String) where
  merge_side_effecting : Option Bool → ToolEntry → Merged ToolEntry
  merge_side_effecting none merged = pure merged
  merge_side_effecting (some flag) merged =
      if base.side_effecting && not flag
      then deny (disable_side_effecting tool_name) merged
      else apply ("tools." <> tool_name <> ".side_effecting")
          (record merged { side_effecting = flag })

  set_cap : ℕ → ToolEntry → Merged ToolEntry
  set_cap cents merged =
      apply ("tools." <> tool_name <> ".max_spend_cents")
        (record merged { max_spend_cents = some cents; spend_from_args = none })

  merge_max_spend : Option ℕ → ToolEntry → Merged ToolEntry
  unfolding set_cap
  merge_max_spend none merged = pure merged
  merge_max_spend (some cents) merged = elim base.max_spend_cents [
    | none ↦ set_cap cents merged
    | some cap ↦
        if ltb cap cents
        then deny (raise_spend_cap tool_name cents cap) merged
        else set_cap cents merged
  ]

  merge_spend_from_args : Option String → ToolEntry → Merged ToolEntry
  merge_spend_from_args none merged = pure merged
  merge_spend_from_args (some field) merged =
      if is_some base.max_spend_cents
      then deny (override_spend_mode tool_name) merged
      else apply ("tools." <> tool_name <> ".spend_from_args")
          (record merged { max_spend_cents = none; spend_from_args = some field })

  -- `report.org_policy_id` is a text of the overlay's `extends`, never `None`.
  merge_evidence_preset : Option String → ToolEntry → Merged ToolEntry
  merge_evidence_preset none merged = pure merged
  merge_evidence_preset (some preset) merged =
      let patched : ToolEntry = record merged { evidence_preset = some preset } in
      if differs (some preset) base.evidence_preset
      then apply ("tools." <> tool_name <> ".evidence_preset") patched
      else pure patched

  merge_vendor_pack : Option String → ToolEntry → Merged ToolEntry
  merge_vendor_pack none merged = pure merged
  merge_vendor_pack (some pack) merged =
      apply ("tools." <> tool_name <> ".vendor_pack") (record merged { vendor_pack = some pack })

  merge_operation : Option String → ToolEntry → Merged ToolEntry
  merge_operation none merged = pure merged
  merge_operation (some op) merged =
      apply ("tools." <> tool_name <> ".operation") (record merged { operation = some op })

  require_preset : ToolEntry → Merged ToolEntry
  require_preset merged =
      if merged.side_effecting && not (truthy merged.evidence_preset)
      then deny (missing_evidence_preset tool_name) merged
      else pure merged

  require_one_spend_field : ToolEntry → Merged ToolEntry
  require_one_spend_field merged =
      if is_some merged.max_spend_cents && is_some merged.spend_from_args
      then deny (conflicting_spend_fields tool_name) merged
      else pure merged

unfoldable pub merge_tool_fields : ToolEntry → ToolOverride → String → Merged ToolEntry
unfolding clone_tool_entry merge_side_effecting merge_max_spend merge_spend_from_args
    merge_evidence_preset merge_vendor_pack merge_operation require_preset require_one_spend_field
merge_tool_fields base patch tool_name = do
  a ← merge_side_effecting base tool_name patch.side_effecting (clone_tool_entry base)
  b ← merge_max_spend base tool_name patch.max_spend_cents a
  c ← merge_spend_from_args base tool_name patch.spend_from_args b
  d ← merge_evidence_preset base tool_name patch.evidence_preset c
  e ← merge_vendor_pack base tool_name patch.vendor_pack d
  f ← merge_operation base tool_name patch.operation e
  g ← require_preset base tool_name f
  require_one_spend_field base tool_name g

-- `for tool_name, patch in overlay.overrides.tools.items()`, one round, by what the table has
override_found : String → ToolOverride → Dict ToolEntry → Option ToolEntry → Merged (Dict ToolEntry)
override_found tool_name patch tools none = deny (unknown_org_tool tool_name) tools
override_found tool_name patch tools (some existing) = do
  entry ← merge_tool_fields existing patch tool_name
  pure (insert tool_name entry tools)

unfoldable pub override_tools : Dict ToolOverride → Dict ToolEntry → Merged (Dict ToolEntry)
unfolding merge_tool_fields override_found
override_tools [] tools = pure tools
override_tools ((tool_name, patch) ∷ rest) tools =
    override_found tool_name patch tools (lookup tool_name tools) >>= override_tools rest

-- `for tool_name, entry in overlay.tools.items()`, one round, by what the table has
append_found : String → ToolEntry → Dict ToolEntry → Option ToolEntry → Merged (Dict ToolEntry)
append_found tool_name entry tools (some _) = deny (replace_org_tool tool_name) tools
append_found tool_name entry tools none = pure (insert tool_name (clone_tool_entry entry) tools)

unfoldable pub append_tools : Dict ToolEntry → Dict ToolEntry → Merged (Dict ToolEntry)
unfolding clone_tool_entry append_found
append_tools [] tools = pure tools
append_tools ((tool_name, entry) ∷ rest) tools =
    append_found tool_name entry tools (lookup tool_name tools) >>= append_tools rest
