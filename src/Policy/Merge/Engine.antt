-- ===== src/Policy/Merge/Engine.antt =====
-- `merge_paybond_policies` and `to_effective_policy_document`.
pub mod Parts
pub mod Laws
pub mod Presets
mod Tests
use paybond_kit_python.Prelude.{
  String, Bool, true, false, not, ◌&&◌, ◌||◌, Option, none, some, List, [], ◌∷◌, is_some, truthy,
  bind, null, contains, if◌then◌else◌, str_eq,
}
use paybond_kit_python.Prelude.Dict.{Dict, lookup}
use paybond_kit_python.Policy.Schema.{
  ToolEntry, ToolOverride, Binding, BindingOverride, Budget, IntentSection, IntentOverride,
  AdapterSection, Overrides, Extends, DocumentV1, DocumentV2, Document, v1, v2, is_overlay,
}
use paybond_kit_python.Policy.Merge.Report.{
  Denial, Merged, pure, deny, apply, ◌>>=◌, ◌>>◌, preset_not_approved,
}
use paybond_kit_python.Policy.Merge.Tools.{clone_tool_entry, override_tools, append_tools}
use paybond_kit_python.Policy.Merge.Sections.{merge_intent}
use paybond_kit_python.Policy.Merge.Adapter.{merge_adapter_section}

-- The attributes that both versions of a document have.
abbrev pub base_name : Document → String
base_name (v1 d) = d.name
base_name (v2 d) = d.name

abbrev pub base_default_deny : Document → Bool
base_default_deny (v1 d) = d.default_deny
base_default_deny (v2 d) = d.default_deny

abbrev pub base_tools : Document → Dict ToolEntry
base_tools (v1 d) = d.tools
base_tools (v2 d) = d.tools

abbrev pub base_intent : Document → Option IntentSection
base_intent (v1 d) = d.intent
base_intent (v2 d) = d.intent

abbrev pub base_adapter : Document → Option AdapterSection
base_adapter (v1 d) = d.adapter
base_adapter (v2 d) = d.adapter

-- `{name: _clone_tool_entry(entry) for name, entry in document.tools.items()}`
pub clone_tools : Dict ToolEntry → Dict ToolEntry
clone_tools [] = []
clone_tools ((name, entry) ∷ rest) = (name, clone_tool_entry entry) ∷ clone_tools rest

-- _base_document_to_effective_v1
unfoldable pub base_document_to_effective : Document → DocumentV1
unfolding clone_tools clone_tool_entry
base_document_to_effective document = record {
  name = base_name document;
  default_deny = base_default_deny document;
  tools = clone_tools (base_tools document);
  intent = base_intent document;
  adapter = base_adapter document;
}

-- the overlay's override sections, `None` where `overrides` is absent
abbrev pub override_flag : DocumentV2 → Option Bool
override_flag overlay = bind overlay.overrides (λ o. o.default_deny)

abbrev pub tool_overrides : Option (Dict ToolOverride) → Dict ToolOverride
tool_overrides none = []
tool_overrides (some tools) = tools

abbrev pub override_entries : DocumentV2 → Dict ToolOverride
override_entries overlay = tool_overrides (bind overlay.overrides (λ o. o.tools))

abbrev pub override_intent : DocumentV2 → Option IntentOverride
override_intent overlay = bind overlay.overrides (λ o. o.intent)

abbrev pub override_adapter : DocumentV2 → Option AdapterSection
override_adapter overlay = bind overlay.overrides (λ o. o.adapter)

-- `_merge_stricter_default_deny` over the base's flag, the overlay's and the override's
pub merge_default_deny : Bool → Bool → Option Bool → Merged Bool
merge_default_deny base overlay none = pure (base || overlay)
merge_default_deny base overlay (some flag) =
    apply "overrides.default_deny" (base || overlay || flag)

-- `base_preset_id and preset != base_preset_id and preset not in approved`
abbrev unapproved : List String → Option String → Option String → Bool
unapproved approved (some old) (some new) =
    not (str_eq old "") && not (str_eq new old) && not (contains new approved)
unapproved approved _ _ = false

abbrev text_of : Option String → String
text_of none = ""
text_of (some s) = s

-- `set(approved_evidence_presets)` and the loop over the effective tools.
check_preset : List String → Dict ToolEntry → String → ToolEntry → Merged (Unit {0})
check_preset approved base tool_name entry =
    if entry.side_effecting
      && truthy entry.evidence_preset
      && unapproved approved (bind (lookup tool_name base) (λ e. e.evidence_preset))
          entry.evidence_preset
    then deny (preset_not_approved tool_name (text_of entry.evidence_preset)) tt
    else pure tt

check_presets : List String → Dict ToolEntry → Dict ToolEntry → Merged (Unit {0})
unfolding check_preset
check_presets approved base [] = pure tt
check_presets approved base ((tool_name, entry) ∷ rest) =
    check_preset approved base tool_name entry >> check_presets approved base rest

-- `if options and options.approved_evidence_presets`
pub check_approved : List String → Dict ToolEntry → Dict ToolEntry → Merged (Unit {0})
unfolding check_presets
check_approved [] base tools = pure tt
check_approved (a ∷ others) base tools = check_presets (a ∷ others) base tools

-- The merge, with what it writes to `denied` and to `overrides_applied`.
pub merge_effective : List String → Document → DocumentV2 → Merged DocumentV1
unfolding base_document_to_effective merge_default_deny override_tools append_tools merge_intent
    merge_adapter_section check_approved
merge_effective approved base overlay = do
  deny_flag ←
      merge_default_deny (base_default_deny base) overlay.default_deny (override_flag overlay)
  overridden ← override_tools (override_entries overlay) (base_document_to_effective base).tools
  tools ← append_tools overlay.tools overridden
  intent ← merge_intent (base_intent base) overlay.intent (override_intent overlay)
  adapter ← merge_adapter_section (base_adapter base) overlay.adapter (override_adapter overlay)
  check_approved approved (base_tools base) tools
  pure (record {
    name = overlay.name;
    default_deny = deny_flag;
    tools = tools;
    intent = intent;
    adapter = adapter;
  })

pub record MergeReport : Type 0 where
  pub org_policy_id : String
  pub org_id : String
  pub base_policy_name : String
  pub overlay_policy_name : String
  pub overrides_applied : List String
  pub denied_widenings : List Denial

pub record MergeResult : Type 0 where
  pub effective : DocumentV1
  pub report : MergeReport

-- `PaybondPolicyValidationError`, with the denials that its summary joins.
pub data MergeError : Type 0 where
  not_overlay : MergeError
  denied_widening : List Denial → MergeError

pub data Result (A : Type 0) : Type 0 where
  ok : A → Result A
  err : MergeError → Result A

-- The end of the merge: the value, `overrides_applied` and `denied`.
finish :
    Document → DocumentV2 → Extends → DocumentV1 → List String → List Denial → Result MergeResult
finish base overlay extended effective applied [] = ok (record {
  effective = effective;
  report = record {
    org_policy_id = extended.org_policy_id;
    org_id = extended.org_id;
    base_policy_name = base_name base;
    overlay_policy_name = overlay.name;
    overrides_applied = applied;
    denied_widenings = [];
  };
})
finish base overlay extended effective applied (d ∷ ds) = err (denied_widening (d ∷ ds))

merge_extending : List String → Document → DocumentV2 → Option Extends → Result MergeResult
unfolding finish merge_effective
merge_extending approved base overlay none = err not_overlay
merge_extending approved base overlay (some extended) =
    let m = merge_effective approved base overlay in
    finish base overlay extended m.value m.applied m.denied

-- The list is `options.approved_evidence_presets`, empty where there are no options.
unfoldable pub merge_paybond_policies : List String → Document → DocumentV2 → Result MergeResult
unfolding merge_extending
merge_paybond_policies approved base overlay =
    merge_extending approved base overlay overlay.extends_

pub to_effective_policy_document : Document → Result DocumentV1
unfolding base_document_to_effective is_overlay
to_effective_policy_document (v1 d) = ok (base_document_to_effective (v1 d))
to_effective_policy_document (v2 d) =
    if is_overlay d then err not_overlay else ok (base_document_to_effective (v2 d))
