-- ===== src/Policy/Serialize.antt =====
-- `policy_document_to_dict` of src/paybond_kit/policy/schema.py: a document as it is written out.
pub mod Tools
pub mod Sections
pub mod Documents
use paybond_kit_python.Prelude.{
  ℕ, String, Bool, true, false, Option, none, some, List, [], ◌∷◌, ◌++◌, map, is_some,
}
use paybond_kit_python.Prelude.Dict.{Dict}
use paybond_kit_python.Policy.Value.{
  Value, Number, bool, int, float, str, list, mapping, fields_of, items_of,
}
use paybond_kit_python.Policy.Schema.{
  ToolEntry, Binding, Budget, IntentSection, AdapterSection, DocumentV1,
}

-- `if x is not None: payload[key] = x`
abbrev pub field_of : {A : Type 0} → String → (A → Value) → Option A → Dict Value
field_of key emit none = []
field_of key emit (some a) = (key, emit a) ∷ []

unfoldable pub tool_payload : ToolEntry → Dict Value
tool_payload entry =
    ("side_effecting", bool entry.side_effecting)
    ∷ (field_of "max_spend_cents" int entry.max_spend_cents
        ++ (field_of "spend_from_args" str entry.spend_from_args
            ++ (field_of "evidence_preset" str entry.evidence_preset
                ++ (field_of "vendor_pack" str entry.vendor_pack
                    ++ field_of "operation" str entry.operation))))

abbrev pub tool_value : ToolEntry → Value
tool_value entry = mapping (fields_of (tool_payload entry))

unfoldable pub tools_payload : Dict ToolEntry → Dict Value
unfolding tool_payload
tools_payload [] = []
tools_payload ((tool_name, entry) ∷ rest) = (tool_name, tool_value entry) ∷ tools_payload rest

unfoldable pub binding_payload : Binding → Dict Value
binding_payload binding =
    ("template_id", str binding.template_id)
    ∷ (field_of "version_seq" int binding.version_seq
        ++ field_of "head_digest" str binding.head_digest)

-- The budget stands as it was decoded; a cap is written last here, as the float that it equals.
unfoldable pub budget_payload : Budget → Dict Value
budget_payload budget = budget.others ++ field_of "max_spend_usd" float budget.max_spend_usd

-- `if allowed_tools: payload["allowed_tools"] = list(allowed_tools)`
unfoldable pub names_payload : List String → Dict Value
names_payload [] = []
names_payload (name ∷ names) = ("allowed_tools", list (items_of (map str (name ∷ names)))) ∷ []

unfoldable pub intent_payload : IntentSection → Dict Value
unfolding binding_payload budget_payload names_payload
intent_payload intent =
    field_of "policy_binding" (λ b. mapping (fields_of (binding_payload b))) intent.policy_binding
    ++ (field_of "budget" (λ b. mapping (fields_of (budget_payload b))) intent.budget
        ++ names_payload intent.allowed_tools)

unfoldable pub adapter_payload : Option AdapterSection → Dict Value
adapter_payload none = []
adapter_payload (some adapter) =
    field_of "adapter" (λ b. mapping (fields_of (("deny_provider_executed_tools", bool b) ∷ [])))
      adapter.deny_provider_executed_tools

unfoldable pub policy_document_to_dict : DocumentV1 → Value
unfolding tools_payload intent_payload adapter_payload
policy_document_to_dict doc = mapping (
    fields_of (
      ("version", int 1)
      ∷ ("name", str doc.name)
      ∷ ("default_deny", bool doc.default_deny)
      ∷ ("tools", mapping (fields_of (tools_payload doc.tools)))
      ∷ (field_of "intent" (λ i. mapping (fields_of (intent_payload i))) doc.intent
          ++ adapter_payload doc.adapter)))
