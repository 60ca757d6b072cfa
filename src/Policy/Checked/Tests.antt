-- ===== src/Policy/Checked/Tests.antt =====
-- Documents as they are decoded, what the parsers make of them, and the theorems about them.
use paybond_kit_python.Prelude.{◌≡◌, refl, true, false, none, some, [], ◌∷◌}
use paybond_kit_python.Prelude.Dict.{Dict, lookup, insert, remove, update}
use paybond_kit_python.Prelude.Outcome.{returned}
use paybond_kit_python.Policy.Value.{
  Value, bool, int, float, negative_float, str, list, mapping, fields_of, items_of, get,
}
use paybond_kit_python.Policy.Schema.{
  ToolEntry, ToolOverride, DocumentV1, DocumentV2, Number, rational, nan, v1,
}
use paybond_kit_python.Policy.Merge.Engine.{MergeResult, ok, merge_paybond_policies}
use paybond_kit_python.Policy.Merge.Tools.Loops.{AllWellFormed}
use paybond_kit_python.Policy.Parse.Expect.{
  at, item, fail, mutually_exclusive, preset_missing, below_minimum, not_unique, bad_format,
  expect_mapping, reject_unknown, expect_format, expect_bool, expect_int, optional,
}
use paybond_kit_python.Policy.Parse.Tool.{
  parse_tool_entry, parse_tools_map, parse_tool_override_entry,
}
use paybond_kit_python.Policy.Parse.Format.{
  is_policy_name, is_tool_name, is_identifier, is_currency, is_org_id, is_json_path,
}
use paybond_kit_python.Policy.Parse.Document.{
  parse_adapter, parse_extends, parse_overrides, parse_paybond_policy_document_v1,
  parse_paybond_policy_document_v2, parse_paybond_policy_document,
}
use paybond_kit_python.Policy.Parse.Intent.{parse_intent, parse_budget, parse_allowed_tools}
use paybond_kit_python.Policy.Serialize.{policy_document_to_dict}
use paybond_kit_python.Policy.Serialize.Documents.{parse-policy_document_to_dict}
use paybond_kit_python.Policy.Merge.Report.{IsClean}
use paybond_kit_python.Policy.Merge.Intent.{merge_budget, cap_of}
use paybond_kit_python.Policy.Schema.{Budget, gt}
use paybond_kit_python.Policy.Checked.NotANumber.{nan_budget, nan_cap-escapes}
use paybond_kit_python.Policy.Checked.{parsed-merge-AllWellFormed}

abbrev object : Dict Value → Value
object d = mapping (fields_of d)

abbrev raw_pay : Dict Value
raw_pay =
    ("side_effecting", bool true)
    ∷ ("max_spend_cents", int 5000)
    ∷ ("evidence_preset", str "receipt")
    ∷ []

abbrev raw_org : Dict Value
raw_org =
    ("version", int 1)
    ∷ ("name", str "org")
    ∷ ("default_deny", bool true)
    ∷ ("tools", object (("pay", object raw_pay) ∷ []))
    ∷ (
      "intent",
      object (
          ("budget", object (("max_spend_usd", int 100) ∷ ("currency", str "usd") ∷ []))
          ∷ ("allowed_tools", list (items_of (str "pay" ∷ [])))
          ∷ []),
    )
    ∷ ("adapter", object (("deny_provider_executed_tools", bool true) ∷ []))
    ∷ []

abbrev pay : ToolEntry
pay = record {
  side_effecting = true;
  max_spend_cents = some 5000;
  spend_from_args = none;
  evidence_preset = some "receipt";
  vendor_pack = none;
  operation = none;
}

abbrev org : DocumentV1
org = record {
  name = "org";
  default_deny = true;
  tools = ("pay", pay) ∷ [];
  intent = some (record {
    policy_binding = none;
    budget =
        some
          (record { max_spend_usd = some (rational 100 0); others = ("currency", str "usd") ∷ [] });
    allowed_tools = "pay" ∷ [];
  });
  adapter = some (record { deny_provider_executed_tools = some true });
}

parses_org : parse_paybond_policy_document_v1 (object raw_org) ≡ returned org
unfolding parse_paybond_policy_document parse_paybond_policy_document_v1
    parse_paybond_policy_document_v2 get lookup insert remove expect_mapping reject_unknown
    expect_format is_policy_name is_org_id expect_bool parse_tools_map is_tool_name parse_tool_entry
    optional expect_int is_identifier parse_intent parse_budget is_currency parse_allowed_tools
    parse_adapter parse_extends parse_overrides parse_tool_override_entry
parses_org = refl

parse-policy_document_to_dict_example :
    parse_paybond_policy_document_v1 (policy_document_to_dict org) ≡ returned org
parse-policy_document_to_dict_example =
    parse-policy_document_to_dict (object raw_org) org parses_org

-- An overlay that lowers the cap of `pay` and adds a tool that only reads.
abbrev raw_tenant : Dict Value
raw_tenant =
    ("version", int 2)
    ∷ ("name", str "tenant")
    ∷ ("default_deny", bool false)
    ∷ ("extends", object (("org_policy_id", str "org") ∷ ("org_id", str "org_a") ∷ []))
    ∷ (
      "overrides",
      object (("tools", object (("pay", object (("max_spend_cents", int 1000) ∷ [])) ∷ [])) ∷ []),
    )
    ∷ ("tools", object (("read", object (("side_effecting", bool false) ∷ [])) ∷ []))
    ∷ []

abbrev read : ToolEntry
read = record {
  side_effecting = false;
  max_spend_cents = none;
  spend_from_args = none;
  evidence_preset = none;
  vendor_pack = none;
  operation = none;
}

abbrev lower_cap : ToolOverride
lower_cap = record {
  side_effecting = none;
  max_spend_cents = some 1000;
  spend_from_args = none;
  evidence_preset = none;
  vendor_pack = none;
  operation = none;
}

abbrev tenant : DocumentV2
tenant = record {
  name = "tenant";
  default_deny = false;
  tools = ("read", read) ∷ [];
  extends_ =
      some (record {
        org_policy_id = "org";
        org_id = "org_a";
        base_digest = none;
        base_policy = none;
      });
  overrides = some (record {
    default_deny = none;
    tools = some (("pay", lower_cap) ∷ []);
    intent = none;
    adapter = none;
  });
  intent = none;
  adapter = none;
}

parses_base : parse_paybond_policy_document (object raw_org) ≡ returned (v1 org)
unfolding parse_paybond_policy_document parse_paybond_policy_document_v1
    parse_paybond_policy_document_v2 get lookup insert remove expect_mapping reject_unknown
    expect_format is_policy_name is_org_id expect_bool parse_tools_map is_tool_name parse_tool_entry
    optional expect_int is_identifier parse_intent parse_budget is_currency parse_allowed_tools
    parse_adapter parse_extends parse_overrides parse_tool_override_entry
parses_base = refl

parses_tenant : parse_paybond_policy_document_v2 (object raw_tenant) ≡ returned tenant
unfolding parse_paybond_policy_document parse_paybond_policy_document_v1
    parse_paybond_policy_document_v2 get lookup insert remove expect_mapping reject_unknown
    expect_format is_policy_name is_org_id expect_bool parse_tools_map is_tool_name parse_tool_entry
    optional expect_int is_identifier parse_intent parse_budget is_currency parse_allowed_tools
    parse_adapter parse_extends parse_overrides parse_tool_override_entry
parses_tenant = refl

abbrev merged : MergeResult
merged = record {
  effective = record {
    name = "tenant";
    default_deny = true;
    tools = ("pay", record pay { max_spend_cents = some 1000 }) ∷ ("read", read) ∷ [];
    intent = org.intent;
    adapter = org.adapter;
  };
  report = record {
    org_policy_id = "org";
    org_id = "org_a";
    base_policy_name = "org";
    overlay_policy_name = "tenant";
    overrides_applied = "tools.pay.max_spend_cents" ∷ [];
    denied_widenings = [];
  };
}

merges : merge_paybond_policies [] (v1 org) tenant ≡ ok merged
unfolding merge_paybond_policies lookup insert update
merges = refl

parsed-merge-AllWellFormed_example : AllWellFormed merged.effective.tools
parsed-merge-AllWellFormed_example =
    parsed-merge-AllWellFormed (object raw_org) (object raw_tenant) (v1 org) tenant [] merged
      parses_base parses_tenant merges

-- Both spend fields, a side-effecting tool without a preset, and a negative amount are errors.
refuses_both_spends :
    parse_tool_entry
      (object (
        ("side_effecting", bool false)
        ∷ ("max_spend_cents", int 1)
        ∷ ("spend_from_args", str "order.total")
        ∷ []))
      "tools.pay"
    ≡ fail (at "tools.pay") mutually_exclusive
unfolding get lookup expect_mapping reject_unknown expect_format expect_bool parse_tool_entry
    optional expect_int is_json_path
refuses_both_spends = refl

refuses_missing_preset :
    parse_tool_entry (object (("side_effecting", bool true) ∷ [])) "tools.pay"
    ≡ fail (at "tools.pay.evidence_preset") preset_missing
unfolding get lookup expect_mapping reject_unknown expect_format expect_bool parse_tool_entry
    optional expect_int is_json_path
refuses_missing_preset = refl

refuses_negative_cap :
    parse_budget
      (object (("currency", str "usd") ∷ ("max_spend_usd", negative_float) ∷ []))
      "intent.budget"
    ≡ fail (at "intent.budget.max_spend_usd") (below_minimum 0)
unfolding get lookup expect_mapping expect_format is_currency optional parse_budget
refuses_negative_cap = refl

-- A cap that is not a number passes, since `nan < 0` is false.
accepts_nan :
    parse_budget
      (object (("currency", str "usd") ∷ ("max_spend_usd", float nan) ∷ []))
      "intent.budget"
    ≡ returned (record { max_spend_usd = some nan; others = ("currency", str "usd") ∷ [] })
unfolding get lookup remove expect_mapping expect_format is_currency optional parse_budget
accepts_nan = refl

refuses_repeated_name :
    parse_allowed_tools
      (("allowed_tools", list (items_of (str "pay" ∷ str "pay" ∷ []))) ∷ [])
      "intent"
    ≡ fail (at "intent.allowed_tools") not_unique
unfolding lookup expect_format is_tool_name parse_allowed_tools
refuses_repeated_name = refl

refuses_capital :
    parse_allowed_tools
      (("allowed_tools", list (items_of (str "pay" ∷ str "Pay" ∷ []))) ∷ [])
      "intent"
    ≡ fail (item "intent.allowed_tools" 1) bad_format
unfolding lookup expect_format is_tool_name parse_allowed_tools
refuses_capital = refl

abbrev org_budget : Budget
org_budget = record { max_spend_usd = some (rational 100 0); others = ("currency", str "usd") ∷ [] }

nan_cap-escapes_example :
    (parse_budget
        (mapping (fields_of (("currency", str "usd") ∷ ("max_spend_usd", float nan) ∷ [])))
        "intent.budget"
      ≡ returned (nan_budget "usd"))
    × IsClean (merge_budget (some org_budget) (some (nan_budget "usd")) none)
    × (cap_of (merge_budget (some org_budget) (some (nan_budget "usd")) none).value ≡ some nan)
    × ((amount : Number) → gt amount nan ≡ false)
unfolding is_currency
nan_cap-escapes_example = nan_cap-escapes "intent.budget" "usd" org_budget refl
