-- ===== src/Policy/Parse/Tool.antt =====
-- `_parse_tool_entry`, `_parse_tool_override_entry` and `_parse_tools_map`.
pub mod Laws
use paybond_kit_python.Prelude.{
  ℕ, String, ◌<>◌, Bool, true, false, not, ◌&&◌, Option, none, some, List, [], ◌∷◌, is_some, truthy,
  ltb, length, if◌then◌else◌,
}
use paybond_kit_python.Prelude.Dict.{Dict, insert}
use paybond_kit_python.Prelude.Outcome.{Outcome, raised, returned, ◌>>=◌, ◌>>◌}
use paybond_kit_python.Policy.Value.{Value, mapping, entries, get}
use paybond_kit_python.Policy.Schema.{ToolEntry, ToolOverride}
use paybond_kit_python.Policy.Parse.Format.{is_identifier, is_json_path, is_tool_name}
use paybond_kit_python.Policy.Parse.Expect.{
  Parsed, at, fail, check, expect_mapping, expect_bool, expect_int, expect_str, expect_format,
  expect_within, optional, reject_unknown, require_some, mutually_exclusive, preset_missing,
  not_an_object, too_few_entries, bad_key,
}

abbrev pub tool_keys : List String
tool_keys =
    "side_effecting" ∷ "max_spend_cents" ∷ "spend_from_args" ∷ "evidence_preset" ∷ "vendor_pack"
    ∷ "operation" ∷ []

-- The optional fields that both parsers read in the same way.
module _ (entry : Dict Value) (path : String) where
  unfoldable pub parse_max_spend : Parsed (Option ℕ)
  parse_max_spend =
      optional "max_spend_cents" entry (λ v. expect_int v (path <> ".max_spend_cents") 0)

  unfoldable pub parse_spend_from_args : Parsed (Option String)
  parse_spend_from_args =
      optional "spend_from_args" entry
        (λ v. expect_format is_json_path v (at (path <> ".spend_from_args")))

  unfoldable pub parse_evidence_preset : Parsed (Option String)
  parse_evidence_preset =
      optional "evidence_preset" entry
        (λ v. expect_format is_identifier v (at (path <> ".evidence_preset")))

  unfoldable pub parse_vendor_pack : Parsed (Option String)
  parse_vendor_pack =
      optional "vendor_pack" entry
        (λ v. expect_format is_identifier v (at (path <> ".vendor_pack")))

  unfoldable pub parse_operation : Parsed (Option String)
  parse_operation =
      optional "operation" entry (λ v. expect_within 128 v (at (path <> ".operation")))

  -- Both of `max_spend_cents` and `spend_from_args`, which may not both be set.
  unfoldable pub parse_spend : Parsed (Option ℕ × Option String)
  unfolding parse_max_spend parse_spend_from_args
  parse_spend = do
    max_spend_cents ← parse_max_spend
    spend_from_args ← parse_spend_from_args
    check (not (is_some max_spend_cents && is_some spend_from_args)) (at path) mutually_exclusive
    returned (max_spend_cents, spend_from_args)

abbrev pub expect_preset : Bool → Option String → String → Parsed (Unit {0})
expect_preset side_effecting evidence_preset path =
    check (not (side_effecting && not (truthy evidence_preset))) (at (path <> ".evidence_preset"))
      preset_missing

unfoldable pub parse_tool_entry : Value → String → Parsed ToolEntry
unfolding parse_spend parse_evidence_preset parse_vendor_pack parse_operation
parse_tool_entry raw path = do
  entry ← expect_mapping raw path
  reject_unknown tool_keys entry path
  side_effecting ← expect_bool (get "side_effecting" entry) (path <> ".side_effecting")
  spend ← parse_spend entry path
  evidence_preset ← parse_evidence_preset entry path
  expect_preset side_effecting evidence_preset path
  vendor_pack ← parse_vendor_pack entry path
  operation ← parse_operation entry path
  returned (record {
    side_effecting = side_effecting;
    max_spend_cents = spend.0;
    spend_from_args = spend.1;
    evidence_preset = evidence_preset;
    vendor_pack = vendor_pack;
    operation = operation;
  })

-- `side_effecting and ...` on a flag that may be None
abbrev is_set : Option Bool → Bool
is_set none = false
is_set (some b) = b

unfoldable pub parse_tool_override_entry : Value → String → Parsed ToolOverride
unfolding parse_spend parse_evidence_preset parse_vendor_pack parse_operation
parse_tool_override_entry raw path = do
  entry ← expect_mapping raw path
  reject_unknown tool_keys entry path
  require_some entry path
  side_effecting ← optional "side_effecting" entry (λ v. expect_bool v (path <> ".side_effecting"))
  spend ← parse_spend entry path
  evidence_preset ← parse_evidence_preset entry path
  vendor_pack ← parse_vendor_pack entry path
  operation ← parse_operation entry path
  expect_preset (is_set side_effecting) evidence_preset path
  returned (record {
    side_effecting = side_effecting;
    max_spend_cents = spend.0;
    spend_from_args = spend.1;
    evidence_preset = evidence_preset;
    vendor_pack = vendor_pack;
    operation = operation;
  })

-- The loop over a mapping of tools, whatever an entry is parsed to.
module _ {E : Type 0} (parse_entry : Value → String → Parsed E) (path : String) where
  unfoldable pub parse_tools_from : Dict Value → Dict E → Parsed (Dict E)
  parse_tools_from [] tools = returned tools
  parse_tools_from ((tool_name, entry_raw) ∷ rest) tools = do
    check (is_tool_name tool_name) (at path) (bad_key tool_name)
    entry ← parse_entry entry_raw (path <> "." <> tool_name)
    parse_tools_from rest (insert tool_name entry tools)

unfoldable pub parse_tools_map : Value → String → ℕ → Parsed (Dict ToolEntry)
unfolding parse_tools_from
parse_tools_map raw path min_entries = do
  tools ← expect_mapping raw path
  check (not (ltb (length tools) min_entries)) (at path) (too_few_entries min_entries)
  parse_tools_from parse_tool_entry path tools []
