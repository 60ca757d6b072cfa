-- ===== src/Agent/Registry.antt =====
-- src/paybond_kit/agent/registry.py: the tools that spend. The evidence and attestation mappers of
-- an entry are only passed on and are left out; `known` stands for `get_completion_preset`, which
-- reads a catalogue from a file.
pub mod Laws
mod Tests
use paybond_kit_python.Prelude.{
  ℕ, String, Bool, true, false, not, ◌&&◌, ◌||◌, Option, none, some, List, [], ◌∷◌, contains,
  if◌then◌else◌, str_eq, is_some,
}
use paybond_kit_python.Prelude.Dict.{Dict, lookup, insert}
use paybond_kit_python.Prelude.Text.{strip}
use paybond_kit_python.Prelude.Outcome.{Outcome, returned, raised, ◌>>=◌}

-- A price, or a function of the call's arguments.
pub data SpendCents (Args : Type 0) : Type 0 where
  fixed : ℕ → SpendCents Args
  resolver : (Args → Option ℕ) → SpendCents Args

pub record ToolPolicy (Args : Type 0) : Type 0 where
  pub operation : Option String
  pub spend_cents : Option (SpendCents Args)
  pub evidence_preset : Option String

pub record SideEffectingEntry (Args : Type 0) : Type 0 where
  pub tool_name : String
  pub operation : String
  pub evidence_preset : String
  pub spend_cents : Option (SpendCents Args)

-- PaybondToolRegistryValidationError, with what each message quotes
pub data RegistryError : Type 0 where
  empty_tool_name : RegistryError
  missing_preset : String → RegistryError
  unknown_preset : String → String → RegistryError
  empty_operation : String → RegistryError
  duplicate_operation : String → String → String → RegistryError
  unregistered_operation : String → RegistryError

abbrev pub Checked : Type 0 → Type 0
Checked A = Outcome RegistryError A

abbrev get_or : Option String → String → String
get_or none d = d
get_or (some s) d = s

pub record Tables (Args : Type 0) : Type 0 where
  pub entries : Dict (SideEffectingEntry Args)
  pub operations : Dict String

-- `previous_tool is not None and previous_tool != tool_name`
abbrev taken_by : String → Option String → Bool
taken_by tool_name none = false
taken_by tool_name (some previous) = not (str_eq previous tool_name)

module _ {Args : Type 0} where
  -- The end of a round: the test for a duplicate, and the two writes.
  register :
      String
      → String
      → String
      → Option (SpendCents Args)
      → Tables Args
      → Option String
      → Checked (Tables Args)
  register tool_name preset operation spend t previous =
      if taken_by tool_name previous
      then raised (duplicate_operation operation (get_or previous "") tool_name)
      else returned (record {
        entries =
            insert tool_name
              (record {
                tool_name = tool_name;
                operation = operation;
                evidence_preset = preset;
                spend_cents = spend;
              })
              t.entries;
        operations = insert operation tool_name t.operations;
      })

  -- One round of the loop of `_normalize_side_effecting`.
  normalize_tool : (String → Bool) → String → ToolPolicy Args → Tables Args → Checked (Tables Args)
  unfolding register
  normalize_tool known tool_name policy t =
      let preset = strip (get_or policy.evidence_preset "") in
      let operation = strip (get_or policy.operation tool_name) in
      if str_eq (strip tool_name) ""
      then raised empty_tool_name
      else if str_eq preset ""
      then raised (missing_preset tool_name)
      else if not (known preset)
      then raised (unknown_preset tool_name preset)
      else if str_eq operation ""
      then raised (empty_operation tool_name)
      else register tool_name preset operation policy.spend_cents t (lookup operation t.operations)

  normalize_all : (String → Bool) → Dict (ToolPolicy Args) → Tables Args → Checked (Tables Args)
  unfolding normalize_tool
  normalize_all known [] t = returned t
  normalize_all known ((tool_name, policy) ∷ rest) t =
      normalize_tool known tool_name policy t >>= normalize_all known rest

  unfoldable pub normalize_side_effecting :
      (String → Bool) → Dict (ToolPolicy Args) → Checked (Dict (SideEffectingEntry Args))
  unfolding normalize_all
  normalize_side_effecting known policies =
      normalize_all known policies (record { entries = []; operations = [] }) >>= λ t.
      returned t.entries

  -- `{entry.operation for entry in self._side_effecting.values()}`
  operations_of : Dict (SideEffectingEntry Args) → List String
  operations_of [] = []
  operations_of ((_, entry) ∷ rest) = entry.operation ∷ operations_of rest

pub record ToolRegistry (Args : Type 0) : Type 0 where
  pub default_deny : Bool
  pub side_effecting : Dict (SideEffectingEntry Args)
  pub operations : List String

pub data Resolution (Args : Type 0) : Type 0 where
  passthrough : String → Resolution Args
  side_effecting : String → String → SideEffectingEntry Args → Resolution Args
  denied : String → String → Resolution Args

-- `allowed_tools is not None and operation in allowed_tools`
abbrev is_listed : String → Option (List String) → Bool
is_listed operation none = false
is_listed operation (some allowed_tools) = contains operation allowed_tools

check_registered : List String → List String → Checked (Unit {0})
check_registered operations [] = returned tt
check_registered operations (operation ∷ rest) =
    let more = check_registered operations rest in
    if contains operation operations then more else raised (unregistered_operation operation)

module _ {Args : Type 0} where
  -- `PaybondToolRegistry.__init__`
  unfoldable pub create_registry :
      (String → Bool) → Bool → Dict (ToolPolicy Args) → Checked (ToolRegistry Args)
  unfolding normalize_side_effecting operations_of
  create_registry known default_deny policies =
      normalize_side_effecting known policies >>= λ entries. returned (record {
        default_deny = default_deny;
        side_effecting = entries;
        operations = operations_of entries;
      })

  spend_of : Option (SideEffectingEntry Args) → Args → Option ℕ
  spend_of none args = none
  spend_of (some entry) args = elim entry.spend_cents [
    | none ↦ none
    | some price ↦ elim price [ fixed cents ↦ some cents | resolver f ↦ f args ]
  ]

  unfoldable pub resolve_spend_cents : ToolRegistry Args → String → Args → Option ℕ
  unfolding spend_of
  resolve_spend_cents registry tool_name args =
      spend_of (lookup tool_name registry.side_effecting) args

  abbrev operation_or : Option (SideEffectingEntry Args) → String → String
  operation_or none tool_name = tool_name
  operation_or (some entry) tool_name = entry.operation

  unfoldable pub resolve_operation : ToolRegistry Args → String → String
  resolve_operation registry tool_name =
      operation_or (lookup tool_name registry.side_effecting) tool_name

  resolve_found :
      ToolRegistry Args
      → String
      → Option (List String)
      → Option (SideEffectingEntry Args)
      → Resolution Args
  unfolding resolve_operation
  resolve_found registry tool_name allowed_tools (some entry) =
      side_effecting tool_name entry.operation entry
  resolve_found registry tool_name allowed_tools none =
      let operation = resolve_operation registry tool_name in
      if registry.default_deny && is_listed operation allowed_tools
      then denied tool_name operation
      else passthrough tool_name

  unfoldable pub resolve_tool : ToolRegistry Args → String → Option (List String) → Resolution Args
  unfolding resolve_found
  resolve_tool registry tool_name allowed_tools =
      resolve_found registry tool_name allowed_tools (lookup tool_name registry.side_effecting)

  unfoldable pub validate_for_bind : ToolRegistry Args → List String → Checked (Unit {0})
  unfolding check_registered
  validate_for_bind registry allowed_tools =
      if not registry.default_deny
      then returned tt
      else check_registered registry.operations allowed_tools
