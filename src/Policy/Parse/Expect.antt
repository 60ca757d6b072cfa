-- ===== src/Policy/Parse/Expect.antt =====
-- The helpers `_expect_mapping`, `_expect_bool`, `_expect_int` and `_expect_str` of
-- src/paybond_kit/policy/schema.py, and the steps that its parsers repeat.
pub mod Restores
use paybond_kit_python.Prelude.{
  ℕ, String, ◌<>◌, Bool, true, false, not, ◌||◌, Option, none, some, List, [], ◌∷◌, ltb, leb, null,
  contains, if◌then◌else◌, str_eq,
}
use paybond_kit_python.Prelude.Dict.{Dict, lookup}
use paybond_kit_python.Prelude.Outcome.{Outcome, raised, returned, ◌>>=◌, ◌>>◌}
use paybond_kit_python.Policy.Value.{Value, bool, int, negative, str, mapping, entries}
use paybond_kit_python.Policy.Value
use paybond_kit_python.Policy.Parse.Format.{str_length}

-- The `path` of an error: a text, or an item of the list at it.
pub data Place : Type 0 where
  at : String → Place
  item : String → ℕ → Place

-- What the message of an error says.
pub data Reason : Type 0 where
  not_an_object : Reason
  not_a_boolean : Reason
  not_an_integer : Reason
  below_minimum : ℕ → Reason
  not_a_non_empty_string : Reason
  not_a_number : Reason
  not_an_array : Reason
  bad_format : Reason
  too_long : ℕ → Reason
  unknown_fields : List String → Reason
  mutually_exclusive : Reason
  preset_missing : Reason
  not_unique : Reason
  nothing_set : Reason
  too_few_entries : ℕ → Reason
  bad_key : String → Reason
  bad_version : Reason

pub record ValidationError : Type 0 where
  pub path : Place
  pub reason : Reason

abbrev pub Parsed : Type 0 → Type 0
Parsed A = Outcome ValidationError A

abbrev pub fail : {A : Type 0} → Place → Reason → Parsed A
fail path reason = raised (record { path = path; reason = reason })

-- `if not test: raise`
abbrev pub check : Bool → Place → Reason → Parsed (Unit {0})
check test path reason = if test then returned tt else fail path reason

unfoldable pub expect_mapping : Value → String → Parsed (Dict Value)
expect_mapping (mapping fields) path = returned (entries fields)
expect_mapping raw path = fail (at path) not_an_object

unfoldable pub expect_bool : Value → String → Parsed Bool
expect_bool (bool b) path = returned b
expect_bool raw path = fail (at path) not_a_boolean

-- `minimum` is at least 0 at every call.
unfoldable pub expect_int : Value → String → ℕ → Parsed ℕ
expect_int (int n) path minimum =
    if ltb n minimum then fail (at path) (below_minimum minimum) else returned n
expect_int (negative n) path minimum = fail (at path) (below_minimum minimum)
expect_int raw path minimum = fail (at path) not_an_integer

unfoldable pub expect_str : Value → Place → Parsed String
expect_str (str s) path = if str_eq s "" then fail path not_a_non_empty_string else returned s
expect_str raw path = fail path not_a_non_empty_string

-- a text, and a regular expression that it has to match
unfoldable pub expect_format : (String → Bool) → Value → Place → Parsed String
unfolding expect_str
expect_format test raw path = do s ← expect_str raw path; check (test s) path bad_format; returned s

-- a text of at most `most` characters
unfoldable pub expect_within : ℕ → Value → Place → Parsed String
unfolding expect_str
expect_within most raw path = do
  s ← expect_str raw path
  check (leb (str_length s) most) path (too_long most)
  returned s

unfoldable pub on_found : {A : Type 0} → (Value → Parsed A) → Option Value → Parsed (Option A)
on_found parse none = returned none
on_found parse (some raw) = parse raw >>= λ a. returned (some a)

-- `if key in fields: x = parse(fields[key])`
unfoldable pub optional :
    {A : Type 0} → String → Dict Value → (Value → Parsed A) → Parsed (Option A)
unfolding on_found
optional key fields parse = on_found parse (lookup key fields)

-- `set(fields) - known`
unfoldable pub unknown_keys : List String → Dict Value → List String
unknown_keys known [] = []
unknown_keys known ((key, _) ∷ rest) =
    let others = unknown_keys known rest in if contains key known then others else key ∷ others

unfoldable pub reject_unknown : List String → Dict Value → String → Parsed (Unit {0})
unfolding unknown_keys
reject_unknown known fields path =
    check (null (unknown_keys known fields)) (at path) (unknown_fields (unknown_keys known fields))

-- `if not fields: raise`
abbrev pub require_some : Dict Value → String → Parsed (Unit {0})
require_some fields path = check (not (null fields)) (at path) nothing_set
