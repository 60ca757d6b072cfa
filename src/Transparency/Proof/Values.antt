-- ===== src/Transparency/Proof/Values.antt =====
-- Decoded values as `str()` and `int()` read them, and the errors of a verification.
use paybond_kit_python.Prelude.{
  ℕ, zero, String, Bool, true, false, Option, none, some, List, [], map, if◌then◌else◌,
}
use paybond_kit_python.Prelude.Dict.{Dict}
use paybond_kit_python.Prelude.Outcome.{Outcome, raised, returned}
use paybond_kit_python.Policy.Value.{
  Value, rational, null, bool, int, negative, float, negative_float, str, list, mapping, entries,
  elements,
}

pub data Whole : Type 0 where
  natural : ℕ → Whole
  below_zero : Whole

-- The parts of Python's own conversions that no property here reads: the texts of numbers, lists and
-- mappings, the numbers that texts and floats stand for (none is a ValueError), `str.lower`, and the
-- characters of a text as texts.
pub record Python : Type 0 where
  pub repr : Value → String
  pub parse_int : Value → Option Whole
  pub lower : String → String
  pub characters : String → List String

pub data Refusal : Type 0 where
  wrong_kind : Refusal
  wrong_schema_version : Refusal
  no_tenant_id : Refusal
  no_receipt_id : Refusal
  negative_tree_size : Refusal
  wrong_algorithm : Refusal
  not_hex : Refusal
  untrusted_key : Refusal
  digest_mismatch : Refusal
  bad_signature : Refusal
  not_positive : Refusal
  index_out_of_range : Refusal
  head_tenant_mismatch : Refusal
  head_size_mismatch : Refusal
  head_root_mismatch : Refusal
  leaf_mismatch : Refusal
  too_short : Refusal
  too_long : Refusal
  root_mismatch : Refusal

-- A ValueError of this code, and the errors that Python's operations raise on values of other types.
-- `unusable_key` is what reading a key from its bytes raises, `not_ended` a recursion that does not
-- end.
pub data ProofError : Type 0 where
  refused : Refusal → ProofError
  missing : String → ProofError
  not_a_number : ProofError
  not_a_mapping : ProofError
  not_iterable : ProofError
  unusable_key : ProofError
  not_ended : ProofError

abbrev pub Checked : Type 0 → Type 0
Checked A = Outcome ProofError A

-- `if not test: raise ValueError(...)`
abbrev pub require : Bool → Refusal → Checked (Unit {0})
require test refusal = if test then returned tt else raised (refused refusal)

module _ (python : Python) where
  -- str(v)
  abbrev pub text_of : Value → String
  text_of (str s) = s
  text_of null = "None"
  text_of (bool true) = "True"
  text_of (bool false) = "False"
  text_of v = python.repr v

  parsed_whole : Option Whole → Checked Whole
  parsed_whole none = raised not_a_number
  parsed_whole (some n) = returned n

  -- int(v)
  unfoldable pub whole_of : Value → Checked Whole
  unfolding parsed_whole
  whole_of (int n) = returned (natural n)
  whole_of (negative n) = returned below_zero
  whole_of (bool true) = returned (natural 1)
  whole_of (bool false) = returned (natural 0)
  whole_of (str s) = parsed_whole (python.parse_int (str s))
  whole_of (float x) = parsed_whole (python.parse_int (float x))
  whole_of negative_float = parsed_whole (python.parse_int negative_float)
  whole_of v = raised not_a_number

  -- the items of `v or []`
  unfoldable pub iterate : Value → Checked (List Value)
  iterate (list items) = returned (elements items)
  iterate (mapping fields) = returned (map (λ e. str (e.0)) (entries fields))
  iterate (str s) = returned (map str (python.characters s))
  iterate null = returned []
  iterate (bool false) = returned []
  iterate (int zero) = returned []
  iterate (float (rational zero b)) = returned []
  iterate v = raised not_iterable

-- a value that is used as a mapping
unfoldable pub mapping_of : Value → Checked (Dict Value)
mapping_of (mapping fields) = returned (entries fields)
mapping_of v = raised not_a_mapping
