-- ===== src/Policy/Checked/NotANumber.antt =====
-- A budget cap that is not a number, from the document to the merged budget.
use paybond_kit_python.Prelude.{
  String, ◌≡◌, refl, true, false, none, some, [], ◌∷◌, str_eq, eq_iff, Bool-cases, inl, inr, sym,
  ap, ◌∙◌,
}
use mathlib.Core.Bool.{true≢false}
use paybond_kit_python.Prelude.Dict.{lookup, remove}
use paybond_kit_python.Prelude.Outcome.{returned}
use paybond_kit_python.Policy.Value.{float, str, mapping, fields_of, get}
use paybond_kit_python.Policy.Schema.{Budget, Number, rational, infinity, nan, gt}
use paybond_kit_python.Policy.Merge.Report.{IsClean}
use paybond_kit_python.Policy.Merge.Intent.{cap_of, merge_budget}
use paybond_kit_python.Policy.Merge.Intent.Budgets.{check_cap-nan}
use paybond_kit_python.Policy.Parse.Format.{is_currency}
use paybond_kit_python.Policy.Parse.Expect.{expect_mapping, expect_format, optional}
use paybond_kit_python.Policy.Parse.Intent.{parse_budget}

abbrev pub nan_budget : String → Budget
nan_budget code = record { max_spend_usd = some nan; others = ("currency", str code) ∷ [] }

currency-filled : (code : String) → is_currency code ≡ true → str_eq code "" ≡ false
unfolding is_currency
currency-filled code h = elim (Bool-cases (str_eq code "")) [
  | inl empty ↦ absurd (true≢false (sym h ∙ ap is_currency ((eq_iff code "").0 empty)))
  | inr filled ↦ filled
]

nan_budget-parsed :
    (path code : String)
    → is_currency code ≡ true
    → parse_budget
        (mapping (fields_of (("currency", str code) ∷ ("max_spend_usd", float nan) ∷ [])))
        path
      ≡ returned (nan_budget code)
unfolding parse_budget expect_mapping expect_format optional get lookup remove
nan_budget-parsed path code h = simp (h, currency-filled code h)

exceeds_no_nan : (amount : Number) → gt amount nan ≡ false
exceeds_no_nan (rational a b) = refl
exceeds_no_nan infinity = refl
exceeds_no_nan nan = refl

nan_budget-merged :
    (base : Budget) (code : String)
    → IsClean (merge_budget (some base) (some (nan_budget code)) none)
      × (cap_of (merge_budget (some base) (some (nan_budget code)) none).value ≡ some nan)
unfolding merge_budget
nan_budget-merged base code = (simp (check_cap-nan base.max_spend_usd), refl)

-- The parser accepts a tenant's budget whose cap is not a number, and the merge with any org budget
-- denies nothing: the merged cap is not a number either, and no amount is above it.
pub nan_cap-escapes :
    (path code : String) (base : Budget)
    → is_currency code ≡ true
    → (parse_budget
          (mapping (fields_of (("currency", str code) ∷ ("max_spend_usd", float nan) ∷ [])))
          path
        ≡ returned (nan_budget code))
      × IsClean (merge_budget (some base) (some (nan_budget code)) none)
      × (cap_of (merge_budget (some base) (some (nan_budget code)) none).value ≡ some nan)
      × ((amount : Number) → gt amount nan ≡ false)
nan_cap-escapes path code base h = (
  nan_budget-parsed path code h,
  (nan_budget-merged base code).0,
  (nan_budget-merged base code).1,
  exceeds_no_nan,
)
