-- ===== src/Policy/Merge/Intent/Budgets.antt =====
-- When a merge keeps the org's budget cap, and when a tenant's cap escapes the check.
use paybond_kit_python.Prelude.{
  suc, ◌*◌, ◌≤◌, ◌≡◌, ◌≢◌, refl, true, false, Option, none, some, arith, or_else, or_else_assoc,
}
use paybond_kit_python.Policy.Schema.{Budget, Number, rational, infinity, nan, gt}
use paybond_kit_python.Policy.Merge.Report.{IsClean, if_IsClean}
use paybond_kit_python.Policy.Merge.Intent.{
  is_filled, cap_of, tenant_cap, note_cap, check_cap, update_budget, empty_budget, merge_budget,
}

-- the order of the numbers that are not `nan`
abbrev pub AtMost : Number → Number → Type 0
AtMost (rational a b) (rational c d) = a * suc d ≤ c * suc b
AtMost (rational a b) infinity = Unit
AtMost infinity infinity = Unit
AtMost _ _ = ⊥

AtMost-of_gt : (a b : Number) → a ≢ nan → b ≢ nan → gt a b ≡ false → AtMost a b
AtMost-of_gt (rational a b) (rational c d) p q h = ground arith
AtMost-of_gt (rational a b) infinity p q h = tt
AtMost-of_gt (rational a b) nan p q h = absurd (q refl)
AtMost-of_gt infinity (rational c d) p q h = cc
AtMost-of_gt infinity infinity p q h = tt
AtMost-of_gt infinity nan p q h = absurd (q refl)
AtMost-of_gt nan _ p q h = absurd (p refl)

pub AtMost-refl : (a : Number) → a ≢ nan → AtMost a a
AtMost-refl (rational a b) h = omega arith
AtMost-refl infinity h = tt
AtMost-refl nan h = absurd (h refl)

abbrev pub merged_cap : Option Budget → Option Number
merged_cap = cap_of

-- no cap of the tenant is `nan`
abbrev pub IsNumeric : Option Number → Type 0
IsNumeric none = Unit
IsNumeric (some n) = n ≢ nan

-- `some` number that is at most the org's
abbrev pub CappedBy : Number → Option Number → Type 0
CappedBy org none = ⊥
CappedBy org (some n) = AtMost n org

check_cap-CappedBy :
    (org : Number) (tenant named : Option Number)
    → org ≢ nan
    → IsNumeric tenant
    → IsClean (check_cap (some org) tenant named)
    → CappedBy org (or_else tenant (some org))
unfolding check_cap
check_cap-CappedBy org none named o t h = AtMost-refl org o
check_cap-CappedBy org (some n) named o t h = AtMost-of_gt n org t o (ground arith)

-- The merged budget has the cap that was written last.
pub cap-merge_budget :
    (org : Number) (base : Budget) (overlay override : Option Budget)
    → base.max_spend_usd ≡ some org
    → cap_of (merge_budget (some base) overlay override).value
      ≡ or_else (cap_of override) (or_else (cap_of overlay) (some org))
unfolding merge_budget
cap-merge_budget org base none none e = ground arith
cap-merge_budget org base none (some o) e = ground arith
cap-merge_budget org base (some l) none e = ground arith
cap-merge_budget org base (some l) (some o) e = ground arith

-- A clean merge has passed the check of the cap.
pub check_cap-IsClean :
    (org : Number) (base : Budget) (overlay override : Option Budget)
    → base.max_spend_usd ≡ some org
    → IsClean (merge_budget (some base) overlay override)
    → IsClean (check_cap (some org) (tenant_cap overlay override) (cap_of override))
unfolding merge_budget
check_cap-IsClean org base overlay override e h = rw (← e) (
    if_IsClean (is_filled (some merged))
      (check_cap base.max_spend_usd (tenant_cap overlay override) (cap_of override)) (some merged)
      none (filled overlay override) h)
  where
    merged : Budget
    merged = update_budget (update_budget (update_budget empty_budget (some base)) overlay) override

    filled :
        (l o : Option Budget)
        → is_filled
            (some (update_budget (update_budget (update_budget empty_budget (some base)) l) o))
          ≡ true
    filled none none = ground arith
    filled none (some o) = ground arith
    filled (some l) none = ground arith
    filled (some l) (some o) = ground arith

-- Where the org caps the budget, nothing is denied, and the cap that the check reads is the one
-- that the merged budget takes, the merged cap is at most the org's.
pub merge_budget-CappedBy :
    (org : Number) (base : Budget) (overlay override : Option Budget)
    → base.max_spend_usd ≡ some org
    → org ≢ nan
    → IsNumeric (tenant_cap overlay override)
    → tenant_cap overlay override ≡ or_else (cap_of override) (cap_of overlay)
    → IsClean (merge_budget (some base) overlay override)
    → CappedBy org (cap_of (merge_budget (some base) overlay override).value)
merge_budget-CappedBy org base overlay override e o t visible h =
    rw (cap-merge_budget org base overlay override e, or_else_assoc, ← visible)
      (check_cap-CappedBy org (tenant_cap overlay override) (cap_of override) o t
        (check_cap-IsClean org base overlay override e h))

-- An override budget that is not empty and names no cap hides the overlay's cap from the check:
-- the merge denies nothing, and whatever cap the overlay names, above the org's too, takes effect.
pub merge_budget-hidden_cap :
    (base overlay override : Budget) (tenant : Number)
    → overlay.max_spend_usd ≡ some tenant
    → override.max_spend_usd ≡ none
    → is_filled (some override) ≡ true
    → IsClean (merge_budget (some base) (some overlay) (some override))
      × (cap_of (merge_budget (some base) (some overlay) (some override)).value ≡ some tenant)
unfolding merge_budget check_cap note_cap
merge_budget-hidden_cap base overlay override tenant l o f = (ground arith, ground arith)

-- The check lets a cap that is not a number pass, since every comparison with it is false.
pub check_cap-nan : (org : Option Number) → IsClean (check_cap org (some nan) none)
unfolding check_cap note_cap
check_cap-nan none = refl
check_cap-nan (some (rational a b)) = refl
check_cap-nan (some infinity) = refl
check_cap-nan (some nan) = refl
