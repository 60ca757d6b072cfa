-- ===== src/Transparency/Power.antt =====
-- `_largest_power_of_two_less_than`.
use paybond_kit_python.Prelude.{
  ℕ, zero, suc, ◌+◌, ◌*◌, ◌≤◌, ◌<◌, ◌≡◌, refl, false, arith, ltb, leb, if◌then◌else◌, Bool-cases,
  inl, inr, ltb→lt, ltb→le,
}

-- `while k * 2 < n: k *= 2`
double_below : ℕ → ℕ → ℕ → ℕ
double_below zero k n = k
double_below (suc fuel) k n =
    let rest = double_below fuel (k * 2) n in if ltb (k * 2) n then rest else k

unfoldable pub largest_power_of_two_less_than : ℕ → ℕ
unfolding double_below
largest_power_of_two_less_than n = if leb n 1 then 0 else double_below n 1 n

pub data PowerOfTwo : ℕ → Type 0 where
  one : {n : ℕ} → n ≡ 1 → PowerOfTwo n
  twice : {n : ℕ} (k : ℕ) → PowerOfTwo k → n ≡ k * 2 → PowerOfTwo n

-- The largest power of two below `n`.
pub record IsSplit (n k : ℕ) : Type 0 where
  pub power : PowerOfTwo k
  pub below : k < n
  pub reaches : n ≤ k * 2

pub PowerOfTwo-pos : {n : ℕ} → PowerOfTwo n → 1 ≤ n
PowerOfTwo-pos (one e) = omega arith
PowerOfTwo-pos (twice k p e) = omega (arith, PowerOfTwo-pos p)

double_below-IsSplit :
    (fuel k n : ℕ) → PowerOfTwo k → k < n → n ≤ k + fuel → IsSplit n (double_below fuel k n)
unfolding double_below
double_below-IsSplit zero k n p b f = absurd (omega arith)
double_below-IsSplit (suc fuel) k n p b f = elim (Bool-cases (ltb (k * 2) n)) [
  | inl more ↦ rw more (
      double_below-IsSplit fuel (k * 2) n (twice k p refl) (ltb→lt (k * 2) n more)
        (omega (arith, PowerOfTwo-pos p)))
  | inr done ↦ rw done (record { power = p; below = b; reaches = ltb→le (k * 2) n done })
]

-- From 2 on, the loop finds the largest power of two below `n`; `n` rounds of fuel are enough.
pub largest_power-IsSplit : (n : ℕ) → 2 ≤ n → IsSplit n (largest_power_of_two_less_than n)
unfolding largest_power_of_two_less_than
largest_power-IsSplit n h =
    let big : leb n 1 ≡ false = ground arith in
    rw big (double_below-IsSplit n 1 n (one refl) (omega arith) (omega arith))

-- Of two different powers of two the larger is at least twice the smaller.
PowerOfTwo-gap : {p q : ℕ} → PowerOfTwo q → PowerOfTwo p → p < q → p * 2 ≤ q
PowerOfTwo-gap (one e) u h = absurd (omega (arith, PowerOfTwo-pos u))
PowerOfTwo-gap (twice k v e) (one f) h = omega (arith, PowerOfTwo-pos v)
PowerOfTwo-gap (twice k v e) (twice l u f) h = omega (arith, PowerOfTwo-gap v u (omega arith))

-- There is one split point only.
pub IsSplit-unique : {n k l : ℕ} → IsSplit n k → IsSplit n l → k ≡ l
IsSplit-unique {n} {k} {l} a b = elim (Bool-cases (ltb k l)) [
  | inl lt ↦ absurd (omega (arith, PowerOfTwo-gap b.power a.power (ltb→lt k l lt)))
  | inr ge ↦ elim (Bool-cases (ltb l k)) [
    | inl gt ↦ absurd (omega (arith, PowerOfTwo-gap a.power b.power (ltb→lt l k gt)))
    | inr le ↦ omega (arith, ltb→le k l ge, ltb→le l k le)
  ]
]
