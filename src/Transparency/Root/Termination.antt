-- ===== src/Transparency/Root/Termination.antt =====
-- Fuel that reaches the tree size is enough.
use paybond_kit_python.Prelude.{
  ℕ, zero, suc, ◌-◌, ◌≤◌, ◌<◌, ◌≢◌, List, arith, ltb, ◌==◌, Bool-cases, inl, inr,
}
use paybond_kit_python.Transparency.Bytes.{Bytes, Sha256}
use paybond_kit_python.Transparency.Power.{
  largest_power_of_two_less_than, largest_power-IsSplit, PowerOfTwo-pos,
}
use paybond_kit_python.Transparency.Root.{
  Reconstruction, root_of, path_too_short, exhausted, join_right, join_left, below_left,
  below_right, reconstruct, reconstruct_merkle_root,
}

-- One round at a size of 2 or more: the split, and the two smaller sizes.
pub split_bounds :
    (n : ℕ)
    → 2 ≤ n
    → (1 ≤ largest_power_of_two_less_than n) × (largest_power_of_two_less_than n < n)
split_bounds n h = let s = largest_power-IsSplit n h in (PowerOfTwo-pos s.power, s.below)

module _ (sha : Sha256) where
  below_left-ne-exhausted :
      (audit_path : List Bytes) (r : Reconstruction)
      → r ≢ exhausted
      → below_left sha audit_path r ≢ exhausted
  unfolding below_left join_right
  below_left-ne-exhausted audit_path (root_of h c) p = ground arith
  below_left-ne-exhausted audit_path path_too_short p = p
  below_left-ne-exhausted audit_path exhausted p = p

  below_right-ne-exhausted :
      (audit_path : List Bytes) (r : Reconstruction)
      → r ≢ exhausted
      → below_right sha audit_path r ≢ exhausted
  unfolding below_right join_left
  below_right-ne-exhausted audit_path (root_of h c) p = ground arith
  below_right-ne-exhausted audit_path path_too_short p = p
  below_right-ne-exhausted audit_path exhausted p = p

  reconstruct-ne-exhausted :
      (fuel : ℕ) (leaf : Bytes) (m n : ℕ) (audit_path : List Bytes)
      → 1 ≤ n
      → n ≤ fuel
      → reconstruct sha fuel leaf m n audit_path ≢ exhausted
  unfolding reconstruct
  reconstruct-ne-exhausted zero leaf m n audit_path pos enough = absurd (omega arith)
  reconstruct-ne-exhausted (suc fuel) leaf m n audit_path pos enough =
      let k = largest_power_of_two_less_than n in
      elim (Bool-cases (n == 1)) [
        | inl single ↦ rw single (λ e. cc e)
        | inr more ↦
            let two : 2 ≤ n = ground arith in
            let (low, high) = split_bounds n two in
            elim (Bool-cases (ltb m k)) [
              | inl left ↦
                  rw (more, left)
                    (below_left-ne-exhausted audit_path (reconstruct sha fuel leaf m k audit_path)
                      (reconstruct-ne-exhausted fuel leaf m k audit_path low (omega arith)))
              | inr right ↦
                  rw (more, right)
                    (below_right-ne-exhausted audit_path
                      (reconstruct sha fuel leaf (m - k) (n - k) audit_path)
                      (reconstruct-ne-exhausted fuel leaf (m - k) (n - k) audit_path (omega arith)
                        (omega arith)))
            ]
      ]

  -- For a tree of at least one leaf the recursion ends, whatever the index and the audit path: it
  -- gives a root or finds the path too short.
  pub reconstruct_merkle_root-ne-exhausted :
      (leaf : Bytes) (m n : ℕ) (audit_path : List Bytes)
      → 1 ≤ n
      → reconstruct_merkle_root sha leaf m n audit_path ≢ exhausted
  unfolding reconstruct_merkle_root
  reconstruct_merkle_root-ne-exhausted leaf m n audit_path pos =
      reconstruct-ne-exhausted n leaf m n audit_path pos (omega arith)
