-- ===== src/Transparency/Root.antt =====
-- `_reconstruct_merkle_root`, with fuel for its recursion on the tree size.
pub mod Completeness
pub mod Soundness
pub mod Termination
mod Tests
use paybond_kit_python.Prelude.{
  ℕ, zero, suc, ◌+◌, ◌-◌, Option, none, some, List, [], ◌∷◌, ltb, ◌==◌, if◌then◌else◌,
}
use paybond_kit_python.Transparency.Bytes.{Bytes, Sha256, node_hash}
use paybond_kit_python.Transparency.Power.{largest_power_of_two_less_than}

-- `path_too_short` is the ValueError; `exhausted` is a recursion that does not end.
pub data Reconstruction : Type 0 where
  root_of : Bytes → ℕ → Reconstruction
  path_too_short : Reconstruction
  exhausted : Reconstruction

abbrev pub get_elem? : List Bytes → ℕ → Option Bytes
get_elem? [] i = none
get_elem? (x ∷ xs) zero = some x
get_elem? (x ∷ xs) (suc i) = get_elem? xs i

module _ (sha : Sha256) where
  -- The sibling comes from the right, or from the left.
  join_right : Bytes → ℕ → Option Bytes → Reconstruction
  join_right left consumed none = path_too_short
  join_right left consumed (some right) = root_of (node_hash sha left right) (consumed + 1)

  join_left : Bytes → ℕ → Option Bytes → Reconstruction
  join_left right consumed none = path_too_short
  join_left right consumed (some left) = root_of (node_hash sha left right) (consumed + 1)

  -- What the caller does with the result of its recursive call: `audit_path[consumed]`, joined.
  below_left : List Bytes → Reconstruction → Reconstruction
  below_left audit_path (root_of left consumed) =
      join_right left consumed (get_elem? audit_path consumed)
  below_left audit_path path_too_short = path_too_short
  below_left audit_path exhausted = exhausted

  below_right : List Bytes → Reconstruction → Reconstruction
  below_right audit_path (root_of right consumed) =
      join_left right consumed (get_elem? audit_path consumed)
  below_right audit_path path_too_short = path_too_short
  below_right audit_path exhausted = exhausted

  -- The split point is an argument, so that the two recursive calls wait for the test.
  reconstruct : ℕ → Bytes → ℕ → ℕ → List Bytes → Reconstruction
  unfolding join_right join_left below_left below_right
  reconstruct zero leaf leaf_index tree_size audit_path = exhausted
  reconstruct (suc fuel) leaf leaf_index tree_size audit_path =
      let k = largest_power_of_two_less_than tree_size in
      let low = below_left audit_path (reconstruct fuel leaf leaf_index k audit_path) in
      let high =
        below_right audit_path
          (reconstruct fuel leaf (leaf_index - k) (tree_size - k) audit_path) in
      if tree_size == 1 then root_of leaf 0 else if ltb leaf_index k then low else high

  unfoldable pub reconstruct_merkle_root : Bytes → ℕ → ℕ → List Bytes → Reconstruction
  unfolding reconstruct
  reconstruct_merkle_root leaf leaf_index tree_size audit_path =
      reconstruct tree_size leaf leaf_index tree_size audit_path
