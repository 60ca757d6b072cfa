-- ===== src/Transparency/Root/Tests.antt =====
-- The Merkle reconstruction over a toy hash, and the theorems about it at a tree of three leaves.
use paybond_kit_python.Prelude.{◌≡◌, ◌≢◌, ◌⊎◌, refl, [], ◌∷◌, length, arith}
use paybond_kit_python.Transparency.Bytes.{Bytes, leaf_hash}
use paybond_kit_python.Transparency.Power.{
  largest_power_of_two_less_than, IsSplit, one, twice, largest_power-IsSplit,
}
use paybond_kit_python.Transparency.Samples.{toy, two-IsSplit}
use paybond_kit_python.Transparency.Tree.{Tree, leaf, node, IsShaped, leaf_at, root, path}
use paybond_kit_python.Transparency.Tree.Way.{CollidesOnWay}
use paybond_kit_python.Transparency.Root.{
  root_of, path_too_short, exhausted, reconstruct_merkle_root,
}
use paybond_kit_python.Transparency.Root.Termination.{reconstruct_merkle_root-ne-exhausted}
use paybond_kit_python.Transparency.Root.Completeness.{reconstruct_merkle_root-path}
use paybond_kit_python.Transparency.Root.Soundness.{reconstruct_merkle_root-commits}

abbrev three : Tree
three = node (node (leaf (7 ∷ [])) (leaf (8 ∷ []))) (leaf (9 ∷ []))

three-IsSplit : IsSplit 3 2
three-IsSplit = record {
  power = twice 1 (one refl) refl;
  below = omega arith;
  reaches = omega arith;
}

three-IsShaped : IsShaped 3 three
three-IsShaped = (2, omega arith, three-IsSplit, (1, omega arith, two-IsSplit, refl, refl), refl)

splits : (largest_power_of_two_less_than 9 ≡ 8) × (largest_power_of_two_less_than 8 ≡ 4)
unfolding largest_power_of_two_less_than
splits = (refl, refl)

short_path :
    reconstruct_merkle_root toy (leaf_hash toy (7 ∷ [])) 0 3 (leaf_hash toy (8 ∷ []) ∷ [])
    ≡ path_too_short
unfolding reconstruct_merkle_root largest_power_of_two_less_than
short_path = refl

largest_power-IsSplit_example : IsSplit 9 (largest_power_of_two_less_than 9)
largest_power-IsSplit_example = largest_power-IsSplit 9 (omega arith)

reconstruct_merkle_root-ne-exhausted_example :
    reconstruct_merkle_root toy (leaf_hash toy (7 ∷ [])) 0 3 [] ≢ exhausted
reconstruct_merkle_root-ne-exhausted_example =
    reconstruct_merkle_root-ne-exhausted toy (leaf_hash toy (7 ∷ [])) 0 3 [] (omega arith)

reconstruct_merkle_root-path_example :
    reconstruct_merkle_root toy (leaf_hash toy (leaf_at three 1)) 1 3 (path toy three 1)
    ≡ root_of (root toy three) (length (path toy three 1))
reconstruct_merkle_root-path_example =
    reconstruct_merkle_root-path toy three 1 3 three-IsShaped (omega arith)

-- No level shows a collision where a leaf and its hash are the tree's own.
no_collision : CollidesOnWay toy (leaf (7 ∷ [])) 0 (7 ∷ []) [] → ⊥
no_collision h = h.0 refl

reconstruct_merkle_root-commits_example :
    (◌≡◌ {A = Bytes} (8 ∷ []) (leaf_at three 1))
    ⊎ CollidesOnWay toy three 1 (8 ∷ []) (path toy three 1)
reconstruct_merkle_root-commits_example =
    reconstruct_merkle_root-commits toy three (8 ∷ []) 1 3 (path toy three 1) 2 three-IsShaped
      (reconstruct_merkle_root-path toy three 1 3 three-IsShaped (omega arith))
