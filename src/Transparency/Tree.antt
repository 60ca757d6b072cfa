-- ===== src/Transparency/Tree.antt =====
-- The Merkle trees of RFC 6962, independent of the code: a tree of n leaves splits at the largest
-- power of two below n.
pub mod Way
use paybond_kit_python.Prelude.{
  ℕ, ◌+◌, ◌-◌, ◌≤◌, ◌≡◌, List, [], ◌∷◌, ◌++◌, length, arith, ltb, if◌then◌else◌,
}
use paybond_kit_python.Transparency.Bytes.{
  Bytes, Sha256, leaf_hash, node_hash, length-leaf_hash, length-node_hash, AllBytes,
  leaf_hash-AllBytes, node_hash-AllBytes,
}
use paybond_kit_python.Transparency.Power.{IsSplit}

pub data Tree : Type 0 where
  leaf : Bytes → Tree
  node : Tree → Tree → Tree

-- A tree of `n` leaves has the shape that RFC 6962 prescribes.
abbrev pub IsShaped : ℕ → Tree → Type 0
IsShaped n (leaf d) = n ≡ 1
IsShaped n (node l r) = (k : ℕ) × (2 ≤ n) × IsSplit n k × IsShaped k l × IsShaped (n - k) r

abbrev pub size : Tree → ℕ
size (leaf d) = 1
size (node l r) = size l + size r

-- the leaf data at an index
abbrev pub leaf_at : Tree → ℕ → Bytes
leaf_at (leaf d) m = d
leaf_at (node l r) m = if ltb m (size l) then leaf_at l m else leaf_at r (m - size l)

module _ (sha : Sha256) where
  -- the Merkle tree hash
  abbrev pub root : Tree → Bytes
  root (leaf d) = leaf_hash sha d
  root (node l r) = node_hash sha (root l) (root r)

  -- the Merkle audit path of the leaf at an index
  abbrev pub path : Tree → ℕ → List Bytes
  path (leaf d) m = []
  path (node l r) m =
      if ltb m (size l) then path l m ++ (root r ∷ []) else path r (m - size l) ++ (root l ∷ [])

  pub length-root : (t : Tree) → length (root t) ≡ 32
  length-root (leaf d) = length-leaf_hash sha d
  length-root (node l r) = length-node_hash sha (root l) (root r)

  pub root-AllBytes : (t : Tree) → AllBytes (root t)
  root-AllBytes (leaf d) = leaf_hash-AllBytes sha d
  root-AllBytes (node l r) = node_hash-AllBytes sha (root l) (root r)

pub size-of_IsShaped : (n : ℕ) (t : Tree) → IsShaped n t → size t ≡ n
size-of_IsShaped n (leaf d) h = omega arith
size-of_IsShaped n (node l r) (k, two, split, low, high) =
    omega (arith, size-of_IsShaped k l low, size-of_IsShaped (n - k) r high, split.below)
