-- ===== src/Transparency/Root/Completeness.antt =====
-- The root is recomputed from the audit path that RFC 6962 prescribes.
use paybond_kit_python.Prelude.{
  ℕ, zero, suc, ◌-◌, ◌≤◌, ◌<◌, ◌≡◌, refl, subst, true, false, List, [], ◌∷◌, ◌++◌, append_assoc,
  append-nil, length, length-append, arith, ltb, ◌==◌, Bool-cases, inl, inr, some, ltb→lt, ltb→le,
}
use paybond_kit_python.Transparency.Bytes.{Bytes, Sha256, leaf_hash, node_hash}
use paybond_kit_python.Transparency.Power.{
  largest_power_of_two_less_than, IsSplit, largest_power-IsSplit, IsSplit-unique, PowerOfTwo-pos,
}
use paybond_kit_python.Transparency.Tree.{
  Tree, leaf, node, IsShaped, size, leaf_at, root, path, size-of_IsShaped,
}
use paybond_kit_python.Transparency.Root.{
  root_of, get_elem?, join_right, join_left, below_left, below_right, reconstruct,
  reconstruct_merkle_root,
}

get_elem?-length :
    (xs : List Bytes) (y : Bytes) (zs : List Bytes)
    → get_elem? (xs ++ (y ∷ zs)) (length xs) ≡ some y
get_elem?-length [] y zs = refl
get_elem?-length (x ∷ xs) y zs = get_elem?-length xs y zs

module _ (sha : Sha256) where
  -- One round on either side, once the recursive call has used up its part of the path.
  below_left_lem :
      (p : List Bytes) (left right : Bytes) (extra : List Bytes)
      → below_left sha (p ++ (right ∷ extra)) (root_of left (length p))
        ≡ root_of (node_hash sha left right) (length (p ++ (right ∷ [])))
  unfolding below_left join_right
  below_left_lem p left right extra =
      rw (get_elem?-length p right extra, length-append p (right ∷ [])) refl

  below_right_lem :
      (p : List Bytes) (left right : Bytes) (extra : List Bytes)
      → below_right sha (p ++ (left ∷ extra)) (root_of right (length p))
        ≡ root_of (node_hash sha left right) (length (p ++ (left ∷ [])))
  unfolding below_right join_left
  below_right_lem p left right extra =
      rw (get_elem?-length p left extra, length-append p (left ∷ [])) refl

  reconstruct_node_left :
      (fuel : ℕ) (l r : Tree) (m n k : ℕ) (extra : List Bytes)
      → 2 ≤ n
      → IsSplit n k
      → size l ≡ k
      → ltb m k ≡ true
      → ((more : List Bytes)
          → reconstruct sha fuel (leaf_hash sha (leaf_at l m)) m k (path sha l m ++ more)
            ≡ root_of (root sha l) (length (path sha l m)))
      → reconstruct sha
          (suc fuel)
          (leaf_hash sha (leaf_at (node l r) m))
          m
          n
          (path sha (node l r) m ++ extra)
        ≡ root_of (root sha (node l r)) (length (path sha (node l r) m))
  unfolding reconstruct
  reconstruct_node_left fuel l r m n k extra two split whole less ih =
      let many : (n == 1) ≡ false = ground arith in
      let same : largest_power_of_two_less_than n ≡ k =
        IsSplit-unique (largest_power-IsSplit n two) split in
      rw
        (
          whole,
          less,
          many,
          same,
          less,
          append_assoc (path sha l m) (root sha r ∷ []) extra,
          ih (root sha r ∷ extra),
        )
        (below_left_lem (path sha l m) (root sha l) (root sha r) extra)

  reconstruct_node_right :
      (fuel : ℕ) (l r : Tree) (m n k : ℕ) (extra : List Bytes)
      → 2 ≤ n
      → IsSplit n k
      → size l ≡ k
      → ltb m k ≡ false
      → ((more : List Bytes)
          → reconstruct sha fuel
              (leaf_hash sha (leaf_at r (m - k)))
              (m - k)
              (n - k)
              (path sha r (m - k) ++ more)
            ≡ root_of (root sha r) (length (path sha r (m - k))))
      → reconstruct sha
          (suc fuel)
          (leaf_hash sha (leaf_at (node l r) m))
          m
          n
          (path sha (node l r) m ++ extra)
        ≡ root_of (root sha (node l r)) (length (path sha (node l r) m))
  unfolding reconstruct
  reconstruct_node_right fuel l r m n k extra two split whole less ih =
      let many : (n == 1) ≡ false = ground arith in
      let same : largest_power_of_two_less_than n ≡ k =
        IsSplit-unique (largest_power-IsSplit n two) split in
      rw
        (
          whole,
          less,
          many,
          same,
          less,
          append_assoc (path sha r (m - k)) (root sha l ∷ []) extra,
          ih (root sha l ∷ extra),
        )
        (below_right_lem (path sha r (m - k)) (root sha l) (root sha r) extra)

  reconstruct-path :
      (fuel : ℕ) (t : Tree) (m n : ℕ) (extra : List Bytes)
      → IsShaped n t
      → m < n
      → n ≤ fuel
      → reconstruct sha fuel (leaf_hash sha (leaf_at t m)) m n (path sha t m ++ extra)
        ≡ root_of (root sha t) (length (path sha t m))
  unfolding reconstruct
  reconstruct-path zero t m n extra shaped inside enough = absurd (omega arith)
  reconstruct-path (suc fuel) (leaf d) m n extra shaped inside enough =
      let single : (n == 1) ≡ true = ground arith in rw single
  reconstruct-path (suc fuel) (node l r) m n extra (k, two, split, low, high) inside enough =
      let whole = size-of_IsShaped k l low in
      let below = split.below in
      let pos = PowerOfTwo-pos split.power in
      elim (Bool-cases (ltb m k)) [
        | inl less ↦
            reconstruct_node_left fuel l r m n k extra two split whole less
              (λ more. reconstruct-path fuel l m k more low (ltb→lt m k less) (omega arith))
        | inr less ↦
            let over = ltb→le m k less in
            reconstruct_node_right fuel l r m n k extra two split whole less (λ more.
              reconstruct-path fuel r (m - k) (n - k) more high (omega arith) (omega arith))
      ]

  -- For a tree of n leaves of RFC 6962's shape, a leaf's hash, its index and its audit path give
  -- back the root of the tree, and the whole path is used.
  pub reconstruct_merkle_root-path :
      (t : Tree) (m n : ℕ)
      → IsShaped n t
      → m < n
      → reconstruct_merkle_root sha (leaf_hash sha (leaf_at t m)) m n (path sha t m)
        ≡ root_of (root sha t) (length (path sha t m))
  unfolding reconstruct_merkle_root
  reconstruct_merkle_root-path t m n shaped inside =
      subst
        (λ p.
          reconstruct sha n (leaf_hash sha (leaf_at t m)) m n p
          ≡ root_of (root sha t) (length (path sha t m)))
        (append-nil (path sha t m)) (reconstruct-path n t m n [] shaped inside (omega arith))
