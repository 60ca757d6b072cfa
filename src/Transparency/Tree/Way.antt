-- ===== src/Transparency/Tree/Way.antt =====
-- The way from a leaf of a Merkle tree of RFC 6962 up to its root, with siblings that are claimed:
-- independent of the code, and the place where a false claim shows.
use paybond_kit_python.Prelude.{
  ℕ, zero, suc, ◌+◌, ◌-◌, ◌≡◌, ◌≢◌, sym, ap, ◌∙◌, ◌⊎◌, inl, inr, List, [], ◌∷◌, ◌++◌, length, arith,
  ltb, if◌then◌else◌, Bool-cases,
}
use paybond_kit_python.Transparency.Bytes.{
  Bytes, Sha256, Bytes-discrete, leaf_hash, node_hash, append_inj, length-leaf_hash,
  length-node_hash,
}
use paybond_kit_python.Transparency.Tree.{Tree, leaf, node, size, leaf_at, root, length-root}

-- how many levels the leaf at an index stands below the root
abbrev pub depth : Tree → ℕ → ℕ
depth (leaf d) m = 0
depth (node l r) m = if ltb m (size l) then depth l m + 1 else depth r (m - size l) + 1

-- the sibling that a path claims at a level; nothing beyond its end
abbrev pub claimed : List Bytes → ℕ → Bytes
claimed [] i = []
claimed (x ∷ xs) zero = x
claimed (x ∷ xs) (suc i) = claimed xs i

module _ (sha : Sha256) where
  -- What the siblings of a path make of a leaf's hash, on the way up from an index.
  abbrev pub rebuilt : Tree → ℕ → Bytes → List Bytes → Bytes
  rebuilt (leaf d) m x p = x
  rebuilt (node l r) m x p =
      if ltb m (size l)
      then node_hash sha (rebuilt l m x p) (claimed p (depth l m))
      else node_hash sha (claimed p (depth r (m - size l))) (rebuilt r (m - size l) x p)

  -- Two byte strings differ and have one digest.
  abbrev pub Collide : Bytes → Bytes → Type 0
  Collide x y = (x ≢ y) × (sha.digest x ≡ sha.digest y)

  -- On the way up from the leaf `d` at an index there is a level where what the path has hashed and
  -- what the tree has hashed there differ and have one digest.
  abbrev pub CollidesOnWay : Tree → ℕ → Bytes → List Bytes → Type 0
  CollidesOnWay (leaf e) m d p = Collide (0 ∷ d) (0 ∷ e)
  CollidesOnWay (node l r) m d p =
      if ltb m (size l)
      then (Collide (1 ∷ rebuilt l m (leaf_hash sha d) p ++ claimed p (depth l m))
            (1 ∷ root sha l ++ root sha r)
          ⊎ CollidesOnWay l m d p)
      else (Collide
            (1 ∷ claimed p (depth r (m - size l)) ++ rebuilt r (m - size l) (leaf_hash sha d) p)
            (1 ∷ root sha l ++ root sha r)
          ⊎ CollidesOnWay r (m - size l) d p)

  -- Equal digests have equal inputs, or the inputs collide.
  same_or_Collide : (x y : Bytes) → sha.digest x ≡ sha.digest y → (x ≡ y) ⊎ Collide x y
  same_or_Collide x y h = elim (Bytes-discrete x y) [ yes e ↦ inl e | no d ↦ inr (d, h) ]

  length-rebuilt :
      (t : Tree) (m : ℕ) (x : Bytes) (p : List Bytes)
      → length x ≡ 32
      → length (rebuilt t m x p) ≡ 32
  length-rebuilt (leaf d) m x p h = h
  length-rebuilt (node l r) m x p h = elim (Bool-cases (ltb m (size l))) [
    | inl less ↦ rw less (length-node_hash sha _ _)
    | inr more ↦ rw more (length-node_hash sha _ _)
  ]

tail_of : {a b : ℕ} {x y : Bytes} → ◌≡◌ {A = Bytes} (a ∷ x) (b ∷ y) → x ≡ y
tail_of h = cc

length-append : (a b : Bytes) → length (a ++ b) ≡ length a + length b
length-append [] b = omega arith
length-append (x ∷ a) b = omega (arith, length-append a b)

-- Two concatenations that end in parts of one length are equal part by part.
append_inj_end : (a b c d : Bytes) → length b ≡ length d → a ++ b ≡ c ++ d → (a ≡ c) × (b ≡ d)
append_inj_end a b c d n h =
    append_inj a b c d (omega (arith, length-append a b, length-append c d, ap length h, n)) h

module _ (sha : Sha256) where
  -- A path that makes the root of a tree of a leaf has started from the tree's leaf at that index, or
  -- a collision shows on its way up.
  pub rebuilt-commits :
      (t : Tree) (m : ℕ) (d : Bytes) (p : List Bytes)
      → rebuilt sha t m (leaf_hash sha d) p ≡ root sha t
      → (d ≡ leaf_at t m) ⊎ CollidesOnWay sha t m d p
  unfolding leaf_hash node_hash
  rebuilt-commits (leaf e) m d p h = elim (same_or_Collide sha (0 ∷ d) (0 ∷ e) h) [
    | inl same ↦ inl (tail_of same)
    | inr collide ↦ inr collide
  ]
  rebuilt-commits (node l r) m d p h = elim (Bool-cases (ltb m (size l))) [
    | inl less ↦
        let x = rebuilt sha l m (leaf_hash sha d) p in
        let y = claimed p (depth l m) in
        elim (same_or_Collide sha (1 ∷ x ++ y) (1 ∷ root sha l ++ root sha r) (rw less at h)) [
          | inl same ↦
              let parts =
                append_inj x y (root sha l) (root sha r)
                  (length-rebuilt sha l m (leaf_hash sha d) p (length-leaf_hash sha d)
                    ∙ sym (length-root sha l))
                  (tail_of same) in
              elim (rebuilt-commits l m d p parts.0) [
                | inl is_leaf ↦ inl (rw less is_leaf)
                | inr below ↦ inr (rw less (inr below))
              ]
          | inr collide ↦ inr (rw less (inl collide))
        ]
    | inr more ↦
        let y = claimed p (depth r (m - size l)) in
        let x = rebuilt sha r (m - size l) (leaf_hash sha d) p in
        elim (same_or_Collide sha (1 ∷ y ++ x) (1 ∷ root sha l ++ root sha r) (rw more at h)) [
          | inl same ↦
              let parts =
                append_inj_end y x (root sha l) (root sha r)
                  (length-rebuilt sha r (m - size l) (leaf_hash sha d) p (length-leaf_hash sha d)
                    ∙ sym (length-root sha r))
                  (tail_of same) in
              elim (rebuilt-commits r (m - size l) d p parts.1) [
                | inl is_leaf ↦ inl (rw more is_leaf)
                | inr below ↦ inr (rw more (inr below))
              ]
          | inr collide ↦ inr (rw more (inl collide))
        ]
  ]
