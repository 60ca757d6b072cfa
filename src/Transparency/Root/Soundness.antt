-- ===== src/Transparency/Root/Soundness.antt =====
-- What a reconstruction that ends in a root has computed: what the siblings of the audit path make of
-- the leaf's hash on the way up. From there, a path to the root of a tree commits to the tree's leaf.
use paybond_kit_python.Prelude.{
  ℕ, zero, suc, ◌+◌, ◌-◌, ◌≡◌, refl, ap, ◌∙◌, ◌⊎◌, inl, inr, true, false, List, [], ◌∷◌, length,
  arith, ltb, ◌==◌, Bool-cases, Option, none, some, some_inj,
}
use paybond_kit_python.Transparency.Bytes.{
  Bytes, Sha256, leaf_hash, node_hash, AllBytes, leaf_hash-AllBytes, node_hash-AllBytes,
}
use paybond_kit_python.Transparency.Power.{
  largest_power_of_two_less_than, largest_power-IsSplit, IsSplit-unique,
}
use paybond_kit_python.Transparency.Tree.{
  Tree, leaf, node, IsShaped, leaf_at, root, size-of_IsShaped,
}
use paybond_kit_python.Transparency.Tree.Way.{
  depth, claimed, rebuilt, CollidesOnWay, rebuilt-commits,
}
use paybond_kit_python.Transparency.Root.{
  Reconstruction, root_of, path_too_short, exhausted, get_elem?, join_right, join_left, below_left,
  below_right, reconstruct, reconstruct_merkle_root,
}

-- every entry of an audit path is as long as a digest
abbrev pub AllDigests : List Bytes → Type 0
AllDigests [] = Unit
AllDigests (x ∷ xs) = (length x ≡ 32) × AllDigests xs

claimed-get_elem? :
    (xs : List Bytes) (i : ℕ) (x : Bytes) → get_elem? xs i ≡ some x → claimed xs i ≡ x
claimed-get_elem? [] i x e = cc
claimed-get_elem? (y ∷ ys) zero x e = some_inj e
claimed-get_elem? (y ∷ ys) (suc i) x e = claimed-get_elem? ys i x e

abbrev root_bytes : Reconstruction → Bytes
root_bytes (root_of h c) = h
root_bytes path_too_short = []
root_bytes exhausted = []

abbrev consumed_of : Reconstruction → ℕ
consumed_of (root_of h c) = c
consumed_of path_too_short = 0
consumed_of exhausted = 0

root_of_inj : {a b : Bytes} {c d : ℕ} → root_of a c ≡ root_of b d → (a ≡ b) × (c ≡ d)
root_of_inj h = (ap root_bytes h, ap consumed_of h)

module _ (sha : Sha256) where
  -- Inversion of one round: the recursive call gave a digest, and it was joined with the sibling
  -- that the path claims at the level.
  below_left-inv :
      (audit_path : List Bytes) (r : Reconstruction) (h : Bytes) (c : ℕ)
      → below_left sha audit_path r ≡ root_of h c
      → (left : Bytes) × (d : ℕ) × (r ≡ root_of left d)
        × (node_hash sha left (claimed audit_path d) ≡ h)
        × (d + 1 ≡ c)
  unfolding below_left join_right
  below_left-inv audit_path (root_of left d) h c e = go (get_elem? audit_path d) refl e
    where
      go :
          (o : Option Bytes)
          → get_elem? audit_path d ≡ o
          → join_right sha left d o ≡ root_of h c
          → (left' : Bytes) × (d' : ℕ) × (root_of left d ≡ root_of left' d')
            × (node_hash sha left' (claimed audit_path d') ≡ h)
            × (d' + 1 ≡ c)
      go none at e = cc
      go (some right) at e =
          let (same, used) = root_of_inj e in
          (
            left,
            d,
            refl,
            ap (node_hash sha left) (claimed-get_elem? audit_path d right at) ∙ same,
            used,
          )
  below_left-inv audit_path path_too_short h c e = cc
  below_left-inv audit_path exhausted h c e = cc

  below_right-inv :
      (audit_path : List Bytes) (r : Reconstruction) (h : Bytes) (c : ℕ)
      → below_right sha audit_path r ≡ root_of h c
      → (right : Bytes) × (d : ℕ) × (r ≡ root_of right d)
        × (node_hash sha (claimed audit_path d) right ≡ h)
        × (d + 1 ≡ c)
  unfolding below_right join_left
  below_right-inv audit_path (root_of right d) h c e = go (get_elem? audit_path d) refl e
    where
      go :
          (o : Option Bytes)
          → get_elem? audit_path d ≡ o
          → join_left sha right d o ≡ root_of h c
          → (right' : Bytes) × (d' : ℕ) × (root_of right d ≡ root_of right' d')
            × (node_hash sha (claimed audit_path d') right' ≡ h)
            × (d' + 1 ≡ c)
      go none at e = cc
      go (some left) at e =
          let (same, used) = root_of_inj e in
          (
            right,
            d,
            refl,
            ap (λ x. node_hash sha x right) (claimed-get_elem? audit_path d left at) ∙ same,
            used,
          )
  below_right-inv audit_path path_too_short h c e = cc
  below_right-inv audit_path exhausted h c e = cc

  reconstruct-AllBytes :
      (fuel : ℕ) (lh : Bytes) (m n : ℕ) (audit_path : List Bytes) (h : Bytes) (c : ℕ)
      → AllBytes lh
      → reconstruct sha fuel lh m n audit_path ≡ root_of h c
      → AllBytes h
  unfolding reconstruct
  reconstruct-AllBytes zero lh m n audit_path h c bytes e = cc
  reconstruct-AllBytes (suc fuel) lh m n audit_path h c bytes e =
      let k = largest_power_of_two_less_than n in
      elim (Bool-cases (n == 1)) [
        | inl single ↦ rw (← (root_of_inj (rw single at e)).0) bytes
        | inr more ↦ elim (Bool-cases (ltb m k)) [
          | inl less ↦
              let inv = below_left-inv audit_path _ h c (rw less at (rw more at e)) in
              rw (← inv.3) (node_hash-AllBytes sha inv.0 (claimed audit_path inv.1))
          | inr less ↦
              let inv = below_right-inv audit_path _ h c (rw less at (rw more at e)) in
              rw (← inv.3) (node_hash-AllBytes sha (claimed audit_path inv.1) inv.0)
        ]
      ]

  -- On a tree size with a tree of that size, the code goes the tree's way.
  reconstruct-rebuilt :
      (fuel : ℕ) (t : Tree) (lh : Bytes) (m n : ℕ) (audit_path : List Bytes) (h : Bytes) (c : ℕ)
      → IsShaped n t
      → reconstruct sha fuel lh m n audit_path ≡ root_of h c
      → (rebuilt sha t m lh audit_path ≡ h) × (depth t m ≡ c)
  unfolding reconstruct
  reconstruct-rebuilt zero t lh m n audit_path h c shaped e = cc
  reconstruct-rebuilt (suc fuel) (leaf d) lh m n audit_path h c shaped e =
      let single : (n == 1) ≡ true = ground arith in root_of_inj (rw single at e)
  reconstruct-rebuilt (suc fuel) (node l r) lh m n audit_path h c (k, two, split, low, high) e =
      let many : (n == 1) ≡ false = ground arith in
      let same = IsSplit-unique (largest_power-IsSplit n two) split in
      let whole = size-of_IsShaped k l low in
      let step = rw same at (rw many at e) in
      elim (Bool-cases (ltb m k)) [
        | inl less ↦
            let (left, d, sub, hashed, used) =
              below_left-inv audit_path (reconstruct sha fuel lh m k audit_path) h c
                (rw less at step) in
            let (x, y) = reconstruct-rebuilt fuel l lh m k audit_path left d low sub in
            (rw (whole, less, x, y) hashed, rw (whole, less, y) used)
        | inr less ↦
            let (right, d, sub, hashed, used) =
              below_right-inv audit_path (reconstruct sha fuel lh (m - k) (n - k) audit_path) h c
                (rw less at step) in
            let (x, y) =
              reconstruct-rebuilt fuel r lh (m - k) (n - k) audit_path right d high sub in
            (rw (whole, less, x, y) hashed, rw (whole, less, y) used)
      ]

  -- If an audit path leads from a leaf's hash to the root of a tree of n leaves of RFC 6962's shape,
  -- the leaf is the tree's leaf at that index, or at some level of the way up from it the byte string
  -- that the path has hashed and the one that the tree has hashed differ and have one digest.
  pub reconstruct_merkle_root-commits :
      (t : Tree) (d : Bytes) (m n : ℕ) (audit_path : List Bytes) (c : ℕ)
      → IsShaped n t
      → reconstruct_merkle_root sha (leaf_hash sha d) m n audit_path ≡ root_of (root sha t) c
      → (d ≡ leaf_at t m) ⊎ CollidesOnWay sha t m d audit_path
  unfolding reconstruct_merkle_root
  reconstruct_merkle_root-commits t d m n audit_path c shaped e =
      rebuilt-commits sha t m d audit_path
        (reconstruct-rebuilt n t (leaf_hash sha d) m n audit_path (root sha t) c shaped e).0

  pub reconstruct_merkle_root-AllBytes :
      (d : Bytes) (m n : ℕ) (audit_path : List Bytes) (h : Bytes) (c : ℕ)
      → reconstruct_merkle_root sha (leaf_hash sha d) m n audit_path ≡ root_of h c
      → AllBytes h
  unfolding reconstruct_merkle_root
  reconstruct_merkle_root-AllBytes d m n audit_path h c =
      reconstruct-AllBytes n (leaf_hash sha d) m n audit_path h c (leaf_hash-AllBytes sha d)
