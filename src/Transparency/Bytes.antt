-- ===== src/Transparency/Bytes.antt =====
-- Byte strings, the hash, and the two RFC 6962 hashes over it.
use paybond_kit_python.Prelude.{ℕ, ◌≡◌, refl, List, [], ◌∷◌, ◌++◌, length, ◌<◌, arith}
use native.Mathlib.Decide.{ℕ_discrete}

abbrev pub Bytes : Type 0
Bytes = List ℕ

abbrev pub AllBytes : Bytes → Type 0
AllBytes [] = Unit
AllBytes (b ∷ bs) = (b < 256) × AllBytes bs

-- `hashlib.sha256(x).digest()`: of it the code relies on a digest being 32 bytes.
pub record Sha256 : Type 0 where
  pub digest : Bytes → Bytes
  pub digest_length : (x : Bytes) → length (digest x) ≡ 32
  pub digest_bytes : (x : Bytes) → AllBytes (digest x)

pub Bytes-discrete : Discrete Bytes
Bytes-discrete = hlevel ℕ_discrete

module _ (sha : Sha256) where
  -- merkle_leaf_hash_rfc6962
  unfoldable pub leaf_hash : Bytes → Bytes
  leaf_hash leaf_data = sha.digest (0 ∷ leaf_data)

  -- merkle_node_hash_rfc6962
  unfoldable pub node_hash : Bytes → Bytes → Bytes
  node_hash left right = sha.digest (1 ∷ left ++ right)

cons_inj : {a b : ℕ} {x y : Bytes} → ◌≡◌ {A = Bytes} (a ∷ x) (b ∷ y) → (a ≡ b) × (x ≡ y)
cons_inj h = (cc, cc)

-- Two concatenations that begin with parts of one length are equal part by part.
pub append_inj : (a b c d : Bytes) → length a ≡ length c → a ++ b ≡ c ++ d → (a ≡ c) × (b ≡ d)
append_inj [] b [] d n h = (refl, h)
append_inj [] b (z ∷ c) d n h = absurd (omega arith)
append_inj (x ∷ a) b [] d n h = absurd (omega arith)
append_inj (x ∷ a) b (z ∷ c) d n h =
    let (head, tail) = cons_inj h in
    let (same, rest) = append_inj a b c d (omega arith) tail in (cc, rest)

module _ (sha : Sha256) where
  pub length-leaf_hash : (x : Bytes) → length (leaf_hash sha x) ≡ 32
  unfolding leaf_hash
  length-leaf_hash x = sha.digest_length (0 ∷ x)

  pub length-node_hash : (a b : Bytes) → length (node_hash sha a b) ≡ 32
  unfolding node_hash
  length-node_hash a b = sha.digest_length (1 ∷ a ++ b)

  pub leaf_hash-AllBytes : (x : Bytes) → AllBytes (leaf_hash sha x)
  unfolding leaf_hash
  leaf_hash-AllBytes x = sha.digest_bytes (0 ∷ x)

  pub node_hash-AllBytes : (a b : Bytes) → AllBytes (node_hash sha a b)
  unfolding node_hash
  node_hash-AllBytes a b = sha.digest_bytes (1 ∷ a ++ b)
