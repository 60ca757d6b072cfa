-- ===== src/Transparency/Proof/Head.antt =====
-- `verify_signed_tree_head_v1` of src/paybond_kit/agent_receipt_inclusion.py.
use paybond_kit_python.Prelude.{
  ℕ, String, Bool, true, false, not, Option, none, some, List, [], ◌∷◌, ◌==◌, str_eq, if◌then◌else◌,
}
use paybond_kit_python.Prelude.Dict.{Dict, lookup}
use paybond_kit_python.Prelude.Text.{strip}
use paybond_kit_python.Prelude.Outcome.{raised, returned, ◌>>=◌, ◌>>◌}
use paybond_kit_python.Policy.Value.{Value}
use paybond_kit_python.Transparency.Bytes.{Bytes, Sha256}
use paybond_kit_python.Transparency.Hex.{hex, from_hex, is_hex}
use paybond_kit_python.Transparency.Proof.Values.{
  Python, natural, below_zero, Refusal, missing, refused, Checked, text_of, whole_of, mapping_of,
  require, wrong_kind, wrong_schema_version, no_tenant_id, negative_tree_size, wrong_algorithm,
  untrusted_key, digest_mismatch, bad_signature, not_hex, unusable_key,
}

-- What `_canonical_sth_bytes` writes beside its constants.
pub record Head : Type 0 where
  pub tenant_id : String
  pub tree_size : ℕ
  pub root_hash_sha256_hex : String
  pub issued_at : String

-- `json.dumps` and the encoding of the canonical mapping, and Ed25519: the key is read from its
-- bytes, which may fail, and either accepts the signature of the digest or not.
pub record Crypto : Type 0 where
  pub canonical_sth_bytes : Head → Bytes
  pub ed25519_verify : Bytes → Bytes → Bytes → Option Bool

-- The values that the checks settle; the other fields of the mapping are passed on unread.
pub record SignedTreeHead : Type 0 where
  pub head : Head
  pub message_digest_sha256_hex : String
  pub signing_public_key_ed25519_hex : String
  pub ed25519_signature_hex : String

abbrev pub sth_kind : String
sth_kind = "paybond.agent_receipt_transparency_sth_v1"

abbrev pub signing_algorithm : String
signing_algorithm = "ed25519-sha256-json-v1"

module _ (python : Python) where
  -- `str(d.get(key, "")).strip()`
  abbrev pub stripped_or_empty : String → Dict Value → String
  stripped_or_empty key d = elim (lookup key d) [ none ↦ "" | some v ↦ strip (text_of python v) ]

  -- `d[key]`
  unfoldable pub item_at : String → Dict Value → Checked Value
  item_at key d = elim (lookup key d) [ none ↦ raised (missing key) | some v ↦ returned v ]

  -- `int(d.get("schema_version", -1)) != 1`
  abbrev pub is_version_1 : Option Value → Checked Bool
  is_version_1 none = returned false
  is_version_1 (some v) = whole_of python v >>= λ n. elim n [
    | natural k ↦ returned (k == 1)
    | below_zero ↦ returned false
  ]

  -- `int(d[key])`, where a number below 0 is refused
  unfoldable pub natural_at : String → Dict Value → Refusal → Checked ℕ
  natural_at key d refusal = do
    v ← item_at key d
    n ← whole_of python v
    elim n [ natural k ↦ returned k | below_zero ↦ raised (refused refusal) ]

  unfoldable pub require_hex : ℕ → Value → Checked String
  require_hex digits v =
      let normalized = python.lower (strip (text_of python v)) in
      require (is_hex digits normalized) not_hex >> returned normalized

  abbrev pub hex_at : ℕ → String → Dict Value → Checked String
  hex_at digits key d = item_at key d >>= require_hex digits

  -- `any(value.strip().lower() == normalized for value in trusted)`
  unfoldable pub any_trusted : String → List String → Bool
  any_trusted normalized [] = false
  any_trusted normalized (value ∷ rest) =
      let others = any_trusted normalized rest in
      if str_eq (python.lower (strip value)) normalized then true else others

  unfoldable pub allows_signing_public_key : String → Option (List String) → Bool
  unfolding any_trusted
  allows_signing_public_key key_hex none = true
  allows_signing_public_key key_hex (some []) = true
  allows_signing_public_key key_hex (some (value ∷ rest)) =
      any_trusted (python.lower (strip key_hex)) (value ∷ rest)

  module _ (sha : Sha256) (crypto : Crypto) where
    -- The digest that is signed: the canonical mapping strips and lowers once more.
    abbrev pub head_digest : Head → Bytes
    head_digest head = sha.digest (
        crypto.canonical_sth_bytes (record {
          tenant_id = strip head.tenant_id;
          tree_size = head.tree_size;
          root_hash_sha256_hex = python.lower (strip head.root_hash_sha256_hex);
          issued_at = strip head.issued_at;
        }))

    abbrev pub head_of : Dict Value → ℕ → String → Value → Head
    head_of sth tree_size root_hash issued_at = record {
      tenant_id = stripped_or_empty "tenant_id" sth;
      tree_size = tree_size;
      root_hash_sha256_hex = root_hash;
      issued_at = strip (text_of python issued_at);
    }

    unfoldable pub check_signature : Option Bool → Checked (Unit {0})
    check_signature none = raised unusable_key
    check_signature (some accepted) = require accepted bad_signature

    -- The constants of the head, and its tenant.
    unfoldable pub check_head_fields : Dict Value → Checked (Unit {0})
    check_head_fields sth = do
      require (str_eq (stripped_or_empty "kind" sth) sth_kind) wrong_kind
      current ← is_version_1 (lookup "schema_version" sth)
      require current wrong_schema_version
      require (not (str_eq (stripped_or_empty "tenant_id" sth) "")) no_tenant_id

    -- The head, once the key is trusted; `expected` are the trusted keys, which may be None.
    unfoldable pub trusted_head :
        Option (List String) → Dict Value → ℕ → String → String → Checked Head
    trusted_head expected sth tree_size root_hash public_key = do
      require (allows_signing_public_key public_key expected) untrusted_key
      issued_at ← item_at "issued_at" sth
      returned (head_of sth tree_size root_hash issued_at)

    -- The digest and its signature.
    unfoldable pub check_signed : Dict Value → Head → String → String → Checked SignedTreeHead
    unfolding check_signature
    check_signed sth head message_digest public_key = do
      require (str_eq (hex (head_digest head)) message_digest) digest_mismatch
      signature ← hex_at 128 "ed25519_signature_hex" sth
      check_signature
          (crypto.ed25519_verify (from_hex public_key) (from_hex signature) (head_digest head))
      returned (record {
        head = head;
        message_digest_sha256_hex = message_digest;
        signing_public_key_ed25519_hex = public_key;
        ed25519_signature_hex = signature;
      })

    unfoldable pub verify_mapping : Option (List String) → Dict Value → Checked SignedTreeHead
    unfolding check_head_fields trusted_head check_signed
    verify_mapping expected sth = do
      check_head_fields sth
      tree_size ← natural_at "tree_size" sth negative_tree_size
      require (str_eq (stripped_or_empty "signing_algorithm" sth) signing_algorithm) wrong_algorithm
      root_hash ← hex_at 64 "root_hash_sha256_hex" sth
      message_digest ← hex_at 64 "message_digest_sha256_hex" sth
      public_key ← hex_at 64 "signing_public_key_ed25519_hex" sth
      head ← trusted_head expected sth tree_size root_hash public_key
      check_signed sth head message_digest public_key

    unfoldable pub verify_signed_tree_head_v1 :
        Option (List String) → Value → Checked SignedTreeHead
    unfolding verify_mapping
    verify_signed_tree_head_v1 expected raw = mapping_of raw >>= verify_mapping expected
