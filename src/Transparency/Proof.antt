-- ===== src/Transparency/Proof.antt =====
-- `verify_agent_receipt_inclusion` of src/paybond_kit/agent_receipt_inclusion.py.
pub mod Values
pub mod Head
pub mod Laws
pub mod Soundness
mod Tests
use paybond_kit_python.Prelude.{
  ℕ, zero, suc, String, Bool, true, false, not, Option, none, some, List, [], ◌∷◌, ltb, ◌==◌,
  str_eq, if◌then◌else◌, length,
}
use paybond_kit_python.Prelude.Dict.{Dict, lookup}
use paybond_kit_python.Prelude.Text.{strip}
use paybond_kit_python.Prelude.Outcome.{Outcome, raised, returned, ◌>>=◌, ◌>>◌}
use paybond_kit_python.Policy.Value.{Value}
use paybond_kit_python.Transparency.Bytes.{Bytes, Sha256, leaf_hash}
use paybond_kit_python.Transparency.Hex.{hex, from_hex, is_hex}
use paybond_kit_python.Transparency.Root.{
  Reconstruction, root_of, path_too_short, exhausted, reconstruct_merkle_root,
}
use paybond_kit_python.Transparency.Proof.Values.{
  Python, Whole, natural, below_zero, Refusal, ProofError, missing, refused, not_ended, Checked,
  text_of, whole_of, mapping_of, iterate, require, wrong_kind, wrong_schema_version, no_tenant_id,
  no_receipt_id, negative_tree_size, wrong_algorithm, untrusted_key, digest_mismatch, bad_signature,
  not_positive, index_out_of_range, head_tenant_mismatch, head_size_mismatch, head_root_mismatch,
  leaf_mismatch, too_short, too_long, root_mismatch, not_hex, unusable_key,
}
use paybond_kit_python.Transparency.Proof.Head.{
  Crypto, SignedTreeHead, stripped_or_empty, item_at, is_version_1, require_hex, hex_at,
  verify_signed_tree_head_v1,
}

pub record VerifiedProof : Type 0 where
  pub tenant_id : String
  pub receipt_id : String
  pub message_digest_sha256_hex : String
  pub leaf_hash_sha256_hex : String
  pub root_hash_sha256_hex : String
  pub leaf_index : ℕ
  pub tree_size : ℕ
  pub audit_path : List Bytes
  pub tree_head : SignedTreeHead

abbrev pub inclusion_proof_kind : String
inclusion_proof_kind = "paybond.agent_receipt_transparency_inclusion_proof_v1"

module _ (python : Python) where
  -- `int(d[key])`
  abbrev pub whole_at : String → Dict Value → Checked Whole
  whole_at key d = item_at python key d >>= whole_of python

  -- `if tree_size <= 0: raise`
  unfoldable pub positive : Whole → Checked ℕ
  positive below_zero = raised (refused not_positive)
  positive (natural zero) = raised (refused not_positive)
  positive (natural (suc n)) = returned (suc n)

  -- `if leaf_index < 0 or leaf_index >= tree_size: raise`
  unfoldable pub in_range : ℕ → Whole → Checked ℕ
  in_range size below_zero = raised (refused index_out_of_range)
  in_range size (natural index) = require (ltb index size) index_out_of_range >> returned index

  module _ (sha : Sha256) (crypto : Crypto) where
    -- The list of the audit path: each entry is 64 hexadecimal digits.
    unfoldable pub path_entries : List Value → Checked (List Bytes)
    path_entries [] = returned []
    path_entries (entry ∷ rest) = do
      digits ← require_hex python 64 entry
      others ← path_entries rest
      returned (from_hex digits ∷ others)

    -- `proof.get("audit_path_sha256_hex") or []`
    abbrev pub path_items : Option Value → Checked (List Value)
    path_items none = returned []
    path_items (some v) = iterate python v

    -- What the caller makes of the reconstruction: its root in hex, once the path is used up.
    unfoldable pub root_of_path : Reconstruction → List Bytes → Checked String
    root_of_path (root_of root consumed) audit_path =
        require (consumed == length audit_path) too_long >> returned (hex root)
    root_of_path path_too_short audit_path = raised (refused too_short)
    root_of_path exhausted audit_path = raised not_ended

    -- The constants of the proof, and its names.
    unfoldable pub check_proof_fields : Dict Value → Checked (Unit {0})
    check_proof_fields proof = do
      require (str_eq (stripped_or_empty python "kind" proof) inclusion_proof_kind) wrong_kind
      current ← is_version_1 python (lookup "schema_version" proof)
      require current wrong_schema_version
      require (not (str_eq (stripped_or_empty python "tenant_id" proof) "")) no_tenant_id
      require (not (str_eq (stripped_or_empty python "receipt_id" proof) "")) no_receipt_id

    -- The size of the tree and the index of the leaf.
    unfoldable pub read_position : Dict Value → Checked (ℕ × ℕ)
    read_position proof = do
      tree_size ← whole_at "tree_size" proof
      leaf_index ← whole_at "leaf_index" proof
      size ← positive tree_size
      index ← in_range size leaf_index
      returned (size, index)

    -- The verified head, which has to be of the same tenant, size and root.
    unfoldable pub matching_head :
        Option (List String) → Dict Value → ℕ → String → Checked SignedTreeHead
    unfolding verify_signed_tree_head_v1
    matching_head expected proof size root_hash = do
      raw ← item_at python "tree_head" proof
      sth ← verify_signed_tree_head_v1 python sha crypto expected raw
      require (str_eq sth.head.tenant_id (stripped_or_empty python "tenant_id" proof))
          head_tenant_mismatch
      require (sth.head.tree_size == size) head_size_mismatch
      require (str_eq sth.head.root_hash_sha256_hex root_hash) head_root_mismatch
      returned sth

    -- The audit path, which has to lead from the leaf to the root.
    unfoldable pub check_path : Dict Value → ℕ → ℕ → Bytes → String → Checked (List Bytes)
    unfolding path_entries root_of_path
    check_path proof size index leaf root_hash = do
      items ← path_items (lookup "audit_path_sha256_hex" proof)
      audit_path ← path_entries items
      root ← root_of_path (reconstruct_merkle_root sha leaf index size audit_path) audit_path
      require (str_eq root root_hash) root_mismatch
      returned audit_path

    unfoldable pub verify_agent_receipt_inclusion :
        Option (List String) → Dict Value → Checked VerifiedProof
    unfolding check_proof_fields read_position matching_head check_path
    verify_agent_receipt_inclusion expected proof = do
      check_proof_fields proof
      position ← read_position proof
      message_digest ← hex_at python 64 "message_digest_sha256_hex" proof
      leaf_hash_hex ← hex_at python 64 "leaf_hash_sha256_hex" proof
      root_hash ← hex_at python 64 "root_hash_sha256_hex" proof
      sth ← matching_head expected proof position.0 root_hash
      require (str_eq (hex (leaf_hash sha (from_hex message_digest))) leaf_hash_hex) leaf_mismatch
      audit_path ←
          check_path proof position.0 position.1 (leaf_hash sha (from_hex message_digest)) root_hash
      returned (record {
        tenant_id = stripped_or_empty python "tenant_id" proof;
        receipt_id = stripped_or_empty python "receipt_id" proof;
        message_digest_sha256_hex = message_digest;
        leaf_hash_sha256_hex = leaf_hash_hex;
        root_hash_sha256_hex = root_hash;
        leaf_index = position.1;
        tree_size = position.0;
        audit_path = audit_path;
        tree_head = sth;
      })
