-- ===== src/Transparency/Proof/Laws.antt =====
-- What is known of a tree head and of a proof that were verified.
pub mod Steps
use paybond_kit_python.Prelude.{
  ℕ, ◌<◌, String, ◌≡◌, refl, ap, ◌∙◌, subst, Bool, true, false, Option, none, some, List, [], ◌∷◌,
  length, arith, ltb, ◌==◌, str_eq, eq_iff,
}
use paybond_kit_python.Prelude.Dict.{Dict, lookup}
use paybond_kit_python.Prelude.Outcome.{returned, returned_inj, raised-ne-returned, bind-returned}
use paybond_kit_python.Prelude.Text.{strip}
use paybond_kit_python.Policy.Value.{Value}
use paybond_kit_python.Transparency.Bytes.{Bytes, Sha256, leaf_hash}
use paybond_kit_python.Transparency.Hex.{hex, from_hex, is_hex, str_length, length-from_hex}
use paybond_kit_python.Transparency.Root.{
  Reconstruction, root_of, path_too_short, exhausted, reconstruct_merkle_root,
}
use paybond_kit_python.Transparency.Root.Soundness.{AllDigests}
use paybond_kit_python.Transparency.Proof.Values.{
  Python, Whole, natural, below_zero, Refusal, text_of, require, mapping_of, not_hex,
  index_out_of_range, too_long, digest_mismatch, untrusted_key, negative_tree_size, wrong_algorithm,
  head_tenant_mismatch, head_size_mismatch, head_root_mismatch, root_mismatch, leaf_mismatch,
}
use paybond_kit_python.Transparency.Proof.Head.{
  Head, Crypto, SignedTreeHead, signing_algorithm, stripped_or_empty, item_at, natural_at,
  require_hex, hex_at, allows_signing_public_key, head_digest, check_signature, check_head_fields,
  trusted_head, check_signed, verify_mapping, verify_signed_tree_head_v1,
}
use paybond_kit_python.Transparency.Proof.{
  VerifiedProof, whole_at, positive, in_range, path_entries, path_items, root_of_path,
  check_proof_fields, read_position, matching_head, check_path, verify_agent_receipt_inclusion,
}
use paybond_kit_python.Transparency.Proof.Laws.Steps.{
  in_range-inside, path_entries-AllDigests, require-returned, require_same, root_of_path-returned,
}

module _ (python : Python) where
  module _ (sha : Sha256) (crypto : Crypto) where
    -- The key is trusted, where keys are configured, and it accepts the signature of the digest of the head.
    pub record IsSigned (expected : Option (List String)) (sth : SignedTreeHead) : Type 0 where
      pub trusted :
          allows_signing_public_key python sth.signing_public_key_ed25519_hex expected ≡ true
      pub digested : hex (head_digest python sha crypto sth.head) ≡ sth.message_digest_sha256_hex
      pub accepted :
          crypto.ed25519_verify
            (from_hex sth.signing_public_key_ed25519_hex)
            (from_hex sth.ed25519_signature_hex)
            (head_digest python sha crypto sth.head)
          ≡ some true

    check_signature-returned :
        (o : Option Bool) {u : Unit {0}}
        → check_signature python sha crypto o ≡ returned u
        → o ≡ some true
    unfolding check_signature
    check_signature-returned none h = absurd (raised-ne-returned h)
    check_signature-returned (some accepted) h = ap some (require-returned accepted _ h)

    check_signed-IsSigned :
        (expected : Option (List String)) (d : Dict Value) (head : Head) (digest key : String)
        (sth : SignedTreeHead)
        → allows_signing_public_key python key expected ≡ true
        → check_signed python sha crypto d head digest key ≡ returned sth
        → IsSigned expected sth
    unfolding check_signed
    check_signed-IsSigned expected d head digest key sth trusts h =
        let (_, same, h1) =
          bind-returned
            (require (str_eq (hex (head_digest python sha crypto head)) digest) digest_mismatch) _
            h in
        let (signature, _, h2) = bind-returned (hex_at python 128 "ed25519_signature_hex" d) _ h1 in
        let (_, accepts, h3) =
          bind-returned
            (check_signature python sha crypto (
              crypto.ed25519_verify (from_hex key) (from_hex signature)
                (head_digest python sha crypto head)))
            _ h2 in
        subst (IsSigned expected) (returned_inj h3) (record {
          trusted = trusts;
          digested = require_same _ _ _ same;
          accepted = check_signature-returned _ accepts;
        })

    trusted_head-trusts :
        (expected : Option (List String)) (d : Dict Value) (n : ℕ) (root key : String) (head : Head)
        → trusted_head python sha crypto expected d n root key ≡ returned head
        → allows_signing_public_key python key expected ≡ true
    unfolding trusted_head
    trusted_head-trusts expected d n root key head h =
        require-returned _ _
          (bind-returned (require (allows_signing_public_key python key expected) untrusted_key) _
            h).1

    pub verify_signed_tree_head-IsSigned :
        (expected : Option (List String)) (raw : Value) (sth : SignedTreeHead)
        → verify_signed_tree_head_v1 python sha crypto expected raw ≡ returned sth
        → IsSigned expected sth
    unfolding verify_signed_tree_head_v1 verify_mapping
    verify_signed_tree_head-IsSigned expected raw sth h =
        let (d, _, h1) = bind-returned (mapping_of raw) _ h in
        let (_, _, h2) = bind-returned (check_head_fields python sha crypto d) _ h1 in
        let (n, _, h3) = bind-returned (natural_at python "tree_size" d negative_tree_size) _ h2 in
        let (_, _, h4) =
          bind-returned
            (require (str_eq (stripped_or_empty python "signing_algorithm" d) signing_algorithm)
              wrong_algorithm)
            _ h3 in
        let (root, _, h5) = bind-returned (hex_at python 64 "root_hash_sha256_hex" d) _ h4 in
        let (digest, _, h6) = bind-returned (hex_at python 64 "message_digest_sha256_hex" d) _ h5 in
        let (key, _, h7) =
          bind-returned (hex_at python 64 "signing_public_key_ed25519_hex" d) _ h6 in
        let (head, trusts, h8) =
          bind-returned (trusted_head python sha crypto expected d n root key) _ h7 in
        check_signed-IsSigned expected d head digest key sth
          (trusted_head-trusts expected d n root key head trusts) h8

    read_position-inside :
        (proof : Dict Value) (position : ℕ × ℕ)
        → read_position python sha crypto proof ≡ returned position
        → position.1 < position.0
    unfolding read_position
    read_position-inside proof position h =
        let (w, _, h1) = bind-returned (whole_at python "tree_size" proof) _ h in
        let (v, _, h2) = bind-returned (whole_at python "leaf_index" proof) _ h1 in
        let (size, _, h3) = bind-returned (positive python w) _ h2 in
        let (index, inside, h4) = bind-returned (in_range python size v) _ h3 in
        subst (λ (p : ℕ × ℕ). p.1 < p.0) (returned_inj h4)
          (in_range-inside python size v index inside)

    -- The head is signed, and it speaks of the proof's tenant, size and root.
    pub record Matches (expected : Option (List String)) (tenant_id : String) (size : ℕ)
        (root_hash : String) (sth : SignedTreeHead) : Type 0 where
      pub signed : IsSigned expected sth
      pub same_tenant : sth.head.tenant_id ≡ tenant_id
      pub same_size : sth.head.tree_size ≡ size
      pub same_root : sth.head.root_hash_sha256_hex ≡ root_hash

    matching_head-Matches :
        (expected : Option (List String)) (proof : Dict Value) (size : ℕ) (root_hash : String)
        (sth : SignedTreeHead)
        → matching_head python sha crypto expected proof size root_hash ≡ returned sth
        → Matches expected (stripped_or_empty python "tenant_id" proof) size root_hash sth
    unfolding matching_head
    matching_head-Matches expected proof size root_hash sth h =
        let tenant = stripped_or_empty python "tenant_id" proof in
        let (raw, _, h1) = bind-returned (item_at python "tree_head" proof) _ h in
        let (t, verified, h2) =
          bind-returned (verify_signed_tree_head_v1 python sha crypto expected raw) _ h1 in
        let (_, tenants, h3) =
          bind-returned (require (str_eq t.head.tenant_id tenant) head_tenant_mismatch) _ h2 in
        let (_, sizes, h4) =
          bind-returned (require (t.head.tree_size == size) head_size_mismatch) _ h3 in
        let (_, roots, h5) =
          bind-returned (require (str_eq t.head.root_hash_sha256_hex root_hash) head_root_mismatch)
            _ h4 in
        subst (Matches expected tenant size root_hash) (returned_inj h5) (record {
          signed = verify_signed_tree_head-IsSigned expected raw t verified;
          same_tenant = require_same _ _ _ tenants;
          same_size =
              ground (arith, require-returned (t.head.tree_size == size) head_size_mismatch sizes);
          same_root = require_same _ _ _ roots;
        })

    -- The audit path leads from the leaf to the root, and is used up.
    pub record Leads (size index : ℕ) (leaf : Bytes) (root_hash : String) (audit_path : List Bytes)
        : Type 0 where
      pub digests : AllDigests audit_path
      pub root : Bytes
      pub reached :
          reconstruct_merkle_root sha leaf index size audit_path ≡ root_of root (length audit_path)
      pub in_hex : hex root ≡ root_hash

    check_path-Leads :
        (proof : Dict Value) (size index : ℕ) (leaf : Bytes) (root_hash : String)
        (audit_path : List Bytes)
        → check_path python sha crypto proof size index leaf root_hash ≡ returned audit_path
        → Leads size index leaf root_hash audit_path
    unfolding check_path
    check_path-Leads proof size index leaf root_hash audit_path h =
        let (items, _, h1) =
          bind-returned (path_items python sha crypto (lookup "audit_path_sha256_hex" proof)) _ h in
        let (p, entries, h2) = bind-returned (path_entries python sha crypto items) _ h1 in
        let (s, rooted, h3) =
          bind-returned
            (root_of_path python sha crypto (reconstruct_merkle_root sha leaf index size p) p) _
            h2 in
        let (_, same, h4) = bind-returned (require (str_eq s root_hash) root_mismatch) _ h3 in
        let (root, reached, in_hex) = root_of_path-returned python sha crypto _ p s rooted in
        subst (Leads size index leaf root_hash) (returned_inj h4) (record {
          digests = path_entries-AllDigests python sha crypto items p entries;
          root = root;
          reached = reached;
          in_hex = in_hex ∙ require_same _ _ _ same;
        })

    -- What the checks of a proof that was accepted have settled.
    pub record IsVerified (expected : Option (List String)) (r : VerifiedProof) : Type 0 where
      pub inside : r.leaf_index < r.tree_size
      pub head : Matches expected r.tenant_id r.tree_size r.root_hash_sha256_hex r.tree_head
      pub path :
          Leads r.tree_size r.leaf_index
            (leaf_hash sha (from_hex r.message_digest_sha256_hex))
            r.root_hash_sha256_hex
            r.audit_path

    pub verify_inclusion-IsVerified :
        (expected : Option (List String)) (proof : Dict Value) (r : VerifiedProof)
        → verify_agent_receipt_inclusion python sha crypto expected proof ≡ returned r
        → IsVerified expected r
    unfolding verify_agent_receipt_inclusion
    verify_inclusion-IsVerified expected proof r h =
        let (_, _, h1) = bind-returned (check_proof_fields python sha crypto proof) _ h in
        let (position, placed, h2) = bind-returned (read_position python sha crypto proof) _ h1 in
        let (digest, _, h3) =
          bind-returned (hex_at python 64 "message_digest_sha256_hex" proof) _ h2 in
        let (leaf, _, h4) = bind-returned (hex_at python 64 "leaf_hash_sha256_hex" proof) _ h3 in
        let (root, _, h5) = bind-returned (hex_at python 64 "root_hash_sha256_hex" proof) _ h4 in
        let (sth, matched, h6) =
          bind-returned (matching_head python sha crypto expected proof position.0 root) _ h5 in
        let (_, _, h7) =
          bind-returned
            (require (str_eq (hex (leaf_hash sha (from_hex digest))) leaf) leaf_mismatch) _ h6 in
        let (p, leads, h8) =
          bind-returned
            (check_path python sha crypto proof position.0 position.1
              (leaf_hash sha (from_hex digest)) root)
            _ h7 in
        subst (IsVerified expected) (returned_inj h8) (record {
          inside = read_position-inside proof position placed;
          head = matching_head-Matches expected proof position.0 root sth matched;
          path = check_path-Leads proof position.0 position.1 _ root p leads;
        })
