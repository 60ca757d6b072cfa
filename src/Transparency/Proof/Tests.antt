-- ===== src/Transparency/Proof/Tests.antt =====
-- A proof for the second of two receipts, over a toy hash.
use paybond_kit_python.Prelude.{◌≡◌, refl, ◌⊎◌, String, true, none, some, List, [], ◌∷◌, arith}
use paybond_kit_python.Prelude.Dict.{Dict, lookup}
use paybond_kit_python.Prelude.Outcome.{returned, raised}
use paybond_kit_python.Prelude.Text.{strip}
use paybond_kit_python.Policy.Value.{Value, int, str, list, mapping, fields_of, items_of}
use paybond_kit_python.Transparency.Bytes.{leaf_hash, node_hash}
use paybond_kit_python.Transparency.Hex.{hex, from_hex, is_hex, str_length}
use paybond_kit_python.Transparency.Power.{largest_power_of_two_less_than}
use paybond_kit_python.Transparency.Tree.{Tree, leaf, node, leaf_at, root}
use paybond_kit_python.Transparency.Tree.Way.{CollidesOnWay}
use paybond_kit_python.Transparency.Root.{reconstruct_merkle_root}
use paybond_kit_python.Transparency.Samples.{toy, two-IsSplit}
use paybond_kit_python.Transparency.Proof.Values.{
  Python, whole_of, iterate, mapping_of, too_long, refused,
}
use paybond_kit_python.Transparency.Proof.Head.{
  Crypto, sth_kind, signing_algorithm, item_at, natural_at, require_hex, allows_signing_public_key,
  verify_signed_tree_head_v1,
}
use paybond_kit_python.Transparency.Proof.{
  VerifiedProof, inclusion_proof_kind, positive, in_range, verify_agent_receipt_inclusion,
}
use paybond_kit_python.Transparency.Proof.Soundness.{verify_inclusion-commits}

abbrev python : Python
python = record { repr = λ v. ""; parse_int = λ v. none; lower = λ s. s; characters = λ s. [] }

abbrev crypto : Crypto
crypto = record {
  canonical_sth_bytes = λ head. 1 ∷ [];
  ed25519_verify = λ key signature digest. some true;
}

abbrev first : String
first = "00000000000000000000000000000000000000000000000000000000000000a1"

abbrev second : String
second = "00000000000000000000000000000000000000000000000000000000000000b2"

abbrev tree : Tree
tree = node (leaf (from_hex first)) (leaf (from_hex second))

abbrev raw_head : Dict Value
raw_head =
    ("kind", str sth_kind)
    ∷ ("schema_version", int 1)
    ∷ ("tenant_id", str "tenant_1")
    ∷ ("tree_size", int 2)
    ∷ ("signing_algorithm", str signing_algorithm)
    ∷ ("root_hash_sha256_hex", str (hex (root toy tree)))
    ∷ ("message_digest_sha256_hex", str (hex (toy.digest (1 ∷ []))))
    ∷ ("signing_public_key_ed25519_hex", str first)
    ∷ ("issued_at", str "2026-01-01T00:00:00Z")
    ∷ (
      "ed25519_signature_hex",
      str
          "00000000000000000000000000000000000000000000000000000000000000000000000000000000000000000000000000000000000000000000000000000000",
    )
    ∷ []

abbrev raw_proof : List Value → Dict Value
raw_proof path =
    ("kind", str inclusion_proof_kind)
    ∷ ("schema_version", int 1)
    ∷ ("tenant_id", str " tenant_1 ")
    ∷ ("receipt_id", str "receipt_2")
    ∷ ("tree_size", int 2)
    ∷ ("leaf_index", int 1)
    ∷ ("message_digest_sha256_hex", str second)
    ∷ ("leaf_hash_sha256_hex", str (hex (leaf_hash toy (from_hex second))))
    ∷ ("root_hash_sha256_hex", str (hex (root toy tree)))
    ∷ ("tree_head", mapping (fields_of raw_head))
    ∷ ("audit_path_sha256_hex", list (items_of path))
    ∷ []

abbrev sibling : Value
sibling = str (hex (leaf_hash toy (from_hex first)))

abbrev verified : VerifiedProof
verified = record {
  tenant_id = "tenant_1";
  receipt_id = "receipt_2";
  message_digest_sha256_hex = second;
  leaf_hash_sha256_hex = hex (leaf_hash toy (from_hex second));
  root_hash_sha256_hex = hex (root toy tree);
  leaf_index = 1;
  tree_size = 2;
  audit_path = leaf_hash toy (from_hex first) ∷ [];
  tree_head = record {
    head = record {
      tenant_id = "tenant_1";
      tree_size = 2;
      root_hash_sha256_hex = hex (root toy tree);
      issued_at = "2026-01-01T00:00:00Z";
    };
    message_digest_sha256_hex = hex (toy.digest (1 ∷ []));
    signing_public_key_ed25519_hex = first;
    ed25519_signature_hex =
        "00000000000000000000000000000000000000000000000000000000000000000000000000000000000000000000000000000000000000000000000000000000";
  };
}

accepts :
    verify_agent_receipt_inclusion python toy crypto (some (first ∷ [])) (raw_proof (sibling ∷ []))
    ≡ returned verified
unfolding verify_agent_receipt_inclusion verify_signed_tree_head_v1 lookup strip item_at natural_at
    require_hex whole_of iterate mapping_of hex from_hex is_hex str_length positive in_range
    allows_signing_public_key leaf_hash node_hash reconstruct_merkle_root
    largest_power_of_two_less_than
accepts = refl

refuses_longer_path :
    verify_agent_receipt_inclusion python toy crypto none (raw_proof (sibling ∷ sibling ∷ []))
    ≡ raised (refused too_long)
unfolding verify_agent_receipt_inclusion verify_signed_tree_head_v1 lookup strip item_at natural_at
    require_hex whole_of iterate mapping_of hex from_hex is_hex str_length positive in_range
    allows_signing_public_key leaf_hash node_hash reconstruct_merkle_root
    largest_power_of_two_less_than
refuses_longer_path = refl

verify_inclusion-commits_example :
    (from_hex verified.message_digest_sha256_hex ≡ leaf_at tree 1)
    ⊎ CollidesOnWay toy tree 1 (from_hex verified.message_digest_sha256_hex) verified.audit_path
verify_inclusion-commits_example =
    verify_inclusion-commits python toy crypto (some (first ∷ [])) (raw_proof (sibling ∷ []))
      verified tree accepts (1, omega arith, two-IsSplit, refl, refl) refl
