-- ===== src/Transparency/Proof/Soundness.antt =====
-- A proof that was accepted has a signed head of its own, and commits to the receipt's digest.
use paybond_kit_python.Prelude.{String, ◌≡◌, sym, ap, ◌∙◌, ◌⊎◌, Option, List, length}
use paybond_kit_python.Prelude.Dict.{Dict}
use paybond_kit_python.Prelude.Outcome.{returned}
use paybond_kit_python.Policy.Value.{Value}
use paybond_kit_python.Transparency.Bytes.{Sha256}
use paybond_kit_python.Transparency.Hex.{hex, from_hex, hex_inj}
use paybond_kit_python.Transparency.Tree.{Tree, IsShaped, leaf_at, root, root-AllBytes}
use paybond_kit_python.Transparency.Tree.Way.{CollidesOnWay}
use paybond_kit_python.Transparency.Root.{root_of}
use paybond_kit_python.Transparency.Root.Soundness.{
  reconstruct_merkle_root-commits, reconstruct_merkle_root-AllBytes,
}
use paybond_kit_python.Transparency.Proof.Values.{Python}
use paybond_kit_python.Transparency.Proof.Head.{Crypto}
use paybond_kit_python.Transparency.Proof.{VerifiedProof, verify_agent_receipt_inclusion}
use paybond_kit_python.Transparency.Proof.Laws.{verify_inclusion-IsVerified}

-- If a proof was accepted, and its head's root is that of a tree of the proof's size and RFC 6962's
-- shape, the receipt's digest is the tree's leaf at the proof's index, or at some level of the way up
-- from it the byte string that the audit path has hashed and the one that the tree has hashed differ
-- and have one digest.
pub verify_inclusion-commits :
    (python : Python) (sha : Sha256) (crypto : Crypto) (expected : Option (List String))
    (proof : Dict Value) (r : VerifiedProof) (t : Tree)
    → verify_agent_receipt_inclusion python sha crypto expected proof ≡ returned r
    → IsShaped r.tree_size t
    → hex (root sha t) ≡ r.tree_head.head.root_hash_sha256_hex
    → (from_hex r.message_digest_sha256_hex ≡ leaf_at t r.leaf_index)
      ⊎ CollidesOnWay sha t r.leaf_index (from_hex r.message_digest_sha256_hex) r.audit_path
verify_inclusion-commits python sha crypto expected proof r t h shaped rooted =
    let v = verify_inclusion-IsVerified python sha crypto expected proof r h in
    let leaf = from_hex r.message_digest_sha256_hex in
    let bytes =
      reconstruct_merkle_root-AllBytes sha leaf r.leaf_index r.tree_size r.audit_path v.path.root
        (length r.audit_path) v.path.reached in
    let same : v.path.root ≡ root sha t =
      hex_inj v.path.root (root sha t) bytes (root-AllBytes sha t)
        (v.path.in_hex ∙ sym v.head.same_root ∙ sym rooted) in
    reconstruct_merkle_root-commits sha t leaf r.leaf_index r.tree_size r.audit_path
      (length r.audit_path) shaped (v.path.reached ∙ ap (λ x. root_of x (length r.audit_path)) same)
