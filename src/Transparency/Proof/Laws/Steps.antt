-- ===== src/Transparency/Proof/Laws/Steps.antt =====
-- What is known where the steps of a verification return.
use paybond_kit_python.Prelude.{
  ℕ, ◌<◌, String, ◌≡◌, refl, ap, subst, Bool, true, false, List, [], ◌∷◌, length, arith, ltb, ◌==◌,
  str_eq, eq_iff,
}
use paybond_kit_python.Prelude.Outcome.{returned, returned_inj, raised-ne-returned, bind-returned}
use paybond_kit_python.Prelude.Text.{strip}
use paybond_kit_python.Policy.Value.{Value}
use paybond_kit_python.Transparency.Bytes.{Bytes, Sha256}
use paybond_kit_python.Transparency.Hex.{hex, is_hex, str_length, length-from_hex}
use paybond_kit_python.Transparency.Root.{Reconstruction, root_of, path_too_short, exhausted}
use paybond_kit_python.Transparency.Root.Soundness.{AllDigests}
use paybond_kit_python.Transparency.Proof.Values.{
  Python, Whole, natural, below_zero, Refusal, text_of, require, not_hex, index_out_of_range,
  too_long,
}
use paybond_kit_python.Transparency.Proof.Head.{Crypto, require_hex}
use paybond_kit_python.Transparency.Proof.{in_range, path_entries, root_of_path}

pub require-returned :
    (test : Bool) (refusal : Refusal) {u : Unit {0}}
    → require test refusal ≡ returned u
    → test ≡ true
require-returned true refusal h = refl
require-returned false refusal h = absurd (raised-ne-returned h)

pub require_same :
    (a b : String) (refusal : Refusal) {u : Unit {0}}
    → require (str_eq a b) refusal ≡ returned u
    → a ≡ b
require_same a b refusal h = (eq_iff a b).0 (require-returned (str_eq a b) refusal h)

module _ (python : Python) where
  require_hex-length :
      (digits : ℕ) (v : Value) (s : String)
      → require_hex python digits v ≡ returned s
      → str_length s ≡ digits
  unfolding require_hex is_hex
  require_hex-length digits v s h =
      let t = python.lower (strip (text_of python v)) in
      let (_, tested, done) =
        bind-returned (require (is_hex digits t) not_hex) (λ _. returned t) h in
      subst (λ x. str_length x ≡ digits) {x = t} (returned_inj done)
        (ground (arith, require-returned (is_hex digits t) not_hex tested))

  pub in_range-inside :
      (size : ℕ) (w : Whole) (index : ℕ) → in_range python size w ≡ returned index → index < size
  unfolding in_range
  in_range-inside size below_zero index h = absurd (raised-ne-returned h)
  in_range-inside size (natural k) index h =
      let (_, tested, done) =
        bind-returned (require (ltb k size) index_out_of_range) (λ _. returned k) h in
      subst (λ i. i < size) {x = k} (returned_inj done)
        (ground (arith, require-returned (ltb k size) index_out_of_range tested))

  module _ (sha : Sha256) (crypto : Crypto) where
    pub path_entries-AllDigests :
        (items : List Value) (audit_path : List Bytes)
        → path_entries python sha crypto items ≡ returned audit_path
        → AllDigests audit_path
    unfolding path_entries
    path_entries-AllDigests [] audit_path h = subst AllDigests (returned_inj h) tt
    path_entries-AllDigests (entry ∷ rest) audit_path h =
        let (digits, one, h1) = bind-returned (require_hex python 64 entry) _ h in
        let (others, more, h2) = bind-returned (path_entries python sha crypto rest) _ h1 in
        subst AllDigests (returned_inj h2) (
          length-from_hex 32 digits (require_hex-length 64 entry digits one),
          path_entries-AllDigests rest others more,
        )

    -- A reconstruction that passed: it used the path up, and its root stands in hex.
    pub root_of_path-returned :
        (r : Reconstruction) (audit_path : List Bytes) (s : String)
        → root_of_path python sha crypto r audit_path ≡ returned s
        → (root : Bytes) × (r ≡ root_of root (length audit_path)) × (hex root ≡ s)
    unfolding root_of_path
    root_of_path-returned (root_of root consumed) audit_path s h =
        let (_, tested, done) =
          bind-returned (require (consumed == length audit_path) too_long)
            (λ _. returned (hex root)) h in
        let used : consumed ≡ length audit_path =
          ground (arith, require-returned (consumed == length audit_path) too_long tested) in
        (root, ap (root_of root) used, returned_inj done)
    root_of_path-returned path_too_short audit_path s h = absurd (raised-ne-returned h)
    root_of_path-returned exhausted audit_path s h = absurd (raised-ne-returned h)
