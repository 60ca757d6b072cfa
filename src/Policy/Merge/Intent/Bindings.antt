-- ===== src/Policy/Merge/Intent/Bindings.antt =====
-- A merge without denials keeps the org's template, its version at least, and its pinned digest.
use mathlib.Core.Bool.{false≢true}
use paybond_kit_python.Prelude.{
  not, ℕ, ◌≤◌, String, ◌≡◌, refl, ◌≢◌, Bool, true, false, Option, none, some, arith, or_else,
  or_text, or_else_assoc, truthy, eq_iff, is_some, str_eq,
}
use paybond_kit_python.Policy.Schema.{Binding, BindingOverride}
use paybond_kit_python.Policy.Merge.Report.{IsClean, three-IsClean}
use paybond_kit_python.Policy.Merge.Intent.{
  merged_template, template_of, override_template, seq_of, override_seq, digest_of, override_digest,
  check_template, check_version, check_digest, merge_binding_as, merge_policy_binding, bind_truthy,
}

-- a version that is there does not go down
abbrev pub VersionKept : Option ℕ → Option ℕ → Type 0
VersionKept none merged = Unit
VersionKept (some old) none = ⊥
VersionKept (some old) (some new) = old ≤ new

-- a digest that is pinned stays
abbrev pub DigestKept : Option String → Option String → Type 0
DigestKept none merged = Unit
DigestKept (some old) merged = old ≢ "" → merged ≡ some old

pub record BindingKept (base merged : Binding) : Type 0 where
  pub template : merged.template_id ≡ base.template_id
  pub version : VersionKept base.version_seq merged.version_seq
  pub digest : DigestKept base.head_digest merged.head_digest

-- the org's binding stays, at its version or a later one
abbrev pub BindingHeld : Binding → Option Binding → Type 0
BindingHeld base none = ⊥
BindingHeld base (some merged) = BindingKept base merged

check_template_lem :
    (base : Binding) (tenant : Option String) {t : String}
    → IsClean (check_template (some base) tenant)
    → or_text tenant (some base.template_id) ≡ some t
    → t ≡ base.template_id
unfolding check_template
check_template_lem base none h e = cc
check_template_lem base (some s) h e = ground (arith, eq_iff s base.template_id)

check_version_lem :
    (old tenant : Option ℕ) (named : Bool)
    → IsClean (check_version old (or_else tenant old) named)
    → VersionKept old (or_else tenant old)
unfolding check_version
check_version_lem none tenant named h = tt
check_version_lem (some v) none named h = omega arith
check_version_lem (some v) (some w) named h = ground arith

check_digest_lem :
    (old tenant : Option String) (named : Bool)
    → IsClean (check_digest old (or_else tenant old) named)
    → DigestKept old (or_else tenant old)
unfolding check_digest
check_digest_lem none tenant named h = tt
check_digest_lem (some d) none named h = λ _. refl
check_digest_lem (some d) (some e) named h = λ p. ground (arith, eq_iff d "", eq_iff e d)

-- The checks of `merge_binding_as`, at the values that it stores.
merge_binding_as-BindingHeld :
    (template : String) (base : Binding) (overlay : Option Binding)
    (override : Option BindingOverride)
    → merged_template (some base) overlay override ≡ some template
    → IsClean (merge_binding_as template (some base) overlay override)
    → BindingHeld base (merge_binding_as template (some base) overlay override).value
unfolding merge_binding_as
merge_binding_as-BindingHeld template base overlay override e h =
    let version = or_else (override_seq override) (or_else (seq_of overlay) base.version_seq) in
    let digest =
      or_else (override_digest override) (or_else (digest_of overlay) base.head_digest) in
    let clean =
      three-IsClean {A = Option Binding}
        (check_template (some base) (or_text (override_template override) (template_of overlay)))
        (check_version base.version_seq version (is_some (override_seq override)))
        (check_digest base.head_digest digest (is_some (override_digest override)))
        (some (record { template_id = template; version_seq = version; head_digest = digest })) h in
    record {
      template =
          check_template_lem base (or_text (override_template override) (template_of overlay))
            clean.0 e;
      version = version_lem (override_seq override) (seq_of overlay) base.version_seq clean.1;
      digest = digest_lem (override_digest override) (digest_of overlay) base.head_digest clean.2;
    }
  where
    version_lem :
        (a b c : Option ℕ)
        → IsClean (check_version c (or_else a (or_else b c)) (is_some a))
        → VersionKept c (or_else a (or_else b c))
    version_lem a b c h =
        rw or_else_assoc (check_version_lem c (or_else a b) (is_some a) (rw or_else_assoc at h))

    digest_lem :
        (a b c : Option String)
        → IsClean (check_digest c (or_else a (or_else b c)) (is_some a))
        → DigestKept c (or_else a (or_else b c))
    digest_lem a b c h =
        rw or_else_assoc (check_digest_lem c (or_else a b) (is_some a) (rw or_else_assoc at h))

not-true : (b : Bool) → not b ≡ true → b ≡ false
not-true b h = ground arith

or_text-truthy : (a : Option String) (t : String) → (t ≢ "") → truthy (or_text a (some t)) ≡ true
or_text-truthy none t h = ground (arith, eq_iff t "")
or_text-truthy (some a) t h = ground (arith, eq_iff t "", eq_iff a "")

-- Where the org pins a template and nothing is denied, the effective binding has that template, no
-- older version and the digest that the org pinned.
pub merge_policy_binding-BindingHeld :
    (base : Binding) (overlay : Option Binding) (override : Option BindingOverride)
    → base.template_id ≢ ""
    → IsClean (merge_policy_binding (some base) overlay override)
    → BindingHeld base (merge_policy_binding (some base) overlay override).value
unfolding merge_policy_binding
merge_policy_binding-BindingHeld base overlay override named =
    go (merged_template (some base) overlay override) refl
  where
    full : truthy (merged_template (some base) overlay override) ≡ true
    full =
        or_text-truthy (or_text (override_template override) (template_of overlay)) base.template_id
          named

    go :
        (o : Option String)
        → merged_template (some base) overlay override ≡ o
        → IsClean (bind_truthy o (λ t. merge_binding_as t (some base) overlay override))
        → BindingHeld base
            (bind_truthy o (λ t. merge_binding_as t (some base) overlay override)).value
    go none e h = absurd (false≢true (rw e at full))
    go (some t) e h =
        rw not_empty (merge_binding_as-BindingHeld t base overlay override e (rw not_empty at h))
      where
        not_empty : str_eq t "" ≡ false
        not_empty = not-true (str_eq t "") (rw e at full)

VersionKept-refl : (o : Option ℕ) → VersionKept o o
VersionKept-refl none = tt
VersionKept-refl (some v) = omega arith

DigestKept-refl : (o : Option String) → DigestKept o o
DigestKept-refl none = tt
DigestKept-refl (some d) = λ _. refl

-- The binding of the org, if it has one that names a template.
abbrev pub HeldIfBound : Option Binding → Option Binding → Type 0
HeldIfBound none merged = Unit
HeldIfBound (some b) merged = b.template_id ≢ "" → BindingHeld b merged

pub HeldIfBound-refl : (o : Option Binding) → HeldIfBound o o
HeldIfBound-refl none = tt
HeldIfBound-refl (some b) = λ _. record {
  template = refl;
  version = VersionKept-refl b.version_seq;
  digest = DigestKept-refl b.head_digest;
}

pub merge_policy_binding-HeldIfBound :
    (base overlay : Option Binding) (override : Option BindingOverride)
    → IsClean (merge_policy_binding base overlay override)
    → HeldIfBound base (merge_policy_binding base overlay override).value
merge_policy_binding-HeldIfBound none overlay override h = tt
merge_policy_binding-HeldIfBound (some b) overlay override h =
    λ named. merge_policy_binding-BindingHeld b overlay override named h
