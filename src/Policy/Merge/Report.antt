-- ===== src/Policy/Merge/Report.antt =====
-- What a merge writes while it runs: the denied widenings and the overrides applied.
use paybond_kit_python.Prelude.{
  ℕ, String, ◌<>◌, ◌≡◌, Bool, true, false, if◌then◌else◌, List, [], ◌∷◌, ◌++◌, append-eq-nil_left,
  append-eq-nil_right,
}
use paybond_kit_python.Policy.Schema.{Number}

-- One constructor for each call of `_deny`, with what its message quotes.
pub data Denial : Type 0 where
  disable_side_effecting : String → Denial
  raise_spend_cap : String → ℕ → ℕ → Denial
  override_spend_mode : String → Denial
  missing_evidence_preset : String → Denial
  conflicting_spend_fields : String → Denial
  change_template : String → String → Denial
  downgrade_version : ℕ → ℕ → Denial
  change_head_digest : Denial
  raise_budget_cap : Number → Number → Denial
  widen_allowed_tools : List String → Denial
  relax_provider_deny : Denial
  unknown_org_tool : String → Denial
  replace_org_tool : String → Denial
  preset_not_approved : String → String → Denial

-- the entry's `path`
unfoldable pub path : Denial → String
path (disable_side_effecting t) = "tools." <> t <> ".side_effecting"
path (raise_spend_cap t _ _) = "tools." <> t <> ".max_spend_cents"
path (override_spend_mode t) = "tools." <> t <> ".spend_from_args"
path (missing_evidence_preset t) = "tools." <> t <> ".evidence_preset"
path (conflicting_spend_fields t) = "tools." <> t
path (change_template _ _) = "intent.policy_binding.template_id"
path (downgrade_version _ _) = "intent.policy_binding.version_seq"
path change_head_digest = "intent.policy_binding.head_digest"
path (raise_budget_cap _ _) = "intent.budget.max_spend_usd"
path (widen_allowed_tools _) = "intent.allowed_tools"
path relax_provider_deny = "adapter.deny_provider_executed_tools"
path (unknown_org_tool t) = "overrides.tools." <> t
path (replace_org_tool t) = "tools." <> t
path (preset_not_approved t _) = "tools." <> t <> ".evidence_preset"

-- the entry's `code`
unfoldable pub code : Denial → String
code (disable_side_effecting _) = "policy.cannot_disable_org_side_effecting_tool"
code (raise_spend_cap _ _ _) = "policy.cannot_raise_spend_cap"
code (override_spend_mode _) = "policy.cannot_override_org_spend_mode"
code (missing_evidence_preset _) = "policy.missing_evidence_preset"
code (conflicting_spend_fields _) = "policy.conflicting_spend_fields"
code (change_template _ _) = "policy.cannot_change_org_template"
code (downgrade_version _ _) = "policy.cannot_downgrade_template_version"
code change_head_digest = "policy.cannot_change_org_head_digest"
code (raise_budget_cap _ _) = "policy.cannot_raise_budget_cap"
code (widen_allowed_tools _) = "policy.cannot_widen_allowed_tools"
code relax_provider_deny = "policy.cannot_relax_provider_executed_deny"
code (unknown_org_tool _) = "policy.unknown_org_tool_override"
code (replace_org_tool _) = "policy.cannot_replace_org_tool"
code (preset_not_approved _ _) = "policy.evidence_preset_not_org_approved"

-- A result with what its call appended to `denied` and to `overrides_applied`.
pub record Merged (A : Type 0) : Type 0 where
  pub value : A
  pub denied : List Denial
  pub applied : List String

module _ {A : Type 0} where
  abbrev pub pure : A → Merged A
  pure a = record { value = a; denied = []; applied = [] }

  -- `_deny(denied, …)`, and the value as it stands
  abbrev pub deny : Denial → A → Merged A
  deny d a = record { value = a; denied = d ∷ []; applied = [] }

  -- `overrides_applied.append(…)`
  abbrev pub apply : String → A → Merged A
  apply s a = record { value = a; denied = []; applied = s ∷ [] }

infixl 5 ◌>>=◌ ◌>>◌
abbrev pub ◌>>=◌ : {A B : Type 0} → Merged A → (A → Merged B) → Merged B
m >>= f = record {
  value = (f m.value).value;
  denied = m.denied ++ (f m.value).denied;
  applied = m.applied ++ (f m.value).applied;
}

abbrev pub ◌>>◌ : {B : Type 0} → Merged (Unit {0}) → Merged B → Merged B
m >> k = m >>= λ _. k

-- No widening was denied.
abbrev pub IsClean : {A : Type 0} → Merged A → Type 0
IsClean m = m.denied ≡ []

-- A step that keeps `P` wherever it denies nothing.
pub record Keeps {A : Type 0} (P : A → Type 0) (f : A → Merged A) : Type 0 where
  pub at : (a : A) → P a → IsClean (f a) → P (f a).value

module _ {A B : Type 0} (m : Merged A) (f : A → Merged B) (h : IsClean (m >>= f)) where
  pub bind-IsClean_left : IsClean m
  bind-IsClean_left = append-eq-nil_left m.denied (f m.value).denied h

  pub bind-IsClean_right : IsClean (f m.value)
  bind-IsClean_right = append-eq-nil_right m.denied (f m.value).denied h

pub Keeps-bind :
    {A : Type 0} {P : A → Type 0} {f g : A → Merged A}
    → Keeps P f
    → Keeps P g
    → Keeps P (λ a. f a >>= g)
Keeps-bind {f} {g} kf kg = record {
  at = λ a p h.
      kg.at (f a).value (kf.at a p (bind-IsClean_left (f a) g h)) (bind-IsClean_right (f a) g h);
}

-- A step whose result satisfies `P` wherever it denies nothing.
pub record Ensures {A B : Type 0} (P : B → Type 0) (f : A → Merged B) : Type 0 where
  pub at : (a : A) → IsClean (f a) → P (f a).value

pub Ensures-bind :
    {A B C : Type 0} {P : C → Type 0} (f : A → Merged B) {g : B → Merged C}
    → Ensures P g
    → Ensures P (λ a. f a >>= g)
Ensures-bind f {g} e = record { at = λ a h. e.at (f a).value (bind-IsClean_right (f a) g h) }

-- Three checks and a result deny nothing: none of them does.
pub three-IsClean :
    {A : Type 0} (a b c : Merged (Unit {0})) (x : A)
    → IsClean (a >> (b >> (c >> pure x)))
    → IsClean a × IsClean b × IsClean c
three-IsClean a b c x h =
    let bc = bind-IsClean_right a (λ _. b >> (c >> pure x)) h in
    (
      bind-IsClean_left a (λ _. b >> (c >> pure x)) h,
      bind-IsClean_left b (λ _. c >> pure x) bc,
      bind-IsClean_left c (λ _. pure x) (bind-IsClean_right b (λ _. c >> pure x) bc),
    )

pub if_IsClean :
    {A : Type 0} (b : Bool) (c : Merged (Unit {0})) (x y : A)
    → b ≡ true
    → IsClean (if b then c >> pure x else pure y)
    → IsClean c
if_IsClean true c x y e h = bind-IsClean_left c (λ _. pure x) h
if_IsClean false c x y e h = cc
