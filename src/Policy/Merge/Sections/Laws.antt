-- ===== src/Policy/Merge/Sections/Laws.antt =====
-- The effective intent section holds the org's allowlist, template and cap.
use paybond_kit_python.Prelude.{
  String, ◌≡◌, Bool, true, false, Option, none, some, List, [], ◌∷◌, bind, ◌||◌, is_some,
  append-eq-nil_left, append-eq-nil_right, or_else, ◌≢◌,
}
use paybond_kit_python.Policy.Schema.{Binding, Budget, IntentSection, IntentOverride, Number, nan}
use paybond_kit_python.Policy.Merge.Report.{Merged, IsClean}
use paybond_kit_python.Policy.Merge.Intent.{
  merge_policy_binding, merge_budget, intersect_allowed_tools, tenant_cap, cap_of,
}
use paybond_kit_python.Policy.Merge.Intent.Budgets.{
  IsNumeric, CappedBy, AtMost-refl, merge_budget-CappedBy,
}
use paybond_kit_python.Policy.Merge.Intent.Laws.{
  Narrows, Narrows-refl, intersect_allowed_tools-Narrows,
}
use paybond_kit_python.Policy.Merge.Intent.Bindings.{
  HeldIfBound, HeldIfBound-refl, merge_policy_binding-HeldIfBound,
}
use paybond_kit_python.Policy.Merge.Sections.{
  tenant_allowed, keep_filled, intent_from, inherit_intent, binding_of, budget_of,
  sections_or_inherit, merge_intent,
}

pub record IntentKept (org merged : IntentSection) : Type 0 where
  pub allowed : Narrows (some org.allowed_tools) (some merged.allowed_tools)
  pub bound : HeldIfBound org.policy_binding merged.policy_binding

-- The org's section stays.
abbrev pub IntentHeld : IntentSection → Option IntentSection → Type 0
IntentHeld org none = ⊥
IntentHeld org (some merged) = IntentKept org merged

IntentKept-refl : (org : IntentSection) → IntentKept org org
IntentKept-refl org = record {
  allowed = Narrows-refl org.allowed_tools;
  bound = HeldIfBound-refl org.policy_binding;
}

Narrows-filled :
    (org ts : List String)
    → Narrows (some org) (some ts)
    → Narrows (some org) (keep_filled (some ts))
Narrows-filled [] ts h = tt
Narrows-filled (o ∷ os) [] h = cc h.0
Narrows-filled (o ∷ os) (t ∷ ts) h = h

Narrows-none : (org : List String) → Narrows (some org) none → Narrows (some org) (some [])
Narrows-none [] h = tt
Narrows-none (o ∷ os) h = absurd h

intent_from-IntentHeld :
    (org : IntentSection) (binding : Option Binding) (budget : Option Budget)
    (allowed : Option (List String))
    → Narrows (some org.allowed_tools) allowed
    → HeldIfBound org.policy_binding binding
    → IntentHeld org (intent_from binding budget allowed (some org))
unfolding intent_from
intent_from-IntentHeld org none none none n b = IntentKept-refl org
intent_from-IntentHeld org none (some c) none n b = record {
  allowed = Narrows-none org.allowed_tools n;
  bound = b;
}
intent_from-IntentHeld org (some t) none none n b = record {
  allowed = Narrows-none org.allowed_tools n;
  bound = b;
}
intent_from-IntentHeld org (some t) (some c) none n b = record {
  allowed = Narrows-none org.allowed_tools n;
  bound = b;
}
intent_from-IntentHeld org none none (some ts) n b = record { allowed = n; bound = b }
intent_from-IntentHeld org none (some c) (some ts) n b = record { allowed = n; bound = b }
intent_from-IntentHeld org (some t) none (some ts) n b = record { allowed = n; bound = b }
intent_from-IntentHeld org (some t) (some c) (some ts) n b = record { allowed = n; bound = b }

inherit_intent-IntentHeld :
    (org : IntentSection) (allowed : Option (List String))
    → Narrows (some org.allowed_tools) allowed
    → IntentHeld org (inherit_intent (some org) allowed)
unfolding inherit_intent
inherit_intent-IntentHeld org none n = IntentKept-refl org
inherit_intent-IntentHeld org (some ts) n = record {
  allowed = n;
  bound = HeldIfBound-refl org.policy_binding;
}

Narrows-keep_filled :
    (org : List String) (allowed : Option (List String))
    → Narrows (some org) allowed
    → Narrows (some org) (keep_filled allowed)
Narrows-keep_filled org none n = n
Narrows-keep_filled org (some ts) n = Narrows-filled org ts n

sections_or_inherit-IntentHeld :
    (given : Bool) (org : IntentSection) (overlay : Option IntentSection)
    (override : Option IntentOverride) (allowed : Option (List String))
    → Narrows (some org.allowed_tools) allowed
    → IsClean (sections_or_inherit given (some org) overlay override allowed)
    → IntentHeld org (sections_or_inherit given (some org) overlay override allowed).value
unfolding sections_or_inherit
sections_or_inherit-IntentHeld false org overlay override allowed n h =
    inherit_intent-IntentHeld org allowed n
sections_or_inherit-IntentHeld true org overlay override allowed n h =
    intent_from-IntentHeld org binding.value _ (keep_filled allowed)
      (Narrows-keep_filled org.allowed_tools allowed n)
      (merge_policy_binding-HeldIfBound org.policy_binding (binding_of overlay)
        (bind override (λ i. i.policy_binding)) (append-eq-nil_left binding.denied _ h))
  where
    binding : Merged (Option Binding)
    binding =
        merge_policy_binding org.policy_binding (binding_of overlay)
          (bind override (λ i. i.policy_binding))

-- Without denials the effective section holds the org's allowlist and binding.
pub merge_intent-IntentHeld :
    (org : IntentSection) (overlay : Option IntentSection) (override : Option IntentOverride)
    → IsClean (merge_intent (some org) overlay override)
    → IntentHeld org (merge_intent (some org) overlay override).value
unfolding merge_intent
merge_intent-IntentHeld org overlay override h =
    sections_or_inherit-IntentHeld (is_some overlay || is_some override) org overlay override
      allowed.value
      (intersect_allowed_tools-Narrows (some org.allowed_tools) (tenant_allowed overlay override)
        (append-eq-nil_left allowed.denied _ h))
      (append-eq-nil_right allowed.denied _ h)
  where
    allowed : Merged (Option (List String))
    allowed = intersect_allowed_tools (some org.allowed_tools) (tenant_allowed overlay override)

-- the cap of the tenant, as the merge checks it and as the merged budget takes it
abbrev pub override_budget : Option IntentOverride → Option Budget
override_budget o = bind o (λ i. i.budget)

abbrev pub IsVisible : Option IntentSection → Option IntentOverride → Type 0
IsVisible overlay override =
    IsNumeric (tenant_cap (budget_of overlay) (override_budget override))
    × (tenant_cap (budget_of overlay) (override_budget override)
        ≡ or_else (cap_of (override_budget override)) (cap_of (budget_of overlay)))

abbrev pub SectionCapped : Number → Option IntentSection → Type 0
SectionCapped cap o = CappedBy cap (cap_of (budget_of o))

intent_from-SectionCapped :
    (cap : Number) (binding : Option Binding) (budget : Option Budget)
    (allowed : Option (List String)) (base : Option IntentSection)
    → CappedBy cap (cap_of budget)
    → SectionCapped cap (intent_from binding budget allowed base)
unfolding intent_from
intent_from-SectionCapped cap binding none allowed base h = absurd h
intent_from-SectionCapped cap none (some b) none base h = h
intent_from-SectionCapped cap none (some b) (some ts) base h = h
intent_from-SectionCapped cap (some t) (some b) none base h = h
intent_from-SectionCapped cap (some t) (some b) (some ts) base h = h

module _ (cap : Number) (org : IntentSection) (budget : Budget)
    (has_budget : org.budget ≡ some budget) (has_cap : budget.max_spend_usd ≡ some cap)
    (numeric : cap ≢ nan) where
  inherit_intent-SectionCapped :
      (allowed : Option (List String)) → SectionCapped cap (inherit_intent (some org) allowed)
  unfolding inherit_intent
  inherit_intent-SectionCapped none = rw (has_budget, has_cap) (AtMost-refl cap numeric)
  inherit_intent-SectionCapped (some ts) = rw (has_budget, has_cap) (AtMost-refl cap numeric)

  sections_or_inherit-SectionCapped :
      (given : Bool) (overlay : Option IntentSection) (override : Option IntentOverride)
      (allowed : Option (List String))
      → IsVisible overlay override
      → IsClean (sections_or_inherit given (some org) overlay override allowed)
      → SectionCapped cap (sections_or_inherit given (some org) overlay override allowed).value
  unfolding sections_or_inherit
  sections_or_inherit-SectionCapped false overlay override allowed v h =
      inherit_intent-SectionCapped allowed
  sections_or_inherit-SectionCapped true overlay override allowed v h =
      intent_from-SectionCapped cap binding.value _ (keep_filled allowed) (some org) (
        rw has_budget (
          merge_budget-CappedBy cap budget (budget_of overlay) (override_budget override) has_cap
            numeric v.0 v.1
            (rw has_budget at (
              append-eq-nil_left
                (merge_budget org.budget (budget_of overlay) (override_budget override)).denied _
                (append-eq-nil_right binding.denied _ h)))))
    where
      binding : Merged (Option Binding)
      binding =
          merge_policy_binding org.policy_binding (binding_of overlay)
            (bind override (λ i. i.policy_binding))

  -- Where the org caps the budget and the tenant's cap is visible, the effective cap is at most the
  -- org's.
  pub merge_intent-SectionCapped :
      (overlay : Option IntentSection) (override : Option IntentOverride)
      → IsVisible overlay override
      → IsClean (merge_intent (some org) overlay override)
      → SectionCapped cap (merge_intent (some org) overlay override).value
  unfolding merge_intent
  merge_intent-SectionCapped overlay override v h =
      sections_or_inherit-SectionCapped (is_some overlay || is_some override) overlay override
        (intersect_allowed_tools (some org.allowed_tools) (tenant_allowed overlay override)).value v
        (append-eq-nil_right
          (intersect_allowed_tools (some org.allowed_tools)
            (tenant_allowed overlay override)).denied
          _ h)
