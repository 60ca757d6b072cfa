-- ===== src/Policy/Merge/Sections.antt =====
-- The part of `merge_paybond_policies` that builds the effective intent section.
pub mod Laws
use mathlib.Core.Option
use paybond_kit_python.Prelude.{
  String, Bool, true, false, ◌||◌, Option, none, some, List, [], ◌∷◌, is_some, bind, null,
  if◌then◌else◌,
}
use paybond_kit_python.Policy.Schema.{Binding, Budget, IntentSection, IntentOverride}
use paybond_kit_python.Policy.Merge.Report.{Merged, pure, ◌>>=◌}
use paybond_kit_python.Policy.Merge.Intent.{
  merge_policy_binding, merge_budget, intersect_allowed_tools,
}

abbrev pub filled : List String → Option (List String)
filled [] = none
filled (t ∷ ts) = some (t ∷ ts)

abbrev allowed_of : Option IntentSection → List String
allowed_of none = []
allowed_of (some i) = i.allowed_tools

abbrev override_allowed : Option IntentOverride → List String
override_allowed none = []
override_allowed (some i) = i.allowed_tools

-- the tenant's allowlist: that of the overrides if it is not empty, or else the overlay's
abbrev pub tenant_allowed : Option IntentSection → Option IntentOverride → Option (List String)
tenant_allowed overlay override =
    if null (override_allowed override)
    then filled (allowed_of overlay)
    else filled (override_allowed override)

abbrev or_empty : Option (List String) → List String
or_empty none = []
or_empty (some ts) = ts

-- `PaybondPolicyIntentSection(**intent_kwargs)`, or the base's section where no argument is set
intent_from :
    Option Binding
    → Option Budget
    → Option (List String)
    → Option IntentSection
    → Option IntentSection
intent_from none none none base = base
intent_from binding budget allowed base =
    some (record { policy_binding = binding; budget = budget; allowed_tools = or_empty allowed })

-- `if merged_allowed:`
abbrev keep_filled : Option (List String) → Option (List String)
keep_filled none = none
keep_filled (some ts) = filled ts

-- The intent section where neither the overlay nor its overrides have one.
inherit_intent : Option IntentSection → Option (List String) → Option IntentSection
inherit_intent none merged_allowed = none
inherit_intent (some i) none = some i
inherit_intent (some i) (some ts) = some (record i { allowed_tools = ts })

abbrev pub binding_of : Option IntentSection → Option Binding
binding_of o = bind o (λ i. i.policy_binding)

abbrev pub budget_of : Option IntentSection → Option Budget
budget_of o = bind o (λ i. i.budget)

merge_sections :
    Option IntentSection
    → Option IntentSection
    → Option IntentOverride
    → Option (List String)
    → Merged (Option IntentSection)
unfolding intent_from merge_policy_binding merge_budget
merge_sections base overlay override allowed = do
  binding ←
      merge_policy_binding (binding_of base) (binding_of overlay)
        (bind override (λ i. i.policy_binding))
  budget ← merge_budget (budget_of base) (budget_of overlay) (bind override (λ i. i.budget))
  pure (intent_from binding budget (keep_filled allowed) base)

sections_or_inherit :
    Bool
    → Option IntentSection
    → Option IntentSection
    → Option IntentOverride
    → Option (List String)
    → Merged (Option IntentSection)
unfolding merge_sections inherit_intent
sections_or_inherit true base overlay override allowed =
    merge_sections base overlay override allowed
sections_or_inherit false base overlay override allowed = pure (inherit_intent base allowed)

-- From the allowlists to the effective intent section.
unfoldable pub merge_intent :
    Option IntentSection
    → Option IntentSection
    → Option IntentOverride
    → Merged (Option IntentSection)
unfolding sections_or_inherit intersect_allowed_tools
merge_intent base overlay override = do
  allowed ←
      intersect_allowed_tools (Option.map (λ i. i.allowed_tools) base)
        (tenant_allowed overlay override)
  sections_or_inherit (is_some overlay || is_some override) base overlay override allowed
