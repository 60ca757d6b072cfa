-- ===== src/Policy/Merge/Intent.antt =====
-- The merge of the intent section: the template binding, the budget and the allowed tools.
pub mod Laws
pub mod Budgets
pub mod Bindings
use paybond_kit_python.Prelude.{
  ℕ, String, Bool, true, false, not, ◌&&◌, ◌||◌, Option, none, some, List, [], ◌∷◌, ltb, ◌==◌,
  is_some, truthy, or_text, or_else, bind, null, contains, length, if◌then◌else◌, str_eq,
}
use paybond_kit_python.Prelude.Dict.{update}
use paybond_kit_python.Policy.Schema.{Binding, BindingOverride, Budget, Number, gt}
use paybond_kit_python.Policy.Merge.Report.{
  Merged, pure, deny, apply, ◌>>=◌, ◌>>◌, change_template, downgrade_version, change_head_digest,
  raise_budget_cap, widen_allowed_tools,
}

-- `x.field if x is not None else None`
abbrev pub template_of : Option Binding → Option String
template_of none = none
template_of (some b) = some b.template_id

abbrev pub override_template : Option BindingOverride → Option String
override_template o = bind o (λ b. b.template_id)

abbrev pub seq_of : Option Binding → Option ℕ
seq_of o = bind o (λ b. b.version_seq)

abbrev pub override_seq : Option BindingOverride → Option ℕ
override_seq o = bind o (λ b. b.version_seq)

abbrev pub digest_of : Option Binding → Option String
digest_of o = bind o (λ b. b.head_digest)

abbrev pub override_digest : Option BindingOverride → Option String
override_digest o = bind o (λ b. b.head_digest)

-- `base is not None and overlay_template and overlay_template != base.template_id`
check_template : Option Binding → Option String → Merged (Unit {0})
check_template (some b) (some t) =
    if not (str_eq t "") && not (str_eq t b.template_id)
    then deny (change_template t b.template_id) tt
    else pure tt
check_template _ _ = pure tt

-- The arguments are `base.version_seq`, the merged one and whether the override names one.
check_version : Option ℕ → Option ℕ → Bool → Merged (Unit {0})
check_version (some old) (some new) named =
    if ltb new old
    then deny (downgrade_version new old) tt
    else if named
    then apply "intent.policy_binding.version_seq" tt
    else pure tt
check_version _ _ named = pure tt

-- `head_digest is not None and base.head_digest and head_digest != base.head_digest`
changes_digest : Option String → Option String → Bool
changes_digest (some old) (some new) = not (str_eq old "") && not (str_eq new old)
changes_digest _ _ = false

check_digest : Option String → Option String → Bool → Merged (Unit {0})
unfolding changes_digest
check_digest old new named =
    if changes_digest old new
    then deny change_head_digest tt
    else if named
    then apply "intent.policy_binding.head_digest" tt
    else pure tt

-- The part of `_merge_policy_binding` behind `if not template_id`.
merge_binding_as :
    String → Option Binding → Option Binding → Option BindingOverride → Merged (Option Binding)
unfolding check_template check_version check_digest
merge_binding_as template base overlay override =
    let version = or_else (override_seq override) (or_else (seq_of overlay) (seq_of base)) in
    let digest =
      or_else (override_digest override) (or_else (digest_of overlay) (digest_of base)) in
    do
      check_template base (or_text (override_template override) (template_of overlay))
      check_version (seq_of base) version (is_some (override_seq override))
      check_digest (digest_of base) digest (is_some (override_digest override))
      pure (some (record { template_id = template; version_seq = version; head_digest = digest }))

-- Where all three sections are absent, there is no template either.
abbrev pub merged_template :
    Option Binding → Option Binding → Option BindingOverride → Option String
merged_template base overlay override =
    or_text (or_text (override_template override) (template_of overlay)) (template_of base)

abbrev bind_truthy : Option String → (String → Merged (Option Binding)) → Merged (Option Binding)
bind_truthy none f = pure none
bind_truthy (some t) f = if str_eq t "" then pure none else f t

unfoldable pub merge_policy_binding :
    Option Binding → Option Binding → Option BindingOverride → Merged (Option Binding)
unfolding merge_binding_as
merge_policy_binding base overlay override =
    bind_truthy (merged_template base overlay override)
      (λ template. merge_binding_as template base overlay override)

-- the truth value of a dictionary that may be `None`: it is not empty
abbrev pub is_filled : Option Budget → Bool
is_filled none = false
is_filled (some b) = is_some b.max_spend_usd || not (null b.others)

-- `if budget: merged.update(budget)`
abbrev pub update_budget : Budget → Option Budget → Budget
update_budget m none = m
update_budget m (some b) = record {
  max_spend_usd = or_else b.max_spend_usd m.max_spend_usd;
  others = update m.others b.others;
}

abbrev pub cap_of : Option Budget → Option Number
cap_of o = bind o (λ b. b.max_spend_usd)

-- `(override or overlay or {}).get("max_spend_usd")`
abbrev pub tenant_cap : Option Budget → Option Budget → Option Number
tenant_cap overlay override =
    if is_filled override
    then cap_of override
    else if is_filled overlay
    then cap_of overlay
    else none

note_cap : Option Number → Merged (Unit {0})
note_cap none = pure tt
note_cap (some _) = apply "intent.budget.max_spend_usd" tt

pub check_cap : Option Number → Option Number → Option Number → Merged (Unit {0})
unfolding note_cap
check_cap (some org) (some tenant) named =
    if gt tenant org then deny (raise_budget_cap tenant org) tt else note_cap named
check_cap _ _ named = note_cap named

abbrev pub empty_budget : Budget
empty_budget = record { max_spend_usd = none; others = [] }

unfoldable pub merge_budget : Option Budget → Option Budget → Option Budget → Merged (Option Budget)
unfolding check_cap
merge_budget base overlay override =
    let merged = update_budget (update_budget (update_budget empty_budget base) overlay) override in
    if is_filled (some merged)
    then (do
      check_cap (cap_of base) (tenant_cap overlay override) (cap_of override)
      pure (some merged))
    else pure none

-- `[tool for tool in tenant_allowed if tool not in org_set]`
outside : List String → List String → List String
outside org [] = []
outside org (t ∷ ts) = let rest = outside org ts in if contains t org then rest else t ∷ rest

-- `tuple(tool for tool in tenant_allowed if tool in org_set)`
inside : List String → List String → List String
inside org [] = []
inside org (t ∷ ts) = let rest = inside org ts in if contains t org then t ∷ rest else rest

check_widened : List String → Merged (Unit {0})
check_widened [] = pure tt
check_widened (t ∷ ts) = deny (widen_allowed_tools (t ∷ ts)) tt

note_narrowed : List String → List String → Merged (Unit {0})
note_narrowed tenant both =
    if length both == length tenant then pure tt else apply "intent.allowed_tools" tt

-- The two allowlists are not empty here.
pub intersect_filled : List String → List String → Merged (Option (List String))
unfolding outside inside check_widened note_narrowed
intersect_filled org tenant = do
  check_widened (outside org tenant)
  note_narrowed tenant (inside org tenant)
  pure (some (inside org tenant))

unfoldable pub intersect_allowed_tools :
    Option (List String) → Option (List String) → Merged (Option (List String))
unfolding intersect_filled
intersect_allowed_tools org (some (t ∷ ts)) = elim org [
  | some (o ∷ os) ↦ intersect_filled (o ∷ os) (t ∷ ts)
  | _ ↦ pure (some (t ∷ ts))
]
intersect_allowed_tools org _ = pure org
