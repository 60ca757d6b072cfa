-- ===== src/Policy/Serialize/Sections.antt =====
-- The intent section that was parsed is read back as it was written.
pub mod Bindings
pub mod Budgets
pub mod Names
use paybond_kit_python.Prelude.{
  ℕ, ◌+◌, String, ◌<>◌, ◌≡◌, refl, sym, ap, ◌∙◌, subst, false, not, Option, none, some, List, [],
  ◌∷◌, ◌++◌, arith, str_eq, append-nil, append_assoc, contains, map, eq_refl,
}
use paybond_kit_python.Prelude.Dict.{Dict, lookup, remove, lookup-remove}
use paybond_kit_python.Prelude.Outcome.{returned, returned_inj, bind-returned}
use paybond_kit_python.Policy.Value.{
  Value, Number, int, float, str, mapping, fields_of, entries-fields_of, elements-items_of, get,
  or_null,
}
use paybond_kit_python.Policy.Schema.{Binding, Budget, IntentSection}
use paybond_kit_python.Policy.Serialize.{
  field_of, binding_payload, budget_payload, names_payload, intent_payload,
}
use paybond_kit_python.Policy.Parse.Format.{
  is_identifier, is_head_digest, is_currency, is_tool_name,
}
use paybond_kit_python.Policy.Parse.Expect.{
  at, item, check, expect_mapping, expect_format, reject_unknown, optional,
}
use paybond_kit_python.Policy.Parse.Expect.Restores.{
  Restores, expect_int-Restores, expect_format-Restores, optional-emitted, emitted, payload_laws,
  IsKnown, nil-IsKnown, reject_unknown-IsKnown, append-IsKnown, cons-IsKnown, field_of-IsKnown,
  check-returned,
}
use paybond_kit_python.Policy.Parse.Intent.{
  binding_keys, intent_keys, parse_template_id, parse_version_seq, parse_head_digest,
  parse_policy_binding, expect_number, parse_budget, expect_list, parse_names, on_tools,
  parse_allowed_tools, parse_intent,
}
use paybond_kit_python.Policy.Serialize.Sections.Bindings.{
  binding_value, parse_policy_binding-Restores,
}
use paybond_kit_python.Policy.Serialize.Sections.Budgets.{budget_value, parse_budget-Restores}
use paybond_kit_python.Policy.Serialize.Sections.Names.{
  lookup-names_payload, names_payload-IsKnown, on_tools-back, restore_names,
}

intent_payload-IsKnown : (i : IntentSection) → IsKnown intent_keys (intent_payload i)
unfolding intent_payload
intent_payload-IsKnown i =
    append-IsKnown intent_keys _ _
      (field_of-IsKnown intent_keys "policy_binding" binding_value i.policy_binding refl)
      (append-IsKnown intent_keys _ _
        (field_of-IsKnown intent_keys "budget" budget_value i.budget refl)
        (names_payload-IsKnown i.allowed_tools))

abbrev pub intent_value : IntentSection → Value
intent_value i = mapping (fields_of (intent_payload i))

module _ (path : String) where
  restore_binding :
      (d : Dict Value) (i : IntentSection)
      → optional "policy_binding" d (λ v. parse_policy_binding v (path <> ".policy_binding"))
        ≡ returned i.policy_binding
      → optional "policy_binding"
          (intent_payload i)
          (λ v. parse_policy_binding v (path <> ".policy_binding"))
        ≡ returned i.policy_binding
  unfolding intent_payload
  restore_binding d i h =
      optional-emitted "policy_binding" d _ _ binding_value i.policy_binding
        (parse_policy_binding-Restores (path <> ".policy_binding")) h
        (lookup_binding i.allowed_tools)
    where
      lookup_binding :
          (names : List String)
          → lookup "policy_binding" (
              field_of "policy_binding" binding_value i.policy_binding
              ++ (field_of "budget" budget_value i.budget ++ names_payload names))
            ≡ emitted binding_value i.policy_binding
      lookup_binding names = simp (payload_laws, lookup-names_payload "policy_binding" names refl)

  restore_budget :
      (d : Dict Value) (i : IntentSection)
      → optional "budget" d (λ v. parse_budget v (path <> ".budget")) ≡ returned i.budget
      → optional "budget" (intent_payload i) (λ v. parse_budget v (path <> ".budget"))
        ≡ returned i.budget
  unfolding intent_payload
  restore_budget d i h =
      optional-emitted "budget" d _ _ budget_value i.budget
        (parse_budget-Restores (path <> ".budget")) h
        (simp (payload_laws, lookup-names_payload "budget" i.allowed_tools refl))

  restore_tools :
      (d : Dict Value) (i : IntentSection)
      → parse_allowed_tools d path ≡ returned i.allowed_tools
      → parse_allowed_tools (intent_payload i) path ≡ returned i.allowed_tools
  unfolding parse_allowed_tools intent_payload
  restore_tools d i h =
      let here : lookup "allowed_tools" (intent_payload i)
          ≡ lookup "allowed_tools" (names_payload i.allowed_tools) =
        simp payload_laws in
      rw here (
        restore_names path i.allowed_tools
          (on_tools-back path (lookup "allowed_tools" d) i.allowed_tools h))

  pub parse_intent-Restores : Restores (λ v. parse_intent v path) intent_value
  unfolding parse_intent expect_mapping
  parse_intent-Restores = record { back = go }
    where
      go :
          (v : Value) (i : IntentSection)
          → parse_intent v path ≡ returned i
          → parse_intent (intent_value i) path ≡ returned i
      go v i h =
          let (d, _, h1) = bind-returned (expect_mapping v path) _ h in
          let (_, _, h2) = bind-returned (reject_unknown intent_keys d path) _ h1 in
          let (b, b_eq, h3) =
            bind-returned
              (optional "policy_binding" d
                (λ v. parse_policy_binding v (path <> ".policy_binding")))
              _ h2 in
          let (m, m_eq, h4) =
            bind-returned (optional "budget" d (λ v. parse_budget v (path <> ".budget"))) _ h3 in
          let (n, n_eq, h5) = bind-returned (parse_allowed_tools d path) _ h4 in
          let same = returned_inj h5 in
          simp (
            entries-fields_of (intent_payload i),
            reject_unknown-IsKnown intent_keys (intent_payload i) path (intent_payload-IsKnown i),
            restore_binding d i (b_eq ∙ ap (λ i. returned i.policy_binding) same),
            restore_budget d i (m_eq ∙ ap (λ i. returned i.budget) same),
            restore_tools d i (n_eq ∙ ap (λ i. returned i.allowed_tools) same),
          )
