-- ===== src/Policy/Serialize/Sections/Budgets.antt =====
-- A budget that was parsed is read back.
use paybond_kit_python.Prelude.{
  String, ◌<>◌, ◌≡◌, refl, ap, subst, Option, none, some, [], ◌∷◌, ◌++◌, arith, append-nil, eq_refl,
}
use paybond_kit_python.Prelude.Dict.{Dict, lookup, remove, lookup-remove}
use paybond_kit_python.Prelude.Outcome.{returned, returned_inj, bind-returned}
use paybond_kit_python.Policy.Value.{
  Value, Number, float, mapping, fields_of, entries-fields_of, get, or_null,
}
use paybond_kit_python.Policy.Schema.{Budget}
use paybond_kit_python.Policy.Serialize.{field_of, budget_payload}
use paybond_kit_python.Policy.Parse.Format.{is_currency}
use paybond_kit_python.Policy.Parse.Expect.{at, expect_mapping, expect_format, optional}
use paybond_kit_python.Policy.Parse.Expect.Restores.{Restores, optional-emitted, payload_laws}
use paybond_kit_python.Policy.Parse.Intent.{expect_number, parse_budget}

remove-append : (k : String) (a b : Dict Value) → remove k (a ++ b) ≡ remove k a ++ remove k b
unfolding remove
remove-append k [] b = refl
remove-append k ((j, v) ∷ a) b = ground (arith, remove-append k a b)

remove_absent : (k : String) (d : Dict Value) → remove k (remove k d) ≡ remove k d
unfolding remove
remove_absent k [] = refl
remove_absent k ((j, v) ∷ d) = ground (arith, remove_absent k d)

remove-field_of :
    {A : Type 0} (k : String) (emit : A → Value) (o : Option A) → remove k (field_of k emit o) ≡ []
unfolding remove
remove-field_of k emit none = refl
remove-field_of k emit (some a) = simp eq_refl

expect_number-Restores : (path : String) → Restores (λ v. expect_number v path) float
unfolding expect_number
expect_number-Restores path = record { back = λ v x h. refl }

abbrev pub budget_value : Budget → Value
budget_value b = mapping (fields_of (budget_payload b))

module _ (path : String) where
  -- What is written of the budget that was read from `d` with the cap `cap`.
  restore_currency :
      (d : Dict Value) (cap : Option Number)
      → get "currency"
          (budget_payload (record { max_spend_usd = cap; others = remove "max_spend_usd" d }))
        ≡ get "currency" d
  unfolding get budget_payload
  restore_currency d cap =
      let here : lookup "currency" (remove "max_spend_usd" d ++ field_of "max_spend_usd" float cap)
          ≡ lookup "currency" d =
        simp (payload_laws, lookup-remove) in
      ap or_null here

  restore_cap :
      (d : Dict Value) (cap : Option Number)
      → optional "max_spend_usd" d (λ v. expect_number v (path <> ".max_spend_usd")) ≡ returned cap
      → optional "max_spend_usd"
          (budget_payload (record { max_spend_usd = cap; others = remove "max_spend_usd" d }))
          (λ v. expect_number v (path <> ".max_spend_usd"))
        ≡ returned cap
  unfolding budget_payload
  restore_cap d cap h =
      optional-emitted "max_spend_usd" d _ _ float cap
        (expect_number-Restores (path <> ".max_spend_usd")) h (simp (payload_laws, lookup-remove))

  restore_others :
      (d : Dict Value) (cap : Option Number)
      → remove "max_spend_usd"
          (budget_payload (record { max_spend_usd = cap; others = remove "max_spend_usd" d }))
        ≡ remove "max_spend_usd" d
  unfolding budget_payload
  restore_others d cap = simp (remove-append, remove_absent, remove-field_of, append-nil)

  pub parse_budget-Restores : Restores (λ v. parse_budget v path) budget_value
  unfolding parse_budget expect_mapping
  parse_budget-Restores = record { back = go }
    where
      go :
          (v : Value) (b : Budget)
          → parse_budget v path ≡ returned b
          → parse_budget (budget_value b) path ≡ returned b
      go v b h =
          let (d, _, h1) = bind-returned (expect_mapping v path) _ h in
          let (c, c_eq, h2) =
            bind-returned (expect_format is_currency (get "currency" d) (at (path <> ".currency")))
              _ h1 in
          let (cap, cap_eq, h3) =
            bind-returned
              (optional "max_spend_usd" d (λ v. expect_number v (path <> ".max_spend_usd"))) _ h2 in
          let made : Budget = record { max_spend_usd = cap; others = remove "max_spend_usd" d } in
          subst (λ b. parse_budget (budget_value b) path ≡ returned b) (returned_inj h3)
            (simp (
              entries-fields_of (budget_payload made),
              restore_currency d cap,
              c_eq,
              restore_cap d cap cap_eq,
              restore_others d cap,
            ))
