-- ===== src/Policy/Serialize/Sections/Bindings.antt =====
-- A binding that was parsed is read back.
use paybond_kit_python.Prelude.{String, ◌<>◌, ◌≡◌, refl, ap, ◌∙◌}
use paybond_kit_python.Prelude.Dict.{Dict, lookup}
use paybond_kit_python.Prelude.Outcome.{returned, returned_inj, bind-returned}
use paybond_kit_python.Policy.Value.{Value, int, str, mapping, fields_of, entries-fields_of, get}
use paybond_kit_python.Policy.Schema.{Binding}
use paybond_kit_python.Policy.Serialize.{binding_payload}
use paybond_kit_python.Policy.Parse.Format.{is_identifier, is_head_digest}
use paybond_kit_python.Policy.Parse.Expect.{at, expect_mapping, reject_unknown}
use paybond_kit_python.Policy.Parse.Expect.Restores.{
  Restores, expect_int-Restores, expect_format-Restores, optional-emitted, payload_laws, IsKnown,
  reject_unknown-IsKnown, append-IsKnown, cons-IsKnown, field_of-IsKnown,
}
use paybond_kit_python.Policy.Parse.Intent.{
  binding_keys, parse_template_id, parse_version_seq, parse_head_digest, parse_policy_binding,
}

binding_payload-IsKnown : (b : Binding) → IsKnown binding_keys (binding_payload b)
unfolding binding_payload
binding_payload-IsKnown b = cons-IsKnown binding_keys "template_id" _ _ refl (
    append-IsKnown binding_keys _ _
      (field_of-IsKnown binding_keys "version_seq" int b.version_seq refl)
      (field_of-IsKnown binding_keys "head_digest" str b.head_digest refl))

abbrev pub binding_value : Binding → Value
binding_value b = mapping (fields_of (binding_payload b))

module _ (path : String) where
  restore_template :
      (v : Value) (binding : Dict Value) (b : Binding)
      → parse_template_id binding path v ≡ returned b.template_id
      → parse_template_id (binding_payload b) path (get "template_id" (binding_payload b))
        ≡ returned b.template_id
  unfolding parse_template_id binding_payload get lookup
  restore_template v binding b h =
      (expect_format-Restores (at (path <> ".template_id")) is_identifier).back v b.template_id h

  restore_version :
      (binding : Dict Value) (b : Binding)
      → parse_version_seq binding path ≡ returned b.version_seq
      → parse_version_seq (binding_payload b) path ≡ returned b.version_seq
  unfolding parse_version_seq binding_payload
  restore_version binding b h =
      optional-emitted "version_seq" binding (binding_payload b) _ int b.version_seq
        (expect_int-Restores (path <> ".version_seq") 1) h (simp payload_laws)

  restore_digest :
      (binding : Dict Value) (b : Binding)
      → parse_head_digest binding path ≡ returned b.head_digest
      → parse_head_digest (binding_payload b) path ≡ returned b.head_digest
  unfolding parse_head_digest binding_payload
  restore_digest binding b h =
      optional-emitted "head_digest" binding (binding_payload b) _ str b.head_digest
        (expect_format-Restores (at (path <> ".head_digest")) is_head_digest) h (simp payload_laws)

  pub parse_policy_binding-Restores : Restores (λ v. parse_policy_binding v path) binding_value
  unfolding parse_policy_binding expect_mapping
  parse_policy_binding-Restores = record { back = go }
    where
      go :
          (v : Value) (b : Binding)
          → parse_policy_binding v path ≡ returned b
          → parse_policy_binding (binding_value b) path ≡ returned b
      go v b h =
          let (d, _, h1) = bind-returned (expect_mapping v path) _ h in
          let (_, _, h2) = bind-returned (reject_unknown binding_keys d path) _ h1 in
          let (t, t_eq, h3) = bind-returned (parse_template_id d path (get "template_id" d)) _ h2 in
          let (n, n_eq, h4) = bind-returned (parse_version_seq d path) _ h3 in
          let (g, g_eq, h5) = bind-returned (parse_head_digest d path) _ h4 in
          let same = returned_inj h5 in
          simp (
            entries-fields_of (binding_payload b),
            reject_unknown-IsKnown binding_keys (binding_payload b) path
                (binding_payload-IsKnown b),
            restore_template (get "template_id" d) d b
                (t_eq ∙ ap (λ b. returned b.template_id) same),
            restore_version d b (n_eq ∙ ap (λ b. returned b.version_seq) same),
            restore_digest d b (g_eq ∙ ap (λ b. returned b.head_digest) same),
          )
