-- ===== src/Policy/Serialize/Sections/Names.antt =====
-- The allowed tools that were parsed are read back.
use paybond_kit_python.Prelude.{
  ℕ, ◌+◌, String, ◌<>◌, ◌≡◌, refl, sym, ◌∙◌, subst, false, not, Option, none, some, List, [], ◌∷◌,
  ◌++◌, str_eq, append-nil, append_assoc, contains, map,
}
use paybond_kit_python.Prelude.Dict.{lookup}
use paybond_kit_python.Prelude.Outcome.{returned, returned_inj, bind-returned}
use paybond_kit_python.Policy.Value.{Value, str, elements-items_of}
use paybond_kit_python.Policy.Serialize.{names_payload}
use paybond_kit_python.Policy.Parse.Format.{is_tool_name}
use paybond_kit_python.Policy.Parse.Expect.{item, check, expect_format}
use paybond_kit_python.Policy.Parse.Expect.Restores.{
  expect_format-Restores, IsKnown, nil-IsKnown, cons-IsKnown, check-returned,
}
use paybond_kit_python.Policy.Parse.Intent.{intent_keys, expect_list, parse_names, on_tools}

module _ (path : String) where
  -- The names that the loop over the allowed tools appends are read again.
  parse_names-back :
      (index : ℕ) (vs : List Value) (seen names : List String)
      → parse_names path index vs seen ≡ returned names
      → (new : List String) × (names ≡ seen ++ new)
        × (parse_names path index (map str new) seen ≡ returned names)
  unfolding parse_names
  parse_names-back index [] seen names h = ([], sym (append-nil seen ∙ returned_inj h), h)
  parse_names-back index (raw ∷ rest) seen names h =
      let (t, t_eq, h1) = bind-returned (expect_format is_tool_name raw (item path index)) _ h in
      let (_, fresh, h2) = bind-returned (check (not (contains t seen)) _ _) _ h1 in
      let (new, same, again) = parse_names-back (index + 1) rest (seen ++ t ∷ []) names h2 in
      (
        t ∷ new,
        same ∙ append_assoc seen (t ∷ []) new,
        simp (
          (expect_format-Restores (item path index) is_tool_name).back raw t t_eq,
          check-returned _ _ _ fresh,
          again,
        ),
      )

module _ (path : String) where
  -- Where the loop returned no name, or some, what is written of them is read as the same.
  pub restore_names :
      (names : List String)
      → parse_names (path <> ".allowed_tools") 0 (map str names) [] ≡ returned names
      → on_tools (path <> ".allowed_tools") (lookup "allowed_tools" (names_payload names))
        ≡ returned names
  unfolding names_payload on_tools expect_list lookup
  restore_names [] h = refl
  restore_names (name ∷ names) h =
      subst (λ vs. parse_names (path <> ".allowed_tools") 0 vs [] ≡ returned (name ∷ names))
        (sym (elements-items_of (map str (name ∷ names)))) h

  pub on_tools-back :
      (found : Option Value) (names : List String)
      → on_tools (path <> ".allowed_tools") found ≡ returned names
      → parse_names (path <> ".allowed_tools") 0 (map str names) [] ≡ returned names
  unfolding on_tools
  on_tools-back none names h =
      subst (λ names. parse_names (path <> ".allowed_tools") 0 (map str names) [] ≡ returned names)
        (returned_inj h) refl
  on_tools-back (some raw) names h =
      let (vs, _, h1) = bind-returned (expect_list raw (path <> ".allowed_tools")) _ h in
      let (new, same, again) = names_back vs names h1 in
      subst (λ n. parse_names (path <> ".allowed_tools") 0 (map str n) [] ≡ returned names)
        (sym same) again
    where
      names_back :
          (vs : List Value) (names : List String)
          → parse_names (path <> ".allowed_tools") 0 vs [] ≡ returned names
          → (new : List String) × (names ≡ new)
            × (parse_names (path <> ".allowed_tools") 0 (map str new) [] ≡ returned names)
      names_back vs names h = parse_names-back (path <> ".allowed_tools") 0 vs [] names h

pub lookup-names_payload :
    (k : String) (names : List String)
    → str_eq "allowed_tools" k ≡ false
    → lookup k (names_payload names) ≡ none
unfolding names_payload lookup
lookup-names_payload k [] h = refl
lookup-names_payload k (n ∷ ns) h = rw h refl

pub names_payload-IsKnown : (names : List String) → IsKnown intent_keys (names_payload names)
unfolding names_payload
names_payload-IsKnown [] = nil-IsKnown intent_keys
names_payload-IsKnown (n ∷ ns) =
    cons-IsKnown intent_keys "allowed_tools" _ [] refl (nil-IsKnown intent_keys)
