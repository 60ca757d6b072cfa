-- ===== src/Policy/Serialize/Documents.antt =====
-- A document that was parsed and is written out is parsed as the same document.
use paybond_kit_python.Prelude.{
  String, ◌≡◌, refl, subst, Bool, true, false, Option, none, some, [], ◌∷◌, ◌++◌, is_some, str_eq,
}
use paybond_kit_python.Prelude.Dict.{Dict, lookup}
use paybond_kit_python.Prelude.Outcome.{returned, returned_inj, bind-returned}
use paybond_kit_python.Policy.Value.{
  Value, bool, int, str, mapping, fields_of, entries-fields_of, get,
}
use paybond_kit_python.Policy.Schema.{AdapterSection, DocumentV1}
use paybond_kit_python.Policy.Serialize.{
  field_of, tools_payload, adapter_payload, policy_document_to_dict,
}
use paybond_kit_python.Policy.Serialize.Tools.{
  IsRestoredTable, parse_tools_map-IsRestoredTable, parse-tools_value,
}
use paybond_kit_python.Policy.Serialize.Sections.{intent_value, parse_intent-Restores}
use paybond_kit_python.Policy.Parse.Format.{is_policy_name}
use paybond_kit_python.Policy.Parse.Expect.{
  at, check, nothing_set, expect_mapping, expect_bool, reject_unknown, optional, unknown_keys,
  on_found,
}
use paybond_kit_python.Policy.Parse.Expect.Restores.{
  Restores, expect_format-Restores, optional-emitted, emitted, payload_laws, IsKnown, nil-IsKnown,
  reject_unknown-IsKnown, append-IsKnown, cons-IsKnown, field_of-IsKnown, check-returned,
}
use paybond_kit_python.Policy.Parse.Tool.{parse_tools_map}
use paybond_kit_python.Policy.Parse.Intent.{parse_intent}
use paybond_kit_python.Policy.Parse.Document.{
  v1_keys, equals_int, parse_name, parse_adapter, parse_paybond_policy_document_v1,
}

abbrev adapter_value : AdapterSection → Value
adapter_value a =
    mapping
      (fields_of (field_of "deny_provider_executed_tools" bool a.deny_provider_executed_tools))

-- An adapter section that was parsed sets its flag, and is read back.
parse_adapter-sets :
    (v : Value) (path : String) (a : AdapterSection)
    → parse_adapter v path ≡ returned a
    → (is_some a.deny_provider_executed_tools ≡ true)
      × (parse_adapter (adapter_value a) path ≡ returned a)
unfolding parse_adapter expect_mapping reject_unknown optional lookup expect_bool unknown_keys
parse_adapter-sets v path a h =
    let (d, _, h1) = bind-returned (expect_mapping v path) _ h in
    let (_, _, h2) =
      bind-returned (reject_unknown ("deny_provider_executed_tools" ∷ []) d path) _ h1 in
    let (o, _, h3) = bind-returned (optional "deny_provider_executed_tools" d _) _ h2 in
    let (_, set, h4) = bind-returned (check (is_some o) (at path) nothing_set) _ h3 in
    subst
      (λ a.
        (is_some a.deny_provider_executed_tools ≡ true)
        × (parse_adapter (adapter_value a) path ≡ returned a))
      (returned_inj h4) (read o (check-returned (is_some o) (at path) nothing_set set))
  where
    read :
        (o : Option Bool)
        → is_some o ≡ true
        → (is_some o ≡ true)
          × (parse_adapter (adapter_value (record { deny_provider_executed_tools = o })) path
              ≡ returned (record { deny_provider_executed_tools = o }))
    read none s = cc
    read (some b) s = (refl, refl)

-- An optional adapter section is found again under its key.
lookup-adapter_payload :
    (d : Dict Value) (o : Option AdapterSection)
    → optional "adapter" d (λ v. parse_adapter v "adapter") ≡ returned o
    → lookup "adapter" (adapter_payload o) ≡ emitted adapter_value o
unfolding optional adapter_payload lookup
lookup-adapter_payload d o h = go (lookup "adapter" d) o h
  where
    found :
        (flag : Option Bool)
        → is_some flag ≡ true
        → lookup "adapter" (adapter_payload (some (record { deny_provider_executed_tools = flag })))
          ≡ some (adapter_value (record { deny_provider_executed_tools = flag }))
    found none s = cc
    found (some b) s = refl

    go :
        (f : Option Value) (o : Option AdapterSection)
        → on_found (λ v. parse_adapter v "adapter") f ≡ returned o
        → lookup "adapter" (adapter_payload o) ≡ emitted adapter_value o
    go none o h =
        subst (λ o. lookup "adapter" (adapter_payload o) ≡ emitted adapter_value o) (returned_inj h)
          refl
    go (some v) o h =
        let (a, read, made) = bind-returned (parse_adapter v "adapter") _ h in
        subst (λ o. lookup "adapter" (adapter_payload o) ≡ emitted adapter_value o)
          (returned_inj made)
          (found a.deny_provider_executed_tools (parse_adapter-sets v "adapter" a read).0)

-- The written form of a document, and what its parser finds in it.
abbrev doc_payload : DocumentV1 → Dict Value
doc_payload doc =
    ("version", int 1)
    ∷ ("name", str doc.name)
    ∷ ("default_deny", bool doc.default_deny)
    ∷ ("tools", mapping (fields_of (tools_payload doc.tools)))
    ∷ (field_of "intent" intent_value doc.intent ++ adapter_payload doc.adapter)

adapter_payload-IsKnown : (o : Option AdapterSection) → IsKnown v1_keys (adapter_payload o)
unfolding adapter_payload
adapter_payload-IsKnown none = nil-IsKnown v1_keys
adapter_payload-IsKnown (some a) =
    field_of-IsKnown v1_keys "adapter" _ a.deny_provider_executed_tools refl

doc_payload-IsKnown : (doc : DocumentV1) → IsKnown v1_keys (doc_payload doc)
doc_payload-IsKnown doc = cons-IsKnown v1_keys "version" _ _ refl (
    cons-IsKnown v1_keys "name" _ _ refl (
      cons-IsKnown v1_keys "default_deny" _ _ refl (
        cons-IsKnown v1_keys "tools" _ _ refl (
          append-IsKnown v1_keys _ _
            (field_of-IsKnown v1_keys "intent" intent_value doc.intent refl)
            (adapter_payload-IsKnown doc.adapter)))))

lookup-adapter_other :
    (k : String) (o : Option AdapterSection)
    → str_eq "adapter" k ≡ false
    → lookup k (adapter_payload o) ≡ none
unfolding adapter_payload lookup
lookup-adapter_other k none h = refl
lookup-adapter_other k (some a) h = simp (payload_laws, h)

parse_adapter-Restores : Restores (λ v. parse_adapter v "adapter") adapter_value
parse_adapter-Restores = record { back = λ v a h. (parse_adapter-sets v "adapter" a h).1 }

restore_intent :
    (d : Dict Value) (doc : DocumentV1)
    → optional "intent" d (λ v. parse_intent v "intent") ≡ returned doc.intent
    → optional "intent" (doc_payload doc) (λ v. parse_intent v "intent") ≡ returned doc.intent
restore_intent d doc h =
    optional-emitted "intent" d (doc_payload doc) _ intent_value doc.intent
      (parse_intent-Restores "intent") h
      (simp (payload_laws, lookup-adapter_other "intent" doc.adapter refl))

restore_adapter :
    (d : Dict Value) (doc : DocumentV1)
    → optional "adapter" d (λ v. parse_adapter v "adapter") ≡ returned doc.adapter
    → optional "adapter" (doc_payload doc) (λ v. parse_adapter v "adapter") ≡ returned doc.adapter
restore_adapter d doc h =
    optional-emitted "adapter" d (doc_payload doc) _ adapter_value doc.adapter
      parse_adapter-Restores h (simp (payload_laws) (lookup-adapter_payload d doc.adapter h))

restore_name :
    (d : Dict Value) (doc : DocumentV1)
    → parse_name d ≡ returned doc.name
    → parse_name (doc_payload doc) ≡ returned doc.name
unfolding parse_name get lookup
restore_name d doc h =
    (expect_format-Restores (at "name") is_policy_name).back (get "name" d) doc.name h

restore_flag :
    (doc : DocumentV1)
    → expect_bool (get "default_deny" (doc_payload doc)) "default_deny" ≡ returned doc.default_deny
unfolding get lookup expect_bool
restore_flag doc = refl

restore_version : (doc : DocumentV1) → equals_int (get "version" (doc_payload doc)) 1 ≡ true
unfolding get lookup
restore_version doc = refl

restore_tools :
    (doc : DocumentV1)
    → IsRestoredTable "tools" 1 doc.tools
    → parse_tools_map (get "tools" (doc_payload doc)) "tools" 1 ≡ returned doc.tools
unfolding get lookup
restore_tools doc t = parse-tools_value "tools" doc.tools t

-- The steps of a parse that returned `doc`.
pub record DocumentParts (doc : DocumentV1) : Type 0 where
  pub fields : Dict Value
  pub named : parse_name fields ≡ returned doc.name
  pub tools : parse_tools_map (get "tools" fields) "tools" 1 ≡ returned doc.tools
  pub intent : optional "intent" fields (λ v. parse_intent v "intent") ≡ returned doc.intent
  pub adapter : optional "adapter" fields (λ v. parse_adapter v "adapter") ≡ returned doc.adapter

pub parse_document_v1-Parts :
    (raw : Value) (doc : DocumentV1)
    → parse_paybond_policy_document_v1 raw ≡ returned doc
    → DocumentParts doc
unfolding parse_paybond_policy_document_v1
parse_document_v1-Parts raw doc h =
    let (d, _, h1) = bind-returned (expect_mapping raw "(root)") _ h in
    let (_, _, h2) = bind-returned (reject_unknown v1_keys d "(root)") _ h1 in
    let (_, _, h3) = bind-returned (check (equals_int (get "version" d) 1) _ _) _ h2 in
    let (n, n_eq, h4) = bind-returned (parse_name d) _ h3 in
    let (f, f_eq, h5) = bind-returned (expect_bool (get "default_deny" d) "default_deny") _ h4 in
    let (t, t_eq, h6) = bind-returned (parse_tools_map (get "tools" d) "tools" 1) _ h5 in
    let (i, i_eq, h7) = bind-returned (optional "intent" d (λ v. parse_intent v "intent")) _ h6 in
    let (a, a_eq, h8) =
      bind-returned (optional "adapter" d (λ v. parse_adapter v "adapter")) _ h7 in
    subst DocumentParts (returned_inj h8)
      (record { fields = d; named = n_eq; tools = t_eq; intent = i_eq; adapter = a_eq })

-- A document that was parsed is read back from what `policy_document_to_dict` writes of it.
pub parse-policy_document_to_dict :
    (raw : Value) (doc : DocumentV1)
    → parse_paybond_policy_document_v1 raw ≡ returned doc
    → parse_paybond_policy_document_v1 (policy_document_to_dict doc) ≡ returned doc
unfolding parse_paybond_policy_document_v1 policy_document_to_dict expect_mapping
parse-policy_document_to_dict raw doc h =
    let p = parse_document_v1-Parts raw doc h in
    simp (
      entries-fields_of (doc_payload doc),
      reject_unknown-IsKnown v1_keys (doc_payload doc) "(root)" (doc_payload-IsKnown doc),
      restore_version doc,
      restore_flag doc,
      restore_name p.fields doc p.named,
      restore_tools doc
          (parse_tools_map-IsRestoredTable (get "tools" p.fields) "tools" 1 doc.tools p.tools),
      restore_intent p.fields doc p.intent,
      restore_adapter p.fields doc p.adapter,
    )
