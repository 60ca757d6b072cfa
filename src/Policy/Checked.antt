-- ===== src/Policy/Checked.antt =====
-- What the parsers promise to the merge, and what a merge of parsed documents gives.
pub mod NotANumber
mod Tests
use paybond_kit_python.Prelude.{
  ℕ, String, ◌≡◌, refl, sym, ap, ◌∙◌, subst, Bool, true, false, Option, none, some, List, [], ◌∷◌,
  arith, is_some, if◌then◌else◌, Bool-cases, inl, inr, ◌⊎◌, contains, not, ◌<◌, length, ◌+◌,
}
use paybond_kit_python.Prelude.Dict.{Dict, lookup, Unique}
use paybond_kit_python.Prelude.Outcome.{
  Outcome, raised, returned, ◌>>=◌, returned_inj, raised-ne-returned, bind-returned,
}
use paybond_kit_python.Policy.Value.{Value, get}
use paybond_kit_python.Policy.Schema.{ToolEntry, DocumentV1, DocumentV2, Document, v1, v2}
use paybond_kit_python.Policy.Merge.Tools.Loops.{
  EntriesWellFormed, AllWellFormed, AllWellFormed-of_entries,
}
use paybond_kit_python.Policy.Merge.Engine.{base_tools, MergeResult, ok, merge_paybond_policies}
use paybond_kit_python.Policy.Merge.Engine.Laws.{merge-AllWellFormed}
use paybond_kit_python.Policy.Parse.Expect.{
  check, expect_mapping, expect_bool, reject_unknown, optional,
}
use paybond_kit_python.Policy.Parse.Tool.{parse_tools_map}
use paybond_kit_python.Policy.Parse.Tool.Laws.{
  AllEntries, AllEntries-map, AllEntries-EntriesWellFormed,
}
use paybond_kit_python.Policy.Parse.Document.{
  v2_keys, equals_int, parse_name, parse_extends, parse_overrides, parse_paybond_policy_document_v1,
  parse_paybond_policy_document_v2, parse_paybond_policy_document,
}
use paybond_kit_python.Policy.Parse.Intent.{parse_intent}
use paybond_kit_python.Policy.Parse.Document.{parse_adapter}
use paybond_kit_python.Policy.Serialize.Tools.{
  IsRestored, IsRestoredTable, parse_tools_map-IsRestoredTable,
}
use paybond_kit_python.Policy.Serialize.Documents.{parse_document_v1-Parts}

table-EntriesWellFormed :
    (path : String) (least : ℕ) (tools : Dict ToolEntry)
    → IsRestoredTable path least tools
    → EntriesWellFormed tools
table-EntriesWellFormed path least tools t =
    AllEntries-EntriesWellFormed tools
      (AllEntries-map (IsRestored path) _ (λ k e r. r.well_formed) tools t.each)

-- The table of a v2 document that was parsed; it may be empty in an overlay.
parse_document_v2-table :
    (raw : Value) (doc : DocumentV2)
    → parse_paybond_policy_document_v2 raw ≡ returned doc
    → IsRestoredTable "tools" (if is_some doc.extends_ then 0 else 1) doc.tools
unfolding parse_paybond_policy_document_v2
parse_document_v2-table raw doc h =
    let (d, _, h1) = bind-returned (expect_mapping raw "(root)") _ h in
    let (_, _, h2) = bind-returned (reject_unknown v2_keys d "(root)") _ h1 in
    let (_, _, h3) = bind-returned (check (equals_int (get "version" d) 2) _ _) _ h2 in
    let (n, _, h4) = bind-returned (parse_name d) _ h3 in
    let (f, _, h5) = bind-returned (expect_bool (get "default_deny" d) "default_deny") _ h4 in
    let (x, _, h6) = bind-returned (optional "extends" d (λ v. parse_extends v "extends")) _ h5 in
    let (o, _, h7) =
      bind-returned (optional "overrides" d (λ v. parse_overrides v "overrides")) _ h6 in
    let least = if is_some x then 0 else 1 in
    let (t, t_eq, h8) = bind-returned (parse_tools_map (get "tools" d) "tools" least) _ h7 in
    let (i, _, h9) = bind-returned (optional "intent" d (λ v. parse_intent v "intent")) _ h8 in
    let (a, _, h10) = bind-returned (optional "adapter" d (λ v. parse_adapter v "adapter")) _ h9 in
    subst
      (λ (doc : DocumentV2).
        IsRestoredTable "tools" (if is_some doc.extends_ then 0 else 1) doc.tools)
      (returned_inj h10) (parse_tools_map-IsRestoredTable (get "tools" d) "tools" least t t_eq)

v1-EntriesWellFormed :
    (raw : Value) (d : DocumentV1)
    → parse_paybond_policy_document_v1 raw ≡ returned d
    → EntriesWellFormed d.tools
v1-EntriesWellFormed raw d h =
    let p = parse_document_v1-Parts raw d h in
    table-EntriesWellFormed "tools" 1 d.tools
      (parse_tools_map-IsRestoredTable (get "tools" p.fields) "tools" 1 d.tools p.tools)

v2-EntriesWellFormed :
    (raw : Value) (d : DocumentV2)
    → parse_paybond_policy_document_v2 raw ≡ returned d
    → EntriesWellFormed d.tools
v2-EntriesWellFormed raw d h =
    table-EntriesWellFormed "tools" _ d.tools (parse_document_v2-table raw d h)

-- The version tells which parser read the document.
parse_document-cases :
    (raw : Value) (doc : Document)
    → parse_paybond_policy_document raw ≡ returned doc
    → ((d : DocumentV1) × (parse_paybond_policy_document_v1 raw ≡ returned d) × (v1 d ≡ doc))
      ⊎ ((d : DocumentV2) × (parse_paybond_policy_document_v2 raw ≡ returned d) × (v2 d ≡ doc))
unfolding parse_paybond_policy_document
parse_document-cases raw doc h =
    let (fields, _, chosen) = bind-returned (expect_mapping raw "(root)") _ h in
    elim (Bool-cases (equals_int (get "version" fields) 1)) [
      | inl first ↦
          let (d, read, made) =
            bind-returned (parse_paybond_policy_document_v1 raw) _ (rw first at chosen) in
          inl (d, read, returned_inj made)
      | inr other ↦ elim (Bool-cases (equals_int (get "version" fields) 2)) [
        | inl second ↦
            let (d, read, made) =
              bind-returned (parse_paybond_policy_document_v2 raw) _
                (rw (other, second) at chosen) in
            inr (d, read, returned_inj made)
        | inr neither ↦ absurd (raised-ne-returned (rw (other, neither) at chosen))
      ]
    ]

parse_document-EntriesWellFormed :
    (raw : Value) (doc : Document)
    → parse_paybond_policy_document raw ≡ returned doc
    → EntriesWellFormed (base_tools doc)
parse_document-EntriesWellFormed raw doc h = elim (parse_document-cases raw doc h) [
  | inl (d, read, same) ↦
      subst (λ x. EntriesWellFormed (base_tools x)) same (v1-EntriesWellFormed raw d read)
  | inr (d, read, same) ↦
      subst (λ x. EntriesWellFormed (base_tools x)) same (v2-EntriesWellFormed raw d read)
]

-- Where base and overlay are decoded documents that were parsed, each tool of the document of a
-- successful merge names an evidence preset if it is side-effecting, and sets one spend field at
-- most.
pub parsed-merge-AllWellFormed :
    (raw_base raw_overlay : Value) (base : Document) (overlay : DocumentV2) (approved : List String)
    (r : MergeResult)
    → parse_paybond_policy_document raw_base ≡ returned base
    → parse_paybond_policy_document_v2 raw_overlay ≡ returned overlay
    → merge_paybond_policies approved base overlay ≡ ok r
    → AllWellFormed r.effective.tools
parsed-merge-AllWellFormed raw_base raw_overlay base overlay approved r b o merged =
    merge-AllWellFormed approved base overlay merged
      (AllWellFormed-of_entries (base_tools base)
        (parse_document-EntriesWellFormed raw_base base b))
      (v2-EntriesWellFormed raw_overlay overlay o)
