-- ===== src/Policy/Serialize/Tools.antt =====
-- A tool entry, and a table of tools, is read back as it was written.
use paybond_kit_python.Prelude.{
  ℕ, String, ◌<>◌, ◌≡◌, refl, sym, ap, ◌∙◌, true, false, not, ◌&&◌, none, [], ◌∷◌, ◌++◌, arith,
  is_some, eq_iff, eq_refl, append-nil, append_assoc, ltb, length, suc, ◌+◌, ◌<◌,
}
use paybond_kit_python.Prelude.Dict.{Dict, lookup, insert, Unique}
use paybond_kit_python.Prelude.Outcome.{returned, returned_inj, bind-returned}
use paybond_kit_python.Policy.Value.{Value, int, str, mapping, fields_of, entries-fields_of, get}
use paybond_kit_python.Policy.Schema.{ToolEntry}
use paybond_kit_python.Policy.Serialize.{tool_payload, tool_value, tools_payload}
use paybond_kit_python.Policy.Parse.Format.{is_json_path, is_identifier, is_tool_name}
use paybond_kit_python.Policy.Parse.Expect.{at, check, expect_mapping, expect_bool}
use paybond_kit_python.Policy.Parse.Expect.Restores.{
  expect_int-Restores, expect_format-Restores, expect_within-Restores, optional-emitted,
  payload_laws, lookup-append, IsKnown, reject_unknown-IsKnown, append-IsKnown, cons-IsKnown,
  field_of-IsKnown, check-returned,
}
use paybond_kit_python.Policy.Parse.Tool.{
  tool_keys, parse_max_spend, parse_spend_from_args, parse_spend, parse_evidence_preset,
  parse_vendor_pack, parse_operation, parse_tool_entry, parse_tools_from, parse_tools_map,
}
use paybond_kit_python.Policy.Parse.Tool.Laws.{
  Parts, parse_tool_entry-Parts, AllEntries, parse_tools_from-AllEntries,
  parse_tool_entry-IsWellFormed,
}
use paybond_kit_python.Policy.Merge.Tools.Laws.{IsWellFormed}

tool_payload-IsKnown : (e : ToolEntry) → IsKnown tool_keys (tool_payload e)
unfolding tool_payload
tool_payload-IsKnown e = cons-IsKnown tool_keys "side_effecting" _ _ refl (
    append-IsKnown tool_keys _ _
      (field_of-IsKnown tool_keys "max_spend_cents" int e.max_spend_cents refl)
      (append-IsKnown tool_keys _ _
        (field_of-IsKnown tool_keys "spend_from_args" str e.spend_from_args refl)
        (append-IsKnown tool_keys _ _
          (field_of-IsKnown tool_keys "evidence_preset" str e.evidence_preset refl)
          (append-IsKnown tool_keys _ _
            (field_of-IsKnown tool_keys "vendor_pack" str e.vendor_pack refl)
            (field_of-IsKnown tool_keys "operation" str e.operation refl)))))

-- Each optional field of an entry that was parsed is found in what is written of it.
module _ {raw : Value} {path : String} {e : ToolEntry} (p : Parts raw path e) where
  restore_spend :
      parse_spend (tool_payload e) path ≡ returned (e.max_spend_cents, e.spend_from_args)
  unfolding parse_spend parse_max_spend parse_spend_from_args tool_payload
  restore_spend =
      let (cents, cents_eq, h1) = bind-returned (parse_max_spend p.entry path) _ p.spend in
      let (from_args, from_eq, h2) = bind-returned (parse_spend_from_args p.entry path) _ h1 in
      let (_, one, h3) =
        bind-returned (check (not (is_some cents && is_some from_args)) _ _) _ h2 in
      let cents_same = ap (λ q. q.0) (returned_inj h3) in
      let from_same = ap (λ q. q.1) (returned_inj h3) in
      simp (
        optional-emitted "max_spend_cents" p.entry (tool_payload e) _ int e.max_spend_cents
            (expect_int-Restores (path <> ".max_spend_cents") 0) (cents_eq ∙ ap returned cents_same)
            (simp payload_laws),
        optional-emitted "spend_from_args" p.entry (tool_payload e) _ str e.spend_from_args
            (expect_format-Restores (at (path <> ".spend_from_args")) is_json_path)
            (from_eq ∙ ap returned from_same) (simp payload_laws),
        ap (λ q. not (is_some (q.0) && is_some (q.1))) (sym (returned_inj h3))
            ∙ check-returned _ _ _ one,
      )

  restore_preset : parse_evidence_preset (tool_payload e) path ≡ returned e.evidence_preset
  unfolding parse_evidence_preset tool_payload
  restore_preset =
      optional-emitted "evidence_preset" p.entry (tool_payload e) _ str e.evidence_preset
        (expect_format-Restores (at (path <> ".evidence_preset")) is_identifier) p.preset
        (simp payload_laws)

  restore_pack : parse_vendor_pack (tool_payload e) path ≡ returned e.vendor_pack
  unfolding parse_vendor_pack tool_payload
  restore_pack =
      optional-emitted "vendor_pack" p.entry (tool_payload e) _ str e.vendor_pack
        (expect_format-Restores (at (path <> ".vendor_pack")) is_identifier) p.pack
        (simp payload_laws)

  restore_operation : parse_operation (tool_payload e) path ≡ returned e.operation
  unfolding parse_operation tool_payload
  restore_operation =
      optional-emitted "operation" p.entry (tool_payload e) _ str e.operation
        (expect_within-Restores (at (path <> ".operation")) 128) p.named (simp payload_laws)

  restore_flag :
      expect_bool (get "side_effecting" (tool_payload e)) (path <> ".side_effecting")
      ≡ returned e.side_effecting
  unfolding get expect_bool tool_payload lookup
  restore_flag = refl

  parse-tool_value : parse_tool_entry (tool_value e) path ≡ returned e
  unfolding parse_tool_entry expect_mapping
  parse-tool_value = simp (
    entries-fields_of (tool_payload e),
    reject_unknown-IsKnown tool_keys (tool_payload e) path (tool_payload-IsKnown e),
    restore_flag,
    restore_spend,
    restore_preset,
    p.declared,
    restore_pack,
    restore_operation,
  )

-- What holds of an entry of a table that was parsed, under its name.
pub record IsRestored (path k : String) (e : ToolEntry) : Type 0 where
  pub named : is_tool_name k ≡ true
  pub well_formed : IsWellFormed e
  pub restored : parse_tool_entry (tool_value e) (path <> "." <> k) ≡ returned e

insert-absent :
    (k : String) (e : ToolEntry) (d : Dict ToolEntry)
    → lookup k d ≡ none
    → insert k e d ≡ d ++ (k, e) ∷ []
unfolding insert lookup
insert-absent k e [] h = refl
insert-absent k e ((j, f) ∷ d) h = ground (arith, insert-absent k e d, h)

Unique-absent :
    (k : String) (e : ToolEntry) (acc d : Dict ToolEntry)
    → Unique (acc ++ (k, e) ∷ d)
    → lookup k acc ≡ none
unfolding lookup
Unique-absent k e [] d u = refl
Unique-absent k e ((j, f) ∷ acc) d u =
    let absent = Unique-absent k e acc d u.1 in
    let here = lookup-append k acc ((k, e) ∷ d) in
    ground (arith, eq_iff j k, eq_refl k, u.0, absent, here)

module _ (path : String) where
  parse-tools_payload :
      (d acc : Dict ToolEntry)
      → AllEntries (IsRestored path) d
      → Unique (acc ++ d)
      → parse_tools_from parse_tool_entry path (tools_payload d) acc ≡ returned (acc ++ d)
  unfolding parse_tools_from tools_payload
  parse-tools_payload [] acc all u = rw append-nil refl
  parse-tools_payload ((k, e) ∷ d) acc all u = simp (
    all.0.named,
    all.0.restored,
    insert-absent k e acc (Unique-absent k e acc d u),
    parse-tools_payload d (acc ++ (k, e) ∷ []) all.1 (rw append_assoc u),
    append_assoc,
  )

  length-tools_payload : (d : Dict ToolEntry) → length (tools_payload d) ≡ length d
  unfolding tools_payload
  length-tools_payload [] = refl
  length-tools_payload ((k, e) ∷ d) = ap suc (length-tools_payload d)

  length-insert : (k : String) (e : ToolEntry) (d : Dict ToolEntry) → 0 < length (insert k e d)
  unfolding insert
  length-insert k e [] = omega arith
  length-insert k e ((j, f) ∷ d) = ground arith

  length-parse_tools_from :
      (d : Dict Value) (acc tools : Dict ToolEntry)
      → parse_tools_from parse_tool_entry path d acc ≡ returned tools
      → 0 < length d + length acc
      → 0 < length tools
  unfolding parse_tools_from
  length-parse_tools_from [] acc tools h some_ = rw (← returned_inj h) (omega (arith, some_))
  length-parse_tools_from ((k, raw) ∷ d) acc tools h some_ =
      let (_, _, h1) = bind-returned (check (is_tool_name k) _ _) _ h in
      let (e, _, h2) = bind-returned (parse_tool_entry raw (path <> "." <> k)) _ h1 in
      let one = length-insert k e acc in
      length-parse_tools_from d (insert k e acc) tools h2 (omega arith)

-- What holds of a table that was parsed.
pub record IsRestoredTable (path : String) (least : ℕ) (tools : Dict ToolEntry) : Type 0 where
  pub each : AllEntries (IsRestored path) tools
  pub unique : Unique tools
  pub enough : least ≡ 1 → 0 < length tools

pub parse_tools_map-IsRestoredTable :
    (raw : Value) (path : String) (least : ℕ) (tools : Dict ToolEntry)
    → parse_tools_map raw path least ≡ returned tools
    → IsRestoredTable path least tools
unfolding parse_tools_map
parse_tools_map-IsRestoredTable raw path least tools h =
    let (d, _, h1) = bind-returned (expect_mapping raw path) _ h in
    let (_, enough, h2) = bind-returned (check (not (ltb (length d) least)) _ _) _ h1 in
    let (all, u) =
      parse_tools_from-AllEntries (IsRestored path) parse_tool_entry path
        (λ k raw e named parsed. record {
          named = named;
          well_formed = parse_tool_entry-IsWellFormed raw _ e parsed;
          restored = parse-tool_value (parse_tool_entry-Parts parsed);
        })
        d [] tools h2 tt tt in
    let long = check-returned (not (ltb (length d) least)) _ _ enough in
    record {
      each = all;
      unique = u;
      enough = λ one. length-parse_tools_from path d [] tools h2 (ground (arith, one, long));
    }

pub parse-tools_value :
    (path : String) (tools : Dict ToolEntry)
    → IsRestoredTable path 1 tools
    → parse_tools_map (mapping (fields_of (tools_payload tools))) path 1 ≡ returned tools
unfolding parse_tools_map expect_mapping
parse-tools_value path tools t =
    let long : ltb (length (tools_payload tools)) 1 ≡ false =
      ground (arith, length-tools_payload path tools, t.enough refl) in
    simp (
      entries-fields_of (tools_payload tools),
      long,
      parse-tools_payload path tools [] t.each t.unique,
    )
