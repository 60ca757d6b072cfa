-- ===== src/Policy/Parse/Tool/Laws.antt =====
-- What a tool entry that was parsed satisfies, and how its parse is taken apart.
use paybond_kit_python.Prelude.{
  ℕ, String, ◌<>◌, ◌≡◌, sym, ap, subst, ◌⊎◌, inl, inr, true, not, ◌&&◌, Option, none, some, [], ◌∷◌,
  arith, is_some, truthy, Bool-cases, str_eq, eq_iff,
}
use paybond_kit_python.Prelude.Dict.{Dict, insert, Unique, insert-Unique}
use paybond_kit_python.Prelude.Outcome.{returned, returned_inj, bind-returned}
use paybond_kit_python.Policy.Value.{Value, get}
use paybond_kit_python.Policy.Schema.{ToolEntry}
use paybond_kit_python.Policy.Merge.Tools.Laws.{IsWellFormed}
use paybond_kit_python.Policy.Merge.Tools.Loops.{EntriesWellFormed}
use paybond_kit_python.Policy.Parse.Format.{is_tool_name}
use paybond_kit_python.Policy.Parse.Expect.{
  Parsed, check, expect_mapping, expect_bool, reject_unknown,
}
use paybond_kit_python.Policy.Parse.Expect.Restores.{check-returned}
use paybond_kit_python.Policy.Parse.Tool.{
  tool_keys, parse_max_spend, parse_spend_from_args, parse_spend, parse_evidence_preset,
  parse_vendor_pack, parse_operation, parse_tool_entry, parse_tools_from,
}

-- The steps of a parse that returned `e`.
pub record Parts (raw : Value) (path : String) (e : ToolEntry) : Type 0 where
  pub entry : Dict Value
  pub is_mapping : expect_mapping raw path ≡ returned entry
  pub known : reject_unknown tool_keys entry path ≡ returned tt
  pub flag :
      expect_bool (get "side_effecting" entry) (path <> ".side_effecting")
      ≡ returned e.side_effecting
  pub spend : parse_spend entry path ≡ returned (e.max_spend_cents, e.spend_from_args)
  pub preset : parse_evidence_preset entry path ≡ returned e.evidence_preset
  pub declared : not (e.side_effecting && not (truthy e.evidence_preset)) ≡ true
  pub pack : parse_vendor_pack entry path ≡ returned e.vendor_pack
  pub named : parse_operation entry path ≡ returned e.operation

module _ {raw : Value} {path : String} {e : ToolEntry} where
  pub parse_tool_entry-Parts : parse_tool_entry raw path ≡ returned e → Parts raw path e
  unfolding parse_tool_entry
  parse_tool_entry-Parts h =
      let (entry, is_mapping, h1) = bind-returned (expect_mapping raw path) _ h in
      let (_, known, h2) = bind-returned (reject_unknown tool_keys entry path) _ h1 in
      let (flag, flag_eq, h3) =
        bind-returned (expect_bool (get "side_effecting" entry) (path <> ".side_effecting")) _ h2 in
      let (spend, spend_eq, h4) = bind-returned (parse_spend entry path) _ h3 in
      let (preset, preset_eq, h5) = bind-returned (parse_evidence_preset entry path) _ h4 in
      let (_, declared, h6) = bind-returned (check _ _ _) _ h5 in
      let (pack, pack_eq, h7) = bind-returned (parse_vendor_pack entry path) _ h6 in
      let (op, op_eq, h8) = bind-returned (parse_operation entry path) _ h7 in
      subst (Parts raw path) (returned_inj h8) (record {
        entry = entry;
        is_mapping = is_mapping;
        known = known;
        flag = flag_eq;
        spend = spend_eq;
        preset = preset_eq;
        declared = check-returned _ _ _ declared;
        pack = pack_eq;
        named = op_eq;
      })

-- The two spend fields of a parse are not both set.
parse_spend-one_field :
    (entry : Dict Value) (path : String) (cents : Option ℕ) (from_args : Option String)
    → parse_spend entry path ≡ returned (cents, from_args)
    → (cents ≡ none) ⊎ (from_args ≡ none)
unfolding parse_spend
parse_spend-one_field entry path cents from_args h =
    let (a, _, h1) = bind-returned (parse_max_spend entry path) _ h in
    let (b, _, h2) = bind-returned (parse_spend_from_args entry path) _ h1 in
    let (_, one, h3) = bind-returned (check (not (is_some a && is_some b)) _ _) _ h2 in
    go a b (check-returned _ _ _ one) (returned_inj h3)
  where
    go :
        (a : Option ℕ) (b : Option String)
        → not (is_some a && is_some b) ≡ true
        → ◌≡◌ {A = Option ℕ × Option String} (a, b) (cents, from_args)
        → (cents ≡ none) ⊎ (from_args ≡ none)
    go none b one same = inl (sym (ap (λ p. p.0) same))
    go (some n) none one same = inr (sym (ap (λ p. p.1) same))
    go (some n) (some f) one same = cc

pub parse_tool_entry-IsWellFormed :
    (raw : Value) (path : String) (e : ToolEntry)
    → parse_tool_entry raw path ≡ returned e
    → IsWellFormed e
parse_tool_entry-IsWellFormed raw path e h =
    let p = parse_tool_entry-Parts h in
    record {
      has_preset = ground (arith, p.declared);
      one_spend_field =
          parse_spend-one_field p.entry path e.max_spend_cents e.spend_from_args p.spend;
    }

-- Each entry of a table satisfies `P`, and no key stands twice.
module _ {E : Type 0} (P : String → E → Type 0) where
  abbrev pub AllEntries : Dict E → Type 0
  AllEntries [] = Unit
  AllEntries ((k, e) ∷ d) = P k e × AllEntries d

  insert-AllEntries :
      (k : String) (e : E) (d : Dict E) → P k e → AllEntries d → AllEntries (insert k e d)
  unfolding insert
  insert-AllEntries k e [] p all = (p, tt)
  insert-AllEntries k e ((j, f) ∷ d) p all = elim (Bool-cases (str_eq j k)) [
    | inl same ↦ rw same (subst (λ x. P x e) (sym ((eq_iff j k).0 same)) p, all.1)
    | inr other ↦ rw other (all.0, insert-AllEntries k e d p all.1)
  ]

  pub parse_tools_from-AllEntries :
      (parse_entry : Value → String → Parsed E) (path : String)
      → ((k : String) (raw : Value) (e : E)
          → is_tool_name k ≡ true
          → parse_entry raw (path <> "." <> k) ≡ returned e
          → P k e)
      → (d : Dict Value) (acc tools : Dict E)
      → parse_tools_from parse_entry path d acc ≡ returned tools
      → AllEntries acc
      → Unique acc
      → AllEntries tools × Unique tools
  unfolding parse_tools_from
  parse_tools_from-AllEntries parse_entry path each [] acc tools h all u =
      rw (← returned_inj h) (all, u)
  parse_tools_from-AllEntries parse_entry path each ((k, raw) ∷ d) acc tools h all u =
      let (_, named, h1) = bind-returned (check (is_tool_name k) _ _) _ h in
      let (e, parsed, h2) = bind-returned (parse_entry raw (path <> "." <> k)) _ h1 in
      parse_tools_from-AllEntries parse_entry path each d (insert k e acc) tools h2
        (insert-AllEntries k e acc (each k raw e (check-returned _ _ _ named) parsed) all)
        (insert-Unique k e acc u)

pub AllEntries-map :
    {E : Type 0} (P Q : String → E → Type 0)
    → ((k : String) (e : E) → P k e → Q k e)
    → (d : Dict E) → AllEntries P d
    → AllEntries Q d
AllEntries-map P Q f [] all = tt
AllEntries-map P Q f ((k, e) ∷ d) all = (f k e all.0, AllEntries-map P Q f d all.1)

pub AllEntries-EntriesWellFormed :
    (d : Dict ToolEntry) → AllEntries (λ k e. IsWellFormed e) d → EntriesWellFormed d
AllEntries-EntriesWellFormed [] all = tt
AllEntries-EntriesWellFormed ((k, e) ∷ d) all = (all.0, AllEntries-EntriesWellFormed d all.1)
