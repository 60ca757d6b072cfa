-- ===== src/Agent/Registry/Laws.antt =====
-- A registry that was accepted names each operation for one tool, and resolves fail-closed.
use paybond_kit_python.Prelude.{
  String, ◌≡◌, ◌≢◌, ◌⊎◌, refl, sym, ap, ◌∙◌, subst, inl, inr, Bool, true, false, ◌||◌, Option, none,
  some, List, [], ◌∷◌, arith, contains, eq_iff, eq_refl, if◌then◌else◌, str_eq, Bool-cases,
  some_inj,
}
use paybond_kit_python.Prelude.Dict.{
  Dict, lookup, insert, Unique, insert-Unique, lookup-insert, lookup-nil, lookup-cons,
}
use paybond_kit_python.Prelude.Text.{strip}
use paybond_kit_python.Prelude.Outcome.{
  returned, raised, returned_inj, raised-ne-returned, bind-returned,
}
use paybond_kit_python.Agent.Registry.{
  Resolution, side_effecting, denied, SpendCents, ToolPolicy, SideEffectingEntry, Tables,
  unregistered_operation, get_or, taken_by, register, normalize_tool, normalize_all,
  normalize_side_effecting, operations_of, ToolRegistry, side_effecting, create_registry,
  resolve_operation, resolve_found, resolve_tool, check_registered, validate_for_bind,
}

-- What is known of an entry of an accepted registry.
pub record IsRegistered {Args : Type 0} (known : String → Bool) (operations : Dict String)
    (k : String) (e : SideEffectingEntry Args) : Type 0 where
  pub own_name : e.tool_name ≡ k
  pub has_operation : e.operation ≢ ""
  pub known_preset : known e.evidence_preset ≡ true
  pub linked : lookup e.operation operations ≡ some k

pub record IsLinked {Args : Type 0} (known : String → Bool) (t : Tables Args) : Type 0 where
  pub unique : Unique t.entries
  pub at_tool :
      (k : String) (e : SideEffectingEntry Args)
      → lookup k t.entries ≡ some e
      → IsRegistered known t.operations k e

-- A new operation, or one that is the tool's own, leaves the other tools linked.
linked_after :
    (name operation k other : String) (operations : Dict String)
    → taken_by name (lookup operation operations) ≡ false
    → str_eq name k ≡ false
    → lookup other operations ≡ some k
    → lookup other (insert operation name operations) ≡ some k
linked_after name operation k other operations free differ linked =
    rw lookup-insert (elim (Bool-cases (str_eq operation other)) [
      | inl same ↦
          let e : operation ≡ other = (eq_iff operation other).0 same in
          ground (arith, eq_iff k name, eq_iff name k, rw (e, linked) at free)
      | inr apart ↦ rw apart linked
    ])

check_registered-contains :
    (operations : List String) (operation : String) (allowed_tools : List String)
    → check_registered operations allowed_tools ≡ returned tt
    → contains operation allowed_tools ≡ true
    → contains operation operations ≡ true
unfolding check_registered
check_registered-contains operations operation [] valid listed = cc
check_registered-contains operations operation (o ∷ rest) valid listed =
    let at : (str_eq o operation || contains operation rest) ≡ true = listed in
    let checks : (if contains o operations
          then check_registered operations rest
          else raised (unregistered_operation o))
        ≡ returned tt =
      valid in
    ground
      (arith, at, checks, eq_iff o operation, check_registered-contains operations operation rest)

-- An operation of the table is that of an entry, found under its key.
entry_for :
    {Args : Type 0} (operation : String) (entries : Dict (SideEffectingEntry Args))
    → Unique entries
    → contains operation (operations_of entries) ≡ true
    → (k : String) × (e : SideEffectingEntry Args) × (lookup k entries ≡ some e)
      × (e.operation ≡ operation)
unfolding operations_of
entry_for operation [] u h = cc
entry_for operation ((j, e) ∷ entries) u h =
    let at : (str_eq e.operation operation || contains operation (operations_of entries)) ≡ true =
      h in
    elim (Bool-cases (str_eq e.operation operation)) [
      | inl same ↦ (j, e, simp (lookup-cons, eq_refl), (eq_iff e.operation operation).0 same)
      | inr other ↦
          let (k, f, at_k, is_for) = entry_for operation entries u.1 (rw other at at) in
          let apart : str_eq j k ≡ false = ground (arith, eq_iff j k, u.0, at_k) in
          (k, f, rw (lookup-cons, apart) at_k, is_for)
    ]

module _ {Args : Type 0} (known : String → Bool) where
  write_entry-IsLinked :
      (new : SideEffectingEntry Args) (t : Tables Args)
      → new.operation ≢ ""
      → known new.evidence_preset ≡ true
      → taken_by new.tool_name (lookup new.operation t.operations) ≡ false
      → IsLinked known t
      → IsLinked known (record {
        entries = insert new.tool_name new t.entries;
        operations = insert new.operation new.tool_name t.operations;
      })
  write_entry-IsLinked new t o p free l = record {
    unique = insert-Unique new.tool_name new t.entries l.unique;
    at_tool = λ k e h. at k e (rw lookup-insert at h);
  }
    where
      registered :
          IsRegistered known (insert new.operation new.tool_name t.operations) new.tool_name new
      registered = record {
        own_name = refl;
        has_operation = o;
        known_preset = p;
        linked = simp (lookup-insert, eq_refl);
      }

      at :
          (k : String) (e : SideEffectingEntry Args)
          → (if str_eq new.tool_name k then some new else lookup k t.entries) ≡ some e
          → IsRegistered known (insert new.operation new.tool_name t.operations) k e
      at k e h = elim (Bool-cases (str_eq new.tool_name k)) [
        | inl same ↦
            subst (λ x. IsRegistered known (insert new.operation new.tool_name t.operations) x e)
              ((eq_iff new.tool_name k).0 same)
              (subst
                (IsRegistered known (insert new.operation new.tool_name t.operations) new.tool_name)
                (some_inj (rw same at h)) registered)
        | inr other ↦
            let old = l.at_tool k e (rw other at h) in
            record {
              own_name = old.own_name;
              has_operation = old.has_operation;
              known_preset = old.known_preset;
              linked =
                  linked_after new.tool_name new.operation k e.operation t.operations free other
                    old.linked;
            }
      ]

  register-IsLinked :
      (name preset operation : String) (spend : Option (SpendCents Args)) (t t' : Tables Args)
      → operation ≢ ""
      → known preset ≡ true
      → register name preset operation spend t (lookup operation t.operations) ≡ returned t'
      → IsLinked known t
      → IsLinked known t'
  unfolding register
  register-IsLinked name preset operation spend t t' o p h l =
      elim (Bool-cases (taken_by name (lookup operation t.operations))) [
        | inl taken ↦ absurd (raised-ne-returned (rw taken at h))
        | inr free ↦ subst (IsLinked known) (returned_inj (rw free at h)) (
            write_entry-IsLinked
              (record {
                tool_name = name;
                operation = operation;
                evidence_preset = preset;
                spend_cents = spend;
              })
              t o p free l)
      ]

  normalize_tool-IsLinked :
      (name : String) (policy : ToolPolicy Args) (t t' : Tables Args)
      → normalize_tool known name policy t ≡ returned t'
      → IsLinked known t
      → IsLinked known t'
  unfolding normalize_tool
  normalize_tool-IsLinked name policy t t' h l =
      register-IsLinked name (strip (get_or policy.evidence_preset ""))
        (strip (get_or policy.operation name)) policy.spend_cents t t'
        (ground (arith, eq_iff (strip (get_or policy.operation name)) "")) (ground arith)
        (ground arith) l

  normalize_all-IsLinked :
      (policies : Dict (ToolPolicy Args)) (t t' : Tables Args)
      → normalize_all known policies t ≡ returned t'
      → IsLinked known t
      → IsLinked known t'
  unfolding normalize_all
  normalize_all-IsLinked [] t t' h l = subst (IsLinked known) (returned_inj h) l
  normalize_all-IsLinked ((name, policy) ∷ rest) t t' h l =
      let (u, first, last) =
        bind-returned (normalize_tool known name policy t) (normalize_all known rest) h in
      normalize_all-IsLinked rest u t' last (normalize_tool-IsLinked name policy t u first l)

  -- The tables behind an accepted registry.
  create_registry-IsLinked :
      (default_deny : Bool) (policies : Dict (ToolPolicy Args)) (r : ToolRegistry Args)
      → create_registry known default_deny policies ≡ returned r
      → (t : Tables Args) × (t.entries ≡ r.side_effecting)
        × (operations_of t.entries ≡ r.operations)
        × (default_deny ≡ r.default_deny)
        × IsLinked known t
  unfolding create_registry normalize_side_effecting
  create_registry-IsLinked default_deny policies r h =
      let (entries, accepted, built) =
        bind-returned (normalize_side_effecting known policies) _ h in
      let (t, all, kept) =
        bind-returned (normalize_all known policies (record { entries = []; operations = [] })) _
          accepted in
      let same = returned_inj kept in
      let made = returned_inj built in
      (
        t,
        same ∙ ap (λ x. x.side_effecting) made,
        ap operations_of same ∙ ap (λ x. x.operations) made,
        ap (λ x. x.default_deny) made,
        normalize_all-IsLinked policies _ t all (record {
          unique = tt;
          at_tool = λ k e p. cc (lookup-nil {V = SideEffectingEntry Args} k);
        }),
      )

  module _ (default_deny : Bool) (policies : Dict (ToolPolicy Args)) (r : ToolRegistry Args)
      (accepted : create_registry known default_deny policies ≡ returned r) where
    -- In a registry that was accepted two tools that stand for one operation are one tool.
    pub create_registry-operation_inj :
        (j k : String) (e f : SideEffectingEntry Args)
        → lookup j r.side_effecting ≡ some e
        → lookup k r.side_effecting ≡ some f
        → e.operation ≡ f.operation
        → j ≡ k
    create_registry-operation_inj j k e f at_j at_k same =
        let (t, entries, _, _, linked) =
          create_registry-IsLinked default_deny policies r accepted in
        let first = (linked.at_tool j e (rw (← entries) at at_j)).linked in
        let second = (linked.at_tool k f (rw (← entries) at at_k)).linked in
        some_inj (sym first ∙ ap (λ x. lookup x t.operations) same ∙ second)

    -- Every tool of a registry that was accepted is entered under its own name, stands for an
    -- operation that is not empty and names an evidence preset of the catalogue.
    pub create_registry-IsRegistered :
        (k : String) (e : SideEffectingEntry Args)
        → lookup k r.side_effecting ≡ some e
        → (e.tool_name ≡ k) × (e.operation ≢ "") × (known e.evidence_preset ≡ true)
    create_registry-IsRegistered k e at_k =
        let (t, entries, _, _, linked) =
          create_registry-IsLinked default_deny policies r accepted in
        let found = linked.at_tool k e (rw (← entries) at at_k) in
        (found.own_name, found.has_operation, found.known_preset)

    -- If a registry that denies by default passes the validation for an allowlist, each allowed
    -- operation is that of a registered tool.
    pub validate_for_bind-covers :
        (allowed_tools : List String)
        → default_deny ≡ true
        → validate_for_bind r allowed_tools ≡ returned tt
        → (operation : String) → contains operation allowed_tools ≡ true
        → (k : String) × (e : SideEffectingEntry Args) × (lookup k r.side_effecting ≡ some e)
          × (e.operation ≡ operation)
    unfolding validate_for_bind
    validate_for_bind-covers allowed_tools denies valid operation listed =
        let (t, entries, named, same, linked) =
          create_registry-IsLinked default_deny policies r accepted in
        let all : check_registered r.operations allowed_tools ≡ returned tt =
          rw (← same, denies) at valid in
        let (k, e, at_k, is_for) =
          entry_for operation t.entries linked.unique (
            rw named (check_registered-contains r.operations operation allowed_tools all listed)) in
        (k, e, rw (← entries) at_k, is_for)

module _ {Args : Type 0} (r : ToolRegistry Args) where
  -- What a listed tool of a registry that denies by default is resolved to: its own entry, with the
  -- entry's operation, where it has one, and otherwise a denial.
  abbrev pub IsResolved : String → Resolution Args → Type 0
  IsResolved name resolution =
      ((entry : SideEffectingEntry Args) × (lookup name r.side_effecting ≡ some entry)
        × (resolution ≡ side_effecting name entry.operation entry))
      ⊎ ((lookup name r.side_effecting ≡ none) × (resolution ≡ denied name name))

  -- A registry that denies by default resolves a listed tool to its own entry, with the entry's
  -- operation, where it has one, and denies it otherwise, under its name; it never lets it through.
  pub resolve_tool-fail_closed :
      (name : String) (allowed_tools : List String)
      → r.default_deny ≡ true
      → contains name allowed_tools ≡ true
      → IsResolved name (resolve_tool r name (some allowed_tools))
  unfolding resolve_tool
  resolve_tool-fail_closed name allowed_tools denies listed = go (lookup name r.side_effecting) refl
    where
      go :
          (o : Option (SideEffectingEntry Args))
          → lookup name r.side_effecting ≡ o
          → IsResolved name (resolve_found r name (some allowed_tools) o)
      go none e = inr (e, rw (resolve_found, resolve_operation, e, denies, listed) refl)
      go (some entry) e = inl (entry, e, refl)

-- A tool with an entry is resolved to it, whatever is allowed.
pub resolve_tool-registered :
    {Args : Type 0} (registry : ToolRegistry Args) (tool_name : String)
    (allowed_tools : Option (List String)) (entry : SideEffectingEntry Args)
    → lookup tool_name registry.side_effecting ≡ some entry
    → resolve_tool registry tool_name allowed_tools ≡ side_effecting tool_name entry.operation entry
unfolding resolve_tool resolve_found
resolve_tool-registered registry tool_name allowed_tools entry h = rw h refl
