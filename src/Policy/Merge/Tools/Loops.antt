-- ===== src/Policy/Merge/Tools/Loops.antt =====
-- What the two loops over tools guarantee of the whole table.
use paybond_kit_python.Prelude.{
  Bool-cases, some_inj, inl, inr, subst, String, ◌≡◌, refl, Option, none, some, [], ◌∷◌, eq_iff,
  if◌then◌else◌, str_eq,
}
use paybond_kit_python.Prelude.Dict.{Dict, lookup, insert, lookup-insert, lookup-nil, lookup-cons}
use paybond_kit_python.Policy.Schema.{ToolEntry, ToolOverride}
use paybond_kit_python.Policy.Merge.Report.{
  Merged, pure, IsClean, bind-IsClean_left, bind-IsClean_right,
}
use paybond_kit_python.Policy.Merge.Tools.{
  merge_tool_fields, override_found, override_tools, append_found, append_tools, clone_tool_entry,
}
use paybond_kit_python.Policy.Merge.Tools.Laws.{
  Tightens, Tightens-refl, Tightens-trans, IsWellFormed, merge_tool_fields-Tightens,
  merge_tool_fields-IsWellFormed,
}

-- A tool that is there stays, and is only tightened.
abbrev pub KeptEntry : Option ToolEntry → Option ToolEntry → Type 0
KeptEntry none merged = Unit
KeptEntry (some e) none = ⊥
KeptEntry (some e) (some e') = Tightens e e'

pub record Refines (old new : Dict ToolEntry) : Type 0 where
  pub kept : (k : String) → KeptEntry (lookup k old) (lookup k new)

pub record AllWellFormed (tools : Dict ToolEntry) : Type 0 where
  pub at_key : (k : String) (e : ToolEntry) → lookup k tools ≡ some e → IsWellFormed e

KeptEntry-refl : (o : Option ToolEntry) → KeptEntry o o
KeptEntry-refl none = tt
KeptEntry-refl (some e) = Tightens-refl e

KeptEntry-trans : (a b c : Option ToolEntry) → KeptEntry a b → KeptEntry b c → KeptEntry a c
KeptEntry-trans none b c h k = tt
KeptEntry-trans (some x) none c h k = absurd h
KeptEntry-trans (some x) (some y) none h k = absurd k
KeptEntry-trans (some x) (some y) (some z) h k = Tightens-trans h k

pub Refines-refl : (d : Dict ToolEntry) → Refines d d
Refines-refl d = record { kept = λ k. KeptEntry-refl (lookup k d) }

pub Refines-trans : {a b c : Dict ToolEntry} → Refines a b → Refines b c → Refines a c
Refines-trans {a} {b} {c} h g = record {
  kept = λ k. KeptEntry-trans (lookup k a) (lookup k b) (lookup k c) (h.kept k) (g.kept k);
}

-- A write refines the table if it refines what the key holds.
insert-Refines :
    (t : String) (e : ToolEntry) (d : Dict ToolEntry)
    → KeptEntry (lookup t d) (some e)
    → Refines d (insert t e d)
insert-Refines t e d h = record { kept = λ k. rw lookup-insert (at_key k) }
  where
    at_key : (k : String) → KeptEntry (lookup k d) (if str_eq t k then some e else lookup k d)
    at_key k = elim (Bool-cases (str_eq t k)) [
      | inl same ↦ rw same (rw (← (eq_iff t k).0 same) h)
      | inr other ↦ rw other (KeptEntry-refl (lookup k d))
    ]

insert-AllWellFormed :
    (t : String) (e : ToolEntry) (d : Dict ToolEntry)
    → IsWellFormed e
    → AllWellFormed d
    → AllWellFormed (insert t e d)
insert-AllWellFormed t e d new h = record { at_key = λ k f p. at k f (rw lookup-insert at p) }
  where
    at :
        (k : String) (f : ToolEntry)
        → (if str_eq t k then some e else lookup k d) ≡ some f
        → IsWellFormed f
    at k f p = elim (Bool-cases (str_eq t k)) [
      | inl same ↦ subst IsWellFormed (some_inj (rw same at p)) new
      | inr other ↦ h.at_key k f (rw other at p)
    ]

-- A table that refines another and is well formed if the other is.
pub record Improves (old new : Dict ToolEntry) : Type 0 where
  pub refines : Refines old new
  pub well_formed : AllWellFormed old → AllWellFormed new

pub Improves-refl : (d : Dict ToolEntry) → Improves d d
Improves-refl d = record { refines = Refines-refl d; well_formed = λ h. h }

pub Improves-trans : {a b c : Dict ToolEntry} → Improves a b → Improves b c → Improves a c
Improves-trans h k = record {
  refines = Refines-trans h.refines k.refines;
  well_formed = λ w. k.well_formed (h.well_formed w);
}

insert-Improves :
    (t : String) (e : ToolEntry) (d : Dict ToolEntry)
    → KeptEntry (lookup t d) (some e)
    → IsWellFormed e
    → Improves d (insert t e d)
insert-Improves t e d h w = record {
  refines = insert-Refines t e d h;
  well_formed = insert-AllWellFormed t e d w;
}

override_found-Improves :
    (t : String) (patch : ToolOverride) (tools : Dict ToolEntry) (o : Option ToolEntry)
    → lookup t tools ≡ o
    → IsClean (override_found t patch tools o)
    → Improves tools (override_found t patch tools o).value
unfolding override_found
override_found-Improves t patch tools none e h = cc
override_found-Improves t patch tools (some old) e h =
    insert-Improves t _ tools (rw e (merge_tool_fields-Tightens old patch t clean))
      (merge_tool_fields-IsWellFormed old patch t clean)
  where
    clean : IsClean (merge_tool_fields old patch t)
    clean =
        bind-IsClean_left (merge_tool_fields old patch t) (λ entry. pure (insert t entry tools)) h

append_found-Improves :
    (t : String) (e : ToolEntry) (tools : Dict ToolEntry) (o : Option ToolEntry)
    → IsWellFormed e
    → lookup t tools ≡ o
    → IsClean (append_found t e tools o)
    → Improves tools (append_found t e tools o).value
unfolding append_found clone_tool_entry
append_found-Improves t e tools none w p h = insert-Improves t _ tools (rw p tt) w
append_found-Improves t e tools (some old) w p h = cc

-- A clean run of the overrides leaves every tool there, tightened, and the table well formed.
pub override_tools-Improves :
    (patches : Dict ToolOverride) (tools : Dict ToolEntry)
    → IsClean (override_tools patches tools)
    → Improves tools (override_tools patches tools).value
unfolding override_tools
override_tools-Improves [] tools h = Improves-refl tools
override_tools-Improves ((t, patch) ∷ rest) tools h =
    let m : Merged (Dict ToolEntry) = override_found t patch tools (lookup t tools) in
    Improves-trans
      (override_found-Improves t patch tools (lookup t tools) refl
        (bind-IsClean_left m (override_tools rest) h))
      (override_tools-Improves rest m.value (bind-IsClean_right m (override_tools rest) h))

-- every entry that the overlay adds is well formed
abbrev pub EntriesWellFormed : Dict ToolEntry → Type 0
EntriesWellFormed [] = Unit
EntriesWellFormed ((_, e) ∷ rest) = IsWellFormed e × EntriesWellFormed rest

pub append_tools-Improves :
    (added tools : Dict ToolEntry)
    → EntriesWellFormed added
    → IsClean (append_tools added tools)
    → Improves tools (append_tools added tools).value
unfolding append_tools
append_tools-Improves [] tools w h = Improves-refl tools
append_tools-Improves ((t, e) ∷ rest) tools w h =
    let m : Merged (Dict ToolEntry) = append_found t e tools (lookup t tools) in
    Improves-trans
      (append_found-Improves t e tools (lookup t tools) w.0 refl
        (bind-IsClean_left m (append_tools rest) h))
      (append_tools-Improves rest m.value w.1 (bind-IsClean_right m (append_tools rest) h))

append_found-Refines :
    (t : String) (e : ToolEntry) (tools : Dict ToolEntry) (o : Option ToolEntry)
    → lookup t tools ≡ o
    → IsClean (append_found t e tools o)
    → Refines tools (append_found t e tools o).value
unfolding append_found clone_tool_entry
append_found-Refines t e tools none p h = insert-Refines t _ tools (rw p tt)
append_found-Refines t e tools (some old) p h = cc

-- Whatever the overlay adds, the tools that are there stay as they are or tighter.
pub append_tools-Refines :
    (added tools : Dict ToolEntry)
    → IsClean (append_tools added tools)
    → Refines tools (append_tools added tools).value
unfolding append_tools
append_tools-Refines [] tools h = Refines-refl tools
append_tools-Refines ((t, e) ∷ rest) tools h =
    let m : Merged (Dict ToolEntry) = append_found t e tools (lookup t tools) in
    Refines-trans
      (append_found-Refines t e tools (lookup t tools) refl
        (bind-IsClean_left m (append_tools rest) h))
      (append_tools-Refines rest m.value (bind-IsClean_right m (append_tools rest) h))

-- A table is well formed if its entries are.
pub AllWellFormed-of_entries :
    (tools : Dict ToolEntry) → EntriesWellFormed tools → AllWellFormed tools
AllWellFormed-of_entries tools w = record { at_key = at tools w }
  where
    at :
        (d : Dict ToolEntry)
        → EntriesWellFormed d
        → (k : String) (e : ToolEntry) → lookup k d ≡ some e
        → IsWellFormed e
    at [] w k e h = cc (lookup-nil {V = ToolEntry} k)
    at ((t, d) ∷ rest) w k e h = elim (Bool-cases (str_eq t k)) [
      | inl same ↦ subst IsWellFormed (some_inj (rw same at (rw lookup-cons at h))) w.0
      | inr other ↦ at rest w.1 k e (rw other at (rw lookup-cons at h))
    ]
