-- ===== src/Policy/Merge/Tools/Laws.antt =====
-- What a merge of tools without denials guarantees of each entry: no cap is raised, no
-- side-effecting tool is set free, and the entry is well formed.
use paybond_kit_python.Prelude.{
  ℕ, ◌≤◌, String, ◌≡◌, ◌⊎◌, Bool, true, Option, none, some, arith, truthy,
}
use paybond_kit_python.Policy.Schema.{ToolEntry, ToolOverride}
use paybond_kit_python.Policy.Merge.Report.{
  ◌>>=◌, IsClean, Keeps, Keeps-bind, Ensures, Ensures-bind,
}
use paybond_kit_python.Policy.Merge.Tools.{
  merge_side_effecting, merge_max_spend, merge_spend_from_args, merge_evidence_preset,
  merge_vendor_pack, merge_operation, require_preset, require_one_spend_field, merge_tool_fields,
}

-- A cap that is there stays, and does not grow.
abbrev pub CapWithin : Option ℕ → Option ℕ → Type 0
CapWithin none merged = Unit
CapWithin (some cap) none = ⊥
CapWithin (some cap) (some cents) = cents ≤ cap

pub record Tightens (base merged : ToolEntry) : Type 0 where
  pub still_guarded : base.side_effecting ≡ true → merged.side_effecting ≡ true
  pub within : CapWithin base.max_spend_cents merged.max_spend_cents

pub CapWithin-refl : (o : Option ℕ) → CapWithin o o
CapWithin-refl none = tt
CapWithin-refl (some c) = omega arith

pub CapWithin-trans : (a b c : Option ℕ) → CapWithin a b → CapWithin b c → CapWithin a c
CapWithin-trans none b c h k = tt
CapWithin-trans (some x) none c h k = absurd h
CapWithin-trans (some x) (some y) none h k = absurd k
CapWithin-trans (some x) (some y) (some z) h k = omega arith

pub Tightens-refl : (e : ToolEntry) → Tightens e e
Tightens-refl e = record { still_guarded = λ h. h; within = CapWithin-refl e.max_spend_cents }

pub Tightens-trans : {a b c : ToolEntry} → Tightens a b → Tightens b c → Tightens a c
Tightens-trans {a} {b} {c} h k = record {
  still_guarded = λ p. k.still_guarded (h.still_guarded p);
  within = CapWithin-trans a.max_spend_cents b.max_spend_cents c.max_spend_cents h.within k.within;
}

-- what a parsed entry satisfies, and every merged one
pub record IsWellFormed (e : ToolEntry) : Type 0 where
  pub has_preset : e.side_effecting ≡ true → truthy e.evidence_preset ≡ true
  pub one_spend_field : (e.max_spend_cents ≡ none) ⊎ (e.spend_from_args ≡ none)

module _ (base : ToolEntry) (t : String) where
  merge_side_effecting-Tightens :
      (o : Option Bool) → Keeps (Tightens base) (merge_side_effecting base t o)
  unfolding merge_side_effecting
  merge_side_effecting-Tightens none = record { at = λ m p h. p }
  merge_side_effecting-Tightens (some b) = record {
    at = λ m p h. record {
      still_guarded = ground (arith, p.still_guarded);
      within = ground (arith, p.within);
    };
  }

  merge_max_spend-Tightens : (o : Option ℕ) → Keeps (Tightens base) (merge_max_spend base t o)
  unfolding merge_max_spend
  merge_max_spend-Tightens none = record { at = λ m p h. p }
  merge_max_spend-Tightens (some cents) = record {
    at = λ m p h. record { still_guarded = ground (arith, p.still_guarded); within = ground arith };
  }

  merge_spend_from_args-Tightens :
      (o : Option String) → Keeps (Tightens base) (merge_spend_from_args base t o)
  unfolding merge_spend_from_args
  merge_spend_from_args-Tightens none = record { at = λ m p h. p }
  merge_spend_from_args-Tightens (some field) = record {
    at = λ m p h. record { still_guarded = ground (arith, p.still_guarded); within = ground arith };
  }

  merge_evidence_preset-Tightens :
      (o : Option String) → Keeps (Tightens base) (merge_evidence_preset base t o)
  unfolding merge_evidence_preset
  merge_evidence_preset-Tightens none = record { at = λ m p h. p }
  merge_evidence_preset-Tightens (some preset) = record {
    at = λ m p h. record {
      still_guarded = ground (arith, p.still_guarded);
      within = ground (arith, p.within);
    };
  }

  merge_vendor_pack-Tightens :
      (o : Option String) → Keeps (Tightens base) (merge_vendor_pack base t o)
  unfolding merge_vendor_pack
  merge_vendor_pack-Tightens none = record { at = λ m p h. p }
  merge_vendor_pack-Tightens (some pack) = record {
    at = λ m p h. record { still_guarded = p.still_guarded; within = p.within };
  }

  merge_operation-Tightens : (o : Option String) → Keeps (Tightens base) (merge_operation base t o)
  unfolding merge_operation
  merge_operation-Tightens none = record { at = λ m p h. p }
  merge_operation-Tightens (some op) = record {
    at = λ m p h. record { still_guarded = p.still_guarded; within = p.within };
  }

  require_preset_lem : (m : ToolEntry) → (require_preset base t m).value ≡ m
  unfolding require_preset
  require_preset_lem m = ground arith

  require_one_spend_field_lem : (m : ToolEntry) → (require_one_spend_field base t m).value ≡ m
  unfolding require_one_spend_field
  require_one_spend_field_lem m = ground arith

  require_preset-Keeps : (P : ToolEntry → Type 0) → Keeps P (require_preset base t)
  require_preset-Keeps P = record { at = λ m p h. rw require_preset_lem p }

  require_one_spend_field-Keeps :
      (P : ToolEntry → Type 0) → Keeps P (require_one_spend_field base t)
  require_one_spend_field-Keeps P = record { at = λ m p h. rw require_one_spend_field_lem p }

-- The steps keep what each of them keeps.
merge_steps :
    (base : ToolEntry) (patch : ToolOverride) (t : String) (P : ToolEntry → Type 0)
    → Keeps P (merge_side_effecting base t patch.side_effecting)
    → Keeps P (merge_max_spend base t patch.max_spend_cents)
    → Keeps P (merge_spend_from_args base t patch.spend_from_args)
    → Keeps P (merge_evidence_preset base t patch.evidence_preset)
    → Keeps P (merge_vendor_pack base t patch.vendor_pack)
    → Keeps P (merge_operation base t patch.operation)
    → P base
    → IsClean (merge_tool_fields base patch t)
    → P (merge_tool_fields base patch t).value
unfolding merge_tool_fields
merge_steps base patch t P a b c d e f =
    (Keeps-bind a (
        Keeps-bind b (
          Keeps-bind c (
            Keeps-bind d (
              Keeps-bind e (
                Keeps-bind f (
                  Keeps-bind (require_preset-Keeps base t P)
                    (require_one_spend_field-Keeps base t P)))))))).at
      base

-- Without denials, the merged entry of a tool keeps the base's guard and its spend cap.
pub merge_tool_fields-Tightens :
    (base : ToolEntry) (patch : ToolOverride) (t : String)
    → IsClean (merge_tool_fields base patch t)
    → Tightens base (merge_tool_fields base patch t).value
merge_tool_fields-Tightens base patch t =
    merge_steps base patch t (Tightens base)
      (merge_side_effecting-Tightens base t patch.side_effecting)
      (merge_max_spend-Tightens base t patch.max_spend_cents)
      (merge_spend_from_args-Tightens base t patch.spend_from_args)
      (merge_evidence_preset-Tightens base t patch.evidence_preset)
      (merge_vendor_pack-Tightens base t patch.vendor_pack)
      (merge_operation-Tightens base t patch.operation) (Tightens-refl base)

require_tail-IsWellFormed :
    (base : ToolEntry) (t : String)
    → Ensures IsWellFormed (λ m. require_preset base t m >>= require_one_spend_field base t)
unfolding require_preset require_one_spend_field
require_tail-IsWellFormed base t = record {
  at = λ m h. record { has_preset = ground arith; one_spend_field = ground arith };
}

-- Without denials, the merged entry declares a preset if it is side-effecting, and one spend field
-- at most.
pub merge_tool_fields-IsWellFormed :
    (base : ToolEntry) (patch : ToolOverride) (t : String)
    → IsClean (merge_tool_fields base patch t)
    → IsWellFormed (merge_tool_fields base patch t).value
unfolding merge_tool_fields
merge_tool_fields-IsWellFormed base patch t =
    (Ensures-bind (merge_side_effecting base t patch.side_effecting) (
        Ensures-bind (merge_max_spend base t patch.max_spend_cents) (
          Ensures-bind (merge_spend_from_args base t patch.spend_from_args) (
            Ensures-bind (merge_evidence_preset base t patch.evidence_preset) (
              Ensures-bind (merge_vendor_pack base t patch.vendor_pack) (
                Ensures-bind (merge_operation base t patch.operation)
                  (require_tail-IsWellFormed base t))))))).at
      base
