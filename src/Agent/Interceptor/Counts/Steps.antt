-- ===== src/Agent/Interceptor/Counts/Steps.antt =====
-- What the steps of the interceptor do to the counts, whether they return or raise.
use paybond_kit_python.Prelude.{
  ℕ, String, ◌≡◌, refl, Option, some, none, List, ◌∷◌, arith, inl, inr, if◌then◌else◌,
}
use paybond_kit_python.Prelude.Outcome.{Outcome, raised, returned}
use paybond_kit_python.Agent.Run.{
  VerifyCapabilityResult, Exc, Call, verified, completed, traced, Finish, SpendRequest, TraceEvent,
  State, Run, Action, call, pure, raise, rescue, ◌>>=◌,
}
use paybond_kit_python.Agent.Run.Hoare.{
  Ensures, Holds, pure-Ensures, raise-Ensures, bind-Ensures, rescue-Ensures,
}
use paybond_kit_python.Agent.SpendGuard.{
  Harbor, check_allowed, complete_with, assert_spend_authorized, authorize_spend,
  complete_spend_authorization,
}
use paybond_kit_python.Agent.SpendGuard.Laws.{check_allowed-cases}
use paybond_kit_python.Agent.Interceptor.Session.{
  Session, within, finisher_within, harbor_within, emit_trace,
}
use paybond_kit_python.Agent.Interceptor.Counts.{runs, grants, Balanced}

-- a call that neither runs the tool nor grants a spend
abbrev pub IsNeutral : {E R : Type 0} → Call E R → Type 0
IsNeutral {E} {R} c =
    (calls : List (Call E R))
    → (runs (c ∷ calls) ≡ runs calls) × (grants (c ∷ calls) ≡ grants calls)

-- what Harbor's answer grants, before it is checked
abbrev granted_by : VerifyCapabilityResult → ℕ
granted_by result = if result.allow then 1 else 0

module _ {W E R : Type 0} (n : ℕ) where
  -- the states between the calls of a method, with `k` grants to spare
  abbrev pub Spare : ℕ → State (Session W) E R → Type 0
  Spare k s = Balanced k n s

  -- from `k` spare grants to `j`, and to none of them where the step raises
  abbrev pub Costs : {A : Type 0} → ℕ → ℕ → Run (Session W) E R A → Type 0
  Costs k j m = Ensures (Spare k) (λ _. Spare j) (Spare 0) m

  pub Spare-none : (k : ℕ) (s : State (Session W) E R) → Spare k s → Spare 0 s
  Spare-none k s b = record {
    paid = ground (arith, b.paid);
    counted = b.counted;
    never_ahead = b.never_ahead;
  }

  pub Spare-neutral :
      (k : ℕ) (s : State (Session W) E R) (w : W) (c : Call E R)
      → IsNeutral c
      → Spare k s
      → Spare k (record { world = record s.world { outer = w }; calls = c ∷ s.calls })
  Spare-neutral k s w c neutral b = record {
    paid = rw ((neutral s.calls).0, (neutral s.calls).1) b.paid;
    counted = b.counted;
    never_ahead =
        (rw ((neutral s.calls).0, (neutral s.calls).1) (ground (arith, b.paid)), b.never_ahead);
  }

  pub neutral-Costs :
      {A : Type 0} (k : ℕ) (note : Outcome (Exc E) A → Call E R) (act : Action W E A)
      → ((outcome : Outcome (Exc E) A) → IsNeutral (note outcome))
      → Costs k k (call note (within act))
  unfolding call
  neutral-Costs {A} k note act neutral = record { holds = λ s b. go s b (act s.world.outer) }
    where
      go :
          (s : State (Session W) E R)
          → Spare k s
          → (p : Outcome (Exc E) A × W)
          → Holds
              (λ _. Spare k)
              (Spare 0)
              (p.0, record { world = record s.world { outer = p.1 }; calls = note p.0 ∷ s.calls })
      go s b (returned a, w) = Spare-neutral k s w (note (returned a)) (neutral (returned a)) b
      go s b (raised exc, w) =
          Spare-none k _ (Spare-neutral k s w (note (raised exc)) (neutral (raised exc)) b)

  pub emit_trace-Costs :
      (k : ℕ) (sink : Option (TraceEvent → Action W E (Unit {0}))) (event : TraceEvent)
      → Costs k k (emit_trace sink event)
  unfolding emit_trace
  emit_trace-Costs k none event = pure-Ensures (Spare 0) (Spare k) (λ _. Spare k) tt (λ s b. b)
  emit_trace-Costs k (some sink) event =
      neutral-Costs k (traced event) (sink event) (λ outcome calls. (refl, refl))

  pub complete-Costs :
      (harbor : Harbor W E) (k : ℕ) (decision_id : String) (finish : Finish)
      → Costs k k (complete_spend_authorization (harbor_within harbor) decision_id finish)
  unfolding complete_spend_authorization
  complete-Costs harbor k decision_id finish = go harbor.complete_spend_decision
    where
      go :
          (o : Option (String → Finish → Action W E (Unit {0})))
          → Costs k k (complete_with (harbor_within harbor) (finisher_within o) decision_id finish)
      go none = raise-Ensures (Spare 0) (Spare k) (λ _. Spare k) _ (Spare-none k)
      go (some complete) =
          neutral-Costs k (completed decision_id finish) (complete decision_id finish)
            (λ outcome calls. (refl, refl))

  authorize_spend-Costs :
      (harbor : Harbor W E) (request : SpendRequest)
      → Ensures
          (Spare 0)
          (λ result. Spare (granted_by result))
          (Spare 0)
          (authorize_spend (harbor_within harbor) request)
  unfolding authorize_spend call
  authorize_spend-Costs harbor request = record {
    holds = λ s b. go s b (harbor.verify_capability request s.world.outer);
  }
    where
      go :
          (s : State (Session W) E R)
          → Spare 0 s
          → (p : Outcome (Exc E) VerifyCapabilityResult × W)
          → Holds
              (λ result. Spare (granted_by result))
              (Spare 0)
              (
                p.0,
                record {
                  world = record s.world { outer = p.1 };
                  calls = verified request p.0 ∷ s.calls;
                },
              )
      go s b (raised exc, w) =
          Spare-neutral 0 s w (verified request (raised exc)) (λ calls. (refl, refl)) b
      go s b (returned result, w) = record {
        paid = ground (arith, b.paid);
        counted = b.counted;
        never_ahead = (ground (arith, b.paid), b.never_ahead);
      }

  check_allowed-Costs :
      (harbor : Harbor W E) (result : VerifyCapabilityResult)
      → Ensures
          (Spare (granted_by result))
          (λ _. Spare 1)
          (Spare 0)
          (check_allowed (harbor_within harbor) result)
  check_allowed-Costs harbor result = record { holds = go }
    where
      go :
          (s : State (Session W) E R)
          → Spare (granted_by result) s
          → Holds (λ _. Spare 1) (Spare 0) (check_allowed (harbor_within harbor) result s)
      go s b = elim (check_allowed-cases (harbor_within harbor) result s) [
        | inl (granted, same) ↦ rw same (rw granted at b)
        | inr (exc, same) ↦ rw same (Spare-none (granted_by result) s b)
      ]

  -- Harbor's word is a grant to spare.
  pub assert_spend_authorized-Costs :
      (harbor : Harbor W E) (request : SpendRequest)
      → Costs 0 1 (assert_spend_authorized (harbor_within harbor) request)
  unfolding assert_spend_authorized
  assert_spend_authorized-Costs harbor request =
      bind-Ensures (Spare 0) (Spare 0) (λ result. Spare (granted_by result)) (λ _. Spare 1) _ _
        (authorize_spend-Costs harbor request) (check_allowed-Costs harbor)

  pub pure-Costs : {A : Type 0} (k : ℕ) (a : A) → Costs k k (pure a)
  pure-Costs k a = pure-Ensures (Spare 0) (Spare k) (λ _. Spare k) a (λ s b. b)

  pub raise-Costs : {A : Type 0} (k : ℕ) (exc : Exc E) → Costs k k (raise {A = A} exc)
  raise-Costs k exc = raise-Ensures (Spare 0) (Spare k) (λ _. Spare k) exc (Spare-none k)

  pub bind-Costs :
      {A B : Type 0} (k j l : ℕ) (m : Run (Session W) E R A) (next : A → Run (Session W) E R B)
      → Costs k j m
      → ((a : A) → Costs j l (next a))
      → Costs k l (m >>= next)
  bind-Costs k j l m next = bind-Ensures (Spare 0) (Spare k) (λ _. Spare j) (λ _. Spare l) m next

  -- What is rescued has no grant to spare at the end, whichever way it went.
  pub rescue-Costs :
      {A : Type 0} (k : ℕ) (m : Run (Session W) E R A) (handle : Exc E → Run (Session W) E R A)
      → Costs k 0 m
      → ((exc : Exc E) → Costs 0 0 (handle exc))
      → Costs k 0 (rescue m handle)
  rescue-Costs k m handle = rescue-Ensures (Spare 0) (Spare k) (λ _. Spare 0) m handle
