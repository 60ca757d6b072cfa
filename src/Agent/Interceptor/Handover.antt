-- ===== src/Agent/Interceptor/Handover.antt =====
-- An authorization that was allowed waits for the execution of its call, which runs under it.
pub mod Steps
pub mod Quiet
pub mod Executes
use paybond_kit_python.Prelude.{
  ℕ, ◌-◌, ◌≤◌, String, ◌≡◌, refl, sym, ap, ◌∙◌, subst, Bool, true, false, Option, some, none, List,
  ◌∷◌, str_eq, if◌then◌else◌, inl, inr, Bool-cases,
}
use paybond_kit_python.Prelude.Text.{strip}
use paybond_kit_python.Prelude.Dict.{lookup}
use paybond_kit_python.Prelude.Outcome.{Outcome, raised, returned}
use paybond_kit_python.Agent.Registry.{resolve_tool}
use paybond_kit_python.Agent.Run.{Exc, TraceEvent, State, Run, Action}
use paybond_kit_python.Agent.Run.Hoare.{Holds, Ensures}
use paybond_kit_python.Agent.SpendGuard.{Harbor}
use paybond_kit_python.Agent.Interceptor.{Binding, CallOptions}
use paybond_kit_python.Agent.Interceptor.Session.{
  Session, intercept, begin_in_flight, end_in_flight, authorization_cache_key,
}
use paybond_kit_python.Agent.Interceptor.Authorize.{
  Clock, Decision, allow, allow_passthrough, deny, hold_for_approval, authorization_entry,
  authorize_named, authorize_tool_call,
}
use paybond_kit_python.Agent.Interceptor.Execute.{Services, ExecuteClock, WrapResult, Authorization}
use paybond_kit_python.Agent.Interceptor.Execute.Wrap.{execute_named, wrap_execute}
use paybond_kit_python.Agent.Interceptor.Handover.Steps.{
  Anything, IsWaiting, Waits, ResolvesTo, authorize_as-Ensures,
}
use paybond_kit_python.Agent.Interceptor.Handover.Quiet.{asked}
use paybond_kit_python.Agent.Interceptor.Handover.Executes.{UsesUp, Unasked, execute_as-Ensures}

abbrev ended : {W E R : Type 0} → State (Session W) E R → State (Session W) E R
ended t = record t { world = record t.world { in_flight_count = t.world.in_flight_count - 1 } }

-- What a method establishes, and the end of its call in flight keeps, holds of the whole.
intercept-Holds :
    {W E R A : Type 0} (Q : A → State (Session W) E R → Type 0) (X : State (Session W) E R → Type 0)
    (m : String → String → Run (Session W) E R A) (tool_name tool_call_id : String)
    (s : State (Session W) E R)
    → X s
    → ((a : A) (t : State (Session W) E R) → Q a t → Q a (ended t))
    → ((t : State (Session W) E R) → X t → X (ended t))
    → Holds Q X (m (strip tool_name) (strip tool_call_id) (begin_in_flight s))
    → Holds Q X (intercept m tool_name tool_call_id s)
unfolding intercept
intercept-Holds {W} {E} {R} {A} Q X m tool_name tool_call_id s at_start value exc h =
    elim (Bool-cases (str_eq (strip tool_name) "")) [
      | inl unnamed ↦ rw unnamed at_start
      | inr named ↦ elim (Bool-cases (str_eq (strip tool_call_id) "")) [
        | inl no_id ↦ rw (named, no_id) at_start
        | inr id ↦
            rw (named, id) (go (m (strip tool_name) (strip tool_call_id) (begin_in_flight s)) h)
      ]
    ]
  where
    go : (q : Outcome (Exc E) A × State (Session W) E R) → Holds Q X q → Holds Q X (end_in_flight q)
    go (returned a, t) h = value a t h
    go (raised e, t) h = exc t h

module _ {W E R Args : Type 0} (binding : Binding Args) (harbor : Harbor W E) (ttl : ℕ)
    (clock : Clock) (tool_name tool_call_id : String) (arguments : Args)
    (options : CallOptions) where
  -- the call that both methods find
  abbrev Found : Decision → State (Session W) E R → Type 0
  Found =
      Waits
        (ResolvesTo binding (strip tool_name) (strip tool_call_id) arguments options
          (resolve_tool binding.registry (strip tool_name) (some binding.allowed_tools)))
        binding.policy_digest clock (strip tool_name) (strip tool_call_id)

  ended-Found :
      (decision : Decision) (t : State (Session W) E R)
      → Found decision t
      → Found decision (ended t)
  ended-Found (allow operation audit_id decision_id digest) t h = h
  ended-Found (allow_passthrough operation) t h = tt
  ended-Found (deny message operation result) t h = tt
  ended-Found (hold_for_approval message operation result) t h = tt

  authorize_tool_call-Found :
      (on_trace : Option (TraceEvent → Action W E (Unit {0}))) (s : State (Session W) E R)
      → Holds Found Anything (
          authorize_tool_call binding harbor on_trace ttl clock tool_name tool_call_id arguments
            options s)
  unfolding authorize_tool_call
  authorize_tool_call-Found on_trace s =
      intercept-Holds Found Anything
        (authorize_named binding harbor on_trace ttl clock arguments options) tool_name tool_call_id
        s tt ended-Found (λ t _. tt)
        ((authorize_as-Ensures binding harbor on_trace ttl clock (strip tool_name)
            (strip tool_call_id) arguments options
            (resolve_tool binding.registry (strip tool_name) (some binding.allowed_tools))).holds
          (begin_in_flight s) tt)

-- Where `authorize_tool_call` returns that a registered tool is allowed, the execution of the same
-- call with the same arguments and options, from the state that it left and within the time to live,
-- asks Harbor no more, whatever it ends in; and where it returns, it reports the very authorization
-- that was decided, and that one waits no more.
pub authorize_tool_call-handed_over :
    {W E R Args P V A D : Type 0} (binding : Binding Args) (harbor : Harbor W E)
    (services : Services W E R Args P V A D) (ttl : ℕ) (clock : Clock)
    (execute_clock : ExecuteClock) (tool_name tool_call_id : String) (arguments : Args)
    (execute : Action W E R) (options : CallOptions) (s t : State (Session W) E R)
    (operation audit_id : String) (decision_id digest : Option String)
    → execute_clock.taken_at - clock.cached_at ≤ ttl
    → authorize_tool_call binding harbor services.on_trace ttl clock tool_name tool_call_id
        arguments options s
      ≡ (returned (allow operation audit_id decision_id digest), t)
    → Holds
        (λ result u.
          (result.authorization
            ≡ some
                (record { audit_id = audit_id; decision_id = decision_id; policy_digest = digest }))
          × (asked u.calls ≡ asked t.calls)
          × (lookup
                (authorization_cache_key (strip tool_call_id) operation)
                u.world.authorized_calls
              ≡ none))
        (λ u. asked u.calls ≡ asked t.calls)
        (wrap_execute binding harbor services ttl execute_clock tool_name tool_call_id arguments
          execute options t)
unfolding wrap_execute
authorize_tool_call-handed_over {W} {E} {R} {Args} {P} {V} {A} {D} binding harbor services ttl clock
      execute_clock tool_name tool_call_id arguments execute options s t operation audit_id
      decision_id digest fresh h =
    let w : IsWaiting
        (ResolvesTo binding (strip tool_name) (strip tool_call_id) arguments options
          (resolve_tool binding.registry (strip tool_name) (some binding.allowed_tools)))
        binding.policy_digest clock (strip tool_name) (strip tool_call_id) operation audit_id
        decision_id digest t.world.authorized_calls =
      subst
        (Holds
          (Found {W = W} {E = E} {R = R} binding harbor ttl clock tool_name tool_call_id arguments
            options)
          Anything)
        h
        (authorize_tool_call-Found binding harbor ttl clock tool_name tool_call_id arguments options
          services.on_trace s) in
    rw (← w.named, ← w.audited, ← w.decided, ← w.pinned)
      (intercept-Holds
        (UsesUp binding harbor services ttl (asked t.calls) t.world.authorized_calls clock
          execute_clock (strip tool_name) (strip tool_call_id) arguments execute w.auth
          (authorization_cache_key (strip tool_call_id) w.resolved.operation))
        (Unasked binding harbor services ttl (asked t.calls) t.world.authorized_calls clock
          execute_clock (strip tool_name) (strip tool_call_id) arguments execute w.auth)
        (execute_named binding harbor services ttl execute_clock arguments execute options)
        tool_name tool_call_id t refl (λ result u q. q) (λ u q. q)
        ((execute_as-Ensures binding harbor services ttl (asked t.calls) t.world.authorized_calls
            clock execute_clock (strip tool_name) (strip tool_call_id) arguments execute w.auth
            (resolve_tool binding.registry (strip tool_name) (some binding.allowed_tools)) options
            w.resolved w.resolves fresh w.found).holds
          (begin_in_flight t) (refl, refl)))
