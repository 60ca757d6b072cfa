-- ===== src/Agent/Interceptor/Handover/Steps.antt =====
-- What the steps of `authorize_tool_call` promise of the cache.
use paybond_kit_python.Prelude.{ℕ, String, ◌≡◌, refl, Option, some, none, ◌∷◌, eq_refl}
use paybond_kit_python.Prelude.Dict.{lookup, lookup-insert}
use paybond_kit_python.Prelude.Outcome.{Outcome, raised, returned}
use paybond_kit_python.Agent.AuthorizationCache.{evict_expired_authorization_cache}
use paybond_kit_python.Agent.Registry.{Resolution, passthrough, side_effecting, denied}
use paybond_kit_python.Agent.Run.{
  VerifyCapabilityResult, Exc, spend_authorized, spend_denied, approval_needed, tool_selected,
  traced, approval_required_error, spend_denied_error, finalization_unavailable, empty_argument,
  unregistered_tool, operation_refused, evidence_submit_error, other, TraceEvent, State, Run,
  Action, call, pure, ◌>>=◌,
}
use paybond_kit_python.Agent.Run.Hoare.{Ensures, Holds, pure-Ensures, bind-Ensures}
use paybond_kit_python.Agent.SpendGuard.{Harbor, assert_spend_authorized}
use paybond_kit_python.Agent.Interceptor.{
  Binding, CallOptions, ResolvedCall, OperationError, operation_not_allowed,
  resolve_side_effecting_call,
}
use paybond_kit_python.Agent.Interceptor.Session.{
  Session, Authorizations, harbor_within, authorization_cache_key, emit_trace,
}
use paybond_kit_python.Agent.Interceptor.Authorize.{
  Clock, Decision, authorization_entry, message_of, allow, deny, hold_for_approval, remember,
  on_authorized, on_refused, on_answer, ask, authorize_resolved, authorize_as, allow_passthrough,
}

-- What a resolution of the tool makes of a call with these arguments and options.
abbrev pub ResolvesTo :
    {Args : Type 0}
    → Binding Args
    → String
    → String
    → Args
    → CallOptions
    → Resolution Args
    → ResolvedCall Args
    → Type 0
ResolvesTo binding tool_name tool_call_id arguments options (side_effecting _ operation entry)
      resolved =
    resolve_side_effecting_call binding tool_name tool_call_id arguments entry operation options
    ≡ returned resolved
ResolvesTo binding tool_name tool_call_id arguments options (passthrough _) resolved = ⊥
ResolvesTo binding tool_name tool_call_id arguments options (denied _ _) resolved = ⊥

-- The entry that authorizing a call at the clock's readings makes for it, and the decision names:
-- `Resolves` says which call it is.
pub record IsWaiting {Args : Type 0} (Resolves : ResolvedCall Args → Type 0)
    (pinned_digest : Option String) (clock : Clock)
    (tool_name tool_call_id operation audit_id : String) (decision_id digest : Option String)
    (cache : Authorizations) : Type 0 where
  pub resolved : ResolvedCall Args
  pub resolves : Resolves resolved
  pub named : resolved.operation ≡ operation
  pub auth : VerifyCapabilityResult
  pub found :
      lookup (authorization_cache_key tool_call_id resolved.operation) cache
      ≡ some (authorization_entry pinned_digest clock tool_name resolved auth)
  pub audited : auth.audit_id ≡ audit_id
  pub decided : auth.decision_id ≡ decision_id
  pub pinned : pinned_digest ≡ digest

-- A decision to allow a registered tool leaves such an entry.
abbrev pub Waits :
    {W E R Args : Type 0}
    → (ResolvedCall Args → Type 0)
    → Option String
    → Clock
    → String
    → String
    → Decision
    → State (Session W) E R
    → Type 0
Waits Resolves pinned_digest clock tool_name tool_call_id
      (allow operation audit_id decision_id digest) s =
    IsWaiting Resolves pinned_digest clock tool_name tool_call_id operation audit_id decision_id
      digest s.world.authorized_calls
Waits Resolves pinned_digest clock tool_name tool_call_id (allow_passthrough operation) s = Unit
Waits Resolves pinned_digest clock tool_name tool_call_id (deny message operation result) s = Unit
Waits Resolves pinned_digest clock tool_name tool_call_id
      (hold_for_approval message operation result) s =
    Unit

module _ {W E R : Type 0} where
  abbrev pub Anything : State (Session W) E R → Type 0
  Anything s = Unit

  emit_trace-Ensures :
      (P : Authorizations → Type 0) (sink : Option (TraceEvent → Action W E (Unit {0})))
      (event : TraceEvent)
      → Ensures {W = Session W} {E = E} {R = R}
          (λ s. P s.world.authorized_calls)
          (λ _ s. P s.world.authorized_calls)
          Anything
          (emit_trace sink event)
  unfolding emit_trace call
  emit_trace-Ensures P none event = record { holds = λ s p. p }
  emit_trace-Ensures P (some sink) event = record {
    holds = λ s p. go s p (sink event s.world.outer);
  }
    where
      go :
          (s : State (Session W) E R)
          → P s.world.authorized_calls
          → (q : Outcome (Exc E) (Unit {0}) × W)
          → Holds
              (λ _ (t : State (Session W) E R). P t.world.authorized_calls)
              Anything
              (
                q.0,
                record {
                  world = record s.world { outer = q.1 };
                  calls = traced event q.0 ∷ s.calls;
                },
              )
      go s p (returned u, w) = p
      go s p (raised exc, w) = tt

-- The entry that `remember` makes for the call stands in the cache.
abbrev EntryStands :
    {Args : Type 0}
    → Option String
    → Clock
    → String
    → String
    → ResolvedCall Args
    → VerifyCapabilityResult
    → Authorizations
    → Type 0
EntryStands pinned_digest clock tool_name tool_call_id resolved auth cache =
    lookup (authorization_cache_key tool_call_id resolved.operation) cache
    ≡ some (authorization_entry pinned_digest clock tool_name resolved auth)

module _ {W E R Args : Type 0} (binding : Binding Args) (harbor : Harbor W E)
    (on_trace : Option (TraceEvent → Action W E (Unit {0}))) (ttl : ℕ) (clock : Clock)
    (tool_name tool_call_id : String) (Resolves : ResolvedCall Args → Type 0) where
  abbrev Promised : Run (Session W) E R Decision → Type 0
  Promised m =
      Ensures Anything (Waits Resolves binding.policy_digest clock tool_name tool_call_id) Anything
        m

  remember-EntryStands :
      (resolved : ResolvedCall Args) (auth : VerifyCapabilityResult)
      → Ensures {W = Session W} {E = E} {R = R} Anything
          (λ _ s.
            EntryStands binding.policy_digest clock tool_name tool_call_id resolved auth
              s.world.authorized_calls)
          Anything
          (remember binding harbor on_trace ttl clock tool_name tool_call_id resolved auth)
  unfolding remember
  remember-EntryStands resolved auth = record {
    holds = λ s p.
        let key = authorization_cache_key tool_call_id resolved.operation in
        rw
          (
            lookup-insert key key
                (authorization_entry binding.policy_digest clock tool_name resolved auth)
                (evict_expired_authorization_cache ttl clock.evicted_at s.world.authorized_calls),
            eq_refl key,
          )
          refl;
  }

  on_authorized-Promised :
      (resolved : ResolvedCall Args) (auth : VerifyCapabilityResult)
      → Resolves resolved
      → Promised
          (on_authorized binding harbor on_trace ttl clock tool_name tool_call_id resolved auth)
  unfolding on_authorized
  on_authorized-Promised resolved auth is =
      bind-Ensures Anything Anything
        (λ _ s.
          EntryStands binding.policy_digest clock tool_name tool_call_id resolved auth
            s.world.authorized_calls)
        _ (remember binding harbor on_trace ttl clock tool_name tool_call_id resolved auth) _
        (remember-EntryStands resolved auth)
        (λ _.
          bind-Ensures Anything
            (λ s.
              EntryStands binding.policy_digest clock tool_name tool_call_id resolved auth
                s.world.authorized_calls)
            (λ _ s.
              EntryStands binding.policy_digest clock tool_name tool_call_id resolved auth
                s.world.authorized_calls)
            _
            (emit_trace on_trace (
              spend_authorized tool_call_id resolved.operation auth resolved.requested_spend_cents))
            _
            (emit_trace-Ensures
              (EntryStands binding.policy_digest clock tool_name tool_call_id resolved auth)
              on_trace
              (spend_authorized tool_call_id resolved.operation auth
                resolved.requested_spend_cents))
            (λ _.
              pure-Ensures Anything
                (λ s.
                  EntryStands binding.policy_digest clock tool_name tool_call_id resolved auth
                    s.world.authorized_calls)
                _ (allow resolved.operation auth.audit_id auth.decision_id binding.policy_digest)
                (λ s found. record {
                  resolved = resolved;
                  resolves = is;
                  named = refl;
                  auth = auth;
                  found = found;
                  audited = refl;
                  decided = refl;
                  pinned = refl;
                })))

  -- A decision after a trace, which promises no entry.
  refusal-Promised :
      (event : TraceEvent) (decision : Decision)
      → ((s : State (Session W) E R)
          → Waits Resolves binding.policy_digest clock tool_name tool_call_id decision s)
      → Promised (emit_trace on_trace event >>= λ _. pure decision)
  refusal-Promised event decision h =
      bind-Ensures Anything Anything (λ _. Anything) _ (emit_trace on_trace event) _
        (emit_trace-Ensures (λ _. Unit) on_trace event)
        (λ _. pure-Ensures Anything Anything _ decision (λ s _. h s))

  on_refused-Promised :
      (resolved : ResolvedCall Args) (exc : Exc E)
      → Promised (on_refused binding harbor on_trace ttl tool_call_id resolved exc)
  unfolding on_refused
  on_refused-Promised resolved (approval_required_error result) =
      refusal-Promised (approval_needed tool_call_id resolved.operation result)
        (hold_for_approval (message_of result) resolved.operation result) (λ s. tt)
  on_refused-Promised resolved (spend_denied_error result) =
      refusal-Promised (spend_denied tool_call_id resolved.operation result)
        (deny (message_of result) resolved.operation (some result)) (λ s. tt)
  on_refused-Promised resolved finalization_unavailable = record { holds = λ s _. tt }
  on_refused-Promised resolved (empty_argument which) = record { holds = λ s _. tt }
  on_refused-Promised resolved (unregistered_tool tool operation) = record { holds = λ s _. tt }
  on_refused-Promised resolved (operation_refused operation) = record { holds = λ s _. tt }
  on_refused-Promised resolved evidence_submit_error = record { holds = λ s _. tt }
  on_refused-Promised resolved (other is_caught e) = record { holds = λ s _. tt }

  ask-Promised :
      (resolved : ResolvedCall Args)
      → Resolves resolved
      → Promised (ask binding harbor on_trace ttl clock tool_name tool_call_id resolved)
  unfolding ask on_answer
  ask-Promised resolved is = record {
    holds = λ s _. go (assert_spend_authorized (harbor_within harbor) resolved.auth_kwargs s);
  }
    where
      go :
          (q : Outcome (Exc E) VerifyCapabilityResult × State (Session W) E R)
          → Holds
              (Waits Resolves binding.policy_digest clock tool_name tool_call_id)
              Anything
              (on_answer binding harbor on_trace ttl clock tool_name tool_call_id resolved q)
      go (returned auth, t) = (on_authorized-Promised resolved auth is).holds t tt
      go (raised exc, t) = (on_refused-Promised resolved exc).holds t tt

  authorize_resolved-Promised :
      (operation : String) (o : Outcome OperationError (ResolvedCall Args))
      → ((resolved : ResolvedCall Args) → o ≡ returned resolved → Resolves resolved)
      → Promised
          (authorize_resolved binding harbor on_trace ttl clock tool_name tool_call_id operation o)
  unfolding authorize_resolved
  authorize_resolved-Promised operation (returned resolved) is =
      bind-Ensures Anything Anything (λ _. Anything) _
        (emit_trace on_trace (tool_selected tool_name tool_call_id resolved.operation)) _
        (emit_trace-Ensures (λ _. Unit) on_trace
          (tool_selected tool_name tool_call_id resolved.operation))
        (λ _. ask-Promised resolved (is resolved refl))
  authorize_resolved-Promised operation (raised (operation_not_allowed refused)) is = record {
    holds = λ s _. tt;
  }

module _ {W E R Args : Type 0} (binding : Binding Args) (harbor : Harbor W E)
    (on_trace : Option (TraceEvent → Action W E (Unit {0}))) (ttl : ℕ) (clock : Clock)
    (tool_name tool_call_id : String) (arguments : Args) (options : CallOptions) where
  pub authorize_as-Ensures :
      (resolution : Resolution Args)
      → Ensures Anything
          (Waits
            (ResolvesTo binding tool_name tool_call_id arguments options resolution)
            binding.policy_digest
            clock
            tool_name
            tool_call_id)
          Anything
          (authorize_as {R = R} binding harbor on_trace ttl clock arguments options tool_name
            tool_call_id resolution)
  unfolding authorize_as
  authorize_as-Ensures (passthrough _) = record { holds = λ s _. tt }
  authorize_as-Ensures (denied tool operation) = record { holds = λ s _. tt }
  authorize_as-Ensures (side_effecting name operation entry) =
      authorize_resolved-Promised binding harbor on_trace ttl clock tool_name tool_call_id
        (ResolvesTo binding tool_name tool_call_id arguments options
          (side_effecting name operation entry))
        operation
        (resolve_side_effecting_call binding tool_name tool_call_id arguments entry operation
          options)
        (λ resolved e. e)
