-- ===== src/Agent/Interceptor/Counts/Authorizes.antt =====
-- What `authorize_tool_call` does to the counts.
use paybond_kit_python.Prelude.{ℕ, ◌+◌, String, Option, some, arith, str_eq, inl, inr, Bool-cases}
use paybond_kit_python.Prelude.Text.{strip}
use paybond_kit_python.Prelude.Eviction.{keys_where}
use paybond_kit_python.Prelude.Outcome.{Outcome, raised, returned}
use paybond_kit_python.Agent.AuthorizationCache.{is_expired, evict_expired_authorization_cache}
use paybond_kit_python.Agent.Registry.{
  Resolution, passthrough, side_effecting, denied, resolve_tool,
}
use paybond_kit_python.Agent.Run.{
  VerifyCapabilityResult, Exc, spend_authorized, spend_denied, approval_needed, tool_selected,
  approval_required_error, spend_denied_error, finalization_unavailable, empty_argument,
  unregistered_tool, operation_refused, evidence_submit_error, other, TraceEvent, State, Run,
  Action,
}
use paybond_kit_python.Agent.Run.Hoare.{Holds}
use paybond_kit_python.Agent.SpendGuard.{Harbor, assert_spend_authorized}
use paybond_kit_python.Agent.Interceptor.{
  Binding, CallOptions, ResolvedCall, OperationError, operation_not_allowed,
  resolve_side_effecting_call,
}
use paybond_kit_python.Agent.Interceptor.Session.{
  Session, harbor_within, intercept, in_flight, begin_in_flight, end_in_flight,
  authorization_cache_key,
}
use paybond_kit_python.Agent.Interceptor.Authorize.{
  Clock, authorization_entry, message_of, allow, deny, hold_for_approval, remember, on_authorized,
  on_refused, on_answer, ask, authorize_resolved, authorize_as, authorize_named,
  authorize_tool_call,
}
use paybond_kit_python.Agent.Interceptor.Counts.{Balanced, length-insert, length-remove_all}
use paybond_kit_python.Agent.Interceptor.Counts.Steps.{
  Spare, Costs, emit_trace-Costs, pure-Costs, raise-Costs, bind-Costs,
  assert_spend_authorized-Costs,
}

-- A method that balances its counts with its own call in flight balances them as a whole.
module _ {W E R A : Type 0} (n : ℕ) where
  pub in_flight-Balanced :
      (m : Run (Session W) E R A)
      → Costs (n + 1) 0 0 m
      → (s : State (Session W) E R) → Balanced 0 n s
      → Balanced 0 n ((in_flight m s).1)
  in_flight-Balanced m c s b = ended (m (begin_in_flight s)) (c.holds (begin_in_flight s) begun)
    where
      begun : Balanced 0 (n + 1) (begin_in_flight s)
      begun = record {
        paid = b.paid;
        counted = ground (arith, b.counted);
        never_ahead = b.never_ahead;
      }

      ended :
          (p : Outcome (Exc E) A × State (Session W) E R)
          → Holds (λ _. Spare (n + 1) 0) (Spare (n + 1) 0) p
          → Balanced 0 n ((end_in_flight p).1)
      ended (returned a, t) h = record {
        paid = h.paid;
        counted = ground (arith, h.counted);
        never_ahead = h.never_ahead;
      }
      ended (raised exc, t) h = record {
        paid = h.paid;
        counted = ground (arith, h.counted);
        never_ahead = h.never_ahead;
      }

  pub intercept-Balanced :
      (m : String → String → Run (Session W) E R A) (tool_name tool_call_id : String)
      → Costs (n + 1) 0 0 (m (strip tool_name) (strip tool_call_id))
      → (s : State (Session W) E R) → Balanced 0 n s
      → Balanced 0 n ((intercept m tool_name tool_call_id s).1)
  unfolding intercept
  intercept-Balanced m tool_name tool_call_id c s b =
      elim (Bool-cases (str_eq (strip tool_name) "")) [
        | inl unnamed ↦ rw unnamed b
        | inr named ↦ elim (Bool-cases (str_eq (strip tool_call_id) "")) [
          | inl no_id ↦ rw (named, no_id) b
          | inr id ↦
              rw (named, id) (in_flight-Balanced (m (strip tool_name) (strip tool_call_id)) c s b)
        ]
      ]

module _ {W E R Args : Type 0} (binding : Binding Args) (harbor : Harbor W E)
    (on_trace : Option (TraceEvent → Action W E (Unit {0}))) (ttl n : ℕ) where
  -- The entry takes up the grant.
  remember-Costs :
      (clock : Clock) (tool_name tool_call_id : String) (resolved : ResolvedCall Args)
      (auth : VerifyCapabilityResult)
      → Costs {W = W} {E = E} {R = R} n 1 0
          (remember binding harbor on_trace ttl clock tool_name tool_call_id resolved auth)
  unfolding remember evict_expired_authorization_cache
  remember-Costs clock tool_name tool_call_id resolved auth = record {
    holds = λ s b. record {
      paid = ground (
        arith,
        b.paid,
        length-remove_all (keys_where (is_expired ttl clock.evicted_at) s.world.authorized_calls)
            s.world.authorized_calls,
        length-insert (authorization_cache_key tool_call_id resolved.operation)
            (authorization_entry binding.policy_digest clock tool_name resolved auth)
            (evict_expired_authorization_cache ttl clock.evicted_at s.world.authorized_calls),
      );
      counted = b.counted;
      never_ahead = b.never_ahead;
    };
  }

  on_authorized-Costs :
      (clock : Clock) (tool_name tool_call_id : String) (resolved : ResolvedCall Args)
      (auth : VerifyCapabilityResult)
      → Costs {W = W} {E = E} {R = R} n 1 0
          (on_authorized binding harbor on_trace ttl clock tool_name tool_call_id resolved auth)
  unfolding on_authorized
  on_authorized-Costs clock tool_name tool_call_id resolved auth =
      bind-Costs n 1 0 0 _ _ (remember-Costs clock tool_name tool_call_id resolved auth) (λ _.
        bind-Costs n 0 0 0 _ _
          (emit_trace-Costs n 0 on_trace
            (spend_authorized tool_call_id resolved.operation auth resolved.requested_spend_cents))
          (λ _.
            pure-Costs n 0
              (allow resolved.operation auth.audit_id auth.decision_id binding.policy_digest)))

  on_refused-Costs :
      (tool_call_id : String) (resolved : ResolvedCall Args) (exc : Exc E)
      → Costs {W = W} {E = E} {R = R} n 0 0
          (on_refused binding harbor on_trace ttl tool_call_id resolved exc)
  unfolding on_refused
  on_refused-Costs tool_call_id resolved (approval_required_error result) =
      bind-Costs n 0 0 0 _ _
        (emit_trace-Costs n 0 on_trace (approval_needed tool_call_id resolved.operation result))
        (λ _. pure-Costs n 0 (hold_for_approval (message_of result) resolved.operation result))
  on_refused-Costs tool_call_id resolved (spend_denied_error result) =
      bind-Costs n 0 0 0 _ _
        (emit_trace-Costs n 0 on_trace (spend_denied tool_call_id resolved.operation result))
        (λ _. pure-Costs n 0 (deny (message_of result) resolved.operation (some result)))
  on_refused-Costs tool_call_id resolved finalization_unavailable = raise-Costs n 0 _
  on_refused-Costs tool_call_id resolved (empty_argument which) = raise-Costs n 0 _
  on_refused-Costs tool_call_id resolved (unregistered_tool tool operation) = raise-Costs n 0 _
  on_refused-Costs tool_call_id resolved (operation_refused operation) = raise-Costs n 0 _
  on_refused-Costs tool_call_id resolved evidence_submit_error = raise-Costs n 0 _
  on_refused-Costs tool_call_id resolved (other is_caught e) = raise-Costs n 0 _

  ask-Costs :
      (clock : Clock) (tool_name tool_call_id : String) (resolved : ResolvedCall Args)
      → Costs {W = W} {E = E} {R = R} n 0 0
          (ask binding harbor on_trace ttl clock tool_name tool_call_id resolved)
  unfolding ask on_answer
  ask-Costs clock tool_name tool_call_id resolved = record {
    holds = λ s b.
        go (assert_spend_authorized (harbor_within harbor) resolved.auth_kwargs s)
          ((assert_spend_authorized-Costs n harbor resolved.auth_kwargs).holds s b);
  }
    where
      go :
          (p : Outcome (Exc E) VerifyCapabilityResult × State (Session W) E R)
          → Holds (λ _. Spare n 1) (Spare n 0) p
          → Holds
              (λ _. Spare n 0)
              (Spare n 0)
              (on_answer binding harbor on_trace ttl clock tool_name tool_call_id resolved p)
      go (returned auth, t) h =
          (on_authorized-Costs clock tool_name tool_call_id resolved auth).holds t h
      go (raised exc, t) h = (on_refused-Costs tool_call_id resolved exc).holds t h

  authorize_as-Costs :
      (clock : Clock) (arguments : Args) (options : CallOptions) (tool_name tool_call_id : String)
      (resolution : Resolution Args)
      → Costs {W = W} {E = E} {R = R} n 0 0 (
          authorize_as binding harbor on_trace ttl clock arguments options tool_name tool_call_id
            resolution)
  unfolding authorize_as authorize_resolved
  authorize_as-Costs clock arguments options tool_name tool_call_id (passthrough _) =
      pure-Costs n 0 _
  authorize_as-Costs clock arguments options tool_name tool_call_id (denied tool operation) =
      pure-Costs n 0 _
  authorize_as-Costs clock arguments options tool_name tool_call_id
        (side_effecting _ operation entry) =
      go (
        resolve_side_effecting_call binding tool_name tool_call_id arguments entry operation
          options)
    where
      go :
          (o : Outcome OperationError (ResolvedCall Args))
          → Costs {W = W} {E = E} {R = R} n 0 0 (
              authorize_resolved binding harbor on_trace ttl clock tool_name tool_call_id operation
                o)
      go (returned resolved) =
          bind-Costs n 0 0 0 _ _
            (emit_trace-Costs n 0 on_trace
              (tool_selected tool_name tool_call_id resolved.operation))
            (λ _. ask-Costs clock tool_name tool_call_id resolved)
      go (raised (operation_not_allowed refused)) = pure-Costs n 0 _

pub authorize_tool_call-Balanced :
    {W E R Args : Type 0} (binding : Binding Args) (harbor : Harbor W E)
    (on_trace : Option (TraceEvent → Action W E (Unit {0}))) (ttl n : ℕ) (clock : Clock)
    (tool_name tool_call_id : String) (arguments : Args) (options : CallOptions)
    (s : State (Session W) E R)
    → Balanced 0 n s
    → Balanced 0 n (
        (authorize_tool_call binding harbor on_trace ttl clock tool_name tool_call_id arguments
          options s).1)
unfolding authorize_tool_call
authorize_tool_call-Balanced binding harbor on_trace ttl n clock tool_name tool_call_id arguments
      options =
    intercept-Balanced n (authorize_named binding harbor on_trace ttl clock arguments options)
      tool_name tool_call_id
      (authorize_as-Costs binding harbor on_trace ttl (n + 1) clock arguments options
        (strip tool_name) (strip tool_call_id)
        (resolve_tool binding.registry (strip tool_name) (some binding.allowed_tools)))
