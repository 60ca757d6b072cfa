-- ===== src/Agent/Interceptor/Handover/Executes.antt =====
-- An execution whose authorization waits runs under that one.
use paybond_kit_python.Prelude.{
  ℕ, ◌-◌, ◌≤◌, String, ◌≡◌, refl, ap, Option, some, none, eq_refl, or_text, arith,
}
use paybond_kit_python.Prelude.Dict.{lookup, remove, lookup-remove}
use paybond_kit_python.Agent.AuthorizationCache.{
  CachedAuthorization, Expectation, take_valid_cached_authorization,
}
use paybond_kit_python.Agent.AuthorizationCache.Laws.{Serves, take-iff_Serves}
use paybond_kit_python.Agent.Registry.{Resolution, passthrough, side_effecting, denied}
use paybond_kit_python.Agent.Run.{VerifyCapabilityResult, tool_selected, State, Action, ◌>>=◌}
use paybond_kit_python.Agent.Run.Hoare.{Ensures, bind-Ensures, weaken-Ensures}
use paybond_kit_python.Agent.SpendGuard.{Harbor}
use paybond_kit_python.Agent.Interceptor.{Binding, CallOptions, ResolvedCall}
use paybond_kit_python.Agent.Interceptor.Session.{
  Session, Authorizations, authorization_cache_key, emit_trace,
}
use paybond_kit_python.Agent.Interceptor.Authorize.{Clock, authorization_entry}
use paybond_kit_python.Agent.Interceptor.Execute.{
  Services, ExecuteClock, ToolCallContext, WrapResult, digest_or, take_cached, obtain, run_tool,
  report,
}
use paybond_kit_python.Agent.Interceptor.Execute.Wrap.{execute_call, execute_resolved, execute_as}
use paybond_kit_python.Agent.Interceptor.Handover.Steps.{ResolvesTo}
use paybond_kit_python.Agent.Interceptor.Handover.Quiet.{
  asked, Quiet, emit_trace-Stays, run_tool-Stays, Reports, report-Reports,
}

module _ {W E R Args P V A D : Type 0} (binding : Binding Args) (harbor : Harbor W E)
    (services : Services W E R Args P V A D) (ttl k : ℕ) (cache : Authorizations) (made : Clock)
    (clock : ExecuteClock) (tool_name tool_call_id : String) (arguments : Args)
    (execute : Action W E R) (auth : VerifyCapabilityResult) where
  -- The execution reports the authorization, which no longer waits, and Harbor was not asked again.
  abbrev pub UsesUp : String → WrapResult R V D → State (Session W) E R → Type 0
  UsesUp key result s =
      (result.authorization
        ≡ some (record {
          audit_id = auth.audit_id;
          decision_id = auth.decision_id;
          policy_digest = binding.policy_digest;
        }))
      × (asked s.calls ≡ k)
      × (lookup key s.world.authorized_calls ≡ none)

  abbrev pub Unasked : State (Session W) E R → Type 0
  Unasked s = asked s.calls ≡ k

  module _ (resolved : ResolvedCall Args) where
    abbrev entry : CachedAuthorization VerifyCapabilityResult
    entry = authorization_entry binding.policy_digest made tool_name resolved auth

    abbrev key : String
    key = authorization_cache_key tool_call_id resolved.operation

    abbrev expected : Expectation
    expected = record {
      operation = resolved.operation;
      requested_spend_cents = resolved.requested_spend_cents;
      tool_name = tool_name;
    }

    entry-Serves : clock.taken_at - made.cached_at ≤ ttl → Serves ttl clock.taken_at expected entry
    entry-Serves fresh = record {
      fresh = fresh;
      same_operation = refl;
      same_spend = refl;
      same_tool = refl;
    }

    -- The take returns the entry that waits, and the cache without it.
    take_cached-Ensures :
        clock.taken_at - made.cached_at ≤ ttl
        → lookup key cache ≡ some entry
        → Ensures {W = Session W} {E = E} {R = R}
            (Quiet k cache)
            (λ o s. (o ≡ some entry) × Quiet k (remove key cache) s)
            Unasked
            (take_cached binding harbor services ttl clock.taken_at key expected)
    unfolding take_cached take_valid_cached_authorization
    take_cached-Ensures fresh found = record {
      holds = λ s q. (
        (take-iff_Serves ttl clock.taken_at s.world.authorized_calls key expected entry).1
            (rw q.1 found, entry-Serves fresh),
        (q.0, ap (remove key) q.1),
      );
    }

    abbrev context : ToolCallContext Args
    context = record {
      tool_name = tool_name;
      tool_call_id = tool_call_id;
      operation = resolved.operation;
      arguments = arguments;
    }

    -- The run of the tool and the report, under the entry that was taken.
    under_entry-Ensures :
        Ensures
          (Quiet k (remove key cache))
          (Reports binding harbor services ttl k
            (remove key cache)
            auth
            (digest_or (some entry) binding.policy_digest))
          (Quiet k (remove key cache))
          (obtain binding harbor services ttl clock.authorized_at_ms tool_call_id resolved
              (some entry)
            >>= λ authorized.
                run_tool binding harbor services ttl tool_call_id resolved.operation
                  authorized.0.decision_id execute
                >>= λ tool_result.
                    report binding harbor services ttl resolved context authorized.0 authorized.1
                      (digest_or (some entry) binding.policy_digest)
                      tool_result)
    unfolding obtain
    under_entry-Ensures =
        bind-Ensures (Quiet k (remove key cache)) (Quiet k (remove key cache))
          (λ _. Quiet k (remove key cache)) _ _ _
          (run_tool-Stays binding harbor services ttl k (remove key cache) tool_call_id
            resolved.operation auth.decision_id execute)
          (λ tool_result.
            report-Reports binding harbor services ttl k (remove key cache) resolved context auth
              made.authorized_at_ms (digest_or (some entry) binding.policy_digest) tool_result)

    reported : digest_or (some entry) binding.policy_digest ≡ binding.policy_digest
    reported = go binding.policy_digest
      where
        go : (digest : Option String) → or_text digest digest ≡ digest
        go none = refl
        go (some text) = ground arith

    execute_call-Ensures :
        clock.taken_at - made.cached_at ≤ ttl
        → lookup key cache ≡ some entry
        → Ensures (Quiet k cache) (UsesUp key) Unasked (
            execute_call binding harbor services ttl clock tool_name tool_call_id arguments execute
              resolved)
    unfolding execute_call
    execute_call-Ensures fresh found =
        bind-Ensures Unasked (Quiet k cache) (λ _. Quiet k cache) (UsesUp key)
          (emit_trace services.on_trace (tool_selected tool_name tool_call_id resolved.operation)) _
          (weaken-Ensures (Quiet k cache) (λ _. Quiet k cache) (λ _. Quiet k cache) (Quiet k cache)
            Unasked _ (λ _ s q. q) (λ s q. q.0)
            (emit_trace-Stays k cache services.on_trace
              (tool_selected tool_name tool_call_id resolved.operation)))
          (λ _.
            bind-Ensures Unasked (Quiet k cache)
              (λ o s. (o ≡ some entry) × Quiet k (remove key cache) s) (UsesUp key)
              (take_cached binding harbor services ttl clock.taken_at key expected) _
              (take_cached-Ensures fresh found)
              (λ cached. record {
                holds = λ s q. rw q.0 (
                    (weaken-Ensures (Quiet k (remove key cache))
                        (Reports binding harbor services ttl k (remove key cache) auth
                          (digest_or (some entry) binding.policy_digest))
                        (UsesUp key) (Quiet k (remove key cache)) Unasked _
                        (λ result u r. (
                          rw reported at r.0,
                          r.1.0,
                          rw (r.1.1, lookup-remove key key cache, eq_refl key) refl,
                        ))
                        (λ u r. r.0) under_entry-Ensures).holds
                      s q.1);
              }))

  pub execute_as-Ensures :
      (resolution : Resolution Args) (options : CallOptions) (resolved : ResolvedCall Args)
      → ResolvesTo binding tool_name tool_call_id arguments options resolution resolved
      → clock.taken_at - made.cached_at ≤ ttl
      → lookup (authorization_cache_key tool_call_id resolved.operation) cache
        ≡ some (authorization_entry binding.policy_digest made tool_name resolved auth)
      → Ensures
          (Quiet k cache)
          (UsesUp (authorization_cache_key tool_call_id resolved.operation))
          Unasked
          (execute_as binding harbor services ttl clock arguments execute options tool_name
            tool_call_id resolution)
  unfolding execute_as execute_resolved
  execute_as-Ensures (passthrough _) options resolved is fresh found = absurd is
  execute_as-Ensures (denied tool operation) options resolved is fresh found = absurd is
  execute_as-Ensures (side_effecting _ operation entry) options resolved is fresh found =
      rw is (execute_call-Ensures resolved fresh found)
