-- ===== src/Agent/Interceptor/Counts/Handler.antt =====
-- What the steps of `wrap_execute` do to the counts.
use paybond_kit_python.Prelude.{
  ℕ, ◌+◌, ◌≤◌, String, ◌≡◌, refl, Option, some, none, List, [], ◌∷◌, length, arith,
}
use paybond_kit_python.Prelude.Dict.{Dict, remove}
use paybond_kit_python.Prelude.Outcome.{Outcome, raised, returned}
use paybond_kit_python.Agent.AuthorizationCache.{
  CachedAuthorization, Expectation, take_valid_cached_authorization,
}
use paybond_kit_python.Agent.AuthorizationCache.Laws.{take-iff_Serves}
use paybond_kit_python.Agent.Run.{
  VerifyCapabilityResult, Exc, Finish, consumed, released, ran, mapped, submitted, spend_authorized,
  tool_executed, spend_finalized, evidence_submitted, evidence_submit_error, State, Run, Action,
  call,
}
use paybond_kit_python.Agent.Run.Hoare.{Ensures, Holds}
use paybond_kit_python.Agent.SpendGuard.{Harbor}
use paybond_kit_python.Agent.Interceptor.{Binding, ResolvedCall}
use paybond_kit_python.Agent.Interceptor.Session.{Session, within}
use paybond_kit_python.Agent.Interceptor.Execute.{
  Services, ToolCallContext, Submission, take_cached, obtain, finalize, run_handler, run_tool,
  resolve_attestations, submit_with, submit_auto_evidence, report, or_submit_error,
  evidence_idempotency_key,
}
use paybond_kit_python.Agent.Interceptor.Counts.{length-remove, length-take}
use paybond_kit_python.Agent.Interceptor.Counts.Steps.{
  Spare, Costs, neutral-Costs, emit_trace-Costs, complete-Costs, pure-Costs, raise-Costs,
  bind-Costs, rescue-Costs, assert_spend_authorized-Costs,
}

abbrev pub grant_of : {A : Type 0} → Option A → ℕ
grant_of none = 0
grant_of (some a) = 1

-- The tool's run uses up the grant, whether it returns or raises.
ran-Costs :
    {W E R : Type 0} (n : ℕ) (execute : Action W E R)
    → Costs {W = W} {E = E} {R = R} n 1 0 (call ran (within execute))
unfolding call
ran-Costs {W} {E} {R} n execute = record { holds = λ s b. go s b (execute s.world.outer) }
  where
    after :
        (s : State (Session W) E R) (outcome : Outcome (Exc E) R) (w : W)
        → Spare n 1 s
        → Spare n 0 (record { world = record s.world { outer = w }; calls = ran outcome ∷ s.calls })
    after s outcome w b = record {
      paid = ground (arith, b.paid);
      counted = b.counted;
      never_ahead = (ground (arith, b.paid), b.never_ahead);
    }

    go :
        (s : State (Session W) E R)
        → Spare n 1 s
        → (p : Outcome (Exc E) R × W)
        → Holds
            (λ _. Spare n 0)
            (Spare n 0)
            (p.0, record { world = record s.world { outer = p.1 }; calls = ran p.0 ∷ s.calls })
    go s b (returned a, w) = after s (returned a) w b
    go s b (raised exc, w) = after s (raised exc) w b

-- Whatever the take returned, the entries and the grant that it freed are no more than before.
length-taken :
    (ttl now : ℕ) (cache : Dict (CachedAuthorization VerifyCapabilityResult)) (key : String)
    (expected : Expectation)
    → length ((take_valid_cached_authorization ttl now cache key expected).1)
        + grant_of ((take_valid_cached_authorization ttl now cache key expected).0)
      ≤ length cache
unfolding take_valid_cached_authorization
length-taken ttl now cache key expected =
    go ((take_valid_cached_authorization ttl now cache key expected).0) refl
  where
    go :
        (o : Option (CachedAuthorization VerifyCapabilityResult))
        → (take_valid_cached_authorization ttl now cache key expected).0 ≡ o
        → length (remove key cache) + grant_of o ≤ length cache
    go none e = ground (arith, length-remove key cache)
    go (some entry) e =
        length-take key cache entry ((take-iff_Serves ttl now cache key expected entry).0 e).0

module _ {W E R Args P V A D : Type 0} (binding : Binding Args) (harbor : Harbor W E)
    (services : Services W E R Args P V A D) (ttl n : ℕ) where
  -- A cached authorization that is taken is a grant to spare.
  pub take_cached-Ensures :
      (taken_at : ℕ) (key : String) (expected : Expectation)
      → Ensures
          (Spare {W = W} {E = E} {R = R} n 0)
          (λ o. Spare n (grant_of o))
          (Spare n 0)
          (take_cached binding harbor services ttl taken_at key expected)
  unfolding take_cached
  take_cached-Ensures taken_at key expected = record {
    holds = λ s b. record {
      paid =
          ground (arith, b.paid, length-taken ttl taken_at s.world.authorized_calls key expected);
      counted = b.counted;
      never_ahead = b.never_ahead;
    };
  }

  pub obtain-Costs :
      (authorized_at_ms : ℕ) (tool_call_id : String) (resolved : ResolvedCall Args)
      (cached : Option (CachedAuthorization VerifyCapabilityResult))
      → Costs {W = W} {E = E} {R = R} n
          (grant_of cached)
          1
          (obtain binding harbor services ttl authorized_at_ms tool_call_id resolved cached)
  unfolding obtain
  obtain-Costs authorized_at_ms tool_call_id resolved (some cached) = pure-Costs n 1 _
  obtain-Costs authorized_at_ms tool_call_id resolved none =
      bind-Costs n 0 1 1 _ _ (assert_spend_authorized-Costs n harbor resolved.auth_kwargs) (λ auth.
        bind-Costs n 1 1 1 _ _
          (emit_trace-Costs n 1 services.on_trace
            (spend_authorized tool_call_id resolved.operation auth resolved.requested_spend_cents))
          (λ _. pure-Costs n 1 (auth, authorized_at_ms)))

  finalize-Costs :
      (tool_call_id operation : String) (finish : Finish) (decision_id : Option String)
      → Costs {W = W} {E = E} {R = R} n 0 0
          (finalize binding harbor services ttl tool_call_id operation finish decision_id)
  unfolding finalize
  finalize-Costs tool_call_id operation finish none = pure-Costs n 0 tt
  finalize-Costs tool_call_id operation finish (some decision_id) =
      bind-Costs n 0 0 0 _ _ (complete-Costs n harbor 0 decision_id finish) (λ _.
        emit_trace-Costs n 0 services.on_trace (spend_finalized tool_call_id operation finish))

  pub run_tool-Costs :
      (tool_call_id operation : String) (decision_id : Option String) (execute : Action W E R)
      → Costs {W = W} {E = E} {R = R} n 1 0
          (run_tool binding harbor services ttl tool_call_id operation decision_id execute)
  unfolding run_tool run_handler
  run_tool-Costs tool_call_id operation decision_id execute =
      rescue-Costs n 1 _ _
        (bind-Costs n 1 0 0 _ _ (ran-Costs n execute) (λ tool_result.
          bind-Costs n 0 0 0 _ _
            (emit_trace-Costs n 0 services.on_trace (tool_executed tool_call_id operation))
            (λ _.
              bind-Costs n 0 0 0 _ _ (finalize-Costs tool_call_id operation consumed decision_id)
                (λ _. pure-Costs n 0 tool_result))))
        (λ exc.
          bind-Costs n 0 0 0 _ _
            (rescue-Costs n 0 _ _ (finalize-Costs tool_call_id operation released decision_id)
              (λ _. pure-Costs n 0 tt))
            (λ _. raise-Costs n 0 exc))

  attestations-Costs :
      (mapper : Option (R → ToolCallContext Args → Action W E (List A))) (tool_result : R)
      (context : ToolCallContext Args)
      → Costs {W = W} {E = E} {R = R} n 0 0
          (resolve_attestations binding harbor services ttl mapper tool_result context)
  unfolding resolve_attestations
  attestations-Costs none tool_result context = pure-Costs n 0 []
  attestations-Costs (some mapper) tool_result context =
      rescue-Costs n 0 _ _
        (neutral-Costs n 0 (λ _. mapped) (mapper tool_result context) (λ _ calls. (refl, refl)))
        (λ _. pure-Costs n 0 [])

  submit_with-Costs :
      (sandbox : Option ℕ) (production : Option (Submission P → Action W E V))
      (submission : Submission P)
      → Costs {W = W} {E = E} {R = R} n 0 0
          (submit_with binding harbor services ttl sandbox production submission)
  unfolding submit_with
  submit_with-Costs (some sandbox) production submission =
      neutral-Costs n 0 (λ _. submitted submission.idempotency_key)
        (services.submit_sandbox_evidence submission) (λ _ calls. (refl, refl))
  submit_with-Costs none none submission = raise-Costs n 0 evidence_submit_error
  submit_with-Costs none (some submit) submission =
      neutral-Costs n 0 (λ _. submitted submission.idempotency_key) (submit submission)
        (λ _ calls. (refl, refl))

  or_submit_error-Costs :
      {B : Type 0} (m : Run (Session W) E R B)
      → Costs n 0 0 m
      → Costs n 0 0 (or_submit_error binding harbor services ttl m)
  or_submit_error-Costs m c = rescue-Costs n 0 m _ c (λ _. raise-Costs n 0 evidence_submit_error)

  submit-Costs :
      (resolved : ResolvedCall Args) (context : ToolCallContext Args)
      (auth : VerifyCapabilityResult) (evidence_id : String) (tool_result : R)
      → Costs {W = W} {E = E} {R = R} n 0 0 (
          submit_auto_evidence binding harbor services ttl resolved context auth evidence_id
            tool_result)
  unfolding submit_auto_evidence
  submit-Costs resolved context auth evidence_id tool_result =
      bind-Costs n 0 0 0 _ _
        (or_submit_error-Costs _ (
          neutral-Costs n 0 (λ _. mapped)
            (services.build_payload resolved.entry tool_result context) (λ _ calls. (refl, refl))))
        (λ payload.
          or_submit_error-Costs _
            (submit_with-Costs binding.sandbox services.submit_production_evidence _))

  pub report-Costs :
      (resolved : ResolvedCall Args) (context : ToolCallContext Args)
      (auth : VerifyCapabilityResult) (authorized_at_ms : ℕ) (digest : Option String)
      (tool_result : R)
      → Costs {W = W} {E = E} {R = R} n 0 0 (
          report binding harbor services ttl resolved context auth authorized_at_ms digest
            tool_result)
  unfolding report
  report-Costs resolved context auth authorized_at_ms digest tool_result =
      let evidence_id = evidence_idempotency_key binding.intent_id context.tool_call_id in
      bind-Costs n 0 0 0 _ _
        (attestations-Costs (services.attestation_mapper resolved.entry) tool_result context)
        (λ attestations.
          bind-Costs n 0 0 0 _ _ (submit-Costs resolved context auth evidence_id tool_result)
            (λ evidence.
              bind-Costs n 0 0 0 _ _
                (emit_trace-Costs n 0 services.on_trace (
                  evidence_submitted context.tool_call_id resolved.operation evidence_id
                    resolved.entry.evidence_preset))
                (λ _. pure-Costs n 0 _)))
