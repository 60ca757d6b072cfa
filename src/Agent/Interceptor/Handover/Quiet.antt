-- ===== src/Agent/Interceptor/Handover/Quiet.antt =====
-- The steps of `wrap_execute` that come after the authorization ask Harbor for no further one, and
-- leave the cache as it is.
use paybond_kit_python.Prelude.{ℕ, ◌+◌, String, ◌≡◌, refl, Option, some, none, List, [], ◌∷◌}
use paybond_kit_python.Prelude.Outcome.{Outcome, raised, returned}
use paybond_kit_python.Agent.Run.{
  VerifyCapabilityResult, Exc, Call, verified, completed, traced, Finish, consumed, released, ran,
  mapped, submitted, tool_executed, spend_finalized, evidence_submitted, evidence_submit_error,
  TraceEvent, State, Run, Action, call, pure, raise, rescue, ◌>>=◌,
}
use paybond_kit_python.Agent.Run.Hoare.{
  Ensures, Holds, pure-Ensures, raise-Ensures, bind-Ensures, rescue-Ensures,
}
use paybond_kit_python.Agent.SpendGuard.{Harbor, complete_with, complete_spend_authorization}
use paybond_kit_python.Agent.Interceptor.{Binding, ResolvedCall}
use paybond_kit_python.Agent.Interceptor.Session.{
  Session, Authorizations, within, finisher_within, harbor_within, emit_trace,
}
use paybond_kit_python.Agent.Interceptor.Execute.{
  Services, ToolCallContext, Submission, WrapResult, finalize, run_handler, run_tool,
  resolve_attestations, submit_with, submit_auto_evidence, report, or_submit_error,
  evidence_idempotency_key,
}

-- how often Harbor was asked for an authorization, whatever it answered
abbrev pub asked : {E R : Type 0} → List (Call E R) → ℕ
asked [] = 0
asked (verified _ _ ∷ calls) = asked calls + 1
asked (_ ∷ calls) = asked calls

module _ {W E R : Type 0} (k : ℕ) (cache : Authorizations) where
  -- Harbor was asked `k` times, and these authorizations wait.
  abbrev pub Quiet : State (Session W) E R → Type 0
  Quiet s = (asked s.calls ≡ k) × (s.world.authorized_calls ≡ cache)

  abbrev pub Stays : {A : Type 0} → Run (Session W) E R A → Type 0
  Stays m = Ensures Quiet (λ _. Quiet) Quiet m

  pub pure-Stays : {A : Type 0} (a : A) → Stays (pure a)
  pure-Stays a = pure-Ensures Quiet Quiet (λ _. Quiet) a (λ s q. q)

  raise-Stays : {A : Type 0} (exc : Exc E) → Stays (raise {A = A} exc)
  raise-Stays exc = raise-Ensures Quiet Quiet (λ _. Quiet) exc (λ s q. q)

  pub bind-Stays :
      {A B : Type 0} (m : Run (Session W) E R A) (next : A → Run (Session W) E R B)
      → Stays m
      → ((a : A) → Stays (next a))
      → Stays (m >>= next)
  bind-Stays m next = bind-Ensures Quiet Quiet (λ _. Quiet) (λ _. Quiet) m next

  rescue-Stays :
      {A : Type 0} (m : Run (Session W) E R A) (handle : Exc E → Run (Session W) E R A)
      → Stays m
      → ((exc : Exc E) → Stays (handle exc))
      → Stays (rescue m handle)
  rescue-Stays m handle = rescue-Ensures Quiet Quiet (λ _. Quiet) m handle

  -- a call of another service, or of a callback
  call-Stays :
      {A : Type 0} (note : Outcome (Exc E) A → Call E R) (act : Action W E A)
      → ((outcome : Outcome (Exc E) A) (calls : List (Call E R))
          → asked (note outcome ∷ calls) ≡ asked calls)
      → Stays (call note (within act))
  unfolding call
  call-Stays {A} note act quiet = record { holds = λ s q. go s q (act s.world.outer) }
    where
      go :
          (s : State (Session W) E R)
          → Quiet s
          → (p : Outcome (Exc E) A × W)
          → Holds
              (λ _. Quiet)
              Quiet
              (p.0, record { world = record s.world { outer = p.1 }; calls = note p.0 ∷ s.calls })
      go s q (returned a, w) = (rw (quiet (returned a) s.calls) q.0, q.1)
      go s q (raised exc, w) = (rw (quiet (raised exc) s.calls) q.0, q.1)

  pub emit_trace-Stays :
      (sink : Option (TraceEvent → Action W E (Unit {0}))) (event : TraceEvent)
      → Stays (emit_trace sink event)
  unfolding emit_trace
  emit_trace-Stays none event = pure-Stays tt
  emit_trace-Stays (some sink) event =
      call-Stays (traced event) (sink event) (λ outcome calls. refl)

  complete-Stays :
      (harbor : Harbor W E) (decision_id : String) (finish : Finish)
      → Stays (complete_spend_authorization (harbor_within harbor) decision_id finish)
  unfolding complete_spend_authorization
  complete-Stays harbor decision_id finish = go harbor.complete_spend_decision
    where
      go :
          (o : Option (String → Finish → Action W E (Unit {0})))
          → Stays (complete_with (harbor_within harbor) (finisher_within o) decision_id finish)
      go none = raise-Stays _
      go (some complete) =
          call-Stays (completed decision_id finish) (complete decision_id finish)
            (λ outcome calls. refl)

module _ {W E R Args P V A D : Type 0} (binding : Binding Args) (harbor : Harbor W E)
    (services : Services W E R Args P V A D) (ttl k : ℕ) (cache : Authorizations) where
  finalize-Stays :
      (tool_call_id operation : String) (finish : Finish) (decision_id : Option String)
      → Stays {W = W} {E = E} {R = R} k cache
          (finalize binding harbor services ttl tool_call_id operation finish decision_id)
  unfolding finalize
  finalize-Stays tool_call_id operation finish none = pure-Stays k cache tt
  finalize-Stays tool_call_id operation finish (some decision_id) =
      bind-Stays k cache _ _ (complete-Stays k cache harbor decision_id finish) (λ _.
        emit_trace-Stays k cache services.on_trace (spend_finalized tool_call_id operation finish))

  pub run_tool-Stays :
      (tool_call_id operation : String) (decision_id : Option String) (execute : Action W E R)
      → Stays {W = W} {E = E} {R = R} k cache
          (run_tool binding harbor services ttl tool_call_id operation decision_id execute)
  unfolding run_tool run_handler
  run_tool-Stays tool_call_id operation decision_id execute =
      rescue-Stays k cache _ _
        (bind-Stays k cache _ _ (call-Stays k cache ran execute (λ outcome calls. refl))
          (λ tool_result.
            bind-Stays k cache _ _
              (emit_trace-Stays k cache services.on_trace (tool_executed tool_call_id operation))
              (λ _.
                bind-Stays k cache _ _ (finalize-Stays tool_call_id operation consumed decision_id)
                  (λ _. pure-Stays k cache tool_result))))
        (λ exc.
          bind-Stays k cache _ _
            (rescue-Stays k cache _ _ (finalize-Stays tool_call_id operation released decision_id)
              (λ _. pure-Stays k cache tt))
            (λ _. raise-Stays k cache exc))

  attestations-Stays :
      (mapper : Option (R → ToolCallContext Args → Action W E (List A))) (tool_result : R)
      (context : ToolCallContext Args)
      → Stays {W = W} {E = E} {R = R} k cache
          (resolve_attestations binding harbor services ttl mapper tool_result context)
  unfolding resolve_attestations
  attestations-Stays none tool_result context = pure-Stays k cache []
  attestations-Stays (some mapper) tool_result context =
      rescue-Stays k cache _ _
        (call-Stays k cache (λ _. mapped) (mapper tool_result context) (λ _ calls. refl))
        (λ _. pure-Stays k cache [])

  submit_with-Stays :
      (sandbox : Option ℕ) (production : Option (Submission P → Action W E V))
      (submission : Submission P)
      → Stays {W = W} {E = E} {R = R} k cache
          (submit_with binding harbor services ttl sandbox production submission)
  unfolding submit_with
  submit_with-Stays (some sandbox) production submission =
      call-Stays k cache (λ _. submitted submission.idempotency_key)
        (services.submit_sandbox_evidence submission) (λ _ calls. refl)
  submit_with-Stays none none submission = raise-Stays k cache evidence_submit_error
  submit_with-Stays none (some submit) submission =
      call-Stays k cache (λ _. submitted submission.idempotency_key) (submit submission)
        (λ _ calls. refl)

  or_submit_error-Stays :
      {B : Type 0} (m : Run (Session W) E R B)
      → Stays k cache m
      → Stays k cache (or_submit_error binding harbor services ttl m)
  or_submit_error-Stays m c =
      rescue-Stays k cache m _ c (λ _. raise-Stays k cache evidence_submit_error)

  submit-Stays :
      (resolved : ResolvedCall Args) (context : ToolCallContext Args)
      (auth : VerifyCapabilityResult) (evidence_id : String) (tool_result : R)
      → Stays {W = W} {E = E} {R = R} k cache (
          submit_auto_evidence binding harbor services ttl resolved context auth evidence_id
            tool_result)
  unfolding submit_auto_evidence
  submit-Stays resolved context auth evidence_id tool_result =
      bind-Stays k cache _ _
        (or_submit_error-Stays _ (
          call-Stays k cache (λ _. mapped)
            (services.build_payload resolved.entry tool_result context) (λ _ calls. refl)))
        (λ payload.
          or_submit_error-Stays _
            (submit_with-Stays binding.sandbox services.submit_production_evidence _))

  -- The report of an execution names the authorization that it ran under.
  abbrev pub Reports :
      VerifyCapabilityResult → Option String → WrapResult R V D → State (Session W) E R → Type 0
  Reports auth digest result s =
      (result.authorization
        ≡ some (record {
          audit_id = auth.audit_id;
          decision_id = auth.decision_id;
          policy_digest = digest;
        }))
      × Quiet k cache s

  pub report-Reports :
      (resolved : ResolvedCall Args) (context : ToolCallContext Args)
      (auth : VerifyCapabilityResult) (authorized_at_ms : ℕ) (digest : Option String)
      (tool_result : R)
      → Ensures (Quiet k cache) (Reports auth digest) (Quiet k cache) (
          report binding harbor services ttl resolved context auth authorized_at_ms digest
            tool_result)
  unfolding report
  report-Reports resolved context auth authorized_at_ms digest tool_result =
      let evidence_id = evidence_idempotency_key binding.intent_id context.tool_call_id in
      bind-Ensures (Quiet k cache) (Quiet k cache) (λ _. Quiet k cache) (Reports auth digest) _ _
        (attestations-Stays (services.attestation_mapper resolved.entry) tool_result context)
        (λ attestations.
          bind-Ensures (Quiet k cache) (Quiet k cache) (λ _. Quiet k cache) (Reports auth digest) _
            _ (submit-Stays resolved context auth evidence_id tool_result)
            (λ evidence.
              bind-Ensures (Quiet k cache) (Quiet k cache) (λ _. Quiet k cache)
                (Reports auth digest) _ _
                (emit_trace-Stays k cache services.on_trace (
                  evidence_submitted context.tool_call_id resolved.operation evidence_id
                    resolved.entry.evidence_preset))
                (λ _.
                  pure-Ensures (Quiet k cache) (Quiet k cache) (Reports auth digest) _
                    (λ s q. (refl, q)))))
