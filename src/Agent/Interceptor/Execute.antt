-- ===== src/Agent/Interceptor/Execute.antt =====
-- The steps of `wrap_execute` of src/paybond_kit/agent/interceptor.py. Parameters stand for the tool, the mapper
-- of attestations, the builder of a payload, the two ways to submit evidence (with what they sign
-- and make of the answer) and the composer of a draft, which never raises an exception.
pub mod Wrap
use paybond_kit_python.Prelude.{
  ℕ, String, ◌<>◌, Option, none, some, List, [], ◌∷◌, bind, or_text, if◌then◌else◌,
}
use paybond_kit_python.Prelude.Outcome.{Outcome, raised, returned}
use paybond_kit_python.Agent.AuthorizationCache.{
  CachedAuthorization, Expectation, take_valid_cached_authorization,
}
use paybond_kit_python.Agent.Registry.{
  SideEffectingEntry, Resolution, passthrough, side_effecting, denied, resolve_tool,
}
use paybond_kit_python.Agent.SpendGuard.{
  Harbor, assert_spend_authorized, complete_spend_authorization,
}
use paybond_kit_python.Agent.Run.{
  VerifyCapabilityResult, Exc, unregistered_tool, operation_refused, evidence_submit_error, Finish,
  consumed, released, TraceEvent, tool_selected, spend_authorized, tool_executed, spend_finalized,
  evidence_submitted, ran, mapped, submitted, State, Run, Action, pure, raise, rescue, call, ◌>>=◌,
  ◌>>◌,
}
use paybond_kit_python.Agent.Interceptor.{
  Binding, CallOptions, ResolvedCall, OperationError, operation_not_allowed,
  resolve_side_effecting_call,
}
use paybond_kit_python.Agent.Interceptor.Session.{
  Session, within, harbor_within, authorization_cache_key, intercept, emit_trace,
}

pub record ToolCallContext (Args : Type 0) : Type 0 where
  pub tool_name : String
  pub tool_call_id : String
  pub operation : String
  pub arguments : Args

-- What both ways to submit evidence are given.
pub record Submission (P : Type 0) : Type 0 where
  pub payload : P
  pub operation : String
  pub requested_spend_cents : Option ℕ
  pub tool_name : String
  pub tool_call_id : String
  pub evidence_preset : String
  pub decision_id : Option String
  pub idempotency_key : String

pub record Authorization : Type 0 where
  pub audit_id : String
  pub decision_id : Option String
  pub policy_digest : Option String

pub record WrapResult (R V D : Type 0) : Type 0 where
  pub tool_result : R
  pub authorization : Option Authorization
  pub evidence : Option V
  pub receipt_draft : Option D

-- The callbacks and services of a binding and its host.
pub record Services (W E R Args P V A D : Type 0) : Type 0 where
  pub on_trace : Option (TraceEvent → Action W E (Unit {0}))
  pub attestation_mapper :
      SideEffectingEntry Args → Option (R → ToolCallContext Args → Action W E (List A))
  pub build_payload : SideEffectingEntry Args → R → ToolCallContext Args → Action W E P
  pub submit_sandbox_evidence : Submission P → Action W E V
  pub submit_production_evidence : Option (Submission P → Action W E V)
  pub build_receipt_draft :
      ResolvedCall Args
      → ToolCallContext Args
      → VerifyCapabilityResult
      → ℕ
      → Option String
      → R
      → V
      → List A
      → Option D

abbrev pub evidence_idempotency_key : String → String → String
evidence_idempotency_key intent_id tool_call_id = "evidence:" <> intent_id <> ":" <> tool_call_id

-- `(cached.get("policy_digest") if cached is not None else None) or pinned_digest`
abbrev pub digest_or :
    Option (CachedAuthorization VerifyCapabilityResult) → Option String → Option String
digest_or cached pinned_digest = or_text (bind cached (λ c. c.policy_digest)) pinned_digest

-- The readings of the clocks: at the take, and at an authorization.
pub record ExecuteClock : Type 0 where
  pub taken_at : ℕ
  pub authorized_at_ms : ℕ

module _ {W E R Args P V A D : Type 0} (binding : Binding Args) (harbor : Harbor W E)
    (services : Services W E R Args P V A D) (ttl : ℕ) where
  abbrev emit : TraceEvent → Run (Session W) E R (Unit {0})
  emit = emit_trace services.on_trace

  unfoldable pub take_cached :
      ℕ
      → String
      → Expectation
      → Run (Session W) E R (Option (CachedAuthorization VerifyCapabilityResult))
  take_cached taken_at cache_key expected s =
      let (cached, left) =
        take_valid_cached_authorization ttl taken_at s.world.authorized_calls cache_key expected in
      (returned cached, record s { world = record s.world { authorized_calls = left } })

  -- The cached authorization, or else a new one, with the time of it.
  unfoldable pub obtain :
      ℕ
      → String
      → ResolvedCall Args
      → Option (CachedAuthorization VerifyCapabilityResult)
      → Run (Session W) E R (VerifyCapabilityResult × ℕ)
  obtain authorized_at_ms tool_call_id resolved (some cached) =
      pure (cached.auth, cached.authorized_at_ms)
  obtain authorized_at_ms tool_call_id resolved none = do
    auth ← assert_spend_authorized (harbor_within harbor) resolved.auth_kwargs
    emit (spend_authorized tool_call_id resolved.operation auth resolved.requested_spend_cents)
    pure (auth, authorized_at_ms)

  unfoldable pub finalize :
      String → String → Finish → Option String → Run (Session W) E R (Unit {0})
  finalize tool_call_id operation finish none = pure tt
  finalize tool_call_id operation finish (some decision_id) = do
    complete_spend_authorization (harbor_within harbor) decision_id finish
    emit (spend_finalized tool_call_id operation finish)

  unfoldable pub run_handler :
      String → String → Option String → Action W E R → Run (Session W) E R R
  unfolding finalize
  run_handler tool_call_id operation decision_id execute = do
    tool_result ← call ran (within execute)
    emit (tool_executed tool_call_id operation)
    finalize tool_call_id operation consumed decision_id
    pure tool_result

  -- The `try` around the handler, and its `except Exception`.
  unfoldable pub run_tool : String → String → Option String → Action W E R → Run (Session W) E R R
  unfolding run_handler finalize
  run_tool tool_call_id operation decision_id execute =
      rescue (run_handler tool_call_id operation decision_id execute) (λ exc. do
        rescue (finalize tool_call_id operation released decision_id) (λ _. pure tt)
        raise exc)

  -- `_resolve_tool_external_attestations`
  unfoldable pub resolve_attestations :
      Option (R → ToolCallContext Args → Action W E (List A))
      → R
      → ToolCallContext Args
      → Run (Session W) E R (List A)
  resolve_attestations none tool_result context = pure []
  resolve_attestations (some mapper) tool_result context =
      rescue (call (λ _. mapped) (within (mapper tool_result context))) (λ _. pure [])

  -- `except Exception as exc: raise PaybondEvidenceSubmitError(...)`
  abbrev pub or_submit_error : {B : Type 0} → Run (Session W) E R B → Run (Session W) E R B
  or_submit_error m = rescue m (λ _. raise evidence_submit_error)

  unfoldable pub submit_with :
      Option ℕ → Option (Submission P → Action W E V) → Submission P → Run (Session W) E R V
  submit_with (some sandbox) production submission =
      call (λ _. submitted submission.idempotency_key)
        (within (services.submit_sandbox_evidence submission))
  submit_with none none submission = raise evidence_submit_error
  submit_with none (some submit) submission =
      call (λ _. submitted submission.idempotency_key) (within (submit submission))

  unfoldable pub submit_auto_evidence :
      ResolvedCall Args
      → ToolCallContext Args
      → VerifyCapabilityResult
      → String
      → R
      → Run (Session W) E R V
  unfolding submit_with
  submit_auto_evidence resolved context auth evidence_id tool_result = do
    payload ←
        or_submit_error
          (call (λ _. mapped) (within (services.build_payload resolved.entry tool_result context)))
    or_submit_error (
        submit_with binding.sandbox services.submit_production_evidence (record {
          payload = payload;
          operation = resolved.operation;
          requested_spend_cents = resolved.requested_spend_cents;
          tool_name = context.tool_name;
          tool_call_id = context.tool_call_id;
          evidence_preset = resolved.entry.evidence_preset;
          decision_id = auth.decision_id;
          idempotency_key = evidence_id;
        }))

  -- The part after the tool has run.
  unfoldable pub report :
      ResolvedCall Args
      → ToolCallContext Args
      → VerifyCapabilityResult
      → ℕ
      → Option String
      → R
      → Run (Session W) E R (WrapResult R V D)
  unfolding resolve_attestations submit_auto_evidence
  report resolved context auth authorized_at_ms digest tool_result =
      let evidence_id = evidence_idempotency_key binding.intent_id context.tool_call_id in
      do
        attestations ←
            resolve_attestations (services.attestation_mapper resolved.entry) tool_result context
        evidence ← submit_auto_evidence resolved context auth evidence_id tool_result
        emit (
            evidence_submitted context.tool_call_id resolved.operation evidence_id
              resolved.entry.evidence_preset)
        pure (record {
          tool_result = tool_result;
          authorization = some (record {
            audit_id = auth.audit_id;
            decision_id = auth.decision_id;
            policy_digest = digest;
          });
          evidence = some evidence;
          receipt_draft =
              services.build_receipt_draft resolved context auth authorized_at_ms digest tool_result
                evidence attestations;
        })
