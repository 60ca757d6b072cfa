-- ===== src/Agent/Interceptor/Authorize.antt =====
-- `authorize_tool_call` of src/paybond_kit/agent/interceptor.py.
use paybond_kit_python.Prelude.{ℕ, String, Option, none, some, or_text, str_eq, if◌then◌else◌}
use paybond_kit_python.Prelude.Dict.{insert}
use paybond_kit_python.Prelude.Outcome.{Outcome, raised, returned}
use paybond_kit_python.Agent.AuthorizationCache.{
  CachedAuthorization, evict_expired_authorization_cache,
}
use paybond_kit_python.Agent.Registry.{
  Resolution, passthrough, side_effecting, denied, resolve_tool,
}
use paybond_kit_python.Agent.SpendGuard.{Harbor, assert_spend_authorized}
use paybond_kit_python.Agent.Run.{
  VerifyCapabilityResult, Exc, approval_required_error, spend_denied_error, TraceEvent,
  tool_selected, approval_needed, spend_denied, spend_authorized, State, Run, Action, pure, raise,
  ◌>>=◌, ◌>>◌,
}
use paybond_kit_python.Agent.Interceptor.{
  Binding, CallOptions, ResolvedCall, OperationError, operation_not_allowed,
  resolve_side_effecting_call,
}
use paybond_kit_python.Agent.Interceptor.Session.{
  Session, harbor_within, authorization_cache_key, intercept, emit_trace,
}

-- The message of a decision: Harbor's message or code, or else the text of the exception, or the
-- texts for a tool that is not registered and an operation that is not allowed.
pub data Message : Type 0 where
  stated : String → Message
  of_error : VerifyCapabilityResult → Message
  not_registered : String → String → Message
  not_allowed : String → Message

pub data Decision : Type 0 where
  allow_passthrough : String → Decision
  allow : String → String → Option String → Option String → Decision
  deny : Message → String → Option VerifyCapabilityResult → Decision
  hold_for_approval : Message → String → VerifyCapabilityResult → Decision

-- `result.message or result.code or str(exc)`
abbrev pub message_of : VerifyCapabilityResult → Message
message_of result = elim (or_text result.message result.code) [
  | some text ↦ if str_eq text "" then of_error result else stated text
  | none ↦ of_error result
]

-- The readings of the clocks: at the eviction, and for the entry.
pub record Clock : Type 0 where
  pub evicted_at : ℕ
  pub cached_at : ℕ
  pub authorized_at_ms : ℕ

-- The entry that waits for the execution.
abbrev pub authorization_entry :
    {Args : Type 0}
    → Option String
    → Clock
    → String
    → ResolvedCall Args
    → VerifyCapabilityResult
    → CachedAuthorization VerifyCapabilityResult
authorization_entry pinned_digest clock tool_name resolved auth = record {
  auth = auth;
  operation = resolved.operation;
  requested_spend_cents = resolved.requested_spend_cents;
  tool_name = tool_name;
  cached_at = clock.cached_at;
  policy_digest = pinned_digest;
  authorized_at_ms = clock.authorized_at_ms;
}

module _ {W E R Args : Type 0} (binding : Binding Args) (harbor : Harbor W E)
    (on_trace : Option (TraceEvent → Action W E (Unit {0}))) (ttl : ℕ) where
  -- Eviction, and the entry for the execution to come.
  unfoldable pub remember :
      Clock
      → String
      → String
      → ResolvedCall Args
      → VerifyCapabilityResult
      → Run (Session W) E R (Unit {0})
  remember clock tool_name tool_call_id resolved auth s = (
    returned tt,
    record s {
      world = record s.world {
        authorized_calls =
            insert (authorization_cache_key tool_call_id resolved.operation)
              (authorization_entry binding.policy_digest clock tool_name resolved auth)
              (evict_expired_authorization_cache ttl clock.evicted_at s.world.authorized_calls);
      };
    },
  )

  unfoldable pub on_authorized :
      Clock
      → String
      → String
      → ResolvedCall Args
      → VerifyCapabilityResult
      → Run (Session W) E R Decision
  unfolding remember
  on_authorized clock tool_name tool_call_id resolved auth = do
    remember clock tool_name tool_call_id resolved auth
    emit_trace on_trace
        (spend_authorized tool_call_id resolved.operation auth resolved.requested_spend_cents)
    pure (allow resolved.operation auth.audit_id auth.decision_id binding.policy_digest)

  -- The `except` clauses around `assert_spend_authorized`.
  unfoldable pub on_refused : String → ResolvedCall Args → Exc E → Run (Session W) E R Decision
  on_refused tool_call_id resolved (approval_required_error result) = do
    emit_trace on_trace (approval_needed tool_call_id resolved.operation result)
    pure (hold_for_approval (message_of result) resolved.operation result)
  on_refused tool_call_id resolved (spend_denied_error result) = do
    emit_trace on_trace (spend_denied tool_call_id resolved.operation result)
    pure (deny (message_of result) resolved.operation (some result))
  on_refused tool_call_id resolved exc = raise exc

  unfoldable pub on_answer :
      Clock
      → String
      → String
      → ResolvedCall Args
      → Outcome (Exc E) VerifyCapabilityResult × State (Session W) E R
      → Outcome (Exc E) Decision × State (Session W) E R
  unfolding on_authorized on_refused
  on_answer clock tool_name tool_call_id resolved (returned auth, s) =
      on_authorized clock tool_name tool_call_id resolved auth s
  on_answer clock tool_name tool_call_id resolved (raised exc, s) =
      on_refused tool_call_id resolved exc s

  unfoldable pub ask : Clock → String → String → ResolvedCall Args → Run (Session W) E R Decision
  unfolding on_answer
  ask clock tool_name tool_call_id resolved s =
      on_answer clock tool_name tool_call_id resolved
        (assert_spend_authorized (harbor_within harbor) resolved.auth_kwargs s)

  unfoldable pub authorize_resolved :
      Clock
      → String
      → String
      → String
      → Outcome OperationError (ResolvedCall Args)
      → Run (Session W) E R Decision
  unfolding ask
  authorize_resolved clock tool_name tool_call_id operation (returned resolved) =
      emit_trace on_trace (tool_selected tool_name tool_call_id resolved.operation) >>= λ _.
      ask clock tool_name tool_call_id resolved
  authorize_resolved clock tool_name tool_call_id operation
        (raised (operation_not_allowed refused)) =
      pure (deny (not_allowed refused) operation none)

  unfoldable pub authorize_as :
      Clock → Args → CallOptions → String → String → Resolution Args → Run (Session W) E R Decision
  unfolding authorize_resolved
  authorize_as clock arguments options tool_name tool_call_id (passthrough _) =
      pure (allow_passthrough tool_name)
  authorize_as clock arguments options tool_name tool_call_id (denied tool operation) =
      pure (deny (not_registered tool operation) operation none)
  authorize_as clock arguments options tool_name tool_call_id (side_effecting _ operation entry) =
      authorize_resolved clock tool_name tool_call_id operation (
        resolve_side_effecting_call binding tool_name tool_call_id arguments entry operation
          options)

  abbrev pub authorize_named :
      Clock → Args → CallOptions → String → String → Run (Session W) E R Decision
  authorize_named clock arguments options tool_name tool_call_id =
      authorize_as clock arguments options tool_name tool_call_id
        (resolve_tool binding.registry tool_name (some binding.allowed_tools))

  unfoldable pub authorize_tool_call :
      Clock → String → String → Args → CallOptions → Run (Session W) E R Decision
  unfolding intercept authorize_as
  authorize_tool_call clock tool_name tool_call_id arguments options =
      intercept (authorize_named clock arguments options) tool_name tool_call_id
