-- ===== src/Agent/Interceptor/Execute/Wrap.antt =====
-- `wrap_execute` of src/paybond_kit/agent/interceptor.py, put together.
use paybond_kit_python.Prelude.{ℕ, String, none, some}
use paybond_kit_python.Prelude.Outcome.{Outcome, raised, returned}
use paybond_kit_python.Agent.Registry.{
  Resolution, passthrough, side_effecting, denied, resolve_tool,
}
use paybond_kit_python.Agent.SpendGuard.{Harbor}
use paybond_kit_python.Agent.Run.{
  unregistered_tool, operation_refused, tool_selected, ran, Run, Action, pure, raise, call, ◌>>=◌,
  ◌>>◌,
}
use paybond_kit_python.Agent.Interceptor.{
  Binding, CallOptions, ResolvedCall, OperationError, operation_not_allowed,
  resolve_side_effecting_call,
}
use paybond_kit_python.Agent.Interceptor.Session.{
  Session, within, authorization_cache_key, intercept, emit_trace,
}
use paybond_kit_python.Agent.Interceptor.Execute.{
  Services, ExecuteClock, WrapResult, digest_or, take_cached, obtain, run_tool, report,
}

module _ {W E R Args P V A D : Type 0} (binding : Binding Args) (harbor : Harbor W E)
    (services : Services W E R Args P V A D) (ttl : ℕ) where
  unfoldable pub execute_call :
      ExecuteClock
      → String
      → String
      → Args
      → Action W E R
      → ResolvedCall Args
      → Run (Session W) E R (WrapResult R V D)
  execute_call clock tool_name tool_call_id arguments execute resolved = do
    emit_trace services.on_trace (tool_selected tool_name tool_call_id resolved.operation)
    cached ←
        take_cached binding harbor services ttl clock.taken_at
          (authorization_cache_key tool_call_id resolved.operation)
          (record {
            operation = resolved.operation;
            requested_spend_cents = resolved.requested_spend_cents;
            tool_name = tool_name;
          })
    authorized ←
        obtain binding harbor services ttl clock.authorized_at_ms tool_call_id resolved cached
    tool_result ←
        run_tool binding harbor services ttl tool_call_id resolved.operation
          authorized.0.decision_id execute
    report binding harbor services ttl resolved
        (record {
          tool_name = tool_name;
          tool_call_id = tool_call_id;
          operation = resolved.operation;
          arguments = arguments;
        })
        authorized.0 authorized.1 (digest_or cached binding.policy_digest) tool_result

  unfoldable pub execute_resolved :
      ExecuteClock
      → String
      → String
      → Args
      → Action W E R
      → Outcome OperationError (ResolvedCall Args)
      → Run (Session W) E R (WrapResult R V D)
  unfolding execute_call
  execute_resolved clock tool_name tool_call_id arguments execute (returned resolved) =
      execute_call clock tool_name tool_call_id arguments execute resolved
  execute_resolved clock tool_name tool_call_id arguments execute
        (raised (operation_not_allowed refused)) =
      raise (operation_refused refused)

  unfoldable pub execute_as :
      ExecuteClock
      → Args
      → Action W E R
      → CallOptions
      → String
      → String
      → Resolution Args
      → Run (Session W) E R (WrapResult R V D)
  unfolding execute_resolved
  execute_as clock arguments execute options tool_name tool_call_id (passthrough _) = do
    out ← call ran (within execute)
    pure (record { tool_result = out; authorization = none; evidence = none; receipt_draft = none })
  execute_as clock arguments execute options tool_name tool_call_id (denied tool operation) =
      raise (unregistered_tool tool operation)
  execute_as clock arguments execute options tool_name tool_call_id
        (side_effecting _ operation entry) =
      execute_resolved clock tool_name tool_call_id arguments execute (
        resolve_side_effecting_call binding tool_name tool_call_id arguments entry operation
          options)

  abbrev pub execute_named :
      ExecuteClock
      → Args
      → Action W E R
      → CallOptions
      → String
      → String
      → Run (Session W) E R (WrapResult R V D)
  execute_named clock arguments execute options tool_name tool_call_id =
      execute_as clock arguments execute options tool_name tool_call_id
        (resolve_tool binding.registry tool_name (some binding.allowed_tools))

  unfoldable pub wrap_execute :
      ExecuteClock
      → String
      → String
      → Args
      → Action W E R
      → CallOptions
      → Run (Session W) E R (WrapResult R V D)
  unfolding intercept execute_as
  wrap_execute clock tool_name tool_call_id arguments execute options =
      intercept (execute_named clock arguments execute options) tool_name tool_call_id
