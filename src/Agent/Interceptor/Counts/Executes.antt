-- ===== src/Agent/Interceptor/Counts/Executes.antt =====
-- What `wrap_execute` does to the counts.
use paybond_kit_python.Prelude.{ℕ, ◌+◌, String, ◌≡◌, some}
use paybond_kit_python.Prelude.Text.{strip}
use paybond_kit_python.Prelude.Dict.{lookup}
use paybond_kit_python.Prelude.Outcome.{Outcome, raised, returned}
use paybond_kit_python.Agent.Registry.{SideEffectingEntry}
use paybond_kit_python.Agent.Registry.Laws.{resolve_tool-registered}
use paybond_kit_python.Agent.Run.{tool_selected, operation_refused, State, Action}
use paybond_kit_python.Agent.Run.Hoare.{bind-Ensures}
use paybond_kit_python.Agent.SpendGuard.{Harbor}
use paybond_kit_python.Agent.Interceptor.{
  Binding, CallOptions, ResolvedCall, OperationError, operation_not_allowed,
  resolve_side_effecting_call,
}
use paybond_kit_python.Agent.Interceptor.Session.{Session}
use paybond_kit_python.Agent.Interceptor.Execute.{Services, ExecuteClock}
use paybond_kit_python.Agent.Interceptor.Execute.Wrap.{
  execute_call, execute_resolved, execute_as, execute_named, wrap_execute,
}
use paybond_kit_python.Agent.Interceptor.Counts.{Balanced}
use paybond_kit_python.Agent.Interceptor.Counts.Steps.{
  Spare, Costs, emit_trace-Costs, raise-Costs, bind-Costs,
}
use paybond_kit_python.Agent.Interceptor.Counts.Authorizes.{intercept-Balanced}
use paybond_kit_python.Agent.Interceptor.Counts.Handler.{
  grant_of, obtain-Costs, report-Costs, run_tool-Costs, take_cached-Ensures,
}

module _ {W E R Args P V A D : Type 0} (binding : Binding Args) (harbor : Harbor W E)
    (services : Services W E R Args P V A D) (ttl n : ℕ) where
  execute_call-Costs :
      (clock : ExecuteClock) (tool_name tool_call_id : String) (arguments : Args)
      (execute : Action W E R) (resolved : ResolvedCall Args)
      → Costs {W = W} {E = E} {R = R} n 0 0 (
          execute_call binding harbor services ttl clock tool_name tool_call_id arguments execute
            resolved)
  unfolding execute_call
  execute_call-Costs clock tool_name tool_call_id arguments execute resolved =
      bind-Costs n 0 0 0 _ _
        (emit_trace-Costs n 0 services.on_trace
          (tool_selected tool_name tool_call_id resolved.operation))
        (λ _.
          bind-Ensures (Spare n 0) (Spare n 0) (λ o. Spare n (grant_of o)) (λ _. Spare n 0) _ _
            (take_cached-Ensures binding harbor services ttl n clock.taken_at _ _)
            (λ cached.
              bind-Costs n (grant_of cached) 1 0 _ _
                (obtain-Costs binding harbor services ttl n clock.authorized_at_ms tool_call_id
                  resolved cached)
                (λ authorized.
                  bind-Costs n 1 0 0 _ _
                    (run_tool-Costs binding harbor services ttl n tool_call_id resolved.operation
                      authorized.0.decision_id execute)
                    (λ tool_result.
                      report-Costs binding harbor services ttl n resolved _ authorized.0
                        authorized.1 _ tool_result))))

  execute_resolved-Costs :
      (clock : ExecuteClock) (tool_name tool_call_id : String) (arguments : Args)
      (execute : Action W E R) (o : Outcome OperationError (ResolvedCall Args))
      → Costs {W = W} {E = E} {R = R} n 0 0 (
          execute_resolved binding harbor services ttl clock tool_name tool_call_id arguments
            execute o)
  unfolding execute_resolved
  execute_resolved-Costs clock tool_name tool_call_id arguments execute (returned resolved) =
      execute_call-Costs clock tool_name tool_call_id arguments execute resolved
  execute_resolved-Costs clock tool_name tool_call_id arguments execute
        (raised (operation_not_allowed refused)) =
      raise-Costs n 0 (operation_refused refused)

-- the tool is registered as one that spends, under the name that the interceptor looks up
abbrev pub IsSpending : {Args : Type 0} → Binding Args → String → Type 0
IsSpending {Args} binding tool_name =
    (entry : SideEffectingEntry Args) × (lookup (strip tool_name) binding.registry.side_effecting
      ≡ some entry)

pub wrap_execute-Balanced :
    {W E R Args P V A D : Type 0} (binding : Binding Args) (harbor : Harbor W E)
    (services : Services W E R Args P V A D) (ttl n : ℕ) (clock : ExecuteClock)
    (tool_name tool_call_id : String) (arguments : Args) (execute : Action W E R)
    (options : CallOptions) (s : State (Session W) E R)
    → IsSpending binding tool_name
    → Balanced 0 n s
    → Balanced 0 n (
        (wrap_execute binding harbor services ttl clock tool_name tool_call_id arguments execute
          options s).1)
unfolding wrap_execute execute_as
wrap_execute-Balanced binding harbor services ttl n clock tool_name tool_call_id arguments execute
      options s (entry, found) =
    intercept-Balanced n (execute_named binding harbor services ttl clock arguments execute options)
      tool_name tool_call_id
      (rw
        (resolve_tool-registered binding.registry (strip tool_name) (some binding.allowed_tools)
          entry found)
        (execute_resolved-Costs binding harbor services ttl (n + 1) clock (strip tool_name)
          (strip tool_call_id) arguments execute
          (resolve_side_effecting_call binding (strip tool_name) (strip tool_call_id) arguments
            entry entry.operation options)))
      s
