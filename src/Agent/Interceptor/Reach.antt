-- ===== src/Agent/Interceptor/Reach.antt =====
-- Sequences of calls of the interceptor: the states that they reach.
mod Tests
use paybond_kit_python.Prelude.{
  ℕ, String, ◌≡◌, refl, Option, some, none, List, [], arith, ◌+◌, ◌≤◌, length,
}
use paybond_kit_python.Agent.Run.{Call, State, Action}
use paybond_kit_python.Agent.SpendGuard.{Harbor}
use paybond_kit_python.Agent.Interceptor.{Binding, CallOptions}
use paybond_kit_python.Agent.Interceptor.Session.{Session}
use paybond_kit_python.Agent.Interceptor.Authorize.{Clock, authorize_tool_call}
use paybond_kit_python.Agent.Interceptor.Execute.{Services, ExecuteClock}
use paybond_kit_python.Agent.Interceptor.Execute.Wrap.{wrap_execute}
use paybond_kit_python.Agent.Interceptor.Counts.{runs, grants, NeverAhead, Balanced}
use paybond_kit_python.Agent.Interceptor.Counts.Authorizes.{authorize_tool_call-Balanced}
use paybond_kit_python.Agent.Interceptor.Counts.Executes.{IsSpending, wrap_execute-Balanced}

-- `__init__`
unfoldable pub new_session : {W E R : Type 0} → W → State (Session W) E R
new_session w = record {
  world = record { authorized_calls = []; in_flight_count = 0; outer = w };
  calls = [];
}

module _ {W E R Args P V A D : Type 0} (binding : Binding Args) (harbor : Harbor W E)
    (services : Services W E R Args P V A D) (ttl : ℕ) where
  -- One call of a method, whatever it ends in. A tool that is executed is registered as spending.
  pub data Step (s : State (Session W) E R) : State (Session W) E R → Type 0 where
    authorizes :
        (clock : Clock) (tool_name tool_call_id : String) (arguments : Args) (options : CallOptions)
        → Step s (
            (authorize_tool_call binding harbor services.on_trace ttl clock tool_name tool_call_id
              arguments options s).1)
    executes :
        (clock : ExecuteClock) (tool_name tool_call_id : String) (arguments : Args)
        (execute : Action W E R) (options : CallOptions)
        → IsSpending binding tool_name
        → Step s (
            (wrap_execute binding harbor services ttl clock tool_name tool_call_id arguments execute
              options s).1)

  pub data Reachable : State (Session W) E R → Type 0 where
    starts : (w : W) → Reachable (new_session w)
    then : (s t : State (Session W) E R) → Reachable s → Step s t → Reachable t

  Step-Balanced : (s t : State (Session W) E R) → Step s t → Balanced 0 0 s → Balanced 0 0 t
  Step-Balanced s _ (authorizes clock tool_name tool_call_id arguments options) b =
      authorize_tool_call-Balanced binding harbor services.on_trace ttl 0 clock tool_name
        tool_call_id arguments options s b
  Step-Balanced s _ (executes clock tool_name tool_call_id arguments execute options spending) b =
      wrap_execute-Balanced binding harbor services ttl 0 clock tool_name tool_call_id arguments
        execute options s spending b

  -- In every state that calls of the two methods reach in which only tools registered as spending are
  -- executed, whatever Harbor, the tools, the services and the trace sink returned or raised: no call
  -- is in flight, the runs of tools and the cached authorizations together are at most as many as
  -- Harbor's grants, and at no earlier call had the tools run more often than Harbor had granted.
  pub Reachable-Balanced : (s : State (Session W) E R) → Reachable s → Balanced 0 0 s
  unfolding new_session
  Reachable-Balanced s (starts w) = record { paid = ground arith; counted = refl; never_ahead = tt }
  Reachable-Balanced t (then s _ earlier step) =
      Step-Balanced s t step (Reachable-Balanced s earlier)
