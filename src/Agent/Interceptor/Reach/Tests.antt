-- ===== src/Agent/Interceptor/Reach/Tests.antt =====
-- A session at concrete services: an authorization, the execution that uses it, and one more.
use paybond_kit_python.Prelude.{ℕ, ◌+◌, ◌≡◌, refl, true, none, some, [], ◌∷◌, length, arith}
use paybond_kit_python.Prelude.Outcome.{returned}
use paybond_kit_python.Prelude.Dict.{lookup, insert, remove}
use paybond_kit_python.Prelude.Eviction.{keys_where, remove_all}
use paybond_kit_python.Prelude.Text.{strip}
use paybond_kit_python.Agent.Registry.{SideEffectingEntry, fixed, resolve_tool, resolve_spend_cents}
use paybond_kit_python.Agent.AuthorizationCache.{
  evict_expired_authorization_cache, take_valid_cached_authorization,
}
use paybond_kit_python.Agent.Run.{VerifyCapabilityResult, State, Action, call}
use paybond_kit_python.Agent.SpendGuard.{
  Harbor, assert_spend_authorized, complete_spend_authorization,
}
use paybond_kit_python.Agent.Interceptor.{Binding, CallOptions, resolve_side_effecting_call}
use paybond_kit_python.Agent.Interceptor.Session.{Session, emit_trace}
use paybond_kit_python.Agent.Interceptor.Authorize.{Clock, remember, allow, authorize_tool_call}
use paybond_kit_python.Agent.Interceptor.Execute.{
  Services, ExecuteClock, take_cached, obtain, run_tool, report, submit_auto_evidence, submit_with,
  resolve_attestations, finalize,
}
use paybond_kit_python.Agent.Interceptor.Execute.Wrap.{execute_call, wrap_execute}
use paybond_kit_python.Agent.Interceptor.Counts.{runs, grants, Balanced}
use paybond_kit_python.Agent.Interceptor.Session.{authorization_cache_key}
use paybond_kit_python.Agent.Run.Hoare.{Holds}
use paybond_kit_python.Agent.Interceptor.Execute.{WrapResult}
use paybond_kit_python.Agent.Interceptor.Handover.Quiet.{asked}
use paybond_kit_python.Agent.Interceptor.Handover.{authorize_tool_call-handed_over}
use paybond_kit_python.Agent.Interceptor.Reach.{
  new_session, starts, then, authorizes, executes, Reachable-Balanced,
}

abbrev entry : SideEffectingEntry ℕ
entry = record {
  tool_name = "pay";
  operation = "pay";
  evidence_preset = "receipt";
  spend_cents = some (fixed 250);
}

abbrev binding : Binding ℕ
binding = record {
  registry = record {
    default_deny = true;
    side_effecting = ("pay", entry) ∷ [];
    operations = "pay" ∷ [];
  };
  allowed_tools = "pay" ∷ [];
  sandbox = some 100;
  agent_context = none;
  policy_digest = some "sha256:aa";
  intent_id = "intent_1";
}

abbrev options : CallOptions
options = record {
  operation = none;
  requested_spend_cents = none;
  vendor_id = none;
  task_id = none;
  workflow_id = none;
  currency = none;
  agent_subject = none;
  approval_token = none;
  idempotency_key = none;
}

-- Harbor grants, and counts its calls in the world.
abbrev granted : VerifyCapabilityResult
granted = record {
  allow = true;
  audit_id = "audit_1";
  code = none;
  message = none;
  decision_id = some "decision_1";
  reason_codes = [];
}

abbrev harbor : Harbor ℕ ℕ
harbor = record {
  verify_capability = λ request w. (returned granted, w + 1);
  complete_spend_decision = some (λ decision_id outcome w. (returned tt, w));
}

abbrev services : Services ℕ ℕ ℕ ℕ ℕ ℕ ℕ ℕ
services = record {
  on_trace = none;
  attestation_mapper = λ e. none;
  build_payload = λ e result context w. (returned result, w);
  submit_sandbox_evidence = λ submission w. (returned 1, w);
  submit_production_evidence = none;
  build_receipt_draft = λ resolved context auth ms digest result evidence attestations. none;
}

abbrev tool : Action ℕ ℕ ℕ
tool w = (returned 42, w)

abbrev clock : Clock
clock = record { evicted_at = 10; cached_at = 11; authorized_at_ms = 11000 }

abbrev execute_clock : ExecuteClock
execute_clock = record { taken_at = 20; authorized_at_ms = 20000 }

abbrev authorized : State (Session ℕ) ℕ ℕ
authorized =
    (authorize_tool_call binding harbor services.on_trace 300 clock " pay " "call_1" 7 options
      (new_session 0)).1

abbrev executed : State (Session ℕ) ℕ ℕ
executed =
    (wrap_execute binding harbor services 300 execute_clock "pay" "call_1" 7 tool options
      authorized).1

allows :
    (authorize_tool_call {R = ℕ} binding harbor services.on_trace 300 clock " pay " "call_1" 7
      options
      (new_session 0)).0
    ≡ returned (allow "pay" "audit_1" (some "decision_1") (some "sha256:aa"))
unfolding authorize_tool_call strip resolve_tool lookup resolve_side_effecting_call emit_trace
    assert_spend_authorized call
allows = refl

-- The execution uses the authorization that waits: Harbor is asked once, the tool runs once.
uses_cached :
    ◌≡◌ {A = ℕ × ℕ × ℕ}
      (runs executed.calls, grants executed.calls, length executed.world.authorized_calls)
      (1, 1, 0)
unfolding wrap_execute strip resolve_tool resolve_spend_cents lookup resolve_side_effecting_call
    emit_trace take_cached obtain take_valid_cached_authorization authorize_tool_call
    assert_spend_authorized complete_spend_authorization call insert remove
    evict_expired_authorization_cache remove_all keys_where new_session remember execute_call
    run_tool report submit_auto_evidence submit_with resolve_attestations finalize
uses_cached = refl

Reachable-Balanced_example : Balanced 0 0 executed
unfolding lookup strip
Reachable-Balanced_example = Reachable-Balanced binding harbor services 300 executed (
    then authorized executed
      (then (new_session 0) authorized (starts 0) (authorizes clock " pay " "call_1" 7 options))
      (executes execute_clock "pay" "call_1" 7 tool options (entry, refl)))

authorized_as :
    authorize_tool_call {R = ℕ} binding harbor services.on_trace 300 clock " pay " "call_1" 7
      options
      (new_session 0)
    ≡ (returned (allow "pay" "audit_1" (some "decision_1") (some "sha256:aa")), authorized)
unfolding authorize_tool_call strip resolve_tool lookup resolve_side_effecting_call emit_trace
    assert_spend_authorized call
authorized_as = refl

authorize_tool_call-handed_over_example :
    Holds
      (λ (result : WrapResult ℕ ℕ ℕ) u.
        (result.authorization
          ≡ some (record {
            audit_id = "audit_1";
            decision_id = some "decision_1";
            policy_digest = some "sha256:aa";
          }))
        × (asked u.calls ≡ asked authorized.calls)
        × (lookup (authorization_cache_key (strip "call_1") "pay") u.world.authorized_calls ≡ none))
      (λ u. asked u.calls ≡ asked authorized.calls)
      (wrap_execute binding harbor services 300 execute_clock " pay " "call_1" 7 tool options
        authorized)
authorize_tool_call-handed_over_example =
    authorize_tool_call-handed_over binding harbor services 300 clock execute_clock " pay " "call_1"
      7 tool options (new_session 0) authorized "pay" "audit_1" (some "decision_1")
      (some "sha256:aa") (omega arith) authorized_as
