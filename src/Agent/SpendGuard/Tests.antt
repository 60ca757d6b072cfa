-- ===== src/Agent/SpendGuard/Tests.antt =====
-- A harbor that allows and reserves, and the theorems at it. The world counts the calls.
use paybond_kit_python.Prelude.{ℕ, ◌+◌, String, ◌≡◌, refl, true, [], ◌∷◌, none, some}
use paybond_kit_python.Prelude.Outcome.{raised, returned}
use paybond_kit_python.Agent.Run.{
  VerifyCapabilityResult, other, verified, ran, completed, consumed, released, SpendRequest, Finish,
  State, Action, call,
}
use paybond_kit_python.Agent.Run.Laws.{IsGuarded}
use paybond_kit_python.Agent.SpendGuard.{
  Harbor, authorize_spend, assert_spend_authorized, complete_spend_authorization, guard_tool,
}
use paybond_kit_python.Agent.SpendGuard.Laws.{
  start, finishing, guard_tool-IsGuarded, guard_tool-returned,
}
use paybond_kit_python.Agent.SpendGuard.Release.{guard_tool-releases, guard_tool-releases_late}

abbrev spend_ten : SpendRequest
spend_ten = record {
  operation = "pay";
  requested_spend_cents = 10;
  vendor_id = none;
  task_id = none;
  workflow_id = none;
  tool_call_id = none;
  tool_name = some "pay";
  currency = none;
  agent_subject = none;
  approval_token = none;
  idempotency_key = none;
  model_family = none;
  config_hash_hex = none;
  prompt_hash_hex = none;
}

abbrev grant : VerifyCapabilityResult
grant = record {
  allow = true;
  audit_id = "a1";
  code = none;
  message = none;
  decision_id = some "d1";
  reason_codes = [];
}

abbrev complete_ok : String → Finish → Action ℕ ℕ (Unit {0})
complete_ok decision_id finish w = (returned tt, w + 1)

-- The service refuses to consume.
abbrev complete_released : String → Finish → Action ℕ ℕ (Unit {0})
complete_released decision_id consumed w = (raised (other true 9), w + 1)
complete_released decision_id released w = (returned tt, w + 1)

abbrev harbor_of : (String → Finish → Action ℕ ℕ (Unit {0})) → Harbor ℕ ℕ
harbor_of complete = record {
  verify_capability = λ request w. (returned grant, w + 1);
  complete_spend_decision = some complete;
}

abbrev works : Action ℕ ℕ ℕ
works w = (returned 42, w + 1)

abbrev breaks : Action ℕ ℕ ℕ
breaks w = (raised (other true 3), w + 1)

abbrev finished : State ℕ ℕ ℕ
finished = record {
  world = 3;
  calls =
      completed "d1" consumed (returned tt)
      ∷ ran (returned 42)
      ∷ verified spend_ten (returned grant)
      ∷ [];
}

guards : guard_tool (harbor_of complete_ok) spend_ten works (start 0) ≡ (returned 42, finished)
unfolding guard_tool assert_spend_authorized authorize_spend complete_spend_authorization call
guards = refl

guard_tool-IsGuarded_example :
    IsGuarded spend_ten
      (returned grant)
      ((guard_tool (harbor_of complete_ok) spend_ten breaks (start 0)).1).calls
guard_tool-IsGuarded_example = guard_tool-IsGuarded (harbor_of complete_ok) spend_ten breaks 0

guard_tool-returned_example :
    (result : VerifyCapabilityResult) × (result.allow ≡ true)
    × (finished.calls
        ≡ finishing result.decision_id
            (ran (returned 42) ∷ verified spend_ten (returned result) ∷ []))
guard_tool-returned_example =
    guard_tool-returned (harbor_of complete_ok) spend_ten works 0 42 finished guards

guard_tool-releases_example :
    ((guard_tool (harbor_of complete_ok) spend_ten breaks (start 0)).1).calls
    ≡ completed "d1" released (returned tt)
      ∷ ran (raised (other true 3))
      ∷ verified spend_ten (returned grant)
      ∷ []
guard_tool-releases_example =
    guard_tool-releases (harbor_of complete_ok) spend_ten breaks 0 1 2 grant "d1" (other true 3)
      complete_ok refl refl refl refl refl refl

guard_tool-releases_late_example :
    ((guard_tool (harbor_of complete_released) spend_ten works (start 0)).1).calls
    ≡ completed "d1" released (returned tt)
      ∷ completed "d1" consumed (raised (other true 9))
      ∷ ran (returned 42)
      ∷ verified spend_ten (returned grant)
      ∷ []
guard_tool-releases_late_example =
    guard_tool-releases_late (harbor_of complete_released) spend_ten works 0 1 2 3 grant "d1" 42
      (other true 9) complete_released refl refl refl refl refl refl refl
