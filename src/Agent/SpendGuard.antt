-- ===== src/Agent/SpendGuard.antt =====
-- src/paybond_kit/spend_guard.py: spend is authorized before a tool runs, and finalized after it.
-- Harbor's `verify_capability` and `complete_spend_decision` and the tool's handler are parameters;
-- a harbor may have no `complete_spend_decision`.
pub mod Laws
pub mod Release
mod Tests
use paybond_kit_python.Prelude.{String, Bool, Option, none, some, if◌then◌else◌, not}
use paybond_kit_python.Prelude.Outcome.{Outcome}
use paybond_kit_python.Agent.Run.{
  VerifyCapabilityResult, approval_required, Exc, approval_required_error, spend_denied_error,
  finalization_unavailable, SpendRequest, Finish, consumed, released, verified, ran, completed, Run,
  Action, pure, raise, rescue, call, ◌>>=◌, ◌>>◌,
}

pub record Harbor (W E : Type 0) : Type 0 where
  pub verify_capability : SpendRequest → Action W E VerifyCapabilityResult
  pub complete_spend_decision : Option (String → Finish → Action W E (Unit {0}))

module _ {W E R : Type 0} (harbor : Harbor W E) where
  unfoldable pub authorize_spend : SpendRequest → Run W E R VerifyCapabilityResult
  authorize_spend request = call (verified request) (harbor.verify_capability request)

  pub check_allowed : VerifyCapabilityResult → Run W E R VerifyCapabilityResult
  check_allowed result =
      if not result.allow
      then (if approval_required result
          then raise (approval_required_error result)
          else raise (spend_denied_error result))
      else pure result

  unfoldable pub assert_spend_authorized : SpendRequest → Run W E R VerifyCapabilityResult
  unfolding authorize_spend check_allowed
  assert_spend_authorized request = authorize_spend request >>= check_allowed

  -- `getattr(self.harbor, "complete_spend_decision", None)`, and the call
  abbrev pub complete_with :
      Option (String → Finish → Action W E (Unit {0})) → String → Finish → Run W E R (Unit {0})
  complete_with none decision_id outcome = raise finalization_unavailable
  complete_with (some complete) decision_id outcome =
      call (completed decision_id outcome) (complete decision_id outcome)

  unfoldable pub complete_spend_authorization : String → Finish → Run W E R (Unit {0})
  complete_spend_authorization decision_id outcome =
      complete_with harbor.complete_spend_decision decision_id outcome

  -- `if auth.decision_id is not None: await self.complete_spend_authorization(..., "consumed")`
  pub consume : Option String → Run W E R (Unit {0})
  unfolding complete_spend_authorization
  consume none = pure tt
  consume (some decision_id) = complete_spend_authorization decision_id consumed

  pub release : Option String → Run W E R (Unit {0})
  unfolding complete_spend_authorization
  release none = pure tt
  release (some decision_id) =
      rescue (complete_spend_authorization decision_id released) (λ _. pure tt)

  pub run_and_consume : Option String → Action W E R → Run W E R R
  unfolding consume
  run_and_consume decision_id handler = do out ← call ran handler; consume decision_id; pure out

  pub run_authorized : Option String → Action W E R → Run W E R R
  unfolding run_and_consume release
  run_authorized decision_id handler =
      rescue (run_and_consume decision_id handler) (λ exc. do release decision_id; raise exc)

  unfoldable pub guard_tool : SpendRequest → Action W E R → Run W E R R
  unfolding assert_spend_authorized run_authorized
  guard_tool request handler = do
    auth ← assert_spend_authorized request
    run_authorized auth.decision_id handler
