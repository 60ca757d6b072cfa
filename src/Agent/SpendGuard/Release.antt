-- ===== src/Agent/SpendGuard/Release.antt =====
-- When a reservation is released.
use paybond_kit_python.Prelude.{String, ◌≡◌, refl, true, [], ◌∷◌, some, inl, inr, Bool-cases}
use paybond_kit_python.Prelude.Outcome.{Outcome, raised, returned}
use paybond_kit_python.Agent.Run.{
  VerifyCapabilityResult, Exc, is_exception, verified, ran, completed, consumed, released,
  SpendRequest, Finish, State, catch, Action, raise, call, resume, pure, ◌>>=◌,
}
use paybond_kit_python.Agent.SpendGuard.{
  Harbor, authorize_spend, check_allowed, assert_spend_authorized, complete_spend_authorization,
  consume, release, run_and_consume, run_authorized, guard_tool,
}
use paybond_kit_python.Agent.SpendGuard.Laws.{start}

module _ {W E R : Type 0} (harbor : Harbor W E) where
  check_allowed-granted :
      (result : VerifyCapabilityResult) (s : State W E R)
      → result.allow ≡ true
      → check_allowed harbor result s ≡ (returned result, s)
  unfolding check_allowed
  check_allowed-granted result s granted = simp granted

  release-calls :
      (decision_id : String) (exc : Exc E) (s : State W E R)
      (complete : String → Finish → Action W E (Unit {0}))
      → harbor.complete_spend_decision ≡ some complete
      → ((((release harbor (some decision_id)) >>= (λ _. raise {A = R} exc)) s).1).calls
        ≡ completed decision_id released ((complete decision_id released s.world).0) ∷ s.calls
  unfolding release complete_spend_authorization call
  release-calls decision_id exc s complete has =
      simp (has, go (complete decision_id released s.world))
    where
      go :
          (p : Outcome (Exc E) (Unit {0}) × W)
          → ((resume
              (λ _. raise {A = R} exc)
              (catch
                (λ _. pure tt)
                (
                  p.0,
                  record { world = p.1; calls = completed decision_id released p.0 ∷ s.calls },
                ))).1
            ).calls
            ≡ completed decision_id released p.0 ∷ s.calls
      go (returned _, world) = refl
      go (raised e, world) = elim (Bool-cases (is_exception e)) [
        | inl caught ↦ rw caught refl
        | inr passes ↦ rw passes refl
      ]

  run_authorized-releases :
      (decision_id : String) (handler : Action W E R) (s : State W E R) (v : W) (exc : Exc E)
      (complete : String → Finish → Action W E (Unit {0}))
      → harbor.complete_spend_decision ≡ some complete
      → handler s.world ≡ (raised exc, v)
      → is_exception exc ≡ true
      → ((run_authorized harbor (some decision_id) handler s).1).calls
        ≡ completed decision_id released ((complete decision_id released v).0)
          ∷ ran (raised exc)
          ∷ s.calls
  unfolding run_authorized run_and_consume call
  run_authorized-releases decision_id handler s v exc complete has raises caught = simp (
    raises,
    caught,
    release-calls decision_id exc (record { world = v; calls = ran (raised exc) ∷ s.calls })
        complete has,
  )

  -- Where the tool raises an `Exception` after Harbor has allowed the request, the reservation is
  -- released, and that is the last call.
  pub guard_tool-releases :
      (request : SpendRequest) (handler : Action W E R) (w u v : W)
      (result : VerifyCapabilityResult) (decision_id : String) (exc : Exc E)
      (complete : String → Finish → Action W E (Unit {0}))
      → harbor.complete_spend_decision ≡ some complete
      → harbor.verify_capability request w ≡ (returned result, u)
      → result.allow ≡ true
      → result.decision_id ≡ some decision_id
      → handler u ≡ (raised exc, v)
      → is_exception exc ≡ true
      → (((guard_tool harbor request handler (start w)).1).calls)
        ≡ completed decision_id released ((complete decision_id released v).0)
          ∷ ran (raised exc)
          ∷ verified request (returned result)
          ∷ []
  unfolding guard_tool assert_spend_authorized authorize_spend call
  guard_tool-releases request handler w u v result decision_id exc complete has answer granted
        reserved raises caught =
      let asked : State W E R = record {
        world = u;
        calls = verified request (returned result) ∷ [];
      } in
      simp (
        answer,
        check_allowed-granted result asked granted,
        reserved,
        run_authorized-releases decision_id handler asked v exc complete has raises caught,
      )

  consume-raised :
      (decision_id : String) (s : State W E R) (z : W) (exc : Exc E)
      (complete : String → Finish → Action W E (Unit {0}))
      → harbor.complete_spend_decision ≡ some complete
      → complete decision_id consumed s.world ≡ (raised exc, z)
      → consume harbor (some decision_id) s ≡ (
        raised exc,
        record { world = z; calls = completed decision_id consumed (raised exc) ∷ s.calls },
      )
  unfolding consume complete_spend_authorization call
  consume-raised decision_id s z exc complete has fails = simp (has, fails)

  run_authorized-releases_late :
      (decision_id : String) (handler : Action W E R) (s : State W E R) (v z : W) (x : R)
      (exc : Exc E) (complete : String → Finish → Action W E (Unit {0}))
      → harbor.complete_spend_decision ≡ some complete
      → handler s.world ≡ (returned x, v)
      → complete decision_id consumed v ≡ (raised exc, z)
      → is_exception exc ≡ true
      → ((run_authorized harbor (some decision_id) handler s).1).calls
        ≡ completed decision_id released ((complete decision_id released z).0)
          ∷ completed decision_id consumed (raised exc)
          ∷ ran (returned x)
          ∷ s.calls
  unfolding run_authorized run_and_consume call
  run_authorized-releases_late decision_id handler s v z x exc complete has returns fails caught =
      let late : State W E R = record {
        world = z;
        calls = completed decision_id consumed (raised exc) ∷ ran (returned x) ∷ s.calls;
      } in
      simp (
        returns,
        consume-raised decision_id (record { world = v; calls = ran (returned x) ∷ s.calls }) z exc
            complete has fails,
        caught,
        release-calls decision_id exc late complete has,
      )

  -- Where the tool has run and only the consumption of the reservation raises an `Exception`, the
  -- reservation is released, although the tool has done its work.
  pub guard_tool-releases_late :
      (request : SpendRequest) (handler : Action W E R) (w u v z : W)
      (result : VerifyCapabilityResult) (decision_id : String) (x : R) (exc : Exc E)
      (complete : String → Finish → Action W E (Unit {0}))
      → harbor.complete_spend_decision ≡ some complete
      → harbor.verify_capability request w ≡ (returned result, u)
      → result.allow ≡ true
      → result.decision_id ≡ some decision_id
      → handler u ≡ (returned x, v)
      → complete decision_id consumed v ≡ (raised exc, z)
      → is_exception exc ≡ true
      → (((guard_tool harbor request handler (start w)).1).calls)
        ≡ completed decision_id released ((complete decision_id released z).0)
          ∷ completed decision_id consumed (raised exc)
          ∷ ran (returned x)
          ∷ verified request (returned result)
          ∷ []
  unfolding guard_tool assert_spend_authorized authorize_spend call
  guard_tool-releases_late request handler w u v z result decision_id x exc complete has answer
        granted reserved returns fails caught =
      let asked : State W E R = record {
        world = u;
        calls = verified request (returned result) ∷ [];
      } in
      simp (
        answer,
        check_allowed-granted result asked granted,
        reserved,
        run_authorized-releases_late decision_id handler asked v z x exc complete has returns fails
            caught,
      )
