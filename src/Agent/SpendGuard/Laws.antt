-- ===== src/Agent/SpendGuard/Laws.antt =====
-- What a guarded tool call does: it runs the tool only after Harbor's word, and consumes what it
-- reserved where it returns.
use paybond_kit_python.Prelude.{
  String, ◌≡◌, refl, sym, ap, ◌∙◌, true, List, [], ◌∷◌, Option, none, some, ◌⊎◌, inl, inr,
  Bool-cases,
}
use paybond_kit_python.Prelude.Outcome.{Outcome, raised, returned, returned_inj}
use paybond_kit_python.Agent.Run.{
  VerifyCapabilityResult, approval_required, Exc, Call, verified, ran, completed, consumed,
  released, SpendRequest, Finish, State, Action, raise, call, resume, pure, ◌>>=◌,
  approval_required_error, spend_denied_error,
}
use paybond_kit_python.Agent.Run.Laws.{
  run-bind-returned, rescue-returned, bind-raise-ne-returned, Keeps, bind-Keeps, rescue-Keeps,
  call-Keeps, IsOpen, IsGuarded,
}
use paybond_kit_python.Agent.SpendGuard.{
  Harbor, authorize_spend, check_allowed, assert_spend_authorized, complete_with,
  complete_spend_authorization, consume, release, run_and_consume, run_authorized, guard_tool,
}

-- no call yet
abbrev pub start : {W E R : Type 0} → W → State W E R
start w = record { world = w; calls = [] }

-- The calls, newest first, of a guarded call that returned `x` on the answer `result`.
abbrev pub finishing : {E R : Type 0} → Option String → List (Call E R) → List (Call E R)
finishing none calls = calls
finishing (some decision_id) calls = completed decision_id consumed (returned tt) ∷ calls

module _ {W E R : Type 0} (harbor : Harbor W E) where
  pure-Keeps : {A : Type 0} (P : List (Call E R) → Type 0) (a : A) → Keeps {W = W} P (pure a)
  pure-Keeps P a = record { kept = λ s p. p }

  raise-Keeps :
      {A : Type 0} (P : List (Call E R) → Type 0) (exc : Exc E)
      → Keeps {W = W} P (raise {A = A} exc)
  raise-Keeps P exc = record { kept = λ s p. p }

  complete-Keeps :
      (request : SpendRequest) (answer : Outcome (Exc E) VerifyCapabilityResult)
      (decision_id : String) (finish : Finish)
      → Keeps {W = W} {E = E} {R = R}
          (IsOpen request answer)
          (complete_spend_authorization harbor decision_id finish)
  unfolding complete_spend_authorization
  complete-Keeps request answer decision_id finish = go harbor.complete_spend_decision
    where
      go :
          (o : Option (String → Finish → Action W E (Unit {0})))
          → Keeps {W = W} {E = E} {R = R}
              (IsOpen request answer)
              (complete_with harbor o decision_id finish)
      go none = raise-Keeps (IsOpen request answer) _
      go (some complete) = call-Keeps request answer _ _

  consume-Keeps :
      (request : SpendRequest) (answer : Outcome (Exc E) VerifyCapabilityResult)
      (decision_id : Option String)
      → Keeps {W = W} {E = E} {R = R} (IsOpen request answer) (consume harbor decision_id)
  unfolding consume
  consume-Keeps request answer none = pure-Keeps (IsOpen request answer) tt
  consume-Keeps request answer (some decision_id) =
      complete-Keeps request answer decision_id consumed

  release-Keeps :
      (request : SpendRequest) (answer : Outcome (Exc E) VerifyCapabilityResult)
      (decision_id : Option String)
      → Keeps {W = W} {E = E} {R = R} (IsOpen request answer) (release harbor decision_id)
  unfolding release
  release-Keeps request answer none = pure-Keeps (IsOpen request answer) tt
  release-Keeps request answer (some decision_id) =
      rescue-Keeps (IsOpen request answer) _ _ (complete-Keeps request answer decision_id released)
        (λ exc. pure-Keeps (IsOpen request answer) tt)

  run_authorized-Keeps :
      (request : SpendRequest) (answer : Outcome (Exc E) VerifyCapabilityResult)
      (decision_id : Option String) (handler : Action W E R)
      → Keeps (IsOpen request answer) (run_authorized harbor decision_id handler)
  unfolding run_authorized run_and_consume
  run_authorized-Keeps request answer decision_id handler =
      rescue-Keeps (IsOpen request answer) _ _
        (bind-Keeps (IsOpen request answer) _ _ (call-Keeps request answer ran handler) (λ out.
          bind-Keeps (IsOpen request answer) _ _ (consume-Keeps request answer decision_id)
            (λ _. pure-Keeps (IsOpen request answer) out)))
        (λ exc.
          bind-Keeps (IsOpen request answer) _ _ (release-Keeps request answer decision_id)
            (λ _. raise-Keeps (IsOpen request answer) exc))

  pub check_allowed-cases :
      (result : VerifyCapabilityResult) (s : State W E R)
      → ((result.allow ≡ true) × (check_allowed harbor result s ≡ (returned result, s)))
        ⊎ ((exc : Exc E) × (check_allowed harbor result s ≡ (raised exc, s)))
  unfolding check_allowed approval_required
  check_allowed-cases result s = elim (Bool-cases result.allow) [
    | inl granted ↦ inl (granted, rw granted refl)
    | inr refused ↦ inr (elim (Bool-cases (approval_required result)) [
      | inl held ↦ (approval_required_error result, rw (refused, held) refl)
      | inr denied ↦ (spend_denied_error result, rw (refused, denied) refl)
    ])
  ]

  -- The tool runs only after Harbor was asked for this very request and its answer to it allowed it,
  -- whatever the services and the tool return or raise.
  pub guard_tool-IsGuarded :
      (request : SpendRequest) (handler : Action W E R) (w : W)
      → IsGuarded request
          (harbor.verify_capability request w).0
          ((guard_tool harbor request handler (start w)).1).calls
  unfolding guard_tool assert_spend_authorized authorize_spend call
  guard_tool-IsGuarded request handler w = go (harbor.verify_capability request w) refl
    where
      go :
          (p : Outcome (Exc E) VerifyCapabilityResult × W)
          → harbor.verify_capability request w ≡ p
          → IsGuarded request
              (harbor.verify_capability request w).0
              ((resume
                  (λ auth. run_authorized harbor auth.decision_id handler)
                  (resume
                    (check_allowed harbor)
                    (p.0, record { world = p.1; calls = verified request p.0 ∷ [] }))).1
                ).calls
      go (raised exc, u) e = tt
      go (returned result, u) e =
          let s : State W E R = record {
            world = u;
            calls = verified request (returned result) ∷ [];
          } in
          elim (check_allowed-cases result s) [
            | inl (granted, same) ↦
                rw same
                  ((run_authorized-Keeps request (harbor.verify_capability request w).0
                      result.decision_id handler).kept
                    s (inl (refl, ap (λ q. q.0) e, granted), tt)).1
            | inr (exc, same) ↦ rw same tt
          ]

  consume-returned :
      (decision_id : Option String) (s t : State W E R)
      → consume harbor decision_id s ≡ (returned tt, t)
      → t.calls ≡ finishing decision_id s.calls
  unfolding consume complete_spend_authorization call
  consume-returned none s t h = ap (λ p. (p.1).calls) (sym h)
  consume-returned (some decision_id) s t h = go harbor.complete_spend_decision h
    where
      go :
          (o : Option (String → Finish → Action W E (Unit {0})))
          → complete_with harbor o decision_id consumed s ≡ (returned tt, t)
          → t.calls ≡ completed decision_id consumed (returned tt) ∷ s.calls
      go none q = cc q
      go (some complete) q =
          ap (λ p. (p.1).calls) (sym q)
          ∙ ap (λ o. completed decision_id consumed o ∷ s.calls) (ap (λ p. p.0) q)

  run_and_consume-returned :
      (decision_id : Option String) (handler : Action W E R) (s t : State W E R) (x : R)
      → run_and_consume harbor decision_id handler s ≡ (returned x, t)
      → ((handler s.world).0 ≡ returned x)
        × (t.calls ≡ finishing decision_id (ran (returned x) ∷ s.calls))
  unfolding run_and_consume call
  run_and_consume-returned decision_id handler s t x h =
      let (out, u, first, rest) =
        run-bind-returned (call ran handler)
          (λ out. (consume harbor decision_id) >>= (λ _. pure out)) s h in
      let (_, v, second, last) =
        run-bind-returned (consume harbor decision_id) (λ _. pure out) u rest in
      let stop : ◌≡◌ {A = Outcome (Exc E) R × State W E R} (returned out, v) (returned x, t) =
        last in
      let value = ap (λ p. p.0) first ∙ ap (λ p. p.0) stop in
      let run = sym (ap (λ p. (p.1).calls) first) ∙ ap (λ o. ran o ∷ s.calls) value in
      (
        value,
        sym (ap (λ p. (p.1).calls) stop)
            ∙ consume-returned decision_id u v second
            ∙ ap (finishing decision_id) run,
      )

  run_authorized-returned :
      (decision_id : Option String) (handler : Action W E R) (s t : State W E R) (x : R)
      → run_authorized harbor decision_id handler s ≡ (returned x, t)
      → t.calls ≡ finishing decision_id (ran (returned x) ∷ s.calls)
  unfolding run_authorized
  run_authorized-returned decision_id handler s t x h =
      (run_and_consume-returned decision_id handler s t x (
        rescue-returned (run_and_consume harbor decision_id handler) _ s
          (λ exc u. bind-raise-ne-returned (release harbor decision_id) exc u) h)).1

  check_allowed-returned :
      (result auth : VerifyCapabilityResult) (s t : State W E R)
      → check_allowed harbor result s ≡ (returned auth, t)
      → (result.allow ≡ true) × (result ≡ auth) × (s ≡ t)
  check_allowed-returned result auth s t h = elim (check_allowed-cases result s) [
    | inl (granted, same) ↦
        let p = sym same ∙ h in (granted, returned_inj (ap (λ q. q.0) p), ap (λ q. q.1) p)
    | inr (exc, same) ↦ absurd (raised-pair (sym same ∙ h))
  ]
    where
      raised-pair :
          {exc : Exc E}
          → ◌≡◌ {A = Outcome (Exc E) VerifyCapabilityResult × State W E R}
              (raised exc, s)
              (returned auth, t)
          → ⊥
      raised-pair q = cc

  -- A guarded call that returns has asked Harbor, which allowed it, has run the tool once, whose
  -- value it returns, and has consumed what was reserved, in that order, and has done nothing else.
  pub guard_tool-returned :
      (request : SpendRequest) (handler : Action W E R) (w : W) (x : R) (t : State W E R)
      → guard_tool harbor request handler (start w) ≡ (returned x, t)
      → (result : VerifyCapabilityResult) × (result.allow ≡ true)
        × (t.calls
            ≡ finishing result.decision_id
                (ran (returned x) ∷ verified request (returned result) ∷ []))
  unfolding guard_tool assert_spend_authorized authorize_spend call
  guard_tool-returned request handler w x t h =
      let (auth, u, first, rest) =
        run-bind-returned (assert_spend_authorized harbor request)
          (λ auth. run_authorized harbor auth.decision_id handler) (start w) h in
      let (result, v, asked, checked) =
        run-bind-returned (authorize_spend harbor request) (check_allowed harbor) (start w) first in
      let (granted, same, state) = check_allowed-returned result auth v u checked in
      let before =
        sym (ap (λ p. (p.1).calls) asked)
        ∙ ap (λ o. verified request o ∷ []) (ap (λ p. p.0) asked) in
      let after = run_authorized-returned auth.decision_id handler u t x rest in
      (
        result,
        granted,
        after
            ∙ ap (λ a. finishing a.decision_id (ran (returned x) ∷ u.calls)) (sym same)
            ∙ ap (λ c. finishing result.decision_id (ran (returned x) ∷ c))
                (ap (λ s. s.calls) (sym state) ∙ before),
      )
