-- ===== src/Agent/Run/Laws.antt =====
-- How a run that returned is inverted, and what a run keeps of the calls, whatever it ends in.
use paybond_kit_python.Prelude.{◌≡◌, refl, ◌∙◌, ◌⊎◌, inr, true, false, List, [], ◌∷◌, if◌then◌else◌}
use paybond_kit_python.Prelude.Outcome.{Outcome, raised, returned}
use paybond_kit_python.Agent.Run.{
  VerifyCapabilityResult, Exc, is_exception, SpendRequest, Call, verified, ran, completed, traced,
  mapped, submitted, State, Run, Action, raise, resume, catch, rescue, call, ◌>>=◌,
}

module _ {E R : Type 0} (request : SpendRequest)
    (answer : Outcome (Exc E) VerifyCapabilityResult) where
  -- In one of the calls Harbor was asked for the request, gave the answer, and allowed it by that.
  abbrev pub Granted : List (Call E R) → Type 0
  Granted [] = ⊥
  Granted (verified asked (returned result) ∷ calls) =
      ((asked ≡ request) × (answer ≡ returned result) × (result.allow ≡ true)) ⊎ Granted calls
  Granted (_ ∷ calls) = Granted calls

  -- The tool never ran before Harbor had so allowed the request; the newest call stands first.
  abbrev pub IsGuarded : List (Call E R) → Type 0
  IsGuarded [] = Unit
  IsGuarded (ran _ ∷ calls) = Granted calls × IsGuarded calls
  IsGuarded (_ ∷ calls) = IsGuarded calls

  abbrev pub IsOpen : List (Call E R) → Type 0
  IsOpen calls = Granted calls × IsGuarded calls

  -- Once Harbor has allowed the request, a further call leaves the calls guarded.
  more-IsOpen : (c : Call E R) (calls : List (Call E R)) → IsOpen calls → IsOpen (c ∷ calls)
  more-IsOpen (verified asked (returned result)) calls h = (inr h.0, h.1)
  more-IsOpen (verified asked (raised exc)) calls h = h
  more-IsOpen (ran outcome) calls h = (h.0, h)
  more-IsOpen (completed decision_id finish outcome) calls h = h
  more-IsOpen (traced event outcome) calls h = h
  more-IsOpen mapped calls h = h
  more-IsOpen (submitted evidence_id) calls h = h

module _ {W E R : Type 0} where
  -- Where the whole returns, its first part has returned.
  pub run-bind-returned :
      {A B : Type 0} (m : Run W E R A) (next : A → Run W E R B) (s : State W E R) {b : B}
      {t : State W E R}
      → (m >>= next) s ≡ (returned b, t)
      → (a : A) × (u : State W E R) × (m s ≡ (returned a, u)) × (next a u ≡ (returned b, t))
  run-bind-returned {A} {B} m next s {b} {t} h = go (m s) refl h
    where
      go :
          (p : Outcome (Exc E) A × State W E R)
          → m s ≡ p
          → resume next p ≡ (returned b, t)
          → (a : A) × (u : State W E R) × (m s ≡ (returned a, u)) × (next a u ≡ (returned b, t))
      go (returned a, u) e h = (a, u, e, h)
      go (raised exc, u) e h = absurd (raised-pair h)
        where
          raised-pair :
              ◌≡◌ {A = Outcome (Exc E) B × State W E R} (raised exc, u) (returned b, t) → ⊥
          raised-pair q = cc

  -- A handler that raises after all never makes the whole return.
  pub rescue-returned :
      {A : Type 0} (m : Run W E R A) (handle : Exc E → Run W E R A) (s : State W E R) {a : A}
      {t : State W E R}
      → ((exc : Exc E) (u : State W E R) → handle exc u ≡ (returned a, t) → ⊥)
      → rescue m handle s ≡ (returned a, t)
      → m s ≡ (returned a, t)
  rescue-returned {A} m handle s {a} {t} never h = go (m s) refl h
    where
      go :
          (p : Outcome (Exc E) A × State W E R)
          → m s ≡ p
          → catch handle p ≡ (returned a, t)
          → m s ≡ (returned a, t)
      go (returned b, u) e h = e ∙ h
      go (raised exc, u) e h =
          elim (is_exception exc)
              as (λ b.
                (if b then handle exc u else (raised exc, u)) ≡ (returned a, t)
                → m s ≡ (returned a, t)) [ true ↦ λ q. absurd (never exc u q) | false ↦ λ q. cc q ]
            h

  -- a run that raises in the end
  pub bind-raise-ne-returned :
      {A B : Type 0} (m : Run W E R A) (exc : Exc E) (s : State W E R) {b : B} {t : State W E R}
      → (m >>= λ _. raise exc) s ≡ (returned b, t)
      → ⊥
  bind-raise-ne-returned {A} {B} m exc s {b} {t} h =
      let (a, u, e, q) = run-bind-returned {B = B} m (λ _. raise exc) s h in cc q

  pub record Keeps (P : List (Call E R) → Type 0) {A : Type 0} (m : Run W E R A) : Type 0 where
    pub kept : (s : State W E R) → P s.calls → P ((m s).1).calls

  pub bind-Keeps :
      {A B : Type 0} (P : List (Call E R) → Type 0) (m : Run W E R A) (next : A → Run W E R B)
      → Keeps P m
      → ((a : A) → Keeps P (next a))
      → Keeps P (m >>= next)
  bind-Keeps {A} {B} P m next km kn = record { kept = λ s p. go (m s) (km.kept s p) }
    where
      go : (q : Outcome (Exc E) A × State W E R) → P (q.1).calls → P ((resume next q).1).calls
      go (returned a, u) p = (kn a).kept u p
      go (raised exc, u) p = p

  pub rescue-Keeps :
      {A : Type 0} (P : List (Call E R) → Type 0) (m : Run W E R A) (handle : Exc E → Run W E R A)
      → Keeps P m
      → ((exc : Exc E) → Keeps P (handle exc))
      → Keeps P (rescue m handle)
  rescue-Keeps {A} P m handle km kh = record { kept = λ s p. go (m s) (km.kept s p) }
    where
      go : (q : Outcome (Exc E) A × State W E R) → P (q.1).calls → P ((catch handle q).1).calls
      go (returned a, u) p = p
      go (raised exc, u) p =
          elim (is_exception exc)
            as (λ b. P ((if b then handle exc u else (raised exc, u)).1).calls) [
              | true ↦ (kh exc).kept u p
              | false ↦ p
            ]

  pub call-Keeps :
      {A : Type 0} (request : SpendRequest) (answer : Outcome (Exc E) VerifyCapabilityResult)
      (note : Outcome (Exc E) A → Call E R) (act : Action W E A)
      → Keeps (IsOpen request answer) (call note act)
  unfolding call
  call-Keeps request answer note act = record {
    kept = λ s p. more-IsOpen request answer (note (act s.world).0) s.calls p;
  }
