-- ===== src/Agent/Run/Hoare.antt =====
-- What a run establishes: on the value that it returns, and on its state where it raises.
use paybond_kit_python.Prelude.{true, false, if◌then◌else◌}
use paybond_kit_python.Prelude.Outcome.{Outcome, raised, returned}
use paybond_kit_python.Agent.Run.{
  Exc, is_exception, State, Run, pure, raise, resume, catch, rescue, ◌>>=◌,
}

module _ {W E R : Type 0} where
  abbrev pub Holds :
      {A : Type 0}
      → (A → State W E R → Type 0)
      → (State W E R → Type 0)
      → Outcome (Exc E) A × State W E R
      → Type 0
  Holds Q X (returned a, t) = Q a t
  Holds Q X (raised exc, t) = X t

  -- From a state with P the run ends in a value and a state with Q, or raises in a state with X.
  pub record Ensures {A : Type 0} (P : State W E R → Type 0) (Q : A → State W E R → Type 0)
      (X : State W E R → Type 0) (m : Run W E R A) : Type 0 where
    pub holds : (s : State W E R) → P s → Holds Q X (m s)

  module _ (X : State W E R → Type 0) where
    pub pure-Ensures :
        {A : Type 0} (P : State W E R → Type 0) (Q : A → State W E R → Type 0) (a : A)
        → ((s : State W E R) → P s → Q a s)
        → Ensures P Q X (pure a)
    pure-Ensures P Q a h = record { holds = h }

    pub raise-Ensures :
        {A : Type 0} (P : State W E R → Type 0) (Q : A → State W E R → Type 0) (exc : Exc E)
        → ((s : State W E R) → P s → X s)
        → Ensures P Q X (raise exc)
    raise-Ensures P Q exc h = record { holds = h }

    pub bind-Ensures :
        {A B : Type 0} (P : State W E R → Type 0) (M : A → State W E R → Type 0)
        (Q : B → State W E R → Type 0) (m : Run W E R A) (next : A → Run W E R B)
        → Ensures P M X m
        → ((a : A) → Ensures (M a) Q X (next a))
        → Ensures P Q X (m >>= next)
    bind-Ensures {A} {B} P M Q m next first rest = record {
      holds = λ s p. go (m s) (first.holds s p);
    }
      where
        go : (q : Outcome (Exc E) A × State W E R) → Holds M X q → Holds Q X (resume next q)
        go (returned a, u) h = (rest a).holds u h
        go (raised exc, u) h = h

    pub rescue-Ensures :
        {A : Type 0} (P : State W E R → Type 0) (Q : A → State W E R → Type 0) (m : Run W E R A)
        (handle : Exc E → Run W E R A)
        → Ensures P Q X m
        → ((exc : Exc E) → Ensures X Q X (handle exc))
        → Ensures P Q X (rescue m handle)
    rescue-Ensures {A} P Q m handle first handler = record {
      holds = λ s p. go (m s) (first.holds s p);
    }
      where
        go : (q : Outcome (Exc E) A × State W E R) → Holds Q X q → Holds Q X (catch handle q)
        go (returned a, u) h = h
        go (raised exc, u) h =
            elim (is_exception exc)
              as (λ b. Holds Q X (if b then handle exc u else (raised exc, u))) [
                | true ↦ (handler exc).holds u h
                | false ↦ h
              ]

  pub weaken-Ensures :
      {A : Type 0} (P : State W E R → Type 0) (Q Q' : A → State W E R → Type 0)
      (X X' : State W E R → Type 0) (m : Run W E R A)
      → ((a : A) (s : State W E R) → Q a s → Q' a s)
      → ((s : State W E R) → X s → X' s)
      → Ensures P Q X m
      → Ensures P Q' X' m
  weaken-Ensures {A} P Q Q' X X' m value exc c = record { holds = λ s p. go (m s) (c.holds s p) }
    where
      go : (q : Outcome (Exc E) A × State W E R) → Holds Q X q → Holds Q' X' q
      go (returned a, u) h = value a u h
      go (raised e, u) h = exc u h
