-- ===== src/Agent/Interceptor/Counts.antt =====
-- How often the tool has run, and how often Harbor has granted a spend.
pub mod Steps
pub mod Authorizes
pub mod Handler
pub mod Executes
use paybond_kit_python.Prelude.{
  ℕ, ◌+◌, ◌-◌, ◌≤◌, String, ◌≡◌, refl, true, Option, some, none, List, [], ◌∷◌, length, arith,
  eq_iff, str_eq, if◌then◌else◌,
}
use paybond_kit_python.Prelude.Dict.{Dict, lookup, insert, remove}
use paybond_kit_python.Prelude.Eviction.{remove_all}
use paybond_kit_python.Prelude.Outcome.{Outcome, returned}
use paybond_kit_python.Agent.Run.{Call, verified, ran, State}
use paybond_kit_python.Agent.Interceptor.Session.{Session}

module _ {E R : Type 0} where
  abbrev pub runs : List (Call E R) → ℕ
  runs [] = 0
  runs (ran _ ∷ calls) = runs calls + 1
  runs (_ ∷ calls) = runs calls

  abbrev pub grants : List (Call E R) → ℕ
  grants [] = 0
  grants (verified _ (returned result) ∷ calls) =
      let before = grants calls in if result.allow then before + 1 else before
  grants (_ ∷ calls) = grants calls

  -- At no time had the tool run more often than Harbor had granted; the newest call stands first.
  abbrev pub NeverAhead : List (Call E R) → Type 0
  NeverAhead [] = Unit
  NeverAhead (c ∷ calls) = (runs (c ∷ calls) ≤ grants (c ∷ calls)) × NeverAhead calls

-- `n` calls are in flight, and beside the runs and the entries of the cache Harbor has granted `k`
-- more times at least.
pub record Balanced {W E R : Type 0} (k n : ℕ) (s : State (Session W) E R) : Type 0 where
  pub paid : runs s.calls + length s.world.authorized_calls + k ≤ grants s.calls
  pub counted : s.world.in_flight_count ≡ n
  pub never_ahead : NeverAhead s.calls

module _ {V : Type 0} where
  pub length-insert : (k : String) (v : V) (d : Dict V) → length (insert k v d) ≤ length d + 1
  unfolding insert
  length-insert k v [] = ground arith
  length-insert k v ((j, w) ∷ d) = ground (arith, length-insert k v d)

  pub length-remove : (k : String) (d : Dict V) → length (remove k d) ≤ length d
  unfolding remove
  length-remove k [] = ground arith
  length-remove k ((j, w) ∷ d) = ground (arith, length-remove k d)

  pub length-remove_all : (keys : List String) (d : Dict V) → length (remove_all keys d) ≤ length d
  unfolding remove_all
  length-remove_all [] d = ground arith
  length-remove_all (k ∷ keys) d =
      ground (arith, length-remove_all keys (remove k d), length-remove k d)

  -- Taking an entry that is there makes the dictionary shorter.
  pub length-take :
      (k : String) (d : Dict V) (v : V) → lookup k d ≡ some v → length (remove k d) + 1 ≤ length d
  unfolding lookup remove
  length-take k [] v h = cc
  length-take k ((j, w) ∷ d) v h = ground (arith, length-take k d v, length-remove k d)
