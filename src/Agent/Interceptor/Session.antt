-- ===== src/Agent/Interceptor/Session.antt =====
-- The state of `PaybondToolInterceptor` and what its two methods share. The world of a run is the
-- interceptor's own state and, behind it, the world of the services, which do not touch it: calls of
-- the interceptor run one at a time.
use paybond_kit_python.Prelude.{
  ℕ, ◌+◌, ◌-◌, String, ◌<>◌, Option, none, some, str_eq, if◌then◌else◌,
}
use paybond_kit_python.Prelude.Dict.{Dict}
use paybond_kit_python.Prelude.Outcome.{Outcome}
use paybond_kit_python.Prelude.Text.{strip}
use paybond_kit_python.Agent.AuthorizationCache.{CachedAuthorization}
use paybond_kit_python.Agent.SpendGuard.{Harbor}
use paybond_kit_python.Agent.Run.{
  VerifyCapabilityResult, Exc, empty_argument, Finish, TraceEvent, traced, State, Run, Action, pure,
  raise, call,
}

abbrev pub Authorizations : Type 0
Authorizations = Dict (CachedAuthorization VerifyCapabilityResult)

pub record Session (W : Type 0) : Type 0 where
  pub authorized_calls : Authorizations
  pub in_flight_count : ℕ
  pub outer : W

-- A service's call leaves the interceptor's state alone.
abbrev pub within : {W E A : Type 0} → Action W E A → Action (Session W) E A
within act s = let (outcome, w) = act s.outer in (outcome, record s { outer = w })

abbrev pub finisher_within :
    {W E : Type 0}
    → Option (String → Finish → Action W E (Unit {0}))
    → Option (String → Finish → Action (Session W) E (Unit {0}))
finisher_within none = none
finisher_within (some complete) =
    some (λ decision_id outcome. within (complete decision_id outcome))

abbrev pub harbor_within : {W E : Type 0} → Harbor W E → Harbor (Session W) E
harbor_within harbor = record {
  verify_capability = λ request. within (harbor.verify_capability request);
  complete_spend_decision = finisher_within harbor.complete_spend_decision;
}

abbrev pub authorization_cache_key : String → String → String
authorization_cache_key tool_call_id operation = tool_call_id <> ":" <> operation

module _ {W E R : Type 0} where
  abbrev pub begin_in_flight : State (Session W) E R → State (Session W) E R
  begin_in_flight s = record s {
    world = record s.world { in_flight_count = s.world.in_flight_count + 1 };
  }

  -- `max(0, self._in_flight_count - 1)`
  abbrev pub end_in_flight :
      {A : Type 0}
      → Outcome (Exc E) A × State (Session W) E R
      → Outcome (Exc E) A × State (Session W) E R
  end_in_flight (outcome, s) = (
    outcome,
    record s { world = record s.world { in_flight_count = s.world.in_flight_count - 1 } },
  )

  -- `self._begin_in_flight()`, and `try: m finally: self._end_in_flight()`
  abbrev pub in_flight : {A : Type 0} → Run (Session W) E R A → Run (Session W) E R A
  in_flight m s = end_in_flight (m (begin_in_flight s))

  -- The guards on the names at the start of both methods, and the call in flight.
  unfoldable pub intercept :
      {A : Type 0}
      → (String → String → Run (Session W) E R A)
      → String
      → String
      → Run (Session W) E R A
  intercept m tool_name tool_call_id =
      let name = strip tool_name in
      let id = strip tool_call_id in
      if str_eq name ""
      then raise (empty_argument "tool_name")
      else if str_eq id ""
      then raise (empty_argument "tool_call_id")
      else in_flight (m name id)

  -- A sink of traces is a callback that may raise, too.
  unfoldable pub emit_trace :
      Option (TraceEvent → Action W E (Unit {0})) → TraceEvent → Run (Session W) E R (Unit {0})
  emit_trace none event = pure tt
  emit_trace (some sink) event = call (traced event) (within (sink event))
