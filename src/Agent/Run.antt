-- ===== src/Agent/Run.antt =====
-- Python code that calls services and callbacks: a value or an exception, and the calls made so far.
pub mod Laws
pub mod Hoare
use paybond_kit_python.Prelude.{
  ℕ, String, Bool, true, false, List, [], ◌∷◌, Option, none, some, if◌then◌else◌, contains, ◌||◌,
  str_eq,
}
use paybond_kit_python.Prelude.Outcome.{Outcome, raised, returned}

-- What Harbor answers to POST /verify. Identifiers are texts; what no code here reads is left out.
pub record VerifyCapabilityResult : Type 0 where
  pub allow : Bool
  pub audit_id : String
  pub code : Option String
  pub message : Option String
  pub decision_id : Option String
  pub reason_codes : List String

-- `self.code == "approval_required"`
abbrev is_approval_code : Option String → Bool
is_approval_code none = false
is_approval_code (some code) = str_eq code "approval_required"

unfoldable pub approval_required : VerifyCapabilityResult → Bool
approval_required result =
    is_approval_code result.code
    || contains "approval_threshold_exceeded" result.reason_codes
    || contains "approval_required_pending" result.reason_codes
    || contains "approval_quorum_incomplete" result.reason_codes
    || contains "anomaly_new_vendor" result.reason_codes
    || contains "anomaly_amount_spike" result.reason_codes
    || contains "anomaly_rapid_auth" result.reason_codes
    || contains "anomaly_cap_proximity" result.reason_codes

-- What the code raises, and what a service or a callback may raise beside it: `other` says whether
-- that is an `Exception`, which `except Exception` catches.
pub data Exc (E : Type 0) : Type 0 where
  approval_required_error : VerifyCapabilityResult → Exc E
  spend_denied_error : VerifyCapabilityResult → Exc E
  finalization_unavailable : Exc E
  empty_argument : String → Exc E
  unregistered_tool : String → String → Exc E
  operation_refused : String → Exc E
  evidence_submit_error : Exc E
  other : Bool → E → Exc E

abbrev pub is_exception : {E : Type 0} → Exc E → Bool
is_exception (other b e) = b
is_exception _ = true

-- The parameters of `verify_capability`, `requested_spend_cents` apart texts that may be `None`;
-- the identifiers of the intent and the token are the guard's own.
pub record SpendRequest : Type 0 where
  pub operation : String
  pub requested_spend_cents : ℕ
  pub vendor_id : Option String
  pub task_id : Option String
  pub workflow_id : Option String
  pub tool_call_id : Option String
  pub tool_name : Option String
  pub currency : Option String
  pub agent_subject : Option String
  pub approval_token : Option String
  pub idempotency_key : Option String
  pub model_family : Option String
  pub config_hash_hex : Option String
  pub prompt_hash_hex : Option String

pub data Finish : Type 0 where
  consumed : Finish
  released : Finish

-- What the interceptor reports: the call's id and operation first. The texts of messages, the id of
-- the run, durations and times are left out.
pub data TraceEvent : Type 0 where
  tool_selected : String → String → String → TraceEvent
  approval_needed : String → String → VerifyCapabilityResult → TraceEvent
  spend_denied : String → String → VerifyCapabilityResult → TraceEvent
  spend_authorized : String → String → VerifyCapabilityResult → Option ℕ → TraceEvent
  tool_executed : String → String → TraceEvent
  spend_finalized : String → String → Finish → TraceEvent
  evidence_submitted : String → String → String → String → TraceEvent

-- A call that has come back, with what it ended in.
pub data Call (E R : Type 0) : Type 0 where
  verified : SpendRequest → Outcome (Exc E) VerifyCapabilityResult → Call E R
  ran : Outcome (Exc E) R → Call E R
  completed : String → Finish → Outcome (Exc E) (Unit {0}) → Call E R
  traced : TraceEvent → Outcome (Exc E) (Unit {0}) → Call E R
  mapped : Call E R
  submitted : String → Call E R

-- The world is what the services and callbacks read and write; the calls are the newest first.
pub record State (W E R : Type 0) : Type 0 where
  pub world : W
  pub calls : List (Call E R)

abbrev pub Run : (W E R : Type 0) → Type 0 → Type 0
Run W E R A = State W E R → Outcome (Exc E) A × State W E R

-- A service or a callback that is not part of this code.
abbrev pub Action : (W E : Type 0) → Type 0 → Type 0
Action W E A = W → Outcome (Exc E) A × W

module _ {W E R : Type 0} where
  abbrev pub pure : {A : Type 0} → A → Run W E R A
  pure a s = (returned a, s)

  abbrev pub raise : {A : Type 0} → Exc E → Run W E R A
  raise exc s = (raised exc, s)

  abbrev pub resume :
      {A B : Type 0}
      → (A → Run W E R B)
      → Outcome (Exc E) A × State W E R
      → Outcome (Exc E) B × State W E R
  resume next (returned a, s) = next a s
  resume next (raised exc, s) = (raised exc, s)

  -- `try: m except Exception as exc: handle exc`
  abbrev pub catch :
      {A : Type 0}
      → (Exc E → Run W E R A)
      → Outcome (Exc E) A × State W E R
      → Outcome (Exc E) A × State W E R
  catch handle (returned a, s) = (returned a, s)
  catch handle (raised exc, s) = if is_exception exc then handle exc s else (raised exc, s)

  abbrev pub rescue : {A : Type 0} → Run W E R A → (Exc E → Run W E R A) → Run W E R A
  rescue m handle s = catch handle (m s)

  unfoldable pub call : {A : Type 0} → (Outcome (Exc E) A → Call E R) → Action W E A → Run W E R A
  call note act s =
      let (outcome, world) = act s.world in
      (outcome, record { world = world; calls = note outcome ∷ s.calls })

infixl 5 ◌>>=◌ ◌>>◌
abbrev pub ◌>>=◌ : {W E R A B : Type 0} → Run W E R A → (A → Run W E R B) → Run W E R B
m >>= next = λ s. resume next (m s)

abbrev pub ◌>>◌ : {W E R A B : Type 0} → Run W E R A → Run W E R B → Run W E R B
m >> k = m >>= λ _. k
