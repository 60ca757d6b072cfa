-- ===== src/Agent/Interceptor.antt =====
-- src/paybond_kit/agent/interceptor.py. Here stands `_resolve_side_effecting_call`, which settles the operation
-- and the spend of a call before Harbor is asked. A RuntimeError quotes the operation.
pub mod Session
pub mod Authorize
pub mod Execute
pub mod Laws
pub mod Counts
pub mod Reach
pub mod Handover
mod Tests
use paybond_kit_python.Prelude.{
  ℕ, String, Bool, true, false, not, Option, none, some, List, contains, leb, truthy, bind, or_text,
  if◌then◌else◌,
}
use paybond_kit_python.Prelude.Outcome.{Outcome, raised, returned, ◌>>=◌}
use paybond_kit_python.Prelude.Text.{strip}
use paybond_kit_python.Agent.Registry.{ToolRegistry, SideEffectingEntry, resolve_spend_cents}
use paybond_kit_python.Agent.Run.{SpendRequest}

pub record AgentContext : Type 0 where
  pub operator_did : Option String
  pub model_family : String
  pub config_hash_hex : Option String
  pub prompt_hash_hex : Option String

-- What the interceptor reads of the binding; of the sandbox, its spend, and of the policy snapshot,
-- its digest.
pub record Binding (Args : Type 0) : Type 0 where
  pub registry : ToolRegistry Args
  pub allowed_tools : List String
  pub sandbox : Option ℕ
  pub agent_context : Option AgentContext
  pub policy_digest : Option String
  pub intent_id : String

-- The keyword arguments of a call that may be `None`.
pub record CallOptions : Type 0 where
  pub operation : Option String
  pub requested_spend_cents : Option ℕ
  pub vendor_id : Option String
  pub task_id : Option String
  pub workflow_id : Option String
  pub currency : Option String
  pub agent_subject : Option String
  pub approval_token : Option String
  pub idempotency_key : Option String

pub record ResolvedCall (Args : Type 0) : Type 0 where
  pub operation : String
  pub requested_spend_cents : Option ℕ
  pub entry : SideEffectingEntry Args
  pub auth_kwargs : SpendRequest

pub data OperationError : Type 0 where
  operation_not_allowed : String → OperationError

-- `operation or default_operation`
abbrev pub operation_or_default : Option String → String → String
operation_or_default none default = default
operation_or_default (some operation) default =
    if truthy (some operation) then operation else default

abbrev pub min : ℕ → ℕ → ℕ
min a b = if leb a b then a else b

assert_operation_allowed : String → List String → Outcome OperationError (Unit {0})
assert_operation_allowed operation allowed_tools =
    if not (contains operation allowed_tools)
    then raised (operation_not_allowed operation)
    else returned tt

-- `requested_spend_cents`, or else the registry's price
abbrev pub or_price : Option ℕ → Option ℕ → Option ℕ
or_price none price = price
or_price (some cents) price = some cents

cap_by_sandbox : Option ℕ → Option ℕ → Option ℕ
cap_by_sandbox none spend_cents = spend_cents
cap_by_sandbox (some sandbox_spend) none = some sandbox_spend
cap_by_sandbox (some sandbox_spend) (some spend_cents) = some (min spend_cents sandbox_spend)

-- `spend_cents or 0`
abbrev pub or_zero : Option ℕ → ℕ
or_zero none = 0
or_zero (some cents) = cents

module _ {Args : Type 0} (binding : Binding Args) where
  build_call :
      String
      → String
      → SideEffectingEntry Args
      → CallOptions
      → String
      → Option ℕ
      → ResolvedCall Args
  build_call tool_name tool_call_id entry options operation spend_cents = record {
    operation = operation;
    requested_spend_cents = spend_cents;
    entry = entry;
    auth_kwargs = record {
      operation = operation;
      requested_spend_cents = or_zero spend_cents;
      vendor_id = options.vendor_id;
      task_id = options.task_id;
      workflow_id = options.workflow_id;
      tool_call_id = some tool_call_id;
      tool_name = some tool_name;
      currency = options.currency;
      agent_subject =
          or_text options.agent_subject (bind binding.agent_context (λ c. c.operator_did));
      approval_token = options.approval_token;
      idempotency_key = options.idempotency_key;
      model_family = bind binding.agent_context (λ c. some c.model_family);
      config_hash_hex = bind binding.agent_context (λ c. c.config_hash_hex);
      prompt_hash_hex = bind binding.agent_context (λ c. c.prompt_hash_hex);
    };
  }

  spend_of_call : String → Args → CallOptions → Option ℕ
  unfolding cap_by_sandbox
  spend_of_call tool_name arguments options = cap_by_sandbox binding.sandbox (
      or_price options.requested_spend_cents
        (resolve_spend_cents binding.registry tool_name arguments))

  unfoldable pub resolve_side_effecting_call :
      String
      → String
      → Args
      → SideEffectingEntry Args
      → String
      → CallOptions
      → Outcome OperationError (ResolvedCall Args)
  unfolding assert_operation_allowed spend_of_call build_call
  resolve_side_effecting_call tool_name tool_call_id arguments entry default_operation options =
      let operation = strip (operation_or_default options.operation default_operation) in
      assert_operation_allowed operation binding.allowed_tools >>= λ _. returned (
        build_call tool_name tool_call_id entry options operation
          (spend_of_call tool_name arguments options))
