-- ===== src/Agent/Interceptor/Tests.antt =====
-- A binding to a sandbox of 100 cents, and the theorem at it.
use paybond_kit_python.Prelude.{ℕ, ◌≡◌, refl, true, none, some, [], ◌∷◌, contains}
use paybond_kit_python.Prelude.Outcome.{returned, raised}
use paybond_kit_python.Prelude.Dict.{lookup}
use paybond_kit_python.Prelude.Text.{strip}
use paybond_kit_python.Agent.Registry.{SideEffectingEntry, fixed, resolve_spend_cents}
use paybond_kit_python.Agent.Interceptor.{
  Binding, CallOptions, ResolvedCall, operation_not_allowed, or_zero, resolve_side_effecting_call,
}
use paybond_kit_python.Agent.Interceptor.Laws.{Capped, resolve_side_effecting_call-Capped}

abbrev pay_entry : SideEffectingEntry ℕ
pay_entry = record {
  tool_name = "pay";
  operation = "pay";
  evidence_preset = "receipt";
  spend_cents = some (fixed 250);
}

abbrev sandboxed : Binding ℕ
sandboxed = record {
  registry = record {
    default_deny = true;
    side_effecting = ("pay", pay_entry) ∷ [];
    operations = "pay" ∷ [];
  };
  allowed_tools = "pay" ∷ [];
  sandbox = some 100;
  agent_context = none;
  policy_digest = none;
  intent_id = "intent_1";
}

abbrev plain : CallOptions
plain = record {
  operation = none;
  requested_spend_cents = none;
  vendor_id = none;
  task_id = none;
  workflow_id = none;
  currency = none;
  agent_subject = none;
  approval_token = none;
  idempotency_key = none;
}

abbrev capped_call : ResolvedCall ℕ
capped_call = record {
  operation = "pay";
  requested_spend_cents = some 100;
  entry = pay_entry;
  auth_kwargs = record {
    operation = "pay";
    requested_spend_cents = 100;
    vendor_id = none;
    task_id = none;
    workflow_id = none;
    tool_call_id = some "call_1";
    tool_name = some "pay";
    currency = none;
    agent_subject = none;
    approval_token = none;
    idempotency_key = none;
    model_family = none;
    config_hash_hex = none;
    prompt_hash_hex = none;
  };
}

caps :
    resolve_side_effecting_call sandboxed "pay" "call_1" 0 pay_entry "pay" plain
    ≡ returned capped_call
unfolding resolve_side_effecting_call resolve_spend_cents lookup strip
caps = refl

refuses_operation :
    resolve_side_effecting_call sandboxed "pay" "call_1" 0 pay_entry "pay"
      (record plain { operation = some " refund " })
    ≡ raised (operation_not_allowed "refund")
unfolding resolve_side_effecting_call resolve_spend_cents lookup strip
refuses_operation = refl

resolve_side_effecting_call-Capped_example :
    (contains capped_call.operation sandboxed.allowed_tools ≡ true)
    × (capped_call.auth_kwargs.operation ≡ capped_call.operation)
    × (capped_call.auth_kwargs.requested_spend_cents ≡ or_zero capped_call.requested_spend_cents)
    × ((cap : ℕ) → sandboxed.sandbox ≡ some cap → Capped cap capped_call.requested_spend_cents)
resolve_side_effecting_call-Capped_example =
    resolve_side_effecting_call-Capped sandboxed "pay" "call_1" 0 pay_entry "pay" plain capped_call
      caps
