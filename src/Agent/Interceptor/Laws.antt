-- ===== src/Agent/Interceptor/Laws.antt =====
-- A resolved call asks Harbor for an allowed operation and for no more than the sandbox's spend.
use paybond_kit_python.Prelude.{
  ℕ, ◌≤◌, String, ◌≡◌, refl, sym, subst, true, Option, none, some, List, contains, arith,
}
use paybond_kit_python.Prelude.Outcome.{returned, returned_inj, bind-returned}
use paybond_kit_python.Prelude.Text.{strip}
use paybond_kit_python.Agent.Registry.{SideEffectingEntry, resolve_spend_cents}
use paybond_kit_python.Agent.Interceptor.{
  Binding, CallOptions, ResolvedCall, operation_or_default, assert_operation_allowed,
  cap_by_sandbox, or_price, or_zero, spend_of_call, build_call, resolve_side_effecting_call, min,
}

-- A spend that is named and is within the sandbox's.
abbrev pub Capped : ℕ → Option ℕ → Type 0
Capped cap spend = (n : ℕ) × (spend ≡ some n) × (n ≤ cap)

cap_by_sandbox-Capped : (cap : ℕ) (spend : Option ℕ) → Capped cap (cap_by_sandbox (some cap) spend)
unfolding cap_by_sandbox
cap_by_sandbox-Capped cap none = (cap, refl, ground arith)
cap_by_sandbox-Capped cap (some n) = (min n cap, refl, ground arith)

assert_operation_allowed-contains :
    (operation : String) (allowed_tools : List String)
    → assert_operation_allowed operation allowed_tools ≡ returned tt
    → contains operation allowed_tools ≡ true
unfolding assert_operation_allowed
assert_operation_allowed-contains operation allowed_tools h = ground (arith, h)

-- Where a call resolves, its operation is one of the allowed tools, Harbor is asked for that
-- operation and for the call's own spend, and in a sandbox that spend is named and is at most the
-- sandbox's.
pub resolve_side_effecting_call-Capped :
    {Args : Type 0} (binding : Binding Args) (tool_name tool_call_id : String) (arguments : Args)
    (entry : SideEffectingEntry Args) (default_operation : String) (options : CallOptions)
    (c : ResolvedCall Args)
    → resolve_side_effecting_call binding tool_name tool_call_id arguments entry default_operation
        options
      ≡ returned c
    → (contains c.operation binding.allowed_tools ≡ true)
      × (c.auth_kwargs.operation ≡ c.operation)
      × (c.auth_kwargs.requested_spend_cents ≡ or_zero c.requested_spend_cents)
      × ((cap : ℕ) → binding.sandbox ≡ some cap → Capped cap c.requested_spend_cents)
unfolding resolve_side_effecting_call spend_of_call build_call
resolve_side_effecting_call-Capped binding tool_name tool_call_id arguments entry default_operation
      options c h =
    let operation = strip (operation_or_default options.operation default_operation) in
    let (_, passed, built) =
      bind-returned (assert_operation_allowed operation binding.allowed_tools) _ h in
    let same = returned_inj built in
    let named =
      or_price options.requested_spend_cents
        (resolve_spend_cents binding.registry tool_name arguments) in
    subst
      (λ c.
        (contains c.operation binding.allowed_tools ≡ true)
        × (c.auth_kwargs.operation ≡ c.operation)
        × (c.auth_kwargs.requested_spend_cents ≡ or_zero c.requested_spend_cents)
        × ((cap : ℕ) → binding.sandbox ≡ some cap → Capped cap c.requested_spend_cents))
      same
      (
        assert_operation_allowed-contains operation binding.allowed_tools passed,
        refl,
        refl,
        λ cap bound.
            subst (λ o. Capped cap (cap_by_sandbox o named)) (sym bound)
              (cap_by_sandbox-Capped cap named),
      )
