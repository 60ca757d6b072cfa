-- ===== src/Agent/Registry/Tests.antt =====
-- A registry of two tools, and the theorems at it.
use paybond_kit_python.Prelude.{ℕ, ◌≡◌, ◌≢◌, refl, true, none, some, ◌∷◌, [], String, Bool, str_eq}
use paybond_kit_python.Prelude.Dict.{lookup, insert}
use paybond_kit_python.Prelude.Outcome.{returned, raised}
use paybond_kit_python.Prelude.Text.{strip}
use paybond_kit_python.Agent.Registry.{
  ToolPolicy, SideEffectingEntry, ToolRegistry, fixed, duplicate_operation, create_registry,
  validate_for_bind, resolve_tool, resolve_spend_cents,
}
use paybond_kit_python.Agent.Registry.Laws.{
  create_registry-operation_inj, create_registry-IsRegistered, validate_for_bind-covers, IsResolved,
  resolve_tool-fail_closed,
}

abbrev known : String → Bool
known preset = str_eq preset "receipt"

abbrev pay : ToolPolicy ℕ
pay = record {
  operation = none;
  spend_cents = some (fixed 250);
  evidence_preset = some " receipt ";
}

abbrev mail : ToolPolicy ℕ
mail = record pay { operation = some "send"; spend_cents = none }

abbrev pay_entry : SideEffectingEntry ℕ
pay_entry = record {
  tool_name = "pay";
  operation = "pay";
  evidence_preset = "receipt";
  spend_cents = some (fixed 250);
}

abbrev mail_entry : SideEffectingEntry ℕ
mail_entry = record {
  tool_name = "mail";
  operation = "send";
  evidence_preset = "receipt";
  spend_cents = none;
}

abbrev accepted : ToolRegistry ℕ
accepted = record {
  default_deny = true;
  side_effecting = ("pay", pay_entry) ∷ ("mail", mail_entry) ∷ [];
  operations = "pay" ∷ "send" ∷ [];
}

creates : create_registry known true (("pay", pay) ∷ ("mail", mail) ∷ []) ≡ returned accepted
unfolding create_registry lookup insert strip
creates = refl

refuses_duplicate :
    create_registry known true (("pay", pay) ∷ ("mail", record pay { operation = some "pay" }) ∷ [])
    ≡ raised (duplicate_operation "pay" "pay" "mail")
unfolding create_registry lookup insert strip
refuses_duplicate = refl

prices_pay : resolve_spend_cents accepted "pay" 3 ≡ some 250
unfolding resolve_spend_cents lookup
prices_pay = refl

finds_pay : lookup "pay" accepted.side_effecting ≡ some pay_entry
unfolding lookup
finds_pay = refl

validates : validate_for_bind accepted ("send" ∷ []) ≡ returned tt
unfolding validate_for_bind
validates = refl

create_registry-operation_inj_example : ◌≡◌ {A = String} "pay" "pay"
create_registry-operation_inj_example =
    create_registry-operation_inj known true (("pay", pay) ∷ ("mail", mail) ∷ []) accepted creates
      "pay" "pay" pay_entry pay_entry finds_pay finds_pay refl

create_registry-IsRegistered_example :
    (◌≡◌ {A = String} "pay" "pay") × (◌≢◌ {A = String} "pay" "") × (known "receipt" ≡ true)
create_registry-IsRegistered_example =
    create_registry-IsRegistered known true (("pay", pay) ∷ ("mail", mail) ∷ []) accepted creates
      "pay" pay_entry finds_pay

validate_for_bind-covers_example :
    (k : String) × (e : SideEffectingEntry ℕ) × (lookup k accepted.side_effecting ≡ some e)
    × (e.operation ≡ "send")
validate_for_bind-covers_example =
    validate_for_bind-covers known true (("pay", pay) ∷ ("mail", mail) ∷ []) accepted creates
      ("send" ∷ []) refl validates "send" refl

resolve_tool-fail_closed_example :
    IsResolved accepted "send" (resolve_tool accepted "send" (some ("send" ∷ [])))
resolve_tool-fail_closed_example = resolve_tool-fail_closed accepted "send" ("send" ∷ []) refl refl
