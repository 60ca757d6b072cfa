-- ===== src/Policy/Merge/Engine/Tests.antt =====
-- A merge at concrete documents, and the theorems about merges at it.
use paybond_kit_python.Prelude.{
  ◌≡◌, ◌≢◌, inr, refl, true, false, none, some, List, [], ◌∷◌, ◌||◌, String,
}
use paybond_kit_python.Prelude.Dict.{lookup, insert, update}
use paybond_kit_python.Policy.Value.{str}
use paybond_kit_python.Policy.Schema.{
  ToolEntry, ToolOverride, Binding, Budget, Number, rational, nan, IntentSection, DocumentV1,
  DocumentV2, Document, v1,
}
use paybond_kit_python.Policy.Merge.Report.{raise_spend_cap, IsClean}
use paybond_kit_python.Policy.Merge.Tools.Loops.{Refines, AllWellFormed, AllWellFormed-of_entries}
use paybond_kit_python.Policy.Merge.Tools.Laws.{IsWellFormed}
use paybond_kit_python.Policy.Merge.Intent.{merge_budget, cap_of}
use paybond_kit_python.Policy.Merge.Intent.Budgets.{merge_budget-hidden_cap}
use paybond_kit_python.Policy.Merge.Sections.Laws.{IntentHeld, SectionCapped}
use paybond_kit_python.Policy.Merge.Adapter.{flag_of, is_true, is_false}
use paybond_kit_python.Policy.Merge.Engine.{
  base_tools, base_default_deny, override_flag, override_adapter, merge_paybond_policies,
  MergeResult, ok, err, denied_widening,
}
use paybond_kit_python.Policy.Merge.Engine.Laws.{
  merge-Refines, merge-AllWellFormed, merge-lookup_added, merge-IntentHeld, merge-SectionCapped,
  merge-default_deny, merge-denies_provider_tools,
}

abbrev pay : ToolEntry
pay = record {
  side_effecting = true;
  max_spend_cents = some 5000;
  spend_from_args = none;
  evidence_preset = some "receipt";
  vendor_pack = none;
  operation = none;
}

abbrev mail : ToolEntry
mail = record pay { max_spend_cents = none; evidence_preset = some "delivery" }

abbrev org_binding : Binding
org_binding = record { template_id = "tpl"; version_seq = some 2; head_digest = some "sha256:aa" }

abbrev usd : Number → Budget
usd n = record { max_spend_usd = some n; others = ("currency", str "usd") ∷ [] }

abbrev org_intent : IntentSection
org_intent = record {
  policy_binding = some org_binding;
  budget = some (usd (rational 100 0));
  allowed_tools = "pay" ∷ "read" ∷ [];
}

abbrev currency : Budget
currency = record { max_spend_usd = none; others = ("currency", str "usd") ∷ [] }

abbrev base : Document
base = v1 (record {
  name = "org";
  default_deny = true;
  tools = ("pay", pay) ∷ [];
  intent = some org_intent;
  adapter = some (record { deny_provider_executed_tools = some true });
})

abbrev no_override : ToolOverride
no_override = record {
  side_effecting = none;
  max_spend_cents = none;
  spend_from_args = none;
  evidence_preset = none;
  vendor_pack = none;
  operation = none;
}

abbrev overlay_of : ToolOverride → DocumentV2
overlay_of patch = record {
  name = "tenant";
  default_deny = false;
  tools = ("mail", mail) ∷ [];
  extends_ =
      some (record {
        org_policy_id = "org";
        org_id = "org_a";
        base_digest = none;
        base_policy = none;
      });
  overrides = some (record {
    default_deny = none;
    tools = some (("pay", patch) ∷ []);
    intent = none;
    adapter = none;
  });
  intent = some (record {
    policy_binding = none;
    budget = some (usd (rational 99 1));
    allowed_tools = "pay" ∷ [];
  });
  adapter = none;
}

abbrev overlay : DocumentV2
overlay =
    overlay_of
      (record no_override { max_spend_cents = some 1000; evidence_preset = some "delivery" })

abbrev patched_pay : ToolEntry
patched_pay = record pay { max_spend_cents = some 1000; evidence_preset = some "delivery" }

abbrev effective : DocumentV1
effective = record {
  name = "tenant";
  default_deny = true;
  tools = ("pay", patched_pay) ∷ ("mail", mail) ∷ [];
  intent = some (record {
    policy_binding = some org_binding;
    budget = some (usd (rational 99 1));
    allowed_tools = "pay" ∷ [];
  });
  adapter = some (record { deny_provider_executed_tools = some true });
}

abbrev result : MergeResult
result = record {
  effective = effective;
  report = record {
    org_policy_id = "org";
    org_id = "org_a";
    base_policy_name = "org";
    overlay_policy_name = "tenant";
    overrides_applied = "tools.pay.max_spend_cents" ∷ "tools.pay.evidence_preset" ∷ [];
    denied_widenings = [];
  };
}

abbrev approved : List String
approved = "delivery" ∷ []

merges : merge_paybond_policies approved base overlay ≡ ok result
unfolding merge_paybond_policies lookup insert update
merges = refl

-- Raising the cap is refused, and the error names the tool and the two caps.
refuses_wider_cap :
    merge_paybond_policies [] base (overlay_of (record no_override { max_spend_cents = some 5001 }))
    ≡ err (denied_widening (raise_spend_cap "pay" 5001 5000 ∷ []))
unfolding merge_paybond_policies lookup insert update
refuses_wider_cap = refl

merge-Refines_example : Refines (base_tools base) effective.tools
merge-Refines_example = merge-Refines approved base overlay merges

merge-lookup_added_example : lookup "mail" effective.tools ≡ lookup "mail" overlay.tools
unfolding lookup
merge-lookup_added_example = merge-lookup_added approved base overlay merges "mail" refl

merge-IntentHeld_example : IntentHeld org_intent effective.intent
merge-IntentHeld_example = merge-IntentHeld approved base overlay merges org_intent refl

rational-ne-nan : rational 100 0 ≢ nan
rational-ne-nan h = cc h

half-ne-nan : rational 99 1 ≢ nan
half-ne-nan h = cc h

merge-SectionCapped_example : SectionCapped (rational 100 0) effective.intent
merge-SectionCapped_example =
    merge-SectionCapped approved base overlay merges (rational 100 0) org_intent
      (usd (rational 100 0)) refl refl refl rational-ne-nan (half-ne-nan, refl)

merge-default_deny_example :
    effective.default_deny
    ≡ (base_default_deny base || overlay.default_deny || is_true (override_flag overlay))
merge-default_deny_example = merge-default_deny approved base overlay merges

merge-denies_provider_tools_example :
    (is_true (flag_of effective.adapter) ≡ true)
    × (is_false (flag_of overlay.adapter) ≡ false)
    × (is_false (flag_of (override_adapter overlay)) ≡ false)
merge-denies_provider_tools_example = merge-denies_provider_tools approved base overlay merges refl

pay-IsWellFormed : IsWellFormed pay
pay-IsWellFormed = record { has_preset = λ h. refl; one_spend_field = inr refl }

mail-IsWellFormed : IsWellFormed mail
mail-IsWellFormed = record { has_preset = λ h. refl; one_spend_field = inr refl }

merge-AllWellFormed_example : AllWellFormed effective.tools
merge-AllWellFormed_example =
    merge-AllWellFormed approved base overlay merges
      (AllWellFormed-of_entries (base_tools base) (pay-IsWellFormed, tt)) (mail-IsWellFormed, tt)

-- The override's budget names a currency alone, and the overlay's asks for more than the org's 100.
merge_budget-hidden_cap_example :
    IsClean
      (merge_budget (some (usd (rational 100 0))) (some (usd (rational 1000 0))) (some currency))
    × (cap_of
          (merge_budget
            (some (usd (rational 100 0)))
            (some (usd (rational 1000 0)))
            (some currency)).value
        ≡ some (rational 1000 0))
merge_budget-hidden_cap_example =
    merge_budget-hidden_cap (usd (rational 100 0)) (usd (rational 1000 0)) currency
      (rational 1000 0) refl refl refl
