-- ===== src/Policy/Schema.antt =====
-- Policy documents: the dataclasses of src/paybond_kit/policy/schema.py, as a parsed document
-- holds them. Whole numbers are at least 0 there (`_expect_int` with its minimum), so they are ℕ.
use paybond_kit_python.Prelude.{ℕ, String, Bool, Option, List, is_some}
use paybond_kit_python.Policy.Value.{Value, Number}
pub use paybond_kit_python.Policy.Value.{Number, rational, infinity, nan, gt}
use paybond_kit_python.Prelude.Dict.{Dict}

pub record ToolEntry : Type 0 where
  pub side_effecting : Bool
  pub max_spend_cents : Option ℕ
  pub spend_from_args : Option String
  pub evidence_preset : Option String
  pub vendor_pack : Option String
  pub operation : Option String

pub record Binding : Type 0 where
  pub template_id : String
  pub version_seq : Option ℕ
  pub head_digest : Option String

-- The keys of a budget other than its cap are kept as they were decoded. A cap that is True or
-- False counts as the 1 or the 0 that it is equal to.
pub record Budget : Type 0 where
  pub max_spend_usd : Option Number
  pub others : Dict Value

pub record IntentSection : Type 0 where
  pub policy_binding : Option Binding
  pub budget : Option Budget
  pub allowed_tools : List String

pub record AdapterSection : Type 0 where
  pub deny_provider_executed_tools : Option Bool

pub record ToolOverride : Type 0 where
  pub side_effecting : Option Bool
  pub max_spend_cents : Option ℕ
  pub spend_from_args : Option String
  pub evidence_preset : Option String
  pub vendor_pack : Option String
  pub operation : Option String

pub record BindingOverride : Type 0 where
  pub template_id : Option String
  pub version_seq : Option ℕ
  pub head_digest : Option String

pub record IntentOverride : Type 0 where
  pub policy_binding : Option BindingOverride
  pub budget : Option Budget
  pub allowed_tools : List String

pub record Extends : Type 0 where
  pub org_policy_id : String
  pub org_id : String
  pub base_digest : Option String
  pub base_policy : Option String

pub record Overrides : Type 0 where
  pub default_deny : Option Bool
  pub tools : Option (Dict ToolOverride)
  pub intent : Option IntentOverride
  pub adapter : Option AdapterSection

pub record DocumentV1 : Type 0 where
  pub name : String
  pub default_deny : Bool
  pub tools : Dict ToolEntry
  pub intent : Option IntentSection
  pub adapter : Option AdapterSection

pub record DocumentV2 : Type 0 where
  pub name : String
  pub default_deny : Bool
  pub tools : Dict ToolEntry
  pub extends_ : Option Extends
  pub overrides : Option Overrides
  pub intent : Option IntentSection
  pub adapter : Option AdapterSection

pub data Document : Type 0 where
  v1 : DocumentV1 → Document
  v2 : DocumentV2 → Document

-- is_paybond_policy_overlay
unfoldable pub is_overlay : DocumentV2 → Bool
is_overlay document = is_some document.extends_
