-- ===== src/Policy/Merge/Adapter/Laws.antt =====
-- A merge without denials never turns off the org's `deny_provider_executed_tools`.
use paybond_kit_python.Prelude.{◌≡◌, true, false, ◌||◌, Option, arith}
use paybond_kit_python.Policy.Schema.{AdapterSection}
use paybond_kit_python.Policy.Merge.Report.{IsClean}
use paybond_kit_python.Policy.Merge.Adapter.{
  flag_of, is_true, is_false, check_relaxed, merge_adapter_section,
}

module _ (base overlay override : Option AdapterSection) where
  -- Whatever is denied, the merged flag is the disjunction of the three.
  pub flag-merge_adapter_section :
      is_true (flag_of (merge_adapter_section base overlay override).value)
      ≡ (is_true (flag_of base) || is_true (flag_of overlay) || is_true (flag_of override))
  unfolding merge_adapter_section
  flag-merge_adapter_section = ground arith

  -- Without denials neither tenant section says `false` where the org says `true`.
  pub merge_adapter_section-not_relaxed :
      IsClean (merge_adapter_section base overlay override)
      → is_true (flag_of base) ≡ true
      → (is_false (flag_of overlay) ≡ false) × (is_false (flag_of override) ≡ false)
  unfolding merge_adapter_section check_relaxed
  merge_adapter_section-not_relaxed h org = ground arith
