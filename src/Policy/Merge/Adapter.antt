-- ===== src/Policy/Merge/Adapter.antt =====
-- `_merge_adapter_section`.
pub mod Laws
use paybond_kit_python.Prelude.{
  Bool, true, false, not, ◌&&◌, ◌||◌, Option, none, some, is_some, bind, if◌then◌else◌,
}
use paybond_kit_python.Policy.Schema.{AdapterSection}
use paybond_kit_python.Policy.Merge.Report.{
  Merged, pure, deny, apply, ◌>>=◌, ◌>>◌, relax_provider_deny,
}

-- the flag of a section, `None` where the section is absent
abbrev pub flag_of : Option AdapterSection → Option Bool
flag_of o = bind o (λ a. a.deny_provider_executed_tools)

-- `flag is True` and `flag is False`
abbrev pub is_true : Option Bool → Bool
is_true (some true) = true
is_true _ = false

abbrev pub is_false : Option Bool → Bool
is_false (some false) = true
is_false _ = false

check_relaxed : Option Bool → Option Bool → Option Bool → Merged (Unit {0})
check_relaxed base overlay override =
    if is_true base && (is_false overlay || is_false override)
    then deny relax_provider_deny tt
    else pure tt

note_override : Option Bool → Merged (Unit {0})
note_override none = pure tt
note_override (some _) = apply "overrides.adapter.deny_provider_executed_tools" tt

unfoldable pub merge_adapter_section :
    Option AdapterSection
    → Option AdapterSection
    → Option AdapterSection
    → Merged (Option AdapterSection)
unfolding check_relaxed note_override
merge_adapter_section base overlay override =
    if is_some (flag_of base) || is_some (flag_of overlay) || is_some (flag_of override)
    then (do
      check_relaxed (flag_of base) (flag_of overlay) (flag_of override)
      note_override (flag_of override)
      pure (
          some (record {
            deny_provider_executed_tools =
                some (
                  is_true (flag_of base)
                  || is_true (flag_of overlay)
                  || is_true (flag_of override));
          })))
    else pure none
