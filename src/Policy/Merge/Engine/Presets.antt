-- ===== src/Policy/Merge/Engine/Presets.antt =====
-- The org-approved evidence presets.
use paybond_kit_python.Prelude.{String, ◌≡◌, ◌≢◌, ◌⊎◌, true, Option, some, List, bind, contains}
use paybond_kit_python.Prelude.Dict.{Dict, lookup}
use paybond_kit_python.Policy.Schema.{ToolEntry}

-- the preset that the base names for a tool
abbrev pub base_preset : Dict ToolEntry → String → Option String
base_preset base k = bind (lookup k base) (λ e. e.evidence_preset)

-- A side-effecting entry names the base's preset or an approved one, where the base names one.
pub record PresetApproved (approved : List String) (old : Option String) (e : ToolEntry)
    : Type 0 where
  pub at :
      (p q : String)
      → e.side_effecting ≡ true
      → e.evidence_preset ≡ some p
      → p ≢ ""
      → old ≡ some q
      → q ≢ ""
      → (p ≡ q) ⊎ (contains p approved ≡ true)
