-- ===== src/Scenarios/Witnesses.antt =====
-- The theorems on scenarios at concrete inputs.
use pytest_hardware_template.Prelude.{String, true, [], ◌∷◌, ◌≡◌, refl, map, strip}
use pytest_hardware_template.Scenarios.{
  ScenarioConfig, ScenarioFile, content, is_scenario_name, validate_markers, load_scenario,
}
use pytest_hardware_template.Scenarios.Unique.{
  IsSequence, validate_markers-IsSequence, load_scenario-IsSequence,
}

validate_markers-IsSequence_example :
    ("smoke" ∷ "soak" ∷ [] ≡ map strip (" smoke" ∷ "soak " ∷ []))
    × IsSequence ("smoke" ∷ "soak" ∷ [])
unfolding validate_markers
validate_markers-IsSequence_example =
    validate_markers-IsSequence (" smoke" ∷ "soak " ∷ []) ("smoke" ∷ "soak" ∷ []) refl

abbrev files : String → ScenarioFile
files name = content "nightly" ("smoke" ∷ [])

abbrev nightly : ScenarioConfig
nightly = record { name = "nightly"; markers = "smoke" ∷ [] }

load_scenario-IsSequence_example :
    (nightly.name ≡ "nightly") × (is_scenario_name "nightly" ≡ true) × IsSequence nightly.markers
unfolding load_scenario
load_scenario-IsSequence_example = load_scenario-IsSequence files "nightly" nightly refl
