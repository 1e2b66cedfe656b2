-- ===== src/Scenarios.antt =====
-- src/hardware_test/scenarios.py: sequences of pytest markers.
use pytest_hardware_template.Prelude.{
  ℕ, String, Bool, true, false, Option, none, some, List, [], ◌∷◌, ◌||◌, not, ◌==◌, if◌then◌else◌,
  elem, map, nat_eq, matches_class, is_ascii_letter, is_ascii_digit, split, strip, Result, ok, err,
  ◌>>=◌, ◌>>◌, guard,
}
pub mod Unique
mod Witnesses

abbrev pub name_start : ℕ → Bool
name_start c = is_ascii_letter c || is_ascii_digit c

abbrev pub name_rest : ℕ → Bool
name_rest c = is_ascii_letter c || is_ascii_digit c || nat_eq c b'_' || nat_eq c b'-'

abbrev pub marker_start : ℕ → Bool
marker_start c = is_ascii_letter c || nat_eq c b'_'

abbrev pub marker_rest : ℕ → Bool
marker_rest c = is_ascii_letter c || is_ascii_digit c || nat_eq c b'_'

-- `_SCENARIO_NAME_PATTERN`
unfoldable pub is_scenario_name : String → Bool
unfolding matches_class
is_scenario_name s = matches_class name_start name_rest s

-- `_MARKER_NAME_PATTERN`
unfoldable pub is_marker_name : String → Bool
unfolding matches_class
is_marker_name s = matches_class marker_start marker_rest s

-- The reasons of `ScenarioError`.
pub data ScenarioError : Type 0 where
  invalid_name : String → ScenarioError
  no_marker : ScenarioError
  invalid_marker : String → ScenarioError
  duplicate_marker : String → ScenarioError
  cannot_read : String → ScenarioError
  invalid_yaml : String → ScenarioError
  invalid_content : String → ScenarioError
  unexpected_name : (declared : String) → (expected : String) → ScenarioError

-- `_first_duplicate`, with the values that were seen
unfoldable pub first_duplicate : List String → List String → Option String
first_duplicate seen [] = none
first_duplicate seen (v ∷ vs) =
    let rest = first_duplicate (v ∷ seen) vs in if elem v seen then some v else rest

unfoldable pub first_invalid : List String → Option String
unfolding is_marker_name
first_invalid [] = none
first_invalid (m ∷ ms) = let rest = first_invalid ms in if is_marker_name m then rest else some m

abbrev pub raise_on : (String → ScenarioError) → Option String → Result ScenarioError Unit
raise_on e none = ok tt
raise_on e (some m) = err (e m)

abbrev pub is_empty : List String → Bool
is_empty [] = true
is_empty (m ∷ ms) = false

unfoldable pub validate_markers : List String → Result ScenarioError (List String)
unfolding first_duplicate first_invalid strip
validate_markers values = do
  guard (not (is_empty (map strip values))) no_marker
  raise_on invalid_marker (first_invalid (map strip values))
  raise_on duplicate_marker (first_duplicate [] (map strip values))
  ok (map strip values)

unfoldable pub parse_marker_sequence : String → Result ScenarioError (List String)
unfolding validate_markers split
parse_marker_sequence value = validate_markers (split b',' value)

pub record ScenarioConfig : Type 0 where
  pub name : String
  pub markers : List String

-- What reading a scenario's file gives; `content` has the fields of a mapping that fits the model,
-- before their validators.
pub data ScenarioFile : Type 0 where
  unreadable : String → ScenarioFile
  not_yaml : String → ScenarioFile
  not_scenario : String → ScenarioFile
  content : (name : String) → (markers : List String) → ScenarioFile

-- `ScenarioConfig.model_validate`. Where both fields fail, the exception reports both, the name first.
unfoldable pub model_validate : String → List String → Result ScenarioError ScenarioConfig
unfolding validate_markers is_scenario_name
model_validate name markers = do
  guard (is_scenario_name name) (invalid_name name)
  valid ← validate_markers markers
  ok (record { name = name; markers = valid })

unfoldable pub read_scenario : ScenarioFile → Result ScenarioError ScenarioConfig
unfolding model_validate
read_scenario (unreadable text) = err (cannot_read text)
read_scenario (not_yaml text) = err (invalid_yaml text)
read_scenario (not_scenario text) = err (invalid_content text)
read_scenario (content name markers) = model_validate name markers

-- `files` reads the file of a name: test-runs/scenarios/<name>.yaml below the root.
unfoldable pub load_scenario :
    (files : String → ScenarioFile) → String → Result ScenarioError ScenarioConfig
unfolding read_scenario is_scenario_name
load_scenario files name = do
  guard (is_scenario_name name) (invalid_name name)
  scenario ← read_scenario (files name)
  guard (scenario.name == name) (unexpected_name scenario.name name)
  ok scenario
