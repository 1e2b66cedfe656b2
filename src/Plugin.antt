-- ===== src/Plugin.antt =====
-- src/hardware_test/pytest_plugin.py: the selection and the order of collected tests, and the
-- identity of a session. Options, the registered markers and the collected items are pytest's.
pub mod Selection
mod Witnesses
use pytest_hardware_template.Prelude.{
  ℕ, String, Bool, true, false, Option, none, some, List, [], ◌∷◌, ◌++◌, ◌||◌, ◌&&◌, not, ◌==◌,
  if◌then◌else◌, elem, any, nat_eq, leb, is_ascii_letter, is_ascii_digit, matches_class, is_some,
  split, strip, Result, ok, err, ◌>>=◌, ◌>>◌, guard,
}
use pytest_hardware_template.Paths.{FilePath, parse, path_eq, parent, divide}
use pytest_hardware_template.Scenarios.{
  ScenarioError, ScenarioConfig, ScenarioFile, parse_marker_sequence, load_scenario,
}

-- A collected test: its node, the parts of its file's path, and the names of its markers.
pub record Item : Type 0 where
  pub nodeid : String
  pub path_parts : List String
  pub markers : List String

-- `pytest.UsageError`
pub data UsageError : Type 0 where
  both_options : UsageError
  scenario_error : ScenarioError → UsageError
  not_registered : String → UsageError
  several_steps : (nodeid : String) → List String → UsageError
  empty_step : String → UsageError
  stand_required : UsageError
  invalid_run_id : UsageError
  outside_root : UsageError
  not_created : UsageError

-- An option that is unset or empty.
abbrev pub given : Option String → Option String
given none = none
given (some s) = if s == "" then none else some s

abbrev pub or_usage_error : {A : Type 0} → Result ScenarioError A → Result UsageError A
or_usage_error (ok a) = ok a
or_usage_error (err e) = err (scenario_error e)

abbrev pub markers_of : Result ScenarioError ScenarioConfig → Result ScenarioError (List String)
markers_of (ok c) = ok c.markers
markers_of (err e) = err e

-- The two options, by whether they are given
unfoldable pub sequence_of :
    (files : String → ScenarioFile)
    → Option String
    → Option String
    → Result UsageError (List String)
unfolding parse_marker_sequence load_scenario
sequence_of files (some sequence) (some scenario) = err both_options
sequence_of files (some sequence) none = or_usage_error (parse_marker_sequence sequence)
sequence_of files none (some scenario) = or_usage_error (markers_of (load_scenario files scenario))
sequence_of files none none = ok []

-- `_get_marker_sequence`
unfoldable pub get_marker_sequence :
    (files : String → ScenarioFile) (marker_sequence scenario : Option String)
    → Result UsageError (List String)
unfolding sequence_of
get_marker_sequence files marker_sequence scenario =
    sequence_of files (given marker_sequence) (given scenario)

abbrev pub head_or_empty : List String → String
head_or_empty [] = ""
head_or_empty (s ∷ ss) = s

-- `definition.partition(":")[0].partition("(")[0].strip()`
unfoldable pub marker_name : String → String
unfolding split strip
marker_name definition = strip (head_or_empty (split b'(' (head_or_empty (split b':' definition))))

abbrev pub is_registered : List String → String → Bool
is_registered definitions marker = any (λ d. marker_name d == marker) definitions

-- `_validate_registered_markers`
unfoldable pub validate_registered_markers : List String → List String → Result UsageError Unit
unfolding marker_name
validate_registered_markers definitions [] = ok tt
validate_registered_markers definitions (m ∷ ms) = do
  guard (is_registered definitions m) (not_registered m)
  validate_registered_markers definitions ms

-- `item.get_closest_marker(marker) is not None`
abbrev pub has : Item → String → Bool
has item marker = elem marker item.markers

abbrev pub when : Bool → String → List String
when test s = if test then s ∷ [] else []

-- The markers of the suites in whose directories a test stands.
unfoldable pub add_suite_markers : Item → Item
add_suite_markers item = record item {
  markers =
      item.markers
      ++ when (elem "unit" item.path_parts) "unit"
      ++ when (elem "integration" item.path_parts) "integration"
      ++ when (elem "hardware" item.path_parts) "hardware";
}

unfoldable pub matching_markers : Item → List String → List String
matching_markers item [] = []
matching_markers item (m ∷ ms) =
    let rest = matching_markers item ms in if has item m then m ∷ rest else rest

-- `grouped`: the tests of each step.
abbrev pub Groups : Type 0
Groups = String → List Item

abbrev pub append : String → Item → Groups → Groups
append marker item grouped m = if m == marker then grouped m ++ item ∷ [] else grouped m

-- The loop over the items.
unfoldable pub group :
    List String → List Item → Groups → List Item → Result UsageError (Groups × List Item)
unfolding matching_markers
group sequence [] grouped deselected = ok (grouped, deselected)
group sequence (item ∷ items) grouped deselected = elim (matching_markers item sequence) [
  | [] ↦ group sequence items grouped (deselected ++ item ∷ [])
  | m ∷ [] ↦ group sequence items (append m item grouped) deselected
  | m ∷ n ∷ ms ↦ err (several_steps item.nodeid (m ∷ n ∷ ms))
]

unfoldable pub empty_marker : List String → Groups → Option String
empty_marker [] grouped = none
empty_marker (m ∷ ms) grouped =
    let rest = empty_marker ms grouped in elim (grouped m) [ [] ↦ some m | i ∷ is ↦ rest ]

unfoldable pub in_order : List String → Groups → List Item
in_order [] grouped = []
in_order (m ∷ ms) grouped = grouped m ++ in_order ms grouped

abbrev pub ordered : List String → Groups × List Item → Result UsageError (List Item × List Item)
ordered sequence (grouped, deselected) = elim (empty_marker sequence grouped) [
  | some m ↦ err (empty_step m)
  | none ↦ ok (in_order sequence grouped, deselected)
]

-- `_apply_marker_sequence`: the selected tests in their new order, and the deselected ones.
unfoldable pub apply_marker_sequence :
    List String → List Item → Result UsageError (List Item × List Item)
unfolding group empty_marker in_order
apply_marker_sequence sequence items = do
  groups ← group sequence items (λ m. []) []
  ordered sequence groups

abbrev pub select : List String → List Item → Result UsageError (List Item × List Item)
select [] items = ok (items, [])
select (m ∷ ms) items = apply_marker_sequence (m ∷ ms) items

abbrev pub is_empty : List String → Bool
is_empty [] = true
is_empty (m ∷ ms) = false

abbrev pub with_suites : List Item → List Item
with_suites [] = []
with_suites (i ∷ is) = add_suite_markers i ∷ with_suites is

-- `pytest_collection_modifyitems`; `arguments` are the parts of the paths on the command line.
unfoldable pub collection_modifyitems :
    (sequence : List String) (arguments : List (List String)) (stand : Option String)
    → List Item
    → Result UsageError (List Item × List Item)
unfolding apply_marker_sequence add_suite_markers
collection_modifyitems sequence arguments stand items = do
  selected ← select sequence (with_suites items)
  guard
      (not (
          any (λ i. has i "hardware") selected.0
          || (is_empty sequence && any (λ parts. elem "hardware" parts) arguments))
        || is_some stand)
      stand_required
  ok selected
