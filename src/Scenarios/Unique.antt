-- ===== src/Scenarios/Unique.antt =====
-- What validated marker sequences are.
use mathlib.Core.Path.{subst}
use pytest_hardware_template.Prelude.{
  String, Bool, true, false, Option, none, some, List, [], ◌∷◌, not, ◌≡◌, ◌≢◌, refl, ◌==◌, elem,
  map, All, strip, ok, chain-ok, arith, eq_iff, ok-injective, guard, sym,
}
use pytest_hardware_template.Scenarios.{
  ScenarioError, no_marker, invalid_marker, duplicate_marker, invalid_name, unexpected_name,
  ScenarioConfig, ScenarioFile, unreadable, not_yaml, not_scenario, content, is_marker_name,
  is_scenario_name, first_duplicate, first_invalid, validate_markers, load_scenario, read_scenario,
  model_validate, raise_on, is_empty,
}

-- No text of the list is there twice.
abbrev pub AllDistinct : List String → Type 0
AllDistinct [] = Unit
AllDistinct (m ∷ ms) = (elem m ms ≡ false) × AllDistinct ms

abbrev pub IsMarker : String → Type 0
IsMarker m = is_marker_name m ≡ true

-- A sequence that is accepted: it has a marker, each is a marker's name, and none is there twice.
abbrev pub IsSequence : List String → Type 0
IsSequence ms = (ms ≢ []) × All IsMarker ms × AllDistinct ms

first_invalid-All : (ms : List String) → first_invalid ms ≡ none → All IsMarker ms
unfolding first_invalid
first_invalid-All [] h = tt
first_invalid-All (m ∷ ms) h = (ground arith, first_invalid-All ms (ground arith))

-- What follows has none of the values that were seen.
first_duplicate-excludes :
    (v : String) (seen ms : List String)
    → first_duplicate seen ms ≡ none
    → elem v seen ≡ true
    → elem v ms ≡ false
unfolding first_duplicate
first_duplicate-excludes v seen [] h e = refl
first_duplicate-excludes v seen (m ∷ ms) h e =
    ground (arith, eq_iff v m, first_duplicate-excludes v (m ∷ seen) ms)

elem_self : (m : String) (ms : List String) → elem m (m ∷ ms) ≡ true
elem_self m ms = ground (arith, eq_iff m m)

first_duplicate-AllDistinct :
    (seen ms : List String) → first_duplicate seen ms ≡ none → AllDistinct ms
unfolding first_duplicate
first_duplicate-AllDistinct seen [] h = tt
first_duplicate-AllDistinct seen (m ∷ ms) h =
    let r : first_duplicate (m ∷ seen) ms ≡ none = ground arith in
    (
      first_duplicate-excludes m (m ∷ seen) ms r (elem_self m seen),
      first_duplicate-AllDistinct (m ∷ seen) ms r,
    )

raise_on-none : (e : String → ScenarioError) (o : Option String) → raise_on e o ≡ ok tt → o ≡ none
raise_on-none e none h = refl
raise_on-none e (some m) h = cc

checked-IsSequence :
    (ms : List String)
    → not (is_empty ms) ≡ true
    → first_invalid ms ≡ none
    → first_duplicate [] ms ≡ none
    → IsSequence ms
checked-IsSequence [] h i d = cc
checked-IsSequence (m ∷ ms) h i d =
    (λ e. cc, first_invalid-All (m ∷ ms) i, first_duplicate-AllDistinct [] (m ∷ ms) d)

guard-true : (b : Bool) (e : ScenarioError) → guard b e ≡ ok tt → b ≡ true
guard-true true e h = refl
guard-true false e h = cc

-- A sequence of markers that is accepted is the given one with white space stripped; it has at least
-- one marker, each is a marker's name, and none is there twice.
pub validate_markers-IsSequence :
    (values ms : List String)
    → validate_markers values ≡ ok ms
    → (ms ≡ map strip values) × IsSequence ms
unfolding validate_markers
validate_markers-IsSequence values ms h =
    let s = map strip values in
    let (_, a, k) = chain-ok (guard (not (is_empty s)) no_marker) _ h in
    let (_, b, l) = chain-ok (raise_on invalid_marker (first_invalid s)) _ k in
    let (_, c, m) = chain-ok (raise_on duplicate_marker (first_duplicate [] s)) _ l in
    let e = ok-injective m in
    (
      sym e,
      subst IsSequence e
          (checked-IsSequence s (guard-true _ _ a) (raise_on-none _ _ b) (raise_on-none _ _ c)),
    )

read_scenario-IsSequence :
    (file : ScenarioFile) (c : ScenarioConfig) → read_scenario file ≡ ok c → IsSequence c.markers
unfolding read_scenario model_validate
read_scenario-IsSequence (unreadable text) c h = cc
read_scenario-IsSequence (not_yaml text) c h = cc
read_scenario-IsSequence (not_scenario text) c h = cc
read_scenario-IsSequence (content name markers) c h =
    let (_, a, k) = chain-ok (guard (is_scenario_name name) (invalid_name name)) _ h in
    let (valid, b, l) = chain-ok (validate_markers markers) _ k in
    subst (λ (x : ScenarioConfig). IsSequence x.markers) (ok-injective l)
      (validate_markers-IsSequence markers valid b).1

-- A scenario that is loaded under a name declares that name, the name is safe as a file's name, and
-- its markers are a valid sequence.
pub load_scenario-IsSequence :
    (files : String → ScenarioFile) (name : String) (scenario : ScenarioConfig)
    → load_scenario files name ≡ ok scenario
    → (scenario.name ≡ name) × (is_scenario_name name ≡ true) × IsSequence scenario.markers
unfolding load_scenario
load_scenario-IsSequence files name scenario h =
    let (_, a, k) = chain-ok (guard (is_scenario_name name) (invalid_name name)) _ h in
    let (c, b, l) = chain-ok (read_scenario (files name)) _ k in
    let (_, d, m) = chain-ok (guard (c.name == name) (unexpected_name c.name name)) _ l in
    let n : c.name ≡ name = ground (arith, guard-true _ _ d, eq_iff c.name name) in
    subst
      (λ (x : ScenarioConfig).
        (x.name ≡ name) × (is_scenario_name name ≡ true) × IsSequence x.markers)
      (ok-injective m) (n, guard-true _ _ a, read_scenario-IsSequence (files name) c b)
