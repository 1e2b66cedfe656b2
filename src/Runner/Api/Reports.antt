-- ===== src/Runner/Api/Reports.antt =====
-- helpers/test-runner-service/src/test_runner_service/api.py: the routes of the configuration and of the
-- reports, with the listing of runs in artifacts.py.
use pytest_hardware_template.Prelude.{
  ℕ, String, Option, none, some, List, [], ◌∷◌, ◌++◌, ◌||◌, not, ◌==◌, if◌then◌else◌, leb, concat,
  Dict, Result, ok, err,
}
use pytest_hardware_template.Paths.{FilePath, parse, parent, path_eq, is_relative_to, name}
use pytest_hardware_template.Runner.Settings.{Settings}
use pytest_hardware_template.Runner.Models.{OperationState}
use pytest_hardware_template.Runner.Artifacts.{
  FileSystem, ArtifactItem, list_artifacts, resolve_artifact, resolve_run_directory,
}
use pytest_hardware_template.Runner.Portal.{origin, launches_url}
use pytest_hardware_template.Runner.Store.{StateStore, read}

-- `UiConfig`
pub record UiConfig : Type 0 where
  pub allure_reports_url : Option String
  pub reportportal_launches_url : Option String

-- `ui_config`, with `urlencode`
unfoldable pub ui_config : (Dict String → String) → Settings → UiConfig
unfolding launches_url origin concat
ui_config urlencode settings = record {
  allure_reports_url = elim settings.allure_public_url [
    | none ↦ none
    | some url ↦
        if settings.allure_enabled
        then some (
            concat (
              origin url
              ∷ "/reports/tree?"
              ∷ urlencode (("repo", settings.allure_repository) ∷ [])
              ∷ []))
        else none
  ];
  reportportal_launches_url = launches_url settings;
}

-- A file that is sent, under a name where the browser is to save it
pub data Download : Type 0 where
  file : FilePath → (filename : Option String) → Download
  not_found : (detail : String) → Download
  escaping : Download

module _ (fs : FileSystem) (settings : Settings) where
  abbrev pub directory_of : Option String → Result String FilePath
  directory_of none = err "the current operation has no artifacts"
  directory_of (some directory) =
      let path = fs.resolve (parse directory) in
      if not (is_relative_to path (fs.resolve settings.artifacts_directory)) || not (fs.is_dir path)
      then err "artifact directory is unavailable"
      else ok path

  abbrev pub directory_in : Option OperationState → Result String FilePath
  directory_in none = err "the current operation has no artifacts"
  directory_in (some state) = directory_of state.artifact_directory

  -- `_current_artifact_directory`: the error is the detail of a 404.
  unfoldable pub current_artifact_directory : StateStore → Result String FilePath
  unfolding read parse is_relative_to
  current_artifact_directory store = directory_in (read store)

  abbrev pub sent : String → Result String (Option FilePath) → Download
  sent name (err e) = escaping
  sent name (ok none) = not_found "artifact not found"
  sent name (ok (some path)) = file path (if name == "report.html" then none else some name)

  abbrev pub artifact_in : String → Result String FilePath → Download
  artifact_in name (err e) = not_found e
  artifact_in name (ok directory) = sent name (resolve_artifact fs directory settings name)

  abbrev pub listing_of : Result String FilePath → Result String (List ArtifactItem)
  listing_of (err e) = err e
  listing_of (ok directory) = list_artifacts fs directory settings "/v1/current/artifacts"

  -- `artifacts`
  unfoldable pub artifacts : StateStore → Result String (List ArtifactItem)
  unfolding current_artifact_directory list_artifacts
  artifacts store = listing_of (current_artifact_directory store)

  -- `artifact`
  unfoldable pub artifact : StateStore → String → Download
  unfolding current_artifact_directory resolve_artifact
  artifact store name = artifact_in name (current_artifact_directory store)

  -- `historical_artifact`
  unfoldable pub historical_artifact : (run_id name : String) → Download
  unfolding resolve_run_directory resolve_artifact
  historical_artifact run_id name =
      elim (resolve_run_directory fs settings.artifacts_directory run_id) [
        | none ↦ not_found "artifact run not found"
        | some directory ↦ sent name (resolve_artifact fs directory settings name)
      ]

-- `ArtifactRun`
pub record ArtifactRun : Type 0 where
  pub run_id : String
  pub modified_at : ℕ
  pub items : List ArtifactItem

-- `runs.sort(key=..., reverse=True)`: runs of one moment keep their order.
unfoldable pub insert_run : ArtifactRun → List ArtifactRun → List ArtifactRun
insert_run r [] = r ∷ []
insert_run r (s ∷ runs) =
    let rest = insert_run r runs in
    if leb s.modified_at r.modified_at then r ∷ s ∷ runs else s ∷ rest

unfoldable pub newest_first : List ArtifactRun → List ArtifactRun
unfolding insert_run
newest_first [] = []
newest_first (r ∷ runs) = insert_run r (newest_first runs)

module _ (fs : FileSystem) (modified_at : FilePath → ℕ) (settings : Settings) where
  abbrev pub run_with :
      FilePath → Result String (List ArtifactItem) → Result String (List ArtifactRun)
  run_with path (err e) = err e
  run_with path (ok []) = ok []
  run_with path (ok (item ∷ items)) =
      ok (record { run_id = name path; modified_at = modified_at path; items = item ∷ items } ∷ [])

  -- The run of one entry of the directory, if it is one
  unfoldable pub run_of : FilePath → Result String (List ArtifactRun)
  unfolding list_artifacts concat name parent path_eq
  run_of path =
      if not (fs.is_dir path)
        || not (path_eq (parent (fs.resolve path)) (fs.resolve settings.artifacts_directory))
      then ok []
      else run_with path
          (list_artifacts fs path settings (concat ("/v1/artifact-runs/" ∷ name path ∷ [])))

  abbrev pub both :
      Result String (List ArtifactRun)
      → Result String (List ArtifactRun)
      → Result String (List ArtifactRun)
  both (err e) r = err e
  both (ok runs) (err e) = err e
  both (ok runs) (ok more) = ok (runs ++ more)

  unfoldable pub runs_of : List FilePath → Result String (List ArtifactRun)
  unfolding run_of
  runs_of [] = ok []
  runs_of (path ∷ paths) = both (run_of path) (runs_of paths)

  -- `list_artifact_runs`, for the entries that `iterdir` gives
  unfoldable pub list_artifact_runs : List FilePath → Result String (List ArtifactRun)
  unfolding runs_of newest_first
  list_artifact_runs entries = elim (runs_of entries) [
    | err e ↦ err e
    | ok runs ↦ ok (newest_first runs)
  ]
