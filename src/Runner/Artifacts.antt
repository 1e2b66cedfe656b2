-- ===== src/Runner/Artifacts.antt =====
-- helpers/test-runner-service/src/test_runner_service/artifacts.py: the report files of a run. What
-- the file system says is the parameter `FileSystem`.
pub mod Summary
use pytest_hardware_template.Prelude.{
  ℕ, ◌+◌, ◌-◌, String, Bool, Option, none, some, List, [], ◌∷◌, ◌++◌, ◌||◌, ◌&&◌, not, ◌==◌,
  if◌then◌else◌, concat, Dict, lookup, Result, ok, err, ◌>>=◌,
}
use pytest_hardware_template.Paths.{FilePath, divide, is_relative_to, path_eq, parse, parent}
use pytest_hardware_template.Runner.Settings.{Settings}
use pytest_hardware_template.Runner.Models.{TestSummary}

-- The counts on one `testsuite` element; a missing attribute is 0.
pub record Suite : Type 0 where
  pub tests : ℕ
  pub failures : ℕ
  pub errors : ℕ
  pub skipped : ℕ

-- `junit` gives the suites of a report, or `none` where it cannot be parsed.
pub record FileSystem : Type 0 where
  pub resolve : FilePath → FilePath
  pub is_dir : FilePath → Bool
  pub is_file : FilePath → Bool
  pub size : FilePath → ℕ
  pub junit : FilePath → Option (List Suite)

unfoldable pub entry : String → Option FilePath → Dict FilePath
entry label none = []
entry label (some path) = (label, path) ∷ []

unfoldable pub configured_artifacts : Settings → Dict FilePath
unfolding entry
configured_artifacts settings =
    entry "pytest.log" settings.pytest_log_path
    ++ entry "junit.xml" settings.junit_path
    ++ entry "report.html" settings.html_path

-- The error is the text of the `ValueError`.
unfoldable pub resolve_report_path :
    FileSystem → (run_directory relative_path : FilePath) → Result String FilePath
resolve_report_path fs run_directory relative_path =
    let root = fs.resolve run_directory in
    let path = fs.resolve (divide root relative_path) in
    if not (is_relative_to path root) || path_eq path root
    then err "report path escapes the session directory"
    else ok path

abbrev pub total : (Suite → ℕ) → List Suite → ℕ
total f [] = 0
total f (s ∷ ss) = f s + total f ss

-- `max(a - b - c - d, 0)` is the truncated difference.
unfoldable pub read_junit_summary : List Suite → TestSummary
read_junit_summary suites =
    let tests = total (λ s. s.tests) suites in
    let failures = total (λ s. s.failures) suites in
    let errors = total (λ s. s.errors) suites in
    let skipped = total (λ s. s.skipped) suites in
    record {
      total = tests;
      passed = tests - failures - errors - skipped;
      failed = failures;
      errors = errors;
      skipped = skipped;
    }

pub record ArtifactItem : Type 0 where
  pub name : String
  pub size : ℕ
  pub download_url : String

unfoldable pub list_entries :
    FileSystem → FilePath → String → Dict FilePath → Result String (List ArtifactItem)
list_entries fs run_directory url_prefix [] = ok []
list_entries fs run_directory url_prefix ((name, relative_path) ∷ rest) = do
  path ← resolve_report_path fs run_directory relative_path
  items ← list_entries fs run_directory url_prefix rest
  ok (
      if fs.is_file path
      then record {
        name = name;
        size = fs.size path;
        download_url = concat (url_prefix ∷ "/" ∷ name ∷ []);
      }
        ∷ items
      else items)

unfoldable pub list_artifacts :
    FileSystem → FilePath → Settings → String → Result String (List ArtifactItem)
unfolding list_entries configured_artifacts
list_artifacts fs run_directory settings url_prefix =
    list_entries fs run_directory url_prefix (configured_artifacts settings)

unfoldable pub resolve_run_directory : FileSystem → FilePath → String → Option FilePath
resolve_run_directory fs artifacts_directory run_id =
    let root = fs.resolve artifacts_directory in
    let path = fs.resolve (divide root (parse run_id)) in
    if path_eq (parent path) root && fs.is_dir path then some path else none

unfoldable pub resolve_artifact :
    FileSystem → FilePath → Settings → String → Result String (Option FilePath)
resolve_artifact fs run_directory settings name =
    elim (lookup name (configured_artifacts settings)) [
      | none ↦ ok none
      | some relative_path ↦ (do
        path ← resolve_report_path fs run_directory relative_path
        ok (if fs.is_file path then some path else none))
    ]
