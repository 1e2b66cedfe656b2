-- ===== src/Runner/Execute/Summary.antt =====
-- helpers/test-runner-service/src/test_runner_service/worker.py: the run's directory, its JUnit summary, and how a test run ends.
use pytest_hardware_template.Prelude.{
  String, Option, none, some, List, [], ◌∷◌, if◌then◌else◌, Result, ok, err,
}
use pytest_hardware_template.Paths.{FilePath, path_str, divide, parse}
use pytest_hardware_template.Runner.Settings.{Settings}
use pytest_hardware_template.Runner.Models
use pytest_hardware_template.Runner.Models.{
  ℤ, pos, is_zero, OperationState, OperationStatus, TestSummary, Update, model_copy,
}
use pytest_hardware_template.Runner.Artifacts.{Suite, resolve_report_path, read_junit_summary}
use pytest_hardware_template.Runner.Execute.Suspension.{Next, World, finish_with}

-- The outcome of the tests is the exit code of pytest.
abbrev pub run_status : ℤ → OperationStatus
run_status exit_code = if is_zero exit_code then OperationStatus.passed else OperationStatus.failed

unfoldable pub summary_of : Option (List Suite) → Option TestSummary × Option String
unfolding read_junit_summary
summary_of none = (none, some "The configured JUnit report could not be read")
summary_of (some suites) = (some (read_junit_summary suites), none)

unfoldable pub summary_in :
    World → Result String FilePath → Result String (Option TestSummary × Option String)
unfolding summary_of
summary_in w (err text) = err text
summary_in w (ok junit_file) =
    if w.fs.is_file junit_file
    then ok (summary_of (w.fs.junit junit_file))
    else ok (none, some "The configured JUnit report was not created")

unfoldable pub summary_by :
    World → FilePath → Option FilePath → Result String (Option TestSummary × Option String)
unfolding summary_in resolve_report_path
summary_by w run_directory none = ok (none, none)
summary_by w run_directory (some junit_path) =
    summary_in w (resolve_report_path w.fs run_directory junit_path)

module _ (settings : Settings) where
  -- `self._settings.artifacts_directory / state.run_id`
  unfoldable pub expected_directory : OperationState → FilePath
  expected_directory state = elim state.run_id [
    | none ↦ settings.artifacts_directory
    | some run_id ↦ divide settings.artifacts_directory (parse run_id)
  ]

  -- `_allocated_directory`
  unfoldable pub allocated : World → OperationState → Option String
  unfolding expected_directory
  allocated w state =
      if w.fs.is_dir (expected_directory state)
      then some (path_str (expected_directory state))
      else none

  -- `except Exception as error` of `_execute_test_run`
  unfoldable pub run_failed : World → OperationState → String → Next
  unfolding allocated
  run_failed w state text =
      finish_with w state OperationStatus.infrastructure_error none
        (Models.Update.message text ∷ Models.Update.artifact_directory (allocated w state) ∷ [])

  -- `_read_summary`: the summary and the JUnit message, or the text of a `ValueError`
  unfoldable pub read_summary :
      World → FilePath → Result String (Option TestSummary × Option String)
  unfolding summary_by
  read_summary w run_directory = summary_by w run_directory settings.junit_path

  -- The end of the `except TimeoutError` block of `_execute_test_run`.
  unfoldable pub run_timed_out : World → OperationState → List Update → Next
  unfolding allocated
  run_timed_out w state updates = finish_with w state OperationStatus.timed_out none (
      Models.Update.message "Hardware test run timed out"
      ∷ Models.Update.artifact_directory (allocated w state)
      ∷ updates)
