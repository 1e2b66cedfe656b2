-- ===== src/Runner/Execute.antt =====
-- helpers/test-runner-service/src/test_runner_service/worker.py: the two coroutines that carry an
-- operation out. A coroutine that is suspended is a value of `Await`, which names the place and
-- holds the local variables; `resume` runs it on to its next `await` or to its end.
-- The file system answers, and the record and the log are written, without an exception.
mod Suspension
mod Output
mod Image
mod Summary
mod Publish
unfoldable pub use Suspension.*
unfoldable pub use Output.*
unfoldable pub use Image.*
unfoldable pub use Summary.*
unfoldable pub use Publish.*
use pytest_hardware_template.Prelude.{
  ℕ, String, Bool, true, false, Option, none, some, List, [], ◌∷◌, ◌++◌, ◌||◌, ◌&&◌, not, ◌==◌,
  nat_eq, leb, if◌then◌else◌, concat, any_char, has_prefix, split_by, strip, rstrip, is_space,
  Result, ok, err,
}
use pytest_hardware_template.Paths.{FilePath, path_str, divide, parse}
use pytest_hardware_template.Runner.Settings.{Settings}
use pytest_hardware_template.Runner.Models
use pytest_hardware_template.Runner.Models.{
  ℤ, pos, is_zero, OperationState, OperationStatus, TestSummary, Update, model_copy,
}
use pytest_hardware_template.Runner.Docker.{
  CommandError, invalid_image_reference, runtime_error, Command, inspect_image, publish_allure,
}
use pytest_hardware_template.Runner.Artifacts.{
  FileSystem, Suite, resolve_report_path, read_junit_summary,
}
use pytest_hardware_template.Runner.Portal.{Answer, read_reportportal_result}

module _ (settings : Settings) where
  -- A run whose directory exists, by its summary.
  unfoldable pub after_summary :
      World
      → Bool
      → OperationState
      → ℤ
      → List Update
      → Result String (Option TestSummary × Option String)
      → Next
  unfolding publish
  after_summary w cancelled state exit_code updates (err text) = run_failed settings w state text
  after_summary w cancelled state exit_code updates (ok (summary, junit_message)) =
      let p : Publishing = record {
        exit_code = exit_code;
        run_directory = expected_directory settings state;
        summary = summary;
        junit_message = junit_message;
        updates = updates;
      } in
      if settings.allure_enabled
      then publish settings w cancelled state p
      else returned (save (settle w false state p []) ∷ [])

  -- What follows the ReportPortal lookup of a run whose process has ended.
  unfoldable pub after_report : World → Bool → OperationState → ℤ → List Update → Next
  unfolding after_summary read_summary allocated
  after_report w cancelled state exit_code updates =
      if cancelled
      then finish_with w state OperationStatus.cancelled (some exit_code)
          (Models.Update.artifact_directory (allocated settings w state) ∷ updates)
      else if w.fs.is_dir (expected_directory settings state)
      then after_summary w cancelled state exit_code updates
          (read_summary settings w (expected_directory settings state))
      else finish_with w state (run_status exit_code) (some exit_code) (
          Models.Update.artifact_directory none
          ∷ Models.Update.summary none
          ∷ Models.Update.junit_message none
          ∷ updates)

  unfoldable pub after_run_command : World → Bool → OperationState → Outcome → Next
  unfolding after_report
  after_run_command w cancelled state (exited exit_code output) =
      if settings.reportportal_enabled
      then waiting [] (run_lookup state exit_code)
      else after_report w cancelled state exit_code []
  after_run_command w cancelled state timed_out =
      waiting (kill state.container_name ∷ []) (run_kill state)
  after_run_command w cancelled state (raised text) = run_failed settings w state text

  abbrev pub environment : Option (String × String)
  environment = elim settings.reportportal_api_key [
    | none ↦ none
    | some token ↦ if settings.reportportal_enabled then some ("RP_API_KEY", token) else none
  ]

  abbrev pub start_run_command : OperationState → Command → Option String → Next
  start_run_command state command none = died []
  start_run_command state command (some run_id) =
      waiting (spawn command environment ∷ []) (run_command state)

  unfoldable pub resume : World → (cancelled : Bool) → Await → Wakeup → Next
  unfolding after_image_command after_image_inspect after_run_command after_publisher run_timed_out
  resume w cancelled (image_created state command reference) scheduled =
      waiting (spawn command none ∷ []) (image_command state reference)
  resume w cancelled (image_command state reference) (process outcome) =
      after_image_command w cancelled state reference outcome
  resume w cancelled (image_inspect state reference) (process outcome) =
      after_image_inspect w state reference outcome
  resume w cancelled (image_kill state) (killed none) =
      finish_with w state OperationStatus.timed_out none
        (Models.Update.message "Image operation timed out" ∷ [])
  resume w cancelled (image_kill state) (killed (some text)) = died []
  resume w cancelled (run_created state command) scheduled =
      start_run_command state command state.run_id
  resume w cancelled (run_command state) (process outcome) =
      after_run_command w cancelled state outcome
  resume w cancelled (run_lookup state exit_code) (portal answer) =
      after_report w cancelled state exit_code
        (read_reportportal_result settings state.operation_id answer)
  resume w cancelled (run_publish state p) (process outcome) =
      after_publisher w cancelled state p outcome
  resume w cancelled (run_publish_kill state p) (killed none) =
      after_publish [] w cancelled state p (report_failed "Allure publication timed out")
  resume w cancelled (run_publish_kill state p) (killed (some text)) =
      run_failed settings w state text
  resume w cancelled (run_kill state) (killed none) =
      if settings.reportportal_enabled
      then waiting [] (run_kill_lookup state)
      else run_timed_out settings w state []
  resume w cancelled (run_kill state) (killed (some text)) = died []
  resume w cancelled (run_kill_lookup state) (portal answer) =
      run_timed_out settings w state (read_reportportal_result settings state.operation_id answer)
  resume w cancelled _ _ = ignored
