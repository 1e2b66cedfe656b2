-- ===== src/Runner/Execute/Publish.antt =====
-- helpers/test-runner-service/src/test_runner_service/worker.py: `_publish_allure`, and how a test
-- run goes on behind it.
use pytest_hardware_template.Prelude.{
  String, Bool, Option, none, some, List, [], ◌∷◌, ◌++◌, if◌then◌else◌, concat, Result, ok, err,
}
use pytest_hardware_template.Paths.{FilePath, path_str}
use pytest_hardware_template.Runner.Settings.{Settings}
use pytest_hardware_template.Runner.Models
use pytest_hardware_template.Runner.Models.{
  ℤ, pos, is_zero, OperationState, OperationStatus, TestSummary, Update, model_copy,
}
use pytest_hardware_template.Runner.Docker.{
  CommandError, invalid_image_reference, runtime_error, Command, publish_allure,
}
use pytest_hardware_template.Runner.Artifacts.{resolve_report_path}
use pytest_hardware_template.Runner.Execute.Suspension.{
  Outcome, exited, timed_out, raised, Publishing, run_publish, run_publish_kill, Effect, spawn,
  kill, save, Next, waiting, returned, World, finish,
}
use pytest_hardware_template.Runner.Execute.Output.{published_report_url}
use pytest_hardware_template.Runner.Execute.Summary.{allocated, run_failed, run_status}

-- The last `_finish` of a test run: what `report_updates` holds by then comes last.
unfoldable pub settle : World → Bool → OperationState → Publishing → List Update → OperationState
settle w cancelled state p report_updates =
    let directory = Models.Update.artifact_directory (some (path_str p.run_directory)) in
    if cancelled
    then finish w state OperationStatus.cancelled (some p.exit_code)
        (directory ∷ Models.Update.summary p.summary ∷ p.updates ++ report_updates)
    else finish w state (run_status p.exit_code) (some p.exit_code) (
        directory
          ∷ Models.Update.summary p.summary
          ∷ Models.Update.junit_message p.junit_message
          ∷ p.updates
        ++ report_updates)

-- What follows `report_updates.update(await self._publish_allure(...))`.
abbrev pub after_publish :
    List Effect → World → Bool → OperationState → Publishing → List Update → Next
after_publish effects w cancelled state p report_updates =
    returned (effects ++ save (settle w cancelled state p report_updates) ∷ [])

abbrev pub report_failed : String → List Update
report_failed text =
    Models.Update.report_status Models.ReportStatus.failed ∷ Models.Update.report_message text ∷ []

unfoldable pub publisher_name : OperationState → String
publisher_name state = concat ("allure-publish-" ∷ state.operation_id ∷ [])

abbrev pub error_text : CommandError → String
error_text (invalid_image_reference text) = text
error_text (runtime_error text) = text

-- `state.model_copy(update={"container_name": publisher_name})`
unfoldable pub publishing : OperationState → OperationState
unfolding publisher_name model_copy
publishing state =
    model_copy (Models.Update.container_name (some (publisher_name state)) ∷ []) state

unfoldable pub after_publisher : World → Bool → OperationState → Publishing → Outcome → Next
unfolding published_report_url publisher_name
after_publisher w cancelled state p (exited exit_code output) =
    after_publish [] w cancelled state p (
      if is_zero exit_code
      then Models.Update.report_status Models.ReportStatus.published
        ∷ Models.Update.report_url (published_report_url output)
        ∷ []
      else report_failed "Allure publication failed; inspect the operation log")
after_publisher w cancelled state p timed_out =
    waiting (kill (some (publisher_name state)) ∷ []) (run_publish_kill state p)
after_publisher w cancelled state p (raised text) =
    after_publish [] w cancelled state p
      (report_failed "Allure publication failed; inspect the operation log")

module _ (settings : Settings) where
  -- `_publish_allure` from the record of the publisher's name: by the token and the command
  unfoldable pub spawn_publisher :
      Option String
      → Result CommandError Command
      → World
      → Bool
      → OperationState
      → Publishing
      → Next
  spawn_publisher none command w cancelled state p =
      after_publish (save (publishing state) ∷ []) w cancelled state p
        (report_failed "Allure access token is unavailable")
  spawn_publisher (some token) (err e) w cancelled state p = returned (
      save (publishing state)
      ∷ save (
          finish w state OperationStatus.infrastructure_error none (
            Models.Update.message (error_text e)
            ∷ Models.Update.artifact_directory (allocated settings w state)
            ∷ []))
      ∷ [])
  spawn_publisher (some token) (ok command) w cancelled state p =
      waiting (save (publishing state) ∷ spawn command (some ("ALLURE_ACCESS_TOKEN", token)) ∷ [])
        (run_publish state p)

  -- by the resolved directory of results
  unfoldable pub publish_from :
      Result String FilePath → World → Bool → OperationState → Publishing → Next
  unfolding spawn_publisher
  publish_from (err text) w cancelled state p = run_failed settings w state text
  publish_from (ok results_directory) w cancelled state p =
      if w.fs.is_dir results_directory
      then spawn_publisher settings.allure_access_token
          (publish_allure settings state.operation_id p.run_directory) w cancelled state p
      else after_publish [] w cancelled state p
          (report_failed "The test image did not create Allure results")

  -- by the configured path of results
  unfoldable pub publish_by : Option FilePath → World → Bool → OperationState → Publishing → Next
  unfolding publish_from
  publish_by none w cancelled state p =
      after_publish [] w cancelled state p (report_failed "Allure results are disabled")
  publish_by (some results_path) w cancelled state p =
      publish_from (resolve_report_path w.fs p.run_directory results_path) w cancelled state p

  -- `_publish_allure`
  unfoldable pub publish : World → Bool → OperationState → Publishing → Next
  unfolding publish_by
  publish = publish_by settings.allure_results_path
