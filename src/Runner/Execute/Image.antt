-- ===== src/Runner/Execute/Image.antt =====
-- helpers/test-runner-service/src/test_runner_service/worker.py: `_execute_image_operation`.
use pytest_hardware_template.Prelude.{
  String, Bool, none, some, [], ◌∷◌, ◌||◌, not, ◌==◌, if◌then◌else◌, strip,
}
use pytest_hardware_template.Runner.Models
use pytest_hardware_template.Runner.Models.{
  ℤ, pos, is_zero, OperationState, OperationStatus, TestSummary, Update, model_copy,
}
use pytest_hardware_template.Runner.Docker.{inspect_image}
use pytest_hardware_template.Runner.Execute.Suspension.{
  Outcome, exited, timed_out, raised, image_inspect, image_kill, spawn, kill, Next, waiting, World,
  finish_with,
}
use pytest_hardware_template.Runner.Execute.Output.{last_line}

unfoldable pub after_image_command : World → Bool → OperationState → String → Outcome → Next
after_image_command w cancelled state reference (exited exit_code output) =
    if cancelled
    then finish_with w state OperationStatus.cancelled (some exit_code) []
    else if not (is_zero exit_code)
    then finish_with w state OperationStatus.failed (some exit_code) []
    else waiting (spawn (inspect_image reference) none ∷ []) (image_inspect state reference)
after_image_command w cancelled state reference timed_out =
    waiting (kill none ∷ []) (image_kill state)
after_image_command w cancelled state reference (raised text) =
    finish_with w state OperationStatus.infrastructure_error none (Models.Update.message text ∷ [])

unfoldable pub after_image_inspect : World → OperationState → String → Outcome → Next
unfolding last_line
after_image_inspect w state reference (exited exit_code output) =
    if not (is_zero exit_code) || strip output == ""
    then finish_with w state OperationStatus.infrastructure_error (some exit_code)
        (Models.Update.message "The prepared image could not be inspected" ∷ [])
    else finish_with w state OperationStatus.succeeded (some (pos 0)) (
        Models.Update.image_reference reference
        ∷ Models.Update.image_digest (last_line (strip output))
        ∷ [])
after_image_inspect w state reference timed_out = waiting (kill none ∷ []) (image_kill state)
after_image_inspect w state reference (raised text) =
    finish_with w state OperationStatus.infrastructure_error none (Models.Update.message text ∷ [])
