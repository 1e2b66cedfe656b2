-- ===== src/Runner/Api.antt =====
-- helpers/test-runner-service/src/test_runner_service/api.py: the routes of the runner, over the
-- coordinator. The requests are those of models.py; FastAPI answers 422 where one is not valid.
pub mod Reports
pub mod Stream
pub mod Pieces
pub mod Delivery
mod Witnesses
use Prim.Native.Char
use Prim.Native.String
use pytest_hardware_template.Prelude.{
  ℕ, suc, String, Bool, true, false, Option, none, some, List, [], ◌∷◌, ◌++◌, ◌&&◌, ◌||◌, not, ◌==◌,
  if◌then◌else◌, leb, nat_eq, matches_class, is_ascii_letter, is_ascii_digit, concat, Dict, Result,
  ok, err,
}
use pytest_hardware_template.Paths.{
  FilePath, parse, parent, path_eq, path_str, is_relative_to, name,
}
use pytest_hardware_template.Runner.Settings.{Settings}
use pytest_hardware_template.Runner.Models.{OperationState, OperationStatus}
use pytest_hardware_template.Runner.Docker.{CommandError, invalid_image_reference}
use pytest_hardware_template.Runner.Artifacts.{
  FileSystem, ArtifactItem, list_artifacts, resolve_artifact, resolve_run_directory,
}
use pytest_hardware_template.Runner.Portal.{origin, launches_url}
use pytest_hardware_template.Runner.Store.{StateStore, read}
use pytest_hardware_template.Runner.Execute.{World}
use pytest_hardware_template.Runner.Coordinator.{
  System, Reply, nothing, accepted, invalid, busy, active_without_state, no_active_operation,
  cancelling, Event, start_build, start_pull, start_run, cancel, step,
}

-- The number of characters of a text
unfoldable pub text_length : String → ℕ
text_length String.[] = 0
text_length (String.◌∷◌ c s) = suc (text_length s)

abbrev pub alphanumeric : ℕ → Bool
alphanumeric c = is_ascii_letter c || is_ascii_digit c

-- `NAME_PATTERN` and `SCENARIO_PATTERN`
unfoldable pub is_stand_name : String → Bool
unfolding matches_class
is_stand_name =
    matches_class alphanumeric
      (λ c. alphanumeric c || nat_eq c b'_' || nat_eq c b'.' || nat_eq c b'-')

unfoldable pub is_scenario : String → Bool
unfolding matches_class
is_scenario = matches_class alphanumeric (λ c. alphanumeric c || nat_eq c b'_' || nat_eq c b'-')

abbrev pub is_reference : String → Bool
is_reference s = not (s == "") && leb (text_length s) 512

-- What a client may ask for, and the operation that it starts
pub data Request : Type 0 where
  build_image : (revision : String) → Request
  pull_image : (reference : String) → Request
  run_tests : (image stand scenario : String) → Request
  cancel_operation : Request

-- The constraints of `BuildImageRequest`, `PullImageRequest` and `RunTestsRequest`
unfoldable pub is_valid : Request → Bool
unfolding text_length is_stand_name is_scenario
is_valid (build_image revision) = revision == "working-tree"
is_valid (pull_image reference) = is_reference reference
is_valid (run_tests image stand scenario) =
    is_reference image
    && is_stand_name stand
    && leb (text_length stand) 128
    && is_scenario scenario
    && leb (text_length scenario) 128
is_valid cancel_operation = true

-- A response: its status and what it carries. `failure` is an exception that no handler catches.
pub data Response : Type 0 where
  accepted_operation : (status : ℕ) → (operation_id : String) → OperationStatus → Response
  operation : (status : ℕ) → OperationState → Response
  runner_busy : (status : ℕ) → (message operation_id : String) → Response
  detail : (status : ℕ) → (text : String) → Response
  failure : Response

-- The handlers of a start: `_busy_error`, and a reference that is refused
unfoldable pub start_response : Reply → Response
start_response (accepted operation_id status) = accepted_operation 202 operation_id status
start_response (busy state) =
    runner_busy 409 "another operation is already running" state.operation_id
start_response (invalid (invalid_image_reference text)) = detail 422 text
start_response _ = failure

unfoldable pub cancel_response : Reply → Response
cancel_response (cancelling state) = operation 200 state
cancel_response no_active_operation = detail 409 "no active operation"
cancel_response _ = failure

abbrev pub event_of : (uuid : String) → Request → Event
event_of uuid (build_image revision) = start_build uuid revision
event_of uuid (pull_image reference) = start_pull uuid reference
event_of uuid (run_tests image stand scenario) = start_run uuid image stand scenario
event_of uuid cancel_operation = cancel

abbrev pub response_to : Request → Reply → Response
response_to cancel_operation reply = cancel_response reply
response_to _ reply = start_response reply

abbrev pub answered : Request → System × Reply → System × Response
answered request (s, reply) = (s, response_to request reply)

-- The routes that change something
unfoldable pub post : Settings → World → (uuid : String) → Request → System → System × Response
unfolding is_valid start_response cancel_response step
post settings w uuid request s =
    if is_valid request
    then answered request (step settings w (event_of uuid request) s)
    else (s, detail 422 "request validation failed")
