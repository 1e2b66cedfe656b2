-- ===== src/Runner/Models.antt =====
-- helpers/test-runner-service/src/test_runner_service/models.py: the operation on record.
-- A moment is a number, and a path is the text that names it.
use pytest_hardware_template.Prelude.{
  ℕ, String, Bool, true, false, Option, none, some, List, [], ◌∷◌,
}

-- A process's exit code: `negsuc n` is -(n + 1), a death by signal n + 1.
pub data ℤ : Type 0 where
  pos : ℕ → ℤ
  negsuc : ℕ → ℤ

-- `exit_code == 0`
abbrev pub is_zero : ℤ → Bool
is_zero (pos ℕ.zero) = true
is_zero (pos (ℕ.suc n)) = false
is_zero (negsuc n) = false

pub data OperationType : Type 0 where
  build_image pull_image run_tests : OperationType

pub data OperationStatus : Type 0 where
  building pulling running succeeded passed failed cancelled timed_out : OperationStatus
  infrastructure_error interrupted : OperationStatus

unfoldable pub is_terminal : OperationStatus → Bool
is_terminal succeeded = true
is_terminal passed = true
is_terminal failed = true
is_terminal cancelled = true
is_terminal timed_out = true
is_terminal infrastructure_error = true
is_terminal interrupted = true
is_terminal _ = false

pub data ReportStatus : Type 0 where
  published failed : ReportStatus

pub data ReportPortalStatus : Type 0 where
  finished incomplete unavailable : ReportPortalStatus

pub record TestSummary : Type 0 where
  pub total : ℕ
  pub passed : ℕ
  pub failed : ℕ
  pub errors : ℕ
  pub skipped : ℕ

pub record OperationState : Type 0 where
  pub schema_version : ℕ
  pub operation_id : String
  pub run_id : Option String
  pub operation_type : OperationType
  pub status : OperationStatus
  pub created_at : ℕ
  pub started_at : ℕ
  pub finished_at : Option ℕ
  pub image_reference : Option String
  pub image_digest : Option String
  pub stand : Option String
  pub scenario : Option String
  pub container_name : Option String
  pub exit_code : Option ℤ
  pub artifact_directory : Option String
  pub summary : Option TestSummary
  pub junit_message : Option String
  pub report_status : Option ReportStatus
  pub report_url : Option String
  pub report_message : Option String
  pub reportportal_status : Option ReportPortalStatus
  pub reportportal_url : Option String
  pub reportportal_message : Option String
  pub message : Option String

-- The keyword arguments of `started` that a caller may leave out.
pub record StartedOptions : Type 0 where
  pub run_id : Option String
  pub image_reference : Option String
  pub stand : Option String
  pub scenario : Option String
  pub container_name : Option String
  pub message : Option String

abbrev pub no_options : StartedOptions
no_options = record {
  run_id = none;
  image_reference = none;
  stand = none;
  scenario = none;
  container_name = none;
  message = none;
}

unfoldable pub started :
    (now : ℕ) (operation_id : String)
    → OperationType
    → OperationStatus
    → StartedOptions
    → OperationState
started now operation_id operation_type status options = record {
  schema_version = 1;
  operation_id = operation_id;
  run_id = options.run_id;
  operation_type = operation_type;
  status = status;
  created_at = now;
  started_at = now;
  finished_at = none;
  image_reference = options.image_reference;
  image_digest = none;
  stand = options.stand;
  scenario = options.scenario;
  container_name = options.container_name;
  exit_code = none;
  artifact_directory = none;
  summary = none;
  junit_message = none;
  report_status = none;
  report_url = none;
  report_message = none;
  reportportal_status = none;
  reportportal_url = none;
  reportportal_message = none;
  message = options.message;
}

-- One keyword of `model_copy(update={...})`.
pub data Update : Type 0 where
  status : OperationStatus → Update
  finished_at : ℕ → Update
  exit_code : Option ℤ → Update
  container_name : Option String → Update
  image_reference : String → Update
  image_digest : String → Update
  artifact_directory : Option String → Update
  summary : Option TestSummary → Update
  junit_message : Option String → Update
  report_status : ReportStatus → Update
  report_url : Option String → Update
  report_message : String → Update
  reportportal_status : ReportPortalStatus → Update
  reportportal_url : String → Update
  reportportal_message : String → Update
  message : String → Update

abbrev pub apply_update : Update → OperationState → OperationState
apply_update (status v) s = record s { status = v }
apply_update (finished_at v) s = record s { finished_at = some v }
apply_update (exit_code v) s = record s { exit_code = v }
apply_update (container_name v) s = record s { container_name = v }
apply_update (image_reference v) s = record s { image_reference = some v }
apply_update (image_digest v) s = record s { image_digest = some v }
apply_update (artifact_directory v) s = record s { artifact_directory = v }
apply_update (summary v) s = record s { summary = v }
apply_update (junit_message v) s = record s { junit_message = v }
apply_update (report_status v) s = record s { report_status = some v }
apply_update (report_url v) s = record s { report_url = v }
apply_update (report_message v) s = record s { report_message = some v }
apply_update (reportportal_status v) s = record s { reportportal_status = some v }
apply_update (reportportal_url v) s = record s { reportportal_url = some v }
apply_update (reportportal_message v) s = record s { reportportal_message = some v }
apply_update (message v) s = record s { message = some v }

-- `state.model_copy(update=updates)`; a later entry for a key wins, as in a `dict`.
unfoldable pub model_copy : List Update → OperationState → OperationState
model_copy [] s = s
model_copy (u ∷ us) s = model_copy us (apply_update u s)
