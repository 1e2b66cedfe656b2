-- ===== src/Runner/Coordinator/Records.antt =====
-- What the records that an operation writes have in common.
use pytest_hardware_template.Prelude.{
  String, Bool, true, false, Option, none, some, List, [], ◌∷◌, if◌then◌else◌, ◌≡◌, refl, arith,
  All, ◌∙◌,
}
use pytest_hardware_template.Runner.Settings.{Settings}
use pytest_hardware_template.Runner.Models
use pytest_hardware_template.Runner.Models.{
  ℤ, OperationState, OperationStatus, Update, apply_update, model_copy, is_terminal,
}
use pytest_hardware_template.Runner.Portal.{
  Answer, Found, raised, returned, report, find_launch, read_reportportal_result,
}
use pytest_hardware_template.Runner.Execute.{World, finish}

-- An update that leaves the status, the end, the exit code and the container alone.
abbrev pub IsReport : Update → Type 0
IsReport (Models.Update.status v) = ⊥
IsReport (Models.Update.finished_at v) = ⊥
IsReport (Models.Update.exit_code v) = ⊥
IsReport (Models.Update.container_name v) = ⊥
IsReport _ = Unit

apply_update-operation_id :
    (u : Update) (s : OperationState) → (apply_update u s).operation_id ≡ s.operation_id
apply_update-operation_id (Models.Update.status v) s = refl
apply_update-operation_id _ s = refl

pub model_copy-operation_id :
    (us : List Update) (s : OperationState) → (model_copy us s).operation_id ≡ s.operation_id
unfolding model_copy
model_copy-operation_id [] s = refl
model_copy-operation_id (u ∷ us) s =
    model_copy-operation_id us (apply_update u s) ∙ apply_update-operation_id u s

-- The fields that reports leave alone.
pub record SameOutcome (a b : OperationState) : Type 0 where
  pub status : a.status ≡ b.status
  pub finished_at : a.finished_at ≡ b.finished_at
  pub exit_code : a.exit_code ≡ b.exit_code
  pub container_name : a.container_name ≡ b.container_name

apply_update-SameOutcome :
    (u : Update) (s : OperationState) → IsReport u → SameOutcome (apply_update u s) s
apply_update-SameOutcome (Models.Update.status v) s h = absurd h
apply_update-SameOutcome (Models.Update.finished_at v) s h = absurd h
apply_update-SameOutcome (Models.Update.exit_code v) s h = absurd h
apply_update-SameOutcome (Models.Update.container_name v) s h = absurd h
apply_update-SameOutcome _ s h = record {
  status = refl;
  finished_at = refl;
  exit_code = refl;
  container_name = refl;
}

model_copy-SameOutcome :
    (us : List Update) (s : OperationState) → All IsReport us → SameOutcome (model_copy us s) s
unfolding model_copy
model_copy-SameOutcome [] s h = record {
  status = refl;
  finished_at = refl;
  exit_code = refl;
  container_name = refl;
}
model_copy-SameOutcome (u ∷ us) s h =
    let a = model_copy-SameOutcome us (apply_update u s) h.1 in
    let b = apply_update-SameOutcome u s h.0 in
    record {
      status = a.status ∙ b.status;
      finished_at = a.finished_at ∙ b.finished_at;
      exit_code = a.exit_code ∙ b.exit_code;
      container_name = a.container_name ∙ b.container_name;
    }

-- The final record: the outcome and the time, no container, the operation that was started.
pub record Finished (w : World) (state : OperationState) (status : OperationStatus)
    (exit_code : Option ℤ) (r : OperationState) : Type 0 where
  pub operation : r.operation_id ≡ state.operation_id
  pub status_set : r.status ≡ status
  pub exit_set : r.exit_code ≡ exit_code
  pub time_set : r.finished_at ≡ some w.now
  pub container_gone : r.container_name ≡ none

pub finish-Finished :
    (w : World) (state : OperationState) (status : OperationStatus) (exit_code : Option ℤ)
    (updates : List Update)
    → All IsReport updates
    → Finished w state status exit_code (finish w state status exit_code updates)
unfolding finish
finish-Finished w state status exit_code updates h =
    let a = model_copy-SameOutcome updates _ h in
    record {
      operation = model_copy-operation_id updates _;
      status_set = a.status;
      exit_set = a.exit_code;
      time_set = a.finished_at;
      container_gone = a.container_name;
    }

report-IsReport : (settings : Settings) (found : Found) → All IsReport (report settings found)
unfolding report
report-IsReport settings raised = ground arith
report-IsReport settings (returned none) = ground arith
report-IsReport settings (returned (some launch)) = ground arith

-- ReportPortal adds reports only.
pub read_reportportal_result-IsReport :
    (settings : Settings) (operation_id : String) (answer : Answer)
    → All IsReport (read_reportportal_result settings operation_id answer)
unfolding read_reportportal_result
read_reportportal_result-IsReport settings operation_id answer =
    by_enabled settings.reportportal_enabled
  where
    by_enabled :
        (enabled : Bool)
        → All IsReport
            (if enabled then report settings (find_launch settings operation_id answer) else [])
    by_enabled true = report-IsReport settings (find_launch settings operation_id answer)
    by_enabled false = tt
