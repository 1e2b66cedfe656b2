-- ===== src/Runner/Execute/Suspension.antt =====
-- helpers/test-runner-service/src/test_runner_service/worker.py: a suspended coroutine, what wakes it, and `_finish`.
use pytest_hardware_template.Prelude.{ℕ, String, Option, none, List, [], ◌∷◌}
use pytest_hardware_template.Paths.{FilePath}
use pytest_hardware_template.Runner.Models
use pytest_hardware_template.Runner.Models.{
  ℤ, pos, is_zero, OperationState, OperationStatus, TestSummary, Update, model_copy,
}
use pytest_hardware_template.Runner.Docker.{Command}
use pytest_hardware_template.Runner.Artifacts.{FileSystem}
use pytest_hardware_template.Runner.Portal.{Answer}

-- How `_run_with_timeout` ends; `raised` has the exception's text.
pub data Outcome : Type 0 where
  exited : (exit_code : ℤ) → (output : String) → Outcome
  timed_out : Outcome
  raised : String → Outcome

-- The local variables of `_execute_test_run` while Allure results are published.
pub record Publishing : Type 0 where
  pub exit_code : ℤ
  pub run_directory : FilePath
  pub summary : Option TestSummary
  pub junit_message : Option String
  pub updates : List Update

-- `created` coroutines have not run yet; the others await a process, a ReportPortal answer, or
-- `ProcessRunner.cancel`.
pub data Await : Type 0 where
  image_created : OperationState → Command → (reference : String) → Await
  image_command : OperationState → (reference : String) → Await
  image_inspect : OperationState → (reference : String) → Await
  image_kill : OperationState → Await
  run_created : OperationState → Command → Await
  run_command : OperationState → Await
  run_lookup : OperationState → ℤ → Await
  run_publish : OperationState → Publishing → Await
  run_publish_kill : OperationState → Publishing → Await
  run_kill : OperationState → Await
  run_kill_lookup : OperationState → Await

-- What ends an `await`; `killed` has the text of an exception that `cancel` raised.
pub data Wakeup : Type 0 where
  scheduled : Wakeup
  process : Outcome → Wakeup
  portal : Answer → Wakeup
  killed : Option String → Wakeup

pub data Effect : Type 0 where
  spawn : Command → (environment : Option (String × String)) → Effect
  kill : (container_name : Option String) → Effect
  save : OperationState → Effect
  clear_log : Effect

-- The effects up to the next `await`, the return, or an exception that leaves the coroutine;
-- `ignored` is a wakeup that the coroutine does not wait for.
pub data Next : Type 0 where
  waiting : List Effect → Await → Next
  returned : List Effect → Next
  died : List Effect → Next
  ignored : Next

pub record World : Type 0 where
  pub now : ℕ
  pub fs : FileSystem

-- The record that `_finish` writes.
unfoldable pub finish :
    World → OperationState → OperationStatus → Option ℤ → List Update → OperationState
unfolding model_copy
finish w state status exit_code updates =
    model_copy
      (Models.Update.status status
        ∷ Models.Update.finished_at w.now
        ∷ Models.Update.exit_code exit_code
        ∷ Models.Update.container_name none
        ∷ updates)
      state

abbrev pub finish_with : World → OperationState → OperationStatus → Option ℤ → List Update → Next
finish_with w state status exit_code updates =
    returned (save (finish w state status exit_code updates) ∷ [])
