-- ===== src/Runner/Processes.antt =====
-- helpers/test-runner-service/src/test_runner_service/processes.py: the run of a command, with its log.
-- A process is what `readline` gives of its pipe, turn by turn, and the exit code that `wait` gives.
pub mod Capture
mod Witnesses
use pytest_hardware_template.Prelude.{
  ℕ, String, Bool, true, false, Option, none, some, List, [], ◌∷◌, ◌++◌, last_items, insert, Dict,
  Result, ok, err,
}
use pytest_hardware_template.Runner.Models.{ℤ}
use pytest_hardware_template.Runner.Api.Stream.{Characters}

abbrev pub max_captured_output : ℕ
max_captured_output = 65536

pub record ProcessResult : Type 0 where
  pub exit_code : ℤ
  pub output : Characters

-- What `readline` gives: a line, decoded, or the `ValueError` for a line beyond the limit of the
-- stream, which is that of asyncio, since `create_subprocess_exec` is not given one.
pub data Reading : Type 0 where
  line : Characters → Reading
  overrun : Reading

-- `none` where there is no pipe.
pub record Process : Type 0 where
  pub stdout : Option (List Reading)
  pub exit_code : ℤ

-- The `RuntimeError` of a missing pipe, and the `ValueError` of `readline`
pub data RunError : Type 0 where
  no_pipe line_too_long : RunError

-- The log file, and the output that is kept of it
pub record Captured : Type 0 where
  pub log : Characters
  pub output : Characters

-- One turn of the loop: the line is written, and kept up to the limit.
unfoldable pub capture : Characters → Captured → Captured
unfolding last_items
capture text c = record {
  log = c.log ++ text;
  output = last_items max_captured_output (c.output ++ text);
}

-- The loop, to the end of the pipe or to a `ValueError`, which ends it with `true`.
unfoldable pub capture_all : List Reading → Captured → Captured × Bool
unfolding capture
capture_all [] c = (c, false)
capture_all (line text ∷ readings) c = capture_all readings (capture text c)
capture_all (overrun ∷ readings) c = (c, true)

abbrev pub result_of : ℤ → Captured × Bool → Characters × Result RunError ProcessResult
result_of exit_code (c, true) = (c.log, err line_too_long)
result_of exit_code (c, false) = (c.log, ok (record { exit_code = exit_code; output = c.output }))

-- What `run` leaves in the log, and its result
unfoldable pub run : Process → (log : Characters) → Characters × Result RunError ProcessResult
unfolding capture_all
run process log = elim process.stdout [
  | none ↦ (log, err no_pipe)
  | some readings ↦
      result_of process.exit_code (capture_all readings (record { log = log; output = [] }))
]

-- `os.environ | environment`
unfoldable pub merged : Dict String → Dict String → Dict String
unfolding insert
merged environ [] = environ
merged environ ((k, v) ∷ environment) = merged (insert k v environ) environment

unfoldable pub environment_of : Dict String → Option (Dict String) → Option (Dict String)
unfolding merged
environment_of environ none = none
environment_of environ (some environment) = some (merged environ environment)

-- What `cancel` does: `docker stop`, and a signal to the process
pub data Stop : Type 0 where
  execute : List String → Stop
  terminate : Stop

-- The process that runs, if any, and its `returncode`
abbrev pub terminate_if : Option (Option ℤ) → List Stop
terminate_if (some none) = terminate ∷ []
terminate_if _ = []

-- `AsyncioProcessRunner.cancel`; a process may end while the container is stopped, so `process` is read
-- behind that.
unfoldable pub cancel : Option String → (process : Option (Option ℤ)) → List Stop
cancel none process = terminate_if process
cancel (some name) process = execute ("docker" ∷ "stop" ∷ name ∷ []) ∷ terminate_if process
