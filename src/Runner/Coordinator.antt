-- ===== src/Runner/Coordinator.antt =====
-- helpers/test-runner-service/src/test_runner_service/worker.py, `OperationCoordinator`: one
-- operation at a time. The event loop runs one piece of code between two awaits, so a history is a
-- list of events. `cancel` changes nothing behind its own `await`, and is one event; the lock only
-- delays a start behind it.
pub mod Records
pub mod Turns
pub mod Resume
pub mod Invariant
pub mod Exclusion
pub mod Cancellation
pub mod Progress
pub mod Outcomes
pub mod Indifference
pub mod Containers
use pytest_hardware_template.Prelude.{
  ℕ, String, Bool, true, false, Option, none, some, List, [], ◌∷◌, ◌++◌, if◌then◌else◌, concat,
  Result, ok, err,
}
use pytest_hardware_template.Runner.Settings.{Settings}
use pytest_hardware_template.Runner.Models.{
  OperationType, OperationStatus, OperationState, StartedOptions, no_options, started, is_terminal,
  build_image, pull_image, run_tests, building, pulling, running,
}
use pytest_hardware_template.Runner.Docker
use pytest_hardware_template.Runner.Docker.{CommandError, Command, local_build_reference}
use pytest_hardware_template.Runner.Store.{StateStore, reset_log, write, mark_interrupted}
use pytest_hardware_template.Runner.Execute.{
  World, Await, image_created, run_created, Wakeup, Effect, kill, save, spawn, clear_log, Next,
  waiting, returned, died, ignored, resume,
}

-- `self._task`: never set, a coroutine that is not done, or done by a return or an exception.
pub data Task : Type 0 where
  no_task : Task
  active : Await → Task
  completed : Task
  failed_with_exception : Task

pub record System : Type 0 where
  pub store : StateStore
  pub task : Task
  pub cancel_requested : Bool
  pub effects : List Effect

pub data Reply : Type 0 where
  nothing : Reply
  accepted : (operation_id : String) → OperationStatus → Reply
  invalid : CommandError → Reply
  busy : OperationState → Reply
  active_without_state : Reply
  no_active_operation : Reply
  cancelling : OperationState → Reply

-- The unique identifier that a start draws is part of the event.
pub data Event : Type 0 where
  start_build : (uuid : String) → (revision : String) → Event
  start_pull : (uuid : String) → (reference : String) → Event
  start_run : (uuid : String) → (image : String) → (stand : String) → (scenario : String) → Event
  cancel : Event
  wake : Wakeup → Event
  shutdown : Event
  restart : Event

-- What an effect does to the record on disk.
unfoldable pub apply_effect : Effect → StateStore → StateStore
unfolding write reset_log
apply_effect (save state) store = write state store
apply_effect clear_log store = reset_log store
apply_effect (spawn command environment) store = store
apply_effect (kill container_name) store = store

unfoldable pub apply_effects : List Effect → StateStore → StateStore
unfolding apply_effect
apply_effects [] store = store
apply_effects (e ∷ es) store = apply_effects es (apply_effect e store)

unfoldable pub perform : List Effect → System → System
unfolding apply_effects
perform es s = record s { store = apply_effects es s.store; effects = s.effects ++ es }

abbrev pub busy_with : Option OperationState → Reply
busy_with none = active_without_state
busy_with (some current) = busy current

-- `_start` while no task is active
unfoldable pub launch : OperationState → Await → System → System × Reply
unfolding perform
launch state await s = (
  perform (clear_log ∷ save state ∷ [])
      (record s { task = active await; cancel_requested = false }),
  accepted state.operation_id state.status,
)

-- `_start`, by what `self._task` is
unfoldable pub start_by : Task → OperationState → Await → System → System × Reply
unfolding launch
start_by (active a) state await s = (s, busy_with s.store.current)
start_by no_task state await s = launch state await s
start_by completed state await s = launch state await s
start_by failed_with_exception state await s = launch state await s

unfoldable pub start : OperationState → Await → System → System × Reply
unfolding start_by
start state await s = start_by s.task state await s

-- `_new_id`
unfoldable pub new_id : String → String → String
new_id prefix uuid = concat (prefix ∷ "-" ∷ uuid ∷ [])

unfoldable pub build_state : World → String → String → OperationState
unfolding started
build_state w operation_id revision =
    started w.now operation_id build_image building (record no_options {
      message = some (concat ("Building configured checkout revision '" ∷ revision ∷ "'" ∷ []));
    })

unfoldable pub pull_state : World → String → String → OperationState
unfolding started
pull_state w operation_id reference =
    started w.now operation_id pull_image pulling
      (record no_options { image_reference = some reference })

unfoldable pub run_state : World → (operation_id image stand scenario : String) → OperationState
unfolding started concat
run_state w operation_id image stand scenario =
    started w.now operation_id run_tests running (record {
      run_id = some operation_id;
      image_reference = some image;
      stand = some stand;
      scenario = some scenario;
      container_name = some (concat ("hardware-test-run-" ∷ operation_id ∷ []));
      message = none;
    })

-- `cancel` once there are a record and a task, by `state.status.is_terminal`
unfoldable pub cancel_unless : Bool → OperationState → System → System × Reply
unfolding perform
cancel_unless true state s = (s, no_active_operation)
cancel_unless false state s = (
  perform (kill state.container_name ∷ []) (record s { cancel_requested = true }),
  cancelling state,
)

unfoldable pub cancel_with : Option OperationState → Task → System → System × Reply
unfolding cancel_unless
cancel_with none task s = (s, no_active_operation)
cancel_with (some state) no_task s = (s, no_active_operation)
cancel_with (some state) _ s = cancel_unless (is_terminal state.status) state s

abbrev pub container_of : Option OperationState → Option String
container_of none = none
container_of (some state) = state.container_name

-- `shutdown`: `task.cancel()` ends the coroutine by an exception that no handler of it catches.
unfoldable pub shutdown_by : Task → System → System
shutdown_by (active a) s =
    perform (kill (container_of s.store.current) ∷ []) (record s { task = failed_with_exception })
shutdown_by _ s = s

-- What the event loop does with what a coroutine gives back.
unfoldable pub continue : Next → System → System
continue (waiting es await) s = perform es (record s { task = active await })
continue (returned es) s = perform es (record s { task = completed })
continue (died es) s = perform es (record s { task = failed_with_exception })
continue ignored s = s

module _ (settings : Settings) where
  unfoldable pub begin :
      Result CommandError Command → OperationState → (Command → Await) → System → System × Reply
  unfolding start
  begin (err e) state await s = (s, invalid e)
  begin (ok command) state await s = start state (await command) s

  unfoldable pub wake_by : World → Task → Wakeup → System → System
  unfolding continue
  wake_by w (active await) wakeup s = continue (resume settings w s.cancel_requested await wakeup) s
  wake_by w _ wakeup s = s

  -- Beside `restart`, the events are the methods of `OperationCoordinator` and a turn of the loop.
  unfoldable pub step : World → Event → System → System × Reply
  unfolding begin start wake_by shutdown_by cancel_with mark_interrupted perform
  step w (start_build uuid revision) s =
      let operation_id = new_id "build" uuid in
      start (build_state w operation_id revision)
        (image_created (build_state w operation_id revision)
          (Docker.build_image settings operation_id) (local_build_reference operation_id))
        s
  step w (start_pull uuid reference) s =
      let state = pull_state w (new_id "pull" uuid) reference in
      begin (Docker.pull_image settings reference) state
        (λ command. image_created state command reference) s
  step w (start_run uuid image stand scenario) s =
      let operation_id = new_id "run" uuid in
      let state = run_state w operation_id image stand scenario in
      begin (Docker.run_tests settings operation_id operation_id image stand scenario) state
        (λ command. run_created state command) s
  step w cancel s = cancel_with s.store.current s.task s
  step w (wake wakeup) s = (wake_by w s.task wakeup s, nothing)
  step w shutdown s = (shutdown_by s.task s, nothing)
  step w restart s = (
    record s { store = mark_interrupted s.store; task = no_task; cancel_requested = false },
    nothing,
  )

  -- A history: each event in the world in which it happens.
  unfoldable pub run : List (World × Event) → System → System
  run [] s = s
  run ((w, e) ∷ es) s = run es (step w e s).0

-- A service that has never run an operation.
abbrev pub fresh : System
fresh = record {
  store = record { current = none; log_resets = 0 };
  task = no_task;
  cancel_requested = false;
  effects = [];
}
