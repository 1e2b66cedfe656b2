-- ===== src/Runner/Coordinator/Containers.antt =====
-- The container of a test run: its command, its record and its cancellation.
use pytest_hardware_template.Prelude.{
  String, Option, some, [], ◌∷◌, ◌++◌, ◌≡◌, ◌≢◌, refl, ok, concat,
}
use pytest_hardware_template.Runner.Settings.{Settings}
use pytest_hardware_template.Runner.Models.{ℤ, OperationState}
use pytest_hardware_template.Runner.Docker
use pytest_hardware_template.Runner.Docker.{Command, stop_container, base_arguments}
use pytest_hardware_template.Runner.Docker.Policy.{argument_after, run_tests-base}
use pytest_hardware_template.Runner.Execute.{World, Await, run_created, kill}
use pytest_hardware_template.Runner.Processes
use pytest_hardware_template.Runner.Coordinator.{
  Task, no_task, active, completed, failed_with_exception, System, start_by, launch, new_id,
  run_state, step, start_run, cancel, begin, start,
}

start_by-launch :
    (task : Task) (state : OperationState) (await : Await) (s : System)
    → ((a : Await) → task ≢ active a)
    → start_by task state await s ≡ launch state await s
unfolding start_by
start_by-launch no_task state await s h = refl
start_by-launch (active a) state await s h = absurd (h a refl)
start_by-launch completed state await s h = refl
start_by-launch failed_with_exception state await s h = refl

-- The name behind `--name` is the one that `stop_container` stops.
run_tests-name :
    (settings : Settings) (operation_id run_id image stand scenario : String) (c : Command)
    → Docker.run_tests settings operation_id run_id image stand scenario ≡ ok c
    → argument_after "--name" c ≡ some (concat ("hardware-test-run-" ∷ operation_id ∷ []))
unfolding base_arguments
run_tests-name settings operation_id run_id image stand scenario c h =
    let (_, r) = run_tests-base settings operation_id run_id image stand scenario h in
    let (rest, e) = r in rw e refl

-- A test run that is started while no operation is active, and then cancelled: the cancellation kills
-- the container with the name that the run's command gives to its container, and what the process
-- runner executes for it is the command of `stop_container`.
pub start_run-cancel :
    (settings : Settings) (w later : World) (s : System) (uuid image stand scenario : String)
    (command : Command)
    → ((a : Await) → s.task ≢ active a)
    → Docker.run_tests settings (new_id "run" uuid) (new_id "run" uuid) image stand scenario
      ≡ ok command
    → let started = (step settings w (start_run uuid image stand scenario) s).0 in
      ((step settings later cancel started).0.effects
        ≡ started.effects ++ kill (argument_after "--name" command) ∷ [])
      × ((process : Option (Option ℤ))
          → Processes.cancel (argument_after "--name" command) process
            ≡ Processes.execute (stop_container (new_id "run" uuid))
              ∷ Processes.terminate_if process)
unfolding step begin start launch run_state stop_container Processes.cancel
start_run-cancel settings w later s uuid image stand scenario command idle h =
    let operation_id = new_id "run" uuid in
    let name = run_tests-name settings operation_id operation_id image stand scenario command h in
    let state = run_state w operation_id image stand scenario in
    let await = run_created state command in
    let launched : step settings w (start_run uuid image stand scenario) s ≡ launch state await s =
      rw h (start_by-launch s.task state await s idle) in
    (rw (launched, name) refl, λ process. rw name refl)
