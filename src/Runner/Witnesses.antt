-- ===== src/Runner/Witnesses.antt =====
-- The theorems on the test runner at concrete inputs: a service with an image policy, a source
-- checkout and JUnit reports, a build, a run, and their endings.
use pytest_hardware_template.Prelude.{
  ◌+◌, true, false, none, some, List, [], ◌∷◌, ◌≡◌, refl, ok, err, Result, arith, inl, strip,
  has_prefix, concat,
}
use pytest_hardware_template.Paths.{parse}
use pytest_hardware_template.Runner.Samples.{settings, suites, world}
use pytest_hardware_template.Runner.Models
use pytest_hardware_template.Runner.Models.{OperationState, OperationStatus, is_terminal}
use pytest_hardware_template.Runner.Docker.{
  Command, CommandError, pull_image, run_tests, build_image, publish_allure, stop_container,
  image_reference_pattern, local_build_reference,
}
use pytest_hardware_template.Runner.Artifacts.{read_junit_summary}
use pytest_hardware_template.Runner.Portal.{answered, broken}
use pytest_hardware_template.Runner.Execute.{
  World, Await, Wakeup, Publishing, exited, scheduled, process, portal, killed, image_created,
  image_command, image_inspect, image_kill, run_created, run_command, run_lookup, run_publish,
  run_publish_kill, run_kill, run_kill_lookup, resume,
}
use pytest_hardware_template.Prelude.{◌≢◌, ◌++◌, Option}
use pytest_hardware_template.Runner.Execute.{kill, timed_out}
use pytest_hardware_template.Runner.Processes
use pytest_hardware_template.Runner.Coordinator.Containers.{start_run-cancel}
use pytest_hardware_template.Runner.Docker.{local_build_reference}
use pytest_hardware_template.Runner.Coordinator.{
  pull_state, start_run, no_task, System, Event, start_build, cancel, wake, active, build_state,
  run_state, new_id, step, run, fresh,
}
use pytest_hardware_template.Runner.Coordinator.Turns.{subject, IsAwaited}
use pytest_hardware_template.Runner.Coordinator.Invariant.{Agrees}
use pytest_hardware_template.Runner.Coordinator.Exclusion.{run-Agrees, step-Refuses, Refuses}
use pytest_hardware_template.Runner.Coordinator.Cancellation.{
  EndsAs, cancel_image_command, cancel_run_command, cancel_image_inspect_lost,
}
use pytest_hardware_template.Runner.Coordinator.Progress.{Environment, drive, operation_returns}
use pytest_hardware_template.Runner.Coordinator.Outcomes.{KeepsOutcome, resume-KeepsOutcome}
use pytest_hardware_template.Runner.Coordinator.Indifference.{SameEnd, portal_never_decides}
use pytest_hardware_template.Runner.Docker.Policy.{
  IsAllowed, argument_after, with_secrets, accepted_image, commands_ignore_secrets,
}
use pytest_hardware_template.Runner.Artifacts.Summary.{read_junit_summary-partition}

abbrev build : OperationState
build = build_state world "build-1" "main"

abbrev test_run : OperationState
test_run = run_state world "run-1" "sha256:abc" "bench" "smoke"

-- The system while an operation is at a place.
abbrev at_place : Await → OperationState → System
at_place a st = record {
  store = record { current = some st; log_resets = 1 };
  task = active a;
  cancel_requested = false;
  effects = [];
}

abbrev history : List (World × Event)
history = (world, start_build "1" "main") ∷ (world, wake scheduled) ∷ []

run-Agrees_example :
    Agrees (run settings history fresh).task (run settings history fresh).store.current
run-Agrees_example = run-Agrees settings history

abbrev waiting_build : Await
waiting_build = image_command build "local/hardware-tests:build-1"

step-Refuses_example :
    ((step settings world (start_build "2" "main") (run settings history fresh)).0
      ≡ run settings history fresh)
    × Refuses
        (subject waiting_build)
        (step settings world (start_build "2" "main") (run settings history fresh)).1
unfolding run step resume new_id local_build_reference concat
step-Refuses_example =
    step-Refuses settings history world (start_build "2" "main") waiting_build tt refl

cancel_image_command_example :
    EndsAs world build OperationStatus.cancelled (some (Models.ℤ.pos 1)) (
      run settings
        ((world, cancel) ∷ (world, wake (process (exited (Models.ℤ.pos 1) ""))) ∷ [])
        (at_place waiting_build build))
unfolding build_state run_state is_terminal
cancel_image_command_example =
    cancel_image_command settings world world (at_place waiting_build build) build build
      "local/hardware-tests:build-1" (Models.ℤ.pos 1) "" (refl, refl, refl)

cancel_run_command_example :
    EndsAs world test_run OperationStatus.cancelled (some (Models.ℤ.pos 0)) (
      run settings
        ((world, cancel)
          ∷ (world, wake (process (exited (Models.ℤ.pos 0) "")))
          ∷ (world, wake (portal broken))
          ∷ [])
        (at_place (run_command test_run) test_run))
unfolding build_state run_state is_terminal
cancel_run_command_example =
    cancel_run_command settings world world (at_place (run_command test_run) test_run) test_run
      test_run (Models.ℤ.pos 0) "" broken (refl, refl, refl)

cancel_image_inspect_lost_example :
    EndsAs world build OperationStatus.succeeded (some (Models.ℤ.pos 0)) (
      run settings
        ((world, cancel) ∷ (world, wake (process (exited (Models.ℤ.pos 0) "sha256:1"))) ∷ [])
        (at_place (image_inspect build "tag") build))
unfolding strip build_state is_terminal
cancel_image_inspect_lost_example =
    cancel_image_inspect_lost settings world world (at_place (image_inspect build "tag") build)
      build build "tag" "sha256:1" (refl, refl, refl) refl

-- Every command ends with exit code 0, and nothing is raised.
abbrev answer_to : Await → Wakeup
answer_to (image_created s c r) = scheduled
answer_to (run_created s c) = scheduled
answer_to (run_lookup s e) = portal broken
answer_to (run_kill_lookup s) = portal broken
answer_to (image_kill s) = killed none
answer_to (run_kill s) = killed none
answer_to (run_publish_kill s p) = killed none
answer_to _ = process (exited (Models.ℤ.pos 0) "sha256:1")

abbrev environment : Environment
environment = record { world = λ a. world; cancelled = λ a. false; wakeup = answer_to }

answer_to-IsAwaited : (a : Await) → IsAwaited a (answer_to a)
answer_to-IsAwaited (image_created s c r) = tt
answer_to-IsAwaited (image_command s r) = tt
answer_to-IsAwaited (image_inspect s r) = tt
answer_to-IsAwaited (image_kill s) = tt
answer_to-IsAwaited (run_created s c) = tt
answer_to-IsAwaited (run_command s) = tt
answer_to-IsAwaited (run_lookup s e) = tt
answer_to-IsAwaited (run_publish s p) = tt
answer_to-IsAwaited (run_publish_kill s p) = tt
answer_to-IsAwaited (run_kill s) = tt
answer_to-IsAwaited (run_kill_lookup s) = tt

operation_returns_example :
    (drive settings environment 6 (
        image_created
          (build_state world "run-1" "main")
          ("docker" ∷ [])
          (local_build_reference "run-1"))
      ≡ some true)
    × (drive settings environment 6
          (image_created (pull_state world "run-1" "tag") ("docker" ∷ []) "tag")
        ≡ some true)
    × (drive settings environment 6 (run_created test_run ("docker" ∷ [])) ≡ some true)
operation_returns_example =
    operation_returns settings environment world ("docker" ∷ []) "run-1" "main" "tag" "sha256:abc"
      "bench" "smoke" answer_to-IsAwaited

abbrev passed_run : Publishing
passed_run = record {
  exit_code = Models.ℤ.pos 0;
  run_directory = parse "/opt/artifacts/run-1";
  summary = none;
  junit_message = none;
  updates = [];
}

resume-KeepsOutcome_example :
    KeepsOutcome world test_run passed_run (
      resume settings world false
        (run_publish test_run passed_run)
        (process (exited (Models.ℤ.pos 1) "")))
    × KeepsOutcome world test_run passed_run
        (resume settings world false (run_publish_kill test_run passed_run) (killed none))
resume-KeepsOutcome_example =
    resume-KeepsOutcome settings world test_run passed_run (exited (Models.ℤ.pos 1) "") tt

-- The same run with the report of ReportPortal.
abbrev reported_run : Publishing
reported_run = record passed_run { updates = Models.Update.report_url (some "report") ∷ [] }

portal_never_decides_example :
    SameEnd world test_run
      (resume settings world false (run_lookup test_run (Models.ℤ.pos 0)) (portal broken))
      (resume settings world false
        (run_lookup test_run (Models.ℤ.pos 0))
        (portal (answered 200 (some []))))
    × SameEnd world test_run
        (resume settings world false (run_kill_lookup test_run) (portal broken))
        (resume settings world false (run_kill_lookup test_run) (portal (answered 200 (some []))))
    × SameEnd world test_run
        (resume settings world false (run_publish test_run passed_run) (process timed_out))
        (resume settings world false (run_publish test_run reported_run) (process timed_out))
    × SameEnd world test_run
        (resume settings world false (run_publish_kill test_run passed_run) (killed none))
        (resume settings world false (run_publish_kill test_run reported_run) (killed none))
portal_never_decides_example =
    portal_never_decides settings world test_run (Models.ℤ.pos 0) broken (answered 200 (some []))
      passed_run reported_run timed_out none (refl, refl, tt, (tt, tt))

accepted_image_example : IsAllowed settings "sha256:abc" × (has_prefix "sha256:abc" "-" ≡ false)
unfolding pull_image image_reference_pattern has_prefix
accepted_image_example =
    accepted_image settings "run-1" "run-1" "sha256:abc" "bench" "smoke"
      ("docker" ∷ "pull" ∷ "sha256:abc" ∷ []) (inl refl)

abbrev out_of : Result CommandError Command → Command
out_of (ok c) = c
out_of (err e) = []

idle-inactive : (a : Await) → no_task ≢ active a
idle-inactive a h = cc

start_run-cancel_example :
    let command =
      out_of
        (run_tests settings (new_id "run" "1") (new_id "run" "1") "sha256:abc" "bench" "smoke") in
    let started = (step settings world (start_run "1" "sha256:abc" "bench" "smoke") fresh).0 in
    ((step settings world cancel started).0.effects
      ≡ started.effects ++ kill (argument_after "--name" command) ∷ [])
    × ((process : Option (Option Models.ℤ))
        → Processes.cancel (argument_after "--name" command) process
          ≡ Processes.execute (stop_container (new_id "run" "1")) ∷ Processes.terminate_if process)
unfolding run_tests image_reference_pattern has_prefix
start_run-cancel_example =
    start_run-cancel settings world world fresh "1" "sha256:abc" "bench" "smoke" _ idle-inactive
      refl

commands_ignore_secrets_example :
    let other = with_secrets (some "p") none (some "t") none none (some "k") settings in
    (build_image other "run-1" ≡ build_image settings "run-1")
    × (run_tests other "run-1" "run-1" "sha256:abc" "bench" "smoke"
        ≡ run_tests settings "run-1" "run-1" "sha256:abc" "bench" "smoke")
    × (publish_allure other "run-1" (parse "/opt/artifacts/run-1")
        ≡ publish_allure settings "run-1" (parse "/opt/artifacts/run-1"))
commands_ignore_secrets_example =
    commands_ignore_secrets settings (some "p") none (some "t") none none (some "k") "run-1" "run-1"
      "sha256:abc" "bench" "smoke" (parse "/opt/artifacts/run-1")

read_junit_summary-partition_example :
    let s = read_junit_summary suites in s.passed + s.failed + s.errors + s.skipped ≡ s.total
read_junit_summary-partition_example =
    read_junit_summary-partition suites (omega arith, (omega arith, tt))
