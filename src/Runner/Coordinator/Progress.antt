-- ===== src/Runner/Coordinator/Progress.antt =====
-- Operations end.
use pytest_hardware_template.Prelude.{
  ℕ, zero, suc, ◌<◌, String, Bool, true, false, Option, none, some, ◌≡◌, refl, arith,
}
use pytest_hardware_template.Runner.Settings.{Settings}
use pytest_hardware_template.Runner.Models.{OperationState}
use pytest_hardware_template.Runner.Docker.{Command, local_build_reference}
use pytest_hardware_template.Runner.Coordinator.{build_state, pull_state, run_state}
use pytest_hardware_template.Runner.Execute.{
  World, Await, image_created, run_created, Wakeup, Next, waiting, returned, died, ignored, resume,
}
use pytest_hardware_template.Runner.Coordinator.Turns.{subject, Collected, Turn, rank, IsAwaited}
use pytest_hardware_template.Runner.Coordinator.Resume.{resume-Turn}

-- What the environment does at each `await`, with the time, the files and whether a cancellation
-- has been requested by then.
pub record Environment : Type 0 where
  pub world : Await → World
  pub cancelled : Await → Bool
  pub wakeup : Await → Wakeup

-- How a coroutine ends: `some true` by a return, `some false` by an exception, `none` if not within
-- the fuel.
abbrev ends_with : (Await → Option Bool) → Next → Option Bool
ends_with go_on (waiting es b) = go_on b
ends_with go_on (returned es) = some true
ends_with go_on (died es) = some false
ends_with go_on ignored = none

pub drive : Settings → Environment → ℕ → Await → Option Bool
drive settings env zero a = none
drive settings env (suc fuel) a =
    ends_with (drive settings env fuel)
      (resume settings (env.world a) (env.cancelled a) a (env.wakeup a))

ends_with-Turn :
    (go_on : Await → Option Bool) (w : World) (st : OperationState) (n : ℕ) (x : Next)
    → Turn w st n x
    → ((b : Await) → Collected b → rank b < n → go_on b ≡ some true)
    → ends_with go_on x ≡ some true
ends_with-Turn go_on w st n (waiting es b) (i, s, r, c) h = h b c r
ends_with-Turn go_on w st n (returned es) t h = refl
ends_with-Turn go_on w st n (died es) t h = absurd t
ends_with-Turn go_on w st n ignored t h = absurd t

drive-returns :
    (settings : Settings) (env : Environment)
    → ((a : Await) → IsAwaited a (env.wakeup a))
    → (fuel : ℕ) (a : Await) → Collected a
    → rank a < fuel
    → drive settings env fuel a ≡ some true
unfolding drive
drive-returns settings env awaited zero a c r = elim r [ ]
drive-returns settings env awaited (suc fuel) a c r =
    ends_with-Turn (drive settings env fuel) (env.world a) (subject a) (rank a) _
      (resume-Turn settings (env.world a) (env.cancelled a) a (env.wakeup a) (awaited a) c)
      λ b d q. drive-returns settings env awaited fuel b d (omega arith)

-- Whatever processes and servers give, and whenever a cancellation is requested: if each `await` is
-- ended by an event of its kind, and no exception comes from the killing of an operation that timed
-- out, then every operation that a start creates (a build, a pull or a test run) returns within six
-- turns.
pub operation_returns :
    (settings : Settings) (env : Environment) (w : World) (command : Command)
    (operation_id revision reference image stand scenario : String)
    → ((a : Await) → IsAwaited a (env.wakeup a))
    → let build = build_state w operation_id revision in
      let pull = pull_state w operation_id reference in
      let test = run_state w operation_id image stand scenario in
      (drive settings env 6 (image_created build command (local_build_reference operation_id))
        ≡ some true)
      × (drive settings env 6 (image_created pull command reference) ≡ some true)
      × (drive settings env 6 (run_created test command) ≡ some true)
unfolding run_state
operation_returns settings env w command operation_id revision reference image stand scenario
      awaited =
    (
      drive-returns settings env awaited 6 _ tt (omega arith),
      drive-returns settings env awaited 6 _ tt (omega arith),
      drive-returns settings env awaited 6 _ (λ n. cc) (omega arith),
    )
