-- ===== src/Runner/Coordinator/Exclusion.antt =====
-- One operation at a time.
use mathlib.Core.Path.{subst}
use pytest_hardware_template.Prelude.{Option, none, some, List, ◌≡◌, refl, Result, ok, err}
use pytest_hardware_template.Runner.Settings.{Settings}
use pytest_hardware_template.Runner.Models.{OperationState}
use pytest_hardware_template.Runner.Docker.{CommandError, Command}
use pytest_hardware_template.Runner.Execute.{World, Await}
use pytest_hardware_template.Runner.Coordinator.{
  Task, no_task, active, completed, failed_with_exception, System, Reply, invalid, busy, Event,
  start_build, start_pull, start_run, cancel, wake, shutdown, restart, start_by, begin, step, run,
  fresh, busy_with,
}
use pytest_hardware_template.Runner.Coordinator.Turns.{subject}
use pytest_hardware_template.Runner.Coordinator.Invariant.{IsOf, Agrees, run-Inv}

-- In every history, the record agrees with the task: an active task works on the recorded operation,
-- whose status is not terminal; a task that returned left a record with a terminal status, a time of
-- its end and no container; a task that an exception ended left a record.
pub run-Agrees :
    (settings : Settings) (es : List (World × Event))
    → let s = run settings es fresh in Agrees s.task s.store.current
run-Agrees settings es = run-Inv settings es fresh tt

abbrev pub IsStart : Event → Type 0
IsStart (start_build uuid revision) = Unit
IsStart (start_pull uuid reference) = Unit
IsStart (start_run uuid image stand scenario) = Unit
IsStart _ = ⊥

-- The reply is a refusal, and if it is for the active operation it names that one.
abbrev pub Refuses : OperationState → Reply → Type 0
Refuses st (busy c) = c.operation_id ≡ st.operation_id
Refuses st (invalid e) = Unit
Refuses st _ = ⊥

busy_with-Refuses :
    (st : OperationState) (c : Option OperationState) → IsOf st c → Refuses st (busy_with c)
busy_with-Refuses st none h = absurd h
busy_with-Refuses st (some c) h = h.0

start_by-refused :
    (a : Await) (task : Task) (state : OperationState) (await : Await) (s : System)
    → task ≡ active a
    → IsOf (subject a) s.store.current
    → ((start_by task state await s).0 ≡ s) × Refuses (subject a) (start_by task state await s).1
unfolding start_by
start_by-refused a (active b) state await s e h = (refl, busy_with-Refuses (subject a) _ h)
start_by-refused a no_task state await s e h = cc
start_by-refused a completed state await s e h = cc
start_by-refused a failed_with_exception state await s e h = cc

begin-refused :
    (settings : Settings) (a : Await) (command : Result CommandError Command)
    (state : OperationState) (await : Command → Await) (s : System)
    → s.task ≡ active a
    → IsOf (subject a) s.store.current
    → ((begin settings command state await s).0 ≡ s)
      × Refuses (subject a) (begin settings command state await s).1
unfolding begin
begin-refused settings a (err x) state await s e h = (refl, tt)
begin-refused settings a (ok command) state await s e h =
    start_by-refused a s.task state (await command) s e h

recorded :
    (settings : Settings) (es : List (World × Event)) (a : Await)
    → (run settings es fresh).task ≡ active a
    → IsOf (subject a) (run settings es fresh).store.current
recorded settings es a h =
    let s = run settings es fresh in
    (subst (λ t. Agrees t s.store.current) h (run-Agrees settings es)).0

-- While an operation is active, in any history, every request to start another changes nothing, and
-- the reply refuses it: as invalid, or as busy with the active operation. The program's error for an
-- active task without a record never shows.
pub step-Refuses :
    (settings : Settings) (es : List (World × Event)) (w : World) (e : Event) (a : Await)
    → IsStart e
    → (run settings es fresh).task ≡ active a
    → let s = run settings es fresh in
      ((step settings w e s).0 ≡ s) × Refuses (subject a) (step settings w e s).1
unfolding step
step-Refuses settings es w (start_build uuid revision) a i h =
    start_by-refused a _ _ _ _ h (recorded settings es a h)
step-Refuses settings es w (start_pull uuid reference) a i h =
    begin-refused settings a _ _ _ _ h (recorded settings es a h)
step-Refuses settings es w (start_run uuid image stand scenario) a i h =
    begin-refused settings a _ _ _ _ h (recorded settings es a h)
step-Refuses settings es w cancel a i h = absurd i
step-Refuses settings es w (wake x) a i h = absurd i
step-Refuses settings es w shutdown a i h = absurd i
step-Refuses settings es w restart a i h = absurd i
