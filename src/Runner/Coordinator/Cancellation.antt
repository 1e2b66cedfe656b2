-- ===== src/Runner/Coordinator/Cancellation.antt =====
-- What a cancellation does to the active operation.
use mathlib.Core.Path.{subst}
use pytest_hardware_template.Prelude.{
  String, Bool, true, false, Option, some, List, [], ◌∷◌, ◌≡◌, ◌==◌, strip, refl, ◌∙◌, sym, ap,
  arith, All, if◌then◌else◌,
}
use pytest_hardware_template.Runner.Settings.{Settings}
use pytest_hardware_template.Runner.Models
use pytest_hardware_template.Runner.Models.{
  ℤ, OperationState, OperationStatus, Update, is_terminal, started,
}
use pytest_hardware_template.Runner.Portal.{Answer, read_reportportal_result}
use pytest_hardware_template.Runner.Execute.{
  World, Await, image_command, image_inspect, run_command, run_lookup, Wakeup, process, portal,
  exited, waiting, resume, finish, finish_with, after_image_inspect, after_report, allocated,
}
use pytest_hardware_template.Runner.Coordinator.{
  active, completed, System, cancel, wake, perform, continue, wake_by, step, run,
}
use pytest_hardware_template.Runner.Coordinator.Records.{
  Finished, IsReport, finish-Finished, read_reportportal_result-IsReport,
}

-- A system whose task is active on a record that is not over.
abbrev pub IsRunning : Await → OperationState → System → Type 0
IsRunning a c s = (s.task ≡ active a) × (s.store.current ≡ some c) × (is_terminal c.status ≡ false)

-- The last record of the operation, behind a task that has returned.
abbrev pub EndsAs : World → OperationState → OperationStatus → Option ℤ → System → Type 0
EndsAs w st status exit_code s =
    (s.task ≡ completed)
    × ((r : OperationState) × (s.store.current ≡ some r) × Finished w st status exit_code r)

cancel-flag :
    (settings : Settings) (w : World) (s : System) (a : Await) (c : OperationState)
    → IsRunning a c s
    → let s' = (step settings w cancel s).0 in (s'.task ≡ active a) × (s'.cancel_requested ≡ true)
unfolding step
cancel-flag settings w s a c (t, k, n) = ground arith

-- A turn of the active task.
wake-active :
    (settings : Settings) (w : World) (a : Await) (x : Wakeup) (b : Bool) (s : System)
    → s.task ≡ active a
    → s.cancel_requested ≡ b
    → (step settings w (wake x) s).0 ≡ continue (resume settings w b a x) s
unfolding step
wake-active settings w a x b s t f =
    ap (λ task. wake_by settings w task x s) t ∙ ap (λ c. continue (resume settings w c a x) s) f

continue-EndsAs :
    (w : World) (st : OperationState) (status : OperationStatus) (exit_code : Option ℤ)
    (us : List Update) (s : System)
    → All IsReport us
    → EndsAs w st status exit_code (continue (finish_with w st status exit_code us) s)
unfolding continue perform
continue-EndsAs w st status exit_code us s r =
    (refl, (finish w st status exit_code us, refl, finish-Finished w st status exit_code us r))

-- If a cancellation is requested while `docker` builds or pulls an image, then, whatever the exit
-- code with which `docker` ends, the operation ends as cancelled, with that exit code.
pub cancel_image_command :
    (settings : Settings) (w w' : World) (s : System) (st c : OperationState) (reference : String)
    (exit_code : ℤ) (output : String)
    → IsRunning (image_command st reference) c s
    → EndsAs w' st OperationStatus.cancelled
        (some exit_code)
        (run settings ((w, cancel) ∷ (w', wake (process (exited exit_code output))) ∷ []) s)
unfolding run resume
cancel_image_command settings w w' s st c reference exit_code output h =
    let s' = (step settings w cancel s).0 in
    let (t, f) = cancel-flag settings w s _ c h in
    subst (EndsAs w' st OperationStatus.cancelled (some exit_code))
      (sym (wake-active settings w' _ (process (exited exit_code output)) true s' t f))
      (continue-EndsAs w' st _ _ [] s' tt)

-- The turn that follows the end of the tests, with the lookup of ReportPortal and without.
answered :
    (settings : Settings) (w : World) (s : System) (st : OperationState) (exit_code : ℤ)
    (answer : Answer) (enabled : Bool)
    → s.cancel_requested ≡ true
    → EndsAs w st OperationStatus.cancelled
        (some exit_code)
        (step settings w (wake (portal answer)) (
          continue
            (if enabled
              then waiting [] (run_lookup st exit_code)
              else after_report settings w true st exit_code [])
            s)).0
unfolding step continue perform resume
answered settings w s st exit_code answer true f =
    let a = run_lookup st exit_code in
    let s' = continue (waiting [] a) s in
    subst (EndsAs w st OperationStatus.cancelled (some exit_code))
      (sym (wake-active settings w a (portal answer) true s' refl f))
      (continue-EndsAs w st _ _
        (Models.Update.artifact_directory (allocated settings w st)
          ∷ read_reportportal_result settings st.operation_id answer)
        s' (tt, read_reportportal_result-IsReport settings st.operation_id answer))
answered settings w s st exit_code answer false f = continue-EndsAs w st _ _ _ s (tt, tt)

-- If a cancellation is requested while the tests run, then, whatever the exit code with which they
-- end and whatever ReportPortal answers, the operation ends as cancelled, with that exit code.
pub cancel_run_command :
    (settings : Settings) (w w' : World) (s : System) (st c : OperationState) (exit_code : ℤ)
    (output : String) (answer : Answer)
    → IsRunning (run_command st) c s
    → EndsAs w' st OperationStatus.cancelled (some exit_code) (
        run settings
          ((w, cancel)
            ∷ (w', wake (process (exited exit_code output)))
            ∷ (w', wake (portal answer))
            ∷ [])
          s)
unfolding run resume
cancel_run_command settings w w' s st c exit_code output answer h =
    let s' = (step settings w cancel s).0 in
    let (t, f) = cancel-flag settings w s _ c h in
    subst
      (λ u.
        EndsAs w' st OperationStatus.cancelled (some exit_code)
          (step settings w' (wake (portal answer)) u).0)
      (sym (wake-active settings w' _ (process (exited exit_code output)) true s' t f))
      (answered settings w' s' st exit_code answer settings.reportportal_enabled f)

-- A cancellation that is requested while the image is inspected is lost: the image that `docker`
-- finds is recorded as succeeded.
pub cancel_image_inspect_lost :
    (settings : Settings) (w w' : World) (s : System) (st c : OperationState)
    (reference output : String)
    → IsRunning (image_inspect st reference) c s
    → (strip output == "") ≡ false
    → EndsAs w' st OperationStatus.succeeded
        (some (Models.ℤ.pos 0))
        (run settings ((w, cancel) ∷ (w', wake (process (exited (Models.ℤ.pos 0) output))) ∷ []) s)
unfolding run resume after_image_inspect
cancel_image_inspect_lost settings w w' s st c reference output h o =
    let s' = (step settings w cancel s).0 in
    let (t, f) = cancel-flag settings w s _ c h in
    subst (EndsAs w' st OperationStatus.succeeded (some (Models.ℤ.pos 0)))
      (sym (wake-active settings w' _ (process (exited (Models.ℤ.pos 0) output)) true s' t f))
      (rw o (continue-EndsAs w' st _ _ _ s' (tt, (tt, tt))))
