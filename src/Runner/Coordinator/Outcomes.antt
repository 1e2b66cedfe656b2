-- ===== src/Runner/Coordinator/Outcomes.antt =====
-- How a run ends, by what becomes of its reports.
use pytest_hardware_template.Prelude.{
  zero, suc, false, Option, none, some, List, [], ◌∷◌, ◌++◌, ◌≡◌, refl, All, All-append,
}
use pytest_hardware_template.Runner.Settings.{Settings}
use pytest_hardware_template.Runner.Models
use pytest_hardware_template.Runner.Models.{
  ℤ, OperationState, OperationStatus, Update, is_terminal, started, TestSummary,
}
use pytest_hardware_template.Runner.Execute.{
  World, run_publish, run_publish_kill, process, killed, Outcome, exited, timed_out, raised, Effect,
  save, Next, waiting, returned, died, ignored, resume, Publishing, run_status, settle,
  after_publisher,
}
use pytest_hardware_template.Runner.Coordinator.Records.{Finished, IsReport, finish-Finished}

-- The effects end with the final record, with this status and exit code.
abbrev pub Ends : World → OperationState → OperationStatus → Option ℤ → List Effect → Type 0
Ends w st status exit_code es =
    (before : List Effect) × ((r : OperationState) × (es ≡ before ++ save r ∷ [])
      × Finished w st status exit_code r)

pub settle-Ends :
    (w : World) (st : OperationState) (p : Publishing) (before : List Effect) (us : List Update)
    → All IsReport p.updates
    → All IsReport us
    → Ends w st
        (run_status p.exit_code)
        (some p.exit_code)
        (before ++ save (settle w false st p us) ∷ [])
unfolding settle
settle-Ends w st p before us c r = (
  before,
  (_, refl, finish-Finished w st _ _ _ (tt, (tt, (tt, All-append IsReport p.updates us c r)))),
)

-- The run ends with the outcome of its tests, or awaits the end of the publisher.
abbrev pub KeepsOutcome : World → OperationState → Publishing → Next → Type 0
KeepsOutcome w st p (waiting es b) = b ≡ run_publish_kill st p
KeepsOutcome w st p (returned es) = Ends w st (run_status p.exit_code) (some p.exit_code) es
KeepsOutcome w st p (died es) = ⊥
KeepsOutcome w st p ignored = ⊥

-- Without a cancellation, whatever becomes of the publisher of Allure results (it ends with any exit
-- code, times out and is killed, or cannot be run), the run ends as passed if pytest's exit code was
-- 0 and as failed if not, with that exit code.
pub resume-KeepsOutcome :
    (settings : Settings) (w : World) (st : OperationState) (p : Publishing) (o : Outcome)
    → All IsReport p.updates
    → KeepsOutcome w st p (resume settings w false (run_publish st p) (process o))
      × KeepsOutcome w st p (resume settings w false (run_publish_kill st p) (killed none))
unfolding resume after_publisher
resume-KeepsOutcome settings w st p (exited (Models.ℤ.pos zero) output) c =
    (settle-Ends w st p [] _ c (tt, (tt, tt)), settle-Ends w st p [] _ c (tt, (tt, tt)))
resume-KeepsOutcome settings w st p (exited (Models.ℤ.pos (suc n)) output) c =
    (settle-Ends w st p [] _ c (tt, (tt, tt)), settle-Ends w st p [] _ c (tt, (tt, tt)))
resume-KeepsOutcome settings w st p (exited (Models.ℤ.negsuc n) output) c =
    (settle-Ends w st p [] _ c (tt, (tt, tt)), settle-Ends w st p [] _ c (tt, (tt, tt)))
resume-KeepsOutcome settings w st p timed_out c = (refl, settle-Ends w st p [] _ c (tt, (tt, tt)))
resume-KeepsOutcome settings w st p (raised text) c =
    (settle-Ends w st p [] _ c (tt, (tt, tt)), settle-Ends w st p [] _ c (tt, (tt, tt)))
