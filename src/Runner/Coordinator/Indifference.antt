-- ===== src/Runner/Coordinator/Indifference.antt =====
-- How a run ends, by the answers of ReportPortal.
use mathlib.Core.Path.{subst}
use pytest_hardware_template.Prelude.{
  zero, suc, String, Bool, true, false, Option, none, some, List, [], ◌∷◌, ◌++◌, ◌≡◌, refl, All,
  All-append, Result, ok, err, if◌then◌else◌, sym,
}
use pytest_hardware_template.Paths.{FilePath}
use pytest_hardware_template.Runner.Settings.{Settings}
use pytest_hardware_template.Runner.Models
use pytest_hardware_template.Runner.Models.{
  ℤ, OperationState, OperationStatus, Update, is_terminal, started, TestSummary,
}
use pytest_hardware_template.Runner.Docker.{CommandError, Command}
use pytest_hardware_template.Runner.Portal.{Answer}
use pytest_hardware_template.Runner.Execute.{
  World, Await, run_lookup, run_publish, run_publish_kill, process, portal, killed, Outcome, exited,
  timed_out, raised, Effect, save, Next, waiting, returned, resume, Publishing, run_status, settle,
  finish_with, after_report, after_summary, publish_by, publish_from, spawn_publisher, run_failed,
  read_summary, expected_directory, publishing, after_publisher, report_failed, run_timed_out,
  run_kill_lookup,
}
use pytest_hardware_template.Runner.Coordinator.Records.{
  IsReport, finish-Finished, read_reportportal_result-IsReport,
}
use pytest_hardware_template.Runner.Coordinator.Outcomes.{Ends, settle-Ends}

-- The same publishing, up to the reports that were collected.
abbrev pub SamePublishing : Publishing → Publishing → Type 0
SamePublishing p q =
    (p.exit_code ≡ q.exit_code)
    × (p.run_directory ≡ q.run_directory)
    × All IsReport p.updates
    × All IsReport q.updates

-- The same place, up to the reports that were collected.
abbrev pub SamePlace : Await → Await → Type 0
SamePlace (run_publish s p) (run_publish t q) = (s ≡ t) × SamePublishing p q
SamePlace (run_publish_kill s p) (run_publish_kill t q) = (s ≡ t) × SamePublishing p q
SamePlace _ _ = ⊥

-- Both end with the same status and exit code, or both go on at the same place by the same effects.
abbrev pub SameEnd : World → OperationState → Next → Next → Type 0
SameEnd w st (waiting es a) (waiting fs b) = (es ≡ fs) × SamePlace a b
SameEnd w st (returned es) (returned fs) =
    (status : OperationStatus) × ((exit_code : Option ℤ) × Ends w st status exit_code es
      × Ends w st status exit_code fs)
SameEnd w st _ _ = ⊥

SameEnd-if :
    (w : World) (st : OperationState) (b : Bool) (x y x' y' : Next)
    → SameEnd w st x x'
    → SameEnd w st y y'
    → SameEnd w st (if b then x else y) (if b then x' else y')
SameEnd-if w st true x y x' y' p q = p
SameEnd-if w st false x y x' y' p q = q

module _ (settings : Settings) (w : World) (st : OperationState) (e : ℤ) (us vs : List Update)
    (hu : All IsReport us) (hv : All IsReport vs) where
  finish-SameEnd :
      (status : OperationStatus) (exit_code : Option ℤ) (more : List Update)
      → All IsReport more
      → SameEnd w st
          (finish_with w st status exit_code (more ++ us))
          (finish_with w st status exit_code (more ++ vs))
  finish-SameEnd status exit_code more h = (
    status,
    (
      exit_code,
      ([], (_, refl, finish-Finished w st _ _ _ (All-append IsReport more us h hu))),
      ([], (_, refl, finish-Finished w st _ _ _ (All-append IsReport more vs h hv))),
    ),
  )

  run_failed-SameEnd :
      (text : String) → SameEnd w st (run_failed settings w st text) (run_failed settings w st text)
  unfolding run_failed
  run_failed-SameEnd text = (
    OperationStatus.infrastructure_error,
    (
      none,
      ([], (_, refl, finish-Finished w st _ _ _ (tt, (tt, tt)))),
      ([], (_, refl, finish-Finished w st _ _ _ (tt, (tt, tt)))),
    ),
  )

  module _ (directory : FilePath) (summary : Option TestSummary)
      (junit_message : Option String) where
    abbrev with_updates : List Update → Publishing
    with_updates updates = record {
      exit_code = e;
      run_directory = directory;
      summary = summary;
      junit_message = junit_message;
      updates = updates;
    }

    settle-SameEnd :
        (before : List Effect) (more : List Update)
        → All IsReport more
        → SameEnd w st
            (returned (before ++ save (settle w false st (with_updates us) more) ∷ []))
            (returned (before ++ save (settle w false st (with_updates vs) more) ∷ []))
    settle-SameEnd before more h = (
      run_status e,
      (
        some e,
        settle-Ends w st (with_updates us) before more hu h,
        settle-Ends w st (with_updates vs) before more hv h,
      ),
    )

    spawn_publisher-SameEnd :
        (token : Option String) (command : Result CommandError Command)
        → SameEnd w st
            (spawn_publisher settings token command w false st (with_updates us))
            (spawn_publisher settings token command w false st (with_updates vs))
    unfolding spawn_publisher
    spawn_publisher-SameEnd none command =
        settle-SameEnd (save (publishing st) ∷ [])
          (report_failed "Allure access token is unavailable") (tt, (tt, tt))
    spawn_publisher-SameEnd (some token) (err x) = (
      OperationStatus.infrastructure_error,
      (
        none,
        (save (publishing st) ∷ [], (_, refl, finish-Finished w st _ _ _ (tt, (tt, tt)))),
        (save (publishing st) ∷ [], (_, refl, finish-Finished w st _ _ _ (tt, (tt, tt)))),
      ),
    )
    spawn_publisher-SameEnd (some token) (ok command) = (refl, (refl, (refl, refl, hu, hv)))

    publish_from-SameEnd :
        (results : Result String FilePath)
        → SameEnd w st
            (publish_from settings results w false st (with_updates us))
            (publish_from settings results w false st (with_updates vs))
    unfolding publish_from
    publish_from-SameEnd (err text) = run_failed-SameEnd text
    publish_from-SameEnd (ok results) =
        SameEnd-if w st (w.fs.is_dir results) _ _ _ _ (spawn_publisher-SameEnd _ _)
          (settle-SameEnd [] _ (tt, (tt, tt)))

    publish_by-SameEnd :
        (results : Option FilePath)
        → SameEnd w st
            (publish_by settings results w false st (with_updates us))
            (publish_by settings results w false st (with_updates vs))
    unfolding publish_by
    publish_by-SameEnd none = settle-SameEnd [] _ (tt, (tt, tt))
    publish_by-SameEnd (some results) = publish_from-SameEnd _

  after_summary-SameEnd :
      (s : Result String (Option TestSummary × Option String))
      → SameEnd w st
          (after_summary settings w false st e us s)
          (after_summary settings w false st e vs s)
  unfolding after_summary
  after_summary-SameEnd (err text) = run_failed-SameEnd text
  after_summary-SameEnd (ok (summary, junit_message)) =
      SameEnd-if w st settings.allure_enabled _ _ _ _ (publish_by-SameEnd _ summary junit_message _)
        (settle-SameEnd _ summary junit_message [] [] tt)

  after_report-SameEnd :
      SameEnd w st (after_report settings w false st e us) (after_report settings w false st e vs)
  unfolding after_report
  after_report-SameEnd =
      SameEnd-if w st (w.fs.is_dir (expected_directory settings st)) _ _ _ _
        (after_summary-SameEnd (read_summary settings w (expected_directory settings st)))
        (finish-SameEnd _ _ (_ ∷ _ ∷ _ ∷ []) (tt, (tt, (tt, tt))))

run_timed_out-SameEnd :
    (settings : Settings) (w : World) (st : OperationState) (us vs : List Update)
    → All IsReport us
    → All IsReport vs
    → SameEnd w st (run_timed_out settings w st us) (run_timed_out settings w st vs)
unfolding run_timed_out
run_timed_out-SameEnd settings w st us vs hu hv =
    finish-SameEnd settings w st (Models.ℤ.pos 0) us vs hu hv OperationStatus.timed_out none
      (_ ∷ _ ∷ []) (tt, (tt, tt))

module _ (settings : Settings) (w : World) (st : OperationState) (p q : Publishing)
    (same : SamePublishing p q) where
  settled-SameEnd :
      (us : List Update)
      → All IsReport us
      → SameEnd w st
          (returned (save (settle w false st p us) ∷ []))
          (returned (save (settle w false st q us) ∷ []))
  settled-SameEnd us r =
      let (e, _, hp, hq) = same in
      (
        run_status p.exit_code,
        (
          some p.exit_code,
          settle-Ends w st p [] us hp r,
          subst (λ z. Ends w st (run_status z) (some z) (save (settle w false st q us) ∷ []))
              (sym e) (settle-Ends w st q [] us hq r),
        ),
      )

  publisher-SameEnd :
      (o : Outcome)
      → SameEnd w st
          (resume settings w false (run_publish st p) (process o))
          (resume settings w false (run_publish st q) (process o))
  unfolding resume after_publisher
  publisher-SameEnd (exited (Models.ℤ.pos zero) output) = settled-SameEnd _ (tt, (tt, tt))
  publisher-SameEnd (exited (Models.ℤ.pos (suc n)) output) = settled-SameEnd _ (tt, (tt, tt))
  publisher-SameEnd (exited (Models.ℤ.negsuc n) output) = settled-SameEnd _ (tt, (tt, tt))
  publisher-SameEnd timed_out = (refl, (refl, same))
  publisher-SameEnd (raised text) = settled-SameEnd _ (tt, (tt, tt))

  publisher_kill-SameEnd :
      (k : Option String)
      → SameEnd w st
          (resume settings w false (run_publish_kill st p) (killed k))
          (resume settings w false (run_publish_kill st q) (killed k))
  unfolding resume
  publisher_kill-SameEnd none = settled-SameEnd _ (tt, (tt, tt))
  publisher_kill-SameEnd (some text) =
      run_failed-SameEnd settings w st (Models.ℤ.pos 0) [] [] tt tt text

-- Without a cancellation, ReportPortal decides nothing of how a run ends. No two of its answers, be
-- they pages of launches, errors or no answer at all, make a run whose process ended, or one that
-- timed out, end with different statuses or exit codes, or go on at different places: these differ in
-- the reports that were collected. And from two places that differ in the reports alone, whatever
-- becomes of the publisher and of its killing, the run ends with the same status and exit code, or
-- goes on at two such places.
pub portal_never_decides :
    (settings : Settings) (w : World) (st : OperationState) (e : ℤ) (a b : Answer)
    (p q : Publishing) (o : Outcome) (k : Option String)
    → SamePublishing p q
    → SameEnd w st
        (resume settings w false (run_lookup st e) (portal a))
        (resume settings w false (run_lookup st e) (portal b))
      × SameEnd w st
          (resume settings w false (run_kill_lookup st) (portal a))
          (resume settings w false (run_kill_lookup st) (portal b))
      × SameEnd w st
          (resume settings w false (run_publish st p) (process o))
          (resume settings w false (run_publish st q) (process o))
      × SameEnd w st
          (resume settings w false (run_publish_kill st p) (killed k))
          (resume settings w false (run_publish_kill st q) (killed k))
unfolding resume
portal_never_decides settings w st e a b p q o k same = (
  after_report-SameEnd settings w st e _ _
      (read_reportportal_result-IsReport settings st.operation_id a)
      (read_reportportal_result-IsReport settings st.operation_id b),
  run_timed_out-SameEnd settings w st _ _
      (read_reportportal_result-IsReport settings st.operation_id a)
      (read_reportportal_result-IsReport settings st.operation_id b),
  publisher-SameEnd settings w st p q same o,
  publisher_kill-SameEnd settings w st p q same k,
)
