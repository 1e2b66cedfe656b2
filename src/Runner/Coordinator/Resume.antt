-- ===== src/Runner/Coordinator/Resume.antt =====
-- Every turn of a coroutine, at every place and for every wakeup, is a `Turn`.
use pytest_hardware_template.Prelude.{
  ℕ, String, Bool, true, false, Option, none, some, List, [], ◌∷◌, if◌then◌else◌, ◌≡◌, ◌≢◌, refl,
  arith, All, Result, ok, err, ◌||◌, not, ◌==◌, ◌⊎◌, inl, inr, strip,
}
use pytest_hardware_template.Paths.{FilePath}
use pytest_hardware_template.Runner.Settings.{Settings}
use pytest_hardware_template.Runner.Models
use pytest_hardware_template.Runner.Models.{
  ℤ, pos, is_zero, OperationState, OperationStatus, TestSummary, Update, model_copy, is_terminal,
}
use pytest_hardware_template.Runner.Docker.{CommandError, Command}
use pytest_hardware_template.Runner.Execute.{
  Outcome, exited, timed_out, raised, Publishing, Await, image_created, image_command,
  image_inspect, image_kill, run_created, run_command, run_lookup, run_publish, run_publish_kill,
  run_kill, run_kill_lookup, Wakeup, scheduled, process, portal, killed, save, died, ignored, World,
  publishing, after_publisher, spawn_publisher, publish_from, publish_by, run_failed,
  expected_directory, read_summary, run_timed_out, after_summary, after_report, after_run_command,
  start_run_command, resume, after_image_command, after_image_inspect, report_failed,
  published_report_url,
}
use pytest_hardware_template.Runner.Coordinator.Records.{
  IsReport, read_reportportal_result-IsReport,
}
use pytest_hardware_template.Runner.Coordinator.Turns.{
  subject, rank, Collected, IsInterim, Turn, Turn-if, Settled-finish, Settled-after, Settled-settle,
  run_status-terminal, Turn-mono, IsAwaited,
}

module _ (w : World) (cancelled : Bool) (st : OperationState) where
  after_image_command-Turn :
      (reference : String) (o : Outcome)
      → Turn w st 3 (after_image_command w cancelled st reference o)
  unfolding after_image_command is_terminal
  after_image_command-Turn reference (exited e output) =
      Turn-if w st 3 cancelled _ _ (Settled-finish w st _ _ _ refl tt) (
        Turn-if w st 3 (not (is_zero e)) _ _ (Settled-finish w st _ _ _ refl tt)
          ((tt, tt), refl, omega arith, tt))
  after_image_command-Turn reference timed_out = ((tt, tt), refl, omega arith, tt)
  after_image_command-Turn reference (raised text) = Settled-finish w st _ _ _ refl (tt, tt)

  after_image_inspect-Turn :
      (reference : String) (o : Outcome) → Turn w st 2 (after_image_inspect w st reference o)
  unfolding after_image_inspect is_terminal
  after_image_inspect-Turn reference (exited e output) =
      Turn-if w st 2 (not (is_zero e) || strip output == "") _ _
        (Settled-finish w st _ _ _ refl (tt, tt)) (Settled-finish w st _ _ _ refl (tt, (tt, tt)))
  after_image_inspect-Turn reference timed_out = ((tt, tt), refl, omega arith, tt)
  after_image_inspect-Turn reference (raised text) = Settled-finish w st _ _ _ refl (tt, tt)

  report_failed-IsReport : (text : String) → All IsReport (report_failed text)
  report_failed-IsReport text = (tt, (tt, tt))

  publishing-IsInterim : IsInterim st (save (publishing st))
  unfolding publishing
  publishing-IsInterim = (refl, refl)

  after_publisher-Turn :
      (p : Publishing) (o : Outcome)
      → All IsReport p.updates
      → Turn w st 2 (after_publisher w cancelled st p o)
  unfolding after_publisher
  after_publisher-Turn p (exited e output) c =
      Settled-settle w st [] cancelled p _ tt c (by_code (is_zero e))
    where
      by_code :
          (b : Bool)
          → All IsReport (
              if b
              then Models.Update.report_status Models.ReportStatus.published
                ∷ Models.Update.report_url (published_report_url output)
                ∷ []
              else report_failed "Allure publication failed; inspect the operation log")
      by_code true = (tt, (tt, tt))
      by_code false = (tt, (tt, tt))
  after_publisher-Turn p timed_out c = ((tt, tt), refl, omega arith, c)
  after_publisher-Turn p (raised text) c = Settled-settle w st [] cancelled p _ tt c (tt, (tt, tt))

module _ (settings : Settings) (w : World) (cancelled : Bool) (st : OperationState) where
  run_failed-Turn : (n : ℕ) (text : String) → Turn w st n (run_failed settings w st text)
  unfolding run_failed is_terminal
  run_failed-Turn n text = Settled-finish w st _ _ _ refl (tt, (tt, tt))

  spawn_publisher-Turn :
      (token : Option String) (command : Result CommandError Command) (p : Publishing)
      → All IsReport p.updates
      → Turn w st 3 (spawn_publisher settings token command w cancelled st p)
  unfolding spawn_publisher is_terminal
  spawn_publisher-Turn none command p c =
      Settled-settle w st (save (publishing st) ∷ []) cancelled p _
        (publishing-IsInterim w cancelled st, tt) c (tt, (tt, tt))
  spawn_publisher-Turn (some token) (err e) p c =
      Settled-after w st (save (publishing st) ∷ []) _ _ _ (publishing-IsInterim w cancelled st, tt)
        refl (tt, (tt, tt))
  spawn_publisher-Turn (some token) (ok command) p c =
      ((publishing-IsInterim w cancelled st, (tt, tt)), refl, omega arith, c)

  publish_from-Turn :
      (results : Result String FilePath) (p : Publishing)
      → All IsReport p.updates
      → Turn w st 3 (publish_from settings results w cancelled st p)
  unfolding publish_from
  publish_from-Turn (err text) p c = run_failed-Turn 3 text
  publish_from-Turn (ok results) p c =
      Turn-if w st 3 (w.fs.is_dir results) _ _ (spawn_publisher-Turn _ _ p c)
        (Settled-settle w st [] cancelled p _ tt c (tt, (tt, tt)))

  publish_by-Turn :
      (results : Option FilePath) (p : Publishing)
      → All IsReport p.updates
      → Turn w st 3 (publish_by settings results w cancelled st p)
  unfolding publish_by
  publish_by-Turn none p c = Settled-settle w st [] cancelled p _ tt c (tt, (tt, tt))
  publish_by-Turn (some results) p c = publish_from-Turn _ p c

  after_summary-Turn :
      (e : ℤ) (us : List Update) (s : Result String (Option TestSummary × Option String))
      → All IsReport us
      → Turn w st 3 (after_summary settings w cancelled st e us s)
  unfolding after_summary
  after_summary-Turn e us (err text) c = run_failed-Turn 3 text
  after_summary-Turn e us (ok (summary, junit_message)) c =
      Turn-if w st 3 settings.allure_enabled _ _ (publish_by-Turn settings.allure_results_path _ c)
        (Settled-settle w st [] false _ _ tt c tt)

  after_report-Turn :
      (e : ℤ) (us : List Update)
      → All IsReport us
      → Turn w st 3 (after_report settings w cancelled st e us)
  unfolding after_report is_terminal
  after_report-Turn e us c = Turn-if w st 3 cancelled _ _ (Settled-finish w st _ _ _ refl (tt, c)) (
      Turn-if w st 3 (w.fs.is_dir (expected_directory settings st)) _ _
        (after_summary-Turn e us (read_summary settings w (expected_directory settings st)) c)
        (Settled-finish w st _ _ _ (run_status-terminal e) (tt, (tt, (tt, c)))))

  after_run_command-Turn : (o : Outcome) → Turn w st 4 (after_run_command settings w cancelled st o)
  unfolding after_run_command
  after_run_command-Turn (exited e output) =
      Turn-if w st 4 settings.reportportal_enabled _ _ (tt, refl, omega arith, tt)
        (Turn-mono w st {n = 3} {m = 4} (omega arith) _ (after_report-Turn e [] tt))
  after_run_command-Turn timed_out = ((tt, tt), refl, omega arith, tt)
  after_run_command-Turn (raised text) = run_failed-Turn 4 text

  run_timed_out-Turn :
      (n : ℕ) (us : List Update) → All IsReport us → Turn w st n (run_timed_out settings w st us)
  unfolding run_timed_out is_terminal
  run_timed_out-Turn n us c = Settled-finish w st _ _ _ refl (tt, (tt, c))

  start_run_command-Turn :
      (command : Command) (run_id : Option String)
      → run_id ≢ none
      → Turn w st 5 (start_run_command settings st command run_id)
  start_run_command-Turn command none h = absurd (h refl)
  start_run_command-Turn command (some run_id) h = ((tt, tt), refl, omega arith, tt)

-- A turn for which the coroutine waits writes interim records of the operation only, unless it ends the coroutine by a return: then
-- it writes one final record more. A turn that goes on leaves fewer turns.
pub resume-Turn :
    (settings : Settings) (w : World) (cancelled : Bool) (a : Await) (wakeup : Wakeup)
    → IsAwaited a wakeup
    → Collected a
    → Turn w (subject a) (rank a) (resume settings w cancelled a wakeup)
unfolding resume is_terminal
resume-Turn settings w cancelled (image_created st command reference) scheduled i c =
    ((tt, tt), refl, omega arith, tt)
resume-Turn settings w cancelled (image_command st reference) (process o) i c =
    after_image_command-Turn w cancelled st reference o
resume-Turn settings w cancelled (image_inspect st reference) (process o) i c =
    after_image_inspect-Turn w cancelled st reference o
resume-Turn settings w cancelled (image_kill st) (killed none) i c =
    Settled-finish w st _ _ _ refl (tt, tt)
resume-Turn settings w cancelled (run_created st command) scheduled i c =
    start_run_command-Turn settings w cancelled st command st.run_id c
resume-Turn settings w cancelled (run_command st) (process o) i c =
    after_run_command-Turn settings w cancelled st o
resume-Turn settings w cancelled (run_lookup st e) (portal answer) i c =
    after_report-Turn settings w cancelled st e _
      (read_reportportal_result-IsReport settings st.operation_id answer)
resume-Turn settings w cancelled (run_publish st p) (process o) i c =
    after_publisher-Turn w cancelled st p o c
resume-Turn settings w cancelled (run_publish_kill st p) (killed none) i c =
    Settled-settle w st [] cancelled p _ tt c (tt, (tt, tt))
resume-Turn settings w cancelled (run_publish_kill st p) (killed (some text)) i c =
    run_failed-Turn settings w cancelled st 1 text
resume-Turn settings w cancelled (run_kill st) (killed none) i c =
    Turn-if w st 2 settings.reportportal_enabled _ _ (tt, refl, omega arith, tt)
      (run_timed_out-Turn settings w cancelled st 2 [] tt)
resume-Turn settings w cancelled (run_kill_lookup st) (portal answer) i c =
    run_timed_out-Turn settings w cancelled st 1 _
      (read_reportportal_result-IsReport settings st.operation_id answer)
resume-Turn settings w cancelled _ _ i c = absurd i

-- Any other wakeup is ignored, or ends the coroutine by an exception with no effect.
pub resume-ignored :
    (settings : Settings) (w : World) (cancelled : Bool) (a : Await) (wakeup : Wakeup)
    → IsAwaited a wakeup
      ⊎ (resume settings w cancelled a wakeup ≡ ignored)
      ⊎ (resume settings w cancelled a wakeup ≡ died [])
unfolding resume
resume-ignored settings w cancelled (image_created st c r) scheduled = inl tt
resume-ignored settings w cancelled (image_command st r) (process o) = inl tt
resume-ignored settings w cancelled (image_inspect st r) (process o) = inl tt
resume-ignored settings w cancelled (image_kill st) (killed none) = inl tt
resume-ignored settings w cancelled (image_kill st) (killed (some text)) = inr (inr refl)
resume-ignored settings w cancelled (run_created st c) scheduled = inl tt
resume-ignored settings w cancelled (run_command st) (process o) = inl tt
resume-ignored settings w cancelled (run_lookup st e) (portal a) = inl tt
resume-ignored settings w cancelled (run_publish st p) (process o) = inl tt
resume-ignored settings w cancelled (run_publish_kill st p) (killed k) = inl tt
resume-ignored settings w cancelled (run_kill st) (killed none) = inl tt
resume-ignored settings w cancelled (run_kill st) (killed (some text)) = inr (inr refl)
resume-ignored settings w cancelled (run_kill_lookup st) (portal a) = inl tt
resume-ignored settings w cancelled _ _ = inr (inl refl)
