-- ===== src/Runner/Processes/Capture.antt =====
-- What is kept of the output of a process.
use mathlib.Core.Path.{subst}
use mathlib.Core.List.{append_assoc, append-nil}
use pytest_hardware_template.Prelude.{
  ◌≤◌, some, List, [], ◌∷◌, ◌++◌, ◌≡◌, refl, sym, ap, ◌∙◌, length, last_items, last_items-append,
  length-last_items, Bool, true, false, if◌then◌else◌, ok, err,
}
use pytest_hardware_template.Runner.Models.{ℤ}
use pytest_hardware_template.Runner.Api.Stream.{Characters}
use pytest_hardware_template.Runner.Processes.{
  Process, Reading, line, overrun, line_too_long, result_of, Captured, max_captured_output, capture,
  capture_all, run,
}

-- The lines, one behind the other
unfoldable pub joined : List Characters → Characters
joined [] = []
joined (text ∷ lines) = text ++ joined lines

-- What was kept is the end of all that was written.
capture-last_items :
    (text : Characters) (c : Captured) (all_text : Characters)
    → c.output ≡ last_items max_captured_output all_text
    → (capture text c).output ≡ last_items max_captured_output (all_text ++ text)
unfolding capture
capture-last_items text c all_text h =
    ap (λ z. last_items max_captured_output (z ++ text)) h
    ∙ last_items-append max_captured_output all_text text

-- The lines up to the first one that is too long
abbrev pub lines_read : List Reading → List Characters
lines_read [] = []
lines_read (line text ∷ readings) = text ∷ lines_read readings
lines_read (overrun ∷ readings) = []

abbrev pub has_overrun : List Reading → Bool
has_overrun [] = false
has_overrun (line text ∷ readings) = has_overrun readings
has_overrun (overrun ∷ readings) = true

capture_all-last_items :
    (readings : List Reading) (c : Captured) (all_text : Characters)
    → c.output ≡ last_items max_captured_output all_text
    → (capture_all readings c).0.output
      ≡ last_items max_captured_output (all_text ++ joined (lines_read readings))
unfolding capture_all joined
capture_all-last_items [] c all_text h =
    h ∙ ap (last_items max_captured_output) (sym (append-nil all_text))
capture_all-last_items (overrun ∷ readings) c all_text h =
    h ∙ ap (last_items max_captured_output) (sym (append-nil all_text))
capture_all-last_items (line text ∷ readings) c all_text h =
    capture_all-last_items readings (capture text c) (all_text ++ text)
      (capture-last_items text c all_text h)
    ∙ ap (last_items max_captured_output)
        (append_assoc all_text text (joined (lines_read readings)))

capture_all-log :
    (readings : List Reading) (c : Captured)
    → (capture_all readings c).0.log ≡ c.log ++ joined (lines_read readings)
unfolding capture_all joined capture
capture_all-log [] c = sym (append-nil c.log)
capture_all-log (overrun ∷ readings) c = sym (append-nil c.log)
capture_all-log (line text ∷ readings) c =
    capture_all-log readings (capture text c)
    ∙ append_assoc c.log text (joined (lines_read readings))

capture_all-overrun :
    (readings : List Reading) (c : Captured) → (capture_all readings c).1 ≡ has_overrun readings
unfolding capture_all
capture_all-overrun [] c = refl
capture_all-overrun (overrun ∷ readings) c = refl
capture_all-overrun (line text ∷ readings) c = capture_all-overrun readings (capture text c)

result_of-run :
    (exit_code : ℤ) (p : Captured × Bool)
    → result_of exit_code p ≡ (
      p.0.log,
      if p.1 then err line_too_long else ok (record { exit_code = exit_code; output = p.0.output }),
    )
result_of-run exit_code (c, true) = refl
result_of-run exit_code (c, false) = refl

-- A command that runs adds to the log, behind what it held before, the lines of its output up to the
-- first one that is too long for `readline`. If there is such a line, `run` raises the `ValueError`; if
-- not, the result has the process's exit code and the last 65536 characters of the output, and not
-- more.
pub run-Captured :
    (readings : List Reading) (process : Process) (log : Characters)
    → process.stdout ≡ some readings
    → let text = joined (lines_read readings) in
      (output : Characters) × (run process log ≡ (
        log ++ text,
        if has_overrun readings
            then err line_too_long
            else ok (record { exit_code = process.exit_code; output = output }),
      ))
      × (output ≡ last_items max_captured_output text)
      × (length output ≤ max_captured_output)
unfolding run
run-Captured readings process log h =
    let p = capture_all readings (record { log = log; output = [] }) in
    let kept : p.0.output ≡ last_items max_captured_output (joined (lines_read readings)) =
      capture_all-last_items readings (record { log = log; output = [] }) [] refl in
    (
      p.0.output,
      rw h (
          result_of-run process.exit_code p
          ∙ ap
              (λ z. (
                z,
                if p.1
                    then err line_too_long
                    else ok (record { exit_code = process.exit_code; output = p.0.output }),
              ))
              (capture_all-log readings (record { log = log; output = [] }))
          ∙ ap
              (λ b. (
                log ++ joined (lines_read readings),
                if b
                    then err line_too_long
                    else ok (record { exit_code = process.exit_code; output = p.0.output }),
              ))
              (capture_all-overrun readings (record { log = log; output = [] }))),
      kept,
      subst (λ z. length z ≤ max_captured_output) (sym kept)
          (length-last_items max_captured_output (joined (lines_read readings))),
    )
