-- ===== src/Runner/Processes/Witnesses.antt =====
-- The theorem on the output of a process, for a line and one that is too long behind it.
use pytest_hardware_template.Prelude.{
  ◌≤◌, some, List, [], ◌∷◌, ◌++◌, ◌≡◌, refl, err, length, last_items,
}
use pytest_hardware_template.Runner.Models.{pos}
use pytest_hardware_template.Runner.Api.Stream.{Characters}
use pytest_hardware_template.Runner.Processes.{
  Reading, line, overrun, line_too_long, Process, max_captured_output, run,
}
use pytest_hardware_template.Runner.Processes.Capture.{joined, lines_read, run-Captured}

abbrev readings : List Reading
readings = line (97 ∷ 10 ∷ []) ∷ overrun ∷ []

abbrev process : Process
process = record { stdout = some readings; exit_code = pos 0 }

run-Captured_example :
    (output : Characters) × (run process (35 ∷ [])
      ≡ ((35 ∷ []) ++ joined (lines_read readings), err line_too_long))
    × (output ≡ last_items max_captured_output (joined (lines_read readings)))
    × (length output ≤ max_captured_output)
run-Captured_example = run-Captured readings process (35 ∷ []) refl
