-- ===== src/Runner/Artifacts/Summary.antt =====
-- The counts of a JUnit summary.
use pytest_hardware_template.Prelude.{◌+◌, ◌≤◌, ◌≡◌, List, [], ◌∷◌, All, arith}
use pytest_hardware_template.Runner.Artifacts.{Suite, total, read_junit_summary}

-- A suite counts each test at most once as failed, in error or skipped.
abbrev pub IsConsistent : Suite → Type 0
IsConsistent s = s.failures + s.errors + s.skipped ≤ s.tests

totals_le :
    (suites : List Suite)
    → All IsConsistent suites
    → total (λ s. s.failures) suites + total (λ s. s.errors) suites + total (λ s. s.skipped) suites
      ≤ total (λ s. s.tests) suites
totals_le [] h = omega arith
totals_le (s ∷ suites) h = omega (arith, totals_le suites h.1)

-- If each suite counts a test at most once as failed, in error or skipped, then the summary of any
-- number of suites accounts for every test: passed, failed, errors and skipped add up to the total.
pub read_junit_summary-partition :
    (suites : List Suite)
    → All IsConsistent suites
    → let s = read_junit_summary suites in s.passed + s.failed + s.errors + s.skipped ≡ s.total
unfolding read_junit_summary
read_junit_summary-partition suites h = omega (arith, totals_le suites h)
