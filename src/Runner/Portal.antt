-- ===== src/Runner/Portal.antt =====
-- helpers/test-runner-service/src/test_runner_service/reportportal.py: the status of an operation's
-- ReportPortal launch. What the server answers is the parameter `Answer`.
use pytest_hardware_template.Prelude.{
  ℕ, String, Bool, false, Option, none, some, List, [], ◌∷◌, ◌&&◌, not, ◌==◌, nat_eq, if◌then◌else◌,
  is_some, concat, rstrip, elem,
}
use pytest_hardware_template.Runner.Settings.{Settings, HttpUrl}
use pytest_hardware_template.Runner.Models.{
  Update, reportportal_status, reportportal_url, reportportal_message, finished, incomplete,
  unavailable,
}

pub record Launch : Type 0 where
  pub id : String
  pub name : String
  pub status : String

-- What the HTTP exchange gives: an exception, or a status with the page of launches, which is
-- `none` where the body is not one.
pub data Answer : Type 0 where
  broken : Answer
  answered : (status : ℕ) → (page : Option (List Launch)) → Answer

-- `str(url).rstrip("/")`
unfoldable pub origin : HttpUrl → String
unfolding rstrip
origin url = rstrip (λ c. nat_eq c b'/') url.text

unfoldable pub launches_url : Settings → Option String
unfolding origin
launches_url settings = elim settings.reportportal_public_url [
  | none ↦ none
  | some url ↦
      if settings.reportportal_enabled
      then some
          (concat (origin url ∷ "/ui/#" ∷ settings.reportportal_project ∷ "/launches/all" ∷ []))
      else none
]

unfoldable pub named : String → List Launch → List Launch
named operation_id [] = []
named operation_id (l ∷ ls) =
    let rest = named operation_id ls in if l.name == operation_id then l ∷ rest else rest

-- `matches[0] if len(matches) == 1 else None`
unfoldable pub only : List Launch → Option Launch
only (l ∷ []) = some l
only _ = none

-- The outcome of `_find_launch`: an exception, or its value.
pub data Found : Type 0 where
  raised : Found
  returned : Option Launch → Found

abbrev pub has_host : Option HttpUrl → Bool
has_host none = false
has_host (some url) = is_some url.host

abbrev pub read_page : String → Option (List Launch) → Found
read_page operation_id none = raised
read_page operation_id (some page) = returned (only (named operation_id page))

unfoldable pub find_launch : Settings → String → Answer → Found
unfolding named only
find_launch settings operation_id broken = raised
find_launch settings operation_id (answered status page) =
    if not (has_host settings.reportportal_endpoint && is_some settings.reportportal_api_key)
    then raised
    else if not (nat_eq status 200)
    then raised
    else read_page operation_id page

-- `f"{None}"` is "None"
abbrev pub or_none : Option String → String
or_none none = "None"
or_none (some s) = s

abbrev pub is_finished : String → Bool
is_finished status = elem status ("PASSED" ∷ "FAILED" ∷ "SKIPPED" ∷ "WARN" ∷ "INFO" ∷ [])

unfoldable pub report : Settings → Found → List Update
report settings raised =
    reportportal_status unavailable
    ∷ reportportal_message "Could not read ReportPortal launch; check service access"
    ∷ []
report settings (returned none) =
    reportportal_status unavailable
    ∷ reportportal_message "No ReportPortal launch was found for this operation"
    ∷ []
report settings (returned (some launch)) =
    reportportal_status (if is_finished launch.status then finished else incomplete)
    ∷ reportportal_url (concat (or_none (launches_url settings) ∷ "/" ∷ launch.id ∷ []))
    ∷ reportportal_message (
        if is_finished launch.status
        then "ReportPortal launch finished; delivery of every log is not verified"
        else "ReportPortal launch is still running or was interrupted")
    ∷ []

unfoldable pub read_reportportal_result : Settings → String → Answer → List Update
unfolding report find_launch
read_reportportal_result settings operation_id answer =
    if settings.reportportal_enabled
    then report settings (find_launch settings operation_id answer)
    else []
