-- ===== src/Runner/Validation.antt =====
-- helpers/test-runner-service/src/test_runner_service/settings.py: the validators of `Settings`. An
-- empty text is read as an absent value before these checks.
pub mod Guarantees
mod Witnesses
use pytest_hardware_template.Prelude.{
  String, Bool, true, false, Option, none, some, List, [], ◌∷◌, ◌++◌, ◌||◌, ◌&&◌, not, ◌==◌,
  if◌then◌else◌, concat, join, split, strip, Result, ok, err, ◌>>=◌, ◌>>◌, guard, is_some,
}
use pytest_hardware_template.Paths.{FilePath, parse, is_absolute, has_dotdot, path_eq}
use pytest_hardware_template.Runner.Settings.{
  Settings, HttpUrl, AuthMode, disabled, local, keycloak, keycloak_ui_local_api,
}

-- `empty_report_path_is_disabled`, and the same for the URLs
unfoldable pub empty_is_unset : String → Option String
empty_is_unset value = if value == "" then none else some value

unfoldable pub nonempty_items : List String → List String
nonempty_items [] = []
nonempty_items (item ∷ items) =
    let rest = nonempty_items items in if strip item == "" then rest else strip item ∷ rest

unfoldable pub parse_comma_separated_tuple : String → List String
unfolding nonempty_items
parse_comma_separated_tuple value = nonempty_items (split b',' value)

-- A validator's messages: none where the value passes.
abbrev pub unless : Bool → String → List String
unless test message = if test then [] else message ∷ []

abbrev pub on_value {ℓ} : {A : Type ℓ} → (A → List String) → Option A → List String
on_value f none = []
on_value f (some v) = f v

unfoldable pub is_descendant : FilePath → Bool
is_descendant p = not (is_absolute p || has_dotdot p || path_eq p (parse ""))

unfoldable pub validate_report_path : Option FilePath → List String
unfolding is_descendant
validate_report_path = on_value λ p.
    unless (is_descendant p) "report paths must be relative descendants of the session directory"

abbrev pub has_extras : HttpUrl → Bool
has_extras url =
    not (url.username == "")
    || not (url.password == "")
    || not (url.query == "")
    || not (url.fragment == "")

unfoldable pub validate_public_url : Option HttpUrl → List String
validate_public_url = on_value λ url.
    unless (not (has_extras url)) "public URL must not contain credentials, query, or fragment"

unfoldable pub validate_oidc_issuer : Option HttpUrl → List String
validate_oidc_issuer = on_value λ url.
    unless (url.scheme == "https" && not (has_extras url))
      "OIDC issuer must be HTTPS without credentials, query, or fragment"

unfoldable pub validate_reportportal_url : Option HttpUrl → List String
validate_reportportal_url = on_value λ url.
    unless (not (has_extras url))
      "ReportPortal URLs must not contain credentials, query, or fragment"

-- `_has_secret_value`, of a text or a secret
abbrev pub has_value : Option String → Bool
has_value none = false
has_value (some v) = not (v == "")

-- The names of the required values that are absent.
unfoldable pub missing : List (String × Bool) → List String
missing [] = []
missing ((name, present) ∷ rest) =
    let names = missing rest in if present then names else name ∷ names

abbrev pub require_all : String → List String → Result (List String) Unit
require_all text [] = ok tt
require_all text (n ∷ ns) = err (concat (text ∷ join ", " (n ∷ ns) ∷ []) ∷ [])

unfoldable pub validate_keycloak : Settings → Result (List String) Unit
unfolding missing
validate_keycloak s = require_all "Keycloak authentication requires: " (
    missing (
      ("TEST_RUNNER_PUBLIC_URL", is_some s.public_url)
      ∷ ("TEST_RUNNER_OIDC_ISSUER", is_some s.oidc_issuer)
      ∷ ("TEST_RUNNER_OIDC_CLIENT_ID", has_value s.oidc_client_id)
      ∷ ("TEST_RUNNER_OIDC_CLIENT_SECRET", has_value s.oidc_client_secret)
      ∷ ("TEST_RUNNER_OIDC_AUDIENCE", has_value s.oidc_audience)
      ∷ ("TEST_RUNNER_AUTH_SESSION_SECRET", has_value s.auth_session_secret)
      ∷ []))

unfoldable pub validate_mode : AuthMode → Settings → Result (List String) Unit
unfolding validate_keycloak missing
validate_mode disabled s = ok tt
validate_mode local s = require_all "local authentication requires: " (
    missing (
      ("TEST_RUNNER_AUTH_USERNAME", has_value s.auth_username)
      ∷ ("TEST_RUNNER_AUTH_PASSWORD", has_value s.auth_password)
      ∷ ("TEST_RUNNER_AUTH_SESSION_SECRET", has_value s.auth_session_secret)
      ∷ []))
validate_mode keycloak s = do
  validate_keycloak s
  guard (not (has_value s.auth_api_token))
      ("TEST_RUNNER_AUTH_API_TOKEN is only supported by local or hybrid authentication" ∷ [])
validate_mode keycloak_ui_local_api s = do
  validate_keycloak s
  guard (has_value s.auth_api_token)
      ("hybrid authentication requires: TEST_RUNNER_AUTH_API_TOKEN" ∷ [])

unfoldable pub validate_authentication_settings : Settings → Result (List String) Unit
unfolding validate_mode
validate_authentication_settings s = validate_mode s.auth_mode s

unfoldable pub validate_allure_settings : Settings → Result (List String) Unit
unfolding missing
validate_allure_settings s =
    if s.allure_enabled
    then require_all "Allure publishing requires: " (
        missing (
          ("TEST_RUNNER_ALLURE_ACCESS_TOKEN", has_value s.allure_access_token)
          ∷ ("TEST_RUNNER_ALLURE_RESULTS_PATH", is_some s.allure_results_path)
          ∷ []))
    else ok tt

unfoldable pub validate_reportportal_settings : Settings → Result (List String) Unit
unfolding missing
validate_reportportal_settings s =
    if s.reportportal_enabled
    then require_all "ReportPortal requires: " (
        missing (
          ("TEST_RUNNER_REPORTPORTAL_ENDPOINT", is_some s.reportportal_endpoint)
          ∷ ("TEST_RUNNER_REPORTPORTAL_PUBLIC_URL", is_some s.reportportal_public_url)
          ∷ ("TEST_RUNNER_REPORTPORTAL_PROJECT", not (s.reportportal_project == ""))
          ∷ ("TEST_RUNNER_REPORTPORTAL_API_KEY", has_value s.reportportal_api_key)
          ∷ []))
    else ok tt

unfoldable pub field_errors : Settings → List String
unfolding validate_report_path validate_public_url validate_oidc_issuer validate_reportportal_url
field_errors s =
    validate_report_path s.pytest_log_path
    ++ validate_report_path s.junit_path
    ++ validate_report_path s.html_path
    ++ validate_report_path s.allure_results_path
    ++ validate_public_url s.public_url
    ++ validate_oidc_issuer s.oidc_issuer
    ++ validate_reportportal_url s.reportportal_endpoint
    ++ validate_reportportal_url s.reportportal_public_url

abbrev pub no_errors : List String → Result (List String) Unit
no_errors [] = ok tt
no_errors (e ∷ es) = err (e ∷ es)

-- The checks of the model run once every field has passed its own, and the first failure ends them.
unfoldable pub validate : Settings → Result (List String) Unit
unfolding field_errors
validate s = do
  no_errors (field_errors s)
  validate_authentication_settings s
  validate_allure_settings s
  validate_reportportal_settings s
