-- ===== src/Runner/Validation/Witnesses.antt =====
-- The theorems on validated settings at concrete inputs: Allure publishing, with local accounts.
use pytest_hardware_template.Prelude.{true, some, ◌≡◌, ◌≢◌, refl, ok, err, inr}
use pytest_hardware_template.Paths.{parse, is_absolute, has_dotdot, path_eq}
use pytest_hardware_template.Runner.Settings.{Settings, AuthMode}
use pytest_hardware_template.Runner.Samples.{settings}
use pytest_hardware_template.Runner.Docker.{
  CommandError, invalid_image_reference, runtime_error, validate_remote_image, run_tests,
  publish_allure, image_reference_pattern,
}
use pytest_hardware_template.Runner.Validation.{
  validate, validate_authentication_settings, validate_allure_settings,
  validate_reportportal_settings,
}
use pytest_hardware_template.Runner.Validation.Guarantees.{
  validate-run_tests, validate-publish_allure, validate-report_paths, validate-session_secret,
  LeadsBelow,
}
use pytest_hardware_template.Prelude.{concat, [], ◌∷◌, none}
use pytest_hardware_template.Runner.Auth.Signed.{
  not_validated, Library, encode_signed, decode_signed,
}
use pytest_hardware_template.Runner.Auth.Login.{login}

abbrev accounts : Settings
accounts = record settings {
  auth_mode = AuthMode.local;
  auth_username = some "ann";
  auth_password = some "pass";
  auth_session_secret = some "key";
  allure_enabled = true;
  allure_access_token = some "token";
  allure_results_path = some (parse "allure-results");
}

accounts-valid : validate accounts ≡ ok tt
unfolding validate is_absolute parse has_dotdot path_eq validate_authentication_settings
    validate_allure_settings validate_reportportal_settings
accounts-valid = refl

abbrev malformed : CommandError
malformed = invalid_image_reference "invalid image reference"

validate-run_tests_example : validate_remote_image accounts "-v" ≡ err malformed
unfolding run_tests image_reference_pattern
validate-run_tests_example =
    validate-run_tests accounts "run-1" "run-1" "-v" "bench" "smoke" malformed accounts-valid refl

validate-publish_allure_example :
    publish_allure accounts "run-1" (parse "/opt/artifacts/run-1")
    ≢ err (runtime_error "Allure results path is unavailable")
validate-publish_allure_example =
    validate-publish_allure accounts "run-1" (parse "/opt/artifacts/run-1")
      (runtime_error "Allure results path is unavailable") accounts-valid refl

validate-report_paths_example : LeadsBelow (parse "allure-results")
validate-report_paths_example =
    validate-report_paths accounts (parse "allure-results") accounts-valid (inr (inr (inr refl)))

abbrev library : Library
library = record {
  hexdigest = λ key message. concat (key ∷ message ∷ []);
  dumps = λ payload. "payload";
  loads = λ text. none;
  to_int = λ json. none;
  to_text = λ json. "text";
  sorted_set = λ l. l;
}

validate-session_secret_example :
    (encode_signed library accounts 100 [] ≢ err not_validated)
    × (decode_signed library accounts 100 (some "body.key") 600 ≢ err not_validated)
    × (login library accounts 100 (record { username = "ann"; password = "pass" })
        ≢ err not_validated)
validate-session_secret_example =
    validate-session_secret library accounts 100 [] (some "body.key") 600
      (record { username = "ann"; password = "pass" }) accounts-valid λ e. cc
