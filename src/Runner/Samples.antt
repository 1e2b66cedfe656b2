-- ===== src/Runner/Samples.antt =====
-- Sample settings and files for the test runner's examples.
use pytest_hardware_template.Prelude.{true, false, none, some, List, [], ◌∷◌}
use pytest_hardware_template.Paths.{parse}
use pytest_hardware_template.Runner.Settings.{Settings, AuthMode}
use pytest_hardware_template.Runner.Artifacts.{FileSystem, Suite}
use pytest_hardware_template.Runner.Execute.{World}

abbrev pub settings : Settings
settings = record {
  state_directory = parse "/runtime/state";
  framework_source = parse "/opt/framework";
  framework_dockerfile = parse "/opt/framework/Dockerfile";
  inventory_file = parse "/opt/inventory/stands.yaml";
  artifacts_directory = parse "/opt/artifacts";
  pytest_log_path = some (parse "pytest.log");
  junit_path = some (parse "reports/junit.xml");
  html_path = none;
  allure_results_path = none;
  env_file = none;
  known_hosts_file = none;
  docker_network = none;
  docker_devices = [];
  allowed_image_prefixes = "sha256:" ∷ [];
  operation_timeout_seconds = 3600;
  auth_mode = AuthMode.disabled;
  auth_username = none;
  auth_password = none;
  auth_session_secret = none;
  auth_api_token = none;
  auth_session_ttl_seconds = 604800;
  auth_cookie_secure = false;
  public_url = none;
  oidc_issuer = none;
  oidc_client_id = none;
  oidc_client_secret = none;
  oidc_audience = none;
  oidc_viewer_role = "viewer";
  oidc_operator_role = "operator";
  oidc_jwks_cache_seconds = 3600;
  oidc_clock_skew_seconds = 30;
  allure_enabled = false;
  allure_publisher_image = "local/allure-publisher:3.17.0";
  allure_access_token = none;
  allure_public_url = none;
  allure_repository = "template";
  reportportal_enabled = false;
  reportportal_endpoint = none;
  reportportal_public_url = none;
  reportportal_project = "";
  reportportal_api_key = none;
}

-- Every path is a file and is resolved already; a report has two suites.
abbrev pub suites : List Suite
suites =
    record { tests = 5; failures = 1; errors = 0; skipped = 2 }
    ∷ record { tests = 3; failures = 0; errors = 1; skipped = 0 }
    ∷ []

abbrev pub files : FileSystem
files = record {
  resolve = λ p. p;
  is_dir = λ p. true;
  is_file = λ p. true;
  size = λ p. 10;
  junit = λ p. some suites;
}

abbrev pub world : World
world = record { now = 100; fs = files }
