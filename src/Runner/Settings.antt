-- ===== src/Runner/Settings.antt =====
-- helpers/test-runner-service/src/test_runner_service/settings.py: the validated fields, with
-- secrets and URLs by their text.
use pytest_hardware_template.Prelude.{ℕ, String, Bool, Option, List}
use pytest_hardware_template.Paths.{FilePath}

pub data AuthMode : Type 0 where
  disabled local keycloak keycloak_ui_local_api : AuthMode

-- `AnyHttpUrl`: the parts that the validators read, and its text. An absent part is empty.
pub record HttpUrl : Type 0 where
  pub scheme : String
  pub host : Option String
  pub username : String
  pub password : String
  pub query : String
  pub fragment : String
  pub text : String

pub record Settings : Type 0 where
  pub state_directory : FilePath
  pub framework_source : FilePath
  pub framework_dockerfile : FilePath
  pub inventory_file : FilePath
  pub artifacts_directory : FilePath
  pub pytest_log_path : Option FilePath
  pub junit_path : Option FilePath
  pub html_path : Option FilePath
  pub allure_results_path : Option FilePath
  pub env_file : Option FilePath
  pub known_hosts_file : Option FilePath
  pub docker_network : Option String
  pub docker_devices : List String
  pub allowed_image_prefixes : List String
  pub operation_timeout_seconds : ℕ
  pub auth_mode : AuthMode
  pub auth_username : Option String
  pub auth_password : Option String
  pub auth_session_secret : Option String
  pub auth_api_token : Option String
  pub auth_session_ttl_seconds : ℕ
  pub auth_cookie_secure : Bool
  pub public_url : Option HttpUrl
  pub oidc_issuer : Option HttpUrl
  pub oidc_client_id : Option String
  pub oidc_client_secret : Option String
  pub oidc_audience : Option String
  pub oidc_viewer_role : String
  pub oidc_operator_role : String
  pub oidc_jwks_cache_seconds : ℕ
  pub oidc_clock_skew_seconds : ℕ
  pub allure_enabled : Bool
  pub allure_publisher_image : String
  pub allure_access_token : Option String
  pub allure_public_url : Option HttpUrl
  pub allure_repository : String
  pub reportportal_enabled : Bool
  pub reportportal_endpoint : Option HttpUrl
  pub reportportal_public_url : Option HttpUrl
  pub reportportal_project : String
  pub reportportal_api_key : Option String
