-- ===== src/Runner/Auth/Login.antt =====
-- helpers/test-runner-service/src/test_runner_service/auth.py: the routes of the login page, of the login
-- with a password, and of the logout.
use pytest_hardware_template.Prelude.{
  ℕ, String, Bool, true, false, Option, none, some, [], ◌∷◌, ◌==◌, if◌then◌else◌, concat, Dict,
  Result, ok, err, ◌>>=◌,
}
use pytest_hardware_template.Agent.Protocol.{str}
use pytest_hardware_template.Runner.Settings.{Settings, HttpUrl, AuthMode, disabled, local}
use pytest_hardware_template.Runner.Portal.{origin}
use pytest_hardware_template.Runner.Oidc.Calls.{OidcError, OidcClient}
use pytest_hardware_template.Runner.Oidc.{Network, authorization_url, logout_url}
use pytest_hardware_template.Runner.Auth.Signed.{
  Failure, not_validated, Library, compare_digest, encode_signed,
}
use pytest_hardware_template.Runner.Auth.{Principal, both_roles}
use pytest_hardware_template.Runner.Auth.Routes.{
  set, delete, Response, failed, provider_failed, session_cookie_name, transaction_cookie_name,
  answer, redirect, uses_keycloak_ui, lifted, session_cookie_for, Route,
}

-- `LoginRequest`
pub record LoginRequest : Type 0 where
  pub username : String
  pub password : String

abbrev pub credentials_are : LoginRequest → Option String → Option String → Result Failure Bool
credentials_are request (some username) (some password) = do
  same ← compare_digest request.username username
  ok (if same then request.password == password else false)
credentials_are request _ _ = err not_validated

-- `_credentials_match`
unfoldable pub credentials_match : LoginRequest → Settings → Result Failure Bool
unfolding compare_digest
credentials_match request settings =
    credentials_are request settings.auth_username settings.auth_password

module _ (library : Library) (settings : Settings) (now : ℕ) where
  abbrev pub local_principal : String → Principal
  local_principal username = record {
    subject = concat ("local:" ∷ username ∷ []);
    username = some username;
    roles = both_roles;
    method = "local";
    expires_at = none;
  }

  abbrev pub logged_in : LoginRequest → Bool → Result Failure Response
  logged_in request false = ok (answer 401 "invalid username or password")
  logged_in request true = do
    cookie ← session_cookie_for library settings now (local_principal request.username)
    ok (record { status = 200; location = none; detail = "authenticated"; cookies = cookie ∷ [] })

  abbrev pub login_by : AuthMode → LoginRequest → Result Failure Response
  login_by disabled request = ok (answer 200 "disabled")
  login_by local request = do
    matched ← credentials_match request settings
    logged_in request matched
  login_by _ request = ok (answer 404 "password login is not available")

  -- `login`
  unfoldable pub login : LoginRequest → Result Failure Response
  unfolding credentials_match session_cookie_for concat
  login request = login_by settings.auth_mode request

  module _ (network : Network) (urlencode : Dict String → String) where
    abbrev pub to_provider :
        (state nonce verifier : String) → OidcClient × Result OidcError String → Route
    to_provider state nonce verifier (client, err e) = (client, err (provider_failed e))
    to_provider state nonce verifier (client, ok location) = (
      client,
      lifted (do
        value ←
            encode_signed library settings now
              (("state", str state) ∷ ("nonce", str nonce) ∷ ("verifier", str verifier) ∷ [])
        ok (redirect location (set transaction_cookie_name value 600 ∷ []))),
    )

    abbrev pub login_page_by :
        AuthMode → (state nonce verifier challenge : String) → OidcClient → Route
    login_page_by disabled state nonce verifier challenge client = (client, ok (redirect "/" []))
    login_page_by local state nonce verifier challenge client =
        (client, ok (answer 200 "login.html"))
    login_page_by _ state nonce verifier challenge client =
        to_provider state nonce verifier
          (authorization_url network settings urlencode state nonce challenge client)

    -- `login_page`, with the random texts; `create_app` gives it a client in the modes that need one.
    unfoldable pub login_page :
        (state nonce verifier : String) → (challenge : String) → OidcClient → Route
    unfolding authorization_url encode_signed
    login_page state nonce verifier challenge client =
        login_page_by settings.auth_mode state nonce verifier challenge client

    abbrev pub logged_out : String → Response
    logged_out location = record {
      status = 200;
      location = some location;
      detail = "logged_out";
      cookies = delete session_cookie_name ∷ [];
    }

    abbrev pub left : OidcClient × Result OidcError String → Route
    left (client, err e) = (client, err (provider_failed e))
    left (client, ok location) = (client, ok (logged_out location))

    abbrev pub logout_by : Bool → Option HttpUrl → OidcClient → Route
    logout_by false url client = (client, ok (logged_out "/login"))
    logout_by true none client = (client, err (failed not_validated))
    logout_by true (some url) client =
        left (logout_url network settings urlencode (concat (origin url ∷ "/login" ∷ [])) client)

    -- `logout`
    unfoldable pub logout : OidcClient → Route
    unfolding logout_url concat
    logout client = logout_by (uses_keycloak_ui settings.auth_mode) settings.public_url client
