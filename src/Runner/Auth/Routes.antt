-- ===== src/Runner/Auth/Routes.antt =====
-- helpers/test-runner-service/src/test_runner_service/auth.py: the routes of `create_auth_router`. The
-- random texts, SHA-256 and what FastAPI does with a response are parameters. A route runs in one
-- second of the clock.
use pytest_hardware_template.Prelude.{
  ℕ, ◌-◌, String, Bool, true, false, Option, none, some, List, [], ◌∷◌, min, lookup, Dict, Result,
  ok, err, ◌>>=◌,
}
use pytest_hardware_template.Agent.Protocol.{
  ℤ, pos, negsuc, Json, int, str, arr, null, Items, nil, cons,
}
use pytest_hardware_template.Runner.Settings.{Settings, AuthMode, keycloak, keycloak_ui_local_api}
use pytest_hardware_template.Runner.Oidc.Calls.{OidcError, OidcClient}
use pytest_hardware_template.Runner.Oidc.{Network, Jwt, exchange_code, verify_id_token}
use pytest_hardware_template.Runner.Auth.Signed.{
  Failure, key_error, Library, compare_digest, encode_signed, decode_signed,
}
use pytest_hardware_template.Runner.Auth.{Principal, has_role, principal_from_claims}

-- What a route sets: a cookie with its age, or that it is deleted.
pub data SetCookie : Type 0 where
  set : (name value : String) → (max_age : ℕ) → SetCookie
  delete : (name : String) → SetCookie

-- A response: its status, where it redirects or the page it sends, and what it says.
pub record Response : Type 0 where
  pub status : ℕ
  pub location : Option String
  pub detail : String
  pub cookies : List SetCookie

-- What no handler of a route catches: the failures above, an `OidcError`, and a missing client.
pub data Uncaught : Type 0 where
  failed : Failure → Uncaught
  provider_failed : OidcError → Uncaught
  no_client : Uncaught

abbrev pub session_cookie_name : String
session_cookie_name = "test_runner_session"

abbrev pub transaction_cookie_name : String
transaction_cookie_name = "test_runner_oidc_transaction"

abbrev pub answer : ℕ → String → Response
answer status detail = record { status = status; location = none; detail = detail; cookies = [] }

abbrev pub redirect : String → List SetCookie → Response
redirect location cookies = record {
  status = 303;
  location = some location;
  detail = "";
  cookies = cookies;
}

-- A route that uses the client: what becomes of the client, and the response
abbrev pub Route : Type 0
Route = OidcClient × Result Uncaught Response

-- `_uses_keycloak_ui`
abbrev pub uses_keycloak_ui : AuthMode → Bool
uses_keycloak_ui keycloak = true
uses_keycloak_ui keycloak_ui_local_api = true
uses_keycloak_ui _ = false

-- The failures of a helper, as those of a route
abbrev pub lifted : {A : Type 0} → Result Failure A → Result Uncaught A
lifted (ok a) = ok a
lifted (err e) = err (failed e)

abbrev pub text_items : List String → Items
text_items [] = nil
text_items (s ∷ l) = cons (str s) (text_items l)

abbrev pub or_null : {A : Type 0} → (A → Json) → Option A → Json
or_null f none = null
or_null f (some a) = f a

-- `asdict(principal)`
unfoldable pub asdict : Principal → Dict Json
asdict principal =
    ("subject", str principal.subject)
    ∷ ("username", or_null (λ s. str s) principal.username)
    ∷ ("roles", arr (text_items principal.roles))
    ∷ ("method", str principal.method)
    ∷ ("expires_at", or_null (λ n. int n) principal.expires_at)
    ∷ []

-- `min(max_age, max(0, expires_at - now))`
unfoldable pub session_age : ℕ → ℕ → Option ℤ → ℕ
session_age now ttl none = ttl
session_age now ttl (some (pos n)) = min ttl (n - now)
session_age now ttl (some (negsuc n)) = 0

-- `str(transaction.get("state", ""))`
abbrev pub state_text : (Json → String) → Option Json → String
state_text to_text none = ""
state_text to_text (some v) = to_text v

module _ (library : Library) (settings : Settings) (now : ℕ) where
  -- `_set_session_cookie`
  unfoldable pub session_cookie_for : Principal → Result Failure SetCookie
  unfolding encode_signed asdict session_age
  session_cookie_for principal = do
    value ← encode_signed library settings now (asdict principal)
    ok (
        set session_cookie_name value
          (session_age now settings.auth_session_ttl_seconds principal.expires_at))

  module _ (network : Network) {Key : Type 0} (jwt : Jwt Key) where
    abbrev pub provider_refused : Response
    provider_refused = answer 401 "identity provider authentication failed"

    abbrev pub with_session : Result Failure SetCookie → Result Uncaught Response
    with_session (err e) = err (failed e)
    with_session (ok cookie) = ok (redirect "/" (delete transaction_cookie_name ∷ cookie ∷ []))

    abbrev pub permitted : Principal → Bool → Result Uncaught Response
    permitted principal true = with_session (session_cookie_for principal)
    permitted principal false = ok (answer 403 "insufficient permissions")

    -- A claim that is missing is a `KeyError`, which the route catches.
    abbrev pub with_principal : Result Failure Principal → Result Uncaught Response
    with_principal (err key_error) = ok provider_refused
    with_principal (err e) = err (failed e)
    with_principal (ok principal) = permitted principal (has_role principal "viewer" settings)

    abbrev pub with_claims : OidcClient × Result OidcError (Dict Json) → Route
    with_claims (client, err e) = (client, ok provider_refused)
    with_claims (client, ok claims) =
        (client, with_principal (principal_from_claims library settings claims "oidc_session"))

    abbrev pub with_id_token : Option Json → Option Json → OidcClient → Route
    with_id_token (some token) (some nonce) client = with_claims (
        verify_id_token network settings jwt (library.to_text token) (library.to_text nonce) client)
    with_id_token _ _ client = (client, ok provider_refused)

    abbrev pub with_tokens : Dict Json → OidcClient × Result OidcError (Dict Json) → Route
    with_tokens transaction (client, err e) = (client, ok provider_refused)
    with_tokens transaction (client, ok tokens) =
        with_id_token (lookup "id_token" tokens) (lookup "nonce" transaction) client

    abbrev pub with_verifier : String → Dict Json → Option Json → OidcClient → Route
    with_verifier code transaction none client = (client, ok provider_refused)
    with_verifier code transaction (some verifier) client =
        with_tokens transaction
          (exchange_code network settings code (library.to_text verifier) client)

    abbrev pub with_state : String → Dict Json → Result Failure Bool → OidcClient → Route
    with_state code transaction (err e) client = (client, err (failed e))
    with_state code transaction (ok false) client =
        (client, ok (answer 401 "invalid authentication transaction"))
    with_state code transaction (ok true) client =
        with_verifier code transaction (lookup "verifier" transaction) client

    abbrev pub with_transaction :
        (code state : String) → Result Failure (Option (Dict Json)) → OidcClient → Route
    with_transaction code state (err e) client = (client, err (failed e))
    with_transaction code state (ok none) client =
        (client, ok (answer 401 "invalid authentication transaction"))
    with_transaction code state (ok (some transaction)) client =
        with_state code transaction
          (compare_digest (state_text library.to_text (lookup "state" transaction)) state) client

    abbrev pub callback_by : Bool → (code state : String) → Option String → OidcClient → Route
    callback_by false code state cookie client = (client, ok (answer 404 "not found"))
    callback_by true code state cookie client =
        with_transaction code state (decode_signed library settings now cookie 600) client

    -- `callback`
    unfoldable pub callback : (code state : String) → Option String → OidcClient → Route
    unfolding decode_signed compare_digest exchange_code verify_id_token principal_from_claims
        has_role session_cookie_for lookup
    callback code state cookie client =
        callback_by (uses_keycloak_ui settings.auth_mode) code state cookie client
