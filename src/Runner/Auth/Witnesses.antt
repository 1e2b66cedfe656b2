-- ===== src/Runner/Auth/Witnesses.antt =====
-- The theorems on authentication at concrete inputs: an API token, and a signed session.
use pytest_hardware_template.Prelude.{
  ℕ, arith, Result, any_char, lookup, String, true, Option, none, some, [], ◌∷◌, ◌≡◌, ◌⊎◌, refl, ok,
  concat, all_char, Dict,
}
use pytest_hardware_template.Agent.Protocol.{
  ℤ, pos, Json, null, int, str, arr, obj, Fields, field, end, nil, cons, to_dict,
}
use pytest_hardware_template.Runner.Settings.{Settings, AuthMode}
use pytest_hardware_template.Runner.Samples.{settings}
use pytest_hardware_template.Runner.Oidc.Samples as Provider
use pytest_hardware_template.Runner.Oidc.Calls.{OidcClient, new_client, ◌>>=◌}
use pytest_hardware_template.Runner.Oidc.{verify_id_token, exchange_code}
use pytest_hardware_template.Runner.Auth.Routes.{
  Response, set, delete, Uncaught, redirect, callback, session_cookie_for, asdict,
}
use pytest_hardware_template.Runner.Auth.Callback.{IsSignedIn, callback-IsSignedIn}
use pytest_hardware_template.Runner.Auth.RoundTrip.{session_round_trip}
use pytest_hardware_template.Runner.Auth.Signed.{
  stamped, Library, decode_signed, valid_static_bearer_token,
}
use pytest_hardware_template.Runner.Auth.{
  Principal, decode_session, Scope, local_api_principal, authenticate, has_role, required_role,
  middleware,
}
use pytest_hardware_template.Runner.Auth.Gate.{IsOpen, middleware-authorized, middleware-operator}
use pytest_hardware_template.Runner.Auth.Sessions.{Authentic, decode_signed-Authentic}

abbrev to_int : Json → Option ℤ
to_int (int n) = some n
to_int _ = none

-- A payload issued at second 90.
abbrev loads : String → Option Json
loads s = some (obj (field "iat" (int (pos 90)) end))

abbrev library : Library
library = record {
  hexdigest = λ key message. concat (key ∷ message ∷ []);
  dumps = λ payload. "payload";
  loads = loads;
  to_int = to_int;
  to_text = λ json. "text";
  sorted_set = λ l. l;
}

abbrev with_token : Settings
with_token = record settings {
  auth_mode = AuthMode.local;
  auth_api_token = some "token";
  auth_session_secret = some "key";
}

abbrev post : Scope
post = record {
  type = "http";
  path = "/v1/runs";
  method = "POST";
  authorization = "Bearer token";
  cookie = "";
}

abbrev nobody : String → Option (Dict Json)
nobody token = none

middleware-authorized_example :
    IsOpen post
    ⊎ ((q : Principal) × (authenticate library with_token nobody 100 post ≡ ok (some q))
        × (some local_api_principal ≡ some q)
        × (has_role q (required_role post) with_token ≡ true))
unfolding middleware valid_static_bearer_token
middleware-authorized_example =
    middleware-authorized library with_token nobody 100 post (some local_api_principal) refl

middleware-operator_example :
    (q : Principal) × (authenticate library with_token nobody 100 post ≡ ok (some q))
    × (some local_api_principal ≡ some q)
    × (has_role q "operator" with_token ≡ true)
unfolding middleware valid_static_bearer_token
middleware-operator_example =
    middleware-operator library with_token nobody 100 post (some local_api_principal)
      (refl, refl, refl) refl

decode_signed-Authentic_example :
    Authentic library with_token 100 600 "body.keybody" (("iat", int (pos 90)) ∷ [])
unfolding decode_signed all_char concat
decode_signed-Authentic_example =
    decode_signed-Authentic library with_token 100 600 "body.keybody" (("iat", int (pos 90)) ∷ [])
      refl

-- The library of a transaction for the state "s".
abbrev loads_transaction : String → Option Json
loads_transaction s = some (
    obj (
      field "iat" (int (pos 90))
        (field "state" (str "s") (field "nonce" (str "n") (field "verifier" (str "v") end)))))

abbrev to_text : Json → String
to_text (str s) = s
to_text _ = ""

abbrev transactions : Library
transactions = record library { loads = loads_transaction; to_text = to_text }

abbrev with_provider : Settings
with_provider = record Provider.settings {
  auth_mode = AuthMode.keycloak;
  auth_session_secret = some "key";
}

abbrev returned : OidcClient × Result Uncaught Response
returned =
    callback transactions with_provider 100 Provider.network Provider.jwt "code" "s"
      (some "body.keybody") new_client

abbrev welcome : Response
welcome = redirect "/" (
    delete "test_runner_oidc_transaction"
    ∷ set "test_runner_session" "payload.keypayload" 604800
    ∷ [])

callback-IsSignedIn_example :
    IsSignedIn transactions with_provider 100 Provider.network Provider.jwt "s"
      (some "body.keybody")
      returned.0
      welcome
unfolding callback concat all_char ◌>>=◌ verify_id_token exchange_code
callback-IsSignedIn_example =
    callback-IsSignedIn transactions with_provider 100 Provider.network Provider.jwt "code" "s"
      (some "body.keybody") new_client returned.0 welcome refl refl

abbrev user : Principal
user = record {
  subject = "user";
  username = none;
  roles = "viewer" ∷ [];
  method = "oidc_session";
  expires_at = some (pos 200);
}

abbrev user_fields : Fields
user_fields = field "iat" (int (pos 100)) (
    field "subject" (str "user") (
      field "username" null (
        field "roles" (arr (cons (str "viewer") nil))
          (field "method" (str "oidc_session") (field "expires_at" (int (pos 200)) end)))))

abbrev sessions : Library
sessions = record library {
  hexdigest = λ key message. "digest";
  loads = λ s. some (obj user_fields);
  to_text = to_text;
}

session_round_trip_example :
    (cookie : String) × (max_age : ℕ) × (session_cookie_for sessions with_provider 100 user
      ≡ ok (set "test_runner_session" cookie max_age))
    × (decode_session sessions with_provider 150 cookie ≡ ok (some user))
unfolding stamped asdict to_dict lookup any_char all_char
session_round_trip_example =
    session_round_trip sessions with_provider 100 150 user "key" user_fields refl refl
      (λ key message. refl) refl (λ k. refl) (λ n. refl) (λ s. refl) (omega arith) (omega arith)
      refl
