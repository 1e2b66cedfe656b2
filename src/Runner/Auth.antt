-- ===== src/Runner/Auth.antt =====
-- helpers/test-runner-service/src/test_runner_service/auth.py: who sends a request, and what it may
-- do. The routes are FastAPI's, and `verify` is the verification of an access token: its claims, or
-- `none` for an `OidcError`.
pub mod Signed
mod Roles
pub mod Gate
pub mod Sessions
pub mod Routes
pub mod Login
pub mod Callback
pub mod RoundTrip
mod Witnesses
use pytest_hardware_template.Prelude.{
  ℕ, String, Bool, true, false, Option, none, some, List, [], ◌∷◌, ◌++◌, ◌||◌, ◌&&◌, not, ◌==◌,
  if◌then◌else◌, elem, has_prefix, lookup, Dict, Result, ok, err, ◌>>=◌, ◌>>◌,
}
use pytest_hardware_template.Agent.Protocol.{
  ℤ, Json, str, arr, obj, null, Items, nil, cons, Fields, to_dict,
}
use pytest_hardware_template.Runner.Settings.{
  Settings, AuthMode, disabled, local, keycloak, keycloak_ui_local_api,
}
use Signed.{
  Failure, not_validated, key_error, value_error, Library, valid_static_bearer_token, bearer_value,
  cookie_value, decode_signed, optional_int,
}
unfoldable pub use Roles.*

module _ (library : Library) (settings : Settings) where
  abbrev pub principal_of :
      List String
      → Dict Json
      → Option Json
      → Option Json
      → Result Unit (Option ℤ)
      → Option Principal
  principal_of roles payload (some subject) (some method) (ok expires_at) = some (record {
    subject = library.to_text subject;
    username = optional_text library.to_text (lookup "username" payload);
    roles = roles;
    method = library.to_text method;
    expires_at = expires_at;
  })
  principal_of roles payload _ _ _ = none

  abbrev pub session_of : Dict Json → Option Json → Option Principal
  session_of payload (some (arr roles)) =
      principal_of (string_items roles) payload (lookup "subject" payload) (lookup "method" payload)
        (optional_int (lookup "expires_at" payload))
  session_of payload _ = none

  abbrev pub session_in : Option (Dict Json) → Option Principal
  session_in none = none
  session_in (some payload) = session_of payload (lookup "roles" payload)

  -- `_decode_session`
  unfoldable pub decode_session : ℕ → String → Result Failure (Option Principal)
  unfolding decode_signed string_items lookup
  decode_session now value = do
    payload ← decode_signed library settings now (some value) settings.auth_session_ttl_seconds
    ok (session_in payload)

  -- `_decode_session(cookie, settings) if cookie is not None else None`
  unfoldable pub session_by : ℕ → Option String → Result Failure (Option Principal)
  unfolding decode_session
  session_by now none = ok none
  session_by now (some value) = decode_session now value

  abbrev pub session_cookie : Scope → Option String
  session_cookie scope = cookie_value scope.cookie "test_runner_session"

  -- `LocalAuthenticator.authenticate`
  unfoldable pub authenticate_local : ℕ → Scope → Result Failure (Option Principal)
  unfolding session_by
  authenticate_local now scope =
      if valid_static_bearer_token scope.authorization settings
      then ok (some local_api_principal)
      else session_by now (session_cookie scope)

  -- `KeycloakUILocalAPIAuthenticator.authenticate`
  unfoldable pub authenticate_hybrid : ℕ → Scope → Result Failure (Option Principal)
  unfolding session_by
  authenticate_hybrid now scope =
      if elem scope.path ui_pages || scope.authorization == ""
      then session_by now (session_cookie scope)
      else ok (
          if valid_static_bearer_token scope.authorization settings
          then some local_api_principal
          else none)

  abbrev pub claimed :
      String
      → List String
      → Dict Json
      → Option Json
      → Result Unit (Option ℤ)
      → Result Failure Principal
  claimed method roles claims none e = err key_error
  claimed method roles claims (some subject) (err _) = err value_error
  claimed method roles claims (some subject) (ok expires_at) = ok (record {
    subject = library.to_text subject;
    username = optional_text library.to_text (lookup "preferred_username" claims);
    roles = library.sorted_set roles;
    method = method;
    expires_at = expires_at;
  })

  -- `_principal_from_claims`
  unfoldable pub principal_from_claims : Dict Json → String → Result Failure Principal
  unfolding token_roles lookup
  principal_from_claims claims method = elim settings.oidc_client_id [
    | none ↦ err not_validated
    | some client_id ↦
        claimed method (token_roles claims client_id) claims (lookup "sub" claims)
          (optional_int (lookup "exp" claims))
  ]

  unfoldable pub verified : Option (Dict Json) → Result Failure (Option Principal)
  unfolding principal_from_claims
  verified none = ok none
  verified (some claims) = do
    principal ← principal_from_claims claims "oidc_bearer"
    ok (some principal)

  module _ (verify : String → Option (Dict Json)) where
    -- `KeycloakAuthenticator.authenticate`
    unfoldable pub authenticate_keycloak : ℕ → Scope → Result Failure (Option Principal)
    unfolding session_by verified
    authenticate_keycloak now scope = elim (bearer_value scope.authorization) [
      | some bearer ↦ verified (verify bearer)
      | none ↦ session_by now (session_cookie scope)
    ]

    -- The authenticator that `create_authenticator` chooses.
    unfoldable pub authenticate_by : AuthMode → ℕ → Scope → Result Failure (Option Principal)
    unfolding authenticate_local authenticate_keycloak authenticate_hybrid
    authenticate_by disabled now scope = ok (some disabled_principal)
    authenticate_by local now scope = authenticate_local now scope
    authenticate_by keycloak now scope = authenticate_keycloak now scope
    authenticate_by keycloak_ui_local_api now scope = authenticate_hybrid now scope

    unfoldable pub authenticate : ℕ → Scope → Result Failure (Option Principal)
    unfolding authenticate_by
    authenticate now scope = authenticate_by settings.auth_mode now scope

-- What becomes of a request: it is handed on, with or without a principal, or answered.
pub data Answer : Type 0 where
  handed_on : Option Principal → Answer
  login_redirect : Answer
  unauthorized : Answer
  forbidden : Answer

-- `_unauthorized`
unfoldable pub reject : Scope → Answer
reject scope = if elem scope.path ui_pages then login_redirect else unauthorized

unfoldable pub admit : Settings → Scope → Option Principal → Answer
unfolding reject has_role required_role
admit settings scope none = reject scope
admit settings scope (some principal) =
    if has_role principal (required_role scope) settings
    then handed_on (some principal)
    else forbidden

-- `AuthenticationMiddleware.__call__`
unfoldable pub middleware :
    Library → Settings → (String → Option (Dict Json)) → ℕ → Scope → Result Failure Answer
unfolding authenticate admit
middleware library settings verify now scope =
    if not (scope.type == "http") || elem scope.path public_paths then ok (handed_on none) else (do
      principal ← authenticate library settings verify now scope
      ok (admit settings scope principal))
