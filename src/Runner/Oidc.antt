-- ===== src/Runner/Oidc.antt =====
-- helpers/test-runner-service/src/test_runner_service/oidc.py: the client of an OpenID Connect
-- provider. The network, the clock, PyJWT and `urllib.parse.urlencode` are parameters. Calls do not
-- overlap.
pub mod Calls
mod Documents
pub mod Secure
pub mod Requests
pub mod Budget
pub mod Trusted
pub mod Samples
mod Witnesses
use pytest_hardware_template.Prelude.{
  ℕ, ◌+◌, String, Bool, true, false, Option, none, some, List, [], ◌∷◌, ◌||◌, not, ◌==◌,
  if◌then◌else◌, leb, concat, has_prefix, lookup, Dict, Result, ok, err,
}
use pytest_hardware_template.Agent.Protocol.{
  Json, str, arr, obj, null, Items, nil, cons, Fields, to_dict,
}
use pytest_hardware_template.Runner.Settings.{Settings, HttpUrl}
use pytest_hardware_template.Runner.Portal.{origin}
unfoldable pub use Documents.*
use Calls.{
  OidcError, unavailable, invalid_response, not_validated, issuer_differs, missing_url, invalid_url,
  no_id_token, invalid_nonce, invalid_header, unknown_key, invalid_key, invalid_token,
  OidcEndpoints, Request, get, post, OidcClient, Call, return, given, ◌>>=◌,
}

-- What `urlopen` and `json.load` give in the end for a request, after the requests that were sent
-- before: `none` for an error of the network or of the JSON. `urlopen` follows redirects by itself: the
-- client neither sees nor checks them, and they are no requests here. `clock` is `time.monotonic` after
-- those requests, when the key set is asked for and when it is loaded anew. Each call of the client
-- may find another network.
pub record Network : Type 0 where
  pub answer : List Request → Request → Option Json
  pub clock : (force : Bool) → List Request → ℕ

-- PyJWT: `get_unverified_header`, `PyJWK.from_dict` and `decode`, with `none` for a `PyJWTError`.
-- `decode` has the algorithms, the audience, the issuer, the leeway and the required claims.
pub record Jwt (Key : Type 0) : Type 0 where
  pub get_unverified_header : String → Option (Dict Json)
  pub from_dict : (key : Dict Json) → (algorithm : String) → Option Key
  pub decode :
      String
      → Key
      → (algorithms : List String) → (audience issuer : String) → (leeway : ℕ)
      → (required : List String) → Option (Dict Json)

module _ (network : Network) (settings : Settings) where
  -- `UrlLibJsonHttpClient._request`, with the request added to those that were sent
  unfoldable pub request : Request → Call (Dict Json)
  unfolding to_dict
  request r client =
      (record client { sent = r ∷ client.sent }, object_of (network.answer client.sent r))

  -- `self._endpoints = endpoints`
  unfoldable pub keep_endpoints : OidcEndpoints → Call OidcEndpoints
  keep_endpoints e client = (record client { endpoints = some e }, ok e)

  unfoldable pub discover : Call OidcEndpoints
  unfolding request keep_endpoints required_url optional_url issuer concat lookup
  discover = do
    name ← given (issuer settings)
    document ← request (get (concat (name ∷ "/.well-known/openid-configuration" ∷ [])))
    checked ← given (or_fail issuer_differs (is_text (lookup "issuer" document) name))
    authorization ← given (required_url document "authorization_endpoint")
    token ← given (required_url document "token_endpoint")
    jwks ← given (required_url document "jwks_uri")
    end_session ← given (optional_url document "end_session_endpoint")
    keep_endpoints (record {
      authorization = authorization;
      token = token;
      jwks = jwks;
      end_session = end_session;
    })

  abbrev pub endpoints_or_discover : Option OidcEndpoints → Call OidcEndpoints
  endpoints_or_discover none = discover
  endpoints_or_discover (some e) = return e

  -- `OidcClient._get_endpoints`
  unfoldable pub get_endpoints : Call OidcEndpoints
  unfolding discover
  get_endpoints client = endpoints_or_discover client.endpoints client

  unfoldable pub keep_jwks : ℕ → Dict Json → Call (Dict Json)
  keep_jwks now jwks client = (record client { jwks = some jwks; jwks_loaded_at = now }, ok jwks)

  unfoldable pub load_jwks : ℕ → Call (Dict Json)
  unfolding get_endpoints request keep_jwks
  load_jwks now = do
    endpoints ← get_endpoints
    jwks ← request (get endpoints.jwks)
    keep_jwks now jwks

  abbrev pub jwks_or_load : (stale : Bool) → ℕ → Option (Dict Json) → Call (Dict Json)
  jwks_or_load stale now none = load_jwks now
  jwks_or_load true now (some jwks) = load_jwks now
  jwks_or_load false now (some jwks) = return jwks

  -- `OidcClient._get_jwks`
  unfoldable pub get_jwks : (force : Bool) → Call (Dict Json)
  unfolding load_jwks
  get_jwks force client =
      let now = network.clock force client.sent in
      jwks_or_load (force || leb (client.jwks_loaded_at + settings.oidc_jwks_cache_seconds) now) now
        client.jwks client

  -- A key that is missing is looked for once more, in a key set that is loaded anew.
  abbrev pub found_or_reloaded : String → Option (Dict Json) → Call (Dict Json)
  found_or_reloaded kid (some key) = return key
  found_or_reloaded kid none = do
    jwks ← get_jwks true
    given (or_raise unknown_key (find_key jwks kid))

  module _ {Key : Type 0} (jwt : Jwt Key) where
    -- `OidcClient._key`
    unfoldable pub key_of : String → Call Key
    unfolding get_jwks find_key
    key_of kid = do
      jwks ← get_jwks false
      key ← found_or_reloaded kid (find_key jwks kid)
      given (or_raise invalid_key (jwt.from_dict key "RS256"))

    -- `OidcClient._verify`
    unfoldable pub verify : (token audience : String) → Call (Dict Json)
    unfolding key_of issuer kid_of
    verify token audience = do
      header ← given (or_raise invalid_token (jwt.get_unverified_header token))
      kid ← given (kid_of header)
      key ← key_of kid
      name ← given (issuer settings)
      given (
          or_raise invalid_token (
            jwt.decode token key ("RS256" ∷ []) audience name settings.oidc_clock_skew_seconds
              required_claims))

    -- `OidcClient.verify_id_token`
    unfoldable pub verify_id_token : (token nonce : String) → Call (Dict Json)
    unfolding verify client_id lookup
    verify_id_token token nonce = do
      audience ← given (client_id settings)
      claims ← verify token audience
      checked ← given (or_fail invalid_nonce (is_text (lookup "nonce" claims) nonce))
      return claims

    -- `OidcClient.verify_access_token`
    unfoldable pub verify_access_token : String → Call (Dict Json)
    unfolding verify
    verify_access_token token = do
      audience ← given (or_raise not_validated settings.oidc_audience)
      verify token audience

  -- `OidcClient.exchange_code`
  unfoldable pub exchange_code : (code verifier : String) → Call (Dict Json)
  unfolding get_endpoints request client_id redirect_uri lookup
  exchange_code code verifier = do
    endpoints ← get_endpoints
    secret ← given (or_raise not_validated settings.oidc_client_secret)
    redirect ← given (redirect_uri settings)
    id ← given (client_id settings)
    response ← request (
        post endpoints.token (
          ("grant_type", "authorization_code")
          ∷ ("code", code)
          ∷ ("redirect_uri", redirect)
          ∷ ("client_id", id)
          ∷ ("client_secret", secret)
          ∷ ("code_verifier", verifier)
          ∷ []))
    checked ← given (id_token_in (lookup "id_token" response))
    return response

  module _ (urlencode : Dict String → String) where
    -- `OidcClient.authorization_url`
    unfoldable pub authorization_url : (state nonce challenge : String) → Call String
    unfolding get_endpoints client_id redirect_uri concat
    authorization_url state nonce challenge = do
      endpoints ← get_endpoints
      id ← given (client_id settings)
      redirect ← given (redirect_uri settings)
      return (
          concat (
            endpoints.authorization
            ∷ "?"
            ∷ urlencode (
                ("client_id", id)
                ∷ ("redirect_uri", redirect)
                ∷ ("response_type", "code")
                ∷ ("scope", "openid profile")
                ∷ ("state", state)
                ∷ ("nonce", nonce)
                ∷ ("code_challenge", challenge)
                ∷ ("code_challenge_method", "S256")
                ∷ [])
            ∷ []))

    abbrev pub logout_at : String → Option String → Call String
    logout_at redirect none = return redirect
    logout_at redirect (some endpoint) = do
      id ← given (client_id settings)
      return (
          concat (
            endpoint
            ∷ "?"
            ∷ urlencode (("client_id", id) ∷ ("post_logout_redirect_uri", redirect) ∷ [])
            ∷ []))

    -- `OidcClient.logout_url`
    unfoldable pub logout_url : String → Call String
    unfolding get_endpoints client_id concat
    logout_url redirect = do endpoints ← get_endpoints; logout_at redirect endpoints.end_session
