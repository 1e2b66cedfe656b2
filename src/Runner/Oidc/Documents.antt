-- ===== src/Runner/Oidc/Documents.antt =====
-- helpers/test-runner-service/src/test_runner_service/oidc.py: what the client reads in the documents of
-- the provider, in headers and in the settings.
use pytest_hardware_template.Prelude.{
  String, Bool, true, false, Option, none, some, List, [], ◌∷◌, ◌==◌, if◌then◌else◌, concat,
  has_prefix, lookup, Dict, Result, ok, err,
}
use pytest_hardware_template.Agent.Protocol.{Json, str, arr, obj, null, Items, nil, cons, to_dict}
use pytest_hardware_template.Runner.Settings.{Settings, HttpUrl}
use pytest_hardware_template.Runner.Portal.{origin}
use pytest_hardware_template.Runner.Oidc.Calls.{
  OidcError, unavailable, invalid_response, not_validated, missing_url, invalid_url, no_id_token,
  invalid_header,
}

abbrev pub required_claims : List String
required_claims = "exp" ∷ "iat" ∷ "iss" ∷ "aud" ∷ "sub" ∷ []

-- `if value is None: raise error`
abbrev pub or_raise : {A : Type 0} → OidcError → Option A → Result OidcError A
or_raise error none = err error
or_raise error (some a) = ok a

-- `value.get(name) == text`, for a text
abbrev pub is_text : Option Json → String → Bool
is_text (some (str s)) t = s == t
is_text _ t = false

abbrev pub optional_url_in : String → Option Json → Result OidcError (Option String)
optional_url_in name none = ok none
optional_url_in name (some null) = ok none
optional_url_in name (some (str s)) =
    if has_prefix s "https://" then ok (some s) else err (invalid_url name)
optional_url_in name (some _) = err (invalid_url name)

-- `_optional_url`
unfoldable pub optional_url : Dict Json → String → Result OidcError (Option String)
unfolding lookup has_prefix
optional_url document name = optional_url_in name (lookup name document)

abbrev pub required_in : String → Result OidcError (Option String) → Result OidcError String
required_in name (err e) = err e
required_in name (ok none) = err (missing_url name)
required_in name (ok (some url)) = ok url

-- `_required_url`
unfoldable pub required_url : Dict Json → String → Result OidcError String
unfolding optional_url
required_url document name = required_in name (optional_url document name)

abbrev pub key_if : String → Json → Option (Dict Json)
key_if kid (obj fields) =
    if is_text (lookup "kid" (to_dict fields)) kid then some (to_dict fields) else none
key_if kid _ = none

unfoldable pub first_key : String → Items → Option (Dict Json)
unfolding lookup to_dict
first_key kid nil = none
first_key kid (cons item items) =
    let rest = first_key kid items in elim (key_if kid item) [ none ↦ rest | some key ↦ some key ]

abbrev pub keys_in : String → Option Json → Option (Dict Json)
keys_in kid (some (arr items)) = first_key kid items
keys_in kid _ = none

-- `_find_key`
unfoldable pub find_key : Dict Json → String → Option (Dict Json)
unfolding first_key lookup
find_key jwks kid = keys_in kid (lookup "keys" jwks)

unfoldable pub issuer_of : Option HttpUrl → Result OidcError String
unfolding origin
issuer_of none = err not_validated
issuer_of (some url) = ok (origin url)

module _ (settings : Settings) where
  -- `OidcClient._issuer`
  unfoldable pub issuer : Result OidcError String
  unfolding issuer_of
  issuer = issuer_of settings.oidc_issuer

  -- `OidcClient._client_id`
  unfoldable pub client_id : Result OidcError String
  client_id = or_raise not_validated settings.oidc_client_id

  -- `OidcClient._redirect_uri`
  unfoldable pub redirect_uri : Result OidcError String
  unfolding origin concat
  redirect_uri = elim settings.public_url [
    | none ↦ err not_validated
    | some url ↦ ok (concat (origin url ∷ "/auth/callback" ∷ []))
  ]

-- `if not test: raise error`
abbrev pub or_fail : OidcError → Bool → Result OidcError Unit
or_fail error true = ok tt
or_fail error false = err error

-- The `kid` of a header with the right algorithm
abbrev pub kid_in : Bool → Option Json → Result OidcError String
kid_in true (some (str kid)) = ok kid
kid_in _ _ = err invalid_header

unfoldable pub kid_of : Dict Json → Result OidcError String
unfolding lookup
kid_of header = kid_in (is_text (lookup "alg" header) "RS256") (lookup "kid" header)

abbrev pub id_token_in : Option Json → Result OidcError Unit
id_token_in (some (str token)) = ok tt
id_token_in _ = err no_id_token

abbrev pub object_of : Option Json → Result OidcError (Dict Json)
object_of none = err unavailable
object_of (some (obj fields)) = ok (to_dict fields)
object_of (some _) = err invalid_response
