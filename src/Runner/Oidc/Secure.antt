-- ===== src/Runner/Oidc/Secure.antt =====
-- What the client of the identity provider keeps, and to whom it sends requests: the invariant, and
-- the calls that fetch the endpoints and the keys.
use pytest_hardware_template.Prelude.{
  ℕ, String, Bool, true, false, Option, none, some, [], ◌∷◌, ◌≡◌, ◌⊎◌, inl, inr, refl, concat,
  has_prefix, lookup, Dict, Result, ok, err, All, if◌then◌else◌, ap, ◌∙◌,
}
use pytest_hardware_template.Agent.Protocol.{Json, str, arr, obj, null, bool, int, float}
use pytest_hardware_template.Runner.Settings.{Settings, HttpUrl}
use pytest_hardware_template.Runner.Portal.{origin}
use pytest_hardware_template.Runner.Oidc.Calls.{
  OidcError, invalid_url, OidcEndpoints, Request, get, post, OidcClient, Call, return, given, ◌>>=◌,
  Returned, Keeps, chain-Keeps, given-Keeps,
}
use pytest_hardware_template.Runner.Oidc.{
  Network, optional_url_in, optional_url, required_in, required_url, issuer_of, issuer, object_of,
  request, keep_endpoints, discover, endpoints_or_discover, get_endpoints, keep_jwks, load_jwks,
  jwks_or_load, get_jwks,
}

abbrev pub IsHttps : String → Type 0
IsHttps url = has_prefix url "https://" ≡ true

-- The document of the configured issuer, or a request over HTTPS
abbrev pub IsSafe : Settings → Request → Type 0
IsSafe settings (get url) =
    IsHttps url
    ⊎ ((u : HttpUrl) × (settings.oidc_issuer ≡ some u)
        × (url ≡ concat (origin u ∷ "/.well-known/openid-configuration" ∷ [])))
IsSafe settings (post url form) = IsHttps url

-- No endpoint, or one over HTTPS
abbrev pub IsOptionalHttps : Option String → Type 0
IsOptionalHttps o = (o ≡ none) ⊎ ((url : String) × (o ≡ some url) × IsHttps url)

abbrev pub IsSecureEndpoints : OidcEndpoints → Type 0
IsSecureEndpoints e =
    IsHttps e.authorization × IsHttps e.token × IsHttps e.jwks × IsOptionalHttps e.end_session

abbrev pub WhereSome : {A : Type 0} → (A → Type 0) → Option A → Type 0
WhereSome P none = Unit
WhereSome P (some a) = P a

abbrev pub IsSecure : Settings → OidcClient → Type 0
IsSecure settings client =
    WhereSome IsSecureEndpoints client.endpoints × All (IsSafe settings) client.sent

checked_url :
    (s name : String) (b : Bool)
    → has_prefix s "https://" ≡ b
    → Returned IsOptionalHttps (if b then ok (some s) else err (invalid_url name))
checked_url s name true h = inr (s, refl, h)
checked_url s name false h = tt

optional_url_in-IsHttps :
    (name : String) (o : Option Json) → Returned IsOptionalHttps (optional_url_in name o)
optional_url_in-IsHttps name none = inl refl
optional_url_in-IsHttps name (some null) = inl refl
optional_url_in-IsHttps name (some (str s)) = checked_url s name (has_prefix s "https://") refl
optional_url_in-IsHttps name (some (bool b)) = tt
optional_url_in-IsHttps name (some (int n)) = tt
optional_url_in-IsHttps name (some (float f)) = tt
optional_url_in-IsHttps name (some (arr a)) = tt
optional_url_in-IsHttps name (some (obj f)) = tt

optional_url-IsHttps :
    (document : Dict Json) (name : String) → Returned IsOptionalHttps (optional_url document name)
unfolding optional_url
optional_url-IsHttps document name = optional_url_in-IsHttps name (lookup name document)

required_in-IsHttps :
    (name : String) (r : Result OidcError (Option String))
    → Returned IsOptionalHttps r
    → Returned IsHttps (required_in name r)
required_in-IsHttps name (err e) h = tt
required_in-IsHttps name (ok none) h = tt
required_in-IsHttps name (ok (some url)) (inl e) = cc
required_in-IsHttps name (ok (some url)) (inr (other, e, h)) =
    let same : url ≡ other = cc in ap (λ s. has_prefix s "https://") same ∙ h

required_url-IsHttps :
    (document : Dict Json) (name : String) → Returned IsHttps (required_url document name)
unfolding required_url
required_url-IsHttps document name =
    required_in-IsHttps name (optional_url document name) (optional_url-IsHttps document name)

-- Nothing is said of a value.
abbrev pub Any : {A : Type 0} → A → Type 0
Any a = Unit

module _ (network : Network) (settings : Settings) where
  -- A call that keeps the client secure, with what it says of the value
  abbrev pub Secures : {A : Type 0} → (A → Type 0) → Call A → Type 0
  Secures = Keeps (IsSecure settings)

  nothing_said : {A : Type 0} (r : Result OidcError A) → Returned Any r
  nothing_said (ok a) = tt
  nothing_said (err e) = tt

  pub given-Secures : {A : Type 0} (r : Result OidcError A) → Secures Any (given r)
  given-Secures r client h = (h, nothing_said r)

  pub request-Secures : (r : Request) → IsSafe settings r → Secures Any (request network settings r)
  unfolding request
  request-Secures r safe client (e, s) =
      ((e, (safe, s)), nothing_said (object_of (network.answer client.sent r)))

  keep_endpoints-Secures :
      (e : OidcEndpoints)
      → IsSecureEndpoints e
      → Secures IsSecureEndpoints (keep_endpoints network settings e)
  unfolding keep_endpoints
  keep_endpoints-Secures e secure client (_, s) = ((secure, s), secure)

  issuer_of-IsSafe :
      (o : Option HttpUrl)
      → settings.oidc_issuer ≡ o
      → Returned
          (λ name. IsSafe settings (get (concat (name ∷ "/.well-known/openid-configuration" ∷ []))))
          (issuer_of o)
  unfolding issuer_of
  issuer_of-IsSafe none h = tt
  issuer_of-IsSafe (some u) h = inr (u, h, refl)

  -- The document is asked of the configured issuer.
  issuer-IsSafe :
      Returned
        (λ name. IsSafe settings (get (concat (name ∷ "/.well-known/openid-configuration" ∷ []))))
        (issuer settings)
  unfolding issuer
  issuer-IsSafe = issuer_of-IsSafe settings.oidc_issuer refl

  pub chain-Secures :
      {A B : Type 0} (R : A → Type 0) (S : B → Type 0) (first : Call A) (next : A → Call B)
      → Secures R first
      → ((a : A) → R a → Secures S (next a))
      → Secures S (first >>= next)
  chain-Secures = chain-Keeps (IsSecure settings)

  -- An URL of the document
  url-Secures :
      (document : Dict Json) (name : String) → Secures IsHttps (given (required_url document name))
  url-Secures document name =
      given-Keeps (IsSecure settings) IsHttps _ (required_url-IsHttps document name)

  discover-Secures : Secures IsSecureEndpoints (discover network settings)
  unfolding discover
  discover-Secures =
      chain-Secures _ _ _ _ (given-Keeps (IsSecure settings) _ (issuer settings) issuer-IsSafe)
        (λ name safe. chain-Secures _ _ _ _ (request-Secures _ safe) (λ document _.
          chain-Secures _ _ _ _ (given-Secures _) (λ _ _.
            chain-Secures _ _ _ _ (url-Secures document "authorization_endpoint") (λ a p.
              chain-Secures _ _ _ _ (url-Secures document "token_endpoint") (λ t q.
                chain-Secures _ _ _ _ (url-Secures document "jwks_uri") (λ j r.
                  chain-Secures _ _ _ _
                    (given-Keeps (IsSecure settings) IsOptionalHttps _
                      (optional_url-IsHttps document "end_session_endpoint"))
                    (λ e o.
                      keep_endpoints-Secures
                        (record { authorization = a; token = t; jwks = j; end_session = e })
                        (p, q, r, o))))))))

  pub return-Secures : {A : Type 0} (R : A → Type 0) (a : A) → R a → Secures R (return a)
  return-Secures R a r client h = (h, r)

  endpoints-Secures :
      (o : Option OidcEndpoints)
      → WhereSome IsSecureEndpoints o
      → Secures IsSecureEndpoints (endpoints_or_discover network settings o)
  endpoints-Secures none h = discover-Secures
  endpoints-Secures (some e) h = return-Secures IsSecureEndpoints e h

  pub get_endpoints-Secures : Secures IsSecureEndpoints (get_endpoints network settings)
  unfolding get_endpoints
  get_endpoints-Secures client h = endpoints-Secures client.endpoints h.0 client h

  keep_jwks-Secures :
      (now : ℕ) (jwks : Dict Json) → Secures Any (keep_jwks network settings now jwks)
  unfolding keep_jwks
  keep_jwks-Secures now jwks client h = (h, tt)

  load_jwks-Secures : (now : ℕ) → Secures Any (load_jwks network settings now)
  unfolding load_jwks
  load_jwks-Secures now = chain-Secures _ _ _ _ get_endpoints-Secures (λ e (a, t, j, r).
      chain-Secures _ _ _ _ (request-Secures (get e.jwks) (inl j))
        (λ jwks _. keep_jwks-Secures now jwks))

  jwks-Secures :
      (stale : Bool) (now : ℕ) (o : Option (Dict Json))
      → Secures Any (jwks_or_load network settings stale now o)
  jwks-Secures stale now none = load_jwks-Secures now
  jwks-Secures true now (some jwks) = load_jwks-Secures now
  jwks-Secures false now (some jwks) = return-Secures Any jwks tt

  pub get_jwks-Secures : (force : Bool) → Secures Any (get_jwks network settings force)
  unfolding get_jwks
  get_jwks-Secures force client h =
      jwks-Secures _ (network.clock force client.sent) client.jwks client h
