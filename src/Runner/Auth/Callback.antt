-- ===== src/Runner/Auth/Callback.antt =====
-- Who is signed in by the route to which the identity provider sends a browser back.
use pytest_hardware_template.Prelude.{
  ℕ, String, Bool, true, false, Option, none, some, [], ◌∷◌, ◌≡◌, refl, sym, ap, ◌∙◌, lookup, Dict,
  Result, ok, err, ok-injective, arith,
}
use pytest_hardware_template.Agent.Protocol.{Json, str}
use pytest_hardware_template.Runner.Settings.{Settings}
use pytest_hardware_template.Runner.Oidc.Calls.{OidcError, OidcClient}
use pytest_hardware_template.Runner.Oidc.{Network, Jwt, exchange_code, verify_id_token}
use pytest_hardware_template.Runner.Oidc.Trusted.{IsVerified, verify_id_token-IsVerified}
use pytest_hardware_template.Runner.Auth.Signed.{
  Failure, type_error, not_validated, key_error, value_error, Library, compare_digest,
  decode_signed,
}
use pytest_hardware_template.Runner.Auth.Sessions.{compare_digest-true}
use pytest_hardware_template.Runner.Auth.{Principal, has_role, principal_from_claims}
use pytest_hardware_template.Runner.Auth.Routes.{
  SetCookie, delete, Response, Uncaught, answer, redirect, transaction_cookie_name,
  session_cookie_for, with_session, permitted, with_principal, with_claims, with_id_token,
  with_tokens, with_verifier, state_text, with_state, with_transaction, callback_by, callback,
}

-- What another status shows: the route did not redirect.
not_redirected :
    (client last : OidcClient) (n : ℕ) (detail : String) (r : Response)
    → ◌≡◌ {A = OidcClient × Result Uncaught Response} (client, ok (answer n detail)) (last, ok r)
    → r.status ≡ 303
    → n ≡ 303
not_redirected client last n detail r h s = ap (λ z. z.status) (ok-injective (ap (λ p. p.1) h)) ∙ s

answer_status :
    (n : ℕ) (detail : String) (r : Response)
    → ◌≡◌ {A = Result Uncaught Response} (ok (answer n detail)) (ok r)
    → r.status ≡ 303
    → n ≡ 303
answer_status n detail r h s = ap (λ z. z.status) (ok-injective h) ∙ s

module _ (library : Library) (settings : Settings) (now : ℕ) where
  -- The principal has the role of a viewer, and the response sets a cookie with its session.
  pub record HasSession (principal : Principal) (r : Response) : Type 0 where
    pub cookie : SetCookie
    pub role : has_role principal "viewer" settings ≡ true
    pub cookie_eq : session_cookie_for library settings now principal ≡ ok cookie
    pub response_eq : r ≡ redirect "/" (delete transaction_cookie_name ∷ cookie ∷ [])

  module _ (network : Network) {Key : Type 0} (jwt : Jwt Key) where
    -- How a browser is signed in: by a transaction that this service signed and by the state of the
    -- request, with the claims of an ID token that was verified for the transaction's nonce.
    pub record IsSignedIn (state : String) (cookie : Option String) (last : OidcClient)
        (r : Response) : Type 0 where
      pub transaction : Dict Json
      pub nonce : Json
      pub token : Json
      pub claims : Dict Json
      pub audience : String
      pub principal : Principal
      pub transaction_eq : decode_signed library settings now cookie 600 ≡ ok (some transaction)
      pub state_eq : state_text library.to_text (lookup "state" transaction) ≡ state
      pub nonce_eq : lookup "nonce" transaction ≡ some nonce
      pub claims_nonce : lookup "nonce" claims ≡ some (str (library.to_text nonce))
      pub audience_eq : settings.oidc_client_id ≡ some audience
      pub claims_verified : IsVerified settings jwt (library.to_text token) audience last claims
      pub principal_eq : principal_from_claims library settings claims "oidc_session" ≡ ok principal
      pub session : HasSession principal r

    with_session-HasSession :
        (principal : Principal) (cookie : Result Failure SetCookie) (r : Response)
        → session_cookie_for library settings now principal ≡ cookie
        → has_role principal "viewer" settings ≡ true
        → with_session library settings now network jwt cookie ≡ ok r
        → HasSession principal r
    with_session-HasSession principal (err e) r c t h = cc
    with_session-HasSession principal (ok cookie) r c t h = record {
      cookie = cookie;
      role = t;
      cookie_eq = c;
      response_eq = sym (ok-injective h);
    }

    permitted-HasSession :
        (principal : Principal) (b : Bool) (r : Response)
        → has_role principal "viewer" settings ≡ b
        → permitted library settings now network jwt principal b ≡ ok r
        → r.status ≡ 303
        → HasSession principal r
    permitted-HasSession principal true r t h s = with_session-HasSession principal _ r refl t h
    permitted-HasSession principal false r t h s = absurd (omega (arith, answer_status 403 _ r h s))

    with_principal-HasSession :
        (p : Result Failure Principal) (r : Response)
        → with_principal library settings now network jwt p ≡ ok r
        → r.status ≡ 303
        → (principal : Principal) × (p ≡ ok principal) × HasSession principal r
    with_principal-HasSession (err key_error) r h s =
        absurd (omega (arith, answer_status 401 _ r h s))
    with_principal-HasSession (err type_error) r h s = cc
    with_principal-HasSession (err not_validated) r h s = cc
    with_principal-HasSession (err value_error) r h s = cc
    with_principal-HasSession (ok principal) r h s =
        (principal, refl, permitted-HasSession principal _ r refl h s)

    module _ (code state : String) (cookie : Option String) (transaction : Dict Json)
        (transaction_eq : decode_signed library settings now cookie 600 ≡ ok (some transaction))
        (state_eq : state_text library.to_text (lookup "state" transaction) ≡ state) where
      with_claims-IsSignedIn :
          (token nonce : Json) (between last : OidcClient)
          (v : OidcClient × Result OidcError (Dict Json)) (r : Response)
          → lookup "nonce" transaction ≡ some nonce
          → verify_id_token network settings jwt
              (library.to_text token)
              (library.to_text nonce)
              between
            ≡ v
          → with_claims library settings now network jwt v ≡ (last, ok r)
          → r.status ≡ 303
          → IsSignedIn state cookie last r
      with_claims-IsSignedIn token nonce between last (c, err e) r n v h s =
          absurd (omega (arith, not_redirected c last 401 _ r h s))
      with_claims-IsSignedIn token nonce between last (c, ok claims) r n v h s =
          let (principal, p, session) = with_principal-HasSession _ r (ap (λ z. z.1) h) s in
          let left : c ≡ last = ap (λ z. z.0) h in
          let (audience, a, m, verified) =
            verify_id_token-IsVerified network settings jwt _ _ between last claims
              (v ∙ ap (λ z. (z, ok claims)) left) in
          record {
            transaction = transaction;
            nonce = nonce;
            token = token;
            claims = claims;
            audience = audience;
            principal = principal;
            transaction_eq = transaction_eq;
            state_eq = state_eq;
            nonce_eq = n;
            claims_nonce = m;
            audience_eq = a;
            claims_verified = verified;
            principal_eq = p;
            session = session;
          }

      with_id_token-IsSignedIn :
          (token nonce : Option Json) (client last : OidcClient) (r : Response)
          → lookup "nonce" transaction ≡ nonce
          → with_id_token library settings now network jwt token nonce client ≡ (last, ok r)
          → r.status ≡ 303
          → IsSignedIn state cookie last r
      with_id_token-IsSignedIn (some token) (some nonce) client last r n h s =
          with_claims-IsSignedIn token nonce client last _ r n refl h s
      with_id_token-IsSignedIn (some token) none client last r n h s =
          absurd (omega (arith, not_redirected client last 401 _ r h s))
      with_id_token-IsSignedIn none other client last r n h s =
          absurd (omega (arith, not_redirected client last 401 _ r h s))

      with_tokens-IsSignedIn :
          (v : OidcClient × Result OidcError (Dict Json)) (last : OidcClient) (r : Response)
          → with_tokens library settings now network jwt transaction v ≡ (last, ok r)
          → r.status ≡ 303
          → IsSignedIn state cookie last r
      with_tokens-IsSignedIn (c, err e) last r h s =
          absurd (omega (arith, not_redirected c last 401 _ r h s))
      with_tokens-IsSignedIn (c, ok tokens) last r h s =
          with_id_token-IsSignedIn _ _ c last r refl h s

      with_verifier-IsSignedIn :
          (v : Option Json) (client last : OidcClient) (r : Response)
          → with_verifier library settings now network jwt code transaction v client ≡ (last, ok r)
          → r.status ≡ 303
          → IsSignedIn state cookie last r
      with_verifier-IsSignedIn none client last r h s =
          absurd (omega (arith, not_redirected client last 401 _ r h s))
      with_verifier-IsSignedIn (some verifier) client last r h s =
          with_tokens-IsSignedIn
            (exchange_code network settings code (library.to_text verifier) client) last r h s

    with_state-IsSignedIn :
        (code state : String) (cookie : Option String) (transaction : Dict Json)
        (same : Result Failure Bool) (client last : OidcClient) (r : Response)
        → decode_signed library settings now cookie 600 ≡ ok (some transaction)
        → compare_digest (state_text library.to_text (lookup "state" transaction)) state ≡ same
        → with_state library settings now network jwt code transaction same client ≡ (last, ok r)
        → r.status ≡ 303
        → IsSignedIn state cookie last r
    with_state-IsSignedIn code state cookie transaction (err e) client last r d c h s =
        absurd (ground arith)
    with_state-IsSignedIn code state cookie transaction (ok false) client last r d c h s =
        absurd (omega (arith, not_redirected client last 401 _ r h s))
    with_state-IsSignedIn code state cookie transaction (ok true) client last r d c h s =
        with_verifier-IsSignedIn code state cookie transaction d (compare_digest-true _ state c) _
          client last r h s

    with_transaction-IsSignedIn :
        (code state : String) (cookie : Option String) (d : Result Failure (Option (Dict Json)))
        (client last : OidcClient) (r : Response)
        → decode_signed library settings now cookie 600 ≡ d
        → with_transaction library settings now network jwt code state d client ≡ (last, ok r)
        → r.status ≡ 303
        → IsSignedIn state cookie last r
    with_transaction-IsSignedIn code state cookie (err e) client last r d h s =
        absurd (ground arith)
    with_transaction-IsSignedIn code state cookie (ok none) client last r d h s =
        absurd (omega (arith, not_redirected client last 401 _ r h s))
    with_transaction-IsSignedIn code state cookie (ok (some transaction)) client last r d h s =
        with_state-IsSignedIn code state cookie transaction _ client last r d refl h s

    callback_by-IsSignedIn :
        (b : Bool) (code state : String) (cookie : Option String) (client last : OidcClient)
        (r : Response)
        → callback_by library settings now network jwt b code state cookie client ≡ (last, ok r)
        → r.status ≡ 303
        → IsSignedIn state cookie last r
    callback_by-IsSignedIn false code state cookie client last r h s =
        absurd (omega (arith, not_redirected client last 404 _ r h s))
    callback_by-IsSignedIn true code state cookie client last r h s =
        with_transaction-IsSignedIn code state cookie _ client last r refl h s

    -- The callback redirects a browser into the service only where: the transaction cookie was signed
    -- by this service at most 600 seconds ago, its state is that of the request, and an ID token was
    -- verified, with the nonce of the transaction and for the configured client, whose claims name a
    -- principal with the role of a viewer. The cookie that is set holds this principal's session.
    pub callback-IsSignedIn :
        (code state : String) (cookie : Option String) (client last : OidcClient) (r : Response)
        → callback library settings now network jwt code state cookie client ≡ (last, ok r)
        → r.status ≡ 303
        → IsSignedIn state cookie last r
    unfolding callback
    callback-IsSignedIn code state cookie client last r h s =
        callback_by-IsSignedIn _ code state cookie client last r h s
