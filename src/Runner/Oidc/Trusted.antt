-- ===== src/Runner/Oidc/Trusted.antt =====
-- Which tokens the client of the identity provider accepts.
use pytest_hardware_template.Prelude.{
  ℕ, String, Bool, true, false, Option, none, some, [], ◌∷◌, ◌≡◌, refl, sym, ap, ◌∙◌, ok-injective,
  Dict, lookup, arith, ok, Result, eq_iff,
}
use mathlib.Core.Path.{subst}
use pytest_hardware_template.Agent.Protocol.{Json, str, obj, arr, null, bool, int, float}
use pytest_hardware_template.Runner.Settings.{Settings}
use pytest_hardware_template.Runner.Oidc.Calls.{
  OidcError, not_validated, invalid_nonce, unknown_key, invalid_key, invalid_token, OidcClient,
  given, chain-returned,
}
use pytest_hardware_template.Runner.Oidc.{
  Network, Jwt, or_raise, or_fail, is_text, kid_in, kid_of, load_jwks, jwks_or_load, get_jwks,
  keep_jwks, find_key, found_or_reloaded, key_of, verify, issuer, verify_id_token, client_id,
  required_claims,
}

-- What a call of `given` returns is the result that was given, and the client is left as it is.
given-returned :
    {A : Type 0} (r : Result OidcError A) (client last : OidcClient) (a : A)
    → given r client ≡ (last, ok a)
    → (r ≡ ok a) × (last ≡ client)
given-returned r client last a h = (ap (λ p. p.1) h, sym (ap (λ p. p.0) h))

or_raise-some :
    {A : Type 0} (error : OidcError) (o : Option A) (a : A) → or_raise error o ≡ ok a → o ≡ some a
or_raise-some error none a h = cc
or_raise-some error (some b) a h = ap some (ok-injective h)

or_fail-true : (error : OidcError) (b : Bool) (u : Unit) → or_fail error b ≡ ok u → b ≡ true
or_fail-true error true u h = refl
or_fail-true error false u h = cc

is_text-true : (o : Option Json) (t : String) → is_text o t ≡ true → o ≡ some (str t)
is_text-true none t h = cc
is_text-true (some (str s)) t h = ground (arith, eq_iff s t)
is_text-true (some null) t h = cc
is_text-true (some (bool b)) t h = cc
is_text-true (some (int n)) t h = cc
is_text-true (some (float f)) t h = cc
is_text-true (some (arr a)) t h = cc
is_text-true (some (obj f)) t h = cc

kid_in-ok :
    (b : Bool) (o : Option Json) (kid : String)
    → kid_in b o ≡ ok kid
    → (b ≡ true) × (o ≡ some (str kid))
kid_in-ok false o kid h = cc
kid_in-ok true none kid h = cc
kid_in-ok true (some (str s)) kid h = (refl, ap (λ z. some (str z)) (ok-injective h))
kid_in-ok true (some null) kid h = cc
kid_in-ok true (some (bool b)) kid h = cc
kid_in-ok true (some (int n)) kid h = cc
kid_in-ok true (some (float f)) kid h = cc
kid_in-ok true (some (arr a)) kid h = cc
kid_in-ok true (some (obj f)) kid h = cc

-- What an accepted token has shown: a header with the algorithm RS256 and the name of a key in the key set
-- that the client holds; with that key, PyJWT decoded the token for the audience, as one of the
-- configured issuer.
abbrev pub IsVerified :
    {Key : Type 0}
    → Settings
    → Jwt Key
    → (token audience : String) → OidcClient
    → Dict Json
    → Type 0
IsVerified {Key} settings jwt token audience client claims =
    (header : Dict Json) × (kid : String) × (jwks : Dict Json) × (key : Dict Json) × (k : Key)
    × (name : String) × (jwt.get_unverified_header token ≡ some header)
    × (lookup "alg" header ≡ some (str "RS256"))
    × (lookup "kid" header ≡ some (str kid))
    × (client.jwks ≡ some jwks)
    × (find_key jwks kid ≡ some key)
    × (jwt.from_dict key "RS256" ≡ some k)
    × (issuer settings ≡ ok name)
    × (jwt.decode token k ("RS256" ∷ []) audience name settings.oidc_clock_skew_seconds
          required_claims
        ≡ some claims)

module _ (network : Network) (settings : Settings) where
  keep_jwks-Holds :
      (now : ℕ) (given_set : Dict Json) (client last : OidcClient) (jwks : Dict Json)
      → keep_jwks network settings now given_set client ≡ (last, ok jwks)
      → last.jwks ≡ some jwks
  unfolding keep_jwks
  keep_jwks-Holds now given_set client last jwks h =
      sym (ap (λ p. p.0.jwks) h) ∙ ap some (ok-injective (ap (λ p. p.1) h))

  load_jwks-Holds :
      (now : ℕ) (client last : OidcClient) (jwks : Dict Json)
      → load_jwks network settings now client ≡ (last, ok jwks)
      → last.jwks ≡ some jwks
  unfolding load_jwks
  load_jwks-Holds now client last jwks h =
      let (c, e, _, h') = chain-returned _ _ client h in
      let (c', set, _, h'') = chain-returned _ _ c h' in keep_jwks-Holds now set c' last jwks h''

  jwks_or_load-Holds :
      (stale : Bool) (now : ℕ) (o : Option (Dict Json)) (client last : OidcClient)
      (jwks : Dict Json)
      → client.jwks ≡ o
      → jwks_or_load network settings stale now o client ≡ (last, ok jwks)
      → last.jwks ≡ some jwks
  jwks_or_load-Holds stale now none client last jwks e h = load_jwks-Holds now client last jwks h
  jwks_or_load-Holds true now (some set) client last jwks e h =
      load_jwks-Holds now client last jwks h
  jwks_or_load-Holds false now (some set) client last jwks e h =
      sym (ap (λ p. p.0.jwks) h) ∙ e ∙ ap some (ok-injective (ap (λ p. p.1) h))

  get_jwks-Holds :
      (force : Bool) (client last : OidcClient) (jwks : Dict Json)
      → get_jwks network settings force client ≡ (last, ok jwks)
      → last.jwks ≡ some jwks
  unfolding get_jwks
  get_jwks-Holds force client last jwks h =
      jwks_or_load-Holds _ _ client.jwks client last jwks refl h

  found-Holds :
      (kid : String) (jwks : Dict Json) (o : Option (Dict Json)) (client last : OidcClient)
      (key : Dict Json)
      → client.jwks ≡ some jwks
      → find_key jwks kid ≡ o
      → found_or_reloaded network settings kid o client ≡ (last, ok key)
      → (held : Dict Json) × (last.jwks ≡ some held) × (find_key held kid ≡ some key)
  found-Holds kid jwks (some found) client last key e f h =
      (jwks, sym (ap (λ p. p.0.jwks) h) ∙ e, f ∙ ap some (ok-injective (ap (λ p. p.1) h)))
  found-Holds kid jwks none client last key e f h =
      let (c, held, g, k) = chain-returned _ _ client h in
      let (r, l) = given-returned _ c last key k in
      (
        held,
        ap (λ z. z.jwks) l ∙ get_jwks-Holds true client c held g,
        or_raise-some unknown_key _ key r,
      )

  module _ {Key : Type 0} (jwt : Jwt Key) where
    key_of-Holds :
        (kid : String) (client last : OidcClient) (k : Key)
        → key_of network settings jwt kid client ≡ (last, ok k)
        → (jwks : Dict Json) × (key : Dict Json) × (last.jwks ≡ some jwks)
          × (find_key jwks kid ≡ some key)
          × (jwt.from_dict key "RS256" ≡ some k)
    unfolding key_of
    key_of-Holds kid client last k h =
        let (c, jwks, g, h') = chain-returned _ _ client h in
        let (c', key, f, h'') = chain-returned _ _ c h' in
        let (r, l) = given-returned _ c' last k h'' in
        let (held, e, found) =
          found-Holds kid jwks (find_key jwks kid) c c' key (get_jwks-Holds false client c jwks g)
            refl f in
        (held, key, ap (λ z. z.jwks) l ∙ e, found, or_raise-some invalid_key _ k r)

    -- A token is accepted only as one that was verified.
    verify-IsVerified :
        (token audience : String) (client last : OidcClient) (claims : Dict Json)
        → verify network settings jwt token audience client ≡ (last, ok claims)
        → IsVerified settings jwt token audience last claims
    unfolding verify kid_of
    verify-IsVerified token audience client last claims h =
        let (c, header, g, h') = chain-returned _ _ client h in
        let (c1, kid, i, h1) = chain-returned _ _ c h' in
        let (c2, k, j, h2) = chain-returned _ _ c1 h1 in
        let (c3, name, n, h3) = chain-returned _ _ c2 h2 in
        let (rh, _) = given-returned _ client c header g in
        let (ri, _) = given-returned _ c c1 kid i in
        let (rn, ln) = given-returned _ c2 c3 name n in
        let (rd, ld) = given-returned _ c3 last claims h3 in
        let (jwks, key, held, found, made) = key_of-Holds kid c1 c2 k j in
        let (alg, named) = kid_in-ok _ _ kid ri in
        (
          header,
          kid,
          jwks,
          key,
          k,
          name,
          or_raise-some invalid_token _ header rh,
          is_text-true _ "RS256" alg,
          named,
          ap (λ z. z.jwks) (ld ∙ ln) ∙ held,
          found,
          made,
          rn,
          or_raise-some invalid_token _ claims rd,
        )

    -- An ID token is accepted only for the configured client, with the nonce that was asked for, and
    -- after its verification: its header names RS256 and a key of the key set that the client holds
    -- at the end, and PyJWT decoded it with that key, for that audience, the configured issuer and
    -- leeway, and the five required claims.
    pub verify_id_token-IsVerified :
        (token nonce : String) (client last : OidcClient) (claims : Dict Json)
        → verify_id_token network settings jwt token nonce client ≡ (last, ok claims)
        → (audience : String) × (settings.oidc_client_id ≡ some audience)
          × (lookup "nonce" claims ≡ some (str nonce))
          × IsVerified settings jwt token audience last claims
    unfolding verify_id_token client_id
    verify_id_token-IsVerified token nonce client last claims h =
        let (c, audience, g, h') = chain-returned _ _ client h in
        let (c1, accepted, v, h1) = chain-returned _ _ c h' in
        let (c2, checked, n, h2) = chain-returned _ _ c1 h1 in
        let (ra, _) = given-returned _ client c audience g in
        let (rn, ln) = given-returned _ c1 c2 checked n in
        let same : accepted ≡ claims = ok-injective (ap (λ p. p.1) h2) in
        let left : c1 ≡ last = sym ln ∙ ap (λ p. p.0) h2 in
        (
          audience,
          or_raise-some not_validated _ audience ra,
          ap (λ z. lookup "nonce" z) (sym same)
              ∙ is_text-true _ nonce (or_fail-true invalid_nonce _ checked rn),
          subst (λ z. IsVerified settings jwt token audience z claims) left
              (subst (IsVerified settings jwt token audience c1) same
                (verify-IsVerified token audience c c1 accepted v)),
        )
