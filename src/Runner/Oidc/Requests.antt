-- ===== src/Runner/Oidc/Requests.antt =====
-- To whom the client of the identity provider sends requests, and how many.
use pytest_hardware_template.Prelude.{String, true, false, Option, none, some, List, [], ◌∷◌, Dict}
use pytest_hardware_template.Agent.Protocol.{Json}
use pytest_hardware_template.Runner.Settings.{Settings}
use pytest_hardware_template.Runner.Oidc.Calls.{OidcClient, new_client}
use pytest_hardware_template.Runner.Oidc.{
  Network, Jwt, issuer, find_key, found_or_reloaded, key_of, verify, verify_id_token,
  verify_access_token, exchange_code, authorization_url, logout_at, logout_url,
}
use pytest_hardware_template.Runner.Oidc.Secure.{
  IsSecure, given-Secures, request-Secures, chain-Secures, return-Secures, get_endpoints-Secures,
  get_jwks-Secures, Secures, Any,
}

module _ (network : Network) (settings : Settings) where
  found-Secures :
      (kid : String) (o : Option (Dict Json))
      → Secures network settings Any (found_or_reloaded network settings kid o)
  found-Secures kid (some key) = return-Secures network settings Any key tt
  found-Secures kid none =
      chain-Secures network settings _ _ _ _ (get_jwks-Secures network settings true)
        (λ jwks _. given-Secures network settings _)

  module _ {Key : Type 0} (jwt : Jwt Key) where
    key_of-Secures : (kid : String) → Secures network settings Any (key_of network settings jwt kid)
    unfolding key_of
    key_of-Secures kid =
        chain-Secures network settings _ _ _ _ (get_jwks-Secures network settings false) (λ jwks _.
          chain-Secures network settings _ _ _ _ (found-Secures kid (find_key jwks kid))
            (λ key _. given-Secures network settings _))

    verify-Secures :
        (token audience : String)
        → Secures network settings Any (verify network settings jwt token audience)
    unfolding verify
    verify-Secures token audience =
        chain-Secures network settings _ _ _ _ (given-Secures network settings _) (λ header _.
          chain-Secures network settings _ _ _ _ (given-Secures network settings _) (λ kid _.
            chain-Secures network settings _ _ _ _ (key_of-Secures kid) (λ key _.
              chain-Secures network settings _ _ _ _
                (given-Secures network settings (issuer settings))
                (λ name _. given-Secures network settings _))))

    verify_id_token-Secures :
        (token nonce : String)
        → Secures network settings Any (verify_id_token network settings jwt token nonce)
    unfolding verify_id_token
    verify_id_token-Secures token nonce =
        chain-Secures network settings _ _ _ _ (given-Secures network settings _) (λ audience _.
          chain-Secures network settings _ _ _ _ (verify-Secures token audience) (λ claims _.
            chain-Secures network settings _ _ _ _ (given-Secures network settings _)
              (λ checked _. return-Secures network settings Any claims tt)))

    verify_access_token-Secures :
        (token : String)
        → Secures network settings Any (verify_access_token network settings jwt token)
    unfolding verify_access_token
    verify_access_token-Secures token =
        chain-Secures network settings _ _ _ _ (given-Secures network settings _)
          (λ audience _. verify-Secures token audience)

  exchange_code-Secures :
      (code verifier : String)
      → Secures network settings Any (exchange_code network settings code verifier)
  unfolding exchange_code
  exchange_code-Secures code verifier =
      chain-Secures network settings _ _ _ _ (get_endpoints-Secures network settings)
        (λ endpoints (a, t, j, e).
          chain-Secures network settings _ _ _ _ (given-Secures network settings _) (λ secret _.
            chain-Secures network settings _ _ _ _ (given-Secures network settings _) (λ redirect _.
              chain-Secures network settings _ _ _ _ (given-Secures network settings _) (λ id _.
                chain-Secures network settings _ _ _ _ (request-Secures network settings _ t)
                  (λ response _.
                    chain-Secures network settings _ _ _ _ (given-Secures network settings _)
                      (λ checked _. return-Secures network settings Any response tt))))))

  module _ (urlencode : Dict String → String) where
    authorization_url-Secures :
        (state nonce challenge : String)
        → Secures network settings Any
            (authorization_url network settings urlencode state nonce challenge)
    unfolding authorization_url
    authorization_url-Secures state nonce challenge =
        chain-Secures network settings _ _ _ _ (get_endpoints-Secures network settings)
          (λ endpoints _.
            chain-Secures network settings _ _ _ _ (given-Secures network settings _) (λ id _.
              chain-Secures network settings _ _ _ _ (given-Secures network settings _)
                (λ redirect _ client h. (h, tt))))

    logout_at-Secures :
        (redirect : String) (o : Option String)
        → Secures network settings Any (logout_at network settings urlencode redirect o)
    logout_at-Secures redirect none = return-Secures network settings Any redirect tt
    logout_at-Secures redirect (some endpoint) =
        chain-Secures network settings _ _ _ _ (given-Secures network settings _)
          (λ id _ client h. (h, tt))

    logout_url-Secures :
        (redirect : String)
        → Secures network settings Any (logout_url network settings urlencode redirect)
    unfolding logout_url
    logout_url-Secures redirect =
        chain-Secures network settings _ _ _ _ (get_endpoints-Secures network settings)
          (λ endpoints _. logout_at-Secures redirect endpoints.end_session)

-- A call of the client
pub data Operation : Type 0 where
  asking_url : (state nonce challenge : String) → Operation
  exchanging : (code verifier : String) → Operation
  verifying_id : (token nonce : String) → Operation
  verifying_access : (token : String) → Operation
  leaving : (redirect : String) → Operation

module _ (settings : Settings) {Key : Type 0} (jwt : Jwt Key)
    (urlencode : Dict String → String) where
  abbrev pub perform : Network → Operation → OidcClient → OidcClient
  perform network (asking_url state nonce challenge) client =
      (authorization_url network settings urlencode state nonce challenge client).0
  perform network (exchanging code verifier) client =
      (exchange_code network settings code verifier client).0
  perform network (verifying_id token nonce) client =
      (verify_id_token network settings jwt token nonce client).0
  perform network (verifying_access token) client =
      (verify_access_token network settings jwt token client).0
  perform network (leaving redirect) client =
      (logout_url network settings urlencode redirect client).0

  -- Each call has the answers and the time of its own network.
  abbrev pub run : List (Network × Operation) → OidcClient → OidcClient
  run [] client = client
  run ((network, operation) ∷ operations) client = run operations (perform network operation client)

  perform-IsSecure :
      (network : Network) (operation : Operation) (client : OidcClient)
      → IsSecure settings client
      → IsSecure settings (perform network operation client)
  perform-IsSecure network (asking_url state nonce challenge) client h =
      (authorization_url-Secures network settings urlencode state nonce challenge client h).0
  perform-IsSecure network (exchanging code verifier) client h =
      (exchange_code-Secures network settings code verifier client h).0
  perform-IsSecure network (verifying_id token nonce) client h =
      (verify_id_token-Secures network settings jwt token nonce client h).0
  perform-IsSecure network (verifying_access token) client h =
      (verify_access_token-Secures network settings jwt token client h).0
  perform-IsSecure network (leaving redirect) client h =
      (logout_url-Secures network settings urlencode redirect client h).0

  run_from-IsSecure :
      (operations : List (Network × Operation)) (client : OidcClient)
      → IsSecure settings client
      → IsSecure settings (run operations client)
  run_from-IsSecure [] client h = h
  run_from-IsSecure ((network, operation) ∷ operations) client h =
      run_from-IsSecure operations (perform network operation client)
        (perform-IsSecure network operation client h)

  -- In every history of calls, whatever the provider answers to each and however much time passes
  -- between them: each endpoint that the client keeps is an HTTPS URL, and each request that the
  -- client makes of `urlopen` is for an HTTPS URL, or gets the discovery document of the configured
  -- issuer; so the client's secret is only posted to an HTTPS URL. Where `urlopen` is redirected is
  -- not said.
  pub run-IsSecure :
      (operations : List (Network × Operation)) → IsSecure settings (run operations new_client)
  run-IsSecure operations = run_from-IsSecure operations new_client (tt, tt)
