-- ===== src/Runner/Oidc/Budget.antt =====
-- How many requests the verification of a token costs.
use pytest_hardware_template.Prelude.{
  ℕ, ◌+◌, ◌≤◌, String, Bool, true, false, Option, none, some, ◌∷◌, Dict, arith, ok, err, Result,
  refl, ◌≡◌, ap,
}
use pytest_hardware_template.Agent.Protocol.{Json}
use pytest_hardware_template.Runner.Settings.{Settings}
use pytest_hardware_template.Runner.Oidc.Calls.{
  OidcError, OidcEndpoints, Request, OidcClient, given, missing, sent_count, due, Sent, Sent-mono,
  Costs, chain-Costs, Costs-sent_count,
}
use pytest_hardware_template.Runner.Oidc.{
  Network, Jwt, request, keep_endpoints, discover, endpoints_or_discover, get_endpoints, keep_jwks,
  load_jwks, jwks_or_load, get_jwks, find_key, found_or_reloaded, key_of, verify, issuer,
  verify_access_token,
}

-- What is given costs nothing.
given-Costs :
    {A : Type 0} (f : OidcClient → ℕ) (r : Result OidcError A)
    → ((client : OidcClient) → sent_count client ≤ f client)
    → Costs f f 0 (given r)
given-Costs f (ok a) h client = omega arith
given-Costs f (err e) h client = omega (arith, h client)

given-due : {A : Type 0} (r : Result OidcError A) → Costs due due 0 (given r)
given-due r = given-Costs due r (λ client. omega arith)

given-sent_count : {A : Type 0} (r : Result OidcError A) → Costs sent_count sent_count 0 (given r)
given-sent_count r = given-Costs sent_count r (λ client. omega arith)

module _ (network : Network) (settings : Settings) where
  answered-Sent :
      (f : OidcClient → ℕ) (client : OidcClient) (r : Result OidcError (Dict Json)) (k : ℕ)
      → f client ≤ k
      → sent_count client ≤ k
      → Sent f k (client, r)
  answered-Sent f client (ok a) k h j = h
  answered-Sent f client (err e) k h j = j

  request-sent_count : (r : Request) → Costs sent_count sent_count 1 (request network settings r)
  unfolding request
  request-sent_count r client =
      answered-Sent sent_count (record client { sent = r ∷ client.sent }) _ (sent_count client + 1)
        (omega arith) (omega arith)

  request-due : (r : Request) → Costs due due 1 (request network settings r)
  unfolding request
  request-due r client =
      answered-Sent due (record client { sent = r ∷ client.sent }) _ (due client + 1) (omega arith)
        (omega arith)

  keep_endpoints-Costs :
      (e : OidcEndpoints) → Costs sent_count due 0 (keep_endpoints network settings e)
  unfolding keep_endpoints
  keep_endpoints-Costs e client = omega arith

  discover-Costs : Costs sent_count due 1 (discover network settings)
  unfolding discover
  discover-Costs =
      chain-Costs sent_count sent_count due 0 1 _ _ (given-sent_count (issuer settings)) (λ name.
        chain-Costs sent_count sent_count due 1 0 _ _ (request-sent_count _) (λ document.
          chain-Costs sent_count sent_count due 0 0 _ _ (given-sent_count _) (λ checked.
            chain-Costs sent_count sent_count due 0 0 _ _ (given-sent_count _) (λ a.
              chain-Costs sent_count sent_count due 0 0 _ _ (given-sent_count _) (λ t.
                chain-Costs sent_count sent_count due 0 0 _ _ (given-sent_count _) (λ j.
                  chain-Costs sent_count sent_count due 0 0 _ _ (given-sent_count _) (λ e.
                    keep_endpoints-Costs
                      (record { authorization = a; token = t; jwks = j; end_session = e }))))))))

  endpoints-Costs :
      (o : Option OidcEndpoints) (client : OidcClient)
      → client.endpoints ≡ o
      → Sent due (due client + 0) (endpoints_or_discover network settings o client)
  endpoints-Costs none client h =
      Sent-mono due (sent_count client + 1) (due client + 0) (discover network settings client)
        (omega (arith, ap missing h)) (discover-Costs client)
  endpoints-Costs (some e) client h = omega arith

  get_endpoints-Costs : Costs due due 0 (get_endpoints network settings)
  unfolding get_endpoints
  get_endpoints-Costs client = endpoints-Costs client.endpoints client refl

  keep_jwks-Costs :
      (now : ℕ) (jwks : Dict Json) → Costs due due 0 (keep_jwks network settings now jwks)
  unfolding keep_jwks
  keep_jwks-Costs now jwks client = omega arith

  load_jwks-Costs : (now : ℕ) → Costs due due 1 (load_jwks network settings now)
  unfolding load_jwks
  load_jwks-Costs now =
      chain-Costs due due due 0 1 _ _ get_endpoints-Costs
        (λ e. chain-Costs due due due 1 0 _ _ (request-due _) (λ jwks. keep_jwks-Costs now jwks))

  jwks-Costs :
      (stale : Bool) (now : ℕ) (o : Option (Dict Json))
      → Costs due due 1 (jwks_or_load network settings stale now o)
  jwks-Costs stale now none client = load_jwks-Costs now client
  jwks-Costs true now (some jwks) client = load_jwks-Costs now client
  jwks-Costs false now (some jwks) client = omega arith

  get_jwks-Costs : (force : Bool) → Costs due due 1 (get_jwks network settings force)
  unfolding get_jwks
  get_jwks-Costs force client = jwks-Costs _ (network.clock force client.sent) client.jwks client

  found-Costs :
      (kid : String) (o : Option (Dict Json))
      → Costs due due 1 (found_or_reloaded network settings kid o)
  found-Costs kid (some key) client = omega arith
  found-Costs kid none client =
      chain-Costs due due due 1 0 _ _ (get_jwks-Costs true) (λ jwks. given-due _) client

  module _ {Key : Type 0} (jwt : Jwt Key) where
    key_of-Costs : (kid : String) → Costs due due 2 (key_of network settings jwt kid)
    unfolding key_of
    key_of-Costs kid = chain-Costs due due due 1 1 _ _ (get_jwks-Costs false) (λ jwks.
        chain-Costs due due due 1 0 _ _ (found-Costs kid (find_key jwks kid)) (λ key. given-due _))

    verify-Costs :
        (token audience : String) → Costs due due 2 (verify network settings jwt token audience)
    unfolding verify
    verify-Costs token audience = chain-Costs due due due 0 2 _ _ (given-due _) (λ header.
        chain-Costs due due due 0 2 _ _ (given-due _) (λ kid.
          chain-Costs due due due 2 0 _ _ (key_of-Costs kid) (λ key.
            chain-Costs due due due 0 0 _ _ (given-due (issuer settings)) (λ name. given-due _))))

    verify_access_token-Costs :
        (token : String) → Costs due due 2 (verify_access_token network settings jwt token)
    unfolding verify_access_token
    verify_access_token-Costs token =
        chain-Costs due due due 0 2 _ _ (given-due _) (λ audience. verify-Costs token audience)

    -- However the verification of an access token ends, it sends at most two requests, and one more
    -- where the client has no endpoints yet.
    pub verify_access_token-sent_count :
        (token : String) (client : OidcClient)
        → sent_count (verify_access_token network settings jwt token client).0
          ≤ sent_count client + missing client.endpoints + 2
    verify_access_token-sent_count token client =
        Costs-sent_count 2 (verify_access_token network settings jwt token) client
          (verify_access_token-Costs token)
