-- ===== src/Runner/Oidc/Calls.antt =====
-- helpers/test-runner-service/src/test_runner_service/oidc.py: the state of the client, and calls that
-- change it and return or raise. What a call changed before it raises stays changed.
use pytest_hardware_template.Prelude.{
  ℕ, ◌+◌, ◌≤◌, String, Option, none, some, List, [], length, Dict, Result, ok, err, ◌≡◌, refl,
  arith,
}
use pytest_hardware_template.Agent.Protocol.{Json}

-- The messages of an `OidcError`.
pub data OidcError : Type 0 where
  unavailable invalid_response not_validated issuer_differs : OidcError
  missing_url : String → OidcError
  invalid_url : String → OidcError
  no_id_token invalid_nonce invalid_header unknown_key invalid_key invalid_token : OidcError

pub record OidcEndpoints : Type 0 where
  pub authorization : String
  pub token : String
  pub jwks : String
  pub end_session : Option String

-- The request of `get_json`, and that of `post_form` with its form
pub data Request : Type 0 where
  get : String → Request
  post : String → Dict String → Request

-- The fields of the client that change, and the requests that were sent, the last one first
pub record OidcClient : Type 0 where
  pub endpoints : Option OidcEndpoints
  pub jwks : Option (Dict Json)
  pub jwks_loaded_at : ℕ
  pub sent : List Request

-- `OidcClient.__init__`
abbrev pub new_client : OidcClient
new_client = record { endpoints = none; jwks = none; jwks_loaded_at = 0; sent = [] }

abbrev pub Call : Type 0 → Type 0
Call A = OidcClient → OidcClient × Result OidcError A

module _ {A : Type 0} where
  abbrev pub return : A → Call A
  return a client = (client, ok a)

  abbrev pub raised : OidcError → Call A
  raised e client = (client, err e)

  -- A result that does not depend on the client
  abbrev pub given : Result OidcError A → Call A
  given r client = (client, r)

abbrev pub continued :
    {A B : Type 0}
    → (A → Call B)
    → OidcClient × Result OidcError A
    → OidcClient × Result OidcError B
continued next (client, err e) = (client, err e)
continued next (client, ok a) = next a client

infixl 5 ◌>>=◌
unfoldable pub ◌>>=◌ : {A B : Type 0} → Call A → (A → Call B) → Call B
(first >>= next) client = continued next (first client)

continued-ok :
    {A B : Type 0} (next : A → Call B) (p : OidcClient × Result OidcError A) {last : OidcClient}
    {b : B}
    → continued next p ≡ (last, ok b)
    → (client : OidcClient) × (a : A) × (p ≡ (client, ok a)) × (next a client ≡ (last, ok b))
continued-ok next (client, err e) h = cc
continued-ok next (client, ok a) h = (client, a, refl, h)

-- A chain that returns has a first call that returns.
pub chain-returned :
    {A B : Type 0} (first : Call A) (next : A → Call B) (client : OidcClient) {last : OidcClient}
    {b : B}
    → (first >>= next) client ≡ (last, ok b)
    → (between : OidcClient) × (a : A) × (first client ≡ (between, ok a))
      × (next a between ≡ (last, ok b))
unfolding ◌>>=◌
chain-returned first next client h = continued-ok next (first client) h

-- What holds of the value, where one is returned
abbrev pub Returned : {A : Type 0} → (A → Type 0) → Result OidcError A → Type 0
Returned R (err e) = Unit
Returned R (ok a) = R a

-- A property of clients that is kept by calls, with what it says of the values that they return
module _ (Holds : OidcClient → Type 0) where
  abbrev pub Keeps : {A : Type 0} → (A → Type 0) → Call A → Type 0
  Keeps R call =
      (client : OidcClient) → Holds client → Holds (call client).0 × Returned R (call client).1

  continued-Keeps :
      {A B : Type 0} (R : A → Type 0) (S : B → Type 0) (next : A → Call B)
      (p : OidcClient × Result OidcError A)
      → ((a : A) → R a → Keeps S (next a))
      → Holds p.0 × Returned R p.1
      → Holds (continued next p).0 × Returned S (continued next p).1
  continued-Keeps R S next (client, err e) k (h, r) = (h, tt)
  continued-Keeps R S next (client, ok a) k (h, r) = k a r client h

  pub chain-Keeps :
      {A B : Type 0} (R : A → Type 0) (S : B → Type 0) (first : Call A) (next : A → Call B)
      → Keeps R first
      → ((a : A) → R a → Keeps S (next a))
      → Keeps S (first >>= next)
  unfolding ◌>>=◌
  chain-Keeps R S first next j k client h = continued-Keeps R S next (first client) k (j client h)

  pub given-Keeps :
      {A : Type 0} (R : A → Type 0) (r : Result OidcError A) → Returned R r → Keeps R (given r)
  given-Keeps R r q client h = (h, q)

-- One request for the endpoints, where the client does not have them
abbrev pub missing : Option OidcEndpoints → ℕ
missing none = 1
missing (some e) = 0

abbrev pub sent_count : OidcClient → ℕ
sent_count client = length client.sent

-- The requests that were sent, and the one that is to come
abbrev pub due : OidcClient → ℕ
due client = length client.sent + missing client.endpoints

abbrev pub Sent : {A : Type 0} → (OidcClient → ℕ) → ℕ → OidcClient × Result OidcError A → Type 0
Sent g k (client, err e) = sent_count client ≤ k
Sent g k (client, ok a) = g client ≤ k

-- A call adds at most `n` to a count: `f` counts before it, and `g` behind it.
abbrev pub Costs : {A : Type 0} → (f g : OidcClient → ℕ) → ℕ → Call A → Type 0
Costs f g n call = (client : OidcClient) → Sent g (f client + n) (call client)

pub Sent-mono :
    {A : Type 0} (g : OidcClient → ℕ) (k n : ℕ) (p : OidcClient × Result OidcError A)
    → k ≤ n
    → Sent g k p
    → Sent g n p
Sent-mono g k n (client, err e) h j = omega arith
Sent-mono g k n (client, ok a) h j = omega arith

continued-Costs :
    {A B : Type 0} (g h : OidcClient → ℕ) (n m k : ℕ) (next : A → Call B)
    (p : OidcClient × Result OidcError A)
    → ((a : A) → Costs g h m (next a))
    → Sent g (k + n) p
    → Sent h (k + (n + m)) (continued next p)
continued-Costs g h n m k next (client, err e) j s = omega arith
continued-Costs g h n m k next (client, ok a) j s =
    Sent-mono h (g client + m) (k + (n + m)) (next a client) (omega arith) (j a client)

pub chain-Costs :
    {A B : Type 0} (f g h : OidcClient → ℕ) (n m : ℕ) (first : Call A) (next : A → Call B)
    → Costs f g n first
    → ((a : A) → Costs g h m (next a))
    → Costs f h (n + m) (first >>= next)
unfolding ◌>>=◌
chain-Costs f g h n m first next i j client =
    continued-Costs g h n m (f client) next (first client) j (i client)

counted :
    {A : Type 0} (k : ℕ) (p : OidcClient × Result OidcError A) → Sent due k p → sent_count p.0 ≤ k
counted k (client, err e) h = h
counted k (client, ok a) h = omega arith

-- However a call ends, its requests are counted.
pub Costs-sent_count :
    {A : Type 0} (n : ℕ) (call : Call A) (client : OidcClient)
    → Costs due due n call
    → sent_count (call client).0 ≤ sent_count client + missing client.endpoints + n
Costs-sent_count n call client h = counted (due client + n) (call client) (h client)
