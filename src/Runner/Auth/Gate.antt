-- ===== src/Runner/Auth/Gate.antt =====
-- What reaches the application behind the middleware.
use pytest_hardware_template.Prelude.{
  ℕ, String, true, false, Option, none, some, [], ◌∷◌, ◌||◌, not, ◌==◌, ◌≡◌, ◌⊎◌, inl, inr, refl,
  elem, has_prefix, Dict, ok, ◌>>=◌, chain-ok, ok-injective, arith, Bool-cases, sym, ◌∙◌, ap,
  false≢true, eq_iff,
}
use pytest_hardware_template.Agent.Protocol.{Json}
use pytest_hardware_template.Runner.Settings.{Settings}
use pytest_hardware_template.Runner.Auth.Signed.{Library}
use pytest_hardware_template.Runner.Auth.{
  Principal, Scope, handed_on, public_paths, admit, reject, has_role, required_role, authenticate,
  middleware,
}

-- The request is not of HTTP, or asks for a public path.
abbrev pub IsOpen : Scope → Type 0
IsOpen scope = (not (scope.type == "http") || elem scope.path public_paths) ≡ true

admit-handed_on :
    (settings : Settings) (scope : Scope) (o p : Option Principal)
    → admit settings scope o ≡ handed_on p
    → (q : Principal) × (o ≡ some q)
      × (p ≡ some q)
      × (has_role q (required_role scope) settings ≡ true)
unfolding admit reject
admit-handed_on settings scope none p h = absurd (ground arith)
admit-handed_on settings scope (some q) p h = (q, refl, ground arith, ground arith)

-- A request that is handed on to the application is not of HTTP, or asks for a public path, or was
-- authenticated as a principal that has the role which the request needs, and is handed on with it.
pub middleware-authorized :
    (library : Library) (settings : Settings) (verify : String → Option (Dict Json)) (now : ℕ)
    (scope : Scope) (p : Option Principal)
    → middleware library settings verify now scope ≡ ok (handed_on p)
    → IsOpen scope
      ⊎ ((q : Principal) × (authenticate library settings verify now scope ≡ ok (some q))
          × (p ≡ some q)
          × (has_role q (required_role scope) settings ≡ true))
unfolding middleware
middleware-authorized library settings verify now scope p h =
    elim (Bool-cases (not (scope.type == "http") || elem scope.path public_paths)) [
      | inl t ↦ inl t
      | inr f ↦
          let h' : (authenticate library settings verify now scope >>= λ o.
          ok (admit settings scope o))
              ≡ ok (handed_on p) =
            ground arith in
          let (o, a, k) = chain-ok (authenticate library settings verify now scope) _ h' in
          let (q, e, e', r) = admit-handed_on settings scope o p (ok-injective k) in
          inr (q, a ∙ ap (λ z. ok z) e, e', r)
    ]

-- A request that changes something: a writing method below /v1/.
abbrev pub IsWriting : Scope → Type 0
IsWriting scope =
    (scope.type ≡ "http")
    × (has_prefix scope.path "/v1/" ≡ true)
    × (elem scope.method ("POST" ∷ "PUT" ∷ "PATCH" ∷ "DELETE" ∷ []) ≡ true)

differs :
    (s t prefix : String)
    → has_prefix s prefix ≡ true
    → has_prefix t prefix ≡ false
    → (s == t) ≡ false
differs s t prefix h k = ground (arith, eq_iff s t)

writing-not_open :
    (scope : Scope)
    → IsWriting scope
    → (not (scope.type == "http") || elem scope.path public_paths) ≡ false
unfolding has_prefix
writing-not_open scope (t, p, m) = ground (
  arith,
  eq_iff scope.type "http",
  differs scope.path "/health" "/v1/" p refl,
  differs scope.path "/login" "/v1/" p refl,
  differs scope.path "/auth/status" "/v1/" p refl,
  differs scope.path "/auth/login" "/v1/" p refl,
  differs scope.path "/auth/callback" "/v1/" p refl,
  differs scope.path "/auth/logout" "/v1/" p refl,
)

has_role-operator :
    (q : Principal) (scope : Scope) (settings : Settings)
    → IsWriting scope
    → has_role q (required_role scope) settings ≡ true
    → has_role q "operator" settings ≡ true
unfolding required_role
has_role-operator q scope settings (t, p, m) h = ground arith

-- A writing request below /v1/ reaches the application only with a principal that was authenticated
-- and has the role of an operator.
pub middleware-operator :
    (library : Library) (settings : Settings) (verify : String → Option (Dict Json)) (now : ℕ)
    (scope : Scope) (p : Option Principal)
    → IsWriting scope
    → middleware library settings verify now scope ≡ ok (handed_on p)
    → (q : Principal) × (authenticate library settings verify now scope ≡ ok (some q))
      × (p ≡ some q)
      × (has_role q "operator" settings ≡ true)
middleware-operator library settings verify now scope p w h =
    elim (middleware-authorized library settings verify now scope p h) [
      | inl o ↦ absurd (false≢true (sym (writing-not_open scope w) ∙ o))
      | inr (q, a, e, r) ↦ (q, a, e, has_role-operator q scope settings w r)
    ]
