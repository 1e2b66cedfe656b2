-- ===== src/Runner/Auth/Sessions.antt =====
-- Signed values: what is accepted, and that what was signed is read back.
use mathlib.Core.Path.{subst}
use pytest_hardware_template.Prelude.{
  ℕ, String, Bool, true, false, Option, none, some, ◌≡◌, inl, inr, refl, if◌then◌else◌, partition,
  lookup, Dict, Result, ok, err, chain-ok, ok-injective, arith, Option-cases, ◌∙◌, ap, eq_iff,
}
use pytest_hardware_template.Agent.Protocol.{
  ℤ, Json, null, bool, int, float, str, arr, obj, to_dict,
}
use pytest_hardware_template.Runner.Settings.{Settings}
use pytest_hardware_template.Runner.Auth.Signed.{
  Library, compare_digest, signature, decode_signed, check_signed, accepted, issued, unexpired, iat,
  in_age, is_past, optional_int,
}

-- A payload that was read from a value: it is behind a signature by the configured secret, was
-- issued within the age, and has not expired.
pub record Authentic (library : Library) (settings : Settings) (now max_age : ℕ) (value : String)
    (payload : Dict Json) : Type 0 where
  pub secret : String
  pub encoded : String
  pub issued_at : ℤ
  pub secret_eq : settings.auth_session_secret ≡ some secret
  pub value_eq : partition b'.' value ≡ some (encoded, library.hexdigest secret encoded)
  pub iat_eq : iat library settings payload ≡ some issued_at
  pub fresh : in_age now max_age issued_at ≡ true
  pub unexpired :
      (e : Option ℤ) × (optional_int (lookup "expires_at" payload) ≡ ok e) × (is_past now e ≡ false)

signature-secret :
    (library : Library) (settings : Settings) (encoded s : String)
    → signature library settings encoded ≡ ok s
    → (secret : String) × (settings.auth_session_secret ≡ some secret)
      × (s ≡ library.hexdigest secret encoded)
unfolding signature
signature-secret library settings encoded s h = elim (Option-cases settings.auth_session_secret) [
  | inl e ↦ absurd (ground arith)
  | inr (secret, e) ↦ (secret, e, ground arith)
]

pub compare_digest-true : (a b : String) → compare_digest a b ≡ ok true → a ≡ b
unfolding compare_digest
compare_digest-true a b h = ground (arith, eq_iff a b)

-- The payload expires now or later, or never.
abbrev pub Unexpired : ℕ → Dict Json → Type 0
Unexpired now payload =
    (e : Option ℤ) × (optional_int (lookup "expires_at" payload) ≡ ok e) × (is_past now e ≡ false)

module _ (library : Library) (settings : Settings) (now max_age : ℕ) where
  unexpired_sound :
      (p q : Dict Json) (r : Result Unit (Option ℤ))
      → unexpired library settings now p r ≡ some q
      → (p ≡ q) × ((e : Option ℤ) × (r ≡ ok e) × (is_past now e ≡ false))
  unexpired_sound p q (err _) h = cc
  unexpired_sound p q (ok e) h = (ground arith, (e, refl, ground arith))

  issued_sound :
      (p q : Dict Json) (i : Option ℤ)
      → issued library settings now max_age p i ≡ some q
      → (p ≡ q) × ((n : ℤ) × (i ≡ some n) × (in_age now max_age n ≡ true) × Unexpired now p)
  issued_sound p q none h = cc
  issued_sound p q (some n) h =
      let t : in_age now max_age n ≡ true = ground arith in
      let (e, u) = unexpired_sound p q _ (ground arith) in (e, (n, refl, t, u))

  accepted_sound :
      (json : Option Json) (payload : Dict Json)
      → accepted library settings now max_age json ≡ some payload
      → (n : ℤ) × (iat library settings payload ≡ some n)
        × (in_age now max_age n ≡ true)
        × Unexpired now payload
  accepted_sound none payload h = cc
  accepted_sound (some null) payload h = cc
  accepted_sound (some (bool b)) payload h = cc
  accepted_sound (some (int n)) payload h = cc
  accepted_sound (some (float t)) payload h = cc
  accepted_sound (some (str t)) payload h = cc
  accepted_sound (some (arr items)) payload h = cc
  accepted_sound (some (obj fields)) payload h =
      let (e, r) = issued_sound (to_dict fields) payload _ h in
      subst
        (λ p.
          (n : ℤ) × (iat library settings p ≡ some n)
          × (in_age now max_age n ≡ true)
          × Unexpired now p)
        e r

  if-some :
      (b : Bool) (o : Option (Dict Json)) (p : Dict Json)
      → (if b then o else none) ≡ some p
      → (b ≡ true) × (o ≡ some p)
  if-some true o p h = (refl, h)
  if-some false o p h = cc

  check_signed-Authentic :
      (value encoded signed : String) (payload : Dict Json)
      → partition b'.' value ≡ some (encoded, signed)
      → check_signed library settings now max_age (some (encoded, signed)) ≡ ok (some payload)
      → Authentic library settings now max_age value payload
  unfolding check_signed
  check_signed-Authentic value encoded signed payload e h =
      let (expected, a, k) = chain-ok (signature library settings encoded) _ h in
      let (secret, c, d) = signature-secret library settings encoded expected a in
      let (valid, b, l) = chain-ok (compare_digest signed expected) _ k in
      let (t, o) = if-some valid _ payload (ok-injective l) in
      let (n, i, f, u) = accepted_sound (library.loads encoded) payload o in
      let same = compare_digest-true signed expected (b ∙ ap (λ v. ok v) t) in
      record {
        secret = secret;
        encoded = encoded;
        issued_at = n;
        secret_eq = c;
        value_eq = e ∙ ap (λ v. some (encoded, v)) (same ∙ d);
        iat_eq = i;
        fresh = f;
        unexpired = u;
      }

  -- A value is read as a payload only if the part behind its first dot is the signature, by the
  -- configured secret, of the part before it, and if the payload was issued at most `max_age` seconds
  -- ago, and not in the future, and has not expired.
  pub decode_signed-Authentic :
      (value : String) (payload : Dict Json)
      → decode_signed library settings now (some value) max_age ≡ ok (some payload)
      → Authentic library settings now max_age value payload
  unfolding decode_signed
  decode_signed-Authentic value payload h = elim (Option-cases (partition b'.' value)) [
    | inl e ↦ absurd (ground arith)
    | inr ((encoded, signed), e) ↦
        check_signed-Authentic value encoded signed payload e (ground arith)
  ]
