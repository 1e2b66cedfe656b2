-- ===== src/Runner/Auth/RoundTrip.antt =====
-- A session that is set as a cookie is read back as the session that was set.
use Prim.Native.String
use pytest_hardware_template.Prelude.{
  ℕ, ◌-◌, ◌≤◌, String, true, false, Option, none, some, List, [], ◌∷◌, ◌≡◌, refl, ap, ◌∙◌, lookup,
  ok, arith, eq_refl, nat_eq, any_char, concat, partition,
}
use text.Mathlib.TextLemmas.{append-nil, nil-append, cons-append}
use pytest_hardware_template.Agent.Protocol.{ℤ, str, obj, int, Fields, to_dict, pos}
use pytest_hardware_template.Runner.Settings.{Settings}
use pytest_hardware_template.Runner.Auth.Signed.{
  Library, compare_digest, is_ascii, encode_signed, decode_signed, check_signed, accepted,
  unexpired, iat, in_age, is_past, optional_int, signature, stamped,
}
use pytest_hardware_template.Runner.Auth.{
  Principal, decode_session, string_items, session_of, optional_text,
}
use pytest_hardware_template.Runner.Auth.Routes.{
  set, asdict, text_items, or_null, session_cookie_for, session_cookie_name, session_age,
}

-- A text is cut at its first dot.
partition-append :
    (s t u : String)
    → any_char (λ c. nat_eq c b'.') s ≡ false
    → partition b'.' u ≡ some ("", t)
    → partition b'.' (String.◌++◌ s u) ≡ some (s, t)
unfolding partition any_char
partition-append String.[] t u h k = rw (nil-append u) k
partition-append (String.◌∷◌ c s) t u h k =
    rw (cons-append c s u) (ground (arith, partition-append s t u))

partition-concat :
    (s t : String)
    → any_char (λ c. nat_eq c b'.') s ≡ false
    → partition b'.' (concat (s ∷ "." ∷ t ∷ [])) ≡ some (s, t)
unfolding concat partition
partition-concat s t h = partition-append s t (String.◌++◌ "." (String.◌++◌ t "")) h (
    rw (append-nil t)
      (ap (partition b'.') (cons-append "." "" t ∙ ap (String.◌∷◌ ".") (nil-append t))))

string_items-text_items : (l : List String) → string_items (text_items l) ≡ l
unfolding string_items
string_items-text_items [] = refl
string_items-text_items (s ∷ l) = ap (λ z. s ∷ z) (string_items-text_items l)

compare_digest_self : (s : String) → is_ascii s ≡ true → compare_digest s s ≡ ok true
unfolding compare_digest
compare_digest_self s h = ground (arith, eq_refl s)

optional_int-or_null : (e : Option ℤ) → optional_int (some (or_null (λ n. int n) e)) ≡ ok e
optional_int-or_null none = refl
optional_int-or_null (some n) = refl

module _ (library : Library) (settings : Settings) (now later : ℕ) (principal : Principal)
    (secret : String) (fields : Fields) (secret_eq : settings.auth_session_secret ≡ some secret)
    (undotted : any_char (λ c. nat_eq c b'.') (library.dumps (stamped now (asdict principal)))
      ≡ false)
    (digest_ascii : (key message : String) → is_ascii (library.hexdigest key message) ≡ true)
    (loads-dumps : library.loads (library.dumps (stamped now (asdict principal)))
      ≡ some (obj fields))
    (same_entries : (k : String)
      → lookup k (to_dict fields) ≡ lookup k (stamped now (asdict principal)))
    (to_int-int : (n : ℤ) → library.to_int (int n) ≡ some n)
    (to_text-str : (s : String) → library.to_text (str s) ≡ s) (issued_before : now ≤ later)
    (in_time : later - now ≤ settings.auth_session_ttl_seconds)
    (not_expired : is_past later principal.expires_at ≡ false) where
  abbrev encoded : String
  encoded = library.dumps (stamped now (asdict principal))

  abbrev value : String
  value = concat (encoded ∷ "." ∷ library.hexdigest secret encoded ∷ [])

  signature_ok : signature library settings encoded ≡ ok (library.hexdigest secret encoded)
  unfolding signature
  signature_ok = ground (arith, secret_eq)

  encode_ok : encode_signed library settings now (asdict principal) ≡ ok value
  unfolding encode_signed
  encode_ok = rw signature_ok refl

  in_age_ok : in_age later settings.auth_session_ttl_seconds (pos now) ≡ true
  in_age_ok = ground (arith, issued_before, in_time)

  unexpired_ok :
      unexpired library settings later
        (to_dict fields)
        (optional_int (lookup "expires_at" (to_dict fields)))
      ≡ some (to_dict fields)
  unfolding lookup asdict stamped
  unexpired_ok =
      rw (same_entries "expires_at")
        (rw (optional_int-or_null principal.expires_at) (rw not_expired refl))

  iat_ok : iat library settings (to_dict fields) ≡ some (pos now)
  unfolding lookup asdict stamped
  iat_ok = rw (same_entries "iat", iat) (to_int-int (pos now))

  accepted_ok :
      accepted library settings later settings.auth_session_ttl_seconds (library.loads encoded)
      ≡ some (to_dict fields)
  accepted_ok = rw loads-dumps (rw iat_ok (rw in_age_ok unexpired_ok))

  decode_ok :
      decode_signed library settings later (some value) settings.auth_session_ttl_seconds
      ≡ ok (some (to_dict fields))
  unfolding decode_signed check_signed
  decode_ok = rw (partition-concat encoded (library.hexdigest secret encoded) undotted) (
      rw signature_ok (
        rw (compare_digest_self (library.hexdigest secret encoded) (digest_ascii secret encoded))
          (ap (λ o. ok o) accepted_ok)))

  username_ok :
      (o : Option String) → optional_text library.to_text (some (or_null (λ s. str s) o)) ≡ o
  username_ok none = refl
  username_ok (some s) = ap (λ z. some z) (to_text-str s)

  session_ok :
      session_of library settings (to_dict fields) (lookup "roles" (to_dict fields))
      ≡ some principal
  unfolding lookup asdict stamped
  session_ok = rw (same_entries "roles") (
      rw (same_entries "subject") (
        rw (same_entries "method") (
          rw (same_entries "expires_at") (
            rw (optional_int-or_null principal.expires_at) (
              rw (same_entries "username") (
                rw (username_ok principal.username) (
                  rw (string_items-text_items principal.roles) (
                    rw (to_text-str principal.subject)
                      (rw (to_text-str principal.method) refl)))))))))

  -- Where a session secret is set, digests are ASCII, the encoded payload has no dot and is
  -- decoded with the same entries, and int and str give back integers and texts: a session that
  -- is set as a cookie is read back, at most the session's lifetime later and not after it
  -- expires, as the principal that it was set for.
  pub session_round_trip :
      (cookie : String) × (max_age : ℕ) × (session_cookie_for library settings now principal
        ≡ ok (set session_cookie_name cookie max_age))
      × (decode_session library settings later cookie ≡ ok (some principal))
  unfolding session_cookie_for decode_session
  session_round_trip = (
    value,
    session_age now settings.auth_session_ttl_seconds principal.expires_at,
    rw encode_ok refl,
    rw decode_ok (ap (λ o. ok o) session_ok),
  )
