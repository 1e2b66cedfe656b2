-- ===== src/Runner/Auth/Signed.antt =====
-- helpers/test-runner-service/src/test_runner_service/auth.py: bearer values, cookies, and signed
-- values. HMAC, Base64, JSON and the conversions of Python are parameters. One call sees one second.
use pytest_hardware_template.Prelude.{
  ℕ, ◌+◌, ◌-◌, suc, String, Bool, true, false, Option, none, some, List, [], ◌∷◌, ◌||◌, ◌&&◌, not,
  ◌==◌, if◌then◌else◌, concat, all_char, nat_eq, leb, ltb, split, strip, partition, lookup, Dict,
  Result, ok, err, ◌>>=◌,
}
use Prim.Native.Char
use pytest_hardware_template.Agent.Protocol.{ℤ, pos, negsuc, Json, int, obj, null, to_dict}
use pytest_hardware_template.Runner.Settings.{Settings}

-- The exceptions that no handler here catches: of `hmac.compare_digest` on a text that is not ASCII,
-- of settings that were not validated, and of claims without a subject or with an expiry that is no
-- integer.
pub data Failure : Type 0 where
  type_error : Failure
  not_validated : Failure
  key_error : Failure
  value_error : Failure

-- `hexdigest` signs a text with a key; `dumps` is the URL-safe Base64 text of an object as JSON, and
-- `loads` reads it back, with `none` for what is not such a text. `to_int` is `int` and `to_text` is
-- `str`; `sorted_set` sorts and drops repetitions.
pub record Library : Type 0 where
  pub hexdigest : (key : String) → (message : String) → String
  pub dumps : Dict Json → String
  pub loads : String → Option Json
  pub to_int : Json → Option ℤ
  pub to_text : Json → String
  pub sorted_set : List String → List String

abbrev pub is_ascii : String → Bool
is_ascii s = all_char (λ c. ltb c 128) s

-- `hmac.compare_digest` on texts
unfoldable pub compare_digest : String → String → Result Failure Bool
compare_digest a b = if is_ascii a && is_ascii b then ok (a == b) else err type_error

-- `casefold` on the letters that an HTTP header may hold
abbrev pub casefold : ℕ → ℕ
casefold c = if leb b'A' c && leb c b'Z' then c + 32 else c

unfoldable pub folds_to : String → String → Bool
folds_to String.[] String.[] = true
folds_to (String.◌∷◌ c s) (String.◌∷◌ d t) =
    nat_eq (casefold (Char.code c)) (Char.code d) && folds_to s t
folds_to _ _ = false

abbrev pub bearer_of : Option (String × String) → Option String
bearer_of none = none
bearer_of (some (scheme, token)) =
    if not (folds_to scheme "bearer") || token == "" then none else some token

-- `_bearer_value`
unfoldable pub bearer_value : String → Option String
unfolding partition folds_to
bearer_value authorization = bearer_of (partition b' ' authorization)

abbrev pub is_named : String → Option (String × String) → Option String
is_named name none = none
is_named name (some (key, value)) = if key == name then some value else none

unfoldable pub find_cookie : String → List String → Option String
unfolding partition strip
find_cookie name [] = none
find_cookie name (item ∷ items) =
    let rest = find_cookie name items in
    elim (is_named name (partition b'=' (strip item))) [ none ↦ rest | some v ↦ some v ]

-- `_cookie_value`
unfoldable pub cookie_value : String → String → Option String
unfolding find_cookie split
cookie_value header name = find_cookie name (split b';' header)

abbrev pub token_is : Option String → Option String → Bool
token_is (some expected) (some token) = not (expected == "") && token == expected
token_is _ _ = false

-- `_valid_static_bearer_token`
unfoldable pub valid_static_bearer_token : String → Settings → Bool
unfolding bearer_value
valid_static_bearer_token authorization settings =
    token_is settings.auth_api_token (bearer_value authorization)

-- `_optional_int`: `err tt` is the `ValueError`.
abbrev pub optional_int : Option Json → Result Unit (Option ℤ)
optional_int none = ok none
optional_int (some null) = ok none
optional_int (some (int n)) = ok (some n)
optional_int (some _) = err tt

-- `now > moment`
abbrev pub is_past : ℕ → Option ℤ → Bool
is_past now none = false
is_past now (some (pos n)) = ltb n now
is_past now (some (negsuc n)) = true

-- `0 <= now - issued_at <= max_age`
abbrev pub in_age : ℕ → ℕ → ℤ → Bool
in_age now max_age (pos issued_at) = leb issued_at now && leb (now - issued_at) max_age
in_age now max_age (negsuc n) = leb (now + suc n) max_age

-- `{"iat": now, **payload}`
unfoldable pub stamped : ℕ → Dict Json → Dict Json
unfolding lookup
stamped now payload = elim (lookup "iat" payload) [
  | none ↦ ("iat", int (pos now)) ∷ payload
  | some v ↦ payload
]

module _ (library : Library) (settings : Settings) where
  -- `_signature`
  unfoldable pub signature : String → Result Failure String
  signature payload = elim settings.auth_session_secret [
    | none ↦ err not_validated
    | some secret ↦ ok (library.hexdigest secret payload)
  ]

  -- `_encode_signed`
  unfoldable pub encode_signed : ℕ → Dict Json → Result Failure String
  unfolding signature stamped
  encode_signed now payload =
      let encoded = library.dumps (stamped now payload) in
      do signed ← signature encoded; ok (concat (encoded ∷ "." ∷ signed ∷ []))

  abbrev pub unexpired : ℕ → Dict Json → Result Unit (Option ℤ) → Option (Dict Json)
  unexpired now payload (err _) = none
  unexpired now payload (ok e) = if is_past now e then none else some payload

  abbrev pub issued : ℕ → ℕ → Dict Json → Option ℤ → Option (Dict Json)
  issued now max_age payload none = none
  issued now max_age payload (some issued_at) =
      if in_age now max_age issued_at
      then unexpired now payload (optional_int (lookup "expires_at" payload))
      else none

  abbrev pub iat : Dict Json → Option ℤ
  iat payload = elim (lookup "iat" payload) [ none ↦ none | some v ↦ library.to_int v ]

  -- A payload whose signature is right. Only an object has `payload["iat"]`.
  abbrev pub accepted : ℕ → ℕ → Option Json → Option (Dict Json)
  accepted now max_age (some (obj fields)) =
      issued now max_age (to_dict fields) (iat (to_dict fields))
  accepted now max_age _ = none

  unfoldable pub check_signed :
      ℕ → ℕ → Option (String × String) → Result Failure (Option (Dict Json))
  unfolding signature compare_digest to_dict lookup
  check_signed now max_age none = ok none
  check_signed now max_age (some (encoded, signed)) = do
    expected ← signature encoded
    valid ← compare_digest signed expected
    ok (if valid then accepted now max_age (library.loads encoded) else none)

  -- `_decode_signed`
  unfoldable pub decode_signed : ℕ → Option String → ℕ → Result Failure (Option (Dict Json))
  unfolding check_signed partition
  decode_signed now none max_age = ok none
  decode_signed now (some value) max_age = check_signed now max_age (partition b'.' value)
