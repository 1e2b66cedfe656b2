-- ===== src/Runner/Validation/Guarantees.antt =====
-- What validated settings guarantee to the code that uses them.
use pytest_hardware_template.Prelude.{
  ℕ, String, Bool, true, false, Option, none, some, List, [], ◌∷◌, ◌++◌, ◌≡◌, ◌==◌, refl, ok, err,
  chain-ok, chain-err, is_some, arith, ◌≢◌, ◌⊎◌, inl, inr, All, elem, Dict,
}
use pytest_hardware_template.Paths.{
  FilePath, divide, is_absolute, has_dotdot, path_eq, parts_eq, parse,
}
use pytest_hardware_template.Agent.Protocol.{Json}
use pytest_hardware_template.Runner.Auth.Signed.{
  not_validated, Library, compare_digest, signature, encode_signed, check_signed, decode_signed,
}
use pytest_hardware_template.Runner.Auth.Routes.{session_cookie_for}
use pytest_hardware_template.Runner.Auth.Login.{
  LoginRequest, credentials_match, logged_in, login_by, login,
}
use pytest_hardware_template.Runner.Settings.{Settings, AuthMode}
use pytest_hardware_template.Runner.Docker.{
  CommandError, run_tests, publish_allure, validate_remote_image, allure_arguments,
}
use pytest_hardware_template.Runner.Validation.{
  validate, validate_allure_settings, validate_authentication_settings,
  validate_reportportal_settings, validate_mode, validate_keycloak, field_errors, no_errors,
  missing, validate_report_path, is_descendant,
}

-- The checks that have passed.
pub record Passed (s : Settings) : Type 0 where
  pub fields : field_errors s ≡ []
  pub authentication : validate_authentication_settings s ≡ ok tt
  pub allure : validate_allure_settings s ≡ ok tt
  pub reportportal : validate_reportportal_settings s ≡ ok tt

no_errors-nil : (es : List String) → no_errors es ≡ ok tt → es ≡ []
no_errors-nil [] h = refl
no_errors-nil (e ∷ es) h = cc

validate-Passed : (s : Settings) → validate s ≡ ok tt → Passed s
unfolding validate
validate-Passed s h =
    let (a, p, k) = chain-ok (no_errors (field_errors s)) _ h in
    let (b, q, l) = chain-ok (validate_authentication_settings s) _ k in
    let (c, r, m) = chain-ok (validate_allure_settings s) _ l in
    record { fields = no_errors-nil _ p; authentication = q; allure = r; reportportal = m }

results_path :
    (s : Settings)
    → validate s ≡ ok tt
    → s.allure_enabled ≡ true
    → is_some s.allure_results_path ≡ true
unfolding validate_allure_settings missing
results_path s h e = let p = (validate-Passed s h).allure in ground arith

-- With validated settings, building a command for a run fails for the image reference alone.
pub validate-run_tests :
    (s : Settings) (operation_id run_id image stand scenario : String) (e : CommandError)
    → validate s ≡ ok tt
    → run_tests s operation_id run_id image stand scenario ≡ err e
    → validate_remote_image s image ≡ err e
unfolding run_tests allure_arguments
validate-run_tests s operation_id run_id image stand scenario e h r =
    let p = results_path s h in ground arith

-- With validated settings, the command that publishes Allure results is built whenever publishing is
-- enabled.
pub validate-publish_allure :
    (s : Settings) (operation_id : String) (run_directory : FilePath) (e : CommandError)
    → validate s ≡ ok tt
    → s.allure_enabled ≡ true
    → publish_allure s operation_id run_directory ≢ err e
unfolding publish_allure
validate-publish_allure s operation_id run_directory e h a =
    let p = results_path s h in λ b. ground arith

-- The path leads below any directory that it is joined to: its parts follow those of the directory,
-- there is one at least, and none is `..`.
abbrev pub LeadsBelow : FilePath → Type 0
LeadsBelow p =
    ((directory : FilePath)
      → divide directory p ≡ record { root = directory.root; parts = directory.parts ++ p.parts })
    × (p.parts ≢ [])
    × All (λ part. (".." == part) ≡ false) p.parts

elem-All :
    (parts : List String) → elem ".." parts ≡ false → All (λ part. (".." == part) ≡ false) parts
elem-All [] h = tt
elem-All (part ∷ parts) h = (ground arith, elem-All parts (ground arith))

divide-relative :
    (directory p : FilePath)
    → (p.root == "") ≡ true
    → divide directory p ≡ record { root = directory.root; parts = directory.parts ++ p.parts }
unfolding divide
divide-relative directory p h = rw h refl

is_descendant-LeadsBelow : (p : FilePath) → is_descendant p ≡ true → LeadsBelow p
unfolding is_descendant is_absolute has_dotdot path_eq parts_eq parse
is_descendant-LeadsBelow p h =
    let relative : (p.root == "") ≡ true = ground arith in
    (
      λ directory. divide-relative directory p relative,
      λ e. absurd (ground arith),
      elem-All p.parts (ground arith),
    )

validate-is_descendant :
    (s : Settings) (p : FilePath)
    → validate s ≡ ok tt
    → (s.pytest_log_path ≡ some p)
      ⊎ (s.junit_path ≡ some p)
      ⊎ (s.html_path ≡ some p)
      ⊎ (s.allure_results_path ≡ some p)
    → is_descendant p ≡ true
unfolding field_errors validate_report_path
validate-is_descendant s p h c = let f = (validate-Passed s h).fields in ground arith

-- With validated settings, each report path that is set leads below any directory that it is joined
-- to: the parts of the joined path are those of the directory and then one or more parts of which none
-- is `..`.
pub validate-report_paths :
    (s : Settings) (p : FilePath)
    → validate s ≡ ok tt
    → (s.pytest_log_path ≡ some p)
      ⊎ (s.junit_path ≡ some p)
      ⊎ (s.html_path ≡ some p)
      ⊎ (s.allure_results_path ≡ some p)
    → LeadsBelow p
validate-report_paths s p h c = is_descendant-LeadsBelow p (validate-is_descendant s p h c)

-- The values that a mode with a login needs.
abbrev pub HasSecret : Settings → Type 0
HasSecret s = is_some s.auth_session_secret ≡ true

validate-HasSecret :
    (s : Settings) → validate s ≡ ok tt → s.auth_mode ≢ AuthMode.disabled → HasSecret s
unfolding validate_authentication_settings validate_mode validate_keycloak missing
validate-HasSecret s h n = let p = (validate-Passed s h).authentication in ground arith

validate-account :
    (s : Settings)
    → validate s ≡ ok tt
    → s.auth_mode ≡ AuthMode.local
    → (is_some s.auth_username ≡ true) × (is_some s.auth_password ≡ true)
unfolding validate_authentication_settings validate_mode missing
validate-account s h m =
    let p = (validate-Passed s h).authentication in (ground arith, ground arith)

module _ (library : Library) (s : Settings) (now : ℕ) where
  encode_signed-validated :
      (payload : Dict Json) → HasSecret s → encode_signed library s now payload ≢ err not_validated
  unfolding encode_signed signature
  encode_signed-validated payload h k = ground arith

  decode_signed-validated :
      (value : Option String) (max_age : ℕ)
      → HasSecret s
      → decode_signed library s now value max_age ≢ err not_validated
  unfolding decode_signed check_signed signature compare_digest
  decode_signed-validated none max_age h k = cc
  decode_signed-validated (some value) max_age h k = ground arith

  credentials_match-validated :
      (request : LoginRequest)
      → is_some s.auth_username ≡ true
      → is_some s.auth_password ≡ true
      → credentials_match request s ≢ err not_validated
  unfolding credentials_match compare_digest
  credentials_match-validated request h k l = ground arith

  logged_in-validated :
      (request : LoginRequest) (matched : Bool)
      → HasSecret s
      → logged_in library s now request matched ≢ err not_validated
  unfolding session_cookie_for encode_signed signature
  logged_in-validated request false h k = cc
  logged_in-validated request true h k = ground arith

  login_by-validated :
      (request : LoginRequest) (mode : AuthMode)
      → validate s ≡ ok tt
      → s.auth_mode ≡ mode
      → s.auth_mode ≢ AuthMode.disabled
      → login_by library s now mode request ≢ err not_validated
  login_by-validated request AuthMode.disabled h m n k = cc
  login_by-validated request AuthMode.keycloak h m n k = cc
  login_by-validated request AuthMode.keycloak_ui_local_api h m n k = cc
  login_by-validated request AuthMode.local h m n k =
      let (name, password) = validate-account s h m in
      elim (chain-err (credentials_match request s) _ k) [
        | inl e ↦ credentials_match-validated request name password e
        | inr (matched, _, e) ↦ logged_in-validated request matched (validate-HasSecret s h n) e
      ]

  -- With validated settings, in every mode with a login, the error for settings that were not
  -- validated never comes from signing a value, from reading a signed value back, or from the login
  -- with a password.
  pub validate-session_secret :
      (payload : Dict Json) (value : Option String) (max_age : ℕ) (request : LoginRequest)
      → validate s ≡ ok tt
      → s.auth_mode ≢ AuthMode.disabled
      → (encode_signed library s now payload ≢ err not_validated)
        × (decode_signed library s now value max_age ≢ err not_validated)
        × (login library s now request ≢ err not_validated)
  unfolding login
  validate-session_secret payload value max_age request h n = (
    encode_signed-validated payload (validate-HasSecret s h n),
    decode_signed-validated value max_age (validate-HasSecret s h n),
    login_by-validated request s.auth_mode h refl n,
  )
