-- ===== src/Runner/Docker/Policy.antt =====
-- What the image policy lets through, and what the argument lists tell `docker`.
use pytest_hardware_template.Prelude.{
  String, true, false, Option, none, some, [], ◌∷◌, ◌++◌, ◌≡◌, refl, ◌==◌, if◌then◌else◌, any,
  has_prefix, ok, arith, inl, inr, ◌⊎◌, sym, ok-injective, chain-ok,
}
use pytest_hardware_template.Paths.{FilePath}
use pytest_hardware_template.Runner.Settings.{Settings}
use pytest_hardware_template.Runner.Docker.{
  Command, image_reference_pattern, validate_remote_image, run_tests, pull_image, base_arguments,
  build_image, publish_allure, allure_arguments, reportportal_arguments,
}

pattern-no_option : (s : String) → image_reference_pattern s ≡ true → has_prefix s "-" ≡ false
unfolding image_reference_pattern has_prefix
pattern-no_option String.[] h = cc
pattern-no_option (String.◌∷◌ c s) h = ground arith

-- The reference is well formed and begins with a configured prefix.
abbrev pub IsAllowed : Settings → String → Type 0
IsAllowed settings reference =
    (image_reference_pattern reference ≡ true)
    × (any (λ p. has_prefix reference p) settings.allowed_image_prefixes ≡ true)

validate-IsAllowed :
    (settings : Settings) (reference : String)
    → validate_remote_image settings reference ≡ ok tt
    → IsAllowed settings reference
unfolding validate_remote_image
validate-IsAllowed settings reference h = ground arith

pull_image-IsAllowed :
    (settings : Settings) (image : String) {c : Command}
    → pull_image settings image ≡ ok c
    → IsAllowed settings image
unfolding pull_image
pull_image-IsAllowed settings image h =
    let (a, e, _) = chain-ok (validate_remote_image settings image) _ h in
    validate-IsAllowed settings image e

-- A command that is built for a run begins with the base arguments.
pub run_tests-base :
    (settings : Settings) (operation_id run_id image stand scenario : String) {c : Command}
    → run_tests settings operation_id run_id image stand scenario ≡ ok c
    → IsAllowed settings image
      × ((rest : Command) × (c ≡ base_arguments settings operation_id ++ rest))
unfolding run_tests
run_tests-base settings operation_id run_id image stand scenario h =
    let (a, e, k) = chain-ok (validate_remote_image settings image) _ h in
    let (b, e', k') = chain-ok (allure_arguments settings run_id) _ k in
    (validate-IsAllowed settings image e, (_, sym (ok-injective k')))

-- A reference that `pull_image` or `run_tests` accepts is well formed, begins with a configured
-- prefix, and never begins with a dash: `docker` cannot read it as an option.
pub accepted_image :
    (settings : Settings) (operation_id run_id image stand scenario : String) (c : Command)
    → (pull_image settings image ≡ ok c)
      ⊎ (run_tests settings operation_id run_id image stand scenario ≡ ok c)
    → IsAllowed settings image × (has_prefix image "-" ≡ false)
accepted_image settings operation_id run_id image stand scenario c (inl h) =
    let a = pull_image-IsAllowed settings image h in (a, pattern-no_option image a.0)
accepted_image settings operation_id run_id image stand scenario c (inr h) =
    let a = (run_tests-base settings operation_id run_id image stand scenario h).0 in
    (a, pattern-no_option image a.0)

-- The argument behind the first occurrence of a flag.
abbrev pub argument_after : String → Command → Option String
argument_after flag [] = none
argument_after flag (a ∷ []) = none
argument_after flag (a ∷ b ∷ c) = if a == flag then some b else argument_after flag (b ∷ c)

-- The settings with every secret replaced.
abbrev pub with_secrets :
    (password session token client allure portal : Option String) → Settings → Settings
with_secrets password session token client allure portal s = record s {
  auth_password = password;
  auth_session_secret = session;
  auth_api_token = token;
  oidc_client_secret = client;
  allure_access_token = allure;
  reportportal_api_key = portal;
}

-- No argument list depends on a secret: with every password, key and token replaced, the commands
-- for building, running and publishing are the same.
pub commands_ignore_secrets :
    (settings : Settings) (password session token client allure portal : Option String)
    (operation_id run_id image stand scenario : String) (run_directory : FilePath)
    → let other = with_secrets password session token client allure portal settings in
      (build_image other operation_id ≡ build_image settings operation_id)
      × (run_tests other operation_id run_id image stand scenario
          ≡ run_tests settings operation_id run_id image stand scenario)
      × (publish_allure other operation_id run_directory
          ≡ publish_allure settings operation_id run_directory)
unfolding build_image run_tests publish_allure reportportal_arguments
commands_ignore_secrets settings p s t c a r operation_id run_id image stand scenario dir =
    (refl, refl, refl)
