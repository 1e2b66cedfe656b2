-- ===== src/Runner/Docker.antt =====
-- helpers/test-runner-service/src/test_runner_service/docker_commands.py: the policy on image
-- references and the argument lists that are handed to `docker`.
mod Arguments
pub mod Policy
use pytest_hardware_template.Prelude.{
  ℕ, String, Bool, true, false, Option, none, some, List, [], ◌∷◌, ◌++◌, ◌||◌, ◌==◌, if◌then◌else◌,
  any, concat, join, has_prefix, matches_class, is_ascii_letter, is_ascii_digit, nat_eq, Result, ok,
  err, ◌>>=◌, ◌>>◌, guard, not,
}
use pytest_hardware_template.Paths.{FilePath, path_str, parent, name, divide, parse}
use pytest_hardware_template.Runner.Settings.{Settings}
unfoldable pub use Arguments.*

-- `[A-Za-z0-9]`, then `[A-Za-z0-9._/:@+-]*`
abbrev pub reference_start : ℕ → Bool
reference_start c = is_ascii_letter c || is_ascii_digit c

abbrev pub reference_rest : ℕ → Bool
reference_rest c =
    is_ascii_letter c
    || is_ascii_digit c
    || nat_eq c b'.'
    || nat_eq c b'_'
    || nat_eq c b'/'
    || nat_eq c b':'
    || nat_eq c b'@'
    || nat_eq c b'+'
    || nat_eq c b'-'

unfoldable pub image_reference_pattern : String → Bool
unfolding matches_class
image_reference_pattern s = matches_class reference_start reference_rest s

unfoldable pub validate_remote_image : Settings → String → Result CommandError Unit
validate_remote_image settings reference = do
  guard (image_reference_pattern reference) (invalid_image_reference "invalid image reference")
  guard (any (λ p. has_prefix reference p) settings.allowed_image_prefixes)
      (invalid_image_reference "image reference is not allowed")

unfoldable pub build_image : Settings → String → Command
build_image settings operation_id =
    ("docker"
      ∷ "build"
      ∷ "--file"
      ∷ path_str settings.framework_dockerfile
      ∷ "--tag"
      ∷ concat ("local/hardware-tests:" ∷ operation_id ∷ [])
      ∷ [])
    ++ (if settings.allure_enabled then "--build-arg" ∷ "INSTALL_ALLURE=true" ∷ [] else [])
    ++ (if settings.reportportal_enabled
        then "--build-arg" ∷ "INSTALL_REPORTPORTAL=true" ∷ []
        else [])
    ++ path_str settings.framework_source ∷ []

unfoldable pub pull_image : Settings → String → Result CommandError Command
unfolding validate_remote_image
pull_image settings reference = do
  validate_remote_image settings reference
  ok ("docker" ∷ "pull" ∷ reference ∷ [])

unfoldable pub inspect_image : String → Command
inspect_image reference = "docker" ∷ "image" ∷ "inspect" ∷ "--format" ∷ "{{.Id}}" ∷ reference ∷ []

unfoldable pub run_tests :
    Settings → (operation_id run_id image stand scenario : String) → Result CommandError Command
unfolding validate_remote_image base_arguments optional_arguments pytest_arguments allure_arguments
run_tests settings operation_id run_id image stand scenario = do
  validate_remote_image settings image
  allure ← allure_arguments settings run_id
  ok (
      base_arguments settings operation_id
      ++ optional_arguments settings
      ++ pytest_arguments settings run_id image stand scenario
      ++ allure
      ++ reportportal_arguments settings operation_id image stand scenario)

unfoldable pub publish_allure : Settings → String → FilePath → Result CommandError Command
publish_allure settings operation_id run_directory = elim settings.allure_results_path [
  | none ↦ err (runtime_error "Allure results path is unavailable")
  | some results ↦
      let repository = concat ("/workspace/" ∷ settings.allure_repository ∷ []) in
      ok (
        "docker"
        ∷ "run"
        ∷ "--rm"
        ∷ "--name"
        ∷ concat ("allure-publish-" ∷ operation_id ∷ [])
        ∷ "--env"
        ∷ "ALLURE_ACCESS_TOKEN"
        ∷ "--env"
        ∷ "GIT_CONFIG_COUNT=1"
        ∷ "--env"
        ∷ "GIT_CONFIG_KEY_0=safe.directory"
        ∷ "--env"
        ∷ concat ("GIT_CONFIG_VALUE_0=" ∷ repository ∷ [])
        ∷ "--volume"
        ∷ concat (path_str settings.framework_source ∷ ":" ∷ repository ∷ ":ro" ∷ [])
        ∷ "--volume"
        ∷ concat (path_str (divide run_directory results) ∷ ":/results:ro" ∷ [])
        ∷ "--workdir"
        ∷ repository
        ∷ settings.allure_publisher_image
        ∷ "generate"
        ∷ "/results"
        ∷ "--config"
        ∷ "/opt/allure/allurerc.mjs"
        ∷ [])
]

unfoldable pub stop_container : String → Command
unfolding concat
stop_container operation_id =
    "docker" ∷ "stop" ∷ concat ("hardware-test-run-" ∷ operation_id ∷ []) ∷ []

unfoldable pub local_build_reference : String → String
local_build_reference operation_id = concat ("local/hardware-tests:" ∷ operation_id ∷ [])

-- The named paths that do not exist.
unfoldable pub absent : (FilePath → Bool) → List (String × FilePath) → List String
absent exists [] = []
absent exists ((label, path) ∷ rest) =
    let others = absent exists rest in
    if exists path then others else concat (label ∷ ": " ∷ path_str path ∷ []) ∷ others

unfoldable pub validate_required_paths : (FilePath → Bool) → Settings → Result CommandError Unit
unfolding absent join concat
validate_required_paths exists settings =
    elim (absent exists (
      ("framework source", settings.framework_source)
      ∷ ("framework Dockerfile", settings.framework_dockerfile)
      ∷ ("inventory file", settings.inventory_file)
      ∷ ("artifacts directory", settings.artifacts_directory)
      ∷ [])) [
        | [] ↦ ok tt
        | m ∷ ms ↦ err (
            runtime_error
              (concat ("required runtime paths do not exist: " ∷ join ", " (m ∷ ms) ∷ [])))
      ]
