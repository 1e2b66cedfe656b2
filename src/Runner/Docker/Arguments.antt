-- ===== src/Runner/Docker/Arguments.antt =====
-- helpers/test-runner-service/src/test_runner_service/docker_commands.py: the parts of the argument list
-- of a test run.
use pytest_hardware_template.Prelude.{
  String, Option, none, some, List, [], ◌∷◌, ◌++◌, if◌then◌else◌, concat, Result, ok, err,
}
use pytest_hardware_template.Paths.{path_str, parent, name, divide, parse}
use pytest_hardware_template.Runner.Settings.{Settings}

pub data CommandError : Type 0 where
  invalid_image_reference : String → CommandError
  runtime_error : String → CommandError

abbrev pub Command : Type 0
Command = List String

unfoldable pub run_container_name : String → String
unfolding concat
run_container_name operation_id = concat ("hardware-test-run-" ∷ operation_id ∷ [])

unfoldable pub base_arguments : Settings → String → Command
unfolding run_container_name
base_arguments settings operation_id =
    "docker"
    ∷ "run"
    ∷ "--rm"
    ∷ "--name"
    ∷ run_container_name operation_id
    ∷ "--label"
    ∷ concat ("test-runner.operation-id=" ∷ operation_id ∷ [])
    ∷ "--pull"
    ∷ "never"
    ∷ "--env"
    ∷ "AGENT_NO_ANALYTICS=1"
    ∷ "--volume"
    ∷ concat (path_str (parent settings.inventory_file) ∷ ":/runtime/inventory:ro" ∷ [])
    ∷ "--volume"
    ∷ concat (path_str settings.artifacts_directory ∷ ":/app/artifacts" ∷ [])
    ∷ []

-- `if x is not None: arguments.extend(...)`
unfoldable pub for_option {ℓ} : {A : Type ℓ} → Option A → (A → Command) → Command
for_option none f = []
for_option (some a) f = f a

unfoldable pub device_arguments : List String → Command
device_arguments [] = []
device_arguments (d ∷ ds) = "--device" ∷ d ∷ device_arguments ds

unfoldable pub optional_arguments : Settings → Command
unfolding for_option device_arguments
optional_arguments settings =
    for_option settings.env_file (λ f. "--env-file" ∷ path_str f ∷ [])
    ++ for_option settings.known_hosts_file
        (λ f. "--volume" ∷ concat (path_str f ∷ ":/root/.ssh/known_hosts:ro" ∷ []) ∷ [])
    ++ for_option settings.docker_network (λ n. "--network" ∷ n ∷ [])
    ++ device_arguments settings.docker_devices
    ++ (if settings.reportportal_enabled then "--env" ∷ "RP_API_KEY" ∷ [] else [])

unfoldable pub pytest_arguments : Settings → (run_id image stand scenario : String) → Command
pytest_arguments settings run_id image stand scenario =
    image
    ∷ "uv"
    ∷ "run"
    ∷ "pytest"
    ∷ "tests/hardware"
    ∷ "--run-id"
    ∷ run_id
    ∷ "--artifacts-root"
    ∷ "/app/artifacts"
    ∷ "--scenario"
    ∷ scenario
    ∷ "--inventory"
    ∷ concat ("/runtime/inventory/" ∷ name settings.inventory_file ∷ [])
    ∷ "--stand"
    ∷ stand
    ∷ []

unfoldable pub allure_arguments : Settings → String → Result CommandError Command
allure_arguments settings run_id =
    if settings.allure_enabled
    then elim settings.allure_results_path [
      | none ↦ err (runtime_error "Allure results path is unavailable")
      | some results ↦ ok (
          "--alluredir"
          ∷ path_str (divide (divide (parse "/app/artifacts") (parse run_id)) results)
          ∷ [])
    ]
    else ok []

-- `str(None)` is "None"
unfoldable pub endpoint_text : Settings → String
endpoint_text settings = elim settings.reportportal_endpoint [ none ↦ "None" | some u ↦ u.text ]

unfoldable pub reportportal_arguments :
    Settings → (operation_id image stand scenario : String) → Command
unfolding endpoint_text
reportportal_arguments settings operation_id image stand scenario =
    if settings.reportportal_enabled
    then "--reportportal"
      ∷ "--rp-endpoint"
      ∷ endpoint_text settings
      ∷ "--rp-project"
      ∷ settings.reportportal_project
      ∷ "--rp-launch"
      ∷ operation_id
      ∷ "--rp-launch-description"
      ∷ concat ("stand=" ∷ stand ∷ "; scenario=" ∷ scenario ∷ "; image=" ∷ image ∷ [])
      ∷ "--mute-logger"
      ∷ "pytest_reportportal.service"
      ∷ "-o"
      ∷ "rp_log_level=INFO"
      ∷ "-o"
      ∷ "rp_client_type=SYNC"
      ∷ "-o"
      ∷ "rp_connect_timeout=5"
      ∷ "-o"
      ∷ "rp_read_timeout=10"
      ∷ "-o"
      ∷ "rp_api_retries=0"
      ∷ "-o"
      ∷ concat (
          "rp_launch_attributes=stand:" ∷ stand ∷ " scenario:" ∷ scenario ∷ " operation:"
          ∷ operation_id ∷ [])
      ∷ []
    else []
