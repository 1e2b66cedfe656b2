-- ===== src/Inventory.antt =====
-- src/hardware_test/inventory (models.py and loader.py), with the policy of models/ssh.py: the
-- description of stands and devices, its validation, and its loading from several files. YAML and the
-- shapes that pydantic reads are parameters: a source gives its fields, or the error of reading it.
pub mod Sources
pub mod Samples
mod Witnesses
use pytest_hardware_template.Prelude.{
  ℕ, ◌+◌, String, Bool, true, false, Option, none, some, List, [], ◌∷◌, ◌++◌, ◌&&◌, ◌||◌, not, ◌==◌,
  if◌then◌else◌, is_some, leb, any_char, is_control, any, concat, lookup, keys, Dict, Result, ok,
  err, guard, ◌>>=◌, ◌>>◌,
}
use pytest_hardware_template.Paths.{
  FilePath, parse, is_absolute, path_eq, is_relative_to, has_dotdot, divide, parent,
}

pub data SshHostKeyPolicy : Type 0 where
  reject accept_new warn : SshHostKeyPolicy

pub record SshConnectionInventoryConfig : Type 0 where
  pub host : String
  pub port : ℕ
  pub credentials : String
  pub host_key_policy : Option SshHostKeyPolicy

pub record ConsoleSessionInventoryConfig : Type 0 where
  pub prompt : String
  pub initial_prompt_suffix : String
  pub login_prompt : String
  pub password_prompt : String
  pub credentials : Option String

-- The transports, by their `type`
pub data TransportConfig : Type 0 where
  ssh : SshConnectionInventoryConfig → TransportConfig
  picocom_over_ssh :
      SshConnectionInventoryConfig
      → (serial_device : String) → (baudrate : ℕ) → ConsoleSessionInventoryConfig
      → TransportConfig
  pyserial :
      (serial_device : String) → (baudrate : ℕ) → ConsoleSessionInventoryConfig → TransportConfig
  pyserial_over_ssh :
      SshConnectionInventoryConfig
      → (serial_device : String) → (baudrate : ℕ) → ConsoleSessionInventoryConfig
      → TransportConfig

pub record DeviceConfig : Type 0 where
  pub type : String
  pub model : String
  pub transport : TransportConfig

pub record StandConfig : Type 0 where
  pub description : Option String
  pub capabilities : List String
  pub devices : Dict String

pub record StandInventory : Type 0 where
  pub device_files : List FilePath
  pub stands : Dict StandConfig

pub record Inventory : Type 0 where
  pub devices : Dict DeviceConfig
  pub stands : Dict StandConfig

-- The messages of an `InventoryError`, those of pydantic among them.
pub data InventoryError : Type 0 where
  cannot_read : FilePath → InventoryError
  invalid : String → InventoryError
  duplicate_devices : List String → InventoryError
  unknown_references : List String → InventoryError

-- `ConsoleSessionInventoryConfig.validate_console_marker`, with `min_length=1`
unfoldable pub validate_console_marker : String → Result InventoryError String
unfolding any_char
validate_console_marker value =
    if value == ""
    then err (invalid "String should have at least 1 character")
    else if any_char is_control value
    then err (invalid "prompt must not contain control characters")
    else ok value

unfoldable pub validate_console :
    ConsoleSessionInventoryConfig → Result InventoryError ConsoleSessionInventoryConfig
unfolding validate_console_marker
validate_console console = do
  prompt ← validate_console_marker console.prompt
  suffix ← validate_console_marker console.initial_prompt_suffix
  login ← validate_console_marker console.login_prompt
  password ← validate_console_marker console.password_prompt
  ok console

-- `PicocomOverSshTransportConfig.validate_serial_device`
unfoldable pub validate_serial_device : String → Result InventoryError String
unfolding any_char parse is_absolute path_eq is_relative_to has_dotdot
validate_serial_device value =
    let path = parse value in
    if any_char is_control value
    then err (invalid "serial_device must not contain control characters")
    else if not (is_absolute path)
        || path_eq path (parse "/dev")
        || not (is_relative_to path (parse "/dev"))
        || has_dotdot path
    then err (invalid "serial_device must be an absolute path below /dev")
    else ok value

-- `Field(ge=1, le=65535)` of a port, and `Field(gt=0)` of a rate
abbrev pub in_range : Bool → Result InventoryError Unit
in_range test = guard test (invalid "out of range")

unfoldable pub validate_ssh : SshConnectionInventoryConfig → Result InventoryError Unit
validate_ssh config = in_range (leb 1 config.port && leb config.port 65535)

unfoldable pub validate_serial :
    (serial_device : String)
    → (baudrate : ℕ) → ConsoleSessionInventoryConfig
    → Result InventoryError Unit
unfolding validate_serial_device validate_console
validate_serial serial_device baudrate console = do
  device ← validate_serial_device serial_device
  rate ← in_range (leb 1 baudrate)
  session ← validate_console console
  ok tt

unfoldable pub validate_transport : TransportConfig → Result InventoryError Unit
unfolding validate_ssh validate_serial
validate_transport (ssh config) = validate_ssh config
validate_transport (picocom_over_ssh config serial_device baudrate console) =
    validate_ssh config >> validate_serial serial_device baudrate console
validate_transport (pyserial serial_device baudrate console) =
    validate_serial serial_device baudrate console
validate_transport (pyserial_over_ssh config serial_device baudrate console) =
    validate_ssh config >> validate_serial serial_device baudrate console

unfoldable pub validate_devices : Dict DeviceConfig → Result InventoryError Unit
unfolding validate_transport
validate_devices [] = ok tt
validate_devices ((name, config) ∷ devices) =
    validate_transport config.transport >> validate_devices devices

-- The references of a stand's roles that name no device
unfoldable pub missing_of : String → Dict DeviceConfig → Dict String → List String
unfolding concat lookup
missing_of stand_name devices [] = []
missing_of stand_name devices ((role, device_name) ∷ roles) =
    let rest = missing_of stand_name devices roles in
    if is_some (lookup device_name devices)
    then rest
    else concat (stand_name ∷ "." ∷ role ∷ " -> " ∷ device_name ∷ []) ∷ rest

unfoldable pub missing_references : Dict DeviceConfig → Dict StandConfig → List String
unfolding missing_of
missing_references devices [] = []
missing_references devices ((name, stand) ∷ stands) =
    missing_of name devices stand.devices ++ missing_references devices stands

abbrev pub none_missing : Inventory → List String → Result InventoryError Inventory
none_missing inventory [] = ok inventory
none_missing inventory (m ∷ ms) = err (unknown_references (m ∷ ms))

-- `Inventory.validate_device_references`
unfoldable pub validate_device_references : Inventory → Result InventoryError Inventory
unfolding missing_references
validate_device_references inventory =
    none_missing inventory (missing_references inventory.devices inventory.stands)

-- What the files hold: the stands of a path, and the devices of a path, validated for their shape.
pub record Files : Type 0 where
  pub stands : FilePath → Result InventoryError StandInventory
  pub devices : FilePath → Result InventoryError (Dict DeviceConfig)

-- `devices.keys() & others.keys()`
unfoldable pub common : Dict DeviceConfig → List String → List String
unfolding lookup
common devices [] = []
common devices (name ∷ names) =
    let rest = common devices names in if is_some (lookup name devices) then name ∷ rest else rest

abbrev pub no_duplicates : List String → Result InventoryError Unit
no_duplicates [] = ok tt
no_duplicates (d ∷ ds) = err (duplicate_devices (d ∷ ds))

-- The devices of one more file: `devices.update(others)`, where no name is in both
unfoldable pub add_devices :
    Dict DeviceConfig → Dict DeviceConfig → Result InventoryError (Dict DeviceConfig)
unfolding common keys validate_devices
add_devices devices others = do
  checked ← validate_devices others
  fresh ← no_duplicates (common devices (keys others))
  ok (devices ++ others)

module _ (files : Files) where
  unfoldable pub load_devices :
      FilePath → List FilePath → Dict DeviceConfig → Result InventoryError (Dict DeviceConfig)
  unfolding add_devices divide
  load_devices folder [] devices = ok devices
  load_devices folder (path ∷ paths) devices = files.devices (divide folder path) >>= λ others.
      add_devices devices others >>= λ all_devices. load_devices folder paths all_devices

  -- `device_files: list[Path] = Field(min_length=1)`
  abbrev pub some_files : List FilePath → Result InventoryError Unit
  some_files [] = err (invalid "List should have at least 1 item")
  some_files (p ∷ ps) = ok tt

  -- `_load_inventory`
  unfoldable pub load_inventory : FilePath → Result InventoryError Inventory
  unfolding load_devices validate_device_references parent
  load_inventory path = do
    stand_inventory ← files.stands path
    given ← some_files stand_inventory.device_files
    devices ← load_devices (parent path) stand_inventory.device_files []
    validate_device_references (record { devices = devices; stands = stand_inventory.stands })

pub data UnknownStandError : Type 0 where
  unknown_stand : (stand_name : String) → (available : List String) → UnknownStandError

-- `get_stand`
unfoldable pub get_stand : Inventory → String → Result UnknownStandError StandConfig
unfolding lookup keys
get_stand inventory stand_name = elim (lookup stand_name inventory.stands) [
  | some config ↦ ok config
  | none ↦ err (unknown_stand stand_name (keys inventory.stands))
]
