-- ===== src/Inventory/Samples.antt =====
-- A sample inventory in three files: a stand, and two files with one device each.
use pytest_hardware_template.Prelude.{none, [], ◌∷◌, if◌then◌else◌, Dict, Result, ok}
use pytest_hardware_template.Paths.{FilePath, parse, path_eq}
use pytest_hardware_template.Inventory.{
  SshConnectionInventoryConfig, ConsoleSessionInventoryConfig, ssh, picocom_over_ssh, DeviceConfig,
  StandConfig, StandInventory, Inventory, InventoryError, Files,
}

abbrev pub connection : SshConnectionInventoryConfig
connection = record {
  host = "stand";
  port = 22;
  credentials = "default-ssh";
  host_key_policy = none;
}

abbrev pub console : ConsoleSessionInventoryConfig
console = record {
  prompt = "$ ";
  initial_prompt_suffix = "# ";
  login_prompt = "login:";
  password_prompt = "Password:";
  credentials = none;
}

abbrev pub board : DeviceConfig
board = record {
  type = "dut";
  model = "board";
  transport = picocom_over_ssh connection "/dev/ttyUSB0" 115200 console;
}

abbrev pub meter : DeviceConfig
meter = record { type = "analyzer"; model = "meter"; transport = ssh connection }

abbrev pub stand : StandConfig
stand = record {
  description = none;
  capabilities = [];
  devices = ("dut", "board-1") ∷ ("analyzer", "meter-1") ∷ ("spare", "board-1") ∷ [];
}

abbrev pub source : StandInventory
source = record {
  device_files = parse "boards.yaml" ∷ parse "meters.yaml" ∷ [];
  stands = ("stand-1", stand) ∷ [];
}

abbrev pub devices_of : FilePath → Result InventoryError (Dict DeviceConfig)
devices_of path = ok (
    if path_eq path (parse "inventory/boards.yaml")
    then ("board-1", board) ∷ []
    else ("meter-1", meter) ∷ [])

abbrev pub files : Files
files = record { stands = λ path. ok source; devices = devices_of }

abbrev pub inventory : Inventory
inventory = record {
  devices = ("board-1", board) ∷ ("meter-1", meter) ∷ [];
  stands = ("stand-1", stand) ∷ [];
}
