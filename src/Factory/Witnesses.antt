-- ===== src/Factory/Witnesses.antt =====
-- The theorems on the composition of stands, for a sample stand with a device in two roles.
use pytest_hardware_template.Prelude.{some, none, [], ◌∷◌, ◌≡◌, ◌≢◌, refl, ok, err}
use pytest_hardware_template.Paths.{parse}
use pytest_hardware_template.Stand.{Device, DeviceType, TestStand}
use pytest_hardware_template.Stand.Injected.{
  SshConnectionConfig, ConsoleSessionConfig, Timeouts, picocom_transport, ssh_transport,
}
use pytest_hardware_template.Inventory.{reject, load_inventory, validate_devices, get_stand}
use pytest_hardware_template.Inventory.Samples.{files, inventory, stand}
use pytest_hardware_template.Factory.{
  Credential, Settings, no_device, Composed, create_composed, create_stand,
}
use pytest_hardware_template.Factory.Composition.{no_objects, IsComposed, create_stand-IsComposed}
use pytest_hardware_template.Factory.Complete.{load_inventory-create_stand}

abbrev account : Credential
account = record { username = "user"; password = "secret" }

abbrev settings : Settings
settings = record {
  credentials = record {
    default_ssh = some account;
    analyzer_default = none;
    generator_default = none;
    ssh = [];
    console = [];
  };
  command_timeout = 30000;
  connect_timeout = 10000;
  ssh_host_key_policy = reject;
  ssh_known_hosts_path = none;
  serial_agent_command = "hardware-serial-helper";
}

abbrev times : Timeouts
times = record { connect_timeout = 10000; command_timeout = 30000 }

abbrev host : SshConnectionConfig
host = record {
  host = "stand";
  port = 22;
  username = "user";
  password = "secret";
  host_key_policy = reject;
  known_hosts_path = none;
}

abbrev session : ConsoleSessionConfig
session = record {
  prompt = "$ ";
  initial_prompt_suffix = "# ";
  login_prompt = "login:";
  password_prompt = "Password:";
  username = none;
  password = none;
}

abbrev board : Device
board = record {
  identity = 0;
  class = DeviceType.dut;
  transport = picocom_transport host "/dev/ttyUSB0" 115200 session times;
  model = "board";
}

abbrev meter : Device
meter = record {
  identity = 1;
  class = DeviceType.analyzer;
  transport = ssh_transport host times;
  model = "meter";
}

abbrev created : TestStand
created = record { devices = ("dut", board) ∷ ("analyzer", meter) ∷ ("spare", board) ∷ [] }

create_stand-IsComposed_example :
    (composed : Composed) × (create_composed inventory settings stand ≡ ok composed)
    × (created.devices ≡ composed.by_role)
    × IsComposed inventory settings stand.devices (no_objects inventory settings) composed
unfolding create_stand
create_stand-IsComposed_example = create_stand-IsComposed inventory settings stand created refl

load_inventory-create_stand_example :
    create_stand inventory settings stand ≢ err (no_device "board-1")
unfolding load_inventory validate_devices get_stand
load_inventory-create_stand_example =
    load_inventory-create_stand files (parse "inventory/stands.yaml") inventory "stand-1" stand
      settings "board-1" refl refl
