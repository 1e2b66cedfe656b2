-- ===== src/Stand/Injected.antt =====
-- src/hardware_test/transport/config.py, and the transports that factory/transport.py builds: what a device
-- object holds.
use pytest_hardware_template.Prelude.{ℕ, String, Option}
use pytest_hardware_template.Paths.{FilePath}
use pytest_hardware_template.Inventory.{SshHostKeyPolicy}

pub record SshConnectionConfig : Type 0 where
  pub host : String
  pub port : ℕ
  pub username : String
  pub password : String
  pub host_key_policy : SshHostKeyPolicy
  pub known_hosts_path : Option FilePath

pub record ConsoleSessionConfig : Type 0 where
  pub prompt : String
  pub initial_prompt_suffix : String
  pub login_prompt : String
  pub password_prompt : String
  pub username : Option String
  pub password : Option String

pub record Timeouts : Type 0 where
  pub connect_timeout : ℕ
  pub command_timeout : ℕ

-- The transports that are built, each within a `SynchronizedTransport`
pub data Transport : Type 0 where
  ssh_transport : SshConnectionConfig → Timeouts → Transport
  picocom_transport : SshConnectionConfig → String → ℕ → ConsoleSessionConfig → Timeouts → Transport
  pyserial_transport : String → ℕ → ConsoleSessionConfig → Timeouts → Transport
  pyserial_over_ssh_transport :
      SshConnectionConfig → String → ℕ → ConsoleSessionConfig → String → Timeouts → Transport
