-- ===== src/Factory/Transports.antt =====
-- src/hardware_test/factory/transport.py, with the credentials of settings/models.py: a transport by its configuration and the settings.
use pytest_hardware_template.Prelude.{
  ℕ, String, Option, none, some, ◌==◌, if◌then◌else◌, lookup, Dict, Result, ok, err, ◌>>=◌,
}
use pytest_hardware_template.Paths.{FilePath}
use pytest_hardware_template.Inventory.{
  SshHostKeyPolicy, SshConnectionInventoryConfig, ConsoleSessionInventoryConfig, TransportConfig,
  ssh, picocom_over_ssh, pyserial, pyserial_over_ssh,
}
use pytest_hardware_template.Stand.Injected.{
  SshConnectionConfig, ConsoleSessionConfig, Timeouts, Transport, ssh_transport, picocom_transport,
  pyserial_transport, pyserial_over_ssh_transport,
}

-- `SshCredentialSettings` and `ConsoleCredentialSettings`
pub record Credential : Type 0 where
  pub username : String
  pub password : String

pub record CredentialSettings : Type 0 where
  pub default_ssh : Option Credential
  pub analyzer_default : Option Credential
  pub generator_default : Option Credential
  pub ssh : Dict Credential
  pub console : Dict Credential

pub record Settings : Type 0 where
  pub credentials : CredentialSettings
  pub command_timeout : ℕ
  pub connect_timeout : ℕ
  pub ssh_host_key_policy : SshHostKeyPolicy
  pub ssh_known_hosts_path : Option FilePath
  pub serial_agent_command : String

-- `{...}.get(name)`, over the credentials that have fields of their own
abbrev pub built_in : CredentialSettings → String → Option Credential
built_in settings name =
    if name == "default-ssh"
    then settings.default_ssh
    else if name == "analyzer-default"
    then settings.analyzer_default
    else if name == "generator-default"
    then settings.generator_default
    else none

abbrev pub or_else : {A : Type 0} → Option A → Option A → Option A
or_else none o = o
or_else (some a) o = some a

-- `CredentialSettings.get_ssh`
unfoldable pub get_ssh : CredentialSettings → String → Option Credential
unfolding lookup
get_ssh settings name = or_else (built_in settings name) (lookup name settings.ssh)

-- `CredentialSettings.get_console`
unfoldable pub get_console : CredentialSettings → String → Option Credential
unfolding lookup
get_console settings name = lookup name settings.console

-- A `FactoryError`; `no_device` is the `KeyError` of a name that the inventory does not have.
pub data FactoryError : Type 0 where
  no_ssh_credentials : String → FactoryError
  no_console_credentials : String → FactoryError
  unsupported_device : String → FactoryError
  no_device : String → FactoryError

abbrev pub needed : {A : Type 0} → FactoryError → Option A → Result FactoryError A
needed error none = err error
needed error (some a) = ok a

abbrev pub policy_or : SshHostKeyPolicy → Option SshHostKeyPolicy → SshHostKeyPolicy
policy_or default none = default
policy_or default (some policy) = policy

module _ (settings : Settings) where
  abbrev pub timeouts : Timeouts
  timeouts = record {
    connect_timeout = settings.connect_timeout;
    command_timeout = settings.command_timeout;
  }

  -- `_create_ssh_config`
  unfoldable pub create_ssh_config :
      SshConnectionInventoryConfig → Result FactoryError SshConnectionConfig
  unfolding get_ssh
  create_ssh_config config = do
    credentials ←
        needed (no_ssh_credentials config.credentials)
          (get_ssh settings.credentials config.credentials)
    ok (record {
      host = config.host;
      port = config.port;
      username = credentials.username;
      password = credentials.password;
      host_key_policy = policy_or settings.ssh_host_key_policy config.host_key_policy;
      known_hosts_path = settings.ssh_known_hosts_path;
    })

  -- `_resolve_console_credentials`
  unfoldable pub resolve_console_credentials :
      Option String → Result FactoryError (Option Credential)
  unfolding get_console
  resolve_console_credentials none = ok none
  resolve_console_credentials (some reference) = do
    credentials ←
        needed (no_console_credentials reference) (get_console settings.credentials reference)
    ok (some credentials)

  abbrev pub field_of : (Credential → String) → Option Credential → Option String
  field_of f none = none
  field_of f (some c) = some (f c)

  -- `_create_console_config`
  unfoldable pub create_console_config :
      ConsoleSessionInventoryConfig → Result FactoryError ConsoleSessionConfig
  unfolding resolve_console_credentials
  create_console_config console = do
    credentials ← resolve_console_credentials console.credentials
    ok (record {
      prompt = console.prompt;
      initial_prompt_suffix = console.initial_prompt_suffix;
      login_prompt = console.login_prompt;
      password_prompt = console.password_prompt;
      username = field_of (λ c. c.username) credentials;
      password = field_of (λ c. c.password) credentials;
    })

  -- `create_transport`
  unfoldable pub create_transport : TransportConfig → Result FactoryError Transport
  unfolding create_ssh_config create_console_config
  create_transport (pyserial serial_device baudrate console) = do
    session ← create_console_config console
    ok (pyserial_transport serial_device baudrate session timeouts)
  create_transport (ssh config) = do
    connection ← create_ssh_config config
    ok (ssh_transport connection timeouts)
  create_transport (picocom_over_ssh config serial_device baudrate console) = do
    connection ← create_ssh_config config
    session ← create_console_config console
    ok (picocom_transport connection serial_device baudrate session timeouts)
  create_transport (pyserial_over_ssh config serial_device baudrate console) = do
    connection ← create_ssh_config config
    session ← create_console_config console
    ok (
        pyserial_over_ssh_transport connection serial_device baudrate session
          settings.serial_agent_command timeouts)
