-- ===== src/Factory.antt =====
-- src/hardware_test/factory (devices.py, stand.py, transport.py), the credentials of
-- settings/models.py and the values of transport/config.py: from an inventory to the devices of a
-- stand. Building a transport does not connect it. Durations are in milliseconds and are passed on.
mod Transports
pub mod Physical
pub mod Composition
pub mod Complete
mod Witnesses
use pytest_hardware_template.Prelude.{
  ℕ, String, Bool, true, false, Option, none, some, List, [], ◌∷◌, ◌==◌, if◌then◌else◌, length,
  lookup, insert, Dict, Result, ok, err, ◌>>=◌,
}
use pytest_hardware_template.Paths.{FilePath}
use pytest_hardware_template.Stand.{Device, DeviceType, dut, analyzer, generator, TestStand}
use pytest_hardware_template.Stand.Injected.{Transport}
use pytest_hardware_template.Inventory.{
  SshHostKeyPolicy, SshConnectionInventoryConfig, ConsoleSessionInventoryConfig, TransportConfig,
  ssh, picocom_over_ssh, pyserial, pyserial_over_ssh, DeviceConfig, StandConfig, Inventory,
}
unfoldable pub use Transports.*

-- `_DEVICE_TYPES`
unfoldable pub device_type : String → Result FactoryError DeviceType
device_type name =
    if name == "dut"
    then ok dut
    else if name == "analyzer"
    then ok analyzer
    else if name == "generator"
    then ok generator
    else err (unsupported_device name)

-- `create_device`, with the identity of the new object
unfoldable pub create_device : ℕ → DeviceConfig → Transport → Result FactoryError Device
unfolding device_type
create_device identity config transport = do
  class ← device_type config.type
  ok (record { identity = identity; class = class; transport = transport; model = config.model })

-- `physical_devices` and `devices_by_role`
pub record Composed : Type 0 where
  pub physical : Dict Device
  pub by_role : Dict Device

module _ (inventory : Inventory) (settings : Settings) where
  unfoldable pub build : (identity : ℕ) → (device_name : String) → Result FactoryError Device
  unfolding create_transport create_device lookup
  build identity device_name = do
    config ← needed (no_device device_name) (lookup device_name inventory.devices)
    transport ← create_transport settings config.transport
    create_device identity config transport

  abbrev pub with_device : String → Device → Composed → Composed
  with_device role e composed = record composed { by_role = insert role e composed.by_role }

  abbrev pub with_new_device : String → String → Device → Composed → Composed
  with_new_device role device_name e composed = record {
    physical = insert device_name e composed.physical;
    by_role = insert role e composed.by_role;
  }

  -- One role: the device that was built for the name, or a new one
  unfoldable pub place :
      (role device_name : String) → Option Device → Composed → Result FactoryError Composed
  unfolding build insert
  place role device_name (some e) composed = ok (with_device role e composed)
  place role device_name none composed = do
    e ← build (length composed.physical) device_name
    ok (with_new_device role device_name e composed)

  unfoldable pub compose : Dict String → Composed → Result FactoryError Composed
  unfolding place lookup
  compose [] composed = ok composed
  compose ((role, device_name) ∷ roles) composed =
      place role device_name (lookup device_name composed.physical) composed >>= λ next.
      compose roles next

  -- The dictionaries with which `StandFactory.create` ends
  unfoldable pub create_composed : StandConfig → Result FactoryError Composed
  unfolding compose
  create_composed config = compose config.devices (record { physical = []; by_role = [] })

  -- `create_stand`, and `StandFactory.create` with the built-in factories
  unfoldable pub create_stand : StandConfig → Result FactoryError TestStand
  unfolding create_composed
  create_stand config = do
    composed ← create_composed config
    ok (record { devices = composed.by_role })
