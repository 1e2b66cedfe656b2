-- ===== src/Factory/Complete.antt =====
-- An inventory that was loaded has every device that its stands need.
use pytest_hardware_template.Prelude.{
  ℕ, String, true, Option, none, some, [], ◌∷◌, ◌≡◌, ◌≢◌, inl, inr, ◌==◌, is_some, All, length,
  lookup, Dict, Result, ok, err, ◌>>=◌, chain-err, arith, Bool-cases,
}
use mathlib.Core.Path.{subst}
use pytest_hardware_template.Paths.{FilePath}
use pytest_hardware_template.Stand.{Device}
use pytest_hardware_template.Inventory.{
  ConsoleSessionInventoryConfig, SshConnectionInventoryConfig, TransportConfig, ssh,
  picocom_over_ssh, pyserial, pyserial_over_ssh, DeviceConfig, StandConfig, Inventory, Files,
  load_inventory, get_stand,
}
use pytest_hardware_template.Inventory.Sources.{IsComplete, load_inventory-IsLoaded}
use pytest_hardware_template.Factory.{
  Settings, FactoryError, no_device, no_ssh_credentials, no_console_credentials, needed, get_ssh,
  get_console, resolve_console_credentials, create_ssh_config, create_console_config,
  create_transport, device_type, create_device, Composed, build, place, compose, create_composed,
  create_stand,
}

-- The failure is not the `KeyError` of a missing device.
abbrev pub IsNamed : {A : Type 0} → Result FactoryError A → Type 0
IsNamed {A} r = (name : String) → r ≢ err (no_device name)

chain-IsNamed :
    {A B : Type 0} (first : Result FactoryError A) (next : A → Result FactoryError B)
    → IsNamed first
    → ((a : A) → first ≡ ok a → IsNamed (next a))
    → IsNamed (first >>= next)
chain-IsNamed first next f n name h = elim (chain-err first next h) [
  | inl e ↦ f name e
  | inr (a, g, k) ↦ n a g name k
]

ok-IsNamed : {A : Type 0} (a : A) → IsNamed (ok a)
ok-IsNamed a name h = cc

needed_ssh-IsNamed :
    {A : Type 0} (reference : String) (o : Option A)
    → IsNamed (needed (no_ssh_credentials reference) o)
needed_ssh-IsNamed reference none name h = cc
needed_ssh-IsNamed reference (some a) name h = cc

needed_console-IsNamed :
    {A : Type 0} (reference : String) (o : Option A)
    → IsNamed (needed (no_console_credentials reference) o)
needed_console-IsNamed reference none name h = cc
needed_console-IsNamed reference (some a) name h = cc

module _ (settings : Settings) where
  ssh_config-IsNamed :
      (config : SshConnectionInventoryConfig) → IsNamed (create_ssh_config settings config)
  unfolding create_ssh_config
  ssh_config-IsNamed config =
      chain-IsNamed
        (needed (no_ssh_credentials config.credentials)
          (get_ssh settings.credentials config.credentials))
        _ (needed_ssh-IsNamed config.credentials _) (λ c _. ok-IsNamed _)

  console_credentials-IsNamed :
      (o : Option String) → IsNamed (resolve_console_credentials settings o)
  unfolding resolve_console_credentials
  console_credentials-IsNamed none = ok-IsNamed none
  console_credentials-IsNamed (some reference) =
      chain-IsNamed
        (needed (no_console_credentials reference) (get_console settings.credentials reference)) _
        (needed_console-IsNamed reference _) (λ c _. ok-IsNamed _)

  console_config-IsNamed :
      (console : ConsoleSessionInventoryConfig) → IsNamed (create_console_config settings console)
  unfolding create_console_config
  console_config-IsNamed console =
      chain-IsNamed (resolve_console_credentials settings console.credentials) _
        (console_credentials-IsNamed console.credentials) (λ c _. ok-IsNamed _)

  create_transport-IsNamed : (config : TransportConfig) → IsNamed (create_transport settings config)
  unfolding create_transport
  create_transport-IsNamed (ssh config) =
      chain-IsNamed (create_ssh_config settings config) _ (ssh_config-IsNamed config)
        (λ c _. ok-IsNamed _)
  create_transport-IsNamed (pyserial device rate console) =
      chain-IsNamed (create_console_config settings console) _ (console_config-IsNamed console)
        (λ c _. ok-IsNamed _)
  create_transport-IsNamed (picocom_over_ssh config device rate console) =
      chain-IsNamed (create_ssh_config settings config) _ (ssh_config-IsNamed config) (λ c _.
        chain-IsNamed (create_console_config settings console) _ (console_config-IsNamed console)
          (λ d _. ok-IsNamed _))
  create_transport-IsNamed (pyserial_over_ssh config device rate console) =
      chain-IsNamed (create_ssh_config settings config) _ (ssh_config-IsNamed config) (λ c _.
        chain-IsNamed (create_console_config settings console) _ (console_config-IsNamed console)
          (λ d _. ok-IsNamed _))

device_type-IsNamed : (type : String) → IsNamed (device_type type)
unfolding device_type
device_type-IsNamed type name h = ground arith

needed_device-IsNamed :
    (name : String) (o : Option DeviceConfig)
    → is_some o ≡ true
    → IsNamed (needed (no_device name) o)
needed_device-IsNamed name none h = cc
needed_device-IsNamed name (some c) h = ok-IsNamed c

module _ (inventory : Inventory) (settings : Settings) where
  build-IsNamed :
      (identity : ℕ) (name : String)
      → is_some (lookup name inventory.devices) ≡ true
      → IsNamed (build inventory settings identity name)
  unfolding build create_device
  build-IsNamed identity name h =
      chain-IsNamed (needed (no_device name) (lookup name inventory.devices)) _
        (needed_device-IsNamed name _ h)
        (λ config _.
          chain-IsNamed (create_transport settings config.transport) _
            (create_transport-IsNamed settings config.transport)
            (λ transport _.
              chain-IsNamed (device_type config.type) _ (device_type-IsNamed config.type)
                (λ class _. ok-IsNamed _)))

  place-IsNamed :
      (role name : String) (o : Option Device) (composed : Composed)
      → is_some (lookup name inventory.devices) ≡ true
      → IsNamed (place inventory settings role name o composed)
  unfolding place
  place-IsNamed role name (some e) composed h = ok-IsNamed _
  place-IsNamed role name none composed h =
      chain-IsNamed (build inventory settings (length composed.physical) name) _
        (build-IsNamed (length composed.physical) name h) (λ e _. ok-IsNamed _)

  compose-IsNamed :
      (roles : Dict String) (composed : Composed)
      → IsComplete inventory.devices roles
      → IsNamed (compose inventory settings roles composed)
  unfolding compose
  compose-IsNamed [] composed h = ok-IsNamed composed
  compose-IsNamed ((role, name) ∷ roles) composed (h, hs) =
      chain-IsNamed (place inventory settings role name (lookup name composed.physical) composed) _
        (place-IsNamed role name _ composed h) (λ next _. compose-IsNamed roles next hs)

  create_stand-IsNamed :
      (config : StandConfig)
      → IsComplete inventory.devices config.devices
      → IsNamed (create_stand inventory settings config)
  unfolding create_stand create_composed
  create_stand-IsNamed config h =
      chain-IsNamed (create_composed inventory settings config) _
        (compose-IsNamed config.devices _ h) (λ composed _. ok-IsNamed _)

All-lookup :
    {V : Type 0} (P : V → Type 0) (d : Dict V) (name : String) (v : V)
    → All (λ e. P e.1) d
    → lookup name d ≡ some v
    → P v
unfolding lookup
All-lookup P [] name v h l = cc
All-lookup P ((n, w) ∷ d) name v (h, hs) l = elim (Bool-cases (n == name)) [
  | inl t ↦ let same : w ≡ v = ground arith in subst P same h
  | inr f ↦ All-lookup P d name v hs (ground arith)
]

get_stand-lookup :
    (inventory : Inventory) (name : String) (config : StandConfig)
    → get_stand inventory name ≡ ok config
    → lookup name inventory.stands ≡ some config
unfolding get_stand
get_stand-lookup inventory name config h = ground arith

-- With an inventory that was loaded, creating a stand of it never looks for a device in vain: it
-- succeeds, or fails for credentials or for an unsupported type of device.
pub load_inventory-create_stand :
    (files : Files) (path : FilePath) (inventory : Inventory) (stand_name : String)
    (config : StandConfig) (settings : Settings) (device_name : String)
    → load_inventory files path ≡ ok inventory
    → get_stand inventory stand_name ≡ ok config
    → create_stand inventory settings config ≢ err (no_device device_name)
load_inventory-create_stand files path inventory stand_name config settings device_name l g =
    let (source, _, _, _, complete) = load_inventory-IsLoaded files path inventory l in
    create_stand-IsNamed inventory settings config
      (All-lookup (λ s. IsComplete inventory.devices s.devices) inventory.stands stand_name config
        complete (get_stand-lookup inventory stand_name config g))
      device_name
