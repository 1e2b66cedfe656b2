-- ===== src/Inventory/Witnesses.antt =====
-- The theorem on loaded inventories, for two files of devices.
use pytest_hardware_template.Prelude.{◌≡◌, refl, All, ok}
use pytest_hardware_template.Paths.{parse, parent}
use pytest_hardware_template.Inventory.{StandInventory, load_inventory, validate_devices}
use pytest_hardware_template.Inventory.Samples.{files, inventory}
use pytest_hardware_template.Inventory.Sources.{IsLoaded, IsComplete, load_inventory-IsLoaded}

load_inventory-IsLoaded_example :
    (given : StandInventory) × (files.stands (parse "inventory/stands.yaml") ≡ ok given)
    × (inventory.stands ≡ given.stands)
    × All
        (IsLoaded files (parent (parse "inventory/stands.yaml")) inventory.devices)
        given.device_files
    × All (λ s. IsComplete inventory.devices s.1.devices) inventory.stands
unfolding load_inventory validate_devices
load_inventory-IsLoaded_example =
    load_inventory-IsLoaded files (parse "inventory/stands.yaml") inventory refl
