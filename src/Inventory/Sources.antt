-- ===== src/Inventory/Sources.antt =====
-- What an inventory that was loaded from several files holds.
use mathlib.Core.Path.{subst}
use pytest_hardware_template.Prelude.{
  String, true, none, some, List, [], ◌∷◌, ◌++◌, ◌≡◌, inl, inr, refl, sym, ap, ◌∙◌, is_some, All,
  lookup, keys, Dict, ok, chain-ok, ok-injective, arith, eq_iff, Bool-cases,
}
use pytest_hardware_template.Paths.{FilePath, divide, parent}
use pytest_hardware_template.Inventory.{
  DeviceConfig, StandConfig, StandInventory, Inventory, Files, missing_of, missing_references,
  none_missing, validate_device_references, common, no_duplicates, add_devices, load_devices,
  load_inventory, validate_devices, some_files,
}

-- Every entry of the first is one of the second.
abbrev pub IsWithin : {V : Type 0} → Dict V → Dict V → Type 0
IsWithin {V} d e = (name : String) (v : V) → lookup name d ≡ some v → lookup name e ≡ some v

lookup-append :
    {V : Type 0} (d e : Dict V) (name : String) (v : V)
    → lookup name d ≡ some v
    → lookup name (d ++ e) ≡ some v
unfolding lookup
lookup-append [] e name v h = cc
lookup-append ((n, w) ∷ d) e name v h = ground (arith, lookup-append d e name v)

lookup-append_right :
    {V : Type 0} (d e : Dict V) (name : String)
    → lookup name d ≡ none
    → lookup name (d ++ e) ≡ lookup name e
unfolding lookup
lookup-append_right [] e name h = refl
lookup-append_right ((n, w) ∷ d) e name h = ground (arith, lookup-append_right d e name)

-- With no common name, an entry of the one is none of the other.
common-lookup :
    (d e : Dict DeviceConfig) (name : String) (v : DeviceConfig)
    → common d (keys e) ≡ []
    → lookup name e ≡ some v
    → lookup name d ≡ none
unfolding common keys lookup
common-lookup d [] name v h k = cc
common-lookup d ((n, w) ∷ e) name v h k = ground (arith, eq_iff n name, common-lookup d e name v)

no_duplicates-nil : (names : List String) (u : Unit) → no_duplicates names ≡ ok u → names ≡ []
no_duplicates-nil [] u h = refl
no_duplicates-nil (n ∷ ns) u h = cc

add_devices-IsWithin :
    (devices others result : Dict DeviceConfig)
    → add_devices devices others ≡ ok result
    → IsWithin devices result × IsWithin others result
unfolding add_devices
add_devices-IsWithin devices others result h =
    let (_, _, h') = chain-ok (validate_devices others) _ h in
    let (u, d, k) = chain-ok (no_duplicates (common devices (keys others))) _ h' in
    let same = ok-injective k in
    let fresh = no_duplicates-nil _ u d in
    (
      λ name v l. subst (λ z. lookup name z ≡ some v) same (lookup-append devices others name v l),
      λ name v l.
          subst (λ z. lookup name z ≡ some v) same
            (lookup-append_right devices others name (common-lookup devices others name v fresh l)
              ∙ l),
    )

module _ (files : Files) (folder : FilePath) where
  -- A file was read, and its devices are among those given.
  abbrev pub IsLoaded : Dict DeviceConfig → FilePath → Type 0
  IsLoaded devices path =
      (others : Dict DeviceConfig) × (files.devices (divide folder path) ≡ ok others)
      × IsWithin others devices

  load_devices-IsLoaded :
      (paths : List FilePath) (devices result : Dict DeviceConfig)
      → load_devices files folder paths devices ≡ ok result
      → IsWithin devices result × All (IsLoaded result) paths
  unfolding load_devices
  load_devices-IsLoaded [] devices result h =
      (λ name v l. subst (λ z. lookup name z ≡ some v) (ok-injective h) l, tt)
  load_devices-IsLoaded (path ∷ paths) devices result h =
      let (others, r, h') = chain-ok (files.devices (divide folder path)) _ h in
      let (more, a, h'') = chain-ok (add_devices devices others) _ h' in
      let (old, new) = add_devices-IsWithin devices others more a in
      let (within, loaded) = load_devices-IsLoaded paths more result h'' in
      (
        λ name v l. within name v (old name v l),
        ((others, r, λ name v l. within name v (new name v l)), loaded),
      )

-- Each role of a stand names a device.
abbrev pub IsComplete : Dict DeviceConfig → Dict String → Type 0
IsComplete devices roles = All (λ r. is_some (lookup r.1 devices) ≡ true) roles

missing_of-IsComplete :
    (name : String) (devices : Dict DeviceConfig) (roles : Dict String)
    → missing_of name devices roles ≡ []
    → IsComplete devices roles
unfolding missing_of
missing_of-IsComplete name devices [] h = tt
missing_of-IsComplete name devices ((role, device) ∷ roles) h =
    elim (Bool-cases (is_some (lookup device devices))) [
      | inl t ↦ (t, missing_of-IsComplete name devices roles (ground arith))
      | inr f ↦ absurd (ground arith)
    ]

append-nil_parts : {A : Type 0} (xs ys : List A) → xs ++ ys ≡ [] → (xs ≡ []) × (ys ≡ [])
append-nil_parts [] ys h = (refl, h)
append-nil_parts (x ∷ xs) ys h = cc

missing_references-IsComplete :
    (devices : Dict DeviceConfig) (stands : Dict StandConfig)
    → missing_references devices stands ≡ []
    → All (λ s. IsComplete devices s.1.devices) stands
unfolding missing_references
missing_references-IsComplete devices [] h = tt
missing_references-IsComplete devices ((name, stand) ∷ stands) h =
    let (a, b) =
      append-nil_parts (missing_of name devices stand.devices) (missing_references devices stands)
        h in
    (
      missing_of-IsComplete name devices stand.devices a,
      missing_references-IsComplete devices stands b,
    )

none_missing-ok :
    (given result : Inventory) (missing : List String)
    → none_missing given missing ≡ ok result
    → (missing ≡ []) × (given ≡ result)
none_missing-ok given result [] h = (refl, ok-injective h)
none_missing-ok given result (m ∷ ms) h = cc

-- An inventory that is loaded has the stands of its file; each of its device files was read, and each
-- device of each file is in the inventory as it is in the file, so none replaced another; and every
-- role of every stand names a device of the inventory.
pub load_inventory-IsLoaded :
    (files : Files) (path : FilePath) (inventory : Inventory)
    → load_inventory files path ≡ ok inventory
    → (source : StandInventory) × (files.stands path ≡ ok source)
      × (inventory.stands ≡ source.stands)
      × All (IsLoaded files (parent path) inventory.devices) source.device_files
      × All (λ s. IsComplete inventory.devices s.1.devices) inventory.stands
unfolding load_inventory validate_device_references
load_inventory-IsLoaded files path inventory h =
    let (source, a, h1) = chain-ok (files.stands path) _ h in
    let (_, _, h2) = chain-ok (some_files files source.device_files) _ h1 in
    let (devices, d, h3) =
      chain-ok (load_devices files (parent path) source.device_files []) _ h2 in
    let (missing, same) = none_missing-ok _ inventory _ h3 in
    (
      source,
      a,
      ap (λ z. z.stands) (sym same),
      subst (λ z. All (IsLoaded files (parent path) z.devices) source.device_files) same
          (load_devices-IsLoaded files (parent path) source.device_files [] devices d).1,
      subst (λ z. All (λ s. IsComplete z.devices s.1.devices) z.stands) same
          (missing_references-IsComplete devices source.stands missing),
    )
