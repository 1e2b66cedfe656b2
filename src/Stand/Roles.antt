-- ===== src/Stand/Roles.antt =====
-- Devices by role, and each device once.
use pytest_hardware_template.Prelude.{
  String, true, false, some, List, [], ◌∷◌, ◌||◌, nat_eq, lookup, ok, err, ◌≡◌, inl, inr, refl,
  arith, Option-cases, ap, ◌∙◌, if◌then◌else◌,
}
use pytest_hardware_template.Stand.{
  Device, TestStand, contains, unique_from, unique_devices, values, Expected, is_instance,
  RoleError, type_error, device, optional_device,
}

-- No two devices of the list have one identity.
abbrev pub IsDistinct : List Device → Type 0
IsDistinct [] = Unit
IsDistinct (d ∷ ds) = (contains d ds ≡ false) × IsDistinct ds

contains-cong :
    (d e : Device) (l : List Device)
    → nat_eq d.identity e.identity ≡ true
    → contains d l ≡ contains e l
contains-cong d e [] h = refl
contains-cong d e (x ∷ l) h = ground (arith, contains-cong d e l)

unique_from-excludes :
    (d : Device) (seen ds : List Device)
    → contains d seen ≡ true
    → contains d (unique_from seen ds) ≡ false
unfolding unique_from
unique_from-excludes d seen [] h = refl
unique_from-excludes d seen (e ∷ ds) h = ground (
  arith,
  contains-cong d e seen,
  unique_from-excludes d seen ds,
  unique_from-excludes d (e ∷ seen) ds,
)

unique_from-IsDistinct : (seen ds : List Device) → IsDistinct (unique_from seen ds)
unfolding unique_from
unique_from-IsDistinct seen [] = tt
unique_from-IsDistinct seen (e ∷ ds) = ground (
  arith,
  unique_from-excludes e (e ∷ seen) ds,
  unique_from-IsDistinct seen ds,
  unique_from-IsDistinct (e ∷ seen) ds,
)

unique_from-contains :
    (d : Device) (seen ds : List Device)
    → (contains d seen || contains d (unique_from seen ds)) ≡ (contains d seen || contains d ds)
unfolding unique_from
unique_from-contains d seen [] = refl
unique_from-contains d seen (e ∷ ds) = ground (
  arith,
  contains-cong d e seen,
  unique_from-contains d seen ds,
  unique_from-contains d (e ∷ seen) ds,
)

-- The list without the devices of `seen`.
abbrev outside : List Device → List Device → List Device
outside seen [] = []
outside seen (d ∷ ds) = let rest = outside seen ds in if contains d seen then rest else d ∷ rest

-- Each device at its first place: behind it the same device is left out.
abbrev pub first_places : List Device → List Device
first_places [] = []
first_places (d ∷ ds) = d ∷ outside (d ∷ []) (first_places ds)

outside-seen :
    (d : Device) (seen ds : List Device)
    → contains d seen ≡ true
    → outside seen (outside (d ∷ []) ds) ≡ outside seen ds
outside-seen d seen [] h = refl
outside-seen d seen (e ∷ ds) h = ground (arith, contains-cong e d seen, outside-seen d seen ds h)

outside-outside :
    (d : Device) (seen ds : List Device)
    → outside seen (outside (d ∷ []) ds) ≡ outside (d ∷ seen) ds
outside-outside d seen [] = refl
outside-outside d seen (e ∷ ds) = ground (arith, outside-outside d seen ds)

unique_from-outside : (seen ds : List Device) → unique_from seen ds ≡ outside seen (first_places ds)
unfolding unique_from
unique_from-outside seen [] = refl
unique_from-outside seen (d ∷ ds) = ground (
  arith,
  unique_from-outside seen ds,
  unique_from-outside (d ∷ seen) ds,
  outside-seen d seen (first_places ds),
  outside-outside d seen (first_places ds),
)

outside-nothing : (ds : List Device) → outside [] ds ≡ ds
outside-nothing [] = refl
outside-nothing (d ∷ ds) = ap (λ l. d ∷ l) (outside-nothing ds)

pub unique_devices-first_places :
    (stand : TestStand) → unique_devices stand ≡ first_places (values stand.devices)
unfolding unique_devices
unique_devices-first_places stand =
    unique_from-outside [] (values stand.devices)
    ∙ outside-nothing (first_places (values stand.devices))

-- The devices of the stand's roles, and no others, each once.
abbrev pub IsRoster : TestStand → List Device → Type 0
IsRoster stand ds =
    IsDistinct ds × ((d : Device) → contains d ds ≡ contains d (values stand.devices))

pub unique_devices-IsRoster : (stand : TestStand) → IsRoster stand (unique_devices stand)
unfolding unique_devices
unique_devices-IsRoster stand = (
  unique_from-IsDistinct [] (values stand.devices),
  λ d. unique_from-contains d [] (values stand.devices),
)

-- A device that is returned is the one of its role, and an instance of the type that was asked for.
device_sound :
    (sorted : List String → List String) (stand : TestStand) (role : String) (expected : Expected)
    (d : Device)
    → device sorted stand role expected ≡ ok d
    → (lookup role stand.devices ≡ some d) × (is_instance d expected ≡ true)
unfolding device
device_sound sorted stand role expected d h = ground arith

-- An optional role never fails for want of the role: with the role absent the result is `None`, and
-- any error there is says that the role's device is of another type.
optional_device_errors :
    (sorted : List String → List String) (stand : TestStand) (role : String) (expected : Expected)
    (e : RoleError)
    → optional_device sorted stand role expected ≡ err e
    → (d : Device) × (lookup role stand.devices ≡ some d)
      × (is_instance d expected ≡ false)
      × (e ≡ type_error role expected d.class)
unfolding optional_device device
optional_device_errors sorted stand role expected e h =
    elim (Option-cases (lookup role stand.devices)) [
      | inl absent ↦ absurd (ground arith)
      | inr (d, found) ↦ (d, found, ground arith, ground arith)
    ]
