-- ===== src/Stand.antt =====
-- src/hardware_test/stand/stand.py and src/hardware_test/devices/base.py: the devices of a test
-- stand by role. A device is an object: two roles may hold one device, and what tells devices apart is
-- their identity. What a transport does on `connect` and `close` is a parameter: for each call, by
-- its place in the history, the exception that it raises.
pub mod Injected
pub mod Rollback
pub mod Roles
mod Witnesses
use pytest_hardware_template.Prelude.{
  ℕ, suc, String, Bool, true, false, Option, none, some, List, [], ◌∷◌, ◌++◌, ◌||◌, reverse, nat_eq,
  if◌then◌else◌, Dict, lookup, keys, length, Result, ok, err, join, concat,
}
use pytest_hardware_template.Stand.Injected.{Transport}

pub data DeviceType : Type 0 where
  dut analyzer generator : DeviceType

-- A device object with the transport that was injected into it. `identity` is what `is`, `==` and the
-- hash of an object without `__eq__` compare.
pub record Device : Type 0 where
  pub identity : ℕ
  pub class : DeviceType
  pub transport : Transport
  pub model : String

-- A call that reaches a device's transport.
pub data Call : Type 0 where
  connect : Device → Call
  close : Device → Call

abbrev pub Exception : Type 0
Exception = String

-- What the call with this number in the history raises, if it does.
abbrev pub Transports : Type 0
Transports = ℕ → Call → Option Exception

pub record TestStand : Type 0 where
  pub devices : Dict Device

-- The calls so far, and the exception that is under way.
pub record Effect : Type 0 where
  pub calls : List Call
  pub raised : Option Exception

abbrev pub contains : Device → List Device → Bool
contains d [] = false
contains d (e ∷ es) = nat_eq d.identity e.identity || contains d es

-- `dict.fromkeys(values)`: each device once, at its first place
unfoldable pub unique_from : List Device → List Device → List Device
unique_from seen [] = []
unique_from seen (d ∷ ds) = elim (contains d seen) [
  | true ↦ unique_from seen ds
  | false ↦ d ∷ unique_from (d ∷ seen) ds
]

abbrev pub values : Dict Device → List Device
values [] = []
values ((role, d) ∷ rest) = d ∷ values rest

unfoldable pub unique_devices : TestStand → List Device
unfolding unique_from
unique_devices stand = unique_from [] (values stand.devices)

module _ (transports : Transports) where
  -- One call on a transport.
  unfoldable pub call : Call → List Call → List Call × Option Exception
  call c calls = (calls ++ c ∷ [], transports (length calls) c)

  -- `for device in reversed(connected): device.close()`: an exception ends the loop
  unfoldable pub close_each : List Device → List Call → List Call × Option Exception
  unfolding call
  close_each [] calls = (calls, none)
  close_each (d ∷ ds) calls =
      let (calls', e) = call (close d) calls in
      elim e [ none ↦ close_each ds calls' | some x ↦ (calls', some x) ]

  -- The exception that leaves the handler of `connect` is that of a failed `close`, or the one that
  -- was caught.
  abbrev pub rolled : Exception → List Call × Option Exception → Effect
  rolled error (calls, none) = record { calls = calls; raised = some error }
  rolled error (calls, some x) = record { calls = calls; raised = some x }

  unfoldable pub roll_back : List Device → Exception → List Call → Effect
  unfolding close_each
  roll_back connected error calls = rolled error (close_each (reverse connected) calls)

  unfoldable pub connect_each : List Device → List Device → List Call → Effect
  unfolding call roll_back
  connect_each [] connected calls = record { calls = calls; raised = none }
  connect_each (d ∷ ds) connected calls =
      let (calls', e) = call (connect d) calls in
      elim e [
        | none ↦ connect_each ds (connected ++ d ∷ []) calls'
        | some x ↦ roll_back connected x calls'
      ]

  -- `TestStand.connect`
  unfoldable pub connect_stand : TestStand → List Call → Effect
  unfolding connect_each unique_devices
  connect_stand stand calls = connect_each (unique_devices stand) [] calls

  abbrev pub first_of : Option Exception → Option Exception → Option Exception
  first_of none e = e
  first_of (some x) e = some x

  unfoldable pub close_all : List Device → Option Exception → List Call → Effect
  unfolding call
  close_all [] first_error calls = record { calls = calls; raised = first_error }
  close_all (d ∷ ds) first_error calls =
      let (calls', e) = call (close d) calls in close_all ds (first_of first_error e) calls'

  -- `TestStand.close`
  unfoldable pub close_stand : TestStand → List Call → Effect
  unfolding close_all unique_devices
  close_stand stand calls = close_all (reverse (unique_devices stand)) none calls

-- `Device` is the base class of the three.
pub data Expected : Type 0 where
  any_device : Expected
  only : DeviceType → Expected

abbrev pub same_type : DeviceType → DeviceType → Bool
same_type dut dut = true
same_type analyzer analyzer = true
same_type generator generator = true
same_type _ _ = false

unfoldable pub is_instance : Device → Expected → Bool
is_instance d any_device = true
is_instance d (only t) = same_type d.class t

-- `LookupError` lists the roles, in the order in which the model's `sorted` gives them.
pub data RoleError : Type 0 where
  lookup_error : (role : String) → (available : List String) → RoleError
  type_error : (role : String) → Expected → DeviceType → RoleError

module _ (sorted : List String → List String) where
  unfoldable pub checked : String → Expected → Device → Result RoleError Device
  unfolding is_instance
  checked role expected d =
      if is_instance d expected then ok d else err (type_error role expected d.class)

  -- `TestStand.device`
  unfoldable pub device : TestStand → String → Expected → Result RoleError Device
  unfolding checked
  device stand role expected = elim (lookup role stand.devices) [
    | none ↦ err (lookup_error role (sorted (keys stand.devices)))
    | some d ↦ checked role expected d
  ]

  unfoldable pub optionally : Result RoleError Device → Result RoleError (Option Device)
  optionally (ok d) = ok (some d)
  optionally (err e) = err e

  -- `TestStand.optional_device`
  unfoldable pub optional_device : TestStand → String → Expected → Result RoleError (Option Device)
  unfolding optionally
  optional_device stand role expected = elim (lookup role stand.devices) [
    | none ↦ ok none
    | some d ↦ optionally (device stand role expected)
  ]

  -- the conventional roles
  unfoldable pub dut_role : TestStand → Result RoleError Device
  unfolding device
  dut_role stand = device stand "dut" (only dut)

  unfoldable pub analyzer_role : TestStand → Result RoleError (Option Device)
  unfolding optional_device
  analyzer_role stand = optional_device stand "analyzer" (only analyzer)

  unfoldable pub generator_role : TestStand → Result RoleError (Option Device)
  unfolding optional_device
  generator_role stand = optional_device stand "generator" (only generator)
