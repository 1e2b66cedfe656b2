-- ===== src/Agent/Serial.antt =====
-- helpers/serial-agent/src/hardware_serial_agent/agent.py: the owner of one serial device. What
-- pyserial and the system answer to the calls of one request is the parameter `Port`.
pub mod Requests
pub mod Failures
mod Witnesses
use pytest_hardware_template.Prelude.{
  ℕ, String, Bool, true, false, Option, none, some, List, [], ◌∷◌, ◌||◌, not, ◌==◌, if◌then◌else◌,
  concat, any_char, is_control, length, Result, ok, err,
}
use pytest_hardware_template.Paths.{parse, is_absolute, path_eq, is_relative_to, has_dotdot}
use pytest_hardware_template.Agent.Protocol.{
  pos, int, str, Request, Response, Bytes, Failure, agent_error, serial_error, value_error, Codec,
  max_read_bytes, Timeout, success, validate_envelope, validate_fields, require_string, require_int,
  require_timeout, decode_payload, encode_payload,
}

-- What `serial.Serial` raises: a `SerialException` or an `OSError`, or the `ValueError` of a parameter
-- that the driver refuses.
pub data OpenError : Type 0 where
  io_error : String → OpenError
  refused : String → OpenError

-- A call that fails gives the exception's text. `is_char` asks the file system.
pub record Port : Type 0 where
  pub is_char : String → Bool
  pub opened : Option OpenError
  pub written : Bytes → Result String (Option ℕ)
  pub data_read : ℕ → Result String Bytes
  pub input_reset : Option String
  pub output_reset : Option String
  pub closed : Option String

-- An open device: its name, its rate and its read timeout, `none` for the first, 0.0.
pub record Connection : Type 0 where
  pub device : String
  pub baudrate : ℕ
  pub timeout : Option Timeout

pub record SerialAgent : Type 0 where
  pub connection : Option Connection

-- What the agent is built with: the library's functions, the names' order, numbers as text, and its
-- own version.
pub record Setting : Type 0 where
  pub codec : Codec
  pub is_one : String → Bool
  pub sorted : List String → List String
  pub decimal : ℕ → String
  pub version : String

-- A method changes the agent, and returns or raises. The state is kept when it raises.
abbrev pub Action : Type 0 → Type 0
Action A = SerialAgent → SerialAgent × Result Failure A

abbrev pub continue : {A B : Type 0} → Result Failure A → (A → Action B) → Action B
continue (ok a) f s = f a s
continue (err e) f s = (s, err e)

infixl 5 ◌>>=◌ ◌>>◌
unfoldable pub ◌>>=◌ : {A B : Type 0} → Action A → (A → Action B) → Action B
◌>>=◌ m f s = let (s', r) = m s in continue r f s'

abbrev pub ◌>>◌ : {B : Type 0} → Action Unit → Action B → Action B
m >> n = m >>= λ _. n

abbrev pub lift : {A : Type 0} → Result Failure A → Action A
lift r s = (s, r)

abbrev pub pure : {A : Type 0} → A → Action A
pure a s = (s, ok a)

abbrev pub raise : {A : Type 0} → Failure → Action A
raise e s = (s, err e)

abbrev pub check : Bool → Failure → Action Unit
check true e s = (s, ok tt)
check false e s = (s, err e)

-- `SerialException` or `OSError`, where a call of the library raises
abbrev pub io : Option String → Action Unit
io none s = (s, ok tt)
io (some text) s = (s, err (serial_error text))

-- The construction of `serial.Serial`
abbrev pub opening : Option OpenError → Action Unit
opening none s = (s, ok tt)
opening (some (io_error text)) s = (s, err (serial_error text))
opening (some (refused text)) s = (s, err (value_error text))

abbrev pub io_value : {A : Type 0} → Result String A → Action A
io_value (ok a) s = (s, ok a)
io_value (err text) s = (s, err (serial_error text))

unfoldable pub validate_device : String → Result Failure String
validate_device value =
    let path = parse value in
    if any_char is_control value
    then err (agent_error "invalid_device" "device must not contain control characters")
    else if not (is_absolute path)
        || path_eq path (parse "/dev")
        || not (is_relative_to path (parse "/dev"))
        || has_dotdot path
    then err (agent_error "invalid_device" "device must be an absolute path below /dev")
    else ok value

abbrev pub is_open : Option Connection → Bool
is_open none = false
is_open (some c) = true

-- `_require_connection`
unfoldable pub require_connection : Action Unit
require_connection s = (
  s,
  if is_open s.connection then ok tt else err (agent_error "not_open" "No serial device is open"),
)

unfoldable pub connect : Connection → Action Unit
connect c s = (record s { connection = some c }, ok tt)

abbrev pub with_timeout : Timeout → Option Connection → Option Connection
with_timeout t none = none
with_timeout t (some c) = some (record c { timeout = some t })

unfoldable pub set_timeout : Timeout → Action Unit
set_timeout t s = (record s { connection = with_timeout t s.connection }, ok tt)

-- `close`: the reference is dropped first, so an exception leaves the agent without a device.
unfoldable pub close : Port → Action Unit
close port s = (
  record s { connection = none },
  if is_open s.connection
      then elim port.closed [ none ↦ ok tt | some text ↦ err (serial_error text) ]
      else ok tt,
)

module _ (setting : Setting) (port : Port) where
  abbrev pub not_already_open : Action Unit
  not_already_open s = (
    s,
    if is_open s.connection
        then err (agent_error "already_open" "A serial device is already open")
        else ok tt,
  )

  -- `_open`
  unfoldable pub open_device : Request → Action Response
  unfolding ◌>>=◌ connect validate_device
  open_device request = do
    lift (validate_fields setting.sorted request ("device" ∷ "baudrate" ∷ []))
    not_already_open
    text ← lift (require_string request "device")
    device ← lift (validate_device text)
    baudrate ← lift (require_int setting.decimal request "baudrate" 1 10000000)
    check (port.is_char device) (
        agent_error "invalid_device"
          (concat ("Serial device is not a character device: " ∷ device ∷ [])))
    opening port.opened
    connect (record { device = device; baudrate = baudrate; timeout = none })
    pure (success [])

  abbrev pub written_count : Bytes → Option ℕ → ℕ
  written_count payload none = length payload
  written_count payload (some n) = n

  -- `_write`
  unfoldable pub write : Request → Action Response
  unfolding ◌>>=◌ require_connection
  write request = do
    lift (validate_fields setting.sorted request ("data" ∷ []))
    require_connection
    payload ← lift (decode_payload setting.codec request)
    written ← io_value (port.written payload)
    pure (success (("written", int (pos (written_count payload written))) ∷ []))

  -- `_read`
  unfoldable pub read : Request → Action Response
  unfolding ◌>>=◌ require_connection set_timeout
  read request = do
    lift (validate_fields setting.sorted request ("size" ∷ "timeout" ∷ []))
    require_connection
    size ← lift (require_int setting.decimal request "size" 1 max_read_bytes)
    timeout ← lift (require_timeout setting.codec request)
    set_timeout timeout
    bytes ← io_value (port.data_read size)
    pure (success (("data", str (encode_payload setting.codec bytes)) ∷ []))

  -- `_reset_input`
  unfoldable pub reset_input : Request → Action Response
  unfolding ◌>>=◌ require_connection
  reset_input request = do
    lift (validate_fields setting.sorted request [])
    require_connection
    io port.input_reset
    pure (success [])

  -- `_reset_output`
  unfoldable pub reset_output : Request → Action Response
  unfolding ◌>>=◌ require_connection
  reset_output request = do
    lift (validate_fields setting.sorted request [])
    require_connection
    io port.output_reset
    pure (success [])

  abbrev pub going_on : Action Response → Action (Response × Bool)
  going_on m = m >>= λ response. pure (response, false)

  -- The operations by name.
  unfoldable pub dispatch : String → Request → Action (Response × Bool)
  unfolding ◌>>=◌ open_device write read reset_input reset_output close
  dispatch operation request =
      if operation == "hello"
      then (do
        lift (validate_fields setting.sorted request [])
        pure (success (("agent_version", str setting.version) ∷ []), false))
      else if operation == "open"
      then going_on (open_device request)
      else if operation == "write"
      then going_on (write request)
      else if operation == "read"
      then going_on (read request)
      else if operation == "reset_input"
      then going_on (reset_input request)
      else if operation == "reset_output"
      then going_on (reset_output request)
      else if operation == "close"
      then (do
        lift (validate_fields setting.sorted request [])
        close port
        pure (success [], true))
      else raise
          (agent_error "unknown_operation" (concat ("Unsupported operation: " ∷ operation ∷ [])))

  -- `except (serial.SerialException, OSError)`
  abbrev pub translate : {A : Type 0} → Result Failure A → Result Failure A
  translate (err (serial_error text)) =
      err (agent_error "serial_io" (concat ("Serial operation failed: " ∷ text ∷ [])))
  translate r = r

  abbrev pub translated : {A : Type 0} → Action A → Action A
  translated m s = let (s', r) = m s in (s', translate r)

  -- `SerialAgent.handle`
  unfoldable pub handle : Request → Action (Response × Bool)
  unfolding ◌>>=◌ dispatch
  handle request = do
    operation ← lift (validate_envelope setting.is_one request)
    translated (dispatch operation request)
