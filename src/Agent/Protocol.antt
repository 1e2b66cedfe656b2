-- ===== src/Agent/Protocol.antt =====
-- helpers/serial-agent/src/hardware_serial_agent/protocol.py: requests, responses and their checks.
-- JSON and Base64 texts are read and written by Python's library: `Codec` is what it does.
use pytest_hardware_template.Prelude.{
  ℕ, zero, suc, ◌^◌, ◌-◌, String, Bool, true, false, Option, none, some, List, [], ◌∷◌, ◌&&◌, ◌==◌,
  if◌then◌else◌, leb, ltb, concat, join, elem, Dict, lookup, keys, length, Result, ok, err, ◌>>=◌,
  ◌>>◌, guard,
}

-- An integer: `negsuc n` is -(n + 1).
pub data ℤ : Type 0 where
  pos : ℕ → ℤ
  negsuc : ℕ → ℤ

-- A number with a fraction or an exponent is kept by its text.
mutual
  pub data Json : Type 0 where
    null : Json
    bool : Bool → Json
    int : ℤ → Json
    float : String → Json
    str : String → Json
    arr : Items → Json
    obj : Fields → Json

  pub data Items : Type 0 where
    nil : Items
    cons : Json → Items → Items

  pub data Fields : Type 0 where
    end : Fields
    field : String → Json → Fields → Fields

abbrev pub Request : Type 0
Request = Dict Json

abbrev pub Response : Type 0
Response = Dict Json

abbrev pub Bytes : Type 0
Bytes = List ℕ

-- `AgentError`, a `SerialException` or `OSError`, what `float` raises on an integer that is too large,
-- and a `ValueError` of the serial library. The last two are not caught anywhere.
pub data Failure : Type 0 where
  agent_error : (code : String) → (message : String) → Failure
  serial_error : String → Failure
  overflow_error : Failure
  value_error : String → Failure

-- `load` is `json.loads`, with `none` for invalid JSON; `decode64` is strict; `in_range` tells
-- whether a number with this text lies between 0 and 120.
pub record Codec : Type 0 where
  pub load : Bytes → Option Json
  pub dump : Response → String
  pub decode64 : String → Option Bytes
  pub encode64 : Bytes → String
  pub in_range : String → Bool

abbrev pub protocol_version : ℕ
protocol_version = 1

abbrev pub max_json_line_bytes : ℕ
max_json_line_bytes = 1048576

abbrev pub max_payload_bytes : ℕ
max_payload_bytes = 262144

abbrev pub max_read_bytes : ℕ
max_read_bytes = 262144

abbrev pub max_timeout_seconds : ℕ
max_timeout_seconds = 120

unfoldable pub to_dict : Fields → Dict Json
to_dict end = []
to_dict (field k v fs) = (k, v) ∷ to_dict fs

unfoldable pub as_request : Option Json → Result Failure Request
unfolding to_dict
as_request none = err (agent_error "invalid_json" "Request must be one valid JSON object")
as_request (some (obj fs)) = ok (to_dict fs)
as_request (some _) =
    err (agent_error "invalid_request" "Request must be a JSON object with string keys")

unfoldable pub decode_request : Codec → Bytes → Result Failure Request
unfolding as_request
decode_request codec line = as_request (codec.load line)

unfoldable pub encode_response : Codec → Response → String
encode_response codec response = concat (codec.dump response ∷ "\n" ∷ [])

unfoldable pub success : Dict Json → Response
success values = ("version", int (pos protocol_version)) ∷ ("ok", bool true) ∷ values

unfoldable pub failure : String → String → Response
failure code message =
    ("version", int (pos protocol_version))
    ∷ ("ok", bool false)
    ∷ ("error", obj (field "code" (str code) (field "message" (str message) end)))
    ∷ []

-- `value == PROTOCOL_VERSION`: `True` and the number 1.0 are equal to 1 as well. `is_one` tells it of
-- a number by its text.
abbrev pub is_version : (String → Bool) → Option Json → Bool
is_version is_one (some (int (pos (suc zero)))) = true
is_version is_one (some (bool true)) = true
is_version is_one (some (float text)) = is_one text
is_version is_one _ = false

abbrev pub as_text : Option Json → Option String
as_text (some (str s)) = if s == "" then none else some s
as_text _ = none

unfoldable pub require_text : Failure → Option String → Result Failure String
require_text e none = err e
require_text e (some s) = ok s

unfoldable pub validate_envelope : (String → Bool) → Request → Result Failure String
unfolding require_text
validate_envelope is_one request = do
  guard (is_version is_one (lookup "version" request))
      (agent_error "unsupported_version" "Supported protocol version is 1")
  require_text (agent_error "invalid_request" "operation must be a non-empty string")
      (as_text (lookup "operation" request))

-- the first list without the elements of the second
unfoldable pub minus : List String → List String → List String
minus [] bs = []
minus (a ∷ as') bs = let rest = minus as' bs in if elem a bs then rest else a ∷ rest

abbrev pub none_left : Failure → List String → Result Failure Unit
none_left e [] = ok tt
none_left e (n ∷ ns) = err e

-- `sorted` is a parameter: the names in a message come in its order. No call gives optional fields.
unfoldable pub validate_fields :
    (List String → List String) → Request → List String → Result Failure Unit
unfolding minus
validate_fields sorted request required = do
  none_left
      (agent_error "invalid_request" (
        concat
          ("Missing required fields: " ∷ join ", " (sorted (minus required (keys request))) ∷ [])))
      (minus required (keys request))
  none_left
      (agent_error "invalid_request" (
        concat (
          "Unexpected fields: "
          ∷ join ", "
              (sorted (minus (minus (keys request) required) ("version" ∷ "operation" ∷ [])))
          ∷ [])))
      (minus (minus (keys request) required) ("version" ∷ "operation" ∷ []))

unfoldable pub require_string : Request → String → Result Failure String
unfolding require_text
require_string request name =
    require_text
      (agent_error "invalid_request" (concat (name ∷ " must be a non-empty string" ∷ [])))
      (as_text (lookup name request))

-- An integer field within bounds; a boolean is none.
abbrev pub as_int : ℕ → ℕ → Option Json → Option ℕ
as_int minimum maximum (some (int (pos n))) =
    if leb minimum n && leb n maximum then some n else none
as_int minimum maximum _ = none

abbrev pub or_raise : Failure → Option ℕ → Result Failure ℕ
or_raise e none = err e
or_raise e (some n) = ok n

unfoldable pub require_int :
    (decimal : ℕ → String) → Request → String → (minimum maximum : ℕ) → Result Failure ℕ
require_int decimal request name minimum maximum =
    or_raise
      (agent_error "invalid_request" (
        concat (
          name
          ∷ " must be an integer between "
          ∷ decimal minimum
          ∷ " and "
          ∷ decimal maximum
          ∷ [])))
      (as_int minimum maximum (lookup name request))

-- The least integer that `float` refuses.
abbrev pub float_limit : ℕ
float_limit = 2 ^ 1024 - 2 ^ 970

pub data Timeout : Type 0 where
  whole : ℕ → Timeout
  fraction : String → Timeout

abbrev pub timeout_range : Failure
timeout_range = agent_error "invalid_request" "timeout must be between 0 and 120.0"

unfoldable pub require_timeout_value : Codec → Option Json → Result Failure Timeout
require_timeout_value codec (some (int (pos n))) =
    if leb float_limit n
    then err overflow_error
    else if leb n max_timeout_seconds
    then ok (whole n)
    else err timeout_range
require_timeout_value codec (some (int (negsuc n))) =
    if leb float_limit (suc n) then err overflow_error else err timeout_range
require_timeout_value codec (some (float text)) =
    if codec.in_range text then ok (fraction text) else err timeout_range
require_timeout_value codec _ = err (agent_error "invalid_request" "timeout must be a number")

unfoldable pub require_timeout : Codec → Request → Result Failure Timeout
unfolding require_timeout_value
require_timeout codec request = require_timeout_value codec (lookup "timeout" request)

unfoldable pub bounded : Option Bytes → Result Failure Bytes
bounded none = err (agent_error "invalid_base64" "data must contain valid Base64")
bounded (some payload) =
    if ltb max_payload_bytes (length payload)
    then err (agent_error "payload_too_large" "Decoded data exceeds 262144 bytes")
    else ok payload

unfoldable pub decode_payload : Codec → Request → Result Failure Bytes
unfolding bounded require_string
decode_payload codec request = do
  encoded ← require_string request "data"
  bounded (codec.decode64 encoded)

unfoldable pub encode_payload : Codec → Bytes → String
encode_payload codec payload = codec.encode64 payload
