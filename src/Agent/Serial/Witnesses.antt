-- ===== src/Agent/Serial/Witnesses.antt =====
-- The theorem on `open` at a concrete input.
use pytest_hardware_template.Prelude.{
  true, none, some, [], ◌∷◌, ok, err, Bool, concat, lookup, keys, any_char,
}
use pytest_hardware_template.Paths.{parse, is_absolute, is_relative_to, path_eq, has_dotdot}
use pytest_hardware_template.Agent.Protocol.{
  Request, Response, value_error, validate_envelope, Codec, int, str, pos, validate_fields,
  require_string, require_int,
}
use pytest_hardware_template.Agent.Serial.{Port, SerialAgent, Setting, open_device, handle, refused}
use pytest_hardware_template.Agent.Serial.Failures.{IsReported, handle-IsReported}

abbrev codec : Codec
codec = record {
  load = λ line. none;
  dump = λ response. "{}";
  decode64 = λ s. some [];
  encode64 = λ b. "";
  in_range = λ s. true;
}

abbrev setting : Setting
setting = record {
  codec = codec;
  is_one = λ s. true;
  sorted = λ l. l;
  decimal = λ n. "n";
  version = "1";
}

abbrev port : Port
port = record {
  is_char = λ s. true;
  opened = none;
  written = λ b. ok none;
  data_read = λ n. ok [];
  input_reset = none;
  output_reset = none;
  closed = none;
}

abbrev request : Request
request =
    ("version", int (pos 1))
    ∷ ("operation", str "open")
    ∷ ("device", str "/dev/ttyUSB0")
    ∷ ("baudrate", int (pos 115200))
    ∷ []

abbrev idle : SerialAgent
idle = record { connection = none }

abbrev busy : SerialAgent
busy = record {
  connection = some (record { device = "/dev/ttyUSB0"; baudrate = 115200; timeout = none });
}

-- A port that the driver refuses to open.
abbrev unfit : Port
unfit = record port { opened = some (refused "rate") }

handle-IsReported_example : IsReported unfit {A = Response × Bool} (err (value_error "rate"))
unfolding handle open_device validate_fields validate_envelope keys require_string lookup any_char
    is_absolute parse path_eq is_relative_to has_dotdot require_int concat
handle-IsReported_example = handle-IsReported unfit setting request idle
