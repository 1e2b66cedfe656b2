-- ===== src/Agent/Stream/Witnesses.antt =====
-- The framing theorem at a concrete input: two lines, the first beyond a limit of three bytes.
use pytest_hardware_template.Prelude.{ℕ, true, none, some, [], ◌∷◌, ◌≡◌, ok, arith}
use pytest_hardware_template.Agent.Protocol.{Bytes, Codec}
use pytest_hardware_template.Agent.Serial.{Port, SerialAgent, Setting}
use pytest_hardware_template.Agent.Stream.{serve}
use pytest_hardware_template.Agent.Stream.Framing.{lines, serve_lines, serve-lines}

abbrev codec : Codec
codec = record {
  load = λ line. none;
  dump = λ response. "{}";
  decode64 = λ s. some [];
  encode64 = λ b. "";
  in_range = λ s. true;
}

abbrev setting : Setting
setting = record {
  codec = codec;
  is_one = λ s. true;
  sorted = λ l. l;
  decimal = λ n. "n";
  version = "1";
}

abbrev ports : ℕ → Port
ports n = record {
  is_char = λ s. true;
  opened = none;
  written = λ b. ok none;
  data_read = λ n. ok [];
  input_reset = none;
  output_reset = none;
  closed = none;
}

abbrev input : Bytes
input = 1 ∷ 2 ∷ 3 ∷ 4 ∷ 5 ∷ 10 ∷ 6 ∷ 10 ∷ []

abbrev idle : SerialAgent
idle = record { connection = none }

serve-lines_example :
    serve setting ports 3 9 0 input idle ≡ serve_lines setting ports 3 0 (lines input) idle
serve-lines_example = serve-lines setting ports 3 9 0 input idle (omega arith)
