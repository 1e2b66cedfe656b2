-- ===== src/Console/Serial/Witnesses.antt =====
-- The theorem on sending, for a port that takes two bytes at a time.
use pytest_hardware_template.Prelude.{true, some, [], ◌∷◌}
use pytest_hardware_template.Console.Serial.{wrote, SerialConnection, sendall}
use pytest_hardware_template.Console.Serial.Sending.{IsSent, sendall-IsSent}

abbrev port : SerialConnection
port = record {
  is_open = true;
  writes = λ turn view. wrote (some 2);
  in_waiting = some 0;
  read = λ size. some [];
  closes = true;
}

sendall-IsSent_example : IsSent (1 ∷ 2 ∷ 3 ∷ []) (sendall port (1 ∷ 2 ∷ 3 ∷ []))
sendall-IsSent_example = sendall-IsSent port (1 ∷ 2 ∷ 3 ∷ [])
