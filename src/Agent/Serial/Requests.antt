-- ===== src/Agent/Serial/Requests.antt =====
-- What a request does to the agent.
use pytest_hardware_template.Prelude.{
  ◌≤◌, String, Bool, true, false, some, ◌≡◌, refl, any_char, is_control, ok, guard,
}
use pytest_hardware_template.Paths.{parse, path_eq, is_relative_to, has_dotdot}
use pytest_hardware_template.Agent.Protocol.{Failure}
use pytest_hardware_template.Agent.Serial.{Port, Connection, SerialAgent, pure, pure}

-- The device's name has no control character, and is an absolute path below /dev without `..`.
abbrev pub IsDevice : String → Type 0
IsDevice device =
    (any_char is_control device ≡ false)
    × (is_relative_to (parse device) (parse "/dev") ≡ true)
    × (path_eq (parse device) (parse "/dev") ≡ false)
    × (has_dotdot (parse device) ≡ false)

guard-ok : (b : Bool) (e : Failure) → guard b e ≡ ok tt → b ≡ true
guard-ok true e h = refl
guard-ok false e h = cc

-- The agent holds this connection: a character device below /dev, at a rate within the limits.
abbrev pub Opened : Port → SerialAgent → Connection → Type 0
Opened port s c =
    (s.connection ≡ some c)
    × IsDevice c.device
    × (port.is_char c.device ≡ true)
    × (1 ≤ c.baudrate)
    × (c.baudrate ≤ 10000000)
