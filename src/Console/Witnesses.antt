-- ===== src/Console/Witnesses.antt =====
-- The theorem on the login on a console, for a device that asks for a name and a password.
use pytest_hardware_template.Prelude.{ℕ, nat_eq, if◌then◌else◌, String, some, List, [], ◌∷◌}
use pytest_hardware_template.Agent.Protocol.{Bytes}
use pytest_hardware_template.Stand.Injected.{ConsoleSessionConfig}
use pytest_hardware_template.Console.{Poll, received, idle, Library, prepare}
use pytest_hardware_template.Console.Dialogue.{EndsWell, prepare-EndsWell}

-- What the device shows, by a byte for each prompt
abbrev shown : ℕ → String
shown byte =
    if nat_eq byte 1
    then "login:"
    else if nat_eq byte 2
    then "Password:"
    else if nat_eq byte 3
    then "# "
    else "$ "

abbrev decode : Bytes → String
decode [] = ""
decode (byte ∷ bytes) = shown byte

abbrev library : Library
library = record { decode = decode; quote = λ text. text; replace = λ value old new. value }

abbrev config : ConsoleSessionConfig
config = record {
  prompt = "$ ";
  initial_prompt_suffix = "# ";
  login_prompt = "login:";
  password_prompt = "Password:";
  username = some "root";
  password = some "secret";
}

abbrev polls : List Poll
polls = idle ∷ received (1 ∷ []) ∷ received (2 ∷ []) ∷ received (3 ∷ []) ∷ received (4 ∷ []) ∷ []

prepare-EndsWell_example :
    EndsWell library config (prepare library config (record { polls = polls; steps = [] }))
prepare-EndsWell_example = prepare-EndsWell library config polls
