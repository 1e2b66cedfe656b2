-- ===== src/Console/Reading.antt =====
-- What the reading of a console's state gives.
use pytest_hardware_template.Prelude.{
  String, Bool, Option, none, some, List, [], ◌∷◌, ◌++◌, ◌≡◌, refl, Result, ok, err, arith,
}
use pytest_hardware_template.Agent.Protocol.{Bytes}
use pytest_hardware_template.Stand.Injected.{ConsoleSessionConfig}
use pytest_hardware_template.Console.{
  Poll, received, exited, idle, expired, first_suffix, text_of, ConsoleError, Step, saw, Session,
  Library, read_until_any, noted, read_any, read_console_state,
}

-- What a reading adds to the steps: the state, where it returns one.
abbrev pub Adds : List Step → Session × Result ConsoleError String → Type 0
Adds steps (s, err e) = s.steps ≡ steps
Adds steps (s, ok state) = s.steps ≡ saw state ∷ steps

abbrev pub IsOne : String → List Poll × Result ConsoleError String → Type 0
IsOne marker (polls, err e) = Unit
IsOne marker (polls, ok found) = found ≡ marker

module _ (library : Library) (config : ConsoleSessionConfig) where
  noted-Adds :
      (steps : List Step) (p : List Poll × Result ConsoleError String) → Adds steps (noted steps p)
  noted-Adds steps (polls, err e) = refl
  noted-Adds steps (polls, ok marker) = refl

  pub read_console_state-Adds :
      (redacting : Bool) (s : Session)
      → Adds s.steps (read_console_state library config redacting s)
  unfolding read_console_state read_any
  read_console_state-Adds redacting s = noted-Adds s.steps _

  -- With one marker, that marker is read.
  first_suffix-one :
      (text marker found : String) → first_suffix text (marker ∷ []) ≡ some found → found ≡ marker
  unfolding first_suffix
  first_suffix-one text marker found h = ground arith

  found-IsOne :
      (marker : String) (o : Option String) (polls : List Poll)
      (rest : List Poll × Result ConsoleError String)
      → ((found : String) → o ≡ some found → found ≡ marker)
      → IsOne marker rest
      → IsOne marker (elim o [ some found ↦ (polls, ok found) | none ↦ rest ])
  found-IsOne marker none polls rest h r = r
  found-IsOne marker (some found) polls rest h r = h found refl

  pub read_until_any-IsOne :
      (marker context : String) (redacting : Bool) (buffer : Bytes) (polls : List Poll)
      → IsOne marker (read_until_any library config (marker ∷ []) context redacting buffer polls)
  unfolding read_until_any
  read_until_any-IsOne marker context redacting buffer [] = tt
  read_until_any-IsOne marker context redacting buffer (received chunk ∷ polls) =
      found-IsOne marker (first_suffix (text_of library config (buffer ++ chunk)) (marker ∷ []))
        polls _ (first_suffix-one (text_of library config (buffer ++ chunk)) marker)
        (read_until_any-IsOne marker context redacting (buffer ++ chunk) polls)
  read_until_any-IsOne marker context redacting buffer (exited ∷ polls) = tt
  read_until_any-IsOne marker context redacting buffer (idle ∷ polls) =
      read_until_any-IsOne marker context redacting buffer polls
  read_until_any-IsOne marker context redacting buffer (expired ∷ polls) = tt
