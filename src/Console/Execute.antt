-- ===== src/Console/Execute.antt =====
-- src/hardware_test/transport/console.py: `LinuxConsoleSession.execute`, with the command of
-- models/command.py. `token` and `status_name` are the random names of one execution; `digit` is the
-- value of a character that `\d` matches.
use Prim.Native.Char
use pytest_hardware_template.Prelude.{
  ℕ, ◌+◌, ◌*◌, suc, zero, String, Bool, true, false, Option, none, some, List, [], ◌∷◌, ◌++◌, ◌&&◌,
  not, if◌then◌else◌, nat_eq, has_suffix, lstrip, concat, Result, ok, err,
}
use pytest_hardware_template.Agent.Protocol.{Bytes, ℤ, pos, negsuc}
use pytest_hardware_template.Stand.Injected.{ConsoleSessionConfig}
use pytest_hardware_template.Console.{
  Poll, received, exited, idle, expired, ConsoleError, transport_error, timed_out, Session, Library,
  text_of, send,
}

-- `UnixCommand`
pub record UnixCommand : Type 0 where
  pub query : String
  pub sudo : Bool
  pub non_interactive : Bool

-- `CommandResult`
pub record CommandResult : Type 0 where
  pub stdout : String
  pub stderr : String
  pub exit_code : ℤ

-- `UnixCommand.text`, with `shlex.quote`
unfoldable pub command_text : (String → String) → UnixCommand → String
unfolding concat
command_text quote command =
    if not command.sudo
    then command.query
    else if command.non_interactive
    then concat ("sudo -n -- sh -c " ∷ quote command.query ∷ [])
    else concat ("sudo " ∷ command.query ∷ [])

-- What is behind a prefix, if the text has it
unfoldable pub behind_prefix : String → String → Option String
behind_prefix s String.[] = some s
behind_prefix String.[] (String.◌∷◌ d t) = none
behind_prefix (String.◌∷◌ c s) (String.◌∷◌ d t) =
    let rest = behind_prefix s t in if nat_eq (Char.code c) (Char.code d) then rest else none

-- A match of the marker: what is before it, the exit status, and what is behind it
pub record Match : Type 0 where
  pub before : String
  pub exit_code : ℤ
  pub after : String

abbrev pub negated : ℕ → ℤ
negated zero = pos 0
negated (suc n) = negsuc n

module _ (digit : ℕ → Option ℕ) where
  -- `\d+\n`, from a value on
  unfoldable pub read_digits : (value : ℕ) → (any_digit : Bool) → String → Option (ℕ × String)
  read_digits value any_digit String.[] = none
  read_digits value any_digit (String.◌∷◌ c s) = elim (digit (Char.code c)) [
    | some d ↦ read_digits (value * 10 + d) true s
    | none ↦ if any_digit && nat_eq (Char.code c) 10 then some (value, s) else none
  ]

  abbrev pub matched : (ℕ → ℤ) → Option (ℕ × String) → Option Match
  matched sign none = none
  matched sign (some (value, after)) =
      some (record { before = ""; exit_code = sign value; after = after })

  -- `-?\d+\n`
  abbrev pub status_in : String → Option Match
  status_in String.[] = none
  status_in (String.◌∷◌ c s) =
      if nat_eq (Char.code c) b'-'
      then matched negated (read_digits 0 false s)
      else matched (λ n. pos n) (read_digits 0 false (String.◌∷◌ c s))

  abbrev pub status_behind : Option String → Option Match
  status_behind none = none
  status_behind (some s) = status_in s

  -- A match of the marker at the beginning of a text
  unfoldable pub match_here : (token : String) → String → Option Match
  unfolding behind_prefix read_digits concat
  match_here token s = status_behind (behind_prefix s (concat ("\n" ∷ token ∷ [])))

  abbrev pub after_character : Char.Char → Option Match → Option Match
  after_character c none = none
  after_character c (some m) = some (record m { before = String.◌∷◌ c m.before })

  -- `marker.search(normalized)`: the first place where the marker matches
  unfoldable pub search : (token : String) → String → Option Match
  unfolding match_here
  search token String.[] = none
  search token (String.◌∷◌ c s) =
      let rest = search token s in
      elim (match_here token (String.◌∷◌ c s)) [ some m ↦ some m | none ↦ after_character c rest ]

-- `_remove_echo`
abbrev pub without_echo : String → Option String → String
without_echo normalized none = normalized
without_echo normalized (some rest) = lstrip (λ c. nat_eq c 10) rest

unfoldable pub remove_echo : (response submitted : String) → String
unfolding lstrip behind_prefix
remove_echo response submitted =
    let normalized = lstrip (λ c. nat_eq c 10) response in
    without_echo normalized (behind_prefix normalized submitted)

module _ (library : Library) (config : ConsoleSessionConfig) (digit : ℕ → Option ℕ) where
  -- The response, where the marker was found and the prompt ends what is behind it
  abbrev pub complete : Option Match → Option (String × ℤ)
  complete none = none
  complete (some m) =
      if has_suffix m.after config.prompt then some (m.before, m.exit_code) else none

  -- The loop of `_read_command_response`, with the polls that are left
  unfoldable pub read_command_response :
      (token : String) → (buffer : Bytes) → List Poll → List Poll × Result ConsoleError (String × ℤ)
  unfolding text_of search has_suffix
  read_command_response token buffer [] =
      ([], err (timed_out "Console command timed out" (text_of library config buffer)))
  read_command_response token buffer (received chunk ∷ polls) =
      elim (complete (search digit token (text_of library config (buffer ++ chunk)))) [
        | some response ↦ (polls, ok response)
        | none ↦ read_command_response token (buffer ++ chunk) polls
      ]
  read_command_response token buffer (exited ∷ polls) =
      (polls, err (transport_error "Console channel closed while a command was running"))
  read_command_response token buffer (idle ∷ polls) = read_command_response token buffer polls
  read_command_response token buffer (expired ∷ polls) =
      (polls, err (timed_out "Console command timed out" (text_of library config buffer)))

  -- The line that is submitted
  unfoldable pub submitted_line : (token status_name : String) → UnixCommand → String
  unfolding command_text concat
  submitted_line token status_name command = concat (
      "eval "
      ∷ library.quote (command_text library.quote command)
      ∷ "; "
      ∷ status_name
      ∷ "=$?; PS1="
      ∷ library.quote config.prompt
      ∷ "; printf '\\n"
      ∷ token
      ∷ "%s\\n' \"$"
      ∷ status_name
      ∷ "\""
      ∷ [])

  abbrev pub result_of :
      (submitted : String)
      → Session
      → List Poll × Result ConsoleError (String × ℤ)
      → Session × Result ConsoleError CommandResult
  result_of submitted s (polls, err e) = (record s { polls = polls }, err e)
  result_of submitted s (polls, ok (response, exit_code)) = (
    record s { polls = polls },
    ok (record { stdout = remove_echo response submitted; stderr = ""; exit_code = exit_code }),
  )

  -- `execute`, on a channel that is not closed
  unfoldable pub execute :
      (token status_name : String)
      → UnixCommand
      → Session
      → Session × Result ConsoleError CommandResult
  unfolding submitted_line send read_command_response remove_echo concat
  execute token status_name command s =
      let submitted = submitted_line token status_name command in
      let after = send (concat (submitted ∷ "\r" ∷ [])) s in
      result_of submitted after (read_command_response token [] after.polls)
