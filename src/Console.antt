-- ===== src/Console.antt =====
-- src/hardware_test/transport/console.py: `LinuxConsoleSession.prepare`, the login on a console. The
-- clock and the channel are in the list of polls: what the turns of the reading loops find, one by one.
-- The decoding of UTF-8, `shlex.quote` and `str.replace` are parameters.
pub mod Execute
pub mod Serial
pub mod Reading
pub mod Dialogue
mod Witnesses
use pytest_hardware_template.Prelude.{
  ℕ, String, Bool, true, false, Option, none, some, List, [], ◌∷◌, ◌++◌, ◌||◌, ◌&&◌, not, ◌==◌,
  if◌then◌else◌, nat_eq, has_suffix, concat, Result, ok, err,
}
use pytest_hardware_template.Agent.Protocol.{Bytes}
use pytest_hardware_template.Stand.Injected.{ConsoleSessionConfig}

-- What a turn of a loop finds: bytes, the end of the channel, nothing yet, or that time is up
pub data Poll : Type 0 where
  received : Bytes → Poll
  exited idle expired : Poll

-- `TransportError` and `TransportTimeoutError`; a timeout tells what was received.
pub data ConsoleError : Type 0 where
  transport_error : String → ConsoleError
  timed_out : (context partial : String) → ConsoleError

-- What passes over the console, as the session sees it: what it sends, and the states that it reads
pub data Step : Type 0 where
  sent : String → Step
  saw : String → Step

-- The polls that are to come, and the steps so far, the last one first
pub record Session : Type 0 where
  pub polls : List Poll
  pub steps : List Step

pub record Library : Type 0 where
  pub decode : Bytes → String
  pub quote : String → String
  pub replace : (value old new : String) → String

-- `_normalize_bytes`: the ends of lines become line feeds.
unfoldable pub normalize_bytes : (after_return : Bool) → Bytes → Bytes
normalize_bytes after_return [] = []
normalize_bytes after_return (c ∷ cs) =
    let rest = normalize_bytes (nat_eq c 13) cs in
    if nat_eq c 13 then 10 ∷ rest else if nat_eq c 10 && after_return then rest else c ∷ rest

unfoldable pub first_suffix : String → List String → Option String
unfolding has_suffix
first_suffix text [] = none
first_suffix text (marker ∷ markers) =
    let rest = first_suffix text markers in if has_suffix text marker then some marker else rest

-- The session behind a call, and whether it raised
abbrev pub Outcome : Type 0
Outcome = Session × Result ConsoleError Unit

abbrev pub failed : String → Session → Outcome
failed text s = (s, err (transport_error text))

abbrev pub done_or_failed : Session × Result ConsoleError String → Outcome
done_or_failed (s, err e) = (s, err e)
done_or_failed (s, ok marker) = (s, ok tt)

abbrev pub noted :
    List Step → List Poll × Result ConsoleError String → Session × Result ConsoleError String
noted steps (polls, err e) = (record { polls = polls; steps = steps }, err e)
noted steps (polls, ok marker) = (record { polls = polls; steps = saw marker ∷ steps }, ok marker)

-- `self._channel.sendall(...)`
unfoldable pub send : String → Session → Session
send text s = record s { steps = sent text ∷ s.steps }

module _ (library : Library) (config : ConsoleSessionConfig) where
  unfoldable pub text_of : Bytes → String
  unfolding normalize_bytes
  text_of buffer = library.decode (normalize_bytes false buffer)

  -- `_redact_console_password`
  abbrev pub redact : Option String → String → String
  redact none value = value
  redact (some password) value = library.replace value password "**********"

  abbrev pub partial_text : (redact_password : Bool) → Bytes → String
  partial_text true buffer = redact config.password (text_of buffer)
  partial_text false buffer = text_of buffer

  -- The loop of `_read_until_any`, with the polls that are left
  unfoldable pub read_until_any :
      (markers : List String)
      → (context : String) → (redact_password : Bool) → (buffer : Bytes) → List Poll
      → List Poll × Result ConsoleError String
  unfolding text_of first_suffix
  read_until_any markers context redacting buffer [] =
      ([], err (timed_out context (partial_text redacting buffer)))
  read_until_any markers context redacting buffer (received chunk ∷ polls) =
      elim (first_suffix (text_of (buffer ++ chunk)) markers) [
        | some marker ↦ (polls, ok marker)
        | none ↦ read_until_any markers context redacting (buffer ++ chunk) polls
      ]
  read_until_any markers context redacting buffer (exited ∷ polls) = (
    polls,
    err (transport_error (concat ("Console channel closed while waiting for " ∷ context ∷ []))),
  )
  read_until_any markers context redacting buffer (idle ∷ polls) =
      read_until_any markers context redacting buffer polls
  read_until_any markers context redacting buffer (expired ∷ polls) =
      (polls, err (timed_out context (partial_text redacting buffer)))

  unfoldable pub read_any :
      List String
      → (context : String) → (redact_password : Bool) → Session
      → Session × Result ConsoleError String
  unfolding read_until_any
  read_any markers context redacting s =
      noted s.steps (read_until_any markers context redacting [] s.polls)

  -- `_read_console_state`
  unfoldable pub read_console_state : Bool → Session → Session × Result ConsoleError String
  unfolding read_any
  read_console_state redacting s =
      read_any
        (config.prompt ∷ config.login_prompt ∷ config.password_prompt ∷ config.initial_prompt_suffix
          ∷ [])
        "device console state" redacting s

  abbrev pub export_text : String
  export_text = concat ("export PS1=" ∷ library.quote config.prompt ∷ "\r" ∷ [])

  -- `export PS1=...`, and the prompt that it sets
  unfoldable pub set_prompt : Session → Outcome
  unfolding read_any send concat
  set_prompt s =
      done_or_failed (read_any (config.prompt ∷ []) "shell prompt" false (send export_text s))

  -- The state in which the console is after the login
  unfoldable pub conclude : String → Session → Outcome
  unfolding set_prompt
  conclude state s =
      if state == config.login_prompt || state == config.password_prompt
      then failed "Device console authentication failed" s
      else if not (state == config.initial_prompt_suffix) && not (state == config.prompt)
      then failed "Device console did not reach a recognized shell prompt" s
      else if not (state == config.prompt)
      then set_prompt s
      else (s, ok tt)

  abbrev pub concluded : Session × Result ConsoleError String → Outcome
  concluded (s, err e) = (s, err e)
  concluded (s, ok state) = conclude state s

  -- `_send_console_password`
  abbrev pub with_password : Option String → Session → Outcome
  with_password none s =
      failed "Device console requires a password, but console credentials are not configured" s
  with_password (some password) s =
      concluded (read_console_state true (send (concat (password ∷ "\r" ∷ [])) s))

  unfoldable pub enter_password : String → Session → Outcome
  unfolding conclude read_console_state send concat
  enter_password state s =
      if state == config.password_prompt then with_password config.password s else conclude state s

  abbrev pub with_state : Session × Result ConsoleError String → Outcome
  with_state (s, err e) = (s, err e)
  with_state (s, ok state) = enter_password state s

  -- `_send_console_username`
  abbrev pub with_username : Option String → Option String → Session → Outcome
  with_username (some username) (some password) s =
      with_state (read_console_state false (send (concat (username ∷ "\r" ∷ [])) s))
  with_username _ _ s =
      failed "Device console requires login, but console credentials are not configured" s

  unfoldable pub log_in : String → Session → Outcome
  unfolding enter_password read_console_state send concat
  log_in state s =
      if state == config.prompt
      then (s, ok tt)
      else if state == config.login_prompt
      then with_username config.username config.password s
      else enter_password state s

  abbrev pub logged_in : Session × Result ConsoleError String → Outcome
  logged_in (s, err e) = (s, err e)
  logged_in (s, ok state) = log_in state s

  -- `LinuxConsoleSession.prepare`
  unfoldable pub prepare : Session → Outcome
  unfolding log_in read_console_state send
  prepare s = logged_in (read_console_state false (send "\r" s))
