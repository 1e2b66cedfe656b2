-- ===== src/Agent/Stream.antt =====
-- helpers/serial-agent/src/hardware_serial_agent/__main__.py: the loop over the requests. The input
-- is the bytes up to its end; what the serial library answers to the n-th request is `ports n`.
pub mod Chunks
pub mod Framing
mod Witnesses
use pytest_hardware_template.Prelude.{
  ℕ, zero, suc, ◌+◌, Bool, true, false, Option, none, List, [], ◌∷◌, ◌++◌, ltb, nat_eq,
  if◌then◌else◌, length, Result, ok, err,
}
use pytest_hardware_template.Agent.Protocol.{
  Bytes, Response, Request, Failure, agent_error, serial_error, overflow_error, value_error,
  decode_request, failure, max_json_line_bytes,
}
use pytest_hardware_template.Agent.Serial.{Port, Setting, SerialAgent, handle, close}

-- `input_stream.readline(size)`: the line, and what is left
unfoldable pub readline : ℕ → Bytes → Bytes × Bytes
readline size [] = ([], [])
readline zero (b ∷ bs) = ([], b ∷ bs)
readline (suc size) (b ∷ bs) =
    let (line, rest) = readline size bs in if nat_eq b 10 then (b ∷ [], bs) else (b ∷ line, rest)

-- `chunk.endswith(b"\n")`
unfoldable pub ends_line : Bytes → Bool
ends_line [] = false
ends_line (b ∷ []) = nat_eq b 10
ends_line (b ∷ c ∷ bs) = ends_line (c ∷ bs)

-- The loop of `_discard_line_remainder`: what is left of the input.
unfoldable pub discard : (fuel size : ℕ) → Bytes → Bytes
unfolding readline ends_line
discard zero size input = input
discard (suc fuel) size [] = []
discard (suc fuel) size (b ∷ input) =
    let (chunk, rest) = readline size (b ∷ input) in
    let again = discard fuel size rest in if ends_line chunk then rest else again

-- `_discard_line_remainder`, after the first chunk
unfoldable pub discard_line_remainder : ℕ → Bytes → Bytes → Bytes
unfolding discard
discard_line_remainder size first_chunk input =
    if ends_line first_chunk then input else discard (length input) size input

-- How the loop ends, with its responses: by a return, or by an exception that nothing catches.
pub data Served : Type 0 where
  returned : List Response → SerialAgent → Served
  raised : List Response → SerialAgent → Failure → Served
  unfinished : Served

-- One response comes before those that follow.
abbrev pub answer : Response → Served → Served
answer r (returned rs s) = returned (r ∷ rs) s
answer r (raised rs s e) = raised (r ∷ rs) s e
answer r unfinished = unfinished

-- What the loop does with the outcome of one request; `go_on` is the rest of the loop.
abbrev pub respond :
    SerialAgent × Result Failure (Response × Bool) → (SerialAgent → Served) → Served
respond (s, ok (r, true)) go_on = returned (r ∷ []) s
respond (s, ok (r, false)) go_on = answer r (go_on s)
respond (s, err (agent_error code message)) go_on = answer (failure code message) (go_on s)
respond (s, err (serial_error text)) go_on = raised [] s (serial_error text)
respond (s, err overflow_error) go_on = raised [] s overflow_error
respond (s, err (value_error text)) go_on = raised [] s (value_error text)

module _ (setting : Setting) (ports : ℕ → Port) (limit : ℕ) where
  abbrev pub handle_line :
      ℕ → Result Failure Request → SerialAgent → SerialAgent × Result Failure (Response × Bool)
  handle_line n (ok request) s = handle setting (ports n) request s
  handle_line n (err e) s = (s, err e)

  abbrev pub too_large : Response
  too_large = failure "request_too_large" "JSON request line is too large"

  -- The loop of `run`, on fuel; a line is decoded by the setting's codec.
  unfoldable pub serve : (fuel : ℕ) → ℕ → Bytes → SerialAgent → Served
  unfolding readline discard_line_remainder
  serve zero n input s = unfinished
  serve (suc fuel) n [] s = returned [] s
  serve (suc fuel) n (b ∷ bs) s =
      let (line, rest) = readline (suc limit) (b ∷ bs) in
      if ltb limit (length line)
      then answer too_large (serve fuel (suc n) (discard_line_remainder (suc limit) line rest) s)
      else respond (handle_line n (decode_request setting.codec line) s) (serve fuel (suc n) rest)

  -- `finally: agent.close()`; an exception of it replaces the one that is under way.
  abbrev pub closed_after : List Response → SerialAgent × Result Failure Unit → Served → Served
  closed_after rs (s, ok _) (returned _ _) = returned rs s
  closed_after rs (s, ok _) (raised _ _ e) = raised rs s e
  closed_after rs (s, ok _) unfinished = unfinished
  closed_after rs (s, err e) served = raised rs s e

  unfoldable pub finally_close : Port → Served → Served
  unfolding close
  finally_close port (returned rs s) = closed_after rs (close port s) (returned rs s)
  finally_close port (raised rs s e) = closed_after rs (close port s) (raised rs s e)
  finally_close port unfinished = unfinished

  -- `run`: enough fuel for the input
  unfoldable pub run : Port → Bytes → Served
  unfolding serve finally_close
  run last input =
      finally_close last (serve (suc (length input)) 0 input (record { connection = none }))
