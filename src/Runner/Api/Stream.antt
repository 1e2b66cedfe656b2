-- ===== src/Runner/Api/Stream.antt =====
-- helpers/test-runner-service/src/test_runner_service/api.py: `_event_stream`. A log is the list of its
-- bytes. The text layer of `open` is in part a parameter: the decoding of a line, and the numbers by
-- which `tell` and `seek` name a position in a file. One turn of the loop reads the log to its end and
-- then the record, with no other task between; a poll is what it finds then. A turn ends in a sleep; a
-- client that goes away ends the list of polls.
use pytest_hardware_template.Prelude.{
  ℕ, ◌+◌, String, Bool, true, false, Option, none, some, List, [], ◌∷◌, ◌++◌, not, ◌==◌, ◌||◌, ◌&&◌,
  if◌then◌else◌, nat_eq, length, drop,
}
use pytest_hardware_template.Runner.Models.{OperationState, is_terminal}

abbrev pub Characters : Type 0
Characters = List ℕ

abbrev pub Bytes : Type 0
Bytes = List ℕ

-- `decode` is UTF-8 with `errors="replace"`. `tell` gives the number for a position of a file, which is
-- opaque, and `seek` the position of a file for a number.
pub record TextFiles : Type 0 where
  pub decode : Bytes → Characters
  pub tell : (found : Bytes) → (position : ℕ) → ℕ
  pub seek : (found : Bytes) → (offset : ℕ) → ℕ

-- The events, as `_sse` writes them: name, data and identifier
pub data StreamEvent : Type 0 where
  output : (operation_id : Option String) → (text : Characters) → (event_id : ℕ) → StreamEvent
  reset : (operation_id : String) → StreamEvent
  status : OperationState → StreamEvent

-- What a turn finds: the log, where there is one, and the record
pub record Poll : Type 0 where
  pub log : Option Bytes
  pub state : Option OperationState

abbrev pub onto : ℕ → List Bytes → List Bytes
onto c [] = (c ∷ []) ∷ []
onto c (l ∷ ls) = (c ∷ l) ∷ ls

abbrev pub begins_with_lf : Bytes → Bool
begins_with_lf [] = false
begins_with_lf (c ∷ cs) = nat_eq c 10

-- The bytes that `readline` takes, up to the end: lines with their ends, the last one perhaps without.
-- With universal newlines a line ends in "\n", "\r" or "\r\n".
unfoldable pub read_lines : Bytes → List Bytes
read_lines [] = []
read_lines (c ∷ cs) =
    let rest = read_lines cs in
    if nat_eq c 10 || (nat_eq c 13 && not (begins_with_lf cs)) then (c ∷ []) ∷ rest else onto c rest

-- The translation of the ends of lines
unfoldable pub universal_newlines : Characters → Characters
universal_newlines [] = []
universal_newlines (c ∷ cs) =
    let rest = universal_newlines cs in
    if nat_eq c 13 then (if begins_with_lf cs then rest else 10 ∷ rest) else c ∷ rest

-- `line.rstrip("\n")`
unfoldable pub rstrip_newlines : Characters → Characters
rstrip_newlines [] = []
rstrip_newlines (c ∷ cs) = elim (rstrip_newlines cs) [
  | [] ↦ if nat_eq c 10 then [] else c ∷ []
  | d ∷ ds ↦ c ∷ d ∷ ds
]

module _ (files : TextFiles) where
  -- The events of lines that begin at a position of the file, each with what `tell` gives behind it
  unfoldable pub outputs : Option String → Bytes → ℕ → List Bytes → List StreamEvent
  unfolding rstrip_newlines universal_newlines
  outputs operation_id found position [] = []
  outputs operation_id found position (line ∷ lines) =
      output operation_id (rstrip_newlines (universal_newlines (files.decode line)))
        (files.tell found (position + length line))
      ∷ outputs operation_id found (position + length line) lines

  -- `offset` behind the lines that were read: it stays where there are none.
  abbrev pub offset_behind : ℕ → Bytes → ℕ → List Bytes → ℕ
  offset_behind offset found position [] = offset
  offset_behind offset found position (line ∷ lines) =
      offset_behind (files.tell found (position + length line)) found (position + length line) lines

  -- One reading of the file, from `stream.seek(offset)` on: nothing where there is no file
  unfoldable pub read_log : Option String → ℕ → Option Bytes → List StreamEvent × ℕ
  unfolding outputs read_lines drop
  read_log operation_id offset none = ([], offset)
  read_log operation_id offset (some found) =
      let position = files.seek found offset in
      let lines = read_lines (drop position found) in
      (outputs operation_id found position lines, offset_behind offset found position lines)

abbrev pub differs : Option String → String → Bool
differs none s = true
differs (some t) s = not (s == t)

-- The last event, if the stream ends here
abbrev pub end_by : Bool → Bool → OperationState → Option (List StreamEvent)
end_by true terminal state = some (reset state.operation_id ∷ [])
end_by false true state = some (status state ∷ [])
end_by false false state = none

abbrev pub ending : Option String → Option OperationState → Option (List StreamEvent)
ending operation_id none = some []
ending operation_id (some state) =
    end_by (differs operation_id state.operation_id) (is_terminal state.status) state

abbrev pub ended : {A : Type 0} → Option A → A → A
ended none rest = rest
ended (some last) rest = last

module _ (files : TextFiles) where
  -- The loop of `_event_stream`
  unfoldable pub stream : Option String → ℕ → List Poll → List StreamEvent
  unfolding read_log is_terminal
  stream operation_id offset [] = []
  stream operation_id offset (poll ∷ polls) =
      let (events, behind) = read_log files operation_id offset poll.log in
      let rest = stream operation_id behind polls in
      events ++ ended (ending operation_id poll.state) rest

-- `initial.operation_id if initial is not None else None`
abbrev pub initial_id : Option OperationState → Option String
initial_id none = none
initial_id (some state) = some state.operation_id

-- `_event_stream`
unfoldable pub event_stream : TextFiles → Option OperationState → List Poll → List StreamEvent
unfolding stream
event_stream files initial polls = stream files (initial_id initial) 0 polls
