-- ===== src/Runner/Api/Witnesses.antt =====
-- The theorem on the event stream, for a log of three lines that is read in two turns.
use pytest_hardware_template.Prelude.{drop, some, List, [], ◌∷◌, refl, arith}
use pytest_hardware_template.Runner.Models.{OperationState, OperationStatus}
use pytest_hardware_template.Runner.Coordinator.{run_state}
use pytest_hardware_template.Runner.Samples.{world}
use pytest_hardware_template.Runner.Api.Stream.{Bytes, TextFiles, Poll, event_stream, initial_id}
use pytest_hardware_template.Runner.Api.Pieces.{AreFaithful, Follows, stop}
use pytest_hardware_template.Runner.Api.Delivery.{event_stream-Follows}

abbrev running : OperationState
running = run_state world "run-1" "sha256:abc" "bench" "smoke"

-- "a", CR, "b", CR, LF, "c", LF
abbrev log : Bytes
log = 97 ∷ 13 ∷ 98 ∷ 13 ∷ 10 ∷ 99 ∷ 10 ∷ []

-- ASCII files, where `tell` gives the position itself
abbrev files : TextFiles
files = record {
  decode = λ line. line;
  tell = λ found position. position;
  seek = λ found offset. offset;
}

files-AreFaithful : AreFaithful files
files-AreFaithful = record { seek-tell = λ found more position b. refl; seek_start = λ found. refl }

-- The first turn finds the log up to its second CR, the second one all of it.
abbrev polls : List Poll
polls =
    record { log = some (97 ∷ 13 ∷ 98 ∷ 13 ∷ []); state = some running }
    ∷ record { log = some log; state = some (record running { status = OperationStatus.passed }) }
    ∷ []

event_stream-Follows_example :
    Follows files log 0
      (event_stream files (some running) polls)
      (stop (initial_id (some running)) 0 polls)
unfolding drop
event_stream-Follows_example =
    event_stream-Follows files files-AreFaithful log (some running) polls
      ((10 ∷ 99 ∷ 10 ∷ [], refl, omega arith), (([], refl, omega arith), tt))
