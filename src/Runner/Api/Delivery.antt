-- ===== src/Runner/Api/Delivery.antt =====
-- What the event stream delivers of a log that grows while it is read.
use mathlib.Core.Path.{subst}
use pytest_hardware_template.Prelude.{
  ℕ, ◌+◌, ◌≤◌, String, Bool, true, false, Option, none, some, List, [], ◌∷◌, ◌++◌, ◌≡◌, refl, sym,
  ap, ◌∙◌, length, length-drop, drop, arith, inl, inr,
}
use pytest_hardware_template.Runner.Models.{OperationState, is_terminal}
use pytest_hardware_template.Runner.Api.Stream.{
  Bytes, TextFiles, StreamEvent, Poll, read_lines, outputs, offset_behind, read_log, ending, ended,
  stream, initial_id, event_stream, end_by, differs,
}
use pytest_hardware_template.Runner.Api.Pieces.{
  AreFaithful, Follows, position_behind, stop, IsBeginning, IsGrowing, joined, joined-read_lines,
  continues, outputs-Follows, offset_behind-cases,
}

module _ (files : TextFiles) (faithful : AreFaithful files) where
  -- The offset leads to the position in every beginning of the log that reaches so far.
  abbrev Leads : Bytes → (offset position : ℕ) → Type 0
  Leads log offset position =
      (found more : Bytes)
      → log ≡ found ++ more
      → position ≤ length found
      → files.seek found offset ≡ position

  module _ (log : Bytes) (operation_id : Option String) where
    tell-Leads :
        (found more : Bytes) (n : ℕ)
        → log ≡ found ++ more
        → n ≡ length found
        → Leads log (files.tell found n) n
    tell-Leads found more n e h later rest k b =
        let c = continues found more later rest (sym e ∙ k) (omega (arith, h, b)) in
        subst (λ z. files.seek z (files.tell found n) ≡ n) (sym c)
          (faithful.seek-tell found (drop (length found) later) n (omega (arith, h)))

    lines-Leads :
        (found more : Bytes) (offset position : ℕ)
        → log ≡ found ++ more
        → position ≤ length found
        → Leads log offset position
        → Leads log
            (offset_behind files offset found position (read_lines (drop position found)))
            (position + length (drop position found))
    lines-Leads found more offset position e b h =
        let lines = read_lines (drop position found) in
        let all = joined-read_lines (drop position found) in
        elim (offset_behind-cases files faithful found lines offset position) [
          | inl (same, nothing) ↦
              let stays : position ≡ position + length (drop position found) =
                omega (arith, ap length (sym all ∙ nothing)) in
              subst (λ z. Leads log z (position + length (drop position found))) (sym same)
                (subst (Leads log offset) stays h)
          | inr told ↦
              subst (λ z. Leads log z (position + length (drop position found)))
                (sym (told ∙ ap (λ z. files.tell found (position + length z)) all))
                (tell-Leads found more (position + length (drop position found)) e
                  (omega (arith, length-drop position found)))
        ]

    read-Leads :
        (o : Option Bytes) (offset position : ℕ)
        → IsBeginning log position o
        → Leads log offset position
        → Leads log (read_log files operation_id offset o).1 (position_behind position o)
    unfolding read_log
    read-Leads none offset position b h = h
    read-Leads (some found) offset position (more, e, b) h =
        subst
          (λ z.
            Leads log (offset_behind files offset found z (read_lines (drop z found)))
              (position + length (drop position found)))
          (sym (h found more e b)) (lines-Leads found more offset position e b h)

    read-Follows :
        (o : Option Bytes) (offset position end : ℕ) (events : List StreamEvent)
        → IsBeginning log position o
        → Leads log offset position
        → Follows files log (position_behind position o) events end
        → Follows files log position ((read_log files operation_id offset o).0 ++ events) end
    unfolding read_log
    read-Follows none offset position end events b h f = f
    read-Follows (some found) offset position end events (more, e, b) h f =
        let all = joined-read_lines (drop position found) in
        subst
          (λ z.
            Follows files log position
              (outputs files operation_id found z (read_lines (drop z found)) ++ events) end)
          (sym (h found more e b))
          (subst
            (λ w.
              Follows files w position
                (outputs files operation_id found position (read_lines (drop position found))
                  ++ events)
                end)
            (sym e)
            (outputs-Follows files faithful found more operation_id
              (read_lines (drop position found)) position end events b (sym all)
              (subst
                (λ w.
                  Follows files w (position + length (joined (read_lines (drop position found))))
                    events end)
                e (subst (λ z. Follows files log (position + length z) events end) (sym all) f))))

    end_by-Follows :
        (position : ℕ) (b terminal : Bool) (state : OperationState) (rest : List StreamEvent)
        (end : ℕ)
        → Follows files log position rest end
        → Follows files log position
            (ended (end_by b terminal state) rest)
            (elim (end_by b terminal state) [ none ↦ end | some last ↦ position ])
    end_by-Follows position true terminal state rest end h = refl
    end_by-Follows position false true state rest end h = refl
    end_by-Follows position false false state rest end h = h

    ending-Follows :
        (position : ℕ) (o : Option OperationState) (rest : List StreamEvent) (end : ℕ)
        → Follows files log position rest end
        → Follows files log position
            (ended (ending operation_id o) rest)
            (elim (ending operation_id o) [ none ↦ end | some last ↦ position ])
    ending-Follows position none rest end h = refl
    ending-Follows position (some state) rest end h =
        end_by-Follows position (differs operation_id state.operation_id) (is_terminal state.status)
          state rest end h

    stream-Follows :
        (polls : List Poll) (offset position : ℕ)
        → Leads log offset position
        → IsGrowing log position polls
        → Follows files log position
            (stream files operation_id offset polls)
            (stop operation_id position polls)
    unfolding stream
    stream-Follows [] offset position h g = refl
    stream-Follows (poll ∷ polls) offset position h (g, gs) =
        read-Follows poll.log offset position _ _ g h (
          ending-Follows (position_behind position poll.log) poll.state _ _ (
            stream-Follows polls _ (position_behind position poll.log)
              (read-Leads poll.log offset position g h) gs))

  -- If the numbers of `tell` lead back to their positions, and while the log only grows: the events of
  -- a stream are the log as it was read last, in pieces one behind the other: nothing that was read
  -- is left out, repeated or out of place. Each event has the text of its piece, decoded, with its
  -- ends of lines translated and dropped at the end, and a number that leads behind its piece.
  pub event_stream-Follows :
      (log : Bytes) (initial : Option OperationState) (polls : List Poll)
      → IsGrowing log 0 polls
      → Follows files log 0 (event_stream files initial polls) (stop (initial_id initial) 0 polls)
  unfolding event_stream
  event_stream-Follows log initial polls h =
      stream-Follows log (initial_id initial) polls 0 0
        (λ found more e b. faithful.seek_start found) h
