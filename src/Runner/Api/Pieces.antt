-- ===== src/Runner/Api/Pieces.antt =====
-- The pieces of a log that the event stream reads, and the positions behind them.
use mathlib.Core.Path.{subst}
use mathlib.Core.List.{append_assoc}
use pytest_hardware_template.Prelude.{
  ℕ, not, ◌||◌, ◌&&◌, ◌+◌, ◌≤◌, String, ◌⊎◌, Option, none, some, List, [], ◌∷◌, ◌++◌, ◌≡◌, refl,
  sym, ap, ◌∙◌, nat_eq, length, length-append, length-drop, drop, drop-add, drop-length,
  drop-append, arith, Bool-cases, inl, inr,
}
use pytest_hardware_template.Runner.Api.Stream.{
  Bytes, TextFiles, StreamEvent, output, reset, status, Poll, onto, begins_with_lf, read_lines,
  universal_newlines, rstrip_newlines, outputs, offset_behind, ending,
}

-- What the documentation of `tell` says: the number for a position of a file leads back to it, also
-- when the file has grown. And 0 is its beginning.
pub record AreFaithful (files : TextFiles) : Type 0 where
  pub seek-tell :
      (found more : Bytes) (position : ℕ)
      → position ≤ length found
      → files.seek (found ++ more) (files.tell found position) ≡ position
  pub seek_start : (found : Bytes) → files.seek found 0 ≡ 0

module _ (files : TextFiles) where
  -- The outputs among the events are one piece after the other of the log, from the position to the
  -- end. Each has the text of its piece, decoded, with its ends of lines translated and without those
  -- behind it, and a number that leads to the position behind its piece.
  abbrev pub Follows : (log : Bytes) → (position : ℕ) → List StreamEvent → (end : ℕ) → Type 0
  Follows log position [] end = position ≡ end
  Follows log position (output operation_id text event_id ∷ events) end =
      (piece : Bytes) × (rest : Bytes) × (drop position log ≡ piece ++ rest)
      × (text ≡ rstrip_newlines (universal_newlines (files.decode piece)))
      × (files.seek log event_id ≡ position + length piece)
      × Follows log (position + length piece) events end
  Follows log position (reset operation_id ∷ events) end = Follows log position events end
  Follows log position (status state ∷ events) end = Follows log position events end

-- The position behind what a turn reads from a position on
abbrev pub position_behind : ℕ → Option Bytes → ℕ
position_behind position none = position
position_behind position (some found) = position + length (drop position found)

-- The position behind what was read in the last turn
abbrev pub stop : Option String → ℕ → List Poll → ℕ
stop operation_id position [] = position
stop operation_id position (poll ∷ polls) =
    let behind = position_behind position poll.log in
    let rest = stop operation_id behind polls in
    elim (ending operation_id poll.state) [ none ↦ rest | some last ↦ behind ]

-- What a turn finds is a beginning of the whole log, not shorter than what was read before.
abbrev pub IsBeginning : Bytes → ℕ → Option Bytes → Type 0
IsBeginning log position none = Unit
IsBeginning log position (some found) =
    (more : Bytes) × (log ≡ found ++ more) × (position ≤ length found)

-- The log only grows from turn to turn.
abbrev pub IsGrowing : Bytes → ℕ → List Poll → Type 0
IsGrowing log position [] = Unit
IsGrowing log position (poll ∷ polls) =
    IsBeginning log position poll.log × IsGrowing log (position_behind position poll.log) polls

abbrev pub joined : List Bytes → Bytes
joined [] = []
joined (l ∷ ls) = l ++ joined ls

joined-onto : (c : ℕ) (ls : List Bytes) → joined (onto c ls) ≡ c ∷ joined ls
joined-onto c [] = refl
joined-onto c (l ∷ ls) = refl

-- Reading by lines loses nothing.
pub joined-read_lines : (cs : Bytes) → joined (read_lines cs) ≡ cs
unfolding read_lines
joined-read_lines [] = refl
joined-read_lines (c ∷ cs) =
    elim (Bool-cases (nat_eq c 10 || (nat_eq c 13 && not (begins_with_lf cs)))) [
      | inl t ↦ rw t (ap (λ z. c ∷ z) (joined-read_lines cs))
      | inr f ↦ rw f (joined-onto c (read_lines cs) ∙ ap (λ z. c ∷ z) (joined-read_lines cs))
    ]

pub line-within :
    (position : ℕ) (found l rest : Bytes)
    → position ≤ length found
    → drop position found ≡ l ++ rest
    → position + length l ≤ length found
line-within position found l rest b h =
    omega (arith, length-drop position found, b, ap length h, length-append l rest)

tail-injective : {a b : ℕ} {xs ys : Bytes} → a ∷ xs ≡ b ∷ ys → xs ≡ ys
tail-injective h = cc

head-injective : {a b : ℕ} {xs ys : Bytes} → a ∷ xs ≡ b ∷ ys → a ≡ b
head-injective h = cc

-- Of two beginnings of one log the longer one continues the shorter one.
pub continues :
    (found more later rest : Bytes)
    → found ++ more ≡ later ++ rest
    → length found ≤ length later
    → later ≡ found ++ drop (length found) later
unfolding drop
continues [] more later rest e h = refl
continues (c ∷ found) more [] rest e h = absurd (omega arith)
continues (c ∷ found) more (d ∷ later) rest e h =
    ap (λ z. z ∷ later) (sym (head-injective e))
    ∙ ap (λ z. c ∷ z) (continues found more later rest (tail-injective e) (omega arith))

module _ (files : TextFiles) (faithful : AreFaithful files) where
  pub outputs-Follows :
      (found more : Bytes) (operation_id : Option String) (lines : List Bytes) (position end : ℕ)
      (events : List StreamEvent)
      → position ≤ length found
      → drop position found ≡ joined lines
      → Follows files (found ++ more) (position + length (joined lines)) events end
      → Follows files
          (found ++ more)
          position
          (outputs files operation_id found position lines ++ events)
          end
  unfolding outputs
  outputs-Follows found more operation_id [] position end events b h f =
      subst (λ n. Follows files (found ++ more) n events end) (omega arith) f
  outputs-Follows found more operation_id (l ∷ ls) position end events b h f =
      let here : drop position (found ++ more) ≡ l ++ (joined ls ++ more) =
        drop-append position found more b
        ∙ ap (λ z. z ++ more) h
        ∙ append_assoc l (joined ls) more in
      let next : drop (position + length l) found ≡ joined ls =
        drop-add position (length l) found ∙ ap (drop (length l)) h ∙ drop-length l (joined ls) in
      let within : position + length l ≤ length found =
        line-within position found l (joined ls) b h in
      let behind : position + length (l ++ joined ls) ≡ (position + length l) + length (joined ls) =
        omega (arith, length-append l (joined ls)) in
      (
        l,
        joined ls ++ more,
        here,
        refl,
        faithful.seek-tell found more (position + length l) within,
        outputs-Follows found more operation_id ls (position + length l) end events within next
            (subst (λ n. Follows files (found ++ more) n events end) behind f),
      )

  -- The offset behind the lines is the one before them, or what `tell` gives there.
  pub offset_behind-cases :
      (found : Bytes) (lines : List Bytes) (offset position : ℕ)
      → ((offset_behind files offset found position lines ≡ offset) × (joined lines ≡ []))
        ⊎ (offset_behind files offset found position lines
            ≡ files.tell found (position + length (joined lines)))
  offset_behind-cases found [] offset position = inl (refl, refl)
  offset_behind-cases found (l ∷ ls) offset position =
      elim (offset_behind-cases found ls (files.tell found (position + length l))
        (position + length l)) [
          | inl (e, j) ↦
              inr (
                e ∙ ap (files.tell found) (omega (arith, length-append l (joined ls), ap length j)))
          | inr e ↦ inr (e ∙ ap (files.tell found) (omega (arith, length-append l (joined ls))))
        ]
