-- ===== src/Agent/Stream/Chunks.antt =====
-- __main__.py of the serial agent: what `readline` and the discarding of a long line leave.
use pytest_hardware_template.Prelude.{
  ℕ, zero, suc, ◌+◌, ◌≤◌, ◌<◌, true, false, [], ◌∷◌, ltb, nat_eq, if◌then◌else◌, length, ◌≡◌, ◌≢◌,
  refl, ◌∙◌, ap, arith, Bool-cases, inl, inr,
}
use pytest_hardware_template.Agent.Protocol.{Bytes}
use pytest_hardware_template.Agent.Stream.{readline, ends_line, discard, discard_line_remainder}

-- The first line of the input with the line break, and what follows it.
unfoldable pub first_line : Bytes → Bytes × Bytes
first_line [] = ([], [])
first_line (b ∷ bs) =
    let (line, rest) = first_line bs in if nat_eq b 10 then (b ∷ [], bs) else (b ∷ line, rest)

pub readline-first_line :
    (size : ℕ) (bs : Bytes) → length (first_line bs).0 ≤ size → readline size bs ≡ first_line bs
unfolding readline first_line
readline-first_line size [] h = refl
readline-first_line zero (b ∷ bs) h = absurd (ground arith)
readline-first_line (suc size) (b ∷ bs) h = ground (arith, readline-first_line size bs)

ends_line-cons :
    (b : ℕ) (bs : Bytes) → nat_eq b 10 ≡ false → ends_line bs ≡ false → ends_line (b ∷ bs) ≡ false
unfolding ends_line
ends_line-cons b [] n h = n
ends_line-cons b (c ∷ bs) n h = h

-- A chunk of a longer line: as many bytes as were asked for, without the line's end.
readline-chunk :
    (size : ℕ) (bs : Bytes)
    → size < length (first_line bs).0
    → (length (readline size bs).0 ≡ size)
      × (ends_line (readline size bs).0 ≡ false)
      × ((first_line (readline size bs).1).1 ≡ (first_line bs).1)
unfolding readline first_line ends_line
readline-chunk size [] h = absurd (omega arith)
readline-chunk zero (b ∷ bs) h = (refl, refl, refl)
readline-chunk (suc size) (b ∷ bs) h =
    let n : nat_eq b 10 ≡ false = ground arith in
    let (l, e, r) = readline-chunk size bs (ground arith) in
    rw n (ap (λ k. suc k) l, ends_line-cons b (readline size bs).0 n e, r)

ends_line_later : (b : ℕ) (bs : Bytes) → ends_line bs ≡ true → ends_line (b ∷ bs) ≡ true
unfolding ends_line
ends_line_later b [] h = cc
ends_line_later b (c ∷ bs) h = h

ends_line-first_line : (bs : Bytes) → ((first_line bs).1 ≢ []) → ends_line (first_line bs).0 ≡ true
unfolding first_line ends_line
ends_line-first_line [] h = absurd (h refl)
ends_line-first_line (b ∷ bs) h = elim (Bool-cases (nat_eq b 10)) [
  | inl t ↦ rw t t
  | inr n ↦ rw n (ends_line_later b (first_line bs).0 (ends_line-first_line bs (λ z. h (rw n z))))
]

-- What is left after a chunk of a longer line is shorter by its bytes.
readline-length :
    (size : ℕ) (bs : Bytes) → length (readline size bs).0 + length (readline size bs).1 ≡ length bs
unfolding readline
readline-length size [] = refl
readline-length zero (b ∷ bs) = omega arith
readline-length (suc size) (b ∷ bs) = ground (arith, readline-length size bs)

pub first_line-length :
    (bs : Bytes) → length (first_line bs).0 + length (first_line bs).1 ≡ length bs
unfolding first_line
first_line-length [] = refl
first_line-length (b ∷ bs) = ground (arith, first_line-length bs)

discard-nil : (fuel size : ℕ) → discard fuel size [] ≡ []
unfolding discard
discard-nil zero size = refl
discard-nil (suc fuel) size = refl

-- What the loop does with a chunk and the rest of the input.
abbrev pub resumed : (fuel size : ℕ) → Bytes × Bytes → Bytes
resumed fuel size p = if ends_line p.0 then p.1 else discard fuel size p.1

resumed-rest :
    (fuel size : ℕ) (line rest : Bytes)
    → (rest ≢ [] → ends_line line ≡ true)
    → resumed fuel size (line, rest) ≡ rest
resumed-rest fuel size line [] h = elim (Bool-cases (ends_line line)) [
  | inl t ↦ rw t refl
  | inr f ↦ rw f (discard-nil fuel size)
]
resumed-rest fuel size line (c ∷ cs) h = rw (h (λ e. cc)) refl

discard-resumed :
    (fuel size b : ℕ) (bs : Bytes)
    → discard (suc fuel) size (b ∷ bs) ≡ resumed fuel size (readline size (b ∷ bs))
unfolding discard
discard-resumed fuel size b bs = refl

-- Discarding reads up to the end of the line.
discard-first_line :
    (fuel size : ℕ) (bs : Bytes) → length bs ≤ fuel → discard fuel (suc size) bs ≡ (first_line bs).1
discard-first_line fuel size [] h = discard-nil fuel (suc size) ∙ unfold first_line in refl
discard-first_line zero size (b ∷ bs) h = absurd (omega arith)
discard-first_line (suc fuel) size (b ∷ bs) h =
    discard-resumed fuel (suc size) b bs
    ∙ elim (Bool-cases (ltb (suc size) (length (first_line (b ∷ bs)).0))) [
      | inl t ↦
          let (l, e, r) = readline-chunk (suc size) (b ∷ bs) (ground arith) in
          let k = readline-length (suc size) (b ∷ bs) in
          ap
            (λ c.
              if c
              then (readline (suc size) (b ∷ bs)).1
              else discard fuel (suc size) (readline (suc size) (b ∷ bs)).1)
            e
          ∙ discard-first_line fuel size (readline (suc size) (b ∷ bs)).1 (omega arith)
          ∙ r
      | inr f ↦
          ap (resumed fuel (suc size)) (readline-first_line (suc size) (b ∷ bs) (ground arith))
          ∙ resumed-rest fuel (suc size) (first_line (b ∷ bs)).0 (first_line (b ∷ bs)).1
              (ends_line-first_line (b ∷ bs))
    ]

pub first_line-positive : (b : ℕ) (bs : Bytes) → 1 ≤ length (first_line (b ∷ bs)).0
unfolding first_line
first_line-positive b bs = ground arith

-- A line beyond the limit is seen to be so, and is discarded whole.
pub remainder-first_line :
    (limit : ℕ) (bs : Bytes)
    → limit < length (first_line bs).0
    → (ltb limit (length (readline (suc limit) bs).0) ≡ true)
      × (discard_line_remainder (suc limit) (readline (suc limit) bs).0 (readline (suc limit) bs).1
          ≡ (first_line bs).1)
unfolding discard_line_remainder
remainder-first_line limit bs h = elim (Bool-cases (ltb (suc limit) (length (first_line bs).0))) [
  | inl t ↦
      let (l, e, r) = readline-chunk (suc limit) bs (ground arith) in
      (
        ground arith,
        ap
              (λ c.
                if c
                then (readline (suc limit) bs).1
                else discard (length (readline (suc limit) bs).1) (suc limit)
                    (readline (suc limit) bs).1)
              e
            ∙ discard-first_line (length (readline (suc limit) bs).1) limit
                (readline (suc limit) bs).1 (omega arith)
            ∙ r,
      )
  | inr f ↦
      let same = readline-first_line (suc limit) bs (ground arith) in
      (
        ap (λ p. ltb limit (length p.0)) same ∙ ground arith,
        ap (λ (p : Bytes × Bytes). resumed (length p.1) (suc limit) p) same
            ∙ resumed-rest (length (first_line bs).1) (suc limit) (first_line bs).0
                (first_line bs).1 (ends_line-first_line bs),
      )
]
