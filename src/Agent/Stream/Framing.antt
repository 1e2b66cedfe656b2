-- ===== src/Agent/Stream/Framing.antt =====
-- The loop answers each line of its input once.
use pytest_hardware_template.Prelude.{
  ℕ, zero, suc, ◌<◌, Bool, true, false, List, [], ◌∷◌, ltb, nat_eq, if◌then◌else◌, length, Result,
  ok, err, ◌≡◌, refl, sym, ◌∙◌, ap, arith, Bool-cases, inl, inr,
}
use pytest_hardware_template.Agent.Protocol.{
  Bytes, Response, Failure, agent_error, serial_error, overflow_error, value_error, failure,
  decode_request,
}
use pytest_hardware_template.Agent.Serial.{Port, Setting, SerialAgent}
use pytest_hardware_template.Agent.Stream.{
  readline, discard_line_remainder, Served, returned, answer, respond, handle_line, too_large,
  serve,
}
use pytest_hardware_template.Agent.Stream.Chunks.{
  first_line, first_line-length, first_line-positive, readline-first_line, remainder-first_line,
}

abbrev pub prepend : ℕ → List Bytes → List Bytes
prepend b [] = (b ∷ []) ∷ []
prepend b (l ∷ ls) = (b ∷ l) ∷ ls

-- The lines of the input, each with its line break.
unfoldable pub lines : Bytes → List Bytes
lines [] = []
lines (b ∷ bs) = let rest = lines bs in if nat_eq b 10 then (b ∷ []) ∷ rest else prepend b rest

lines-first_line :
    (b : ℕ) (bs : Bytes) → lines (b ∷ bs) ≡ (first_line (b ∷ bs)).0 ∷ lines (first_line (b ∷ bs)).1
unfolding lines first_line
lines-first_line b [] = ground arith
lines-first_line b (c ∷ bs) = elim (Bool-cases (nat_eq b 10)) [
  | inl t ↦ rw t refl
  | inr f ↦ rw f (ap (prepend b) (lines-first_line c bs))
]

respond-cong :
    (r : SerialAgent × Result Failure (Response × Bool)) (f g : SerialAgent → Served)
    → ((s : SerialAgent) → f s ≡ g s)
    → respond r f ≡ respond r g
respond-cong (s, ok (r, true)) f g h = refl
respond-cong (s, ok (r, false)) f g h = ap (answer r) (h s)
respond-cong (s, err (agent_error code message)) f g h = ap (answer (failure code message)) (h s)
respond-cong (s, err (serial_error text)) f g h = refl
respond-cong (s, err overflow_error) f g h = refl
respond-cong (s, err (value_error text)) f g h = refl

module _ (setting : Setting) (ports : ℕ → Port) (limit : ℕ) where
  -- What a line is answered with, before the lines that follow.
  abbrev pub answer_line : ℕ → Bytes → SerialAgent → (SerialAgent → Served) → Served
  answer_line n line s go_on =
      if ltb limit (length line)
      then answer (too_large setting ports limit) (go_on s)
      else respond (handle_line setting ports limit n (decode_request setting.codec line) s) go_on

  -- The reference: the lines of the input are answered one by one.
  pub serve_lines : ℕ → List Bytes → SerialAgent → Served
  serve_lines n [] s = returned [] s
  serve_lines n (line ∷ rest) s = answer_line n line s (serve_lines (suc n) rest)

  -- What the loop does with the chunk that it has read, if it is too long and if it is not.
  abbrev pub served_by : Bool → ℕ → ℕ → SerialAgent → Bytes × Bytes → Served
  served_by true fuel n s p =
      answer (too_large setting ports limit)
        (serve setting ports limit fuel (suc n) (discard_line_remainder (suc limit) p.0 p.1) s)
  served_by false fuel n s p =
      respond (handle_line setting ports limit n (decode_request setting.codec p.0) s)
        (serve setting ports limit fuel (suc n) p.1)

  abbrev pub served : ℕ → ℕ → SerialAgent → Bytes × Bytes → Served
  served fuel n s p = served_by (ltb limit (length p.0)) fuel n s p

  either_way :
      (c : Bool) (fuel n : ℕ) (s : SerialAgent) (p : Bytes × Bytes)
      → (if c then served_by true fuel n s p else served_by false fuel n s p)
        ≡ served_by c fuel n s p
  either_way true fuel n s p = refl
  either_way false fuel n s p = refl

  serve-served :
      (fuel n b : ℕ) (bs : Bytes) (s : SerialAgent)
      → serve setting ports limit (suc fuel) n (b ∷ bs) s
        ≡ served fuel n s (readline (suc limit) (b ∷ bs))
  unfolding serve
  serve-served fuel n b bs s =
      either_way (ltb limit (length (readline (suc limit) (b ∷ bs)).0)) fuel n s
        (readline (suc limit) (b ∷ bs))

  served-long :
      (fuel n : ℕ) (s : SerialAgent) (p : Bytes × Bytes) (rest : Bytes)
      → ltb limit (length p.0) ≡ true
      → discard_line_remainder (suc limit) p.0 p.1 ≡ rest
      → served fuel n s p
        ≡ answer (too_large setting ports limit) (serve setting ports limit fuel (suc n) rest s)
  served-long fuel n s p rest l r =
      ap (λ c. served_by c fuel n s p) l
      ∙ ap
          (λ i. answer (too_large setting ports limit) (serve setting ports limit fuel (suc n) i s))
          r

  serve-step :
      (fuel n b : ℕ) (bs : Bytes) (s : SerialAgent)
      → serve setting ports limit (suc fuel) n (b ∷ bs) s
        ≡ answer_line n
            (first_line (b ∷ bs)).0
            s
            (serve setting ports limit fuel (suc n) (first_line (b ∷ bs)).1)
  serve-step fuel n b bs s =
      serve-served fuel n b bs s ∙ elim (Bool-cases (ltb limit (length (first_line (b ∷ bs)).0))) [
        | inl t ↦
            let (l, r) = remainder-first_line limit (b ∷ bs) (ground arith) in
            served-long fuel n s (readline (suc limit) (b ∷ bs)) (first_line (b ∷ bs)).1 l r
            ∙ rw t refl
        | inr f ↦
            ap (served fuel n s) (readline-first_line (suc limit) (b ∷ bs) (ground arith))
            ∙ ap (λ c. served_by c fuel n s (first_line (b ∷ bs))) f
            ∙ rw f refl
      ]

  answer_line-cong :
      (n : ℕ) (line : Bytes) (s : SerialAgent) (f g : SerialAgent → Served)
      → ((u : SerialAgent) → f u ≡ g u)
      → answer_line n line s f ≡ answer_line n line s g
  answer_line-cong n line s f g h = elim (Bool-cases (ltb limit (length line))) [
    | inl t ↦ rw t (ap (answer (too_large setting ports limit)) (h s))
    | inr e ↦ rw e (respond-cong _ f g h)
  ]

  -- The loop over chunks of limited size, with what it discards, answers the lines of the input one
  -- by one, whatever their lengths: a line beyond the limit is answered once, as too large, and no
  -- part of it is taken for a request. One turn for each byte of the input, and one more, are enough.
  pub serve-lines :
      (fuel n : ℕ) (input : Bytes) (s : SerialAgent)
      → length input < fuel
      → serve setting ports limit fuel n input s ≡ serve_lines n (lines input) s
  unfolding serve_lines lines
  serve-lines zero n input s h = absurd (omega arith)
  serve-lines (suc fuel) n [] s h = unfold serve in refl
  serve-lines (suc fuel) n (b ∷ bs) s h =
      let p = first_line-positive b bs in
      let k = first_line-length (b ∷ bs) in
      serve-step fuel n b bs s
      ∙ answer_line-cong n (first_line (b ∷ bs)).0 s _ _
          (λ u. serve-lines fuel (suc n) (first_line (b ∷ bs)).1 u (omega arith))
      ∙ sym (ap (λ l. serve_lines n l s) (lines-first_line b bs))
