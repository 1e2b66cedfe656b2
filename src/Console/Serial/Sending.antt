-- ===== src/Console/Serial/Sending.antt =====
-- What a channel sends of a payload.
use mathlib.Core.Path.{subst}
use mathlib.Core.List.{append_assoc, append-nil}
use pytest_hardware_template.Prelude.{
  ℕ, zero, suc, ◌≤◌, Option, none, some, [], ◌∷◌, ◌++◌, ◌≡◌, ◌⊎◌, inl, inr, refl, sym, ap, ◌∙◌,
  length, take, drop, take-drop, length-drop, ok, err, arith,
}
use pytest_hardware_template.Agent.Protocol.{Bytes}
use pytest_hardware_template.Console.Serial.{
  SerialError, no_progress, write_failed, Write, wrote, raised, written, SerialConnection, Sending,
  send_view, sendall,
}

-- The whole of a payload was taken, or the call raised behind a beginning of it.
abbrev pub IsSent : Bytes → Option Sending → Type 0
IsSent payload o =
    (o ≡ some (payload, ok tt))
    ⊎ ((taken : Bytes) × (rest : Bytes) × (error : SerialError) × (o ≡ some (taken, err error))
        × (payload ≡ taken ++ rest))

module _ (connection : SerialConnection) where
  written-IsSent :
      (taken view : Bytes) (w : Write) (rest : ℕ → Option Sending)
      → ((n : ℕ) → IsSent (taken ++ view) (rest (suc n)))
      → IsSent (taken ++ view) (written taken w rest)
  written-IsSent taken view raised rest h = inr (taken, view, write_failed, refl, refl)
  written-IsSent taken view (wrote none) rest h = inr (taken, view, no_progress, refl, refl)
  written-IsSent taken view (wrote (some zero)) rest h = inr (taken, view, no_progress, refl, refl)
  written-IsSent taken view (wrote (some (suc n))) rest h = h n

  send_view-IsSent :
      (fuel turn : ℕ) (view taken : Bytes)
      → length view ≤ fuel
      → IsSent (taken ++ view) (send_view connection fuel turn view taken)
  unfolding send_view
  send_view-IsSent zero turn [] taken h = inl (ap (λ z. some (z, ok tt)) (sym (append-nil taken)))
  send_view-IsSent (suc fuel) turn [] taken h =
      inl (ap (λ z. some (z, ok tt)) (sym (append-nil taken)))
  send_view-IsSent zero turn (b ∷ bs) taken h = absurd (omega arith)
  send_view-IsSent (suc fuel) turn (b ∷ bs) taken h =
      written-IsSent taken (b ∷ bs) (connection.writes turn (b ∷ bs)) _ (λ n.
        subst
          (λ z. IsSent z (
            send_view connection fuel (suc turn) (drop (suc n) (b ∷ bs))
              (taken ++ take (suc n) (b ∷ bs))))
          (append_assoc taken (take (suc n) (b ∷ bs)) (drop (suc n) (b ∷ bs))
            ∙ ap (λ z. taken ++ z) (take-drop (suc n) (b ∷ bs)))
          (send_view-IsSent fuel (suc turn) (drop (suc n) (b ∷ bs)) (taken ++ take (suc n) (b ∷ bs))
            (omega (arith, length-drop (suc n) (b ∷ bs)))))

  -- Whatever the writes take, sendall ends within one turn for each byte of the payload: either the
  -- port took the whole payload, in order, or the call raised, and the port took a beginning of it.
  pub sendall-IsSent : (payload : Bytes) → IsSent payload (sendall connection payload)
  unfolding sendall
  sendall-IsSent payload = send_view-IsSent (length payload) 0 payload [] (omega arith)
