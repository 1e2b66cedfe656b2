-- ===== src/Console/Serial.antt =====
-- src/hardware_test/transport/pyserial.py: `PySerialChannel`, the channel of a console on a local port.
-- What pyserial does is a parameter: what a call gives, or that it raises.
pub mod Sending
mod Witnesses
use pytest_hardware_template.Prelude.{
  ℕ, zero, suc, Bool, true, false, Option, none, some, List, [], ◌∷◌, ◌++◌, not, leb, min, length,
  take, drop, Result, ok, err,
}
use pytest_hardware_template.Agent.Protocol.{Bytes}

-- The messages of the `TransportError`s
pub data SerialError : Type 0 where
  no_progress write_failed status_failed read_failed close_failed : SerialError

-- What `write` returns, or that it raises an error of the serial library or of the system
pub data Write : Type 0 where
  wrote : Option ℕ → Write
  raised : Write

-- `writes` gives the result of a write by its number; the other calls give `none` where they raise.
pub record SerialConnection : Type 0 where
  pub is_open : Bool
  pub writes : ℕ → Bytes → Write
  pub in_waiting : Option ℕ
  pub read : ℕ → Option Bytes
  pub closes : Bool

-- What the port took, and whether the call raised
abbrev pub Sending : Type 0
Sending = Bytes × Result SerialError Unit

-- What follows a write: nothing where it raised or made no progress
abbrev pub written : Bytes → Write → (ℕ → Option Sending) → Option Sending
written taken raised rest = some (taken, err write_failed)
written taken (wrote none) rest = some (taken, err no_progress)
written taken (wrote (some zero)) rest = some (taken, err no_progress)
written taken (wrote (some (suc n))) rest = rest (suc n)

module _ (connection : SerialConnection) where
  -- `PySerialChannel.closed`, `exit_status_ready`
  abbrev pub closed : Bool
  closed = not connection.is_open

  -- The loop of `sendall` on fuel; `none` where the fuel runs out
  unfoldable pub send_view : (fuel turn : ℕ) → (view taken : Bytes) → Option Sending
  unfolding take drop
  send_view fuel turn [] taken = some (taken, ok tt)
  send_view zero turn (b ∷ bs) taken = none
  send_view (suc fuel) turn (b ∷ bs) taken =
      written taken (connection.writes turn (b ∷ bs))
        (λ n. send_view fuel (suc turn) (drop n (b ∷ bs)) (taken ++ take n (b ∷ bs)))

  -- `PySerialChannel.sendall`: a write that makes progress shortens the view.
  unfoldable pub sendall : Bytes → Option Sending
  unfolding send_view
  sendall s = send_view (length s) 0 s []

  -- `PySerialChannel.recv_ready`
  unfoldable pub recv_ready : Result SerialError Bool
  recv_ready = elim connection.in_waiting [ none ↦ err status_failed | some n ↦ ok (leb 1 n) ]

  abbrev pub or_read_failed : Option Bytes → Result SerialError Bytes
  or_read_failed none = err read_failed
  or_read_failed (some bytes) = ok bytes

  -- `PySerialChannel.recv`
  unfoldable pub recv : ℕ → Result SerialError Bytes
  recv nbytes = elim connection.in_waiting [
    | none ↦ err read_failed
    | some n ↦ or_read_failed (connection.read (min nbytes n))
  ]

  -- `PySerialChannel.close`
  unfoldable pub close : Result SerialError Unit
  close = elim connection.closes [ true ↦ ok tt | false ↦ err close_failed ]
