-- ===== src/Runner/Coordinator/Turns.antt =====
-- One turn of an operation's coroutine, whatever the place at which it was suspended.
use pytest_hardware_template.Prelude.{
  ℕ, ◌<◌, ◌≤◌, Bool, true, false, Option, none, List, [], ◌∷◌, ◌++◌, if◌then◌else◌, ◌≡◌, ◌≢◌, refl,
  arith, All, All-append,
}
use pytest_hardware_template.Runner.Models.{ℤ, OperationState, OperationStatus, Update, is_terminal}
use pytest_hardware_template.Runner.Execute.{
  Publishing, Await, image_created, image_command, image_inspect, image_kill, run_created,
  run_command, run_lookup, run_publish, run_publish_kill, run_kill, run_kill_lookup, Wakeup,
  scheduled, process, portal, killed, Effect, spawn, kill, save, clear_log, Next, waiting, returned,
  died, ignored, World, finish, run_status, settle,
}
use pytest_hardware_template.Runner.Coordinator.Records.{IsReport, Finished, finish-Finished}

-- The record with which the operation was started.
abbrev pub subject : Await → OperationState
subject (image_created s c r) = s
subject (image_command s r) = s
subject (image_inspect s r) = s
subject (image_kill s) = s
subject (run_created s c) = s
subject (run_command s) = s
subject (run_lookup s e) = s
subject (run_publish s p) = s
subject (run_publish_kill s p) = s
subject (run_kill s) = s
subject (run_kill_lookup s) = s

-- The number of turns that are left at most.
abbrev pub rank : Await → ℕ
rank (image_created s c r) = 4
rank (image_command s r) = 3
rank (image_inspect s r) = 2
rank (image_kill s) = 1
rank (run_created s c) = 5
rank (run_command s) = 4
rank (run_lookup s e) = 3
rank (run_publish s p) = 2
rank (run_publish_kill s p) = 1
rank (run_kill s) = 2
rank (run_kill_lookup s) = 1

-- The updates that a suspended coroutine has collected are reports, and a test run has its identity.
abbrev pub Collected : Await → Type 0
Collected (run_created s c) = s.run_id ≢ none
Collected (run_publish s p) = All IsReport p.updates
Collected (run_publish_kill s p) = All IsReport p.updates
Collected _ = Unit

-- The wakeup is of the kind that the coroutine waits for, and where `ProcessRunner.cancel` ends an
-- operation that timed out, it raises nothing.
abbrev pub IsAwaited : Await → Wakeup → Type 0
IsAwaited (image_created st c r) scheduled = Unit
IsAwaited (image_command st r) (process o) = Unit
IsAwaited (image_inspect st r) (process o) = Unit
IsAwaited (image_kill st) (killed none) = Unit
IsAwaited (run_created st c) scheduled = Unit
IsAwaited (run_command st) (process o) = Unit
IsAwaited (run_lookup st e) (portal a) = Unit
IsAwaited (run_publish st p) (process o) = Unit
IsAwaited (run_publish_kill st p) (killed k) = Unit
IsAwaited (run_kill st) (killed none) = Unit
IsAwaited (run_kill_lookup st) (portal a) = Unit
IsAwaited _ _ = ⊥

-- A record that is written under way is one of the same operation, with its status.
abbrev pub IsInterim : OperationState → Effect → Type 0
IsInterim st (save r) = (r.operation_id ≡ st.operation_id) × (r.status ≡ st.status)
IsInterim st clear_log = ⊥
IsInterim st (spawn c e) = Unit
IsInterim st (kill n) = Unit

-- The effects end with the one final record.
pub record Settled (w : World) (st : OperationState) (es : List Effect) : Type 0 where
  pub before : List Effect
  pub final : OperationState
  pub effects_eq : es ≡ before ++ save final ∷ []
  pub interim : All (IsInterim st) before
  pub status : OperationStatus
  pub exit_code : Option ℤ
  pub terminal : is_terminal status ≡ true
  pub finished : Finished w st status exit_code final

abbrev pub Turn : World → OperationState → ℕ → Next → Type 0
Turn w st n (waiting es b) = All (IsInterim st) es × (subject b ≡ st) × (rank b < n) × Collected b
Turn w st n (returned es) = Settled w st es
Turn w st n (died es) = ⊥
Turn w st n ignored = ⊥

pub Turn-if :
    (w : World) (st : OperationState) (n : ℕ) (b : Bool) (x y : Next)
    → Turn w st n x
    → Turn w st n y
    → Turn w st n (if b then x else y)
Turn-if w st n true x y p q = p
Turn-if w st n false x y p q = q

pub Turn-mono :
    (w : World) (st : OperationState) {n m : ℕ} → n ≤ m → (x : Next) → Turn w st n x → Turn w st m x
Turn-mono w st h (waiting es b) (i, s, r, c) = (i, s, omega arith, c)
Turn-mono w st h (returned es) t = t
Turn-mono w st h (died es) t = t
Turn-mono w st h ignored t = t

pub run_status-terminal : (e : ℤ) → is_terminal (run_status e) ≡ true
unfolding is_terminal
run_status-terminal e = ground arith

module _ (w : World) (st : OperationState) where
  pub Settled-after :
      (before : List Effect) (status : OperationStatus) (exit_code : Option ℤ)
      (updates : List Update)
      → All (IsInterim st) before
      → is_terminal status ≡ true
      → All IsReport updates
      → Settled w st (before ++ save (finish w st status exit_code updates) ∷ [])
  Settled-after before status exit_code updates i t r = record {
    before = before;
    final = finish w st status exit_code updates;
    effects_eq = refl;
    interim = i;
    status = status;
    exit_code = exit_code;
    terminal = t;
    finished = finish-Finished w st status exit_code updates r;
  }

  pub Settled-finish :
      (status : OperationStatus) (exit_code : Option ℤ) (updates : List Update)
      → is_terminal status ≡ true
      → All IsReport updates
      → Settled w st (save (finish w st status exit_code updates) ∷ [])
  Settled-finish status exit_code updates = Settled-after [] status exit_code updates tt

  pub Settled-settle :
      (before : List Effect) (cancelled : Bool) (p : Publishing) (us : List Update)
      → All (IsInterim st) before
      → All IsReport p.updates
      → All IsReport us
      → Settled w st (before ++ save (settle w cancelled st p us) ∷ [])
  unfolding settle is_terminal
  Settled-settle before true p us i c r =
      Settled-after before _ _ _ i refl (tt, (tt, All-append IsReport p.updates us c r))
  Settled-settle before false p us i c r =
      Settled-after before _ _ _ i (run_status-terminal p.exit_code)
        (tt, (tt, (tt, All-append IsReport p.updates us c r)))
