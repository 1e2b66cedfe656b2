-- ===== src/Runner/Coordinator/Invariant.antt =====
-- What holds between two events of a history.
use pytest_hardware_template.Prelude.{
  Bool, true, false, Option, none, some, List, [], ◌∷◌, ◌++◌, inl, inr, ◌≡◌, ◌≢◌, ℕ, refl, ◌∙◌, sym,
  ap, All, Result, ok, err,
}
use mathlib.Core.Path.{subst}
use pytest_hardware_template.Runner.Settings.{Settings}
use pytest_hardware_template.Runner.Models.{OperationState, is_terminal}
use pytest_hardware_template.Runner.Docker
use pytest_hardware_template.Runner.Docker.{CommandError, Command, local_build_reference}
use pytest_hardware_template.Runner.Store.{StateStore, write}
use pytest_hardware_template.Runner.Execute.{
  World, Await, image_created, Wakeup, Effect, spawn, kill, save, clear_log, Next, waiting,
  returned, died, ignored, resume,
}
use pytest_hardware_template.Runner.Coordinator.{
  Task, no_task, active, completed, failed_with_exception, System, Event, start_build, start_pull,
  start_run, cancel, wake, shutdown, restart, apply_effect, apply_effects, perform, start_by, begin,
  cancel_with, cancel_unless, shutdown_by, continue, wake_by, step, run, build_state, pull_state,
  run_state, new_id,
}
use pytest_hardware_template.Runner.Coordinator.Turns.{
  subject, Collected, IsInterim, Settled, Turn, rank,
}
use pytest_hardware_template.Runner.Coordinator.Resume.{resume-Turn, resume-ignored}

-- The record on disk is the operation's, with the status with which it was started.
abbrev pub IsOf : OperationState → Option OperationState → Type 0
IsOf st none = ⊥
IsOf st (some c) = (c.operation_id ≡ st.operation_id) × (c.status ≡ st.status)

-- A final record: a terminal status, the time of the end, and no container.
abbrev pub IsFinal : Option OperationState → Type 0
IsFinal none = ⊥
IsFinal (some c) =
    (is_terminal c.status ≡ true) × (c.finished_at ≢ none) × (c.container_name ≡ none)

abbrev pub IsPresent : Option OperationState → Type 0
IsPresent none = ⊥
IsPresent (some c) = Unit

-- An active task works on the recorded operation, which is not over; a task that has returned left a
-- final record; a task that an exception ended left a record.
abbrev pub Agrees : Task → Option OperationState → Type 0
Agrees no_task c = Unit
Agrees (active a) c = IsOf (subject a) c × (is_terminal (subject a).status ≡ false) × Collected a
Agrees completed c = IsFinal c
Agrees failed_with_exception c = IsPresent c

abbrev pub Inv : System → Type 0
Inv s = Agrees s.task s.store.current

apply_effects-IsOf :
    (st : OperationState) (es : List Effect) (store : StateStore)
    → All (IsInterim st) es
    → IsOf st store.current
    → IsOf st (apply_effects es store).current
unfolding apply_effects
apply_effects-IsOf st [] store i h = h
apply_effects-IsOf st (save r ∷ es) store i h =
    apply_effects-IsOf st es (write r store) i.1 (unfold write in i.0)
apply_effects-IsOf st (clear_log ∷ es) store i h = absurd i.0
apply_effects-IsOf st (spawn c e ∷ es) store i h = apply_effects-IsOf st es store i.1 h
apply_effects-IsOf st (kill n ∷ es) store i h = apply_effects-IsOf st es store i.1 h

apply_effects-append :
    (es fs : List Effect) (store : StateStore)
    → apply_effects (es ++ fs) store ≡ apply_effects fs (apply_effects es store)
unfolding apply_effects
apply_effects-append [] fs store = refl
apply_effects-append (e ∷ es) fs store = apply_effects-append es fs (apply_effect e store)

-- The last record that is written is the one on disk.
apply_effects-last :
    (es : List Effect) (r : OperationState) (store : StateStore)
    → (apply_effects (es ++ save r ∷ []) store).current ≡ some r
unfolding apply_effects
apply_effects-last es r store = rw (apply_effects-append es (save r ∷ []) store) refl

IsOf-IsPresent : (st : OperationState) (c : Option OperationState) → IsOf st c → IsPresent c
IsOf-IsPresent st none h = h
IsOf-IsPresent st (some c) h = tt

Settled-IsFinal :
    {w : World} {st : OperationState} {es : List Effect} (store : StateStore)
    → Settled w st es
    → IsFinal (apply_effects es store).current
Settled-IsFinal {w} store t =
    subst (λ es. IsFinal (apply_effects es store).current) (sym t.effects_eq)
      (subst IsFinal (sym (apply_effects-last t.before t.final store)) (
        ap is_terminal t.finished.status_set ∙ t.terminal,
        (λ e. cc (e, t.finished.time_set)),
        t.finished.container_gone,
      ))

continue-Inv :
    (w : World) (st : OperationState) (n : ℕ) (x : Next) (s : System)
    → Turn w st n x
    → IsOf st s.store.current
    → is_terminal st.status ≡ false
    → Inv s
    → Inv (continue x s)
unfolding continue perform
continue-Inv w st n (waiting es b) s (i, e, r, c) h t v = (
  subst (λ q. IsOf q (apply_effects es s.store).current) (sym e)
      (apply_effects-IsOf st es s.store i h),
  ap (λ q. is_terminal q.status) e ∙ t,
  c,
)
continue-Inv w st n (returned es) s t' h t v = Settled-IsFinal s.store t'
continue-Inv w st n (died es) s e h t v = absurd e
continue-Inv w st n ignored s t' h t v = absurd t'

wake_by-Inv :
    (settings : Settings) (w : World) (wakeup : Wakeup) (s : System) (task : Task)
    → task ≡ s.task
    → Inv s
    → Inv (wake_by settings w task wakeup s)
unfolding wake_by continue perform apply_effects
wake_by-Inv settings w wakeup s (active a) e v =
    let (h, t, c) = subst (λ q. Agrees q s.store.current) (sym e) v in
    elim (resume-ignored settings w s.cancel_requested a wakeup) [
      | inl i ↦
          continue-Inv w (subject a) (rank a) (resume settings w s.cancel_requested a wakeup) s
            (resume-Turn settings w s.cancel_requested a wakeup i c) h t v
      | inr (inl g) ↦ rw g v
      | inr (inr g) ↦ rw g (IsOf-IsPresent (subject a) _ h)
    ]
wake_by-Inv settings w wakeup s _ e v = v

start_by-Inv :
    (task : Task) (await : Await) (s : System)
    → is_terminal (subject await).status ≡ false
    → Collected await
    → Inv s
    → Inv (start_by task (subject await) await s).0
unfolding start_by
start_by-Inv (active a) await s t c v = v
start_by-Inv _ await s t c v = ((refl, refl), t, c)

begin-Inv :
    (settings : Settings) (command : Result CommandError Command) (state : OperationState)
    (await : Command → Await) (s : System)
    → ((c : Command) → subject (await c) ≡ state)
    → ((c : Command) → Collected (await c))
    → is_terminal state.status ≡ false
    → Inv s
    → Inv (begin settings command state await s).0
unfolding begin
begin-Inv settings (err e) state await s q c t v = v
begin-Inv settings (ok command) state await s q c t v =
    subst (λ st. Inv (start_by s.task st (await command) s).0) (q command)
      (start_by-Inv s.task (await command) s (ap (λ st. is_terminal st.status) (q command) ∙ t)
        (c command) v)

cancel_unless-Inv :
    (over : Bool) (state : OperationState) (s : System) → Inv s → Inv (cancel_unless over state s).0
unfolding cancel_unless
cancel_unless-Inv true state s v = v
cancel_unless-Inv false state s v = v

cancel_with-Inv :
    (found : Option OperationState) (task : Task) (s : System)
    → Inv s
    → Inv (cancel_with found task s).0
unfolding cancel_with perform
cancel_with-Inv none task s v = v
cancel_with-Inv (some state) no_task s v = v
cancel_with-Inv (some state) (active a) s v = cancel_unless-Inv (is_terminal state.status) state s v
cancel_with-Inv (some state) _ s v = cancel_unless-Inv (is_terminal state.status) state s v

shutdown_by-Inv : (task : Task) (s : System) → task ≡ s.task → Inv s → Inv (shutdown_by task s)
unfolding shutdown_by perform
shutdown_by-Inv (active a) s e v =
    IsOf-IsPresent (subject a) _ (subst (λ q. Agrees q s.store.current) (sym e) v).0
shutdown_by-Inv _ s e v = v

-- Every event, in every state and whatever the processes and the servers do, keeps the record in
-- agreement with the task.
step-Inv :
    (settings : Settings) (w : World) (e : Event) (s : System) → Inv s → Inv (step settings w e s).0
unfolding step build_state pull_state run_state is_terminal
step-Inv settings w (start_build uuid revision) s v =
    let operation_id = new_id "build" uuid in
    start_by-Inv s.task
      (image_created (build_state w operation_id revision)
        (Docker.build_image settings operation_id) (local_build_reference operation_id))
      s refl tt v
step-Inv settings w (start_pull uuid reference) s v =
    begin-Inv settings _ _ _ s (λ c. refl) (λ c. tt) refl v
step-Inv settings w (start_run uuid image stand scenario) s v =
    begin-Inv settings _ _ _ s (λ c. refl) (λ c e. cc) refl v
step-Inv settings w cancel s v = cancel_with-Inv s.store.current s.task s v
step-Inv settings w (wake wakeup) s v = wake_by-Inv settings w wakeup s s.task refl v
step-Inv settings w shutdown s v = shutdown_by-Inv s.task s refl v
step-Inv settings w restart s v = tt

pub run-Inv :
    (settings : Settings) (es : List (World × Event)) (s : System) → Inv s → Inv (run settings es s)
unfolding run
run-Inv settings [] s v = v
run-Inv settings ((w, e) ∷ es) s v =
    run-Inv settings es (step settings w e s).0 (step-Inv settings w e s v)
