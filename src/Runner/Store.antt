-- ===== src/Runner/Store.antt =====
-- helpers/test-runner-service/src/test_runner_service/state.py: the one operation on record.
-- `write` replaces the file in one step, so a reader sees the old record or the new one.
use pytest_hardware_template.Prelude.{Option, none, some, [], ◌∷◌, if◌then◌else◌}
use pytest_hardware_template.Runner.Models.{
  OperationState, is_terminal, model_copy, status, message, interrupted,
}

-- `current.json` and the number of times that the log was emptied
pub record StateStore : Type 0 where
  pub current : Option OperationState
  pub log_resets : Prim.Native.Nat.ℕ

unfoldable pub read : StateStore → Option OperationState
read store = store.current

unfoldable pub write : OperationState → StateStore → StateStore
write state store = record store { current = some state }

unfoldable pub reset_log : StateStore → StateStore
reset_log store = record store { log_resets = Prim.Native.Nat.ℕ.suc store.log_resets }

-- the copy that `mark_interrupted` writes
unfoldable pub interrupt : OperationState → OperationState
unfolding model_copy
interrupt =
    model_copy
      (status interrupted ∷ message "The service restarted while the operation was active" ∷ [])

unfoldable pub mark_interrupted : StateStore → StateStore
unfolding interrupt write read is_terminal
mark_interrupted store = elim store.current [
  | none ↦ store
  | some state ↦ if is_terminal state.status then store else write (interrupt state) store
]
