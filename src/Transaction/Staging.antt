-- ===== src/Transaction/Staging.antt =====
-- The staging loop of `execute_operation`
-- (crates/host-coordinator/src/execution_transaction/transaction.rs), against the backend's answers.
use hosts.Base.{List, [], ◌∷◌, Option, none, some, ◌≡◌, refl, inl, inr, Option-cases}
use hosts.Base.Collections.{insert}
use hosts.Base.Order.{str_ord}
use hosts.Transaction.Mirror.{operation_ref_ord, StagedWrite}
use hosts.Transaction.Reservation.{WriteSet, insert_writes}
use hosts.Transaction.State.{BackendError, backend_failure}
use hosts.Transaction.Backend.{DeviceExecutionBackend}
use hosts.Transaction.Answers.{TakesAll, TakesUntil, more_taken}
use hosts.Transaction.Coordinator.{ExecutionTransaction, fail}
use hosts.Transaction.Execute.{stage_all}

abbrev pub staged_with : ExecutionTransaction → WriteSet → ExecutionTransaction
staged_with t set = record t { staged_write_set = set }

module _ {B : Type 0} (d : DeviceExecutionBackend B) where
  abbrev pub Staging :
      List StagedWrite
      → ExecutionTransaction
      → B
      → ExecutionTransaction × B × Option BackendError
      → Type 0
  Staging ws t b (t', b', none) =
      TakesAll d ws b b' × (t' ≡ staged_with t (insert_writes ws t.staged_write_set))
  Staging ws t b (t', b', some e) =
      (set : WriteSet) × TakesUntil d ws t.staged_write_set b e set b'
      × (t' ≡ fail (backend_failure e) (staged_with t set))

  more-Staging :
      (w : StagedWrite) (ws : List StagedWrite) (t : ExecutionTransaction) (b : B)
      (x : ExecutionTransaction × B × Option BackendError)
      → (d.stage_write w b).1 ≡ none
      → Staging ws
          (staged_with t (insert w.output_ref w t.staged_write_set))
          (d.stage_write w b).0
          x
      → Staging (w ∷ ws) t b x
  unfolding insert_writes
  more-Staging w ws t b (t', b', none) h (a, q) = ((h, a), q)
  more-Staging w ws t b (t', b', some e) h (set, u, q) =
      (set, more_taken d w ws t.staged_write_set b e set b' h u, q)

  pub stage_all-Staging :
      (ws : List StagedWrite) (t : ExecutionTransaction) (b : B)
      → Staging ws t b (stage_all d ws t b)
  unfolding stage_all insert_writes
  stage_all-Staging [] t b = (refl, refl)
  stage_all-Staging (w ∷ ws) t b = elim (Option-cases (d.stage_write w b).1) [
    | inl e ↦
        rw (e, stage_all)
          (more-Staging w ws t b _ e (
            stage_all-Staging ws (staged_with t (insert w.output_ref w t.staged_write_set))
              (d.stage_write w b).0))
    | inr (x, e) ↦
        rw (e, stage_all)
          (
            t.staged_write_set,
            record {
              taken = [];
              refused = w;
              others = ws;
              before = b;
              split = refl;
              takes = refl;
              answer = e;
              left = refl;
              staged = refl;
            },
            refl,
          )
  ]
