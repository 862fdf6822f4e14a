-- ===== src/Transaction/Answers.antt =====
-- What the backend answered to one operation of
-- crates/host-coordinator/src/execution_transaction/transaction.rs (`execute_operation`): whether it
-- ran the operation, and which of the operation's writes it took.
use hosts.Base.{List, [], ◌∷◌, ◌++◌, none, some, true, ◌≡◌, ap, arith, ◌||◌, ◌&&◌, ◌⊎◌}
use hosts.Base.Collections.{insert}
use hosts.Base.Order.{str_ord}
use hosts.Base.Collections.{contains, add, contains-add, eqb, eq_of_eqb}
use hosts.Transaction.Mirror.{event_ord}
use hosts.Transaction.Mirror.{TransactionOperation, StagedWrite, OperationEvent}
use hosts.Transaction.Operation.{staged_writes, completed_events}
use hosts.Transaction.Reservation.{WriteSet, insert_writes}
use hosts.Transaction.State.{BackendError}
use hosts.Transaction.Backend.{DeviceExecutionBackend}
use hosts.Transaction.Execute.{record_events}

module _ {B : Type 0} (d : DeviceExecutionBackend B) where
  -- The backend, asked to stage the writes one after the other, takes them all and becomes `b'`.
  abbrev pub TakesAll : List StagedWrite → B → B → Type 0
  TakesAll [] b b' = b' ≡ b
  TakesAll (w ∷ ws) b b' = ((d.stage_write w b).1 ≡ none) × TakesAll ws (d.stage_write w b).0 b'

  -- The backend takes the first writes, and then answers one with the error.
  pub record TakesUntil (ws : List StagedWrite) (set : WriteSet) (b : B) (e : BackendError)
      (kept : WriteSet) (b' : B) : Type 0 where
    pub taken : List StagedWrite
    pub refused : StagedWrite
    pub others : List StagedWrite
    pub before : B
    pub split : ws ≡ taken ++ (refused ∷ others)
    pub takes : TakesAll taken b before
    pub answer : (d.stage_write refused before).1 ≡ some e
    pub left : b' ≡ (d.stage_write refused before).0
    pub staged : kept ≡ insert_writes taken set

  -- The backend ran the operation and took all its writes.
  abbrev pub Carried : TransactionOperation → B → B → Type 0
  Carried op b b' =
      ((d.run_operation op b).1 ≡ none) × TakesAll (staged_writes op) (d.run_operation op b).0 b'

  -- The backend answered the error: to the operation itself, or to one of its writes.
  abbrev pub Broken : TransactionOperation → WriteSet → B → BackendError → WriteSet → B → Type 0
  Broken op set b e kept b' =
      (((d.run_operation op b).1 ≡ some e) × (b' ≡ (d.run_operation op b).0) × (kept ≡ set))
      ⊎ (((d.run_operation op b).1 ≡ none)
          × TakesUntil (staged_writes op) set (d.run_operation op b).0 e kept b')

  -- The events recorded are those of before and those of the list that the backend confirms.
  abbrev pub Noted : List OperationEvent → B → List OperationEvent → List OperationEvent → Type 0
  Noted es b done events =
      (x : OperationEvent)
      → contains x events ≡ (contains x done || (contains x es && d.event_completed x b))

  pub record_events-Noted :
      (es : List OperationEvent) (b : B) (done : List OperationEvent)
      → Noted es b done (record_events d es b done)
  unfolding record_events contains
  record_events-Noted [] b done x = ground arith
  record_events-Noted (e ∷ es) b done x =
      let same : eqb x e ≡ true → d.event_completed x b ≡ d.event_completed e b =
        λ h. ap (λ y. d.event_completed y b) (eq_of_eqb x e h) in
      ground (
        arith,
        same,
        contains-add x e done,
        record_events-Noted es b (add e done) x,
        record_events-Noted es b done x,
      )

  -- The backend carried the operations out one after the other, and after each its completed events
  -- were recorded.
  abbrev pub CarriedAll :
      List TransactionOperation → B → List OperationEvent → B → List OperationEvent → Type 0
  CarriedAll [] b done b' done' = (b' ≡ b) × (done' ≡ done)
  CarriedAll (op ∷ ops) b done b' done' =
      (next : B) × Carried op b next
      × Noted (completed_events op) next done (record_events d (completed_events op) next done)
      × CarriedAll ops next (record_events d (completed_events op) next done) b' done'

  -- One more write in front.
  pub more_taken :
      (w : StagedWrite) (ws : List StagedWrite) (set : WriteSet) (b : B) (e : BackendError)
      (kept : WriteSet) (b' : B)
      → (d.stage_write w b).1 ≡ none
      → TakesUntil ws (insert w.output_ref w set) (d.stage_write w b).0 e kept b'
      → TakesUntil (w ∷ ws) set b e kept b'
  unfolding insert_writes
  more_taken w ws set b e kept b' h u = record {
    taken = w ∷ u.taken;
    refused = u.refused;
    others = u.others;
    before = u.before;
    split = ap (◌∷◌ w) u.split;
    takes = (h, u.takes);
    answer = u.answer;
    left = u.left;
    staged = u.staged;
  }
