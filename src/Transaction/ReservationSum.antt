-- ===== src/Transaction/ReservationSum.antt =====
-- The derivation of crates/host-coordinator/src/execution_transaction/reservation.rs against sums
-- over the plan in unbounded arithmetic.
use hosts.Base.{
  ℕ, ◌+◌, ◌*◌, ◌<◌, ◌≡◌, List, [], ◌∷◌, true, false, none, some, if◌then◌else◌, arith, sum_by,
}
use hosts.Base.Order.{nat_ord, str_ord}
use hosts.Base.Collections.{eqb, get, get-insert, contains, get-collect_onto}
use hosts.Base.Word.{wrap, u64_mod}
use hosts.BoundPlan.{LogicalPartitionId}
use hosts.Transaction.Mirror.{TransactionOperation, launch, transfer, broadcast, barrier}
use hosts.Transaction.Operation.{partitions_of}
use hosts.Transaction.Reservation.{
  Account, Accounts, or_zero, charge, charge_each, charge_others, charge_bytes, charge_operation,
  charge_operations, no_charges, event_object_bytes, transaction_scratch_bytes_per_partition,
  ReservationRecord, class_six_bytes, class_three_bytes, derive_reservation, record_of,
}

abbrev held : LogicalPartitionId → Account → ℕ
held p account = or_zero (get p account)

-- How often the partition is in the list.
abbrev pub times : LogicalPartitionId → List LogicalPartitionId → ℕ
times p [] = 0
times p (q ∷ qs) = (if eqb p q then 1 else 0) + times p qs

-- The bytes if the partition is the one charged.
abbrev pub at : LogicalPartitionId → LogicalPartitionId → ℕ → ℕ
at p q n = if eqb p q then n else 0

-- Class 6: a transfer stages its bytes at both ends, a broadcast at every participant.
abbrev pub staging_charge : LogicalPartitionId → TransactionOperation → ℕ
staging_charge p (launch q ref n) = 0
staging_charge p (transfer t) = at p t.source t.byte_count + at p t.destination t.byte_count
staging_charge p (broadcast b) = times p b.participants * b.byte_count
staging_charge p (barrier ref qs) = 0

-- Class 3: the outputs of a launch, of a transfer's destination, and of a broadcast's participants
-- but the source.
abbrev pub output_charge : LogicalPartitionId → TransactionOperation → ℕ
output_charge p (launch q ref n) = at p q n
output_charge p (transfer t) = at p t.destination t.byte_count
output_charge p (broadcast b) = if eqb p b.source then 0 else times p b.participants * b.byte_count
output_charge p (barrier ref qs) = 0

-- Class 3: one event object for each involved partition.
abbrev pub event_charge : LogicalPartitionId → TransactionOperation → ℕ
event_charge p op = times p (partitions_of op) * event_object_bytes

held-charge :
    (p q : LogicalPartitionId) (n : ℕ) (a : Account)
    → wrap (held p (charge q n a)) ≡ wrap (held p a + at p q n)
unfolding charge
held-charge p q n a =
    ground (arith, get-insert p q (wrap (or_zero (get q a) + n)) a, str_ord.eq_of_cmp p q)

held-charge_each :
    (p : LogicalPartitionId) (qs : List LogicalPartitionId) (n : ℕ) (a : Account)
    → wrap (held p (charge_each qs n a)) ≡ wrap (held p a + times p qs * n)
unfolding charge_each
held-charge_each p [] n a = omega arith
held-charge_each p (q ∷ qs) n a =
    ground (arith, held-charge_each p qs n (charge q n a), held-charge p q n a)

held-charge_others :
    (p source : LogicalPartitionId) (qs : List LogicalPartitionId) (n : ℕ) (a : Account)
    → wrap (held p (charge_others source qs n a))
      ≡ wrap (held p a + (if eqb p source then 0 else times p qs * n))
unfolding charge_others
held-charge_others p source [] n a = ground arith
held-charge_others p source (q ∷ qs) n a = ground (
  arith,
  held-charge_others p source qs n (if eqb q source then a else charge q n a),
  held-charge p q n a,
  str_ord.eq_of_cmp p q,
  str_ord.eq_of_cmp p source,
  str_ord.eq_of_cmp q source,
)

abbrev Charged : (LogicalPartitionId → TransactionOperation → ℕ) → (Accounts → Account) → Type 0
Charged spec account =
    (p : LogicalPartitionId) (op : TransactionOperation) (a : Accounts)
    → wrap (held p (account (charge_operation op a))) ≡ wrap (held p (account a) + spec p op)

staging-charge_operation : Charged staging_charge (λ a. a.staging)
unfolding charge_operation charge_bytes
staging-charge_operation p (launch q ref n) a = ground arith
staging-charge_operation p (transfer t) a = ground (
  arith,
  held-charge p t.destination t.byte_count (charge t.source t.byte_count a.staging),
  held-charge p t.source t.byte_count a.staging,
)
staging-charge_operation p (broadcast b) a =
    held-charge_each p b.participants b.byte_count a.staging
staging-charge_operation p (barrier ref qs) a = ground arith

output-charge_operation : Charged output_charge (λ a. a.outputs)
unfolding charge_operation charge_bytes
output-charge_operation p (launch q ref n) a = held-charge p q n a.outputs
output-charge_operation p (transfer t) a = held-charge p t.destination t.byte_count a.outputs
output-charge_operation p (broadcast b) a =
    held-charge_others p b.source b.participants b.byte_count a.outputs
output-charge_operation p (barrier ref qs) a = ground arith

event-charge_operation : Charged event_charge (λ a. a.events)
unfolding charge_operation charge_bytes
event-charge_operation p (launch q ref n) a =
    held-charge_each p (partitions_of (launch q ref n)) event_object_bytes a.events
event-charge_operation p (transfer t) a =
    held-charge_each p (partitions_of (transfer t)) event_object_bytes a.events
event-charge_operation p (broadcast b) a =
    held-charge_each p (partitions_of (broadcast b)) event_object_bytes a.events
event-charge_operation p (barrier ref qs) a =
    held-charge_each p (partitions_of (barrier ref qs)) event_object_bytes a.events

held-charge_operations :
    (spec : LogicalPartitionId → TransactionOperation → ℕ) (account : Accounts → Account)
    → Charged spec account
    → (p : LogicalPartitionId) (ops : List TransactionOperation) (a : Accounts)
    → wrap (held p (account (charge_operations ops a)))
      ≡ wrap (held p (account a) + sum_by (spec p) ops)
unfolding charge_operations
held-charge_operations spec account one p [] a = omega arith
held-charge_operations spec account one p (op ∷ ops) a =
    omega (arith, held-charge_operations spec account one p ops (charge_operation op a), one p op a)

-- An account never holds more than a 64-bit word.
charge_fits :
    (p q : LogicalPartitionId) (n : ℕ) (a : Account)
    → held p a < u64_mod
    → held p (charge q n a) < u64_mod
unfolding charge
charge_fits p q n a h = ground (arith, get-insert p q (wrap (or_zero (get q a) + n)) a)

charge_each_fits :
    (p : LogicalPartitionId) (qs : List LogicalPartitionId) (n : ℕ) (a : Account)
    → held p a < u64_mod
    → held p (charge_each qs n a) < u64_mod
unfolding charge_each
charge_each_fits p [] n a h = h
charge_each_fits p (q ∷ qs) n a h = charge_each_fits p qs n (charge q n a) (charge_fits p q n a h)

staging_fits :
    (p : LogicalPartitionId) (ops : List TransactionOperation) (a : Accounts)
    → held p a.staging < u64_mod
    → held p (charge_operations ops a).staging < u64_mod
unfolding charge_operations charge_operation charge_bytes
staging_fits p [] a h = h
staging_fits p (launch q ref n ∷ ops) a h =
    staging_fits p ops (charge_operation (launch q ref n) a) h
staging_fits p (transfer t ∷ ops) a h = staging_fits p ops (charge_operation (transfer t) a) (
    charge_fits p t.destination t.byte_count (charge t.source t.byte_count a.staging)
      (charge_fits p t.source t.byte_count a.staging h))
staging_fits p (broadcast b ∷ ops) a h =
    staging_fits p ops (charge_operation (broadcast b) a)
      (charge_each_fits p b.participants b.byte_count a.staging h)
staging_fits p (barrier ref qs ∷ ops) a h =
    staging_fits p ops (charge_operation (barrier ref qs) a) h

-- The two charges that `prepare` compares with the ledger, as sums over the plan.
abbrev pub class_six_sum : LogicalPartitionId → List TransactionOperation → ℕ
class_six_sum p ops = sum_by (staging_charge p) ops

abbrev pub class_three_sum : LogicalPartitionId → List TransactionOperation → ℕ
class_three_sum p ops =
    sum_by (output_charge p) ops
    + sum_by (event_charge p) ops
    + transaction_scratch_bytes_per_partition

record_sums :
    (ops : List TransactionOperation) (p : LogicalPartitionId)
    → let r = record_of (charge_operations ops no_charges) p in
      (class_six_bytes r ≡ wrap (class_six_sum p ops))
      × (class_three_bytes r ≡ wrap (class_three_sum p ops))
unfolding class_six_bytes class_three_bytes get
record_sums ops p = omega (
  arith,
  staging_fits p ops no_charges (omega arith),
  held-charge_operations staging_charge (λ a. a.staging) staging-charge_operation p ops no_charges,
  held-charge_operations output_charge (λ a. a.outputs) output-charge_operation p ops no_charges,
  held-charge_operations event_charge (λ a. a.events) event-charge_operation p ops no_charges,
)

-- The record of a referenced partition charges, modulo 2^64, the bytes that the plan's operations
-- ask of the partition: for class 6 the staging of transfers and broadcasts, for class 3 the
-- outputs, one event object for each involvement, and the scratch. Other partitions have no record.
pub derive_reservation-sum :
    (ops : List TransactionOperation) (referenced : List LogicalPartitionId)
    (p : LogicalPartitionId)
    → (contains p referenced ≡ false → get p (derive_reservation ops referenced) ≡ none)
      × (contains p referenced ≡ true
          → (r : ReservationRecord) × (get p (derive_reservation ops referenced) ≡ some r)
            × (class_six_bytes r ≡ wrap (class_six_sum p ops))
            × (class_three_bytes r ≡ wrap (class_three_sum p ops)))
unfolding derive_reservation get
derive_reservation-sum ops referenced p =
    let e = get-collect_onto p (record_of (charge_operations ops no_charges)) referenced [] in
    (
      λ h. ground arith,
      λ h. (
        record_of (charge_operations ops no_charges) p,
        ground arith,
        (record_sums ops p).0,
        (record_sums ops p).1,
      ),
    )
