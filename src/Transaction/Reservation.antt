-- ===== src/Transaction/Reservation.antt =====
-- crates/host-coordinator/src/execution_transaction/reservation.rs: the byte reservation of each
-- partition, in the wrapping arithmetic of a release build, and the declared write-set.
use hosts.Base.{ℕ, ◌+◌, List, [], ◌∷◌, Option, none, some, if◌then◌else◌}
use hosts.Base.Order.{nat_ord, str_ord}
use hosts.Base.Collections.{eqb, get, insert, collect_onto}
use hosts.Base.Word.{wrap}
use hosts.BoundPlan.{LogicalPartitionId}
use hosts.Transaction.Mirror.{
  OutputRef, StagedWrite, TransactionOperation, launch, transfer, broadcast, barrier,
}
use hosts.Transaction.Operation.{partitions_of, staged_writes}

abbrev pub event_object_bytes : ℕ
event_object_bytes = 64

abbrev pub transaction_scratch_bytes_per_partition : ℕ
transaction_scratch_bytes_per_partition = 4096

pub data BudgetClass : Type 0 where
  transfer_staging activation_scratch : BudgetClass

unfoldable pub ledger_class : BudgetClass → ℕ
ledger_class transfer_staging = 6
ledger_class activation_scratch = 3

pub record ReservationRecord : Type 0 where
  pub transfer_staging_bytes : ℕ
  pub output_buffer_bytes : ℕ
  pub event_bytes : ℕ
  pub transaction_scratch_bytes : ℕ

unfoldable pub class_six_bytes : ReservationRecord → ℕ
class_six_bytes r = r.transfer_staging_bytes

unfoldable pub class_three_bytes : ReservationRecord → ℕ
class_three_bytes r =
    wrap (wrap (r.output_buffer_bytes + r.event_bytes) + r.transaction_scratch_bytes)

abbrev pub Account : Type 0
Account = List (LogicalPartitionId × ℕ)

abbrev pub or_zero : Option ℕ → ℕ
or_zero none = 0
or_zero (some n) = n

-- `*account.entry(partition).or_insert(0) += bytes`.
unfoldable pub charge : LogicalPartitionId → ℕ → Account → Account
unfolding get insert
charge p n account = insert p (wrap (or_zero (get p account) + n)) account

unfoldable pub charge_each : List LogicalPartitionId → ℕ → Account → Account
unfolding charge
charge_each [] n account = account
charge_each (p ∷ ps) n account = charge_each ps n (charge p n account)

-- The output charge of a broadcast leaves its source out.
unfoldable pub charge_others : LogicalPartitionId → List LogicalPartitionId → ℕ → Account → Account
unfolding charge
charge_others source [] n account = account
charge_others source (p ∷ ps) n account =
    charge_others source ps n (if eqb p source then account else charge p n account)

pub record Accounts : Type 0 where
  pub staging : Account
  pub outputs : Account
  pub events : Account

-- The `match` of the loop.
unfoldable pub charge_bytes : TransactionOperation → Accounts → Accounts
unfolding charge charge_each charge_others
charge_bytes (launch partition ref output_bytes) a = record a {
  outputs = charge partition output_bytes a.outputs;
}
charge_bytes (transfer t) a = record a {
  staging = charge t.destination t.byte_count (charge t.source t.byte_count a.staging);
  outputs = charge t.destination t.byte_count a.outputs;
}
charge_bytes (broadcast b) a = record a {
  staging = charge_each b.participants b.byte_count a.staging;
  outputs = charge_others b.source b.participants b.byte_count a.outputs;
}
charge_bytes (barrier ref partitions) a = a

unfoldable pub charge_operation : TransactionOperation → Accounts → Accounts
unfolding charge_bytes charge_each partitions_of
charge_operation op a =
    charge_bytes op
      (record a { events = charge_each (partitions_of op) event_object_bytes a.events })

unfoldable pub charge_operations : List TransactionOperation → Accounts → Accounts
unfolding charge_operation
charge_operations [] a = a
charge_operations (op ∷ ops) a = charge_operations ops (charge_operation op a)

abbrev pub no_charges : Accounts
no_charges = record { staging = []; outputs = []; events = [] }

abbrev pub record_of : Accounts → LogicalPartitionId → ReservationRecord
unfolding get
record_of a p = record {
  transfer_staging_bytes = or_zero (get p a.staging);
  output_buffer_bytes = or_zero (get p a.outputs);
  event_bytes = or_zero (get p a.events);
  transaction_scratch_bytes = transaction_scratch_bytes_per_partition;
}

abbrev pub Reservation : Type 0
Reservation = List (LogicalPartitionId × ReservationRecord)

unfoldable pub derive_reservation :
    List TransactionOperation → List LogicalPartitionId → Reservation
unfolding charge_operations collect_onto get
derive_reservation ops referenced =
    collect_onto (record_of (charge_operations ops no_charges)) referenced []

abbrev pub WriteSet : Type 0
WriteSet = List (OutputRef × StagedWrite)

unfoldable pub insert_writes : List StagedWrite → WriteSet → WriteSet
unfolding insert
insert_writes [] set = set
insert_writes (w ∷ ws) set = insert_writes ws (insert w.output_ref w set)

unfoldable pub insert_declared : List TransactionOperation → WriteSet → WriteSet
unfolding insert_writes staged_writes
insert_declared [] set = set
insert_declared (op ∷ ops) set = insert_declared ops (insert_writes (staged_writes op) set)

unfoldable pub derive_declared_write_set : List TransactionOperation → WriteSet
unfolding insert_declared
derive_declared_write_set ops = insert_declared ops []
