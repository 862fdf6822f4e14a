-- ===== src/Transaction/Invariant.antt =====
-- The invariant of an execution transaction, by its state
-- (crates/host-coordinator/src/execution_transaction/transaction.rs).
use mathlib.Core.Path.{subst}
use mathlib.Core.List.{append_assoc}
use hosts.Base.{
  ℕ, suc, true, false, List, [], ◌∷◌, ◌++◌, map, Option, none, some, ◌≡◌, refl, sym, ap, ◌∙◌, arith,
}
use hosts.Transaction.Mirror.{TransactionOperation}
use hosts.Transaction.Reservation.{WriteSet, insert_declared}
use hosts.Transaction.State.{
  TransactionState, fresh, prepared, executing, committed, failed, aborted, TransactionFailure,
}
use hosts.Transaction.Receipt.{decided_commit, decided_abort, no_teardown}
use hosts.Transport.Records.{TransportReceipt}
use hosts.Transaction.Coordinator.{ExecutionTransaction, build_receipt, fail}
use hosts.Transaction.Execute.{is_executing}
use hosts.Transaction.Finish.{missing_boundary_refs}
use hosts.Transaction.Index.{IsIndexed}
use hosts.Transaction.Outcomes.{Planned, executed_record}
use hosts.Transaction.RunOutcomes.{AllPlanned}

-- No outcome is recorded yet, and nothing is torn down.
abbrev pub Undecided : ExecutionTransaction → Type 0
Undecided t =
    (t.decision ≡ none)
    × (t.publish_summary ≡ none)
    × (t.receipt ≡ none)
    × (t.teardown ≡ no_teardown)

-- Nothing ran yet.
abbrev pub Untouched : ExecutionTransaction → Type 0
Untouched t = (t.executed_operations ≡ []) × (t.staged_write_set ≡ [])

-- The executed operations stand in the plan, and the staged set holds their writes and no others.
abbrev pub Covered : ExecutionTransaction → Type 0
Covered t =
    (done : List TransactionOperation) × AllPlanned t.operations done
    × (t.executed_operations ≡ map executed_record done)
    × (t.staged_write_set ≡ insert_declared done [])

-- The receipt reports the transaction, but for transports that are selected after it.
abbrev pub Reported : ExecutionTransaction → Type 0
Reported t =
    (x : Option TransportReceipt) × (t.receipt ≡ build_receipt (record t { transport_receipt = x }))
    × ¬ (t.receipt ≡ none)

abbrev pub StateFacts : TransactionState → ExecutionTransaction → Type 0
StateFacts fresh t = Undecided t × (t.failure ≡ none) × Untouched t
StateFacts prepared t =
    Undecided t × (t.failure ≡ none) × Untouched t × IsIndexed t.operation_keys t.operations
StateFacts executing t =
    Undecided t × (t.failure ≡ none) × Covered t × IsIndexed t.operation_keys t.operations
StateFacts (failed f) t = Undecided t × (t.failure ≡ some f)
StateFacts committed t =
    (ordinal : ℕ) × (t.decision ≡ some (decided_commit ordinal))
    × ¬ (t.publish_summary ≡ none)
    × Reported t
    × (t.failure ≡ none)
    × Covered t
    × (missing_boundary_refs t ≡ [])
StateFacts (aborted f) t =
    (t.decision ≡ some (decided_abort f))
    × (t.publish_summary ≡ none)
    × Reported t
    × (t.failure ≡ some f)

-- The facts of the transaction's state, and no teardown that left a publication half done.
unfoldable pub IsWellFormed : ExecutionTransaction → Type 0
unfolding build_receipt missing_boundary_refs insert_declared
IsWellFormed t = StateFacts t.state t × (t.teardown.partial_publication ≡ false)

pub executing_of : (s : TransactionState) → is_executing s ≡ true → s ≡ executing
executing_of executing h = refl
executing_of fresh h = absurd (ground arith)
executing_of prepared h = absurd (ground arith)
executing_of committed h = absurd (ground arith)
executing_of (failed f) h = absurd (ground arith)
executing_of (aborted f) h = absurd (ground arith)

pub facts_in :
    (s : TransactionState) (t : ExecutionTransaction)
    → t.state ≡ s
    → IsWellFormed t
    → StateFacts s t
unfolding IsWellFormed
facts_in s t e w = subst (λ x. StateFacts x t) e w.0

-- A failure while executing keeps the invariant.
pub fail-IsWellFormed :
    (f : TransactionFailure) (t : ExecutionTransaction)
    → t.state ≡ executing
    → Undecided t
    → t.teardown.partial_publication ≡ false
    → IsWellFormed (fail f t)
unfolding IsWellFormed fail
fail-IsWellFormed f t s u p = rw (s, fail) ((u, refl), p)

insert_declared-append :
    (xs ys : List TransactionOperation) (set : WriteSet)
    → insert_declared (xs ++ ys) set ≡ insert_declared ys (insert_declared xs set)
unfolding insert_declared
insert_declared-append [] ys set = refl
insert_declared-append (x ∷ xs) ys set = insert_declared-append xs ys _

map-append :
    (xs ys : List TransactionOperation)
    → map executed_record (xs ++ ys) ≡ map executed_record xs ++ map executed_record ys
map-append [] ys = refl
map-append (x ∷ xs) ys = ap (◌∷◌ (executed_record x)) (map-append xs ys)

AllPlanned-append :
    (plan xs ys : List TransactionOperation)
    → AllPlanned plan xs
    → AllPlanned plan ys
    → AllPlanned plan (xs ++ ys)
AllPlanned-append plan [] ys a b = b
AllPlanned-append plan (x ∷ xs) ys a b = (a.0, AllPlanned-append plan xs ys a.1 b)

-- More operations of the plan run, and their writes are staged.
pub Covered-more :
    (t : ExecutionTransaction) (more : List TransactionOperation) (t' : ExecutionTransaction)
    → Covered t
    → AllPlanned t.operations more
    → t'.operations ≡ t.operations
    → t'.executed_operations ≡ t.executed_operations ++ map executed_record more
    → t'.staged_write_set ≡ insert_declared more t.staged_write_set
    → Covered t'
Covered-more t more t' (done, planned, ran, staged) p o e s = (
  done ++ more,
  rw o (AllPlanned-append t.operations done more planned p),
  e ∙ (ap (λ x. x ++ map executed_record more) ran ∙ sym (map-append done more)),
  s ∙ (ap (insert_declared more) staged ∙ sym (insert_declared-append done more [])),
)

found_after :
    (pre ops : List TransactionOperation) (op : TransactionOperation)
    → Planned (pre ++ (op ∷ ops)) op
found_after [] ops op = (0, refl)
found_after (x ∷ pre) ops op = let (i, e) = found_after pre ops op in (suc i, e)

planned_after : (pre ops : List TransactionOperation) → AllPlanned (pre ++ ops) ops
planned_after pre [] = tt
planned_after pre (op ∷ ops) = (
  found_after pre ops op,
  subst (λ x. AllPlanned x ops) (append_assoc pre (op ∷ []) ops)
      (planned_after (pre ++ (op ∷ [])) ops),
)

-- Every operation of the plan stands in the plan.
pub plan-AllPlanned : (ops : List TransactionOperation) → AllPlanned ops ops
plan-AllPlanned ops = planned_after [] ops
