-- ===== src/Transaction/Index.antt =====
-- The operation index that `prepare` builds
-- (crates/host-coordinator/src/execution_transaction/transaction.rs) finds every operation of the plan.
use hosts.Base.{ℕ, zero, suc, ◌+◌, List, [], ◌∷◌, none, some, ok, get_elem?, ◌≡◌, arith}
use hosts.Base.Collections.{get, insert, get-insert}
use hosts.Transaction.Mirror.{TransactionOperation, OperationRef, operation_ref_ord}
use hosts.Transaction.Operation.{operation_ref}
use hosts.Transaction.Prepare.{index_operations}

abbrev Keys : Type 0
Keys = List (OperationRef × ℕ)

index_step :
    (op : TransactionOperation) (ops : List TransactionOperation) (n : ℕ) (ks ks' : Keys)
    → index_operations (op ∷ ops) n ks ≡ ok ks'
    → (get (operation_ref op) ks ≡ none)
      × (index_operations ops (suc n) (insert (operation_ref op) n ks) ≡ ok ks')
unfolding index_operations
index_step op ops n ks ks' h = ground arith

-- An index entry outlives the operations that follow.
index_kept :
    (ops : List TransactionOperation) (n : ℕ) (ks ks' : Keys) (r : OperationRef) (i : ℕ)
    → index_operations ops n ks ≡ ok ks'
    → get r ks ≡ some i
    → get r ks' ≡ some i
unfolding index_operations
index_kept [] n ks ks' r i h g = ground arith
index_kept (op ∷ ops) n ks ks' r i h g =
    let (fresh, rest) = index_step op ops n ks ks' h in
    index_kept ops (suc n) (insert (operation_ref op) n ks) ks' r i rest (
      ground (
        arith,
        get-insert r (operation_ref op) n ks,
        operation_ref_ord.eq_of_cmp r (operation_ref op),
      ))

index_found :
    (ops : List TransactionOperation) (n : ℕ) (ks ks' : Keys) (i : ℕ) (op : TransactionOperation)
    → index_operations ops n ks ≡ ok ks'
    → get_elem? ops i ≡ some op
    → get (operation_ref op) ks' ≡ some (n + i)
index_found [] n ks ks' i op h g = ground arith
index_found (o ∷ ops) n ks ks' zero op h g =
    let (fresh, rest) = index_step o ops n ks ks' h in
    index_kept ops (suc n) (insert (operation_ref o) n ks) ks' (operation_ref op) (n + zero) rest (
      ground (
        arith,
        get-insert (operation_ref op) (operation_ref o) n ks,
        operation_ref_ord.cmp_self (operation_ref o),
      ))
index_found (o ∷ ops) n ks ks' (suc i) op h g =
    let (fresh, rest) = index_step o ops n ks ks' h in
    ground (arith, index_found ops (suc n) (insert (operation_ref o) n ks) ks' i op rest g)

-- Each operation of the plan is found under its reference, at its place.
abbrev pub IsIndexed : Keys → List TransactionOperation → Type 0
IsIndexed ks ops =
    (i : ℕ) (op : TransactionOperation)
    → get_elem? ops i ≡ some op
    → get (operation_ref op) ks ≡ some i

pub index_operations-IsIndexed :
    (ops : List TransactionOperation) (ks : Keys)
    → index_operations ops 0 [] ≡ ok ks
    → IsIndexed ks ops
index_operations-IsIndexed ops ks h i op g = ground (arith, index_found ops 0 [] ks i op h g)
