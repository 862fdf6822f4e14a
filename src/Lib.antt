-- ===== src/Lib.antt =====
-- The host coordinator of the repository (crates/host-coordinator): a plan that is bound to devices
-- runs as one transaction, which reserves, executes, and then commits or aborts as a whole.
--
-- The parts and the files that model them:
--   * Base: shared names, texts as lists of bytes, words of 64 bits, orders, and `BTreeMap` and
--     `BTreeSet` as ascending lists.
--   * Identity: crates/host-coordinator/src/device_identity.rs and backend.rs, the ids of devices,
--     their order, the byte helpers (`push_u64`, `push_str`, ...) and the health generation.
--   * Partition: crates/host-coordinator/src/partition.rs, the budget ledger, `admit`, the life of an
--     admitted partition, and the receipt taxonomy with its `canonical_bytes`.
--   * Discovery: crates/host-coordinator/src/discovery.rs. Snapshot is `DeviceDiscoverySnapshot` with
--     its records and bytes, Sha256 the digest that makes its id.
--   * DeviceSet: crates/host-coordinator/src/device_set.rs, `DeviceSet`, `DeviceSetSelection` and the
--     links of `DeviceTopologySnapshot`.
--   * BoundPlan: crates/host-coordinator/src/bound_plan.rs, the bound plan that a transaction holds,
--     with `bindings`, `receipt` and `canonical_bytes`; Admit is `AdmittedLogicalPlan::admit`, Bind
--     is `bind`, which reads the snapshot and the device set.
--   * Policy: crates/host-coordinator/src/policy.rs, the four gates, the ranking by objectives, and
--     `evaluate` with its receipt, over the same snapshot, selection and topology.
--   * Transport: crates/host-coordinator/src/transport.rs. Spec has the facts of a transfer and their
--     validation, Peers the registry of peer pairs, Adapter `HostStagedAdapter` and `PeerAdapter`,
--     and Records what a transaction's receipt carries.
--   * Transaction: crates/host-coordinator/src/execution_transaction/. Mirror and Operation are
--     mirror.rs, Reservation is reservation.rs, State is state_machine.rs and errors.rs, Receipt is
--     receipt.rs, Backend and Fake are backend.rs. Of transaction.rs, Coordinator has the record and
--     its constructor, Prepare, Execute and Finish the phases.
--   * Scenarios: concrete plans, runs and records.
--
-- How the code is read. An operation on `&mut self` takes the transaction and the backend and
-- returns both with its answer. A backend is any type with the operations of the trait
-- `DeviceExecutionBackend`; `PublishesAtomically` states what the trait documents of publication. The
-- in-memory backend is `fake`. A newtype over a string or a number is that
-- string or number. An enum is a data type, a `BTreeMap` or a `BTreeSet` its ascending list, read
-- through an order that is an instance argument. `+` on u64 wraps, as in a release build, where a
-- `debug_assert!` is not run either; `checked_add` and `saturating_add` are written out. A panic
-- (`expect`, an index out of range) is the value `panicked`. Elapsed times and the ordinal of a
-- publication are arguments of the phases, and the debug print of an error is a parameter of
-- `commit`. A copy takes its elapsed time as an argument. The detail text of a bind error or of a
-- policy violation is the constructor of its message, which a parameter spells where bytes hold it.
-- The SHA-256 of the crate sha2, with which `bind` hashes a plan, is a parameter; the digest of
-- discovery is the source's own and executable. Loops are structural recursion on the list that they
-- walk, but for two loops of the digest, which run on fuel: the block loop on the length of its data,
-- the padding loop on 64.
--
-- Not modelled: capability tables, repack plans, device handles, display formats, and the
-- other crates, which are hosts over the operating system, drivers and external engines.
pub mod Base
pub mod Identity
pub mod Partition
pub mod BoundPlan
pub mod Policy
pub mod Transaction
pub mod Transport
pub mod Scenarios
pub mod Discovery
pub mod DeviceSet
