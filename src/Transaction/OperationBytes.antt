-- ===== src/Transaction/OperationBytes.antt =====
-- The canonical bytes of an operation
-- (crates/host-coordinator/src/execution_transaction/mirror.rs) tell operations apart.
use hosts.Base.{ℕ, ◌<◌, ◌≡◌, ap, List, length, arith, All, Str}
use hosts.Identity.Injective.{
  IsU64, IsStr, Code, cons_eq, word, text, list, ◌then_code◌, by_key, enc_injective,
}
use hosts.Transaction.Mirror.{
  TransactionCommitBoundary, TransferOperationMirror, CollectiveBroadcastMirror,
  TransactionOperation, launch, transfer, broadcast, barrier, TransferDirectionMirror,
  MirroredDtype, MirroredStorageLayout, TransportPathMirror, direction_tag, dtype_tag, layout_tag,
  path_tag,
}
use hosts.Transaction.Operation.{transfer_bytes, broadcast_bytes, operation_bytes}

direction_tag_injective :
    (a b : TransferDirectionMirror) → direction_tag a ≡ direction_tag b → a ≡ b
unfolding direction_tag
direction_tag_injective a b h = ground arith

pub dtype_tag_injective : (a b : MirroredDtype) → dtype_tag a ≡ dtype_tag b → a ≡ b
unfolding dtype_tag
dtype_tag_injective a b h = ground arith

pub layout_tag_injective : (a b : MirroredStorageLayout) → layout_tag a ≡ layout_tag b → a ≡ b
unfolding layout_tag
layout_tag_injective a b h = ground arith

path_tag_injective : (a b : TransportPathMirror) → path_tag a ≡ path_tag b → a ≡ b
unfolding path_tag
path_tag_injective a b h = ground arith

abbrev texts : Code (List Str)
texts = list text

boundary_key_injective :
    (x y : TransactionCommitBoundary)
    → ◌≡◌ {A = List Str × List Str} (x.barriers, x.launches) (y.barriers, y.launches)
    → x ≡ y
boundary_key_injective x y h = ground arith

abbrev boundary : Code TransactionCommitBoundary
boundary = by_key (λ c. (c.barriers, c.launches)) boundary_key_injective (texts then_code texts)

transfer_code : Code TransferOperationMirror
transfer_code =
    by_key
      (λ t. (
        t.id,
        (
          t.source,
          (
            t.destination,
            (
              t.byte_count,
              (
                t.direction,
                (
                  t.element_dtype,
                  (
                    t.layout,
                    (
                      t.path_label,
                      (t.producer_generation, (t.consumer_generation, t.completion_boundary)),
                    ),
                  ),
                ),
              ),
            ),
          ),
        ),
      ))
      (λ x y h. ground arith)
      (text
        then_code text
        then_code text
        then_code word
        then_code by_key direction_tag direction_tag_injective word
        then_code by_key dtype_tag dtype_tag_injective word
        then_code by_key layout_tag layout_tag_injective word
        then_code by_key path_tag path_tag_injective word
        then_code word
        then_code word
        then_code boundary)

broadcast_code : Code CollectiveBroadcastMirror
broadcast_code =
    by_key (λ b. (b.id, (b.source, (b.participants, b.byte_count)))) (λ x y h. ground arith)
      (text then_code text then_code texts then_code word)

abbrev launch_code : Code (Str × (Str × ℕ))
launch_code = text then_code text then_code word

abbrev barrier_code : Code (Str × List Str)
barrier_code = text then_code texts

-- Every text, every count and every set of the operation has a size that fits 64 bits.
abbrev pub TextsFit : List Str → Type 0
TextsFit xs = IsU64 (length xs) × All IsStr xs

pub record TransferFits (t : TransferOperationMirror) : Type 0 where
  pub id_fits : IsStr t.id
  pub source_fits : IsStr t.source
  pub destination_fits : IsStr t.destination
  pub byte_count_fits : IsU64 t.byte_count
  pub producer_fits : IsU64 t.producer_generation
  pub consumer_fits : IsU64 t.consumer_generation
  pub barriers_fit : TextsFit t.completion_boundary.barriers
  pub launches_fit : TextsFit t.completion_boundary.launches

abbrev pub OperationFits : TransactionOperation → Type 0
OperationFits (launch partition ref output_bytes) = IsStr partition × IsStr ref × IsU64 output_bytes
OperationFits (transfer t) = TransferFits t
OperationFits (broadcast b) =
    IsStr b.id × IsStr b.source × TextsFit b.participants × IsU64 b.byte_count
OperationFits (barrier ref partitions) = IsStr ref × TextsFit partitions

tags_fit :
    (t : TransferOperationMirror)
    → (direction_tag t.direction < 3)
      × (dtype_tag t.element_dtype < 6)
      × (layout_tag t.layout < 2)
      × (path_tag t.path_label < 1)
unfolding direction_tag dtype_tag layout_tag path_tag
tags_fit t = ground arith

transfer_fits : (t : TransferOperationMirror) → TransferFits t → transfer_code.Fits t
unfolding transfer_code
transfer_fits t f =
    let (d, e, l, p) = tags_fit t in
    (
      f.id_fits,
      (
        f.source_fits,
        (
          f.destination_fits,
          (
            f.byte_count_fits,
            (
              omega arith,
              (
                omega arith,
                (
                  omega arith,
                  (
                    omega arith,
                    (f.producer_fits, (f.consumer_fits, (f.barriers_fit, f.launches_fit))),
                  ),
                ),
              ),
            ),
          ),
        ),
      ),
    )

transfer_bytes_injective :
    (a b : TransferOperationMirror)
    → TransferFits a
    → TransferFits b
    → transfer_bytes a ≡ transfer_bytes b
    → a ≡ b
unfolding transfer_bytes transfer_code
transfer_bytes_injective a b p q h =
    enc_injective transfer_code a b (transfer_fits a p) (transfer_fits b q) h

broadcast_bytes_injective :
    (a b : CollectiveBroadcastMirror)
    → OperationFits (broadcast a)
    → OperationFits (broadcast b)
    → broadcast_bytes a ≡ broadcast_bytes b
    → a ≡ b
unfolding broadcast_bytes broadcast_code
broadcast_bytes_injective a b p q h =
    enc_injective broadcast_code a b (p.0, (p.1, (p.2, p.3))) (q.0, (q.1, (q.2, q.3))) h

-- Operations with the same canonical bytes are the same operation, where every text, every count
-- and every set of both has a size that fits 64 bits.
pub operation_bytes_injective :
    (a b : TransactionOperation)
    → OperationFits a
    → OperationFits b
    → operation_bytes a ≡ operation_bytes b
    → a ≡ b
unfolding operation_bytes
operation_bytes_injective (launch p r n) (launch p' r' n') f g h = ground (
  arith,
  enc_injective launch_code (p, (r, n)) (p', (r', n')) (f.0, (f.1, f.2)) (g.0, (g.1, g.2))
      (cons_eq h).1,
)
operation_bytes_injective (transfer a) (transfer b) f g h =
    ap transfer (transfer_bytes_injective a b f g (cons_eq h).1)
operation_bytes_injective (broadcast a) (broadcast b) f g h =
    ap broadcast (broadcast_bytes_injective a b f g (cons_eq h).1)
operation_bytes_injective (barrier r ps) (barrier r' ps') f g h =
    ground (arith, enc_injective barrier_code (r, ps) (r', ps') (f.0, f.1) (g.0, g.1) (cons_eq h).1)
operation_bytes_injective _ _ f g h = ground arith
