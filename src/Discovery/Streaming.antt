-- ===== src/Discovery/Streaming.antt =====
-- The digest of crates/host-coordinator/src/discovery.rs against the SHA-256 of FIPS 180-4, section 5:
-- a message is padded in closed form and its blocks are compressed in order. The chunks in which
-- `Sha256::update` takes the message make no difference.
use hosts.Base.{
  ℕ, zero, suc, ◌-◌, ◌*◌, ◌/◌, ◌%◌, ◌≤◌, ◌<◌, min, true, false, List, [], ◌∷◌, ◌++◌, length, take,
  drop, length-take, length-drop, length-append, append_assoc, append_nil, drop-drop, take-append,
  drop-append, take_all, drop_all, leb, leb→le, leb_false→lt, ◌==◌, ◌≡◌, refl, sym, ap, ◌∙◌, arith,
  inl, inr, Bool-cases,
}
use hosts.Base.Word.{wrap}
use hosts.Discovery.Sha256.{
  Working, initial_state, compress, Sha256, new_sha256, whole_blocks, keep_rest, absorb_buffered,
  absorb, update, be_bytes, pad_zeros, padded_tail, output_bytes, finalize, digest,
}
use hosts.Discovery.Blocks.{
  blocks, blocks_fuel, blocks_step, blocks_short, blocks-append, length_rest,
}

-- The reference: zeros up to 56 modulo 64, then the length in bits as 64-bit word.
abbrev pub zeros : ℕ → List ℕ
zeros zero = []
zeros (suc n) = 0 ∷ zeros n

length-zeros : (n : ℕ) → length (zeros n) ≡ n
length-zeros zero = refl
length-zeros (suc n) = ap suc (length-zeros n)

unfoldable pub zeros_needed : ℕ → ℕ
zeros_needed n = (119 - n % 64) % 64

unfoldable pub padding : ℕ → List ℕ
unfolding be_bytes zeros_needed
padding n = 0x80 ∷ (zeros (zeros_needed n) ++ be_bytes 8 (wrap (n * 8)))

unfoldable pub compress_all : ℕ → Working → List ℕ → Working
unfolding compress
compress_all zero s xs = s
compress_all (suc n) s xs = compress_all n (compress (take 64 xs) s) (drop 64 xs)

unfoldable pub reference_digest : List ℕ → List ℕ
unfolding initial_state padding compress_all output_bytes
reference_digest m =
    let padded = m ++ padding (length m) in
    output_bytes (compress_all (length padded / 64) initial_state padded)

blocks_from :
    (q n : ℕ) (s : Working) (xs : List ℕ)
    → q ≡ length xs / 64
    → n ≡ 64 * q
    → blocks s xs ≡ (compress_all q s xs, drop n xs)
unfolding compress_all
blocks_from zero zero s xs e f = blocks_short s xs (omega (arith, e))
blocks_from zero (suc n) s xs e f = absurd (omega (arith, f))
blocks_from (suc q) n s xs e f =
    let ih =
      blocks_from q (64 * q) (compress (take 64 xs) s) (drop 64 xs)
        (omega (arith, e, length-drop {0} 64 xs)) refl in
    let d = drop-drop {0} (64 * q) 64 n xs (omega (arith, f)) in
    rw (blocks_step s xs (omega (arith, e)), sym d) ih

-- With fuel for the length of its input, or with more, the block loop ends by its own test: it has
-- compressed each whole block in order and leaves what follows the last one.
pub whole_blocks_stops :
    (n : ℕ) (s : Working) (xs : List ℕ)
    → length xs ≤ n
    → whole_blocks n s xs ≡ (compress_all (length xs / 64) s xs, drop (64 * (length xs / 64)) xs)
whole_blocks_stops n s xs l =
    blocks_fuel n (length xs) s xs l (omega arith)
    ∙ blocks_from (length xs / 64) (64 * (length xs / 64)) s xs refl refl

-- The padding loop: with fuel for the zeros it needs, it appends exactly those.
pad_zeros_from :
    (n z : ℕ) (tail : List ℕ)
    → z ≡ (120 - length tail % 64) % 64
    → z ≤ n
    → pad_zeros n tail ≡ tail ++ zeros z
unfolding pad_zeros
pad_zeros_from zero zero tail e l = rw (append_nil tail) refl
pad_zeros_from zero (suc z) tail e l = absurd (omega arith)
pad_zeros_from (suc n) zero tail e l =
    let t : (length tail % 64 == 56) ≡ true = ground (arith, e) in rw (t, append_nil tail) refl
pad_zeros_from (suc n) (suc z) tail e l =
    let t : (length tail % 64 == 56) ≡ false = ground (arith, e) in
    rw
      (
        t,
        pad_zeros_from n z (tail ++ (0 ∷ [])) (omega (arith, e, length-append {0} tail (0 ∷ [])))
            (omega arith),
      )
      (append_assoc tail (0 ∷ []) (zeros z))

-- With fuel 63 or more the padding loop ends by its own test: it appends the fewest zeros, below 64,
-- with which the length is 56 modulo 64.
pub pad_zeros_stops :
    (n : ℕ) (tail : List ℕ)
    → 63 ≤ n
    → let z = (120 - length tail % 64) % 64 in
      (pad_zeros n tail ≡ tail ++ zeros z) × (length (pad_zeros n tail) % 64 ≡ 56)
pad_zeros_stops n tail l =
    let z = (120 - length tail % 64) % 64 in
    let e : pad_zeros n tail ≡ tail ++ zeros z = pad_zeros_from n z tail refl (omega arith) in
    (e, rw e (omega (arith, length-append {0} tail (zeros z), length-zeros z)))

padded_tail_lem :
    (m buf : List ℕ)
    → length buf ≡ length m % 64
    → padded_tail buf (wrap (length m)) ≡ buf ++ padding (length m)
unfolding padded_tail padding zeros_needed
padded_tail_lem m buf e =
    let z = zeros_needed (length m) in
    let w : wrap (wrap (length m) * 8) ≡ wrap (length m * 8) = omega arith in
    rw
      (
        w,
        pad_zeros_from 64 z (buf ++ (0x80 ∷ []))
            (omega (arith, e, length-append {0} buf (0x80 ∷ []))) (omega arith),
        append_assoc buf (0x80 ∷ []) (zeros z),
      )
      (append_assoc buf (0x80 ∷ zeros z) (be_bytes 8 (wrap (length m * 8))))

keep_rest_nothing : (p : Working × List ℕ) → keep_rest [] p ≡ p
keep_rest_nothing (s, []) = refl
keep_rest_nothing (s, x ∷ xs) = refl

absorb_full :
    (s : Working) (buf xs : List ℕ)
    → length buf < 64
    → 64 - length buf ≤ length xs
    → absorb_buffered s buf xs ≡ blocks s (buf ++ xs)
absorb_full s buf xs b l =
    let k = 64 - length buf in
    let n : min (64 - length buf) (length xs) ≡ k = omega arith in
    let f : (length (buf ++ take k xs) == 64) ≡ true =
      ground (arith, length-append {0} buf (take k xs), length-take {0} k xs) in
    rw
      (
        n,
        f,
        keep_rest_nothing (blocks (compress (buf ++ take k xs) s) (drop k xs)),
        blocks_step s (buf ++ xs) (omega (arith, length-append {0} buf xs)),
        take-append 64 k buf xs (omega arith),
        drop-append 64 k buf xs (omega arith),
      )
      refl

absorb_part :
    (s : Working) (buf xs : List ℕ)
    → length xs < 64 - length buf
    → absorb_buffered s buf xs ≡ blocks s (buf ++ xs)
absorb_part s buf xs l =
    let n : min (64 - length buf) (length xs) ≡ length xs = omega arith in
    let f : (length (buf ++ xs) == 64) ≡ false = ground (arith, length-append {0} buf xs) in
    rw
      (
        n,
        take_all (length xs) xs (omega arith),
        drop_all (length xs) xs (omega arith),
        f,
        blocks_short s [] (omega arith),
        blocks_short s (buf ++ xs) (omega (arith, length-append {0} buf xs)),
      )
      refl

absorb_lem :
    (s : Working) (buf xs : List ℕ) → length buf < 64 → absorb s buf xs ≡ blocks s (buf ++ xs)
absorb_lem s [] xs b = keep_rest_nothing (blocks s xs)
absorb_lem s (y ∷ ys) xs b = elim (Bool-cases (leb (64 - length (y ∷ ys)) (length xs))) [
  | inl e ↦ absorb_full s (y ∷ ys) xs b (leb→le _ _ e)
  | inr e ↦ absorb_part s (y ∷ ys) xs (leb_false→lt _ _ e)
]

-- What a hasher has taken so far.
record Took (m : List ℕ) (h : Sha256) : Type 0 where
  pub loop : (h.state, h.buf) ≡ blocks initial_state m
  pub total : h.total_len ≡ wrap (length m)

update-Took : (m xs : List ℕ) (h : Sha256) → Took m h → Took (m ++ xs) (update xs h)
unfolding update
update-Took m xs h t =
    let r = ap (λ (p : Working × List ℕ). p.1) t.loop in
    let b : length h.buf < 64 = omega (arith, ap (length {A = ℕ}) r, length_rest initial_state m) in
    record {
      loop =
          absorb_lem h.state h.buf xs b
          ∙ (ap (λ (p : Working × List ℕ). blocks p.0 (p.1 ++ xs)) t.loop
              ∙ sym (blocks-append initial_state m xs));
      total = omega (arith, t.total, length-append {0} m xs);
    }

finalize_lem : (m : List ℕ) (h : Sha256) → Took m h → finalize h ≡ reference_digest m
unfolding finalize reference_digest
finalize_lem m h t =
    let r = ap (λ (p : Working × List ℕ). p.1) t.loop in
    let b : length h.buf ≡ length m % 64 = ap (length {A = ℕ}) r ∙ length_rest initial_state m in
    let padded = m ++ padding (length m) in
    rw (t.total, padded_tail_lem m h.buf b)
      (ap (λ (p : Working × List ℕ). output_bytes (blocks p.0 (p.1 ++ padding (length m))).0) t.loop
        ∙ (ap (λ (p : Working × List ℕ). output_bytes p.0)
            (sym (blocks-append initial_state m (padding (length m)))
              ∙ whole_blocks_stops (length padded) initial_state padded (omega arith))))

-- `update` on one chunk after the other.
abbrev pub update_all : List (List ℕ) → Sha256 → Sha256
update_all [] h = h
update_all (c ∷ cs) h = update_all cs (update c h)

abbrev pub concat : List (List ℕ) → List ℕ
concat [] = []
concat (c ∷ cs) = c ++ concat cs

update_all-Took :
    (cs : List (List ℕ)) (m : List ℕ) (h : Sha256)
    → Took m h
    → Took (m ++ concat cs) (update_all cs h)
update_all-Took [] m h t = rw (append_nil m) t
update_all-Took (c ∷ cs) m h t =
    rw (sym (append_assoc m c (concat cs)))
      (update_all-Took cs (m ++ c) (update c h) (update-Took m c h t))

new-Took : Took [] new_sha256
new-Took = record { loop = sym (blocks_short initial_state [] (omega arith)); total = refl }

-- A message taken in any chunks has the digest of the whole message, and it is the SHA-256 of the
-- message: the padded message's blocks, compressed in order.
pub update_all-digest :
    (cs : List (List ℕ))
    → (finalize (update_all cs new_sha256) ≡ digest (concat cs))
      × (digest (concat cs) ≡ reference_digest (concat cs))
unfolding digest
update_all-digest cs =
    let whole = finalize_lem (concat cs) _ (update-Took [] (concat cs) new_sha256 new-Took) in
    (finalize_lem (concat cs) _ (update_all-Took cs [] new_sha256 new-Took) ∙ sym whole, whole)
