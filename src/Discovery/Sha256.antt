-- ===== src/Discovery/Sha256.antt =====
-- `Sha256` of crates/host-coordinator/src/discovery.rs. A u32 is a number below 2^32; the 64-byte
-- buffer is the list of its first `buf_len` bytes.
use Prim.Native.Nat.{bit_and, bit_xor}
use hosts.Base.{
  ℕ, zero, suc, ◌+◌, ◌-◌, ◌*◌, ◌/◌, ◌%◌, ◌^◌, min, List, [], ◌∷◌, ◌++◌, none, some, get_elem?,
  length, take, drop, leb, ◌==◌, if◌then◌else◌,
}
use hosts.Base.Word.{wrap}

abbrev u32_mod : ℕ
u32_mod = 2 ^ 32

abbrev pub wrapping_add : ℕ → ℕ → ℕ
wrapping_add a b = (a + b) % u32_mod

unfoldable pub rotate_right : ℕ → ℕ → ℕ
rotate_right r x = x / 2 ^ r + (x % 2 ^ r) * 2 ^ (32 - r)

abbrev xor3 : ℕ → ℕ → ℕ → ℕ
xor3 a b c = bit_xor (bit_xor a b) c

abbrev complement : ℕ → ℕ
complement x = (u32_mod - 1) - x

-- The entry of an array, whose length the callers keep above the index.
abbrev entry : List ℕ → ℕ → ℕ
entry xs i = elim (get_elem? xs i) [ some x ↦ x | none ↦ 0 ]

unfoldable pub round_constants : List ℕ
round_constants =
    0x428a2f98 ∷ 0x71374491 ∷ 0xb5c0fbcf ∷ 0xe9b5dba5 ∷ 0x3956c25b ∷ 0x59f111f1 ∷ 0x923f82a4
    ∷ 0xab1c5ed5 ∷ 0xd807aa98 ∷ 0x12835b01 ∷ 0x243185be ∷ 0x550c7dc3 ∷ 0x72be5d74 ∷ 0x80deb1fe
    ∷ 0x9bdc06a7 ∷ 0xc19bf174 ∷ 0xe49b69c1 ∷ 0xefbe4786 ∷ 0x0fc19dc6 ∷ 0x240ca1cc ∷ 0x2de92c6f
    ∷ 0x4a7484aa ∷ 0x5cb0a9dc ∷ 0x76f988da ∷ 0x983e5152 ∷ 0xa831c66d ∷ 0xb00327c8 ∷ 0xbf597fc7
    ∷ 0xc6e00bf3 ∷ 0xd5a79147 ∷ 0x06ca6351 ∷ 0x14292967 ∷ 0x27b70a85 ∷ 0x2e1b2138 ∷ 0x4d2c6dfc
    ∷ 0x53380d13 ∷ 0x650a7354 ∷ 0x766a0abb ∷ 0x81c2c92e ∷ 0x92722c85 ∷ 0xa2bfe8a1 ∷ 0xa81a664b
    ∷ 0xc24b8b70 ∷ 0xc76c51a3 ∷ 0xd192e819 ∷ 0xd6990624 ∷ 0xf40e3585 ∷ 0x106aa070 ∷ 0x19a4c116
    ∷ 0x1e376c08 ∷ 0x2748774c ∷ 0x34b0bcb5 ∷ 0x391c0cb3 ∷ 0x4ed8aa4a ∷ 0x5b9cca4f ∷ 0x682e6ff3
    ∷ 0x748f82ee ∷ 0x78a5636f ∷ 0x84c87814 ∷ 0x8cc70208 ∷ 0x90befffa ∷ 0xa4506ceb ∷ 0xbef9a3f7
    ∷ 0xc67178f2 ∷ []

-- The working variables a to h.
pub record Working : Type 0 where
  pub a : ℕ
  pub b : ℕ
  pub c : ℕ
  pub d : ℕ
  pub e : ℕ
  pub f : ℕ
  pub g : ℕ
  pub h : ℕ

unfoldable pub initial_state : Working
initial_state = record {
  a = 0x6a09e667;
  b = 0xbb67ae85;
  c = 0x3c6ef372;
  d = 0xa54ff53a;
  e = 0x510e527f;
  f = 0x9b05688c;
  g = 0x1f83d9ab;
  h = 0x5be0cd19;
}

-- `from_be_bytes` on each group of four bytes.
unfoldable pub be_words : List ℕ → List ℕ
be_words (p ∷ q ∷ r ∷ s ∷ rest) = (((p * 256 + q) * 256 + r) * 256 + s) ∷ be_words rest
be_words (p ∷ q ∷ r ∷ []) = []
be_words (p ∷ q ∷ []) = []
be_words (p ∷ []) = []
be_words [] = []

unfoldable pub schedule_word : List ℕ → ℕ → ℕ
unfolding rotate_right
schedule_word w i =
    let x = entry w (i - 15) in
    let y = entry w (i - 2) in
    let s0 = xor3 (rotate_right 7 x) (rotate_right 18 x) (x / 2 ^ 3) in
    let s1 = xor3 (rotate_right 17 y) (rotate_right 19 y) (y / 2 ^ 10) in
    wrapping_add (wrapping_add (wrapping_add (entry w (i - 16)) s0) (entry w (i - 7))) s1

-- The words 16 to 63.
unfoldable pub extend_schedule : ℕ → ℕ → List ℕ → List ℕ
unfolding schedule_word
extend_schedule zero i w = w
extend_schedule (suc n) i w = extend_schedule n (suc i) (w ++ (schedule_word w i ∷ []))

unfoldable pub compress_round : ℕ → ℕ → Working → Working
unfolding rotate_right
compress_round k w v =
    let s1 = xor3 (rotate_right 6 v.e) (rotate_right 11 v.e) (rotate_right 25 v.e) in
    let ch = bit_xor (bit_and v.e v.f) (bit_and (complement v.e) v.g) in
    let temp1 = wrapping_add (wrapping_add (wrapping_add (wrapping_add v.h s1) ch) k) w in
    let s0 = xor3 (rotate_right 2 v.a) (rotate_right 13 v.a) (rotate_right 22 v.a) in
    let maj = xor3 (bit_and v.a v.b) (bit_and v.a v.c) (bit_and v.b v.c) in
    let temp2 = wrapping_add s0 maj in
    record {
      a = wrapping_add temp1 temp2;
      b = v.a;
      c = v.b;
      d = v.c;
      e = wrapping_add v.d temp1;
      f = v.e;
      g = v.f;
      h = v.g;
    }

unfoldable pub compress_rounds : List ℕ → List ℕ → Working → Working
unfolding compress_round
compress_rounds (k ∷ ks) (w ∷ ws) v = compress_rounds ks ws (compress_round k w v)
compress_rounds [] ws v = v
compress_rounds (k ∷ ks) [] v = v

abbrev add_working : Working → Working → Working
add_working s v = record {
  a = wrapping_add s.a v.a;
  b = wrapping_add s.b v.b;
  c = wrapping_add s.c v.c;
  d = wrapping_add s.d v.d;
  e = wrapping_add s.e v.e;
  f = wrapping_add s.f v.f;
  g = wrapping_add s.g v.g;
  h = wrapping_add s.h v.h;
}

unfoldable pub compress : List ℕ → Working → Working
unfolding compress_rounds extend_schedule be_words round_constants
compress block s =
    add_working s (compress_rounds round_constants (extend_schedule 48 16 (be_words block)) s)

pub record Sha256 : Type 0 where
  pub state : Working
  pub buf : List ℕ
  pub total_len : ℕ

abbrev pub new_sha256 : Sha256
new_sha256 = record { state = initial_state; buf = []; total_len = 0 }

-- The loop over whole blocks of the data, with the state and the data that it leaves. Each round
-- takes 64 bytes, so that fuel for the length of the data is enough.
unfoldable pub whole_blocks : ℕ → Working → List ℕ → Working × List ℕ
unfolding compress
whole_blocks zero s xs = (s, xs)
whole_blocks (suc n) s xs =
    let rest = whole_blocks n (compress (take 64 xs) s) (drop 64 xs) in
    if leb 64 (length xs) then rest else (s, xs)

-- What stays of the data is the new buffer, if there is any.
abbrev pub keep_rest : List ℕ → Working × List ℕ → Working × List ℕ
keep_rest buf (s, []) = (s, buf)
keep_rest buf (s, x ∷ xs) = (s, x ∷ xs)

-- First the buffer is filled, and compressed if it is full.
abbrev pub absorb_buffered : Working → List ℕ → List ℕ → Working × List ℕ
absorb_buffered s buf xs =
    let n = min (64 - length buf) (length xs) in
    let buf' = buf ++ take n xs in
    let rest = drop n xs in
    if length buf' == 64
    then keep_rest [] (whole_blocks (length rest) (compress buf' s) rest)
    else keep_rest buf' (whole_blocks (length rest) s rest)

abbrev pub absorb : Working → List ℕ → List ℕ → Working × List ℕ
absorb s [] xs = keep_rest [] (whole_blocks (length xs) s xs)
absorb s (b ∷ bs) xs = absorb_buffered s (b ∷ bs) xs

unfoldable pub update : List ℕ → Sha256 → Sha256
unfolding whole_blocks compress
update xs h =
    let (s, buf) = absorb h.state h.buf xs in
    record { state = s; buf = buf; total_len = wrap (h.total_len + length xs) }

-- `to_be_bytes`.
unfoldable pub be_bytes : ℕ → ℕ → List ℕ
be_bytes zero v = []
be_bytes (suc w) v = be_bytes w (v / 256) ++ ((v % 256) ∷ [])

-- The padding loop. Fewer than 64 zeros reach a length of 56 modulo 64.
unfoldable pub pad_zeros : ℕ → List ℕ → List ℕ
pad_zeros zero tail = tail
pad_zeros (suc n) tail =
    let rest = pad_zeros n (tail ++ (0 ∷ [])) in if length tail % 64 == 56 then tail else rest

unfoldable pub padded_tail : List ℕ → ℕ → List ℕ
unfolding pad_zeros be_bytes
padded_tail buf total = pad_zeros 64 (buf ++ (0x80 ∷ [])) ++ be_bytes 8 (wrap (total * 8))

unfoldable pub output_bytes : Working → List ℕ
unfolding be_bytes
output_bytes s =
    be_bytes 4 s.a
    ++ (be_bytes 4 s.b
        ++ (be_bytes 4 s.c
            ++ (be_bytes 4 s.d
                ++ (be_bytes 4 s.e ++ (be_bytes 4 s.f ++ (be_bytes 4 s.g ++ be_bytes 4 s.h))))))

-- `chunks_exact` leaves out what follows the last whole block.
unfoldable pub finalize : Sha256 → List ℕ
unfolding whole_blocks padded_tail output_bytes
finalize h =
    let tail = padded_tail h.buf h.total_len in
    output_bytes (whole_blocks (length tail) h.state tail).0

unfoldable pub digest : List ℕ → List ℕ
unfolding update finalize initial_state
digest xs = finalize (update xs new_sha256)
