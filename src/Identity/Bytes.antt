-- ===== src/Identity/Bytes.antt =====
-- The canonical byte helpers of crates/host-coordinator/src/device_identity.rs. The source appends
-- to a buffer; each function here is the list of bytes that it appends.
use hosts.Base.{ℕ, zero, suc, ◌%◌, ◌/◌, Bool, true, false, List, [], ◌∷◌, ◌++◌, Str, length}

-- `to_le_bytes` of a word of the given number of bytes.
unfoldable pub le_bytes : ℕ → ℕ → List ℕ
le_bytes zero v = []
le_bytes (suc w) v = (v % 256) ∷ le_bytes w (v / 256)

unfoldable pub push_u64 : ℕ → List ℕ
unfolding le_bytes
push_u64 v = le_bytes 8 v

unfoldable pub push_u32 : ℕ → List ℕ
unfolding le_bytes
push_u32 v = le_bytes 4 v

unfoldable pub push_bool : Bool → List ℕ
push_bool true = 1 ∷ []
push_bool false = 0 ∷ []

unfoldable pub push_str : Str → List ℕ
unfolding push_u64
push_str s = push_u64 (length s) ++ s

-- The entries of a list, one after the other.
unfoldable pub push_all : {A : Type 0} → (A → List ℕ) → List A → List ℕ
push_all enc [] = []
push_all enc (x ∷ xs) = enc x ++ push_all enc xs

-- A collection: its length, then its entries.
unfoldable pub push_list : {A : Type 0} → (A → List ℕ) → List A → List ℕ
unfolding push_u64 push_all
push_list enc xs = push_u64 (length xs) ++ push_all enc xs
