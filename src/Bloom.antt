-- ===== src/Bloom.antt =====
-- leveldb学习/filter/bloom.c, the Bloom filter policy, over the hash function of
-- leveldb学习/project/leveldb/leveldb/util/hash.cpp.
-- `bits_per_key * 0.69` in floating point, cut to an integer and then to at most 30, is
-- `bits_per_key * 69 / 100`: below 44 no product is near an integer but 0.
pub mod NoFalseNegative
pub mod Bit
pub mod Marks
mod Tests
use study_history.Prelude.{
  ℕ, zero, suc, ◌+◌, ◌-◌, ◌*◌, ◌/◌, ◌%◌, ◌^◌, bit_and, bit_or, List, [], ◌∷◌, ◌++◌, Bool, true,
  false, ltb, leb, ◌==◌, if◌then◌else◌, length, get_or, set, replicate,
}
use study_history.Coding.{Bytes, decode_fixed32}
use study_history.DbFormat.{FilterPolicy}
use Prim.Native.Nat.{bit_xor}

-- uint32_t arithmetic.
abbrev pub u32 : ℕ → ℕ
u32 n = n % 2 ^ 32

abbrev hash_m : ℕ
hash_m = 0xc6a4a793

-- `h *= m; h ^= (h >> s)` for the sum `h`.
pub mix : ℕ → ℕ → ℕ
mix s h = let product = u32 (u32 h * hash_m) in bit_xor product (product / 2 ^ s)

-- The loop over four bytes at a time, and the `switch` over what is left.
pub hash_loop : Bytes → ℕ → ℕ
hash_loop (a ∷ b ∷ c ∷ d ∷ rest) h =
    hash_loop rest (mix 16 (h + decode_fixed32 (a ∷ b ∷ c ∷ d ∷ [])))
hash_loop (a ∷ b ∷ c ∷ []) h = mix 24 (h + c * 2 ^ 16 + b * 2 ^ 8 + a)
hash_loop (a ∷ b ∷ []) h = mix 24 (h + b * 2 ^ 8 + a)
hash_loop (a ∷ []) h = mix 24 (h + a)
hash_loop [] h = h

unfoldable pub hash : Bytes → ℕ → ℕ
unfolding hash_loop mix
hash bytes seed = hash_loop bytes (bit_xor seed (u32 (length bytes * hash_m)))

unfoldable pub bloom_hash : Bytes → ℕ
unfolding hash
bloom_hash key = hash key 0xbc9f1d34

-- The constructor's `k_`.
unfoldable pub probes : ℕ → ℕ
probes bits_per_key =
    let k = bits_per_key * 69 / 100 in if ltb k 1 then 1 else (if ltb 30 k then 30 else k)

-- `(h >> 17) | (h << 15)`
unfoldable pub rotate : ℕ → ℕ
rotate h = bit_or (h / 2 ^ 17) (u32 (h * 2 ^ 15))

-- `array[bitpos / 8] |= (1 << (bitpos % 8))`
unfoldable pub set_bit : Bytes → ℕ → Bytes
set_bit array bitpos =
    set array (bitpos / 8) (bit_or (get_or array (bitpos / 8) 0) (2 ^ (bitpos % 8)))

-- The inner loop of CreateFilter: `k` probes from `h` on.
unfoldable pub add_probes : ℕ → ℕ → ℕ → ℕ → Bytes → Bytes
add_probes bits delta zero h array = array
add_probes bits delta (suc k) h array =
    add_probes bits delta k (u32 (h + delta)) (set_bit array (h % bits))

-- The outer loop.
unfoldable pub add_keys : ℕ → ℕ → List Bytes → Bytes → Bytes
add_keys bits k [] array = array
add_keys bits k (key ∷ keys) array =
    let h = bloom_hash key in add_keys bits k keys (add_probes bits (rotate h) k h array)

-- The size of the array in bytes.
unfoldable pub filter_bytes : ℕ → ℕ → ℕ
filter_bytes bits_per_key n =
    let bits = n * bits_per_key in ((if ltb bits 64 then 64 else bits) + 7) / 8

unfoldable pub create_filter : ℕ → List Bytes → Bytes → Bytes
create_filter bits_per_key keys dst =
    let bytes = filter_bytes bits_per_key (length keys) in
    let k = probes bits_per_key in
    dst ++ (add_keys (bytes * 8) k keys (replicate bytes 0) ++ k ∷ [])

-- The loop of KeyMayMatch.
unfoldable pub all_set : ℕ → ℕ → ℕ → ℕ → Bytes → Bool
all_set bits delta zero h array = true
all_set bits delta (suc k) h array =
    let bitpos = h % bits in
    let rest = all_set bits delta k (u32 (h + delta)) array in
    if bit_and (get_or array (bitpos / 8) 0) (2 ^ (bitpos % 8)) == 0 then false else rest

unfoldable pub key_may_match : Bytes → Bytes → Bool
key_may_match key bloom_filter =
    let len = length bloom_filter in
    let k = get_or bloom_filter (len - 1) 0 in
    let h = bloom_hash key in
    if ltb len 2
    then false
    else (if ltb 30 k then true else all_set ((len - 1) * 8) (rotate h) k h bloom_filter)

unfoldable pub bloom_policy : ℕ → FilterPolicy
bloom_policy bits_per_key = record {
  create_filter = create_filter bits_per_key;
  key_may_match = key_may_match;
}
