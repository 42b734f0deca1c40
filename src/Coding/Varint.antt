-- ===== src/Coding/Varint.antt =====
-- The variable length integers of coding.cpp: the two encoders and the two decoders.
use study_history.Prelude.{
  ℕ, zero, suc, ◌+◌, ◌*◌, ◌/◌, ◌%◌, ◌^◌, ◌≤◌, ◌<◌, ◌≡◌, ap, arith, [], ◌∷◌, ◌++◌, some, ltb,
  if◌then◌else◌, length, All,
}
use study_history.Prelude.Bits.{bit_or_disjoint, low_bits, top_bit, bit_or_128-mod}
use study_history.Coding.{
  Bytes, IsByte, IsU32, IsU64, encode_varint32, encode_varint64_loop, encode_varint64,
  varint_length_loop, varint_length, get_varint_loop, get_varint32_ptr_fallback, get_varint32_ptr,
  get_varint32, get_varint64_ptr, get_varint64,
}
use native.Mathlib.Nat.{pow-suc, mod-eq_of_lt, div-add-mod}
use native.Mathlib.Numerals.{towards_suc}

-- The groups of seven bits of `v`, lowest first, each but the last with its top bit set.
unfoldable pub groups : ℕ → ℕ → Bytes
groups zero v = v ∷ []
groups (suc k) v =
    let rest = groups k (v / 128) in if ltb v 128 then v ∷ [] else ((v % 128 + 128) ∷ rest)

-- On a uint32 the five cases of EncodeVarint32 write the groups.
pub encode_varint32-groups : (v : ℕ) → IsU32 v → encode_varint32 v ≡ groups 4 v
unfolding encode_varint32 groups
encode_varint32-groups v h = ground (
  arith,
  bit_or_128-mod v,
  bit_or_128-mod (v / 2 ^ 7),
  bit_or_128-mod (v / 2 ^ 14),
  bit_or_128-mod (v / 2 ^ 21),
)

encode_varint64_loop-groups :
    (k v : ℕ) → v < 128 ^ suc k → v < 2 ^ 64 → encode_varint64_loop k v ≡ groups k v
unfolding encode_varint64_loop groups
encode_varint64_loop-groups zero v h b = ground arith
encode_varint64_loop-groups (suc k) v h b = ground (
  arith,
  bit_or_128-mod v,
  encode_varint64_loop-groups k (v / 128) (omega (arith, pow-suc 128 (suc k))) (omega arith),
)

-- On a uint64 the loop of EncodeVarint64 writes the groups, and needs nine rounds at most.
pub encode_varint64-groups : (v : ℕ) → IsU64 v → encode_varint64 v ≡ groups 9 v
unfolding encode_varint64
encode_varint64-groups v h = encode_varint64_loop-groups 9 v (omega arith) h

pub groups-IsByte : (k v : ℕ) → v < 128 ^ suc k → All IsByte (groups k v)
unfolding groups
groups-IsByte zero v h = omega arith
groups-IsByte (suc k) v h =
    ground (arith, groups-IsByte k (v / 128) (omega (arith, pow-suc 128 (suc k))))

-- Seven bits further up.
shift_seven : (s : ℕ) → 2 ^ (s + 7) ≡ 128 * 2 ^ s
shift_seven s = simp towards_suc (omega arith)

-- A number at bit `s` is its low group there, and the rest seven bits further up.
split_group : (w s : ℕ) → w % 128 * 2 ^ s + w / 128 * 2 ^ (s + 7) ≡ w * 2 ^ s
split_group w s =
    let whole = ap (λ (n : ℕ). n * 2 ^ s) (div-add-mod w 128) in
    rw shift_seven (omega (arith, whole))

group_lt : (g r s : ℕ) → r < 2 ^ s → g < 128 → r + g * 2 ^ s < 2 ^ (s + 7)
group_lt g r s hr hg = grind (arith, shift_seven s)

-- One round of the decoder: on a last byte `w`, and on a byte with the top bit over the group `g`.
module _ (last width : ℕ) where
  last_byte :
      (w shift result : ℕ) (rest : Bytes)
      → w < 128
      → shift ≤ last
      → result < 2 ^ shift
      → result + w * 2 ^ shift < 2 ^ width
      → get_varint_loop last width (w ∷ rest) shift result ≡ some (result + w * 2 ^ shift, rest)
  unfolding get_varint_loop
  last_byte w shift result rest hw hs hr fits = ground (
    arith,
    top_bit w,
    bit_or_disjoint shift result w hr,
    mod-eq_of_lt {n = w * 2 ^ shift} {m = 2 ^ width} (omega arith),
  )

  inner_byte :
      (g shift result : ℕ) (rest : Bytes)
      → g < 128
      → shift ≤ last
      → result < 2 ^ shift
      → result + g * 2 ^ shift < 2 ^ width
      → get_varint_loop last width ((g + 128) ∷ rest) shift result
        ≡ get_varint_loop last width rest (shift + 7) (result + g * 2 ^ shift)
  unfolding get_varint_loop
  inner_byte g shift result rest hg hs hr fits = ground (
    arith,
    top_bit (g + 128),
    low_bits (g + 128),
    bit_or_disjoint shift result g hr,
    mod-eq_of_lt {n = g * 2 ^ shift} {m = 2 ^ width} (omega arith),
  )

  -- The loop reads back the groups of `v`, where their last shift is allowed and the sum fits.
  pub get_varint_loop-groups :
      (k v shift result : ℕ) (rest : Bytes)
      → v < 128 ^ suc k
      → shift + 7 * k ≤ last
      → result < 2 ^ shift
      → result + v * 2 ^ shift < 2 ^ width
      → get_varint_loop last width (groups k v ++ rest) shift result
        ≡ some (result + v * 2 ^ shift, rest)
  unfolding groups
  get_varint_loop-groups zero v shift result rest hv hs hr fits =
      last_byte v shift result rest (omega arith) (omega arith) hr fits
  get_varint_loop-groups (suc k) v shift result rest hv hs hr fits = ground (
    arith,
    last_byte v shift result rest,
    split_group v shift,
    shift_seven shift,
    inner_byte (v % 128) shift result (groups k (v / 128) ++ rest),
    get_varint_loop-groups k (v / 128) (shift + 7) (result + v % 128 * 2 ^ shift) rest
        (omega (arith, pow-suc 128 (suc k))) (omega arith)
        (group_lt (v % 128) result shift hr (omega arith)),
  )

fallback-groups :
    (v : ℕ) (rest : Bytes)
    → IsU32 v
    → get_varint32_ptr_fallback (groups 4 v ++ rest) ≡ some (v, rest)
unfolding get_varint32_ptr_fallback
fallback-groups v rest h = ground (arith, get_varint_loop-groups 28 32 4 v 0 0 rest)

-- The fast path agrees with the loop.
get_varint32_ptr-groups :
    (v : ℕ) (rest : Bytes) → IsU32 v → get_varint32_ptr (groups 4 v ++ rest) ≡ some (v, rest)
unfolding get_varint32_ptr groups
get_varint32_ptr-groups v rest h =
    ground (arith, fallback-groups v rest h, top_bit v, top_bit (v % 128 + 128))

pub get_varint32_ptr-put :
    (v : ℕ) (rest : Bytes) → IsU32 v → get_varint32_ptr (encode_varint32 v ++ rest) ≡ some (v, rest)
get_varint32_ptr-put v rest h = rw (encode_varint32-groups v h) (get_varint32_ptr-groups v rest h)

-- GetVarint32 reads back the uint32 that PutVarint32 appended, and leaves what follows it.
pub get_varint32-put :
    (v : ℕ) (rest : Bytes) → IsU32 v → get_varint32 (encode_varint32 v ++ rest) ≡ some (v, rest)
unfolding get_varint32
get_varint32-put v rest h =
    rw (encode_varint32-groups v h) (ground (arith, get_varint32_ptr-groups v rest h))

-- GetVarint64 reads back the uint64 that PutVarint64 appended, and leaves what follows it.
pub get_varint64-put :
    (v : ℕ) (rest : Bytes) → IsU64 v → get_varint64 (encode_varint64 v ++ rest) ≡ some (v, rest)
unfolding get_varint64 get_varint64_ptr
get_varint64-put v rest h =
    rw (encode_varint64-groups v h) (ground (arith, get_varint_loop-groups 63 64 9 v 0 0 rest))

-- VarintLength is the number of bytes that the encoders write.
length-groups :
    (k v len : ℕ) → v < 128 ^ suc k → varint_length_loop k v len + 1 ≡ len + length (groups k v)
unfolding varint_length_loop groups
length-groups zero v len h = omega arith
length-groups (suc k) v len h =
    ground (arith, length-groups k (v / 128) (len + 1) (omega (arith, pow-suc 128 (suc k))))

-- On a uint64 VarintLength gives the number of bytes that EncodeVarint64 writes.
pub varint_length-encode64 : (v : ℕ) → IsU64 v → varint_length v ≡ length (encode_varint64 v)
unfolding varint_length
varint_length-encode64 v h =
    rw (encode_varint64-groups v h) (omega (arith, length-groups 9 v 1 (omega arith)))
