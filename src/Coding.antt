-- ===== src/Coding.antt =====
-- leveldb学习/project/leveldb/leveldb/util/coding.cpp and coding.h: the fixed and variable length
-- encodings that the log, the manifest, the tables and the memtable are written in.
-- A byte string is a list of numbers, a `char*` with its limit the list of the bytes that it still
-- has before it, and a decoder that may return nullptr (or false) an `Option` of the value and of
-- the bytes behind it. A fixed-width decoder reads 0 past the end; its callers check the size.
pub mod Fixed
pub mod Varint
pub mod Slices
mod Tests
use study_history.Prelude.{
  ℕ, zero, suc, ◌+◌, ◌*◌, ◌/◌, ◌%◌, ◌^◌, ◌<◌, bit_and, bit_or, List, [], ◌∷◌, ◌++◌, Option, none,
  some, ltb, leb, ◌==◌, if◌then◌else◌, length, take, drop, get_or, All,
}

abbrev pub Bytes : Type 0
Bytes = List ℕ

abbrev pub IsByte : ℕ → Type 0
IsByte b = b < 256

abbrev pub IsU32 : ℕ → Type 0
IsU32 v = v < 2 ^ 32

abbrev pub IsU64 : ℕ → Type 0
IsU64 v = v < 2 ^ 64

-- `static_cast<uint8_t>(v >> k)`
abbrev pub byte_at : ℕ → ℕ → ℕ
byte_at v k = v / 2 ^ k % 256

unfoldable pub encode_fixed32 : ℕ → Bytes
encode_fixed32 v = byte_at v 0 ∷ byte_at v 8 ∷ byte_at v 16 ∷ byte_at v 24 ∷ []

unfoldable pub encode_fixed64 : ℕ → Bytes
encode_fixed64 v =
    byte_at v 0
    ∷ byte_at v 8
    ∷ byte_at v 16
    ∷ byte_at v 24
    ∷ byte_at v 32
    ∷ byte_at v 40
    ∷ byte_at v 48
    ∷ byte_at v 56
    ∷ []

-- `static_cast<uint32_t>(buffer[i]) << k`, at the width of the result.
abbrev pub shifted : ℕ → Bytes → ℕ → ℕ → ℕ
shifted width p i k = get_or p i 0 * 2 ^ k % 2 ^ width

unfoldable pub decode_fixed32 : Bytes → ℕ
decode_fixed32 p =
    bit_or (bit_or (bit_or (get_or p 0 0) (shifted 32 p 1 8)) (shifted 32 p 2 16))
      (shifted 32 p 3 24)

unfoldable pub decode_fixed64 : Bytes → ℕ
decode_fixed64 p =
    let low =
      bit_or (bit_or (bit_or (get_or p 0 0) (shifted 64 p 1 8)) (shifted 64 p 2 16))
        (shifted 64 p 3 24) in
    bit_or
      (bit_or (bit_or (bit_or low (shifted 64 p 4 32)) (shifted 64 p 5 40)) (shifted 64 p 6 48))
      (shifted 64 p 7 56)

unfoldable pub put_fixed32 : Bytes → ℕ → Bytes
put_fixed32 dst value = dst ++ encode_fixed32 value

unfoldable pub put_fixed64 : Bytes → ℕ → Bytes
put_fixed64 dst value = dst ++ encode_fixed64 value

-- `*(ptr++) = v | B` stores the low byte.
abbrev pub more : ℕ → ℕ
more v = bit_or v 128 % 256

unfoldable pub encode_varint32 : ℕ → Bytes
encode_varint32 v =
    if ltb v (2 ^ 7)
    then v % 256 ∷ []
    else (if ltb v (2 ^ 14)
        then more v ∷ byte_at v 7 ∷ []
        else (if ltb v (2 ^ 21)
            then more v ∷ more (v / 2 ^ 7) ∷ byte_at v 14 ∷ []
            else (if ltb v (2 ^ 28)
                then more v ∷ more (v / 2 ^ 7) ∷ more (v / 2 ^ 14) ∷ byte_at v 21 ∷ []
                else more v
                  ∷ more (v / 2 ^ 7)
                  ∷ more (v / 2 ^ 14)
                  ∷ more (v / 2 ^ 21)
                  ∷ byte_at v 28
                  ∷ [])))

unfoldable pub put_varint32 : Bytes → ℕ → Bytes
put_varint32 dst v = dst ++ encode_varint32 v

-- The `while` loop of EncodeVarint64 on fuel. A uint64 takes nine rounds at most.
unfoldable pub encode_varint64_loop : ℕ → ℕ → Bytes
encode_varint64_loop zero v = v % 256 ∷ []
encode_varint64_loop (suc fuel) v =
    let rest = encode_varint64_loop fuel (v / 2 ^ 7) in
    if leb 128 v then more v ∷ rest else (v % 256 ∷ [])

unfoldable pub encode_varint64 : ℕ → Bytes
unfolding encode_varint64_loop
encode_varint64 v = encode_varint64_loop 9 v

unfoldable pub put_varint64 : Bytes → ℕ → Bytes
put_varint64 dst v = dst ++ encode_varint64 v

-- `value.size()` is cut to the uint32 that PutVarint32 takes.
unfoldable pub put_length_prefixed_slice : Bytes → Bytes → Bytes
put_length_prefixed_slice dst value = put_varint32 dst (length value % 2 ^ 32) ++ value

-- The `while` loop of VarintLength on fuel, of which nine rounds are enough for a uint64.
unfoldable pub varint_length_loop : ℕ → ℕ → ℕ → ℕ
varint_length_loop zero v len = len
varint_length_loop (suc fuel) v len =
    let rest = varint_length_loop fuel (v / 2 ^ 7) (len + 1) in if leb 128 v then rest else len

unfoldable pub varint_length : ℕ → ℕ
unfolding varint_length_loop
varint_length v = varint_length_loop 9 v 1

-- The `for` loop of GetVarint32PtrFallback and GetVarint64Ptr, which differ in the last shift and
-- in the width of `result`.
unfoldable pub get_varint_loop : ℕ → ℕ → Bytes → ℕ → ℕ → Option (ℕ × Bytes)
get_varint_loop last width [] shift result = none
get_varint_loop last width (byte ∷ p) shift result =
    let rest =
      get_varint_loop last width p (shift + 7)
        (bit_or result (bit_and byte 127 * 2 ^ shift % 2 ^ width)) in
    if leb shift last
    then (if bit_and byte 128 == 0
        then some (bit_or result (byte * 2 ^ shift % 2 ^ width), p)
        else rest)
    else none

unfoldable pub get_varint32_ptr_fallback : Bytes → Option (ℕ × Bytes)
unfolding get_varint_loop
get_varint32_ptr_fallback p = get_varint_loop 28 32 p 0 0

unfoldable pub get_varint32_ptr : Bytes → Option (ℕ × Bytes)
get_varint32_ptr [] = get_varint32_ptr_fallback []
get_varint32_ptr (result ∷ p) =
    if bit_and result 128 == 0 then some (result, p) else get_varint32_ptr_fallback (result ∷ p)

unfoldable pub get_varint32 : Bytes → Option (ℕ × Bytes)
get_varint32 input = elim (get_varint32_ptr input) [
  | none ↦ none
  | some (value, q) ↦ some (value, q)
]

unfoldable pub get_varint64_ptr : Bytes → Option (ℕ × Bytes)
unfolding get_varint_loop
get_varint64_ptr p = get_varint_loop 63 64 p 0 0

unfoldable pub get_varint64 : Bytes → Option (ℕ × Bytes)
get_varint64 input = elim (get_varint64_ptr input) [
  | none ↦ none
  | some (value, q) ↦ some (value, q)
]

-- The slice and the input behind it.
unfoldable pub get_length_prefixed_slice : Bytes → Option (Bytes × Bytes)
get_length_prefixed_slice input = elim (get_varint32 input) [
  | none ↦ none
  | some (len, rest) ↦ if leb len (length rest) then some (take len rest, drop len rest) else none
]
