-- ===== src/Coding/Tests.antt =====
-- Runs of the encoders and decoders, and their theorems at concrete inputs.
use study_history.Prelude.{◌+◌, ◌≤◌, ◌<◌, ◌≡◌, refl, arith, [], ◌∷◌, ◌++◌, some, none, length}
use study_history.Coding.{
  Bytes, IsU64, encode_fixed32, encode_fixed64, decode_fixed64, encode_varint32, encode_varint64,
  get_varint32, get_varint64, get_varint32_ptr, get_varint32_ptr_fallback, get_varint64_ptr,
  varint_length, put_length_prefixed_slice, get_length_prefixed_slice,
}
use study_history.Coding.Fixed.{decode-encode_fixed64}
use study_history.Coding.Varint.{get_varint32-put, get_varint64-put, varint_length-encode64}
use study_history.Coding.Slices.{
  get_length_prefixed_slice-put, get_varint64_takes, get_length_prefixed_slice_takes,
}

varint_300 : encode_varint32 300 ≡ 0xac ∷ 0x02 ∷ []
unfolding encode_varint32
varint_300 = refl

fixed_word : encode_fixed32 0x01020304 ≡ 4 ∷ 3 ∷ 2 ∷ 1 ∷ []
unfolding encode_fixed32
fixed_word = refl

-- A uint32 has no sixth byte.
varint_too_long : get_varint32 (0x80 ∷ 0x80 ∷ 0x80 ∷ 0x80 ∷ 0x80 ∷ 0 ∷ []) ≡ none
unfolding get_varint32 get_varint32_ptr get_varint32_ptr_fallback
varint_too_long = refl

read_300 : get_varint32 (0xac ∷ 0x02 ∷ 9 ∷ []) ≡ some (300, 9 ∷ [])
unfolding get_varint32 get_varint32_ptr get_varint32_ptr_fallback
read_300 = refl

read64_300 : get_varint64 (0xac ∷ 0x02 ∷ 9 ∷ []) ≡ some (300, 9 ∷ [])
unfolding get_varint64 get_varint64_ptr
read64_300 = refl

read_slice : get_length_prefixed_slice (2 ∷ 7 ∷ 8 ∷ 9 ∷ []) ≡ some (7 ∷ 8 ∷ [], 9 ∷ [])
unfolding get_length_prefixed_slice get_varint32 get_varint32_ptr get_varint32_ptr_fallback
read_slice = refl

decode-encode_fixed64_example : decode_fixed64 (encode_fixed64 5000000000 ++ 1 ∷ []) ≡ 5000000000
decode-encode_fixed64_example = decode-encode_fixed64 5000000000 (1 ∷ []) (omega arith)

get_varint32-put_example : get_varint32 (encode_varint32 300 ++ 9 ∷ []) ≡ some (300, 9 ∷ [])
get_varint32-put_example = get_varint32-put 300 (9 ∷ []) (omega arith)

get_varint64-put_example :
    get_varint64 (encode_varint64 5000000000 ++ 9 ∷ []) ≡ some (5000000000, 9 ∷ [])
get_varint64-put_example = get_varint64-put 5000000000 (9 ∷ []) (omega arith)

varint_length-encode64_example : varint_length 5000000000 ≡ length (encode_varint64 5000000000)
varint_length-encode64_example = varint_length-encode64 5000000000 (omega arith)

get_length_prefixed_slice-put_example :
    get_length_prefixed_slice (put_length_prefixed_slice [] (7 ∷ 8 ∷ []) ++ 9 ∷ [])
    ≡ some (7 ∷ 8 ∷ [], 9 ∷ [])
get_length_prefixed_slice-put_example =
    get_length_prefixed_slice-put (7 ∷ 8 ∷ []) (9 ∷ []) (omega arith)

get_varint64_takes_example : IsU64 300 × (1 < 3) × (3 ≤ 1 + 10)
get_varint64_takes_example = get_varint64_takes (0xac ∷ 0x02 ∷ 9 ∷ []) 300 (9 ∷ []) read64_300

get_length_prefixed_slice_takes_example :
    (pre : Bytes) × (2 ∷ 7 ∷ 8 ∷ 9 ∷ [] ≡ pre ++ (7 ∷ 8 ∷ 9 ∷ []))
    × (get_varint32 (2 ∷ 7 ∷ 8 ∷ 9 ∷ []) ≡ some (2, 7 ∷ 8 ∷ 9 ∷ []))
    × (1 ≤ length pre)
    × (length pre ≤ 5)
get_length_prefixed_slice_takes_example =
    get_length_prefixed_slice_takes (2 ∷ 7 ∷ 8 ∷ 9 ∷ []) (7 ∷ 8 ∷ []) (9 ∷ []) (omega arith)
      read_slice
