-- ===== src/Coding/Fixed.antt =====
-- The fixed-width integers of coding.h, in little-endian bytes.
use study_history.Prelude.{
  ℕ, ◌+◌, ◌*◌, ◌%◌, ◌^◌, ◌<◌, ◌≡◌, refl, ◌∙◌, arith, bit_or, ◌++◌, All, length,
}
use study_history.Prelude.Bits.{bit_or_disjoint}
use study_history.Coding.{
  Bytes, IsByte, IsU32, IsU64, byte_at, encode_fixed32, encode_fixed64, decode_fixed32,
  decode_fixed64,
}

-- `acc | (b << k)` for a byte `b` over the `k` bits of `acc`.
or_byte :
    (width k acc b : ℕ)
    → acc < 2 ^ k
    → b * 2 ^ k % 2 ^ width ≡ b * 2 ^ k
    → bit_or acc (b * 2 ^ k % 2 ^ width) ≡ acc + b * 2 ^ k
or_byte width k acc b h e = rw e (bit_or_disjoint k acc b h)

-- Four bytes as a little-endian number.
abbrev word : ℕ → ℕ → ℕ → ℕ → ℕ
word a b c d = a + b * 2 ^ 8 + c * 2 ^ 16 + d * 2 ^ 24

or_word :
    (width a b c d : ℕ)
    → a < 256
    → b < 256
    → c < 256
    → d < 256
    → b * 2 ^ 8 % 2 ^ width ≡ b * 2 ^ 8
    → c * 2 ^ 16 % 2 ^ width ≡ c * 2 ^ 16
    → d * 2 ^ 24 % 2 ^ width ≡ d * 2 ^ 24
    → bit_or
        (bit_or (bit_or a (b * 2 ^ 8 % 2 ^ width)) (c * 2 ^ 16 % 2 ^ width))
        (d * 2 ^ 24 % 2 ^ width)
      ≡ word a b c d
or_word width a b c d ha hb hc hd eb ec ed =
    rw (or_byte width 8 a b (omega arith) eb, or_byte width 16 (a + b * 2 ^ 8) c (omega arith) ec)
      (or_byte width 24 (a + b * 2 ^ 8 + c * 2 ^ 16) d (omega arith) ed)

-- DecodeFixed32 reads back what EncodeFixed32 wrote, whatever bytes follow.
pub decode-encode_fixed32 :
    (v : ℕ) (rest : Bytes) → IsU32 v → decode_fixed32 (encode_fixed32 v ++ rest) ≡ v
unfolding decode_fixed32 encode_fixed32
decode-encode_fixed32 v rest h =
    or_word 32 (byte_at v 0) (byte_at v 8) (byte_at v 16) (byte_at v 24) (omega arith) (omega arith)
      (omega arith) (omega arith) (omega arith) (omega arith) (omega arith)
    ∙ omega arith

-- DecodeFixed64 reads back what EncodeFixed64 wrote, whatever bytes follow.
pub decode-encode_fixed64 :
    (v : ℕ) (rest : Bytes) → IsU64 v → decode_fixed64 (encode_fixed64 v ++ rest) ≡ v
unfolding decode_fixed64 encode_fixed64
decode-encode_fixed64 v rest h =
    let a4 = word (byte_at v 0) (byte_at v 8) (byte_at v 16) (byte_at v 24) in
    let a5 = a4 + byte_at v 32 * 2 ^ 32 in
    let a6 = a5 + byte_at v 40 * 2 ^ 40 in
    let a7 = a6 + byte_at v 48 * 2 ^ 48 in
    rw
      (
        or_word 64 (byte_at v 0) (byte_at v 8) (byte_at v 16) (byte_at v 24) (omega arith)
            (omega arith) (omega arith) (omega arith) (omega arith) (omega arith) (omega arith),
        or_byte 64 32 a4 (byte_at v 32) (omega arith) (omega arith),
        or_byte 64 40 a5 (byte_at v 40) (omega arith) (omega arith),
        or_byte 64 48 a6 (byte_at v 48) (omega arith) (omega arith),
        or_byte 64 56 a7 (byte_at v 56) (omega arith) (omega arith),
      )
      (omega arith)

pub encode_fixed32-IsByte : (v : ℕ) → All IsByte (encode_fixed32 v)
unfolding encode_fixed32
encode_fixed32-IsByte v = omega arith

pub length-encode_fixed32 : (v : ℕ) → length (encode_fixed32 v) ≡ 4
unfolding encode_fixed32
length-encode_fixed32 v = refl

pub length-encode_fixed64 : (v : ℕ) → length (encode_fixed64 v) ≡ 8
unfolding encode_fixed64
length-encode_fixed64 v = refl
