-- ===== src/Format/RoundTrip.antt =====
-- The handles and the footer of a table: leveldb学习/sstable/format.c.
use study_history.Prelude.{
  ℕ, zero, suc, ◌-◌, ◌^◌, ◌%◌, ◌/◌, ◌≤◌, ◌≡◌, refl, sym, ap, ◌∙◌, arith, [], ◌∷◌, ◌++◌, some, inr,
  length, take, drop, replicate, append_assoc, length-append, length-replicate, length-take,
  drop-append,
}
use study_history.Coding.{
  Bytes, IsU64, encode_varint64, put_varint64, put_fixed32, encode_fixed32, decode_fixed32,
}
use study_history.Coding.Varint.{get_varint64-put}
use study_history.Coding.Slices.{get_varint64_takes}
use study_history.Format.{
  BlockHandle, encode_handle, decode_handle, Footer, encode_footer, decode_footer, resize,
  footer_length, table_magic_number,
}

abbrev pub IsHandle : BlockHandle → Type 0
IsHandle handle = IsU64 handle.offset × IsU64 handle.size

abbrev pub IsFooter : Footer → Type 0
IsFooter footer = IsHandle footer.metaindex_handle × IsHandle footer.index_handle

length-encode_varint64_le : (v : ℕ) → IsU64 v → length (encode_varint64 v) ≤ 10
length-encode_varint64_le v h = omega (
  arith,
  (get_varint64_takes (encode_varint64 v ++ []) v [] (get_varint64-put v [] h)).2,
  length-append (encode_varint64 v) [],
)

-- The bytes of a handle.
abbrev handle_bytes : BlockHandle → Bytes
handle_bytes handle = encode_varint64 handle.offset ++ encode_varint64 handle.size

encode_handle_lem :
    (handle : BlockHandle) (dst : Bytes) → encode_handle handle dst ≡ dst ++ handle_bytes handle
unfolding encode_handle put_varint64
encode_handle_lem handle dst =
    append_assoc dst (encode_varint64 handle.offset) (encode_varint64 handle.size)

length-handle_bytes : (handle : BlockHandle) → IsHandle handle → length (handle_bytes handle) ≤ 20
length-handle_bytes handle h = omega (
  arith,
  length-append (encode_varint64 handle.offset) (encode_varint64 handle.size),
  length-encode_varint64_le handle.offset h.0,
  length-encode_varint64_le handle.size h.1,
)

decode_handle-bytes :
    (handle : BlockHandle) (rest : Bytes)
    → IsHandle handle
    → decode_handle (handle_bytes handle ++ rest) ≡ some (handle, rest)
unfolding decode_handle
decode_handle-bytes handle rest h =
    rw
      (
        append_assoc (encode_varint64 handle.offset) (encode_varint64 handle.size) rest,
        decode_handle,
        get_varint64-put handle.offset (encode_varint64 handle.size ++ rest) h.0,
        get_varint64-put handle.size rest h.1,
      )
      refl

-- DecodeFrom reads back the handle that EncodeTo appended, and leaves what follows it.
pub decode-encode_handle :
    (handle : BlockHandle) (rest : Bytes)
    → IsHandle handle
    → decode_handle (encode_handle handle [] ++ rest) ≡ some (handle, rest)
decode-encode_handle handle rest h =
    rw (encode_handle_lem handle []) (decode_handle-bytes handle rest h)

-- What `resize` leaves of a shorter string, before its padding.
take-append_le :
    (n : ℕ) (xs ys : Bytes) → length xs ≤ n → take n (xs ++ ys) ≡ xs ++ take (n - length xs) ys
take-append_le n [] ys h = ap (λ k. take k ys) (omega arith)
take-append_le zero (x ∷ xs) ys h = absurd (omega arith)
take-append_le (suc n) (x ∷ xs) ys h =
    ap (◌∷◌ x) (take-append_le n xs ys (omega arith))
    ∙ ap (λ k. x ∷ (xs ++ take k ys)) {x = n - length xs} {y = suc n - suc (length xs)}
        (omega arith)

length-resize : (n : ℕ) (xs : Bytes) → length (resize n xs) ≡ n
length-resize n xs =
    length-take n (xs ++ replicate n 0)
      (omega (arith, length-append xs (replicate n 0), length-replicate {A = ℕ} n 0))

-- The bytes behind a prefix of known length.
drop-prefix : (n : ℕ) (xs ys : Bytes) → length xs ≡ n → drop n (xs ++ ys) ≡ ys
drop-prefix n xs ys same = ap (λ k. drop k (xs ++ ys)) (sym same) ∙ drop-append xs ys

magic_bytes : Bytes
magic_bytes =
    encode_fixed32 (table_magic_number % 2 ^ 32) ++ encode_fixed32 (table_magic_number / 2 ^ 32)

module _ (footer : Footer) (h : IsFooter footer) where
  both : Bytes
  both = handle_bytes footer.metaindex_handle ++ handle_bytes footer.index_handle

  padding : Bytes
  padding = take (40 - length both) (replicate 40 0)

  encode_footer_lem : encode_footer footer [] ≡ resize 40 both ++ magic_bytes
  unfolding encode_footer put_fixed32 both magic_bytes
  encode_footer_lem =
      rw
        (
          encode_handle_lem footer.metaindex_handle [],
          encode_handle_lem footer.index_handle (handle_bytes footer.metaindex_handle),
        )
        (append_assoc (resize 40 both) (encode_fixed32 (table_magic_number % 2 ^ 32))
          (encode_fixed32 (table_magic_number / 2 ^ 32)))

  resize-both : resize 40 both ≡ both ++ padding
  unfolding both padding
  resize-both = take-append_le 40 both (replicate 40 0) (
      omega (
        arith,
        length-append (handle_bytes footer.metaindex_handle) (handle_bytes footer.index_handle),
        length-handle_bytes footer.metaindex_handle h.0,
        length-handle_bytes footer.index_handle h.1,
      ))

  magic-encode_footer : drop 40 (encode_footer footer []) ≡ magic_bytes
  magic-encode_footer =
      ap (drop 40) encode_footer_lem
      ∙ drop-prefix 40 (resize 40 both) magic_bytes (length-resize 40 both)

  handles-encode_footer :
      encode_footer footer []
      ≡ handle_bytes footer.metaindex_handle
        ++ (handle_bytes footer.index_handle ++ (padding ++ magic_bytes))
  unfolding both
  handles-encode_footer =
      encode_footer_lem
      ∙ ap (λ x. x ++ magic_bytes) resize-both
      ∙ append_assoc both padding magic_bytes
      ∙ append_assoc (handle_bytes footer.metaindex_handle) (handle_bytes footer.index_handle)
          (padding ++ magic_bytes)

  -- A footer of uint64 fields, encoded to an empty string, has the fixed length of 48 bytes, and
  -- DecodeFrom reads it back and leaves nothing of the input.
  pub decode-encode_footer :
      (length (encode_footer footer []) ≡ footer_length)
      × (decode_footer (encode_footer footer []) ≡ inr (footer, []))
  unfolding decode_footer magic_bytes encode_fixed32 decode_fixed32
  decode-encode_footer = (
    ap length encode_footer_lem
        ∙ omega (arith, length-append (resize 40 both) magic_bytes, length-resize 40 both),
    rw
        (
          magic-encode_footer,
          handles-encode_footer,
          decode_handle-bytes footer.metaindex_handle
              (handle_bytes footer.index_handle ++ (padding ++ magic_bytes)) h.0,
          decode_handle-bytes footer.index_handle (padding ++ magic_bytes) h.1,
        )
        (ap (λ m. inr (footer, drop 8 m)) magic-encode_footer),
  )
