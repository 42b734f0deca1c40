-- ===== src/Format/Block.antt =====
-- ReadBlock of leveldb学习/sstable/format.c on a block with its trailer.
use study_history.Prelude.{
  get_or-append, get_or-last, ℕ, ◌+◌, ◌<◌, ◌^◌, ◌≡◌, refl, sym, ap, ◌∙◌, arith, [], ◌∷◌, ◌++◌, Bool,
  true, false, ==_refl, inr, length, take, drop, get_or, append-nil, append_assoc, some,
  length-append, take-append, drop-append,
}
use study_history.Coding.{Bytes, encode_fixed32, decode_fixed32}
use study_history.Coding.Fixed.{decode-encode_fixed32, length-encode_fixed32}
use native.Mathlib.Nat.{mod-eq_of_lt}
use study_history.Log.Crc.{Crc, IsCrc}
use study_history.Format.{Snappy, RandomAccessFile, block_trailer_size, read_block, unpack_block}

-- A block of a given type with its trailer, as the format of a table has it.
abbrev pub stored_block : Crc → Bytes → ℕ → Bytes
stored_block crc payload kind =
    (payload ++ kind ∷ []) ++ encode_fixed32 (crc.mask (crc.value (payload ++ kind ∷ [])))

module _ (crc : Crc) (ok : IsCrc crc) (payload : Bytes) (kind : ℕ) where
  abbrev body : Bytes
  body = payload ++ kind ∷ []

  length-body : length body ≡ length payload + 1
  length-body = length-append payload (kind ∷ [])

  length-stored_block : length (stored_block crc payload kind) ≡ length payload + block_trailer_size
  length-stored_block = omega (
    arith,
    length-append body (encode_fixed32 (crc.mask (crc.value body))),
    length-body,
    length-encode_fixed32 (crc.mask (crc.value body)),
  )

  -- The checksum that ReadBlock compares.
  checked : crc.value (take (length payload + 1) (stored_block crc payload kind)) ≡ crc.value body
  checked =
      ap (λ n. crc.value (take n (stored_block crc payload kind))) (sym length-body)
      ∙ ap crc.value (take-append body (encode_fixed32 (crc.mask (crc.value body))))

  stored :
      crc.unmask (decode_fixed32 (drop (length payload + 1) (stored_block crc payload kind)))
      ≡ crc.value body
  stored =
      let sum = crc.value body in
      let masked = crc.mask sum in
      ap (λ n. crc.unmask (decode_fixed32 (drop n (stored_block crc payload kind))))
        (sym length-body)
      ∙ ap (λ x. crc.unmask (decode_fixed32 x))
          (drop-append body (encode_fixed32 masked) ∙ sym (append-nil (encode_fixed32 masked)))
      ∙ ap crc.unmask (decode-encode_fixed32 masked [] (ok.mask_u32 sum (ok.value_u32 body)))
      ∙ ok.unmask-mask sum (ok.value_u32 body)

  take-stored_block : take (length payload) (stored_block crc payload kind) ≡ payload
  take-stored_block =
      ap (take (length payload))
        (append_assoc payload (kind ∷ []) (encode_fixed32 (crc.mask (crc.value body))))
      ∙ take-append payload (kind ∷ encode_fixed32 (crc.mask (crc.value body)))

  kind-stored_block : get_or (stored_block crc payload kind) (length payload) 0 ≡ kind
  kind-stored_block =
      get_or-append body (encode_fixed32 (crc.mask (crc.value body))) (length payload) 0
        (omega (arith, length-body))
      ∙ get_or-last payload kind 0

  -- A file that answers with the stored block at some offset.
  abbrev pub Answers : RandomAccessFile → ℕ → Bool → Type 0
  Answers file offset in_buffer =
      file.read offset (length payload + block_trailer_size)
      ≡ inr (stored_block crc payload kind, in_buffer)

  read_block-stored :
      (snappy : Snappy) (file : RandomAccessFile) (offset : ℕ) (verify in_buffer : Bool)
      → length payload + block_trailer_size < 2 ^ 64
      → Answers file offset in_buffer
      → read_block snappy crc file verify (record { offset = offset; size = length payload })
        ≡ unpack_block snappy (length payload) (stored_block crc payload kind) in_buffer
  unfolding read_block
  read_block-stored snappy file offset true in_buffer small answered =
      rw
        (
          mod-eq_of_lt small,
          answered,
          read_block,
          length-stored_block,
          mod-eq_of_lt small,
          ==_refl (length payload + block_trailer_size),
          checked,
          stored,
          ==_refl (crc.value body),
        )
        refl
  read_block-stored snappy file offset false in_buffer small answered =
      rw
        (
          mod-eq_of_lt small,
          answered,
          read_block,
          length-stored_block,
          mod-eq_of_lt small,
          ==_refl (length payload + block_trailer_size),
        )
        refl

module _ (crc : Crc) (ok : IsCrc crc) (payload : Bytes) (snappy : Snappy)
    (file : RandomAccessFile) where
  -- From a file that answers with an uncompressed block and its trailer, whose lengths add up to a
  -- size_t, ReadBlock returns the
  -- payload, with checksums verified or not, to be cached and freed exactly if it lies in the
  -- buffer of ReadBlock.
  pub read_block-plain :
      (offset : ℕ) (verify in_buffer : Bool)
      → length payload + block_trailer_size < 2 ^ 64
      → Answers crc ok payload 0 file offset in_buffer
      → read_block snappy crc file verify (record { offset = offset; size = length payload })
        ≡ inr (record { contents = payload; cachable = in_buffer; heap_allocated = in_buffer })
  unfolding unpack_block
  read_block-plain offset verify in_buffer small answered =
      read_block-stored crc ok payload 0 snappy file offset verify in_buffer small answered
      ∙ rw (kind-stored_block crc ok payload 0, take-stored_block crc ok payload 0) refl

  -- From a file that answers with a block of type 1 and its trailer, whose lengths add up to a
  -- size_t, ReadBlock returns what Snappy
  -- makes of the payload, with checksums verified or not.
  pub read_block-compressed :
      (offset : ℕ) (verify in_buffer : Bool) (whole : Bytes)
      → length payload + block_trailer_size < 2 ^ 64
      → Answers crc ok payload 1 file offset in_buffer
      → snappy.uncompressed_length payload ≡ some (length whole)
      → snappy.uncompress payload ≡ some whole
      → read_block snappy crc file verify (record { offset = offset; size = length payload })
        ≡ inr (record { contents = whole; cachable = true; heap_allocated = true })
  unfolding unpack_block
  read_block-compressed offset verify in_buffer whole small answered measured unpacked =
      read_block-stored crc ok payload 1 snappy file offset verify in_buffer small answered
      ∙ rw
          (
            kind-stored_block crc ok payload 1,
            take-stored_block crc ok payload 1,
            measured,
            take-stored_block crc ok payload 1,
            unpacked,
            take-whole whole,
          )
          refl
    where
      take-whole : (xs : Bytes) → take (length xs) xs ≡ xs
      take-whole xs = ap (take (length xs)) (sym (append-nil xs)) ∙ take-append xs []
