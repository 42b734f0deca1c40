-- ===== src/Format/Tests.antt =====
-- Theorems on the table format at concrete inputs.
use study_history.Prelude.{◌≡◌, refl, arith, [], ◌∷◌, ◌++◌, some, inl, inr, true, length}
use study_history.Coding.{Bytes}
use study_history.Format.{
  Footer, encode_footer, decode_footer, footer_length, Snappy, RandomAccessFile, read_block,
  truncated_block,
}
use study_history.Format.RoundTrip.{decode-encode_footer}
use study_history.Format.Block.{stored_block, read_block-plain, read_block-compressed}
use study_history.Log.Tests.{sum_crc, sum_crc-IsCrc}

abbrev one_footer : Footer
one_footer = record {
  metaindex_handle = record { offset = 300; size = 20 };
  index_handle = record { offset = 325; size = 70000 };
}

decode-encode_footer_example :
    (length (encode_footer one_footer []) ≡ footer_length)
    × (decode_footer (encode_footer one_footer []) ≡ inr (one_footer, []))
decode-encode_footer_example =
    decode-encode_footer one_footer ((omega arith, omega arith), (omega arith, omega arith))

-- A decompressor that repeats its input.
abbrev doubling : Snappy
doubling = record {
  uncompressed_length = λ x. some (length (x ++ x));
  uncompress = λ x. some (x ++ x);
}

abbrev answering : Bytes → RandomAccessFile
answering block = record { read = λ offset n. inr (block, true) }

truncated :
    read_block doubling sum_crc (answering (1 ∷ [])) true (record { offset = 0; size = 2 })
    ≡ inl truncated_block
unfolding read_block
truncated = refl

read_block-plain_example :
    read_block doubling sum_crc
      (answering (stored_block sum_crc (7 ∷ 8 ∷ []) 0))
      true
      (record { offset = 40; size = 2 })
    ≡ inr (record { contents = 7 ∷ 8 ∷ []; cachable = true; heap_allocated = true })
read_block-plain_example =
    read_block-plain sum_crc sum_crc-IsCrc (7 ∷ 8 ∷ []) doubling
      (answering (stored_block sum_crc (7 ∷ 8 ∷ []) 0)) 40 true true (omega arith) refl

read_block-compressed_example :
    read_block doubling sum_crc
      (answering (stored_block sum_crc (7 ∷ []) 1))
      true
      (record { offset = 40; size = 1 })
    ≡ inr (record { contents = 7 ∷ 7 ∷ []; cachable = true; heap_allocated = true })
read_block-compressed_example =
    read_block-compressed sum_crc sum_crc-IsCrc (7 ∷ []) doubling
      (answering (stored_block sum_crc (7 ∷ []) 1)) 40 true true (7 ∷ 7 ∷ []) (omega arith) refl
      refl refl
