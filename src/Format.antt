-- ===== src/Format.antt =====
-- leveldb学习/sstable/format.h and format.c: the block handles and the footer of a table file, and
-- ReadBlock, which reads a block and checks it. Files, checksums and Snappy are parameters.
-- The buffer that ReadBlock allocates shows in whether the file answered with that buffer.
pub mod RoundTrip
pub mod Block
mod Tests
use study_history.Prelude.{
  ℕ, ◌+◌, ◌-◌, ◌*◌, ◌%◌, ◌/◌, ◌^◌, [], ◌∷◌, ◌++◌, Option, none, some, ◌⊎◌, inl, inr, Bool, true,
  false, not, ◌&&◌, ◌==◌, if◌then◌else◌, length, take, drop, get_or, replicate, bit_or,
}
use study_history.Coding.{Bytes, put_varint64, get_varint64, put_fixed32, decode_fixed32}
use study_history.Log.Crc.{Crc}

pub record BlockHandle : Type 0 where
  pub offset : ℕ
  pub size : ℕ

-- The constructor: no field is set.
unfoldable pub new_block_handle : BlockHandle
new_block_handle = record { offset = 2 ^ 64 - 1; size = 2 ^ 64 - 1 }

abbrev pub max_encoded_length : ℕ
max_encoded_length = 10 + 10

abbrev pub footer_length : ℕ
footer_length = 2 * max_encoded_length + 8

abbrev pub block_trailer_size : ℕ
block_trailer_size = 5

abbrev pub table_magic_number : ℕ
table_magic_number = 0xdb4775248b80fb57

-- The asserts that both fields are set are not run in a release build.
unfoldable pub encode_handle : BlockHandle → Bytes → Bytes
unfolding put_varint64
encode_handle handle dst = put_varint64 (put_varint64 dst handle.offset) handle.size

-- `none` is the status "bad block handle".
unfoldable pub decode_handle : Bytes → Option (BlockHandle × Bytes)
decode_handle input = elim (get_varint64 input) [
  | none ↦ none
  | some (offset, rest) ↦ elim (get_varint64 rest) [
    | none ↦ none
    | some (size, rest') ↦ some (record { offset = offset; size = size }, rest')
  ]
]

pub record Footer : Type 0 where
  pub metaindex_handle : BlockHandle
  pub index_handle : BlockHandle

-- `dst->resize(n)`
abbrev pub resize : ℕ → Bytes → Bytes
resize n dst = take n (dst ++ replicate n 0)

unfoldable pub encode_footer : Footer → Bytes → Bytes
encode_footer footer dst =
    let handles = encode_handle footer.index_handle (encode_handle footer.metaindex_handle dst) in
    put_fixed32
      (put_fixed32 (resize (2 * max_encoded_length) handles) (table_magic_number % 2 ^ 32))
      (table_magic_number / 2 ^ 32)

-- The statuses of Footer::DecodeFrom and of ReadBlock, and what the file answers.
pub data Failure : Type 0 where
  bad_magic bad_block_handle truncated_block checksum_mismatch corrupted_contents bad_block_type :
      Failure
  io_error : ℕ → Failure

-- The footer, and what is left of the input.
unfoldable pub decode_footer : Bytes → Failure ⊎ (Footer × Bytes)
decode_footer input =
    let magic_ptr = drop (footer_length - 8) input in
    let magic_lo = decode_fixed32 magic_ptr in
    let magic_hi = decode_fixed32 (drop 4 magic_ptr) in
    let magic = bit_or magic_lo (magic_hi * 2 ^ 32 % 2 ^ 64) in
    if not (magic == table_magic_number) then inl bad_magic else elim (decode_handle input) [
      | none ↦ inl bad_block_handle
      | some (metaindex, rest) ↦ elim (decode_handle rest) [
        | none ↦ inl bad_block_handle
        | some (index, _) ↦
            inr (record { metaindex_handle = metaindex; index_handle = index }, drop 8 magic_ptr)
      ]
    ]

-- `Read(offset, n, &contents, buf)`: what it answered, and whether it did so in `buf`.
pub record RandomAccessFile : Type 0 where
  pub read : ℕ → ℕ → Failure ⊎ (Bytes × Bool)

pub record Snappy : Type 0 where
  pub uncompressed_length : Bytes → Option ℕ
  pub uncompress : Bytes → Option Bytes

pub record BlockContents : Type 0 where
  pub contents : Bytes
  pub cachable : Bool
  pub heap_allocated : Bool

module _ (snappy : Snappy) where
  -- The `switch` on the type of the block.
  unfoldable pub unpack_block : ℕ → Bytes → Bool → Failure ⊎ BlockContents
  unpack_block n block in_buffer =
      let stored = take n block in
      let kind = get_or block n 0 in
      if kind == 0
      then inr (record { contents = stored; cachable = in_buffer; heap_allocated = in_buffer })
      else (if kind == 1
          then elim (snappy.uncompressed_length stored) [
            | none ↦ inl corrupted_contents
            | some ulength ↦ elim (snappy.uncompress stored) [
              | none ↦ inl corrupted_contents
              | some whole ↦
                  inr (record {
                    contents = take ulength whole;
                    cachable = true;
                    heap_allocated = true;
                  })
            ]
          ]
          else inl bad_block_type)

  module _ (crc : Crc) where
    -- The size of a handle near 2 ^ 64 wraps: such a block can pass the check of its length, and what
    -- is read past its end is empty here.
    unfoldable pub read_block : RandomAccessFile → Bool → BlockHandle → Failure ⊎ BlockContents
    read_block file verify_checksums handle =
        let n = handle.size in
        let total = (n + block_trailer_size) % 2 ^ 64 in
        elim (file.read handle.offset total) [
          | inl failure ↦ inl failure
          | inr (block, in_buffer) ↦
              if not (length block == total)
              then inl truncated_block
              else (if verify_checksums
                    && not (
                        crc.value (take (n + 1) block)
                        == crc.unmask (decode_fixed32 (drop (n + 1) block)))
                  then inl checksum_mismatch
                  else unpack_block n block in_buffer)
        ]
