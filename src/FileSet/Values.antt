-- ===== src/FileSet/Values.antt =====
-- The values of the iterator over the files of a level, and what a lookup saves of an entry:
-- leveldb学习/manifest/version_set.c.
use study_history.Prelude.{ℕ, ◌≤◌, ◌≡◌, refl, sym, ap, ◌∙◌, [], ◌++◌, some, get_elem?, append-nil}
use study_history.Coding.{Bytes, IsU64, encode_fixed64, decode_fixed64}
use study_history.Coding.Fixed.{decode-encode_fixed64}
use study_history.Comparator.{Comparator}
use study_history.DbFormat.{ValueType, value, deletion, max_sequence_number, internal_key}
use study_history.DbFormat.Keys.{parse-append}
use study_history.VersionEdit.{FileMetaData}
use study_history.FileSet.{
  LevelFileNumIterator, iterator_value, file_of_value, Saver, save_value, found, deleted,
}
use Prim.Native.Nat.{Ordering}

-- Where the iterator over the files of a level stands at a file with a uint64 number and size, its
-- value is one that GetFileIterator accepts, and from which it takes that number and size.
pub file_of_value-iterator_value :
    (it : LevelFileNumIterator) (f : FileMetaData)
    → get_elem? it.flist it.index ≡ some f
    → IsU64 f.number
    → IsU64 f.file_size
    → (v : Bytes) × ((iterator_value it ≡ some v)
        × (file_of_value v ≡ some (f.number, f.file_size)))
unfolding iterator_value file_of_value encode_fixed64
file_of_value-iterator_value it f there number_fits size_fits =
    let n = encode_fixed64 f.number in
    let s = encode_fixed64 f.file_size in
    let size : decode_fixed64 s ≡ f.file_size =
      ap decode_fixed64 (sym (append-nil s)) ∙ decode-encode_fixed64 f.file_size [] size_fits in
    (
      n ++ s,
      (
        rw (iterator_value, there) refl,
        rw (file_of_value, decode-encode_fixed64 f.number s number_fits, size) refl,
      ),
    )

-- What a lookup saves of an entry with a sequence number of at most 56 bits: for an entry of
-- another user key nothing, and otherwise that the key is found, with the value, for a value, and
-- that the key is deleted, with the value it had, for a deletion.
pub save_value-internal_key :
    (ucmp : Comparator) (s : Saver) (u : Bytes) (seq : ℕ) (t : ValueType) (v : Bytes)
    → seq ≤ max_sequence_number
    → save_value ucmp s (internal_key u seq t) v ≡ elim (ucmp.compare u s.user_key) [
      | Ordering.eq ↦ elim t [
        | value ↦ record { state = found; user_key = s.user_key; value = v }
        | deletion ↦ record { state = deleted; user_key = s.user_key; value = s.value }
      ]
      | r ↦ s
    ]
unfolding save_value
save_value-internal_key ucmp s u seq value v h =
    rw (save_value, parse-append (record { user_key = u; sequence = seq; type = value }) h) refl
save_value-internal_key ucmp s u seq deletion v h =
    rw (save_value, parse-append (record { user_key = u; sequence = seq; type = deletion }) h) refl
