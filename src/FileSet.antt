-- ===== src/FileSet.antt =====
-- leveldb学习/manifest/version_set.c: the search of the sorted files of a level, the overlap tests,
-- the iterator over the files of a level, and the callback that a lookup passes to the tables.
-- A key pointer that may be null is an `Option`, an index past the end reads an empty key.
pub mod Search
pub mod Overlap
pub mod Values
mod Tests
use study_history.Prelude.{
  ℕ, zero, suc, ◌+◌, ◌-◌, ◌/◌, ◌%◌, ◌^◌, List, [], ◌∷◌, ◌++◌, Bool, true, false, not, ◌||◌, Option,
  none, some, ltb, leb, ◌==◌, if◌then◌else◌, length, get_elem?, drop,
}
use study_history.Coding.{Bytes, encode_fixed64, decode_fixed64}
use study_history.Comparator.{Comparator}
use study_history.DbFormat.{
  ParsedInternalKey, ValueType, deletion, value, internal_compare, internal_key, extract_user_key,
  parse_internal_key, max_sequence_number, value_type_for_seek,
}
use study_history.VersionEdit.{FileMetaData}
use Prim.Native.Nat.{Ordering}

abbrev pub is_lt : Ordering → Bool
is_lt Ordering.lt = true
is_lt Ordering.eq = false
is_lt Ordering.gt = false

abbrev pub is_gt : Ordering → Bool
is_gt Ordering.lt = false
is_gt Ordering.eq = false
is_gt Ordering.gt = true

abbrev pub largest_at : List FileMetaData → ℕ → Bytes
largest_at files i = elim (get_elem? files i) [ none ↦ [] | some f ↦ f.largest ]

module _ (ucmp : Comparator) where
  -- The loop of FindFile, whose interval shrinks with every round.
  unfoldable pub find_file_loop : List FileMetaData → Bytes → ℕ → ℕ → ℕ → ℕ
  find_file_loop files key zero left right = right
  find_file_loop files key (suc fuel) left right =
      let mid = (left + right) % 2 ^ 32 / 2 in
      elim (ltb left right) [
        | false ↦ right
        | true ↦ elim (is_lt (internal_compare ucmp (largest_at files mid) key)) [
          | true ↦ find_file_loop files key fuel (mid + 1) right
          | false ↦ find_file_loop files key fuel left mid
        ]
      ]

  unfoldable pub find_file : List FileMetaData → Bytes → ℕ
  unfolding find_file_loop
  find_file files key = let size = length files % 2 ^ 32 in find_file_loop files key size 0 size

  unfoldable pub after_file : Option Bytes → FileMetaData → Bool
  after_file none f = false
  after_file (some user_key) f = is_gt (ucmp.compare user_key (extract_user_key f.largest))

  unfoldable pub before_file : Option Bytes → FileMetaData → Bool
  before_file none f = false
  before_file (some user_key) f = is_lt (ucmp.compare user_key (extract_user_key f.smallest))

  -- The check against all files.
  unfoldable pub overlaps_any : List FileMetaData → Option Bytes → Option Bytes → Bool
  unfolding after_file before_file
  overlaps_any [] smallest_user_key largest_user_key = false
  overlaps_any (f ∷ files) smallest_user_key largest_user_key =
      let rest = overlaps_any files smallest_user_key largest_user_key in
      if after_file smallest_user_key f || before_file largest_user_key f then rest else true

  -- Where the binary search starts.
  unfoldable pub first_index : List FileMetaData → Option Bytes → ℕ
  unfolding find_file
  first_index files none = 0
  first_index files (some smallest_user_key) =
      find_file files (internal_key smallest_user_key max_sequence_number value_type_for_seek)

  unfoldable pub some_file_overlaps_range :
      Bool → List FileMetaData → Option Bytes → Option Bytes → Bool
  unfolding overlaps_any first_index before_file
  some_file_overlaps_range disjoint_sorted_files files smallest_user_key largest_user_key =
      if not disjoint_sorted_files
      then overlaps_any files smallest_user_key largest_user_key
      else elim (get_elem? files (first_index files smallest_user_key)) [
        | none ↦ false
        | some f ↦ not (before_file largest_user_key f)
      ]

-- `LevelFileNumIterator`
pub record LevelFileNumIterator : Type 0 where
  pub flist : List FileMetaData
  pub index : ℕ

unfoldable pub level_iterator : List FileMetaData → LevelFileNumIterator
level_iterator flist = record { flist = flist; index = length flist % 2 ^ 32 }

unfoldable pub is_valid : LevelFileNumIterator → Bool
is_valid it = ltb it.index (length it.flist)

unfoldable pub seek : Comparator → LevelFileNumIterator → Bytes → LevelFileNumIterator
unfolding find_file
seek ucmp it target = record it { index = find_file ucmp it.flist target }

unfoldable pub seek_to_first : LevelFileNumIterator → LevelFileNumIterator
seek_to_first it = record it { index = 0 }

unfoldable pub seek_to_last : LevelFileNumIterator → LevelFileNumIterator
seek_to_last it = record it {
  index = if length it.flist == 0 then 0 else (length it.flist - 1) % 2 ^ 32;
}

unfoldable pub next_file : LevelFileNumIterator → LevelFileNumIterator
next_file it = record it { index = (it.index + 1) % 2 ^ 32 }

unfoldable pub prev_file : LevelFileNumIterator → LevelFileNumIterator
prev_file it = record it {
  index = if it.index == 0 then length it.flist % 2 ^ 32 else it.index - 1;
}

unfoldable pub iterator_key : LevelFileNumIterator → Bytes
iterator_key it = largest_at it.flist it.index

unfoldable pub iterator_value : LevelFileNumIterator → Option Bytes
iterator_value it = elim (get_elem? it.flist it.index) [
  | none ↦ none
  | some f ↦ some (encode_fixed64 f.number ++ encode_fixed64 f.file_size)
]

-- GetFileIterator: the number and the size of the file that it opens, or the status Corruption.
unfoldable pub file_of_value : Bytes → Option (ℕ × ℕ)
file_of_value file_value =
    if not (length file_value == 16)
    then none
    else some (decode_fixed64 file_value, decode_fixed64 (drop 8 file_value))

pub data SaverState : Type 0 where
  not_found found deleted corrupt : SaverState

pub record Saver : Type 0 where
  pub state : SaverState
  pub user_key : Bytes
  pub value : Bytes

-- What the type of a matching entry makes of the saver.
abbrev pub save_match : Saver → ValueType → Bytes → Saver
save_match s ValueType.value v = record s { state = found; value = v }
save_match s deletion v = record s { state = deleted }

unfoldable pub save_value : Comparator → Saver → Bytes → Bytes → Saver
save_value ucmp s ikey v = elim (parse_internal_key ikey) [
  | none ↦ record s { state = corrupt }
  | some parsed_key ↦ elim (ucmp.compare parsed_key.user_key s.user_key) [
    | Ordering.eq ↦ save_match s parsed_key.type v
    | r ↦ s
  ]
]
