-- ===== src/Inputs.antt =====
-- leveldb学习/manifest/version_set.c: the files of a level that overlap a range of keys, and the
-- level that a memtable is written to. A key pointer that may be null is an `Option`; the options
-- have the field `max_file_size` alone. Sums of sizes stay below 2 ^ 63 and do not wrap.
pub mod Widening
pub mod Range
pub mod Closure
pub mod Placing
mod Tests
use study_history.Prelude.{
  ℕ, zero, suc, ◌+◌, ◌*◌, ◌-◌, List, [], ◌∷◌, ◌++◌, Bool, true, false, not, ◌||◌, Option, none,
  some, ltb, ◌==◌, if◌then◌else◌, length, get_or,
}
use study_history.Coding.{Bytes}
use study_history.Comparator.{Comparator}
use study_history.DbFormat.{
  extract_user_key, internal_key, ValueType, deletion, max_sequence_number, value_type_for_seek,
}
use study_history.VersionEdit.{FileMetaData, num_levels}
use study_history.FileSet.{is_lt, is_gt, some_file_overlaps_range}

abbrev pub target_file_size : ℕ → ℕ
target_file_size max_file_size = max_file_size

unfoldable pub max_grand_parent_overlap_bytes : ℕ → ℕ
max_grand_parent_overlap_bytes max_file_size = 10 * target_file_size max_file_size

unfoldable pub total_file_size : List FileMetaData → ℕ
total_file_size [] = 0
total_file_size (f ∷ files) = f.file_size + total_file_size files

abbrev pub max_mem_compact_level : ℕ
max_mem_compact_level = 2

abbrev pub user_key_of : Option Bytes → Option Bytes
user_key_of none = none
user_key_of (some key) = some (extract_user_key key)

-- What a pass over the files of a level ends with: the inputs, or a wider range to search again.
pub data Scan : Type 0 where
  collected : List FileMetaData → Scan
  widened : Option Bytes → Option Bytes → Scan

module _ (user_cmp : Comparator) where
  abbrev pub ends_before : Option Bytes → FileMetaData → Bool
  ends_before none f = false
  ends_before (some user_begin) f = is_lt (user_cmp.compare (extract_user_key f.largest) user_begin)

  abbrev pub starts_after : Option Bytes → FileMetaData → Bool
  starts_after none f = false
  starts_after (some user_end) f = is_gt (user_cmp.compare (extract_user_key f.smallest) user_end)

  abbrev pub starts_before : Option Bytes → FileMetaData → Bool
  starts_before none f = false
  starts_before (some user_begin) f =
      is_lt (user_cmp.compare (extract_user_key f.smallest) user_begin)

  abbrev pub ends_after : Option Bytes → FileMetaData → Bool
  ends_after none f = false
  ends_after (some user_end) f = is_gt (user_cmp.compare (extract_user_key f.largest) user_end)

  abbrev pub is_apart : Option Bytes → Option Bytes → FileMetaData → Bool
  is_apart user_begin user_end f = ends_before user_begin f || starts_after user_end f

  -- One pass of the loop over the files.
  unfoldable pub scan_files :
      Bool → Option Bytes → Option Bytes → List FileMetaData → List FileMetaData → Scan
  scan_files level_zero user_begin user_end inputs [] = collected inputs
  scan_files level_zero user_begin user_end inputs (f ∷ files) =
      elim (is_apart user_begin user_end f) [
        | true ↦ scan_files level_zero user_begin user_end inputs files
        | false ↦ elim level_zero [
          | false ↦ scan_files level_zero user_begin user_end (inputs ++ f ∷ []) files
          | true ↦ elim (starts_before user_begin f) [
            | true ↦ widened (some (extract_user_key f.smallest)) user_end
            | false ↦ elim (ends_after user_end f) [
              | true ↦ widened user_begin (some (extract_user_key f.largest))
              | false ↦ scan_files level_zero user_begin user_end (inputs ++ f ∷ []) files
            ]
          ]
        ]
      ]

  -- The passes, on fuel. A file widens the range at most twice.
  unfoldable pub overlapping :
      ℕ → Bool → Option Bytes → Option Bytes → List FileMetaData → Option (List FileMetaData)
  unfolding scan_files
  overlapping zero level_zero user_begin user_end files = none
  overlapping (suc fuel) level_zero user_begin user_end files =
      elim (scan_files level_zero user_begin user_end [] files) [
        | collected inputs ↦ some inputs
        | widened user_begin' user_end' ↦ overlapping fuel level_zero user_begin' user_end' files
      ]

  unfoldable pub get_overlapping_inputs :
      List (List FileMetaData) → ℕ → Option Bytes → Option Bytes → Option (List FileMetaData)
  unfolding overlapping
  get_overlapping_inputs levels level begin end =
      let files = get_or levels level [] in
      overlapping (suc (2 * length files)) (level == 0) (user_key_of begin) (user_key_of end) files

  unfoldable pub overlap_in_level :
      List (List FileMetaData) → ℕ → Option Bytes → Option Bytes → Bool
  unfolding some_file_overlaps_range
  overlap_in_level levels level smallest_user_key largest_user_key =
      some_file_overlaps_range user_cmp (ltb 0 level) (get_or levels level []) smallest_user_key
        largest_user_key

  -- Whether the files two levels below are too many bytes.
  unfoldable pub too_much_overlap : ℕ → List (List FileMetaData) → ℕ → Bytes → Bytes → Bool
  unfolding get_overlapping_inputs total_file_size max_grand_parent_overlap_bytes
  too_much_overlap max_file_size levels level start limit =
      if ltb level num_levels
      then elim (get_overlapping_inputs levels level (some start) (some limit)) [
        | none ↦ false
        | some overlaps ↦
            ltb (max_grand_parent_overlap_bytes max_file_size) (total_file_size overlaps)
      ]
      else false

  -- The loop of PickLevelForMemTableOutput, with the levels that are left to go down.
  unfoldable pub pick_loop : ℕ → List (List FileMetaData) → Bytes → Bytes → ℕ → ℕ → ℕ
  unfolding overlap_in_level too_much_overlap
  pick_loop max_file_size levels smallest_user_key largest_user_key level zero = level
  pick_loop max_file_size levels smallest_user_key largest_user_key level (suc left) =
      let start = internal_key smallest_user_key max_sequence_number value_type_for_seek in
      let limit = internal_key largest_user_key 0 deletion in
      elim (overlap_in_level levels (level + 1) (some smallest_user_key) (some largest_user_key)) [
        | true ↦ level
        | false ↦ elim (too_much_overlap max_file_size levels (level + 2) start limit) [
          | true ↦ level
          | false ↦
              pick_loop max_file_size levels smallest_user_key largest_user_key (level + 1) left
        ]
      ]

  unfoldable pub pick_level_for_mem_table_output : ℕ → List (List FileMetaData) → Bytes → Bytes → ℕ
  unfolding overlap_in_level pick_loop
  pick_level_for_mem_table_output max_file_size levels smallest_user_key largest_user_key =
      elim (overlap_in_level levels 0 (some smallest_user_key) (some largest_user_key)) [
        | true ↦ 0
        | false ↦
            pick_loop max_file_size levels smallest_user_key largest_user_key 0
              max_mem_compact_level
      ]
