-- ===== src/VersionBuilder.antt =====
-- leveldb学习/manifest/version_set.c: VersionSet::Builder, which applies edits to the files of a
-- version and saves the files of the next one. A `std::set` is the list of its elements, for
-- `added_files` in the order of BySmallestKey; `std::upper_bound` finds the first place of a sorted
-- range. The reference counts that manage the memory of the files are left out, and so are the
-- assertions that no files of a level overlap. The edit that is applied may name only levels that exist.
pub mod Saved
pub mod Applied
pub mod Added
mod Tests
use study_history.Prelude.{
  ℕ, suc, ◌+◌, ◌/◌, ◌%◌, ◌^◌, List, [], ◌∷◌, ◌++◌, Bool, true, false, not, ◌||◌, ltb, leb, ◌==◌,
  if◌then◌else◌, get_or, set, replicate, filter, insert_new, upper_bound,
}
use study_history.Coding.{Bytes}
use study_history.Comparator.{Comparator}
use study_history.DbFormat.{internal_compare}
use study_history.VersionEdit.{FileMetaData, VersionEdit, num_levels}
use Prim.Native.Nat.{Ordering}

abbrev pub contains : List ℕ → ℕ → Bool
contains [] n = false
contains (m ∷ numbers) n = (m == n) || contains numbers n

abbrev pub insert_number : List ℕ → ℕ → List ℕ
insert_number numbers n = if contains numbers n then numbers else n ∷ numbers

abbrev pub erase_number : List ℕ → ℕ → List ℕ
erase_number numbers n = filter (λ m. not (m == n)) numbers

-- What BySmallestKey makes of the comparison of the smallest keys.
abbrev pub smaller : Ordering → ℕ → ℕ → Bool
smaller Ordering.lt number1 number2 = true
smaller Ordering.gt number1 number2 = false
smaller Ordering.eq number1 number2 = ltb number1 number2

abbrev pub by_smallest_key : Comparator → FileMetaData → FileMetaData → Bool
by_smallest_key ucmp f1 f2 =
    smaller (internal_compare ucmp f1.smallest f2.smallest) f1.number f2.number

pub record LevelState : Type 0 where
  pub deleted_files : List ℕ
  pub added_files : List FileMetaData

abbrev pub empty_level : LevelState
empty_level = record { deleted_files = []; added_files = [] }

-- The states of the levels, and the compaction pointers of the version set.
pub record Builder : Type 0 where
  pub compact_pointer : List Bytes
  pub levels : List LevelState

unfoldable pub new_builder : List Bytes → Builder
new_builder compact_pointer = record {
  compact_pointer = compact_pointer;
  levels = replicate num_levels empty_level;
}

abbrev pub level_state : List LevelState → ℕ → LevelState
level_state levels level = get_or levels level empty_level

-- `static_cast<int>` of a number of seeks, which is negative from 2 ^ 31 on, and its lower bound.
unfoldable pub seeks_of : ℕ → ℕ
seeks_of file_size =
    let seeks = file_size / 16384 % 2 ^ 32 in
    if ltb seeks 100 || leb (2 ^ 31) seeks then 100 else seeks

unfoldable pub apply_pointers : List Bytes → List (ℕ × Bytes) → List Bytes
apply_pointers pointers [] = pointers
apply_pointers pointers ((level, key) ∷ rest) = apply_pointers (set pointers level key) rest

unfoldable pub apply_deleted : List LevelState → List (ℕ × ℕ) → List LevelState
apply_deleted levels [] = levels
apply_deleted levels ((level, number) ∷ rest) =
    let state = level_state levels level in
    apply_deleted
      (set levels level (record state { deleted_files = insert_number state.deleted_files number }))
      rest

unfoldable pub maybe_add_file : List ℕ → List FileMetaData → FileMetaData → List FileMetaData
maybe_add_file deleted files f = if contains deleted f.number then files else files ++ f ∷ []

-- The loops over the files of the base version.
unfoldable pub add_files : List ℕ → List FileMetaData → List FileMetaData → List FileMetaData
unfolding maybe_add_file
add_files deleted files [] = files
add_files deleted files (f ∷ rest) = add_files deleted (maybe_add_file deleted files f) rest

module _ (ucmp : Comparator) where
  unfoldable pub add_new_file : LevelState → FileMetaData → LevelState
  unfolding seeks_of
  add_new_file state meta =
      let f = record meta { refs = 1; allowed_seeks = seeks_of meta.file_size } in
      record {
        deleted_files = erase_number state.deleted_files f.number;
        added_files = insert_new (by_smallest_key ucmp) f state.added_files;
      }

  unfoldable pub apply_new : List LevelState → List (ℕ × FileMetaData) → List LevelState
  unfolding add_new_file
  apply_new levels [] = levels
  apply_new levels ((level, meta) ∷ rest) =
      apply_new (set levels level (add_new_file (level_state levels level) meta)) rest

  unfoldable pub apply : Builder → VersionEdit → Builder
  unfolding apply_pointers apply_deleted apply_new
  apply b edit = record {
    compact_pointer = apply_pointers b.compact_pointer edit.compact_pointers;
    levels = apply_new (apply_deleted b.levels edit.deleted_files) edit.new_files;
  }

  -- The loop over the added files; what is left of the base files comes last.
  unfoldable pub save_added :
      List ℕ → List FileMetaData → List FileMetaData → List FileMetaData → List FileMetaData
  unfolding add_files maybe_add_file
  save_added deleted files base_files [] = add_files deleted files base_files
  save_added deleted files base_files (added ∷ rest) =
      let (before, base_rest) = upper_bound (by_smallest_key ucmp) added base_files in
      save_added deleted (maybe_add_file deleted (add_files deleted files before) added) base_rest
        rest

  unfoldable pub save_level : LevelState → List FileMetaData → List FileMetaData
  unfolding save_added
  save_level state base_files = save_added state.deleted_files [] base_files state.added_files

  -- SaveTo, from the files of each level of the base version.
  unfoldable pub save_to : List LevelState → List (List FileMetaData) → List (List FileMetaData)
  unfolding save_level
  save_to (state ∷ levels) (base_files ∷ base) = save_level state base_files ∷ save_to levels base
  save_to levels base = []
