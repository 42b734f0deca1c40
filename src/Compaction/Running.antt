-- ===== src/Compaction/Running.antt =====
-- What a compaction of leveldb学习/manifest/version_set.c asks while it runs: class Compaction.
use study_history.Prelude.{
  ℕ, zero, suc, ◌+◌, ◌-◌, List, [], ◌∷◌, Bool, true, false, not, ◌&&◌, ltb, leb, ◌==◌,
  if◌then◌else◌, length, get_or, set, drop,
}
use study_history.Coding.{Bytes}
use study_history.Comparator.{Comparator}
use study_history.DbFormat.{internal_compare, extract_user_key}
use study_history.VersionEdit.{FileMetaData, VersionEdit, num_levels, delete_file}
use study_history.FileSet.{is_lt, is_gt}
use study_history.Inputs.{max_grand_parent_overlap_bytes, total_file_size}
use study_history.Compaction.{Compaction, files_at}

module _ (ucmp : Comparator) where
  unfoldable pub is_trivial_move : ℕ → Compaction → Bool
  unfolding total_file_size max_grand_parent_overlap_bytes
  is_trivial_move max_file_size c =
      (length c.inputs0 == 1)
      && (length c.inputs1 == 0)
      && leb (total_file_size c.grandparents) (max_grand_parent_overlap_bytes max_file_size)

  unfoldable pub delete_files : ℕ → List FileMetaData → VersionEdit → VersionEdit
  delete_files level [] edit = edit
  delete_files level (f ∷ files) edit = delete_files level files (delete_file edit level f.number)

  unfoldable pub add_input_deletions : Compaction → VersionEdit → VersionEdit
  unfolding delete_files
  add_input_deletions c edit =
      delete_files (c.level + 1) c.inputs1 (delete_files c.level c.inputs0 edit)

  -- The loop of IsBaseLevelForKey over the files of a level from its pointer on: the pointer, and
  -- whether the key is in the range of the file there.
  unfoldable pub advance_ptr : Bytes → ℕ → List FileMetaData → ℕ × Bool
  advance_ptr user_key ptr [] = (ptr, false)
  advance_ptr user_key ptr (f ∷ files) =
      elim (not (is_gt (ucmp.compare user_key (extract_user_key f.largest)))) [
        | true ↦ (ptr, not (is_lt (ucmp.compare user_key (extract_user_key f.smallest))))
        | false ↦ advance_ptr user_key (ptr + 1) files
      ]

  -- The loop over so many levels from one on.
  unfoldable pub base_loop : List (List FileMetaData) → Bytes → ℕ → ℕ → List ℕ → List ℕ × Bool
  unfolding advance_ptr
  base_loop levels user_key lvl zero level_ptrs = (level_ptrs, true)
  base_loop levels user_key lvl (suc left) level_ptrs =
      let ptr = get_or level_ptrs lvl 0 in
      let (ptr', inside) = advance_ptr user_key ptr (drop ptr (files_at levels lvl)) in
      let level_ptrs' = set level_ptrs lvl ptr' in
      elim inside [
        | true ↦ (level_ptrs', false)
        | false ↦ base_loop levels user_key (lvl + 1) left level_ptrs'
      ]

  unfoldable pub is_base_level_for_key :
      List (List FileMetaData) → Compaction → Bytes → Compaction × Bool
  unfolding base_loop
  is_base_level_for_key levels c user_key =
      let (level_ptrs, base) =
        base_loop levels user_key (c.level + 2) (num_levels - (c.level + 2)) c.level_ptrs in
      (record c { level_ptrs = level_ptrs }, base)

  -- The loop of ShouldStopBefore over the grandparents from the index on: the index and the bytes.
  unfoldable pub pass_grandparents : Bytes → Bool → ℕ → ℕ → List FileMetaData → ℕ × ℕ
  pass_grandparents internal_key seen_key index bytes [] = (index, bytes)
  pass_grandparents internal_key seen_key index bytes (f ∷ files) =
      elim (is_gt (internal_compare ucmp internal_key f.largest)) [
        | true ↦
            pass_grandparents internal_key seen_key (index + 1)
              (if seen_key then bytes + f.file_size else bytes) files
        | false ↦ (index, bytes)
      ]

  unfoldable pub should_stop_before : ℕ → Compaction → Bytes → Compaction × Bool
  unfolding pass_grandparents max_grand_parent_overlap_bytes
  should_stop_before max_file_size c internal_key =
      let (index, bytes) =
        pass_grandparents internal_key c.seen_key c.grandparent_index c.overlapped_bytes
          (drop c.grandparent_index c.grandparents) in
      let c' = record c { grandparent_index = index; seen_key = true; overlapped_bytes = bytes } in
      if ltb (max_grand_parent_overlap_bytes max_file_size) bytes
      then (record c' { overlapped_bytes = 0 }, true)
      else (c', false)
