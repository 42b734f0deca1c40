-- ===== src/Compaction.antt =====
-- leveldb学习/manifest/version_set.c: the choice of the files of a compaction, and what a compaction
-- asks while it runs. The files of the input version are an argument, by level, and so is
-- `options->max_file_size`; the compaction pointers of the version set are passed along. `none` is a
-- loop that runs out of fuel. Logging and reference counts are left out.
pub mod Running
pub mod Boundary
pub mod Least
pub mod Apart
pub mod BaseLevel
mod Tests
use study_history.Prelude.{
  ℕ, zero, suc, ◌+◌, ◌*◌, ◌-◌, ◌%◌, ◌^◌, List, [], ◌∷◌, ◌++◌, Bool, true, false, not, ◌&&◌, ◌||◌,
  Option, none, some, ltb, leb, ◌==◌, if◌then◌else◌, length, get_or, set, drop, replicate,
}
use study_history.Coding.{Bytes}
use study_history.Comparator.{Comparator}
use study_history.DbFormat.{internal_compare, extract_user_key}
use study_history.VersionEdit.{
  FileMetaData, VersionEdit, num_levels, empty_edit, set_compact_pointer, delete_file,
}
use study_history.FileSet.{is_lt, is_gt}
use study_history.Version.{LeveledFile}
use study_history.Inputs.{
  target_file_size, max_grand_parent_overlap_bytes, total_file_size, get_overlapping_inputs,
}
use Prim.Native.Nat.{Ordering}

abbrev pub is_eq : Ordering → Bool
is_eq Ordering.lt = false
is_eq Ordering.eq = true
is_eq Ordering.gt = false

abbrev pub files_at : List (List FileMetaData) → ℕ → List FileMetaData
files_at levels level = get_or levels level []

abbrev pub and_then : {A B : Type 0} → Option A → (A → Option B) → Option B
and_then none f = none
and_then (some a) f = f a

unfoldable pub expanded_compaction_byte_size_limit : ℕ → ℕ
expanded_compaction_byte_size_limit max_file_size = 25 * target_file_size max_file_size

abbrev pub max_file_size_for_level : ℕ → ℕ → ℕ
max_file_size_for_level max_file_size level = target_file_size max_file_size

pub record Compaction : Type 0 where
  pub level : ℕ
  pub max_output_file_size : ℕ
  pub inputs0 : List FileMetaData
  pub inputs1 : List FileMetaData
  pub grandparents : List FileMetaData
  pub grandparent_index : ℕ
  pub seen_key : Bool
  pub overlapped_bytes : ℕ
  pub level_ptrs : List ℕ
  pub edit : VersionEdit

unfoldable pub new_compaction : ℕ → ℕ → List FileMetaData → Compaction
new_compaction max_file_size level inputs = record {
  level = level;
  max_output_file_size = max_file_size_for_level max_file_size level;
  inputs0 = inputs;
  inputs1 = [];
  grandparents = [];
  grandparent_index = 0;
  seen_key = false;
  overlapped_bytes = 0;
  level_ptrs = replicate num_levels 0;
  edit = empty_edit;
}

module _ (ucmp : Comparator) where
  -- GetRange: the loop after the first file.
  unfoldable pub range_from : Bytes → Bytes → List FileMetaData → Bytes × Bytes
  range_from smallest largest [] = (smallest, largest)
  range_from smallest largest (f ∷ files) =
      range_from
        (if is_lt (internal_compare ucmp f.smallest smallest) then f.smallest else smallest)
        (if is_gt (internal_compare ucmp f.largest largest) then f.largest else largest) files

  unfoldable pub get_range : List FileMetaData → Bytes × Bytes
  unfolding range_from
  get_range [] = ([], [])
  get_range (f ∷ files) = range_from f.smallest f.largest files

  unfoldable pub get_range2 : List FileMetaData → List FileMetaData → Bytes × Bytes
  unfolding get_range
  get_range2 inputs1 inputs2 = get_range (inputs1 ++ inputs2)

  unfoldable pub largest_from : Bytes → List FileMetaData → Bytes
  largest_from largest_key [] = largest_key
  largest_from largest_key (f ∷ files) =
      largest_from
        (if is_gt (internal_compare ucmp f.largest largest_key) then f.largest else largest_key)
        files

  unfoldable pub find_largest_key : List FileMetaData → Option Bytes
  unfolding largest_from
  find_largest_key [] = none
  find_largest_key (f ∷ files) = some (largest_from f.largest files)

  -- Whether a file starts after a key of the same user key.
  abbrev pub is_boundary : Bytes → FileMetaData → Bool
  is_boundary largest_key f =
      is_gt (internal_compare ucmp f.smallest largest_key)
      && is_eq (ucmp.compare (extract_user_key f.smallest) (extract_user_key largest_key))

  abbrev pub is_smaller_file : Option FileMetaData → FileMetaData → Bool
  is_smaller_file none f = true
  is_smaller_file (some g) f = is_lt (internal_compare ucmp f.smallest g.smallest)

  unfoldable pub boundary_from :
      Bytes → Option FileMetaData → List FileMetaData → Option FileMetaData
  boundary_from largest_key smallest_boundary_file [] = smallest_boundary_file
  boundary_from largest_key smallest_boundary_file (f ∷ files) =
      boundary_from largest_key
        (if is_boundary largest_key f && is_smaller_file smallest_boundary_file f
          then some f
          else smallest_boundary_file)
        files

  unfoldable pub find_smallest_boundary_file : List FileMetaData → Bytes → Option FileMetaData
  unfolding boundary_from
  find_smallest_boundary_file level_files largest_key = boundary_from largest_key none level_files

  -- The loop of AddBoundaryInputs, a round of fuel for each file and one more.
  unfoldable pub add_boundary_loop :
      ℕ → List FileMetaData → Bytes → List FileMetaData → Option (List FileMetaData)
  unfolding find_smallest_boundary_file
  add_boundary_loop zero level_files largest_key compaction_files = none
  add_boundary_loop (suc fuel) level_files largest_key compaction_files =
      elim (find_smallest_boundary_file level_files largest_key) [
        | none ↦ some compaction_files
        | some f ↦ add_boundary_loop fuel level_files f.largest (compaction_files ++ f ∷ [])
      ]

  unfoldable pub add_boundary_inputs :
      List FileMetaData → List FileMetaData → Option (List FileMetaData)
  unfolding find_largest_key add_boundary_loop
  add_boundary_inputs level_files compaction_files = elim (find_largest_key compaction_files) [
    | none ↦ some compaction_files
    | some largest_key ↦
        add_boundary_loop (suc (length level_files)) level_files largest_key compaction_files
  ]

  module _ (max_file_size : ℕ) (levels : List (List FileMetaData)) where
    -- The part of SetupOtherInputs that tries more files of the level: the compaction, and the
    -- largest key of its first inputs.
    unfoldable pub expand_with :
        Compaction → Bytes → List FileMetaData → Option (Compaction × Bytes)
    unfolding get_range get_overlapping_inputs total_file_size expanded_compaction_byte_size_limit
    expand_with c largest expanded0 =
        let (new_start, new_limit) = get_range expanded0 in
        if ltb (length c.inputs0) (length expanded0)
          && ltb (total_file_size c.inputs1 + total_file_size expanded0)
              (expanded_compaction_byte_size_limit max_file_size)
        then and_then
            (get_overlapping_inputs ucmp levels (c.level + 1) (some new_start) (some new_limit))
            (λ expanded1.
              if length expanded1 == length c.inputs1
              then some (record c { inputs0 = expanded0; inputs1 = expanded1 }, new_limit)
              else some (c, largest))
        else some (c, largest)

    unfoldable pub expand_inputs : Compaction → Bytes → Option (Compaction × Bytes)
    unfolding get_range2 get_overlapping_inputs add_boundary_inputs expand_with
    expand_inputs c largest =
        let (all_start, all_limit) = get_range2 c.inputs0 c.inputs1 in
        if length c.inputs1 == 0
        then some (c, largest)
        else and_then (get_overlapping_inputs ucmp levels c.level (some all_start) (some all_limit))
            (λ expanded.
              and_then (add_boundary_inputs (files_at levels c.level) expanded)
                (λ expanded0. expand_with c largest expanded0))

    unfoldable pub find_grandparents : Compaction → Option (List FileMetaData)
    unfolding get_range2 get_overlapping_inputs
    find_grandparents c =
        let (all_start, all_limit) = get_range2 c.inputs0 c.inputs1 in
        if ltb (c.level + 2) num_levels
        then get_overlapping_inputs ucmp levels (c.level + 2) (some all_start) (some all_limit)
        else some c.grandparents

    unfoldable pub setup_other_inputs : List Bytes → Compaction → Option (Compaction × List Bytes)
    unfolding add_boundary_inputs get_range get_overlapping_inputs expand_inputs find_grandparents
    setup_other_inputs pointers c =
        and_then (add_boundary_inputs (files_at levels c.level) c.inputs0) (λ inputs0.
          let (smallest, largest) = get_range inputs0 in
          and_then (get_overlapping_inputs ucmp levels (c.level + 1) (some smallest) (some largest))
            (λ inputs1.
              and_then (expand_inputs (record c { inputs0 = inputs0; inputs1 = inputs1 }) largest)
                (λ expanded.
                  let (c', largest') = expanded in
                  and_then (find_grandparents c') (λ grandparents. some (
                    record c' {
                      grandparents = grandparents;
                      edit = set_compact_pointer c'.edit c'.level largest';
                    },
                    set pointers c'.level largest',
                  )))))

    -- The first file after the compaction pointer of the level.
    unfoldable pub first_after : Bytes → List FileMetaData → List FileMetaData
    first_after pointer [] = []
    first_after pointer (f ∷ files) =
        let rest = first_after pointer files in
        if (length pointer == 0) || is_gt (internal_compare ucmp f.largest pointer)
        then f ∷ []
        else rest

    -- Or else the first file of the level.
    abbrev pub wrap_around : List FileMetaData → List FileMetaData → List FileMetaData
    wrap_around [] [] = []
    wrap_around [] (f ∷ files) = f ∷ []
    wrap_around (g ∷ found) files = g ∷ found

    unfoldable pub finish_pick : List Bytes → Compaction → Option (Compaction × List Bytes)
    unfolding get_range get_overlapping_inputs setup_other_inputs
    finish_pick pointers c =
        let (smallest, largest) = get_range c.inputs0 in
        if c.level == 0
        then and_then (get_overlapping_inputs ucmp levels 0 (some smallest) (some largest))
            (λ inputs. setup_other_inputs pointers (record c { inputs0 = inputs }))
        else setup_other_inputs pointers c

    -- PickCompaction, by whether the score asks for a compaction and of which level, and the file
    -- that seeks ask to compact; nothing is picked if neither is there.
    unfoldable pub pick_compaction :
        List Bytes → Bool → ℕ → Option LeveledFile → Option (Option (Compaction × List Bytes))
    unfolding new_compaction first_after finish_pick
    pick_compaction pointers size_compaction compaction_level file_to_compact =
        if size_compaction
        then some (
            finish_pick pointers (
              new_compaction max_file_size compaction_level (
                wrap_around
                  (first_after (get_or pointers compaction_level [])
                    (files_at levels compaction_level))
                  (files_at levels compaction_level))))
        else elim file_to_compact [
          | none ↦ none
          | some (f, level) ↦
              some (finish_pick pointers (new_compaction max_file_size level (f ∷ [])))
        ]

    -- The files up to the first at which the sizes sum up to the limit.
    unfoldable pub cut_inputs : ℕ → ℕ → List FileMetaData → List FileMetaData
    cut_inputs limit total [] = []
    cut_inputs limit total (f ∷ files) =
        let sum = (total + f.file_size) % 2 ^ 64 in
        let rest = cut_inputs limit sum files in if leb limit sum then f ∷ [] else f ∷ rest

    -- CompactRange, which picks nothing if no file overlaps the range.
    unfoldable pub compact_range :
        List Bytes → ℕ → Option Bytes → Option Bytes → Option (Option (Compaction × List Bytes))
    unfolding get_overlapping_inputs cut_inputs new_compaction setup_other_inputs
    compact_range pointers level begin end =
        and_then (get_overlapping_inputs ucmp levels level begin end) (λ inputs.
          if length inputs == 0
          then some none
          else (let cut =
                if ltb 0 level
                then cut_inputs (max_file_size_for_level max_file_size level) 0 inputs
                else inputs in
              and_then (setup_other_inputs pointers (new_compaction max_file_size level cut))
                (λ picked. some (some picked))))
