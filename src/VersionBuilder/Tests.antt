-- ===== src/VersionBuilder/Tests.antt =====
-- The builder of versions at concrete inputs.
use study_history.Prelude.{
  ℕ, zero, suc, ◌+◌, ◌≡◌, refl, subst, sym, arith, [], ◌∷◌, Bool, false, not, ◌&&◌, ◌||◌, ltb,
  replicate, get_or, count, Ordered,
}
use study_history.Comparator.{bytewise_comparator}
use study_history.Comparator.Bytewise.{bytewise_comparator-IsOrder}
use study_history.DbFormat.{internal_key, value}
use study_history.VersionEdit.{FileMetaData, VersionEdit, empty_edit}
use study_history.VersionBuilder.{
  contains, by_smallest_key, LevelState, empty_level, level_state, Builder, apply, save_level,
  seeks_of,
}
use study_history.VersionBuilder.Saved.{live, count-save_level, save_level-Ordered}
use study_history.VersionBuilder.Applied.{names_file, names_new, apply-deletes}
use study_history.VersionBuilder.Added.{AllOrdered, holds_file, adds_file, apply-adds}

abbrev file : ℕ → ℕ → FileMetaData
file n key = record {
  refs = 0;
  allowed_seeks = 0;
  number = n;
  file_size = 4096;
  smallest = internal_key (key ∷ []) 5 value;
  largest = internal_key (key ∷ 9 ∷ []) 5 value;
}

-- File 7 is new and file 5 deleted.
abbrev state : LevelState
state = record { deleted_files = 5 ∷ []; added_files = file 7 10 ∷ [] }

abbrev is_late : FileMetaData → Bool
is_late f = ltb 5 f.number

count-save_level_example :
    count is_late (save_level bytewise_comparator state (file 5 20 ∷ file 6 30 ∷ []))
    ≡ count (λ f. live (5 ∷ []) f && is_late f) (file 5 20 ∷ file 6 30 ∷ [])
      + count (λ f. live (5 ∷ []) f && is_late f) (file 7 10 ∷ [])
count-save_level_example =
    count-save_level bytewise_comparator is_late state (file 5 20 ∷ file 6 30 ∷ [])

save_level-Ordered_example :
    Ordered
      (by_smallest_key bytewise_comparator)
      (save_level bytewise_comparator state (file 6 30 ∷ []))
save_level-Ordered_example =
    save_level-Ordered bytewise_comparator bytewise_comparator-IsOrder.0 state (file 6 30 ∷ [])
      (tt, tt) (tt, tt)

abbrev edit : VersionEdit
edit = record empty_edit {
  deleted_files = (1, 5) ∷ (2, 9) ∷ [];
  new_files = (1, file 7 10) ∷ (2, file 9 20) ∷ [];
}

abbrev start : Builder
start = record { compact_pointer = replicate 7 []; levels = replicate 7 empty_level }

apply-deletes_example :
    contains (level_state (apply bytewise_comparator start edit).levels 1).deleted_files 5
    ≡ (false || names_file edit.deleted_files 1 5) && not (names_new edit.new_files 1 5)
apply-deletes_example = apply-deletes bytewise_comparator start edit 1 5 (omega arith)

start_level : (n i : ℕ) → get_or (replicate n empty_level) i empty_level ≡ empty_level
start_level zero i = refl
start_level (suc n) zero = refl
start_level (suc n) (suc i) = start_level n i

start-AllOrdered : AllOrdered bytewise_comparator start.levels
start-AllOrdered level =
    subst (λ (s : LevelState). Ordered (by_smallest_key bytewise_comparator) s.added_files)
      (sym (start_level 7 level)) tt

apply-adds_example :
    (holds_file bytewise_comparator
        (level_state (apply bytewise_comparator start edit).levels 1).added_files
        (file 7 10)
      ≡ false || adds_file bytewise_comparator edit.new_files 1 (file 7 10))
    × AllOrdered bytewise_comparator (apply bytewise_comparator start edit).levels
apply-adds_example =
    apply-adds bytewise_comparator bytewise_comparator-IsOrder.0 start edit 1 (file 7 10)
      (omega arith) start-AllOrdered

-- A small file may be sought a hundred times before it is compacted.
small_seeks : seeks_of 4096 ≡ 100
unfolding seeks_of
small_seeks = refl

large_seeks : seeks_of 2097152 ≡ 128
unfolding seeks_of
large_seeks = refl
