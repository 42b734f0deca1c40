-- ===== src/FileSet/Tests.antt =====
-- Theorems on the files of a level at concrete inputs.
use study_history.Prelude.{ℕ, zero, suc, ◌≡◌, ◌∙◌, refl, arith, List, [], ◌∷◌}
use study_history.Coding.{Bytes}
use study_history.Comparator.{bytewise_comparator, slice_compare}
use study_history.Comparator.Bytewise.{bytewise_comparator-IsOrder}
use study_history.DbFormat.{internal_key, value, internal_compare}
use study_history.DbFormat.Order.{internal_compare_lem}
use Prim.Native.Nat.{Ordering}
use study_history.VersionEdit.{FileMetaData}
use study_history.FileSet.{find_file, Saver, save_value, found, not_found, LevelFileNumIterator}
use study_history.FileSet.Search.{IsSorted, Splits, find_file-Splits}
use study_history.FileSet.Values.{save_value-internal_key}

abbrev file : ℕ → FileMetaData
file n = record {
  refs = 0;
  allowed_seeks = 100;
  number = n;
  file_size = 4096;
  smallest = internal_key (n ∷ []) 5 value;
  largest = internal_key (n ∷ 9 ∷ []) 5 value;
}

abbrev level : List FileMetaData
level = file 10 ∷ file 20 ∷ file 30 ∷ []

abbrev target : Bytes
target = internal_key (15 ∷ []) 7 value

-- The largest keys of two files stand as their numbers do.
ordered :
    (m n : ℕ)
    → slice_compare (m ∷ 9 ∷ []) (n ∷ 9 ∷ []) ≡ Ordering.lt
    → internal_compare bytewise_comparator (file m).largest (file n).largest ≡ Ordering.lt
unfolding bytewise_comparator
ordered m n h =
    internal_compare_lem bytewise_comparator (m ∷ 9 ∷ []) 5 value (n ∷ 9 ∷ []) 5 value (omega arith)
      (omega arith)
    ∙ rw h refl

level-IsSorted : IsSorted bytewise_comparator level target
unfolding slice_compare
level-IsSorted zero zero h inside = absurd (omega arith)
level-IsSorted zero (suc zero) h inside = ordered 10 20 refl
level-IsSorted zero (suc (suc zero)) h inside = ordered 10 30 refl
level-IsSorted (suc zero) (suc (suc zero)) h inside = ordered 20 30 refl
level-IsSorted (suc zero) zero h inside = absurd (omega arith)
level-IsSorted (suc zero) (suc zero) h inside = absurd (omega arith)
level-IsSorted (suc (suc i)) zero h inside = absurd (omega arith)
level-IsSorted (suc (suc i)) (suc zero) h inside = absurd (omega arith)
level-IsSorted (suc (suc i)) (suc (suc zero)) h inside = absurd (omega arith)
level-IsSorted i (suc (suc (suc j))) h inside = absurd (omega arith)

find_file-Splits_example :
    Splits bytewise_comparator level target (find_file bytewise_comparator level target)
find_file-Splits_example =
    find_file-Splits bytewise_comparator level target bytewise_comparator-IsOrder.0 level-IsSorted
      (omega arith)

abbrev at_second : LevelFileNumIterator
at_second = record { flist = level; index = 1 }

abbrev saver : Saver
saver = record { state = not_found; user_key = 7 ∷ []; value = [] }

save_value-internal_key_example :
    save_value bytewise_comparator saver (internal_key (7 ∷ []) 5 value) (1 ∷ 2 ∷ [])
    ≡ record { state = found; user_key = 7 ∷ []; value = 1 ∷ 2 ∷ [] }
unfolding bytewise_comparator slice_compare
save_value-internal_key_example =
    save_value-internal_key bytewise_comparator saver (7 ∷ []) 5 value (1 ∷ 2 ∷ []) (omega arith)
