-- ===== src/Version/Tests.antt =====
-- A lookup in the files of a version at a concrete input.
use study_history.Prelude.{ℕ, zero, suc, ◌≡◌, refl, List, [], ◌∷◌, none, some, true}
use study_history.Coding.{Bytes}
use study_history.Comparator.{bytewise_comparator}
use study_history.DbFormat.{internal_key, value}
use study_history.VersionEdit.{FileMetaData}
use study_history.Version.{
  TableRead, no_entry, table_entry, get, for_each_overlapping, update_stats,
}
use study_history.Version.Lookup.{ask_file, finished, get-for_each_overlapping}

abbrev file : ℕ → ℕ → FileMetaData
file n seeks = record {
  refs = 0;
  allowed_seeks = seeks;
  number = n;
  file_size = 4096;
  smallest = internal_key (10 ∷ []) 5 value;
  largest = internal_key (20 ∷ []) 5 value;
}

abbrev levels : List (List FileMetaData)
levels = (file 1 100 ∷ file 2 100 ∷ []) ∷ (file 3 100 ∷ []) ∷ []

-- Only the first file has the key.
abbrev table_get : ℕ → ℕ → Bytes → TableRead ⊥
table_get (suc zero) file_size ikey = table_entry (internal_key (15 ∷ []) 4 value) (7 ∷ [])
table_get number file_size ikey = no_entry

get-for_each_overlapping_example :
    get bytewise_comparator table_get (internal_key (15 ∷ []) 9 value) (15 ∷ []) levels
    ≡ finished (
        for_each_overlapping bytewise_comparator
          (ask_file bytewise_comparator table_get (internal_key (15 ∷ []) 9 value) (15 ∷ []))
          (15 ∷ [])
          (internal_key (15 ∷ []) 9 value)
          levels
          (record { seek_file = none; last_file_read = none }, none))
get-for_each_overlapping_example =
    get-for_each_overlapping bytewise_comparator table_get (internal_key (15 ∷ []) 9 value)
      (15 ∷ []) levels

-- The last seek that a file is allowed makes it one to compact.
last_seek :
    update_stats
      (record { files = (file 1 1 ∷ []) ∷ []; file_to_compact = none })
      (some (file 1 1, 0))
    ≡ (record { files = (file 1 0 ∷ []) ∷ []; file_to_compact = some (file 1 0, 0) }, true)
unfolding update_stats
last_seek = refl
