-- ===== src/Inputs/Tests.antt =====
-- The inputs of a compaction at concrete inputs.
use study_history.Prelude.{
  ℕ, zero, suc, ◌≤◌, ◌<◌, ◌≡◌, refl, arith, List, [], ◌∷◌, Option, some, ◌⊎◌, get_or, get_elem?,
}
use study_history.Coding.{Bytes}
use study_history.Comparator.{bytewise_comparator}
use study_history.Comparator.Bytewise.{bytewise_comparator-IsOrder}
use study_history.DbFormat.{internal_key, value}
use study_history.VersionEdit.{FileMetaData}
use study_history.Inputs.{get_overlapping_inputs, pick_level_for_mem_table_output, user_key_of}
use study_history.Inputs.Closure.{Hull, Collects, get_overlapping_inputs-Collects}
use study_history.Inputs.Placing.{AllOutside, AreLevels, pick_level-AllOutside}
use study_history.FileSet.Overlap.{HasKey}

abbrev file : ℕ → ℕ → ℕ → FileMetaData
file n first last = record {
  refs = 0;
  allowed_seeks = 100;
  number = n;
  file_size = 4096;
  smallest = internal_key (first ∷ []) 5 value;
  largest = internal_key (last ∷ []) 5 value;
}

-- The second file reaches into the first.
abbrev levels : List (List FileMetaData)
levels = (file 1 10 20 ∷ file 2 15 30 ∷ file 3 40 50 ∷ []) ∷ (file 4 10 50 ∷ []) ∷ []

abbrev begin : Option Bytes
begin = some (internal_key (25 ∷ []) 9 value)

abbrev end : Option Bytes
end = some (internal_key (26 ∷ []) 9 value)

get_overlapping_inputs-Collects_example :
    (h : Hull bytewise_comparator bytewise_comparator-IsOrder.0
      (get_or levels 0 [])
      (user_key_of begin)
      (user_key_of end))
    × Collects bytewise_comparator bytewise_comparator-IsOrder.0
        (get_or levels 0 [])
        (user_key_of begin)
        (user_key_of end)
        h
        (get_overlapping_inputs bytewise_comparator levels 0 begin end)
get_overlapping_inputs-Collects_example =
    get_overlapping_inputs-Collects bytewise_comparator bytewise_comparator-IsOrder.0 levels begin
      end

-- The only file of level 1, and no file in level 2.
level_one-keys : HasKey bytewise_comparator (60 ∷ []) (70 ∷ []) (file 4 10 50)
level_one-keys = (record { user_key = 50 ∷ []; sequence = 5; type = value }, refl, omega arith)

levels-AreLevels :
    AreLevels bytewise_comparator 2097152 levels (60 ∷ []) (70 ∷ []) bytewise_comparator-IsOrder.0
levels-AreLevels zero low h = absurd (omega arith)
levels-AreLevels (suc zero) low h = record {
  sorted = λ i j less inside. absurd (omega arith);
  rise = λ i j f g less at_f at_g. absurd (past i j g less at_g);
  few = omega arith;
  keys = (level_one-keys, tt);
}
  where
    past : (i j : ℕ) (g : FileMetaData) → i < j → get_elem? (file 4 10 50 ∷ []) j ≡ some g → ⊥
    past i zero g less e = omega arith
    past i (suc j) g less e = cc (e)
levels-AreLevels (suc (suc l)) low h = record {
  sorted = λ i j less inside. absurd (omega arith);
  rise = λ i j f g less at_f at_g. absurd (cc (at_f));
  few = omega arith;
  keys = tt;
}

pick_level-AllOutside_example :
    (pick_level_for_mem_table_output bytewise_comparator 2097152 levels (60 ∷ []) (70 ∷ []) ≡ 0)
    ⊎ ((pick_level_for_mem_table_output bytewise_comparator 2097152 levels (60 ∷ []) (70 ∷ []) ≤ 2)
        × AllOutside bytewise_comparator 2097152 levels
            (60 ∷ [])
            (70 ∷ [])
            bytewise_comparator-IsOrder.0
            (pick_level_for_mem_table_output bytewise_comparator 2097152 levels
              (60 ∷ [])
              (70 ∷ [])))
pick_level-AllOutside_example =
    pick_level-AllOutside bytewise_comparator 2097152 levels (60 ∷ []) (70 ∷ [])
      bytewise_comparator-IsOrder.0 levels-AreLevels
