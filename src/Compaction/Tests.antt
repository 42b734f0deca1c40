-- ===== src/Compaction/Tests.antt =====
-- The files of a compaction at concrete inputs.
use study_history.Prelude.{
  ℕ, zero, suc, ◌-◌, ◌≡◌, refl, ap, sym, subst, arith, List, [], ◌∷◌, true, false, not, All, filter,
  take, get_or, replicate,
}
use study_history.Comparator.{bytewise_comparator, slice_compare}
use study_history.Comparator.Bytewise.{bytewise_comparator-IsOrder}
use study_history.DbFormat.{internal_key, value, extract_user_key}
use study_history.DbFormat.Order.{internal_compare_lem}
use study_history.VersionEdit.{FileMetaData, num_levels, empty_edit}
use study_history.FileSet.{is_lt, is_gt}
use study_history.Compaction.{
  Compaction, files_at, is_boundary, find_largest_key, add_boundary_inputs,
}
use study_history.Compaction.Running.{is_base_level_for_key}
use study_history.Compaction.BaseLevel.{
  any_level_covers, Passed, Spread, is_base_level_for_key-covers,
}
use study_history.Compaction.Boundary.{AreRanges, Bounded}
use study_history.Compaction.Apart.{AreApart, add_boundary_inputs-adds}
use study_history.Inputs.Widening.{In}

abbrev file : ℕ → ℕ → ℕ → ℕ → ℕ → FileMetaData
file n first newest last oldest = record {
  refs = 0;
  allowed_seeks = 100;
  number = n;
  file_size = 4096;
  smallest = internal_key (first ∷ []) newest value;
  largest = internal_key (last ∷ []) oldest value;
}

-- The entries of key 20 are in both files.
abbrev level_files : List FileMetaData
level_files = file 1 10 9 20 5 ∷ file 2 20 4 30 1 ∷ []

level_files-AreRanges : AreRanges bytewise_comparator bytewise_comparator-IsOrder.0 level_files
unfolding bytewise_comparator slice_compare
level_files-AreRanges = (
  ap is_gt (
      internal_compare_lem bytewise_comparator (10 ∷ []) 9 value (20 ∷ []) 5 value (omega arith)
        (omega arith)),
  (
    ap is_gt (
        internal_compare_lem bytewise_comparator (20 ∷ []) 4 value (30 ∷ []) 1 value (omega arith)
          (omega arith)),
    tt,
  ),
)

level_files-AreApart : AreApart bytewise_comparator bytewise_comparator-IsOrder.0 level_files
unfolding bytewise_comparator slice_compare
level_files-AreApart = (
  (
    ap is_lt (
        internal_compare_lem bytewise_comparator (20 ∷ []) 5 value (20 ∷ []) 4 value (omega arith)
          (omega arith)),
    tt,
  ),
  (tt, tt),
)

add_boundary_inputs-adds_example :
    (b : Bounded bytewise_comparator bytewise_comparator-IsOrder.0 level_files
      (file 1 10 9 20 5 ∷ [])
      (add_boundary_inputs bytewise_comparator level_files (file 1 10 9 20 5 ∷ [])))
    × All
        (λ g. In g (file 1 10 9 20 5 ∷ b.added))
        (filter (is_boundary bytewise_comparator (internal_key (20 ∷ []) 5 value)) level_files)
unfolding find_largest_key
add_boundary_inputs-adds_example =
    add_boundary_inputs-adds bytewise_comparator bytewise_comparator-IsOrder.0 level_files
      level_files-AreRanges level_files-AreApart (file 1 10 9 20 5) []
      (internal_key (20 ∷ []) 5 value) refl

abbrev levels : List (List FileMetaData)
levels = [] ∷ [] ∷ (file 3 10 9 20 5 ∷ []) ∷ []

levels-Spread : (l : ℕ) → Spread bytewise_comparator (15 ∷ []) (files_at levels l)
levels-Spread zero = tt
levels-Spread (suc zero) = tt
levels-Spread (suc (suc zero)) = (tt, tt)
levels-Spread (suc (suc (suc l))) = tt

abbrev compaction : Compaction
compaction = record {
  level = 0;
  max_output_file_size = 2097152;
  inputs0 = [];
  inputs1 = [];
  grandparents = [];
  grandparent_index = 0;
  seen_key = false;
  overlapped_bytes = 0;
  level_ptrs = replicate num_levels 0;
  edit = empty_edit;
}

no_ptr : (n l : ℕ) → ◌≡◌ {A = ℕ} (get_or (replicate n 0) l 0) 0
no_ptr zero l = refl
no_ptr (suc n) zero = refl
no_ptr (suc n) (suc l) = no_ptr n l

no_ptr-Passed : Passed bytewise_comparator (15 ∷ []) levels compaction.level_ptrs
no_ptr-Passed l =
    subst
      (λ n.
        All
          (λ (f : FileMetaData).
            is_gt (bytewise_comparator.compare (15 ∷ []) (extract_user_key f.largest)) ≡ true)
          (take n (files_at levels l)))
      (sym (no_ptr num_levels l)) tt

is_base_level_for_key-covers_example :
    ((is_base_level_for_key bytewise_comparator levels compaction (15 ∷ [])).1
      ≡ not (any_level_covers bytewise_comparator (15 ∷ []) levels 2 (num_levels - 2)))
    × Passed bytewise_comparator
        (15 ∷ [])
        levels
        (is_base_level_for_key bytewise_comparator levels compaction (15 ∷ [])).0.level_ptrs
is_base_level_for_key-covers_example =
    is_base_level_for_key-covers bytewise_comparator (15 ∷ []) bytewise_comparator-IsOrder.0 levels
      compaction no_ptr-Passed (λ l h. levels-Spread l)
