-- ===== src/VersionBuilder/Saved.antt =====
-- VersionSet::Builder: the files that SaveTo puts into a level.
use study_history.Prelude.{
  ℕ, ◌+◌, ◌≡◌, refl, sym, ap, ◌∙◌, subst, arith, List, [], ◌∷◌, ◌++◌, Bool, true, false, not, ◌&&◌,
  if◌then◌else◌, append_assoc, append-nil, filter, count, merge, upper_bound, Ordered,
  Ordered-merge, Ordered-filter, filter-append, count-merge, count-filter,
}
use study_history.Coding.{Bytes}
use study_history.Comparator.{Comparator, IsOrder}
use study_history.DbFormat.{internal_comparator}
use study_history.DbFormat.Order.{internal_compare-IsOrder}
use study_history.VersionEdit.{FileMetaData}
use study_history.VersionBuilder.{
  contains, smaller, by_smallest_key, LevelState, maybe_add_file, add_files, save_added, save_level,
}

abbrev pub live : List ℕ → FileMetaData → Bool
live deleted f = not (contains deleted f.number)

-- Keys with a number to break ties are weakly ordered, as the keys are.
module _ (c : Comparator) (o : IsOrder c) where
  smaller_trans :
      (x y z : Bytes) (m n k : ℕ)
      → smaller (c.compare y x) n m ≡ false
      → smaller (c.compare z y) k n ≡ false
      → smaller (c.compare z x) k m ≡ false
  smaller_trans x y z m n k h h' = ground (
    arith,
    o.flips x y,
    o.flips y z,
    o.flips x z,
    o.lt_trans x y z,
    o.eq_left x y z,
    o.eq_left y z x,
  )

  smaller_weak :
      (x y : Bytes) (m n : ℕ)
      → smaller (c.compare x y) m n ≡ true
      → smaller (c.compare y x) n m ≡ false
  smaller_weak x y m n h = ground (arith, o.flips x y)

module _ (ucmp : Comparator) where
  maybe_add_file_lem :
      (deleted : List ℕ) (files : List FileMetaData) (f : FileMetaData)
      → maybe_add_file deleted files f ≡ files ++ filter (live deleted) (f ∷ [])
  unfolding maybe_add_file
  maybe_add_file_lem deleted files f =
      elim (contains deleted f.number)
        as (λ b. (if b then files else files ++ f ∷ []) ≡ files ++ (if not b then f ∷ [] else [])) [
          | true ↦ sym (append-nil files)
          | false ↦ refl
        ]

  add_files_lem :
      (deleted : List ℕ) (files rest : List FileMetaData)
      → add_files deleted files rest ≡ files ++ filter (live deleted) rest
  unfolding add_files
  add_files_lem deleted files [] = sym (append-nil files)
  add_files_lem deleted files (f ∷ rest) =
      add_files_lem deleted (maybe_add_file deleted files f) rest
      ∙ ap (λ l. l ++ filter (live deleted) rest) (maybe_add_file_lem deleted files f)
      ∙ append_assoc files (filter (live deleted) (f ∷ [])) (filter (live deleted) rest)
      ∙ ap (λ l. files ++ l) (sym (filter-append (live deleted) (f ∷ []) rest))

  save_added_lem :
      (deleted : List ℕ) (files base added : List FileMetaData)
      → save_added ucmp deleted files base added
        ≡ files ++ filter (live deleted) (merge (by_smallest_key ucmp) base added)
  unfolding save_added
  save_added_lem deleted files base [] = add_files_lem deleted files base
  save_added_lem deleted files base (f ∷ added) =
      let keep = filter (live deleted) in
      let before = (upper_bound (by_smallest_key ucmp) f base).0 in
      let rest = (upper_bound (by_smallest_key ucmp) f base).1 in
      let later = merge (by_smallest_key ucmp) rest added in
      let start = maybe_add_file deleted (add_files deleted files before) f in
      save_added_lem deleted start rest added
      ∙ ap (λ l. l ++ keep later)
          (maybe_add_file_lem deleted (add_files deleted files before) f
            ∙ ap (λ l. l ++ keep (f ∷ [])) (add_files_lem deleted files before))
      ∙ append_assoc (files ++ keep before) (keep (f ∷ [])) (keep later)
      ∙ ap (λ l. files ++ keep before ++ l) (sym (filter-append (live deleted) (f ∷ []) later))
      ∙ append_assoc files (keep before) (keep (f ∷ later))
      ∙ ap (λ l. files ++ l) (sym (filter-append (live deleted) before (f ∷ later)))

  -- A level is saved as the merge of its base files with those added, without the deleted ones.
  save_level-merge :
      (state : LevelState) (base : List FileMetaData)
      → save_level ucmp state base
        ≡ filter (live state.deleted_files) (merge (by_smallest_key ucmp) base state.added_files)
  unfolding save_level
  save_level-merge state base = save_added_lem state.deleted_files [] base state.added_files

  -- Of the files with any property a saved level holds as many as its base files and those added
  -- hold together which are not deleted: none is lost, doubled or made up.
  pub count-save_level :
      (p : FileMetaData → Bool) (state : LevelState) (base : List FileMetaData)
      → count p (save_level ucmp state base)
        ≡ count (λ f. live state.deleted_files f && p f) base
          + count (λ f. live state.deleted_files f && p f) state.added_files
  count-save_level p state base =
      ap (count p) (save_level-merge state base)
      ∙ count-filter (live state.deleted_files) p
          (merge (by_smallest_key ucmp) base state.added_files)
      ∙ count-merge (by_smallest_key ucmp) (λ f. live state.deleted_files f && p f) base
          state.added_files

  module _ (o : IsOrder ucmp) where
    pub by_smallest_key_trans :
        (x y z : FileMetaData)
        → by_smallest_key ucmp y x ≡ false
        → by_smallest_key ucmp z y ≡ false
        → by_smallest_key ucmp z x ≡ false
    unfolding internal_comparator
    by_smallest_key_trans x y z h h' =
        smaller_trans (internal_comparator ucmp) (internal_compare-IsOrder ucmp o) x.smallest
          y.smallest z.smallest x.number y.number z.number h h'

    pub by_smallest_key_weak :
        (x y : FileMetaData) → by_smallest_key ucmp x y ≡ true → by_smallest_key ucmp y x ≡ false
    unfolding internal_comparator
    by_smallest_key_weak x y h =
        smaller_weak (internal_comparator ucmp) (internal_compare-IsOrder ucmp o) x.smallest
          y.smallest x.number y.number h

    -- Over a user comparator that is a total order: the files of a saved level are ordered by their
    -- smallest keys and then their numbers, if the base files and those added are.
    pub save_level-Ordered :
        (state : LevelState) (base : List FileMetaData)
        → Ordered (by_smallest_key ucmp) base
        → Ordered (by_smallest_key ucmp) state.added_files
        → Ordered (by_smallest_key ucmp) (save_level ucmp state base)
    save_level-Ordered state base before added =
        subst (Ordered (by_smallest_key ucmp)) (sym (save_level-merge state base)) (
          Ordered-filter (by_smallest_key ucmp) (live state.deleted_files)
            (merge (by_smallest_key ucmp) base state.added_files)
            (Ordered-merge (by_smallest_key ucmp) by_smallest_key_trans by_smallest_key_weak base
              state.added_files before added))
