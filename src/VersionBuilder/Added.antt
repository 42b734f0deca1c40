-- ===== src/VersionBuilder/Added.antt =====
-- VersionSet::Builder: the files that Apply adds to the levels.
use study_history.Prelude.{
  ℕ, ◌<◌, ◌≡◌, inl, inr, refl, sym, ap, ◌∙◌, subst, arith, List, [], ◌∷◌, Bool, false, not, ◌&&◌,
  ◌||◌, ◌==◌, length, length-set, set, Ordered, Ordered-insert_new, insert_new, ==_iff,
}
use study_history.Comparator.{Comparator, IsOrder}
use study_history.VersionEdit.{FileMetaData, VersionEdit}
use study_history.VersionBuilder.{
  insert_number, by_smallest_key, LevelState, empty_level, Builder, level_state, seeks_of,
  apply_deleted, add_new_file, apply_new, apply,
}
use study_history.VersionBuilder.Saved.{by_smallest_key_trans, by_smallest_key_weak}
use study_history.VersionBuilder.Applied.{
  get_or-set_cases, get_or-set, joins, ignores, regroups, or_false, length-apply_deleted,
}

module _ {ℓ} {A : Type ℓ} (lt : A → A → Bool) where
  -- Neither comes before the other.
  abbrev pub alike : A → A → Bool
  alike x y = not (lt x y) && not (lt y x)

  -- Whether an element like `x` is in a list.
  abbrev pub holds : List A → A → Bool
  holds [] x = false
  holds (y ∷ ys) x = alike y x || holds ys x

  module _ (trans : (x y z : A) → lt y x ≡ false → lt z y ≡ false → lt z x ≡ false) where
    alike_left : (x y z : A) → lt x y ≡ false → lt y x ≡ false → alike x z ≡ alike y z
    alike_left x y z h k = ground (arith, trans z x y, trans y x z, trans z y x, trans x y z)

    holds-insert_new :
        (x : A) (ys : List A) (z : A) → holds (insert_new lt x ys) z ≡ holds ys z || alike x z
    holds-insert_new x [] z = ground arith
    holds-insert_new x (y ∷ ys) z =
        let ih = holds-insert_new x ys z in ground (arith, ih, alike_left x y z)

module _ (ucmp : Comparator) where
  -- The files added to every level stand in the order of BySmallestKey.
  abbrev pub AllOrdered : List LevelState → Type 0
  AllOrdered levels =
      (level : ℕ) → Ordered (by_smallest_key ucmp) (level_state levels level).added_files

  set-AllOrdered :
      (levels : List LevelState) (l : ℕ) (v : LevelState)
      → AllOrdered levels
      → Ordered (by_smallest_key ucmp) v.added_files
      → AllOrdered (set levels l v)
  set-AllOrdered levels l v before here level =
      elim (get_or-set_cases levels l level v empty_level) [
        | inl e ↦
            subst (λ (s : LevelState). Ordered (by_smallest_key ucmp) s.added_files) (sym e)
              (before level)
        | inr (e, same) ↦
            subst (λ (s : LevelState). Ordered (by_smallest_key ucmp) s.added_files) (sym e) here
      ]

  apply_deleted-AllOrdered :
      (levels : List LevelState) (deleted : List (ℕ × ℕ))
      → AllOrdered levels
      → AllOrdered (apply_deleted levels deleted)
  unfolding apply_deleted
  apply_deleted-AllOrdered levels [] before = before
  apply_deleted-AllOrdered levels ((l, n) ∷ rest) before =
      let state = level_state levels l in
      let v = record state { deleted_files = insert_number state.deleted_files n } in
      apply_deleted-AllOrdered (set levels l v) rest (set-AllOrdered levels l v before (before l))

  abbrev pub holds_file : List FileMetaData → FileMetaData → Bool
  holds_file files f = holds (by_smallest_key ucmp) files f

  -- Whether an edit adds a file with the smallest key and the number of `f` to a level.
  abbrev pub adds_file : List (ℕ × FileMetaData) → ℕ → FileMetaData → Bool
  adds_file [] level f = false
  adds_file ((l, meta) ∷ rest) level f =
      ((l == level) && alike (by_smallest_key ucmp) meta f) || adds_file rest level f

  apply_deleted-added :
      (levels : List LevelState) (deleted : List (ℕ × ℕ)) (level : ℕ)
      → (level_state (apply_deleted levels deleted) level).added_files
        ≡ (level_state levels level).added_files
  unfolding apply_deleted
  apply_deleted-added levels [] level = refl
  apply_deleted-added levels ((l, n) ∷ rest) level =
      let state = level_state levels l in
      let v = record state { deleted_files = insert_number state.deleted_files n } in
      apply_deleted-added (set levels l v) rest level
      ∙ elim (get_or-set_cases levels l level v empty_level) [
        | inl e ↦ ap (λ (s : LevelState). s.added_files) e
        | inr (e, same) ↦
            ap (λ (s : LevelState). s.added_files) e
            ∙ ap (λ k. (level_state levels k).added_files) same
      ]

  module _ (o : IsOrder ucmp) where
    apply_new-AllOrdered :
        (levels : List LevelState) (added : List (ℕ × FileMetaData))
        → AllOrdered levels
        → AllOrdered (apply_new ucmp levels added)
    unfolding apply_new add_new_file
    apply_new-AllOrdered levels [] before = before
    apply_new-AllOrdered levels ((l, meta) ∷ rest) before =
        let state = level_state levels l in
        let f = record meta { refs = 1; allowed_seeks = seeks_of meta.file_size } in
        apply_new-AllOrdered (set levels l (add_new_file ucmp state meta)) rest (
          set-AllOrdered levels l (add_new_file ucmp state meta) before (
            Ordered-insert_new (by_smallest_key ucmp) (by_smallest_key_trans ucmp o)
              (by_smallest_key_weak ucmp o) f state.added_files (before l)))

    added_step :
        (levels : List LevelState) (l : ℕ) (meta : FileMetaData) (level : ℕ) (f : FileMetaData)
        → level < length levels
        → holds_file
            (level_state
              (set levels l (add_new_file ucmp (level_state levels l) meta))
              level).added_files
            f
          ≡ holds_file (level_state levels level).added_files f
            || ((l == level) && alike (by_smallest_key ucmp) meta f)
    unfolding add_new_file
    added_step levels l meta level f h =
        let v = add_new_file ucmp (level_state levels l) meta in
        let file = record meta { refs = 1; allowed_seeks = seeks_of meta.file_size } in
        elim (get_or-set levels l level v empty_level h) [
          | inl (same, e) ↦
              ap (λ (s : LevelState). holds_file s.added_files f) e
              ∙ holds-insert_new (by_smallest_key ucmp) (by_smallest_key_trans ucmp o) file
                  (level_state levels l).added_files f
              ∙ joins (holds_file (level_state levels l).added_files f)
                  (holds_file (level_state levels level).added_files f) (l == level)
                  (alike (by_smallest_key ucmp) meta f) same
                  (ap (λ k. holds_file (level_state levels k).added_files f)
                    ((==_iff l level).0 same))
          | inr (other, e) ↦
              ap (λ (s : LevelState). holds_file s.added_files f) e
              ∙ ignores (holds_file (level_state levels level).added_files f) (l == level)
                  (alike (by_smallest_key ucmp) meta f) other
        ]

    apply_new-adds :
        (levels : List LevelState) (added : List (ℕ × FileMetaData)) (level : ℕ) (f : FileMetaData)
        → level < length levels
        → holds_file (level_state (apply_new ucmp levels added) level).added_files f
          ≡ holds_file (level_state levels level).added_files f || adds_file added level f
    unfolding apply_new
    apply_new-adds levels [] level f h =
        or_false (holds_file (level_state levels level).added_files f)
    apply_new-adds levels ((l, meta) ∷ rest) level f h =
        let v = add_new_file ucmp (level_state levels l) meta in
        apply_new-adds (set levels l v) rest level f
          (subst (λ k. level < k) (sym (length-set levels l v)) h)
        ∙ ap (λ b. b || adds_file rest level f) (added_step levels l meta level f h)
        ∙ regroups (holds_file (level_state levels level).added_files f)
            ((l == level) && alike (by_smallest_key ucmp) meta f) (adds_file rest level f)

    -- Over a user comparator that is a total order: after an edit is applied, the added files of an
    -- existing level hold a file with the smallest key and number of `f` exactly if they did before
    -- or the edit adds one to that level; and the added files of every level stay in the order of
    -- their smallest keys and then their numbers, if they were.
    pub apply-adds :
        (b : Builder) (edit : VersionEdit) (level : ℕ) (f : FileMetaData)
        → level < length b.levels
        → AllOrdered b.levels
        → (holds_file (level_state (apply ucmp b edit).levels level).added_files f
            ≡ holds_file (level_state b.levels level).added_files f
              || adds_file edit.new_files level f)
          × AllOrdered (apply ucmp b edit).levels
    unfolding apply
    apply-adds b edit level f h before = (
      apply_new-adds (apply_deleted b.levels edit.deleted_files) edit.new_files level f
            (subst (λ k. level < k) (sym (length-apply_deleted b.levels edit.deleted_files)) h)
          ∙ ap (λ files. holds_file files f || adds_file edit.new_files level f)
              (apply_deleted-added b.levels edit.deleted_files level),
      apply_new-AllOrdered (apply_deleted b.levels edit.deleted_files) edit.new_files
          (apply_deleted-AllOrdered b.levels edit.deleted_files before),
    )
