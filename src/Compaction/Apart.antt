-- ===== src/Compaction/Apart.antt =====
-- AddBoundaryInputs of leveldb学习/manifest/version_set.c, over a level whose files are apart.
use study_history.Prelude.{
  ℕ, zero, suc, ◌≡◌, ◌⊎◌, inl, inr, refl, sym, ◌∙◌, subst, arith, List, [], ◌∷◌, ◌++◌, Bool, true,
  false, Option, none, some, if◌then◌else◌, All, filter, length,
}
use study_history.Coding.{Bytes}
use study_history.Comparator.{Comparator, IsOrder}
use study_history.DbFormat.{internal_compare, internal_comparator, extract_user_key}
use study_history.DbFormat.Order.{internal_compare-IsOrder}
use study_history.VersionEdit.{FileMetaData}
use study_history.FileSet.{is_lt, is_gt}
use study_history.Inputs.Widening.{In, All-at}
use study_history.Compaction.{
  is_eq, is_boundary, largest_from, find_largest_key, find_smallest_boundary_file,
  add_boundary_loop, add_boundary_inputs,
}
use study_history.Compaction.Boundary.{
  AreRanges, Bounded, rest_of, loop_step, find-Searched, Searched, add_boundary_inputs-Bounded,
  some_inj,
}
use study_history.Compaction.Least.{
  above_of_lt, squeezed, user_keys_le, and_right, boundary_from-Least, Least,
}

module _ {A : Type 0} (p : A → Bool) (P : A → Type 0) where
  All-where : (xs : List A) → ((x : A) → In x xs → p x ≡ true → P x) → All P (filter p xs)
  All-where [] all = tt
  All-where (x ∷ xs) all =
      elim (p x) as (λ b. p x ≡ b → All P (if b then x ∷ filter p xs else filter p xs)) [
        | true ↦ λ e. (all x (inl refl) e, All-where xs (λ y inside. all y (inr inside)))
        | false ↦ λ e. All-where xs (λ y inside. all y (inr inside))
      ]
        refl

module _ (ucmp : Comparator) where
  module _ (o : IsOrder ucmp) where
    -- The files of a level are in order, and each ends before the next starts.
    abbrev pub AreApart : List FileMetaData → Type 0
    AreApart [] = Unit
    AreApart (f ∷ files) =
        All (λ g. is_lt (internal_compare ucmp f.largest g.smallest) ≡ true) files × AreApart files

    apart-cases :
        (files : List FileMetaData) (f g : FileMetaData)
        → AreApart files
        → In f files
        → In g files
        → (g ≡ f)
          ⊎ ((is_lt (internal_compare ucmp f.largest g.smallest) ≡ true)
              ⊎ (is_lt (internal_compare ucmp g.largest f.smallest) ≡ true))
    apart-cases [] f g apart at_f at_g = absurd at_f
    apart-cases (x ∷ files) f g (head, tail) (inl a) (inl b) = inl (b ∙ sym a)
    apart-cases (x ∷ files) f g (head, tail) (inl a) (inr b) = inr (
        inl (
          subst (λ h. is_lt (internal_compare ucmp h.largest g.smallest) ≡ true) (sym a)
            (All-at (λ h. is_lt (internal_compare ucmp x.largest h.smallest) ≡ true) g files b
              head)))
    apart-cases (x ∷ files) f g (head, tail) (inr a) (inl b) = inr (
        inr (
          subst (λ h. is_lt (internal_compare ucmp h.largest f.smallest) ≡ true) (sym b)
            (All-at (λ h. is_lt (internal_compare ucmp x.largest h.smallest) ≡ true) f files a
              head)))
    apart-cases (x ∷ files) f g (head, tail) (inr a) (inr b) = apart-cases files f g tail a b

    -- After the least boundary file, every other boundary file is one for the key where it ends.
    boundary_next :
        (l : Bytes) (f g : FileMetaData)
        → is_gt (internal_compare ucmp f.smallest f.largest) ≡ false
        → is_boundary ucmp l f ≡ true
        → is_boundary ucmp l g ≡ true
        → is_lt (internal_compare ucmp f.largest g.smallest) ≡ true
        → is_boundary ucmp f.largest g ≡ true
    unfolding internal_comparator
    boundary_next l f g range hf hg before =
        let gt = is_gt (internal_compare ucmp g.smallest f.largest) in
        let above : gt ≡ true =
          above_of_lt (internal_comparator ucmp) (internal_compare-IsOrder ucmp o) f.largest
            g.smallest before in
        let not_above : is_gt (internal_compare ucmp f.largest g.smallest) ≡ false =
          ground (arith, before) in
        let key =
          squeezed ucmp o (extract_user_key l) (extract_user_key f.smallest)
            (extract_user_key f.largest) (extract_user_key g.smallest)
            (and_right ucmp o (is_gt (internal_compare ucmp f.smallest l))
              (is_eq (ucmp.compare (extract_user_key f.smallest) (extract_user_key l))) hf)
            (and_right ucmp o (is_gt (internal_compare ucmp g.smallest l))
              (is_eq (ucmp.compare (extract_user_key g.smallest) (extract_user_key l))) hg)
            (user_keys_le ucmp f.smallest f.largest range)
            (user_keys_le ucmp f.largest g.smallest not_above) in
        ground (arith, above, key)

    -- A file that ends before another starts, starts before it.
    ends_first :
        (f g : FileMetaData)
        → is_gt (internal_compare ucmp g.smallest g.largest) ≡ false
        → is_lt (internal_compare ucmp g.largest f.smallest) ≡ true
        → is_lt (internal_compare ucmp g.smallest f.smallest) ≡ true
    unfolding internal_comparator
    ends_first f g range before =
        let c = internal_comparator ucmp in
        let i = internal_compare-IsOrder ucmp o in
        ground (
          arith,
          range,
          before,
          i.lt_trans g.smallest g.largest f.smallest,
          i.eq_left g.smallest g.largest f.smallest,
        )

    module _ (level_files : List FileMetaData) (ranges : AreRanges ucmp o level_files)
        (apart : AreApart level_files) where
      range_of :
          (f : FileMetaData)
          → In f level_files
          → is_gt (internal_compare ucmp f.smallest f.largest) ≡ false
      range_of f inside =
          All-at (λ g. is_gt (internal_compare ucmp g.smallest g.largest) ≡ false) f level_files
            inside ranges

      -- With the least boundary file taken, the others stay boundary files.
      others_stay :
          (l : Bytes) (f g : FileMetaData)
          → In f level_files
          → is_boundary ucmp l f ≡ true
          → is_lt (internal_compare ucmp g.smallest f.smallest) ≡ false
          → In g level_files
          → is_boundary ucmp l g ≡ true
          → (g ≡ f) ⊎ (is_boundary ucmp f.largest g ≡ true)
      others_stay l f g at_f hf least at_g hg = elim (apart-cases level_files f g apart at_f at_g) [
        | inl same ↦ inl same
        | inr (inl after) ↦ inr (boundary_next l f g (range_of f at_f) hf hg after)
        | inr (inr before) ↦
            (let first = ends_first f g (range_of g at_g) before in absurd (cc (first, least)))
      ]

      In-append : (g : FileMetaData) (xs ys : List FileMetaData) → In g xs → In g (xs ++ ys)
      In-append g [] ys inside = absurd inside
      In-append g (x ∷ xs) ys (inl e) = inl e
      In-append g (x ∷ xs) ys (inr later) = inr (In-append g xs ys later)

      In-last : (f : FileMetaData) (xs : List FileMetaData) → In f (xs ++ f ∷ [])
      In-last f [] = inl refl
      In-last f (x ∷ xs) = inr (In-last f xs)

      -- What the loop returns has the files that it started with, and every boundary file.
      abbrev Covered :
          Bytes → List FileMetaData → Option (List FileMetaData) → FileMetaData → Type 0
      Covered l files none g = Unit
      Covered l files (some out) g =
          (In g files → In g out) × (is_boundary ucmp l g ≡ true → In g out)

      Covered-next :
          (l : Bytes) (files : List FileMetaData) (f g : FileMetaData)
          (r : Option (List FileMetaData))
          → In f level_files
          → is_boundary ucmp l f ≡ true
          → Least ucmp o l level_files f
          → In g level_files
          → Covered f.largest (files ++ f ∷ []) r g
          → Covered l files r g
      Covered-next l files f g none at_f hf least at_g _ = tt
      Covered-next l files f g (some out) at_f hf least at_g (keeps, adds) = (
        (λ inside. keeps (In-append g files (f ∷ []) inside)),
        (λ hg.
            elim (others_stay l f g at_f hf
              (All-at
                (λ x.
                  is_boundary ucmp l x ≡ true
                  → is_lt (internal_compare ucmp x.smallest f.smallest) ≡ false)
                g level_files at_g least hg)
              at_g hg) [
                | inl same ↦
                    keeps (subst (λ x. In x (files ++ f ∷ [])) (sym same) (In-last f files))
                | inr stays ↦ adds stays
              ]),
      )

      find-Least :
          (l : Bytes) (f : FileMetaData)
          → find_smallest_boundary_file ucmp level_files l ≡ some f
          → Least ucmp o l level_files f
      unfolding find_smallest_boundary_file
      find-Least l f e = (boundary_from-Least ucmp o l none level_files f e).1

      rest-Covered :
          (fuel : ℕ) (l : Bytes) (files : List FileMetaData) (g : FileMetaData)
          (r : Option FileMetaData)
          → find_smallest_boundary_file ucmp level_files l ≡ r
          → In g level_files
          → ((l' : Bytes) (files' : List FileMetaData)
              → Covered l' files' (add_boundary_loop ucmp fuel level_files l' files') g)
          → Covered l files (rest_of ucmp o level_files fuel files r) g
      rest-Covered fuel l files g none e at_g ih =
          let searched =
            subst (Searched ucmp l none level_files) e (find-Searched ucmp level_files l) in
          (
            (λ inside. inside),
            (λ hg.
                let no = All-at (λ x. is_boundary ucmp l x ≡ false) g level_files at_g searched.1 in
                absurd (cc (hg, no))),
          )
      rest-Covered fuel l files g (some f) e at_g ih =
          elim (subst (Searched ucmp l none level_files) e (find-Searched ucmp level_files l)) [
            | inl found ↦ absurd (cc (found))
            | inr (at_f, hf) ↦
                Covered-next l files f g
                  (add_boundary_loop ucmp fuel level_files f.largest (files ++ f ∷ [])) at_f hf
                  (find-Least l f e) at_g (ih f.largest (files ++ f ∷ []))
          ]

      loop-Covered :
          (fuel : ℕ) (l : Bytes) (files : List FileMetaData) (g : FileMetaData)
          → In g level_files
          → Covered l files (add_boundary_loop ucmp fuel level_files l files) g
      unfolding add_boundary_loop
      loop-Covered zero l files g at_g = tt
      loop-Covered (suc fuel) l files g at_g =
          subst (λ r. Covered l files r g) (sym (loop_step ucmp o level_files fuel l files))
            (rest-Covered fuel l files g (find_smallest_boundary_file ucmp level_files l) refl at_g
              (λ l' files'. loop-Covered fuel l' files' g at_g))

      inputs-Covered :
          (f : FileMetaData) (files : List FileMetaData) (l : Bytes) (g : FileMetaData)
          → find_largest_key ucmp (f ∷ files) ≡ some l
          → In g level_files
          → Covered l (f ∷ files) (add_boundary_inputs ucmp level_files (f ∷ files)) g
      unfolding add_boundary_inputs find_largest_key
      inputs-Covered f files l g largest at_g =
          subst
            (λ k.
              Covered l (f ∷ files)
                (add_boundary_loop ucmp (suc (length level_files)) level_files k (f ∷ files)) g)
            (sym (some_inj ucmp (largest_from ucmp f.largest files) l largest))
            (loop-Covered (suc (length level_files)) l (f ∷ files) g at_g)

      -- Over a user comparator that is a total order and a level whose files are in order, each
      -- ending no earlier than it starts and before the next starts: AddBoundaryInputs ends, keeps
      -- the files that it is given, adds files of the level only, among them every file that starts
      -- after the largest key of the files given with the same user key, and leaves no file of the
      -- level that starts after the largest key of the result with the same user key.
      pub add_boundary_inputs-adds :
          (f : FileMetaData) (files : List FileMetaData) (l : Bytes)
          → find_largest_key ucmp (f ∷ files) ≡ some l
          → (b : Bounded ucmp o level_files
              (f ∷ files)
              (add_boundary_inputs ucmp level_files (f ∷ files)))
            × All (λ g. In g (f ∷ files ++ b.added)) (filter (is_boundary ucmp l) level_files)
      add_boundary_inputs-adds f files l largest =
          let b = add_boundary_inputs-Bounded ucmp o level_files f files ranges in
          (
            b,
            All-where (is_boundary ucmp l) (λ g. In g (f ∷ files ++ b.added)) level_files
                (λ g at_g hg.
                  (subst (λ r. Covered l (f ∷ files) r g) b.result_lem
                      (inputs-Covered f files l g largest at_g)).1
                    hg),
          )
