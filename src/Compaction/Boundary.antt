-- ===== src/Compaction/Boundary.antt =====
-- AddBoundaryInputs of leveldb学习/manifest/version_set.c.
use study_history.Prelude.{
  ℕ, zero, suc, ◌<◌, ◌≡◌, ◌⊎◌, inl, inr, refl, sym, ap, ◌∙◌, subst, arith, List, [], ◌∷◌, ◌++◌,
  Bool, true, false, ◌&&◌, Option, none, some, if◌then◌else◌, All, append_assoc, append-nil, count,
  length,
}
use study_history.Coding.{Bytes}
use study_history.Comparator.{Comparator, IsOrder}
use study_history.DbFormat.{internal_compare, internal_comparator, extract_user_key}
use study_history.DbFormat.Order.{internal_compare-IsOrder}
use study_history.VersionEdit.{FileMetaData}
use study_history.FileSet.{is_gt}
use study_history.Inputs.Widening.{In, count-lt, count-length, All-at}
use study_history.Compaction.{
  is_eq, is_boundary, is_smaller_file, largest_from, find_largest_key, boundary_from,
  find_smallest_boundary_file, add_boundary_loop, add_boundary_inputs,
}

module _ (c : Comparator) (o : IsOrder c) where
  above_by :
      (l x y : Bytes)
      → is_gt (c.compare x l) ≡ true
      → is_gt (c.compare x y) ≡ false
      → is_gt (c.compare y l) ≡ true
  above_by l x y h k =
      ground (arith, o.lt_trans l x y, o.eq_left x y l, o.flips l x, o.flips x y, o.flips l y)

  above_trans :
      (l y z : Bytes)
      → is_gt (c.compare y l) ≡ true
      → is_gt (c.compare z y) ≡ true
      → is_gt (c.compare z l) ≡ true
  above_trans l y z h k = ground (arith, o.lt_trans l y z, o.flips l y, o.flips y z, o.flips l z)

module _ (ucmp : Comparator) where
  -- What the search for a boundary file returns.
  abbrev pub Searched :
      Bytes → Option FileMetaData → List FileMetaData → Option FileMetaData → Type 0
  Searched largest_key current files none =
      (current ≡ none) × All (λ f. is_boundary ucmp largest_key f ≡ false) files
  Searched largest_key current files (some f) =
      (current ≡ some f) ⊎ (In f files × (is_boundary ucmp largest_key f ≡ true))

  pub and_left : (a b : Bool) → a && b ≡ true → a ≡ true
  and_left true b h = refl
  and_left false b h = h

  left_false : (a : Bool) → a && true ≡ false → a ≡ false
  left_false true h = h
  left_false false h = refl

  not_none : (f : FileMetaData) → ◌≡◌ {A = Option FileMetaData} (some f) none → ⊥
  not_none f e = cc (e)

  pub file_inj : (f g : FileMetaData) → ◌≡◌ {A = Option FileMetaData} (some f) (some g) → f ≡ g
  file_inj f g e = ap (λ (o : Option FileMetaData). elim o [ none ↦ f | some z ↦ z ]) e

  -- One more file at the front of those searched.
  takes :
      (largest_key : Bytes) (current : Option FileMetaData) (f : FileMetaData)
      (files : List FileMetaData) (r : Option FileMetaData)
      → is_boundary ucmp largest_key f ≡ true
      → Searched largest_key (some f) files r
      → Searched largest_key current (f ∷ files) r
  takes largest_key current f files none h (e, _) = absurd (not_none f e)
  takes largest_key current f files (some g) h (inl e) = inr (
    inl (sym (file_inj f g e)),
    subst (λ x. is_boundary ucmp largest_key x ≡ true) (file_inj f g e) h,
  )
  takes largest_key current f files (some g) h (inr (inside, k)) = inr (inr inside, k)

  passes :
      (largest_key : Bytes) (current : Option FileMetaData) (f : FileMetaData)
      (files : List FileMetaData) (r : Option FileMetaData)
      → is_boundary ucmp largest_key f && is_smaller_file ucmp current f ≡ false
      → Searched largest_key current files r
      → Searched largest_key current (f ∷ files) r
  passes largest_key current f files none h (e, all) = (
    e,
    (
      left_false (is_boundary ucmp largest_key f) (
          subst
            (λ (o : Option FileMetaData).
              is_boundary ucmp largest_key f && is_smaller_file ucmp o f ≡ false)
            e h),
      all,
    ),
  )
  passes largest_key current f files (some g) h (inl e) = inl e
  passes largest_key current f files (some g) h (inr (inside, k)) = inr (inr inside, k)

  boundary_from-Searched :
      (largest_key : Bytes) (current : Option FileMetaData) (files : List FileMetaData)
      → Searched largest_key current files (boundary_from ucmp largest_key current files)
  unfolding boundary_from
  boundary_from-Searched largest_key none [] = (refl, tt)
  boundary_from-Searched largest_key (some g) [] = inl refl
  boundary_from-Searched largest_key current (f ∷ files) =
      let b = is_boundary ucmp largest_key f && is_smaller_file ucmp current f in
      elim b
          as (λ x.
            b ≡ x
            → Searched largest_key current (f ∷ files)
                (boundary_from ucmp largest_key (if x then some f else current) files)) [
                  | true ↦ λ h.
                      takes largest_key current f files
                        (boundary_from ucmp largest_key (some f) files)
                        (and_left (is_boundary ucmp largest_key f) (is_smaller_file ucmp current f)
                          h)
                        (boundary_from-Searched largest_key (some f) files)
                  | false ↦ λ h.
                      passes largest_key current f files
                        (boundary_from ucmp largest_key current files) h
                        (boundary_from-Searched largest_key current files)
                ]
        refl

  pub find-Searched :
      (level_files : List FileMetaData) (largest_key : Bytes)
      → Searched largest_key none level_files
          (find_smallest_boundary_file ucmp level_files largest_key)
  unfolding find_smallest_boundary_file
  find-Searched level_files largest_key = boundary_from-Searched largest_key none level_files

  largest_from-append :
      (l : Bytes) (xs ys : List FileMetaData)
      → largest_from ucmp l (xs ++ ys) ≡ largest_from ucmp (largest_from ucmp l xs) ys
  unfolding largest_from
  largest_from-append l [] ys = refl
  largest_from-append l (x ∷ xs) ys =
      largest_from-append (if is_gt (internal_compare ucmp x.largest l) then x.largest else l) xs ys

  pub some_inj : (x y : Bytes) → ◌≡◌ {A = Option Bytes} (some x) (some y) → x ≡ y
  some_inj x y e = ap (λ (o : Option Bytes). elim o [ none ↦ x | some z ↦ z ]) e

  largest_next :
      (files : List FileMetaData) (l : Bytes) (f : FileMetaData)
      → find_largest_key ucmp files ≡ some l
      → is_gt (internal_compare ucmp f.largest l) ≡ true
      → find_largest_key ucmp (files ++ f ∷ []) ≡ some f.largest
  unfolding find_largest_key largest_from
  largest_next [] l f e h = absurd (cc (e))
  largest_next (g ∷ files) l f e h = ap some (
      largest_from-append g.largest files (f ∷ [])
      ∙ ap (λ k. largest_from ucmp k (f ∷ [])) (some_inj (largest_from ucmp g.largest files) l e)
      ∙ ap (λ (b : Bool). if b then f.largest else l) h)

  module _ (o : IsOrder ucmp) (level_files : List FileMetaData) where
    -- No file ends before it starts.
    abbrev pub AreRanges : Type 0
    AreRanges = All (λ f. is_gt (internal_compare ucmp f.smallest f.largest) ≡ false) level_files

    -- The files and more of the level, such that no file of the level starts after the largest key
    -- of them with the same user key.
    pub record Bounded (files : List FileMetaData) (result : Option (List FileMetaData))
        : Type 0 where
      pub added : List FileMetaData
      pub largest_key : Bytes
      pub result_lem : result ≡ some (files ++ added)
      pub from_level : All (λ f. In f level_files) added
      pub largest_lem : find_largest_key ucmp (files ++ added) ≡ some largest_key
      pub none_left : All (λ f. is_boundary ucmp largest_key f ≡ false) level_files

    abbrev room : Bytes → ℕ
    room l = count (λ f. is_gt (internal_compare ucmp f.smallest l)) level_files

    -- What a round does with the file that it found.
    abbrev pub rest_of : ℕ → List FileMetaData → Option FileMetaData → Option (List FileMetaData)
    rest_of fuel files none = some files
    rest_of fuel files (some f) =
        add_boundary_loop ucmp fuel level_files f.largest (files ++ f ∷ [])

    step_lem :
        (fuel : ℕ) (files : List FileMetaData) (r : Option FileMetaData)
        → (elim r [
          | none ↦ some files
          | some f ↦ add_boundary_loop ucmp fuel level_files f.largest (files ++ f ∷ [])
        ])
          ≡ rest_of fuel files r
    step_lem fuel files none = refl
    step_lem fuel files (some f) = refl

    pub loop_step :
        (fuel : ℕ) (l : Bytes) (files : List FileMetaData)
        → add_boundary_loop ucmp (suc fuel) level_files l files
          ≡ rest_of fuel files (find_smallest_boundary_file ucmp level_files l)
    unfolding add_boundary_loop
    loop_step fuel l files = step_lem fuel files (find_smallest_boundary_file ucmp level_files l)

    -- A boundary file ends after the key that it was found for.
    ends_above :
        (l : Bytes) (f : FileMetaData)
        → AreRanges
        → In f level_files
        → is_boundary ucmp l f ≡ true
        → is_gt (internal_compare ucmp f.largest l) ≡ true
    unfolding internal_comparator
    ends_above l f ranges inside h =
        above_by (internal_comparator ucmp) (internal_compare-IsOrder ucmp o) l f.smallest f.largest
          (and_left (is_gt (internal_compare ucmp f.smallest l))
            (is_eq (ucmp.compare (extract_user_key f.smallest) (extract_user_key l))) h)
          (All-at (λ g. is_gt (internal_compare ucmp g.smallest g.largest) ≡ false) f level_files
            inside ranges)

    room_shrinks :
        (l : Bytes) (f : FileMetaData)
        → AreRanges
        → In f level_files
        → is_boundary ucmp l f ≡ true
        → room f.largest < room l
    unfolding internal_comparator
    room_shrinks l f ranges inside h =
        count-lt (λ g. is_gt (internal_compare ucmp g.smallest f.largest))
          (λ g. is_gt (internal_compare ucmp g.smallest l)) f level_files inside
          (All-at (λ g. is_gt (internal_compare ucmp g.smallest g.largest) ≡ false) f level_files
            inside ranges)
          (and_left (is_gt (internal_compare ucmp f.smallest l))
            (is_eq (ucmp.compare (extract_user_key f.smallest) (extract_user_key l))) h)
          (λ g.
            above_trans (internal_comparator ucmp) (internal_compare-IsOrder ucmp o) l f.largest
              g.smallest (ends_above l f ranges inside h))

    add_front :
        (files : List FileMetaData) (f : FileMetaData) (result : Option (List FileMetaData))
        → In f level_files
        → Bounded (files ++ f ∷ []) result
        → Bounded files result
    add_front files f result inside b = record {
      added = f ∷ b.added;
      largest_key = b.largest_key;
      result_lem = b.result_lem ∙ ap some (append_assoc files (f ∷ []) b.added);
      from_level = (inside, b.from_level);
      largest_lem =
          ap (find_largest_key ucmp) (sym (append_assoc files (f ∷ []) b.added)) ∙ b.largest_lem;
      none_left = b.none_left;
    }

    rest-Bounded :
        (fuel : ℕ) (l : Bytes) (files : List FileMetaData) (r : Option FileMetaData)
        → AreRanges
        → find_largest_key ucmp files ≡ some l
        → room l < suc fuel
        → ((l' : Bytes) (files' : List FileMetaData)
            → find_largest_key ucmp files' ≡ some l'
            → room l' < fuel
            → Bounded files' (add_boundary_loop ucmp fuel level_files l' files'))
        → Searched l none level_files r
        → Bounded files (rest_of fuel files r)
    rest-Bounded fuel l files none ranges largest enough ih (_, all) = record {
      added = [];
      largest_key = l;
      result_lem = ap some (sym (append-nil files));
      from_level = tt;
      largest_lem = ap (find_largest_key ucmp) (append-nil files) ∙ largest;
      none_left = all;
    }
    rest-Bounded fuel l files (some f) ranges largest enough ih (inl e) =
        absurd (not_none f (sym e))
    rest-Bounded fuel l files (some f) ranges largest enough ih (inr (inside, h)) =
        add_front files f (add_boundary_loop ucmp fuel level_files f.largest (files ++ f ∷ []))
          inside
          (ih f.largest (files ++ f ∷ [])
            (largest_next files l f largest (ends_above l f ranges inside h))
            (omega (arith, room_shrinks l f ranges inside h)))

    loop-Bounded :
        (fuel : ℕ) (l : Bytes) (files : List FileMetaData)
        → AreRanges
        → find_largest_key ucmp files ≡ some l
        → room l < fuel
        → Bounded files (add_boundary_loop ucmp fuel level_files l files)
    loop-Bounded zero l files ranges largest enough = absurd (omega arith)
    loop-Bounded (suc fuel) l files ranges largest enough =
        subst (Bounded files) (sym (loop_step fuel l files)) (
          rest-Bounded fuel l files (find_smallest_boundary_file ucmp level_files l) ranges largest
            enough
            (λ l' files' largest' enough'. loop-Bounded fuel l' files' ranges largest' enough')
            (find-Searched level_files l))

    -- Over a user comparator that is a total order and a level whose files end no earlier than they
    -- start: AddBoundaryInputs ends, adds files of the level only, and leaves no file of the level
    -- that starts after the largest key of the compaction's files with the same user key.
    pub add_boundary_inputs-Bounded :
        (f : FileMetaData) (files : List FileMetaData)
        → AreRanges
        → Bounded (f ∷ files) (add_boundary_inputs ucmp level_files (f ∷ files))
    unfolding add_boundary_inputs find_largest_key
    add_boundary_inputs-Bounded f files ranges =
        let l = largest_from ucmp f.largest files in
        loop-Bounded (suc (length level_files)) l (f ∷ files) ranges refl (
          omega (arith, count-length (λ g. is_gt (internal_compare ucmp g.smallest l)) level_files))
