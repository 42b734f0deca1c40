-- ===== src/Inputs/Widening.antt =====
-- One pass of GetOverlappingInputs over the files of level 0: leveldb学习/manifest/version_set.c.
use study_history.Prelude.{
  ◌≤◌, ◌<◌, ◌≡◌, ◌⊎◌, inl, inr, refl, sym, ◌∙◌, subst, arith, List, [], ◌∷◌, ◌++◌, Bool, true,
  false, not, Option, none, some, All, filter, count, length, append-nil, append_assoc,
}
use study_history.Coding.{Bytes}
use study_history.Comparator.{Comparator}
use study_history.DbFormat.{extract_user_key}
use study_history.VersionEdit.{FileMetaData}
use study_history.FileSet.{is_lt, is_gt}
use study_history.Inputs.{Scan, collected, widened, is_apart, starts_before, ends_after, scan_files}

module _ {A : Type 0} where
  abbrev pub In : A → List A → Type 0
  In x [] = ⊥
  In x (y ∷ ys) = (x ≡ y) ⊎ In x ys

  pub count-le :
      (p q : A → Bool) (xs : List A) → ((x : A) → p x ≡ true → q x ≡ true) → count p xs ≤ count q xs
  count-le p q [] imp = omega arith
  count-le p q (x ∷ xs) imp = let ih = count-le p q xs imp in let here = imp x in ground (arith)

  pub count-lt :
      (p q : A → Bool) (x : A) (xs : List A)
      → In x xs
      → p x ≡ false
      → q x ≡ true
      → ((y : A) → p y ≡ true → q y ≡ true)
      → count p xs < count q xs
  count-lt p q x [] inside not_p is_q imp = absurd inside
  count-lt p q x (y ∷ ys) (inl e) not_p is_q imp =
      let ih = count-le p q ys imp in
      let not_p' = subst (λ z. p z ≡ false) e not_p in
      let is_q' = subst (λ z. q z ≡ true) e is_q in ground (arith)
  count-lt p q x (y ∷ ys) (inr later) not_p is_q imp =
      let ih = count-lt p q x ys later not_p is_q imp in let here = imp y in ground (arith)

  pub count-length : (p : A → Bool) (xs : List A) → count p xs ≤ length xs
  count-length p [] = omega arith
  count-length p (x ∷ xs) = let ih = count-length p xs in ground (arith)

  pub All-at : (P : A → Type 0) (x : A) (xs : List A) → In x xs → All P xs → P x
  All-at P x [] inside all = absurd inside
  All-at P x (y ∷ ys) (inl e) (head, tail) = subst P (sym e) head
  All-at P x (y ∷ ys) (inr later) (head, tail) = All-at P x ys later tail

module _ (ucmp : Comparator) where
  -- A bound that lets in at least as much as another; `none` is no bound.
  abbrev pub Earlier : Option Bytes → Option Bytes → Type 0
  Earlier none b = Unit
  Earlier (some wide) none = ⊥
  Earlier (some wide) (some b) = is_gt (ucmp.compare wide b) ≡ false

  abbrev pub Later : Option Bytes → Option Bytes → Type 0
  Later none e = Unit
  Later (some wide) none = ⊥
  Later (some wide) (some e) = is_lt (ucmp.compare wide e) ≡ false

  -- The file is apart from the range or within it.
  abbrev pub IsSettled : Option Bytes → Option Bytes → FileMetaData → Type 0
  IsSettled b e f =
      (is_apart ucmp b e f ≡ true)
      ⊎ ((starts_before ucmp b f ≡ false) × (ends_after ucmp e f ≡ false))

  -- What a pass over the files ends with.
  abbrev pub Outcome :
      Option Bytes → Option Bytes → List FileMetaData → List FileMetaData → Scan → Type 0
  Outcome b e inputs files (collected found) =
      (found ≡ inputs ++ filter (λ f. not (is_apart ucmp b e f)) files) × All (IsSettled b e) files
  Outcome b e inputs files (widened b' e') =
      (f : FileMetaData) × In f files
      × (is_apart ucmp b e f ≡ false)
      × (((b' ≡ some (extract_user_key f.smallest)) × (e' ≡ e) × (starts_before ucmp b f ≡ true))
          ⊎ ((b' ≡ b) × (e' ≡ some (extract_user_key f.largest)) × (ends_after ucmp e f ≡ true)))

  passes :
      (b e : Option Bytes) (inputs : List FileMetaData) (f : FileMetaData)
      (files : List FileMetaData) (r : Scan)
      → is_apart ucmp b e f ≡ true
      → Outcome b e inputs files r
      → Outcome b e inputs (f ∷ files) r
  passes b e inputs f files (collected found) h (same, settled) = (rw h same, (inl h, settled))
  passes b e inputs f files (widened b' e') h (g, inside, near, grown) =
      (g, inr inside, near, grown)

  takes :
      (b e : Option Bytes) (inputs : List FileMetaData) (f : FileMetaData)
      (files : List FileMetaData) (r : Scan)
      → is_apart ucmp b e f ≡ false
      → (starts_before ucmp b f ≡ false) × (ends_after ucmp e f ≡ false)
      → Outcome b e (inputs ++ f ∷ []) files r
      → Outcome b e inputs (f ∷ files) r
  takes b e inputs f files (collected found) h within (same, settled) = (
    rw h (same ∙ append_assoc inputs (f ∷ []) (filter (λ g. not (is_apart ucmp b e g)) files)),
    (inr within, settled),
  )
  takes b e inputs f files (widened b' e') h within (g, inside, near, grown) =
      (g, inr inside, near, grown)

  pub scan_files-Outcome :
      (b e : Option Bytes) (inputs files : List FileMetaData)
      → Outcome b e inputs files (scan_files ucmp true b e inputs files)
  unfolding scan_files
  scan_files-Outcome b e inputs [] = (sym (append-nil inputs), tt)
  scan_files-Outcome b e inputs (f ∷ files) =
      let apart = is_apart ucmp b e f in
      let starts = starts_before ucmp b f in
      let ends = ends_after ucmp e f in
      elim apart
          as (λ a.
            apart ≡ a
            → Outcome b e inputs (f ∷ files) (elim a [
              | true ↦ scan_files ucmp true b e inputs files
              | false ↦ elim starts [
                | true ↦ widened (some (extract_user_key f.smallest)) e
                | false ↦ elim ends [
                  | true ↦ widened b (some (extract_user_key f.largest))
                  | false ↦ scan_files ucmp true b e (inputs ++ f ∷ []) files
                ]
              ]
            ])) [
              | true ↦ λ h.
                  passes b e inputs f files (scan_files ucmp true b e inputs files) h
                    (scan_files-Outcome b e inputs files)
              | false ↦ λ h.
                  elim starts
                      as (λ a.
                        starts ≡ a
                        → Outcome b e inputs (f ∷ files) (elim a [
                          | true ↦ widened (some (extract_user_key f.smallest)) e
                          | false ↦ elim ends [
                            | true ↦ widened b (some (extract_user_key f.largest))
                            | false ↦ scan_files ucmp true b e (inputs ++ f ∷ []) files
                          ]
                        ])) [
                          | true ↦ λ h'. (f, inl refl, h, inl (refl, refl, h'))
                          | false ↦ λ h'.
                              elim ends
                                  as (λ a.
                                    ends ≡ a
                                    → Outcome b e inputs (f ∷ files) (elim a [
                                      | true ↦ widened b (some (extract_user_key f.largest))
                                      | false ↦ scan_files ucmp true b e (inputs ++ f ∷ []) files
                                    ])) [
                                      | true ↦ λ h''. (f, inl refl, h, inr (refl, refl, h''))
                                      | false ↦ λ h''.
                                          takes b e inputs f files
                                            (scan_files ucmp true b e (inputs ++ f ∷ []) files) h
                                            (h', h'')
                                            (scan_files-Outcome b e (inputs ++ f ∷ []) files)
                                    ]
                                refl
                        ]
                    refl
            ]
        refl
