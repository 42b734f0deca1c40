-- ===== src/VersionBuilder/Applied.antt =====
-- VersionSet::Builder: what Apply makes of the levels.
use study_history.Prelude.{
  ℕ, zero, suc, ◌<◌, ◌≡◌, ◌⊎◌, inl, inr, refl, sym, ap, ◌∙◌, subst, arith, List, [], ◌∷◌, Bool,
  true, false, not, ◌&&◌, ◌||◌, ◌==◌, length, length-set, get_or, set, ==_iff, Bool-cases,
}
use study_history.Comparator.{Comparator}
use study_history.VersionEdit.{FileMetaData, VersionEdit}
use study_history.VersionBuilder.{
  contains, insert_number, erase_number, LevelState, empty_level, Builder, level_state,
  apply_deleted, add_new_file, apply_new, apply,
}

-- Whether an edit names a file of a level.
abbrev pub names_file : List (ℕ × ℕ) → ℕ → ℕ → Bool
names_file [] level number = false
names_file ((l, n) ∷ rest) level number =
    ((l == level) && (n == number)) || names_file rest level number

abbrev pub names_new : List (ℕ × FileMetaData) → ℕ → ℕ → Bool
names_new [] level number = false
names_new ((l, f) ∷ rest) level number =
    ((l == level) && (f.number == number)) || names_new rest level number

absorbs : (a b : Bool) → (b ≡ true → a ≡ true) → a ≡ a || b
absorbs a b h = ground (arith, h)

swapped : (a b : Bool) → b || a ≡ a || b
swapped a b = ground (arith)

contains-insert_number :
    (numbers : List ℕ) (n m : ℕ)
    → contains (insert_number numbers n) m ≡ contains numbers m || (n == m)
contains-insert_number numbers n m = elim (Bool-cases (contains numbers n)) [
  | inl h ↦ rw h (
      absorbs (contains numbers m) (n == m)
        (λ e. subst (λ k. contains numbers k ≡ true) ((==_iff n m).0 e) h))
  | inr h ↦ rw h (swapped (contains numbers m) (n == m))
]

contains-erase_number :
    (numbers : List ℕ) (n m : ℕ)
    → contains (erase_number numbers n) m ≡ contains numbers m && not (n == m)
contains-erase_number [] n m = refl
contains-erase_number (k ∷ numbers) n m =
    let ih = contains-erase_number numbers n m in ground (arith)

module _ {ℓ} {A : Type ℓ} where
  pub get_or-set_cases :
      (xs : List A) (i j : ℕ) (v d : A)
      → (get_or (set xs i v) j d ≡ get_or xs j d) ⊎ ((get_or (set xs i v) j d ≡ v) × (i ≡ j))
  get_or-set_cases [] i j v d = inl refl
  get_or-set_cases (x ∷ xs) zero zero v d = inr (refl, refl)
  get_or-set_cases (x ∷ xs) zero (suc j) v d = inl refl
  get_or-set_cases (x ∷ xs) (suc i) zero v d = inl refl
  get_or-set_cases (x ∷ xs) (suc i) (suc j) v d = elim (get_or-set_cases xs i j v d) [
    | inl e ↦ inl e
    | inr (e, same) ↦ inr (e, ap suc same)
  ]

  -- A write in range is seen at its index, and nowhere else.
  pub get_or-set :
      (xs : List A) (i j : ℕ) (v d : A)
      → j < length xs
      → (((i == j) ≡ true) × (get_or (set xs i v) j d ≡ v))
        ⊎ (((i == j) ≡ false) × (get_or (set xs i v) j d ≡ get_or xs j d))
  get_or-set [] i j v d h = absurd (omega arith)
  get_or-set (x ∷ xs) zero zero v d h = inl (refl, refl)
  get_or-set (x ∷ xs) zero (suc j) v d h = inr (ground arith, refl)
  get_or-set (x ∷ xs) (suc i) zero v d h = inr (ground arith, refl)
  get_or-set (x ∷ xs) (suc i) (suc j) v d h = elim (get_or-set xs i j v d (omega arith)) [
    | inl (same, e) ↦ inl (ground arith, e)
    | inr (other, e) ↦ inr (ground arith, e)
  ]

pub length-apply_deleted :
    (levels : List LevelState) (deleted : List (ℕ × ℕ))
    → length (apply_deleted levels deleted) ≡ length levels
unfolding apply_deleted
length-apply_deleted levels [] = refl
length-apply_deleted levels ((l, n) ∷ rest) =
    let state = level_state levels l in
    let v = record state { deleted_files = insert_number state.deleted_files n } in
    length-apply_deleted (set levels l v) rest ∙ length-set levels l v

pub joins : (a b c d : Bool) → c ≡ true → a ≡ b → a || d ≡ b || (c && d)
joins a b c d h e = ground (arith, h, e)

pub ignores : (a c d : Bool) → c ≡ false → a ≡ a || (c && d)
ignores a c d h = ground (arith, h)

pub regroups : (a b c : Bool) → (a || b) || c ≡ a || (b || c)
regroups a b c = ground arith

pub or_false : (a : Bool) → a ≡ a || false
or_false a = ground arith

named_step :
    (l level n number : ℕ) (levels : List LevelState) (v : LevelState)
    → v.deleted_files ≡ insert_number (level_state levels l).deleted_files n
    → level < length levels
    → contains (level_state (set levels l v) level).deleted_files number
      ≡ contains (level_state levels level).deleted_files number || ((l == level) && (n == number))
named_step l level n number levels v inserted h = elim (get_or-set levels l level v empty_level h) [
  | inl (same, e) ↦
      ap (λ (s : LevelState). contains s.deleted_files number) e
      ∙ ap (λ d. contains d number) inserted
      ∙ contains-insert_number (level_state levels l).deleted_files n number
      ∙ joins (contains (level_state levels l).deleted_files number)
          (contains (level_state levels level).deleted_files number) (l == level) (n == number) same
          (ap (λ k. contains (level_state levels k).deleted_files number) ((==_iff l level).0 same))
  | inr (other, e) ↦
      ap (λ (s : LevelState). contains s.deleted_files number) e
      ∙ ignores (contains (level_state levels level).deleted_files number) (l == level)
          (n == number) other
]

apply_deleted-names :
    (levels : List LevelState) (deleted : List (ℕ × ℕ)) (level number : ℕ)
    → level < length levels
    → contains (level_state (apply_deleted levels deleted) level).deleted_files number
      ≡ contains (level_state levels level).deleted_files number || names_file deleted level number
unfolding apply_deleted
apply_deleted-names levels [] level number h =
    or_false (contains (level_state levels level).deleted_files number)
apply_deleted-names levels ((l, n) ∷ rest) level number h =
    let state = level_state levels l in
    let v = record state { deleted_files = insert_number state.deleted_files n } in
    apply_deleted-names (set levels l v) rest level number
      (subst (λ k. level < k) (sym (length-set levels l v)) h)
    ∙ ap (λ b. b || names_file rest level number) (named_step l level n number levels v refl h)
    ∙ regroups (contains (level_state levels level).deleted_files number)
        ((l == level) && (n == number)) (names_file rest level number)

removes : (a b c d : Bool) → c ≡ true → a ≡ b → a && not d ≡ b && not (c && d)
removes a b c d h e = ground (arith, h, e)

leaves : (a c d : Bool) → c ≡ false → a ≡ a && not (c && d)
leaves a c d h = ground (arith, h)

narrows : (a b c : Bool) → (a && not b) && not c ≡ a && not (b || c)
narrows a b c = ground arith

and_true : (a : Bool) → a ≡ a && not false
and_true a = ground arith

erased_step :
    (l level n number : ℕ) (levels : List LevelState) (v : LevelState)
    → v.deleted_files ≡ erase_number (level_state levels l).deleted_files n
    → level < length levels
    → contains (level_state (set levels l v) level).deleted_files number
      ≡ contains (level_state levels level).deleted_files number
        && not ((l == level) && (n == number))
erased_step l level n number levels v erased h = elim (get_or-set levels l level v empty_level h) [
  | inl (same, e) ↦
      ap (λ (s : LevelState). contains s.deleted_files number) e
      ∙ ap (λ d. contains d number) erased
      ∙ contains-erase_number (level_state levels l).deleted_files n number
      ∙ removes (contains (level_state levels l).deleted_files number)
          (contains (level_state levels level).deleted_files number) (l == level) (n == number) same
          (ap (λ k. contains (level_state levels k).deleted_files number) ((==_iff l level).0 same))
  | inr (other, e) ↦
      ap (λ (s : LevelState). contains s.deleted_files number) e
      ∙ leaves (contains (level_state levels level).deleted_files number) (l == level) (n == number)
          other
]

module _ (ucmp : Comparator) where
  apply_new-names :
      (levels : List LevelState) (added : List (ℕ × FileMetaData)) (level number : ℕ)
      → level < length levels
      → contains (level_state (apply_new ucmp levels added) level).deleted_files number
        ≡ contains (level_state levels level).deleted_files number
          && not (names_new added level number)
  unfolding apply_new add_new_file
  apply_new-names levels [] level number h =
      and_true (contains (level_state levels level).deleted_files number)
  apply_new-names levels ((l, f) ∷ rest) level number h =
      let v = add_new_file ucmp (level_state levels l) f in
      apply_new-names (set levels l v) rest level number
        (subst (λ k. level < k) (sym (length-set levels l v)) h)
      ∙ ap (λ b. b && not (names_new rest level number))
          (erased_step l level f.number number levels v refl h)
      ∙ narrows (contains (level_state levels level).deleted_files number)
          ((l == level) && (f.number == number)) (names_new rest level number)

  -- After an edit is applied, a file counts as deleted from a level if it did before or the edit
  -- deletes it there, and the edit does not add it there.
  pub apply-deletes :
      (b : Builder) (edit : VersionEdit) (level number : ℕ)
      → level < length b.levels
      → contains (level_state (apply ucmp b edit).levels level).deleted_files number
        ≡ (contains (level_state b.levels level).deleted_files number
            || names_file edit.deleted_files level number)
          && not (names_new edit.new_files level number)
  unfolding apply
  apply-deletes b edit level number h =
      apply_new-names (apply_deleted b.levels edit.deleted_files) edit.new_files level number
        (subst (λ k. level < k) (sym (length-apply_deleted b.levels edit.deleted_files)) h)
      ∙ ap (λ c. c && not (names_new edit.new_files level number))
          (apply_deleted-names b.levels edit.deleted_files level number h)
