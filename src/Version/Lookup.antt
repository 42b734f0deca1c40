-- ===== src/Version/Lookup.antt =====
-- Version::Get and ForEachOverlapping of leveldb学习/manifest/version_set.c.
use study_history.Prelude.{
  ℕ, suc, ◌≡◌, refl, sym, ap, ◌∙◌, List, [], ◌∷◌, Bool, true, false, Option, none, some,
  if◌then◌else◌, get_elem?, filter, sort,
}
use study_history.Coding.{Bytes}
use study_history.Comparator.{Comparator}
use study_history.VersionEdit.{FileMetaData}
use study_history.FileSet.{find_file}
use study_history.Version.{
  newest_first, covers, is_past, visit_files, visit_levels, for_each_overlapping, TableRead, Answer,
  key_missing, Reading, get_file, get_files, files_to_search, get_levels, get,
}

abbrev pub is_none : {A : Type 0} → Option A → Bool
is_none none = true
is_none (some a) = false

-- The status of a lookup that may not have found anything.
abbrev pub finished : {E : Type 0} → Reading × Option (Answer E) → Reading × Answer E
finished (r, none) = (r, key_missing)
finished (r, some answer) = (r, answer)

module _ (ucmp : Comparator) {E : Type 0} (table_get : ℕ → ℕ → Bytes → TableRead E)
    (ikey user_key : Bytes) where
  -- Get's loop body as a callback of ForEachOverlapping.
  abbrev pub ask_file :
      Reading × Option (Answer E) → ℕ → FileMetaData → (Reading × Option (Answer E)) × Bool
  ask_file s level f =
      let (r, answered) = get_file ucmp table_get ikey user_key s.0 level f in
      ((r, answered), is_none answered)

  abbrev closed : Reading × Option (Answer E) → (Reading × Option (Answer E)) × Bool
  closed g = (g, is_none g.1)

  -- What Get's loop over some files makes of a callback's state.
  abbrev asked : ℕ → List FileMetaData → Reading → (Reading × Option (Answer E)) × Bool
  asked level files r = closed (get_files ucmp table_get ikey user_key level files r)

  resumed_files :
      (level : ℕ) (files : List FileMetaData) (r : Reading) (a : Option (Answer E))
      → visit_files ucmp ask_file level files (r, none) ≡ asked level files r
      → (elim (is_none a) [
        | true ↦ visit_files ucmp ask_file level files (r, a)
        | false ↦ ((r, a), false)
      ])
        ≡ closed (elim a [
          | none ↦ get_files ucmp table_get ikey user_key level files r
          | some x ↦ (r, some x)
        ])
  resumed_files level files r none ih = ih
  resumed_files level files r (some x) ih = refl

  visit_files_lem :
      (level : ℕ) (files : List FileMetaData) (r : Reading)
      → visit_files ucmp ask_file level files (r, none) ≡ asked level files r
  unfolding visit_files get_files get_file
  visit_files_lem level [] r = refl
  visit_files_lem level (f ∷ files) r =
      let (r', a) = get_file ucmp table_get ikey user_key r level f in
      resumed_files level files r' a (visit_files_lem level files r')

  -- What Get does after the files of a level.
  abbrev then_levels :
      ℕ → List (List FileMetaData) → Reading × Option (Answer E) → Reading × Answer E
  then_levels level levels (r, none) = get_levels ucmp table_get ikey user_key level levels r
  then_levels level levels (r, some x) = (r, x)

  -- A callback's state after it stopped or went on, and Get's.
  resumed_levels :
      (level : ℕ) (levels : List (List FileMetaData)) (r : Reading) (a : Option (Answer E))
      → finished (visit_levels ucmp ask_file user_key ikey level levels (r, none))
        ≡ get_levels ucmp table_get ikey user_key level levels r
      → finished (elim (is_none a) [
        | true ↦ visit_levels ucmp ask_file user_key ikey level levels (r, a)
        | false ↦ (r, a)
      ])
        ≡ then_levels level levels (r, a)
  resumed_levels level levels r none ih = ih
  resumed_levels level levels r (some x) ih = refl

  unchanged :
      (r : Reading) (a : Option (Answer E))
      → ◌≡◌ {A = Reading × Option (Answer E)}
          (r, a)
          (elim a [ none ↦ (r, none) | some x ↦ (r, some x) ])
  unchanged r none = refl
  unchanged r (some x) = refl

  then_levels_lem :
      (level : ℕ) (levels : List (List FileMetaData)) (r : Reading) (a : Option (Answer E))
      → (elim a [ none ↦ get_levels ucmp table_get ikey user_key level levels r | some x ↦ (r, x) ])
        ≡ then_levels level levels (r, a)
  then_levels_lem level levels r none = refl
  then_levels_lem level levels r (some x) = refl

  get_levels-then :
      (level : ℕ) (files : List FileMetaData) (levels : List (List FileMetaData)) (r : Reading)
      → get_levels ucmp table_get ikey user_key level (files ∷ levels) r
        ≡ then_levels (suc level) levels (
            get_files ucmp table_get ikey user_key level
              (files_to_search ucmp ikey user_key level files)
              r)
  unfolding get_levels
  get_levels-then level files levels r =
      let (r', a) =
        get_files ucmp table_get ikey user_key level
          (files_to_search ucmp ikey user_key level files) r in
      then_levels_lem (suc level) levels r' a

  one_level :
      (level : ℕ) (levels : List (List FileMetaData)) (r : Reading) (o : Option FileMetaData)
      → ((s : Reading)
          → finished (visit_levels ucmp ask_file user_key ikey (suc (suc level)) levels (s, none))
            ≡ get_levels ucmp table_get ikey user_key (suc (suc level)) levels s)
      → finished (elim o [
        | none ↦ visit_levels ucmp ask_file user_key ikey (suc (suc level)) levels (r, none)
        | some f ↦ elim (is_past ucmp user_key f) [
          | true ↦ visit_levels ucmp ask_file user_key ikey (suc (suc level)) levels (r, none)
          | false ↦
              (let (s', more) = ask_file (r, none) (suc level) f in
                elim more [
                  | true ↦ visit_levels ucmp ask_file user_key ikey (suc (suc level)) levels s'
                  | false ↦ s'
                ])
        ]
      ])
        ≡ then_levels (suc (suc level)) levels (
            get_files ucmp table_get ikey user_key
              (suc level)
              (elim o [ none ↦ [] | some f ↦ if is_past ucmp user_key f then [] else f ∷ [] ])
              r)
  unfolding get_files
  one_level level levels r none ih = ih r
  one_level level levels r (some f) ih =
      let (r', a) = get_file ucmp table_get ikey user_key r (suc level) f in
      elim (is_past ucmp user_key f)
        as (λ b.
          finished (elim b [
            | true ↦ visit_levels ucmp ask_file user_key ikey (suc (suc level)) levels (r, none)
            | false ↦
                (let (s', more) = ask_file (r, none) (suc level) f in
                  elim more [
                    | true ↦ visit_levels ucmp ask_file user_key ikey (suc (suc level)) levels s'
                    | false ↦ s'
                  ])
          ])
          ≡ then_levels (suc (suc level)) levels
              (get_files ucmp table_get ikey user_key (suc level) (if b then [] else f ∷ []) r)) [
                | true ↦ ih r
                | false ↦
                    resumed_levels (suc (suc level)) levels r' a (ih r')
                    ∙ ap (then_levels (suc (suc level)) levels) (unchanged r' a)
              ]

  visit_levels_lem :
      (level : ℕ) (levels : List (List FileMetaData)) (r : Reading)
      → finished (visit_levels ucmp ask_file user_key ikey (suc level) levels (r, none))
        ≡ get_levels ucmp table_get ikey user_key (suc level) levels r
  unfolding visit_levels get_levels get_files files_to_search
  visit_levels_lem level [] r = refl
  visit_levels_lem level (files ∷ levels) r =
      one_level level levels r (get_elem? files (find_file ucmp files ikey))
        (λ s. visit_levels_lem (suc level) levels s)
      ∙ sym (get_levels-then (suc level) files levels r)

  -- Version::Get is ForEachOverlapping with Get's loop body as its callback: it reads the same
  -- tables in the same order, charges the same file for the seeks and answers the same.
  pub get-for_each_overlapping :
      (levels : List (List FileMetaData))
      → get ucmp table_get ikey user_key levels
        ≡ finished (
            for_each_overlapping ucmp ask_file user_key ikey levels
              (record { seek_file = none; last_file_read = none }, none))
  unfolding get get_levels files_to_search for_each_overlapping
  get-for_each_overlapping [] = refl
  get-for_each_overlapping (files ∷ levels) =
      let start : Reading = record { seek_file = none; last_file_read = none } in
      let files' = sort newest_first (filter (covers ucmp user_key) files) in
      let (r, a) = get_files ucmp table_get ikey user_key 0 files' start in
      get_levels-then 0 files levels start
      ∙ sym (
          ap
            (λ (s : (Reading × Option (Answer E)) × Bool). finished (elim s.1 [
              | true ↦ visit_levels ucmp ask_file user_key ikey 1 levels s.0
              | false ↦ s.0
            ]))
            (visit_files_lem 0 files' start)
          ∙ resumed_levels 1 levels r a (visit_levels_lem 0 levels r))
