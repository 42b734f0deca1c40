-- ===== src/Compaction/BaseLevel.antt =====
-- IsBaseLevelForKey of leveldb学习/manifest/version_set.c and its pointers into the deeper levels.
use study_history.Prelude.{
  ℕ, zero, suc, ◌+◌, ◌-◌, ◌≤◌, ◌≡◌, inl, inr, refl, sym, ap, ◌∙◌, subst, arith, List, [], ◌∷◌, ◌++◌,
  Bool, true, false, not, ◌&&◌, ◌||◌, All, All-append, take, drop, take-append-drop, get_or, set,
}
use study_history.Coding.{Bytes}
use study_history.Comparator.{Comparator, IsOrder}
use study_history.DbFormat.{extract_user_key}
use study_history.VersionEdit.{FileMetaData, num_levels}
use study_history.FileSet.{is_lt, is_gt}
use study_history.Version.{covers}
use study_history.VersionBuilder.Applied.{get_or-set_cases}
use study_history.Compaction.{Compaction, files_at}
use study_history.Compaction.Running.{advance_ptr, base_loop, is_base_level_for_key}

take-nil : {A : Type 0} (n : ℕ) → take {A = A} n [] ≡ []
take-nil zero = refl
take-nil (suc n) = refl

take-add : {A : Type 0} (a b : ℕ) (xs : List A) → take (a + b) xs ≡ take a xs ++ take b (drop a xs)
take-add zero b xs = ap (λ n. take n xs) {x = 0 + b} {y = b} (omega arith)
take-add (suc a) b [] =
    ap (λ n. take n []) {x = suc a + b} {y = suc (a + b)} (omega arith) ∙ sym (take-nil b)
take-add (suc a) b (x ∷ xs) =
    ap (λ n. take n (x ∷ xs)) {x = suc a + b} {y = suc (a + b)} (omega arith)
    ∙ ap (◌∷◌ x) (take-add a b xs)

-- The two ways of a round of IsBaseLevelForKey's inner loop.
abbrev pair : Bool → ℕ × Bool → ℕ × Bool → ℕ × Bool
pair b stop go = elim b [ true ↦ stop | false ↦ go ]

abbrev stopped : Bool → List ℕ × Bool → List ℕ × Bool → List ℕ × Bool
stopped b stop go = elim b [ true ↦ stop | false ↦ go ]

after_passed : (lt any : Bool) → {r : Bool} → r ≡ any → r ≡ (not lt && false) || any
after_passed true any e = e
after_passed false any e = e

module _ (ucmp : Comparator) (user_key : Bytes) where
  abbrev pub any_covers : List FileMetaData → Bool
  any_covers [] = false
  any_covers (f ∷ files) = covers ucmp user_key f || any_covers files

  -- Whether a file of so many levels from one on covers the key.
  abbrev pub any_level_covers : List (List FileMetaData) → ℕ → ℕ → Bool
  any_level_covers levels lvl zero = false
  any_level_covers levels lvl (suc left) =
      any_covers (files_at levels lvl) || any_level_covers levels (lvl + 1) left

  -- The key is after the whole file.
  abbrev pub IsPassed : FileMetaData → Type 0
  IsPassed f = is_gt (ucmp.compare user_key (extract_user_key f.largest)) ≡ true

  -- The files before the pointers of all levels are passed.
  abbrev pub Passed : List (List FileMetaData) → List ℕ → Type 0
  Passed levels level_ptrs =
      (lvl : ℕ) → All IsPassed (take (get_or level_ptrs lvl 0) (files_at levels lvl))

  -- The files of a level start one after the other.
  abbrev pub Spread : List FileMetaData → Type 0
  Spread [] = Unit
  Spread (f ∷ files) =
      All
        (λ g.
          is_gt (ucmp.compare (extract_user_key f.smallest) (extract_user_key g.smallest)) ≡ false)
        files
      × Spread files

  Spread-drop : (n : ℕ) (files : List FileMetaData) → Spread files → Spread (drop n files)
  Spread-drop zero files s = s
  Spread-drop (suc n) [] s = tt
  Spread-drop (suc n) (f ∷ files) (_, s) = Spread-drop n files s

  passed-any :
      (files rest : List FileMetaData)
      → All IsPassed files
      → any_covers (files ++ rest) ≡ any_covers rest
  passed-any [] rest _ = refl
  passed-any (f ∷ files) rest (head, tail) =
      let ih = passed-any files rest tail in ground (arith, head, ih)

  advance_ptr-passes :
      (ptr : ℕ) (files : List FileMetaData)
      → (k : ℕ) × ((advance_ptr ucmp user_key ptr files).0 ≡ ptr + k) × All IsPassed (take k files)
  unfolding advance_ptr
  advance_ptr-passes ptr [] = (0, omega arith, tt)
  advance_ptr-passes ptr (f ∷ files) =
      let gt = is_gt (ucmp.compare user_key (extract_user_key f.largest)) in
      let here = not (is_lt (ucmp.compare user_key (extract_user_key f.smallest))) in
      elim gt
          as (λ b.
            gt ≡ b
            → (k : ℕ) × ((pair (not b) (ptr, here) (advance_ptr ucmp user_key (ptr + 1) files)).0
                ≡ ptr + k)
              × All IsPassed (take k (f ∷ files))) [
                | true ↦ λ h.
                    (let (k, e, all) = advance_ptr-passes (ptr + 1) files in
                      (suc k, omega (arith, e), (h, all)))
                | false ↦ λ h. (0, omega arith, tt)
              ]
        refl

  module _ (o : IsOrder ucmp) where
    none_after :
        (f : FileMetaData) (files : List FileMetaData)
        → is_lt (ucmp.compare user_key (extract_user_key f.smallest)) ≡ true
        → All
            (λ g.
              is_gt (ucmp.compare (extract_user_key f.smallest) (extract_user_key g.smallest))
              ≡ false)
            files
        → any_covers files ≡ false
    none_after f [] h _ = refl
    none_after f (g ∷ files) h (head, tail) =
        let ih = none_after f files h tail in
        let s = extract_user_key f.smallest in
        let t = extract_user_key g.smallest in
        ground (
          arith,
          head,
          ih,
          o.lt_trans user_key s t,
          o.eq_left s t user_key,
          o.flips user_key s,
          o.flips user_key t,
        )

    advance_ptr-any :
        (ptr : ℕ) (files : List FileMetaData)
        → Spread files
        → (advance_ptr ucmp user_key ptr files).1 ≡ any_covers files
    unfolding advance_ptr
    advance_ptr-any ptr [] _ = refl
    advance_ptr-any ptr (f ∷ files) (above, spread) =
        let lt = is_lt (ucmp.compare user_key (extract_user_key f.smallest)) in
        let gt = is_gt (ucmp.compare user_key (extract_user_key f.largest)) in
        elim gt
          as (λ b.
            (pair (not b) (ptr, not lt) (advance_ptr ucmp user_key (ptr + 1) files)).1
            ≡ (not lt && not b) || any_covers files) [
              | true ↦ after_passed lt (any_covers files) (advance_ptr-any (ptr + 1) files spread)
              | false ↦
                  elim lt as (λ b. lt ≡ b → not b ≡ (not b && true) || any_covers files) [
                    | true ↦ λ h. sym (none_after f files h above)
                    | false ↦ λ h. refl
                  ]
                    refl
            ]

    level_step :
        (levels : List (List FileMetaData)) (level_ptrs : List ℕ) (lvl : ℕ)
        → Passed levels level_ptrs
        → Spread (files_at levels lvl)
        → ((advance_ptr ucmp user_key
              (get_or level_ptrs lvl 0)
              (drop (get_or level_ptrs lvl 0) (files_at levels lvl))).1
            ≡ any_covers (files_at levels lvl))
          × Passed levels (
              set level_ptrs lvl
                (advance_ptr ucmp user_key
                  (get_or level_ptrs lvl 0)
                  (drop (get_or level_ptrs lvl 0) (files_at levels lvl))).0)
    level_step levels level_ptrs lvl passed spread =
        let ptr = get_or level_ptrs lvl 0 in
        let files = files_at levels lvl in
        let (k, e, more) = advance_ptr-passes ptr (drop ptr files) in
        let ptr' = (advance_ptr ucmp user_key ptr (drop ptr files)).0 in
        let all : All IsPassed (take ptr' files) =
          subst (λ n. All IsPassed (take n files)) (sym e)
            (subst (All IsPassed) (sym (take-add ptr k files))
              (All-append IsPassed (take ptr files) (take k (drop ptr files)) (passed lvl) more)) in
        (
          advance_ptr-any ptr (drop ptr files) (Spread-drop ptr files spread)
              ∙ sym (passed-any (take ptr files) (drop ptr files) (passed lvl))
              ∙ ap any_covers (take-append-drop ptr files),
          λ l. elim (get_or-set_cases level_ptrs lvl l ptr' 0) [
            | inl same ↦
                subst (λ n. All IsPassed (take n (files_at levels l))) (sym same) (passed l)
            | inr (new, here) ↦
                subst (λ n. All IsPassed (take n (files_at levels l))) (sym new)
                  (subst (λ m. All IsPassed (take ptr' (files_at levels m))) here all)
          ],
        )

    -- What the loop over the levels returns.
    abbrev Searched : List (List FileMetaData) → ℕ → ℕ → List ℕ × Bool → Type 0
    Searched levels lvl left (level_ptrs, base) =
        (base ≡ not (any_level_covers levels lvl left)) × Passed levels level_ptrs

    level-Searched :
        (levels : List (List FileMetaData)) (lvl left : ℕ) (level_ptrs : List ℕ) (inside any : Bool)
        → inside ≡ any
        → Passed levels level_ptrs
        → Searched levels (lvl + 1) left (base_loop ucmp levels user_key (lvl + 1) left level_ptrs)
        → ((stopped inside
              (level_ptrs, false)
              (base_loop ucmp levels user_key (lvl + 1) left level_ptrs)).1
            ≡ not (any || any_level_covers levels (lvl + 1) left))
          × Passed levels
              (stopped inside
                (level_ptrs, false)
                (base_loop ucmp levels user_key (lvl + 1) left level_ptrs)).0
    level-Searched levels lvl left level_ptrs true any e passed ih =
        (ap (λ b. not (b || any_level_covers levels (lvl + 1) left)) e, passed)
    level-Searched levels lvl left level_ptrs false any e passed (result, passed') =
        (result ∙ ap (λ b. not (b || any_level_covers levels (lvl + 1) left)) e, passed')

    base_loop-Searched :
        (levels : List (List FileMetaData)) (lvl left : ℕ) (level_ptrs : List ℕ)
        → Passed levels level_ptrs
        → ((l : ℕ) → lvl ≤ l → Spread (files_at levels l))
        → Searched levels lvl left (base_loop ucmp levels user_key lvl left level_ptrs)
    unfolding base_loop
    base_loop-Searched levels lvl zero level_ptrs passed spread = (refl, passed)
    base_loop-Searched levels lvl (suc left) level_ptrs passed spread =
        let ptr = get_or level_ptrs lvl 0 in
        let (ptr', inside) = advance_ptr ucmp user_key ptr (drop ptr (files_at levels lvl)) in
        let (any, passed') = level_step levels level_ptrs lvl passed (spread lvl (omega arith)) in
        level-Searched levels lvl left (set level_ptrs lvl ptr') inside
          (any_covers (files_at levels lvl)) any passed'
          (base_loop-Searched levels (lvl + 1) left (set level_ptrs lvl ptr') passed'
            (λ l h. spread l (omega arith)))

    -- Over a user comparator that is a total order and deeper levels whose files start in order: if
    -- the pointers have only passed files before the key, then IsBaseLevelForKey says whether no file
    -- of the levels below the compaction's output covers the key, and the pointers it leaves have
    -- again only passed files before the key.
    pub is_base_level_for_key-covers :
        (levels : List (List FileMetaData)) (c : Compaction)
        → Passed levels c.level_ptrs
        → ((l : ℕ) → c.level + 2 ≤ l → Spread (files_at levels l))
        → ((is_base_level_for_key ucmp levels c user_key).1
            ≡ not (any_level_covers levels (c.level + 2) (num_levels - (c.level + 2))))
          × Passed levels (is_base_level_for_key ucmp levels c user_key).0.level_ptrs
    unfolding is_base_level_for_key
    is_base_level_for_key-covers levels c passed spread =
        base_loop-Searched levels (c.level + 2) (num_levels - (c.level + 2)) c.level_ptrs passed
          spread
