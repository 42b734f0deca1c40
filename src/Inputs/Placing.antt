-- ===== src/Inputs/Placing.antt =====
-- PickLevelForMemTableOutput of leveldb学习/manifest/version_set.c.
use study_history.Prelude.{
  ℕ, zero, suc, ◌+◌, ◌≤◌, ◌≡◌, ◌⊎◌, inl, inr, refl, sym, subst, arith, List, [], true, false, some,
  ◌<◌, All, get_or, ap, ◌∙◌, ltb,
}
use study_history.Coding.{Bytes}
use study_history.Comparator.{Comparator, IsOrder}
use study_history.DbFormat.{internal_key, deletion, max_sequence_number, value_type_for_seek}
use study_history.VersionEdit.{FileMetaData}
use study_history.FileSet.{some_file_overlaps_range}
use study_history.FileSet.Overlap.{
  IsOutside, IsLevel, overlaps_sorted-IsOutside, overlaps_all-IsOutside,
}
use study_history.Inputs.{
  overlap_in_level, too_much_overlap, pick_loop, pick_level_for_mem_table_output,
  max_mem_compact_level,
}

lt-or-last : (l level : ℕ) → l ≤ level + 1 → (l ≤ level) ⊎ (l ≡ level + 1)
lt-or-last l level h = ground arith

module _ (ucmp : Comparator) (max_file_size : ℕ) (levels : List (List FileMetaData))
    (smallest largest : Bytes) where
  -- The overlap test finds no file down to a level.
  abbrev IsClear : ℕ → Type 0
  IsClear level =
      (l : ℕ) → l ≤ level → overlap_in_level ucmp levels l (some smallest) (some largest) ≡ false

  abbrev WithinClear : ℕ → ℕ → Type 0
  WithinClear bound level = (level ≤ bound) × IsClear level

  IsClear-next :
      (level : ℕ)
      → IsClear level
      → overlap_in_level ucmp levels (level + 1) (some smallest) (some largest) ≡ false
      → IsClear (level + 1)
  IsClear-next level clear here l h = elim (lt-or-last l level h) [
    | inl below ↦ clear l below
    | inr e ↦
        subst (λ k. overlap_in_level ucmp levels k (some smallest) (some largest) ≡ false) (sym e)
          here
  ]

  pick_loop-IsClear :
      (level left : ℕ)
      → IsClear level
      → WithinClear (level + left) (pick_loop ucmp max_file_size levels smallest largest level left)
  unfolding pick_loop
  pick_loop-IsClear level zero clear = (omega arith, clear)
  pick_loop-IsClear level (suc left) clear =
      let next = pick_loop ucmp max_file_size levels smallest largest (level + 1) left in
      let start = internal_key smallest max_sequence_number value_type_for_seek in
      let limit = internal_key largest 0 deletion in
      let far = too_much_overlap ucmp max_file_size levels (level + 2) start limit in
      let here = overlap_in_level ucmp levels (level + 1) (some smallest) (some largest) in
      elim here
          as (λ b.
            here ≡ b
            → WithinClear (level + suc left)
                (elim b [ true ↦ level | false ↦ elim far [ true ↦ level | false ↦ next ] ])) [
                  | true ↦ λ e. (omega arith, clear)
                  | false ↦ λ e.
                      elim far
                        as (λ b.
                          WithinClear (level + suc left) (elim b [ true ↦ level | false ↦ next ])) [
                            | true ↦ (omega arith, clear)
                            | false ↦
                                (let (low, clear') =
                                    pick_loop-IsClear (level + 1) left
                                      (IsClear-next level clear e) in
                                  (omega (arith, low), clear'))
                          ]
                ]
        refl

  IsClear-start : overlap_in_level ucmp levels 0 (some smallest) (some largest) ≡ false → IsClear 0
  IsClear-start h l low =
      subst (λ k. overlap_in_level ucmp levels k (some smallest) (some largest) ≡ false) {x = 0}
        (omega arith) h

  pick_level-IsClear :
      (pick_level_for_mem_table_output ucmp max_file_size levels smallest largest ≡ 0)
      ⊎ WithinClear 2 (pick_level_for_mem_table_output ucmp max_file_size levels smallest largest)
  unfolding pick_level_for_mem_table_output
  pick_level-IsClear =
      let here = overlap_in_level ucmp levels 0 (some smallest) (some largest) in
      let next = pick_loop ucmp max_file_size levels smallest largest 0 2 in
      elim here
          as (λ b.
            here ≡ b
            → (elim b [ true ↦ 0 | false ↦ next ] ≡ 0)
              ⊎ WithinClear 2 (elim b [ true ↦ 0 | false ↦ next ])) [
                | true ↦ λ e. inl refl
                | false ↦ λ e. inr (pick_loop-IsClear 0 2 (IsClear-start e))
              ]
        refl

  module _ (order : IsOrder ucmp) where
    -- Every file of the levels down to one ends before the range or starts after it.
    abbrev pub AllOutside : ℕ → Type 0
    AllOutside level =
        (l : ℕ) → l ≤ level → All (IsOutside ucmp smallest largest) (get_or levels l [])

    -- The levels below level 0 down to the last that a memtable's file may go to.
    abbrev pub AreLevels : Type 0
    AreLevels =
        (l : ℕ)
        → 0 < l
        → l ≤ max_mem_compact_level
        → IsLevel ucmp smallest largest order (get_or levels l [])

    below_top : (l : ℕ) → true ≡ ltb 0 (suc l)
    below_top l = ground arith

    level-IsOutside :
        (l : ℕ)
        → AreLevels
        → l ≤ max_mem_compact_level
        → overlap_in_level ucmp levels l (some smallest) (some largest) ≡ false
        → All (IsOutside ucmp smallest largest) (get_or levels l [])
    unfolding overlap_in_level
    level-IsOutside zero are low clear =
        overlaps_all-IsOutside ucmp smallest largest order (get_or levels 0 []) clear
    level-IsOutside (suc l) are low clear =
        overlaps_sorted-IsOutside ucmp smallest largest order (get_or levels (suc l) [])
          (are (suc l) (omega arith) low)
          (ap
              (λ b.
                some_file_overlaps_range ucmp b (get_or levels (suc l) []) (some smallest)
                  (some largest))
              (below_top l)
            ∙ clear)

    -- Over a user comparator that is a total order, and levels 1 and 2 of fewer than 2 ^ 31 files
    -- whose ends are internal keys with sequence numbers of at most 56 bits, in strictly increasing
    -- order of their largest keys and with smallest user keys that do not fall: a memtable's file is
    -- put in level 0, or in a level of at most 2 such that every file of that level and of those
    -- above it ends before the smallest user key of the new file or starts after its largest.
    pub pick_level-AllOutside :
        AreLevels
        → (pick_level_for_mem_table_output ucmp max_file_size levels smallest largest ≡ 0)
          ⊎ ((pick_level_for_mem_table_output ucmp max_file_size levels smallest largest ≤ 2)
              × AllOutside
                  (pick_level_for_mem_table_output ucmp max_file_size levels smallest largest))
    pick_level-AllOutside are = elim pick_level-IsClear [
      | inl zeroth ↦ inl zeroth
      | inr (low, clear) ↦
          inr (low, (λ l h. level-IsOutside l are (omega (arith, h, low)) (clear l h)))
    ]
