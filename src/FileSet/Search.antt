-- ===== src/FileSet/Search.antt =====
-- The binary search FindFile of leveldb学习/manifest/version_set.c.
use study_history.Prelude.{
  ℕ, zero, suc, ◌+◌, ◌/◌, ◌%◌, ◌^◌, ◌≤◌, ◌<◌, ◌≡◌, ◌⊎◌, inl, inr, refl, sym, ap, arith, subst, List,
  true, false, Bool-cases, ltb, ltb→lt, ltb_false→le, length,
}
use study_history.Coding.{Bytes}
use study_history.Comparator.{Comparator, IsOrder}
use study_history.DbFormat.{internal_compare, internal_comparator}
use study_history.DbFormat.Order.{internal_compare-IsOrder}
use study_history.VersionEdit.{FileMetaData}
use study_history.FileSet.{is_lt, largest_at, find_file_loop, find_file}
use Prim.Native.Nat.{Ordering}
use native.Mathlib.Nat.{mod-eq_of_lt}

is_lt→eq : (r : Ordering) → is_lt r ≡ true → r ≡ Ordering.lt
is_lt→eq Ordering.lt h = refl
is_lt→eq Ordering.eq h = cc (h)
is_lt→eq Ordering.gt h = cc (h)

lt-or-eq : (i j : ℕ) → i ≤ j → (i < j) ⊎ (i ≡ j)
lt-or-eq i j h = ground arith

module _ (ucmp : Comparator) (files : List FileMetaData) (key : Bytes) where
  -- One round of the loop.
  stops_at :
      (fuel left right : ℕ)
      → ltb left right ≡ false
      → find_file_loop ucmp files key (suc fuel) left right ≡ right
  unfolding find_file_loop
  stops_at fuel left right stop = rw (find_file_loop, stop) refl

  goes_right :
      (fuel left right : ℕ)
      → ltb left right ≡ true
      → is_lt (internal_compare ucmp (largest_at files ((left + right) % 2 ^ 32 / 2)) key) ≡ true
      → find_file_loop ucmp files key (suc fuel) left right
        ≡ find_file_loop ucmp files key fuel ((left + right) % 2 ^ 32 / 2 + 1) right
  unfolding find_file_loop
  goes_right fuel left right go less = rw (find_file_loop, go, less) refl

  goes_left :
      (fuel left right : ℕ)
      → ltb left right ≡ true
      → is_lt (internal_compare ucmp (largest_at files ((left + right) % 2 ^ 32 / 2)) key) ≡ false
      → find_file_loop ucmp files key (suc fuel) left right
        ≡ find_file_loop ucmp files key fuel left ((left + right) % 2 ^ 32 / 2)
  unfolding find_file_loop
  goes_left fuel left right go not_less = rw (find_file_loop, go, not_less) refl

  -- The largest key of file `i` is before the key.
  abbrev pub Below : ℕ → Type 0
  Below i = internal_compare ucmp (largest_at files i) key ≡ Ordering.lt

  -- The files stand in strictly increasing order of their largest keys.
  abbrev pub IsSorted : Type 0
  IsSorted =
      (i j : ℕ)
      → i < j
      → j < length files
      → internal_compare ucmp (largest_at files i) (largest_at files j) ≡ Ordering.lt

  -- `r` splits the files into those whose largest key is before the key and the others.
  abbrev pub Splits : ℕ → Type 0
  Splits r =
      (r ≤ length files)
      × ((i : ℕ) → i < r → Below i)
      × ((i : ℕ) → r ≤ i → i < length files → Below i → ⊥)

  module _ (order : IsOrder ucmp) (sorted : IsSorted) (few : length files < 2 ^ 31) where
    before_too : (i j : ℕ) → i < j → j < length files → Below j → Below i
    unfolding internal_comparator
    before_too i j h inside below =
        (internal_compare-IsOrder ucmp order).lt_trans (largest_at files i) (largest_at files j) key
          (sorted i j h inside) below

    -- After a file that is not before the key there is none.
    none_after :
        (mid : ℕ)
        → is_lt (internal_compare ucmp (largest_at files mid) key) ≡ false
        → (i : ℕ) → mid ≤ i
        → i < length files
        → Below i
        → ⊥
    none_after mid stops i h inside below = elim (lt-or-eq mid i h) [
      | inl after ↦ clash (before_too mid i after inside below)
      | inr same ↦ clash (subst Below (sym same) below)
    ]
      where
        clash : Below mid → ⊥
        clash b = absurd (cc (ap is_lt b, stops))

    -- Up to a file that is before the key all are.
    all_upto :
        (mid : ℕ)
        → mid < length files
        → is_lt (internal_compare ucmp (largest_at files mid) key) ≡ true
        → (i : ℕ) → i < mid + 1
        → Below i
    all_upto mid inside goes i h =
        let here = is_lt→eq (internal_compare ucmp (largest_at files mid) key) goes in
        elim (lt-or-eq i mid (omega arith)) [
          | inl before ↦ before_too i mid before inside here
          | inr same ↦ subst Below (sym same) here
        ]

    middle :
        (left right : ℕ)
        → right ≤ length files
        → left < right
        → (left + right) % 2 ^ 32 / 2 ≡ (left + right) / 2
    middle left right fits h =
        ap (λ s. s / 2) (mod-eq_of_lt {n = left + right} {m = 2 ^ 32} (omega arith))

    find_file_loop_lem :
        (fuel left right : ℕ)
        → right ≤ length files
        → left ≤ right
        → right ≤ left + fuel
        → ((i : ℕ) → i < left → Below i)
        → ((i : ℕ) → right ≤ i → i < length files → Below i → ⊥)
        → Splits (find_file_loop ucmp files key fuel left right)
    unfolding find_file_loop
    find_file_loop_lem zero left right fits ordered enough before after =
        (fits, (λ i h. before i (omega arith)), after)
    find_file_loop_lem (suc fuel) left right fits ordered enough before after =
        elim (Bool-cases (ltb left right)) [
          | inr stop ↦
              let met = ltb_false→le left right stop in
              subst Splits (sym (stops_at fuel left right stop))
                (fits, (λ i h. before i (omega arith)), after)
          | inl go ↦
              let smaller = ltb→lt left right go in
              let mid = (left + right) % 2 ^ 32 / 2 in
              let mid_lem = middle left right fits smaller in
              elim (Bool-cases (is_lt (internal_compare ucmp (largest_at files mid) key))) [
                | inl less ↦ subst Splits (sym (goes_right fuel left right go less)) (
                    find_file_loop_lem fuel (mid + 1) right fits (omega arith) (omega arith)
                      (all_upto mid (omega arith) less) after)
                | inr not_less ↦ subst Splits (sym (goes_left fuel left right go not_less)) (
                    find_file_loop_lem fuel left mid (omega arith) (omega arith) (omega arith)
                      before (none_after mid not_less))
              ]
        ]

    -- On fewer than 2 ^ 31 files in strictly increasing order of their largest keys, under a user
    -- comparator that is a total order, FindFile returns the index of the first file whose largest
    -- key is not before the key, or the number of files where there is none.
    pub find_file-Splits : Splits (find_file ucmp files key)
    unfolding find_file
    find_file-Splits =
        let size = mod-eq_of_lt {n = length files} {m = 2 ^ 32} (omega arith) in
        subst (λ n. Splits (find_file_loop ucmp files key n 0 n)) (sym size)
          (find_file_loop_lem (length files) 0 (length files) (omega arith) (omega arith)
            (omega arith) (λ i h. absurd (omega arith)) (λ i h inside below. absurd (omega arith)))
