-- ===== src/FileSet/Overlap.antt =====
-- SomeFileOverlapsRange of leveldb学习/manifest/version_set.c, against the ranges of the files.
use study_history.Prelude.{
  ℕ, zero, suc, ◌≤◌, ◌<◌, ◌^◌, ◌≡◌, ◌⊎◌, inl, inr, refl, sym, ap, ◌∙◌, subst, arith, List, [], ◌∷◌,
  Bool, true, false, not, ◌||◌, Bool-cases, Option, none, some, if◌then◌else◌, All, length,
  get_elem?,
}
use study_history.Coding.{Bytes}
use study_history.Comparator.{Comparator, IsOrder, flip}
use study_history.DbFormat.{
  ParsedInternalKey, ValueType, deletion, value, internal_key, internal_compare, extract_user_key,
  max_sequence_number, value_type_for_seek,
}
use study_history.DbFormat.Keys.{internal_key-parts}
use study_history.DbFormat.Order.{internal_compare_lem, newest_first}
use study_history.VersionEdit.{FileMetaData}
use study_history.FileSet.{
  is_lt, is_gt, largest_at, find_file, after_file, before_file, overlaps_any, first_index,
  some_file_overlaps_range,
}
use study_history.FileSet.Search.{IsSorted, Splits, find_file-Splits}
use Prim.Native.Nat.{Ordering}

elem-lt :
    (files : List FileMetaData) (i : ℕ) (f : FileMetaData)
    → get_elem? files i ≡ some f
    → i < length files
elem-lt [] i f e = absurd (cc (e))
elem-lt (x ∷ files) zero f e = omega arith
elem-lt (x ∷ files) (suc i) f e = let ih = elem-lt files i f e in omega arith

elem-none : (files : List FileMetaData) (i : ℕ) → get_elem? files i ≡ none → length files ≤ i
elem-none [] i e = omega arith
elem-none (x ∷ files) zero e = absurd (cc (e))
elem-none (x ∷ files) (suc i) e = let ih = elem-none files i e in omega arith

All-of-elem :
    (P : FileMetaData → Type 0) (files : List FileMetaData)
    → ((i : ℕ) (f : FileMetaData) → get_elem? files i ≡ some f → P f)
    → All P files
All-of-elem P [] at = tt
All-of-elem P (x ∷ files) at = (at 0 x refl, All-of-elem P files (λ i f e. at (suc i) f e))

module _ (ucmp : Comparator) (smallest largest : Bytes) where
  -- The file ends before the range of user keys, or starts after it.
  abbrev pub IsOutside : FileMetaData → Type 0
  IsOutside f =
      (ucmp.compare smallest (extract_user_key f.largest) ≡ Ordering.gt)
      ⊎ (ucmp.compare largest (extract_user_key f.smallest) ≡ Ordering.lt)

  gt_of : (r : Ordering) → is_gt r ≡ true → r ≡ Ordering.gt
  gt_of Ordering.lt h = cc (h)
  gt_of Ordering.eq h = cc (h)
  gt_of Ordering.gt h = refl

  lt_of : (r : Ordering) → is_lt r ≡ true → r ≡ Ordering.lt
  lt_of Ordering.lt h = refl
  lt_of Ordering.eq h = cc (h)
  lt_of Ordering.gt h = cc (h)

  IsOutside-either :
      (f : FileMetaData)
      → after_file ucmp (some smallest) f || before_file ucmp (some largest) f ≡ true
      → IsOutside f
  unfolding after_file before_file
  IsOutside-either f h =
      let after = is_gt (ucmp.compare smallest (extract_user_key f.largest)) in
      elim (Bool-cases after) [
        | inl yes_after ↦ inl (gt_of (ucmp.compare smallest (extract_user_key f.largest)) yes_after)
        | inr not_after ↦ inr (
            lt_of (ucmp.compare largest (extract_user_key f.smallest))
              (ground (arith, h, not_after)))
      ]

  -- The check against all files.
  overlaps_any-IsOutside :
      (files : List FileMetaData)
      → overlaps_any ucmp files (some smallest) (some largest) ≡ false
      → All IsOutside files
  unfolding overlaps_any
  overlaps_any-IsOutside [] h = tt
  overlaps_any-IsOutside (f ∷ files) h =
      let out = after_file ucmp (some smallest) f || before_file ucmp (some largest) f in
      elim out
          as (λ b.
            out ≡ b
            → (if b then overlaps_any ucmp files (some smallest) (some largest) else true) ≡ false
            → All IsOutside (f ∷ files)) [
              | true ↦ λ e later. (IsOutside-either f e, overlaps_any-IsOutside files later)
              | false ↦ λ e later. absurd (cc (later))
            ]
        refl h

  -- The largest key of a file is an internal key with a sequence number of at most 56 bits.
  abbrev pub HasKey : FileMetaData → Type 0
  HasKey f =
      (k : ParsedInternalKey) × (f.largest ≡ internal_key k.user_key k.sequence k.type)
      × (k.sequence ≤ max_sequence_number)

  abbrev seek_key : Bytes
  seek_key = internal_key smallest max_sequence_number value_type_for_seek

  -- No version of a user key comes before the key that a search for it starts from.
  newest_first-start :
      (s : ℕ) (t : ValueType)
      → s ≤ max_sequence_number
      → newest_first s t max_sequence_number value_type_for_seek ≡ Ordering.lt
      → ⊥
  newest_first-start s deletion h e = ground (arith, h, e)
  newest_first-start s value h e = ground (arith, h, e)

  lt_cases :
      (s : ℕ) (t : ValueType) (r : Ordering)
      → s ≤ max_sequence_number
      → (elim r [
        | Ordering.eq ↦ newest_first s t max_sequence_number value_type_for_seek
        | r' ↦ r'
      ])
        ≡ Ordering.lt
      → r ≡ Ordering.lt
  lt_cases s t Ordering.lt h e = refl
  lt_cases s t Ordering.eq h e = absurd (newest_first-start s t h e)
  lt_cases s t Ordering.gt h e = cc (e)

  module _ (order : IsOrder ucmp) where
    -- A file that ends before the key that the search starts from ends before the range.
    below-IsOutside :
        (f : FileMetaData)
        → HasKey f
        → internal_compare ucmp f.largest seek_key ≡ Ordering.lt
        → ucmp.compare smallest (extract_user_key f.largest) ≡ Ordering.gt
    below-IsOutside f (k, at, small) below =
        let user : extract_user_key f.largest ≡ k.user_key =
          ap extract_user_key at ∙ (internal_key-parts k.user_key k.sequence k.type small).0 in
        let before : ucmp.compare k.user_key smallest ≡ Ordering.lt =
          lt_cases k.sequence k.type (ucmp.compare k.user_key smallest) small (
            sym (
              internal_compare_lem ucmp k.user_key k.sequence k.type smallest max_sequence_number
                value_type_for_seek small (omega arith))
            ∙ ap (λ x. internal_compare ucmp x seek_key) (sym at)
            ∙ below) in
        ap (ucmp.compare smallest) user ∙ order.flips k.user_key smallest ∙ ap flip before

    -- The smallest user keys do not fall along the files.
    abbrev pub SmallestRise : List FileMetaData → Type 0
    SmallestRise files =
        (i j : ℕ) (f g : FileMetaData)
        → i < j
        → get_elem? files i ≡ some f
        → get_elem? files j ≡ some g
        → is_gt (ucmp.compare (extract_user_key f.smallest) (extract_user_key g.smallest)) ≡ false

    before_both :
        (x y z : Bytes)
        → ucmp.compare x y ≡ Ordering.lt
        → is_gt (ucmp.compare y z) ≡ false
        → ucmp.compare x z ≡ Ordering.lt
    before_both x y z h k = ground (
      arith,
      order.lt_trans x y z,
      order.eq_left y x z,
      order.flips x y,
      order.flips y z,
      order.eq_left y z x,
      order.flips x z,
    )

    -- A level below level 0: its files have internal keys as their ends, and are ordered.
    pub record IsLevel (files : List FileMetaData) : Type 0 where
      pub sorted : IsSorted ucmp files seek_key
      pub rise : SmallestRise files
      pub few : length files < 2 ^ 31
      pub keys : All HasKey files

    elem-All :
        (P : FileMetaData → Type 0) (files : List FileMetaData) (i : ℕ) (f : FileMetaData)
        → All P files
        → get_elem? files i ≡ some f
        → P f
    elem-All P [] i f all e = absurd (cc (e))
    elem-All P (x ∷ files) zero f all e =
        subst P (ap (λ (o : Option FileMetaData). elim o [ none ↦ x | some y ↦ y ]) e) all.0
    elem-All P (x ∷ files) (suc i) f all e = elem-All P files i f all.1 e

    module _ (files : List FileMetaData) (level : IsLevel files) where
      abbrev start : ℕ
      start = find_file ucmp files seek_key

      splits : Splits ucmp files seek_key start
      splits = find_file-Splits ucmp files seek_key order level.sorted level.few

      largest_at_elem :
          (i : ℕ) (f : FileMetaData) → get_elem? files i ≡ some f → largest_at files i ≡ f.largest
      largest_at_elem i f e = rw (largest_at, e) refl

      IsOutside-below :
          (i : ℕ) (f : FileMetaData) → get_elem? files i ≡ some f → i < start → IsOutside f
      IsOutside-below i f e h = inl (
          below-IsOutside f (elem-All HasKey files i f level.keys e) (
            sym (ap (λ x. internal_compare ucmp x seek_key) (largest_at_elem i f e))
            ∙ splits.1 i h))

      IsOutside-from :
          (g : FileMetaData)
          → get_elem? files start ≡ some g
          → before_file ucmp (some largest) g ≡ true
          → (i : ℕ) (f : FileMetaData) → get_elem? files i ≡ some f
          → IsOutside f
      unfolding before_file
      IsOutside-from g at_start before i f e =
          let here = lt_of (ucmp.compare largest (extract_user_key g.smallest)) before in
          elim (side i) [
            | inl below ↦ IsOutside-below i f e below
            | inr (inl same) ↦
                let one = sym at_start ∙ ap (get_elem? files) (sym same) ∙ e in
                let equal =
                  ap (λ (o : Option FileMetaData). elim o [ none ↦ g | some y ↦ y ]) one in
                inr (
                  ap (λ (x : FileMetaData). ucmp.compare largest (extract_user_key x.smallest))
                    (sym equal)
                  ∙ here)
            | inr (inr above) ↦ inr (
                before_both largest (extract_user_key g.smallest) (extract_user_key f.smallest) here
                  (level.rise start i g f above at_start e))
          ]
        where
          side : (j : ℕ) → (j < start) ⊎ ((j ≡ start) ⊎ (start < j))
          side j = ground arith

      IsOutside-search :
          (r : Option FileMetaData)
          → get_elem? files start ≡ r
          → (elim r [ none ↦ false | some f ↦ not (before_file ucmp (some largest) f) ]) ≡ false
          → All IsOutside files
      IsOutside-search none e h = All-of-elem IsOutside files (λ i f at.
          IsOutside-below i f at (omega (arith, elem-none files start e, elem-lt files i f at)))
      IsOutside-search (some g) e h =
          All-of-elem IsOutside files
            (IsOutside-from g e (negated (before_file ucmp (some largest) g) h))
        where
          negated : (b : Bool) → not b ≡ false → b ≡ true
          negated b k = ground (arith, k)

      pub overlaps_sorted-IsOutside :
          some_file_overlaps_range ucmp true files (some smallest) (some largest) ≡ false
          → All IsOutside files
      unfolding some_file_overlaps_range first_index
      overlaps_sorted-IsOutside h = IsOutside-search (get_elem? files start) refl h

    pub overlaps_all-IsOutside :
        (files : List FileMetaData)
        → some_file_overlaps_range ucmp false files (some smallest) (some largest) ≡ false
        → All IsOutside files
    unfolding some_file_overlaps_range
    overlaps_all-IsOutside files h = overlaps_any-IsOutside files h
