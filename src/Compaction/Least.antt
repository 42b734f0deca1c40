-- ===== src/Compaction/Least.antt =====
-- FindSmallestBoundaryFile of leveldb学习/manifest/version_set.c, and keys around a boundary.
use study_history.Prelude.{
  ◌≡◌, refl, subst, arith, List, [], ◌∷◌, Bool, true, false, ◌&&◌, Option, none, some,
  if◌then◌else◌, All,
}
use study_history.Coding.{Bytes}
use study_history.Comparator.{Comparator, IsOrder}
use study_history.DbFormat.{internal_compare, internal_comparator, extract_user_key}
use study_history.DbFormat.Order.{internal_compare-IsOrder, internal_compare_gt}
use study_history.VersionEdit.{FileMetaData}
use study_history.FileSet.{is_lt, is_gt}
use study_history.Compaction.{is_eq, is_boundary, is_smaller_file, boundary_from}
use study_history.Compaction.Boundary.{file_inj}

module _ (c : Comparator) (o : IsOrder c) where
  not_lt_trans :
      (x y z : Bytes)
      → is_lt (c.compare x y) ≡ false
      → is_lt (c.compare y z) ≡ false
      → is_lt (c.compare x z) ≡ false
  not_lt_trans x y z h k = ground (arith, o.lt_trans y x z, o.eq_left x y z, o.flips x y)

  pub lt_not_lt : (x y : Bytes) → is_lt (c.compare x y) ≡ true → is_lt (c.compare y x) ≡ false
  lt_not_lt x y h = ground (arith, o.flips x y)

  not_lt_own : (x : Bytes) → is_lt (c.compare x x) ≡ false
  not_lt_own x = ground (arith, o.flips x x)

  pub above_of_lt : (x y : Bytes) → is_lt (c.compare x y) ≡ true → is_gt (c.compare y x) ≡ true
  above_of_lt x y h = ground (arith, o.flips x y)

  -- A key that lies between two equal ones equals them.
  pub squeezed :
      (k s l g : Bytes)
      → is_eq (c.compare s k) ≡ true
      → is_eq (c.compare g k) ≡ true
      → is_gt (c.compare s l) ≡ false
      → is_gt (c.compare l g) ≡ false
      → is_eq (c.compare g l) ≡ true
  squeezed k s l g h h' low high = ground (arith, o.eq_left s k l, o.eq_left g k l, o.flips l g)

module _ (ucmp : Comparator) where
  pub user_keys_le :
      (a b : Bytes)
      → is_gt (internal_compare ucmp a b) ≡ false
      → is_gt (ucmp.compare (extract_user_key a) (extract_user_key b)) ≡ false
  user_keys_le a b h = ground (arith, h, internal_compare_gt ucmp a b)

  module _ (o : IsOrder ucmp) where
    -- A file found so far does not start before the result of the search.
    abbrev pub NotBefore : Option FileMetaData → FileMetaData → Type 0
    NotBefore none f = Unit
    NotBefore (some g) f = is_lt (internal_compare ucmp g.smallest f.smallest) ≡ false

    -- No boundary file starts before the result of the search.
    abbrev pub Least : Bytes → List FileMetaData → FileMetaData → Type 0
    Least l files f =
        All
          (λ g.
            is_boundary ucmp l g ≡ true
            → is_lt (internal_compare ucmp g.smallest f.smallest) ≡ false)
          files

    through :
        (x y z : Bytes)
        → is_lt (internal_compare ucmp x y) ≡ false
        → is_lt (internal_compare ucmp y z) ≡ false
        → is_lt (internal_compare ucmp x z) ≡ false
    unfolding internal_comparator
    through = not_lt_trans (internal_comparator ucmp) (internal_compare-IsOrder ucmp o)

    after_smaller :
        (current : Option FileMetaData) (g f : FileMetaData)
        → is_smaller_file ucmp current g ≡ true
        → is_lt (internal_compare ucmp g.smallest f.smallest) ≡ false
        → NotBefore current f
    unfolding internal_comparator
    after_smaller none g f h k = tt
    after_smaller (some c) g f h k =
        through c.smallest g.smallest f.smallest
          (lt_not_lt (internal_comparator ucmp) (internal_compare-IsOrder ucmp o) g.smallest
            c.smallest h)
          k

    after_current :
        (current : Option FileMetaData) (g f : FileMetaData)
        → is_smaller_file ucmp current g ≡ false
        → NotBefore current f
        → is_lt (internal_compare ucmp g.smallest f.smallest) ≡ false
    after_current none g f h k = absurd (cc (h))
    after_current (some c) g f h k = through g.smallest c.smallest f.smallest h k

    and_false : (a b : Bool) → a && b ≡ false → a ≡ true → b ≡ false
    and_false a b h k = ground (arith, h, k)

    pub and_right : (a b : Bool) → a && b ≡ true → b ≡ true
    and_right a b h = ground (arith, h)

    pub boundary_from-Least :
        (l : Bytes) (current : Option FileMetaData) (files : List FileMetaData) (f : FileMetaData)
        → boundary_from ucmp l current files ≡ some f
        → NotBefore current f × Least l files f
    unfolding boundary_from internal_comparator
    boundary_from-Least l none [] f e = (tt, tt)
    boundary_from-Least l (some c) [] f e = (
      subst (NotBefore (some c)) (file_inj ucmp c f e)
          (not_lt_own (internal_comparator ucmp) (internal_compare-IsOrder ucmp o) c.smallest),
      tt,
    )
    boundary_from-Least l current (g ∷ files) f e =
        let here = is_boundary ucmp l g in
        let both = here && is_smaller_file ucmp current g in
        elim both
            as (λ b.
              both ≡ b
              → boundary_from ucmp l (if b then some g else current) files ≡ some f
              → NotBefore current f × Least l (g ∷ files) f) [
                | true ↦ λ taken e'.
                    let (first, rest) = boundary_from-Least l (some g) files f e' in
                    (
                      after_smaller current g f
                          (and_right here (is_smaller_file ucmp current g) taken) first,
                      ((λ _. first), rest),
                    )
                | false ↦ λ passed e'.
                    let (first, rest) = boundary_from-Least l current files f e' in
                    (
                      first,
                      (
                        (λ boundary.
                            after_current current g f
                              (and_false here (is_smaller_file ucmp current g) passed boundary)
                              first),
                        rest,
                      ),
                    )
              ]
          refl e
