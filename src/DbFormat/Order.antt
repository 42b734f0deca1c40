-- ===== src/DbFormat/Order.antt =====
-- InternalKeyComparator::Compare of leveldb学习/初始化/dbformat.c, and the key of a lookup.
use study_history.Prelude.{ℕ, ◌+◌, ◌*◌, ◌≤◌, ◌≡◌, ◌≢◌, ◌↔◌, refl, arith, ltb, if◌then◌else◌}
use study_history.Coding.{Bytes}
use study_history.Comparator.{Comparator, IsOrder, flip}
use study_history.DbFormat.{
  ValueType, deletion, value, type_code, max_sequence_number, internal_key, extract_user_key,
  internal_compare, internal_comparator, lookup_key, lookup_internal_key,
}
use study_history.DbFormat.Keys.{internal_key-parts, lookup_key-views}
use Prim.Native.Nat.{compare, Ordering}

-- The order of versions of one user key: the higher sequence number first, and then the type.
abbrev pub newest_first : ℕ → ValueType → ℕ → ValueType → Ordering
newest_first s t s' t' = elim (compare s' s) [
  | Ordering.eq ↦ compare (type_code t') (type_code t)
  | r ↦ r
]

module _ (ucmp : Comparator) where
  tag_order :
      (s : ℕ) (t : ValueType) (s' : ℕ) (t' : ValueType)
      → (if ltb (s' * 256 + type_code t') (s * 256 + type_code t)
          then Ordering.lt
          else (if ltb (s * 256 + type_code t) (s' * 256 + type_code t')
              then Ordering.gt
              else Ordering.eq))
        ≡ newest_first s t s' t'
  tag_order s deletion s' deletion = ground arith
  tag_order s deletion s' value = ground arith
  tag_order s value s' deletion = ground arith
  tag_order s value s' value = ground arith

  -- The comparator orders internal keys by user key, and versions of one user key by decreasing
  -- sequence number and then by decreasing type.
  pub internal_compare_lem :
      (u : Bytes) (s : ℕ) (t : ValueType) (u' : Bytes) (s' : ℕ) (t' : ValueType)
      → s ≤ max_sequence_number
      → s' ≤ max_sequence_number
      → internal_compare ucmp (internal_key u s t) (internal_key u' s' t')
        ≡ elim (ucmp.compare u u') [ Ordering.eq ↦ newest_first s t s' t' | r ↦ r ]
  unfolding internal_compare
  internal_compare_lem u s t u' s' t' h h' =
      ground
        (arith, internal_key-parts u s t h, internal_key-parts u' s' t' h', tag_order s t s' t')

  pub internal_compare_gt :
      (a b : Bytes)
      → ucmp.compare (extract_user_key a) (extract_user_key b) ≡ Ordering.gt
      → internal_compare ucmp a b ≡ Ordering.gt
  unfolding internal_compare
  internal_compare_gt a b h = rw (internal_compare, h) refl

  module _ (o : IsOrder ucmp) where
    -- The internal order is again a total order, on keys of any length.
    pub internal_compare-flip :
        (a b : Bytes) → internal_compare ucmp b a ≡ flip (internal_compare ucmp a b)
    unfolding internal_compare
    internal_compare-flip a b = ground (arith, o.flips (extract_user_key a) (extract_user_key b))

    internal_compare_trans :
        (a b d : Bytes)
        → internal_compare ucmp a b ≡ Ordering.lt
        → internal_compare ucmp b d ≡ Ordering.lt
        → internal_compare ucmp a d ≡ Ordering.lt
    unfolding internal_compare
    internal_compare_trans a b d h k =
        let x = extract_user_key a in
        let y = extract_user_key b in
        let z = extract_user_key d in
        ground (arith, o.lt_trans x y z, o.eq_left x y z, o.eq_left y z x, o.flips x y, o.flips x z)

    internal_compare-eq_left :
        (a b d : Bytes)
        → internal_compare ucmp a b ≡ Ordering.eq
        → internal_compare ucmp a d ≡ internal_compare ucmp b d
    unfolding internal_compare
    internal_compare-eq_left a b d h =
        let x = extract_user_key a in
        let y = extract_user_key b in let z = extract_user_key d in ground (arith, o.eq_left x y z)

  -- Over a user comparator that is a total order, the comparator of internal keys is one too.
  pub internal_compare-IsOrder : IsOrder ucmp → IsOrder (internal_comparator ucmp)
  unfolding internal_comparator
  internal_compare-IsOrder o = record {
    flips = internal_compare-flip o;
    lt_trans = internal_compare_trans o;
    eq_left = internal_compare-eq_left o;
  }

  -- For sequence numbers of at most 56 bits and a user key that compares as equal to itself, a lookup
  -- of `u` at the sequence number `s` stands at or before exactly the entries of `u` that are no
  -- newer than `s`.
  pub lookup_key-le_iff :
      (u : Bytes) (s s' : ℕ) (t : ValueType)
      → ucmp.compare u u ≡ Ordering.eq
      → s ≤ max_sequence_number
      → s' ≤ max_sequence_number
      → (internal_compare ucmp (lookup_internal_key (lookup_key u s)) (internal_key u s' t)
          ≢ Ordering.gt)
        ↔ (s' ≤ s)
  lookup_key-le_iff u s s' deletion e h h' =
      rw ((lookup_key-views u s).1, internal_compare_lem u s value u s' deletion h h', e)
        (ground arith)
  lookup_key-le_iff u s s' value e h h' =
      rw ((lookup_key-views u s).1, internal_compare_lem u s value u s' value h h', e)
        (ground arith)
