-- ===== src/Comparator/Bytewise.antt =====
-- The bytewise comparator of util/comparator.cpp: its order and its shortened keys.
use study_history.Prelude.{◌≤◌, ◌≡◌, ◌≢◌, refl, arith, [], ◌∷◌, length}
use study_history.Coding.{Bytes}
use study_history.Comparator.Order.{flip, IsOrder, Lt, Le}
use study_history.Comparator.{
  memcmp, slice_compare, bytewise_separator, bytewise_successor, bytewise_comparator,
}
use Prim.Native.Nat.{compare, Ordering}

-- Dictionary order, with no look at the lengths.
abbrev pub lex : Bytes → Bytes → Ordering
lex [] [] = Ordering.eq
lex [] (y ∷ b) = Ordering.lt
lex (x ∷ a) [] = Ordering.gt
lex (x ∷ a) (y ∷ b) = let rest = lex a b in elim (compare x y) [ Ordering.eq ↦ rest | r ↦ r ]

memcmp-short : (a b : Bytes) → memcmp 0 a b ≡ Ordering.eq
unfolding memcmp
memcmp-short [] b = refl
memcmp-short (x ∷ a) [] = refl
memcmp-short (x ∷ a) (y ∷ b) = refl

-- `Slice::compare` is the dictionary order of the bytes.
pub slice_compare-lex : (a b : Bytes) → slice_compare a b ≡ lex a b
unfolding slice_compare memcmp
slice_compare-lex [] [] = refl
slice_compare-lex [] (y ∷ b) = ground arith
slice_compare-lex (x ∷ a) [] = ground arith
slice_compare-lex (x ∷ a) (y ∷ b) = ground (arith, slice_compare-lex a b)

lex-flip : (a b : Bytes) → lex b a ≡ flip (lex a b)
lex-flip [] [] = refl
lex-flip [] (y ∷ b) = refl
lex-flip (x ∷ a) [] = refl
lex-flip (x ∷ a) (y ∷ b) = ground (arith, lex-flip a b)

lex_trans : (a b d : Bytes) → lex a b ≡ Ordering.lt → lex b d ≡ Ordering.lt → lex a d ≡ Ordering.lt
lex_trans [] [] d h k = cc
lex_trans [] (y ∷ b) [] h k = cc
lex_trans [] (y ∷ b) (z ∷ d) h k = refl
lex_trans (x ∷ a) [] d h k = cc
lex_trans (x ∷ a) (y ∷ b) [] h k = cc
lex_trans (x ∷ a) (y ∷ b) (z ∷ d) h k = ground (arith, lex_trans a b d)

lex-eq : (a b : Bytes) → lex a b ≡ Ordering.eq → a ≡ b
lex-eq [] [] h = refl
lex-eq [] (y ∷ b) h = cc
lex-eq (x ∷ a) [] h = cc
lex-eq (x ∷ a) (y ∷ b) h = ground (arith, lex-eq a b)

pub lex_refl : (a : Bytes) → lex a a ≡ Ordering.eq
lex_refl [] = refl
lex_refl (x ∷ a) = ground (arith, lex_refl a)

-- The bytewise comparator is a total order, and keys that it calls equal are equal.
pub bytewise_comparator-IsOrder :
    IsOrder bytewise_comparator
    × ((a b : Bytes) → bytewise_comparator.compare a b ≡ Ordering.eq → a ≡ b)
unfolding bytewise_comparator
bytewise_comparator-IsOrder = (order, λ a b h. lex-eq a b (rw slice_compare-lex at h))
  where
    order : IsOrder bytewise_comparator
    order = record {
      flips = λ a b. rw (slice_compare-lex, slice_compare-lex) (lex-flip a b);
      lt_trans = λ a b d h k.
          rw slice_compare-lex
            (lex_trans a b d (rw slice_compare-lex at h) (rw slice_compare-lex at k));
      eq_left = λ a b d h. rw (lex-eq a b (rw slice_compare-lex at h));
    }

separator_lex :
    (a b : Bytes)
    → lex a b ≡ Ordering.lt
    → (lex a (bytewise_separator a b) ≢ Ordering.gt)
      × (lex (bytewise_separator a b) b ≡ Ordering.lt)
      × (length (bytewise_separator a b) ≤ length a)
unfolding bytewise_separator
separator_lex [] [] h = cc
separator_lex [] (y ∷ b) h = ground arith
separator_lex (x ∷ a) [] h = cc
separator_lex (x ∷ a) (y ∷ b) h = ground (arith, separator_lex a b, lex_refl a)

-- Where start < limit, FindShortestSeparator leaves a key in [start, limit) that is not longer.
pub bytewise_separator_bounds :
    (start limit : Bytes)
    → Lt bytewise_comparator start limit
    → Le bytewise_comparator start (bytewise_separator start limit)
      × Lt bytewise_comparator (bytewise_separator start limit) limit
      × (length (bytewise_separator start limit) ≤ length start)
unfolding bytewise_comparator
bytewise_separator_bounds start limit h =
    rw (slice_compare-lex, slice_compare-lex)
      (separator_lex start limit (rw slice_compare-lex at h))

successor_lex :
    (a : Bytes)
    → (lex a (bytewise_successor a) ≢ Ordering.gt) × (length (bytewise_successor a) ≤ length a)
unfolding bytewise_successor
successor_lex [] = ground arith
successor_lex (x ∷ a) = ground (arith, successor_lex a, lex_refl a)

-- FindShortSuccessor leaves a key at or behind the given one that is not longer.
pub bytewise_successor_bounds :
    (key : Bytes)
    → Le bytewise_comparator key (bytewise_successor key)
      × (length (bytewise_successor key) ≤ length key)
unfolding bytewise_comparator
bytewise_successor_bounds key = rw slice_compare-lex (successor_lex key)

-- What the internal comparator needs of the user comparator when it shortens a key.
pub bytewise_separator-below :
    (a b : Bytes)
    → Lt bytewise_comparator a b
    → Lt bytewise_comparator (bytewise_comparator.find_shortest_separator a b) b
unfolding bytewise_comparator
bytewise_separator-below a b h = (bytewise_separator_bounds a b h).1

separator_same : (a : Bytes) → bytewise_separator a a ≡ a
unfolding bytewise_separator
separator_same [] = refl
separator_same (x ∷ a) = ground (arith, separator_same a)

pub bytewise_separator-eq :
    (a b : Bytes)
    → bytewise_comparator.compare a b ≡ Ordering.eq
    → bytewise_comparator.find_shortest_separator a b ≡ a
unfolding bytewise_comparator
bytewise_separator-eq a b h = rw (← bytewise_comparator-IsOrder.1 a b h) (separator_same a)
