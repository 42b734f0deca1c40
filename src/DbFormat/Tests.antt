-- ===== src/DbFormat/Tests.antt =====
-- Runs over the bytewise comparator, and the theorems at concrete keys.
use study_history.Prelude.{◌⊎◌, ◌<◌, length, ◌≤◌, ◌≡◌, ◌≢◌, ◌↔◌, refl, arith, [], ◌∷◌, some, none}
use study_history.Coding.{Bytes, encode_fixed64, decode_fixed64, put_fixed64}
use study_history.Comparator.{bytewise_comparator, slice_compare, IsOrder, Lt}
use study_history.Comparator.Bytewise.{bytewise_comparator-IsOrder, bytewise_separator-below}
use study_history.DbFormat.{
  deletion, value, append_internal_key, internal_key, parse_internal_key, internal_compare,
  extract_user_key, internal_comparator, find_shortest_separator, lookup_key, lookup_internal_key,
  pack_sequence_and_type, type_of_code,
}
use study_history.DbFormat.Keys.{parse-append}
use study_history.DbFormat.Order.{
  internal_compare_lem, internal_compare-IsOrder, lookup_key-le_iff, newest_first,
}
use study_history.DbFormat.Shorten.{find_shortest_separator_bounds}
use Prim.Native.Nat.{Ordering}

abbrev cat : Bytes
cat = b'c' ∷ b'a' ∷ b't' ∷ []

abbrev dog : Bytes
dog = b'd' ∷ b'o' ∷ b'g' ∷ []

-- A type code above kTypeValue is refused, and so is a key of seven bytes.
bad_type : parse_internal_key (2 ∷ 0 ∷ 0 ∷ 0 ∷ 0 ∷ 0 ∷ 0 ∷ 0 ∷ []) ≡ none
unfolding parse_internal_key type_of_code decode_fixed64
bad_type = refl

too_short : parse_internal_key (1 ∷ 0 ∷ 0 ∷ 0 ∷ 0 ∷ 0 ∷ 0 ∷ []) ≡ none
unfolding parse_internal_key
too_short = refl

cat_before_dog :
    Lt
      (internal_comparator bytewise_comparator)
      (internal_key cat 5 value)
      (internal_key dog 9 value)
unfolding internal_comparator internal_compare append_internal_key put_fixed64 encode_fixed64
    decode_fixed64 pack_sequence_and_type bytewise_comparator slice_compare
cat_before_dog = refl

parse-append_example :
    parse_internal_key
      (append_internal_key [] (record { user_key = cat; sequence = 7; type = value }))
    ≡ some (record { user_key = cat; sequence = 7; type = value })
parse-append_example =
    parse-append (record { user_key = cat; sequence = 7; type = value }) (omega arith)

internal_compare_lem_example :
    internal_compare bytewise_comparator (internal_key cat 7 value) (internal_key cat 9 deletion)
    ≡ elim (bytewise_comparator.compare cat cat) [
      | Ordering.eq ↦ newest_first 7 value 9 deletion
      | r ↦ r
    ]
internal_compare_lem_example =
    internal_compare_lem bytewise_comparator cat 7 value cat 9 deletion (omega arith) (omega arith)

internal_compare-IsOrder_example : IsOrder (internal_comparator bytewise_comparator)
internal_compare-IsOrder_example =
    internal_compare-IsOrder bytewise_comparator bytewise_comparator-IsOrder.0

cat_same : bytewise_comparator.compare cat cat ≡ Ordering.eq
unfolding bytewise_comparator slice_compare
cat_same = refl

lookup_key-le_iff_example :
    (internal_compare bytewise_comparator
        (lookup_internal_key (lookup_key cat 7))
        (internal_key cat 5 value)
      ≢ Ordering.gt)
    ↔ (5 ≤ 7)
lookup_key-le_iff_example =
    lookup_key-le_iff bytewise_comparator cat 7 5 value cat_same (omega arith) (omega arith)

cat_user_key :
    Lt bytewise_comparator
      (extract_user_key (internal_key cat 5 value))
      (extract_user_key (internal_key dog 9 value))
unfolding append_internal_key put_fixed64 encode_fixed64 bytewise_comparator slice_compare
cat_user_key = refl

find_shortest_separator_bounds_example :
    Lt
      (internal_comparator bytewise_comparator)
      (find_shortest_separator bytewise_comparator
        (internal_key cat 5 value)
        (internal_key dog 9 value))
      (internal_key dog 9 value)
    × ((find_shortest_separator bytewise_comparator
            (internal_key cat 5 value)
            (internal_key dog 9 value)
          ≡ internal_key cat 5 value)
        ⊎ (Lt (internal_comparator bytewise_comparator) (internal_key cat 5 value) (
              find_shortest_separator bytewise_comparator
                (internal_key cat 5 value)
                (internal_key dog 9 value))
            × (length (
                  extract_user_key (
                    find_shortest_separator bytewise_comparator
                      (internal_key cat 5 value)
                      (internal_key dog 9 value)))
                < length (extract_user_key (internal_key cat 5 value)))))
find_shortest_separator_bounds_example =
    find_shortest_separator_bounds bytewise_comparator (internal_key cat 5 value)
      (internal_key dog 9 value) bytewise_comparator-IsOrder.0 cat_user_key bytewise_separator-below
