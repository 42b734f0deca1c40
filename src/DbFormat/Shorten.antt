-- ===== src/DbFormat/Shorten.antt =====
-- The two shortening methods of InternalKeyComparator: leveldb学习/初始化/dbformat.c.
use study_history.Prelude.{◌<◌, ◌≡◌, sym, subst, arith, length, ◌⊎◌, inl, inr}
use study_history.Coding.{Bytes, put_fixed64}
use study_history.Comparator.{Comparator, IsOrder, Lt, Le}
use study_history.DbFormat.{
  extract_user_key, internal_compare, internal_comparator, shortened, find_shortest_separator,
  find_short_successor, pack_sequence_and_type, max_sequence_number, value_type_for_seek,
}
use study_history.DbFormat.Keys.{extract_user_key-tagged}

module _ (ucmp : Comparator) where
  -- What the shortening leaves: the key itself, or a shorter user key behind it with the earliest tag.
  shortened_cases :
      (key tmp : Bytes)
      → (shortened ucmp key tmp ≡ key)
        ⊎ ((extract_user_key (shortened ucmp key tmp) ≡ tmp)
            × (Lt ucmp (extract_user_key key) tmp)
            × (length tmp < length (extract_user_key key)))
  unfolding shortened put_fixed64
  shortened_cases key tmp = ground (
    arith,
    extract_user_key-tagged tmp (pack_sequence_and_type max_sequence_number value_type_for_seek),
  )

  internal_lt :
      (a b : Bytes)
      → Lt ucmp (extract_user_key a) (extract_user_key b)
      → Lt (internal_comparator ucmp) a b
  unfolding internal_comparator internal_compare
  internal_lt a b h = ground arith

  internal_refl : IsOrder ucmp → (a : Bytes) → Le (internal_comparator ucmp) a a
  unfolding internal_comparator internal_compare
  internal_refl o a = ground (arith, o.flips (extract_user_key a) (extract_user_key a))

  -- Where the user key of start is before that of limit, under a user comparator that is a total
  -- order and whose separator stays before its limit: the separator of two internal keys is before
  -- limit, and it is start itself or behind start and shorter.
  pub find_shortest_separator_bounds :
      (start limit : Bytes)
      → IsOrder ucmp
      → Lt ucmp (extract_user_key start) (extract_user_key limit)
      → ((a b : Bytes) → Lt ucmp a b → Lt ucmp (ucmp.find_shortest_separator a b) b)
      → Lt (internal_comparator ucmp) (find_shortest_separator ucmp start limit) limit
        × ((find_shortest_separator ucmp start limit ≡ start)
            ⊎ (Lt (internal_comparator ucmp) start (find_shortest_separator ucmp start limit)
                × (length (extract_user_key (find_shortest_separator ucmp start limit))
                    < length (extract_user_key start))))
  unfolding find_shortest_separator
  find_shortest_separator_bounds start limit o h below =
      let u = extract_user_key start in
      let w = extract_user_key limit in
      let tmp = ucmp.find_shortest_separator u w in
      let sep = shortened ucmp start tmp in
      elim (shortened_cases start tmp) [
        | inl kept ↦ (
          subst (λ k. Lt (internal_comparator ucmp) k limit) (sym kept) (internal_lt start limit h),
          inl kept,
        )
        | inr (cut, after, shorter) ↦ (
          internal_lt sep limit (subst (λ k. Lt ucmp k w) (sym cut) (below u w h)),
          inr (
            internal_lt start sep (subst (Lt ucmp u) (sym cut) after),
            subst (λ k. length k < length u) (sym cut) shorter,
          ),
        )
      ]

  -- The successor of a key lies at or behind it.
  pub find_short_successor_bounds :
      (key : Bytes)
      → IsOrder ucmp
      → Le (internal_comparator ucmp) key (find_short_successor ucmp key)
  unfolding find_short_successor
  find_short_successor_bounds key o =
      elim (shortened_cases key (ucmp.find_short_successor (extract_user_key key))) [
        | inl kept ↦ rw kept (internal_refl o key)
        | inr (cut, after, shorter) ↦ λ e. cc (
            internal_lt key (shortened ucmp key (ucmp.find_short_successor (extract_user_key key)))
              (rw cut after))
      ]
