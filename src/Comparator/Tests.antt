-- ===== src/Comparator/Tests.antt =====
-- Runs of the bytewise comparator, and its theorems at concrete keys.
use study_history.Prelude.{◌≤◌, ◌≡◌, refl, [], ◌∷◌, length}
use study_history.Comparator.{
  memcmp, slice_compare, bytewise_separator, bytewise_successor, bytewise_comparator, Lt, Le,
}
use study_history.Comparator.Bytewise.{slice_compare-lex, lex, bytewise_separator_bounds}

-- "the quick" and "the who" share "the ", and `q` + 1 is below `w`.
separator_run : bytewise_separator (b't' ∷ b'q' ∷ b'u' ∷ []) (b't' ∷ b'w' ∷ []) ≡ b't' ∷ b'r' ∷ []
unfolding bytewise_separator
separator_run = refl

successor_run : bytewise_successor (0xff ∷ 0xff ∷ 7 ∷ 8 ∷ []) ≡ 0xff ∷ 0xff ∷ 8 ∷ []
unfolding bytewise_successor
successor_run = refl

prefix_first : Lt bytewise_comparator (1 ∷ 2 ∷ 9 ∷ []) (1 ∷ 5 ∷ [])
unfolding bytewise_comparator slice_compare memcmp
prefix_first = refl

slice_compare-lex_example : slice_compare (1 ∷ 2 ∷ []) (1 ∷ []) ≡ lex (1 ∷ 2 ∷ []) (1 ∷ [])
slice_compare-lex_example = slice_compare-lex (1 ∷ 2 ∷ []) (1 ∷ [])

bytewise_separator_bounds_example :
    Le bytewise_comparator (1 ∷ 2 ∷ 9 ∷ []) (bytewise_separator (1 ∷ 2 ∷ 9 ∷ []) (1 ∷ 5 ∷ []))
    × Lt bytewise_comparator (bytewise_separator (1 ∷ 2 ∷ 9 ∷ []) (1 ∷ 5 ∷ [])) (1 ∷ 5 ∷ [])
    × (length (bytewise_separator (1 ∷ 2 ∷ 9 ∷ []) (1 ∷ 5 ∷ [])) ≤ 3)
bytewise_separator_bounds_example =
    bytewise_separator_bounds (1 ∷ 2 ∷ 9 ∷ []) (1 ∷ 5 ∷ []) prefix_first
