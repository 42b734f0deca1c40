-- ===== src/DbIter/Tests.antt =====
-- The user's iterator at a concrete input: a list of versions with a position.
use study_history.Prelude.{ℕ, ◌≡◌, refl, ap, arith, Bool, true, false, List, [], ◌∷◌, some, drop}
use study_history.Coding.{Bytes}
use study_history.Comparator.{bytewise_comparator, slice_compare}
use study_history.Comparator.Bytewise.{bytewise_comparator-IsOrder}
use study_history.DbFormat.{ValueType, deletion, value, append_internal_key}
use study_history.DbIter.{Iterator, new_db_iterator, db_seek_to_first}
use study_history.DbIter.View.{Version, Reads, Rises, walk_forward}
use study_history.DbIter.Newest.{NewestFirst, newest_values}
use study_history.DbIter.Forward.{walk_forward-first}

abbrev version : ℕ → ℕ → ValueType → ℕ → Version
version k s t v = (record { user_key = k ∷ []; sequence = s; type = t }, v ∷ [])

abbrev versions : List Version
versions =
    version 1 9 value 90
    ∷ version 1 4 value 40
    ∷ version 2 5 deletion 0
    ∷ version 2 3 value 30
    ∷ version 3 2 value 20
    ∷ []

-- The iterator's state is what it still has to read.
abbrev is_some_version : List Version → Bool
is_some_version [] = false
is_some_version (e ∷ es) = true

abbrev key_here : List Version → Bytes
key_here [] = []
key_here (e ∷ es) = append_internal_key [] e.0

abbrev value_here : List Version → Bytes
value_here [] = []
value_here (e ∷ es) = e.1

abbrev list_iterator : Iterator (List Version)
list_iterator = record {
  valid = is_some_version;
  key = key_here;
  value = value_here;
  seek_to_first = λ s. versions;
  seek_to_last = λ s. drop 4 versions;
  seek = λ s target. versions;
  next = drop 1;
  prev = λ s. [];
}

list_iterator-Reads : Reads bytewise_comparator 6 list_iterator (λ s. s) versions
list_iterator-Reads = record {
  at_end = λ s e. ap is_some_version e;
  at_version = λ s e es h. ap is_some_version h;
  key_lem = λ s e es h. ap key_here h;
  value_lem = λ s e es h. ap value_here h;
  next_lem = λ s e es h. ap (drop 1) h;
  first_lem = λ s. refl;
}

seen_at_six :
    newest_values bytewise_comparator 6 versions versions
    ≡ (1 ∷ [], 40 ∷ []) ∷ (3 ∷ [], 20 ∷ []) ∷ []
unfolding bytewise_comparator slice_compare
seen_at_six = refl

versions-Rises : Rises bytewise_comparator 6 versions
unfolding bytewise_comparator slice_compare
versions-Rises = (
  ((λ h. cc (h)), ((λ h. cc (h)), ((λ h. cc (h)), ((λ h. cc (h)), tt)))),
  (
    ((λ h. cc (h)), ((λ h. cc (h)), ((λ h. cc (h)), tt))),
    (((λ h. cc (h)), ((λ h. cc (h)), tt)), (((λ h. cc (h)), tt), (tt, tt))),
  ),
)

versions-NewestFirst : NewestFirst bytewise_comparator 6 versions
unfolding bytewise_comparator slice_compare
versions-NewestFirst = (
  ((λ h. omega arith), ((λ h. omega arith), ((λ h. omega arith), ((λ h. omega arith), tt)))),
  (
    ((λ h. absurd (cc (h))), ((λ h. absurd (cc (h))), ((λ h. absurd (cc (h))), tt))),
    (((λ h. omega arith), ((λ h. absurd (cc (h))), tt)), (((λ h. absurd (cc (h))), tt), (tt, tt))),
  ),
)

walk_forward-first_example :
    walk_forward bytewise_comparator 6 list_iterator 5 6
      (db_seek_to_first list_iterator bytewise_comparator 6 5 (new_db_iterator []))
    ≡ some ((1 ∷ [], 40 ∷ []) ∷ (3 ∷ [], 20 ∷ []) ∷ [])
unfolding bytewise_comparator slice_compare
walk_forward-first_example =
    walk_forward-first bytewise_comparator 6 bytewise_comparator-IsOrder.0 list_iterator (λ s. s)
      versions list_iterator-Reads (new_db_iterator []) (omega arith) versions-Rises
      versions-NewestFirst
