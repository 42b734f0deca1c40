-- ===== src/DbIter.antt =====
-- leveldb学习/初始化/db_iter.c: the iterator over the keys and values of a database. The iterator over the internal entries (leveldb/iterator.h) is a parameter.
-- ParseKey also samples what is read, to schedule compactions: it changes nothing that the
-- iterator answers and is left out. The capacity of the saved value is not modelled.
pub mod View
pub mod Newest
pub mod Round
pub mod Forward
mod Tests
use study_history.Prelude.{
  ℕ, zero, suc, List, [], Bool, true, false, ◌&&◌, not, Option, none, some, ltb, if◌then◌else◌,
}
use study_history.Coding.{Bytes}
use study_history.Comparator.{Comparator}
use study_history.DbFormat.{
  ParsedInternalKey, ValueType, deletion, value, parse_internal_key, extract_user_key,
  append_internal_key, value_type_for_seek,
}
use study_history.FileSet.{is_lt, is_gt}

-- `leveldb::Iterator`
pub record Iterator (S : Type 0) : Type 0 where
  pub valid : S → Bool
  pub key : S → Bytes
  pub value : S → Bytes
  pub seek_to_first : S → S
  pub seek_to_last : S → S
  pub seek : S → Bytes → S
  pub next : S → S
  pub prev : S → S

pub data Direction : Type 0 where
  forward reverse : Direction

pub record DbIter (S : Type 0) : Type 0 where
  pub iter : S
  pub corrupt : Bool
  pub saved_key : Bytes
  pub saved_value : Bytes
  pub direction : Direction
  pub valid : Bool

unfoldable pub new_db_iterator : {S : Type 0} → S → DbIter S
new_db_iterator iter = record {
  iter = iter;
  corrupt = false;
  saved_key = [];
  saved_value = [];
  direction = forward;
  valid = false;
}

-- What the loop of FindNextUserEntry does with one entry: it goes on, with `skipping`, or returns.
pub data Examined (S : Type 0) : Type 0 where
  pass : DbIter S → Bool → Examined S
  yield : DbIter S → Examined S

module _ {S : Type 0} (ops : Iterator S) where
  pub db_key_at : Direction → DbIter S → Bytes
  db_key_at forward it = extract_user_key (ops.key it.iter)
  db_key_at reverse it = it.saved_key

  unfoldable pub db_key : DbIter S → Bytes
  unfolding db_key_at
  db_key it = db_key_at it.direction it

  pub db_value_at : Direction → DbIter S → Bytes
  db_value_at forward it = ops.value it.iter
  db_value_at reverse it = it.saved_value

  unfoldable pub db_value : DbIter S → Bytes
  unfolding db_value_at
  db_value it = db_value_at it.direction it

  module _ (user_comparator : Comparator) (sequence : ℕ) where
    -- The `switch` on the type of a visible entry; `skip` always points to `saved_key_`.
    unfoldable pub on_type : DbIter S → Bool → Bytes → ValueType → Examined S
    on_type it skipping user_key deletion = pass (record it { saved_key = user_key }) true
    on_type it skipping user_key value =
        if skipping && not (is_gt (user_comparator.compare user_key it.saved_key))
        then pass it skipping
        else yield (record it { valid = true; saved_key = [] })

    unfoldable pub examine : DbIter S → Bool → Examined S
    unfolding on_type
    examine it skipping = elim (parse_internal_key (ops.key it.iter)) [
      | none ↦ pass (record it { corrupt = true }) skipping
      | some ikey ↦
          if ltb sequence ikey.sequence
          then pass it skipping
          else on_type it skipping ikey.user_key ikey.type
    ]

    -- The `do` loop on fuel, of which a round for each entry is enough.
    unfoldable pub find_next_user_entry : ℕ → DbIter S → Bool → Option (DbIter S)
    unfolding examine
    find_next_user_entry zero it skipping = none
    find_next_user_entry (suc fuel) it skipping = elim (examine it skipping) [
      | yield it' ↦ some it'
      | pass it' skipping' ↦
          let moved = record it' { iter = ops.next it'.iter } in
          elim (ops.valid moved.iter) [
            | true ↦ find_next_user_entry fuel moved skipping'
            | false ↦ some (record moved { saved_key = []; valid = false })
          ]
    ]

    -- The change of direction of Next: `none` if there is no entry behind.
    pub enter_entries : DbIter S → DbIter S
    enter_entries it = record it {
      direction = forward;
      iter = if not (ops.valid it.iter) then ops.seek_to_first it.iter else ops.next it.iter;
    }

    pub next_from : Direction → ℕ → DbIter S → Option (DbIter S)
    unfolding enter_entries find_next_user_entry
    next_from forward fuel it =
        find_next_user_entry fuel (record it { saved_key = extract_user_key (ops.key it.iter) })
          true
    next_from reverse fuel it =
        let it' = enter_entries it in
        elim (ops.valid it'.iter) [
          | true ↦ find_next_user_entry fuel it' true
          | false ↦ some (record it' { valid = false; saved_key = [] })
        ]

    unfoldable pub db_next : ℕ → DbIter S → Option (DbIter S)
    unfolding next_from
    db_next fuel it = next_from it.direction fuel it

    -- What Seek and SeekToFirst end with.
    pub found_from : ℕ → DbIter S → Option (DbIter S)
    unfolding find_next_user_entry
    found_from fuel it = elim (ops.valid it.iter) [
      | true ↦ find_next_user_entry fuel it false
      | false ↦ some (record it { valid = false })
    ]

    unfoldable pub db_seek : ℕ → DbIter S → Bytes → Option (DbIter S)
    unfolding found_from
    db_seek fuel it target =
        let saved_key =
          append_internal_key []
            (record { user_key = target; sequence = sequence; type = value_type_for_seek }) in
        found_from fuel (record it {
          direction = forward;
          saved_value = [];
          saved_key = saved_key;
          iter = ops.seek it.iter saved_key;
        })

    unfoldable pub db_seek_to_first : ℕ → DbIter S → Option (DbIter S)
    unfolding found_from
    db_seek_to_first fuel it =
        found_from fuel
          (record it { direction = forward; saved_value = []; iter = ops.seek_to_first it.iter })

    -- FindPrevUserEntry: what its loop keeps of a visible entry.
    pub keep : DbIter S → ValueType → DbIter S
    keep it deletion = record it { saved_key = []; saved_value = [] }
    keep it value = record it {
      saved_key = extract_user_key (ops.key it.iter);
      saved_value = ops.value it.iter;
    }

    pub is_value : ValueType → Bool
    is_value deletion = false
    is_value value = true

    -- One entry on the way back: where the loop goes on, or `none` where it breaks.
    unfoldable pub examine_back : DbIter S → ValueType → Option (DbIter S × ValueType)
    unfolding keep is_value
    examine_back it value_type = elim (parse_internal_key (ops.key it.iter)) [
      | none ↦ some (record it { corrupt = true }, value_type)
      | some ikey ↦
          if ltb sequence ikey.sequence
          then some (it, value_type)
          else (if is_value value_type && is_lt (user_comparator.compare ikey.user_key it.saved_key)
              then none
              else some (keep it ikey.type, ikey.type))
    ]

    unfoldable pub find_prev_loop : ℕ → DbIter S → ValueType → Option (DbIter S × ValueType)
    unfolding examine_back
    find_prev_loop zero it value_type = none
    find_prev_loop (suc fuel) it value_type = elim (examine_back it value_type) [
      | none ↦ some (it, value_type)
      | some (it', value_type') ↦
          let moved = record it' { iter = ops.prev it'.iter } in
          elim (ops.valid moved.iter) [
            | true ↦ find_prev_loop fuel moved value_type'
            | false ↦ some (moved, value_type')
          ]
    ]

    pub end_prev : DbIter S → ValueType → DbIter S
    end_prev it deletion = record it {
      valid = false;
      saved_key = [];
      saved_value = [];
      direction = forward;
    }
    end_prev it value = record it { valid = true }

    unfoldable pub find_prev_user_entry : ℕ → DbIter S → Option (DbIter S)
    unfolding find_prev_loop end_prev
    find_prev_user_entry fuel it = elim (ops.valid it.iter) [
      | false ↦ some (end_prev it deletion)
      | true ↦ elim (find_prev_loop fuel it deletion) [
        | none ↦ none
        | some (it', value_type) ↦ some (end_prev it' value_type)
      ]
    ]

    -- The change of direction of Prev: back until the user key changes.
    unfoldable pub leave_entries : ℕ → DbIter S → Option (DbIter S × Bool)
    leave_entries zero it = none
    leave_entries (suc fuel) it =
        let moved = record it { iter = ops.prev it.iter } in
        elim (ops.valid moved.iter) [
          | false ↦ some (record moved { valid = false; saved_key = []; saved_value = [] }, false)
          | true ↦
              elim (is_lt
                (user_comparator.compare (extract_user_key (ops.key moved.iter)) moved.saved_key)) [
                  | true ↦ some (record moved { direction = reverse }, true)
                  | false ↦ leave_entries fuel moved
                ]
        ]

    pub prev_from : Direction → ℕ → DbIter S → Option (DbIter S)
    unfolding leave_entries find_prev_user_entry
    prev_from reverse fuel it = find_prev_user_entry fuel it
    prev_from forward fuel it =
        elim (leave_entries fuel (record it { saved_key = extract_user_key (ops.key it.iter) })) [
          | none ↦ none
          | some (it', found) ↦ elim found [
            | true ↦ find_prev_user_entry fuel it'
            | false ↦ some it'
          ]
        ]

    unfoldable pub db_prev : ℕ → DbIter S → Option (DbIter S)
    unfolding prev_from
    db_prev fuel it = prev_from it.direction fuel it

    unfoldable pub db_seek_to_last : ℕ → DbIter S → Option (DbIter S)
    unfolding find_prev_user_entry
    db_seek_to_last fuel it =
        find_prev_user_entry fuel
          (record it { direction = reverse; saved_value = []; iter = ops.seek_to_last it.iter })
