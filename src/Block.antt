-- ===== src/Block.antt =====
-- leveldb学习/sstable/block.h and block.c: the entries of a block and the iterator over them.
-- A pointer into the block is the offset from `data_`, and the slice `value_` an offset and a size;
-- the bytes from a pointer to a limit are a list. After CorruptionError the slice is empty and no
-- longer points into the block: the iterator is invalid then, and its offset is not read.
pub mod Decode
pub mod Parse
pub mod Found
pub mod Walk
mod Tests
use study_history.Prelude.{
  ℕ, zero, suc, ◌+◌, ◌-◌, ◌*◌, ◌/◌, ◌%◌, ◌^◌, List, [], ◌∷◌, ◌++◌, Bool, true, false, ◌&&◌, ◌||◌,
  not, Option, none, some, ltb, leb, ◌==◌, if◌then◌else◌, length, take, drop, get_or, bit_or,
}
use study_history.Coding.{Bytes, decode_fixed32, get_varint32_ptr}
use study_history.Comparator.{Comparator}
use study_history.FileSet.{is_lt}

-- What both ways of DecodeEntry end with: the three numbers, and the key delta and what follows it.
unfoldable pub checked_entry : ℕ → ℕ → ℕ → Bytes → Option (ℕ × ℕ × ℕ × Bytes)
checked_entry shared non_shared value_length p =
    if ltb (length p % 2 ^ 32) ((non_shared + value_length) % 2 ^ 32)
    then none
    else some (shared, non_shared, value_length, p)

-- The three varints, where one of them takes more than a byte.
unfoldable pub decode_slow : Bytes → Option (ℕ × ℕ × ℕ × Bytes)
unfolding checked_entry
decode_slow p = elim (get_varint32_ptr p) [
  | none ↦ none
  | some (shared, p1) ↦ elim (get_varint32_ptr p1) [
    | none ↦ none
    | some (non_shared, p2) ↦ elim (get_varint32_ptr p2) [
      | none ↦ none
      | some (value_length, p3) ↦ checked_entry shared non_shared value_length p3
    ]
  ]
]

-- DecodeEntry on the bytes from `p` to `limit`.
unfoldable pub decode_entry : Bytes → Option (ℕ × ℕ × ℕ × Bytes)
unfolding checked_entry decode_slow
decode_entry p =
    if ltb (length p) 3
    then none
    else (if ltb (bit_or (bit_or (get_or p 0 0) (get_or p 1 0)) (get_or p 2 0)) 128
        then checked_entry (get_or p 0 0) (get_or p 1 0) (get_or p 2 0) (drop 3 p)
        else decode_slow p)

-- `Block::Iter`
pub record BlockIter : Type 0 where
  pub contents : Bytes
  pub restarts : ℕ
  pub num_restarts : ℕ
  pub current : ℕ
  pub restart_index : ℕ
  pub key : Bytes
  pub value_at : ℕ
  pub value_size : ℕ
  pub corrupt : Bool

unfoldable pub new_block_iter : Bytes → ℕ → ℕ → BlockIter
new_block_iter contents restarts num_restarts = record {
  contents = contents;
  restarts = restarts;
  num_restarts = num_restarts;
  current = restarts;
  restart_index = num_restarts;
  key = [];
  value_at = 0;
  value_size = 0;
  corrupt = false;
}

unfoldable pub at_entry : BlockIter → Bool
at_entry it = ltb it.current it.restarts

unfoldable pub value_of : BlockIter → Bytes
value_of it = take it.value_size (drop it.value_at it.contents)

unfoldable pub next_entry_offset : BlockIter → ℕ
next_entry_offset it = (it.value_at + it.value_size) % 2 ^ 32

unfoldable pub restart_point : BlockIter → ℕ → ℕ
restart_point it index = decode_fixed32 (drop (it.restarts + index * 4) it.contents)

unfoldable pub seek_to_restart_point : BlockIter → ℕ → BlockIter
unfolding restart_point
seek_to_restart_point it index = record it {
  key = [];
  restart_index = index;
  value_at = restart_point it index;
  value_size = 0;
}

unfoldable pub corruption_error : BlockIter → BlockIter
corruption_error it = record it {
  current = it.restarts;
  restart_index = it.num_restarts;
  corrupt = true;
  key = [];
  value_at = 0;
  value_size = 0;
}

-- The loop that moves to the restart block of the entry, on fuel: a round for each restart point.
unfoldable pub advance_restart : ℕ → BlockIter → BlockIter
unfolding restart_point
advance_restart zero it = it
advance_restart (suc fuel) it =
    elim (ltb (it.restart_index + 1) it.num_restarts
      && ltb (restart_point it (it.restart_index + 1)) it.current) [
        | true ↦ advance_restart fuel (record it { restart_index = it.restart_index + 1 })
        | false ↦ it
      ]

-- What ParseNextKey does with a decoded entry, whose key delta is the start of `p`.
unfoldable pub take_entry : BlockIter → ℕ → ℕ → ℕ → Bytes → BlockIter × Bool
unfolding advance_restart corruption_error
take_entry it shared non_shared value_length p =
    if ltb (length it.key) shared then (corruption_error it, false) else (
      advance_restart it.num_restarts (record it {
        key = take shared it.key ++ take non_shared p;
        value_at = it.restarts - length p + non_shared;
        value_size = value_length;
      }),
      true,
    )

unfoldable pub parse_next_key : BlockIter → BlockIter × Bool
unfolding next_entry_offset take_entry corruption_error decode_entry
parse_next_key it =
    let offset = next_entry_offset it in
    if leb it.restarts offset
    then (record it { current = it.restarts; restart_index = it.num_restarts }, false)
    else elim (decode_entry (take (it.restarts - offset) (drop offset it.contents))) [
      | none ↦ (corruption_error (record it { current = offset }), false)
      | some (shared, non_shared, value_length, p) ↦
          take_entry (record it { current = offset }) shared non_shared value_length p
    ]

unfoldable pub next_entry : BlockIter → BlockIter
unfolding parse_next_key
next_entry it = (parse_next_key it).0

unfoldable pub first_entry : BlockIter → BlockIter
unfolding parse_next_key seek_to_restart_point
first_entry it = (parse_next_key (seek_to_restart_point it 0)).0

-- The loops of SeekToLast and of Prev: on to the last entry that starts before `limit`. Every round
-- moves on by three bytes at least, so that the size of the block is enough fuel.
unfoldable pub parse_until : ℕ → ℕ → BlockIter → BlockIter
unfolding parse_next_key next_entry_offset
parse_until zero limit it = it
parse_until (suc fuel) limit it =
    let (it', found) = parse_next_key it in
    elim (found && ltb (next_entry_offset it') limit) [
      | true ↦ parse_until fuel limit it'
      | false ↦ it'
    ]

unfoldable pub last_entry : BlockIter → BlockIter
unfolding parse_until seek_to_restart_point
last_entry it =
    parse_until (length it.contents) it.restarts (seek_to_restart_point it (it.num_restarts - 1))

-- The loop of Prev over the restart points: the last one before the entry, from an index down.
unfoldable pub restart_before : BlockIter → ℕ → ℕ → Option ℕ
unfolding restart_point
restart_before it original zero = if leb original (restart_point it 0) then none else some 0
restart_before it original (suc index) =
    let rest = restart_before it original index in
    if leb original (restart_point it (suc index)) then rest else some (suc index)

unfoldable pub prev_entry : BlockIter → BlockIter
unfolding restart_before parse_until seek_to_restart_point
prev_entry it = elim (restart_before it it.current it.restart_index) [
  | none ↦ record it { current = it.restarts; restart_index = it.num_restarts }
  | some index ↦ parse_until (length it.contents) it.current (seek_to_restart_point it index)
]

module _ (comparator : Comparator) where
  -- Where the binary search of Seek goes: `none` is a corrupt restart point.
  unfoldable pub restart_is_before : BlockIter → Bytes → ℕ → Option Bool
  unfolding restart_point decode_entry
  restart_is_before it target mid =
      let offset = restart_point it mid in
      elim (decode_entry (take (it.restarts - offset) (drop offset it.contents))) [
        | none ↦ none
        | some (shared, non_shared, value_length, p) ↦
            if not (shared == 0)
            then none
            else some (is_lt (comparator.compare (take non_shared p) target))
      ]

  -- The binary search, whose interval shrinks with every round.
  unfoldable pub search_restarts : BlockIter → Bytes → ℕ → ℕ → ℕ → Option ℕ
  unfolding restart_is_before
  search_restarts it target zero left right = some left
  search_restarts it target (suc fuel) left right =
      let mid = (left + right + 1) % 2 ^ 32 / 2 in
      elim (ltb left right) [
        | false ↦ some left
        | true ↦ elim (restart_is_before it target mid) [
          | none ↦ none
          | some true ↦ search_restarts it target fuel mid right
          | some false ↦ search_restarts it target fuel left (mid - 1)
        ]
      ]

  -- The linear search; every round moves on by three bytes at least.
  unfoldable pub scan_entries : ℕ → Bytes → BlockIter → BlockIter
  unfolding parse_next_key
  scan_entries zero target it = it
  scan_entries (suc fuel) target it =
      let (it', found) = parse_next_key it in
      elim (found && is_lt (comparator.compare it'.key target)) [
        | true ↦ scan_entries fuel target it'
        | false ↦ it'
      ]

  unfoldable pub seek_entry : BlockIter → Bytes → BlockIter
  unfolding search_restarts scan_entries seek_to_restart_point corruption_error
  seek_entry it target = elim (search_restarts it target it.num_restarts 0 (it.num_restarts - 1)) [
    | none ↦ corruption_error it
    | some left ↦ scan_entries (length it.contents) target (seek_to_restart_point it left)
  ]

-- The constructor of Block and NewIterator: an error, an iterator over nothing, or one over the block.
pub data Opened : Type 0 where
  bad_contents empty_block : Opened
  entries_from : BlockIter → Opened

-- `size_`, where 0 is the mark of an error.
unfoldable pub block_size_of : Bytes → ℕ
block_size_of contents =
    let size = length contents in
    let num_restarts = decode_fixed32 (drop (size - 4) contents) in
    if ltb size 4 then 0 else (if ltb ((size - 4) / 4) num_restarts then 0 else size)

unfoldable pub new_iterator : Bytes → Opened
unfolding block_size_of new_block_iter
new_iterator contents =
    let size = block_size_of contents in
    let num_restarts = decode_fixed32 (drop (size - 4) contents) in
    if ltb size 4
    then bad_contents
    else (if num_restarts == 0
        then empty_block
        else entries_from
            (new_block_iter contents ((size - (1 + num_restarts) * 4) % 2 ^ 32) num_restarts))
