-- ===== src/Block/Found.antt =====
-- ParseNextKey on a block of any bytes: leveldb学习/sstable/block.c.
use study_history.Prelude.{
  ℕ, ◌-◌, ◌≡◌, Bool, false, not, ◌&&◌, ◌||◌, Option, none, some, leb, length, take, drop,
}
use study_history.Coding.{Bytes}
use study_history.Block.{BlockIter, at_entry, next_entry_offset}

-- Where the next entry would start, and the bytes from there to the end of the entries.
abbrev pub bytes_left : BlockIter → Bytes
bytes_left it = take (it.restarts - next_entry_offset it) (drop (next_entry_offset it) it.contents)

abbrev pub is_past : BlockIter → Bool
is_past it = leb it.restarts (next_entry_offset it)

-- Whether an entry was decoded that shares no more bytes than the key before it has.
abbrev pub shares_enough : BlockIter → Option (ℕ × ℕ × ℕ × Bytes) → Bool
shares_enough it none = false
shares_enough it (some (shared, non_shared, value_length, p)) = leb shared (length it.key)

-- What is known of a result, by whether the entries are at their end and the next one is sound.
abbrev Tells : Bool → Bool → BlockIter → BlockIter × Bool → Type 0
Tells past sound it (it', found) =
    (found ≡ not past && sound)
    × (at_entry it' ≡ not past && sound)
    × (it'.corrupt ≡ (not past && not sound) || it.corrupt)
    × (it'.contents ≡ it.contents)
    × (it'.restarts ≡ it.restarts)
