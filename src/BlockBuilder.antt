-- ===== src/BlockBuilder.antt =====
-- leveldb学习/sstable/block_builder.h and block_builder.c: the builder of a block of a table, which
-- stores of each key what it does not share with the key before it, but for the restart points.
-- `options_->block_restart_interval` is an argument; the assertions are not run in a release build.
pub mod Entries
mod Tests
use study_history.Prelude.{
  ℕ, zero, suc, ◌+◌, ◌-◌, ◌*◌, ◌%◌, ◌^◌, List, [], ◌∷◌, ◌++◌, Bool, true, false, ltb, ◌==◌,
  if◌then◌else◌, length, take, drop,
}
use study_history.Coding.{Bytes, put_varint32, put_fixed32}

pub record BlockBuilder : Type 0 where
  pub buffer : Bytes
  pub restarts : List ℕ
  pub counter : ℕ
  pub finished : Bool
  pub last_key : Bytes

-- The constructor, and what Reset leaves of any builder.
unfoldable pub new_block_builder : BlockBuilder
new_block_builder = record {
  buffer = [];
  restarts = 0 ∷ [];
  counter = 0;
  finished = false;
  last_key = [];
}

unfoldable pub reset_block : BlockBuilder → BlockBuilder
reset_block b = record b {
  buffer = [];
  restarts = 0 ∷ [];
  counter = 0;
  finished = false;
  last_key = [];
}

unfoldable pub current_size_estimate : BlockBuilder → ℕ
current_size_estimate b = length b.buffer + length b.restarts * 4 + 4

-- The loop over the bytes that two keys share.
unfoldable pub shared_length : Bytes → Bytes → ℕ
shared_length (x ∷ last) (y ∷ key) = if x == y then suc (shared_length last key) else 0
shared_length last key = 0

-- What is written of an entry that shares so many bytes with the key before.
unfoldable pub put_entry : Bytes → ℕ → Bytes → Bytes → Bytes
unfolding put_varint32
put_entry buffer shared key value =
    let non_shared = length key - shared in
    let header =
      put_varint32 (put_varint32 (put_varint32 buffer (shared % 2 ^ 32)) (non_shared % 2 ^ 32))
        (length value % 2 ^ 32) in
    header ++ (drop shared key ++ value)

unfoldable pub add_entry : ℕ → BlockBuilder → Bytes → Bytes → BlockBuilder
unfolding shared_length put_entry
add_entry restart_interval b key value =
    if ltb b.counter restart_interval
    then (let shared = shared_length b.last_key key in
        record b {
          buffer = put_entry b.buffer shared key value;
          last_key = take shared b.last_key ++ drop shared key;
          counter = b.counter + 1;
        })
    else record b {
      buffer = put_entry b.buffer 0 key value;
      restarts = b.restarts ++ (length b.buffer % 2 ^ 32) ∷ [];
      last_key = key;
      counter = 1;
    }

-- The loop that appends the restart points.
unfoldable pub put_restarts : Bytes → List ℕ → Bytes
put_restarts buffer [] = buffer
put_restarts buffer (restart ∷ restarts) = put_restarts (put_fixed32 buffer restart) restarts

unfoldable pub finish_block : BlockBuilder → BlockBuilder
unfolding put_restarts
finish_block b = record b {
  buffer = put_fixed32 (put_restarts b.buffer b.restarts) (length b.restarts % 2 ^ 32);
  finished = true;
}
