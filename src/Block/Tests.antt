-- ===== src/Block/Tests.antt =====
-- Theorems on the entries of a block at concrete inputs.
use study_history.Prelude.{◌≡◌, refl, arith, List, [], ◌∷◌, none, some}
use study_history.Coding.{
  Bytes, encode_varint32, encode_fixed32, put_fixed32, get_varint32_ptr, get_varint32_ptr_fallback,
}
use study_history.BlockBuilder.{new_block_builder, add_entry, finish_block}
use study_history.Block.{
  BlockIter, new_block_iter, entries_from, new_iterator, first_entry, decode_entry, decode_slow,
  checked_entry,
}
use study_history.Block.Walk.{walk, add_all, walk-finish_block}

abbrev fruit : List (Bytes × Bytes)
fruit = (1 ∷ 2 ∷ [], 7 ∷ []) ∷ (1 ∷ 3 ∷ [], 8 ∷ 9 ∷ []) ∷ (2 ∷ [], []) ∷ []

walk-finish_block_example :
    (it : BlockIter) × (new_iterator (finish_block (add_all 2 new_block_builder fruit)).buffer
      ≡ entries_from it)
    × (walk 4 (first_entry it) ≡ fruit)
unfolding finish_block new_block_builder add_entry encode_varint32 encode_fixed32 put_fixed32
walk-finish_block_example = walk-finish_block 2 fruit (omega arith) (omega arith)

-- A block of one byte of entries, which are none.
abbrev damaged : BlockIter
damaged = new_block_iter (5 ∷ 0 ∷ 0 ∷ 0 ∷ 0 ∷ 1 ∷ 0 ∷ 0 ∷ 0 ∷ []) 1 1

too_short : decode_entry (0 ∷ 1 ∷ []) ≡ none
unfolding decode_entry
too_short = refl

-- The lengths of this entry sum up to 2 ^ 32, so that their sum wraps to 0 and passes the check
-- though no byte is left.
wrapped_lengths :
    decode_entry (0 ∷ 255 ∷ 255 ∷ 255 ∷ 255 ∷ 15 ∷ 1 ∷ []) ≡ some (0, 4294967295, 1, [])
unfolding decode_entry decode_slow checked_entry get_varint32_ptr get_varint32_ptr_fallback
wrapped_lengths = refl
