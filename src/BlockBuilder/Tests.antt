-- ===== src/BlockBuilder/Tests.antt =====
-- Runs of the builder of a block.
use study_history.Prelude.{◌≡◌, refl, [], ◌∷◌}
use study_history.BlockBuilder.{new_block_builder, shared_length, add_entry, current_size_estimate}
use study_history.Coding.{encode_varint32}

two_shared : shared_length (1 ∷ 2 ∷ 3 ∷ []) (1 ∷ 2 ∷ 4 ∷ []) ≡ 2
unfolding shared_length
two_shared = refl

second_entry :
    (add_entry 16
      (add_entry 16 new_block_builder (1 ∷ 2 ∷ []) (7 ∷ []))
      (1 ∷ 3 ∷ [])
      (8 ∷ [])).buffer
    ≡ 0 ∷ 2 ∷ 1 ∷ 1 ∷ 2 ∷ 7 ∷ 1 ∷ 1 ∷ 1 ∷ 3 ∷ 8 ∷ []
unfolding add_entry new_block_builder encode_varint32
second_entry = refl

empty_estimate : current_size_estimate new_block_builder ≡ 8
unfolding current_size_estimate new_block_builder
empty_estimate = refl
