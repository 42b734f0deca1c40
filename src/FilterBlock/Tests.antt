-- ===== src/FilterBlock/Tests.antt =====
-- Theorems on the filter block at concrete inputs, with Bloom filters.
use study_history.Prelude.{refl, arith, List, [], ◌∷◌, ◌++◌, true, ◌≡◌}
use study_history.Coding.{Bytes}
use study_history.Bloom.{bloom_policy, create_filter}
use study_history.Bloom.NoFalseNegative.{key_may_match-create_filter}
use study_history.DbFormat.{FilterPolicy}
use study_history.FilterBlock.{
  finish, new_filter_reader, block_key_may_match, FilterBlockBuilder, new_filter_builder, add_key,
  generate_filter, start_data_block,
}
use study_history.FilterBlock.Builder.{
  IsFilterPolicy, Represents, new_filter_builder-Represents, add_key-Represents,
  generate_filter-Represents, start_data_block-Represents,
}
use study_history.FilterBlock.Reading.{block_key_may_match-finish}
use mathlib.Core.List.Memᴰ.{head}

-- The Bloom filter is a policy that the filter block can use.
bloom_policy-IsFilterPolicy : IsFilterPolicy (bloom_policy 10)
unfolding bloom_policy create_filter
bloom_policy-IsFilterPolicy = record {
  appends = λ keys dst. refl;
  matches = λ keys key member. key_may_match-create_filter 10 keys key member;
}

-- A policy whose filter lists the first bytes of its keys.
firsts : List Bytes → Bytes
firsts [] = []
firsts ([] ∷ keys) = firsts keys
firsts ((first ∷ key) ∷ keys) = first ∷ firsts keys

abbrev listing : FilterPolicy
listing = record { create_filter = λ keys dst. dst ++ firsts keys; key_may_match = λ key f. true }

listing-IsFilterPolicy : IsFilterPolicy listing
listing-IsFilterPolicy = record { appends = λ keys dst. refl; matches = λ keys key member. refl }

abbrev one_key : FilterBlockBuilder
one_key = add_key new_filter_builder (7 ∷ 8 ∷ [])

one_key-Represents : Represents listing one_key [] ((7 ∷ 8 ∷ []) ∷ [])
one_key-Represents =
    add_key-Represents listing new_filter_builder [] [] (new_filter_builder-Represents listing)
      (7 ∷ 8 ∷ [])

generate_filter-Represents_example :
    Represents listing (generate_filter listing one_key) (((7 ∷ 8 ∷ []) ∷ []) ∷ []) []
generate_filter-Represents_example =
    generate_filter-Represents listing one_key [] ((7 ∷ 8 ∷ []) ∷ []) listing-IsFilterPolicy
      one_key-Represents (omega arith)

start_data_block-Represents_example :
    Represents listing
      (start_data_block listing one_key 7000)
      (((7 ∷ 8 ∷ []) ∷ []) ∷ [] ∷ [] ∷ [])
      []
unfolding firsts
start_data_block-Represents_example =
    start_data_block-Represents listing one_key [] ((7 ∷ 8 ∷ []) ∷ []) 7000 listing-IsFilterPolicy
      one_key-Represents (omega arith) (omega arith)

block_key_may_match-finish_example :
    block_key_may_match listing (new_filter_reader (finish listing one_key)) 2000 (7 ∷ 8 ∷ [])
    ≡ true
unfolding firsts
block_key_may_match-finish_example =
    block_key_may_match-finish listing listing-IsFilterPolicy one_key [] ((7 ∷ 8 ∷ []) ∷ []) 2000
      (7 ∷ 8 ∷ []) one_key-Represents (omega arith) (head refl)
