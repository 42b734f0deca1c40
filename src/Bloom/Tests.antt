-- ===== src/Bloom/Tests.antt =====
-- Runs of the Bloom filter, and its theorem at a concrete input.
use study_history.Prelude.{◌≡◌, refl, [], ◌∷◌, true}
use study_history.Bloom.{hash, hash_loop, probes, filter_bytes, create_filter, key_may_match}
use study_history.Bloom.NoFalseNegative.{key_may_match-create_filter}
use mathlib.Core.List.Memᴰ.{head, tail}

hash_of_nothing : hash [] 0xbc9f1d34 ≡ 0xbc9f1d34
unfolding hash hash_loop
hash_of_nothing = refl

ten_bits : probes 10 ≡ 6
unfolding probes
ten_bits = refl

-- A filter for no keys has 64 bits.
least_filter : filter_bytes 10 0 ≡ 8
unfolding filter_bytes
least_filter = refl

key_may_match-create_filter_example :
    key_may_match (7 ∷ 8 ∷ []) (create_filter 10 ((1 ∷ []) ∷ (7 ∷ 8 ∷ []) ∷ []) []) ≡ true
key_may_match-create_filter_example =
    key_may_match-create_filter 10 ((1 ∷ []) ∷ (7 ∷ 8 ∷ []) ∷ []) (7 ∷ 8 ∷ []) (tail (head refl))
