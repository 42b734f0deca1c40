-- ===== src/BlockBuilder/Entries.antt =====
-- What the builder of a block writes: leveldb学习/sstable/block_builder.c.
use study_history.Prelude.{
  ℕ, ◌-◌, ◌^◌, ◌≤◌, ◌≡◌, refl, ap, ◌∙◌, arith, [], ◌∷◌, ◌++◌, Bool-cases, inl, inr, ltb, ◌==◌,
  ==_iff, if◌then◌else◌, length, take, drop, append_assoc,
}
use study_history.Coding.{Bytes, IsU32, put_varint32, encode_varint32}
use study_history.BlockBuilder.{BlockBuilder, shared_length, put_entry, add_entry}
use native.Mathlib.Nat.{mod-eq_of_lt}

-- The bytes of an entry.
abbrev pub entry_bytes : ℕ → Bytes → Bytes → Bytes
entry_bytes shared key value =
    encode_varint32 shared
    ++ (encode_varint32 (length key - shared)
        ++ (encode_varint32 (length value) ++ (drop shared key ++ value)))

-- What two keys share is a start of both.
pub shared_length_bounds :
    (last key : Bytes)
    → (shared_length last key ≤ length last)
      × (shared_length last key ≤ length key)
      × (take (shared_length last key) last ++ drop (shared_length last key) key ≡ key)
unfolding shared_length
shared_length_bounds [] key = (omega arith, omega arith, refl)
shared_length_bounds (x ∷ last) [] = (omega arith, omega arith, refl)
shared_length_bounds (x ∷ last) (y ∷ key) = elim (Bool-cases (x == y)) [
  | inl same ↦
      let ih = shared_length_bounds last key in
      let equal = (==_iff x y).0 same in
      rw same (omega (arith, ih.0), omega (arith, ih.1), ap (◌∷◌ x) ih.2 ∙ ap (λ z. z ∷ key) equal)
  | inr differs ↦ rw differs (omega arith, omega arith, refl)
]

-- The length of what an entry shares with the key before it, by what the builder does.
abbrev pub shared_by : ℕ → BlockBuilder → Bytes → ℕ
shared_by interval b key = if ltb b.counter interval then shared_length b.last_key key else 0

put_entry_lem :
    (buffer : Bytes) (shared : ℕ) (key value : Bytes)
    → IsU32 (length key)
    → IsU32 (length value)
    → shared ≤ length key
    → put_entry buffer shared key value ≡ buffer ++ entry_bytes shared key value
unfolding put_entry put_varint32
put_entry_lem buffer shared key value small_key small_value within =
    let s = mod-eq_of_lt {n = shared} {m = 2 ^ 32} (omega arith) in
    let n = mod-eq_of_lt {n = length key - shared} {m = 2 ^ 32} (omega arith) in
    let v = mod-eq_of_lt {n = length value} {m = 2 ^ 32} (omega arith) in
    rw (s, n, v) (simp append_assoc)

-- An added entry: the bytes that are written, and the new last key.
pub add_entry_lem :
    (interval : ℕ) (b : BlockBuilder) (key value : Bytes)
    → IsU32 (length key)
    → IsU32 (length value)
    → ((add_entry interval b key value).buffer
        ≡ b.buffer ++ entry_bytes (shared_by interval b key) key value)
      × ((add_entry interval b key value).last_key ≡ key)
unfolding add_entry
add_entry_lem interval b key value small_key small_value =
    elim (Bool-cases (ltb b.counter interval)) [
      | inl sharing ↦
          let bounds = shared_length_bounds b.last_key key in
          rw sharing (
            put_entry_lem b.buffer (shared_length b.last_key key) key value small_key small_value
                bounds.1,
            bounds.2,
          )
      | inr restart ↦
          rw restart (put_entry_lem b.buffer 0 key value small_key small_value (omega arith), refl)
    ]
