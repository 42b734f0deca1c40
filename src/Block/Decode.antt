-- ===== src/Block/Decode.antt =====
-- DecodeEntry of leveldb学习/sstable/block.c on what the builder of a block writes.
use study_history.Prelude.{
  ℕ, ◌+◌, ◌-◌, ◌^◌, ◌≤◌, ◌<◌, ◌≡◌, refl, sym, ◌∙◌, arith, [], ◌∷◌, ◌++◌, Bool-cases, inl, inr, some,
  ltb, ltb→lt, le→ltb, length, drop, append_assoc, length-append, length-drop, bit_or,
}
use study_history.Prelude.Bits.{le-bit_or, top_bit}
use study_history.Coding.{
  Bytes, IsU32, encode_varint32, get_varint32_ptr, get_varint32_ptr_fallback,
}
use study_history.Coding.Varint.{get_varint32_ptr-put}
use study_history.BlockBuilder.Entries.{entry_bytes}
use study_history.Block.{checked_entry, decode_slow, decode_entry}
use native.Mathlib.Nat.{mod-eq_of_lt}

one_byte : (a : ℕ) (p : Bytes) → a < 128 → get_varint32_ptr (a ∷ p) ≡ some (a, p)
unfolding get_varint32_ptr
one_byte a p h = ground (arith, top_bit a)

three_bytes :
    (a b c : ℕ) (p : Bytes)
    → a < 128
    → b < 128
    → c < 128
    → decode_slow (a ∷ b ∷ c ∷ p) ≡ checked_entry a b c p
unfolding decode_slow
three_bytes a b c p ha hb hc =
    rw (decode_slow, one_byte a (b ∷ c ∷ p) ha, one_byte b (c ∷ p) hb, one_byte c p hc) refl

-- The fast path of DecodeEntry gives what the three varints give.
pub decode_entry-slow : (p : Bytes) → 3 ≤ length p → decode_entry p ≡ decode_slow p
unfolding decode_entry decode_slow
decode_entry-slow [] h = absurd (omega arith)
decode_entry-slow (a ∷ []) h = absurd (omega arith)
decode_entry-slow (a ∷ b ∷ []) h = absurd (omega arith)
decode_entry-slow (a ∷ b ∷ c ∷ p) h =
    let long = le→ltb (length (a ∷ b ∷ c ∷ p)) 3 h in
    elim (Bool-cases (ltb (bit_or (bit_or a b) c) 128)) [
      | inl fast ↦
          let small = ltb→lt (bit_or (bit_or a b) c) 128 fast in
          let outer = le-bit_or (bit_or a b) c in
          let inner = le-bit_or a b in
          rw (long, fast) (sym (three_bytes a b c p (omega arith) (omega arith) (omega arith)))
      | inr slow ↦ rw (long, slow) refl
    ]

nonempty : (xs : Bytes) (v : ℕ) → get_varint32_ptr (xs ++ []) ≡ some (v, []) → 1 ≤ length xs
unfolding get_varint32_ptr get_varint32_ptr_fallback
nonempty [] v e = cc (e)
nonempty (x ∷ xs) v e = omega arith

length-encode_varint32_pos : (v : ℕ) → IsU32 v → 1 ≤ length (encode_varint32 v)
length-encode_varint32_pos v h = nonempty (encode_varint32 v) v (get_varint32_ptr-put v [] h)

-- The bytes of an entry are long enough.
pub length-entry_bytes :
    (shared : ℕ) (key value : Bytes)
    → IsU32 shared
    → IsU32 (length key)
    → IsU32 (length value)
    → 3 + length value ≤ length (entry_bytes shared key value)
length-entry_bytes shared key value hs hk hv =
    let s = encode_varint32 shared in
    let n = encode_varint32 (length key - shared) in
    let v = encode_varint32 (length value) in
    omega (
      arith,
      length-append s (n ++ (v ++ (drop shared key ++ value))),
      length-append n (v ++ (drop shared key ++ value)),
      length-append v (drop shared key ++ value),
      length-append (drop shared key) value,
      length-encode_varint32_pos shared hs,
      length-encode_varint32_pos (length key - shared) (omega arith),
      length-encode_varint32_pos (length value) hv,
    )

decode_slow-entry_bytes :
    (shared : ℕ) (key value rest : Bytes)
    → shared ≤ length key
    → IsU32 (length (drop shared key ++ (value ++ rest)))
    → IsU32 shared
    → decode_slow (entry_bytes shared key value ++ rest)
      ≡ some (shared, length key - shared, length value, drop shared key ++ (value ++ rest))
unfolding checked_entry decode_slow
decode_slow-entry_bytes shared key value rest within small hs =
    let s = encode_varint32 shared in
    let n = encode_varint32 (length key - shared) in
    let v = encode_varint32 (length value) in
    let tail = drop shared key ++ (value ++ rest) in
    let count = length-append (drop shared key) (value ++ rest) in
    let count' = length-append value rest in
    let deltas = length-drop shared key in
    let regroup : entry_bytes shared key value ++ rest ≡ s ++ (n ++ (v ++ tail)) =
      simp append_assoc in
    let whole = mod-eq_of_lt {n = length tail} {m = 2 ^ 32} small in
    let part =
      mod-eq_of_lt {n = length key - shared + length value} {m = 2 ^ 32}
        (omega (arith, count, count', deltas)) in
    let fits =
      le→ltb (length tail) (length key - shared + length value)
        (omega (arith, count, count', deltas)) in
    rw
      (
        regroup,
        decode_slow,
        get_varint32_ptr-put shared (n ++ (v ++ tail)) hs,
        get_varint32_ptr-put (length key - shared) (v ++ tail) (omega (arith, count, deltas)),
        get_varint32_ptr-put (length value) tail (omega (arith, count, count')),
        whole,
        part,
        fits,
      )
      refl

pub decode_entry-entry_bytes :
    (shared : ℕ) (key value rest : Bytes)
    → shared ≤ length key
    → IsU32 (length key)
    → IsU32 (length (drop shared key ++ (value ++ rest)))
    → decode_entry (entry_bytes shared key value ++ rest)
      ≡ some (shared, length key - shared, length value, drop shared key ++ (value ++ rest))
decode_entry-entry_bytes shared key value rest within hk small =
    let count = length-append (drop shared key) (value ++ rest) in
    let count' = length-append value rest in
    decode_entry-slow (entry_bytes shared key value ++ rest) (
      omega (
        arith,
        length-append (entry_bytes shared key value) rest,
        length-entry_bytes shared key value (omega arith) hk (omega (arith, count, count')),
      ))
    ∙ decode_slow-entry_bytes shared key value rest within small (omega arith)
