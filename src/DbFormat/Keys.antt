-- ===== src/DbFormat/Keys.antt =====
-- The parts of an internal key: leveldb学习/初始化/dbformat.c and dbformat.h.
use study_history.Prelude.{
  ℕ, ◌+◌, ◌-◌, ◌*◌, ◌%◌, ◌^◌, ◌≤◌, ◌<◌, ◌≡◌, refl, sym, ap, ◌∙◌, arith, bit_or, [], ◌++◌, some,
  length, drop, length-append, take-append, drop-append, append-nil, append_assoc,
}
use study_history.Prelude.Bits.{bit_or_disjoint}
use study_history.Coding.{Bytes, encode_fixed64, decode_fixed64, put_fixed64, encode_varint32}
use study_history.Coding.Fixed.{decode-encode_fixed64, length-encode_fixed64}
use study_history.DbFormat.{
  ValueType, deletion, value, type_code, max_sequence_number, value_type_for_seek,
  ParsedInternalKey, pack_sequence_and_type, append_internal_key, internal_key, extract_user_key,
  extract_tag, type_of_code, parse_internal_key, lookup_key, lookup_internal_key, lookup_user_key,
}
use native.Mathlib.Nat.{mod-eq_of_lt}

-- PackSequenceAndType puts the type below the sequence number.
pub pack_lem :
    (seq : ℕ) (t : ValueType)
    → seq ≤ max_sequence_number
    → pack_sequence_and_type seq t ≡ seq * 256 + type_code t
unfolding pack_sequence_and_type
pack_lem seq deletion h = omega (
  arith,
  ap (λ (x : ℕ). bit_or 0 x) (mod-eq_of_lt {n = seq * 2 ^ 8} {m = 2 ^ 64} (omega arith)),
  bit_or_disjoint 8 0 seq (omega arith),
)
pack_lem seq value h = omega (
  arith,
  ap (λ (x : ℕ). bit_or 1 x) (mod-eq_of_lt {n = seq * 2 ^ 8} {m = 2 ^ 64} (omega arith)),
  bit_or_disjoint 8 1 seq (omega arith),
)

-- A tag of eight bytes is cut off again.
cut_length : (u : Bytes) (n : ℕ) → length (u ++ encode_fixed64 n) - 8 ≡ length u
cut_length u n = omega (arith, length-append u (encode_fixed64 n), length-encode_fixed64 n)

pub extract_user_key-tagged : (u : Bytes) (n : ℕ) → extract_user_key (u ++ encode_fixed64 n) ≡ u
extract_user_key-tagged u n = rw (cut_length u n) (take-append u (encode_fixed64 n))

pub extract_tag-tagged : (u : Bytes) (n : ℕ) → n < 2 ^ 64 → extract_tag (u ++ encode_fixed64 n) ≡ n
extract_tag-tagged u n h =
    rw (cut_length u n, drop-append)
      (ap decode_fixed64 (sym (append-nil (encode_fixed64 n))) ∙ decode-encode_fixed64 n [] h)

pub internal_key_lem :
    (u : Bytes) (s : ℕ) (t : ValueType)
    → internal_key u s t ≡ u ++ encode_fixed64 (pack_sequence_and_type s t)
unfolding append_internal_key put_fixed64
internal_key_lem u s t = refl

-- The user key and the tag of an internal key that AppendInternalKey made.
pub internal_key-parts :
    (u : Bytes) (s : ℕ) (t : ValueType)
    → s ≤ max_sequence_number
    → (extract_user_key (internal_key u s t) ≡ u)
      × (extract_tag (internal_key u s t) ≡ s * 256 + type_code t)
internal_key-parts u s t h =
    rw (internal_key_lem u s t, pack_lem s t h)
      (
        extract_user_key-tagged u (s * 256 + type_code t),
        extract_tag-tagged u (s * 256 + type_code t) (code_bound t),
      )
  where
    code_bound : (t : ValueType) → s * 256 + type_code t < 2 ^ 64
    code_bound deletion = omega arith
    code_bound value = omega arith

length-internal_key :
    (u : Bytes) (s : ℕ) (t : ValueType) → length (internal_key u s t) ≡ length u + 8
length-internal_key u s t =
    rw (internal_key_lem u s t, length-append)
      (omega (arith, length-encode_fixed64 (pack_sequence_and_type s t)))

parse-internal_key :
    (u : Bytes) (s : ℕ) (t : ValueType)
    → s ≤ max_sequence_number
    → parse_internal_key (internal_key u s t)
      ≡ some (record { user_key = u; sequence = s; type = t })
unfolding parse_internal_key type_of_code
parse-internal_key u s deletion h =
    ground (arith, internal_key-parts u s deletion h, length-internal_key u s deletion)
parse-internal_key u s value h =
    ground (arith, internal_key-parts u s value h, length-internal_key u s value)

-- ParseInternalKey gives back the parts that AppendInternalKey was given, for a sequence number
-- that leaves room for the type.
pub parse-append :
    (k : ParsedInternalKey)
    → k.sequence ≤ max_sequence_number
    → parse_internal_key (append_internal_key [] k) ≡ some k
parse-append k h = parse-internal_key k.user_key k.sequence k.type h

-- The three views of a LookupKey: the internal key and the user key lie in the memtable key, behind
-- the length of the internal key.
pub lookup_key-views :
    (u : Bytes) (s : ℕ)
    → ((lookup_key u s).memtable_key
        ≡ encode_varint32 ((length u + 8) % 2 ^ 32) ++ internal_key u s value_type_for_seek)
      × (lookup_internal_key (lookup_key u s) ≡ internal_key u s value_type_for_seek)
      × (lookup_user_key (lookup_key u s) ≡ u)
unfolding lookup_key
lookup_key-views u s = (
  shape,
  internal,
  rw (internal, internal_key_lem u s value)
      (extract_user_key-tagged u (pack_sequence_and_type s value)),
)
  where
    tag : Bytes
    tag = encode_fixed64 (pack_sequence_and_type s value)

    head : Bytes
    head = encode_varint32 ((length u + 8) % 2 ^ 32)

    shape : (head ++ u) ++ tag ≡ head ++ internal_key u s value
    shape = rw (internal_key_lem u s value) (append_assoc head u tag)

    internal : drop (length head) ((head ++ u) ++ tag) ≡ internal_key u s value
    internal = rw shape (drop-append head (internal_key u s value))
