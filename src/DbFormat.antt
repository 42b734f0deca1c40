-- ===== src/DbFormat.antt =====
-- leveldb学习/初始化/dbformat.c and dbformat.h: internal keys, which are a user key followed by
-- eight bytes for the sequence number and the value type, their order, and the key of a lookup.
-- The user comparator and the user filter policy are the arguments that the classes hold.
pub mod Keys
pub mod Order
pub mod Shorten
mod Tests
use study_history.Prelude.{
  ℕ, ◌+◌, ◌-◌, ◌*◌, ◌/◌, ◌%◌, ◌^◌, ◌≤◌, ◌≡◌, bit_or, List, [], ◌++◌, map, Bool, ltb, ◌==◌, ◌&&◌,
  if◌then◌else◌, Option, none, some, length, take, drop,
}
use study_history.Coding.{Bytes, put_fixed64, decode_fixed64, encode_varint32}
use study_history.Coding.{encode_fixed64}
use study_history.Comparator.{Comparator}
use Prim.Native.Nat.{compare, Ordering}

pub data ValueType : Type 0 where
  deletion value : ValueType

-- The enumerators' values.
abbrev pub type_code : ValueType → ℕ
type_code deletion = 0
type_code value = 1

abbrev pub value_type_for_seek : ValueType
value_type_for_seek = value

abbrev pub max_sequence_number : ℕ
max_sequence_number = 2 ^ 56 - 1

pub record ParsedInternalKey : Type 0 where
  pub user_key : Bytes
  pub sequence : ℕ
  pub type : ValueType

pub pack_sequence_and_type : ℕ → ValueType → ℕ
pack_sequence_and_type seq t = bit_or (type_code t) (seq * 2 ^ 8 % 2 ^ 64)

unfoldable pub append_internal_key : Bytes → ParsedInternalKey → Bytes
append_internal_key result key =
    put_fixed64 (result ++ key.user_key) (pack_sequence_and_type key.sequence key.type)

-- `InternalKey(user_key, s, t)`
abbrev pub internal_key : Bytes → ℕ → ValueType → Bytes
internal_key user_key s t =
    append_internal_key [] (record { user_key = user_key; sequence = s; type = t })

-- The assert that a key has eight bytes at least is not run in a release build; a shorter key has no
-- user key here, where the source reads out of bounds.
abbrev pub extract_user_key : Bytes → Bytes
extract_user_key key = take (length key - 8) key

-- The tag of a key of eight bytes at least.
abbrev pub extract_tag : Bytes → ℕ
extract_tag key = decode_fixed64 (drop (length key - 8) key)

-- `none` is the result false; a type code above kTypeValue is refused.
pub type_of_code : ℕ → Option ValueType
type_of_code c = if c == 0 then some deletion else (if c == 1 then some value else none)

pub parse_internal_key : Bytes → Option ParsedInternalKey
parse_internal_key key =
    let num = extract_tag key in
    if ltb (length key) 8 then none else elim (type_of_code (num % 256)) [
      | none ↦ none
      | some t ↦ some (record { user_key = extract_user_key key; sequence = num / 2 ^ 8; type = t })
    ]

module _ (user_comparator : Comparator) where
  pub internal_compare : Bytes → Bytes → Ordering
  internal_compare akey bkey =
      elim (user_comparator.compare (extract_user_key akey) (extract_user_key bkey)) [
        | Ordering.eq ↦
            let anum = extract_tag akey in
            let bnum = extract_tag bkey in
            if ltb bnum anum
            then Ordering.lt
            else (if ltb anum bnum then Ordering.gt else Ordering.eq)
        | r ↦ r
      ]

  -- What both shortening methods do with the shortened user key `tmp`.
  pub shortened : Bytes → Bytes → Bytes
  shortened key tmp = elim (user_comparator.compare (extract_user_key key) tmp) [
    | Ordering.lt ↦
        if ltb (length tmp) (length (extract_user_key key))
        then put_fixed64 tmp (pack_sequence_and_type max_sequence_number value_type_for_seek)
        else key
    | r ↦ key
  ]

  pub find_shortest_separator : Bytes → Bytes → Bytes
  unfolding shortened
  find_shortest_separator start limit =
      shortened start
        (user_comparator.find_shortest_separator (extract_user_key start) (extract_user_key limit))

  pub find_short_successor : Bytes → Bytes
  unfolding shortened
  find_short_successor key =
      shortened key (user_comparator.find_short_successor (extract_user_key key))

  -- `InternalKeyComparator` as a `Comparator`.
  unfoldable pub internal_comparator : Comparator
  unfolding internal_compare find_shortest_separator find_short_successor
  internal_comparator = record {
    compare = internal_compare;
    find_shortest_separator = find_shortest_separator;
    find_short_successor = find_short_successor;
  }

-- `FilterPolicy`: CreateFilter appends a filter for the keys to `dst`.
pub record FilterPolicy : Type 0 where
  pub create_filter : List Bytes → Bytes → Bytes
  pub key_may_match : Bytes → Bytes → Bool

unfoldable pub internal_filter_policy : FilterPolicy → FilterPolicy
internal_filter_policy user_policy = record {
  create_filter = λ keys dst. user_policy.create_filter (map extract_user_key keys) dst;
  key_may_match = λ key f. user_policy.key_may_match (extract_user_key key) f;
}

-- `LookupKey`: the buffer from `start_` to `end_`, and where `kstart_` stands in it.
pub record LookupKey : Type 0 where
  pub memtable_key : Bytes
  pub kstart : ℕ

unfoldable pub lookup_key : Bytes → ℕ → LookupKey
lookup_key user_key s =
    let prefix = encode_varint32 ((length user_key + 8) % 2 ^ 32) in
    record {
      memtable_key =
          (prefix ++ user_key) ++ encode_fixed64 (pack_sequence_and_type s value_type_for_seek);
      kstart = length prefix;
    }

abbrev pub lookup_internal_key : LookupKey → Bytes
lookup_internal_key k = drop k.kstart k.memtable_key

abbrev pub lookup_user_key : LookupKey → Bytes
lookup_user_key k = extract_user_key (drop k.kstart k.memtable_key)
