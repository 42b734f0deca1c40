-- ===== src/VersionEdit.antt =====
-- leveldb学习/manifest/version_edit.c and version_edit.h: the record of one change to the set of
-- table files, its setters, and its serial form in the manifest.
-- `std::set<std::pair<int, uint64_t>>` is the list of its elements in their order, an InternalKey
-- its byte string. DecodeFrom works on the object it is called on: `decode_from` takes that object.
-- Its loop runs on fuel, and `none` is the loss of all fuel.
pub mod Fields
pub mod Parts
pub mod RoundTrip
pub mod Total
mod Tests
use study_history.Prelude.{
  ℕ, zero, suc, ◌+◌, ◌%◌, ◌^◌, List, [], ◌∷◌, ◌++◌, Bool, true, false, ◌&&◌, ◌||◌, ltb, ◌==◌,
  if◌then◌else◌, Option, none, some, length,
}
use study_history.Coding.{
  Bytes, put_varint32, put_varint64, put_length_prefixed_slice, get_varint32, get_varint64,
  get_length_prefixed_slice,
}
use mathlib.Core.List.{foldl}

pub record FileMetaData : Type 0 where
  pub refs : ℕ
  pub allowed_seeks : ℕ
  pub number : ℕ
  pub file_size : ℕ
  pub smallest : Bytes
  pub largest : Bytes

pub record VersionEdit : Type 0 where
  pub comparator : Bytes
  pub log_number : ℕ
  pub prev_log_number : ℕ
  pub next_file_number : ℕ
  pub last_sequence : ℕ
  pub has_comparator : Bool
  pub has_log_number : Bool
  pub has_prev_log_number : Bool
  pub has_next_file_number : Bool
  pub has_last_sequence : Bool
  pub compact_pointers : List (ℕ × Bytes)
  pub deleted_files : List (ℕ × ℕ)
  pub new_files : List (ℕ × FileMetaData)

abbrev pub num_levels : ℕ
num_levels = 7

pub data Tag : Type 0 where
  comparator_tag log_number_tag next_file_number_tag last_sequence_tag compact_pointer_tag : Tag
  deleted_file_tag new_file_tag prev_log_number_tag : Tag

-- The enumerators' values; 8 is not used.
abbrev pub tag_code : Tag → ℕ
tag_code comparator_tag = 1
tag_code log_number_tag = 2
tag_code next_file_number_tag = 3
tag_code last_sequence_tag = 4
tag_code compact_pointer_tag = 5
tag_code deleted_file_tag = 6
tag_code new_file_tag = 7
tag_code prev_log_number_tag = 9

-- The cases of the `switch`; `none` is its default.
pub tag_of_code : ℕ → Option Tag
tag_of_code c =
    if c == 1
    then some comparator_tag
    else (if c == 2
        then some log_number_tag
        else (if c == 9
            then some prev_log_number_tag
            else (if c == 3
                then some next_file_number_tag
                else (if c == 4
                    then some last_sequence_tag
                    else (if c == 5
                        then some compact_pointer_tag
                        else (if c == 6
                            then some deleted_file_tag
                            else (if c == 7 then some new_file_tag else none)))))))

-- The messages of the statuses that DecodeFrom returns.
pub data Message : Type 0 where
  comparator_name log_number previous_log_number next_file_number last_sequence_number : Message
  compaction_pointer deleted_file new_file_entry unknown_tag invalid_tag : Message

pub data Status : Type 0 where
  ok : Status
  corruption : Message → Status

-- `compact_pointers_` is not reset.
pub clear : VersionEdit → VersionEdit
clear e = record e {
  comparator = [];
  log_number = 0;
  prev_log_number = 0;
  last_sequence = 0;
  next_file_number = 0;
  has_comparator = false;
  has_log_number = false;
  has_prev_log_number = false;
  has_next_file_number = false;
  has_last_sequence = false;
  deleted_files = [];
  new_files = [];
}

-- A new VersionEdit: the members with no initialiser of their own are empty, the rest is cleared.
abbrev pub empty_edit : VersionEdit
empty_edit = record {
  comparator = [];
  log_number = 0;
  prev_log_number = 0;
  next_file_number = 0;
  last_sequence = 0;
  has_comparator = false;
  has_log_number = false;
  has_prev_log_number = false;
  has_next_file_number = false;
  has_last_sequence = false;
  compact_pointers = [];
  deleted_files = [];
  new_files = [];
}

pub set_comparator_name : VersionEdit → Bytes → VersionEdit
set_comparator_name e name = record e { has_comparator = true; comparator = name }

pub set_log_number : VersionEdit → ℕ → VersionEdit
set_log_number e num = record e { has_log_number = true; log_number = num }

pub set_prev_log_number : VersionEdit → ℕ → VersionEdit
set_prev_log_number e num = record e { has_prev_log_number = true; prev_log_number = num }

pub set_next_file : VersionEdit → ℕ → VersionEdit
set_next_file e num = record e { has_next_file_number = true; next_file_number = num }

pub set_last_sequence : VersionEdit → ℕ → VersionEdit
set_last_sequence e seq = record e { has_last_sequence = true; last_sequence = seq }

pub set_compact_pointer : VersionEdit → ℕ → Bytes → VersionEdit
set_compact_pointer e level key = record e {
  compact_pointers = e.compact_pointers ++ (level, key) ∷ [];
}

-- `FileMetaData f;` and its assignments in AddFile and in DecodeFrom.
pub file_meta : ℕ → ℕ → Bytes → Bytes → FileMetaData
file_meta file file_size smallest largest = record {
  refs = 0;
  allowed_seeks = 2 ^ 30;
  number = file;
  file_size = file_size;
  smallest = smallest;
  largest = largest;
}

pub add_file : VersionEdit → ℕ → FileMetaData → VersionEdit
add_file e level f = record e { new_files = e.new_files ++ (level, f) ∷ [] }

-- The order of `std::pair<int, uint64_t>`.
abbrev pub pair_ltb : ℕ × ℕ → ℕ × ℕ → Bool
pair_ltb (a, b) (c, d) = ltb a c || (a == c && ltb b d)

-- `std::set::insert`: at its place in the order, unless it is there already.
pub set_insert : ℕ × ℕ → List (ℕ × ℕ) → List (ℕ × ℕ)
set_insert x [] = x ∷ []
set_insert x (y ∷ s) =
    if pair_ltb x y then x ∷ y ∷ s else (if pair_ltb y x then y ∷ set_insert x s else y ∷ s)

pub delete_file : VersionEdit → ℕ → ℕ → VersionEdit
delete_file e level file = record e { deleted_files = set_insert (level, file) e.deleted_files }

abbrev pub put_tag : Bytes → Tag → Bytes
put_tag dst t = put_varint32 dst (tag_code t)

-- `if (has_…) { PutVarint32(dst, tag); PutVarint64(dst, number); }`
pub encode_number : Bool → Tag → ℕ → Bytes → Bytes
encode_number has t num dst = if has then put_varint64 (put_tag dst t) num else dst

-- The bodies of the three loops of EncodeTo.
pub encode_pointer : Bytes → ℕ × Bytes → Bytes
encode_pointer dst (level, key) =
    put_length_prefixed_slice (put_varint32 (put_tag dst compact_pointer_tag) level) key

pub encode_deleted : Bytes → ℕ × ℕ → Bytes
encode_deleted dst (level, number) =
    put_varint64 (put_varint32 (put_tag dst deleted_file_tag) level) number

pub encode_new : Bytes → ℕ × FileMetaData → Bytes
encode_new dst (level, f) =
    let numbers =
      put_varint64 (put_varint64 (put_varint32 (put_tag dst new_file_tag) level) f.number)
        f.file_size in
    put_length_prefixed_slice (put_length_prefixed_slice numbers f.smallest) f.largest

pub encode_to : VersionEdit → Bytes → Bytes
unfolding encode_number encode_pointer encode_deleted encode_new
encode_to e dst =
    let named =
      if e.has_comparator
      then put_length_prefixed_slice (put_tag dst comparator_tag) e.comparator
      else dst in
    let numbers = encode_number e.has_last_sequence last_sequence_tag e.last_sequence (
      encode_number e.has_next_file_number next_file_number_tag e.next_file_number (
        encode_number e.has_prev_log_number prev_log_number_tag e.prev_log_number
          (encode_number e.has_log_number log_number_tag e.log_number named))) in
    foldl encode_new
      (foldl encode_deleted (foldl encode_pointer numbers e.compact_pointers) e.deleted_files)
      e.new_files

-- An InternalKey takes the bytes as they are.
abbrev pub get_internal_key : Bytes → Option (Bytes × Bytes)
get_internal_key input = get_length_prefixed_slice input

pub get_level : Bytes → Option (ℕ × Bytes)
get_level input = elim (get_varint32 input) [
  | none ↦ none
  | some (v, rest) ↦ if ltb v num_levels then some (v, rest) else none
]

-- One round of the loop: the edit and the input behind the field, or `msg`.
pub data Step : Type 0 where
  next : VersionEdit → Bytes → Step
  fail : Message → Step

-- `if (Get…(&input, …)) { … } else { msg = …; }`
abbrev pub when {ℓ} : {A : Type ℓ} → Option (A × Bytes) → Message → (A → Bytes → Step) → Step
when none msg then_do = fail msg
when (some (a, rest)) msg then_do = then_do a rest

pub decode_new : Bytes → VersionEdit → Step
unfolding file_meta add_file get_level
decode_new input e = when (get_level input) new_file_entry λ level r1.
    when (get_varint64 r1) new_file_entry λ number r2.
      when (get_varint64 r2) new_file_entry λ file_size r3.
        when (get_internal_key r3) new_file_entry λ smallest r4.
          when (get_internal_key r4) new_file_entry
            λ largest r5. next (add_file e level (file_meta number file_size smallest largest)) r5

pub decode_field : Tag → Bytes → VersionEdit → Step
unfolding decode_new get_level set_comparator_name set_log_number set_prev_log_number set_next_file
    set_last_sequence set_compact_pointer delete_file
decode_field comparator_tag input e =
    when (get_length_prefixed_slice input) comparator_name λ str. next (set_comparator_name e str)
decode_field log_number_tag input e =
    when (get_varint64 input) log_number λ number. next (set_log_number e number)
decode_field prev_log_number_tag input e =
    when (get_varint64 input) previous_log_number λ number. next (set_prev_log_number e number)
decode_field next_file_number_tag input e =
    when (get_varint64 input) next_file_number λ number. next (set_next_file e number)
decode_field last_sequence_tag input e =
    when (get_varint64 input) last_sequence_number λ number. next (set_last_sequence e number)
decode_field compact_pointer_tag input e = when (get_level input) compaction_pointer λ level r1.
    when (get_internal_key r1) compaction_pointer λ key. next (set_compact_pointer e level key)
decode_field deleted_file_tag input e =
    when (get_level input) deleted_file
      λ level r1. when (get_varint64 r1) deleted_file λ number. next (delete_file e level number)
decode_field new_file_tag input e = decode_new input e

-- The `while` loop and the test behind it. A field takes a byte at least.
pub decode_loop : ℕ → Bytes → VersionEdit → Option (VersionEdit × Status)
unfolding decode_field tag_of_code
decode_loop zero input e = none
decode_loop (suc fuel) input e = elim (get_varint32 input) [
  | none ↦ some (e, elim input [ [] ↦ ok | _ ∷ _ ↦ corruption invalid_tag ])
  | some (code, rest) ↦ elim (tag_of_code code) [
    | none ↦ some (e, corruption unknown_tag)
    | some tag ↦ elim (decode_field tag rest e) [
      | next e' rest' ↦ decode_loop fuel rest' e'
      | fail msg ↦ some (e, corruption msg)
    ]
  ]
]

pub decode_from : VersionEdit → Bytes → Option (VersionEdit × Status)
unfolding decode_loop clear
decode_from e src = decode_loop (length src + 1) src (clear e)
