-- ===== src/VersionEdit/Tests.antt =====
-- A run of the manifest's encoding, and the theorems at it.
use study_history.Prelude.{◌≡◌, refl, arith, [], ◌∷◌, true, some}
use study_history.Coding.{
  get_varint32, get_varint32_ptr, get_varint32_ptr_fallback, get_varint64, get_varint64_ptr,
}
use study_history.VersionEdit.{
  VersionEdit, Status, ok, corruption, unknown_tag, invalid_tag, compaction_pointer, empty_edit,
  file_meta, encode_to, decode_from, decode_loop, decode_field, set_log_number,
}
use study_history.VersionEdit.Parts.{IsEncodable}
use study_history.VersionEdit.RoundTrip.{decode-encode, merged}
use study_history.VersionEdit.Total.{decode_from_total, IsWellFormed}

abbrev pointed : VersionEdit
pointed = record empty_edit { compact_pointers = (3, 1 ∷ 2 ∷ []) ∷ [] }

abbrev edit : VersionEdit
edit = record empty_edit {
  has_log_number = true;
  log_number = 300;
  compact_pointers = (1, 7 ∷ []) ∷ [];
  deleted_files = (0, 5) ∷ (2, 4) ∷ [];
  new_files = (2, file_meta 9 4096 (1 ∷ []) (2 ∷ [])) ∷ [];
}

edit-IsEncodable : IsEncodable edit
unfolding file_meta
edit-IsEncodable = record {
  comparator_size = omega arith;
  log_u64 = omega arith;
  prev_log_u64 = omega arith;
  next_file_u64 = omega arith;
  sequence_u64 = omega arith;
  no_comparator = refl;
  no_log = tt;
  no_prev_log = refl;
  no_next_file = refl;
  no_sequence = refl;
  pointers = ((omega arith, omega arith), tt);
  deleted = omega arith;
  deleted_set = ((refl, tt), (tt, tt));
  added = (
    (
      omega arith,
      record {
        fresh = refl;
        number_u64 = omega arith;
        size_u64 = omega arith;
        smallest_size = omega arith;
        largest_size = omega arith;
      },
    ),
    tt,
  );
}

-- The log number 300 under tag 2.
decode_run :
    decode_from empty_edit (2 ∷ 0xac ∷ 2 ∷ [])
    ≡ some (record empty_edit { has_log_number = true; log_number = 300 }, ok)
unfolding decode_from decode_loop decode_field set_log_number get_varint32 get_varint32_ptr
    get_varint32_ptr_fallback get_varint64 get_varint64_ptr
decode_run = refl

-- 8 is no tag; a level of 7 is out of range; a cut tag is an invalid one.
decode_unknown : decode_from empty_edit (8 ∷ []) ≡ some (empty_edit, corruption unknown_tag)
unfolding decode_from decode_loop get_varint32 get_varint32_ptr
decode_unknown = refl

decode_level :
    decode_from empty_edit (5 ∷ 7 ∷ 0 ∷ []) ≡ some (empty_edit, corruption compaction_pointer)
unfolding decode_from decode_loop decode_field get_varint32 get_varint32_ptr
decode_level = refl

decode_cut : decode_from empty_edit (0x85 ∷ []) ≡ some (empty_edit, corruption invalid_tag)
unfolding decode_from decode_loop get_varint32 get_varint32_ptr get_varint32_ptr_fallback
decode_cut = refl

-- The old pointer of level 3 is still there.
decode-encode_example : decode_from pointed (encode_to edit []) ≡ some (merged pointed edit, ok)
decode-encode_example = decode-encode pointed edit edit-IsEncodable

decode_from_total_example :
    (out : VersionEdit × Status) × (decode_from pointed (5 ∷ 7 ∷ 0 ∷ []) ≡ some out)
    × IsWellFormed out.0
decode_from_total_example = decode_from_total pointed (5 ∷ 7 ∷ 0 ∷ []) (omega arith)
