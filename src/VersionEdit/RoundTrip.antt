-- ===== src/VersionEdit/RoundTrip.antt =====
-- DecodeFrom on what EncodeTo writes: leveldb学习/manifest/version_edit.c.
use study_history.Prelude.{
  ◌≡◌, sym, arith, [], ◌++◌, Bool, true, false, if◌then◌else◌, some, append_assoc, append-nil,
}
use study_history.Coding.{Bytes, encode_varint64, put_varint32, put_length_prefixed_slice}
use study_history.Coding.Slices.{prefixed, put_length_prefixed_slice_lem}
use study_history.VersionEdit.{
  VersionEdit, comparator_tag, log_number_tag, next_file_number_tag, last_sequence_tag,
  prev_log_number_tag, Status, ok, clear, put_tag, encode_pointer, encode_deleted, encode_new,
  encode_to, decode_from,
}
use study_history.VersionEdit.Fields.{
  field, Decodes-end, part, pointer_field, deleted_field, new_field, fields, encode_number_lem,
  encode_pointer_lem, encode_deleted_lem, encode_new_lem, foldl-fields,
}
use study_history.VersionEdit.Parts.{
  IsEncodable, Decodes-comparator, Decodes-log, Decodes-prev_log, Decodes-next_file,
  Decodes-sequence, Decodes-pointers, Decodes-deleted, Decodes-new,
}

-- The parts that EncodeTo writes, in its order.
encoding : VersionEdit → Bytes
encoding e =
    part e.has_comparator (field comparator_tag (prefixed e.comparator))
    ++ (part e.has_log_number (field log_number_tag (encode_varint64 e.log_number))
        ++ (part e.has_prev_log_number
              (field prev_log_number_tag (encode_varint64 e.prev_log_number))
            ++ (part e.has_next_file_number
                  (field next_file_number_tag (encode_varint64 e.next_file_number))
                ++ (part e.has_last_sequence
                      (field last_sequence_tag (encode_varint64 e.last_sequence))
                    ++ (fields pointer_field e.compact_pointers
                        ++ (fields deleted_field e.deleted_files
                            ++ (fields new_field e.new_files ++ [])))))))

named_lem :
    (has : Bool) (s dst : Bytes)
    → (if has then put_length_prefixed_slice (put_tag dst comparator_tag) s else dst)
      ≡ dst ++ part has (field comparator_tag (prefixed s))
unfolding put_varint32
named_lem true s dst = simp (put_length_prefixed_slice_lem, append_assoc)
named_lem false s dst = sym (append-nil dst)

flat :
    (d c l p n s ps ds fs : Bytes)
    → (((((((d ++ c) ++ l) ++ p) ++ n) ++ s) ++ ps) ++ ds) ++ fs
      ≡ d ++ (c ++ (l ++ (p ++ (n ++ (s ++ (ps ++ (ds ++ (fs ++ []))))))))
flat d c l p n s ps ds fs = simp (append_assoc, append-nil)

encode_to_lem : (e : VersionEdit) (dst : Bytes) → encode_to e dst ≡ dst ++ encoding e
unfolding encode_to encoding
encode_to_lem e dst =
    rw
      (
        named_lem,
        encode_number_lem e.has_log_number,
        encode_number_lem e.has_prev_log_number,
        encode_number_lem e.has_next_file_number,
        encode_number_lem e.has_last_sequence,
        foldl-fields encode_pointer pointer_field encode_pointer_lem,
        foldl-fields encode_deleted deleted_field encode_deleted_lem,
        foldl-fields encode_new new_field encode_new_lem,
      )
      (flat dst (part e.has_comparator (field comparator_tag (prefixed e.comparator)))
        (part e.has_log_number (field log_number_tag (encode_varint64 e.log_number)))
        (part e.has_prev_log_number (field prev_log_number_tag (encode_varint64 e.prev_log_number)))
        (part e.has_next_file_number
          (field next_file_number_tag (encode_varint64 e.next_file_number)))
        (part e.has_last_sequence (field last_sequence_tag (encode_varint64 e.last_sequence)))
        (fields pointer_field e.compact_pointers) (fields deleted_field e.deleted_files)
        (fields new_field e.new_files))

-- What DecodeFrom leaves in an object that it is called on: the members of the edit that was
-- encoded, with its compaction pointers behind those that the object had before.
abbrev pub merged : VersionEdit → VersionEdit → VersionEdit
merged old e = record e { compact_pointers = old.compact_pointers ++ e.compact_pointers }

-- DecodeFrom, on any object, reads back the edit that EncodeTo wrote to an empty string, with status
-- OK; the compaction pointers that the object had before the call stay in front of the edit's own.
-- The edit has 64-bit numbers, levels below kNumLevels, strings of less than 4 GB, initial values
-- in the members that are not set, and its deleted files in the order of a std::set.
pub decode-encode :
    (old e : VersionEdit)
    → IsEncodable e
    → decode_from old (encode_to e []) ≡ some (merged old e, ok)
unfolding decode_from clear encoding
decode-encode old e w =
    let e0 = clear old in
    let e1 : VersionEdit = record e0 {
      has_comparator = e.has_comparator;
      comparator = e.comparator;
    } in
    let e2 : VersionEdit = record e1 {
      has_log_number = e.has_log_number;
      log_number = e.log_number;
    } in
    let e3 : VersionEdit = record e2 {
      has_prev_log_number = e.has_prev_log_number;
      prev_log_number = e.prev_log_number;
    } in
    let e4 : VersionEdit = record e3 {
      has_next_file_number = e.has_next_file_number;
      next_file_number = e.next_file_number;
    } in
    let e5 : VersionEdit = record e4 {
      has_last_sequence = e.has_last_sequence;
      last_sequence = e.last_sequence;
    } in
    let e6 : VersionEdit = record e5 {
      compact_pointers = old.compact_pointers ++ e.compact_pointers;
    } in
    let e7 : VersionEdit = record e6 { deleted_files = e.deleted_files } in
    let out : VersionEdit × Status = (merged old e, ok) in
    rw (encode_to_lem e []) (
      Decodes-comparator e0 _ out e.has_comparator e.comparator w.no_comparator w.comparator_size
        (Decodes-log e1 _ out e.has_log_number e.log_number w.no_log w.log_u64 (
          Decodes-prev_log e2 _ out e.has_prev_log_number e.prev_log_number w.no_prev_log
            w.prev_log_u64
            (Decodes-next_file e3 _ out e.has_next_file_number e.next_file_number w.no_next_file
              w.next_file_u64
              (Decodes-sequence e4 _ out e.has_last_sequence e.last_sequence w.no_sequence
                w.sequence_u64
                (Decodes-pointers e5 _ out e.compact_pointers old.compact_pointers w.pointers (
                  Decodes-deleted e6 _ out e.deleted_files [] w.deleted w.deleted_set (
                    Decodes-new e7 [] out e.new_files [] w.added (Decodes-end (merged old e)))))))))
        _ (omega arith))
