-- ===== src/Log/Reader/Physical.antt =====
-- ReadPhysicalRecord of log_reader.c on a physical record of log_writer.c.
use study_history.Prelude.{
  ℕ, suc, ◌+◌, ◌*◌, ◌/◌, ◌%◌, ◌^◌, ◌<◌, ◌≡◌, ◌≢◌, refl, sym, ap, ◌∙◌, arith, bit_or, [], ◌∷◌, ◌++◌,
  length, take, drop, get_or, append_assoc, length-append, take-append, drop-append, drop-drop,
  subst, true, false, ltb,
}
use study_history.Prelude.Bits.{bit_or_disjoint}
use study_history.Coding.{Bytes, encode_fixed32, decode_fixed32}
use study_history.Coding.Fixed.{decode-encode_fixed32}
use study_history.Log.Crc.{
  RecordType, zero_type, full_type, first_type, middle_type, last_type, record_code, header_size,
  Crc, IsCrc,
}
use study_history.Log.Writer.{WritableFile, Writer, header, type_crc, emit_physical_record}
use study_history.Log.Reader.{Reader, SequentialFile, parse_physical, read_physical_record}

-- A destination file whose Append adds the bytes at the end of its content, and that never fails.
pub record IsAppending {W : Type 0} (file : WritableFile W) (content : W → Bytes) : Type 0 where
  pub appends : (s : W) (b : Bytes) → content (file.append s b).0 ≡ content s ++ b
  pub append_ok : (s : W) (b : Bytes) → (file.append s b).1 ≡ true
  pub flushes : (s : W) → content (file.flush s).0 ≡ content s

-- The length of a payload, from its two bytes in the header.
length_bytes : (n : ℕ) → n < 2 ^ 16 → bit_or (n % 256) (n / 2 ^ 8 % 256 * 2 ^ 8 % 2 ^ 32) ≡ n
length_bytes n h =
    ap (bit_or (n % 256)) shift
    ∙ bit_or_disjoint 8 (n % 256) (n / 2 ^ 8) (omega arith)
    ∙ omega arith
  where
    shift : n / 2 ^ 8 % 256 * 2 ^ 8 % 2 ^ 32 ≡ n / 2 ^ 8 * 2 ^ 8
    shift = omega arith

record_code-lt : (t : RecordType) → record_code t < 128
record_code-lt zero_type = omega arith
record_code-lt full_type = omega arith
record_code-lt first_type = omega arith
record_code-lt middle_type = omega arith
record_code-lt last_type = omega arith

record_code-pos : (t : RecordType) → t ≢ zero_type → 0 < record_code t
record_code-pos zero_type h = absurd (h refl)
record_code-pos full_type h = omega arith
record_code-pos first_type h = omega arith
record_code-pos middle_type h = omega arith
record_code-pos last_type h = omega arith

module _ (crc : Crc) (ok : IsCrc crc) (t : RecordType) (payload more : Bytes) where
  abbrev physical : Bytes
  physical = header crc t payload ++ (payload ++ more)

  stored_crc : decode_fixed32 physical ≡ crc.mask (crc.value (record_code t ∷ payload))
  unfolding header
  stored_crc =
      ap decode_fixed32 (
        append_assoc (encode_fixed32 (crc.mask (crc.extend (type_crc crc t) payload))) _
          (payload ++ more))
      ∙ rw (ok.extend-value (record_code t ∷ []) payload) (
          decode-encode_fixed32 (crc.mask (crc.value (record_code t ∷ payload))) _
            (ok.mask_u32 _ (ok.value_u32 _)))

  header_fields :
      (get_or physical 4 0 ≡ length payload % 256)
      × (get_or physical 5 0 ≡ length payload / 2 ^ 8 % 256)
      × (get_or physical 6 0 ≡ record_code t)
      × (drop 6 physical ≡ record_code t ∷ (payload ++ more))
      × (drop header_size physical ≡ payload ++ more)
  unfolding header encode_fixed32
  header_fields = (refl, refl, refl, refl, refl)

  length-physical : length physical ≡ header_size + (length payload + length more)
  unfolding header encode_fixed32
  length-physical = omega (arith, length-append payload more)

  drop-physical : drop (header_size + length payload) physical ≡ more
  drop-physical =
      drop-drop header_size (length payload) physical
      ∙ ap (drop (length payload)) header_fields.4
      ∙ drop-append payload more

  module _ {S : Type 0} (env : SequentialFile S) where
    parse-emitted :
        (r : Reader S) (result : Bytes)
        → t ≢ zero_type
        → length payload < 2 ^ 16
        → r.initial_offset ≡ 0
        → r.buffer ≡ physical
        → parse_physical crc env r result ≡ (record r { buffer = more }, payload, record_code t)
    unfolding parse_physical header encode_fixed32
    parse-emitted r result ht hl h0 hb =
        let b = r.buffer in
        let len_eq : bit_or (get_or b 4 0) (get_or b 5 0 * 2 ^ 8 % 2 ^ 32) ≡ length payload =
          subst
            (λ (x : Bytes). bit_or (get_or x 4 0) (get_or x 5 0 * 2 ^ 8 % 2 ^ 32) ≡ length payload)
            (sym hb) (length_bytes (length payload) hl) in
        let type_eq : get_or b 6 0 ≡ record_code t =
          subst (λ (x : Bytes). get_or x 6 0 ≡ record_code t) (sym hb) header_fields.2 in
        let crc_eq : crc.unmask (decode_fixed32 b) ≡ crc.value (record_code t ∷ payload) =
          ap (λ (x : Bytes). crc.unmask (decode_fixed32 x)) hb
          ∙ ap crc.unmask stored_crc
          ∙ ok.unmask-mask _ (ok.value_u32 _) in
        let covered : take (1 + length payload) (drop 6 b) ≡ record_code t ∷ payload =
          ap (λ (x : Bytes). take (1 + length payload) (drop 6 x)) hb
          ∙ ap (λ (n : ℕ). take n (record_code t ∷ (payload ++ more))) {y = suc (length payload)}
              (omega arith)
          ∙ ap (◌∷◌ (record_code t)) (take-append payload more) in
        let body : take (length payload) (drop header_size b) ≡ payload =
          ap (λ (x : Bytes). take (length payload) (drop header_size x)) hb
          ∙ take-append payload more in
        let rest : drop (header_size + length payload) b ≡ more =
          ap (drop (header_size + length payload)) hb ∙ drop-physical in
        let size : length b ≡ header_size + (length payload + length more) =
          ap length hb ∙ length-physical in
        ground (
          arith,
          len_eq,
          type_eq,
          crc_eq,
          covered,
          body,
          rest,
          size,
          record_code-lt t,
          record_code-pos t ht,
        )

    read_on :
        (r : Reader S) (result : Bytes)
        → ltb (length r.buffer) header_size ≡ false
        → read_physical_record crc env r result ≡ parse_physical crc env r result
    unfolding read_physical_record
    read_on r result h = rw h refl

    -- What EmitPhysicalRecord appends.
    emitted :
        {W : Type 0} (file : WritableFile W) (content : W → Bytes) (w : Writer W)
        → IsAppending file content
        → content (emit_physical_record crc file w t payload).0.dest
          ≡ content w.dest ++ (header crc t payload ++ payload)
    unfolding emit_physical_record
    emitted file content w a =
        let s1 = (file.append w.dest (header crc t payload)).0 in
        let s2 = (file.append s1 payload).0 in
        rw (a.append_ok w.dest (header crc t payload), a.append_ok s1 payload)
          (a.flushes s2
            ∙ a.appends s1 payload
            ∙ ap (λ x. x ++ payload) (a.appends w.dest (header crc t payload))
            ∙ append_assoc (content w.dest) (header crc t payload) payload)

    -- With checksums that extend along concatenation and fit in a uint32 and a mask that Unmask
    -- undoes, and a file that never fails an Append and adds its bytes at the end: where the buffer
    -- of a reader with initial offset 0 starts with the bytes that EmitPhysicalRecord appended, for a
    -- record type other than kZeroType and a payload whose length fits in two bytes,
    -- ReadPhysicalRecord returns that payload and that type, leaves the rest of the buffer, and
    -- changes nothing else of the reader.
    pub read_physical_record-emit_physical_record :
        {W : Type 0} (file : WritableFile W) (content : W → Bytes) (w : Writer W) (r : Reader S)
        (result : Bytes)
        → IsAppending file content
        → t ≢ zero_type
        → length payload < 2 ^ 16
        → r.initial_offset ≡ 0
        → r.buffer
          ≡ drop
              (length (content w.dest))
              (content (emit_physical_record crc file w t payload).0.dest)
            ++ more
        → read_physical_record crc env r result
          ≡ (record r { buffer = more }, payload, record_code t)
    read_physical_record-emit_physical_record file content w r result a ht hl h0 hb =
        let starts : r.buffer ≡ physical =
          hb
          ∙ ap (λ x. drop (length (content w.dest)) x ++ more) (emitted file content w a)
          ∙ ap (λ x. x ++ more) (drop-append (content w.dest) (header crc t payload ++ payload))
          ∙ append_assoc (header crc t payload) payload more in
        read_on r result (ground (arith, ap length starts, length-physical))
        ∙ parse-emitted r result ht hl h0 starts
