-- ===== src/Log/Reader.antt =====
-- leveldb学习/log/log_reader.c. The file is a parameter: its state, Read, which gives the bytes read
-- or an error, and Skip. The calls of the reporter are collected in `drops`, in their order.
-- Offsets are uint64_t, and their subtractions are taken modulo 2 ^ 64.
pub mod Physical
pub mod Ends
use study_history.Prelude.{
  ℕ, zero, suc, ◌+◌, ◌-◌, ◌*◌, ◌/◌, ◌%◌, ◌^◌, List, [], ◌∷◌, ◌++◌, Bool, true, false, not, ◌&&◌,
  ltb, leb, ◌==◌, if◌then◌else◌, Option, none, some, length, take, drop, get_or, bit_or,
}
use study_history.Coding.{Bytes, decode_fixed32}
use study_history.Log.Crc.{
  RecordType, full_type, first_type, middle_type, last_type, record_code, block_size, header_size,
  Crc,
}

pub record SequentialFile (S : Type 0) : Type 0 where
  pub read : S → ℕ → S × Option Bytes
  pub skip : S → ℕ → S × Bool

pub data Reason : Type 0 where
  io_error partial_record_without_end_1 partial_record_without_end_2 : Reason
  missing_start_1 missing_start_2 error_in_middle bad_record_length checksum_mismatch : Reason
  unknown_record_type : ℕ → Reason

pub record Reader (S : Type 0) : Type 0 where
  pub file : S
  pub reporter : Bool
  pub drops : List (ℕ × Reason)
  pub checksum : Bool
  pub buffer : Bytes
  pub eof : Bool
  pub last_record_offset : ℕ
  pub end_of_buffer_offset : ℕ
  pub initial_offset : ℕ
  pub resyncing : Bool

unfoldable pub new_reader : {S : Type 0} → S → Bool → Bool → ℕ → Reader S
new_reader file reporter checksum initial_offset = record {
  file = file;
  reporter = reporter;
  drops = [];
  checksum = checksum;
  buffer = [];
  eof = false;
  last_record_offset = 0;
  end_of_buffer_offset = 0;
  initial_offset = initial_offset;
  resyncing = ltb 0 initial_offset;
}

-- uint64_t `a - b`.
abbrev pub sub64 : ℕ → ℕ → ℕ
sub64 a b = (a + 2 ^ 64 - b % 2 ^ 64) % 2 ^ 64

-- ReadPhysicalRecord returns a type of the file or one of two codes, all as one unsigned int.
abbrev pub eof_code : ℕ
eof_code = 5

abbrev pub bad_record_code : ℕ
bad_record_code = 6

-- `const unsigned int type = header[6]`, for a signed `char`.
abbrev pub char_to_unsigned : ℕ → ℕ
char_to_unsigned b = if ltb b 128 then b else b + 2 ^ 32 - 256

module _ {S : Type 0} where
  unfoldable pub report_drop : Reader S → ℕ → Reason → Reader S
  report_drop r bytes reason =
      if r.reporter
        && leb r.initial_offset (sub64 (sub64 r.end_of_buffer_offset (length r.buffer)) bytes)
      then record r { drops = r.drops ++ (bytes, reason) ∷ [] }
      else r

  abbrev pub report_corruption : Reader S → ℕ → Reason → Reader S
  report_corruption r bytes reason = report_drop r bytes reason

-- The variables of ReadRecord's loop.
pub record Scan (S : Type 0) : Type 0 where
  pub reader : Reader S
  pub fragment : Bytes
  pub scratch : Bytes
  pub in_fragmented_record : Bool
  pub prospective_record_offset : ℕ

-- How a round of the loop ends: with the next round, with a record, or with the result false.
pub data Round (S : Type 0) : Type 0 where
  again : Scan S → Round S
  found : Reader S → Bytes → Round S
  ended : Reader S → Round S

module _ (crc : Crc) {S : Type 0} (env : SequentialFile S) where
  -- The end of the file: what is left is a truncated header.
  abbrev pub at_eof : Reader S → Bytes → Reader S × Bytes × ℕ
  at_eof r result = (record r { buffer = [] }, result, eof_code)

  -- The record that starts the buffer, which holds a header at least.
  unfoldable pub parse_physical : Reader S → Bytes → Reader S × Bytes × ℕ
  parse_physical r result =
      let hdr = r.buffer in
      let type = char_to_unsigned (get_or hdr 6 0) in
      let len = bit_or (get_or hdr 4 0) (get_or hdr 5 0 * 2 ^ 8 % 2 ^ 32) in
      let drop_size = length r.buffer in
      let cleared = record r { buffer = [] } in
      let rest = record r { buffer = drop (header_size + len) r.buffer } in
      if ltb (length r.buffer) (header_size + len)
      then (if r.eof
          then (cleared, result, eof_code)
          else (report_corruption cleared drop_size bad_record_length, result, bad_record_code))
      else (if type == 0 && len == 0
          then (cleared, result, bad_record_code)
          else (if r.checksum
                && not (crc.value (take (1 + len) (drop 6 hdr)) == crc.unmask (decode_fixed32 hdr))
              then (report_corruption cleared drop_size checksum_mismatch, result, bad_record_code)
              else (if ltb
                    (sub64 (sub64 (sub64 r.end_of_buffer_offset (length rest.buffer)) header_size)
                      len)
                    r.initial_offset
                  then (rest, [], bad_record_code)
                  else (rest, take len (drop header_size hdr), type))))

  -- The `while` loop with the buffer's state spelt out: a round that does not return has read the
  -- file, and if that was a short read, it has set `eof_`. So the second round returns.
  unfoldable pub second_round : Reader S → Bytes → Reader S × Bytes × ℕ
  second_round r result =
      if ltb (length r.buffer) header_size then at_eof r result else parse_physical r result

  unfoldable pub refill : Reader S → Bytes → S × Option Bytes → Reader S × Bytes × ℕ
  refill r result (s, none) = (
    record (report_drop (record r { file = s; buffer = [] }) block_size io_error) { eof = true },
    result,
    eof_code,
  )
  refill r result (s, some bytes) =
      second_round
        (record r {
          file = s;
          buffer = bytes;
          end_of_buffer_offset = (r.end_of_buffer_offset + length bytes) % 2 ^ 64;
          eof = ltb (length bytes) block_size;
        })
        result

  unfoldable pub read_physical_record : Reader S → Bytes → Reader S × Bytes × ℕ
  read_physical_record r result =
      if ltb (length r.buffer) header_size
      then (if r.eof then at_eof r result else refill r result (env.read r.file block_size))
      else parse_physical r result

  pub skip_to_initial_block : Reader S → Reader S × Bool
  skip_to_initial_block r =
      let offset_in_block = r.initial_offset % block_size in
      let start = r.initial_offset - offset_in_block in
      let location =
        if ltb (block_size - 6) offset_in_block then (start + block_size) % 2 ^ 64 else start in
      let here = record r { end_of_buffer_offset = location } in
      let (s, ok) = env.skip r.file location in
      if ltb 0 location
      then (if ok
          then (record here { file = s }, true)
          else (report_drop (record here { file = s }) location io_error, false))
      else (here, true)

  -- The `switch` on the type of the fragment, once `resyncing_` is dealt with.
  abbrev pub abandon : Scan S → Reason → Scan S
  abandon sc reason =
      if sc.in_fragmented_record && not (length sc.scratch == 0)
      then record sc { reader = report_corruption sc.reader (length sc.scratch) reason }
      else sc

  unfoldable pub on_full : Scan S → ℕ → Round S
  on_full sc offset =
      let sc' = abandon sc partial_record_without_end_1 in
      found (record (sc'.reader) { last_record_offset = offset }) sc.fragment

  pub on_first : Scan S → ℕ → Round S
  on_first sc offset = again (record (abandon sc partial_record_without_end_2) {
    prospective_record_offset = offset;
    scratch = sc.fragment;
    in_fragmented_record = true;
  })

  pub on_middle : Scan S → Round S
  on_middle sc = again (
      if sc.in_fragmented_record
      then record sc { scratch = sc.scratch ++ sc.fragment }
      else record sc { reader = report_corruption sc.reader (length sc.fragment) missing_start_1 })

  pub on_last : Scan S → Round S
  on_last sc =
      if sc.in_fragmented_record
      then found (record (sc.reader) { last_record_offset = sc.prospective_record_offset })
          (sc.scratch ++ sc.fragment)
      else again
          (record sc { reader = report_corruption sc.reader (length sc.fragment) missing_start_2 })

  pub on_bad : Scan S → Round S
  on_bad sc = again (
      if sc.in_fragmented_record
      then record sc {
        reader = report_corruption sc.reader (length sc.scratch) error_in_middle;
        in_fragmented_record = false;
        scratch = [];
      }
      else sc)

  pub on_unknown : Scan S → ℕ → Round S
  on_unknown sc type =
      let partial = if sc.in_fragmented_record then length sc.scratch else 0 in
      again (record sc {
        reader =
            report_corruption sc.reader (length sc.fragment + partial) (unknown_record_type type);
        in_fragmented_record = false;
        scratch = [];
      })

  unfoldable pub dispatch : ℕ → Scan S → ℕ → Round S
  dispatch type sc offset =
      if type == record_code full_type
      then on_full sc offset
      else (if type == record_code first_type
          then on_first sc offset
          else (if type == record_code middle_type
              then on_middle sc
              else (if type == record_code last_type
                  then on_last sc
                  else (if type == eof_code
                      then ended sc.reader
                      else (if type == bad_record_code then on_bad sc else on_unknown sc type)))))

  unfoldable pub scan_round : Scan S → Round S
  scan_round sc =
      let (r, fragment, type) = read_physical_record sc.reader sc.fragment in
      let offset =
        sub64 (sub64 (sub64 r.end_of_buffer_offset (length r.buffer)) header_size)
          (length fragment) in
      let sc1 = record sc { reader = r; fragment = fragment } in
      let synced = record sc { reader = record r { resyncing = false }; fragment = fragment } in
      if r.resyncing
      then (if type == record_code middle_type
          then again sc1
          else (if type == record_code last_type
              then again synced
              else dispatch type synced offset))
      else dispatch type sc1 offset

  -- The `while (true)` loop on fuel: `none` if it runs out.
  unfoldable pub scan_loop : ℕ → Scan S → Option (Reader S × Option Bytes)
  scan_loop zero sc = none
  scan_loop (suc fuel) sc = elim (scan_round sc) [
    | again sc' ↦ scan_loop fuel sc'
    | found r bytes ↦ some (r, some bytes)
    | ended r ↦ some (r, none)
  ]

  -- ReadRecord: the reader, and the record if there is one.
  unfoldable pub read_record : ℕ → Reader S → Option (Reader S × Option Bytes)
  read_record fuel r =
      let (r', ok) = skip_to_initial_block r in
      let start : Reader S → Scan S = λ r. record {
        reader = r;
        fragment = [];
        scratch = [];
        in_fragmented_record = false;
        prospective_record_offset = 0;
      } in
      if ltb r.last_record_offset r.initial_offset
      then (if ok then scan_loop fuel (start r') else some (r', none))
      else scan_loop fuel (start r)
