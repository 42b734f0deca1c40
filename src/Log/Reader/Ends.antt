-- ===== src/Log/Reader/Ends.antt =====
-- The loop of ReadRecord over a finite file: leveldb学习/log/log_reader.c.
use study_history.Prelude.{
  ℕ, zero, suc, ◌+◌, ◌≤◌, ◌<◌, ◌≡◌, refl, subst, arith, false, [], Option, none, some, length,
  length-drop, ◌⊎◌, inl, inr, ◌==◌, ◌*◌, ◌%◌, ◌^◌, ltb, bit_or, get_or, Bool-cases,
}
use study_history.Coding.{Bytes}
use study_history.Log.Crc.{Crc, header_size, block_size}
use study_history.Log.Reader.{
  Reader, SequentialFile, Reason, sub64, partial_record_without_end_2, missing_start_1,
  missing_start_2, error_in_middle, unknown_record_type, bad_record_length, checksum_mismatch,
  report_drop, eof_code, parse_physical, second_round, refill, read_physical_record,
  skip_to_initial_block, Scan, Round, again, found, ended, on_full, on_first, on_middle, on_last,
  on_bad, on_unknown, dispatch, scan_round, scan_loop, read_record,
}

-- A file that holds finitely many bytes, which Read hands out.
pub record IsFinite {S : Type 0} (env : SequentialFile S) (contents : S → Bytes) : Type 0 where
  pub reads :
      (s : S) (n : ℕ) (s' : S) (bytes : Bytes)
      → env.read s n ≡ (s', some bytes)
      → length (contents s') + length bytes ≤ length (contents s)
  pub skips : (s : S) (n : ℕ) → length (contents (env.skip s n).0) ≤ length (contents s)

module _ (crc : Crc) {S : Type 0} (env : SequentialFile S) (contents : S → Bytes)
    (fin : IsFinite env contents) where
  -- The bytes that are still to be read.
  abbrev pub left : Reader S → ℕ
  left r = length r.buffer + length (contents r.file)

  report_drop-left : (r : Reader S) (n : ℕ) (why : Reason) → left (report_drop r n why) ≡ left r
  unfolding report_drop
  report_drop-left r n why = ground arith

  -- A physical record uses up bytes, or is the end of the file.
  abbrev Uses : ℕ → Reader S × Bytes × ℕ → Type 0
  Uses n out = (out.2 ≡ eof_code) ⊎ (left out.0 < n)

  parse-Uses :
      (r : Reader S) (result : Bytes)
      → header_size ≤ length r.buffer
      → Uses (left r) (parse_physical crc env r result)
  unfolding parse_physical
  parse-Uses r result h =
      let cleared : Reader S = record r { buffer = [] } in
      let len = bit_or (get_or r.buffer 4 0) (get_or r.buffer 5 0 * 2 ^ 8 % 2 ^ 32) in
      ground (
        arith,
        report_drop-left cleared (length r.buffer) bad_record_length,
        report_drop-left cleared (length r.buffer) checksum_mismatch,
        length-drop (header_size + len) r.buffer,
      )

  second-Uses : (r : Reader S) (result : Bytes) → Uses (left r) (second_round crc env r result)
  unfolding second_round
  second-Uses r result = elim (Bool-cases (ltb (length r.buffer) header_size)) [
    | inl short ↦ ground arith
    | inr long ↦ ground (arith, parse-Uses r result (ground arith))
  ]

  -- A round that reads the file uses up at most what the file had.
  refill-Uses :
      (r : Reader S) (result : Bytes) (s : S) (bytes : Bytes)
      → length (contents s) + length bytes ≤ length (contents r.file)
      → Uses (length (contents r.file)) (refill crc env r result (s, some bytes))
  unfolding refill
  refill-Uses r result s bytes h =
      let filled : Reader S = record r {
        file = s;
        buffer = bytes;
        end_of_buffer_offset = (r.end_of_buffer_offset + length bytes) % 2 ^ 64;
        eof = ltb (length bytes) block_size;
      } in
      elim (second-Uses filled result) [ inl over ↦ inl over | inr less ↦ inr (omega arith) ]

  reads-Uses :
      (r : Reader S) (result : Bytes) (o : S × Option Bytes)
      → env.read r.file block_size ≡ o
      → Uses (left r) (refill crc env r result o)
  reads-Uses r result (s, none) e = inl (unfold refill in refl)
  reads-Uses r result (s, some bytes) e =
      elim (refill-Uses r result s bytes (fin.reads r.file block_size s bytes e)) [
        | inl over ↦ inl over
        | inr less ↦ inr (omega arith)
      ]

  read-Uses :
      (r : Reader S) (result : Bytes) → Uses (left r) (read_physical_record crc env r result)
  unfolding read_physical_record
  read-Uses r result = elim (Bool-cases (ltb (length r.buffer) header_size)) [
    | inr long ↦ rw long (parse-Uses r result (ground arith))
    | inl short ↦ elim (Bool-cases r.eof) [
      | inl over ↦ inl (rw (short, over))
      | inr more ↦ simp (short, more) (reads-Uses r result (env.read r.file block_size) refl)
    ]
  ]

  -- A round that goes on has used up bytes.
  abbrev GoesOn : ℕ → Round S → Type 0
  GoesOn n (again sc) = left sc.reader < n
  GoesOn n (found r bytes) = Unit {0}
  GoesOn n (ended r) = Unit {0}

  dispatch-GoesOn :
      (n type : ℕ) (sc : Scan S) (offset : ℕ)
      → (type ≡ eof_code) ⊎ (left sc.reader < n)
      → GoesOn n (dispatch crc env type sc offset)
  unfolding dispatch on_full on_first on_middle on_last on_bad on_unknown
  dispatch-GoesOn n type sc offset h =
      let frag = length sc.fragment in
      let scr = length sc.scratch in
      ground (
        arith,
        report_drop-left sc.reader scr partial_record_without_end_2,
        report_drop-left sc.reader frag missing_start_1,
        report_drop-left sc.reader frag missing_start_2,
        report_drop-left sc.reader scr error_in_middle,
        report_drop-left sc.reader (frag + scr) (unknown_record_type type),
        report_drop-left sc.reader (frag + 0) (unknown_record_type type),
      )

  scan_round-GoesOn : (sc : Scan S) → GoesOn (left sc.reader) (scan_round crc env sc)
  unfolding scan_round
  scan_round-GoesOn sc =
      let out = read_physical_record crc env sc.reader sc.fragment in
      let r = out.0 in
      let n = left sc.reader in
      let uses = read-Uses sc.reader sc.fragment in
      let offset =
        sub64 (sub64 (sub64 r.end_of_buffer_offset (length r.buffer)) header_size) (length out.1) in
      let sc1 = record sc { reader = r; fragment = out.1 } in
      let synced = record sc { reader = record r { resyncing = false }; fragment = out.1 } in
      let go1 = dispatch-GoesOn n out.2 sc1 offset uses in
      let go2 = dispatch-GoesOn n out.2 synced offset uses in
      elim (Bool-cases r.resyncing) [
        | inr plain ↦ simp plain go1
        | inl sync ↦ elim (Bool-cases (out.2 == 3)) [
          | inl middle ↦ simp (sync, middle) (ground arith)
          | inr other ↦ elim (Bool-cases (out.2 == 4)) [
            | inl last ↦ simp (sync, other, last) (ground arith)
            | inr neither ↦ simp (sync, other, neither) go2
          ]
        ]
      ]

  skip-left : (r : Reader S) → left (skip_to_initial_block crc env r).0 ≤ left r
  unfolding skip_to_initial_block report_drop
  skip-left r = grind (arith, fin.skips)

  Round-cases :
      (x : Round S)
      → ((sc : Scan S) × (x ≡ again sc))
        ⊎ ((out : Reader S × Option Bytes) × ((x ≡ ended out.0) × (out.1 ≡ none)
              ⊎ ((b : Bytes) × (x ≡ found out.0 b) × (out.1 ≡ some b))))
  Round-cases (again sc) = inl (sc, refl)
  Round-cases (found r b) = inr ((r, some b), inr (b, refl, refl))
  Round-cases (ended r) = inr ((r, none), inl (refl, refl))

  scan_loop_total :
      (fuel : ℕ) (sc : Scan S)
      → left sc.reader < fuel
      → (out : Reader S × Option Bytes) × (scan_loop crc env fuel sc ≡ some out)
  unfolding scan_loop
  scan_loop_total zero sc h = elim h [ ]
  scan_loop_total (suc fuel) sc h = elim (Round-cases (scan_round crc env sc)) [
    | inl (sc', e) ↦
        let less = subst (GoesOn (left sc.reader)) e (scan_round-GoesOn sc) in
        let (out, runs) = scan_loop_total fuel sc' (omega (arith, less)) in
        (out, ground (arith, e, runs))
    | inr (out, inl (e, n)) ↦ (out, ground (arith, e, n))
    | inr (out, inr (b, e, n)) ↦ (out, ground (arith, e, n))
  ]

  -- ReadRecord returns on any finite file, with a record or with false, whatever the bytes of the
  -- file and of the buffer are: one round for each byte that is left, and one more, are enough.
  pub read_record_total :
      (r : Reader S) (fuel : ℕ)
      → left r < fuel
      → (out : Reader S × Option Bytes) × (read_record crc env fuel r ≡ some out)
  unfolding read_record
  read_record_total r fuel h =
      let skipped = skip_to_initial_block crc env r in
      let start : Reader S → Scan S = λ r. record {
        reader = r;
        fragment = [];
        scratch = [];
        in_fragmented_record = false;
        prospective_record_offset = 0;
      } in
      let (out1, run1) = scan_loop_total fuel (start r) h in
      let (out2, run2) = scan_loop_total fuel (start skipped.0) (omega (arith, skip-left r)) in
      elim (Bool-cases (ltb r.last_record_offset r.initial_offset)) [
        | inr plain ↦ (out1, simp plain run1)
        | inl skip ↦ elim (Bool-cases skipped.1) [
          | inl fine ↦ (out2, simp (skip, fine) run2)
          | inr bad ↦ ((skipped.0, none), simp (skip, bad))
        ]
      ]
