-- ===== src/Log/Tests.antt =====
-- A checksum and files that behave as the log asks, a run of the writer and the reader over them,
-- and the theorems at concrete records.
use study_history.Prelude.{
  ℕ, ◌+◌, ◌-◌, ◌%◌, ◌^◌, ◌≤◌, ◌<◌, ◌≡◌, length-replicate, replicate, refl, arith, [], ◌∷◌, ◌++◌,
  Bool, true, Option, some, none, length, take, drop, length-drop, length-append, take-append-drop,
  ap,
}
use study_history.Coding.{Bytes, encode_fixed32, decode_fixed32}
use study_history.Log.Crc.{RecordType, header_size, full_type, Crc, IsCrc, block_size}
use study_history.Log.Writer.{
  WritableFile, Writer, header, new_writer, emit_physical_record, start_block, add_loop, add_record,
}
use study_history.Log.Writer.Blocks.{IsKept, add_record_total}
use study_history.Log.Reader.{
  SequentialFile, Reader, new_reader, parse_physical, second_round, refill, read_physical_record,
  dispatch, on_full, scan_round, scan_loop, read_record,
}
use study_history.Log.Reader.Physical.{IsAppending, read_physical_record-emit_physical_record}
use study_history.Log.Reader.Ends.{IsFinite, read_record_total}

pub sum : Bytes → ℕ
sum [] = 0
sum (x ∷ xs) = x + sum xs

sum-append : (a b : Bytes) → sum (a ++ b) ≡ sum a + sum b
unfolding sum
sum-append [] b = omega arith
sum-append (x ∷ a) b = omega (arith, sum-append a b)

abbrev pub sum_crc : Crc
sum_crc = record {
  value = λ a. sum a % 2 ^ 32;
  extend = λ c b. (c + sum b) % 2 ^ 32;
  mask = λ c. (c + 7) % 2 ^ 32;
  unmask = λ c. (c + 2 ^ 32 - 7) % 2 ^ 32;
}

pub sum_crc-IsCrc : IsCrc sum_crc
sum_crc-IsCrc = record {
  extend-value = λ a b. omega (arith, sum-append a b);
  value_u32 = λ a. omega arith;
  mask_u32 = λ c h. omega arith;
  unmask-mask = λ c h. omega arith;
}

abbrev memory_sink : WritableFile Bytes
memory_sink = record { append = λ s b. (s ++ b, true); flush = λ s. (s, true) }

abbrev memory_source : SequentialFile Bytes
memory_source = record { read = λ s n. (drop n s, some (take n s)); skip = λ s n. (drop n s, true) }

take-drop-le : (n : ℕ) (s : Bytes) → length (drop n s) + length (take n s) ≡ length s
take-drop-le n s =
    omega (arith, ap length (take-append-drop n s), length-append (take n s) (drop n s))

memory_source-IsFinite : IsFinite memory_source (λ s. s)
memory_source-IsFinite = record {
  reads = λ s n s' bytes e. ground (arith, take-drop-le n s);
  skips = λ s n. omega (arith, length-drop n s);
}

-- The record "ab" on a new file, and the reader over the bytes that the writer left.
abbrev written : Bytes
written = header sum_crc full_type (97 ∷ 98 ∷ []) ++ 97 ∷ 98 ∷ []

write_run :
    add_record sum_crc memory_sink (new_writer []) (97 ∷ 98 ∷ [])
    ≡ some (record { dest = written; block_offset = 9 }, true)
unfolding add_record add_loop start_block emit_physical_record new_writer
write_run = refl

abbrev start : Reader Bytes
start = new_reader written true true 0

read_run :
    read_record sum_crc memory_source 20 start
    ≡ some (record start { file = []; eof = true; end_of_buffer_offset = 9 }, some (97 ∷ 98 ∷ []))
unfolding read_record scan_loop scan_round dispatch on_full read_physical_record refill second_round
    parse_physical new_reader header encode_fixed32 decode_fixed32 sum
read_run = refl

-- With the last byte cut off, and nothing reported.
read_cut :
    read_record sum_crc memory_source 20 (new_reader (take 8 written) true true 0)
    ≡ some (record start { file = []; eof = true; end_of_buffer_offset = 8 }, none)
unfolding read_record scan_loop scan_round dispatch on_full read_physical_record refill second_round
    parse_physical new_reader header encode_fixed32 decode_fixed32 sum
read_cut = refl

-- The offset in the block that the bytes of a new file end at.
abbrev IsInStep : Writer Bytes → Type 0
IsInStep w = length w.dest % block_size ≡ w.block_offset % block_size

IsInStep-start :
    (w : Writer Bytes)
    → w.block_offset ≤ block_size
    → IsInStep w
    → IsInStep (start_block sum_crc memory_sink w)
unfolding start_block
IsInStep-start w h p =
    let leftover = block_size - w.block_offset in
    ground (arith, length-append w.dest (replicate leftover 0), length-replicate {A = ℕ} leftover 0)

length-header : (t : RecordType) (payload : Bytes) → length (header sum_crc t payload) ≡ 7
unfolding header encode_fixed32
length-header t payload = omega arith

IsInStep-emit :
    (w : Writer Bytes) (t : RecordType) (payload : Bytes)
    → w.block_offset + header_size + length payload ≤ block_size
    → length payload < 2 ^ 16
    → IsInStep w
    → IsInStep (emit_physical_record sum_crc memory_sink w t payload).0
unfolding emit_physical_record
IsInStep-emit w t payload h small p = omega (
  arith,
  p,
  length-append (w.dest ++ header sum_crc t payload) payload,
  length-append w.dest (header sum_crc t payload),
  length-header t payload,
)

IsInStep-kept : IsKept sum_crc memory_sink IsInStep
IsInStep-kept = record { starts = IsInStep-start; emits = IsInStep-emit }

add_record_total_example :
    (out : Writer Bytes × Bool) × (add_record sum_crc memory_sink
        (record { dest = []; block_offset = 0 })
        (1 ∷ 2 ∷ [])
      ≡ some out)
    × (out.0.block_offset ≤ block_size)
    × IsInStep out.0
add_record_total_example =
    add_record_total sum_crc memory_sink IsInStep (record { dest = []; block_offset = 0 })
      (1 ∷ 2 ∷ []) IsInStep-kept (omega arith) refl

abbrev filled : Reader Bytes
filled = record (new_reader [] true true 0) {
  buffer = header sum_crc full_type (97 ∷ 98 ∷ []) ++ (97 ∷ 98 ∷ 5 ∷ []);
}

memory_sink-IsAppending : IsAppending memory_sink (λ s. s)
memory_sink-IsAppending = record {
  appends = λ s b. refl;
  append_ok = λ s b. refl;
  flushes = λ s. refl;
}

read_physical_record-emit_physical_record_example :
    read_physical_record sum_crc memory_source filled []
    ≡ (record filled { buffer = 5 ∷ [] }, 97 ∷ 98 ∷ [], 1)
unfolding new_reader emit_physical_record header encode_fixed32
read_physical_record-emit_physical_record_example =
    read_physical_record-emit_physical_record sum_crc sum_crc-IsCrc full_type (97 ∷ 98 ∷ [])
      (5 ∷ []) memory_source memory_sink (λ s. s) (record { dest = 8 ∷ []; block_offset = 1 })
      filled [] memory_sink-IsAppending (λ e. cc (e)) (omega arith) refl refl

read_record_total_example :
    (out : Reader Bytes × Option Bytes) × (read_record sum_crc memory_source 4
        (new_reader (1 ∷ 2 ∷ 3 ∷ []) true true 0)
      ≡ some out)
unfolding new_reader
read_record_total_example =
    read_record_total sum_crc memory_source (λ s. s) memory_source-IsFinite
      (new_reader (1 ∷ 2 ∷ 3 ∷ []) true true 0) 4 (omega arith)
