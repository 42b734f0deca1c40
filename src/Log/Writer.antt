-- ===== src/Log/Writer.antt =====
-- leveldb学习/log/log_writer.c. The destination file is a parameter: its state, and Append and Flush
-- that return the new state and whether the status is OK. The asserts are not run in
-- a release build.
pub mod Blocks
use study_history.Prelude.{
  ℕ, zero, suc, ◌+◌, ◌-◌, ◌*◌, ◌/◌, ◌%◌, ◌^◌, List, [], ◌∷◌, ◌++◌, Bool, true, false, ◌&&◌, ltb,
  ◌==◌, if◌then◌else◌, Option, none, some, length, take, drop, replicate,
}
use study_history.Coding.{Bytes, encode_fixed32}
use study_history.Log.Crc.{
  RecordType, full_type, first_type, middle_type, last_type, record_code, block_size, header_size,
  Crc,
}

pub record WritableFile (S : Type 0) : Type 0 where
  pub append : S → Bytes → S × Bool
  pub flush : S → S × Bool

-- `Writer`; `type_crc_` is recomputed from the record type where it is used.
pub record Writer (S : Type 0) : Type 0 where
  pub dest : S
  pub block_offset : ℕ

-- The two constructors.
unfoldable pub new_writer : {S : Type 0} → S → Writer S
new_writer dest = record { dest = dest; block_offset = 0 }

pub reopen_writer : {S : Type 0} → S → ℕ → Writer S
reopen_writer dest dest_length = record { dest = dest; block_offset = dest_length % block_size }

module _ (crc : Crc) where
  -- `type_crc_[t]`, as InitTypeCrc fills it.
  abbrev pub type_crc : RecordType → ℕ
  type_crc t = crc.value (record_code t ∷ [])

  -- The header of a physical record.
  unfoldable pub header : RecordType → Bytes → Bytes
  header t payload =
      encode_fixed32 (crc.mask (crc.extend (type_crc t) payload))
      ++ (length payload % 256 ∷ length payload / 2 ^ 8 % 256 ∷ record_code t ∷ [])

  module _ {S : Type 0} (file : WritableFile S) where
    unfoldable pub emit_physical_record : Writer S → RecordType → Bytes → Writer S × Bool
    emit_physical_record w t payload =
        let offset = w.block_offset + (header_size + length payload) in
        let (s1, ok1) = file.append w.dest (header t payload) in
        let (s2, ok2) = file.append s1 payload in
        let (s3, ok3) = file.flush s2 in
        if ok1
        then (if ok2
            then (record { dest = s3; block_offset = offset }, ok3)
            else (record { dest = s2; block_offset = offset }, false))
        else (record { dest = s1; block_offset = offset }, false)

    -- The switch to a new block: the trailer is filled with zeros, and its status is not looked at.
    unfoldable pub start_block : Writer S → Writer S
    start_block w =
        let leftover = block_size - w.block_offset in
        if ltb leftover header_size
        then (if ltb 0 leftover
            then record { dest = (file.append w.dest (replicate leftover 0)).0; block_offset = 0 }
            else record w { block_offset = 0 })
        else w

    abbrev pub available : Writer S → ℕ
    available w = block_size - w.block_offset - header_size

    abbrev pub record_type : Bool → Bool → RecordType
    record_type true true = full_type
    record_type true false = first_type
    record_type false true = last_type
    record_type false false = middle_type

    -- The `do` loop over what is left of the record, on fuel: `none` if the fuel runs out.
    unfoldable pub add_loop : ℕ → Writer S → Bool → Bytes → Option (Writer S × Bool)
    add_loop zero w begin rest = none
    add_loop (suc fuel) w begin rest =
        let w1 = start_block w in
        let avail = available w1 in
        let fragment_length = if ltb (length rest) avail then length rest else avail in
        let end = length rest == fragment_length in
        let (w2, ok) =
          emit_physical_record w1 (record_type begin end) (take fragment_length rest) in
        let left = drop fragment_length rest in
        let more = add_loop fuel w2 false left in
        if ok && ltb 0 (length left) then more else some (w2, ok)

    -- A round takes a byte at least, but for one that ends a block with an empty fragment.
    unfoldable pub add_record : Writer S → Bytes → Option (Writer S × Bool)
    unfolding add_loop
    add_record w slice = add_loop (length slice + 2) w true slice
