-- ===== src/Log/Writer/Blocks.antt =====
-- The loop of AddRecord over the blocks of a file:
-- leveldb学习/log/log_writer.c.
use study_history.Prelude.{
  ℕ, zero, suc, ◌+◌, ◌^◌, ◌≤◌, ◌<◌, ◌≡◌, ◌≢◌, ap, ◌∙◌, arith, Bool, true, false, ltb, some, length,
  take, drop, length-take, length-drop, Bool-cases, inl, inr, ◌&&◌, ◌==◌, if◌then◌else◌,
}
use study_history.Coding.{Bytes}
use study_history.Log.Crc.{RecordType, block_size, header_size, Crc}
use study_history.Log.Writer.{
  WritableFile, Writer, emit_physical_record, start_block, available, record_type, add_loop,
  add_record,
}

module _ (crc : Crc) {S : Type 0} (file : WritableFile S) where
  start_block-fits :
      (w : Writer S)
      → w.block_offset ≤ block_size
      → (start_block crc file w).block_offset + header_size ≤ block_size
  unfolding start_block
  start_block-fits w h = ground arith

  start_block-room :
      (w : Writer S)
      → w.block_offset ≤ block_size
      → w.block_offset + header_size ≢ block_size
      → (start_block crc file w).block_offset + header_size < block_size
  unfolding start_block
  start_block-room w h k = ground arith

  emit_offset :
      (w : Writer S) (t : RecordType) (payload : Bytes)
      → (emit_physical_record crc file w t payload).0.block_offset
        ≡ w.block_offset + (header_size + length payload)
  unfolding emit_physical_record
  emit_offset w t payload = ground arith

  -- What holds of a writer within a block and is kept by the start of a block, and by each physical
  -- record that ends within its block and whose length fits in two bytes.
  pub record IsKept (P : Writer S → Type 0) : Type 0 where
    pub starts : (w : Writer S) → w.block_offset ≤ block_size → P w → P (start_block crc file w)
    pub emits :
        (w : Writer S) (t : RecordType) (payload : Bytes)
        → w.block_offset + header_size + length payload ≤ block_size
        → length payload < 2 ^ 16
        → P w
        → P (emit_physical_record crc file w t payload).0

  -- The length of the fragment that a round takes.
  abbrev fragment : Writer S → Bytes → ℕ
  fragment w1 rest =
      if ltb (length rest) (available crc file w1) then length rest else available crc file w1

  -- One more round is needed where the block has room for an empty fragment only.
  abbrev rounds : Writer S → Bytes → ℕ
  rounds w rest =
      if w.block_offset + header_size == block_size then length rest + 2 else length rest + 1

  module _ (P : Writer S → Type 0) (kept : IsKept P) where
    add_loop_total :
        (fuel : ℕ) (w : Writer S) (begin : Bool) (rest : Bytes)
        → w.block_offset ≤ block_size
        → rounds w rest ≤ fuel
        → P w
        → (out : Writer S × Bool) × (add_loop crc file fuel w begin rest ≡ some out)
          × (out.0.block_offset ≤ block_size)
          × P out.0
    unfolding add_loop
    add_loop_total zero w begin rest h m p = absurd (ground arith)
    add_loop_total (suc fuel) w begin rest h m p =
        let w1 = start_block crc file w in
        let n = fragment w1 rest in
        let end = length rest == n in
        let t = record_type crc file begin end in
        let emitted = emit_physical_record crc file w1 t (take n rest) in
        let left = drop n rest in
        let fits = start_block-fits w h in
        let size : length (take n rest) ≡ n = length-take n rest (ground arith) in
        let offset = emit_offset w1 t (take n rest) in
        let inside : w1.block_offset + header_size + length (take n rest) ≤ block_size =
          ground arith in
        let p' = kept.emits w1 t (take n rest) inside (omega (arith, inside)) (kept.starts w h p) in
        elim (Bool-cases (emitted.1 && ltb 0 (length left))) [
          | inl more ↦
              let (out, runs, good, later) =
                add_loop_total fuel emitted.0 false left (ground arith)
                  (ground (arith, start_block-room w h, length-drop n rest)) p' in
              (
                out,
                ◌∙◌ {c = some out}
                    (ap
                      (λ b. if b then add_loop crc file fuel emitted.0 false left else some emitted)
                      more)
                    runs,
                good,
                later,
              )
          | inr done ↦ (
            emitted,
            ap (λ b. if b then add_loop crc file fuel emitted.0 false left else some emitted) done,
            ground arith,
            p',
          )
        ]

  -- From a block offset within a block AddRecord ends, whatever the statuses of the file are, and
  -- leaves the block offset within a block. On the way it only starts blocks, from offsets within a
  -- block, and emits physical records that end within their block and whose lengths fit in two
  -- bytes: what these steps keep of a writer holds afterwards if it did before.
  pub add_record_total :
      (P : Writer S → Type 0) (w : Writer S) (slice : Bytes)
      → IsKept P
      → w.block_offset ≤ block_size
      → P w
      → (out : Writer S × Bool) × (add_record crc file w slice ≡ some out)
        × (out.0.block_offset ≤ block_size)
        × P out.0
  unfolding add_record
  add_record_total P w slice kept h p =
      add_loop_total P kept (length slice + 2) w true slice h (ground arith) p
