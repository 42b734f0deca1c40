-- ===== src/Block/Walk.antt =====
-- An iterator over the block that a builder finished:
-- leveldb学习/sstable/block.c over block_builder.c.
use study_history.Prelude.{
  ℕ, zero, suc, ◌+◌, ◌-◌, ◌*◌, ◌/◌, ◌%◌, ◌^◌, ◌≤◌, ◌<◌, ◌≡◌, refl, sym, ap, ◌∙◌, arith, List, [],
  ◌∷◌, ◌++◌, true, false, Bool-cases, inl, inr, ltb, le→ltb, leb, le→leb, ◌==◌, length, take, drop,
  append_assoc, append-nil, length-append, drop-append, All,
}
use study_history.Coding.{Bytes, IsU32, encode_fixed32, decode_fixed32, put_fixed32}
use study_history.Coding.Fixed.{decode-encode_fixed32, length-encode_fixed32}
use study_history.BlockBuilder.{
  BlockBuilder, new_block_builder, add_entry, put_restarts, finish_block,
}
use study_history.BlockBuilder.Entries.{entry_bytes, shared_length_bounds, shared_by, add_entry_lem}
use study_history.Block.{
  BlockIter, next_entry_offset, restart_point, parse_next_key, value_of, at_entry, next_entry,
  first_entry, seek_to_restart_point, new_block_iter, entries_from, block_size_of, new_iterator,
}
use study_history.Block.Parse.{
  around, data_size, StandsBefore, on_entry, parse_next_key-StandsBefore, value_of-on_entry,
  next_entry_offset-on_entry, at_entry-on_entry,
}
use study_history.FilterBlock.Words.{words, length-words, word_at}
use mathlib.Core.Path.{ap₂}
use native.Mathlib.Nat.{mod-eq_of_lt}

-- The entries that an iterator still goes through, on fuel.
abbrev pub walk : ℕ → BlockIter → List (Bytes × Bytes)
walk zero it = []
walk (suc fuel) it = elim (at_entry it) [
  | true ↦ (it.key, value_of it) ∷ walk fuel (next_entry it)
  | false ↦ []
]

-- The builder after some entries were added.
abbrev pub add_all : ℕ → BlockBuilder → List (Bytes × Bytes) → BlockBuilder
add_all interval b [] = b
add_all interval b ((key, value) ∷ entries) =
    add_all interval (add_entry interval b key value) entries

-- Keys and values whose lengths are uint32_t.
abbrev pub AreSmall : List (Bytes × Bytes) → Type 0
AreSmall = All (λ e. IsU32 (length e.0) × IsU32 (length e.1))

-- What the entries add to the buffer.
added :
    (interval : ℕ) (b : BlockBuilder) (entries : List (Bytes × Bytes))
    → AreSmall entries
    → (more : Bytes) × ((add_all interval b entries).buffer ≡ b.buffer ++ more)
added interval b [] small = ([], sym (append-nil b.buffer))
added interval b ((key, value) ∷ entries) small =
    let (more, e) = added interval (add_entry interval b key value) entries small.1 in
    let entry = entry_bytes (shared_by interval b key) key value in
    (
      entry ++ more,
      e
          ∙ ap (λ x. x ++ more) (add_entry_lem interval b key value small.0.0 small.0.1).0
          ∙ append_assoc b.buffer entry more,
    )

walk-at :
    (it : BlockIter) (fuel : ℕ)
    → at_entry it ≡ true
    → walk (suc fuel) it ≡ (it.key, value_of it) ∷ walk fuel (next_entry it)
walk-at it fuel here = rw (walk, here) refl

walk-off : (it : BlockIter) (fuel : ℕ) → at_entry it ≡ false → walk (suc fuel) it ≡ []
walk-off it fuel gone = rw (walk, gone) refl

walk-stop :
    (it : BlockIter) (fuel : ℕ)
    → leb it.restarts (next_entry_offset it) ≡ true
    → walk (suc fuel) (next_entry it) ≡ []
unfolding next_entry parse_next_key at_entry
walk-stop it fuel over =
    let past = record it { current = it.restarts; restart_index = it.num_restarts } in
    let moved : next_entry it ≡ past = rw (next_entry, parse_next_key, over) refl in
    ap (walk (suc fuel)) moved ∙ walk-off past fuel (le→ltb it.restarts it.restarts (omega arith))

shared_by_bounds :
    (interval : ℕ) (b : BlockBuilder) (key : Bytes)
    → (shared_by interval b key ≤ length b.last_key)
      × (shared_by interval b key ≤ length key)
      × (take (shared_by interval b key) b.last_key ++ drop (shared_by interval b key) key ≡ key)
shared_by_bounds interval b key = elim (Bool-cases (ltb b.counter interval)) [
  | inl sharing ↦ rw sharing (shared_length_bounds b.last_key key)
  | inr restart ↦ rw restart (omega arith, omega arith, refl)
]

-- The iterator stands behind what a builder had written, and the block goes on with entries.
pub record Follows (interval : ℕ) (b : BlockBuilder) (entries : List (Bytes × Bytes)) (tail : Bytes)
    (it : BlockIter) : Type 0 where
  pub block_lem : it.contents ≡ (add_all interval b entries).buffer ++ tail
  pub end_lem : it.restarts ≡ length (add_all interval b entries).buffer
  pub place_lem : next_entry_offset it ≡ length b.buffer
  pub last_lem : it.key ≡ b.last_key

walk-Follows :
    (interval : ℕ) (b : BlockBuilder) (entries : List (Bytes × Bytes)) (tail : Bytes)
    (it : BlockIter)
    → AreSmall entries
    → IsU32 (length (add_all interval b entries).buffer)
    → Follows interval b entries tail it
    → walk (suc (length entries)) (next_entry it) ≡ entries
unfolding next_entry
walk-Follows interval b [] tail it small fits f =
    walk-stop it 0
      (le→leb it.restarts (next_entry_offset it) (omega (arith, f.end_lem, f.place_lem)))
walk-Follows interval b ((key, value) ∷ entries) tail it small fits f =
    let shared = shared_by interval b key in
    let bounds = shared_by_bounds interval b key in
    let b' = add_entry interval b key value in
    let entry = entry_bytes shared key value in
    let put = add_entry_lem interval b key value small.0.0 small.0.1 in
    let (more, e) = added interval b' entries small.1 in
    let whole = e ∙ ap (λ x. x ++ more) put.0 ∙ append_assoc b.buffer entry more in
    let size : length (add_all interval b' entries).buffer
        ≡ data_size b.buffer shared key value more tail =
      omega (
        arith,
        ap length whole,
        length-append b.buffer (entry ++ more),
        length-append entry more,
      ) in
    let regroup : (b.buffer ++ (entry ++ more)) ++ tail
        ≡ around b.buffer shared key value more tail =
      simp append_assoc in
    let small_size : IsU32 (data_size b.buffer shared key value more tail) = omega (arith, size) in
    let stands : StandsBefore b.buffer shared key value more tail it = record {
      contents_lem = f.block_lem ∙ ap (λ x. x ++ tail) whole ∙ regroup;
      restarts_lem = f.end_lem ∙ size;
      offset_lem = f.place_lem;
      shared_lem = omega (arith, bounds.0, ap length f.last_lem);
      key_lem = ap (λ x. take shared x ++ drop shared key) f.last_lem ∙ bounds.2;
    } in
    let (r, p) =
      parse_next_key-StandsBefore b.buffer shared key value more tail small_size bounds.1 small.0.0
        it stands in
    let here = on_entry b.buffer shared key value more tail it r in
    let later : Follows interval b' entries tail here = record {
      block_lem = f.block_lem;
      end_lem = f.end_lem;
      place_lem =
          next_entry_offset-on_entry b.buffer shared key value more tail small_size bounds.1
            small.0.0 it r
          ∙ sym (ap length put.0 ∙ length-append b.buffer entry);
      last_lem = sym put.1;
    } in
    ap (walk (suc (suc (length entries)))) (ap (λ x. x.0) p)
    ∙ walk-at here (suc (length entries)) (
        at_entry-on_entry b.buffer shared key value more tail small_size bounds.1 small.0.0 it r
          stands.restarts_lem)
    ∙ ap₂ (λ v rest. (key, v) ∷ rest)
        (value_of-on_entry b.buffer shared key value more tail small_size bounds.1 small.0.0 it r
          stands.contents_lem)
        (walk-Follows interval b' entries tail here small.1 fits later)

put_restarts_lem : (buffer : Bytes) (rs : List ℕ) → put_restarts buffer rs ≡ buffer ++ words rs
unfolding put_restarts put_fixed32
put_restarts_lem buffer [] = sym (append-nil buffer)
put_restarts_lem buffer (r ∷ rs) =
    put_restarts_lem (buffer ++ encode_fixed32 r) rs
    ∙ append_assoc buffer (encode_fixed32 r) (words rs)

-- The first restart point stays at offset 0.
first_restart :
    (interval : ℕ) (b : BlockBuilder) (entries : List (Bytes × Bytes)) (rs : List ℕ)
    → b.restarts ≡ 0 ∷ rs
    → (rs' : List ℕ) × ((add_all interval b entries).restarts ≡ 0 ∷ rs')
unfolding add_entry
first_restart interval b [] rs e = (rs, e)
first_restart interval b ((key, value) ∷ entries) rs e =
    elim (Bool-cases (ltb b.counter interval)) [
      | inl sharing ↦
          first_restart interval (add_entry interval b key value) entries rs (rw sharing e)
      | inr restart ↦
          first_restart interval (add_entry interval b key value) entries
            (rs ++ (length b.buffer % 2 ^ 32) ∷ [])
            (rw restart (ap (λ x. x ++ (length b.buffer % 2 ^ 32) ∷ []) e))
    ]

open_at :
    (contents : Bytes) (size count place : ℕ)
    → block_size_of contents ≡ size
    → ltb size 4 ≡ false
    → decode_fixed32 (drop (size - 4) contents) ≡ count
    → (count == 0) ≡ false
    → (size - (1 + count) * 4) % 2 ^ 32 ≡ place
    → new_iterator contents ≡ entries_from (new_block_iter contents place count)
unfolding new_iterator
open_at contents size count place e long n some_there p =
    rw (new_iterator, e, long, n, some_there, p) refl

positive : (n : ℕ) → (suc n == 0) ≡ false
positive n = ground arith

-- A finished block, of some bytes of entries and some restart points, the first of them at 0.
module _ (buffer : Bytes) (rs : List ℕ) where
  abbrev points : List ℕ
  points = 0 ∷ rs

  abbrev finished : Bytes
  finished = buffer ++ (words points ++ encode_fixed32 (length points))

  abbrev opened : BlockIter
  opened = new_block_iter finished (length buffer) (length points)

  module _ (small : IsU32 (length finished)) where
    length-finished : length finished ≡ length buffer + (length points * 4 + 4)
    length-finished = omega (
      arith,
      length-append buffer (words points ++ encode_fixed32 (length points)),
      length-append (words points) (encode_fixed32 (length points)),
      length-words points,
      length-encode_fixed32 (length points),
    )

    count_word : decode_fixed32 (drop (length finished - 4) finished) ≡ length points
    count_word =
        let before = buffer ++ words points in
        let word = encode_fixed32 (length points) in
        let split = sym (append_assoc buffer (words points) word) in
        ap (λ n. decode_fixed32 (drop n finished)) {y = length before}
          (omega (arith, length-finished, length-append buffer (words points), length-words points))
        ∙ ap (λ x. decode_fixed32 (drop (length before) x)) split
        ∙ ap decode_fixed32 (drop-append before word ∙ sym (append-nil word))
        ∙ decode-encode_fixed32 (length points) [] (omega (arith, length-finished))

    block_size_of-finished : block_size_of finished ≡ length finished
    unfolding block_size_of
    block_size_of-finished =
        let long = le→ltb (length finished) 4 (omega (arith, length-finished)) in
        let room =
          le→ltb ((length finished - 4) / 4) (length points) (omega (arith, length-finished)) in
        rw (block_size_of, long, count_word, room) refl

    new_iterator-finished : new_iterator finished ≡ entries_from opened
    new_iterator-finished =
        open_at finished (length finished) (length points) (length buffer) block_size_of-finished
          (le→ltb (length finished) 4 (omega (arith, length-finished))) count_word
          (positive (length rs)) (omega (arith, length-finished))

    first_point : restart_point opened 0 ≡ 0
    unfolding restart_point new_block_iter
    first_point =
        ap (λ n. decode_fixed32 (drop n finished)) {x = length buffer + 0 * 4} {y = length buffer}
          (omega arith)
        ∙ ap decode_fixed32 (drop-append buffer (words points ++ encode_fixed32 (length points)))
        ∙ word_at points (encode_fixed32 (length points)) 0 (omega arith) (omega arith)

new_restarts : new_block_builder.restarts ≡ 0 ∷ []
unfolding new_block_builder
new_restarts = refl

finish_block_lem :
    (b : BlockBuilder) (rs : List ℕ)
    → b.restarts ≡ 0 ∷ rs
    → IsU32 (length (finish_block b).buffer)
    → (finish_block b).buffer ≡ finished b.buffer rs
unfolding finish_block put_fixed32
finish_block_lem b rs e fits =
    let ws = words b.restarts in
    let count = length b.restarts in
    let shape =
      ap (λ x. x ++ encode_fixed32 (count % 2 ^ 32)) (put_restarts_lem b.buffer b.restarts) in
    let size : count < 2 ^ 32 = omega (
      arith,
      ap length shape,
      length-append (b.buffer ++ ws) (encode_fixed32 (count % 2 ^ 32)),
      length-append b.buffer ws,
      length-words b.restarts,
    ) in
    shape
    ∙ append_assoc b.buffer ws (encode_fixed32 (count % 2 ^ 32))
    ∙ ap (λ n. b.buffer ++ (ws ++ encode_fixed32 n)) (mod-eq_of_lt {n = count} {m = 2 ^ 32} size)
    ∙ ap (λ x. b.buffer ++ (words x ++ encode_fixed32 (length x))) e

walk-opened :
    (interval : ℕ) (entries : List (Bytes × Bytes))
    → AreSmall entries
    → (rs : List ℕ)
    → IsU32 (length (finished (add_all interval new_block_builder entries).buffer rs))
    → walk
        (suc (length entries))
        (first_entry (opened (add_all interval new_block_builder entries).buffer rs))
      ≡ entries
unfolding first_entry next_entry seek_to_restart_point new_block_iter new_block_builder
    next_entry_offset
walk-opened interval entries small rs fits =
    let b = add_all interval new_block_builder entries in
    let it = seek_to_restart_point (opened b.buffer rs) 0 in
    let starts : Follows interval new_block_builder entries
        (words (0 ∷ rs) ++ encode_fixed32 (length (0 ∷ rs))) it =
      record {
        block_lem = refl;
        end_lem = refl;
        place_lem = ap (λ n. (n + 0) % 2 ^ 32) (first_point b.buffer rs fits);
        last_lem = refl;
      } in
    walk-Follows interval new_block_builder entries
      (words (0 ∷ rs) ++ encode_fixed32 (length (0 ∷ rs))) it small
      (omega (arith, length-finished b.buffer rs fits)) starts

-- The block that a builder writes of some entries, with any restart interval, opens as an iterator
-- that goes through exactly these entries, in their order, from the first on, and ends behind the
-- last, if keys and values have uint32_t lengths and the block has less than 2 ^ 32 bytes.
pub walk-finish_block :
    (interval : ℕ) (entries : List (Bytes × Bytes))
    → AreSmall entries
    → IsU32 (length (finish_block (add_all interval new_block_builder entries)).buffer)
    → (it : BlockIter) × (new_iterator
          (finish_block (add_all interval new_block_builder entries)).buffer
        ≡ entries_from it)
      × (walk (suc (length entries)) (first_entry it) ≡ entries)
walk-finish_block interval entries small fits =
    let b = add_all interval new_block_builder entries in
    let (rs, zero_first) = first_restart interval new_block_builder entries [] new_restarts in
    let same = finish_block_lem b rs zero_first fits in
    let fits' : IsU32 (length (finished b.buffer rs)) = omega (arith, ap length same) in
    let it = opened b.buffer rs in
    (
      it,
      ap new_iterator same ∙ new_iterator-finished b.buffer rs fits',
      walk-opened interval entries small rs fits',
    )
