-- ===== src/Block/Parse.antt =====
-- ParseNextKey of leveldb学习/sstable/block.c at an entry that the builder of a block wrote.
use study_history.Prelude.{
  ℕ, zero, suc, ◌+◌, ◌-◌, ◌^◌, ◌≤◌, ◌<◌, ◌≡◌, refl, sym, ap, ◌∙◌, arith, ◌++◌, true, false,
  Bool-cases, inl, inr, some, ltb, lt→ltb, le→ltb, leb, ◌&&◌, length, take, drop, append_assoc,
  length-append, length-drop, take-append, drop-append,
}
use study_history.Coding.{Bytes, IsU32, encode_varint32}
use study_history.BlockBuilder.Entries.{entry_bytes}
use study_history.Block.{
  BlockIter, next_entry_offset, restart_point, advance_restart, take_entry, parse_next_key,
  value_of, at_entry, decode_entry,
}
use study_history.Block.Decode.{decode_entry-entry_bytes, length-entry_bytes}
use mathlib.Core.Path.{ap₂}
use native.Mathlib.Nat.{mod-eq_of_lt}

-- The loop over the restart points changes nothing but the index.
pub advance_restart_lem :
    (fuel : ℕ) (it : BlockIter)
    → (r : ℕ) × (advance_restart fuel it ≡ record it { restart_index = r })
unfolding advance_restart
advance_restart_lem zero it = (it.restart_index, refl)
advance_restart_lem (suc fuel) it =
    elim (Bool-cases (
      ltb (it.restart_index + 1) it.num_restarts
      && ltb (restart_point it (it.restart_index + 1)) it.current)) [
        | inl go ↦
            let (r, e) =
              advance_restart_lem fuel (record it { restart_index = it.restart_index + 1 }) in
            (r, rw (advance_restart, go) e)
        | inr stop ↦ (it.restart_index, rw (advance_restart, stop) refl)
      ]

take-prefix : (n : ℕ) (xs ys : Bytes) → length xs ≡ n → take n (xs ++ ys) ≡ xs
take-prefix n xs ys same = ap (λ k. take k (xs ++ ys)) (sym same) ∙ take-append xs ys

drop-prefix : (n : ℕ) (xs ys : Bytes) → length xs ≡ n → drop n (xs ++ ys) ≡ ys
drop-prefix n xs ys same = ap (λ k. drop k (xs ++ ys)) (sym same) ∙ drop-append xs ys

lt→leb : (a b : ℕ) → a < b → leb b a ≡ false
lt→leb a b h = ground arith

-- ParseNextKey where an entry is decoded.
parse_at :
    (it : BlockIter) (offset shared non_shared value_length : ℕ) (p : Bytes)
    → next_entry_offset it ≡ offset
    → leb it.restarts offset ≡ false
    → decode_entry (take (it.restarts - offset) (drop offset it.contents))
      ≡ some (shared, non_shared, value_length, p)
    → parse_next_key it
      ≡ take_entry (record it { current = offset }) shared non_shared value_length p
unfolding parse_next_key
parse_at it offset shared non_shared value_length p at inside decoded =
    rw (parse_next_key, at, inside, decoded)
      (ap (λ o. take_entry (record it { current = o }) shared non_shared value_length p) at)

-- An iterator over a block that goes on with an entry: what stands before it, what follows up to
-- the restart points, and what follows these.
module _ (before : Bytes) (shared : ℕ) (key value more tail : Bytes) where
  abbrev entry : Bytes
  entry = entry_bytes shared key value

  -- The block, and where its restart points start.
  abbrev pub around : Bytes
  around = before ++ (entry ++ (more ++ tail))

  abbrev pub data_size : ℕ
  data_size = length before + (length entry + length more)

  pub record StandsBefore (it : BlockIter) : Type 0 where
    pub contents_lem : it.contents ≡ around
    pub restarts_lem : it.restarts ≡ data_size
    pub offset_lem : next_entry_offset it ≡ length before
    pub shared_lem : shared ≤ length it.key
    pub key_lem : take shared it.key ++ drop shared key ≡ key

  -- The iterator on the entry.
  abbrev pub on_entry : BlockIter → ℕ → BlockIter
  on_entry it r = record it {
    current = length before;
    restart_index = r;
    key = key;
    value_at = data_size - length more - length value;
    value_size = length value;
  }

  module _ (small : IsU32 data_size) (within : shared ≤ length key)
      (small_key : IsU32 (length key)) where
    delta : Bytes
    delta = drop shared key ++ (value ++ more)

    length-delta : length delta ≡ length key - shared + length value + length more
    unfolding delta
    length-delta = omega (
      arith,
      length-append (drop shared key) (value ++ more),
      length-append value more,
      length-drop shared key,
    )

    header : Bytes
    header =
        encode_varint32 shared
        ++ (encode_varint32 (length key - shared) ++ encode_varint32 (length value))

    entry_lem : entry ≡ header ++ (drop shared key ++ value)
    unfolding header
    entry_lem = simp append_assoc

    length-entry : length entry ≡ length header + (length key - shared) + length value
    length-entry =
        ap length entry_lem
        ∙ omega (
          arith,
          length-append header (drop shared key ++ value),
          length-append (drop shared key) value,
          length-drop shared key,
        )

    long_entry : 3 ≤ length entry
    long_entry = omega (
      arith,
      length-entry_bytes shared key value (omega arith) small_key (omega (arith, length-entry)),
    )

    decoded :
        decode_entry (take (data_size - length before) (drop (length before) around))
        ≡ some (shared, length key - shared, length value, delta)
    unfolding delta
    decoded =
        let counts = length-append entry more in
        ap (λ x. decode_entry (take (data_size - length before) x))
          (drop-append before (entry ++ (more ++ tail)))
        ∙ ap (λ x. decode_entry (take (data_size - length before) x))
            (sym (append_assoc entry more tail))
        ∙ ap decode_entry
            (take-prefix (data_size - length before) (entry ++ more) tail (omega (arith, counts)))
        ∙ decode_entry-entry_bytes shared key value more within small_key
            (omega (arith, length-delta, length-entry))

    taken :
        (it : BlockIter)
        → StandsBefore it
        → (r : ℕ) × (take_entry
              (record it { current = length before })
              shared
              (length key - shared)
              (length value)
              delta
            ≡ (on_entry it r, true))
    unfolding take_entry delta
    taken it stands =
        let non_shared = length key - shared in
        let long = le→ltb (length it.key) shared stands.shared_lem in
        let keys =
          ap (λ x. take shared it.key ++ x)
            (take-prefix non_shared (drop shared key) (value ++ more) (length-drop shared key))
          ∙ stands.key_lem in
        let place : it.restarts - length delta + non_shared
            ≡ data_size - length more - length value =
          omega (arith, stands.restarts_lem, length-delta, length-entry) in
        let (r, e) = advance_restart_lem it.num_restarts (record it {
          current = length before;
          key = take shared it.key ++ take non_shared delta;
          value_at = it.restarts - length delta + non_shared;
          value_size = length value;
        }) in
        (
          r,
          rw (take_entry, long)
              (ap (λ x. (x, true)) e
                ∙ ap₂
                    (λ k v. (
                      record it {
                        current = length before;
                        restart_index = r;
                        key = k;
                        value_at = v;
                        value_size = length value;
                      },
                      true,
                    ))
                    keys place),
        )

    -- ParseNextKey before the entry moves onto it, and finds it.
    pub parse_next_key-StandsBefore :
        (it : BlockIter) → StandsBefore it → (r : ℕ) × (parse_next_key it ≡ (on_entry it r, true))
    unfolding parse_next_key
    parse_next_key-StandsBefore it stands =
        let (r, e) = taken it stands in
        let open_block =
          parse_at it (length before) shared (length key - shared) (length value) delta
            stands.offset_lem
            (lt→leb (length before) it.restarts (omega (arith, stands.restarts_lem, long_entry)))
            (ap₂ (λ n x. decode_entry (take (n - length before) (drop (length before) x)))
                stands.restarts_lem stands.contents_lem
              ∙ decoded) in
        (r, open_block ∙ e)

    -- The value on the entry, and where the next one starts.
    pub value_of-on_entry :
        (it : BlockIter) (r : ℕ) → it.contents ≡ around → value_of (on_entry it r) ≡ value
    unfolding value_of
    value_of-on_entry it r same =
        let first = before ++ (header ++ drop shared key) in
        let rest = value ++ (more ++ tail) in
        let regroup : around ≡ first ++ rest =
          ap (λ x. before ++ (x ++ (more ++ tail))) entry_lem ∙ simp append_assoc in
        let count = length-append before (header ++ drop shared key) in
        let count' = length-append header (drop shared key) in
        ap (λ x. take (length value) (drop (data_size - length more - length value) x))
          (same ∙ regroup)
        ∙ ap (take (length value)) (
            drop-prefix (data_size - length more - length value) first rest
              (omega (arith, count, count', length-entry, length-drop shared key)))
        ∙ take-append value (more ++ tail)

    pub next_entry_offset-on_entry :
        (it : BlockIter) (r : ℕ) → next_entry_offset (on_entry it r) ≡ length before + length entry
    unfolding next_entry_offset
    next_entry_offset-on_entry it r =
        mod-eq_of_lt {n = data_size - length more - length value + length value} {m = 2 ^ 32}
          (omega (arith, length-entry))
        ∙ omega (arith, length-entry)

    pub at_entry-on_entry :
        (it : BlockIter) (r : ℕ) → it.restarts ≡ data_size → at_entry (on_entry it r) ≡ true
    unfolding at_entry
    at_entry-on_entry it r same =
        lt→ltb (length before) it.restarts (omega (arith, same, long_entry))
