-- ===== src/FilterBlock.antt =====
-- leveldb学习/sstable/filter_block.h and filter_block.c: the builder of the filter block of a table, which writes a
-- filter for every two kilobytes of data, and its reader. The filter policy is a parameter.
-- `tmp_keys_` is cleared before GenerateFilter returns, and so is a local list.
pub mod Flat
pub mod Words
pub mod Builder
pub mod Reading
mod Tests
use study_history.Prelude.{
  ℕ, zero, suc, ◌+◌, ◌-◌, ◌*◌, ◌/◌, ◌%◌, ◌^◌, List, [], ◌∷◌, ◌++◌, Bool, true, false, not, ◌&&◌,
  ltb, leb, ◌==◌, if◌then◌else◌, length, take, drop, get_or,
}
use study_history.Coding.{Bytes, put_fixed32, decode_fixed32}
use study_history.DbFormat.{FilterPolicy}

abbrev pub filter_base_lg : ℕ
filter_base_lg = 11

abbrev pub filter_base : ℕ
filter_base = 2 ^ filter_base_lg

pub record FilterBlockBuilder : Type 0 where
  pub keys : Bytes
  pub start : List ℕ
  pub result : Bytes
  pub filter_offsets : List ℕ

unfoldable pub new_filter_builder : FilterBlockBuilder
new_filter_builder = record { keys = []; start = []; result = []; filter_offsets = [] }

unfoldable pub add_key : FilterBlockBuilder → Bytes → FilterBlockBuilder
add_key b key = record b { start = b.start ++ length b.keys ∷ []; keys = b.keys ++ key }

-- The loop that cuts the flat keys at their starts.
unfoldable pub tmp_keys : Bytes → List ℕ → List Bytes
tmp_keys keys (first ∷ second ∷ start) =
    take (second - first) (drop first keys) ∷ tmp_keys keys (second ∷ start)
tmp_keys keys start = []

-- `filter_offsets_` are uint32_t.
abbrev pub with_offset : FilterBlockBuilder → List ℕ
with_offset b = b.filter_offsets ++ (length b.result % 2 ^ 32) ∷ []

-- The loop that appends the offsets.
unfoldable pub put_offsets : Bytes → List ℕ → Bytes
put_offsets result [] = result
put_offsets result (offset ∷ offsets) = put_offsets (put_fixed32 result offset) offsets

module _ (policy : FilterPolicy) where
  unfoldable pub generate_filter : FilterBlockBuilder → FilterBlockBuilder
  unfolding tmp_keys
  generate_filter b =
      if length b.start == 0 then record b { filter_offsets = with_offset b } else record {
        keys = [];
        start = [];
        filter_offsets = with_offset b;
        result = policy.create_filter (tmp_keys b.keys (b.start ++ length b.keys ∷ [])) b.result;
      }

  -- The `while` loop of StartBlock, which adds one offset a round.
  unfoldable pub generate_upto : ℕ → ℕ → FilterBlockBuilder → FilterBlockBuilder
  unfolding generate_filter
  generate_upto zero filter_index b = b
  generate_upto (suc fuel) filter_index b = elim (ltb (length b.filter_offsets) filter_index) [
    | true ↦ generate_upto fuel filter_index (generate_filter b)
    | false ↦ b
  ]

  unfoldable pub start_data_block : FilterBlockBuilder → ℕ → FilterBlockBuilder
  unfolding generate_upto
  start_data_block b block_offset =
      let filter_index = block_offset / filter_base in generate_upto filter_index filter_index b

  unfoldable pub finish : FilterBlockBuilder → Bytes
  unfolding generate_filter put_offsets
  finish b =
      let last = if not (length b.start == 0) then generate_filter b else b in
      let array_offset = length last.result % 2 ^ 32 in
      put_fixed32 (put_offsets last.result last.filter_offsets) array_offset ++ filter_base_lg ∷ []

-- `FilterBlockReader`; `offset_` counts from `data_`.
pub record FilterBlockReader : Type 0 where
  pub contents : Bytes
  pub offset : ℕ
  pub num : ℕ
  pub base_lg : ℕ

unfoldable pub new_filter_reader : Bytes → FilterBlockReader
new_filter_reader contents =
    let n = length contents in
    let base_lg = get_or contents (n - 1) 0 in
    let last_word = decode_fixed32 (drop (n - 5) contents) in
    if ltb n 5
    then record { contents = []; offset = 0; num = 0; base_lg = 0 }
    else (if ltb (n - 5) last_word
        then record { contents = []; offset = 0; num = 0; base_lg = base_lg }
        else record {
          contents = contents;
          offset = last_word;
          num = (n - 5 - last_word) / 4;
          base_lg = base_lg;
        })

unfoldable pub block_key_may_match : FilterPolicy → FilterBlockReader → ℕ → Bytes → Bool
block_key_may_match policy reader block_offset key =
    let index = block_offset / 2 ^ reader.base_lg in
    let start = decode_fixed32 (drop (reader.offset + index * 4) reader.contents) in
    let limit = decode_fixed32 (drop (reader.offset + index * 4 + 4) reader.contents) in
    if ltb index reader.num
    then (if leb start limit && leb limit reader.offset
        then policy.key_may_match key (take (limit - start) (drop start reader.contents))
        else (if start == limit then false else true))
    else true
