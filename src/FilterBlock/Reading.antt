-- ===== src/FilterBlock/Reading.antt =====
-- The reader of a filter block over what the builder wrote: leveldb学习/sstable/filter_block.c.
use study_history.Prelude.{
  ℕ, zero, suc, ◌+◌, ◌-◌, ◌*◌, ◌/◌, ◌%◌, ◌^◌, ◌<◌, ◌≡◌, refl, sym, ap, ◌∙◌, arith, List, [], ◌∷◌,
  ◌++◌, Bool, true, false, not, ◌==◌, if◌then◌else◌, length, drop, get_or, append_assoc,
  length-append, drop-append, drop-drop, lt→ltb, le→ltb, le→leb, get_or-last,
}
use study_history.Coding.{Bytes, IsU32, put_fixed32, encode_fixed32, decode_fixed32}
use study_history.DbFormat.{FilterPolicy}
use study_history.FilterBlock.{
  FilterBlockBuilder, FilterBlockReader, generate_filter, finish, put_offsets, new_filter_reader,
  block_key_may_match, filter_base, filter_base_lg,
}
use study_history.FilterBlock.Builder.{
  IsFilterPolicy, filter_of, filters, Represents, Fits32, generate_filter-Represents,
  length-filters, Fits32-before,
}
use mathlib.Core.List.{Memᴰ}
use study_history.FilterBlock.Flat.{flat, starts, length-starts, suc-nonzero}
use mathlib.Core.Path.{ap₂}
use native.Mathlib.Nat.{mod-eq_of_lt}
use study_history.FilterBlock.Words.{
  words, length-words, words-snoc, put_offsets_lem, word_at, edges, edges-bounds, slice_at,
}

module _ (policy : FilterPolicy) (ok : IsFilterPolicy policy) where
  -- The block that the builder writes for some groups of keys.
  abbrev block : List (List Bytes) → Bytes
  block groups =
      flat (filters policy groups)
      ++ (words (edges 0 (filters policy groups)) ++ filter_base_lg ∷ [])

  finish_groups :
      (b : FilterBlockBuilder) (groups : List (List Bytes))
      → Represents policy b groups []
      → Fits32 policy groups
      → put_fixed32 (put_offsets b.result b.filter_offsets) (length b.result % 2 ^ 32)
          ++ filter_base_lg ∷ []
        ≡ block groups
  unfolding put_fixed32
  finish_groups b groups r fits =
      let F = filters policy groups in
      let total = mod-eq_of_lt {n = length (flat F)} {m = 2 ^ 32} fits in
      ap₂ (λ x o. (put_offsets x o ++ encode_fixed32 (length x % 2 ^ 32)) ++ filter_base_lg ∷ [])
        r.result_lem r.offsets_lem
      ∙ ap₂ (λ x n. (x ++ encode_fixed32 n) ++ filter_base_lg ∷ [])
          (put_offsets_lem (flat F) (starts 0 F)) total
      ∙ ap (λ x. x ++ filter_base_lg ∷ [])
          (append_assoc (flat F) (words (starts 0 F)) (encode_fixed32 (length (flat F)))
            ∙ ap (◌++◌ (flat F)) (
                sym (words-snoc (starts 0 F) (length (flat F)))
                ∙ ap (λ n. words (starts 0 F ++ n ∷ [])) {x = length (flat F)}
                    {y = 0 + length (flat F)} (omega arith)))
      ∙ append_assoc (flat F) (words (edges 0 F)) (filter_base_lg ∷ [])

  -- What the reader takes from such a block.
  reader_of : List (List Bytes) → FilterBlockReader
  reader_of groups = record {
    contents = block groups;
    offset = length (flat (filters policy groups));
    num = length groups;
    base_lg = filter_base_lg;
  }

  length-edges :
      (groups : List (List Bytes)) → length (edges 0 (filters policy groups)) ≡ length groups + 1
  length-edges groups = omega (
    arith,
    length-append (starts 0 (filters policy groups))
        ((0 + length (flat (filters policy groups))) ∷ []),
    length-starts 0 (filters policy groups),
    length-filters policy groups,
  )

  length-block :
      (groups : List (List Bytes))
      → length (block groups) ≡ length (flat (filters policy groups)) + (length groups * 4 + 5)
  length-block groups =
      let F = filters policy groups in
      omega (
        arith,
        length-append (flat F) (words (edges 0 F) ++ filter_base_lg ∷ []),
        length-append (words (edges 0 F)) (filter_base_lg ∷ []),
        length-words (edges 0 F),
        length-edges groups,
      )

  last_byte :
      (groups : List (List Bytes))
      → get_or (block groups) (length (block groups) - 1) 0 ≡ filter_base_lg
  last_byte groups =
      let F = filters policy groups in
      let before = flat F ++ words (edges 0 F) in
      let split = sym (append_assoc (flat F) (words (edges 0 F)) (filter_base_lg ∷ [])) in
      let size = length-append before (filter_base_lg ∷ []) in
      ap (λ x. get_or x (length x - 1) 0) split
      ∙ ap (λ n. get_or (before ++ filter_base_lg ∷ []) n 0) {y = length before}
          (omega (arith, size))
      ∙ get_or-last before filter_base_lg 0

  word_in :
      (groups : List (List Bytes)) (i : ℕ)
      → i < length groups + 1
      → IsU32 (get_or (edges 0 (filters policy groups)) i 0)
      → decode_fixed32 (drop (length (flat (filters policy groups)) + i * 4) (block groups))
        ≡ get_or (edges 0 (filters policy groups)) i 0
  word_in groups i h small =
      let F = filters policy groups in
      ap decode_fixed32 (
        drop-drop (length (flat F)) (i * 4) (block groups)
        ∙ ap (drop (i * 4)) (drop-append (flat F) (words (edges 0 F) ++ filter_base_lg ∷ [])))
      ∙ word_at (edges 0 F) (filter_base_lg ∷ []) i (omega (arith, length-edges groups)) small

  last_edge :
      (groups : List (List Bytes))
      → get_or (edges 0 (filters policy groups)) (length groups) 0
        ≡ length (flat (filters policy groups))
  last_edge groups =
      let F = filters policy groups in
      ap (λ n. get_or (edges 0 F) n 0) {y = length (starts 0 F)}
        (omega (arith, length-starts 0 F, length-filters policy groups))
      ∙ get_or-last (starts 0 F) (0 + length (flat F)) 0
      ∙ omega arith

  last_word :
      (groups : List (List Bytes))
      → Fits32 policy groups
      → decode_fixed32 (drop (length (block groups) - 5) (block groups))
        ≡ length (flat (filters policy groups))
  last_word groups fits =
      let F = filters policy groups in
      let end = last_edge groups in
      ap (λ n. decode_fixed32 (drop n (block groups))) {y = length (flat F) + length groups * 4}
        (omega (arith, length-block groups))
      ∙ word_in groups (length groups) (omega arith) (omega (arith, end))
      ∙ end

  new_filter_reader-block :
      (groups : List (List Bytes))
      → Fits32 policy groups
      → new_filter_reader (block groups) ≡ reader_of groups
  unfolding new_filter_reader reader_of
  new_filter_reader-block groups fits =
      let size = length-block groups in
      let long = le→ltb (length (block groups)) 5 (omega (arith, size)) in
      let word = last_word groups fits in
      let fits_in =
        le→ltb (length (block groups) - 5) (length (flat (filters policy groups)))
          (omega (arith, size)) in
      let count : (length (block groups) - 5 - length (flat (filters policy groups))) / 4
          ≡ length groups =
        omega (arith, size) in
      rw (new_filter_reader, long, word, fits_in, count, last_byte groups) refl

  filter_at :
      (groups : List (List Bytes)) (i : ℕ)
      → get_or (filters policy groups) i [] ≡ filter_of policy (get_or groups i [])
  filter_at [] i = refl
  filter_at (keys ∷ groups) zero = refl
  filter_at (keys ∷ groups) (suc i) = filter_at groups i

  found_in :
      (keys : List Bytes) (key : Bytes)
      → Memᴰ key keys
      → policy.key_may_match key (filter_of policy keys) ≡ true
  found_in [] key member = elim member [ ]
  found_in (first ∷ keys) key member = ok.matches (first ∷ keys) key member

  has_group :
      (groups : List (List Bytes)) (i : ℕ) (key : Bytes)
      → Memᴰ key (get_or groups i [])
      → i < length groups
  has_group [] i key member = elim member [ ]
  has_group (keys ∷ groups) zero key member = omega arith
  has_group (keys ∷ groups) (suc i) key member = omega (arith, has_group groups i key member)

  read_group :
      (groups : List (List Bytes)) (block_offset : ℕ) (key : Bytes)
      → Fits32 policy groups
      → Memᴰ key (get_or groups (block_offset / filter_base) [])
      → block_key_may_match policy (reader_of groups) block_offset key ≡ true
  unfolding reader_of block_key_may_match
  read_group groups block_offset key fits member =
      let F = filters policy groups in
      let i = block_offset / filter_base in
      let inside = has_group groups i key member in
      let in_filters : i < length F = omega (arith, inside, length-filters policy groups) in
      let bounds = edges-bounds 0 F i in_filters in
      let starts_at = word_in groups i (omega arith) (omega (arith, bounds.0, bounds.1)) in
      let ends_at =
        ap (λ n. decode_fixed32 (drop n (block groups))) {x = length (flat F) + i * 4 + 4}
          {y = length (flat F) + suc i * 4} (omega arith)
        ∙ word_in groups (suc i) (omega arith) (omega (arith, bounds.1)) in
      let rising = le→leb (get_or (edges 0 F) i 0) (get_or (edges 0 F) (suc i) 0) bounds.0 in
      let below =
        le→leb (get_or (edges 0 F) (suc i) 0) (length (flat F)) (omega (arith, bounds.1)) in
      let there =
        ap (policy.key_may_match key)
          (slice_at F (words (edges 0 F) ++ filter_base_lg ∷ []) i in_filters ∙ filter_at groups i)
        ∙ found_in (get_or groups i []) key member in
      rw
        (
          block_key_may_match,
          lt→ltb i (length groups) inside,
          starts_at,
          ends_at,
          rising,
          below,
          there,
        )
        refl

  -- The groups that have a filter once the builder is finished.
  abbrev closed : List (List Bytes) → List Bytes → List (List Bytes)
  closed groups [] = groups
  closed groups (key ∷ keys) = groups ++ (key ∷ keys) ∷ []

  -- What Finish writes behind the last filter.
  abbrev sealed : FilterBlockBuilder → Bytes
  sealed b =
      put_fixed32 (put_offsets b.result b.filter_offsets) (length b.result % 2 ^ 32)
      ++ filter_base_lg ∷ []

  finish-sealed :
      (b : FilterBlockBuilder) (empty : Bool)
      → (length b.start == 0) ≡ empty
      → finish policy b ≡ sealed (if empty then b else generate_filter policy b)
  unfolding finish
  finish-sealed b true e = ap (λ c. sealed (if not c then generate_filter policy b else b)) e
  finish-sealed b false e = ap (λ c. sealed (if not c then generate_filter policy b else b)) e

  finish-block :
      (b : FilterBlockBuilder) (groups : List (List Bytes)) (pending : List Bytes)
      → Represents policy b groups pending
      → Fits32 policy (groups ++ pending ∷ [])
      → finish policy b ≡ block (closed groups pending)
  finish-block b groups [] r fits =
      finish-sealed b true (ap (λ s. length s == 0) r.start_lem)
      ∙ finish_groups b groups r (Fits32-before policy groups [] fits)
  finish-block b groups (key ∷ keys) r fits =
      let more = groups ++ (key ∷ keys) ∷ [] in
      finish-sealed b false
        (ap (λ s. length s == 0) r.start_lem ∙ suc-nonzero (length (starts (0 + length key) keys)))
      ∙ finish_groups (generate_filter policy b) more
          (generate_filter-Represents policy b groups (key ∷ keys) ok r
            (Fits32-before policy groups (key ∷ keys) fits))
          fits

  closed-Fits32 :
      (groups : List (List Bytes)) (pending : List Bytes)
      → Fits32 policy (groups ++ pending ∷ [])
      → Fits32 policy (closed groups pending)
  closed-Fits32 groups [] fits = Fits32-before policy groups [] fits
  closed-Fits32 groups (key ∷ keys) fits = fits

  closed-member :
      (groups : List (List Bytes)) (pending : List Bytes) (i : ℕ) (key : Bytes)
      → Memᴰ key (get_or (groups ++ pending ∷ []) i [])
      → Memᴰ key (get_or (closed groups pending) i [])
  closed-member [] [] zero key member = elim member [ ]
  closed-member [] [] (suc i) key member = member
  closed-member (keys ∷ groups) [] zero key member = member
  closed-member (keys ∷ groups) [] (suc i) key member = closed-member groups [] i key member
  closed-member groups (first ∷ keys) i key member = member

  -- The reader of a finished filter block finds every key, under every block offset whose filter
  -- was made for the key: of a closed group or of the pending keys of the builder, if the policy
  -- finds the keys of its filters and the filters have less than 2 ^ 32 bytes together.
  pub block_key_may_match-finish :
      (b : FilterBlockBuilder) (groups : List (List Bytes)) (pending : List Bytes)
      (block_offset : ℕ) (key : Bytes)
      → Represents policy b groups pending
      → Fits32 policy (groups ++ pending ∷ [])
      → Memᴰ key (get_or (groups ++ pending ∷ []) (block_offset / filter_base) [])
      → block_key_may_match policy (new_filter_reader (finish policy b)) block_offset key ≡ true
  block_key_may_match-finish b groups pending block_offset key r fits member =
      let small = closed-Fits32 groups pending fits in
      ap (λ x. block_key_may_match policy x block_offset key)
        (ap new_filter_reader (finish-block b groups pending r fits)
          ∙ new_filter_reader-block (closed groups pending) small)
      ∙ read_group (closed groups pending) block_offset key small
          (closed-member groups pending (block_offset / filter_base) key member)
