-- ===== src/FilterBlock/Builder.antt =====
-- What the builder of the filter block holds: leveldb学习/sstable/filter_block.c.
use study_history.Prelude.{
  ℕ, zero, suc, ◌+◌, ◌-◌, ◌/◌, ◌%◌, ◌^◌, ◌≤◌, ◌<◌, ◌≡◌, refl, sym, ap, ◌∙◌, subst, arith, List, [],
  ◌∷◌, ◌++◌, true, false, ltb, length, append-nil, length-append, lt→ltb, le→ltb,
}
use study_history.Coding.{Bytes}
use study_history.DbFormat.{FilterPolicy}
use study_history.FilterBlock.{
  FilterBlockBuilder, new_filter_builder, add_key, tmp_keys, generate_filter, generate_upto,
  start_data_block, filter_base, with_offset,
}
use study_history.FilterBlock.Flat.{
  flat, starts, flat-snoc, starts0-snoc, length-starts, suc-nonzero, tmp_keys-starts,
}
use mathlib.Core.Path.{ap₂}
use mathlib.Core.List.{Memᴰ}
use native.Mathlib.Nat.{mod-eq_of_lt}

-- What the filter block relies on of its policy.
pub record IsFilterPolicy (policy : FilterPolicy) : Type 0 where
  pub appends :
      (keys : List Bytes) (dst : Bytes)
      → policy.create_filter keys dst ≡ dst ++ policy.create_filter keys []
  pub matches :
      (keys : List Bytes) (key : Bytes)
      → Memᴰ key keys
      → policy.key_may_match key (policy.create_filter keys []) ≡ true

module _ (policy : FilterPolicy) where
  -- The filter of a group of keys, which is empty where there are none.
  abbrev pub filter_of : List Bytes → Bytes
  filter_of [] = []
  filter_of (key ∷ keys) = policy.create_filter (key ∷ keys) []

  abbrev pub filters : List (List Bytes) → List Bytes
  filters [] = []
  filters (keys ∷ groups) = filter_of keys ∷ filters groups

  -- The builder stands for the groups of keys that have a filter and for the keys of the next one.
  pub record Represents (b : FilterBlockBuilder) (groups : List (List Bytes)) (pending : List Bytes)
      : Type 0 where
    pub keys_lem : b.keys ≡ flat pending
    pub start_lem : b.start ≡ starts 0 pending
    pub result_lem : b.result ≡ flat (filters groups)
    pub offsets_lem : b.filter_offsets ≡ starts 0 (filters groups)

  -- What StartBlock makes of the groups: the pending keys close one, and empty ones follow.
  abbrev pub advance : ℕ → List (List Bytes) → List Bytes → List (List Bytes) × List Bytes
  advance zero groups pending = (groups, pending)
  advance (suc n) groups pending = advance n (groups ++ pending ∷ []) []

  abbrev pub Fits32 : List (List Bytes) → Type 0
  Fits32 groups = length (flat (filters groups)) < 2 ^ 32

  filters-snoc :
      (groups : List (List Bytes)) (keys : List Bytes)
      → filters (groups ++ keys ∷ []) ≡ filters groups ++ filter_of keys ∷ []
  filters-snoc [] keys = refl
  filters-snoc (first ∷ groups) keys = ap (◌∷◌ (filter_of first)) (filters-snoc groups keys)

  flat-filters-snoc :
      (groups : List (List Bytes)) (keys : List Bytes)
      → flat (filters (groups ++ keys ∷ [])) ≡ flat (filters groups) ++ filter_of keys
  flat-filters-snoc groups keys =
      ap flat (filters-snoc groups keys) ∙ flat-snoc (filters groups) (filter_of keys)

  -- A new builder stands for no groups and no keys.
  pub new_filter_builder-Represents : Represents new_filter_builder [] []
  unfolding new_filter_builder
  new_filter_builder-Represents = record {
    keys_lem = refl;
    start_lem = refl;
    result_lem = refl;
    offsets_lem = refl;
  }

  module _ (b : FilterBlockBuilder) (groups : List (List Bytes)) (pending : List Bytes)
      (r : Represents b groups pending) where
    -- AddKey adds its key to the pending ones of a builder, and nothing else.
    pub add_key-Represents : (key : Bytes) → Represents (add_key b key) groups (pending ++ key ∷ [])
    unfolding add_key
    add_key-Represents key = record {
      keys_lem = ap (λ x. x ++ key) r.keys_lem ∙ sym (flat-snoc pending key);
      start_lem =
          ap₂ (λ s k. s ++ length k ∷ []) r.start_lem r.keys_lem ∙ sym (starts0-snoc pending key);
      result_lem = r.result_lem;
      offsets_lem = r.offsets_lem;
    }

    with_offset_lem :
        Fits32 groups
        → b.filter_offsets ++ (length b.result % 2 ^ 32) ∷ []
          ≡ starts 0 (filters (groups ++ pending ∷ []))
    with_offset_lem fits =
        ap₂ (λ o x. o ++ (length x % 2 ^ 32) ∷ []) r.offsets_lem r.result_lem
        ∙ ap (λ n. starts 0 (filters groups) ++ n ∷ [])
            (mod-eq_of_lt {n = length (flat (filters groups))} {m = 2 ^ 32} fits)
        ∙ sym (starts0-snoc (filters groups) (filter_of pending))
        ∙ sym (ap (starts 0) (filters-snoc groups pending))

    tmp_keys_lem : tmp_keys b.keys (b.start ++ length b.keys ∷ []) ≡ pending
    tmp_keys_lem =
        ap₂ (λ k s. tmp_keys k (s ++ length k ∷ [])) r.keys_lem r.start_lem
        ∙ ap (λ n. tmp_keys (flat pending) (starts 0 pending ++ n ∷ [])) {x = length (flat pending)}
            {y = 0 + length (flat pending)} (omega arith)
        ∙ tmp_keys-starts [] pending

  -- GenerateFilter closes the group of the pending keys with the filter that the policy makes of
  -- exactly them, and without one if there are none, if the filters before have less than 2 ^ 32 bytes.
  pub generate_filter-Represents :
      (b : FilterBlockBuilder) (groups : List (List Bytes)) (pending : List Bytes)
      → IsFilterPolicy policy
      → Represents b groups pending
      → Fits32 groups
      → Represents (generate_filter policy b) (groups ++ pending ∷ []) []
  unfolding generate_filter
  generate_filter-Represents b groups [] ok r fits =
      subst (λ x. Represents x (groups ++ [] ∷ []) []) (sym (empty_case (ap length r.start_lem)))
        (record {
          keys_lem = r.keys_lem;
          start_lem = r.start_lem;
          result_lem =
              r.result_lem ∙ sym (flat-filters-snoc groups [] ∙ append-nil (flat (filters groups)));
          offsets_lem = with_offset_lem b groups [] r fits;
        })
    where
      empty_case :
          length b.start ≡ 0
          → generate_filter policy b ≡ record b { filter_offsets = with_offset b }
      empty_case none_there = rw (generate_filter, none_there) refl
  generate_filter-Represents b groups (key ∷ keys) ok r fits =
      subst (λ x. Represents x (groups ++ (key ∷ keys) ∷ []) [])
        (sym (full_case (ap length r.start_lem)))
        (record {
          keys_lem = refl;
          start_lem = refl;
          result_lem =
              ok.appends (key ∷ keys) b.result
              ∙ ap (λ x. x ++ policy.create_filter (key ∷ keys) []) r.result_lem
              ∙ sym (flat-filters-snoc groups (key ∷ keys));
          offsets_lem = with_offset_lem b groups (key ∷ keys) r fits;
        })
    where
      full_case :
          length b.start ≡ suc (length (starts (0 + length key) keys))
          → generate_filter policy b ≡ record {
            keys = [];
            start = [];
            filter_offsets = with_offset b;
            result = policy.create_filter (key ∷ keys) b.result;
          }
      full_case some_there =
          rw
            (
              generate_filter,
              some_there,
              suc-nonzero (length (starts (0 + length key) keys)),
              tmp_keys_lem b groups (key ∷ keys) r,
            )
            refl

  pub length-filters : (groups : List (List Bytes)) → length (filters groups) ≡ length groups
  length-filters [] = refl
  length-filters (keys ∷ groups) = ap suc (length-filters groups)

  length-offsets :
      (b : FilterBlockBuilder) (groups : List (List Bytes)) (pending : List Bytes)
      → Represents b groups pending
      → length b.filter_offsets ≡ length groups
  length-offsets b groups pending r =
      ap length r.offsets_lem ∙ length-starts 0 (filters groups) ∙ length-filters groups

  pub Fits32-before :
      (groups : List (List Bytes)) (pending : List Bytes)
      → Fits32 (groups ++ pending ∷ [])
      → Fits32 groups
  Fits32-before groups pending fits = omega (
    arith,
    ap length (flat-filters-snoc groups pending),
    length-append (flat (filters groups)) (filter_of pending),
  )

  Fits32-after : (groups : List (List Bytes)) → Fits32 groups → Fits32 (groups ++ [] ∷ [])
  Fits32-after groups fits =
      omega (arith, ap length (flat-filters-snoc groups [] ∙ append-nil (flat (filters groups))))

  -- One round of the loop of StartBlock.
  upto_stops :
      (fuel index : ℕ) (b : FilterBlockBuilder)
      → ltb (length b.filter_offsets) index ≡ false
      → generate_upto policy (suc fuel) index b ≡ b
  unfolding generate_upto
  upto_stops fuel index b stop = rw (generate_upto, stop) refl

  upto_goes :
      (fuel index : ℕ) (b : FilterBlockBuilder)
      → ltb (length b.filter_offsets) index ≡ true
      → generate_upto policy (suc fuel) index b
        ≡ generate_upto policy fuel index (generate_filter policy b)
  unfolding generate_upto
  upto_goes fuel index b go = rw (generate_upto, go) refl

  generate_upto-Represents :
      (n fuel index : ℕ) (b : FilterBlockBuilder) (groups : List (List Bytes))
      (pending : List Bytes)
      → IsFilterPolicy policy
      → Represents b groups pending
      → length groups + n ≡ index
      → n ≤ fuel
      → Fits32 (groups ++ pending ∷ [])
      → (let (groups', pending') = advance n groups pending in
          Represents (generate_upto policy fuel index b) groups' pending')
  unfolding generate_upto
  generate_upto-Represents zero zero index b groups pending ok r count enough fits = r
  generate_upto-Represents zero (suc fuel) index b groups pending ok r count enough fits =
      subst (λ x. Represents x groups pending)
        (sym
          (upto_stops fuel index b (le→ltb _ _ (omega (arith, length-offsets b groups pending r)))))
        r
  generate_upto-Represents (suc n) zero index b groups pending ok r count enough fits =
      absurd (omega arith)
  generate_upto-Represents (suc n) (suc fuel) index b groups pending ok r count enough fits =
      let closed = groups ++ pending ∷ [] in
      let (groups', pending') = advance n closed [] in
      subst (λ x. Represents x groups' pending')
        (sym
          (upto_goes fuel index b (lt→ltb _ _ (omega (arith, length-offsets b groups pending r)))))
        (generate_upto-Represents n fuel index (generate_filter policy b) closed [] ok
          (generate_filter-Represents b groups pending ok r (Fits32-before groups pending fits))
          (omega (arith, count, length-append groups (pending ∷ []))) (omega arith)
          (Fits32-after closed fits))

  -- StartBlock, at an offset whose filter is not before the next one of the builder, closes the
  -- group of the pending keys and adds empty groups up to that filter, if the filters so far and
  -- the one of the pending keys have less than 2 ^ 32 bytes together.
  pub start_data_block-Represents :
      (b : FilterBlockBuilder) (groups : List (List Bytes)) (pending : List Bytes)
      (block_offset : ℕ)
      → IsFilterPolicy policy
      → Represents b groups pending
      → length groups ≤ block_offset / filter_base
      → Fits32 (groups ++ pending ∷ [])
      → (let (groups', pending') =
            advance (block_offset / filter_base - length groups) groups pending in
          Represents (start_data_block policy b block_offset) groups' pending')
  unfolding start_data_block
  start_data_block-Represents b groups pending block_offset ok r behind fits =
      let index = block_offset / filter_base in
      generate_upto-Represents (index - length groups) index index b groups pending ok r
        (omega arith) (omega arith) fits
