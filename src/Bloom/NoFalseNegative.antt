-- ===== src/Bloom/NoFalseNegative.antt =====
-- KeyMayMatch on a filter that CreateFilter made: leveldb学习/filter/bloom.c.
use study_history.Prelude.{
  get_or-append, get_or-last, ℕ, zero, suc, ◌+◌, ◌-◌, ◌*◌, ◌/◌, ◌%◌, ◌^◌, ◌≤◌, ◌<◌, ◌≡◌, refl, sym,
  ap, ◌∙◌, arith, subst, inl, inr, Bool-cases, List, [], ◌∷◌, ◌++◌, true, ltb, le→ltb, ltb_false→le,
  if◌then◌else◌, bit_and, length, get_or, replicate, length-append, length-replicate,
}
use study_history.Coding.{Bytes}
use study_history.Bloom.{
  u32, bloom_hash, probes, rotate, set_bit, add_probes, add_keys, filter_bytes, create_filter,
  all_set, key_may_match,
}
use native.Mathlib.Nat.{mod-lt}
use mathlib.Core.List.{Memᴰ}
use mathlib.Core.List.Memᴰ.{head, tail}
use study_history.Bloom.Marks.{
  HasBit, set_bit-HasBit, set_bit-keeps, length-set_bit, Probed, bit_set,
}

module _ (bits : ℕ) where
  -- An array of that many bits, of which there are some.
  abbrev Fits : Bytes → Type 0
  Fits array = (bits ≡ length array * 8) × (0 < bits)

  within : (h : ℕ) (array : Bytes) → Fits array → h % bits / 8 < length array
  within h array fits = omega (arith, mod-lt h {m = bits} fits.1, fits.0)

  set_bit-Fits : (array : Bytes) (p : ℕ) → Fits array → Fits (set_bit array p)
  set_bit-Fits array p fits = (omega (arith, fits.0, length-set_bit array p), fits.1)

  set_bit-Probed :
      (delta k h p : ℕ) (array : Bytes)
      → p / 8 < length array
      → Probed bits delta k h array
      → Probed bits delta k h (set_bit array p)
  set_bit-Probed delta zero h p array inside _ = tt
  set_bit-Probed delta (suc k) h p array inside (first, later) = (
    set_bit-keeps array p (h % bits) inside first,
    set_bit-Probed delta k (u32 (h + delta)) p array inside later,
  )

  add_probes-Fits :
      (delta k h : ℕ) (array : Bytes) → Fits array → Fits (add_probes bits delta k h array)
  unfolding add_probes
  add_probes-Fits delta zero h array fits = fits
  add_probes-Fits delta (suc k) h array fits =
      add_probes-Fits delta k (u32 (h + delta)) (set_bit array (h % bits))
        (set_bit-Fits array (h % bits) fits)

  add_probes-keeps :
      (delta k h : ℕ) (array : Bytes) (q : ℕ)
      → Fits array
      → HasBit array q
      → HasBit (add_probes bits delta k h array) q
  unfolding add_probes
  add_probes-keeps delta zero h array q fits there = there
  add_probes-keeps delta (suc k) h array q fits there =
      add_probes-keeps delta k (u32 (h + delta)) (set_bit array (h % bits)) q
        (set_bit-Fits array (h % bits) fits)
        (set_bit-keeps array (h % bits) q (within h array fits) there)

  add_probes-Probed_other :
      (delta k h delta' k' h' : ℕ) (array : Bytes)
      → Fits array
      → Probed bits delta' k' h' array
      → Probed bits delta' k' h' (add_probes bits delta k h array)
  add_probes-Probed_other delta k h delta' zero h' array fits _ = tt
  add_probes-Probed_other delta k h delta' (suc k') h' array fits (first, later) = (
    add_probes-keeps delta k h array (h' % bits) fits first,
    add_probes-Probed_other delta k h delta' k' (u32 (h' + delta')) array fits later,
  )

  add_probes-Probed :
      (delta k h : ℕ) (array : Bytes)
      → Fits array
      → Probed bits delta k h (add_probes bits delta k h array)
  unfolding add_probes
  add_probes-Probed delta zero h array fits = tt
  add_probes-Probed delta (suc k) h array fits =
      let here = set_bit array (h % bits) in
      let fits' = set_bit-Fits array (h % bits) fits in
      (
        add_probes-keeps delta k (u32 (h + delta)) here (h % bits) fits'
            (set_bit-HasBit array (h % bits) (within h array fits)),
        add_probes-Probed delta k (u32 (h + delta)) here fits',
      )

  add_keys-Fits :
      (k : ℕ) (keys : List Bytes) (array : Bytes) → Fits array → Fits (add_keys bits k keys array)
  unfolding add_keys
  add_keys-Fits k [] array fits = fits
  add_keys-Fits k (key ∷ keys) array fits =
      let h = bloom_hash key in
      add_keys-Fits k keys (add_probes bits (rotate h) k h array)
        (add_probes-Fits (rotate h) k h array fits)

  add_keys-keeps :
      (k : ℕ) (keys : List Bytes) (array : Bytes) (delta' k' h' : ℕ)
      → Fits array
      → Probed bits delta' k' h' array
      → Probed bits delta' k' h' (add_keys bits k keys array)
  unfolding add_keys
  add_keys-keeps k [] array delta' k' h' fits there = there
  add_keys-keeps k (key ∷ keys) array delta' k' h' fits there =
      let h = bloom_hash key in
      add_keys-keeps k keys (add_probes bits (rotate h) k h array) delta' k' h'
        (add_probes-Fits (rotate h) k h array fits)
        (add_probes-Probed_other (rotate h) k h delta' k' h' array fits there)

  add_keys-Probed :
      (k : ℕ) (keys : List Bytes) (array : Bytes) {key : Bytes}
      → Fits array
      → Memᴰ key keys
      → Probed bits (rotate (bloom_hash key)) k (bloom_hash key) (add_keys bits k keys array)
  unfolding add_keys
  add_keys-Probed k [] array fits member = elim member [ ]
  add_keys-Probed k (first ∷ keys) array {key} fits (head same) =
      let h = bloom_hash first in
      subst
        (λ x.
          Probed bits (rotate (bloom_hash x)) k (bloom_hash x)
            (add_keys bits k (first ∷ keys) array))
        (sym same)
        (add_keys-keeps k keys (add_probes bits (rotate h) k h array) (rotate h) k h
          (add_probes-Fits (rotate h) k h array fits) (add_probes-Probed (rotate h) k h array fits))
  add_keys-Probed k (first ∷ keys) array {key} fits (tail later) =
      let h = bloom_hash first in
      add_keys-Probed k keys (add_probes bits (rotate h) k h array)
        (add_probes-Fits (rotate h) k h array fits) later

  all_set-Probed :
      (delta k h : ℕ) (array rest : Bytes)
      → Fits array
      → Probed bits delta k h array
      → all_set bits delta k h (array ++ rest) ≡ true
  unfolding all_set
  all_set-Probed delta zero h array rest fits _ = refl
  all_set-Probed delta (suc k) h array rest fits (first, later) =
      let byte =
        ap (λ x. bit_and x (2 ^ (h % bits % 8)))
          (get_or-append array rest (h % bits / 8) 0 (within h array fits)) in
      let tested = bit_set (get_or array (h % bits / 8) 0) (h % bits % 8) first in
      let others = all_set-Probed delta k (u32 (h + delta)) array rest fits later in
      rw byte (rw tested others)

filter_bytes-ge : (bits_per_key n : ℕ) → 8 ≤ filter_bytes bits_per_key n
unfolding filter_bytes
filter_bytes-ge bits_per_key n = elim (Bool-cases (ltb (n * bits_per_key) 64)) [
  | inl small ↦ rw small (omega arith)
  | inr large ↦
      rw large (let many = ltb_false→le (n * bits_per_key) 64 large in omega (arith, many))
]

probes_le : (bits_per_key : ℕ) → probes bits_per_key ≤ 30
unfolding probes
probes_le bits_per_key = at (bits_per_key * 69 / 100)
  where
    at : (k : ℕ) → (if ltb k 1 then 1 else (if ltb 30 k then 30 else k)) ≤ 30
    at k = ground arith

-- What the filter says of a key whose probes are all set in its array.
key_may_match-Probed :
    (key array : Bytes) (k : ℕ)
    → 1 ≤ length array
    → k ≤ 30
    → Probed (length array * 8) (rotate (bloom_hash key)) k (bloom_hash key) array
    → key_may_match key (array ++ k ∷ []) ≡ true
unfolding key_may_match
key_may_match-Probed key array k some_bytes few probed =
    let count = length-append array (k ∷ []) in
    let size : length (array ++ k ∷ []) - 1 ≡ length array = omega (arith, count) in
    let last = ap (λ i. get_or (array ++ k ∷ []) i 0) size ∙ get_or-last array k 0 in
    let enough = le→ltb (length (array ++ k ∷ [])) 2 (omega (arith, count)) in
    let whole =
      all_set-Probed (length array * 8) (rotate (bloom_hash key)) k (bloom_hash key) array (k ∷ [])
        (refl, omega arith) probed in
    let small = le→ltb 30 k few in rw enough (rw last (rw small (rw size whole)))

-- A key that the filter was built from is found: for every number of bits per key, list of keys
-- and member of it, KeyMayMatch answers true on what CreateFilter wrote to an empty string.
pub key_may_match-create_filter :
    (bits_per_key : ℕ) (keys : List Bytes) (key : Bytes)
    → Memᴰ key keys
    → key_may_match key (create_filter bits_per_key keys []) ≡ true
unfolding create_filter
key_may_match-create_filter bits_per_key keys key member =
    let bytes = filter_bytes bits_per_key (length keys) in
    let bits = bytes * 8 in
    let k = probes bits_per_key in
    let empty : Bytes = replicate bytes 0 in
    let array : Bytes = add_keys bits k keys empty in
    let enough = filter_bytes-ge bits_per_key (length keys) in
    let fits : Fits bits empty =
      (sym (ap (λ n. n * 8) (length-replicate bytes 0)), omega (arith, enough)) in
    let filled = add_keys-Fits bits k keys empty fits in
    key_may_match-Probed key array k (omega (arith, filled.0, enough)) (probes_le bits_per_key) (
      subst (λ n. Probed n (rotate (bloom_hash key)) k (bloom_hash key) array) filled.0
        (add_keys-Probed bits k keys empty fits member))
