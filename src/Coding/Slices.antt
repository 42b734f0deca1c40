-- ===== src/Coding/Slices.antt =====
-- Length-prefixed slices of coding.cpp, and what the decoders take from an arbitrary input.
use mathlib.Core.Path.{ap₂}
use study_history.Prelude.{
  refl, sym, ap, ◌∙◌, Bool, true, false, Option, none, leb, leb→le, ◌==◌, if◌then◌else◌, ◌⊎◌, take,
  drop, take-append-drop, ℕ, zero, suc, ◌+◌, ◌*◌, ◌%◌, ◌^◌, ◌≤◌, ◌<◌, ◌≡◌, arith, bit_and, bit_or,
  [], ◌∷◌, ◌++◌, some, length, All, append_assoc, length-append, take-append, drop-append,
  Option-cases, inl, inr, length-take, length-drop,
}
use study_history.Prelude.Bits.{bit_or_lt, top_bit}
use study_history.Coding.{
  Bytes, IsByte, IsU32, IsU64, encode_varint32, put_varint32, get_varint_loop,
  get_varint32_ptr_fallback, get_varint32_ptr, get_varint32, get_varint64_ptr, get_varint64,
  put_length_prefixed_slice, get_length_prefixed_slice,
}
use study_history.Coding.Varint.{get_varint32-put}
use native.Mathlib.Nat.{mod-lt, mod-eq_of_lt}

-- What PutLengthPrefixedSlice appends: the length, and then the bytes.
abbrev pub prefixed : Bytes → Bytes
prefixed s = encode_varint32 (length s % 2 ^ 32) ++ s

pub put_length_prefixed_slice_lem :
    (dst s : Bytes) → put_length_prefixed_slice dst s ≡ dst ++ prefixed s
unfolding put_length_prefixed_slice put_varint32
put_length_prefixed_slice_lem dst s = append_assoc dst (encode_varint32 (length s % 2 ^ 32)) s

pub get_length_prefixed_slice-prefixed :
    (s rest : Bytes)
    → length s < 2 ^ 32
    → get_length_prefixed_slice (prefixed s ++ rest) ≡ some (s, rest)
unfolding get_length_prefixed_slice
get_length_prefixed_slice-prefixed s rest h =
    let e : length s % 2 ^ 32 ≡ length s = mod-eq_of_lt h in
    rw e (
      ground (
        arith,
        append_assoc (encode_varint32 (length s)) s rest,
        get_varint32-put (length s) (s ++ rest) h,
        length-append s rest,
        take-append s rest,
        drop-append s rest,
      ))

-- GetLengthPrefixedSlice reads back the slice that PutLengthPrefixedSlice appended to an empty
-- string, and leaves what follows it, for a slice of fewer than 2 ^ 32 bytes.
pub get_length_prefixed_slice-put :
    (s rest : Bytes)
    → length s < 2 ^ 32
    → get_length_prefixed_slice (put_length_prefixed_slice [] s ++ rest) ≡ some (s, rest)
get_length_prefixed_slice-put s rest h =
    rw put_length_prefixed_slice_lem (get_length_prefixed_slice-prefixed s rest h)

-- What the loop takes: at most one byte for each shift that is left, and a result within the width.
get_varint_loop_takes :
    (last width n : ℕ) (p : Bytes) (shift result v : ℕ) (rest : Bytes)
    → last < shift + 7 * n
    → result < 2 ^ width
    → get_varint_loop last width p shift result ≡ some (v, rest)
    → (v < 2 ^ width) × (length rest < length p) × (length p ≤ length rest + n)
unfolding get_varint_loop
get_varint_loop_takes last width n [] shift result v rest hn hr e = cc
get_varint_loop_takes last width zero (byte ∷ p) shift result v rest hn hr e = absurd (ground arith)
get_varint_loop_takes last width (suc n) (byte ∷ p) shift result v rest hn hr e = ground (
  arith,
  within byte,
  get_varint_loop_takes last width n p (shift + 7)
      (bit_or result (bit_and byte 127 * 2 ^ shift % 2 ^ width)) v rest (omega arith)
      (within (bit_and byte 127)),
)
  where
    within : (b : ℕ) → bit_or result (b * 2 ^ shift % 2 ^ width) < 2 ^ width
    within b = bit_or_lt width result _ hr (mod-lt (b * 2 ^ shift) (omega arith))

-- A GetVarint32 that succeeds takes 1 to 5 bytes and returns a uint32.
pub get_varint32_takes :
    (p : Bytes) (v : ℕ) (rest : Bytes)
    → All IsByte p
    → get_varint32 p ≡ some (v, rest)
    → IsU32 v × (length rest < length p) × (length p ≤ length rest + 5)
unfolding get_varint32 get_varint32_ptr get_varint32_ptr_fallback
get_varint32_takes [] v rest b e = cc (e)
get_varint32_takes (byte ∷ p) v rest b e =
    ground (arith, top_bit byte b.0, get_varint_loop_takes 28 32 5 (byte ∷ p) 0 0 v rest)

-- A GetVarint64 that succeeds takes 1 to 10 bytes and returns a uint64.
pub get_varint64_takes :
    (p : Bytes) (v : ℕ) (rest : Bytes)
    → get_varint64 p ≡ some (v, rest)
    → IsU64 v × (length rest < length p) × (length p ≤ length rest + 10)
unfolding get_varint64 get_varint64_ptr
get_varint64_takes p v rest e = ground (arith, get_varint_loop_takes 63 64 10 p 0 0 v rest)

-- A round of the loop that succeeds has read the last byte, or the rounds after it succeed.
round_cases :
    (a b : Bool) (x : ℕ) (p : Bytes) (later : Option (ℕ × Bytes)) (v : ℕ) (rest : Bytes)
    → (if a then (if b then some (x, p) else later) else none) ≡ some (v, rest)
    → (p ≡ rest) ⊎ (later ≡ some (v, rest))
round_cases true true x p later v rest e = inl (ap (λ o. elim o [ none ↦ p | some r ↦ r.1 ]) e)
round_cases true false x p later v rest e = inr e
round_cases false b x p later v rest e = absurd (cc (e))

get_varint_loop_suffix :
    (last width : ℕ) (p : Bytes) (shift result v : ℕ) (rest : Bytes)
    → get_varint_loop last width p shift result ≡ some (v, rest)
    → (pre : Bytes) × (p ≡ pre ++ rest)
unfolding get_varint_loop
get_varint_loop_suffix last width [] shift result v rest e = absurd (cc (e))
get_varint_loop_suffix last width (byte ∷ p) shift result v rest e =
    let result' = bit_or result (bit_and byte 127 * 2 ^ shift % 2 ^ width) in
    elim (round_cases (leb shift last) (bit_and byte 128 == 0)
      (bit_or result (byte * 2 ^ shift % 2 ^ width)) p
      (get_varint_loop last width p (shift + 7) result') v rest e) [
        | inl ends ↦ (byte ∷ [], ap (◌∷◌ byte) ends)
        | inr more ↦
            let (pre, eq) = get_varint_loop_suffix last width p (shift + 7) result' v rest more in
            (byte ∷ pre, ap (◌∷◌ byte) eq)
      ]

abbrev rewrap : Option (ℕ × Bytes) → Option (ℕ × Bytes)
rewrap o = elim o [ none ↦ none | some (n, q) ↦ some (n, q) ]

rewrapped :
    (o : Option (ℕ × Bytes)) (v : ℕ) (rest : Bytes) → rewrap o ≡ some (v, rest) → o ≡ some (v, rest)
rewrapped none v rest e = e
rewrapped (some x) v rest e = e

get_varint32_suffix :
    (p : Bytes) (v : ℕ) (rest : Bytes)
    → get_varint32 p ≡ some (v, rest)
    → (pre : Bytes) × (p ≡ pre ++ rest)
unfolding get_varint32 get_varint32_ptr get_varint32_ptr_fallback
get_varint32_suffix [] v rest e = absurd (cc (e))
get_varint32_suffix (byte ∷ p) v rest e =
    elim (round_cases true (bit_and byte 128 == 0) byte p (get_varint_loop 28 32 (byte ∷ p) 0 0) v
      rest (rewrapped (get_varint32_ptr (byte ∷ p)) v rest e)) [
        | inl ends ↦ (byte ∷ [], ap (◌∷◌ byte) ends)
        | inr more ↦ get_varint_loop_suffix 28 32 (byte ∷ p) 0 0 v rest more
      ]

-- The slice and the rest, where the length fits.
abbrev cut_if : Bool → Bytes → Bytes → Option (Bytes × Bytes)
cut_if fits cut left = if fits then some (cut, left) else none

sliced :
    (fits : Bool) (cut left s rest : Bytes)
    → cut_if fits cut left ≡ some (s, rest)
    → (fits ≡ true) × (cut ≡ s) × (left ≡ rest)
sliced true cut left s rest e = (
  refl,
  ap (λ (o : Option (Bytes × Bytes)). elim o [ none ↦ cut | some r ↦ r.0 ]) e,
  ap (λ (o : Option (Bytes × Bytes)). elim o [ none ↦ left | some r ↦ r.1 ]) e,
)
sliced false cut left s rest e = absurd (cc (e))

-- What a GetLengthPrefixedSlice that succeeds returns: the input starts with a length in 1 to 5
-- bytes, which GetVarint32 reads, then follows the slice, of that length, and then the rest.
pub get_length_prefixed_slice_takes :
    (p s rest : Bytes)
    → All IsByte p
    → get_length_prefixed_slice p ≡ some (s, rest)
    → (pre : Bytes) × (p ≡ pre ++ (s ++ rest))
      × (get_varint32 p ≡ some (length s, s ++ rest))
      × (1 ≤ length pre)
      × (length pre ≤ 5)
unfolding get_length_prefixed_slice
get_length_prefixed_slice_takes p s rest b e = elim (Option-cases (get_varint32 p)) [
  | inl fail ↦ absurd (ground arith)
  | inr ((len, tail), ok) ↦
      let (pre, eq) = get_varint32_suffix p len tail ok in
      let (fits, cut, left) =
        sliced (leb len (length tail)) (take len tail) (drop len tail) s rest (
          sym (
            ap
              (λ (o : Option (ℕ × Bytes)). elim o [
                | none ↦ none
                | some (n, r) ↦ cut_if (leb n (length r)) (take n r) (drop n r)
              ])
              ok)
          ∙ e) in
      let inside = leb→le len (length tail) fits in
      let whole : s ++ rest ≡ tail =
        sym (ap₂ (λ x y. x ++ y) cut left) ∙ take-append-drop len tail in
      let size : length s ≡ len = sym (ap length cut) ∙ length-take len tail inside in
      let (small, shorter, bound) = get_varint32_takes p len tail b ok in
      let sum = ap length eq ∙ length-append pre tail in
      (
        pre,
        eq ∙ ap (λ t. pre ++ t) (sym whole),
        ok ∙ ap₂ (λ n t. some (n, t)) (sym size) (sym whole),
        omega (arith, sum, shorter),
        omega (arith, sum, bound),
      )
]

-- The decoders that succeed leave a shorter input, also where an element is no byte.
pub get_varint32-shorter :
    (p : Bytes) (v : ℕ) (rest : Bytes) → get_varint32 p ≡ some (v, rest) → length rest < length p
unfolding get_varint32 get_varint32_ptr get_varint32_ptr_fallback
get_varint32-shorter [] v rest e = cc (e)
get_varint32-shorter (byte ∷ p) v rest e =
    ground (arith, get_varint_loop_takes 28 32 5 (byte ∷ p) 0 0 v rest)

pub get_varint64-shorter :
    (p : Bytes) (v : ℕ) (rest : Bytes) → get_varint64 p ≡ some (v, rest) → length rest < length p
get_varint64-shorter p v rest e = (get_varint64_takes p v rest e).1

pub get_length_prefixed_slice-shorter :
    (p s rest : Bytes) → get_length_prefixed_slice p ≡ some (s, rest) → length rest < length p
unfolding get_length_prefixed_slice
get_length_prefixed_slice-shorter p s rest e = elim (Option-cases (get_varint32 p)) [
  | inl fail ↦ absurd (ground arith)
  | inr ((len, tail), ok) ↦ ground (arith, get_varint32-shorter p len tail ok, length-drop len tail)
]
