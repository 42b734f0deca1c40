-- ===== src/Bloom/Marks.antt =====
-- The bits that a Bloom filter sets in its array: leveldb学习/filter/bloom.c.
use study_history.Prelude.{
  ℕ, zero, suc, ◌+◌, ◌*◌, ◌/◌, ◌%◌, ◌^◌, ◌≤◌, ◌<◌, ◌≡◌, ◌≢◌, refl, sym, ap, ◌∙◌, arith, inl, inr,
  Bool-cases, [], ◌∷◌, false, ◌==◌, ==_iff, bit_and, bit_or, length, get_or, set, length-set,
}
use study_history.Coding.{Bytes}
use study_history.Bloom.{u32, set_bit}
use study_history.Bloom.Bit.{bit, bit-or, bit-pow, and-pow}
use native.Mathlib.Nat.{one-le-pow}

get_or-set : (xs : Bytes) (i v d : ℕ) → i < length xs → get_or (set xs i v) i d ≡ v
get_or-set [] i v d h = absurd (omega arith)
get_or-set (x ∷ xs) zero v d h = refl
get_or-set (x ∷ xs) (suc i) v d h = get_or-set xs i v d (omega arith)

-- A write changes no other index, and out of range none.
get_or-set_other : (xs : Bytes) (i j v d : ℕ) → (i ≢ j) → get_or (set xs i v) j d ≡ get_or xs j d
get_or-set_other [] i j v d ne = refl
get_or-set_other (x ∷ xs) zero zero v d ne = absurd (ne refl)
get_or-set_other (x ∷ xs) zero (suc j) v d ne = refl
get_or-set_other (x ∷ xs) (suc i) zero v d ne = refl
get_or-set_other (x ∷ xs) (suc i) (suc j) v d ne = get_or-set_other xs i j v d (λ e. ne (ap suc e))

pub bit_le : (j x : ℕ) → bit x j ≤ 1
bit_le zero x = omega arith
bit_le (suc j) x = bit_le j (x / 2)

-- The bit at a position of the array is set.
abbrev pub HasBit : Bytes → ℕ → Type 0
HasBit array p = bit (get_or array (p / 8) 0) (p % 8) ≡ 1

pub set_bit-HasBit : (array : Bytes) (p : ℕ) → p / 8 < length array → HasBit (set_bit array p) p
unfolding set_bit
set_bit-HasBit array p inside =
    let old = get_or array (p / 8) 0 in
    ap (λ x. bit x (p % 8)) (get_or-set array (p / 8) (bit_or old (2 ^ (p % 8))) 0 inside)
    ∙ omega (arith, bit-or (p % 8) old (2 ^ (p % 8)), bit-pow (p % 8), bit_le (p % 8) old)

pub set_bit-keeps :
    (array : Bytes) (p q : ℕ) → p / 8 < length array → HasBit array q → HasBit (set_bit array p) q
unfolding set_bit
set_bit-keeps array p q inside there = elim (Bool-cases (p / 8 == q / 8)) [
  | inl same ↦
      let byte = (==_iff (p / 8) (q / 8)).0 same in
      let old = get_or array (p / 8) 0 in
      let joined = bit_or old (2 ^ (p % 8)) in
      let read =
        ap (λ i. get_or (set array (p / 8) joined) i 0) (sym byte)
        ∙ get_or-set array (p / 8) joined 0 inside in
      let was = ap (λ i. bit (get_or array i 0) (q % 8)) byte ∙ there in
      ap (λ x. bit x (q % 8)) read
      ∙ omega (arith, bit-or (q % 8) old (2 ^ (p % 8)), was, bit_le (q % 8) (2 ^ (p % 8)))
  | inr differs ↦
      ap (λ x. bit x (q % 8))
        (get_or-set_other array (p / 8) (q / 8) (bit_or (get_or array (p / 8) 0) (2 ^ (p % 8))) 0
          (λ same. ground arith))
      ∙ there
]

pub length-set_bit : (array : Bytes) (p : ℕ) → length (set_bit array p) ≡ length array
unfolding set_bit
length-set_bit array p = length-set array (p / 8) (bit_or (get_or array (p / 8) 0) (2 ^ (p % 8)))

-- Every one of `k` probes from `h` on is set.
abbrev pub Probed : ℕ → ℕ → ℕ → ℕ → Bytes → Type 0
Probed bits delta zero h array = Unit
Probed bits delta (suc k) h array =
    HasBit array (h % bits) × Probed bits delta k (u32 (h + delta)) array

-- The test of a set bit.
pub bit_set : (x j : ℕ) → bit x j ≡ 1 → (bit_and x (2 ^ j) == 0) ≡ false
bit_set x j there =
    let value : bit_and x (2 ^ j) ≡ 1 * 2 ^ j = and-pow j x ∙ ap (λ b. b * 2 ^ j) there in
    let positive = one-le-pow j 2 (omega arith) in ground arith
