-- ===== src/Bloom/Bit.antt =====
-- Single bits of a number: what `|` sets, and what `&` with a power of two tests.
use study_history.Prelude.{
  ℕ, zero, suc, ◌+◌, ◌*◌, ◌/◌, ◌%◌, ◌^◌, ◌≤◌, ◌≡◌, refl, sym, ap, ◌∙◌, arith, bit_and, bit_or,
}
use study_history.Prelude.Bits.{bit_or_step}
use Prim.Native.Nat.{max, min, digits, bit_and-bitwise}
use native.Mathlib.Nat.{pow-suc}

-- Bit `j` of a number, lowest first.
abbrev pub bit : ℕ → ℕ → ℕ
bit x zero = x % 2
bit x (suc j) = bit (x / 2) j

pub bit-or : (j x y : ℕ) → bit (bit_or x y) j ≡ max (bit x j) (bit y j)
bit-or zero x y = omega (arith, bit_or_step x y)
bit-or (suc j) x y = ap (λ z. bit z j) half ∙ bit-or j (x / 2) (y / 2)
  where
    half : bit_or x y / 2 ≡ bit_or (x / 2) (y / 2)
    half = omega (arith, bit_or_step x y)

pub bit-pow : (j : ℕ) → bit (2 ^ j) j ≡ 1
bit-pow zero = refl
bit-pow (suc j) = ap (λ z. bit z j) half ∙ bit-pow j
  where
    half : 2 ^ suc j / 2 ≡ 2 ^ j
    half = omega (arith, pow-suc 2 j)

-- The digits of `&`, on fuel; more fuel than the first number changes nothing.
abbrev met : ℕ → ℕ → ℕ → ℕ
met fuel = digits (λ rest. 0) min fuel

met-zero : (fuel y : ℕ) → met fuel 0 y ≡ 0
met-zero zero y = refl
met-zero (suc fuel) y = refl

met-settled : (x y k l : ℕ) → x ≤ k → x ≤ l → met k x y ≡ met l x y
met-settled zero y k l _ _ = met-zero k y ∙ sym (met-zero l y)
met-settled (suc x) y zero l h _ = absurd (omega arith)
met-settled (suc x) y (suc k) zero _ h = absurd (omega arith)
met-settled (suc x) y (suc k) (suc l) h h' =
    let lower = met-settled (suc x / 2) (y / 2) k l (omega arith) (omega arith) in
    omega (arith, lower)

and_step : (x y : ℕ) → bit_and x y ≡ bit_and (x / 2) (y / 2) * 2 + min (x % 2) (y % 2)
and_step zero y = omega (arith, bit_and-bitwise 0 y, bit_and-bitwise 0 (y / 2))
and_step (suc n) y =
    let half = suc n / 2 in
    let lower = met-settled half (y / 2) n half (omega arith) (omega arith) in
    omega (arith, bit_and-bitwise (suc n) y, bit_and-bitwise half (y / 2), lower)

and_zero : (bound x : ℕ) → x ≤ bound → bit_and x 0 ≡ 0
and_zero bound zero h = omega (arith, bit_and-bitwise 0 0)
and_zero zero (suc x) h = absurd (omega arith)
and_zero (suc bound) (suc x) h =
    omega (arith, and_step (suc x) 0, and_zero bound (suc x / 2) (omega arith))

-- `x & (1 << j)` is not zero exactly where bit `j` is set.
pub and-pow : (j x : ℕ) → bit_and x (2 ^ j) ≡ bit x j * 2 ^ j
and-pow zero x = omega (arith, and_step x 1, and_zero (x / 2) (x / 2) (omega arith))
and-pow (suc j) x = omega (
  arith,
  and_step x (2 ^ suc j),
  ap (bit_and (x / 2)) half,
  and-pow j (x / 2),
  pow-suc 2 j,
  twice,
)
  where
    half : 2 ^ suc j / 2 ≡ 2 ^ j
    half = omega (arith, pow-suc 2 j)

    twice : bit (x / 2) j * 2 ^ suc j ≡ bit (x / 2) j * 2 ^ j * 2
    twice = rw pow-suc (omega arith)
