-- ===== src/Prelude/Bits.antt =====
-- Bit operations at variables: the digit recursion of `|`, and the masks of one byte as tables.
use Prim.Native.Nat.{
  ℕ, zero, suc, ◌+◌, ◌*◌, ◌/◌, ◌%◌, ◌^◌, ◌≤◌, ◌<◌, max, bit_and, bit_or, digits, bit_or-bitwise,
}
use mathlib.Core.Path.{◌≡◌, refl, sym, ap, ap₂, ◌∙◌}
use mathlib.Core.Bool.{Bool, true, ◌&&◌}
use native.Mathlib.Omega.{arith}
use native.Mathlib.Nat.{pow-suc}
use study_history.Prelude.Tests.{◌==◌}

-- Two functions agree on the numbers below a bound, found by evaluation.
module _ (f g : ℕ → ℕ) where
  same_upto : ℕ → Bool
  same_upto zero = true
  same_upto (suc k) = same_upto k && f k == g k

  same_upto→eq : (k b : ℕ) → same_upto k ≡ true → b < k → f b ≡ g b
  unfolding same_upto
  same_upto→eq zero b checked below = absurd (omega arith)
  same_upto→eq (suc k) b checked below =
      grind (arith, λ (earlier : b < k). same_upto→eq k b (ground arith) earlier)

-- `b & 127` of a byte is its seven low bits.
pub low_bits : (b : ℕ) → b < 256 → bit_and b 127 ≡ b % 128
unfolding same_upto
low_bits b below = same_upto→eq (λ n. bit_and n 127) (λ n. n % 128) 256 b refl below

-- `b & 128` of a byte is its top bit.
pub top_bit : (b : ℕ) → b < 256 → bit_and b 128 ≡ b / 128 * 128
unfolding same_upto
top_bit b below = same_upto→eq (λ n. bit_and n 128) (λ n. n / 128 * 128) 256 b refl below

-- The digits of `|`, on fuel, from the definition that the native operation stands for; fuel above
-- the first number changes nothing.
abbrev joined : ℕ → ℕ → ℕ → ℕ
joined fuel = digits (λ rest. rest) max fuel

joined-zero : (fuel y : ℕ) → joined fuel 0 y ≡ y
joined-zero zero y = refl
joined-zero (suc fuel) y = refl

settled : (x y k l : ℕ) → x ≤ k → x ≤ l → joined k x y ≡ joined l x y
settled zero y k l below_k below_l = joined-zero k y ∙ sym (joined-zero l y)
settled (suc x) y zero l below_k below_l = absurd (omega arith)
settled (suc x) y (suc k) zero below_k below_l = absurd (omega arith)
settled (suc x) y (suc k) (suc l) below_k below_l =
    let smaller = settled (suc x / 2) (y / 2) k l (omega arith) (omega arith) in
    omega (arith, smaller)

pub zero-bit_or : (b : ℕ) → bit_or 0 b ≡ b
zero-bit_or b = bit_or-bitwise 0 b

pub bit_or_step : (a b : ℕ) → bit_or a b ≡ bit_or (a / 2) (b / 2) * 2 + max (a % 2) (b % 2)
bit_or_step zero b = zero-bit_or b ∙ omega (arith, zero-bit_or (b / 2))
bit_or_step (suc n) b =
    let half = suc n / 2 in
    let whole = bit_or-bitwise (suc n) b in
    let part = bit_or-bitwise half (b / 2) in
    omega (arith, whole, part, settled half (b / 2) n half (omega arith) (omega arith))

-- `|` of two numbers that share no bit is their sum.
pub bit_or_disjoint : (s a x : ℕ) → a < 2 ^ s → bit_or a (x * 2 ^ s) ≡ a + x * 2 ^ s
bit_or_disjoint zero a x h = omega (arith, zero-bit_or x, ap₂ bit_or zero_a one_x)
  where
    zero_a : a ≡ 0
    zero_a = omega arith

    one_x : x * 2 ^ 0 ≡ x
    one_x = omega arith
bit_or_disjoint (suc s) a x h = omega (
  arith,
  bit_or_step a (x * 2 ^ suc s),
  ap (bit_or (a / 2)) half,
  twice,
  bit_or_disjoint s (a / 2) x (omega (arith, pow-suc 2 s)),
)
  where
    twice : x * 2 ^ suc s ≡ x * 2 ^ s * 2
    twice = rw pow-suc (omega arith)

    half : x * 2 ^ suc s / 2 ≡ x * 2 ^ s
    half = omega (arith, twice)

bit_or-zero_fuel : (n v : ℕ) → v ≤ n → bit_or v 0 ≡ v
bit_or-zero_fuel n zero h = zero-bit_or 0
bit_or-zero_fuel zero (suc v) h = absurd (omega arith)
bit_or-zero_fuel (suc n) (suc v) h =
    omega (arith, bit_or_step (suc v) 0, bit_or-zero_fuel n (suc v / 2) (omega arith))

pub bit_or-zero : (v : ℕ) → bit_or v 0 ≡ v
bit_or-zero v = bit_or-zero_fuel v v (omega arith)

bit_or_eight : (v : ℕ) → bit_or v 8 ≡ v / 16 * 16 + v % 8 + 8
bit_or_eight v = omega (
  arith,
  bit_or_step v 8,
  bit_or_step (v / 2) 4,
  bit_or_step (v / 2 / 2) 2,
  bit_or_step (v / 2 / 2 / 2) 1,
  bit_or-zero (v / 2 / 2 / 2 / 2),
)

-- The byte that a write of `v | 128` stores.
pub bit_or_128-mod : (v : ℕ) → bit_or v 128 % 256 ≡ v % 128 + 128
bit_or_128-mod v = omega (
  arith,
  bit_or_step v 128,
  bit_or_step (v / 2) 64,
  bit_or_step (v / 2 / 2) 32,
  bit_or_step (v / 2 / 2 / 2) 16,
  bit_or_eight (v / 2 / 2 / 2 / 2),
)

-- `|` stays within a width.
pub bit_or_lt : (w a b : ℕ) → a < 2 ^ w → b < 2 ^ w → bit_or a b < 2 ^ w
bit_or_lt zero a b ha hb = omega (arith, ap₂ bit_or zero_a zero_b, zero-bit_or 0)
  where
    zero_a : a ≡ 0
    zero_a = omega arith

    zero_b : b ≡ 0
    zero_b = omega arith
bit_or_lt (suc w) a b ha hb = omega (
  arith,
  bit_or_step a b,
  pow-suc 2 w,
  bit_or_lt w (a / 2) (b / 2) (omega (arith, pow-suc 2 w)) (omega (arith, pow-suc 2 w)),
)

-- `|` is not below either side.
bit_or_bounds : (bound a b : ℕ) → a ≤ bound → (a ≤ bit_or a b) × (b ≤ bit_or a b)
bit_or_bounds bound zero b h = omega (arith, zero-bit_or b)
bit_or_bounds zero (suc n) b h = absurd (omega arith)
bit_or_bounds (suc bound) (suc n) b h =
    omega (arith, bit_or_step (suc n) b, bit_or_bounds bound (suc n / 2) (b / 2) (omega arith))

pub le-bit_or : (a b : ℕ) → (a ≤ bit_or a b) × (b ≤ bit_or a b)
le-bit_or a b = bit_or_bounds a a b (omega arith)
