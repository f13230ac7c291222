-- ===== src/Prelude/Bits.antt =====
-- The bits of a native number, and what the bit operations do to each of them.
use Prim.Native.Nat.{
  ℕ, zero, suc, ◌+◌, ◌-◌, ◌*◌, ◌/◌, ◌%◌, ◌^◌, ◌≤◌, ◌<◌, min, max, bit_and, bit_or, digits, bitwise,
  bit_and-bitwise, bit_or-bitwise,
}
use mathlib.Core.Path.{◌≡◌, refl, ap, ◌∙◌}
use mathlib.Core.Logic.{◌≢◌}
use native.Mathlib.Nat.{le_refl, pow-suc, one-le-pow, pow-le-pow_right}
use native.Mathlib.Decide.{ℕ_discrete}
use native.Mathlib.Omega.{arith}
use double_take.Prelude.Tests.{◌==◌, if◌then◌else◌}

-- The native operations are made of rounds, one for each binary digit, and have more rounds than
-- digits: those that are left over change nothing.
module _ (end : ℕ → ℕ) (op : ℕ → ℕ → ℕ) where
  one_round_more :
      (rounds x y : ℕ) → x ≤ rounds → digits end op (suc rounds) x y ≡ digits end op rounds x y
  one_round_more zero zero y h = refl
  one_round_more zero (suc x) y h = absurd (omega (arith, h))
  one_round_more (suc rounds) zero y h = refl
  one_round_more (suc rounds) (suc x) y h =
      rw (one_round_more rounds (suc x / 2) (y / 2) (omega arith))

  rounds-bitwise : (rounds x y : ℕ) → x ≤ rounds → digits end op rounds x y ≡ bitwise end op x y
  rounds-bitwise zero zero y h = refl
  rounds-bitwise zero (suc x) y h = absurd (omega (arith, h))
  rounds-bitwise (suc rounds) x y h = elim (ℕ_discrete x (suc rounds)) [
    | yes all ↦ rw all
    | no fewer ↦ one_round_more rounds x y (omega arith) ∙ rounds-bitwise rounds x y (omega arith)
  ]

  first_digit :
      (x y : ℕ)
      → x ≢ 0
      → bitwise end op x y ≡ op (x % 2) (y % 2) + 2 * bitwise end op (x / 2) (y / 2)
  first_digit zero y ne = absurd (ne refl)
  first_digit (suc x) y ne = omega (arith, rounds-bitwise x (suc x / 2) (y / 2) (omega arith))

bit_or_zero : (y : ℕ) → bit_or 0 y ≡ y
bit_or_zero y = bit_or-bitwise 0 y

bit_and_zero : (y : ℕ) → bit_and 0 y ≡ 0
bit_and_zero y = bit_and-bitwise 0 y

pub bit_or_halves : (x y : ℕ) → bit_or x y ≡ max (x % 2) (y % 2) + 2 * bit_or (x / 2) (y / 2)
bit_or_halves x y = elim (ℕ_discrete x 0) [
  | yes none ↦ rw (none, bit_or_zero y, bit_or_zero (y / 2)) (omega arith)
  | no some_digit ↦
      rw (bit_or-bitwise x y, bit_or-bitwise (x / 2) (y / 2))
        (first_digit (λ y. y) max x y some_digit)
]

pub bit_and_halves : (x y : ℕ) → bit_and x y ≡ min (x % 2) (y % 2) + 2 * bit_and (x / 2) (y / 2)
bit_and_halves x y = elim (ℕ_discrete x 0) [
  | yes none ↦ rw (none, bit_and_zero y, bit_and_zero (y / 2)) (omega arith)
  | no some_digit ↦
      rw (bit_and-bitwise x y, bit_and-bitwise (x / 2) (y / 2))
        (first_digit (λ y. 0) min x y some_digit)
]

-- Bit `i` of `w`, 0 or 1.
unfoldable pub bit : ℕ → ℕ → ℕ
bit zero w = w % 2
bit (suc i) w = bit i (w / 2)

pub bit-le-one : (i w : ℕ) → bit i w ≤ 1
unfolding bit
bit-le-one zero w = omega arith
bit-le-one (suc i) w = bit-le-one i (w / 2)

pub bit-zero : (i : ℕ) → bit i 0 ≡ 0
unfolding bit
bit-zero zero = refl
bit-zero (suc i) = bit-zero i

pub bit-bit_or : (i a b : ℕ) → bit i (bit_or a b) ≡ max (bit i a) (bit i b)
unfolding bit
bit-bit_or zero a b = omega (arith, bit_or_halves a b)
bit-bit_or (suc i) a b =
    let half : bit_or a b / 2 ≡ bit_or (a / 2) (b / 2) = omega (arith, bit_or_halves a b) in
    rw half (bit-bit_or i (a / 2) (b / 2))

pub bit-bit_and : (i a b : ℕ) → bit i (bit_and a b) ≡ min (bit i a) (bit i b)
unfolding bit
bit-bit_and zero a b = omega (arith, bit_and_halves a b)
bit-bit_and (suc i) a b =
    let half : bit_and a b / 2 ≡ bit_and (a / 2) (b / 2) = omega (arith, bit_and_halves a b) in
    rw half (bit-bit_and i (a / 2) (b / 2))

pub bit-pow : (i j : ℕ) → bit i (2 ^ j) ≡ (if i == j then 1 else 0)
unfolding bit
bit-pow zero zero = refl
bit-pow zero (suc j) = ground (arith, pow-suc 2 j)
bit-pow (suc i) zero = ground (arith, bit-zero i)
bit-pow (suc i) (suc j) =
    let half : 2 ^ suc j / 2 ≡ 2 ^ j = omega (arith, pow-suc 2 j) in
    rw half (ground (arith, bit-pow i j))

-- The complement within `n` bits turns every bit round.
pub bit-complement : (n i x : ℕ) → i < n → x < 2 ^ n → bit i (2 ^ n - 1 - x) + bit i x ≡ 1
unfolding bit
bit-complement zero i x h b = absurd (omega arith)
bit-complement (suc n) zero x h b = omega (arith, pow-suc 2 n)
bit-complement (suc n) (suc i) x h b =
    let half : (2 ^ suc n - 1 - x) / 2 ≡ 2 ^ n - 1 - x / 2 = omega (arith, pow-suc 2 n) in
    rw half (bit-complement n i (x / 2) (omega arith) (omega (arith, pow-suc 2 n)))

pub bit_and-zero : (n a : ℕ) → a ≤ n → bit_and a 0 ≡ 0
bit_and-zero n zero h = refl
bit_and-zero zero (suc a) h = absurd (omega arith)
bit_and-zero (suc n) (suc a) h =
    omega (arith, bit_and_halves (suc a) 0, bit_and-zero n (suc a / 2) (omega arith))

-- Masking with one bit leaves that bit in its place.
pub bit_and-pow : (i w : ℕ) → bit_and w (2 ^ i) ≡ bit i w * 2 ^ i
unfolding bit
bit_and-pow zero w = omega (arith, bit_and_halves w 1, bit_and-zero (w / 2) (w / 2) (le_refl _))
bit_and-pow (suc i) w =
    let half : 2 ^ suc i / 2 ≡ 2 ^ i = omega (arith, pow-suc 2 i) in
    let low : 2 ^ suc i % 2 ≡ 0 = omega (arith, pow-suc 2 i) in
    let step : bit_and w (2 ^ suc i) ≡ bit_and (w / 2) (2 ^ i) * 2 = rw half at split low in
    omega (arith, step, bit_and-pow i (w / 2), pow-suc 2 i, scale)
  where
    split : 2 ^ suc i % 2 ≡ 0 → bit_and w (2 ^ suc i) ≡ bit_and (w / 2) (2 ^ suc i / 2) * 2
    split e = omega (arith, bit_and_halves w (2 ^ suc i), e)

    scale : bit i (w / 2) * 2 ^ suc i ≡ 2 * (bit i (w / 2) * 2 ^ i)
    scale = omega (arith, ap (λ (t : ℕ). bit i (w / 2) * t) (pow-suc 2 i))

pub bit_or-lt : (n a b : ℕ) → a < 2 ^ n → b < 2 ^ n → bit_or a b < 2 ^ n
bit_or-lt zero a b h k =
    let e : a ≡ 0 = omega arith in let e' : b ≡ 0 = omega arith in rw (e, e') (omega arith)
bit_or-lt (suc n) a b h k = omega (
  arith,
  bit_or_halves a b,
  pow-suc 2 n,
  bit_or-lt n (a / 2) (b / 2) (omega (arith, pow-suc 2 n)) (omega (arith, pow-suc 2 n)),
)

pub bit_and-lt : (n a b : ℕ) → a < 2 ^ n → bit_and a b < 2 ^ n
bit_and-lt zero a b h =
    let e : a ≡ 0 = omega arith in rw e (omega (arith, bit_and_halves 0 b, none_left))
  where
    none_left : bit_and 0 (b / 2) ≡ 0
    none_left = bit_and-bitwise 0 (b / 2)
bit_and-lt (suc n) a b h =
    omega
      (arith, bit_and_halves a b, pow-suc 2 n, bit_and-lt n (a / 2) b' (omega (arith, pow-suc 2 n)))
  where
    b' : ℕ
    b' = b / 2

-- A number below `2 ^ n` with no bit set is 0.
pub eq-zero_of_bits : (n w : ℕ) → w < 2 ^ n → ((i : ℕ) → i < n → bit i w ≡ 0) → w ≡ 0
unfolding bit
eq-zero_of_bits zero w h none_set = omega arith
eq-zero_of_bits (suc n) w h none_set = omega (
  arith,
  none_set 0 (omega arith),
  eq-zero_of_bits n (w / 2) (omega (arith, pow-suc 2 n)) (λ i lt. none_set (suc i) (omega arith)),
)

pub two_pow-lt : (i n : ℕ) → i < n → 2 ^ i < 2 ^ n
two_pow-lt i n h =
    omega
      (arith, pow-suc 2 i, one-le-pow i 2 (omega arith), pow-le-pow_right {n = 2} (omega arith) h)
