-- ===== src/XMemory/Mask.antt =====
-- Rounding to a power of two by a mask: include/xmemory.hh.
use native.Mathlib.Nat.{le_refl, pow-suc, one-le-pow}
use double_take.Prelude.{
  ℕ, zero, suc, ◌+◌, ◌-◌, ◌*◌, ◌/◌, ◌%◌, ◌^◌, ◌≤◌, ◌<◌, ◌≡◌, ap, bit_and, arith,
}
use double_take.Defines.{align_mask}
use double_take.Prelude.Bits.{bit_and_halves, bit_and-zero}

-- All `n` bits set.
bit_and-ones : (n x : ℕ) → x < 2 ^ n → bit_and x (2 ^ n - 1) ≡ x
bit_and-ones zero x h = omega (arith, bit_and-zero x x (le_refl x))
bit_and-ones (suc n) x h =
    let some_power : 1 ≤ 2 ^ n = one-le-pow n 2 (omega arith) in
    let half : (2 ^ suc n - 1) / 2 ≡ 2 ^ n - 1 = omega (arith, pow-suc 2 n, some_power) in
    let low : (2 ^ suc n - 1) % 2 ≡ 1 = omega (arith, pow-suc 2 n, some_power) in
    omega (
      arith,
      rw half at (bit_and_halves x (2 ^ suc n - 1)),
      low,
      bit_and-ones n (x / 2) (omega (arith, pow-suc 2 n)),
    )

later : (k d : ℕ) → suc k + d ≡ suc (k + d)
later k d = omega arith

-- The bits from the `k`-th on.
pub bit_and-high :
    (k d q r : ℕ)
    → r < 2 ^ k
    → q < 2 ^ d
    → bit_and (q * 2 ^ k + r) (2 ^ (k + d) - 2 ^ k) ≡ q * 2 ^ k
bit_and-high zero d q r hr hq =
    let none_left : q * 2 ^ 0 + r ≡ q = omega arith in
    let same : 0 + d ≡ d = omega arith in rw (none_left, same) (omega (arith, bit_and-ones d q hq))
bit_and-high (suc k) d q r hr hq =
    let scale : q * 2 ^ suc k ≡ 2 * (q * 2 ^ k) =
      omega (arith, ap (λ (t : ℕ). q * t) (pow-suc 2 k)) in
    let more : 2 ^ (suc k + d) ≡ 2 * 2 ^ (k + d) =
      omega (arith, ap (λ (t : ℕ). 2 ^ t) (later k d), pow-suc 2 (k + d)) in
    let half : (q * 2 ^ suc k + r) / 2 ≡ q * 2 ^ k + r / 2 = omega (arith, scale) in
    let half_mask : (2 ^ (suc k + d) - 2 ^ suc k) / 2 ≡ 2 ^ (k + d) - 2 ^ k =
      omega (arith, more, pow-suc 2 k) in
    let low : (2 ^ (suc k + d) - 2 ^ suc k) % 2 ≡ 0 = omega (arith, more, pow-suc 2 k) in
    omega (
      arith,
      rw (half, half_mask) at (bit_and_halves (q * 2 ^ suc k + r) (2 ^ (suc k + d) - 2 ^ suc k)),
      low,
      scale,
      bit_and-high k d q (r / 2) (omega (arith, pow-suc 2 k)) hq,
    )

pub two_pow-add : (a b : ℕ) → 2 ^ (a + b) ≡ 2 ^ a * 2 ^ b
two_pow-add zero b = omega (arith, ap (λ (t : ℕ). 2 ^ t) (same b))
  where
    same : (b : ℕ) → 0 + b ≡ b
    same b = omega arith
two_pow-add (suc a) b = omega (
  arith,
  ap (λ (t : ℕ). 2 ^ t) (later a b),
  pow-suc 2 (a + b),
  two_pow-add a b,
  ap (λ (t : ℕ). t * 2 ^ b) (pow-suc 2 a),
)

-- `~(2 ^ k - 1)` leaves the multiple of `2 ^ k`.
pub bit_and-align_mask :
    (k d q r : ℕ)
    → k + d ≡ 64
    → r < 2 ^ k
    → q < 2 ^ d
    → bit_and (q * 2 ^ k + r) (align_mask (2 ^ k)) ≡ q * 2 ^ k
bit_and-align_mask k d q r wide hr hq =
    let some_power : 1 ≤ 2 ^ k = one-le-pow k 2 (omega arith) in
    let mask : align_mask (2 ^ k) ≡ 2 ^ (k + d) - 2 ^ k =
      omega (arith, some_power, ap (λ (t : ℕ). 2 ^ t) wide) in
    rw mask (bit_and-high k d q r hr hq)
