-- ===== src/Prelude/Builtins.antt =====
-- The compiler's `__builtin_clzl` and `__builtin_ffsl`, by search over the 64 bits of a word.
use Prim.Native.Nat.{ℕ, zero, suc, ◌+◌, ◌^◌, ◌<◌}
use mathlib.Core.Path.{◌≡◌}
use mathlib.Core.Logic.{◌⊎◌, inl, inr, ◌≢◌}
use native.Mathlib.Omega.{arith}
use double_take.Prelude.Tests.{◌==◌, if◌then◌else◌, Bool-cases, ==→eq}
use double_take.Prelude.Bits.{bit, bit-le-one, eq-zero_of_bits}

-- The zeros from bit `n - 1` down to the first one.
pub clz_below : ℕ → ℕ → ℕ
clz_below zero w = 0
clz_below (suc n) w = if bit n w == 1 then 0 else suc (clz_below n w)

-- One more than the first bit set among the `n` from bit `i` up, and 0 if none is.
pub ffs_from : ℕ → ℕ → ℕ → ℕ
ffs_from zero i w = 0
ffs_from (suc n) i w = if bit i w == 1 then suc i else ffs_from n (suc i) w

unfoldable pub clzl : ℕ → ℕ
unfolding clz_below bit
clzl w = clz_below 64 w

unfoldable pub ffsl : ℕ → ℕ
unfolding ffs_from bit
ffsl w = ffs_from 64 0 w

-- Bit `i` is the last one set below bit `n`.
pub record IsTop (n w i : ℕ) : Type 0 where
  pub below : i < n
  pub here : bit i w ≡ 1
  pub above : (j : ℕ) → i < j → j < n → bit j w ≡ 0

pub record IsFirst (w i : ℕ) : Type 0 where
  pub small : i < 64
  pub here : bit i w ≡ 1
  pub before : (j : ℕ) → j < i → bit j w ≡ 0

clz_below-IsTop :
    (n w : ℕ)
    → ((j : ℕ) → j < n → bit j w ≡ 0) ⊎ ((i : ℕ) × IsTop n w i × (clz_below n w + suc i ≡ n))
unfolding clz_below
clz_below-IsTop zero w = inl (λ j h. absurd (omega arith))
clz_below-IsTop (suc n) w = elim (Bool-cases (bit n w == 1)) [
  | inl hit ↦ inr (
    n,
    record { below = omega arith; here = ==→eq _ _ hit; above = λ j a b. absurd (omega arith) },
    rw hit (omega arith),
  )
  | inr miss ↦ elim (clz_below-IsTop n w) [
    | inl clear ↦ inl λ j h. ground (arith, clear j, bit-le-one n w)
    | inr (i, t, e) ↦ inr (
      i,
      record {
        below = omega (arith, t.below);
        here = t.here;
        above = λ j a b. ground (arith, t.above j, bit-le-one n w);
      },
      rw miss (omega (arith, e)),
    )
  ]
]

ffs_from-IsFirst :
    (n i w : ℕ)
    → n + i ≡ 64
    → ((j : ℕ) → j < i → bit j w ≡ 0)
    → ((j : ℕ) → j < 64 → bit j w ≡ 0) ⊎ ((k : ℕ) × IsFirst w k × (ffs_from n i w ≡ suc k))
unfolding ffs_from
ffs_from-IsFirst zero i w e clear = inl λ j h. clear j (omega arith)
ffs_from-IsFirst (suc n) i w e clear = elim (Bool-cases (bit i w == 1)) [
  | inl hit ↦ inr (i, record { small = omega arith; here = ==→eq _ _ hit; before = clear }, rw hit)
  | inr miss ↦
      rw miss (
        ffs_from-IsFirst n (suc i) w (omega arith) (λ j h. ground (arith, clear j, bit-le-one i w)))
]

module _ (w : ℕ) (ne : w ≢ 0) (fits : w < 2 ^ 64) where
  -- The leading zeros of a word that is not 0 stand above its last bit set.
  pub clzl-IsTop : (i : ℕ) × IsTop 64 w i × (clzl w + suc i ≡ 64)
  unfolding clzl
  clzl-IsTop = elim (clz_below-IsTop 64 w) [
    | inl clear ↦ absurd (ne (eq-zero_of_bits 64 w fits clear))
    | inr t ↦ t
  ]

  -- `ffsl` counts from 1 to the first bit set.
  pub ffsl-IsFirst : (i : ℕ) × IsFirst w i × (ffsl w ≡ suc i)
  unfolding ffsl
  ffsl-IsFirst = elim (ffs_from-IsFirst 64 0 w (omega arith) (λ j h. absurd (omega arith))) [
    | inl clear ↦ absurd (ne (eq-zero_of_bits 64 w fits clear))
    | inr t ↦ t
  ]
