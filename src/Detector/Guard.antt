-- ===== src/Detector/Guard.antt =====
-- The guard behind an object, by its bytes: include/xmemory.hh and include/sentinelmap.hh.
use double_take.Prelude.{
  ℕ, zero, suc, ◌+◌, ◌-◌, ◌/◌, ◌%◌, ◌≤◌, ◌<◌, ◌≡◌, refl, ◌⊎◌, arith, ◌==◌, if◌then◌else◌,
  bit_and_halves, bit_and-zero,
}
use native.Mathlib.Decide.{ℕ_discrete}
use double_take.Defines.{sentinel_word, magic_byte_not_aligned}
use double_take.Memory.{Memory, load_byte, put_byte, load_word}
use double_take.Detector.{spare, non_aligned_bytes, fill_magic, put_magic}

pub non_aligned_bytes-mod : (sz : ℕ) → non_aligned_bytes sz ≡ sz % 8
unfolding non_aligned_bytes
non_aligned_bytes-mod sz = omega (
  arith,
  bit_and_halves sz 7,
  bit_and_halves (sz / 2) 3,
  bit_and_halves (sz / 2 / 2) 1,
  bit_and-zero (sz / 2 / 2 / 2) (sz / 2 / 2 / 2) (omega arith),
)

-- The first of the `n` bytes at `p` says how many are behind it, which have the magic value; a
-- single byte has that value itself.
pub record Magic (mem : Memory) (p n : ℕ) : Type 0 where
  pub first : load_byte mem p ≡ (if n == 1 then magic_byte_not_aligned else n - 1)
  pub others : (i : ℕ) → 0 < i → i < n → load_byte mem (p + i) ≡ magic_byte_not_aligned

-- The word at which the guard of an object of `sz` bytes begins, and its next word.
abbrev pub guard_word : ℕ → ℕ → ℕ
guard_word ptr sz = ptr + sz - sz % 8

-- The guard of the object is as it was put: the sentinel behind the last word, or the magic
-- bytes in it and, in a block with more than a word to spare, the sentinel behind them.
pub record Guarded (mem : Memory) (ptr block_size sz : ℕ) : Type 0 where
  pub aligned : sz % 8 ≡ 0 → load_word mem (ptr + sz) ≡ sentinel_word
  pub filled : 0 < sz % 8 → Magic mem (ptr + sz) (8 - sz % 8)
  pub next :
      0 < sz % 8 → 8 < spare block_size sz → load_word mem (guard_word ptr sz + 8) ≡ sentinel_word

fill_magic-apart :
    (rounds : ℕ) (mem : Memory) (addr b : ℕ)
    → (b < addr) ⊎ (addr + rounds ≤ b)
    → fill_magic rounds mem addr b ≡ mem b
unfolding fill_magic
fill_magic-apart zero mem addr b out = refl
fill_magic-apart (suc rounds) mem addr b out =
    ground (arith, fill_magic-apart rounds (put_byte mem addr magic_byte_not_aligned) (addr + 1) b)

fill_magic-at :
    (rounds : ℕ) (mem : Memory) (addr b : ℕ)
    → addr ≤ b
    → b < addr + rounds
    → fill_magic rounds mem addr b ≡ magic_byte_not_aligned
unfolding fill_magic
fill_magic-at zero mem addr b lo hi = absurd (omega (arith, lo, hi))
fill_magic-at (suc rounds) mem addr b lo hi = elim (ℕ_discrete b addr) [
  | yes same ↦ ground (
    arith,
    same,
    fill_magic-apart rounds (put_byte mem addr magic_byte_not_aligned) (addr + 1) b (omega arith),
  )
  | no other ↦
      fill_magic-at rounds (put_byte mem addr magic_byte_not_aligned) (addr + 1) b (omega arith)
        (omega arith)
]

pub put_magic-Magic :
    (mem : Memory) (p n : ℕ)
    → 0 < n
    → n < 9
    → Magic (put_magic mem p n) p n
      × ((b : ℕ) → (b < p) ⊎ (p + n ≤ b) → put_magic mem p n b ≡ mem b)
unfolding put_magic
put_magic-Magic mem p n some_byte few = elim (ℕ_discrete n 1) [
  | yes single ↦ (
    record {
      first = ground (arith, single);
      others = λ i lo hi. absurd (omega (arith, single, lo, hi));
    },
    λ b out. ground (arith, single, out),
  )
  | no more ↦
      let mem1 : Memory = put_byte mem p (n - 1) in
      (
        record {
          first =
              ground (
                arith,
                more,
                some_byte,
                few,
                fill_magic-apart (n - 1) mem1 (p + 1) p (omega arith),
              );
          others = λ i lo hi. ground (
            arith,
            more,
            some_byte,
            fill_magic-at (n - 1) mem1 (p + 1) (p + i) (omega arith) (omega arith),
          );
        },
        λ b out.
            ground
              (arith, more, some_byte, out, fill_magic-apart (n - 1) mem1 (p + 1) b (omega arith)),
      )
]
