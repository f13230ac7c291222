-- ===== src/SentinelMap/Setup.antt =====
-- A sentinel map that is set up, and what marking and clearing do to it: include/sentinelmap.hh.
use double_take.Prelude.{
  ℕ, zero, suc, ◌+◌, ◌-◌, ◌*◌, ◌/◌, ◌%◌, ◌^◌, ◌≤◌, ◌<◌, ◌≡◌, refl, replicate, length,
  length-replicate, get_or, ok, arith, bit-zero, ap, lt→ltb, eq→==, two_pow-lt,
}
use native.Mathlib.Decide.{dec_lt}
use double_take.Bitmap
use double_take.Bitmap.Inv.{member, IsValid}
use double_take.SentinelMap.{
  SentinelMap, calc_shift_from, calc_shift_bits, get_bytes, initialize, get_index,
}

-- The map covers 8 bytes for each element from `heap_start` on, without wrapping.
pub record IsReady (s : SentinelMap) : Type 0 where
  pub bits : IsValid s.bitmap
  pub shift : s.word_shift_bits ≡ 3
  pub no_wrap : s.heap_start + 8 * s.bitmap.elements < 2 ^ 64
  pub whole : s.bitmap.elements ≡ 64 * length s.bitmap.start

abbrev pub InHeap : SentinelMap → ℕ → Type 0
InHeap s addr = (s.heap_start ≤ addr) × (addr < s.heap_start + 8 * s.bitmap.elements)

-- 1 if the word of the address is marked.
abbrev pub marked : SentinelMap → ℕ → ℕ
marked s addr = member s.bitmap (get_index s addr)

pub index_of :
    (s : SentinelMap) (addr : ℕ)
    → IsReady s
    → InHeap s addr
    → get_index s addr ≡ (addr - s.heap_start) / 8
index_of s addr r h =
    let e : 2 ^ s.word_shift_bits ≡ 8 = ap (λ (k : ℕ). 2 ^ k) r.shift in
    rw e (omega (arith, r.no_wrap))

calc_shift_from-pow : (fuel i k : ℕ) → i ≤ k → k < i + fuel → calc_shift_from fuel i (2 ^ k) ≡ ok k
unfolding calc_shift_from
calc_shift_from-pow zero i k le lt = absurd (omega arith)
calc_shift_from-pow (suc fuel) i k le lt = elim (dec_lt i k) [
  | yes below ↦
      rw (lt→ltb _ _ (two_pow-lt i k below))
        (calc_shift_from-pow fuel (i + 1) k (omega arith) (omega arith))
  | no here ↦ let e : i ≡ k = omega arith in rw e (ground arith)
]

-- `calcShiftBits` of a power of two is its exponent.
pub calc_shift_bits-pow : (k : ℕ) → k < 64 → calc_shift_bits (2 ^ k) ≡ ok k
unfolding calc_shift_bits
calc_shift_bits-pow k h = calc_shift_from-pow 64 0 k (omega arith) (omega arith)

get_or-zeros : (n i : ℕ) → get_or {A = ℕ} (replicate n 0) i 0 ≡ 0
get_or-zeros zero i = refl
get_or-zeros (suc n) zero = refl
get_or-zeros (suc n) (suc i) = get_or-zeros n i

pub get_bytes-small : (e : ℕ) → e < 2 ^ 31 → get_bytes e ≡ e / 8
unfolding get_bytes
get_bytes-small e h = let same : e % 2 ^ 32 ≡ e = omega arith in rw (same, lt→ltb _ _ h)

module _ (addr size : ℕ) (aligned : size % 4096 ≡ 0) (small : size < 2 ^ 34)
    (low : addr + size < 2 ^ 64) where
  abbrev fresh : SentinelMap
  fresh = record {
    bitmap = Bitmap.initialize (replicate (size / 8 / 8 / 8) 0) (size / 8) (size / 8 / 8);
    word_shift_bits = 3;
    item_shift_bits = 6;
    elements = size / 8;
    total_bytes = size / 8 / 8;
    heap_start = addr;
    last_sentinel_addr = 0;
  }

  initialize-fresh : initialize addr size ≡ ok fresh
  unfolding initialize
  initialize-fresh = rw (eq→== _ _ aligned, get_bytes-small (size / 8) (omega arith))

  -- `initialize` of a heap of whole pages below 16 GB, which ends below 2 ^ 64, sets the map
  -- up over that heap, with no word marked.
  pub initialize-IsReady :
      (s : SentinelMap) × (initialize addr size ≡ ok s)
      × IsReady s
      × (s.heap_start ≡ addr)
      × (8 * s.bitmap.elements ≡ size)
      × ((a : ℕ) → marked s a ≡ 0)
  unfolding Bitmap.initialize
  initialize-IsReady = (
    fresh,
    initialize-fresh,
    record {
      bits = record {
        backed = omega (arith, length-replicate (size / 8 / 8 / 8) (zero));
        counted = omega (arith, length-replicate (size / 8 / 8 / 8) (zero));
        short = omega (arith, length-replicate (size / 8 / 8 / 8) (zero));
        fits = λ i. rw (get_or-zeros (size / 8 / 8 / 8) i) (omega arith);
      };
      shift = refl;
      no_wrap = omega arith;
      whole = omega (arith, length-replicate (size / 8 / 8 / 8) (zero));
    },
    refl,
    omega arith,
    λ a.
        rw (get_or-zeros (size / 8 / 8 / 8) (get_index fresh a / 64))
          (bit-zero (get_index fresh a % 64)),
  )
