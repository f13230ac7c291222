-- ===== src/Bitmap/Single.antt =====
-- `setBit`, `checkSetBit`, `clearBit` and `isBitSet` of include/bitmap.hh on the set of items.
use double_take.Prelude.{
  ℕ, ◌-◌, ◌/◌, ◌%◌, ◌^◌, ◌<◌, bit_and, bit_or, ◌≡◌, refl, some, true, false, bit, bit-le-one,
  bit-bit_or, bit-bit_and, bit-pow, bit-complement, bit_and-pow, bit_or-lt, bit_and-lt, get_elem?,
  get_or, set, length, arith, get_elem?-eq-get_or, length-set, get_or-set_self, get_or-set_ne,
  get_or-set_cases, two_pow-lt, ok, ◌==◌, if◌then◌else◌,
}
use native.Mathlib.Decide.{ℕ_discrete}
use native.Mathlib.Nat.{one-le-pow}
use double_take.Bitmap.{Bitmap, on_mask, off_mask, set_bit, check_set_bit, clear_bit, is_bit_set}
use double_take.Bitmap.Inv.{member, IsValid, Puts}

-- `b` with word `i` changed to `w`.
abbrev put_word : Bitmap → ℕ → ℕ → Bitmap
put_word b i w = record b { start = set b.start i w }

module _ (b : Bitmap) (i w : ℕ) (v : IsValid b) (fits : w < 2 ^ 64) where
  put_word-IsValid : IsValid (put_word b i w)
  put_word-IsValid = record {
    backed = omega (arith, length-set b.start i w, v.backed);
    counted = omega (arith, length-set b.start i w, v.counted);
    short = omega (arith, length-set b.start i w, v.short);
    fits = λ j. ground (arith, get_or-set_cases b.start i j w 0, v.fits j, fits);
  }

-- A change of one bit of one word is a change of one item.
put_word-member :
    (b : Bitmap) (item w x : ℕ)
    → item / 64 < length b.start
    → ((k : ℕ)
        → k < 64
        → bit k w ≡ (if k == item % 64 then x else bit k (get_or b.start (item / 64) 0)))
    → (j : ℕ) → member (put_word b (item / 64) w) j ≡ (if j == item then x else member b j)
put_word-member b item w x inside bits j = elim (ℕ_discrete (item / 64) (j / 64)) [
  | yes same ↦ ground (arith, same, get_or-set_self b.start (item / 64) w 0 inside, bits (j % 64))
  | no other ↦ ground (arith, get_or-set_ne b.start w 0 other)
]

on_bits : (w i k : ℕ) → k < 64 → bit k (bit_or w (on_mask i)) ≡ (if k == i then 1 else bit k w)
on_bits w i k h = ground (arith, bit-bit_or k w (2 ^ i), bit-pow k i, bit-le-one k w)

off_bits :
    (w i k : ℕ) → i < 64 → k < 64 → bit k (bit_and w (off_mask i)) ≡ (if k == i then 0 else bit k w)
off_bits w i k hi hk = ground (
  arith,
  bit-bit_and k w (2 ^ 64 - 1 - 2 ^ i),
  bit-pow k i,
  bit-complement 64 k (2 ^ i) hk (two_pow-lt i 64 hi),
  bit-le-one k w,
)

module _ (b : Bitmap) (item : ℕ) (v : IsValid b) (h : item < b.elements) where
  word : ℕ
  word = get_or b.start (item / 64) 0

  word-read : get_elem? b.start (item / 64) ≡ some word
  unfolding word
  word-read = get_elem?-eq-get_or b.start (item / 64) 0 (omega (arith, v.backed))

  on-fits : bit_or word (on_mask (item % 64)) < 2 ^ 64
  unfolding word
  on-fits = bit_or-lt 64 _ _ (v.fits _) (two_pow-lt _ 64 (omega arith))

  off-fits : bit_and word (off_mask (item % 64)) < 2 ^ 64
  unfolding word
  off-fits = bit_and-lt 64 _ _ (v.fits _)

  mask-member :
      (bit_and word (on_mask (item % 64)) == 0) ≡ (if member b item == 0 then true else false)
  unfolding word
  mask-member = ground (
    arith,
    bit_and-pow (item % 64) (get_or b.start (item / 64) 0),
    bit-le-one (item % 64) (get_or b.start (item / 64) 0),
    one-le-pow (item % 64) 2 (omega arith),
  )

  puts :
      (w x : ℕ)
      → w < 2 ^ 64
      → ((k : ℕ) → k < 64 → bit k w ≡ (if k == item % 64 then x else bit k word))
      → Puts b (put_word b (item / 64) w) item x
  unfolding word
  puts w x fits bits = record {
    valid = put_word-IsValid b (item / 64) w v fits;
    same_elements = refl;
    same_length = length-set b.start (item / 64) w;
    items = put_word-member b item w x (omega (arith, v.backed)) bits;
  }

  -- `setBit` of an element of a valid bitmap returns a valid bitmap that holds the item, and
  -- otherwise the same items.
  pub set_bit-member : (b' : Bitmap) × (set_bit b item ≡ ok b') × Puts b b' item 1
  unfolding set_bit word
  set_bit-member = (
    put_word b (item / 64) (bit_or word (on_mask (item % 64))),
    ground (arith, v, word-read),
    puts _ 1 on-fits (on_bits word (item % 64)),
  )

  -- `checkSetBit` of an element of a valid bitmap puts it into the set and leaves the others
  -- and the bitmap's validity; it returns true exactly when the element was not there.
  pub check_set_bit-member :
      (b' : Bitmap) × (check_set_bit b item ≡ ok (if member b item == 0 then true else false, b'))
      × Puts b b' item 1
  unfolding check_set_bit word
  check_set_bit-member = (
    put_word b (item / 64) (bit_or word (on_mask (item % 64))),
    ground (arith, v, word-read, mask-member),
    puts _ 1 on-fits (on_bits word (item % 64)),
  )

  -- `clearBit` of an element of a valid bitmap takes it out of the set, and leaves the others
  -- and the bitmap's validity.
  pub clear_bit-member : (b' : Bitmap) × (clear_bit b item ≡ ok b') × Puts b b' item 0
  unfolding clear_bit word
  clear_bit-member = (
    put_word b (item / 64) (bit_and word (off_mask (item % 64))),
    ground (arith, v, word-read),
    puts _ 0 off-fits (λ k. off_bits word (item % 64) k (omega arith)),
  )

  -- `isBitSet` reads the item.
  pub is_bit_set-member : is_bit_set b item ≡ ok (if member b item == 1 then true else false)
  unfolding is_bit_set word
  is_bit_set-member = ground (arith, v, word-read, mask-member, bit-le-one (item % 64) word)
