-- ===== src/Bitmap/Range.antt =====
-- `hasBitSet` and `clearBits` of include/bitmap.hh, on ranges of items.
use double_take.Prelude.{
  ℕ, zero, suc, ◌+◌, ◌-◌, ◌*◌, ◌/◌, ◌%◌, ◌^◌, ◌≤◌, ◌<◌, ◌≡◌, ◌≢◌, refl, Bool, true, false, List,
  bit, bit-le-one, bit-zero, get_or, set, length, arith, ok, fault, timeout, ◌==◌, if◌then◌else◌,
  inl, inr, Bool-cases, eq→==, ne→==, ltb, leb, ffsl, ◌&&◌, get_elem?-eq-get_or, get_elem?-eq-none,
  get_or-set_self, get_or-set_ne, length-set,
}
use native.Mathlib.Decide.{ℕ_discrete, dec_lt}
use double_take.Bitmap.{
  Bitmap, has_set_bit, get_lsb_index, any_between, any_word, has_bit_set_across, has_bit_set,
  zero_words, clear_bits,
}
use double_take.Bitmap.Inv.{member, IsValid, read_word-ok}
use double_take.Bitmap.Last.{has_set_bit_lem, get_lsb_index-IsFirst, member-word}

-- `r` says whether `f` marks a number from `lo` on and below `hi` with 1.
abbrev pub Finds : (ℕ → ℕ) → ℕ → ℕ → Bool → Type 0
Finds f lo hi true = (j : ℕ) × (lo ≤ j) × (j < hi) × (f j ≡ 1)
Finds f lo hi false = (j : ℕ) → lo ≤ j → j < hi → f j ≡ 0

any_between-Finds : (n i w : ℕ) → Finds (λ j. bit j w) i (i + n) (any_between n i w)
unfolding any_between
any_between-Finds zero i w = λ j lo hi. absurd (omega arith)
any_between-Finds (suc n) i w = elim (Bool-cases (has_set_bit w i)) [
  | inl hit ↦ rw hit (i, omega arith, omega arith, ground (arith, hit, has_set_bit_lem w i))
  | inr miss ↦
      let clear : bit i w ≡ 0 = ground (arith, miss, has_set_bit_lem w i, bit-le-one i w) in
      rw miss (widen (any_between n (suc i) w) clear (any_between-Finds n (suc i) w))
]
  where
    widen :
        (r : Bool)
        → bit i w ≡ 0
        → Finds (λ j. bit j w) (suc i) (suc i + n) r
        → Finds (λ j. bit j w) i (i + suc n) r
    widen true clear (j, lo, hi, e) = (j, omega arith, omega arith, e)
    widen false clear h = λ j lo hi. elim (ℕ_discrete j i) [
      | yes same ↦ rw same clear
      | no other ↦ h j (omega arith) (omega arith)
    ]

module _ (b : Bitmap) (v : IsValid b) (fuel item n : ℕ) where
  items_of_word :
      (r : Bool) (k : ℕ)
      → k ≡ item / 64
      → item / 64 ≡ (item + n) / 64
      → Finds (λ j. bit j (get_or b.start k 0)) (item % 64) ((item + n) % 64) r
      → Finds (member b) item (item + n) r
  items_of_word true k e same (j, lo, hi, hit) = (
    64 * k + j,
    omega arith,
    omega arith,
    let back : 64 * k + j - 64 * k ≡ j = omega arith in
        rw (member-word b k (64 * k + j) (omega arith) (omega arith), back) hit,
  )
  items_of_word false k e same clear = λ j lo hi.
      rw (member-word b k j (omega arith) (omega arith))
        (clear (j - 64 * k) (omega arith) (omega arith))

  -- In a valid bitmap that backs the range: where the range ends in the word in which it
  -- begins, `hasBitSet` returns, and says whether an item of the range is in the set.
  pub has_bit_set-Finds :
      item + n < 64 * length b.start
      → item / 64 ≡ (item + n) / 64
      → (r : Bool) × (has_bit_set fuel b item n ≡ ok r) × Finds (member b) item (item + n) r
  unfolding has_bit_set
  has_bit_set-Finds h same =
      let no_wrap : (item + n) % 2 ^ 64 ≡ item + n = omega (arith, v.short) in
      let rounds : item % 64 + ((item + n) % 64 - item % 64) ≡ (item + n) % 64 = omega arith in
      let count : ℕ = (item + n) % 64 - item % 64 in
      let first : ℕ = get_or b.start (item / 64) 0 in
      (
        any_between count (item % 64) first,
        rw (read_word-ok b (item / 64) v (omega arith), no_wrap, eq→== _ _ same),
        items_of_word _ (item / 64) refl same
            (rw rounds at (any_between-Finds count (item % 64) first)),
      )

  -- In a valid bitmap that backs the range: where the range goes on into another word and the
  -- first word is 0, `hasBitSet` returns true, whatever the other words hold.
  pub has_bit_set_empty_word :
      item + n < 64 * length b.start
      → item / 64 ≢ (item + n) / 64
      → get_or b.start (item / 64) 0 ≡ 0
      → has_bit_set fuel b item n ≡ ok true
  unfolding has_bit_set get_lsb_index has_bit_set_across ffsl
  has_bit_set_empty_word h other e =
      let no_wrap : (item + n) % 2 ^ 64 ≡ item + n = omega (arith, v.short) in
      let all_ones : leb (item % 64) ((2 ^ 64 + ffsl 0 - 1) % 2 ^ 64) ≡ true = ground arith in
      rw (read_word-ok b (item / 64) v (omega arith), no_wrap, ne→== _ _ other, e, all_ones) refl

  any_word_stuck :
      (k i last : ℕ)
      → i < last
      → i < length b.start
      → get_or b.start i 0 ≡ 0
      → any_word k b i last ≡ timeout
  unfolding any_word
  any_word_stuck zero i last lt h e = refl
  any_word_stuck (suc k) i last lt h e =
      ground (arith, any_word_stuck k i last lt h e, read_word-ok b i v h)

  lsb_low :
      (i : ℕ)
      → i < item % 64
      → bit i (get_or b.start (item / 64) 0) ≡ 1
      → leb (item % 64) (get_lsb_index (get_or b.start (item / 64) 0)) ≡ false
  lsb_low i lt hit =
      let w : ℕ = get_or b.start (item / 64) 0 in
      let ne : w ≢ 0 = λ e. absurd (one_ne (rw e at hit)) in
      let (j, first, e) = get_lsb_index-IsFirst w ne (v.fits (item / 64)) in
      rw e (ground (arith, first.before i, hit, lt))
    where
      one_ne : bit i 0 ≡ 1 → ⊥
      one_ne e = omega (arith, bit-zero i, e)

  -- In a valid bitmap that backs the range: where the first word has a bit set below the
  -- range's first, the range covers the whole next word, and that word is 0, `hasBitSet` does
  -- not return, however long it runs.
  pub has_bit_set_stuck :
      item + n < 64 * length b.start
      → item / 64 + 1 < (item + n) / 64
      → (i : ℕ) → i < item % 64
      → bit i (get_or b.start (item / 64) 0) ≡ 1
      → get_or b.start (item / 64 + 1) 0 ≡ 0
      → has_bit_set fuel b item n ≡ timeout
  unfolding has_bit_set has_bit_set_across
  has_bit_set_stuck h far i lt hit e =
      let no_wrap : (item + n) % 2 ^ 64 ≡ item + n = omega (arith, v.short) in
      let other : (item / 64 == (item + n) / 64) ≡ false = ground arith in
      rw
        (
          read_word-ok b (item / 64) v (omega arith),
          no_wrap,
          other,
          lsb_low i lt hit,
          any_word_stuck fuel (item / 64 + 1) _ far (omega arith) e,
        )
        refl

zero_words-ok :
    (n : ℕ) (xs : List ℕ) (i : ℕ)
    → i + n ≤ length xs
    → (ys : List ℕ) × (zero_words n xs i ≡ ok ys)
      × (length ys ≡ length xs)
      × ((j : ℕ) → get_or ys j 0 ≡ (if leb i j && ltb j (i + n) then 0 else get_or xs j 0))
unfolding zero_words
zero_words-ok zero xs i h = (xs, refl, refl, λ j. ground arith)
zero_words-ok (suc n) xs i h =
    let (ys, e, len, at) =
      zero_words-ok n (set xs i 0) (i + 1) (omega (arith, length-set xs i 0)) in
    (
      ys,
      rw (get_elem?-eq-get_or xs i 0 (omega arith), zero_words) e,
      omega (arith, len, length-set xs i 0),
      λ j. elim (ℕ_discrete i j) [
        | yes same ↦ ground (arith, at j, same, get_or-set_self xs i 0 0 (omega arith))
        | no other ↦ ground (arith, at j, get_or-set_ne xs 0 0 other)
      ],
    )

zero_words-fault :
    (n : ℕ) (xs : List ℕ) (i : ℕ) → length xs < i + n → i ≤ length xs → zero_words n xs i ≡ fault
unfolding zero_words
zero_words-fault zero xs i h k = absurd (omega arith)
zero_words-fault (suc n) xs i h k = elim (dec_lt i (length xs)) [
  | yes inside ↦
      rw (get_elem?-eq-get_or xs i 0 inside, zero_words)
        (zero_words-fault n (set xs i 0) (i + 1) (omega (arith, length-set xs i 0))
          (omega (arith, length-set xs i 0)))
  | no past ↦ rw (get_elem?-eq-none xs i (omega arith), zero_words)
]

module _ (b : Bitmap) (v : IsValid b) (item n : ℕ) (first : item % 64 ≡ 0) (whole : n % 64 ≡ 0)
    (short : n < 2 ^ 31) where
  no_wrap : item + n ≤ 64 * length b.start → (item + n) % 2 ^ 64 ≡ item + n
  no_wrap h = omega (arith, v.short)

  aligned : (item + n) % 64 ≡ 0
  aligned = omega arith

  in_words : item / 64 ≤ length b.start → leb (item / 64) b.words ≡ true
  in_words h = ground (arith, v.counted)

  size : ((item + n) / 64 + 2 ^ 64 - item / 64) * 64 % 2 ^ 32 ≡ n
  size = omega (arith, first, whole, short)

  positive : leb (2 ^ 31) n ≡ false
  positive = ground (arith, short)

  in_bytes : n / 8 ≡ 8 * (n / 64)
  in_bytes = omega (arith, whole)

  -- `clearBits` of whole words of a valid bitmap, fewer than 2 ^ 31 items, takes out the items of the range and the 7
  -- times as many that follow it, where the bitmap has them all, and no others.
  pub clear_bits-member :
      item + 8 * n ≤ 64 * length b.start
      → (b' : Bitmap) × (clear_bits b item n ≡ ok b')
        × IsValid b'
        × ((j : ℕ) → member b' j ≡ (if leb item j && ltb j (item + 8 * n) then 0 else member b j))
  unfolding clear_bits
  clear_bits-member h =
      let (ys, e, len, at) = zero_words-ok (8 * (n / 64)) b.start (item / 64) (omega arith) in
      (
        record b { start = ys },
        rw (
          no_wrap (omega arith),
          eq→== _ _ first,
          eq→== _ _ aligned,
          in_words (omega arith),
          size,
          positive,
          in_bytes,
          e,
        ),
        record {
          backed = omega (arith, v.backed, len);
          counted = omega (arith, v.counted, len);
          short = omega (arith, v.short, len);
          fits = λ i. ground (arith, at i, v.fits i);
        },
        λ j. ground (arith, at (j / 64), bit-zero (j % 64)),
      )

  -- `clearBits` of whole words that a valid bitmap has, fewer than 2 ^ 31 items, writes outside the bitmap, where it
  -- does not have the 7 times as many items that follow them.
  pub clear_bits-fault :
      item + n ≤ 64 * length b.start
      → 64 * length b.start < item + 8 * n
      → clear_bits b item n ≡ fault
  unfolding clear_bits
  clear_bits-fault h past =
      rw
        (
          no_wrap (omega arith),
          eq→== _ _ first,
          eq→== _ _ aligned,
          in_words (omega arith),
          size,
          positive,
          in_bytes,
        )
        (rw (zero_words-fault (8 * (n / 64)) b.start (item / 64) (omega arith) (omega arith)))
