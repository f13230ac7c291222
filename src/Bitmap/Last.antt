-- ===== src/Bitmap/Last.antt =====
-- `getLastBit` of include/bitmap.hh: the last item in the set before a given one.
use double_take.Prelude.{
  ℕ, zero, suc, ◌+◌, ◌-◌, ◌*◌, ◌/◌, ◌%◌, ◌^◌, ◌≤◌, ◌<◌, ◌≡◌, ◌≢◌, refl, Option, some, none, true,
  false, bit, bit-le-one, bit-zero, bit_and-pow, get_or, length, arith, ok, ◌==◌, if◌then◌else◌,
  inl, inr, Bool-cases, ne→==, ltb, ltb→le, clzl-IsTop, ffsl-IsFirst, IsTop, IsFirst, ap,
}
use native.Mathlib.Decide.{ℕ_discrete, dec_lt}
use native.Mathlib.Nat.{one-le-pow}
use double_take.Bitmap.{
  Bitmap, has_set_bit, get_msb_index, get_lsb_index, get_item_index, scan_down, scan_words,
  last_in_word, last_or_before, get_last_bit,
}
use double_take.Bitmap.Inv.{member, IsValid, read_word-ok}

pub has_set_bit_lem : (w i : ℕ) → has_set_bit w i ≡ (if bit i w == 1 then true else false)
has_set_bit_lem w i = ground (arith, bit_and-pow i w, bit-le-one i w, one-le-pow i 2 (omega arith))

-- `r` is the last one below `n` of the numbers that `f` marks with 1.
abbrev pub IsLast : (ℕ → ℕ) → ℕ → Option ℕ → Type 0
IsLast f n none = (j : ℕ) → j < n → f j ≡ 0
IsLast f n (some i) = (i < n) × (f i ≡ 1) × ((j : ℕ) → i < j → j < n → f j ≡ 0)

module _ (w : ℕ) (ne : w ≢ 0) (fits : w < 2 ^ 64) where
  -- `getMsbIndex` is one less than the last bit set, so that its caller adds one.
  pub get_msb_index-IsTop : (i : ℕ) × IsTop 64 w i × ((get_msb_index w + 1) % 2 ^ 64 ≡ i)
  unfolding get_msb_index
  get_msb_index-IsTop = let (i, t, e) = clzl-IsTop w ne fits in (i, t, omega (arith, e, t.below))

  pub get_lsb_index-IsFirst : (i : ℕ) × IsFirst w i × (get_lsb_index w ≡ i)
  unfolding get_lsb_index
  get_lsb_index-IsFirst =
      let (i, t, e) = ffsl-IsFirst w ne fits in (i, t, omega (arith, e, t.small))

scan_down-IsLast :
    (n lsb w : ℕ)
    → ((j : ℕ) → j < lsb → bit j w ≡ 0)
    → bit lsb w ≡ 1
    → IsLast (λ j. bit j w) n (scan_down n lsb w)
unfolding scan_down
scan_down-IsLast zero lsb w low hit = λ j h. absurd (omega arith)
scan_down-IsLast (suc n) lsb w low hit = elim (Bool-cases (ltb lsb (suc n))) [
  | inr past ↦ rw past (λ j h. low j (omega (arith, ltb→le lsb (suc n) past)))
  | inl more ↦ elim (Bool-cases (has_set_bit w n)) [
    | inl set ↦
        rw (more, set)
          (omega arith, ground (arith, set, has_set_bit_lem w n), λ j a b. absurd (omega arith))
    | inr clear ↦
        rw (more, clear)
          (extend (scan_down n lsb w) (scan_down-IsLast n lsb w low hit)
            (ground (arith, clear, has_set_bit_lem w n, bit-le-one n w)))
  ]
]
  where
    extend :
        (r : Option ℕ) → IsLast (λ j. bit j w) n r → bit n w ≡ 0 → IsLast (λ j. bit j w) (suc n) r
    extend none h e = λ j lt. ground (arith, h j)
    extend (some i) (below, here, above) e =
        (omega arith, here, λ j a lt. ground (arith, above j a))

module _ (b : Bitmap) (k : ℕ) where
  pub member-word :
      (j : ℕ) → 64 * k ≤ j → j < 64 * k + 64 → member b j ≡ bit (j - 64 * k) (get_or b.start k 0)
  member-word j lo hi =
      let q : j / 64 ≡ k = omega arith in let r : j % 64 ≡ j - 64 * k = omega arith in rw (q, r)

  -- A word with nothing set below bit `n` adds nothing to what stands before it.
  clear_word-IsLast :
      (n : ℕ) (r : Option ℕ)
      → n ≤ 64
      → IsLast (λ j. bit j (get_or b.start k 0)) n none
      → IsLast (member b) (64 * k) r
      → IsLast (member b) (64 * k + n) r
  clear_word-IsLast n none h clear before = λ j lt. elim (dec_lt j (64 * k)) [
    | yes low ↦ before j low
    | no high ↦ rw (member-word j (omega arith) (omega arith)) (clear (j - 64 * k) (omega arith))
  ]
  clear_word-IsLast n (some i) h clear (below, here, above) = (omega arith, here, later)
    where
      later : (j : ℕ) → i < j → j < 64 * k + n → member b j ≡ 0
      later j a lt = elim (dec_lt j (64 * k)) [
        | yes low ↦ above j a low
        | no high ↦
            rw (member-word j (omega arith) (omega arith)) (clear (j - 64 * k) (omega arith))
      ]

  -- The last bit set of a word is the last item of all before the word's end.
  set_word-IsLast :
      (n i : ℕ)
      → n ≤ 64
      → IsLast (λ j. bit j (get_or b.start k 0)) n (some i)
      → IsLast (member b) (64 * k + n) (some (64 * k + i))
  set_word-IsLast n i h (below, here, above) = (
    omega arith,
    let e : 64 * k + i - 64 * k ≡ i = omega arith in
        rw (member-word (64 * k + i) (omega arith) (omega arith), e) here,
    λ j a lt.
        rw (member-word j (omega arith) (omega arith))
          (above (j - 64 * k) (omega arith) (omega arith)),
  )

module _ (b : Bitmap) (v : IsValid b) where
  item_index : (k i : ℕ) → k < length b.start → i < 64 → get_item_index k i ≡ 64 * k + i
  item_index k i h lt = omega (arith, v.short)

  scan_words-IsLast :
      (k : ℕ)
      → k ≤ length b.start
      → (r : Option ℕ) × (scan_words b k ≡ ok r) × IsLast (member b) (64 * k) r
  unfolding scan_words
  scan_words-IsLast zero h = (none, refl, λ j lt. absurd (omega arith))
  scan_words-IsLast (suc k) h = elim (ℕ_discrete (get_or b.start k 0) 0) [
    | yes empty ↦
        let (r, e, last) = scan_words-IsLast k (omega arith) in
        (
          r,
          rw (read_word-ok b k v (omega arith), empty) e,
          let next : 64 * suc k ≡ 64 * k + 64 = omega arith in
              rw next
                (clear_word-IsLast b k 64 r (omega arith) (λ j lt. rw empty (bit-zero j)) last),
        )
    | no full ↦
        let (i, t, e) = get_msb_index-IsTop (get_or b.start k 0) full (v.fits k) in
        (
          some (64 * k + i),
          rw (read_word-ok b k v (omega arith), ne→== _ _ full, e)
              (ap (λ (t : ℕ). ok (some t)) (item_index k i (omega arith) t.below)),
          let next : 64 * suc k ≡ 64 * k + 64 = omega arith in
              rw next (set_word-IsLast b k 64 i (omega arith) (t.below, t.here, t.above)),
        )
  ]

  last_in_word-IsLast :
      (k n : ℕ) → IsLast (λ j. bit j (get_or b.start k 0)) n (last_in_word (get_or b.start k 0) n)
  unfolding last_in_word
  last_in_word-IsLast k n = elim (ℕ_discrete (get_or b.start k 0) 0) [
    | yes empty ↦ rw empty (λ j lt. bit-zero j)
    | no full ↦
        let (i, t, e) = get_lsb_index-IsFirst (get_or b.start k 0) full (v.fits k) in
        rw (ne→== _ _ full, e) (scan_down-IsLast n i (get_or b.start k 0) t.before t.here)
  ]

  last_or_before-IsLast :
      (k n : ℕ) (r : Option ℕ)
      → k < length b.start
      → n < 64
      → IsLast (λ j. bit j (get_or b.start k 0)) n r
      → (r' : Option ℕ) × (last_or_before b k r ≡ ok r') × IsLast (member b) (64 * k + n) r'
  unfolding last_or_before
  last_or_before-IsLast k n none h lt last =
      let (r, e, before) = scan_words-IsLast k (omega arith) in
      (r, e, clear_word-IsLast b k n r (omega arith) last before)
  last_or_before-IsLast k n (some i) h lt last = (
    some (64 * k + i),
    ap (λ (t : ℕ). ok (some t)) (item_index k i h (omega (arith, last.0))),
    set_word-IsLast b k n i (omega arith) last,
  )

  -- `getLastBit` on a valid bitmap, for an item that a word backs, returns, with the last item
  -- of the set before that item, or that there is none.
  pub get_last_bit-IsLast :
      (item : ℕ)
      → item < 64 * length b.start
      → (r : Option ℕ) × (get_last_bit b item ≡ ok r) × IsLast (member b) item r
  unfolding get_last_bit
  get_last_bit-IsLast item h =
      let (r, e, last) =
        last_or_before-IsLast (item / 64) (item % 64) _ (omega arith) (omega arith)
          (last_in_word-IsLast (item / 64) (item % 64)) in
      let whole : 64 * (item / 64) + item % 64 ≡ item = omega arith in
      (r, rw (read_word-ok b (item / 64) v (omega arith)) e, rw whole at last)
