-- ===== src/Bitmap.antt =====
-- include/bitmap.hh: one bit for each word of the heap, in 64-bit words.
pub mod Inv
pub mod Single
pub mod Last
pub mod Range
use double_take.Prelude.{
  ℕ, zero, suc, ◌+◌, ◌-◌, ◌*◌, ◌/◌, ◌%◌, ◌^◌, bit_and, bit_or, Bool, true, false, not, ◌&&◌, Option,
  none, some, List, ltb, leb, ◌==◌, if◌then◌else◌, get_elem?, set, clzl, ffsl, Outcome, ok, aborted,
  fault, timeout, assert, ◌>>=◌, ◌>>◌,
}

abbrev pub word_bits : ℕ
word_bits = 64

-- `_start` as the words that it points to.
pub record Bitmap : Type 0 where
  pub start : List ℕ
  pub elements : ℕ
  pub words : ℕ

unfoldable pub initialize : List ℕ → ℕ → ℕ → Bitmap
initialize addr elements words = record { start = addr; elements = elements; words = words }

-- The entries of the two tables that `initialize` fills, for an index below 64.
abbrev pub on_mask : ℕ → ℕ
on_mask i = 2 ^ i

abbrev pub off_mask : ℕ → ℕ
off_mask i = 2 ^ 64 - 1 - on_mask i

-- The pointer `&_start[i]`, as its index.
abbrev pub get_word : Bitmap → ℕ → Outcome ℕ
get_word b i = assert (leb i b.words) >> ok i

abbrev load : Bitmap → ℕ → Outcome ℕ
load b i = elim (get_elem? b.start i) [ none ↦ fault | some w ↦ ok w ]

pub read_word : Bitmap → ℕ → Outcome ℕ
read_word b i = do p ← get_word b i; load b p

pub set_bit_at : Bitmap → ℕ → ℕ → Outcome Bitmap
set_bit_at b word_index bit_index = do
  p ← get_word b word_index
  w ← load b p
  ok (record b { start = set b.start p (bit_or w (on_mask bit_index)) })

pub set_bit : Bitmap → ℕ → Outcome Bitmap
unfolding set_bit_at
set_bit b item = assert (leb item b.elements) >> set_bit_at b (item / word_bits) (item % word_bits)

pub check_set_bit_at : Bitmap → ℕ → ℕ → Outcome (Bool × Bitmap)
check_set_bit_at b word_index bit_index = do
  p ← get_word b word_index
  w ← load b p
  let result = bit_and w (on_mask bit_index) == 0
  ok (result, record b { start = set b.start p (bit_or w (on_mask bit_index)) })

pub check_set_bit : Bitmap → ℕ → Outcome (Bool × Bitmap)
unfolding check_set_bit_at
check_set_bit b item =
    assert (leb item b.elements) >> check_set_bit_at b (item / word_bits) (item % word_bits)

pub clear_bit_at : Bitmap → ℕ → ℕ → Outcome Bitmap
clear_bit_at b word_index bit_index = do
  p ← get_word b word_index
  w ← load b p
  ok (record b { start = set b.start p (bit_and w (off_mask bit_index)) })

pub clear_bit : Bitmap → ℕ → Outcome Bitmap
unfolding clear_bit_at
clear_bit b item =
    assert (leb item b.elements) >> clear_bit_at b (item / word_bits) (item % word_bits)

pub is_bit_set_at : Bitmap → ℕ → ℕ → Outcome Bool
is_bit_set_at b word_index bit_index = do
  p ← get_word b word_index
  w ← load b p
  ok (not (bit_and w (on_mask bit_index) == 0))

pub is_bit_set : Bitmap → ℕ → Outcome Bool
unfolding is_bit_set_at
is_bit_set b item =
    assert (leb item b.elements) >> is_bit_set_at b (item / word_bits) (item % word_bits)

-- `hasSetBit` and `isBitSetOnWord`, which have one body.
abbrev pub has_set_bit : ℕ → ℕ → Bool
has_set_bit bitword index = not (bit_and bitword (on_mask index) == 0)

-- `unsigned long` arithmetic wraps.
pub get_msb_index : ℕ → ℕ
get_msb_index word = (2 ^ 64 + 62 - clzl word) % 2 ^ 64

pub get_lsb_index : ℕ → ℕ
get_lsb_index word = (2 ^ 64 + ffsl word - 1) % 2 ^ 64

abbrev pub get_item_index : ℕ → ℕ → ℕ
get_item_index word_index bit_index = (word_index * word_bits + bit_index) % 2 ^ 64

-- `while (bitIndex > lsbIndex) { bitIndex--; ... }`
pub scan_down : ℕ → ℕ → ℕ → Option ℕ
scan_down zero lsb bitword = none
scan_down (suc bit_index) lsb bitword =
    let rest = scan_down bit_index lsb bitword in
    if ltb lsb (suc bit_index)
    then (if has_set_bit bitword bit_index then some bit_index else rest)
    else none

-- `while (wordIndex > 0) { wordIndex--; ... }`
pub scan_words : Bitmap → ℕ → Outcome (Option ℕ)
scan_words b zero = ok none
scan_words b (suc word_index) =
    let rest = scan_words b word_index in
    do
      bitword ← read_word b word_index
      (if bitword == 0
          then rest
          else ok (some (get_item_index word_index ((get_msb_index bitword + 1) % 2 ^ 64))))

-- The search in the word that holds the item itself.
pub last_in_word : ℕ → ℕ → Option ℕ
last_in_word bitword bit_index =
    if bitword == 0 then none else scan_down bit_index (get_lsb_index bitword) bitword

-- If that finds nothing, the search in the words before.
pub last_or_before : Bitmap → ℕ → Option ℕ → Outcome (Option ℕ)
last_or_before b word_index (some bit_index) = ok (some (get_item_index word_index bit_index))
last_or_before b word_index none = scan_words b word_index

-- `*lastBitIndex`, or `none` where the function returns false.
pub get_last_bit : Bitmap → ℕ → Outcome (Option ℕ)
unfolding last_in_word last_or_before
get_last_bit b item = do
  bitword ← read_word b (item / word_bits)
  last_or_before b (item / word_bits) (last_in_word bitword (item % word_bits))

-- `while (bitIndex < lastBitIndex) { ...; bitIndex++; }`, with the rounds left.
pub any_between : ℕ → ℕ → ℕ → Bool
any_between zero bit_index bitword = false
any_between (suc rounds) bit_index bitword =
    let rest = any_between rounds (suc bit_index) bitword in
    if has_set_bit bitword bit_index then true else rest

-- `while (i < lastWordIndex) { ... }`, whose body leaves `i` alone.
pub any_word : ℕ → Bitmap → ℕ → ℕ → Outcome Bool
any_word zero b i last_word = timeout
any_word (suc fuel) b i last_word =
    let again = any_word fuel b i last_word in
    if ltb i last_word
    then (do bitword ← read_word b i; if not (bitword == 0) then ok true else again)
    else ok false

pub has_bit_set_across : ℕ → Bitmap → ℕ → ℕ → ℕ → ℕ → ℕ → Outcome Bool
has_bit_set_across fuel b bitword first_word first_bit last_word last_bit =
    if leb first_bit (get_lsb_index bitword) then ok true else (do
      inside ← any_word fuel b (first_word + 1) last_word
      if inside then ok true else (do
        last ← read_word b last_word
        ok (not (last == 0) && leb (get_msb_index last) last_bit)))

pub has_bit_set : ℕ → Bitmap → ℕ → ℕ → Outcome Bool
unfolding has_bit_set_across
has_bit_set fuel b item totalbits = do
  let end = (item + totalbits) % 2 ^ 64
  bitword ← read_word b (item / word_bits)
  (if item / word_bits == end / word_bits
      then ok (any_between (end % word_bits - item % word_bits) (item % word_bits) bitword)
      else has_bit_set_across fuel b bitword (item / word_bits) (item % word_bits) (end / word_bits)
          (end % word_bits))

-- `memset(start, 0, 8 * n)` from word `i`: a fault where it leaves the words.
pub zero_words : ℕ → List ℕ → ℕ → Outcome (List ℕ)
zero_words zero xs i = ok xs
zero_words (suc n) xs i = elim (get_elem? xs i) [
  | none ↦ fault
  | some w ↦ zero_words n (set xs i 0) (i + 1)
]

-- `size` counts bytes and `WORDSIZE` is 64, so 8 words are cleared for each one asked for. It is an
-- `int`, from the low 32 bits of the product; a negative one is more than 2 ^ 63 bytes for `memset`,
-- which leave any buffer.
pub clear_bits : Bitmap → ℕ → ℕ → Outcome Bitmap
clear_bits b item bits =
    let end = (item + bits) % 2 ^ 64 in
    if item % word_bits == 0 && end % word_bits == 0
    then (do
      p ← get_word b (item / word_bits)
      let size = (end / word_bits + 2 ^ 64 - item / word_bits) * word_bits % 2 ^ 32
      start ← if leb (2 ^ 31) size then fault else zero_words (size / 8) b.start p
      ok (record b { start = start }))
    else aborted
