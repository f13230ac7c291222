-- ===== src/Bitmap/Inv.antt =====
-- The bitmap of include/bitmap.hh as a set of items, and when its words back every item.
use double_take.Prelude.{
  ◌==◌, if◌then◌else◌, ℕ, ◌*◌, ◌/◌, ◌%◌, ◌^◌, ◌≤◌, ◌<◌, ◌≡◌, bit, get_or, length, arith,
  get_elem?-eq-get_or, ok,
}
use double_take.Bitmap.{Bitmap, read_word}

-- 1 if the item is in the set, 0 if not.
abbrev pub member : Bitmap → ℕ → ℕ
member b item = bit (item % 64) (get_or b.start (item / 64) 0)

-- The words of the buffer are 64-bit words that back every element, and `_words` is no less.
pub record IsValid (b : Bitmap) : Type 0 where
  pub backed : b.elements ≤ 64 * length b.start
  pub counted : length b.start ≤ b.words
  pub short : 64 * length b.start < 2 ^ 64
  pub fits : (i : ℕ) → get_or b.start i 0 < 2 ^ 64

-- In a valid bitmap a word that backs an item is read.
pub read_word-ok :
    (b : Bitmap) (i : ℕ) → IsValid b → i < length b.start → read_word b i ≡ ok (get_or b.start i 0)
unfolding read_word
read_word-ok b i v h = ground (arith, get_elem?-eq-get_or b.start i 0 h)

-- `b'` is valid and of the size of `b`, and holds what `b` holds but for one item.
pub record Puts (b b' : Bitmap) (item x : ℕ) : Type 0 where
  pub valid : IsValid b'
  pub same_elements : b'.elements ≡ b.elements
  pub same_length : length b'.start ≡ length b.start
  pub items : (j : ℕ) → member b' j ≡ (if j == item then x else member b j)
