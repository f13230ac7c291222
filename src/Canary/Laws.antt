-- ===== src/Canary/Laws.antt =====
-- The canary words of include/quarantine.hh are found as they were written.
use double_take.Prelude.{
  ℕ, zero, suc, ◌+◌, ◌*◌, ◌/◌, ◌%◌, ◌≤◌, ◌<◌, ◌≡◌, refl, ◌⊎◌, Bool, false, ok, arith, ltb,
  if◌then◌else◌,
}
use double_take.Defines.{
  word_size, sentinel_word, free_object_canary_size, free_object_canary_words,
}
use double_take.Memory.{Memory, load_word, store_word, load-store_self, load-store_apart}
use double_take.Memtrack.{TrackObject}
use double_take.Canary.{
  FreeObject, get_mark_words, mark_words, mark_free_object, Reports, check_words,
  has_usage_after_free,
}

abbrev pub words_of : ℕ → ℕ
words_of size =
    if ltb free_object_canary_size size then free_object_canary_words else size / word_size

pub get_mark_words-ok : (size : ℕ) → size % word_size ≡ 0 → get_mark_words size ≡ ok (words_of size)
unfolding get_mark_words
get_mark_words-ok size h = rw h refl

-- The words that are marked lie in the object.
pub words_of-le : (size : ℕ) → 8 * words_of size ≤ size
words_of-le size = ground arith

-- Every marked word still has the sentinel.
abbrev pub Intact : Memory → FreeObject → Type 0
Intact mem o = (k : ℕ) → k < words_of o.size → load_word mem (o.ptr + 8 * k) ≡ sentinel_word

mark_words-apart :
    (words : ℕ) (mem : Memory) (addr a : ℕ)
    → (a + 8 ≤ addr) ⊎ (addr + 8 * words ≤ a)
    → load_word (mark_words words mem addr) a ≡ load_word mem a
unfolding mark_words
mark_words-apart zero mem addr a h = refl
mark_words-apart (suc words) mem addr a h = ground (
  arith,
  mark_words-apart words (store_word mem addr sentinel_word) (addr + 8) a,
  load-store_apart mem addr sentinel_word a,
)

mark_words-marked :
    (words : ℕ) (mem : Memory) (addr k : ℕ)
    → k < words
    → load_word (mark_words words mem addr) (addr + 8 * k) ≡ sentinel_word
unfolding mark_words
mark_words-marked zero mem addr k h = absurd (omega (arith, h))
mark_words-marked (suc words) mem addr zero h = ground (
  arith,
  mark_words-apart words (store_word mem addr sentinel_word) (addr + 8) addr,
  load-store_self mem addr sentinel_word (omega arith),
)
mark_words-marked (suc words) mem addr (suc k) h =
    ground (
      arith,
      mark_words-marked words (store_word mem addr sentinel_word) (addr + 8) k (omega arith),
    )

-- Nothing is reported for intact words.
check_words-Intact :
    (words : ℕ) (r : Reports) (raw : TrackObject) (mem : Memory) (addr : ℕ) (o : FreeObject)
    (b : Bool)
    → ((k : ℕ) → k < words → load_word mem (addr + 8 * k) ≡ sentinel_word)
    → check_words words r raw mem addr o b ≡ ok (b, r)
unfolding check_words
check_words-Intact zero r raw mem addr o b h = refl
check_words-Intact (suc words) r raw mem addr o b h = ground (
  arith,
  h 0 (omega arith),
  check_words-Intact words r raw mem (addr + 8) o b
      (λ k below. ground (arith, h (suc k) (omega arith))),
)

-- An object whose canary words are all there is not reported.
pub has_usage_after_free-Intact :
    (r : Reports) (raw : TrackObject) (mem : Memory) (o : FreeObject)
    → o.size % word_size ≡ 0
    → Intact mem o
    → has_usage_after_free r raw mem o ≡ ok (false, r)
unfolding has_usage_after_free
has_usage_after_free-Intact r raw mem o whole intact = ground (
  arith,
  get_mark_words-ok o.size whole,
  check_words-Intact (words_of o.size) r raw mem o.ptr o false intact,
)

-- `markFreeObject` on an object of whole words puts every canary word, inside the object, and
-- leaves the words apart from it as they were.
pub mark_free_object-Intact :
    (mem : Memory) (ptr size : ℕ)
    → size % word_size ≡ 0
    → (mem' : Memory) × (mark_free_object mem ptr size ≡ ok mem')
      × Intact mem' (record { ptr = ptr; size = size })
      × ((a : ℕ) → (a + 8 ≤ ptr) ⊎ (ptr + size ≤ a) → load_word mem' a ≡ load_word mem a)
unfolding mark_free_object
mark_free_object-Intact mem ptr size whole = (
  mark_words (words_of size) mem ptr,
  ground (arith, get_mark_words-ok size whole),
  λ k h. mark_words-marked (words_of size) mem ptr k h,
  λ a apart. mark_words-apart (words_of size) mem ptr a (omega (arith, apart, words_of-le size)),
)
