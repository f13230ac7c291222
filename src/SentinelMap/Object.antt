-- ===== src/SentinelMap/Object.antt =====
-- Marking, clearing and reading single sentinels, and the two round an object:
-- include/sentinelmap.hh.
use double_take.Prelude.{
  ℕ, ◌+◌, ◌-◌, ◌/◌, ◌%◌, ◌^◌, ◌≤◌, ◌<◌, ◌≡◌, ◌≢◌, refl, ◌⊎◌, true, false, ◌==◌, if◌then◌else◌, ok,
  arith, ◌∙◌,
}
use double_take.Defines.{sentinel_word}
use double_take.Memory.{Memory, load_word, store_word, load-store_self, load-store_apart}
use double_take.Bitmap.{Bitmap}
use double_take.Bitmap.Inv.{Puts}
use double_take.Bitmap.Single.{check_set_bit-member, clear_bit-member, is_bit_set-member}
use double_take.SentinelMap.{
  SentinelMap, get_index, try_to_set, clear, is_set, mark_sentinel_at, set_sentinel_at,
  setup_sentinels, check_sentinel, check_and_clear_sentinel,
}
use double_take.SentinelMap.Setup.{IsReady, InHeap, marked, index_of}

-- `s'` covers the same heap as `s` and is as well formed, and in it the word of `addr` is marked
-- by `x`, while the other words of the heap are marked as in `s`.
pub record Marks (s s' : SentinelMap) (addr x : ℕ) : Type 0 where
  pub ready : IsReady s'
  pub same_start : s'.heap_start ≡ s.heap_start
  pub same_size : s'.bitmap.elements ≡ s.bitmap.elements
  pub here : marked s' addr ≡ x
  pub others :
      (a : ℕ)
      → InHeap s a
      → (a - s.heap_start) / 8 ≢ (addr - s.heap_start) / 8
      → marked s' a ≡ marked s a

module _ (s : SentinelMap) (addr : ℕ) (r : IsReady s) (h : InHeap s addr) where
  index-lt : get_index s addr < s.bitmap.elements
  index-lt = omega (arith, index_of s addr r h)

  marks :
      (b : Bitmap) (x : ℕ)
      → Puts s.bitmap b (get_index s addr) x
      → Marks s (record s { bitmap = b }) addr x
  marks b x p = record {
    ready = record {
      bits = p.valid;
      shift = r.shift;
      no_wrap = omega (arith, r.no_wrap, p.same_elements);
      whole = omega (arith, r.whole, p.same_elements, p.same_length);
    };
    same_start = refl;
    same_size = p.same_elements;
    here = ground (arith, p.items (get_index s addr));
    others = λ a at ne.
        ground (arith, p.items (get_index s a), index_of s a r at, index_of s addr r h, ne);
  }

  -- In a sentinel map that is set up, `tryToSet` of a word of the heap marks it, leaves the
  -- other marks, and returns true exactly when it was not marked.
  pub try_to_set-Marks :
      (s' : SentinelMap) × (try_to_set s addr ≡ ok (if marked s addr == 0 then true else false, s'))
      × Marks s s' addr 1
  unfolding try_to_set
  try_to_set-Marks =
      let (b, e, p) = check_set_bit-member s.bitmap (get_index s addr) r.bits index-lt in
      (record s { bitmap = b }, rw e, marks b 1 p)

  -- `clear` takes the mark off.
  pub clear-Marks : (s' : SentinelMap) × (clear s addr ≡ ok s') × Marks s s' addr 0
  unfolding clear
  clear-Marks =
      let (b, e, p) = clear_bit-member s.bitmap (get_index s addr) r.bits index-lt in
      (record s { bitmap = b }, rw e, marks b 0 p)

  -- `isSet` reads the mark.
  pub is_set-marked : is_set s addr ≡ ok (if marked s addr == 1 then true else false)
  unfolding is_set
  is_set-marked = is_bit_set-member s.bitmap (get_index s addr) r.bits index-lt

  pub mark_sentinel_at-Marks :
      (s' : SentinelMap) × (mark_sentinel_at s addr ≡ ok s') × Marks s s' addr 1
  unfolding mark_sentinel_at
  mark_sentinel_at-Marks = let (s', e, m) = try_to_set-Marks in (s', rw e, m)

  pub set_sentinel_at-stores :
      (mem : Memory)
      → (s' : SentinelMap) × (set_sentinel_at s mem addr
          ≡ ok (s', store_word mem addr sentinel_word))
        × Marks s s' addr 1
  unfolding set_sentinel_at
  set_sentinel_at-stores mem = let (s', e, m) = mark_sentinel_at-Marks in (s', rw e, m)

  -- `setSentinelAt` marks the word and writes the sentinel there and nowhere else; the sentinel
  -- then checks as intact.
  pub set_sentinel_at-Marks :
      (mem : Memory)
      → (s' : SentinelMap) × (mem' : Memory) × (set_sentinel_at s mem addr ≡ ok (s', mem'))
        × Marks s s' addr 1
        × (check_sentinel mem' addr ≡ false)
        × ((a : ℕ) → (a + 8 ≤ addr) ⊎ (addr + 8 ≤ a) → load_word mem' a ≡ load_word mem a)
  unfolding set_sentinel_at
  set_sentinel_at-Marks mem =
      let (s', e, m) = mark_sentinel_at-Marks in
      (
        s',
        store_word mem addr sentinel_word,
        rw e,
        m,
        rw (load-store_self mem addr sentinel_word (omega arith)),
        load-store_apart mem addr sentinel_word,
      )

  -- In a sentinel map that is set up, `checkAndClearSentinel` of a word of the heap says
  -- whether it holds another value than the sentinel, takes its mark off and leaves the other
  -- marks.
  pub check_and_clear_sentinel-Marks :
      (mem : Memory)
      → (s' : SentinelMap) × (check_and_clear_sentinel s mem addr
          ≡ ok (check_sentinel mem addr, s'))
        × Marks s s' addr 0
  unfolding check_and_clear_sentinel
  check_and_clear_sentinel-Marks mem = let (s', e, m) = clear-Marks in (s', rw e, m)

pub setup_both :
    (s s1 s2 : SentinelMap) (mem : Memory) (ptr size first : ℕ)
    → (ptr + 2 ^ 64 - 8) % 2 ^ 64 ≡ first
    → mark_sentinel_at s first ≡ ok s1
    → mark_sentinel_at s1 (ptr + size) ≡ ok s2
    → setup_sentinels s mem ptr size
      ≡ ok (s2, store_word (store_word mem first sentinel_word) (ptr + size) sentinel_word)
unfolding setup_sentinels
setup_both s s1 s2 mem ptr size first e e1 e2 = rw (e, e1, e2) refl

-- In a sentinel map that is set up, `setupSentinels` round an object whose two sentinels lie
-- in the heap writes one before and one after the object, marks both words, and leaves every
-- word of memory that it does not overlap.
pub setup_sentinels-Marks :
    (s : SentinelMap) (mem : Memory) (ptr size : ℕ)
    → IsReady s
    → 8 ≤ ptr
    → InHeap s (ptr - 8)
    → InHeap s (ptr + size)
    → (s' : SentinelMap) × (mem' : Memory) × (setup_sentinels s mem ptr size ≡ ok (s', mem'))
      × IsReady s'
      × (check_sentinel mem' (ptr - 8) ≡ false)
      × (check_sentinel mem' (ptr + size) ≡ false)
      × (marked s' (ptr - 8) ≡ 1)
      × (marked s' (ptr + size) ≡ 1)
      × ((a : ℕ)
          → (a + 8 ≤ ptr - 8) ⊎ (ptr ≤ a)
          → (a + 8 ≤ ptr + size) ⊎ (ptr + size + 8 ≤ a)
          → load_word mem' a ≡ load_word mem a)
setup_sentinels-Marks s mem ptr size r low before after =
    let (s', e, m) = mark_sentinel_at-Marks s (ptr - 8) r before in
    let after' : InHeap s' (ptr + size) = omega (arith, m.same_start, m.same_size, after) in
    let (s'', e', m') = mark_sentinel_at-Marks s' (ptr + size) m.ready after' in
    let mem1 : Memory = store_word mem (ptr - 8) sentinel_word in
    (
      s'',
      store_word mem1 (ptr + size) sentinel_word,
      setup_both s s' s'' mem ptr size (ptr - 8) (omega (arith, low, before, r.no_wrap)) e e',
      m'.ready,
      rw (
        load-store_apart mem1 (ptr + size) sentinel_word (ptr - 8) (omega arith),
        load-store_self mem (ptr - 8) sentinel_word (omega arith),
      ),
      rw (load-store_self mem1 (ptr + size) sentinel_word (omega arith)),
      m'.others (ptr - 8) (omega (arith, m.same_start, m.same_size, before))
            (omega (arith, m.same_start, before))
          ∙ m.here,
      m'.here,
      λ a x y.
          load-store_apart mem1 (ptr + size) sentinel_word a y
          ∙ load-store_apart mem (ptr - 8) sentinel_word a (omega arith),
    )
