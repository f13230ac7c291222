-- ===== src/Detector/Put.antt =====
-- `setSentinels` of include/xmemory.hh puts the guard and marks it.
use double_take.Prelude.{
  ℕ, ◌+◌, ◌-◌, ◌%◌, ◌≤◌, ◌<◌, ◌≡◌, ap, ◌∙◌, ◌⊎◌, ok, arith, ltb, ◌==◌, if◌then◌else◌,
}
use native.Mathlib.Decide.{dec_lt, ℕ_discrete}
use double_take.Defines.{sentinel_word}
use double_take.Memory.{Memory, store_word, load-store_self, store_bytes-apart}
use double_take.SentinelMap.{SentinelMap}
use double_take.SentinelMap.Setup.{IsReady, InHeap, marked}
use double_take.SentinelMap.Object.{mark_sentinel_at-Marks, set_sentinel_at-stores}
use double_take.Detector.{spare, put_magic, set_sentinels}
use double_take.Detector.Guard.{non_aligned_bytes-mod, Magic, guard_word, Guarded, put_magic-Magic}

-- The end of the bytes that the guard takes.
abbrev pub guard_end : ℕ → ℕ → ℕ → ℕ
guard_end ptr block_size sz =
    if sz % 8 == 0
    then ptr + sz + 8
    else (if ltb 8 (spare block_size sz) then guard_word ptr sz + 16 else guard_word ptr sz + 8)

store_word-apart : (mem : Memory) (a v b : ℕ) → (b < a) ⊎ (a + 8 ≤ b) → store_word mem a v b ≡ mem b
unfolding store_word
store_word-apart mem a v b out = store_bytes-apart 8 mem a v b out

pub Magic-frame :
    (mem mem' : Memory) (p n : ℕ)
    → 0 < n
    → ((b : ℕ) → p ≤ b → b < p + n → mem' b ≡ mem b)
    → Magic mem p n
    → Magic mem' p n
Magic-frame mem mem' p n some_byte same m = record {
  first = ap (λ (x : ℕ). x % 256) (same p (omega arith) (omega arith)) ∙ m.first;
  others = λ i lo hi.
      ap (λ (x : ℕ). x % 256) (same (p + i) (omega arith) (omega arith)) ∙ m.others i lo hi;
}

-- What `setSentinels` leaves.
pub record Sets (s s' : SentinelMap) (mem mem' : Memory) (ptr block_size sz : ℕ) : Type 0 where
  pub ready : IsReady s'
  pub same_start : s'.heap_start ≡ s.heap_start
  pub same_size : s'.bitmap.elements ≡ s.bitmap.elements
  pub guarded : Guarded mem' ptr block_size sz
  pub here : marked s' (guard_word ptr sz) ≡ 1
  pub others : (b : ℕ) → (b < ptr + sz) ⊎ (guard_end ptr block_size sz ≤ b) → mem' b ≡ mem b

module _ (s : SentinelMap) (mem : Memory) (ptr block_size sz : ℕ) (r : IsReady s)
    (h : InHeap s (guard_word ptr sz)) where
  aligned_case :
      sz % 8 ≡ 0
      → (s' : SentinelMap) × (mem' : Memory) × (set_sentinels s mem ptr block_size sz
          ≡ ok (s', mem'))
        × Sets s s' mem mem' ptr block_size sz
  unfolding set_sentinels
  aligned_case e =
      let p : guard_word ptr sz ≡ ptr + sz = omega (arith, e) in
      let (s', e', m) = set_sentinel_at-stores s (ptr + sz) r (rw (← p) h) mem in
      (
        s',
        store_word mem (ptr + sz) sentinel_word,
        ground (arith, non_aligned_bytes-mod sz, e, e'),
        record {
          ready = m.ready;
          same_start = m.same_start;
          same_size = m.same_size;
          guarded = record {
            aligned = λ _. load-store_self mem (ptr + sz) sentinel_word (omega arith);
            filled = λ some_rest. absurd (omega (arith, e, some_rest));
            next = λ some_rest _. absurd (omega (arith, e, some_rest));
          };
          here = ap (marked s') p ∙ m.here;
          others =
              λ b out. store_word-apart mem (ptr + sz) sentinel_word b (ground (arith, e, out));
        },
      )

  short_case :
      0 < sz % 8
      → spare block_size sz ≤ 8
      → (s' : SentinelMap) × (mem' : Memory) × (set_sentinels s mem ptr block_size sz
          ≡ ok (s', mem'))
        × Sets s s' mem mem' ptr block_size sz
  unfolding set_sentinels
  short_case some_rest short =
      let (s', e', m) = mark_sentinel_at-Marks s (guard_word ptr sz) r h in
      let (magic, frame) =
        put_magic-Magic mem (ptr + sz) (8 - sz % 8) (omega arith) (omega arith) in
      (
        s',
        put_magic mem (ptr + sz) (8 - sz % 8),
        ground (arith, non_aligned_bytes-mod sz, e', some_rest, short),
        record {
          ready = m.ready;
          same_start = m.same_start;
          same_size = m.same_size;
          guarded = record {
            aligned = λ e. absurd (omega (arith, e, some_rest));
            filled = λ _. magic;
            next = λ _ long. absurd (omega (arith, short, long));
          };
          here = m.here;
          others = λ b out. frame b (ground (arith, some_rest, short, out));
        },
      )

  long_case :
      0 < sz % 8
      → 8 < spare block_size sz
      → InHeap s (guard_word ptr sz + 8)
      → (s' : SentinelMap) × (mem' : Memory) × (set_sentinels s mem ptr block_size sz
          ≡ ok (s', mem'))
        × Sets s s' mem mem' ptr block_size sz
  unfolding set_sentinels
  long_case some_rest long h2 =
      let word : ℕ = guard_word ptr sz in
      let (s1, e1, m1) = mark_sentinel_at-Marks s (guard_word ptr sz) r h in
      let (magic, frame) =
        put_magic-Magic mem (ptr + sz) (8 - sz % 8) (omega arith) (omega arith) in
      let mem1 : Memory = put_magic mem (ptr + sz) (8 - sz % 8) in
      let (s2, e2, m2) =
        set_sentinel_at-stores s1 (word + 8) m1.ready
          (omega (arith, m1.same_start, m1.same_size, h2)) mem1 in
      (
        s2,
        store_word mem1 (word + 8) sentinel_word,
        ground (arith, non_aligned_bytes-mod sz, e1, e2, some_rest, long),
        record {
          ready = m2.ready;
          same_start = m2.same_start ∙ m1.same_start;
          same_size = m2.same_size ∙ m1.same_size;
          guarded = record {
            aligned = λ e. absurd (omega (arith, e, some_rest));
            filled = λ _.
                Magic-frame mem1 (store_word mem1 (word + 8) sentinel_word) (ptr + sz) (8 - sz % 8)
                  (omega arith)
                  (λ b lo hi. store_word-apart mem1 (word + 8) sentinel_word b (omega arith)) magic;
            next = λ _ _. load-store_self mem1 (word + 8) sentinel_word (omega arith);
          };
          here =
              m2.others word (omega (arith, m1.same_start, m1.same_size, h))
                (omega (arith, m1.same_start, h))
              ∙ m1.here;
          others = λ b out.
              store_word-apart mem1 (word + 8) sentinel_word b
                (ground (arith, some_rest, long, out))
              ∙ frame b (ground (arith, some_rest, long, out));
        },
      )

-- In a sentinel map that is set up, `setSentinels` puts the guard behind an object whose guard
-- lies in the heap, marks the word where it begins, and changes no byte outside the guard.
pub set_sentinels-Sets :
    (s : SentinelMap) (mem : Memory) (ptr block_size sz : ℕ)
    → IsReady s
    → InHeap s (guard_word ptr sz)
    → (8 < spare block_size sz → InHeap s (guard_word ptr sz + 8))
    → (s' : SentinelMap) × (mem' : Memory) × (set_sentinels s mem ptr block_size sz ≡ ok (s', mem'))
      × Sets s s' mem mem' ptr block_size sz
set_sentinels-Sets s mem ptr block_size sz r h h2 = elim (ℕ_discrete (sz % 8) 0) [
  | yes whole ↦ aligned_case s mem ptr block_size sz r h whole
  | no part ↦ elim (dec_lt 8 (spare block_size sz)) [
    | yes long ↦ long_case s mem ptr block_size sz r h (omega arith) long (h2 long)
    | no short ↦ short_case s mem ptr block_size sz r h (omega arith) (omega arith)
  ]
]
