-- ===== src/XMemory/Blocks.antt =====
-- A new block and its guard: AdaptAppHeap::malloc of include/xpheap.hh, and realmalloc of include/xmemory.hh.
use double_take.Prelude.{
  ℕ, ◌+◌, ◌*◌, ◌%◌, ◌^◌, ◌≤◌, ◌<◌, ◌≡◌, refl, ◌∙◌, true, false, ◌==◌, ltb, Bool-cases, inl, inr,
  arith, ok,
}
use double_take.Defines.{sentinel_word}
use double_take.Memory.{Memory, load_word, store_word, load-store_self}
use double_take.ObjectHeader.{ObjectHeader, create, get_size}
use double_take.SentinelMap.{SentinelMap}
use double_take.SentinelMap.Setup.{InHeap, IsReady}
use double_take.SentinelMap.Object.{mark_sentinel_at-Marks, setup_both}
use double_take.Detector.Guard.{Guarded}
use double_take.Detector.Put.{set_sentinels-Sets}
use double_take.XMemory.{app_malloc, guard_object, Source, fresh, reused, block_of, heap_malloc}

-- The map covers the same heap.
pub record SameHeap (s s' : SentinelMap) : Type 0 where
  pub ready : IsReady s'
  pub same_start : s'.heap_start ≡ s.heap_start
  pub same_size : s'.bitmap.elements ≡ s.bitmap.elements

-- A new block: its sentinels are set, and its header has its size.
pub app_malloc-SameHeap :
    (s : SentinelMap) (mem : Memory) (block size : ℕ)
    → IsReady s
    → InHeap s block
    → InHeap s (block + 16 + size)
    → 0 < size
    → size < 2 ^ 32
    → (s1 : SentinelMap) × (mem1 : Memory) × (app_malloc s mem block size
        ≡ ok (block + 16, create size, s1, mem1))
      × SameHeap s s1
      × (load_word mem1 (block + 16 + size) ≡ sentinel_word)
unfolding app_malloc create
app_malloc-SameHeap s mem block size r first last some small =
    let (s1, e1, m1) =
      mark_sentinel_at-Marks s (block + 8) r (omega (arith, first), omega (arith, first, last)) in
    let (s2, e2, m2) =
      mark_sentinel_at-Marks s1 (block + 16 + size) m1.ready
        (omega (arith, m1.same_start, m1.same_size, last)) in
    let mem1 = store_word mem (block + 8) sentinel_word in
    let set =
      setup_both s s1 s2 mem (block + 16) size (block + 8) (omega (arith, last, r.no_wrap)) e1 e2 in
    let kept : size % 2 ^ 32 ≡ size = omega (arith, small) in
    let filled : (size == 0) ≡ false = ground (arith, some) in
    let same : (size == size) ≡ true = ground arith in
    (
      s2,
      store_word mem1 (block + 16 + size) sentinel_word,
      rw (app_malloc, set, kept, filled, same) refl,
      record {
        ready = m2.ready;
        same_start = m2.same_start ∙ m1.same_start;
        same_size = m2.same_size ∙ m1.same_size;
      },
      load-store_self mem1 (block + 16 + size) sentinel_word (omega arith),
    )

-- A class of the size-class heap for requests of `n` bytes: a power of two, with room for them.
pub record IsClassSize (n size : ℕ) : Type 0 where
  pub room : n ≤ size
  pub power : (k : ℕ) × (size ≡ 16 * 2 ^ k)

-- A block that was freed has the header and the last sentinel that it got when it was fresh.
abbrev pub IsKept : Memory → (ℕ → ObjectHeader) → Source → ℕ → Type 0
IsKept mem headers (fresh block) size = 0 ≤ 0
IsKept mem headers (reused block) size =
    (get_size (headers (block + 16)) ≡ size) × (load_word mem (block + 16 + size) ≡ sentinel_word)

pub heap_malloc-SameHeap :
    (class_size : ℕ → ℕ) (s : SentinelMap) (mem : Memory) (headers : ℕ → ObjectHeader)
    (source : Source) (n : ℕ)
    → IsReady s
    → InHeap s (block_of source)
    → InHeap s (block_of source + 16 + class_size n)
    → 0 < class_size n
    → class_size n < 2 ^ 32
    → IsKept mem headers source (class_size n)
    → (o : ObjectHeader) × (s1 : SentinelMap) × (mem1 : Memory) × (heap_malloc class_size s mem
          headers source n
        ≡ ok (block_of source + 16, o, s1, mem1))
      × (get_size o ≡ class_size n)
      × SameHeap s s1
      × (load_word mem1 (block_of source + 16 + class_size n) ≡ sentinel_word)
unfolding heap_malloc create
heap_malloc-SameHeap class_size s mem headers (fresh block) n r first last some small kept =
    let (s1, mem1, e, same, behind) =
      app_malloc-SameHeap s mem block (class_size n) r first last some small in
    (create (class_size n), s1, mem1, e, omega (arith, small), same, behind)
heap_malloc-SameHeap class_size s mem headers (reused block) n r first last some small kept = (
  headers (block + 16),
  s,
  mem,
  refl,
  kept.0,
  record { ready = r; same_start = refl; same_size = refl },
  kept.1,
)

-- The guard of an object in a block of a multiple of 16 bytes, behind which there is a sentinel.
pub guard_object-Guarded :
    (s : SentinelMap) (mem : Memory) (ptr sz size : ℕ) (o : ObjectHeader)
    → IsReady s
    → InHeap s ptr
    → InHeap s (ptr + size)
    → get_size o ≡ size
    → size % 16 ≡ 0
    → sz ≤ size
    → 0 < sz
    → size < 2 ^ 32
    → load_word mem (ptr + size) ≡ sentinel_word
    → (s1 : SentinelMap) × (mem1 : Memory) × (guard_object s mem ptr o sz ≡ ok (s1, mem1))
      × SameHeap s s1
      × Guarded mem1 ptr size sz
unfolding guard_object
guard_object-Guarded s mem ptr sz size o r first last header whole room some small behind =
    elim (Bool-cases (ltb sz size)) [
      | inl more ↦
          let (s1, mem1, e, sets) =
            set_sentinels-Sets s mem ptr size sz r
              (ground (arith, first), ground (arith, last, more))
              (λ long. (ground (arith, first), ground (arith, last, more, whole, first))) in
          (
            s1,
            mem1,
            rw (guard_object, header, more) e,
            record { ready = sets.ready; same_start = sets.same_start; same_size = sets.same_size },
            sets.guarded,
          )
      | inr full ↦
          let same : sz ≡ size = ground (arith, full, room) in
          (
            s,
            mem,
            rw (guard_object, header, full) refl,
            record { ready = r; same_start = refl; same_size = refl },
            record {
              aligned = λ _. rw same behind;
              filled = λ part. absurd (omega (arith, part, same, whole));
              next = λ part. absurd (omega (arith, part, same, whole));
            },
          )
    ]
