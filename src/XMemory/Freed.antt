-- ===== src/XMemory/Freed.antt =====
-- An object from its allocation to its release: realmalloc and free of include/xmemory.hh on the
-- blocks of include/xpheap.hh.
use double_take.Prelude.{
  ℕ, ◌+◌, ◌%◌, ◌^◌, ◌≤◌, ◌<◌, ◌≡◌, ◌≢◌, refl, sym, ◌∙◌, Bool, true, false, List, ◌==◌, leb,
  if◌then◌else◌, Bool-cases, inl, inr, arith, ok,
}
use double_take.Defines.{memalign_sentinel_word}
use double_take.Memory.{Memory, load_word}
use double_take.Memtrack.{TrackObject}
use double_take.Canary.{Reports}
use double_take.Canary.Detect
use double_take.ObjectHeader.{
  ObjectHeader, get_size, get_object_size, set_object_size, set_object_free,
}
use double_take.SentinelMap.{SentinelMap}
use double_take.SentinelMap.Setup.{InHeap, IsReady}
use double_take.Detector.{check_object_overflow}
use double_take.Detector.Guard.{Guarded}
use double_take.Detector.Exact.{check_object_overflow-Checks}
use double_take.Detector.RoundTrip.{SameGuard, Verdict, Guarded-verdict}
use double_take.XMemory.{
  minus, real_malloc_size, Source, block_of, heap_malloc, guard_object, real_malloc, in_range,
  free_object, caught, freed, check_overflow_and_clean_sentinels, get_object_ptr_at_free,
}
use double_take.XMemory.Sizes.{IsBlockSize, real_malloc_size-IsBlockSize}
use double_take.XMemory.Blocks.{
  SameHeap, IsClassSize, IsKept, heap_malloc-SameHeap, guard_object-Guarded,
}

-- An object of no bytes is one of a single byte.
abbrev pub bytes_of : ℕ → ℕ
bytes_of sz = if sz == 0 then 1 else sz

bytes_of-lt : (sz size : ℕ) → IsBlockSize sz size → (0 < bytes_of sz) × (bytes_of sz ≤ size)
bytes_of-lt sz size b = elim (Bool-cases (sz == 0)) [
  | inl none_asked ↦ rw none_asked (omega arith, omega (arith, b.some_room))
  | inr some_asked ↦ rw some_asked (ground (arith, some_asked), b.room)
]

abbrev pub put_header : (ℕ → ObjectHeader) → ℕ → ObjectHeader → ℕ → ObjectHeader
put_header headers ptr o addr = if ptr == addr then o else headers addr

real_malloc_eq :
    (class_size : ℕ → ℕ) (s s1 s2 : SentinelMap) (mem mem1 mem2 : Memory)
    (headers : ℕ → ObjectHeader) (source : Source) (sz ptr : ℕ) (o : ObjectHeader)
    → leb (bytes_of sz) (get_size o) ≡ true
    → heap_malloc class_size s mem headers source (real_malloc_size sz) ≡ ok (ptr, o, s1, mem1)
    → guard_object s1 mem1 ptr (set_object_size o (bytes_of sz)).1 (bytes_of sz) ≡ ok (s2, mem2)
    → real_malloc class_size s mem headers source sz
      ≡ ok (ptr, (set_object_size o (bytes_of sz)).1, s2, mem2)
unfolding real_malloc set_object_size
real_malloc_eq class_size s s1 s2 mem mem1 mem2 headers source sz ptr o holds e1 e2 =
    rw (real_malloc, e1, holds, e2) refl

class_size-whole : (n size : ℕ) → IsClassSize n size → size % 16 ≡ 0
class_size-whole n size c = let (k, e) = c.power in omega (arith, e)

-- The block that `realmalloc` gives.
real_malloc-Guarded :
    (class_size : ℕ → ℕ) (s : SentinelMap) (mem : Memory) (headers : ℕ → ObjectHeader)
    (source : Source) (sz size : ℕ)
    → sz + 15 < 2 ^ 64
    → size ≡ class_size (real_malloc_size sz)
    → size < 2 ^ 32
    → IsClassSize (real_malloc_size sz) size
    → IsKept mem headers source size
    → IsReady s
    → InHeap s (block_of source)
    → InHeap s (block_of source + 16 + size)
    → (o : ObjectHeader) × (s1 : SentinelMap) × (mem1 : Memory) × (real_malloc class_size s mem
          headers source sz
        ≡ ok (block_of source + 16, o, s1, mem1))
      × (get_size o ≡ size)
      × (get_object_size o ≡ bytes_of sz)
      × SameHeap s s1
      × Guarded mem1 (block_of source + 16) size (bytes_of sz)
unfolding set_object_size
real_malloc-Guarded class_size s mem headers source sz size fits is small c kept r first last =
    let b = real_malloc_size-IsBlockSize sz fits in
    let (o, s1, mem1, e1, header, h1, behind) =
      heap_malloc-SameHeap class_size s mem headers source (real_malloc_size sz) r first
        (rw is at last) (omega (arith, is, b.some_room, c.room)) (omega (arith, is, small))
        (rw is at kept) in
    let (some, least) = bytes_of-lt sz (real_malloc_size sz) b in
    let room : bytes_of sz ≤ size = omega (arith, least, c.room) in
    let (s2, mem2, e2, h2, g) =
      guard_object-Guarded s1 mem1 (block_of source + 16) (bytes_of sz) size
        (set_object_size o (bytes_of sz)).1 h1.ready
        (omega (arith, h1.same_start, h1.same_size, first, last))
        (omega (arith, h1.same_start, h1.same_size, last)) (header ∙ sym is)
        (class_size-whole (real_malloc_size sz) size c) room some small (rw (← is) at behind) in
    (
      (set_object_size o (bytes_of sz)).1,
      s2,
      mem2,
      real_malloc_eq class_size s s1 s2 mem mem1 mem2 headers source sz (block_of source + 16) o
          (ground (arith, header, is, room)) e1 e2,
      header ∙ sym is,
      omega (arith, room, small),
      record {
        ready = h2.ready;
        same_start = h2.same_start ∙ h1.same_start;
        same_size = h2.same_size ∙ h1.same_size;
      },
      g,
    )

free_object_eq :
    (heap_begin heap_end : ℕ) (callsites : List ℕ) (r r2 : Reports) (raw : TrackObject)
    (s s2 : SentinelMap) (mem : Memory) (headers : ℕ → ObjectHeader) (ptr : ℕ) (o : ObjectHeader)
    (found : Bool)
    → in_range heap_begin heap_end ptr ≡ true
    → get_object_ptr_at_free s mem ptr ≡ ok (ptr, s)
    → check_overflow_and_clean_sentinels r raw s mem o ptr ≡ ok (found, s2, r2)
    → free_object heap_begin heap_end false callsites r raw s mem (put_header headers ptr o) ptr
      ≡ ok (if found then caught else freed ptr (set_object_free o), s2, r2)
unfolding free_object
free_object_eq heap_begin heap_end callsites r r2 raw s s2 mem headers ptr o found inside plain e =
    let self : (ptr == ptr) ≡ true = ground arith in rw (free_object, inside, plain, self, e) refl

check_eq :
    (r r2 : Reports) (raw : TrackObject) (s s2 : SentinelMap) (mem : Memory) (o : ObjectHeader)
    (ptr size sz : ℕ) (found : Bool)
    → get_size o ≡ size
    → get_object_size o ≡ sz
    → leb sz size ≡ true
    → check_object_overflow r raw s mem ptr size sz true ≡ ok (found, s2, r2)
    → check_overflow_and_clean_sentinels r raw s mem o ptr ≡ ok (found, s2, r2)
unfolding check_overflow_and_clean_sentinels
check_eq r r2 raw s s2 mem o ptr size sz found a b room e =
    rw (check_overflow_and_clean_sentinels, a, b, room) e

get_object_plain :
    (s : SentinelMap) (mem : Memory) (ptr a : ℕ)
    → minus ptr 8 ≡ a
    → load_word mem a ≢ memalign_sentinel_word
    → get_object_ptr_at_free s mem ptr ≡ ok (ptr, s)
unfolding get_object_ptr_at_free
get_object_plain s mem ptr a e ne = ground (arith, e, ne)

-- An object from `realmalloc` to `free`, outside a replay, of fewer than 2 ^ 64 - 15 bytes, in a block
-- that the size classes of the heap gave, fresh or freed before: the class's size is a power of two
-- below 2 ^ 32 with room for what realmalloc asks for, and a freed block has its header and its last
-- sentinel. The heap's sentinel map is set up and covers the block with its header and both
-- sentinels, and the object is in the range that `free` looks for; the watchpoints and the tracker can
-- take two more reports, fewer than 2 ^ 31 in all; and the memory at the time of the release is any in
-- which the word before the object is not the mark of `memalign`. The allocation succeeds, and the
-- header has the sizes of the class and of the object; `free` keeps the block exactly if a byte of the
-- object's guard was changed, and then the program has to roll back; else it reports nothing and gives
-- the block, with an object size of 0 in its header, to the heap.
pub free_object-real_malloc :
    (n heap_begin heap_end : ℕ) (callsites : List ℕ) (r : Reports) (raw : TrackObject)
    (class_size : ℕ → ℕ) (s : SentinelMap) (mem mem2 : Memory) (headers : ℕ → ObjectHeader)
    (source : Source) (sz size : ℕ)
    → Detect.IsReady n r
    → n + 2 < 2 ^ 31
    → sz + 15 < 2 ^ 64
    → size ≡ class_size (real_malloc_size sz)
    → size < 2 ^ 32
    → IsClassSize (real_malloc_size sz) size
    → IsKept mem headers source size
    → IsReady s
    → InHeap s (block_of source)
    → InHeap s (block_of source + 16 + size)
    → in_range heap_begin heap_end (block_of source + 16) ≡ true
    → load_word mem2 (block_of source + 8) ≢ memalign_sentinel_word
    → (o : ObjectHeader) × (s1 : SentinelMap) × (mem1 : Memory) × (found : Bool)
      × (s2 : SentinelMap) × (r2 : Reports) × (real_malloc class_size s mem headers source sz
          ≡ ok (block_of source + 16, o, s1, mem1))
      × (get_size o ≡ size)
      × (get_object_size o ≡ bytes_of sz)
      × (free_object heap_begin heap_end false callsites r raw s1 mem2
            (put_header headers (block_of source + 16) o)
            (block_of source + 16)
          ≡ ok (if found then caught else freed (block_of source + 16) (set_object_free o), s2, r2))
      × Verdict found r r2 (SameGuard mem1 mem2 (block_of source + 16) size (bytes_of sz))
unfolding check_overflow_and_clean_sentinels
free_object-real_malloc n heap_begin heap_end callsites r raw class_size s mem mem2 headers source
      sz size ready few fits is small c kept map first last inside plain =
    let b = real_malloc_size-IsBlockSize sz fits in
    let (some, least) = bytes_of-lt sz (real_malloc_size sz) b in
    let room : bytes_of sz ≤ size = omega (arith, least, c.room) in
    let whole = class_size-whole (real_malloc_size sz) size c in
    let (o, s1, mem1, e1, block_size, object_size, h1, g) =
      real_malloc-Guarded class_size s mem headers source sz size fits is small c kept map first
        last in
    let (found, s2, r2, e2, m, checks) =
      check_object_overflow-Checks n r raw s1 mem2 (block_of source + 16) size (bytes_of sz) true
        ready few (λ e. absurd (omega (arith, e))) h1.ready
        (omega (arith, h1.same_start, h1.same_size, first, last, room))
        (λ part long. omega (arith, h1.same_start, h1.same_size, first, last, room, part, whole)) in
    (
      o,
      s1,
      mem1,
      found,
      s2,
      r2,
      e1,
      block_size,
      object_size,
      free_object_eq heap_begin heap_end callsites r r2 raw s1 s2 mem2 headers
          (block_of source + 16) o found inside
          (get_object_plain s1 mem2 (block_of source + 16) (block_of source + 8)
            (omega (arith, last, map.no_wrap)) plain)
          (check_eq r r2 raw s1 s2 mem2 o (block_of source + 16) size (bytes_of sz) found block_size
            object_size (ground (arith, room)) e2),
      Guarded-verdict mem1 mem2 (block_of source + 16) size (bytes_of sz) found r r2 g m
          checks.silent checks.rolls,
    )
