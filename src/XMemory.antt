-- ===== src/XMemory.antt =====
-- include/xmemory.hh: aligned allocations, the size that an allocation asks the heap for, and the
-- test of a range before a system call writes to it. What `malloc` of the heap gave is an argument.
pub mod Mask
pub mod Aligned
pub mod Sizes
pub mod Blocks
pub mod Freed
use double_take.Prelude.{
  List, not, ℕ, ◌+◌, ◌-◌, ◌%◌, ◌^◌, bit_and, Bool, true, false, ◌&&◌, ltb, leb, ◌==◌, if◌then◌else◌,
  Outcome, ok, ◌>>=◌, ◌>>◌, assert,
}
use double_take.Defines.{align_mask, alignup, memalign_sentinel_word}
use double_take.Memory.{Memory, load_word, store_word}
use double_take.SentinelMap.{SentinelMap, set_memalign_sentinel_at, clear, has_sentinels}
use double_take.SentinelMap.{setup_sentinels}
use double_take.ObjectHeader.{
  ObjectHeader, create, get_size, get_object_size, set_object_size, set_object_free,
}
use double_take.Memtrack
use double_take.Memtrack.{TrackObject, mem_track_free}
use double_take.Canary.{Reports}
use double_take.Detector.{set_sentinels, check_object_overflow}

-- `a - b` of addresses.
abbrev pub minus : ℕ → ℕ → ℕ
minus a b = (a + 2 ^ 64 - b) % 2 ^ 64

-- The size that `realmalloc` asks the heap for.
unfoldable pub real_malloc_size : ℕ → ℕ
unfolding alignup
real_malloc_size sz = alignup (if ltb sz 16 then 16 else sz) 16

unfoldable pub get_aligned_address : ℕ → ℕ → ℕ
get_aligned_address ptr boundary =
    if ptr % boundary == 0 then ptr else bit_and ((ptr + boundary) % 2 ^ 64) (align_mask boundary)

-- The aligned address behind `ptr` that is returned, and how far behind it is.
unfoldable pub aligned_behind : ℕ → ℕ → ℕ × ℕ
unfolding get_aligned_address
aligned_behind ptr boundary =
    let newptr = get_aligned_address ptr boundary in
    let offset = minus newptr ptr in
    if offset == 0 then ((newptr + boundary) % 2 ^ 64, boundary) else (newptr, offset)

-- The block at `ptr` has room for the boundary and the object.
unfoldable pub memalign : SentinelMap → Memory → ℕ → ℕ → Outcome (ℕ × SentinelMap × Memory)
unfolding aligned_behind
memalign s mem ptr boundary = do
  let (newptr, offset) = aligned_behind ptr boundary
  assert (leb 16 offset)
  (s', mem') ← set_memalign_sentinel_at s mem (minus newptr 8)
  ok (newptr, s', store_word mem' (minus newptr 16) ptr)

unfoldable pub get_object_ptr_at_free : SentinelMap → Memory → ℕ → Outcome (ℕ × SentinelMap)
get_object_ptr_at_free s mem ptr =
    if load_word mem (minus ptr 8) == memalign_sentinel_word
    then (do s' ← clear s (minus ptr 8); ok (load_word mem (minus ptr 16), s'))
    else ok (ptr, s)

-- `AdaptAppHeap::malloc` of include/xpheap.hh, on the block that the source heap gave: the place of
-- the object, and its header.
unfoldable pub app_malloc :
    SentinelMap → Memory → ℕ → ℕ → Outcome (ℕ × ObjectHeader × SentinelMap × Memory)
unfolding create
app_malloc s mem block sz = do
  let o = create sz
  let newptr = block + 16
  (s', mem') ← setup_sentinels s mem newptr sz
  assert (not (get_size o == 0))
  assert (get_size o == sz)
  ok (newptr, o, s', mem')

-- The sentinels of `realmalloc`, for an object of `sz` bytes.
unfoldable pub guard_object :
    SentinelMap → Memory → ℕ → ObjectHeader → ℕ → Outcome (SentinelMap × Memory)
guard_object s mem ptr o sz =
    if ltb sz (get_size o) then set_sentinels s mem ptr (get_size o) sz else ok (s, mem)

-- The block that the size classes of the heaplayers library take for a request, by its start, which
-- its header is at: a fresh one of the source heap, or one of the class that was freed.
pub data Source : Type 0 where
  fresh reused : ℕ → Source

abbrev pub block_of : Source → ℕ
block_of (fresh block) = block
block_of (reused block) = block

-- `malloc` of the program's heap, where `class_size` is the size of the class for a request. A freed
-- block has its header and its sentinels already.
unfoldable pub heap_malloc :
    (ℕ → ℕ)
    → SentinelMap
    → Memory
    → (ℕ → ObjectHeader)
    → Source
    → ℕ
    → Outcome (ℕ × ObjectHeader × SentinelMap × Memory)
unfolding app_malloc
heap_malloc class_size s mem headers (fresh block) sz = app_malloc s mem block (class_size sz)
heap_malloc class_size s mem headers (reused block) sz =
    ok (block + 16, headers (block + 16), s, mem)

-- `realmalloc`, outside a replay.
unfoldable pub real_malloc :
    (ℕ → ℕ)
    → SentinelMap
    → Memory
    → (ℕ → ObjectHeader)
    → Source
    → ℕ
    → Outcome (ℕ × ObjectHeader × SentinelMap × Memory)
unfolding set_object_size guard_object heap_malloc real_malloc_size
real_malloc class_size s mem headers source sz = do
  let size = if sz == 0 then 1 else sz
  (ptr, o, s1, mem1) ← heap_malloc class_size s mem headers source (real_malloc_size sz)
  let o' = (set_object_size o size).1
  assert (leb size (get_size o'))
  (s2, mem2) ← guard_object s1 mem1 ptr o' size
  ok (ptr, o', s2, mem2)

unfoldable pub check_overflow_and_clean_sentinels :
    Reports
    → TrackObject
    → SentinelMap
    → Memory
    → ObjectHeader
    → ℕ
    → Outcome (Bool × SentinelMap × Reports)
check_overflow_and_clean_sentinels r raw s mem o ptr = do
  assert (leb (get_object_size o) (get_size o))
  check_object_overflow r raw s mem ptr (get_size o) (get_object_size o) true

unfoldable pub in_range : ℕ → ℕ → ℕ → Bool
in_range heap_begin heap_end addr = ltb heap_begin addr && ltb addr heap_end

-- What became of a block: it is not the heap's, its guard was overwritten and the program rolls
-- back, or it goes to the heap, with the header that it has then.
pub data FreeResult : Type 0 where
  ignored : FreeResult
  caught : FreeResult
  freed : ℕ → ObjectHeader → FreeResult

-- `free`, with the header of each object. In a replay the guard is not looked at, and a tracked
-- object records the call.
unfoldable pub free_object :
    ℕ
    → ℕ
    → Bool
    → List ℕ
    → Reports
    → TrackObject
    → SentinelMap
    → Memory
    → (ℕ → ObjectHeader)
    → ℕ
    → Outcome (FreeResult × SentinelMap × Reports)
unfolding in_range get_object_ptr_at_free check_overflow_and_clean_sentinels set_object_free
free_object heap_begin heap_end is_rollback callsites r raw s mem headers ptr =
    if not (in_range heap_begin heap_end ptr) then ok (ignored, s, r) else (do
      (origptr, s1) ← get_object_ptr_at_free s mem ptr
      let o = headers origptr
      if is_rollback
          then (do
            t ← Memtrack.check r.memtrack ptr (get_object_size o) mem_track_free callsites
            ok (freed origptr (set_object_free o), s1, record r { memtrack = t }))
          else (do
            (has_overflow, s2, r2) ← check_overflow_and_clean_sentinels r raw s1 mem o origptr
            ok (if has_overflow then caught else freed origptr (set_object_free o), s2, r2)))
