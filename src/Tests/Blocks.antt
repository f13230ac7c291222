-- ===== src/Tests/Blocks.antt =====
-- Blocks of the heap at concrete inputs: include/xmemory.hh.
use double_take.Prelude.{
  ℕ, ◌-◌, ◌%◌, ◌≤◌, ◌≡◌, refl, Bool, false, [], arith, ok, if◌then◌else◌, leb,
}
use double_take.Defines.{alignup}
use double_take.Memory.{Memory, load_word, load_bytes}
use double_take.Canary.{Reports}
use double_take.SentinelMap.{SentinelMap}
use double_take.SentinelMap.Object.{Marks}
use double_take.Detector.RoundTrip.{SameGuard, Verdict}
use double_take.ObjectHeader.{ObjectHeader, get_size, get_object_size, create, set_object_free}
use double_take.XMemory.{
  real_malloc_size, memalign, get_object_ptr_at_free, fresh, real_malloc, free_object, in_range,
  caught, freed,
}
use double_take.XMemory.Sizes.{IsBlockSize, real_malloc_size-IsBlockSize}
use double_take.XMemory.Aligned.{memalign-get_object_ptr_at_free}
use double_take.XMemory.Blocks.{IsClassSize}
use double_take.XMemory.Freed.{put_header, free_object-real_malloc}
use double_take.Tests.Data.{
  small_map, small_map-IsReady, zeros, blank, no_reports, no_reports-IsReady,
}

memalign-get_object_ptr_at_free_example :
    (newptr : ℕ) × (s1 : SentinelMap) × (mem1 : Memory) × (s2 : SentinelMap) × (memalign small_map
        zeros 4128 64
      ≡ ok (newptr, s1, mem1))
    × (newptr % 64 ≡ 0)
    × (4144 ≤ newptr)
    × (newptr ≤ 4192)
    × Marks small_map s1 (newptr - 8) 1
    × (get_object_ptr_at_free s1 mem1 newptr ≡ ok (4128, s2))
    × Marks s1 s2 (newptr - 8) 0
memalign-get_object_ptr_at_free_example =
    memalign-get_object_ptr_at_free 2 58 4128 refl (omega arith) refl small_map zeros
      small_map-IsReady (omega arith, omega arith) (omega arith, omega arith)

real_malloc_size-IsBlockSize_example : IsBlockSize 37 (real_malloc_size 37)
real_malloc_size-IsBlockSize_example = real_malloc_size-IsBlockSize 37 (omega arith)

-- The sizes of the classes for small requests.
abbrev class_size : ℕ → ℕ
class_size n = if leb n 16 then 16 else (if leb n 32 then 32 else 64)

for_37 : 64 ≡ class_size (real_malloc_size 37)
unfolding real_malloc_size alignup
for_37 = refl

for_37-IsClassSize : IsClassSize (real_malloc_size 37) 64
unfolding real_malloc_size alignup
for_37-IsClassSize = record { room = omega arith; power = (2, refl) }

free_object-real_malloc_example :
    (o : ObjectHeader) × (s1 : SentinelMap) × (mem1 : Memory) × (found : Bool) × (s2 : SentinelMap)
    × (r2 : Reports) × (real_malloc class_size small_map zeros (λ a. create 0) (fresh 4128) 37
        ≡ ok (4144, o, s1, mem1))
    × (get_size o ≡ 64)
    × (get_object_size o ≡ 37)
    × (free_object 4096 8192 false [] no_reports blank s1 zeros
          (put_header (λ a. create 0) 4144 o)
          4144
        ≡ ok (if found then caught else freed 4144 (set_object_free o), s2, r2))
    × Verdict found no_reports r2 (SameGuard mem1 zeros 4144 64 37)
unfolding in_range load_word load_bytes
free_object-real_malloc_example =
    free_object-real_malloc 0 4096 8192 [] no_reports blank class_size small_map zeros zeros
      (λ a. create 0) (fresh 4128) 37 64 no_reports-IsReady (omega arith) (omega arith) for_37
      (omega arith) for_37-IsClassSize (omega arith) small_map-IsReady (omega arith, omega arith)
      (omega arith, omega arith) refl (λ e. absurd (omega (arith, e)))
