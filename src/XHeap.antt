-- ===== src/XHeap.antt =====
-- include/xheap.hh: the bump pointer that gives pages to the heap, and its backup. The address
-- that `mmap` returns is an argument; the lock is left out.
pub mod Alloc
use double_take.Prelude.{
  ℕ, ◌+◌, ◌-◌, ◌*◌, ◌/◌, ◌%◌, ◌^◌, ltb, if◌then◌else◌, Outcome, ok, aborted, ◌>>=◌,
}
use double_take.Defines.{page_size}
use double_take.SentinelMap
use double_take.SentinelMap.{SentinelMap}

pub record XHeap : Type 0 where
  pub start : ℕ
  pub end : ℕ
  pub position : ℕ
  pub remaining : ℕ
  pub position_backup : ℕ
  pub remaining_backup : ℕ
  pub magic : ℕ

-- `ptr` is what `mmap` returns for the metadata and the heap.
unfoldable pub initialize : XHeap → ℕ → ℕ → ℕ → XHeap
initialize h ptr startsize metasize = record h {
  start = ptr + metasize;
  end = ptr + metasize + startsize;
  position = ptr + metasize;
  remaining = startsize;
  magic = 0xCAFEBABE;
}

unfoldable pub save_heap_metadata : XHeap → XHeap
save_heap_metadata h = record h { position_backup = h.position; remaining_backup = h.remaining }

unfoldable pub recover_heap_metadata : XHeap → XHeap
recover_heap_metadata h = record h { position = h.position_backup; remaining = h.remaining_backup }

-- The size in whole pages; `size_t` wraps.
unfoldable pub whole_pages : ℕ → ℕ
whole_pages sz = page_size * ((sz + page_size - 1) % 2 ^ 64 / page_size)

-- `malloc` up to the unlocking: the block, or the end of the program.
unfoldable pub bump : XHeap → ℕ → Outcome (ℕ × XHeap)
unfolding whole_pages
bump h sz =
    if ltb h.remaining (whole_pages sz)
    then aborted
    else ok (
      h.position,
      record h { remaining = h.remaining - whole_pages sz; position = h.position + whole_pages sz },
    )

unfoldable pub malloc : XHeap → SentinelMap → ℕ → Outcome (ℕ × XHeap × SentinelMap)
unfolding bump
malloc h s sz = do
  (p, h') ← bump h sz
  s' ← SentinelMap.cleanup s p (whole_pages sz)
  ok (p, h', s')
