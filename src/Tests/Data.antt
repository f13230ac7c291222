-- ===== src/Tests/Data.antt =====
-- The concrete states that the tests use.
use double_take.Prelude.{
  ℕ, zero, suc, ◌%◌, ◌^◌, ◌<◌, ◌≡◌, refl, true, none, [], ◌∷◌, ◌==◌, ==→eq, replicate,
  length-replicate, get_or, arith, ap,
}
use double_take.Defines.{max_watchpoints, word_size}
use double_take.Memory.{Memory}
use double_take.Bitmap.{Bitmap}
use double_take.Bitmap.Inv
use double_take.SentinelMap.{SentinelMap}
use double_take.SentinelMap.Setup
use double_take.HashMap.{HashMap, HashEntry, empty_bucket}
use double_take.HashMap.Laws
use double_take.HashMap.Laws.{get_or-replicate, lookup, IsLawful}
use double_take.HashMap.Chain.{first_match-nil}
use double_take.CallSite
use double_take.CallSite.{CallSite}
use double_take.Memtrack.{Memtrack, TrackObject}
use double_take.Memtrack.Tracked
use double_take.Watchpoint
use double_take.Watchpoint.{Watchpoint}
use double_take.Watchpoint.Laws.{IsBounded}
use double_take.Canary.{Reports, FreeObject}
use double_take.Canary.Detect
use double_take.Canary.Laws.{Intact, mark_free_object-Intact}
use double_take.Quarantine
use double_take.Quarantine.{Quarantine, Heap}
use double_take.Quarantine.Ring.{Holds, sum_sizes, Stored, AllIntact}

-- Items 0 and 2.
abbrev pub two_items : Bitmap
two_items = record { start = 5 ∷ 0 ∷ []; elements = 128; words = 16 }

pub two_items-IsValid : Inv.IsValid two_items
two_items-IsValid = record {
  backed = omega arith;
  counted = omega arith;
  short = omega arith;
  fits = fits;
}
  where
    fits : (i : ℕ) → get_or two_items.start i 0 < 2 ^ 64
    fits zero = omega arith
    fits (suc zero) = omega arith
    fits (suc (suc i)) = omega arith

-- A heap of 1024 bytes from 4096 on, with two words marked.
abbrev pub small_map : SentinelMap
small_map = record {
  bitmap = two_items;
  word_shift_bits = 3;
  item_shift_bits = 6;
  elements = 128;
  total_bytes = 16;
  heap_start = 4096;
  last_sentinel_addr = 0;
}

pub small_map-IsReady : Setup.IsReady small_map
small_map-IsReady = record {
  bits = two_items-IsValid;
  shift = refl;
  no_wrap = omega arith;
  whole = omega arith;
}

abbrev pub zeros : Memory
zeros a = 0

-- An empty table of four buckets.
abbrev pub table : HashMap ℕ ℕ
table = record {
  initialized = true;
  entries = replicate 4 empty_bucket;
  buckets = 4;
  hashfunc = λ k l. k;
  keycmp = λ a b l. a == b;
}

pub table-IsValid : Laws.IsValid 0 table
table-IsValid = record {
  ready = refl;
  sized = length-replicate 4 (empty_bucket {K = ℕ} {V = ℕ});
  some_bucket = omega arith;
  counted = λ i. rw (get_or-replicate {A = HashEntry ℕ ℕ} 4 i empty_bucket);
  bounded = λ i. rw (get_or-replicate {A = HashEntry ℕ ℕ} 4 i empty_bucket) (omega arith);
}

pub table-IsLawful : IsLawful table
table-IsLawful a b l h = ==→eq a b h

pub nothing_there : (k l : ℕ) → lookup table k l ≡ none
unfolding lookup
nothing_there k l =
    ground (
      arith,
      get_or-replicate {A = HashEntry ℕ ℕ} 4 (k % 4) empty_bucket,
      first_match-nil table k l,
    )

abbrev pub blank : TrackObject
blank = record {
  start = 0;
  object_size = 0;
  current_object_size = 0;
  objecttype = 0;
  tracktype = 0;
  traced_ops = 0;
  alloc_site = CallSite.fresh;
  free_site = CallSite.fresh;
}

abbrev pub tracker : Memtrack
tracker = record { initialized = true; track_map = table; objects = [] }

pub tracker-IsValid : Tracked.IsValid 0 tracker
tracker-IsValid = record {
  set_up_once = refl;
  table = table-IsValid;
  compares = λ a b k. refl;
  held = λ k id h. absurd (cc (h, nothing_there k word_size));
}

abbrev pub no_watchpoints : Watchpoint
no_watchpoints = record { num_watchpoints = 0; wp = replicate max_watchpoints Watchpoint.no_object }

pub no_watchpoints-IsBounded : IsBounded no_watchpoints
no_watchpoints-IsBounded = record {
  counted = omega arith;
  sized = length-replicate max_watchpoints Watchpoint.no_object;
}

abbrev pub no_reports : Reports
no_reports = record { watchpoint = no_watchpoints; memtrack = tracker }

pub no_reports-IsReady : Detect.IsReady 0 no_reports
no_reports-IsReady = record { bounded = no_watchpoints-IsBounded; valid = tracker-IsValid }

-- A freed object of two words, and a memory in which its canary words are set.
abbrev pub freed : FreeObject
freed = record { ptr = 4096; size = 16 }

abbrev pub marked_memory : Memory
marked_memory = (mark_free_object-Intact zeros 4096 16 refl).0

pub freed-Intact : Intact marked_memory freed
freed-Intact = (mark_free_object-Intact zeros 4096 16 refl).2

pub freed-AllIntact : AllIntact marked_memory (freed ∷ [])
unfolding AllIntact
freed-AllIntact = ((refl, freed-Intact), omega arith)

-- The quarantine with that object.
abbrev pub ring : Quarantine
ring = record {
  objects = freed ∷ replicate 1023 Quarantine.no_object;
  objects_backup = replicate 1024 Quarantine.no_object;
  objects_size = 16384;
  total_size = 16;
  total_size_backup = 0;
  avail_index = 1;
  avail_index_backup = 0;
  lr_index = 0;
  lr_index_backup = 0;
}

pub ring-Holds : Holds ring (freed ∷ [])
unfolding Stored sum_sizes
ring-Holds = record {
  has = record {
    sized = ap suc (length-replicate 1023 Quarantine.no_object);
    oldest = omega arith;
    stored = (refl, omega arith);
    counted = refl;
    next = omega arith;
    total = refl;
  };
  few = omega arith;
  small = omega arith;
}

abbrev pub heap : Heap
heap = record { quarantine = ring; mem = marked_memory; reports = no_reports; really_freed = [] }
