-- ===== src/Tests/Objects.antt =====
-- The tracked objects and the watchpoints at concrete inputs: include/memtrack.hh and
-- source/watchpoint.cpp.
use double_take.Prelude.{
  ℕ, suc, ◌+◌, ◌≤◌, ◌≡◌, refl, ap, true, not, ◌&&◌, none, some, List, [], ◌∷◌, ◌==◌, if◌then◌else◌,
  replicate, length, length-replicate, arith, ok, ◌>>=◌, ◌∙◌, leb, ltb,
}
use double_take.Defines.{overflow, use_after_free, no_error, max_watchpoints}
use double_take.Memory.{Memory}
use double_take.Memtrack.{
  Memtrack, TrackObject, insert_ready, check, get_fault_type, mem_track_free, mem_track_malloc,
  set_up,
}
use double_take.SentinelMap.{is_overflow}
use double_take.Memtrack.Tracked.{
  tracked, merged, Tracks, HasError, IsValid, insert_ready-Tracks, insert_ready-merged,
}
use double_take.Memtrack.Fault.{
  check-Tracks, recorded, get_fault_type_freed, get_fault_type_malloced,
}
use double_take.Watchpoint
use double_take.Watchpoint.{
  Watchpoint, FaultyObject, add_watchpoint, find_faulty_object, install_watchpoints,
  has_to_rollback,
}
use double_take.Watchpoint.Find.{LastWritten, find_faulty_object-LastWritten}
use double_take.Watchpoint.Laws.{IsBounded, Adds, add_watchpoint-Adds}
use double_take.Tests.Data.{
  tracker, tracker-IsValid, blank, no_watchpoints, no_watchpoints-IsBounded, small_map, zeros,
  nothing_there,
}

insert_ready-Tracks_example :
    (t : Memtrack) × (o : TrackObject) × (insert_ready tracker blank 4160 37 overflow ≡ ok t)
    × Tracks 1 tracker t 4160 o
    × HasError (tracked tracker 4160) blank o 4160 37 overflow
insert_ready-Tracks_example =
    insert_ready-Tracks 0 tracker tracker-IsValid (omega arith) blank 4160 37 overflow
      (λ e. absurd (omega (arith, e)))

add_watchpoint-Adds_example :
    (w : Watchpoint) × (t : Memtrack) × (o : TrackObject) × (add_watchpoint no_watchpoints tracker
        blank 4200 9 overflow 4160 37
      ≡ ok (not (ltb 0 max_watchpoints), w, t))
    × Adds no_watchpoints w 4200 9 4160 overflow
    × Tracks 1 tracker t 4160 o
    × HasError (tracked tracker 4160) blank o 4160 37 overflow
    × (has_to_rollback w ≡ true)
add_watchpoint-Adds_example =
    add_watchpoint-Adds no_watchpoints no_watchpoints-IsBounded 4200 9 4160 overflow 0 37 tracker
      blank tracker-IsValid (omega arith) (λ e. absurd (omega (arith, e))) (λ e. absurd (cc e))

-- Two watchpoints, and a memory in which the word of the first was written to.
abbrev two_watchpoints : Watchpoint
two_watchpoints = record {
  num_watchpoints = 2;
  wp =
      record Watchpoint.no_object { faultyaddr = 4200 }
      ∷ record Watchpoint.no_object { faultyaddr = 4300 }
      ∷ replicate 2 Watchpoint.no_object;
}

two_watchpoints-IsBounded : IsBounded two_watchpoints
two_watchpoints-IsBounded = record {
  counted = omega arith;
  sized = ap suc (ap suc (length-replicate 2 Watchpoint.no_object));
}

abbrev written : Memory
written a = if a == 4200 then 1 else 0

find_faulty_object-LastWritten_example :
    LastWritten two_watchpoints zeros written
      (find_faulty_object (install_watchpoints zeros two_watchpoints) written).0
find_faulty_object-LastWritten_example =
    find_faulty_object-LastWritten two_watchpoints two_watchpoints-IsBounded zeros written
      (omega arith)

-- The tracker with one object, at 4160, tracked for an overflow.
abbrev overflowed : TrackObject
overflowed = record blank { start = 4160; object_size = 37; objecttype = 1; tracktype = 1 }

nothing_tracked : tracked tracker 4160 ≡ none
unfolding tracked
nothing_tracked = ground (arith, nothing_there 4160 8)

new_object : merged (tracked tracker 4160) blank 4160 37 overflow ≡ overflowed
unfolding merged set_up
new_object = rw nothing_tracked refl

one_object :
    (t : Memtrack) × (insert_ready tracker blank 4160 37 overflow ≡ ok t)
    × Tracks 1 tracker t 4160 (merged (tracked tracker 4160) blank 4160 37 overflow)
one_object =
    insert_ready-merged 0 tracker tracker-IsValid (omega arith) blank 4160 37 overflow
      (λ e. absurd (omega (arith, e)))

abbrev with_object : Memtrack
with_object = one_object.0

with_object-IsValid : IsValid 1 with_object
with_object-IsValid = one_object.2.valid

object_there : tracked with_object 4160 ≡ some overflowed
object_there = one_object.2.here ∙ ap some new_object

abbrev calls : List ℕ
calls = 71 ∷ 72 ∷ []

room : length calls ≤ length blank.alloc_site.callsite
room = omega (arith, length-replicate {A = ℕ} 10 0)

check-Tracks_example :
    (t : Memtrack) × (check with_object 4160 37 mem_track_malloc calls ≡ ok t)
    × Tracks 1 with_object t 4160 (
        recorded 1 with_object with_object-IsValid
          (omega arith)
          4160
          overflowed
          37
          mem_track_malloc
          calls
          object_there
          refl)
check-Tracks_example =
    check-Tracks 1 with_object with_object-IsValid (omega arith) 4160 overflowed 37 mem_track_malloc
      calls object_there refl room room

get_fault_type_freed_example :
    (check with_object 4160 37 mem_track_free calls >>= λ t.
    get_fault_type 1 small_map zeros t 4160 4160)
    ≡ ok (if leb 4160 4160 && leb 4160 (4160 + 0) then use_after_free else no_error)
get_fault_type_freed_example =
    get_fault_type_freed 1 with_object with_object-IsValid (omega arith) 4160 37 calls overflowed
      object_there refl room room 1 small_map zeros 4160

get_fault_type_malloced_example :
    (check with_object 4160 37 mem_track_malloc calls >>= λ t.
    get_fault_type 1 small_map zeros t 4160 4200)
    ≡ (is_overflow 1 small_map zeros 4200 >>= λ bad. ok (if bad then overflow else no_error))
get_fault_type_malloced_example =
    get_fault_type_malloced 1 with_object with_object-IsValid (omega arith) 4160 37 calls overflowed
      object_there refl room room 1 small_map zeros 4200
