-- ===== src/Memtrack.antt =====
-- include/memtrack.hh and source/memtrack.cpp: the objects with a memory error, which are watched
-- while the program is replayed. A pointer to a `trackObject` is its place in `objects`; what
-- malloc hands out uninitialised is an argument, `raw`. Printing is left out.
pub mod Tracked
pub mod Fault
use double_take.Prelude.{
  ℕ, ◌+◌, bit_and, bit_or, Bool, true, false, not, ◌&&◌, ◌||◌, Option, none, some, List, [], ◌∷◌,
  ◌++◌, leb, ◌==◌, if◌then◌else◌, length, get_elem?, set, Outcome, ok, aborted, fault, assert,
  ◌>>=◌, ◌>>◌,
}
use double_take.Defines.{
  FaultyObjectType, no_error, overflow, use_after_free, leak, type_bits, memtrack_map_size,
  word_size,
}
use double_take.HashFuncs.{hash_addr, compare_addr}
use double_take.HashMap
use double_take.HashMap.{HashMap}
use double_take.CallSite
use double_take.CallSite.{CallSite}
use double_take.Memory.{Memory}
use double_take.SentinelMap.{SentinelMap, is_overflow}

-- `e_memtrackType`, with its enumerators' values.
abbrev pub mem_track_malloc : ℕ
mem_track_malloc = 1

abbrev pub mem_track_free : ℕ
mem_track_free = 2

pub record TrackObject : Type 0 where
  pub start : ℕ
  pub object_size : ℕ
  pub current_object_size : ℕ
  pub objecttype : ℕ
  pub tracktype : ℕ
  pub traced_ops : ℕ
  pub alloc_site : CallSite
  pub free_site : CallSite

abbrev pub is_use_after_free : FaultyObjectType → Bool
is_use_after_free use_after_free = true
is_use_after_free _ = false

abbrev is_overflow_type : FaultyObjectType → Bool
is_overflow_type overflow = true
is_overflow_type _ = false

-- The object that `setup` leaves.
unfoldable pub set_up : TrackObject → ℕ → ℕ → FaultyObjectType → Bool → TrackObject
set_up o addr sz type object_exist =
    let tracktype = if object_exist then o.tracktype else mem_track_malloc in
    record o {
      start = addr;
      object_size = sz;
      objecttype = if object_exist then bit_or o.objecttype (type_bits type) else type_bits type;
      tracktype = if is_use_after_free type then bit_or tracktype mem_track_free else tracktype;
      traced_ops = 0;
    }

unfoldable pub setup : TrackObject → ℕ → ℕ → FaultyObjectType → Bool → Outcome TrackObject
unfolding set_up
setup o addr sz type object_exist =
    assert (not (addr == 0)) >> ok (set_up o addr sz type object_exist)

abbrev pub has_useafterfree : TrackObject → Bool
has_useafterfree o = not (bit_and o.objecttype (type_bits use_after_free) == 0)

abbrev pub has_leak : TrackObject → Bool
has_leak o = not (bit_and o.objecttype (type_bits leak) == 0)

abbrev pub has_overflow : TrackObject → Bool
has_overflow o = not (bit_and o.objecttype (type_bits overflow) == 0)

unfoldable pub save_callsite : TrackObject → ℕ → ℕ → List ℕ → Outcome TrackObject
save_callsite o size type callsites =
    if type == mem_track_malloc
    then (do
      site ← CallSite.save o.alloc_site callsites
      ok (record o { alloc_site = site; current_object_size = size; traced_ops = type }))
    else (do
      site ← CallSite.save o.free_site callsites
      ok (record o { free_site = site; traced_ops = type }))

unfoldable pub is_inside_object : TrackObject → ℕ → Bool
is_inside_object o addr = leb o.start addr && leb addr (o.start + o.current_object_size)

abbrev pub is_malloced : TrackObject → Bool
is_malloced o = o.traced_ops == mem_track_malloc

abbrev pub is_freed : TrackObject → Bool
is_freed o = o.traced_ops == mem_track_free

pub record Memtrack : Type 0 where
  pub initialized : Bool
  pub track_map : HashMap ℕ ℕ
  pub objects : List TrackObject

unfoldable pub initialize : Memtrack → Outcome Memtrack
initialize t = do
  m ← HashMap.initialize (some hash_addr) (some compare_addr) memtrack_map_size
  ok (record t { initialized = true; track_map = m })

-- `object->setup(...)` through the pointer that the map holds, or through that of a new object.
unfoldable pub setup_at :
    Memtrack → TrackObject → ℕ → ℕ → FaultyObjectType → Option ℕ → Outcome Memtrack
setup_at t raw start size type (some id) = elim (get_elem? t.objects id) [
  | none ↦ fault
  | some o ↦ do o' ← setup o start size type true; ok (record t { objects = set t.objects id o' })
]
setup_at t raw start size type none = do
  m ← HashMap.insert t.track_map start word_size (length t.objects)
  o' ← setup raw start size type false
  ok (record t { track_map = m; objects = t.objects ++ o' ∷ [] })

unfoldable pub insert_ready : Memtrack → TrackObject → ℕ → ℕ → FaultyObjectType → Outcome Memtrack
insert_ready t raw start size type =
    if start == 0 && is_overflow_type type
    then ok t
    else (do found ← HashMap.find t.track_map start word_size; setup_at t raw start size type found)

unfoldable pub insert : Memtrack → TrackObject → ℕ → ℕ → FaultyObjectType → Outcome Memtrack
unfolding initialize insert_ready
insert t raw start size type = do
  t' ← if t.initialized then ok t else initialize t
  insert_ready t' raw start size type

-- Whether the object of `check` is one to record.
abbrev pub is_tracked_error : TrackObject → ℕ → Bool
is_tracked_error o size =
    has_useafterfree o || has_overflow o || (has_leak o && o.object_size == size)

-- `callsites` is what `backtrace` returns.
unfoldable pub check : Memtrack → ℕ → ℕ → ℕ → List ℕ → Outcome Memtrack
check t start size type callsites =
    if t.initialized
    then (do
      found ← HashMap.find t.track_map start word_size
      elim found [
        | none ↦ ok t
        | some id ↦ elim (get_elem? t.objects id) [
          | none ↦ fault
          | some o ↦
              if is_tracked_error o size
              then (do
                o' ← save_callsite o size type callsites
                ok (record t { objects = set t.objects id o' }))
              else ok t
        ]
      ])
    else ok t

-- The type of error at an address of the object, or of none.
unfoldable pub fault_type_of : ℕ → SentinelMap → Memory → TrackObject → ℕ → Outcome FaultyObjectType
fault_type_of fuel s mem o faultyaddr =
    if is_freed o
    then ok (if is_inside_object o faultyaddr then use_after_free else no_error)
    else (do bad ← is_overflow fuel s mem faultyaddr; ok (if bad then overflow else no_error))

unfoldable pub get_fault_type :
    ℕ → SentinelMap → Memory → Memtrack → ℕ → ℕ → Outcome FaultyObjectType
unfolding fault_type_of
get_fault_type fuel s mem t start faultyaddr = do
  found ← HashMap.find t.track_map start word_size
  elim found [
    | none ↦ aborted
    | some id ↦ elim (get_elem? t.objects id) [
      | none ↦ fault
      | some o ↦ fault_type_of fuel s mem o faultyaddr
    ]
  ]
