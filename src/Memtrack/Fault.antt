-- ===== src/Memtrack/Fault.antt =====
-- What is reported for an address of a tracked object: `check` and `getFaultType` of
-- source/memtrack.cpp.
use double_take.Prelude.{
  ℕ, ◌+◌, ◌^◌, ◌≤◌, ◌<◌, ◌≡◌, ◌∙◌, inl, inr, true, ◌&&◌, none, some, Option-cases, List, leb, ◌==◌,
  if◌then◌else◌, length, get_elem?, set, ok, aborted, arith, ◌>>=◌,
}
use double_take.Defines.{no_error, overflow, use_after_free, word_size}
use double_take.HashMap
use double_take.HashMap.Laws.{lookup, find-ok}
use double_take.CallSite.Laws.{save-overwrite, overwrite}
use double_take.Memory.{Memory}
use double_take.SentinelMap.{SentinelMap, is_overflow}
use double_take.Memtrack.{
  TrackObject, Memtrack, mem_track_malloc, mem_track_free, is_tracked_error, save_callsite,
  is_inside_object, check, fault_type_of, get_fault_type,
}
use double_take.Memtrack.Tracked.{tracked, IsValid, Tracks, changed}

module _ (n : ℕ) (t : Memtrack) (v : IsValid n t) (small : n < 2 ^ 31) (start : ℕ) where
  found : HashMap.find t.track_map start word_size ≡ ok (lookup t.track_map start word_size)
  found = find-ok t.track_map n v.table start word_size small

  -- The place of a tracked object.
  place :
      (o : TrackObject)
      → tracked t start ≡ some o
      → (id : ℕ) × (lookup t.track_map start word_size ≡ some id)
        × (get_elem? t.objects id ≡ some o)
  unfolding tracked
  place o h = elim (Option-cases (lookup t.track_map start word_size)) [
    | inl e ↦ absurd (ground (arith, e, h))
    | inr (id, e) ↦ (id, e, ground (arith, e, h))
  ]

  -- `getFaultType` of an object that is tracked looks at it; it aborts at an untracked address.
  pub get_fault_type-tracked :
      (fuel : ℕ) (s : SentinelMap) (mem : Memory) (addr : ℕ)
      → get_fault_type fuel s mem t start addr
        ≡ elim (tracked t start) [ none ↦ aborted | some o ↦ fault_type_of fuel s mem o addr ]
  unfolding get_fault_type tracked
  get_fault_type-tracked fuel s mem addr =
      elim (Option-cases (lookup t.track_map start word_size)) [
        | inl e ↦ ground (arith, found, e)
        | inr (id, e) ↦ let (o, at, from) = v.held start id e in ground (arith, found, e, at)
      ]

  module _ (o : TrackObject) (size type : ℕ) (callsites : List ℕ) (here : tracked t start ≡ some o)
      (error : is_tracked_error o size ≡ true) where
    -- The object that `check` leaves.
    abbrev pub recorded : TrackObject
    recorded =
        if type == mem_track_malloc
        then record o {
          alloc_site = record {
            depth = length callsites;
            callsite = overwrite o.alloc_site.callsite callsites;
          };
          current_object_size = size;
          traced_ops = type;
        }
        else record o {
          free_site = record {
            depth = length callsites;
            callsite = overwrite o.free_site.callsite callsites;
          };
          traced_ops = type;
        }

    save_callsite-recorded :
        length callsites ≤ length o.alloc_site.callsite
        → length callsites ≤ length o.free_site.callsite
        → save_callsite o size type callsites ≡ ok recorded
    unfolding save_callsite
    save_callsite-recorded fits_alloc fits_free = ground (
      arith,
      save-overwrite o.alloc_site callsites fits_alloc,
      save-overwrite o.free_site callsites fits_free,
    )

    start-recorded : recorded.start ≡ o.start
    start-recorded = ground arith

    -- `check` of an object that a valid tracker tracks for an error, with a call stack that
    -- fits, records the stack on the side of the operation, and the operation as the last one;
    -- the tracker stays valid and nothing else that is tracked changes.
    pub check-Tracks :
        length callsites ≤ length o.alloc_site.callsite
        → length callsites ≤ length o.free_site.callsite
        → (t' : Memtrack) × (check t start size type callsites ≡ ok t')
          × Tracks n t t' start recorded
    unfolding check
    check-Tracks fits_alloc fits_free =
        let (id, e, at) = place o here in
        let (p, at', from) = v.held start id e in
        (
          record t { objects = set t.objects id recorded },
          ground (
            arith,
            v.set_up_once,
            found,
            e,
            at,
            error,
            save_callsite-recorded fits_alloc fits_free,
          ),
          changed n t v start recorded (start-recorded ∙ ground (arith, at, at', from)) id e,
        )

module _ (n : ℕ) (t : Memtrack) (v : IsValid n t) (small : n < 2 ^ 31) (start size : ℕ)
    (callsites : List ℕ) (o : TrackObject) (here : tracked t start ≡ some o)
    (error : is_tracked_error o size ≡ true)
    (fits_alloc : length callsites ≤ length o.alloc_site.callsite)
    (fits_free : length callsites ≤ length o.free_site.callsite) (fuel : ℕ) (s : SentinelMap)
    (mem : Memory) (addr : ℕ) where
  -- Of an object that a valid tracker tracks for an error: after `check` recorded its release,
  -- with a call stack that fits, `getFaultType` at any address reports a use after free from
  -- the object's start up to and including its end, and no error elsewhere.
  pub get_fault_type_freed :
      (check t start size mem_track_free callsites >>= λ t'.
      get_fault_type fuel s mem t' start addr)
      ≡ ok (
          if leb o.start addr && leb addr (o.start + o.current_object_size)
          then use_after_free
          else no_error)
  unfolding fault_type_of is_inside_object
  get_fault_type_freed =
      let (t', e, r) =
        check-Tracks n t v small start o size mem_track_free callsites here error fits_alloc
          fits_free in
      rw (e, get_fault_type-tracked n t' r.valid small start fuel s mem addr, r.here)

  -- Of an object that a valid tracker tracks for an error: after `check` recorded its
  -- allocation, with a call stack that fits, `getFaultType` reports an overflow exactly where
  -- `isOverflow` holds of the address, and no error elsewhere; it fails only where
  -- `isOverflow` does.
  pub get_fault_type_malloced :
      (check t start size mem_track_malloc callsites >>= λ t'.
      get_fault_type fuel s mem t' start addr)
      ≡ (is_overflow fuel s mem addr >>= λ bad. ok (if bad then overflow else no_error))
  unfolding fault_type_of
  get_fault_type_malloced =
      let (t', e, r) =
        check-Tracks n t v small start o size mem_track_malloc callsites here error fits_alloc
          fits_free in
      rw (e, get_fault_type-tracked n t' r.valid small start fuel s mem addr, r.here)
