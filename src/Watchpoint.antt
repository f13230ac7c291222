-- ===== src/Watchpoint.antt =====
-- include/watchpoint.hh and source/watchpoint.cpp: the words whose writers the replay looks for.
-- The perf events and signals of the kernel are left out.
pub mod Laws
pub mod Find
use double_take.Prelude.{
  ℕ, zero, suc, ◌+◌, Bool, true, false, not, ◌||◌, Option, none, some, List, [], ◌∷◌, ltb, ◌==◌,
  if◌then◌else◌, get_or, set, Outcome, ok, ◌>>=◌, replicate,
}
use double_take.Defines.{FaultyObjectType, no_error, watch_only, max_watchpoints}
use double_take.Memory.{Memory, load_word}
use double_take.CallSite
use double_take.CallSite.{CallSite}
use double_take.Memtrack
use double_take.Memtrack.{Memtrack, TrackObject}

pub record FaultyObject : Type 0 where
  pub objtype : FaultyObjectType
  pub faultyaddr : ℕ
  pub objectstart : ℕ
  pub faultyvalue : ℕ
  pub currentvalue : ℕ
  pub faulty_site : CallSite

abbrev pub no_object : FaultyObject
no_object = record {
  objtype = no_error;
  faultyaddr = 0;
  objectstart = 0;
  faultyvalue = 0;
  currentvalue = 0;
  faulty_site = CallSite.fresh;
}

pub record Watchpoint : Type 0 where
  pub num_watchpoints : ℕ
  pub wp : List FaultyObject

unfoldable pub fresh : Watchpoint
fresh = record { num_watchpoints = 0; wp = replicate max_watchpoints no_object }

abbrev is_watch_only : FaultyObjectType → Bool
is_watch_only watch_only = true
is_watch_only _ = false

-- The entry that `addWatchpoint` fills; its call site stays.
abbrev pub fill : FaultyObject → ℕ → ℕ → FaultyObjectType → ℕ → FaultyObject
fill o addr value objtype objectstart = record o {
  faultyaddr = addr;
  objectstart = objectstart;
  objtype = objtype;
  faultyvalue = value;
  currentvalue = value;
}

-- The part of `addWatchpoint` on the array; true if there was room.
unfoldable pub add_entry : Watchpoint → ℕ → ℕ → FaultyObjectType → ℕ → Bool × Watchpoint
add_entry w addr value objtype objectstart =
    if ltb w.num_watchpoints max_watchpoints
    then (
      true,
      record w {
        wp =
            set w.wp w.num_watchpoints
              (fill (get_or w.wp w.num_watchpoints no_object) addr value objtype objectstart);
        num_watchpoints = w.num_watchpoints + 1;
      },
    )
    else (false, w)

-- The part on the tracked objects.
unfoldable pub track : Memtrack → TrackObject → FaultyObjectType → ℕ → ℕ → Outcome Memtrack
track t raw objtype objectstart objectsize =
    if is_watch_only objtype then ok t else Memtrack.insert t raw objectstart objectsize objtype

-- Returns true if there was no room for the watchpoint.
unfoldable pub add_watchpoint :
    Watchpoint
    → Memtrack
    → TrackObject
    → ℕ
    → ℕ
    → FaultyObjectType
    → ℕ
    → ℕ
    → Outcome (Bool × Watchpoint × Memtrack)
unfolding add_entry track
add_watchpoint w t raw addr value objtype objectstart objectsize = do
  let (has_watchpoint, w') = add_entry w addr value objtype objectstart
  t' ← track t raw objtype objectstart objectsize
  ok (not has_watchpoint, w', t')

-- The loop of `findFaultyObject` over the `rounds` entries from `i` on; `object` is the last entry
-- that was taken.
unfoldable pub find_faulty_from : ℕ → ℕ → Memory → Watchpoint → Option ℕ → Option ℕ × Watchpoint
find_faulty_from zero i mem w object = (object, w)
find_faulty_from (suc rounds) i mem w object =
    let o = get_or w.wp i no_object in
    let value = load_word mem o.faultyaddr in
    let hit = not (value == o.currentvalue) || w.num_watchpoints == 1 in
    find_faulty_from rounds (i + 1) mem
      (if hit then record w { wp = set w.wp i (record o { currentvalue = value }) } else w)
      (if hit then some i else object)

-- `*object` as its place in the array, or `none` where the function returns false.
unfoldable pub find_faulty_object : Watchpoint → Memory → Option ℕ × Watchpoint
unfolding find_faulty_from
find_faulty_object w mem = find_faulty_from w.num_watchpoints 0 mem w none

abbrev pub has_to_rollback : Watchpoint → Bool
has_to_rollback w = ltb 0 w.num_watchpoints

-- The loop of `installWatchpoints`, which takes the present values as the ones to compare with.
unfoldable pub install_from : ℕ → ℕ → Memory → Watchpoint → Watchpoint
install_from zero i mem w = w
install_from (suc rounds) i mem w =
    let o = get_or w.wp i no_object in
    install_from rounds (i + 1) mem
      (record w { wp = set w.wp i (record o { currentvalue = load_word mem o.faultyaddr }) })

unfoldable pub install_watchpoints : Memory → Watchpoint → Watchpoint
unfolding install_from
install_watchpoints mem w = install_from w.num_watchpoints 0 mem w
