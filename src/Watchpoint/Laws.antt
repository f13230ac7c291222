-- ===== src/Watchpoint/Laws.antt =====
-- What `addWatchpoint` of source/watchpoint.cpp adds.
use double_take.Prelude.{
  ℕ, ◌+◌, ◌^◌, ◌≤◌, ◌<◌, ◌≡◌, ◌≢◌, refl, true, not, ltb, length, get_or, set, length-set,
  get_or-set_self, get_or-set_ne, ok, arith, lt→ltb, ◌∙◌, min,
}
use native.Mathlib.Decide.{dec_lt}
use double_take.Defines.{
  FaultyObjectType, no_error, overflow, use_after_free, leak, watch_only, max_watchpoints,
}
use double_take.Memtrack.{Memtrack, TrackObject, insert_ready, insert}
use double_take.Memtrack.Tracked.{tracked, HasError, Tracks, IsValid, insert_ready-Tracks}
use double_take.Watchpoint.{
  FaultyObject, no_object, Watchpoint, fill, add_entry, track, add_watchpoint, has_to_rollback,
}

-- The array has its four entries, and the count stays within.
pub record IsBounded (w : Watchpoint) : Type 0 where
  pub counted : w.num_watchpoints ≤ max_watchpoints
  pub sized : length w.wp ≡ max_watchpoints

abbrev pub entry : Watchpoint → ℕ → FaultyObject
entry w i = get_or w.wp i no_object

-- A watchpoint on the word `addr`, which has the value now and may get another in the replay; the call
-- site that the entry had stays.
pub record Watches (before o : FaultyObject) (addr value start : ℕ) (objtype : FaultyObjectType)
    : Type 0 where
  pub faulty : o.faultyaddr ≡ addr
  pub object : o.objectstart ≡ start
  pub kind : o.objtype ≡ objtype
  pub found_value : o.faultyvalue ≡ value
  pub compared : o.currentvalue ≡ value
  pub same_site : o.faulty_site ≡ before.faulty_site

-- `w'` is `w` with one more watchpoint on `addr`, if there is room, and else `w`.
pub record Adds (w w' : Watchpoint) (addr value start : ℕ) (objtype : FaultyObjectType)
    : Type 0 where
  pub bounded : IsBounded w'
  pub count : w'.num_watchpoints ≡ min (w.num_watchpoints + 1) max_watchpoints
  pub old : (i : ℕ) → i < w.num_watchpoints → entry w' i ≡ entry w i
  pub new :
      w.num_watchpoints < max_watchpoints
      → Watches (entry w w.num_watchpoints) (entry w' w.num_watchpoints) addr value start objtype

insert-insert_ready :
    (t : Memtrack) (raw : TrackObject) (start size : ℕ) (objtype : FaultyObjectType)
    → t.initialized ≡ true
    → insert t raw start size objtype ≡ insert_ready t raw start size objtype
unfolding insert
insert-insert_ready t raw start size objtype h = ground (arith, h)

track-insert_ready :
    (t : Memtrack) (raw : TrackObject) (objtype : FaultyObjectType) (start size : ℕ)
    → objtype ≢ watch_only
    → t.initialized ≡ true
    → track t raw objtype start size ≡ insert_ready t raw start size objtype
unfolding track
track-insert_ready t raw no_error start size ne h = insert-insert_ready t raw start size no_error h
track-insert_ready t raw overflow start size ne h = insert-insert_ready t raw start size overflow h
track-insert_ready t raw use_after_free start size ne h =
    insert-insert_ready t raw start size use_after_free h
track-insert_ready t raw leak start size ne h = insert-insert_ready t raw start size leak h
track-insert_ready t raw watch_only start size ne h = absurd (ne refl)

module _ (w : Watchpoint) (b : IsBounded w) (addr value start : ℕ)
    (objtype : FaultyObjectType) where
  add_entry-Adds :
      (w' : Watchpoint) × (add_entry w addr value objtype start
        ≡ (ltb w.num_watchpoints max_watchpoints, w'))
      × Adds w w' addr value start objtype
  unfolding add_entry
  add_entry-Adds = elim (dec_lt w.num_watchpoints max_watchpoints) [
    | yes room ↦
        let o : FaultyObject = fill (entry w w.num_watchpoints) addr value objtype start in
        (
          record w { wp = set w.wp w.num_watchpoints o; num_watchpoints = w.num_watchpoints + 1 },
          rw (lt→ltb _ _ room),
          record {
            bounded = record {
              counted = omega arith;
              sized = length-set w.wp w.num_watchpoints o ∙ b.sized;
            };
            count = omega arith;
            old = λ i h. get_or-set_ne w.wp o no_object (λ e. absurd (omega (arith, e)));
            new = λ _.
                rw (get_or-set_self w.wp w.num_watchpoints o no_object (omega (arith, b.sized)))
                  (record {
                    faulty = refl;
                    object = refl;
                    kind = refl;
                    found_value = refl;
                    compared = refl;
                    same_site = refl;
                  });
          },
        )
    | no full ↦ (
      w,
      ground arith,
      record {
        bounded = b;
        count = omega (arith, b.counted);
        old = λ i h. refl;
        new = λ room. absurd (full room);
      },
    )
  ]

  -- `addWatchpoint`, for another kind of error than a mere watch, on an object that has a
  -- start, with a valid tracker that has fewer than 2 ^ 31 insertions: it adds the watchpoint
  -- while fewer than four are there, and says when it had no room; in either case the object
  -- is tracked for the error, and the program has to roll back.
  pub add_watchpoint-Adds :
      (n size : ℕ) (t : Memtrack) (raw : TrackObject)
      → IsValid n t
      → n + 1 < 2 ^ 31
      → start ≢ 0
      → objtype ≢ watch_only
      → (w' : Watchpoint) × (t' : Memtrack) × (o : TrackObject) × (add_watchpoint w t raw addr value
            objtype start size
          ≡ ok (not (ltb w.num_watchpoints max_watchpoints), w', t'))
        × Adds w w' addr value start objtype
        × Tracks (n + 1) t t' start o
        × HasError (tracked t start) raw o start size objtype
        × (has_to_rollback w' ≡ true)
  unfolding add_watchpoint
  add_watchpoint-Adds n size t raw v small some_start watched =
      let (w', e, adds) = add_entry-Adds in
      let (t', o, e', r, has) = insert_ready-Tracks n t v small raw start size objtype some_start in
      (
        w',
        t',
        o,
        ground (arith, e, e', track-insert_ready t raw objtype start size watched v.set_up_once),
        adds,
        r,
        has,
        lt→ltb _ _ (omega (arith, adds.count)),
      )
