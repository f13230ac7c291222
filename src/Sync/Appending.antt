-- ===== src/Sync/Appending.antt =====
-- What recordSyncEvent of include/synceventlist.hh adds to a recording.
use double_take.Prelude.{
  ℕ, zero, suc, ◌+◌, ◌≤◌, ◌<◌, ◌≡◌, ◌⊎◌, inl, inr, refl, sym, ap, ◌∙◌, true, false, some, List, [],
  ◌∷◌, ◌++◌, ◌==◌, if◌then◌else◌, get_elem?, get_elem?-set_self, get_elem?-set_ne,
  get_elem?-append_left, get_elem?-append, get_elem?-eq-get_or, get_or, length, length-set, set,
  ltb, lt→ltb, ==→eq, eq→==, Bool-cases, arith, ok,
}
use double_take.RecordEntries.{RecordEntries, alloc}
use double_take.Sync.{SyncEvent, EventPtr, World, assign, same_event, record_sync_event}
use double_take.Sync.Events.{same_event→eq, same_event_refl, event_ext}
use double_take.Sync.Inv.{iter, At, IsRecorded}
use double_take.Sync.Order.{assign_self, some_inj}
use double_take.Sync.Steps.{get_elem?-some-lt}
use double_take.Sync.Prepare.{IsFresh}

-- An entry of a list with one more at the end.
get_elem?_snoc :
    {A : Type 0} (xs : List A) (y e : A) (k : ℕ)
    → get_elem? (xs ++ y ∷ []) k ≡ some e
    → (get_elem? xs k ≡ some e) ⊎ ((k ≡ length xs) × (y ≡ e))
get_elem?_snoc [] y e zero h = inr (refl, some_inj y e h)
get_elem?_snoc [] y e (suc k) h = absurd (cc h)
get_elem?_snoc (x ∷ xs) y e zero h = inl h
get_elem?_snoc (x ∷ xs) y e (suc k) h = elim (get_elem?_snoc xs y e k h) [
  | inl old ↦ inl old
  | inr (eq, same) ↦ inr (ap suc eq, same)
]

-- What is recorded so far, with times below `now`, in pools that have their memory.
pub record Recording (time : EventPtr → ℕ) (now : ℕ) (w : World) : Type 0 where
  pub recorded : IsRecorded time w
  pub so_far : (t i : ℕ) → i < (w.syncevents t).cur → time (record { thread = t; place = i }) < now
  pub backed : (t : ℕ) → (w.syncevents t).total ≤ length (w.syncevents t).start
  pub fresh : IsFresh w

module _ (time : EventPtr → ℕ) (now : ℕ) (w : World) (t v : ℕ) (rec : Recording time now w)
    (room : (w.syncevents t).cur < (w.syncevents t).total) where
  cur : ℕ
  cur = (w.syncevents t).cur

  event : EventPtr
  event = record { thread = t; place = (w.syncevents t).cur }

  time_after : EventPtr → ℕ
  time_after x = if same_event x event then now else time x

  pool_after : RecordEntries SyncEvent
  pool_after = record (w.syncevents t) {
    cur = (w.syncevents t).cur + 1;
    start =
        set (w.syncevents t).start (w.syncevents t).cur
          (record { thread = t; eventlist = v; ret = 0 });
  }

  after : World
  after = record w {
    syncevents = assign w.syncevents t pool_after;
    list = assign w.list v (w.list v ++ event ∷ []);
  }

  record_sync_event-after : record_sync_event w t v 0 ≡ ok after
  unfolding record_sync_event alloc after pool_after event
  record_sync_event-after = rw (record_sync_event, alloc, lt→ltb _ _ room) refl

  -- An entry of a list is an old one or the new one.
  At-cases :
      (u k : ℕ) (e : EventPtr)
      → At after u k e
      → At w u k e ⊎ ((v ≡ u) × (k ≡ length (w.list u)) × (event ≡ e))
  unfolding after
  At-cases u k e at = elim (Bool-cases (v == u)) [
    | inr other ↦ inl (rw other at at)
    | inl same ↦
        let eq = ==→eq v u same in
        elim (get_elem?_snoc (w.list v) event e k (rw same at at)) [
          | inl old ↦ inl (ap (λ a. get_elem? (w.list a) k) (sym eq) ∙ old)
          | inr (last, is_new) ↦ inr (eq, last ∙ ap (λ a. length (w.list a)) eq, is_new)
        ]
  ]

  old_not_new : (u k : ℕ) (e : EventPtr) → At w u k e → same_event e event ≡ false
  unfolding event
  old_not_new u k e at = elim (Bool-cases (same_event e event)) [
    | inr other ↦ other
    | inl same ↦
        let eq = same_event→eq e event same in
        absurd (omega (arith, rw eq at (rec.recorded.used u k e at)))
  ]

  cur_after :
      (u : ℕ)
      → (after.syncevents u).cur
        ≡ (if t == u then (w.syncevents t).cur + 1 else (w.syncevents u).cur)
  unfolding after pool_after
  cur_after u = ground arith

  cur_grows : (u i : ℕ) → i < (w.syncevents u).cur → i < (after.syncevents u).cur
  cur_grows u i lt = elim (Bool-cases (t == u)) [
    | inl same ↦
        rw (cur_after u, same) (omega (arith, lt, ap (λ a. (w.syncevents a).cur) (==→eq t u same)))
    | inr other ↦ rw (cur_after u, other) lt
  ]

  -- An entry of a pool is an old one or the new one.
  cur_cases :
      (u i : ℕ)
      → i < (after.syncevents u).cur
      → (i < (w.syncevents u).cur) ⊎ (event ≡ record { thread = u; place = i })
  unfolding event
  cur_cases u i lt = elim (Bool-cases (t == u)) [
    | inr other ↦ inl (rw (cur_after u, other) at lt)
    | inl same ↦
        let eq = ap (λ a. (w.syncevents a).cur) (==→eq t u same) in
        elim (Bool-cases (ltb i (w.syncevents u).cur)) [
          | inl old ↦ inl (ground (arith, old))
          | inr is_new ↦ inr (
              event_ext event (record { thread = u; place = i }) (==→eq t u same)
                (ground (arith, rw (cur_after u, same) at lt, is_new, eq)))
        ]
  ]

  old_entry :
      (u i : ℕ)
      → i < (w.syncevents u).cur
      → same_event (record { thread = u; place = i }) event ≡ false
  unfolding event
  old_entry u i lt = elim (Bool-cases (u == t)) [
    | inr other ↦ ground (arith, other)
    | inl same ↦ ground (arith, lt, ap (λ a. (w.syncevents a).cur) (==→eq u t same))
  ]

  time_old : (e : EventPtr) → same_event e event ≡ false → time_after e ≡ time e
  unfolding time_after
  time_old e h = rw h refl

  time_new : (e : EventPtr) → event ≡ e → time_after e ≡ now
  unfolding time_after
  time_new e eq = rw (← eq, same_event_refl event) refl

  At-grows : (u k : ℕ) (e : EventPtr) → At w u k e → At after u k e
  unfolding after
  At-grows u k e at = elim (Bool-cases (v == u)) [
    | inr other ↦ rw other at
    | inl same ↦ rw same (
        get_elem?-append_left (w.list v) (event ∷ []) k e
          (ap (λ a. get_elem? (w.list a) k) (==→eq v u same) ∙ at))
  ]

  At-new : At after v (length (w.list v)) event
  unfolding after
  At-new =
      rw (assign_self w.list v (w.list v ++ event ∷ []))
        (get_elem?-append (w.list v) event [] (length (w.list v)) refl)

  other_place :
      (x : EventPtr)
      → (t == x.thread) ≡ true
      → same_event x event ≡ false
      → (w.syncevents t).cur ≡ x.place
      → 1 ≤ 0
  unfolding event
  other_place x same h eq = ground (arith, same, h, eq)

  stored_old :
      (x : EventPtr)
      → same_event x event ≡ false
      → get_elem? (after.syncevents x.thread).start x.place
        ≡ get_elem? (w.syncevents x.thread).start x.place
  unfolding after pool_after event
  stored_old x h = elim (Bool-cases (t == x.thread)) [
    | inr other ↦ rw other refl
    | inl same ↦ rw same (
        get_elem?-set_ne (w.syncevents t).start (w.syncevents t).cur x.place
          (record { thread = t; eventlist = v; ret = 0 })
          (λ eq. absurd (omega (arith, other_place x same h eq)))
        ∙ ap (λ a. get_elem? (w.syncevents a).start x.place) (==→eq t x.thread same))
  ]

  stored_new :
      get_elem? (after.syncevents t).start (w.syncevents t).cur
      ≡ some (record { thread = t; eventlist = v; ret = 0 })
  unfolding after pool_after
  stored_new =
      let none_yet : SyncEvent = record { thread = t; eventlist = v; ret = 0 } in
      rw (assign_self w.syncevents t pool_after) (
        get_elem?-set_self (w.syncevents t).start (w.syncevents t).cur none_yet
          (get_or (w.syncevents t).start (w.syncevents t).cur none_yet)
          (get_elem?-eq-get_or (w.syncevents t).start (w.syncevents t).cur none_yet
            (omega (arith, room, rec.backed t))))

  unique_after :
      (u u' j k : ℕ) (e : EventPtr) → At after u j e → At after u' k e → (u ≡ u') × (j ≡ k)
  unique_after u u' j k e a b = elim (At-cases u j e a) [
    | inl old ↦ elim (At-cases u' k e b) [
      | inl old' ↦ rec.recorded.unique u u' j k e old old'
      | inr (eq, last, is_new) ↦
          absurd (cc (rw (← is_new) at (old_not_new u j e old), same_event_refl event))
    ]
    | inr (eq, last, is_new) ↦ elim (At-cases u' k e b) [
      | inl old' ↦ absurd (cc (rw (← is_new) at (old_not_new u' k e old'), same_event_refl event))
      | inr (eq', last', _) ↦
          (sym eq ∙ eq', last ∙ ap (λ a. length (w.list a)) (sym eq ∙ eq') ∙ sym last')
    ]
  ]

  list_order_after :
      (u j k : ℕ) (e x : EventPtr)
      → At after u j e
      → At after u k x
      → j < k
      → time_after e < time_after x
  list_order_after u j k e x a b lt = elim (At-cases u j e a) [
    | inl old ↦
        let sooner = time_old e (old_not_new u j e old) in
        elim (At-cases u k x b) [
          | inl old' ↦ omega (
            arith,
            sooner,
            time_old x (old_not_new u k x old'),
            rec.recorded.list_order u j k e x old old' lt,
          )
          | inr (_, _, is_new) ↦ omega (
            arith,
            sooner,
            time_new x is_new,
            rec.so_far e.thread e.place (rec.recorded.used u j e old),
          )
        ]
    | inr (_, last, _) ↦ elim (At-cases u k x b) [
      | inl old' ↦ absurd (omega (arith, lt, last, get_elem?-some-lt (w.list u) k x old'))
      | inr (_, last', _) ↦ absurd (omega (arith, lt, last, last'))
    ]
  ]

  inside_of_new :
      (u i j : ℕ) → i < j → event ≡ record { thread = u; place = j } → i < (w.syncevents u).cur
  unfolding event
  inside_of_new u i j lt is_new = omega (
    arith,
    lt,
    ap (λ e. e.place) is_new,
    ap (λ a. (w.syncevents a).cur) (ap (λ e. e.thread) is_new),
  )

  new_used : event.place < (after.syncevents event.thread).cur
  unfolding event
  new_used = rw (cur_after t, eq→== t t refl) (omega arith)

  total_after : (u : ℕ) → (after.syncevents u).total ≡ (w.syncevents u).total
  unfolding after pool_after
  total_after u = elim (Bool-cases (t == u)) [
    | inr other ↦ rw other refl
    | inl same ↦ rw same (ap (λ a. (w.syncevents a).total) (==→eq t u same))
  ]

  backed_after : (u : ℕ) → (after.syncevents u).total ≤ length (after.syncevents u).start
  unfolding after pool_after
  backed_after u = elim (Bool-cases (t == u)) [
    | inr other ↦ rw other (rec.backed u)
    | inl same ↦
        rw
          (
            same,
            length-set (w.syncevents t).start (w.syncevents t).cur
                (record { thread = t; eventlist = v; ret = 0 }),
          )
          (rec.backed t)
  ]

  start_after : (u : ℕ) → iter after u ≡ 0
  unfolding after pool_after
  start_after u = elim (Bool-cases (t == u)) [
    | inr other ↦ rw (iter, other) (rec.fresh.at_start u)
    | inl same ↦ rw (iter, same) (rec.fresh.at_start t)
  ]

  pool_order_after :
      (u i j : ℕ)
      → i < j
      → j < (after.syncevents u).cur
      → time_after (record { thread = u; place = i })
        < time_after (record { thread = u; place = j })
  pool_order_after u i j lt lt' = elim (cur_cases u j lt') [
    | inl old ↦
        let inside : i < (w.syncevents u).cur = omega (arith, lt, old) in
        omega (
          arith,
          time_old (record { thread = u; place = i }) (old_entry u i inside),
          time_old (record { thread = u; place = j }) (old_entry u j old),
          rec.recorded.pool_order u i j lt old,
        )
    | inr is_new ↦
        let inside = inside_of_new u i j lt is_new in
        omega (
          arith,
          time_old (record { thread = u; place = i }) (old_entry u i inside),
          time_new (record { thread = u; place = j }) is_new,
          rec.so_far u i inside,
        )
  ]

  stored_after :
      (u k : ℕ) (e : EventPtr)
      → At after u k e
      → get_elem? (after.syncevents e.thread).start e.place
        ≡ some (record { thread = e.thread; eventlist = u; ret = 0 })
  unfolding event
  stored_after u k e at = elim (At-cases u k e at) [
    | inl old ↦ stored_old e (old_not_new u k e old) ∙ rec.recorded.stored u k e old
    | inr (eq, last, is_new) ↦ rw (← is_new, ← eq) stored_new
  ]

  used_after : (u k : ℕ) (e : EventPtr) → At after u k e → e.place < (after.syncevents e.thread).cur
  used_after u k e at = elim (At-cases u k e at) [
    | inl old ↦ cur_grows e.thread e.place (rec.recorded.used u k e old)
    | inr (eq, last, is_new) ↦ rw (← is_new) new_used
  ]

  listed_after :
      (u i : ℕ)
      → i < (after.syncevents u).cur
      → (a : ℕ) × (k : ℕ) × At after a k (record { thread = u; place = i })
  listed_after u i lt = elim (cur_cases u i lt) [
    | inl old ↦
        let (a, k, at) = rec.recorded.listed u i old in
        (a, k, At-grows a k (record { thread = u; place = i }) at)
    | inr is_new ↦ (v, length (w.list v), At-new ∙ ap some is_new)
  ]

  so_far_after :
      (u i : ℕ)
      → i < (after.syncevents u).cur
      → time_after (record { thread = u; place = i }) < now + 1
  so_far_after u i lt = elim (cur_cases u i lt) [
    | inl old ↦
        omega (
          arith,
          time_old (record { thread = u; place = i }) (old_entry u i old),
          rec.so_far u i old,
        )
    | inr is_new ↦ omega (arith, time_new (record { thread = u; place = i }) is_new)
  ]

  list_after :
      (u : ℕ)
      → after.list u ≡ (
          if v == u
          then w.list u ++ record { thread = t; place = (w.syncevents t).cur } ∷ []
          else w.list u)
  unfolding after event
  list_after u = elim (Bool-cases (v == u)) [
    | inl same ↦ rw same (ap (λ a. w.list a ++ event ∷ []) (==→eq v u same))
    | inr other ↦ rw other refl
  ]

  -- An event is recorded as the latest one of its thread and of its list.
  pub record_sync_event-Recording :
      (time' : EventPtr → ℕ) × (w' : World) × (record_sync_event w t v 0 ≡ ok w')
      × Recording time' (now + 1) w'
      × ((u : ℕ) → (w'.syncevents u).total ≡ (w.syncevents u).total)
      × ((u : ℕ)
          → (w'.syncevents u).cur
            ≡ (if t == u then (w.syncevents t).cur + 1 else (w.syncevents u).cur))
      × ((u : ℕ)
          → w'.list u ≡ (
              if v == u
              then w.list u ++ record { thread = t; place = (w.syncevents t).cur } ∷ []
              else w.list u))
  unfolding after event
  record_sync_event-Recording = (
    time_after,
    after,
    record_sync_event-after,
    record {
      recorded = record {
        stored = stored_after;
        used = used_after;
        unique = unique_after;
        listed = listed_after;
        list_order = list_order_after;
        pool_order = pool_order_after;
      };
      so_far = so_far_after;
      backed = backed_after;
      fresh = record {
        no_sema = rec.fresh.no_sema;
        no_pending = rec.fresh.no_pending;
        at_start = start_after;
      };
    },
    total_after,
    cur_after,
    list_after,
  )
