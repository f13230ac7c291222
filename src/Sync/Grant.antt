-- ===== src/Sync/Grant.antt =====
-- The signal for the current event of a list keeps the invariant: `signalNextThread` in
-- include/xsync.hh.
use double_take.Prelude.{
  ℕ, ◌+◌, ◌≤◌, ◌<◌, ◌≡◌, ◌⊎◌, inl, inr, refl, sym, ap, ◌∙◌, Bool, true, false, none, some, [], ◌∷◌,
  ◌++◌, ◌==◌, ==→eq, eq→==, Bool-cases, arith, ok,
}
use double_take.RecordEntries.{first_iter_entry}
use double_take.Sync.{
  EventPtr, World, assign, same_event, load_event, signal_thread, is_thread_next_event,
  add_pending_sync_event, signal_next_thread,
}
use double_take.Sync.Events.{
  has_event, DistinctEvents, same_event→eq, same_event_refl, has_event-append,
  DistinctEvents-append, event_ext,
}
use double_take.Sync.Inv.{iter, Passed, At, IsCurrent, IsRecorded, SameRecording, Inv}
use double_take.Sync.Order.{assign_self, ne_of_ready, current_unique, some_inj}

pub more_ready : (ready : ℕ → Bool) (v u : ℕ) → ready u ≡ true → assign ready v true u ≡ true
more_ready ready v u h = ground (arith, h)

-- What holds of the new list and of the prepared ones holds of all.
pub ready_elim :
    (Q : ℕ → Type 0) (ready : ℕ → Bool) (v : ℕ)
    → Q v
    → ((u : ℕ) → ready u ≡ true → Q u)
    → (u : ℕ) → assign ready v true u ≡ true
    → Q u
ready_elim Q ready v q rest u h = elim (Bool-cases (v == u)) [
  | inl same ↦ rw (← ==→eq v u same) q
  | inr other ↦ rest u (rw other at h)
]

-- The list `v` stands at its event number `k`, which is `e`: all before it are passed, and it and
-- all behind it are not.
pub record Stands (w : World) (v k : ℕ) (e : EventPtr) : Type 0 where
  pub current : IsCurrent w v k e
  pub waits : iter w e.thread ≤ e.place
  pub before : (j : ℕ) (x : EventPtr) → j < k → At w v j x → Passed w x
  pub after : (j : ℕ) (x : EventPtr) → k < j → At w v j x → iter w x.thread ≤ x.place

abbrev event_thread : EventPtr → ℕ
event_thread e = e.thread

module _ (time : EventPtr → ℕ) (ready : ℕ → Bool) (w : World) (v k : ℕ) (e : EventPtr)
    (rec : IsRecorded time w) (inv : Inv ready w) (idle : ready v ≡ false)
    (stands : Stands w v k e) where
  -- The event is the current one of no list that is prepared.
  not_yet : (u j : ℕ) → At w u j e → ready u ≡ true → false ≡ true
  not_yet u j at r =
      let (same, _) = rec.unique u v j k e at stands.current.1 in
      ground (arith, ne_of_ready ready v u idle r (sym same))

  not_pending : (t : ℕ) → has_event (w.pending t) e ≡ false
  not_pending t = elim (Bool-cases (has_event (w.pending t) e)) [
    | inl i ↦
        let (u, j, (c, at), r, et, le) = inv.waiting t e i in
        absurd (ground (arith, not_yet u j at r))
    | inr out ↦ out
  ]

  -- What is behind a number of the list, for all prepared lists.
  earlier :
      (u i j : ℕ) (x : EventPtr)
      → assign ready v true u ≡ true
      → w.curentry u ≡ some i
      → j < i
      → At w u j x
      → Passed w x
  earlier u i j x r =
      ready_elim (λ u. w.curentry u ≡ some i → j < i → At w u j x → Passed w x) ready v
        (λ c lt at. stands.before j x (omega (arith, some_inj _ _ (sym stands.current.0 ∙ c))) at)
        (λ u r c lt at. inv.before u i j x r c lt at) u r

  later :
      (u i j : ℕ) (x : EventPtr)
      → assign ready v true u ≡ true
      → w.curentry u ≡ some i
      → i < j
      → At w u j x
      → iter w x.thread ≤ x.place
  later u i j x r =
      ready_elim (λ u. w.curentry u ≡ some i → i < j → At w u j x → iter w x.thread ≤ x.place) ready
        v (λ c lt at. stands.after j x (omega (arith, some_inj _ _ (sym stands.current.0 ∙ c))) at)
        (λ u r c lt at. inv.after u i j x r c lt at) u r

  never_over :
      (u j : ℕ) (x : EventPtr)
      → assign ready v true u ≡ true
      → w.curentry u ≡ none
      → At w u j x
      → Passed w x
  never_over u j x r =
      ready_elim (λ u. w.curentry u ≡ none → At w u j x → Passed w x) ready v
        (λ c at. absurd (cc (stands.current.0, c))) (λ u r c at. inv.over u j x r c at) u r

  idle_sema : e.place ≡ iter w e.thread → w.sema e.thread ≡ 0
  idle_sema next = elim (Bool-cases (w.sema e.thread == 0)) [
    | inl zero ↦ ==→eq _ _ zero
    | inr up ↦
        let (u, j, x, (c, at), r, et, ep, out) = inv.granted e.thread (ground arith) in
        let eq = event_ext x e et (ep ∙ sym next) in
        absurd (ground (arith, not_yet u j (rw eq at at) r))
  ]

  granted_after_signal :
      (t : ℕ)
      → e.place ≡ iter w e.thread
      → 0 < (signal_thread w e.thread).sema t
      → (u : ℕ) × (j : ℕ) × (x : EventPtr) × IsCurrent w u j x
        × (assign ready v true u ≡ true)
        × (x.thread ≡ t)
        × (x.place ≡ iter w t)
        × (has_event (w.pending t) x ≡ false)
  unfolding signal_thread
  granted_after_signal t next h = elim (Bool-cases (e.thread == t)) [
    | inl same ↦
        let eq = ==→eq e.thread t same in
        (
          v,
          k,
          e,
          stands.current,
          assign_self ready v true,
          eq,
          next ∙ ap (iter w) eq,
          not_pending t,
        )
    | inr other ↦
        let (u, j, x, c, r, et, ep, out) = inv.granted t (rw other at h) in
        (u, j, x, c, more_ready ready v u r, et, ep, out)
  ]

  signalled_after_signal :
      (u j : ℕ) (x : EventPtr)
      → e.place ≡ iter w e.thread
      → assign ready v true u ≡ true
      → IsCurrent w u j x
      → iter w x.thread ≤ x.place
      → (has_event (w.pending x.thread) x ≡ true)
        ⊎ ((x.place ≡ iter w x.thread) × (0 < (signal_thread w e.thread).sema x.thread))
  unfolding signal_thread
  signalled_after_signal u j x next r =
      ready_elim
        (λ u.
          IsCurrent w u j x
          → iter w x.thread ≤ x.place
          → (has_event (w.pending x.thread) x ≡ true)
            ⊎ ((x.place ≡ iter w x.thread) × (0 < (signal_thread w e.thread).sema x.thread)))
        ready v
        (λ c le.
          let eq = current_unique w v k j e x stands.current c in
          inr (
            rw eq at next,
            rw (← eq, assign_self w.sema e.thread (w.sema e.thread + 1)) (omega arith),
          ))
        (λ u r c le. elim (inv.signalled u j x r c le) [
          | inl i ↦ inl i
          | inr (ep, up) ↦ inr (ep, ground (arith, up))
        ])
        u r

  -- The thread whose next event it is gets the semaphore.
  Inv-signal : e.place ≡ iter w e.thread → Inv (assign ready v true) (signal_thread w e.thread)
  unfolding signal_thread
  Inv-signal next = record {
    at_most_one = λ t. ground (arith, idle_sema next, inv.at_most_one t);
    granted = λ t h. granted_after_signal t next h;
    waiting = λ t x i.
        let (u, j, c, r, et, le) = inv.waiting t x i in (u, j, c, more_ready ready v u r, et, le);
    distinct = inv.distinct;
    before = earlier;
    after = later;
    over = never_over;
    signalled = λ u j x r c le. signalled_after_signal u j x next r c le;
  }

  has_pending :
      (t : ℕ) (x : EventPtr)
      → has_event ((add_pending_sync_event w e e.thread).pending t) x ≡ true
      → (has_event (w.pending t) x ≡ true) ⊎ ((e.thread ≡ t) × (e ≡ x))
  unfolding add_pending_sync_event
  has_pending t x h = elim (Bool-cases (e.thread == t)) [
    | inl same ↦
        let eq = ==→eq e.thread t same in
        let both = has_event-append (w.pending e.thread) e x in
        elim (Bool-cases (same_event e x)) [
          | inl one ↦ inr (eq, same_event→eq e x one)
          | inr other ↦ inl (rw (← eq) (ground (arith, both, rw same at h)))
        ]
    | inr other ↦ inl (rw other at h)
  ]

  has_more :
      (t : ℕ) (x : EventPtr)
      → has_event (w.pending t) x ≡ true
      → has_event ((add_pending_sync_event w e e.thread).pending t) x ≡ true
  unfolding add_pending_sync_event
  has_more t x i = elim (Bool-cases (e.thread == t)) [
    | inl same ↦ rw same (
        ground
          (arith, has_event-append (w.pending e.thread) e x, rw (← ==→eq e.thread t same) at i))
    | inr other ↦ rw other i
  ]

  has_itself : has_event ((add_pending_sync_event w e e.thread).pending e.thread) e ≡ true
  unfolding add_pending_sync_event
  has_itself =
      rw (assign_self w.pending e.thread (w.pending e.thread ++ e ∷ []))
        (ground (arith, has_event-append (w.pending e.thread) e e, same_event_refl e))

  distinct_after : (t : ℕ) → DistinctEvents ((add_pending_sync_event w e e.thread).pending t)
  unfolding add_pending_sync_event
  distinct_after t = elim (Bool-cases (e.thread == t)) [
    | inl same ↦ rw same (
        DistinctEvents-append (w.pending e.thread) e (inv.distinct e.thread) (not_pending e.thread))
    | inr other ↦ rw other (inv.distinct t)
  ]

  none_pending :
      (t : ℕ) (x : EventPtr)
      → iter w e.thread < e.place
      → x.thread ≡ t
      → x.place ≡ iter w t
      → has_event (w.pending t) x ≡ false
      → has_event ((add_pending_sync_event w e e.thread).pending t) x ≡ false
  none_pending t x lt et ep out =
      elim (Bool-cases (has_event ((add_pending_sync_event w e e.thread).pending t) x)) [
        | inl i ↦ elim (has_pending t x i) [
          | inl old ↦ absurd (ground (arith, old, out))
          | inr (_, eq) ↦ absurd (omega (arith, rw eq at lt, ep, ap (iter w) et))
        ]
        | inr no_more ↦ no_more
      ]

  waiting_after :
      (t : ℕ) (x : EventPtr)
      → has_event ((add_pending_sync_event w e e.thread).pending t) x ≡ true
      → (u : ℕ) × (j : ℕ) × IsCurrent w u j x
        × (assign ready v true u ≡ true)
        × (x.thread ≡ t)
        × (iter w t ≤ x.place)
  waiting_after t x i = elim (has_pending t x i) [
    | inl old ↦
        let (u, j, c, r, et, le) = inv.waiting t x old in (u, j, c, more_ready ready v u r, et, le)
    | inr (eq, one) ↦
        let et : x.thread ≡ t = sym (ap event_thread one) ∙ eq in
        (
          v,
          k,
          rw one at stands.current,
          assign_self ready v true,
          et,
          rw et at (rw one at stands.waits),
        )
  ]

  signalled_after :
      (u j : ℕ) (x : EventPtr)
      → assign ready v true u ≡ true
      → IsCurrent w u j x
      → iter w x.thread ≤ x.place
      → (has_event ((add_pending_sync_event w e e.thread).pending x.thread) x ≡ true)
        ⊎ ((x.place ≡ iter w x.thread) × (0 < w.sema x.thread))
  signalled_after u j x r =
      ready_elim
        (λ u.
          IsCurrent w u j x
          → iter w x.thread ≤ x.place
          → (has_event ((add_pending_sync_event w e e.thread).pending x.thread) x ≡ true)
            ⊎ ((x.place ≡ iter w x.thread) × (0 < w.sema x.thread)))
        ready v (λ c le. inl (rw (← current_unique w v k j e x stands.current c) has_itself))
        (λ u r c le. elim (inv.signalled u j x r c le) [
          | inl i ↦ inl (has_more x.thread x i)
          | inr up ↦ inr up
        ])
        u r

  -- The event is kept for a thread that has others to pass before it.
  Inv-pending :
      iter w e.thread < e.place → Inv (assign ready v true) (add_pending_sync_event w e e.thread)
  unfolding add_pending_sync_event
  Inv-pending lt = record {
    at_most_one = inv.at_most_one;
    granted = λ t h.
        let (u, j, x, c, r, et, ep, out) = inv.granted t h in
        (u, j, x, c, more_ready ready v u r, et, ep, none_pending t x lt et ep out);
    waiting = λ t x i. waiting_after t x i;
    distinct = distinct_after;
    before = earlier;
    after = later;
    over = never_over;
    signalled = λ u j x r c le. signalled_after u j x r c le;
  }

  load_event-ok : load_event w e ≡ ok (record { thread = e.thread; eventlist = v; ret = 0 })
  unfolding load_event
  load_event-ok = rw (load_event, rec.stored v k e stands.current.1) refl

  next_event : is_thread_next_event w e e.thread ≡ (e.place == iter w e.thread)
  unfolding is_thread_next_event first_iter_entry
  next_event = rw (eq→== e.thread e.thread refl) refl

  -- `signalNextThread` of the event at which a list stands makes the list a prepared one.
  pub signal_next_thread-Inv :
      (w' : World) × (signal_next_thread w e ≡ ok w')
      × Inv (assign ready v true) w'
      × SameRecording w w'
      × ((t : ℕ) → iter w' t ≡ iter w t)
  unfolding signal_next_thread signal_thread add_pending_sync_event
  signal_next_thread-Inv = elim (Bool-cases (e.place == iter w e.thread)) [
    | inl next ↦ (
      signal_thread w e.thread,
      rw (load_event-ok, next_event, next) refl,
      Inv-signal (==→eq _ _ next),
      record { list = λ u. refl; start = λ t. refl; cur = λ t. refl },
      λ t. refl,
    )
    | inr behind ↦ (
      add_pending_sync_event w e e.thread,
      rw (load_event-ok, next_event, behind) refl,
      Inv-pending (ground (arith, behind, stands.waits)),
      record { list = λ u. refl; start = λ t. refl; cur = λ t. refl },
      λ t. refl,
    )
  ]
