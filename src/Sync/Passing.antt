-- ===== src/Sync/Passing.antt =====
-- A lock in the replay: peekSyncEvent, waitSemaphore and advanceThreadSyncList of include/xsync.hh
-- and include/xthread.hh.
use double_take.Prelude.{
  ℕ, ◌+◌, ◌-◌, ◌≤◌, ◌<◌, ◌≡◌, ◌≢◌, ◌⊎◌, inl, inr, refl, sym, ap, ◌∙◌, Bool, true, false, some, ◌==◌,
  if◌then◌else◌, lt→ltb, ==→eq, eq→==, Bool-cases, arith,
}
use double_take.RecordEntries.{advance_entry}
use double_take.Sync.{EventPtr, World, assign, advance_thread_sync_list, wait_semaphore, pass_lock}
use double_take.Sync.Events.{has_event, event_ext}
use double_take.Sync.Inv.{iter, Passed, At, IsCurrent, IsRecorded, SameRecording, Inv}
use double_take.Sync.Order.{some_inj}
use double_take.Sync.Peeking.{next}

module _ (time : EventPtr → ℕ) (ready : ℕ → Bool) (w : World) (t v k : ℕ) (rec : IsRecorded time w)
    (inv : Inv ready w) (at : At w v k (next w t)) where
  -- The world after the semaphore was taken and the thread went on.
  passed_on : World
  passed_on = record w {
    sema = assign w.sema t (w.sema t - 1);
    syncevents = assign w.syncevents t (advance_entry (w.syncevents t));
  }

  iter_passed : (u : ℕ) → iter passed_on u ≡ (if t == u then iter w t + 1 else iter w u)
  unfolding passed_on advance_entry
  iter_passed u = ground arith

  still-Passed : (x : EventPtr) → Passed w x → Passed passed_on x
  still-Passed x lt = elim (Bool-cases (t == x.thread)) [
    | inl same ↦
        rw (iter_passed x.thread, same) (omega (arith, lt, ap (iter w) (==→eq t x.thread same)))
    | inr other ↦ rw (iter_passed x.thread, other) lt
  ]

  -- The thread has passed its next event and no other.
  still_ahead :
      (x : EventPtr) → iter w x.thread ≤ x.place → x ≢ next w t → iter passed_on x.thread ≤ x.place
  still_ahead x le ne = elim (Bool-cases (t == x.thread)) [
    | inr other ↦ rw (iter_passed x.thread, other) le
    | inl same ↦ elim (Bool-cases (x.place == iter w t)) [
      | inl one ↦ absurd (ne (event_ext x (next w t) (sym (==→eq t x.thread same)) (==→eq _ _ one)))
      | inr more ↦
          rw (iter_passed x.thread, same)
            (ground (arith, more, le, ap (iter w) (==→eq t x.thread same)))
    ]
  ]

  iter_mono : (u : ℕ) → iter w u ≤ iter passed_on u
  iter_mono u = elim (Bool-cases (t == u)) [
    | inl same ↦ rw (iter_passed u, same) (omega (arith, ap (iter w) (==→eq t u same)))
    | inr other ↦ rw (iter_passed u, other) (omega arith)
  ]

  iter_other : (u : ℕ) → (t == u) ≡ false → iter passed_on u ≡ iter w u
  iter_other u other = rw (iter_passed u, other) refl

  same_recording : SameRecording w passed_on
  unfolding passed_on advance_entry
  same_recording = record {
    list = λ u. refl;
    start = λ u. elim (Bool-cases (t == u)) [
      | inl same ↦ rw same (ap (λ a. (w.syncevents a).start) (==→eq t u same))
      | inr other ↦ rw other refl
    ];
    cur = λ u. elim (Bool-cases (t == u)) [
      | inl same ↦ rw same (ap (λ a. (w.syncevents a).cur) (==→eq t u same))
      | inr other ↦ rw other refl
    ];
  }

  there_at_next :
      (u : ℕ) (x : EventPtr)
      → x.thread ≡ u
      → x ≡ next w t
      → has_event (w.pending u) x ≡ true
      → has_event (w.pending t) (next w t) ≡ true
  there_at_next u x et eq there =
      let same : u ≡ t = sym et ∙ ap (λ e. e.thread) eq in
      sym (ap (λ a. has_event (w.pending a) (next w t)) same)
      ∙ sym (ap (has_event (w.pending u)) eq)
      ∙ there

  module _ (up : 0 < w.sema t) where
    -- The semaphore is for the next event.
    next-IsCurrent :
        (u : ℕ) × (j : ℕ) × IsCurrent w u j (next w t)
        × (ready u ≡ true)
        × (has_event (w.pending t) (next w t) ≡ false)
    next-IsCurrent =
        let (u, j, x, (c, a), r, et, ep, out) = inv.granted t up in
        let eq = event_ext x (next w t) et ep in (u, j, (c, rw eq at a), r, rw eq at out)

    granted_other :
        (u : ℕ)
        → 0 < passed_on.sema u
        → (i : ℕ) × (j : ℕ) × (x : EventPtr) × IsCurrent w i j x
          × (ready i ≡ true)
          × (x.thread ≡ u)
          × (x.place ≡ iter passed_on u)
          × (has_event (w.pending u) x ≡ false)
    unfolding passed_on
    granted_other u h = elim (Bool-cases (t == u)) [
      | inl same ↦ absurd (omega (arith, rw same at h, inv.at_most_one t))
      | inr other ↦
          let (i, j, x, c, r, et, ep, out) = inv.granted u (rw other at h) in
          (i, j, x, c, r, et, ep ∙ sym (iter_other u other), out)
    ]

    waiting_other :
        (u : ℕ) (x : EventPtr)
        → has_event (w.pending u) x ≡ true
        → (i : ℕ) × (j : ℕ) × IsCurrent w i j x
          × (ready i ≡ true)
          × (x.thread ≡ u)
          × (iter passed_on u ≤ x.place)
    waiting_other u x there =
        let (i, j, c, r, et, le) = inv.waiting u x there in
        let (_, _, _, _, out) = next-IsCurrent in
        (
          i,
          j,
          c,
          r,
          et,
          rw et at (
              still_ahead x (rw (← et) at le)
                (λ eq. absurd (cc (there_at_next u x et eq there, out)))),
        )

    ahead :
        (u i j : ℕ) (x : EventPtr)
        → ready u ≡ true
        → w.curentry u ≡ some i
        → i < j
        → At w u j x
        → iter passed_on x.thread ≤ x.place
    ahead u i j x r c lt a =
        let (u', j', (c', a'), _, _) = next-IsCurrent in
        still_ahead x (inv.after u i j x r c lt a) (λ eq.
          let (same_list, same_place) = rec.unique u u' j j' (next w t) (rw eq at a) a' in
          absurd
            (omega (arith, lt, same_place, some_inj i j' (sym c ∙ ap w.curentry same_list ∙ c'))))

    signalled_other :
        (x : EventPtr)
        → (has_event (w.pending x.thread) x ≡ true)
          ⊎ ((x.place ≡ iter w x.thread) × (0 < w.sema x.thread))
        → iter passed_on x.thread ≤ x.place
        → (has_event (w.pending x.thread) x ≡ true)
          ⊎ ((x.place ≡ iter passed_on x.thread) × (0 < passed_on.sema x.thread))
    unfolding passed_on
    signalled_other x (inl i) le = inl i
    signalled_other x (inr (ep, high)) le = elim (Bool-cases (t == x.thread)) [
      | inl same ↦ absurd (
          omega
            (arith, ep, ap (iter w) (==→eq t x.thread same), rw (iter_passed x.thread, same) at le))
      | inr other ↦ inr (ep ∙ sym (iter_other x.thread other), rw other high)
    ]

    Inv-passed_on : Inv ready passed_on
    unfolding passed_on
    Inv-passed_on = record {
      at_most_one = λ u. ground (arith, inv.at_most_one u, inv.at_most_one t);
      granted = granted_other;
      waiting = waiting_other;
      distinct = inv.distinct;
      before = λ u i j x r c lt a. still-Passed x (inv.before u i j x r c lt a);
      after = ahead;
      over = λ u j x r c a. still-Passed x (inv.over u j x r c a);
      signalled = λ u j x r c le.
          signalled_other x (inv.signalled u j x r c (omega (arith, iter_mono x.thread, le))) le;
    }

    pass_lock-passed_on : pass_lock w t ≡ some passed_on
    unfolding pass_lock wait_semaphore advance_thread_sync_list passed_on
    pass_lock-passed_on = rw (pass_lock, wait_semaphore, lt→ltb _ _ up) refl

    -- With its semaphore up the thread is not blocked, passes its next event, which is the current
    -- one of its list, and the invariant is kept.
    pub pass_lock-Inv :
        (w' : World) × (pass_lock w t ≡ some w')
        × Inv ready w'
        × SameRecording w w'
        × (iter w' t ≡ iter w t + 1)
        × ((u : ℕ) × (j : ℕ) × IsCurrent w u j (next w t))
    unfolding passed_on
    pass_lock-Inv =
        let (u, j, c, r, out) = next-IsCurrent in
        (
          passed_on,
          pass_lock-passed_on,
          Inv-passed_on,
          same_recording,
          rw (iter_passed t, eq→== t t refl) refl,
          (u, j, c),
        )
