-- ===== src/Sync/Peeking.antt =====
-- A thread looks at its next event: peekSyncEvent of include/xsync.hh.
use double_take.Prelude.{
  ℕ, ◌<◌, ◌≡◌, ◌⊎◌, inl, inr, refl, sym, ap, ◌∙◌, Bool, true, false, none, some, List, ◌==◌, lt→ltb,
  ==→eq, eq→==, Bool-cases, arith, ok,
}
use double_take.RecordEntries.{get_entry}
use double_take.Sync.{
  EventPtr, World, assign, same_event, load_event, signal_thread, signal_current_thread,
  peek_sync_event, take_pending,
}
use double_take.Sync.Events.{
  has_event, DistinctEvents, same_event→eq, event_ext, Takes, take_pending-none, take_pending-Takes,
}
use double_take.Sync.Inv.{iter, At, IsCurrent, IsRecorded, SameRecording, Inv}
use double_take.Sync.Order.{assign_self}
use double_take.Sync.Steps.{SameRecording-refl}

-- The next event of a thread.
abbrev pub next : World → ℕ → EventPtr
next w t = record { thread = t; place = iter w t }

signal_current_none :
    (w : World) (e : EventPtr) (t : ℕ)
    → take_pending (w.pending t) e ≡ none
    → signal_current_thread w e t ≡ w
unfolding signal_current_thread
signal_current_none w e t eq = rw (signal_current_thread, eq) refl

signal_current_some :
    (w : World) (e : EventPtr) (t : ℕ) (rest : List EventPtr)
    → take_pending (w.pending t) e ≡ some rest
    → signal_current_thread w e t ≡ signal_thread (record w { pending = assign w.pending t rest }) t
unfolding signal_current_thread
signal_current_some w e t rest eq = rw (signal_current_thread, eq) refl

module _ (ready : ℕ → Bool) (w : World) (t : ℕ) (inv : Inv ready w) where
  -- A thread whose next event is pending has no semaphore.
  pending_no_sema : has_event (w.pending t) (next w t) ≡ true → w.sema t ≡ 0
  pending_no_sema i = elim (Bool-cases (w.sema t == 0)) [
    | inl zero ↦ ==→eq _ _ zero
    | inr up ↦
        let (u, j, x, c, r, et, ep, out) = inv.granted t (ground (arith, up)) in
        absurd (ground (arith, rw (event_ext x (next w t) et ep) at out, i))
  ]

  module _ (rest : List EventPtr) (there : has_event (w.pending t) (next w t) ≡ true)
      (takes : Takes (w.pending t) (next w t) rest) where
    signalled_self : World
    signalled_self = signal_thread (record w { pending = assign w.pending t rest }) t

    granted_self :
        (u : ℕ)
        → 0 < signalled_self.sema u
        → (v : ℕ) × (j : ℕ) × (x : EventPtr) × IsCurrent w v j x
          × (ready v ≡ true)
          × (x.thread ≡ u)
          × (x.place ≡ iter w u)
          × (has_event (signalled_self.pending u) x ≡ false)
    unfolding signalled_self signal_thread
    granted_self u h = elim (Bool-cases (t == u)) [
      | inl same ↦
          let (v, k, c, r, et, le) = inv.waiting t (next w t) there in
          (v, k, next w t, c, r, ==→eq t u same, ap (iter w) (==→eq t u same), rw same takes.gone)
      | inr other ↦
          let (v, j, x, c, r, et, ep, out) = inv.granted u (rw other at h) in
          (v, j, x, c, r, et, ep, rw other out)
    ]

    still_pending :
        (u : ℕ) (x : EventPtr)
        → has_event (signalled_self.pending u) x ≡ true
        → has_event (w.pending u) x ≡ true
    unfolding signalled_self signal_thread
    still_pending u x i = elim (Bool-cases (t == u)) [
      | inl same ↦ rw (← ==→eq t u same) (takes.fewer x (rw same at i))
      | inr other ↦ rw other at i
    ]

    distinct_self : (u : ℕ) → DistinctEvents (signalled_self.pending u)
    unfolding signalled_self signal_thread
    distinct_self u = elim (Bool-cases (t == u)) [
      | inl same ↦ rw same takes.distinct
      | inr other ↦ rw other (inv.distinct u)
    ]

    signalled_still :
        (x : EventPtr)
        → (has_event (w.pending x.thread) x ≡ true)
          ⊎ ((x.place ≡ iter w x.thread) × (0 < w.sema x.thread))
        → (has_event (signalled_self.pending x.thread) x ≡ true)
          ⊎ ((x.place ≡ iter w x.thread) × (0 < signalled_self.sema x.thread))
    unfolding signalled_self signal_thread
    signalled_still x (inr (ep, up)) = inr (ep, ground (arith, up))
    signalled_still x (inl i) = elim (Bool-cases (t == x.thread)) [
      | inr other ↦ inl (rw other i)
      | inl same ↦ elim (Bool-cases (same_event (next w t) x)) [
        | inl one ↦ inr (
          sym (ap (λ e. e.place) (same_event→eq (next w t) x one))
              ∙ ap (iter w) (==→eq t x.thread same),
          rw same (omega arith),
        )
        | inr another ↦ inl (
            rw same (
              takes.others x (ap (λ u. has_event (w.pending u) x) (==→eq t x.thread same) ∙ i)
                another))
      ]
    ]

    Inv-signalled_self : Inv ready signalled_self
    unfolding signalled_self signal_thread
    Inv-signalled_self = record {
      at_most_one = λ u. ground (arith, pending_no_sema there, inv.at_most_one u);
      granted = λ u h. granted_self u h;
      waiting = λ u x i. inv.waiting u x (still_pending u x i);
      distinct = distinct_self;
      before = inv.before;
      after = inv.after;
      over = inv.over;
      signalled = λ u j x r c le. signalled_still x (inv.signalled u j x r c le);
    }

  -- `signalCurrentThread` of the thread's next event.
  Inv-signal_current :
      Inv ready (signal_current_thread w (next w t) t)
      × SameRecording w (signal_current_thread w (next w t) t)
      × ((u : ℕ) → iter (signal_current_thread w (next w t) t) u ≡ iter w u)
      × ((u : ℕ) → (signal_current_thread w (next w t) t).curentry u ≡ w.curentry u)
      × (has_event ((signal_current_thread w (next w t) t).pending t) (next w t) ≡ false)
  unfolding signal_thread signalled_self
  Inv-signal_current = elim (Bool-cases (has_event (w.pending t) (next w t))) [
    | inr out ↦
        rw (signal_current_none w (next w t) t (take_pending-none (w.pending t) (next w t) out))
          (inv, SameRecording-refl w, λ u. refl, λ u. refl, out)
    | inl there ↦
        let (rest, eq, takes) =
          take_pending-Takes (w.pending t) (next w t) (inv.distinct t) there in
        rw (signal_current_some w (next w t) t rest eq) (
          Inv-signalled_self rest there takes,
          record { list = λ u. refl; start = λ u. refl; cur = λ u. refl },
          λ u. refl,
          λ u. refl,
          rw (assign_self w.pending t rest) takes.gone,
        )
  ]

module _ (time : EventPtr → ℕ) (ready : ℕ → Bool) (w : World) (t v k : ℕ) (rec : IsRecorded time w)
    (inv : Inv ready w) (at : At w v k (next w t)) where
  -- `peekSyncEvent` on the list that the thread's next event is in.
  pub peek_sync_event-Inv :
      (w' : World) × (peek_sync_event w t v ≡ ok (0, w'))
      × Inv ready w'
      × SameRecording w w'
      × ((u : ℕ) → iter w' u ≡ iter w u)
      × ((u : ℕ) → w'.curentry u ≡ w.curentry u)
      × (has_event (w'.pending t) (next w t) ≡ false)
  unfolding peek_sync_event get_entry load_event
  peek_sync_event-Inv =
      let (inv', same, iters, currents, gone) = Inv-signal_current ready w t inv in
      (
        signal_current_thread w (next w t) t,
        rw
            (
              peek_sync_event,
              get_entry,
              lt→ltb _ _ (rec.used v k (next w t) at),
              load_event,
              rec.stored v k (next w t) at,
              eq→== t t refl,
              eq→== v v refl,
            )
            refl,
        inv',
        same,
        iters,
        currents,
        gone,
      )
