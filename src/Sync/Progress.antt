-- ===== src/Sync/Progress.antt =====
-- The replay as steps of the threads: each list is passed in the order of its recording, and the
-- replay does not get stuck. include/xsync.hh, mutex_lock and mutex_unlock of include/xthread.hh.
use double_take.Prelude.{
  ℕ, zero, suc, ◌≤◌, ◌<◌, ◌≡◌, inl, inr, refl, sym, ap, ◌∙◌, Bool, true, false, some, List,
  get_elem?, ltb, ltb→lt, ltb→le, Bool-cases, Option-cases, arith, ok,
}
use double_take.Sync.{EventPtr, World, peek_sync_event, pass_lock, mutex_unlock, prepare_rollback}
use double_take.Sync.Events.{event_ext}
use double_take.Sync.Inv.{
  iter, Passed, At, IsCurrent, IsRecorded, SameRecording, Inv, IsRecorded-same,
}
use double_take.Sync.Steps.{
  mutex_unlock-Inv, SameRecording-trans, SameRecording-refl, get_elem?_inside, get_elem?-some-lt,
}
use double_take.Sync.Prepare.{prepared, AllIdle, IsFresh, Inv-fresh, prepare_rollback-Inv}
use double_take.Sync.Passing.{pass_lock-Inv}
use double_take.Sync.Peeking.{next, peek_sync_event-Inv}

-- A thread comes to the lock of its next event; one whose semaphore is up passes its lock; one that
-- has passed the current event of a list unlocks.
pub data Step (w : World) (w' : World) : Type 0 where
  arrive : (t v k : ℕ) → At w v k (next w t) → peek_sync_event w t v ≡ ok (0, w') → Step w w'
  pass : (t v k : ℕ) → At w v k (next w t) → 0 < w.sema t → pass_lock w t ≡ some w' → Step w w'
  unlock :
      (v k : ℕ) (e : EventPtr)
      → IsCurrent w v k e
      → Passed w e
      → mutex_unlock w v ≡ ok w'
      → Step w w'

pub data Reach (s : World) : World → Type 0 where
  here : Reach s s
  more : {w w' : World} → Reach s w → Step w w' → Reach s w'

ok_inj : {A : Type 0} (a b : A) → ok a ≡ ok b → a ≡ b
ok_inj a b h = cc

some_inj : {A : Type 0} (a b : A) → some a ≡ some b → a ≡ b
some_inj a b h = cc

-- What a reachable state keeps of the state `s` from which it is reached.
pub record Good (time : EventPtr → ℕ) (ready : ℕ → Bool) (s w : World) : Type 0 where
  pub recorded : IsRecorded time w
  pub inv : Inv ready w
  pub same : SameRecording s w
  pub covered : (v k : ℕ) (e : EventPtr) → At w v k e → ready v ≡ true

module _ (time : EventPtr → ℕ) (ready : ℕ → Bool) (s w : World) where
  Good-next :
      (w1 w' : World)
      → Good time ready s w
      → Inv ready w1
      → SameRecording w w1
      → w1 ≡ w'
      → Good time ready s w'
  Good-next w1 w' g inv same eq = rw (← eq) (record {
    recorded = IsRecorded-same time w w1 same g.recorded;
    inv = inv;
    same = SameRecording-trans g.same same;
    covered = λ v k e at. g.covered v k e (rw (same.list v) at at);
  })

  Step-Good : (w' : World) → Good time ready s w → Step w w' → Good time ready s w'
  Step-Good w' g (arrive t v k at eq) =
      let (w1, eq1, inv1, same1, iters, currents, gone) =
        peek_sync_event-Inv time ready w t v k g.recorded g.inv at in
      Good-next w1 w' g inv1 same1 (ap (λ p. p.1) (ok_inj (0, w1) (0, w') (sym eq1 ∙ eq)))
  Step-Good w' g (pass t v k at up eq) =
      let (w1, eq1, inv1, same1, iters, c) =
        pass_lock-Inv time ready w t v k g.recorded g.inv at up in
      Good-next w1 w' g inv1 same1 (some_inj w1 w' (sym eq1 ∙ eq))
  Step-Good w' g (unlock v k e cur passed eq) =
      let (w1, eq1, inv1, same1) =
        mutex_unlock-Inv time ready w v k e g.recorded g.inv (g.covered v k e cur.1) cur passed in
      Good-next w1 w' g inv1 same1 (ok_inj w1 w' (sym eq1 ∙ eq))

Reach-Good :
    (time : EventPtr → ℕ) (ready : ℕ → Bool) (s w : World)
    → Good time ready s s
    → Reach s w
    → Good time ready s w
Reach-Good time ready s w g here = g
Reach-Good time ready s w g (more {w = u} r step) =
    Step-Good time ready s u w (Reach-Good time ready s u g r) step

-- What a thread needs to pass a lock: its next event is one of a list, and the look at it and the
-- wait for the semaphore both end.
abbrev pub CanLock : World → ℕ → Type 0
CanLock w t =
    (v : ℕ) × (k : ℕ) × At w v k (next w t)
    × ((w1 : World) × (peek_sync_event w t v ≡ ok (0, w1))
        × ((w2 : World) × (pass_lock w1 t ≡ some w2)))

-- Every event of a list is passed.
abbrev pub AllPassed : World → Type 0
AllPassed w = (v k : ℕ) (e : EventPtr) → At w v k e → Passed w e

-- No list stands at an event that its thread has passed: no lock is held.
abbrev pub NoneHeld : World → Type 0
NoneHeld w = (v k : ℕ) (e : EventPtr) → IsCurrent w v k e → iter w e.thread ≤ e.place

module _ (time : EventPtr → ℕ) (ready : ℕ → Bool) (s w : World) (good : Good time ready s w) where
  At-now :
      (v k t : ℕ) (w1 : World)
      → SameRecording w w1
      → ((u : ℕ) → iter w1 u ≡ iter w u)
      → At w v k (next w t)
      → At w1 v k (next w1 t)
  At-now v k t w1 same iters at =
      ap (λ l. get_elem? l k) (same.list v)
      ∙ at
      ∙ ap some (event_ext (next w t) (next w1 t) refl (sym (iters t)))

  -- The thread of a current event that is its next one gets the lock.
  current_can : (v k t : ℕ) → IsCurrent w v k (next w t) → CanLock w t
  current_can v k t (c, at) =
      let (w1, eq1, inv1, same1, iters, currents, gone) =
        peek_sync_event-Inv time ready w t v k good.recorded good.inv at in
      let up : 0 < w1.sema t =
        elim (inv1.signalled v k (next w t) (good.covered v k (next w t) at)
          (currents v ∙ c, rw (same1.list v) at) (omega (arith, iters t))) [
            | inl i ↦ absurd (cc (i, gone))
            | inr (ep, high) ↦ high
          ] in
      let (w2, eq2, inv2, same2, iters2, c2) =
        pass_lock-Inv time ready w1 t v k (IsRecorded-same time w w1 same1 good.recorded) inv1
          (At-now v k t w1 same1 iters at) up in
      (v, k, at, (w1, eq1, (w2, eq2)))

  module _ (released : NoneHeld w) where
    -- From an event that is not passed, in time back to one that can be.
    search :
        (n v k : ℕ) (e : EventPtr)
        → At w v k e
        → iter w e.thread ≤ e.place
        → time e < n
        → (t : ℕ) × CanLock w t
    search zero v k e at le lt = absurd (omega (arith, lt))
    search (suc n) v k e at le lt = elim (Bool-cases (ltb (iter w e.thread) e.place)) [
      | inl behind ↦
          let less = ltb→lt _ _ behind in
          let inside = good.recorded.used v k e at in
          let (u, j, there) =
            good.recorded.listed e.thread (iter w e.thread) (omega (arith, less, inside)) in
          let sooner = good.recorded.pool_order e.thread (iter w e.thread) e.place less inside in
          search n u j (next w e.thread) there (omega arith) (omega (arith, sooner, lt))
      | inr not_behind ↦
          let is_next =
            event_ext e (next w e.thread) refl (omega (arith, le, ltb→le _ _ not_behind)) in
          elim (Option-cases (w.curentry v)) [
            | inl at_end ↦
                absurd (omega (arith, le, good.inv.over v k e (good.covered v k e at) at_end at))
            | inr (i, c) ↦ elim (Bool-cases (ltb i k)) [
              | inl sooner ↦
                  let less = ltb→lt _ _ sooner in
                  let (x, there) =
                    get_elem?_inside (w.list v) i
                      (omega (arith, less, get_elem?-some-lt (w.list v) k e at)) in
                  search n v i x there (released v i x (c, there))
                    (omega (arith, good.recorded.list_order v i k x e there at less, lt))
              | inr not_sooner ↦ elim (Bool-cases (ltb k i)) [
                | inl passed ↦ absurd (
                    omega (
                      arith,
                      le,
                      good.inv.before v i k e (good.covered v k e at) c (ltb→lt _ _ passed) at,
                    ))
                | inr not_passed ↦
                    let same : i ≡ k =
                      omega (arith, ltb→le _ _ not_sooner, ltb→le _ _ not_passed) in
                    (e.thread, current_can v k e.thread (c ∙ ap some same, at ∙ ap some is_next))
              ]
            ]
          ]
    ]

  -- The order of a list, from its current entry.
  order_from :
      (v j k : ℕ) (e x : EventPtr) → j < k → At w v j e → At w v k x → Passed w x → Passed w e
  order_from v j k e x lt ae ax passed = elim (Option-cases (w.curentry v)) [
    | inl at_end ↦ good.inv.over v j e (good.covered v j e ae) at_end ae
    | inr (i, c) ↦ elim (Bool-cases (ltb j i)) [
      | inl sooner ↦ good.inv.before v i j e (good.covered v j e ae) c (ltb→lt _ _ sooner) ae
      | inr not_sooner ↦ absurd (
          omega (
            arith,
            passed,
            good.inv.after v i k x (good.covered v k x ax) c
                (omega (arith, ltb→le _ _ not_sooner, lt)) ax,
          ))
    ]
  ]

-- The state before a replay: a recording, threads at their first events, and the lists of all events
-- among the active ones, each of which is there once.
pub record IsBeforeReplay (time : EventPtr → ℕ) (w : World) (vs : List ℕ) : Type 0 where
  pub recorded : IsRecorded time w
  pub fresh : IsFresh w
  pub idle : AllIdle (λ v. false) vs
  pub covered : (v k : ℕ) (e : EventPtr) → At w v k e → prepared (λ v. false) vs v ≡ true

module _ (time : EventPtr → ℕ) (w w0 u : World) (vs : List ℕ) (start : IsBeforeReplay time w vs)
    (begun : prepare_rollback w vs ≡ ok w0) (reach : Reach w0 u) where
  reached : Good time (prepared (λ v. false) vs) w0 u
  reached =
      let (w1, eq, inv, same) =
        prepare_rollback-Inv time vs (λ v. false) w start.recorded (Inv-fresh w start.fresh)
          start.idle start.fresh.at_start in
      let good : Good time (prepared (λ v. false) vs) w1 w1 = record {
        recorded = IsRecorded-same time w w1 same start.recorded;
        inv = inv;
        same = SameRecording-refl w1;
        covered = λ v k e at. start.covered v k e (rw (same.list v) at at);
      } in
      Reach-Good time (prepared (λ v. false) vs) w0 u (rw (ok_inj w1 w0 (sym eq ∙ begun)) at good)
        reach

  -- In a replay that `prepareRollback` started, from a recording of locks that were taken, with the
  -- threads at their first events and each list that has events among the active ones, whatever the
  -- threads have done since, by passing locks and unlocking: an event is passed only after all events
  -- before it in the list of its synchronization variable. Each variable is locked in the order that
  -- was recorded.
  pub Passed-in_order :
      (v j k : ℕ) (e x : EventPtr) → j < k → At u v j e → At u v k x → Passed u x → Passed u e
  Passed-in_order = order_from time (prepared (λ v. false) vs) w0 u reached

  -- In such a replay, at a time when no lock is held and some event has not been passed, there is a
  -- thread whose next lock ends: its look at its next event succeeds and its semaphore is up. The
  -- replay does not get stuck.
  pub some_thread-CanLock :
      NoneHeld u
      → (v k : ℕ) (e : EventPtr) → At u v k e
      → iter u e.thread ≤ e.place
      → (t : ℕ) × CanLock u t
  some_thread-CanLock released v k e at le =
      search time (prepared (λ v. false) vs) w0 u reached released (suc (time e)) v k e at le
        (omega arith)
