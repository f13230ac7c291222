-- ===== src/Sync/Inv.antt =====
-- What holds of a replay between two steps: include/xsync.hh.
use double_take.Prelude.{ℕ, ◌≤◌, ◌<◌, ◌≡◌, ◌⊎◌, Bool, true, false, none, some, get_elem?}
use double_take.Sync.{EventPtr, World}
use double_take.Sync.Events.{has_event, DistinctEvents}

abbrev pub iter : World → ℕ → ℕ
iter w t = (w.syncevents t).iter

-- The thread of the event has passed it.
abbrev pub Passed : World → EventPtr → Type 0
Passed w e = e.place < iter w e.thread

abbrev pub At : World → ℕ → ℕ → EventPtr → Type 0
At w v k e = get_elem? (w.list v) k ≡ some e

abbrev pub IsCurrent : World → ℕ → ℕ → EventPtr → Type 0
IsCurrent w v k e = (w.curentry v ≡ some k) × At w v k e

-- What was recorded, with the time of each event: each event of a list is in the pool of its thread,
-- as one of this list that succeeded, and in no other list or place; each event of a pool is in a
-- list; and lists and pools are in the order of time.
pub record IsRecorded (time : EventPtr → ℕ) (w : World) : Type 0 where
  pub stored :
      (v k : ℕ) (e : EventPtr)
      → At w v k e
      → get_elem? (w.syncevents e.thread).start e.place
        ≡ some (record { thread = e.thread; eventlist = v; ret = 0 })
  pub used : (v k : ℕ) (e : EventPtr) → At w v k e → e.place < (w.syncevents e.thread).cur
  pub unique : (v v' j k : ℕ) (e : EventPtr) → At w v j e → At w v' k e → (v ≡ v') × (j ≡ k)
  pub listed :
      (t i : ℕ)
      → i < (w.syncevents t).cur
      → (v : ℕ) × (k : ℕ) × At w v k (record { thread = t; place = i })
  pub list_order : (v j k : ℕ) (e x : EventPtr) → At w v j e → At w v k x → j < k → time e < time x
  pub pool_order :
      (t i j : ℕ)
      → i < j
      → j < (w.syncevents t).cur
      → time (record { thread = t; place = i }) < time (record { thread = t; place = j })

-- No step of a replay changes what was recorded.
pub record SameRecording (w w' : World) : Type 0 where
  pub list : (v : ℕ) → w'.list v ≡ w.list v
  pub start : (t : ℕ) → (w'.syncevents t).start ≡ (w.syncevents t).start
  pub cur : (t : ℕ) → (w'.syncevents t).cur ≡ (w.syncevents t).cur

pub IsRecorded-same :
    (time : EventPtr → ℕ) (w w' : World)
    → SameRecording w w'
    → IsRecorded time w
    → IsRecorded time w'
IsRecorded-same time w w' same rec = record {
  stored = λ v k e at. rw (same.start e.thread) (rec.stored v k e (rw (same.list v) at at));
  used = λ v k e at. rw (same.cur e.thread) (rec.used v k e (rw (same.list v) at at));
  unique = λ v v' j k e at at'.
      rec.unique v v' j k e (rw (same.list v) at at) (rw (same.list v') at at');
  listed = λ t i lt.
      let (v, k, at) = rec.listed t i (rw (same.cur t) at lt) in (v, k, rw (same.list v) at);
  list_order = λ v j k e x at at'.
      rec.list_order v j k e x (rw (same.list v) at at) (rw (same.list v) at at');
  pool_order = λ t i j lt lt'. rec.pool_order t i j lt (rw (same.cur t) at lt');
}

-- The lists in `ready` were prepared. A semaphore is up only for the thread whose next event is the
-- current one of its list; the current event of each list, if it is not passed, was signalled or is
-- pending; and the events of a list are passed in their order.
pub record Inv (ready : ℕ → Bool) (w : World) : Type 0 where
  pub at_most_one : (t : ℕ) → w.sema t ≤ 1
  pub granted :
      (t : ℕ)
      → 0 < w.sema t
      → (v : ℕ) × (k : ℕ) × (e : EventPtr) × IsCurrent w v k e
        × (ready v ≡ true)
        × (e.thread ≡ t)
        × (e.place ≡ iter w t)
        × (has_event (w.pending t) e ≡ false)
  pub waiting :
      (t : ℕ) (e : EventPtr)
      → has_event (w.pending t) e ≡ true
      → (v : ℕ) × (k : ℕ) × IsCurrent w v k e
        × (ready v ≡ true)
        × (e.thread ≡ t)
        × (iter w t ≤ e.place)
  pub distinct : (t : ℕ) → DistinctEvents (w.pending t)
  pub before :
      (v k j : ℕ) (e : EventPtr)
      → ready v ≡ true
      → w.curentry v ≡ some k
      → j < k
      → At w v j e
      → Passed w e
  pub after :
      (v k j : ℕ) (e : EventPtr)
      → ready v ≡ true
      → w.curentry v ≡ some k
      → k < j
      → At w v j e
      → iter w e.thread ≤ e.place
  pub over :
      (v j : ℕ) (e : EventPtr) → ready v ≡ true → w.curentry v ≡ none → At w v j e → Passed w e
  pub signalled :
      (v k : ℕ) (e : EventPtr)
      → ready v ≡ true
      → IsCurrent w v k e
      → iter w e.thread ≤ e.place
      → (has_event (w.pending e.thread) e ≡ true)
        ⊎ ((e.place ≡ iter w e.thread) × (0 < w.sema e.thread))
