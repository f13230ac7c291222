-- ===== src/Tests/Replay.antt =====
-- A recording of two locks, and its replay: include/synceventlist.hh, include/xsync.hh.
use double_take.Prelude.{
  ℕ, ◌≡◌, refl, sym, true, false, inl, inr, Option, none, some, List, [], ◌∷◌, ◌==◌, replicate,
  length-replicate, Bool-cases, arith, Outcome, ok,
}
use double_take.RecordEntries.{alloc, first_iter_entry, advance_entry}
use double_take.Sync.{
  SyncEvent, EventPtr, World, load_event, record_sync_event, advance_sync_event,
  prepare_list_rollback, signal_thread, is_thread_next_event, signal_next_thread,
  advance_thread_sync_list, signal_event, prepare_event_list_rollback, prepare_rollback,
  wait_semaphore, pass_lock, mutex_unlock,
}
use double_take.Sync.Inv.{At, Passed, IsRecorded}
use double_take.Sync.Prepare.{prepared, IsFresh}
use double_take.Sync.Recording.{
  record_sync_events, IsClean, events_of, count_of, record_sync_events-IsRecorded,
}
use double_take.Sync.Progress.{
  Step, pass, unlock, Reach, here, more, IsBeforeReplay, NoneHeld, CanLock, Passed-in_order,
  some_thread-CanLock,
}

abbrev no_event : SyncEvent
no_event = record { thread = 0; eventlist = 0; ret = 0 }

abbrev clean : World
clean = record {
  syncevents =
      λ t. record { start = replicate 2 no_event; total = 2; cur = 0; size = 4096; iter = 0 };
  pending = λ t. [];
  sema = λ t. 0;
  list = λ v. [];
  curentry = λ v. none;
}

clean-IsClean : IsClean 2 clean
clean-IsClean = record {
  fresh = record { no_sema = λ t. refl; no_pending = λ t. refl; at_start = λ t. refl };
  no_events = λ v. refl;
  none_used = λ t. refl;
  backed = λ t. omega (arith, length-replicate 2 no_event);
  room = λ t. omega arith;
}

-- Thread 1 takes the lock 7, then thread 2.
abbrev locks : List (ℕ × ℕ)
locks = (1, 7) ∷ (2, 7) ∷ []

record_sync_events-IsRecorded_example :
    (time : EventPtr → ℕ) × (w : World) × (record_sync_events clean locks ≡ ok w)
    × IsRecorded time w
    × IsFresh w
    × ((v : ℕ) → w.list v ≡ events_of (λ t. 0) v locks)
    × ((t : ℕ) → (w.syncevents t).cur ≡ count_of t locks)
record_sync_events-IsRecorded_example = record_sync_events-IsRecorded clean locks clean-IsClean

abbrev from_some : World → Option World → World
from_some w (some u) = u
from_some w none = w

abbrev result : World → Outcome World → World
result w (ok u) = u
result w _ = w

abbrev recorded : World
unfolding record_sync_events record_sync_event alloc
recorded = result clean (record_sync_events clean locks)

abbrev begun : World
unfolding prepare_rollback prepare_event_list_rollback prepare_list_rollback signal_event
    signal_next_thread load_event is_thread_next_event signal_thread first_iter_entry
begun = result recorded (prepare_rollback recorded (7 ∷ []))

-- Thread 1 has passed its lock, then released it, then thread 2 has passed.
abbrev held : World
unfolding pass_lock wait_semaphore advance_thread_sync_list advance_entry
held = from_some begun (pass_lock begun 1)

abbrev released : World
unfolding mutex_unlock advance_sync_event signal_event signal_next_thread load_event
    is_thread_next_event signal_thread first_iter_entry
released = result held (mutex_unlock held 7)

abbrev passed : World
unfolding pass_lock wait_semaphore advance_thread_sync_list advance_entry
passed = from_some released (pass_lock released 2)

ok_inj : (u w : World) → ok u ≡ ok w → u ≡ w
ok_inj u w h = cc

recorded-IsRecorded : (time : EventPtr → ℕ) × IsRecorded time recorded × IsFresh recorded
unfolding record_sync_events record_sync_event alloc
recorded-IsRecorded =
    let (time, w, eq, rec, fresh, lists, counts) =
      record_sync_events-IsRecorded clean locks clean-IsClean in
    let same : w ≡ recorded = ok_inj w recorded (sym eq) in (time, rw same at rec, rw same at fresh)

only_list : (v k : ℕ) (e : EventPtr) → At recorded v k e → prepared (λ u. false) (7 ∷ []) v ≡ true
unfolding record_sync_events record_sync_event alloc prepared
only_list v k e at = elim (Bool-cases (7 == v)) [
  | inl is ↦ rw is refl
  | inr other ↦ absurd (cc (rw other at at))
]

recorded-IsBeforeReplay : IsBeforeReplay recorded-IsRecorded.0 recorded (7 ∷ [])
recorded-IsBeforeReplay = record {
  recorded = recorded-IsRecorded.1;
  fresh = recorded-IsRecorded.2;
  idle = (refl, refl);
  covered = only_list;
}

begins : prepare_rollback recorded (7 ∷ []) ≡ ok begun
unfolding prepare_rollback prepare_event_list_rollback prepare_list_rollback signal_event
    signal_next_thread load_event is_thread_next_event signal_thread first_iter_entry
    record_sync_events record_sync_event alloc
begins = refl

up_held : begun.sema 1 ≡ 1
unfolding prepare_rollback prepare_event_list_rollback prepare_list_rollback signal_event
    signal_next_thread load_event is_thread_next_event signal_thread first_iter_entry
    record_sync_events record_sync_event alloc
up_held = refl

to_held : Step begun held
unfolding prepare_rollback prepare_event_list_rollback prepare_list_rollback signal_event
    signal_next_thread load_event is_thread_next_event signal_thread first_iter_entry
    record_sync_events record_sync_event alloc pass_lock wait_semaphore advance_thread_sync_list
    advance_entry
to_held = pass 1 7 0 refl (omega (arith, up_held)) refl

to_released : Step held released
unfolding prepare_rollback prepare_event_list_rollback prepare_list_rollback signal_event
    signal_next_thread load_event is_thread_next_event signal_thread first_iter_entry
    record_sync_events record_sync_event alloc pass_lock wait_semaphore advance_thread_sync_list
    advance_entry mutex_unlock advance_sync_event
to_released = unlock 7 0 (record { thread = 1; place = 0 }) (refl, refl) (omega arith) refl

up_passed : released.sema 2 ≡ 1
unfolding prepare_rollback prepare_event_list_rollback prepare_list_rollback signal_event
    signal_next_thread load_event is_thread_next_event signal_thread first_iter_entry
    record_sync_events record_sync_event alloc pass_lock wait_semaphore advance_thread_sync_list
    advance_entry mutex_unlock advance_sync_event
up_passed = refl

to_passed : Step released passed
unfolding prepare_rollback prepare_event_list_rollback prepare_list_rollback signal_event
    signal_next_thread load_event is_thread_next_event signal_thread first_iter_entry
    record_sync_events record_sync_event alloc pass_lock wait_semaphore advance_thread_sync_list
    advance_entry mutex_unlock advance_sync_event
to_passed = pass 2 7 1 refl (omega (arith, up_passed)) refl

passed-Reach : Reach begun passed
passed-Reach = more (more (more here to_held) to_released) to_passed

Passed-in_order_example : Passed passed (record { thread = 1; place = 0 })
unfolding prepare_rollback prepare_event_list_rollback prepare_list_rollback signal_event
    signal_next_thread load_event is_thread_next_event signal_thread first_iter_entry
    record_sync_events record_sync_event alloc pass_lock wait_semaphore advance_thread_sync_list
    advance_entry mutex_unlock advance_sync_event
Passed-in_order_example =
    Passed-in_order recorded-IsRecorded.0 recorded begun passed (7 ∷ []) recorded-IsBeforeReplay
      begins passed-Reach 7 0 1 (record { thread = 1; place = 0 })
      (record { thread = 2; place = 0 }) (omega arith) refl refl (omega arith)

some_inj : {A : Type 0} (a b : A) → some a ≡ some b → a ≡ b
some_inj a b h = cc

none_held : NoneHeld released
unfolding prepare_rollback prepare_event_list_rollback prepare_list_rollback signal_event
    signal_next_thread load_event is_thread_next_event signal_thread first_iter_entry
    record_sync_events record_sync_event alloc pass_lock wait_semaphore advance_thread_sync_list
    advance_entry mutex_unlock advance_sync_event
none_held v k e (c, at) = elim (Bool-cases (7 == v)) [
  | inl is ↦
      let at_one : 1 ≡ k = some_inj 1 k (rw is at c) in
      let is_last = some_inj (record { thread = 2; place = 0 }) e (rw (is, ← at_one) at at) in
      rw (← is_last) (omega arith)
  | inr other ↦ absurd (cc (rw other at at))
]

some_thread-CanLock_example : (t : ℕ) × CanLock released t
unfolding prepare_rollback prepare_event_list_rollback prepare_list_rollback signal_event
    signal_next_thread load_event is_thread_next_event signal_thread first_iter_entry
    record_sync_events record_sync_event alloc pass_lock wait_semaphore advance_thread_sync_list
    advance_entry mutex_unlock advance_sync_event
some_thread-CanLock_example =
    some_thread-CanLock recorded-IsRecorded.0 recorded begun released (7 ∷ [])
      recorded-IsBeforeReplay begins (more (more here to_held) to_released) none_held 7 1
      (record { thread = 2; place = 0 }) refl (omega arith)
