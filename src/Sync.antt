-- ===== src/Sync.antt =====
-- include/synceventlist.hh, the replay in include/xsync.hh, and mutex_lock and mutex_unlock of
-- include/xthread.hh in the replay. The fields of all threads are functions of the thread, those of
-- all event lists functions of the list. A pointer to an event is the thread whose pool it is in and
-- its place there; a pointer to an entry of a list is its place in the list.
pub mod Events
pub mod Inv
pub mod Order
pub mod Grant
pub mod Steps
pub mod Prepare
pub mod Appending
pub mod Recording
pub mod Peeking
pub mod Passing
pub mod Progress
use double_take.Prelude.{
  ℕ, ◌+◌, ◌-◌, Bool, true, false, Option, none, some, List, [], ◌∷◌, ◌++◌, ◌==◌, ltb, ◌&&◌,
  if◌then◌else◌, get_elem?, set, length, Outcome, ok, fault, timeout, ◌>>=◌,
}
use double_take.RecordEntries.{RecordEntries, alloc, get_entry, first_iter_entry, advance_entry}

pub record SyncEvent : Type 0 where
  pub thread : ℕ
  pub eventlist : ℕ
  pub ret : ℕ

pub record EventPtr : Type 0 where
  pub thread : ℕ
  pub place : ℕ

pub record World : Type 0 where
  pub syncevents : ℕ → RecordEntries SyncEvent
  pub pending : ℕ → List EventPtr
  pub sema : ℕ → ℕ
  pub list : ℕ → List EventPtr
  pub curentry : ℕ → Option ℕ

abbrev pub assign {ℓ} : {A : Type ℓ} → (ℕ → A) → ℕ → A → ℕ → A
assign f t a u = if t == u then a else f u

abbrev pub same_event : EventPtr → EventPtr → Bool
same_event a b = a.thread == b.thread && a.place == b.place

unfoldable pub load_event : World → EventPtr → Outcome SyncEvent
load_event w e = elim (get_elem? (w.syncevents e.thread).start e.place) [
  | none ↦ fault
  | some event ↦ ok event
]

unfoldable pub record_sync_event : World → ℕ → ℕ → ℕ → Outcome World
record_sync_event w current this ret = do
  (i, pool) ← alloc (w.syncevents current)
  let event : SyncEvent = record { thread = current; eventlist = this; ret = ret }
  ok (record w {
    syncevents = assign w.syncevents current (record pool { start = set pool.start i event });
    list = assign w.list this (w.list this ++ record { thread = current; place = i } ∷ []);
  })

-- Without a current entry the call reads through a null pointer.
unfoldable pub advance_sync_event : World → ℕ → Outcome (Option EventPtr × World)
advance_sync_event w this = elim (w.curentry this) [
  | none ↦ fault
  | some k ↦
      if k + 1 == length (w.list this)
      then ok (none, record w { curentry = assign w.curentry this none })
      else ok (
        get_elem? (w.list this) (k + 1),
        record w { curentry = assign w.curentry this (some (k + 1)) },
      )
]

unfoldable pub cleanup : World → ℕ → World
cleanup w this = record w { list = assign w.list this [] }

unfoldable pub prepare_list_rollback : World → ℕ → Option EventPtr × World
prepare_list_rollback w this = elim (w.list this) [
  | [] ↦ (none, w)
  | e ∷ es ↦ (some e, record w { curentry = assign w.curentry this (some 0) })
]

unfoldable pub signal_thread : World → ℕ → World
signal_thread w thread = record w { sema = assign w.sema thread (w.sema thread + 1) }

unfoldable pub is_thread_next_event : World → EventPtr → ℕ → Bool
is_thread_next_event w event thread =
    same_event event (record { thread = thread; place = first_iter_entry (w.syncevents thread) })

unfoldable pub add_pending_sync_event : World → EventPtr → ℕ → World
add_pending_sync_event w event thread = record w {
  pending = assign w.pending thread (w.pending thread ++ event ∷ []);
}

unfoldable pub signal_next_thread : World → EventPtr → Outcome World
signal_next_thread w event = do
  contents ← load_event w event
  let thread = contents.thread
  if is_thread_next_event w event thread
      then ok (signal_thread w thread)
      else ok (add_pending_sync_event w event thread)

unfoldable pub advance_thread_sync_list : World → ℕ → World
advance_thread_sync_list w current = record w {
  syncevents = assign w.syncevents current (advance_entry (w.syncevents current));
}

-- The search for an event among the pending ones, and the list without it.
unfoldable pub take_pending : List EventPtr → EventPtr → Option (List EventPtr)
take_pending [] event = none
take_pending (e ∷ es) event =
    let rest = take_pending es event in
    if same_event e event then some es else elim rest [ none ↦ none | some l ↦ some (e ∷ l) ]

unfoldable pub signal_current_thread : World → EventPtr → ℕ → World
signal_current_thread w event thread = elim (take_pending (w.pending thread) event) [
  | none ↦ w
  | some rest ↦ signal_thread (record w { pending = assign w.pending thread rest }) thread
]

-- An event of another thread or list makes the thread spin for ever.
unfoldable pub peek_sync_event : World → ℕ → ℕ → Outcome (ℕ × World)
peek_sync_event w current tlist = elim (get_entry (w.syncevents current)) [
  | none ↦ timeout
  | some i ↦ do
    let event : EventPtr = record { thread = current; place = i }
    contents ← load_event w event
    if contents.thread == current && contents.eventlist == tlist
        then ok (contents.ret, signal_current_thread w event contents.thread)
        else timeout
]

-- `if(event) signalNextThread(event)`.
unfoldable pub signal_event : Option EventPtr → World → Outcome World
signal_event none w = ok w
signal_event (some event) w = signal_next_thread w event

unfoldable pub prepare_event_list_rollback : World → ℕ → Outcome World
prepare_event_list_rollback w eventlist =
    let (event, w') = prepare_list_rollback w eventlist in signal_event event w'

-- Over the event lists of the active synchronization variables.
unfoldable pub prepare_rollback : World → List ℕ → Outcome World
prepare_rollback w [] = ok w
prepare_rollback w (v ∷ vs) = do w' ← prepare_event_list_rollback w v; prepare_rollback w' vs

-- The wait for the semaphore: none while the thread is blocked.
unfoldable pub wait_semaphore : World → ℕ → Option World
wait_semaphore w current =
    if ltb 0 (w.sema current)
    then some (record w { sema = assign w.sema current (w.sema current - 1) })
    else none

-- `mutex_lock` in the replay is a look at the thread's next event, and, where the lock was taken when
-- it was recorded, the wait for the semaphore; then the thread goes on to its next event.
unfoldable pub pass_lock : World → ℕ → Option World
pass_lock w current = elim (wait_semaphore w current) [
  | none ↦ none
  | some w' ↦ some (advance_thread_sync_list w' current)
]

unfoldable pub mutex_unlock : World → ℕ → Outcome World
mutex_unlock w list = do (next_event, w') ← advance_sync_event w list; signal_event next_event w'
