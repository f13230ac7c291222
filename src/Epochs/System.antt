-- ===== src/Epochs/System.antt =====
-- The committer and the threads that it stops, step by step: include/globalinfo.hh and stopAllThreads
-- of source/xrun.cpp.
use double_take.Prelude.{
  ℕ, ◌≡◌, Bool, true, false, List, [], ◌∷◌, some, get_elem?, set, length, if◌then◌else◌, ok,
}
use double_take.Epochs.{
  Global, set_epoch_end, check_waiters, wait_threads_stops, still_waits, enter_wait, leave_wait,
  epoch_begin_all, is_epoch_end,
}

-- A thread runs, sleeps on g_condWaiters, or was woken and has not looked at the phase yet.
pub data Thread : Type 0 where
  running asleep woken : Thread

-- The committer runs the program, has announced the end of the epoch, sleeps on g_condCommitter or
-- was woken there, commits, or sleeps and was woken at the start of the next epoch.
pub data Committer : Type 0 where
  working ending stop_asleep stop_woken committing begin_asleep begin_woken : Committer

pub record System : Type 0 where
  pub global : Global
  pub committer : Committer
  pub threads : List Thread

-- A signal to g_condCommitter, which is lost when nobody sleeps on it.
abbrev pub signal : Bool → Committer → Committer
signal true stop_asleep = stop_woken
signal true begin_asleep = begin_woken
signal _ c = c

-- A broadcast to g_condWaiters.
abbrev pub wake : Thread → Thread
wake asleep = woken
wake t = t

abbrev pub wake_all : List Thread → List Thread
wake_all [] = []
wake_all (t ∷ ts) = wake t ∷ wake_all ts

-- The committer stops all the threads of the system.
pub data Step (s : System) (s' : System) : Type 0 where
  end_epoch :
      s.committer ≡ working
      → check_waiters s.global ≡ ok tt
      → s' ≡ record s { committer = ending; global = set_epoch_end s.global }
      → Step s s'
  stop :
      s.committer ≡ ending
      → s' ≡ record s {
        committer =
            if (wait_threads_stops s.global (length s.threads)).1 then stop_asleep else committing;
        global = (wait_threads_stops s.global (length s.threads)).0;
      }
      → Step s s'
  look :
      s.committer ≡ stop_woken
      → s' ≡ record s { committer = if still_waits s.global then stop_asleep else committing }
      → Step s s'
  begin :
      s.committer ≡ committing
      → s' ≡ record s {
        committer = if (epoch_begin_all s.global).1 then begin_asleep else working;
        global = (epoch_begin_all s.global).0;
        threads = wake_all s.threads;
      }
      → Step s s'
  begun : s.committer ≡ begin_woken → s' ≡ record s { committer = working } → Step s s'
  enter :
      (i : ℕ) (g : Global) (b : Bool)
      → get_elem? s.threads i ≡ some running
      → enter_wait s.global ≡ ok (g, b)
      → s' ≡ record s {
        global = g;
        committer = signal b s.committer;
        threads = set s.threads i asleep;
      }
      → Step s s'
  look_again :
      (i : ℕ)
      → get_elem? s.threads i ≡ some woken
      → is_epoch_end s.global ≡ true
      → s' ≡ record s { threads = set s.threads i asleep }
      → Step s s'
  leave :
      (i : ℕ)
      → get_elem? s.threads i ≡ some woken
      → is_epoch_end s.global ≡ false
      → s' ≡ record s {
        global = (leave_wait s.global).0;
        committer = signal (leave_wait s.global).1 s.committer;
        threads = set s.threads i running;
      }
      → Step s s'
  -- A wake-up without a signal. The waits of the threads and of the committer at the end of an epoch
  -- are in loops, and look again; the wait at the start of an epoch is not.
  wake_thread :
      (i : ℕ)
      → get_elem? s.threads i ≡ some asleep
      → s' ≡ record s { threads = set s.threads i woken }
      → Step s s'
  wake_committer : s.committer ≡ stop_asleep → s' ≡ record s { committer = stop_woken } → Step s s'
  wake_begin : s.committer ≡ begin_asleep → s' ≡ record s { committer = begin_woken } → Step s s'

-- A wake-up of the committer, at the start of an epoch, that no signal caused.
abbrev pub is_early : {s s' : System} → Step s s' → Bool
is_early (wake_begin c eq) = true
is_early _ = false

pub data Reach (s : System) : System → Type 0 where
  here : Reach s s
  more : {t u : System} → Reach s t → Step t u → Reach s u

-- No step of the run was an early wake-up.
abbrev pub is_calm : {s t : System} → Reach s t → Bool
is_calm here = true
is_calm (more r step) = if is_early step then false else is_calm r
