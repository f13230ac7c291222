-- ===== src/Epochs.antt =====
-- include/globalinfo.hh: how the thread that ends an epoch, the committer, stops the others and lets
-- them go again. Each function is what its caller does in one hold of g_mutexSignalhandler, with the
-- condition variables that it signals and whether it then sleeps.
pub mod System
pub mod Count
pub mod Rendezvous
pub mod Ends
pub mod Measure
use double_take.Prelude.{
  ℕ, ◌+◌, ◌-◌, Bool, true, false, not, ◌==◌, Outcome, ok, ◌>>=◌, ◌>>◌, assert,
}

pub data SystemPhase : Type 0 where
  init epoch_end epoch_begin : SystemPhase

pub record Global : Type 0 where
  pub is_rollback : Bool
  pub has_rollbacked : Bool
  pub num_of_ends : ℕ
  pub phase : SystemPhase
  pub waiters : ℕ
  pub waiters_total : ℕ

-- The counters of the waiting threads are globals, which start as 0.
unfoldable pub initialize : Global
initialize = record {
  is_rollback = false;
  has_rollbacked = false;
  num_of_ends = 0;
  phase = init;
  waiters = 0;
  waiters_total = 0;
}

unfoldable pub set_epoch_end : Global → Global
set_epoch_end g = record g { num_of_ends = g.num_of_ends + 1; phase = epoch_end }

abbrev pub is_end : SystemPhase → Bool
is_end epoch_end = true
is_end _ = false

abbrev pub is_begin : SystemPhase → Bool
is_begin epoch_begin = true
is_begin _ = false

unfoldable pub is_epoch_end : Global → Bool
is_epoch_end g = is_end g.phase

unfoldable pub is_epoch_begin : Global → Bool
is_epoch_begin g = is_begin g.phase

unfoldable pub set_rollback : Global → Global
set_rollback g = record g { is_rollback = true; has_rollbacked = true }

unfoldable pub check_waiters : Global → Outcome (Unit {0})
check_waiters g = assert (g.waiters == 0)

-- The new state, and whether the committer sleeps.
unfoldable pub epoch_begin_all : Global → Global × Bool
epoch_begin_all g = (record g { phase = epoch_begin }, not (g.waiters == 0))

-- The state, and whether the committer sleeps; the test is made again when it wakes.
unfoldable pub wait_threads_stops : Global → ℕ → Global × Bool
wait_threads_stops g total_waiters =
    (record g { waiters_total = total_waiters }, not (g.waiters == total_waiters))

unfoldable pub still_waits : Global → Bool
still_waits g = not (g.waiters == g.waiters_total)

-- The first part of `waitForNotification`: whether the committer is signalled. The thread then waits.
unfoldable pub enter_wait : Global → Outcome (Global × Bool)
unfolding is_epoch_end
enter_wait g = do
  assert (is_epoch_end g)
  ok (record g { waiters = g.waiters + 1 }, g.waiters + 1 == g.waiters_total)

-- The last part, after the wait.
unfoldable pub leave_wait : Global → Global × Bool
leave_wait g = (record g { waiters = g.waiters - 1 }, g.waiters - 1 == 0)
