-- ===== src/Tests/Phases.antt =====
-- The change of epoch at concrete systems: include/globalinfo.hh.
use double_take.Prelude.{
  ℕ, ◌+◌, ◌*◌, ◌≤◌, ◌≡◌, ◌≢◌, refl, true, false, [], ◌∷◌, some, get_elem?, ok, aborted,
}
use double_take.Epochs.{
  Global, epoch_end, epoch_begin, epoch_begin_all, initialize, set_epoch_end, check_waiters,
  wait_threads_stops, still_waits, enter_wait, is_epoch_end,
}
use double_take.Epochs.System.{
  Thread, running, asleep, working, ending, stop_asleep, stop_woken, committing, System, Step,
  end_epoch, stop, look, enter, Reach, here, more, is_calm, begin_asleep, begin_woken, woken, begin,
  begun, wake_begin,
}
use double_take.Epochs.Ends.{start, CanMove, Reach-Safe, Reach-CanMove}
use double_take.Epochs.Measure.{Changing, nothing, after, Changing-bounded}

abbrev at_end : ℕ → ℕ → Global
at_end total waiting = record {
  is_rollback = false;
  has_rollbacked = false;
  num_of_ends = 1;
  phase = epoch_end;
  waiters = waiting;
  waiters_total = total;
}

abbrev announced : System
announced = record { global = at_end 0 0; committer = ending; threads = running ∷ [] }

abbrev waiting_for_one : System
waiting_for_one = record { global = at_end 1 0; committer = stop_asleep; threads = running ∷ [] }

abbrev told : System
told = record { global = at_end 1 1; committer = stop_woken; threads = asleep ∷ [] }

abbrev all_stopped : System
all_stopped = record { global = at_end 1 1; committer = committing; threads = asleep ∷ [] }

to_announced : Step (start 1) announced
unfolding initialize set_epoch_end check_waiters
to_announced = end_epoch refl refl refl

to_waiting : Step announced waiting_for_one
unfolding wait_threads_stops
to_waiting = stop refl refl

to_told : Step waiting_for_one told
unfolding enter_wait is_epoch_end
to_told = enter 0 (at_end 1 1) true refl refl refl

to_all_stopped : Step told all_stopped
unfolding still_waits
to_all_stopped = look refl refl

announced-Reach : Reach (start 1) announced
announced-Reach = more here to_announced

all_stopped-Reach : Reach (start 1) all_stopped
all_stopped-Reach = more (more (more announced-Reach to_waiting) to_told) to_all_stopped

Reach-Safe_example :
    (all_stopped.committer ≡ committing → (i : ℕ) → get_elem? all_stopped.threads i ≢ some running)
    × (all_stopped.committer ≡ working → (i : ℕ) → get_elem? all_stopped.threads i ≢ some asleep)
    × (is_calm all_stopped-Reach ≡ true
        → all_stopped.committer ≡ working
        → (check_waiters all_stopped.global ≡ ok tt)
          × ((i : ℕ) (t : Thread) → get_elem? all_stopped.threads i ≡ some t → t ≡ running))
Reach-Safe_example = Reach-Safe 1 all_stopped all_stopped-Reach

stop_asleep-working : stop_asleep ≢ working
stop_asleep-working h = cc h

ending-working : ending ≢ working
ending-working h = cc h

Reach-CanMove_example : CanMove waiting_for_one
Reach-CanMove_example =
    Reach-CanMove 1 waiting_for_one (more announced-Reach to_waiting) stop_asleep-working

two_steps : Changing 2 announced told
unfolding to_waiting to_told
two_steps = after ending-working to_waiting refl (after stop_asleep-working to_told refl nothing)

Changing-bounded_example : 2 ≤ 5 * 1 + 5
Changing-bounded_example = Changing-bounded 1 2 announced told announced-Reach refl two_steps

-- The committer wakes too early at the start of the next epoch, and runs the program while a thread
-- is held.
abbrev let_go : System
let_go = record {
  global = record (at_end 1 1) { phase = epoch_begin };
  committer = begin_asleep;
  threads = woken ∷ [];
}

abbrev woken_early : System
woken_early = record let_go { committer = begin_woken }

abbrev works_early : System
works_early = record let_go { committer = working }

works_early-Reach : Reach (start 1) works_early
unfolding epoch_begin_all
works_early-Reach =
    more (more (more all_stopped-Reach (begin refl refl)) (wake_begin refl refl)) (begun refl refl)

works_early_waits : check_waiters works_early.global ≡ aborted
unfolding check_waiters
works_early_waits = refl
