-- ===== src/Epochs/Measure.antt =====
-- The change of epoch takes a bounded number of steps: include/globalinfo.hh.
use double_take.Prelude.{
  ℕ, zero, suc, ◌+◌, ◌*◌, ◌≤◌, ◌<◌, ◌≡◌, ◌≢◌, refl, Bool, true, false, some, get_elem?, set, length,
  length-set, if◌then◌else◌, arith,
}
use double_take.Epochs.{
  is_end, set_epoch_end, wait_threads_stops, still_waits, leave_wait, epoch_begin_all, is_epoch_end,
}
use double_take.Epochs.System.{
  running, asleep, woken, Committer, working, ending, stop_asleep, stop_woken, committing,
  begin_asleep, begin_woken, System, signal, wake_all, Step, end_epoch, stop, look, begin, begun,
  enter, look_again, leave, wake_thread, wake_committer, wake_begin, Reach,
}
use double_take.Epochs.Count.{
  total, stopped, total-set, runs, wakes, stopped-runs, wakes-wake_all, length-wake_all, stopped_le,
  stopped-sleepers,
}
use double_take.Epochs.Rendezvous.{Inv, Agrees, Step-Inv, enter_wait_lem}
use double_take.Epochs.Ends.{start, is_spurious, Reach-Inv_any}

-- What is left to do, of `n` threads, `r` of which run, while `w` were woken.
abbrev left : Committer → ℕ → ℕ → ℕ → ℕ
left working n r w = 2 * w
left ending n r w = 2 * n + 5 + 3 * r + w
left stop_asleep n r w = 2 * n + 3 + 3 * r + w
left stop_woken n r w = 2 * n + 4 + 3 * r + w
left committing n r w = 2 * n + 2 + 3 * r + w
left begin_asleep n r w = 1 + 2 * w
left begin_woken n r w = 1 + 2 * w

abbrev measure : System → ℕ
measure s = left s.committer (length s.threads) (total runs s.threads) (total wakes s.threads)

left-enter :
    (c : Committer) (b : Bool) (n st to r w : ℕ)
    → Agrees false c true st to n
    → st < n
    → left (signal b c) n r w < left c n (r + 1) w
left-enter working b n st to r w a lt = absurd (cc a.0)
left-enter ending true n st to r w a lt = omega arith
left-enter ending false n st to r w a lt = omega arith
left-enter stop_asleep true n st to r w a lt = omega arith
left-enter stop_asleep false n st to r w a lt = omega arith
left-enter stop_woken true n st to r w a lt = omega arith
left-enter stop_woken false n st to r w a lt = omega arith
left-enter committing b n st to r w a lt = absurd (omega (arith, a.1, lt))
left-enter begin_asleep b n st to r w a lt = absurd (cc a.0)
left-enter begin_woken b n st to r w a lt = absurd (cc a.0)

left-look_again :
    (c : Committer) (n st to r w : ℕ)
    → Agrees false c true st to n
    → left c n r w < left c n r (w + 1)
left-look_again working n st to r w a = absurd (cc a.0)
left-look_again ending n st to r w a = omega arith
left-look_again stop_asleep n st to r w a = omega arith
left-look_again stop_woken n st to r w a = omega arith
left-look_again committing n st to r w a = omega arith
left-look_again begin_asleep n st to r w a = absurd (cc a.0)
left-look_again begin_woken n st to r w a = absurd (cc a.0)

left-leave :
    (c : Committer) (b : Bool) (n st to r w : ℕ)
    → Agrees false c false st to n
    → left (signal b c) n (r + 1) w < left c n r (w + 1)
left-leave working true n st to r w a = omega arith
left-leave working false n st to r w a = omega arith
left-leave ending b n st to r w a = absurd (cc a)
left-leave stop_asleep b n st to r w a = absurd (cc a.0)
left-leave stop_woken b n st to r w a = absurd (cc a.0)
left-leave committing b n st to r w a = absurd (cc a.0)
left-leave begin_asleep true n st to r w a = omega arith
left-leave begin_asleep false n st to r w a = omega arith
left-leave begin_woken true n st to r w a = omega arith
left-leave begin_woken false n st to r w a = omega arith

left-look :
    (b : Bool) (n r w : ℕ)
    → left (if b then stop_asleep else committing) n r w < left stop_woken n r w
left-look true n r w = omega arith
left-look false n r w = omega arith

left-stop :
    (b : Bool) (n r w : ℕ) → left (if b then stop_asleep else committing) n r w < left ending n r w
left-stop true n r w = omega arith
left-stop false n r w = omega arith

left-begin :
    (b : Bool) (n r w w' r' : ℕ)
    → w' ≤ n
    → left (if b then begin_asleep else working) n r' w' < left committing n r w
left-begin true n r w w' r' le = omega arith
left-begin false n r w w' r' le = omega arith

module _ (s : System) (inv : Inv false s) (i : ℕ) where
  enter_less :
      (b : Bool)
      → get_elem? s.threads i ≡ some running
      → is_end s.global.phase ≡ true
      → left
          (signal b s.committer)
          (length (set s.threads i asleep))
          (total runs (set s.threads i asleep))
          (total wakes (set s.threads i asleep))
        < measure s
  enter_less b at e =
      let fewer : total runs s.threads ≡ total runs (set s.threads i asleep) + 1 =
        omega (arith, total-set runs s.threads i running asleep at) in
      let same : total wakes (set s.threads i asleep) ≡ total wakes s.threads =
        omega (arith, total-set wakes s.threads i running asleep at) in
      rw (length-set s.threads i asleep, same, fewer)
        (left-enter s.committer b (length s.threads) (stopped s.threads) s.global.waiters_total
          (total runs (set s.threads i asleep)) (total wakes s.threads) (rw e at inv.agrees)
          (omega (arith, stopped-runs s.threads, fewer)))

  look_again_less :
      get_elem? s.threads i ≡ some woken
      → is_end s.global.phase ≡ true
      → left s.committer
          (length (set s.threads i asleep))
          (total runs (set s.threads i asleep))
          (total wakes (set s.threads i asleep))
        < measure s
  look_again_less at e =
      let same : total runs (set s.threads i asleep) ≡ total runs s.threads =
        omega (arith, total-set runs s.threads i woken asleep at) in
      let fewer : total wakes s.threads ≡ total wakes (set s.threads i asleep) + 1 =
        omega (arith, total-set wakes s.threads i woken asleep at) in
      rw (length-set s.threads i asleep, same, fewer)
        (left-look_again s.committer (length s.threads) (stopped s.threads) s.global.waiters_total
          (total runs s.threads) (total wakes (set s.threads i asleep)) (rw e at inv.agrees))

  leave_less :
      (b : Bool)
      → get_elem? s.threads i ≡ some woken
      → is_end s.global.phase ≡ false
      → left
          (signal b s.committer)
          (length (set s.threads i running))
          (total runs (set s.threads i running))
          (total wakes (set s.threads i running))
        < measure s
  leave_less b at e =
      let more_run : total runs (set s.threads i running) ≡ total runs s.threads + 1 =
        omega (arith, total-set runs s.threads i woken running at) in
      let fewer : total wakes s.threads ≡ total wakes (set s.threads i running) + 1 =
        omega (arith, total-set wakes s.threads i woken running at) in
      rw (length-set s.threads i running, more_run, fewer)
        (left-leave s.committer b (length s.threads) (stopped s.threads) s.global.waiters_total
          (total runs s.threads) (total wakes (set s.threads i running)) (rw e at inv.agrees))

-- Every step that is not a spurious wake-up, outside the run of the program, leaves less to do.
Step-measure :
    (s s' : System)
    → Inv false s
    → (step : Step s s') → is_spurious step ≡ false
    → s.committer ≢ working
    → measure s' < measure s
unfolding set_epoch_end wait_threads_stops still_waits epoch_begin_all leave_wait is_epoch_end
Step-measure s s' inv (end_epoch c clear eq) h ne = absurd (ne c)
Step-measure s s' inv (stop c eq) h ne =
    rw (eq, c) (left-stop _ (length s.threads) (total runs s.threads) (total wakes s.threads))
Step-measure s s' inv (look c eq) h ne =
    rw (eq, c) (left-look _ (length s.threads) (total runs s.threads) (total wakes s.threads))
Step-measure s s' inv (begin c eq) h ne =
    rw (eq, c, length-wake_all s.threads, wakes-wake_all s.threads)
      (left-begin _ (length s.threads) (total runs s.threads) (total wakes s.threads)
        (stopped s.threads) (total runs (wake_all s.threads)) (stopped_le s.threads))
Step-measure s s' inv (begun c eq) h ne = rw (eq, c) (omega arith)
Step-measure s s' inv (enter i g b at e eq) h ne =
    let (at_end, eg, eb) = enter_wait_lem s.global g b e in rw eq (enter_less s inv i b at at_end)
Step-measure s s' inv (look_again i at e eq) h ne = rw eq (look_again_less s inv i at e)
Step-measure s s' inv (leave i at e eq) h ne = rw eq (leave_less s inv i _ at e)
Step-measure s s' inv (wake_thread i at eq) h ne = absurd (cc h)
Step-measure s s' inv (wake_committer c eq) h ne = absurd (cc h)
Step-measure s s' inv (wake_begin c eq) h ne = absurd (cc h)

-- `k` steps, none of them a spurious wake-up, and none from a state in which the committer runs the
-- program.
pub data Changing : ℕ → System → System → Type 0 where
  nothing : {s : System} → Changing 0 s s
  after :
      {k : ℕ} {s t u : System}
      → s.committer ≢ working
      → (step : Step s t) → is_spurious step ≡ false
      → Changing k t u
      → Changing (suc k) s u

Changing-measure : (k : ℕ) (s u : System) → Inv false s → Changing k s u → k + measure u ≤ measure s
Changing-measure zero s u inv nothing = omega arith
Changing-measure (suc k) s u inv (after {t = t} ne step plain rest) = omega (
  arith,
  Step-measure s t inv step plain ne,
  Changing-measure k t u (Step-Inv false s t inv step (λ h. absurd (cc h))) rest,
)

measure_ending :
    (s : System)
    → s.committer ≡ ending
    → measure s ≡ 2 * length s.threads + 5 + 3 * total runs s.threads + total wakes s.threads
measure_ending s c = rw c refl

-- From the moment at which the end of an epoch is announced, in a state that `n` threads and the
-- committer can reach, a sequence of steps without spurious wake-ups, in which the committer does not
-- come to run the program again, has at most five steps for each thread and five more.
pub Changing-bounded :
    (n k : ℕ) (s u : System)
    → Reach (start n) s
    → s.committer ≡ ending
    → Changing k s u
    → k ≤ 5 * length s.threads + 5
Changing-bounded n k s u r c run = omega (
  arith,
  Changing-measure k s u (Reach-Inv_any n s r) run,
  measure_ending s c,
  stopped-runs s.threads,
  stopped-sleepers s.threads,
)
