-- ===== src/Epochs/Ends.antt =====
-- The change of epoch is safe, and it comes to an end: include/globalinfo.hh.
use double_take.Prelude.{
  ℕ, zero, suc, ◌+◌, ◌≤◌, ◌<◌, ◌≡◌, ◌≢◌, refl, sym, Bool, true, false, if◌then◌else◌, some,
  get_elem?, length, replicate, ◌==◌, arith, ok,
}
use double_take.Epochs.{Global, is_end, initialize, check_waiters, enter_wait, is_epoch_end}
use double_take.Epochs.System.{
  Thread, running, asleep, woken, Committer, working, ending, stop_asleep, stop_woken, committing,
  begin_asleep, begin_woken, System, Step, stop, look, begin, begun, enter, leave, wake_thread,
  wake_committer, wake_begin, is_early, Reach, here, more, is_calm,
}
use double_take.Epochs.Count.{
  stopped, sleepers, sleeps, stops, runs, stopped-runs, stopped-sleepers, find_running, find_woken,
  total-get,
}
use double_take.Epochs.Rendezvous.{Inv, Step-Inv}

abbrev pub start : ℕ → System
start n = record { global = initialize; committer = working; threads = replicate n running }

stopped-replicate : (n : ℕ) → stopped (replicate n running) ≡ 0
stopped-replicate zero = refl
stopped-replicate (suc n) = omega (arith, stopped-replicate n)

sleepers-replicate : (n : ℕ) → sleepers (replicate n running) ≡ 0
sleepers-replicate zero = refl
sleepers-replicate (suc n) = omega (arith, sleepers-replicate n)

Inv-start : (calm : Bool) (n : ℕ) → Inv calm (start n)
unfolding initialize
Inv-start calm n = record {
  counted = sym (stopped-replicate n);
  agrees = (refl, λ h. stopped-replicate n);
  awake = λ h. sleepers-replicate n;
}

calm_before :
    (early calm : Bool) → (if early then false else calm) ≡ true → (early ≡ false) × (calm ≡ true)
calm_before true calm h = absurd (cc h)
calm_before false calm h = (refl, h)

pub Reach-Inv :
    (calm : Bool) (n : ℕ) (s : System) (r : Reach (start n) s)
    → (calm ≡ true → is_calm r ≡ true)
    → Inv calm s
Reach-Inv calm n s here quiet = Inv-start calm n
Reach-Inv calm n s (more {t = u} r step) quiet =
    Step-Inv calm u s
      (Reach-Inv calm n u r (λ h. (calm_before (is_early step) (is_calm r) (quiet h)).1)) step
      (λ h. (calm_before (is_early step) (is_calm r) (quiet h)).0)

-- What holds in every run.
pub Reach-Inv_any : (n : ℕ) (s : System) → Reach (start n) s → Inv false s
Reach-Inv_any n s r = Reach-Inv false n s r (λ h. absurd (cc h))

-- In every state that `n` threads and the committer can reach: while the committer commits, each
-- thread has stopped; while it runs the program, no thread sleeps any more; and if besides in the run
-- so far no wake-up of the committer at the start of an epoch was spurious, then while it runs the
-- program, no thread is held, so the check that no thread waits, with which the end of the next epoch
-- begins, succeeds.
pub Reach-Safe :
    (n : ℕ) (s : System) (r : Reach (start n) s)
    → (s.committer ≡ committing → (i : ℕ) → get_elem? s.threads i ≢ some running)
      × (s.committer ≡ working → (i : ℕ) → get_elem? s.threads i ≢ some asleep)
      × (is_calm r ≡ true
          → s.committer ≡ working
          → (check_waiters s.global ≡ ok tt)
            × ((i : ℕ) (t : Thread) → get_elem? s.threads i ≡ some t → t ≡ running))
unfolding check_waiters
Reach-Safe n s r = (
  λ c i at.
      let (at_end, all) = agreed_committing s (Reach-Inv_any n s r) c in
      omega (arith, all, stopped-runs s.threads, total-get runs s.threads i running at),
  λ c i at.
      let inv = Reach-Inv_any n s r in
      omega (arith, inv.awake (at_begin s inv c), total-get sleeps s.threads i asleep at),
  λ quiet c.
      let inv = Reach-Inv true n s r (λ h. quiet) in
      let zero_stopped = none_stopped s inv c in
      (
        rw (check_waiters, inv.counted, zero_stopped) refl,
        λ i t at. only_running t (omega (arith, zero_stopped, total-get stops s.threads i t at)),
      ),
)
  where
    agreed_committing :
        (s : System)
        → Inv false s
        → s.committer ≡ committing
        → (is_end s.global.phase ≡ true) × (stopped s.threads ≡ length s.threads)
    agreed_committing s inv c = rw c at inv.agrees

    at_begin : (s : System) → Inv false s → s.committer ≡ working → is_end s.global.phase ≡ false
    at_begin s inv c = let (e, rest) = rw c at inv.agrees in e

    none_stopped : (s : System) → Inv true s → s.committer ≡ working → stopped s.threads ≡ 0
    none_stopped s inv c = let (e, rest) = rw c at inv.agrees in rest refl

    only_running : (t : Thread) → stops t ≤ 0 → t ≡ running
    only_running running h = refl
    only_running asleep h = absurd (omega (arith, h))
    only_running woken h = absurd (omega (arith, h))

-- A wake-up that no signal or broadcast caused.
abbrev pub is_spurious : {s s' : System} → Step s s' → Bool
is_spurious (wake_thread i at eq) = true
is_spurious (wake_committer c eq) = true
is_spurious (wake_begin c eq) = true
is_spurious _ = false

abbrev pub CanMove : System → Type 0
CanMove s = (s' : System) × (step : Step s s') × (is_spurious step ≡ false)

enter_wait_ok :
    (g : Global)
    → is_end g.phase ≡ true
    → enter_wait g ≡ ok (record g { waiters = g.waiters + 1 }, g.waiters + 1 == g.waiters_total)
unfolding enter_wait is_epoch_end
enter_wait_ok g e = rw (enter_wait, is_epoch_end, e) refl

can_move : (c : Committer) (s : System) → s.committer ≡ c → c ≢ working → Inv false s → CanMove s
unfolding is_epoch_end
can_move working s e ne inv = absurd (ne refl)
can_move ending s e ne inv = (_, stop e refl, refl)
can_move stop_asleep s e ne inv =
    let (at_end, to, less) = agreed s inv e in
    let (i, at) = find_running s.threads (omega (arith, stopped-runs s.threads, less)) in
    (_, enter i _ _ at (enter_wait_ok s.global at_end) refl, refl)
  where
    agreed :
        (s : System)
        → Inv false s
        → s.committer ≡ stop_asleep
        → (is_end s.global.phase ≡ true)
          × (s.global.waiters_total ≡ length s.threads)
          × (stopped s.threads < length s.threads)
    agreed s inv e = rw e at inv.agrees
can_move stop_woken s e ne inv = (_, look e refl, refl)
can_move committing s e ne inv = (_, begin e refl, refl)
can_move begin_asleep s e ne inv =
    let (at_begin, some_stopped) = agreed s inv e in
    let (i, at) =
      find_woken s.threads
        (omega (arith, stopped-sleepers s.threads, inv.awake at_begin, some_stopped)) in
    (_, leave i at at_begin refl, refl)
  where
    agreed :
        (s : System)
        → Inv false s
        → s.committer ≡ begin_asleep
        → (is_end s.global.phase ≡ false) × (0 < stopped s.threads)
    agreed s inv e = rw e at inv.agrees
can_move begin_woken s e ne inv = (_, begun e refl, refl)

-- In every reachable state in which an epoch is being changed, some thread or the committer can go on
-- without a spurious wake-up.
pub Reach-CanMove : (n : ℕ) (s : System) → Reach (start n) s → s.committer ≢ working → CanMove s
Reach-CanMove n s r ne = can_move s.committer s refl ne (Reach-Inv_any n s r)
