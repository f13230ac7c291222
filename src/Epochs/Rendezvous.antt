-- ===== src/Epochs/Rendezvous.antt =====
-- The threads and the committer meet at the end of an epoch and part at the start of the next:
-- include/globalinfo.hh.
use double_take.Prelude.{
  ℕ, ◌+◌, ◌-◌, ◌≤◌, ◌<◌, ◌≡◌, ◌⊎◌, inl, inr, refl, sym, ap, ◌∙◌, Bool, true, false, not, some,
  get_elem?, set, length, length-set, if◌then◌else◌, ◌==◌, ==→eq, Bool-cases, arith, ok,
}
use double_take.Epochs.{
  Global, is_end, set_epoch_end, wait_threads_stops, still_waits, enter_wait, leave_wait,
  epoch_begin_all, is_epoch_end,
}
use double_take.Epochs.System.{
  Thread, running, asleep, woken, Committer, working, ending, stop_asleep, stop_woken, committing,
  begin_asleep, begin_woken, System, signal, wake_all, Step, end_epoch, stop, look, begin, begun,
  enter, look_again, leave, wake_thread, wake_committer, wake_begin, is_early,
}
use double_take.Epochs.Count.{
  stopped, sleepers, total-set, stops, sleeps, stopped_le, stopped-wake_all, sleepers-wake_all,
}

-- What the committer's state says of the phase, the number of stopped threads, the total that they
-- are counted against, and the number of threads. That no thread is stopped while the program runs
-- is said of calm runs.
abbrev pub Agrees : Bool → Committer → Bool → ℕ → ℕ → ℕ → Type 0
Agrees calm working at_end st to n = (at_end ≡ false) × (calm ≡ true → st ≡ 0)
Agrees calm ending at_end st to n = at_end ≡ true
Agrees calm stop_asleep at_end st to n = (at_end ≡ true) × (to ≡ n) × (st < n)
Agrees calm stop_woken at_end st to n = (at_end ≡ true) × (to ≡ n)
Agrees calm committing at_end st to n = (at_end ≡ true) × (st ≡ n)
Agrees calm begin_asleep at_end st to n = (at_end ≡ false) × (0 < st)
Agrees calm begin_woken at_end st to n = (at_end ≡ false) × (calm ≡ true → st ≡ 0)

pub record Inv (calm : Bool) (s : System) : Type 0 where
  pub counted : s.global.waiters ≡ stopped s.threads
  pub agrees :
      Agrees calm s.committer
        (is_end s.global.phase)
        (stopped s.threads)
        s.global.waiters_total
        (length s.threads)
  -- Nobody sleeps on after the start of an epoch.
  pub awake : is_end s.global.phase ≡ false → sleepers s.threads ≡ 0

Agrees-enter :
    (calm : Bool) (c : Committer) (st to n : ℕ)
    → Agrees calm c true st to n
    → st + 1 ≤ n
    → Agrees calm (signal (st + 1 == to) c) true (st + 1) to n
Agrees-enter calm working st to n a le = absurd (cc a.0)
Agrees-enter calm ending st to n a le = elim (Bool-cases (st + 1 == to)) [
  | inl e ↦ rw e refl
  | inr e ↦ rw e refl
]
Agrees-enter calm stop_asleep st to n a le = elim (Bool-cases (st + 1 == to)) [
  | inl e ↦ rw e (refl, a.1)
  | inr e ↦ rw e (refl, a.1, ground (arith, a.1, e))
]
Agrees-enter calm stop_woken st to n a le = elim (Bool-cases (st + 1 == to)) [
  | inl e ↦ rw e a
  | inr e ↦ rw e a
]
Agrees-enter calm committing st to n a le = absurd (omega (arith, a.1, le))
Agrees-enter calm begin_asleep st to n a le = absurd (cc a.0)
Agrees-enter calm begin_woken st to n a le = absurd (cc a.0)

Agrees-leave :
    (calm : Bool) (c : Committer) (st to n : ℕ)
    → Agrees calm c false (st + 1) to n
    → Agrees calm (signal (st == 0) c) false st to n
Agrees-leave calm working st to n a = elim (Bool-cases (st == 0)) [
  | inl e ↦ rw e (refl, λ h. absurd (omega (arith, a.1 h)))
  | inr e ↦ rw e (refl, λ h. absurd (omega (arith, a.1 h)))
]
Agrees-leave calm ending st to n a = absurd (cc a)
Agrees-leave calm stop_asleep st to n a = absurd (cc a.0)
Agrees-leave calm stop_woken st to n a = absurd (cc a.0)
Agrees-leave calm committing st to n a = absurd (cc a.0)
Agrees-leave calm begin_asleep st to n a = elim (Bool-cases (st == 0)) [
  | inl e ↦ rw e (refl, λ h. ==→eq st 0 e)
  | inr e ↦ rw e (refl, ground (arith, e))
]
Agrees-leave calm begin_woken st to n a = elim (Bool-cases (st == 0)) [
  | inl e ↦ rw e (refl, λ h. absurd (omega (arith, a.1 h)))
  | inr e ↦ rw e (refl, λ h. absurd (omega (arith, a.1 h)))
]

-- What the committer makes of the threads that have stopped, when it looks.
Agrees-look :
    (calm : Bool) (waiters st n : ℕ)
    → waiters ≡ st
    → st ≤ n
    → Agrees calm (if not (waiters == n) then stop_asleep else committing) true st n n
Agrees-look calm waiters st n e le = elim (Bool-cases (waiters == n)) [
  | inl all ↦ rw all (refl, sym e ∙ ==→eq waiters n all)
  | inr some_run ↦ rw some_run (refl, refl, ground (arith, e, le, some_run))
]

Agrees-begin :
    (calm : Bool) (waiters st to n : ℕ)
    → waiters ≡ st
    → Agrees calm (if not (waiters == 0) then begin_asleep else working) false st to n
Agrees-begin calm waiters st to n e = elim (Bool-cases (waiters == 0)) [
  | inl none_there ↦ rw none_there (refl, λ h. sym e ∙ ==→eq waiters 0 none_there)
  | inr there ↦ rw there (refl, ground (arith, e, there))
]

module _ (calm : Bool) (s : System) (inv : Inv calm s) where
  end_epoch-Inv : Inv calm (record s { committer = ending; global = set_epoch_end s.global })
  unfolding set_epoch_end
  end_epoch-Inv = record { counted = inv.counted; agrees = refl; awake = λ h. absurd (cc h) }

  stop-Inv :
      s.committer ≡ ending
      → Inv calm (record s {
        committer =
            if (wait_threads_stops s.global (length s.threads)).1 then stop_asleep else committing;
        global = (wait_threads_stops s.global (length s.threads)).0;
      })
  unfolding wait_threads_stops
  stop-Inv c = record {
    counted = inv.counted;
    agrees = rw (at_end c) (
        Agrees-look calm s.global.waiters (stopped s.threads) (length s.threads) inv.counted
          (stopped_le s.threads));
    awake = inv.awake;
  }
    where
      at_end : s.committer ≡ ending → is_end s.global.phase ≡ true
      at_end c = rw c at inv.agrees

  look-Inv :
      s.committer ≡ stop_woken
      → Inv calm (record s { committer = if still_waits s.global then stop_asleep else committing })
  unfolding still_waits
  look-Inv c =
      let (at_end, to) = agreed c in
      record {
        counted = inv.counted;
        agrees =
            rw (at_end, to)
              (Agrees-look calm s.global.waiters (stopped s.threads) (length s.threads) inv.counted
                (stopped_le s.threads));
        awake = inv.awake;
      }
    where
      agreed :
          s.committer ≡ stop_woken
          → (is_end s.global.phase ≡ true) × (s.global.waiters_total ≡ length s.threads)
      agreed c = rw c at inv.agrees

  begin-Inv : Inv calm (record s {
    committer = if (epoch_begin_all s.global).1 then begin_asleep else working;
    global = (epoch_begin_all s.global).0;
    threads = wake_all s.threads;
  })
  unfolding epoch_begin_all
  begin-Inv = record {
    counted = inv.counted ∙ sym (stopped-wake_all s.threads);
    agrees =
        Agrees-begin calm s.global.waiters (stopped (wake_all s.threads)) s.global.waiters_total
          (length (wake_all s.threads)) (inv.counted ∙ sym (stopped-wake_all s.threads));
    awake = λ h. sleepers-wake_all s.threads;
  }

  begun-Inv : s.committer ≡ begin_woken → Inv calm (record s { committer = working })
  begun-Inv c = record { counted = inv.counted; agrees = agreed c; awake = inv.awake }
    where
      agreed :
          s.committer ≡ begin_woken
          → (is_end s.global.phase ≡ false) × (calm ≡ true → stopped s.threads ≡ 0)
      agreed c = rw c at inv.agrees

  -- A thread that changes between sleep and wakefulness, while the phase is the end.
  swap-Inv :
      (i : ℕ) (p q : Thread)
      → get_elem? s.threads i ≡ some p
      → stops p ≡ stops q
      → (is_end s.global.phase ≡ true) ⊎ (sleeps q ≡ 0)
      → Inv calm (record s { threads = set s.threads i q })
  swap-Inv i p q at same ok_to =
      let counted : stopped (set s.threads i q) ≡ stopped s.threads =
        omega (arith, total-set stops s.threads i p q at, same) in
      record {
        counted = inv.counted ∙ sym counted;
        agrees = rw (counted, length-set s.threads i q) inv.agrees;
        awake = λ h. elim ok_to [
          | inl e ↦ absurd (cc (e, h))
          | inr z ↦ omega (arith, total-set sleeps s.threads i p q at, inv.awake h, z)
        ];
      }

  enter-Inv :
      (i : ℕ)
      → get_elem? s.threads i ≡ some running
      → is_end s.global.phase ≡ true
      → Inv calm (record s {
        global = record s.global { waiters = s.global.waiters + 1 };
        committer = signal (s.global.waiters + 1 == s.global.waiters_total) s.committer;
        threads = set s.threads i asleep;
      })
  enter-Inv i at e =
      let counted : stopped (set s.threads i asleep) ≡ stopped s.threads + 1 =
        omega (arith, total-set stops s.threads i running asleep at) in
      let fits : stopped s.threads + 1 ≤ length s.threads =
        omega
          (arith, counted, stopped_le (set s.threads i asleep), length-set s.threads i asleep) in
      record {
        counted = omega (arith, inv.counted, counted);
        agrees =
            rw (counted, length-set s.threads i asleep, inv.counted, e)
              (Agrees-enter calm s.committer (stopped s.threads) s.global.waiters_total
                (length s.threads) (rw e at inv.agrees) fits);
        awake = λ h. absurd (cc (e, h));
      }

  leave-Inv :
      (i : ℕ)
      → get_elem? s.threads i ≡ some woken
      → is_end s.global.phase ≡ false
      → Inv calm (record s {
        global = (leave_wait s.global).0;
        committer = signal (leave_wait s.global).1 s.committer;
        threads = set s.threads i running;
      })
  unfolding leave_wait
  leave-Inv i at e =
      let counted : stopped s.threads ≡ stopped (set s.threads i running) + 1 =
        omega (arith, total-set stops s.threads i woken running at) in
      let fewer : s.global.waiters - 1 ≡ stopped (set s.threads i running) =
        omega (arith, inv.counted, counted) in
      record {
        counted = fewer;
        agrees =
            rw (fewer, e, length-set s.threads i running)
              (Agrees-leave calm s.committer (stopped (set s.threads i running))
                s.global.waiters_total (length s.threads) (rw (e, counted) at inv.agrees));
        awake = λ h. omega (arith, total-set sleeps s.threads i woken running at, inv.awake h);
      }

  wake_committer-Inv : s.committer ≡ stop_asleep → Inv calm (record s { committer = stop_woken })
  wake_committer-Inv c = record { counted = inv.counted; agrees = agreed c; awake = inv.awake }
    where
      agreed :
          s.committer ≡ stop_asleep
          → (is_end s.global.phase ≡ true) × (s.global.waiters_total ≡ length s.threads)
      agreed c = let (e, to, less) = rw c at inv.agrees in (e, to)

  wake_begin-Inv :
      s.committer ≡ begin_asleep → calm ≡ false → Inv calm (record s { committer = begin_woken })
  wake_begin-Inv c wild = record { counted = inv.counted; agrees = agreed c; awake = inv.awake }
    where
      agreed :
          s.committer ≡ begin_asleep
          → (is_end s.global.phase ≡ false) × (calm ≡ true → stopped s.threads ≡ 0)
      agreed c = let (e, some_stopped) = rw c at inv.agrees in (e, λ h. absurd (cc (h, wild)))

pair_of_ok : {A : Type 0} {a b : A} → ok a ≡ ok b → b ≡ a
pair_of_ok h = cc

-- A thread can only enter at the end of an epoch.
pub enter_wait_lem :
    (g h : Global) (b : Bool)
    → enter_wait g ≡ ok (h, b)
    → (is_end g.phase ≡ true)
      × (h ≡ record g { waiters = g.waiters + 1 })
      × (b ≡ (g.waiters + 1 == g.waiters_total))
unfolding enter_wait is_epoch_end
enter_wait_lem g h b e = elim (Bool-cases (is_end g.phase)) [
  | inl at_end ↦
      let eq = pair_of_ok (rw (enter_wait, is_epoch_end, at_end) at e) in
      (at_end, ap (λ p. p.0) eq, ap (λ p. p.1) eq)
  | inr other ↦ absurd (cc (rw (enter_wait, is_epoch_end, other) at e))
]

not_calm : (calm : Bool) → (calm ≡ true → true ≡ false) → calm ≡ false
not_calm true h = absurd (cc (h refl))
not_calm false h = refl

-- Every step keeps the agreement between the committer and the threads, in a calm run every step that
-- is no early wake-up.
pub Step-Inv :
    (calm : Bool) (s s' : System)
    → Inv calm s
    → (step : Step s s') → (calm ≡ true → is_early step ≡ false)
    → Inv calm s'
unfolding is_epoch_end
Step-Inv calm s s' inv (end_epoch c clear eq) ok_to = rw eq (end_epoch-Inv calm s inv)
Step-Inv calm s s' inv (stop c eq) ok_to = rw eq (stop-Inv calm s inv c)
Step-Inv calm s s' inv (look c eq) ok_to = rw eq (look-Inv calm s inv c)
Step-Inv calm s s' inv (begin c eq) ok_to = rw eq (begin-Inv calm s inv)
Step-Inv calm s s' inv (begun c eq) ok_to = rw eq (begun-Inv calm s inv c)
Step-Inv calm s s' inv (enter i g b at e eq) ok_to =
    let (at_end, eg, eb) = enter_wait_lem s.global g b e in
    rw (eq, eg, eb) (enter-Inv calm s inv i at at_end)
Step-Inv calm s s' inv (look_again i at e eq) ok_to =
    rw eq (swap-Inv calm s inv i woken asleep at refl (inl e))
Step-Inv calm s s' inv (leave i at e eq) ok_to = rw eq (leave-Inv calm s inv i at e)
Step-Inv calm s s' inv (wake_thread i at eq) ok_to =
    rw eq (swap-Inv calm s inv i asleep woken at refl (inr refl))
Step-Inv calm s s' inv (wake_committer c eq) ok_to = rw eq (wake_committer-Inv calm s inv c)
Step-Inv calm s s' inv (wake_begin c eq) ok_to =
    rw eq (wake_begin-Inv calm s inv c (not_calm calm ok_to))
