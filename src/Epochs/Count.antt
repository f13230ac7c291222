-- ===== src/Epochs/Count.antt =====
-- How many threads have stopped, and how many of them sleep: include/globalinfo.hh.
use double_take.Prelude.{
  ℕ, zero, suc, ◌+◌, ◌≤◌, ◌<◌, ◌≡◌, refl, List, [], ◌∷◌, some, get_elem?, set, length, arith,
}
use double_take.Epochs.System.{Thread, running, asleep, woken, wake, wake_all}

abbrev pub stops : Thread → ℕ
stops running = 0
stops _ = 1

abbrev pub sleeps : Thread → ℕ
sleeps asleep = 1
sleeps _ = 0

abbrev pub total : (Thread → ℕ) → List Thread → ℕ
total f [] = 0
total f (t ∷ ts) = f t + total f ts

abbrev pub stopped : List Thread → ℕ
stopped = total stops

abbrev pub sleepers : List Thread → ℕ
sleepers = total sleeps

-- A thread that changes its state changes a count by its own share.
pub total-set :
    (f : Thread → ℕ) (ts : List Thread) (i : ℕ) (p q : Thread)
    → get_elem? ts i ≡ some p
    → total f (set ts i q) + f p ≡ total f ts + f q
total-set f [] i p q h = ground arith
total-set f (t ∷ ts) zero p q h = ground arith
total-set f (t ∷ ts) (suc i) p q h = omega (arith, total-set f ts i p q h)

pub stops_le : (t : Thread) → stops t ≤ 1
stops_le running = omega arith
stops_le asleep = omega arith
stops_le woken = omega arith

pub stopped_le : (ts : List Thread) → stopped ts ≤ length ts
stopped_le [] = omega arith
stopped_le (t ∷ ts) = omega (arith, stops_le t, stopped_le ts)

pub wake-stops : (t : Thread) → stops (wake t) ≡ stops t
wake-stops running = refl
wake-stops asleep = refl
wake-stops woken = refl

pub wake-sleeps : (t : Thread) → sleeps (wake t) ≡ 0
wake-sleeps running = refl
wake-sleeps asleep = refl
wake-sleeps woken = refl

pub stopped-wake_all : (ts : List Thread) → stopped (wake_all ts) ≡ stopped ts
stopped-wake_all [] = refl
stopped-wake_all (t ∷ ts) = omega (arith, wake-stops t, stopped-wake_all ts)

pub sleepers-wake_all : (ts : List Thread) → sleepers (wake_all ts) ≡ 0
sleepers-wake_all [] = refl
sleepers-wake_all (t ∷ ts) = omega (arith, wake-sleeps t, sleepers-wake_all ts)

pub length-wake_all : (ts : List Thread) → length (wake_all ts) ≡ length ts
length-wake_all [] = refl
length-wake_all (t ∷ ts) = omega (arith, length-wake_all ts)

abbrev pub runs : Thread → ℕ
runs running = 1
runs _ = 0

abbrev pub wakes : Thread → ℕ
wakes woken = 1
wakes _ = 0

pub stops-runs : (t : Thread) → stops t + runs t ≡ 1
stops-runs running = refl
stops-runs asleep = refl
stops-runs woken = refl

pub stopped-runs : (ts : List Thread) → stopped ts + total runs ts ≡ length ts
stopped-runs [] = refl
stopped-runs (t ∷ ts) = omega (arith, stops-runs t, stopped-runs ts)

pub stops-sleeps : (t : Thread) → stops t ≡ sleeps t + wakes t
stops-sleeps running = refl
stops-sleeps asleep = refl
stops-sleeps woken = refl

pub stopped-sleepers : (ts : List Thread) → stopped ts ≡ sleepers ts + total wakes ts
stopped-sleepers [] = refl
stopped-sleepers (t ∷ ts) = omega (arith, stops-sleeps t, stopped-sleepers ts)

pub find_running :
    (ts : List Thread) → 0 < total runs ts → (i : ℕ) × (get_elem? ts i ≡ some running)
find_running [] h = absurd (omega (arith, h))
find_running (running ∷ ts) h = (0, refl)
find_running (asleep ∷ ts) h = let (i, at) = find_running ts (omega (arith, h)) in (suc i, at)
find_running (woken ∷ ts) h = let (i, at) = find_running ts (omega (arith, h)) in (suc i, at)

pub find_woken : (ts : List Thread) → 0 < total wakes ts → (i : ℕ) × (get_elem? ts i ≡ some woken)
find_woken [] h = absurd (omega (arith, h))
find_woken (woken ∷ ts) h = (0, refl)
find_woken (asleep ∷ ts) h = let (i, at) = find_woken ts (omega (arith, h)) in (suc i, at)
find_woken (running ∷ ts) h = let (i, at) = find_woken ts (omega (arith, h)) in (suc i, at)

pub total-get :
    (f : Thread → ℕ) (ts : List Thread) (i : ℕ) (t : Thread)
    → get_elem? ts i ≡ some t
    → f t ≤ total f ts
total-get f [] i t h = absurd (cc h)
total-get f (x ∷ ts) zero t h = ground arith
total-get f (x ∷ ts) (suc i) t h = omega (arith, total-get f ts i t h)

pub wake-wakes : (t : Thread) → wakes (wake t) ≡ stops t
wake-wakes running = refl
wake-wakes asleep = refl
wake-wakes woken = refl

pub wakes-wake_all : (ts : List Thread) → total wakes (wake_all ts) ≡ stopped ts
wakes-wake_all [] = refl
wakes-wake_all (t ∷ ts) = omega (arith, wake-wakes t, wakes-wake_all ts)
