-- ===== src/Threads/Count.antt =====
-- How many slots are taken: include/threadinfo.hh.
use double_take.Prelude.{
  ℕ, zero, suc, ◌+◌, ◌≤◌, ◌<◌, ◌≡◌, inl, inr, refl, true, some, List, [], ◌∷◌, if◌then◌else◌,
  get_elem?, set, length, Bool-cases, arith,
}
use double_take.Threads.{Thread, ThreadInfo, max_alive_threads}

abbrev pub in_use : Thread → ℕ
in_use t = if t.available then 0 else 1

-- How many slots are taken.
abbrev pub used : List Thread → ℕ
used [] = 0
used (t ∷ ts) = in_use t + used ts

in_use_le : (t : Thread) → in_use t ≤ 1
in_use_le t = ground arith

pub used-set :
    (ts : List Thread) (i : ℕ) (t t' : Thread)
    → get_elem? ts i ≡ some t
    → used (set ts i t') + in_use t ≡ used ts + in_use t'
used-set [] i t t' h = absurd (cc h)
used-set (x ∷ ts) zero t t' h = ground arith
used-set (x ∷ ts) (suc i) t t' h = omega (arith, used-set ts i t t' h)

-- The slots are set up, and as many of them are taken as threads are alive.
pub record IsValid (info : ThreadInfo) : Type 0 where
  pub sized : length info.threads ≡ max_alive_threads
  pub total : info.total_threads ≡ max_alive_threads
  pub inside : info.thread_index < max_alive_threads
  pub counted : info.alive_threads ≡ used info.threads

abbrev pub IsFree : ThreadInfo → ℕ → Type 0
IsFree info i = (t : Thread) × (get_elem? info.threads i ≡ some t) × (t.available ≡ true)

-- Some slot is free if not all are taken.
pub find_free :
    (ts : List Thread)
    → used ts < length ts
    → (i : ℕ) × (t : Thread) × (i < length ts) × (get_elem? ts i ≡ some t) × (t.available ≡ true)
find_free [] h = absurd (omega (arith, h))
find_free (t ∷ ts) h = elim (Bool-cases t.available) [
  | inl free ↦ (0, t, omega arith, refl, free)
  | inr taken ↦
      let (i, u, lt, at, free) = find_free ts (ground (arith, h, taken)) in
      (suc i, u, omega (arith, lt), at, free)
]

used_le : (ts : List Thread) → used ts ≤ length ts
used_le [] = omega arith
used_le (t ∷ ts) = omega (arith, in_use_le t, used_le ts)

pub get_elem?_inside :
    (ts : List Thread) (i : ℕ) → i < length ts → (t : Thread) × (get_elem? ts i ≡ some t)
get_elem?_inside [] i lt = absurd (omega (arith, lt))
get_elem?_inside (t ∷ ts) zero lt = (t, refl)
get_elem?_inside (t ∷ ts) (suc i) lt = get_elem?_inside ts i (omega (arith, lt))
