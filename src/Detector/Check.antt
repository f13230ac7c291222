-- ===== src/Detector/Check.antt =====
-- The parts of `checkObjectOverflow` of include/sentinelmap.hh.
use double_take.Prelude.{
  ℕ, zero, suc, ◌+◌, ◌-◌, ◌^◌, ◌≤◌, ◌<◌, ◌≡◌, ◌≢◌, refl, ◌⊎◌, inl, inr, Bool, true, false, ok,
  arith, ne→==,
}
use native.Mathlib.Decide.{ℕ_discrete}
use double_take.Defines.{overflow, sentinel_word, magic_byte_not_aligned}
use double_take.Memory.{Memory, load_byte, load_word}
use double_take.Memtrack.{TrackObject}
use double_take.Watchpoint.{has_to_rollback}
use double_take.Watchpoint.Laws.{add_watchpoint-Adds}
use double_take.Canary.{Reports}
use double_take.Canary.Detect
use double_take.SentinelMap.{SentinelMap, check_sentinel}
use double_take.SentinelMap.Setup.{IsReady, InHeap, marked}
use double_take.SentinelMap.Object.{Marks, clear-Marks, check_and_clear_sentinel-Marks}
use double_take.Detector.{
  some_not_magic, magic_overwritten, report_overflow, report_if, check_next, clean_at,
}
use double_take.Detector.Guard.{Magic}

-- `b` is false exactly if `P` holds.
abbrev pub Misses : Bool → Type 0 → Type 0
Misses b P = ((b ≡ false) × P) ⊎ ((b ≡ true) × (¬ P))

some_not_magic-Misses :
    (rounds : ℕ) (mem : Memory) (addr : ℕ)
    → Misses
        (some_not_magic rounds mem addr)
        ((i : ℕ) → i < rounds → load_byte mem (addr + i) ≡ magic_byte_not_aligned)
unfolding some_not_magic
some_not_magic-Misses zero mem addr = inl (refl, λ i h. absurd (omega (arith, h)))
some_not_magic-Misses (suc rounds) mem addr =
    elim (ℕ_discrete (load_byte mem addr) magic_byte_not_aligned) [
      | yes good ↦ elim (some_not_magic-Misses rounds mem (addr + 1)) [
        | inl (e, all) ↦ inl (ground (arith, good, e), every rounds mem addr good all)
        | inr (e, some_bad) ↦ inr (
          ground (arith, good, e),
          λ all. some_bad (λ i h. ground (arith, all (suc i) (omega arith))),
        )
      ]
      | no bad ↦ inr (rw (ne→== _ _ bad) refl, λ all. bad (ground (arith, all 0 (omega arith))))
    ]
  where
    every :
        (rounds : ℕ) (mem : Memory) (addr : ℕ)
        → load_byte mem addr ≡ magic_byte_not_aligned
        → ((i : ℕ) → i < rounds → load_byte mem (addr + 1 + i) ≡ magic_byte_not_aligned)
        → (i : ℕ) → i < suc rounds
        → load_byte mem (addr + i) ≡ magic_byte_not_aligned
    every rounds mem addr good all zero h = ground (arith, good)
    every rounds mem addr good all (suc i) h = ground (arith, all i (omega arith))

pub magic_overwritten-Misses :
    (mem : Memory) (p n : ℕ) → 0 < n → n < 9 → Misses (magic_overwritten mem p n) (Magic mem p n)
unfolding magic_overwritten
magic_overwritten-Misses mem p n some_byte few = elim (ℕ_discrete n 1) [
  | yes single ↦ elim (ℕ_discrete (load_byte mem p) magic_byte_not_aligned) [
    | yes good ↦ inl (
      ground (arith, single, good),
      record {
        first = ground (arith, single, good);
        others = λ i lo hi. absurd (omega (arith, single, lo, hi));
      },
    )
    | no bad ↦
        inr (ground (arith, single, ne→== _ _ bad), λ m. bad (ground (arith, single, m.first)))
  ]
  | no more ↦ elim (ℕ_discrete (load_byte mem p) (n - 1)) [
    | yes good ↦ elim (some_not_magic-Misses (n - 1) mem (p + 1)) [
      | inl (e, all) ↦ inl (
        ground (arith, more, some_byte, good, e),
        record {
          first = ground (arith, more, good);
          others = λ i lo hi. ground (arith, all (i - 1) (omega arith));
        },
      )
      | inr (e, some_bad) ↦ inr (
        ground (arith, more, some_byte, good, e),
        λ m. some_bad (λ i h. ground (arith, m.others (i + 1) (omega arith) (omega arith))),
      )
    ]
    | no bad ↦
        inr
          (ground (arith, more, some_byte, ne→== _ _ bad), λ m. bad (ground (arith, more, m.first)))
  ]
]

pub check_sentinel-Misses :
    (mem : Memory) (a : ℕ) → Misses (check_sentinel mem a) (load_word mem a ≡ sentinel_word)
check_sentinel-Misses mem a = elim (ℕ_discrete (load_word mem a) sentinel_word) [
  | yes good ↦ inl (ground (arith, good), good)
  | no bad ↦ inr (rw (ne→== _ _ bad) refl, bad)
]

-- What `report_if` leaves: reports that are as ready as before, with at most one more.
pub record Reported (n : ℕ) (found : Bool) (r r' : Reports) : Type 0 where
  pub reports : ℕ
  pub ready : Detect.IsReady reports r'
  pub few : reports ≤ n + 1
  pub kept : found ≡ false → r' ≡ r
  pub rolls : found ≡ true → has_to_rollback r'.watchpoint ≡ true

pub report_if-Reported :
    (found : Bool) (n : ℕ) (r : Reports) (raw : TrackObject) (mem : Memory) (addr ptr sz : ℕ)
    → Detect.IsReady n r
    → n + 1 < 2 ^ 31
    → ptr ≢ 0
    → (r' : Reports) × (report_if found r raw mem addr ptr sz ≡ ok r') × Reported n found r r'
unfolding report_if report_overflow
report_if-Reported false n r raw mem addr ptr sz ready small some_start = (
  r,
  refl,
  record {
    reports = n;
    ready = ready;
    few = omega arith;
    kept = λ _. refl;
    rolls = λ e. absurd (cc e);
  },
)
report_if-Reported true n r raw mem addr ptr sz ready small some_start =
    let (w, t, o', e, adds, tracks, has, roll) =
      add_watchpoint-Adds r.watchpoint ready.bounded addr (load_word mem addr) ptr overflow n sz
        r.memtrack raw ready.valid small some_start (λ same. absurd (cc same)) in
    (
      record { watchpoint = w; memtrack = t },
      rw e refl,
      record {
        reports = n + 1;
        ready = record { bounded = adds.bounded; valid = tracks.valid };
        few = omega arith;
        kept = λ e'. absurd (cc e');
        rolls = λ _. roll;
      },
    )

-- The sentinel map covers the same heap as before, and the mark of `addr` is off if it was to be
-- cleaned.
pub record Cleaned (clean : Bool) (s s' : SentinelMap) (addr : ℕ) : Type 0 where
  pub ready : IsReady s'
  pub same_start : s'.heap_start ≡ s.heap_start
  pub same_size : s'.bitmap.elements ≡ s.bitmap.elements
  pub off : clean ≡ true → marked s' addr ≡ 0
  pub kept : clean ≡ false → s' ≡ s

pub as_it_was : (s : SentinelMap) (addr : ℕ) → IsReady s → Cleaned false s s addr
as_it_was s addr r = record {
  ready = r;
  same_start = refl;
  same_size = refl;
  off = λ e. absurd (cc e);
  kept = λ _. refl;
}

without_mark : (s s' : SentinelMap) (addr : ℕ) → Marks s s' addr 0 → Cleaned true s s' addr
without_mark s s' addr m = record {
  ready = m.ready;
  same_start = m.same_start;
  same_size = m.same_size;
  off = λ _. m.here;
  kept = λ e. absurd (cc e);
}

module _ (s : SentinelMap) (addr : ℕ) (r : IsReady s) (h : InHeap s addr) where
  pub check_next-Cleaned :
      (clean : Bool) (mem : Memory)
      → (s' : SentinelMap) × (check_next clean s mem addr ≡ ok (check_sentinel mem addr, s'))
        × Cleaned clean s s' addr
  unfolding check_next
  check_next-Cleaned false mem = (s, refl, as_it_was s addr r)
  check_next-Cleaned true mem =
      let (s', e, m) = check_and_clear_sentinel-Marks s addr r h mem in
      (s', e, without_mark s s' addr m)

  pub clean_at-Cleaned :
      (clean : Bool)
      → (s' : SentinelMap) × (clean_at clean s addr ≡ ok s') × Cleaned clean s s' addr
  unfolding clean_at
  clean_at-Cleaned false = (s, refl, as_it_was s addr r)
  clean_at-Cleaned true =
      let (s', e, m) = clear-Marks s addr r h in (s', e, without_mark s s' addr m)
