-- ===== src/Detector/RoundTrip.antt =====
-- `setSentinels` of include/xmemory.hh and `checkObjectOverflow` of include/sentinelmap.hh
-- together: which writes between them are found.
use double_take.Prelude.{
  ℕ, zero, suc, ◌+◌, ◌-◌, ◌%◌, ◌^◌, ◌≤◌, ◌<◌, ◌≡◌, ◌≢◌, refl, sym, ◌∙◌, ◌⊎◌, inl, inr, Bool, true,
  false, ok, arith,
}
use native.Mathlib.Decide.{dec_lt, ℕ_discrete}
use double_take.Memory.{Memory, load_byte, load_word, load_bytes}
use double_take.Memtrack.{TrackObject}
use double_take.Watchpoint.{has_to_rollback}
use double_take.Canary.{Reports}
use double_take.Canary.Detect
use double_take.SentinelMap.{SentinelMap}
use double_take.SentinelMap.Setup.{IsReady, InHeap}
use double_take.Detector.{spare, set_sentinels, check_object_overflow}
use double_take.Detector.Guard.{Magic, guard_word, Guarded}
use double_take.Detector.Put.{set_sentinels-Sets, guard_end}
use double_take.Detector.Check.{Misses}
use double_take.Detector.Exact.{check_object_overflow-Checks, map_Misses}

-- The guard's bytes are the same in both memories.
abbrev pub SameGuard : Memory → Memory → ℕ → ℕ → ℕ → Type 0
SameGuard mem mem' ptr block_size sz =
    (b : ℕ) → ptr + sz ≤ b → b < guard_end ptr block_size sz → load_byte mem' b ≡ load_byte mem b

load_bytes-inj :
    (n : ℕ) (m m' : Memory) (a b : ℕ)
    → load_bytes n m a ≡ load_bytes n m' a
    → a ≤ b
    → b < a + n
    → load_byte m b ≡ load_byte m' b
unfolding load_bytes
load_bytes-inj zero m m' a b e lo hi = absurd (omega (arith, lo, hi))
load_bytes-inj (suc n) m m' a b e lo hi = elim (ℕ_discrete b a) [
  | yes same ↦ rw same (omega (arith, e))
  | no other ↦ load_bytes-inj n m m' (a + 1) b (omega (arith, e)) (omega arith) (omega arith)
]

load_bytes-same :
    (n : ℕ) (m m' : Memory) (a : ℕ)
    → ((b : ℕ) → a ≤ b → b < a + n → load_byte m b ≡ load_byte m' b)
    → load_bytes n m a ≡ load_bytes n m' a
unfolding load_bytes
load_bytes-same zero m m' a h = refl
load_bytes-same (suc n) m m' a h = omega (
  arith,
  h a (omega arith) (omega arith),
  load_bytes-same n m m' (a + 1) (λ b lo hi. h b (omega arith) (omega arith)),
)

load_word-inj :
    (m m' : Memory) (a b : ℕ)
    → load_word m a ≡ load_word m' a
    → a ≤ b
    → b < a + 8
    → load_byte m b ≡ load_byte m' b
unfolding load_word
load_word-inj m m' a b e lo hi = load_bytes-inj 8 m m' a b e lo hi

load_word-same :
    (m m' : Memory) (a : ℕ)
    → ((b : ℕ) → a ≤ b → b < a + 8 → load_byte m b ≡ load_byte m' b)
    → load_word m a ≡ load_word m' a
unfolding load_word
load_word-same m m' a h = load_bytes-same 8 m m' a h

Magic-byte :
    (m m' : Memory) (p n b : ℕ)
    → Magic m p n
    → Magic m' p n
    → p ≤ b
    → b < p + n
    → load_byte m b ≡ load_byte m' b
Magic-byte m m' p n b good good' lo hi = elim (ℕ_discrete b p) [
  | yes same ↦ ground (arith, same, good.first, good'.first)
  | no other ↦ ground (
    arith,
    good.others (b - p) (omega arith) (omega arith),
    good'.others (b - p) (omega arith) (omega arith),
  )
]

module _ (mem mem' : Memory) (ptr block_size sz : ℕ) (g : Guarded mem ptr block_size sz) where
  Guarded-SameGuard : Guarded mem' ptr block_size sz → SameGuard mem mem' ptr block_size sz
  Guarded-SameGuard g' b lo hi = elim (ℕ_discrete (sz % 8) 0) [
    | yes whole ↦
        load_word-inj mem' mem (ptr + sz) b (g'.aligned whole ∙ sym (g.aligned whole)) lo
          (ground (arith, whole, hi))
    | no part ↦ elim (dec_lt b (ptr + sz + (8 - sz % 8))) [
      | yes filled ↦
          Magic-byte mem' mem (ptr + sz) (8 - sz % 8) b (g'.filled (omega arith))
            (g.filled (omega arith)) lo filled
      | no behind ↦
          let long : 8 < spare block_size sz = ground (arith, part, hi, behind) in
          load_word-inj mem' mem (guard_word ptr sz + 8) b
            (g'.next (omega arith) long ∙ sym (g.next (omega arith) long)) (omega arith)
            (ground (arith, part, long, hi))
    ]
  ]

  SameGuard-Guarded : SameGuard mem mem' ptr block_size sz → Guarded mem' ptr block_size sz
  SameGuard-Guarded same = record {
    aligned = λ whole.
        load_word-same mem' mem (ptr + sz) (λ b lo hi. same b lo (ground (arith, whole, hi)))
        ∙ g.aligned whole;
    filled = λ part. record {
      first = same (ptr + sz) (omega arith) (ground (arith, part)) ∙ (g.filled part).first;
      others = λ i lo hi.
          same (ptr + sz + i) (omega arith) (ground (arith, part, hi))
          ∙ (g.filled part).others i lo hi;
    };
    next = λ part long.
        load_word-same mem' mem (guard_word ptr sz + 8)
          (λ b lo hi. same b (omega arith) (ground (arith, part, long, hi)))
        ∙ g.next part long;
  }

-- Either nothing is found, `P` holds and nothing is reported, or the program has to roll back.
abbrev pub Verdict : Bool → Reports → Reports → Type 0 → Type 0
Verdict found r r' P =
    ((found ≡ false) × P × (r' ≡ r))
    ⊎ ((found ≡ true) × (¬ P) × (has_to_rollback r'.watchpoint ≡ true))

verdict :
    {P : Type 0} (found : Bool) (r r' : Reports)
    → Misses found P
    → (found ≡ false → r' ≡ r)
    → (found ≡ true → has_to_rollback r'.watchpoint ≡ true)
    → Verdict found r r' P
verdict found r r' (inl (e, p)) silent rolls = inl (e, p, silent e)
verdict found r r' (inr (e, no_p)) silent rolls = inr (e, no_p, rolls e)

-- What a check that misses nothing says of a guard that was put.
pub Guarded-verdict :
    (mem1 mem2 : Memory) (ptr block_size sz : ℕ) (found : Bool) (r r' : Reports)
    → Guarded mem1 ptr block_size sz
    → Misses found (Guarded mem2 ptr block_size sz)
    → (found ≡ false → r' ≡ r)
    → (found ≡ true → has_to_rollback r'.watchpoint ≡ true)
    → Verdict found r r' (SameGuard mem1 mem2 ptr block_size sz)
Guarded-verdict mem1 mem2 ptr block_size sz found r r' g m silent rolls =
    verdict found r r'
      (map_Misses refl (Guarded-SameGuard mem1 mem2 ptr block_size sz g)
        (SameGuard-Guarded mem1 mem2 ptr block_size sz g) m)
      silent rolls

-- `setSentinels` on an object, and later `checkObjectOverflow` on any memory. Where the
-- guard's words lie in the heap of a sentinel map that is set up, the object has a start, and
-- the watchpoints and the tracker can take two more reports (fewer than 2 ^ 31 in all), both
-- calls return; the check returns true exactly if a byte of the guard has another value than
-- the one that was put, and the program then has to roll back; else it reports nothing.
pub check_object_overflow-set_sentinels :
    (n : ℕ) (r : Reports) (raw : TrackObject) (s : SentinelMap) (mem mem2 : Memory)
    (ptr block_size sz : ℕ) (clean : Bool)
    → Detect.IsReady n r
    → n + 2 < 2 ^ 31
    → ptr ≢ 0
    → IsReady s
    → InHeap s (guard_word ptr sz)
    → (8 < spare block_size sz → InHeap s (guard_word ptr sz + 8))
    → (s1 : SentinelMap) × (mem1 : Memory) × (found : Bool) × (s2 : SentinelMap) × (r2 : Reports)
      × (set_sentinels s mem ptr block_size sz ≡ ok (s1, mem1))
      × (check_object_overflow r raw s1 mem2 ptr block_size sz clean ≡ ok (found, s2, r2))
      × Verdict found r r2 (SameGuard mem1 mem2 ptr block_size sz)
check_object_overflow-set_sentinels n r raw s mem mem2 ptr block_size sz clean ready small
      some_start map here next =
    let (s1, mem1, e1, sets) = set_sentinels-Sets s mem ptr block_size sz map here next in
    let here1 : InHeap s1 (guard_word ptr sz) =
      omega (arith, sets.same_start, sets.same_size, here) in
    let (found, s2, r2, e2, m, c) =
      check_object_overflow-Checks n r raw s1 mem2 ptr block_size sz clean ready small some_start
        sets.ready here1 (λ _ long. omega (arith, sets.same_start, sets.same_size, next long)) in
    (
      s1,
      mem1,
      found,
      s2,
      r2,
      e1,
      e2,
      Guarded-verdict mem1 mem2 ptr block_size sz found r r2 sets.guarded m c.silent c.rolls,
    )
