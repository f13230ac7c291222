-- ===== src/Detector/Exact.antt =====
-- `checkObjectOverflow` of include/sentinelmap.hh finds each change of an object's guard, and
-- nothing else.
use double_take.Prelude.{
  ℕ, ◌+◌, ◌-◌, ◌%◌, ◌^◌, ◌≤◌, ◌<◌, ◌≡◌, ◌≢◌, refl, sym, ap, ◌∙◌, ◌⊎◌, inl, inr, Bool, true, false,
  not, ◌&&◌, ◌||◌, ok, arith, ltb, ◌==◌, if◌then◌else◌,
}
use native.Mathlib.Decide.{dec_lt, ℕ_discrete}
use double_take.Defines.{word_size, sentinel_word}
use double_take.Memory.{Memory, load_word}
use double_take.Memtrack.{TrackObject}
use double_take.Watchpoint.{has_to_rollback}
use double_take.Canary.{Reports}
use double_take.Canary.Detect
use double_take.SentinelMap.{SentinelMap, check_sentinel}
use double_take.SentinelMap.Setup.{IsReady, InHeap, marked}
use double_take.Detector.{
  spare, magic_overwritten, report_if, check_next, clean_at, check_object_overflow,
  non_aligned_bytes,
}
use double_take.Detector.Guard.{non_aligned_bytes-mod, Magic, guard_word, Guarded}
use double_take.Detector.Check.{
  Misses, check_sentinel-Misses, magic_overwritten-Misses, Reported, report_if-Reported, Cleaned,
  check_next-Cleaned, clean_at-Cleaned,
}

-- The tests of `checkObjectOverflow`, as it has them.
abbrev own : Memory → ℕ → ℕ → Bool
own mem ptr sz =
    if non_aligned_bytes sz == 0
    then check_sentinel mem (ptr + sz)
    else magic_overwritten mem (ptr + sz) (word_size - non_aligned_bytes sz)

abbrev next_word : ℕ → ℕ → ℕ
next_word ptr sz = ptr + sz - non_aligned_bytes sz + word_size

abbrev has_next : ℕ → ℕ → Bool
has_next block_size sz = not (non_aligned_bytes sz == 0) && ltb word_size (spare block_size sz)

composed :
    (r r1 r2 : Reports) (raw : TrackObject) (s s1 s2 : SentinelMap) (mem : Memory)
    (ptr block_size sz : ℕ) (clean over_next : Bool)
    → (if has_next block_size sz then check_next clean s mem (next_word ptr sz) else ok (false, s))
      ≡ ok (over_next, s1)
    → report_if over_next r raw mem (next_word ptr sz) ptr sz ≡ ok r1
    → clean_at clean s1 (ptr + sz - non_aligned_bytes sz) ≡ ok s2
    → report_if (own mem ptr sz) r1 raw mem (ptr + sz - non_aligned_bytes sz) ptr sz ≡ ok r2
    → check_object_overflow r raw s mem ptr block_size sz clean
      ≡ ok (own mem ptr sz || over_next, s2, r2)
unfolding check_object_overflow
composed r r1 r2 raw s s1 s2 mem ptr block_size sz clean over_next e1 e2 e3 e4 =
    rw (e1, e2, e3, e4) refl

-- The object's own part of its guard, and the word behind it.
abbrev Own : Memory → ℕ → ℕ → Type 0
Own mem ptr sz =
    (sz % 8 ≡ 0 → load_word mem (ptr + sz) ≡ sentinel_word)
    × (0 < sz % 8 → Magic mem (ptr + sz) (8 - sz % 8))

abbrev Next : Memory → ℕ → ℕ → ℕ → Type 0
Next mem ptr block_size sz =
    0 < sz % 8 → 8 < spare block_size sz → load_word mem (guard_word ptr sz + 8) ≡ sentinel_word

pub map_Misses :
    {P Q : Type 0} {b b' : Bool} → b' ≡ b → (P → Q) → (Q → P) → Misses b P → Misses b' Q
map_Misses e f g (inl (e', p)) = inl (e ∙ e', f p)
map_Misses e f g (inr (e', no_p)) = inr (e ∙ e', λ q. no_p (g q))

own-Misses : (mem : Memory) (ptr sz : ℕ) → Misses (own mem ptr sz) (Own mem ptr sz)
own-Misses mem ptr sz = elim (ℕ_discrete (sz % 8) 0) [
  | yes whole ↦
      map_Misses (ground (arith, non_aligned_bytes-mod sz, whole))
        (λ good. (λ _. good, λ part. absurd (omega (arith, whole, part)))) (λ good. good.0 whole)
        (check_sentinel-Misses mem (ptr + sz))
  | no part ↦
      map_Misses (ground (arith, non_aligned_bytes-mod sz, part))
        (λ good. (λ whole. absurd (part whole), λ _. good)) (λ good. good.1 (omega arith))
        (magic_overwritten-Misses mem (ptr + sz) (8 - sz % 8) (omega arith) (omega arith))
]

-- The map covers the same heap, and is the same where it was not to be cleaned.
record Covers (clean : Bool) (s s' : SentinelMap) : Type 0 where
  pub ready : IsReady s'
  pub same_start : s'.heap_start ≡ s.heap_start
  pub same_size : s'.bitmap.elements ≡ s.bitmap.elements
  pub kept : clean ≡ false → s' ≡ s

has_next-cases :
    (block_size sz : ℕ)
    → ((has_next block_size sz ≡ true) × (0 < sz % 8) × (8 < spare block_size sz))
      ⊎ ((has_next block_size sz ≡ false) × ((sz % 8 ≡ 0) ⊎ (spare block_size sz ≤ 8)))
has_next-cases block_size sz = elim (ℕ_discrete (sz % 8) 0) [
  | yes whole ↦ inr (ground (arith, non_aligned_bytes-mod sz, whole), inl whole)
  | no part ↦ elim (dec_lt 8 (spare block_size sz)) [
    | yes long ↦ inl (ground (arith, non_aligned_bytes-mod sz, part, long), omega arith, long)
    | no short ↦ inr (ground (arith, non_aligned_bytes-mod sz, part, short), inr (omega arith))
  ]
]

next_word-eq : (ptr sz : ℕ) → next_word ptr sz ≡ guard_word ptr sz + 8
next_word-eq ptr sz = omega (arith, non_aligned_bytes-mod sz)

Next-Misses :
    (s : SentinelMap) (mem : Memory) (ptr block_size sz : ℕ) (clean : Bool)
    → IsReady s
    → (0 < sz % 8 → 8 < spare block_size sz → InHeap s (guard_word ptr sz + 8))
    → (over_next : Bool) × (s1 : SentinelMap) × ((if has_next block_size sz
          then check_next clean s mem (next_word ptr sz)
          else ok (false, s))
        ≡ ok (over_next, s1))
      × Misses over_next (Next mem ptr block_size sz)
      × Covers clean s s1
Next-Misses s mem ptr block_size sz clean r h = elim (has_next-cases block_size sz) [
  | inl (e, part, long) ↦
      let here : InHeap s (next_word ptr sz) = rw (next_word-eq ptr sz) (h part long) in
      let (s1, e1, c) = check_next-Cleaned s (next_word ptr sz) r here clean mem in
      (
        check_sentinel mem (next_word ptr sz),
        s1,
        rw e e1,
        map_Misses refl (λ good. λ _ _. ap (load_word mem) (sym (next_word-eq ptr sz)) ∙ good)
            (λ good. ap (load_word mem) (next_word-eq ptr sz) ∙ good part long)
            (check_sentinel-Misses mem (next_word ptr sz)),
        record {
          ready = c.ready;
          same_start = c.same_start;
          same_size = c.same_size;
          kept = c.kept;
        },
      )
  | inr (e, none_there) ↦ (
    false,
    s,
    rw e refl,
    inl (refl, λ part long. absurd (omega (arith, part, long, none_there))),
    record { ready = r; same_start = refl; same_size = refl; kept = λ _. refl },
  )
]

-- The check finds a change exactly if one of its two parts does.
either-Misses : {P Q : Type 0} (b b' : Bool) → Misses b P → Misses b' Q → Misses (b || b') (P × Q)
either-Misses b b' (inl (e, p)) (inl (e', q)) = inl (rw (e, e') refl, (p, q))
either-Misses b b' (inl (e, p)) (inr (e', no_q)) = inr (rw (e, e') refl, λ both. no_q both.1)
either-Misses b b' (inr (e, no_p)) m = inr (rw e refl, λ both. no_p both.0)

-- What the check leaves.
pub record Checks (n : ℕ) (clean found : Bool) (r r' : Reports) (s s' : SentinelMap) (word : ℕ)
    : Type 0 where
  pub reports : ℕ
  pub can_report : Detect.IsReady reports r'
  pub few : reports ≤ n + 2
  pub silent : found ≡ false → r' ≡ r
  pub rolls : found ≡ true → has_to_rollback r'.watchpoint ≡ true
  pub ready : IsReady s'
  pub off : clean ≡ true → marked s' word ≡ 0
  pub same_marks : clean ≡ false → s' ≡ s

both_reports :
    (n : ℕ) (b b' clean : Bool) (r r1 r2 : Reports) (s s1 s2 : SentinelMap) (word : ℕ)
    → (first : Reported n b' r r1) → Reported first.reports b r1 r2
    → Covers clean s s1
    → Cleaned clean s1 s2 word
    → Checks n clean (b || b') r r2 s s2 word
both_reports n true b' clean r r1 r2 s s1 s2 word first second c1 c2 = record {
  reports = second.reports;
  can_report = second.ready;
  few = omega (arith, first.few, second.few);
  silent = λ e. absurd (cc e);
  rolls = λ _. second.rolls refl;
  ready = c2.ready;
  off = c2.off;
  same_marks = λ e. c2.kept e ∙ c1.kept e;
}
both_reports n false b' clean r r1 r2 s s1 s2 word first second c1 c2 = record {
  reports = second.reports;
  can_report = second.ready;
  few = omega (arith, first.few, second.few);
  silent = λ e. second.kept refl ∙ first.kept e;
  rolls = λ e. rw (second.kept refl) (first.rolls e);
  ready = c2.ready;
  off = c2.off;
  same_marks = λ e. c2.kept e ∙ c1.kept e;
}

-- `checkObjectOverflow` returns true exactly if the object's guard is not as it was put; then it
-- reports the words, and the program has to roll back. Otherwise it reports nothing. It takes the
-- mark of the guard's word off if it is to clean, and else leaves the marks.
pub check_object_overflow-Checks :
    (n : ℕ) (r : Reports) (raw : TrackObject) (s : SentinelMap) (mem : Memory)
    (ptr block_size sz : ℕ) (clean : Bool)
    → Detect.IsReady n r
    → n + 2 < 2 ^ 31
    → ptr ≢ 0
    → IsReady s
    → InHeap s (guard_word ptr sz)
    → (0 < sz % 8 → 8 < spare block_size sz → InHeap s (guard_word ptr sz + 8))
    → (found : Bool) × (s' : SentinelMap) × (r' : Reports) × (check_object_overflow r raw s mem ptr
          block_size sz clean
        ≡ ok (found, s', r'))
      × Misses found (Guarded mem ptr block_size sz)
      × Checks n clean found r r' s s' (guard_word ptr sz)
check_object_overflow-Checks n r raw s mem ptr block_size sz clean ready small some_start map here
      next =
    let word_eq : ptr + sz - non_aligned_bytes sz ≡ guard_word ptr sz =
      omega (arith, non_aligned_bytes-mod sz) in
    let (over_next, s1, e1, m1, c1) = Next-Misses s mem ptr block_size sz clean map next in
    let (r1, e2, rep1) =
      report_if-Reported over_next n r raw mem (next_word ptr sz) ptr sz ready (omega arith)
        some_start in
    let here1 : InHeap s1 (guard_word ptr sz) = omega (arith, c1.same_start, c1.same_size, here) in
    let (s2, e3, c2) = clean_at-Cleaned s1 (guard_word ptr sz) c1.ready here1 clean in
    let (r2, e4, rep2) =
      report_if-Reported (own mem ptr sz) rep1.reports r1 raw mem (ptr + sz - non_aligned_bytes sz)
        ptr sz rep1.ready (omega (arith, rep1.few)) some_start in
    (
      own mem ptr sz || over_next,
      s2,
      r2,
      composed r r1 r2 raw s s1 s2 mem ptr block_size sz clean over_next e1 e2
          (ap (clean_at clean s1) word_eq ∙ e3) e4,
      map_Misses refl (λ good. record { aligned = good.0.0; filled = good.0.1; next = good.1 })
          (λ g. ((g.aligned, g.filled), g.next))
          (either-Misses (own mem ptr sz) over_next (own-Misses mem ptr sz) m1),
      both_reports n (own mem ptr sz) over_next clean r r1 r2 s s1 s2 (guard_word ptr sz) rep1 rep2
          c1 c2,
    )
