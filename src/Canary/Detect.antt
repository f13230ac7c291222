-- ===== src/Canary/Detect.antt =====
-- The check of include/quarantine.hh finds a canary word that was written to.
use double_take.Prelude.{
  ℕ, zero, suc, ◌+◌, ◌*◌, ◌%◌, ◌^◌, ◌≤◌, ◌<◌, ◌≡◌, ◌≢◌, refl, ◌⊎◌, inl, inr, Bool, true, false, ok,
  arith, ne→==,
}
use native.Mathlib.Decide.{ℕ_discrete}
use double_take.Defines.{use_after_free, word_size, sentinel_word}
use double_take.Memory.{Memory, load_word}
use double_take.Memtrack.{TrackObject}
use double_take.Memtrack.Tracked.{IsValid}
use double_take.Watchpoint.{has_to_rollback}
use double_take.Watchpoint.Laws.{IsBounded, add_watchpoint-Adds}
use double_take.Canary.{FreeObject, Reports, report_use, check_words, has_usage_after_free}
use double_take.Canary.Laws.{words_of, get_mark_words-ok}

-- The watchpoints and the tracked objects can take reports; `n` bounds the reports so far.
pub record IsReady (n : ℕ) (r : Reports) : Type 0 where
  pub bounded : IsBounded r.watchpoint
  pub valid : IsValid n r.memtrack

report_use-IsReady :
    (n : ℕ) (r : Reports) (raw : TrackObject) (mem : Memory) (addr : ℕ) (o : FreeObject)
    → IsReady n r
    → n + 1 < 2 ^ 31
    → o.ptr ≢ 0
    → (r' : Reports) × (report_use r raw mem addr o ≡ ok r')
      × IsReady (n + 1) r'
      × (has_to_rollback r'.watchpoint ≡ true)
unfolding report_use
report_use-IsReady n r raw mem addr o ready small some_start =
    let (w, t, o', e, adds, tracks, has, roll) =
      add_watchpoint-Adds r.watchpoint ready.bounded addr (load_word mem addr) o.ptr use_after_free
        n o.size r.memtrack raw ready.valid small some_start (λ same. absurd (cc same)) in
    (
      record { watchpoint = w; memtrack = t },
      rw e refl,
      record { bounded = adds.bounded; valid = tracks.valid },
      roll,
    )

-- Either the words are intact and nothing is reported, or one is not, and the run has to roll
-- back.
abbrev pub Checked : ℕ → Reports → Memory → ℕ → Bool → Bool → Reports → Type 0
Checked words r mem addr b b' r' =
    (((k : ℕ) → k < words → load_word mem (addr + 8 * k) ≡ sentinel_word) × (b' ≡ b) × (r' ≡ r))
    ⊎ (((k : ℕ) × (k < words) × (load_word mem (addr + 8 * k) ≢ sentinel_word))
        × (b' ≡ true)
        × (has_to_rollback r'.watchpoint ≡ true))

after_hit :
    (words : ℕ) (r r1 r' : Reports) (mem : Memory) (addr : ℕ) (b b' : Bool)
    → load_word mem addr ≢ sentinel_word
    → has_to_rollback r1.watchpoint ≡ true
    → Checked words r1 mem (addr + 8) true b' r'
    → Checked (suc words) r mem addr b b' r'
after_hit words r r1 r' mem addr b b' bad roll (inl (intact, e, same)) =
    inr ((0, omega arith, ground (arith, bad)), e, rw same roll)
after_hit words r r1 r' mem addr b b' bad roll (inr (found, e, roll')) =
    inr ((0, omega arith, ground (arith, bad)), e, roll')

after_miss :
    (words : ℕ) (r r' : Reports) (mem : Memory) (addr : ℕ) (b b' : Bool)
    → load_word mem addr ≡ sentinel_word
    → Checked words r mem (addr + 8) b b' r'
    → Checked (suc words) r mem addr b b' r'
after_miss words r r' mem addr b b' good (inl (intact, e, same)) = inl (all, e, same)
  where
    all : (k : ℕ) → k < suc words → load_word mem (addr + 8 * k) ≡ sentinel_word
    all zero h = ground (arith, good)
    all (suc k) h = ground (arith, intact k (omega arith))
after_miss words r r' mem addr b b' good (inr ((k, inside, bad), e, roll)) =
    inr ((suc k, omega arith, ground (arith, bad)), e, roll)

module _ (raw : TrackObject) (mem : Memory) (o : FreeObject) (some_start : o.ptr ≢ 0) where
  check_words-Checked :
      (words n : ℕ) (r : Reports) (addr : ℕ) (b : Bool)
      → IsReady n r
      → n + words < 2 ^ 31
      → (b' : Bool) × (r' : Reports) × (n' : ℕ) × (check_words words r raw mem addr o b
          ≡ ok (b', r'))
        × IsReady n' r'
        × (n' ≤ n + words)
        × Checked words r mem addr b b' r'
  unfolding check_words
  check_words-Checked zero n r addr b ready small =
      (b, r, n, refl, ready, omega arith, inl (λ k h. absurd (omega (arith, h)), refl, refl))
  check_words-Checked (suc words) n r addr b ready small =
      elim (ℕ_discrete (load_word mem addr) sentinel_word) [
        | yes good ↦
            let (b', r', n', e, ready', le, c) =
              check_words-Checked words n r (addr + 8) b ready (omega arith) in
            (
              b',
              r',
              n',
              ground (arith, good, e),
              ready',
              omega arith,
              after_miss words r r' mem addr b b' good c,
            )
        | no bad ↦
            let (r1, e1, ready1, roll) =
              report_use-IsReady n r raw mem addr o ready (omega arith) some_start in
            let (b', r', n', e, ready', le, c) =
              check_words-Checked words (n + 1) r1 (addr + 8) true ready1 (omega arith) in
            (
              b',
              r',
              n',
              ground (arith, ne→== _ _ bad, e1, e),
              ready',
              omega arith,
              after_hit words r r1 r' mem addr b b' bad roll c,
            )
      ]

  -- `hasUsageAfterFree` of an object of whole words that has a start returns, where the
  -- watchpoints and the tracker can take a report for each of its words. It finds a use after
  -- the free exactly if a canary word was changed, and then the run has to roll back; else it
  -- reports nothing.
  pub has_usage_after_free-Checked :
      (n : ℕ) (r : Reports)
      → IsReady n r
      → n + words_of o.size < 2 ^ 31
      → o.size % word_size ≡ 0
      → (used : Bool) × (r' : Reports) × (n' : ℕ) × (has_usage_after_free r raw mem o
          ≡ ok (used, r'))
        × IsReady n' r'
        × (n' ≤ n + words_of o.size)
        × Checked (words_of o.size) r mem o.ptr false used r'
  unfolding has_usage_after_free
  has_usage_after_free-Checked n r ready small whole =
      let (b', r', n', e, ready', le, c) =
        check_words-Checked (words_of o.size) n r o.ptr false ready small in
      (b', r', n', ground (arith, get_mark_words-ok o.size whole, e), ready', le, c)
