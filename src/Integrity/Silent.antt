-- ===== src/Integrity/Silent.antt =====
-- The check of the heap in include/sentinelmap.hh raises no alarm while the sentinels are there.
use double_take.Prelude.{
  ℕ, zero, suc, ◌+◌, ◌-◌, ◌*◌, ◌/◌, ◌%◌, ◌^◌, ◌≤◌, ◌<◌, ◌≡◌, refl, ap, ◌∙◌, ◌⊎◌, inl, inr, Bool,
  true, false, ◌||◌, Bool-cases, length, get_or, ne→==, eq→==, Outcome, ok, arith,
}
use native.Mathlib.Decide.{ℕ_discrete}
use double_take.Defines.{sentinel_word, memalign_sentinel_word}
use double_take.Memory.{Memory, load_word}
use double_take.Bitmap.Inv.{read_word-ok}
use double_take.SentinelMap.{SentinelMap, get_index}
use double_take.SentinelMap.Setup.{IsReady, get_bytes-small}
use double_take.Memtrack.{TrackObject}
use double_take.Canary.{Reports}
use double_take.Integrity.{
  Scan, is_bit_set, get_heap_address_from_word_index, check_bits, check_integrity_on_bmw,
  check_heap_from, check_heap_integrity, get_map_bytes,
}

-- The heap word of bit `i` of a bitmap word.
abbrev pub word_at : SentinelMap → Memory → ℕ → ℕ → ℕ
word_at s mem index i = load_word mem ((get_heap_address_from_word_index s index + 8 * i) % 2 ^ 64)

-- Each word of the heap that the bitmap word marks holds one of the two sentinels.
abbrev pub Settled : SentinelMap → Memory → ℕ → Type 0
Settled s mem index =
    (i : ℕ)
    → i < 64
    → is_bit_set (get_or s.bitmap.start index 0) i ≡ true
    → (word_at s mem index i ≡ sentinel_word) ⊎ (word_at s mem index i ≡ memalign_sentinel_word)

-- Nothing was found, and nothing reported.
pub record Quiet (scan scan' : Scan) : Type 0 where
  pub same_corrupted : scan'.has_corrupted ≡ scan.has_corrupted
  pub same_reports : scan'.reports ≡ scan.reports

plus_zero : (a : ℕ) → a + 0 ≡ a
plus_zero a = omega arith

plus_suc : (a k : ℕ) → a + 1 + k ≡ a + suc k
plus_suc a k = omega arith

module _ (fuel : ℕ) (raw : TrackObject) (s : SentinelMap) (mem : Memory) where
  one_bit :
      (rounds bits index i : ℕ) (scan : Scan)
      → (is_bit_set bits i ≡ true
          → (word_at s mem index i ≡ sentinel_word)
            ⊎ (word_at s mem index i ≡ memalign_sentinel_word))
      → (scan' : Scan) × (check_bits (suc rounds) fuel raw s mem bits index i scan
          ≡ check_bits rounds fuel raw s mem bits index (i + 1) scan')
        × Quiet scan scan'
  unfolding check_bits
  one_bit rounds bits index i scan settled = elim (Bool-cases (is_bit_set bits i)) [
    | inr off ↦ (scan, rw off refl, record { same_corrupted = refl; same_reports = refl })
    | inl on ↦ (
      record scan {
        last_sentinel_addr = (get_heap_address_from_word_index s index + 8 * i) % 2 ^ 64;
      },
      elim (settled on) [
        | inl plain ↦ rw (on, eq→== _ _ plain) refl
        | inr inner ↦
            rw
              (
                on,
                ne→== (word_at s mem index i) sentinel_word (λ e. absurd (omega (arith, inner, e))),
                eq→== _ _ inner,
              )
              refl
      ],
      record { same_corrupted = refl; same_reports = refl },
    )
  ]

  no_bits :
      (bits index i : ℕ) (scan : Scan) → check_bits zero fuel raw s mem bits index i scan ≡ ok scan
  unfolding check_bits
  no_bits bits index i scan = refl

  no_words : (index : ℕ) (scan : Scan) → check_heap_from zero fuel raw s mem index scan ≡ ok scan
  unfolding check_heap_from
  no_words index scan = refl

  word_step :
      (words index : ℕ) (scan scan1 : Scan)
      → IsReady s
      → index < length s.bitmap.start
      → check_integrity_on_bmw fuel raw s mem (get_or s.bitmap.start index 0) index scan ≡ ok scan1
      → scan1.has_corrupted ≡ false
      → scan.has_corrupted ≡ false
      → scan1.reports ≡ scan.reports
      → (scan' : Scan) × (check_heap_from (suc words) fuel raw s mem index scan
          ≡ check_heap_from words fuel raw s mem (index + 1) scan')
        × (scan'.has_corrupted ≡ false)
        × (scan'.reports ≡ scan.reports)
  unfolding check_heap_from
  word_step words index scan scan1 r inside e clean1 clean same =
      elim (ℕ_discrete (get_or s.bitmap.start index 0) 0) [
        | yes empty ↦
            (scan, rw (read_word-ok s.bitmap index r.bits inside, empty) refl, clean, refl)
        | no some_bits ↦ (
          record scan1 { has_corrupted = scan1.has_corrupted || scan.has_corrupted },
          rw (read_word-ok s.bitmap index r.bits inside, ne→== _ _ some_bits, e) refl,
          rw (clean1, clean) refl,
          same,
        )
      ]

  all_bits :
      (rounds bits index i : ℕ) (scan : Scan)
      → ((j : ℕ)
          → i ≤ j
          → j < i + rounds
          → is_bit_set bits j ≡ true
          → (word_at s mem index j ≡ sentinel_word)
            ⊎ (word_at s mem index j ≡ memalign_sentinel_word))
      → (scan' : Scan) × (check_bits rounds fuel raw s mem bits index i scan ≡ ok scan')
        × Quiet scan scan'
  all_bits zero bits index i scan settled =
      (scan, no_bits bits index i scan, record { same_corrupted = refl; same_reports = refl })
  all_bits (suc rounds) bits index i scan settled =
      let (scan1, e, q) =
        one_bit rounds bits index i scan (settled i (omega arith) (omega arith)) in
      let (scan2, e', q') =
        all_bits rounds bits index (i + 1) scan1
          (λ j lo hi. settled j (omega arith) (omega arith)) in
      (
        scan2,
        e ∙ e',
        record {
          same_corrupted = q'.same_corrupted ∙ q.same_corrupted;
          same_reports = q'.same_reports ∙ q.same_reports;
        },
      )

  one_word :
      (index : ℕ) (scan : Scan)
      → Settled s mem index
      → (scan' : Scan) × (check_integrity_on_bmw fuel raw s mem
            (get_or s.bitmap.start index 0)
            index
            scan
          ≡ ok scan')
        × (scan'.has_corrupted ≡ false)
        × (scan'.reports ≡ scan.reports)
  unfolding check_integrity_on_bmw
  one_word index scan settled =
      let (scan', e, q) =
        all_bits 64 (get_or s.bitmap.start index 0) index 0
          (record scan { check_non_aligned = false; has_corrupted = false })
          (λ j lo hi. settled j (omega arith)) in
      (scan', e, q.same_corrupted, q.same_reports)

  all_words :
      (words index : ℕ) (scan : Scan)
      → IsReady s
      → index + words ≤ length s.bitmap.start
      → ((k : ℕ) → k < words → Settled s mem (index + k))
      → scan.has_corrupted ≡ false
      → (scan' : Scan) × (check_heap_from words fuel raw s mem index scan ≡ ok scan')
        × (scan'.has_corrupted ≡ false)
        × (scan'.reports ≡ scan.reports)
  all_words zero index scan r room settled clean = (scan, no_words index scan, clean, refl)
  all_words (suc words) index scan r room settled clean =
      let here : Settled s mem index = rw (← plus_zero index) (settled 0 (omega arith)) in
      let (scan1, e, c, p) = one_word index scan here in
      let (scan2, e2, c2, p2) = word_step words index scan scan1 r (omega arith) e c clean p in
      let (scan3, e3, c3, p3) =
        all_words words (index + 1) scan2 r (omega arith)
          (λ k lt. rw (plus_suc index k) (settled (suc k) (omega arith))) c2 in
      (scan3, e2 ∙ e3, c3, p3 ∙ p2)

get_map_bytes-ok :
    (s : SentinelMap) (size : ℕ)
    → s.word_shift_bits ≡ 3
    → size % 64 ≡ 0
    → size < 2 ^ 34
    → get_map_bytes s size ≡ ok (size / 64)
unfolding get_map_bytes
get_map_bytes-ok s size shift whole small =
    let e : size / 2 ^ s.word_shift_bits ≡ size / 8 = ap (λ (k : ℕ). size / 2 ^ k) shift in
    rw (e, get_bytes-small (size / 8) (omega (arith, small))) (ground (arith, whole))

zero_plus : (k : ℕ) → 0 + k ≡ k
zero_plus k = omega arith

start_index : (s : SentinelMap) → IsReady s → get_index s s.heap_start ≡ 0
start_index s ready =
    let e : (s.heap_start + 2 ^ 64 - s.heap_start) % 2 ^ 64 ≡ 0 = omega arith in
    let shift : 2 ^ s.word_shift_bits ≡ 8 = ap (λ (k : ℕ). 2 ^ k) ready.shift in rw (e, shift) refl

abbrev result : SentinelMap → Scan → Bool → Reports → Outcome (Bool × SentinelMap × Reports)
result s scan b r = ok (b, record s { last_sentinel_addr = scan.last_sentinel_addr }, r)

quiet_result :
    (s : SentinelMap) (scan : Scan) (r : Reports)
    → scan.has_corrupted ≡ false
    → scan.reports ≡ r
    → result s scan scan.has_corrupted scan.reports ≡ result s scan false r
quiet_result s scan r clean silent =
    ap (λ (b : Bool). result s scan b scan.reports) clean
    ∙ ap (λ (x : Reports). result s scan false x) silent

steps :
    (fuel : ℕ) (raw : TrackObject) (s : SentinelMap) (mem : Memory) (size : ℕ) (r : Reports)
    (scan : Scan)
    → get_map_bytes s size ≡ ok (size / 64)
    → (s.heap_start + size + 2 ^ 64 - s.heap_start) % 2 ^ 64 ≡ size
    → get_index s s.heap_start ≡ 0
    → check_heap_from (size / 64 / 8) fuel raw s mem 0 (record {
      check_non_aligned = false;
      has_corrupted = false;
      last_sentinel_addr = 0;
      reports = r;
    })
      ≡ ok scan
    → scan.has_corrupted ≡ false
    → scan.reports ≡ r
    → check_heap_integrity fuel raw s mem s.heap_start (s.heap_start + size) r
      ≡ ok (false, record s { last_sentinel_addr = scan.last_sentinel_addr }, r)
unfolding check_heap_integrity
steps fuel raw s mem size r scan bytes same start e clean silent =
    rw (same, bytes, start, e) (quiet_result s scan r clean silent)

-- From the start of a heap that is set up, over a size that is not 0, below 16 GB, in the
-- heap, and of whole bytes of the bitmap, `checkHeapIntegrity` returns false and reports
-- nothing, if every marked word of the range holds one of the two sentinels.
pub check_heap_integrity-Settled :
    (fuel : ℕ) (raw : TrackObject) (s : SentinelMap) (mem : Memory) (size : ℕ) (r : Reports)
    → IsReady s
    → size % 64 ≡ 0
    → size < 2 ^ 34
    → 0 < size
    → size ≤ 8 * s.bitmap.elements
    → ((k : ℕ) → k < size / 512 → Settled s mem k)
    → (s' : SentinelMap) × (check_heap_integrity fuel raw s mem s.heap_start (s.heap_start + size) r
        ≡ ok (false, s', r))
check_heap_integrity-Settled fuel raw s mem size r ready whole small some_bytes fits settled =
    let scan : Scan = record {
      check_non_aligned = false;
      has_corrupted = false;
      last_sentinel_addr = 0;
      reports = r;
    } in
    let (scan', e, c, p) =
      all_words fuel raw s mem (size / 64 / 8) 0 scan ready (omega (arith, fits, ready.whole))
        (λ k lt. rw (zero_plus k) (settled k (omega (arith, lt)))) refl in
    (
      record s { last_sentinel_addr = scan'.last_sentinel_addr },
      steps fuel raw s mem size r scan' (get_map_bytes-ok s size ready.shift whole small)
          (omega (arith, ready.no_wrap, fits, some_bytes)) (start_index s ready) e c p,
    )
