-- ===== src/Integrity.antt =====
-- The check of the whole heap at the end of an epoch: `checkHeapIntegrity` and
-- `checkIntegrityOnBMW` of include/sentinelmap.hh.
pub mod Silent
use double_take.Prelude.{
  ℕ, zero, suc, ◌+◌, ◌-◌, ◌*◌, ◌/◌, ◌%◌, ◌^◌, bit_and, Bool, true, false, not, ◌&&◌, ◌||◌, Option,
  none, some, ltb, ◌==◌, if◌then◌else◌, Outcome, ok, assert, ◌>>=◌, ◌>>◌,
}
use double_take.Defines.{sentinel_word, memalign_sentinel_word}
use double_take.Memory.{Memory, load_word}
use double_take.Bitmap.{read_word}
use double_take.SentinelMap.{
  SentinelMap, get_bytes, get_index, is_corrupted_sentinel, find_object_start_addr,
}
use double_take.Memtrack.{TrackObject}
use double_take.Canary.{Reports}
use double_take.ObjectHeader.{header_at, header_bytes, get_size, get_object_size}
use double_take.Detector.{check_object_overflow}

-- `getMask`
abbrev pub is_bit_set : ℕ → ℕ → Bool
is_bit_set word index = not (bit_and word (2 ^ index) == 0)

abbrev pub get_heap_address_from_word_index : SentinelMap → ℕ → ℕ
get_heap_address_from_word_index s index = (s.heap_start + index * 64 * 8) % 2 ^ 64

-- What the loops carry along.
pub record Scan : Type 0 where
  pub check_non_aligned : Bool
  pub has_corrupted : Bool
  pub last_sentinel_addr : ℕ
  pub reports : Reports

-- `checkNonAligned` for the marked word of bit `i`.
unfoldable pub is_non_aligned : SentinelMap → ℕ → ℕ → ℕ → Scan → Outcome Bool
is_non_aligned s bits word_index i scan =
    if ltb (i + 1) 64
    then ok (is_bit_set bits (i + 1) || scan.check_non_aligned)
    else (do next_bits ← read_word s.bitmap (word_index + 1); ok (is_bit_set next_bits 0))

-- The object that a bad sentinel belongs to is checked, if there is one.
unfoldable pub check_owner : TrackObject → SentinelMap → Memory → ℕ → Scan → Outcome Scan
check_owner raw s mem address scan = do
  found ← find_object_start_addr s mem address
  elim found [
    | none ↦ ok scan
    | some object_start ↦ do
      let object = header_at mem (object_start - header_bytes)
      (hit, s', r) ←
          check_object_overflow scan.reports raw s mem object_start (get_size object)
            (get_object_size object) false
      ok (record scan { has_corrupted = hit; reports = r })
  ]

-- A marked word that holds neither sentinel.
unfoldable pub inspect :
    ℕ → TrackObject → SentinelMap → Memory → ℕ → ℕ → ℕ → ℕ → Scan → Outcome Scan
unfolding is_non_aligned check_owner
inspect fuel raw s mem bits word_index i address scan = do
  non_aligned ← is_non_aligned s bits word_index i scan
  bad ← (if non_aligned then is_corrupted_sentinel fuel mem address else ok true)
  let scan' = record scan { check_non_aligned = non_aligned }
  (if bad then check_owner raw s mem address scan' else ok scan')

-- The loop of `checkIntegrityOnBMW` from bit `i` on.
unfoldable pub check_bits :
    ℕ → ℕ → TrackObject → SentinelMap → Memory → ℕ → ℕ → ℕ → Scan → Outcome Scan
unfolding inspect
check_bits zero fuel raw s mem bits word_index i scan = ok scan
check_bits (suc rounds) fuel raw s mem bits word_index i scan =
    let address = (get_heap_address_from_word_index s word_index + 8 * i) % 2 ^ 64 in
    let word = load_word mem address in
    do
      scan' ←
          (if is_bit_set bits i
            then (do
              scan1 ←
                  (if not (word == sentinel_word) && not (word == memalign_sentinel_word)
                    then inspect fuel raw s mem bits word_index i address scan
                    else ok scan)
              ok (record scan1 { last_sentinel_addr = address }))
            else ok scan)
      check_bits rounds fuel raw s mem bits word_index (i + 1) scan'

unfoldable pub check_integrity_on_bmw :
    ℕ → TrackObject → SentinelMap → Memory → ℕ → ℕ → Scan → Outcome Scan
unfolding check_bits
check_integrity_on_bmw fuel raw s mem bits word_index scan =
    check_bits 64 fuel raw s mem bits word_index 0
      (record scan { check_non_aligned = false; has_corrupted = false })

-- The bytes of the bitmap for `size` bytes of the heap.
unfoldable pub get_map_bytes : SentinelMap → ℕ → Outcome ℕ
get_map_bytes s size =
    assert (size / 2 ^ s.word_shift_bits % 8 == 0) >> ok (get_bytes (size / 2 ^ s.word_shift_bits))

-- The loop of `checkHeapIntegrity` over the bitmap words from `index` on.
unfoldable pub check_heap_from :
    ℕ → ℕ → TrackObject → SentinelMap → Memory → ℕ → Scan → Outcome Scan
unfolding check_integrity_on_bmw
check_heap_from zero fuel raw s mem index scan = ok scan
check_heap_from (suc words) fuel raw s mem index scan = do
  bitword ← read_word s.bitmap index
  scan' ←
      (if bitword == 0 then ok scan else (do
        scan1 ← check_integrity_on_bmw fuel raw s mem bitword index scan
        ok (record scan1 { has_corrupted = scan1.has_corrupted || scan.has_corrupted })))
  check_heap_from words fuel raw s mem (index + 1) scan'

-- Whether a sentinel of the range is corrupted, and the reports.
unfoldable pub check_heap_integrity :
    ℕ
    → TrackObject
    → SentinelMap
    → Memory
    → ℕ
    → ℕ
    → Reports
    → Outcome (Bool × SentinelMap × Reports)
unfolding get_map_bytes check_heap_from
check_heap_integrity fuel raw s mem begin end r = do
  bytes ← get_map_bytes s ((end + 2 ^ 64 - begin) % 2 ^ 64)
  scan ← check_heap_from (bytes / 8) fuel raw s mem (get_index s begin) (record {
    check_non_aligned = false;
    has_corrupted = false;
    last_sentinel_addr = 0;
    reports = r;
  })
  ok (scan.has_corrupted, record s { last_sentinel_addr = scan.last_sentinel_addr }, scan.reports)
