-- ===== src/Tests/Epoch.antt =====
-- The source heap, the headers, the record entries and the check of the heap at concrete inputs:
-- include/xheap.hh, include/objectheader.hh, include/recordentries.hh and include/sentinelmap.hh.
use double_take.Prelude.{
  ℕ, zero, suc, ◌+◌, ◌/◌, ◌^◌, ◌≤◌, ◌<◌, ◌≡◌, refl, ◌∙◌, ◌⊎◌, ◌↔◌, inl, inr, true, false, not, [],
  ◌∷◌, replicate, length-replicate, get_or, arith, ok, bit, bit-zero, bit_and-pow,
}
use double_take.Defines.{sentinel_word}
use double_take.Memory.{Memory, store_word, load-store_self, load-store_apart, load_word}
use double_take.RecordEntries.{RecordEntries, cleanup, prepare_rollback}
use double_take.RecordEntries.Replay.{record_events, Replays, record_events-Replays}
use double_take.SentinelMap.{SentinelMap}
use double_take.SentinelMap.Setup.{marked, IsReady}
use double_take.XHeap.{XHeap, whole_pages, malloc}
use double_take.XHeap.Alloc
use double_take.XHeap.Alloc.{Gives, bumps, bump-Gives, malloc-Gives, bumps-recover_heap_metadata}
use double_take.ObjectHeader.{
  ObjectHeader, check_leakage_and_clean, mark_object_checked, is_object_free, do_check_object,
  is_valid_object_size,
}
use double_take.ObjectHeader.Marks.{
  check_leakage_and_clean-mark, is_valid_object_size-IsPower, IsPower,
}
use double_take.Integrity.{check_heap_integrity, is_bit_set}
use double_take.Integrity.Silent.{Settled, check_heap_integrity-Settled}
use double_take.Tests.Data.{small_map, small_map-IsReady, zeros, blank, no_reports}

abbrev pool : RecordEntries ℕ
pool = record { start = replicate 3 0; total = 3; cur = 2; size = 4096; iter = 1 }

record_events-Replays_example :
    (r : RecordEntries ℕ) × (record_events (cleanup pool) (7 ∷ 8 ∷ []) ≡ ok r)
    × Replays (prepare_rollback r) (7 ∷ 8 ∷ [])
record_events-Replays_example =
    record_events-Replays pool (7 ∷ 8 ∷ []) (omega (arith, length-replicate {A = ℕ} 3 0))
      (omega arith)

-- A heap of 64 pages, of which one is given.
abbrev pages : XHeap
pages = record {
  start = 4294967296;
  end = 4295229440;
  position = 4294971392;
  remaining = 258048;
  position_backup = 4294967296;
  remaining_backup = 262144;
  magic = 0xCAFEBABE;
}

pages-IsValid : Alloc.IsValid pages
pages-IsValid = record { from = omega arith; rest = refl; short = omega arith; aligned = refl }

abbrev page_map : SentinelMap
page_map = record {
  bitmap = record { start = replicate 512 1; elements = 32768; words = 4096 };
  word_shift_bits = 3;
  item_shift_bits = 6;
  elements = 32768;
  total_bytes = 4096;
  heap_start = 4294967296;
  last_sentinel_addr = 0;
}

page_map-IsReady : IsReady page_map
page_map-IsReady = record {
  bits = record {
    backed = omega (arith, length-replicate {A = ℕ} 512 1);
    counted = omega (arith, length-replicate {A = ℕ} 512 1);
    short = omega (arith, length-replicate {A = ℕ} 512 1);
    fits = λ i. small 512 i;
  };
  shift = refl;
  no_wrap = omega arith;
  whole = omega (arith, length-replicate {A = ℕ} 512 1);
}
  where
    small : (n i : ℕ) → get_or {A = ℕ} (replicate n 1) i 0 < 2 ^ 64
    small zero i = omega arith
    small (suc n) zero = omega arith
    small (suc n) (suc i) = small n i

two_pages : whole_pages 5000 ≡ 8192
unfolding whole_pages
two_pages = refl

malloc-Gives_example :
    (h : XHeap) × (s : SentinelMap) × (malloc pages page_map 5000 ≡ ok (4294971392, h, s))
    × Gives pages h 4294971392 5000
    × ((a : ℕ) → 4294971392 ≤ a → a < 4294971392 + whole_pages 5000 → marked s a ≡ 0)
malloc-Gives_example =
    malloc-Gives pages page_map 5000 pages-IsValid (omega arith) (omega (arith, two_pages))
      page_map-IsReady (omega arith, omega arith) refl (omega (arith, two_pages))

abbrev header : ObjectHeader
header = record { block_size = 64; object_size = 37; sentinel = sentinel_word }

check_leakage_and_clean-mark_example :
    (check_leakage_and_clean header ≡ (not (is_object_free header), header))
    × (check_leakage_and_clean (mark_object_checked header) ≡ (false, header))
    × (do_check_object (mark_object_checked header) ≡ false)
    × (do_check_object header ≡ not (is_object_free header))
check_leakage_and_clean-mark_example = check_leakage_and_clean-mark header refl (omega arith)

is_valid_object_size-IsPower_example : (is_valid_object_size 64 ≡ true) ↔ IsPower 64
is_valid_object_size-IsPower_example = is_valid_object_size-IsPower 64

-- A memory in which the two marked words of `small_map` hold the sentinel.
abbrev sentinels : Memory
sentinels = store_word (store_word zeros 4096 sentinel_word) 4112 sentinel_word

first_word : load_word sentinels 4096 ≡ sentinel_word
first_word =
    load-store_apart (store_word zeros 4096 sentinel_word) 4112 sentinel_word 4096
      (inl (omega arith))
    ∙ load-store_self zeros 4096 sentinel_word (omega arith)

third_word_there : load_word sentinels 4112 ≡ sentinel_word
third_word_there =
    load-store_self (store_word zeros 4096 sentinel_word) 4112 sentinel_word (omega arith)

bits_of_five : (i : ℕ) → is_bit_set 5 i ≡ true → (i ≡ 0) ⊎ (i ≡ 2)
unfolding bit
bits_of_five zero e = inl refl
bits_of_five (suc zero) e = absurd (cc e)
bits_of_five (suc (suc zero)) e = inr refl
bits_of_five (suc (suc (suc i))) e =
    absurd (ground (arith, bit_and-pow (suc (suc (suc i))) 5, bit-zero i, e))

small_map-Settled : (k : ℕ) → k < 512 / 512 → Settled small_map sentinels k
small_map-Settled zero lt = λ i below e. elim (bits_of_five i e) [
  | inl first ↦ rw first (inl first_word)
  | inr third ↦ rw third (inl third_word_there)
]
small_map-Settled (suc k) lt = absurd (omega (arith, lt))

check_heap_integrity-Settled_example :
    (s : SentinelMap) × (check_heap_integrity 1 blank small_map sentinels 4096
        (4096 + 512)
        no_reports
      ≡ ok (false, s, no_reports))
check_heap_integrity-Settled_example =
    check_heap_integrity-Settled 1 blank small_map sentinels 512 no_reports small_map-IsReady refl
      (omega arith) (omega arith) (omega arith) small_map-Settled
