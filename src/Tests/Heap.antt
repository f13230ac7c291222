-- ===== src/Tests/Heap.antt =====
-- The sentinel map, the guards and the quarantine at concrete inputs: include/sentinelmap.hh,
-- include/xmemory.hh and include/quarantine.hh.
use double_take.Prelude.{
  ℕ, ◌+◌, ◌-◌, ◌/◌, ◌≤◌, ◌≡◌, refl, inl, Bool, true, false, Option, List, [], ◌∷◌, ◌++◌, arith, ok,
}
use double_take.Defines.{quarantine_buf_size}
use double_take.Memory.{Memory}
use double_take.SentinelMap.{SentinelMap, find_object_start_addr}
use double_take.SentinelMap.Find.{Located, find_object_start_addr-Located}
use double_take.Canary.{Reports, FreeObject, has_usage_after_free}
use double_take.Canary.Laws.{words_of}
use double_take.Canary.Detect
use double_take.Canary.Detect.{Checked, has_usage_after_free-Checked}
use double_take.Quarantine.{Quarantine, Heap, going, add_free_object, final_uaf_check}
use double_take.Quarantine.Add.{Apart, Adds, add_free_object-Holds}
use double_take.Quarantine.Final.{AllWhole, Found, final_uaf_check-Found}
use double_take.Detector.{set_sentinels, check_object_overflow}
use double_take.Detector.RoundTrip.{Verdict, SameGuard, check_object_overflow-set_sentinels}
use double_take.Tests.Data.{
  small_map, small_map-IsReady, zeros, blank, no_reports, no_reports-IsReady, freed,
  freed-AllIntact, ring, ring-Holds, heap,
}

find_object_start_addr-Located_example :
    (o : Option ℕ) × (find_object_start_addr small_map zeros 4200 ≡ ok o)
    × Located small_map zeros ((4200 - 4096) / 8) o
find_object_start_addr-Located_example =
    find_object_start_addr-Located small_map zeros small_map-IsReady 4200 (omega arith, omega arith)

-- An object of 37 bytes in a block of 64, and a later memory that lost its guard.
check_object_overflow-set_sentinels_example :
    (s1 : SentinelMap) × (mem1 : Memory) × (found : Bool) × (s2 : SentinelMap) × (r2 : Reports)
    × (set_sentinels small_map zeros 4160 64 37 ≡ ok (s1, mem1))
    × (check_object_overflow no_reports blank s1 zeros 4160 64 37 true ≡ ok (found, s2, r2))
    × Verdict found no_reports r2 (SameGuard mem1 zeros 4160 64 37)
check_object_overflow-set_sentinels_example =
    check_object_overflow-set_sentinels 0 no_reports blank small_map zeros zeros 4160 64 37 true
      no_reports-IsReady (omega arith) (λ e. absurd (omega (arith, e))) small_map-IsReady
      (omega arith, omega arith) (λ _. (omega arith, omega arith))

has_usage_after_free-Checked_example :
    (used : Bool) × (r : Reports) × (n : ℕ) × (has_usage_after_free no_reports blank zeros freed
      ≡ ok (used, r))
    × Detect.IsReady n r
    × (n ≤ 0 + words_of freed.size)
    × Checked (words_of freed.size) no_reports zeros freed.ptr false used r
has_usage_after_free-Checked_example =
    has_usage_after_free-Checked blank zeros freed (λ e. absurd (omega (arith, e))) 0 no_reports
      no_reports-IsReady (omega arith) refl

apart : Apart 8192 64 (freed ∷ [])
unfolding Apart
apart = (inl (omega arith), omega arith)

add_free_object-Holds_example :
    (h : Heap) × (dropped : List FreeObject) × (kept : List FreeObject) × (add_free_object
        quarantine_buf_size blank heap 8192 64
      ≡ ok (true, going h))
    × (freed ∷ [] ≡ dropped ++ kept)
    × Adds heap h dropped kept (record { ptr = 8192; size = 64 })
add_free_object-Holds_example =
    add_free_object-Holds blank heap (freed ∷ []) 8192 64 ring-Holds freed-AllIntact apart
      (omega arith) refl

whole : AllWhole (freed ∷ [])
unfolding AllWhole
whole = ((λ e. absurd (omega (arith, e)), refl), omega arith)

final_uaf_check-Found_example :
    (used : Bool) × (q : Quarantine) × (r : Reports) × (final_uaf_check quarantine_buf_size blank
        zeros ring no_reports
      ≡ ok (used, q, r))
    × Found zeros (freed ∷ []) no_reports false used r
final_uaf_check-Found_example =
    final_uaf_check-Found blank zeros 0 ring (freed ∷ []) no_reports ring-Holds whole
      no_reports-IsReady (omega arith)
