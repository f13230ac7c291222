-- ===== src/Tests/Slots.antt =====
-- The slots of the threads at concrete states: include/threadinfo.hh.
use double_take.Prelude.{ℕ, ◌≡◌, refl, true, false, some, [], ◌∷◌, get_elem?, replicate, arith, ok}
use double_take.Threads.{
  Thread, thread, ThreadInfo, defer_sync, alloc_thread_index, run_deferred_syncs, set_free_thread,
}
use double_take.Threads.Slots.{IsFirstFree, Allocates, pools, taken, alloc_thread_index-Allocates}
use double_take.Threads.Count.{IsValid}
use double_take.Threads.Deferred.{
  IsBalanced, Reaps, run_deferred_syncs-Reaps, defer_sync-IsBalanced,
}

abbrev free_slot : Thread
free_slot = record {
  available = true;
  syslist = [];
  syscalls = record { start = []; total = 0; cur = 0; size = 0; iter = 0 };
  syncevents = record { start = []; total = 0; cur = 0; size = 0; iter = 0 };
}

abbrev taken_slot : Thread
taken_slot = record free_slot { available = false }

-- Two threads are alive; the first is to be reaped.
abbrev two_alive : ThreadInfo
two_alive = record {
  alive_threads = 2;
  reapable_threads = 1;
  total_threads = 128;
  thread_index = 1;
  defer_syncs = record { sync_var_type = thread; variable = 0 } ∷ [];
  threads = taken_slot ∷ taken_slot ∷ replicate 126 free_slot;
}

two_alive-IsValid : IsValid two_alive
two_alive-IsValid = record { sized = refl; total = refl; inside = omega arith; counted = refl }

alloc_thread_index-Allocates_example :
    (d : ℕ) × (i : ℕ) × (t : Thread) × (info : ThreadInfo) × (alloc_thread_index
        (pools [] [])
        two_alive
      ≡ ok (some i, info))
    × (get_elem? two_alive.threads i ≡ some t)
    × (t.available ≡ true)
    × Allocates two_alive info i (taken [] [] t)
    × IsFirstFree two_alive 1 d i
    × IsValid info
alloc_thread_index-Allocates_example =
    alloc_thread_index-Allocates [] [] two_alive two_alive-IsValid (omega arith)

two_alive-IsBalanced : IsBalanced two_alive
two_alive-IsBalanced = record {
  valid = two_alive-IsValid;
  reapable = refl;
  taken = ((taken_slot, refl, refl), refl);
}

run_deferred_syncs-Reaps_example :
    Reaps two_alive
      (run_deferred_syncs two_alive)
      (record { sync_var_type = thread; variable = 0 } ∷ [])
      0
    × ((run_deferred_syncs two_alive).defer_syncs ≡ [])
run_deferred_syncs-Reaps_example = run_deferred_syncs-Reaps two_alive two_alive-IsBalanced

defer_sync-IsBalanced_example : IsBalanced (defer_sync true two_alive 1 thread).1
unfolding set_free_thread
defer_sync-IsBalanced_example =
    defer_sync-IsBalanced two_alive 1 thread two_alive-IsBalanced (λ is. (taken_slot, refl, refl))
