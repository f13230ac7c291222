-- ===== src/Tests/Calls.antt =====
-- The record of system calls at concrete inputs: include/sysrecord.hh.
use double_take.Prelude.{
  ◌≡◌, refl, none, List, [], ◌∷◌, replicate, length-replicate, arith, map, ok, some,
}
use double_take.SysRecord.{
  SyscallEntry, Thread, sys_time, record_time, epoch_begin, prepare_rollback,
}
use double_take.SysRecord.Replay.{Call, open_file, unmap_memory, get_times, replayed}
use double_take.SysRecord.Epoch.{record_calls, replay_calls, cleaned, record_calls-replay_calls}
use double_take.SysRecord.Unmaps.{epoch_begin-unmaps}

abbrev no_entry : SyscallEntry
no_entry = record { syscall = sys_time; contents = record_time 0 }

-- A thread that made a call in the last epoch.
abbrev caller : Thread
caller = record {
  syscalls = record { start = replicate 4 no_entry; total = 4; cur = 1; size = 4096; iter = 1 };
  syslist = λ k. [];
}

abbrev calls : List Call
calls =
    open_file 3
    ∷ unmap_memory 8192 4096
    ∷ get_times 17 (some 5)
    ∷ get_times 0xFFFFFFFFFFFFFFFF none
    ∷ []

record_calls-replay_calls_example :
    (t : Thread) × (u : Thread) × (record_calls (cleaned caller) calls ≡ ok t)
    × (replay_calls (prepare_rollback t) calls ≡ ok (map replayed calls, u))
record_calls-replay_calls_example =
    record_calls-replay_calls caller calls (omega (arith, length-replicate 4 no_entry))
      (omega arith) refl

epoch_begin-unmaps_example :
    (t : Thread) × (record_calls (cleaned caller) calls ≡ ok t)
    × (epoch_begin t ≡ ok ((8192, 4096) ∷ [], cleaned t))
epoch_begin-unmaps_example =
    epoch_begin-unmaps caller calls (omega (arith, length-replicate 4 no_entry)) (omega arith) refl
