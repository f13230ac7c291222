-- ===== src/Threads.antt =====
-- include/threadinfo.hh: the slots of the threads, and the work that is put off until an epoch ends.
-- An `int` is a number below 2 ^ 32, its sign the highest bit.
pub mod Count
pub mod Slots
pub mod Deferred
use double_take.Prelude.{
  ℕ, zero, suc, ◌+◌, ◌-◌, ◌%◌, ◌^◌, Bool, true, false, not, Option, none, some, List, [], ◌∷◌, ◌++◌,
  ◌==◌, ltb, leb, ◌&&◌, if◌then◌else◌, get_elem?, set, length, replicate, Outcome, ok, fault,
  timeout, ◌>>=◌, ◌>>◌, assert,
}
use double_take.RecordEntries
use double_take.RecordEntries.{RecordEntries}
use double_take.Sync.{SyncEvent}

abbrev pub max_alive_threads : ℕ
max_alive_threads = 128

abbrev pub max_reapable_threads : ℕ
max_reapable_threads = 118

abbrev pub max_syscall_entries : ℕ
max_syscall_entries = 0x100000

abbrev pub max_syncevent_entries : ℕ
max_syncevent_entries = 0x1000000

abbrev pub e_sys_max : ℕ
e_sys_max = 11

abbrev pub to_int : ℕ → ℕ
to_int n = n % 2 ^ 32

-- `a >= b` of two `int`s.
abbrev pub int_ge : ℕ → ℕ → Bool
int_ge a b = leb (to_int (b + 2 ^ 31)) (to_int (a + 2 ^ 31))

abbrev pub minus_one : ℕ → ℕ
minus_one n = to_int (n + (2 ^ 32 - 1))

pub record SyscallEntry : Type 0 where
  pub syscall : ℕ
  pub data_bytes : List ℕ

-- The fields of `thread_t` that the slots' bookkeeping uses.
pub record Thread : Type 0 where
  pub available : Bool
  pub syslist : List (List ℕ)
  pub syscalls : RecordEntries SyscallEntry
  pub syncevents : RecordEntries SyncEvent

pub data SyncVariableType : Type 0 where
  thread cond mutex barrier : SyncVariableType

pub record DeferSyncVariable : Type 0 where
  pub sync_var_type : SyncVariableType
  pub variable : ℕ

pub record ThreadInfo : Type 0 where
  pub alive_threads : ℕ
  pub reapable_threads : ℕ
  pub total_threads : ℕ
  pub thread_index : ℕ
  pub defer_syncs : List DeferSyncVariable
  pub threads : List Thread

-- What `mmap` gives for the two pools of a thread.
pub record Pools : Type 0 where
  pub for_syscalls : Option (List SyscallEntry)
  pub for_syncevents : Option (List SyncEvent)

unfoldable pub thread_initialize : Pools → Thread → Outcome Thread
thread_initialize pools t = do
  syscalls ← RecordEntries.initialize pools.for_syscalls 64 max_syscall_entries
  syncevents ← RecordEntries.initialize pools.for_syncevents 40 max_syncevent_entries
  ok (record t { syscalls = syscalls; syslist = replicate e_sys_max []; syncevents = syncevents })

unfoldable pub next_index : ThreadInfo → ℕ
next_index info = (info.thread_index + 1) % info.total_threads

-- What the loop does at a slot that is free.
unfoldable pub take_slot : Pools → ThreadInfo → Thread → Outcome (Option ℕ × ThreadInfo)
unfolding thread_initialize next_index
take_slot pools info t = do
  t' ← thread_initialize pools (record t { available = false })
  ok (
    some info.thread_index,
    record info {
      alive_threads = to_int (info.alive_threads + 1);
      thread_index = next_index info;
      threads = set info.threads info.thread_index t';
    },
  )

unfoldable pub alloc_loop : ℕ → Pools → ℕ → ThreadInfo → Outcome (Option ℕ × ThreadInfo)
unfolding take_slot next_index
alloc_loop zero pools orig_index info = timeout
alloc_loop (suc fuel) pools orig_index info =
    let rest = alloc_loop fuel pools orig_index (record info { thread_index = next_index info }) in
    elim (get_elem? info.threads info.thread_index) [
      | none ↦ fault
      | some t ↦
          if t.available
          then take_slot pools info t
          else (assert (not (next_index info == orig_index)) >> rest)
    ]

unfoldable pub alloc_thread_index : Pools → ThreadInfo → Outcome (Option ℕ × ThreadInfo)
unfolding alloc_loop
alloc_thread_index pools info =
    if int_ge info.alive_threads info.total_threads
    then ok (none, info)
    else alloc_loop max_alive_threads pools info.thread_index info

unfoldable pub increment_reapable_threads : ThreadInfo → ThreadInfo
increment_reapable_threads info = record info {
  reapable_threads = to_int (info.reapable_threads + 1);
}

unfoldable pub has_reapable_threads : ThreadInfo → Bool
has_reapable_threads info = not (info.reapable_threads == 0)

abbrev pub is_thread : SyncVariableType → Bool
is_thread thread = true
is_thread _ = false

-- `alive - reapable == 1`, of two `int`s.
abbrev pub one_left : ThreadInfo → Bool
one_left info = to_int (info.alive_threads + (2 ^ 32 - info.reapable_threads)) == 1

-- Without memory for the entry nothing happens.
unfoldable pub defer_sync : Bool → ThreadInfo → ℕ → SyncVariableType → Bool × ThreadInfo
unfolding increment_reapable_threads
defer_sync false info ptr type = (false, info)
defer_sync true info ptr type =
    let info1 = record info {
      defer_syncs = info.defer_syncs ++ record { sync_var_type = type; variable = ptr } ∷ [];
    } in
    if is_thread type
    then (let info2 = increment_reapable_threads info1 in
        (int_ge info2.reapable_threads max_reapable_threads && one_left info2, info2))
    else (false, info1)

-- `setFreeThread` of the slot.
unfoldable pub set_free_thread : List Thread → ℕ → List Thread
set_free_thread ts i = elim (get_elem? ts i) [
  | none ↦ ts
  | some t ↦ set ts i (record t { available = true })
]

-- `removeAliveThread` is the thread map's; what it does to the slots is to free one.
unfoldable pub cancel_alive_thread : ThreadInfo → ℕ → ThreadInfo
unfolding set_free_thread
cancel_alive_thread info dead = record info {
  threads = set_free_thread info.threads dead;
  alive_threads = minus_one info.alive_threads;
  reapable_threads = minus_one info.reapable_threads;
}

unfoldable pub run_deferred_sync : ThreadInfo → DeferSyncVariable → ThreadInfo
unfolding set_free_thread
run_deferred_sync info d =
    if is_thread d.sync_var_type
    then record info {
      threads = set_free_thread info.threads d.variable;
      alive_threads = minus_one info.alive_threads;
      reapable_threads = minus_one info.reapable_threads;
    }
    else info

unfoldable pub run_deferred : ThreadInfo → List DeferSyncVariable → ThreadInfo
unfolding run_deferred_sync
run_deferred info [] = info
run_deferred info (d ∷ ds) = run_deferred (run_deferred_sync info d) ds

unfoldable pub run_deferred_syncs : ThreadInfo → ThreadInfo
unfolding run_deferred
run_deferred_syncs info = record (run_deferred info info.defer_syncs) { defer_syncs = [] }
