-- ===== src/SysRecord.antt =====
-- include/sysrecord.hh: the system calls of a thread, recorded in an epoch and replayed after a
-- rollback. A pointer to an entry is its place in the pool of the thread; the lists of a thread hold
-- such places, by the kind of call. The bytes of an entry are a value of one of the records.
pub mod Replay
pub mod Epoch
pub mod Unmaps
use double_take.Prelude.{
  ℕ, ◌+◌, Bool, true, false, Option, none, some, List, [], ◌∷◌, ◌++◌, ◌==◌, ltb, leb, ◌||◌,
  if◌then◌else◌, get_elem?, set, Outcome, ok, aborted, fault, ◌>>=◌, ◌>>◌, assert,
}
use double_take.RecordEntries
use double_take.RecordEntries.{RecordEntries, alloc, retrieve_iter_entry}

-- `eRecordSyscall`.
pub data Syscall : Type 0 where
  file_open file_close file_dup dir_open dir_close sys_mmap sys_munmap sys_time gettimeofday :
      Syscall
  sys_times sys_clone : Syscall

abbrev pub code : Syscall → ℕ
code file_open = 0
code file_close = 1
code file_dup = 2
code dir_open = 3
code dir_close = 4
code sys_mmap = 5
code sys_munmap = 6
code sys_time = 7
code gettimeofday = 8
code sys_times = 9
code sys_clone = 10

-- The records. A field that the recording leaves alone is none.
pub data Data : Type 0 where
  record_file : ℕ → Option ℕ → Data
  record_dir : ℕ → Data
  record_mmap : ℕ → Data
  record_munmap : ℕ → ℕ → Data
  record_time : ℕ → Data
  record_timeofday : ℕ → Option ℕ → Option ℕ → Data
  record_times : ℕ → Option ℕ → Data
  record_clone : ℕ → ℕ → Data

pub record SyscallEntry : Type 0 where
  pub syscall : Syscall
  pub contents : Data

pub record Thread : Type 0 where
  pub syscalls : RecordEntries SyscallEntry
  pub syslist : ℕ → List ℕ

-- `allocEntry`, and the record that the caller then writes.
unfoldable pub alloc_entry : Thread → Syscall → Data → Outcome (ℕ × Thread)
alloc_entry t sc contents = do
  (i, pool) ← alloc t.syscalls
  let entry : SyscallEntry = record { syscall = sc; contents = contents }
  ok (i, record t { syscalls = record pool { start = set pool.start i entry } })

unfoldable pub insert_list : Thread → Syscall → ℕ → Thread
insert_list t sc i = record t {
  syslist = λ k. if code sc == k then t.syslist k ++ i ∷ [] else t.syslist k;
}

-- The record of an entry, which has to be there and of the kind that is asked for.
unfoldable pub read_entry :
    Thread → Syscall → Option ℕ → RecordEntries SyscallEntry → Outcome (Data × Thread)
read_entry t sc none pool = aborted
read_entry t sc (some i) pool = elim (get_elem? t.syscalls.start i) [
  | none ↦ fault
  | some entry ↦ do
    assert (code entry.syscall == code sc)
    ok (entry.contents, record t { syscalls = pool })
]

unfoldable pub retrieve_entry : Thread → Syscall → Outcome (Data × Thread)
unfolding read_entry
retrieve_entry t sc =
    let (place, pool) = retrieve_iter_entry t.syscalls in read_entry t sc place pool

abbrev has_list : Syscall → Bool
has_list sc = code sc == 1 || code sc == 4 || code sc == 6

-- The first entry of a list, which is taken off it.
unfoldable pub retrieve_list_entry : Thread → Syscall → Outcome (Option ℕ × Thread)
retrieve_list_entry t sc = do
  assert (has_list sc)
  elim (t.syslist (code sc)) [
    | [] ↦ ok (none, t)
    | i ∷ is ↦ ok (some i, record t { syslist = λ k. if code sc == k then is else t.syslist k })
  ]

unfoldable pub record_file_ops : Thread → Syscall → ℕ → ℕ → Outcome Thread
unfolding alloc_entry insert_list
record_file_ops t sc fd ret = do
  assert (leb (code sc) 2)
  let closes = code sc == 1
  (i, t1) ← alloc_entry t sc (record_file fd (if closes then some ret else none))
  ok (if closes then insert_list t1 file_close i else t1)

-- The descriptor, or for a close the return value.
unfoldable pub get_file_ops : Thread → Syscall → Outcome (ℕ × Thread)
unfolding retrieve_entry
get_file_ops t sc = do
  assert (leb (code sc) 2)
  (contents, t1) ← retrieve_entry t sc
  elim contents [
    | record_file fd (some ret) ↦ ok (ret, t1)
    | record_file fd none ↦ ok (fd, t1)
    | _ ↦ fault
  ]

unfoldable pub record_dir_ops : Thread → Syscall → ℕ → Outcome Thread
unfolding alloc_entry insert_list
record_dir_ops t sc dir = do
  assert (code sc == 3 || code sc == 4)
  (i, t1) ← alloc_entry t sc (record_dir dir)
  ok (if code sc == 4 then insert_list t1 dir_close i else t1)

unfoldable pub get_dir_ops : Thread → Syscall → Outcome (ℕ × Thread)
unfolding retrieve_entry
get_dir_ops t sc = do
  assert (code sc == 3 || code sc == 4)
  (contents, t1) ← retrieve_entry t sc
  elim contents [ record_dir dir ↦ ok (dir, t1) | _ ↦ fault ]

unfoldable pub record_time_ops : Thread → ℕ → Outcome Thread
unfolding alloc_entry
record_time_ops t time = do (i, t1) ← alloc_entry t sys_time (record_time time); ok t1

unfoldable pub get_time_ops : Thread → Outcome (ℕ × Thread)
unfolding retrieve_entry
get_time_ops t = do
  (contents, t1) ← retrieve_entry t sys_time
  elim contents [ record_time time ↦ ok (time, t1) | _ ↦ fault ]

unfoldable pub record_mmap_ops : Thread → ℕ → Outcome Thread
unfolding alloc_entry
record_mmap_ops t addr = do (i, t1) ← alloc_entry t sys_mmap (record_mmap addr); ok t1

unfoldable pub get_mmap_ops : Thread → Outcome (ℕ × Thread)
unfolding retrieve_entry
get_mmap_ops t = do
  (contents, t1) ← retrieve_entry t sys_mmap
  elim contents [ record_mmap addr ↦ ok (addr, t1) | _ ↦ fault ]

unfoldable pub record_munmap_ops : Thread → ℕ → ℕ → Outcome Thread
unfolding alloc_entry insert_list
record_munmap_ops t addr length = do
  (i, t1) ← alloc_entry t sys_munmap (record_munmap addr length)
  ok (insert_list t1 sys_munmap i)

unfoldable pub get_munmap_ops : Thread → Outcome Thread
unfolding retrieve_entry
get_munmap_ops t = do (contents, t1) ← retrieve_entry t sys_munmap; ok t1

unfoldable pub record_gettimeofday_ops : Thread → ℕ → Option ℕ → Option ℕ → Outcome Thread
unfolding alloc_entry
record_gettimeofday_ops t ret tv tz = do
  (i, t1) ← alloc_entry t gettimeofday (record_timeofday ret tv tz)
  ok t1

unfoldable pub get_gettimeofday_ops : Thread → Outcome ((ℕ × Option ℕ × Option ℕ) × Thread)
unfolding retrieve_entry
get_gettimeofday_ops t = do
  (contents, t1) ← retrieve_entry t gettimeofday
  elim contents [ record_timeofday ret tv tz ↦ ok ((ret, tv, tz), t1) | _ ↦ fault ]

-- The result -1 of a call.
abbrev pub failed : ℕ → Bool
failed ret = ret == 0xFFFFFFFFFFFFFFFF

-- `buf` is none for a null pointer, from which the copy fails.
unfoldable pub record_times_ops : Thread → ℕ → Option ℕ → Outcome Thread
unfolding alloc_entry
record_times_ops t ret buf = do
  (i, t1) ← alloc_entry t sys_times (record_times ret (if failed ret then none else buf))
  if failed ret then ok t1 else elim buf [ none ↦ fault | some _ ↦ ok t1 ]

-- The caller's buffer afterwards: nothing was copied to it, the bytes that were in the entry before
-- the recording were copied to it, or a value that was recorded.
pub data Buffer : Type 0 where
  untouched stale : Buffer
  filled : ℕ → Buffer

abbrev pub copied : Option ℕ → Buffer
copied none = stale
copied (some buf) = filled buf

-- Whether the caller gave a buffer is `has_buf`.
unfoldable pub get_times_ops : Thread → Bool → Outcome ((ℕ × Buffer) × Thread)
unfolding retrieve_entry
get_times_ops t has_buf = do
  (contents, t1) ← retrieve_entry t sys_times
  elim contents [
    | record_times ret buf ↦ ok ((ret, if has_buf then copied buf else untouched), t1)
    | _ ↦ fault
  ]

unfoldable pub record_clone_ops : Thread → ℕ → ℕ → Outcome Thread
unfolding alloc_entry
record_clone_ops t ret tid = do (i, t1) ← alloc_entry t sys_clone (record_clone ret tid); ok t1

unfoldable pub get_clone_ops : Thread → Outcome ((ℕ × ℕ) × Thread)
unfolding retrieve_entry
get_clone_ops t = do
  (contents, t1) ← retrieve_entry t sys_clone
  elim contents [ record_clone ret tid ↦ ok ((ret, tid), t1) | _ ↦ fault ]

unfoldable pub munmap_of : Option SyscallEntry → Outcome (ℕ × ℕ)
munmap_of none = fault
munmap_of (some entry) = elim entry.contents [
  | record_munmap addr length ↦ ok (addr, length)
  | _ ↦ fault
]

-- The calls of the real `munmap` that the start of an epoch makes.
unfoldable pub run_munmaps : Thread → List ℕ → Outcome (List (ℕ × ℕ))
unfolding munmap_of
run_munmaps t [] = ok []
run_munmaps t (i ∷ is) = do
  region ← munmap_of (get_elem? t.syscalls.start i)
  rest ← run_munmaps t is
  ok (region ∷ rest)

unfoldable pub epoch_begin : Thread → Outcome (List (ℕ × ℕ) × Thread)
unfolding run_munmaps
epoch_begin t = do
  unmapped ← run_munmaps t (t.syslist 6)
  ok (unmapped, record t { syscalls = RecordEntries.cleanup t.syscalls; syslist = λ k. [] })

unfoldable pub prepare_rollback : Thread → Thread
prepare_rollback t = record t { syscalls = RecordEntries.prepare_rollback t.syscalls }
