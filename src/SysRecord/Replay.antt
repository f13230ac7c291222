-- ===== src/SysRecord/Replay.antt =====
-- What is recorded of the system calls is what the replay gives, and what the next epoch unmaps:
-- include/sysrecord.hh.
use double_take.Prelude.{
  ℕ, ◌+◌, ◌<◌, ◌≡◌, refl, Bool, true, false, Option, none, some, ◌==◌, ltb, lt→ltb, if◌then◌else◌,
  get_elem?, set, Bool-cases, inl, inr, Outcome, ok, ◌>>=◌,
}
use double_take.RecordEntries.{RecordEntries, alloc, retrieve_iter_entry}
use double_take.RecordEntries.Replay.{replay_event}
use double_take.SysRecord.{
  Syscall, file_open, file_close, file_dup, dir_open, dir_close, sys_mmap, sys_munmap, sys_time,
  gettimeofday, sys_times, sys_clone, code, Data, record_file, record_dir, record_mmap,
  record_munmap, record_time, record_timeofday, record_times, record_clone, SyscallEntry, Thread,
  alloc_entry, insert_list, retrieve_entry, read_entry, record_file_ops, get_file_ops,
  record_dir_ops, get_dir_ops, record_time_ops, get_time_ops, record_mmap_ops, get_mmap_ops,
  record_munmap_ops, get_munmap_ops, record_gettimeofday_ops, get_gettimeofday_ops, failed, Buffer,
  untouched, stale, filled, record_times_ops, get_times_ops, record_clone_ops, get_clone_ops,
}

-- A system call, with what the real one gave. For `times`, that is what it wrote to the buffer, or
-- none if the program passed no buffer.
pub data Call : Type 0 where
  open_file : ℕ → Call
  close_file : ℕ → ℕ → Call
  dup_file : ℕ → Call
  open_dir : ℕ → Call
  close_dir : ℕ → Call
  map_memory : ℕ → Call
  unmap_memory : ℕ → ℕ → Call
  get_time : ℕ → Call
  get_time_of_day : ℕ → Option ℕ → Option ℕ → Call
  get_times : ℕ → Option ℕ → Call
  clone : ℕ → ℕ → Call

-- What the program sees of the call.
pub data Result : Type 0 where
  nothing : Result
  one : ℕ → Result
  two : ℕ → ℕ → Result
  day : ℕ → Option ℕ → Option ℕ → Result
  times : ℕ → Buffer → Result

unfoldable pub record_call : Thread → Call → Outcome Thread
unfolding record_file_ops record_dir_ops record_time_ops record_mmap_ops record_munmap_ops
    record_gettimeofday_ops record_times_ops record_clone_ops
record_call t (open_file fd) = record_file_ops t file_open fd 0
record_call t (close_file fd ret) = record_file_ops t file_close fd ret
record_call t (dup_file fd) = record_file_ops t file_dup fd 0
record_call t (open_dir dir) = record_dir_ops t dir_open dir
record_call t (close_dir dir) = record_dir_ops t dir_close dir
record_call t (map_memory addr) = record_mmap_ops t addr
record_call t (unmap_memory addr len) = record_munmap_ops t addr len
record_call t (get_time time) = record_time_ops t time
record_call t (get_time_of_day ret tv tz) = record_gettimeofday_ops t ret tv tz
record_call t (get_times ret buf) = record_times_ops t ret buf
record_call t (clone ret tid) = record_clone_ops t ret tid

-- The replay of a call of the same kind. What the real call gave is not looked at.
unfoldable pub replay_call : Thread → Call → Outcome (Result × Thread)
unfolding get_file_ops get_dir_ops get_time_ops get_mmap_ops get_munmap_ops get_gettimeofday_ops
    get_times_ops get_clone_ops
replay_call t (open_file _) = do (fd, t1) ← get_file_ops t file_open; ok (one fd, t1)
replay_call t (close_file _ _) = do (ret, t1) ← get_file_ops t file_close; ok (one ret, t1)
replay_call t (dup_file _) = do (fd, t1) ← get_file_ops t file_dup; ok (one fd, t1)
replay_call t (open_dir _) = do (dir, t1) ← get_dir_ops t dir_open; ok (one dir, t1)
replay_call t (close_dir _) = do (dir, t1) ← get_dir_ops t dir_close; ok (one dir, t1)
replay_call t (map_memory _) = do (addr, t1) ← get_mmap_ops t; ok (one addr, t1)
replay_call t (unmap_memory _ _) = do t1 ← get_munmap_ops t; ok (nothing, t1)
replay_call t (get_time _) = do (time, t1) ← get_time_ops t; ok (one time, t1)
replay_call t (get_time_of_day _ _ _) = do
  ((ret, tv, tz), t1) ← get_gettimeofday_ops t
  ok (day ret tv tz, t1)
replay_call t (get_times _ none) = do
  ((ret, buf), t1) ← get_times_ops t false
  ok (times ret buf, t1)
replay_call t (get_times _ (some _)) = do
  ((ret, buf), t1) ← get_times_ops t true
  ok (times ret buf, t1)
replay_call t (clone _ _) = do ((ret, tid), t1) ← get_clone_ops t; ok (two ret tid, t1)

abbrev tms_of : ℕ → Option ℕ → Option ℕ
tms_of ret buf = if failed ret then none else buf

-- What the recorded call gave.
abbrev pub gave : Call → Result
gave (open_file fd) = one fd
gave (close_file fd ret) = one ret
gave (dup_file fd) = one fd
gave (open_dir dir) = one dir
gave (close_dir dir) = one dir
gave (map_memory addr) = one addr
gave (unmap_memory addr len) = nothing
gave (get_time time) = one time
gave (get_time_of_day ret tv tz) = day ret tv tz
gave (get_times ret none) = times ret untouched
gave (get_times ret (some buf)) = times ret (if failed ret then untouched else filled buf)
gave (clone ret tid) = two ret tid

-- What the replay gives: the same, but in the buffer of a `times` that failed there is what was in
-- the entry.
abbrev pub replayed : Call → Result
replayed (get_times ret (some buf)) = times ret (if failed ret then stale else filled buf)
replayed c = gave c

-- A `times` that succeeds has a buffer.
abbrev pub has_buffer : Call → Bool
has_buffer (get_times ret none) = failed ret
has_buffer _ = true

entry : Syscall → Data → SyscallEntry
entry sc contents = record { syscall = sc; contents = contents }

unfoldable pub entry_of : Call → SyscallEntry
unfolding entry
entry_of (open_file fd) = entry file_open (record_file fd none)
entry_of (close_file fd ret) = entry file_close (record_file fd (some ret))
entry_of (dup_file fd) = entry file_dup (record_file fd none)
entry_of (open_dir dir) = entry dir_open (record_dir dir)
entry_of (close_dir dir) = entry dir_close (record_dir dir)
entry_of (map_memory addr) = entry sys_mmap (record_mmap addr)
entry_of (unmap_memory addr len) = entry sys_munmap (record_munmap addr len)
entry_of (get_time time) = entry sys_time (record_time time)
entry_of (get_time_of_day ret tv tz) = entry gettimeofday (record_timeofday ret tv tz)
entry_of (get_times ret buf) = entry sys_times (record_times ret (tms_of ret buf))
entry_of (clone ret tid) = entry sys_clone (record_clone ret tid)

-- The pool of the thread with one more entry.
unfoldable pub put : Thread → SyscallEntry → Thread
put t e = record t {
  syscalls = record t.syscalls {
    cur = t.syscalls.cur + 1;
    start = set t.syscalls.start t.syscalls.cur e;
  };
}

-- The thread after a call was recorded.
unfoldable pub after : Thread → Call → Thread
unfolding put insert_list
after t (close_file fd ret) =
    insert_list (put t (entry_of (close_file fd ret))) file_close t.syscalls.cur
after t (close_dir dir) = insert_list (put t (entry_of (close_dir dir))) dir_close t.syscalls.cur
after t (unmap_memory addr len) =
    insert_list (put t (entry_of (unmap_memory addr len))) sys_munmap t.syscalls.cur
after t c = put t (entry_of c)

alloc_entry_ok :
    (t : Thread) (sc : Syscall) (contents : Data)
    → t.syscalls.cur < t.syscalls.total
    → alloc_entry t sc contents ≡ ok (t.syscalls.cur, put t (entry sc contents))
unfolding alloc_entry alloc put entry
alloc_entry_ok t sc contents room = rw (alloc_entry, alloc, lt→ltb _ _ room) refl

pub record_call-after :
    (t : Thread) (c : Call)
    → t.syscalls.cur < t.syscalls.total
    → has_buffer c ≡ true
    → record_call t c ≡ ok (after t c)
unfolding record_call after entry_of record_file_ops record_dir_ops record_time_ops record_mmap_ops
    record_munmap_ops record_gettimeofday_ops record_times_ops record_clone_ops
record_call-after t (open_file fd) room buffer =
    rw (alloc_entry_ok t file_open (record_file fd none) room) refl
record_call-after t (close_file fd ret) room buffer =
    rw (alloc_entry_ok t file_close (record_file fd (some ret)) room) refl
record_call-after t (dup_file fd) room buffer =
    rw (alloc_entry_ok t file_dup (record_file fd none) room) refl
record_call-after t (open_dir dir) room buffer =
    rw (alloc_entry_ok t dir_open (record_dir dir) room) refl
record_call-after t (close_dir dir) room buffer =
    rw (alloc_entry_ok t dir_close (record_dir dir) room) refl
record_call-after t (map_memory addr) room buffer =
    rw (alloc_entry_ok t sys_mmap (record_mmap addr) room) refl
record_call-after t (unmap_memory addr len) room buffer =
    rw (alloc_entry_ok t sys_munmap (record_munmap addr len) room) refl
record_call-after t (get_time time) room buffer =
    rw (alloc_entry_ok t sys_time (record_time time) room) refl
record_call-after t (get_time_of_day ret tv tz) room buffer =
    rw (alloc_entry_ok t gettimeofday (record_timeofday ret tv tz) room) refl
record_call-after t (get_times ret none) room buffer =
    rw (alloc_entry_ok t sys_times (record_times ret (tms_of ret none)) room, buffer) refl
record_call-after t (get_times ret (some buf)) room buffer = elim (Bool-cases (failed ret)) [
  | inl fails ↦
      rw (alloc_entry_ok t sys_times (record_times ret (tms_of ret (some buf))) room, fails) refl
  | inr succeeds ↦
      rw (alloc_entry_ok t sys_times (record_times ret (tms_of ret (some buf))) room, succeeds) refl
]
record_call-after t (clone ret tid) room buffer =
    rw (alloc_entry_ok t sys_clone (record_clone ret tid) room) refl

unfoldable pub taken_from : Thread → Thread
taken_from t = record t { syscalls = (replay_event t.syscalls).1 }

-- An event that the replay gives is in use, and in the pool.
replay_event-some :
    {A : Type 0} (r : RecordEntries A) (e : A)
    → (replay_event r).0 ≡ some e
    → (ltb r.iter r.cur ≡ true) × (get_elem? r.start r.iter ≡ some e)
unfolding replay_event retrieve_iter_entry
replay_event-some r e h = elim (Bool-cases (ltb r.iter r.cur)) [
  | inl more ↦ (more, rw (replay_event, retrieve_iter_entry, more) at h)
  | inr done ↦ absurd (cc (rw (replay_event, retrieve_iter_entry, done) at h))
]

retrieve_entry_ok :
    (t : Thread) (c : Call) (sc : Syscall)
    → (replay_event t.syscalls).0 ≡ some (entry_of c)
    → (code (entry_of c).syscall == code sc) ≡ true
    → retrieve_entry t sc ≡ ok ((entry_of c).contents, taken_from t)
unfolding taken_from retrieve_entry replay_event retrieve_iter_entry read_entry
retrieve_entry_ok t c sc h same =
    let (more, at) = replay_event-some t.syscalls (entry_of c) h in
    rw (retrieve_entry, replay_event, retrieve_iter_entry, more, read_entry, at, same) refl

pub replay_call-replayed :
    (t : Thread) (c : Call)
    → (replay_event t.syscalls).0 ≡ some (entry_of c)
    → replay_call t c ≡ ok (replayed c, taken_from t)
unfolding replay_call entry_of get_file_ops get_dir_ops get_time_ops get_mmap_ops get_munmap_ops
    get_gettimeofday_ops get_times_ops get_clone_ops
replay_call-replayed t (open_file fd) h =
    rw (retrieve_entry_ok t (open_file fd) file_open h refl) refl
replay_call-replayed t (close_file fd ret) h =
    rw (retrieve_entry_ok t (close_file fd ret) file_close h refl) refl
replay_call-replayed t (dup_file fd) h = rw (retrieve_entry_ok t (dup_file fd) file_dup h refl) refl
replay_call-replayed t (open_dir dir) h =
    rw (retrieve_entry_ok t (open_dir dir) dir_open h refl) refl
replay_call-replayed t (close_dir dir) h =
    rw (retrieve_entry_ok t (close_dir dir) dir_close h refl) refl
replay_call-replayed t (map_memory addr) h =
    rw (retrieve_entry_ok t (map_memory addr) sys_mmap h refl) refl
replay_call-replayed t (unmap_memory addr len) h =
    rw (retrieve_entry_ok t (unmap_memory addr len) sys_munmap h refl) refl
replay_call-replayed t (get_time time) h =
    rw (retrieve_entry_ok t (get_time time) sys_time h refl) refl
replay_call-replayed t (get_time_of_day ret tv tz) h =
    rw (retrieve_entry_ok t (get_time_of_day ret tv tz) gettimeofday h refl) refl
replay_call-replayed t (get_times ret none) h =
    rw (retrieve_entry_ok t (get_times ret none) sys_times h refl) refl
replay_call-replayed t (get_times ret (some buf)) h = elim (Bool-cases (failed ret)) [
  | inl fails ↦ rw (retrieve_entry_ok t (get_times ret (some buf)) sys_times h refl, fails) refl
  | inr succeeds ↦
      rw (retrieve_entry_ok t (get_times ret (some buf)) sys_times h refl, succeeds) refl
]
replay_call-replayed t (clone ret tid) h =
    rw (retrieve_entry_ok t (clone ret tid) sys_clone h refl) refl
