-- ===== src/SysRecord/Unmaps.antt =====
-- What is unmapped in an epoch is really unmapped at the start of the next: epochBegin of
-- include/sysrecord.hh.
use double_take.Prelude.{
  ℕ, ◌+◌, ◌≤◌, ◌<◌, ◌≡◌, refl, sym, ap, ◌∙◌, some, List, [], ◌∷◌, ◌++◌, get_elem?, set, length,
  length-set, get_elem?-set_self, get_elem?-set_ne, get_elem?-eq-get_or, get_or, arith, Outcome, ok,
  aborted, fault, timeout, ◌>>=◌, true,
}
use double_take.RecordEntries
use double_take.RecordEntries.{RecordEntries}
use double_take.SysRecord.{SyscallEntry, Thread, insert_list, munmap_of, run_munmaps, epoch_begin}
use double_take.SysRecord.Replay.{
  Call, entry_of, after, put, record_call-after, unmap_memory, open_file, close_file, dup_file,
  open_dir, close_dir, map_memory, get_time, get_time_of_day, get_times, clone,
}
use double_take.SysRecord.Epoch.{record_calls, cleaned, have_buffers, have_buffers-cons, put_fields}

-- The regions that the calls unmapped.
abbrev pub unmaps : List Call → List (ℕ × ℕ)
unmaps [] = []
unmaps (unmap_memory addr len ∷ cs) = (addr, len) ∷ unmaps cs
unmaps (_ ∷ cs) = unmaps cs

abbrev AllBelow : ℕ → List ℕ → Type 0
AllBelow n [] = 0 ≤ 0
AllBelow n (i ∷ is) = (i < n) × AllBelow n is

AllBelow-suc : (n : ℕ) (is : List ℕ) → AllBelow n is → AllBelow (n + 1) is
AllBelow-suc n [] h = omega arith
AllBelow-suc n (i ∷ is) h = (omega (arith, h.0), AllBelow-suc n is h.1)

AllBelow-snoc : (n : ℕ) (is : List ℕ) → AllBelow n is → AllBelow (n + 1) (is ++ n ∷ [])
AllBelow-snoc n [] h = (omega arith, omega arith)
AllBelow-snoc n (i ∷ is) h = (omega (arith, h.0), AllBelow-snoc n is h.1)

ok_inj : {A : Type 0} (a b : A) → ok a ≡ ok b → a ≡ b
ok_inj a b h = cc

bind-ok :
    {A B : Type 0} (o : Outcome A) (f : A → Outcome B) (b : B)
    → (o >>= f) ≡ ok b
    → (a : A) × (o ≡ ok a) × (f a ≡ ok b)
bind-ok (ok a) f b h = (a, refl, h)
bind-ok aborted f b h = absurd (cc h)
bind-ok fault f b h = absurd (cc h)
bind-ok timeout f b h = absurd (cc h)

-- The places before the next one are read as before.
run_munmaps-same :
    (t t' : Thread) (n : ℕ) (is : List ℕ)
    → AllBelow n is
    → ((i : ℕ) → i < n → get_elem? t'.syscalls.start i ≡ get_elem? t.syscalls.start i)
    → run_munmaps t' is ≡ run_munmaps t is
unfolding run_munmaps
run_munmaps-same t t' n [] h same = refl
run_munmaps-same t t' n (i ∷ is) h same =
    rw (run_munmaps, same i h.0, run_munmaps-same t t' n is h.1 same) refl

run_munmaps-snoc :
    (t : Thread) (is : List ℕ) (i : ℕ) (ms : List (ℕ × ℕ)) (addr len : ℕ)
    → run_munmaps t is ≡ ok ms
    → get_elem? t.syscalls.start i ≡ some (entry_of (unmap_memory addr len))
    → run_munmaps t (is ++ i ∷ []) ≡ ok (ms ++ (addr, len) ∷ [])
unfolding run_munmaps entry_of munmap_of
run_munmaps-snoc t [] i ms addr len h at = rw (run_munmaps, at, munmap_of, ← ok_inj [] ms h) refl
run_munmaps-snoc t (j ∷ is) i ms addr len h at =
    let (region, first, later) = bind-ok (munmap_of (get_elem? t.syscalls.start j)) _ ms h in
    let (rest, second, last) = bind-ok (run_munmaps t is) _ ms later in
    rw
      (
        run_munmaps,
        first,
        run_munmaps-snoc t is i rest addr len second at,
        ← ok_inj (region ∷ rest) ms last,
      )
      refl

entry_inside :
    (xs : List SyscallEntry) (i : ℕ) (e : SyscallEntry)
    → i < length xs
    → get_elem? (set xs i e) i ≡ some e
entry_inside xs i e lt = get_elem?-set_self xs i e (get_or xs i e) (get_elem?-eq-get_or xs i e lt)

start_kept :
    (t : Thread) (c : Call) (i : ℕ)
    → i < t.syscalls.cur
    → get_elem? (after t c).syscalls.start i ≡ get_elem? t.syscalls.start i
start_kept t c i lt =
    let (cur, total, start) = put_fields t c in
    ap (λ l. get_elem? l i) start
    ∙ get_elem?-set_ne t.syscalls.start t.syscalls.cur i (entry_of c)
        (λ e. absurd (omega (arith, e, lt)))

-- What the calls of an epoch add to the regions to unmap.
Unmaps : Thread → List (ℕ × ℕ) → Thread → List (ℕ × ℕ) → Type 0
Unmaps t' ms' t ms =
    (run_munmaps t' (t'.syslist 6) ≡ ok ms')
    × AllBelow (t.syscalls.cur + 1) (t'.syslist 6)
    × (ms' ≡ ms)

Unmaps-kept :
    (t : Thread) (c : Call) (ms : List (ℕ × ℕ))
    → AllBelow t.syscalls.cur (t.syslist 6)
    → run_munmaps t (t.syslist 6) ≡ ok ms
    → (after t c).syslist 6 ≡ t.syslist 6
    → Unmaps (after t c) ms t ms
unfolding Unmaps
Unmaps-kept t c ms below h same = rw same (
  run_munmaps-same t (after t c) t.syscalls.cur (t.syslist 6) below (start_kept t c) ∙ h,
  AllBelow-suc t.syscalls.cur (t.syslist 6) below,
  refl,
)

Unmaps-added :
    (t : Thread) (addr len : ℕ) (ms : List (ℕ × ℕ))
    → t.syscalls.cur < length t.syscalls.start
    → AllBelow t.syscalls.cur (t.syslist 6)
    → run_munmaps t (t.syslist 6) ≡ ok ms
    → Unmaps (after t (unmap_memory addr len)) (ms ++ (addr, len) ∷ []) t (ms ++ (addr, len) ∷ [])
unfolding Unmaps after insert_list put
Unmaps-added t addr len ms inside below h = (
  run_munmaps-snoc (after t (unmap_memory addr len)) (t.syslist 6) t.syscalls.cur ms addr len
      (run_munmaps-same t (after t (unmap_memory addr len)) t.syscalls.cur (t.syslist 6) below
          (start_kept t (unmap_memory addr len))
        ∙ h)
      (entry_inside t.syscalls.start t.syscalls.cur (entry_of (unmap_memory addr len)) inside),
  AllBelow-snoc t.syscalls.cur (t.syslist 6) below,
  refl,
)

append_nil : (ms : List (ℕ × ℕ)) → ms ++ [] ≡ ms
append_nil [] = refl
append_nil (x ∷ ms) = rw (append_nil ms) refl

append_assoc : (ms ns : List (ℕ × ℕ)) (m : ℕ × ℕ) → (ms ++ m ∷ []) ++ ns ≡ ms ++ m ∷ ns
append_assoc [] ns m = refl
append_assoc (x ∷ ms) ns m = rw (append_assoc ms ns m) refl

-- A call, with the regions that are unmapped after it.
run_munmaps-after :
    (t : Thread) (c : Call) (cs : List Call) (ms : List (ℕ × ℕ))
    → t.syscalls.cur < length t.syscalls.start
    → AllBelow t.syscalls.cur (t.syslist 6)
    → run_munmaps t (t.syslist 6) ≡ ok ms
    → (ms' : List (ℕ × ℕ)) × Unmaps (after t c) ms' t ms'
      × (ms' ++ unmaps cs ≡ ms ++ unmaps (c ∷ cs))
unfolding after insert_list put
run_munmaps-after t (open_file fd) cs ms inside below h =
    (ms, Unmaps-kept t (open_file fd) ms below h refl, refl)
run_munmaps-after t (close_file fd ret) cs ms inside below h =
    (ms, Unmaps-kept t (close_file fd ret) ms below h refl, refl)
run_munmaps-after t (dup_file fd) cs ms inside below h =
    (ms, Unmaps-kept t (dup_file fd) ms below h refl, refl)
run_munmaps-after t (open_dir dir) cs ms inside below h =
    (ms, Unmaps-kept t (open_dir dir) ms below h refl, refl)
run_munmaps-after t (close_dir dir) cs ms inside below h =
    (ms, Unmaps-kept t (close_dir dir) ms below h refl, refl)
run_munmaps-after t (map_memory addr) cs ms inside below h =
    (ms, Unmaps-kept t (map_memory addr) ms below h refl, refl)
run_munmaps-after t (get_time time) cs ms inside below h =
    (ms, Unmaps-kept t (get_time time) ms below h refl, refl)
run_munmaps-after t (get_time_of_day ret tv tz) cs ms inside below h =
    (ms, Unmaps-kept t (get_time_of_day ret tv tz) ms below h refl, refl)
run_munmaps-after t (get_times ret buf) cs ms inside below h =
    (ms, Unmaps-kept t (get_times ret buf) ms below h refl, refl)
run_munmaps-after t (clone ret tid) cs ms inside below h =
    (ms, Unmaps-kept t (clone ret tid) ms below h refl, refl)
run_munmaps-after t (unmap_memory addr len) cs ms inside below h = (
  ms ++ (addr, len) ∷ [],
  Unmaps-added t addr len ms inside below h,
  append_assoc ms (unmaps cs) (addr, len),
)

record_calls-unmaps :
    (cs : List Call) (t : Thread) (ms : List (ℕ × ℕ))
    → t.syscalls.total ≤ length t.syscalls.start
    → t.syscalls.cur + length cs ≤ t.syscalls.total
    → have_buffers cs ≡ true
    → AllBelow t.syscalls.cur (t.syslist 6)
    → run_munmaps t (t.syslist 6) ≡ ok ms
    → (t' : Thread) × (record_calls t cs ≡ ok t')
      × (run_munmaps t' (t'.syslist 6) ≡ ok (ms ++ unmaps cs))
unfolding record_calls Unmaps
record_calls-unmaps [] t ms backed room buffers below h = (t, refl, h ∙ ap ok (sym (append_nil ms)))
record_calls-unmaps (c ∷ cs) t ms backed room buffers below h =
    let (buffer, later) = have_buffers-cons c cs buffers in
    let more : t.syscalls.cur < t.syscalls.total = omega (arith, room) in
    let (cur, total, start) = put_fields t c in
    let (ms', (h', below', _), same) =
      run_munmaps-after t c cs ms (omega (arith, more, backed)) below h in
    let (t', eq, unmapped) =
      record_calls-unmaps cs (after t c) ms'
        (omega (
          arith,
          backed,
          total,
          ap length start,
          length-set t.syscalls.start t.syscalls.cur (entry_of c),
        ))
        (omega (arith, room, cur, total)) later (rw cur below') h' in
    (t', rw (record_call-after t c more buffer) eq, unmapped ∙ ap ok same)

-- `epochBegin`, after the system calls that a thread made from the start of an epoch on, with room
-- for them in its pool and a buffer for each `times` that succeeds: it unmaps each region that the thread unmapped, once, in that order, and
-- nothing else, and leaves the thread as an epoch finds it.
pub epoch_begin-unmaps :
    (t : Thread) (cs : List Call)
    → t.syscalls.total ≤ length t.syscalls.start
    → length cs ≤ t.syscalls.total
    → have_buffers cs ≡ true
    → (t' : Thread) × (record_calls (cleaned t) cs ≡ ok t')
      × (epoch_begin t' ≡ ok (unmaps cs, cleaned t'))
unfolding epoch_begin cleaned RecordEntries.cleanup run_munmaps
epoch_begin-unmaps t cs backed room buffers =
    let (t', eq, unmapped) =
      record_calls-unmaps cs (cleaned t) [] backed (omega (arith, room)) buffers (omega arith)
        refl in
    (t', eq, rw (epoch_begin, unmapped) refl)
