-- ===== src/SysRecord/Epoch.antt =====
-- The system calls of an epoch, one after another: include/sysrecord.hh.
use double_take.Prelude.{
  ◌+◌, ◌≤◌, ◌<◌, ◌≡◌, refl, sym, ap, ◌∙◌, List, [], ◌∷◌, map, lt→ltb, set, length, arith, Outcome,
  ok, ◌>>=◌, Bool, true, ◌&&◌, Bool-cases, inl, inr,
}
use double_take.RecordEntries
use double_take.RecordEntries.{RecordEntries, alloc}
use double_take.RecordEntries.Replay.{Replays, record_event, record_events, record_events-Replays}
use double_take.SysRecord.{SyscallEntry, Thread, insert_list, prepare_rollback}
use double_take.SysRecord.Replay.{
  Call, Result, record_call, replay_call, replayed, has_buffer, entry_of, after, put, taken_from,
  record_call-after, replay_call-replayed, unmap_memory, open_file, close_file, dup_file, open_dir,
  close_dir, map_memory, get_time, get_time_of_day, get_times, clone,
}

unfoldable pub record_calls : Thread → List Call → Outcome Thread
unfolding record_call
record_calls t [] = ok t
record_calls t (c ∷ cs) = do t' ← record_call t c; record_calls t' cs

unfoldable pub replay_calls : Thread → List Call → Outcome (List Result × Thread)
unfolding replay_call
replay_calls t [] = ok ([], t)
replay_calls t (c ∷ cs) = do
  (r, t') ← replay_call t c
  (rs, t'') ← replay_calls t' cs
  ok (r ∷ rs, t'')

-- Each `times` that succeeds has a buffer.
abbrev pub have_buffers : List Call → Bool
have_buffers [] = true
have_buffers (c ∷ cs) = has_buffer c && have_buffers cs

-- The thread as an epoch finds it.
unfoldable pub cleaned : Thread → Thread
cleaned t = record t { syscalls = RecordEntries.cleanup t.syscalls; syslist = λ k. [] }

after-syscalls : (t : Thread) (c : Call) → (after t c).syscalls ≡ (put t (entry_of c)).syscalls
unfolding after put insert_list entry_of
after-syscalls t (open_file fd) = refl
after-syscalls t (close_file fd ret) = refl
after-syscalls t (dup_file fd) = refl
after-syscalls t (open_dir dir) = refl
after-syscalls t (close_dir dir) = refl
after-syscalls t (map_memory addr) = refl
after-syscalls t (unmap_memory addr len) = refl
after-syscalls t (get_time time) = refl
after-syscalls t (get_time_of_day ret tv tz) = refl
after-syscalls t (get_times ret buf) = refl
after-syscalls t (clone ret tid) = refl

record_event-put :
    (t : Thread) (e : SyscallEntry)
    → t.syscalls.cur < t.syscalls.total
    → record_event t.syscalls e ≡ ok (put t e).syscalls
unfolding record_event alloc put
record_event-put t e room = rw (record_event, alloc, lt→ltb _ _ room) refl

pub put_fields :
    (t : Thread) (c : Call)
    → ((after t c).syscalls.cur ≡ t.syscalls.cur + 1)
      × ((after t c).syscalls.total ≡ t.syscalls.total)
      × ((after t c).syscalls.start ≡ set t.syscalls.start t.syscalls.cur (entry_of c))
unfolding put
put_fields t c =
    let e = after-syscalls t c in (ap (λ r. r.cur) e, ap (λ r. r.total) e, ap (λ r. r.start) e)

pub have_buffers-cons :
    (c : Call) (cs : List Call)
    → have_buffers (c ∷ cs) ≡ true
    → (has_buffer c ≡ true) × (have_buffers cs ≡ true)
have_buffers-cons c cs h = elim (Bool-cases (has_buffer c)) [
  | inl first ↦ (first, rw first at h)
  | inr other ↦ absurd (cc (rw other at h))
]

record_calls-record_events :
    (cs : List Call) (t : Thread)
    → t.syscalls.cur + length cs ≤ t.syscalls.total
    → have_buffers cs ≡ true
    → (t' : Thread) × (record_calls t cs ≡ ok t')
      × (record_events t.syscalls (map entry_of cs) ≡ ok t'.syscalls)
unfolding record_calls record_events
record_calls-record_events [] t room buffers = (t, refl, refl)
record_calls-record_events (c ∷ cs) t room buffers =
    let (buffer, later) = have_buffers-cons c cs buffers in
    let more : t.syscalls.cur < t.syscalls.total = omega (arith, room) in
    let (cur, total, start) = put_fields t c in
    let (t', eq, events) =
      record_calls-record_events cs (after t c) (omega (arith, room, cur, total)) later in
    (
      t',
      rw (record_call-after t c more buffer) eq,
      rw (record_event-put t (entry_of c) more, ← after-syscalls t c) events,
    )

replay_calls-replayed :
    (cs : List Call) (t : Thread)
    → Replays t.syscalls (map entry_of cs)
    → (t' : Thread) × (replay_calls t cs ≡ ok (map replayed cs, t'))
unfolding replay_calls Replays taken_from
replay_calls-replayed [] t h = (t, refl)
replay_calls-replayed (c ∷ cs) t h =
    let (t', eq) = replay_calls-replayed cs (taken_from t) h.1 in
    (t', rw (replay_call-replayed t c h.0, eq) refl)

ok_inj : {A : Type 0} (a b : A) → ok a ≡ ok b → a ≡ b
ok_inj a b h = cc

length-map_entry : (cs : List Call) → length (map entry_of cs) ≡ length cs
length-map_entry [] = refl
length-map_entry (c ∷ cs) = omega (arith, length-map_entry cs)

-- The system calls that a thread makes from the start of an epoch on, if its pool has room for them,
-- are all recorded, where each `times` that succeeds has a buffer; and after `prepareRollback` the
-- same calls, in the same order, get what the real ones gave, but that the buffer of a `times` that
-- failed, which the real call left alone, gets the bytes that were in the entry before.
pub record_calls-replay_calls :
    (t : Thread) (cs : List Call)
    → t.syscalls.total ≤ length t.syscalls.start
    → length cs ≤ t.syscalls.total
    → have_buffers cs ≡ true
    → (t' : Thread) × (t'' : Thread) × (record_calls (cleaned t) cs ≡ ok t')
      × (replay_calls (prepare_rollback t') cs ≡ ok (map replayed cs, t''))
unfolding prepare_rollback cleaned RecordEntries.cleanup
record_calls-replay_calls t cs backed room buffers =
    let (t', eq, events) =
      record_calls-record_events cs (cleaned t) (omega (arith, room)) buffers in
    let (r, eqr, replays) =
      record_events-Replays t.syscalls (map entry_of cs) backed
        (omega (arith, length-map_entry cs, room)) in
    let (t'', replayed) =
      replay_calls-replayed cs (prepare_rollback t')
        (rw (ok_inj r t'.syscalls (sym eqr ∙ events)) at replays) in
    (t', t'', eq, replayed)
