-- ===== src/Sync/Recording.antt =====
-- What a thread records at a lock that succeeds: recordSyncEvent of include/synceventlist.hh.
use double_take.Prelude.{
  ℕ, ◌+◌, ◌≤◌, ◌≡◌, inl, inr, refl, sym, ap, ◌∙◌, none, some, Bool, true, false, List, [], ◌∷◌,
  ◌++◌, ◌==◌, length, ==→eq, Bool-cases, arith, Outcome, ok, ◌>>=◌, if◌then◌else◌,
}
use double_take.Sync.{EventPtr, World, assign, record_sync_event}
use double_take.Sync.Inv.{At, IsRecorded}
use double_take.Sync.Prepare.{IsFresh}
use double_take.Sync.Appending.{Recording, record_sync_event-Recording}

-- The events of an epoch, each a thread and the list of the variable that it locked.
unfoldable pub record_sync_events : World → List (ℕ × ℕ) → Outcome World
unfolding record_sync_event
record_sync_events w [] = ok w
record_sync_events w ((t, v) ∷ events) = do
  w' ← record_sync_event w t v 0
  record_sync_events w' events

-- A state at the start of an epoch: no event is in a list or in a pool, and the pools have room for
-- `n` events.
pub record IsClean (n : ℕ) (w : World) : Type 0 where
  pub fresh : IsFresh w
  pub no_events : (v : ℕ) → w.list v ≡ []
  pub none_used : (t : ℕ) → (w.syncevents t).cur ≡ 0
  pub backed : (t : ℕ) → (w.syncevents t).total ≤ length (w.syncevents t).start
  pub room : (t : ℕ) → n ≤ (w.syncevents t).total

Recording-clean : (n : ℕ) (w : World) → IsClean n w → Recording (λ e. 0) 0 w
Recording-clean n w clean = record {
  recorded = record {
    stored = λ v k e at. absurd (cc (nothing v k e at));
    used = λ v k e at. absurd (cc (nothing v k e at));
    unique = λ v v' j k e at. absurd (cc (nothing v j e at));
    listed = λ t i lt. absurd (omega (arith, lt, clean.none_used t));
    list_order = λ v j k e x at. absurd (cc (nothing v j e at));
    pool_order = λ t i j lt lt'. absurd (omega (arith, lt', clean.none_used t));
  };
  so_far = λ t i lt. absurd (omega (arith, lt, clean.none_used t));
  backed = clean.backed;
  fresh = clean.fresh;
}
  where
    nothing : (v k : ℕ) (e : EventPtr) → At w v k e → none ≡ some e
    nothing v k e at = rw (clean.no_events v) at at

-- The events of the list `v`, where each thread has used the places below `used` in its pool.
abbrev pub events_of : (ℕ → ℕ) → ℕ → List (ℕ × ℕ) → List EventPtr
events_of used v [] = []
events_of used v ((t, u) ∷ events) =
    let rest = events_of (assign used t (used t + 1)) v events in
    if u == v then record { thread = t; place = used t } ∷ rest else rest

-- How many of the events are the thread's.
abbrev pub count_of : ℕ → List (ℕ × ℕ) → ℕ
count_of t [] = 0
count_of t ((u, v) ∷ events) = (if u == t then 1 else 0) + count_of t events

events_of-same :
    (events : List (ℕ × ℕ)) (used used' : ℕ → ℕ) (v : ℕ)
    → ((t : ℕ) → used t ≡ used' t)
    → events_of used v events ≡ events_of used' v events
events_of-same [] used used' v same = refl
events_of-same ((t, u) ∷ events) used used' v same =
    rw
      (
        same t,
        events_of-same events (assign used t (used' t + 1)) (assign used' t (used' t + 1)) v
            (λ a. ground (arith, same a)),
      )
      refl

append_snoc : (xs rest : List EventPtr) (e : EventPtr) → (xs ++ e ∷ []) ++ rest ≡ xs ++ e ∷ rest
append_snoc [] rest e = refl
append_snoc (x ∷ xs) rest e = rw (append_snoc xs rest e) refl

append_nil : (xs : List EventPtr) → xs ++ [] ≡ xs
append_nil [] = refl
append_nil (x ∷ xs) = rw (append_nil xs) refl

append_step :
    (b : Bool) (xs rest : List EventPtr) (e : EventPtr)
    → (if b then xs ++ e ∷ [] else xs) ++ rest ≡ xs ++ (if b then e ∷ rest else rest)
append_step true xs rest e = append_snoc xs rest e
append_step false xs rest e = refl

count_step :
    (b : Bool) (t u k : ℕ) (cur : ℕ → ℕ)
    → (t == u) ≡ b
    → (if t == u then cur t + 1 else cur u) + k ≡ cur u + ((if t == u then 1 else 0) + k)
count_step true t u k cur same = rw same (omega (arith, ap cur (==→eq t u same)))
count_step false t u k cur other = rw other (omega arith)

record_sync_events-Recording :
    (events : List (ℕ × ℕ)) (time : EventPtr → ℕ) (now : ℕ) (w : World)
    → Recording time now w
    → ((t : ℕ) → (w.syncevents t).cur + length events ≤ (w.syncevents t).total)
    → (time' : EventPtr → ℕ) × (now' : ℕ) × (w' : World) × (record_sync_events w events ≡ ok w')
      × Recording time' now' w'
      × ((v : ℕ) → w'.list v ≡ w.list v ++ events_of (λ t. (w.syncevents t).cur) v events)
      × ((t : ℕ) → (w'.syncevents t).cur ≡ (w.syncevents t).cur + count_of t events)
unfolding record_sync_events
record_sync_events-Recording [] time now w rec room =
    (time, now, w, refl, rec, λ v. sym (append_nil (w.list v)), λ t. omega arith)
record_sync_events-Recording ((t, v) ∷ events) time now w rec room =
    let (time1, w1, eq1, rec1, totals, curs, lists) =
      record_sync_event-Recording time now w t v rec (omega (arith, room t)) in
    let used : ℕ → ℕ = λ a. (w.syncevents a).cur in
    let (time2, now2, w2, eq2, rec2, lists2, counts2) =
      record_sync_events-Recording events time1 (now + 1) w1 rec1 (λ u. elim (Bool-cases (t == u)) [
        | inl same ↦ omega (
          arith,
          totals u,
          rw same at (curs u),
          room t,
          ap (λ a. (w.syncevents a).total) (==→eq t u same),
        )
        | inr other ↦ omega (arith, totals u, rw other at (curs u), room u)
      ]) in
    (
      time2,
      now2,
      w2,
      rw eq1 eq2,
      rec2,
      λ u.
          lists2 u
          ∙ ap (λ l. l ++ events_of (λ a. (w1.syncevents a).cur) u events) (lists u)
          ∙ append_step (v == u) (w.list u) (events_of (λ a. (w1.syncevents a).cur) u events)
              (record { thread = t; place = used t })
          ∙ ap
              (λ rest.
                w.list u ++ (if v == u then record { thread = t; place = used t } ∷ rest else rest))
              (events_of-same events (λ a. (w1.syncevents a).cur) (assign used t (used t + 1)) u
                curs),
      λ u.
          counts2 u
          ∙ ap (λ c. c + count_of u events) (curs u)
          ∙ count_step (t == u) t u (count_of u events) used refl,
    )

-- From a clean state, with room for them in every pool, the events of an epoch are all recorded:
-- each list has exactly the events of its variable, in their order, each at the next place in the
-- pool of its thread; each pool has as many as its thread's events; and pools and lists agree: each
-- of their entries is in both once, in the order of the recording.
pub record_sync_events-IsRecorded :
    (w : World) (events : List (ℕ × ℕ))
    → IsClean (length events) w
    → (time : EventPtr → ℕ) × (w' : World) × (record_sync_events w events ≡ ok w')
      × IsRecorded time w'
      × IsFresh w'
      × ((v : ℕ) → w'.list v ≡ events_of (λ t. 0) v events)
      × ((t : ℕ) → (w'.syncevents t).cur ≡ count_of t events)
record_sync_events-IsRecorded w events clean =
    let (time, now, w', eq, rec, lists, counts) =
      record_sync_events-Recording events (λ e. 0) 0 w (Recording-clean (length events) w clean)
        (λ t. omega (arith, clean.none_used t, clean.room t)) in
    (
      time,
      w',
      eq,
      rec.recorded,
      rec.fresh,
      λ v.
          lists v
          ∙ ap (λ l. l ++ events_of (λ t. (w.syncevents t).cur) v events) (clean.no_events v)
          ∙ events_of-same events (λ t. (w.syncevents t).cur) (λ t. 0) v clean.none_used,
      λ t. omega (arith, counts t, clean.none_used t),
    )
