-- ===== src/Threads/Deferred.antt =====
-- What is put off until the end of an epoch, and done there: deferSync and runDeferredSyncs of
-- include/threadinfo.hh.
use double_take.Prelude.{
  ℕ, ◌+◌, ◌^◌, ◌≤◌, ◌<◌, ◌≡◌, refl, ◌∙◌, true, false, some, List, [], ◌∷◌, ◌++◌, if◌then◌else◌,
  get_elem?, set, length, length-set, Bool-cases, inl, inr, arith,
}
use double_take.Threads.{
  Thread, ThreadInfo, DeferSyncVariable, SyncVariableType, is_thread, minus_one, set_free_thread,
  run_deferred_sync, run_deferred, run_deferred_syncs, defer_sync, increment_reapable_threads,
}
use double_take.Threads.Count.{used, used-set, IsValid}

abbrev pub Taken : List Thread → ℕ → Type 0
Taken ts i = (t : Thread) × (get_elem? ts i ≡ some t) × (t.available ≡ false)

-- The slots of the deferred threads are taken, and no two of them are the same.
abbrev pub AllTaken : List Thread → List DeferSyncVariable → Type 0
AllTaken ts [] = false ≡ false
AllTaken ts (d ∷ ds) =
    if is_thread d.sync_var_type
    then Taken ts d.variable × AllTaken (set_free_thread ts d.variable) ds
    else AllTaken ts ds

abbrev pub count_threads : List DeferSyncVariable → ℕ
count_threads [] = 0
count_threads (d ∷ ds) = (if is_thread d.sync_var_type then 1 else 0) + count_threads ds

abbrev pub free_all : List Thread → List DeferSyncVariable → List Thread
free_all ts [] = ts
free_all ts (d ∷ ds) =
    if is_thread d.sync_var_type
    then free_all (set_free_thread ts d.variable) ds
    else free_all ts ds

-- As many reapable threads are counted as threads are deferred, and each holds a slot of its own.
pub record IsBalanced (info : ThreadInfo) : Type 0 where
  pub valid : IsValid info
  pub reapable : info.reapable_threads ≡ count_threads info.defer_syncs
  pub taken : AllTaken info.threads info.defer_syncs

set_free_thread_lem :
    (ts : List Thread) (i : ℕ) (t : Thread)
    → get_elem? ts i ≡ some t
    → set_free_thread ts i ≡ set ts i (record t { available = true })
unfolding set_free_thread
set_free_thread_lem ts i t at = rw (set_free_thread, at) refl

used-set_free_thread :
    (ts : List Thread) (i : ℕ)
    → Taken ts i
    → (used ts ≡ used (set_free_thread ts i) + 1) × (length (set_free_thread ts i) ≡ length ts)
used-set_free_thread ts i (t, at, taken) = rw (set_free_thread_lem ts i t at) (
  ground (arith, used-set ts i t (record t { available = true }) at, taken),
  length-set ts i (record t { available = true }),
)

used_le_length : (ts : List Thread) → used ts ≤ length ts
used_le_length [] = omega arith
used_le_length (t ∷ ts) = elim (Bool-cases t.available) [
  | inl free ↦ ground (arith, free, used_le_length ts)
  | inr taken ↦ ground (arith, taken, used_le_length ts)
]

minus_one_lem : (n k : ℕ) → n ≡ k + 1 → n < 2 ^ 32 → minus_one n ≡ k
minus_one_lem n k e lt = omega (arith, e, lt)

pub record Reaps (info info' : ThreadInfo) (ds : List DeferSyncVariable) (r : ℕ) : Type 0 where
  pub valid : IsValid info'
  pub reapable : info'.reapable_threads ≡ r
  pub slots : info'.threads ≡ free_all info.threads ds

run_thread-IsValid :
    (info : ThreadInfo) (d : DeferSyncVariable)
    → is_thread d.sync_var_type ≡ true
    → IsValid info
    → Taken info.threads d.variable
    → IsValid (run_deferred_sync info d)
unfolding run_deferred_sync
run_thread-IsValid info d is v taken =
    let (counted, sized) = used-set_free_thread info.threads d.variable taken in
    rw (run_deferred_sync, is)
      (record {
        sized = sized ∙ v.sized;
        total = v.total;
        inside = v.inside;
        counted =
            minus_one_lem info.alive_threads (used (set_free_thread info.threads d.variable))
              (v.counted ∙ counted)
              (omega (arith, v.counted, used_le_length info.threads, v.sized));
      })

run_thread_fields :
    (info : ThreadInfo) (d : DeferSyncVariable)
    → is_thread d.sync_var_type ≡ true
    → ((run_deferred_sync info d).threads ≡ set_free_thread info.threads d.variable)
      × ((run_deferred_sync info d).reapable_threads ≡ minus_one info.reapable_threads)
unfolding run_deferred_sync
run_thread_fields info d is = rw (run_deferred_sync, is) (refl, refl)

run_other :
    (info : ThreadInfo) (d : DeferSyncVariable)
    → is_thread d.sync_var_type ≡ false
    → run_deferred_sync info d ≡ info
unfolding run_deferred_sync
run_other info d is = rw (run_deferred_sync, is) refl

both-Taken :
    (ts : List Thread) (d : DeferSyncVariable) (ds : List DeferSyncVariable)
    → is_thread d.sync_var_type ≡ true
    → AllTaken ts (d ∷ ds)
    → Taken ts d.variable × AllTaken (set_free_thread ts d.variable) ds
both-Taken ts d ds is h = rw is at h

freed_all :
    (info : ThreadInfo) (d : DeferSyncVariable) (ds : List DeferSyncVariable)
    → is_thread d.sync_var_type ≡ true
    → (run_deferred_sync info d).threads ≡ set_free_thread info.threads d.variable
    → free_all (run_deferred_sync info d).threads ds ≡ free_all info.threads (d ∷ ds)
freed_all info d ds is slots = rw (slots, is) refl

run_deferred-Reaps :
    (ds : List DeferSyncVariable) (info : ThreadInfo) (r : ℕ)
    → IsValid info
    → info.reapable_threads ≡ count_threads ds + r
    → count_threads ds + r < 2 ^ 32
    → AllTaken info.threads ds
    → Reaps info (run_deferred info ds) ds r
unfolding run_deferred
run_deferred-Reaps [] info r v e small taken = record {
  valid = v;
  reapable = omega (arith, e);
  slots = refl;
}
run_deferred-Reaps (d ∷ ds) info r v e small taken = elim (Bool-cases (is_thread d.sync_var_type)) [
  | inr other ↦
      let rest =
        run_deferred-Reaps ds info r v (ground (arith, e, other)) (ground (arith, small, other))
          (rw other at taken) in
      rw (run_other info d other)
        (record { valid = rest.valid; reapable = rest.reapable; slots = rw other rest.slots })
  | inl is ↦
      let (slots, reapable) = run_thread_fields info d is in
      let (here, later) = both-Taken info.threads d ds is taken in
      let fewer : (run_deferred_sync info d).reapable_threads ≡ count_threads ds + r =
        reapable
        ∙ minus_one_lem info.reapable_threads (count_threads ds + r) (ground (arith, e, is))
            (omega (arith, e, small)) in
      let rest =
        run_deferred-Reaps ds (run_deferred_sync info d) r (run_thread-IsValid info d is v here)
          fewer (ground (arith, small, is)) (rw slots later) in
      record {
        valid = rest.valid;
        reapable = rest.reapable;
        slots = rest.slots ∙ freed_all info d ds is slots;
      }
]

count_le_used :
    (ds : List DeferSyncVariable) (ts : List Thread) → AllTaken ts ds → count_threads ds ≤ used ts
count_le_used [] ts h = omega arith
count_le_used (d ∷ ds) ts h = elim (Bool-cases (is_thread d.sync_var_type)) [
  | inr other ↦ ground (arith, other, count_le_used ds ts (rw other at h))
  | inl is ↦
      let (here, later) = both-Taken ts d ds is h in
      let (counted, sized) = used-set_free_thread ts d.variable here in
      ground (arith, is, counted, count_le_used ds (set_free_thread ts d.variable) later)
]

-- `runDeferredSyncs`, in a state whose slots are set up, with as many reapable threads as are
-- deferred, each in a taken slot of its own: it frees those slots and no other, no thread is
-- reapable and nothing deferred any more, and as many slots are taken as threads are alive.
pub run_deferred_syncs-Reaps :
    (info : ThreadInfo)
    → IsBalanced info
    → Reaps info (run_deferred_syncs info) info.defer_syncs 0
      × ((run_deferred_syncs info).defer_syncs ≡ [])
unfolding run_deferred_syncs
run_deferred_syncs-Reaps info b =
    let reaps =
      run_deferred-Reaps info.defer_syncs info 0 b.valid (omega (arith, b.reapable))
        (omega (
          arith,
          count_le_used info.defer_syncs info.threads b.taken,
          used_le_length info.threads,
          b.valid.sized,
        ))
        b.taken in
    (
      record {
        valid = record {
          sized = reaps.valid.sized;
          total = reaps.valid.total;
          inside = reaps.valid.inside;
          counted = reaps.valid.counted;
        };
        reapable = reaps.reapable;
        slots = reaps.slots;
      },
      refl,
    )

count_threads-snoc :
    (ds : List DeferSyncVariable) (d : DeferSyncVariable)
    → count_threads (ds ++ d ∷ []) ≡ count_threads ds + (if is_thread d.sync_var_type then 1 else 0)
count_threads-snoc [] d = omega arith
count_threads-snoc (x ∷ ds) d = omega (arith, count_threads-snoc ds d)

AllTaken-snoc :
    (ds : List DeferSyncVariable) (d : DeferSyncVariable) (ts : List Thread)
    → AllTaken ts ds
    → (is_thread d.sync_var_type ≡ true → Taken (free_all ts ds) d.variable)
    → AllTaken ts (ds ++ d ∷ [])
AllTaken-snoc [] d ts h new = elim (Bool-cases (is_thread d.sync_var_type)) [
  | inl is ↦ rw is (new is, refl)
  | inr other ↦ rw other refl
]
AllTaken-snoc (x ∷ ds) d ts h new = elim (Bool-cases (is_thread x.sync_var_type)) [
  | inl is ↦
      let (here, later) = both-Taken ts x ds is h in
      rw is (here, AllTaken-snoc ds d (set_free_thread ts x.variable) later (λ t. rw is at (new t)))
  | inr other ↦ rw other (AllTaken-snoc ds d ts (rw other at h) (λ t. rw other at (new t)))
]

-- `deferSync`, with memory for its entry, of a variable that is no thread, or of a thread in a taken
-- slot that is not among the deferred ones, keeps as many reapable threads as are deferred, in taken
-- slots of their own.
pub defer_sync-IsBalanced :
    (info : ThreadInfo) (ptr : ℕ) (type : SyncVariableType)
    → IsBalanced info
    → (is_thread type ≡ true → Taken (free_all info.threads info.defer_syncs) ptr)
    → IsBalanced (defer_sync true info ptr type).1
unfolding defer_sync increment_reapable_threads
defer_sync-IsBalanced info ptr type b new =
    let d : DeferSyncVariable = record { sync_var_type = type; variable = ptr } in
    elim (Bool-cases (is_thread type)) [
      | inl is ↦ rw is (record {
        valid = record {
          sized = b.valid.sized;
          total = b.valid.total;
          inside = b.valid.inside;
          counted = b.valid.counted;
        };
        reapable = ground (
          arith,
          is,
          b.reapable,
          count_threads-snoc info.defer_syncs d,
          count_le_used info.defer_syncs info.threads b.taken,
          used_le_length info.threads,
          b.valid.sized,
        );
        taken = AllTaken-snoc info.defer_syncs d info.threads b.taken new;
      })
      | inr other ↦ rw other (record {
        valid = record {
          sized = b.valid.sized;
          total = b.valid.total;
          inside = b.valid.inside;
          counted = b.valid.counted;
        };
        reapable = ground (arith, other, b.reapable, count_threads-snoc info.defer_syncs d);
        taken = AllTaken-snoc info.defer_syncs d info.threads b.taken new;
      })
    ]
