-- ===== src/Threads/Slots.antt =====
-- The search for a free slot: allocThreadIndex of include/threadinfo.hh.
use double_take.Prelude.{
  ℕ, zero, suc, ◌+◌, ◌-◌, ◌%◌, ◌≤◌, ◌<◌, ◌≡◌, inl, inr, refl, sym, ap, ◌∙◌, true, false, some, List,
  [], ◌==◌, ltb, ltb→lt, ltb→le, ==→eq, ne→==, get_elem?, set, length, length-set, Bool-cases,
  arith, ok, replicate, ◌*◌,
}
use double_take.Threads.{
  Thread, ThreadInfo, Pools, thread_initialize, next_index, take_slot, alloc_loop,
  alloc_thread_index, int_ge, to_int, max_alive_threads, SyscallEntry, max_syscall_entries,
  max_syncevent_entries, e_sys_max,
}
use double_take.Sync.{SyncEvent}
use double_take.RecordEntries
use double_take.RecordEntries.{RecordEntries}
use double_take.Defines.{alignup, page_size}
use double_take.Threads.Count.{in_use, used, used-set, IsValid, IsFree, find_free, get_elem?_inside}

-- The first free slot at or behind `o`, round the array: it is `d` places on.
pub record IsFirstFree (info : ThreadInfo) (o d i : ℕ) : Type 0 where
  pub place : i ≡ (o + d) % max_alive_threads
  pub near : d < max_alive_threads
  pub taken_before :
      (k : ℕ) (t : Thread)
      → k < d
      → get_elem? info.threads ((o + k) % max_alive_threads) ≡ some t
      → t.available ≡ false

-- What the allocation of a slot leaves.
pub record Allocates (info info' : ThreadInfo) (i : ℕ) (t' : Thread) : Type 0 where
  pub slots : info'.threads ≡ set info.threads i t'
  pub alive : info'.alive_threads ≡ to_int (info.alive_threads + 1)
  pub moved : info'.thread_index ≡ (i + 1) % max_alive_threads
  pub total : info'.total_threads ≡ info.total_threads
  pub reapable : info'.reapable_threads ≡ info.reapable_threads
  pub deferred : info'.defer_syncs ≡ info.defer_syncs

not_full :
    (alive total : ℕ)
    → total ≡ max_alive_threads
    → alive < max_alive_threads
    → int_ge alive total ≡ false
not_full alive total e lt = ground (arith, e, lt)

in_use_free : (t : Thread) → t.available ≡ true → in_use t ≡ 0
in_use_free t h = rw h refl

in_use_taken : (t : Thread) → t.available ≡ false → in_use t ≡ 1
in_use_taken t h = rw h refl

new_pool : {A : Type 0} → List A → ℕ → ℕ → RecordEntries A
new_pool memory bytes entries = record {
  start = memory;
  total = entries;
  cur = 0;
  size = alignup (entries * bytes) page_size;
  iter = 0;
}

module _ (m : List SyscallEntry) (n : List SyncEvent) where
  abbrev pub pools : Pools
  pools = record { for_syscalls = some m; for_syncevents = some n }

  -- A thread's slot with empty pools and lists.
  pub init : Thread → Thread
  init t = record t {
    syscalls = new_pool m 64 max_syscall_entries;
    syslist = replicate e_sys_max [];
    syncevents = new_pool n 40 max_syncevent_entries;
  }

  gives : (t : Thread) → thread_initialize pools t ≡ ok (init t)
  unfolding thread_initialize init new_pool RecordEntries.initialize
  gives t = refl

  keeps : (t : Thread) → (init t).available ≡ t.available
  unfolding init
  keeps t = refl

  abbrev pub taken : Thread → Thread
  taken t = init (record t { available = false })

  take_slot-Allocates :
      (info : ThreadInfo) (t : Thread)
      → info.total_threads ≡ max_alive_threads
      → (info' : ThreadInfo) × (take_slot pools info t ≡ ok (some info.thread_index, info'))
        × Allocates info info' info.thread_index (taken t)
  unfolding take_slot next_index
  take_slot-Allocates info t total = (
    record info {
      alive_threads = to_int (info.alive_threads + 1);
      thread_index = next_index info;
      threads = set info.threads info.thread_index (taken t);
    },
    rw (take_slot, gives (record t { available = false })) refl,
    record {
      slots = refl;
      alive = refl;
      moved = rw (next_index, total) refl;
      total = refl;
      reapable = refl;
      deferred = refl;
    },
  )

  loop_takes :
      (fuel o : ℕ) (info : ThreadInfo) (t : Thread)
      → get_elem? info.threads info.thread_index ≡ some t
      → t.available ≡ true
      → alloc_loop (suc fuel) pools o info ≡ take_slot pools info t
  unfolding alloc_loop
  loop_takes fuel o info t at free = rw (alloc_loop, at, free) refl

  loop_goes_on :
      (fuel o : ℕ) (info : ThreadInfo) (t : Thread)
      → get_elem? info.threads info.thread_index ≡ some t
      → t.available ≡ false
      → (next_index info == o) ≡ false
      → alloc_loop (suc fuel) pools o info
        ≡ alloc_loop fuel pools o (record info { thread_index = next_index info })
  unfolding alloc_loop
  loop_goes_on fuel o info t at taken_ other = rw (alloc_loop, at, taken_, other) refl

  -- What a round of the search knows: the slots before the `k`-th from `o` are taken, and one not
  -- before it is free.
  record Searching (o k far : ℕ) (info : ThreadInfo) : Type 0 where
    sized : length info.threads ≡ max_alive_threads
    total : info.total_threads ≡ max_alive_threads
    start : o < max_alive_threads
    here : info.thread_index ≡ (o + k) % max_alive_threads
    not_past : k ≤ far
    near : far < max_alive_threads
    free : IsFree info ((o + far) % max_alive_threads)
    passed :
        (j : ℕ) (t : Thread)
        → j < k
        → get_elem? info.threads ((o + j) % max_alive_threads) ≡ some t
        → t.available ≡ false

  next_here :
      (o k far : ℕ) (info : ThreadInfo)
      → Searching o k far info
      → next_index info ≡ (o + (k + 1)) % max_alive_threads
  unfolding next_index
  next_here o k far info s = rw (next_index, s.total) (omega (arith, s.here))

  not_far :
      (o k far : ℕ) (info : ThreadInfo) (t : Thread)
      → Searching o k far info
      → get_elem? info.threads ((o + k) % max_alive_threads) ≡ some t
      → t.available ≡ false
      → k < far
  not_far o k far info t s at taken_ = elim (Bool-cases (k == far)) [
    | inr other ↦ ground (arith, other, s.not_past)
    | inl same ↦
        let (u, atu, free) = s.free in
        let eq : (o + k) % max_alive_threads ≡ (o + far) % max_alive_threads =
          ap (λ x. (o + x) % max_alive_threads) (==→eq k far same) in
        absurd (cc (at, ap (get_elem? info.threads) eq, atu, free, taken_))
  ]

  not_round :
      (o k far : ℕ) (info : ThreadInfo) (t : Thread)
      → Searching o k far info
      → get_elem? info.threads ((o + k) % max_alive_threads) ≡ some t
      → t.available ≡ false
      → (next_index info == o) ≡ false
  not_round o k far info t s at taken_ = ne→== _ _ (λ e. absurd (
      omega
        (arith, e, next_here o k far info s, not_far o k far info t s at taken_, s.near, s.start)))

  search_on :
      (o k far : ℕ) (info : ThreadInfo) (t : Thread)
      → Searching o k far info
      → get_elem? info.threads ((o + k) % max_alive_threads) ≡ some t
      → t.available ≡ false
      → Searching o (k + 1) far (record info { thread_index = next_index info })
  search_on o k far info t s at taken_ = record {
    sized = s.sized;
    total = s.total;
    start = s.start;
    here = next_here o k far info s;
    not_past = omega (arith, not_far o k far info t s at taken_);
    near = s.near;
    free = s.free;
    passed = λ j u lt atu. elim (Bool-cases (j == k)) [
      | inr other ↦ s.passed j u (ground (arith, lt, other)) atu
      | inl same ↦
          let eq : (o + j) % max_alive_threads ≡ (o + k) % max_alive_threads =
            ap (λ x. (o + x) % max_alive_threads) (==→eq j k same) in
          cc (at, ap (get_elem? info.threads) eq, atu, taken_)
    ];
  }

  Found : ℕ → ℕ → ThreadInfo → Type 0
  Found fuel o info =
      (d : ℕ) × (i : ℕ) × (t : Thread) × (info' : ThreadInfo) × (alloc_loop fuel pools o info
        ≡ ok (some i, info'))
      × (get_elem? info.threads i ≡ some t)
      × (t.available ≡ true)
      × Allocates info info' i (taken t)
      × IsFirstFree info o d i

  search :
      (fuel o k far : ℕ) (info : ThreadInfo)
      → Searching o k far info
      → k + fuel ≡ max_alive_threads
      → Found fuel o info
  unfolding Found
  search zero o k far info s enough = absurd (omega (arith, s.not_past, s.near, enough))
  search (suc fuel) o k far info s enough =
      let (t, at) =
        get_elem?_inside info.threads info.thread_index (omega (arith, s.sized, s.here)) in
      let here_at : get_elem? info.threads ((o + k) % max_alive_threads) ≡ some t =
        ap (get_elem? info.threads) (sym s.here) ∙ at in
      elim (Bool-cases t.available) [
        | inl free ↦
            let (info', eq, al) = take_slot-Allocates info t s.total in
            (
              k,
              info.thread_index,
              t,
              info',
              loop_takes fuel o info t at free ∙ eq,
              at,
              free,
              al,
              record {
                place = s.here;
                near = omega (arith, s.not_past, s.near);
                taken_before = s.passed;
              },
            )
        | inr taken_ ↦
            let moved = record info { thread_index = next_index info } in
            let (d, i, u, info', eq, atu, free, al, first) =
              search fuel o (k + 1) far moved (search_on o k far info t s here_at taken_)
                (omega (arith, enough)) in
            (
              d,
              i,
              u,
              info',
              loop_goes_on fuel o info t at taken_ (not_round o k far info t s here_at taken_) ∙ eq,
              atu,
              free,
              record {
                slots = al.slots;
                alive = al.alive;
                moved = al.moved;
                total = al.total;
                reapable = al.reapable;
                deferred = al.deferred;
              },
              record { place = first.place; near = first.near; taken_before = first.taken_before },
            )
      ]

  distance :
      (o j : ℕ)
      → o < max_alive_threads
      → j < max_alive_threads
      → (d : ℕ) × (d < max_alive_threads) × (j ≡ (o + d) % max_alive_threads)
  distance o j lo lj = elim (Bool-cases (ltb j o)) [
    | inl less ↦
        let lt = ltb→lt j o less in (j + 128 - o, omega (arith, lt, lo), omega (arith, lt, lo, lj))
    | inr more ↦ let le = ltb→le j o more in (j - o, omega (arith, le, lj), omega (arith, le, lj))
  ]

  alloc_starts :
      (info : ThreadInfo)
      → IsValid info
      → info.alive_threads < max_alive_threads
      → alloc_thread_index pools info ≡ alloc_loop 128 pools info.thread_index info
  unfolding alloc_thread_index
  alloc_starts info v few =
      rw (alloc_thread_index, not_full info.alive_threads info.total_threads v.total few) refl

  Allocates-IsValid :
      (info info' : ThreadInfo) (i : ℕ) (t : Thread)
      → IsValid info
      → info.alive_threads < max_alive_threads
      → get_elem? info.threads i ≡ some t
      → t.available ≡ true
      → Allocates info info' i (taken t)
      → IsValid info'
  Allocates-IsValid info info' i t v few at free al = record {
    sized = ap length al.slots ∙ length-set info.threads i (taken t) ∙ v.sized;
    total = al.total ∙ v.total;
    inside = omega (arith, al.moved);
    counted = omega (
      arith,
      al.alive,
      ap used al.slots,
      used-set info.threads i t (taken t) at,
      v.counted,
      few,
      in_use_free t free,
      in_use_taken (taken t) (keeps (record t { available = false })),
    );
  }

  -- While fewer than 128 threads are alive, `allocThreadIndex` returns, with the first free slot from
  -- the place of the last search on, round the array; that slot alone is changed, it is initialized
  -- and no longer free, as many slots are taken as threads are alive, and the next search begins
  -- behind it.
  pub alloc_thread_index-Allocates :
      (info : ThreadInfo)
      → IsValid info
      → info.alive_threads < max_alive_threads
      → (d : ℕ) × (i : ℕ) × (t : Thread) × (info' : ThreadInfo) × (alloc_thread_index pools info
          ≡ ok (some i, info'))
        × (get_elem? info.threads i ≡ some t)
        × (t.available ≡ true)
        × Allocates info info' i (taken t)
        × IsFirstFree info info.thread_index d i
        × IsValid info'
  unfolding alloc_thread_index Found
  alloc_thread_index-Allocates info v few =
      let (j, u, inside, at, free) =
        find_free info.threads (omega (arith, few, v.counted, v.sized)) in
      let (far, near, place) =
        distance info.thread_index j v.inside (omega (arith, inside, v.sized)) in
      let searching : Searching info.thread_index 0 far info = record {
        sized = v.sized;
        total = v.total;
        start = v.inside;
        here = omega (arith, v.inside);
        not_past = omega arith;
        near = near;
        free = (u, ap (get_elem? info.threads) (sym place) ∙ at, free);
        passed = λ k t lt. absurd (omega (arith, lt));
      } in
      let (d, i, t, info', eq, ati, freei, al, first) =
        search 128 info.thread_index 0 far info searching (omega arith) in
      (
        d,
        i,
        t,
        info',
        alloc_starts info v few ∙ eq,
        ati,
        freei,
        al,
        first,
        Allocates-IsValid info info' i t v few ati freei al,
      )
