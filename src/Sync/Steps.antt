-- ===== src/Sync/Steps.antt =====
-- An unlock, and the start of a replay: include/synceventlist.hh, include/xsync.hh and mutex_unlock
-- of include/xthread.hh.
use mathlib.Core.Path.{fun_ext}
use double_take.Prelude.{
  ℕ, zero, suc, ◌+◌, ◌≤◌, ◌<◌, ◌≡◌, ◌⊎◌, inl, inr, refl, sym, ap, ◌∙◌, Bool, true, false, Option,
  none, some, List, [], ◌∷◌, ◌==◌, get_elem?, get_elem?-eq-none, length, ==→eq, Bool-cases,
  Option-cases, ltb, ltb→lt, ltb→le, arith, ok,
}
use double_take.Sync.{EventPtr, World, assign, advance_sync_event, mutex_unlock, signal_event}
use double_take.Sync.Events.{has_event}
use double_take.Sync.Inv.{
  iter, Passed, At, IsCurrent, IsRecorded, SameRecording, Inv, IsRecorded-same,
}
use double_take.Sync.Order.{assign_self, some_inj, Inv-release, Inv-set_current}
use double_take.Sync.Grant.{Stands, signal_next_thread-Inv, more_ready, ready_elim}

pub SameRecording-trans :
    {a b c : World} → SameRecording a b → SameRecording b c → SameRecording a c
SameRecording-trans p q = record {
  list = λ v. q.list v ∙ p.list v;
  start = λ t. q.start t ∙ p.start t;
  cur = λ t. q.cur t ∙ p.cur t;
}

pub SameRecording-refl : (w : World) → SameRecording w w
SameRecording-refl w = record { list = λ v. refl; start = λ t. refl; cur = λ t. refl }

pub get_elem?-some-lt :
    {A : Type 0} (xs : List A) (i : ℕ) (x : A) → get_elem? xs i ≡ some x → i < length xs
get_elem?-some-lt xs i x h = elim (Bool-cases (ltb i (length xs))) [
  | inl lt ↦ ltb→lt _ _ lt
  | inr ge ↦ absurd (cc (h, get_elem?-eq-none xs i (ltb→le _ _ ge)))
]

pub get_elem?_inside :
    {A : Type 0} (xs : List A) (i : ℕ) → i < length xs → (x : A) × (get_elem? xs i ≡ some x)
get_elem?_inside [] i lt = absurd (omega arith)
get_elem?_inside (y ∷ xs) zero lt = (y, refl)
get_elem?_inside (y ∷ xs) (suc i) lt = get_elem?_inside xs i (omega arith)

assign_back :
    (ready : ℕ → Bool) (v : ℕ) → ready v ≡ true → assign (assign ready v false) v true ≡ ready
assign_back ready v h = fun_ext λ u. elim (Bool-cases (v == u)) [
  | inl same ↦ rw same (sym h ∙ ap ready (==→eq v u same))
  | inr other ↦ rw other refl
]

-- What is known of one more list adds it to the prepared ones.
Inv-extend :
    (ready : ℕ → Bool) (w : World) (v : ℕ)
    → Inv ready w
    → ((i j : ℕ) (x : EventPtr) → w.curentry v ≡ some i → j < i → At w v j x → Passed w x)
    → ((i j : ℕ) (x : EventPtr)
        → w.curentry v ≡ some i
        → i < j
        → At w v j x
        → iter w x.thread ≤ x.place)
    → ((j : ℕ) (x : EventPtr) → w.curentry v ≡ none → At w v j x → Passed w x)
    → ((j : ℕ) (x : EventPtr) → IsCurrent w v j x → Passed w x)
    → Inv (assign ready v true) w
Inv-extend ready w v inv earlier later past now = record {
  at_most_one = inv.at_most_one;
  granted = λ t h.
      let (u, j, x, c, r, et, ep, out) = inv.granted t h in
      (u, j, x, c, more_ready ready v u r, et, ep, out);
  waiting = λ t x i.
      let (u, j, c, r, et, le) = inv.waiting t x i in (u, j, c, more_ready ready v u r, et, le);
  distinct = inv.distinct;
  before = λ u i j x r.
      ready_elim (λ u. w.curentry u ≡ some i → j < i → At w u j x → Passed w x) ready v
        (earlier i j x) (λ u r. inv.before u i j x r) u r;
  after = λ u i j x r.
      ready_elim (λ u. w.curentry u ≡ some i → i < j → At w u j x → iter w x.thread ≤ x.place) ready
        v (later i j x) (λ u r. inv.after u i j x r) u r;
  over = λ u j x r.
      ready_elim (λ u. w.curentry u ≡ none → At w u j x → Passed w x) ready v (past j x)
        (λ u r. inv.over u j x r) u r;
  signalled = λ u j x r.
      ready_elim
        (λ u.
          IsCurrent w u j x
          → iter w x.thread ≤ x.place
          → (has_event (w.pending x.thread) x ≡ true)
            ⊎ ((x.place ≡ iter w x.thread) × (0 < w.sema x.thread)))
        ready v (λ c le. absurd (omega (arith, now j x c, le))) (λ u r. inv.signalled u j x r) u r;
}

-- A list that has no current entry, and whose events are all passed, is a prepared one.
Inv-finish :
    (ready : ℕ → Bool) (w : World) (v : ℕ)
    → Inv ready w
    → w.curentry v ≡ none
    → ((j : ℕ) (x : EventPtr) → At w v j x → Passed w x)
    → Inv (assign ready v true) w
Inv-finish ready w v inv at_end all =
    Inv-extend ready w v inv (λ i j x c. absurd (cc (at_end, c)))
      (λ i j x c. absurd (cc (at_end, c))) (λ j x c at. all j x at) (λ j x c. all j x c.1)

-- So is a list without events.
pub Inv-empty :
    (ready : ℕ → Bool) (w : World) (v : ℕ)
    → Inv ready w
    → w.list v ≡ []
    → Inv (assign ready v true) w
Inv-empty ready w v inv empty =
    Inv-extend ready w v inv (λ i j x c lt at. absurd (cc (nothing_there j x at)))
      (λ i j x c lt at. absurd (cc (nothing_there j x at)))
      (λ j x c at. absurd (cc (nothing_there j x at)))
      (λ j x c. absurd (cc (nothing_there j x c.1)))
  where
    nothing_there : (j : ℕ) (x : EventPtr) → At w v j x → none ≡ some x
    nothing_there j x at = rw empty at at

module _ (time : EventPtr → ℕ) (ready : ℕ → Bool) (w : World) (v k : ℕ) (e : EventPtr)
    (rec : IsRecorded time w) (inv : Inv ready w) (r : ready v ≡ true) (cur : IsCurrent w v k e)
    (passed : Passed w e) where
  moved : Option ℕ → World
  moved c = record w { curentry = assign w.curentry v c }

  moved-Inv : (c : Option ℕ) → Inv (assign ready v false) (moved c)
  unfolding moved
  moved-Inv c =
      Inv-set_current (assign ready v false) w v c (Inv-release ready w v k e inv cur passed)
        (assign_self ready v false)

  behind-Passed : (j : ℕ) (x : EventPtr) → j < k + 1 → At w v j x → Passed w x
  behind-Passed j x lt at = elim (Bool-cases (j == k)) [
    | inl same ↦
        rw (some_inj e x (sym cur.1 ∙ ap (get_elem? (w.list v)) (sym (==→eq j k same)) ∙ at)) at
          passed
    | inr other ↦ inv.before v k j x r cur.0 (ground (arith, other, lt)) at
  ]

  no_next :
      (k + 1 == length (w.list v)) ≡ false → get_elem? (w.list v) (k + 1) ≡ none → false ≡ true
  no_next more nothing =
      let inside = get_elem?-some-lt (w.list v) k e cur.1 in
      let (x, at) = get_elem?_inside (w.list v) (k + 1) (ground (arith, more, inside)) in
      absurd (cc (at, nothing))

  advance_at_tail :
      (k + 1 == length (w.list v)) ≡ true → advance_sync_event w v ≡ ok (none, moved none)
  unfolding moved advance_sync_event
  advance_at_tail tail = rw (advance_sync_event, cur.0, tail) refl

  advance_to :
      (x : EventPtr)
      → (k + 1 == length (w.list v)) ≡ false
      → At w v (k + 1) x
      → advance_sync_event w v ≡ ok (some x, moved (some (k + 1)))
  unfolding moved advance_sync_event
  advance_to x more at = rw (advance_sync_event, cur.0, more, at) refl

  -- `mutex_unlock` of a list whose current event was passed moves the list on and signals its next
  -- event; the invariant is kept.
  pub mutex_unlock-Inv :
      (w' : World) × (mutex_unlock w v ≡ ok w') × Inv ready w' × SameRecording w w'
  unfolding moved mutex_unlock signal_event
  mutex_unlock-Inv = elim (Bool-cases (k + 1 == length (w.list v))) [
    | inl tail ↦ (
      moved none,
      rw (mutex_unlock, advance_at_tail tail) refl,
      rw (assign_back ready v r) at (
          Inv-finish (assign ready v false) (moved none) v (moved-Inv none)
            (assign_self w.curentry v none)
            (λ j x at.
              behind-Passed j x (omega (arith, ==→eq _ _ tail, get_elem?-some-lt (w.list v) j x at))
                at)),
      record { list = λ u. refl; start = λ t. refl; cur = λ t. refl },
    )
    | inr more ↦ elim (Option-cases (get_elem? (w.list v) (k + 1))) [
      | inl nothing ↦ absurd (cc (no_next more nothing))
      | inr (x, at) ↦
          let stands : Stands (moved (some (k + 1))) v (k + 1) x = record {
            current = (assign_self w.curentry v (some (k + 1)), at);
            waits = inv.after v k (k + 1) x r cur.0 (omega arith) at;
            before = λ j y lt a. behind-Passed j y lt a;
            after = λ j y lt a. inv.after v k j y r cur.0 (omega (arith, lt)) a;
          } in
          let (w', eq, inv', same, iters) =
            signal_next_thread-Inv time (assign ready v false) (moved (some (k + 1))) v (k + 1) x
              (IsRecorded-same time w (moved (some (k + 1)))
                (record { list = λ u. refl; start = λ t. refl; cur = λ t. refl }) rec)
              (moved-Inv (some (k + 1))) (assign_self ready v false) stands in
          (
            w',
            rw (mutex_unlock, advance_to x more at) eq,
            rw (assign_back ready v r) at inv',
            record { list = same.list; start = same.start; cur = same.cur },
          )
    ]
  ]
