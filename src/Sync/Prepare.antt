-- ===== src/Sync/Prepare.antt =====
-- prepareRollback of include/xsync.hh leaves a state in which the replay can begin.
use double_take.Prelude.{
  ℕ, ◌≡◌, ◌⊎◌, inl, inr, refl, ◌∙◌, Bool, true, false, none, some, List, [], ◌∷◌, arith, ok,
}
use double_take.Sync.{
  EventPtr, World, assign, signal_event, prepare_list_rollback, prepare_event_list_rollback,
  prepare_rollback,
}
use double_take.Sync.Inv.{iter, IsRecorded, SameRecording, Inv, IsRecorded-same}
use double_take.Sync.Order.{assign_self, Inv-set_current}
use double_take.Sync.Grant.{signal_next_thread-Inv}
use double_take.Sync.Steps.{SameRecording-trans, SameRecording-refl, Inv-empty}

list_cases : {A : Type 0} (xs : List A) → (xs ≡ []) ⊎ ((x : A) × (ys : List A) × (xs ≡ x ∷ ys))
list_cases [] = inl refl
list_cases (x ∷ xs) = inr (x, xs, refl)

-- The lists that were prepared, in the order of the active list.
unfoldable pub prepared : (ℕ → Bool) → List ℕ → ℕ → Bool
prepared ready [] = ready
prepared ready (v ∷ vs) = prepared (assign ready v true) vs

prepare_list_empty : (w : World) (v : ℕ) → w.list v ≡ [] → prepare_list_rollback w v ≡ (none, w)
unfolding prepare_list_rollback
prepare_list_empty w v there = rw (prepare_list_rollback, there) refl

prepare_list_some :
    (w : World) (v : ℕ) (e : EventPtr) (es : List EventPtr)
    → w.list v ≡ e ∷ es
    → prepare_list_rollback w v ≡ (some e, record w { curentry = assign w.curentry v (some 0) })
unfolding prepare_list_rollback
prepare_list_some w v e es there = rw (prepare_list_rollback, there) refl

prepare_empty : (w : World) (v : ℕ) → w.list v ≡ [] → prepare_event_list_rollback w v ≡ ok w
unfolding prepare_event_list_rollback signal_event
prepare_empty w v none_there =
    rw (prepare_event_list_rollback, prepare_list_empty w v none_there) refl

module _ (time : EventPtr → ℕ) (ready : ℕ → Bool) (w : World) (v : ℕ) (rec : IsRecorded time w)
    (inv : Inv ready w) (idle : ready v ≡ false) (fresh : (t : ℕ) → iter w t ≡ 0) where
  prepare_some :
      (e : EventPtr) (es : List EventPtr)
      → w.list v ≡ e ∷ es
      → (w' : World) × (prepare_event_list_rollback w v ≡ ok w')
        × Inv (assign ready v true) w'
        × SameRecording w w'
        × ((t : ℕ) → iter w' t ≡ iter w t)
  unfolding prepare_event_list_rollback signal_event
  prepare_some e es there =
      let w1 : World = record w { curentry = assign w.curentry v (some 0) } in
      let (w', eq, inv', same, iters) =
        signal_next_thread-Inv time ready w1 v 0 e
          (IsRecorded-same time w w1
            (record { list = λ u. refl; start = λ t. refl; cur = λ t. refl }) rec)
          (Inv-set_current ready w v (some 0) inv idle) idle
          (record {
            current = (assign_self w.curentry v (some 0), rw there refl);
            waits = omega (arith, fresh e.thread);
            before = λ j x lt at. absurd (omega (arith, lt));
            after = λ j x lt at. omega (arith, fresh x.thread);
          }) in
      (
        w',
        rw (prepare_event_list_rollback, prepare_list_some w v e es there) eq,
        inv',
        record { list = same.list; start = same.start; cur = same.cur },
        iters,
      )

  -- The start of one list makes it a prepared one.
  prepare_one :
      (w' : World) × (prepare_event_list_rollback w v ≡ ok w')
      × Inv (assign ready v true) w'
      × SameRecording w w'
      × ((t : ℕ) → iter w' t ≡ iter w t)
  prepare_one = elim (list_cases (w.list v)) [
    | inl empty ↦
        (w, prepare_empty w v empty, Inv-empty ready w v inv empty, SameRecording-refl w, λ t. refl)
    | inr (e, es, there) ↦ prepare_some e es there
  ]

-- No list stands twice among those to prepare, and none is prepared yet.
abbrev pub AllIdle : (ℕ → Bool) → List ℕ → Type 0
AllIdle ready [] = false ≡ false
AllIdle ready (v ∷ vs) = (ready v ≡ false) × AllIdle (assign ready v true) vs

pub prepare_rollback-Inv :
    (time : EventPtr → ℕ) (vs : List ℕ) (ready : ℕ → Bool) (w : World)
    → IsRecorded time w
    → Inv ready w
    → AllIdle ready vs
    → ((t : ℕ) → iter w t ≡ 0)
    → (w' : World) × (prepare_rollback w vs ≡ ok w')
      × Inv (prepared ready vs) w'
      × SameRecording w w'
unfolding prepare_rollback prepared
prepare_rollback-Inv time [] ready w rec inv idle fresh = (w, refl, inv, SameRecording-refl w)
prepare_rollback-Inv time (v ∷ vs) ready w rec inv (idle, more) fresh =
    let (w1, eq, inv1, same1, iters) = prepare_one time ready w v rec inv idle fresh in
    let (w2, eq2, inv2, same2) =
      prepare_rollback-Inv time vs (assign ready v true) w1 (IsRecorded-same time w w1 same1 rec)
        inv1 more (λ t. iters t ∙ fresh t) in
    (w2, rw eq eq2, inv2, SameRecording-trans same1 same2)

-- A replay before its start.
pub record IsFresh (w : World) : Type 0 where
  pub no_sema : (t : ℕ) → w.sema t ≡ 0
  pub no_pending : (t : ℕ) → w.pending t ≡ []
  pub at_start : (t : ℕ) → iter w t ≡ 0

pub Inv-fresh : (w : World) → IsFresh w → Inv (λ v. false) w
Inv-fresh w fresh = record {
  at_most_one = λ t. omega (arith, fresh.no_sema t);
  granted = λ t h. absurd (omega (arith, fresh.no_sema t, h));
  waiting = λ t x i. absurd (cc (rw (fresh.no_pending t) at i));
  distinct = λ t. rw (fresh.no_pending t) refl;
  before = λ v k j x r. absurd (cc r);
  after = λ v k j x r. absurd (cc r);
  over = λ v j x r. absurd (cc r);
  signalled = λ v k x r. absurd (cc r);
}
