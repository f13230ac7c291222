-- ===== src/RecordEntries/Replay.antt =====
-- What is recorded in an epoch is replayed in the same order: include/recordentries.hh.
use double_take.Prelude.{
  ℕ, ◌+◌, ◌≤◌, ◌<◌, ◌≡◌, refl, ◌∙◌, true, Option, none, some, List, [], ◌∷◌, ltb, length, get_elem?,
  set, get_elem?-set_self, get_elem?-set_ne, get_elem?-eq-get_or, length-set, get_or, lt→ltb,
  Outcome, ok, arith, ◌>>=◌,
}
use double_take.RecordEntries.{RecordEntries, alloc, retrieve_iter_entry, prepare_rollback, cleanup}

module _ {A : Type 0} where
  -- The pool has room for its entries, and no more are used.
  pub record IsValid (r : RecordEntries A) : Type 0 where
    pub backed : r.total ≤ length r.start
    pub used : r.cur ≤ r.total

  -- What a thread does at an event: take an entry and fill it.
  unfoldable pub record_event : RecordEntries A → A → Outcome (RecordEntries A)
  record_event r x = do (entry, r') ← alloc r; ok (record r' { start = set r'.start entry x })

  unfoldable pub record_events : RecordEntries A → List A → Outcome (RecordEntries A)
  unfolding record_event
  record_events r [] = ok r
  record_events r (x ∷ xs) = do r' ← record_event r x; record_events r' xs

  -- What it does in the replay: retrieve the next entry and read it.
  unfoldable pub replay_event : RecordEntries A → Option A × RecordEntries A
  replay_event r =
      let (entry, r') = retrieve_iter_entry r in
      (elim entry [ none ↦ none | some i ↦ get_elem? r.start i ], r')

  unfoldable pub Replays : RecordEntries A → List A → Type 0
  Replays r [] = (replay_event r).0 ≡ none
  Replays r (x ∷ xs) = ((replay_event r).0 ≡ some x) × Replays (replay_event r).1 xs

  -- The entries from place `i` on are `xs`.
  unfoldable pub Holds : List A → ℕ → List A → Type 0
  Holds start i [] = 0 ≤ 0
  Holds start i (x ∷ xs) = (get_elem? start i ≡ some x) × Holds start (i + 1) xs

  no_event : (r : RecordEntries A) → r.cur ≤ r.iter → (replay_event r).0 ≡ none
  unfolding replay_event retrieve_iter_entry
  no_event r h = ground (arith, h)

  next_event :
      (r : RecordEntries A)
      → r.iter < r.cur
      → replay_event r ≡ (get_elem? r.start r.iter, record r { iter = r.iter + 1 })
  unfolding replay_event retrieve_iter_entry
  next_event r h = ground (arith, h)

  Holds-Replays :
      (xs : List A) (r : RecordEntries A)
      → r.iter + length xs ≡ r.cur
      → Holds r.start r.iter xs
      → Replays r xs
  unfolding Replays Holds
  Holds-Replays [] r e held = no_event r (omega (arith, e))
  Holds-Replays (x ∷ xs) r e (here, held) =
      let next = next_event r (omega (arith, e)) in
      (
        rw next here,
        rw next (Holds-Replays xs (record r { iter = r.iter + 1 }) (omega (arith, e)) held),
      )

  -- The entries that are in use.
  abbrev Keeps : RecordEntries A → RecordEntries A → Type 0
  Keeps r r' = (i : ℕ) → i < r.cur → get_elem? r'.start i ≡ get_elem? r.start i

  pub record Records (r r' : RecordEntries A) (xs : List A) : Type 0 where
    pub valid : IsValid r'
    pub counted : r'.cur ≡ r.cur + length xs
    pub same_total : r'.total ≡ r.total
    pub old : (i : ℕ) → i < r.cur → get_elem? r'.start i ≡ get_elem? r.start i
    pub new : Holds r'.start r.cur xs

  record_events-Records :
      (xs : List A) (r : RecordEntries A)
      → IsValid r
      → r.cur + length xs ≤ r.total
      → (r' : RecordEntries A) × (record_events r xs ≡ ok r') × Records r r' xs
  unfolding record_events record_event alloc Holds
  record_events-Records [] r v room = (
    r,
    refl,
    record {
      valid = v;
      counted = omega arith;
      same_total = refl;
      old = λ i h. refl;
      new = omega arith;
    },
  )
  record_events-Records (x ∷ xs) r v room =
      let more : ltb r.cur r.total ≡ true = lt→ltb _ _ (omega (arith, room)) in
      let inside : r.cur < length r.start = omega (arith, room, v.backed) in
      let r1 : RecordEntries A = record r { cur = r.cur + 1; start = set r.start r.cur x } in
      let v1 : IsValid r1 = record {
        backed = omega (arith, v.backed, length-set r.start r.cur x);
        used = omega (arith, room);
      } in
      let (r', e, recs) = record_events-Records xs r1 v1 (omega (arith, room)) in
      (
        r',
        rw more e,
        record {
          valid = recs.valid;
          counted = omega (arith, recs.counted);
          same_total = recs.same_total;
          old = λ i h.
              recs.old i (omega arith)
              ∙ get_elem?-set_ne r.start r.cur i x (λ same. absurd (omega (arith, same, h)));
          new = (
            recs.old r.cur (omega arith)
                ∙ get_elem?-set_self r.start r.cur x (get_or r.start r.cur x)
                    (get_elem?-eq-get_or r.start r.cur x inside),
            recs.new,
          );
        },
      )

  -- In a pool with room for them, the events that are recorded from the start of an epoch are
  -- replayed after the rollback: each once, in the order of their recording, and then none.
  pub record_events-Replays :
      (r : RecordEntries A) (xs : List A)
      → r.total ≤ length r.start
      → length xs ≤ r.total
      → (r' : RecordEntries A) × (record_events (cleanup r) xs ≡ ok r')
        × Replays (prepare_rollback r') xs
  unfolding cleanup prepare_rollback
  record_events-Replays r xs backed room =
      let (r', e, recs) =
        record_events-Records xs (cleanup r) (record { backed = backed; used = omega arith })
          (omega (arith, room)) in
      (r', e, Holds-Replays xs (record r' { iter = 0 }) (omega (arith, recs.counted)) recs.new)
