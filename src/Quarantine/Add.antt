-- ===== src/Quarantine/Add.antt =====
-- `addFreeObject` of include/quarantine.hh as a whole.
use double_take.Prelude.{
  ℕ, ◌+◌, ◌*◌, ◌%◌, ◌≤◌, ◌<◌, ◌≡◌, refl, ◌∙◌, ap, ◌⊎◌, true, List, [], ◌∷◌, ◌++◌, ok, arith, length,
  set, get_or-set_self, get_or-set_ne, length-set, length-append,
}
use double_take.Defines.{word_size, quarantine_total_size, quarantine_buf_size}
use double_take.Memory.{Memory, load_word}
use double_take.Memtrack.{TrackObject}
use double_take.Canary.{FreeObject, mark_free_object}
use double_take.Canary.Laws.{Intact, mark_free_object-Intact, words_of-le}
use double_take.Quarantine.{
  Quarantine, Heap, going, no_object, evict, take_slot, put_object, add_free_object, incr_index,
}
use double_take.Quarantine.Ring.{
  sum_sizes, Stored, AllIntact, Has, Holds, TooMany, addresses, sum_sizes-append,
}
use double_take.Quarantine.Evict.{Evicts, NeedsEach, evict-Evicts, ++-assoc}

-- The new object overlaps none of those that are held.
unfoldable pub Apart : ℕ → ℕ → List FreeObject → Type 0
Apart ptr size [] = 0 ≤ 0
Apart ptr size (o ∷ xs) = ((o.ptr + o.size ≤ ptr) ⊎ (ptr + size ≤ o.ptr)) × Apart ptr size xs

Intact-marked :
    (mem mem' : Memory) (ptr size : ℕ) (xs : List FreeObject) (new : FreeObject)
    → ((a : ℕ) → (a + 8 ≤ ptr) ⊎ (ptr + size ≤ a) → load_word mem' a ≡ load_word mem a)
    → Apart ptr size xs
    → AllIntact mem xs
    → (new.size % word_size ≡ 0)
    → Intact mem' new
    → AllIntact mem' (xs ++ new ∷ [])
unfolding Apart AllIntact
Intact-marked mem mem' ptr size [] new frame apart intact whole marked =
    ((whole, marked), omega arith)
Intact-marked mem mem' ptr size (o ∷ xs) new frame (apart, aparts) ((whole_o, intact), intacts)
      whole marked =
    (
      (
        whole_o,
        λ k h. frame (o.ptr + 8 * k) (omega (arith, h, apart, words_of-le o.size)) ∙ intact k h,
      ),
      Intact-marked mem mem' ptr size xs new frame aparts intacts whole marked,
    )

Stored-set :
    (objects : List FreeObject) (i slot : ℕ) (xs : List FreeObject) (new : FreeObject)
    → length objects ≡ quarantine_buf_size
    → i < quarantine_buf_size
    → length xs < quarantine_buf_size
    → slot ≡ (i + length xs) % quarantine_buf_size
    → Stored objects i xs
    → Stored (set objects slot new) i (xs ++ new ∷ [])
unfolding Stored
Stored-set objects i slot [] new sized inside few at stored =
    let here : slot ≡ i = omega arith in
    (rw here (get_or-set_self objects i new no_object (omega (arith, sized))), omega arith)
Stored-set objects i slot (o ∷ xs) new sized inside few at (head, tail) = (
  get_or-set_ne objects new no_object (λ e. absurd (omega (arith, e))) ∙ head,
  Stored-set objects (incr_index i) slot xs new sized (omega arith) (omega arith)
      (omega (arith, at)) tail,
)

put_object-Has :
    (q : Quarantine) (xs : List FreeObject) (ptr size : ℕ)
    → Holds q xs
    → size < quarantine_total_size
    → Has 1 (put_object q ptr size) (xs ++ record { ptr = ptr; size = size } ∷ [])
unfolding put_object sum_sizes
put_object-Has q xs ptr size held fits =
    let new : FreeObject = record { ptr = ptr; size = size } in
    record {
      sized = length-set q.objects q.avail_index new ∙ held.has.sized;
      oldest = held.has.oldest;
      stored =
          Stored-set q.objects q.lr_index q.avail_index xs new held.has.sized held.has.oldest
            held.few (omega (arith, held.has.counted, held.has.next)) held.has.stored;
      counted = omega (arith, held.has.counted, length-append xs (new ∷ []));
      next = held.has.next;
      total = omega (arith, held.has.total, held.small, sum_sizes-append xs (new ∷ []));
    }

take_slot-Holds :
    (h : Heap) (ys : List FreeObject)
    → Has 1 h.quarantine ys
    → ¬ TooMany ys
    → Holds (record h.quarantine { avail_index = incr_index h.quarantine.avail_index }) ys
take_slot-Holds h ys has enough = record {
  has = record {
    sized = has.sized;
    oldest = has.oldest;
    stored = has.stored;
    counted = omega (arith, has.counted);
    next = omega arith;
    total = has.total;
  };
  few = ground (arith, enough);
  small = ground (arith, enough);
}

-- What `addFreeObject` leaves: `dropped` were evicted and really freed, `kept` and the new object
-- are in the ring.
pub record Adds (h h' : Heap) (dropped kept : List FreeObject) (new : FreeObject) : Type 0 where
  pub held : Holds h'.quarantine (kept ++ new ∷ [])
  pub needed : NeedsEach dropped (kept ++ new ∷ [])
  pub freed : h'.really_freed ≡ h.really_freed ++ addresses dropped
  pub intact : AllIntact h'.mem (kept ++ new ∷ [])
  pub same_reports : h'.reports ≡ h.reports

rest_Intact :
    (mem : Memory) (dropped rest : List FreeObject)
    → AllIntact mem (dropped ++ rest)
    → AllIntact mem rest
unfolding AllIntact
rest_Intact mem [] rest intact = intact
rest_Intact mem (o ∷ dropped) rest intact = rest_Intact mem dropped rest intact.1

sum_new :
    (xs : List FreeObject) (new : FreeObject) → sum_sizes (xs ++ new ∷ []) ≡ sum_sizes xs + new.size
unfolding sum_sizes
sum_new xs new = omega (arith, sum_sizes-append xs (new ∷ []))

added :
    (h h0 h1 : Heap) (xs dropped kept : List FreeObject) (new : FreeObject)
    → xs ≡ dropped ++ kept
    → Evicts h0 h1 dropped (kept ++ new ∷ [])
    → AllIntact h0.mem (xs ++ new ∷ [])
    → h0.really_freed ≡ h.really_freed
    → h0.reports ≡ h.reports
    → Adds h
        (record h1 {
          quarantine = record h1.quarantine { avail_index = incr_index h1.quarantine.avail_index };
        })
        dropped
        kept
        new
added h h0 h1 xs dropped kept new split ev intact freed reports =
    let apart : xs ++ new ∷ [] ≡ dropped ++ (kept ++ new ∷ []) =
      ap (λ l. l ++ new ∷ []) split ∙ ++-assoc dropped kept (new ∷ []) in
    record {
      held = take_slot-Holds h1 (kept ++ new ∷ []) ev.ring ev.enough;
      needed = ev.needed;
      freed = ev.freed ∙ ap (λ l. l ++ addresses dropped) freed;
      intact = rw ev.same_mem (rest_Intact h0.mem dropped (kept ++ new ∷ []) (rw (← apart) intact));
      same_reports = ev.same_reports ∙ reports;
    }

call-ok :
    (fuel : ℕ) (raw : TrackObject) (h h' : Heap) (mem : Memory) (ptr size : ℕ)
    → size < quarantine_total_size
    → mark_free_object h.mem ptr size ≡ ok mem
    → evict fuel raw (record h { mem = mem; quarantine = put_object h.quarantine ptr size })
      ≡ ok (going h')
    → add_free_object fuel raw h ptr size ≡ ok (true, take_slot (going h'))
unfolding add_free_object
call-ok fuel raw h h' mem ptr size fits e e' = ground (arith, e, e', fits)

-- A quarantine that holds `xs`, oldest first, with all canary words intact, takes an object of
-- whole words that overlaps none of them and is smaller than the quarantine: 1024 rounds are
-- enough, the oldest objects are really freed in their order, each because the rest would be
-- too many or too large with it, and the others and the new object are held, within both limits
-- and with their canary words intact. Nothing is reported.
pub add_free_object-Holds :
    (raw : TrackObject) (h : Heap) (xs : List FreeObject) (ptr size : ℕ)
    → Holds h.quarantine xs
    → AllIntact h.mem xs
    → Apart ptr size xs
    → size < quarantine_total_size
    → size % word_size ≡ 0
    → (h' : Heap) × (dropped : List FreeObject) × (kept : List FreeObject) × (add_free_object
          quarantine_buf_size raw h ptr size
        ≡ ok (true, going h'))
      × (xs ≡ dropped ++ kept)
      × Adds h h' dropped kept (record { ptr = ptr; size = size })
unfolding take_slot
add_free_object-Holds raw h xs ptr size held intact apart fits whole =
    let new : FreeObject = record { ptr = ptr; size = size } in
    let (mem, e, marked, frame) = mark_free_object-Intact h.mem ptr size whole in
    let h0 : Heap = record h { mem = mem; quarantine = put_object h.quarantine ptr size } in
    let intact0 : AllIntact mem (xs ++ new ∷ []) =
      Intact-marked h.mem mem ptr size xs new frame apart intact whole marked in
    let (h1, dropped, kept, e1, split, ev) =
      evict-Evicts raw new fits xs quarantine_buf_size h0 held.few
        (put_object-Has h.quarantine xs ptr size held fits) intact0 held.few
        (omega (arith, sum_new xs new, held.small, fits)) in
    (
      record h1 {
        quarantine = record h1.quarantine { avail_index = incr_index h1.quarantine.avail_index };
      },
      dropped,
      kept,
      call-ok quarantine_buf_size raw h h1 mem ptr size fits e e1,
      split,
      added h h0 h1 xs dropped kept new split ev intact0 refl refl,
    )
