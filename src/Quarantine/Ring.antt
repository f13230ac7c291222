-- ===== src/Quarantine/Ring.antt =====
-- The ring of include/quarantine.hh is a queue, which evicts no more than it has to.
use double_take.Prelude.{
  ℕ, ◌+◌, ◌-◌, ◌%◌, ◌^◌, ◌≤◌, ◌<◌, ◌≡◌, refl, ◌⊎◌, ◌||◌, List, [], ◌∷◌, ◌++◌, ok, arith, ltb, leb,
  length, get_or,
}
use double_take.Defines.{word_size, quarantine_total_size, quarantine_buf_size}
use double_take.Memory.{Memory}
use double_take.Memtrack.{TrackObject}
use double_take.Canary.{FreeObject}
use double_take.Canary.Laws.{Intact, has_usage_after_free-Intact}
use double_take.Quarantine.{
  Quarantine, Heap, going, no_object, get_lr_object, free_lr_object, is_full, incr_index,
}

-- The bytes of the objects.
unfoldable pub sum_sizes : List FreeObject → ℕ
sum_sizes [] = 0
sum_sizes (o ∷ xs) = o.size + sum_sizes xs

-- `xs` stands in the ring from the index on.
unfoldable pub Stored : List FreeObject → ℕ → List FreeObject → Type 0
Stored objects i [] = 0 ≤ 0
Stored objects i (o ∷ xs) = (get_or objects i no_object ≡ o) × Stored objects (incr_index i) xs

-- The objects that the queue may hold: of whole words, with their canary words intact.
unfoldable pub AllIntact : Memory → List FreeObject → Type 0
AllIntact mem [] = 0 ≤ 0
AllIntact mem (o ∷ xs) = ((o.size % word_size ≡ 0) × Intact mem o) × AllIntact mem xs

-- `q` has `xs` in the ring, the oldest first; the next free slot is `ahead` slots behind them.
pub record Has (ahead : ℕ) (q : Quarantine) (xs : List FreeObject) : Type 0 where
  pub sized : length q.objects ≡ quarantine_buf_size
  pub oldest : q.lr_index < quarantine_buf_size
  pub stored : Stored q.objects q.lr_index xs
  pub counted :
      (q.avail_index + ahead) % quarantine_buf_size ≡ (q.lr_index + length xs) % quarantine_buf_size
  pub next : q.avail_index < quarantine_buf_size
  pub total : q.total_size ≡ sum_sizes xs

-- What the quarantine is between calls.
pub record Holds (q : Quarantine) (xs : List FreeObject) : Type 0 where
  pub has : Has 0 q xs
  pub few : length xs < quarantine_buf_size
  pub small : sum_sizes xs ≤ quarantine_total_size

abbrev pub TooMany : List FreeObject → Type 0
TooMany xs = (quarantine_total_size < sum_sizes xs) ⊎ (quarantine_buf_size ≤ length xs)

unfoldable pub addresses : List FreeObject → List ℕ
addresses [] = []
addresses (o ∷ xs) = o.ptr ∷ addresses xs

pub sum_sizes-append :
    (xs ys : List FreeObject) → sum_sizes (xs ++ ys) ≡ sum_sizes xs + sum_sizes ys
unfolding sum_sizes
sum_sizes-append [] ys = omega arith
sum_sizes-append (x ∷ xs) ys = omega (arith, sum_sizes-append xs ys)

-- `is_full` says of the list what the loop of `addFreeObject` asks.
pub is_full-TooMany :
    (q : Quarantine) (xs : List FreeObject)
    → Has 1 q xs
    → 0 < length xs
    → length xs ≤ quarantine_buf_size
    → is_full q ≡ (ltb quarantine_total_size (sum_sizes xs) || leb quarantine_buf_size (length xs))
unfolding is_full
is_full-TooMany q xs h some_object fits = ground (arith, h.oldest, h.counted, h.next, h.total)

-- Evicting an intact object.
pub free_lr_object-going :
    (raw : TrackObject) (h : Heap) (o : FreeObject) (xs : List FreeObject)
    → Has 1 h.quarantine (o ∷ xs)
    → AllIntact h.mem (o ∷ xs)
    → sum_sizes (o ∷ xs) < 2 ^ 64
    → (h' : Heap) × (free_lr_object raw h ≡ ok (going h'))
      × Has 1 h'.quarantine xs
      × (h'.mem ≡ h.mem)
      × (h'.reports ≡ h.reports)
      × (h'.really_freed ≡ h.really_freed ++ o.ptr ∷ [])
      × (h'.quarantine.avail_index ≡ h.quarantine.avail_index)
unfolding free_lr_object get_lr_object Stored AllIntact sum_sizes
free_lr_object-going raw h o xs has intact small =
    let q = h.quarantine in
    let same : get_or q.objects q.lr_index no_object ≡ o = has.stored.0 in
    (
      record h {
        really_freed = h.really_freed ++ o.ptr ∷ [];
        quarantine = record q {
          total_size = (q.total_size + 2 ^ 64 - o.size) % 2 ^ 64;
          lr_index = incr_index q.lr_index;
        };
      },
      rw (same, has_usage_after_free-Intact h.reports raw h.mem o intact.0.0 intact.0.1) refl,
      record {
        sized = has.sized;
        oldest = omega arith;
        stored = has.stored.1;
        counted = omega (arith, has.counted);
        next = has.next;
        total = omega (arith, has.total, small);
      },
      refl,
      refl,
      refl,
      refl,
    )
