-- ===== src/Quarantine/Evict.antt =====
-- `addFreeObject` of include/quarantine.hh: which objects it evicts.
use double_take.Prelude.{
  ℕ, zero, suc, ◌^◌, ◌≤◌, ◌<◌, ◌≡◌, refl, sym, ◌∙◌, ap, ◌⊎◌, inl, inr, true, false, List, [], ◌∷◌,
  ◌++◌, ok, arith, length, length-append,
}
use native.Mathlib.Decide.{dec_lt}
use double_take.Defines.{quarantine_total_size, quarantine_buf_size}
use double_take.Memory.{Memory}
use double_take.Memtrack.{TrackObject}
use double_take.Canary.{FreeObject}
use double_take.Quarantine.{Heap, going, free_lr_object, evict, is_full}
use double_take.Quarantine.Ring.{
  sum_sizes, AllIntact, Has, TooMany, addresses, is_full-TooMany, free_lr_object-going,
}

-- Each object that goes leaves too many, were it to stay.
unfoldable pub NeedsEach : List FreeObject → List FreeObject → Type 0
NeedsEach [] rest = 0 ≤ 0
NeedsEach (o ∷ dropped) rest = TooMany (o ∷ dropped ++ rest) × NeedsEach dropped rest

-- `h'` is `h` without the objects `dropped`, which really were freed, in that order, and `rest` is
-- what the ring still has.
pub record Evicts (h h' : Heap) (dropped rest : List FreeObject) : Type 0 where
  pub ring : Has 1 h'.quarantine rest
  pub enough : ¬ TooMany rest
  pub needed : NeedsEach dropped rest
  pub same_mem : h'.mem ≡ h.mem
  pub same_reports : h'.reports ≡ h.reports
  pub freed : h'.really_freed ≡ h.really_freed ++ addresses dropped
  pub same_slot : h'.quarantine.avail_index ≡ h.quarantine.avail_index

pub ++-assoc : {A : Type 0} (xs ys zs : List A) → (xs ++ ys) ++ zs ≡ xs ++ (ys ++ zs)
++-assoc [] ys zs = refl
++-assoc (x ∷ xs) ys zs = ap (λ l. x ∷ l) (++-assoc xs ys zs)

++-nil : {A : Type 0} (xs : List A) → xs ++ [] ≡ xs
++-nil [] = refl
++-nil (x ∷ xs) = ap (λ l. x ∷ l) (++-nil xs)

TooMany-or : (xs : List FreeObject) → (TooMany xs) ⊎ (¬ TooMany xs)
TooMany-or xs = elim (dec_lt quarantine_total_size (sum_sizes xs)) [
  | yes big ↦ inl (inl big)
  | no small ↦ elim (dec_lt (length xs) quarantine_buf_size) [
    | yes few ↦ inr (λ many. absurd (omega (arith, many, small, few)))
    | no full ↦ inl (inr (omega (arith, full)))
  ]
]

rest_intact :
    (mem mem' : Memory) (o : FreeObject) (xs : List FreeObject)
    → mem' ≡ mem
    → AllIntact mem (o ∷ xs)
    → AllIntact mem' xs
unfolding AllIntact
rest_intact mem mem' o xs same intact = rw same intact.1

evict_step :
    (raw : TrackObject) (fuel : ℕ) (h h1 h' : Heap)
    → is_full h.quarantine ≡ true
    → free_lr_object raw h ≡ ok (going h1)
    → evict fuel raw h1 ≡ ok (going h')
    → evict (suc fuel) raw h ≡ ok (going h')
unfolding evict
evict_step raw fuel h h1 h' more e1 e = rw (more, evict, e1) e

Evicts-also :
    (h h1 h' : Heap) (o new : FreeObject) (xs dropped kept : List FreeObject)
    → TooMany (o ∷ xs ++ new ∷ [])
    → xs ≡ dropped ++ kept
    → Evicts h1 h' dropped (kept ++ new ∷ [])
    → h1.mem ≡ h.mem
    → h1.reports ≡ h.reports
    → h1.really_freed ≡ h.really_freed ++ o.ptr ∷ []
    → h1.quarantine.avail_index ≡ h.quarantine.avail_index
    → Evicts h h' (o ∷ dropped) (kept ++ new ∷ [])
unfolding NeedsEach addresses
Evicts-also h h1 h' o new xs dropped kept many split ev m1 r1 f1 s1 =
    let apart : xs ++ new ∷ [] ≡ dropped ++ (kept ++ new ∷ []) =
      ap (λ l. l ++ new ∷ []) split ∙ ++-assoc dropped kept (new ∷ []) in
    record {
      ring = ev.ring;
      enough = ev.enough;
      needed = (rw (← apart) many, ev.needed);
      same_mem = ev.same_mem ∙ m1;
      same_reports = ev.same_reports ∙ r1;
      freed =
          ev.freed
          ∙ ap (λ l. l ++ addresses dropped) f1
          ∙ ++-assoc h.really_freed (o.ptr ∷ []) (addresses dropped);
      same_slot = ev.same_slot ∙ s1;
    }

module _ (raw : TrackObject) (new : FreeObject) (fits : new.size < quarantine_total_size) where
  full :
      (h : Heap) (xs : List FreeObject)
      → Has 1 h.quarantine xs
      → 0 < length xs
      → length xs ≤ quarantine_buf_size
      → TooMany xs
      → is_full h.quarantine ≡ true
  full h xs has some_object few many =
      ground (arith, is_full-TooMany h.quarantine xs has some_object few, many)

  not_full :
      (h : Heap) (xs : List FreeObject)
      → Has 1 h.quarantine xs
      → 0 < length xs
      → length xs ≤ quarantine_buf_size
      → ¬ TooMany xs
      → is_full h.quarantine ≡ false
  not_full h xs has some_object few enough =
      ground (arith, is_full-TooMany h.quarantine xs has some_object few, enough)

  single : new.size < quarantine_total_size → ¬ TooMany (new ∷ [])
  unfolding sum_sizes
  single lt many = absurd (omega (arith, lt, many))

  grows : (o : FreeObject) (xs : List FreeObject) → sum_sizes xs ≤ sum_sizes (o ∷ xs)
  unfolding sum_sizes
  grows o xs = omega arith

  stays :
      (h : Heap) (xs : List FreeObject) → Has 1 h.quarantine xs → ¬ TooMany xs → Evicts h h [] xs
  unfolding NeedsEach addresses
  stays h xs has enough = record {
    ring = has;
    enough = enough;
    needed = omega arith;
    same_mem = refl;
    same_reports = refl;
    freed = sym (++-nil h.really_freed);
    same_slot = refl;
  }

  pub evict-Evicts :
      (xs : List FreeObject) (fuel : ℕ) (h : Heap)
      → length xs < fuel
      → Has 1 h.quarantine (xs ++ new ∷ [])
      → AllIntact h.mem (xs ++ new ∷ [])
      → length xs < quarantine_buf_size
      → sum_sizes (xs ++ new ∷ []) < 2 ^ 64
      → (h' : Heap) × (dropped : List FreeObject) × (kept : List FreeObject) × (evict fuel raw h
          ≡ ok (going h'))
        × (xs ≡ dropped ++ kept)
        × Evicts h h' dropped (kept ++ new ∷ [])
  unfolding evict NeedsEach addresses
  evict-Evicts xs zero h enough has intact few small = absurd (omega (arith, enough))
  evict-Evicts [] (suc fuel) h enough has intact few small = (
    h,
    [],
    [],
    rw (not_full h (new ∷ []) has (omega arith) (omega arith) (single fits), evict) refl,
    refl,
    stays h (new ∷ []) has (single fits),
  )
  evict-Evicts (o ∷ xs) (suc fuel) h enough has intact few small =
      elim (TooMany-or (o ∷ xs ++ new ∷ [])) [
        | inl many ↦
            let (h1, e1, has1, m1, r1, f1, s1) =
              free_lr_object-going raw h o (xs ++ new ∷ []) has intact small in
            let (h', dropped, kept, e, split, ev) =
              evict-Evicts xs fuel h1 (omega arith) has1 (rest_intact h.mem h1.mem o _ m1 intact)
                (omega arith) (omega (arith, small, grows o (xs ++ new ∷ []))) in
            (
              h',
              o ∷ dropped,
              kept,
              evict_step raw fuel h h1 h'
                  (full h _ has (omega arith) (omega (arith, few, length-append xs (new ∷ [])))
                    many)
                  e1 e,
              ap (λ l. o ∷ l) split,
              Evicts-also h h1 h' o new xs dropped kept many split ev m1 r1 f1 s1,
            )
        | inr stop ↦ (
          h,
          [],
          o ∷ xs,
          rw
              (
                not_full h _ has (omega arith) (omega (arith, few, length-append xs (new ∷ [])))
                    stop,
                evict,
              )
              refl,
          refl,
          stays h _ has stop,
        )
      ]
