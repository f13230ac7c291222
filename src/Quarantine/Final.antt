-- ===== src/Quarantine/Final.antt =====
-- `finalUAFCheck` of include/quarantine.hh misses no object of the ring.
use double_take.Prelude.{
  ℕ, zero, suc, ◌+◌, ◌*◌, ◌%◌, ◌^◌, ◌≤◌, ◌<◌, ◌≡◌, ◌≢◌, refl, ◌⊎◌, inl, inr, Bool, true, false,
  none, some, List, [], ◌∷◌, Outcome, ok, arith, length, get_or, ne→==, ◌∙◌,
}
use native.Mathlib.Decide.{ℕ_discrete}
use double_take.Defines.{word_size, quarantine_buf_size, sentinel_word}
use double_take.Memory.{Memory, load_word}
use double_take.Memtrack.{TrackObject}
use double_take.Watchpoint.{has_to_rollback}
use double_take.Canary.{FreeObject, Reports, has_usage_after_free}
use double_take.Canary.Laws.{Intact, words_of}
use double_take.Canary.Detect.{IsReady, has_usage_after_free-Checked}
use double_take.Quarantine.{
  Quarantine, no_object, incr_index, retrieve_lr_object, final_check_from, final_uaf_check,
}
use double_take.Quarantine.Ring.{Stored, Holds}

-- Each object has a start and whole words.
unfoldable pub AllWhole : List FreeObject → Type 0
AllWhole [] = 0 ≤ 0
AllWhole (o ∷ xs) = ((o.ptr ≢ 0) × (o.size % word_size ≡ 0)) × AllWhole xs

unfoldable pub AllClean : Memory → List FreeObject → Type 0
AllClean mem [] = 0 ≤ 0
AllClean mem (o ∷ xs) = Intact mem o × AllClean mem xs

-- Some canary word of some object was written to.
unfoldable pub SomeUsed : Memory → List FreeObject → Type 0
SomeUsed mem [] = 1 ≤ 0
SomeUsed mem (o ∷ xs) =
    ((k : ℕ) × (k < words_of o.size) × (load_word mem (o.ptr + 8 * k) ≢ sentinel_word))
    ⊎ SomeUsed mem xs

words_of-le_canary : (size : ℕ) → words_of size ≤ 16
words_of-le_canary size = ground arith

-- The end of the ring, and its oldest object.
retrieve_end : (q : Quarantine) → q.avail_index ≡ q.lr_index → retrieve_lr_object q ≡ (none, q)
unfolding retrieve_lr_object
retrieve_end q e = ground (arith, e)

retrieve_next :
    (q : Quarantine) (o : FreeObject)
    → q.lr_index ≢ q.avail_index
    → get_or q.objects q.lr_index no_object ≡ o
    → retrieve_lr_object q ≡ (some o, record q { lr_index = incr_index q.lr_index })
unfolding retrieve_lr_object
retrieve_next q o ne e = rw (ne→== _ _ ne, e) refl

-- What the check of the objects `xs` says, when `b` was known before.
abbrev pub Found : Memory → List FreeObject → Reports → Bool → Bool → Reports → Type 0
Found mem xs r b used r' =
    (AllClean mem xs × (used ≡ b) × (r' ≡ r))
    ⊎ (SomeUsed mem xs × (used ≡ true) × (has_to_rollback r'.watchpoint ≡ true))

Found-clean :
    (mem : Memory) (o : FreeObject) (xs : List FreeObject) (r r1 r' : Reports) (b used : Bool)
    → Intact mem o
    → r1 ≡ r
    → Found mem xs r1 b used r'
    → Found mem (o ∷ xs) r b used r'
unfolding AllClean SomeUsed
Found-clean mem o xs r r1 r' b used intact kept (inl (clean, e, same)) =
    inl ((intact, clean), e, same ∙ kept)
Found-clean mem o xs r r1 r' b used intact kept (inr (hit, e, roll)) = inr (inr hit, e, roll)

now_ok :
    (m : Outcome (Bool × Reports)) (used used' : Bool) (r : Reports)
    → m ≡ ok (used, r)
    → used ≡ used'
    → m ≡ ok (used', r)
now_ok m used used' r e e' = rw (← e') e

Found-used :
    (mem : Memory) (o : FreeObject) (xs : List FreeObject) (r r1 r' : Reports) (b used : Bool)
    → (k : ℕ) × (k < words_of o.size) × (load_word mem (o.ptr + 8 * k) ≢ sentinel_word)
    → has_to_rollback r1.watchpoint ≡ true
    → Found mem xs r1 true used r'
    → Found mem (o ∷ xs) r b used r'
unfolding SomeUsed
Found-used mem o xs r r1 r' b used bad roll (inl (clean, e, same)) = inr (inl bad, e, rw same roll)
Found-used mem o xs r r1 r' b used bad roll (inr (hit, e, roll')) = inr (inl bad, e, roll')

module _ (raw : TrackObject) (mem : Memory) where
  round_end :
      (fuel : ℕ) (q : Quarantine) (r : Reports) (errors : ℕ) (b : Bool)
      → q.avail_index ≡ q.lr_index
      → final_check_from (suc fuel) raw mem q r errors b ≡ ok (b, q, r)
  unfolding final_check_from
  round_end fuel q r errors b e = ground (arith, retrieve_end q e)

  round_clean :
      (fuel : ℕ) (q q' : Quarantine) (r r1 : Reports) (errors : ℕ) (b : Bool) (o : FreeObject)
      → retrieve_lr_object q ≡ (some o, q')
      → has_usage_after_free r raw mem o ≡ ok (false, r1)
      → final_check_from (suc fuel) raw mem q r errors b
        ≡ final_check_from fuel raw mem q' r1 errors b
  unfolding final_check_from
  round_clean fuel q q' r r1 errors b o e e' = ground (arith, e, e')

  round_used :
      (fuel : ℕ) (q q' : Quarantine) (r r1 : Reports) (errors : ℕ) (b : Bool) (o : FreeObject)
      → retrieve_lr_object q ≡ (some o, q')
      → has_usage_after_free r raw mem o ≡ ok (true, r1)
      → errors ≢ 3
      → final_check_from (suc fuel) raw mem q r errors b
        ≡ final_check_from fuel raw mem q' r1 (errors + 1) true
  unfolding final_check_from
  round_used fuel q q' r r1 errors b o e e' ne = ground (arith, e, e', ne)

  round_last :
      (fuel : ℕ) (q q' : Quarantine) (r r1 : Reports) (errors : ℕ) (b : Bool) (o : FreeObject)
      → retrieve_lr_object q ≡ (some o, q')
      → has_usage_after_free r raw mem o ≡ ok (true, r1)
      → errors ≡ 3
      → final_check_from (suc fuel) raw mem q r errors b ≡ ok (true, q', r1)
  unfolding final_check_from
  round_last fuel q q' r r1 errors b o e e' three = ground (arith, e, e', three)

  final_check_from-Found :
      (xs : List FreeObject) (fuel n : ℕ) (q : Quarantine) (r : Reports) (errors : ℕ) (b : Bool)
      → length xs < fuel
      → length xs < quarantine_buf_size
      → q.lr_index < quarantine_buf_size
      → q.avail_index ≡ (q.lr_index + length xs) % quarantine_buf_size
      → Stored q.objects q.lr_index xs
      → AllWhole xs
      → IsReady n r
      → n + 16 * length xs < 2 ^ 31
      → (used : Bool) × (q' : Quarantine) × (r' : Reports) × (final_check_from fuel raw mem q r
            errors b
          ≡ ok (used, q', r'))
        × Found mem xs r b used r'
  unfolding Stored AllWhole AllClean SomeUsed
  final_check_from-Found xs zero n q r errors b enough few inside at stored whole ready small =
      absurd (omega (arith, enough))
  final_check_from-Found [] (suc fuel) n q r errors b enough few inside at stored whole ready
        small =
      (
        b,
        q,
        r,
        round_end fuel q r errors b (omega (arith, at, inside)),
        inl (omega arith, refl, refl),
      )
  final_check_from-Found (o ∷ xs) (suc fuel) n q r errors b enough few inside at stored whole ready
        small =
      let q1 : Quarantine = record q { lr_index = incr_index q.lr_index } in
      let e1 = retrieve_next q o (λ same. absurd (omega (arith, same, at, inside, few))) stored.0 in
      let (used, r1, n1, e, ready1, le, checked) =
        has_usage_after_free-Checked raw mem o whole.0.0 n r ready
          (omega (arith, small, words_of-le_canary o.size)) whole.0.1 in
      let rest = λ (errors' : ℕ). λ (b' : Bool).
        final_check_from-Found xs fuel n1 q1 r1 errors' b' (omega (arith, enough))
          (omega (arith, few)) (omega arith) (omega (arith, at)) stored.1 whole.1 ready1
          (omega (arith, small, le, words_of-le_canary o.size)) in
      elim checked [
        | inl (intact, clean, same) ↦
            let (used', q', r', e', found) = rest errors b in
            (
              used',
              q',
              r',
              round_clean fuel q q1 r r1 errors b o e1 (now_ok _ _ _ _ e clean) ∙ e',
              Found-clean mem o xs r r1 r' b used' intact same found,
            )
        | inr (bad, hit, roll) ↦ elim (ℕ_discrete errors 3) [
          | yes three ↦ (
            true,
            q1,
            r1,
            round_last fuel q q1 r r1 errors b o e1 (now_ok _ _ _ _ e hit) three,
            inr (inl bad, refl, roll),
          )
          | no more ↦
              let (used', q', r', e', found) = rest (errors + 1) true in
              (
                used',
                q',
                r',
                round_used fuel q q1 r r1 errors b o e1 (now_ok _ _ _ _ e hit) more ∙ e',
                Found-used mem o xs r r1 r' b used' bad roll found,
              )
        ]
      ]

-- On a ring that holds `xs`, where each object has a start and whole words, with watchpoints within
-- their array and a tracker that is initialized and valid with at most `n` entries in each chain,
-- where `n` and 16 for each of 1024 objects are fewer than 2 ^ 31: 1024 rounds are enough for
-- `finalUAFCheck`. It returns true exactly if some canary word of some object was written to, and the
-- run then has to roll back; otherwise it reports nothing.
pub final_uaf_check-Found :
    (raw : TrackObject) (mem : Memory) (n : ℕ) (q : Quarantine) (xs : List FreeObject) (r : Reports)
    → Holds q xs
    → AllWhole xs
    → IsReady n r
    → n + 16 * quarantine_buf_size < 2 ^ 31
    → (used : Bool) × (q' : Quarantine) × (r' : Reports) × (final_uaf_check quarantine_buf_size raw
          mem q r
        ≡ ok (used, q', r'))
      × Found mem xs r false used r'
unfolding final_uaf_check
final_uaf_check-Found raw mem n q xs r held whole ready small =
    final_check_from-Found raw mem xs quarantine_buf_size n q r 0 false held.few held.few
      held.has.oldest (omega (arith, held.has.counted, held.has.next)) held.has.stored whole ready
      (omega (arith, small, held.few))
