-- ===== src/SentinelMap/Find.antt =====
-- `findObjectStartAddr` of include/sentinelmap.hh: from an address back to the object round it.
use double_take.Prelude.{
  ℕ, zero, suc, ◌+◌, ◌-◌, ◌*◌, ◌/◌, ◌≤◌, ◌<◌, ◌≡◌, ◌≢◌, refl, Option, none, some, length, Outcome,
  ok, arith, eq→==, ne→==,
}
use native.Mathlib.Decide.{dec_lt, ℕ_discrete}
use double_take.Defines.{sentinel_size, sentinel_word, memalign_sentinel_word}
use double_take.Memory.{Memory, load_word}
use double_take.Bitmap.Inv.{member}
use double_take.Bitmap.Last.{IsLast, get_last_bit-IsLast}
use double_take.SentinelMap.{
  SentinelMap, get_heap_address_from_item, object_at, find_object_from, find_object_start_addr,
}
use double_take.SentinelMap.Setup.{IsReady, InHeap, index_of}

abbrev pub canary_at : SentinelMap → Memory → ℕ → ℕ
canary_at s mem i = load_word mem (get_heap_address_from_item s i)

-- All the marked words from item `lo` on and before item `hi` hold the sentinel of `memalign`.
abbrev pub OnlyMemalign : SentinelMap → Memory → ℕ → ℕ → Type 0
OnlyMemalign s mem lo hi =
    (j : ℕ) → lo ≤ j → j < hi → member s.bitmap j ≡ 1 → canary_at s mem j ≡ memalign_sentinel_word

-- What the search back from `item` means: past sentinels of `memalign`, a sentinel, and the
-- object starts behind it; or none, because a marked word holds neither or there is no more.
pub data Located (s : SentinelMap) (mem : Memory) (item : ℕ) : Option ℕ → Type 0 where
  behind :
      (i : ℕ)
      → i < item
      → member s.bitmap i ≡ 1
      → canary_at s mem i ≡ sentinel_word
      → OnlyMemalign s mem (i + 1) item
      → Located s mem item (some (get_heap_address_from_item s i + sentinel_size))
  broken :
      (i : ℕ)
      → i < item
      → member s.bitmap i ≡ 1
      → canary_at s mem i ≢ sentinel_word
      → canary_at s mem i ≢ memalign_sentinel_word
      → OnlyMemalign s mem (i + 1) item
      → Located s mem item none
  exhausted : OnlyMemalign s mem 0 item → Located s mem item none

module _ (s : SentinelMap) (mem : Memory) (r : IsReady s) where
  -- A further marked word with the sentinel of `memalign` is passed over.
  further :
      (i item : ℕ) (o : Option ℕ)
      → i < item
      → canary_at s mem i ≡ memalign_sentinel_word
      → ((j : ℕ) → i < j → j < item → member s.bitmap j ≡ 0)
      → Located s mem i o
      → Located s mem item o
  further i item o lt here clear loc = pass loc
    where
      widen : {lo : ℕ} → OnlyMemalign s mem lo i → OnlyMemalign s mem lo item
      widen only j lo hi hit = elim (dec_lt j i) [
        | yes low ↦ only j lo low hit
        | no high ↦ elim (ℕ_discrete j i) [
          | yes same ↦ rw same here
          | no later ↦ absurd (omega (arith, clear j (omega arith) hi, hit))
        ]
      ]

      pass : {o : Option ℕ} → Located s mem i o → Located s mem item o
      pass (behind k lt' m c only) = behind k (omega arith) m c (widen only)
      pass (broken k lt' m c d only) = broken k (omega arith) m c d (widen only)
      pass (exhausted only) = exhausted (widen only)

  -- What one round gives, from what the next rounds give.
  object_at-Located :
      (i item : ℕ) (again : Outcome (Option ℕ))
      → IsLast (member s.bitmap) item (some i)
      → (o : Option ℕ) × (again ≡ ok o) × Located s mem i o
      → (o : Option ℕ) × (object_at s mem i again ≡ ok o) × Located s mem item o
  unfolding object_at
  object_at-Located i item again (lt, hit, clear) (o, e, loc) =
      elim (ℕ_discrete (canary_at s mem i) sentinel_word) [
        | yes plain ↦ (
          some (get_heap_address_from_item s i + sentinel_size),
          rw (eq→== _ _ plain),
          behind i lt hit plain only,
        )
        | no other ↦ elim (ℕ_discrete (canary_at s mem i) memalign_sentinel_word) [
          | yes inner ↦
              (o, rw (ne→== _ _ other, eq→== _ _ inner) e, further i item o lt inner clear loc)
          | no bad ↦ (none, rw (ne→== _ _ other, ne→== _ _ bad), broken i lt hit other bad only)
        ]
      ]
    where
      only : OnlyMemalign s mem (i + 1) item
      only j lo hi m = absurd (omega (arith, clear j (omega arith) hi, m))

  find_object_from-Located :
      (fuel item : ℕ)
      → item < fuel
      → item < 64 * length s.bitmap.start
      → (o : Option ℕ) × (find_object_from fuel s mem item ≡ ok o) × Located s mem item o
  unfolding find_object_from
  find_object_from-Located zero item h small = absurd (omega arith)
  find_object_from-Located (suc fuel) item h small =
      let (last, e, spec) = get_last_bit-IsLast s.bitmap r.bits item small in
      let ih =
        λ (i : ℕ) (lt : i < item). find_object_from-Located fuel i (omega arith) (omega arith) in
      rw e (split last spec ih)
    where
      split :
          (last : Option ℕ)
          → IsLast (member s.bitmap) item last
          → ((i : ℕ)
              → i < item
              → (o : Option ℕ) × (find_object_from fuel s mem i ≡ ok o) × Located s mem i o)
          → (o : Option ℕ) × (elim last [
            | none ↦ ok none
            | some i ↦ let again = find_object_from fuel s mem i in object_at s mem i again
          ]
              ≡ ok o)
            × Located s mem item o
      split none spec ih =
          (none, refl, exhausted (λ j lo hi m. absurd (omega (arith, spec j hi, m))))
      split (some i) spec ih = object_at-Located i item _ spec (ih i spec.0)

  -- In a sentinel map that is set up, `findObjectStartAddr` from an address of its heap
  -- returns. Going back from the address over the marked words, it passes those with the
  -- sentinel of `memalign`; if the next marked word holds the plain sentinel, it gives the
  -- address behind that, and otherwise, or if there is none, it gives no object.
  pub find_object_start_addr-Located :
      (addr : ℕ)
      → InHeap s addr
      → (o : Option ℕ) × (find_object_start_addr s mem addr ≡ ok o)
        × Located s mem ((addr - s.heap_start) / 8) o
  unfolding find_object_start_addr
  find_object_start_addr-Located addr h =
      let small : (addr - s.heap_start) / 8 < 64 * length s.bitmap.start = omega (arith, r.whole) in
      rw (index_of s addr r h) (find_object_from-Located _ _ (omega arith) small)
