-- ===== src/XHeap/Alloc.antt =====
-- The blocks that include/xheap.hh gives, and that a replay gets the same ones.
use double_take.Prelude.{
  ℕ, ◌+◌, ◌-◌, ◌*◌, ◌/◌, ◌%◌, ◌^◌, ◌≤◌, ◌<◌, ◌≡◌, refl, ap, ◌∙◌, ◌⊎◌, inl, inr, List, [], ◌∷◌,
  Outcome, ok, aborted, arith, ◌>>=◌,
}
use native.Mathlib.Decide.{dec_lt}
use double_take.Defines.{page_size}
use double_take.SentinelMap
use double_take.SentinelMap.{SentinelMap, get_index}
use double_take.SentinelMap.Setup.{IsReady, InHeap, marked, index_of}
use double_take.Bitmap
use double_take.Bitmap.{Bitmap}
use double_take.Bitmap.Inv.{member}
use double_take.Bitmap.Range.{clear_bits-member}
use double_take.XHeap.{XHeap, save_heap_metadata, recover_heap_metadata, whole_pages, bump, malloc}

-- The position stays in the heap, on a page boundary, and the rest of the heap remains.
pub record IsValid (h : XHeap) : Type 0 where
  pub from : h.start ≤ h.position
  pub rest : h.position + h.remaining ≡ h.end
  pub short : h.end < 2 ^ 64
  pub aligned : h.position % page_size ≡ 0

-- The block of `sz` bytes at `p` that `h` gives, after which it is `h'`.
pub record Gives (h h' : XHeap) (p sz : ℕ) : Type 0 where
  pub valid : IsValid h'
  pub room : sz ≤ whole_pages sz
  pub pages : whole_pages sz % page_size ≡ 0
  pub tight : whole_pages sz < sz + page_size
  pub inside : (h.start ≤ p) × (p + whole_pages sz ≤ h.end)
  pub fresh : p ≡ h.position
  pub next : h'.position ≡ p + whole_pages sz
  pub same_heap : (h'.start ≡ h.start) × (h'.end ≡ h.end)

whole_pages-tight :
    (sz : ℕ)
    → sz < 2 ^ 63
    → (sz ≤ whole_pages sz) × (whole_pages sz < sz + page_size) × (whole_pages sz % page_size ≡ 0)
unfolding whole_pages
whole_pages-tight sz h = (omega (arith, h), omega (arith, h), omega (arith, h))

-- A valid heap gives a block of any size below 2 ^ 63 where enough remains: of whole pages, no
-- more of them than are needed, in the heap and behind all blocks before it. Otherwise the
-- program ends.
pub bump-Gives :
    (h : XHeap) (sz : ℕ)
    → IsValid h
    → sz < 2 ^ 63
    → (whole_pages sz ≤ h.remaining)
        × ((h' : XHeap) × (bump h sz ≡ ok (h.position, h')) × Gives h h' h.position sz)
      ⊎ (h.remaining < whole_pages sz) × (bump h sz ≡ aborted)
unfolding bump
bump-Gives h sz v small = elim (dec_lt h.remaining (whole_pages sz)) [
  | yes short ↦ inr (short, ground (arith, short))
  | no enough ↦
      let (room, tight, pages) = whole_pages-tight sz small in
      inl (
        omega (arith, enough),
        (
          record h {
            remaining = h.remaining - whole_pages sz;
            position = h.position + whole_pages sz;
          },
          ground (arith, enough),
          record {
            valid = record {
              from = omega (arith, v.from);
              rest = omega (arith, v.rest, enough);
              short = v.short;
              aligned = omega (arith, v.aligned, pages);
            };
            room = room;
            pages = pages;
            tight = tight;
            inside = (v.from, omega (arith, v.rest, enough));
            fresh = refl;
            next = refl;
            same_heap = (refl, refl);
          },
        ),
      )
]

-- The blocks of a row of allocations.
unfoldable pub bumps : XHeap → List ℕ → Outcome (List ℕ)
bumps h [] = ok []
bumps h (sz ∷ sizes) = do (p, h') ← bump h sz; ps ← bumps h' sizes; ok (p ∷ ps)

abbrev after : XHeap → ℕ → XHeap
after h sz = record h {
  remaining = h.remaining - whole_pages sz;
  position = h.position + whole_pages sz;
}

no_room : (h : XHeap) (sz : ℕ) → h.remaining < whole_pages sz → bump h sz ≡ aborted
unfolding bump
no_room h sz short = ground (arith, short)

some_room :
    (h : XHeap) (sz : ℕ) → ¬ h.remaining < whole_pages sz → bump h sz ≡ ok (h.position, after h sz)
unfolding bump
some_room h sz enough = ground (arith, enough)

same_row :
    (p q : ℕ) (m n : Outcome (List ℕ))
    → p ≡ q
    → m ≡ n
    → (m >>= λ l. ok (p ∷ l)) ≡ (n >>= λ l. ok (q ∷ l))
same_row p q m n e e' = rw (e, e') refl

-- What decides about the blocks.
bumps-same :
    (sizes : List ℕ) (h g : XHeap)
    → h.position ≡ g.position
    → h.remaining ≡ g.remaining
    → bumps h sizes ≡ bumps g sizes
unfolding bumps
bumps-same [] h g p r = refl
bumps-same (sz ∷ sizes) h g p r = elim (dec_lt h.remaining (whole_pages sz)) [
  | yes short ↦ rw (no_room h sz short, no_room g sz (rw (← r) short)) refl
  | no enough ↦
      rw (some_room h sz enough, some_room g sz (rw (← r) enough))
        (same_row h.position g.position _ _ p (
          bumps-same sizes (after h sz) (after g sz) (ap (λ (x : ℕ). x + whole_pages sz) p)
            (ap (λ (x : ℕ). x - whole_pages sz) r)))
]

-- After the metadata was saved, and whatever was allocated since, the recovered heap gives the
-- allocations of the replay the same blocks as the first time.
pub bumps-recover_heap_metadata :
    (h : XHeap) (position remaining : ℕ) (sizes : List ℕ)
    → bumps
        (recover_heap_metadata
          (record (save_heap_metadata h) { position = position; remaining = remaining }))
        sizes
      ≡ bumps h sizes
unfolding save_heap_metadata recover_heap_metadata
bumps-recover_heap_metadata h position remaining sizes = bumps-same sizes _ h refl refl

malloc-steps :
    (h h' : XHeap) (s s' : SentinelMap) (sz : ℕ)
    → bump h sz ≡ ok (h.position, h')
    → SentinelMap.cleanup s h.position (whole_pages sz) ≡ ok s'
    → malloc h s sz ≡ ok (h.position, h', s')
unfolding malloc
malloc-steps h h' s s' sz e e' = rw (e, e') refl

cleanup_step :
    (s : SentinelMap) (b : Bitmap) (from size item bits : ℕ)
    → get_index s from ≡ item
    → size / 2 ^ s.word_shift_bits ≡ bits
    → Bitmap.clear_bits s.bitmap item bits ≡ ok b
    → SentinelMap.cleanup s from size ≡ ok (record s { bitmap = b })
unfolding SentinelMap.cleanup
cleanup_step s b from size item bits e e' e'' = rw (e, e', e'') refl

cleanup-marked :
    (s : SentinelMap) (from size : ℕ)
    → IsReady s
    → InHeap s from
    → (from - s.heap_start) % 512 ≡ 0
    → size % 512 ≡ 0
    → from + 8 * size ≤ s.heap_start + 8 * s.bitmap.elements
    → size < 2 ^ 34
    → (s' : SentinelMap) × (SentinelMap.cleanup s from size ≡ ok s')
      × ((a : ℕ) → from ≤ a → a < from + size → marked s' a ≡ 0)
cleanup-marked s from size r here aligned whole covered small =
    let bits : size / 2 ^ s.word_shift_bits ≡ size / 8 = ap (λ (k : ℕ). size / 2 ^ k) r.shift in
    let item : get_index s from ≡ (from - s.heap_start) / 8 = index_of s from r here in
    let (b, e, valid, items) =
      clear_bits-member s.bitmap r.bits ((from - s.heap_start) / 8) (size / 8)
        (omega (arith, aligned)) (omega (arith, whole)) (omega (arith, small))
        (omega (arith, aligned, whole, covered, here, r.whole)) in
    (
      record s { bitmap = b },
      cleanup_step s b from size _ _ item bits e,
      λ a lo hi.
          ap (member b) (index_of s a r (omega (arith, here, lo), omega (arith, hi, covered)))
          ∙ items ((a - s.heap_start) / 8)
          ∙ ground (arith, lo, hi, here, aligned, whole),
    )

-- `malloc` of fewer than 2 ^ 34 - 4096 bytes, on a valid heap where enough remains, gives the block
-- that the bump pointer gives, and takes the marks off its words. The sentinel map is to be set up,
-- from a page boundary on, and to have eight times the block's words from the position on.
pub malloc-Gives :
    (h : XHeap) (s : SentinelMap) (sz : ℕ)
    → IsValid h
    → sz + page_size < 2 ^ 34
    → whole_pages sz ≤ h.remaining
    → IsReady s
    → InHeap s h.position
    → s.heap_start % page_size ≡ 0
    → h.position + 8 * whole_pages sz ≤ s.heap_start + 8 * s.bitmap.elements
    → (h' : XHeap) × (s' : SentinelMap) × (malloc h s sz ≡ ok (h.position, h', s'))
      × Gives h h' h.position sz
      × ((a : ℕ) → h.position ≤ a → a < h.position + whole_pages sz → marked s' a ≡ 0)
malloc-Gives h s sz v small enough r here start covered =
    elim (bump-Gives h sz v (omega (arith, small))) [
      | inr (short, _) ↦ absurd (omega (arith, short, enough))
      | inl (_, (h', e, gives)) ↦
          let (s', e', off) =
            cleanup-marked s h.position (whole_pages sz) r here (omega (arith, v.aligned, start))
              (omega (arith, gives.pages)) covered (omega (arith, gives.tight, small)) in
          (h', s', malloc-steps h h' s s' sz e e', gives, off)
    ]
