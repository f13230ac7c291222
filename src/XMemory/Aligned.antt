-- ===== src/XMemory/Aligned.antt =====
-- An aligned allocation is aligned, and its block is found again when it is freed: memalign,
-- getAlignedAddress and getObjectPtrAtFree of include/xmemory.hh.
use native.Mathlib.Nat.{pow-suc, one-le-pow, mul-mod_left, lt_of_mul-lt-mul_right}
use double_take.Prelude.{
  ℕ, suc, ◌+◌, ◌-◌, ◌*◌, ◌/◌, ◌%◌, ◌^◌, ◌≤◌, ◌<◌, ◌≡◌, refl, sym, ap, ◌∙◌, true, false, ◌==◌, leb,
  if◌then◌else◌, Bool-cases, inl, inr, ==→eq, arith, ok,
}
use double_take.Defines.{memalign_sentinel_word}
use double_take.Memory.{Memory, load_word, store_word, load-store_self, load-store_apart}
use double_take.SentinelMap.{
  SentinelMap, set_memalign_sentinel_at, set_word_at, clear, mark_sentinel_at,
}
use double_take.SentinelMap.Setup.{InHeap, IsReady}
use double_take.SentinelMap.Object.{Marks, mark_sentinel_at-Marks, clear-Marks}
use double_take.XMemory.{
  minus, get_aligned_address, aligned_behind, memalign, get_object_ptr_at_free,
}
use double_take.XMemory.Mask.{bit_and-align_mask, two_pow-add}

get_object_marked :
    (s1 s2 : SentinelMap) (mem : Memory) (p a b ptr : ℕ)
    → minus p 8 ≡ a
    → minus p 16 ≡ b
    → load_word mem a ≡ memalign_sentinel_word
    → load_word mem b ≡ ptr
    → clear s1 a ≡ ok s2
    → get_object_ptr_at_free s1 mem p ≡ ok (ptr, s2)
unfolding get_object_ptr_at_free
get_object_marked s1 s2 mem p a b ptr ea eb word place e =
    rw (get_object_ptr_at_free, ea, eb, word, place, e) refl

module _ (j d ptr : ℕ) (wide : 4 + j + d ≡ 64) (inside : ptr + 2 ^ (4 + j) < 2 ^ 64)
    (sixteen : ptr % 16 ≡ 0) where
  abbrev boundary : ℕ
  boundary = 2 ^ (4 + j)

  -- The next multiple of the boundary.
  abbrev pub behind : ℕ
  behind = (ptr / boundary + 1) * boundary

  sixteens : boundary ≡ 16 * 2 ^ j
  sixteens = omega (
    arith,
    ap (λ (t : ℕ). 2 ^ t) four_more,
    pow-suc 2 j,
    pow-suc 2 (j + 1),
    pow-suc 2 (j + 2),
    pow-suc 2 (j + 3),
  )
    where
      four_more : 4 + j ≡ suc (suc (suc (suc j)))
      four_more = omega arith

  some_boundary : 0 < boundary
  some_boundary = one-le-pow (4 + j) 2 (omega arith)

  parts : (ptr / boundary * boundary + ptr % boundary ≡ ptr) × (ptr % boundary < boundary)
  parts = (omega (arith, some_boundary), omega (arith, some_boundary))

  behind_eq : behind + ptr % boundary ≡ ptr + boundary
  behind_eq = let (whole, less) = parts in omega (arith, whole)

  far : ptr + 16 ≤ behind
  far =
      let whole : ptr / boundary * boundary ≡ 16 * (ptr / boundary * 2 ^ j) =
        omega (arith, ap (λ (t : ℕ). ptr / boundary * t) sixteens) in
      omega (arith, behind_eq, sixteens, sixteen, whole, parts)

  fits : ptr / boundary + 1 < 2 ^ d
  fits = lt_of_mul-lt-mul_right boundary (
      omega (
        arith,
        behind_eq,
        inside,
        ap (λ (t : ℕ). 2 ^ t) (sym wide),
        ap (λ (t : ℕ). 2 ^ t) swap,
        two_pow-add d (4 + j),
      ))
    where
      swap : d + (4 + j) ≡ 4 + j + d
      swap = omega arith

  aligned_behind_at :
      (a : ℕ)
      → get_aligned_address ptr boundary ≡ a
      → aligned_behind ptr boundary
        ≡ (if minus a ptr == 0 then ((a + boundary) % 2 ^ 64, boundary) else (a, minus a ptr))
  unfolding aligned_behind
  aligned_behind_at a e = rw (aligned_behind, e) refl

  aligned_behind_eq : aligned_behind ptr boundary ≡ (behind, behind - ptr)
  unfolding get_aligned_address
  aligned_behind_eq = elim (Bool-cases (ptr % boundary == 0)) [
    | inl even ↦
        let (whole, less) = parts in
        let here : get_aligned_address ptr boundary ≡ ptr = rw (get_aligned_address, even) refl in
        let none_left = ==→eq (ptr % boundary) 0 even in
        let zero : minus ptr ptr ≡ 0 = omega (arith, inside) in
        let end : (ptr + boundary) % 2 ^ 64 ≡ behind =
          omega (arith, inside, behind_eq, none_left) in
        let far : boundary ≡ behind - ptr = omega (arith, behind_eq, none_left) in
        aligned_behind_at ptr here ∙ rw (zero, end) (ap (λ (t : ℕ). (behind, t)) far)
    | inr odd ↦
        let (whole, less) = parts in
        let sum : (ptr + boundary) % 2 ^ 64 ≡ behind + ptr % boundary =
          omega (arith, inside, behind_eq) in
        let here : get_aligned_address ptr boundary ≡ behind =
          rw (get_aligned_address, odd, sum)
            (bit_and-align_mask (4 + j) d (ptr / boundary + 1) (ptr % boundary) wide less fits) in
        let offset : minus behind ptr ≡ behind - ptr = omega (arith, inside, behind_eq, far) in
        let some_left : (behind - ptr == 0) ≡ false = ground (arith, far) in
        aligned_behind_at behind here ∙ rw (offset, some_left) refl
  ]

  module _ (s : SentinelMap) (mem : Memory) (r : IsReady s) (first : InHeap s ptr)
      (last : InHeap s (ptr + boundary)) where
    stored : Memory
    stored = store_word (store_word mem (behind - 8) memalign_sentinel_word) (behind - 16) ptr

    memalign_eq :
        (s1 : SentinelMap)
        → mark_sentinel_at s (behind - 8) ≡ ok s1
        → memalign s mem ptr boundary ≡ ok (behind, s1, stored)
    unfolding memalign set_memalign_sentinel_at set_word_at stored
    memalign_eq s1 e =
        let room : leb 16 (behind - ptr) ≡ true = ground (arith, far) in
        let before : minus behind 8 ≡ behind - 8 = omega (arith, far, inside, behind_eq) in
        let earlier : minus behind 16 ≡ behind - 16 = omega (arith, far, inside, behind_eq) in
        rw (memalign, aligned_behind_eq, room, before, earlier, set_memalign_sentinel_at, e) refl

    get_object_eq :
        (s1 s2 : SentinelMap)
        → clear s1 (behind - 8) ≡ ok s2
        → get_object_ptr_at_free s1 stored behind ≡ ok (ptr, s2)
    unfolding stored
    get_object_eq s1 s2 e =
        get_object_marked s1 s2 stored behind (behind - 8) (behind - 16) ptr
          (omega (arith, far, inside, behind_eq)) (omega (arith, far, inside, behind_eq))
          (load-store_apart (store_word mem (behind - 8) memalign_sentinel_word) (behind - 16) ptr
              (behind - 8) (omega (arith, far))
            ∙ load-store_self mem (behind - 8) memalign_sentinel_word (omega arith))
          (load-store_self (store_word mem (behind - 8) memalign_sentinel_word) (behind - 16) ptr
            (omega (arith, inside)))
          e

    -- For a boundary that is a power of two and at least 16, and a block of the heap at a multiple of
    -- 16 that reaches at least a boundary far: `memalign` returns a multiple of the boundary, 16 bytes
    -- or more and at most a boundary behind the start of the block, and marks the word before it;
    -- `getObjectPtrAtFree` of what it returned gives the start of the block and takes the mark off.
    pub memalign-get_object_ptr_at_free :
        (newptr : ℕ) × (s1 : SentinelMap) × (mem1 : Memory) × (s2 : SentinelMap) × (memalign s mem
            ptr boundary
          ≡ ok (newptr, s1, mem1))
        × (newptr % boundary ≡ 0)
        × (ptr + 16 ≤ newptr)
        × (newptr ≤ ptr + boundary)
        × Marks s s1 (newptr - 8) 1
        × (get_object_ptr_at_free s1 mem1 newptr ≡ ok (ptr, s2))
        × Marks s1 s2 (newptr - 8) 0
    memalign-get_object_ptr_at_free =
        let (s1, e1, m1) = mark_sentinel_at-Marks s (behind - 8) r inside_heap in
        let (s2, e2, m2) =
          clear-Marks s1 (behind - 8) m1.ready (rw (m1.same_start, m1.same_size) inside_heap) in
        (
          behind,
          s1,
          stored,
          s2,
          memalign_eq s1 e1,
          mul-mod_left (ptr / boundary + 1) boundary,
          far,
          omega (arith, behind_eq),
          m1,
          get_object_eq s1 s2 e2,
          m2,
        )
      where
        inside_heap : InHeap s (behind - 8)
        inside_heap = (omega (arith, first, far), omega (arith, last, behind_eq))
