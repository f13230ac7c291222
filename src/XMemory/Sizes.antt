-- ===== src/XMemory/Sizes.antt =====
-- The size that is asked of the heap: realmalloc of include/xmemory.hh.
use double_take.Prelude.{
  ℕ, ◌+◌, ◌*◌, ◌/◌, ◌%◌, ◌^◌, ◌≤◌, ◌<◌, ◌≡◌, refl, ltb, Bool-cases, inl, inr, arith,
}
use double_take.Defines.{alignup}
use double_take.XMemory.{real_malloc_size}
use double_take.XMemory.Mask.{bit_and-align_mask}

-- The size that is asked of the heap, for `sz` bytes.
pub record IsBlockSize (sz size : ℕ) : Type 0 where
  pub whole : size % 16 ≡ 0
  pub some_room : 16 ≤ size
  pub room : sz ≤ size
  pub tight : size < sz + 17

alignup_16 : (n : ℕ) → n + 15 < 2 ^ 64 → alignup n 16 ≡ (n + 15) / 16 * 16
unfolding alignup
alignup_16 n small =
    let wrap : (n + 15) % 2 ^ 64 ≡ (n + 15) / 16 * 16 + (n + 15) % 16 = omega (arith, small) in
    rw wrap (
      bit_and-align_mask 4 60 ((n + 15) / 16) ((n + 15) % 16) refl (omega arith)
        (omega (arith, small)))

-- The size that `realmalloc` asks for, for fewer than 2 ^ 64 - 15 bytes, is a multiple of 16, at
-- least 16 and at least the number of bytes, and greater than it by 16 at most.
pub real_malloc_size-IsBlockSize :
    (sz : ℕ) → sz + 15 < 2 ^ 64 → IsBlockSize sz (real_malloc_size sz)
unfolding real_malloc_size
real_malloc_size-IsBlockSize sz small = elim (Bool-cases (ltb sz 16)) [
  | inl short ↦
      let e : real_malloc_size sz ≡ 16 = rw short (alignup_16 16 (omega arith)) in
      record {
        whole = omega (arith, e);
        some_room = omega (arith, e);
        room = ground (arith, e, short);
        tight = omega (arith, e);
      }
  | inr long ↦
      let e : real_malloc_size sz ≡ (sz + 15) / 16 * 16 = rw long (alignup_16 sz small) in
      record {
        whole = omega (arith, e);
        some_room = ground (arith, e, long);
        room = omega (arith, e);
        tight = omega (arith, e);
      }
]
