-- ===== src/HashFuncs.antt =====
-- include/hashfuncs.hh: the hash and the comparison of addresses. An address is a 64-bit number.
use Prim.Native.Nat.{bit_xor}
use double_take.Prelude.{ℕ, ◌+◌, ◌*◌, ◌/◌, ◌%◌, ◌^◌, Bool, true, ◌==◌, ◌≡◌, refl, ==→eq}

-- `unsigned long` shifts.
abbrev shl : ℕ → ℕ → ℕ
shl x k = x * 2 ^ k % 2 ^ 64

abbrev shr : ℕ → ℕ → ℕ
shr x k = x / 2 ^ k

unfoldable pub hash_addr : ℕ → ℕ → ℕ
hash_addr addr len =
    let a = bit_xor addr (bit_xor (shl addr 15) 0xcd7dcd7d) in
    let b = bit_xor a (shr a 10) in
    let c = bit_xor b (shl b 3) in
    let d = bit_xor c (shr c 6) in
    let e = bit_xor d ((shl d 2 + shl d 14) % 2 ^ 64) in bit_xor e (shr e 16)

unfoldable pub compare_addr : ℕ → ℕ → ℕ → Bool
compare_addr addr1 addr2 len = addr1 == addr2

pub compare_addr-eq : (a b n : ℕ) → compare_addr a b n ≡ true → a ≡ b
unfolding compare_addr
compare_addr-eq a b n h = ==→eq a b h

pub compare_addr_lem : (a b n : ℕ) → compare_addr a b n ≡ (a == b)
unfolding compare_addr
compare_addr_lem a b n = refl
