-- ===== src/Memory.antt =====
-- The memory that the C++ code reads and writes through its pointers: a byte at each address, and
-- little-endian words of the x86-64 that the code is built for.
use double_take.Prelude.{
  ℕ, zero, suc, ◌+◌, ◌*◌, ◌/◌, ◌%◌, ◌^◌, ◌≤◌, ◌<◌, ◌≡◌, refl, ◌⊎◌, ◌==◌, if◌then◌else◌, arith,
  pow_suc,
}

abbrev pub Memory : Type 0
Memory = ℕ → ℕ

-- `*(unsigned char *)a`
abbrev pub load_byte : Memory → ℕ → ℕ
load_byte m a = m a % 256

unfoldable pub put_byte : Memory → ℕ → ℕ → Memory
put_byte m a v b = if b == a then v % 256 else m b

unfoldable pub load_bytes : ℕ → Memory → ℕ → ℕ
load_bytes zero m a = 0
load_bytes (suc n) m a = m a % 256 + 256 * load_bytes n m (a + 1)

unfoldable pub store_bytes : ℕ → Memory → ℕ → ℕ → Memory
unfolding put_byte
store_bytes zero m a v = m
store_bytes (suc n) m a v = store_bytes n (put_byte m a v) (a + 1) (v / 256)

-- `*(unsigned long *)a`
unfoldable pub load_word : Memory → ℕ → ℕ
unfolding load_bytes
load_word m a = load_bytes 8 m a

unfoldable pub store_word : Memory → ℕ → ℕ → Memory
unfolding store_bytes
store_word m a v = store_bytes 8 m a v

pub load_bytes-lt : (n : ℕ) (m : Memory) (a : ℕ) → load_bytes n m a < 256 ^ n
unfolding load_bytes
load_bytes-lt zero m a = omega arith
load_bytes-lt (suc n) m a = omega (arith, load_bytes-lt n m (a + 1), pow_suc 256 n)

pub store_bytes-apart :
    (n : ℕ) (m : Memory) (a v b : ℕ) → (b < a) ⊎ (a + n ≤ b) → store_bytes n m a v b ≡ m b
unfolding store_bytes
store_bytes-apart zero m a v b h = refl
store_bytes-apart (suc n) m a v b h =
    ground (arith, store_bytes-apart n (put_byte m a v) (a + 1) (v / 256) b)

load-store_bytes_self :
    (n : ℕ) (m : Memory) (a v : ℕ) → v < 256 ^ n → load_bytes n (store_bytes n m a v) a ≡ v
unfolding load_bytes store_bytes
load-store_bytes_self zero m a v h = omega arith
load-store_bytes_self (suc n) m a v h = ground (
  arith,
  store_bytes-apart n (put_byte m a v) (a + 1) (v / 256) a,
  load-store_bytes_self n (put_byte m a v) (a + 1) (v / 256) (omega (arith, pow_suc 256 n)),
)

-- Two memories that agree on the bytes that are read give one value.
pub load_bytes-congr :
    (n : ℕ) (m m' : Memory) (a : ℕ)
    → ((b : ℕ) → a ≤ b → b < a + n → m b ≡ m' b)
    → load_bytes n m a ≡ load_bytes n m' a
unfolding load_bytes
load_bytes-congr zero m m' a h = refl
load_bytes-congr (suc n) m m' a h = omega (
  arith,
  h a (omega arith) (omega arith),
  load_bytes-congr n m m' (a + 1) (λ b lo hi. h b (omega arith) (omega arith)),
)

pub load_word-lt : (m : Memory) (a : ℕ) → load_word m a < 2 ^ 64
unfolding load_word
load_word-lt m a = load_bytes-lt 8 m a

-- A word is read back as it was written.
pub load-store_self : (m : Memory) (a v : ℕ) → v < 2 ^ 64 → load_word (store_word m a v) a ≡ v
unfolding load_word store_word
load-store_self m a v h = load-store_bytes_self 8 m a v h

-- A write leaves the words that it does not overlap.
pub load-store_apart :
    (m : Memory) (a v b : ℕ)
    → (b + 8 ≤ a) ⊎ (a + 8 ≤ b)
    → load_word (store_word m a v) b ≡ load_word m b
unfolding load_word store_word
load-store_apart m a v b h =
    load_bytes-congr 8 (store_bytes 8 m a v) m b
      (λ c lo hi. store_bytes-apart 8 m a v c (omega arith))
