-- ===== src/SentinelMap.antt =====
-- include/sentinelmap.hh: the words of the heap that hold a sentinel, marked in a bitmap. The
-- memory that the pointers reach is passed along. The check of a whole object, which reports to
-- the watchpoints, is in Detector.
pub mod Setup
pub mod Object
pub mod Find
use double_take.Prelude.{
  ℕ, zero, suc, ◌+◌, ◌-◌, ◌*◌, ◌/◌, ◌%◌, ◌^◌, Bool, false, not, ◌&&◌, ◌||◌, Option, none, some, ltb,
  ◌==◌, if◌then◌else◌, replicate, Outcome, ok, aborted, timeout, assert, ◌>>=◌, ◌>>◌,
}
use double_take.Defines.{
  page_size, word_size, sentinel_size, sentinel_word, memalign_sentinel_word,
  magic_byte_not_aligned,
}
use double_take.Memory.{Memory, load_byte, load_word, store_word}
use double_take.Bitmap
use double_take.Bitmap.{Bitmap}

pub record SentinelMap : Type 0 where
  pub bitmap : Bitmap
  pub word_shift_bits : ℕ
  pub item_shift_bits : ℕ
  pub elements : ℕ
  pub total_bytes : ℕ
  pub heap_start : ℕ
  pub last_sentinel_addr : ℕ

-- `while ((1UL << i) < sectorsize) i++;` with the rounds left, and then the check.
pub calc_shift_from : ℕ → ℕ → ℕ → Outcome ℕ
calc_shift_from zero i sectorsize = timeout
calc_shift_from (suc fuel) i sectorsize =
    let more = calc_shift_from fuel (i + 1) sectorsize in
    if ltb (2 ^ i) sectorsize then more else (if 2 ^ i == sectorsize then ok i else aborted)

pub calc_shift_bits : ℕ → Outcome ℕ
unfolding calc_shift_from
calc_shift_bits sectorsize = calc_shift_from 64 0 sectorsize

-- The parameter is an `int`, and the quotient a `size_t` again.
pub get_bytes : ℕ → ℕ
get_bytes elements =
    let e = elements % 2 ^ 32 in if ltb e (2 ^ 31) then e / 8 else 2 ^ 64 - (2 ^ 32 - e) / 8

-- The buffer is what `mmap` gives: zeros.
unfoldable pub initialize : ℕ → ℕ → Outcome SentinelMap
unfolding calc_shift_bits get_bytes
initialize addr size = do
  assert (size % page_size == 0)
  word_shift ← calc_shift_bits 8
  item_shift ← calc_shift_bits 64
  let elements = size / 2 ^ word_shift
  let total = get_bytes elements
  ok (record {
    bitmap = Bitmap.initialize (replicate (total / 8) 0) elements (elements / 8);
    word_shift_bits = word_shift;
    item_shift_bits = item_shift;
    elements = elements;
    total_bytes = total;
    heap_start = addr;
    last_sentinel_addr = 0;
  })

abbrev pub get_index : SentinelMap → ℕ → ℕ
get_index s addr = (addr + 2 ^ 64 - s.heap_start) % 2 ^ 64 / 2 ^ s.word_shift_bits

abbrev pub get_bit_size : SentinelMap → ℕ → ℕ
get_bit_size s size = size / 2 ^ s.word_shift_bits

abbrev pub get_heap_address_from_item : SentinelMap → ℕ → ℕ
get_heap_address_from_item s index = (s.heap_start + index * word_size) % 2 ^ 64

abbrev put_bitmap : SentinelMap → Bitmap → SentinelMap
put_bitmap s b = record s { bitmap = b }

unfoldable pub cleanup : SentinelMap → ℕ → ℕ → Outcome SentinelMap
cleanup s start size = do
  b ← Bitmap.clear_bits s.bitmap (get_index s start) (get_bit_size s size)
  ok (put_bitmap s b)

unfoldable pub has_sentinels : ℕ → SentinelMap → ℕ → ℕ → Outcome Bool
has_sentinels fuel s addr size =
    Bitmap.has_bit_set fuel s.bitmap (get_index s addr) (get_bit_size s size)

unfoldable pub try_to_set : SentinelMap → ℕ → Outcome (Bool × SentinelMap)
try_to_set s addr = do
  r ← Bitmap.check_set_bit s.bitmap (get_index s addr)
  ok (r.0, put_bitmap s r.1)

unfoldable pub clear : SentinelMap → ℕ → Outcome SentinelMap
clear s addr = do b ← Bitmap.clear_bit s.bitmap (get_index s addr); ok (put_bitmap s b)

unfoldable pub is_set : SentinelMap → ℕ → Outcome Bool
is_set s addr = Bitmap.is_bit_set s.bitmap (get_index s addr)

unfoldable pub mark_sentinel_at : SentinelMap → ℕ → Outcome SentinelMap
mark_sentinel_at s ptr = do r ← try_to_set s ptr; ok r.1

-- `setSentinelAt` and `setMemalignSentinelAt`, for the word that they write.
unfoldable pub set_word_at : SentinelMap → Memory → ℕ → ℕ → Outcome (SentinelMap × Memory)
unfolding mark_sentinel_at
set_word_at s mem ptr word = do
  let mem' = store_word mem ptr word
  s' ← mark_sentinel_at s ptr
  ok (s', mem')

unfoldable pub set_sentinel_at : SentinelMap → Memory → ℕ → Outcome (SentinelMap × Memory)
unfolding set_word_at
set_sentinel_at s mem ptr = set_word_at s mem ptr sentinel_word

unfoldable pub set_memalign_sentinel_at : SentinelMap → Memory → ℕ → Outcome (SentinelMap × Memory)
unfolding set_word_at
set_memalign_sentinel_at s mem ptr = set_word_at s mem ptr memalign_sentinel_word

unfoldable pub setup_sentinels : SentinelMap → Memory → ℕ → ℕ → Outcome (SentinelMap × Memory)
unfolding mark_sentinel_at
setup_sentinels s mem ptr objectsize = do
  let first = (ptr + 2 ^ 64 - sentinel_size) % 2 ^ 64
  let last = ptr + objectsize
  let mem' = store_word (store_word mem first sentinel_word) last sentinel_word
  s' ← mark_sentinel_at s first
  s'' ← mark_sentinel_at s' last
  ok (s'', mem')

-- True if the word is not the sentinel.
abbrev pub check_sentinel : Memory → ℕ → Bool
check_sentinel mem ptr = not (load_word mem ptr == sentinel_word)

unfoldable pub check_and_clear_sentinel : SentinelMap → Memory → ℕ → Outcome (Bool × SentinelMap)
check_and_clear_sentinel s mem ptr = do s' ← clear s ptr; ok (check_sentinel mem ptr, s')

-- The body of the loop below, for the item that `getLastBit` found: `again` is the next round.
unfoldable pub object_at : SentinelMap → Memory → ℕ → Outcome (Option ℕ) → Outcome (Option ℕ)
object_at s mem start_index again =
    let canary = get_heap_address_from_item s start_index in
    if load_word mem canary == sentinel_word
    then ok (some (canary + sentinel_size))
    else (if load_word mem canary == memalign_sentinel_word then again else ok none)

-- `while (getLastBit(item, &startIndex)) { ... }`; every round goes to a lower item.
unfoldable pub find_object_from : ℕ → SentinelMap → Memory → ℕ → Outcome (Option ℕ)
unfolding object_at
find_object_from zero s mem item = timeout
find_object_from (suc fuel) s mem item = do
  last ← Bitmap.get_last_bit s.bitmap item
  elim last [
    | none ↦ ok none
    | some start_index ↦
        let again = find_object_from fuel s mem start_index in object_at s mem start_index again
  ]

-- `*objectStart`, or `none` where the function returns false.
unfoldable pub find_object_start_addr : SentinelMap → Memory → ℕ → Outcome (Option ℕ)
unfolding find_object_from
find_object_start_addr s mem addr = find_object_from (get_index s addr + 1) s mem (get_index s addr)

-- `while (p[j] == MAGIC_BYTE_NOT_ALIGNED) { magicBytesSize++; j--; }` from the byte at `addr`.
unfoldable pub magic_bytes : ℕ → Memory → ℕ → Outcome ℕ
magic_bytes zero mem addr = timeout
magic_bytes (suc fuel) mem addr =
    let below = magic_bytes fuel mem (addr - 1) in
    if load_byte mem addr == magic_byte_not_aligned then (do n ← below; ok (n + 1)) else ok 0

unfoldable pub is_corrupted_sentinel : ℕ → Memory → ℕ → Outcome Bool
unfolding magic_bytes
is_corrupted_sentinel fuel mem addr = do
  n ← magic_bytes fuel mem (addr + 7)
  ok (n == 0 || (not (load_byte mem (addr + 7 - n) == n) && not (n == 1)))

unfoldable pub is_overflow : ℕ → SentinelMap → Memory → ℕ → Outcome Bool
unfolding is_corrupted_sentinel
is_overflow fuel s mem addr = do
  marked ← has_sentinels fuel s addr word_size
  let curword = load_word mem addr
  (if marked && not (curword == sentinel_word) && not (curword == memalign_sentinel_word)
      then is_corrupted_sentinel fuel mem addr
      else ok false)
