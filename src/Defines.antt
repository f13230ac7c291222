-- ===== src/Defines.antt =====
-- include/xdefines.hh: the constants of the 64-bit build, the kinds of faulty objects and the
-- two alignment functions.
use double_take.Prelude.{ℕ, ◌+◌, ◌-◌, ◌%◌, ◌^◌, ◌*◌, bit_and}

abbrev pub word_size : ℕ
word_size = 8

abbrev pub page_size : ℕ
page_size = 4096

abbrev pub user_heap_base : ℕ
user_heap_base = 0x100000000

abbrev pub user_heap_size : ℕ
user_heap_size = 1048576 * 8192

abbrev pub quarantine_buf_size : ℕ
quarantine_buf_size = 1024

abbrev pub quarantine_total_size : ℕ
quarantine_total_size = 1048576 * 16

abbrev pub max_watchpoints : ℕ
max_watchpoints = 4

abbrev pub memtrack_map_size : ℕ
memtrack_map_size = 4096

abbrev pub callsite_maximum_length : ℕ
callsite_maximum_length = 10

abbrev pub magic_byte_not_aligned : ℕ
magic_byte_not_aligned = 0x7E

abbrev pub free_object_canary_words : ℕ
free_object_canary_words = 16

abbrev pub free_object_canary_size : ℕ
free_object_canary_size = 16 * word_size

abbrev pub sentinel_size : ℕ
sentinel_size = word_size

abbrev pub sentinel_word : ℕ
sentinel_word = 0xCAFEBABECAFEBABE

abbrev pub memalign_sentinel_word : ℕ
memalign_sentinel_word = 0xDADEBABEDADEBABE

-- `e_faultyObjectType`.
pub data FaultyObjectType : Type 0 where
  no_error overflow use_after_free leak watch_only : FaultyObjectType

-- The enumerators' values, which `trackObject` joins as bits.
abbrev pub type_bits : FaultyObjectType → ℕ
type_bits no_error = 0
type_bits overflow = 1
type_bits use_after_free = 2
type_bits leak = 4
type_bits watch_only = 8

-- `~(alignto - 1)` on 64 bits.
abbrev pub align_mask : ℕ → ℕ
align_mask alignto = 2 ^ 64 - 1 - (alignto - 1)

unfoldable pub alignup : ℕ → ℕ → ℕ
alignup size alignto = bit_and ((size + (alignto - 1)) % 2 ^ 64) (align_mask alignto)

unfoldable pub aligndown : ℕ → ℕ → ℕ
aligndown addr alignto = bit_and addr (align_mask alignto)
