-- ===== src/ObjectHeader.antt =====
-- include/objectheader.hh: the header in front of each heap object, for the 64-bit build with
-- DETECT_OVERFLOW. The lowest bit of the block size says that the leak check has reached the
-- object. `getStartPtr` and `getNextObject` take the header's address.
pub mod Marks
use double_take.Prelude.{
  ℕ, ◌+◌, ◌-◌, ◌%◌, ◌^◌, bit_and, bit_or, Bool, true, false, not, ◌&&◌, ◌||◌, ltb, leb, ◌==◌,
  if◌then◌else◌,
}
use double_take.Defines.{sentinel_size, sentinel_word}
use double_take.Memory.{Memory, load_bytes, load_word}

pub record ObjectHeader : Type 0 where
  pub block_size : ℕ
  pub object_size : ℕ
  pub sentinel : ℕ

-- The constructor; both sizes are `unsigned int`.
unfoldable pub create : ℕ → ObjectHeader
create sz = record { block_size = sz % 2 ^ 32; object_size = 0; sentinel = sentinel_word }

-- The header at an address.
unfoldable pub header_at : Memory → ℕ → ObjectHeader
header_at mem addr = record {
  block_size = load_bytes 4 mem addr;
  object_size = load_bytes 4 mem (addr + 4);
  sentinel = load_word mem (addr + 8);
}

-- `sizeof(objectHeader)`
abbrev pub header_bytes : ℕ
header_bytes = 16

abbrev pub get_size : ObjectHeader → ℕ
get_size o = o.block_size

abbrev pub get_object_size : ObjectHeader → ℕ
get_object_size o = o.object_size

unfoldable pub set_object_size : ObjectHeader → ℕ → ℕ × ObjectHeader
set_object_size o sz = (sz, record o { object_size = sz % 2 ^ 32 })

unfoldable pub is_good_object : ObjectHeader → Bool
is_good_object o = o.sentinel == sentinel_word

unfoldable pub get_start_ptr : ℕ → ℕ
get_start_ptr addr = addr + 8 + sentinel_size

unfoldable pub set_object_free : ObjectHeader → ObjectHeader
set_object_free o = record o { object_size = 0 }

unfoldable pub is_object_free : ObjectHeader → Bool
is_object_free o = o.object_size == 0

abbrev pub object_checked_word : ℕ
object_checked_word = 1

abbrev pub object_checked_word_mask : ℕ
object_checked_word_mask = 0xFFFFFFFE

unfoldable pub mark_object_checked : ObjectHeader → ObjectHeader
mark_object_checked o = record o { block_size = bit_or o.block_size object_checked_word }

unfoldable pub clean_object_checked : ObjectHeader → ObjectHeader
clean_object_checked o = record o { block_size = bit_and o.block_size object_checked_word_mask }

unfoldable pub is_object_checked : ObjectHeader → Bool
is_object_checked o = not (bit_and o.block_size object_checked_word == 0)

unfoldable pub do_check_object : ObjectHeader → Bool
unfolding is_object_free is_object_checked
do_check_object o = not (is_object_free o || is_object_checked o)

-- Whether the object is a leak, and the header after the call.
unfoldable pub check_leakage_and_clean : ObjectHeader → Bool × ObjectHeader
unfolding is_object_free is_object_checked clean_object_checked
check_leakage_and_clean o =
    if is_object_free o || is_object_checked o then (false, clean_object_checked o) else (true, o)

unfoldable pub is_valid_object_size : ℕ → Bool
is_valid_object_size size = not (size == 0) && (bit_and size (size - 1) == 0)

-- `begin` is the object's start.
unfoldable pub is_valid_addr : ObjectHeader → ℕ → ℕ → Bool
unfolding is_valid_object_size
is_valid_addr o begin addr =
    is_valid_object_size o.object_size && not (ltb addr begin || leb (begin + o.object_size) addr)
