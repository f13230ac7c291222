-- ===== src/Canary.antt =====
-- include/quarantine.hh: the canary words that mark a freed object, and the check of them.
pub mod Laws
pub mod Detect
use double_take.Prelude.{
  ℕ, zero, suc, ◌+◌, ◌*◌, ◌-◌, ◌/◌, ◌%◌, ◌^◌, Bool, true, false, not, ◌||◌, Option, none, some,
  List, [], ◌∷◌, ◌++◌, ltb, leb, ◌==◌, if◌then◌else◌, get_or, set, Outcome, ok, timeout, assert,
  ◌>>=◌, ◌>>◌,
}
use double_take.Defines.{
  use_after_free, word_size, sentinel_word, free_object_canary_size, free_object_canary_words,
  quarantine_total_size, quarantine_buf_size,
}
use double_take.Memory.{Memory, load_word, store_word}
use double_take.Memtrack.{Memtrack, TrackObject}
use double_take.Watchpoint.{Watchpoint, add_watchpoint}

pub record FreeObject : Type 0 where
  pub ptr : ℕ
  pub size : ℕ

-- The number of words that are marked.
unfoldable pub get_mark_words : ℕ → Outcome ℕ
get_mark_words size =
    assert (size % word_size == 0)
    >> ok (if ltb free_object_canary_size size then free_object_canary_words else size / word_size)

-- The loop of `markFreeObject`, from the address on.
unfoldable pub mark_words : ℕ → Memory → ℕ → Memory
mark_words zero mem addr = mem
mark_words (suc words) mem addr =
    mark_words words (store_word mem addr sentinel_word) (addr + word_size)

unfoldable pub mark_free_object : Memory → ℕ → ℕ → Outcome Memory
unfolding get_mark_words mark_words
mark_free_object mem ptr size = do words ← get_mark_words size; ok (mark_words words mem ptr)

-- What the checks report to: the watchpoints, and the tracked objects.
pub record Reports : Type 0 where
  pub watchpoint : Watchpoint
  pub memtrack : Memtrack

-- `watchpoint::getInstance().addWatchpoint` for a word that was used after it was freed.
unfoldable pub report_use : Reports → TrackObject → Memory → ℕ → FreeObject → Outcome Reports
report_use r raw mem addr object = do
  (failed, w, t) ←
      add_watchpoint r.watchpoint r.memtrack raw addr (load_word mem addr) use_after_free object.ptr
        object.size
  ok (record { watchpoint = w; memtrack = t })

-- The loop of `hasUsageAfterFree` over the words from `addr` on.
unfoldable pub check_words :
    ℕ → Reports → TrackObject → Memory → ℕ → FreeObject → Bool → Outcome (Bool × Reports)
unfolding report_use
check_words zero r raw mem addr object has_uaf = ok (has_uaf, r)
check_words (suc words) r raw mem addr object has_uaf = elim (load_word mem addr == sentinel_word) [
  | true ↦ check_words words r raw mem (addr + word_size) object has_uaf
  | false ↦ do
    r' ← report_use r raw mem addr object
    check_words words r' raw mem (addr + word_size) object true
]

unfoldable pub has_usage_after_free :
    Reports → TrackObject → Memory → FreeObject → Outcome (Bool × Reports)
unfolding check_words
has_usage_after_free r raw mem object = do
  words ← get_mark_words object.size
  check_words words r raw mem object.ptr object false
