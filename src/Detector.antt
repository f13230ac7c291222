-- ===== src/Detector.antt =====
-- The guard of a heap object: `setSentinels` of include/xmemory.hh, and `checkObjectOverflow` of
-- include/sentinelmap.hh, which looks for what was written over it.
pub mod Guard
pub mod Put
pub mod Check
pub mod Exact
pub mod RoundTrip
use double_take.Prelude.{
  ℕ, zero, suc, ◌+◌, ◌-◌, ◌*◌, ◌/◌, ◌%◌, ◌^◌, bit_and, Bool, true, false, not, ◌&&◌, ◌||◌, ltb, leb,
  ◌==◌, if◌then◌else◌, Outcome, ok, timeout, ◌>>=◌,
}
use double_take.Defines.{overflow, word_size, magic_byte_not_aligned}
use double_take.Memory.{Memory, load_byte, put_byte, load_word}
use double_take.Memtrack.{TrackObject}
use double_take.Watchpoint.{add_watchpoint}
use double_take.Canary.{Reports}
use double_take.SentinelMap
use double_take.SentinelMap.{
  SentinelMap, mark_sentinel_at, set_sentinel_at, check_sentinel, check_and_clear_sentinel,
}

-- `xdefines::WORD_SIZE_MASK`
abbrev word_size_mask : ℕ
word_size_mask = word_size - 1

-- `blockSize - sz`, a `size_t`.
unfoldable pub spare : ℕ → ℕ → ℕ
spare block_size sz = (block_size + 2 ^ 64 - sz) % 2 ^ 64

-- The bytes of the last word of the object that are the object's.
unfoldable pub non_aligned_bytes : ℕ → ℕ
non_aligned_bytes sz = bit_and sz word_size_mask

-- `for (i = 1; i < setBytes; i++) p[i] = MAGIC_BYTE_NOT_ALIGNED;` from the byte `i` on.
unfoldable pub fill_magic : ℕ → Memory → ℕ → Memory
unfolding put_byte
fill_magic zero mem addr = mem
fill_magic (suc rounds) mem addr =
    fill_magic rounds (put_byte mem addr magic_byte_not_aligned) (addr + 1)

-- The bytes that fill the last word of the object up.
unfoldable pub put_magic : Memory → ℕ → ℕ → Memory
unfolding put_byte fill_magic
put_magic mem p set_bytes =
    if leb 2 set_bytes
    then fill_magic (set_bytes - 1) (put_byte mem p (set_bytes - 1)) (p + 1)
    else (if set_bytes == 1 then put_byte mem p magic_byte_not_aligned else mem)

unfoldable pub set_sentinels : SentinelMap → Memory → ℕ → ℕ → ℕ → Outcome (SentinelMap × Memory)
unfolding put_magic
set_sentinels s mem ptr block_size sz = do
  let offset = spare block_size sz
  let p = ptr + sz
  let rest = non_aligned_bytes sz
  let startp = p - rest
  (if rest == 0 then set_sentinel_at s mem p else (do
    let mem' = put_magic mem p (word_size - rest)
    s' ← mark_sentinel_at s startp
    (if ltb word_size offset then set_sentinel_at s' mem' (startp + word_size) else ok (s', mem'))))

-- `for (i = 1; i < setBytes; i++) if (p[i] != MAGIC_BYTE_NOT_ALIGNED) ...` from the byte `i` on.
unfoldable pub some_not_magic : ℕ → Memory → ℕ → Bool
some_not_magic zero mem addr = false
some_not_magic (suc rounds) mem addr =
    let rest = some_not_magic rounds mem (addr + 1) in
    if load_byte mem addr == magic_byte_not_aligned then rest else true

unfoldable pub magic_overwritten : Memory → ℕ → ℕ → Bool
unfolding some_not_magic
magic_overwritten mem p set_bytes =
    if ltb 1 set_bytes && (load_byte mem p == set_bytes - 1)
    then some_not_magic (set_bytes - 1) mem (p + 1)
    else (if set_bytes == 1 then not (load_byte mem p == magic_byte_not_aligned) else true)

-- `watchpoint::getInstance().addWatchpoint` for a guard that was overwritten.
unfoldable pub report_overflow : Reports → TrackObject → Memory → ℕ → ℕ → ℕ → Outcome Reports
report_overflow r raw mem addr ptr sz = do
  (failed, w, t) ←
      add_watchpoint r.watchpoint r.memtrack raw addr (load_word mem addr) overflow ptr sz
  ok (record { watchpoint = w; memtrack = t })

unfoldable pub report_if : Bool → Reports → TrackObject → Memory → ℕ → ℕ → ℕ → Outcome Reports
unfolding report_overflow
report_if found r raw mem addr ptr sz =
    if found then report_overflow r raw mem addr ptr sz else ok r

-- `cleanSentinels` also takes the mark of the word off.
unfoldable pub check_next : Bool → SentinelMap → Memory → ℕ → Outcome (Bool × SentinelMap)
check_next clean_sentinels s mem nextp =
    if clean_sentinels
    then check_and_clear_sentinel s mem nextp
    else ok (check_sentinel mem nextp, s)

unfoldable pub clean_at : Bool → SentinelMap → ℕ → Outcome SentinelMap
clean_at clean_sentinels s addr = if clean_sentinels then SentinelMap.clear s addr else ok s

unfoldable pub check_object_overflow :
    Reports
    → TrackObject
    → SentinelMap
    → Memory
    → ℕ
    → ℕ
    → ℕ
    → Bool
    → Outcome (Bool × SentinelMap × Reports)
unfolding magic_overwritten report_if check_next clean_at
check_object_overflow r raw s mem ptr block_size sz clean_sentinels = do
  let offset = spare block_size sz
  let p = ptr + sz
  let rest = non_aligned_bytes sz
  let startp = p - rest
  let has_overflow =
      if rest == 0 then check_sentinel mem p else magic_overwritten mem p (word_size - rest)
  let nextp = startp + word_size
  (has_overflow_next, s1) ←
      (if not (rest == 0) && ltb word_size offset
        then check_next clean_sentinels s mem nextp
        else ok (false, s))
  r1 ← report_if has_overflow_next r raw mem nextp ptr sz
  s2 ← clean_at clean_sentinels s1 startp
  r2 ← report_if has_overflow r1 raw mem startp ptr sz
  ok (has_overflow || has_overflow_next, s2, r2)
