-- ===== src/RecordEntries.antt =====
-- include/recordentries.hh: the pool in which a thread records the events of an epoch and from
-- which it replays them. A pointer to an entry is its place in the pool; `mmap` gives the memory.
pub mod Replay
use double_take.Prelude.{
  ℕ, zero, suc, ◌+◌, ◌*◌, Bool, true, false, Option, none, some, List, [], ◌∷◌, ltb, if◌then◌else◌,
  get_elem?, set, Outcome, ok, aborted, fault, ◌>>=◌,
}
use double_take.Defines.{page_size, alignup}

module _ (A : Type 0) where
  pub record RecordEntries : Type 0 where
    pub start : List A
    pub total : ℕ
    pub cur : ℕ
    pub size : ℕ
    pub iter : ℕ

module _ {A : Type 0} where
  -- `mmap` of nothing aborts.
  unfoldable pub initialize : Option (List A) → ℕ → ℕ → Outcome (RecordEntries A)
  initialize none entry_bytes entries = aborted
  initialize (some memory) entry_bytes entries = ok (record {
    start = memory;
    total = entries;
    cur = 0;
    size = alignup (entries * entry_bytes) page_size;
    iter = 0;
  })

  unfoldable pub alloc : RecordEntries A → Outcome (ℕ × RecordEntries A)
  alloc r = if ltb r.cur r.total then ok (r.cur, record r { cur = r.cur + 1 }) else aborted

  unfoldable pub cleanup : RecordEntries A → RecordEntries A
  cleanup r = record r { iter = 0; cur = 0 }

  unfoldable pub prepare_rollback : RecordEntries A → RecordEntries A
  prepare_rollback r = record r { iter = 0 }

  unfoldable pub prepare_iteration : RecordEntries A → RecordEntries A
  prepare_iteration r = record r { iter = 0 }

  unfoldable pub next_iter_entry : RecordEntries A → Option ℕ × RecordEntries A
  next_iter_entry r =
      (if ltb (r.iter + 1) r.cur then some (r.iter + 1) else none, record r { iter = r.iter + 1 })

  unfoldable pub advance_entry : RecordEntries A → RecordEntries A
  advance_entry r = record r { iter = r.iter + 1 }

  unfoldable pub retrieve_iter_entry : RecordEntries A → Option ℕ × RecordEntries A
  retrieve_iter_entry r =
      if ltb r.iter r.cur then (some r.iter, record r { iter = r.iter + 1 }) else (none, r)

  unfoldable pub get_entry : RecordEntries A → Option ℕ
  get_entry r = if ltb r.iter r.cur then some r.iter else none

  unfoldable pub first_iter_entry : RecordEntries A → ℕ
  first_iter_entry r = r.iter

  unfoldable pub get_entries_numb : RecordEntries A → ℕ
  get_entries_numb r = r.cur
