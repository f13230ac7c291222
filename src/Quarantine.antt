-- ===== src/Quarantine.antt =====
-- include/quarantine.hh: the freed objects, which stay marked with canary words until they are
-- evicted first in, first out. `realfree` and `rollback` are effects: the addresses that were
-- really freed are listed, and a rollback, which does not return, ends the run.
pub mod Ring
pub mod Evict
pub mod Add
pub mod Final
pub mod Backup
use double_take.Prelude.{
  ℕ, zero, suc, ◌+◌, ◌*◌, ◌-◌, ◌/◌, ◌%◌, ◌^◌, Bool, true, false, not, ◌||◌, Option, none, some,
  List, [], ◌∷◌, ◌++◌, ltb, leb, ◌==◌, if◌then◌else◌, get_or, set, Outcome, ok, timeout, assert,
  ◌>>=◌, ◌>>◌,
}
use double_take.Defines.{
  use_after_free, word_size, sentinel_word, free_object_canary_size, free_object_canary_words,
  quarantine_total_size, quarantine_buf_size,
}
use double_take.Memory.{Memory, load_word, store_word}
use double_take.Memtrack.{Memtrack, TrackObject}
use double_take.Watchpoint.{Watchpoint, add_watchpoint}
use double_take.Canary.{FreeObject, Reports, mark_free_object, has_usage_after_free}

-- The two arrays lie one after the other in the memory that `initialize` is given.
pub record Quarantine : Type 0 where
  pub objects : List FreeObject
  pub objects_backup : List FreeObject
  pub objects_size : ℕ
  pub total_size : ℕ
  pub total_size_backup : ℕ
  pub avail_index : ℕ
  pub avail_index_backup : ℕ
  pub lr_index : ℕ
  pub lr_index_backup : ℕ

unfoldable pub initialize : Quarantine → List FreeObject → List FreeObject → ℕ → Quarantine
initialize q start next size = record q {
  avail_index = 0;
  lr_index = 0;
  total_size = 0;
  objects_size = size;
  objects = start;
  objects_backup = next;
}

-- `sizeof(freeObject)`
abbrev pub free_object_bytes : ℕ
free_object_bytes = 16

-- `memcpy` of `count` objects.
unfoldable pub copy_objects : ℕ → List FreeObject → List FreeObject → List FreeObject
copy_objects zero from to = to
copy_objects (suc count) (x ∷ from) (y ∷ to) = x ∷ copy_objects count from to
copy_objects (suc count) [] to = to
copy_objects (suc count) (x ∷ from) [] = []

unfoldable pub backup : Quarantine → Quarantine
backup q = record q {
  avail_index_backup = q.avail_index;
  lr_index_backup = q.lr_index;
  total_size_backup = q.total_size;
  objects_backup = copy_objects (q.objects_size / free_object_bytes) q.objects q.objects_backup;
}

unfoldable pub restore : Quarantine → Quarantine
restore q = record q {
  avail_index = q.avail_index_backup;
  lr_index = q.lr_index_backup;
  total_size = q.total_size_backup;
  objects = copy_objects (q.objects_size / free_object_bytes) q.objects_backup q.objects;
}

abbrev pub incr_index : ℕ → ℕ
incr_index index = (index + 1) % quarantine_buf_size

unfoldable pub has_avail_slot : Quarantine → Bool
has_avail_slot q = not (incr_index q.avail_index == q.lr_index)

-- A slot that nothing was written to yet.
abbrev pub no_object : FreeObject
no_object = record { ptr = 0; size = 0 }

unfoldable pub get_lr_object : Quarantine → FreeObject
get_lr_object q = get_or q.objects q.lr_index no_object

pub record Heap : Type 0 where
  pub quarantine : Quarantine
  pub mem : Memory
  pub reports : Reports
  pub really_freed : List ℕ

-- A run either goes on or ends in the rollback.
pub data Run : Type 0 where
  going : Heap → Run
  rolled_back : Reports → Run

unfoldable pub free_lr_object : TrackObject → Heap → Outcome Run
unfolding get_lr_object
free_lr_object raw h = do
  let q = h.quarantine
  let object = get_lr_object q
  (has_uaf, r) ← has_usage_after_free h.reports raw h.mem object
  let h' = record h {
    reports = r;
    really_freed = h.really_freed ++ object.ptr ∷ [];
    quarantine = record q {
      total_size = (q.total_size + 2 ^ 64 - object.size) % 2 ^ 64;
      lr_index = incr_index q.lr_index;
    };
  }
  ok (if has_uaf then rolled_back r else going h')

unfoldable pub is_full : Quarantine → Bool
unfolding has_avail_slot
is_full q = ltb quarantine_total_size q.total_size || not (has_avail_slot q)

-- The loop of `addFreeObject`, with the rounds left.
unfoldable pub evict : ℕ → TrackObject → Heap → Outcome Run
evict zero raw h = timeout
evict (suc fuel) raw h = elim (is_full h.quarantine) [
  | false ↦ ok (going h)
  | true ↦ do
    run ← free_lr_object raw h
    elim run [ going h' ↦ evict fuel raw h' | rolled_back r ↦ ok (rolled_back r) ]
]

-- The rest of `addFreeObject`, if it comes so far.
unfoldable pub take_slot : Run → Run
take_slot (going h) = going (record h {
  quarantine = record h.quarantine { avail_index = incr_index h.quarantine.avail_index };
})
take_slot (rolled_back r) = rolled_back r

-- The slot that `addFreeObject` fills.
unfoldable pub put_object : Quarantine → ℕ → ℕ → Quarantine
put_object q ptr size = record q {
  objects = set q.objects q.avail_index (record { ptr = ptr; size = size });
  total_size = (q.total_size + size) % 2 ^ 64;
}

unfoldable pub add_free_object : ℕ → TrackObject → Heap → ℕ → ℕ → Outcome (Bool × Run)
unfolding put_object mark_free_object evict take_slot
add_free_object fuel raw h ptr size =
    if leb quarantine_total_size size then ok (false, going h) else (do
      mem ← mark_free_object h.mem ptr size
      run ← evict fuel raw (record h { mem = mem; quarantine = put_object h.quarantine ptr size })
      ok (true, take_slot run))

unfoldable pub retrieve_lr_object : Quarantine → Option FreeObject × Quarantine
retrieve_lr_object q = if q.lr_index == q.avail_index then (none, q) else (
  some (get_or q.objects q.lr_index no_object),
  record q { lr_index = incr_index q.lr_index },
)

-- The loop of `finalUAFCheck`, which stops at the fourth object with an error.
unfoldable pub final_check_from :
    ℕ
    → TrackObject
    → Memory
    → Quarantine
    → Reports
    → ℕ
    → Bool
    → Outcome (Bool × Quarantine × Reports)
final_check_from zero raw mem q r errors has_uaf = timeout
final_check_from (suc fuel) raw mem q r errors has_uaf = do
  let (retrieved, q') = retrieve_lr_object q
  elim retrieved [
    | none ↦ ok (has_uaf, q', r)
    | some object ↦ do
      (used, r') ← has_usage_after_free r raw mem object
      elim used [
        | false ↦ final_check_from fuel raw mem q' r' errors has_uaf
        | true ↦ elim (errors + 1 == 4) [
          | true ↦ ok (true, q', r')
          | false ↦ final_check_from fuel raw mem q' r' (errors + 1) true
        ]
      ]
  ]

unfoldable pub final_uaf_check :
    ℕ → TrackObject → Memory → Quarantine → Reports → Outcome (Bool × Quarantine × Reports)
unfolding final_check_from
final_uaf_check fuel raw mem q r = final_check_from fuel raw mem q r 0 false
