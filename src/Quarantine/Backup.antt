-- ===== src/Quarantine/Backup.antt =====
-- The quarantine of include/quarantine.hh is empty at first, and a rollback brings back what was
-- saved.
use double_take.Prelude.{ℕ, ◌/◌, ◌≡◌, refl, List, [], ◌∷◌, length, arith, ap}
use double_take.Defines.{quarantine_buf_size}
use double_take.Canary.{FreeObject}
use double_take.Quarantine.{
  Quarantine, initialize, backup, restore, copy_objects, free_object_bytes,
}
use double_take.Quarantine.Ring.{Holds, Stored, sum_sizes}

copy_objects-all :
    (from to : List FreeObject)
    → length from ≡ length to
    → copy_objects (length from) from to ≡ from
unfolding copy_objects
copy_objects-all [] [] e = refl
copy_objects-all [] (y ∷ to) e = absurd (omega (arith, e))
copy_objects-all (x ∷ from) [] e = absurd (omega (arith, e))
copy_objects-all (x ∷ from) (y ∷ to) e =
    ap (λ l. x ∷ l) (copy_objects-all from to (omega (arith, e)))

copied :
    (from to : List FreeObject) (n : ℕ)
    → length from ≡ quarantine_buf_size
    → length to ≡ quarantine_buf_size
    → n ≡ quarantine_buf_size
    → copy_objects n from to ≡ from
copied from to n e e' size =
    let count : n ≡ length from = omega (arith, e, size) in
    rw count (copy_objects-all from to (omega (arith, e, e')))

copied_back :
    (xs ys zs : List FreeObject) (n : ℕ)
    → length xs ≡ quarantine_buf_size
    → length ys ≡ quarantine_buf_size
    → length zs ≡ quarantine_buf_size
    → n ≡ quarantine_buf_size
    → copy_objects n (copy_objects n xs ys) zs ≡ xs
copied_back xs ys zs n ex ey ez size = rw (copied xs ys n ex ey size) (copied xs zs n ex ez size)

-- A new quarantine holds nothing, whatever its memory was.
pub initialize-Holds :
    (q : Quarantine) (start next : List FreeObject) (size : ℕ)
    → length start ≡ quarantine_buf_size
    → Holds (initialize q start next size) []
unfolding initialize Stored sum_sizes
initialize-Holds q start next size sized = record {
  has = record {
    sized = sized;
    oldest = omega arith;
    stored = omega arith;
    counted = omega arith;
    next = omega arith;
    total = refl;
  };
  few = omega arith;
  small = omega arith;
}

-- Of a quarantine that holds `xs`, where both arrays have 1024 objects and the size is theirs:
-- `restore` after `backup` makes it hold `xs` again, whatever became of the ring, its indices
-- and its total size in between.
pub restore-backup :
    (q : Quarantine) (xs objects : List FreeObject) (total avail lr : ℕ)
    → Holds q xs
    → length q.objects_backup ≡ quarantine_buf_size
    → length objects ≡ quarantine_buf_size
    → q.objects_size / free_object_bytes ≡ quarantine_buf_size
    → Holds
        (restore (record (backup q) {
          objects = objects;
          total_size = total;
          avail_index = avail;
          lr_index = lr;
        }))
        xs
unfolding backup restore
restore-backup q xs objects total avail lr held sized sized' size =
    let same = copied_back q.objects q.objects_backup objects _ held.has.sized sized sized' size in
    record {
      has = record {
        sized = rw same held.has.sized;
        oldest = held.has.oldest;
        stored = rw same held.has.stored;
        counted = held.has.counted;
        next = held.has.next;
        total = held.has.total;
      };
      few = held.few;
      small = held.small;
    }
