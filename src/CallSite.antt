-- ===== src/CallSite.antt =====
-- include/callsite.hh: the call stack of an allocation, a release or a faulty access. The stack is
-- the list of its addresses, whose length is the source's `depth`.
pub mod Laws
use double_take.Prelude.{
  ℕ, zero, suc, ◌+◌, Bool, true, false, ◌&&◌, Option, none, some, List, [], ◌∷◌, ◌==◌,
  if◌then◌else◌, get_elem?, set, length, replicate, Outcome, ok, fault,
}
use double_take.Defines.{callsite_maximum_length}

pub record CallSite : Type 0 where
  pub depth : ℕ
  pub callsite : List ℕ

abbrev pub fresh : CallSite
fresh = record { depth = 0; callsite = replicate callsite_maximum_length 0 }

-- The loop of `save`, from index `i`: a fault past the end of the array.
pub save_from : List ℕ → ℕ → List ℕ → Outcome (List ℕ)
save_from callsite i [] = ok callsite
save_from callsite i (a ∷ addr) = elim (get_elem? callsite i) [
  | none ↦ fault
  | some _ ↦ save_from (set callsite i a) (i + 1) addr
]

unfoldable pub save : CallSite → List ℕ → Outcome CallSite
unfolding save_from
save c addr = elim (save_from c.callsite 0 addr) [
  | ok callsite ↦ ok (record { depth = length addr; callsite = callsite })
  | _ ↦ fault
]

-- The loop of `saveAndCheck`, which writes only where the addresses differ.
pub check_from : List ℕ → ℕ → List ℕ → Bool → Outcome (Bool × List ℕ)
check_from callsite i [] is_same = ok (is_same, callsite)
check_from callsite i (a ∷ addr) is_same = elim (get_elem? callsite i) [
  | none ↦ fault
  | some old ↦
      check_from (if old == a then callsite else set callsite i a) (i + 1) addr
        (old == a && is_same)
]

unfoldable pub save_and_check : CallSite → List ℕ → Outcome (Bool × CallSite)
unfolding check_from
save_and_check c addr = elim (check_from c.callsite 0 addr true) [
  | ok r ↦ ok (r.0, record { depth = length addr; callsite = r.1 })
  | _ ↦ fault
]
