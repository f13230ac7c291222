-- ===== src/CallSite/Laws.antt =====
-- What `save` and `saveAndCheck` of include/callsite.hh leave, and what the latter reports.
use double_take.Prelude.{
  ℕ, suc, ◌+◌, ◌≤◌, ◌≡◌, refl, Bool, true, false, ◌&&◌, List, [], ◌∷◌, ◌++◌, ◌==◌, length, ok,
  arith, eq→==, length-append, get_elem?-append, set-append, ==→eq, ap, ◌∙◌,
}
use mathlib.Core.List.{append_assoc}
use double_take.CallSite.{CallSite, save_from, save, check_from, save_and_check}

-- The array with its first entries replaced.
pub overwrite : List ℕ → List ℕ → List ℕ
overwrite xs [] = xs
overwrite [] (a ∷ addr) = []
overwrite (x ∷ xs) (a ∷ addr) = a ∷ overwrite xs addr

-- Whether the addresses are the first entries of the array.
pub starts_with : List ℕ → List ℕ → Bool
starts_with xs [] = true
starts_with [] (a ∷ addr) = false
starts_with (x ∷ xs) (a ∷ addr) = x == a && starts_with xs addr

-- The loops, behind the entries that they have dealt with.
save_from-overwrite :
    (pre xs addr : List ℕ) (i : ℕ)
    → i ≡ length pre
    → length addr ≤ length xs
    → save_from (pre ++ xs) i addr ≡ ok (pre ++ overwrite xs addr)
unfolding save_from overwrite
save_from-overwrite pre xs [] i e h = refl
save_from-overwrite pre [] (a ∷ addr) i e h = absurd (omega arith)
save_from-overwrite pre (x ∷ xs) (a ∷ addr) i e h =
    rw (get_elem?-append pre x xs i e, set-append pre x xs i a e, save_from)
      (rw (← append_assoc pre (a ∷ []) xs, ← append_assoc pre (a ∷ []) (overwrite xs addr))
        (save_from-overwrite (pre ++ a ∷ []) xs addr (i + 1)
          (omega (arith, length-append pre (a ∷ []))) (omega arith)))

-- One round.
check_from_step :
    (pre xs addr : List ℕ) (i x a : ℕ) (same : Bool)
    → i ≡ length pre
    → check_from (pre ++ x ∷ xs) i (a ∷ addr) same
      ≡ check_from (pre ++ a ∷ xs) (i + 1) addr (x == a && same)
unfolding check_from
check_from_step pre xs addr i x a same e =
    ground (arith, get_elem?-append pre x xs i e, set-append pre x xs i a e, ==→eq x a)

&&_regroup : (a b c : Bool) → (b && (a && c)) ≡ ((a && b) && c)
&&_regroup a b c = ground arith

check_from-overwrite :
    (pre xs addr : List ℕ) (i : ℕ) (same : Bool)
    → i ≡ length pre
    → length addr ≤ length xs
    → check_from (pre ++ xs) i addr same
      ≡ ok (starts_with xs addr && same, pre ++ overwrite xs addr)
unfolding check_from overwrite starts_with
check_from-overwrite pre xs [] i same e h = refl
check_from-overwrite pre [] (a ∷ addr) i same e h = absurd (omega arith)
check_from-overwrite pre (x ∷ xs) (a ∷ addr) i same e h =
    check_from_step pre xs addr i x a same e
    ∙ rw
        (
          ← append_assoc pre (a ∷ []) xs,
          ← append_assoc pre (a ∷ []) (overwrite xs addr),
          ← &&_regroup (x == a) (starts_with xs addr) same,
        )
        (check_from-overwrite (pre ++ a ∷ []) xs addr (i + 1) (x == a && same)
          (omega (arith, length-append pre (a ∷ []))) (omega arith))

length-overwrite :
    (xs addr : List ℕ) → length addr ≤ length xs → length (overwrite xs addr) ≡ length xs
unfolding overwrite
length-overwrite xs [] h = refl
length-overwrite [] (a ∷ addr) h = refl
length-overwrite (x ∷ xs) (a ∷ addr) h = ap suc (length-overwrite xs addr (omega arith))

starts_with-overwrite :
    (xs addr : List ℕ) → length addr ≤ length xs → starts_with (overwrite xs addr) addr ≡ true
unfolding overwrite starts_with
starts_with-overwrite xs [] h = refl
starts_with-overwrite [] (a ∷ addr) h = absurd (omega arith)
starts_with-overwrite (x ∷ xs) (a ∷ addr) h =
    ground (arith, starts_with-overwrite xs addr (omega arith), eq→== a a)

module _ (c : CallSite) (addr : List ℕ) (h : length addr ≤ length c.callsite) where
  -- `save` records a stack that fits: its depth, and its addresses in the first entries.
  pub save-overwrite :
      save c addr ≡ ok (record { depth = length addr; callsite = overwrite c.callsite addr })
  unfolding save
  save-overwrite = rw (save_from-overwrite [] c.callsite addr 0 refl h, save)

  -- `saveAndCheck` records a stack that fits: its depth, and its addresses in the first
  -- entries; it reports whether they were the first entries before, whatever depth was
  -- recorded.
  pub save_and_check-overwrite :
      save_and_check c addr
      ≡ ok (
        starts_with c.callsite addr,
        record { depth = length addr; callsite = overwrite c.callsite addr },
      )
  unfolding save_and_check
  save_and_check-overwrite =
      rw (check_from-overwrite [] c.callsite addr 0 true refl h, save_and_check)
        (ap
          (λ (b : Bool).
            ok (b, record { depth = length addr; callsite = overwrite c.callsite addr }))
          (&&_true _))
    where
      &&_true : (b : Bool) → (b && true) ≡ b
      &&_true b = ground arith

overwrite_twice : (xs addr : List ℕ) → overwrite (overwrite xs addr) addr ≡ overwrite xs addr
unfolding overwrite
overwrite_twice xs [] = refl
overwrite_twice [] (a ∷ addr) = refl
overwrite_twice (x ∷ xs) (a ∷ addr) = ap (λ l. a ∷ l) (overwrite_twice xs addr)

-- For a stack that fits into the record: `saveAndCheck` says whether the record begins with
-- its addresses; asked again, it says that the stack is the same, and changes nothing.
pub save_and_check_twice :
    (c : CallSite) (addr : List ℕ)
    → length addr ≤ length c.callsite
    → (c' : CallSite) × (save_and_check c addr ≡ ok (starts_with c.callsite addr, c'))
      × (length c'.callsite ≡ length c.callsite)
      × (save_and_check c' addr ≡ ok (true, c'))
save_and_check_twice c addr h =
    let c' : CallSite = record { depth = length addr; callsite = overwrite c.callsite addr } in
    let len = length-overwrite c.callsite addr h in
    (
      c',
      save_and_check-overwrite c addr h,
      len,
      save_and_check-overwrite c' addr (omega (arith, len))
          ∙ rw (starts_with-overwrite c.callsite addr h, overwrite_twice c.callsite addr),
    )
