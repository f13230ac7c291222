-- ===== src/Watchpoint/Find.antt =====
-- Which watchpoint `findFaultyObject` of source/watchpoint.cpp returns.
use double_take.Prelude.{
  ℕ, zero, suc, ◌+◌, ◌≤◌, ◌<◌, ◌≡◌, ◌≢◌, refl, inl, inr, Bool, true, false, not, ◌||◌, Bool-cases,
  Option, none, some, ◌==◌, if◌then◌else◌, length, set, length-set, get_or-set_self, get_or-set_ne,
  arith, ne→==, sym, ◌∙◌, ap,
}
use native.Mathlib.Decide.{ℕ_discrete}
use double_take.Memory.{Memory, load_word}
use double_take.Watchpoint.{
  FaultyObject, no_object, Watchpoint, find_faulty_from, find_faulty_object, install_from,
  install_watchpoints,
}
use double_take.Watchpoint.Laws.{IsBounded, entry}

-- Whether the watched word has another value than when it was last looked at; a single
-- watchpoint counts as changed whenever it traps.
abbrev pub changed : Watchpoint → Memory → ℕ → Bool
changed w mem i =
    not (load_word mem (entry w i).faultyaddr == (entry w i).currentvalue) || w.num_watchpoints == 1

abbrev pub LastChanged : Watchpoint → Memory → ℕ → Option ℕ → Type 0
LastChanged w mem n none = (j : ℕ) → j < n → changed w mem j ≡ false
LastChanged w mem n (some i) =
    (i < n) × (changed w mem i ≡ true) × ((j : ℕ) → i < j → j < n → changed w mem j ≡ false)

if_true {ℓ} : {A : Type ℓ} {b : Bool} → b ≡ true → (x y : A) → (if b then x else y) ≡ x
if_true e x y = rw e

if_false {ℓ} : {A : Type ℓ} {b : Bool} → b ≡ false → (x y : A) → (if b then x else y) ≡ y
if_false e x y = rw e

module _ (w0 : Watchpoint) (mem : Memory) where
  skipped :
      (i : ℕ) (object : Option ℕ)
      → LastChanged w0 mem i object
      → changed w0 mem i ≡ false
      → LastChanged w0 mem (i + 1) object
  skipped i none last kept =
      λ j below. elim (ℕ_discrete j i) [ yes same ↦ rw same kept | no other ↦ last j (omega arith) ]
  skipped i (some k) (inside, hit, last) kept = (
    omega arith,
    hit,
    λ j above below. elim (ℕ_discrete j i) [
      | yes same ↦ rw same kept
      | no other ↦ last j above (omega arith)
    ],
  )

  one_more :
      (i : ℕ) (object : Option ℕ)
      → LastChanged w0 mem i object
      → LastChanged w0 mem (i + 1) (if changed w0 mem i then some i else object)
  one_more i object last = elim (Bool-cases (changed w0 mem i)) [
    | inl hit ↦
        rw (if_true hit (some i) object)
          (omega arith, hit, λ j above below. absurd (omega (arith, above, below)))
    | inr kept ↦ rw (if_false kept (some i) object) (skipped i object last kept)
  ]

  find_faulty_from-LastChanged :
      (rounds i n : ℕ) (w : Watchpoint) (object : Option ℕ)
      → i + rounds ≡ n
      → w.num_watchpoints ≡ w0.num_watchpoints
      → ((j : ℕ) → i ≤ j → entry w j ≡ entry w0 j)
      → LastChanged w0 mem i object
      → LastChanged w0 mem n (find_faulty_from rounds i mem w object).0
  unfolding find_faulty_from
  find_faulty_from-LastChanged zero i n w object e same agree last =
      let e' : i ≡ n = omega arith in rw (← e') last
  find_faulty_from-LastChanged (suc rounds) i n w object e same agree last =
      let now : changed w mem i ≡ changed w0 mem i = rw (agree i (omega arith), same) in
      let w1 : Watchpoint =
        if changed w mem i
        then record w {
          wp =
              set w.wp i
                (record (entry w i) { currentvalue = load_word mem (entry w i).faultyaddr });
        }
        else w in
      find_faulty_from-LastChanged rounds (i + 1) n w1 (if changed w mem i then some i else object)
        (omega arith)
        (elim (Bool-cases (changed w mem i)) [ inl hit ↦ rw hit same | inr kept ↦ rw kept same ])
        (λ j h. elim (Bool-cases (changed w mem i)) [
          | inl hit ↦ rw hit (
              get_or-set_ne w.wp _ no_object (λ f. absurd (omega (arith, f)))
              ∙ agree j (omega arith))
          | inr kept ↦ rw kept (agree j (omega arith))
        ])
        (rw now (one_more i object last))

abbrev pub refreshed : Memory → FaultyObject → FaultyObject
refreshed mem o = record o { currentvalue = load_word mem o.faultyaddr }

install_from-count :
    (rounds i : ℕ) (mem : Memory) (w : Watchpoint)
    → (install_from rounds i mem w).num_watchpoints ≡ w.num_watchpoints
unfolding install_from
install_from-count zero i mem w = refl
install_from-count (suc rounds) i mem w =
    install_from-count rounds (i + 1) mem (record w { wp = set w.wp i (refreshed mem (entry w i)) })

install_from-before :
    (rounds i : ℕ) (mem : Memory) (w : Watchpoint) (j : ℕ)
    → j < i
    → entry (install_from rounds i mem w) j ≡ entry w j
unfolding install_from
install_from-before zero i mem w j h = refl
install_from-before (suc rounds) i mem w j h =
    install_from-before rounds (i + 1) mem
      (record w { wp = set w.wp i (refreshed mem (entry w i)) }) j (omega arith)
    ∙ get_or-set_ne w.wp (refreshed mem (entry w i)) no_object (λ e. absurd (omega (arith, e)))

install_from-entry :
    (rounds i : ℕ) (mem : Memory) (w : Watchpoint) (j : ℕ)
    → i + rounds ≤ length w.wp
    → i ≤ j
    → j < i + rounds
    → entry (install_from rounds i mem w) j ≡ refreshed mem (entry w j)
unfolding install_from
install_from-entry zero i mem w j room lo hi = absurd (omega (arith, lo, hi))
install_from-entry (suc rounds) i mem w j room lo hi =
    let o : FaultyObject = refreshed mem (entry w i) in
    let w1 : Watchpoint = record w { wp = set w.wp i o } in
    elim (ℕ_discrete j i) [
      | yes same ↦ rw same (
          install_from-before rounds (i + 1) mem w1 i (omega arith)
          ∙ get_or-set_self w.wp i o no_object (omega arith))
      | no other ↦
          install_from-entry rounds (i + 1) mem w1 j (omega (arith, length-set w.wp i o))
            (omega arith) (omega arith)
          ∙ ap (refreshed mem) (get_or-set_ne w.wp o no_object (λ e. other (sym e)))
    ]

-- The word of the watchpoint has another value in `mem'`.
abbrev pub Written : Watchpoint → Memory → Memory → ℕ → Type 0
Written w mem mem' i = load_word mem' (entry w i).faultyaddr ≢ load_word mem (entry w i).faultyaddr

abbrev pub LastWritten : Watchpoint → Memory → Memory → Option ℕ → Type 0
LastWritten w mem mem' none = (j : ℕ) → j < w.num_watchpoints → ¬ Written w mem mem' j
LastWritten w mem mem' (some i) =
    (i < w.num_watchpoints)
    × Written w mem mem' i
    × ((j : ℕ) → i < j → j < w.num_watchpoints → ¬ Written w mem mem' j)

installed_count :
    (mem : Memory) (w : Watchpoint)
    → (install_watchpoints mem w).num_watchpoints ≡ w.num_watchpoints
unfolding install_watchpoints
installed_count mem w = install_from-count w.num_watchpoints 0 mem w

module _ (w : Watchpoint) (b : IsBounded w) (mem mem' : Memory)
    (several : 2 ≤ w.num_watchpoints) where
  changed-install :
      (j : ℕ)
      → j < w.num_watchpoints
      → changed (install_watchpoints mem w) mem' j
        ≡ not (load_word mem' (entry w j).faultyaddr == load_word mem (entry w j).faultyaddr)
  unfolding install_watchpoints
  changed-install j h = ground (
    arith,
    install_from-entry w.num_watchpoints 0 mem w j (omega (arith, b.counted, b.sized)) (omega arith)
        (omega arith),
    install_from-count w.num_watchpoints 0 mem w,
  )

  kept :
      (j : ℕ)
      → j < w.num_watchpoints
      → changed (install_watchpoints mem w) mem' j ≡ false
      → ¬ Written w mem mem' j
  kept j h e ne = absurd (ground (arith, changed-install j h, e, ne, ne→== _ _ ne))

  hit :
      (j : ℕ)
      → j < w.num_watchpoints
      → changed (install_watchpoints mem w) mem' j ≡ true
      → Written w mem mem' j
  hit j h e same = absurd (ground (arith, changed-install j h, e, same))

  last_written :
      (o : Option ℕ)
      → LastChanged (install_watchpoints mem w) mem' w.num_watchpoints o
      → LastWritten w mem mem' o
  last_written none last = λ j h. kept j h (last j h)
  last_written (some i) (inside, e, last) =
      (inside, hit i inside e, λ j above below. kept j below (last j above below))

  -- With two watchpoints or more, and four at most, installed when the memory was `mem`,
  -- `findFaultyObject` returns, when the memory is `mem'`, the last one whose word has another
  -- value; it returns false exactly if none has.
  pub find_faulty_object-LastWritten :
      LastWritten w mem mem' (find_faulty_object (install_watchpoints mem w) mem').0
  unfolding find_faulty_object
  find_faulty_object-LastWritten =
      let w1 : Watchpoint = install_watchpoints mem w in
      let count : w1.num_watchpoints ≡ w.num_watchpoints = installed_count mem w in
      last_written _ (
        find_faulty_from-LastChanged w1 mem' w1.num_watchpoints 0 w.num_watchpoints w1 none
          (omega (arith, count)) refl (λ j h. refl) (λ j h. absurd (omega (arith, h))))
