-- ===== src/Sync/Order.antt =====
-- The steps of a replay keep its invariant: include/xsync.hh.
use double_take.Prelude.{
  ℕ, ◌≤◌, ◌≡◌, ◌≢◌, inl, inr, refl, sym, ap, ◌∙◌, Bool, true, false, Option, some, ◌==◌, get_elem?,
  ==→eq, eq→==, ne→==, Bool-cases, arith,
}
use double_take.Sync.{EventPtr, World, assign}
use double_take.Sync.Inv.{iter, Passed, IsCurrent, Inv}

pub assign_self {ℓ} : {A : Type ℓ} (f : ℕ → A) (v : ℕ) (a : A) → assign f v a v ≡ a
assign_self f v a = rw (eq→== v v refl) refl

pub assign_ne {ℓ} : {A : Type ℓ} (f : ℕ → A) (v u : ℕ) (a : A) → v ≢ u → assign f v a u ≡ f u
assign_ne f v u a ne = rw (ne→== v u ne) refl

-- Where two lists differ in their readiness, they are different.
pub ne_of_ready : (ready : ℕ → Bool) (v u : ℕ) → ready v ≡ false → ready u ≡ true → v ≢ u
ne_of_ready ready v u h k e = ground (arith, rw e at h, k)

ready_of_assign : (ready : ℕ → Bool) (v u : ℕ) → assign ready v false u ≡ true → ready u ≡ true
ready_of_assign ready v u h = ground (arith, h)

pub some_inj : {A : Type 0} (a b : A) → some a ≡ some b → a ≡ b
some_inj a b h = cc

-- A list has one current event.
pub current_unique :
    (w : World) (v k j : ℕ) (e x : EventPtr) → IsCurrent w v k e → IsCurrent w v j x → e ≡ x
current_unique w v k j e x (c, at) (d, au) =
    let same : k ≡ j = some_inj k j (sym c ∙ d) in
    some_inj e x (sym at ∙ ap (get_elem? (w.list v)) same ∙ au)

-- A list stays prepared, when one is taken out whose current event is passed, if its own is not.
still_ready :
    (ready : ℕ → Bool) (w : World) (v u k j : ℕ) (e x : EventPtr)
    → IsCurrent w v k e
    → Passed w e
    → IsCurrent w u j x
    → iter w x.thread ≤ x.place
    → ready u ≡ true
    → assign ready v false u ≡ true
still_ready ready w v u k j e x c passed d waits r = elim (Bool-cases (v == u)) [
  | inl same ↦
      let eq = current_unique w v k j e x c (rw (==→eq v u same) d) in
      absurd (omega (arith, rw eq at passed, waits))
  | inr other ↦ rw other r
]

le_of_next :
    (w : World) (x : EventPtr) (t : ℕ)
    → x.thread ≡ t
    → x.place ≡ iter w t
    → iter w x.thread ≤ x.place
le_of_next w x t et ep = omega (arith, sym (ep ∙ ap (iter w) (sym et)))

module _ (ready : ℕ → Bool) (w : World) (v : ℕ) where
  -- A list whose current event is passed may be taken out of the prepared ones.
  pub Inv-release :
      (k : ℕ) (e : EventPtr)
      → Inv ready w
      → IsCurrent w v k e
      → Passed w e
      → Inv (assign ready v false) w
  Inv-release k e inv cur passed = record {
    at_most_one = inv.at_most_one;
    granted = λ t h.
        let (u, j, x, c, r, et, ep, out) = inv.granted t h in
        (
          u,
          j,
          x,
          c,
          still_ready ready w v u k j e x cur passed c (le_of_next w x t et ep) r,
          et,
          ep,
          out,
        );
    waiting = λ t x i.
        let (u, j, c, r, et, le) = inv.waiting t x i in
        (u, j, c, still_ready ready w v u k j e x cur passed c (rw et le) r, et, le);
    distinct = inv.distinct;
    before = λ u i j x r. inv.before u i j x (ready_of_assign ready v u r);
    after = λ u i j x r. inv.after u i j x (ready_of_assign ready v u r);
    over = λ u j x r. inv.over u j x (ready_of_assign ready v u r);
    signalled = λ u j x r. inv.signalled u j x (ready_of_assign ready v u r);
  }

  -- The current entry of a list that is not prepared is of no account.
  pub Inv-set_current :
      (c : Option ℕ)
      → Inv ready w
      → ready v ≡ false
      → Inv ready (record w { curentry = assign w.curentry v c })
  Inv-set_current c inv idle = record {
    at_most_one = inv.at_most_one;
    granted = λ t h.
        let (u, j, x, (cu, at), r, et, ep, out) = inv.granted t h in
        (
          u,
          j,
          x,
          (rw (assign_ne w.curentry v u c (ne_of_ready ready v u idle r)) cu, at),
          r,
          et,
          ep,
          out,
        );
    waiting = λ t x i.
        let (u, j, (cu, at), r, et, le) = inv.waiting t x i in
        (u, j, (rw (assign_ne w.curentry v u c (ne_of_ready ready v u idle r)) cu, at), r, et, le);
    distinct = inv.distinct;
    before = λ u i j x r cu.
        inv.before u i j x r (rw (assign_ne w.curentry v u c (ne_of_ready ready v u idle r)) at cu);
    after = λ u i j x r cu.
        inv.after u i j x r (rw (assign_ne w.curentry v u c (ne_of_ready ready v u idle r)) at cu);
    over = λ u j x r cu.
        inv.over u j x r (rw (assign_ne w.curentry v u c (ne_of_ready ready v u idle r)) at cu);
    signalled = λ u j x r cu.
        inv.signalled u j x r
          (rw (assign_ne w.curentry v u c (ne_of_ready ready v u idle r)) at cu.0, cu.1);
  }
