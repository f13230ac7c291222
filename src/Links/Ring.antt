-- ===== src/Links/Ring.antt =====
-- The sequence of nodes that a head of include/list.hh stands for.
use double_take.Prelude.{
  ℕ, ◌≡◌, ◌≢◌, refl, Bool, true, false, ◌||◌, List, [], ◌∷◌, ◌++◌, ◌==◌, arith,
}
use double_take.Links.{Links}

abbrev pub has : ℕ → List ℕ → Bool
has a [] = false
has a (x ∷ xs) = (a == x) || has a xs

-- No node is there twice.
abbrev pub Distinct : List ℕ → Type 0
Distinct [] = false ≡ false
Distinct (x ∷ xs) = (has x xs ≡ false) × Distinct xs

abbrev pub last : ℕ → List ℕ → ℕ
last p [] = p
last p (x ∷ xs) = last x xs

-- From `p` the links lead through `xs` and back.
abbrev pub Walk : Links → ℕ → List ℕ → Type 0
Walk h p [] = false ≡ false
Walk h p (x ∷ xs) = (h.next p ≡ x) × (h.prev x ≡ p) × Walk h x xs

-- From `p` they lead through `xs` to `q` and back.
abbrev pub Chain : Links → ℕ → List ℕ → ℕ → Type 0
Chain h p [] q = (h.next p ≡ q) × (h.prev q ≡ p)
Chain h p (x ∷ xs) q = (h.next p ≡ x) × (h.prev x ≡ p) × Chain h x xs q

-- The list at `head` has the nodes `xs`, in this order.
pub record IsRing (h : Links) (head : ℕ) (xs : List ℕ) : Type 0 where
  pub chain : Chain h head xs head
  pub distinct : Distinct (head ∷ xs)

pub has-append_left : (a : ℕ) (xs ys : List ℕ) → has a (xs ++ ys) ≡ false → has a xs ≡ false
has-append_left a [] ys h = refl
has-append_left a (x ∷ xs) ys h = ground (arith, has-append_left a xs ys)

pub has-append_right : (a : ℕ) (xs ys : List ℕ) → has a (xs ++ ys) ≡ false → has a ys ≡ false
has-append_right a [] ys h = h
has-append_right a (x ∷ xs) ys h = ground (arith, has-append_right a xs ys)

pub has-append :
    (a : ℕ) (xs ys : List ℕ) → has a xs ≡ false → has a ys ≡ false → has a (xs ++ ys) ≡ false
has-append a [] ys h k = k
has-append a (x ∷ xs) ys h k = ground (arith, has-append a xs ys)

pub has-last : (a p : ℕ) (xs : List ℕ) → has a (p ∷ xs) ≡ false → a ≢ last p xs
has-last a p [] h e = ground arith
has-last a p (x ∷ xs) h e = has-last a x xs (ground arith) e

pub Distinct-append_left : (xs ys : List ℕ) → Distinct (xs ++ ys) → Distinct xs
Distinct-append_left [] ys d = refl
Distinct-append_left (x ∷ xs) ys (out, d) =
    (has-append_left x xs ys out, Distinct-append_left xs ys d)

pub Distinct-append_right : (xs ys : List ℕ) → Distinct (xs ++ ys) → Distinct ys
Distinct-append_right [] ys d = d
Distinct-append_right (x ∷ xs) ys (out, d) = Distinct-append_right xs ys d

-- A node outside a list without repetition may be put anywhere.
pub Distinct-insert :
    (x : ℕ) (xs ys : List ℕ)
    → Distinct (xs ++ ys)
    → has x (xs ++ ys) ≡ false
    → Distinct (xs ++ x ∷ ys)
Distinct-insert x [] ys d out = (out, d)
Distinct-insert x (y ∷ xs) ys (o, d) out = (
  has-append y xs (x ∷ ys) (has-append_left y xs ys o) (ground (arith, has-append_right y xs ys o)),
  Distinct-insert x xs ys d (ground arith),
)

pub Distinct-delete : (x : ℕ) (xs ys : List ℕ) → Distinct (xs ++ x ∷ ys) → Distinct (xs ++ ys)
Distinct-delete x [] ys (o, d) = d
Distinct-delete x (y ∷ xs) ys (o, d) = (
  has-append y xs ys (has-append_left y xs (x ∷ ys) o)
      (ground (arith, has-append_right y xs (x ∷ ys) o)),
  Distinct-delete x xs ys d,
)

-- The one that stands in the middle stands nowhere else.
pub has_middle : (x : ℕ) (xs ys : List ℕ) → Distinct (xs ++ x ∷ ys) → has x (xs ++ ys) ≡ false
has_middle x [] ys (o, d) = o
has_middle x (y ∷ xs) ys (o, d) =
    ground (arith, has_middle x xs ys d, has-append_right y xs (x ∷ ys) o)

-- A chain is a path and the chain behind it, from the last node of the path.
pub Chain-split :
    (h : Links) (p q : ℕ) (xs ys : List ℕ)
    → Chain h p (xs ++ ys) q
    → Walk h p xs × Chain h (last p xs) ys q
Chain-split h p q [] ys c = (refl, c)
Chain-split h p q (x ∷ xs) ys (e, f, c) =
    let (front, back) = Chain-split h x q xs ys c in ((e, f, front), back)

pub Chain-join :
    (h : Links) (p q : ℕ) (xs ys : List ℕ)
    → Walk h p xs
    → Chain h (last p xs) ys q
    → Chain h p (xs ++ ys) q
Chain-join h p q [] ys front c = c
Chain-join h p q (x ∷ xs) ys (e, f, front) c = (e, f, Chain-join h x q xs ys front c)

-- The link back of the end of a chain.
pub Chain-prev : (h : Links) (p q : ℕ) (xs : List ℕ) → Chain h p xs q → h.prev q ≡ last p xs
Chain-prev h p q [] (e, f) = f
Chain-prev h p q (x ∷ xs) (e, f, c) = Chain-prev h x q xs c

pub Chain-next : (h : Links) (p q : ℕ) (xs : List ℕ) → Chain h p xs q → h.next (last p xs) ≡ q
Chain-next h p q [] (e, f) = e
Chain-next h p q (x ∷ xs) (e, f, c) = Chain-next h x q xs c

-- A path survives a change that spares the links on it: not those of its ends.
pub Walk-frame :
    (h g : Links) (p : ℕ) (xs : List ℕ)
    → ((a : ℕ) → has a (p ∷ xs) ≡ true → a ≢ last p xs → g.next a ≡ h.next a)
    → ((a : ℕ) → has a xs ≡ true → g.prev a ≡ h.prev a)
    → Distinct (p ∷ xs)
    → Walk h p xs
    → Walk g p xs
Walk-frame h g p [] sn sp d c = refl
Walk-frame h g p (x ∷ xs) sn sp (o, d) (e, f, c) = (
  ground (arith, sn p (ground arith) (has-last p x xs o), e),
  ground (arith, sp x (ground arith), f),
  Walk-frame h g x xs (λ a i n. sn a (ground arith) n) (λ a i. sp a (ground arith)) d c,
)

-- A chain survives a change that spares its links.
pub Chain-frame :
    (h g : Links) (p q : ℕ) (xs : List ℕ)
    → ((a : ℕ) → has a (p ∷ xs) ≡ true → g.next a ≡ h.next a)
    → ((a : ℕ) → has a (q ∷ xs) ≡ true → g.prev a ≡ h.prev a)
    → Chain h p xs q
    → Chain g p xs q
Chain-frame h g p q [] sn sp (e, f) =
    (ground (arith, sn p (ground arith), e), ground (arith, sp q (ground arith), f))
Chain-frame h g p q (x ∷ xs) sn sp (e, f, c) = (
  ground (arith, sn p (ground arith), e),
  ground (arith, sp x (ground arith), f),
  Chain-frame h g x q xs (λ a i. sn a (ground arith)) (λ a i. sp a (ground arith)) c,
)
