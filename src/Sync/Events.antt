-- ===== src/Sync/Events.antt =====
-- Pointers to events, and the pending events of a thread: include/xsync.hh.
use double_take.Prelude.{
  ◌≡◌, refl, Bool, true, false, none, some, List, [], ◌∷◌, ◌++◌, ◌||◌, eq→==, Bool-cases, inl, inr,
  arith,
}
use double_take.Sync.{EventPtr, same_event, take_pending}

abbrev pub has_event : List EventPtr → EventPtr → Bool
has_event [] event = false
has_event (e ∷ es) event = same_event e event || has_event es event

abbrev pub DistinctEvents : List EventPtr → Type 0
DistinctEvents [] = false ≡ false
DistinctEvents (e ∷ es) = (has_event es e ≡ false) × DistinctEvents es

pub event_ext : (a b : EventPtr) → a.thread ≡ b.thread → a.place ≡ b.place → a ≡ b
event_ext a b p q = λ i. record { thread = p i; place = q i }

pub same_event→eq : (a b : EventPtr) → same_event a b ≡ true → a ≡ b
same_event→eq a b h = event_ext a b (ground arith) (ground arith)

pub same_event_refl : (a : EventPtr) → same_event a a ≡ true
same_event_refl a = ground (arith, eq→== a.thread a.thread refl, eq→== a.place a.place refl)

pub has_event-append :
    (es : List EventPtr) (e x : EventPtr)
    → has_event (es ++ e ∷ []) x ≡ (has_event es x || same_event e x)
has_event-append [] e x = ground arith
has_event-append (y ∷ es) e x = ground (arith, has_event-append es e x)

pub DistinctEvents-append :
    (es : List EventPtr) (e : EventPtr)
    → DistinctEvents es
    → has_event es e ≡ false
    → DistinctEvents (es ++ e ∷ [])
DistinctEvents-append [] e d out = (refl, refl)
DistinctEvents-append (y ∷ es) e (o, d) out =
    (ground (arith, has_event-append es e y), DistinctEvents-append es e d (ground arith))

-- What the search among pending events gives.
pub record Takes (es : List EventPtr) (event : EventPtr) (rest : List EventPtr) : Type 0 where
  pub there : has_event es event ≡ true
  pub gone : has_event rest event ≡ false
  pub fewer : (x : EventPtr) → has_event rest x ≡ true → has_event es x ≡ true
  pub others :
      (x : EventPtr) → has_event es x ≡ true → same_event event x ≡ false → has_event rest x ≡ true
  pub distinct : DistinctEvents rest

pub take_pending-none :
    (es : List EventPtr) (event : EventPtr)
    → has_event es event ≡ false
    → take_pending es event ≡ none
unfolding take_pending
take_pending-none [] event h = refl
take_pending-none (e ∷ es) event h = ground (arith, take_pending-none es event)

pub take_pending-Takes :
    (es : List EventPtr) (event : EventPtr)
    → DistinctEvents es
    → has_event es event ≡ true
    → (rest : List EventPtr) × (take_pending es event ≡ some rest) × Takes es event rest
unfolding take_pending
take_pending-Takes [] event d h = absurd (ground arith)
take_pending-Takes (e ∷ es) event (o, d) h = elim (Bool-cases (same_event e event)) [
  | inl same ↦ (
    es,
    ground arith,
    record {
      there = h;
      gone = rw (same_event→eq e event same) at o;
      fewer = λ x i. ground arith;
      others = λ x i ne. ground arith;
      distinct = d;
    },
  )
  | inr other ↦
      let (rest, eq, t) = take_pending-Takes es event d (ground arith) in
      (
        e ∷ rest,
        rw (other, eq) refl,
        record {
          there = h;
          gone = ground (arith, t.gone);
          fewer = λ x i. ground (arith, t.fewer x);
          others = λ x i ne. ground (arith, t.others x);
          distinct = (
            elim (Bool-cases (has_event rest e)) [
              | inl i ↦ absurd (ground (arith, t.fewer e i))
              | inr out ↦ out
            ],
            t.distinct,
          );
        },
      )
]

-- An event that is among them is one that they have.
pub has_event_ne :
    (es : List EventPtr) (a b : EventPtr)
    → has_event es a ≡ true
    → has_event es b ≡ false
    → same_event a b ≡ false
has_event_ne es a b i n = elim (Bool-cases (same_event a b)) [
  | inl same ↦ absurd (ground (arith, rw (same_event→eq a b same) at i))
  | inr other ↦ other
]
