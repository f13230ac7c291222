-- ===== src/HashMap/Chain.antt =====
-- Walks through the chain of one bucket of include/hashmap.hh.
use double_take.Prelude.{
  ℕ, ◌+◌, ◌%◌, ◌^◌, ◌<◌, ◌≡◌, ◌≢◌, refl, ap, true, false, ◌&&◌, Option, none, some, List, [], ◌∷◌,
  ◌++◌, ◌==◌, if◌then◌else◌, inl, inr, Bool-cases, length, ok, arith, or_else,
}
use double_take.HashMap.{
  Entry, HashEntry, HashMap, rounds, same_key, walk, unlink, get_entry, put_bucket,
}

module _ {K V : Type 0} where
  -- The first entry of a chain that has the key.
  unfoldable pub first_match : HashMap K V → List (Entry K V) → K → ℕ → Option (Entry K V)
  first_match m [] key keylen = none
  first_match m (e ∷ es) key keylen =
      if same_key m e key keylen then some e else first_match m es key keylen

  pub walk_all :
      (m : HashMap K V) (es : List (Entry K V)) (key : K) (keylen : ℕ)
      → walk m (length es) es key keylen ≡ ok (first_match m es key keylen)
  unfolding walk first_match
  walk_all m [] key keylen = refl
  walk_all m (e ∷ es) key keylen = ground (arith, walk_all m es key keylen)

  -- A walk that stops before the last entry does not see it.
  pub walk_but_last :
      (m : HashMap K V) (es : List (Entry K V)) (last : Entry K V) (key : K) (keylen : ℕ)
      → walk m (length es) (es ++ last ∷ []) key keylen ≡ ok (first_match m es key keylen)
  unfolding walk first_match
  walk_but_last m [] last key keylen = refl
  walk_but_last m (e ∷ es) last key keylen = ground (arith, walk_but_last m es last key keylen)

  pub first_match-append :
      (m : HashMap K V) (es fs : List (Entry K V)) (key : K) (keylen : ℕ)
      → first_match m (es ++ fs) key keylen
        ≡ or_else (first_match m es key keylen) (first_match m fs key keylen)
  unfolding first_match
  first_match-append m [] fs key keylen = refl
  first_match-append m (e ∷ es) fs key keylen =
      ground (arith, first_match-append m es fs key keylen)

  pub length-unlink :
      (m : HashMap K V) (es : List (Entry K V)) (key : K) (keylen : ℕ) (e : Entry K V)
      → first_match m es key keylen ≡ some e
      → length (unlink m es key keylen) + 1 ≡ length es
  unfolding first_match unlink
  length-unlink m [] key keylen e h = ground arith
  length-unlink m (x ∷ es) key keylen e h = ground (arith, length-unlink m es key keylen e)

  -- Unlinking the first entry with a key does not change what any other key finds.
  pub first_match-unlink :
      (m : HashMap K V) (es : List (Entry K V)) (key other : K) (keylen otherlen : ℕ)
      → ((e : Entry K V) → same_key m e key keylen ≡ true → same_key m e other otherlen ≡ false)
      → first_match m (unlink m es key keylen) other otherlen ≡ first_match m es other otherlen
  unfolding first_match unlink
  first_match-unlink m [] key other keylen otherlen h = refl
  first_match-unlink m (x ∷ es) key other keylen otherlen h =
      ground (arith, h x, first_match-unlink m es key other keylen otherlen h)

  pub get_entry-ok :
      (m : HashMap K V) (b : HashEntry K V) (key : K) (keylen : ℕ)
      → b.count ≡ length b.list
      → length b.list < 2 ^ 31
      → get_entry m b key keylen ≡ ok (first_match m b.list key keylen)
  unfolding get_entry
  get_entry-ok m b key keylen e h =
      let all : rounds b.count ≡ length b.list = ground arith in
      rw all (walk_all m b.list key keylen)

  -- A key with another hash than an entry's is another key.
  pub other_hash :
      (m : HashMap K V) (a b : K) (n l : ℕ)
      → ((a b : K) (n : ℕ) → m.keycmp a b n ≡ true → a ≡ b)
      → m.hashfunc a n % m.buckets ≢ m.hashfunc b l % m.buckets
      → (n == l && m.keycmp a b l) ≡ false
  other_hash m a b n l lawful ne = elim (Bool-cases (n == l && m.keycmp a b l)) [
    | inr miss ↦ miss
    | inl hit ↦
        let same : a ≡ b = lawful a b l (ground (arith, hit)) in
        let len : n ≡ l = ground (arith, hit) in absurd (ne (rw (same, len)))
  ]

  -- Only the comparison of the keys matters, not what the table holds elsewhere.
  pub first_match-put :
      (m : HashMap K V) (i : ℕ) (b : HashEntry K V) (es : List (Entry K V)) (key : K) (keylen : ℕ)
      → first_match (put_bucket m i b) es key keylen ≡ first_match m es key keylen
  unfolding first_match same_key
  first_match-put m i b [] key keylen = refl
  first_match-put m i b (e ∷ es) key keylen = ground (arith, first_match-put m i b es key keylen)

  pub first_match-one :
      (m : HashMap K V) (e : Entry K V) (key : K) (keylen : ℕ)
      → first_match m (e ∷ []) key keylen
        ≡ (if e.keylen == keylen && m.keycmp e.key key keylen then some e else none)
  unfolding first_match same_key
  first_match-one m e key keylen = refl

  pub first_match-nil :
      (m : HashMap K V) (key : K) (keylen : ℕ) → first_match m [] key keylen ≡ none
  unfolding first_match
  first_match-nil m key keylen = refl

  -- All entries of a chain that have the key.
  unfoldable pub matches : HashMap K V → List (Entry K V) → K → ℕ → List (Entry K V)
  matches m [] key keylen = []
  matches m (e ∷ es) key keylen =
      if same_key m e key keylen then e ∷ matches m es key keylen else matches m es key keylen

  -- Unlinking takes out the first of them, and no other.
  pub matches-unlink :
      (m : HashMap K V) (es : List (Entry K V)) (key : K) (keylen : ℕ) (e : Entry K V)
      → first_match m es key keylen ≡ some e
      → matches m es key keylen ≡ e ∷ matches m (unlink m es key keylen) key keylen
  unfolding first_match unlink matches
  matches-unlink m [] key keylen e h = absurd (cc h)
  matches-unlink m (x ∷ es) key keylen e h = elim (Bool-cases (same_key m x key keylen)) [
    | inl hit ↦ rw hit (ap (λ y. y ∷ matches m es key keylen) (some_inj x e (rw hit at h)))
    | inr miss ↦ rw (miss, matches, miss) (matches-unlink m es key keylen e (rw miss at h))
  ]
    where
      some_inj : (x e : Entry K V) → some x ≡ some e → x ≡ e
      some_inj x e h = cc

  pub matches-put :
      (m : HashMap K V) (i : ℕ) (b : HashEntry K V) (es : List (Entry K V)) (key : K) (keylen : ℕ)
      → matches (put_bucket m i b) es key keylen ≡ matches m es key keylen
  unfolding matches same_key
  matches-put m i b [] key keylen = refl
  matches-put m i b (e ∷ es) key keylen = ground (arith, matches-put m i b es key keylen)
