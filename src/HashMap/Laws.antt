-- ===== src/HashMap/Laws.antt =====
-- The table of include/hashmap.hh as a map: what `find` returns after each operation.
use double_take.Prelude.{
  ℕ, zero, suc, ◌+◌, ◌^◌, ◌≤◌, ◌<◌, ◌≡◌, ◌≢◌, refl, Bool, true, false, ◌&&◌, Option, none, some, [],
  ◌∷◌, ◌==◌, if◌then◌else◌, inl, inr, Option-cases, get_or, length, length-replicate, replicate, ok,
  aborted, arith, length-append, ◌⊎◌, or_else, get_elem?-eq-get_or, get_or-set_self, get_or-set_ne,
  length-set, get_or-set_cases, lt→ltb,
}
use native.Mathlib.Decide.{ℕ_discrete}
use native.Mathlib.Nat.{mod-lt}
use double_take.HashMap.{
  Entry, HashEntry, HashMap, empty_bucket, initialize, hash_index, get_hash_entry, get_entry, find,
  insert_entry, put_bucket, insert, insert_if_absent,
}
use double_take.HashMap.Chain.{
  first_match, first_match-nil, first_match-append, first_match-put, first_match-one, other_hash,
  get_entry-ok,
}

module _ {K V : Type 0} where
  abbrev pub bucket : HashMap K V → ℕ → HashEntry K V
  bucket m i = get_or m.entries i empty_bucket

  -- What the chain of the key's bucket holds for the key.
  unfoldable pub lookup : HashMap K V → K → ℕ → Option V
  lookup m key keylen = elim (first_match m (bucket m (hash_index m key keylen)).list key keylen) [
    | none ↦ none
    | some e ↦ some e.value
  ]

module _ {K V : Type 0} where
  -- The table is set up, and every bucket counts its entries, `n` at most.
  pub record IsValid (n : ℕ) (m : HashMap K V) : Type 0 where
    pub ready : m.initialized ≡ true
    pub sized : length m.entries ≡ m.buckets
    pub some_bucket : 0 < m.buckets
    pub counted : (i : ℕ) → (bucket m i).count ≡ length (bucket m i).list
    pub bounded : (i : ℕ) → length (bucket m i).list ≤ n

  pub IsValid-suc : {n : ℕ} {m : HashMap K V} → IsValid n m → IsValid (n + 1) m
  IsValid-suc v = record {
    ready = v.ready;
    sized = v.sized;
    some_bucket = v.some_bucket;
    counted = v.counted;
    bounded = λ i. omega (arith, v.bounded i);
  }

  -- Keys that compare as equal are equal and so have one hash.
  abbrev pub IsLawful : HashMap K V → Type 0
  IsLawful m = (a b : K) (n : ℕ) → m.keycmp a b n ≡ true → a ≡ b

pub get_hash_entry_lem :
    {K V : Type 0} (m : HashMap K V) (i : ℕ)
    → i < m.buckets
    → length m.entries ≡ m.buckets
    → get_hash_entry m i ≡ ok (bucket m i)
get_hash_entry_lem m i h sized =
    rw (lt→ltb i m.buckets h, get_elem?-eq-get_or m.entries i empty_bucket (omega arith))

module _ {K V : Type 0} (m : HashMap K V) (n : ℕ) (v : IsValid n m) where
  pub index-lt : (key : K) (keylen : ℕ) → hash_index m key keylen < m.buckets
  index-lt key keylen = mod-lt _ v.some_bucket

  pub get_hash_entry-ok : (i : ℕ) → i < m.buckets → get_hash_entry m i ≡ ok (bucket m i)
  get_hash_entry-ok i h = get_hash_entry_lem m i h v.sized

  pub get_entry_of_bucket :
      (i : ℕ) (key : K) (keylen : ℕ)
      → n < 2 ^ 31
      → get_entry m (bucket m i) key keylen ≡ ok (first_match m (bucket m i).list key keylen)
  get_entry_of_bucket i key keylen h =
      get_entry-ok m (bucket m i) key keylen (v.counted i) (omega (arith, v.bounded i))

  -- `find` always returns, with what the chain of the key's bucket holds.
  pub find-ok : (key : K) (keylen : ℕ) → n < 2 ^ 31 → find m key keylen ≡ ok (lookup m key keylen)
  unfolding find lookup
  find-ok key keylen h = ground (
    arith,
    v.ready,
    get_hash_entry-ok _ (index-lt key keylen),
    get_entry_of_bucket (hash_index m key keylen) key keylen h,
  )

module _ {K V : Type 0} (m : HashMap K V) (i : ℕ) (b : HashEntry K V) where
  pub bucket-put_self : i < length m.entries → bucket (put_bucket m i b) i ≡ b
  bucket-put_self h = get_or-set_self m.entries i b empty_bucket h

  pub bucket-put_ne : (j : ℕ) → i ≢ j → bucket (put_bucket m i b) j ≡ bucket m j
  bucket-put_ne j h = get_or-set_ne m.entries b empty_bucket h

  pub put_bucket-IsValid :
      {n k : ℕ}
      → IsValid n m
      → n ≤ k
      → b.count ≡ length b.list
      → length b.list ≤ k
      → IsValid k (put_bucket m i b)
  put_bucket-IsValid {n} {k} v le count bound = record {
    ready = v.ready;
    sized = omega (arith, length-set m.entries i b, v.sized);
    some_bucket = v.some_bucket;
    counted = λ j. ground (arith, get_or-set_cases m.entries i j b empty_bucket, v.counted j);
    bounded = λ j. ground (arith, get_or-set_cases m.entries i j b empty_bucket, v.bounded j);
  }

module _ {K V : Type 0} where
  -- The value of an entry that was found.
  abbrev pub value_of : Option (Entry K V) → Option V
  value_of none = none
  value_of (some e) = some e.value

module _ {K V : Type 0} (m : HashMap K V) (n : ℕ) (v : IsValid n m) (key : K) (keylen : ℕ)
    (value : V) where
  abbrev entry : Entry K V
  entry = record { key = key; keylen = keylen; value = value }

  abbrev place : ℕ
  place = hash_index m key keylen

  abbrev grown : HashEntry K V
  grown = insert_entry (bucket m place) key keylen value

  longer : length grown.list ≡ length (bucket m place).list + 1
  longer = omega (arith, length-append (bucket m place).list (entry ∷ []))

  grown-IsValid : n + 1 < 2 ^ 31 → IsValid (n + 1) (put_bucket m place grown)
  grown-IsValid small =
      put_bucket-IsValid m place grown v (omega arith)
        (omega (arith, v.counted place, v.bounded place, longer))
        (omega (arith, v.bounded place, longer))

  grown-lookup :
      IsLawful m
      → (k : K) (l : ℕ)
      → lookup (put_bucket m place grown) k l
        ≡ or_else (lookup m k l) (if keylen == l && m.keycmp key k l then some value else none)
  unfolding lookup
  grown-lookup lawful k l = elim (ℕ_discrete place (hash_index m k l)) [
    | yes same ↦ ground (
      arith,
      same,
      bucket-put_self m place grown (omega (arith, index-lt m n v key keylen, v.sized)),
      first_match-put m place grown grown.list k l,
      first_match-append m (bucket m place).list (entry ∷ []) k l,
      first_match-one m entry k l,
    )
    | no other ↦ ground (
      arith,
      bucket-put_ne m place grown (hash_index m k l) other,
      first_match-put m place grown (bucket m (hash_index m k l)).list k l,
      other_hash m key k keylen l lawful other,
    )
  ]

  pub lookup-insert :
      n + 1 < 2 ^ 31
      → IsLawful m
      → (m' : HashMap K V) × (insert m key keylen value ≡ ok m')
        × IsValid (n + 1) m'
        × (m'.keycmp ≡ m.keycmp)
        × ((k : K) (l : ℕ)
            → lookup m' k l
              ≡ or_else
                  (lookup m k l)
                  (if keylen == l && m.keycmp key k l then some value else none))
  unfolding insert
  lookup-insert small lawful = (
    put_bucket m place grown,
    ground (arith, v.ready, get_hash_entry-ok m n v place (index-lt m n v key keylen)),
    grown-IsValid small,
    refl,
    grown-lookup lawful,
  )

  -- `insertIfAbsent` on such a table (valid, fewer than 2 ^ 31 entries to a bucket, a
  -- comparison that accepts equal keys only) says whether the key was there; if not, it
  -- inserts, and if so, it changes nothing. The table stays valid.
  pub lookup-insert_if_absent :
      n + 1 < 2 ^ 31
      → IsLawful m
      → (found : Bool) × (m' : HashMap K V) × (insert_if_absent m key keylen value ≡ ok (found, m'))
        × IsValid (n + 1) m'
        × ((found ≡ true) × (m' ≡ m) × (lookup m key keylen ≢ none)
            ⊎ (found ≡ false)
              × (lookup m key keylen ≡ none)
              × ((k : K) (l : ℕ)
                  → lookup m' k l
                    ≡ or_else
                        (lookup m k l)
                        (if keylen == l && m.keycmp key k l then some value else none)))
  unfolding insert_if_absent lookup
  lookup-insert_if_absent small lawful =
      let at = get_hash_entry-ok m n v place (index-lt m n v key keylen) in
      let got = get_entry_of_bucket m n v place key keylen (omega arith) in
      elim (Option-cases (first_match m (bucket m place).list key keylen)) [
        | inl e ↦ (
          false,
          put_bucket m place grown,
          ground (arith, v.ready, at, got, e),
          grown-IsValid small,
          inr (refl, ground (arith, e), grown-lookup lawful),
        )
        | inr (x, e) ↦ (
          true,
          m,
          ground (arith, v.ready, at, got, e),
          IsValid-suc v,
          inl (refl, refl, λ absent. ground (arith, e, absent)),
        )
      ]

pub get_or-replicate : {A : Type 0} (n i : ℕ) (a : A) → get_or (replicate n a) i a ≡ a
get_or-replicate zero i a = refl
get_or-replicate (suc n) zero a = refl
get_or-replicate (suc n) (suc i) a = get_or-replicate n i a

-- `initialize` with at least one bucket gives an empty table; without a hash function or without
-- a comparison it aborts.
pub initialize-IsValid :
    {K V : Type 0} (h : K → ℕ → ℕ) (c : K → K → ℕ → Bool) (size : ℕ)
    → 0 < size
    → (m : HashMap K V) × (initialize (some h) (some c) size ≡ ok m)
      × IsValid 0 m
      × (m.keycmp ≡ c)
      × ((key : K) (keylen : ℕ) → lookup m key keylen ≡ none)
      × (initialize {K = K} {V = V} none (some c) size ≡ aborted)
      × (initialize {K = K} {V = V} (some h) none size ≡ aborted)
unfolding initialize lookup
initialize-IsValid {K} {V} h c size some_bucket = (
  m,
  refl,
  record {
    ready = refl;
    sized = length-replicate size empty_bucket;
    some_bucket = some_bucket;
    counted = λ i. rw (get_or-replicate {A = HashEntry K V} size i empty_bucket);
    bounded = λ i. rw (get_or-replicate {A = HashEntry K V} size i empty_bucket) (omega arith);
  },
  refl,
  λ key keylen. ground (
    arith,
    get_or-replicate {A = HashEntry K V} size (hash_index m key keylen) empty_bucket,
    first_match-nil m key keylen,
  ),
  refl,
  refl,
)
  where
    m : HashMap K V
    m = record {
      initialized = true;
      entries = replicate size empty_bucket;
      buckets = size;
      hashfunc = h;
      keycmp = c;
    }
