-- ===== src/HashMap.antt =====
-- include/hashmap.hh: the chained hash table, generic in keys and values. The locks of the
-- buckets and the calls of the internal heap are left out; the circular list of a bucket is the
-- sequence of its entries from the first on.
pub mod Chain
pub mod Laws
pub mod Erase
use double_take.Prelude.{
  ℕ, zero, suc, ◌+◌, ◌-◌, ◌%◌, ◌^◌, Bool, true, false, ◌&&◌, Option, none, some, List, [], ◌∷◌,
  ◌++◌, ltb, ◌==◌, if◌then◌else◌, get_elem?, set, replicate, Outcome, ok, aborted, fault, assert,
  ◌>>=◌, ◌>>◌,
}

module _ (K V : Type 0) where
  pub record Entry : Type 0 where
    pub key : K
    pub keylen : ℕ
    pub value : V

-- `HashEntry`, a bucket.
module _ (K V : Type 0) where
  pub record HashEntry : Type 0 where
    pub list : List (Entry K V)
    pub count : ℕ

module _ (K V : Type 0) where
  pub record HashMap : Type 0 where
    pub initialized : Bool
    pub entries : List (HashEntry K V)
    pub buckets : ℕ
    pub hashfunc : K → ℕ → ℕ
    pub keycmp : K → K → ℕ → Bool

-- `int count = first->count`: the low 32 bits as a signed number; none of the rounds of
-- `while (count > 0)` is made for a negative one.
abbrev pub rounds : ℕ → ℕ
rounds count = if ltb (count % 2 ^ 32) (2 ^ 31) then count % 2 ^ 32 else 0

module _ {K V : Type 0} where
  abbrev pub empty_bucket : HashEntry K V
  empty_bucket = record { list = []; count = 0 }

  -- Null function pointers abort.
  unfoldable pub initialize :
      Option (K → ℕ → ℕ) → Option (K → K → ℕ → Bool) → ℕ → Outcome (HashMap K V)
  initialize none kcmp size = aborted
  initialize (some h) none size = aborted
  initialize (some h) (some c) size = ok (record {
    initialized = true;
    entries = replicate size empty_bucket;
    buckets = size;
    hashfunc = h;
    keycmp = c;
  })

  abbrev pub hash_index : HashMap K V → K → ℕ → ℕ
  hash_index m key keylen = m.hashfunc key keylen % m.buckets

  -- A pointer to a bucket that is null, or outside the table, faults at its first use.
  abbrev pub get_hash_entry : HashMap K V → ℕ → Outcome (HashEntry K V)
  get_hash_entry m index =
      if ltb index m.buckets
      then elim (get_elem? m.entries index) [ none ↦ fault | some e ↦ ok e ]
      else fault

  unfoldable pub same_key : HashMap K V → Entry K V → K → ℕ → Bool
  same_key m e key keylen = e.keylen == keylen && m.keycmp e.key key keylen

  -- Past the last entry the walk would take the bucket's head for an entry.
  unfoldable pub walk : HashMap K V → ℕ → List (Entry K V) → K → ℕ → Outcome (Option (Entry K V))
  walk m zero es key keylen = ok none
  walk m (suc n) [] key keylen = fault
  walk m (suc n) (e ∷ es) key keylen =
      let next = walk m n es key keylen in if same_key m e key keylen then ok (some e) else next

  unfoldable pub get_entry : HashMap K V → HashEntry K V → K → ℕ → Outcome (Option (Entry K V))
  get_entry m first key keylen = walk m (rounds first.count) first.list key keylen

  unfoldable pub find : HashMap K V → K → ℕ → Outcome (Option V)
  find m key keylen = do
    assert m.initialized
    first ← get_hash_entry m (hash_index m key keylen)
    entry ← get_entry m first key keylen
    ok (elim entry [ none ↦ none | some e ↦ some e.value ])

  -- At the tail of the list.
  abbrev pub insert_entry : HashEntry K V → K → ℕ → V → HashEntry K V
  insert_entry head key keylen value = record {
    list = head.list ++ record { key = key; keylen = keylen; value = value } ∷ [];
    count = (head.count + 1) % 2 ^ 64;
  }

  abbrev pub put_bucket : HashMap K V → ℕ → HashEntry K V → HashMap K V
  put_bucket m i bucket = record m { entries = set m.entries i bucket }

  unfoldable pub insert : HashMap K V → K → ℕ → V → Outcome (HashMap K V)
  insert m key keylen value = do
    assert m.initialized
    first ← get_hash_entry m (hash_index m key keylen)
    ok (put_bucket m (hash_index m key keylen) (insert_entry first key keylen value))

  unfoldable pub insert_if_absent : HashMap K V → K → ℕ → V → Outcome (Bool × HashMap K V)
  insert_if_absent m key keylen value = do
    assert m.initialized
    first ← get_hash_entry m (hash_index m key keylen)
    entry ← get_entry m first key keylen
    ok (elim entry [
      | none ↦ (false, put_bucket m (hash_index m key keylen) (insert_entry first key keylen value))
      | some e ↦ (true, m)
    ])

  -- The entry that `getEntry` returned leaves its list.
  unfoldable pub unlink : HashMap K V → List (Entry K V) → K → ℕ → List (Entry K V)
  unlink m [] key keylen = []
  unlink m (e ∷ es) key keylen = if same_key m e key keylen then es else e ∷ unlink m es key keylen

  -- `count--` stands outside the test.
  unfoldable pub erase : HashMap K V → K → ℕ → Outcome (Bool × HashMap K V)
  unfolding unlink
  erase m key keylen = do
    assert m.initialized
    first ← get_hash_entry m (hash_index m key keylen)
    entry ← get_entry m first key keylen
    let count = (first.count + 2 ^ 64 - 1) % 2 ^ 64
    ok (elim entry [
      | none ↦ (false, put_bucket m (hash_index m key keylen) (record first { count = count }))
      | some e ↦ (
        true,
        put_bucket m (hash_index m key keylen)
            (record { list = unlink m first.list key keylen; count = count }),
      )
    ])
