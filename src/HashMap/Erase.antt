-- ===== src/HashMap/Erase.antt =====
-- `erase` of include/hashmap.hh, for a key that is there and for one that is not.
use double_take.Prelude.{
  ℕ, ◌+◌, ◌-◌, ◌%◌, ◌^◌, ◌<◌, ◌≡◌, ◌≢◌, true, false, ◌&&◌, none, some, List, [], ◌∷◌, ◌++◌, ◌==◌,
  inl, inr, Bool-cases, Option-cases, length, ok, arith, length-append, length-set, ◌⊎◌, sym, ap,
  ◌∙◌,
}
use native.Mathlib.Decide.{ℕ_discrete}
use double_take.HashMap.{
  Entry, HashEntry, HashMap, hash_index, same_key, get_entry, find, put_bucket, unlink, erase, walk,
  rounds,
}
use double_take.HashMap.Chain.{
  first_match, first_match-put, matches, matches-unlink, matches-put, length-unlink,
  first_match-unlink, walk_but_last,
}
use double_take.HashMap.Laws.{
  bucket, lookup, get_hash_entry_lem, IsValid, IsLawful, index-lt, get_hash_entry-ok,
  get_entry_of_bucket, bucket-put_self, bucket-put_ne, put_bucket-IsValid,
}

-- The entries that the table has for the key, in the order in which they are found.
module _ {K V : Type 0} where
  unfoldable pub entries_of : HashMap K V → K → ℕ → List (Entry K V)
  entries_of m key keylen = matches m (bucket m (hash_index m key keylen)).list key keylen

module _ {K V : Type 0} (m : HashMap K V) (n : ℕ) (v : IsValid n m) (small : n < 2 ^ 31) where
  one_key :
      (key other : K) (keylen l : ℕ)
      → IsLawful m
      → (key ≢ other) ⊎ (keylen ≢ l)
      → (e : Entry K V) → same_key m e key keylen ≡ true
      → same_key m e other l ≡ false
  unfolding same_key
  one_key key other keylen l lawful ne e hit =
      elim (Bool-cases (e.keylen == l && m.keycmp e.key other l)) [
        | inr miss ↦ miss
        | inl also ↦
            let a : e.key ≡ key = lawful _ _ keylen (ground (arith, hit)) in
            let b : e.key ≡ other = lawful _ _ l (ground (arith, also)) in
            let len : keylen ≡ l = ground (arith, hit, also) in
            absurd (elim ne [ inl f ↦ f (sym a ∙ b) | inr f ↦ f len ])
      ]

  module _ (key : K) (keylen : ℕ) where
    abbrev place : ℕ
    place = hash_index m key keylen

    abbrev shrunk : HashEntry K V
    shrunk = record {
      list = unlink m (bucket m place).list key keylen;
      count = ((bucket m place).count + 2 ^ 64 - 1) % 2 ^ 64;
    }

    place-lt : place < length m.entries
    place-lt = omega (arith, index-lt m n v key keylen, v.sized)

    value_of : (x : Entry K V) (value : V) → some x.value ≡ some value → x.value ≡ value
    value_of x value h = cc

    -- `erase` of a key that is in a valid table with fewer than 2 ^ 31 entries to a bucket,
    -- whose comparison accepts equal keys only, says so, keeps the table valid, takes out the entry
    -- that `find` gives for the key, and no other one that the key has, and leaves what every other
    -- key finds.
    pub lookup-erase :
        (value : V)
        → lookup m key keylen ≡ some value
        → IsLawful m
        → (m' : HashMap K V) × (erase m key keylen ≡ ok (true, m'))
          × IsValid n m'
          × ((e : Entry K V) × (e.value ≡ value)
              × (entries_of m key keylen ≡ e ∷ entries_of m' key keylen))
          × ((k : K) (l : ℕ) → (key ≢ k) ⊎ (keylen ≢ l) → lookup m' k l ≡ lookup m k l)
    unfolding erase lookup entries_of
    lookup-erase value h lawful =
        elim (Option-cases (first_match m (bucket m place).list key keylen)) [
          | inl e ↦ absurd (ground (arith, e, h))
          | inr (x, e) ↦
              let len = length-unlink m (bucket m place).list key keylen x e in
              let got = get_entry_of_bucket m n v place key keylen small in
              let at = get_hash_entry-ok m n v place (index-lt m n v key keylen) in
              (
                put_bucket m place shrunk,
                ground (arith, v.ready, at, got, e),
                put_bucket-IsValid m place shrunk v (omega arith)
                    (omega (arith, len, v.counted place, v.bounded place))
                    (omega (arith, len, v.bounded place)),
                (
                  x,
                  value_of x value (rw (lookup, e) at h),
                  matches-unlink m (bucket m place).list key keylen x e
                      ∙ ap (λ l. x ∷ l)
                          (sym (
                            ap
                              (λ (b : HashEntry K V).
                                matches (put_bucket m place shrunk) b.list key keylen)
                              (bucket-put_self m place shrunk place-lt)
                            ∙ matches-put m place shrunk shrunk.list key keylen)),
                ),
                λ k l ne. elim (ℕ_discrete place (hash_index m k l)) [
                  | yes same ↦ ground (
                    arith,
                    same,
                    bucket-put_self m place shrunk place-lt,
                    first_match-put m place shrunk shrunk.list k l,
                    first_match-unlink m (bucket m place).list key k keylen l
                        (one_key key k keylen l lawful ne),
                  )
                  | no other ↦ ground (
                    arith,
                    bucket-put_ne m place shrunk (hash_index m k l) other,
                    first_match-put m place shrunk (bucket m (hash_index m k l)).list k l,
                  )
                ],
              )
        ]

    abbrev short : HashEntry K V
    short = record (bucket m place) { count = ((bucket m place).count + 2 ^ 64 - 1) % 2 ^ 64 }

    abbrev after : HashMap K V
    after = put_bucket m place short

    -- The walk in the bucket stops before its last entry.
    missed :
        (es : List (Entry K V)) (last : Entry K V)
        → (bucket m place).list ≡ es ++ last ∷ []
        → first_match m es last.key last.keylen ≡ none
        → get_entry after short last.key last.keylen ≡ ok none
    unfolding get_entry walk same_key
    missed es last shape fresh =
        let stop : rounds short.count ≡ length es = ground (
          arith,
          v.counted place,
          v.bounded place,
          ap length shape,
          length-append es (last ∷ []),
        ) in
        rw (stop, shape)
          (walk_but_last after es last last.key last.keylen
            ∙ ap ok (first_match-put m place short es last.key last.keylen ∙ fresh))

    -- In a valid table with fewer than 2 ^ 31 entries to a bucket, `erase` of a key that is
    -- not there says so, and then the last entry of the key's bucket is no longer found, if
    -- its key stands there only once.
    pub erase_absent_hides_last :
        (es : List (Entry K V)) (last : Entry K V)
        → lookup m key keylen ≡ none
        → (bucket m place).list ≡ es ++ last ∷ []
        → first_match m es last.key last.keylen ≡ none
        → hash_index m last.key last.keylen ≡ place
        → (m' : HashMap K V) × (erase m key keylen ≡ ok (false, m'))
          × (find m' last.key last.keylen ≡ ok none)
    unfolding erase lookup find
    erase_absent_hides_last es last h shape fresh hash =
        let gone : first_match m (bucket m place).list key keylen ≡ none =
          elim (Option-cases (first_match m (bucket m place).list key keylen)) [
            | inl e ↦ e
            | inr (x, e) ↦ absurd (ground (arith, e, h))
          ] in
        let at = get_hash_entry-ok m n v place (index-lt m n v key keylen) in
        let at' =
          get_hash_entry_lem after place (index-lt m n v key keylen)
            (length-set m.entries place short ∙ v.sized) in
        (
          after,
          ground (arith, v.ready, at, get_entry_of_bucket m n v place key keylen small, gone),
          ground (
            arith,
            v.ready,
            hash,
            at',
            bucket-put_self m place short place-lt,
            missed es last shape fresh,
          ),
        )
