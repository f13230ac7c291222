-- ===== src/Memtrack/Tracked.antt =====
-- Which objects are tracked, and what `insert` of include/memtrack.hh adds.
use double_take.Prelude.{
  ℕ, ◌+◌, ◌^◌, ◌<◌, ◌≡◌, ◌≢◌, refl, sym, ◌∙◌, inl, inr, Bool, true, false, ◌&&◌, Option, none, some,
  Option-cases, [], ◌∷◌, ◌++◌, ◌==◌, if◌then◌else◌, length, get_elem?, set, ok, arith, or_else,
  ==→eq, ne→==, eq→==, get_elem?-append, get_elem?-append_left, get_elem?-set_self,
  get_elem?-set_ne, bit, bit-zero, bit-bit_or, bit_or, max,
}
use native.Mathlib.Decide.{ℕ_discrete}
use double_take.Defines.{
  FaultyObjectType, no_error, overflow, use_after_free, leak, watch_only, type_bits, word_size,
}
use double_take.HashMap
use double_take.HashMap.{HashMap}
use double_take.HashMap.Laws.{lookup, IsLawful, find-ok, lookup-insert}
use double_take.HashMap.Laws
use double_take.Memtrack.{
  TrackObject, Memtrack, set_up, setup, setup_at, insert_ready, is_use_after_free,
}

unfoldable pub tracked : Memtrack → ℕ → Option TrackObject
tracked t start = elim (lookup t.track_map start word_size) [
  | none ↦ none
  | some id ↦ get_elem? t.objects id
]

-- The map is valid, compares addresses, and leads each address to an object that starts there.
pub record IsValid (n : ℕ) (t : Memtrack) : Type 0 where
  pub set_up_once : t.initialized ≡ true
  pub table : Laws.IsValid n t.track_map
  pub compares : (a b k : ℕ) → t.track_map.keycmp a b k ≡ (a == b)
  pub held :
      (k id : ℕ)
      → lookup t.track_map k word_size ≡ some id
      → (o : TrackObject) × (get_elem? t.objects id ≡ some o) × (o.start ≡ k)

lawful : {n : ℕ} {t : Memtrack} → IsValid n t → IsLawful t.track_map
lawful v a b k h = ==→eq a b (sym (v.compares a b k) ∙ h)

-- The object that is set up: the tracked one, or a new one.
unfoldable pub merged : Option TrackObject → TrackObject → ℕ → ℕ → FaultyObjectType → TrackObject
merged none raw start size type = set_up raw start size type false
merged (some o) raw start size type = set_up o start size type true

abbrev kinds_before : Option TrackObject → ℕ
kinds_before none = 0
kinds_before (some o) = o.objecttype

-- An object is tracked from its allocation on.
abbrev tracks_before : Option TrackObject → ℕ
tracks_before none = 1
tracks_before (some o) = o.tracktype

-- The bit for a tracked release.
abbrev tracked_release : FaultyObjectType → ℕ
tracked_release use_after_free = 2
tracked_release _ = 0

abbrev origin : Option TrackObject → TrackObject → TrackObject
origin none raw = raw
origin (some o) raw = o

-- The object `o` after an error of the type at `start`: bit for bit, it has the kinds of error that it
-- had, and this one; its release is tracked if it was, or for a use after it; and it has no operation
-- yet.
pub record HasError (before : Option TrackObject) (raw o : TrackObject) (start size : ℕ)
    (type : FaultyObjectType) : Type 0 where
  pub starts : o.start ≡ start
  pub sized : o.object_size ≡ size
  pub kinds :
      (i : ℕ) → bit i o.objecttype ≡ max (bit i (kinds_before before)) (bit i (type_bits type))
  pub tracks :
      (i : ℕ)
      → bit i o.tracktype ≡ max (bit i (tracks_before before)) (bit i (tracked_release type))
  pub no_operation : o.traced_ops ≡ 0
  pub same_size : o.current_object_size ≡ (origin before raw).current_object_size
  pub same_alloc : o.alloc_site ≡ (origin before raw).alloc_site
  pub same_free : o.free_site ≡ (origin before raw).free_site

release_bits :
    (type : FaultyObjectType) (x i : ℕ)
    → bit i (if is_use_after_free type then bit_or x 2 else x)
      ≡ max (bit i x) (bit i (tracked_release type))
release_bits no_error x i = omega (arith, bit-zero i)
release_bits overflow x i = omega (arith, bit-zero i)
release_bits use_after_free x i = bit-bit_or i x 2
release_bits leak x i = omega (arith, bit-zero i)
release_bits watch_only x i = omega (arith, bit-zero i)

merged-HasError :
    (before : Option TrackObject) (raw : TrackObject) (start size : ℕ) (type : FaultyObjectType)
    → HasError before raw (merged before raw start size type) start size type
unfolding merged set_up
merged-HasError none raw start size type = record {
  starts = refl;
  sized = refl;
  kinds = λ i. omega (arith, bit-zero i);
  tracks = λ i. release_bits type 1 i;
  no_operation = refl;
  same_size = refl;
  same_alloc = refl;
  same_free = refl;
}
merged-HasError (some o) raw start size type = record {
  starts = refl;
  sized = refl;
  kinds = λ i. bit-bit_or i o.objecttype (type_bits type);
  tracks = λ i. release_bits type o.tracktype i;
  no_operation = refl;
  same_size = refl;
  same_alloc = refl;
  same_free = refl;
}

-- `t'` is valid and tracks `o` at `start`, and elsewhere what `t` tracks.
pub record Tracks (n : ℕ) (t t' : Memtrack) (start : ℕ) (o : TrackObject) : Type 0 where
  pub valid : IsValid n t'
  pub here : tracked t' start ≡ some o
  pub elsewhere : (k : ℕ) → k ≢ start → tracked t' k ≡ tracked t k

start-set_up :
    (o : TrackObject) (start size : ℕ) (type : FaultyObjectType) (b : Bool)
    → (set_up o start size type b).start ≡ start
unfolding set_up
start-set_up o start size type b = refl

module _ (n : ℕ) (t : Memtrack) (v : IsValid n t) (start : ℕ) (o' : TrackObject)
    (right : o'.start ≡ start) where
  -- An object that is tracked is changed in place.
  pub changed :
      (id : ℕ)
      → lookup t.track_map start word_size ≡ some id
      → Tracks n t (record t { objects = set t.objects id o' }) start o'
  unfolding tracked
  changed id e =
      let (o, at, from) = v.held start id e in
      record {
        valid = record {
          set_up_once = v.set_up_once;
          table = v.table;
          compares = v.compares;
          held = λ k id' f. elim (ℕ_discrete id id') [
            | yes same ↦
                let (p, at', from') = v.held k id' f in
                (
                  o',
                  rw (← same) (get_elem?-set_self t.objects id o' o at),
                  ground (arith, same, at, at', from, from', right),
                )
            | no other ↦
                let (p, at', from') = v.held k id' f in
                (p, get_elem?-set_ne t.objects id id' o' other ∙ at', from')
          ];
        };
        here = rw (e, tracked) (get_elem?-set_self t.objects id o' o at);
        elsewhere = λ k ne. elim (Option-cases (lookup t.track_map k word_size)) [
          | inl none_there ↦ rw (none_there, tracked)
          | inr (id', f) ↦
              let (p, at', from') = v.held k id' f in
              rw (f, tracked)
                (get_elem?-set_ne t.objects id id' o'
                  (λ same. ne (ground (arith, same, at, at', from, from'))))
        ];
      }

  -- A new object goes to the end, and the map to it.
  added :
      (m : HashMap ℕ ℕ)
      → Laws.IsValid (n + 1) m
      → ((a b k : ℕ) → m.keycmp a b k ≡ (a == b))
      → lookup t.track_map start word_size ≡ none
      → ((k l : ℕ)
          → lookup m k l
            ≡ or_else (lookup t.track_map k l) (
                if word_size == l && t.track_map.keycmp start k l
                then some (length t.objects)
                else none))
      → Tracks (n + 1) t (record t { track_map = m; objects = t.objects ++ o' ∷ [] }) start o'
  unfolding tracked
  added m valid cmp absent find = record {
    valid = record {
      set_up_once = v.set_up_once;
      table = valid;
      compares = cmp;
      held = λ k id f. elim (ℕ_discrete start k) [
        | yes same ↦ (
          o',
          get_elem?-append t.objects o' [] id (
              ground (
                arith,
                same,
                f,
                find k word_size,
                absent,
                v.compares start k word_size,
                eq→== start k,
              )),
          right ∙ same,
        )
        | no other ↦
            let (p, at, from) = v.held k id (sym (old k other) ∙ f) in
            (p, get_elem?-append_left t.objects (o' ∷ []) id p at, from)
      ];
    };
    here = rw (new, tracked) (get_elem?-append t.objects o' [] (length t.objects) refl);
    elsewhere = λ k ne. elim (Option-cases (lookup t.track_map k word_size)) [
      | inl none_there ↦ rw (old k (λ e. ne (sym e)), none_there, tracked)
      | inr (id, f) ↦
          let (p, at, from) = v.held k id f in
          rw (old k (λ e. ne (sym e)), f, tracked)
            (get_elem?-append_left t.objects (o' ∷ []) id p at ∙ sym at)
    ];
  }
    where
      new : lookup m start word_size ≡ some (length t.objects)
      new = ground (
        arith,
        find start word_size,
        absent,
        v.compares start start word_size,
        eq→== start start refl,
      )

      old : (k : ℕ) → start ≢ k → lookup m k word_size ≡ lookup t.track_map k word_size
      old k ne = ground (
        arith,
        find k word_size,
        v.compares start k word_size,
        ne→== start k ne,
        Option-cases (lookup t.track_map k word_size),
      )

IsValid-suc : {n : ℕ} {t : Memtrack} → IsValid n t → IsValid (n + 1) t
IsValid-suc v = record {
  set_up_once = v.set_up_once;
  table = Laws.IsValid-suc v.table;
  compares = v.compares;
  held = v.held;
}

Tracks-suc :
    {n : ℕ} {t t' : Memtrack} {start : ℕ} {o : TrackObject}
    → Tracks n t t' start o
    → Tracks (n + 1) t t' start o
Tracks-suc r = record { valid = IsValid-suc r.valid; here = r.here; elsewhere = r.elsewhere }

module _ (n : ℕ) (t : Memtrack) (v : IsValid n t) (small : n + 1 < 2 ^ 31) (raw : TrackObject)
    (start size : ℕ) (type : FaultyObjectType) (some_start : start ≢ 0) where
  setup-ok :
      (o : TrackObject) (b : Bool) → setup o start size type b ≡ ok (set_up o start size type b)
  unfolding setup
  setup-ok o b = rw (ne→== start 0 some_start)

  found : HashMap.find t.track_map start word_size ≡ ok (lookup t.track_map start word_size)
  found = find-ok t.track_map n v.table start word_size (omega arith)

  -- The object is the one that `setup` leaves.
  pub insert_ready-merged :
      (t' : Memtrack) × (insert_ready t raw start size type ≡ ok t')
      × Tracks (n + 1) t t' start (merged (tracked t start) raw start size type)
  unfolding insert_ready setup_at merged tracked
  insert_ready-merged = elim (Option-cases (lookup t.track_map start word_size)) [
    | inl absent ↦
        let (m, put, valid, cmp, find) =
          lookup-insert t.track_map n v.table start word_size (length t.objects) small (lawful v) in
        let o : TrackObject = set_up raw start size type false in
        (
          record t { track_map = m; objects = t.objects ++ o ∷ [] },
          ground (arith, ne→== start 0 some_start, found, absent, put, setup-ok raw false),
          rw (absent, tracked)
              (added n t v start o (start-set_up raw start size type false) m valid
                (λ a b k. rw cmp (v.compares a b k)) absent find),
        )
    | inr (id, e) ↦
        let (o, at, from) = v.held start id e in
        let o' : TrackObject = set_up o start size type true in
        (
          record t { objects = set t.objects id o' },
          ground (arith, ne→== start 0 some_start, found, e, at, setup-ok o true),
          rw (e, at, tracked)
              (Tracks-suc (changed n t v start o' (start-set_up o start size type true) id e)),
        )
  ]

  -- `insert` into a valid tracker, at a start that is not null and with fewer than 2 ^ 31
  -- insertions, tracks the object at its start, with its error type added to those that it
  -- had, keeps the tracker valid, and leaves what is tracked elsewhere.
  pub insert_ready-Tracks :
      (t' : Memtrack) × (o : TrackObject) × (insert_ready t raw start size type ≡ ok t')
      × Tracks (n + 1) t t' start o
      × HasError (tracked t start) raw o start size type
  insert_ready-Tracks =
      let (t', e, r) = insert_ready-merged in
      (
        t',
        merged (tracked t start) raw start size type,
        e,
        r,
        merged-HasError (tracked t start) raw start size type,
      )
