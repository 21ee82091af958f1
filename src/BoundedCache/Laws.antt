-- ===== src/BoundedCache/Laws.antt =====
-- The bound of the memo, and what a store keeps.
use guardian_tracker.Prelude.{
  not, ◌&&◌, ℕ, zero, suc, ◌%◌, ◌≤◌, ◌<◌, ◌≡◌, refl, ◌⊎◌, inl, inr, Bool, true, false, Option, none,
  some, [], List, ◌∷◌, leb, if◌then◌else◌, Eq, ◌==◌, Assoc, lookup, insert, delete, is_some, length,
  get_elem?, arith, Distinct, insert-Distinct, delete-Distinct, lookup-insert, lookup-delete,
  length-insert, length-delete_hit, beq_refl, Option-cases, Bool-cases,
}
use guardian_tracker.Prelude.Results.{Result, ok, err, Result-cases}
use guardian_tracker.BoundedCache.{
  BoundedCache, evict_one, put, get, keep_loaded, wants, load, size, clear,
}

get_elem?_lem {ℓ} :
    {A : Type ℓ} (xs : List A) (i : ℕ) → i < length xs → (a : A) × (get_elem? xs i ≡ some a)
get_elem?_lem [] i h = absurd (omega arith)
get_elem?_lem (x ∷ xs) zero h = (x, refl)
get_elem?_lem (x ∷ xs) (suc i) h = get_elem?_lem xs i (omega arith)

module _ {ℓ} {K V : Type ℓ} ⦃e : Eq K⦄ where
  pub record IsBounded (c : BoundedCache K V) : Type 0 where
    pub distinct : Distinct c.entries
    pub bounded : length c.entries ≤ c.max

  lookup-get_elem? :
      (m : Assoc K V) (i : ℕ) {k : K} {v : V}
      → Distinct m
      → get_elem? m i ≡ some (k, v)
      → lookup k m ≡ some v
  unfolding lookup
  lookup-get_elem? [] i d h = cc
  lookup-get_elem? ((j, w) ∷ m) zero {k} {v} d h = ground (arith, beq_refl j)
  lookup-get_elem? ((j, w) ∷ m) (suc i) {k} {v} d h =
      ground (arith, lookup-get_elem? m i {k = k} {v = v}, e.beq_iff j k)

  -- A full map loses exactly one entry.
  evict_one_lem :
      (pick : ℕ) (m : Assoc K V)
      → Distinct m
      → 0 < length m
      → (k : K) × (v : V) × (lookup k m ≡ some v) × (evict_one pick m ≡ delete k m)
  unfolding evict_one
  evict_one_lem pick m d h =
      let (entry, found) = get_elem?_lem m (pick % length m) (grind arith) in
      (entry.0, entry.1, lookup-get_elem? m (pick % length m) d found, rw (found, evict_one) refl)

  put_into-IsBounded :
      (key : K) (v : V) (max : ℕ) (m : Assoc K V)
      → Distinct m
      → length m ≤ max
      → (is_some (lookup key m) ≡ true) ⊎ (length m < max)
      → IsBounded (record { entries = insert key v m; max = max })
  put_into-IsBounded key v max m d h room = record {
    distinct = insert-Distinct key v m d;
    bounded = ground (arith, length-insert key v m);
  }

  -- Storing keeps the bound, whichever entry a full memo drops.
  put-IsBounded :
      (pick : ℕ) (key : K) (v : V) (c : BoundedCache K V)
      → 0 < c.max
      → IsBounded c
      → IsBounded (put pick key v c)
  unfolding put
  put-IsBounded pick key v c pos b =
      elim (Bool-cases (not (is_some (lookup key c.entries)) && leb c.max (length c.entries))) [
        | inl full ↦
            let (k, w, found, shape) = evict_one_lem pick c.entries b.distinct (ground arith) in
            rw (full, shape)
              (put_into-IsBounded key v c.max (delete k c.entries)
                (delete-Distinct k c.entries b.distinct)
                (omega (arith, length-delete_hit k w c.entries found, b.bounded))
                (inr (omega (arith, length-delete_hit k w c.entries found, b.bounded))))
        | inr not_full ↦
            rw not_full
              (put_into-IsBounded key v c.max c.entries b.distinct b.bounded (ground arith))
      ]

  -- While the memo has room, or holds the key already, a store changes what is read under the key
  -- and nothing else.
  pub get-put_room :
      (pick : ℕ) (key other : K) (v : V) (c : BoundedCache K V)
      → (is_some (get key c) ≡ true) ⊎ (size c < c.max)
      → get other (put pick key v c) ≡ (if key == other then some v else get other c)
  unfolding put get size
  get-put_room pick key other v c room = ground (arith, lookup-insert key other v c.entries)

  -- A store of a new key into a full memo drops exactly one entry, of a key that was held, and
  -- changes what is read under that key and the stored one and nothing else.
  pub get-put_full :
      (pick : ℕ) (key : K) (v : V) (c : BoundedCache K V)
      → 0 < c.max
      → IsBounded c
      → is_some (get key c) ≡ false
      → size c ≡ c.max
      → (dropped : K) × (is_some (get dropped c) ≡ true)
        × ((j : K)
            → get j (put pick key v c)
              ≡ (if key == j then some v else if dropped == j then none else get j c))
  unfolding put get size
  get-put_full pick key v c pos b new full =
      let (k, w, found, shape) = evict_one_lem pick c.entries b.distinct (ground arith) in
      let is_full : (not (is_some (lookup key c.entries)) && leb c.max (length c.entries)) ≡ true =
        ground arith in
      (k, ground arith, λ j. rw (is_full, shape, lookup-insert, lookup-delete) refl)

  kept-IsBounded :
      (pick : ℕ) (key : K) (v : V) (wanted : Bool) (c : BoundedCache K V)
      → 0 < c.max
      → IsBounded c
      → IsBounded (keep_loaded pick key v wanted c)
  kept-IsBounded pick key v true c pos b = put-IsBounded pick key v c pos b
  kept-IsBounded pick key v false c pos b = b

  load-IsBounded {κ} :
      {E : Type κ} (pick : ℕ) (key : K) (fetch : K → Result E V) (store_if : Option (V → Bool))
      (c : BoundedCache K V)
      → 0 < c.max
      → IsBounded c
      → IsBounded (load pick key fetch store_if c).1
  unfolding load
  load-IsBounded pick key fetch store_if c pos b = elim (Option-cases (lookup key c.entries)) [
    | inr (v, found) ↦ rw (found, load) b
    | inl missing ↦ elim (Result-cases (fetch key)) [
      | inl (v, fetched) ↦
          rw (missing, load) (rw fetched (kept-IsBounded pick key v (wants store_if v) c pos b))
      | inr (x, failed) ↦ rw (missing, load) (rw failed b)
    ]
  ]

  -- Every operation keeps the bound: after any `load`, `put` or `clear` the memo still holds each key
  -- once and at most `max` entries.
  pub operations-IsBounded {κ} :
      {E : Type κ} (pick : ℕ) (key : K) (v : V) (fetch : K → Result E V)
      (store_if : Option (V → Bool)) (c : BoundedCache K V)
      → 0 < c.max
      → IsBounded c
      → IsBounded (load pick key fetch store_if c).1
        × IsBounded (put pick key v c)
        × IsBounded (clear c)
  unfolding clear
  operations-IsBounded pick key v fetch store_if c pos b = (
    load-IsBounded pick key fetch store_if c pos b,
    put-IsBounded pick key v c pos b,
    record { distinct = tt; bounded = omega arith },
  )

  get-put_self :
      (pick : ℕ) (key : K) (v : V) (c : BoundedCache K V)
      → lookup key (put pick key v c).entries ≡ some v
  unfolding put
  get-put_self pick key v c = rw (lookup-insert, beq_refl) refl

  -- An error is never stored; and after a `load` that returned a value, found or wanted by the
  -- predicate, the next `load` of the key returns the same value and changes nothing, whatever its
  -- own fetch and predicate are.
  pub load-load {κ} :
      {E : Type κ} (pick pick' : ℕ) (key : K) (fetch fetch' : K → Result E V)
      (store_if store_if' : Option (V → Bool)) (c : BoundedCache K V)
      → ((x : E)
          → (load pick key fetch store_if c).0 ≡ err x
          → (load pick key fetch store_if c).1 ≡ c)
        × ((v : V)
            → (load pick key fetch store_if c).0 ≡ ok v
            → (get key c ≡ none → wants store_if v ≡ true)
            → load pick' key fetch' store_if' (load pick key fetch store_if c).1
              ≡ (ok v, (load pick key fetch store_if c).1))
  unfolding load get
  load-load pick pick' key fetch fetch' store_if store_if' c =
      (λ x h. ground arith, λ v h wanted. ground (arith, get-put_self pick key v c))
