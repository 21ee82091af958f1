-- ===== src/ManifestState/Load.antt =====
-- services/manifeststate/load.go: `Load` and `LoadIf`, the cache's load behind the fence. Between the
-- capture of the attempt and the lookup, and again while the value is loaded, other goroutines act.
use guardian_tracker.Prelude.{
  ℕ, ◌+◌, ◌<◌, ◌≡◌, refl, Bool, true, false, Option, none, some, List, String, if◌then◌else◌, arith,
  ◌==◌, nat_eq, ℤ,
}
use guardian_tracker.Prelude.Results.{Result, ok, err}
use guardian_tracker.Cache.Load.{
  AnyCache, nil, no_op, memory, Readings, any_get, any_set, wants, typed,
}
use guardian_tracker.ManifestState.{Owner, Attempt, begun, u64, Event, begin, publish, run}
use guardian_tracker.ManifestState.Fence.{turns, generation-run, same_generation}

pub data LoadError {ℓ} (E : Type ℓ) : Type ℓ where
  nil_publication : LoadError E
  failed : E → LoadError E

abbrev pub is_nil {ℓ} : {V : Type ℓ} → AnyCache V → Bool
is_nil nil = true
is_nil no_op = false
is_nil (memory c) = false

module _ {ℓ} {V : Type ℓ} where
  -- the lookup, in the owner's cache
  unfoldable pub look_up : String → Readings → Owner (AnyCache V) → Option V × Owner (AnyCache V)
  look_up key t p = let (v, c) = any_get key t p.state in (v, record p { state = c })

module _ {ℓ} {V T E : Type ℓ} (into : T → V) where
  -- after the load: `attempt.Publish(func() { c.Set(key, value, ttl) })`, if there is a cache and the
  -- predicate wants the value
  abbrev finish :
      Attempt
      → String
      → ℤ
      → Readings
      → Option (T → Bool)
      → Result E T
      → Owner (AnyCache V)
      → Result (LoadError E) T × Owner (AnyCache V)
  finish a key ttl t store_if (err e) p = (err (failed e), p)
  finish a key ttl t store_if (ok value) p =
      if is_nil p.state
      then (ok value, p)
      else if wants store_if value
      then (ok value, (publish a (any_set key (into value) ttl t) p).1)
      else (ok value, p)

  finish_lem :
      (g : ℕ) (key : String) (ttl : ℤ) (t : Readings) (store_if : Option (T → Bool)) (value : T)
      (q : Owner (AnyCache V)) (b : Bool)
      → (g == q.generation) ≡ b
      → finish (begun g) key ttl t store_if (ok value) q ≡ (
        ok value,
        (if is_nil q.state
            then q
            else if wants store_if value
            then (if b then record q { state = any_set key (into value) ttl t q.state } else q)
            else q),
      )
  unfolding publish
  finish_lem g key ttl t store_if value q b same = rw same (ground arith)

module _ {ℓ} {V : Type ℓ} (invalidate : AnyCache V → AnyCache V) where
  look_up-generation :
      (key : String) (t : Readings) (p : Owner (AnyCache V))
      → (look_up key t p).1.generation ≡ p.generation
  unfolding look_up
  look_up-generation key t p = refl

  -- The lookup stands between two histories and leaves the counter alone.
  same-run :
      (key : String) (t : Readings) (before during : List (Event (AnyCache V)))
      (p : Owner (AnyCache V))
      → let p' = (look_up key t (run invalidate before p)).1 in
        let n = turns p.version before + turns p'.version during in
        p.generation < 18446744073709551616
        → n < 18446744073709551616
        → (p.generation == (run invalidate during p').generation) ≡ (n == 0)
  same-run key t before during p h few =
      let p' = (look_up key t (run invalidate before p)).1 in
      let g = look_up-generation key t (run invalidate before p) in
      let g' = generation-run invalidate before p h in
      let m = turns p.version before in
      let n = turns p'.version during in
      let bound : p'.generation < 18446744073709551616 = omega (arith, g, g') in
      let eg : (run invalidate during p').generation ≡ u64 (u64 (p.generation + m) + n) =
        omega (arith, generation-run invalidate during p' bound, g, g') in
      rw eg (same_generation p.generation m n h few)

module _ {ℓ} {V T E : Type ℓ} (as_type : V → Option T) (into : T → V)
    (invalidate : AnyCache V → AnyCache V) where
  abbrev serve :
      Option T
      → Owner (AnyCache V)
      → Result (LoadError E) T × Owner (AnyCache V)
      → Result (LoadError E) T × Owner (AnyCache V)
  serve (some value) p missed = (ok value, p)
  serve none p missed = missed

  -- `before` happens between `Begin` and the lookup, `during` while `load` runs; `loaded` is what it
  -- returns
  unfoldable pub load_if :
      String
      → ℤ
      → Readings
      → Result E T
      → Option (T → Bool)
      → List (Event (AnyCache V))
      → List (Event (AnyCache V))
      → Owner (AnyCache V)
      → Result (LoadError E) T × Owner (AnyCache V)
  load_if key ttl t loaded store_if before during p =
      let a = begin p in
      let (cached, p') = look_up key t (run invalidate before p) in
      serve (typed as_type cached) p'
        (finish into a key ttl t store_if loaded (run invalidate during p'))

  -- a nil `*Publication` is refused before anything is read
  unfoldable pub load_if_checked :
      String
      → ℤ
      → Readings
      → Result E T
      → Option (T → Bool)
      → List (Event (AnyCache V))
      → List (Event (AnyCache V))
      → Option (Owner (AnyCache V))
      → Result (LoadError E) T × Option (Owner (AnyCache V))
  unfolding load_if
  load_if_checked key ttl t loaded store_if before during none = (err nil_publication, none)
  load_if_checked key ttl t loaded store_if before during (some p) =
      let (r, p') = load_if key ttl t loaded store_if before during p in (r, some p')

  unfoldable pub load :
      String
      → ℤ
      → Readings
      → Result E T
      → List (Event (AnyCache V))
      → List (Event (AnyCache V))
      → Option (Owner (AnyCache V))
      → Result (LoadError E) T × Option (Owner (AnyCache V))
  unfolding load_if_checked
  load key ttl t loaded before during p = load_if_checked key ttl t loaded none before during p

  -- If the lookup misses and `load` succeeds, the caller gets the loaded value in every case; and
  -- what is left is the state that the other goroutines made, with the value stored on top if the
  -- cache is there, the predicate wants the value and the version did not change since `Begin`, and
  -- untouched otherwise. The version changes fewer than 2^64 times meanwhile.
  pub load_if_miss :
      (key : String) (ttl : ℤ) (t : Readings) (value : T) (store_if : Option (T → Bool))
      (before during : List (Event (AnyCache V))) (p : Owner (AnyCache V))
      → let p' = (look_up key t (run invalidate before p)).1 in
        let after = run invalidate during p' in
        let n = turns p.version before + turns p'.version during in
        typed as_type (look_up key t (run invalidate before p)).0 ≡ none
        → p.generation < 18446744073709551616
        → n < 18446744073709551616
        → load_if key ttl t (ok value) store_if before during p ≡ (
          ok value,
          (if is_nil after.state
              then after
              else if wants store_if value
              then (if n == 0
                  then record after { state = any_set key (into value) ttl t after.state }
                  else after)
              else after),
        )
  unfolding load_if begin
  load_if_miss key ttl t value store_if before during p miss h few =
      let p' = (look_up key t (run invalidate before p)).1 in
      let after = run invalidate during p' in
      rw miss (
        finish_lem into p.generation key ttl t store_if value after _
          (same-run invalidate key t before during p h few))
