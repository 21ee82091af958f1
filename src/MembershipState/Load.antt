-- ===== src/MembershipState/Load.antt =====
-- services/membershipstate/load.go: the cache's load behind the fence of one membership. Between the
-- capture of the attempt and the lookup, and again while the value is loaded, other goroutines act.
use guardian_tracker.Prelude.{
  ℕ, ◌+◌, ◌<◌, ◌≡◌, Bool, Option, none, some, List, String, if◌then◌else◌, arith, ◌==◌, nat_eq,
  string_eq, int_eq, pair_eq, ℤ,
}
use guardian_tracker.Prelude.Results.{Result, ok, err}
use guardian_tracker.Cache.Load.{AnyCache, Readings, any_get, any_set, typed}
use guardian_tracker.ManifestState.{u64}
use guardian_tracker.ManifestState.Fence.{same_generation}
use guardian_tracker.ManifestState.Load.{LoadError, nil_publication, failed, is_nil}
use guardian_tracker.MembershipState.{
  Membership, Owner, Attempt, begun, Event, generation_of, begin, publish, run,
}
use guardian_tracker.MembershipState.Fence.{refreshes, generation_of-run}

module _ {ℓ} {V : Type ℓ} where
  -- the lookup, in the owner's cache
  unfoldable pub look_up : String → Readings → Owner (AnyCache V) → Option V × Owner (AnyCache V)
  look_up key t p = let (v, c) = any_get key t p.state in (v, record p { state = c })

module _ {ℓ} {V T E : Type ℓ} (into : T → V) where
  -- after the load: `attempt.Publish(func() { c.Set(key, value, ttl) })`, if there is a cache
  abbrev finish :
      Attempt
      → String
      → ℤ
      → Readings
      → Result E T
      → Owner (AnyCache V)
      → Result (LoadError E) T × Owner (AnyCache V)
  finish a key ttl t (err e) p = (err (failed e), p)
  finish a key ttl t (ok value) p =
      if is_nil p.state
      then (ok value, p)
      else (ok value, (publish a (any_set key (into value) ttl t) p).1)

  finish_lem :
      (m : Membership) (g : ℕ) (key : String) (ttl : ℤ) (t : Readings) (value : T)
      (q : Owner (AnyCache V)) (b : Bool)
      → (g == generation_of m q) ≡ b
      → finish (begun m g) key ttl t (ok value) q ≡ (
        ok value,
        (if is_nil q.state
            then q
            else if b
            then record q { state = any_set key (into value) ttl t q.state }
            else q),
      )
  unfolding publish
  finish_lem m g key ttl t value q b same = rw same (ground arith)

module _ {ℓ} {V : Type ℓ} (invalidate : Membership → AnyCache V → AnyCache V) where
  -- The lookup stands between two histories and leaves the counters alone.
  same-run :
      (m : Membership) (key : String) (t : Readings) (before during : List (Event (AnyCache V)))
      (p : Owner (AnyCache V))
      → let p' = (look_up key t (run invalidate before p)).1 in
        let n = refreshes m before + refreshes m during in
        generation_of m p < 18446744073709551616
        → n < 18446744073709551616
        → (generation_of m p == generation_of m (run invalidate during p')) ≡ (n == 0)
  unfolding look_up
  same-run m key t before during p h few =
      let p' = (look_up key t (run invalidate before p)).1 in
      let g' : generation_of m p' ≡ u64 (generation_of m p + refreshes m before) =
        generation_of-run invalidate m before p h in
      let bound : generation_of m p' < 18446744073709551616 = omega (arith, g') in
      let eg : generation_of m (run invalidate during p')
          ≡ u64 (u64 (generation_of m p + refreshes m before) + refreshes m during) =
        omega (arith, generation_of-run invalidate m during p' bound, g') in
      rw eg (same_generation (generation_of m p) (refreshes m before) (refreshes m during) h few)

module _ {ℓ} {V T E : Type ℓ} (as_type : V → Option T) (into : T → V)
    (invalidate : Membership → AnyCache V → AnyCache V) where
  abbrev serve :
      Option T
      → Owner (AnyCache V)
      → Result (LoadError E) T × Owner (AnyCache V)
      → Result (LoadError E) T × Owner (AnyCache V)
  serve (some value) p missed = (ok value, p)
  serve none p missed = missed

  -- `before` happens between `Begin` and the lookup, `during` while `load` runs; `loaded` is what it
  -- returns
  unfoldable pub load :
      Membership
      → String
      → ℤ
      → Readings
      → Result E T
      → List (Event (AnyCache V))
      → List (Event (AnyCache V))
      → Owner (AnyCache V)
      → Result (LoadError E) T × Owner (AnyCache V)
  load m key ttl t loaded before during p =
      let a = begin m p in
      let (cached, p') = look_up key t (run invalidate before p) in
      serve (typed as_type cached) p' (finish into a key ttl t loaded (run invalidate during p'))

  -- a nil `*Publication` is refused before anything is read
  unfoldable pub load_checked :
      Membership
      → String
      → ℤ
      → Readings
      → Result E T
      → List (Event (AnyCache V))
      → List (Event (AnyCache V))
      → Option (Owner (AnyCache V))
      → Result (LoadError E) T × Option (Owner (AnyCache V))
  unfolding load
  load_checked m key ttl t loaded before during none = (err nil_publication, none)
  load_checked m key ttl t loaded before during (some p) =
      let (r, p') = load m key ttl t loaded before during p in (r, some p')

  -- If the lookup misses and `load` succeeds, the caller gets the loaded value in every case; and what
  -- is left is the state that the other goroutines made, with the value stored on top if the cache is
  -- there and this membership was not refreshed since `Begin`, and untouched otherwise. Refreshes of
  -- other memberships do not matter. The membership is refreshed fewer than 2^64 times meanwhile.
  pub load_miss :
      (m : Membership) (key : String) (ttl : ℤ) (t : Readings) (value : T)
      (before during : List (Event (AnyCache V))) (p : Owner (AnyCache V))
      → let p' = (look_up key t (run invalidate before p)).1 in
        let after = run invalidate during p' in
        let n = refreshes m before + refreshes m during in
        typed as_type (look_up key t (run invalidate before p)).0 ≡ none
        → generation_of m p < 18446744073709551616
        → n < 18446744073709551616
        → load m key ttl t (ok value) before during p ≡ (
          ok value,
          (if is_nil after.state
              then after
              else if n == 0
              then record after { state = any_set key (into value) ttl t after.state }
              else after),
        )
  unfolding load begin
  load_miss m key ttl t value before during p miss h few =
      let after = run invalidate during (look_up key t (run invalidate before p)).1 in
      rw miss (
        finish_lem into m (generation_of m p) key ttl t value after _
          (same-run invalidate m key t before during p h few))
