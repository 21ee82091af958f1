-- ===== src/Auth/Revocation/Lookups.antt =====
-- What the cache's operations leave under a key that is not there.
use Prim.Native.String.append
use Prim.Native.String.compare
use Prim.Native.String.{◌++◌, compare}
use text.Mathlib.Text.{is_eq}
use guardian_tracker.Prelude.{
  ℕ, ◌≡◌, refl, ap, ◌∙◌, false, none, String, ◌==◌, string_eq, nat_eq, ℤ, arith, lookup,
  lookup-insert, lookup-delete, beq_refl,
}
use guardian_tracker.Cache
use guardian_tracker.Cache.{MemoryCache, get_read, get_evict, remove}
use guardian_tracker.Auth.Revocation.{auth_info_cache_key, session_cache_key, ttl}

-- The two sorts of keys never meet.
pub keys_apart : (m id : String) → (auth_info_cache_key m == session_cache_key id) ≡ false
keys_apart m id =
    (λ i. is_eq (compare (append.cons "t" "ver:" m i) (append.cons "s" "ess:" id i)))
    ∙ ap is_eq (compare.cons-cons "t" "s" ("ver:" ++ m) ("ess:" ++ id))

module _ {ℓ} {V : Type ℓ} where
  pub get_absent :
      (key : String) (now now' : ℕ) (c : MemoryCache V)
      → lookup key c.items ≡ none
      → Cache.get key now now' c ≡ (none, c)
  unfolding Cache.get
  get_absent key now now' c h = ground (arith, h)

  pub absent-get :
      (key other : String) (now now' : ℕ) (c : MemoryCache V)
      → lookup other c.items ≡ none
      → lookup other (Cache.get key now now' c).1.items ≡ none
  unfolding Cache.get
  absent-get key other now now' c h = ground (arith, lookup-delete key other c.items, h)

  pub absent-set :
      (key other : String) (v : V) (ttl : ℤ) (now : ℕ) (c : MemoryCache V)
      → (key == other) ≡ false
      → lookup other c.items ≡ none
      → lookup other (Cache.set key v ttl now c).items ≡ none
  unfolding Cache.set
  absent-set key other v ttl now c apart h = rw (lookup-insert, apart) h

  pub absent-remove : (key : String) (c : MemoryCache V) → lookup key (remove key c).items ≡ none
  unfolding remove
  absent-remove key c = rw (lookup-delete, beq_refl) refl
