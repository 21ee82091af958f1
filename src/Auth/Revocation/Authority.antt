-- ===== src/Auth/Revocation/Authority.antt =====
-- Where the role of a request comes from.

use guardian_tracker.Prelude.{
  ℕ, ◌≡◌, ◌⊎◌, inl, inr, Option, none, some, String, ◌==◌, string_eq, nat_eq, ℤ, arith, Bool-cases,
}
use guardian_tracker.Prelude.Results.{Result, ok, err}
use guardian_tracker.Cache
use guardian_tracker.Cache.{MemoryCache, get_read, get_evict, remove}
use guardian_tracker.Cache.Load.{Readings}
use guardian_tracker.Auth.{role_standard}
use guardian_tracker.Auth.Revocation.{
  Cached, AuthError, UserAuthStore, auth_info_cache_key, as_auth_info, judge_info, ask_info,
  resolve_cached, check_session, resolve, resolve_stored, with_role,
}

module _ {ℓ} {E : Type ℓ} (store : UserAuthStore E) where
  with_role-known :
      (known role : ℤ) (r : Result AuthError (Unit {0}) × MemoryCache Cached)
      → (with_role store known r).0 ≡ ok role
      → known ≡ role
  with_role-known known role (ok u, c) h = ground arith
  with_role-known known role (err e, c) h = absurd (cc)

  judged :
      (claimed : ℕ) (id : String) (t : Readings) (version : ℕ) (known : ℤ) (c : MemoryCache Cached)
      (role : ℤ)
      → (judge_info store claimed id t (version, known) c).0 ≡ ok role
      → (version ≡ claimed) × (known ≡ role)
  judged claimed id t version known c role h = elim (Bool-cases (version == claimed)) [
    | inr stale ↦ absurd (ground (arith, stale, h))
    | inl same ↦ elim (Bool-cases (id == "")) [
      | inl unnamed ↦ (ground (arith, same), ground (arith, same, unnamed, h))
      | inr named ↦ (
        ground (arith, same),
        with_role-known known role (check_session store id t c) (rw (same, named) at h),
      )
    ]
  ]

  asked :
      (m : String) (claimed : ℕ) (id : String) (t t' : Readings) (c : MemoryCache Cached)
      (answer : Result E (Option (ℕ × ℤ))) (role : ℤ)
      → (ask_info store m claimed id t t' answer c).0 ≡ ok role
      → (role ≡ role_standard) ⊎ (answer ≡ ok (some (claimed, role)))
  asked m claimed id t t' c (err e) role h = inl (ground arith)
  asked m claimed id t t' c (ok none) role h = absurd (cc)
  asked m claimed id t t' c (ok (some (version, known))) role h =
      let (v, r) = judged claimed id t' version known _ role h in inr (λ i. ok (some (v i, r i)))

  role_source :
      (m : String) (claimed : ℕ) (id : String) (t t' : Readings) (c : MemoryCache Cached)
      (held : Option (ℕ × ℤ)) (role : ℤ)
      → (resolve_cached store m claimed id t t' held c).0 ≡ ok role
      → (role ≡ role_standard)
        ⊎ (held ≡ some (claimed, role))
        ⊎ (store.auth_info_of m ≡ ok (some (claimed, role)))
  role_source m claimed id t t' c (some (version, known)) role h =
      let (v, r) = judged claimed id t' version known c role h in inr (inl (λ i. some (v i, r i)))
  role_source m claimed id t t' c none role h =
      elim (asked m claimed id t t' c (store.auth_info_of m) role h) [
        | inl standard ↦ inl standard
        | inr known ↦ inr (inr known)
      ]

  -- Where a role comes from: a role that the checker answers is the standard one, or the one that the
  -- cache held with the token's own version, or the one that the store holds with it. An error of the
  -- store lets a request through with the standard role only.
  pub resolve_role :
      (m id : String) (claimed : ℕ) (t t' : Readings) (c : MemoryCache Cached) (role : ℤ)
      → (resolve (some store) m claimed id t t' c).0 ≡ ok role
      → (role ≡ role_standard)
        ⊎ (as_auth_info (Cache.get (auth_info_cache_key m) t.peeked t.evicted c).0
            ≡ some (claimed, role))
        ⊎ (store.auth_info_of m ≡ ok (some (claimed, role)))
  unfolding resolve resolve_stored
  resolve_role m id claimed t t' c role h =
      let got = Cache.get (auth_info_cache_key m) t.peeked t.evicted c in
      role_source m claimed id t t' got.1 (as_auth_info got.0) role h
