-- ===== src/Auth/Revocation/Endings.antt =====
-- A session that was ended, or a user that signed out everywhere, is refused at once.

use guardian_tracker.Prelude.{
  ℕ, ◌+◌, ◌≤◌, ◌≡◌, refl, ap, inl, inr, Bool, true, false, Option, none, some, String, ◌==◌,
  string_eq, nat_eq, ℤ, arith, lookup, lookup-delete, beq_refl, Option-cases,
}
use guardian_tracker.Prelude.Results.{Result, ok, err}
use guardian_tracker.Cache
use guardian_tracker.Cache.{MemoryCache, get_read, get_evict, remove}
use guardian_tracker.Cache.Load.{Readings}
use guardian_tracker.Accounts.{UserStore, find_member, get_auth_info, bump_token_version}
use guardian_tracker.Accounts.Table.{IsUserStore, find_member-insert}
use guardian_tracker.Accounts.Sessions.{session_exists, delete_session, unexpired}
use guardian_tracker.Auth.Revocation.{
  Cached, token_revoked, UserAuthStore, auth_info_cache_key, session_cache_key, as_auth_info,
  judge_info, ask_info, check_session, resolve, resolve_stored, Server, store_of, end_session,
  end_all_sessions, auth_info, ttl,
}
use guardian_tracker.Auth.Revocation.Lookups.{
  keys_apart, get_absent, absent-get, absent-set, absent-remove,
}

-- A sign-out everywhere moves the user's token version on.
bumped :
    (m : String) (version : ℕ) (role : ℤ) (st : UserStore)
    → IsUserStore st
    → get_auth_info m st ≡ some (version, role)
    → get_auth_info m (bump_token_version m st) ≡ some (version + 1, role)
unfolding get_auth_info bump_token_version
bumped m version role st w h = elim (Option-cases (find_member m st.users)) [
  | inl missing ↦ absurd (ground (arith, missing))
  | inr ((i, u), found) ↦
      let u' = record u { token_version = u.token_version + 1 } in
      let moved = find_member-insert m i u u' st.users w.distinct found refl in
      rw (found, bump_token_version) (ground (arith, moved, found))
]

abbrev pub is_ok {ℓ κ} : {E : Type ℓ} {A : Type κ} → Result E A → Bool
is_ok (ok a) = true
is_ok (err e) = false

-- After a user signs out everywhere, every access token of theirs issued until then is refused as
-- revoked, at any instant and whatever its session is, if nothing else happens to the cache in
-- between: the token's version was at most the user's, and the table of users is well-formed.
pub end_all_sessions-resolve :
    (m id : String) (version claimed now : ℕ) (role : ℤ) (t t' : Readings) (server : Server)
    → IsUserStore server.users
    → get_auth_info m server.users ≡ some (version, role)
    → claimed ≤ version
    → (resolve
        (some (store_of now (end_all_sessions m server)))
        m
        claimed
        id
        t
        t'
        (end_all_sessions m server).cache).0
      ≡ err token_revoked
unfolding resolve resolve_stored end_all_sessions
end_all_sessions-resolve m id version claimed now role t t' server w h old =
    let key = auth_info_cache_key m in
    let gone =
      get_absent key t.peeked t.evicted (remove key server.cache)
        (absent-remove key server.cache) in
    rw (gone, bumped m version role server.users w h)
      (let newer : (version + 1 == claimed) ≡ false = ground arith in rw newer refl)

module _ {ℓ} {E : Type ℓ} where
  refused-session :
      (store : UserAuthStore E) (claimed : ℕ) (id : String) (t : Readings) (info : ℕ × ℤ)
      (c : MemoryCache Cached)
      → (id == "") ≡ false
      → lookup (session_cache_key id) c.items ≡ none
      → store.has_session id ≡ ok false
      → is_ok (judge_info store claimed id t info c).0 ≡ false
  unfolding check_session
  refused-session store claimed id t info c named absent dead =
      rw (named, get_absent (session_cache_key id) t.peeked t.evicted c absent, dead) (ground arith)

  refused-ask :
      (store : UserAuthStore E) (m : String) (claimed : ℕ) (id : String) (t t' : Readings)
      (c : MemoryCache Cached) (answer : Option (ℕ × ℤ))
      → (id == "") ≡ false
      → lookup (session_cache_key id) c.items ≡ none
      → store.has_session id ≡ ok false
      → is_ok (ask_info store m claimed id t t' (ok answer) c).0 ≡ false
  refused-ask store m claimed id t t' c none named absent dead = refl
  refused-ask store m claimed id t t' c (some (version, role)) named absent dead =
      refused-session store claimed id t' (version, role)
        (Cache.set (auth_info_cache_key m) (auth_info version role) ttl t.stored c) named
        (absent-set (auth_info_cache_key m) (session_cache_key id) (auth_info version role) ttl
          t.stored c (keys_apart m id) absent)
        dead

  refused-resolve :
      (store : UserAuthStore E) (m : String) (claimed : ℕ) (id : String) (t t' : Readings)
      (c : MemoryCache Cached) (answer : Option (ℕ × ℤ))
      → (id == "") ≡ false
      → lookup (session_cache_key id) c.items ≡ none
      → store.has_session id ≡ ok false
      → store.auth_info_of m ≡ ok answer
      → is_ok (resolve_stored store m claimed id t t' c).0 ≡ false
  unfolding resolve_stored
  refused-resolve store m claimed id t t' c answer named absent dead found =
      let got = Cache.get (auth_info_cache_key m) t.peeked t.evicted c in
      let absent' =
        absent-get (auth_info_cache_key m) (session_cache_key id) t.peeked t.evicted c absent in
      elim (Option-cases (as_auth_info got.0)) [
        | inr (info, hit) ↦
            rw hit (refused-session store claimed id t' info got.1 named absent' dead)
        | inl miss ↦
            rw (miss, found) (refused-ask store m claimed id t t' got.1 answer named absent' dead)
      ]

abbrev ended : String → Server → Server
ended id server = record server {
  sessions = delete_session id server.sessions;
  cache = remove (session_cache_key id) server.cache;
}

-- After a session was ended, an access token that names it is refused, at any instant and whatever
-- its user and its version are, if nothing else happens to the cache in between.
pub end_session-resolve :
    (m id : String) (claimed now : ℕ) (t t' : Readings) (server : Server)
    → (id == "") ≡ false
    → is_ok
        (resolve
          (some (store_of now (end_session id server)))
          m
          claimed
          id
          t
          t'
          (end_session id server).cache).0
      ≡ false
unfolding resolve end_session session_exists delete_session
end_session-resolve m id claimed now t t' server named =
    let row : lookup id (delete_session id server.sessions) ≡ none =
      rw (lookup-delete, beq_refl) refl in
    rw (named, end_session)
      (refused-resolve (store_of now (ended id server)) m claimed id t t' (ended id server).cache
        (get_auth_info m server.users) named (absent-remove (session_cache_key id) server.cache)
        (ap (λ o. ok (unexpired now o)) row) refl)
