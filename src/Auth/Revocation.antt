-- ===== src/Auth/Revocation.antt =====
-- auth/revocation.go, and the endings of sessions in auth/session.go. The cache holds two sorts of
-- values under one map, told apart by their type. `store` is `UserAuthStore`, whose calls may fail.
pub mod Authority
pub mod Endings
pub mod Lookups
use Prim.Native.String.{◌++◌}
use guardian_tracker.Prelude.{
  delete, ℕ, Bool, true, false, Option, none, some, String, if◌then◌else◌, ◌==◌, string_eq, nat_eq,
  ℤ, pos, not, Assoc,
}
use guardian_tracker.Prelude.Results.{Result, ok, err}
use guardian_tracker.Cache
use guardian_tracker.Cache.{MemoryCache}
use guardian_tracker.Cache.Load.{Readings}
use guardian_tracker.Auth.{role_standard}
use guardian_tracker.Accounts.{UserStore, get_auth_info, bump_token_version}
use guardian_tracker.Accounts.Sessions.{
  Session, session_exists, delete_session, delete_user_sessions,
}

-- The cached values: `authInfo` and `bool`.
pub data Cached : Type 0 where
  auth_info : ℕ → ℤ → Cached
  session_valid : Bool → Cached

pub data AuthError : Type 0 where
  user_not_found token_revoked session_revoked : AuthError

-- The interface `UserAuthStore`.
pub record UserAuthStore {ℓ} (E : Type ℓ) : Type ℓ where
  pub auth_info_of : String → Result E (Option (ℕ × ℤ))
  pub has_session : String → Result E Bool

abbrev pub auth_info_cache_key : String → String
auth_info_cache_key membership_id = "tver:" ++ membership_id

abbrev pub session_cache_key : String → String
session_cache_key session_id = "sess:" ++ session_id

-- 60 seconds
abbrev pub ttl : ℤ
ttl = pos 60000000000

-- the type assertions
abbrev pub as_auth_info : Option Cached → Option (ℕ × ℤ)
as_auth_info (some (auth_info version role)) = some (version, role)
as_auth_info _ = none

abbrev pub as_bool : Option Cached → Option Bool
as_bool (some (session_valid valid)) = some valid
as_bool _ = none

abbrev pub judge : Bool → Result AuthError (Unit {0})
judge valid = if valid then ok tt else err session_revoked

module _ {ℓ} {E : Type ℓ} (store : UserAuthStore E) where
  -- after a miss: the store decides, and an error lets the request through
  abbrev pub ask_session :
      String
      → Readings
      → Result E Bool
      → MemoryCache Cached
      → Result AuthError (Unit {0}) × MemoryCache Cached
  ask_session id t (err e) c = (ok tt, c)
  ask_session id t (ok exists) c =
      (judge exists, Cache.set (session_cache_key id) (session_valid exists) ttl t.stored c)

  abbrev pub check_cached :
      String
      → Readings
      → Option Bool
      → MemoryCache Cached
      → Result AuthError (Unit {0}) × MemoryCache Cached
  check_cached id t (some valid) c = (judge valid, c)
  check_cached id t none c = ask_session id t (store.has_session id) c

  unfoldable pub check_session :
      String → Readings → MemoryCache Cached → Result AuthError (Unit {0}) × MemoryCache Cached
  check_session id t c =
      let (v, c') = Cache.get (session_cache_key id) t.peeked t.evicted c in
      check_cached id t (as_bool v) c'

  abbrev pub with_role :
      ℤ → Result AuthError (Unit {0}) × MemoryCache Cached → Result AuthError ℤ × MemoryCache Cached
  with_role role (ok u, c) = (ok role, c)
  with_role role (err e, c) = (err e, c)

  -- with the version and role known
  abbrev pub judge_info :
      ℕ → String → Readings → ℕ × ℤ → MemoryCache Cached → Result AuthError ℤ × MemoryCache Cached
  judge_info claimed id t (version, role) c =
      if not (version == claimed)
      then (err token_revoked, c)
      else if id == ""
      then (ok role, c)
      else with_role role (check_session id t c)

  -- after a miss of the first lookup
  abbrev pub ask_info :
      String
      → ℕ
      → String
      → Readings
      → Readings
      → Result E (Option (ℕ × ℤ))
      → MemoryCache Cached
      → Result AuthError ℤ × MemoryCache Cached
  ask_info m claimed id t t' (err e) c = (ok role_standard, c)
  ask_info m claimed id t t' (ok none) c = (err user_not_found, c)
  ask_info m claimed id t t' (ok (some (version, role))) c =
      judge_info claimed id t' (version, role)
        (Cache.set (auth_info_cache_key m) (auth_info version role) ttl t.stored c)

  abbrev pub resolve_cached :
      String
      → ℕ
      → String
      → Readings
      → Readings
      → Option (ℕ × ℤ)
      → MemoryCache Cached
      → Result AuthError ℤ × MemoryCache Cached
  resolve_cached m claimed id t t' (some info) c = judge_info claimed id t' info c
  resolve_cached m claimed id t t' none c = ask_info m claimed id t t' (store.auth_info_of m) c

  -- `Resolve` with a store; the clock is read at `t` and then at `t'`
  unfoldable pub resolve_stored :
      String
      → ℕ
      → String
      → Readings
      → Readings
      → MemoryCache Cached
      → Result AuthError ℤ × MemoryCache Cached
  unfolding check_session
  resolve_stored m claimed id t t' c =
      let (v, c') = Cache.get (auth_info_cache_key m) t.peeked t.evicted c in
      resolve_cached m claimed id t t' (as_auth_info v) c'

-- a nil store skips the checks
unfoldable pub resolve {ℓ} :
    {E : Type ℓ}
    → Option (UserAuthStore E)
    → String
    → ℕ
    → String
    → Readings
    → Readings
    → MemoryCache Cached
    → Result AuthError ℤ × MemoryCache Cached
unfolding resolve_stored
resolve none m claimed id t t' c = (ok role_standard, c)
resolve (some store) m claimed id t t' c = resolve_stored store m claimed id t t' c

unfoldable pub check {ℓ} :
    {E : Type ℓ}
    → Option (UserAuthStore E)
    → String
    → ℕ
    → Readings
    → Readings
    → MemoryCache Cached
    → Result AuthError ℤ × MemoryCache Cached
unfolding resolve
check store m claimed t t' c = resolve store m claimed "" t t' c

-- The tables that the server holds, its cache, and the expiry of the credentials in its token store.
pub record Server : Type 0 where
  pub users : UserStore
  pub sessions : Assoc String Session
  pub cache : MemoryCache Cached
  pub tokens : Assoc String ℕ

-- the database of the server as the checker sees it at an instant, while it works
abbrev pub store_of : ℕ → Server → UserAuthStore String
store_of now server = record {
  auth_info_of = λ m. ok (get_auth_info m server.users);
  has_session = λ id. ok (session_exists now id server.sessions);
}

unfoldable pub end_session : String → Server → Server
end_session id server = if id == "" then server else record server {
  sessions = delete_session id server.sessions;
  cache = Cache.remove (session_cache_key id) server.cache;
}

unfoldable pub end_all_sessions : String → Server → Server
end_all_sessions m server = record {
  users = bump_token_version m server.users;
  sessions = delete_user_sessions m server.sessions;
  cache = Cache.remove (auth_info_cache_key m) server.cache;
  tokens = delete m server.tokens;
}
