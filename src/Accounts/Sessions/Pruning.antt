-- ===== src/Accounts/Sessions/Pruning.antt =====
-- The periodic deletion of expired sessions.
use guardian_tracker.Prelude.{
  ℕ, ◌≤◌, ◌≡◌, refl, Option, none, some, String, arith, ltb, string_eq, Assoc, lookup, Distinct,
  only, lookup-keep,
}
use guardian_tracker.Accounts.Sessions.{Session, session_exists, delete_expired_sessions, unexpired}

unexpired-only :
    (now later : ℕ) (o : Option Session)
    → now ≤ later
    → unexpired later (only (λ s. ltb now s.expires_at) o) ≡ unexpired later o
unexpired-only now later none h = refl
unexpired-only now later (some s) h = ground arith

-- The pruner is invisible: deleting the sessions that are expired at an instant changes no answer of
-- whether a session exists then or later; for a table that holds each id once.
pub session_exists-delete_expired_sessions :
    (now later : ℕ) (id : String) (sessions : Assoc String Session)
    → Distinct sessions
    → now ≤ later
    → session_exists later id (delete_expired_sessions now sessions)
      ≡ session_exists later id sessions
unfolding session_exists delete_expired_sessions
session_exists-delete_expired_sessions now later id sessions d h =
    rw (lookup-keep id (λ (s : Session). ltb now s.expires_at) sessions d)
      (unexpired-only now later (lookup id sessions) h)
