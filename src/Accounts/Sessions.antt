-- ===== src/Accounts/Sessions.antt =====
-- db/users.go: the table of refresh sessions, a map by the session's id. `now()` and `time.Now()` are
-- the argument `now`. The order of rows that were used at the same instant is left open by SQL: what
-- `ORDER BY last_used_at DESC` answers is the argument `order_by`, with `OrdersByUse` as what is
-- known of it.
pub mod Creation
pub mod Pruning
pub mod Reuse
use mathlib.Core.List.{Permᴰ}
use guardian_tracker.Prelude.{
  ℕ, Bool, true, false, not, ◌&&◌, ◌||◌, Option, none, some, List, [], ◌∷◌, ◌++◌, String,
  if◌then◌else◌, ◌==◌, string_eq, ltb, Assoc, lookup, insert, delete, keep, take, map, has, is_some,
}
use guardian_tracker.Prelude.Sort.{IsSorted}
use guardian_tracker.Prelude.Results.{Result, ok, err}
use guardian_tracker.Accounts.{User, find_member}

abbrev pub max_sessions_per_user : ℕ
max_sessions_per_user = 20

pub record Session : Type 0 where
  pub membership_id : String
  pub current_jti : String
  pub user_agent : String
  pub last_used_at : ℕ
  pub expires_at : ℕ

pub record Rotation : Type 0 where
  pub rotated : Bool
  pub reused : Bool

-- `ORDER BY last_used_at DESC`
abbrev pub used_later : String × Session → String × Session → Bool
used_later (i, s) (j, t) = ltb t.last_used_at s.last_used_at

-- the rows of one membership
unfoldable pub sessions_of : String → Assoc String Session → Assoc String Session
sessions_of m sessions = keep (λ s. s.membership_id == m) sessions

abbrev pub Ordering : Type 0
Ordering = Assoc String Session → Assoc String Session

-- The rows that were given, the latest used first.
abbrev pub OrdersByUse : Ordering → Type 0
OrdersByUse order_by =
    (rows : Assoc String Session) → Permᴰ (order_by rows) rows × IsSorted used_later (order_by rows)

unfoldable pub newest : Ordering → String → Assoc String Session → List String
unfolding sessions_of
newest order_by m sessions =
    map (λ r. r.0) (take max_sessions_per_user (order_by (sessions_of m sessions)))

-- `DELETE … WHERE membership_id = $1 AND id NOT IN (…)`
unfoldable pub evict : String → List String → Assoc String Session → Assoc String Session
evict m kept [] = []
evict m kept ((i, s) ∷ sessions) =
    let rest = evict m kept sessions in
    if s.membership_id == m && not (has i kept) then rest else (i, s) ∷ rest

-- An id that is taken violates the primary key, and the transaction rolls back. Without the user no row
-- is inserted. `user_agent` is already truncated.
unfoldable pub create_session :
    Ordering
    → String
    → String
    → String
    → String
    → ℕ
    → ℕ
    → Assoc ℕ User
    → Assoc String Session
    → Assoc String Session
unfolding find_member newest evict
create_session order_by id m jti user_agent expires_at now users sessions =
    if is_some (find_member m users) && is_some (lookup id sessions)
    then sessions
    else let row : Session = record {
      membership_id = m;
      current_jti = jti;
      user_agent = user_agent;
      last_used_at = now;
      expires_at = expires_at;
    } in
      let sessions' = if is_some (find_member m users) then (id, row) ∷ sessions else sessions in
      evict m (newest order_by m sessions') sessions'

-- `WHERE id = $1 AND membership_id = $2`
abbrev pub owned_by : String → Option Session → Option Session
owned_by m none = none
owned_by m (some s) = if s.membership_id == m then some s else none

unfoldable pub rotate_session :
    String
    → String
    → String
    → String
    → ℕ
    → ℕ
    → Assoc String Session
    → Rotation × Assoc String Session
rotate_session id m old_jti new_jti new_expires_at now sessions =
    elim (owned_by m (lookup id sessions)) [
      | none ↦ (record { rotated = false; reused = false }, sessions)
      | some s ↦
          if ltb s.expires_at now
          then (record { rotated = false; reused = false }, delete id sessions)
          else if not (s.current_jti == old_jti)
          then (record { rotated = false; reused = true }, delete id sessions)
          else (
            record { rotated = true; reused = false },
            insert id
                (record s {
                  current_jti = new_jti;
                  last_used_at = now;
                  expires_at = new_expires_at;
                })
                sessions,
          )
    ]

unfoldable pub delete_expired_sessions : ℕ → Assoc String Session → Assoc String Session
delete_expired_sessions now sessions = keep (λ s. ltb now s.expires_at) sessions

abbrev pub unexpired : ℕ → Option Session → Bool
unexpired now none = false
unexpired now (some s) = ltb now s.expires_at

unfoldable pub session_exists : ℕ → String → Assoc String Session → Bool
session_exists now id sessions = unexpired now (lookup id sessions)

unfoldable pub delete_session : String → Assoc String Session → Assoc String Session
delete_session id sessions = delete id sessions

unfoldable pub delete_user_sessions : String → Assoc String Session → Assoc String Session
delete_user_sessions m sessions = keep (λ s. not (s.membership_id == m)) sessions
