-- ===== src/Accounts/Sessions/Creation.antt =====
-- What a login leaves in the table of sessions.
use mathlib.Core.List.{Permᴰ}
use mathlib.Core.List.Permᴰ
use guardian_tracker.Prelude.{
  ℕ, ◌<◌, ◌≡◌, ◌⊎◌, refl, subst, ap, ◌∙◌, Bool, true, false, none, some, [], ◌∷◌, String, ◌==◌,
  string_eq, arith, Assoc, lookup, keep, has, is_some, beq_refl, Bool-cases, inl, inr, map, take,
}
use guardian_tracker.Prelude.Every.{Every, Every-perm}
use guardian_tracker.Prelude.Sort.{NoneBefore, IsSorted}
use guardian_tracker.Accounts.{User, find_member}
use guardian_tracker.Accounts.Sessions.{
  Session, Ordering, OrdersByUse, used_later, sessions_of, newest, evict, create_session,
  max_sessions_per_user,
}

-- A session was last used before an instant.
abbrev pub IsUsedBefore : ℕ → String × Session → Type 0
IsUsedBefore now r = r.1.last_used_at < now

keep-Every :
    (p : Session → Bool) (now : ℕ) (sessions : Assoc String Session)
    → Every (IsUsedBefore now) sessions
    → Every (IsUsedBefore now) (keep p sessions)
unfolding keep
keep-Every p now [] h = tt
keep-Every p now ((i, s) ∷ sessions) h = elim (Bool-cases (p s)) [
  | inl kept ↦ rw kept (h.0, keep-Every p now sessions h.1)
  | inr left ↦ rw left (keep-Every p now sessions h.1)
]

abbrev IsRowOrOlder : String × Session → String × Session → Type 0
IsRowOrOlder row r = (r ≡ row) ⊎ IsUsedBefore row.1.last_used_at r

Every-IsRowOrOlder :
    (row : String × Session) (rows : Assoc String Session)
    → Every (IsUsedBefore row.1.last_used_at) rows
    → Every (IsRowOrOlder row) rows
Every-IsRowOrOlder row [] h = tt
Every-IsRowOrOlder row (r ∷ rows) h = (inr (h.0), Every-IsRowOrOlder row rows h.1)

NoneBefore-Every :
    (r : String × Session) (rows : Assoc String Session)
    → NoneBefore used_later r rows
    → Every (λ x. used_later x r ≡ false) rows
NoneBefore-Every r [] h = tt
NoneBefore-Every r (x ∷ rows) h = (h.0, NoneBefore-Every r rows h.1)

-- A row that was used after all others is the first, however the rows are ordered by their use.
first_is_latest :
    (row : String × Session) (rows ordered : Assoc String Session)
    → Every (IsUsedBefore row.1.last_used_at) rows
    → Permᴰ ordered (row ∷ rows)
    → IsSorted used_later ordered
    → has row.0 (map (λ r. r.0) (take max_sessions_per_user ordered)) ≡ true
unfolding has
first_is_latest row rows [] older p sorted = absurd ((Every-perm (λ _. ⊥) (Permᴰ.symm p) tt).0)
first_is_latest row rows (x ∷ xs) older p sorted =
    elim ((Every-perm (IsRowOrOlder row) p (inl refl, Every-IsRowOrOlder row rows older)).0) [
      | inl same ↦ rw same (rw (beq_refl row.0) refl)
      | inr before ↦
          let behind =
            Every-perm (λ y. used_later y x ≡ false) (Permᴰ.symm p)
              (ground arith, NoneBefore-Every x xs sorted.0) in
          ground (arith, behind.0, before)
    ]

sessions_of-new :
    (m id : String) (row : Session) (sessions : Assoc String Session)
    → row.membership_id ≡ m
    → sessions_of m ((id, row) ∷ sessions) ≡ (id, row) ∷ sessions_of m sessions
unfolding sessions_of keep
sessions_of-new m id row sessions own = rw (ap (λ k. k == m) own ∙ beq_refl m) refl

-- The row just inserted is among the newest.
newest_self :
    (order_by : Ordering) (m id : String) (row : Session) (sessions : Assoc String Session)
    → OrdersByUse order_by
    → row.membership_id ≡ m
    → Every (IsUsedBefore row.last_used_at) sessions
    → has id (newest order_by m ((id, row) ∷ sessions)) ≡ true
unfolding newest sessions_of
newest_self order_by m id row sessions ordering own older =
    let (p, sorted) = ordering (sessions_of m ((id, row) ∷ sessions)) in
    first_is_latest (id, row) (sessions_of m sessions) _
      (keep-Every (λ s. s.membership_id == m) row.last_used_at sessions older)
      (subst (λ rows. Permᴰ (order_by (sessions_of m ((id, row) ∷ sessions))) rows)
        (sessions_of-new m id row sessions own) p)
      sorted

-- A login's own session is there after it, with the login's token and expiry, although the oldest
-- sessions beyond twenty are evicted, in whatever order those stand that were last used at the same
-- time: for a user that exists, an id that is not taken, and a table whose sessions were all last used
-- before.
pub create_session-lookup :
    (order_by : Ordering) (id m jti user_agent : String) (expires_at now : ℕ) (users : Assoc ℕ User)
    (sessions : Assoc String Session)
    → OrdersByUse order_by
    → is_some (find_member m users) ≡ true
    → lookup id sessions ≡ none
    → Every (IsUsedBefore now) sessions
    → lookup id (create_session order_by id m jti user_agent expires_at now users sessions)
      ≡ some (record {
        membership_id = m;
        current_jti = jti;
        user_agent = user_agent;
        last_used_at = now;
        expires_at = expires_at;
      })
unfolding create_session lookup evict
create_session-lookup order_by id m jti user_agent expires_at now users sessions ordering exists
      free h =
    let row : Session = record {
      membership_id = m;
      current_jti = jti;
      user_agent = user_agent;
      last_used_at = now;
      expires_at = expires_at;
    } in
    ground (
      arith,
      exists,
      free,
      newest_self order_by m id row sessions ordering refl h,
      beq_refl id,
      beq_refl m,
    )
