-- ===== src/Accounts/Sessions/Reuse.antt =====
-- A refresh token works once: what a replay of a rotated token does to its session.
use guardian_tracker.Prelude.{
  ℕ, ◌≡◌, refl, ap, sym, subst, ◌∙◌, Bool, true, false, not, ◌&&◌, Option, none, some, List, [],
  ◌∷◌, String, if◌then◌else◌, ◌==◌, string_eq, ltb, arith, Assoc, lookup, lookup-insert,
  lookup-delete, Option-cases, Bool-cases, inl, inr, beq→eq, beq_refl,
}
use guardian_tracker.Accounts.Sessions.{
  Session, Rotation, rotate_session, owned_by, session_exists, unexpired,
}

-- One request to rotate: the session and the membership and the token of its claims, the new token, its
-- expiry, and the instant.
pub record Request : Type 0 where
  pub id : String
  pub membership_id : String
  pub old_jti : String
  pub new_jti : String
  pub expires_at : ℕ
  pub now : ℕ

unfoldable pub rotate : Request → Assoc String Session → Rotation × Assoc String Session
unfolding rotate_session
rotate r sessions =
    rotate_session r.id r.membership_id r.old_jti r.new_jti r.expires_at r.now sessions

unfoldable pub rotations : List Request → Assoc String Session → Assoc String Session
unfolding rotate
rotations [] sessions = sessions
rotations (r ∷ rs) sessions = rotations rs (rotate r sessions).1

-- No request is handed an old token as its new one.
abbrev pub AllFresh : String → List Request → Type 0
AllFresh old [] = Unit {0}
AllFresh old (r ∷ rs) = ((r.new_jti == old) ≡ false) × AllFresh old rs

-- The session of the membership, if it is still there, does not take the old token.
abbrev Spent : String → String → Option Session → Type 0
Spent m old none = Unit {0}
Spent m old (some s) = ((s.membership_id == m) ≡ true) × ((s.current_jti == old) ≡ false)

abbrev renewed : Request → Session → Session
renewed r s = record s { current_jti = r.new_jti; last_used_at = r.now; expires_at = r.expires_at }

-- The row of a session after one request: only a request for that session touches it.
row_after : Request → Option Session → Option Session
row_after r o = elim (owned_by r.membership_id o) [
  | none ↦ o
  | some s ↦
      if ltb s.expires_at r.now
      then none
      else if not (s.current_jti == r.old_jti)
      then none
      else some (renewed r s)
]

lookup-rotate_self :
    (r : Request) (sessions : Assoc String Session)
    → lookup r.id (rotate r sessions).1 ≡ row_after r (lookup r.id sessions)
unfolding rotate row_after
lookup-rotate_self r sessions = elim (Option-cases (lookup r.id sessions)) [
  | inl missing ↦ ground (arith, missing)
  | inr (s, found) ↦ ground (
    arith,
    beq_refl r.id,
    lookup-insert r.id r.id (renewed r s) sessions,
    lookup-delete r.id r.id sessions,
  )
]

lookup-rotate_other :
    (id : String) (r : Request) (sessions : Assoc String Session)
    → (r.id == id) ≡ false
    → lookup id (rotate r sessions).1 ≡ lookup id sessions
unfolding rotate
lookup-rotate_other id r sessions other = elim (Option-cases (lookup r.id sessions)) [
  | inl missing ↦ ground (arith, missing)
  | inr (s, found) ↦
      ground (arith, lookup-insert r.id id (renewed r s) sessions, lookup-delete r.id id sessions)
]

Spent-row_after :
    (m old : String) (r : Request) (o : Option Session)
    → (r.new_jti == old) ≡ false
    → Spent m old o
    → Spent m old (row_after r o)
unfolding row_after
Spent-row_after m old r none fresh h = tt
Spent-row_after m old r (some s) fresh h = ground arith

rotate-Spent :
    (id m old : String) (r : Request) (sessions : Assoc String Session)
    → (r.new_jti == old) ≡ false
    → Spent m old (lookup id sessions)
    → Spent m old (lookup id (rotate r sessions).1)
rotate-Spent id m old r sessions fresh h = elim (Bool-cases (r.id == id)) [
  | inl same ↦
      let e = beq→eq r.id id same in
      subst (λ k. Spent m old (lookup k (rotate r sessions).1)) e
        (rw (lookup-rotate_self r sessions) (
          Spent-row_after m old r (lookup r.id sessions) fresh
            (subst (λ k. Spent m old (lookup k sessions)) (sym e) h)))
  | inr other ↦ rw (lookup-rotate_other id r sessions other) h
]

rotations-Spent :
    (id m old : String) (rs : List Request) (sessions : Assoc String Session)
    → AllFresh old rs
    → Spent m old (lookup id sessions)
    → Spent m old (lookup id (rotations rs sessions))
unfolding rotations
rotations-Spent id m old [] sessions fresh h = h
rotations-Spent id m old (r ∷ rs) sessions fresh h =
    rotations-Spent id m old rs (rotate r sessions).1 fresh.1
      (rotate-Spent id m old r sessions fresh.0 h)

rotate-none :
    (id : String) (r : Request) (sessions : Assoc String Session)
    → lookup id sessions ≡ none
    → lookup id (rotate r sessions).1 ≡ none
unfolding row_after
rotate-none id r sessions h = elim (Bool-cases (r.id == id)) [
  | inl same ↦
      let e = beq→eq r.id id same in
      rw (sym e)
        (rw (lookup-rotate_self r sessions) (ground (arith, ap (λ k. lookup k sessions) e)))
  | inr other ↦ rw (lookup-rotate_other id r sessions other) h
]

rotations-none :
    (id : String) (rs : List Request) (sessions : Assoc String Session)
    → lookup id sessions ≡ none
    → lookup id (rotations rs sessions) ≡ none
unfolding rotations
rotations-none id [] sessions h = h
rotations-none id (r ∷ rs) sessions h =
    rotations-none id rs (rotate r sessions).1 (rotate-none id r sessions h)

-- Whether a request is accepted, read off the row.
abbrev accepts : Request → Option Session → Bool
accepts r none = false
accepts r (some s) =
    (s.membership_id == r.membership_id)
    && not (ltb s.expires_at r.now)
    && (s.current_jti == r.old_jti)

rotate-rotated :
    (r : Request) (sessions : Assoc String Session)
    → (rotate r sessions).0.rotated ≡ accepts r (lookup r.id sessions)
unfolding rotate
rotate-rotated r sessions = elim (Option-cases (lookup r.id sessions)) [
  | inl missing ↦ ground (arith, missing)
  | inr (s, found) ↦ ground (arith, found)
]

-- What an accepted rotation leaves is spent for the token that it took.
accepted-Spent :
    (r : Request) (o : Option Session)
    → (r.new_jti == r.old_jti) ≡ false
    → accepts r o ≡ true
    → Spent r.membership_id r.old_jti (row_after r o)
unfolding row_after
accepted-Spent r none fresh h = absurd (cc)
accepted-Spent r (some s) fresh h = ground arith

Spent-refused :
    (r : Request) (o : Option Session)
    → Spent r.membership_id r.old_jti o
    → (accepts r o ≡ false) × (row_after r o ≡ none)
unfolding row_after
Spent-refused r none h = (refl, refl)
Spent-refused r (some s) h = (ground arith, ground arith)

-- Once a request is accepted its refresh token is spent for good, and using it again ends the session.
-- Whatever requests follow, to this session or others, a second request of the same membership with the
-- same token is refused, and after it the session is gone, whatever requests come later: no token of it,
-- neither the thief's nor the owner's, is accepted, and it no longer exists at any instant. Fresh tokens
-- differ from the one that was used.
pub rotate-replay :
    (first replay last : Request) (between later : List Request) (sessions : Assoc String Session)
    (now : ℕ)
    → let used = (rotate first sessions).1 in
      let caught = rotate replay (rotations between used) in
      (rotate first sessions).0.rotated ≡ true
      → AllFresh first.old_jti (first ∷ between)
      → replay.id ≡ first.id
      → replay.membership_id ≡ first.membership_id
      → replay.old_jti ≡ first.old_jti
      → last.id ≡ first.id
      → (caught.0.rotated ≡ false)
        × (session_exists now first.id (rotations later caught.1) ≡ false)
        × ((rotate last (rotations later caught.1)).0.rotated ≡ false)
unfolding session_exists
rotate-replay first replay last between later sessions now accepted fresh same_id same_m same_jti
      last_id =
    let used = (rotate first sessions).1 in
    let before = rotations between used in
    let spent : Spent first.membership_id first.old_jti (lookup first.id before) =
      rotations-Spent first.id first.membership_id first.old_jti between used fresh.1 (
        rw (lookup-rotate_self first sessions) (
          accepted-Spent first (lookup first.id sessions) fresh.0
            (sym (rotate-rotated first sessions) ∙ accepted))) in
    let (refused, ended) =
      Spent-refused replay (lookup replay.id before) (rw (same_m, same_jti, same_id) spent) in
    let gone : lookup first.id (rotations later (rotate replay before).1) ≡ none =
      rotations-none first.id later (rotate replay before).1 (
        ap (λ k. lookup k (rotate replay before).1) (sym same_id)
        ∙ lookup-rotate_self replay before
        ∙ ended) in
    (
      rotate-rotated replay before ∙ refused,
      ap (unexpired now) gone,
      rotate-rotated last _
          ∙ ap (accepts last)
              (ap (λ k. lookup k (rotations later (rotate replay before).1)) last_id ∙ gone),
    )
