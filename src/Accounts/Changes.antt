-- ===== src/Accounts/Changes.antt =====
-- Who a change of role concerns.
use guardian_tracker.Prelude.{
  ap, sym, ◌∙◌, ◌⊎◌, ℕ, ◌+◌, ◌≤◌, ◌≡◌, refl, Bool, true, false, not, ◌&&◌, Option, none, some,
  String, if◌then◌else◌, ◌==◌, nat_eq, int_eq, string_eq, arith, ℤ, Assoc, lookup, insert,
  Option-cases, Bool-cases, inl, inr, lookup-insert, leb, beq→eq, pos, negsuc,
}
use guardian_tracker.Prelude.Results.{ok, err}
use guardian_tracker.Accounts.{
  User, UserStore, find_member, is_admin, count_admins, set_self_role, set_role_by_id, role_admin,
  role_change, not_allowed, last_admin, user_not_found, after_opt_in, after_change,
}
use guardian_tracker.Accounts.Table.{IsUserStore, find_member-lookup}

abbrev pub holds_admin : Option User → Bool
holds_admin none = false
holds_admin (some u) = is_admin u

allowed-not_admin : (role : ℤ) → not_allowed role ≡ false → (role == role_admin) ≡ false
allowed-not_admin (pos n) h = ground arith
allowed-not_admin (negsuc n) h = refl

-- A row written over another of the same standing changes nobody's.
insert-holds_admin :
    (i j : ℕ) (old new : User) (us : Assoc ℕ User)
    → lookup i us ≡ some old
    → is_admin new ≡ is_admin old
    → holds_admin (lookup j (insert i new us)) ≡ holds_admin (lookup j us)
insert-holds_admin i j old new us found same = elim (Bool-cases (i == j)) [
  | inl here ↦
      rw (lookup-insert i j new us, here)
        (same ∙ ap holds_admin (sym found) ∙ ap (λ k. holds_admin (lookup k us)) (beq→eq i j here))
  | inr other ↦ rw (lookup-insert i j new us, other) refl
]

-- Nobody becomes an administrator by opting in, and no administrator stops being one: whoever asks for
-- whichever role, every row is an administrator's afterwards exactly if it was before; in a table that
-- holds each id once.
pub set_self_role-holds_admin :
    (m : String) (role : ℤ) (st : UserStore) (j : ℕ)
    → IsUserStore st
    → holds_admin (lookup j (after_opt_in st (set_self_role m role st)).users)
      ≡ holds_admin (lookup j st.users)
unfolding set_self_role
set_self_role-holds_admin m role st j w = elim (Bool-cases (not_allowed role)) [
  | inl refused ↦ rw (refused, set_self_role) refl
  | inr allowed ↦ elim (Option-cases (find_member m st.users)) [
    | inl missing ↦ rw (allowed, missing, set_self_role) refl
    | inr ((i, u), found) ↦ elim (Bool-cases (is_admin u)) [
      | inl admin ↦ rw (allowed, found, set_self_role) (rw admin refl)
      | inr plain ↦
          rw (allowed, found, set_self_role)
            (rw plain (
              insert-holds_admin i j u (record u { role = role }) st.users
                (find_member-lookup m i u st.users w.distinct found)
                (allowed-not_admin role allowed ∙ sym plain)))
    ]
  ]
]

-- A change of the role of an administrator gives another role.
demotes :
    (u : User) (role : ℤ)
    → is_admin u ≡ true
    → (u.role == role) ≡ false
    → (role == role_admin) ≡ false
demotes u role admin other = elim (Bool-cases (role == role_admin)) [
  | inr e ↦ e
  | inl e ↦
      let same = beq→eq u.role role_admin admin ∙ sym (beq→eq role role_admin e) in
      absurd (cc ((int_eq.beq_iff u.role role).1 same, other))
]

-- What a change of role by an administrator does, in every case. It is refused for a user that does not
-- exist and for the demotion of the only administrator; a change to the role that the user has does
-- nothing; and any other, for which an administrator is one of two at least, gives the user the role and the next token version, so that the tokens issued
-- before are refused, and leaves the other users as they were.
pub set_role_by_id_lem :
    (actor : String) (target j : ℕ) (role : ℤ) (st : UserStore)
    → ((lookup target st.users ≡ none) × (set_role_by_id actor target role st ≡ err user_not_found))
      ⊎ ((u : User) × (lookup target st.users ≡ some u)
          × ((((u.role == role) ≡ true)
                × (set_role_by_id actor target role st ≡ ok (role_change target u role, st)))
              ⊎ (((u.role == role) ≡ false)
                  × (is_admin u ≡ true)
                  × (count_admins st.users ≤ 1)
                  × (set_role_by_id actor target role st ≡ err last_admin))
              ⊎ (((u.role == role) ≡ false)
                  × ((is_admin u ≡ true) → 2 ≤ count_admins st.users)
                  × (lookup j (after_change st (set_role_by_id actor target role st)).users ≡ (
                      if target == j
                      then some (record u { role = role; token_version = u.token_version + 1 })
                      else lookup j st.users)))))
unfolding set_role_by_id
set_role_by_id_lem actor target j role st = elim (Option-cases (lookup target st.users)) [
  | inl missing ↦ inl (missing, rw (missing, set_role_by_id) refl)
  | inr (u, found) ↦ inr (
    u,
    found,
    elim (Bool-cases (u.role == role)) [
      | inl same ↦ inl (same, rw (found, set_role_by_id) (rw same refl))
      | inr other ↦
          inr
            (elim (Bool-cases
              (is_admin u && not (role == role_admin) && leb (count_admins st.users) 1)) [
                | inl orphaned ↦ inl (
                  other,
                  ground arith,
                  ground arith,
                  rw (found, set_role_by_id) (rw (other, orphaned) refl),
                )
                | inr safe ↦ inr (
                  other,
                  λ admin. ground (arith, demotes u role admin other),
                  rw (found, set_role_by_id) (rw (other, safe, lookup-insert) refl),
                )
              ])
    ],
  )
]
