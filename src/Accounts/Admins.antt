-- ===== src/Accounts/Admins.antt =====
-- What the operations on users do to the administrators.
use guardian_tracker.Prelude.{
  ap, ℕ, ◌+◌, ◌<◌, Bool, not, ◌&&◌, List, [], ◌∷◌, String, ◌==◌, nat_eq, int_eq, string_eq, arith,
  ℤ, lookup, Option-cases, Bool-cases, inl, inr, leb, insert-Distinct,
}
use guardian_tracker.Accounts.{
  UserStore, find_member, is_admin, new_user, count_admins, pinned, upsert, bump_token_version,
  set_self_role, set_role_by_id, UserOp, upserts, bumps, opts_in, changes_role, step, steps,
  role_admin, not_allowed, after_opt_in, after_change,
}
use guardian_tracker.Accounts.Table.{
  weight, count_admins-insert, IsUserStore, AllBelow-lookup, AllBelow-insert, AllBelow-later,
  find_member-lookup, rewrite_row,
}

-- What every operation on users keeps.
record Kept (st st' : UserStore) : Type 0 where
  store : IsUserStore st'
  guarded : 0 < count_admins st.users → 0 < count_admins st'.users

Kept-refl : (st : UserStore) → IsUserStore st → Kept st st
Kept-refl st w = record { store = w; guarded = λ h. h }

upsert-Kept :
    (m : String) (t : ℤ) (name : String) (force : Bool) (now : ℕ) (st : UserStore)
    → IsUserStore st
    → Kept st (upsert m t name force now st).1
unfolding upsert
upsert-Kept m t name force now st w = elim (Option-cases (find_member m st.users)) [
  | inl new ↦
      let u = new_user m t name force now in
      let fresh = AllBelow-lookup st.next_id st.next_id st.users (omega arith) w.given in
      rw (new, upsert)
        (record {
          store = record {
            given =
                AllBelow-insert (st.next_id + 1) st.next_id u st.users (omega arith)
                  (AllBelow-later st.next_id (st.next_id + 1) st.users (omega arith) w.given);
            distinct = insert-Distinct st.next_id u st.users w.distinct;
          };
          guarded =
              λ h. omega (arith, count_admins-insert st.next_id u st.users, ap weight fresh, h);
        })
  | inr ((i, u), found) ↦
      let u' = record u { display_name = name; last_login_at = now; role = pinned force u.role } in
      let (store, counted) =
        rewrite_row i u u' st w (find_member-lookup m i u st.users w.distinct found) in
      rw (found, upsert) (record { store = store; guarded = λ h. ground (arith, counted, h) })
]

bump_token_version-Kept :
    (m : String) (st : UserStore) → IsUserStore st → Kept st (bump_token_version m st)
unfolding bump_token_version
bump_token_version-Kept m st w = elim (Option-cases (find_member m st.users)) [
  | inl missing ↦ rw (missing, bump_token_version) (Kept-refl st w)
  | inr ((i, u), found) ↦
      let u' = record u { token_version = u.token_version + 1 } in
      let (store, counted) =
        rewrite_row i u u' st w (find_member-lookup m i u st.users w.distinct found) in
      rw (found, bump_token_version)
        (record { store = store; guarded = λ h. omega (arith, counted, h) })
]

set_self_role-Kept :
    (m : String) (role : ℤ) (st : UserStore)
    → IsUserStore st
    → Kept st (after_opt_in st (set_self_role m role st))
unfolding set_self_role
set_self_role-Kept m role st w = elim (Bool-cases (not_allowed role)) [
  | inl refused ↦ rw (refused, set_self_role) (Kept-refl st w)
  | inr allowed ↦ elim (Option-cases (find_member m st.users)) [
    | inl missing ↦ rw (allowed, missing, set_self_role) (Kept-refl st w)
    | inr ((i, u), found) ↦ elim (Bool-cases (is_admin u)) [
      | inl admin ↦ rw (allowed, found, set_self_role) (rw admin (Kept-refl st w))
      | inr plain ↦
          let (store, counted) =
            rewrite_row i u (record u { role = role }) st w
              (find_member-lookup m i u st.users w.distinct found) in
          rw (allowed, found, set_self_role)
            (rw plain (record {
              store = record { given = store.given; distinct = store.distinct };
              guarded = λ h. ground (arith, counted, h);
            }))
    ]
  ]
]

set_role_by_id-Kept :
    (actor : String) (target : ℕ) (role : ℤ) (st : UserStore)
    → IsUserStore st
    → Kept st (after_change st (set_role_by_id actor target role st))
unfolding set_role_by_id
set_role_by_id-Kept actor target role st w = elim (Option-cases (lookup target st.users)) [
  | inl missing ↦ rw (missing, set_role_by_id) (Kept-refl st w)
  | inr (u, found) ↦ elim (Bool-cases (u.role == role)) [
    | inl same ↦ rw (found, set_role_by_id) (rw same (Kept-refl st w))
    | inr other ↦
        elim (Bool-cases
          (is_admin u && not (role == role_admin) && leb (count_admins st.users) 1)) [
            | inl orphaned ↦ rw (found, set_role_by_id) (rw (other, orphaned) (Kept-refl st w))
            | inr safe ↦
                let (store, counted) =
                  rewrite_row target u
                    (record u { role = role; token_version = u.token_version + 1 }) st w found in
                rw (found, set_role_by_id)
                  (rw (other, safe)
                    (record {
                      store = record { given = store.given; distinct = store.distinct };
                      guarded = λ h. ground (arith, counted, h, safe);
                    }))
          ]
  ]
]

step-Kept : (op : UserOp) (st : UserStore) → IsUserStore st → Kept st (step op st)
unfolding step
step-Kept (upserts m t name force now) st w = upsert-Kept m t name force now st w
step-Kept (bumps m) st w = bump_token_version-Kept m st w
step-Kept (opts_in m role) st w = set_self_role-Kept m role st w
step-Kept (changes_role actor target role) st w = set_role_by_id-Kept actor target role st w

-- A server that has an administrator never loses its last one: whatever logins, role changes by
-- administrators, opt-ins and sign-outs everywhere follow each other, some administrator remains, and
-- the table stays one that holds each id once, all of them given out.
pub steps-keeps_admin :
    (ops : List UserOp) (st : UserStore)
    → IsUserStore st
    → 0 < count_admins st.users
    → IsUserStore (steps ops st) × (0 < count_admins (steps ops st).users)
unfolding steps
steps-keeps_admin [] st w h = (w, h)
steps-keeps_admin (op ∷ ops) st w h =
    let k = step-Kept op st w in steps-keeps_admin ops (step op st) k.store (k.guarded h)
