-- ===== src/Accounts.antt =====
-- db/users.go: the users table. Each method is one SQL statement or one transaction, so it is one step;
-- a statement that fails rolls its transaction back and leaves the tables as they were, and is no step
-- here. A table is a map by its primary key. The audit row that a change of role writes in the same
-- transaction is in the log.
pub mod Admins
pub mod Changes
pub mod Sessions
pub mod Table
use guardian_tracker.Prelude.{
  ℕ, ◌+◌, Bool, true, false, not, ◌&&◌, Option, none, some, List, [], ◌∷◌, String, if◌then◌else◌,
  ◌==◌, nat_eq, string_eq, int_eq, ltb, leb, ℤ, pos, negsuc, Assoc, lookup, insert,
}
use guardian_tracker.Prelude.Results.{Result, ok, err}

abbrev pub role_standard : ℤ
role_standard = pos 0

abbrev pub role_admin : ℤ
role_admin = pos 3

pub data StoreError : Type 0 where
  last_admin user_not_found admin_opt_in role_not_allowed : StoreError

pub record User : Type 0 where
  pub membership_id : String
  pub membership_type : ℤ
  pub display_name : String
  pub role : ℤ
  pub token_version : ℕ
  pub created_at : ℕ
  pub last_login_at : ℕ

pub data AuditEvent : Type 0 where
  role_opt_in : ℕ → ℤ → ℤ → AuditEvent
  role_change_admin : Option ℕ → ℕ → ℤ → ℤ → AuditEvent

pub record RoleChange : Type 0 where
  pub target_user_id : ℕ
  pub target_membership_id : String
  pub target_display_name : String
  pub old_role : ℤ
  pub new_role : ℤ

-- the table, the next value of its identity column, and the audit log, latest first
pub record UserStore : Type 0 where
  pub users : Assoc ℕ User
  pub next_id : ℕ
  pub audit : List AuditEvent

-- the row that `WHERE membership_id = $1` selects
unfoldable pub find_member : String → Assoc ℕ User → Option (ℕ × User)
find_member m [] = none
find_member m ((i, u) ∷ us) = if u.membership_id == m then some (i, u) else find_member m us

abbrev pub is_admin : User → Bool
is_admin u = u.role == role_admin

abbrev pub is_free : Option (ℕ × User) → Bool
is_free none = true
is_free (some r) = false

-- `SELECT count(*) FROM users WHERE role = $1`
unfoldable pub count_admins : Assoc ℕ User → ℕ
count_admins [] = 0
count_admins ((i, u) ∷ us) = (if is_admin u then 1 else 0) + count_admins us

-- `CASE WHEN $4 THEN 3 ELSE … END`
abbrev pub pinned : Bool → ℤ → ℤ
pinned force_admin role = if force_admin then role_admin else role

-- A new row has token version 1.
abbrev pub new_user : String → ℤ → String → Bool → ℕ → User
new_user m membership_type display_name force_admin now = record {
  membership_id = m;
  membership_type = membership_type;
  display_name = display_name;
  role = pinned force_admin role_standard;
  token_version = 1;
  created_at = now;
  last_login_at = now;
}

unfoldable pub upsert : String → ℤ → String → Bool → ℕ → UserStore → (ℕ × ℕ × ℤ) × UserStore
upsert m membership_type display_name force_admin now st = elim (find_member m st.users) [
  | none ↦
      let u = new_user m membership_type display_name force_admin now in
      (
        (st.next_id, u.token_version, u.role),
        record st { users = insert st.next_id u st.users; next_id = st.next_id + 1 },
      )
  | some (i, u) ↦
      let u' = record u {
        display_name = display_name;
        last_login_at = now;
        role = pinned force_admin u.role;
      } in
      ((i, u'.token_version, u'.role), record st { users = insert i u' st.users })
]

-- `found` is whether the option holds a row
unfoldable pub get_auth_info : String → UserStore → Option (ℕ × ℤ)
get_auth_info m st = elim (find_member m st.users) [
  | none ↦ none
  | some (i, u) ↦ some (u.token_version, u.role)
]

unfoldable pub bump_token_version : String → UserStore → UserStore
bump_token_version m st = elim (find_member m st.users) [
  | none ↦ st
  | some (i, u) ↦ record st {
    users = insert i (record u { token_version = u.token_version + 1 }) st.users;
  }
]

-- `role < roleStandard || role >= roleAdmin`
abbrev pub not_allowed : ℤ → Bool
not_allowed (pos n) = leb 3 n
not_allowed (negsuc n) = true

unfoldable pub set_self_role : String → ℤ → UserStore → Result StoreError UserStore
set_self_role m role st =
    if not_allowed role then err role_not_allowed else elim (find_member m st.users) [
      | none ↦ err user_not_found
      | some (i, u) ↦
          if is_admin u
          then err admin_opt_in
          else ok (record st {
            users = insert i (record u { role = role }) st.users;
            audit = role_opt_in i u.role role ∷ st.audit;
          })
    ]

abbrev pub row_id : Option (ℕ × User) → Option ℕ
row_id none = none
row_id (some (i, u)) = some i

-- an empty membership names no actor
abbrev pub actor_id : String → Assoc ℕ User → Option ℕ
actor_id actor users = if actor == "" then none else row_id (find_member actor users)

abbrev pub role_change : ℕ → User → ℤ → RoleChange
role_change target u new_role = record {
  target_user_id = target;
  target_membership_id = u.membership_id;
  target_display_name = u.display_name;
  old_role = u.role;
  new_role = new_role;
}

unfoldable pub set_role_by_id :
    String → ℕ → ℤ → UserStore → Result StoreError (RoleChange × UserStore)
unfolding count_admins
set_role_by_id actor target new_role st = elim (lookup target st.users) [
  | none ↦ err user_not_found
  | some u ↦
      if u.role == new_role
      then ok (role_change target u new_role, st)
      else if is_admin u && not (new_role == role_admin) && leb (count_admins st.users) 1
      then err last_admin
      else ok (
        role_change target u new_role,
        record st {
          users =
              insert target (record u { role = new_role; token_version = u.token_version + 1 })
                st.users;
          audit = role_change_admin (actor_id actor st.users) target u.role new_role ∷ st.audit;
        },
      )
]

-- What the server does to the users table.
pub data UserOp : Type 0 where
  upserts : String → ℤ → String → Bool → ℕ → UserOp
  bumps : String → UserOp
  opts_in : String → ℤ → UserOp
  changes_role : String → ℕ → ℤ → UserOp

abbrev pub after_opt_in : UserStore → Result StoreError UserStore → UserStore
after_opt_in st (ok st') = st'
after_opt_in st (err e) = st

abbrev pub after_change : UserStore → Result StoreError (RoleChange × UserStore) → UserStore
after_change st (ok (c, st')) = st'
after_change st (err e) = st

unfoldable pub step : UserOp → UserStore → UserStore
unfolding upsert bump_token_version set_self_role set_role_by_id
step (upserts m t name force now) st = (upsert m t name force now st).1
step (bumps m) st = bump_token_version m st
step (opts_in m role) st = after_opt_in st (set_self_role m role st)
step (changes_role actor target role) st = after_change st (set_role_by_id actor target role st)

unfoldable pub steps : List UserOp → UserStore → UserStore
unfolding step
steps [] st = st
steps (op ∷ ops) st = steps ops (step op st)
