-- ===== src/Tests/Accounts.antt =====
-- The theorems on users and sessions at concrete tables.
use guardian_tracker.Prelude.{
  ◌+◌, ◌<◌, ◌≡◌, refl, true, false, none, some, [], ◌∷◌, String, arith, lookup, ◌⊎◌, ◌≤◌, ◌==◌,
  nat_eq, string_eq, int_eq, Assoc, pos,
}
use guardian_tracker.Prelude.Results.{ok, err}
use guardian_tracker.Accounts.{
  find_member, User, UserStore, steps, upserts, changes_role, count_admins, set_self_role,
  set_role_by_id, user_not_found, last_admin, role_change, is_admin, after_opt_in, after_change,
  role_admin,
}
use guardian_tracker.Accounts.Table.{IsUserStore}
use guardian_tracker.Accounts.Admins.{steps-keeps_admin}
use guardian_tracker.Accounts.Changes.{set_self_role-holds_admin, set_role_by_id_lem, holds_admin}
use guardian_tracker.Accounts.Sessions.Creation.{create_session-lookup}
use guardian_tracker.Prelude.Sort.{sort_stable, sort_stable-perm, sort_stable-IsSorted}
use guardian_tracker.Accounts.Sessions.{
  create_session, Session, session_exists, Ordering, OrdersByUse, used_later,
}
use guardian_tracker.Accounts.Sessions.Reuse.{Request, rotate, rotations, rotate-replay}

abbrev root : User
root = record {
  membership_id = "m1";
  membership_type = pos 3;
  display_name = "root";
  role = role_admin;
  token_version = 1;
  created_at = 1;
  last_login_at = 1;
}

abbrev server : UserStore
server = record { users = (1, root) ∷ []; next_id = 2; audit = [] }

server-IsUserStore : IsUserStore server
unfolding lookup
server-IsUserStore = record { given = (omega arith, tt); distinct = (refl, tt) }

steps-keeps_admin_example :
    IsUserStore
      (steps (upserts "m2" (pos 3) "guest" false 5 ∷ changes_role "m1" 1 (pos 0) ∷ []) server)
    × (0
        < count_admins
            (steps
              (upserts "m2" (pos 3) "guest" false 5 ∷ changes_role "m1" 1 (pos 0) ∷ [])
              server).users)
unfolding count_admins
steps-keeps_admin_example =
    steps-keeps_admin (upserts "m2" (pos 3) "guest" false 5 ∷ changes_role "m1" 1 (pos 0) ∷ [])
      server server-IsUserStore (omega arith)

set_self_role-holds_admin_example :
    holds_admin (lookup 1 (after_opt_in server (set_self_role "m1" (pos 2) server)).users)
    ≡ holds_admin (lookup 1 server.users)
set_self_role-holds_admin_example =
    set_self_role-holds_admin "m1" (pos 2) server 1 server-IsUserStore

set_role_by_id_lem_example :
    ((lookup 1 server.users ≡ none) × (set_role_by_id "m1" 1 (pos 0) server ≡ err user_not_found))
    ⊎ ((u : User) × (lookup 1 server.users ≡ some u)
        × ((((u.role == pos 0) ≡ true)
              × (set_role_by_id "m1" 1 (pos 0) server ≡ ok (role_change 1 u (pos 0), server)))
            ⊎ (((u.role == pos 0) ≡ false)
                × (is_admin u ≡ true)
                × (count_admins server.users ≤ 1)
                × (set_role_by_id "m1" 1 (pos 0) server ≡ err last_admin))
            ⊎ (((u.role == pos 0) ≡ false)
                × ((is_admin u ≡ true) → 2 ≤ count_admins server.users)
                × (lookup 1 (after_change server (set_role_by_id "m1" 1 (pos 0) server)).users
                    ≡ some (record u { role = pos 0; token_version = u.token_version + 1 })))))
set_role_by_id_lem_example = set_role_by_id_lem "m1" 1 1 (pos 0) server

abbrev device : Assoc String Session
device =
    (
      "s1",
      record {
        membership_id = "m1";
        current_jti = "t1";
        user_agent = "";
        last_used_at = 1;
        expires_at = 100;
      },
    )
    ∷ []

abbrev first_use : Request
first_use = record {
  id = "s1";
  membership_id = "m1";
  old_jti = "t1";
  new_jti = "t2";
  expires_at = 200;
  now = 10;
}

abbrev stolen : Request
stolen = record {
  id = "s1";
  membership_id = "m1";
  old_jti = "t1";
  new_jti = "t3";
  expires_at = 300;
  now = 20;
}

abbrev owner : Request
owner = record {
  id = "s1";
  membership_id = "m1";
  old_jti = "t2";
  new_jti = "t4";
  expires_at = 300;
  now = 30;
}

rotate-replay_example :
    ((rotate stolen (rotate first_use device).1).0.rotated ≡ false)
    × (session_exists 40 "s1" (rotate stolen (rotate first_use device).1).1 ≡ false)
    × ((rotate owner (rotate stolen (rotate first_use device).1).1).0.rotated ≡ false)
unfolding rotate rotations lookup
rotate-replay_example =
    rotate-replay first_use stolen owner [] [] device 40 refl (refl, tt) refl refl refl refl

abbrev by_use : Ordering
by_use rows = sort_stable used_later rows

by_use-OrdersByUse : OrdersByUse by_use
by_use-OrdersByUse rows = (
  sort_stable-perm used_later rows,
  sort_stable-IsSorted
      (record {
        asym = λ a b h. ground arith;
        trans = λ a b c h k. ground arith;
        cotrans = λ a b c h k. ground arith;
      })
      rows,
)

create_session-lookup_example :
    lookup "s2" (create_session by_use "s2" "m1" "t9" "phone" 500 50 server.users device)
    ≡ some (record {
      membership_id = "m1";
      current_jti = "t9";
      user_agent = "phone";
      last_used_at = 50;
      expires_at = 500;
    })
unfolding find_member lookup
create_session-lookup_example =
    create_session-lookup by_use "s2" "m1" "t9" "phone" 500 50 server.users device
      by_use-OrdersByUse refl refl (omega arith, tt)
