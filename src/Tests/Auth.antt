-- ===== src/Tests/Auth.antt =====
-- The theorems on revocation at a concrete server.
use guardian_tracker.Prelude.{
  ◌≡◌, refl, ◌⊎◌, false, some, [], ◌∷◌, arith, lookup, pos, nat_eq, string_eq,
}
use guardian_tracker.Prelude.Results.{ok, err}
use guardian_tracker.Cache
use guardian_tracker.Cache.Load.{Readings}
use guardian_tracker.Accounts.{User, UserStore, get_auth_info, find_member}
use guardian_tracker.Accounts.Table.{IsUserStore}
use guardian_tracker.Auth.{role_standard}
use guardian_tracker.Auth.Revocation.{
  Server, store_of, resolve, resolve_stored, end_session, end_all_sessions, token_revoked,
  auth_info, auth_info_cache_key, as_auth_info,
}
use guardian_tracker.Auth.Revocation.Authority.{resolve_role}
use guardian_tracker.Auth.Revocation.Endings.{is_ok, end_all_sessions-resolve, end_session-resolve}

abbrev member : User
member = record {
  membership_id = "m1";
  membership_type = pos 3;
  display_name = "guest";
  role = pos 2;
  token_version = 4;
  created_at = 1;
  last_login_at = 1;
}

abbrev people : UserStore
people = record { users = (1, member) ∷ []; next_id = 2; audit = [] }

people-IsUserStore : IsUserStore people
unfolding lookup
people-IsUserStore = record { given = (omega arith, tt); distinct = (refl, tt) }

-- The cache still holds the version and role of the member.
abbrev server : Server
server = record {
  users = people;
  sessions =
      (
        "s1",
        record {
          membership_id = "m1";
          current_jti = "t1";
          user_agent = "";
          last_used_at = 1;
          expires_at = 100;
        },
      )
      ∷ [];
  cache = record {
    items = ("tver:m1", record { value = auth_info 4 (pos 2); expires_at = some 90 }) ∷ [];
    default_expiration = pos 5;
  };
  tokens = [];
}

abbrev at_once : Readings
at_once = record { peeked = 10; evicted = 11; stored = 12 }

abbrev after : Readings
after = record { peeked = 13; evicted = 14; stored = 15 }

end_all_sessions-resolve_example :
    (resolve
      (some (store_of 20 (end_all_sessions "m1" server)))
      "m1"
      4
      "s1"
      at_once
      after
      (end_all_sessions "m1" server).cache).0
    ≡ err token_revoked
unfolding get_auth_info find_member
end_all_sessions-resolve_example =
    end_all_sessions-resolve "m1" "s1" 4 4 20 (pos 2) at_once after server people-IsUserStore refl
      (omega arith)

end_session-resolve_example :
    is_ok
      (resolve
        (some (store_of 20 (end_session "s1" server)))
        "m1"
        4
        "s1"
        at_once
        after
        (end_session "s1" server).cache).0
    ≡ false
end_session-resolve_example = end_session-resolve "m1" "s1" 4 20 at_once after server refl

resolve_role_example :
    (pos 2 ≡ role_standard)
    ⊎ (as_auth_info (Cache.get (auth_info_cache_key "m1") 10 11 server.cache).0 ≡ some (4, pos 2))
    ⊎ ((store_of 20 server).auth_info_of "m1" ≡ ok (some (4, pos 2)))
unfolding resolve resolve_stored Cache.get lookup
resolve_role_example =
    resolve_role (store_of 20 server) "m1" "" 4 at_once after server.cache (pos 2) refl
