-- ===== src/RollTargets/Service/Port.antt =====
-- db/adapters/rolltargets.go: the port of the service over the table.
pub mod Uniqueness
pub mod Ownership
pub mod Saving
use guardian_tracker.Prelude.{
  ℕ, Bool, true, false, not, ◌&&◌, Option, none, some, List, String, map, if◌then◌else◌, ◌==◌,
  nat_eq, int_eq, string_eq, ℤ, pos, has, lookup,
}
use guardian_tracker.Prelude.Results.{Result, ok, err, ◌>>=◌}
use guardian_tracker.RollTargets.{StoredTarget}
use guardian_tracker.RollTargets.Service.{
  TargetError, unavailable, not_found, duplicate, other, AddCommand, UpdateCommand, Repository,
}
use guardian_tracker.RollTargets.Service.Store.{
  RollTarget, Table, PgError, store_unavailable, no_rows, unique_violation, check_violation, owned,
  is_target, list_rows, insert_target, update_row, delete_rows,
}

-- `rollTargetError`: only the missing database is translated
unfoldable pub target_error : PgError → TargetError
target_error store_unavailable = unavailable
target_error no_rows = other "no rows in result set"
target_error unique_violation = other "unique constraint violated"
target_error check_violation = other "check constraint violated"

abbrev pub stored_target : RollTarget → StoredTarget
stored_target r = record {
  id = r.id;
  import_id = r.import_id;
  import_title = r.import_title;
  item_hash = r.item_hash;
  wanted = r.wanted;
  perks = r.perks;
  notes = r.notes;
  created_at = r.created_at;
}

abbrev pub found_user : Option ℤ → Result TargetError ℤ
found_user none = err (target_error no_rows)
found_user (some id) = ok id

unfoldable pub user_id_of : Table → String → Result TargetError ℤ
unfolding target_error lookup
user_id_of s membership_id =
    if s.online then found_user (lookup membership_id s.users) else err unavailable

unfoldable pub translated {ℓ κ} :
    {A : Type ℓ} {B : Type κ} → (A → B) → Result PgError A → Result TargetError B
unfolding target_error
translated f (ok a) = ok (f a)
translated f (err e) = err (target_error e)

unfoldable pub repo_list : Table → String → Result TargetError (List StoredTarget)
unfolding user_id_of list_rows translated
repo_list s membership_id =
    user_id_of s membership_id >>= (λ user_id. translated (map stored_target) (list_rows s user_id))

abbrev pub add_outcome : Result PgError RollTarget × Table → Result TargetError StoredTarget × Table
add_outcome (err unique_violation, s) = (err duplicate, s)
add_outcome (r, s) = (translated stored_target r, s)

abbrev pub update_outcome :
    Result PgError RollTarget × Table → Result TargetError StoredTarget × Table
update_outcome (err no_rows, s) = (err not_found, s)
update_outcome (r, s) = (translated stored_target r, s)

abbrev pub remove_outcome : Result PgError ℕ × Table → Option TargetError × Table
remove_outcome (err e, s) = (some (target_error e), s)
remove_outcome (ok n, s) = if n == 0 then (some not_found, s) else (none, s)

abbrev pub count_outcome : Result PgError ℕ × Table → Result TargetError ℤ × Table
count_outcome (r, s) = (translated pos r, s)

unfoldable pub repo_add : Table → String → AddCommand → Result TargetError StoredTarget × Table
unfolding user_id_of insert_target translated
repo_add s membership_id cmd = elim (user_id_of s membership_id) [
  | err e ↦ (err e, s)
  | ok user_id ↦ add_outcome (insert_target s user_id cmd)
]

unfoldable pub repo_update :
    Table → String → ℤ → UpdateCommand → Result TargetError StoredTarget × Table
unfolding user_id_of update_row translated
repo_update s membership_id id patch = elim (user_id_of s membership_id) [
  | err e ↦ (err e, s)
  | ok user_id ↦ update_outcome (update_row s user_id id patch)
]

unfoldable pub repo_remove : Table → String → ℤ → Option TargetError × Table
unfolding user_id_of delete_rows target_error
repo_remove s membership_id id = elim (user_id_of s membership_id) [
  | err e ↦ (some e, s)
  | ok user_id ↦ remove_outcome (delete_rows (is_target user_id id) s)
]

-- A deletion of those rows of the user that meet a condition.
abbrev pub delete_owned : (RollTarget → Bool) → Table → String → Result TargetError ℤ × Table
delete_owned p s membership_id = elim (user_id_of s membership_id) [
  | err e ↦ (err e, s)
  | ok user_id ↦ count_outcome (delete_rows (λ r. owned user_id r && p r) s)
]

unfoldable pub repo_remove_many : Table → String → List ℤ → Result TargetError ℤ × Table
unfolding user_id_of delete_rows translated has
repo_remove_many s membership_id ids = delete_owned (λ r. has r.id ids) s membership_id

unfoldable pub repo_remove_all : Table → String → Result TargetError ℤ × Table
unfolding user_id_of delete_rows translated
repo_remove_all s membership_id = delete_owned (λ _. true) s membership_id

-- a null import id equals nothing
unfoldable pub repo_remove_import : Table → String → String → Result TargetError ℤ × Table
unfolding user_id_of delete_rows translated
repo_remove_import s membership_id id =
    delete_owned (λ r. not (r.import_id == "") && r.import_id == id) s membership_id

unfoldable pub roll_target_repository : Repository Table
unfolding repo_list repo_add repo_update repo_remove repo_remove_many repo_remove_all
    repo_remove_import
roll_target_repository = record {
  list = repo_list;
  add = repo_add;
  update = repo_update;
  remove = repo_remove;
  remove_many = repo_remove_many;
  remove_all = repo_remove_all;
  remove_import = repo_remove_import;
}
