-- ===== src/Wishlist/Store.antt =====
-- db/wishlist.go and db/adapters/wishlist.go: the table of saved items and the port over it. A statement
-- is one step. The constraints of the table are those of the statement that creates it (db/migrations):
-- an item stands once for a user, a rank is 0 to 3 and notes have at most 500 characters.
pub mod Wishes
use Prim.Native.String.{count}
use guardian_tracker.Prelude.{
  ℕ, ◌+◌, Bool, true, false, not, ◌&&◌, ◌||◌, Option, none, some, List, [], ◌∷◌, ◌++◌, String, map,
  if◌then◌else◌, ◌==◌, nat_eq, int_eq, string_eq, ltb, leb, ℤ, pos, has, length, Assoc, lookup,
}
use guardian_tracker.Prelude.Sort.{sort_stable}
use guardian_tracker.Prelude.Results.{Result, ok, err, ◌>>=◌}
use guardian_tracker.Wishlist.{
  StoredEntry, AddCommand, UpdateCommand, WishlistError, unavailable, not_found, duplicate, other,
  Repository, priority_low, priority_medium, priority_high, priority_urgent,
}

pub record WishlistItem : Type 0 where
  pub id : ℤ
  pub user_id : ℤ
  pub item_hash : ℕ
  pub priority : ℕ
  pub notes : String
  pub created_at : ℕ

-- `online` is false where there is no database.
pub record Table : Type 0 where
  pub online : Bool
  pub users : Assoc String ℤ
  pub rows : List WishlistItem
  pub next_id : ℕ
  pub now : ℕ

pub data PgError : Type 0 where
  store_unavailable no_rows unique_violation check_violation : PgError

-- `priorityRank` and `priorityName`; a key that is not there has the zero value
unfoldable pub priority_rank : String → ℕ
priority_rank p =
    if p == priority_medium
    then 1
    else if p == priority_high
    then 2
    else if p == priority_urgent
    then 3
    else 0

unfoldable pub priority_name : ℕ → String
priority_name rank =
    if rank == 0
    then priority_low
    else if rank == 1
    then priority_medium
    else if rank == 2
    then priority_high
    else if rank == 3
    then priority_urgent
    else ""

abbrev pub is_item : ℤ → ℕ → WishlistItem → Bool
is_item user_id hash r = r.user_id == user_id && r.item_hash == hash

abbrev pub is_row : ℤ → ℤ → WishlistItem → Bool
is_row user_id id r = r.id == id && r.user_id == user_id

abbrev pub is_listed : ℤ → List ℤ → WishlistItem → Bool
is_listed user_id ids r = has r.id ids && r.user_id == user_id

unfoldable pub where_rows : (WishlistItem → Bool) → List WishlistItem → List WishlistItem
where_rows p [] = []
where_rows p (r ∷ rs) = let rest = where_rows p rs in if p r then r ∷ rest else rest

unfoldable pub any_row : (WishlistItem → Bool) → List WishlistItem → Bool
any_row p [] = false
any_row p (r ∷ rs) = p r || any_row p rs

-- The change of the rows that meet a condition.
unfoldable pub set_rows :
    (WishlistItem → Bool) → (WishlistItem → WishlistItem) → List WishlistItem → List WishlistItem
set_rows p f [] = []
set_rows p f (r ∷ rs) = (if p r then f r else r) ∷ set_rows p f rs

abbrev pub checks : WishlistItem → Bool
checks r = leb r.priority 3 && leb (count r.notes) 500

-- `ORDER BY priority DESC, created_at DESC`
abbrev pub comes_first : WishlistItem → WishlistItem → Bool
comes_first a b =
    ltb b.priority a.priority || (a.priority == b.priority && ltb b.created_at a.created_at)

unfoldable pub list_items : Table → ℤ → Result PgError (List WishlistItem)
unfolding where_rows sort_stable
list_items s user_id =
    if s.online
    then ok (sort_stable comes_first (where_rows (λ r. r.user_id == user_id) s.rows))
    else err store_unavailable

abbrev pub new_item : Table → ℤ → ℕ → ℕ → String → WishlistItem
new_item s user_id hash prio notes = record {
  id = pos s.next_id;
  user_id = user_id;
  item_hash = hash;
  priority = prio;
  notes = notes;
  created_at = s.now;
}

-- An identity is used up by a statement that a constraint refuses.
unfoldable pub insert_item : Table → ℤ → ℕ → ℕ → String → Result PgError WishlistItem × Table
unfolding any_row
insert_item s user_id hash prio notes =
    let r = new_item s user_id hash prio notes in
    let s' = record s { next_id = s.next_id + 1 } in
    if not s.online
    then (err store_unavailable, s)
    else if not (checks r)
    then (err check_violation, s')
    else if any_row (is_item user_id hash) s.rows
    then (err unique_violation, s')
    else (ok r, record s' { rows = s.rows ++ r ∷ [] })

abbrev pub or_kept {ℓ} : {A : Type ℓ} → Option A → A → A
or_kept none a = a
or_kept (some b) a = b

abbrev pub patched : Option ℕ → Option String → WishlistItem → WishlistItem
patched prio notes r = record r {
  priority = or_kept prio r.priority;
  notes = or_kept notes r.notes;
}

abbrev pub first_row : List WishlistItem → Option WishlistItem
first_row [] = none
first_row (r ∷ rs) = some r

-- The condition names the primary key, so it is met by one row at most.
unfoldable pub update_item :
    Table → ℤ → ℤ → Option ℕ → Option String → Result PgError WishlistItem × Table
unfolding where_rows set_rows
update_item s user_id id prio notes =
    if not s.online
    then (err store_unavailable, s)
    else elim (first_row (where_rows (is_row user_id id) s.rows)) [
      | none ↦ (err no_rows, s)
      | some r ↦
          if checks (patched prio notes r)
          then (
            ok (patched prio notes r),
            record s { rows = set_rows (is_row user_id id) (patched prio notes) s.rows },
          )
          else (err check_violation, s)
    ]

unfoldable pub delete_items : (WishlistItem → Bool) → Table → Result PgError ℕ × Table
unfolding where_rows
delete_items p s =
    if s.online
    then (ok (length (where_rows p s.rows)), record s { rows = where_rows (λ r. not (p r)) s.rows })
    else (err store_unavailable, s)

unfoldable pub bulk_set_priority : Table → ℤ → List ℤ → ℕ → Result PgError ℕ × Table
unfolding where_rows set_rows has
bulk_set_priority s user_id ids prio =
    let listed = is_listed user_id ids in
    if not s.online
    then (err store_unavailable, s)
    else if ltb 3 prio
    then (err check_violation, s)
    else (
      ok (length (where_rows listed s.rows)),
      record s { rows = set_rows listed (λ r. record r { priority = prio }) s.rows },
    )

-- `wishlistError`: only the missing database is translated
unfoldable pub wishlist_error : PgError → WishlistError
wishlist_error store_unavailable = unavailable
wishlist_error no_rows = other "no rows in result set"
wishlist_error unique_violation = other "unique constraint violated"
wishlist_error check_violation = other "check constraint violated"

unfoldable pub as_entry : WishlistItem → StoredEntry
unfolding priority_name
as_entry r = record {
  id = r.id;
  item_hash = r.item_hash;
  priority = priority_name r.priority;
  notes = r.notes;
  created_at = r.created_at;
}

abbrev pub found_user : Option ℤ → Result WishlistError ℤ
found_user none = err (wishlist_error no_rows)
found_user (some id) = ok id

unfoldable pub wishlist_user : Table → String → Result WishlistError ℤ
unfolding wishlist_error lookup
wishlist_user s membership_id =
    if s.online then found_user (lookup membership_id s.users) else err unavailable

unfoldable pub translated {ℓ κ} :
    {A : Type ℓ} {B : Type κ} → (A → B) → Result PgError A → Result WishlistError B
unfolding wishlist_error
translated f (ok a) = ok (f a)
translated f (err e) = err (wishlist_error e)

unfoldable pub repo_list : Table → String → Result WishlistError (List StoredEntry)
unfolding wishlist_user list_items translated as_entry
repo_list s membership_id =
    wishlist_user s membership_id >>= (λ user_id. translated (map as_entry) (list_items s user_id))

abbrev pub add_outcome :
    Result PgError WishlistItem × Table → Result WishlistError StoredEntry × Table
add_outcome (err unique_violation, s) = (err duplicate, s)
add_outcome (r, s) = (translated as_entry r, s)

abbrev pub update_outcome :
    Result PgError WishlistItem × Table → Result WishlistError StoredEntry × Table
update_outcome (err no_rows, s) = (err not_found, s)
update_outcome (r, s) = (translated as_entry r, s)

abbrev pub remove_outcome : Result PgError ℕ × Table → Option WishlistError × Table
remove_outcome (err e, s) = (some (wishlist_error e), s)
remove_outcome (ok n, s) = if n == 0 then (some not_found, s) else (none, s)

abbrev pub count_outcome : Result PgError ℕ × Table → Result WishlistError ℤ × Table
count_outcome (r, s) = (translated pos r, s)

unfoldable pub repo_add : Table → String → AddCommand → Result WishlistError StoredEntry × Table
unfolding wishlist_user insert_item translated priority_rank as_entry
repo_add s membership_id entry = elim (wishlist_user s membership_id) [
  | err e ↦ (err e, s)
  | ok user_id ↦
      add_outcome (insert_item s user_id entry.item_hash (priority_rank entry.priority) entry.notes)
]

abbrev pub rank_of : Option String → Option ℕ
rank_of none = none
rank_of (some p) = some (priority_rank p)

unfoldable pub repo_update :
    Table → String → ℤ → UpdateCommand → Result WishlistError StoredEntry × Table
unfolding wishlist_user update_item translated priority_rank as_entry
repo_update s membership_id id patch = elim (wishlist_user s membership_id) [
  | err e ↦ (err e, s)
  | ok user_id ↦ update_outcome (update_item s user_id id (rank_of patch.priority) patch.notes)
]

unfoldable pub repo_remove : Table → String → ℤ → Option WishlistError × Table
unfolding wishlist_user delete_items wishlist_error
repo_remove s membership_id id = elim (wishlist_user s membership_id) [
  | err e ↦ (some e, s)
  | ok user_id ↦ remove_outcome (delete_items (is_row user_id id) s)
]

unfoldable pub repo_remove_many : Table → String → List ℤ → Result WishlistError ℤ × Table
unfolding wishlist_user delete_items translated has
repo_remove_many s membership_id ids = elim (wishlist_user s membership_id) [
  | err e ↦ (err e, s)
  | ok user_id ↦ count_outcome (delete_items (is_listed user_id ids) s)
]

unfoldable pub repo_set_priority_many :
    Table → String → List ℤ → String → Result WishlistError ℤ × Table
unfolding wishlist_user bulk_set_priority translated priority_rank
repo_set_priority_many s membership_id ids priority = elim (wishlist_user s membership_id) [
  | err e ↦ (err e, s)
  | ok user_id ↦ count_outcome (bulk_set_priority s user_id ids (priority_rank priority))
]

unfoldable pub wishlist_repository : Repository Table
unfolding repo_list repo_add repo_update repo_remove repo_remove_many repo_set_priority_many
wishlist_repository = record {
  list = repo_list;
  add = repo_add;
  update = repo_update;
  remove = repo_remove;
  remove_many = repo_remove_many;
  set_priority_many = repo_set_priority_many;
}
