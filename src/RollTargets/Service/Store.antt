-- ===== src/RollTargets/Service/Store.antt =====
-- db/rolltargets.go and db/adapters/rolltargets.go: the table of saved targets and the port over it.
-- A statement is one step. The constraints of the table are those of the statements that create it
-- (db/migrations): a roll stands once for a user, a target has 1 to 10 perks, notes and title have at
-- most 500 characters, and a title needs an import.
use Prim.Native.String.{count}
use guardian_tracker.Prelude.{
  ℕ, ◌+◌, Bool, true, false, not, ◌&&◌, ◌||◌, Option, none, some, List, [], ◌∷◌, ◌++◌, String,
  if◌then◌else◌, ◌==◌, nat_eq, int_eq, string_eq, ltb, leb, ℤ, pos, length, Assoc,
}
use guardian_tracker.Prelude.Sort.{sort_stable}
use guardian_tracker.Prelude.Results.{Result, ok, err}
use guardian_tracker.RollTargets.Service.{AddCommand, UpdateCommand}

pub record RollTarget : Type 0 where
  pub id : ℤ
  pub user_id : ℤ
  pub item_hash : Option ℕ
  pub wanted : Bool
  pub perks : List String
  pub notes : String
  pub import_id : String
  pub import_title : String
  pub created_at : ℕ

-- The table, the users by membership, the next identity and the clock. `online` is false where there
-- is no database.
pub record Table : Type 0 where
  pub online : Bool
  pub users : Assoc String ℤ
  pub rows : List RollTarget
  pub next_id : ℕ
  pub now : ℕ

pub data PgError : Type 0 where
  store_unavailable no_rows unique_violation check_violation : PgError

abbrev pub option_eq : Option ℕ → Option ℕ → Bool
option_eq none none = true
option_eq (some a) (some b) = a == b
option_eq _ _ = false

abbrev pub bool_eq : Bool → Bool → Bool
bool_eq true b = b
bool_eq false b = not b

abbrev pub texts_eq : List String → List String → Bool
texts_eq [] [] = true
texts_eq (x ∷ xs) (y ∷ ys) = x == y && texts_eq xs ys
texts_eq _ _ = false

-- the columns of the constraint `roll_targets_roll_key`
abbrev pub same_roll : RollTarget → RollTarget → Bool
same_roll a b =
    a.user_id == b.user_id
    && option_eq a.item_hash b.item_hash
    && bool_eq a.wanted b.wanted
    && texts_eq a.perks b.perks

unfoldable pub taken : RollTarget → List RollTarget → Bool
taken r [] = false
taken r (x ∷ xs) = same_roll r x || taken r xs

abbrev pub checks : RollTarget → Bool
checks r =
    leb 1 (length r.perks)
    && leb (length r.perks) 10
    && leb (count r.notes) 500
    && leb (count r.import_title) 500
    && (not (r.import_id == "") || r.import_title == "")

abbrev pub owned : ℤ → RollTarget → Bool
owned user_id r = r.user_id == user_id

unfoldable pub where_rows : (RollTarget → Bool) → List RollTarget → List RollTarget
where_rows p [] = []
where_rows p (r ∷ rs) = let rest = where_rows p rs in if p r then r ∷ rest else rest

-- `ORDER BY created_at DESC, id DESC`
abbrev pub id_above : ℤ → ℤ → Bool
id_above (pos a) (pos b) = ltb b a
id_above (pos a) (ℤ.negsuc b) = true
id_above (ℤ.negsuc a) (pos b) = false
id_above (ℤ.negsuc a) (ℤ.negsuc b) = ltb a b

abbrev pub newer : RollTarget → RollTarget → Bool
newer a b = ltb b.created_at a.created_at || (a.created_at == b.created_at && id_above a.id b.id)

unfoldable pub list_rows : Table → ℤ → Result PgError (List RollTarget)
unfolding where_rows sort_stable
list_rows s user_id =
    if s.online
    then ok (sort_stable newer (where_rows (owned user_id) s.rows))
    else err store_unavailable

abbrev pub new_row : Table → ℤ → AddCommand → RollTarget
new_row s user_id cmd = record {
  id = pos s.next_id;
  user_id = user_id;
  item_hash = cmd.item_hash;
  wanted = cmd.wanted;
  perks = cmd.perks;
  notes = cmd.notes;
  import_id = cmd.import_id;
  import_title = cmd.import_title;
  created_at = s.now;
}

-- An identity is used up by a statement that a constraint refuses.
unfoldable pub insert_target : Table → ℤ → AddCommand → Result PgError RollTarget × Table
unfolding taken
insert_target s user_id cmd =
    let r = new_row s user_id cmd in
    let s' = record s { next_id = s.next_id + 1 } in
    if not s.online
    then (err store_unavailable, s)
    else if not (checks r)
    then (err check_violation, s')
    else if taken r s.rows
    then (err unique_violation, s')
    else (ok r, record s' { rows = s.rows ++ r ∷ [] })

abbrev pub or_kept {ℓ} : {A : Type ℓ} → Option A → A → A
or_kept none a = a
or_kept (some b) a = b

abbrev pub patched : UpdateCommand → RollTarget → RollTarget
patched patch r = record r {
  perks = or_kept patch.perks r.perks;
  notes = or_kept patch.notes r.notes;
}

abbrev pub is_target : ℤ → ℤ → RollTarget → Bool
is_target user_id id r = r.id == id && r.user_id == user_id

-- The row that meets a condition on the primary key, which is one at most: it, the others, and the
-- rows with another in its place.
unfoldable pub first_row : (RollTarget → Bool) → List RollTarget → Option RollTarget
first_row p [] = none
first_row p (r ∷ rs) = let rest = first_row p rs in if p r then some r else rest

unfoldable pub others : (RollTarget → Bool) → List RollTarget → List RollTarget
others p [] = []
others p (r ∷ rs) = let rest = others p rs in if p r then rs else r ∷ rest

unfoldable pub replace_row : (RollTarget → Bool) → RollTarget → List RollTarget → List RollTarget
replace_row p new [] = []
replace_row p new (r ∷ rs) = let rest = replace_row p new rs in if p r then new ∷ rs else r ∷ rest

unfoldable pub update_row : Table → ℤ → ℤ → UpdateCommand → Result PgError RollTarget × Table
unfolding first_row others taken replace_row
update_row s user_id id patch =
    let target = is_target user_id id in
    if not s.online then (err store_unavailable, s) else elim (first_row target s.rows) [
      | none ↦ (err no_rows, s)
      | some r ↦
          let new = patched patch r in
          if not (checks new)
          then (err check_violation, s)
          else if taken new (others target s.rows)
          then (err unique_violation, s)
          else (ok new, record s { rows = replace_row target new s.rows })
    ]

-- A deletion of the rows that meet a condition, with their number.
unfoldable pub delete_rows : (RollTarget → Bool) → Table → Result PgError ℕ × Table
unfolding where_rows
delete_rows p s =
    if s.online
    then (ok (length (where_rows p s.rows)), record s { rows = where_rows (λ r. not (p r)) s.rows })
    else (err store_unavailable, s)
