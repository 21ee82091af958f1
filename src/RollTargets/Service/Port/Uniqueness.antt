-- ===== src/RollTargets/Service/Port/Uniqueness.antt =====
-- db/rolltargets.go and db/adapters/rolltargets.go: no roll is ever stored twice.
use guardian_tracker.Prelude.{
  ℕ, ◌≡◌, refl, Bool, true, false, not, ◌&&◌, ◌||◌, Option, none, some, List, [], ◌∷◌, ◌++◌, String,
  ◌==◌, nat_eq, int_eq, string_eq, ℤ, has, arith, Option-cases, inl, inr,
}
use guardian_tracker.Prelude.Results.{Result, ok, err, Result-cases}
use guardian_tracker.RollTargets.Service.{TargetError, AddCommand, UpdateCommand}
use guardian_tracker.RollTargets.Service.Store.{
  RollTarget, Table, PgError, store_unavailable, no_rows, unique_violation, check_violation, owned,
  is_target, where_rows, first_row, others, replace_row, taken, same_roll, option_eq, bool_eq,
  texts_eq, insert_target, update_row, delete_rows, new_row, patched,
}
use guardian_tracker.RollTargets.Service.Port.{
  repo_add, repo_update, repo_remove, repo_remove_many, repo_remove_all, repo_remove_import,
  user_id_of, add_outcome, update_outcome, remove_outcome,
}

option_eq_comm : (a b : Option ℕ) → option_eq a b ≡ option_eq b a
option_eq_comm none none = refl
option_eq_comm none (some b) = refl
option_eq_comm (some a) none = refl
option_eq_comm (some a) (some b) = ground (arith, nat_eq.beq_iff a b, nat_eq.beq_iff b a)

bool_eq_comm : (a b : Bool) → bool_eq a b ≡ bool_eq b a
bool_eq_comm true true = refl
bool_eq_comm true false = refl
bool_eq_comm false true = refl
bool_eq_comm false false = refl

texts_eq_comm : (xs ys : List String) → texts_eq xs ys ≡ texts_eq ys xs
texts_eq_comm [] [] = refl
texts_eq_comm [] (y ∷ ys) = refl
texts_eq_comm (x ∷ xs) [] = refl
texts_eq_comm (x ∷ xs) (y ∷ ys) =
    ground (arith, string_eq.beq_iff x y, string_eq.beq_iff y x, texts_eq_comm xs ys)

same_roll_comm : (a b : RollTarget) → same_roll a b ≡ same_roll b a
same_roll_comm a b = ground (
  arith,
  int_eq.beq_iff a.user_id b.user_id,
  int_eq.beq_iff b.user_id a.user_id,
  option_eq_comm a.item_hash b.item_hash,
  bool_eq_comm a.wanted b.wanted,
  texts_eq_comm a.perks b.perks,
)

-- No roll stands twice.
abbrev pub NoneTwice : List RollTarget → Type 0
NoneTwice [] = Unit {0}
NoneTwice (r ∷ rs) = (taken r rs ≡ false) × NoneTwice rs

taken-snoc :
    (r new : RollTarget) (rs : List RollTarget)
    → taken r (rs ++ new ∷ []) ≡ (taken r rs || same_roll r new)
unfolding taken
taken-snoc r new [] = ground arith
taken-snoc r new (x ∷ rs) = ground (arith, taken-snoc r new rs)

NoneTwice-snoc :
    (new : RollTarget) (rs : List RollTarget)
    → taken new rs ≡ false
    → NoneTwice rs
    → NoneTwice (rs ++ new ∷ [])
unfolding taken
NoneTwice-snoc new [] h d = (refl, tt)
NoneTwice-snoc new (r ∷ rs) h d =
    ground (arith, NoneTwice-snoc new rs, taken-snoc r new rs, same_roll_comm new r)

taken-where_rows :
    (p : RollTarget → Bool) (r : RollTarget) (rs : List RollTarget)
    → taken r rs ≡ false
    → taken r (where_rows p rs) ≡ false
unfolding taken where_rows
taken-where_rows p r [] h = h
taken-where_rows p r (x ∷ rs) h = ground (arith, taken-where_rows p r rs)

NoneTwice-where_rows :
    (p : RollTarget → Bool) (rs : List RollTarget) → NoneTwice rs → NoneTwice (where_rows p rs)
unfolding where_rows
NoneTwice-where_rows p [] d = tt
NoneTwice-where_rows p (r ∷ rs) d =
    ground (arith, NoneTwice-where_rows p rs d.1, taken-where_rows p r rs d.0)

taken-replace_row :
    (p : RollTarget → Bool) (r new : RollTarget) (rs : List RollTarget)
    → taken r rs ≡ false
    → same_roll r new ≡ false
    → taken r (replace_row p new rs) ≡ false
unfolding taken replace_row
taken-replace_row p r new [] h apart = refl
taken-replace_row p r new (x ∷ rs) h apart = ground (arith, taken-replace_row p r new rs)

NoneTwice-replace_row :
    (p : RollTarget → Bool) (new : RollTarget) (rs : List RollTarget)
    → taken new (others p rs) ≡ false
    → NoneTwice rs
    → NoneTwice (replace_row p new rs)
unfolding taken others replace_row
NoneTwice-replace_row p new [] h d = tt
NoneTwice-replace_row p new (r ∷ rs) h d =
    ground (
      arith,
      NoneTwice-replace_row p new rs,
      taken-replace_row p r new rs d.0,
      same_roll_comm new r,
    )

-- The calls that change the table.
pub data Call : Type 0 where
  adds : AddCommand → Call
  updates : ℤ → UpdateCommand → Call
  removes : ℤ → Call
  removes_many : List ℤ → Call
  removes_all : Call
  removes_import : String → Call

unfoldable pub after_call : Table → String → Call → Table
after_call s m (adds cmd) = (repo_add s m cmd).1
after_call s m (updates id patch) = (repo_update s m id patch).1
after_call s m (removes id) = (repo_remove s m id).1
after_call s m (removes_many ids) = (repo_remove_many s m ids).1
after_call s m removes_all = (repo_remove_all s m).1
after_call s m (removes_import id) = (repo_remove_import s m id).1

-- The statement that a call makes for a user.
unfoldable pub statement : Table → ℤ → Call → Table
statement s u (adds cmd) = (insert_target s u cmd).1
statement s u (updates id patch) = (update_row s u id patch).1
statement s u (removes id) = (delete_rows (is_target u id) s).1
statement s u (removes_many ids) = (delete_rows (λ r. owned u r && has r.id ids) s).1
statement s u removes_all = (delete_rows (λ r. owned u r && true) s).1
statement s u (removes_import id) =
    (delete_rows (λ r. owned u r && (not (r.import_id == "") && r.import_id == id)) s).1

add_outcome-state : (r : Result PgError RollTarget × Table) → (add_outcome r).1 ≡ r.1
add_outcome-state (ok r, s) = refl
add_outcome-state (err store_unavailable, s) = refl
add_outcome-state (err no_rows, s) = refl
add_outcome-state (err unique_violation, s) = refl
add_outcome-state (err check_violation, s) = refl

update_outcome-state : (r : Result PgError RollTarget × Table) → (update_outcome r).1 ≡ r.1
update_outcome-state (ok r, s) = refl
update_outcome-state (err store_unavailable, s) = refl
update_outcome-state (err no_rows, s) = refl
update_outcome-state (err unique_violation, s) = refl
update_outcome-state (err check_violation, s) = refl

remove_outcome-state : (r : Result PgError ℕ × Table) → (remove_outcome r).1 ≡ r.1
remove_outcome-state (ok n, s) = ground arith
remove_outcome-state (err e, s) = refl

-- A call for a membership that has no user changes nothing; another makes its statement.
pub after_call-known :
    (s : Table) (m : String) (u : ℤ) (c : Call)
    → user_id_of s m ≡ ok u
    → after_call s m c ≡ statement s u c
unfolding after_call statement repo_add repo_update repo_remove repo_remove_many repo_remove_all
    repo_remove_import
after_call-known s m u (adds cmd) h =
    rw (h, after_call, repo_add) (add_outcome-state (insert_target s u cmd))
after_call-known s m u (updates id patch) h =
    rw (h, after_call, repo_update) (update_outcome-state (update_row s u id patch))
after_call-known s m u (removes id) h =
    rw (h, after_call, repo_remove) (remove_outcome-state (delete_rows (is_target u id) s))
after_call-known s m u (removes_many ids) h = rw (h, after_call, repo_remove_many) refl
after_call-known s m u removes_all h = rw (h, after_call, repo_remove_all) refl
after_call-known s m u (removes_import id) h = rw (h, after_call, repo_remove_import) refl

pub after_call-unknown :
    (s : Table) (m : String) (e : TargetError) (c : Call)
    → user_id_of s m ≡ err e
    → after_call s m c ≡ s
unfolding after_call statement repo_add repo_update repo_remove repo_remove_many repo_remove_all
    repo_remove_import
after_call-unknown s m e (adds cmd) h = rw (h, after_call, repo_add) refl
after_call-unknown s m e (updates id patch) h = rw (h, after_call, repo_update) refl
after_call-unknown s m e (removes id) h = rw (h, after_call, repo_remove) refl
after_call-unknown s m e (removes_many ids) h = rw (h, after_call, repo_remove_many) refl
after_call-unknown s m e removes_all h = rw (h, after_call, repo_remove_all) refl
after_call-unknown s m e (removes_import id) h = rw (h, after_call, repo_remove_import) refl

delete_rows-NoneTwice :
    (p : RollTarget → Bool) (s : Table) → NoneTwice s.rows → NoneTwice ((delete_rows p s).1).rows
unfolding delete_rows
delete_rows-NoneTwice p s d = ground (arith, NoneTwice-where_rows (λ r. not (p r)) s.rows d)

statement-NoneTwice :
    (s : Table) (u : ℤ) (c : Call) → NoneTwice s.rows → NoneTwice (statement s u c).rows
unfolding statement insert_target update_row
statement-NoneTwice s u (adds cmd) d = ground (arith, NoneTwice-snoc (new_row s u cmd) s.rows)
statement-NoneTwice s u (updates id patch) d =
    elim (Option-cases (first_row (is_target u id) s.rows)) [
      | inl missing ↦ rw (missing, statement, update_row) (ground arith)
      | inr (r, found) ↦
          rw (found, statement, update_row)
            (ground (arith, NoneTwice-replace_row (is_target u id) (patched patch r) s.rows))
    ]
statement-NoneTwice s u (removes id) d = delete_rows-NoneTwice _ s d
statement-NoneTwice s u (removes_many ids) d = delete_rows-NoneTwice _ s d
statement-NoneTwice s u removes_all d = delete_rows-NoneTwice _ s d
statement-NoneTwice s u (removes_import id) d = delete_rows-NoneTwice _ s d

-- In the table of saved targets no roll stands twice for one user, and every call of the port keeps it
-- so: a save or an edit that would store the same weapon, stance and perks again is refused.
pub after_call-NoneTwice :
    (s : Table) (m : String) (c : Call) → NoneTwice s.rows → NoneTwice (after_call s m c).rows
after_call-NoneTwice s m c d = elim (Result-cases (user_id_of s m)) [
  | inl (u, known) ↦ rw (after_call-known s m u c known) (statement-NoneTwice s u c d)
  | inr (e, unknown) ↦ rw (after_call-unknown s m e c unknown) d
]
