-- ===== src/RollTargets/Service/Port/Ownership.antt =====
-- db/rolltargets.go and db/adapters/rolltargets.go: a membership's calls touch its own targets alone.
use guardian_tracker.Prelude.{
  ◌≡◌, ◌≢◌, refl, sym, ap, ◌∙◌, some, Bool, true, not, ◌&&◌, List, [], ◌∷◌, ◌++◌, String, ◌==◌,
  int_eq, string_eq, ℤ, has, arith, Option-cases, inl, inr,
}
use guardian_tracker.Prelude.Results.{ok, Result-cases}
use guardian_tracker.RollTargets.Service.Store.{
  RollTarget, Table, owned, is_target, where_rows, first_row, replace_row, insert_target,
  update_row, delete_rows, new_row, patched,
}
use guardian_tracker.RollTargets.Service.Port.{user_id_of}
use guardian_tracker.RollTargets.Service.Port.Uniqueness.{
  Call, adds, updates, removes, removes_many, removes_all, removes_import, after_call, statement,
  after_call-known, after_call-unknown,
}

-- The targets of a user.
abbrev pub targets_of : ℤ → Table → List RollTarget
targets_of v s = where_rows (owned v) s.rows

module _ (u v : ℤ) (apart : v ≢ u) where
  snoc-other :
      (r : RollTarget) (rs : List RollTarget)
      → r.user_id ≡ u
      → where_rows (owned v) (rs ++ r ∷ []) ≡ where_rows (owned v) rs
  unfolding where_rows
  snoc-other r [] h = ground (arith, int_eq.beq_iff r.user_id v)
  snoc-other r (x ∷ rs) h = ground (arith, snoc-other r rs h)

  delete-other :
      (p : RollTarget → Bool) (rs : List RollTarget)
      → ((r : RollTarget) → p r ≡ true → r.user_id ≡ u)
      → where_rows (owned v) (where_rows (λ r. not (p r)) rs) ≡ where_rows (owned v) rs
  unfolding where_rows
  delete-other p [] h = refl
  delete-other p (r ∷ rs) h = ground (arith, delete-other p rs h, h r, int_eq.beq_iff r.user_id v)

  replace-other :
      (p : RollTarget → Bool) (new : RollTarget) (rs : List RollTarget)
      → ((r : RollTarget) → p r ≡ true → r.user_id ≡ u)
      → new.user_id ≡ u
      → where_rows (owned v) (replace_row p new rs) ≡ where_rows (owned v) rs
  unfolding where_rows replace_row
  replace-other p new [] h e = refl
  replace-other p new (r ∷ rs) h e = ground (
    arith,
    replace-other p new rs h e,
    h r,
    int_eq.beq_iff r.user_id v,
    int_eq.beq_iff new.user_id v,
  )

  first-owner :
      (p : RollTarget → Bool) (rs : List RollTarget) (r : RollTarget)
      → ((r : RollTarget) → p r ≡ true → r.user_id ≡ u)
      → first_row p rs ≡ some r
      → r.user_id ≡ u
  unfolding first_row
  first-owner p [] r h e = absurd (cc e)
  first-owner p (x ∷ rs) r h e = ground (arith, first-owner p rs r h, h x)

  target-owner : (id : ℤ) (r : RollTarget) → is_target u id r ≡ true → r.user_id ≡ u
  target-owner id r h = ground (arith, int_eq.beq_iff r.user_id u)

  owned-owner : (p : RollTarget → Bool) (r : RollTarget) → (owned u r && p r) ≡ true → r.user_id ≡ u
  owned-owner p r h = ground (arith, int_eq.beq_iff r.user_id u)

  delete_rows-other :
      (p : RollTarget → Bool) (s : Table)
      → ((r : RollTarget) → p r ≡ true → r.user_id ≡ u)
      → targets_of v ((delete_rows p s).1) ≡ targets_of v s
  unfolding delete_rows
  delete_rows-other p s h = ground (arith, delete-other p s.rows h)

  statement-other : (s : Table) (c : Call) → targets_of v (statement s u c) ≡ targets_of v s
  unfolding statement insert_target update_row
  statement-other s (adds cmd) = ground (arith, snoc-other (new_row s u cmd) s.rows refl)
  statement-other s (updates id patch) = elim (Option-cases (first_row (is_target u id) s.rows)) [
    | inl missing ↦ rw (missing, statement, update_row) (ground arith)
    | inr (r, found) ↦
        rw (found, statement, update_row)
          (ground (
            arith,
            replace-other (is_target u id) (patched patch r) s.rows (target-owner id)
                (first-owner (is_target u id) s.rows r (target-owner id) found),
          ))
  ]
  statement-other s (removes id) = delete_rows-other _ s (target-owner id)
  statement-other s (removes_many ids) = delete_rows-other _ s (owned-owner (λ r. has r.id ids))
  statement-other s removes_all = delete_rows-other _ s (owned-owner (λ r. true))
  statement-other s (removes_import id) =
      delete_rows-other _ s (owned-owner (λ r. not (r.import_id == "") && r.import_id == id))

-- Whatever a membership saves, edits or removes, also with ids that are not its own, the targets of
-- every other user stay as they are.
pub after_call-targets_of :
    (s : Table) (m : String) (v : ℤ) (c : Call)
    → user_id_of s m ≢ ok v
    → targets_of v (after_call s m c) ≡ targets_of v s
after_call-targets_of s m v c foreign = elim (Result-cases (user_id_of s m)) [
  | inl (u, known) ↦
      rw (after_call-known s m u c known)
        (statement-other u v (λ e. foreign (known ∙ ap ok (sym e))) s c)
  | inr (e, unknown) ↦ rw (after_call-unknown s m e c unknown) refl
]
