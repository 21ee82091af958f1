-- ===== src/RollTargets/Service/Port/Saving.antt =====
-- services/rolltargets/service.go over db/rolltargets.go: what a valid save does, and what an edit does
-- that would store a roll twice.
use guardian_tracker.Prelude.{
  ◌+◌, ◌≡◌, ◌⊎◌, refl, sym, ◌||◌, true, none, some, List, [], ◌∷◌, ◌++◌, String, ◌≤◌, if◌then◌else◌,
  nat_eq, int_eq, string_eq, ℤ, lookup, arith, Bool-cases, inl, inr, length, TextOps,
}
use guardian_tracker.Prelude.Results.{ok, err}
use guardian_tracker.RollTargets.{StoredTarget}
use guardian_tracker.RollTargets.Service.{
  AddCommand, UpdateCommand, PerkPool, validate_perks, validate_notes, add, add_validated,
  duplicate, other,
}
use guardian_tracker.RollTargets.Service.Validation.{validate_perks-IsSorted}
use guardian_tracker.RollTargets.Service.Store.{
  RollTarget, Table, is_target, same_roll, first_row, others, taken, insert_target, update_row,
  new_row, patched, checks,
}
use guardian_tracker.RollTargets.Service.Port.{
  roll_target_repository, repo_add, repo_update, user_id_of, stored_target,
}

-- The command as the service hands it to the store.
abbrev pub plain : AddCommand → List String → AddCommand
plain cmd perks = record cmd { import_id = ""; import_title = ""; perks = perks }

new_row-checks :
    (s : Table) (u : ℤ) (cmd : AddCommand) (perks : List String)
    → validate_notes cmd.notes ≡ none
    → 1 ≤ length perks
    → length perks ≤ 10
    → checks (new_row s u (plain cmd perks)) ≡ true
unfolding validate_notes
new_row-checks s u cmd perks h low high = ground arith

module _ (t : TextOps) (pool : PerkPool) where
  -- A save whose perks and notes are valid meets every constraint of the table: for a known membership
  -- it ends in the stored roll with its canonical perks and no provenance, or, exactly if the roll is
  -- saved already, in `duplicate` with no row added.
  pub add-duplicate :
      (s : Table) (m : String) (u : ℤ) (cmd : AddCommand) (perks : List String)
      → s.online ≡ true
      → lookup m s.users ≡ some u
      → validate_perks t pool cmd.item_hash cmd.perks ≡ ok perks
      → validate_notes cmd.notes ≡ none
      → let row = new_row s u (plain cmd perks) in
        let used = record s { next_id = s.next_id + 1 } in
        add t pool roll_target_repository s m cmd ≡ (
          if taken row s.rows
          then (err duplicate, used)
          else (ok (stored_target row), record used { rows = s.rows ++ row ∷ [] }))
  unfolding add insert_target repo_add roll_target_repository
  add-duplicate s m u cmd perks online known valid notes =
      let (_, _, low, high) = validate_perks-IsSorted t pool cmd.item_hash cmd.perks perks valid in
      let fine = new_row-checks s u cmd perks notes low high in
      rw
        (
          add_validated, valid, notes, repo_add, user_id_of, online, known, insert_target, online,
          fine,
        )
        (elim (Bool-cases (taken (new_row s u (plain cmd perks)) s.rows)) [
          | inl e ↦ rw e refl
          | inr e ↦ rw e refl
        ])

-- The save that makes the roll which an edit leaves in a row.
abbrev pub same_command : RollTarget → AddCommand
same_command r = record {
  item_hash = r.item_hash;
  wanted = r.wanted;
  perks = r.perks;
  notes = r.notes;
  import_id = r.import_id;
  import_title = r.import_title;
}

-- The table with no row of the user under an id.
abbrev pub without : ℤ → ℤ → Table → Table
without u id s = record s { rows = others (is_target u id) s.rows }

first_row-is_target :
    (u id : ℤ) (rs : List RollTarget) (r : RollTarget)
    → first_row (is_target u id) rs ≡ some r
    → r.user_id ≡ u
unfolding first_row
first_row-is_target u id [] r h = absurd (cc h)
first_row-is_target u id (x ∷ rs) r h = elim (Bool-cases (is_target u id x)) [
  | inl this ↦ ground (arith, this, int_eq.beq_iff x.user_id u, rw this at h)
  | inr other_row ↦ first_row-is_target u id rs r (rw other_row at h)
]

taken-new_row :
    (s : Table) (u : ℤ) (n : RollTarget) (rs : List RollTarget)
    → n.user_id ≡ u
    → taken (new_row s u (same_command n)) rs ≡ taken n rs
unfolding taken
taken-new_row s u n [] own = refl
taken-new_row s u n (x ∷ rs) own =
    λ i. same_roll (record n { user_id = sym own i }) x || taken-new_row s u n rs own i

-- How an edit and a save answer the same roll: beside the other saved rows the edited roll can be saved
-- exactly if the edit succeeds. Where the save is answered with `duplicate`, the edit is not: the port
-- answers it as a plain error of the store, and nothing changes. For a row of the user whose edited
-- perks and notes meet the bounds of the table.
pub repo_update-repo_add :
    (s : Table) (m : String) (u id : ℤ) (r : RollTarget) (patch : UpdateCommand)
    → s.online ≡ true
    → lookup m s.users ≡ some u
    → first_row (is_target u id) s.rows ≡ some r
    → checks (patched patch r) ≡ true
    → let saved = (repo_add (without u id s) m (same_command (patched patch r))).0 in
      let edited = repo_update s m id patch in
      ((saved ≡ err duplicate) × (edited ≡ (err (other "unique constraint violated"), s)))
      ⊎ ((x : StoredTarget) × (saved ≡ ok x)
          × (y : StoredTarget) × (edited.0 ≡ ok y)
          × (y.perks ≡ x.perks)
          × (y.notes ≡ x.notes)
          × (y.id ≡ r.id))
unfolding repo_update update_row repo_add insert_target
repo_update-repo_add s m u id r patch online known found fine =
    let new = patched patch r in
    let rest = others (is_target u id) s.rows in
    let own = first_row-is_target u id s.rows r found in
    let same = taken-new_row (without u id s) u new rest own in
    elim (Bool-cases (taken new rest)) [
      | inl again ↦ inl (
        rw (repo_add, user_id_of, online, known, insert_target, online, fine, same, again) refl,
        rw (repo_update, user_id_of, online, known, update_row, online, found, fine, again)
            (λ i. (err (other "unique constraint violated"), record s { online = online i })),
      )
      | inr free ↦ inr (
        stored_target (new_row (without u id s) u (same_command new)),
        rw (repo_add, user_id_of, online, known, insert_target, online, fine, same, free) refl,
        stored_target new,
        rw (repo_update, user_id_of, online, known, update_row, online, found, fine, free) refl,
        refl,
        refl,
        refl,
      )
    ]
