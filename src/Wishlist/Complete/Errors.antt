-- ===== src/Wishlist/Complete/Errors.antt =====
-- services/wishlist/service.go over db/wishlist.go: an operation that reports an error has saved nothing.
use guardian_tracker.Prelude.{
  ℕ, ◌≡◌, refl, Option, String, ℤ, Assoc, arith, inl, inr, Bool-cases, Option-cases,
}
use guardian_tracker.Prelude.Results.{Result, ok, err, Result-cases, ◌>>=◌}
use guardian_tracker.Wishlist.{
  AddCommand, UpdateCommand, WishlistError, ItemLookup, add_entry, add_checked, update_entry, valid,
  is_invalid, notes_checked, validate_notes, require_known_item, defaulted,
}
use guardian_tracker.Wishlist.Store.{
  Table, WishlistItem, PgError, insert_item, update_item, translated, add_outcome, update_outcome,
  wishlist_user, repo_add, repo_update, wishlist_repository, priority_rank, rank_of,
}
use guardian_tracker.Wishlist.Complete.{Membership, add, update, resolved}

-- Rows are changed only by what succeeds.
abbrev pub Spares {ℓ} : {A : Type ℓ} → Table → Result WishlistError A × Table → Type 0
Spares s (ok a, s') = Unit {0}
Spares s (err e, s') = s'.rows ≡ s.rows

abbrev SparesRows : Table → Result PgError WishlistItem × Table → Type 0
SparesRows s (ok a, s') = Unit {0}
SparesRows s (err e, s') = s'.rows ≡ s.rows

insert_item-Spares :
    (s : Table) (u : ℤ) (hash prio : ℕ) (notes : String)
    → SparesRows s (insert_item s u hash prio notes)
unfolding insert_item
insert_item-Spares s u hash prio notes = ground arith

add_outcome-Spares :
    (s : Table) (r : Result PgError WishlistItem × Table)
    → SparesRows s r
    → Spares s (add_outcome r)
unfolding translated
add_outcome-Spares s (ok r, s') h = tt
add_outcome-Spares s (err e, s') h = ground arith

update_outcome-Spares :
    (s : Table) (r : Result PgError WishlistItem × Table)
    → SparesRows s r
    → Spares s (update_outcome r)
unfolding translated
update_outcome-Spares s (ok r, s') h = tt
update_outcome-Spares s (err e, s') h = ground arith

update_item-Spares :
    (s : Table) (u id : ℤ) (prio : Option ℕ) (notes : Option String)
    → SparesRows s (update_item s u id prio notes)
unfolding update_item
update_item-Spares s u id prio notes = ground arith

repo_add-Spares : (s : Table) (m : String) (cmd : AddCommand) → Spares s (repo_add s m cmd)
unfolding repo_add
repo_add-Spares s m cmd = elim (Result-cases (wishlist_user s m)) [
  | inr (x, e) ↦ rw (e, repo_add) refl
  | inl (u, e) ↦
      rw (e, repo_add)
        (add_outcome-Spares s _
          (insert_item-Spares s u cmd.item_hash (priority_rank cmd.priority) cmd.notes))
]

repo_update-Spares :
    (s : Table) (m : String) (id : ℤ) (patch : UpdateCommand) → Spares s (repo_update s m id patch)
unfolding repo_update
repo_update-Spares s m id patch = elim (Result-cases (wishlist_user s m)) [
  | inr (x, e) ↦ rw (e, repo_update) refl
  | inl (u, e) ↦
      rw (e, repo_update)
        (update_outcome-Spares s _ (update_item-Spares s u id (rank_of patch.priority) patch.notes))
]

Spares-bind {ℓ κ} :
    {A : Type ℓ} {B : Type κ} (s : Table) (r : Result WishlistError A) (s' : Table) (g : A → B)
    → Spares s (r, s')
    → Spares s ((r >>= (λ a. ok (g a))), s')
Spares-bind s (ok a) s' g h = tt
Spares-bind s (err e) s' g h = h

module _ (items : ItemLookup) where
  add_checked-Spares :
      (s : Table) (m : String) (cmd : AddCommand)
      → Spares s (add_checked items wishlist_repository s m cmd)
  unfolding wishlist_repository
  add_checked-Spares s m cmd = elim (Option-cases (validate_notes cmd.notes)) [
    | inr (x, long) ↦ rw (add_checked, long) refl
    | inl fine ↦ elim (Result-cases (require_known_item items cmd.item_hash)) [
      | inr (x, e) ↦ rw (add_checked, fine, e) refl
      | inl (facts, e) ↦
          let saved = repo_add s m cmd in
          rw (add_checked, fine, e)
            (Spares-bind s (saved.0) (saved.1) (λ entry. (entry, facts)) (repo_add-Spares s m cmd))
    ]
  ]

  add_entry-Spares :
      (s : Table) (m : String) (command : AddCommand)
      → Spares s (add_entry items wishlist_repository s m command)
  unfolding add_entry
  add_entry-Spares s m command = elim (Bool-cases (valid (defaulted command).priority)) [
    | inr bad ↦ rw (bad, add_entry) refl
    | inl good ↦ rw (good, add_entry) (add_checked-Spares s m (defaulted command))
  ]

  update_entry-Spares :
      (s : Table) (m : String) (id : ℤ) (patch : UpdateCommand)
      → Spares s (update_entry items wishlist_repository s m id patch)
  unfolding update_entry wishlist_repository
  update_entry-Spares s m id patch = elim (Bool-cases (is_invalid patch.priority)) [
    | inl bad ↦ rw (bad, update_entry) refl
    | inr good ↦ elim (Option-cases (notes_checked patch.notes)) [
      | inr (x, long) ↦ rw (good, long, update_entry) refl
      | inl fine ↦ rw (good, fine, update_entry) (repo_update-Spares s m id patch)
    ]
  ]

  module _ (live : ℤ → String → String → Assoc ℕ String)
      (credential : Option (String → Result String String)) where
    -- A save and an edit are all or nothing: where the service answers with any error, from the
    -- validation, the catalogue of items, the table or its port, the saved rows are as they were.
    pub errors-Spares :
        (s : Table) (m : Membership) (id : ℤ) (cmd : AddCommand) (patch : UpdateCommand)
        → Spares s (add live credential items wishlist_repository s m cmd)
          × Spares s (update live credential items wishlist_repository s m id patch)
    unfolding add update
    errors-Spares s m id cmd patch = (
      Spares-bind s _ _ _ (add_entry-Spares s m.membership_id cmd),
      elim (Result-cases
          (resolved live credential items wishlist_repository s m.membership_id id)) [
            | inr (x, e) ↦ rw (e, update) refl
            | inl (state, e) ↦
                rw (e, update)
                  (Spares-bind s _ _ _ (update_entry-Spares s m.membership_id id patch))
          ],
    )
