-- ===== src/Wishlist/Store/Wishes.antt =====
-- db/wishlist.go and db/adapters/wishlist.go: the table as a map from the items that a user saved to
-- their ranks and notes.
use guardian_tracker.Prelude.{
  ℕ, ◌≡◌, refl, true, false, ◌&&◌, Option, none, some, List, [], ◌∷◌, ◌++◌, String, if◌then◌else◌,
  ◌==◌, nat_eq, int_eq, ℤ, arith, inl, inr, Bool-cases, is_some,
}
use guardian_tracker.Prelude.Results.{ok, err}
use guardian_tracker.Wishlist.{AddCommand, duplicate}
use guardian_tracker.Wishlist.Store.{
  WishlistItem, Table, is_item, any_row, insert_item, new_item, checks, wishlist_user, repo_add,
  priority_rank,
}

-- What a user wants of an item, if it is saved.
unfoldable pub wish : ℤ → ℕ → List WishlistItem → Option (ℕ × String)
wish u h [] = none
wish u h (r ∷ rs) =
    let rest = wish u h rs in if is_item u h r then some (r.priority, r.notes) else rest

any_row-wish :
    (u : ℤ) (h : ℕ) (rs : List WishlistItem) → any_row (is_item u h) rs ≡ is_some (wish u h rs)
unfolding any_row wish
any_row-wish u h [] = refl
any_row-wish u h (r ∷ rs) = ground (arith, any_row-wish u h rs)

wish-snoc :
    (v : ℤ) (h : ℕ) (r : WishlistItem) (rs : List WishlistItem)
    → is_some (wish r.user_id r.item_hash rs) ≡ false
    → wish v h (rs ++ r ∷ [])
      ≡ (if r.user_id == v && r.item_hash == h then some (r.priority, r.notes) else wish v h rs)
unfolding wish
wish-snoc v h r [] fresh = refl
wish-snoc v h r (x ∷ rs) fresh = ground (
  arith,
  wish-snoc v h r rs,
  int_eq.beq_iff r.user_id v,
  int_eq.beq_iff x.user_id v,
  int_eq.beq_iff x.user_id r.user_id,
  nat_eq.beq_iff r.item_hash h,
  nat_eq.beq_iff x.item_hash h,
  nat_eq.beq_iff x.item_hash r.item_hash,
)

-- The table as a finite map: to save an item that is there already is refused as a duplicate and changes
-- no wish; another item, with notes that the table takes, is saved with its rank and notes, and every
-- other wish of every user stays as it was.
pub repo_add-wish :
    (s : Table) (m : String) (u v : ℤ) (h : ℕ) (cmd : AddCommand)
    → s.online ≡ true
    → wishlist_user s m ≡ ok u
    → checks (new_item s u cmd.item_hash (priority_rank cmd.priority) cmd.notes) ≡ true
    → let after = repo_add s m cmd in
      if is_some (wish u cmd.item_hash s.rows)
      then (after.0 ≡ err duplicate) × (wish v h (after.1).rows ≡ wish v h s.rows)
      else (wish v h (after.1).rows ≡ (
          if u == v && cmd.item_hash == h
          then some (priority_rank cmd.priority, cmd.notes)
          else wish v h s.rows))
unfolding repo_add insert_item
repo_add-wish s m u v h cmd online known fine =
    elim (Bool-cases (is_some (wish u cmd.item_hash s.rows))) [
      | inl held ↦
          rw
            (
              held,
              repo_add,
              known,
              insert_item,
              online,
              fine,
              any_row-wish u cmd.item_hash s.rows,
              held,
            )
            (refl, refl)
      | inr fresh ↦
          rw
            (
              fresh,
              repo_add,
              known,
              insert_item,
              online,
              fine,
              any_row-wish u cmd.item_hash s.rows,
              fresh,
            )
            (wish-snoc v h (new_item s u cmd.item_hash (priority_rank cmd.priority) cmd.notes)
              s.rows fresh)
    ]
