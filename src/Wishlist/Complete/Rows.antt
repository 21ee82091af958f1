-- ===== src/Wishlist/Complete/Rows.antt =====
-- services/wishlist/service.go: the complete list shows every stored row.
use guardian_tracker.Prelude.{
  ℕ, ◌≡◌, refl, sym, ap, ◌∙◌, Option, List, [], ◌∷◌, String, map, ℤ, Assoc, inl, inr,
}
use guardian_tracker.Prelude.Results.{Result, ok, err, Result-cases}
use guardian_tracker.Wishlist.{AcquisitionFacts, StoredEntry, ItemLookup, Repository}
use guardian_tracker.Wishlist.Complete.{
  ItemState, Membership, Entry, entry_of, state_for, availability, complete, completed, listed,
  list,
}

-- What a user saved, without what the item is and where it is on sale.
unfoldable pub saved_part : Entry → StoredEntry
saved_part e = record {
  id = e.id;
  item_hash = e.item_hash;
  priority = e.priority;
  notes = e.notes;
  created_at = e.created_at;
}

module _ (live : ℤ → String → String → Assoc ℕ String)
    (credential : Option (String → Result String String)) (items : ItemLookup) where
  saved_parts :
      (state : StoredEntry → ItemState) (sale : Assoc ℕ String) (stored : List StoredEntry)
      → map saved_part (map (λ e. entry_of e (state e) sale) stored) ≡ stored
  unfolding saved_part
  saved_parts state sale [] = refl
  saved_parts state sale (e ∷ es) = ap (λ rest. e ∷ rest) (saved_parts state sale es)

  completed-saved :
      (m : Membership) (stored : List StoredEntry)
      (facts : Result String (Assoc ℕ AcquisitionFacts)) (entries : List Entry)
      → completed live credential items m stored facts ≡ ok entries
      → stored ≡ map saved_part entries
  completed-saved m stored (err e) entries h = absurd (cc h)
  completed-saved m stored (ok facts) entries h =
      let sale = availability live credential m in
      let state : StoredEntry → ItemState = λ e. state_for facts (StoredEntry.item_hash e) in
      let same : map (λ e. entry_of e (state e) sale) stored ≡ entries = cc in
      sym (saved_parts state sale stored) ∙ ap (map saved_part) same

  listed-saved :
      (m : Membership) (stored : List StoredEntry) (entries : List Entry)
      → listed live credential items m stored ≡ ok entries
      → stored ≡ map saved_part entries
  unfolding complete
  listed-saved m [] entries h = let same : [] ≡ entries = cc in ap (map saved_part) same
  listed-saved m (e ∷ es) entries h = completed-saved m (e ∷ es) (items _) entries h

  -- A wish list that is shown has every row that the store lists, in the store's order and with its own
  -- priority and notes: also those whose item the catalogue no longer knows, and whatever the vendors
  -- and the reader of tokens answer.
  pub list-saved_part {ℓ} :
      {S : Type ℓ} (repo : Repository S) (s : S) (m : Membership) (entries : List Entry)
      → list live credential items repo s m ≡ ok entries
      → repo.list s m.membership_id ≡ ok (map saved_part entries)
  unfolding list
  list-saved_part repo s m entries h = elim (Result-cases (repo.list s m.membership_id)) [
    | inr (x, e) ↦ absurd (cc (rw e at h))
    | inl (stored, e) ↦ e ∙ ap ok (listed-saved m stored entries (rw e at h))
  ]
