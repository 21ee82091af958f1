-- ===== src/Wishlist/Complete.antt =====
-- services/wishlist/service.go: the complete wish list, with what its items are and where they are on
-- sale. `live` is the answer of the vendors for a membership and a token, and `credential` the token of a
-- membership, if there is a reader of tokens.
pub mod Rows
pub mod Errors
use guardian_tracker.Prelude.{
  ℕ, Bool, true, false, Option, none, some, List, [], ◌∷◌, String, map, ◌==◌, nat_eq, int_eq, ℤ,
  Assoc, lookup, if◌then◌else◌,
}
use guardian_tracker.Prelude.Results.{Result, ok, err, ◌>>=◌}
use guardian_tracker.Sources.{AcquisitionSource}
use guardian_tracker.Wishlist.{
  AcquisitionFacts, StoredEntry, AddCommand, UpdateCommand, WishlistError, not_found,
  items_unavailable, ItemLookup, Repository, add_entry, update_entry,
}

pub data ItemState : Type 0 where
  known_item : AcquisitionFacts → ItemState
  tombstone : ItemState

unfoldable pub known : ItemState → Bool
known (known_item facts) = true
known tombstone = false

unfoldable pub item_name : ItemState → String
item_name (known_item facts) = facts.name
item_name tombstone = "Unknown Item"

unfoldable pub item_type : ItemState → String
item_type (known_item facts) = facts.item_type
item_type tombstone = "Item"

unfoldable pub item_rarity : ItemState → String
item_rarity (known_item facts) = facts.rarity
item_rarity tombstone = "Common"

unfoldable pub item_icon : ItemState → String
item_icon (known_item facts) = facts.icon
item_icon tombstone = ""

unfoldable pub item_sources : ItemState → List AcquisitionSource
item_sources (known_item facts) = facts.acquisition_sources
item_sources tombstone = []

pub record Membership : Type 0 where
  pub membership_type : ℤ
  pub membership_id : String

pub record Entry : Type 0 where
  pub id : ℤ
  pub item_hash : ℕ
  pub priority : String
  pub notes : String
  pub created_at : ℕ
  pub item : ItemState
  pub available_from : String

abbrev pub as_state : Option AcquisitionFacts → ItemState
as_state none = tombstone
as_state (some facts) = known_item facts

unfoldable pub state_for : Assoc ℕ AcquisitionFacts → ℕ → ItemState
unfolding lookup
state_for facts item_hash = as_state (lookup item_hash facts)

-- Reading a map of the language gives the empty text for a key that is not there.
abbrev pub or_empty : Option String → String
or_empty none = ""
or_empty (some s) = s

abbrev pub entry_of : StoredEntry → ItemState → Assoc ℕ String → Entry
entry_of stored item live = record {
  id = stored.id;
  item_hash = stored.item_hash;
  priority = stored.priority;
  notes = stored.notes;
  created_at = stored.created_at;
  item = item;
  available_from = or_empty (lookup stored.item_hash live);
}

unfoldable pub stored_in : ℤ → List StoredEntry → Result WishlistError StoredEntry
stored_in id [] = err not_found
stored_in id (e ∷ es) = if e.id == id then ok e else stored_in id es

abbrev pub token_of : Result String String → String
token_of (ok token) = token
token_of (err e) = ""

module _ (live : ℤ → String → String → Assoc ℕ String)
    (credential : Option (String → Result String String)) where
  unfoldable pub availability : Membership → Assoc ℕ String
  availability m = elim credential [
    | none ↦ live m.membership_type m.membership_id ""
    | some read ↦ live m.membership_type m.membership_id (token_of (read m.membership_id))
  ]

  module _ (items : ItemLookup) where
    abbrev pub completed :
        Membership
        → List StoredEntry
        → Result String (Assoc ℕ AcquisitionFacts)
        → Result WishlistError (List Entry)
    completed m stored (err e) = err items_unavailable
    completed m stored (ok facts) =
        ok (
          map (λ e. entry_of e (state_for facts (StoredEntry.item_hash e)) (availability m)) stored)

    unfoldable pub complete : Membership → List StoredEntry → Result WishlistError (List Entry)
    unfolding availability state_for
    complete m stored = completed m stored (items (map (λ e. StoredEntry.item_hash e) stored))

    abbrev pub listed : Membership → List StoredEntry → Result WishlistError (List Entry)
    listed m [] = ok []
    listed m (e ∷ es) = complete m (e ∷ es)

    abbrev pub state_in :
        ℕ → Result String (Assoc ℕ AcquisitionFacts) → Result WishlistError ItemState
    state_in item_hash (err e) = err items_unavailable
    state_in item_hash (ok facts) = ok (state_for facts item_hash)

    unfoldable pub item_state : ℕ → Result WishlistError ItemState
    unfolding state_for
    item_state item_hash = state_in item_hash (items (item_hash ∷ []))

    module _ {ℓ} {S : Type ℓ} (repo : Repository S) where
      unfoldable pub list : S → Membership → Result WishlistError (List Entry)
      unfolding complete
      list s m = repo.list s m.membership_id >>= listed m

      unfoldable pub add : S → Membership → AddCommand → Result WishlistError Entry × S
      unfolding add_entry availability
      add s m cmd =
          let (saved, s') = add_entry items repo s m.membership_id cmd in
          (saved >>= (λ p. ok (entry_of (p.0) (known_item (p.1)) (availability m))), s')

      -- `storedEntry`
      unfoldable pub stored_entry : S → String → ℤ → Result WishlistError StoredEntry
      unfolding stored_in
      stored_entry s membership_id id = repo.list s membership_id >>= stored_in id

      -- the row and its item, which are read before the write
      abbrev pub resolved : S → String → ℤ → Result WishlistError ItemState
      resolved s membership_id id =
          stored_entry s membership_id id >>= (λ existing. item_state existing.item_hash)

      unfoldable pub update : S → Membership → ℤ → UpdateCommand → Result WishlistError Entry × S
      unfolding stored_entry item_state update_entry availability
      update s m id patch = elim (resolved s m.membership_id id) [
        | err e ↦ (err e, s)
        | ok state ↦
            let (saved, s') = update_entry items repo s m.membership_id id patch in
            (saved >>= (λ stored. ok (entry_of stored state (availability m))), s')
      ]
