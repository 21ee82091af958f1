-- ===== src/Wishlist.antt =====
-- services/wishlist/wishlist.go and entries.go: the commands, the port to the store and the core that
-- validates. The store is a record of operations on a state; `ItemLookup` is the answer of the item
-- catalogue, a map of those hashes that it knows.
pub mod Store
pub mod Complete
use Prim.Native.String.{count}
use guardian_tracker.Prelude.{
  ℕ, ◌-◌, Bool, true, false, not, ◌||◌, Option, none, some, List, [], ◌∷◌, String, map,
  if◌then◌else◌, ◌==◌, nat_eq, int_eq, string_eq, ltb, ℤ, pos, negsuc, length, Assoc, lookup,
  dedupe_onto,
}
use guardian_tracker.Prelude.Results.{Result, ok, err, ◌>>=◌}
use guardian_tracker.Sources.{AcquisitionSource}

-- services/items/facts.go: what the catalogue says of an item.
pub record AcquisitionFacts : Type 0 where
  pub item_hash : ℕ
  pub name : String
  pub description : String
  pub icon : String
  pub item_type : String
  pub tier_type : ℤ
  pub rarity : String
  pub is_exotic : Bool
  pub category : String
  pub collectible_hashes : List ℕ
  pub acquisition_sources : List AcquisitionSource
  pub farm_only : Bool

abbrev pub priority_low : String
priority_low = "LOW"

abbrev pub priority_medium : String
priority_medium = "MEDIUM"

abbrev pub priority_high : String
priority_high = "HIGH"

abbrev pub priority_urgent : String
priority_urgent = "URGENT"

-- `Valid`
unfoldable pub valid : String → Bool
valid p = p == priority_low || p == priority_medium || p == priority_high || p == priority_urgent

abbrev pub max_note_runes : ℕ
max_note_runes = 500

abbrev pub max_bulk_entries : ℕ
max_bulk_entries = 100

pub record StoredEntry : Type 0 where
  pub id : ℤ
  pub item_hash : ℕ
  pub priority : String
  pub notes : String
  pub created_at : ℕ

pub record AddCommand : Type 0 where
  pub item_hash : ℕ
  pub priority : String
  pub notes : String

pub record UpdateCommand : Type 0 where
  pub priority : Option String
  pub notes : Option String

pub record BulkResult : Type 0 where
  pub updated : ℕ
  pub skipped : ℕ

pub data WishlistError : Type 0 where
  unavailable not_found duplicate invalid_priority notes_too_long no_entries : WishlistError
  too_many_entries unknown_item items_unavailable : WishlistError
  other : String → WishlistError

abbrev pub ItemLookup : Type 0
ItemLookup = List ℕ → Result String (Assoc ℕ AcquisitionFacts)

-- The port to persistence, over the states of a store.
pub record Repository {ℓ} (S : Type ℓ) : Type ℓ where
  pub list : S → String → Result WishlistError (List StoredEntry)
  pub add : S → String → AddCommand → Result WishlistError StoredEntry × S
  pub update : S → String → ℤ → UpdateCommand → Result WishlistError StoredEntry × S
  pub remove : S → String → ℤ → Option WishlistError × S
  pub remove_many : S → String → List ℤ → Result WishlistError ℤ × S
  pub set_priority_many : S → String → List ℤ → String → Result WishlistError ℤ × S

unfoldable pub validate_notes : String → Option WishlistError
validate_notes notes = if ltb max_note_runes (count notes) then some notes_too_long else none

abbrev pub checked_ids : List ℤ → Result WishlistError (List ℤ)
checked_ids [] = err no_entries
checked_ids (id ∷ ids) =
    if ltb max_bulk_entries (length (id ∷ ids)) then err too_many_entries else ok (id ∷ ids)

unfoldable pub bulk_ids : List ℤ → Result WishlistError (List ℤ)
unfolding dedupe_onto
bulk_ids ids = checked_ids (dedupe_onto [] ids)

-- A count is never negative: a negative answer of the store counts as 0.
abbrev pub at_least_0 : ℤ → ℕ
at_least_0 (pos n) = n
at_least_0 (negsuc n) = 0

unfoldable pub bulk_result : List ℤ → ℤ → BulkResult
bulk_result requested affected = record {
  updated = at_least_0 affected;
  skipped = length requested - at_least_0 affected;
}

unfoldable pub is_validation_error : WishlistError → Bool
is_validation_error invalid_priority = true
is_validation_error notes_too_long = true
is_validation_error no_entries = true
is_validation_error too_many_entries = true
is_validation_error unknown_item = true
is_validation_error _ = false

abbrev pub found_item : Option AcquisitionFacts → Result WishlistError AcquisitionFacts
found_item none = err unknown_item
found_item (some facts) = ok facts

abbrev pub known_in :
    ℕ → Result String (Assoc ℕ AcquisitionFacts) → Result WishlistError AcquisitionFacts
known_in item_hash (err e) = err items_unavailable
known_in item_hash (ok facts) = found_item (lookup item_hash facts)

unfoldable pub require_known_item : ItemLookup → ℕ → Result WishlistError AcquisitionFacts
unfolding lookup
require_known_item items item_hash = known_in item_hash (items (item_hash ∷ []))

abbrev pub defaulted : AddCommand → AddCommand
defaulted cmd = if cmd.priority == "" then record cmd { priority = priority_medium } else cmd

abbrev pub with_facts {ℓ} :
    {S : Type ℓ}
    → AcquisitionFacts
    → Result WishlistError StoredEntry × S
    → Result WishlistError (StoredEntry × AcquisitionFacts) × S
with_facts facts (stored, s) = (stored >>= (λ entry. ok (entry, facts)), s)

abbrev pub bulk_outcome {ℓ} :
    {S : Type ℓ} → List ℤ → Result WishlistError ℤ × S → Result WishlistError BulkResult × S
bulk_outcome unique (affected, s) = (affected >>= (λ n. ok (bulk_result unique n)), s)

abbrev pub is_invalid : Option String → Bool
is_invalid none = false
is_invalid (some priority) = not (valid priority)

abbrev pub notes_checked : Option String → Option WishlistError
notes_checked none = none
notes_checked (some notes) = validate_notes notes

-- The operations of `Entries` that do more than pass a call on.
module _ {ℓ} {S : Type ℓ} (items : ItemLookup) (repo : Repository S) where
  unfoldable pub list_item_hashes : S → String → Result WishlistError (List ℕ)
  list_item_hashes s membership_id =
      repo.list s membership_id >>= (λ stored. ok (map (λ e. StoredEntry.item_hash e) stored))

  abbrev pub add_checked :
      S → String → AddCommand → Result WishlistError (StoredEntry × AcquisitionFacts) × S
  add_checked s membership_id cmd = elim (validate_notes cmd.notes) [
    | some e ↦ (err e, s)
    | none ↦ elim (require_known_item items cmd.item_hash) [
      | err e ↦ (err e, s)
      | ok facts ↦ with_facts facts (repo.add s membership_id cmd)
    ]
  ]

  unfoldable pub add_entry :
      S → String → AddCommand → Result WishlistError (StoredEntry × AcquisitionFacts) × S
  unfolding valid validate_notes require_known_item
  add_entry s membership_id command =
      let cmd = defaulted command in
      if not (valid cmd.priority)
      then (err invalid_priority, s)
      else add_checked s membership_id cmd

  unfoldable pub update_entry :
      S → String → ℤ → UpdateCommand → Result WishlistError StoredEntry × S
  unfolding valid validate_notes
  update_entry s membership_id id patch =
      if is_invalid patch.priority
      then (err invalid_priority, s)
      else elim (notes_checked patch.notes) [
        | some e ↦ (err e, s)
        | none ↦ repo.update s membership_id id patch
      ]

  unfoldable pub remove_many : S → String → List ℤ → Result WishlistError BulkResult × S
  unfolding bulk_ids bulk_result
  remove_many s membership_id ids = elim (bulk_ids ids) [
    | err e ↦ (err e, s)
    | ok unique ↦ bulk_outcome unique (repo.remove_many s membership_id unique)
  ]

  unfoldable pub set_priority_many :
      S → String → List ℤ → String → Result WishlistError BulkResult × S
  unfolding bulk_ids bulk_result valid
  set_priority_many s membership_id ids priority =
      if not (valid priority) then (err invalid_priority, s) else elim (bulk_ids ids) [
        | err e ↦ (err e, s)
        | ok unique ↦ bulk_outcome unique (repo.set_priority_many s membership_id unique priority)
      ]
