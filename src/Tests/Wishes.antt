-- ===== src/Tests/Wishes.antt =====
-- The theorems on the wish list at concrete saved items.
use guardian_tracker.Prelude.{
  ℕ, ◌≡◌, refl, true, false, none, some, List, [], ◌∷◌, map, String, pos, ℤ, Assoc, lookup, nat_eq,
  int_eq, string_eq,
}
use guardian_tracker.Prelude.Results.{ok, err}
use guardian_tracker.Wishlist.{AcquisitionFacts, AddCommand, UpdateCommand, ItemLookup}
use guardian_tracker.Wishlist.Store.{
  WishlistItem, Table, wishlist_repository, repo_add, wishlist_user, priority_rank,
}
use guardian_tracker.Wishlist.Store.Wishes.{wish, repo_add-wish}
use guardian_tracker.Wishlist.Complete.{Membership, Entry, list, add, update}
use guardian_tracker.Wishlist.Complete.Rows.{saved_part, list-saved_part}
use guardian_tracker.Wishlist.Complete.Errors.{Spares, errors-Spares}

abbrev facts : ℕ → AcquisitionFacts
facts h = record {
  item_hash = h;
  name = "gjallarhorn";
  description = "";
  icon = "";
  item_type = "rocket launcher";
  tier_type = pos 6;
  rarity = "Exotic";
  is_exotic = true;
  category = "exotics";
  collectible_hashes = [];
  acquisition_sources = [];
  farm_only = false;
}

-- The catalogue knows item 7 only.
abbrev items : ItemLookup
items hs = ok ((7, facts 7) ∷ [])

abbrev live : ℤ → String → String → Assoc ℕ String
live t m token = (7, "xur") ∷ []

abbrev item : ℤ → ℕ → ℕ → WishlistItem
item id h rank = record {
  id = id;
  user_id = pos 1;
  item_hash = h;
  priority = rank;
  notes = "mine";
  created_at = 5;
}

abbrev table : Table
table = record {
  online = true;
  users = ("ann", pos 1) ∷ [];
  rows = item (pos 1) 7 1 ∷ item (pos 2) 8 3 ∷ [];
  next_id = 3;
  now = 9;
}

abbrev ann : Membership
ann = record { membership_type = pos 3; membership_id = "ann" }

abbrev entries : List Entry
entries = elim (list live none items wishlist_repository table ann) [ ok es ↦ es | err e ↦ [] ]

lists : list live none items wishlist_repository table ann ≡ ok entries
unfolding list wishlist_repository
lists = refl

list-saved_part_example : wishlist_repository.list table "ann" ≡ ok (map saved_part entries)
list-saved_part_example =
    list-saved_part live none items wishlist_repository table ann entries lists

-- item 9 is not known
abbrev unknown : AddCommand
unknown = record { item_hash = 9; priority = "HIGH"; notes = "" }

abbrev patch : UpdateCommand
patch = record { priority = some "huge"; notes = none }

errors-Spares_example :
    Spares table (add live none items wishlist_repository table ann unknown)
    × Spares table (update live none items wishlist_repository table ann (pos 1) patch)
errors-Spares_example = errors-Spares items live none table ann (pos 1) unknown patch

abbrev third : AddCommand
third = record { item_hash = 5; priority = "URGENT"; notes = "soon" }

repo_add-wish_example : wish (pos 1) 5 ((repo_add table "ann" third).1).rows ≡ some (3, "soon")
unfolding wish wishlist_user lookup priority_rank
repo_add-wish_example = repo_add-wish table "ann" (pos 1) (pos 1) 5 third refl refl refl
