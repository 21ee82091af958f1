-- ===== src/Tests/Forest.antt =====
-- The theorems on the collections forest at a small forest.
use mathlib.Core.List.Permᴰ
use guardian_tracker.Prelude.{
  length, ℕ, ◌≡◌, ◌≤◌, refl, Bool, false, true, Option, none, some, List, [], ◌∷◌, String, Assoc,
  lookup, insert,
}
use guardian_tracker.Collections.{
  StructNode, node_name, struct_node, no_nodes, more_nodes, leaf_count, total_of, collected_of,
  overlay_node, children_of, dominant_of, named_nodes, roots_of,
}
use guardian_tracker.Collections.Counts.{items_below, count_in, unlisted, overlay_node-counts}
use guardian_tracker.Collections.Contains.{
  PresentationNodeDef, Walk, is_visiting, enter, leave, holds_collectible, any_child_contains,
  compute_contains,
}
use guardian_tracker.Collections.Building.Placed.{IsTidy}
use guardian_tracker.Collections.Marking.{build_tree_structure}
use guardian_tracker.Prelude.Every.{Every}
use guardian_tracker.Collections.Marking.Forest.{build_tree_structure_lem}
use guardian_tracker.Collections.Roots.{IsDominant, AreNamed, AreRoots, name_below, roots_of_lem}
use guardian_tracker.Prelude.Sort.{IsOrder, sort_stable, sort_stable-perm, sort_stable-IsSorted}
use guardian_tracker.Prelude.TextOrder.{text_below-IsOrder}

abbrev print : ℕ → String
print n = "7"

abbrev unsorted : List StructNode → List StructNode
unsorted ns = ns

abbrev weapons : StructNode
weapons = struct_node 2 "Weapons" "" no_nodes (
    record { item_hash = "10"; item_hash_num = 10 }
    ∷ record { item_hash = "11"; item_hash_num = 11 }
    ∷ [])

abbrev nameless : StructNode
nameless = struct_node 3 "" "" no_nodes (record { item_hash = "10"; item_hash_num = 10 } ∷ [])

abbrev items : StructNode
items = struct_node 1 "Items" "" (more_nodes weapons (more_nodes nameless no_nodes)) []

overlay_node-counts_example :
    (total_of (overlay_node print (11 ∷ []) true items) ≡ length (items_below items))
    × (collected_of (overlay_node print (11 ∷ []) true items)
        ≡ count_in (11 ∷ []) (items_below items))
    × (collected_of (overlay_node print (11 ∷ []) true items)
        ≤ total_of (overlay_node print (11 ∷ []) true items))
    × (unlisted (overlay_node print (11 ∷ []) true items)
        ≡ overlay_node print (11 ∷ []) false items)
overlay_node-counts_example = overlay_node-counts print (11 ∷ []) true items

name_below-IsOrder : IsOrder name_below
name_below-IsOrder = record {
  asym = λ a b h. text_below-IsOrder.asym (node_name a) (node_name b) h;
  trans = λ a b c h k. text_below-IsOrder.trans (node_name a) (node_name b) (node_name c) h k;
  cotrans = λ a b c h k. text_below-IsOrder.cotrans (node_name a) (node_name b) (node_name c) h k;
}

abbrev by_name : List StructNode → List StructNode
by_name ns = sort_stable name_below ns

roots_of_lem_example :
    (d : StructNode) × IsDominant d (nameless ∷ items ∷ [])
    × (named : List StructNode) × AreNamed (children_of d) named
    × AreRoots d named (roots_of by_name (nameless ∷ items ∷ []))
roots_of_lem_example =
    roots_of_lem by_name (λ ns. sort_stable-perm name_below ns)
      (λ ns. sort_stable-IsSorted name_below-IsOrder ns) nameless (items ∷ [])

leaf_count_items : leaf_count items ≡ 3
unfolding leaf_count
leaf_count_items = refl

roots_of_items : roots_of unsorted (nameless ∷ items ∷ []) ≡ weapons ∷ []
unfolding roots_of dominant_of named_nodes leaf_count
roots_of_items = refl

-- The nodes 1 and 2 are children of each other; the third, a child of the first, holds an item.
abbrev knot : Assoc ℕ PresentationNodeDef
knot =
    (1, record { name = "a"; icon = ""; collectibles = []; presentation_nodes = 2 ∷ 3 ∷ [] })
    ∷ (2, record { name = "b"; icon = ""; collectibles = []; presentation_nodes = 1 ∷ [] })
    ∷ (3, record { name = "c"; icon = ""; collectibles = 9 ∷ []; presentation_nodes = [] })
    ∷ []

abbrev catalogue : Assoc ℕ ℕ
catalogue = (9, 90) ∷ []

abbrev start : Walk
start = record { contains = []; visiting = [] }

abbrev answer : Option (Bool × Walk) → Option Bool
answer none = none
answer (some (res, w)) = some res

abbrev after_first : Option (Bool × Walk) → Option Bool
after_first none = none
after_first (some (res, w)) = answer (compute_contains knot catalogue 4 2 w)

-- The second node contains the item, and is found to when the walk starts at it, but not after the first.
second_is_found : answer (compute_contains knot catalogue 4 2 start) ≡ some true
unfolding compute_contains any_child_contains holds_collectible is_visiting enter leave lookup
    insert
second_is_found = refl

second_is_forgotten : after_first (compute_contains knot catalogue 4 1 start) ≡ some false
unfolding compute_contains any_child_contains holds_collectible is_visiting enter leave lookup
    insert
second_is_forgotten = refl

abbrev as_it_is : List ℕ → List ℕ
as_it_is hs = hs

build_tree_structure_lem_example :
    (roots : List StructNode) × (build_tree_structure print knot catalogue as_it_is unsorted
      ≡ some roots)
    × Every (IsTidy knot catalogue) roots
build_tree_structure_lem_example =
    build_tree_structure_lem print knot catalogue as_it_is unsorted (λ hs. Permᴰ.refl hs)
      (λ ns. Permᴰ.refl ns)
