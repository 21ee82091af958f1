-- ===== src/Collections.antt =====
-- services/collections/tree.go: the forest of presentation nodes once it is built, the choice of its
-- root, and the counts of a user on it. A node that holds a list of nodes is two data types. `print`
-- writes a number in base 10. The construction of a node from the manifest is not part of it.
pub mod Counts
pub mod Roots
pub mod Contains
pub mod Building
pub mod Marking
use guardian_tracker.Prelude.{
  ℕ, ◌+◌, Bool, true, false, not, Option, none, some, List, [], ◌∷◌, ◌++◌, String, map,
  if◌then◌else◌, ◌==◌, nat_eq, string_eq, ltb, length, has,
}

pub record LeafRef : Type 0 where
  pub item_hash : String
  pub item_hash_num : ℕ

-- The fields are the hash, the name, the icon, the children and the leaves.
mutual
  pub data StructNode : Type 0 where
    struct_node : ℕ → String → String → StructNodes → List LeafRef → StructNode

  pub data StructNodes : Type 0 where
    no_nodes : StructNodes
    more_nodes : StructNode → StructNodes → StructNodes

-- The fields are the hash, the name, the icon, how many are collected, how many there are, the children
-- and the items.
mutual
  pub data CollectionNode : Type 0 where
    collection_node :
        String → String → String → ℕ → ℕ → CollectionNodes → List String → CollectionNode

  pub data CollectionNodes : Type 0 where
    no_children : CollectionNodes
    more_children : CollectionNode → CollectionNodes → CollectionNodes

unfoldable mutual
  pub leaf_count : StructNode → ℕ
  leaf_count (struct_node hash name icon children leaves) = length leaves + leaf_counts children

  pub leaf_counts : StructNodes → ℕ
  leaf_counts no_nodes = 0
  leaf_counts (more_nodes n ns) = leaf_count n + leaf_counts ns

abbrev pub collected_of : CollectionNode → ℕ
collected_of (collection_node hash name icon collected total below items) = collected

abbrev pub total_of : CollectionNode → ℕ
total_of (collection_node hash name icon collected total below items) = total

-- what the loop over the children adds up
unfoldable pub sum_collected : CollectionNodes → ℕ
sum_collected no_children = 0
sum_collected (more_children n ns) = collected_of n + sum_collected ns

unfoldable pub sum_total : CollectionNodes → ℕ
sum_total no_children = 0
sum_total (more_children n ns) = total_of n + sum_total ns

-- what the loop over the leaves adds
unfoldable pub owned_leaves : List ℕ → List LeafRef → ℕ
unfolding has
owned_leaves owned [] = 0
owned_leaves owned (l ∷ ls) =
    let rest = owned_leaves owned ls in if has l.item_hash_num owned then 1 + rest else rest

abbrev pub listed_items : Bool → List LeafRef → List String
listed_items with_items leaves = if with_items then map (λ l. LeafRef.item_hash l) leaves else []

module _ (print : ℕ → String) (owned : List ℕ) (with_items : Bool) where
  unfoldable mutual
    unfolding sum_collected sum_total owned_leaves

    pub overlay_node : StructNode → CollectionNode
    overlay_node (struct_node hash name icon children leaves) =
        let counted = overlay_nodes children in
        collection_node (print hash) name icon (sum_collected counted + owned_leaves owned leaves)
          (sum_total counted + length leaves) counted (listed_items with_items leaves)

    pub overlay_nodes : StructNodes → CollectionNodes
    overlay_nodes no_nodes = no_children
    overlay_nodes (more_nodes n ns) = more_children (overlay_node n) (overlay_nodes ns)

  unfoldable pub overlay : List StructNode → List CollectionNode
  unfolding overlay_node
  overlay roots = map overlay_node roots

-- the loop over the candidates: the first of those with the most leaves
abbrev pub is_more : StructNode → Option StructNode → Bool
is_more built none = true
is_more built (some dominant) = ltb (leaf_count dominant) (leaf_count built)

unfoldable pub dominant_of : Option StructNode → List StructNode → Option StructNode
unfolding leaf_count
dominant_of best [] = best
dominant_of best (built ∷ rest) = dominant_of (if is_more built best then some built else best) rest

abbrev pub node_name : StructNode → String
node_name (struct_node hash name icon children leaves) = name

abbrev pub children_of : StructNode → StructNodes
children_of (struct_node hash name icon children leaves) = children

unfoldable pub named_nodes : StructNodes → List StructNode
named_nodes no_nodes = []
named_nodes (more_nodes n ns) =
    let rest = named_nodes ns in if node_name n == "" then rest else n ∷ rest

abbrev pub or_itself : StructNode → List StructNode → List StructNode
or_itself dominant [] = dominant ∷ []
or_itself dominant (n ∷ ns) = n ∷ ns

-- the end of `buildTreeStructure`, from the candidates that were built. `sort_by_name` is sort.Slice with
-- the order of the names, which leaves it open how nodes of one name stand.
module _ (sort_by_name : List StructNode → List StructNode) where
  abbrev pub anchored : Option StructNode → List StructNode
  anchored none = []
  anchored (some dominant) = or_itself dominant (sort_by_name (named_nodes (children_of dominant)))

  unfoldable pub roots_of : List StructNode → List StructNode
  unfolding dominant_of named_nodes
  roots_of candidates = anchored (dominant_of none candidates)
