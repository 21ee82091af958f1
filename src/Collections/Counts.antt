-- ===== src/Collections/Counts.antt =====
-- services/collections/tree.go: what the counts of a user on the forest are.
use guardian_tracker.Prelude.{
  ℕ, ◌+◌, ◌≤◌, ◌≡◌, refl, sym, ◌∙◌, Bool, true, false, List, [], ◌∷◌, String, nat_eq, length,
  length-append, length-map, arith, ◌++◌, map, has, if◌then◌else◌,
}
use guardian_tracker.Collections.{
  StructNode, StructNodes, struct_node, no_nodes, more_nodes, CollectionNode, CollectionNodes,
  collection_node, no_children, more_children, LeafRef, collected_of, total_of, sum_collected,
  sum_total, owned_leaves, overlay_node, overlay_nodes,
}

-- The items of all leaves that stand below a node, at whatever depth.
abbrev pub item_hashes : List LeafRef → List ℕ
item_hashes leaves = map (λ l. LeafRef.item_hash_num l) leaves

unfoldable mutual
  pub items_below : StructNode → List ℕ
  items_below (struct_node hash name icon children leaves) =
      item_hashes leaves ++ items_below_all children

  pub items_below_all : StructNodes → List ℕ
  items_below_all no_nodes = []
  items_below_all (more_nodes n ns) = items_below n ++ items_below_all ns

-- How many elements of the second list stand in the first.
abbrev pub count_in : List ℕ → List ℕ → ℕ
count_in owned [] = 0
count_in owned (h ∷ hs) = (if has h owned then 1 else 0) + count_in owned hs

count_in-append :
    (owned xs ys : List ℕ) → count_in owned (xs ++ ys) ≡ count_in owned xs + count_in owned ys
count_in-append owned [] ys = omega arith
count_in-append owned (x ∷ xs) ys = omega (arith, count_in-append owned xs ys)

count_in-le : (owned xs : List ℕ) → count_in owned xs ≤ length xs
count_in-le owned [] = omega arith
count_in-le owned (x ∷ xs) = ground (arith, count_in-le owned xs)

owned_leaves-count_in :
    (owned : List ℕ) (ls : List LeafRef) → owned_leaves owned ls ≡ count_in owned (item_hashes ls)
unfolding owned_leaves
owned_leaves-count_in owned [] = refl
owned_leaves-count_in owned (l ∷ ls) = ground (arith, owned_leaves-count_in owned ls)

-- A counted tree without the names of its items.
unfoldable mutual
  pub unlisted : CollectionNode → CollectionNode
  unlisted (collection_node hash name icon collected total children items) =
      collection_node hash name icon collected total (unlisted_all children) []

  pub unlisted_all : CollectionNodes → CollectionNodes
  unlisted_all no_children = no_children
  unlisted_all (more_children n ns) = more_children (unlisted n) (unlisted_all ns)

module _ (print : ℕ → String) (owned : List ℕ) (with_items : Bool) where
  mutual
    unfolding overlay_node sum_total sum_collected items_below

    node_counts :
        (n : StructNode)
        → let counted = overlay_node print owned with_items n in
          (total_of counted ≡ length (items_below n))
          × (collected_of counted ≡ count_in owned (items_below n))
    node_counts (struct_node hash name icon children leaves) =
        let (total, collected) = nodes_counts children in
        let below = items_below_all children in
        (
          omega (
            arith,
            total,
            length-append (item_hashes leaves) below,
            length-map leaves (λ l. LeafRef.item_hash_num l),
          ),
          omega (
            arith,
            collected,
            count_in-append owned (item_hashes leaves) below,
            owned_leaves-count_in owned leaves,
          ),
        )

    nodes_counts :
        (ns : StructNodes)
        → let counted = overlay_nodes print owned with_items ns in
          (sum_total counted ≡ length (items_below_all ns))
          × (sum_collected counted ≡ count_in owned (items_below_all ns))
    nodes_counts no_nodes = (refl, refl)
    nodes_counts (more_nodes n ns) =
        let (total, collected) = node_counts n in
        let (totals, collecteds) = nodes_counts ns in
        (
          omega (arith, total, totals, length-append (items_below n) (items_below_all ns)),
          omega (
            arith,
            collected,
            collecteds,
            count_in-append owned (items_below n) (items_below_all ns),
          ),
        )

mutual
  unfolding overlay_node unlisted sum_total sum_collected

  node_unlisted :
      (print : ℕ → String) (owned : List ℕ) (n : StructNode)
      → unlisted (overlay_node print owned true n) ≡ overlay_node print owned false n
  node_unlisted print owned (struct_node hash name icon children leaves) =
      let (total, collected) = nodes_counts print owned true children in
      let (total', collected') = nodes_counts print owned false children in
      λ i.
        collection_node (print hash) name icon
          ((collected ∙ sym collected') i + owned_leaves owned leaves)
          ((total ∙ sym total') i + length leaves) (nodes_unlisted print owned children i) []

  nodes_unlisted :
      (print : ℕ → String) (owned : List ℕ) (ns : StructNodes)
      → unlisted_all (overlay_nodes print owned true ns) ≡ overlay_nodes print owned false ns
  nodes_unlisted print owned no_nodes = refl
  nodes_unlisted print owned (more_nodes n ns) =
      λ i. more_children (node_unlisted print owned n i) (nodes_unlisted print owned ns i)

-- A node of the counted tree has as many items as the leaves below its node, at whatever depth, name, and
-- counts as collected those of them that are among the items that the user owns, never more than there
-- are. The tree that is shown without lists of items is the tree with them, less these lists.
pub overlay_node-counts :
    (print : ℕ → String) (owned : List ℕ) (with_items : Bool) (n : StructNode)
    → let counted = overlay_node print owned with_items n in
      (total_of counted ≡ length (items_below n))
      × (collected_of counted ≡ count_in owned (items_below n))
      × (collected_of counted ≤ total_of counted)
      × (unlisted (overlay_node print owned true n) ≡ overlay_node print owned false n)
overlay_node-counts print owned with_items n =
    let (total, collected) = node_counts print owned with_items n in
    (
      total,
      collected,
      omega (arith, total, collected, count_in-le owned (items_below n)),
      node_unlisted print owned n,
    )
