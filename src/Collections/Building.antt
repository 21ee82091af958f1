-- ===== src/Collections/Building.antt =====
-- services/collections/tree.go: `build` of `buildTreeStructure`, which makes a node of the forest with
-- all that is below it, on fuel. Each call is given a `path` that does not hold its node, so that to
-- delete the node again at the end leaves the path as it was given. No result stands for fuel that ran
-- out, and for the definition of the node missing, where the code would panic.
pub mod Paths
pub mod Placed
use guardian_tracker.Prelude.{
  ℕ, zero, suc, Bool, true, false, Option, none, some, List, [], ◌∷◌, String, if◌then◌else◌, ◌==◌,
  nat_eq, string_eq, Assoc, lookup, has, length,
}
use guardian_tracker.Collections.{
  LeafRef, StructNode, StructNodes, struct_node, no_nodes, more_nodes,
}
use guardian_tracker.Collections.Contains.{PresentationNodeDef, Walk, compute_contains}

-- whether a child is shown: it is in the map, and has a name
unfoldable pub is_shown : Option PresentationNodeDef → Bool
is_shown none = false
is_shown (some n) = if n.name == "" then false else true

module _ (print : ℕ → String) (items : Assoc ℕ ℕ) where
  abbrev pub leaf_of : ℕ → LeafRef
  leaf_of item = record { item_hash = print item; item_hash_num = item }

  -- the loop over the collectibles, with the items that it has seen
  unfoldable pub build_leaves : List ℕ → List ℕ → List LeafRef
  unfolding lookup has
  build_leaves seen [] = []
  build_leaves seen (c ∷ cs) = elim (lookup c items) [
    | none ↦ build_leaves seen cs
    | some item ↦ elim (has item seen) [
      | true ↦ build_leaves seen cs
      | false ↦ leaf_of item ∷ build_leaves (item ∷ seen) cs
    ]
  ]

module _ (print : ℕ → String) (nodes : Assoc ℕ PresentationNodeDef) (items : Assoc ℕ ℕ) where
  abbrev pub contains_any : ℕ → Walk → Option (Bool × Walk)
  contains_any h w = compute_contains nodes items (suc (length nodes)) h w

  abbrev pub with_sibling : StructNode → Option (StructNodes × Walk) → Option (StructNodes × Walk)
  with_sibling n none = none
  with_sibling n (some (ns, w)) = some (more_nodes n ns, w)

  abbrev pub then_siblings :
      Option (StructNode × Walk)
      → (Walk → Option (StructNodes × Walk))
      → Option (StructNodes × Walk)
  then_siblings none rest = none
  then_siblings (some (n, w)) rest = with_sibling n (rest w)

  -- one child, after the answer whether it contains a collectible
  unfoldable pub build_child :
      (ℕ → Walk → Option (StructNode × Walk))
      → List ℕ
      → ℕ
      → Option (Bool × Walk)
      → (Walk → Option (StructNodes × Walk))
      → Option (StructNodes × Walk)
  unfolding has lookup is_shown
  build_child go path c none rest = none
  build_child go path c (some (false, w)) rest = rest w
  build_child go path c (some (true, w)) rest = elim (has c path) [
    | true ↦ rest w
    | false ↦ elim (is_shown (lookup c nodes)) [
      | false ↦ rest w
      | true ↦ then_siblings (go c w) rest
    ]
  ]

  -- the loop over the children
  unfoldable pub build_children :
      (ℕ → Walk → Option (StructNode × Walk)) → List ℕ → List ℕ → Walk → Option (StructNodes × Walk)
  unfolding compute_contains build_child
  build_children go path [] w = some (no_nodes, w)
  build_children go path (c ∷ cs) w =
      build_child go path c (contains_any c w) (build_children go path cs)

  abbrev pub with_leaves :
      ℕ → PresentationNodeDef → Option (StructNodes × Walk) → Option (StructNode × Walk)
  with_leaves h n none = none
  with_leaves h n (some (children, w)) =
      some (struct_node h n.name n.icon children (build_leaves print items [] n.collectibles), w)

  unfoldable pub build : ℕ → ℕ → List ℕ → Walk → Option (StructNode × Walk)
  unfolding lookup build_leaves build_children
  build zero h path w = none
  build (suc fuel) h path w = elim (lookup h nodes) [
    | none ↦ none
    | some n ↦
        with_leaves h n
          (build_children (λ c v. build fuel c (h ∷ path) v) (h ∷ path) n.presentation_nodes w)
  ]
