-- ===== src/Collections/Marking/Forest.antt =====
-- That the forest is built, whatever the nodes of the manifest are.
use mathlib.Core.List.{Permᴰ}
use guardian_tracker.Prelude.{
  ℕ, ◌≡◌, refl, subst, some, List, [], ◌∷◌, String, nat_eq, Assoc, arith,
}
use guardian_tracker.Collections.{
  StructNode, StructNodes, no_nodes, more_nodes, children_of, named_nodes, or_itself, dominant_of,
  roots_of,
}
use guardian_tracker.Collections.Roots.{roots_of-anchored}
use guardian_tracker.Collections.Contains.{PresentationNodeDef, is_visiting}
use guardian_tracker.Collections.Building.Placed.{IsTidy, AreTidy}
use guardian_tracker.Collections.Marking.{nothing_marked, build_tree_structure}
use guardian_tracker.Prelude.Every.{Every, Every-perm, Every-middle}
use guardian_tracker.Collections.Marking.Candidates.{
  mark_all-IsMarked, root_hashes-Chosen, or_all-Chosen, build_all-AllBuilt,
}

-- Of the children of a tidy node, those with a name are tidy.
named_nodes-Every :
    (nodes : Assoc ℕ PresentationNodeDef) (items : Assoc ℕ ℕ) (ns : StructNodes)
    → AreTidy nodes items ns
    → Every (IsTidy nodes items) (named_nodes ns)
unfolding named_nodes
named_nodes-Every nodes items no_nodes AreTidy.all_tidy = tt
named_nodes-Every nodes items (more_nodes n ns) (AreTidy.one_more _ _ named reaches neat neats) =
    rw named (neat, named_nodes-Every nodes items ns neats)

or_itself-Every :
    (nodes : Assoc ℕ PresentationNodeDef) (items : Assoc ℕ ℕ) (d : StructNode)
    (ns : List StructNode)
    → IsTidy nodes items d
    → Every (IsTidy nodes items) ns
    → Every (IsTidy nodes items) (or_itself d ns)
or_itself-Every nodes items d [] neat neats = (neat, tt)
or_itself-Every nodes items d (n ∷ ns) neat neats = neats

children_of-AreTidy :
    (nodes : Assoc ℕ PresentationNodeDef) (items : Assoc ℕ ℕ) (d : StructNode)
    → IsTidy nodes items d
    → AreTidy nodes items (children_of d)
children_of-AreTidy nodes items d (IsTidy.tidy h name icon below leaves different neats) = neats

roots_of-Every :
    (nodes : Assoc ℕ PresentationNodeDef) (items : Assoc ℕ ℕ)
    (sort_by_name : List StructNode → List StructNode)
    → ((ns : List StructNode) → Permᴰ (sort_by_name ns) ns)
    → (candidates : List StructNode) → Every (IsTidy nodes items) candidates
    → Every (IsTidy nodes items) (roots_of sort_by_name candidates)
unfolding roots_of dominant_of
roots_of-Every nodes items sort_by_name perm [] neats = tt
roots_of-Every nodes items sort_by_name perm (c ∷ cs) neats =
    let (d, (before, after, eq, fewer, most), placed) = roots_of-anchored sort_by_name perm c cs in
    let neat =
      Every-middle (IsTidy nodes items) before d after
        (subst (Every (IsTidy nodes items)) eq neats) in
    Every-perm (IsTidy nodes items) placed (
      or_itself-Every nodes items d _ neat
        (named_nodes-Every nodes items _ (children_of-AreTidy nodes items d neat)))

-- The forest is built from any map of nodes, also one in which children make cycles or are missing: with
-- as much fuel as there are nodes, and one more, for each search there is a result. Of every root, each
-- node below it has a name and leads to a collectible of the catalogue, and no item stands twice among
-- the leaves of a node; for sorts that rearrange their input.
pub build_tree_structure_lem :
    (print : ℕ → String) (nodes : Assoc ℕ PresentationNodeDef) (items : Assoc ℕ ℕ)
    (sort_hashes : List ℕ → List ℕ) (sort_by_name : List StructNode → List StructNode)
    → ((hs : List ℕ) → Permᴰ (sort_hashes hs) hs)
    → ((ns : List StructNode) → Permᴰ (sort_by_name ns) ns)
    → (roots : List StructNode) × (build_tree_structure print nodes items sort_hashes sort_by_name
        ≡ some roots)
      × Every (IsTidy nodes items) roots
unfolding build_tree_structure is_visiting
build_tree_structure_lem print nodes items sort_hashes sort_by_name hash_perm name_perm =
    let (s, marked, sound, idle) =
      mark_all-IsMarked print nodes items nodes (nothing_marked print nodes items)
        (λ j is. ground arith) (λ j. refl) in
    let (hs, w, chosen, sound', idle', known) =
      or_all-Chosen print nodes items _
        (root_hashes-Chosen print nodes items nodes s.referenced s.walk sound idle) in
    let (cs, built, neats) =
      build_all-AllBuilt print nodes items (sort_hashes hs) w sound' idle'
        (Every-perm _ (hash_perm hs) known) in
    (
      roots_of sort_by_name cs,
      rw (build_tree_structure, marked, chosen, built) refl,
      roots_of-Every nodes items sort_by_name name_perm cs neats,
    )
