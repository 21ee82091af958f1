-- ===== src/Collections/Marking.antt =====
-- services/collections/tree.go: `markReferenced` of `buildTreeStructure`, and the candidates for a root.
-- As in `build`, a call is given a path that it leaves as it was. `items` is the map itemByCollectible of
-- the catalogue.
pub mod Candidates
pub mod Forest
use guardian_tracker.Prelude.{
  ℕ, zero, suc, Bool, true, false, Option, none, some, List, [], ◌∷◌, String, nat_eq, ◌&&◌, not,
  Assoc, lookup, has, length,
}
use guardian_tracker.Collections.{StructNode, roots_of}
use guardian_tracker.Collections.Contains.{PresentationNodeDef, Walk, compute_contains}
use guardian_tracker.Collections.Building.{contains_any, build}

-- the walk, with the keys of the map `referenced`
pub record Marks : Type 0 where
  pub walk : Walk
  pub referenced : List ℕ

module _ (print : ℕ → String) (nodes : Assoc ℕ PresentationNodeDef) (items : Assoc ℕ ℕ) where
  abbrev pub with_walk : Walk → Marks → Marks
  with_walk w s = record s { walk = w }

  abbrev pub and_then : Option Marks → (Marks → Option Marks) → Option Marks
  and_then none rest = none
  and_then (some s) rest = rest s

  -- one child, after the answer whether it contains a collectible
  unfoldable pub mark_child :
      (ℕ → Marks → Option Marks) → List ℕ → ℕ → Marks → Option (Bool × Walk) → Option Marks
  unfolding has
  mark_child go path c s none = none
  mark_child go path c s (some (false, w)) = some (with_walk w s)
  mark_child go path c s (some (true, w)) = elim (has c path) [
    | true ↦ some (with_walk w s)
    | false ↦ go c (record { walk = w; referenced = c ∷ s.referenced })
  ]

  unfoldable pub mark_children : (ℕ → Marks → Option Marks) → List ℕ → List ℕ → Marks → Option Marks
  unfolding mark_child compute_contains
  mark_children go path [] s = some s
  mark_children go path (c ∷ cs) s =
      and_then (mark_child go path c s (contains_any print nodes items c s.walk))
        (mark_children go path cs)

  -- the body, after the answer whether the node contains a collectible
  unfoldable pub mark_node :
      (ℕ → Marks → Option Marks) → List ℕ → ℕ → Marks → Option (Bool × Walk) → Option Marks
  unfolding has lookup mark_children
  mark_node go path h s none = none
  mark_node go path h s (some (false, w)) = some (with_walk w s)
  mark_node go path h s (some (true, w)) = elim (has h path) [
    | true ↦ some (with_walk w s)
    | false ↦ elim (lookup h nodes) [
      | none ↦ some (with_walk w s)
      | some n ↦ mark_children go (h ∷ path) n.presentation_nodes (with_walk w s)
    ]
  ]

  unfoldable pub mark_referenced : ℕ → ℕ → List ℕ → Marks → Option Marks
  unfolding mark_node compute_contains
  mark_referenced zero h path s = none
  mark_referenced (suc fuel) h path s =
      mark_node (λ c t. mark_referenced fuel c (h ∷ path) t) path h s
        (contains_any print nodes items h s.walk)

  -- the loop over the nodes that marks from each of them
  unfoldable pub mark_all : Assoc ℕ PresentationNodeDef → Marks → Option Marks
  unfolding mark_referenced
  mark_all [] s = some s
  mark_all ((h, n) ∷ m) s = and_then (mark_referenced (suc (length nodes)) h [] s) (mark_all m)

  abbrev pub with_candidate : Bool → ℕ → Option (List ℕ × Walk) → Option (List ℕ × Walk)
  with_candidate is_root h none = none
  with_candidate true h (some (hs, w)) = some (h ∷ hs, w)
  with_candidate false h (some (hs, w)) = some (hs, w)

  abbrev pub is_root_of : List ℕ → ℕ → Bool → Bool
  is_root_of referenced h res = res && not (has h referenced)

  abbrev pub candidate_from :
      List ℕ → ℕ → Option (Bool × Walk) → (Walk → Option (List ℕ × Walk)) → Option (List ℕ × Walk)
  candidate_from referenced h none rest = none
  candidate_from referenced h (some (res, w)) rest =
      with_candidate (is_root_of referenced h res) h (rest w)

  -- the loop over the nodes that collects those that contain a collectible and are not referenced; the
  -- one after it, for when there are none, is this with nothing referenced
  unfoldable pub root_hashes : Assoc ℕ PresentationNodeDef → List ℕ → Walk → Option (List ℕ × Walk)
  unfolding has compute_contains
  root_hashes [] referenced w = some ([], w)
  root_hashes ((h, n) ∷ m) referenced w =
      candidate_from referenced h (contains_any print nodes items h w) (root_hashes m referenced)

  abbrev pub or_all : Option (List ℕ × Walk) → Option (List ℕ × Walk)
  or_all none = none
  or_all (some ([], w)) = root_hashes nodes [] w
  or_all (some (h ∷ hs, w)) = some (h ∷ hs, w)

  abbrev pub with_candidates : StructNode → Option (List StructNode) → Option (List StructNode)
  with_candidates built none = none
  with_candidates built (some rest) = some (built ∷ rest)

  abbrev pub then_candidates :
      Option (StructNode × Walk) → (Walk → Option (List StructNode)) → Option (List StructNode)
  then_candidates none rest = none
  then_candidates (some (built, w)) rest = with_candidates built (rest w)

  unfoldable pub build_all : List ℕ → Walk → Option (List StructNode)
  unfolding build
  build_all [] w = some []
  build_all (h ∷ hs) w =
      then_candidates (build print nodes items (suc (length nodes)) h [] w) (build_all hs)

  abbrev pub hashes_after : Option Marks → Option (List ℕ × Walk)
  hashes_after none = none
  hashes_after (some s) = or_all (root_hashes nodes s.referenced s.walk)

  abbrev pub nothing_marked : Marks
  nothing_marked = record { walk = record { contains = []; visiting = [] }; referenced = [] }

  module _ (sort_hashes : List ℕ → List ℕ) (sort_by_name : List StructNode → List StructNode) where
    abbrev pub built_from : Option (List ℕ × Walk) → Option (List StructNode)
    built_from none = none
    built_from (some (hs, w)) = build_all (sort_hashes hs) w

    abbrev pub rooted : Option (List StructNode) → Option (List StructNode)
    rooted none = none
    rooted (some candidates) = some (roots_of sort_by_name candidates)

    unfoldable pub build_tree_structure : Option (List StructNode)
    unfolding mark_all root_hashes build_all roots_of
    build_tree_structure = rooted (built_from (hashes_after (mark_all nodes nothing_marked)))
