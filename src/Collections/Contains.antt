-- ===== src/Collections/Contains.antt =====
-- services/collections/tree.go: `computeContains` of `buildTreeStructure`, which finds the presentation
-- nodes that hold a collectible, with its memo and its guard against cycles as a state. The recursion is
-- on fuel; a call with none left has no result.
pub mod Visiting
pub mod Termination
use guardian_tracker.Prelude.{
  ℕ, zero, suc, Bool, true, false, ◌||◌, Option, none, some, List, [], ◌∷◌, String, if◌then◌else◌,
  nat_eq, Assoc, is_some, lookup, insert,
}

-- what the code reads of a definition of the manifest
pub record PresentationNodeDef : Type 0 where
  pub name : String
  pub icon : String
  pub collectibles : List ℕ
  pub presentation_nodes : List ℕ

-- the maps `contains` and `visiting`
pub record Walk : Type 0 where
  pub contains : Assoc ℕ Bool
  pub visiting : Assoc ℕ Bool

abbrev pub or_false : Option Bool → Bool
or_false none = false
or_false (some b) = b

unfoldable pub is_visiting : ℕ → Walk → Bool
unfolding lookup
is_visiting h w = or_false (lookup h w.visiting)

unfoldable pub enter : ℕ → Walk → Walk
unfolding insert
enter h w = record w { visiting = insert h true w.visiting }

unfoldable pub leave : ℕ → Bool → Walk → Walk
unfolding insert
leave h res w = record { contains = insert h res w.contains; visiting = insert h false w.visiting }

unfoldable pub leaf_missing : ℕ → Walk → Walk
unfolding insert
leaf_missing h w = record w { contains = insert h false w.contains }

-- the loop over the collectibles, which ends at the first in the catalogue
unfoldable pub holds_collectible : Assoc ℕ ℕ → List ℕ → Bool
unfolding lookup
holds_collectible items [] = false
holds_collectible items (c ∷ cs) = is_some (lookup c items) || holds_collectible items cs

abbrev pub or_rest : Option (Bool × Walk) → (Walk → Option (Bool × Walk)) → Option (Bool × Walk)
or_rest none rest = none
or_rest (some (true, w)) rest = some (true, w)
or_rest (some (false, w)) rest = rest w

-- the loop over the children, which ends at the first that contains a collectible
unfoldable pub any_child_contains :
    (ℕ → Walk → Option (Bool × Walk)) → List ℕ → Walk → Option (Bool × Walk)
any_child_contains go [] w = some (false, w)
any_child_contains go (c ∷ cs) w = or_rest (go c w) (any_child_contains go cs)

abbrev pub left_with : ℕ → Option (Bool × Walk) → Option (Bool × Walk)
left_with h none = none
left_with h (some (res, w)) = some (res, leave h res w)

module _ (nodes : Assoc ℕ PresentationNodeDef) (items : Assoc ℕ ℕ) where
  unfoldable pub compute_contains : ℕ → ℕ → Walk → Option (Bool × Walk)
  unfolding lookup is_visiting enter leave leaf_missing holds_collectible any_child_contains
  compute_contains zero h w = none
  compute_contains (suc fuel) h w = elim (lookup h w.contains) [
    | some v ↦ some (v, w)
    | none ↦ elim (is_visiting h w) [
      | true ↦ some (false, w)
      | false ↦ elim (lookup h nodes) [
        | none ↦ some (false, leaf_missing h w)
        | some n ↦ left_with h (elim (holds_collectible items n.collectibles) [
          | true ↦ some (true, enter h w)
          | false ↦ any_child_contains (compute_contains fuel) n.presentation_nodes (enter h w)
        ])
      ]
    ]
  ]
