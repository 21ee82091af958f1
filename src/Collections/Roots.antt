-- ===== src/Collections/Roots.antt =====
-- services/collections/tree.go: which of the candidates the forest is anchored at.
use mathlib.Core.List.{Permᴰ}
use mathlib.Core.List.Permᴰ
use guardian_tracker.Prelude.{
  ℕ, ◌≤◌, ◌≡◌, refl, ap, Option, some, List, [], ◌∷◌, ◌++◌, ltb, ◌<◌, inl, inr, ◌⊎◌, arith, ltb→lt,
  Bool-cases, Bool, ◌≢◌, ◌==◌, string_eq, beq→eq,
}
use guardian_tracker.Prelude.Every.{Every-perm}
use guardian_tracker.Prelude.Sort.{IsSorted}
use guardian_tracker.Prelude.TextOrder.{text_below}
use guardian_tracker.Collections.{
  StructNode, StructNodes, no_nodes, more_nodes, node_name, leaf_count, dominant_of, children_of,
  named_nodes, or_itself, roots_of,
}

-- No node has more leaves than the first number, or each has fewer.
abbrev pub AtMost : ℕ → List StructNode → Type 0
AtMost k [] = Unit {0}
AtMost k (n ∷ ns) = (leaf_count n ≤ k) × AtMost k ns

abbrev pub Fewer : ℕ → List StructNode → Type 0
Fewer k [] = Unit {0}
Fewer k (n ∷ ns) = (leaf_count n < k) × Fewer k ns

-- The node is the first of those with the most leaves.
abbrev pub IsDominant : StructNode → List StructNode → Type 0
IsDominant d candidates =
    (before : List StructNode) × (after : List StructNode) × (candidates ≡ before ++ d ∷ after)
    × Fewer (leaf_count d) before
    × AtMost (leaf_count d) after

-- The loop with a best so far ends in it, where no later node has more leaves, or in the first of the
-- later ones with the most.
abbrev Ends : StructNode → List StructNode → Option StructNode → Type 0
Ends d cs end =
    ((end ≡ some d) × AtMost (leaf_count d) cs)
    ⊎ ((e : StructNode) × (end ≡ some e) × (leaf_count d < leaf_count e) × IsDominant e cs)

Ends-more :
    (d c : StructNode) (cs : List StructNode) (end : Option StructNode)
    → leaf_count d < leaf_count c
    → Ends c cs end
    → Ends d (c ∷ cs) end
Ends-more d c cs end lt (inl (is, most)) = inr (c, is, lt, ([], cs, refl, tt, most))
Ends-more d c cs end lt (inr (e, is, more, (before, after, eq, fewer, most))) =
    inr
      (e, is, omega (arith, lt, more), (c ∷ before, after, ap (λ l. c ∷ l) eq, (more, fewer), most))

Ends-fewer :
    (d c : StructNode) (cs : List StructNode) (end : Option StructNode)
    → leaf_count c ≤ leaf_count d
    → Ends d cs end
    → Ends d (c ∷ cs) end
Ends-fewer d c cs end le (inl (is, most)) = inl (is, (le, most))
Ends-fewer d c cs end le (inr (e, is, more, (before, after, eq, fewer, most))) =
    inr
      (e, is, more, (c ∷ before, after, ap (λ l. c ∷ l) eq, (omega (arith, le, more), fewer), most))

dominant_of-Ends : (d : StructNode) (cs : List StructNode) → Ends d cs (dominant_of (some d) cs)
unfolding dominant_of
dominant_of-Ends d [] = inl (refl, tt)
dominant_of-Ends d (c ∷ cs) = elim (Bool-cases (ltb (leaf_count d) (leaf_count c))) [
  | inl larger ↦
      rw larger
        (Ends-more d c cs (dominant_of (some c) cs) (ltb→lt _ _ larger) (dominant_of-Ends c cs))
  | inr small ↦
      rw small (Ends-fewer d c cs (dominant_of (some d) cs) (ground arith) (dominant_of-Ends d cs))
]

or_itself-perm :
    (d : StructNode) {ms ns : List StructNode}
    → Permᴰ ms ns
    → Permᴰ (or_itself d ms) (or_itself d ns)
or_itself-perm d Permᴰ.nil = Permᴰ.cons refl Permᴰ.nil
or_itself-perm d (Permᴰ.cons e p) = Permᴰ.cons e p
or_itself-perm d (Permᴰ.swap e e') = Permᴰ.swap e e'
or_itself-perm d (Permᴰ.trans p q) = Permᴰ.trans (or_itself-perm d p) (or_itself-perm d q)

-- The roots, as the steps behind the choice of the node leave them.
pub roots_of-anchored :
    (sort_by_name : List StructNode → List StructNode)
    → ((ns : List StructNode) → Permᴰ (sort_by_name ns) ns)
    → (c : StructNode) (cs : List StructNode)
    → (d : StructNode) × IsDominant d (c ∷ cs)
      × Permᴰ (roots_of sort_by_name (c ∷ cs)) (or_itself d (named_nodes (children_of d)))
unfolding roots_of dominant_of
roots_of-anchored sort_by_name perm c cs = elim (dominant_of-Ends c cs) [
  | inl (is, most) ↦
      (c, ([], cs, refl, tt, most), rw is (or_itself-perm c (perm (named_nodes (children_of c)))))
  | inr (e, is, more, (before, after, eq, fewer, most)) ↦ (
    e,
    (c ∷ before, after, ap (λ l. c ∷ l) eq, (more, fewer), most),
    rw is (or_itself-perm e (perm (named_nodes (children_of e)))),
  )
]

-- A list is those of some nodes that have a name, in their order.
pub data AreNamed : StructNodes → List StructNode → Type 0 where
  nothing : AreNamed no_nodes []
  takes :
      {n : StructNode} {ns : StructNodes} {ms : List StructNode}
      → node_name n ≢ ""
      → AreNamed ns ms
      → AreNamed (more_nodes n ns) (n ∷ ms)
  skips :
      {n : StructNode} {ns : StructNodes} {ms : List StructNode}
      → node_name n ≡ ""
      → AreNamed ns ms
      → AreNamed (more_nodes n ns) ms

named_nodes-AreNamed : (ns : StructNodes) → AreNamed ns (named_nodes ns)
unfolding named_nodes
named_nodes-AreNamed no_nodes = AreNamed.nothing
named_nodes-AreNamed (more_nodes n ns) = elim (Bool-cases (node_name n == "")) [
  | inl blank ↦ rw blank (AreNamed.skips (beq→eq (node_name n) "" blank) (named_nodes-AreNamed ns))
  | inr named ↦ rw named (
      AreNamed.takes (λ e. absurd (cc ((string_eq.beq_iff (node_name n) "").1 e, named)))
        (named_nodes-AreNamed ns))
]

abbrev pub name_below : StructNode → StructNode → Bool
name_below a b = text_below (node_name a) (node_name b)

-- The roots of a forest at a node, of whose children some have a name.
abbrev pub AreRoots : StructNode → List StructNode → List StructNode → Type 0
AreRoots d named roots =
    ((named ≡ []) × (roots ≡ d ∷ []))
    ⊎ ((named ≢ []) × Permᴰ roots named × IsSorted name_below roots)

or_itself-AreRoots :
    (d : StructNode) (named sorted : List StructNode)
    → Permᴰ sorted named
    → IsSorted name_below sorted
    → AreRoots d named (or_itself d sorted)
or_itself-AreRoots d [] [] p s = inl (refl, refl)
or_itself-AreRoots d (n ∷ named) (m ∷ sorted) p s = inr ((λ e. absurd (cc e)), p, s)
or_itself-AreRoots d [] (m ∷ sorted) p s = absurd ((Every-perm (λ _. ⊥) p tt).0)
or_itself-AreRoots d (n ∷ named) [] p s = absurd ((Every-perm (λ _. ⊥) (Permᴰ.symm p) tt).0)

-- The forest of at least one candidate is anchored at the first of those with the most leaves below
-- them. Its roots are the children of that node that have a name, each as often as it is there and in
-- the order of the names, or, where none has one, the node itself; for a sort that rearranges its input
-- in the order of the names.
pub roots_of_lem :
    (sort_by_name : List StructNode → List StructNode)
    → ((ns : List StructNode) → Permᴰ (sort_by_name ns) ns)
    → ((ns : List StructNode) → IsSorted name_below (sort_by_name ns))
    → (c : StructNode) (cs : List StructNode)
    → (d : StructNode) × IsDominant d (c ∷ cs)
      × (named : List StructNode) × AreNamed (children_of d) named
      × AreRoots d named (roots_of sort_by_name (c ∷ cs))
unfolding roots_of dominant_of
roots_of_lem sort_by_name perm sorted c cs = elim (dominant_of-Ends c cs) [
  | inl (is, most) ↦
      let named = named_nodes (children_of c) in
      (
        c,
        ([], cs, refl, tt, most),
        named,
        named_nodes-AreNamed (children_of c),
        rw is (or_itself-AreRoots c named (sort_by_name named) (perm named) (sorted named)),
      )
  | inr (e, is, more, (before, after, eq, fewer, most)) ↦
      let named = named_nodes (children_of e) in
      (
        e,
        (c ∷ before, after, ap (λ l. c ∷ l) eq, (more, fewer), most),
        named,
        named_nodes-AreNamed (children_of e),
        rw is (or_itself-AreRoots e named (sort_by_name named) (perm named) (sorted named)),
      )
]
