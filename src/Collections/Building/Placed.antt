-- ===== src/Collections/Building/Placed.antt =====
-- That the building of a node ends, and what it places.
use guardian_tracker.Prelude.{
  ℕ, zero, suc, ◌<◌, ◌≡◌, refl, sym, ap, subst, ◌∙◌, Bool, true, false, Option, some, List, [], ◌∷◌,
  String, map, nat_eq, string_eq, ◌==◌, Assoc, lookup, has, length, AllDifferent, arith, Bool-cases,
  Option-cases, inl, inr,
}
use guardian_tracker.Collections.{
  LeafRef, StructNode, StructNodes, struct_node, no_nodes, more_nodes, node_name,
}
use guardian_tracker.Collections.Contains.{PresentationNodeDef, Walk, is_visiting}
use guardian_tracker.Collections.Contains.Termination.{IsSound, Reaches, compute_contains_lem}
use guardian_tracker.Collections.Building.Paths.{off_path, off_path-length, off_path-less}
use guardian_tracker.Collections.Building.{
  is_shown, build_leaves, contains_any, then_siblings, build_child, build_children, with_leaves,
  build,
}

name-is_shown : (d : PresentationNodeDef) → is_shown (some d) ≡ true → (d.name == "") ≡ false
unfolding is_shown
name-is_shown d shown = ground (arith, shown)

module _ (print : ℕ → String) (items : Assoc ℕ ℕ) where
  build_leaves-AllDifferent :
      (seen cs : List ℕ)
      → let nums = map (λ l. LeafRef.item_hash_num l) (build_leaves print items seen cs) in
        AllDifferent nums × ((j : ℕ) → has j seen ≡ true → has j nums ≡ false)
  unfolding build_leaves has
  build_leaves-AllDifferent seen [] = (tt, λ j at. refl)
  build_leaves-AllDifferent seen (c ∷ cs) = elim (Option-cases (lookup c items)) [
    | inl absent ↦ rw (build_leaves, absent) (build_leaves-AllDifferent seen cs)
    | inr (item, is) ↦
        rw (build_leaves, is)
          (elim (Bool-cases (has item seen)) [
            | inl again ↦ rw again (build_leaves-AllDifferent seen cs)
            | inr new ↦ rw new (
                let (different, fresh) = build_leaves-AllDifferent (item ∷ seen) cs in
                (
                  (fresh item (ground arith), different),
                  λ j at.
                      ground (arith, fresh j, at, new, nat_eq.beq_iff item j, ap (λ i. has i seen)),
                ))
          ])
  ]

abbrev node_hash : StructNode → ℕ
node_hash (struct_node hash name icon below leaves) = hash

module _ (nodes : Assoc ℕ PresentationNodeDef) (items : Assoc ℕ ℕ) where
  -- No item stands twice among the leaves of a node. Each node below it has a name, and a collectible of
  -- the catalogue at some depth.
  mutual
    pub data IsTidy : StructNode → Type 0 where
      tidy :
          (hash : ℕ) (name icon : String) (below : StructNodes) (leaves : List LeafRef)
          → AllDifferent (map (λ l. LeafRef.item_hash_num l) leaves)
          → AreTidy below
          → IsTidy (struct_node hash name icon below leaves)

    pub data AreTidy : StructNodes → Type 0 where
      all_tidy : AreTidy no_nodes
      one_more :
          (n : StructNode) (ns : StructNodes)
          → (node_name n == "") ≡ false
          → Reaches nodes items (node_hash n)
          → IsTidy n
          → AreTidy ns
          → AreTidy (more_nodes n ns)

  abbrev pub IsIdle : Walk → Type 0
  IsIdle w = (j : ℕ) → is_visiting j w ≡ false

  abbrev pub Built : ℕ → PresentationNodeDef → Option (StructNode × Walk) → Type 0
  Built h d r =
      (n : StructNode) × (v : Walk) × (r ≡ some (n, v))
      × IsSound nodes items v
      × IsIdle v
      × (node_hash n ≡ h)
      × (node_name n ≡ d.name)
      × IsTidy n

  abbrev BuiltAll : Option (StructNodes × Walk) → Type 0
  BuiltAll r =
      (ns : StructNodes) × (v : Walk) × (r ≡ some (ns, v))
      × IsSound nodes items v
      × IsIdle v
      × AreTidy ns

  module _ (print : ℕ → String) where
    abbrev Next : (Walk → Option (StructNodes × Walk)) → Type 0
    Next rest = (v : Walk) → IsSound nodes items v → IsIdle v → BuiltAll (rest v)

    then_siblings-BuiltAll :
        (c : ℕ) (d : PresentationNodeDef) (r : Option (StructNode × Walk))
        (rest : Walk → Option (StructNodes × Walk))
        → (d.name == "") ≡ false
        → Reaches nodes items c
        → Built c d r
        → Next rest
        → BuiltAll (then_siblings print nodes items r rest)
    then_siblings-BuiltAll c d r rest named reaches (n, v, is, sound, idle, at, called, neat) next =
        let (ns, v', is', sound', idle', neats) = next v sound idle in
        (
          more_nodes n ns,
          v',
          rw is (rw is' refl),
          sound',
          idle',
          one_more n ns (ap (λ s. s == "") called ∙ named)
              (subst (Reaches nodes items) (sym at) reaches) neat neats,
        )

    build_child-BuiltAll :
        (go : ℕ → Walk → Option (StructNode × Walk)) (path : List ℕ) (c : ℕ) (w : Walk)
        (rest : Walk → Option (StructNodes × Walk))
        → ((d : PresentationNodeDef) (v : Walk)
            → lookup c nodes ≡ some d
            → has c path ≡ false
            → IsSound nodes items v
            → IsIdle v
            → Built c d (go c v))
        → IsSound nodes items w
        → IsIdle w
        → Next rest
        → BuiltAll
            (build_child print nodes items go path c (contains_any print nodes items c w) rest)
    unfolding build_child
    build_child-BuiltAll go path c w rest ih sound idle next =
        let (res, v, is, sound', idle', found) = compute_contains_lem nodes items c w sound idle in
        rw is (after res v sound' idle' found)
      where
        after :
            (res : Bool) (v : Walk)
            → IsSound nodes items v
            → IsIdle v
            → (res ≡ true → Reaches nodes items c)
            → BuiltAll (build_child print nodes items go path c (some (res, v)) rest)
        after false v sound' idle' found = next v sound' idle'
        after true v sound' idle' found = elim (Bool-cases (has c path)) [
          | inl on ↦ rw (build_child, on) (next v sound' idle')
          | inr off ↦
              rw (build_child, off)
                (elim (Option-cases (lookup c nodes)) [
                  | inl missing ↦ rw missing (next v sound' idle')
                  | inr (d, known) ↦ rw known (elim (Bool-cases (is_shown (some d))) [
                    | inl shown ↦ rw shown (
                        then_siblings-BuiltAll c d (go c v) rest (name-is_shown d shown)
                          (found refl) (ih d v known off sound' idle') next)
                    | inr hidden ↦ rw hidden (next v sound' idle')
                  ])
                ])
        ]

    build_children-BuiltAll :
        (go : ℕ → Walk → Option (StructNode × Walk)) (path : List ℕ)
        → ((c : ℕ) (d : PresentationNodeDef) (v : Walk)
            → lookup c nodes ≡ some d
            → has c path ≡ false
            → IsSound nodes items v
            → IsIdle v
            → Built c d (go c v))
        → (cs : List ℕ) (w : Walk) → IsSound nodes items w
        → IsIdle w
        → BuiltAll (build_children print nodes items go path cs w)
    unfolding build_children
    build_children-BuiltAll go path ih [] w sound idle = (no_nodes, w, refl, sound, idle, all_tidy)
    build_children-BuiltAll go path ih (c ∷ cs) w sound idle =
        build_child-BuiltAll go path c w (build_children print nodes items go path cs) (ih c) sound
          idle (build_children-BuiltAll go path ih cs)

    with_leaves-Built :
        (h : ℕ) (d : PresentationNodeDef) (r : Option (StructNodes × Walk))
        → BuiltAll r
        → Built h d (with_leaves print nodes items h d r)
    with_leaves-Built h d r (below, v, is, sound, idle, neat) =
        let leaves = build_leaves print items [] d.collectibles in
        (
          struct_node h d.name d.icon below leaves,
          v,
          rw is refl,
          sound,
          idle,
          refl,
          refl,
          tidy h d.name d.icon below leaves
              ((build_leaves-AllDifferent print items [] d.collectibles).0) neat,
        )

    build-Built :
        (fuel h : ℕ) (d : PresentationNodeDef) (path : List ℕ) (w : Walk)
        → off_path nodes path < fuel
        → lookup h nodes ≡ some d
        → has h path ≡ false
        → IsSound nodes items w
        → IsIdle w
        → Built h d (build print nodes items fuel h path w)
    unfolding build
    build-Built zero h d path w enough known off sound idle = ground arith
    build-Built (suc fuel) h d path w enough known off sound idle =
        rw (build, known)
          (with_leaves-Built h d _ (
            build_children-BuiltAll (λ c v. build print nodes items fuel c (h ∷ path) v) (h ∷ path)
              (λ c e v known' off' sound' idle'.
                build-Built fuel c e (h ∷ path) v
                  (omega (arith, enough, off_path-less nodes h d path known off)) known' off' sound'
                  idle')
              d.presentation_nodes w sound idle))

-- Building a node ends too, on as much fuel, and from a memo that is sound and no node being visited
-- leaves it so. What is built is the node that was asked for, with the name of its definition; below it
-- stand only nodes with a name, each of which leads to a collectible of the catalogue, and no item stands
-- twice among the leaves of a node. All of this also where the children of the manifest make cycles.
pub build_lem :
    (print : ℕ → String) (nodes : Assoc ℕ PresentationNodeDef) (items : Assoc ℕ ℕ) (h : ℕ)
    (d : PresentationNodeDef) (w : Walk)
    → lookup h nodes ≡ some d
    → IsSound nodes items w
    → IsIdle nodes items w
    → Built nodes items h d (build print nodes items (suc (length nodes)) h [] w)
unfolding has
build_lem print nodes items h d w known sound idle =
    build-Built nodes items print (suc (length nodes)) h d [] w
      (omega (arith, off_path-length nodes [])) known refl sound idle
