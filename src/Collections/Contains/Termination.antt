-- ===== src/Collections/Contains/Termination.antt =====
-- That `computeContains` ends, and that what it finds is there.
use guardian_tracker.Prelude.{
  ℕ, zero, suc, ◌<◌, ◌≡◌, refl, ap, ◌∙◌, Bool, true, false, Option, some, List, [], ◌∷◌, nat_eq,
  ◌==◌, Assoc, lookup, insert, lookup-insert, has, length, arith, subst, Bool-cases, Option-cases,
  inl, inr,
}
use guardian_tracker.Collections.Contains.Visiting.{
  unvisited, unvisited-length, unvisited_same, is_visiting-enter, is_visiting-leave,
  unvisited-enter,
}
use guardian_tracker.Collections.Contains.{
  PresentationNodeDef, Walk, is_visiting, enter, leave, leaf_missing, holds_collectible, or_rest,
  any_child_contains, left_with, compute_contains,
}

module _ (nodes : Assoc ℕ PresentationNodeDef) (items : Assoc ℕ ℕ) where
  -- A node holds a collectible of the catalogue itself, or one of its children does.
  pub data Reaches : ℕ → Type 0 where
    here :
        (h : ℕ) (n : PresentationNodeDef)
        → lookup h nodes ≡ some n
        → holds_collectible items n.collectibles ≡ true
        → Reaches h
    below :
        (h : ℕ) (n : PresentationNodeDef) (c : ℕ)
        → lookup h nodes ≡ some n
        → has c n.presentation_nodes ≡ true
        → Reaches c
        → Reaches h

  -- What the memo says is contained is there.
  abbrev pub IsSound : Walk → Type 0
  IsSound w = (j : ℕ) → lookup j w.contains ≡ some true → Reaches j

  -- A call that found its answer, for a walk.
  abbrev Answer : Type 0 → Walk → Option (Bool × Walk) → Type 0
  Answer Found w r =
      (res : Bool) × (v : Walk) × (r ≡ some (res, v))
      × IsSound v
      × ((j : ℕ) → is_visiting j v ≡ is_visiting j w)
      × (res ≡ true → Found)

  abbrev Child : List ℕ → Type 0
  Child cs = (c : ℕ) × (has c cs ≡ true) × Reaches c

  has-first : (c : ℕ) (cs : List ℕ) → has c (c ∷ cs) ≡ true
  unfolding has
  has-first c cs = ground arith

  has-later : (d c : ℕ) (cs : List ℕ) → has d cs ≡ true → has d (c ∷ cs) ≡ true
  unfolding has
  has-later d c cs at = ground arith

  insert-IsSound :
      (h : ℕ) (res : Bool) (w : Walk)
      → IsSound w
      → (res ≡ true → Reaches h)
      → (j : ℕ) → lookup j (insert h res w.contains) ≡ some true
      → Reaches j
  insert-IsSound h res w sound found j is = elim (Bool-cases (h == j)) [
    | inl same ↦ subst Reaches (is_same h j same) (found (held same))
    | inr other ↦ sound j (kept other)
  ]
    where
      held : (h == j) ≡ true → res ≡ true
      held same = ground (arith, lookup-insert h j res w.contains)

      kept : (h == j) ≡ false → lookup j w.contains ≡ some true
      kept other = ground (arith, lookup-insert h j res w.contains)

      is_same : (a b : ℕ) → (a == b) ≡ true → a ≡ b
      is_same a b same = ground arith

  or_rest-Answer :
      (c : ℕ) (cs : List ℕ) (w : Walk) (r : Option (Bool × Walk))
      (rest : Walk → Option (Bool × Walk))
      → Answer (Reaches c) w r
      → ((v : Walk)
          → IsSound v
          → ((j : ℕ) → is_visiting j v ≡ is_visiting j w)
          → Answer (Child cs) v (rest v))
      → Answer (Child (c ∷ cs)) w (or_rest r rest)
  or_rest-Answer c cs w r rest (true, v, is, sound, same, found) next =
      (true, v, rw is refl, sound, same, λ is_true. (c, has-first c cs, found is_true))
  or_rest-Answer c cs w r rest (false, v, is, sound, same, found) next =
      let (res, v', is', sound', same', found') = next v sound same in
      (
        res,
        v',
        rw is is',
        sound',
        λ j. same' j ∙ same j,
        λ is_true.
            let (child, at, reaches) = found' is_true in (child, has-later child c cs at, reaches),
      )

  any_child_contains-Answer :
      (fuel : ℕ) (go : ℕ → Walk → Option (Bool × Walk))
      → ((h : ℕ) (w : Walk) → unvisited nodes w < fuel → IsSound w → Answer (Reaches h) w (go h w))
      → (cs : List ℕ) (w : Walk) → unvisited nodes w < fuel
      → IsSound w
      → Answer (Child cs) w (any_child_contains go cs w)
  unfolding any_child_contains
  any_child_contains-Answer fuel go ih [] w enough sound =
      (false, w, refl, sound, λ j. refl, λ h. ground arith)
  any_child_contains-Answer fuel go ih (c ∷ cs) w enough sound =
      or_rest-Answer c cs w (go c w) (any_child_contains go cs) (ih c w enough sound)
        (λ v sound' same.
          any_child_contains-Answer fuel go ih cs v
            (omega (arith, enough, unvisited_same nodes v w same)) sound')

  left_with-Answer :
      (h : ℕ) (w : Walk) (r : Option (Bool × Walk))
      → is_visiting h w ≡ false
      → Answer (Reaches h) (enter h w) r
      → Answer (Reaches h) w (left_with h r)
  unfolding leave
  left_with-Answer h w r new (res, v, is, sound, same, found) =
      (res, leave h res v, rw is refl, insert-IsSound h res v sound found, λ j. restored j, found)
    where
      restored : (j : ℕ) → is_visiting j (leave h res v) ≡ is_visiting j w
      restored j = ground (
        arith,
        is_visiting-leave h j res v,
        same j,
        is_visiting-enter h j w,
        new,
        ap (λ i. is_visiting i w),
      )

  unknown-Answer :
      (h : ℕ) (w : Walk) → IsSound w → Answer (Reaches h) w (some (false, leaf_missing h w))
  unfolding leaf_missing is_visiting
  unknown-Answer h w sound = (
    false,
    leaf_missing h w,
    refl,
    insert-IsSound h false w sound (λ is. ground arith),
    λ j. refl,
    λ is. ground arith,
  )

  node-Answer :
      (fuel h : ℕ) (n : PresentationNodeDef) (w : Walk)
      → lookup h nodes ≡ some n
      → ((c : ℕ) (v : Walk)
          → unvisited nodes v < fuel
          → IsSound v
          → Answer (Reaches c) v (compute_contains nodes items fuel c v))
      → unvisited nodes (enter h w) < fuel
      → IsSound w
      → Answer (Reaches h) (enter h w) (elim (holds_collectible items n.collectibles) [
        | true ↦ some (true, enter h w)
        | false ↦
            any_child_contains (compute_contains nodes items fuel) n.presentation_nodes (enter h w)
      ])
  unfolding enter
  node-Answer fuel h n w known ih enough sound =
      elim (Bool-cases (holds_collectible items n.collectibles)) [
        | inl own ↦ rw own (true, enter h w, refl, sound, λ j. refl, λ is. here h n known own)
        | inr none_own ↦ rw none_own (
            through_child (
              any_child_contains-Answer fuel (compute_contains nodes items fuel) ih
                n.presentation_nodes (enter h w) enough sound))
      ]
    where
      through_child :
          {r : Option (Bool × Walk)}
          → Answer (Child n.presentation_nodes) (enter h w) r
          → Answer (Reaches h) (enter h w) r
      through_child (res, v, is, sound', same, found) = (
        res,
        v,
        is,
        sound',
        same,
        λ is_true. let (c, at, reaches) = found is_true in below h n c known at reaches,
      )

  compute_contains-Answer :
      (fuel h : ℕ) (w : Walk)
      → unvisited nodes w < fuel
      → IsSound w
      → Answer (Reaches h) w (compute_contains nodes items fuel h w)
  unfolding compute_contains
  compute_contains-Answer zero h w enough sound = ground arith
  compute_contains-Answer (suc fuel) h w enough sound = elim (Option-cases (lookup h w.contains)) [
    | inr (v, memo) ↦
        rw (compute_contains, memo)
          (v, w, refl, sound, λ j. refl, λ is. sound h (memo ∙ ap some is))
    | inl unknown ↦
        rw (compute_contains, unknown)
          (elim (Bool-cases (is_visiting h w)) [
            | inl again ↦ rw again (false, w, refl, sound, λ j. refl, λ is. ground arith)
            | inr new ↦ rw new (elim (Option-cases (lookup h nodes)) [
              | inl missing ↦ rw missing (unknown-Answer h w sound)
              | inr (n, known) ↦ rw known (
                  left_with-Answer h w _ new (
                    node-Answer fuel h n w known (compute_contains-Answer fuel)
                      (omega (arith, enough, unvisited-enter nodes h n w known new)) sound))
            ])
          ])
  ]

-- The walk ends: with as much fuel as there are nodes, and one more, the search from any node answers,
-- whatever cycles the children make. Where it says that the node contains a collectible, some path of
-- children leads from it to a node with a collectible of the catalogue. Afterwards the memo is as sound as
-- it was before, and no node is left marked as being visited.
pub compute_contains_lem :
    (nodes : Assoc ℕ PresentationNodeDef) (items : Assoc ℕ ℕ) (h : ℕ) (w : Walk)
    → IsSound nodes items w
    → ((j : ℕ) → is_visiting j w ≡ false)
    → (res : Bool) × (v : Walk) × (compute_contains nodes items (suc (length nodes)) h w
        ≡ some (res, v))
      × IsSound nodes items v
      × ((j : ℕ) → is_visiting j v ≡ false)
      × (res ≡ true → Reaches nodes items h)
compute_contains_lem nodes items h w sound idle =
    let (res, v, is, sound', same, found) =
      compute_contains-Answer nodes items (suc (length nodes)) h w
        (omega (arith, unvisited-length nodes w)) sound in
    (res, v, is, sound', λ j. same j ∙ idle j, found)
