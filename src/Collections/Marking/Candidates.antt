-- ===== src/Collections/Marking/Candidates.antt =====
-- That the candidates for a root are found and built, whatever the nodes of the manifest are.
use guardian_tracker.Prelude.{
  ℕ, zero, suc, ◌<◌, ◌≡◌, refl, sym, ap, ◌∙◌, Bool, true, false, Option, some, List, [], ◌∷◌,
  String, nat_eq, Assoc, ◌&&◌, not, lookup, has, length, is_some, arith, Bool-cases, Option-cases,
  inl, inr,
}
use guardian_tracker.Prelude.Every.{Every}
use guardian_tracker.Collections.{StructNode}
use guardian_tracker.Collections.Contains.{PresentationNodeDef, Walk}
use guardian_tracker.Collections.Contains.Termination.{IsSound, Reaches, compute_contains_lem}
use guardian_tracker.Collections.Building.Paths.{off_path, off_path-length, off_path-less}
use guardian_tracker.Collections.Building.{contains_any}
use guardian_tracker.Collections.Building.Placed.{IsTidy, IsIdle, build_lem}
use guardian_tracker.Collections.Marking.{
  Marks, and_then, mark_child, mark_children, mark_node, mark_referenced, mark_all, with_candidate,
  root_hashes, or_all, build_all,
}

module _ (print : ℕ → String) (nodes : Assoc ℕ PresentationNodeDef) (items : Assoc ℕ ℕ) where
  abbrev pub IsMarked : Option Marks → Type 0
  IsMarked r = (s : Marks) × (r ≡ some s) × IsSound nodes items s.walk × IsIdle nodes items s.walk

  and_then-IsMarked :
      (r : Option Marks) (rest : Marks → Option Marks)
      → IsMarked r
      → ((s : Marks) → IsSound nodes items s.walk → IsIdle nodes items s.walk → IsMarked (rest s))
      → IsMarked (and_then print nodes items r rest)
  and_then-IsMarked r rest (s, is, sound, idle) next = rw is (next s sound idle)

  mark_children-IsMarked :
      (go : ℕ → Marks → Option Marks) (path : List ℕ)
      → ((c : ℕ) (s : Marks)
          → IsSound nodes items s.walk
          → IsIdle nodes items s.walk
          → IsMarked (go c s))
      → (cs : List ℕ) (s : Marks) → IsSound nodes items s.walk
      → IsIdle nodes items s.walk
      → IsMarked (mark_children print nodes items go path cs s)
  unfolding mark_children mark_child
  mark_children-IsMarked go path ih [] s sound idle = (s, refl, sound, idle)
  mark_children-IsMarked go path ih (c ∷ cs) s sound idle =
      and_then-IsMarked _ _ child (mark_children-IsMarked go path ih cs)
    where
      after :
          (res : Bool) (w : Walk)
          → IsSound nodes items w
          → IsIdle nodes items w
          → IsMarked (mark_child print nodes items go path c s (some (res, w)))
      after false w sound' idle' = (_, refl, sound', idle')
      after true w sound' idle' = elim (Bool-cases (has c path)) [
        | inl on ↦ rw (mark_child, on) (_, refl, sound', idle')
        | inr off ↦ rw (mark_child, off) (ih c _ sound' idle')
      ]

      child :
          IsMarked
            (mark_child print nodes items go path c s (contains_any print nodes items c s.walk))
      child =
          let (res, w, is, sound', idle', found) =
            compute_contains_lem nodes items c s.walk sound idle in
          rw is (after res w sound' idle')

  mark_referenced-IsMarked :
      (fuel h : ℕ) (path : List ℕ) (s : Marks)
      → off_path nodes path < fuel
      → IsSound nodes items s.walk
      → IsIdle nodes items s.walk
      → IsMarked (mark_referenced print nodes items fuel h path s)
  unfolding mark_referenced mark_node
  mark_referenced-IsMarked zero h path s enough sound idle = ground arith
  mark_referenced-IsMarked (suc fuel) h path s enough sound idle =
      let (res, w, is, sound', idle', found) =
        compute_contains_lem nodes items h s.walk sound idle in
      rw (mark_referenced, is)
        (after (λ c t. mark_referenced-IsMarked fuel c (h ∷ path) t) res w sound' idle')
    where
      go : ℕ → Marks → Option Marks
      go c t = mark_referenced print nodes items fuel c (h ∷ path) t

      after :
          ((c : ℕ) (t : Marks)
            → off_path nodes (h ∷ path) < fuel
            → IsSound nodes items t.walk
            → IsIdle nodes items t.walk
            → IsMarked (go c t))
          → (res : Bool) (w : Walk) → IsSound nodes items w
          → IsIdle nodes items w
          → IsMarked (mark_node print nodes items go path h s (some (res, w)))
      after ih false w sound' idle' = (_, refl, sound', idle')
      after ih true w sound' idle' = elim (Bool-cases (has h path)) [
        | inl on ↦ rw (mark_node, on) (_, refl, sound', idle')
        | inr off ↦
            rw (mark_node, off)
              (elim (Option-cases (lookup h nodes)) [
                | inl missing ↦ rw missing (_, refl, sound', idle')
                | inr (n, known) ↦ rw known (
                    mark_children-IsMarked go (h ∷ path)
                      (λ c t.
                        ih c t (omega (arith, enough, off_path-less nodes h n path known off)))
                      n.presentation_nodes _ sound' idle')
              ])
      ]

  pub mark_all-IsMarked :
      (m : Assoc ℕ PresentationNodeDef) (s : Marks)
      → IsSound nodes items s.walk
      → IsIdle nodes items s.walk
      → IsMarked (mark_all print nodes items m s)
  unfolding mark_all
  mark_all-IsMarked [] s sound idle = (s, refl, sound, idle)
  mark_all-IsMarked ((h, n) ∷ m) s sound idle =
      and_then-IsMarked _ _
        (mark_referenced-IsMarked (suc (length nodes)) h [] s
          (omega (arith, off_path-length nodes [])) sound idle)
        (mark_all-IsMarked m)

  abbrev pub IsKnown : ℕ → Type 0
  IsKnown h = is_some (lookup h nodes) ≡ true

  abbrev pub Chosen : Option (List ℕ × Walk) → Type 0
  Chosen r =
      (hs : List ℕ) × (w : Walk) × (r ≡ some (hs, w))
      × IsSound nodes items w
      × IsIdle nodes items w
      × Every IsKnown hs

  reaches-IsKnown : (h : ℕ) → Reaches nodes items h → IsKnown h
  reaches-IsKnown h (Reaches.here _ n known own) = rw known refl
  reaches-IsKnown h (Reaches.below _ n c known at reaches) = rw known refl

  pub root_hashes-Chosen :
      (m : Assoc ℕ PresentationNodeDef) (referenced : List ℕ) (w : Walk)
      → IsSound nodes items w
      → IsIdle nodes items w
      → Chosen (root_hashes print nodes items m referenced w)
  unfolding root_hashes
  root_hashes-Chosen [] referenced w sound idle = ([], w, refl, sound, idle, tt)
  root_hashes-Chosen ((h, n) ∷ m) referenced w sound idle =
      let (res, v, is, sound', idle', found) = compute_contains_lem nodes items h w sound idle in
      let (hs, v', is', sound'', idle'', known) = root_hashes-Chosen m referenced v sound' idle' in
      rw is (
        rw is' (
          chosen res (has h referenced) hs v' sound'' idle'' known
            (λ yes. reaches-IsKnown h (found yes))))
    where
      chosen :
          (res listed : Bool) (hs : List ℕ) (v : Walk)
          → IsSound nodes items v
          → IsIdle nodes items v
          → Every IsKnown hs
          → (res ≡ true → IsKnown h)
          → Chosen (with_candidate print nodes items (res && not listed) h (some (hs, v)))
      chosen false listed hs v s i known found = (hs, v, refl, s, i, known)
      chosen true true hs v s i known found = (hs, v, refl, s, i, known)
      chosen true false hs v s i known found = (h ∷ hs, v, refl, s, i, (found refl, known))

  pub or_all-Chosen : (r : Option (List ℕ × Walk)) → Chosen r → Chosen (or_all print nodes items r)
  or_all-Chosen r ([], w, is, sound, idle, known) = rw is (root_hashes-Chosen nodes [] w sound idle)
  or_all-Chosen r (h ∷ hs, w, is, sound, idle, known) = rw is (h ∷ hs, w, refl, sound, idle, known)

  abbrev pub AllBuilt : Option (List StructNode) → Type 0
  AllBuilt r = (ns : List StructNode) × (r ≡ some ns) × Every (IsTidy nodes items) ns

  pub build_all-AllBuilt :
      (hs : List ℕ) (w : Walk)
      → IsSound nodes items w
      → IsIdle nodes items w
      → Every IsKnown hs
      → AllBuilt (build_all print nodes items hs w)
  unfolding build_all
  build_all-AllBuilt [] w sound idle known = ([], refl, tt)
  build_all-AllBuilt (h ∷ hs) w sound idle (here, known) = elim (Option-cases (lookup h nodes)) [
    | inl missing ↦ no_def (sym here ∙ ap is_some missing)
    | inr (d, is_def) ↦
        let (n, v, is, sound', idle', at, called, neat) =
          build_lem print nodes items h d w is_def sound idle in
        let (ns, is', neats) = build_all-AllBuilt hs v sound' idle' known in
        (n ∷ ns, rw is (rw is' refl), (neat, neats))
  ]
    where
      no_def : true ≡ false → AllBuilt (build_all print nodes items (h ∷ hs) w)
      no_def absurd_eq = ground arith
