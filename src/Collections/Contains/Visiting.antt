-- ===== src/Collections/Contains/Visiting.antt =====
-- The map `visiting` of the walk: what entering and leaving a node changes, and what is left to visit.
use guardian_tracker.Prelude.{
  ℕ, suc, ◌≤◌, ◌<◌, ◌≡◌, refl, ap, Bool, true, false, some, [], ◌∷◌, if◌then◌else◌, nat_eq, ◌==◌,
  Assoc, lookup, lookup-insert, length, arith,
}
use guardian_tracker.Collections.Contains.{PresentationNodeDef, Walk, is_visiting, enter, leave}

-- how many of the nodes are not being visited
abbrev pub unvisited : Assoc ℕ PresentationNodeDef → Walk → ℕ
unvisited [] w = 0
unvisited ((k, n) ∷ m) w = let rest = unvisited m w in if is_visiting k w then rest else suc rest

pub unvisited-length : (m : Assoc ℕ PresentationNodeDef) (w : Walk) → unvisited m w ≤ length m
unvisited-length [] w = omega arith
unvisited-length ((k, n) ∷ m) w = ground (arith, unvisited-length m w)

pub unvisited_same :
    (m : Assoc ℕ PresentationNodeDef) (v w : Walk)
    → ((j : ℕ) → is_visiting j v ≡ is_visiting j w)
    → unvisited m v ≡ unvisited m w
unvisited_same [] v w same = refl
unvisited_same ((k, n) ∷ m) v w same = ground (arith, same k, unvisited_same m v w same)

pub is_visiting-enter :
    (h j : ℕ) (w : Walk) → is_visiting j (enter h w) ≡ (if h == j then true else is_visiting j w)
unfolding is_visiting enter
is_visiting-enter h j w = ground (arith, lookup-insert h j true w.visiting)

pub is_visiting-leave :
    (h j : ℕ) (res : Bool) (w : Walk)
    → is_visiting j (leave h res w) ≡ (if h == j then false else is_visiting j w)
unfolding is_visiting leave
is_visiting-leave h j res w = ground (arith, lookup-insert h j false w.visiting)

unvisited-enter_le :
    (m : Assoc ℕ PresentationNodeDef) (h : ℕ) (w : Walk) → unvisited m (enter h w) ≤ unvisited m w
unvisited-enter_le [] h w = omega arith
unvisited-enter_le ((k, n) ∷ m) h w =
    ground (arith, is_visiting-enter h k w, unvisited-enter_le m h w)

pub unvisited-enter :
    (m : Assoc ℕ PresentationNodeDef) (h : ℕ) (n : PresentationNodeDef) (w : Walk)
    → lookup h m ≡ some n
    → is_visiting h w ≡ false
    → unvisited m (enter h w) < unvisited m w
unfolding lookup
unvisited-enter [] h n w is new = ground arith
unvisited-enter ((k, d) ∷ m) h n w is new = ground (
  arith,
  is_visiting-enter h k w,
  unvisited-enter_le m h w,
  unvisited-enter m h n w,
  nat_eq.beq_iff k h,
  nat_eq.beq_iff h k,
  ap (λ j. is_visiting j w),
)
