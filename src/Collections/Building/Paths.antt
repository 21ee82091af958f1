-- ===== src/Collections/Building/Paths.antt =====
-- A path of the walks over the nodes: what is left of the nodes to go to.
use guardian_tracker.Prelude.{
  ℕ, suc, ◌≤◌, ◌<◌, ◌≡◌, ap, true, false, some, List, [], ◌∷◌, if◌then◌else◌, nat_eq, ◌==◌, Assoc,
  lookup, has, length, arith,
}
use guardian_tracker.Collections.Contains.{PresentationNodeDef}

-- how many of the nodes do not stand on the path
abbrev pub off_path : Assoc ℕ PresentationNodeDef → List ℕ → ℕ
off_path [] path = 0
off_path ((k, n) ∷ m) path = let rest = off_path m path in if has k path then rest else suc rest

pub off_path-length : (m : Assoc ℕ PresentationNodeDef) (path : List ℕ) → off_path m path ≤ length m
off_path-length [] path = omega arith
off_path-length ((k, n) ∷ m) path = ground (arith, off_path-length m path)

has-path : (k h : ℕ) (path : List ℕ) → has k (h ∷ path) ≡ (if h == k then true else has k path)
unfolding has
has-path k h path = ground arith

off_path-le :
    (m : Assoc ℕ PresentationNodeDef) (h : ℕ) (path : List ℕ)
    → off_path m (h ∷ path) ≤ off_path m path
off_path-le [] h path = omega arith
off_path-le ((k, n) ∷ m) h path = ground (arith, has-path k h path, off_path-le m h path)

pub off_path-less :
    (m : Assoc ℕ PresentationNodeDef) (h : ℕ) (n : PresentationNodeDef) (path : List ℕ)
    → lookup h m ≡ some n
    → has h path ≡ false
    → off_path m (h ∷ path) < off_path m path
unfolding lookup
off_path-less [] h n path is new = ground arith
off_path-less ((k, d) ∷ m) h n path is new = ground (
  arith,
  has-path k h path,
  off_path-le m h path,
  off_path-less m h n path,
  nat_eq.beq_iff k h,
  nat_eq.beq_iff h k,
  ap (λ j. has j path),
)
