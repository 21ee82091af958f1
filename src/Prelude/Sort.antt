-- ===== src/Prelude/Sort.antt =====
-- A stable sort by a test for "comes before": `sort.SliceStable`, as an insertion sort.
use mathlib.Core.Path.{◌≡◌, refl, ◌∙◌}
use mathlib.Core.Logic.{◌⊎◌, inl, inr}
use mathlib.Core.Bool.{Bool, true, false, not}
use mathlib.Core.List.{List, [], ◌∷◌, map}
use mathlib.Core.List.Permᴰ
use mathlib.Core.List.{Permᴰ}
use native.Mathlib.Omega.{arith}
use guardian_tracker.Prelude.Tests.{if◌then◌else◌, Bool-cases}

module _ {ℓ} {A : Type ℓ} (less : A → A → Bool) where
  -- in front of the first element that does not come before it, so equal elements keep their order
  unfoldable pub insert_sorted : A → List A → List A
  insert_sorted a [] = a ∷ []
  insert_sorted a (x ∷ xs) =
      let rest = insert_sorted a xs in if less x a then x ∷ rest else a ∷ x ∷ xs

  unfoldable pub sort_stable : List A → List A
  unfolding insert_sorted
  sort_stable [] = []
  sort_stable (x ∷ xs) = insert_sorted x (sort_stable xs)

  -- No element comes before one that stands ahead of it.
  abbrev pub NoneBefore : A → List A → Type 0
  NoneBefore a [] = Unit {0}
  NoneBefore a (x ∷ xs) = (less x a ≡ false) × NoneBefore a xs

  abbrev pub IsSorted : List A → Type 0
  IsSorted [] = Unit {0}
  IsSorted (x ∷ xs) = NoneBefore x xs × IsSorted xs

module _ {ℓ} {A : Type ℓ} (less : A → A → Bool) where
  pub insert_sorted-perm : (a : A) (xs : List A) → Permᴰ (insert_sorted less a xs) (a ∷ xs)
  unfolding insert_sorted
  insert_sorted-perm a [] = Permᴰ.cons refl Permᴰ.nil
  insert_sorted-perm a (x ∷ xs) = elim (Bool-cases (less x a)) [
    | inl first ↦
        rw first (Permᴰ.trans (Permᴰ.cons refl (insert_sorted-perm a xs)) (Permᴰ.swap refl refl))
    | inr last ↦ rw last (Permᴰ.refl (a ∷ x ∷ xs))
  ]

  pub sort_stable-perm : (xs : List A) → Permᴰ (sort_stable less xs) xs
  unfolding sort_stable
  sort_stable-perm [] = Permᴰ.nil
  sort_stable-perm (x ∷ xs) =
      Permᴰ.trans (insert_sorted-perm x (sort_stable less xs))
        (Permᴰ.cons refl (sort_stable-perm xs))

-- `less` is a strict weak order.
pub record IsOrder {ℓ} {A : Type ℓ} (less : A → A → Bool) : Type ℓ where
  pub asym : (a b : A) → less a b ≡ true → less b a ≡ false
  pub trans : (a b c : A) → less a b ≡ true → less b c ≡ true → less a c ≡ true
  pub cotrans : (a b c : A) → less b a ≡ false → less c b ≡ false → less c a ≡ false

module _ {ℓ} {A : Type ℓ} {less : A → A → Bool} (o : IsOrder less) where
  pub NoneBefore-insert_sorted :
      (a x : A) (xs : List A)
      → less a x ≡ false
      → NoneBefore less x xs
      → NoneBefore less x (insert_sorted less a xs)
  unfolding insert_sorted
  NoneBefore-insert_sorted a x [] h n = (h, tt)
  NoneBefore-insert_sorted a x (y ∷ ys) h n = ground (arith, NoneBefore-insert_sorted a x ys h n.1)

  NoneBefore-trans :
      (a x : A) (xs : List A) → less x a ≡ false → NoneBefore less x xs → NoneBefore less a xs
  NoneBefore-trans a x [] h n = tt
  NoneBefore-trans a x (y ∷ ys) h n = (o.cotrans a x y h n.0, NoneBefore-trans a x ys h n.1)

  insert_sorted-IsSorted :
      (a : A) (xs : List A) → IsSorted less xs → IsSorted less (insert_sorted less a xs)
  unfolding insert_sorted
  insert_sorted-IsSorted a [] s = (tt, tt)
  insert_sorted-IsSorted a (x ∷ xs) s = ground (
    arith,
    insert_sorted-IsSorted a xs s.1,
    NoneBefore-insert_sorted a x xs,
    o.asym a x,
    NoneBefore-trans a x xs,
  )

  pub sort_stable-IsSorted : (xs : List A) → IsSorted less (sort_stable less xs)
  unfolding sort_stable
  sort_stable-IsSorted [] = tt
  sort_stable-IsSorted (x ∷ xs) =
      insert_sorted-IsSorted x (sort_stable less xs) (sort_stable-IsSorted xs)

  -- Two elements that are told apart may be inserted in either order.
  pub insert_sorted_comm :
      (a b : A) (xs : List A)
      → (less a b ≡ not (less b a))
      → insert_sorted less a (insert_sorted less b xs)
        ≡ insert_sorted less b (insert_sorted less a xs)
  unfolding insert_sorted
  insert_sorted_comm a b [] apart = ground arith
  insert_sorted_comm a b (x ∷ xs) apart =
      ground (arith, insert_sorted_comm a b xs apart, o.trans x a b, o.trans x b a)

-- Two lists of the same elements are sorted to one list, where unlike elements are told apart.
module _ {ℓ} {A : Type ℓ} {less : A → A → Bool} (o : IsOrder less)
    (apart : (a b : A) → (a ≡ b) ⊎ (less a b ≡ not (less b a))) where
  swap_inserts :
      (a b : A) (xs : List A)
      → insert_sorted less a (insert_sorted less b xs)
        ≡ insert_sorted less b (insert_sorted less a xs)
  swap_inserts a b xs = elim (apart a b) [
    | inl same ↦ rw same refl
    | inr h ↦ insert_sorted_comm o a b xs h
  ]

  pub sort_stable_unique {κ} :
      {B : Type κ} (key : B → A) {xs ys : List B}
      → Permᴰ xs ys
      → sort_stable less (map key xs) ≡ sort_stable less (map key ys)
  unfolding sort_stable
  sort_stable_unique key Permᴰ.nil = refl
  sort_stable_unique key (Permᴰ.cons {a = a} {b = b} p d) =
      λ i. insert_sorted less (key (p i)) (sort_stable_unique key d i)
  sort_stable_unique key (Permᴰ.swap {a = a} {b = b} {a' = a'} {b' = b'} {l = l} p q) =
      rw (p, q) (swap_inserts _ _ (sort_stable less (map key l)))
  sort_stable_unique key (Permᴰ.trans d₁ d₂) = sort_stable_unique key d₁ ∙ sort_stable_unique key d₂
