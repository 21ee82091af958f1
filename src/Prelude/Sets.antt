-- ===== src/Prelude/Sets.antt =====
-- A Go map to empty structs, as the list of its keys.
use mathlib.Core.Path.{◌≡◌, refl, sym, ◌∙◌, subst}
use mathlib.Core.Logic.{inl, inr}
use mathlib.Core.Bool.{Bool, false, ◌||◌}
use mathlib.Core.List.{List, [], ◌∷◌, ◌++◌, map, Permᴰ}
use native.Mathlib.Omega.{arith}
use guardian_tracker.Prelude.Tests.{if◌then◌else◌, Bool-cases}
use guardian_tracker.Prelude.Keys.{Eq, ◌==◌}

module _ {ℓ} {A : Type ℓ} ⦃e : Eq A⦄ where
  unfoldable pub has : A → List A → Bool
  has a [] = false
  has a (x ∷ xs) = x == a || has a xs

  -- No element stands twice.
  abbrev pub AllDifferent : List A → Type 0
  AllDifferent [] = Unit {0}
  AllDifferent (x ∷ xs) = (has x xs ≡ false) × AllDifferent xs

  pub has-append : (a : A) (xs ys : List A) → has a (xs ++ ys) ≡ (has a xs || has a ys)
  unfolding has
  has-append a [] ys = refl
  has-append a (x ∷ xs) ys = ground (arith, has-append a xs ys)

  pub AllDifferent-snoc :
      (a : A) (xs : List A) → has a xs ≡ false → AllDifferent xs → AllDifferent (xs ++ a ∷ [])
  unfolding has
  AllDifferent-snoc a [] h d = (refl, tt)
  AllDifferent-snoc a (x ∷ xs) h d =
      ground (arith, AllDifferent-snoc a xs, has-append x xs (a ∷ []), e.beq_iff a x, e.beq_iff x a)

module _ {ℓ} {A : Type ℓ} ⦃e : Eq A⦄ where
  -- The loop that keeps the first of each element, in order; the set of those seen is the list kept.
  unfoldable pub dedupe_onto : List A → List A → List A
  unfolding has
  dedupe_onto kept [] = kept
  dedupe_onto kept (x ∷ xs) = dedupe_onto (if has x kept then kept else kept ++ x ∷ []) xs

  pub dedupe_onto-AllDifferent :
      (kept xs : List A) → AllDifferent kept → AllDifferent (dedupe_onto kept xs)
  unfolding dedupe_onto
  dedupe_onto-AllDifferent kept [] h = h
  dedupe_onto-AllDifferent kept (x ∷ xs) h = elim (Bool-cases (has x kept)) [
    | inl held ↦ rw held (dedupe_onto-AllDifferent kept xs h)
    | inr new ↦
        rw new (dedupe_onto-AllDifferent (kept ++ x ∷ []) xs (AllDifferent-snoc x kept new h))
  ]

  pub has-dedupe_onto :
      (kept xs : List A) (a : A) → has a (dedupe_onto kept xs) ≡ (has a kept || has a xs)
  unfolding dedupe_onto has
  has-dedupe_onto kept [] a = ground arith
  has-dedupe_onto kept (x ∷ xs) a = elim (Bool-cases (has x kept)) [
    | inl held ↦ rw held (ground (arith, held, has-dedupe_onto kept xs a, e.beq_iff x a))
    | inr new ↦ rw new (
        ground
          (arith, has-dedupe_onto (kept ++ x ∷ []) xs a, has-append a kept (x ∷ []), e.beq_iff x a))
  ]

module _ {ℓ κ} {A : Type ℓ} {K : Type κ} ⦃e : Eq K⦄ (key : A → K) where
  pub has-perm : {xs ys : List A} → Permᴰ xs ys → (k : K) → has k (map key xs) ≡ has k (map key ys)
  unfolding has
  has-perm Permᴰ.nil k = refl
  has-perm (Permᴰ.cons {a = a} {b = b} {l₁ = l₁} {l₂ = l₂} p d) k = rw (p, has-perm d k) refl
  has-perm (Permᴰ.swap {a = a} {b = b} {l = l} p q) k = rw (p, q) (ground arith)
  has-perm (Permᴰ.trans d₁ d₂) k = has-perm d₁ k ∙ has-perm d₂ k

  swapped : (x y : K) (ks : List K) → AllDifferent (x ∷ y ∷ ks) → AllDifferent (y ∷ x ∷ ks)
  unfolding has
  swapped x y ks h = ground (arith, e.beq_iff x y, e.beq_iff y x)

  pub AllDifferent-perm :
      {xs ys : List A} → Permᴰ xs ys → AllDifferent (map key xs) → AllDifferent (map key ys)
  unfolding has
  AllDifferent-perm Permᴰ.nil h = tt
  AllDifferent-perm (Permᴰ.cons {a = a} {b = b} p d) h =
      (sym (has-perm d (key b)) ∙ rw p at h.0, AllDifferent-perm d h.1)
  AllDifferent-perm (Permᴰ.swap {a = a} {b = b} {a' = a'} {b' = b'} {l = l} p q) h =
      subst (λ x. AllDifferent (key x ∷ key b' ∷ map key l)) q
        (subst (λ y. AllDifferent (key b ∷ key y ∷ map key l)) p
          (swapped (key a) (key b) (map key l) h))
  AllDifferent-perm (Permᴰ.trans d₁ d₂) h = AllDifferent-perm d₂ (AllDifferent-perm d₁ h)
