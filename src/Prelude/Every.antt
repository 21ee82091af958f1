-- ===== src/Prelude/Every.antt =====
-- A predicate that holds of every element of a list.
use mathlib.Core.Path.{sym, subst}
use mathlib.Core.List.{List, [], ◌∷◌, ◌++◌, Permᴰ}

abbrev pub Every {ℓ κ} : {A : Type ℓ} → (A → Type κ) → List A → Type κ
Every P [] = Unit
Every P (a ∷ xs) = P a × Every P xs

pub Every-perm {ℓ κ} :
    {A : Type ℓ} (P : A → Type κ) {xs bs : List A} → Permᴰ xs bs → Every P bs → Every P xs
Every-perm P Permᴰ.nil h = h
Every-perm P (Permᴰ.cons e p) (b, h) = (subst P (sym e) b, Every-perm P p h)
Every-perm P (Permᴰ.swap e e') (a, (b, h)) = (subst P (sym e) b, (subst P (sym e') a, h))
Every-perm P (Permᴰ.trans p q) h = Every-perm P p (Every-perm P q h)

pub Every-middle {ℓ κ} :
    {A : Type ℓ} (P : A → Type κ) (xs : List A) (a : A) (bs : List A) → Every P (xs ++ a ∷ bs) → P a
Every-middle P [] a bs (h, _) = h
Every-middle P (x ∷ xs) a bs (_, h) = Every-middle P xs a bs h
