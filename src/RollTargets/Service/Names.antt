-- ===== src/RollTargets/Service/Names.antt =====
-- services/rolltargets/service.go: the loop that looks up the names of a request.
use mathlib.Core.List.Permᴰ
use mathlib.Core.List.{Permᴰ, append_assoc, append-nil, map-id}
use guardian_tracker.Prelude.{
  suc, ◌≡◌, refl, sym, ap, ◌∙◌, Bool, true, false, ◌&&◌, Option, none, some, List, [], ◌∷◌, ◌++◌,
  map, String, string_eq, nat_eq, has, lookup, Assoc, AllDifferent, AllDifferent-snoc,
  AllDifferent-perm, length, length-map, TextOps, arith, Bool-cases, Option-cases, inl, inr,
  is_some, has-append, subst,
}
use guardian_tracker.Prelude.Sort.{
  sort_stable, sort_stable-perm, sort_stable_unique, sort_stable-IsSorted, IsSorted,
}
use guardian_tracker.Prelude.TextOrder.{text_below, text_below-IsOrder, text_below_apart}
use guardian_tracker.Prelude.Results.{ok, Result-cases}
use guardian_tracker.RollTargets.Service.{TargetError, canonical_names, sorted}

-- A name that stands behind others and differs from all is not among them.
head_new :
    (kept rest : List String) (c : String) → AllDifferent (kept ++ c ∷ rest) → has c kept ≡ false
unfolding has
head_new [] rest c d = refl
head_new (x ∷ kept) rest c d = ground (
  arith,
  has-append x kept (c ∷ rest),
  head_new kept rest c d.1,
  string_eq.beq_iff x c,
  string_eq.beq_iff c c,
)

sorted-AllDifferent :
    (xs : List String) → AllDifferent xs → AllDifferent (sort_stable text_below xs)
sorted-AllDifferent xs d =
    subst (λ l. AllDifferent l) (map-id _)
      (AllDifferent-perm (λ x. x) (Permᴰ.symm (sort_stable-perm text_below xs))
        (subst (λ l. AllDifferent l) (sym (map-id xs)) d))

pub length-perm {ℓ} : {A : Type ℓ} {xs ys : List A} → Permᴰ xs ys → length xs ≡ length ys
length-perm Permᴰ.nil = refl
length-perm (Permᴰ.cons p d) = ap suc (length-perm d)
length-perm (Permᴰ.swap p q) = refl
length-perm (Permᴰ.trans d₁ d₂) = length-perm d₁ ∙ length-perm d₂

module _ (t : TextOps) (names : Assoc String String) where
  -- The name that the manifest writes for one of the request, or an empty text.
  abbrev or_blank : Option String → String
  or_blank none = ""
  or_blank (some c) = c

  abbrev canonical : String → String
  canonical p = or_blank (lookup (t.to_lower p) names)

  unfoldable pub all_known : List String → Bool
  all_known [] = true
  all_known (p ∷ ps) = is_some (lookup (t.to_lower p) names) && all_known ps

  canonical_names-ok :
      (missing : TargetError) (kept ps : List String)
      → all_known ps ≡ true
      → AllDifferent (kept ++ map canonical ps)
      → canonical_names t missing names kept ps ≡ ok (kept ++ map canonical ps)
  unfolding canonical_names all_known
  canonical_names-ok missing kept [] h d = rw append-nil refl
  canonical_names-ok missing kept (p ∷ ps) h d = elim (Option-cases (lookup (t.to_lower p) names)) [
    | inl e ↦ absurd (ground (arith, e))
    | inr (c, e) ↦
        let regroup = append_assoc kept (c ∷ []) (map canonical ps) in
        let known : all_known ps ≡ true = ground (arith, e) in
        let apart : AllDifferent (kept ++ c ∷ map canonical ps) =
          subst (λ x. AllDifferent (kept ++ or_blank x ∷ map canonical ps)) e d in
        rw (e, canonical_names, head_new kept (map canonical ps) c apart)
          (canonical_names-ok missing (kept ++ c ∷ []) ps known
              (subst (λ l. AllDifferent l) (sym regroup) apart)
            ∙ ap ok regroup)
  ]

  canonical_names-known :
      (missing : TargetError) (kept ps out : List String)
      → canonical_names t missing names kept ps ≡ ok out
      → AllDifferent kept
      → (all_known ps ≡ true) × AllDifferent out × (out ≡ kept ++ map canonical ps)
  unfolding canonical_names all_known
  canonical_names-known missing kept [] out h d =
      let same : kept ≡ out = cc in
      (refl, subst (λ l. AllDifferent l) same d, sym same ∙ sym (append-nil kept))
  canonical_names-known missing kept (p ∷ ps) out h d =
      elim (Option-cases (lookup (t.to_lower p) names)) [
        | inl e ↦ absurd (cc (rw (canonical_names, e) at h))
        | inr (c, e) ↦ elim (Bool-cases (has c kept)) [
          | inl held ↦ absurd (cc (rw (canonical_names, e, held) at h))
          | inr new ↦
              let (known, apart, whole) =
                canonical_names-known missing (kept ++ c ∷ []) ps out
                  (rw (canonical_names, e, new) at h) (AllDifferent-snoc c kept new d) in
              (
                ground (arith, e),
                apart,
                whole ∙ append_assoc kept (c ∷ []) (map canonical ps) ∙ rw e refl,
              )
        ]
      ]

  all_known-perm : {xs ys : List String} → Permᴰ xs ys → all_known xs ≡ all_known ys
  unfolding all_known
  all_known-perm Permᴰ.nil = refl
  all_known-perm (Permᴰ.cons p d) = rw (p, all_known-perm d) refl
  all_known-perm (Permᴰ.swap p q) = rw (p, q) (ground arith)
  all_known-perm (Permᴰ.trans d₁ d₂) = all_known-perm d₁ ∙ all_known-perm d₂

  -- The order of the names does not matter to what is stored.
  pub accepted :
      (missing : TargetError) (xs ys out : List String)
      → Permᴰ xs ys
      → sorted t (canonical_names t missing names [] xs) ≡ ok out
      → sorted t (canonical_names t missing names [] ys) ≡ ok out
  unfolding sort_stable
  accepted missing xs ys out d h = elim (Result-cases (canonical_names t missing names [] xs)) [
    | inr (e, failed) ↦ absurd (cc (rw failed at h))
    | inl (found, eq) ↦
        let (known, apart, whole) = canonical_names-known missing [] xs found eq tt in
        rw
          (canonical_names-ok missing [] ys (sym (all_known-perm d) ∙ known)
            (AllDifferent-perm canonical d (subst (λ l. AllDifferent l) whole apart)))
          (ap ok (
              sym (sort_stable_unique text_below-IsOrder text_below_apart canonical d)
              ∙ ap (sort_stable text_below) (sym whole))
            ∙ rw eq at h)
  ]

  pub accepted-valid :
      (missing : TargetError) (xs out : List String)
      → sorted t (canonical_names t missing names [] xs) ≡ ok out
      → IsSorted text_below out × AllDifferent out × (length out ≡ length xs)
  unfolding sort_stable
  accepted-valid missing xs out h = elim (Result-cases (canonical_names t missing names [] xs)) [
    | inr (e, failed) ↦ absurd (cc (rw failed at h))
    | inl (found, eq) ↦
        let (known, apart, whole) = canonical_names-known missing [] xs found eq tt in
        let result : sort_stable text_below found ≡ out = cc (rw eq at h) in
        (
          subst (λ l. IsSorted text_below l) result (sort_stable-IsSorted text_below-IsOrder found),
          subst (λ l. AllDifferent l) result (sorted-AllDifferent found apart),
          ap length (sym result)
              ∙ length-perm (sort_stable-perm text_below found)
              ∙ ap length whole
              ∙ length-map xs canonical,
        )
  ]
