-- ===== src/RollTargets/Service/Validation.antt =====
-- services/rolltargets/service.go: what the perks of a saved target are, and that their order in the
-- request does not matter.
use mathlib.Core.List.Permᴰ
use mathlib.Core.List.{Permᴰ}
use guardian_tracker.Prelude.{
  ℕ, suc, ◌≤◌, ◌≡◌, refl, Bool, true, false, Option, none, some, List, [], ◌∷◌, String,
  if◌then◌else◌, string_eq, nat_eq, Assoc, AllDifferent, length, TextOps, arith, Bool-cases, inl,
  inr, ◌==◌, subst, ltb,
}
use guardian_tracker.Prelude.Sort.{IsSorted}
use guardian_tracker.Prelude.TextOrder.{text_below}
use guardian_tracker.Prelude.Results.{Result, ok, err, ◌>>=◌, Result-cases}
use guardian_tracker.RollTargets.Service.{
  TargetError, PerkPool, canonical_names, cleaned, counted, validate_perks, validate_for,
  validate_any_weapon_perks, validate_weapon_perks, sorted, read_names, read_columns,
  unknown_perk_name, unknown_perk,
}
use guardian_tracker.RollTargets.Service.Names.{length-perm, accepted, accepted-valid}

-- A name that may be blank is kept in both lists or in none.
kept_or_blank-perm :
    (blank : Bool) (x : String) {xs ys : List String}
    → Permᴰ xs ys
    → Permᴰ (if blank then xs else x ∷ xs) (if blank then ys else x ∷ ys)
kept_or_blank-perm true x d = d
kept_or_blank-perm false x d = Permᴰ.cons refl d

kept_or_blank-swap :
    (b c : Bool) (x y : String) (l : List String)
    → Permᴰ
        (if b then (if c then l else y ∷ l) else x ∷ (if c then l else y ∷ l))
        (if c then (if b then l else x ∷ l) else y ∷ (if b then l else x ∷ l))
kept_or_blank-swap true true x y l = Permᴰ.refl l
kept_or_blank-swap true false x y l = Permᴰ.refl (y ∷ l)
kept_or_blank-swap false true x y l = Permᴰ.refl (x ∷ l)
kept_or_blank-swap false false x y l = Permᴰ.swap refl refl

module _ (t : TextOps) where
  cleaned-perm : {xs ys : List String} → Permᴰ xs ys → Permᴰ (cleaned t xs) (cleaned t ys)
  unfolding cleaned
  cleaned-perm Permᴰ.nil = Permᴰ.nil
  cleaned-perm (Permᴰ.cons {a = a} {b = b} {l₁ = l₁} {l₂ = l₂} p d) =
      rw p (kept_or_blank-perm (t.trim_space b == "") (t.trim_space b) (cleaned-perm d))
  cleaned-perm (Permᴰ.swap {a = a} {b = b} {a' = a'} {b' = b'} {l = l} p q) =
      rw (p, q)
        (kept_or_blank-swap (t.trim_space b' == "") (t.trim_space a' == "") (t.trim_space b')
          (t.trim_space a') (cleaned t l))
  cleaned-perm (Permᴰ.trans d₁ d₂) = Permᴰ.trans (cleaned-perm d₁) (cleaned-perm d₂)

  counted_ok :
      (xs ys : List String) {out : List String}
      → length xs ≡ length ys
      → counted t xs ≡ ok out
      → (out ≡ xs) × (counted t ys ≡ ok ys) × (1 ≤ length xs) × (length xs ≤ 10)
  counted_ok [] ys l h = absurd (cc h)
  counted_ok (x ∷ xs) [] l h = absurd (omega (arith, l))
  counted_ok (x ∷ xs) (y ∷ ys) l h = elim (Bool-cases (ltb 10 (suc (length xs)))) [
    | inl many ↦ absurd (cc (rw many at h))
    | inr few ↦ (cc (rw few at h), ground (arith, l), omega arith, ground arith)
  ]

  -- The names that a pool knows, read or not.
  abbrev lookups :
      Result TargetError (Assoc String String)
      → TargetError
      → List String
      → Result TargetError (List String)
  lookups read missing xs = read >>= (λ names. sorted t (canonical_names t missing names [] xs))

  lookups-perm :
      (read : Result TargetError (Assoc String String)) (missing : TargetError)
      (xs ys out : List String)
      → Permᴰ xs ys
      → lookups read missing xs ≡ ok out
      → lookups read missing ys ≡ ok out
  lookups-perm (ok names) missing xs ys out d h = accepted t names missing xs ys out d h
  lookups-perm (err e) missing xs ys out d h = absurd (cc h)

  lookups-valid :
      (read : Result TargetError (Assoc String String)) (missing : TargetError)
      (xs out : List String)
      → lookups read missing xs ≡ ok out
      → IsSorted text_below out × AllDifferent out × (length out ≡ length xs)
  lookups-valid (ok names) missing xs out h = accepted-valid t names missing xs out h
  lookups-valid (err e) missing xs out h = absurd (cc h)

  module _ (pool : PerkPool) where
    validate_for-perm :
        (item_hash : Option ℕ) (xs ys out : List String)
        → Permᴰ xs ys
        → validate_for t pool item_hash xs ≡ ok out
        → validate_for t pool item_hash ys ≡ ok out
    unfolding validate_any_weapon_perks validate_weapon_perks
    validate_for-perm none xs ys out d h =
        lookups-perm (read_names t pool.weapon_perk_names) unknown_perk_name xs ys out d h
    validate_for-perm (some item_hash) xs ys out d h =
        lookups-perm (read_columns t (pool.get_weapon_perks item_hash)) unknown_perk xs ys out d h

    validate_for-valid :
        (item_hash : Option ℕ) (xs out : List String)
        → validate_for t pool item_hash xs ≡ ok out
        → IsSorted text_below out × AllDifferent out × (length out ≡ length xs)
    unfolding validate_any_weapon_perks validate_weapon_perks
    validate_for-valid none xs out h =
        lookups-valid (read_names t pool.weapon_perk_names) unknown_perk_name xs out h
    validate_for-valid (some item_hash) xs out h =
        lookups-valid (read_columns t (pool.get_weapon_perks item_hash)) unknown_perk xs out h

    -- A target is stored with the same perks, whatever the order in which a request names them.
    pub validate_perks-perm :
        (item_hash : Option ℕ) (xs ys out : List String)
        → Permᴰ xs ys
        → validate_perks t pool item_hash xs ≡ ok out
        → validate_perks t pool item_hash ys ≡ ok out
    unfolding validate_perks
    validate_perks-perm item_hash xs ys out d h = elim (Result-cases (counted t (cleaned t xs))) [
      | inr (e, failed) ↦ absurd (cc (rw failed at h))
      | inl (kept, fine) ↦
          let clean = cleaned-perm d in
          let (same, fine', low, high) =
            counted_ok (cleaned t xs) (cleaned t ys) (length-perm clean) fine in
          rw fine' (
            validate_for-perm item_hash (cleaned t xs) (cleaned t ys) out clean
              (subst (λ l. validate_for t pool item_hash l ≡ ok out) same (rw fine at h)))
    ]

    -- The perks that a target is stored with are in ascending order, all different, and between 1 and
    -- 10 of them.
    pub validate_perks-IsSorted :
        (item_hash : Option ℕ) (xs out : List String)
        → validate_perks t pool item_hash xs ≡ ok out
        → IsSorted text_below out × AllDifferent out × (1 ≤ length out) × (length out ≤ 10)
    unfolding validate_perks
    validate_perks-IsSorted item_hash xs out h = elim (Result-cases (counted t (cleaned t xs))) [
      | inr (e, failed) ↦ absurd (cc (rw failed at h))
      | inl (kept, fine) ↦
          let (same, _, low, high) = counted_ok (cleaned t xs) (cleaned t xs) refl fine in
          let (sorted, apart, l) =
            validate_for-valid item_hash (cleaned t xs) out
              (subst (λ l. validate_for t pool item_hash l ≡ ok out) same (rw fine at h)) in
          (sorted, apart, omega (arith, l), omega (arith, l))
    ]
