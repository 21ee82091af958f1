-- ===== src/RollTargets/Service/Resolve.antt =====
-- services/rolltargets/dimimport.go: the perks that a line of an imported wish list names, by their
-- hashes.
use guardian_tracker.Prelude.{
  ℕ, Bool, true, false, not, Option, none, some, List, [], ◌∷◌, ◌++◌, String, if◌then◌else◌, ◌==◌,
  nat_eq, string_eq, ltb, has, length, lookup, insert, Assoc, TextOps, is_some,
}
use guardian_tracker.Prelude.Results.{Result, ok, err, ◌>>=◌}
use guardian_tracker.RollTargets.Service.{
  TargetError, not_a_weapon, perks_unavailable, no_perks, too_many_perks, max_perks, PerkPlug,
  PerkColumn, PerkPool,
}

pub data UnresolvedPerkReason : Type 0 where
  not_in_pool ambiguous_plug not_a_weapon_perk : UnresolvedPerkReason

pub record UnresolvedPerk : Type 0 where
  pub hash : ℕ
  pub name : String
  pub reason : UnresolvedPerkReason

-- An error of `resolveDIMPerks`: one of the package's, or the perk that did not resolve.
pub data ResolveError : Type 0 where
  target_error : TargetError → ResolveError
  unresolved : UnresolvedPerk → ResolveError

-- the loops of `dimPerkIndex` over the columns and their plugs
unfoldable pub index_plugs : List PerkPlug → Assoc ℕ PerkPlug → Assoc ℕ PerkPlug
unfolding insert
index_plugs [] out = out
index_plugs (p ∷ ps) out =
    let with_base = if p.base == 0 then out else insert p.base p out in
    index_plugs ps (if p.enhanced == 0 then with_base else insert p.enhanced p with_base)

unfoldable pub index_columns : List PerkColumn → Assoc ℕ PerkPlug → Assoc ℕ PerkPlug
unfolding index_plugs
index_columns [] out = out
index_columns (c ∷ cs) out = index_columns cs (index_plugs c.plugs out)

unfoldable pub index_names : Assoc ℕ String → Assoc ℕ PerkPlug → Assoc ℕ PerkPlug
unfolding insert
index_names [] out = out
index_names ((h, name) ∷ names) out =
    index_names names
      (insert h (record { name = name; base = h; enhanced = 0; ambiguous = false }) out)

abbrev pub wildcard_index : Result String (Assoc ℕ String) → Result ResolveError (Assoc ℕ PerkPlug)
wildcard_index (err e) = err (target_error perks_unavailable)
wildcard_index (ok names) = ok (index_names names [])

abbrev pub weapon_index : Result String (List PerkColumn) → Result ResolveError (Assoc ℕ PerkPlug)
weapon_index (err e) = err (target_error perks_unavailable)
weapon_index (ok []) = err (target_error not_a_weapon)
weapon_index (ok (c ∷ cs)) = ok (index_columns (c ∷ cs) [])

unfoldable pub dim_perk_index :
    PerkPool → Option ℕ → List ℕ → Result ResolveError (Assoc ℕ PerkPlug)
unfolding index_names index_columns
dim_perk_index pool none hashes = wildcard_index (pool.plug_names hashes)
dim_perk_index pool (some item_hash) hashes = weapon_index (pool.get_weapon_perks item_hash)

-- The names that an any-weapon roll is checked against; a roll on a weapon has none.
abbrev pub weapon_names :
    Option ℕ
    → Result String (Assoc String String)
    → Result ResolveError (Option (Assoc String String))
weapon_names (some item_hash) names = ok none
weapon_names none (err e) = err (target_error perks_unavailable)
weapon_names none (ok names) = ok (some names)

module _ (t : TextOps) where
  abbrev pub is_weapon_name : Option (Assoc String String) → String → Bool
  is_weapon_name none name = true
  is_weapon_name (some names) name = is_some (lookup (t.to_lower name) names)

  -- The check of one plug; an error ends the loop.
  abbrev pub plug_name :
      Option (Assoc String String) → ℕ → Option PerkPlug → Result ResolveError String
  plug_name names h none = err (unresolved (record { hash = h; name = ""; reason = not_in_pool }))
  plug_name names h (some plug) =
      if plug.ambiguous
      then err (unresolved (record { hash = h; name = plug.name; reason = ambiguous_plug }))
      else if not (is_weapon_name names plug.name)
      then err (unresolved (record { hash = h; name = plug.name; reason = not_a_weapon_perk }))
      else ok plug.name

  unfoldable pub resolve_hashes :
      Assoc ℕ PerkPlug
      → Option (Assoc String String)
      → List String
      → List ℕ
      → Result ResolveError (List String)
  unfolding lookup has
  resolve_hashes by_hash names out [] = ok out
  resolve_hashes by_hash names out (h ∷ hs) = elim (plug_name names h (lookup h by_hash)) [
    | err e ↦ err e
    | ok name ↦ resolve_hashes by_hash names (if has name out then out else out ++ name ∷ []) hs
  ]

  abbrev pub within_limits : List String → Result ResolveError (List String)
  within_limits [] = err (target_error no_perks)
  within_limits (p ∷ ps) =
      if ltb max_perks (length (p ∷ ps)) then err (target_error too_many_perks) else ok (p ∷ ps)

  unfoldable pub resolve_dim_perks :
      PerkPool → Option ℕ → List ℕ → Result ResolveError (List String)
  unfolding dim_perk_index resolve_hashes
  resolve_dim_perks pool item_hash hashes = dim_perk_index pool item_hash hashes >>= (λ by_hash.
      weapon_names item_hash pool.weapon_perk_names
      >>= (λ names. resolve_hashes by_hash names [] hashes >>= within_limits))
