-- ===== src/RollTargets/Service.antt =====
-- services/rolltargets/rolltargets.go and service.go: the errors, the commands, the port to the store
-- and the service that checks a target against the weapon's perks before it saves it. The store is a
-- record of operations on a state; `PerkPool` holds the answers of the manifest, and `parse_uuid` is the
-- parser of the uuid library, `none` for an error.
pub mod Names
pub mod Validation
pub mod Store
pub mod Port
pub mod Resolve
pub mod Import
use Prim.Native.String.{count}
use guardian_tracker.Prelude.{
  ℕ, ◌-◌, Bool, true, false, Option, none, some, List, [], ◌∷◌, ◌++◌, String, if◌then◌else◌, ◌==◌,
  nat_eq, int_eq, string_eq, ltb, ℤ, pos, negsuc, has, length, TextOps, Assoc, lookup, insert,
  dedupe_onto,
}
use guardian_tracker.Prelude.Sort.{sort_stable}
use guardian_tracker.Prelude.TextOrder.{text_below}
use guardian_tracker.Prelude.Results.{Result, ok, err, ◌>>=◌}
use guardian_tracker.RollTargets.{StoredTarget}

pub data TargetError : Type 0 where
  unavailable not_found duplicate no_perks too_many_perks duplicate_perk notes_too_long :
      TargetError
  import_title_too_long invalid_import_id not_a_weapon unknown_perk_name unknown_perk : TargetError
  perks_unavailable no_targets too_many_targets : TargetError
  other : String → TargetError

abbrev pub max_perks : ℕ
max_perks = 10

abbrev pub max_note_runes : ℕ
max_note_runes = 500

abbrev pub max_import_title_runes : ℕ
max_import_title_runes = 500

abbrev pub max_bulk_targets : ℕ
max_bulk_targets = 100

pub record BulkResult : Type 0 where
  pub deleted : ℕ
  pub skipped : ℕ

pub record AddCommand : Type 0 where
  pub import_id : String
  pub import_title : String
  pub item_hash : Option ℕ
  pub wanted : Bool
  pub perks : List String
  pub notes : String

pub record UpdateCommand : Type 0 where
  pub perks : Option (List String)
  pub notes : Option String

pub record PerkPlug : Type 0 where
  pub name : String
  pub base : ℕ
  pub enhanced : ℕ
  pub ambiguous : Bool

pub record PerkColumn : Type 0 where
  pub socket_index : ℤ
  pub role : String
  pub label : String
  pub perks : List String
  pub plugs : List PerkPlug

-- What the manifest answers; an error carries its text.
pub record PerkPool : Type 0 where
  pub get_weapon_perks : ℕ → Result String (List PerkColumn)
  pub plug_names : List ℕ → Result String (Assoc ℕ String)
  pub weapon_perk_names : Result String (Assoc String String)

-- The port to persistence, over the states of a store.
pub record Repository {ℓ} (S : Type ℓ) : Type ℓ where
  pub list : S → String → Result TargetError (List StoredTarget)
  pub add : S → String → AddCommand → Result TargetError StoredTarget × S
  pub update : S → String → ℤ → UpdateCommand → Result TargetError StoredTarget × S
  pub remove : S → String → ℤ → Option TargetError × S
  pub remove_many : S → String → List ℤ → Result TargetError ℤ × S
  pub remove_all : S → String → Result TargetError ℤ × S
  pub remove_import : S → String → String → Result TargetError ℤ × S

unfoldable pub find_in : ℤ → List StoredTarget → Result TargetError StoredTarget
find_in id [] = err not_found
find_in id (t ∷ ts) = if t.id == id then ok t else find_in id ts

unfoldable pub validate_notes : String → Option TargetError
validate_notes notes = if ltb max_note_runes (count notes) then some notes_too_long else none

abbrev pub checked_ids : List ℤ → Result TargetError (List ℤ)
checked_ids [] = err no_targets
checked_ids (id ∷ ids) =
    if ltb max_bulk_targets (length (id ∷ ids)) then err too_many_targets else ok (id ∷ ids)

unfoldable pub bulk_target_ids : List ℤ → Result TargetError (List ℤ)
unfolding dedupe_onto
bulk_target_ids ids = checked_ids (dedupe_onto [] ids)

-- A count is never negative: a negative answer of the store counts as 0.
abbrev pub at_least_0 : ℤ → ℕ
at_least_0 (pos n) = n
at_least_0 (negsuc n) = 0

unfoldable pub bulk_target_result : List ℤ → ℤ → BulkResult
bulk_target_result requested affected = record {
  deleted = at_least_0 affected;
  skipped = length requested - at_least_0 affected;
}

abbrev pub bulk_outcome {ℓ} :
    {S : Type ℓ} → List ℤ → Result TargetError ℤ × S → Result TargetError BulkResult × S
bulk_outcome unique (removed, s) = (removed >>= (λ n. ok (bulk_target_result unique n)), s)

module _ (t : TextOps) where
  abbrev pub add_nonblank : String → List String → List String
  add_nonblank p rest = if p == "" then rest else p ∷ rest

  unfoldable pub cleaned : List String → List String
  cleaned [] = []
  cleaned (p ∷ ps) = add_nonblank (t.trim_space p) (cleaned ps)

  -- The loop that looks up each name; `kept` are the names found so far, which are also those seen.
  unfoldable pub canonical_names :
      TargetError
      → Assoc String String
      → List String
      → List String
      → Result TargetError (List String)
  unfolding lookup has
  canonical_names missing names kept [] = ok kept
  canonical_names missing names kept (p ∷ ps) = elim (lookup (t.to_lower p) names) [
    | none ↦ err missing
    | some canonical ↦
        if has canonical kept
        then err duplicate_perk
        else canonical_names missing names (kept ++ canonical ∷ []) ps
  ]

  abbrev pub sorted : Result TargetError (List String) → Result TargetError (List String)
  sorted r = r >>= (λ out. ok (sort_stable text_below out))

  -- the loops of `pool` over the columns and their perks
  unfoldable pub add_names : List String → Assoc String String → Assoc String String
  unfolding insert
  add_names [] names = names
  add_names (p ∷ ps) names = add_names ps (insert (t.to_lower p) p names)

  unfoldable pub pool_names : List PerkColumn → Assoc String String → Assoc String String
  unfolding add_names
  pool_names [] names = names
  pool_names (c ∷ cs) names = pool_names cs (add_names c.perks names)

  abbrev pub some_names : Assoc String String → Result TargetError (Assoc String String)
  some_names [] = err not_a_weapon
  some_names (n ∷ ns) = ok (n ∷ ns)

  abbrev pub read_columns :
      Result String (List PerkColumn) → Result TargetError (Assoc String String)
  read_columns (err e) = err perks_unavailable
  read_columns (ok []) = err not_a_weapon
  read_columns (ok (c ∷ cs)) = some_names (pool_names (c ∷ cs) [])

  abbrev pub read_names :
      Result String (Assoc String String) → Result TargetError (Assoc String String)
  read_names (err e) = err perks_unavailable
  read_names (ok names) = ok names

  abbrev pub counted : List String → Result TargetError (List String)
  counted [] = err no_perks
  counted (p ∷ ps) = if ltb max_perks (length (p ∷ ps)) then err too_many_perks else ok (p ∷ ps)

  module _ (pool : PerkPool) where
    unfoldable pub validate_any_weapon_perks : List String → Result TargetError (List String)
    unfolding canonical_names sort_stable
    validate_any_weapon_perks perks =
        read_names pool.weapon_perk_names
        >>= (λ names. sorted (canonical_names unknown_perk_name names [] perks))

    unfoldable pub validate_weapon_perks : ℕ → List String → Result TargetError (List String)
    unfolding canonical_names sort_stable pool_names
    validate_weapon_perks item_hash perks =
        read_columns (pool.get_weapon_perks item_hash)
        >>= (λ names. sorted (canonical_names unknown_perk names [] perks))

    abbrev pub validate_for : Option ℕ → List String → Result TargetError (List String)
    validate_for none perks = validate_any_weapon_perks perks
    validate_for (some item_hash) perks = validate_weapon_perks item_hash perks

    unfoldable pub validate_perks : Option ℕ → List String → Result TargetError (List String)
    unfolding cleaned validate_any_weapon_perks validate_weapon_perks
    validate_perks item_hash perks = counted (cleaned perks) >>= validate_for item_hash

    module _ {ℓ} {S : Type ℓ} (repo : Repository S) where
      -- `add`; the service's `Add` clears the provenance first
      unfoldable pub add_validated : S → String → AddCommand → Result TargetError StoredTarget × S
      unfolding validate_perks validate_notes
      add_validated s membership_id cmd = elim (validate_perks cmd.item_hash cmd.perks) [
        | err e ↦ (err e, s)
        | ok perks ↦ elim (validate_notes cmd.notes) [
          | some e ↦ (err e, s)
          | none ↦ repo.add s membership_id (record cmd { perks = perks })
        ]
      ]

      unfoldable pub add : S → String → AddCommand → Result TargetError StoredTarget × S
      unfolding add_validated
      add s membership_id cmd =
          add_validated s membership_id (record cmd { import_id = ""; import_title = "" })

      unfoldable pub find : S → String → ℤ → Result TargetError StoredTarget
      unfolding find_in
      find s membership_id id = repo.list s membership_id >>= find_in id

      abbrev pub notes_checked : Option String → Option TargetError
      notes_checked none = none
      notes_checked (some notes) = validate_notes notes

      abbrev pub perks_checked :
          S → String → ℤ → Option (List String) → Result TargetError (Option (List String))
      perks_checked s membership_id id none = ok none
      perks_checked s membership_id id (some perks) =
          find s membership_id id
          >>= (λ current. validate_perks current.item_hash perks >>= (λ valid. ok (some valid)))

      abbrev pub apply_patch :
          S → String → ℤ → UpdateCommand → Option TargetError → Result TargetError StoredTarget × S
      apply_patch s membership_id id patch (some e) = (err e, s)
      apply_patch s membership_id id patch none =
          elim (perks_checked s membership_id id patch.perks) [
            | err e ↦ (err e, s)
            | ok perks ↦ repo.update s membership_id id (record patch { perks = perks })
          ]

      abbrev pub is_empty_patch : UpdateCommand → Bool
      is_empty_patch patch = elim patch.perks [
        | some _ ↦ false
        | none ↦ elim patch.notes [ none ↦ true | some _ ↦ false ]
      ]

      unfoldable pub update : S → String → ℤ → UpdateCommand → Result TargetError StoredTarget × S
      unfolding find validate_perks validate_notes
      update s membership_id id patch =
          if is_empty_patch patch
          then (find s membership_id id, s)
          else apply_patch s membership_id id patch (notes_checked patch.notes)

      unfoldable pub delete_many : S → String → List ℤ → Result TargetError BulkResult × S
      unfolding bulk_target_ids bulk_target_result
      delete_many s membership_id ids = elim (bulk_target_ids ids) [
        | err e ↦ (err e, s)
        | ok unique ↦ bulk_outcome unique (repo.remove_many s membership_id unique)
      ]

      -- the nil id of the uuid library is refused as an error of its parser is
      unfoldable pub delete_import :
          (String → Option String) → S → String → String → Result TargetError ℤ × S
      delete_import parse_uuid s membership_id id = elim (parse_uuid id) [
        | none ↦ (err invalid_import_id, s)
        | some parsed ↦
            if parsed == "00000000-0000-0000-0000-000000000000"
            then (err invalid_import_id, s)
            else repo.remove_import s membership_id parsed
      ]
