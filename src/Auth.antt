-- ===== src/Auth.antt =====
-- auth/roles.go: the tiers and the gates in front of the handlers. A gate's answer is the status and the
-- code that it would send, or that the request goes on.
pub mod Revocation
pub mod Tiers
pub mod Tokens
use guardian_tracker.Prelude.{
  ℕ, Bool, true, false, Option, none, some, String, if◌then◌else◌, ◌==◌, string_eq, int_eq, ℤ, pos,
  negsuc, ltb, leb, not,
}
use guardian_tracker.Prelude.Results.{Result, ok, err}

abbrev pub role_standard : ℤ
role_standard = pos 0

abbrev pub role_beta : ℤ
role_beta = pos 1

abbrev pub role_alpha : ℤ
role_alpha = pos 2

abbrev pub role_admin : ℤ
role_admin = pos 3

unfoldable pub role_name : ℤ → String
role_name role =
    if role == role_standard
    then "standard"
    else if role == role_beta
    then "beta"
    else if role == role_alpha
    then "alpha"
    else if role == role_admin
    then "admin"
    else "standard"

unfoldable pub parse_role : String → Option ℤ
parse_role name =
    if name == "standard"
    then some role_standard
    else if name == "beta"
    then some role_beta
    else if name == "alpha"
    then some role_alpha
    else if name == "admin"
    then some role_admin
    else none

pub data Gate : Type 0 where
  next db_unavailable tier_locked forbidden feature_disabled : Gate

-- `a < b`
abbrev pub below : ℤ → ℤ → Bool
below (pos a) (pos b) = ltb a b
below (pos a) (negsuc b) = false
below (negsuc a) (pos b) = true
below (negsuc a) (negsuc b) = ltb b a

unfoldable pub require_tier : Bool → ℤ → ℤ → Gate
require_tier enabled min_tier role =
    if not enabled
    then db_unavailable
    else if below role min_tier
    then (if not (below min_tier role_admin) then forbidden else tier_locked)
    else next

unfoldable pub require_admin : Bool → ℤ → Gate
unfolding require_tier
require_admin enabled role = require_tier enabled role_admin role

-- what `FlagResolver.Resolve` answers: the flag, that it is not there, or an error
pub record Flag : Type 0 where
  pub enabled : Bool
  pub min_tier : ℤ

abbrev pub flag_gate : ℤ → Flag → Gate
flag_gate role flag =
    if not flag.enabled
    then feature_disabled
    else if below role flag.min_tier
    then tier_locked
    else next

-- no resolver, an error and an unknown flag let the request through
unfoldable pub require_flag {ℓ} :
    {E : Type ℓ} → Option (String → Result E (Option Flag)) → String → ℤ → Gate
require_flag none key role = next
require_flag (some resolve) key role = elim (resolve key) [
  | err e ↦ next
  | ok found ↦ elim found [ none ↦ next | some flag ↦ flag_gate role flag ]
]
