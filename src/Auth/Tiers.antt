-- ===== src/Auth/Tiers.antt =====
-- The names of the tiers.
use text.Mathlib.TextEquality.{eq_iff}
use guardian_tracker.Prelude.{◌≡◌, some, String, string_eq, arith, ℤ}
use guardian_tracker.Auth.{role_name, parse_role}

-- A name that is accepted is the name of the tier that it stands for.
pub parse_role-role_name :
    (name : String) (role : ℤ) → parse_role name ≡ some role → role_name role ≡ name
unfolding parse_role role_name
parse_role-role_name name role h =
    ground (
      arith,
      h,
      eq_iff name "standard",
      eq_iff name "beta",
      eq_iff name "alpha",
      eq_iff name "admin",
    )
