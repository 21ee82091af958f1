-- ===== src/Prelude/Text.antt =====
-- The string functions of the language that the program calls. `ToLower` and `TrimSpace` follow tables
-- of Unicode, so they are operations that a definition takes.
use Prim.Native.String.{String}
use mathlib.Core.Bool.{Bool}
use text.Mathlib.Text.{find?}
use guardian_tracker.Prelude.Maps.{is_some}

pub record TextOps : Type 0 where
  pub to_lower : String → String
  pub trim_space : String → String

-- `strings.Contains(s, part)`
unfoldable pub contains : String → String → Bool
contains s part = is_some (find? s part)
