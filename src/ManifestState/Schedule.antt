-- ===== src/ManifestState/Schedule.antt =====
-- Loaders of an owner of state that is derived from the manifest, beside the installation of new ones.
-- The manifest service (services/bungie/manifest.go, Download) installs a manifest first and tells its
-- observers later, and a loader reads the one that is installed. `epoch`, `told`, `turns` and the
-- loaders' stamps are not in the program: they count, without wrapping, the changes of the installed
-- version, those that had happened when the owner was last told, and the changes of the owner's own
-- version.
use guardian_tracker.Prelude.{
  ℕ, ◌+◌, ◌≤◌, ◌≡◌, Option, none, some, List, [], ◌∷◌, String, if◌then◌else◌, arith, nat_eq,
  string_eq, ◌==◌, Bool, true, false, get_elem?, set,
}
use guardian_tracker.ManifestState.{Owner, Attempt, new_owner, begin, advance, publish, settle}
use guardian_tracker.ManifestState.Fence.{is_change}

-- A unit of work: its attempt, the turn of the owner in which it began, and the epoch that it read.
pub record Loader : Type 0 where
  pub attempt : Attempt
  pub began : ℕ
  pub read : ℕ

-- The owner keeps the epoch of the value that it holds, if it holds one. `version` is the installed
-- one, and `announcing` that its observers are not told yet.
pub record System : Type 0 where
  pub owner : Owner (Option ℕ)
  pub version : String
  pub announcing : Bool
  pub epoch : ℕ
  pub told : ℕ
  pub turns : ℕ
  pub loaders : List Loader

pub data Move : Type 0 where
  arrive : Move
  reads : ℕ → Move
  commits : ℕ → Move
  installs : String → Move
  announces : Move

-- A version may be installed already, of which the owner was not told.
unfoldable pub start : String → System
unfolding new_owner
start version = record {
  owner = new_owner none;
  version = version;
  announcing = false;
  epoch = 0;
  told = 0;
  turns = 0;
  loaders = [];
}

abbrev pub read_at : ℕ → Option Loader → List Loader → ℕ → List Loader
read_at epoch none loaders i = loaders
read_at epoch (some l) loaders i = set loaders i (record l { read = epoch })

abbrev pub commit_at : Option Loader → Owner (Option ℕ) → Owner (Option ℕ)
commit_at none owner = owner
commit_at (some l) owner = (publish l.attempt (λ _. some l.read) owner).1

unfoldable pub installed : String → System → System
installed version s = record s {
  version = version;
  announcing = true;
  epoch = if version == s.version then s.epoch else s.epoch + 1;
}

unfoldable pub announced : System → System
unfolding advance
announced s = record s {
  owner = settle s.owner (advance (λ _. none) s.version s.owner);
  announcing = false;
  told = s.epoch;
  turns = if is_change s.owner.version s.version then s.turns + 1 else s.turns;
}

-- One critical section of one goroutine. Downloads run one after the other, and each announces its
-- version behind its installation; an owner that is told of a new one drops what it holds.
unfoldable pub move : Move → System → System
unfolding begin publish installed announced
move arrive s = record s {
  loaders = record { attempt = begin s.owner; began = s.turns; read = s.epoch } ∷ s.loaders;
}
move (reads i) s = record s { loaders = read_at s.epoch (get_elem? s.loaders i) s.loaders i }
move (commits i) s = record s { owner = commit_at (get_elem? s.loaders i) s.owner }
move (installs version) s = if s.announcing then s else installed version s
move announces s = if s.announcing then announced s else s

unfoldable pub moves : List Move → System → System
unfolding move
moves [] s = s
moves (m ∷ ms) s = moves ms (move m s)

-- No version that is installed has the empty name.
abbrev pub IsNamed : Move → Type 0
IsNamed arrive = Unit {0}
IsNamed (reads i) = Unit {0}
IsNamed (commits i) = Unit {0}
IsNamed (installs version) = (version == "") ≡ false
IsNamed announces = Unit {0}

abbrev pub AllNamed : List Move → Type 0
AllNamed [] = Unit {0}
AllNamed (m ∷ ms) = IsNamed m × AllNamed ms

move-turns-le : (m : Move) (s : System) → s.turns ≤ (move m s).turns
unfolding move
move-turns-le arrive s = omega arith
move-turns-le (reads i) s = omega arith
move-turns-le (commits i) s = omega arith
move-turns-le (installs version) s = ground arith
move-turns-le announces s = ground arith

pub moves-turns-le : (ms : List Move) (s : System) → s.turns ≤ (moves ms s).turns
unfolding moves
moves-turns-le [] s = omega arith
moves-turns-le (m ∷ ms) s = omega (arith, moves-turns-le ms (move m s), move-turns-le m s)
