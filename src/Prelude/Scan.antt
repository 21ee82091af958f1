-- ===== src/Prelude/Scan.antt =====
-- Reading a text from its front: prefixes, runs of characters, the parts between separators, and
-- decimal numbers, as the expressions and the string functions that the program uses read them.
use Prim.Native.Nat.{ℕ, ◌+◌, ◌-◌, ◌*◌}
use Prim.Native.Char.{Char, code}
use Prim.Native.String
use Prim.Native.String.append
use Prim.Native.String.{String}
use mathlib.Core.Path.{◌≡◌, ap}
use mathlib.Core.Bool.{Bool, true, not, ◌&&◌}
use mathlib.Core.Option.{Option, none, some}
use mathlib.Core.List.{List, [], ◌∷◌}
use native.Mathlib.Omega.{arith}
use guardian_tracker.Prelude.Tests.{◌==◌, leb, if◌then◌else◌}

infixr 65 ◌<>◌
abbrev pub ◌<>◌ : String → String → String
s <> t = String.◌++◌ s t

-- The text behind a prefix, if the text begins with it.
unfoldable pub strip_prefix : String → String → Option String
strip_prefix String.[] s = some s
strip_prefix (String.◌∷◌ c p) String.[] = none
strip_prefix (String.◌∷◌ c p) (String.◌∷◌ d s) = if code c == code d then strip_prefix p s else none

abbrev pub or_same : String → Option String → String
or_same s none = s
or_same s (some rest) = rest

-- `strings.TrimPrefix`, and an optional group `(?:prefix)?` of an expression
abbrev pub trim_prefix : String → String → String
trim_prefix p s = or_same s (strip_prefix p s)

-- A run of characters that pass a test, and what follows it.
unfoldable pub take_run : (Char → Bool) → String → String
take_run p String.[] = String.[]
take_run p (String.◌∷◌ c s) =
    let rest = take_run p s in if p c then String.◌∷◌ c rest else String.[]

unfoldable pub drop_run : (Char → Bool) → String → String
drop_run p String.[] = String.[]
drop_run p (String.◌∷◌ c s) = let rest = drop_run p s in if p c then rest else String.◌∷◌ c s

abbrev pub in_front : Char → List String → List String
in_front c [] = String.◌∷◌ c String.[] ∷ []
in_front c (part ∷ parts) = String.◌∷◌ c part ∷ parts

-- `strings.Split` at one character, given by its number
unfoldable pub split_at : ℕ → String → List String
split_at separator String.[] = String.[] ∷ []
split_at separator (String.◌∷◌ c s) =
    if code c == separator
    then String.[] ∷ split_at separator s
    else in_front c (split_at separator s)

abbrev pub is_digit : Char → Bool
is_digit c = leb 48 (code c) && leb (code c) 57

unfoldable pub digits_from : ℕ → String → Option ℕ
digits_from sum String.[] = some sum
digits_from sum (String.◌∷◌ c s) =
    let rest = digits_from (sum * 10 + (code c - 48)) s in if is_digit c then rest else none

-- The number that a nonempty text of digits writes in base 10.
unfoldable pub decimal : String → Option ℕ
unfolding digits_from
decimal String.[] = none
decimal (String.◌∷◌ c s) = digits_from 0 (String.◌∷◌ c s)

unfoldable pub all_chars : (Char → Bool) → String → Bool
all_chars p String.[] = true
all_chars p (String.◌∷◌ c s) = p c && all_chars p s

-- The text does not begin with a character that passes the test.
abbrev pub stops : (Char → Bool) → String → Bool
stops p String.[] = true
stops p (String.◌∷◌ c s) = not (p c)

pub strip_prefix-append : (p s : String) → strip_prefix p (p <> s) ≡ some s
unfolding strip_prefix
strip_prefix-append String.[] s = ap (strip_prefix String.[]) (append.nil s)
strip_prefix-append (String.◌∷◌ c p) s =
    rw (append.cons c p s, strip_prefix) (ground (arith, strip_prefix-append p s))

pub take_run-append :
    (p : Char → Bool) (s t : String)
    → all_chars p s ≡ true
    → stops p t ≡ true
    → take_run p (s <> t) ≡ s
unfolding take_run all_chars
take_run-append p String.[] String.[] h e = ap (take_run p) (append.nil String.[])
take_run-append p String.[] (String.◌∷◌ c t) h e = rw (append.nil, take_run) (ground arith)
take_run-append p (String.◌∷◌ c s) t h e =
    rw (append.cons c s t, take_run) (ground (arith, take_run-append p s t))

pub drop_run-append :
    (p : Char → Bool) (s t : String)
    → all_chars p s ≡ true
    → stops p t ≡ true
    → drop_run p (s <> t) ≡ t
unfolding drop_run all_chars
drop_run-append p String.[] String.[] h e = ap (drop_run p) (append.nil String.[])
drop_run-append p String.[] (String.◌∷◌ c t) h e = rw (append.nil, drop_run) (ground arith)
drop_run-append p (String.◌∷◌ c s) t h e =
    rw (append.cons c s t, drop_run) (ground (arith, drop_run-append p s t))
