-- ===== src/RollTargets/Dim/Parser/Parts.antt =====
-- What the perks and the notes of a line name.
use Prim.Native.Char.{Char, code}
use Prim.Native.String.append
use text.Mathlib.TextLemmas.{append-nil}
use guardian_tracker.Prelude.Scan.{◌<>◌, decimal, all_chars, split_at, is_digit}
use guardian_tracker.Prelude.Every.{Every}
use guardian_tracker.Prelude.{
  ℕ, ◌≡◌, ◌≤◌, ◌<◌, ◌⊎◌, ◌^◌, refl, ap, sym, ◌∙◌, true, not, ◌||◌, Bool, some, List, [], ◌∷◌,
  String, ◌==◌, nat_eq, string_eq, TextOps, arith, Option-cases, inl, inr,
}
use guardian_tracker.RollTargets.Dim.{perk_hashes_of, dim_perk_hashes, expand_breaks}
use guardian_tracker.RollTargets.Dim.Parser.{dim_notes}

-- Texts with a separator between them.
abbrev pub join : String → List String → String
join separator [] = ""
join separator (s ∷ []) = s
join separator (s ∷ s' ∷ rest) = s <> separator <> join separator (s' ∷ rest)

-- a digit or a bar
abbrev pub is_part_char : Char → Bool
is_part_char c = is_digit c || code c == 124

abbrev pub IsPart : String → Type 0
IsPart s = all_chars is_part_char s ≡ true

-- The positive numbers of 32 bits among some texts, in their order.
pub data Names : List String → List ℕ → Type 0 where
  nothing : Names [] []
  names :
      (n : ℕ) {part : String} {parts : List String} {hs : List ℕ}
      → decimal part ≡ some n
      → 0 < n
      → n < 2 ^ 32
      → Names parts hs
      → Names (part ∷ parts) (n ∷ hs)
  skips :
      {part : String} {parts : List String} {hs : List ℕ}
      → ((n : ℕ) → decimal part ≡ some n → (n ≡ 0) ⊎ (2 ^ 32 ≤ n))
      → Names parts hs
      → Names (part ∷ parts) hs

split_at_last : (s : String) → IsPart s → split_at 44 s ≡ s ∷ []
unfolding split_at all_chars
split_at_last String.[] h = refl
split_at_last (String.◌∷◌ c s) h = ground (arith, h, split_at_last s)

split_at-join : (s rest : String) → IsPart s → split_at 44 (s <> "," <> rest) ≡ s ∷ split_at 44 rest
unfolding split_at all_chars
split_at-join String.[] rest h =
    ap (split_at 44)
      (append.nil ("," <> rest) ∙ append.cons "," "" rest ∙ ap (String.◌∷◌ ",") (append.nil rest))
split_at-join (String.◌∷◌ c s) rest h =
    ap (split_at 44) (append.cons c s ("," <> rest)) ∙ ground (arith, h, split_at-join s rest)

module _ (t : TextOps) (blanks : (s : String) → IsPart s → t.trim_space s ≡ s) where
  perk_hashes_of-Names :
      (parts : List String) (hs : List ℕ)
      → Every IsPart parts
      → Names parts hs
      → perk_hashes_of t parts ≡ hs
  unfolding perk_hashes_of
  perk_hashes_of-Names [] hs clean Names.nothing = refl
  perk_hashes_of-Names (part ∷ parts) hs clean (Names.names n is low high rest) =
      rw (blanks part clean.0, is, perk_hashes_of-Names parts _ clean.1 rest)
        (ground (arith, low, high))
  perk_hashes_of-Names (part ∷ parts) hs clean (Names.skips none_of rest) =
      elim (Option-cases (decimal part)) [
        | inl unread ↦ rw (blanks part clean.0, unread) (perk_hashes_of-Names parts hs clean.1 rest)
        | inr (n, is) ↦
            rw (blanks part clean.0, is)
              (elim (none_of n is) [
                | inl zero_n ↦ ground (arith, zero_n, perk_hashes_of-Names parts hs clean.1 rest)
                | inr large ↦ ground (arith, large, perk_hashes_of-Names parts hs clean.1 rest)
              ])
      ]

  split_at-parts :
      (part : String) (parts : List String)
      → Every IsPart (part ∷ parts)
      → split_at 44 (join "," (part ∷ parts)) ≡ part ∷ parts
  split_at-parts part [] clean = split_at_last part clean.0
  split_at-parts part (next ∷ parts) clean =
      split_at-join part (join "," (next ∷ parts)) clean.0
      ∙ ap (λ l. part ∷ l) (split_at-parts next parts clean.1)

  -- The perks of a line are the numbers that its parts name.
  pub dim_perk_hashes-Names :
      (part : String) (parts : List String) (hs : List ℕ)
      → Every IsPart (part ∷ parts)
      → Names (part ∷ parts) hs
      → dim_perk_hashes t (join "," (part ∷ parts)) ≡ hs
  unfolding dim_perk_hashes
  dim_perk_hashes-Names part parts hs clean named =
      ap (perk_hashes_of t) (split_at-parts part parts clean)
      ∙ perk_hashes_of-Names (part ∷ parts) hs clean named

-- any character but a backslash
abbrev pub is_plain_char : Char → Bool
is_plain_char c = not (code c == 92)

expand_breaks-cons :
    (c : Char) (s : String)
    → is_plain_char c ≡ true
    → expand_breaks (String.◌∷◌ c s) ≡ String.◌∷◌ c (expand_breaks s)
unfolding expand_breaks
expand_breaks-cons c String.[] h = refl
expand_breaks-cons c (String.◌∷◌ d s) h = ground (arith, h)

expand_breaks-append :
    (s rest : String)
    → all_chars is_plain_char s ≡ true
    → expand_breaks (s <> rest) ≡ s <> expand_breaks rest
unfolding all_chars
expand_breaks-append String.[] rest h =
    ap expand_breaks (append.nil rest) ∙ sym (append.nil (expand_breaks rest))
expand_breaks-append (String.◌∷◌ c s) rest h =
    ap expand_breaks (append.cons c s rest)
    ∙ expand_breaks-cons c (s <> rest) (ground (arith, h))
    ∙ ap (String.◌∷◌ c) (expand_breaks-append s rest (ground (arith, h)))
    ∙ sym (append.cons c s (expand_breaks rest))

expand_breaks-break : (rest : String) → expand_breaks ("\\n" <> rest) ≡ "\n" <> expand_breaks rest
unfolding expand_breaks
expand_breaks-break rest = ap expand_breaks (
    append.cons "\\" "n" rest
    ∙ ap (String.◌∷◌ "\\") (append.cons "n" "" rest ∙ ap (String.◌∷◌ "n") (append.nil rest)))

expand_breaks-join :
    (lines : List String)
    → Every (λ l. all_chars is_plain_char l ≡ true) lines
    → expand_breaks (join "\\n" lines) ≡ join "\n" lines
unfolding expand_breaks
expand_breaks-join [] clean = refl
expand_breaks-join (l ∷ []) clean =
    ap expand_breaks (sym (append-nil l)) ∙ expand_breaks-append l "" clean.0 ∙ append-nil l
expand_breaks-join (l ∷ next ∷ lines) clean =
    expand_breaks-append l ("\\n" <> join "\\n" (next ∷ lines)) clean.0
    ∙ ap (λ s. l <> s)
        (expand_breaks-break (join "\\n" (next ∷ lines))
          ∙ ap (λ s. "\n" <> s) (expand_breaks-join (next ∷ lines) clean.1))

-- The notes of a line are its lines, with line ends between them.
pub dim_notes-join :
    (t : TextOps) (lines : List String)
    → Every (λ l. all_chars is_plain_char l ≡ true) lines
    → dim_notes t (join "\\n" lines) ≡ t.trim_space (join "\n" lines)
unfolding dim_notes
dim_notes-join t lines clean = ap t.trim_space (expand_breaks-join lines clean)
