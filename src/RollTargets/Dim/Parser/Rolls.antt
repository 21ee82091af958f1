-- ===== src/RollTargets/Dim/Parser/Rolls.antt =====
-- What a line of the grammar is parsed to.
use Prim.Native.Char.{Char}
use Prim.Native.String.append
use text.Mathlib.TextLemmas.{append-nil}
use mathlib.Core.Option.{none-ne-some}
use guardian_tracker.Prelude.Scan.{
  ◌<>◌, strip_prefix, strip_prefix-append, take_run, drop_run, take_run-append, drop_run-append,
  is_digit, decimal, all_chars, stops,
}
use guardian_tracker.Prelude.{
  ℕ, ◌≡◌, ◌≢◌, refl, ap, sym, ◌∙◌, ◌^◌, Bool, true, false, none, some, List, [], ◌∷◌, String,
  if◌then◌else◌, ◌==◌, nat_eq, string_eq, ltb, TextOps, arith, Bool-cases, inl, inr, int_eq, not,
}
use guardian_tracker.RollTargets.Dim.{
  RollMatch, DimLine, malformed, comment, unsupported, roll, reason_no_perks, bare_line,
  match_roll_line, item_groups, is_perk_char, is_note_char, dim_perk_hashes, reason_unrecognized,
  reason_item_hash_range, roll_groups, parse_int64, in_int64, decode_item,
}
use guardian_tracker.RollTargets.Dim.Parser.{parse_dim_roll, with_perks, with_item}
use guardian_tracker.RollTargets.Dim.Parser.Parts.{
  join, IsPart, Names, is_plain_char, dim_perk_hashes-Names, dim_notes-join,
}
use guardian_tracker.Prelude.Every.{Every}

abbrev pub sign_text : Bool → String
sign_text false = ""
sign_text true = "-"

-- A line with all its parts, and whatever a bar begins behind the notes.
abbrev pub roll_text : Bool → String → String → String → String → String
roll_text negative digits perks notes tail =
    "dimwishlist:item="
    <> sign_text negative
    <> digits
    <> "&perks="
    <> perks
    <> "#notes:"
    <> notes
    <> tail

stops-append :
    (p : Char → Bool) (c : Char) (s t : String) → stops p (String.◌∷◌ c s <> t) ≡ not (p c)
stops-append p c s t = ap (stops p) (append.cons c s t)

no_sign :
    (digits s : String)
    → all_chars is_digit digits ≡ true
    → digits ≢ ""
    → strip_prefix "-" (digits <> s) ≡ none
unfolding strip_prefix all_chars
no_sign String.[] s h e = absurd (e refl)
no_sign (String.◌∷◌ c digits) s h e = ap (strip_prefix "-") (append.cons c digits s) ∙ ground arith

groups :
    (item perks notes tail : String)
    → all_chars is_perk_char perks ≡ true
    → all_chars is_note_char notes ≡ true
    → stops is_note_char tail ≡ true
    → roll_groups item ("&perks=" <> perks <> "#notes:" <> notes <> tail)
      ≡ record { item = item; perks = perks; notes = notes }
groups item perks notes tail hp hn ht =
    rw
      (
        strip_prefix-append "&perks=" (perks <> "#notes:" <> notes <> tail),
        take_run-append is_perk_char perks ("#notes:" <> notes <> tail) hp
            (stops-append is_perk_char "#" "notes:" (notes <> tail)),
        drop_run-append is_perk_char perks ("#notes:" <> notes <> tail) hp
            (stops-append is_perk_char "#" "notes:" (notes <> tail)),
        strip_prefix-append "#notes:" (notes <> tail),
        take_run-append is_note_char notes tail hn ht,
      )
      refl

abbrev pub plain_text : String → String → String → String → String
plain_text digits perks notes tail = digits <> "&perks=" <> perks <> "#notes:" <> notes <> tail

runs :
    (digits perks notes tail : String)
    → all_chars is_digit digits ≡ true
    → (take_run is_digit (plain_text digits perks notes tail) ≡ digits)
      × (drop_run is_digit (plain_text digits perks notes tail)
          ≡ "&perks=" <> perks <> "#notes:" <> notes <> tail)
runs digits perks notes tail hd =
    let stop = stops-append is_digit "&" "perks=" (perks <> "#notes:" <> notes <> tail) in
    (take_run-append is_digit digits _ hd stop, drop_run-append is_digit digits _ hd stop)

is_empty-false : (s : String) → s ≢ "" → (s == "") ≡ false
is_empty-false s h = elim (Bool-cases (s == "")) [
  | inl e ↦ absurd (h ((string_eq.beq_iff s "").0 e))
  | inr e ↦ e
]

signed :
    (negative : Bool) (digits behind : String)
    → all_chars is_digit digits ≡ true
    → digits ≢ ""
    → strip_prefix "-" (sign_text negative <> digits <> behind)
      ≡ (if negative then some (digits <> behind) else none)
signed true digits behind h e = strip_prefix-append "-" (digits <> behind)
signed false digits behind h e =
    ap (strip_prefix "-") (append.nil (digits <> behind)) ∙ no_sign digits behind h e

item_groups-parts :
    (negative : Bool) (s plain digits behind : String)
    → strip_prefix "-" s ≡ (if negative then some plain else none)
    → s ≡ sign_text negative <> plain
    → take_run is_digit plain ≡ digits
    → drop_run is_digit plain ≡ behind
    → (digits == "") ≡ false
    → item_groups s ≡ some (roll_groups (sign_text negative <> digits) behind)
unfolding item_groups
item_groups-parts true s plain digits behind h e run rest full = rw (h, run, full, rest) refl
item_groups-parts false s plain digits behind h e run rest full =
    rw (h, e ∙ append.nil plain, run, full, rest) refl

match_roll_line-roll_text :
    (negative : Bool) (digits perks notes tail : String)
    → all_chars is_digit digits ≡ true
    → digits ≢ ""
    → all_chars is_perk_char perks ≡ true
    → all_chars is_note_char notes ≡ true
    → stops is_note_char tail ≡ true
    → match_roll_line (roll_text negative digits perks notes tail)
      ≡ some (record { item = sign_text negative <> digits; perks = perks; notes = notes })
unfolding match_roll_line
match_roll_line-roll_text negative digits perks notes tail hd he hp hn ht =
    rw
      (
        match_roll_line,
        strip_prefix-append "dimwishlist:item="
            (sign_text negative <> plain_text digits perks notes tail),
        item_groups-parts negative _ (plain_text digits perks notes tail) digits
            ("&perks=" <> perks <> "#notes:" <> notes <> tail)
            (signed negative digits ("&perks=" <> perks <> "#notes:" <> notes <> tail) hd he) refl
            (runs digits perks notes tail hd).0 (runs digits perks notes tail hd).1
            (is_empty-false digits he),
        groups (sign_text negative <> digits) perks notes tail hp hn ht,
      )
      refl

-- What the number of a line says.
pub data Item : Type 0 where
  any_item : Item
  wants : ℕ → Item
  avoids : ℕ → Item
  too_large : Bool → Item
  unreadable : Item

-- The number 2 ^ 63 behind a minus sign is read as item 0: its negation does not fit 64 bits.
unfoldable pub item_of : Bool → ℕ → Item
item_of false n =
    if ltb n (2 ^ 32) then wants n else if ltb n (2 ^ 63) then too_large true else unreadable
item_of true n =
    if n == 0
    then wants 0
    else if n == 69420
    then any_item
    else if ltb n (2 ^ 32)
    then avoids n
    else if ltb n (2 ^ 63)
    then too_large false
    else if n == 2 ^ 63
    then avoids 0
    else unreadable

abbrev pub noted : ℕ → String → DimLine
noted num notes = record (bare_line num comment "") { notes = notes }

-- A line that names no perk is of no use.
abbrev pub naming : List ℕ → DimLine → DimLine
naming [] out = record out { perk_hashes = []; kind = unsupported; reason = reason_no_perks }
naming (h ∷ hs) out = record out { perk_hashes = h ∷ hs; kind = roll }

-- The line of the number, with these notes and perks.
unfoldable pub line_of : ℕ → String → List ℕ → Item → DimLine
line_of num notes hs any_item =
    naming hs (record (noted num notes) { wanted = true; any_weapon = true })
line_of num notes hs (wants h) =
    naming hs (record (noted num notes) { wanted = true; item_hash = h })
line_of num notes hs (avoids h) = naming hs (record (noted num notes) { item_hash = h })
line_of num notes hs (too_large stance) = record (noted num notes) {
  wanted = stance;
  kind = malformed;
  reason = reason_item_hash_range;
}
line_of num notes hs unreadable = bare_line num malformed reason_unrecognized

module _ (t : TextOps) where
  with_perks-naming : (hs : List ℕ) (out : DimLine) → with_perks t hs out ≡ naming hs out
  unfolding with_perks
  with_perks-naming [] out = refl
  with_perks-naming (h ∷ hs) out = refl

  with_item-line_of :
      (m : RollMatch) (num : ℕ) (notes : String) (negative : Bool) (n : ℕ)
      → with_item t m num notes (in_int64 negative n)
        ≡ line_of num notes (dim_perk_hashes t m.perks) (item_of negative n)
  unfolding line_of item_of decode_item
  with_item-line_of m num notes false n =
      grind (arith, with_perks-naming (dim_perk_hashes t m.perks))
  with_item-line_of m num notes true n =
      grind (arith, with_perks-naming (dim_perk_hashes t m.perks))

  int64-text :
      (negative : Bool) (digits : String) (n : ℕ)
      → all_chars is_digit digits ≡ true
      → digits ≢ ""
      → decimal digits ≡ some n
      → parse_int64 (sign_text negative <> digits) ≡ in_int64 negative n
  unfolding parse_int64
  int64-text true digits n hd he hn =
      rw (parse_int64, strip_prefix-append "-" digits, hn, strip_prefix-append "-" digits) refl
  int64-text false digits n hd he hn =
      let unsigned = sym (ap (strip_prefix "-") (append-nil digits)) ∙ no_sign digits "" hd he in
      ap parse_int64 (append.nil digits) ∙ rw (parse_int64, unsigned, hn, unsigned) refl

  decimal-nonempty : (digits : String) (n : ℕ) → decimal digits ≡ some n → digits ≢ ""
  unfolding decimal
  decimal-nonempty digits n h e = absurd (none-ne-some n (sym (ap decimal e) ∙ h))

  -- the notes of the line, or those of the block where it has none
  abbrev pub own_notes : List String → String → String
  own_notes lines block_notes =
      let own = t.trim_space (join "\n" lines) in if own == "" then block_notes else own

  -- A line `dimwishlist:item=N&perks=P,…,P#notes:T\n…\nT`, with or without a minus sign before the
  -- digits N, is read to exactly its parts, whatever a bar begins behind the notes. The number decides
  -- between an item that is wanted, one that is not, every item (-69420) and a number that no item has.
  -- The perks are the numbers among the P that are positive and fit 32 bits, in their order, and a line
  -- without one is unsupported. The notes are the T with line ends between them, trimmed, or those of
  -- the block where that is empty. A P is of digits and bars, and a T has no backslash; for a
  -- `TrimSpace` that leaves a P as it is.
  pub parse_dim_roll-roll_text :
      (num : ℕ) (block_notes : String) (negative : Bool) (n : ℕ) (digits part : String)
      (parts : List String) (hs : List ℕ) (lines : List String) (tail : String)
      → ((s : String) → IsPart s → t.trim_space s ≡ s)
      → all_chars is_digit digits ≡ true
      → decimal digits ≡ some n
      → Every IsPart (part ∷ parts)
      → Names (part ∷ parts) hs
      → Every (λ l. all_chars is_plain_char l ≡ true) lines
      → all_chars is_perk_char (join "," (part ∷ parts)) ≡ true
      → all_chars is_note_char (join "\\n" lines) ≡ true
      → stops is_note_char tail ≡ true
      → parse_dim_roll t
          (roll_text negative digits (join "," (part ∷ parts)) (join "\\n" lines) tail)
          num
          block_notes
        ≡ line_of num (own_notes lines block_notes) hs (item_of negative n)
  unfolding parse_dim_roll
  parse_dim_roll-roll_text num block_notes negative n digits part parts hs lines tail blanks hd hn
        clean named plain hp ht hs' =
      let perks = join "," (part ∷ parts) in
      let notes = join "\\n" lines in
      rw
        (
          match_roll_line-roll_text negative digits perks notes tail hd
              (decimal-nonempty digits n hn) hp ht hs',
          int64-text negative digits n hd (decimal-nonempty digits n hn) hn,
          dim_notes-join t lines plain,
        )
        (with_item-line_of
            (record { item = sign_text negative <> digits; perks = perks; notes = notes }) num
            (own_notes lines block_notes) negative n
          ∙ ap (λ l. line_of num (own_notes lines block_notes) l (item_of negative n))
              (dim_perk_hashes-Names t blanks part parts hs clean named))
