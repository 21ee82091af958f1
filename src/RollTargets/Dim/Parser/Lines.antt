-- ===== src/RollTargets/Dim/Parser/Lines.antt =====
-- Each line of a file has one outcome, under its own number.
use mathlib.Core.List.{append_assoc, map-append, append-nil}
use guardian_tracker.Prelude.{
  ℕ, zero, suc, ◌+◌, ◌≡◌, refl, ◌∙◌, List, [], ◌∷◌, ◌++◌, map, String, TextOps, length, arith,
  Option, none, some, sym, ap, string_eq, ℤ,
}
use guardian_tracker.Prelude.Results.{ok, err, Result}
use guardian_tracker.RollTargets.Dim.{
  DimFile, DimLine, bare_line, decode_item, match_roll_line, RollMatch, trim_right, parse_int64,
  dim_perk_hashes, comment, unsupported, reason_legacy_url,
}
use guardian_tracker.RollTargets.Dim.Parser.{
  Progress, parse_line, parse_lines, no_lines, lines_of, parse_dim_file, parse_dim_roll, with_perks,
  finish, with_item, from_match, begun,
}

abbrev pub count_from : ℕ → ℕ → List ℕ
count_from n zero = []
count_from n (suc k) = n ∷ count_from (n + 1) k

abbrev numbers : Progress → List ℕ
numbers p = map (λ l. DimLine.number l) p.file.lines

abbrev result_number : Result DimLine DimLine → ℕ
result_number (ok out) = out.number
result_number (err out) = out.number

snoc :
    (l : DimLine) (ls : List DimLine)
    → map (λ l. DimLine.number l) (ls ++ l ∷ []) ≡ map (λ l. DimLine.number l) ls ++ l.number ∷ []
snoc l ls = map-append (λ l. DimLine.number l) ls (l ∷ [])

module _ (t : TextOps) where
  with_perks-number :
      (hs : List ℕ) (out : DimLine) → DimLine.number (with_perks t hs out) ≡ DimLine.number out
  unfolding with_perks
  with_perks-number [] out = refl
  with_perks-number (h ∷ hs) out = refl

  finish-number :
      (perks : String) (r : Result DimLine DimLine)
      → DimLine.number (finish t perks r) ≡ result_number r
  finish-number perks (ok out) = with_perks-number (dim_perk_hashes t perks) out
  finish-number perks (err out) = refl

  decode_item-number :
      (raw : ℤ) (out : DimLine) → result_number (decode_item raw out) ≡ DimLine.number out
  unfolding decode_item
  decode_item-number raw out = ground arith

  with_item-number :
      (m : RollMatch) (num : ℕ) (notes : String) (o : Option ℤ)
      → DimLine.number (with_item t m num notes o) ≡ num
  with_item-number m num notes none = refl
  with_item-number m num notes (some raw) =
      finish-number m.perks (decode_item raw (begun num notes))
      ∙ decode_item-number raw (begun num notes)

  from_match-number :
      (num : ℕ) (notes : String) (o : Option RollMatch)
      → DimLine.number (from_match t num notes o) ≡ num
  from_match-number num notes none = refl
  from_match-number num notes (some m) = with_item-number m num _ (parse_int64 m.item)

  parse_dim_roll-number :
      (line : String) (num : ℕ) (notes : String)
      → DimLine.number (parse_dim_roll t line num notes) ≡ num
  unfolding parse_dim_roll
  parse_dim_roll-number line num notes = from_match-number num notes (match_roll_line line)

  parse_line-numbers :
      (num : ℕ) (line : String) (p : Progress)
      → numbers (parse_line t num line p) ≡ numbers p ++ num ∷ []
  unfolding parse_line
  parse_line-numbers num line p = ground (
    arith,
    snoc (bare_line num comment "") p.file.lines,
    snoc (bare_line num unsupported reason_legacy_url) p.file.lines,
    snoc (parse_dim_roll t line num p.block_notes) p.file.lines,
    parse_dim_roll-number line num p.block_notes,
  )

  parse_lines-numbers :
      (num : ℕ) (rest : List String) (p : Progress)
      → numbers (parse_lines t num rest p) ≡ numbers p ++ count_from num (length rest)
  unfolding parse_lines
  parse_lines-numbers num [] p = sym (append-nil (numbers p))
  parse_lines-numbers num (raw ∷ rest) p =
      parse_lines-numbers (num + 1) rest _
      ∙ ap (λ ns. ns ++ count_from (num + 1) (length rest))
          (parse_line-numbers num (trim_right 13 raw) p)
      ∙ append_assoc (numbers p) (num ∷ []) _

  -- The parsed file has exactly one outcome for each line of the text, in the order of the text, and
  -- they carry the numbers 1, 2, 3 and so on: no line is dropped, none is invented.
  pub parse_dim_file-count_from :
      (text : String)
      → map (λ l. DimLine.number l) (DimFile.lines (parse_dim_file t text))
        ≡ count_from 1 (length (lines_of text))
  unfolding parse_dim_file
  parse_dim_file-count_from text = parse_lines-numbers 1 (lines_of text) no_lines
