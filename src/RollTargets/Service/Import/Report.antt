-- ===== src/RollTargets/Service/Import/Report.antt =====
-- services/rolltargets/dimimport.go: the report of an import has one line for each line of the file.
use mathlib.Core.List.{append_assoc, map-append, append-nil}
use Prim.Native.String.{count}
use guardian_tracker.Prelude.{
  ℕ, ◌≡◌, subst, refl, sym, ap, ◌∙◌, List, [], ◌∷◌, ◌++◌, map, String, arith, length, TextOps,
  Bool-cases, inl, inr, ltb,
}
use guardian_tracker.Prelude.Results.{Result, ok, err, Result-cases}
use guardian_tracker.RollTargets.{StoredTarget}
use guardian_tracker.RollTargets.Dim.{DimLine}
use guardian_tracker.RollTargets.Dim.Parser.{parse_dim_file, lines_of}
use guardian_tracker.RollTargets.Dim.Parser.Lines.{count_from, parse_dim_file-count_from}
use guardian_tracker.RollTargets.Service.{TargetError, PerkPool, Repository}
use guardian_tracker.RollTargets.Service.Resolve.{
  ResolveError, target_error, unresolved, resolve_dim_perks,
}
use guardian_tracker.RollTargets.Service.Import.{
  ImportLine, ImportReport, FmtOps, resolve_failure, save_outcome, import_roll, import_line,
  import_lines, import_dim, roll_line, item_of_line, add_to_report, empty_report,
}

-- A line that is reported keeps its number.
abbrev Keeps : ℕ → Result TargetError ImportLine → Type 0
Keeps n (ok l) = l.number ≡ n
Keeps n (err e) = Unit {0}

save_outcome-Keeps :
    (r : Result TargetError StoredTarget) (out : ImportLine) → Keeps out.number (save_outcome r out)
unfolding save_outcome
save_outcome-Keeps (ok target) out = refl
save_outcome-Keeps (err e) out = ground arith

resolve_failure-Keeps :
    (f : FmtOps) (e : ResolveError) (out : ImportLine) → Keeps out.number (resolve_failure f e out)
unfolding resolve_failure
resolve_failure-Keeps f (unresolved u) out = refl
resolve_failure-Keeps f (target_error e) out = ground arith

module _ {ℓ} {S : Type ℓ} (t : TextOps) (f : FmtOps) (pool : PerkPool) (repo : Repository S)
    (m import_id : String) where
  import_roll-Keeps :
      (title : String) (s : S) (line : DimLine)
      → Keeps line.number ((import_roll t f pool repo m import_id title s line).0)
  unfolding import_roll
  import_roll-Keeps title s line =
      elim (Result-cases (resolve_dim_perks t pool (item_of_line line) line.perk_hashes)) [
        | inl (perks, e) ↦ rw (e, import_roll) (save_outcome-Keeps _ _)
        | inr (x, e) ↦ rw (e, import_roll) (resolve_failure-Keeps f x (roll_line line))
      ]

  import_line-Keeps :
      (title : String) (s : S) (line : DimLine)
      → Keeps line.number ((import_line t f pool repo m import_id title s line).0)
  unfolding import_line
  import_line-Keeps title s line = ground (arith, import_roll-Keeps title s line)

  import_lines-numbers :
      (title : String) (lines : List DimLine) (report : ImportReport) (s : S)
      → let r = (import_lines t f pool repo m import_id title lines report s).0 in
        (done : ImportReport)
        → r ≡ ok done
        → map (λ l. ImportLine.number l) done.lines
          ≡ map (λ l. ImportLine.number l) report.lines ++ map (λ l. DimLine.number l) lines
  unfolding import_lines
  import_lines-numbers title [] report s done h =
      let same : report ≡ done = cc in
      ap (λ r. map (λ l. ImportLine.number l) (ImportReport.lines r)) (sym same)
      ∙ sym (append-nil (map (λ l. ImportLine.number l) report.lines))
  import_lines-numbers title (line ∷ lines) report s done h =
      let step = import_line t f pool repo m import_id title s line in
      elim (Result-cases (step.0)) [
        | inr (x, e) ↦ absurd (cc (rw (import_lines, e) at h))
        | inl (out, e) ↦
            let number : out.number ≡ line.number =
              subst (Keeps line.number) e (import_line-Keeps title s line) in
            import_lines-numbers title lines (add_to_report import_id report out) (step.1) done
              (rw (import_lines, e) at h)
            ∙ rw (map-append, append_assoc, number) refl
      ]

  -- An import that ends without an error reports exactly one line for each line of the text, in the
  -- order of the text and under its number, whatever became of it.
  pub import_dim-count_from :
      (s : S) (text : String) (report : ImportReport)
      → (import_dim t f pool repo m import_id s text).0 ≡ ok report
      → map (λ l. ImportLine.number l) report.lines ≡ count_from 1 (length (lines_of text))
  unfolding import_dim
  import_dim-count_from s text report h =
      let file = parse_dim_file t text in
      elim (Bool-cases (ltb 500 (count file.title))) [
        | inl long ↦ absurd (cc (rw (import_dim, long) at h))
        | inr fine ↦
            import_lines-numbers file.title file.lines (empty_report t f pool repo m import_id file)
              s report (rw (import_dim, fine) at h)
            ∙ parse_dim_file-count_from t text
      ]
