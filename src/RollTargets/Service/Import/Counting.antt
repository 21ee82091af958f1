-- ===== src/RollTargets/Service/Import/Counting.antt =====
-- services/rolltargets/dimimport.go over the table of saved targets: what an import counts is what it
-- stores.
use Prim.Native.String.{count}
use guardian_tracker.Prelude.{
  ℕ, ◌+◌, ◌≡◌, refl, ap, List, [], ◌∷◌, ◌++◌, String, ℤ, arith, length, length-append, TextOps,
  Bool-cases, Option-cases, inl, inr, ltb, if◌then◌else◌,
}
use guardian_tracker.Prelude.Results.{Result, ok, err, Result-cases}
use guardian_tracker.RollTargets.{StoredTarget}
use guardian_tracker.RollTargets.Dim.{DimLine}
use guardian_tracker.RollTargets.Dim.Parser.{parse_dim_file}
use guardian_tracker.RollTargets.Service.{
  TargetError, AddCommand, PerkPool, add_validated, validate_perks, validate_notes,
}
use guardian_tracker.RollTargets.Service.Store.{RollTarget, Table, PgError, insert_target, new_row}
use guardian_tracker.RollTargets.Service.Port.{
  repo_add, roll_target_repository, user_id_of, add_outcome, translated,
}
use guardian_tracker.RollTargets.Service.Resolve.{
  ResolveError, target_error, unresolved, resolve_dim_perks,
}
use guardian_tracker.RollTargets.Service.Import.{
  ImportLine, ImportReport, FmtOps, resolve_failure, save_outcome, import_roll, import_line,
  import_lines, import_dim, roll_line, item_of_line, add_to_report, empty_report, is_imported,
  count_imported,
}

abbrev saved_count {ℓ κ} : {E : Type ℓ} {A : Type κ} → Result E A → ℕ
saved_count (ok a) = 1
saved_count (err e) = 0

abbrev line_count : Result TargetError ImportLine → ℕ
line_count (ok l) = if is_imported l then 1 else 0
line_count (err e) = 0

save_outcome-count :
    (r : Result TargetError StoredTarget) (out : ImportLine)
    → line_count (save_outcome r out) ≡ saved_count r
unfolding save_outcome
save_outcome-count (ok target) out = refl
save_outcome-count (err e) out = ground arith

resolve_failure-count :
    (f : FmtOps) (e : ResolveError) (out : ImportLine) → line_count (resolve_failure f e out) ≡ 0
unfolding resolve_failure
resolve_failure-count f (unresolved u) out = refl
resolve_failure-count f (target_error e) out = ground arith

insert_target-length :
    (s : Table) (u : ℤ) (cmd : AddCommand)
    → let r = insert_target s u cmd in length (r.1).rows ≡ length s.rows + saved_count (r.0)
unfolding insert_target
insert_target-length s u cmd = ground (arith, length-append s.rows (new_row s u cmd ∷ []))

add_outcome-count :
    (r : Result PgError RollTarget × Table) → saved_count ((add_outcome r).0) ≡ saved_count (r.0)
unfolding translated
add_outcome-count (ok r, s) = refl
add_outcome-count (err e, s) = ground arith

add_outcome-rows : (r : Result PgError RollTarget × Table) → (add_outcome r).1 ≡ r.1
add_outcome-rows (ok r, s) = refl
add_outcome-rows (err e, s) = ground arith

repo_add-length :
    (s : Table) (m : String) (cmd : AddCommand)
    → let r = repo_add s m cmd in length (r.1).rows ≡ length s.rows + saved_count (r.0)
unfolding repo_add
repo_add-length s m cmd = elim (Result-cases (user_id_of s m)) [
  | inr (x, e) ↦ rw (e, repo_add) (omega arith)
  | inl (u, e) ↦
      rw
        (
          e,
          repo_add,
          add_outcome-rows (insert_target s u cmd),
          add_outcome-count (insert_target s u cmd),
        )
        (insert_target-length s u cmd)
]

count_imported-snoc :
    (l : ImportLine) (ls : List ImportLine)
    → count_imported (ls ++ l ∷ []) ≡ count_imported ls + line_count (ok l)
unfolding count_imported
count_imported-snoc l [] = ground arith
count_imported-snoc l (x ∷ ls) = ground (arith, count_imported-snoc l ls)

module _ (t : TextOps) (f : FmtOps) (pool : PerkPool) (m import_id : String) where
  add_validated-length :
      (s : Table) (cmd : AddCommand)
      → let r = add_validated t pool roll_target_repository s m cmd in
        length (r.1).rows ≡ length s.rows + saved_count (r.0)
  unfolding add_validated roll_target_repository
  add_validated-length s cmd = elim (Result-cases (validate_perks t pool cmd.item_hash cmd.perks)) [
    | inr (x, e) ↦ rw (e, add_validated) (omega arith)
    | inl (perks, e) ↦ elim (Option-cases (validate_notes cmd.notes)) [
      | inr (x, long) ↦ rw (e, long, add_validated) (omega arith)
      | inl fine ↦ rw (e, fine, add_validated) (repo_add-length s m (record cmd { perks = perks }))
    ]
  ]

  abbrev command : String → DimLine → List String → AddCommand
  command title line perks = record {
    import_id = import_id;
    import_title = title;
    item_hash = item_of_line line;
    wanted = line.wanted;
    perks = perks;
    notes = line.notes;
  }

  import_roll-length :
      (title : String) (s : Table) (line : DimLine)
      → let r = import_roll t f pool roll_target_repository m import_id title s line in
        length (r.1).rows ≡ length s.rows + line_count (r.0)
  unfolding import_roll
  import_roll-length title s line =
      elim (Result-cases (resolve_dim_perks t pool (item_of_line line) line.perk_hashes)) [
        | inr (x, e) ↦ rw (e, import_roll, resolve_failure-count f x (roll_line line)) (omega arith)
        | inl (perks, e) ↦
            rw (e, import_roll, save_outcome-count _ _)
              (add_validated-length s (command title line perks))
      ]

  import_line-length :
      (title : String) (s : Table) (line : DimLine)
      → let r = import_line t f pool roll_target_repository m import_id title s line in
        length (r.1).rows ≡ length s.rows + line_count (r.0)
  unfolding import_line
  import_line-length title s line = ground (arith, import_roll-length title s line)

  import_lines-length :
      (title : String) (lines : List DimLine) (report : ImportReport) (s : Table)
      (done : ImportReport)
      → let r = import_lines t f pool roll_target_repository m import_id title lines report s in
        r.0 ≡ ok done
        → length (r.1).rows + count_imported report.lines
          ≡ length s.rows + count_imported done.lines
  unfolding import_lines
  import_lines-length title [] report s done h =
      let same : report ≡ done = cc in
      ap (λ r. length s.rows + count_imported (ImportReport.lines r)) same
  import_lines-length title (line ∷ lines) report s done h =
      let step = import_line t f pool roll_target_repository m import_id title s line in
      elim (Result-cases (step.0)) [
        | inr (x, e) ↦ absurd (cc (rw (import_lines, e) at h))
        | inl (out, e) ↦
            let rest =
              import_lines-length title lines (add_to_report import_id report out) (step.1) done
                (rw (import_lines, e) at h) in
            rw (import_lines, e)
              (omega (
                arith,
                rest,
                ap line_count e,
                import_line-length title s line,
                count_imported-snoc out report.lines,
              ))
      ]

  -- An import that ends without an error has added exactly as many rows to the table of saved targets
  -- as its report counts as imported: no line is counted that was not stored, and none is stored that
  -- is reported otherwise.
  pub import_dim-count_imported :
      (s : Table) (text : String) (report : ImportReport)
      → let r = import_dim t f pool roll_target_repository m import_id s text in
        r.0 ≡ ok report → length (r.1).rows ≡ length s.rows + count_imported report.lines
  unfolding import_dim count_imported
  import_dim-count_imported s text report h =
      let file = parse_dim_file t text in
      elim (Bool-cases (ltb 500 (count file.title))) [
        | inl long ↦ absurd (cc (rw (import_dim, long) at h))
        | inr fine ↦
            rw (import_dim, fine)
              (omega (
                arith,
                import_lines-length file.title file.lines
                    (empty_report t f pool roll_target_repository m import_id file) s report
                    (rw (import_dim, fine) at h),
              ))
      ]
