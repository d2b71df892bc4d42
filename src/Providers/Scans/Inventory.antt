-- ===== src/Providers/Scans/Inventory.antt =====
-- What a metadata scan does to the inventory of a provider and to the candidates for removal.
use router_extra.Prelude.{
  ℕ, String, ◌≡◌, refl, ap, ◌∙◌, Bool, true, false, not, Option, none, some, List, [], ◌∷◌, ◌++◌,
  arith, if◌then◌else◌, keep, keep-append, get,
}
use router_extra.Providers.{ModelRow, Provider}
use router_extra.Providers.Scans.{
  by_id, partial_rows, full_rows, manual_rows, refresh_counts, rows_of, merged, carry_over,
  update_rows, update_row, back_off,
}
use router_extra.Providers.Scans.Results.{failed_scan, scanned, incoming_of, ScanError}

-- A failed scan keeps the whole inventory, whatever it reports.
pub models-failed_scan :
    (now : ℕ) (e : ScanError) (p : Provider) → (failed_scan now e p).models ≡ p.models
unfolding failed_scan back_off
models-failed_scan now e p = ground arith

managed-merged :
    (now : ℕ) (previous : List (String × ModelRow)) (row : ModelRow)
    → (merged now previous row).scanner_managed ≡ true
unfolding merged carry_over
managed-merged now previous row = ground arith

manual_rows-rows_of :
    (now : ℕ) (previous xs : List (String × ModelRow)) → manual_rows (rows_of now previous xs) ≡ []
unfolding manual_rows rows_of keep
manual_rows-rows_of now previous [] = refl
manual_rows-rows_of now previous ((id, row) ∷ rest) =
    ground (arith, manual_rows-rows_of now previous rest, managed-merged now previous row)

manual_rows-again : (rows : List ModelRow) → manual_rows (manual_rows rows) ≡ manual_rows rows
unfolding manual_rows keep
manual_rows-again [] = refl
manual_rows-again (row ∷ rows) = ground (arith, manual_rows-again rows)

update_row-manual :
    (o : Option ModelRow) (now : ℕ) (previous : List (String × ModelRow)) (old : ModelRow)
    → old.scanner_managed ≡ false
    → update_row o now previous old ≡ old
unfolding update_row
update_row-manual none now previous old h = refl
update_row-manual (some row) now previous old h = rw h refl

managed-update_row :
    (o : Option ModelRow) (now : ℕ) (previous : List (String × ModelRow)) (old : ModelRow)
    → old.scanner_managed ≡ true
    → (update_row o now previous old).scanner_managed ≡ true
unfolding update_row
managed-update_row none now previous old h = h
managed-update_row (some row) now previous old h =
    ap (λ b. (if b then merged now previous row else old).scanner_managed) h
    ∙ managed-merged now previous row

manual_rows-update_rows :
    (now : ℕ) (previous incoming : List (String × ModelRow)) (rows : List ModelRow)
    → manual_rows (update_rows now previous incoming rows) ≡ manual_rows rows
unfolding manual_rows keep update_rows
manual_rows-update_rows now previous incoming [] = refl
manual_rows-update_rows now previous incoming (row ∷ rows) = ground (
  arith,
  manual_rows-update_rows now previous incoming rows,
  update_row-manual (get row.canonical_id incoming) now previous row,
  managed-update_row (get row.canonical_id incoming) now previous row,
)

manual_rows-append :
    (xs ys : List ModelRow) → manual_rows (xs ++ ys) ≡ manual_rows xs ++ manual_rows ys
unfolding manual_rows
manual_rows-append xs ys = keep-append (λ row. not row.scanner_managed) xs ys

append-nothing : (xs ys : List ModelRow) → ys ≡ [] → xs ++ ys ≡ xs
append-nothing [] ys e = e
append-nothing (x ∷ xs) ys e = ap (◌∷◌ x) (append-nothing xs ys e)

-- A successful scan keeps the operator's own rows, in order and unchanged.
pub manual_rows-scanned :
    (now : ℕ) (authoritative : Bool) (models : List ModelRow) (p : Provider)
    → manual_rows (scanned now authoritative models p).models ≡ manual_rows p.models
unfolding scanned refresh_counts full_rows partial_rows
manual_rows-scanned now true models p =
    manual_rows-append (rows_of now (by_id p.models) (incoming_of models p)) (manual_rows p.models)
    ∙ ap (λ xs. xs ++ manual_rows (manual_rows p.models))
        (manual_rows-rows_of now (by_id p.models) (incoming_of models p))
    ∙ manual_rows-again p.models
manual_rows-scanned now false models p =
    manual_rows-append (update_rows now (by_id p.models) (incoming_of models p) p.models) _
    ∙ append-nothing _ _ (manual_rows-rows_of now (by_id p.models) _)
    ∙ manual_rows-update_rows now (by_id p.models) (incoming_of models p) p.models
