-- ===== src/Utilisation/Submitting.antt =====
-- What the submission of a report writes when the marking system takes it for consideration.
use mark_solutions.Base.{
  ℕ, suc, ◌≡◌, refl, ap, true, Option, some, none, List, [], ◌∷◌, ◌++◌, map, find, Text, length,
  ◌==◌,
}
use mark_solutions.Store.{Order, ReportStatus, in_process, Db, ok}
use mark_solutions.Catalog.Km.{Adr006Km}
use mark_solutions.Orders.{has_order_id}
use mark_solutions.Vault.{reveal, log_export}
use mark_solutions.Vault.Revealing.{as_base}
use mark_solutions.Utilisation.{
  Report, is_complete, is_emitted, has_report_key, report_row, insert_report, export_row,
  send_report, submit,
}

abbrev pub serials : List Adr006Km → List Text
serials codes = map (λ c. c.serial) codes

pub serials-as_base : (codes : List Adr006Km) → serials (map as_base codes) ≡ serials codes
serials-as_base [] = refl
serials-as_base (code ∷ codes) = ap (◌∷◌ code.serial) (serials-as_base codes)

-- The tables with the new report and the entry on the export of the codes.
abbrev pub reported : ℕ → ℕ → ℕ → List Text → ℕ → Db → Db
reported tenant order_id key sntins report_id db = record db {
  next_id = suc db.next_id;
  exports = db.exports ++ (export_row tenant order_id (length sntins) ∷ []);
  reports =
      db.reports
      ++ (record (report_row tenant order_id key sntins (report_id, in_process)) { id = db.next_id }
          ∷ []);
}

pub submit_taken :
    (mpt : List Text → Option (ℕ × ReportStatus)) (tenant key report_id : ℕ) (body : Report)
    (o : Order) (code : Adr006Km) (codes : List Adr006Km) (db : Db)
    → is_complete body ≡ true
    → find (has_order_id body.order_id) db.orders ≡ some o
    → o.tenant_id == tenant ≡ true
    → is_emitted o.status ≡ true
    → find (has_report_key key) db.reports ≡ none
    → reveal body.order_id tenant db ≡ (ok (code ∷ codes), db)
    → mpt (serials (code ∷ codes)) ≡ some (report_id, in_process)
    → submit mpt tenant (some key) body db ≡ (
      ok (report_id, in_process),
      reported tenant body.order_id key (serials (code ∷ codes)) report_id db,
    )
unfolding submit send_report log_export insert_report
submit_taken mpt tenant key report_id body o code codes db complete found owner emitted new out
      taken =
    rw (complete, found, owner, emitted, new, out, taken) refl
