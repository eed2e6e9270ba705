-- ===== src/Documents/Deciding/Confirmed.antt =====
-- What becomes of an import that the marking system has confirmed.
use mark_solutions.Base.{
  ℕ, ◌≡◌, refl, ◌∙◌, ap, ◌⊎◌, inl, inr, true, some, List, [], ◌∷◌, arith, ==_refl, Bool-cases,
  Option-cases, All, any, find, find-update_where, update_where,
}
use mark_solutions.Store.{
  CodeEventType, CodeVault, DocumentStatus, ImportDocument, Db, bad_request, Result, ok, err,
  then_gives, caught, committed,
}
use mark_solutions.Orders.{insert_outbox}
use mark_solutions.Codes.{allows, owned_code, code_has_id, target_status, record_event_on}
use mark_solutions.Codes.Life.{IdsDiffer}
use mark_solutions.Vault.{code_of_tenant, rows_of}
use mark_solutions.Documents.{is_submitted}
use mark_solutions.Documents.Deciding.{
  Decision, confirmed, system, import_has_id, set_import, is_open_import, fail_import,
  introduce_each, finish_import, import_failed, decide_import, sent_as, undecided_import,
  reconcile_import,
}
use mark_solutions.Documents.Deciding.Introducing.{
  introduced, IsIntroduced, Ends, introduce_each-Ends, rows_of-IsKnown, filter-IdsDiffer,
}

record_event_on-imports :
    (t id actor : ℕ) (e : CodeEventType) (db : Db)
    → (record_event_on t id actor (some e) db).1.imports ≡ db.imports
unfolding record_event_on
record_event_on-imports t id actor e db = elim (Option-cases (find (owned_code t id) db.vault)) [
  | inl absent ↦ rw absent refl
  | inr (c, found) ↦ rw found (elim (Bool-cases (allows c.status (target_status e))) [
    | inl may ↦ rw may refl
    | inr not_so ↦ rw not_so refl
  ])
]

introduce_each-imports :
    (t : ℕ) (codes : List CodeVault) (db : Db) → (introduce_each t codes db).1.imports ≡ db.imports
unfolding introduce_each
introduce_each-imports t [] db = refl
introduce_each-imports t (c ∷ codes) db =
    go (record_event_on t c.id system (some CodeEventType.introduced) db)
      (record_event_on-imports t c.id system CodeEventType.introduced db)
      (introduce_each-imports t codes)
  where
    go :
        {A : Type 0} (m : Result A × Db)
        → m.1.imports ≡ db.imports
        → ((db' : Db) → (introduce_each t codes db').1.imports ≡ db'.imports)
        → (then_gives m (λ e. introduce_each t codes)).1.imports ≡ db.imports
    go (ok x, db') h ih = ih db' ∙ h
    go (err x, db') h ih = h

module _ (doc : ImportDocument) (db : Db) (u : IdsDiffer db.vault)
    (found : find (import_has_id doc.id) db.imports ≡ some doc)
    (undecided : is_submitted doc.status ≡ true) where
  abbrev claimed : Db
  claimed = record db {
    imports = update_where (is_open_import doc.id) (set_import DocumentStatus.success) db.imports;
  }

  abbrev codes : List CodeVault
  codes = rows_of doc.order_id doc.tenant_id db

  abbrev IsDecided : Result (Unit {0}) × Db → Type 0
  IsDecided (r, db') =
      (r ≡ ok tt)
      × (((find (import_has_id doc.id) db'.imports ≡ some (set_import DocumentStatus.success doc))
            × All (IsIntroduced db') codes)
          ⊎ ((find (import_has_id doc.id) db'.imports ≡ some (set_import DocumentStatus.error doc))
              × (db'.vault ≡ db.vault)
              × (db'.events ≡ db.events)))

  hit : any (is_open_import doc.id) db.imports ≡ true
  hit = by_rows db.imports found
    where
      by_rows :
          (rows : List ImportDocument)
          → find (import_has_id doc.id) rows ≡ some doc
          → any (is_open_import doc.id) rows ≡ true
      by_rows [] h = cc
      by_rows (x ∷ rows) h = elim (Bool-cases (import_has_id doc.id x)) [
        | inl here ↦ ground (arith, undecided)
        | inr later ↦ ground (arith, by_rows rows (rw later at h))
      ]

  finish_import-introduce_each : finish_import doc db ≡ introduce_each doc.tenant_id codes claimed
  unfolding finish_import
  finish_import-introduce_each = rw hit refl

  claimed_import :
      find (import_has_id doc.id) claimed.imports ≡ some (set_import DocumentStatus.success doc)
  claimed_import =
      find-update_where (import_has_id doc.id) (is_open_import doc.id)
        (set_import DocumentStatus.success) db.imports (λ x. refl)
      ∙ rw (found, ==_refl doc.id, undecided) refl

  failed_import :
      (db' : Db)
      → db'.imports ≡ db.imports
      → find (import_has_id doc.id) (fail_import doc db').1.imports
        ≡ some (set_import DocumentStatus.error doc)
  unfolding fail_import insert_outbox
  failed_import db' same =
      find-update_where (import_has_id doc.id) (import_has_id doc.id)
        (set_import DocumentStatus.error) db'.imports (λ x. refl)
      ∙ rw (same, found, ==_refl doc.id) refl

  decided :
      (m : Result (Unit {0}) × Db)
      → Ends codes claimed m
      → m.1.imports ≡ claimed.imports
      → IsDecided (caught (committed m db) (import_failed doc))
  unfolding import_failed fail_import insert_outbox
  decided (ok x, db') e same = (refl, inl (rw same claimed_import, e.0))
  decided (err bad_request, db') e same = (refl, inr (failed_import db refl, refl, refl))
  decided (err x, db') e same = absurd e

  -- A submitted import that the marking system has confirmed is decided for good at the next tick, in
  -- one of two ways: it is a success, and every code of its order is introduced, or it is an error,
  -- and no code and no event has been written.
  pub reconcile_import-confirmed :
      (now timeout : ℕ) (mpt : ℕ → Decision) (external : ℕ)
      → doc.external_document_id ≡ some external
      → mpt external ≡ confirmed
      → let (r, db') = reconcile_import now timeout mpt doc.id db in
        (r ≡ ok tt)
        × (((find (import_has_id doc.id) db'.imports ≡ some (set_import DocumentStatus.success doc))
              × All
                  (λ c. find (code_has_id c.id) db'.vault ≡ some (introduced c))
                  (rows_of doc.order_id doc.tenant_id db))
            ⊎ ((find (import_has_id doc.id) db'.imports
                  ≡ some (set_import DocumentStatus.error doc))
                × (db'.vault ≡ db.vault)
                × (db'.events ≡ db.events)))
  unfolding reconcile_import decide_import
  reconcile_import-confirmed now timeout mpt external sent answer =
      let ends =
        introduce_each-Ends doc.tenant_id codes claimed
          (filter-IdsDiffer (code_of_tenant doc.order_id doc.tenant_id) db.vault u)
          (rows_of-IsKnown doc.order_id doc.tenant_id db.vault u) in
      let whole : undecided_import (find (import_has_id doc.id) db.imports) ≡ some (doc, external) =
        ap undecided_import found
        ∙ ap (λ e. sent_as doc e (is_submitted doc.status)) sent
        ∙ rw undecided refl in
      rw (whole, answer, finish_import-introduce_each)
        (decided (introduce_each doc.tenant_id codes claimed) ends
          (introduce_each-imports doc.tenant_id codes claimed))
