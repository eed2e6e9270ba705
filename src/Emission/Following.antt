-- ===== src/Emission/Following.antt =====
-- What following an order up does to the money and to the vault.
mod Storing
use mark_solutions.Base.{
  ℕ, ◌+◌, ◌≤◌, ◌≡◌, refl, sym, ◌∙◌, ap, inl, inr, Bool, true, false, some, List, [], ◌∷◌, arith,
  ltb, ==_refl, ==_iff, Text, Bool-cases, Option-cases, length, length-append, filter,
  filter-append, any, find, find_sound, update_where,
}
use mark_solutions.Store.{Order, OrderStatus, CodeVault, Db, ok}
use mark_solutions.Catalog.Km.{Adr006Km}
use mark_solutions.Orders.{has_order_id, set_status, insert_outbox}
use mark_solutions.Orders.Placing.{status-find}
use mark_solutions.Vault.{code_of_order, vault_row, store_codes, ingest}
use mark_solutions.Emission.{
  MptStatus, ready, rejected, in_progress, MptView, Mpt, parse_all, expected_quantity, status_eq,
  take_codes, is_absent, mpt_id, follow, reconcile_order,
}
pub use Storing.*

-- Whether an answer of the marking system makes the reserve due for release.
abbrev pub is_release_due : ℕ → ℕ → Order → MptView → MptStatus → Bool
is_release_due now timeout o view ready = false
is_release_due now timeout o view rejected = true
is_release_due now timeout o view in_progress = is_absent now timeout o view

take_codes-SameMoney :
    (now : ℕ) (o : Order) (codes : List Adr006Km) (expected : ℕ) (db : Db)
    → SameMoney (take_codes now o codes expected db).1 db
unfolding take_codes insert_outbox
take_codes-SameMoney now o codes expected db = elim (Bool-cases (ltb (length codes) expected)) [
  | inl few ↦ rw few (elim (Bool-cases (status_eq o.status OrderStatus.partially_completed)) [
    | inl before ↦ rw before (refl, refl)
    | inr first ↦ rw first (ingest-SameMoney o.id codes _)
  ])
  | inr enough ↦ rw enough (elim (Bool-cases (status_eq o.status OrderStatus.completed)) [
    | inl before ↦ rw before (refl, refl)
    | inr first ↦ rw first (ingest-SameMoney o.id codes _)
  ])
]

abbrev pub with_status : ℕ → ℕ → OrderStatus → Db → Db
with_status now id status db = record db {
  orders = update_where (has_order_id id) (set_status now status) db.orders;
}

take_codes-stored :
    (now : ℕ) (o : Order) (codes : List Adr006Km) (expected : ℕ) (db : Db)
    → ltb (length codes) expected ≡ false
    → status_eq o.status OrderStatus.completed ≡ false
    → find (has_order_id o.id) db.orders ≡ some o
    → any (code_of_order o.id) db.vault ≡ false
    → take_codes now o codes expected db ≡ (
      ok tt,
      store_codes
          (set_status now OrderStatus.completed o)
          codes
          (with_status now o.id OrderStatus.completed db),
    )
unfolding take_codes ingest
take_codes-stored now o codes expected db enough before found none_yet =
    rw (enough, before, status-find now o.id OrderStatus.completed db.orders found, none_yet) refl

filter_none :
    (p : CodeVault → Bool) (rows : List CodeVault) → any p rows ≡ false → filter p rows ≡ []
filter_none p [] h = refl
filter_none p (c ∷ rows) h = ground (arith, filter_none p rows)

module _ (now timeout : ℕ) (mpt : Mpt) (db : Db) where
  follow-SameMoney :
      (o : Order) (view : MptView) (status : MptStatus)
      → is_release_due now timeout o view status ≡ false
      → SameMoney (follow now timeout mpt o view status db).1 db
  unfolding follow
  follow-SameMoney o view ready h =
      elim (Option-cases (mpt.get_codes (mpt_id o) (expected_quantity o.id db))) [
        | inl failed ↦ rw failed (refl, refl)
        | inr (raw, fetched) ↦ rw fetched (elim (Option-cases (parse_all raw)) [
          | inl bad ↦ rw bad (refl, refl)
          | inr (codes, parsed) ↦
              rw parsed (take_codes-SameMoney now o codes (expected_quantity o.id db) db)
        ])
      ]
  follow-SameMoney o view rejected h = cc
  follow-SameMoney o view in_progress h = rw h (refl, refl)

  -- The reconciliation of an order leaves every posting and every balance alone unless the marking
  -- system has rejected the order, or the order is older than the time-out and is not found under the
  -- identifier that the marking system has given it. Age alone releases nothing.
  pub reconcile_order-SameMoney :
      (order_id : ℕ) (o : Order) (view : MptView)
      → find (has_order_id order_id) db.orders ≡ some o
      → mpt.get_order (mpt_id o) ≡ some view
      → is_release_due now timeout o view view.status ≡ false
      → let db' = (reconcile_order now timeout mpt order_id db).1 in
        (db'.ledger ≡ db.ledger) × (db'.accounts ≡ db.accounts)
  unfolding reconcile_order
  reconcile_order-SameMoney order_id o view found answer not_due =
      rw (found, answer) (follow-SameMoney o view view.status not_due)

  found_by_id :
      (order_id : ℕ) (o : Order)
      → find (has_order_id order_id) db.orders ≡ some o
      → (o.id ≡ order_id) × (find (has_order_id o.id) db.orders ≡ some o)
  found_by_id order_id o found =
      let same : o.id ≡ order_id =
        (==_iff o.id order_id).0 (find_sound (has_order_id order_id) db.orders found) in
      (same, ap (λ i. find (has_order_id i) db.orders) same ∙ found)

  pub reconcile_order-stored :
      (order_id : ℕ) (o : Order) (view : MptView) (raw : List Text) (codes : List Adr006Km)
      → find (has_order_id order_id) db.orders ≡ some o
      → mpt.get_order (mpt_id o) ≡ some view
      → view.status ≡ ready
      → mpt.get_codes (mpt_id o) (expected_quantity o.id db) ≡ some raw
      → parse_all raw ≡ some codes
      → ltb (length codes) (expected_quantity o.id db) ≡ false
      → status_eq o.status OrderStatus.completed ≡ false
      → any (code_of_order o.id) db.vault ≡ false
      → reconcile_order now timeout mpt order_id db ≡ (
        ok tt,
        store_codes
            (set_status now OrderStatus.completed o)
            codes
            (with_status now o.id OrderStatus.completed db),
      )
  unfolding reconcile_order follow
  reconcile_order-stored order_id o view raw codes found answer done fetched parsed enough before
        none_yet =
      let own = (found_by_id order_id o found).1 in
      rw
        (
          found,
          answer,
          done,
          fetched,
          parsed,
          take_codes-stored now o codes (expected_quantity o.id db) db enough before own none_yet,
        )
        refl

  pub reconcile_order-completed :
      (order_id : ℕ) (o : Order) (view : MptView) (raw : List Text) (codes : List Adr006Km)
      → find (has_order_id order_id) db.orders ≡ some o
      → mpt.get_order (mpt_id o) ≡ some view
      → view.status ≡ ready
      → mpt.get_codes (mpt_id o) (expected_quantity o.id db) ≡ some raw
      → parse_all raw ≡ some codes
      → ltb (length codes) (expected_quantity o.id db) ≡ false
      → status_eq o.status OrderStatus.completed ≡ false
      → any (code_of_order o.id) db.vault ≡ false
      → let (r, db') = reconcile_order now timeout mpt order_id db in
        (r ≡ ok tt)
        × (find (has_order_id order_id) db'.orders ≡ some (set_status now OrderStatus.completed o))
        × (length (filter (code_of_order o.id) db'.vault) ≡ length codes)
        × (expected_quantity o.id db ≤ length codes)
  reconcile_order-completed order_id o view raw codes found answer done fetched parsed enough before
        none_yet =
      let o' = set_status now OrderStatus.completed o in
      let marked = with_status now o.id OrderStatus.completed db in
      let (same, own) = found_by_id order_id o found in
      let (l, a, orders) = store_codes-others o' codes marked in
      rw
        (reconcile_order-stored order_id o view raw codes found answer done fetched parsed enough
          before none_yet)
        (
          refl,
          ap (find (has_order_id order_id)) orders
              ∙ ap (λ i. find (has_order_id i) marked.orders) (sym same)
              ∙ status-find now o.id OrderStatus.completed db.orders own,
          store_codes-count o' codes marked
              ∙ rw (filter_none (code_of_order o.id) db.vault none_yet) (omega arith),
          ground (arith, enough),
        )

  -- Where a first, incomplete delivery has put some codes into the vault, the complete one closes the
  -- order as `COMPLETED` and puts none of the missing codes into it.
  pub reconcile_order-late_codes :
      (order_id : ℕ) (o : Order) (view : MptView) (raw : List Text) (codes : List Adr006Km)
      → find (has_order_id order_id) db.orders ≡ some o
      → mpt.get_order (mpt_id o) ≡ some view
      → view.status ≡ ready
      → mpt.get_codes (mpt_id o) (expected_quantity o.id db) ≡ some raw
      → parse_all raw ≡ some codes
      → ltb (length codes) (expected_quantity o.id db) ≡ false
      → status_eq o.status OrderStatus.completed ≡ false
      → any (code_of_order o.id) db.vault ≡ true
      → let (r, db') = reconcile_order now timeout mpt order_id db in
        (r ≡ ok tt)
        × (find (has_order_id order_id) db'.orders ≡ some (set_status now OrderStatus.completed o))
        × (db'.vault ≡ db.vault)
  unfolding reconcile_order follow take_codes ingest
  reconcile_order-late_codes order_id o view raw codes found answer done fetched parsed enough
        before some_yet =
      let (same, own) = found_by_id order_id o found in
      rw
        (
          found,
          answer,
          done,
          fetched,
          parsed,
          enough,
          before,
          status-find now o.id OrderStatus.completed db.orders own,
          some_yet,
        )
        (
          refl,
          ap (λ i. find (has_order_id i) (with_status now o.id OrderStatus.completed db).orders)
                (sym same)
              ∙ status-find now o.id OrderStatus.completed db.orders own,
          refl,
        )
