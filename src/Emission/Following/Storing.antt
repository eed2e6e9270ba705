-- ===== src/Emission/Following/Storing.antt =====
-- What the storing of an order's codes does to the other tables and to the vault.
use mark_solutions.Base.{
  ℕ, ◌+◌, ◌≡◌, refl, ◌∙◌, inl, inr, List, [], ◌∷◌, arith, ==_refl, Bool-cases, Option-cases, length,
  length-append, filter, filter-append, any, find,
}
use mark_solutions.Store.{Order, Db}
use mark_solutions.Catalog.Km.{Adr006Km}
use mark_solutions.Orders.{has_order_id}
use mark_solutions.Vault.{code_of_order, vault_row, store_codes, ingest}

-- Storing codes touches the vault alone.
pub store_codes-others :
    (o : Order) (codes : List Adr006Km) (db : Db)
    → ((store_codes o codes db).ledger ≡ db.ledger)
      × ((store_codes o codes db).accounts ≡ db.accounts)
      × ((store_codes o codes db).orders ≡ db.orders)
unfolding store_codes
store_codes-others o [] db = (refl, refl, refl)
store_codes-others o (code ∷ codes) db = store_codes-others o codes _

-- Nor are the lines of orders and the reports touched.
pub store_codes-tables :
    (o : Order) (codes : List Adr006Km) (db : Db)
    → ((store_codes o codes db).lines ≡ db.lines) × ((store_codes o codes db).reports ≡ db.reports)
unfolding store_codes
store_codes-tables o [] db = (refl, refl)
store_codes-tables o (code ∷ codes) db = store_codes-tables o codes _

pub store_codes-count :
    (o : Order) (codes : List Adr006Km) (db : Db)
    → length (filter (code_of_order o.id) (store_codes o codes db).vault)
      ≡ length (filter (code_of_order o.id) db.vault) + length codes
unfolding store_codes
store_codes-count o [] db = omega arith
store_codes-count o (code ∷ codes) db =
    store_codes-count o codes _
    ∙ rw
        (
          filter-append (code_of_order o.id) db.vault (vault_row db.next_id o code ∷ []),
          ==_refl o.id,
        )
        (omega (
          arith,
          length-append (filter (code_of_order o.id) db.vault) (vault_row db.next_id o code ∷ []),
        ))

abbrev pub SameMoney : Db → Db → Type 0
SameMoney db' db = (db'.ledger ≡ db.ledger) × (db'.accounts ≡ db.accounts)

pub ingest-SameMoney :
    (id : ℕ) (codes : List Adr006Km) (db : Db) → SameMoney (ingest id codes db).1 db
unfolding ingest
ingest-SameMoney id codes db = elim (Option-cases (find (has_order_id id) db.orders)) [
  | inl absent ↦ rw absent (refl, refl)
  | inr (o, found) ↦ rw found (elim (Bool-cases (any (code_of_order id) db.vault)) [
    | inl some_codes ↦ rw some_codes (refl, refl)
    | inr no_codes ↦ rw no_codes (let (l, a, _) = store_codes-others o codes db in (l, a))
  ])
]
