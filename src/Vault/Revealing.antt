-- ===== src/Vault/Revealing.antt =====
-- What comes out of the vault of what went in.
use mathlib.Core.List.{append-nil, append_assoc}
use mark_solutions.Base.{
  ℕ, ◌≡◌, refl, sym, ◌∙◌, ap, false, List, [], ◌∷◌, ◌++◌, map, arith, ==_refl, filter,
  filter-append, any,
}
use mark_solutions.Store.{Order, CodeVault, Db, ok}
use mark_solutions.Catalog.Km.{Adr006Km, base}
use mark_solutions.Vault.{
  code_of_order, code_of_tenant, vault_row, store_codes, revealed, rows_of, reveal,
}

abbrev pub as_base : Adr006Km → Adr006Km
as_base code = record code { form = base }

map-append : {A B : Type 0} (f : A → B) (xs ys : List A) → map f (xs ++ ys) ≡ map f xs ++ map f ys
map-append f [] ys = refl
map-append f (x ∷ xs) ys = ap (◌∷◌ (f x)) (map-append f xs ys)

stored_rows :
    (o : Order) (codes : List Adr006Km) (db : Db)
    → map revealed (rows_of o.id o.tenant_id (store_codes o codes db))
      ≡ map revealed (rows_of o.id o.tenant_id db) ++ map as_base codes
unfolding store_codes
stored_rows o [] db = sym (append-nil (map revealed (rows_of o.id o.tenant_id db)))
stored_rows o (code ∷ codes) db =
    stored_rows o codes _
    ∙ rw
        (
          filter-append (code_of_tenant o.id o.tenant_id) db.vault
              (vault_row db.next_id o code ∷ []),
          ==_refl o.id,
          ==_refl o.tenant_id,
          map-append revealed (rows_of o.id o.tenant_id db) (vault_row db.next_id o code ∷ []),
        )
        (append_assoc (map revealed (rows_of o.id o.tenant_id db)) (as_base code ∷ [])
          (map as_base codes))

none_of_tenant :
    (id tenant : ℕ) (rows : List CodeVault)
    → any (code_of_order id) rows ≡ false
    → filter (code_of_tenant id tenant) rows ≡ []
none_of_tenant id tenant [] h = refl
none_of_tenant id tenant (c ∷ rows) h = ground (arith, none_of_tenant id tenant rows)

reveal_rows :
    (id tenant : ℕ) (db : Db) (code : Adr006Km) (codes : List Adr006Km)
    → map revealed (rows_of id tenant db) ≡ code ∷ codes
    → reveal id tenant db ≡ (ok (code ∷ codes), db)
unfolding reveal
reveal_rows id tenant db code codes h = by_rows (rows_of id tenant db) refl h
  where
    by_rows :
        (rows : List CodeVault)
        → rows_of id tenant db ≡ rows
        → map revealed rows ≡ code ∷ codes
        → reveal id tenant db ≡ (ok (code ∷ codes), db)
    by_rows [] e k = cc
    by_rows (r ∷ rows) e k = rw (e, k) refl

-- What was stored for an order without codes is revealed to its tenant.
pub reveal-store_codes :
    (o : Order) (db : Db) (code : Adr006Km) (codes : List Adr006Km)
    → any (code_of_order o.id) db.vault ≡ false
    → reveal o.id o.tenant_id (store_codes o (code ∷ codes) db)
      ≡ (ok (map as_base (code ∷ codes)), store_codes o (code ∷ codes) db)
reveal-store_codes o db code codes none_yet =
    reveal_rows o.id o.tenant_id (store_codes o (code ∷ codes) db) (as_base code)
      (map as_base codes)
      (stored_rows o (code ∷ codes) db
        ∙ rw (none_of_tenant o.id o.tenant_id db.vault none_yet) refl)
