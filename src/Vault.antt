-- ===== src/Vault.antt =====
-- `VaultService` (apps/api/src/vault.service.ts): the codes of an order, whose serials are kept
-- encrypted. `open` is taken to give back what `seal` was given, so a row keeps the plain text, and the
-- rows of a table are read in the order of their insertion.
pub mod Revealing
use mark_solutions.Base.{
  ℕ, zero, suc, ◌+◌, ◌-◌, Bool, true, false, ◌&&◌, Option, none, some, List, [], ◌∷◌, ◌++◌, map,
  reverse, ltb, ◌==◌, if◌then◌else◌, take, drop, filter, any, find, Text, length,
}
use mark_solutions.Store.{
  Order, CodeStatus, Secret, CodeVault, ProductCard, ExportKind, VaultExport, Db, not_found, Action,
  pure, gets, or_throw, throw_if, ◌>>=◌, ◌>>◌, modify,
}
use mark_solutions.Catalog.Km.{Adr006Km, base, extended}
use mark_solutions.Orders.{has_order_id}

abbrev pub code_of_order : ℕ → CodeVault → Bool
code_of_order order_id c = c.order_id == order_id

-- `maskOf`: the GTIN, and of a serial of more than six characters the first and the last two.
unfoldable pub mask_of : Text → Text → Text
mask_of gtin serial =
    let hidden = 8226 ∷ 8226 ∷ 8226 ∷ 8226 ∷ [] in
    let shown = take 2 serial ++ (8230 ∷ drop (length serial - 2) serial) in
    gtin ++ (58 ∷ (if ltb 6 (length serial) then shown else hidden))

abbrev pub vault_row : ℕ → Order → Adr006Km → CodeVault
vault_row id o code = record {
  id = id;
  order_id = o.id;
  tenant_id = o.tenant_id;
  card_id = o.card_id;
  gtin = code.gtin;
  mask = mask_of code.gtin code.serial;
  secret = record { serial = code.serial; ai91 = code.ai91; ai92 = code.ai92 };
  label_key = none;
  status = CodeStatus.active;
}

-- The `for` loop of `ingest`
unfoldable pub store_codes : Order → List Adr006Km → Db → Db
store_codes o [] db = db
store_codes o (code ∷ codes) db =
    store_codes o codes (record db {
      next_id = suc db.next_id;
      vault = db.vault ++ (vault_row db.next_id o code ∷ []);
    })

-- Nothing is stored where the order has codes already.
unfoldable pub ingest : ℕ → List Adr006Km → Action Unit
ingest order_id codes = do
  row ← gets (λ db. find (has_order_id order_id) db.orders)
  order ← or_throw row not_found
  existing ← gets (λ db. any (code_of_order order_id) db.vault)
  if existing then pure tt else modify (store_codes order codes)

-- A code as `reveal` hands it out: its form is not kept.
abbrev pub revealed : CodeVault → Adr006Km
revealed r = record {
  gtin = r.gtin;
  serial = r.secret.serial;
  ai91 = r.secret.ai91;
  ai92 = r.secret.ai92;
  form = base;
}

abbrev pub code_of_tenant : ℕ → ℕ → CodeVault → Bool
code_of_tenant order_id tenant c = code_of_order order_id c && (c.tenant_id == tenant)

abbrev pub rows_of : ℕ → ℕ → Db → List CodeVault
rows_of order_id tenant db = filter (code_of_tenant order_id tenant) db.vault

abbrev pub is_no_row : List CodeVault → Bool
is_no_row [] = true
is_no_row (r ∷ rows) = false

unfoldable pub reveal : ℕ → ℕ → Action (List Adr006Km)
reveal order_id tenant = do
  rows ← gets (rows_of order_id tenant)
  throw_if (is_no_row rows) not_found
  pure (map revealed rows)

abbrev pub or_else : Option Text → Text → Text
or_else none s = s
or_else (some s) t = s

-- `withExtended`: `extended_codes` is the setting `KMS_EXTENDED_CODES`, and the two texts are the
-- card's attributes `gtin` and `tnved`, where it has them.
abbrev pub with_extended : Bool → Option Text → Option Text → Adr006Km → Adr006Km
with_extended extended_codes gtin tnved code =
    if extended_codes
    then record code {
      ai91 = some (or_else code.ai91 (or_else gtin code.gtin));
      ai92 = some (or_else code.ai92 (or_else tnved []));
      form = extended;
    }
    else code

abbrev pub owned_vault_row : ℕ → ℕ → CodeVault → Bool
owned_vault_row id tenant c = (c.id == id) && (c.tenant_id == tenant)

-- `revealOne`
unfoldable pub reveal_one : Bool → (ℕ → Option Text × Option Text) → ℕ → ℕ → Action Adr006Km
reveal_one extended_codes card code_id tenant = do
  found ← gets (λ db. find (owned_vault_row code_id tenant) db.vault)
  row ← or_throw found not_found
  let (gtin, tnved) = card row.card_id
  pure (with_extended extended_codes gtin tnved (revealed row))

-- `codesByOrder`: the codes of an order, oldest first, without their serials
pub record ListedCode : Type 0 where
  pub id : ℕ
  pub gtin : Text
  pub mask : Text
  pub status : CodeStatus

abbrev pub listed : CodeVault → ListedCode
listed c = record { id = c.id; gtin = c.gtin; mask = c.mask; status = c.status }

unfoldable pub codes_by_order : ℕ → ℕ → Db → List ListedCode
codes_by_order order_id tenant db = map listed (rows_of order_id tenant db)

-- `revealForExport`; an absent card has no attributes.
abbrev pub attributes_of : (ℕ → Option Text × Option Text) → Option ℕ → Option Text × Option Text
attributes_of card none = (none, none)
attributes_of card (some id) = card id

unfoldable pub reveal_for_export :
    Bool → (ℕ → Option Text × Option Text) → ℕ → ℕ → Option ℕ → Action (List Adr006Km)
reveal_for_export extended_codes card order_id tenant card_id = do
  rows ← gets (rows_of order_id tenant)
  throw_if (is_no_row rows) not_found
  let (gtin, tnved) = attributes_of card card_id
  pure (map (λ r. with_extended extended_codes gtin tnved (revealed r)) rows)

-- `masks`: the newest two hundred codes of a tenant, without their serials
pub record MaskedCode : Type 0 where
  pub gtin : Text
  pub mask : Text
  pub status : CodeStatus
  pub order_id : ℕ

abbrev pub masked : CodeVault → MaskedCode
masked c = record { gtin = c.gtin; mask = c.mask; status = c.status; order_id = c.order_id }

unfoldable pub masks : ℕ → Db → List MaskedCode
masks tenant db = map masked (take 200 (reverse (filter (λ c. c.tenant_id == tenant) db.vault)))

-- `logExport`
unfoldable pub log_export : VaultExport → Action Unit
log_export row = modify (λ db. record db { exports = db.exports ++ (row ∷ []) })
