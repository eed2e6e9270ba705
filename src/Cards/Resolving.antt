-- ===== src/Cards/Resolving.antt =====
-- `GtinResolver` (apps/api/src/gtin-resolver.ts): the cache of known GTINs, the check of the register,
-- and the entry by hand.
use mark_solutions.Base.{
  Bool, true, false, Option, none, some, [], ◌∷◌, ◌++◌, if◌then◌else◌, any, find, update_where,
  Text, text_eq,
}
use mark_solutions.Store.{
  GtinStatus, verified, rejected, pending_real, GtinSource, ig, manual, GtinCache, Action, pure,
  gets, modify, ◌>>=◌, ◌>>◌,
}
use mark_solutions.Catalog.Gs1.{verify_gs1_mod10}

pub record Resolution : Type 0 where
  pub passed : Bool
  pub status : GtinStatus
  pub source : GtinSource

-- `MockGs1Adapter.verify`; true is `PENDING_REAL`.
unfoldable pub mock_verify : Text → Bool
mock_verify gtin = verify_gs1_mod10 gtin 14

abbrev pub is_cached : Text → GtinCache → Bool
is_cached gtin row = text_eq row.gtin gtin

abbrev pub cache_row : Text → GtinStatus → GtinSource → GtinCache
cache_row gtin status source = record { gtin = gtin; status = status; source = source }

-- `gtinCache.upsert`
unfoldable pub upsert_cache : Text → GtinStatus → GtinSource → Action Unit
upsert_cache gtin status source = modify (λ db. record db {
  gtin_cache =
      if any (is_cached gtin) db.gtin_cache
      then update_where (is_cached gtin) (λ row. record row { status = status; source = source })
          db.gtin_cache
      else db.gtin_cache ++ (cache_row gtin status source ∷ []);
})

-- What the cache settles; a GTIN that is only checked by its digit is asked for again.
abbrev pub settled : Option GtinCache → Option Resolution
settled none = none
settled (some row) = elim row.status [
  | verified ↦ some (record { passed = true; status = verified; source = row.source })
  | rejected ↦ some (record { passed = false; status = rejected; source = row.source })
  | pending_real ↦ none
]

module _ (verify : Text → Bool) where
  unfoldable pub ask_register : Text → Action Resolution
  unfolding upsert_cache
  ask_register gtin =
      if verify gtin
      then (do
        upsert_cache gtin pending_real ig
        pure (record { passed = true; status = pending_real; source = ig }))
      else (do
        upsert_cache gtin rejected ig
        pure (record { passed = false; status = rejected; source = ig }))

  unfoldable pub resolve : Text → Bool → Action Resolution
  unfolding upsert_cache
  resolve gtin true = do
    upsert_cache gtin verified manual
    pure (record { passed = true; status = verified; source = manual })
  resolve gtin false = do
    cached ← gets (λ db. settled (find (is_cached gtin) db.gtin_cache))
    elim cached [ some r ↦ pure r | none ↦ ask_register gtin ]
