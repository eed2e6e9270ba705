-- ===== src/Codes/Sscc.antt =====
-- The SSCC of an aggregation unit (`tenantSsscPrefix`, `generateSssc` and `verifySssc` of
-- apps/api/src/code-event.service.ts).
pub mod Decimal
pub mod Serial
use mark_solutions.Base.{
  ℕ, zero, suc, ◌+◌, ◌-◌, ◌*◌, ◌/◌, ◌%◌, ◌≤◌, ◌<◌, ◌≡◌, refl, Bool, true, false, Option, none, some,
  List, [], ◌∷◌, ◌++◌, arith, leb, ltb, ◌==◌, if◌then◌else◌, length, find, update_where, all, Text,
  is_digit,
}
use mark_solutions.Store.{SsccCounter, Db, Action, pure, gets, modify, ◌>>=◌, ◌>>◌}
use mark_solutions.Catalog.Gs1.{gs1_mod10_check_digit, verify_gs1_mod10}

-- `String(n)`, with enough fuel for a number that is no greater than it
pub decimal_on : ℕ → ℕ → Text
decimal_on zero n = (48 + n % 10) ∷ []
decimal_on (suc fuel) n =
    let front = decimal_on fuel (n / 10) in
    if ltb n 10 then (48 + n) ∷ [] else front ++ ((48 + n % 10) ∷ [])

unfoldable pub decimal : ℕ → Text
unfolding decimal_on
decimal n = decimal_on n n

abbrev pub zeros : ℕ → Text
zeros zero = []
zeros (suc n) = 48 ∷ zeros n

-- `s.padStart(n, "0")`
abbrev pub pad_start : ℕ → Text → Text
pad_start n s = zeros (n - length s) ++ s

abbrev pub is_counter_of : ℕ → SsccCounter → Bool
is_counter_of tenant c = c.tenant_id == tenant

abbrev pub count : SsccCounter → SsccCounter
count c = record c { next_seq = suc c.next_seq }

-- `ssscCounter.upsert`, which answers the row that it wrote
unfoldable pub upsert_counter : ℕ → Action SsccCounter
upsert_counter tenant = do
  row ← gets (λ db. find (is_counter_of tenant) db.counters)
  elim row [
    | some c ↦ do
      modify (λ db. record db { counters = update_where (is_counter_of tenant) count db.counters })
      pure (count c)
    | none ↦ do
      let fresh : SsccCounter = record { tenant_id = tenant; next_seq = 2 }
      modify (λ db. record db { counters = db.counters ++ (fresh ∷ []) })
      pure fresh
  ]

-- `sha256` gives the first four bytes of the digest of the tenant's identifier, as a number.
module _ (sha256 : ℕ → ℕ) where
  unfoldable pub tenant_sscc_prefix : ℕ → Text
  unfolding decimal
  tenant_sscc_prefix tenant = pad_start 7 (decimal (sha256 tenant % 10000000))

  abbrev pub sscc_of : ℕ → ℕ → Text
  sscc_of tenant seq =
      let base = 48 ∷ (tenant_sscc_prefix tenant ++ pad_start 9 (decimal seq)) in
      base ++ ((48 + gs1_mod10_check_digit base) ∷ [])

  unfoldable pub generate_sscc : ℕ → Action Text
  generate_sscc tenant = do
    counter ← upsert_counter tenant
    pure (sscc_of tenant (counter.next_seq - 1))

abbrev pub verify_sscc : Text → Bool
verify_sscc sscc = verify_gs1_mod10 sscc 18
