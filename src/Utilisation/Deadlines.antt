-- ===== src/Utilisation/Deadlines.antt =====
-- The deadline for the report on an order's codes (`pollUtilisationDeadlines` of
-- apps/api/src/outbox-poller.ts): alerts seven, three and one day before it, and the codes expire
-- after it.
use mark_solutions.Base.{
  ℕ, ◌-◌, ◌/◌, ◌≡◌, refl, inl, inr, Bool, true, false, ◌&&◌, ◌||◌, not, List, [], ◌∷◌, ◌++◌, arith,
  leb, ◌==◌, is_some, if◌then◌else◌, Bool-cases, take, filter, any, find, update_where,
}
use mark_solutions.Store.{
  Order, CodeStatus, CodeVault, AlertKind, alert, expire, UtilisationAlert, Db, ok, Action, pure,
  gets, ◌>>=◌, ◌>>◌, modify,
}
use mark_solutions.Orders.{insert_outbox}
use mark_solutions.Vault.{code_of_order}
use mark_solutions.Emission.{task_row}
use mark_solutions.Utilisation.{is_emitted}

abbrev pub days_since : ℕ → ℕ → ℕ
days_since now then_ms = (now - then_ms) / 86400000

abbrev pub is_alert_day : ℕ → Bool
is_alert_day left = (left == 7) || ((left == 3) || (left == 1))

abbrev pub alert_row : Order → ℕ → AlertKind → UtilisationAlert
alert_row o left kind = record {
  tenant_id = o.tenant_id;
  order_id = o.id;
  days_left = left;
  kind = kind;
}

abbrev pub is_alert_of : ℕ → ℕ → UtilisationAlert → Bool
is_alert_of order_id left a = (a.order_id == order_id) && (a.days_left == left)

abbrev pub insert_alert : UtilisationAlert → Action Unit
insert_alert a = modify (λ db. record db { alerts = db.alerts ++ (a ∷ []) })

unfoldable pub alert_step : Order → ℕ → Action Unit
unfolding insert_outbox
alert_step o left = do
  known ← gets (λ db. is_some (find (is_alert_of o.id left) db.alerts))
  if is_alert_day left && not known
      then (do insert_alert (alert_row o left alert); insert_outbox (task_row o.id o.tenant_id))
      else pure tt

abbrev pub is_expired : CodeStatus → Bool
is_expired CodeStatus.expired = true
is_expired _ = false

abbrev pub set_expired : CodeVault → CodeVault
set_expired c = record c { status = CodeStatus.expired }

-- `status: { not: "EXPIRED" }`
abbrev pub is_unexpired_of : ℕ → CodeVault → Bool
is_unexpired_of order_id c = code_of_order order_id c && not (is_expired c.status)

unfoldable pub expire_step : Order → Action Unit
expire_step o = do
  left_over ← gets (λ db. any (is_unexpired_of o.id) db.vault)
  if left_over
      then (do
        modify (λ db. record db { vault = update_where (code_of_order o.id) set_expired db.vault })
        insert_alert (alert_row o 0 expire))
      else pure tt

unfoldable pub deadline_step : ℕ → ℕ → Order → Action Unit
deadline_step deadline now o = do
  let days = days_since now o.updated_at
  alert_step o (deadline - days)
  if leb deadline days then expire_step o else pure tt

abbrev pub deadline_each : ℕ → ℕ → List Order → Action Unit
deadline_each deadline now [] = pure tt
deadline_each deadline now (o ∷ rest) =
    deadline_step deadline now o >> deadline_each deadline now rest

unfoldable pub poll_utilisation_deadlines : ℕ → ℕ → Action Unit
poll_utilisation_deadlines deadline now = do
  rows ← gets (λ db. take 50 (filter (λ o. is_emitted o.status) db.orders))
  deadline_each deadline now rows

-- The code is of another order, or it has expired.
abbrev pub IsExpiredOf : ℕ → CodeVault → Type 0
IsExpiredOf order_id c = is_unexpired_of order_id c ≡ false

expired_rows :
    (id : ℕ) (rows : List CodeVault)
    → any (is_unexpired_of id) (update_where (code_of_order id) set_expired rows) ≡ false
expired_rows id [] = refl
expired_rows id (c ∷ rows) = ground (arith, expired_rows id rows)

other_rows :
    (id other : ℕ) (rows : List CodeVault)
    → (id == other) ≡ false
    → filter (code_of_order other) (update_where (code_of_order id) set_expired rows)
      ≡ filter (code_of_order other) rows
other_rows id other [] h = refl
other_rows id other (c ∷ rows) h = elim (Bool-cases (code_of_order id c)) [
  | inl own ↦
      let elsewhere : (c.order_id == other) ≡ false = ground (arith, own, h) in
      rw (own, elsewhere) (other_rows id other rows h)
  | inr foreign ↦ rw (foreign, other_rows id other rows h) refl
]

-- Once the codes of an order are due, none of them is left that has not expired, whatever status it
-- had, the codes of another order keep their rows, and a further run changes nothing.
pub expire_step-expire_step :
    (o : Order) (other : ℕ) (db : Db)
    → (o.id == other) ≡ false
    → let db' = (expire_step o db).1 in
      (any (is_unexpired_of o.id) db'.vault ≡ false)
      × (filter (code_of_order other) db'.vault ≡ filter (code_of_order other) db.vault)
      × (expire_step o db' ≡ (ok tt, db'))
unfolding expire_step
expire_step-expire_step o other db differ =
    elim (Bool-cases (any (is_unexpired_of o.id) db.vault)) [
      | inl due ↦ rw due (
        expired_rows o.id db.vault,
        other_rows o.id other db.vault differ,
        rw (expired_rows o.id db.vault) refl,
      )
      | inr none_due ↦ rw none_due (none_due, refl, rw none_due refl)
    ]
