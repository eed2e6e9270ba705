-- ===== src/Emission/Sending.antt =====
-- A message to the marking system goes out once.
use mark_solutions.Base.{
  ℕ, ◌≡◌, refl, ◌∙◌, ap, inl, inr, Bool, true, false, none, some, List, [], ◌∷◌, ◌++◌,
  if◌then◌else◌, Bool-cases, Option-cases, find, find_sound, find-append, find-update_where,
  update_where,
}
use mark_solutions.Store.{Order, OutboxStatus, processed, Outbox, Db, ok}
use mark_solutions.Orders.{has_order_id, is_pending, insert_outbox}
use mark_solutions.Emission.{
  Reply, confirmed, refused, unknown, has_row_id, set_row_status, mark_sent, mark_unknown,
  is_cancelled, was_cancelled, is_cancelled, after_reply, post_order, order_to_send, order_of_row,
  send_row, pending_row, send_to_mpt,
}

-- The message is closed: absent, or no longer pending.
abbrev pub IsClosed : ℕ → Db → Type 0
IsClosed id db = pending_row (find (has_row_id id) db.outbox) ≡ none

closed_after_update :
    (id : ℕ) (f : Outbox → Outbox) (rows : List Outbox)
    → ((row : Outbox) → has_row_id id (f row) ≡ has_row_id id row)
    → ((row : Outbox) → is_pending (f row).status ≡ false)
    → pending_row (find (has_row_id id) (update_where (has_row_id id) f rows)) ≡ none
closed_after_update id f rows keeps closes =
    ap pending_row (find-update_where (has_row_id id) (has_row_id id) f rows keeps)
    ∙ elim (Option-cases (find (has_row_id id) rows)) [
      | inl absent ↦ rw absent
      | inr (row, found) ↦ rw (found, find_sound (has_row_id id) rows found, closes row)
    ]

closed_after_append :
    (id : ℕ) (row : Outbox) (rows : List Outbox)
    → is_pending row.status ≡ false
    → pending_row (find (has_row_id id) rows) ≡ none
    → pending_row (find (has_row_id id) (rows ++ (row ∷ []))) ≡ none
closed_after_append id row rows new old =
    ap pending_row (find-append (has_row_id id) rows row)
    ∙ elim (Option-cases (find (has_row_id id) rows)) [
      | inl absent ↦
          rw absent (elim (Bool-cases (has_row_id id row)) [
            | inl own ↦ rw (own, new)
            | inr other ↦ rw other
          ])
      | inr (x, found) ↦ rw found (rw found at old)
    ]

after_reply-IsClosed :
    (now id : ℕ) (o : Order) (reply : Reply) (db : Db)
    → IsClosed id (after_reply now id o reply db).1
unfolding after_reply insert_outbox
after_reply-IsClosed now id o refused db = closed_after_append id _ _ refl (
    closed_after_update id (set_row_status OutboxStatus.failed) db.outbox (λ row. refl)
      (λ row. refl))
after_reply-IsClosed now id o unknown db =
    closed_after_update id mark_unknown db.outbox (λ row. refl) (λ row. refl)
after_reply-IsClosed now id o (confirmed external) db =
    elim (Bool-cases (was_cancelled (find (has_order_id o.id) db.orders))) [
      | inl gone ↦
          rw gone (
            closed_after_update id (set_row_status processed) db.outbox (λ row. refl) (λ row. refl))
      | inr live ↦
          rw live (
            closed_after_update id (set_row_status processed) db.outbox (λ row. refl) (λ row. refl))
    ]

module _ (now : ℕ) (post : Order → ℕ → Db → Reply × Db) (id : ℕ) (db : Db) where
  send_row-IsClosed : (row : Outbox) → IsClosed id (send_row now post id row db).1
  unfolding send_row post_order
  send_row-IsClosed row = elim (Option-cases (order_to_send (order_of_row row db))) [
    | inl absent ↦
        rw absent (closed_after_update id (set_row_status processed) _ (λ x. refl) (λ x. refl))
    | inr (o, found) ↦ rw found (after_reply-IsClosed now id o _ _)
  ]

  send_to_mpt-IsClosed : IsClosed id (send_to_mpt now post id db).1
  unfolding send_to_mpt
  send_to_mpt-IsClosed = elim (Option-cases (pending_row (find (has_row_id id) db.outbox))) [
    | inl closed ↦ rw closed closed
    | inr (row, found) ↦ rw found (send_row-IsClosed row)
  ]

  -- A message is worked on once: however the marking system replies, and whatever other processes
  -- commit meanwhile, a later attempt on the same message changes nothing and does not depend on the
  -- marking system, so that no second order is posted.
  pub send_to_mpt-send_to_mpt :
      (later : ℕ) (post' : Order → ℕ → Db → Reply × Db)
      → let db' = (send_to_mpt now post id db).1 in send_to_mpt later post' id db' ≡ (ok tt, db')
  unfolding send_to_mpt
  send_to_mpt-send_to_mpt later post' = rw send_to_mpt-IsClosed

abbrev pub is_unknown : Reply → Bool
is_unknown unknown = true
is_unknown _ = false

mark_sent-find :
    (now id : ℕ) (rows : List Order) {c : Order}
    → find (has_order_id id) rows ≡ some c
    → find (has_order_id id) (update_where (has_order_id id) (mark_sent now none) rows)
      ≡ some (mark_sent now none c)
mark_sent-find now id rows h =
    find-update_where (has_order_id id) (has_order_id id) (mark_sent now none) rows (λ x. refl)
    ∙ rw (h, find_sound (has_order_id id) rows h)

-- An order that was cancelled while its message was on the way keeps its row where the marking system
-- answers, with a confirmation or a refusal; where the answer is lost, the order becomes `SENT` again.
pub after_reply-cancelled :
    (now id : ℕ) (o : Order) (reply : Reply) (db : Db) (c : Order)
    → find (has_order_id o.id) db.orders ≡ some c
    → is_cancelled c.status ≡ true
    → find (has_order_id o.id) (after_reply now id o reply db).1.orders
      ≡ some (if is_unknown reply then mark_sent now none c else c)
unfolding after_reply insert_outbox
after_reply-cancelled now id o refused db c here gone = here
after_reply-cancelled now id o unknown db c here gone = mark_sent-find now o.id db.orders here
after_reply-cancelled now id o (confirmed external) db c here gone = rw (here, gone) here
