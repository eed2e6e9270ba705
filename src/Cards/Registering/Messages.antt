-- ===== src/Cards/Registering/Messages.antt =====
-- The messages that the calls of the moderation leave for the registration of cards.
use mark_solutions.Base.{
  ℕ, ◌≡◌, refl, ◌∙◌, ap, ◌⊎◌, inl, inr, Bool, true, ◌||◌, some, List, [], ◌∷◌, ◌++◌, arith, ◌==◌,
  ==_refl, Bool-cases, Option-cases, any, any-append, find, Text,
}
use mark_solutions.Store.{CardStatus, ProductCard, Db, Result, ok, err, then_gives}
use mark_solutions.Cards.{has_card_id, get_card, put_status, add_audit}
use mark_solutions.Cards.Moderation.{
  entry, card_status_eq, field_errors, validate_for_submit, check_card, send_back_if, finish_check,
  submit_card, is_submittable, is_unfixed, is_in_queue, nkt_message, approve_taken, approve_new,
  approve, reject_found, reject,
}
use mark_solutions.Cards.Moderation.Trail.{written-find, put_status-Sets}
use mark_solutions.Cards.Moderation.Calls.{
  take_up_rows, found_at_key, waiting_of, field_errors-SameButCache,
}
use mark_solutions.Cards.Moderation.History.{
  Call, submit, approval, rejection, serve, is_approval, was_approved,
}

-- What a call adds to the outbox: nothing, or the message of a card that it has approved.
abbrev pub Adds : Db → Db → Type 0
Adds db db' =
    (db'.outbox ≡ db.outbox)
    ⊎ ((c d : ProductCard) × (db'.outbox
          ≡ db.outbox ++ (record (nkt_message c) { id = db.next_id } ∷ []))
        × (find (has_card_id c.id) db'.cards ≡ some d)
        × (was_approved d ≡ true))

module _ (id actor : ℕ) where
  checked-outbox :
      (m : Result (List Text) × Db)
      → (then_gives (then_gives m (send_back_if id actor)) (finish_check id actor)).1.outbox
        ≡ m.1.outbox
  unfolding send_back_if finish_check
  checked-outbox (err e, db) = refl
  checked-outbox (ok [], db) = refl
  checked-outbox (ok (e ∷ es), db) = refl

  check_card-outbox :
      (verify : Text → Bool) (db : Db) → (check_card verify id actor db).1.outbox ≡ db.outbox
  unfolding check_card validate_for_submit get_card
  check_card-outbox verify db = elim (Option-cases (find (has_card_id id) db.cards)) [
    | inl absent ↦ rw absent refl
    | inr (c, found) ↦ rw found (
        checked-outbox (field_errors verify c db)
        ∙ ap (λ d. d.outbox) (field_errors-SameButCache verify c db))
  ]

  submit_card-outbox :
      (verify : Text → Bool) (tenant : ℕ) (db : Db)
      → (submit_card verify tenant id actor db).1.outbox ≡ db.outbox
  unfolding submit_card get_card
  submit_card-outbox verify tenant db = elim (Option-cases (find (has_card_id id) db.cards)) [
    | inl absent ↦ rw absent refl
    | inr (c, found) ↦ rw found (elim (Bool-cases (c.tenant_id == tenant)) [
      | inr other ↦ rw other refl
      | inl own ↦ rw own (elim (Bool-cases (is_submittable c.status)) [
        | inr closed ↦ rw closed refl
        | inl may ↦ rw may (elim (Bool-cases (any (is_unfixed c) c.field_reasons)) [
          | inl unfixed ↦ rw unfixed refl
          | inr fixed ↦ rw fixed (check_card-outbox verify _)
        ])
      ])
    ])
  ]

  reject_found-outbox :
      (reasons : List Text) (c : ProductCard) (db : Db)
      → find (has_card_id c.id) db.cards ≡ some c
      → is_in_queue c.status ≡ true
      → (reject_found id actor reasons c db).1.outbox ≡ db.outbox
  unfolding reject_found
  reject_found-outbox [] c db found waiting = refl
  reject_found-outbox (r ∷ rs) c db found waiting =
      let (rows, taken, moved, there) = take_up_rows actor c db found waiting in rw taken refl

  reject-outbox :
      (reasons : List Text) (db : Db) → (reject id actor reasons db).1.outbox ≡ db.outbox
  unfolding reject get_card
  reject-outbox reasons db = elim (Option-cases (find (has_card_id id) db.cards)) [
    | inl absent ↦ rw absent refl
    | inr (c, found) ↦ rw found (elim (Bool-cases (is_in_queue c.status)) [
      | inr closed ↦ rw closed refl
      | inl waiting ↦
          rw waiting (reject_found-outbox reasons c db (found_at_key id db.cards c found) waiting)
    ])
  ]

approve_taken-Adds : (actor : ℕ) (c : ProductCard) (db : Db) → Adds db (approve_taken c actor db).1
unfolding approve_taken get_card
approve_taken-Adds actor c db = elim (Option-cases (find (has_card_id c.id) db.cards)) [
  | inl absent ↦ rw absent (inl refl)
  | inr (d, found) ↦ rw found (
      inr (
        c,
        add_audit (entry actor d.status CardStatus.approved) (put_status CardStatus.approved d),
        refl,
        written-find d.id actor d.status CardStatus.approved (put_status CardStatus.approved)
              (put_status-Sets CardStatus.approved) c.id db.cards d found
            ∙ rw (==_refl d.id) refl,
        any-append is_approval d.audit (entry actor d.status CardStatus.approved ∷ [])
            ∙ ground arith,
      ))
]

approve-Adds : (id actor : ℕ) (db : Db) → Adds db (approve id actor db).1
unfolding approve approve_new get_card
approve-Adds id actor db = elim (Option-cases (find (has_card_id id) db.cards)) [
  | inl absent ↦ rw absent (inl refl)
  | inr (c, found) ↦
      rw found
        (elim (Bool-cases (is_in_queue c.status || card_status_eq c.status CardStatus.approved)) [
          | inr closed ↦ rw closed (inl refl)
          | inl may ↦ rw may (elim (Bool-cases (card_status_eq c.status CardStatus.approved)) [
            | inl before ↦ rw before (inl refl)
            | inr new ↦
                let (rows, taken, moved, there) =
                  take_up_rows actor c db (found_at_key id db.cards c found) (
                    waiting_of (is_in_queue c.status) (card_status_eq c.status CardStatus.approved)
                      may new) in
                rw new (rw taken (approve_taken-Adds actor c (record db { cards = rows })))
          ])
        ])
]

pub serve-Adds : (verify : Text → Bool) (call : Call) (db : Db) → Adds db (serve verify call db)
serve-Adds verify (submit tenant id actor) db = inl (submit_card-outbox id actor verify tenant db)
serve-Adds verify (approval id actor) db = approve-Adds id actor db
serve-Adds verify (rejection id actor reasons) db = inl (reject-outbox id actor reasons db)
