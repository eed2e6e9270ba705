-- ===== src/Cards/Moderation/Calls.antt =====
-- Each call of the moderation moves the cards along the trail.
mod Resolutions
use mathlib.Core.Path.{subst}
use mathlib.Core.Option.{some-injective}
use mark_solutions.Base.{
  ◌||◌, ℕ, ◌≡◌, refl, ◌∙◌, ap, sym, inl, inr, Bool, true, false, some, List, [], ◌∷◌, arith, ◌==◌,
  if◌then◌else◌, Bool-cases, Option-cases, any, find, ==_iff, find_sound, Text,
}
use mark_solutions.Store.{pure, CardStatus, ProductCard, Db, Result, ok, err, then_gives}
use mark_solutions.Cards.{has_card_id, get_card, put_status, string_of, get_attribute}
use mark_solutions.Cards.Schema.{autofill_attributes, validate_attributes}
use mark_solutions.Cards.Resolving.{resolve, ask_register, upsert_cache, settled, is_cached}
use mark_solutions.Cards.Moderation.{
  entry, transition, send_back, accept, check_gtin, field_errors, validate_for_submit, check_card,
  submit_card, take_up, approve_new, approve, reject, card_status_eq, send_back_if, finish_check,
  is_submittable, is_in_queue, is_unfixed, approve_taken, reject_found, put_key, gtin_key,
  tnved_key, gtin_of, none_given, check_tnved, check_files,
}
use mark_solutions.Cards.Moderation.Trail.{
  Move, submitted_first, submitted_again, passed, sent_back, taken_up, approved, rejected, Follows,
  Follows-refl, Follows-trans, written, put_status-Sets, send_back-Sets, accept-Sets,
  written-Follows, written-status,
}
pub use Resolutions.*

-- What is found under a key is the row that was found.
IsAt-found :
    (id : ℕ) (rows : List ProductCard) (c : ProductCard)
    → find (has_card_id id) rows ≡ some c
    → IsAt id c.status rows
IsAt-found id rows c found d h =
    let e = some-injective _ _ (sym found ∙ h) in ap (λ x. x.status) (sym e)

pub found_at_key :
    (id : ℕ) (rows : List ProductCard) (c : ProductCard)
    → find (has_card_id id) rows ≡ some c
    → find (has_card_id c.id) rows ≡ some c
found_at_key id rows c found =
    let e : c.id ≡ id = (==_iff c.id id).0 (find_sound (has_card_id id) rows found) in
    subst (λ k. find (has_card_id k) rows ≡ some c) (sym e) found

is_submittable-Move : (s : CardStatus) → is_submittable s ≡ true → Move s CardStatus.validating
is_submittable-Move CardStatus.draft h = submitted_first
is_submittable-Move CardStatus.needs_correction h = submitted_again
is_submittable-Move CardStatus.validating h = cc
is_submittable-Move CardStatus.submitted h = cc
is_submittable-Move CardStatus.in_review h = cc
is_submittable-Move CardStatus.approved h = cc
is_submittable-Move CardStatus.rejected h = cc
is_submittable-Move CardStatus.registering h = cc
is_submittable-Move CardStatus.registered h = cc
is_submittable-Move CardStatus.archived h = cc

review_status :
    (s : CardStatus)
    → is_in_queue s ≡ true
    → card_status_eq s CardStatus.submitted ≡ false
    → s ≡ CardStatus.in_review
review_status s h k = ground arith

submitted_status :
    (s : CardStatus) → card_status_eq s CardStatus.submitted ≡ true → s ≡ CardStatus.submitted
submitted_status s k = ground arith

module _ (verify : Text → Bool) (tenant id actor : ℕ) (db : Db) where
  pub submit_card-Follows : Follows db.cards (submit_card verify tenant id actor db).1.cards
  unfolding submit_card get_card
  submit_card-Follows = elim (Option-cases (find (has_card_id id) db.cards)) [
    | inl absent ↦ rw absent (Follows-refl db.cards)
    | inr (c, found) ↦ rw found (elim (Bool-cases (c.tenant_id == tenant)) [
      | inr other ↦ rw other (Follows-refl db.cards)
      | inl own ↦ rw own (elim (Bool-cases (is_submittable c.status)) [
        | inr closed ↦ rw closed (Follows-refl db.cards)
        | inl may ↦ rw may (elim (Bool-cases (any (is_unfixed c) c.field_reasons)) [
          | inl unfixed ↦ rw unfixed (Follows-refl db.cards)
          | inr fixed ↦
              let rows =
                written id (entry actor c.status CardStatus.validating)
                  (put_status CardStatus.validating) db.cards in
              rw fixed (
                Follows-trans db.cards rows _
                  (written-Follows id actor c.status CardStatus.validating
                    (put_status CardStatus.validating) (put_status-Sets CardStatus.validating)
                    db.cards (IsAt-found id db.cards c found) (is_submittable-Move c.status may))
                  (check_card-Follows id actor verify (record db { cards = rows })
                    (λ d h.
                      written-status id actor c.status CardStatus.validating
                        (put_status CardStatus.validating) (put_status-Sets CardStatus.validating)
                        db.cards c d found h)))
        ])
      ])
    ])
  ]

module _ (actor : ℕ) (c : ProductCard) where
  approve_taken-Follows :
      (db : Db)
      → IsAt c.id CardStatus.in_review db.cards
      → Follows db.cards (approve_taken c actor db).1.cards
  unfolding approve_taken get_card
  approve_taken-Follows db was = elim (Option-cases (find (has_card_id c.id) db.cards)) [
    | inl absent ↦ rw absent (Follows-refl db.cards)
    | inr (d, found) ↦ rw found (
        written-Follows d.id actor d.status CardStatus.approved (put_status CardStatus.approved)
          (put_status-Sets CardStatus.approved) db.cards
          (IsAt-found d.id db.cards d (found_at_key c.id db.cards d found))
          (subst (λ s. Move s CardStatus.approved) (sym (was d found)) approved))
  ]

  -- The card that an operator takes up is in review.
  pub take_up_rows :
      (db : Db)
      → find (has_card_id c.id) db.cards ≡ some c
      → is_in_queue c.status ≡ true
      → (rows : List ProductCard) × (take_up c actor db ≡ (ok tt, record db { cards = rows }))
        × Follows db.cards rows
        × IsAt c.id CardStatus.in_review rows
  unfolding take_up transition
  take_up_rows db found waiting = elim (Bool-cases (card_status_eq c.status CardStatus.submitted)) [
    | inl new ↦
        let set = put_status-Sets CardStatus.in_review in
        (
          written c.id (entry actor c.status CardStatus.in_review) (put_status CardStatus.in_review)
              db.cards,
          rw new refl,
          written-Follows c.id actor c.status CardStatus.in_review (put_status CardStatus.in_review)
              set db.cards (IsAt-found c.id db.cards c found)
              (subst (λ s. Move s CardStatus.in_review) (sym (submitted_status c.status new))
                taken_up),
          λ d h.
              written-status c.id actor c.status CardStatus.in_review
                (put_status CardStatus.in_review) set db.cards c d found h,
        )
    | inr taken ↦ (
      db.cards,
      rw taken refl,
      Follows-refl db.cards,
      λ d h. IsAt-found c.id db.cards c found d h ∙ review_status c.status waiting taken,
    )
  ]

  approve_new-Follows :
      (db : Db)
      → find (has_card_id c.id) db.cards ≡ some c
      → is_in_queue c.status ≡ true
      → Follows db.cards (approve_new c actor db).1.cards
  unfolding approve_new
  approve_new-Follows db found waiting =
      let (rows, taken, moved, there) = take_up_rows db found waiting in
      rw taken (
        Follows-trans db.cards rows _ moved
          (approve_taken-Follows (record db { cards = rows }) there))

pub waiting_of : (a b : Bool) → (a || b) ≡ true → b ≡ false → a ≡ true
waiting_of a b h k = ground arith

pub approve-Follows : (id actor : ℕ) (db : Db) → Follows db.cards (approve id actor db).1.cards
unfolding approve get_card
approve-Follows id actor db = elim (Option-cases (find (has_card_id id) db.cards)) [
  | inl absent ↦ rw absent (Follows-refl db.cards)
  | inr (c, found) ↦
      rw found
        (elim (Bool-cases (is_in_queue c.status || card_status_eq c.status CardStatus.approved)) [
          | inr closed ↦ rw closed (Follows-refl db.cards)
          | inl may ↦ rw may (elim (Bool-cases (card_status_eq c.status CardStatus.approved)) [
            | inl before ↦ rw before (Follows-refl db.cards)
            | inr new ↦ rw new (
                approve_new-Follows actor c db (found_at_key id db.cards c found) (
                  waiting_of (is_in_queue c.status) (card_status_eq c.status CardStatus.approved)
                    may new))
          ])
        ])
]

pub reject-Follows :
    (id actor : ℕ) (reasons : List Text) (db : Db)
    → Follows db.cards (reject id actor reasons db).1.cards
unfolding reject get_card
reject-Follows id actor reasons db = elim (Option-cases (find (has_card_id id) db.cards)) [
  | inl absent ↦ rw absent (Follows-refl db.cards)
  | inr (c, found) ↦ rw found (elim (Bool-cases (is_in_queue c.status)) [
    | inr closed ↦ rw closed (Follows-refl db.cards)
    | inl waiting ↦ rw waiting (with_reasons reasons c found waiting)
  ])
]
  where
    with_reasons :
        (rs : List Text) (c : ProductCard)
        → find (has_card_id id) db.cards ≡ some c
        → is_in_queue c.status ≡ true
        → Follows db.cards (reject_found id actor rs c db).1.cards
    with_reasons [] c found waiting = Follows-refl db.cards
    with_reasons (r ∷ rs) c found waiting =
        let (rows, taken, moved, there) =
          take_up_rows actor c db (found_at_key id db.cards c found) waiting in
        let e : c.id ≡ id = (==_iff c.id id).0 (find_sound (has_card_id id) db.cards found) in
        rw taken (
          Follows-trans db.cards rows _ moved (
            written-Follows id actor CardStatus.in_review CardStatus.needs_correction
              (send_back (r ∷ rs)) (send_back-Sets (r ∷ rs)) rows
              (subst (λ k. IsAt k CardStatus.in_review rows) e there) rejected))
