-- ===== src/Cards/Creating/Unique.antt =====
-- A card that was created stands in the way of another one (`createCard` of
-- apps/api/src/catalog.controller.ts).
use mark_solutions.Base.{
  ℕ, ◌≡◌, refl, sym, ap, ◌∙◌, Bool, true, false, ◌&&◌, ◌||◌, not, Option, List, [], ◌∷◌, ◌++◌,
  arith, if◌then◌else◌, inl, inr, Bool-cases, filter, find, is_some, ==_refl, Text, text_eq,
}
use mark_solutions.Store.{Value, ProductCard, Db, bad_request, conflict, Result, ok, err}
use mark_solutions.Orders.{insert_outbox}
use mark_solutions.Cards.Files.{new_card, insert_card}
use mark_solutions.Cards.Schema.{validate_attributes}
use mark_solutions.Cards.Creating.{
  CreateCard, is_live_of, is_gtin, has_any, override_row, stored_attributes, insert_unique,
  autofilled, is_double, doubles, create_in, create_card,
}

found_last :
    (p : ProductCard → Bool) (rows : List ProductCard) (c : ProductCard)
    → p c ≡ true
    → is_some (find p (rows ++ (c ∷ []))) ≡ true
found_last p [] c h = rw h refl
found_last p (x ∷ rows) c h = elim (Bool-cases (p x)) [
  | inl hit ↦ rw hit refl
  | inr miss ↦ rw miss (found_last p rows c h)
]

has_any_last :
    (p : ProductCard → Bool) (rows : List ProductCard) (c : ProductCard)
    → p c ≡ true
    → has_any (filter p (rows ++ (c ∷ []))) ≡ true
has_any_last p [] c h = rw h refl
has_any_last p (x ∷ rows) c h = elim (Bool-cases (p x)) [
  | inl hit ↦ rw hit refl
  | inr miss ↦ rw miss (has_any_last p rows c h)
]

module _ (lower : Text → Text) (number : Option Value → Option ℕ) where
  -- The database with the card, and with the message where a double was overridden.
  unfoldable pub created : Bool → ℕ → CreateCard → Db → Db
  unfolding insert_outbox
  created override tenant body db =
      let db' = (insert_card tenant body.gtin (stored_attributes body) db).1 in
      if override then (insert_outbox (override_row tenant) db').1 else db'

  create_card_lem :
      (tenant : ℕ) (body : CreateCard) (db : Db)
      → let twins = has_any (doubles lower number tenant body db) in
        create_card lower number tenant body db ≡ (
          if not (is_gtin body.gtin) || has_any (validate_attributes (autofilled lower number body))
          then (err bad_request, db)
          else if is_some (find (is_live_of tenant body.gtin) db.cards)
              || (twins && not body.confirm_duplicate)
          then (err conflict, db)
          else (
            ok (new_card tenant body.gtin (stored_attributes body) db),
            created (twins && body.confirm_duplicate) tenant body db,
          ))
  unfolding create_card create_in insert_unique insert_outbox created
  create_card_lem tenant body db = elim (Bool-cases (is_gtin body.gtin)) [
    | inr wrong ↦ rw wrong refl
    | inl right ↦ elim (Bool-cases (has_any (validate_attributes (autofilled lower number body)))) [
      | inl missing ↦ rw (right, missing) refl
      | inr whole ↦ elim (Bool-cases (is_some (find (is_live_of tenant body.gtin) db.cards))) [
        | inl taken ↦ rw (right, whole, taken) refl
        | inr free ↦ elim (Bool-cases (has_any (doubles lower number tenant body db))) [
          | inr new ↦ rw (right, whole, free, new, free) refl
          | inl twins ↦ elim (Bool-cases body.confirm_duplicate) [
            | inl sure ↦ rw (right, whole, free, twins, sure, free) refl
            | inr unsure ↦ rw (right, whole, free, twins, unsure) refl
          ]
        ]
      ]
    ]
  ]

  cards-created :
      (override : Bool) (tenant : ℕ) (body : CreateCard) (db : Db)
      → (created override tenant body db).cards
        ≡ db.cards ++ (new_card tenant body.gtin (stored_attributes body) db ∷ [])
  unfolding created insert_outbox
  cards-created true tenant body db = refl
  cards-created false tenant body db = refl

  -- What a call that answers a card has done.
  answered_lem :
      (tenant : ℕ) (body : CreateCard) (db db' : Db) (c : ProductCard)
      → create_card lower number tenant body db ≡ (ok c, db')
      → (c ≡ new_card tenant body.gtin (stored_attributes body) db)
        × (db'.cards ≡ db.cards ++ (c ∷ []))
        × (is_some (find (is_live_of tenant body.gtin) db.cards) ≡ false)
  answered_lem tenant body db db' c h =
      let faults =
        not (is_gtin body.gtin) || has_any (validate_attributes (autofilled lower number body)) in
      let twins = has_any (doubles lower number tenant body db) in
      let clash =
        is_some (find (is_live_of tenant body.gtin) db.cards)
        || (twins && not body.confirm_duplicate) in
      let e = sym (create_card_lem tenant body db) ∙ h in
      elim (Bool-cases faults) [
        | inl faulty ↦ absurd (cc (rw faulty at e))
        | inr whole ↦ elim (Bool-cases clash) [
          | inl clashes ↦ absurd (cc (rw (whole, clashes) at e))
          | inr free ↦
              let e' = rw (whole, free) at e in
              let same : c ≡ new_card tenant body.gtin (stored_attributes body) db = cc e' in
              (
                same,
                ap (λ m. m.1.cards) (sym e')
                    ∙ cards-created (twins && body.confirm_duplicate) tenant body db
                    ∙ rw same refl,
                ground (arith, free),
              )
        ]
      ]

  -- The card is found by the tests of the other one.
  stands_in :
      (tenant : ℕ) (body next : CreateCard) (db db' : Db) (c : ProductCard)
      → c ≡ new_card tenant body.gtin (stored_attributes body) db
      → db'.cards ≡ db.cards ++ (c ∷ [])
      → (text_eq c.gtin next.gtin
          || (is_double lower number tenant next c && not next.confirm_duplicate))
        ≡ true
      → (is_some (find (is_live_of tenant next.gtin) db'.cards)
          || (has_any (doubles lower number tenant next db') && not next.confirm_duplicate))
        ≡ true
  unfolding doubles
  stands_in tenant body next db db' c same cards stands =
      elim (Bool-cases (text_eq c.gtin next.gtin)) [
        | inl twin ↦
            let live : is_live_of tenant next.gtin c ≡ true =
              rw same (rw (==_refl tenant, rw same at twin) refl) in
            rw (cards, found_last (is_live_of tenant next.gtin) db.cards c live) refl
        | inr other ↦
            let double : is_double lower number tenant next c ≡ true =
              ground (arith, stands, other) in
            let unsure : next.confirm_duplicate ≡ false = ground (arith, stands, other) in
            rw (cards, has_any_last (is_double lower number tenant next) db.cards c double, unsure)
              (ground arith)
      ]

  either_error :
      (faulty : Bool) (db : Db)
      → ◌≡◌ {A = Result ProductCard × Db}
          (if faulty then (err bad_request, db) else (err conflict, db))
          (err (if faulty then bad_request else conflict), db)
  either_error true db = refl
  either_error false db = refl

  -- Once a card was created, the tenant gets no second card with its GTIN, whatever is confirmed, and
  -- none that looks like it (with another GTIN), unless that is confirmed: the call is refused, with
  -- 400 where the new data are wrong in themselves and with 409 otherwise, and nothing is written.
  pub create_card-create_card :
      (tenant : ℕ) (body next : CreateCard) (db db' : Db) (c : ProductCard)
      → create_card lower number tenant body db ≡ (ok c, db')
      → (text_eq c.gtin next.gtin
          || (is_double lower number tenant next c && not next.confirm_duplicate))
        ≡ true
      → create_card lower number tenant next db' ≡ (
        err (
            if not (is_gtin next.gtin)
              || has_any (validate_attributes (autofilled lower number next))
            then bad_request
            else conflict),
        db',
      )
  create_card-create_card tenant body next db db' c h stands =
      let (same, cards, free) = answered_lem tenant body db db' c h in
      let clash = stands_in tenant body next db db' c same cards stands in
      create_card_lem tenant next db'
      ∙ rw clash (
          either_error
            (not (is_gtin next.gtin)
              || has_any (validate_attributes (autofilled lower number next)))
            db')
