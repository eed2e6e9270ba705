-- ===== src/Cards/Moderation/Calls/Resolutions.antt =====
-- What the search for a GTIN leaves alone, and the transition of a card that is at a known status.
use mathlib.Core.Path.{subst}
use mark_solutions.Base.{
  ℕ, ◌≡◌, refl, ap, sym, inl, inr, Bool, false, some, List, [], ◌∷◌, if◌then◌else◌, Bool-cases,
  Option-cases, find, Text,
}
use mark_solutions.Store.{pure, CardStatus, ProductCard, Db, Result, ok, err, then_gives}
use mark_solutions.Cards.{has_card_id, get_card, string_of, get_attribute}
use mark_solutions.Cards.Schema.{autofill_attributes, validate_attributes}
use mark_solutions.Cards.Resolving.{resolve, ask_register, upsert_cache, settled, is_cached}
use mark_solutions.Cards.Moderation.{
  send_back, accept, check_gtin, field_errors, validate_for_submit, check_card, send_back_if,
  finish_check, put_key, gtin_key, tnved_key, gtin_of, none_given, check_tnved, check_files,
}
use mark_solutions.Cards.Moderation.Trail.{
  passed, sent_back, Follows, Follows-refl, send_back-Sets, accept-Sets, written-Follows,
}

pub then_gives-pure :
    {A B : Type 0} (m : Result A × Db) (g : A → B) → (then_gives m (λ a. pure (g a))).1 ≡ m.1
then_gives-pure (ok a, db) g = refl
then_gives-pure (err e, db) g = refl

-- A database that differs from another in the cache at most.
abbrev pub SameButCache : Db → Db → Type 0
SameButCache db db' = db' ≡ record db { gtin_cache = db'.gtin_cache }

pub resolve-SameButCache :
    (verify : Text → Bool) (gtin : Text) (db : Db)
    → SameButCache db (resolve verify gtin false db).1
unfolding resolve ask_register upsert_cache
resolve-SameButCache verify gtin db =
    elim (Option-cases (settled (find (is_cached gtin) db.gtin_cache))) [
      | inl unknown ↦
          rw unknown
            (elim (Bool-cases (verify gtin)) [ inl good ↦ rw good refl | inr bad ↦ rw bad refl ])
      | inr (r, known) ↦ rw known refl
    ]

pub check_gtin-SameButCache :
    (verify : Text → Bool) (gtin : Text) (errors : List Text) (db : Db)
    → SameButCache db (check_gtin verify gtin errors db).1
unfolding check_gtin
check_gtin-SameButCache verify [] errors db = refl
check_gtin-SameButCache verify (x ∷ gtin) errors db =
    subst (SameButCache db)
      (sym (
        then_gives-pure (resolve verify (x ∷ gtin) false db)
          (λ r. if r.passed then errors else put_key gtin_key errors)))
      (resolve-SameButCache verify (x ∷ gtin) db)

pub field_errors-SameButCache :
    (verify : Text → Bool) (card : ProductCard) (db : Db)
    → SameButCache db (field_errors verify card db).1
unfolding field_errors
field_errors-SameButCache verify card db =
    let attrs = autofill_attributes card.attributes none_given in
    let before =
      check_tnved (string_of (get_attribute tnved_key attrs)) (validate_attributes attrs) in
    subst (SameButCache db)
      (sym (
        then_gives-pure (check_gtin verify (gtin_of attrs card) before db)
          (λ errors. check_files card errors)))
      (check_gtin-SameButCache verify (gtin_of attrs card) before db)

pub field_errors-cards :
    (verify : Text → Bool) (card : ProductCard) (db : Db)
    → (field_errors verify card db).1.cards ≡ db.cards
field_errors-cards verify card db = ap (λ d. d.cards) (field_errors-SameButCache verify card db)

abbrev pub IsAt : ℕ → CardStatus → List ProductCard → Type 0
IsAt id s rows = (c : ProductCard) → find (has_card_id id) rows ≡ some c → c.status ≡ s

module _ (id actor : ℕ) where
  pub finish_check-Follows :
      (errors : List Text) (db : Db)
      → IsAt id CardStatus.validating db.cards
      → Follows db.cards
          (then_gives (send_back_if id actor errors db) (finish_check id actor)).1.cards
  unfolding send_back_if finish_check
  finish_check-Follows [] db was =
      written-Follows id actor CardStatus.validating CardStatus.submitted accept accept-Sets
        db.cards was passed
  finish_check-Follows (e ∷ es) db was =
      written-Follows id actor CardStatus.validating CardStatus.needs_correction
        (send_back (e ∷ es)) (send_back-Sets (e ∷ es)) db.cards was sent_back

  -- What follows the automatic check, of a card that is being validated.
  pub checked-Follows :
      (m : Result (List Text) × Db)
      → IsAt id CardStatus.validating m.1.cards
      → Follows m.1.cards
          (then_gives (then_gives m (send_back_if id actor)) (finish_check id actor)).1.cards
  checked-Follows (err e, db') was = Follows-refl db'.cards
  checked-Follows (ok errors, db') was = finish_check-Follows errors db' was

  pub check_card-Follows :
      (verify : Text → Bool) (db : Db)
      → IsAt id CardStatus.validating db.cards
      → Follows db.cards (check_card verify id actor db).1.cards
  unfolding check_card validate_for_submit get_card
  check_card-Follows verify db was = elim (Option-cases (find (has_card_id id) db.cards)) [
    | inl absent ↦ rw absent (Follows-refl db.cards)
    | inr (c, found) ↦ rw found (
        subst
          (λ rows.
            Follows rows
              (then_gives (then_gives (field_errors verify c db) (send_back_if id actor))
                (finish_check id actor)).1.cards)
          (field_errors-cards verify c db)
          (checked-Follows (field_errors verify c db) (rw (field_errors-cards verify c db) was)))
  ]
