-- ===== src/Cards/Moderation/Resubmitting.antt =====
-- A card that was sent back has to be corrected.
use mathlib.Core.Path.{subst}
use mark_solutions.Base.{
  ℕ, ◌≡◌, refl, ◌∙◌, ap, sym, inl, inr, Bool, true, false, ◌&&◌, Option, none, some, List, [], ◌∷◌,
  arith, ==_refl, Bool-cases, is_some, any, find, find_sound, Text, text_eq, text_eq_sound,
  text_eq_refl,
}
use mark_solutions.Store.{CardStatus, Value, ProductCard, Db, err, bad_request}
use mark_solutions.Cards.{has_card_id, get_card, add_audit, get_attribute, string_of}
use mark_solutions.Cards.Schema.{is_blank}
use mark_solutions.Cards.Schema.Filling.{get_attribute-autofill_attributes}
use mark_solutions.Cards.Moderation.{
  entry, none_given, is_unfixed, is_in_queue, send_back, submit_card, reject_found, reject,
}
use mark_solutions.Cards.Moderation.Trail.{written-find, send_back-Sets}
use mark_solutions.Cards.Moderation.Calls.{take_up_rows, found_at_key}

is_some_of_given : (v : Option Value) → is_blank v ≡ false → is_some v ≡ true
is_some_of_given none h = cc
is_some_of_given (some v) h = refl

both : (a b : Bool) → a ≡ true → b ≡ true → (a && b) ≡ true
both a b h k = rw (h, k) refl

-- A field that is given, and is as it was when the card was sent back, is unfixed.
is_unfixed_of_same :
    (card : ProductCard) (f : Text)
    → card.rejected_attributes ≡ some card.attributes
    → is_blank (get_attribute f card.attributes) ≡ false
    → is_unfixed card f ≡ true
is_unfixed_of_same card f same given =
    let shown = is_some_of_given (get_attribute f card.attributes) given in
    let kept = get_attribute-autofill_attributes f card.attributes none_given given in
    both (is_some (get_attribute f card.attributes)) _ shown
      (rw (kept, same) (text_eq_refl (string_of (get_attribute f card.attributes))))

any_named :
    (p : Text → Bool) (f : Text) (names : List Text)
    → any (text_eq f) names ≡ true
    → p f ≡ true
    → any p names ≡ true
any_named p f [] h k = cc
any_named p f (x ∷ names) h k = elim (Bool-cases (text_eq f x)) [
  | inl here ↦ rw (← text_eq_sound f x here, k) refl
  | inr later ↦ let ih = any_named p f names (rw later at h) k in ground (arith, ih)
]

-- A submission of a card with an unfixed field is refused, and writes nothing.
submit_card-unfixed :
    (verify : Text → Bool) (id actor : ℕ) (db : Db) (d : ProductCard)
    → find (has_card_id id) db.cards ≡ some d
    → d.status ≡ CardStatus.needs_correction
    → any (is_unfixed d) d.field_reasons ≡ true
    → submit_card verify d.tenant_id id actor db ≡ (err bad_request, db)
unfolding submit_card get_card
submit_card-unfixed verify id actor db d found back unfixed =
    rw (found, ==_refl d.tenant_id, back, unfixed) refl

-- The card that a rejection leaves.
abbrev IsSentBack : ProductCard → List Text → ProductCard → Type 0
IsSentBack c reasons d =
    (d.status ≡ CardStatus.needs_correction)
    × (d.tenant_id ≡ c.tenant_id)
    × (d.attributes ≡ c.attributes)
    × (d.field_reasons ≡ reasons)
    × (d.rejected_attributes ≡ some c.attributes)

reject_found-IsSentBack :
    (id operator : ℕ) (r : Text) (rs : List Text) (db : Db) (c : ProductCard)
    → find (has_card_id id) db.cards ≡ some c
    → is_in_queue c.status ≡ true
    → (d : ProductCard) × (find (has_card_id id) (reject_found id operator (r ∷ rs) c db).1.cards
        ≡ some d)
      × IsSentBack c (r ∷ rs) d
unfolding reject_found
reject_found-IsSentBack id operator r rs db c found waiting =
    let (rows, taken, moved, there) =
      take_up_rows operator c db (found_at_key id db.cards c found) waiting in
    let (c', here, m) = moved.0 id c found in
    let hit = find_sound (has_card_id id) rows here in
    (
      add_audit (entry operator CardStatus.in_review CardStatus.needs_correction)
          (send_back (r ∷ rs) c'),
      rw taken (
          written-find id operator CardStatus.in_review CardStatus.needs_correction
            (send_back (r ∷ rs)) (send_back-Sets (r ∷ rs)) id rows c' here
          ∙ rw hit refl),
      (refl, m.owner, m.attributes, refl, ap some m.attributes),
    )

-- Where an operator rejects a card over fields one of which is a filled-in attribute of the card, and
-- the participant submits it again without a change, the submission is refused with 400 and writes
-- nothing.
pub reject-submit_card :
    (verify : Text → Bool) (id operator actor : ℕ) (f r : Text) (rs : List Text) (db : Db)
    (c : ProductCard)
    → find (has_card_id id) db.cards ≡ some c
    → is_in_queue c.status ≡ true
    → any (text_eq f) (r ∷ rs) ≡ true
    → is_blank (get_attribute f c.attributes) ≡ false
    → let db' = (reject id operator (r ∷ rs) db).1 in
      submit_card verify c.tenant_id id actor db' ≡ (err bad_request, db')
unfolding reject get_card
reject-submit_card verify id operator actor f r rs db c found waiting named given =
    let (d, there, sent) = reject_found-IsSentBack id operator r rs db c found waiting in
    let (back, owner, attrs, reasons, snapshot) = sent in
    let unfixed : is_unfixed d f ≡ true =
      is_unfixed_of_same d f (snapshot ∙ ap some (sym attrs)) (rw attrs given) in
    let refused = any_named (is_unfixed d) f (r ∷ rs) named unfixed in
    rw (found, waiting)
      (subst
        (λ t.
          submit_card verify t id actor (reject_found id operator (r ∷ rs) c db).1
          ≡ (err bad_request, (reject_found id operator (r ∷ rs) c db).1))
        owner
        (submit_card-unfixed verify id actor (reject_found id operator (r ∷ rs) c db).1 d there back
          (subst (λ names. any (is_unfixed d) names ≡ true) (sym reasons) refused)))
