-- ===== src/Cards/Creating.antt =====
-- The creation of a product card (`createCard` of apps/api/src/catalog.controller.ts), with the search
-- for doubles of packages/shared/src/catalog-rules.ts. Lower case is an argument, as is the number that
-- a value stands for, if it is one.
pub mod Unique
use mark_solutions.Base.{
  ℕ, Bool, true, false, ◌&&◌, not, Option, none, some, List, [], ◌∷◌, ◌==◌, if◌then◌else◌, filter,
  find, is_some, length, all, is_digit, Text, text, text_eq, trim, is_empty,
}
use mark_solutions.Store.{
  Value, num, CardStatus, ProductCard, product_card_audit, OutboxStatus, Outbox, Db, Action, Error,
  bad_request, conflict, p2002, err, pure, throw, throw_if, gets, catch, transaction, ◌>>=◌, ◌>>◌,
}
use mark_solutions.Orders.{insert_outbox}
use mark_solutions.Cards.{Attributes, get_attribute, set_attribute, string_of}
use mark_solutions.Cards.Moderation.{card_status_eq}
use mark_solutions.Cards.Files.{insert_card}
use mark_solutions.Cards.Schema.{validate_attributes, autofill_attributes}

pub record CreateCard : Type 0 where
  pub gtin : Text
  pub attributes : Attributes
  pub confirm_duplicate : Bool

pub record FuzzyKey : Type 0 where
  pub brand : Text
  pub model : Text
  pub volume_l : Option ℕ
  pub sae : Text

-- Two numbers are the same; a value that is no number equals nothing.
abbrev same_number : Option ℕ → Option ℕ → Bool
same_number (some a) (some b) = a == b
same_number _ _ = false

abbrev pub fuzzy_equal : FuzzyKey → FuzzyKey → Bool
fuzzy_equal a b =
    text_eq a.brand b.brand
    && text_eq a.model b.model
    && same_number a.volume_l b.volume_l
    && text_eq a.sae b.sae

abbrev pub is_live : ProductCard → Bool
is_live c = not (card_status_eq c.status CardStatus.archived)

abbrev pub is_live_of : ℕ → Text → ProductCard → Bool
is_live_of tenant gtin c = (c.tenant_id == tenant) && text_eq c.gtin gtin && is_live c

-- `/^\d{14}$/`
abbrev pub is_gtin : Text → Bool
is_gtin gtin = (length gtin == 14) && all is_digit gtin

abbrev pub has_any {ℓ} : {A : Type ℓ} → List A → Bool
has_any [] = false
has_any (x ∷ xs) = true

-- The message of an override; its action names the first double.
abbrev pub override_row : ℕ → Outbox
override_row tenant = record {
  id = 0;
  aggregate = product_card_audit;
  status = OutboxStatus.pending;
  order_id = none;
  tenant_id = tenant;
  quantity = none;
  attempt = 0;
  unknown_result = false;
  job = none;
}

-- `{ ...body.attributes, schemaVersion: 1, gtin }`
abbrev pub stored_attributes : CreateCard → Attributes
stored_attributes body =
    set_attribute (text "gtin") (Value.str body.gtin)
      (set_attribute (text "schemaVersion") (num (text "1")) body.attributes)

-- `productCard.create`, under the unique index on the live cards of a tenant.
unfoldable pub insert_unique : ℕ → Text → Attributes → Action ProductCard
insert_unique tenant gtin attributes db =
    if is_some (find (is_live_of tenant gtin) db.cards)
    then (err p2002, db)
    else insert_card tenant gtin attributes db

abbrev pub conflict_if_unique : Error → Error
conflict_if_unique p2002 = conflict
conflict_if_unique e = e

module _ (lower : Text → Text) (number : Option Value → Option ℕ) where
  abbrev pub norm : Text → Text
  norm s = trim (lower s)

  abbrev pub fuzzy_key_of : FuzzyKey → FuzzyKey
  fuzzy_key_of a = record {
    brand = norm a.brand;
    model = norm a.model;
    volume_l = a.volume_l;
    sae = norm a.sae;
  }

  abbrev pub check_duplicate : FuzzyKey → FuzzyKey → Bool
  check_duplicate candidate existing = fuzzy_equal (fuzzy_key_of candidate) (fuzzy_key_of existing)

  -- The key of the attributes of a card.
  abbrev pub key_of : Attributes → FuzzyKey
  key_of attrs = fuzzy_key_of (record {
    brand = string_of (get_attribute (text "brand") attrs);
    model = string_of (get_attribute (text "model") attrs);
    volume_l = number (get_attribute (text "volumeL") attrs);
    sae = string_of (get_attribute (text "sae") attrs);
  })

  abbrev pub autofilled : CreateCard → Attributes
  autofilled body = autofill_attributes body.attributes (λ k. none)

  -- In SQL an absent GTIN is not unequal to another.
  abbrev pub is_double : ℕ → CreateCard → ProductCard → Bool
  is_double tenant body c =
      (c.tenant_id == tenant)
      && is_live c
      && not (is_empty c.gtin)
      && not (text_eq c.gtin body.gtin)
      && check_duplicate (key_of (autofilled body)) (key_of c.attributes)

  -- The live cards of the tenant that look like the new one.
  unfoldable pub doubles : ℕ → CreateCard → Db → List ProductCard
  doubles tenant body db = filter (is_double tenant body) db.cards

  abbrev pub record_override : Bool → ℕ → Action (Unit {0})
  record_override b tenant = if b then insert_outbox (override_row tenant) else pure tt

  -- The body of the transaction.
  unfoldable pub create_in : ℕ → CreateCard → Action ProductCard
  unfolding doubles insert_unique insert_outbox
  create_in tenant body = do
    existing ← gets (λ db. find (is_live_of tenant body.gtin) db.cards)
    throw_if (is_some existing) conflict
    matches ← gets (doubles tenant body)
    throw_if (has_any matches && not body.confirm_duplicate) conflict
    created ← insert_unique tenant body.gtin (stored_attributes body)
    record_override (has_any matches && body.confirm_duplicate) tenant
    pure created

  unfoldable pub create_card : ℕ → CreateCard → Action ProductCard
  unfolding create_in
  create_card tenant body = do
    throw_if (not (is_gtin body.gtin)) bad_request
    throw_if (has_any (validate_attributes (autofilled body))) bad_request
    catch (transaction (create_in tenant body)) (λ e. throw (conflict_if_unique e))
