-- ===== src/Cards/Moderation/Checks.antt =====
-- The automatic check of a card (`submitCard` of apps/api/src/moderation.service.ts).
use mark_solutions.Base.{
  ℕ, Bool, true, false, ◌&&◌, not, Option, none, some, List, [], ◌∷◌, ◌++◌, ◌==◌, is_some,
  if◌then◌else◌, any, Text, text, text_eq, is_empty,
}
use mark_solutions.Store.{
  CardStatus, AuditEntry, ProductCard, Action, bad_request, not_found, pure, throw_if, ◌>>=◌, ◌>>◌,
}
use mark_solutions.Cards.{
  Attributes, get_attribute, string_of, update_card, get_card, put_status, add_audit,
}
use mark_solutions.Cards.Schema.{Reference, references, validate_attributes, autofill_attributes}
use mark_solutions.Cards.Files.{validate_files, files_of, files_key}
use mark_solutions.Cards.Resolving.{resolve}

abbrev pub card_status_eq : CardStatus → CardStatus → Bool
card_status_eq CardStatus.draft CardStatus.draft = true
card_status_eq CardStatus.validating CardStatus.validating = true
card_status_eq CardStatus.submitted CardStatus.submitted = true
card_status_eq CardStatus.in_review CardStatus.in_review = true
card_status_eq CardStatus.approved CardStatus.approved = true
card_status_eq CardStatus.needs_correction CardStatus.needs_correction = true
card_status_eq CardStatus.rejected CardStatus.rejected = true
card_status_eq CardStatus.registering CardStatus.registering = true
card_status_eq CardStatus.registered CardStatus.registered = true
card_status_eq CardStatus.archived CardStatus.archived = true
card_status_eq _ _ = false

abbrev pub entry : ℕ → CardStatus → CardStatus → AuditEntry
entry actor from to = record { author = actor; from = from; to = to }

-- `recordTransition`. A card that is not there has no row to write.
abbrev pub record_transition : ℕ → ℕ → CardStatus → CardStatus → Action Unit
record_transition id actor from to = update_card id (add_audit (entry actor from to))

unfoldable pub transition : ProductCard → CardStatus → ℕ → Action Unit
transition card to actor = do
  update_card card.id (put_status to)
  record_transition card.id actor card.status to

abbrev pub none_given : Text → Option Text
none_given k = none

-- An object of field errors, by its keys.
abbrev pub put_key : Text → List Text → List Text
put_key k keys = if any (text_eq k) keys then keys else keys ++ (k ∷ [])

abbrev pub put_keys : List Text → List Text → List Text
put_keys [] keys = keys
put_keys (k ∷ ks) keys = put_keys ks (put_key k keys)

abbrev pub tnved_key : Text
tnved_key = text "tnved"

abbrev pub gtin_key : Text
gtin_key = text "gtin"

-- `isInList`
unfoldable pub is_in_list : Text → Bool
unfolding references
is_in_list tnved = any (text_eq tnved) (references Reference.tnved)

abbrev pub check_tnved : Text → List Text → List Text
check_tnved tnved errors =
    if not (is_empty tnved) && not (is_in_list tnved) then put_key tnved_key errors else errors

-- `String(attrs.gtin ?? "") || card.gtin || undefined`
abbrev pub gtin_of : Attributes → ProductCard → Text
gtin_of attrs card =
    let given = string_of (get_attribute gtin_key attrs) in
    if is_empty given then card.gtin else given

abbrev pub check_files : ProductCard → List Text → List Text
check_files card errors =
    let fs = files_of (get_attribute files_key card.attributes) in
    elim fs [ [] ↦ errors | f ∷ rest ↦ put_keys (validate_files (f ∷ rest) card.attributes) errors ]

abbrev pub is_submittable : CardStatus → Bool
is_submittable CardStatus.draft = true
is_submittable CardStatus.needs_correction = true
is_submittable _ = false

abbrev pub snapshot_value : Text → Option Attributes → Text
snapshot_value f none = []
snapshot_value f (some snapshot) = string_of (get_attribute f snapshot)

-- A field that was complained of is an attribute of the card, and still has the value that it had then.
abbrev pub is_unfixed : ProductCard → Text → Bool
is_unfixed card f =
    is_some (get_attribute f card.attributes)
    && text_eq (string_of (get_attribute f (autofill_attributes card.attributes none_given)))
        (snapshot_value f card.rejected_attributes)

abbrev pub send_back : List Text → ProductCard → ProductCard
send_back errors c = record c {
  status = CardStatus.needs_correction;
  field_reasons = errors;
  rejected_attributes = some c.attributes;
}

abbrev pub accept : ProductCard → ProductCard
accept c = record c {
  status = CardStatus.submitted;
  field_reasons = [];
  rejected_attributes = none;
}

-- The end of `validateForSubmit`, which answers the list of fields with an error.
unfoldable pub send_back_if : ℕ → ℕ → List Text → Action (List Text)
send_back_if card_id actor [] = pure []
send_back_if card_id actor (e ∷ es) = do
  update_card card_id (send_back (e ∷ es))
  record_transition card_id actor CardStatus.validating CardStatus.needs_correction
  pure (e ∷ es)

-- The end of `submitCard`.
unfoldable pub finish_check : ℕ → ℕ → List Text → Action (CardStatus × List Text)
finish_check card_id actor (e ∷ es) = pure (CardStatus.needs_correction, e ∷ es)
finish_check card_id actor [] = do
  update_card card_id accept
  record_transition card_id actor CardStatus.validating CardStatus.submitted
  pure (CardStatus.submitted, [])

module _ (verify : Text → Bool) where
  -- The GTIN has to be known, or to have a right check digit.
  unfoldable pub check_gtin : Text → List Text → Action (List Text)
  check_gtin [] errors = pure (put_key gtin_key errors)
  check_gtin (c ∷ gtin) errors = do
    r ← resolve verify (c ∷ gtin) false
    pure (if r.passed then errors else put_key gtin_key errors)

  unfoldable pub field_errors : ProductCard → Action (List Text)
  field_errors card = do
    let attrs = autofill_attributes card.attributes none_given
    errors ←
        check_gtin (gtin_of attrs card)
          (check_tnved (string_of (get_attribute tnved_key attrs)) (validate_attributes attrs))
    pure (check_files card errors)

  unfoldable pub validate_for_submit : ℕ → ℕ → Action (List Text)
  validate_for_submit card_id actor = do
    card ← get_card card_id
    errors ← field_errors card
    send_back_if card_id actor errors

  -- The rest of `submitCard`, after its checks.
  unfoldable pub check_card : ℕ → ℕ → Action (CardStatus × List Text)
  check_card card_id actor = validate_for_submit card_id actor >>= finish_check card_id actor

  unfoldable pub submit_card : ℕ → ℕ → ℕ → Action (CardStatus × List Text)
  unfolding transition
  submit_card tenant card_id actor = do
    card ← get_card card_id
    throw_if (not (card.tenant_id == tenant)) not_found
    throw_if (not (is_submittable card.status)) bad_request
    throw_if (any (is_unfixed card) card.field_reasons) bad_request
    update_card card_id (put_status CardStatus.validating)
    record_transition card_id actor card.status CardStatus.validating
    check_card card_id actor
