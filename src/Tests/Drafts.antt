-- ===== src/Tests/Drafts.antt =====
-- The theorems on drafts and new cards at work.
use mark_solutions.Base.{
  false, true, not, ◌||◌, if◌then◌else◌, ◌≡◌, refl, none, some, List, [], ◌∷◌, ◌++◌, text, map,
}
use mark_solutions.Cards.Moderation.{is_in_list}
use mark_solutions.Store.{str, ProductCard, bad_request, conflict, ok, err}
use mark_solutions.Cards.{Attributes}
use mark_solutions.Cards.Schema.{
  AttributeDef, a_manual, a_auto, validate_attributes, autofill_attributes,
}
use mark_solutions.Cards.Files.{new_card}
use mark_solutions.Cards.Creating.{
  CreateCard, is_gtin, has_any, stored_attributes, autofilled, doubles, insert_unique, create_in,
  create_card,
}
use mark_solutions.Cards.Creating.Unique.{create_card-create_card}
use mark_solutions.Tests.Data.{shop}
use mark_solutions.Drafting.{
  draft, submitted, DraftRow, Drafts, create_draft, fix_tnved, submit_draft,
}
use mark_solutions.Drafting.Rows.{Sound}
use mark_solutions.Drafting.Vetting.{DraftCall, import_row, fix, submit, serve_all, serve_all-Sound}

abbrev oil : DraftRow
oil = record {
  source = none;
  gtin = none;
  name = some (text "oil");
  tnved = text "8708999709";
  brand = none;
  sae = none;
  volume_l = none;
  demo = false;
}

-- A row with a code that is not in the list, one without a code, and what is done with them.
abbrev calls : List DraftCall
calls =
    import_row 7 oil
    ∷ import_row 7 (record oil { tnved = [] })
    ∷ submit 7 0 4
    ∷ fix 7 0 4 (text "2710198200")
    ∷ submit 7 1 4
    ∷ []

abbrev empty : Drafts
empty = record { next_id = 0; rows = [] }

serve_all-Sound_example : Sound (serve_all (λ t. t) calls empty)
serve_all-Sound_example = serve_all-Sound (λ t. t) calls empty (tt, tt, tt)

-- The second one is submitted without a code.
codeless : map (λ d. d.status) (serve_all (λ t. t) calls empty).rows ≡ draft ∷ submitted ∷ []
unfolding create_draft fix_tnved submit_draft is_in_list
codeless = refl

-- A value for every attribute that a card needs.
abbrev complete : List AttributeDef → Attributes
complete [] = []
complete (d ∷ defs) = (d.key, str (text "1")) ∷ complete defs

abbrev new_oil : CreateCard
new_oil = record {
  gtin = text "04870000000013";
  attributes = complete (a_manual ++ a_auto);
  confirm_duplicate = false;
}

abbrev oil_card : ProductCard
oil_card = new_card 7 (text "04870000000013") (stored_attributes new_oil) shop

oil_created :
    create_card (λ t. t) (λ v. none) 7 new_oil shop
    ≡ (ok oil_card, record shop { next_id = 11; cards = oil_card ∷ [] })
unfolding create_card create_in insert_unique doubles validate_attributes autofill_attributes
oil_created = refl

-- The same card again, with a confirmation.
create_card-create_card_example :
    create_card
      (λ t. t)
      (λ v. none)
      7
      (record new_oil { confirm_duplicate = true })
      (record shop { next_id = 11; cards = oil_card ∷ [] })
    ≡ (
      err (
          if not (is_gtin (text "04870000000013"))
            || has_any (
                validate_attributes
                  (autofilled (λ t. t) (λ v. none) (record new_oil { confirm_duplicate = true })))
          then bad_request
          else conflict),
      record shop { next_id = 11; cards = oil_card ∷ [] },
    )
create_card-create_card_example =
    create_card-create_card (λ t. t) (λ v. none) 7 new_oil
      (record new_oil { confirm_duplicate = true }) shop
      (record shop { next_id = 11; cards = oil_card ∷ [] }) oil_card oil_created refl
