-- ===== src/Tests/Cards.antt =====
-- The theorems on product cards at work.
use mark_solutions.Base.{◌≡◌, refl, false, none, some, List, [], ◌∷◌, find-All, text}
use mark_solutions.Store.{CardStatus, str, ProductCard, Db, bad_request, err}
use mark_solutions.Cards.{Attributes, has_card_id}
use mark_solutions.Cards.Resolving.{mock_verify}
use mark_solutions.Cards.Moderation.{submit_card, reject}
use mark_solutions.Cards.Moderation.Trail.{Follows}
use mark_solutions.Cards.Moderation.History.{
  Call, submit, approval, rejection, serve_all, serve_all-Follows, IsVetted,
}
use mark_solutions.Cards.Moderation.Resubmitting.{reject-submit_card}
use mark_solutions.Cards.Registering.{Nkt, NktStatus}
use mark_solutions.Cards.Registering.Vetting.{Vetted}
use mark_solutions.Cards.Registering.Vetting.Ticks.{moderation, tick, happen_all, happen_all-Vetted}
use mark_solutions.Tests.Data.{shop}

abbrev attributes : Attributes
attributes =
    (text "name", str (text "Oil 5W-30"))
    ∷ (text "brand", str (text "Acme"))
    ∷ (text "sae", str (text "5W-30"))
    ∷ []

abbrev card : CardStatus → ProductCard
card status = record {
  id = 3;
  tenant_id = 7;
  gtin = text "04600000000008";
  product_group = none;
  status = status;
  ntin = none;
  attributes = attributes;
  audit = [];
  field_reasons = [];
  rejected_attributes = none;
}

abbrev with_card : CardStatus → Db
with_card status = record shop { cards = card status ∷ [] }

abbrev calls : List Call
calls = rejection 3 90 (text "brand" ∷ []) ∷ submit 7 3 91 ∷ submit 8 3 92 ∷ approval 3 90 ∷ []

serve_all-Follows_example :
    Follows
      (card CardStatus.submitted ∷ [])
      (serve_all mock_verify calls (with_card CardStatus.submitted)).cards
serve_all-Follows_example = serve_all-Follows mock_verify calls (with_card CardStatus.submitted)

reject-submit_card_example :
    let db' = (reject 3 90 (text "brand" ∷ []) (with_card CardStatus.in_review)).1 in
    submit_card mock_verify 7 3 91 db' ≡ (err bad_request, db')
reject-submit_card_example =
    reject-submit_card mock_verify 3 90 91 (text "brand") (text "brand") []
      (with_card CardStatus.in_review) (card CardStatus.in_review) refl refl refl refl

reviewed-Vetted : Vetted (with_card CardStatus.in_review)
reviewed-Vetted = record {
  cards = λ i c h.
      find-All IsVetted (has_card_id i) (card CardStatus.in_review ∷ []) h (λ past. cc past, tt);
  rows = tt;
}

-- The catalogue takes a card, and then registers it.
abbrev catalogue : Nkt
catalogue = record {
  submit_product = λ c. some 50;
  get_status = λ ref. some (NktStatus.registered (text "0123") (text "04600000000008"));
}

happen_all-Vetted_example : Vetted (
    happen_all mock_verify 15 false
      (moderation (approval 3 90) ∷ tick 5 catalogue ∷ tick 6 catalogue ∷ [])
      (with_card CardStatus.in_review))
happen_all-Vetted_example =
    happen_all-Vetted mock_verify 15 false
      (moderation (approval 3 90) ∷ tick 5 catalogue ∷ tick 6 catalogue ∷ [])
      (with_card CardStatus.in_review) reviewed-Vetted
