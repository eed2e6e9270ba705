-- ===== src/Tests/Labelling.antt =====
-- The theorems on labels at work.
use mark_solutions.Base.{all, true, ℕ, ◌≡◌, refl, true, Option, none, some, [], ◌∷◌, find, Text}
use mark_solutions.Store.{CodeStatus, CodeVault, Db, ok, ◌>>=◌}
use mark_solutions.Catalog.Km.{raw_string_of}
use mark_solutions.Codes.{owned_code}
use mark_solutions.Vault.{revealed, with_extended}
use mark_solutions.Labels.{latin1, print, apply}
use mark_solutions.Labels.Scanning.{is_plain_unit, apply-print}
use mark_solutions.Tests.Data.{shop}

abbrev code : CodeStatus → CodeVault
code status = record {
  id = 50;
  order_id = 10;
  tenant_id = 7;
  card_id = 3;
  gtin = 52 ∷ 54 ∷ [];
  mask = [];
  secret = record { serial = 65 ∷ 98 ∷ []; ai91 = none; ai92 = none };
  label_key = none;
  status = status;
}

abbrev with_code : CodeStatus → Db
with_code status = record shop { vault = code status ∷ [] }

-- The key of a picture, and the texts of a card.
abbrev store : Text → ℕ
store [] = 0
store (c ∷ s) = c

abbrev card : ℕ → Option Text × Option Text
card id = (some (49 ∷ []), some (50 ∷ []))

plain_label :
    all is_plain_unit (
      raw_string_of
        (with_extended true (some (49 ∷ [])) (some (50 ∷ [])) (revealed (code CodeStatus.active))))
    ≡ true
unfolding raw_string_of
plain_label = refl

apply-print_example :
    let (r, db') =
      (print store true card 7 50 1 >>= λ l. apply store true card 7 50 2 (some (latin1 l.text)))
        (with_code CodeStatus.active) in
    (r ≡ ok CodeStatus.applied)
    × (row : CodeVault) × (find (owned_code 7 50) db'.vault ≡ some row)
    × (row.status ≡ CodeStatus.applied)
    × (row.label_key
        ≡ some (
            store (
              raw_string_of (
                with_extended true
                  (some (49 ∷ []))
                  (some (50 ∷ []))
                  (revealed (code CodeStatus.active))))))
apply-print_example =
    apply-print store true card (λ s. some (latin1 s)) 7 50 1 2 (with_code CodeStatus.active)
      (code CodeStatus.active) (λ s plain. refl) refl refl plain_label
