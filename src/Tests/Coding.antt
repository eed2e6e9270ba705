-- ===== src/Tests/Coding.antt =====
-- The theorems on codes at work.
use mark_solutions.Base.{ℕ, ◌≡◌, refl, true, false, none, some, List, [], ◌∷◌, ◌++◌, arith, Text}
use mark_solutions.Store.{CodeStatus, CodeEventType, CodeVault, Db}
use mark_solutions.Catalog.Gs1.{verify_gs1_mod10, gs1_mod10_check_digit}
use mark_solutions.Catalog.Gs1.Detection.{one_digit_refused}
use mark_solutions.Catalog.Km.{Adr006Km, extended, parse_adr006_km, serialize_adr006_km}
use mark_solutions.Catalog.Km.RoundTrip.{IsCanonical, parse-serialize}
use mark_solutions.Codes.Life.{Request, serve_all, Evolves, serve_all-Evolves}
use mark_solutions.Codes.Journal.{IsJournalled, serve_all-IsJournalled}
use mark_solutions.Tests.Data.{shop}

abbrev code : ℕ → CodeStatus → CodeVault
code id status = record {
  id = id;
  order_id = 10;
  tenant_id = 7;
  card_id = 3;
  gtin = [];
  mask = [];
  secret = record { serial = []; ai91 = none; ai92 = none };
  label_key = none;
  status = status;
}

-- One code that was just ingested, one that has expired.
abbrev printed_shop : Db
printed_shop = record shop { vault = code 50 CodeStatus.active ∷ code 51 CodeStatus.expired ∷ [] }

abbrev requests : List Request
requests =
    record { tenant = 7; code_id = 50; actor = 1; event = some CodeEventType.printed }
    ∷ record { tenant = 8; code_id = 50; actor = 2; event = some CodeEventType.written_off }
    ∷ record { tenant = 7; code_id = 51; actor = 1; event = some CodeEventType.applied }
    ∷ record { tenant = 7; code_id = 50; actor = 1; event = some CodeEventType.applied }
    ∷ record { tenant = 7; code_id = 50; actor = 1; event = none }
    ∷ []

serve_all-Evolves_example : Evolves 50 (code 50 CodeStatus.active) (serve_all requests printed_shop)
serve_all-Evolves_example =
    serve_all-Evolves 50 requests printed_shop (code 50 CodeStatus.active) (refl, (refl, tt)) refl

abbrev fresh_shop : Db
fresh_shop = record shop { vault = code 50 CodeStatus.active ∷ code 52 CodeStatus.active ∷ [] }

serve_all-IsJournalled_example : IsJournalled (serve_all requests fresh_shop)
serve_all-IsJournalled_example = serve_all-IsJournalled requests fresh_shop (refl, (refl, tt))

-- A digest whose first four bytes are 4294967295.
abbrev digest : ℕ → ℕ
digest tenant = 4294967295

-- `0460123456789`, whose check digit is 3
abbrev gtin13 : Text
gtin13 = 48 ∷ 52 ∷ 54 ∷ 48 ∷ 49 ∷ 50 ∷ 51 ∷ 52 ∷ 53 ∷ 54 ∷ 55 ∷ 56 ∷ 57 ∷ []

gtin14 : gs1_mod10_check_digit gtin13 ≡ 3
unfolding gs1_mod10_check_digit
gtin14 = refl

verified : verify_gs1_mod10 (gtin13 ++ (51 ∷ [])) 14 ≡ true
unfolding verify_gs1_mod10
verified = refl

one_digit_refused_example :
    verify_gs1_mod10 (53 ∷ 52 ∷ 54 ∷ 48 ∷ 49 ∷ 50 ∷ 51 ∷ 52 ∷ 53 ∷ 54 ∷ 55 ∷ 56 ∷ 57 ∷ 51 ∷ []) 14
    ≡ false
one_digit_refused_example =
    one_digit_refused [] 48 53 (52 ∷ 54 ∷ 48 ∷ 49 ∷ 50 ∷ 51 ∷ 52 ∷ 53 ∷ 54 ∷ 55 ∷ 56 ∷ 57 ∷ 51 ∷ [])
      14 14 verified (λ e. omega (arith, e))

abbrev km : Adr006Km
km = record {
  gtin = gtin13 ++ (51 ∷ []);
  serial = 65 ∷ 98 ∷ 53 ∷ [];
  ai91 = some (69 ∷ 69 ∷ []);
  ai92 = some (120 ∷ 121 ∷ []);
  form = extended;
}

km-IsCanonical : IsCanonical km
km-IsCanonical = record {
  gtin14 = refl;
  gtin_plain = refl;
  has_serial = refl;
  serial_plain = refl;
  ai91_group = (refl, refl);
  ai92_group = (refl, refl);
  form_fits = tt;
}

parse-serialize_example : parse_adr006_km (serialize_adr006_km km) ≡ some km
parse-serialize_example = parse-serialize km km-IsCanonical
