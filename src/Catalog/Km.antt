-- ===== src/Catalog/Km.antt =====
-- The string form of a marking code (`parseAdr006Km` and `serializeAdr006Km` of
-- packages/shared/src/catalog-rules.ts).
pub mod RoundTrip
use mark_solutions.Base.{
  ℕ, zero, suc, ◌+◌, ◌-◌, ◌≡◌, refl, Bool, true, false, ◌&&◌, ◌||◌, not, Option, none, some, List,
  [], ◌∷◌, ◌++◌, arith, ltb, ◌==◌, if◌then◌else◌, length, Text, text_eq, slice, starts_with,
  is_empty,
}

pub data Form : Type 0 where
  base extended : Form

pub record Adr006Km : Type 0 where
  pub gtin : Text
  pub serial : Text
  pub ai91 : Option Text
  pub ai92 : Option Text
  pub form : Form

-- `raw.replaceAll("<GS>", "\x1d")`
unfoldable pub normalize : Text → Text
normalize (a ∷ b ∷ c ∷ d ∷ s) =
    let replaced = 29 ∷ normalize s in
    let kept = a ∷ normalize (b ∷ c ∷ d ∷ s) in
    if (a == 60) && ((b == 71) && ((c == 83) && (d == 62))) then replaced else kept
normalize (a ∷ b ∷ c ∷ []) = a ∷ b ∷ c ∷ []
normalize (a ∷ b ∷ []) = a ∷ b ∷ []
normalize (a ∷ []) = a ∷ []
normalize [] = []

-- `s.split("\x1d")`, as its first part and the others
unfoldable pub split_gs : Text → Text × List Text
split_gs [] = ([], [])
split_gs (c ∷ s) =
    let (head, rest) = split_gs s in if c == 29 then ([], head ∷ rest) else (c ∷ head, rest)

-- The loop over the parts that follow the first separator.
unfoldable pub read_parts : Option Text → Option Text → List Text → Option Text × Option Text
read_parts ai91 ai92 [] = (ai91, ai92)
read_parts ai91 ai92 (part ∷ rest) =
    let is_91 = starts_with (57 ∷ 49 ∷ []) part in
    let is_92 = starts_with (57 ∷ 50 ∷ []) part in
    let value = slice 2 (length part) part in
    read_parts (if is_91 then some value else ai91)
      (if is_91 then ai92 else if is_92 then some value else ai92) rest

-- A string that is missing or empty is falsy.
abbrev pub is_truthy : Option Text → Bool
is_truthy none = false
is_truthy (some s) = not (is_empty s)

-- The checks of the part before the first separator, and the result. `none` is the thrown error.
unfoldable pub parse_head : Text → Option Text → Option Text → Option Adr006Km
parse_head head ai91 ai92 =
    let gtin = slice 2 16 head in
    let serial = slice 18 (length head) head in
    if is_empty head
      || (not (starts_with (48 ∷ 49 ∷ []) head)
          || (ltb (length head) 18 || not (text_eq (slice 16 18 head) (50 ∷ 49 ∷ []))))
    then none
    else if is_empty gtin || is_empty serial
    then none
    else some (record {
      gtin = gtin;
      serial = serial;
      ai91 = ai91;
      ai92 = ai92;
      form = if is_truthy ai91 || is_truthy ai92 then extended else base;
    })

unfoldable pub parse_adr006_km : Text → Option Adr006Km
unfolding normalize split_gs read_parts parse_head
parse_adr006_km raw =
    let (head, rest) = split_gs (normalize raw) in
    let (ai91, ai92) = read_parts none none rest in parse_head head ai91 ai92

abbrev pub group : ℕ → Option Text → Text
group digit none = []
group digit (some s) = if is_empty s then [] else 29 ∷ 57 ∷ digit ∷ s

abbrev pub tail_of : Form → Option Text → Option Text → Text
tail_of base ai91 ai92 = []
tail_of extended ai91 ai92 = group 49 ai91 ++ group 50 ai92

unfoldable pub serialize_adr006_km : Adr006Km → Text
serialize_adr006_km code =
    let g14 = if length code.gtin == 13 then 48 ∷ code.gtin else code.gtin in
    48 ∷ 49 ∷ (g14 ++ (50 ∷ 49 ∷ (code.serial ++ tail_of code.form code.ai91 code.ai92)))

-- `rawStringOf` of apps/api/src/label.service.ts, which the printed label carries
unfoldable pub raw_string_of : Adr006Km → Text
raw_string_of code =
    48 ∷ 49 ∷ (code.gtin ++ (50 ∷ 49 ∷ (code.serial ++ tail_of code.form code.ai91 code.ai92)))
