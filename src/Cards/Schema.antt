-- ===== src/Cards/Schema.antt =====
-- The schema of product cards (packages/shared/src/catalog-schema.ts): the attributes of motor oils,
-- the check that the required ones are there, and the filling in of the others.
pub mod Filling
pub mod Completing
use Prim.Native.String.{String}
use mark_solutions.Base.{
  ℕ, Bool, true, false, ◌&&◌, ◌||◌, not, Option, none, some, List, [], ◌∷◌, ◌++◌, if◌then◌else◌,
  Text, text, is_empty,
}
use mark_solutions.Store.{Value, null, str}
use mark_solutions.Cards.{Attributes, get_attribute, set_attribute}

pub data Reference : Type 0 where
  tnved kpved gpc sae conformity eac : Reference
  product_group product_category package_type : Reference

pub data AttributeType : Type 0 where
  string number boolean : AttributeType
  ref : Reference → AttributeType

pub data Tier : Type 0 where
  manual_tier auto_tier b_tier : Tier

pub record AttributeDef : Type 0 where
  pub key : Text
  pub label : Text
  pub tier : Tier
  pub type_of : AttributeType
  pub required : Bool
  pub autofill : Bool
  pub default_value : Option Text

unfoldable pub references : Reference → List Text
references Reference.tnved =
    text "2710198200" ∷ text "3403191000" ∷ text "3403199000" ∷ text "3403990000" ∷ []
references Reference.kpved = text "19.20.29" ∷ text "20.59.41" ∷ []
references Reference.gpc = text "10005267" ∷ []
references Reference.sae =
    text "0W-20"
    ∷ text "0W-30"
    ∷ text "0W-40"
    ∷ text "5W-20"
    ∷ text "5W-30"
    ∷ text "5W-40"
    ∷ text "10W-30"
    ∷ text "10W-40"
    ∷ text "15W-40"
    ∷ text "20W-50"
    ∷ []
references Reference.conformity = text "нет" ∷ text "СТ РК" ∷ []
references Reference.eac = text "нет" ∷ text "EAC" ∷ []
references Reference.product_group = text "Смазочные материалы и специальные жидкости" ∷ []
references Reference.product_category = text "Моторные, компрессорные, турбинные масла" ∷ []
references Reference.package_type = text "Единица товара" ∷ []

abbrev row : Tier → Bool → Bool → String → String → AttributeType → AttributeDef
row tier required autofill key label type_of = record {
  key = text key;
  label = text label;
  tier = tier;
  type_of = type_of;
  required = required;
  autofill = autofill;
  default_value = none;
}

abbrev manual : String → String → AttributeType → AttributeDef
manual = row manual_tier true false

abbrev auto : String → String → AttributeType → AttributeDef
auto = row auto_tier true true

abbrev optional : String → String → AttributeType → AttributeDef
optional = row b_tier false false

-- Tier A, filled in by hand.
unfoldable pub a_manual : List AttributeDef
a_manual =
    manual "gtin" "GTIN" string
    ∷ manual "name" "Торговое наименование" string
    ∷ manual "brand" "Товарный знак" string
    ∷ manual "countryOfBrand" "Страна товарного знака" string
    ∷ manual "composition" "Состав" string
    ∷ manual "shelfLifeMonths" "Срок годности (мес)" number
    ∷ manual "productType" "Вид товара" string
    ∷ manual "volumeL" "Объём (л)" number
    ∷ manual "purpose" "Назначение" string
    ∷ manual "sae" "SAE" (ref Reference.sae)
    ∷ manual "storage" "Хранение" string
    ∷ manual "conformityMark" "Знак соответствия СТ РК" (ref Reference.conformity)
    ∷ manual "eacMarks" "Знаки обращения EAC" (ref Reference.eac)
    ∷ manual "grossWeightKg" "Вес брутто (кг)" number
    ∷ []

-- Tier A, filled in from the participant.
unfoldable pub a_auto : List AttributeDef
a_auto =
    auto "group" "Группа" (ref Reference.product_group)
    ∷ auto "category" "Категория" (ref Reference.product_category)
    ∷ auto "packageType" "Тип упаковки" (ref Reference.package_type)
    ∷ auto "kpved" "КПВЭД" (ref Reference.kpved)
    ∷ auto "gpc" "GPC" (ref Reference.gpc)
    ∷ auto "tnved" "ТНВЭД" (ref Reference.tnved)
    ∷ auto "ownerGcp" "GCP владельца GTIN" string
    ∷ auto "ownerName" "Наименование владельца GTIN" string
    ∷ auto "ownerCountry" "Страна владельца GTIN" string
    ∷ auto "ownerAddress" "Адрес владельца GTIN" string
    ∷ auto "platformName" "Производитель (наименование)" string
    ∷ auto "platformCountry" "Производитель (страна)" string
    ∷ auto "platformAddress" "Производитель (адрес)" string
    ∷ auto "participantTaxNumber" "Налоговый номер участника" string
    ∷ auto "participantName" "Наименование участника" string
    ∷ auto "participantCountry" "Страна участника" string
    ∷ auto "participantAddress" "Адрес участника" string
    ∷ []

-- Tier B.
unfoldable pub tier_b : List AttributeDef
tier_b =
    optional "declarationType" "Тип декларации" string
    ∷ optional "declarationNumber" "№ декларации" string
    ∷ optional "declarationDate" "Дата декларации" string
    ∷ optional "declarationExpiry" "Действует до" string
    ∷ optional "declarationPerpetual" "Бессрочная декларация" boolean
    ∷ optional "packageKind" "Вид упаковки" string
    ∷ optional "packageMaterial" "Материал упаковки" string
    ∷ optional "weightUnit" "Единица веса" string
    ∷ record (optional "volumeUnit" "Единица объёма" string) { default_value = some (text "л") }
    ∷ optional "widthCm" "Ширина (см)" number
    ∷ optional "heightCm" "Высота (см)" number
    ∷ optional "depthCm" "Глубина (см)" number
    ∷ optional "photo" "Фото" string
    ∷ optional "participantGcp" "GCP участника" string
    ∷ []

-- `motorOilSchemaV1.attributes`
unfoldable pub motor_oil_attributes : List AttributeDef
unfolding a_manual a_auto tier_b
motor_oil_attributes = a_manual ++ (a_auto ++ tier_b)

-- `undefined` or the empty string: what is filled in.
abbrev pub is_blank : Option Value → Bool
is_blank none = true
is_blank (some (str s)) = is_empty s
is_blank (some _) = false

-- The same, or `null`: what counts as missing.
abbrev pub is_missing : Option Value → Bool
is_missing (some null) = true
is_missing v = is_blank v

-- Whether an attribute has to be given by hand.
abbrev pub is_demanded : AttributeDef → Bool
is_demanded d = d.required && not d.autofill

abbrev pub missing_of : List AttributeDef → Attributes → List Text
missing_of [] attrs = []
missing_of (d ∷ defs) attrs =
    let rest = missing_of defs attrs in
    if is_demanded d && is_missing (get_attribute d.key attrs) then d.key ∷ rest else rest

-- The fields with an error; the texts of the errors are left out.
unfoldable pub validate_attributes : Attributes → List Text
unfolding a_manual a_auto
validate_attributes attrs = missing_of (a_manual ++ a_auto) attrs

-- One turn of a loop over definitions: a blank attribute takes the value that its definition has.
abbrev pub filled : AttributeDef → Option Text → Attributes → Attributes
filled d none attrs = attrs
filled d (some v) attrs =
    if is_blank (get_attribute d.key attrs) then set_attribute d.key (str v) attrs else attrs

abbrev pub fill : (AttributeDef → Option Text) → List AttributeDef → Attributes → Attributes
fill value [] attrs = attrs
fill value (d ∷ defs) attrs = fill value defs (filled d (value d) attrs)

-- `tenant[def.key] ?? ""`
abbrev pub tenant_value : (Text → Option Text) → AttributeDef → Option Text
tenant_value tenant d =
    if d.autofill then some (elim (tenant d.key) [ none ↦ [] | some v ↦ v ]) else none

abbrev pub default_of : AttributeDef → Option Text
default_of d = elim d.default_value [ none ↦ none | some v ↦ if is_empty v then none else some v ]

unfoldable pub autofill_attributes : Attributes → (Text → Option Text) → Attributes
unfolding a_auto motor_oil_attributes
autofill_attributes attrs tenant =
    fill default_of motor_oil_attributes (fill (tenant_value tenant) a_auto attrs)
