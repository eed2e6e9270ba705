-- ===== src/Cards/Files.antt =====
-- The files of a card: the check of packages/shared/src/catalog-rules.ts (`validateFiles`), the upload
-- of a file and the clone of a card (apps/api/src/files.controller.ts).
use mark_solutions.Base.{
  ℕ, suc, Bool, true, false, ◌&&◌, ◌||◌, not, Option, none, some, List, [], ◌∷◌, ◌++◌, ltb, ◌==◌,
  if◌then◌else◌, length, filter, any, find, Text, text, text_ltb, is_empty,
}
use mark_solutions.Store.{
  FileLabel, front, back, declaration, FileDescriptor, Value, bool, files, CardStatus, ProductCard,
  Db, ok, Action, not_found, pure, gets, or_throw, ◌>>=◌, ◌>>◌,
}
use mark_solutions.Cards.{Attributes, get_attribute, set_attribute, string_of, update_card}

abbrev pub label_eq : FileLabel → FileLabel → Bool
label_eq front front = true
label_eq back back = true
label_eq declaration declaration = true
label_eq _ _ = false

abbrev pub has_label : FileLabel → FileDescriptor → Bool
has_label l f = label_eq f.label l

abbrev pub is_photo : FileDescriptor → Bool
is_photo f = has_label front f || has_label back f

-- `new Set(photos.map((p) => p.label)).size`
abbrev pub label_count : List FileDescriptor → ℕ
label_count [] = 0
label_count (f ∷ fs) =
    let rest = label_count fs in if any (has_label f.label) fs then rest else suc rest

abbrev pub bad_photos : List FileDescriptor → Bool
bad_photos photos = ltb (length photos) 2 || not (label_count photos == length photos)

abbrev pub is_perpetual : Option Value → Bool
is_perpetual (some (bool true)) = true
is_perpetual _ = false

abbrev pub bad_dates : Bool → Text → Text → Bool
bad_dates perpetual date expiry =
    not perpetual
    && (is_empty expiry
        || ((not (is_empty date) && (not (is_empty expiry) && text_ltb expiry date))
            || (not (is_empty date) && is_empty expiry)))

abbrev pub bad_declaration : List FileDescriptor → Attributes → Bool
bad_declaration fs attrs =
    any (has_label declaration) fs
    && bad_dates (is_perpetual (get_attribute (text "declarationPerpetual") attrs))
        (string_of (get_attribute (text "declarationDate") attrs))
        (string_of (get_attribute (text "declarationExpiry") attrs))

abbrev pub photos_key : Text
photos_key = text "photos"

abbrev pub declaration_key : Text
declaration_key = text "declaration"

-- The fields with an error.
unfoldable pub validate_files : List FileDescriptor → Attributes → List Text
validate_files fs attrs =
    (if bad_photos (filter is_photo fs) then photos_key ∷ [] else [])
    ++ (if bad_declaration fs attrs then declaration_key ∷ [] else [])

-- `attributes.files ?? []`
abbrev pub files_of : Option Value → List FileDescriptor
files_of (some (files fs)) = fs
files_of _ = []

abbrev pub files_key : Text
files_key = text "files"

abbrev pub owned_card : ℕ → ℕ → ProductCard → Bool
owned_card tenant id c = (c.id == id) && (c.tenant_id == tenant)

-- A file with the label that is there already is replaced.
abbrev pub next_files : FileDescriptor → List FileDescriptor → List FileDescriptor
next_files f existing = filter (λ g. not (has_label f.label g)) existing ++ (f ∷ [])

-- `upload` with a known label, of a file that the storage has put under a key.
unfoldable pub upload : ℕ → ℕ → FileDescriptor → Action FileDescriptor
upload tenant id f = do
  row ← gets (λ db. find (owned_card tenant id) db.cards)
  card ← or_throw row not_found
  let existing = files_of (get_attribute files_key card.attributes)
  update_card id (λ c. record c {
    attributes = set_attribute files_key (files (next_files f existing)) card.attributes;
  })
  pure f

abbrev pub new_card : ℕ → Text → Attributes → Db → ProductCard
new_card tenant gtin attributes db = record {
  id = db.next_id;
  tenant_id = tenant;
  gtin = gtin;
  product_group = none;
  status = CardStatus.draft;
  ntin = none;
  attributes = attributes;
  audit = [];
  field_reasons = [];
  rejected_attributes = none;
}

-- `productCard.create`
abbrev pub insert_card : ℕ → Text → Attributes → Action ProductCard
insert_card tenant gtin attributes db =
    let c = new_card tenant gtin attributes db in
    (ok c, record db { next_id = suc db.next_id; cards = db.cards ++ (c ∷ []) })

-- `clone`: the same files under the same keys, and no `gtin`.
unfoldable pub clone : ℕ → ℕ → Action ProductCard
clone tenant id = do
  row ← gets (λ db. find (owned_card tenant id) db.cards)
  card ← or_throw row not_found
  insert_card tenant [] card.attributes
