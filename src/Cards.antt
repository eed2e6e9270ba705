-- ===== src/Cards.antt =====
-- Product cards: their attributes, the table of cards, and the children for what is done with them.
pub mod Schema
pub mod Files
pub mod Resolving
pub mod Moderation
pub mod Registering
pub mod Creating
use mark_solutions.Base.{
  ℕ, Bool, true, false, Option, none, some, List, [], ◌∷◌, ◌++◌, ◌==◌, if◌then◌else◌, find,
  update_where, Text, text, text_eq,
}
use mark_solutions.Store.{
  FileDescriptor, Value, null, str, num, bool, files, CardStatus, AuditEntry, ProductCard, Db,
  Action, not_found, gets, or_throw, modify, ◌>>=◌,
}

-- A JSON object with distinct keys.
abbrev pub Attributes : Type 0
Attributes = List (Text × Value)

abbrev pub get_attribute : Text → Attributes → Option Value
get_attribute k [] = none
get_attribute k ((j, v) ∷ attrs) =
    let rest = get_attribute k attrs in if text_eq j k then some v else rest

abbrev pub set_attribute : Text → Value → Attributes → Attributes
set_attribute k v [] = (k, v) ∷ []
set_attribute k v ((j, w) ∷ attrs) =
    let rest = set_attribute k v attrs in if text_eq j k then (j, v) ∷ attrs else (j, w) ∷ rest

-- `String(files)`: a list of objects.
abbrev objects : List FileDescriptor → Text
objects [] = []
objects (f ∷ []) = text "[object Object]"
objects (f ∷ fs) = text "[object Object]," ++ objects fs

-- `String(v ?? "")`
abbrev pub string_of : Option Value → Text
string_of none = []
string_of (some null) = []
string_of (some (str s)) = s
string_of (some (num s)) = s
string_of (some (bool b)) = if b then text "true" else text "false"
string_of (some (files fs)) = objects fs

abbrev pub has_card_id : ℕ → ProductCard → Bool
has_card_id id c = c.id == id

abbrev pub update_card : ℕ → (ProductCard → ProductCard) → Action Unit
update_card id f = modify (λ db. record db { cards = update_where (has_card_id id) f db.cards })

unfoldable pub get_card : ℕ → Action ProductCard
get_card id = do row ← gets (λ db. find (has_card_id id) db.cards); or_throw row not_found

abbrev pub put_status : CardStatus → ProductCard → ProductCard
put_status status c = record c { status = status }

abbrev pub add_audit : AuditEntry → ProductCard → ProductCard
add_audit e c = record c { audit = c.audit ++ (e ∷ []) }
