-- ===== src/Labels.antt =====
-- `LabelService` (apps/api/src/label.service.ts): a code is printed as a DataMatrix, printed again with
-- the same label, and confirmed as applied by a scan of the label.
pub mod Scanning
use mark_solutions.Base.{
  ℕ, ◌%◌, map, Bool, true, false, ◌&&◌, ◌||◌, not, Option, none, some, List, ltb, ◌==◌,
  if◌then◌else◌, find, update_where, Text, text_eq, length, trim,
}
use mark_solutions.Store.{
  CodeStatus, CodeEventType, CodeEvent, CodeVault, Db, bad_request, not_found, conflict, Action,
  pure, gets, or_throw, throw_if, modify, ◌>>=◌, ◌>>◌,
}
use mark_solutions.Catalog.Km.{raw_string_of}
use mark_solutions.Codes.{owned_code, code_has_id, record_event_on}
use mark_solutions.Vault.{reveal_one}

pub data ReprintReason : Type 0 where
  print_defect damaged_before_apply lost_label other : ReprintReason

abbrev pub is_unexplained : ReprintReason → Text → Bool
is_unexplained other comment = ltb (length (trim comment)) 5
is_unexplained _ comment = false

abbrev pub is_active : CodeStatus → Bool
is_active CodeStatus.active = true
is_active _ = false

abbrev pub is_printable : CodeStatus → Bool
is_printable CodeStatus.active = true
is_printable CodeStatus.printed = true
is_printable _ = false

-- `Buffer.from(s, "latin1")`: the low byte of every code unit
abbrev pub latin1 : Text → List ℕ
latin1 s = map (λ c. c % 256) s

-- What is printed: the key of the label's picture, the text that it is drawn from, and the status of the
-- code.
pub record Label : Type 0 where
  pub key : ℕ
  pub text : Text
  pub status : CodeStatus

abbrev pub set_label : ℕ → CodeVault → CodeVault
set_label key c = record c { label_key = some key }

-- The label that the code has, or a new one. `store` renders and writes the picture of a text, which
-- is found again by its content.
unfoldable pub label_key_for : (Text → ℕ) → ℕ → Option ℕ → Text → Action ℕ
label_key_for store id (some key) raw = pure key
label_key_for store id none raw = do
  modify
      (λ db. record db { vault = update_where (code_has_id id) (set_label (store raw)) db.vault })
  pure (store raw)

abbrev pub code_row : ℕ → ℕ → Action CodeVault
code_row tenant id = do
  row ← gets (λ db. find (owned_code tenant id) db.vault)
  or_throw row not_found

-- `card` gives the two texts of the card that `reveal_one` may add.
module _ (store : Text → ℕ) (extended_codes : Bool) (card : ℕ → Option Text × Option Text) where
  unfoldable pub print : ℕ → ℕ → ℕ → Action Label
  print tenant id actor = do
    row ← code_row tenant id
    throw_if (not (is_active row.status)) conflict
    code ← reveal_one extended_codes card id tenant
    key ← label_key_for store id row.label_key (raw_string_of code)
    record_event_on tenant id actor (some CodeEventType.printed)
    pure (record { key = key; text = raw_string_of code; status = CodeStatus.printed })

  -- A reason that is not one of the known ones is `none`.
  unfoldable pub reprint : ℕ → ℕ → ℕ → Option ReprintReason → Text → Action Label
  reprint tenant id actor reason comment = do
    row ← code_row tenant id
    throw_if (not (is_printable row.status)) conflict
    given ← or_throw reason bad_request
    throw_if (is_unexplained given comment) bad_request
    code ← reveal_one extended_codes card id tenant
    key ← label_key_for store id row.label_key (raw_string_of code)
    record_event_on tenant id actor (some CodeEventType.reprinted)
    pure (record { key = key; text = raw_string_of code; status = row.status })

  -- `scanned` is the bytes that the reader sees in the picture, if it sees anything.
  unfoldable pub apply : ℕ → ℕ → ℕ → Option (List ℕ) → Action CodeStatus
  apply tenant id actor scanned = do
    row ← code_row tenant id
    bytes ← or_throw scanned bad_request
    code ← reveal_one extended_codes card id tenant
    throw_if (not (text_eq bytes (latin1 (raw_string_of code)))) bad_request
    record_event_on tenant id actor (some CodeEventType.applied)
    pure CodeStatus.applied
