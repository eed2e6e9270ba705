-- ===== src/Documents/Importing.antt =====
-- The submission of a document of import (`submitImport` of apps/api/src/document.service.ts).
use mark_solutions.Base.{
  ℕ, suc, Bool, true, false, ◌&&◌, Option, none, some, List, [], ◌∷◌, ◌++◌, map, ◌==◌,
  if◌then◌else◌, any, all,
}
use mark_solutions.Store.{
  CodeStatus, DocumentStatus, submitted, ImportDocument, bad_request, not_found, conflict,
  transient, Action, pure, throw, gets, or_throw, ◌>>=◌, ◌>>◌, throw_if, modify,
}
use mark_solutions.Orders.{get_owned_order, insert_outbox}
use mark_solutions.Vault.{rows_of, is_no_row}
use mark_solutions.Emission.{task_row}

-- What the client is told, and what the marking system answers: an error, or the document's identifier.
pub data Submission : Type 0 where
  rejected : Submission
  accepted : ℕ → Submission

abbrev pub is_applied : CodeStatus → Bool
is_applied CodeStatus.applied = true
is_applied _ = false

abbrev pub has_number : ℕ → ℕ → ImportDocument → Bool
has_number tenant number d = (d.tenant_id == tenant) && (d.customs_number == number)

abbrev pub import_row : ℕ → ℕ → ℕ → ℕ → ℕ → DocumentStatus → Option ℕ → ImportDocument
import_row now tenant order_id date number status external = record {
  id = 0;
  tenant_id = tenant;
  order_id = order_id;
  customs_date = date;
  customs_number = number;
  status = status;
  external_document_id = external;
  created_at = now;
}

-- `importDocument.create` gives the identifier of the new row.
unfoldable pub insert_import : ImportDocument → Action ℕ
insert_import row = do
  id ← gets (λ db. db.next_id)
  modify (λ db. record db {
    next_id = suc db.next_id;
    imports = db.imports ++ (record row { id = db.next_id } ∷ []);
  })
  pure id

-- A document in `ERROR`, and a task of the operator.
abbrev pub refuse_import : ℕ → ℕ → ℕ → ℕ → ℕ → Action Submission
refuse_import now tenant order_id date number = do
  insert_import (import_row now tenant order_id date number DocumentStatus.error none)
  insert_outbox (task_row order_id tenant)
  pure rejected

module _ (now : ℕ) (mpt : List ℕ → Option Submission) where
  unfoldable pub file_import : ℕ → ℕ → ℕ → ℕ → Submission → Action Submission
  unfolding insert_import
  file_import tenant order_id date number rejected = refuse_import now tenant order_id date number
  file_import tenant order_id date number (accepted external) = do
    id ← insert_import (import_row now tenant order_id date number submitted (some external))
    pure (accepted id)

  -- An absent date or number of the declaration is `none`. `mpt` is `mpt.submitImport`, which may throw.
  unfoldable pub submit_import : ℕ → ℕ → Option ℕ → Option ℕ → Action Submission
  submit_import tenant order_id none number = throw bad_request
  submit_import tenant order_id (some date) none = throw bad_request
  submit_import tenant order_id (some date) (some number) = do
    get_owned_order tenant order_id
    known ← gets (λ db. any (has_number tenant number) db.imports)
    throw_if known conflict
    codes ← gets (rows_of order_id tenant)
    throw_if (is_no_row codes) not_found
    if all (λ c. is_applied c.status) codes
        then (or_throw (mpt (map (λ c. c.id) codes)) transient
            >>= file_import tenant order_id date number)
        else refuse_import now tenant order_id date number
