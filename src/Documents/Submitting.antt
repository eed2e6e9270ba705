-- ===== src/Documents/Submitting.antt =====
-- What a withdrawal that was accepted has been tested for.
use mark_solutions.Base.{ℕ, suc, ◌++◌, ◌≡◌, false, Option, some, List, [], ◌∷◌, All, any, find}
use mark_solutions.Store.{
  CodeVault, WithdrawalType, submitted, Db, conflict, transient, Action, Result, ok, err, gets,
  or_throw, throw_if, ◌>>=◌, ◌>>◌,
}
use mark_solutions.Codes.{owned_code}
use mark_solutions.Documents.{
  Submission, accepted, withdrawal_row, Withdrawal, Collected, is_withdrawn, check_codes,
  open_documents, is_in_documents, file_withdrawal,
}

-- A code of the tenant that is neither withdrawn nor written off nor expired.
abbrev pub IsOpenToWithdrawal : ℕ → Db → ℕ → Type 0
IsOpenToWithdrawal t db k =
    (code : CodeVault) × (find (owned_code t k) db.vault ≡ some code)
    × (is_withdrawn code.status ≡ false)

-- What the tests of the codes come to: all may be withdrawn, and nothing is written, or an error.
abbrev Tested : ℕ → List ℕ → Db → Result (Unit {0}) × Db → Type 0
Tested t keys db (ok u, db') = All (IsOpenToWithdrawal t db) keys × (db' ≡ db)
Tested t keys db (err e, db') = Unit

module _ (now : ℕ) (mpt : List ℕ → Option Submission) (t : ℕ) (body : Withdrawal)
    (type : WithdrawalType) (db : Db) (id : ℕ) where
  abbrev nothing_yet : Collected
  nothing_yet = record { to_process = []; units = [] }

  -- What follows the tests of the codes, and what follows the collecting.
  abbrev rest_of : Collected → Action Submission
  rest_of c = do
    docs ← gets (open_documents t)
    throw_if (any (is_in_documents docs) c.to_process) conflict
    sub ← or_throw (mpt c.to_process) transient
    file_withdrawal now mpt t body type c sub

  abbrev tests_of : Collected → Action Submission
  tests_of c = check_codes t c.to_process >> rest_of c

  -- The tables with the document of an accepted withdrawal.
  abbrev pub filed : Collected → ℕ → Db
  filed c external = record db {
    next_id = suc db.next_id;
    withdrawals =
        db.withdrawals
        ++ (record (withdrawal_row now t c.to_process type c.units submitted (some external)) {
          id = db.next_id;
        }
            ∷ []);
  }

  -- The marking system was asked with the collected codes, and they are in the document.
  abbrev IsFiled : Collected → Db → Type 0
  IsFiled c db' =
      (any (is_in_documents (open_documents t db)) c.to_process ≡ false)
      × (external : ℕ) × (mpt c.to_process ≡ some (accepted external))
      × (db' ≡ filed c external)
