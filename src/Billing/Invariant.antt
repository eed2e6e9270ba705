-- ===== src/Billing/Invariant.antt =====
-- The invariant of the ledger: no two accounts share an identifier, the balance of an account is the
-- sum of its journal, every posted amount is positive, and what is reserved never exceeds the
-- balance. A posting keeps it.
use mark_solutions.Base.{
  ℕ, suc, ◌≡◌, refl, ◌≢◌, inl, inr, Bool, true, false, Option, none, some, List, [], ◌∷◌, ◌++◌,
  arith, ◌==◌, ==_iff, Bool-cases, Option-cases, find, edit, All, All-append, any, find_sound,
  find-find, find-update_where,
}
use mark_solutions.Base.Int.{ℤ, pos, ◌+ℤ◌, ◌≤ℤ◌}
use mark_solutions.Store.{Account, LedgerKind, Db}
use mark_solutions.Billing.Ledger.{active_reserve, balance_of}
use mark_solutions.Billing.Sums.{cash_of, hold_of, balance_of-append, active_reserve-append}
use mark_solutions.Billing.{Opts, owned_by, has_id, has_version, set_balance, swap, entry_of}

abbrev pub Keyed : List Account → Type 0
Keyed [] = Unit
Keyed (a ∷ rows) = (find (has_id a.id) rows ≡ none) × Keyed rows

abbrev pub account_of : ℕ → Db → Option Account
account_of t db = find (owned_by t) db.accounts

pub record Sound (db : Db) : Type 0 where
  pub keyed : Keyed db.accounts
  pub cached : (t : ℕ) (a : Account) → account_of t db ≡ some a → a.balance ≡ balance_of t db.ledger
  pub positive : All (λ e. pos 1 ≤ℤ e.amount) db.ledger
  pub solvent : (t : ℕ) → active_reserve t db.ledger ≤ℤ balance_of t db.ledger

-- The row that is found for a tenant is the row under its identifier.
pub find-has_id :
    (t : ℕ) (rows : List Account) {a : Account}
    → Keyed rows
    → find (owned_by t) rows ≡ some a
    → find (has_id a.id) rows ≡ some a
find-has_id t [] k h = cc
find-has_id t (x ∷ rows) {a = a} k h = elim (Bool-cases (owned_by t x)) [
  | inl hit ↦ ground arith
  | inr miss ↦
      let later : find (owned_by t) rows ≡ some a = rw miss at h in
      let found = find-has_id t rows k.1 later in
      ground (arith, found, find-find (has_id x.id) (owned_by t) rows k.0 later)
]

-- Where a row has the identifier and the version, the row under the identifier has the version.
pub find-has_version :
    (id v : ℕ) (rows : List Account)
    → Keyed rows
    → any (has_version id v) rows ≡ true
    → (a : Account) × (find (has_id id) rows ≡ some a) × (a.version ≡ v)
find-has_version id v [] k h = cc
find-has_version id v (x ∷ rows) k h = elim (Bool-cases (has_version id v x)) [
  | inl hit ↦ (x, ground arith, ground arith)
  | inr miss ↦
      let (a, e, w) = find-has_version id v rows k.1 (rw miss at h) in
      (a, ground (arith, find-find (has_id x.id) (has_id id) rows), w)
]

-- A compare-and-swap keeps the identifiers.
pub swap-Keyed :
    (a : Account) (next : ℤ) (rows : List Account) → Keyed rows → Keyed (swap a next rows)
swap-Keyed a next [] k = tt
swap-Keyed a next (x ∷ rows) k =
    let same_id : (y : Account) → has_id x'.id (set_balance next y) ≡ has_id x'.id y = λ y. refl in
    (
      rw (find-update_where (has_id x'.id) here (set_balance next) rows same_id, kept) refl,
      swap-Keyed a next rows k.1,
    )
  where
    here : Account → Bool
    here = has_version a.id a.version

    x' : Account
    x' = edit here (set_balance next) x

    kept : find (has_id x'.id) rows ≡ none
    kept = ground (arith, k.0)

-- What a tenant's row is after the swap.
pub account_of-swap :
    (t : ℕ) (a : Account) (next : ℤ) (rows : List Account)
    → find (owned_by t) (swap a next rows) ≡ elim (find (owned_by t) rows) [
      | some x ↦ some (edit (has_version a.id a.version) (set_balance next) x)
      | none ↦ none
    ]
account_of-swap t a next rows =
    find-update_where (owned_by t) (has_version a.id a.version) (set_balance next) rows
      (λ x. ground arith)

-- The database after a posting, and what makes the posting sound.
abbrev pub posted : Account → ℕ → LedgerKind → ℤ → Opts → Db → Db
posted a t kind amount opts db = record db {
  accounts = swap a (a.balance +ℤ opts.delta) db.accounts;
  next_id = suc db.next_id;
  ledger = db.ledger ++ (record (entry_of a.id t kind amount opts) { id = db.next_id } ∷ []);
}

pub record IsPostable (t : ℕ) (kind : LedgerKind) (amount : ℤ) (opts : Opts) (db : Db)
    : Type 0 where
  pub moves : opts.delta ≡ cash_of kind amount
  pub positive : pos 1 ≤ℤ amount
  pub affords :
      active_reserve t db.ledger +ℤ hold_of kind amount
      ≤ℤ balance_of t db.ledger +ℤ cash_of kind amount

module _ (t : ℕ) (kind : LedgerKind) (amount : ℤ) (opts : Opts) (db : Db) (a : Account)
    (s : Sound db) (mine : account_of t db ≡ some a) (p : IsPostable t kind amount opts db) where
  -- Another tenant's row has another identifier.
  other_row :
      (t' : ℕ) (b : Account)
      → t' ≢ t
      → account_of t' db ≡ some b
      → has_version a.id a.version b ≡ false
  other_row t' b ne e = elim (Bool-cases (b.id == a.id)) [
    | inr differs ↦ rw differs
    | inl same ↦ absurd (
        ne (
          ground (
            arith,
            find-has_id t db.accounts s.keyed mine,
            find-has_id t' db.accounts s.keyed e,
            find_sound (owned_by t) db.accounts mine,
            find_sound (owned_by t') db.accounts e,
          )))
  ]

  posted-cached :
      (t' : ℕ) (b : Account)
      → account_of t' (posted a t kind amount opts db) ≡ some b
      → b.balance ≡ balance_of t' (posted a t kind amount opts db).ledger
  posted-cached t' b e = rw balance_of-append (elim (Option-cases (account_of t' db)) [
    | inl h ↦ ground (arith, account_of-swap t' a (a.balance +ℤ opts.delta) db.accounts, h)
    | inr (x, h) ↦
        let swapped = account_of-swap t' a (a.balance +ℤ opts.delta) db.accounts in
        elim (Bool-cases (t == t')) [
          | inl same ↦ ground (arith, swapped, h, mine, s.cached t a mine, p.moves)
          | inr differs ↦
              rw differs
                (ground (arith, swapped, h, other_row t' x (λ q. ground arith) h, s.cached t' x h))
        ]
  ])

  posted-solvent :
      (t' : ℕ)
      → active_reserve t' (posted a t kind amount opts db).ledger
        ≤ℤ balance_of t' (posted a t kind amount opts db).ledger
  posted-solvent t' =
      rw (balance_of-append, active_reserve-append)
        (elim (Bool-cases (t == t')) [
          | inl h ↦ rw (h, ← (==_iff t t').0 h) p.affords
          | inr h ↦ rw h (s.solvent t')
        ])

  pub posted-Sound : Sound (posted a t kind amount opts db)
  posted-Sound = record {
    keyed = swap-Keyed a _ db.accounts s.keyed;
    cached = posted-cached;
    positive = All-append (λ e. pos 1 ≤ℤ e.amount) db.ledger _ s.positive (p.positive, tt);
    solvent = posted-solvent;
  }
