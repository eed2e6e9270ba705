-- ===== src/Documents/Deciding/Introducing.antt =====
-- The codes of an import that the marking system has confirmed.
use mark_solutions.Base.{
  ℕ, ◌≡◌, refl, ◌∙◌, inl, inr, Bool, true, false, none, some, List, [], ◌∷◌, arith, ◌==◌, ==_refl,
  Bool-cases, Option-cases, All, any, filter, find, find_sound, find-find, find-update_where,
}
use mark_solutions.Store.{
  CodeStatus, CodeEventType, CodeEvent, CodeVault, Db, bad_request, Result, ok, err,
}
use mark_solutions.Codes.{allows, owned_code, code_has_id, set_status, with_event, record_event_on}
use mark_solutions.Codes.Life.{IdsDiffer, code_of}
use mark_solutions.Vault.{code_of_tenant}
use mark_solutions.Documents.{is_applied}
use mark_solutions.Documents.Deciding.{system, introduce_each}

abbrev pub introduced : CodeVault → CodeVault
introduced = set_status CodeStatus.introduced

allows-is_applied : (s : CodeStatus) → allows s (some CodeStatus.introduced) ≡ is_applied s
allows-is_applied CodeStatus.active = refl
allows-is_applied CodeStatus.printed = refl
allows-is_applied CodeStatus.applied = refl
allows-is_applied CodeStatus.utilised = refl
allows-is_applied CodeStatus.introduced = refl
allows-is_applied CodeStatus.aggregated = refl
allows-is_applied CodeStatus.expired = refl
allows-is_applied CodeStatus.withdrawn = refl
allows-is_applied CodeStatus.written_off = refl

-- The code under an identifier is the one that its tenant is given.
code_of-owned_code :
    (t id : ℕ) (rows : List CodeVault) (c : CodeVault)
    → find (code_has_id id) rows ≡ some c
    → (c.tenant_id == t) ≡ true
    → find (owned_code t id) rows ≡ some c
code_of-owned_code t id [] c h own = cc
code_of-owned_code t id (x ∷ rows) c h own = elim (Bool-cases (code_has_id id x)) [
  | inl hit ↦ ground arith
  | inr miss ↦
      let later : find (code_has_id id) rows ≡ some c = rw miss at h in
      rw miss (code_of-owned_code t id rows c later own)
]

-- A code that is under its own identifier, and of the tenant.
abbrev pub IsThere : ℕ → Db → CodeVault → Type 0
IsThere t db c = (find (code_has_id c.id) db.vault ≡ some c) × ((c.tenant_id == t) ≡ true)

abbrev pub IsIntroduced : Db → CodeVault → Type 0
IsIntroduced db c = find (code_has_id c.id) db.vault ≡ some (introduced c)

-- How the introduction of some codes ends: all of them are introduced and no other code is touched, or
-- one of them was not applied.
abbrev pub Ends : List CodeVault → Db → Result (Unit {0}) × Db → Type 0
Ends codes db (ok u, db') =
    All (IsIntroduced db') codes
    × ((i : ℕ) → find (code_has_id i) codes ≡ none → code_of i db' ≡ code_of i db)
Ends codes db (err bad_request, db') = Unit
Ends codes db (err e, db') = ⊥

abbrev stepped : ℕ → CodeVault → Db → Db
stepped t c db = with_event t c.id system CodeEventType.introduced db

other_code :
    (t i : ℕ) (c : CodeVault) (db : Db)
    → (c.id == i) ≡ false
    → code_of i (stepped t c db) ≡ code_of i db
other_code t i c db differ =
    find-update_where (code_has_id i) (code_has_id c.id) introduced db.vault (λ x. refl)
    ∙ elim (Option-cases (code_of i db)) [
      | inl absent ↦ rw absent refl
      | inr (x, found) ↦
          let elsewhere : (x.id == c.id) ≡ false =
            ground (arith, find_sound (code_has_id i) db.vault found, differ) in
          rw (found, elsewhere) refl
    ]

rest-IsThere :
    (t : ℕ) (c : CodeVault) (db : Db) (rest : List CodeVault)
    → find (code_has_id c.id) rest ≡ none
    → All (IsThere t db) rest
    → All (IsThere t (stepped t c db)) rest
rest-IsThere t c db [] apart h = tt
rest-IsThere t c db (x ∷ rest) apart h = elim (Bool-cases (code_has_id c.id x)) [
  | inl hit ↦ cc (rw hit at apart)
  | inr miss ↦
      let differ : (c.id == x.id) ≡ false = ground (arith, miss) in
      (
        (other_code t x.id c db differ ∙ h.0.0, h.0.1),
        rest-IsThere t c db rest (rw miss at apart) h.1,
      )
]

record_introduced :
    (t : ℕ) (c : CodeVault) (db : Db)
    → IsThere t db c
    → is_applied c.status ≡ true
    → (e : CodeEvent) × (record_event_on t c.id system (some CodeEventType.introduced) db
        ≡ (ok e, stepped t c db))
unfolding record_event_on
record_introduced t c db there applied = (
  record {
    id = db.next_id;
    tenant_id = t;
    code_id = c.id;
    actor = system;
    event = CodeEventType.introduced;
  },
  rw (code_of-owned_code t c.id db.vault c there.0 there.1, allows-is_applied c.status, applied)
      refl,
)

record_refused :
    (t : ℕ) (c : CodeVault) (db : Db)
    → IsThere t db c
    → is_applied c.status ≡ false
    → record_event_on t c.id system (some CodeEventType.introduced) db ≡ (err bad_request, db)
unfolding record_event_on
record_refused t c db there not_so =
    rw (code_of-owned_code t c.id db.vault c there.0 there.1, allows-is_applied c.status, not_so)
      refl

own_code : (t : ℕ) (c : CodeVault) (db : Db) → IsThere t db c → IsIntroduced (stepped t c db) c
own_code t c db there =
    find-update_where (code_has_id c.id) (code_has_id c.id) introduced db.vault (λ x. refl)
    ∙ rw (there.0, ==_refl c.id) refl

pub introduce_each-Ends :
    (t : ℕ) (codes : List CodeVault) (db : Db)
    → IdsDiffer codes
    → All (IsThere t db) codes
    → Ends codes db (introduce_each t codes db)
unfolding introduce_each
introduce_each-Ends t [] db u h = (tt, λ i e. refl)
introduce_each-Ends t (c ∷ codes) db u h = elim (Bool-cases (is_applied c.status)) [
  | inr not_so ↦ rw (record_refused t c db h.0 not_so) tt
  | inl applied ↦
      let (e, recorded) = record_introduced t c db h.0 applied in
      rw recorded (
        go (introduce_each t codes (stepped t c db))
          (introduce_each-Ends t codes (stepped t c db) u.1 (rest-IsThere t c db codes u.0 h.1)))
]
  where
    go : (m : Result (Unit {0}) × Db) → Ends codes (stepped t c db) m → Ends (c ∷ codes) db m
    go (ok x, db') k = (
      (k.1 c.id u.0 ∙ own_code t c db h.0, k.0),
      λ i apart. elim (Bool-cases (code_has_id i c)) [
        | inl hit ↦ cc (rw hit at apart)
        | inr miss ↦ k.1 i (rw miss at apart) ∙ other_code t i c db miss
      ],
    )
    go (err bad_request, db') k = tt
    go (err e, db') k = k

-- The rows that are read for an order are all there, and differ.
filter-absent :
    (p q : CodeVault → Bool) (rows : List CodeVault)
    → find p rows ≡ none
    → find p (filter q rows) ≡ none
filter-absent p q [] h = refl
filter-absent p q (x ∷ rows) h = ground (arith, filter-absent p q rows)

pub filter-IdsDiffer :
    (q : CodeVault → Bool) (rows : List CodeVault) → IdsDiffer rows → IdsDiffer (filter q rows)
filter-IdsDiffer q [] u = tt
filter-IdsDiffer q (x ∷ rows) u = elim (Bool-cases (q x)) [
  | inl hit ↦ rw hit (filter-absent (code_has_id x.id) q rows u.0, filter-IdsDiffer q rows u.1)
  | inr miss ↦ rw miss (filter-IdsDiffer q rows u.1)
]

abbrev IsKnown : ℕ → List CodeVault → CodeVault → Type 0
IsKnown t rows c = (find (code_has_id c.id) rows ≡ some c) × ((c.tenant_id == t) ≡ true)

below :
    (t : ℕ) (x : CodeVault) (rows sub : List CodeVault)
    → find (code_has_id x.id) rows ≡ none
    → All (IsKnown t rows) sub
    → All (IsKnown t (x ∷ rows)) sub
below t x rows [] apart h = tt
below t x rows (c ∷ sub) apart h =
    let differ : (c.id == x.id) ≡ false =
      find-find (code_has_id x.id) (code_has_id c.id) rows apart h.0.0 in
    let miss : (x.id == c.id) ≡ false = ground (arith, differ) in
    ((rw miss h.0.0, h.0.1), below t x rows sub apart h.1)

pub rows_of-IsKnown :
    (order_id t : ℕ) (rows : List CodeVault)
    → IdsDiffer rows
    → All (IsKnown t rows) (filter (code_of_tenant order_id t) rows)
rows_of-IsKnown order_id t [] u = tt
rows_of-IsKnown order_id t (x ∷ rows) u =
    let ih =
      below t x rows (filter (code_of_tenant order_id t) rows) u.0
        (rows_of-IsKnown order_id t rows u.1) in
    elim (Bool-cases (code_of_tenant order_id t x)) [
      | inl hit ↦ rw hit ((rw (==_refl x.id) refl, ground (arith, hit)), ih)
      | inr miss ↦ rw miss ih
    ]

pub any-find :
    {A : Type 0} (p : A → Bool) (rows : List A) {a : A} → find p rows ≡ some a → any p rows ≡ true
any-find p [] h = cc
any-find p (x ∷ rows) {a = a} h = elim (Bool-cases (p x)) [
  | inl hit ↦ ground arith
  | inr miss ↦ let later : find p rows ≡ some a = rw miss at h in rw miss (any-find p rows later)
]
