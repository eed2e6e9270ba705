-- ===== src/Codes/Life.antt =====
-- The states that a code goes through by calls of `recordEvent`, and which of them are final.
use mark_solutions.Base.{
  ℕ, ◌≤◌, ◌≡◌, refl, sym, ap, ◌∙◌, inl, inr, true, false, Option, none, some, List, [], ◌∷◌, arith,
  Bool-cases, Option-cases, find, find_sound, find-update_where,
}
use mark_solutions.Store.{CodeStatus, CodeEventType, CodeVault, Db}
use mark_solutions.Codes.{
  target_status, allows, owned_code, code_has_id, set_status, write_through, with_event,
  record_event_on,
}

-- `TRANSITIONS`, as a relation on the statuses.
pub data Reaches : CodeStatus → CodeStatus → Type 0 where
  stay : {s : CodeStatus} → Reaches s s
  move : {s u : CodeStatus} (m : CodeStatus) → allows s (some m) ≡ true → Reaches m u → Reaches s u

-- How far along its life a code is.
abbrev pub stage : CodeStatus → ℕ
stage CodeStatus.active = 0
stage CodeStatus.printed = 1
stage CodeStatus.applied = 2
stage CodeStatus.aggregated = 2
stage CodeStatus.introduced = 3
stage CodeStatus.utilised = 4
stage CodeStatus.expired = 4
stage CodeStatus.withdrawn = 4
stage CodeStatus.written_off = 4

allows-stage : (s m : CodeStatus) → allows s (some m) ≡ true → stage s ≤ stage m
allows-stage CodeStatus.active m h = ground arith
allows-stage CodeStatus.printed m h = ground arith
allows-stage CodeStatus.applied m h = ground arith
allows-stage CodeStatus.aggregated m h = ground arith
allows-stage CodeStatus.introduced m h = ground arith
allows-stage CodeStatus.utilised m h = ground arith
allows-stage CodeStatus.expired m h = ground arith
allows-stage CodeStatus.withdrawn m h = ground arith
allows-stage CodeStatus.written_off m h = ground arith

final-allows : (s m : CodeStatus) → stage s ≡ 4 → allows s (some m) ≡ false
final-allows CodeStatus.active m h = ground arith
final-allows CodeStatus.printed m h = ground arith
final-allows CodeStatus.applied m h = ground arith
final-allows CodeStatus.aggregated m h = ground arith
final-allows CodeStatus.introduced m h = ground arith
final-allows CodeStatus.utilised m h = ground arith
final-allows CodeStatus.expired m h = ground arith
final-allows CodeStatus.withdrawn m h = ground arith
final-allows CodeStatus.written_off m h = ground arith

pub Reaches-stage : (s u : CodeStatus) → Reaches s u → stage s ≤ stage u
Reaches-stage s u stay = omega arith
Reaches-stage s u (move m h r) = omega (arith, allows-stage s m h, Reaches-stage m u r)

pub final-Reaches : (s u : CodeStatus) → Reaches s u → stage s ≡ 4 → u ≡ s
final-Reaches s u stay h = refl
final-Reaches s u (move m a r) h = absurd (ground (arith, final-allows s m h))

pub Reaches-trans : (s m u : CodeStatus) → Reaches s m → Reaches m u → Reaches s u
Reaches-trans s m u stay r = r
Reaches-trans s m u (move k h q) r = move k h (Reaches-trans k m u q r)

-- One call of `recordEvent`.
pub record Request : Type 0 where
  pub tenant : ℕ
  pub code_id : ℕ
  pub actor : ℕ
  pub event : Option CodeEventType

-- The database after a call, whether it returned or threw, and after several.
abbrev pub serve : Request → Db → Db
serve q db = (record_event_on q.tenant q.code_id q.actor q.event db).1

abbrev pub serve_all : List Request → Db → Db
serve_all [] db = db
serve_all (q ∷ rest) db = serve_all rest (serve q db)

abbrev pub code_of : ℕ → Db → Option CodeVault
code_of id db = find (code_has_id id) db.vault

-- No two codes share an identifier: it is the primary key.
abbrev pub IdsDiffer : List CodeVault → Type 0
IdsDiffer [] = Unit
IdsDiffer (c ∷ rows) = (find (code_has_id c.id) rows ≡ none) × IdsDiffer rows

-- What a call writes: nothing, or an event that the status of the code allows.
pub data Written (q : Request) (db : Db) : Db → Type 0 where
  nothing : Written q db db
  recorded :
      (e : CodeEventType) (c : CodeVault)
      → find (owned_code q.tenant q.code_id) db.vault ≡ some c
      → allows c.status (target_status e) ≡ true
      → Written q db (with_event q.tenant q.code_id q.actor e db)

record_event_on-Written :
    (q : Request) (e : Option CodeEventType) (db : Db)
    → Written q db (record_event_on q.tenant q.code_id q.actor e db).1
unfolding record_event_on
record_event_on-Written q none db = nothing
record_event_on-Written q (some e) db =
    elim (Option-cases (find (owned_code q.tenant q.code_id) db.vault)) [
      | inl absent ↦ rw absent nothing
      | inr (c, found) ↦ rw found (elim (Bool-cases (allows c.status (target_status e))) [
        | inl may ↦ rw may (recorded e c found may)
        | inr not_so ↦ rw not_so nothing
      ])
    ]

pub serve-Written : (q : Request) (db : Db) → Written q db (serve q db)
serve-Written q db = record_event_on-Written q q.event db

-- The code that is found for a tenant is the code under its identifier.
owned_code-code_of :
    (tenant id : ℕ) (rows : List CodeVault) {c : CodeVault}
    → IdsDiffer rows
    → find (owned_code tenant id) rows ≡ some c
    → find (code_has_id id) rows ≡ some c
owned_code-code_of tenant id [] u h = cc
owned_code-code_of tenant id (x ∷ rows) {c = c} u h = elim (Bool-cases (owned_code tenant id x)) [
  | inl hit ↦ ground arith
  | inr miss ↦
      let later : find (owned_code tenant id) rows ≡ some c = rw miss at h in
      let found = owned_code-code_of tenant id rows u.1 later in ground (arith, found, u.0, later)
]

write_through-find :
    (i id : ℕ) (target : Option CodeStatus) (rows : List CodeVault)
    → find (code_has_id i) rows ≡ none
    → find (code_has_id i) (write_through id target rows) ≡ none
write_through-find i id none rows h = h
write_through-find i id (some target) rows h =
    find-update_where (code_has_id i) (code_has_id id) (set_status target) rows (λ x. refl) ∙ rw h

pub write_through-IdsDiffer :
    (id : ℕ) (target : Option CodeStatus) (rows : List CodeVault)
    → IdsDiffer rows
    → IdsDiffer (write_through id target rows)
write_through-IdsDiffer id none rows u = u
write_through-IdsDiffer id (some target) [] u = tt
write_through-IdsDiffer id (some target) (x ∷ rows) u =
    let rest = write_through-find x.id id (some target) rows u.0 in
    (ground (arith, rest), write_through-IdsDiffer id (some target) rows u.1)

-- Where a code stands after some calls: its status has moved along `TRANSITIONS`, and nothing else
-- of its row has changed.
abbrev pub Evolves : ℕ → CodeVault → Db → Type 0
Evolves i c db = (s : CodeStatus) × (code_of i db ≡ some (set_status s c)) × Reaches c.status s

written-Evolves :
    (i tenant id : ℕ) (target : Option CodeStatus) (rows : List CodeVault) (c k : CodeVault)
    → IdsDiffer rows
    → find (code_has_id i) rows ≡ some c
    → find (owned_code tenant id) rows ≡ some k
    → allows k.status target ≡ true
    → (s : CodeStatus) × (find (code_has_id i) (write_through id target rows)
        ≡ some (set_status s c))
      × Reaches c.status s
written-Evolves i tenant id none rows c k u here there may = (c.status, here, stay)
written-Evolves i tenant id (some target) rows c k u here there may =
    let after =
      find-update_where (code_has_id i) (code_has_id id) (set_status target) rows (λ x. refl) in
    elim (Bool-cases (code_has_id id c)) [
      | inl hit ↦
          let own = owned_code-code_of tenant id rows u there in
          let same : i ≡ id = ground (arith, find_sound (code_has_id i) rows here, hit) in
          let equal : ◌≡◌ {A = Option CodeVault} (some c) (some k) = sym here ∙ rw (same) own in
          let status : c.status ≡ k.status = ground (arith, equal) in
          (target, after ∙ rw (here, hit), move target (rw (status) may) stay)
      | inr miss ↦ (c.status, after ∙ rw (here, miss), stay)
    ]

serve-IdsDiffer : (q : Request) (db : Db) → IdsDiffer db.vault → IdsDiffer (serve q db).vault
serve-IdsDiffer q db u = by_case (serve q db) (serve-Written q db)
  where
    by_case : (db' : Db) → Written q db db' → IdsDiffer db'.vault
    by_case db' nothing = u
    by_case db' (recorded e k found may) =
        write_through-IdsDiffer q.code_id (target_status e) db.vault u

serve-Evolves :
    (i : ℕ) (q : Request) (db : Db) (c : CodeVault)
    → IdsDiffer db.vault
    → code_of i db ≡ some c
    → Evolves i c (serve q db)
serve-Evolves i q db c u here = by_case (serve q db) (serve-Written q db)
  where
    by_case : (db' : Db) → Written q db db' → Evolves i c db'
    by_case db' nothing = (c.status, here, stay)
    by_case db' (recorded e k found may) =
        written-Evolves i q.tenant q.code_id (target_status e) db.vault c k u here found may

-- Whatever calls of `recordEvent` come in, of any tenants, in any order and whether served or refused,
-- the status of a code moves along `TRANSITIONS` only, and the calls change nothing else of its row. The
-- writes past `recordEvent` (the settlement of a report, the expiry at the deadline, the printing of a
-- label) are not among them.
pub serve_all-Evolves :
    (i : ℕ) (requests : List Request) (db : Db) (c : CodeVault)
    → IdsDiffer db.vault
    → code_of i db ≡ some c
    → Evolves i c (serve_all requests db)
serve_all-Evolves i [] db c u here = (c.status, here, stay)
serve_all-Evolves i (q ∷ rest) db c u here =
    let (m, now, r) = serve-Evolves i q db c u here in
    let (s, later, r') =
      serve_all-Evolves i rest (serve q db) (set_status m c) (serve-IdsDiffer q db u) now in
    (s, later, Reaches-trans c.status m s r r')

-- A code that is utilised, expired, withdrawn or written off keeps its row through any calls of
-- `recordEvent`.
pub final_code-serve_all :
    (i : ℕ) (requests : List Request) (db : Db) (c : CodeVault)
    → IdsDiffer db.vault
    → code_of i db ≡ some c
    → stage c.status ≡ 4
    → code_of i (serve_all requests db) ≡ some c
final_code-serve_all i requests db c u here final =
    let (s, later, r) = serve_all-Evolves i requests db c u here in
    later ∙ ap (λ x. some (set_status x c)) (final-Reaches c.status s r final)

-- No calls of `recordEvent` bring a code back to an earlier stage: the status that it has after them, in a row
-- that is otherwise the same, has a stage at least as high.
pub stage-serve_all :
    (i : ℕ) (requests : List Request) (db : Db) (c : CodeVault)
    → IdsDiffer db.vault
    → code_of i db ≡ some c
    → (s : CodeStatus) × (code_of i (serve_all requests db) ≡ some (set_status s c))
      × (stage c.status ≤ stage s)
stage-serve_all i requests db c u here =
    let (s, later, r) = serve_all-Evolves i requests db c u here in
    (s, later, Reaches-stage c.status s r)
