-- ===== src/Codes/Journal.antt =====
-- The journal of events against the statuses that are written through.
use mark_solutions.Base.{
  ℕ, ◌≡◌, refl, sym, ◌∙◌, inl, inr, Option, none, some, List, [], ◌∷◌, ◌++◌, foldl, ◌==◌,
  if◌then◌else◌, Bool-cases, All, edit,
}
use mark_solutions.Store.{CodeStatus, CodeVault, CodeEvent, Db}
use mark_solutions.Codes.{target_status, code_has_id, set_status, write_through}
use mark_solutions.Codes.Life.{Request, serve, serve_all, Written, nothing, recorded, serve-Written}

abbrev pub to_status : Option CodeStatus → CodeStatus → CodeStatus
to_status none status = status
to_status (some target) status = target

abbrev pub replay_step : ℕ → CodeStatus → CodeEvent → CodeStatus
replay_step id status e =
    if id == e.code_id then to_status (target_status e.event) status else status

-- The status that the journal tells of a code, which starts as `ACTIVE`.
abbrev pub replay : ℕ → List CodeEvent → CodeStatus
replay id events = foldl (replay_step id) CodeStatus.active events

-- The status of every row is the one that the journal tells.
abbrev pub IsJournalled : Db → Type 0
IsJournalled db = All (λ c. c.status ≡ replay c.id db.events) db.vault

foldl-snoc :
    (id : ℕ) (start : CodeStatus) (events : List CodeEvent) (e : CodeEvent)
    → foldl (replay_step id) start (events ++ (e ∷ []))
      ≡ replay_step id (foldl (replay_step id) start events) e
foldl-snoc id start [] e = refl
foldl-snoc id start (x ∷ events) e = foldl-snoc id (replay_step id start x) events e

unmoved :
    (id : ℕ) (status : CodeStatus) (e : CodeEvent)
    → target_status e.event ≡ none
    → replay_step id status e ≡ status
unmoved id status e t = elim (Bool-cases (id == e.code_id)) [ inl h ↦ rw (h, t) | inr h ↦ rw h ]

moved_row :
    (events : List CodeEvent) (e : CodeEvent) (target : CodeStatus) (c : CodeVault)
    → target_status e.event ≡ some target
    → c.status ≡ replay c.id events
    → let c' = edit (code_has_id e.code_id) (set_status target) c in
      c'.status ≡ replay c'.id (events ++ (e ∷ []))
moved_row events e target c t h = elim (Bool-cases (c.id == e.code_id)) [
  | inl hit ↦ rw hit (sym (foldl-snoc c.id CodeStatus.active events e ∙ rw (hit, t)))
  | inr miss ↦ rw miss (h ∙ sym (foldl-snoc c.id CodeStatus.active events e ∙ rw miss))
]

written-IsJournalled :
    (events : List CodeEvent) (e : CodeEvent) (rows : List CodeVault)
    → All (λ c. c.status ≡ replay c.id events) rows
    → All
        (λ c. c.status ≡ replay c.id (events ++ (e ∷ [])))
        (write_through e.code_id (target_status e.event) rows)
written-IsJournalled events e rows h = by_target (target_status e.event) refl rows h
  where
    by_target :
        (target : Option CodeStatus)
        → target_status e.event ≡ target
        → (rows : List CodeVault) → All (λ c. c.status ≡ replay c.id events) rows
        → All
            (λ c. c.status ≡ replay c.id (events ++ (e ∷ [])))
            (write_through e.code_id target rows)
    by_target none t [] h = tt
    by_target none t (c ∷ rows) h = (
      h.0
          ∙ sym
              (foldl-snoc c.id CodeStatus.active events e ∙ unmoved c.id (replay c.id events) e t),
      by_target none t rows h.1,
    )
    by_target (some target) t [] h = tt
    by_target (some target) t (c ∷ rows) h =
        (moved_row events e target c t h.0, by_target (some target) t rows h.1)

serve-IsJournalled : (q : Request) (db : Db) → IsJournalled db → IsJournalled (serve q db)
serve-IsJournalled q db h = by_case (serve q db) (serve-Written q db)
  where
    by_case : (db' : Db) → Written q db db' → IsJournalled db'
    by_case db' nothing = h
    by_case db' (recorded k c found may) = written-IsJournalled db.events _ db.vault h

-- Where the status of every code is the one that the journal tells, it still is after any calls of
-- `recordEvent`, served or refused. The settlement of a report and the expiry at the deadline, which
-- write a status without an event, are not among them.
pub serve_all-IsJournalled :
    (requests : List Request) (db : Db) → IsJournalled db → IsJournalled (serve_all requests db)
serve_all-IsJournalled [] db h = h
serve_all-IsJournalled (q ∷ rest) db h =
    serve_all-IsJournalled rest (serve q db) (serve-IsJournalled q db h)
