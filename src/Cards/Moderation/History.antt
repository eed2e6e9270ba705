-- ===== src/Cards/Moderation/History.antt =====
-- Any calls of the moderation, in any order.
use mark_solutions.Base.{
  ℕ, ◌≡◌, refl, ◌∙◌, sym, ◌⊎◌, inl, inr, Bool, true, false, ◌||◌, List, [], ◌∷◌, arith, any,
  any-append, Text,
}
use mark_solutions.Store.{CardStatus, AuditEntry, ProductCard, Db}
use mark_solutions.Cards.Moderation.{card_status_eq, submit_card, approve, reject}
use mark_solutions.Cards.Moderation.Trail.{
  Move, submitted_first, submitted_again, passed, sent_back, taken_up, approved, rejected, Trail,
  stay, step, Moves, Follows, Follows-refl, Follows-trans,
}
use mark_solutions.Cards.Moderation.Calls.{submit_card-Follows, approve-Follows, reject-Follows}

-- A call: by a participant who submits a card, or by an operator.
pub data Call : Type 0 where
  submit : ℕ → ℕ → ℕ → Call
  approval : ℕ → ℕ → Call
  rejection : ℕ → ℕ → List Text → Call

-- The database after a call, whether it returned or threw, and after several.
abbrev pub serve : (Text → Bool) → Call → Db → Db
serve verify (submit tenant id actor) db = (submit_card verify tenant id actor db).1
serve verify (approval id actor) db = (approve id actor db).1
serve verify (rejection id actor reasons) db = (reject id actor reasons db).1

abbrev pub serve_all : (Text → Bool) → List Call → Db → Db
serve_all verify [] db = db
serve_all verify (call ∷ rest) db = serve_all verify rest (serve verify call db)

pub serve-Follows :
    (verify : Text → Bool) (call : Call) (db : Db) → Follows db.cards (serve verify call db).cards
serve-Follows verify (submit tenant id actor) db = submit_card-Follows verify tenant id actor db
serve-Follows verify (approval id actor) db = approve-Follows id actor db
serve-Follows verify (rejection id actor reasons) db = reject-Follows id actor reasons db

-- Whatever calls of participants and operators come in, in any order and whether served or refused,
-- no card comes or goes, and what each call leaves in the audit of a card is exactly the path of its
-- status: the audit is only extended, by entries each of which is a move of the moderation that starts
-- where the one before has led, from the status before the calls to the status after them.
pub serve_all-Follows :
    (verify : Text → Bool) (calls : List Call) (db : Db)
    → Follows db.cards (serve_all verify calls db).cards
serve_all-Follows verify [] db = Follows-refl db.cards
serve_all-Follows verify (call ∷ rest) db =
    Follows-trans db.cards (serve verify call db).cards
      (serve_all verify rest (serve verify call db)).cards (serve-Follows verify call db)
      (serve_all-Follows verify rest (serve verify call db))

abbrev pub is_approval : AuditEntry → Bool
is_approval e = card_status_eq e.to CardStatus.approved

abbrev pub was_approved : ProductCard → Bool
was_approved c = any is_approval c.audit

-- The statuses that only an approved card may have.
abbrev pub is_past_review : CardStatus → Bool
is_past_review CardStatus.approved = true
is_past_review CardStatus.registering = true
is_past_review CardStatus.registered = true
is_past_review _ = false

Trail-approval :
    {s u : CardStatus} {es : List AuditEntry}
    → Trail s es u
    → (any is_approval es ≡ true) ⊎ (is_past_review u ≡ is_past_review s)
Trail-approval stay = inr refl
Trail-approval {u = u} (step {es = es} a m v r) = by_move u es v (Trail-approval r)
  where
    by_move :
        {s m : CardStatus} (u : CardStatus) (es : List AuditEntry)
        → Move s m
        → (any is_approval es ≡ true) ⊎ (is_past_review u ≡ is_past_review m)
        → ((card_status_eq m CardStatus.approved || any is_approval es) ≡ true)
          ⊎ (is_past_review u ≡ is_past_review s)
    by_move u es submitted_first t = t
    by_move u es submitted_again t = t
    by_move u es passed t = t
    by_move u es sent_back t = t
    by_move u es taken_up t = t
    by_move u es approved t = inl refl
    by_move u es rejected t = t

-- A card that is past its review was approved.
abbrev pub IsVetted : ProductCard → Type 0
IsVetted c = is_past_review c.status ≡ true → was_approved c ≡ true

pub Moves-was_approved :
    (c d : ProductCard) → Moves c d → was_approved c ≡ true → was_approved d ≡ true
Moves-was_approved c d m h = rw (m.grown, any-append is_approval c.audit m.entries, h) refl

pub Moves-IsVetted : (c d : ProductCard) → Moves c d → IsVetted c → IsVetted d
Moves-IsVetted c d m h past = elim (Trail-approval m.trail) [
  | inl new ↦ rw (m.grown, any-append is_approval c.audit m.entries, new) (ground arith)
  | inr same ↦ Moves-was_approved c d m (h (sym same ∙ past))
]
