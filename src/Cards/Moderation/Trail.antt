-- ===== src/Cards/Moderation/Trail.antt =====
-- The audit of a card is the path that its status has taken.
use mathlib.Core.List.{append-nil, append_assoc}
use mathlib.Core.Option.{some-injective}
use mark_solutions.Base.{
  ℕ, ◌≡◌, refl, ◌∙◌, ap, sym, inl, inr, none, some, List, [], ◌∷◌, ◌++◌, arith, ◌==◌, Bool-cases,
  find, find_sound, update_where, edit, edit-edit, find-update_where, Text,
}
use mark_solutions.Store.{CardStatus, AuditEntry, ProductCard}
use mark_solutions.Cards.{has_card_id, put_status, add_audit}
use mark_solutions.Cards.Moderation.{entry, send_back, accept}

-- The moves of a card between the statuses of its moderation.
pub data Move : CardStatus → CardStatus → Type 0 where
  submitted_first : Move CardStatus.draft CardStatus.validating
  submitted_again : Move CardStatus.needs_correction CardStatus.validating
  passed : Move CardStatus.validating CardStatus.submitted
  sent_back : Move CardStatus.validating CardStatus.needs_correction
  taken_up : Move CardStatus.submitted CardStatus.in_review
  approved : Move CardStatus.in_review CardStatus.approved
  rejected : Move CardStatus.in_review CardStatus.needs_correction

-- Entries that lead from one status to another, each by a move from where the one before has led.
pub data Trail : CardStatus → List AuditEntry → CardStatus → Type 0 where
  stay : {s : CardStatus} → Trail s [] s
  step :
      {s u : CardStatus} {es : List AuditEntry} (actor : ℕ) (m : CardStatus)
      → Move s m
      → Trail m es u
      → Trail s (entry actor s m ∷ es) u

Trail-append :
    {s m u : CardStatus} {es fs : List AuditEntry}
    → Trail s es m
    → Trail m fs u
    → Trail s (es ++ fs) u
Trail-append stay t = t
Trail-append (step a m v r) t = step a m v (Trail-append r t)

Trail-one :
    (actor : ℕ) (from to : CardStatus) {s u : CardStatus}
    → s ≡ from
    → u ≡ to
    → Move from to
    → Trail s (entry actor from to ∷ []) u
Trail-one actor from to p q m = rw (p, q) (step actor to m stay)

-- What a call may do to a card: its status moves, and its audit grows by just these moves; its owner
-- and its attributes stay.
pub record Moves (c d : ProductCard) : Type 0 where
  pub entries : List AuditEntry
  pub grown : d.audit ≡ c.audit ++ entries
  pub trail : Trail c.status entries d.status
  pub owner : d.tenant_id ≡ c.tenant_id
  pub attributes : d.attributes ≡ c.attributes

-- The table of cards after a call, beside the one before it: each card is still there and has moved,
-- and there are no others.
abbrev pub Follows : List ProductCard → List ProductCard → Type 0
Follows before after =
    ((i : ℕ) (c : ProductCard)
      → find (has_card_id i) before ≡ some c
      → (d : ProductCard) × (find (has_card_id i) after ≡ some d) × Moves c d)
    × ((i : ℕ) → find (has_card_id i) before ≡ none → find (has_card_id i) after ≡ none)

Moves-refl : (c : ProductCard) → Moves c c
Moves-refl c = record {
  entries = [];
  grown = sym (append-nil c.audit);
  trail = stay;
  owner = refl;
  attributes = refl;
}

Moves-trans : (c d e : ProductCard) → Moves c d → Moves d e → Moves c e
Moves-trans c d e f g = record {
  entries = f.entries ++ g.entries;
  grown = cc (f.grown, g.grown, append_assoc c.audit f.entries g.entries);
  trail = Trail-append f.trail g.trail;
  owner = g.owner ∙ f.owner;
  attributes = g.attributes ∙ f.attributes;
}

pub Follows-refl : (rows : List ProductCard) → Follows rows rows
Follows-refl rows = (λ i c here. (c, here, Moves-refl c), λ i absent. absent)

pub Follows-trans : (a b c : List ProductCard) → Follows a b → Follows b c → Follows a c
Follows-trans a b c f g = (
  λ i x here.
      let (y, there, m) = f.0 i x here in
      let (z, last, n) = g.0 i y there in (z, last, Moves-trans x y z m n),
  λ i absent. g.1 i (f.1 i absent),
)

-- What `update` with a new status and `recordTransition` write together.
abbrev pub written :
    ℕ → AuditEntry → (ProductCard → ProductCard) → List ProductCard → List ProductCard
written id e f rows =
    update_where (has_card_id id) (add_audit e) (update_where (has_card_id id) f rows)

-- An update that moves the status, and keeps the key, the owner and the audit.
pub record Sets (f : ProductCard → ProductCard) (to : CardStatus) : Type 0 where
  pub key : (c : ProductCard) → (f c).id ≡ c.id
  pub kept : (c : ProductCard) → (f c).audit ≡ c.audit
  pub tenant : (c : ProductCard) → (f c).tenant_id ≡ c.tenant_id
  pub attributes : (c : ProductCard) → (f c).attributes ≡ c.attributes
  pub moved : (c : ProductCard) → (f c).status ≡ to

pub put_status-Sets : (to : CardStatus) → Sets (put_status to) to
put_status-Sets to = record {
  key = λ c. refl;
  kept = λ c. refl;
  tenant = λ c. refl;
  attributes = λ c. refl;
  moved = λ c. refl;
}

pub send_back-Sets : (es : List Text) → Sets (send_back es) CardStatus.needs_correction
send_back-Sets es = record {
  key = λ c. refl;
  kept = λ c. refl;
  tenant = λ c. refl;
  attributes = λ c. refl;
  moved = λ c. refl;
}

pub accept-Sets : Sets accept CardStatus.submitted
accept-Sets = record {
  key = λ c. refl;
  kept = λ c. refl;
  tenant = λ c. refl;
  attributes = λ c. refl;
  moved = λ c. refl;
}

module _ (id actor : ℕ) (from to : CardStatus) (f : ProductCard → ProductCard)
    (sets : Sets f to) where
  pub written-find :
      (i : ℕ) (rows : List ProductCard) (c : ProductCard)
      → find (has_card_id i) rows ≡ some c
      → find (has_card_id i) (written id (entry actor from to) f rows)
        ≡ some (edit (has_card_id id) (λ x. add_audit (entry actor from to) (f x)) c)
  written-find i rows c here =
      find-update_where (has_card_id i) (has_card_id id) (add_audit (entry actor from to))
        (update_where (has_card_id id) f rows) (λ x. refl)
      ∙ rw
          (
            find-update_where (has_card_id i) (has_card_id id) f rows
                (λ x. ap (λ k. k == i) (sets.key x)),
            here,
          )
          (ap some (
            edit-edit (has_card_id id) f (add_audit (entry actor from to)) c
              (ap (λ k. k == id) (sets.key c))))

  Moves-written :
      (c : ProductCard)
      → c.status ≡ from
      → Move from to
      → Moves c (add_audit (entry actor from to) (f c))
  Moves-written c was m = record {
    entries = entry actor from to ∷ [];
    grown = rw (sets.kept c) refl;
    trail = Trail-one actor from to was (sets.moved c) m;
    owner = sets.tenant c;
    attributes = sets.attributes c;
  }

  written-absent :
      (i : ℕ) (rows : List ProductCard)
      → find (has_card_id i) rows ≡ none
      → find (has_card_id i) (written id (entry actor from to) f rows) ≡ none
  written-absent i rows absent =
      find-update_where (has_card_id i) (has_card_id id) (add_audit (entry actor from to))
        (update_where (has_card_id id) f rows) (λ x. refl)
      ∙ rw
          (
            find-update_where (has_card_id i) (has_card_id id) f rows
                (λ x. ap (λ k. k == i) (sets.key x)),
            absent,
          )
          refl

  Moves-found :
      (rows : List ProductCard)
      → ((c : ProductCard) → find (has_card_id id) rows ≡ some c → c.status ≡ from)
      → Move from to
      → (i : ℕ) (c : ProductCard) → find (has_card_id i) rows ≡ some c
      → (d : ProductCard) × (find (has_card_id i) (written id (entry actor from to) f rows)
          ≡ some d)
        × Moves c d
  Moves-found rows was m i c here = elim (Bool-cases (has_card_id id c)) [
    | inl hit ↦
        let at : i ≡ id = ground (arith, find_sound (has_card_id i) rows here, hit) in
        (
          add_audit (entry actor from to) (f c),
          rw (written-find i rows c here, hit) refl,
          Moves-written c (was c (rw at at here)) m,
        )
    | inr miss ↦ (c, rw (written-find i rows c here, miss) refl, Moves-refl c)
  ]

  pub written-Follows :
      (rows : List ProductCard)
      → ((c : ProductCard) → find (has_card_id id) rows ≡ some c → c.status ≡ from)
      → Move from to
      → Follows rows (written id (entry actor from to) f rows)
  written-Follows rows was m = (Moves-found rows was m, λ i. written-absent i rows)

  -- The card under the key has the new status.
  pub written-status :
      (rows : List ProductCard) (c d : ProductCard)
      → find (has_card_id id) rows ≡ some c
      → find (has_card_id id) (written id (entry actor from to) f rows) ≡ some d
      → d.status ≡ to
  written-status rows c d here h =
      let hit = find_sound (has_card_id id) rows here in
      let e : some (add_audit (entry actor from to) (f c)) ≡ some d =
        sym (written-find id rows c here ∙ rw hit refl) ∙ h in
      rw (← some-injective _ _ e) (sets.moved c)
