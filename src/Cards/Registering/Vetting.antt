-- ===== src/Cards/Registering/Vetting.antt =====
-- What keeps it true that only approved cards are past their review: the calls of the moderation, and
-- the updates of a row of the outbox or of a card.
pub mod Ticks
use mathlib.Core.Path.{subst}
use mathlib.Core.Option.{some-injective}
use mark_solutions.Base.{
  ℕ, ◌≡◌, refl, ◌∙◌, ap, sym, ◌⊎◌, inl, inr, Bool, true, false, ◌&&◌, Option, none, some, List, [],
  ◌∷◌, ◌++◌, arith, ◌-◌, ltb, ◌==◌, ==_iff, Bool-cases, Option-cases, All, All-append, any, edit,
  find, find_sound, find-All, find-update_where, take, update_where, Text, filter,
}
use mark_solutions.Store.{
  CardStatus, ProductCard, NktJob, OutboxStatus, Outbox, Db, Result, ok, err, then_gives,
}
use mark_solutions.Orders.{is_pending}
use mark_solutions.Emission.{has_row_id, set_row_status, update_row, pending_row}
use mark_solutions.Cards.{has_card_id, put_status, update_card}
use mark_solutions.Cards.Moderation.{card_status_eq, nkt_message}
use mark_solutions.Cards.Moderation.Calls.{found_at_key}
use mark_solutions.Cards.Moderation.History.{
  Call, serve, serve-Follows, is_approval, was_approved, is_past_review, IsVetted,
  Moves-was_approved, Moves-IsVetted,
}
use mark_solutions.Cards.Registering.{
  NktStatus, Nkt, registered, rejected, processing, is_unverified, start_job, register, refuse,
  take_status, start, ask, advance, process_job, process_nkt, process_each, is_waiting, poll_nkt,
}
use mark_solutions.Cards.Registering.Messages.{Adds, serve-Adds}

-- A message to register a card is about a card that was approved.
abbrev pub JobIsVetted : List ProductCard → Option NktJob → Type 0
JobIsVetted cards none = Unit
JobIsVetted cards (some job) =
    (c : ProductCard) × (find (has_card_id job.card_id) cards ≡ some c) × (was_approved c ≡ true)

abbrev pub RowIsVetted : List ProductCard → Outbox → Type 0
RowIsVetted cards row = JobIsVetted cards row.job

pub record Vetted (db : Db) : Type 0 where
  pub cards : (i : ℕ) (c : ProductCard) → find (has_card_id i) db.cards ≡ some c → IsVetted c
  pub rows : All (RowIsVetted db.cards) db.outbox

All-map {ℓ κ} :
    {A : Type ℓ} (P Q : A → Type κ) (xs : List A) → ((x : A) → P x → Q x) → All P xs → All Q xs
All-map P Q [] f h = tt
All-map P Q (x ∷ xs) f h = (f x h.0, All-map P Q xs f h.1)

All-update_where {ℓ κ} :
    {A : Type ℓ} (P : A → Type κ) (p : A → Bool) (f : A → A) (xs : List A)
    → ((x : A) → P x → P (f x))
    → All P xs
    → All P (update_where p f xs)
All-update_where P p f [] keep h = tt
All-update_where P p f (x ∷ xs) keep h = (
  elim (Bool-cases (p x)) [ inl hit ↦ rw hit (keep x h.0) | inr miss ↦ rw miss h.0 ],
  All-update_where P p f xs keep h.1,
)

-- Cards that only gain entries keep the messages about them vetted.
abbrev Keeps : List ProductCard → List ProductCard → Type 0
Keeps before after =
    (i : ℕ) (c : ProductCard)
    → find (has_card_id i) before ≡ some c
    → was_approved c ≡ true
    → (d : ProductCard) × (find (has_card_id i) after ≡ some d) × (was_approved d ≡ true)

JobIsVetted-Keeps :
    (before after : List ProductCard) (job : Option NktJob)
    → Keeps before after
    → JobIsVetted before job
    → JobIsVetted after job
JobIsVetted-Keeps before after none keep h = tt
JobIsVetted-Keeps before after (some job) keep (c, found, was) = keep job.card_id c found was

rows-Keeps :
    (before after : List ProductCard) (rows : List Outbox)
    → Keeps before after
    → All (RowIsVetted before) rows
    → All (RowIsVetted after) rows
rows-Keeps before after rows keep =
    All-map (RowIsVetted before) (RowIsVetted after) rows
      (λ row. JobIsVetted-Keeps before after row.job keep)

-- Calls of the moderation.
pub serve-Vetted :
    (verify : Text → Bool) (call : Call) (db : Db) → Vetted db → Vetted (serve verify call db)
serve-Vetted verify call db v = record {
  cards = vetted_cards;
  rows = vetted_rows (serve-Adds verify call db);
}
  where
    after : Db
    after = serve verify call db

    vetted_cards :
        (i : ℕ) (d : ProductCard) → find (has_card_id i) after.cards ≡ some d → IsVetted d
    vetted_cards i d h = elim (Option-cases (find (has_card_id i) db.cards)) [
      | inl absent ↦ cc ((serve-Follows verify call db).1 i absent)
      | inr (c, found) ↦
          let (d', there, m) = (serve-Follows verify call db).0 i c found in
          let e : d' ≡ d = some-injective _ _ (sym there ∙ h) in
          subst IsVetted e (Moves-IsVetted c d' m (v.cards i c found))
    ]

    keep : Keeps db.cards after.cards
    keep i c found was =
        let (d, there, m) = (serve-Follows verify call db).0 i c found in
        (d, there, Moves-was_approved c d m was)

    vetted_rows : Adds db after → All (RowIsVetted after.cards) after.outbox
    vetted_rows (inl same) = rw same (rows-Keeps db.cards after.cards db.outbox keep v.rows)
    vetted_rows (inr (c, d, added, there, was)) = rw added (
        All-append (RowIsVetted after.cards) db.outbox
          (record (nkt_message c) { id = db.next_id } ∷ [])
          (rows-Keeps db.cards after.cards db.outbox keep v.rows) ((d, there, was), tt))

module _ (db : Db) (v : Vetted db) where
  pub update_row-Vetted :
      (id : ℕ) (f : Outbox → Outbox)
      → ((row : Outbox) → RowIsVetted db.cards row → RowIsVetted db.cards (f row))
      → Vetted (update_row id f db).1
  update_row-Vetted id f keep = record {
    cards = v.cards;
    rows = All-update_where (RowIsVetted db.cards) (has_row_id id) f db.outbox keep v.rows;
  }

  pub update_card-Vetted :
      (id : ℕ) (f : ProductCard → ProductCard)
      → ((c : ProductCard) → (f c).id ≡ c.id)
      → ((c : ProductCard) → was_approved c ≡ true → was_approved (f c) ≡ true)
      → ((c : ProductCard) → find (has_card_id id) db.cards ≡ some c → IsVetted (f c))
      → Vetted (update_card id f db).1
  update_card-Vetted id f key keep vetted = record {
    cards = λ i d h. by_row i d h (Option-cases (find (has_card_id i) db.cards));
    rows = rows-Keeps db.cards after db.outbox kept v.rows;
  }
    where
      after : List ProductCard
      after = update_where (has_card_id id) f db.cards

      edited :
          (i : ℕ) (c : ProductCard)
          → find (has_card_id i) db.cards ≡ some c
          → find (has_card_id i) after ≡ some (edit (has_card_id id) f c)
      edited i c found =
          find-update_where (has_card_id i) (has_card_id id) f db.cards
            (λ x. ap (λ k. k == i) (key x))
          ∙ rw found refl

      gone : (i : ℕ) → find (has_card_id i) db.cards ≡ none → find (has_card_id i) after ≡ none
      gone i absent =
          find-update_where (has_card_id i) (has_card_id id) f db.cards
            (λ x. ap (λ k. k == i) (key x))
          ∙ rw absent refl

      here :
          (i : ℕ) (c : ProductCard)
          → find (has_card_id i) db.cards ≡ some c
          → has_card_id id c ≡ true
          → find (has_card_id id) db.cards ≡ some c
      here i c found hit =
          let e : i ≡ id = ground (arith, find_sound (has_card_id i) db.cards found, hit) in
          subst (λ k. find (has_card_id k) db.cards ≡ some c) e found

      edit_vetted :
          (i : ℕ) (c : ProductCard)
          → find (has_card_id i) db.cards ≡ some c
          → IsVetted (edit (has_card_id id) f c)
      edit_vetted i c found = elim (Bool-cases (has_card_id id c)) [
        | inl hit ↦ rw hit (vetted c (here i c found hit))
        | inr miss ↦ rw miss (v.cards i c found)
      ]

      kept : Keeps db.cards after
      kept i c found was = (
        edit (has_card_id id) f c,
        edited i c found,
        elim (Bool-cases (has_card_id id c)) [
          | inl hit ↦ rw hit (keep c was)
          | inr miss ↦ rw miss was
        ],
      )

      by_row :
          (i : ℕ) (d : ProductCard)
          → find (has_card_id i) after ≡ some d
          → (find (has_card_id i) db.cards ≡ none)
            ⊎ ((c : ProductCard) × (find (has_card_id i) db.cards ≡ some c))
          → IsVetted d
      by_row i d h (inl absent) = cc (gone i absent)
      by_row i d h (inr (c, found)) =
          subst IsVetted (some-injective _ _ (sym (edited i c found) ∙ h)) (edit_vetted i c found)

-- The registration.
