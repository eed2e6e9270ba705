-- ===== src/Drafting/Rows.antt =====
-- Drafts with identifiers of their own, each with a commodity code that fits its status
-- (apps/api/src/catalog.controller.ts).
use mathlib.Core.Path.{subst}
use mark_solutions.Base.{
  ℕ, suc, ◌<◌, ◌≡◌, refl, sym, ap, inl, inr, Bool, true, false, ◌||◌, not, some, List, [], ◌∷◌,
  ◌++◌, arith, Bool-cases, if_has, any, find, update_where, edit, All, Text, is_empty,
}
use mark_solutions.Cards.Moderation.{is_in_list}
use mark_solutions.Drafting.{
  draft, dobor, out_of_scope, submitted, DraftAudit, DraftRow, DraftProposal, Drafts, proposal_of,
  create_draft, has_draft_id, is_owned,
}

-- A draft has a code of the list; one that waits has none of the list; one that is submitted has one of
-- the list, or none at all.
abbrev pub is_vetted : DraftProposal → Bool
is_vetted d = elim d.status [
  | draft ↦ is_in_list d.tnved
  | dobor ↦ not (is_in_list d.tnved)
  | out_of_scope ↦ true
  | submitted ↦ is_empty d.tnved || is_in_list d.tnved
]

abbrev pub IsVetted : DraftProposal → Type 0
IsVetted d = is_vetted d ≡ true

abbrev pub IdsDiffer : List DraftProposal → Type 0
IdsDiffer [] = Unit
IdsDiffer (d ∷ ds) = (any (has_draft_id d.id) ds ≡ false) × IdsDiffer ds

abbrev pub IsBelow : ℕ → DraftProposal → Type 0
IsBelow n d = d.id < n

-- The drafts have identifiers of their own, that were given out, and each is vetted.
abbrev pub Sound : Drafts → Type 0
Sound db = IdsDiffer db.rows × All (IsBelow db.next_id) db.rows × All IsVetted db.rows

All-snoc :
    (P : DraftProposal → Type 0) (ds : List DraftProposal) (d : DraftProposal)
    → All P ds
    → P d
    → All P (ds ++ (d ∷ []))
All-snoc P [] d all h = (h, tt)
All-snoc P (x ∷ ds) d all h = (all.0, All-snoc P ds d all.1 h)

All-weaken :
    (P Q : DraftProposal → Type 0) (ds : List DraftProposal)
    → ((d : DraftProposal) → P d → Q d)
    → All P ds
    → All Q ds
All-weaken P Q [] imp all = tt
All-weaken P Q (x ∷ ds) imp all = (imp x all.0, All-weaken P Q ds imp all.1)

any-snoc :
    (n : ℕ) (ds : List DraftProposal) (d : DraftProposal)
    → any (has_draft_id n) ds ≡ false
    → n < d.id
    → any (has_draft_id n) (ds ++ (d ∷ [])) ≡ false
any-snoc n [] d absent less = ground arith
any-snoc n (x ∷ ds) d absent less = ground (arith, any-snoc n ds d)

IdsDiffer-snoc :
    (ds : List DraftProposal) (d : DraftProposal)
    → IdsDiffer ds
    → All (IsBelow d.id) ds
    → IdsDiffer (ds ++ (d ∷ []))
IdsDiffer-snoc [] d differ below = (refl, tt)
IdsDiffer-snoc (x ∷ ds) d differ below =
    (any-snoc x.id ds d differ.0 below.0, IdsDiffer-snoc ds d differ.1 below.1)

proposal_of-IsVetted :
    (lower : Text → Text) (id tenant : ℕ) (row : DraftRow)
    → IsVetted (proposal_of lower id tenant row)
proposal_of-IsVetted lower id tenant row = elim (Bool-cases (is_in_list row.tnved)) [
  | inl listed ↦ rw (listed, listed) refl
  | inr other ↦ rw (other, other) refl
]

pub create_draft-Sound :
    (lower : Text → Text) (tenant : ℕ) (row : DraftRow) (db : Drafts)
    → Sound db
    → Sound (create_draft lower tenant row db)
unfolding create_draft
create_draft-Sound lower tenant row db (differ, below, vetted) =
    let new = proposal_of lower db.next_id tenant row in
    (
      IdsDiffer-snoc db.rows new differ below,
      All-snoc (IsBelow (suc db.next_id)) db.rows new
          (All-weaken (IsBelow db.next_id) (IsBelow (suc db.next_id)) db.rows
            (λ d h. omega (arith, h)) below)
          (omega arith),
      All-snoc IsVetted db.rows new vetted (proposal_of-IsVetted lower db.next_id tenant row),
    )

same_id : (x : DraftProposal) (id : ℕ) → has_draft_id id x ≡ true → x.id ≡ id
same_id x id h = ground arith

find-has_draft_id :
    (id tenant : ℕ) (ds : List DraftProposal) (d : DraftProposal)
    → find (is_owned id tenant) ds ≡ some d
    → any (has_draft_id id) ds ≡ true
find-has_draft_id id tenant [] d h = absurd (cc h)
find-has_draft_id id tenant (x ∷ ds) d h = elim (Bool-cases (is_owned id tenant x)) [
  | inl mine ↦ ground arith
  | inr other ↦ ground (arith, find-has_draft_id id tenant ds d (rw other at h))
]

module _ (id : ℕ) (f : DraftProposal → DraftProposal)
    (keeps : (d : DraftProposal) → (f d).id ≡ d.id) where
  edit-id : (d : DraftProposal) → (edit (has_draft_id id) f d).id ≡ d.id
  edit-id d =
      if_has (λ (x : DraftProposal). x.id ≡ d.id) (has_draft_id id d) _ _ (λ h. keeps d) λ h. refl

  any-update_where :
      (n : ℕ) (ds : List DraftProposal)
      → any (has_draft_id n) (update_where (has_draft_id id) f ds) ≡ any (has_draft_id n) ds
  any-update_where n [] = refl
  any-update_where n (x ∷ ds) = rw (edit-id x, any-update_where n ds) refl

  IdsDiffer-update_where :
      (ds : List DraftProposal) → IdsDiffer ds → IdsDiffer (update_where (has_draft_id id) f ds)
  IdsDiffer-update_where [] differ = tt
  IdsDiffer-update_where (x ∷ ds) differ =
      (rw (edit-id x, any-update_where x.id ds) differ.0, IdsDiffer-update_where ds differ.1)

  IsBelow-update_where :
      (n : ℕ) (ds : List DraftProposal)
      → All (IsBelow n) ds
      → All (IsBelow n) (update_where (has_draft_id id) f ds)
  IsBelow-update_where n [] below = tt
  IsBelow-update_where n (x ∷ ds) below =
      (rw (edit-id x) below.0, IsBelow-update_where n ds below.1)

  -- Where no row has the identifier, nothing changes.
  update_where-absent :
      (ds : List DraftProposal)
      → any (has_draft_id id) ds ≡ false
      → update_where (has_draft_id id) f ds ≡ ds
  update_where-absent [] h = refl
  update_where-absent (x ∷ ds) h =
      let other : has_draft_id id x ≡ false = ground arith in
      let rest : any (has_draft_id id) ds ≡ false = ground arith in
      rw other (ap (◌∷◌ x) (update_where-absent ds rest))

  -- The row that is found is the only one that changes.
  IsVetted-update_where :
      (tenant : ℕ) (ds : List DraftProposal) (d : DraftProposal)
      → find (is_owned id tenant) ds ≡ some d
      → IdsDiffer ds
      → All IsVetted ds
      → IsVetted (f d)
      → All IsVetted (update_where (has_draft_id id) f ds)
  IsVetted-update_where tenant [] d h differ vetted new = absurd (cc h)
  IsVetted-update_where tenant (x ∷ ds) d h differ vetted new =
      elim (Bool-cases (is_owned id tenant x)) [
        | inl mine ↦
            let found : some x ≡ some d = rw mine at h in
            let same : x ≡ d = cc found in
            let hit : has_draft_id id x ≡ true = ground arith in
            let absent = rw (same_id x id hit) at differ.0 in
            (
              rw hit (subst (λ y. IsVetted (f y)) (sym same) new),
              rw (update_where-absent ds absent) vetted.1,
            )
        | inr other ↦
            let found : find (is_owned id tenant) ds ≡ some d = rw other at h in
            elim (Bool-cases (has_draft_id id x)) [
              | inl hit ↦
                  absurd
                    (cc (rw (same_id x id hit) at differ.0, find-has_draft_id id tenant ds d found))
              | inr miss ↦
                  (rw miss vetted.0, IsVetted-update_where tenant ds d found differ.1 vetted.1 new)
            ]
      ]

  pub decide-Sound :
      (tenant : ℕ) (entry : DraftAudit) (db : Drafts) (d : DraftProposal)
      → find (is_owned id tenant) db.rows ≡ some d
      → Sound db
      → IsVetted (f d)
      → Sound (record db { rows = update_where (has_draft_id id) f db.rows })
  decide-Sound tenant entry db d found (differ, below, vetted) new = (
    IdsDiffer-update_where db.rows differ,
    IsBelow-update_where db.next_id db.rows below,
    IsVetted-update_where tenant db.rows d found differ vetted new,
  )
