-- ===== src/Drafting/Vetting.antt =====
-- What a draft's status says of its commodity code (apps/api/src/catalog.controller.ts).
use mark_solutions.Base.{
  ℕ, ◌≡◌, refl, Bool, true, false, ◌&&◌, ◌||◌, not, Option, none, some, List, [], ◌∷◌, arith,
  if_has, find, Text, is_empty,
}
use mark_solutions.Cards.Moderation.{is_in_list}
use mark_solutions.Drafting.{
  DraftStatus, fixed_tnved, left_scope, submission, out_of_scope, submitted, DraftAudit, DraftRow,
  DraftProposal, Drafts, create_draft, is_owned, append_audit, put_tnved, put_status, fix_found,
  fix_tnved, leave_scope, mark_out_of_scope, is_out_of_scope, submit_found, submit_draft,
}
use mark_solutions.Drafting.Rows.{Sound, create_draft-Sound, decide-Sound}

leave_scope-Sound :
    (tenant id actor : ℕ) (o : Option DraftProposal) (db : Drafts)
    → find (is_owned id tenant) db.rows ≡ o
    → Sound db
    → Sound (leave_scope id actor o db).1
leave_scope-Sound tenant id actor none db found sound = sound
leave_scope-Sound tenant id actor (some d) db found sound =
    let entry : DraftAudit = record { actor = actor; action = left_scope } in
    decide-Sound id (λ d. append_audit entry (put_status out_of_scope d)) (λ d. refl) tenant entry
      db d found sound refl

fix_found-Sound :
    (tenant id actor : ℕ) (tnved : Text) (o : Option DraftProposal) (db : Drafts)
    → is_in_list tnved ≡ true
    → find (is_owned id tenant) db.rows ≡ o
    → Sound db
    → Sound (fix_found id actor tnved o db).1
fix_found-Sound tenant id actor tnved none db listed found sound = sound
fix_found-Sound tenant id actor tnved (some d) db listed found sound =
    let entry : DraftAudit = record { actor = actor; action = fixed_tnved tnved } in
    decide-Sound id (λ d. append_audit entry (put_tnved tnved d)) (λ d. refl) tenant entry db d
      found sound listed

submittable : (t listed : Bool) → (not t && not listed) ≡ false → (t || listed) ≡ true
submittable t listed h = ground arith

submit_found-Sound :
    (tenant id actor : ℕ) (o : Option DraftProposal) (db : Drafts)
    → find (is_owned id tenant) db.rows ≡ o
    → Sound db
    → Sound (submit_found id actor o db).1
submit_found-Sound tenant id actor none db found sound = sound
submit_found-Sound tenant id actor (some d) db found sound =
    let entry : DraftAudit = record { actor = actor; action = submission } in
    let HasSound = λ (x : Option DraftStatus × Drafts). Sound x.1 in
    if_has HasSound (is_out_of_scope d.status) _ _ (λ out. sound)
      λ within.
        if_has HasSound (not (is_empty d.tnved) && not (is_in_list d.tnved)) _ _ (λ bad. sound)
          λ fine.
            decide-Sound id (λ d. append_audit entry (put_status submitted d)) (λ d. refl) tenant
              entry db d found sound (submittable (is_empty d.tnved) (is_in_list d.tnved) fine)

-- What a client asks of the drafts.
pub data DraftCall : Type 0 where
  import_row : ℕ → DraftRow → DraftCall
  fix : ℕ → ℕ → ℕ → Text → DraftCall
  leave : ℕ → ℕ → ℕ → DraftCall
  submit : ℕ → ℕ → ℕ → DraftCall

abbrev pub serve : (Text → Text) → DraftCall → Drafts → Drafts
serve lower (import_row tenant row) db = create_draft lower tenant row db
serve lower (fix tenant id actor tnved) db = (fix_tnved tenant id actor tnved db).1
serve lower (leave tenant id actor) db = (mark_out_of_scope tenant id actor db).1
serve lower (submit tenant id actor) db = (submit_draft tenant id actor db).1

abbrev pub serve_all : (Text → Text) → List DraftCall → Drafts → Drafts
serve_all lower [] db = db
serve_all lower (q ∷ qs) db = serve_all lower qs (serve lower q db)

serve-Sound :
    (lower : Text → Text) (q : DraftCall) (db : Drafts) → Sound db → Sound (serve lower q db)
unfolding fix_tnved mark_out_of_scope submit_draft
serve-Sound lower (import_row tenant row) db sound = create_draft-Sound lower tenant row db sound
serve-Sound lower (fix tenant id actor tnved) db sound =
    if_has (λ (x : Option DraftStatus × Drafts). Sound x.1) (not (is_in_list tnved)) _ _
      (λ bad. sound)
      λ fine.
        fix_found-Sound tenant id actor tnved (find (is_owned id tenant) db.rows) db (ground arith)
          refl sound
serve-Sound lower (leave tenant id actor) db sound =
    leave_scope-Sound tenant id actor (find (is_owned id tenant) db.rows) db refl sound
serve-Sound lower (submit tenant id actor) db sound =
    submit_found-Sound tenant id actor (find (is_owned id tenant) db.rows) db refl sound

-- Through any sequence of imports, corrections, exclusions and submissions of drafts, by any tenants,
-- every draft keeps an identifier of its own, and its status says what its commodity code is: of the
-- list for a draft, not of the list while a decision is due, and of the list or absent once submitted.
pub serve_all-Sound :
    (lower : Text → Text) (calls : List DraftCall) (db : Drafts)
    → Sound db
    → Sound (serve_all lower calls db)
serve_all-Sound lower [] db sound = sound
serve_all-Sound lower (q ∷ qs) db sound =
    serve_all-Sound lower qs (serve lower q db) (serve-Sound lower q db sound)
