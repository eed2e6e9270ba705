-- ===== src/Drafting.antt =====
-- Drafts of product cards from invoices, and what is decided on their commodity codes
-- (`createDraft`, `fixTnved`, `outOfScope`, `submitDraft` of apps/api/src/catalog.controller.ts, with
-- the rules of packages/shared/src/catalog-rules.ts). Lower case is an argument.
pub mod Rows
pub mod Vetting
use mark_solutions.Base.{
  ℕ, zero, suc, ◌+◌, Bool, true, false, ◌&&◌, ◌||◌, not, Option, none, some, List, [], ◌∷◌, ◌++◌,
  ◌==◌, if◌then◌else◌, any, find, update_where, Text, text, is_empty, starts_with,
}
use mark_solutions.Cards.Moderation.{is_in_list}

pub data DraftStatus : Type 0 where
  draft dobor out_of_scope submitted : DraftStatus

pub data DraftAction : Type 0 where
  fixed_tnved : Text → DraftAction
  left_scope submission : DraftAction

pub record DraftAudit : Type 0 where
  pub actor : ℕ
  pub action : DraftAction

-- A row of an invoice. An absent code is the empty text, as the source has it; a volume is its printed
-- form.
pub record DraftRow : Type 0 where
  pub source : Option Text
  pub gtin : Option Text
  pub name : Option Text
  pub tnved : Text
  pub brand : Option Text
  pub sae : Option Text
  pub volume_l : Option Text
  pub demo : Bool

-- The version of the schema and the confidence, which are the same for all, are left out.
pub record DraftProposal : Type 0 where
  pub id : ℕ
  pub tenant_id : ℕ
  pub source : Text
  pub name : Option Text
  pub tnved : Text
  pub brand : Option Text
  pub sae : Option Text
  pub volume_l : Option Text
  pub has_hint : Bool
  pub strengthen_fix : Bool
  pub missing : List Text
  pub status : DraftStatus
  pub demo : Bool
  pub audit : List DraftAudit

-- The table of drafts, with the next identifier.
pub record Drafts : Type 0 where
  pub next_id : ℕ
  pub rows : List DraftProposal

abbrev pub contains : Text → Text → Bool
contains m [] = is_empty m
contains m (c ∷ s) = starts_with m (c ∷ s) || contains m s

-- `OIL_MARKERS`
abbrev pub oil_markers : List Text
oil_markers =
    text "масло"
    ∷ text "моторное"
    ∷ text "sae"
    ∷ text "atf"
    ∷ text "api "
    ∷ text "acea"
    ∷ text "gl-"
    ∷ []

abbrev pub heuristic_strengthens_fix : (Text → Text) → Text → Bool
heuristic_strengthens_fix lower name = any (λ m. contains m (lower name)) oil_markers

abbrev pub is_absent : Option Text → Bool
is_absent none = true
is_absent (some s) = is_empty s

abbrev pub name_if : Bool → Text → List Text
name_if b t = if b then t ∷ [] else []

abbrev pub or_empty : Option Text → Text
or_empty none = []
or_empty (some s) = s

-- `row.source ?? "invoice"`
abbrev pub source_of : Option Text → Text
source_of none = text "invoice"
source_of (some s) = s

abbrev pub proposal_of : (Text → Text) → ℕ → ℕ → DraftRow → DraftProposal
proposal_of lower id tenant row = record {
  id = id;
  tenant_id = tenant;
  source = source_of row.source;
  name = row.name;
  tnved = row.tnved;
  brand = row.brand;
  sae = row.sae;
  volume_l = row.volume_l;
  has_hint = not (is_in_list row.tnved);
  strengthen_fix = heuristic_strengthens_fix lower (or_empty row.name);
  missing =
      name_if (is_absent row.gtin) (text "gtin")
      ++ name_if (is_absent row.name) (text "name")
      ++ name_if (is_absent row.sae) (text "sae");
  status = if is_in_list row.tnved then draft else dobor;
  demo = row.demo;
  audit = [];
}

unfoldable pub create_draft : (Text → Text) → ℕ → DraftRow → Drafts → Drafts
create_draft lower tenant row db = record {
  next_id = suc db.next_id;
  rows = db.rows ++ (proposal_of lower db.next_id tenant row ∷ []);
}

-- `importDrafts` of the controller
unfoldable pub import_drafts : (Text → Text) → ℕ → List DraftRow → Drafts → Drafts
unfolding create_draft
import_drafts lower tenant [] db = db
import_drafts lower tenant (row ∷ rows) db =
    import_drafts lower tenant rows (create_draft lower tenant row db)

abbrev pub has_draft_id : ℕ → DraftProposal → Bool
has_draft_id id d = d.id == id

abbrev pub is_owned : ℕ → ℕ → DraftProposal → Bool
is_owned id tenant d = (d.id == id) && (d.tenant_id == tenant)

-- `appendAudit`
abbrev pub append_audit : DraftAudit → DraftProposal → DraftProposal
append_audit entry d = record d { audit = d.audit ++ (entry ∷ []) }

-- `update`, and then `appendAudit`.
abbrev pub decide : ℕ → (DraftProposal → DraftProposal) → DraftAudit → Drafts → Drafts
decide id f entry db = record db {
  rows = update_where (has_draft_id id) (λ d. append_audit entry (f d)) db.rows;
}

abbrev pub put_tnved : Text → DraftProposal → DraftProposal
put_tnved tnved d = record d { tnved = tnved; has_hint = false; status = draft }

abbrev pub put_status : DraftStatus → DraftProposal → DraftProposal
put_status status d = record d { status = status }

abbrev pub fix_found : ℕ → ℕ → Text → Option DraftProposal → Drafts → Option DraftStatus × Drafts
fix_found id actor tnved none db = (none, db)
fix_found id actor tnved (some d) db = (
  some draft,
  decide id (put_tnved tnved) (record { actor = actor; action = fixed_tnved tnved }) db,
)

-- The operations answer the new status, or 400.
unfoldable pub fix_tnved : ℕ → ℕ → ℕ → Text → Drafts → Option DraftStatus × Drafts
fix_tnved tenant id actor tnved db =
    if not (is_in_list tnved)
    then (none, db)
    else fix_found id actor tnved (find (is_owned id tenant) db.rows) db

abbrev pub leave_scope : ℕ → ℕ → Option DraftProposal → Drafts → Option DraftStatus × Drafts
leave_scope id actor none db = (none, db)
leave_scope id actor (some d) db = (
  some out_of_scope,
  decide id (put_status out_of_scope) (record { actor = actor; action = left_scope }) db,
)

unfoldable pub mark_out_of_scope : ℕ → ℕ → ℕ → Drafts → Option DraftStatus × Drafts
mark_out_of_scope tenant id actor db = leave_scope id actor (find (is_owned id tenant) db.rows) db

abbrev pub is_out_of_scope : DraftStatus → Bool
is_out_of_scope out_of_scope = true
is_out_of_scope _ = false

abbrev pub submit_found : ℕ → ℕ → Option DraftProposal → Drafts → Option DraftStatus × Drafts
submit_found id actor none db = (none, db)
submit_found id actor (some d) db =
    if is_out_of_scope d.status
    then (none, db)
    else if not (is_empty d.tnved) && not (is_in_list d.tnved)
    then (none, db)
    else (
      some submitted,
      decide id (put_status submitted) (record { actor = actor; action = submission }) db,
    )

unfoldable pub submit_draft : ℕ → ℕ → ℕ → Drafts → Option DraftStatus × Drafts
submit_draft tenant id actor db = submit_found id actor (find (is_owned id tenant) db.rows) db
