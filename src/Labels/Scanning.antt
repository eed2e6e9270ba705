-- ===== src/Labels/Scanning.antt =====
-- A label that is printed is accepted when it is scanned.
use mark_solutions.Base.{
  all, not, ltb, ◌==◌, ◌&&◌, ℕ, ◌≡◌, refl, sym, ◌∙◌, ap, ◌⊎◌, inl, inr, Bool, true, Option, none,
  some, List, arith, Bool-cases, find, find_sound, find-update_where, update_where, Text, text_eq,
  text_eq_refl, text_eq_sound,
}
use mark_solutions.Store.{
  CodeStatus, CodeVault, Db, bad_request, Result, ok, err, then_gives, ◌>>=◌,
}
use mark_solutions.Catalog.Km.{raw_string_of}
use mark_solutions.Codes.{allows, owned_code, code_has_id, set_status, record_event_on}
use mark_solutions.Vault.{revealed, with_extended, reveal_one}
use mark_solutions.Labels.{latin1, is_active, set_label, label_key_for, print, apply}

-- A column that is not part of the key, updated under the code's identifier.
updated-find :
    (t id : ℕ) (f : CodeVault → CodeVault) (rows : List CodeVault) {c : CodeVault}
    → ((x : CodeVault) → owned_code t id (f x) ≡ owned_code t id x)
    → find (owned_code t id) rows ≡ some c
    → find (owned_code t id) (update_where (code_has_id id) f rows) ≡ some (f c)
updated-find t id f rows {c = c} keeps h =
    let own : code_has_id id c ≡ true = ground (arith, find_sound (owned_code t id) rows h) in
    find-update_where (owned_code t id) (code_has_id id) f rows keeps ∙ rw (h, own) refl

module _ (store : Text → ℕ) (extended_codes : Bool) (card : ℕ → Option Text × Option Text)
    (t id actor : ℕ) (db : Db) (c : CodeVault)
    (found : find (owned_code t id) db.vault ≡ some c) where
  -- The text of the code's label.
  abbrev pub text : Text
  text =
      raw_string_of
        (with_extended extended_codes (card c.card_id).0 (card c.card_id).1 (revealed c))

  reveal_one_lem :
      reveal_one extended_codes card id t db
      ≡ (ok (with_extended extended_codes (card c.card_id).0 (card c.card_id).1 (revealed c)), db)
  unfolding reveal_one
  reveal_one_lem = rw found refl

  -- A scan is accepted exactly when it shows the bytes of the text of the code's label and the code may be applied;
  -- then the code is `APPLIED`. Otherwise the call answers 400 and nothing is written.
  pub apply_exact :
      (scanned : List ℕ)
      → let (r, db') = apply store extended_codes card t id actor (some scanned) db in
        ((scanned ≡ latin1 text)
          × (r ≡ ok CodeStatus.applied)
          × (find (owned_code t id) db'.vault ≡ some (set_status CodeStatus.applied c)))
        ⊎ ((r ≡ err bad_request) × (db' ≡ db))
  unfolding apply record_event_on
  apply_exact scanned = elim (Bool-cases (text_eq scanned (latin1 text))) [
    | inr other ↦ rw (found, reveal_one_lem, other) (inr (refl, refl))
    | inl same ↦ elim (Bool-cases (allows c.status (some CodeStatus.applied))) [
      | inr not_so ↦ rw (found, reveal_one_lem, same, found, not_so) (inr (refl, refl))
      | inl may ↦
          rw (found, reveal_one_lem, same, found, may)
            (inl (
              text_eq_sound scanned (latin1 text) same,
              refl,
              updated-find t id (set_status CodeStatus.applied) db.vault (λ x. refl) found,
            ))
    ]
  ]

  -- The row and the tables once the code has its label.
  abbrev labelled_row : Option ℕ → CodeVault
  labelled_row none = set_label (store text) c
  labelled_row (some key) = c

  abbrev labelled : Option ℕ → Db
  labelled none = record db {
    vault = update_where (code_has_id id) (set_label (store text)) db.vault;
  }
  labelled (some key) = db

  abbrev key_of : Option ℕ → ℕ
  key_of label = elim label [ some key ↦ key | none ↦ store text ]

  label_key_for_lem :
      (label : Option ℕ)
      → label_key_for store id label text db ≡ (ok (key_of label), labelled label)
  unfolding label_key_for
  label_key_for_lem none = refl
  label_key_for_lem (some key) = refl

  find-labelled :
      (label : Option ℕ) → find (owned_code t id) (labelled label).vault ≡ some (labelled_row label)
  find-labelled none = updated-find t id (set_label (store text)) db.vault (λ x. refl) found
  find-labelled (some key) = found

  allows-labelled_row :
      (label : Option ℕ)
      → is_active c.status ≡ true
      → allows (labelled_row label).status (some CodeStatus.printed) ≡ true
  allows-labelled_row none fresh = ground (arith, fresh)
  allows-labelled_row (some key) fresh = ground (arith, fresh)

  label_key-labelled_row :
      (label : Option ℕ)
      → c.label_key ≡ label
      → (labelled_row label).label_key ≡ some (key_of label)
  label_key-labelled_row none e = refl
  label_key-labelled_row (some key) e = e

  raw_string-labelled_row :
      (label : Option ℕ)
      → raw_string_of (
          with_extended extended_codes
            (card (labelled_row label).card_id).0
            (card (labelled_row label).card_id).1
            (revealed (labelled_row label)))
        ≡ text
  raw_string-labelled_row none = refl
  raw_string-labelled_row (some key) = refl

  print_lem :
      is_active c.status ≡ true
      → let (r, db') = print store extended_codes card t id actor db in
        (r ≡ ok (record { key = key_of c.label_key; text = text; status = CodeStatus.printed }))
        × (find (owned_code t id) db'.vault
            ≡ some (set_status CodeStatus.printed (labelled_row c.label_key)))
  unfolding print record_event_on
  print_lem fresh =
      rw
        (
          found,
          fresh,
          reveal_one_lem,
          label_key_for_lem,
          find-labelled,
          allows-labelled_row c.label_key fresh,
        )
        (
          refl,
          updated-find t id (set_status CodeStatus.printed) (labelled c.label_key).vault (λ x. refl)
              (find-labelled c.label_key),
        )

apply_accepts :
    (store : Text → ℕ) (extended_codes : Bool) (card : ℕ → Option Text × Option Text)
    (t id actor : ℕ) (db : Db) (c : CodeVault) (found : find (owned_code t id) db.vault ≡ some c)
    → allows c.status (some CodeStatus.applied) ≡ true
    → let (r, db') =
        apply store extended_codes card t id actor
          (some (latin1 (text store extended_codes card t id actor db c found)))
          db in
      (r ≡ ok CodeStatus.applied)
      × (find (owned_code t id) db'.vault ≡ some (set_status CodeStatus.applied c))
unfolding apply record_event_on
apply_accepts store extended_codes card t id actor db c found may =
    rw
      (
        found,
        reveal_one_lem store extended_codes card t id actor db c found,
        text_eq_refl (latin1 (text store extended_codes card t id actor db c found)),
        found,
        may,
      )
      (refl, updated-find t id (set_status CodeStatus.applied) db.vault (λ x. refl) found)

then_ok :
    {A B : Type 0} (m : Result A × Db) (f : A → Db → Result B × Db) {a : A}
    → m.0 ≡ ok a
    → then_gives m f ≡ f a m.1
then_ok (ok x, db) f e = ground (arith, e)
then_ok (err x, db) f e = cc

-- What the writing of a picture leaves alone: ASCII without `^`, which `parsefnc` takes for the start of
-- a special character.
abbrev pub is_plain_unit : ℕ → Bool
is_plain_unit c = ltb c 128 && not (c == 94)

-- A label that is printed for an active code whose text is ASCII without `^` is accepted when it is
-- scanned: the code is then `APPLIED` and has the label's key. `picture` is the drawing of a DataMatrix
-- and its reading, which is taken to give the bytes of such a text.
pub apply-print :
    (store : Text → ℕ) (extended_codes : Bool) (card : ℕ → Option Text × Option Text)
    (picture : Text → Option (List ℕ)) (t id printer operator : ℕ) (db : Db) (c : CodeVault)
    → ((s : Text) → all is_plain_unit s ≡ true → picture s ≡ some (latin1 s))
    → find (owned_code t id) db.vault ≡ some c
    → is_active c.status ≡ true
    → all is_plain_unit (
        raw_string_of
          (with_extended extended_codes (card c.card_id).0 (card c.card_id).1 (revealed c)))
      ≡ true
    → let (r, db') =
        (print store extended_codes card t id printer >>= λ l.
        apply store extended_codes card t id operator (picture l.text))
          db in
      (r ≡ ok CodeStatus.applied)
      × (row : CodeVault) × (find (owned_code t id) db'.vault ≡ some row)
      × (row.status ≡ CodeStatus.applied)
      × (row.label_key
          ≡ some (elim c.label_key [
            | some key ↦ key
            | none ↦ store (
                raw_string_of
                  (with_extended extended_codes (card c.card_id).0 (card c.card_id).1 (revealed c)))
          ]))
apply-print store extended_codes card picture t id printer operator db c reads found fresh plain =
    let (answer, there) = print_lem store extended_codes card t id printer db c found fresh in
    let after = (print store extended_codes card t id printer db).1 in
    let row =
      set_status CodeStatus.printed
        (labelled_row store extended_codes card t id printer db c found c.label_key) in
    let accepted = apply_accepts store extended_codes card t id operator after row there refl in
    let shown =
      raw_string-labelled_row store extended_codes card t id printer db c found c.label_key in
    let scanned =
      then_ok (print store extended_codes card t id printer db)
        (λ l. apply store extended_codes card t id operator (picture l.text)) answer in
    let whole =
      scanned
      ∙ ap (λ s. apply store extended_codes card t id operator s after)
          (reads (text store extended_codes card t id printer db c found) plain
            ∙ ap (λ s. some (latin1 s)) (sym shown)) in
    rw whole (
      accepted.0,
      set_status CodeStatus.applied row,
      accepted.1,
      refl,
      label_key-labelled_row store extended_codes card t id printer db c found c.label_key refl,
    )
