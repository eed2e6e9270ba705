-- ===== src/Codes/Sscc/Serial.antt =====
-- What a generated SSCC carries, and that no two of a tenant are the same.
use mark_solutions.Base.{
  ℕ, suc, ◌+◌, ◌-◌, ◌%◌, ◌<◌, ◌≡◌, refl, ◌∙◌, ap, inl, inr, true, Option, none, some, [], ◌∷◌, ◌++◌,
  arith, ==_refl, Option-cases, length, length-append, all, all-append, Text, is_digit, slice, take,
  drop, drop-append, take-append, find, find_sound, find-append, find-update_where, update_where,
}
use mathlib.Core.List.{append_assoc}
use mark_solutions.Store.{SsccCounter, Db, Result, ok, err, then_gives, pure}
use mark_solutions.Catalog.Gs1.{gs1_mod10_check_digit, verify_gs1_mod10}
use mark_solutions.Catalog.Gs1.Detection.{append_check_verifies}
use mark_solutions.Codes.Sscc.{
  decimal, pad_start, is_counter_of, count, upsert_counter, tenant_sscc_prefix, sscc_of,
  generate_sscc, verify_sscc,
}
use mark_solutions.Codes.Sscc.Decimal.{
  value_from, pad_start-value, pad_start-digits, pad_start-length,
}

-- The number in the nine characters of an SSCC before its check digit.
abbrev pub seq_of : Text → ℕ
seq_of sscc = value_from 0 (slice 8 17 sscc)

abbrev next_in : Option SsccCounter → ℕ
next_in none = 1
next_in (some c) = c.next_seq

-- The number that the next SSCC of a tenant will carry.
abbrev pub next_of : ℕ → Db → ℕ
next_of tenant db = next_in (find (is_counter_of tenant) db.counters)

module _ (sha256 : ℕ → ℕ) (tenant seq : ℕ) (small : seq < 1000000000) where
  abbrev prefix : Text
  prefix = tenant_sscc_prefix sha256 tenant

  abbrev serial : Text
  serial = pad_start 9 (decimal seq)

  abbrev base : Text
  base = 48 ∷ (prefix ++ serial)

  prefix-length : length prefix ≡ 7
  unfolding tenant_sscc_prefix
  prefix-length = pad_start-length 6 (sha256 tenant % 10000000) (omega arith)

  prefix-digits : all is_digit prefix ≡ true
  unfolding tenant_sscc_prefix
  prefix-digits = pad_start-digits 7 (sha256 tenant % 10000000)

  serial-length : length serial ≡ 9
  serial-length = pad_start-length 8 seq (omega arith)

  base-length : length base ≡ 17
  base-length = omega (arith, length-append prefix serial, prefix-length, serial-length)

  base-digits : all is_digit base ≡ true
  base-digits = all-append is_digit prefix serial ∙ rw (prefix-digits, pad_start-digits 9 seq)

  sscc_of-verify_sscc : verify_sscc (sscc_of sha256 tenant seq) ≡ true
  sscc_of-verify_sscc =
      ap (λ n. verify_gs1_mod10 (sscc_of sha256 tenant seq) n) (omega (arith, base-length))
      ∙ append_check_verifies base base-digits

  sscc_of-seq_of : seq_of (sscc_of sha256 tenant seq) ≡ seq
  sscc_of-seq_of =
      let check = (48 + gs1_mod10_check_digit base) ∷ [] in
      ap (λ s. value_from 0 (take 9 (drop 7 s))) (append_assoc prefix serial check)
      ∙ ap (λ s. value_from 0 (take 9 s)) (drop-append prefix (serial ++ check) 7 prefix-length)
      ∙ ap (value_from 0) (take-append serial check 9 serial-length)
      ∙ pad_start-value 9 seq

then_pure :
    {A B : Type 0} (m : Result A × Db) (f : A → B) {a : A}
    → m.0 ≡ ok a
    → then_gives m (λ x. pure (f x)) ≡ (ok (f a), m.1)
then_pure (ok x, db) f e = ground (arith, e)
then_pure (err x, db) f e = cc

module _ (sha256 : ℕ → ℕ) (tenant : ℕ) (db : Db) where
  -- The counter that the upsert answers is one past the number that is used, and it is stored.
  upsert_counter-next :
      (c : SsccCounter) × ((upsert_counter tenant db).0 ≡ ok c)
      × (c.next_seq ≡ suc (next_of tenant db))
      × (next_of tenant (upsert_counter tenant db).1 ≡ suc (next_of tenant db))
  unfolding upsert_counter
  upsert_counter-next = elim (Option-cases (find (is_counter_of tenant) db.counters)) [
    | inl absent ↦
        let fresh : SsccCounter = record { tenant_id = tenant; next_seq = 2 } in
        let stored : find (is_counter_of tenant) (db.counters ++ (fresh ∷ [])) ≡ some fresh =
          find-append (is_counter_of tenant) db.counters fresh ∙ rw (absent, ==_refl tenant) in
        rw absent (fresh, refl, refl, ap next_in stored)
    | inr (c, found) ↦
        let stored : find (is_counter_of tenant)
              (update_where (is_counter_of tenant) count db.counters)
            ≡ some (count c) =
          find-update_where (is_counter_of tenant) (is_counter_of tenant) count db.counters
            (λ x. refl)
          ∙ rw (found, find_sound (is_counter_of tenant) db.counters found) in
        rw found (count c, refl, refl, ap next_in stored)
  ]

  -- The next SSCC of a tenant, for a number of at most nine digits: it is accepted by the verification,
  -- it carries the tenant's number, and the following one will carry the next number.
  pub generate_sscc-verify_sscc :
      next_of tenant db < 1000000000
      → let (r, db') = generate_sscc sha256 tenant db in
        (s : Text) × (r ≡ ok s)
        × (verify_sscc s ≡ true)
        × (seq_of s ≡ next_of tenant db)
        × (next_of tenant db' ≡ suc (next_of tenant db))
  unfolding generate_sscc
  generate_sscc-verify_sscc small =
      let (c, e, n, later) = upsert_counter-next in
      let seq = c.next_seq - 1 in
      let same : seq ≡ next_of tenant db = omega (arith, n) in
      let few : seq < 1000000000 = omega arith in
      let whole =
        then_pure (upsert_counter tenant db) (λ d. sscc_of sha256 tenant (d.next_seq - 1)) e in
      (
        sscc_of sha256 tenant seq,
        ap (λ m. m.0) whole,
        sscc_of-verify_sscc sha256 tenant seq few,
        sscc_of-seq_of sha256 tenant seq few ∙ same,
        ap (λ m. next_of tenant m.1) whole ∙ later,
      )
