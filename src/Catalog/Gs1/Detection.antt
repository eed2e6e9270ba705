-- ===== src/Catalog/Gs1/Detection.antt =====
-- The check digit that is computed is accepted, and a code with one wrong digit is not.
use mark_solutions.Base.{
  ℕ, ◌+◌, ◌-◌, ◌*◌, ◌%◌, ◌≡◌, ◌≢◌, refl, ◌∙◌, ap, ◌<◌, inl, inr, true, false, [], ◌∷◌, ◌++◌, arith,
  ◌==◌, if◌then◌else◌, Bool-cases, length, length-append, all, all-append, Text, is_digit,
}
use mark_solutions.Catalog.Gs1.{
  digit, weight, weighted_sum, gs1_mod10_check_digit, but_last, last, verify_gs1_mod10,
}

-- The weights once the check digit, of weight 1, stands at the end.
abbrev weight_with_check : ℕ → ℕ
weight_with_check following = if following % 2 == 0 then 1 else 3

total : Text → ℕ
total [] = 0
total (c ∷ s) = digit c * weight_with_check (length s) + total s

weight_shift : (n : ℕ) → weight_with_check (n + 1) ≡ weight n
weight_shift n = ground arith

total-append_check : (base : Text) (c : ℕ) → total (base ++ (c ∷ [])) ≡ weighted_sum base + digit c
unfolding total weighted_sum
total-append_check [] c = omega arith
total-append_check (x ∷ base) c =
    rw (length-append base (c ∷ []), weight_shift (length base))
      (omega (arith, total-append_check base c))

but_last-last : (c : ℕ) (s : Text) → but_last (c ∷ s) ++ (last (c ∷ s) ∷ []) ≡ c ∷ s
but_last-last c [] = refl
but_last-last c (d ∷ s) = ap (◌∷◌ c) (but_last-last d s)

last-is_digit : (c : ℕ) (s : Text) → all is_digit (c ∷ s) ≡ true → is_digit (last (c ∷ s)) ≡ true
last-is_digit c [] h = ground arith
last-is_digit c (d ∷ s) h = last-is_digit d s (ground (arith, h))

digit-lt : (c : ℕ) → is_digit c ≡ true → digit c < 10
digit-lt c h = ground arith

check_of_sum : (s d : ℕ) → d < 10 → (10 - s % 10) % 10 ≡ d → (s + d) % 10 ≡ 0
check_of_sum s d h e = omega arith

-- An accepted code has a weighted sum that is a multiple of ten.
total_of_verified : (code : Text) (n : ℕ) → verify_gs1_mod10 code n ≡ true → total code % 10 ≡ 0
unfolding verify_gs1_mod10
total_of_verified [] n h = ground arith
total_of_verified (c ∷ s) n h =
    let base = but_last (c ∷ s) in
    let l = last (c ∷ s) in
    let digits : all is_digit (c ∷ s) ≡ true = ground (arith, h) in
    let small : digit l < 10 = digit-lt l (last-is_digit c s digits) in
    let checks : (10 - weighted_sum base % 10) % 10 ≡ digit l = ground (arith, h) in
    rw (← but_last-last c s)
      (rw (total-append_check base l) (check_of_sum (weighted_sum base) (digit l) small checks))

but_last-append : (s : Text) (c : ℕ) → but_last (s ++ (c ∷ [])) ≡ s
but_last-append [] c = refl
but_last-append (x ∷ []) c = refl
but_last-append (x ∷ y ∷ s) c = ap (◌∷◌ x) (but_last-append (y ∷ s) c)

last-append : (s : Text) (c : ℕ) → last (s ++ (c ∷ [])) ≡ c
last-append [] c = refl
last-append (x ∷ []) c = refl
last-append (x ∷ y ∷ s) c = last-append (y ∷ s) c

check_char_is_digit : (n : ℕ) → n < 10 → is_digit (48 + n) ≡ true
check_char_is_digit n h = ground arith

digit_of_char : (n : ℕ) → ((48 + n) - 48 == n) ≡ true
digit_of_char n = ground arith

-- Digits followed by their check digit are accepted at their length.
pub append_check_verifies :
    (base : Text)
    → all is_digit base ≡ true
    → verify_gs1_mod10 (base ++ ((48 + gs1_mod10_check_digit base) ∷ [])) (length base + 1) ≡ true
unfolding verify_gs1_mod10
append_check_verifies base h =
    let c = gs1_mod10_check_digit base in
    let code = base ++ ((48 + c) ∷ []) in
    let len : length code ≡ length base + 1 = length-append base ((48 + c) ∷ []) in
    let small : c < 10 = omega arith in
    let digits : all is_digit code ≡ true =
      all-append is_digit base ((48 + c) ∷ []) ∙ rw (h, check_char_is_digit c small) in
    rw (digits, len, but_last-append base (48 + c), last-append base (48 + c)) (ground arith)

-- The sum of a code, with the place of one digit singled out.
total-place :
    (xs : Text) (c d : ℕ) (ys : Text)
    → total (xs ++ (c ∷ ys)) + digit d * weight_with_check (length ys)
      ≡ total (xs ++ (d ∷ ys)) + digit c * weight_with_check (length ys)
unfolding total
total-place [] c d ys = omega arith
total-place (x ∷ xs) c d ys =
    rw (length-append xs (c ∷ ys), length-append xs (d ∷ ys)) (omega (arith, total-place xs c d ys))

digit_inj : (c d : ℕ) → is_digit c ≡ true → is_digit d ≡ true → digit c ≡ digit d → c ≡ d
digit_inj c d hc hd e = ground arith

digits_of_verified :
    (code : Text) (n : ℕ) → verify_gs1_mod10 code n ≡ true → all is_digit code ≡ true
unfolding verify_gs1_mod10
digits_of_verified code n h = ground (arith, h)

place_is_digit :
    (xs : Text) (c : ℕ) (ys : Text) → all is_digit (xs ++ (c ∷ ys)) ≡ true → is_digit c ≡ true
place_is_digit [] c ys h = ground (arith, h)
place_is_digit (x ∷ xs) c ys h = place_is_digit xs c ys (ground (arith, h))

weigh_apart :
    (s t c d k : ℕ)
    → c < 10
    → d < 10
    → s % 10 ≡ 0
    → t % 10 ≡ 0
    → s + d * weight_with_check k ≡ t + c * weight_with_check k
    → c ≡ d
weigh_apart s t c d k hc hd hs ht e = ground arith

-- Two accepted codes that differ in at most one place are the same.
one_digit_same :
    (xs : Text) (c d : ℕ) (ys : Text) (n m : ℕ)
    → verify_gs1_mod10 (xs ++ (c ∷ ys)) n ≡ true
    → verify_gs1_mod10 (xs ++ (d ∷ ys)) m ≡ true
    → c ≡ d
one_digit_same xs c d ys n m h k =
    let dc = place_is_digit xs c ys (digits_of_verified (xs ++ (c ∷ ys)) n h) in
    let dd = place_is_digit xs d ys (digits_of_verified (xs ++ (d ∷ ys)) m k) in
    digit_inj c d dc dd (
      weigh_apart (total (xs ++ (c ∷ ys))) (total (xs ++ (d ∷ ys))) (digit c) (digit d) (length ys)
        (digit-lt c dc) (digit-lt d dd) (total_of_verified (xs ++ (c ∷ ys)) n h)
        (total_of_verified (xs ++ (d ∷ ys)) m k) (total-place xs c d ys))

-- A code that differs from an accepted one in one character is refused, at whatever length is asked.
pub one_digit_refused :
    (xs : Text) (c d : ℕ) (ys : Text) (n m : ℕ)
    → verify_gs1_mod10 (xs ++ (c ∷ ys)) n ≡ true
    → c ≢ d
    → verify_gs1_mod10 (xs ++ (d ∷ ys)) m ≡ false
one_digit_refused xs c d ys n m h differ = elim (Bool-cases (verify_gs1_mod10 (xs ++ (d ∷ ys)) m)) [
  | inl accepted ↦ absurd (differ (one_digit_same xs c d ys n m h accepted))
  | inr refused ↦ refused
]
