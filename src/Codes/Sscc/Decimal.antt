-- ===== src/Codes/Sscc/Decimal.antt =====
-- The decimal digits of a number, padded to a width, and read back.
use mark_solutions.Base.{
  ℕ, zero, suc, ◌+◌, ◌-◌, ◌*◌, ◌/◌, ◌%◌, ◌≤◌, ◌<◌, ◌≡◌, refl, ◌∙◌, ap, inl, inr, true, [], ◌∷◌,
  ◌++◌, arith, ltb, Bool-cases, length, length-append, all, all-append, Text, is_digit,
}
use mark_solutions.Codes.Sscc.{decimal_on, decimal, zeros, pad_start}

-- The number that a string of digits writes.
abbrev pub value_from : ℕ → Text → ℕ
value_from n [] = n
value_from n (c ∷ s) = value_from (n * 10 + (c - 48)) s

pub value_from-append : (n : ℕ) (s t : Text) → value_from n (s ++ t) ≡ value_from (value_from n s) t
value_from-append n [] t = refl
value_from-append n (c ∷ s) t = value_from-append (n * 10 + (c - 48)) s t

pub value_from-decimal_on : (fuel n : ℕ) → n ≤ fuel → value_from 0 (decimal_on fuel n) ≡ n
unfolding decimal_on
value_from-decimal_on zero n h = omega arith
value_from-decimal_on (suc fuel) n h = elim (Bool-cases (ltb n 10)) [
  | inl small ↦ rw small (omega arith)
  | inr large ↦
      let ih = value_from-decimal_on fuel (n / 10) (ground arith) in
      rw large
        (value_from-append 0 (decimal_on fuel (n / 10)) ((48 + n % 10) ∷ []) ∙ rw ih (omega arith))
]

pub decimal_on-digits : (fuel n : ℕ) → all is_digit (decimal_on fuel n) ≡ true
unfolding decimal_on
decimal_on-digits zero n = ground arith
decimal_on-digits (suc fuel) n = elim (Bool-cases (ltb n 10)) [
  | inl small ↦ rw small (ground arith)
  | inr large ↦
      rw
        (
          large,
          all-append is_digit (decimal_on fuel (n / 10)) ((48 + n % 10) ∷ []),
          decimal_on-digits fuel (n / 10),
        )
        (ground arith)
]

abbrev pub power : ℕ → ℕ
power zero = 1
power (suc k) = 10 * power k

decimal_on-length :
    (k fuel n : ℕ) → n < power (suc k) → n ≤ fuel → length (decimal_on fuel n) ≤ suc k
unfolding decimal_on
decimal_on-length k zero n h f = omega arith
decimal_on-length zero (suc fuel) n h f = ground arith
decimal_on-length (suc k) (suc fuel) n h f = elim (Bool-cases (ltb n 10)) [
  | inl small ↦ rw small (omega arith)
  | inr large ↦
      let ih = decimal_on-length k fuel (n / 10) (omega arith) (ground arith) in
      rw large (omega (arith, length-append (decimal_on fuel (n / 10)) ((48 + n % 10) ∷ []), ih))
]

zeros-length : (n : ℕ) → length (zeros n) ≡ n
zeros-length zero = refl
zeros-length (suc n) = ap suc (zeros-length n)

zeros-digits : (n : ℕ) → all is_digit (zeros n) ≡ true
zeros-digits zero = refl
zeros-digits (suc n) = zeros-digits n

value_from-zeros : (n : ℕ) → value_from 0 (zeros n) ≡ 0
value_from-zeros zero = refl
value_from-zeros (suc n) = value_from-zeros n

pub decimal-value : (n : ℕ) → value_from 0 (decimal n) ≡ n
unfolding decimal
decimal-value n = value_from-decimal_on n n (omega arith)

pub decimal-digits : (n : ℕ) → all is_digit (decimal n) ≡ true
unfolding decimal
decimal-digits n = decimal_on-digits n n

pub pad_start-value : (w n : ℕ) → value_from 0 (pad_start w (decimal n)) ≡ n
unfolding decimal
pad_start-value w n =
    value_from-append 0 (zeros (w - length (decimal_on n n))) (decimal_on n n)
    ∙ rw (value_from-zeros) (value_from-decimal_on n n (omega arith))

pub pad_start-digits : (w n : ℕ) → all is_digit (pad_start w (decimal n)) ≡ true
unfolding decimal
pad_start-digits w n =
    all-append is_digit (zeros (w - length (decimal_on n n))) (decimal_on n n)
    ∙ rw (zeros-digits, decimal_on-digits)

pub pad_start-length :
    (k n : ℕ) → n < power (suc k) → length (pad_start (suc k) (decimal n)) ≡ suc k
unfolding decimal
pad_start-length k n h =
    let fits = decimal_on-length k n n h (omega arith) in
    omega (
      arith,
      length-append (zeros (suc k - length (decimal_on n n))) (decimal_on n n),
      zeros-length (suc k - length (decimal_on n n)),
      fits,
    )
