-- ===== src/Invoices/Money.antt =====
-- Money in tiyns (packages/shared/src/money.ts) and the value added tax in it
-- (packages/shared/src/vat.ts).
use native.Mathlib.Nat.{div-mul-le_self, lt-div-mul-add, zero-add}
use mathlib.Core.List.{append-nil}
use mark_solutions.Base.{
  ℕ, zero, suc, ◌+◌, ◌-◌, ◌*◌, ◌/◌, ◌%◌, ◌≤◌, ◌<◌, ◌≡◌, refl, ◌∙◌, sym, ap, inl, inr, Bool, true,
  false, ◌&&◌, not, [], ◌∷◌, ◌++◌, arith, ◌==◌, if◌then◌else◌, Bool-cases, length, filter,
  filter-append, all, Text, is_digit,
}
use mark_solutions.Base.Int.{ℤ, pos, negsuc, pos_part, neg_part, leb_ℤ, ltb_ℤ}
use mark_solutions.Codes.Sscc.{decimal, pad_start}
use mark_solutions.Codes.Sscc.Decimal.{
  value_from, value_from-append, decimal-value, decimal-digits, pad_start-value, pad_start-digits,
  pad_start-length,
}

-- `splitVat`: what is left of a sum, and the tax that is contained in it.
unfoldable pub split_vat : ℕ → ℤ → ℕ × ℕ
split_vat total rate_pct =
    if leb_ℤ rate_pct (pos 0)
    then (total, 0)
    else let vat = total * pos_part rate_pct / (100 + pos_part rate_pct) in (total - vat, vat)

-- `replace(/\B(?=(\d{3})+(?!\d))/g, " ")` on a string of digits: a space before each group of three.
abbrev pub group_digits : Text → Text
group_digits [] = []
group_digits (d ∷ ds) =
    let rest = group_digits ds in
    if (length ds % 3 == 0) && not (length ds == 0) then d ∷ 32 ∷ rest else d ∷ rest

abbrev pub minus : ℕ
minus = 8722

abbrev pub absolute : ℤ → ℕ
absolute a = pos_part a + neg_part a

-- What follows the sign.
abbrev pub body_of : ℕ → Text
body_of abs =
    group_digits (decimal (abs / 100))
    ++ (44 ∷ (pad_start 2 (decimal (abs % 100)) ++ (32 ∷ 8376 ∷ [])))

-- `formatTenge`: "80 000,00 ₸"
unfoldable pub format_tenge : ℤ → Text
unfolding decimal
format_tenge tyyn = (if ltb_ℤ tyyn (pos 0) then minus ∷ [] else []) ++ body_of (absolute tyyn)

abbrev pub negated : ℕ → ℤ
negated zero = pos 0
negated (suc k) = negsuc k

-- The sum that a text shows: all its digits, with a minus where it starts with one.
abbrev pub read_tenge : Text → ℤ
read_tenge [] = pos 0
read_tenge (c ∷ s) =
    let n = value_from 0 (filter is_digit (c ∷ s)) in if c == minus then negated n else pos n

split_le : (total r v : ℕ) → v * (100 + r) ≤ total * r → v ≤ total
split_le total r v h = grind arith

parts_bounds :
    (w r v : ℕ)
    → v * (100 + r) ≤ (w + v) * r
    → (w + v) * r < v * (100 + r) + (100 + r)
    → (v * 100 ≤ w * r) × (w * r < v * 100 + (100 + r))
parts_bounds w r v above below = (grind arith, grind arith)

split_bounds :
    (total r v : ℕ)
    → v * (100 + r) ≤ total * r
    → total * r < v * (100 + r) + (100 + r)
    → ((total - v) + v ≡ total)
      × (v * 100 ≤ (total - v) * r)
      × ((total - v) * r < v * 100 + (100 + r))
split_bounds total r v above below =
    let small = split_le total r v above in
    let whole : total ≡ (total - v) + v = omega (arith, small) in
    let (low, high) = parts_bounds (total - v) r v (rw (← whole) above) (rw (← whole) below) in
    (sym whole, low, high)

rate_is_positive : (r : ℕ) → leb_ℤ (pos (suc r)) (pos 0) ≡ false
rate_is_positive r = ground arith

-- The tax and the rest are the whole sum, and the tax is the part of the rest that the rate says,
-- rounded down by less than one tiyn of the whole.
pub split_vat_bounds :
    (total rate : ℕ)
    → let (rest, vat) = split_vat total (pos rate) in
      (rest + vat ≡ total) × (vat * 100 ≤ rest * rate) × (rest * rate < vat * 100 + (100 + rate))
unfolding split_vat
split_vat_bounds total zero = omega arith
split_vat_bounds total (suc r) =
    let v = total * suc r / (100 + suc r) in
    let above = div-mul-le_self (total * suc r) (100 + suc r) in
    let below = lt-div-mul-add {a = total * suc r} {b = 100 + suc r} (omega arith) in
    rw (rate_is_positive r) (split_bounds total (suc r) v above below)

and_left : (a b : Bool) → (a && b) ≡ true → a ≡ true
and_left a b h = ground arith

and_right : (a b : Bool) → (a && b) ≡ true → b ≡ true
and_right a b h = ground arith

filter-group_digits : (s : Text) → all is_digit s ≡ true → filter is_digit (group_digits s) ≡ s
filter-group_digits [] h = refl
filter-group_digits (d ∷ ds) h = elim (Bool-cases ((length ds % 3 == 0) && not (length ds == 0))) [
  | inl spaced ↦ rw spaced (
      rw (and_left (is_digit d) (all is_digit ds) h)
        (ap (◌∷◌ d) (filter-group_digits ds (and_right (is_digit d) (all is_digit ds) h))))
  | inr close ↦ rw close (
      rw (and_left (is_digit d) (all is_digit ds) h)
        (ap (◌∷◌ d) (filter-group_digits ds (and_right (is_digit d) (all is_digit ds) h))))
]

value_from-two : (n : ℕ) (s : Text) → length s ≡ 2 → value_from n s ≡ n * 100 + value_from 0 s
value_from-two n [] h = absurd (omega arith)
value_from-two n (a ∷ []) h = absurd (omega arith)
value_from-two n (a ∷ b ∷ []) h = omega arith
value_from-two n (a ∷ b ∷ c ∷ s) h = absurd (omega arith)

filter-digits : (s : Text) → all is_digit s ≡ true → filter is_digit s ≡ s
filter-digits [] h = refl
filter-digits (d ∷ ds) h =
    rw (and_left (is_digit d) (all is_digit ds) h)
      (ap (◌∷◌ d) (filter-digits ds (and_right (is_digit d) (all is_digit ds) h)))

-- The digits of a formatted sum, without what stands before them.
abbrev digits_of : ℕ → Text
digits_of abs = decimal (abs / 100) ++ pad_start 2 (decimal (abs % 100))

value_from-digits_of : (abs : ℕ) → value_from 0 (digits_of abs) ≡ abs
value_from-digits_of abs =
    let whole : value_from 0 (decimal (abs / 100)) ≡ abs / 100 = decimal-value (abs / 100) in
    let cents = pad_start-value 2 (abs % 100) in
    let two = pad_start-length 1 (abs % 100) (omega arith) in
    value_from-append 0 (decimal (abs / 100)) (pad_start 2 (decimal (abs % 100)))
    ∙ rw whole (
        value_from-two (abs / 100) (pad_start 2 (decimal (abs % 100))) two ∙ rw cents (omega arith))

filter-body_of : (abs : ℕ) → filter is_digit (body_of abs) ≡ digits_of abs
filter-body_of abs =
    filter-append is_digit (group_digits (decimal (abs / 100)))
      (44 ∷ (pad_start 2 (decimal (abs % 100)) ++ (32 ∷ 8376 ∷ [])))
    ∙ rw
        (
          filter-group_digits (decimal (abs / 100)) (decimal-digits (abs / 100)),
          filter-append is_digit (pad_start 2 (decimal (abs % 100))) (32 ∷ 8376 ∷ []),
          filter-digits (pad_start 2 (decimal (abs % 100))) (pad_start-digits 2 (abs % 100)),
        )
        (ap (λ t. decimal (abs / 100) ++ t) (append-nil (pad_start 2 (decimal (abs % 100)))))

body_of-value : (abs : ℕ) → value_from 0 (filter is_digit (body_of abs)) ≡ abs
body_of-value abs = rw (filter-body_of abs) (value_from-digits_of abs)

digit-ne-minus : (d : ℕ) → is_digit d ≡ true → (d == minus) ≡ false
digit-ne-minus d h = ground arith

-- A sum that starts with a digit, or with the comma, is read as positive.
read_tenge-group_digits :
    (s rest : Text)
    → all is_digit s ≡ true
    → read_tenge (group_digits s ++ (44 ∷ rest))
      ≡ pos (value_from 0 (filter is_digit (group_digits s ++ (44 ∷ rest))))
read_tenge-group_digits [] rest h = refl
read_tenge-group_digits (d ∷ ds) rest h =
    let sign = digit-ne-minus d (and_left (is_digit d) (all is_digit ds) h) in
    elim (Bool-cases ((length ds % 3 == 0) && not (length ds == 0))) [
      | inl spaced ↦ rw (spaced, sign) refl
      | inr close ↦ rw (close, sign) refl
    ]

is_negative : (n : ℕ) → ltb_ℤ (negsuc n) (pos 0) ≡ true
is_negative n = ground arith

is_natural : (n : ℕ) → ltb_ℤ (pos n) (pos 0) ≡ false
is_natural n = ground arith

-- A formatted sum shows the sum: its digits, with the minus that it may start with, read back as the
-- same amount of tiyns, so no two sums look alike.
pub read_tenge-format_tenge : (tyyn : ℤ) → read_tenge (format_tenge tyyn) ≡ tyyn
unfolding format_tenge
read_tenge-format_tenge (negsuc n) =
    rw (is_negative n) (ap negated (body_of-value (0 + suc n) ∙ (zero-add (suc n))))
read_tenge-format_tenge (pos n) = rw (is_natural n) (
    read_tenge-group_digits (decimal ((n + 0) / 100))
      (pad_start 2 (decimal ((n + 0) % 100)) ++ (32 ∷ 8376 ∷ [])) (decimal-digits ((n + 0) / 100))
    ∙ ap pos (body_of-value (n + 0) ∙ omega arith))
