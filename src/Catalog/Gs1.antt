-- ===== src/Catalog/Gs1.antt =====
-- The GS1 check digit (`gs1Mod10CheckDigit` and `verifyGs1Mod10` of
-- packages/shared/src/catalog-rules.ts), which GTIN-14 and SSCC-18 share.
pub mod Detection
use mark_solutions.Base.{
  ℕ, zero, suc, ◌+◌, ◌-◌, ◌*◌, ◌%◌, ◌≡◌, refl, ◌∙◌, ap, ◌<◌, ◌≤◌, inl, inr, Bool, true, false, ◌&&◌,
  not, List, [], ◌∷◌, ◌++◌, arith, leb, ◌==◌, if◌then◌else◌, Bool-cases, length, length-append, all,
  all-append, Text, is_digit,
}

-- `Number(c)` of a digit
abbrev pub digit : ℕ → ℕ
digit c = c - 48

-- `(digits.length - 1 - i) % 2 === 0 ? 3 : 1`, by the number of digits that follow
abbrev pub weight : ℕ → ℕ
weight following = if following % 2 == 0 then 3 else 1

pub weighted_sum : Text → ℕ
weighted_sum [] = 0
weighted_sum (c ∷ s) = digit c * weight (length s) + weighted_sum s

unfoldable pub gs1_mod10_check_digit : Text → ℕ
unfolding weighted_sum
gs1_mod10_check_digit base = (10 - weighted_sum base % 10) % 10

-- `code.slice(0, -1)` and `code.slice(-1)` of a code that is not empty
abbrev pub but_last : Text → Text
but_last [] = []
but_last (c ∷ []) = []
but_last (c ∷ d ∷ s) = c ∷ but_last (d ∷ s)

abbrev pub last : Text → ℕ
last [] = 48
last (c ∷ []) = c
last (c ∷ d ∷ s) = last (d ∷ s)

unfoldable pub verify_gs1_mod10 : Text → ℕ → Bool
unfolding gs1_mod10_check_digit
verify_gs1_mod10 code len =
    if not (not (length code == 0) && all is_digit code)
    then false
    else if not (length code == len)
    then false
    else gs1_mod10_check_digit (but_last code) == digit (last code)
