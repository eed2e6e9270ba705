-- ===== src/Catalog/Km/RoundTrip/Plain.antt =====
-- Codes in a canonical form, and what the reading of one without groups gives.
use mathlib.Core.List.{append_assoc}
use mark_solutions.Base.{
  ℕ, zero, suc, ◌+◌, ◌-◌, ◌≡◌, refl, sym, ◌∙◌, ap, Bool, true, false, ◌&&◌, ◌||◌, not, Option, none,
  some, List, [], ◌∷◌, ◌++◌, arith, ltb, ◌==◌, if◌then◌else◌, length, take, drop, all, all-append,
  length-append, Text, slice, is_empty, drop-append, take-append,
}
use mark_solutions.Catalog.Km.{
  Form, base, extended, Adr006Km, normalize, split_gs, read_parts, is_truthy, parse_head,
  parse_adr006_km, tail_of, serialize_adr006_km,
}

-- A character that is neither the separator nor the start of its literal form.
abbrev pub is_plain : ℕ → Bool
is_plain c = not (c == 29) && not (c == 60)

-- Without `<` the separator's literal form does not occur.
abbrev pub is_open : ℕ → Bool
is_open c = not (c == 60)

pub normalize_plain : (s : Text) → all is_open s ≡ true → normalize s ≡ s
unfolding normalize
normalize_plain [] h = refl
normalize_plain (a ∷ []) h = refl
normalize_plain (a ∷ b ∷ []) h = refl
normalize_plain (a ∷ b ∷ c ∷ []) h = refl
normalize_plain (a ∷ b ∷ c ∷ d ∷ s) h = ground (arith, normalize_plain (b ∷ c ∷ d ∷ s))

pub take_all : (s : Text) (n : ℕ) → n ≡ length s → take n s ≡ s
take_all [] zero h = refl
take_all [] (suc n) h = refl
take_all (c ∷ s) zero h = absurd (omega arith)
take_all (c ∷ s) (suc n) h = ap (◌∷◌ c) (take_all s n (omega arith))

pub split_plain : (s : Text) → all is_plain s ≡ true → split_gs s ≡ (s, [])
unfolding split_gs
split_plain [] h = refl
split_plain (c ∷ s) h = ground (arith, split_plain s)

pub split-append :
    (s t : Text)
    → all is_plain s ≡ true
    → split_gs (s ++ (29 ∷ t)) ≡ (s, (split_gs t).0 ∷ (split_gs t).1)
unfolding split_gs
split-append [] t h = refl
split-append (c ∷ s) t h = ground (arith, split-append s t)

-- A group that the serialised form shows: present, and not empty.
abbrev pub IsGroup : Option Text → Type 0
IsGroup none = Unit
IsGroup (some s) = (is_empty s ≡ false) × (all is_plain s ≡ true)

-- The base form has no groups, and the extended form has at least one.
abbrev pub FormFits : Form → Option Text → Option Text → Type 0
FormFits base none none = Unit
FormFits base _ _ = ⊥
FormFits extended none none = ⊥
FormFits extended _ _ = Unit

pub record IsCanonical (code : Adr006Km) : Type 0 where
  pub gtin14 : length code.gtin ≡ 14
  pub gtin_plain : all is_plain code.gtin ≡ true
  pub has_serial : is_empty code.serial ≡ false
  pub serial_plain : all is_plain code.serial ≡ true
  pub ai91_group : IsGroup code.ai91
  pub ai92_group : IsGroup code.ai92
  pub form_fits : FormFits code.form code.ai91 code.ai92

module _ (g ser : Text) (len : length g ≡ 14) (full : is_empty ser ≡ false) where
  abbrev pub head : Text
  head = 48 ∷ 49 ∷ (g ++ (50 ∷ 49 ∷ ser))

  pub head-length : length head ≡ length ser + 18
  head-length = omega (arith, length-append {0} g (50 ∷ 49 ∷ ser), len)

  pub head_tag : take 2 (drop 14 (g ++ (50 ∷ 49 ∷ ser))) ≡ 50 ∷ 49 ∷ []
  head_tag = rw (drop-append g (50 ∷ 49 ∷ ser) 14 len)

  pub head_serial : drop 16 (g ++ (50 ∷ 49 ∷ ser)) ≡ ser
  head_serial =
      ap (drop 16) (sym (append_assoc g (50 ∷ 49 ∷ []) ser))
      ∙ drop-append (g ++ (50 ∷ 49 ∷ [])) ser 16
          (omega (arith, length-append {0} g (50 ∷ 49 ∷ []), len))

  pub serial_slice : slice 18 (length head) head ≡ ser
  serial_slice = rw head_serial (take_all ser (length head - 18) (omega (arith, head-length)))

  pub gtin_slice : slice 2 16 head ≡ g
  gtin_slice = take-append g (50 ∷ 49 ∷ ser) 14 len

  pub not_short : ltb (length head) 18 ≡ false
  not_short = ground (arith, head-length)

  pub gtin_full : is_empty g ≡ false
  gtin_full = by_cases g len
    where
      by_cases : (s : Text) → length s ≡ 14 → is_empty s ≡ false
      by_cases [] h = absurd (omega arith)
      by_cases (c ∷ s) h = refl

  pub parse_head_lem :
      (ai91 ai92 : Option Text)
      → parse_head head ai91 ai92
        ≡ some (record {
          gtin = g;
          serial = ser;
          ai91 = ai91;
          ai92 = ai92;
          form = if is_truthy ai91 || is_truthy ai92 then extended else base;
        })
  unfolding parse_head
  parse_head_lem ai91 ai92 = rw (gtin_slice, serial_slice, not_short, head_tag, gtin_full, full)

pub open_of_plain : (s : Text) → all is_plain s ≡ true → all is_open s ≡ true
open_of_plain [] h = refl
open_of_plain (c ∷ s) h = ground (arith, open_of_plain s)

pub parse_of :
    (s front : Text) (rest : List Text)
    → all is_open s ≡ true
    → split_gs s ≡ (front, rest)
    → parse_adr006_km s
      ≡ parse_head front (read_parts none none rest).0 (read_parts none none rest).1
unfolding parse_adr006_km
parse_of s front rest h e = rw (normalize_plain s h, e) refl

module _ (g ser : Text) (len : length g ≡ 14) (full : is_empty ser ≡ false)
    (g_plain : all is_plain g ≡ true) (ser_plain : all is_plain ser ≡ true) where
  abbrev pub front : Text
  front = 48 ∷ 49 ∷ (g ++ (50 ∷ 49 ∷ ser))

  pub front_plain : all is_plain front ≡ true
  front_plain = rw (all-append is_plain g (50 ∷ 49 ∷ ser), g_plain, ser_plain) refl

  -- The serialised form is the part before the separators, and the groups.
  pub serialize_front :
      (ai91 ai92 : Option Text) (form : Form)
      → serialize_adr006_km
          (record { gtin = g; serial = ser; ai91 = ai91; ai92 = ai92; form = form })
        ≡ front ++ tail_of form ai91 ai92
  unfolding serialize_adr006_km
  serialize_front ai91 ai92 form =
      rw (len)
        (ap (λ s. 48 ∷ 49 ∷ s) (sym (append_assoc g (50 ∷ 49 ∷ ser) (tail_of form ai91 ai92))))

  pub parse_no_group : parse_adr006_km front ≡ parse_head front none none
  unfolding read_parts
  parse_no_group =
      parse_of front front [] (open_of_plain front front_plain) (split_plain front front_plain)

  -- A single group, which starts with its two digits.
  pub parse_group :
      (d : ℕ) (s : Text)
      → all is_plain (57 ∷ d ∷ s) ≡ true
      → parse_adr006_km (front ++ (29 ∷ 57 ∷ d ∷ s))
        ≡ parse_head front
            (read_parts none none ((57 ∷ d ∷ s) ∷ [])).0
            (read_parts none none ((57 ∷ d ∷ s) ∷ [])).1
  parse_group d s h =
      parse_of (front ++ (29 ∷ 57 ∷ d ∷ s)) front ((57 ∷ d ∷ s) ∷ [])
        (rw (all-append is_open front (29 ∷ 57 ∷ d ∷ s), open_of_plain front front_plain)
          (open_of_plain (57 ∷ d ∷ s) h))
        (rw (split-append front (57 ∷ d ∷ s) front_plain, split_plain (57 ∷ d ∷ s) h) refl)

  pub parse_groups :
      (s t : Text)
      → all is_plain s ≡ true
      → all is_plain t ≡ true
      → parse_adr006_km (front ++ (29 ∷ 57 ∷ 49 ∷ (s ++ (29 ∷ 57 ∷ 50 ∷ t))))
        ≡ parse_head front
            (read_parts none none ((57 ∷ 49 ∷ s) ∷ (57 ∷ 50 ∷ t) ∷ [])).0
            (read_parts none none ((57 ∷ 49 ∷ s) ∷ (57 ∷ 50 ∷ t) ∷ [])).1
  parse_groups s t h k =
      parse_of (front ++ (29 ∷ 57 ∷ 49 ∷ (s ++ (29 ∷ 57 ∷ 50 ∷ t)))) front
        ((57 ∷ 49 ∷ s) ∷ (57 ∷ 50 ∷ t) ∷ [])
        (rw
          (
            all-append is_open front (29 ∷ 57 ∷ 49 ∷ (s ++ (29 ∷ 57 ∷ 50 ∷ t))),
            open_of_plain front front_plain,
            all-append is_open s (29 ∷ 57 ∷ 50 ∷ t),
            open_of_plain s h,
          )
          (open_of_plain t k))
        (rw
          (
            split-append front (57 ∷ 49 ∷ (s ++ (29 ∷ 57 ∷ 50 ∷ t))) front_plain,
            split-append (57 ∷ 49 ∷ s) (57 ∷ 50 ∷ t) h,
            split_plain (57 ∷ 50 ∷ t) k,
          )
          refl)
