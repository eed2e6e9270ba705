-- ===== src/Catalog/Km/RoundTrip.antt =====
-- Parsing what was serialised gives the code back.
mod Plain
use mathlib.Core.List.{append_assoc}
use mark_solutions.Base.{
  ℕ, zero, suc, ◌+◌, ◌-◌, ◌≡◌, ◌≢◌, refl, sym, ◌∙◌, ap, ap₂, Bool, true, false, ◌&&◌, ◌||◌, not,
  Option, none, some, List, [], ◌∷◌, ◌++◌, arith, ltb, ◌==◌, if◌then◌else◌, length, take, drop, all,
  all-append, length-append, Text, slice, is_empty, drop-append, take-append,
}
use mark_solutions.Catalog.Km.{
  Form, base, extended, Adr006Km, normalize, split_gs, read_parts, is_truthy, parse_head,
  parse_adr006_km, tail_of, serialize_adr006_km, raw_string_of,
}
pub use Plain.*

append_nil : (s : Text) → s ++ [] ≡ s
append_nil [] = refl
append_nil (c ∷ s) = ap (◌∷◌ c) (append_nil s)

value_of_group : (d : ℕ) (s : Text) → slice 2 (length (57 ∷ d ∷ s)) (57 ∷ d ∷ s) ≡ s
value_of_group d s = take_all s (length (57 ∷ d ∷ s) - 2) (omega arith)

value_slice : (s : Text) → take (suc (suc (length s)) - 2) s ≡ s
value_slice s = take_all s (suc (suc (length s)) - 2) (omega arith)

read_91 : (s : Text) → read_parts none none ((57 ∷ 49 ∷ s) ∷ []) ≡ (some s, none)
unfolding read_parts
read_91 s = ap (λ v. (some v, none)) (value_slice s)

read_92 : (s : Text) → read_parts none none ((57 ∷ 50 ∷ s) ∷ []) ≡ (none, some s)
unfolding read_parts
read_92 s = ap (λ v. (none, some v)) (value_slice s)

read_both :
    (s t : Text) → read_parts none none ((57 ∷ 49 ∷ s) ∷ (57 ∷ 50 ∷ t) ∷ []) ≡ (some s, some t)
unfolding read_parts
read_both s t = ap₂ (λ v w. (some v, some w)) (value_slice s) (value_slice t)

module _ (g ser : Text) (len : length g ≡ 14) (full : is_empty ser ≡ false)
    (g_plain : all is_plain g ≡ true) (ser_plain : all is_plain ser ≡ true) where
  abbrev code_with : Option Text → Option Text → Form → Adr006Km
  code_with ai91 ai92 form = record {
    gtin = g;
    serial = ser;
    ai91 = ai91;
    ai92 = ai92;
    form = form;
  }

  parse_by_groups :
      (ai91 ai92 : Option Text) (form : Form)
      → IsGroup ai91
      → IsGroup ai92
      → FormFits form ai91 ai92
      → parse_adr006_km (front g ser len full g_plain ser_plain ++ tail_of form ai91 ai92)
        ≡ some (code_with ai91 ai92 form)
  parse_by_groups none none base a b f =
      rw
        (
          append_nil (front g ser len full g_plain ser_plain),
          parse_no_group g ser len full g_plain ser_plain,
        )
        (parse_head_lem g ser len full none none)
  parse_by_groups (some s) none extended a b f =
      rw
        (
          a.0,
          append_nil s,
          parse_group g ser len full g_plain ser_plain 49 s a.1,
          read_91 s,
          parse_head_lem g ser len full (some s) none,
          a.0,
        )
        refl
  parse_by_groups none (some t) extended a b f =
      rw
        (
          b.0,
          parse_group g ser len full g_plain ser_plain 50 t b.1,
          read_92 t,
          parse_head_lem g ser len full none (some t),
          b.0,
        )
        refl
  parse_by_groups (some s) (some t) extended a b f =
      rw
        (
          a.0,
          b.0,
          parse_groups g ser len full g_plain ser_plain s t a.1 b.1,
          read_both s t,
          parse_head_lem g ser len full (some s) (some t),
          a.0,
        )
        refl
  parse_by_groups none none extended a b f = absurd f
  parse_by_groups (some s) none base a b f = absurd f
  parse_by_groups none (some t) base a b f = absurd f
  parse_by_groups (some s) (some t) base a b f = absurd f

-- A canonical code (a GTIN of 14 characters, a serial that is not empty, groups that are not empty
-- and present exactly when the form is extended, and no separator or `<` anywhere) is read back
-- from its serialised form.
pub parse-serialize :
    (code : Adr006Km) → IsCanonical code → parse_adr006_km (serialize_adr006_km code) ≡ some code
parse-serialize code h =
    rw
      (serialize_front code.gtin code.serial h.gtin14 h.has_serial h.gtin_plain h.serial_plain
        code.ai91 code.ai92 code.form)
      (parse_by_groups code.gtin code.serial h.gtin14 h.has_serial h.gtin_plain h.serial_plain
        code.ai91 code.ai92 code.form h.ai91_group h.ai92_group h.form_fits)

-- What the label carries is the serialised form, unless the GTIN is one of 13 characters.
raw_string-serialize :
    (code : Adr006Km) → length code.gtin ≢ 13 → raw_string_of code ≡ serialize_adr006_km code
unfolding raw_string_of serialize_adr006_km
raw_string-serialize code h = ground arith

-- The text of the label of a canonical code, which `rawStringOf` writes, is read back as the code.
pub parse-raw_string_of :
    (code : Adr006Km) → IsCanonical code → parse_adr006_km (raw_string_of code) ≡ some code
parse-raw_string_of code h =
    rw (raw_string-serialize code (λ e. omega (arith, e, h.gtin14))) (parse-serialize code h)
