-- ===== src/Cards/Schema/Filling.antt =====
-- What the filling in of attributes leaves alone.
use mark_solutions.Base.{
  ◌≡◌, refl, ◌∙◌, ◌⊎◌, inl, inr, Bool, true, false, ◌&&◌, ◌||◌, not, Option, none, some, List, [],
  ◌∷◌, ◌++◌, arith, if◌then◌else◌, Bool-cases, is_some, any, all, All, Text, text_eq, text_eq_sound,
  text_eq_refl,
}
use mark_solutions.Store.{Value, str}
use mark_solutions.Cards.{Attributes, get_attribute, set_attribute}
use mark_solutions.Cards.Schema.{
  AttributeDef, a_manual, a_auto, motor_oil_attributes, is_blank, is_demanded, missing_of,
  validate_attributes, filled, fill, tenant_value, default_of, autofill_attributes,
}

-- Two texts that differ are not both equal to a third.
text_eq_differ : (i j k : Text) → text_eq i j ≡ false → text_eq j k ≡ true → text_eq i k ≡ false
text_eq_differ i j k miss h = rw (← text_eq_sound j k h) miss

pub get_attribute-set_attribute :
    (k j : Text) (v : Value) (attrs : Attributes)
    → get_attribute k (set_attribute j v attrs)
      ≡ (if text_eq j k then some v else get_attribute k attrs)
get_attribute-set_attribute k j v [] = refl
get_attribute-set_attribute k j v ((i, w) ∷ attrs) = elim (Bool-cases (text_eq i j)) [
  | inl same ↦ rw (text_eq_sound i j same, text_eq_refl j) (ground arith)
  | inr differ ↦
      rw (differ, get_attribute-set_attribute k j v attrs)
        (elim (Bool-cases (text_eq j k)) [
          | inl hit ↦ rw (hit, text_eq_differ i j k differ hit) refl
          | inr miss ↦ rw miss refl
        ])
]

pub get_attribute-filled :
    (k : Text) (d : AttributeDef) (v : Option Text) (attrs : Attributes)
    → (is_blank (get_attribute k attrs) ≡ false) ⊎ ((is_some v && text_eq d.key k) ≡ false)
    → get_attribute k (filled d v attrs) ≡ get_attribute k attrs
get_attribute-filled k d none attrs h = refl
get_attribute-filled k d (some v) attrs h =
    ground (arith, text_eq_sound d.key k, get_attribute-set_attribute k d.key (str v) attrs)

-- Whether a loop may write an attribute.
abbrev pub fills : (AttributeDef → Option Text) → Text → AttributeDef → Bool
fills value k d = is_some (value d) && text_eq d.key k

get_attribute-fill :
    (value : AttributeDef → Option Text) (k : Text) (defs : List AttributeDef) (attrs : Attributes)
    → any (fills value k) defs ≡ false
    → get_attribute k (fill value defs attrs) ≡ get_attribute k attrs
get_attribute-fill value k [] attrs h = refl
get_attribute-fill value k (d ∷ defs) attrs h =
    get_attribute-fill value k defs (filled d (value d) attrs) (ground arith)
    ∙ get_attribute-filled k d (value d) attrs (inr (ground arith))

get_attribute-fill_given :
    (value : AttributeDef → Option Text) (k : Text) (defs : List AttributeDef) (attrs : Attributes)
    → is_blank (get_attribute k attrs) ≡ false
    → get_attribute k (fill value defs attrs) ≡ get_attribute k attrs
get_attribute-fill_given value k [] attrs h = refl
get_attribute-fill_given value k (d ∷ defs) attrs h =
    let turn = get_attribute-filled k d (value d) attrs (inl h) in
    get_attribute-fill_given value k defs (filled d (value d) attrs) (rw turn h) ∙ turn

-- An attribute that is not blank is not filled in.
pub get_attribute-autofill_attributes :
    (k : Text) (attrs : Attributes) (tenant : Text → Option Text)
    → is_blank (get_attribute k attrs) ≡ false
    → get_attribute k (autofill_attributes attrs tenant) ≡ get_attribute k attrs
unfolding autofill_attributes
get_attribute-autofill_attributes k attrs tenant h =
    let first = get_attribute-fill_given (tenant_value tenant) k a_auto attrs h in
    get_attribute-fill_given default_of k motor_oil_attributes
      (fill (tenant_value tenant) a_auto attrs) (rw first h)
    ∙ first

-- Whether neither loop of the filling in writes an attribute.
abbrev is_left : Text → Bool
is_left k = not (
    any (fills (tenant_value (λ j. none)) k) a_auto
    || any (fills default_of k) motor_oil_attributes)

-- Two objects that agree on the demanded attributes have the same errors.
missing_of_cong :
    (defs : List AttributeDef) (a b : Attributes)
    → All (λ d. (is_demanded d ≡ false) ⊎ (get_attribute d.key a ≡ get_attribute d.key b)) defs
    → missing_of defs a ≡ missing_of defs b
missing_of_cong [] a b h = refl
missing_of_cong (d ∷ defs) a b h = elim h.0 [
  | inl free ↦ rw free (missing_of_cong defs a b h.1)
  | inr same ↦ rw (same, missing_of_cong defs a b h.1) refl
]

neither : (a b : Bool) → not (a || b) ≡ true → (a ≡ false) × (b ≡ false)
neither a b h = ground arith

-- Which attributes the first loop writes does not depend on the participant.
fills-tenant :
    (tenant : Text → Option Text) (k : Text)
    → any (fills (tenant_value tenant) k) a_auto ≡ any (fills (tenant_value (λ j. none)) k) a_auto
unfolding a_auto
fills-tenant tenant k = refl

is_left-fills :
    (tenant : Text → Option Text) (k : Text)
    → is_left k ≡ true
    → (any (fills (tenant_value tenant) k) a_auto ≡ false)
      × (any (fills default_of k) motor_oil_attributes ≡ false)
is_left-fills tenant k h =
    let (first, second) =
      neither (any (fills (tenant_value (λ j. none)) k) a_auto)
        (any (fills default_of k) motor_oil_attributes) h in
    (fills-tenant tenant k ∙ first, second)

first_of : (a b c : Bool) → ((not a || b) && c) ≡ true → a ≡ true → b ≡ true
first_of a b c h k = ground arith

rest_of : (a b : Bool) → (a && b) ≡ true → b ≡ true
rest_of a b h = ground arith

abbrev is_settled : AttributeDef → Bool
is_settled d = not (is_demanded d) || is_left d.key

demanded_left : all is_settled (a_manual ++ a_auto) ≡ true
unfolding a_manual a_auto motor_oil_attributes
demanded_left = refl

get_attribute-is_left :
    (k : Text) (attrs : Attributes) (tenant : Text → Option Text)
    → is_left k ≡ true
    → get_attribute k (autofill_attributes attrs tenant) ≡ get_attribute k attrs
unfolding autofill_attributes
get_attribute-is_left k attrs tenant h =
    let (first, second) = is_left-fills tenant k h in
    get_attribute-fill default_of k motor_oil_attributes (fill (tenant_value tenant) a_auto attrs)
      second
    ∙ get_attribute-fill (tenant_value tenant) k a_auto attrs first

agree :
    (defs : List AttributeDef) (attrs : Attributes) (tenant : Text → Option Text)
    → all is_settled defs ≡ true
    → All
        (λ d.
          (is_demanded d ≡ false)
          ⊎ (get_attribute d.key (autofill_attributes attrs tenant) ≡ get_attribute d.key attrs))
        defs
agree [] attrs tenant h = tt
agree (d ∷ defs) attrs tenant h = (
  elim (Bool-cases (is_demanded d)) [
    | inl yes_so ↦ inr (
        get_attribute-is_left d.key attrs tenant
          (first_of (is_demanded d) (is_left d.key) (all is_settled defs) h yes_so))
    | inr free ↦ inl free
  ],
  agree defs attrs tenant (rest_of (is_settled d) (all is_settled defs) h),
)

-- Filling in the attributes of the participant does not change what is reported as missing: the fields
-- with an error are the same before and after it, whatever the participant's data.
pub validate_attributes-autofill_attributes :
    (attrs : Attributes) (tenant : Text → Option Text)
    → validate_attributes (autofill_attributes attrs tenant) ≡ validate_attributes attrs
unfolding validate_attributes
validate_attributes-autofill_attributes attrs tenant =
    missing_of_cong (a_manual ++ a_auto) (autofill_attributes attrs tenant) attrs
      (agree (a_manual ++ a_auto) attrs tenant demanded_left)
