-- ===== src/Cards/Schema/Completing.antt =====
-- What the filling in of attributes writes, and what the check of the filled attributes reports.
use mark_solutions.Base.{
  Bool, true, ◌&&◌, Option, none, some, [], if◌then◌else◌, any, Text, text, text_eq,
}
use mark_solutions.Store.{Value, str}
use mark_solutions.Cards.Schema.{a_auto, is_blank}

-- The participant's value, or the empty text.
abbrev pub given : (Text → Option Text) → Text → Text
given tenant k = elim (tenant k) [ none ↦ [] | some v ↦ v ]

-- A value after a loop that may write one text.
abbrev written : Bool → Text → Option Value → Option Value
written b w v = if b && is_blank v then some (str w) else v

-- The only value that stands in for one that was not given.
abbrev pub litre : Text
litre = text "л"

abbrev is_litre : Option Text → Bool
is_litre none = true
is_litre (some v) = text_eq v litre

-- An attribute of the automatic tier.
abbrev pub is_automatic : Text → Bool
is_automatic k = any (λ d. text_eq d.key k) a_auto

-- What an attribute is after the filling in.
abbrev pub completed : (Text → Option Text) → Text → Option Value → Option Value
completed tenant k v =
    written (text_eq (text "volumeUnit") k) litre (written (is_automatic k) (given tenant k) v)
