-- ===== src/Router/Tiers.antt =====
-- router/grades.py and router/tiers.py: the capability bands and their public labels.
--
-- A grade and a tier are their ordinals. A text is read as its characters' numbers; white space and
-- digits are the ASCII ones.
pub mod Names
pub mod Examples
use Prim.Native.Char.{code}
use Prim.Native.String
use llm_fabric.Prelude.{
  ℕ, ◌+◌, ◌-◌, ◌*◌, ◌/◌, ◌%◌, Bool, true, false, not, ◌&&◌, ◌||◌, Option, none, some, List, [], ◌∷◌,
  ◌++◌, String, keep, nat_beq, leb, ltb, if◌then◌else◌, Result, ok, err, ◌>>=◌,
}
use llm_fabric.Prelude.Int.{ℤ, pos, negsuc}
use llm_fabric.Errors.{ErrorClass}

abbrev pub Grade : Type 0
Grade = ℕ

abbrev pub ServiceTier : Type 0
ServiceTier = ℕ

abbrev pub grade_count : ℕ
grade_count = 30

abbrev pub tier_count : ℕ
tier_count = 31

-- `Grade.from_index`
unfoldable pub from_index : ℤ → Result ErrorClass Grade
from_index (negsuc n) = err ErrorClass.configuration
from_index (pos n) = if ltb n grade_count then ok n else err ErrorClass.configuration

-- `ServiceTier.from_ordinal`
unfoldable pub from_ordinal : ℤ → Result ErrorClass ServiceTier
from_ordinal (negsuc n) = err ErrorClass.configuration
from_ordinal (pos n) = if ltb n tier_count then ok n else err ErrorClass.configuration

-- `min(self.ordinal, _LAST_GRADE_ORDINAL)`
unfoldable pub to_grade : ServiceTier → Grade
to_grade t = if ltb t grade_count then t else 29

-- The first 30 tiers carry the ordinals of the grades.
unfoldable pub from_grade : Grade → ServiceTier
from_grade g = g

-- The grades that are at least as high.
unfoldable pub at_least : Grade → List Grade → List Grade
at_least minimum grades = keep (λ g. leb minimum g) grades

abbrev pub codes : String → List ℕ
codes String.[] = []
codes (String.◌∷◌ c s) = code c ∷ codes s

is_blank : ℕ → Bool
is_blank c = nat_beq c 32 || (leb 9 c && leb c 13)

unfoldable pub drop_blanks : List ℕ → List ℕ
unfolding is_blank
drop_blanks [] = []
drop_blanks (c ∷ cs) = let rest = drop_blanks cs in if is_blank c then rest else c ∷ cs

abbrev pub reversed : List ℕ → List ℕ
reversed [] = []
reversed (c ∷ cs) = reversed cs ++ c ∷ []

unfoldable pub strip : List ℕ → List ℕ
unfolding drop_blanks
strip cs = reversed (drop_blanks (reversed (drop_blanks cs)))

unfoldable pub is_digit : ℕ → Bool
is_digit c = leb 48 c && leb c 57

-- `text.isdigit()`
unfoldable pub all_digits : List ℕ → Bool
unfolding is_digit
all_digits [] = false
all_digits (c ∷ []) = is_digit c
all_digits (c ∷ d ∷ cs) = is_digit c && all_digits (d ∷ cs)

-- `int(text)` of digits, behind the digits that have been read.
unfoldable pub number : ℕ → List ℕ → ℕ
number read [] = read
number read (c ∷ cs) = number (read * 10 + (c - 48)) cs

is_letter_l : ℕ → Bool
is_letter_l c = nat_beq c 76 || nat_beq c 108

as_option : Result ErrorClass ServiceTier → Option ServiceTier
as_option (ok t) = some t
as_option (err e) = none

read_tier : List ℕ → Option ServiceTier
unfolding is_letter_l all_digits number from_ordinal as_option
read_tier [] = none
read_tier (c ∷ cs) =
    if is_letter_l c && all_digits cs then as_option (from_ordinal (pos (number 0 cs))) else none

unfoldable pub parse_service_tier_codes : List ℕ → Option ServiceTier
unfolding strip read_tier
parse_service_tier_codes cs = read_tier (strip cs)

unfoldable pub parse_service_tier : String → Option ServiceTier
unfolding parse_service_tier_codes
parse_service_tier value = parse_service_tier_codes (codes value)
