-- ===== src/Base/Bytes.antt =====
-- Byte strings (`std::string`) as lists of numbers, with the library functions that the program
-- calls on them: comparison, `find`, `substr`, and `std::tolower` in the "C" locale.
use Prim.Native.Nat.{ℕ, zero, suc, ◌+◌, ◌/◌, ◌%◌}
use Prim.Native.Char.{code}
use Prim.Native.String.{String}
use mathlib.Core.Path.{◌≡◌, refl}
use mathlib.Core.Logic.{◌↔◌}
use mathlib.Core.Bool.{Bool, true, false, ◌&&◌, ◌||◌}
use mathlib.Core.List.{List, [], ◌∷◌, ◌++◌, map}
use native.Mathlib.Omega.{arith}
use rats_search_tui.Base.Tests.{leb, ltb, ◌==◌, if◌then◌else◌}
use rats_search_tui.Base.Lists.{null}
use rats_search_tui.Base.Int.{ℤ, pos, negsuc}
use mathlib.Core.Option.{Option, none, some}

abbrev pub Text : Type 0
Text = List ℕ

-- The bytes of an ASCII literal.
abbrev pub codes : String → Text
codes String.[] = []
codes (String.◌∷◌ c s) = code c ∷ codes s

-- operator== of strings
abbrev pub eq_text : Text → Text → Bool
eq_text [] [] = true
eq_text [] (b ∷ t) = false
eq_text (a ∷ s) [] = false
eq_text (a ∷ s) (b ∷ t) = a == b && eq_text s t

pub eq_text→eq : (s t : Text) → eq_text s t ≡ true → s ≡ t
eq_text→eq [] [] h = refl
eq_text→eq [] (b ∷ t) h = cc
eq_text→eq (a ∷ s) [] h = cc
eq_text→eq (a ∷ s) (b ∷ t) h = ground (arith, eq_text→eq s t)

pub eq_text_refl : (s : Text) → eq_text s s ≡ true
eq_text_refl [] = refl
eq_text_refl (a ∷ s) = ground (arith, eq_text_refl s)

pub eq_text_iff : (s t : Text) → (eq_text s t ≡ true) ↔ (s ≡ t)
eq_text_iff s t = (eq_text→eq s t, λ e. rw e (eq_text_refl t))

unfoldable pub lower_byte : ℕ → ℕ
lower_byte c = if leb b'A' c && leb c b'Z' then c + 32 else c

unfoldable pub to_lower : Text → Text
unfolding lower_byte
to_lower s = map lower_byte s

pub lower_byte_idem : (c : ℕ) → lower_byte (lower_byte c) ≡ lower_byte c
unfolding lower_byte
lower_byte_idem c = ground arith

map-lower_byte_idem : (s : Text) → map lower_byte (map lower_byte s) ≡ map lower_byte s
map-lower_byte_idem [] = refl
map-lower_byte_idem (c ∷ s) = cc (lower_byte_idem c, map-lower_byte_idem s)

pub to_lower_idem : (s : Text) → to_lower (to_lower s) ≡ to_lower s
unfolding to_lower
to_lower_idem s = map-lower_byte_idem s

abbrev pub is_prefix : Text → Text → Bool
is_prefix [] t = true
is_prefix (a ∷ s) [] = false
is_prefix (a ∷ s) (b ∷ t) = a == b && is_prefix s t

-- t.find(s) != npos
abbrev pub contains : Text → Text → Bool
contains [] s = is_prefix s []
contains (b ∷ t) s = is_prefix s (b ∷ t) || contains t s

-- std::isdigit, isalpha, isalnum and isxdigit in the "C" locale
abbrev pub is_digit : ℕ → Bool
is_digit c = leb b'0' c && leb c b'9'

abbrev pub is_alnum : ℕ → Bool
is_alnum c = is_digit c || (leb b'A' c && leb c b'Z') || (leb b'a' c && leb c b'z')

abbrev pub is_xdigit : ℕ → Bool
is_xdigit c = is_digit c || (leb b'A' c && leb c b'F') || (leb b'a' c && leb c b'f')

-- s.substr(s.find_first_not_of(…)), and the same from the end
abbrev pub drop_while : (ℕ → Bool) → Text → Text
drop_while p [] = []
drop_while p (a ∷ s) = if p a then drop_while p s else a ∷ s

abbrev pub drop_while_end : (ℕ → Bool) → Text → Text
drop_while_end p [] = []
drop_while_end p (a ∷ s) = let r = drop_while_end p s in if p a && null r then [] else a ∷ r

-- s.find(c): the text before the first `c`, and the text behind it unless there is none.
abbrev pub before_after : ℕ → Text → Text × Option Text
before_after c [] = ([], none)
before_after c (a ∷ s) =
    let (before, after) = before_after c s in if a == c then ([], some s) else (a ∷ before, after)

-- s.substr(s.find_last_of(c) + 1), or none where `c` does not occur
abbrev pub after_last : ℕ → Text → Option Text
after_last c [] = none
after_last c (a ∷ s) = elim (after_last c s) [
  | some r ↦ some r
  | none ↦ if a == c then some s else none
]

-- std::to_string of a number that is not negative: decimal digits, with one round of fuel a digit.
decimal_loop : ℕ → ℕ → Text
decimal_loop zero n = []
decimal_loop (suc f) n =
    let rest = decimal_loop f (n / 10) in
    if ltb n 10 then (b'0' + n) ∷ [] else rest ++ (b'0' + n % 10) ∷ []

unfoldable pub decimal : ℕ → Text
unfolding decimal_loop
decimal n = decimal_loop (suc n) n

unfoldable pub to_string : ℤ → Text
unfolding decimal
to_string (pos n) = decimal n
to_string (negsuc n) = b'-' ∷ decimal (suc n)

to_string_examples :
    (to_string (pos 0) ≡ codes "0")
    × (to_string (negsuc 41) ≡ codes "-42")
    × (to_string (pos 1050) ≡ codes "1050")
unfolding to_string
to_string_examples = (refl, refl, refl)
