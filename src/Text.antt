-- ===== src/Text.antt =====
-- C strings as lists of character codes, and what the configuration and the groups of services use
-- of the C library on them: strcmp, sscanf with %s and %d, atoi.
pub mod Equal
use Prim.Native.Char.{code}
use Prim.Native.String.{String}
use sserver.Prelude.{
  ℕ, zero, suc, ◌+◌, ◌-◌, ◌*◌, ◌%◌, ◌^◌, Bool, true, false, ◌&&◌, ◌||◌, List, [], ◌∷◌, Option, none,
  some, leb, ◌==◌, if◌then◌else◌, ℤ, pos, negsuc,
}

abbrev pub Text : Type 0
Text = List ℕ

-- the text of a literal
abbrev pub codes : String → Text
codes String.[] = []
codes (String.◌∷◌ c s) = code c ∷ codes s

-- whether strcmp gives 0
unfoldable pub text_eq : Text → Text → Bool
text_eq [] [] = true
text_eq [] (d ∷ ds) = false
text_eq (c ∷ cs) [] = false
text_eq (c ∷ cs) (d ∷ ds) = c == d && text_eq cs ds

-- isspace
unfoldable pub is_space : ℕ → Bool
is_space c = c == 32 || (leb 9 c && leb c 13)

unfoldable pub is_digit : ℕ → Bool
is_digit c = leb 48 c && leb c 57

unfoldable pub skip_space : Text → Text
skip_space [] = []
skip_space (c ∷ cs) = if is_space c then skip_space cs else c ∷ cs

-- the characters before the first space, and the rest
unfoldable pub span_word : Text → Text × Text
span_word [] = ([], [])
span_word (c ∷ cs) =
    let rest = span_word cs in if is_space c then ([], c ∷ cs) else (c ∷ rest.0, rest.1)

unfoldable pub first_word : Text → Option (Text × Text)
first_word [] = none
first_word (c ∷ cs) = some (span_word (c ∷ cs))

-- %s
unfoldable pub scan_word : Text → Option (Text × Text)
unfolding first_word
scan_word t = first_word (skip_space t)

unfoldable pub scan_digits : ℕ → Text → ℕ × Text
scan_digits n [] = (n, [])
scan_digits n (c ∷ cs) = if is_digit c then scan_digits (10 * n + (c - 48)) cs else (n, c ∷ cs)

unfoldable pub scan_nat : Text → Option (ℕ × Text)
unfolding scan_digits
scan_nat [] = none
scan_nat (c ∷ cs) = if is_digit c then some (scan_digits 0 (c ∷ cs)) else none

unfoldable pub negate : ℕ → ℤ
negate zero = pos 0
negate (suc n) = negsuc n

unfoldable pub with_sign : (ℕ → ℤ) → Option (ℕ × Text) → Option (ℤ × Text)
with_sign f none = none
with_sign f (some r) = some (f r.0, r.1)

unfoldable pub scan_signed : Text → Option (ℤ × Text)
unfolding scan_nat with_sign negate
scan_signed [] = none
scan_signed (c ∷ cs) =
    if c == 45
    then with_sign negate (scan_nat cs)
    else if c == 43
    then with_sign pos (scan_nat cs)
    else with_sign pos (scan_nat (c ∷ cs))

-- %d, of numbers that an int holds
unfoldable pub scan_int : Text → Option (ℤ × Text)
unfolding scan_signed
scan_int t = scan_signed (skip_space t)

unfoldable pub atoi : Text → ℤ
unfolding scan_int
atoi t = elim (scan_int t) [ none ↦ pos 0 | some r ↦ r.0 ]

-- the conversion of an int to an unsigned integer of `w` bits
unfoldable pub to_unsigned : ℕ → ℤ → ℕ
to_unsigned w (pos n) = n % 2 ^ w
to_unsigned w (negsuc n) = 2 ^ w - 1 - n % 2 ^ w
