-- ===== src/Strconv.antt =====
-- What the program takes from Go's strconv: Atoi and Itoa over bytes, on a 64-bit int.
pub mod RoundTrip
use lemul.Prelude.{
  ℕ, zero, suc, ◌+◌, ◌-◌, ◌*◌, ◌/◌, ◌%◌, ◌^◌, List, [], ◌∷◌, Option, none, some, Bool, true, false,
  ◌&&◌, leb, ltb, ◌==◌, if◌then◌else◌,
}
use lemul.Prelude.Int.{ℤ, pos, negsuc}

-- The value of a run of digits after a prefix of value `n`; `none` at any other byte.
unfoldable pub digits_value : ℕ → List ℕ → Option ℕ
digits_value n [] = some n
digits_value n (c ∷ s) =
    let rest = digits_value (n * 10 + (c - 48)) s in if leb 48 c && leb c 57 then rest else none

abbrev pub int_limit : ℕ
int_limit = 2 ^ 63

-- -n
unfoldable pub negate : ℕ → ℤ
negate zero = pos zero
negate (suc n) = negsuc n

-- At least one digit.
unfoldable pub unsigned : List ℕ → Option ℕ
unsigned [] = none
unsigned (c ∷ s) = digits_value 0 (c ∷ s)

unfoldable pub atoi_negative : List ℕ → Option ℤ
atoi_negative s = elim (unsigned s) [
  | none ↦ none
  | some n ↦ if leb n int_limit then some (negate n) else none
]

unfoldable pub atoi_positive : List ℕ → Option ℤ
atoi_positive s = elim (unsigned s) [
  | none ↦ none
  | some n ↦ if ltb n int_limit then some (pos n) else none
]

-- strconv.Atoi, `none` for both of its errors (syntax and range).
unfoldable pub atoi : List ℕ → Option ℤ
atoi [] = none
atoi (c ∷ s) =
    if c == b'-'
    then atoi_negative s
    else if c == b'+'
    then atoi_positive s
    else atoi_positive (c ∷ s)

-- The decimal digits of `n` before `acc`. Twenty rounds are enough for every 64-bit number.
unfoldable pub digits : ℕ → ℕ → List ℕ → List ℕ
digits zero n acc = acc
digits (suc f) n acc =
    let rest = digits f (n / 10) ((48 + n % 10) ∷ acc) in if ltb n 10 then (48 + n) ∷ acc else rest

-- strconv.Itoa
unfoldable pub itoa : ℤ → List ℕ
itoa (pos n) = digits 20 n []
itoa (negsuc n) = b'-' ∷ digits 20 (n + 1) []

-- The range of a 64-bit int.
abbrev pub fits_int : ℤ → Bool
fits_int (pos n) = ltb n int_limit
fits_int (negsuc n) = ltb n int_limit
