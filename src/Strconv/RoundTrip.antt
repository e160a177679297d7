-- ===== src/Strconv/RoundTrip.antt =====
-- Atoi reads back what Itoa prints, and what Itoa prints are digits after at most one minus sign.
use lemul.Prelude.{
  ℕ, zero, suc, ◌+◌, ◌/◌, ◌%◌, ◌^◌, ◌≤◌, ◌<◌, ◌≡◌, List, [], ◌∷◌, some, true, arith, ltb, length,
  All, inl, inr, Bool-cases,
}
use lemul.Prelude.Int.{ℤ, pos, negsuc}
use lemul.Strconv.{
  digits_value, int_limit, unsigned, negate, atoi_negative, atoi_positive, atoi, digits, itoa,
  fits_int,
}

abbrev pub IsDigit : ℕ → Type 0
IsDigit c = (48 ≤ c) × (c ≤ 57)

pub digits_value-digits :
    (f n : ℕ) (acc : List ℕ)
    → n < 10 ^ f
    → 0 < f
    → digits_value 0 (digits f n acc) ≡ digits_value n acc
unfolding digits_value digits
digits_value-digits zero n acc h p = absurd (omega arith)
digits_value-digits (suc zero) n acc h p = ground arith
digits_value-digits (suc (suc f)) n acc h p =
    ground (arith, digits_value-digits (suc f) (n / 10) ((48 + n % 10) ∷ acc))

-- The digits of a number are there, and they are digits, at most one for each round.
pub digits-All :
    (f n : ℕ) (acc : List ℕ)
    → 0 < f
    → All IsDigit acc
    → n < 10 ^ f
    → All IsDigit (digits f n acc)
      × (0 < length (digits f n acc))
      × (length (digits f n acc) ≤ f + length acc)
unfolding digits
digits-All zero n acc p h b = absurd (omega arith)
digits-All (suc zero) n acc p h b = elim (Bool-cases (ltb n 10)) [
  | inl e ↦ rw e ((ground arith, h), omega arith, omega arith)
  | inr e ↦ absurd (ground arith)
]
digits-All (suc (suc f)) n acc p h b =
    let ih =
      digits-All (suc f) (n / 10) ((48 + n % 10) ∷ acc) (omega arith) (omega arith, h)
        (grind arith) in
    elim (Bool-cases (ltb n 10)) [
      | inl e ↦ rw e ((ground arith, h), omega arith, omega arith)
      | inr e ↦ rw e (ih.0, ih.1, omega (arith, ih.2))
    ]

unsigned-digits : (n : ℕ) → n ≤ int_limit → unsigned (digits 20 n []) ≡ some n
unsigned-digits n h =
    go (digits 20 n []) (digits-All 20 n [] (omega arith) tt (omega arith)).1
      (digits_value-digits 20 n [] (omega arith) (omega arith))
  where
    go : (s : List ℕ) → 0 < length s → digits_value 0 s ≡ digits_value n [] → unsigned s ≡ some n
    go [] p e = absurd (omega arith)
    go (c ∷ s) p e = unfold unsigned digits_value in e

atoi_of_digits :
    (s : List ℕ) (n : ℕ)
    → All IsDigit s
    → unsigned s ≡ some n
    → n < int_limit
    → atoi s ≡ some (pos n)
unfolding atoi atoi_positive
atoi_of_digits [] n h u l = unfold unsigned in cc
atoi_of_digits (c ∷ s) n h u l = ground arith

-- Atoi reads back what Itoa prints, for every 64-bit integer.
pub atoi-itoa : (z : ℤ) → fits_int z ≡ true → atoi (itoa z) ≡ some z
unfolding itoa
atoi-itoa (pos n) h =
    atoi_of_digits (digits 20 n []) n (digits-All 20 n [] (omega arith) tt (ground arith)).0
      (unsigned-digits n (ground arith)) (ground arith)
atoi-itoa (negsuc n) h =
    let u : unsigned (digits 20 (n + 1) []) ≡ some (n + 1) =
      unsigned-digits (n + 1) (ground arith) in
    unfold atoi atoi_negative negate in ground (arith, u)

abbrev pub IsNumeral : ℕ → Type 0
IsNumeral c = (45 ≤ c) × (c ≤ 57)

IsNumeral-of_digit : (s : List ℕ) → All IsDigit s → All IsNumeral s
IsNumeral-of_digit [] h = tt
IsNumeral-of_digit (c ∷ s) h = (omega arith, IsNumeral-of_digit s h.1)

-- A printed number has at most 21 bytes, and they lie between `-` and `9`.
pub itoa-All : (z : ℤ) → fits_int z ≡ true → All IsNumeral (itoa z) × (length (itoa z) ≤ 21)
unfolding itoa
itoa-All (pos n) h =
    let (d, _, l) = digits-All 20 n [] (omega arith) tt (ground arith) in
    (IsNumeral-of_digit _ d, omega arith)
itoa-All (negsuc n) h =
    let (d, _, l) = digits-All 20 (n + 1) [] (omega arith) tt (ground arith) in
    ((omega arith, IsNumeral-of_digit _ d), omega arith)

-- Atoi's results are 64-bit integers.
pub atoi-fits_int : (s : List ℕ) (z : ℤ) → atoi s ≡ some z → fits_int z ≡ true
unfolding atoi atoi_negative atoi_positive negate
atoi-fits_int [] z h = cc
atoi-fits_int (c ∷ s) z h = ground arith
