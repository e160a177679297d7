-- ===== src/Lem/Detach/Sequences.antt =====
-- cmd/lem/detach.go: what a control sequence says, and which of them are the detach key.
use lemul.Prelude.{
  ℕ, zero, suc, ◌+◌, ◌*◌, ◌/◌, ◌%◌, ◌<◌, ◌≤◌, ◌≡◌, ◌≢◌, refl, sym, ap, ◌∙◌, List, [], ◌∷◌, ◌++◌,
  some, true, false, ◌==◌, if_true, if_false, inl, inr, Bool-cases, map, arith, All, All-append,
  subst,
}
use lemul.Prelude.Int.{ℤ, pos, negsuc, eqb_ℤ_iff}
use lemul.Strconv.{atoi, itoa, fits_int, int_limit}
use lemul.Strconv.RoundTrip.{IsNumeral, itoa-All, atoi-itoa}
use lemul.Lem.Detach.{
  bracket_key, has_ctrl, before_colon, push_head, fields, number_or, split_params, is_detach_u,
  is_detach_tilde, is_detach_seq, parse_csi, push_param,
}

-- A byte of the parameters of a sequence, and of one of its fields.
abbrev pub IsParam : ℕ → Type 0
IsParam c = c < 0x40

abbrev pub InField : ℕ → Type 0
InField c = (c < 0x40) × (c ≢ b';')

abbrev pub IsFinal : ℕ → Type 0
IsFinal c = (0x40 ≤ c) × (c ≤ 0x7e)

-- A field and its number: nothing, or a decimal number, with sub-parameters behind a colon or without.
pub data Field : List ℕ → ℤ → Type 0 where
  empty : Field [] (negsuc 0)
  number : (n : ℕ) → n < int_limit → Field (itoa (pos n)) (pos n)
  with_sub :
      (n : ℕ) (sub : List ℕ)
      → n < int_limit
      → All InField sub
      → Field (itoa (pos n) ++ (b':' ∷ sub)) (pos n)

-- The parameters of a sequence and their numbers.
pub data Params : List ℕ → List ℤ → Type 0 where
  last : (f : List ℕ) (z : ℤ) → Field f z → Params f (z ∷ [])
  more :
      (f p : List ℕ) (z : ℤ) (zs : List ℤ)
      → Field f z
      → Params p zs
      → Params (f ++ (b';' ∷ p)) (z ∷ zs)

-- Modifiers with Control: one more than a number in whose binary digits the one of four is set.
pub data HasCtrl : ℤ → Type 0 where
  ctrl : (a b : ℕ) → b < 4 → HasCtrl (pos (8 * a + 5 + b))

-- Ctrl-] in the encoding of the kitty protocol, and in that of modifyOtherKeys.
pub data IsDetach : List ℤ → ℕ → Type 0 where
  kitty : (m : ℤ) (zs : List ℤ) → HasCtrl m → IsDetach (pos 93 ∷ m ∷ zs) b'u'
  modify_other_keys : (m : ℤ) (zs : List ℤ) → HasCtrl m → IsDetach (pos 27 ∷ m ∷ pos 93 ∷ zs) b'~'

numeral-InField : (s : List ℕ) → All IsNumeral s → All InField s
numeral-InField [] h = tt
numeral-InField (c ∷ s) h = ((omega arith, omega arith), numeral-InField s h.1)

itoa-InField : (n : ℕ) → n < int_limit → All InField (itoa (pos n))
itoa-InField n l = numeral-InField (itoa (pos n)) (itoa-All (pos n) (ground (arith, l))).0

Field-All : (f : List ℕ) (z : ℤ) → Field f z → All InField f
Field-All _ _ empty = tt
Field-All _ _ (number n l) = itoa-InField n l
Field-All _ _ (with_sub n sub l h) =
    All-append InField (itoa (pos n)) (b':' ∷ sub) (itoa-InField n l) (omega arith, h)

fields-last : (f : List ℕ) → All InField f → fields f ≡ f ∷ []
unfolding fields push_head
fields-last [] h = refl
fields-last (c ∷ f) h = ground (arith, fields-last f h.1)

fields-more : (f p : List ℕ) → All InField f → fields (f ++ (b';' ∷ p)) ≡ f ∷ fields p
unfolding fields push_head
fields-more [] p h = ground arith
fields-more (c ∷ f) p h = ground (arith, fields-more f p h.1)

colonless : (s : List ℕ) → All IsNumeral s → before_colon s ≡ s
unfolding before_colon
colonless [] h = refl
colonless (c ∷ s) h = ground (arith, colonless s h.1, h.0)

before_colon-append : (s t : List ℕ) → All IsNumeral s → before_colon (s ++ (b':' ∷ t)) ≡ s
unfolding before_colon
before_colon-append [] t h = ground arith
before_colon-append (c ∷ s) t h = ground (arith, before_colon-append s t h.1, h.0)

Field-number : (f : List ℕ) (z : ℤ) → Field f z → number_or (atoi (before_colon f)) ≡ z
unfolding number_or atoi before_colon
Field-number _ _ empty = refl
Field-number _ _ (number n l) =
    let fits : fits_int (pos n) ≡ true = ground (arith, l) in
    ap (λ s. number_or (atoi s)) (colonless (itoa (pos n)) (itoa-All (pos n) fits).0)
    ∙ ap number_or (atoi-itoa (pos n) fits)
Field-number _ _ (with_sub n sub l h) =
    let fits : fits_int (pos n) ≡ true = ground (arith, l) in
    ap (λ s. number_or (atoi s)) (before_colon-append (itoa (pos n)) sub (itoa-All (pos n) fits).0)
    ∙ ap number_or (atoi-itoa (pos n) fits)

split_params-Params : (p : List ℕ) (zs : List ℤ) → Params p zs → split_params p ≡ zs
unfolding split_params
split_params-Params _ _ (last f z h) =
    ap (map (λ f. number_or (atoi (before_colon f)))) (fields-last f (Field-All f z h))
    ∙ ap (λ n. n ∷ []) (Field-number f z h)
split_params-Params _ _ (more f p z zs h r) =
    ap (map (λ f. number_or (atoi (before_colon f)))) (fields-more f p (Field-All f z h))
    ∙ ap (λ n. n ∷ split_params p) (Field-number f z h)
    ∙ ap (λ ns. z ∷ ns) (split_params-Params p zs r)

IsParam-All : (f : List ℕ) → All InField f → All IsParam f
IsParam-All [] h = tt
IsParam-All (c ∷ f) h = (h.0.0, IsParam-All f h.1)

pub Params-All : (p : List ℕ) (zs : List ℤ) → Params p zs → All IsParam p
Params-All _ _ (last f z h) = IsParam-All f (Field-All f z h)
Params-All _ _ (more f p z zs h r) =
    All-append IsParam f (b';' ∷ p) (IsParam-All f (Field-All f z h))
      (omega arith, Params-All p zs r)

has_ctrl-HasCtrl : (z : ℤ) → has_ctrl z ≡ true → HasCtrl z
unfolding has_ctrl
has_ctrl-HasCtrl (pos zero) e = cc e
has_ctrl-HasCtrl (pos (suc m)) e =
    let four : m / 4 % 2 ≡ 1 = ground (arith, e) in
    let parts : 8 * (m / 8) + 5 + m % 4 ≡ suc m = omega (arith, four) in
    let low : m % 4 < 4 = omega arith in
    subst (λ k. HasCtrl (pos k)) parts (ctrl (m / 8) (m % 4) low)
has_ctrl-HasCtrl (negsuc m) e = cc e

HasCtrl-has_ctrl : (z : ℤ) → HasCtrl z → has_ctrl z ≡ true
HasCtrl-has_ctrl _ (ctrl a b l) = ap (λ k. has_ctrl (pos k)) next ∙ bit
  where
    next : 8 * a + 5 + b ≡ suc (8 * a + 4 + b)
    next = omega arith

    bit : has_ctrl (pos (suc (8 * a + 4 + b))) ≡ true
    bit = unfold has_ctrl in ground (arith, l)

pub IsDetach-found :
    (p : List ℕ) (zs : List ℤ) (final : ℕ)
    → Params p zs
    → IsDetach zs final
    → is_detach_seq p final ≡ true
unfolding is_detach_seq is_detach_u is_detach_tilde
IsDetach-found p _ _ r (kitty m zs c) =
    ap is_detach_u (split_params-Params p (pos 93 ∷ m ∷ zs) r) ∙ HasCtrl-has_ctrl m c
IsDetach-found p _ _ r (modify_other_keys m zs c) =
    ap is_detach_tilde (split_params-Params p (pos 27 ∷ m ∷ pos 93 ∷ zs) r) ∙ HasCtrl-has_ctrl m c

u-IsDetach : (zs : List ℤ) → is_detach_u zs ≡ true → IsDetach zs b'u'
unfolding is_detach_u
u-IsDetach [] e = cc e
u-IsDetach (k ∷ []) e = cc e
u-IsDetach (k ∷ m ∷ zs) e =
    let key : k ≡ pos 93 = (eqb_ℤ_iff k bracket_key).0 (ground (arith, e)) in
    let mods : has_ctrl m ≡ true = ground (arith, e) in
    subst (λ c. IsDetach (c ∷ m ∷ zs) b'u') (sym key) (kitty m zs (has_ctrl-HasCtrl m mods))

tilde-IsDetach : (zs : List ℤ) → is_detach_tilde zs ≡ true → IsDetach zs b'~'
unfolding is_detach_tilde
tilde-IsDetach [] e = cc e
tilde-IsDetach (c ∷ []) e = cc e
tilde-IsDetach (c ∷ m ∷ []) e = cc e
tilde-IsDetach (c ∷ m ∷ k ∷ zs) e =
    let code : c ≡ pos 27 = (eqb_ℤ_iff c (pos 27)).0 (ground (arith, e)) in
    let key : k ≡ pos 93 = (eqb_ℤ_iff k bracket_key).0 (ground (arith, e)) in
    let mods : has_ctrl m ≡ true = ground (arith, e) in
    subst (λ d. IsDetach (d ∷ m ∷ k ∷ zs) b'~') (sym code)
      (subst (λ d. IsDetach (pos 27 ∷ m ∷ d ∷ zs) b'~') (sym key)
        (modify_other_keys m zs (has_ctrl-HasCtrl m mods)))

pub found-IsDetach :
    (p : List ℕ) (zs : List ℤ) (final : ℕ)
    → Params p zs
    → is_detach_seq p final ≡ true
    → IsDetach zs final
unfolding is_detach_seq
found-IsDetach p zs final r e = elim (Bool-cases (final == b'u')) [
  | inl f ↦
      let key : is_detach_u (split_params p) ≡ true = sym (if_true _ _ f) ∙ e in
      let last : b'u' ≡ final = ground (arith, f) in
      subst (IsDetach zs) last
        (u-IsDetach zs (ap is_detach_u (sym (split_params-Params p zs r)) ∙ key))
  | inr f ↦ elim (Bool-cases (final == b'~')) [
    | inl g ↦
        let key : is_detach_tilde (split_params p) ≡ true =
          sym (if_false _ _ f ∙ if_true _ _ g) ∙ e in
        let last : b'~' ≡ final = ground (arith, g) in
        subst (IsDetach zs) last
          (tilde-IsDetach zs (ap is_detach_tilde (sym (split_params-Params p zs r)) ∙ key))
    | inr g ↦ let no : false ≡ true = sym (if_false _ _ f ∙ if_false _ _ g) ∙ e in cc no
  ]
]

pub parse_csi-append :
    (p : List ℕ) (final : ℕ) (rest : List ℕ)
    → All IsParam p
    → IsFinal final
    → parse_csi (p ++ (final ∷ rest)) ≡ some (p, final, rest)
unfolding parse_csi push_param
parse_csi-append [] final rest h f = ground (arith, f.0, f.1)
parse_csi-append (c ∷ p) final rest h f = ground (arith, parse_csi-append p final rest h.1 f, h.0)
