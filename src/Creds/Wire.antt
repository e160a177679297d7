-- ===== src/Creds/Wire.antt =====
-- internal/creds/creds.go: the encodings of the payload and of the MAC's input lose nothing.
use mathlib.Core.List.{append_assoc, append-nil}
use lemul.Prelude.{
  ℕ, zero, suc, ◌+◌, ◌≤◌, ◌<◌, ◌≡◌, ◌≢◌, refl, sym, ap, ◌∙◌, List, [], ◌∷◌, ◌++◌, Option, none,
  some, Bool, true, false, All, ltb, if◌then◌else◌, if_false, length, take-append, drop-append,
  length-append, arith,
}
use lemul.Prelude.Int.{pos}
use lemul.Strconv.{atoi, itoa, fits_int, int_limit}
use lemul.Strconv.RoundTrip.{atoi-itoa, itoa-All, IsNumeral}
use lemul.Prelude.Text.{Bytes, cut, cut-append}
use lemul.Creds.{
  AttachClaims, encode_fields, encode_attach, slice_at, field_on, decode_field, Fields, fields,
  invalid, out_of_fuel, decode_round, decode_fields, claims_of, decode_attach, ok, attach_fields,
}

-- A text whose length is a Go int.
abbrev pub Fits : Bytes → Type 0
Fits f = length f < int_limit

numeral-no_colon : (s : Bytes) → All IsNumeral s → All (λ c. c ≢ b':') s
numeral-no_colon [] h = tt
numeral-no_colon (c ∷ s) h = (omega arith, numeral-no_colon s h.1)

slice_at-append : (f rest : Bytes) → slice_at (some (pos (length f))) (f ++ rest) ≡ some (f, rest)
unfolding slice_at
slice_at-append f rest =
    ground (arith, length-append f rest, take-append f rest, drop-append f rest)

decode_field-encode :
    (f rest : Bytes)
    → Fits f
    → decode_field (itoa (pos (length f)) ++ (b':' ∷ (f ++ rest))) ≡ some (f, rest)
unfolding decode_field field_on
decode_field-encode f rest h =
    let fits : fits_int (pos (length f)) ≡ true = ground arith in
    rw
      (
        cut-append b':' (itoa (pos (length f))) (f ++ rest)
            (numeral-no_colon _ (itoa-All (pos (length f)) fits).0),
        atoi-itoa (pos (length f)) fits,
      )
      (slice_at-append f rest)

decode_fields-step :
    (fuel : ℕ) (s : Bytes) (read : List Bytes) (f rest : Bytes)
    → decode_field s ≡ some (f, rest)
    → length (read ++ f ∷ []) ≤ attach_fields
    → decode_fields (suc fuel) s read ≡ decode_fields fuel rest (read ++ f ∷ [])
unfolding decode_fields decode_round decode_field field_on cut
decode_fields-step fuel [] read f rest e h = cc
decode_fields-step fuel (c ∷ s) read f rest e h = rw e (
    if_false {b = ltb attach_fields (length (read ++ f ∷ []))} invalid
      (decode_fields fuel rest (read ++ f ∷ [])) (ground arith))

decode_fields-encode_fields :
    (fuel : ℕ) (fs read : List Bytes)
    → length fs ≤ fuel
    → length read + length fs ≤ attach_fields
    → All Fits fs
    → decode_fields fuel (encode_fields fs) read ≡ fields (read ++ fs)
unfolding encode_fields decode_fields
decode_fields-encode_fields fuel [] read l t h = ap fields (sym (append-nil read))
decode_fields-encode_fields zero (f ∷ fs) read l t h = absurd (omega arith)
decode_fields-encode_fields (suc fuel) (f ∷ fs) read l t h =
    decode_fields-step fuel _ read f (encode_fields fs)
      (decode_field-encode f (encode_fields fs) h.0) (omega (arith, length-append read (f ∷ [])))
    ∙ (decode_fields-encode_fields fuel fs (read ++ f ∷ []) (omega arith)
          (omega (arith, length-append read (f ∷ []))) h.1
        ∙ ap fields (append_assoc read (f ∷ []) fs))

-- What AttachToken can sign: texts whose lengths are Go ints, and an expiry in the range of int64.
pub record IsEncodable (c : AttachClaims) : Type 0 where
  pub session : Fits c.session_id
  pub tenant : Fits c.tenant_id
  pub workspace : Fits c.workspace_name
  pub org : Fits c.org_slug
  pub attach_mode : Fits c.mode
  pub expiry : fits_int c.expires_at ≡ true
  pub single_use : Fits c.nonce

claims_of-fields :
    (c : AttachClaims) (exp : Bytes)
    → atoi exp ≡ some c.expires_at
    → claims_of (
        fields (
          c.session_id ∷ c.tenant_id ∷ c.workspace_name ∷ c.org_slug ∷ c.mode ∷ exp ∷ c.nonce ∷ []))
      ≡ ok c
unfolding claims_of
claims_of-fields c exp e = rw (e, claims_of) refl

-- decodeAttach reads back the claims that encodeAttach wrote, whatever bytes their texts have, also
-- colons and digits, provided that the lengths and the expiry fit 64 bits.
pub decode_attach-encode_attach :
    (c : AttachClaims) → IsEncodable c → decode_attach (encode_attach c) ≡ ok c
unfolding decode_attach encode_attach
decode_attach-encode_attach c h =
    let fits : Fits (itoa c.expires_at) = omega (arith, (itoa-All c.expires_at h.expiry).1) in
    rw
      (decode_fields-encode_fields 8
        (c.session_id
          ∷ c.tenant_id
          ∷ c.workspace_name
          ∷ c.org_slug
          ∷ c.mode
          ∷ itoa c.expires_at
          ∷ c.nonce
          ∷ [])
        [] (omega arith) (omega arith)
        (
          h.session,
          (h.tenant, (h.workspace, (h.org, (h.attach_mode, (fits, (h.single_use, tt)))))),
        ))
      (claims_of-fields c (itoa c.expires_at) (atoi-itoa c.expires_at h.expiry))

-- Two ways to go on that agree, and end, where another field is allowed.
decode_round-same :
    (m n : Bytes → List Bytes → Fields) (read : List Bytes) (o : Option (Bytes × Bytes))
    → ((f s : Bytes)
        → length (read ++ f ∷ []) ≤ attach_fields
        → (m s (read ++ f ∷ []) ≢ out_of_fuel) × (n s (read ++ f ∷ []) ≡ m s (read ++ f ∷ [])))
    → (decode_round m read o ≢ out_of_fuel) × (decode_round n read o ≡ decode_round m read o)
unfolding decode_round
decode_round-same m n read none h = ((λ e. cc), refl)
decode_round-same m n read (some (f, s)) h =
    go (ltb attach_fields (length (read ++ f ∷ []))) (λ b. h f s (ground arith))
  where
    go :
        (b : Bool)
        → (b ≡ false
            → (m s (read ++ f ∷ []) ≢ out_of_fuel) × (n s (read ++ f ∷ []) ≡ m s (read ++ f ∷ [])))
        → ((if b then invalid else m s (read ++ f ∷ [])) ≢ out_of_fuel)
          × ((if b then invalid else n s (read ++ f ∷ []))
              ≡ (if b then invalid else m s (read ++ f ∷ [])))
    go true k = ((λ e. cc), refl)
    go false k = k refl

-- Whichever round comes next, with enough of them left for the fields that are still allowed.
decode_fields-enough :
    (fuel more : ℕ) (s : Bytes) (read : List Bytes)
    → length read ≤ attach_fields
    → attach_fields < length read + fuel
    → fuel ≤ more
    → (decode_fields fuel s read ≢ out_of_fuel)
      × (decode_fields more s read ≡ decode_fields fuel s read)
unfolding decode_fields
decode_fields-enough fuel more [] read l h p = ((λ e. cc), refl)
decode_fields-enough zero more (c ∷ s) read l h p = absurd (omega arith)
decode_fields-enough (suc fuel) zero (c ∷ s) read l h p = absurd (omega arith)
decode_fields-enough (suc fuel) (suc more) (c ∷ s) read l h p =
    decode_round-same (decode_fields fuel) (decode_fields more) read (decode_field (c ∷ s))
      (λ f rest b.
        decode_fields-enough fuel more rest (read ++ f ∷ []) b
          (omega (arith, length-append read (f ∷ []))) (omega arith))

-- decodeAttach's loop ends within eight rounds on every payload, however long: it does not run out
-- of fuel, and more rounds would change nothing.
pub decode_fields-ends :
    (fuel : ℕ) (s : Bytes)
    → 8 ≤ fuel
    → (decode_fields 8 s [] ≢ out_of_fuel) × (decode_fields fuel s [] ≡ decode_fields 8 s [])
decode_fields-ends fuel s h = decode_fields-enough 8 fuel s [] (omega arith) (omega arith) h
