-- ===== src/Supervisor/Processes/Redact/Complete.antt =====
-- internal/supervisor/procfs.go: what stands behind the secret flags of a redacted command line.
use lemul.Prelude.{
  ◌≡◌, ◌≢◌, refl, sym, List, [], ◌∷◌, ◌++◌, Option, none, some, Bool, true, false, if◌then◌else◌,
  All, inl, inr, Bool-cases, subst, if_elim, All-append, arith,
}
use lemul.Prelude.Text.{Bytes, bytes, cut, cut_on, cut-append, cut-split, equal, equal_iff}
use lemul.Supervisor.Processes.Redact.Fields.{
  Spaceless, split-Spaceless, Spaceless-front, Spaceless-redacted, split-join,
}
use lemul.Supervisor.Processes.Redact.{
  secret_flags, is_member, is_secret, redacted, assigned_on, field_on, redact_fields, split, join,
  redact_secrets,
}

-- An assignment to a secret has no other value.
abbrev pub IsHidden : Bytes → Type 0
IsHidden f = (k v : Bytes) → cut b'=' f ≡ some (k, v) → is_secret k ≡ true → v ≡ redacted

-- Behind a secret flag comes no other value.
abbrev pub Follows : Bool → List Bytes → Type 0
Follows false r = Unit
Follows true [] = Unit
Follows true (g ∷ r) = g ≡ redacted

abbrev pub IsRedacted : List Bytes → Type 0
IsRedacted [] = Unit
IsRedacted (f ∷ r) = IsHidden f × Follows (is_secret f) r × IsRedacted r

is_member-All :
    (P : Bytes → Type 0) (fs : List Bytes) (k : Bytes) → All P fs → is_member fs k ≡ true → P k
unfolding is_member
is_member-All P [] k h m = cc m
is_member-All P (f ∷ fs) k h m = elim (Bool-cases (equal f k)) [
  | inl e ↦ subst P ((equal_iff f k).0 e) h.0
  | inr e ↦ is_member-All P fs k h.1 (ground arith)
]

-- No secret flag has an equals sign.
is_secret-no_equals : (f : Bytes) → is_secret f ≡ true → cut b'=' f ≡ none
unfolding secret_flags cut cut_on bytes
is_secret-no_equals f h =
    is_member-All (λ f. cut b'=' f ≡ none) secret_flags f
      (
        refl,
        (
          refl,
          (
            refl,
            (
              refl,
              (refl, (refl, (refl, (refl, (refl, (refl, (refl, (refl, (refl, (refl, tt)))))))))),
            ),
          ),
        ),
      )
      h

-- The replaced field and the replaced value are what they should be.
IsHidden-redacted : IsHidden redacted
unfolding redacted bytes cut cut_on
IsHidden-redacted k v e s = cc e

cut-assigned :
    (k v : Bytes) (f : Bytes)
    → cut b'=' f ≡ some (k, v)
    → cut b'=' (k ++ (b'=' ∷ redacted)) ≡ some (k, redacted)
cut-assigned k v f e = cut-append b'=' k redacted (cut-split b'=' f k v e).1

is_secret-assigned : (k w v : Bytes) → cut b'=' k ≡ some (w, v) → is_secret k ≡ false
is_secret-assigned k w v e = elim (Bool-cases (is_secret k)) [
  | inl s ↦ cc (e, is_secret-no_equals k s)
  | inr s ↦ s
]

Follows-none : (b : Bool) (r : List Bytes) → b ≡ false → Follows b r
Follows-none true r e = cc e
Follows-none false r e = tt

module _ (f : Bytes) (kept over : List Bytes) (hk : IsRedacted kept) (ho : IsRedacted over)
    (hf : Follows true over) where
  -- A field that stays as it is.
  unassigned-IsRedacted :
      (b : Bool) → is_secret f ≡ b → IsHidden f → IsRedacted (field_on none b f kept over)
  unfolding field_on
  unassigned-IsRedacted true e h = (h, subst (λ c. Follows c over) (sym e) hf, ho)
  unassigned-IsRedacted false e h = (h, Follows-none (is_secret f) kept e, hk)

  assigned-IsRedacted :
      (k v : Bytes) (b : Bool)
      → cut b'=' f ≡ some (k, v)
      → is_secret k ≡ b
      → IsRedacted
          (field_on (if b then some (k ++ b'=' ∷ redacted) else none) (is_secret f) f kept over)
  unfolding field_on
  assigned-IsRedacted k v true n e =
      let same = cut-assigned k v f n in
      ((λ k' v' a s. cc (a, same)), Follows-none _ kept (is_secret-assigned _ k redacted same), hk)
  assigned-IsRedacted k v false n e =
      unassigned-IsRedacted (is_secret f) refl (λ k' v' a s. cc (a, n, e, s))

  field_on-IsRedacted :
      (o : Option (Bytes × Bytes))
      → cut b'=' f ≡ o
      → IsRedacted (field_on (assigned_on o) (is_secret f) f kept over)
  unfolding assigned_on
  field_on-IsRedacted none n = unassigned-IsRedacted (is_secret f) refl (λ k v a s. cc (n, a))
  field_on-IsRedacted (some (k, v)) n = assigned-IsRedacted k v (is_secret k) n refl

redacted-plain : is_secret redacted ≡ false
unfolding is_member secret_flags equal bytes redacted
redacted-plain = refl

pub redact_fields-IsRedacted :
    (fs : List Bytes)
    → IsRedacted (redact_fields false fs)
      × IsRedacted (redact_fields true fs)
      × Follows true (redact_fields true fs)
unfolding redact_fields
redact_fields-IsRedacted [] = (tt, tt, tt)
redact_fields-IsRedacted (f ∷ fs) =
    let ih = redact_fields-IsRedacted fs in
    (
      field_on-IsRedacted f (redact_fields false fs) (redact_fields true fs) ih.0 ih.1 ih.2
          (cut b'=' f) refl,
      (IsHidden-redacted, Follows-none (is_secret redacted) _ redacted-plain, ih.0),
      refl,
    )

kept-Spaceless :
    (f : Bytes) (b : Bool) (kept over : List Bytes)
    → Spaceless f
    → All Spaceless kept
    → All Spaceless over
    → All Spaceless (field_on none b f kept over)
unfolding field_on
kept-Spaceless f true kept over hf hk ho = (hf, ho)
kept-Spaceless f false kept over hf hk ho = (hf, hk)

field_on-Spaceless :
    (f : Bytes) (o : Option (Bytes × Bytes)) (b : Bool) (kept over : List Bytes)
    → cut b'=' f ≡ o
    → Spaceless f
    → All Spaceless kept
    → All Spaceless over
    → All Spaceless (field_on (assigned_on o) b f kept over)
unfolding field_on assigned_on
field_on-Spaceless f none b kept over n hf hk ho = kept-Spaceless f b kept over hf hk ho
field_on-Spaceless f (some (k, v)) b kept over n hf hk ho =
    let front = Spaceless-front k _ (subst Spaceless (cut-split b'=' f k v n).0 hf) in
    if_elim (λ o. All Spaceless (field_on o b f kept over)) (is_secret k)
      (some (k ++ b'=' ∷ redacted)) none
      (All-append (λ c. c ≢ 32) k (b'=' ∷ redacted) front (omega arith, Spaceless-redacted), hk)
      (kept-Spaceless f b kept over hf hk ho)

redact_fields-Spaceless :
    (fs : List Bytes)
    → All Spaceless fs
    → All Spaceless (redact_fields false fs) × All Spaceless (redact_fields true fs)
unfolding redact_fields
redact_fields-Spaceless [] h = (tt, tt)
redact_fields-Spaceless (f ∷ fs) h =
    let ih = redact_fields-Spaceless fs h.1 in
    (
      field_on-Spaceless f (cut b'=' f) (is_secret f) _ _ refl h.0 ih.0 ih.1,
      (Spaceless-redacted, ih.0),
    )

nothing-plain : is_secret [] ≡ false
unfolding is_member secret_flags equal bytes
nothing-plain = refl

IsRedacted-join :
    (gs : List Bytes) → All Spaceless gs → IsRedacted gs → IsRedacted (split 32 (join 32 gs))
unfolding join split cut
IsRedacted-join [] h r = ((λ k v a s. cc a), Follows-none (is_secret []) [] nothing-plain, tt)
IsRedacted-join (w ∷ ws) h r = subst IsRedacted (sym (split-join w ws h)) r

split-IsRedacted : (s : Bytes) → IsRedacted (split 32 (redact_secrets s))
unfolding redact_secrets join
split-IsRedacted [] = IsRedacted-join [] tt tt
split-IsRedacted (c ∷ s) =
    IsRedacted-join (redact_fields false (split 32 (c ∷ s)))
      (redact_fields-Spaceless (split 32 (c ∷ s)) (split-Spaceless (c ∷ s))).0
      (redact_fields-IsRedacted (split 32 (c ∷ s))).0

-- The flags whose values are hidden.
abbrev pub hidden_flags : List Bytes
hidden_flags =
    bytes "-token"
    ∷ bytes "--token"
    ∷ bytes "-gateway-key"
    ∷ bytes "--gateway-key"
    ∷ bytes "-key"
    ∷ bytes "--key"
    ∷ bytes "-secret"
    ∷ bytes "--secret"
    ∷ bytes "-password"
    ∷ bytes "--password"
    ∷ bytes "-api-key"
    ∷ bytes "--api-key"
    ∷ bytes "-credential"
    ∷ bytes "--credential"
    ∷ []

hidden_flags-secret : All (λ f. is_secret f ≡ true) hidden_flags
unfolding is_member secret_flags equal bytes
hidden_flags-secret = (
  refl,
  (
    refl,
    (
      refl,
      (refl, (refl, (refl, (refl, (refl, (refl, (refl, (refl, (refl, (refl, (refl, tt))))))))))),
    ),
  ),
)

-- Split at its spaces, a command line that redactSecrets returned has `<redacted>` and nothing else as
-- the field behind a secret flag, and behind the equals sign of one, whatever the line was, also where
-- flags follow one another or come last; and the flags for a token, a gateway key, a key, a secret, a
-- password, an API key and a credential, with one dash or two, are secret. Of a secret in another
-- shape, and of what comes after a space in one, it says nothing.
pub redact_secrets-IsRedacted :
    (s : Bytes)
    → IsRedacted (split 32 (redact_secrets s)) × All (λ f. is_secret f ≡ true) hidden_flags
redact_secrets-IsRedacted s = (split-IsRedacted s, hidden_flags-secret)
