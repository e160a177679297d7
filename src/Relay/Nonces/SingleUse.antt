-- ===== src/Relay/Nonces/SingleUse.antt =====
-- A credential is accepted once.
use Prim.Native.String.{String}
use lemul.Prelude.{
  ℕ, ◌+◌, ◌≤◌, ◌<◌, ◌≡◌, refl, sym, ap, ◌∙◌, subst, List, [], ◌∷◌, Option, none, some, Bool, true,
  false, ltb, ltb_false→le, ◌&&◌, arith, if◌then◌else◌, if_true, if_false, Bool-cases, inl, inr,
  All, ◌⊎◌,
}
use lemul.Prelude.Dict.{string_key, eqb, eqb_iff, lookup, lookup-put}
use lemul.Relay.Nonces.{
  AttachClaims, Seen, swept, use_on, use_nonce, verify_attach, redeem_on, redeem_attach,
}

-- One call of redeemAttach: the claims of its token, and the times of its check and of its use.
pub record Attempt : Type 0 where
  pub token : Option AttachClaims
  pub checked : ℕ
  pub used : ℕ

abbrev pub is_for : String → Option AttachClaims → Bool
is_for n none = false
is_for n (some c) = eqb c.nonce n

-- How many of the attempts with a nonce are accepted.
unfoldable pub accepted : String → List Attempt → Seen → ℕ
accepted n [] d = 0
accepted n (a ∷ as_left) d =
    let (ok, d') = redeem_attach a.token a.checked a.used d in
    (if is_for n a.token && ok then 1 else 0) + accepted n as_left d'

-- The attempts' clock does not run backwards.
abbrev pub InOrder : ℕ → List Attempt → Type 0
InOrder last [] = Unit
InOrder last (a ∷ rest) = (last ≤ a.used) × InOrder a.used rest

-- A token of the nonce `n` expires at `e`, and where it is checked in time it is used in time.
abbrev pub IsTimely : String → ℕ → Attempt → Type 0
IsTimely n e a =
    is_for n a.token ≡ true
    → (c : AttachClaims) → a.token ≡ some c
    → (c.expires_at ≡ e) × (a.checked ≤ e → a.used ≤ e)

lookup-swept :
    (n : String) (e now : ℕ) (d : Seen)
    → lookup n d ≡ some e
    → ltb e now ≡ false
    → lookup n (swept now d) ≡ some e
unfolding lookup swept
lookup-swept n e now [] h l = cc
lookup-swept n e now ((k, x) ∷ d) h l = ground (arith, lookup-swept n e now d)

-- What is remembered of the nonce, or why it need not be.
abbrev Spent : String → ℕ → ℕ → Seen → Type 0
Spent n e last d = (lookup n d ≡ some e) ⊎ (e < last)

Spent-later :
    (n : String) (e last now : ℕ) (d : Seen) → last ≤ now → Spent n e last d → Spent n e now d
Spent-later n e last now d o (inl h) = inl h
Spent-later n e last now d o (inr h) = inr (omega arith)

Spent-swept :
    (n : String) (e last now : ℕ) (d : Seen)
    → last ≤ now
    → Spent n e last d
    → Spent n e now (swept now d)
Spent-swept n e last now d o (inr h) = inr (omega arith)
Spent-swept n e last now d o (inl h) = elim (Bool-cases (ltb e now)) [
  | inl l ↦ inr (ground arith)
  | inr l ↦ inl (lookup-swept n e now d h l)
]

-- Another nonce's use.
use_on-Spent :
    (n m : String) (e x now : ℕ) (o : Option ℕ) (d : Seen)
    → eqb m n ≡ false
    → Spent n e now d
    → Spent n e now (use_on m x o d).1
unfolding use_on
use_on-Spent n m e x now (some y) d q h = h
use_on-Spent n m e x now none d q (inr h) = inr h
use_on-Spent n m e x now none d q (inl h) = inl (lookup-put m n x d ∙ if_false _ _ q ∙ h)

-- Once its nonce is spent, an attempt is refused, and the nonce stays spent.
IsRefused : String → ℕ → Attempt → Bool × Seen → Type 0
IsRefused n e a r = ((is_for n a.token && r.0) ≡ false) × Spent n e a.used r.1

and_false : (b : Bool) → (b && false) ≡ false
and_false true = refl
and_false false = refl

remembered :
    (n : String) (e used : ℕ) (d : Seen) → used ≤ e → Spent n e used d → lookup n d ≡ some e
remembered n e used d t (inl h) = h
remembered n e used d t (inr h) = ground arith

use-IsRefused :
    (n : String) (e : ℕ) (c : AttachClaims) (checked used : ℕ) (d : Seen)
    → (eqb c.nonce n ≡ true → used ≤ e)
    → Spent n e used (swept used d)
    → IsRefused n e
        (record { token = some c; checked = checked; used = used })
        (use_nonce c.nonce c.expires_at used d)
unfolding use_nonce IsRefused
use-IsRefused n e c checked used d t h = elim (Bool-cases (eqb c.nonce n)) [
  | inl q ↦
      let a : Attempt = record { token = some c; checked = checked; used = used } in
      let d' = swept used d in
      let same = (eqb_iff c.nonce n).0 q in
      let known = ap (λ m. lookup m d') same ∙ remembered n e used d' (t q) h in
      let spent : use_nonce c.nonce c.expires_at used d ≡ (false, d') =
        ap (λ o. use_on c.nonce c.expires_at o d') known in
      subst (IsRefused n e a) (sym spent) (and_false (eqb c.nonce n), h)
  | inr q ↦
      let r = use_nonce c.nonce c.expires_at used d in
      (
        ap (λ b. b && r.0) q,
        use_on-Spent n c.nonce e c.expires_at used (lookup c.nonce (swept used d)) (swept used d) q
            h,
      )
]

-- By the claims of the token.
claims-IsRefused :
    (n : String) (e last checked used : ℕ) (o : Option AttachClaims) (d : Seen)
    → last ≤ used
    → IsTimely n e (record { token = o; checked = checked; used = used })
    → Spent n e last d
    → IsRefused n e
        (record { token = o; checked = checked; used = used })
        (redeem_attach o checked used d)
unfolding redeem_attach redeem_on verify_attach IsRefused
claims-IsRefused n e last checked used none d o t h = (refl, Spent-later n e last used d o h)
claims-IsRefused n e last checked used (some c) d o t h =
    elim (Bool-cases (ltb c.expires_at checked)) [
      | inl late ↦
          let a : Attempt = record { token = some c; checked = checked; used = used } in
          let refused : redeem_attach (some c) checked used d ≡ (false, d) =
            ap (λ v. redeem_on v used d) (if_true none (some c) late) in
          subst (IsRefused n e a) (sym refused)
            (and_false (eqb c.nonce n), Spent-later n e last used d o h)
      | inr early ↦
          let a : Attempt = record { token = some c; checked = checked; used = used } in
          let in_time : redeem_attach (some c) checked used d
              ≡ use_nonce c.nonce c.expires_at used d =
            ap (λ v. redeem_on v used d) (if_false none (some c) early) in
          let by_then : eqb c.nonce n ≡ true → used ≤ e = λ q.
            (t q c refl).1
              (subst (λ x. checked ≤ x) (t q c refl).0 (ltb_false→le c.expires_at checked early)) in
          subst (IsRefused n e a) (sym in_time)
            (use-IsRefused n e c checked used d by_then (Spent-swept n e last used d o h))
    ]

accepted-Spent :
    (n : String) (e last : ℕ) (l : List Attempt) (d : Seen)
    → InOrder last l
    → All (IsTimely n e) l
    → Spent n e last d
    → accepted n l d ≡ 0
unfolding accepted IsRefused
accepted-Spent n e last [] d o t h = refl
accepted-Spent n e last (a ∷ l) d o t h =
    let r = claims-IsRefused n e last a.checked a.used a.token d o.0 t.0 h in
    let rest = accepted-Spent n e a.used l _ o.1 t.1 r.1 in ground (arith, r.0, rest)

-- An attempt that is accepted spends its nonce.
use_on-accepted :
    (m : String) (x : ℕ) (o : Option ℕ) (d : Seen)
    → (use_on m x o d).0 ≡ true
    → lookup m (use_on m x o d).1 ≡ some x
unfolding use_on
use_on-accepted m x (some y) d e = cc
use_on-accepted m x none d e = lookup-put m m x d ∙ if_true _ _ ((eqb_iff m m).1 refl)

and_parts : (a b : Bool) → (a && b) ≡ true → (a ≡ true) × (b ≡ true)
and_parts a b h = ground arith

redeem-accepted :
    (n : String) (e checked used : ℕ) (k : Option AttachClaims) (d : Seen)
    → IsTimely n e (record { token = k; checked = checked; used = used })
    → (is_for n k && (redeem_attach k checked used d).0) ≡ true
    → lookup n (redeem_attach k checked used d).1 ≡ some e
unfolding redeem_attach redeem_on verify_attach use_nonce
redeem-accepted n e checked used none d t h = cc
redeem-accepted n e checked used (some c) d t h = elim (Bool-cases (ltb c.expires_at checked)) [
  | inl late ↦
      let refused : redeem_attach (some c) checked used d ≡ (false, d) =
        ap (λ v. redeem_on v used d) (if_true none (some c) late) in
      let absurd : false ≡ true =
        sym (and_false (eqb c.nonce n))
        ∙ ap (λ (r : Bool × Seen). eqb c.nonce n && r.0) (sym refused)
        ∙ h in
      cc
  | inr early ↦
      let outcome = use_nonce c.nonce c.expires_at used d in
      let in_time : redeem_attach (some c) checked used d ≡ outcome =
        ap (λ v. redeem_on v used d) (if_false none (some c) early) in
      let (same, ok) =
        and_parts (eqb c.nonce n) outcome.0
          (ap (λ (r : Bool × Seen). eqb c.nonce n && r.0) (sym in_time) ∙ h) in
      let kept =
        use_on-accepted c.nonce c.expires_at (lookup c.nonce (swept used d)) (swept used d) ok in
      ap (λ (r : Bool × Seen). lookup n r.1) in_time
      ∙ ap (λ m. lookup m outcome.1) (sym ((eqb_iff c.nonce n).0 same))
      ∙ kept
      ∙ ap some (t same c refl).0
]

single :
    (n : String) (e last : ℕ) (l : List Attempt) (d : Seen)
    → InOrder last l
    → All (IsTimely n e) l
    → accepted n l d ≤ 1
unfolding accepted
single n e last [] d o t = omega arith
single n e last (a ∷ l) d o t =
    elim (Bool-cases (is_for n a.token && (redeem_attach a.token a.checked a.used d).0)) [
      | inl y ↦
          let kept = redeem-accepted n e a.checked a.used a.token d t.0 y in
          let rest =
            accepted-Spent n e a.used l (redeem_attach a.token a.checked a.used d).1 o.1 t.1
              (inl kept) in
          ground (arith, y, rest)
      | inr y ↦
          let rest = single n e a.used l (redeem_attach a.token a.checked a.used d).1 o.1 t.1 in
          ground (arith, y, rest)
    ]

-- Of any attempts to attach, in the order of their time, at most one with a given nonce is accepted,
-- whatever was accepted before: if the tokens with the nonce carry one expiry, and what is checked by
-- that time is also recorded by that time.
pub redeem_attach-once :
    (n : String) (e : ℕ) (attempts : List Attempt) (seen : Seen)
    → InOrder 0 attempts
    → All (IsTimely n e) attempts
    → accepted n attempts seen ≤ 1
redeem_attach-once n e attempts seen o t = single n e 0 attempts seen o t
