-- ===== src/Registry/Rounds.antt =====
-- PickRunner's rounds.
use Prim.Native.String.{String}
use native.Mathlib.Nat.{add-mul-mod_self_right, mod-eq_of_lt, mod-lt, div-add-mod'}
use lemul.Prelude.{
  ℕ, zero, suc, ◌+◌, ◌-◌, ◌*◌, ◌%◌, ◌/◌, ◌^◌, ◌<◌, ◌≡◌, refl, ap, ◌∙◌, List, [], ◌∷◌, some, false,
  arith, ◌==◌, if_false, length, leb, Bool-cases, inl, inr, get_elem?,
}
use lemul.Prelude.Dict.{string_key}
use lemul.Registry.{Tunnel, Registry, get, pick_runner}

-- So many picks for one tenant.
unfoldable pub picks : String → ℕ → Registry → Registry
picks id zero r = r
picks id (suc n) r = picks id n (pick_runner id r).1

remainder : (q i n : ℕ) → i < n → (i + q * n) % n ≡ i
remainder q i n h = add-mul-mod_self_right i q n ∙ mod-eq_of_lt h

-- Counting on from anywhere meets every remainder within one round.
offset : (a i n : ℕ) → i < n → (j : ℕ) × (j < n) × ((a + j) % n ≡ i)
offset a i n h =
    let parts = div-add-mod' a n in
    let below : a % n < n = mod-lt a (omega arith) in
    elim (Bool-cases (leb (a % n) i)) [
      | inl e ↦ (
        i - a % n,
        ground arith,
        ap (λ k. k % n) (ground (arith, parts)) ∙ remainder (a / n) i n h,
      )
      | inr e ↦ (
        i + n - a % n,
        ground arith,
        ap (λ k. k % n) (ground (arith, parts)) ∙ remainder (suc (a / n)) i n h,
      )
    ]

index_bound : (ts : List Tunnel) (i : ℕ) {t : Tunnel} → get_elem? ts i ≡ some t → i < length ts
index_bound [] i e = cc
index_bound (x ∷ ts) zero e = omega arith
index_bound (x ∷ ts) (suc i) e = omega (arith, index_bound ts i e)

module _ (id : String) where
  nonempty : (r : Registry) → 0 < length (get id r.runners) → length (get id r.runners) == 0 ≡ false
  nonempty r h = ground arith

  pick_runner-step :
      (r : Registry)
      → 0 < length (get id r.runners)
      → r.rr + 1 < 2 ^ 64
      → (pick_runner id r) ≡ (
        get_elem? (get id r.runners) ((r.rr + 1) % length (get id r.runners)),
        record r { rr = r.rr + 1 },
      )
  unfolding pick_runner
  pick_runner-step r h b = if_false _ _ (nonempty r h) ∙ rw (mod-eq_of_lt b) refl

  picks-rr :
      (j : ℕ) (r : Registry)
      → 0 < length (get id r.runners)
      → r.rr + j < 2 ^ 64
      → picks id j r ≡ record r { rr = r.rr + j }
  unfolding picks
  picks-rr zero r h b = ap (λ n. record r { rr = n }) (omega arith)
  picks-rr (suc j) r h b =
      let next = record r { rr = r.rr + 1 } in
      ap (λ t. picks id j t.1) (pick_runner-step r h (omega arith))
      ∙ picks-rr j next h (omega arith)
      ∙ ap (λ n. record r { rr = n }) (omega arith)

  -- While a tenant's runners stay as they are and the counter does not reach 2^64, each of them is
  -- picked within one round: of as many picks in a row as there are runners, one answers it.
  pub pick_runner-rounds :
      (r : Registry) (i : ℕ) (t : Tunnel)
      → get_elem? (get id r.runners) i ≡ some t
      → r.rr + length (get id r.runners) < 2 ^ 64
      → (j : ℕ) × (j < length (get id r.runners)) × ((pick_runner id (picks id j r)).0 ≡ some t)
  pick_runner-rounds r i t e b =
      let ts = get id r.runners in
      let within = index_bound ts i e in
      let (j, below, lands) = offset (r.rr + 1) i (length ts) within in
      let r' = record r { rr = r.rr + j } in
      (
        j,
        below,
        ap (λ s. (pick_runner id s).0) (picks-rr j r (omega arith) (omega arith))
            ∙ ap (λ p. p.0) (pick_runner-step r' (omega arith) (omega arith))
            ∙ ap (get_elem? ts) (ap (λ n. n % length ts) (omega arith) ∙ lands)
            ∙ e,
      )
