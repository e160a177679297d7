-- ===== src/Registry/Maps.antt =====
-- The registry's maps of lists: what is under a key after each change.
use lemul.Prelude.{
  ◌≡◌, refl, sym, ap, ◌∙◌, List, [], ◌∷◌, arith, if◌then◌else◌, Bool-cases, inl, inr,
}
use lemul.Prelude.Dict.{
  string_key, Key, eqb, eqb_iff, Dict, without, put, lookup-put, lookup-without,
}
use lemul.Registry.{ws_key, get, put_or_delete}

module _ {K A : Type 0} ⦃e : Key K⦄ where
  pub get-put :
      (k j : K) (xs : List A) (d : Dict K (List A))
      → get j (put k xs d) ≡ (if eqb k j then xs else get j d)
  unfolding get
  get-put k j xs d = ground (arith, lookup-put k j xs d)

  pub get-without :
      (k j : K) (d : Dict K (List A)) → get j (without k d) ≡ (if eqb k j then [] else get j d)
  unfolding get
  get-without k j d = ground (arith, lookup-without k j d)

  pub get-put_or_delete :
      (k j : K) (xs : List A) (d : Dict K (List A))
      → get j (put_or_delete k xs d) ≡ (if eqb k j then xs else get j d)
  unfolding put_or_delete
  get-put_or_delete k j [] d = ground (arith, get-without k j (put k [] d), get-put k j [] d)
  get-put_or_delete k j (x ∷ xs) d = ground (arith, get-put k j (x ∷ xs) d)

  -- A list is changed in place: only what is under its own key changes.
  pub get-changed :
      (k j : K) (f : List A → List A) (d : Dict K (List A))
      → get j (put k (f (get k d)) d) ≡ (if eqb k j then f (get j d) else get j d)
  get-changed k j f d = elim (Bool-cases (eqb k j)) [
    | inl e ↦
        let same : k ≡ j = (eqb_iff k j).0 e in
        get-put k j (f (get k d)) d ∙ rw e (ap (λ i. f (get i d)) same)
    | inr e ↦ get-put k j (f (get k d)) d ∙ rw e refl
  ]

  pub get-shrunk :
      (k j : K) (f : List A → List A) (d : Dict K (List A))
      → get j (put_or_delete k (f (get k d)) d) ≡ (if eqb k j then f (get j d) else get j d)
  get-shrunk k j f d =
      get-put_or_delete k j (f (get k d)) d
      ∙ sym (get-put k j (f (get k d)) d)
      ∙ get-changed k j f d
