-- ===== src/Supervisor/Processes/Owner.antt =====
-- internal/supervisor/procfs.go: whose a process is, by its ancestors.
use Prim.Native.String.{String}
use lemul.Prelude.{
  ℕ, zero, suc, ◌<◌, ◌≡◌, ◌≢◌, ◌↔◌, refl, sym, ap, ◌∙◌, Option, none, some, Bool, true, false, inl,
  inr, Bool-cases, Option-cases, arith,
}
use lemul.Prelude.Int.{ℤ, pos, ltb_ℤ}
use lemul.Prelude.Dict.{Dict, lookup}
use lemul.Supervisor.Processes.{ProcInfo, int_key, owned_on, attribute}

owned_on-some :
    {o : Option String} {id : String} (b : Bool) (above : String)
    → o ≡ some id
    → owned_on o b above ≡ id
unfolding owned_on
owned_on-some b above e = rw e refl

owned_on-above :
    {o : Option String} {b : Bool} (above : String)
    → o ≡ none
    → b ≡ true
    → owned_on o b above ≡ above
unfolding owned_on
owned_on-above above e h = rw (e, h) refl

owned_on-nobody :
    {o : Option String} {b : Bool} (above : String) → o ≡ none → b ≡ false → owned_on o b above ≡ ""
unfolding owned_on
owned_on-nobody above e h = rw (e, h) refl

module _ (all : Dict ℤ ProcInfo) (owner : Dict ℤ String) where
  -- `r` is the ancestor of `p` that is `k` generations up, and no process below it is a session's.
  pub data Chain : ℕ → ProcInfo → ProcInfo → Type 0 where
    here : {p : ProcInfo} → Chain 0 p p
    up :
        {k : ℕ} {p q r : ProcInfo}
        → lookup p.pid owner ≡ none
        → ltb_ℤ (pos 0) p.ppid ≡ true
        → lookup p.ppid all ≡ some q
        → Chain k q r
        → Chain (suc k) p r

  attribute_complete :
      (depth k : ℕ) (p q : ProcInfo) (id : String)
      → Chain k p q
      → k < depth
      → lookup q.pid owner ≡ some id
      → attribute all owner depth (some p) ≡ id
  unfolding attribute
  attribute_complete zero k p q id c l o = absurd (omega arith)
  attribute_complete (suc depth) k p q id here l o = owned_on-some _ _ o
  attribute_complete (suc depth) k p q id (up {q = m} n h e c) l o =
      owned_on-above _ n h
      ∙ (ap (attribute all owner depth) e ∙ attribute_complete depth _ m q id c (omega arith) o)

  attribute_sound :
      (depth : ℕ) (p : ProcInfo) (id : String)
      → id ≢ ""
      → attribute all owner depth (some p) ≡ id
      → (k : ℕ) × (q : ProcInfo) × (k < depth) × Chain k p q × (lookup q.pid owner ≡ some id)
  unfolding attribute
  attribute_sound zero p id ne e = absurd (ne (sym e))
  attribute_sound (suc depth) p id ne e = elim (Option-cases (lookup p.pid owner)) [
    | inr (own, o) ↦ (0, p, omega arith, here, o ∙ ap some (sym (owned_on-some _ _ o) ∙ e))
    | inl n ↦ elim (Bool-cases (ltb_ℤ (pos 0) p.ppid)) [
      | inr h ↦ absurd (ne (sym e ∙ owned_on-nobody _ n h))
      | inl h ↦ elim (Option-cases (lookup p.ppid all)) [
        | inl m ↦ absurd (ne (sym e ∙ (owned_on-above _ n h ∙ ap (attribute all owner depth) m)))
        | inr (q, m) ↦
            let (k, r, l, c, o) =
              attribute_sound depth q id ne
                (sym (owned_on-above _ n h ∙ ap (attribute all owner depth) m) ∙ e) in
            (suc k, r, omega arith, up n h m c, o)
      ]
    ]
  ]

  -- A process is attributed to a session exactly if the session's own process is the process itself or
  -- an ancestor of it that is fewer than `depth` generations up, with no other session's process in
  -- between. Parents that form a cycle do no harm.
  pub attribute_iff :
      (depth : ℕ) (p : ProcInfo) (id : String)
      → id ≢ ""
      → (attribute all owner depth (some p) ≡ id)
        ↔ ((k : ℕ) × (q : ProcInfo) × (k < depth) × Chain k p q × (lookup q.pid owner ≡ some id))
  attribute_iff depth p id ne =
      (attribute_sound depth p id ne, λ (k, q, l, c, o). attribute_complete depth k p q id c l o)
