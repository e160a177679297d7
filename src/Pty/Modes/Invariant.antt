-- ===== src/Pty/Modes/Invariant.antt =====
-- What holds of the tracker between any two bytes of output.
use lemul.Prelude.{
  ℕ, suc, ◌≤◌, ◌≡◌, refl, List, [], ◌∷◌, ◌++◌, Bool, true, false, arith, if◌then◌else◌, ◌==◌, ◌&&◌,
  ◌||◌, ltb, length, length-append, All, ap, inl, inr, Bool-cases, sym, ◌∙◌, subst, ltb_false→le,
  ==_iff,
}
use lemul.Prelude.Int.{ℤ}
use lemul.Pty.Modes.{
  set_fields, TrackState, ground_state, esc_state, csi_state, ModeTracker, max_partial, new,
  params_of, split, commit_params, commit, is_final, reset, feed_byte_in, feed_byte, feed,
}
use lemul.Pty.Modes.Fields.{IsModeMap, set_fields-IsModeMap, drop_last-append}

-- A byte inside a control sequence.
abbrev pub IsParam : ℕ → Type 0
IsParam b = is_final b ≡ false

-- ESC [ ps final
abbrev pub csi : List ℕ → ℕ → List ℕ
csi ps final = 0x1b ∷ b'[' ∷ (ps ++ final ∷ [])

-- A stored keyboard sequence: none yet, or one whole control sequence of the given kind that the
-- tracker accepts again.
pub data IsStored (starts : ℕ → Bool) (final : ℕ) : List ℕ → Type 0 where
  nothing : IsStored starts final []
  whole :
      (c : ℕ) (ps : List ℕ)
      → starts c ≡ true
      → All IsParam (c ∷ ps)
      → length ps ≤ 61
      → IsStored starts final (csi (c ∷ ps) final)

abbrev pub starts_kitty : ℕ → Bool
starts_kitty c = c == b'>' || c == b'=' || c == b'<'

abbrev pub starts_mod : ℕ → Bool
starts_mod c = c == b'>'

-- What `partial` holds in each state.
abbrev pub IsPartial : TrackState → List ℕ → Type 0
IsPartial ground_state p = p ≡ []
IsPartial esc_state p = p ≡ 0x1b ∷ []
IsPartial csi_state p = (ps : List ℕ) × (p ≡ 0x1b ∷ b'[' ∷ ps) × All IsParam ps × (length ps ≤ 62)

-- What a prelude is made of.
pub record HasModes (m : ModeTracker) : Type 0 where
  pub modes : IsModeMap m.dec
  pub kitty_form : IsStored starts_kitty b'u' m.kitty
  pub mod_form : IsStored starts_mod b'm' m.mod_other

pub record IsTracker (m : ModeTracker) : Type 0 where
  pub stores : HasModes m
  pub held : IsPartial m.state m.partial

pub new-IsTracker : IsTracker new
new-IsTracker = record {
  stores = record {
    modes = record { size = omega arith; keys = tt };
    kitty_form = nothing;
    mod_form = nothing;
  };
  held = refl;
}

pub All-snoc : (ps : List ℕ) (b : ℕ) → All IsParam ps → IsParam b → All IsParam (ps ++ b ∷ [])
All-snoc [] b h f = (f, tt)
All-snoc (p ∷ ps) b h f = (h.0, All-snoc ps b h.1 f)

params_of-csi : (ps : List ℕ) (final : ℕ) → params_of (csi ps final) ≡ ps
unfolding params_of
params_of-csi ps final = drop_last-append ps final

-- A sequence with no parameters is ignored, by the length test or by the switch.
commit-csi_of :
    (m : ModeTracker) (ps : List ℕ) (final : ℕ) (p : List ℕ)
    → p ≡ csi ps final
    → (if ltb (length p) 3 then m else commit_params final p (params_of p) m)
      ≡ commit_params final (csi ps final) ps m
commit-csi_of m ps final p e = rw (e, params_of-csi ps final) (long ps)
  where
    long :
        (ps : List ℕ)
        → (if ltb (suc (suc (length (ps ++ final ∷ [])))) 3
            then m
            else commit_params final (csi ps final) ps m)
          ≡ commit_params final (csi ps final) ps m
    long ps = ground (arith, length-append {0} ps (final ∷ []))

-- commit on a whole sequence, with its parameters found.
pub commit-csi :
    (m : ModeTracker) (ps : List ℕ) (final : ℕ)
    → m.partial ≡ csi ps final
    → commit final m ≡ commit_params final (csi ps final) ps m
unfolding commit
commit-csi m ps final e = commit-csi_of m ps final m.partial e

-- The three maps of one commit, each by its own test.
module _ (m : ModeTracker) (c : ℕ) (ps : List ℕ) (final : ℕ) (seq : List ℕ) where
  pub dec-commit_params : (commit_params final seq (c ∷ ps) m).dec ≡ (
      if c == b'?' && (final == b'h' || final == b'l')
      then set_fields (final == b'h') (split b';' ps) m.dec
      else m.dec)
  unfolding commit_params
  dec-commit_params = ground arith

  pub kitty-commit_params :
      (commit_params final seq (c ∷ ps) m).kitty
      ≡ (if starts_kitty c && final == b'u' then seq else m.kitty)
  unfolding commit_params
  kitty-commit_params = ground arith

  pub mod_other-commit_params :
      (commit_params final seq (c ∷ ps) m).mod_other
      ≡ (if starts_mod c && final == b'm' then seq else m.mod_other)
  unfolding commit_params
  mod_other-commit_params = ground arith

IsStored-if :
    (starts : ℕ → Bool) (final f c : ℕ) (ps stored : List ℕ)
    → All IsParam (c ∷ ps)
    → length ps ≤ 61
    → IsStored starts final stored
    → IsStored starts final (if starts c && f == final then csi (c ∷ ps) f else stored)
IsStored-if starts final f c ps stored a l h = elim (Bool-cases (starts c && f == final)) [
  | inl e ↦
      rw e (
        subst (λ x. IsStored starts final (csi (c ∷ ps) x)) (sym (same e))
          (whole c ps (kind e) a l))
  | inr e ↦ rw e h
]
  where
    same : (starts c && f == final) ≡ true → f ≡ final
    same e = ground arith

    kind : (starts c && f == final) ≡ true → starts c ≡ true
    kind e = ground arith

IsModeMap-if :
    (b v : Bool) (fs : List (List ℕ)) (d : List (ℤ × Bool))
    → IsModeMap d
    → IsModeMap (if b then set_fields v fs d else d)
IsModeMap-if true v fs d h = set_fields-IsModeMap v fs d h
IsModeMap-if false v fs d h = h

commit_params-HasModes :
    (m : ModeTracker) (ps : List ℕ) (final : ℕ)
    → All IsParam ps
    → length ps ≤ 62
    → HasModes m
    → HasModes (commit_params final (csi ps final) ps m)
commit_params-HasModes m [] final a l t = unfold commit_params in t
commit_params-HasModes m (c ∷ ps) final a l t =
    let seq = csi (c ∷ ps) final in
    record {
      modes = rw (dec-commit_params m c ps final seq) (IsModeMap-if _ _ _ m.dec t.modes);
      kitty_form =
          rw (kitty-commit_params m c ps final seq)
            (IsStored-if starts_kitty b'u' final c ps m.kitty a (omega arith) t.kitty_form);
      mod_form =
          rw (mod_other-commit_params m c ps final seq)
            (IsStored-if starts_mod b'm' final c ps m.mod_other a (omega arith) t.mod_form);
    }

HasModes-record :
    (m : ModeTracker) (s : TrackState) (p : List ℕ)
    → HasModes m
    → HasModes (record m { state = s; partial = p })
HasModes-record m s p h = record {
  modes = h.modes;
  kitty_form = h.kitty_form;
  mod_form = h.mod_form;
}

reset-IsTracker : (m : ModeTracker) → HasModes m → IsTracker (reset m)
reset-IsTracker m h = record { stores = HasModes-record m ground_state [] h; held = refl }

-- The whole sequence that `partial` becomes with its final byte is committed.
commit-HasModes :
    (m : ModeTracker) (b : ℕ) (ps : List ℕ)
    → m.partial ≡ csi ps b
    → All IsParam ps
    → length ps ≤ 62
    → HasModes m
    → HasModes (commit b m)
commit-HasModes m b ps e a l h = rw (commit-csi m ps b e) (commit_params-HasModes m ps b a l h)

IsTracker-if :
    (b : Bool) (x y : ModeTracker)
    → (b ≡ true → IsTracker x)
    → (b ≡ false → IsTracker y)
    → IsTracker (if b then x else y)
IsTracker-if true x y t f = t refl
IsTracker-if false x y t f = f refl

feed_csi-IsTracker :
    (m : ModeTracker) (b : ℕ) (ps : List ℕ)
    → m.partial ≡ 0x1b ∷ b'[' ∷ ps
    → All IsParam ps
    → length ps ≤ 62
    → m.state ≡ csi_state
    → HasModes m
    → IsTracker (feed_byte_in csi_state b m)
unfolding feed_byte_in
feed_csi-IsTracker m b ps e a l c h =
    let p = m.partial ++ b ∷ [] in
    let whole : p ≡ csi ps b = ap (λ t. t ++ b ∷ []) e in
    let kept = record m { partial = p } in
    let hk = HasModes-record m m.state p h in
    IsTracker-if (is_final b) _ _
      (λ _. reset-IsTracker (commit b kept) (commit-HasModes kept b ps whole a l hk))
      (λ f.
        IsTracker-if (ltb max_partial (length p)) _ _ (λ _. reset-IsTracker kept hk)
          (λ short. record {
            stores = hk;
            held =
                subst (λ s. IsPartial s p) (sym c)
                  (
                    ps ++ b ∷ [],
                    whole,
                    All-snoc ps b a f,
                    omega (arith, ap {A = List ℕ} length whole, ltb_false→le 64 (length p) short),
                  );
          }))

-- Every byte of output keeps the invariant.
pub feed_byte-IsTracker : (m : ModeTracker) (b : ℕ) → IsTracker m → IsTracker (feed_byte m b)
unfolding feed_byte
feed_byte-IsTracker m b t = go m.state refl t.held
  where
    go : (s : TrackState) → m.state ≡ s → IsPartial s m.partial → IsTracker (feed_byte_in s b m)
    go ground_state c h =
        unfold feed_byte_in in
        IsTracker-if (b == 0x1b) _ _
          (λ e. record { stores = HasModes-record m esc_state _ t.stores; held = ground arith })
          (λ _. t)
    go esc_state c h =
        unfold feed_byte_in in
        IsTracker-if (b == b'[') _ _
          (λ e. record {
            stores = HasModes-record m csi_state _ t.stores;
            held = (
              [],
              ap (λ s. s ++ b ∷ []) h ∙ ap (λ x. 0x1b ∷ x ∷ []) ((==_iff b b'[').0 e),
              tt,
              omega arith,
            );
          })
          (λ _. reset-IsTracker m t.stores)
    go csi_state c (ps, e, a, l) = feed_csi-IsTracker m b ps e a l c t.stores

-- So does any output, fed in any pieces.
pub feed-IsTracker : (m : ModeTracker) (p : List ℕ) → IsTracker m → IsTracker (feed m p)
unfolding feed
feed-IsTracker m [] t = t
feed-IsTracker m (b ∷ p) t = feed-IsTracker (feed_byte m b) p (feed_byte-IsTracker m b t)
