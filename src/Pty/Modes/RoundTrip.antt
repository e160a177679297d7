-- ===== src/Pty/Modes/RoundTrip.antt =====
-- Prelude: a fresh tracker that reads it ends up in the modes that it was made from.
use lemul.Prelude.{
  ℕ, ◌≡◌, refl, List, [], ◌∷◌, ◌++◌, none, Bool, true, arith, if◌then◌else◌, ap, ◌∙◌,
}
use lemul.Prelude.Int.{ℤ}
use lemul.Pty.Modes.{
  ModeTracker, new, transient, lookup, commit_params, reset, feed, replayed, sort_ints, at_boundary,
  prelude, render_all,
}
use lemul.Pty.Modes.Invariant.{
  IsStored, nothing, whole, starts_kitty, starts_mod, IsTracker, new-IsTracker, feed-IsTracker,
}
use lemul.Pty.Modes.Replay.{
  feed-append, feed-csi, feed-render_all, set_all, lookup-set_all, contains-sort_ints,
  contains-replayed, length-replay, FitsKeys-replay,
}

feed-mod_other :
    (d : List (ℤ × Bool)) {k : List ℕ}
    → IsStored starts_mod b'm' k
    → feed (reset (record new { dec = d })) k ≡ reset (record new { dec = d; mod_other = k })
unfolding commit_params
feed-mod_other d nothing = unfold feed in refl
feed-mod_other d (whole c ps h a l) =
    feed-csi (record new { dec = d }) (c ∷ ps) b'm' a (omega arith) refl ∙ ground arith

feed-kitty :
    (d : List (ℤ × Bool)) (o : List ℕ) {k : List ℕ}
    → IsStored starts_kitty b'u' k
    → feed (reset (record new { dec = d; mod_other = o })) k
      ≡ reset (record new { dec = d; mod_other = o; kitty = k })
unfolding commit_params
feed-kitty d o nothing = unfold feed in refl
feed-kitty d o (whole c ps h a l) =
    feed-csi (record new { dec = d; mod_other = o }) (c ∷ ps) b'u' a (omega arith) refl
    ∙ ground arith

-- `m'` has the modes of `m`, but for the transient ones, which it does not know; and it stands
-- between escape sequences.
pub record Replays (m m' : ModeTracker) : Type 0 where
  pub boundary : at_boundary m' ≡ true
  pub modes : (n : ℤ) → lookup n m'.dec ≡ (if transient n then none else lookup n m.dec)
  pub keyboard : m'.kitty ≡ m.kitty
  pub other_keys : m'.mod_other ≡ m.mod_other

feed-prelude :
    (m : ModeTracker)
    → IsTracker m
    → feed new (prelude m)
      ≡ reset (record new {
        dec = set_all (sort_ints (replayed m.dec)) m.dec [];
        mod_other = m.mod_other;
        kitty = m.kitty;
      })
unfolding prelude
feed-prelude m t =
    let ns = sort_ints (replayed m.dec) in
    let d = set_all ns m.dec [] in
    feed-append new (render_all ns m.dec) (m.mod_other ++ m.kitty)
    ∙ ap (λ x. feed x (m.mod_other ++ m.kitty))
        (feed-render_all new ns m.dec (FitsKeys-replay m.dec t.stores.modes.keys))
    ∙ feed-append (reset (record new { dec = d })) m.mod_other m.kitty
    ∙ ap (λ x. feed x m.kitty) (feed-mod_other d t.stores.mod_form)
    ∙ feed-kitty d m.mod_other t.stores.kitty_form

lookup-replay :
    (m : ModeTracker) (n : ℤ)
    → IsTracker m
    → lookup n (set_all (sort_ints (replayed m.dec)) m.dec [])
      ≡ (if transient n then none else lookup n m.dec)
unfolding lookup
lookup-replay m n t = ground (
  arith,
  lookup-set_all n (sort_ints (replayed m.dec)) m.dec [],
  contains-sort_ints n (replayed m.dec),
  contains-replayed n m.dec,
  length-replay m.dec,
  t.stores.modes.size,
)

-- After any output, a fresh tracker that reads the prelude stands between escape sequences, has each
-- DEC mode exactly as it was, except that the transient one is unknown to it, and has the two
-- keyboard sequences as they were.
pub prelude-Replays :
    (output : List ℕ) → Replays (feed new output) (feed new (prelude (feed new output)))
unfolding at_boundary
prelude-Replays output =
    let m = feed new output in
    let t = feed-IsTracker new output new-IsTracker in
    let e = feed-prelude m t in
    record {
      boundary = rw e refl;
      modes = λ n. rw e (lookup-replay m n t);
      keyboard = rw e refl;
      other_keys = rw e refl;
    }
