-- ===== src/Registry/Waiters.antt =====
-- Those who wait for a workspace's tunnel.
use Prim.Native.String.{String}
use lemul.Prelude.{
  ℕ, ◌+◌, ◌≤◌, ◌≡◌, refl, sym, ap, ◌∙◌, List, [], ◌∷◌, ◌++◌, Option, none, some, arith, ◌==◌,
  if◌then◌else◌, if_true, ◌⊎◌, if_false, Bool-cases, inl, inr,
}
use lemul.Prelude.Dict.{string_key, eqb, eqb_iff, lookup, put}
use lemul.Registry.Maps.{get-put, get-without, get-changed, get-shrunk}
use lemul.Registry.Tally.{
  count, waits, sent_on, count-append, count-remove_chan, sent_on-append, sent_on-sends, waits-get,
  waits-put_or_delete,
}
use lemul.Registry.{
  remove, Tunnel, WsKey, ws_key, Registry, new, key, get, remove_chan, sends, last_of, wait_on,
  wait_workspace, add_runner, remove_runner, pick_runner, add_workspace, remove_workspace, give_up,
  Op, add_runner_op, remove_runner_op, add_workspace_op, remove_workspace_op, pick_runner_op,
  wait_op, give_up_op, step, run,
}

last_of-none : (ts : List Tunnel) → last_of ts ≡ none → ts ≡ []
unfolding last_of
last_of-none [] e = refl
last_of-none (t ∷ []) e = cc
last_of-none (t ∷ u ∷ ts) e = ground (arith, last_of-none (u ∷ ts) e)

-- No workspace has both a tunnel and a waiter; a channel is waited on or has been sent on, and that
-- once, and the next channel is neither.
pub record IsServed (r : Registry) : Type 0 where
  pub idle : (k : WsKey) → (get k r.workspaces ≡ []) ⊎ (get k r.waiters ≡ [])
  pub once : (c : ℕ) → waits c r.waiters + sent_on c r.sent ≤ 1
  pub fresh : (c : ℕ) → r.next_chan ≤ c → waits c r.waiters + sent_on c r.sent ≡ 0

module _ (r : Registry) (s : IsServed r) where
  -- An operation that makes no channel.
  tally-IsServed :
      (r' : Registry)
      → r'.next_chan ≡ r.next_chan
      → ((c : ℕ) → waits c r'.waiters + sent_on c r'.sent ≤ waits c r.waiters + sent_on c r.sent)
      → ((k : WsKey) → (get k r'.workspaces ≡ []) ⊎ (get k r'.waiters ≡ []))
      → IsServed r'
  tally-IsServed r' n le i = record {
    idle = i;
    once = λ c. omega (arith, le c, s.once c);
    fresh = λ c h. omega (arith, le c, s.fresh c (omega arith));
  }

  add_workspace-idle :
      (t : Tunnel) (k : WsKey)
      → (get k (add_workspace t r).workspaces ≡ []) ⊎ (get k (add_workspace t r).waiters ≡ [])
  unfolding add_workspace
  add_workspace-idle t k = elim (Bool-cases (eqb (key t) k)) [
    | inl e ↦ inr (get-without (key t) k r.waiters ∙ if_true _ _ e)
    | inr e ↦ elim (s.idle k) [
      | inl h ↦ inl (get-changed (key t) k (λ ts. ts ++ t ∷ []) r.workspaces ∙ if_false _ _ e ∙ h)
      | inr h ↦ inr (get-without (key t) k r.waiters ∙ if_false _ _ e ∙ h)
    ]
  ]

  add_workspace-IsServed : (t : Tunnel) → IsServed (add_workspace t r)
  unfolding add_workspace
  add_workspace-IsServed t =
      let cs = get (key t) r.waiters in
      tally-IsServed _ refl
        (λ c. omega (
          arith,
          waits-get c (key t) r.waiters,
          sent_on-append c r.sent (sends cs t),
          sent_on-sends c cs t,
        ))
        (add_workspace-idle t)

  remove_workspace-idle :
      (t : Tunnel) (k : WsKey)
      → (get k (remove_workspace t r).workspaces ≡ []) ⊎ (get k (remove_workspace t r).waiters ≡ [])
  unfolding remove_workspace remove
  remove_workspace-idle t k = elim (s.idle k) [
    | inl h ↦ inl (get-shrunk (key t) k (λ ts. remove ts t) r.workspaces ∙ rw h (ground arith))
    | inr h ↦ inr h
  ]

  give_up-idle :
      (k : WsKey) (c : ℕ) (j : WsKey)
      → (get j (give_up k c r).workspaces ≡ []) ⊎ (get j (give_up k c r).waiters ≡ [])
  unfolding give_up remove_chan
  give_up-idle k c j = elim (s.idle j) [
    | inl h ↦ inl h
    | inr h ↦ inr (get-shrunk k j (λ cs. remove_chan cs c) r.waiters ∙ rw h (ground arith))
  ]

  give_up-IsServed : (k : WsKey) (c : ℕ) → IsServed (give_up k c r)
  unfolding give_up
  give_up-IsServed k x =
      let cs = get k r.waiters in
      tally-IsServed _ refl
        (λ c. omega (
          arith,
          waits-put_or_delete c k (remove_chan cs x) r.waiters,
          waits-get c k r.waiters,
          count-remove_chan c x cs,
        ))
        (give_up-idle k x)

  -- A new channel, for a workspace without a tunnel.
  waiting-idle :
      (k : WsKey)
      → last_of (get k r.workspaces) ≡ none
      → (j : WsKey)
      → (get j r.workspaces ≡ [])
        ⊎ (get j (put k (get k r.waiters ++ r.next_chan ∷ []) r.waiters) ≡ [])
  waiting-idle k e j = elim (Bool-cases (eqb k j)) [
    | inl q ↦
        let same : k ≡ j = (eqb_iff k j).0 q in
        inl (last_of-none _ (ap (λ i. last_of (get i r.workspaces)) (sym same) ∙ e))
    | inr q ↦ elim (s.idle j) [
      | inl h ↦ inl h
      | inr h ↦ inr (get-put k j _ r.waiters ∙ if_false _ _ q ∙ h)
    ]
  ]

  waiting-tally :
      (k : WsKey) (c : ℕ)
      → waits c (put k (get k r.waiters ++ r.next_chan ∷ []) r.waiters)
        ≤ waits c r.waiters + (if r.next_chan == c then 1 else 0)
  unfolding put waits count
  waiting-tally k c =
      omega (arith, waits-get c k r.waiters, count-append c (get k r.waiters) (r.next_chan ∷ []))

  wait_on-IsServed :
      (k : WsKey) (o : Option Tunnel)
      → last_of (get k r.workspaces) ≡ o
      → IsServed (wait_on k r o).1
  unfolding wait_on
  wait_on-IsServed k (some t) e = s
  wait_on-IsServed k none e = record {
    idle = waiting-idle k e;
    once = λ c. ground (arith, waiting-tally k c, s.once c, s.fresh c);
    fresh = λ c h. ground (arith, waiting-tally k c, s.fresh c (omega arith));
  }

  remove_workspace-IsServed : (t : Tunnel) → IsServed (remove_workspace t r)
  unfolding remove_workspace
  remove_workspace-IsServed t = tally-IsServed _ refl (λ c. omega arith) (remove_workspace-idle t)

  -- One that leaves workspaces and waiters alone.
  same-IsServed :
      (r' : Registry)
      → r'.workspaces ≡ r.workspaces
      → r'.waiters ≡ r.waiters
      → r'.sent ≡ r.sent
      → r'.next_chan ≡ r.next_chan
      → IsServed r'
  same-IsServed r' w q l n =
      tally-IsServed r' n (λ c. rw q (rw l (omega arith))) (λ k. rw w (rw q (s.idle k)))

  pick_runner-IsServed : (id : String) → IsServed (pick_runner id r).1
  unfolding pick_runner
  pick_runner-IsServed id =
      same-IsServed _ (ground arith) (ground arith) (ground arith) (ground arith)

  step-IsServed : (o : Op) → IsServed (step o r)
  unfolding step add_runner remove_runner wait_workspace
  step-IsServed (add_runner_op t) = same-IsServed _ refl refl refl refl
  step-IsServed (remove_runner_op t) = same-IsServed _ refl refl refl refl
  step-IsServed (add_workspace_op t) = add_workspace-IsServed t
  step-IsServed (remove_workspace_op t) = remove_workspace-IsServed t
  step-IsServed (pick_runner_op id) = pick_runner-IsServed id
  step-IsServed (wait_op k) = wait_on-IsServed k _ refl
  step-IsServed (give_up_op k c) = give_up-IsServed k c

new-IsServed : IsServed new
unfolding new get lookup waits sent_on
new-IsServed = record { idle = λ k. inl refl; once = λ c. omega arith; fresh = λ c h. omega arith }

go : (os : List Op) (r : Registry) → IsServed r → IsServed (run os r)
unfolding run
go [] r s = s
go (o ∷ os) r s = go os (step o r) (step-IsServed r s o)

-- After any operations on a new registry: no workspace has both a live tunnel and somebody waiting
-- for one, and a waiter's channel is sent on at most once, and never again waited on once it was,
-- so that AddWorkspace neither waits on a full channel nor sends on a closed one.
pub run-IsServed : (os : List Op) → IsServed (run os new)
run-IsServed os = go os new new-IsServed
