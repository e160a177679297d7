-- ===== src/Mgmt/Uids/Numbers.antt =====
-- internal/mgmtapi/sessionidentity.go: a uid is one member's for good, whatever runs in between.
use Prim.Native.String.{String}
use lemul.Prelude.{
  ℕ, ◌+◌, ◌≡◌, ◌≤◌, inl, inr, refl, sym, ap, ◌∙◌, subst, List, [], ◌∷◌, ◌++◌, Option, none, some,
  ltb, ◌==◌, if_true, if_false, Bool-cases, Option-cases, arith,
}
use lemul.Prelude.Dict.{
  string_key, eqb, eqb_iff, Dict, lookup, put, without, lookup-put, lookup-without,
}
use lemul.Mgmt.Access.{
  Member, Gate, granted, not_found, forbidden, conflict, bad_request, failed, WsScope,
}
use lemul.Mgmt.Uids.{
  uid_base, homes_root, unix_name, Rows, MemberIdentity, ensure_on, ensure_member, add_on,
  add_member, remove_member, Stage, ensuring, reading, taking, rereading, claiming, done, read_uid,
  read_on, claim_uid, claim_on, advance, identity_on, identity_of, behind, role_asked, put_on,
  put_workspace_member, delete_on, delete_workspace_member, System, Op, begin, go_on, put_op,
  delete_op, set_at, noted, go_on_at, step, run, new_system,
}

abbrev Numbers : Type 0
Numbers = ℕ → Option String

-- A row's uid was taken for its user.
abbrev Owns : Numbers → String → Option Member → Type 0
Owns f user row = (m : Member) (n : ℕ) → row ≡ some m → m.uid ≡ some n → f n ≡ some user

abbrev AllOwn : Numbers → Dict String Member → Type 0
AllOwn f d = (user : String) → Owns f user (lookup user d)

-- What a transaction holds was taken for its user.
Holds : Numbers → Stage → Type 0
Holds f (ensuring user) = Unit
Holds f (reading user) = Unit
Holds f (taking user) = Unit
Holds f (rereading user) = Unit
Holds f (claiming user n) = f n ≡ some user
Holds f (done user row) = Owns f user row

record IsAllocated (s : System) : Type 0 where
  fresh : (n : ℕ) → s.rows.next_uid ≤ n → s.numbers n ≡ none
  floor : uid_base ≤ s.rows.next_uid
  above : (n : ℕ) (user : String) → s.numbers n ≡ some user → uid_base ≤ n
  rows : AllOwn s.numbers s.rows.members
  holds : (k : ℕ) (p : Stage) → s.stages k ≡ some p → Holds s.numbers p

put-AllOwn :
    (f : Numbers) (user : String) (m : Member) (d : Dict String Member)
    → AllOwn f d
    → Owns f user (some m)
    → AllOwn f (put user m d)
put-AllOwn f user m d h o u =
    subst (Owns f u) (sym (lookup-put user u m d)) (elim (Bool-cases (eqb user u)) [
      | inl e ↦
          subst (Owns f u) (sym (if_true _ _ e))
            (subst (λ v. Owns f v (some m)) ((eqb_iff user u).0 e) o)
      | inr e ↦ subst (Owns f u) (sym (if_false _ _ e)) (h u)
    ])

without-AllOwn :
    (f : Numbers) (user : String) (d : Dict String Member) → AllOwn f d → AllOwn f (without user d)
without-AllOwn f user d h u =
    subst (Owns f u) (sym (lookup-without user u d)) (elim (Bool-cases (eqb user u)) [
      | inl e ↦ subst (Owns f u) (sym (if_true _ _ e)) (λ m n a b. cc a)
      | inr e ↦ subst (Owns f u) (sym (if_false _ _ e)) (h u)
    ])

-- A row without a uid owns nothing that is not its user's.
plain-Owns : (f : Numbers) (user : String) (row : Member) → row.uid ≡ none → Owns f user (some row)
plain-Owns f user row e m n a b =
    let same : row ≡ m = cc a in
    let u : row.uid ≡ some n = ap (λ c. c.uid) same ∙ b in cc (sym e ∙ u)

-- What a statement, or a handler, makes of the rows.
abbrev Keeps : Numbers → Rows → Rows → Type 0
Keeps f r q = (AllOwn f r.members → AllOwn f q.members) × (q.next_uid ≡ r.next_uid)

ensure_on-Keeps :
    (f : Numbers) (row : Option Member) (user : String) (r : Rows)
    → Keeps f r (ensure_on row user r)
unfolding ensure_on
ensure_on-Keeps f none user r =
    (λ h. put-AllOwn f user _ r.members h (plain-Owns f user _ refl), refl)
ensure_on-Keeps f (some m) user r = (λ h. h, refl)

add_on-Keeps :
    (f : Numbers) (row : Option Member) (user role : String) (r : Rows)
    → lookup user r.members ≡ row
    → Keeps f r (add_on row user role r)
unfolding add_on
add_on-Keeps f none user role r e =
    (λ h. put-AllOwn f user _ r.members h (plain-Owns f user _ refl), refl)
add_on-Keeps f (some m) user role r e = (λ h. put-AllOwn f user _ r.members h (owned h), refl)
  where
    owned : AllOwn f r.members → Owns f user (some (record m { role = role }))
    owned h c n a b =
        let same : record m { role = role } ≡ c = cc a in h user m n e (ap (λ d. d.uid) same ∙ b)

behind-Keeps :
    {A : Type 0} (f : Numbers) (body : WsScope → Rows → Gate A × Rows)
    → ((a : WsScope) (r : Rows) → Keeps f r (body a r).1)
    → (g : Gate WsScope) (r : Rows) → Keeps f r (behind body g r).1
unfolding behind
behind-Keeps f body k (granted a) r = k a r
behind-Keeps f body k not_found r = (λ h. h, refl)
behind-Keeps f body k forbidden r = (λ h. h, refl)
behind-Keeps f body k conflict r = (λ h. h, refl)
behind-Keeps f body k bad_request r = (λ h. h, refl)
behind-Keeps f body k failed r = (λ h. h, refl)

put_on-Keeps :
    (f : Numbers) (role target : Option String) (user : String) (a : WsScope) (r : Rows)
    → Keeps f r (put_on role target user a r).1
unfolding put_on add_member
put_on-Keeps f none target user a r = (λ h. h, refl)
put_on-Keeps f (some role) none user a r = (λ h. h, refl)
put_on-Keeps f (some role) (some _) user a r =
    add_on-Keeps f (lookup user r.members) user role r refl

delete_on-Keeps :
    (f : Numbers) (user : String) (a : WsScope) (r : Rows) → Keeps f r (delete_on user a r).1
unfolding delete_on remove_member
delete_on-Keeps f user a r = elim (Bool-cases (eqb user a.ws.owner_user_id)) [
  | inl e ↦ subst (λ (c : Gate String × Rows). Keeps f r c.1) (sym (if_true _ _ e)) (λ h. h, refl)
  | inr e ↦
      subst (λ (c : Gate String × Rows). Keeps f r c.1) (sym (if_false _ _ e))
        (without-AllOwn f user r.members, refl)
]

read_on-Holds :
    (f : Numbers) (user : String) (row : Option Member)
    → Owns f user row
    → Holds f (read_on user row)
unfolding read_on read_uid Holds
read_on-Holds f user none h = h
read_on-Holds f user (some m) h = go m.uid
  where
    go : (u : Option ℕ) → Holds f (read_uid user m u)
    go none = tt
    go (some n) = h

claim_on-Keeps :
    (f : Numbers) (user : String) (n : ℕ) (row : Option Member) (r : Rows)
    → f n ≡ some user
    → Keeps f r (claim_on user n row r).1 × Holds f (claim_on user n row r).0
unfolding claim_on claim_uid Holds
claim_on-Keeps f user n none r e = ((λ h. h, refl), tt)
claim_on-Keeps f user n (some m) r e = go m.uid
  where
    claimed : Owns f user (some (record m { uid = some n }))
    claimed c k a b =
        let same : record m { uid = some n } ≡ c = cc a in
        let u : some n ≡ some k = ap (λ d. d.uid) same ∙ b in
        let k_n : n ≡ k = cc u in ap f (sym k_n) ∙ e

    go : (u : Option ℕ) → Keeps f r (claim_uid user n m u r).1 × Holds f (claim_uid user n m u r).0
    go none = ((λ h. put-AllOwn f user _ r.members h claimed, refl), claimed)
    go (some old) = ((λ h. h, refl), tt)

-- More numbers that are taken leave those that were.
abbrev Extends : Numbers → Numbers → Type 0
Extends f g = (n : ℕ) (user : String) → f n ≡ some user → g n ≡ some user

Holds-Extends : (f g : Numbers) (p : Stage) → Extends f g → Holds f p → Holds g p
unfolding Holds
Holds-Extends f g (ensuring user) x h = h
Holds-Extends f g (reading user) x h = h
Holds-Extends f g (taking user) x h = h
Holds-Extends f g (rereading user) x h = h
Holds-Extends f g (claiming user n) x h = x n user h
Holds-Extends f g (done user row) x h = λ m n a b. x n user (h m n a b)

set_at-Holds :
    (f : Numbers) (k : ℕ) (p : Stage) (stages : ℕ → Option Stage)
    → Holds f p
    → ((j : ℕ) (q : Stage) → stages j ≡ some q → Holds f q)
    → (j : ℕ) (q : Stage) → set_at k p stages j ≡ some q
    → Holds f q
unfolding set_at
set_at-Holds f k p stages h all j q e = elim (Bool-cases (j == k)) [
  | inl t ↦ let same : p ≡ q = cc (sym (if_true _ _ t) ∙ e) in subst (Holds f) same h
  | inr t ↦ all j q (sym (if_false _ _ t) ∙ e)
]

-- The next number, taken.
set_at-Extends : (f : Numbers) (n : ℕ) (user : String) → f n ≡ none → Extends f (set_at n user f)
unfolding set_at
set_at-Extends f n user e k u h = elim (Bool-cases (k == n)) [
  | inl t ↦
      let same : k ≡ n = ground (arith, t) in
      let none_there : f k ≡ none = ap f same ∙ e in cc (sym none_there ∙ h)
  | inr t ↦ if_false _ _ t ∙ h
]

set_at-here : (f : Numbers) (n : ℕ) (user : String) → set_at n user f n ≡ some user
unfolding set_at
set_at-here f n user = ground arith

set_at-above : (f : Numbers) (n j : ℕ) (user : String) → n + 1 ≤ j → set_at n user f j ≡ f j
unfolding set_at
set_at-above f n j user l = ground (arith, l)

set_at-least :
    (f : Numbers) (b n : ℕ) (user : String)
    → b ≤ n
    → ((j : ℕ) (u : String) → f j ≡ some u → b ≤ j)
    → (j : ℕ) (u : String) → set_at n user f j ≡ some u
    → b ≤ j
unfolding set_at
set_at-least f b n user l h j u e = elim (Bool-cases (j == n)) [
  | inl t ↦ ground (arith, t, l)
  | inr t ↦ h j u (sym (if_false _ _ t) ∙ e)
]

-- A step that takes no number.
kept-IsAllocated :
    (s : System) (k : ℕ) (p : Stage) (r : Rows)
    → IsAllocated s
    → Keeps s.numbers s.rows r
    → Holds s.numbers p
    → IsAllocated (record { rows = r; stages = set_at k p s.stages; numbers = s.numbers })
kept-IsAllocated s k p r h keeps holds = record {
  fresh = λ n l. h.fresh n (subst (λ c. c ≤ n) keeps.1 l);
  floor = subst (λ c. uid_base ≤ c) (sym keeps.1) h.floor;
  above = h.above;
  rows = keeps.0 h.rows;
  holds = set_at-Holds s.numbers k p s.stages holds h.holds;
}

rows-IsAllocated :
    (s : System) (r : Rows)
    → IsAllocated s
    → Keeps s.numbers s.rows r
    → IsAllocated (record s { rows = r })
rows-IsAllocated s r h keeps = record {
  fresh = λ n l. h.fresh n (subst (λ c. c ≤ n) keeps.1 l);
  floor = subst (λ c. uid_base ≤ c) (sym keeps.1) h.floor;
  above = h.above;
  rows = keeps.0 h.rows;
  holds = h.holds;
}

taken-IsAllocated :
    (s : System) (k : ℕ) (user : String)
    → IsAllocated s
    → IsAllocated (record {
      rows = record s.rows { next_uid = s.rows.next_uid + 1 };
      stages = set_at k (claiming user s.rows.next_uid) s.stages;
      numbers = set_at s.rows.next_uid user s.numbers;
    })
unfolding Holds
taken-IsAllocated s k user h =
    let n = s.rows.next_uid in
    let g = set_at n user s.numbers in
    let more : Extends s.numbers g = set_at-Extends s.numbers n user (h.fresh n (omega arith)) in
    record {
      fresh = λ j l. set_at-above s.numbers n j user l ∙ h.fresh j (omega (arith, l));
      floor = omega (arith, h.floor);
      above = set_at-least s.numbers uid_base n user h.floor h.above;
      rows = λ u m j a b. more j u (h.rows u m j a b);
      holds =
          set_at-Holds g k (claiming user n) s.stages (set_at-here s.numbers n user)
            (λ j q e. Holds-Extends s.numbers g q more (h.holds j q e));
    }

go_on-IsAllocated :
    (s : System) (k : ℕ) (p : Stage)
    → s.stages k ≡ some p
    → IsAllocated s
    → IsAllocated (go_on_at k (some p) s)
unfolding go_on_at advance noted ensure_member Holds
go_on-IsAllocated s k (ensuring user) e h =
    kept-IsAllocated s k (reading user) _ h
      (ensure_on-Keeps s.numbers (lookup user s.rows.members) user s.rows) tt
go_on-IsAllocated s k (reading user) e h =
    kept-IsAllocated s k _ s.rows h (λ o. o, refl)
      (read_on-Holds s.numbers user (lookup user s.rows.members) (h.rows user))
go_on-IsAllocated s k (taking user) e h = taken-IsAllocated s k user h
go_on-IsAllocated s k (claiming user n) e h =
    let c =
      claim_on-Keeps s.numbers user n (lookup user s.rows.members) s.rows
        (h.holds k (claiming user n) e) in
    kept-IsAllocated s k _ _ h c.0 c.1
go_on-IsAllocated s k (rereading user) e h =
    kept-IsAllocated s k _ s.rows h (λ o. o, refl) (h.rows user)
go_on-IsAllocated s k (done user row) e h =
    kept-IsAllocated s k _ s.rows h (λ o. o, refl) (h.holds k (done user row) e)

step-IsAllocated : (o : Op) (s : System) → IsAllocated s → IsAllocated (step o s)
unfolding step Holds put_workspace_member delete_workspace_member
step-IsAllocated (begin k user) s h =
    kept-IsAllocated s k (ensuring user) s.rows h (λ o. o, refl) tt
step-IsAllocated (go_on k) s h = elim (Option-cases (s.stages k)) [
  | inl e ↦ subst (λ p. IsAllocated (go_on_at k p s)) (sym e) (unfold go_on_at in h)
  | inr (p, e) ↦ subst (λ p. IsAllocated (go_on_at k p s)) (sym e) (go_on-IsAllocated s k p e h)
]
step-IsAllocated (put_op g asked target user) s h =
    rows-IsAllocated s _ h
      (behind-Keeps s.numbers _ (put_on-Keeps s.numbers (role_asked asked) target user) g s.rows)
step-IsAllocated (delete_op g user) s h =
    rows-IsAllocated s _ h (behind-Keeps s.numbers _ (delete_on-Keeps s.numbers user) g s.rows)

run-IsAllocated : (ops : List Op) (s : System) → IsAllocated s → IsAllocated (run ops s)
unfolding run
run-IsAllocated [] s h = h
run-IsAllocated (o ∷ ops) s h = run-IsAllocated ops (step o s) (step-IsAllocated o s h)

new_system-IsAllocated : IsAllocated new_system
unfolding lookup
new_system-IsAllocated = record {
  fresh = λ n l. refl;
  floor = omega arith;
  above = λ n user e. cc e;
  rows = λ user m n a b. cc a;
  holds = λ k p e. cc e;
}

-- Numbers that were taken stay with whom they were taken for.
go_on-Extends :
    (s : System) (k : ℕ) (p : Stage)
    → IsAllocated s
    → Extends s.numbers (go_on_at k (some p) s).numbers
unfolding go_on_at noted
go_on-Extends s k (ensuring user) h = λ n u e. e
go_on-Extends s k (reading user) h = λ n u e. e
go_on-Extends s k (taking user) h =
    set_at-Extends s.numbers s.rows.next_uid user (h.fresh s.rows.next_uid (omega arith))
go_on-Extends s k (rereading user) h = λ n u e. e
go_on-Extends s k (claiming user m) h = λ n u e. e
go_on-Extends s k (done user row) h = λ n u e. e

step-Extends : (o : Op) (s : System) → IsAllocated s → Extends s.numbers (step o s).numbers
unfolding step
step-Extends (begin k user) s h = λ n u e. e
step-Extends (go_on k) s h = elim (Option-cases (s.stages k)) [
  | inl e ↦
      subst (λ p. Extends s.numbers (go_on_at k p s).numbers) (sym e)
        (unfold go_on_at in (λ n u e. e))
  | inr (p, e) ↦
      subst (λ p. Extends s.numbers (go_on_at k p s).numbers) (sym e) (go_on-Extends s k p h)
]
step-Extends (put_op g asked target user) s h = λ n u e. e
step-Extends (delete_op g user) s h = λ n u e. e

run-Extends : (ops : List Op) (s : System) → IsAllocated s → Extends s.numbers (run ops s).numbers
unfolding run
run-Extends [] s h n u e = e
run-Extends (o ∷ ops) s h n u e =
    run-Extends ops (step o s) (step-IsAllocated o s h) n u (step-Extends o s h n u e)

identity_on-uid : (u : Option ℕ) (i : MemberIdentity) → identity_on u ≡ some i → u ≡ some i.uid
unfolding identity_on
identity_on-uid none i e = cc e
identity_on-uid (some n) i e = elim (Bool-cases (ltb n uid_base)) [
  | inl t ↦ absurd (ground (arith, e, t))
  | inr t ↦
      let own : MemberIdentity = record {
        uid = n;
        username = unix_name n;
        home = homes_root ++ (b'/' ∷ unix_name n);
      } in
      let same : own ≡ i = cc (sym (if_false _ _ t) ∙ e) in ap (λ c. some c.uid) same
]

-- An identity is of a number that was taken for its user.
identity_of-taken :
    (f : Numbers) (user : String) (row : Option Member) (i : MemberIdentity)
    → Holds f (done user row)
    → identity_of (done user row) ≡ some i
    → f i.uid ≡ some user
unfolding identity_of Holds
identity_of-taken f user none i h e = cc e
identity_of-taken f user (some m) i h e = h m i.uid refl (identity_on-uid m.uid i e)

-- However the statements of any resolutions of members' uids and the owners' verbs on members mix,
-- from a new workspace on: if two resolutions end with identities, at any two times, that have one uid,
-- they are of one user, also where a member was removed in between; and a uid is at least 2000.
pub resolved-one_user :
    (ops more : List Op) (k j : ℕ) (user other : String) (row later : Option Member)
    (i i' : MemberIdentity)
    → (run ops new_system).stages k ≡ some (done user row)
    → identity_of (done user row) ≡ some i
    → (run more (run ops new_system)).stages j ≡ some (done other later)
    → identity_of (done other later) ≡ some i'
    → i.uid ≡ i'.uid
    → (user ≡ other) × (uid_base ≤ i.uid)
resolved-one_user ops more k j user other row later i i' a x b y same =
    let s = run ops new_system in
    let q = run more s in
    let h = run-IsAllocated ops new_system new_system-IsAllocated in
    let g = run-IsAllocated more s h in
    let first : s.numbers i.uid ≡ some user =
      identity_of-taken s.numbers user row i (h.holds k (done user row) a) x in
    let second : q.numbers i'.uid ≡ some other =
      identity_of-taken q.numbers other later i' (g.holds j (done other later) b) y in
    let still : q.numbers i.uid ≡ some user = run-Extends more s h i.uid user first in
    let both : some user ≡ some other = sym still ∙ (ap q.numbers same ∙ second) in
    (cc both, h.above i.uid user first)
