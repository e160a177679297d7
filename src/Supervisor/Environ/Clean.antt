-- ===== src/Supervisor/Environ/Clean.antt =====
-- internal/supervisor/supervisor.go: what a session's environment says, and what it never holds.
use mathlib.Core.List.{append_assoc, append-nil}
use lemul.Prelude.{
  ℕ, ◌≡◌, ◌≢◌, refl, sym, ap, ◌∙◌, List, [], ◌∷◌, ◌++◌, some, Bool, true, false, ◌||◌, ◌==◌,
  if◌then◌else◌, inl, inr, Bool-cases, All, arith,
}
use lemul.Prelude.Text.{Bytes, bytes, has_prefix}
use lemul.Supervisor.Environ.{
  Identity, stripped_from_child, drops_for, is_dropped, kept, or_text, config_entry,
  identity_entries, child_env, Opened, no_broker, open_failed, opened, placeholder_token,
  proxy_entries, session_env,
}

-- The entries of one variable, in their order.
unfoldable pub entries : Bytes → List Bytes → List Bytes
entries p [] = []
entries p (e ∷ es) = let rest = entries p es in if has_prefix e p then e ∷ rest else rest

entries-append :
    (p : Bytes) (es fs : List Bytes) → entries p (es ++ fs) ≡ entries p es ++ entries p fs
unfolding entries
entries-append p [] fs = refl
entries-append p (e ∷ es) fs = ground (arith, entries-append p es fs)

IsStripped : List Bytes → Bytes → Type 0
IsStripped drops p =
    (e : Bytes)
    → has_prefix e p ≡ true
    → (has_prefix e (bytes "TERM=") || has_prefix e (bytes "COLORTERM=") || is_dropped drops e)
      ≡ true

entries-kept :
    (p : Bytes) (drops es : List Bytes) → IsStripped drops p → entries p (kept drops es) ≡ []
unfolding IsStripped entries kept
entries-kept p drops [] h = refl
entries-kept p drops (e ∷ es) h = ground (arith, entries-kept p drops es h, h e)

-- What goes before and is stripped counts for nothing.
entries-session :
    (p : Bytes) (drops environ own : List Bytes)
    → IsStripped drops p
    → entries p (kept drops environ ++ own) ≡ entries p own
entries-session p drops environ own h =
    entries-append p (kept drops environ) own
    ∙ ap (λ l. l ++ entries p own) (entries-kept p drops environ h)

-- What the supervisor itself puts behind the environment that it passes on.
unfoldable own : Bool → Bytes → Bytes → Bytes → Bytes → Opened → List Bytes
own alone term home name config o =
    (bytes "TERM=" ++ term)
    ∷ bytes "COLORTERM=truecolor"
    ∷ ((if alone
          then []
          else (bytes "HOME=" ++ home)
            ∷ (bytes "USER=" ++ name)
            ∷ (bytes "LOGNAME=" ++ name)
            ∷ config_entry config)
        ++ proxy_entries o)

-- The session's environment by its two halves.
session_env-own :
    (environ : List Bytes) (term : Bytes) (who : Identity) (found : Bytes × Bytes) (o : Opened)
    (env : List Bytes)
    → session_env o (child_env environ term who found) ≡ some env
    → env
      ≡ kept (drops_for who.uid) environ
        ++ own
            (who.uid == 0)
            term
            (or_text who.home found.0)
            (or_text who.username found.1)
            who.config_dir
            o
unfolding session_env child_env own identity_entries proxy_entries
session_env-own environ term who found open_failed env e = cc
session_env-own environ term who found no_broker env e =
    let same : child_env environ term who found ≡ env = cc e in
    sym same
    ∙ ap
        (λ l.
          kept (drops_for who.uid) environ
          ++ ((bytes "TERM=" ++ term) ∷ bytes "COLORTERM=truecolor" ∷ l))
        (sym (append-nil (if who.uid == 0 then [] else identity_entries who found)))
session_env-own environ term who found (opened url) env e =
    let same : child_env environ term who found ++ proxy_entries (opened url) ≡ env = cc e in
    sym same ∙ append_assoc (kept (drops_for who.uid) environ) _ (proxy_entries (opened url))

own-entries :
    (alone : Bool) (term home name config : Bytes) (o : Opened)
    → (entries (bytes "LEMUL_TOKEN=") (own alone term home name config o) ≡ [])
      × (entries (bytes "LEMUL_GATEWAY_KEY=") (own alone term home name config o) ≡ [])
      × (entries (bytes "ANTHROPIC_API_KEY=") (own alone term home name config o) ≡ [])
      × (entries (bytes "ANTHROPIC_BASE_URL=") (own alone term home name config o)
          ≡ entries (bytes "ANTHROPIC_BASE_URL=") (proxy_entries o))
      × (entries (bytes "ANTHROPIC_AUTH_TOKEN=") (own alone term home name config o)
          ≡ entries (bytes "ANTHROPIC_AUTH_TOKEN=") (proxy_entries o))
unfolding own entries proxy_entries config_entry placeholder_token has_prefix bytes
own-entries true term home name config no_broker = (refl, refl, refl, refl, refl)
own-entries true term home name config open_failed = (refl, refl, refl, refl, refl)
own-entries true term home name config (opened url) = (refl, refl, refl, refl, refl)
own-entries false term home name [] no_broker = (refl, refl, refl, refl, refl)
own-entries false term home name [] open_failed = (refl, refl, refl, refl, refl)
own-entries false term home name [] (opened url) = (refl, refl, refl, refl, refl)
own-entries false term home name (c ∷ config) no_broker = (refl, refl, refl, refl, refl)
own-entries false term home name (c ∷ config) open_failed = (refl, refl, refl, refl, refl)
own-entries false term home name (c ∷ config) (opened url) = (refl, refl, refl, refl, refl)

IsStripped-secret : (uid : ℕ) → All (IsStripped (drops_for uid)) stripped_from_child
unfolding IsStripped drops_for stripped_from_child is_dropped
IsStripped-secret uid = elim (Bool-cases (uid == 0)) [
  | inl e ↦ rw e (grind arith)
  | inr e ↦ rw e (grind arith)
]

IsStripped-term : (drops : List Bytes) → IsStripped drops (bytes "TERM=")
unfolding IsStripped
IsStripped-term drops e h = ground arith

IsStripped-own :
    (uid : ℕ)
    → uid ≢ 0
    → All
        (IsStripped (drops_for uid))
        (bytes "HOME=" ∷ bytes "USER=" ∷ bytes "LOGNAME=" ∷ bytes "CLAUDE_CONFIG_DIR=" ∷ [])
unfolding IsStripped drops_for stripped_from_child is_dropped
IsStripped-own uid h = let e : (uid == 0) ≡ false = ground arith in rw e (grind arith)

-- Of the variables that carry a credential or a route to the model, a session's environment holds
-- exactly what the broker's proxy adds: the task's token, the gateway's key and an API key never, and
-- a base URL and an auth token only as the proxy's own, whatever the supervisor's environment says.
pub session_env-clean :
    (environ : List Bytes) (term : Bytes) (who : Identity) (found : Bytes × Bytes) (o : Opened)
    (env : List Bytes)
    → session_env o (child_env environ term who found) ≡ some env
    → (entries (bytes "LEMUL_TOKEN=") env ≡ [])
      × (entries (bytes "LEMUL_GATEWAY_KEY=") env ≡ [])
      × (entries (bytes "ANTHROPIC_API_KEY=") env ≡ [])
      × (entries (bytes "ANTHROPIC_BASE_URL=") env
          ≡ entries (bytes "ANTHROPIC_BASE_URL=") (proxy_entries o))
      × (entries (bytes "ANTHROPIC_AUTH_TOKEN=") env
          ≡ entries (bytes "ANTHROPIC_AUTH_TOKEN=") (proxy_entries o))
unfolding stripped_from_child
session_env-clean environ term who found o env e =
    let s = IsStripped-secret who.uid in
    let home = or_text who.home found.0 in
    let name = or_text who.username found.1 in
    let r = own-entries (who.uid == 0) term home name who.config_dir o in
    let from = λ (p : Bytes) (h : IsStripped (drops_for who.uid) p).
      ap (entries p) (session_env-own environ term who found o env e)
      ∙ entries-session p (drops_for who.uid) environ
          (own (who.uid == 0) term home name who.config_dir o) h in
    (
      from _ s.1.0 ∙ r.0,
      from _ s.0 ∙ r.1,
      from _ s.1.1.1.1.0 ∙ r.2,
      from _ s.1.1.0 ∙ r.3,
      from _ s.1.1.1.0 ∙ r.4,
    )

own-identity :
    (term home name config : Bytes) (o : Opened)
    → (entries (bytes "TERM=") (own false term home name config o) ≡ (bytes "TERM=" ++ term) ∷ [])
      × (entries (bytes "HOME=") (own false term home name config o) ≡ (bytes "HOME=" ++ home) ∷ [])
      × (entries (bytes "USER=") (own false term home name config o) ≡ (bytes "USER=" ++ name) ∷ [])
      × (entries (bytes "LOGNAME=") (own false term home name config o)
          ≡ (bytes "LOGNAME=" ++ name) ∷ [])
      × (entries (bytes "CLAUDE_CONFIG_DIR=") (own false term home name config o)
          ≡ config_entry config)
unfolding own entries proxy_entries config_entry placeholder_token has_prefix bytes
own-identity term home name [] no_broker = (refl, refl, refl, refl, refl)
own-identity term home name [] open_failed = (refl, refl, refl, refl, refl)
own-identity term home name [] (opened url) = (refl, refl, refl, refl, refl)
own-identity term home name (c ∷ config) no_broker = (refl, refl, refl, refl, refl)
own-identity term home name (c ∷ config) open_failed = (refl, refl, refl, refl, refl)
own-identity term home name (c ∷ config) (opened url) = (refl, refl, refl, refl, refl)

-- A session of a uid of its own has one terminal, one home, one user and one login name, those of its
-- identity (or of the user database, where the identity leaves them empty), and a configuration
-- directory only if its identity names one. Nothing of the supervisor's own comes through.
pub session_env-identity :
    (environ : List Bytes) (term : Bytes) (who : Identity) (found : Bytes × Bytes) (o : Opened)
    (env : List Bytes)
    → session_env o (child_env environ term who found) ≡ some env
    → who.uid ≢ 0
    → (entries (bytes "TERM=") env ≡ (bytes "TERM=" ++ term) ∷ [])
      × (entries (bytes "HOME=") env ≡ (bytes "HOME=" ++ or_text who.home found.0) ∷ [])
      × (entries (bytes "USER=") env ≡ (bytes "USER=" ++ or_text who.username found.1) ∷ [])
      × (entries (bytes "LOGNAME=") env ≡ (bytes "LOGNAME=" ++ or_text who.username found.1) ∷ [])
      × (entries (bytes "CLAUDE_CONFIG_DIR=") env ≡ config_entry who.config_dir)
session_env-identity environ term who found o env e ne =
    let s = IsStripped-own who.uid ne in
    let alone : (who.uid == 0) ≡ false = ground arith in
    let home = or_text who.home found.0 in
    let name = or_text who.username found.1 in
    let r = own-identity term home name who.config_dir o in
    let from = λ (p : Bytes) (h : IsStripped (drops_for who.uid) p).
      ap (entries p) (session_env-own environ term who found o env e)
      ∙ (entries-session p (drops_for who.uid) environ
            (own (who.uid == 0) term home name who.config_dir o) h
          ∙ ap (λ b. entries p (own b term home name who.config_dir o)) alone) in
    (
      from _ (IsStripped-term (drops_for who.uid)) ∙ r.0,
      from _ s.0 ∙ r.1,
      from _ s.1.0 ∙ r.2,
      from _ s.1.1.0 ∙ r.3,
      from _ s.1.1.1.0 ∙ r.4,
    )
