-- ===== src/Supervisor/Args.antt =====
-- internal/supervisor/claudeargs.go: the arguments a session's command is started with. filepath.Base
-- is an argument, and so are the results of the calls to the operating system: the default directory
-- (defaultConfigDir) and whether a transcript is found (filepath.Glob).
use lemul.Prelude.{
  ◌≡◌, refl, sym, ap, ◌∙◌, List, [], ◌∷◌, ◌++◌, Bool, true, false, ◌||◌, not, if◌then◌else◌,
  if_true, if_false, Bool-cases, inl, inr, arith,
}
use lemul.Prelude.Text.{Bytes, bytes, equal, has_prefix}

-- One argument that names a session already.
unfoldable pub is_session_flag : Bytes → Bool
is_session_flag a =
    equal a (bytes "--session-id")
    || has_prefix a (bytes "--session-id=")
    || equal a (bytes "--resume")
    || equal a (bytes "-r")
    || has_prefix a (bytes "--resume=")
    || equal a (bytes "--continue")
    || equal a (bytes "-c")

any_flag : List Bytes → Bool
any_flag [] = false
any_flag (a ∷ as') = is_session_flag a || any_flag as'

-- hasSessionFlag: the arguments behind the program's name.
unfoldable pub has_session_flag : List Bytes → Bool
unfolding any_flag
has_session_flag [] = false
has_session_flag (program ∷ args) = any_flag args

is_claude : Bytes → Bool
is_claude name = equal name (bytes "claude") || equal name (bytes "claude.js")

-- transcriptExists: in the named directory, or else in the default one.
unfoldable pub transcript_exists : (Bytes → Bytes → Bool) → Bytes → Bytes → Bytes → Bool
transcript_exists found [] [] id = false
transcript_exists found (c ∷ default_dir) [] id = found (c ∷ default_dir) id
transcript_exists found default_dir (c ∷ dir) id = found (c ∷ dir) id

is_empty : Bytes → Bool
is_empty [] = true
is_empty (c ∷ s) = false

module _ (base : Bytes → Bytes) where
  unfoldable pub resume_supported : List Bytes → Bool
  unfolding is_claude
  resume_supported [] = false
  resume_supported (program ∷ args) = is_claude (base program)

  -- sessionArgs, with whether a transcript of the session exists.
  leave_alone : List Bytes → Bytes → Bool
  unfolding is_empty
  leave_alone cmd id = not (resume_supported cmd) || is_empty id || has_session_flag cmd

  unfoldable pub session_args : Bool → List Bytes → Bytes → List Bytes
  unfolding leave_alone
  session_args resumable cmd id =
      if leave_alone cmd id
      then cmd
      else if resumable
      then cmd ++ (bytes "--resume" ∷ id ∷ [])
      else cmd ++ (bytes "--session-id" ∷ id ∷ [])

  any_flag-append : (args more : List Bytes) → any_flag more ≡ true → any_flag (args ++ more) ≡ true
  unfolding any_flag
  any_flag-append [] more h = h
  any_flag-append (a ∷ args) more h = ground (arith, any_flag-append args more h)

  has_session_flag-append :
      (cmd more : List Bytes)
      → resume_supported cmd ≡ true
      → any_flag more ≡ true
      → has_session_flag (cmd ++ more) ≡ true
  unfolding has_session_flag resume_supported
  has_session_flag-append [] more h m = cc h
  has_session_flag-append (program ∷ args) more h m = any_flag-append args more m

  session_args-alone :
      (resumable : Bool) (cmd : List Bytes) (id : Bytes)
      → leave_alone cmd id ≡ true
      → session_args resumable cmd id ≡ cmd
  unfolding session_args
  session_args-alone resumable cmd id h = if_true cmd _ h

  leave_alone-append :
      (cmd : List Bytes) (id flag : Bytes)
      → resume_supported cmd ≡ true
      → is_session_flag flag ≡ true
      → leave_alone (cmd ++ (flag ∷ id ∷ [])) id ≡ true
  unfolding leave_alone any_flag
  leave_alone-append cmd id flag h f =
      ground (arith, has_session_flag-append cmd (flag ∷ id ∷ []) h (ground arith))

  named :
      (r : Bool) (cmd : List Bytes) (id : Bytes)
      → leave_alone cmd id ≡ false
      → leave_alone (session_args r cmd id) id ≡ true
  unfolding session_args is_session_flag equal bytes has_prefix
  named true cmd id e =
      ap (λ c. leave_alone c id) (if_false cmd (cmd ++ (bytes "--resume" ∷ id ∷ [])) e)
      ∙ leave_alone-append cmd id (bytes "--resume") (unfold leave_alone in ground arith) refl
  named false cmd id e =
      ap (λ c. leave_alone c id) (if_false cmd (cmd ++ (bytes "--session-id" ∷ id ∷ [])) e)
      ∙ leave_alone-append cmd id (bytes "--session-id") (unfold leave_alone in ground arith) refl

  -- Started again with the arguments it was given, a command is given no more: a session is named at
  -- most once, whether its transcript has come to exist or gone in between.
  pub session_args-twice :
      (resumable later : Bool) (cmd : List Bytes) (id : Bytes)
      → session_args later (session_args resumable cmd id) id ≡ session_args resumable cmd id
  session_args-twice resumable later cmd id = elim (Bool-cases (leave_alone cmd id)) [
    | inl e ↦
        let same = session_args-alone resumable cmd id e in
        ap (λ c. session_args later c id) same ∙ (session_args-alone later cmd id e ∙ sym same)
    | inr e ↦ session_args-alone later (session_args resumable cmd id) id (named resumable cmd id e)
  ]
