-- ===== src/Gateway/Headers.antt =====
-- internal/gateway/proxy.go: what leaves the task for the gateway, and with whose credential.
use Prim.Native.String.{String}
use lemul.Prelude.{
  ℕ, ◌≡◌, refl, sym, ◌∙◌, List, [], ◌∷◌, ◌++◌, Option, none, some, true, false, if_false, subst,
  inl, inr, Bool-cases, arith,
}
use lemul.Prelude.Text.{Bytes, bytes, equal, equal_iff, prefix-split}
use lemul.Prelude.Dict.{string_key, eqb, eqb_iff, lookup, put, without, lookup-put, lookup-without}
use lemul.Gateway.Path.{path_clean, Relative, IsResolved, path_clean-cases}
use lemul.Gateway.{
  Options, Broker, allows, method_post, method_get, Header, tags, end_user, rewrite, HttpRequest,
  forwarded, serve,
}

-- The values of the end user's header.
unfoldable pub end_users : Bytes → Option (List Bytes)
end_users [] = none
end_users (c ∷ u) = some ((c ∷ u) ∷ [])

lookup-end_user :
    (u : Bytes) (h : Header)
    → lookup "X-Litellm-End-User-Id" h ≡ none
    → lookup "X-Litellm-End-User-Id" (end_user u h) ≡ end_users u
unfolding end_user end_users
lookup-end_user [] h e = e
lookup-end_user (c ∷ u) h e =
    lookup-put "X-Litellm-End-User-Id" "X-Litellm-End-User-Id" ((c ∷ u) ∷ []) h

-- The end user's header is the only one that is set.
lookup-other :
    (k : String) (u : Bytes) (h : Header)
    → eqb "X-Litellm-End-User-Id" k ≡ false
    → lookup k (end_user u h) ≡ lookup k h
unfolding end_user
lookup-other k [] h e = refl
lookup-other k (c ∷ u) h e = lookup-put "X-Litellm-End-User-Id" k ((c ∷ u) ∷ []) h ∙ rw e refl

-- The routes of inference: a message, or, where the broker allows it, a look at the models.
pub data IsInference (b : Broker) (method : String) : Bytes → Type 0 where
  message : method ≡ method_post → IsInference b method (bytes "/v1/messages")
  count_tokens : method ≡ method_post → IsInference b method (bytes "/v1/messages/count_tokens")
  models :
      b.opt.allow_model_discovery ≡ true
      → method ≡ method_get
      → IsInference b method (bytes "/v1/models")
  model :
      (rest : Bytes)
      → b.opt.allow_model_discovery ≡ true
      → method ≡ method_get
      → IsInference b method (bytes "/v1/models/" ++ rest)

allows-IsInference :
    (b : Broker) (method : String) (path : Bytes)
    → allows b.opt.allow_model_discovery method path ≡ true
    → IsInference b method path
unfolding allows
allows-IsInference b method path h = elim (Bool-cases (equal path (bytes "/v1/messages"))) [
  | inl e ↦
      subst (IsInference b method) (sym ((equal_iff path _).0 e))
        (message ((eqb_iff method method_post).0 (ground (arith, h, e))))
  | inr e ↦ elim (Bool-cases (equal path (bytes "/v1/messages/count_tokens"))) [
    | inl f ↦
        subst (IsInference b method) (sym ((equal_iff path _).0 f))
          (count_tokens ((eqb_iff method method_post).0 (ground (arith, h, e, f))))
    | inr f ↦ elim (Bool-cases (equal path (bytes "/v1/models"))) [
      | inl g ↦ subst (IsInference b method) (sym ((equal_iff path _).0 g)) (
          models (ground (arith, h, e, f, g))
            ((eqb_iff method method_get).0 (ground (arith, h, e, f, g))))
      | inr g ↦
          let (rest, s) = prefix-split path (bytes "/v1/models/") (ground (arith, h, e, f, g)) in
          subst (IsInference b method) (sym s) (
            model rest (ground (arith, h, e, f, g))
              ((eqb_iff method method_get).0 (ground (arith, h, e, f, g))))
    ]
  ]
]

-- What the gateway is told, by the headers of a request.
abbrev pub Told : Broker → Bytes → HttpRequest → Type 0
Told b session out =
    IsInference b out.method out.path
    × (lookup "Authorization" out.header ≡ some ((bytes "Bearer " ++ b.opt.api_key) ∷ []))
    × (lookup "X-Api-Key" out.header ≡ none)
    × (lookup "X-Litellm-Tags" out.header ≡ some (tags b.opt session ∷ []))
    × (lookup "X-Litellm-End-User-Id" out.header ≡ end_users b.opt.user_id)

-- A header but the tags and the end user, after Rewrite.
lookup-rewrite :
    (k : String) (o : Options) (session : Bytes) (h : Header)
    → eqb "X-Litellm-Tags" k ≡ false
    → eqb "X-Litellm-End-User-Id" k ≡ false
    → lookup k (rewrite o session h)
      ≡ lookup k (
          put "Authorization"
            ((bytes "Bearer " ++ o.api_key) ∷ [])
            (without "X-Api-Key" (without "Authorization" h)))
unfolding rewrite
lookup-rewrite k o session h t u =
    lookup-put "X-Litellm-Tags" k (tags o session ∷ []) _
    ∙ (if_false _ _ t
        ∙ (lookup-other k o.user_id _ u
            ∙ (lookup-without "X-Litellm-End-User-Id" k _
                ∙ (if_false _ _ u ∙ (lookup-without "X-Litellm-Tags" k _ ∙ if_false _ _ t)))))

-- A route of inference is a path from the root.
inference_rooted :
    (b : Broker) (method : String) (path : Bytes) → IsInference b method path → ¬ Relative path
unfolding bytes
inference_rooted b method _ (message m) r = r refl
inference_rooted b method _ (count_tokens m) r = r refl
inference_rooted b method _ (models d m) r = r refl
inference_rooted b method _ (model rest d m) r = r refl

inference-IsResolved :
    (b : Broker) (method : String) (p : Bytes)
    → IsInference b method (path_clean p)
    → IsResolved (path_clean p)
inference-IsResolved b method p h = elim (path_clean-cases p) [
  | inl r ↦ absurd (inference_rooted b method (path_clean p) h r)
  | inr r ↦ r
]

-- The headers that are sent.
abbrev Credentialed : Options → Bytes → Header → Type 0
Credentialed o session h =
    (lookup "Authorization" h ≡ some ((bytes "Bearer " ++ o.api_key) ∷ []))
    × (lookup "X-Api-Key" h ≡ none)
    × (lookup "X-Litellm-Tags" h ≡ some (tags o session ∷ []))
    × (lookup "X-Litellm-End-User-Id" h ≡ end_users o.user_id)

rewrite-Credentialed :
    (o : Options) (session : Bytes) (h : Header) → Credentialed o session (rewrite o session h)
rewrite-Credentialed o session h = (
  lookup-rewrite "Authorization" o session h refl refl
      ∙ lookup-put "Authorization" "Authorization" _ _,
  lookup-rewrite "X-Api-Key" o session h refl refl
      ∙ (lookup-put "Authorization" "X-Api-Key" _ _ ∙ lookup-without "X-Api-Key" "X-Api-Key" _),
  unfold rewrite in lookup-put "X-Litellm-Tags" "X-Litellm-Tags" _ _,
  unfold rewrite in
      lookup-put "X-Litellm-Tags" "X-Litellm-End-User-Id" _ _
      ∙ lookup-end_user o.user_id _
          (lookup-without "X-Litellm-End-User-Id" "X-Litellm-End-User-Id" _),
)

-- A request that a session's listener sends on goes to a route of inference, by a path from the root
-- in which no element is empty, a dot or two dots, whatever path the session asked for; and it carries
-- the broker's credential and no other, the tags of the broker's workspace and of the listener's
-- session, and the broker's end user or none, whatever the session put into these headers.
pub serve-forwarded :
    (session : Bytes) (listener : ℕ) (r out : HttpRequest) (now : ℕ) (b b' : Broker)
    → serve session listener r now b ≡ (forwarded out, b')
    → Told b session out × IsResolved out.path
unfolding serve
serve-forwarded session listener r out now b b' e =
    elim (Bool-cases (allows b.opt.allow_model_discovery r.method (path_clean r.path))) [
      | inr n ↦ absurd (ground (arith, e, n))
      | inl t ↦
          let made : HttpRequest = record {
            method = r.method;
            path = path_clean r.path;
            header = rewrite b.opt session r.header;
          } in
          let sent : forwarded made ≡ forwarded out = ground (arith, e, t) in
          let route = allows-IsInference b r.method (path_clean r.path) t in
          let (a, k, g, u) = rewrite-Credentialed b.opt session r.header in
          subst (λ o. Told b session o × IsResolved o.path) (cc sent)
            ((route, a, k, g, u), inference-IsResolved b r.method r.path route)
    ]
