-- ===== src/Gateway.antt =====
-- internal/gateway/proxy.go: the broker that stands between a session and the model gateway, one
-- loopback listener for each session. A listener is a number, and what net.Listen gives is an argument.
-- A header is kept under its canonical name, with all its values;
-- what httputil.ReverseProxy does by itself is not modelled. Times are nanoseconds.
pub mod Path
pub mod Headers
mod Tests
use Prim.Native.String.{String}
use lemul.Prelude.{
  ℕ, List, [], ◌∷◌, ◌++◌, Option, none, some, Bool, true, false, ◌&&◌, ◌||◌, ◌==◌, ==_iff,
  if◌then◌else◌,
}
use lemul.Prelude.Text.{Bytes, bytes, equal, has_prefix}
use lemul.Gateway.Path.{path_clean}
use lemul.Prelude.Dict.{Key, string_key, Dict, lookup, put, without}

instance abbrev pub nat_key : Key ℕ
nat_key = record { test = ◌==◌; test_iff = ==_iff }

-- Options
pub record Options : Type 0 where
  pub api_key : Bytes
  pub workspace_id : Bytes
  pub user_id : Bytes
  pub allow_model_discovery : Bool

-- Broker, with the time of each listener's last request, and the listeners that are served.
pub record Broker : Type 0 where
  pub opt : Options
  pub sessions : Dict String ℕ
  pub last_requests : Dict ℕ ℕ
  pub serving : List ℕ

-- The first half of Open: the session's proxy, if there is one.
unfoldable pub open_check : String → Broker → Option ℕ
open_check id b = lookup id b.sessions

-- The second half, with a listener that net.Listen gave. The mutex is free in between.
unfoldable pub open_insert : String → ℕ → ℕ → Broker → Broker
open_insert id listener now b = record b {
  sessions = put id listener b.sessions;
  last_requests = put listener now b.last_requests;
  serving = listener ∷ b.serving;
}

unfoldable pub open_on : Option ℕ → Option ℕ → String → ℕ → Broker → Option ℕ × Broker
open_on (some listener) listen id now b = (some listener, b)
open_on none none id now b = (none, b)
open_on none (some listener) id now b = (some listener, open_insert id listener now b)

-- Open, where nothing happens in between; `none` is the error of net.Listen.
unfoldable pub open_proxy : String → Option ℕ → ℕ → Broker → Option ℕ × Broker
open_proxy id listen now b = open_on (open_check id b) listen id now b

unfoldable pub last_on : Option ℕ → Dict ℕ ℕ → Option ℕ
last_on none d = none
last_on (some listener) d = lookup listener d

-- LastRequest
unfoldable pub last_request : String → Broker → Option ℕ
last_request id b = last_on (lookup id b.sessions) b.last_requests

unfoldable pub stop_serving : Option ℕ → List ℕ → List ℕ
stop_serving none ls = ls
stop_serving (some l) [] = []
stop_serving (some l) (k ∷ ls) =
    let rest = stop_serving (some l) ls in if k == l then rest else k ∷ rest

-- Close
unfoldable pub close : String → Broker → Broker
close id b = record b {
  sessions = without id b.sessions;
  serving = stop_serving (lookup id b.sessions) b.serving;
}

stop_each : Dict String ℕ → List ℕ → List ℕ
stop_each [] ls = ls
stop_each ((id, l) ∷ d) ls = stop_each d (stop_serving (some l) ls)

-- CloseAll
unfoldable pub close_all : Broker → Broker
unfolding stop_each
close_all b = record b { sessions = []; serving = stop_each b.sessions b.serving }

-- http.MethodPost and http.MethodGet
abbrev pub method_post : String
method_post = "POST"

abbrev pub method_get : String
method_get = "GET"

-- The part of `allows` behind the cases that return by themselves.
unfoldable pub allows : Bool → String → Bytes → Bool
allows discovery method path =
    if equal path (bytes "/v1/messages") || equal path (bytes "/v1/messages/count_tokens")
    then string_key.test method method_post
    else if equal path (bytes "/v1/models")
    then discovery && string_key.test method method_get
    else discovery && string_key.test method method_get && has_prefix path (bytes "/v1/models/")

abbrev pub Header : Type 0
Header = Dict String (List Bytes)

unfoldable pub user_tag : Bytes → Bytes
user_tag [] = []
user_tag (c ∷ u) = bytes ",user:" ++ c ∷ u

-- The tags, joined.
unfoldable pub tags : Options → Bytes → Bytes
tags o session =
    bytes "workspace:" ++ o.workspace_id ++ bytes ",session:" ++ session ++ user_tag o.user_id

unfoldable pub end_user : Bytes → Header → Header
end_user [] h = h
end_user (c ∷ u) h = put "X-Litellm-End-User-Id" ((c ∷ u) ∷ []) h

-- What Rewrite does to the headers of a request that is sent on for `session`.
unfoldable pub rewrite : Options → Bytes → Header → Header
rewrite o session h = put "X-Litellm-Tags" (tags o session ∷ []) (
    end_user o.user_id (
      without "X-Litellm-End-User-Id" (
        without "X-Litellm-Tags" (
          put "Authorization" ((bytes "Bearer " ++ o.api_key) ∷ [])
            (without "X-Api-Key" (without "Authorization" h))))))

pub record HttpRequest : Type 0 where
  pub method : String
  pub path : Bytes
  pub header : Header

-- What becomes of a request: 404, or it is sent to the gateway.
pub data Outcome : Type 0 where
  denied : Outcome
  forwarded : HttpRequest → Outcome

-- The handler of one session's listener: it decides on the cleaned path, and sends that on.
unfoldable pub serve : Bytes → ℕ → HttpRequest → ℕ → Broker → Outcome × Broker
serve session listener r now b =
    let clean = path_clean r.path in
    if allows b.opt.allow_model_discovery r.method clean
    then (
      forwarded
          (record { method = r.method; path = clean; header = rewrite b.opt session r.header }),
      record b { last_requests = put listener now b.last_requests },
    )
    else (denied, b)
