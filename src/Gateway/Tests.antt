-- ===== src/Gateway/Tests.antt =====
-- internal/gateway on small inputs, and the theorem at them.
use lemul.Prelude.{◌≡◌, refl, [], ◌∷◌, some, false}
use lemul.Prelude.Text.{bytes, equal}
use lemul.Prelude.Dict.{string_key, lookup, put}
use lemul.Gateway.Path.{
  prepend, elements, step_back, clean_step, clean_all, reverse_onto, join, or_dot, path_clean,
  IsResolved,
}
use lemul.Gateway.{
  nat_key, Broker, open_proxy, open_check, open_on, allows, HttpRequest, rewrite, denied, serve,
}
use lemul.Gateway.Headers.{Told, serve-forwarded}

abbrev broker : Broker
broker = record {
  opt = record {
    api_key = bytes "key";
    workspace_id = bytes "w";
    user_id = [];
    allow_model_discovery = false;
  };
  sessions = [];
  last_requests = [];
  serving = [];
}

open_proxy-run : (open_proxy "s1" (some 5) 3 broker).0 ≡ some 5
unfolding open_proxy open_check open_on lookup
open_proxy-run = refl

-- A request that brings a key of its own.
abbrev asked : HttpRequest
asked = record {
  method = "POST";
  path = bytes "/v1//messages/x/..";
  header = ("X-Api-Key", bytes "mine" ∷ []) ∷ [];
}

abbrev sent : HttpRequest
sent = record asked {
  path = bytes "/v1/messages";
  header = rewrite broker.opt (bytes "s1") asked.header;
}

-- A path that leads out of the routes of inference.
serve-climbing :
    (serve
      (bytes "s1")
      5
      (record asked { path = bytes "/v1/messages/../../key/generate" })
      4
      broker).0
    ≡ denied
unfolding serve allows equal bytes path_clean elements prepend clean_all clean_step step_back
    reverse_onto join
serve-climbing = refl

clean_relative : path_clean (bytes "a/.//../../b/") ≡ bytes "../b"
unfolding equal bytes path_clean elements prepend clean_all clean_step step_back reverse_onto join
    or_dot
clean_relative = refl

serve-denied : (serve (bytes "s1") 5 (record asked { method = "GET" }) 4 broker).0 ≡ denied
unfolding serve allows equal bytes path_clean elements prepend clean_all clean_step step_back
    reverse_onto join
serve-denied = refl

serve-forwarded_example : Told broker (bytes "s1") sent × IsResolved sent.path
unfolding serve allows equal bytes path_clean elements prepend clean_all clean_step step_back
    reverse_onto join
serve-forwarded_example =
    serve-forwarded (bytes "s1") 5 asked sent 4 broker
      (record broker { last_requests = put 5 4 broker.last_requests }) refl
