-- ===== src/T3/Proxy.antt =====
-- internal/t3/gateway.go: `proxyHTTP` and `proxyWebsocket`. The package net/url and the WebSocket
-- library are parameters.
use devcontainer_manager.Base.Map
use devcontainer_manager.Base.Map.{Map}
use devcontainer_manager.Go.Strings.{replace_first}
use devcontainer_manager.Model.{T3Status}
use devcontainer_manager.T3.Titles.{single_joining_slash}
use devcontainer_manager.T3.Pairing.{Reply, http_error}
use devcontainer_manager.T3.Backend.{
  HttpRequest, HttpResponse, World, Backend, Refresh, authorize, request, attempt,
}
use devcontainer_manager.T3.Endpoints.{issue_ws_token}
use devcontainer_manager.T3.Backend.Retry.{
  expected_authorization, IsQuiet, IsTried, requests, attempt-Tried,
}
use devcontainer_manager.Base.{
  if◌then◌else◌, Bool-cases, Str, lit, is_empty, ◌==◌, Result, ok, err, ◌≡◌, refl, ◌∙◌, ◌⊎◌, inl,
  inr, Bool, none, some, List, [], ◌∷◌, ◌++◌,
}

-- `url.URL`; `authority` stands for the parts that the code does not touch.
pub record Url : Type 0 where
  pub scheme : Str
  pub authority : Str
  pub path : Str
  pub raw_query : Str

pub record Web : Type 0 where
  -- `url.Parse` and `URL.String`
  pub parse_url : Str → Result Url
  pub url_string : Url → Str
  -- `Query`, `Set` of a key and a value, and `Encode`
  pub set_query : Str → Str → Str → Str
  -- whether `Upgrade` succeeds, and `Dial`
  pub upgrades : Bool
  pub dial : Str → Result (Unit {0})

-- A request of a browser. Its body may fail to be read.
pub record Incoming : Type 0 where
  pub method : Str
  pub path : Str
  pub raw_query : Str
  pub header : Map (List Str)
  pub body : Result Str
  pub is_websocket : Bool

pub data Answer : Type 0 where
  replied : Reply → Answer
  -- the response of the backend
  proxied : HttpResponse → Answer
  -- the upgrade failed, which the library answers
  not_upgraded : Answer
  -- the upstream of a WebSocket, and the error of its dial
  relayed : Str → Answer
  undialled : Str → Answer
  -- a nil pointer was read
  crashed : Answer

unfoldable pub proxied_request : Web → Url → Incoming → Str → Str → Str → HttpRequest
unfolding authorize
proxied_request W target r rest body token = record {
  method = r.method;
  url =
      W.url_string
        (record target { path = single_joining_slash target.path rest; raw_query = r.raw_query });
  header = authorize token (Map.delete (lit "Authorization") r.header);
  body = body;
}

unfoldable pub websocket_target : Web → Url → Incoming → Str → Str → Url
websocket_target W target r rest token = record target {
  scheme = replace_first target.scheme (lit "http") (lit "ws");
  path = single_joining_slash target.path rest;
  raw_query = W.set_query r.raw_query (lit "wsToken") token;
}

unfoldable pub proxy_answer : Result HttpResponse → Answer
proxy_answer (err e) = replied (http_error 502 e)
proxy_answer (ok resp) = proxied resp

unfoldable pub relay : Web → Str → Result (Unit {0}) → Answer
relay W upstream (err e) = undialled e
relay W upstream (ok _) = relayed upstream

-- The part of `proxyWebsocket` that follows the token.
unfoldable pub open_websocket : Web → Incoming → Str → Str → Result Url → Answer
unfolding relay websocket_target
open_websocket W r rest token (err _) = crashed
open_websocket W r rest token (ok target) =
    let upstream = W.url_string (websocket_target W target r rest token) in
    if W.upgrades then relay W upstream (W.dial upstream) else not_upgraded

module _ (A : Type 0) (B : Backend) (W : Web) where
  unfoldable pub proxy_body :
      Incoming → Str → T3Status → Refresh A → Url → Result Str → World A → World A × Answer
  unfolding proxy_answer
  proxy_body r rest status refresh target (err e) w = (w, replied (http_error 502 e))
  proxy_body r rest status refresh target (ok body) w =
      let (status', w', result) =
        attempt A B (λ token w. request A B (proxied_request W target r rest body token) w) status
          refresh w in
      (w', proxy_answer result)

  unfoldable pub proxy_target :
      Incoming → Str → T3Status → Refresh A → Result Url → World A → World A × Answer
  unfolding proxy_body
  proxy_target r rest status refresh (err e) w = (w, replied (http_error 502 e))
  proxy_target r rest status refresh (ok target) w =
      proxy_body r rest status refresh target r.body w

  unfoldable pub proxy_http : Incoming → Str → T3Status → Refresh A → World A → World A × Answer
  unfolding proxy_target
  proxy_http r rest status refresh w =
      proxy_target r rest status refresh (W.parse_url status.backend_url) w

  -- The token of a WebSocket, with a second attempt after a refresh.
  unfoldable pub reissue_ws_token : T3Status → Str → World A × Result Str → World A × Result Str
  reissue_ws_token status e (w, err _) = (w, err e)
  reissue_ws_token status e (w, ok token) =
      issue_ws_token A B (record status { backend_token = token }) w

  unfoldable pub retry_ws_token : T3Status → Refresh A → World A × Result Str → World A × Result Str
  unfolding reissue_ws_token
  retry_ws_token status refresh (w, ok token) = (w, ok token)
  retry_ws_token status none (w, err e) = (w, err e)
  retry_ws_token status (some refresh) (w, err e) = reissue_ws_token status e (refresh w)

  unfoldable pub websocket_answer :
      Incoming → Str → T3Status → World A × Result Str → World A × Answer
  unfolding open_websocket
  websocket_answer r rest status (w, err e) = (w, replied (http_error 502 e))
  websocket_answer r rest status (w, ok token) =
      (w, open_websocket W r rest token (W.parse_url status.backend_url))

  unfoldable pub proxy_websocket :
      Incoming → Str → T3Status → Refresh A → World A → World A × Answer
  unfolding retry_ws_token websocket_answer
  proxy_websocket r rest status refresh w =
      websocket_answer r rest status (retry_ws_token status refresh (issue_ws_token A B status w))

pub proxied_request-header :
    (W : Web) (target : Url) (r : Incoming) (rest body token key : Str)
    → Map.lookup key (proxied_request W target r rest body token).header ≡ (
        if lit "Authorization" == key
        then expected_authorization token
        else Map.lookup key r.header)
unfolding proxied_request authorize
proxied_request-header W target r rest body token key = elim (Bool-cases (is_empty token)) [
  | inl e ↦ rw e (Map.lookup-delete (lit "Authorization") key r.header)
  | inr e ↦ rw e (
      Map.lookup-insert (lit "Authorization") key ((lit "Bearer " ++ token) ∷ [])
        (Map.delete (lit "Authorization") r.header)
      ∙ elim (Bool-cases (lit "Authorization" == key)) [
        | inl same ↦ rw same refl
        | inr other ↦
            rw other (Map.lookup-delete (lit "Authorization") key r.header ∙ rw other refl)
      ])
]

-- What a proxied request is to be: of the browser's method and body, at the joined path of the backend with
-- the browser's query, with the headers of the browser, but for the token.
pub record IsProxiedRequest (W : Web) (target : Url) (r : Incoming) (rest body token : Str)
    (req : HttpRequest) : Type 0 where
  pub same_method : req.method ≡ r.method
  pub url :
      req.url
      ≡ W.url_string (record {
        scheme = target.scheme;
        authority = target.authority;
        path = single_joining_slash target.path rest;
        raw_query = r.raw_query;
      })
  pub same_body : req.body ≡ body
  pub header :
      (key : Str)
      → Map.lookup key req.header ≡ (
          if lit "Authorization" == key
          then expected_authorization token
          else Map.lookup key r.header)

proxied_request-IsProxiedRequest :
    (W : Web) (target : Url) (r : Incoming) (rest body token : Str)
    → IsProxiedRequest W target r rest body token (proxied_request W target r rest body token)
unfolding proxied_request
proxied_request-IsProxiedRequest W target r rest body token = record {
  same_method = refl;
  url = refl;
  same_body = refl;
  header = proxied_request-header W target r rest body token;
}

module _ (A : Type 0) (B : Backend) (W : Web) where
  -- The requests that a proxied request makes of its backend.
  abbrev pub IsProxied : Incoming → Str → T3Status → Refresh A → World A → World A → Type 0
  IsProxied r rest status refresh w w' =
      (requests w'.trace ≡ requests w.trace)
      ⊎ ((target : Url) × (body : Str) × (new : Str) × (W.parse_url status.backend_url ≡ ok target)
          × (r.body ≡ ok body)
          × IsTried A B (IsProxiedRequest W target r rest body) refresh status.backend_token new
              (requests w.trace) (requests w'.trace))

  body-IsProxied :
      (r : Incoming) (rest : Str) (status : T3Status) (refresh : Refresh A)
      → IsQuiet A B refresh
      → (w : World A) (target : Url) → W.parse_url status.backend_url ≡ ok target
      → (body : Result Str) → r.body ≡ body
      → IsProxied r rest status refresh w (proxy_body A B W r rest status refresh target body w).0
  unfolding proxy_body
  body-IsProxied r rest status refresh quiet w target parsed (err e) h = inl refl
  body-IsProxied r rest status refresh quiet w target parsed (ok body) h = inr (
    target,
    body,
    _,
    parsed,
    h,
    attempt-Tried A B (IsProxiedRequest W target r rest body) (proxied_request W target r rest body)
        (proxied_request-IsProxiedRequest W target r rest body) status w refresh quiet,
  )

  target-IsProxied :
      (r : Incoming) (rest : Str) (status : T3Status) (refresh : Refresh A)
      → IsQuiet A B refresh
      → (w : World A) (target : Result Url) → W.parse_url status.backend_url ≡ target
      → IsProxied r rest status refresh w (proxy_target A B W r rest status refresh target w).0
  unfolding proxy_target
  target-IsProxied r rest status refresh quiet w (err e) h = inl refl
  target-IsProxied r rest status refresh quiet w (ok target) h =
      body-IsProxied r rest status refresh quiet w target h r.body refl

  -- A proxied request makes at most two requests of the backend, if the refresh sends nothing to it. The
  -- first carries the token of the status. A second one follows only an answer 401 to the first, and
  -- carries the token that the refresh returned after it. Both have the browser's method, query, body
  -- and headers, but for `Authorization`, which is the token, if that is not empty, and the scheme and
  -- host of the backend, at the path that joins its path and the rest.
  pub proxy_http-IsProxied :
      (r : Incoming) (rest : Str) (status : T3Status) (refresh : Refresh A)
      → IsQuiet A B refresh
      → (w : World A)
      → IsProxied r rest status refresh w (proxy_http A B W r rest status refresh w).0
  unfolding proxy_http
  proxy_http-IsProxied r rest status refresh quiet w =
      target-IsProxied r rest status refresh quiet w (W.parse_url status.backend_url) refl
