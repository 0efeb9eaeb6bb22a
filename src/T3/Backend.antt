-- ===== src/T3/Backend.antt =====
-- internal/t3/gateway.go: requests to the t3 server of a container: `backendJSON` and `dispatch`.
--
-- The HTTP client, the JSON codec and the commands in the container are parameters. Their replies may
-- depend on all that happened before, so each is a function of the events so far, the latest first.
-- A handler also runs beside a state that it shares with the service, which a refresh of the
-- token changes. Contexts enter by replies that are errors.
pub mod Retry
pub mod Answers
use devcontainer_manager.Base.Map
use devcontainer_manager.Base.Map.{Map}
use devcontainer_manager.Base.Json.{Json, as_string}
use devcontainer_manager.Go.Strings.{trim_right, trim_space}
use devcontainer_manager.Model.{T3Status}
use devcontainer_manager.Base.{
  ltb, leb, nat_eq, if◌then◌else◌, take, Str, lit, is_empty, Result, ok, err, ◌>>=◌, ℕ, Bool, not,
  ◌&&◌, Option, none, some, List, [], ◌∷◌, ◌++◌,
}

-- `http.Request`, as the client gets it.
pub record HttpRequest : Type 0 where
  pub method : Str
  pub url : Str
  pub header : Map (List Str)
  pub body : Str

-- `http.Response`: `StatusCode`, `Status`, `Header` and all of the body.
pub record HttpResponse : Type 0 where
  pub status_code : ℕ
  pub status : Str
  pub header : Map (List Str)
  pub body : Str

pub data Event : Type 0 where
  -- a request to the backend
  sent : HttpRequest → Event
  -- a command in a container
  executed : Str → List Str → Event
  -- a file written in a container: its user, the command and the input
  piped : Str → List Str → Str → Str → Event

-- A handler's surroundings: the events so far and the state that it shares.
pub record World (A : Type 0) : Type 0 where
  pub trace : List Event
  pub shared : A

pub record Backend : Type 1 where
  -- `client.Do`
  pub do_request : List Event → HttpRequest → Result HttpResponse
  -- the error of `http.NewRequestWithContext`, of the method and the URL
  pub new_request : Str → Str → Result (Unit {0})
  -- `docker.Exec` and `docker.ExecWithStdin`
  pub exec : List Event → Str → List Str → Result Str
  pub exec_with_stdin : List Event → Str → List Str → Str → Str → Result (Unit {0})
  -- `json.Marshal`, and `Decode` into a `map[string]any`
  pub marshal : Map Json → Str
  pub decode : Str → Result (Map Json)

-- `Header.Set(key, value)`, of a canonical key
abbrev pub set_header : Str → Str → Map (List Str) → Map (List Str)
set_header key value h = Map.insert key (value ∷ []) h

unfoldable pub authorize : Str → Map (List Str) → Map (List Str)
authorize token h =
    if is_empty token then h else set_header (lit "Authorization") (lit "Bearer " ++ token) h

-- A response whose body was closed.
abbrev pub close_body : HttpResponse → HttpResponse
close_body resp = record resp { body = [] }

abbrev pub is_success : HttpResponse → Bool
is_success resp = leb 200 resp.status_code && ltb resp.status_code 300

-- The closure by which a handler gets a new token: `none` where it is nil.
abbrev pub Refresh : Type 0 → Type 0
Refresh A = Option (World A → World A × Result Str)

module _ (A : Type 0) (B : Backend) where
  unfoldable pub perform : HttpRequest → World A → World A × Result HttpResponse
  perform req w = (record w { trace = sent req ∷ w.trace }, B.do_request w.trace req)

  -- A request, if it could be made.
  unfoldable pub request_made :
      HttpRequest → Result (Unit {0}) → World A → World A × Result HttpResponse
  unfolding perform
  request_made req (err e) w = (w, err e)
  request_made req (ok _) w = perform req w

  unfoldable pub request : HttpRequest → World A → World A × Result HttpResponse
  unfolding request_made
  request req w = request_made req (B.new_request req.method req.url) w

  abbrev pub Attempt : Type 0
  Attempt = Str → World A → World A × Result HttpResponse

  -- The second attempt, with the token that the refresh gave.
  unfoldable pub retry_with :
      Attempt
      → T3Status
      → HttpResponse
      → World A × Result Str
      → T3Status × World A × Result HttpResponse
  retry_with call status resp (w, err _) = (status, w, ok (close_body resp))
  retry_with call status resp (w, ok token) =
      let (w', r) = call token w in (record status { backend_token = token }, w', r)

  unfoldable pub refresh_and_retry :
      Attempt
      → T3Status
      → HttpResponse
      → Refresh A
      → World A
      → T3Status × World A × Result HttpResponse
  unfolding retry_with
  refresh_and_retry call status resp none w = (status, w, ok resp)
  refresh_and_retry call status resp (some refresh) w = retry_with call status resp (refresh w)

  unfoldable pub retry_unauthorized :
      Attempt
      → T3Status
      → Refresh A
      → World A × Result HttpResponse
      → T3Status × World A × Result HttpResponse
  unfolding refresh_and_retry
  retry_unauthorized call status refresh (w, err e) = (status, w, err e)
  retry_unauthorized call status refresh (w, ok resp) =
      if nat_eq resp.status_code 401
      then refresh_and_retry call status resp refresh w
      else (status, w, ok resp)

  -- The start of `backendJSON` and of `proxyHTTP`: an attempt, and a second one after a refresh.
  unfoldable pub attempt :
      Attempt → T3Status → Refresh A → World A → T3Status × World A × Result HttpResponse
  unfolding retry_unauthorized
  attempt call status refresh w =
      retry_unauthorized call status refresh (call status.backend_token w)

  unfoldable pub content_type : Option (Map Json) → Map (List Str)
  content_type none = []
  content_type (some _) = set_header (lit "Content-Type") (lit "application/json") []

  unfoldable pub payload : Option (Map Json) → Str
  payload none = []
  payload (some input) = B.marshal input

  unfoldable pub json_request : T3Status → Str → Str → Option (Map Json) → Str → HttpRequest
  unfolding content_type payload authorize
  json_request status method rest input token = record {
    method = method;
    url = trim_right status.backend_url b'/' ++ rest;
    header = authorize token (content_type input);
    body = payload input;
  }

  -- The end of `backendJSON`. Every caller gives an output.
  unfoldable pub read_reply : {V : Type 0} → (Str → Result V) → Result HttpResponse → Result V
  read_reply decode (err e) = err e
  read_reply decode (ok resp) =
      if not (is_success resp)
      then err (resp.status ++ (lit ": " ++ trim_space (take 4096 resp.body)))
      else decode (take 1_048_576 resp.body)

  unfoldable pub backend_json :
      {V : Type 0}
      → (Str → Result V)
      → T3Status
      → Refresh A
      → Str
      → Str
      → Option (Map Json)
      → World A
      → T3Status × World A × Result V
  unfolding attempt request json_request read_reply
  backend_json decode status refresh method rest input w =
      let (status', w', r) =
        attempt (λ token w. request (json_request status method rest input token) w) status refresh
          w in
      (status', w', read_reply decode r)

  unfoldable pub dispatch :
      T3Status → Refresh A → Map Json → World A → T3Status × World A × Result (Map Json)
  unfolding backend_json
  dispatch status refresh command w =
      backend_json B.decode status refresh (lit "POST") (lit "/api/orchestration/dispatch")
        (some command) w
