-- ===== src/T3/Backend/Retry.antt =====
-- internal/t3/gateway.go: how often a backend is asked, and with which token.
use devcontainer_manager.Base.Map.{Map}
use devcontainer_manager.Base.Map
use devcontainer_manager.Go.Strings.{trim_right}
use devcontainer_manager.Base.Json.{Json}
use devcontainer_manager.Model.{T3Status}
use devcontainer_manager.T3.Backend.{
  HttpRequest, HttpResponse, Event, sent, executed, piped, World, Backend, Refresh, request_made,
  authorize, content_type, payload, request, attempt, retry_unauthorized, refresh_and_retry,
  retry_with, json_request, backend_json,
}
use devcontainer_manager.Base.{
  nat_eq, if◌then◌else◌, nat_eq_iff, Bool-cases, Str, lit, is_empty, ◌==◌, Result, ok, err, ◌≡◌,
  refl, sym, ap, ◌∙◌, subst, ◌⊎◌, inl, inr, Option, none, some, List, [], ◌∷◌, ◌++◌,
}

-- The requests among the events, the latest first.
abbrev pub requests : List Event → List HttpRequest
requests [] = []
requests (sent req ∷ es) = req ∷ requests es
requests (executed _ _ ∷ es) = requests es
requests (piped _ _ _ _ ∷ es) = requests es

-- The values of the header for a token: none where that is empty.
abbrev pub expected_authorization : Str → Option (List Str)
expected_authorization token = if is_empty token then none else some ((lit "Bearer " ++ token) ∷ [])

module _ (A : Type 0) (B : Backend) where
  -- A refresh sends nothing to the backend.
  abbrev pub IsQuiet : Refresh A → Type 0
  IsQuiet none = Unit {0}
  IsQuiet (some refresh) = (w : World A) → requests (refresh w).0.trace ≡ requests w.trace

  -- The token is what the refresh returns, when it is called with these requests made.
  abbrev pub Returns : Refresh A → List HttpRequest → Str → Type 0
  Returns none made new = ⊥
  Returns (some refresh) made new =
      (w : World A) × (requests w.trace ≡ made) × ((refresh w).1 ≡ ok new)

  -- The requests before and after: none, one with the old token, or a second one after the answer 401 to
  -- the first, with the new token, which the refresh returned. `Sends` says which requests carry a
  -- token.
  pub data IsTried (Sends : Str → HttpRequest → Type 0) (refresh : Refresh A) (old new : Str)
      : List HttpRequest → List HttpRequest → Type 0 where
    unmade : {rs : List HttpRequest} → IsTried Sends refresh old new rs rs
    once :
        {rs : List HttpRequest} {req : HttpRequest}
        → Sends old req
        → IsTried Sends refresh old new rs (req ∷ rs)
    twice :
        {rs : List HttpRequest} {first second : HttpRequest}
        → Sends old first
        → Sends new second
        → (before : List Event) (resp : HttpResponse) → B.do_request before first ≡ ok resp
        → resp.status_code ≡ 401
        → Returns refresh (first ∷ rs) new
        → IsTried Sends refresh old new rs (second ∷ first ∷ rs)

  -- One request, and its reply if it was made.
  pub record IsRequested (req : HttpRequest) (w w' : World A) (r : Result HttpResponse)
      : Type 0 where
    pub count :
        (requests w'.trace ≡ requests w.trace) ⊎ (requests w'.trace ≡ req ∷ requests w.trace)
    pub reply :
        (resp : HttpResponse)
        → r ≡ ok resp
        → (requests w'.trace ≡ req ∷ requests w.trace) × (B.do_request w.trace req ≡ ok resp)

  made-IsRequested :
      (req : HttpRequest) (r : Result (Unit {0})) (w : World A)
      → IsRequested req w (request_made A B req r w).0 (request_made A B req r w).1
  unfolding request_made
  made-IsRequested req (err e) w = record { count = inl refl; reply = λ resp eq. cc }
  made-IsRequested req (ok _) w = record { count = inr refl; reply = λ resp eq. (refl, eq) }

  pub request-IsRequested :
      (req : HttpRequest) (w : World A)
      → IsRequested req w (request A B req w).0 (request A B req w).1
  unfolding request
  request-IsRequested req w = made-IsRequested req (B.new_request req.method req.url) w

  -- The requests of an attempt, from those before it.
  abbrev Tried :
      (Str → HttpRequest → Type 0)
      → Refresh A
      → T3Status
      → World A
      → T3Status × World A × Result HttpResponse
      → Type 0
  Tried Sends refresh status w (status', w', r) =
      IsTried Sends refresh status.backend_token status'.backend_token (requests w.trace)
        (requests w'.trace)

  module _ (Sends : Str → HttpRequest → Type 0) (make : Str → HttpRequest)
      (sends : (token : Str) → Sends token (make token)) (status : T3Status) (w : World A) where
    abbrev call : Str → World A → World A × Result HttpResponse
    call token w = request A B (make token) w

    IsTried-of_count :
        (refresh : Refresh A) (new : Str) (w' : World A)
        → (requests w'.trace ≡ requests w.trace)
          ⊎ (requests w'.trace ≡ make status.backend_token ∷ requests w.trace)
        → IsTried Sends refresh status.backend_token new (requests w.trace) (requests w'.trace)
    IsTried-of_count refresh new w' (inl e) =
        subst (λ rs. IsTried Sends refresh status.backend_token new (requests w.trace) rs) (sym e)
          unmade
    IsTried-of_count refresh new w' (inr e) =
        subst (λ rs. IsTried Sends refresh status.backend_token new (requests w.trace) rs) (sym e)
          (once (sends status.backend_token))

    retry_with-Tried :
        (refresh : Refresh A) (resp : HttpResponse)
        → B.do_request w.trace (make status.backend_token) ≡ ok resp
        → resp.status_code ≡ 401
        → (w' : World A) (r : Result Str)
        → requests w'.trace ≡ make status.backend_token ∷ requests w.trace
        → ((token : Str)
            → r ≡ ok token
            → Returns refresh (make status.backend_token ∷ requests w.trace) token)
        → Tried Sends refresh status w (retry_with A B call status resp (w', r))
    unfolding retry_with
    retry_with-Tried refresh resp reply unauthorized w' (err e) same returned =
        IsTried-of_count refresh status.backend_token w' (inr same)
    retry_with-Tried refresh resp reply unauthorized w' (ok token) same returned =
        elim (request-IsRequested (make token) w').count [
          | inl e ↦ IsTried-of_count refresh token (request A B (make token) w').0 (inr (e ∙ same))
          | inr e ↦
              subst (λ rs. IsTried Sends refresh status.backend_token token (requests w.trace) rs)
                (sym (e ∙ ap (λ rs. make token ∷ rs) same))
                (twice (sends status.backend_token) (sends token) w.trace resp reply unauthorized
                  (returned token refl))
        ]

    refresh-Tried :
        (resp : HttpResponse)
        → B.do_request w.trace (make status.backend_token) ≡ ok resp
        → resp.status_code ≡ 401
        → (refresh : Refresh A) → IsQuiet refresh
        → (w' : World A) → requests w'.trace ≡ make status.backend_token ∷ requests w.trace
        → Tried Sends refresh status w (refresh_and_retry A B call status resp refresh w')
    unfolding refresh_and_retry
    refresh-Tried resp reply unauthorized none quiet w' same =
        IsTried-of_count none status.backend_token w' (inr same)
    refresh-Tried resp reply unauthorized (some refresh) quiet w' same =
        retry_with-Tried (some refresh) resp reply unauthorized (refresh w').0 (refresh w').1
          (quiet w' ∙ same) (λ token got. (w', same, got))

    retry-Tried :
        (refresh : Refresh A)
        → IsQuiet refresh
        → (w' : World A) (r : Result HttpResponse) → IsRequested (make status.backend_token) w w' r
        → Tried Sends refresh status w (retry_unauthorized A B call status refresh (w', r))
    unfolding retry_unauthorized
    retry-Tried refresh quiet w' (err e) asked =
        IsTried-of_count refresh status.backend_token w' asked.count
    retry-Tried refresh quiet w' (ok resp) asked = elim (Bool-cases (nat_eq resp.status_code 401)) [
      | inl e ↦ rw e (
          refresh-Tried resp (asked.reply resp refl).1 ((nat_eq_iff _ _).0 e) refresh quiet w'
            (asked.reply resp refl).0)
      | inr e ↦ rw e (IsTried-of_count refresh status.backend_token w' asked.count)
    ]

    pub attempt-Tried :
        (refresh : Refresh A)
        → IsQuiet refresh
        → Tried Sends refresh status w (attempt A B call status refresh w)
    unfolding attempt
    attempt-Tried refresh quiet =
        retry-Tried refresh quiet _ _ (request-IsRequested (make status.backend_token) w)

  -- What a request of `backendJSON` is to be: its method, its URL, its body, and two of its headers.
  pub record IsJsonRequest (status : T3Status) (method rest : Str) (input : Option (Map Json))
      (token : Str) (req : HttpRequest) : Type 0 where
    pub same_method : req.method ≡ method
    pub url : req.url ≡ trim_right status.backend_url b'/' ++ rest
    pub authorization : Map.lookup (lit "Authorization") req.header ≡ expected_authorization token
    pub content_type :
        Map.lookup (lit "Content-Type") req.header
        ≡ elim input [ none ↦ none | some _ ↦ some (lit "application/json" ∷ []) ]
    pub body : req.body ≡ elim input [ none ↦ [] | some fields ↦ B.marshal fields ]

  json_request-IsJsonRequest :
      (status : T3Status) (method rest : Str) (input : Option (Map Json)) (token : Str)
      → IsJsonRequest status method rest input token
          (json_request A B status method rest input token)
  unfolding json_request authorize content_type payload Map.lookup Map.insert lit ◌==◌
  json_request-IsJsonRequest status method rest none token = record {
    same_method = refl;
    url = refl;
    authorization = elim (Bool-cases (is_empty token)) [ inl e ↦ rw e refl | inr e ↦ rw e refl ];
    content_type = elim (Bool-cases (is_empty token)) [ inl e ↦ rw e refl | inr e ↦ rw e refl ];
    body = refl;
  }
  json_request-IsJsonRequest status method rest (some fields) token = record {
    same_method = refl;
    url = refl;
    authorization = elim (Bool-cases (is_empty token)) [ inl e ↦ rw e refl | inr e ↦ rw e refl ];
    content_type = elim (Bool-cases (is_empty token)) [ inl e ↦ rw e refl | inr e ↦ rw e refl ];
    body = refl;
  }

  -- A call of the backend makes at most two requests, if the refresh itself sends nothing to the backend.
  -- The first one carries the token of the status. A second one follows only an answer 401 to the first,
  -- and carries the token that the refresh returned after it, which is the one that the status has
  -- afterwards. Each has the method and the path of the call below the URL of the backend, its input as
  -- a JSON body with the content type, if there is one, and as its only `Authorization` the token, if
  -- that is not empty.
  pub backend_json-IsTried :
      {V : Type 0} (decode : Str → Result V) (status : T3Status) (refresh : Refresh A)
      → IsQuiet refresh
      → (method rest : Str) (input : Option (Map Json)) (w : World A)
      → IsTried
          (IsJsonRequest status method rest input)
          refresh
          status.backend_token
          (backend_json A B decode status refresh method rest input w).0.backend_token
          (requests w.trace)
          (requests (backend_json A B decode status refresh method rest input w).1.trace)
  unfolding backend_json
  backend_json-IsTried decode status refresh quiet method rest input w =
      attempt-Tried (IsJsonRequest status method rest input)
        (json_request A B status method rest input)
        (json_request-IsJsonRequest status method rest input) status w refresh quiet
