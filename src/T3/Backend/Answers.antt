-- ===== src/T3/Backend/Answers.antt =====
-- internal/t3/gateway.go: where a result of `backendJSON` comes from.
use devcontainer_manager.Base.Json.{Json}
use devcontainer_manager.Base.Map.{Map}
use devcontainer_manager.Model.{T3Status}
use devcontainer_manager.T3.Backend.{
  HttpRequest, HttpResponse, Event, World, Backend, Refresh, is_success, close_body, request,
  attempt, retry_unauthorized, refresh_and_retry, retry_with, json_request, read_reply,
  backend_json,
}
use devcontainer_manager.T3.Backend.Retry.{IsRequested, request-IsRequested}
use devcontainer_manager.Base.{
  nat_eq, nat_eq_iff, Bool-cases, take, Str, Result, ok, err, ◌≡◌, refl, sym, ◌∙◌, subst, inl, inr,
  true, false, Option, none, some, List, arith,
}

module _ (A : Type 0) (B : Backend) where
  -- The backend gave this response to a request of this form.
  pub record IsResponse (make : Str → HttpRequest) (resp : HttpResponse) : Type 0 where
    pub before : List Event
    pub token : Str
    pub reply : B.do_request before (make token) ≡ ok resp

  unauthorized_fails : (resp : HttpResponse) → resp.status_code ≡ 401 → is_success resp ≡ false
  unauthorized_fails resp e = simp e (ground arith)

  module _ (make : Str → HttpRequest) (status : T3Status) where
    abbrev call : Str → World A → World A × Result HttpResponse
    call token w = request A B (make token) w

    retry_with-IsResponse :
        (first resp : HttpResponse)
        → first.status_code ≡ 401
        → (w : World A) (r : Result Str) → (retry_with A B call status first (w, r)).2 ≡ ok resp
        → is_success resp ≡ true
        → IsResponse make resp
    unfolding retry_with
    retry_with-IsResponse first resp e w (err m) h good =
        let same : close_body first ≡ resp = cc in
        absurd (
          ground
            (arith, unauthorized_fails first e, subst (λ r. is_success r ≡ true) (sym same) good))
    retry_with-IsResponse first resp e w (ok token) h good = record {
      before = w.trace;
      token = token;
      reply = ((request-IsRequested A B (make token) w).reply resp h).1;
    }

    refresh-IsResponse :
        (first resp : HttpResponse)
        → first.status_code ≡ 401
        → (refresh : Refresh A) (w : World A)
        → (refresh_and_retry A B call status first refresh w).2 ≡ ok resp
        → is_success resp ≡ true
        → IsResponse make resp
    unfolding refresh_and_retry
    refresh-IsResponse first resp e none w h good =
        let same : first ≡ resp = cc in
        absurd (
          ground
            (arith, unauthorized_fails first e, subst (λ r. is_success r ≡ true) (sym same) good))
    refresh-IsResponse first resp e (some refresh) w h good =
        retry_with-IsResponse first resp e (refresh w).0 (refresh w).1 h good

    retry-IsResponse :
        (resp : HttpResponse) (refresh : Refresh A) (w w' : World A) (r : Result HttpResponse)
        → IsRequested A B (make status.backend_token) w w' r
        → (retry_unauthorized A B call status refresh (w', r)).2 ≡ ok resp
        → is_success resp ≡ true
        → IsResponse make resp
    unfolding retry_unauthorized
    retry-IsResponse resp refresh w w' (err m) asked h good = cc
    retry-IsResponse resp refresh w w' (ok first) asked h good =
        elim (Bool-cases (nat_eq first.status_code 401)) [
          | inl e ↦
              refresh-IsResponse first resp ((nat_eq_iff _ _).0 e) refresh w' (simp e at h) good
          | inr e ↦
              let same : ◌≡◌ {A = Result HttpResponse} (ok first) (ok resp) = simp e at h in
              record {
                before = w.trace;
                token = status.backend_token;
                reply = (asked.reply first refl).1 ∙ same;
              }
        ]

    attempt-IsResponse :
        (resp : HttpResponse) (refresh : Refresh A) (w : World A)
        → (attempt A B call status refresh w).2 ≡ ok resp
        → is_success resp ≡ true
        → IsResponse make resp
    unfolding attempt
    attempt-IsResponse resp refresh w h good =
        retry-IsResponse resp refresh w _ _ (request-IsRequested A B (make status.backend_token) w)
          h good

  -- The value that a call of the backend gives was decoded from the body of a response with a status
  -- of success to its request.
  pub record IsAnswered {V : Type 0} (decode : Str → Result V) (make : Str → HttpRequest) (v : V)
      : Type 0 where
    pub resp : HttpResponse
    pub response : IsResponse make resp
    pub success : is_success resp ≡ true
    pub decoded : decode (take 1_048_576 resp.body) ≡ ok v

  read_reply-IsAnswered :
      {V : Type 0} (decode : Str → Result V) (make : Str → HttpRequest) (v : V)
      (r : Result HttpResponse)
      → ((resp : HttpResponse) → r ≡ ok resp → is_success resp ≡ true → IsResponse make resp)
      → read_reply A B decode r ≡ ok v
      → IsAnswered decode make v
  unfolding read_reply
  read_reply-IsAnswered decode make v (err e) f h = cc
  read_reply-IsAnswered decode make v (ok resp) f h = elim (Bool-cases (is_success resp)) [
    | inl good ↦ record {
      resp = resp;
      response = f resp refl good;
      success = good;
      decoded = simp good at h;
    }
    | inr bad ↦ cc (simp bad at h)
  ]

  pub backend_json-IsAnswered :
      {V : Type 0} (decode : Str → Result V) (status : T3Status) (refresh : Refresh A)
      (method rest : Str) (input : Option (Map Json)) (w : World A) (v : V)
      → (backend_json A B decode status refresh method rest input w).2 ≡ ok v
      → IsAnswered decode (json_request A B status method rest input) v
  unfolding backend_json
  backend_json-IsAnswered decode status refresh method rest input w v h =
      read_reply-IsAnswered decode (json_request A B status method rest input) v _
        (λ resp e good.
          attempt-IsResponse (json_request A B status method rest input) status resp refresh w e
            good)
        h

  -- The URL of the backend stays what it was.
  abbrev SameUrl : T3Status → T3Status × World A × Result HttpResponse → Type 0
  SameUrl status outcome = outcome.0.backend_url ≡ status.backend_url

  module _ (send : Str → World A → World A × Result HttpResponse) (status : T3Status) where
    retry_with-SameUrl :
        (resp : HttpResponse) (w : World A) (r : Result Str)
        → SameUrl status (retry_with A B send status resp (w, r))
    unfolding retry_with
    retry_with-SameUrl resp w (err e) = refl
    retry_with-SameUrl resp w (ok token) = refl

    refresh-SameUrl :
        (resp : HttpResponse) (refresh : Refresh A) (w : World A)
        → SameUrl status (refresh_and_retry A B send status resp refresh w)
    unfolding refresh_and_retry
    refresh-SameUrl resp none w = refl
    refresh-SameUrl resp (some refresh) w = retry_with-SameUrl resp (refresh w).0 (refresh w).1

    retry-SameUrl :
        (refresh : Refresh A) (w : World A) (r : Result HttpResponse)
        → SameUrl status (retry_unauthorized A B send status refresh (w, r))
    unfolding retry_unauthorized
    retry-SameUrl refresh w (err e) = refl
    retry-SameUrl refresh w (ok resp) = elim (Bool-cases (nat_eq resp.status_code 401)) [
      | inl e ↦ rw e (refresh-SameUrl resp refresh w)
      | inr e ↦ rw e refl
    ]

  pub backend_json-backend_url :
      {V : Type 0} (decode : Str → Result V) (status : T3Status) (refresh : Refresh A)
      (method rest : Str) (input : Option (Map Json)) (w : World A)
      → (backend_json A B decode status refresh method rest input w).0.backend_url
        ≡ status.backend_url
  unfolding backend_json attempt
  backend_json-backend_url decode status refresh method rest input w =
      let send = λ (token : Str) (w : World A).
        request A B (json_request A B status method rest input token) w in
      retry-SameUrl send status refresh (send status.backend_token w).0
        (send status.backend_token w).1
