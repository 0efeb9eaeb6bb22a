-- ===== src/T3/Endpoints.antt =====
-- internal/t3/gateway.go: `probe`, `issueWSToken`, `issueBackendToken` and `RefreshBackendToken`.
use devcontainer_manager.Base.Map
use devcontainer_manager.Base.Map.{Map}
use devcontainer_manager.Base.Json.{Json, as_string}
use devcontainer_manager.Go.Strings.{trim_right, trim_space}
use devcontainer_manager.Model.{T3Status}
use devcontainer_manager.Base.{
  if◌then◌else◌, take, Str, lit, is_empty, Result, ok, err, ◌>>=◌, not, none, some, List, [], ◌∷◌,
  ◌++◌,
}
use devcontainer_manager.T3.Backend.{
  HttpResponse, World, Backend, executed, is_success, authorize, request,
}

-- The first of the keys whose value is a text that is not empty.
unfoldable pub first_string : List Str → Map Json → Str
first_string [] body = []
first_string (key ∷ keys) body =
    let rest = first_string keys body in
    elim (Map.lookup key body) [
      | none ↦ rest
      | some v ↦ elim (as_string v) [ none ↦ rest | some s ↦ if is_empty s then rest else s ]
    ]

module _ (A : Type 0) (B : Backend) where
  -- The body of a response to `probe` or to `issueWSToken`.
  unfoldable pub read_body : Result HttpResponse → Result (Map Json)
  read_body (err e) = err e
  read_body (ok resp) =
      if not (is_success resp) then err resp.status else B.decode (take 1_048_576 resp.body)

  unfoldable pub probe : Str → World A → World A × Result Str
  unfolding request read_body first_string
  probe backend w =
      let (w', r) =
        request A B
          (record {
            method = lit "GET";
            url = backend ++ lit "/.well-known/t3/environment";
            header = [];
            body = [];
          })
          w in
      (
        w',
        read_body r >>= λ body.
            ok (first_string (lit "id" ∷ lit "environmentId" ∷ lit "environmentID" ∷ []) body),
      )

  abbrev required_token : Str → Result Str
  required_token token =
      if is_empty token then err (lit "ws token response did not include a token") else ok token

  unfoldable pub issue_ws_token : T3Status → World A → World A × Result Str
  unfolding request authorize read_body first_string
  issue_ws_token status w =
      let (w', r) =
        request A B
          (record {
            method = lit "POST";
            url = trim_right status.backend_url b'/' ++ lit "/api/auth/ws-token";
            header = authorize status.backend_token [];
            body = [];
          })
          w in
      (
        w',
        read_body r >>= λ body.
            required_token (first_string (lit "wsToken" ∷ lit "token" ∷ []) body),
      )

  abbrev trimmed : Result Str → Result Str
  trimmed (ok out) = ok (trim_space out)
  trimmed (err e) = err e

  -- `issueBackendToken`, and `RefreshBackendToken`
  unfoldable pub issue_backend_token : Str → Str → World A → World A × Result Str
  issue_backend_token container_id workspace w =
      let home = if is_empty workspace then lit "/workspace" else workspace in
      let cmd =
        lit "env"
        ∷ (lit "T3CODE_HOME=" ++ home)
        ∷ lit "t3"
        ∷ lit "auth"
        ∷ lit "session"
        ∷ lit "issue"
        ∷ lit "--role"
        ∷ lit "owner"
        ∷ lit "--label"
        ∷ lit "gateway"
        ∷ lit "--token-only"
        ∷ [] in
      (
        record w { trace = executed container_id cmd ∷ w.trace },
        trimmed (B.exec w.trace container_id cmd),
      )
