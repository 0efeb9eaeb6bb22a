-- ===== src/T3/Spawn.antt =====
-- internal/t3/gateway.go: `ServeSpawnStage`.
pub mod Effects
use devcontainer_manager.Base.Json.{string}
use devcontainer_manager.Go.Path.{join}
use devcontainer_manager.Model.{Container}
use devcontainer_manager.T3.{TokenStore, Gateway}
use devcontainer_manager.T3.Titles.{SpawnStageRequest, validate_spawn_request}
use devcontainer_manager.T3.Pairing.{Reply, http_error, json, Readings, authorized_with_store}
use devcontainer_manager.T3.Backend.{World, Backend, Refresh, piped}
use devcontainer_manager.Base.{
  if◌then◌else◌, take, Str, lit, ◌==◌, first_non_empty, Result, ok, err, ◌>>=◌, Bool, true, false,
  not, ◌&&◌, List, [], ◌∷◌, ◌++◌,
}
use devcontainer_manager.T3.Stage.{Codec, Randoms, Outcome, open_stage_thread}

-- The request in a body, which may fail to be read.
abbrev pub read_request : Codec → Result Str → Result SpawnStageRequest
read_request J body = body >>= λ text. J.decode_request (take 1_048_576 text)

-- The command that writes a retain scope.
abbrev pub scope_command : Str → List Str
scope_command target =
    lit "sh"
    ∷ lit "-c"
    ∷ lit "mkdir -p \"$(dirname \"$1\")\" && cat > \"$1.tmp\" && mv \"$1.tmp\" \"$1\""
    ∷ lit "--"
    ∷ target
    ∷ []

unfoldable pub scope_target : Str → Str
scope_target workspace = join (workspace ∷ lit ".hindsight" ∷ lit "active-retain-scope.json" ∷ [])

module _ (A : Type 0) (B : Backend) (J : Codec) where
  -- The end of `ServeSpawnStage`.
  unfoldable pub thread_reply : Outcome A B J Str → World A × Reply
  thread_reply (status, w, err e) = (w, http_error 502 (lit "failed to open t3 session: " ++ e))
  thread_reply (status, w, ok id) = (w, json 200 ((lit "threadId", string id) ∷ []))

  unfoldable pub scope_written :
      Refresh A
      → SpawnStageRequest
      → Randoms
      → Str
      → Container
      → World A × Result (Unit {0})
      → World A × Reply
  unfolding thread_reply
  scope_written refresh req random now container (w, err e) =
      (w, http_error 502 (lit "failed to write retain scope: " ++ e))
  scope_written refresh req random now container (w, ok _) =
      thread_reply (open_stage_thread A B J refresh req random now container.t3 w)

  -- `g.docker.ExecWithStdin`
  unfoldable pub pipe : Str → List Str → Str → Str → World A → World A × Result (Unit {0})
  pipe container_id cmd user input w = (
    record w { trace = piped container_id cmd user input ∷ w.trace },
    B.exec_with_stdin w.trace container_id cmd user input,
  )

  unfoldable pub spawn_scoped :
      Refresh A
      → SpawnStageRequest
      → Randoms
      → Str
      → Container
      → World A
      → Result Str
      → World A × Reply
  unfolding scope_written pipe
  spawn_scoped refresh req random now container w (err e) = (w, http_error 400 e)
  spawn_scoped refresh req random now container w (ok scope) =
      scope_written refresh req random now container (
        pipe container.id (scope_command (scope_target req.workspace_path))
          (first_non_empty (container.container_user ∷ lit "vscode" ∷ [])) (scope ++ (b'\n' ∷ []))
          w)

  unfoldable pub spawn_checked :
      Refresh A
      → SpawnStageRequest
      → Randoms
      → Str
      → Container
      → World A
      → Result (Unit {0})
      → World A × Reply
  unfolding spawn_scoped
  spawn_checked refresh req random now container w (err e) = (w, http_error 400 e)
  spawn_checked refresh req random now container w (ok _) =
      spawn_scoped refresh req random now container w (J.marshal_scope req.scope)

  unfoldable pub spawn_decoded :
      Refresh A → Randoms → Str → Container → World A → Result SpawnStageRequest → World A × Reply
  unfolding spawn_checked
  spawn_decoded refresh random now container w (err e) =
      (w, http_error 400 (lit "invalid spawn request: " ++ e))
  spawn_decoded refresh random now container w (ok req) =
      spawn_checked refresh req random now container w (validate_spawn_request req)

  module _ (S : TokenStore) where
    unfoldable pub spawn_authorized :
        Result Str
        → Refresh A
        → Randoms
        → Str
        → Container
        → World A
        → Gateway S × Bool
        → Gateway S × World A × Reply
    unfolding spawn_decoded
    spawn_authorized body refresh random now container w (g, false) =
        (g, w, http_error 401 (lit "missing or invalid environment token"))
    spawn_authorized body refresh random now container w (g, true) =
        let (w', reply) = spawn_decoded refresh random now container w (read_request J body) in
        (g, w', reply)

    unfoldable pub serve_spawn_stage :
        Str
        → Str
        → Result Str
        → Readings
        → Refresh A
        → Randoms
        → Str
        → Container
        → Gateway S
        → World A
        → Gateway S × World A × Reply
    unfolding spawn_authorized
    serve_spawn_stage method auth body readings refresh random now container g w =
        if not (method == lit "POST")
        then (g, w, http_error 405 (lit "method not allowed"))
        else spawn_authorized body refresh random now container w (
            authorized_with_store S auth container.t3.environment_id
              (first_non_empty (container.id ∷ container.t3.environment_id ∷ [])) readings g)
