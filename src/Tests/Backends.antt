-- ===== src/Tests/Backends.antt =====
-- internal/t3: the stage API and the proxy at concrete inputs.
use devcontainer_manager.T3.Relay.{
  Message, reading, finished, opened, downward, upward, read, write, fail, reads, writes,
  read_fails, returns, Run, begin, next,
}
use devcontainer_manager.T3.Relay.Delivery.{IsFaithful, Run-delivers}
use devcontainer_manager.Base.Map
use devcontainer_manager.Base.Map.{Map}
use devcontainer_manager.Base.Json.{string}
use devcontainer_manager.Go.Path.{IsBelowRoot}
use devcontainer_manager.Model.{Container}
use devcontainer_manager.T3.{Gateway, new_gateway}
use devcontainer_manager.T3.Pairing.{Reply, Readings, authorized_with_store}
use devcontainer_manager.T3.Titles.{
  validate_spawn_request, validate_spawn_request_iff, IsValidRequest, model_selection_for,
  model_selection_for-instance, provider_instance_id, thread_title, thread_title-length,
  single_joining_slash, single_joining_slash-IsBelowRoot, project_for_workspace,
}
use devcontainer_manager.T3.Backend.{World, Refresh, backend_json, dispatch}
use devcontainer_manager.T3.Backend.Retry.{IsTried, IsJsonRequest, requests, backend_json-IsTried}
use devcontainer_manager.T3.Proxy.{Url, IsProxied, proxy_http, proxy_http-IsProxied, Answer}
use devcontainer_manager.T3.Serve.{
  Draw, serve_env, serve_env-guarded, rest_of, is_bootstrap, unauthorized,
}
use devcontainer_manager.T3.Spawn.{serve_spawn_stage}
use devcontainer_manager.T3.Stage.{thread_id_of, open_stage_thread}
use devcontainer_manager.T3.Stage.Commands.{IsOpened, open_stage_thread-IsOpened}
use devcontainer_manager.T3.Spawn.Effects.{IsError, IsAccepted, serve_spawn_stage-Gated}
use devcontainer_manager.Config.Defaults.{default}
use devcontainer_manager.T3.Endpoints.{probe}
use devcontainer_manager.T3.Reconcile.{
  t3_enabled, reconcile_container, IsReady, reconcile_container-IsReady,
}
use devcontainer_manager.App.Routes.{refresh_token, refresh_token-IsQuiet}
use devcontainer_manager.Tests.Samples.{
  backend, open_backend, web, codec, randoms, spawn_request, store, container, env, incoming,
  config,
}
use devcontainer_manager.Base.{
  length, lit, first_non_empty, ok, ◌≤◌, ◌<◌, ◌≡◌, refl, ◌↔◌, ◌⊎◌, true, false, none, some, [], ◌∷◌,
  arith,
}

abbrev world : World (Map Container)
world = record { trace = []; shared = (lit "c1", container) ∷ [] }

abbrev refresh : Refresh (Map Container)
refresh = some (refresh_token backend container)

abbrev gateway : Gateway store
gateway = new_gateway store (some [])

abbrev readings : Readings
readings = record { cached = 20; stored = 21; purged = 22 }

abbrev draw : Draw
draw = record { payload = []; bytes = lit "xyz"; checked = 6; issued = 7; readings = readings }

abbrev target : Url
target = record {
  scheme = lit "http";
  authority = lit "10.0.0.2:3773";
  path = lit "/base";
  raw_query = [];
}

validate_spawn_request_iff_test :
    (validate_spawn_request spawn_request ≡ ok tt) ↔ IsValidRequest spawn_request
validate_spawn_request_iff_test = validate_spawn_request_iff spawn_request

model_selection_for-instance_test :
    Map.lookup (lit "instanceId") (model_selection_for codec.unmarshal (lit "claude") (lit "{}"))
    ≡ some (string (provider_instance_id (lit "claude")))
model_selection_for-instance_test =
    model_selection_for-instance codec.unmarshal (lit "claude") (lit "{}")

thread_title-length_test : length (thread_title (lit "Fix it\nnow")) ≤ 80
thread_title-length_test = thread_title-length (lit "Fix it\nnow")

single_joining_slash-IsBelowRoot_example :
    IsBelowRoot (single_joining_slash (lit "/base") (lit "/../x"))
single_joining_slash-IsBelowRoot_example =
    single_joining_slash-IsBelowRoot (lit "/base") (lit "/../x")

backend_json-IsTried_example :
    IsTried
      (Map Container)
      backend
      (IsJsonRequest (Map Container) backend container.t3 (lit "GET") (lit "/x") none)
      refresh
      (lit "old")
      (backend_json
        (Map Container)
        backend
        backend.decode
        container.t3
        refresh
        (lit "GET")
        (lit "/x")
        none
        world).0.backend_token
      []
      (requests
        (backend_json
          (Map Container)
          backend
          backend.decode
          container.t3
          refresh
          (lit "GET")
          (lit "/x")
          none
          world).1.trace)
backend_json-IsTried_example =
    backend_json-IsTried (Map Container) backend backend.decode container.t3 refresh
      (refresh_token-IsQuiet backend container) (lit "GET") (lit "/x") none world

proxy_http-IsProxied_example :
    IsProxied
      (Map Container)
      backend
      web
      incoming
      (lit "/x")
      container.t3
      refresh
      world
      (proxy_http (Map Container) backend web incoming (lit "/x") container.t3 refresh world).0
proxy_http-IsProxied_example =
    proxy_http-IsProxied (Map Container) backend web incoming (lit "/x") container.t3 refresh
      (refresh_token-IsQuiet backend container) world

abbrev served : Gateway store × World (Map Container) × Answer
served =
    serve_env (Map Container) backend web store incoming (lit "Bearer t") draw env container.t3
      refresh gateway world

serve_env-guarded_test :
    ((authorized_with_store store
        (lit "Bearer t")
        (lit "env1")
        (first_non_empty (lit "c1" ∷ lit "env1" ∷ []))
        readings
        gateway).1
      ≡ true)
    ⊎ ((false ≡ false)
        × (rest_of (lit "/env/env1/api/x") (lit "env1") ≡ lit "/.well-known/t3/environment"))
    ⊎ ((served.1 ≡ world)
        × ((is_bootstrap (lit "GET") (rest_of (lit "/env/env1/api/x") (lit "env1")) ≡ true)
            ⊎ (served.2 ≡ unauthorized)))
serve_env-guarded_test =
    serve_env-guarded (Map Container) backend web store incoming (lit "Bearer t") draw env
      container.t3 refresh gateway world

abbrev spawned : Gateway store × World (Map Container) × Reply
spawned =
    serve_spawn_stage (Map Container) backend codec store (lit "POST") (lit "Bearer t")
      (ok (lit "{}")) readings refresh randoms (lit "now") container gateway world

serve_spawn_stage-Gated_example :
    ((lit "POST" ≡ lit "POST")
      × ((authorized_with_store store
            (lit "Bearer t")
            (lit "env1")
            (first_non_empty (lit "c1" ∷ lit "env1" ∷ []))
            readings
            gateway).1
          ≡ true)
      × IsAccepted (Map Container) backend codec (ok (lit "{}")))
    ⊎ ((spawned.1 ≡ world) × IsError spawned.2)
serve_spawn_stage-Gated_example =
    serve_spawn_stage-Gated (Map Container) backend codec refresh randoms (lit "now") container
      world store (lit "POST") (lit "Bearer t") (ok (lit "{}")) readings gateway

reconcile_container-IsReady_example :
    IsReady
      (Map Container)
      open_backend
      config
      (lit "http://localhost:8787")
      container
      world
      (reconcile_container
        (Map Container)
        open_backend
        config
        (lit "http://localhost:8787")
        5
        container
        world).1
unfolding reconcile_container lit t3_enabled default probe
reconcile_container-IsReady_example =
    reconcile_container-IsReady (Map Container) open_backend config (lit "http://localhost:8787") 5
      container world refl

open_stage_thread-IsOpened_example :
    IsOpened
      (Map Container)
      open_backend
      codec
      refresh
      spawn_request
      randoms
      (lit "now")
      container.t3
      (thread_id_of randoms)
unfolding open_stage_thread backend_json project_for_workspace dispatch
open_stage_thread-IsOpened_example =
    open_stage_thread-IsOpened (Map Container) open_backend codec refresh spawn_request randoms
      (lit "now") container.t3 world (thread_id_of randoms) refl

abbrev hello : Message
hello = record { kind = 1; payload = lit "hello" }

-- A message goes down, and then reading up fails and the handler returns.
relayed : Run (record {
  down = record { copier = reading; received = hello ∷ []; delivered = hello ∷ [] };
  up = record opened { copier = finished };
  errors = 0;
  returned = true;
})
unfolding read write fail
relayed =
    next
      (next (next (next begin (reads downward hello refl refl)) (writes downward hello refl refl))
        (read_fails upward refl (omega arith)))
      (returns 0 refl refl)

Run-delivers_example :
    IsFaithful (record { copier = reading; received = hello ∷ []; delivered = hello ∷ [] })
    × ((0 < 2) ⊎ (reading ≡ finished))
Run-delivers_example = Run-delivers relayed downward
