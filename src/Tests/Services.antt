-- ===== src/Tests/Services.antt =====
-- internal/app at concrete inputs.
use mathlib.Core.Option.{get_or}
use devcontainer_manager.Base.Map
use devcontainer_manager.Base.Map.{Map}
use devcontainer_manager.Model.{Container, Session, zero_container}
use devcontainer_manager.T3.{new_gateway}
use devcontainer_manager.T3.Backend.{World}
use devcontainer_manager.Go.Strings.{trim_prefix, cut, trim_space, has_prefix}
use devcontainer_manager.App.Routes.{
  Issued, handle_environment_action, handle_environment_action-Issued, refresh_token,
  refresh_token-lookup,
}
use devcontainer_manager.T3.Endpoints.{issue_backend_token, probe}
use devcontainer_manager.Dockerx.Listing.{list_devcontainers}
use devcontainer_manager.Dockerx.Discovery.{discovery_reasons}
use devcontainer_manager.Dockerx.Network.{container_ip}
use devcontainer_manager.Config.Defaults.{default}
use devcontainer_manager.App.Summaries.{
  apply_sync_summaries, summary_of, sessions_of, IsSummary, summary_of-IsSummary, has_syncs,
}
use devcontainer_manager.T3.Reconcile.{reconcile_container, t3_enabled}
use devcontainer_manager.Dockerx.Rules.{match_rule}
use devcontainer_manager.Config.Matching.{match}
use devcontainer_manager.App.{Service, new_service}
use devcontainer_manager.App.Lookup.{
  environment, container_by_env, environment-container_by_env, values, Shows, env_from_container,
}
use devcontainer_manager.App.Reconcile.{reconcile}
use devcontainer_manager.App.Reconcile.Tokens.{reconcile-tokens}
use devcontainer_manager.App.Proxy.{Request, Guarded, handle_env_proxy, handle_env_proxy-Guarded}
use devcontainer_manager.App.Mux.{
  mux, healthz, environment_action, web_page, env_proxy, by_mux, sessions_api,
}
use devcontainer_manager.Go.Path.{clean}
use devcontainer_manager.Base.{
  if◌then◌else◌, In, lit, ◌==◌, ◌≡◌, refl, true, none, some, List, [], ◌∷◌,
}
use devcontainer_manager.Tests.Samples.{
  backend, web, codec, randoms, store, container, incoming, config, outside,
}

abbrev session : Session
session = record {
  id = lit "s1";
  name = lit "s1";
  container_id = lit "c1";
  rule = lit "auth";
  sync_index = 0;
  mode = lit "two-way";
  alpha = [];
  beta = [];
  status = lit "ready";
  error = [];
  labels = [];
  desired = true;
}

summary_of-IsSummary_example :
    IsSummary (sessions_of (lit "c1") (session ∷ [])) (summary_of (session ∷ []) true container)
unfolding has_syncs
summary_of-IsSummary_example = summary_of-IsSummary (session ∷ []) container refl

abbrev containers : Map Container
containers = (lit "c1", container) ∷ []

abbrev world : World (Map Container)
world = record { trace = []; shared = containers }

-- No sorting.
abbrev pub keep_order : List Container → List Container
keep_order cs = cs

environment-container_by_env_example :
    ((c : Container) × In c (values containers)
      × Shows (lit "env1") c
      × (env_from_container container ≡ env_from_container c))
    × ((d : Container) × (container_by_env (lit "env1") containers ≡ some d)
        × (d.t3.environment_id ≡ lit "env1"))
unfolding environment env_from_container lit ◌==◌
environment-container_by_env_example =
    environment-container_by_env keep_order (λ x xs i. i) (lit "env1") containers
      (env_from_container container) refl

refresh_token-lookup_test :
    Map.lookup (lit "c1") (refresh_token backend container world).0.shared ≡ (
      let current = get_or (Map.lookup (lit "c1") containers) zero_container in
      if lit "c1" == lit "c1"
      then some (record current { t3 = record current.t3 { backend_token = lit "new" } })
      else Map.lookup (lit "c1") containers)
unfolding refresh_token lit trim_space issue_backend_token
refresh_token-lookup_test = refresh_token-lookup backend container world (lit "new") refl (lit "c1")

handle_environment_action-Issued_example :
    Issued store keep_order
      (lit "/api/environments/env1/pairing-code")
      (lit "abc")
      5
      containers
      (new_gateway store none)
      (handle_environment_action store keep_order
        (lit "/api/environments/env1/pairing-code")
        (lit "abc")
        5
        containers
        (new_gateway store none))
handle_environment_action-Issued_example =
    handle_environment_action-Issued store keep_order (lit "/api/environments/env1/pairing-code")
      (lit "abc") 5 containers (new_gateway store none)

abbrev pub request : Request
request = record {
  incoming = incoming;
  auth = lit "Bearer t";
  draw = record {
    payload = [];
    bytes = lit "xyz";
    checked = 6;
    issued = 7;
    readings = record { cached = 20; stored = 21; purged = 22 };
  };
  randoms = randoms;
  time = lit "now";
}

handle_env_proxy-Guarded_example :
    Guarded backend web codec store keep_order request
      (lit "env1")
      (new_gateway store none)
      world
      (handle_env_proxy backend web codec store keep_order request (new_gateway store none) world)
unfolding lit trim_prefix cut
handle_env_proxy-Guarded_example =
    handle_env_proxy-Guarded backend web codec store keep_order request (new_gateway store none)
      world

-- A service that knows the container.
abbrev service : Service
service = record (new_service config) { containers = containers }

abbrev after : Service
after = elim (reconcile outside service) [ none ↦ service | some r ↦ r.0 ]

abbrev kept : Container
kept = get_or (Map.lookup (lit "c1") after.containers) zero_container

reconcile-tokens_example : (kept.id ≡ lit "c1") × (kept.t3.backend_token ≡ lit "old")
unfolding reconcile list_devcontainers discovery_reasons Map.lookup ◌==◌ lit container_ip trim_space
    default apply_sync_summaries Map.insert reconcile_container t3_enabled match_rule match probe
reconcile-tokens_example =
    reconcile-tokens outside service after refl (lit "c1") kept container refl refl refl

mux_tests :
    (mux (lit "GET") (lit "/healthz") ≡ healthz)
    × (mux (lit "POST") (lit "/api/environments/env1/pairing-code") ≡ environment_action)
    × (mux (lit "GET") (lit "/api/environments/env1/pairing-code") ≡ web_page)
    × (mux (lit "PUT") (lit "/env/env1/x/") ≡ env_proxy)
    × (mux (lit "GET") (lit "/env") ≡ by_mux)
    × (mux (lit "GET") (lit "/env/../healthz") ≡ by_mux)
    × (mux (lit "HEAD") (lit "/api/sessions") ≡ sessions_api)
unfolding mux lit ◌==◌ has_prefix clean
mux_tests = (refl, refl, refl, refl, refl, refl, refl)
