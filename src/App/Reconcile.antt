-- ===== src/App/Reconcile.antt =====
-- internal/app/service.go: `reconcile`, and the reloading of the configuration in `watchConfig`.
--
-- `none` is a panic, which only the listing of the containers can raise. `now` is the reading of the clock
-- at each probe.
pub mod Tokens
use devcontainer_manager.Base.Map
use devcontainer_manager.Base.Map.{Map}
use devcontainer_manager.Config.{Config}
use devcontainer_manager.Config.Matching.{Patterns}
use devcontainer_manager.Config.Validation.{LoadError}
use devcontainer_manager.Model.{Container}
use devcontainer_manager.Dockerx.{Connections}
use devcontainer_manager.Dockerx
use devcontainer_manager.Dockerx.Discovery.{Decoder}
use devcontainer_manager.Dockerx.Listing.{list_devcontainers}
use devcontainer_manager.Syncx.Daemon
use devcontainer_manager.Syncx.Controller.{Machine}
use devcontainer_manager.Syncx.Controller
use devcontainer_manager.T3.Backend.{World, Backend}
use devcontainer_manager.T3.Reconcile.{reconcile_container}
use devcontainer_manager.App.{Service}
use devcontainer_manager.App.Summaries.{apply_sync_summaries}
use devcontainer_manager.App.Lookup.{public_base_url}
use devcontainer_manager.Base.{Str, Result, ok, err, ℕ, Option, none, some, List, [], ◌∷◌}

-- Everything outside the repository that a reconciliation calls.
pub record Outside : Type 1 where
  pub docker : Dockerx.Daemon
  pub patterns : Patterns
  pub decoder : Decoder
  pub machine : Machine
  pub library : Daemon.Library
  pub mutagen : Daemon.Daemon library
  pub backend : Backend
  -- the clock as a record is made, and at a probe
  pub seen : Str → ℕ
  pub probed : Str → ℕ

-- The token of the same container before.
unfoldable pub carry_token : Option Container → Container → Container
carry_token none c = c
carry_token (some old) c = record c { t3 = record c.t3 { backend_token = old.t3.backend_token } }

-- `next`, the map of the containers by their ids
unfoldable pub by_id : List Container → Map Container → Map Container
by_id [] m = m
by_id (c ∷ cs) m = by_id cs (Map.insert c.id c m)

module _ (O : Outside) where
  -- The first loop of `reconcile`, over the containers that were listed.
  unfoldable pub probe_all :
      Config
      → Map Container
      → List Container
      → World (Map Container)
      → World (Map Container) × List Container
  unfolding carry_token
  probe_all cfg previous [] w = (w, [])
  probe_all cfg previous (c ∷ cs) w =
      let (w1, c') =
        reconcile_container (Map Container) O.backend cfg (public_base_url cfg.server.listen)
          (O.probed c.id) (carry_token (Map.lookup c.id previous) c) w in
      let (w2, cs') = probe_all cfg previous cs w1 in (w2, c' ∷ cs')

  -- What follows the listing.
  unfoldable pub reconcile_listed : Service → Connections → List Container → Service
  unfolding probe_all by_id
  reconcile_listed s cs listed =
      let (w, found) =
        probe_all s.cfg s.containers listed (record { trace = s.trace; shared = s.containers }) in
      let (client, sessions) =
        Controller.reconcile O.machine O.library O.mutagen found s.cfg s.client in
      record s {
        containers = by_id (apply_sync_summaries found sessions s.cfg.sync.enabled) [];
        sessions = sessions;
        connections = cs;
        client = client;
        trace = w.trace;
      }

  unfoldable pub after_listing :
      Service
      → Result (Option (Connections × List Container))
      → Option (Service × Result (Unit {0}))
  unfolding reconcile_listed
  after_listing s (err e) = some (s, err e)
  after_listing s (ok none) = none
  after_listing s (ok (some (cs, listed))) = some (reconcile_listed s cs listed, ok tt)

  unfoldable pub reconcile : Service → Option (Service × Result (Unit {0}))
  unfolding after_listing
  reconcile s =
      after_listing s (list_devcontainers O.docker O.patterns O.decoder O.seen s.cfg s.connections)

  -- A timer of `watchConfig` that has run out, with the result of `config.Load`.
  unfoldable pub reload : Config × Option LoadError → Service → Option (Service × Result (Unit {0}))
  unfolding reconcile
  reload (cfg, some e) s = some (s, ok tt)
  reload (cfg, none) s = reconcile (record s { cfg = cfg })
