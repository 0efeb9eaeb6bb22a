-- ===== src/Tests/Programs.antt =====
-- The loops of internal/app and `main` of cmd/devcontainer-manager at concrete inputs.
use devcontainer_manager.Go.Path.{clean}
use devcontainer_manager.Config.{Config}
use devcontainer_manager.Config.Matching
use devcontainer_manager.Config.Validation.{
  contents, not_exist, validate_syncs, validate, load, load-IsValid,
}
use devcontainer_manager.App.{new_service}
use devcontainer_manager.App.Start.{NoneOpen, new, canceled}
use devcontainer_manager.App.Reconcile.{Outside, reconcile}
use devcontainer_manager.App.Loops.{
  System, Label, Step, Run, begin, next, watches, changed, reloaded, running, on_file_event,
  settling, idle, listing, stopped, run,
}
use devcontainer_manager.App.Loops.Debounce.{LastChange, reloaded_iff}
use devcontainer_manager.App.Loops.Shutdown.{shutdown_ends}
use devcontainer_manager.Command.{start, Resolver, validate_listen}
use devcontainer_manager.Command.Program.{main, main_ends, program-IsUsable}
use devcontainer_manager.Tests.Samples.{patterns, config, docker, outside, database, env}
use devcontainer_manager.App.Loops.Contents.{IsUsable}
use devcontainer_manager.App.Loops.Contents.Environments.{Run-environment}
use devcontainer_manager.Go.Net.{split_host_port}
use devcontainer_manager.Go.Strings.{trim_space}
use devcontainer_manager.App.Lookup.{environment, environments, env_from_container}
use devcontainer_manager.App.Summaries.{apply_sync_summaries}
use devcontainer_manager.Dockerx.Listing.{list_devcontainers}
use devcontainer_manager.Dockerx.Discovery.{discovery_reasons}
use devcontainer_manager.Dockerx.Network.{container_ip}
use devcontainer_manager.Dockerx.Rules.{match_rule}
use devcontainer_manager.Config.Matching.{match}
use devcontainer_manager.T3.Reconcile.{reconcile_container, t3_enabled}
use devcontainer_manager.T3.Endpoints.{probe, issue_backend_token}
use devcontainer_manager.Config.Matching
use devcontainer_manager.Config.Defaults.{default, apply_defaults}
use devcontainer_manager.Model.{Container, Environment}
use devcontainer_manager.Base.Map
use devcontainer_manager.Base.{
  nat_eq, length, In, Str, lit, ◌==◌, Result, ok, err, ℕ, ◌+◌, ◌≤◌, ◌≡◌, refl, ◌↔◌, true, false,
  Option, none, some, List, [], ◌∷◌,
}

abbrev path : Str
path = lit "/etc/manager/config.yaml"

abbrev unmarshal : Str → Config → Result Config
unmarshal text base = ok (record base { rules = config.rules })

abbrev waiting : System
waiting = running true (new_service config)

-- The file changes at 7.
abbrev touched : System
touched = record waiting { timer = some (7 + settling) }

touched-Run : Run path patterns unmarshal waiting (changed 7 ∷ []) touched
unfolding on_file_event clean lit ◌==◌
touched-Run = next begin (watches path 7 refl)

reloaded_iff_example :
    ((v : System) × Step path patterns unmarshal touched (reloaded 300_000_000) v)
    ↔ ((t : ℕ) × LastChange t (changed 7 ∷ []) × (t + settling ≤ 300_000_000))
reloaded_iff_example =
    reloaded_iff path patterns unmarshal 300_000_000 (contents (lit "rules")) touched-Run refl refl

-- Docker cannot be asked any more.
abbrev canceled_outside : Outside
canceled_outside = record outside {
  docker = record docker { container_list = err (lit "context canceled") };
}

-- One loop lists the containers, as the context is done.
abbrev ending : System
ending = record waiting {
  loops = record { docker = listing config; config = idle; tick = idle };
  done = true;
}

shutdown_ends_example :
    (u : System) × (ls : List Label) × Run path patterns unmarshal ending ls u
    × (length ls ≤ 9)
    × (u.loops ≡ record { docker = stopped; config = stopped; tick = stopped })
shutdown_ends_example =
    shutdown_ends path patterns unmarshal canceled_outside (lit "context canceled") refl ending refl

abbrev resolver : Resolver
resolver = record {
  Ip = ℕ;
  parse_ip = λ host. some 1;
  is_loopback = λ ip. nat_eq ip 1;
  lookup_ip = λ host. err (lit "no such host");
}

-- No configuration file, and no database.
main_ends_example :
    NoneOpen database
      (main resolver database (config, some not_exist) [] false (ok tt) (λ url. ok []) canceled).0
    × (((main resolver database (config, some not_exist) [] false (ok tt) (λ url. ok []) canceled).1
          ≡ 0)
        ↔ ((cfg : Config) × (store : Option database.State) × (start resolver
                (config, some not_exist)
                []
                false
              ≡ ok cfg)
            × ((new database cfg (ok tt) (λ url. ok [])).1 ≡ ok store)
            × (canceled ≡ canceled)))
main_ends_example =
    main_ends resolver database (config, some not_exist) [] false (ok tt) (λ url. ok []) canceled

-- The configuration that a file gives.
abbrev usable : Config
usable = apply_defaults config

abbrev served : System
served = running true (new_service usable)

served-Run :
    Run path patterns unmarshal served
      (changed 7 ∷ [])
      (record served { timer = some (7 + settling) })
unfolding on_file_event clean lit ◌==◌
served-Run = next begin (watches path 7 refl)

program-IsUsable_example : IsUsable path patterns unmarshal usable
unfolding load validate Matching.validate default apply_defaults lit validate_syncs ◌==◌ start
    validate_listen split_host_port run reconcile list_devcontainers
program-IsUsable_example =
    program-IsUsable path patterns unmarshal resolver (contents (lit "rules")) [] false usable refl
      canceled_outside true refl served-Run

usable-IsUsable : IsUsable path patterns unmarshal usable
unfolding load validate Matching.validate default apply_defaults lit validate_syncs ◌==◌
usable-IsUsable = load-IsValid patterns unmarshal (contents (lit "rules")) usable refl

-- The service as it is started, with the container that Docker lists.
abbrev begun : System
begun = elim (run outside true (new_service usable)) [ none ↦ served | some s ↦ s ]

abbrev keep_order : List Container → List Container
keep_order cs = cs

abbrev found : Environment
found = elim (environments keep_order begun.service.containers) [ [] ↦ env | e ∷ _ ↦ e ]

Run-environment_example :
    (c : Container) × In (found.container_id, c) begun.service.containers
    × (c.t3.environment_id ≡ found.id)
unfolding run reconcile list_devcontainers discovery_reasons Map.lookup ◌==◌ lit container_ip
    trim_space default apply_sync_summaries Map.insert reconcile_container t3_enabled match_rule
    match probe apply_defaults environment environments env_from_container issue_backend_token
Run-environment_example =
    Run-environment path patterns unmarshal keep_order (λ x xs i. i) outside true usable
      usable-IsUsable refl begin found.id found refl
