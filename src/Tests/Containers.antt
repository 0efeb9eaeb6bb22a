-- ===== src/Tests/Containers.antt =====
-- internal/dockerx/client.go at concrete inputs.
use devcontainer_manager.Dockerx.Api.{Filters, events}
use devcontainer_manager.Base.Int.{ℤ, is_zero}
use devcontainer_manager.Base.Map
use devcontainer_manager.Config.{Rule}
use devcontainer_manager.Config.Defaults.{default}
use devcontainer_manager.Model.{Container}
use devcontainer_manager.Dockerx.{Connection}
use devcontainer_manager.Dockerx.Exec.{exec, exec-eq-ok_iff}
use devcontainer_manager.Dockerx.Discovery.{discovery_reasons}
use devcontainer_manager.Dockerx.Discovery.Reasons.{IsDetected, discovery_reasons_iff}
use devcontainer_manager.Dockerx.Rules.{match_rule, match_rule_cases, IsFirst, Fits}
use devcontainer_manager.Dockerx.User.{resolve_user, resolve_user-first, candidates}
use devcontainer_manager.Dockerx.Network.{
  ensure_connected_to_network, ensure_connected_cases, IsNeeded, container_ip, network_endpoint,
}
use devcontainer_manager.Dockerx.Network.Addresses.{
  container_ip-IsAddress, container_ip-network_endpoint, IsAddress,
}
use devcontainer_manager.Go.Strings.{trim_space}
use devcontainer_manager.Dockerx.Record.{bare_record, complete_record, IsRecord}
use devcontainer_manager.Dockerx.Listing.{list_devcontainers, list_devcontainers-AreRecords}
use devcontainer_manager.Tests.Samples.{
  docker, patterns, decoder, inspect, network_settings, endpoint, config, container, rule,
}
use devcontainer_manager.Base.{
  All, Str, lit, ◌==◌, first_non_empty, ok, ◌≡◌, refl, ◌≢◌, ◌↔◌, ◌⊎◌, true, false, none, some, [],
  ◌∷◌, ◌++◌,
}

exec-eq-ok_iff_test : (exec docker (lit "c1") (lit "sh" ∷ []) [] ≡ ok (lit "/home/dev")) ↔ (
    (id : Str) × (code : ℤ) × (docker.exec_create
        (lit "c1")
        (record { cmd = (lit "sh" ∷ []) ++ []; user = []; attach_stdin = false })
      ≡ ok id)
    × (docker.exec_attach id ≡ ok tt)
    × (docker.exec_inspect id ≡ ok code)
    × (is_zero code ≡ true)
    × (lit "/home/dev" ≡ docker.exec_output id))
exec-eq-ok_iff_test = exec-eq-ok_iff docker (lit "c1") (lit "sh" ∷ []) [] (lit "/home/dev")

discovery_reasons_iff_example :
    (discovery_reasons (lit "auth") inspect.labels config.discovery ≢ [])
    ↔ IsDetected (lit "auth") inspect.labels config.discovery
discovery_reasons_iff_example = discovery_reasons_iff (lit "auth") inspect.labels config.discovery

match_rule_cases_test :
    ((r : Rule) × (match_rule patterns container (rule ∷ []) ≡ some r)
      × IsFirst patterns container (rule ∷ []) r)
    ⊎ ((match_rule patterns container (rule ∷ []) ≡ none)
        × All (λ r. ¬ Fits patterns container r) (rule ∷ []))
match_rule_cases_test = match_rule_cases patterns container (rule ∷ [])

resolve_user-first_test :
    (resolve_user docker (lit "c1") config.defaults true (lit "root") [] (some rule)).user
    ≡ first_non_empty
        (candidates docker (lit "c1") config.defaults true (lit "root") [] (some rule))
resolve_user-first_test =
    resolve_user-first docker (lit "c1") config.defaults true (lit "root") [] (some rule)

ensure_connected_cases_example :
    ((ensure_connected_to_network docker inspect (lit "db") []).0 ≡ [])
    ⊎ ((call : Connection) × ((ensure_connected_to_network docker inspect (lit "db") []).0
          ≡ call ∷ [])
        × IsNeeded docker inspect (lit "db") [] call)
ensure_connected_cases_example = ensure_connected_cases docker inspect (lit "db") []

container_ip-IsAddress_example :
    (ip : Str) × (container_ip inspect (lit "web") ≡ some ip)
    × IsAddress network_settings (lit "web") ip
container_ip-IsAddress_example =
    container_ip-IsAddress inspect (lit "web") network_settings refl (λ h. cc, tt)

container_ip-network_endpoint_test : container_ip inspect (lit "web") ≡ some (lit "10.0.0.2")
unfolding network_endpoint lit Map.lookup ◌==◌
container_ip-network_endpoint_test =
    container_ip-network_endpoint inspect (lit "web") network_settings endpoint refl refl refl refl

abbrev listed : Container
listed =
    complete_record docker patterns decoder (λ id. 1) config inspect
      (bare_record docker patterns decoder (λ id. 1) config inspect
        (record { id = lit "c1"; status = lit "Up" }) (lit "10.0.0.2"))

list_devcontainers-AreRecords_example : All (IsRecord patterns config.rules) (listed ∷ [])
unfolding list_devcontainers discovery_reasons container_ip trim_space Map.lookup ◌==◌ lit default
list_devcontainers-AreRecords_example =
    list_devcontainers-AreRecords docker patterns decoder (λ id. 1) config [] [] (listed ∷ []) refl

events_test :
    events (λ (args : Filters). args)
    ≡ (lit "type", lit "container")
      ∷ (lit "event", lit "start")
      ∷ (lit "event", lit "die")
      ∷ (lit "event", lit "destroy")
      ∷ (lit "event", lit "restart")
      ∷ []
unfolding events lit
events_test = refl
