-- ===== src/Tests/Configs.antt =====
-- internal/config/config.go and cmd/devcontainer-manager/main.go at concrete inputs.
use devcontainer_manager.Config.{Config, zero_config, Matcher}
use devcontainer_manager.Config.Matching
use devcontainer_manager.Config.Matching.{Matches, match, match_iff}
use devcontainer_manager.Config.Defaults.{
  IsComplete, apply_defaults, apply_defaults-IsComplete, apply_defaults_iff, default,
}
use devcontainer_manager.Config.Validation.{
  validate_syncs, validate, IsValidRule, contents, load, load-IsValid,
}
use devcontainer_manager.Go.Net.{split_host_port}
use devcontainer_manager.Command.{
  Resolver, validate_listen, validate_listen_iff, addresses, AreLoopback, start, start-BindsOnly,
  BindsOnly, loaded,
}
use devcontainer_manager.Tests.Samples.{patterns, config}
use devcontainer_manager.Base.{
  nat_eq, if◌then◌else◌, All, Str, lit, ◌==◌, Result, ok, err, ℕ, ◌≡◌, refl, ◌↔◌, ◌⊎◌, true, false,
  none, some, List, [], ◌∷◌,
}

abbrev matcher : Matcher
matcher = record { literal = []; glob = lit "auth"; regex = [] }

match_iff_test :
    (match patterns matcher (lit "auth") ≡ true) ↔ Matches patterns matcher (lit "auth")
match_iff_test = match_iff patterns matcher (lit "auth")

apply_defaults-IsComplete_test : IsComplete (apply_defaults zero_config)
apply_defaults-IsComplete_test = apply_defaults-IsComplete zero_config

apply_defaults_iff_example :
    IsComplete (apply_defaults zero_config)
    × (apply_defaults (apply_defaults zero_config) ≡ apply_defaults zero_config)
    × ((apply_defaults zero_config ≡ zero_config) ↔ IsComplete zero_config)
apply_defaults_iff_example = apply_defaults_iff zero_config

-- A file that adds the rules of `config` to the defaults.
abbrev unmarshal : Str → Config → Result Config
unmarshal text base = ok (record base { rules = config.rules })

load-IsValid_test :
    IsComplete (apply_defaults config) × All (IsValidRule patterns) (apply_defaults config).rules
unfolding load validate Matching.validate default apply_defaults lit validate_syncs ◌==◌
load-IsValid_test =
    load-IsValid patterns unmarshal (contents (lit "rules")) (apply_defaults config) refl

-- Addresses are their last byte; names resolve to 1 and 7.
abbrev resolver : Resolver
resolver = record {
  Ip = ℕ;
  parse_ip = λ host. if host == lit "127.0.0.1" then some 1 else none;
  is_loopback = λ ip. nat_eq ip 1;
  lookup_ip = λ host. ok (1 ∷ 7 ∷ []);
}

validate_listen_iff_test : (validate_listen resolver (lit "host:80") false ≡ ok tt) ↔ (
    (host port : Str) × (ips : List ℕ) × (split_host_port (lit "host:80") ≡ ok (host, port))
    × (addresses resolver host ≡ ok ips)
    × ((false ≡ true) ⊎ AreLoopback resolver ips))
validate_listen_iff_test = validate_listen_iff resolver (lit "host:80") false

abbrev local_config : Config
local_config = record config {
  server = record { listen = lit "127.0.0.1:80"; allow_non_loopback = false };
}

start-BindsOnly_example :
    (false ≡ true)
    ⊎ ((c : Config) × (loaded (config, none) ≡ ok c) × (c.server.allow_non_loopback ≡ true))
    ⊎ BindsOnly resolver (AreLoopback resolver) local_config
unfolding start validate_listen split_host_port lit default ◌==◌
start-BindsOnly_example =
    start-BindsOnly resolver (config, none) (lit "127.0.0.1:80") false local_config refl

refusal_tests :
    (validate_listen resolver (lit "host:80") false
      ≡ err (lit "non-loopback bindings require --allow-non-loopback"))
    × (validate_listen resolver (lit "host:80") true ≡ ok tt)
    × (validate_listen resolver (lit ":80") false
        ≡ err (lit "non-loopback bindings require --allow-non-loopback"))
unfolding validate_listen split_host_port lit ◌==◌
refusal_tests = (refl, refl, refl)
