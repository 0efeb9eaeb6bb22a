-- ===== src/Config.antt =====
-- internal/config/config.go: the configuration and its parts.
--
-- A `*bool` is an `Option Bool`. `include_labels` is the one map that the code compares with nil,
-- so it is an `Option`; elsewhere a nil map or slice reads as an empty one.
pub mod Matching
pub mod Defaults
pub mod Validation
use devcontainer_manager.Base.Int.{ℤ}
use devcontainer_manager.Base.Map.{Map}
use devcontainer_manager.Base.{Str, Bool, false, Option, none, List, []}

pub record ServerConfig : Type 0 where
  pub listen : Str
  pub allow_non_loopback : Bool

pub record DiscoveryConfig : Type 0 where
  pub include_name_prefixes : List Str
  pub include_labels : Option (Map Str)
  pub connect_to_network : Str

pub record DefaultsConfig : Type 0 where
  pub container_user : Str
  pub container_home : Str

pub record T3Config : Type 0 where
  pub enabled : Bool
  pub port : ℤ
  pub auto_issue_backend_token : Bool
  pub server_command : List Str

pub record PairingTokensConfig : Type 0 where
  pub postgres_url : Str

pub record PermissionConfig : Type 0 where
  pub default_file_mode : Str
  pub default_directory_mode : Str

pub record SyncDefaults : Type 0 where
  pub ignore_vcs : Bool
  pub ignores : List Str
  pub permissions : PermissionConfig
  pub extra : Map Str

pub record SyncConfig : Type 0 where
  pub enabled : Bool
  pub defaults : SyncDefaults

pub record Matcher : Type 0 where
  pub literal : Str
  pub glob : Str
  pub regex : Str

pub record MatchRule : Type 0 where
  pub local_folder : Matcher
  pub config_file : Matcher
  pub name : Matcher
  pub labels : Map Str

pub record RuleT3 : Type 0 where
  pub enabled : Option Bool

pub record SyncEntry : Type 0 where
  pub mode : Str
  pub manager : Str
  pub container : Str
  pub replica : Bool
  pub ignore_vcs : Option Bool
  pub ignores : List Str
  pub permissions : PermissionConfig

pub record Rule : Type 0 where
  pub name : Str
  pub match : MatchRule
  pub container_user : Str
  pub container_home : Str
  pub t3 : RuleT3
  pub syncs : List SyncEntry

pub record Config : Type 0 where
  pub server : ServerConfig
  pub discovery : DiscoveryConfig
  pub defaults : DefaultsConfig
  pub t3 : T3Config
  pub pairing_tokens : PairingTokensConfig
  pub sync : SyncConfig
  pub rules : List Rule

-- `Matcher{}`, and a rule that has no more than a name.
abbrev pub zero_matcher : Matcher
zero_matcher = record { literal = []; glob = []; regex = [] }

abbrev pub named_rule : Str → Rule
named_rule name = record {
  name = name;
  match = record {
    local_folder = zero_matcher;
    config_file = zero_matcher;
    name = zero_matcher;
    labels = [];
  };
  container_user = [];
  container_home = [];
  t3 = record { enabled = none };
  syncs = [];
}

-- `Config{}`
abbrev pub zero_config : Config
zero_config = record {
  server = record { listen = []; allow_non_loopback = false };
  discovery = record { include_name_prefixes = []; include_labels = none; connect_to_network = [] };
  defaults = record { container_user = []; container_home = [] };
  t3 = record {
    enabled = false;
    port = ℤ.pos 0;
    auto_issue_backend_token = false;
    server_command = [];
  };
  pairing_tokens = record { postgres_url = [] };
  sync = record {
    enabled = false;
    defaults = record {
      ignore_vcs = false;
      ignores = [];
      permissions = record { default_file_mode = []; default_directory_mode = [] };
      extra = [];
    };
  };
  rules = [];
}
