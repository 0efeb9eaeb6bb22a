-- ===== src/Config/Defaults.antt =====
-- internal/config/config.go: `Default`, `ApplyDefaults`.
use devcontainer_manager.Base.Int.{ℤ, pos, is_zero}
use devcontainer_manager.Config.{Config, Rule, named_rule}
use devcontainer_manager.Base.{
  if◌then◌else◌, All, Str, lit, is_empty, ◌≡◌, refl, subst, ◌≢◌, ◌↔◌, true, false, Option, none,
  some, List, [], ◌∷◌, map, arith,
}

unfoldable pub default : Config
default = record {
  server = record { listen = lit "127.0.0.1:8787"; allow_non_loopback = false };
  discovery = record {
    include_name_prefixes = lit "vsc-" ∷ [];
    include_labels = some [];
    connect_to_network = [];
  };
  defaults = record { container_user = lit "vscode"; container_home = lit "/home/vscode" };
  t3 = record {
    enabled = true;
    port = pos 3773;
    auto_issue_backend_token = true;
    server_command =
        lit "t3" ∷ lit "serve" ∷ lit "--host" ∷ lit "0.0.0.0" ∷ lit "--port" ∷ lit "3773" ∷ [];
  };
  pairing_tokens = record { postgres_url = [] };
  sync = record {
    enabled = true;
    defaults = record {
      ignore_vcs = true;
      ignores = lit ".DS_Store" ∷ [];
      permissions = record { default_file_mode = lit "0644"; default_directory_mode = lit "0755" };
      extra = [];
    };
  };
  rules = named_rule (lit "default") ∷ [];
}

-- `if s == "" { s = fallback }`
abbrev or_default : Str → Str → Str
or_default s fallback = if is_empty s then fallback else s

name_rule : Rule → Rule
name_rule r = record r { name = or_default r.name (lit "rule") }

or_default_rules : List Rule → List Rule
or_default_rules [] = named_rule (lit "default") ∷ []
or_default_rules (r ∷ rs) = r ∷ rs

or_default_prefixes : List Str → List Str
or_default_prefixes [] = lit "vsc-" ∷ []
or_default_prefixes (p ∷ ps) = p ∷ ps

or_empty_map {ℓ} : {A : Type ℓ} → Option (List A) → Option (List A)
or_empty_map none = some []
or_empty_map (some m) = some m

unfoldable pub apply_defaults : Config → Config
unfolding name_rule or_default_rules or_default_prefixes or_empty_map
apply_defaults c = record {
  server = record {
    listen = or_default c.server.listen (lit "127.0.0.1:8787");
    allow_non_loopback = c.server.allow_non_loopback;
  };
  discovery = record {
    include_name_prefixes = or_default_prefixes c.discovery.include_name_prefixes;
    include_labels = or_empty_map c.discovery.include_labels;
    connect_to_network = c.discovery.connect_to_network;
  };
  defaults = record {
    container_user = or_default c.defaults.container_user (lit "vscode");
    container_home = or_default c.defaults.container_home (lit "/home/vscode");
  };
  t3 = record {
    enabled = c.t3.enabled;
    port = if is_zero c.t3.port then pos 3773 else c.t3.port;
    auto_issue_backend_token = c.t3.auto_issue_backend_token;
    server_command = c.t3.server_command;
  };
  pairing_tokens = c.pairing_tokens;
  sync = record {
    enabled = c.sync.enabled;
    defaults = record {
      ignore_vcs = c.sync.defaults.ignore_vcs;
      ignores = c.sync.defaults.ignores;
      permissions = record {
        default_file_mode = or_default c.sync.defaults.permissions.default_file_mode (lit "0644");
        default_directory_mode =
            or_default c.sync.defaults.permissions.default_directory_mode (lit "0755");
      };
      extra = c.sync.defaults.extra;
    };
  };
  rules = map name_rule (or_default_rules c.rules);
}

-- Nothing that the program needs is missing.
pub record IsComplete (c : Config) : Type 0 where
  pub listen : is_empty c.server.listen ≡ false
  pub user : is_empty c.defaults.container_user ≡ false
  pub home : is_empty c.defaults.container_home ≡ false
  pub port : is_zero c.t3.port ≡ false
  pub prefixes : c.discovery.include_name_prefixes ≢ []
  pub labels : c.discovery.include_labels ≢ none
  pub file_mode : is_empty c.sync.defaults.permissions.default_file_mode ≡ false
  pub directory_mode : is_empty c.sync.defaults.permissions.default_directory_mode ≡ false
  pub rules : c.rules ≢ []
  pub names : All (λ (r : Rule). is_empty r.name ≡ false) c.rules

or_default-set :
    (s fallback : Str) → is_empty fallback ≡ false → is_empty (or_default s fallback) ≡ false
or_default-set s fallback h = ground arith

or_default_keeps : (s fallback : Str) → is_empty s ≡ false → or_default s fallback ≡ s
or_default_keeps s fallback h = ground arith

map-name_rule-named :
    (rs : List Rule) → All (λ (r : Rule). is_empty r.name ≡ false) (map name_rule rs)
unfolding name_rule lit
map-name_rule-named [] = tt
map-name_rule-named (r ∷ rs) = (or_default-set r.name _ refl, map-name_rule-named rs)

map-name_rule_keeps :
    (rs : List Rule) → All (λ (r : Rule). is_empty r.name ≡ false) rs → map name_rule rs ≡ rs
unfolding name_rule
map-name_rule_keeps [] h = refl
map-name_rule_keeps (r ∷ rs) (h, hs) =
    cc (or_default_keeps r.name (lit "rule") h, map-name_rule_keeps rs hs)

default_prefixes-set : (ps : List Str) → or_default_prefixes ps ≢ []
unfolding or_default_prefixes
default_prefixes-set [] = cc
default_prefixes-set (p ∷ ps) = cc

default_labels-set {ℓ} : {A : Type ℓ} (m : Option (List A)) → or_empty_map m ≢ none
unfolding or_empty_map
default_labels-set none = cc
default_labels-set (some m) = cc

default_rules-set : (rs : List Rule) → map name_rule (or_default_rules rs) ≢ []
unfolding or_default_rules
default_rules-set [] = cc
default_rules-set (r ∷ rs) = cc

default_prefixes_keeps : (ps : List Str) → ps ≢ [] → or_default_prefixes ps ≡ ps
unfolding or_default_prefixes
default_prefixes_keeps [] h = absurd (h refl)
default_prefixes_keeps (p ∷ ps) h = refl

default_labels_keeps {ℓ} : {A : Type ℓ} (m : Option (List A)) → m ≢ none → or_empty_map m ≡ m
unfolding or_empty_map
default_labels_keeps none h = absurd (h refl)
default_labels_keeps (some m) h = refl

default_rules_keeps : (rs : List Rule) → rs ≢ [] → or_default_rules rs ≡ rs
unfolding or_default_rules
default_rules_keeps [] h = absurd (h refl)
default_rules_keeps (r ∷ rs) h = refl

default_port-set : (n : ℤ) → is_zero (if is_zero n then pos 3773 else n) ≡ false
default_port-set n = ground arith

default_port_keeps : (n : ℤ) → is_zero n ≡ false → (if is_zero n then pos 3773 else n) ≡ n
default_port_keeps n h = ground arith

-- After `ApplyDefaults` nothing that the program needs is missing: the listen address, user, home,
-- port, name prefixes, label map, modes and rules are set, and each rule has a name.
pub apply_defaults-IsComplete : (c : Config) → IsComplete (apply_defaults c)
unfolding apply_defaults lit
apply_defaults-IsComplete c = record {
  listen = or_default-set c.server.listen _ refl;
  user = or_default-set c.defaults.container_user _ refl;
  home = or_default-set c.defaults.container_home _ refl;
  port = default_port-set c.t3.port;
  prefixes = default_prefixes-set c.discovery.include_name_prefixes;
  labels = default_labels-set c.discovery.include_labels;
  file_mode = or_default-set c.sync.defaults.permissions.default_file_mode _ refl;
  directory_mode = or_default-set c.sync.defaults.permissions.default_directory_mode _ refl;
  rules = default_rules-set c.rules;
  names = map-name_rule-named (or_default_rules c.rules);
}

rules_keep :
    (rs : List Rule)
    → rs ≢ []
    → All (λ (r : Rule). is_empty r.name ≡ false) rs
    → map name_rule (or_default_rules rs) ≡ rs
rules_keep rs h named = rw (default_rules_keeps rs h) (map-name_rule_keeps rs named)

-- `ApplyDefaults` changes nothing where nothing is missing.
apply_defaults_keeps : (c : Config) → IsComplete c → apply_defaults c ≡ c
unfolding apply_defaults
apply_defaults_keeps c h = cc (
  or_default_keeps c.server.listen (lit "127.0.0.1:8787") h.listen,
  or_default_keeps c.defaults.container_user (lit "vscode") h.user,
  or_default_keeps c.defaults.container_home (lit "/home/vscode") h.home,
  default_port_keeps c.t3.port h.port,
  default_prefixes_keeps c.discovery.include_name_prefixes h.prefixes,
  default_labels_keeps c.discovery.include_labels h.labels,
  or_default_keeps c.sync.defaults.permissions.default_file_mode (lit "0644") h.file_mode,
  or_default_keeps c.sync.defaults.permissions.default_directory_mode (lit "0755") h.directory_mode,
  rules_keep c.rules h.rules h.names,
)

-- After `ApplyDefaults` nothing that the program needs is missing, and applying it again changes nothing.
-- The configurations that it leaves alone are exactly those in which nothing is missing.
pub apply_defaults_iff :
    (c : Config)
    → IsComplete (apply_defaults c)
      × (apply_defaults (apply_defaults c) ≡ apply_defaults c)
      × ((apply_defaults c ≡ c) ↔ IsComplete c)
apply_defaults_iff c =
    let complete = apply_defaults-IsComplete c in
    (
      complete,
      apply_defaults_keeps (apply_defaults c) complete,
      ((λ same. subst IsComplete same complete), apply_defaults_keeps c),
    )
