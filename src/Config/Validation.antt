-- ===== src/Config/Validation.antt =====
-- internal/config/config.go: `Config.Validate` and `Load`.
--
-- `os.ReadFile` enters as its outcome, `yaml.Unmarshal` into a configuration as a parameter.
use devcontainer_manager.Config.{Config, Rule, SyncEntry, zero_config}
use devcontainer_manager.Config.Matching
use devcontainer_manager.Config.Matching.{Patterns}
use devcontainer_manager.Config.Defaults.{
  default, apply_defaults, IsComplete, apply_defaults-IsComplete,
}
use devcontainer_manager.Base.{
  if◌then◌else◌, All, Str, lit, is_empty, ◌==◌, eq_iff, Result, ok, err, ◌>>◌, >>=-eq-ok, ◌≡◌, refl,
  ap, ◌≢◌, ◌↔◌, ◌⊎◌, Bool, ◌||◌, Option, none, some, List, [], ◌∷◌, arith,
}

-- `case "", "push", "pull", "two-way":`
unfoldable pub known_mode : Str → Bool
known_mode mode = is_empty mode || mode == lit "push" || mode == lit "pull" || mode == lit "two-way"

unfoldable pub validate_sync : SyncEntry → Result (Unit {0})
unfolding known_mode
validate_sync s =
    if is_empty s.manager || is_empty s.container
    then err (lit "sync entries require manager and container paths")
    else if known_mode s.mode
    then ok tt
    else err (lit "sync mode must be push, pull, or two-way")

unfoldable pub validate_syncs : List SyncEntry → Result (Unit {0})
unfolding validate_sync
validate_syncs [] = ok tt
validate_syncs (s ∷ ss) = validate_sync s >> validate_syncs ss

-- A sync entry that names both of its paths and one of the modes.
pub record IsValidSync (s : SyncEntry) : Type 0 where
  pub manager : s.manager ≢ []
  pub container : s.container ≢ []
  pub mode :
      (s.mode ≡ []) ⊎ (s.mode ≡ lit "push") ⊎ (s.mode ≡ lit "pull") ⊎ (s.mode ≡ lit "two-way")

validate_sync_sound : (s : SyncEntry) → validate_sync s ≡ ok tt → IsValidSync s
unfolding validate_sync
validate_sync_sound s h =
    ground
      (arith, eq_iff s.mode (lit "push"), eq_iff s.mode (lit "pull"), eq_iff s.mode (lit "two-way"))

validate_sync_complete : (s : SyncEntry) → IsValidSync s → validate_sync s ≡ ok tt
unfolding validate_sync
validate_sync_complete s h =
    ground
      (arith, eq_iff s.mode (lit "push"), eq_iff s.mode (lit "pull"), eq_iff s.mode (lit "two-way"))

validate_syncs_sound : (ss : List SyncEntry) → validate_syncs ss ≡ ok tt → All IsValidSync ss
unfolding validate_syncs
validate_syncs_sound [] h = tt
validate_syncs_sound (s ∷ ss) h =
    let (u, here_ok, rest_ok) = >>=-eq-ok (validate_sync s) (λ _. validate_syncs ss) h in
    (validate_sync_sound s here_ok, validate_syncs_sound ss rest_ok)

validate_syncs_complete : (ss : List SyncEntry) → All IsValidSync ss → validate_syncs ss ≡ ok tt
unfolding validate_syncs
validate_syncs_complete [] h = refl
validate_syncs_complete (s ∷ ss) (h, hs) =
    rw (validate_sync_complete s h) (validate_syncs_complete ss hs)

module _ (p : Patterns) where
  unfoldable pub validate_rule : Rule → Result (Unit {0})
  validate_rule r = do
    Matching.validate p r.match.local_folder
    Matching.validate p r.match.config_file
    Matching.validate p r.match.name
    validate_syncs r.syncs

  unfoldable pub validate_rules : List Rule → Result (Unit {0})
  unfolding validate_rule
  validate_rules [] = ok tt
  validate_rules (r ∷ rs) = validate_rule r >> validate_rules rs

  unfoldable pub validate : Config → Result (Unit {0})
  unfolding validate_rules
  validate c = validate_rules c.rules

  -- A rule whose regular expressions compile and whose sync entries are valid.
  pub record IsValidRule (r : Rule) : Type 0 where
    pub local_folder : Matching.validate p r.match.local_folder ≡ ok tt
    pub config_file : Matching.validate p r.match.config_file ≡ ok tt
    pub name : Matching.validate p r.match.name ≡ ok tt
    pub syncs : All IsValidSync r.syncs

  validate_rule_sound : (r : Rule) → validate_rule r ≡ ok tt → IsValidRule r
  unfolding validate_rule
  validate_rule_sound r h =
      let (_, folder, h1) = >>=-eq-ok (Matching.validate p r.match.local_folder) _ h in
      let (_, file, h2) = >>=-eq-ok (Matching.validate p r.match.config_file) _ h1 in
      let (_, name, h3) = >>=-eq-ok (Matching.validate p r.match.name) _ h2 in
      record {
        local_folder = folder;
        config_file = file;
        name = name;
        syncs = validate_syncs_sound r.syncs h3;
      }

  validate_rule_complete : (r : Rule) → IsValidRule r → validate_rule r ≡ ok tt
  unfolding validate_rule
  validate_rule_complete r h =
      rw (h.local_folder, h.config_file, h.name) (validate_syncs_complete r.syncs h.syncs)

  validate_rules_sound : (rs : List Rule) → validate_rules rs ≡ ok tt → All IsValidRule rs
  unfolding validate_rules
  validate_rules_sound [] h = tt
  validate_rules_sound (r ∷ rs) h =
      let (u, here_ok, rest_ok) = >>=-eq-ok (validate_rule r) (λ _. validate_rules rs) h in
      (validate_rule_sound r here_ok, validate_rules_sound rs rest_ok)

  validate_rules_complete : (rs : List Rule) → All IsValidRule rs → validate_rules rs ≡ ok tt
  unfolding validate_rules
  validate_rules_complete [] h = refl
  validate_rules_complete (r ∷ rs) (h, hs) =
      rw (validate_rule_complete r h) (validate_rules_complete rs hs)

  pub validate_iff : (c : Config) → (validate c ≡ ok tt) ↔ All IsValidRule c.rules
  unfolding validate
  validate_iff c = (validate_rules_sound c.rules, validate_rules_complete c.rules)

-- What `os.ReadFile` gave, and the error of `Load`: `main` asks whether it is `os.ErrNotExist`.
pub data ReadFile : Type 0 where
  contents : Str → ReadFile
  missing : ReadFile
  unreadable : Str → ReadFile

pub data LoadError : Type 0 where
  not_exist : LoadError
  failed : Str → LoadError

-- A call that returns an error value: nil where the result is `ok`.
abbrev pub error_of : Result (Unit {0}) → Option LoadError
error_of (ok _) = none
error_of (err e) = some (failed e)

module _ (p : Patterns) (unmarshal : Str → Config → Result Config) where
  load_parsed : Result Config → Config × Option LoadError
  load_parsed (err e) = (zero_config, some (failed e))
  load_parsed (ok cfg) = (apply_defaults cfg, error_of (validate p (apply_defaults cfg)))

  unfoldable pub load : ReadFile → Config × Option LoadError
  unfolding load_parsed
  load missing = (zero_config, some not_exist)
  load (unreadable e) = (zero_config, some (failed e))
  load (contents text) = load_parsed (unmarshal text default)

  load_parsed-IsValid :
      (r : Result Config) (c : Config)
      → load_parsed r ≡ (c, none)
      → IsComplete c × All (IsValidRule p) c.rules
  unfolding load_parsed
  load_parsed-IsValid (err e) c h = cc
  load_parsed-IsValid (ok cfg) c h =
      let same : apply_defaults cfg ≡ c = ap (λ r. r.0) h in
      let valid : error_of (validate p (apply_defaults cfg)) ≡ none = ap (λ r. r.1) h in
      rw (← same)
        (apply_defaults-IsComplete cfg, (validate_iff p (apply_defaults cfg)).0 (ground arith))

  -- A configuration that `Load` returns without an error is complete and valid.
  pub load-IsValid :
      (file : ReadFile) (c : Config)
      → load file ≡ (c, none)
      → IsComplete c × All (IsValidRule p) c.rules
  unfolding load
  load-IsValid missing c h = cc
  load-IsValid (unreadable e) c h = cc
  load-IsValid (contents text) c h = load_parsed-IsValid (unmarshal text default) c h
