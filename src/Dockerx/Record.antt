-- ===== src/Dockerx/Record.antt =====
-- internal/dockerx/client.go: `recordFromInspect`.
--
-- `none` is a panic, which a nil endpoint causes. `now` is the clock as each record is made.
use mathlib.Core.Option.{get_or}
use devcontainer_manager.Base.Map.{index}
use devcontainer_manager.Go.Strings.{trim_space, trim_prefix}
use devcontainer_manager.Config.{Config, Rule}
use devcontainer_manager.Config.Matching.{Patterns}
use devcontainer_manager.Model.{Container, zero_t3, zero_summary}
use devcontainer_manager.Dockerx.{Inspect, Item, Daemon}
use devcontainer_manager.Dockerx.Discovery.{
  discovery_reasons, workspace_folder, short_id, Decoder, parse_metadata,
}
use devcontainer_manager.Dockerx.Rules.{match_rule, match_rule-same}
use devcontainer_manager.Dockerx.User.{Resolved, resolve_user, resolve_user-IsResolved}
use devcontainer_manager.Dockerx.Network.{container_ip}
use devcontainer_manager.Base.{
  if◌then◌else◌, In, here, Str, lit, is_empty, ◌==◌, eq_refl, ℕ, ◌≡◌, refl, ◌∙◌, ◌≢◌, Bool, true,
  false, ◌&&◌, Option, none, some, List, [], ◌∷◌,
}

abbrev pub rule_name_of : Option Rule → Str
rule_name_of none = []
rule_name_of (some rule) = rule.name

-- `rule == nil || rule.ContainerUser == ""`
abbrev rule_sets_no_user : Option Rule → Bool
rule_sets_no_user none = true
rule_sets_no_user (some rule) = is_empty rule.container_user

unfoldable pub root_warning : Str → Option Rule → List Str
root_warning user rule =
    if user == lit "root" && rule_sets_no_user rule
    then lit "resolved container user is root" ∷ []
    else []

-- What holds of every record: it was detected for some reason, has a user and a home, carries the
-- rule that is picked for it and the name of that, and a warning where its user is root by chance.
pub record IsRecord (P : Patterns) (rules : List Rule) (c : Container) : Type 0 where
  pub detected : c.discovery_reasons ≢ []
  pub user : is_empty c.container_user ≡ false
  pub home : is_empty c.container_home ≡ false
  pub rule_name : c.rule_name ≡ rule_name_of c.rule
  pub picked : match_rule P c rules ≡ c.rule
  pub warned :
      c.container_user ≡ lit "root"
      → rule_sets_no_user c.rule ≡ true
      → In (lit "resolved container user is root") c.warnings

-- A record keeps this with another address and with more warnings.
pub IsRecord-update :
    (P : Patterns) (rules : List Rule) (c : Container) (ip : Str) (warnings : List Str)
    → ((x : Str) → In x c.warnings → In x warnings)
    → IsRecord P rules c
    → IsRecord P rules (record c { container_ip = ip; warnings = warnings })
IsRecord-update P rules c ip warnings more h = record {
  detected = h.detected;
  user = h.user;
  home = h.home;
  rule_name = h.rule_name;
  picked = match_rule-same P _ c rules refl refl refl refl ∙ h.picked;
  warned = λ is_root none_set. more _ (h.warned is_root none_set);
}

module _ (D : Daemon) (P : Patterns) (J : Decoder) (now : Str → ℕ) (cfg : Config) where
  abbrev pub name_of : Inspect → Str
  name_of inspect = trim_prefix inspect.name (lit "/")

  abbrev pub reasons_of : Inspect → List Str
  reasons_of inspect = discovery_reasons (name_of inspect) inspect.labels cfg.discovery

  -- The record before its rule and its user are found.
  unfoldable pub bare_record : Inspect → Item → Str → Container
  bare_record inspect item ip = record {
    id = inspect.id;
    short_id = short_id inspect.id;
    name = name_of inspect;
    image = inspect.image;
    labels = inspect.labels;
    status = item.status;
    running = get_or inspect.state false;
    local_folder = index (lit "devcontainer.local_folder") inspect.labels;
    config_file = index (lit "devcontainer.config_file") inspect.labels;
    workspace_folder = workspace_folder inspect.labels;
    metadata = parse_metadata J (index (lit "devcontainer.metadata") inspect.labels);
    compose_service = index (lit "com.docker.compose.service") inspect.labels;
    container_user = [];
    container_home = [];
    user_source = [];
    rule_name = [];
    rule = none;
    last_seen = now inspect.id;
    container_ip = ip;
    t3 = zero_t3;
    sync = zero_summary;
    discovery_reasons = reasons_of inspect;
    warnings = [];
  }

  abbrev resolved_for : Inspect → Container → Option Rule → Resolved
  resolved_for inspect bare rule =
      resolve_user D inspect.id cfg.defaults bare.running inspect.user bare.metadata rule

  unfoldable pub complete_record : Inspect → Container → Container
  unfolding root_warning
  complete_record inspect bare =
      let rule = match_rule P bare cfg.rules in
      let resolved = resolved_for inspect bare rule in
      record bare {
        rule = rule;
        rule_name = rule_name_of rule;
        container_user = resolved.user;
        container_home = resolved.home;
        user_source = resolved.source;
        warnings = root_warning resolved.user rule;
      }

  abbrev with_ip : Inspect → Item → Option Str → Option (Option Container)
  with_ip inspect item none = none
  with_ip inspect item (some ip) =
      some (some (complete_record inspect (bare_record inspect item ip)))

  -- The rest of `recordFromInspect`, from the reasons.
  unfoldable pub record_for : Inspect → Item → List Str → Option (Option Container)
  unfolding bare_record complete_record
  record_for inspect item [] = some none
  record_for inspect item (_ ∷ _) =
      with_ip inspect item (container_ip inspect (trim_space cfg.discovery.connect_to_network))

  unfoldable pub record_from_inspect : Inspect → Item → Option (Option Container)
  unfolding record_for
  record_from_inspect inspect item = record_for inspect item (reasons_of inspect)

  warned-root :
      (user : Str) (rule : Option Rule)
      → user ≡ lit "root"
      → rule_sets_no_user rule ≡ true
      → In (lit "resolved container user is root") (root_warning user rule)
  unfolding root_warning
  warned-root user rule is_root none_set = rw (is_root, eq_refl (lit "root"), none_set) (here refl)

  complete_record-IsRecord :
      (inspect : Inspect) (bare : Container)
      → bare.discovery_reasons ≢ []
      → IsRecord P cfg.rules (complete_record inspect bare)
  unfolding complete_record
  complete_record-IsRecord inspect bare h =
      let (user, home) =
        resolve_user-IsResolved D inspect.id cfg.defaults bare.running inspect.user bare.metadata
          (match_rule P bare cfg.rules) in
      record {
        detected = h;
        user = user;
        home = home;
        rule_name = refl;
        picked = match_rule-same P _ bare cfg.rules refl refl refl refl;
        warned =
            warned-root (resolved_for inspect bare (match_rule P bare cfg.rules)).user
              (match_rule P bare cfg.rules);
      }

  abbrev pub IsRecordOf : Option (Option Container) → Type 0
  IsRecordOf none = Unit
  IsRecordOf (some none) = Unit
  IsRecordOf (some (some c)) = IsRecord P cfg.rules c

  with_ip-IsRecord :
      (inspect : Inspect) (item : Item) (ip : Option Str)
      → reasons_of inspect ≢ []
      → IsRecordOf (with_ip inspect item ip)
  unfolding bare_record
  with_ip-IsRecord inspect item none h = tt
  with_ip-IsRecord inspect item (some ip) h =
      complete_record-IsRecord inspect (bare_record inspect item ip) h

  record_for-IsRecord :
      (inspect : Inspect) (item : Item) (reasons : List Str)
      → reasons_of inspect ≡ reasons
      → IsRecordOf (record_for inspect item reasons)
  unfolding record_for
  record_for-IsRecord inspect item [] e = tt
  record_for-IsRecord inspect item (x ∷ xs) e = with_ip-IsRecord inspect item _ (λ h. cc)

  pub record_from_inspect-IsRecord :
      (inspect : Inspect) (item : Item) → IsRecordOf (record_from_inspect inspect item)
  unfolding record_from_inspect
  record_from_inspect-IsRecord inspect item = record_for-IsRecord inspect item _ refl
