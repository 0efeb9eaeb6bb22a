-- ===== src/T3/Titles.antt =====
-- internal/t3/gateway.go: the pure helpers of the stage API and of the proxy: `validateSpawnRequest`,
-- `projectForWorkspace`, `modelSelectionFor`, `projectTitle`, `threadTitle`, `singleJoiningSlash`,
-- `publicPath`. `json.Unmarshal` into a map is a parameter.
use devcontainer_manager.Base.Map
use devcontainer_manager.Base.Map.{Map}
use devcontainer_manager.Base.Json.{Json, string, as_string}
use devcontainer_manager.Go.Strings.{trim_space, trim_space-length, trim_prefix}
use devcontainer_manager.Go.Path.{clean, base, is_abs, join, join_root-IsBelowRoot, IsBelowRoot}
use devcontainer_manager.Base.{
  ltb, nat_eq, if◌then◌else◌, Bool-cases, length, take, length-take-le, Str, lit, is_empty, ◌==◌,
  eq_iff, eq_refl, Result, ok, err, ◌≤◌, ◌≡◌, refl, ◌≢◌, ◌↔◌, ◌⊎◌, inl, inr, Bool, true, false, not,
  ◌&&◌, ◌||◌, Option, none, some, List, [], ◌∷◌, arith,
}

pub record RetainScope : Type 0 where
  pub bank_id : Str
  pub tags : List Str

pub record SpawnStageRequest : Type 0 where
  pub agent : Str
  pub rendered_prompt : Str
  pub workspace_path : Str
  pub scope : RetainScope

pub record T3Project : Type 0 where
  pub id : Str
  pub title : Str
  pub workspace_root : Str
  pub default_model_selection : Str

abbrev known_agent : Str → Bool
known_agent agent = agent == lit "codex" || agent == lit "claude" || agent == lit "opencode"

unfoldable pub validate_spawn_request : SpawnStageRequest → Result (Unit {0})
validate_spawn_request req =
    if not (known_agent req.agent)
    then err (lit "agent must be codex, claude, or opencode")
    else if is_empty (trim_space req.rendered_prompt)
    then err (lit "renderedPrompt is required")
    else if is_empty req.workspace_path || not (is_abs req.workspace_path)
    then err (lit "workspacePath must be an absolute container path")
    else if is_empty (trim_space req.scope.bank_id)
    then err (lit "scope.bankId is required")
    else ok tt

-- A request that can be served.
pub record IsValidRequest (req : SpawnStageRequest) : Type 0 where
  pub agent : (req.agent ≡ lit "codex") ⊎ (req.agent ≡ lit "claude") ⊎ (req.agent ≡ lit "opencode")
  pub prompt : trim_space req.rendered_prompt ≢ []
  pub workspace : is_abs req.workspace_path ≡ true
  pub bank : trim_space req.scope.bank_id ≢ []

is_abs-set : (p : Str) → is_abs p ≡ true → is_empty p ≡ false
unfolding is_abs
is_abs-set [] h = cc
is_abs-set (c ∷ p) h = refl

-- A spawn request is accepted exactly when its agent is known, its prompt and its bank are not blank
-- and its workspace path is absolute.
pub validate_spawn_request_iff :
    (req : SpawnStageRequest) → (validate_spawn_request req ≡ ok tt) ↔ IsValidRequest req
unfolding validate_spawn_request
validate_spawn_request_iff req = (
  λ h. ground (
    arith,
    eq_iff req.agent (lit "codex"),
    eq_iff req.agent (lit "claude"),
    eq_iff req.agent (lit "opencode"),
  ),
  λ h. ground (
    arith,
    eq_iff req.agent (lit "codex"),
    eq_iff req.agent (lit "claude"),
    eq_iff req.agent (lit "opencode"),
    is_abs-set req.workspace_path,
  ),
)

unfoldable pub project_for_workspace : List T3Project → Str → Option T3Project
project_for_workspace [] workspace = none
project_for_workspace (project ∷ projects) workspace =
    let rest = project_for_workspace projects workspace in
    if clean project.workspace_root == clean workspace then some project else rest

-- `providerInstanceID`
unfoldable pub provider_instance_id : Str → Str
provider_instance_id agent = if agent == lit "claude" then lit "claudeAgent" else agent

unfoldable pub default_model : Str → Str
default_model agent =
    if agent == lit "claude"
    then lit "claude-sonnet-4-6"
    else if agent == lit "opencode"
    then lit "openai/gpt-5"
    else lit "gpt-5.4"

-- `selection["instanceId"] == instanceID`, of an `any` and a string
abbrev pub is_string : Option Json → Str → Bool
is_string none s = false
is_string (some v) s = elim (as_string v) [ none ↦ false | some t ↦ t == s ]

abbrev default_selection : Str → Map Json
default_selection agent =
    (lit "instanceId", string (provider_instance_id agent))
    ∷ (lit "model", string (default_model agent))
    ∷ []

abbrev usable_selection : Str → Result (Map Json) → Map Json
usable_selection agent (err _) = default_selection agent
usable_selection agent (ok selection) =
    if is_string (Map.lookup (lit "instanceId") selection) (provider_instance_id agent)
    then selection
    else default_selection agent

unfoldable pub model_selection_for : (Str → Result (Map Json)) → Str → Str → Map Json
model_selection_for unmarshal agent existing =
    if not (is_empty existing)
    then usable_selection agent (unmarshal existing)
    else default_selection agent

is_string-string : (o : Option Json) (s : Str) → is_string o s ≡ true → o ≡ some (string s)
is_string-string none s h = cc
is_string-string (some (string t)) s h = cc ((eq_iff t s).0 h)
is_string-string (some _) s h = cc

default_selection-instance :
    (agent : Str)
    → Map.lookup (lit "instanceId") (default_selection agent)
      ≡ some (string (provider_instance_id agent))
unfolding Map.lookup
default_selection-instance agent = rw (eq_refl (lit "instanceId")) refl

usable_selection-instance :
    (agent : Str) (r : Result (Map Json))
    → Map.lookup (lit "instanceId") (usable_selection agent r)
      ≡ some (string (provider_instance_id agent))
usable_selection-instance agent (err e) = default_selection-instance agent
usable_selection-instance agent (ok selection) =
    elim (Bool-cases
      (is_string (Map.lookup (lit "instanceId") selection) (provider_instance_id agent))) [
        | inl same ↦ rw same (is_string-string _ _ same)
        | inr other ↦ rw other (default_selection-instance agent)
      ]

-- The model selection names the provider of the agent that was asked for, whatever selection the
-- project has.
pub model_selection_for-instance :
    (unmarshal : Str → Result (Map Json)) (agent existing : Str)
    → Map.lookup (lit "instanceId") (model_selection_for unmarshal agent existing)
      ≡ some (string (provider_instance_id agent))
unfolding model_selection_for
model_selection_for-instance unmarshal agent existing = elim (Bool-cases (is_empty existing)) [
  | inl e ↦ rw e (default_selection-instance agent)
  | inr e ↦ rw e (usable_selection-instance agent (unmarshal existing))
]

unfoldable pub project_title : Str → Str
project_title workspace =
    let name = base (clean workspace) in
    if name == lit "." || name == lit "/" || is_empty name then lit "Workspace" else name

-- `strings.ReplaceAll(s, "\r\n", "\n")`
replace_crlf : Str → Str
replace_crlf [] = []
replace_crlf (c ∷ []) = c ∷ []
replace_crlf (c ∷ d ∷ s) =
    let both = 10 ∷ replace_crlf s in
    let one = c ∷ replace_crlf (d ∷ s) in if nat_eq c 13 && nat_eq d 10 then both else one

-- `strings.Split(s, "\n")[0]`
first_line : Str → Str
first_line [] = []
first_line (c ∷ s) = let rest = first_line s in if nat_eq c 10 then [] else c ∷ rest

unfoldable pub thread_title : Str → Str
unfolding replace_crlf first_line
thread_title prompt =
    let title = trim_space (first_line (replace_crlf prompt)) in
    if is_empty title
    then lit "Spawned stage"
    else if ltb 80 (length title)
    then trim_space (take 80 title)
    else title

thread_title_of : Str → Str
thread_title_of title =
    if is_empty title
    then lit "Spawned stage"
    else if ltb 80 (length title)
    then trim_space (take 80 title)
    else title

default_title-length : length (lit "Spawned stage") ≤ 80
unfolding lit
default_title-length = omega arith

thread_title_of-length : (title : Str) → length (thread_title_of title) ≤ 80
unfolding thread_title_of
thread_title_of-length title = elim (Bool-cases (is_empty title)) [
  | inl e ↦ rw e default_title-length
  | inr e ↦ rw e (elim (Bool-cases (ltb 80 (length title))) [
    | inl long ↦ rw long (omega (arith, trim_space-length (take 80 title), length-take-le 80 title))
    | inr short ↦ rw short (ground (arith, short))
  ])
]

-- A thread's title has at most 80 bytes.
pub thread_title-length : (prompt : Str) → length (thread_title prompt) ≤ 80
unfolding thread_title thread_title_of
thread_title-length prompt = thread_title_of-length (trim_space (first_line (replace_crlf prompt)))

-- `singleJoiningSlash`
unfoldable pub single_joining_slash : Str → Str → Str
single_joining_slash a b = join (lit "/" ∷ trim_prefix a (lit "/") ∷ trim_prefix b (lit "/") ∷ [])

-- A proxied path begins with a slash, and no part of it between two slashes is empty, "." or "..", whatever
-- the paths are that it is joined from.
pub single_joining_slash-IsBelowRoot : (a b : Str) → IsBelowRoot (single_joining_slash a b)
unfolding single_joining_slash
single_joining_slash-IsBelowRoot a b =
    join_root-IsBelowRoot (trim_prefix a (lit "/")) (trim_prefix b (lit "/"))

unfoldable pub public_path : Str → Bool
public_path rest = rest == lit "/.well-known/t3/environment"
