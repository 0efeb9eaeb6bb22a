-- ===== src/Dockerx/User.antt =====
-- internal/dockerx/client.go: `ResolveUser`.
use devcontainer_manager.Base.Map.{Map}
use devcontainer_manager.Base.Json.{Json}
use devcontainer_manager.Config.{Rule, DefaultsConfig}
use devcontainer_manager.Dockerx.{Daemon}
use devcontainer_manager.Dockerx.Exec.{lookup_home}
use devcontainer_manager.Dockerx.Discovery.{metadata_string}
use devcontainer_manager.Base.{
  if◌then◌else◌, Bool-cases, Str, lit, is_empty, first_non_empty, ◌≡◌, refl, sym, inl, inr, Bool,
  true, false, not, ◌||◌, Option, none, some, List, [], ◌∷◌, ◌++◌,
}

-- The three results of `ResolveUser`.
pub record Resolved : Type 0 where
  pub user : Str
  pub home : Str
  pub source : Str

-- The test on the rule in front of the first branch.
abbrev pub names_user : Option Rule → Bool
names_user none = false
names_user (some rule) = not (is_empty rule.container_user) || not (is_empty rule.container_home)

abbrev rule_user : Option Rule → Str
rule_user none = []
rule_user (some rule) = rule.container_user

abbrev rule_home : Option Rule → Str
rule_home none = []
rule_home (some rule) = rule.container_home

module _ (D : Daemon) (container_id : Str) (defaults : DefaultsConfig) (running : Bool) where
  -- The home of a user that something other than a rule names.
  abbrev named : Str → Str → Resolved
  named user source = record {
    user = user;
    home = first_non_empty (
        lookup_home D container_id user running
        ∷ defaults.container_home
        ∷ (lit "/home/" ++ user)
        ∷ []);
    source = source;
  }

  by_rule : Option Rule → Resolved
  by_rule rule =
      let user = first_non_empty (rule_user rule ∷ defaults.container_user ∷ lit "vscode" ∷ []) in
      record {
        user = user;
        home = first_non_empty (
            rule_home rule
            ∷ lookup_home D container_id user running
            ∷ defaults.container_home
            ∷ (lit "/home/" ++ user)
            ∷ []);
        source = lit "rule";
      }

  by_default : Resolved
  by_default = record {
    user = first_non_empty (defaults.container_user ∷ lit "vscode" ∷ []);
    home = first_non_empty (defaults.container_home ∷ lit "/home/vscode" ∷ []);
    source = lit "default";
  }

  unfoldable pub resolve_user : Str → List (Map Json) → Option Rule → Resolved
  unfolding by_rule by_default
  resolve_user config_user metadata rule =
      if names_user rule
      then by_rule rule
      else if not (is_empty (metadata_string metadata (lit "remoteUser")))
      then named (metadata_string metadata (lit "remoteUser")) (lit "metadata.remoteUser")
      else if not (is_empty (metadata_string metadata (lit "containerUser")))
      then named (metadata_string metadata (lit "containerUser")) (lit "metadata.containerUser")
      else if not (is_empty config_user)
      then named config_user (lit "container.Config.User")
      else by_default

  first_non_empty-cons :
      (v : Str) (vs : List Str)
      → is_empty (first_non_empty vs) ≡ false
      → is_empty (first_non_empty (v ∷ vs)) ≡ false
  unfolding first_non_empty
  first_non_empty-cons [] vs h = h
  first_non_empty-cons (c ∷ v) vs h = refl

  home-set : (u : Str) → is_empty (first_non_empty ((lit "/home/" ++ u) ∷ [])) ≡ false
  unfolding first_non_empty lit
  home-set u = refl

  vscode-set : is_empty (first_non_empty (lit "vscode" ∷ [])) ≡ false
  unfolding first_non_empty lit
  vscode-set = refl

  home_vscode-set : is_empty (first_non_empty (lit "/home/vscode" ∷ [])) ≡ false
  unfolding first_non_empty lit
  home_vscode-set = refl

  abbrev pub IsResolved : Resolved → Type 0
  IsResolved r = (is_empty r.user ≡ false) × (is_empty r.home ≡ false)

  by_rule-set : (rule : Option Rule) → IsResolved (by_rule rule)
  unfolding by_rule
  by_rule-set rule = (
    first_non_empty-cons _ _ (first_non_empty-cons _ _ vscode-set),
    first_non_empty-cons _ _ (first_non_empty-cons _ _ (first_non_empty-cons _ _ (home-set _))),
  )

  named-set : (user source : Str) → is_empty user ≡ false → IsResolved (named user source)
  named-set user source h = (h, first_non_empty-cons _ _ (first_non_empty-cons _ _ (home-set user)))

  by_default-set : IsResolved by_default
  unfolding by_default
  by_default-set = (first_non_empty-cons _ _ vscode-set, first_non_empty-cons _ _ home_vscode-set)

  abbrev remote : List (Map Json) → Str
  remote metadata = metadata_string metadata (lit "remoteUser")

  abbrev contained : List (Map Json) → Str
  contained metadata = metadata_string metadata (lit "containerUser")

  -- Whatever the rule, the metadata and the container say, a user and a home are found.
  pub resolve_user-IsResolved :
      (config_user : Str) (metadata : List (Map Json)) (rule : Option Rule)
      → IsResolved (resolve_user config_user metadata rule)
  unfolding resolve_user
  resolve_user-IsResolved config_user metadata rule = elim (Bool-cases (names_user rule)) [
    | inl a ↦ rw a (by_rule-set rule)
    | inr a ↦ rw a (elim (Bool-cases (is_empty (remote metadata))) [
      | inr b ↦ rw b (named-set (remote metadata) (lit "metadata.remoteUser") b)
      | inl b ↦ rw b (elim (Bool-cases (is_empty (contained metadata))) [
        | inr c ↦ rw c (named-set (contained metadata) (lit "metadata.containerUser") c)
        | inl c ↦ rw c (elim (Bool-cases (is_empty config_user)) [
          | inr d ↦ rw d (named-set config_user (lit "container.Config.User") d)
          | inl d ↦ rw d by_default-set
        ])
      ])
    ])
  ]

  -- The users that are asked in turn.
  abbrev pub candidates : Str → List (Map Json) → Option Rule → List Str
  candidates config_user metadata rule =
      if names_user rule
      then rule_user rule ∷ defaults.container_user ∷ lit "vscode" ∷ []
      else metadata_string metadata (lit "remoteUser")
        ∷ metadata_string metadata (lit "containerUser")
        ∷ config_user
        ∷ defaults.container_user
        ∷ lit "vscode"
        ∷ []

  first_of_set : (v : Str) (vs : List Str) → is_empty v ≡ false → first_non_empty (v ∷ vs) ≡ v
  unfolding first_non_empty
  first_of_set [] vs h = cc
  first_of_set (c ∷ v) vs h = refl

  first_of_unset :
      (v : Str) (vs : List Str) → is_empty v ≡ true → first_non_empty (v ∷ vs) ≡ first_non_empty vs
  unfolding first_non_empty
  first_of_unset [] vs h = refl
  first_of_unset (c ∷ v) vs h = cc

  -- The user is the first of these that is set: where a rule names a user or a home, that rule's
  -- user and then the default; else the metadata's remoteUser and containerUser, the user of the
  -- container, and then the default; at last "vscode".
  pub resolve_user-first :
      (config_user : Str) (metadata : List (Map Json)) (rule : Option Rule)
      → (resolve_user config_user metadata rule).user
        ≡ first_non_empty (candidates config_user metadata rule)
  unfolding resolve_user by_rule by_default
  resolve_user-first config_user metadata rule = elim (Bool-cases (names_user rule)) [
    | inl a ↦ rw a refl
    | inr a ↦ rw a (elim (Bool-cases (is_empty (remote metadata))) [
      | inr b ↦ rw b (sym (first_of_set (remote metadata) _ b))
      | inl b ↦
          rw (b, first_of_unset (remote metadata) _ b)
            (elim (Bool-cases (is_empty (contained metadata))) [
              | inr c ↦ rw c (sym (first_of_set (contained metadata) _ c))
              | inl c ↦
                  rw (c, first_of_unset (contained metadata) _ c)
                    (elim (Bool-cases (is_empty config_user)) [
                      | inr d ↦ rw d (sym (first_of_set config_user _ d))
                      | inl d ↦ rw d (sym (first_of_unset config_user _ d))
                    ])
            ])
    ])
  ]
