-- ===== src/App/Lookup.antt =====
-- internal/app/service.go: `publicBaseURL`, the lists that the API shows and the two lookups by an
-- environment id. `sort.Slice` is a parameter: it permutes.
use devcontainer_manager.Base.Map.{Map}
use devcontainer_manager.Go.Net.{split_host_port, join_host_port}
use devcontainer_manager.Model.{Container, Environment}
use devcontainer_manager.Base.{
  if◌then◌else◌, Bool-cases, In, here, there, Str, lit, is_empty, ◌==◌, eq_iff, ok, err, ◌≡◌, refl,
  sym, ap, ◌∙◌, subst, inl, inr, Bool, false, ◌||◌, Option, none, some, List, [], ◌∷◌, ◌++◌, arith,
}

abbrev is_local : Str → Bool
is_local host =
    is_empty host
    || host == lit "0.0.0.0"
    || host == lit "::"
    || host == lit "127.0.0.1"
    || host == lit "::1"

unfoldable pub public_base_url : Str → Str
public_base_url listen = elim (split_host_port listen) [
  | err e ↦ lit "http://localhost:8787"
  | ok (host, port) ↦
      lit "http://" ++ join_host_port (if is_local host then lit "localhost" else host) port
]

-- The containers in the order of an iteration.
unfoldable pub values : {V : Type 0} → Map V → List V
values [] = []
values ((k, v) ∷ m) = v ∷ values m

unfoldable pub env_from_container : Container → Environment
env_from_container c = record {
  id = c.t3.environment_id;
  container_id = c.id;
  name = c.name;
  http_base_url = c.t3.http_base_url;
  ws_base_url = c.t3.ws_base_url;
  status = c.t3.status;
  error = c.t3.error;
  last_probe = c.t3.last_probe;
}

unfoldable pub environments_of : List Container → List Environment
environments_of [] = []
environments_of (c ∷ cs) =
    let rest = environments_of cs in
    if is_empty c.t3.environment_id then rest else env_from_container c ∷ rest

unfoldable pub find_env : Str → List Environment → Option Environment
find_env id [] = none
find_env id (env ∷ envs) = let rest = find_env id envs in if env.id == id then some env else rest

unfoldable pub find_container : Str → List Container → Option Container
find_container id [] = none
find_container id (c ∷ cs) =
    let rest = find_container id cs in if c.t3.environment_id == id then some c else rest

module _ (sort : List Container → List Container) where
  unfoldable pub container_list : Map Container → List Container
  unfolding values
  container_list m = sort (values m)

  unfoldable pub environments : Map Container → List Environment
  unfolding container_list environments_of
  environments m = environments_of (container_list m)

  unfoldable pub environment : Str → Map Container → Option Environment
  unfolding environments find_env
  environment id m = find_env id (environments m)

unfoldable pub container_by_env : Str → Map Container → Option Container
unfolding values find_container
container_by_env id m = find_container id (values m)

-- A container that shows an environment of this id.
abbrev pub Shows : Str → Container → Type 0
Shows id c = (is_empty id ≡ false) × (c.t3.environment_id ≡ id)

find_env-In :
    (id : Str) (cs : List Container) (env : Environment)
    → find_env id (environments_of cs) ≡ some env
    → (c : Container) × In c cs × Shows id c × (env ≡ env_from_container c)
unfolding find_env environments_of env_from_container
find_env-In id [] env h = cc
find_env-In id (c ∷ cs) env h = elim (Bool-cases (is_empty c.t3.environment_id)) [
  | inl unset ↦
      let (d, i, shows, same) = find_env-In id cs env (simp unset at h) in (d, there i, shows, same)
  | inr set ↦ elim (Bool-cases (c.t3.environment_id == id)) [
    | inl own ↦
        let e : c.t3.environment_id ≡ id = (eq_iff _ _).0 own in
        (
          c,
          here refl,
          (subst (λ s. is_empty s ≡ false) e set, e),
          ground (arith, (simp (set, own) at h)),
        )
    | inr other ↦
        let (d, i, shows, same) = find_env-In id cs env (simp (set, other) at h) in
        (d, there i, shows, same)
  ]
]

other_absurd :
    (id : Str) (c d : Container)
    → c.t3.environment_id ≡ id
    → c ≡ d
    → (d.t3.environment_id == id) ≡ false
    → ⊥
other_absurd id c d h e other =
    let same : d.t3.environment_id ≡ id = ap (λ (x : Container). x.t3.environment_id) (sym e) ∙ h in
    ground (arith, eq_iff d.t3.environment_id id)

find_container-found :
    (id : Str) (cs : List Container) (c : Container)
    → In c cs
    → c.t3.environment_id ≡ id
    → (d : Container) × (find_container id cs ≡ some d) × (d.t3.environment_id ≡ id)
unfolding find_container
find_container-found id [] c i h = elim i [ ]
find_container-found id (d ∷ cs) c i h = elim (Bool-cases (d.t3.environment_id == id)) [
  | inl own ↦ (d, simp own refl, (eq_iff _ _).0 own)
  | inr other ↦ elim i [
    | here e ↦ absurd (other_absurd id c d h e other)
    | there later ↦
        let (found, e, shows) = find_container-found id cs c later h in (found, simp other e, shows)
  ]
]

-- An environment that is found belongs to a known container with its id, and then `containerByEnv`
-- finds a container of that environment too, if sorting adds none.
pub environment-container_by_env :
    (sort : List Container → List Container)
    → ((x : Container) (xs : List Container) → In x (sort xs) → In x xs)
    → (id : Str) (m : Map Container) (env : Environment) → environment sort id m ≡ some env
    → ((c : Container) × In c (values m) × Shows id c × (env ≡ env_from_container c))
      × ((d : Container) × (container_by_env id m ≡ some d) × (d.t3.environment_id ≡ id))
unfolding environment environments container_list container_by_env
environment-container_by_env sort adds_none id m env h =
    let (c, i, shows, same) = find_env-In id (sort (values m)) env h in
    (
      (c, adds_none c (values m) i, shows, same),
      find_container-found id (values m) c (adds_none c (values m) i) shows.1,
    )

find_container-In :
    (id : Str) (cs : List Container) (c : Container)
    → find_container id cs ≡ some c
    → In c cs × (c.t3.environment_id ≡ id)
unfolding find_container
find_container-In id [] c h = cc
find_container-In id (d ∷ cs) c h = elim (Bool-cases (d.t3.environment_id == id)) [
  | inl own ↦
      let same : d ≡ c = ground (arith, (simp own at h)) in
      (here (sym same), ap (λ (x : Container). x.t3.environment_id) (sym same) ∙ (eq_iff _ _).0 own)
  | inr other ↦ let (i, shows) = find_container-In id cs c (simp other at h) in (there i, shows)
]

-- A container that `containerByEnv` finds is known, and is of this environment.
pub container_by_env-In :
    (id : Str) (m : Map Container) (c : Container)
    → container_by_env id m ≡ some c
    → In c (values m) × (c.t3.environment_id ≡ id)
unfolding container_by_env
container_by_env-In id m c h = find_container-In id (values m) c h
