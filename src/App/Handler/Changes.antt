-- ===== src/App/Handler/Changes.antt =====
-- internal/app/service.go: how a request to the service may change the gateway.
use devcontainer_manager.Base.{
  Bool-cases, Str, lit, is_empty, ◌==◌, first_non_empty, ℕ, ◌≡◌, refl, sym, subst, ◌⊎◌, inl, inr,
  Bool, true, false, not, ◌||◌, Option, none, some, List, [], ◌∷◌,
}
use devcontainer_manager.Base.Map.{Map}
use devcontainer_manager.Go.Strings.{trim_prefix, cut}
use devcontainer_manager.Model.{Container, Environment}
use devcontainer_manager.T3.{TokenStore, Gateway}
use devcontainer_manager.T3.Pairing.{generate_pairing_code, handle_bootstrap, authorized_with_store}
use devcontainer_manager.T3.Pairing.Bootstrap.{store_id}
use devcontainer_manager.T3.Backend.{World, Backend}
use devcontainer_manager.T3.Proxy.{Web, Answer, proxy_http, proxy_websocket}
use devcontainer_manager.T3.Serve.{guarded, serve_env, rest_of, is_bootstrap}
use devcontainer_manager.T3.Titles.{public_path}
use devcontainer_manager.T3.Spawn.{spawn_authorized, serve_spawn_stage}
use devcontainer_manager.T3.Stage.{Codec}
use devcontainer_manager.App.Lookup.{environment, container_by_env}
use devcontainer_manager.App.Routes.{issue_code, handle_environment_action, refresh_token}
use devcontainer_manager.App.Proxy.{
  Request, is_spawn, serve_container, serve_found, handle_env_proxy, requested_env,
}

-- The key of a container in the token store.
abbrev pub container_key : Container → Str
container_key c = first_non_empty (c.id ∷ c.t3.environment_id ∷ [])

-- The environment id in the path of an action.
abbrev pub action_env : Request → Str
action_env q = (cut (trim_prefix q.incoming.path (lit "/api/environments/")) b'/').0

module _ (B : Backend) (W : Web) (J : Codec) (S : TokenStore)
    (sort : List Container → List Container) (q : Request) (g : Gateway S)
    (w : World (Map Container)) where
  -- The gateway after a request below "/env/".
  pub data Change : Gateway S → Type 0 where
    unchanged : Change g
    bootstrapped :
        (env : Environment)
        → environment sort (requested_env q) w.shared ≡ some env
        → is_bootstrap q.incoming.method (rest_of q.incoming.path env.id) ≡ true
        → Change
            (handle_bootstrap S q.draw.payload env q.draw.bytes q.draw.checked q.draw.issued g).0
    env_checked :
        (env : Environment)
        → environment sort (requested_env q) w.shared ≡ some env
        → Change (authorized_with_store S q.auth env.id (store_id env) q.draw.readings g).0
    container_checked :
        (env : Environment) (c : Container)
        → environment sort (requested_env q) w.shared ≡ some env
        → container_by_env (requested_env q) w.shared ≡ some c
        → Change
            (authorized_with_store S q.auth c.t3.environment_id
              (container_key c)
              q.draw.readings
              g).0

  spawned-gateway :
      (c : Container) (x : Gateway S × Bool)
      → (spawn_authorized
          (Map Container)
          B
          J
          S
          q.incoming.body
          (some (refresh_token B c))
          q.randoms
          q.time
          c
          w
          x).0
        ≡ x.0
  unfolding spawn_authorized
  spawned-gateway c (g', false) = refl
  spawned-gateway c (g', true) = refl

  guarded-Change :
      (handler : World (Map Container) → World (Map Container) × Answer) (x : Gateway S × Bool)
      → Change x.0
      → Change (guarded (Map Container) B W S handler w x).0
  unfolding guarded
  guarded-Change handler (g', false) h = h
  guarded-Change handler (g', true) h = h

  module _ (env : Environment) (c : Container)
      (known : environment sort (requested_env q) w.shared ≡ some env)
      (found : container_by_env (requested_env q) w.shared ≡ some c) where
    spawn-Change :
        Change
          (serve_spawn_stage
            (Map Container)
            B
            J
            S
            q.incoming.method
            q.auth
            q.incoming.body
            q.draw.readings
            (some (refresh_token B c))
            q.randoms
            q.time
            c
            g
            w).0
    unfolding serve_spawn_stage
    spawn-Change = elim (Bool-cases (q.incoming.method == lit "POST")) [
      | inr other ↦ rw other unchanged
      | inl post ↦
          rw post (subst Change (sym (spawned-gateway c _)) (container_checked env c known found))
    ]

    env-Change :
        Change
          (serve_env
            (Map Container)
            B
            W
            S
            q.incoming
            q.auth
            q.draw
            env
            c.t3
            (some (refresh_token B c))
            g
            w).0
    unfolding serve_env
    env-Change =
        let rest = rest_of q.incoming.path env.id in
        let checked = authorized_with_store S q.auth env.id (store_id env) q.draw.readings g in
        elim (Bool-cases (is_bootstrap q.incoming.method (rest_of q.incoming.path env.id))) [
          | inl boot ↦ rw boot (bootstrapped env known boot)
          | inr other ↦ elim (Bool-cases q.incoming.is_websocket) [
            | inl ws ↦
                simp (other, ws)
                  (guarded-Change
                    (proxy_websocket (Map Container) B W q.incoming rest c.t3
                      (some (refresh_token B c)))
                    checked (env_checked env known))
            | inr http ↦ elim (Bool-cases (public_path (rest_of q.incoming.path env.id))) [
              | inl public ↦ simp (other, http, public) unchanged
              | inr private ↦
                  simp (other, http, private)
                    (guarded-Change
                      (proxy_http (Map Container) B W q.incoming rest c.t3
                        (some (refresh_token B c)))
                      checked (env_checked env known))
            ]
          ]
        ]

    container-Change :
        (rest : Str) → Change (serve_container B W J S sort q rest (requested_env q) env c g w).0
    unfolding serve_container
    container-Change rest = elim (Bool-cases (is_empty c.t3.backend_url)) [
      | inl unset ↦ rw unset unchanged
      | inr set ↦ elim (Bool-cases (is_spawn rest (requested_env q))) [
        | inl spawn ↦ rw (set, spawn) spawn-Change
        | inr other ↦ rw (set, other) env-Change
      ]
    ]

  found-Change :
      (rest : Str) (env : Option Environment) (c : Option Container)
      → environment sort (requested_env q) w.shared ≡ env
      → container_by_env (requested_env q) w.shared ≡ c
      → Change (serve_found B W J S sort q rest (requested_env q) env c g w).0
  unfolding serve_found
  found-Change rest none c known found = unchanged
  found-Change rest (some env) none known found = unchanged
  found-Change rest (some env) (some c) known found = container-Change env c known found rest

  -- A request below "/env/" is a bootstrap of the environment that it names, checks a token for it or for its
  -- container, or leaves the gateway as it is.
  pub handle_env_proxy-Change : Change (handle_env_proxy B W J S sort q g w).0
  unfolding handle_env_proxy
  handle_env_proxy-Change = found-Change _ _ _ refl refl

-- The gateway after a POST below "/api/environments/": as before, or with a pairing code for the
-- environment that it names.
pub handle_environment_action-gateway :
    (S : TokenStore) (sort : List Container → List Container) (q : Request) (bytes : Str) (now : ℕ)
    (m : Map Container) (g : Gateway S)
    → ((handle_environment_action S sort q.incoming.path bytes now m g).0 ≡ g)
      ⊎ ((env : Environment) × (environment sort (action_env q) m ≡ some env)
          × ((handle_environment_action S sort q.incoming.path bytes now m g).0
              ≡ (generate_pairing_code S (action_env q) bytes now g).0))
unfolding handle_environment_action issue_code
handle_environment_action-gateway S sort q bytes now m g =
    let (env_id, action, found) =
      cut (trim_prefix q.incoming.path (lit "/api/environments/")) b'/' in
    elim (Bool-cases (not found || not (action == lit "pairing-code"))) [
      | inl e ↦ rw e (inl refl)
      | inr e ↦ rw e (issued-gateway env_id (environment sort env_id m) refl)
    ]
  where
    issued-gateway :
        (env_id : Str) (o : Option Environment)
        → environment sort env_id m ≡ o
        → ((issue_code S sort env_id bytes now g o).0 ≡ g)
          ⊎ ((env : Environment) × (environment sort env_id m ≡ some env)
              × ((issue_code S sort env_id bytes now g o).0
                  ≡ (generate_pairing_code S env_id bytes now g).0))
    issued-gateway env_id none known = inl refl
    issued-gateway env_id (some env) known = inr (env, known, refl)
