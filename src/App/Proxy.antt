-- ===== src/App/Proxy.antt =====
-- internal/app/service.go: `handleEnvProxy`, which hands the requests below "/env/" to the gateway.
use devcontainer_manager.Base.Map.{Map}
use devcontainer_manager.Go.Strings.{trim_prefix, cut}
use devcontainer_manager.Model.{Container, Environment}
use devcontainer_manager.T3.{TokenStore, Gateway}
use devcontainer_manager.T3.Pairing.{Reply, http_error, authorized_with_store}
use devcontainer_manager.T3.Backend.{World, Backend}
use devcontainer_manager.T3.Proxy.{Web, Incoming, Answer, replied}
use devcontainer_manager.T3.Serve.{Draw, serve_env, serve_env-guarded, rest_of}
use devcontainer_manager.T3.Spawn.{serve_spawn_stage}
use devcontainer_manager.T3.Stage.{Codec, Randoms}
use devcontainer_manager.T3.Spawn.Effects.{serve_spawn_stage-Gated}
use devcontainer_manager.App.Lookup.{environment, container_by_env}
use devcontainer_manager.App.Routes.{not_found, refresh_token}
use devcontainer_manager.Base.{
  if◌then◌else◌, Bool-cases, Str, lit, is_empty, ◌==◌, first_non_empty, ◌≡◌, refl, ◌⊎◌, inl, inr,
  Bool, true, false, Option, none, some, List, [], ◌∷◌,
}

-- What a request draws on: the `Authorization` header, and the choices of `Draw` and `Randoms`.
pub record Request : Type 0 where
  pub incoming : Incoming
  pub auth : Str
  pub draw : Draw
  pub randoms : Randoms
  pub time : Str

-- The environment id in the path of a request.
abbrev pub requested_env : Request → Str
requested_env q = (cut (trim_prefix q.incoming.path (lit "/env/")) b'/').0

-- The rest of the path that asks for a stage.
abbrev pub is_spawn : Str → Str → Bool
is_spawn rest env_id = trim_prefix rest env_id == lit "/spawn-stage"

-- The path asks for a stage of the environment in it.
abbrev pub asks_stage : Request → Bool
asks_stage q = is_spawn (trim_prefix q.incoming.path (lit "/env/")) (requested_env q)

module _ (B : Backend) (W : Web) (J : Codec) (S : TokenStore)
    (sort : List Container → List Container) where
  abbrev Shared : Type 0
  Shared = World (Map Container)

  abbrev Served : Type 0
  Served = Gateway S × Shared × Answer

  abbrev answered : Gateway S × Shared × Reply → Served
  answered (g, w, reply) = (g, w, replied reply)

  unfoldable pub serve_container :
      Request → Str → Str → Environment → Container → Gateway S → Shared → Served
  serve_container q rest env_id env container g w =
      if is_empty container.t3.backend_url
      then (g, w, replied (http_error 502 (lit "environment backend is not ready")))
      else if is_spawn rest env_id
      then answered (
          serve_spawn_stage (Map Container) B J S q.incoming.method q.auth q.incoming.body
            q.draw.readings (some (refresh_token B container)) q.randoms q.time container g w)
      else serve_env (Map Container) B W S q.incoming q.auth q.draw env container.t3
          (some (refresh_token B container)) g w

  unfoldable pub serve_found :
      Request → Str → Str → Option Environment → Option Container → Gateway S → Shared → Served
  unfolding serve_container
  serve_found q rest env_id none container g w = (g, w, replied not_found)
  serve_found q rest env_id (some env) none g w = (g, w, replied not_found)
  serve_found q rest env_id (some env) (some container) g w =
      serve_container q rest env_id env container g w

  unfoldable pub handle_env_proxy : Request → Gateway S → Shared → Served
  unfolding serve_found
  handle_env_proxy q g w =
      let rest = trim_prefix q.incoming.path (lit "/env/") in
      let env_id = (cut rest b'/').0 in
      serve_found q rest env_id (environment sort env_id w.shared)
        (container_by_env env_id w.shared) g w

  -- The ways in which a request may be allowed to do something in a container or at its backend.
  pub data Allowed (q : Request) (env : Environment) (container : Container) (g : Gateway S)
      : Type 0 where
    -- a POST for a stage, with a token for the environment of the container
    stage :
        asks_stage q ≡ true
        → q.incoming.method ≡ lit "POST"
        → (authorized_with_store S q.auth container.t3.environment_id
            (first_non_empty (container.id ∷ container.t3.environment_id ∷ []))
            q.draw.readings
            g).1
          ≡ true
        → Allowed q env container g
    -- another request, with a token for the environment
    token :
        asks_stage q ≡ false
        → (authorized_with_store S q.auth env.id
            (first_non_empty (env.container_id ∷ env.id ∷ []))
            q.draw.readings
            g).1
          ≡ true
        → Allowed q env container g
    -- another request, for the public path
    public :
        asks_stage q ≡ false
        → q.incoming.is_websocket ≡ false
        → rest_of q.incoming.path env.id ≡ lit "/.well-known/t3/environment"
        → Allowed q env container g

  -- Nothing was done, or a known environment and its container allowed the request.
  abbrev pub Guarded : Request → Str → Gateway S → Shared → Served → Type 0
  Guarded q id g w served =
      (served.1 ≡ w)
      ⊎ ((env : Environment) × (container : Container) × (environment sort id w.shared ≡ some env)
          × (container_by_env id w.shared ≡ some container)
          × (is_empty container.t3.backend_url ≡ false)
          × Allowed q env container g)

  stage_cases :
      (q : Request) (env : Environment) (container : Container) (g : Gateway S) (w : Shared)
      → asks_stage q ≡ true
      → ((serve_spawn_stage
            (Map Container)
            B
            J
            S
            q.incoming.method
            q.auth
            q.incoming.body
            q.draw.readings
            (some (refresh_token B container))
            q.randoms
            q.time
            container
            g
            w).1
          ≡ w)
        ⊎ Allowed q env container g
  stage_cases q env container g w asked =
      elim (serve_spawn_stage-Gated (Map Container) B J (some (refresh_token B container)) q.randoms
        q.time container w S q.incoming.method q.auth q.incoming.body q.draw.readings g) [
          | inl (posted, allowed, accepted) ↦ inr (stage asked posted allowed)
          | inr (same, error) ↦ inl same
        ]

  env_cases :
      (q : Request) (env : Environment) (container : Container) (g : Gateway S) (w : Shared)
      → asks_stage q ≡ false
      → ((serve_env
            (Map Container)
            B
            W
            S
            q.incoming
            q.auth
            q.draw
            env
            container.t3
            (some (refresh_token B container))
            g
            w).1
          ≡ w)
        ⊎ Allowed q env container g
  env_cases q env container g w asked =
      elim (serve_env-guarded (Map Container) B W S q.incoming q.auth q.draw env container.t3
        (some (refresh_token B container)) g w) [
          | inl allowed ↦ inr (token asked allowed)
          | inr (inl (http, path)) ↦ inr (public asked http path)
          | inr (inr (same, how)) ↦ inl same
        ]

  container-Guarded :
      (q : Request) (env : Environment) (container : Container) (g : Gateway S) (w : Shared)
      → environment sort (requested_env q) w.shared ≡ some env
      → container_by_env (requested_env q) w.shared ≡ some container
      → Guarded q (requested_env q) g w (
          serve_container q
            (trim_prefix q.incoming.path (lit "/env/"))
            (requested_env q)
            env
            container
            g
            w)
  unfolding serve_container
  container-Guarded q env container g w found known =
      elim (Bool-cases (is_empty container.t3.backend_url)) [
        | inl e ↦ simp e (inl refl)
        | inr set ↦ elim (Bool-cases (asks_stage q)) [
          | inl e ↦
              simp (set, e)
                (elim (stage_cases q env container g w e) [
                  | inl same ↦ inl same
                  | inr allowed ↦ inr (env, container, found, known, set, allowed)
                ])
          | inr e ↦
              simp (set, e)
                (elim (env_cases q env container g w e) [
                  | inl same ↦ inl same
                  | inr allowed ↦ inr (env, container, found, known, set, allowed)
                ])
        ]
      ]

  found-Guarded :
      (q : Request) (env : Option Environment) (container : Option Container) (g : Gateway S)
      (w : Shared)
      → environment sort (requested_env q) w.shared ≡ env
      → container_by_env (requested_env q) w.shared ≡ container
      → Guarded q (requested_env q) g w (
          serve_found q
            (trim_prefix q.incoming.path (lit "/env/"))
            (requested_env q)
            env
            container
            g
            w)
  unfolding serve_found
  found-Guarded q none container g w found known = inl refl
  found-Guarded q (some env) none g w found known = inl refl
  found-Guarded q (some env) (some container) g w found known =
      container-Guarded q env container g w found known

  -- A request below "/env/" does something in a container, at a backend or to the containers only if the
  -- environment that its path names and a container of that environment are known, this container has
  -- the URL of a backend, and one of three things holds: it is a POST whose path asks for a stage, and
  -- has a token for the container's environment; or its path asks for no stage, and it has a token
  -- for the environment; or its path asks for no stage but for the public path, and it is no
  -- WebSocket upgrade.
  pub handle_env_proxy-Guarded :
      (q : Request) (g : Gateway S) (w : Shared)
      → Guarded q (requested_env q) g w (handle_env_proxy q g w)
  unfolding handle_env_proxy
  handle_env_proxy-Guarded q g w = found-Guarded q _ _ g w refl refl
