-- ===== src/App/Handler/Access.antt =====
-- internal/app/service.go and internal/t3/gateway.go: who reaches a backend through the service.
use devcontainer_manager.Base.{
  In, Str, lit, ◌≡◌, refl, sym, subst, ◌⊎◌, inl, inr, true, false, Option, some, List,
}
use devcontainer_manager.Model.{Container, Environment, Session}
use devcontainer_manager.T3.{TokenStore, Gateway, IsFaithful}
use devcontainer_manager.T3.Pairing.{bearer_token, authorized_with_store}
use devcontainer_manager.T3.Pairing.Bootstrap.{store_id}
use devcontainer_manager.T3.Interleaving.Revocation.{HeldBy}
use devcontainer_manager.T3.Interleaving.Calls.{authorized_with_store-Covers}
use devcontainer_manager.T3.Backend.{Backend}
use devcontainer_manager.T3.Proxy.{Web}
use devcontainer_manager.T3.Serve.{rest_of}
use devcontainer_manager.T3.Stage.{Codec}
use devcontainer_manager.App.Lookup.{environment, container_by_env}
use devcontainer_manager.App.Proxy.{
  requested_env, handle_env_proxy-Guarded, Allowed, stage, token, public,
}
use devcontainer_manager.App.Handler.{handle, routes}
use devcontainer_manager.App.Mux.{
  Target, healthz, containers_api, environments_api, sessions_api, environment_action, env_proxy,
  web_page, by_mux, mux,
}
use devcontainer_manager.App.Handler.Changes.{container_key}
use devcontainer_manager.App.Handler.History.{Call, IsKeyed, IsPaired, answer, History}
use devcontainer_manager.App.Handler.Origins.{Covers}
use devcontainer_manager.App.Handler.Keys.{environment-keyed, container-keyed}
use devcontainer_manager.App.Handler.Held.{History-IsHeld}

module _ (B : Backend) (W : Web) (J : Codec) (S : TokenStore)
    (sort : List Container → List Container) (sort_sessions : List Session → List Session)
    (faithful : IsFaithful S)
    (adds_none : (x : Container) (xs : List Container) → In x (sort xs) → In x xs) (key : Str → Str)
    (injective : (i j : Str) → key i ≡ key j → i ≡ j) (store : Option S.State) where
  -- The call has a token that a bootstrap of the environment in its path made, with a code that was requested
  -- for this environment before, or that the token store held for it from the start.
  abbrev pub HasToken : List (Call S) → Call S → Type 0
  HasToken cs c =
      (t : Str) × (bearer_token c.request.auth ≡ some t)
      × (HeldBy S faithful key injective store (requested_env c.request) t
          ⊎ IsPaired S sort cs (requested_env c.request) t)

  abbrev pub IsPublic : Call S → Type 0
  IsPublic c =
      (c.request.incoming.is_websocket ≡ false)
      × (rest_of c.request.incoming.path (requested_env c.request)
          ≡ lit "/.well-known/t3/environment")

  checked-HasToken :
      (c : Call S) (cs : List (Call S)) (env_id id : Str)
      → env_id ≡ requested_env c.request
      → id ≡ key env_id
      → Covers B W J S sort sort_sessions faithful adds_none key injective store
          (requested_env c.request)
          cs
          c.gateway
      → (authorized_with_store S c.request.auth env_id id c.request.draw.readings c.gateway).1
        ≡ true
      → HasToken cs c
  checked-HasToken c cs env_id id own keyed h shown =
      (authorized_with_store-Covers S faithful key injective (requested_env c.request) _
          c.request.auth env_id c.request.draw.readings c.gateway h).1
        (subst
          (λ (i : Str).
            (authorized_with_store S c.request.auth env_id i c.request.draw.readings c.gateway).1
            ≡ true)
          keyed shown)
        own

  Allowed-HasToken :
      (c : Call S) (cs : List (Call S)) (env : Environment) (d : Container)
      → IsKeyed key c.world.shared
      → environment sort (requested_env c.request) c.world.shared ≡ some env
      → container_by_env (requested_env c.request) c.world.shared ≡ some d
      → Covers B W J S sort sort_sessions faithful adds_none key injective store
          (requested_env c.request)
          cs
          c.gateway
      → Allowed B W J S sort c.request env d c.gateway
      → IsPublic c ⊎ HasToken cs c
  Allowed-HasToken c cs env d keyed known found h (stage asked posted shown) =
      let (_, set, _) = environment-keyed sort adds_none key c.world.shared keyed _ env known in
      let (own, same) = container-keyed sort adds_none key c.world.shared keyed _ d set found in
      inr (checked-HasToken c cs d.t3.environment_id (container_key d) own same h shown)
  Allowed-HasToken c cs env d keyed known found h (token asked shown) =
      let (own, _, same) = environment-keyed sort adds_none key c.world.shared keyed _ env known in
      inr (checked-HasToken c cs env.id (store_id env) own same h shown)
  Allowed-HasToken c cs env d keyed known found h (public asked http path) =
      let (own, _, _) = environment-keyed sort adds_none key c.world.shared keyed _ env known in
      inl (
        http,
        subst (λ (i : Str). rest_of c.request.incoming.path i ≡ lit "/.well-known/t3/environment")
            own path,
      )

  handle-access :
      (c : Call S) (cs : List (Call S)) (t : Target)
      → IsKeyed key c.world.shared
      → Covers B W J S sort sort_sessions faithful adds_none key injective store
          (requested_env c.request)
          cs
          c.gateway
      → ((handle B W J S sort sort_sessions t c.request c.bytes c.now c.sessions c.gateway
            c.world).1
          ≡ c.world)
        ⊎ IsPublic c
        ⊎ HasToken cs c
  unfolding handle
  handle-access c cs healthz keyed h = inl refl
  handle-access c cs containers_api keyed h = inl refl
  handle-access c cs environments_api keyed h = inl refl
  handle-access c cs sessions_api keyed h = inl refl
  handle-access c cs web_page keyed h = inl refl
  handle-access c cs by_mux keyed h = inl refl
  handle-access c cs environment_action keyed h = inl refl
  handle-access c cs env_proxy keyed h =
      elim (handle_env_proxy-Guarded B W J S sort c.request c.gateway c.world) [
        | inl same ↦ inl same
        | inr (env, d, known, found, set, allowed) ↦
            inr (Allowed-HasToken c cs env d keyed known found h allowed)
      ]

  -- A request does something at a backend or in a container, or changes what is known of the containers, only
  -- if it asks for the public path of an environment and is no WebSocket upgrade, or it has a token that
  -- an earlier bootstrap of the environment in its path made, with a code that a still earlier POST had
  -- requested for this environment, or that the token store held for it when the service started. This is
  -- so after all requests that a new service has answered one after the other, with any change of
  -- the containers between them, over a token store that makes nothing up, where each environment
  -- has one container and no two environments have the same. Sorting the containers adds
  -- none.
  pub access-HasToken :
      {cs : List (Call S)} {g : Gateway S}
      → History B W J S sort sort_sessions key store cs g
      → (c : Call S) → c.gateway ≡ g
      → IsKeyed key c.world.shared
      → ((answer B W J S sort sort_sessions c).1 ≡ c.world) ⊎ IsPublic c ⊎ HasToken cs c
  unfolding routes
  access-HasToken {cs} before c same keyed =
      let (_, held) =
        History-IsHeld B W J S sort sort_sessions faithful adds_none key injective store
          (requested_env c.request) before in
      handle-access c cs (mux c.request.incoming.method c.request.incoming.path) keyed (
        subst
          (Covers B W J S sort sort_sessions faithful adds_none key injective store
            (requested_env c.request) cs)
          (sym same) held)
