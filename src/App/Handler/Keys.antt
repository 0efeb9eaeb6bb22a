-- ===== src/App/Handler/Keys.antt =====
-- internal/app/service.go: the keys of the environments that the lookups find.
use devcontainer_manager.Base.{In, Str, is_empty, ◌≡◌, sym, subst, false, some, List}
use devcontainer_manager.Base.Map.{Map}
use devcontainer_manager.Model.{Container, Environment}
use devcontainer_manager.T3.Pairing.Bootstrap.{store_id}
use devcontainer_manager.App.Lookup.{
  environment, container_by_env, env_from_container, environment-container_by_env,
  container_by_env-In,
}
use devcontainer_manager.App.Handler.Changes.{container_key}
use devcontainer_manager.App.Handler.History.{IsKeyed}

module _ (sort : List Container → List Container)
    (adds_none : (x : Container) (xs : List Container) → In x (sort xs) → In x xs) (key : Str → Str)
    (m : Map Container) (keyed : IsKeyed key m) where
  -- An environment that is found has its id and its key.
  pub environment-keyed :
      (id : Str) (env : Environment)
      → environment sort id m ≡ some env
      → (env.id ≡ id) × (is_empty id ≡ false) × (store_id env ≡ key env.id)
  unfolding env_from_container
  environment-keyed id env known =
      let ((c, i, (set, shows), same), _) =
        environment-container_by_env sort adds_none id m env known in
      let set_too : is_empty c.t3.environment_id ≡ false =
        subst (λ s. is_empty s ≡ false) (sym shows) set in
      subst (λ (e : Environment). (e.id ≡ id) × (is_empty id ≡ false) × (store_id e ≡ key e.id))
        (sym same) (shows, set, keyed c i set_too)

  pub container-keyed :
      (id : Str) (c : Container)
      → is_empty id ≡ false
      → container_by_env id m ≡ some c
      → (c.t3.environment_id ≡ id) × (container_key c ≡ key c.t3.environment_id)
  container-keyed id c set found =
      let (i, shows) = container_by_env-In id m c found in
      (shows, keyed c i (subst (λ s. is_empty s ≡ false) (sym shows) set))
