-- ===== src/App/Loops/Contents/Environments.antt =====
-- internal/app/service.go: the environments that are found while the loops and handlers interleave.
use devcontainer_manager.Base.Map.{Map}
use devcontainer_manager.Config.{Config}
use devcontainer_manager.Model.{Container, Environment}
use devcontainer_manager.App.Loops.{Patterns, System, Label, Run, run}
use devcontainer_manager.Base.{
  All, In, here, there, Str, is_empty, Result, ◌≡◌, sym, ap, ◌∙◌, subst, inl, inr, Bool, true,
  false, some, List, [], ◌∷◌,
}
use devcontainer_manager.Config.Matching.{Patterns}
use devcontainer_manager.App.Lookup.{
  values, environment, environment-container_by_env, env_from_container,
}
use devcontainer_manager.App.Loops.Contents.{IsPlaced, Run-IsSound, IsUsable}
use devcontainer_manager.App.Reconcile.{Outside}
use devcontainer_manager.App.{new_service}

values-In : {V : Type 0} (m : Map V) (v : V) → In v (values m) → (k : Str) × In (k, v) m
unfolding values
values-In [] v i = elim i [ ]
values-In ((k, w) ∷ m) v (here e) = (k, here (ap (λ x. (k, x)) e))
values-In ((k, w) ∷ m) v (there i) = let (j, found) = values-In m v i in (j, there found)

placed-In :
    (m : Map Container) (k : Str) (c : Container) → All IsPlaced m → In (k, c) m → IsPlaced (k, c)
placed-In [] k c h i = elim i [ ]
placed-In (p ∷ m) k c (h, hs) (here e) = subst IsPlaced (sym e) h
placed-In (p ∷ m) k c (h, hs) (there i) = placed-In m k c hs i

-- Where containers stand under their own ids, an environment that is found names the place of a
-- container that shows it.
environment-IsPlaced :
    (sort : List Container → List Container)
    → ((x : Container) (xs : List Container) → In x (sort xs) → In x xs)
    → (id : Str) (m : Map Container) (env : Environment) → All IsPlaced m
    → environment sort id m ≡ some env
    → (c : Container) × In (env.container_id, c) m × (c.t3.environment_id ≡ id)
unfolding env_from_container
environment-IsPlaced sort adds_none id m env placed found =
    let ((c, i, shows, same), _) = environment-container_by_env sort adds_none id m env found in
    let (k, at) = values-In m c i in
    elim (placed-In m k c placed at) [
      | inl own ↦ (
        c,
        subst (λ j. In (j, c) m) (sym own ∙ sym (ap (λ (e : Environment). e.container_id) same)) at,
        shows.1,
      )
      | inr blank ↦ absurd (shown shows.0 (ap is_empty shows.1) blank)
    ]
  where
    shown : {b d : Bool} → b ≡ false → d ≡ b → d ≡ true → ⊥
    shown p q r = cc

-- However the loops and the handlers interleave, also where a handler refreshes the token of a container
-- that a reconciliation removes, an environment that is found belongs to a known container, which the
-- service keeps under the id that the environment names, if the program started with a usable
-- configuration and sorting adds no containers.
pub Run-environment :
    (path : Str) (P : Patterns) (unmarshal : Str → Config → Result Config)
    (sort : List Container → List Container)
    → ((x : Container) (xs : List Container) → In x (sort xs) → In x xs)
    → (O : Outside) (watching : Bool) (cfg : Config) {s u : System} {ls : List Label}
    → IsUsable path P unmarshal cfg
    → run O watching (new_service cfg) ≡ some s
    → Run path P unmarshal s ls u
    → (id : Str) (env : Environment) → environment sort id u.service.containers ≡ some env
    → (c : Container) × In (env.container_id, c) u.service.containers × (c.t3.environment_id ≡ id)
Run-environment path P unmarshal sort adds_none O watching cfg {u = u} usable started r id env
      found =
    environment-IsPlaced sort adds_none id u.service.containers env
      (Run-IsSound path P unmarshal O watching cfg usable started r).containers found
