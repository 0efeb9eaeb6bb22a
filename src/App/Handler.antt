-- ===== src/App/Handler.antt =====
-- internal/app/service.go: `routes`, the HTTP handler of the service, with `sessionList`.
--
-- The file server of the web page is one answer, and what the multiplexer answers by itself another.
pub mod Changes
pub mod History
pub mod Keys
pub mod Origins
pub mod Held
pub mod Access
use devcontainer_manager.Base.Map.{Map}
use devcontainer_manager.Go.Strings.{has_prefix}
use devcontainer_manager.Model.{Container, Environment, Session}
use devcontainer_manager.T3.{TokenStore, Gateway}
use devcontainer_manager.T3.Backend.{World, Backend}
use devcontainer_manager.T3.Proxy.{Web, Answer, replied}
use devcontainer_manager.T3.Pairing.{Reply}
use devcontainer_manager.T3.Stage.{Codec}
use devcontainer_manager.App.Lookup.{container_list, environments}
use devcontainer_manager.App.Routes.{handle_environment_action}
use devcontainer_manager.App.Proxy.{
  Request, handle_env_proxy, Guarded, requested_env, handle_env_proxy-Guarded,
}
use devcontainer_manager.Base.{
  ltb, leb, nat_eq, if◌then◌else◌, ltb→lt, leb→le, nat_eq_iff, Bool-cases, Option-cases, length,
  take, drop, length-append, length-take-le, All, In, here, there, All-append, Str, lit, is_empty,
  ◌==◌, eq_iff, eq_refl, eq-false_of_ne, first_non_empty, Result, ok, err, ◌>>=◌, ◌>>◌, >>=-eq-ok,
  ℕ, zero, suc, ◌+◌, ◌-◌, ◌*◌, ◌/◌, ◌%◌, ◌≤◌, ◌<◌, String, ◌≡◌, refl, sym, ap, ◌∙◌, subst, ◌≢◌, ◌↔◌,
  ◌⊎◌, inl, inr, Bool, true, false, not, ◌&&◌, ◌||◌, Option, none, some, List, [], ◌∷◌, ◌++◌, map,
  reverse, arith,
}
use devcontainer_manager.App.Mux.{
  Target, healthz, containers_api, environments_api, sessions_api, environment_action, env_proxy,
  web_page, by_mux, mux,
}

pub data Response : Type 0 where
  healthy : Response
  listed_containers : List Container → Response
  listed_environments : List Environment → Response
  listed_sessions : List Session → Response
  answer : Answer → Response
  page : Response
  unrouted : Response

-- `sessionList`
abbrev session_list : (List Session → List Session) → List Session → List Session
session_list sort sessions = sort sessions

module _ (B : Backend) (W : Web) (J : Codec) (S : TokenStore)
    (sort : List Container → List Container) (sort_sessions : List Session → List Session) where
  abbrev Shared : Type 0
  Shared = World (Map Container)

  abbrev Handled : Type 0
  Handled = Gateway S × Shared × Response

  abbrev acted : Shared → Gateway S × Reply → Handled
  acted w (g, reply) = (g, w, answer (replied reply))

  abbrev proxied : Gateway S × Shared × Answer → Handled
  proxied (g, w, a) = (g, w, answer a)

  -- One handler. `bytes` and `now` are what `GeneratePairingCode` draws.
  unfoldable pub handle : Target → Request → Str → ℕ → List Session → Gateway S → Shared → Handled
  handle healthz q bytes now sessions g w = (g, w, healthy)
  handle containers_api q bytes now sessions g w =
      (g, w, listed_containers (container_list sort w.shared))
  handle environments_api q bytes now sessions g w =
      (g, w, listed_environments (environments sort w.shared))
  handle sessions_api q bytes now sessions g w =
      (g, w, listed_sessions (session_list sort_sessions sessions))
  handle environment_action q bytes now sessions g w =
      acted w (handle_environment_action S sort q.incoming.path bytes now w.shared g)
  handle env_proxy q bytes now sessions g w = proxied (handle_env_proxy B W J S sort q g w)
  handle web_page q bytes now sessions g w = (g, w, page)
  handle by_mux q bytes now sessions g w = (g, w, unrouted)

  -- `routes`
  unfoldable pub routes : Request → Str → ℕ → List Session → Gateway S → Shared → Handled
  unfolding handle
  routes q bytes now sessions g w =
      handle (mux q.incoming.method q.incoming.path) q bytes now sessions g w
