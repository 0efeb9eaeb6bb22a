-- ===== src/App/Handler/History.antt =====
-- internal/app/service.go: the requests that a service has answered, one after the other.
--
-- The containers may be others at each request, as reconciliations change them in between.
use devcontainer_manager.Base.{
  In, Str, lit, is_empty, ℕ, ◌≡◌, true, false, Option, some, List, [], ◌∷◌,
}
use devcontainer_manager.Base.Map.{Map}
use devcontainer_manager.Go.Strings.{has_prefix}
use devcontainer_manager.Model.{Container, Environment, Session}
use devcontainer_manager.T3.{TokenStore, Gateway, new_gateway}
use devcontainer_manager.T3.Random.{random_token, random_code}
use devcontainer_manager.T3.Pairing.{payload_code, accepts_code}
use devcontainer_manager.T3.Backend.{World, Backend}
use devcontainer_manager.T3.Proxy.{Web}
use devcontainer_manager.T3.Serve.{rest_of, is_bootstrap}
use devcontainer_manager.T3.Stage.{Codec}
use devcontainer_manager.App.Lookup.{values, environment}
use devcontainer_manager.App.Proxy.{Request, requested_env}
use devcontainer_manager.App.Handler.{routes, Response}
use devcontainer_manager.App.Handler.Changes.{container_key, action_env}

-- A request, with what the service is when it comes.
pub record Call (S : TokenStore) : Type 0 where
  pub request : Request
  pub bytes : Str
  pub now : ℕ
  pub sessions : List Session
  pub gateway : Gateway S
  pub world : World (Map Container)

-- Each environment that is shown has one container, which `key` names.
abbrev pub IsKeyed : (Str → Str) → Map Container → Type 0
IsKeyed key m =
    (c : Container)
    → In c (values m)
    → is_empty c.t3.environment_id ≡ false
    → container_key c ≡ key c.t3.environment_id

-- A call in a list, the latest first, and the calls before it.
pub data Earlier {S : TokenStore} (c : Call S) : List (Call S) → List (Call S) → Type 0 where
  now : {before : List (Call S)} → Earlier c (c ∷ before) before
  later : {x : Call S} {cs before : List (Call S)} → Earlier c cs before → Earlier c (x ∷ cs) before

module _ (S : TokenStore) (sort : List Container → List Container) where
  -- The call is a POST below "/api/environments/" for a known environment `E`, and draws this code.
  pub record IsPairing (c : Call S) (E code : Str) : Type 0 where
    pub post : c.request.incoming.method ≡ lit "POST"
    pub below : has_prefix c.request.incoming.path (lit "/api/environments/") ≡ true
    pub named : action_env c.request ≡ E
    pub env : Environment
    pub known : environment sort E c.world.shared ≡ some env
    pub drawn : code ≡ random_code c.bytes

  -- The call is a bootstrap of a known environment `E`, whose code the gateway accepts, and makes this
  -- token.
  pub record IsBootstrap (c : Call S) (E token : Str) : Type 0 where
    pub below : has_prefix c.request.incoming.path (lit "/env/") ≡ true
    pub env : Environment
    pub known : environment sort (requested_env c.request) c.world.shared ≡ some env
    pub own : env.id ≡ E
    pub asked :
        is_bootstrap c.request.incoming.method (rest_of c.request.incoming.path env.id) ≡ true
    pub accepted :
        accepts_code S c.gateway (payload_code c.request.draw.payload) E c.request.draw.checked
        ≡ true
    pub drawn : token ≡ random_token c.request.draw.bytes

  -- The calls contain a bootstrap of `E` that made the token, and before it the request for its code.
  pub record IsPaired (cs : List (Call S)) (E token : Str) : Type 0 where
    pub bootstrap : Call S
    pub before : List (Call S)
    pub pairing : Call S
    pub placed : Earlier bootstrap cs before
    pub requested : In pairing before
    pub bootstrapped : IsBootstrap bootstrap E token
    pub offered : IsPairing pairing E (payload_code bootstrap.request.draw.payload)

  pub IsPaired-more :
      (c : Call S) (cs : List (Call S)) (E token : Str)
      → IsPaired cs E token
      → IsPaired (c ∷ cs) E token
  IsPaired-more c cs E token p = record {
    bootstrap = p.bootstrap;
    before = p.before;
    pairing = p.pairing;
    placed = later p.placed;
    requested = p.requested;
    bootstrapped = p.bootstrapped;
    offered = p.offered;
  }

module _ (B : Backend) (W : Web) (J : Codec) (S : TokenStore)
    (sort : List Container → List Container) (sort_sessions : List Session → List Session) where
  abbrev pub answer : Call S → Gateway S × World (Map Container) × Response
  answer c = routes B W J S sort sort_sessions c.request c.bytes c.now c.sessions c.gateway c.world

  -- The calls that a new service answers, the latest first, and the gateway after them.
  pub data History (key : Str → Str) (store : Option S.State)
      : List (Call S) → Gateway S → Type 0 where
    begin : History key store [] (new_gateway S store)
    next :
        {cs : List (Call S)} {g : Gateway S}
        → History key store cs g
        → (c : Call S) → c.gateway ≡ g
        → IsKeyed key c.world.shared
        → History key store (c ∷ cs) (answer c).0
