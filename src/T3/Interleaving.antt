-- ===== src/T3/Interleaving.antt =====
-- internal/t3/gateway.go: the calls of the gateway as they interleave.
--
-- `authorizedWithStore` holds the mutex for its look into the cache and again for its write to the cache,
-- and calls the store in between without it. A request is therefore in flight with its local
-- variables, and any other call may come between its phases. `GeneratePairingCode` and
-- `handleBootstrap` hold the mutex to their end. A call of the store is one step.
pub mod Coverage
pub mod Revocation
pub mod Sequential
pub mod Calls
use devcontainer_manager.Base.Map
use devcontainer_manager.Base.Map.{Map}
use devcontainer_manager.Model.{Environment}
use devcontainer_manager.T3.{BrowserToken, TokenStore, Gateway, new_gateway}
use devcontainer_manager.T3.Random.{random_token}
use devcontainer_manager.T3.Pairing.{
  Readings, payload_code, generate_pairing_code, accepts_code, handle_bootstrap, cache_hit, after,
}
use devcontainer_manager.T3.Pairing.Bootstrap.{store_id}
use devcontainer_manager.Base.{
  if◌then◌else◌, Str, ◌==◌, Result, ok, err, ℕ, ◌≡◌, not, ◌||◌, Option, none, some, List, [], ◌∷◌,
  ◌++◌,
}

-- A request whose authorization is between two phases.
pub data Flight : Type 0 where
  -- it missed the cache, and will read the store
  missed : (env_id id token : Str) → Flight
  -- the store has its token, which it will put into the cache
  loaded : (env_id token : Str) (entry : BrowserToken) → Flight
  -- the entry in the store had expired, and it will delete it
  expired : (id : Str) → Flight

-- What a step shows.
pub data Label : Type 0 where
  silent : Label
  -- a bootstrap of the environment accepted its code and made this token
  issued : (env_id token : Str) → Label
  -- a request with this token was authorized for the environment
  accepted : (env_id token : Str) → Label

module _ (S : TokenStore) where
  pub record System : Type 0 where
    pub gateway : Gateway S
    pub flights : List Flight

  -- The look into the cache, under the mutex.
  unfoldable pub look : Str → Str → Str → ℕ → System → Label × System
  look env_id id token now s =
      if cache_hit S env_id token now s.gateway then (accepted env_id token, s) else (
        silent,
        elim s.gateway.token_store [
          | none ↦ s
          | some _ ↦ record s { flights = missed env_id id token ∷ s.flights }
        ],
      )

  -- The checks that follow a `Get`: what is left to do.
  unfoldable pub examine : Str → Str → Str → Readings → Result (Option BrowserToken) → List Flight
  examine env_id id token r (err e) = []
  examine env_id id token r (ok none) = []
  examine env_id id token r (ok (some entry)) =
      if not (entry.token == token) || after r.stored entry.expires_at
      then (if after r.purged entry.expires_at then expired id ∷ [] else [])
      else loaded env_id token (record entry { env_id = env_id }) ∷ []

  -- The `Get`, of the store as it is then.
  unfoldable pub load : Str → Str → Str → Readings → Gateway S → List Flight
  unfolding examine
  load env_id id token r g = elim g.token_store [
    | none ↦ []
    | some t ↦ examine env_id id token r (S.get t id)
  ]

  -- The write to the cache, under the mutex.
  unfoldable pub fill_cache : Str → BrowserToken → Gateway S → Gateway S
  fill_cache token entry g = record g { browser_auth = Map.insert token entry g.browser_auth }

  -- `g.tokenStore.Delete`
  unfoldable pub purge : Str → Gateway S → Gateway S
  purge id g = record g {
    token_store = elim g.token_store [ none ↦ none | some t ↦ some (S.delete t id).0 ];
  }

  unfoldable pub bootstrap_label : Map Str → Environment → Str → ℕ → Gateway S → Label
  bootstrap_label payload env bytes checked g =
      if accepts_code S g (payload_code payload) env.id checked
      then issued env.id (random_token bytes)
      else silent

  abbrev pub start : Option S.State → System
  start store = record { gateway = new_gateway S store; flights = [] }

  -- `key` gives the key of an environment in the store: it belongs to one container.
  module _ (key : Str → Str) where
    pub data Step (s : System) : Label → System → Type 0 where
      generate :
          (env_id bytes : Str) (now : ℕ)
          → Step s silent
              (record s { gateway = (generate_pairing_code S env_id bytes now s.gateway).0 })
      bootstrap :
          (payload : Map Str) (env : Environment) (bytes : Str) (checked made : ℕ)
          → store_id env ≡ key env.id
          → Step s (bootstrap_label payload env bytes checked s.gateway) (record s {
            gateway = (handle_bootstrap S payload env bytes checked made s.gateway).0;
          })
      looks :
          (env_id token : Str) (now : ℕ)
          → Step s (look env_id (key env_id) token now s).0 (look env_id (key env_id) token now s).1
      loads :
          (front back : List Flight) (env_id id token : Str) (r : Readings)
          → s.flights ≡ front ++ missed env_id id token ∷ back
          → Step s silent (record s { flights = front ++ load env_id id token r s.gateway ++ back })
      fills :
          (front back : List Flight) (env_id token : Str) (entry : BrowserToken)
          → s.flights ≡ front ++ loaded env_id token entry ∷ back
          → Step s
              (accepted env_id token)
              (record { gateway = fill_cache token entry s.gateway; flights = front ++ back })
      purges :
          (front back : List Flight) (id : Str)
          → s.flights ≡ front ++ expired id ∷ back
          → Step s silent (record { gateway = purge id s.gateway; flights = front ++ back })

    -- The runs, with their labels, the last one first.
    pub data Run (s : System) : List Label → System → Type 0 where
      begin : Run s [] s
      next :
          {t u : System} {ls : List Label} {l : Label} → Run s ls t → Step t l u → Run s (l ∷ ls) u
