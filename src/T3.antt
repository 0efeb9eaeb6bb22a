-- ===== src/T3.antt =====
-- internal/t3/gateway.go and token_store.go: the state of the gateway.
--
-- `Gateway` holds the two maps that its mutex guards, and the state of the token store that it was
-- given (`none` where that is nil). The store is an interface of the source; `TokenStore` has its
-- methods as functions of a state, so that a store may fail after it has changed.
pub mod Random
pub mod Pairing
pub mod Interleaving
pub mod Store
pub mod Titles
pub mod Backend
pub mod Endpoints
pub mod Stage
pub mod Spawn
pub mod Proxy
pub mod Relay
pub mod Serve
pub mod Reconcile
use devcontainer_manager.Base.Map.{Map}
use devcontainer_manager.Base.{if◌then◌else◌, Str, ◌==◌, Result, ok, ℕ, ◌≡◌, ◌⊎◌, Option, some, []}

pub record PairingCode : Type 0 where
  pub code : Str
  pub env_id : Str
  pub expires_at : ℕ

pub record BrowserToken : Type 0 where
  pub token : Str
  pub env_id : Str
  pub expires_at : ℕ

-- `BrowserTokenStore`
pub record TokenStore : Type 1 where
  pub State : Type 0
  pub save : State → Str → Str → ℕ → State × Result (Unit {0})
  pub get : State → Str → Result (Option BrowserToken)
  pub delete : State → Str → State × Result (Unit {0})

pub record Gateway (S : TokenStore) : Type 0 where
  pub token_store : Option S.State
  pub pairing : Map PairingCode
  pub browser_auth : Map BrowserToken

-- `newGateway`, of the fields that change
abbrev pub new_gateway : (S : TokenStore) → Option S.State → Gateway S
new_gateway S store = record { token_store = store; pairing = []; browser_auth = [] }

-- What a store promises: a save that succeeds is what a `Get` of its key sees from then on, and it changes
-- nothing at another key.
pub record IsLawful (S : TokenStore) : Type 0 where
  pub get-save :
      (s : S.State) (id token : Str) (expires : ℕ)
      → (S.save s id token expires).1 ≡ ok tt
      → (j : Str)
      → S.get (S.save s id token expires).0 j ≡ (
          if id == j
          then ok (some (record { token = token; env_id = id; expires_at = expires }))
          else S.get s j)

-- A store makes nothing up: what a `Get` sees after a save, also one that failed, was there before or
-- is what was saved, and what it sees after a deletion was there before.
pub record IsFaithful (S : TokenStore) : Type 0 where
  pub get-save_origin :
      (s : S.State) (id token : Str) (expires : ℕ) (j : Str) (e : BrowserToken)
      → S.get (S.save s id token expires).0 j ≡ ok (some e)
      → (S.get s j ≡ ok (some e)) ⊎ ((id ≡ j) × (e.token ≡ token))
  pub get-delete_origin :
      (s : S.State) (id j : Str) (e : BrowserToken)
      → S.get (S.delete s id).0 j ≡ ok (some e)
      → S.get s j ≡ ok (some e)
