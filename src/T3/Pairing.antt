-- ===== src/T3/Pairing.antt =====
-- internal/t3/gateway.go: pairing codes, the bootstrap of browser tokens, and authorization.
--
-- A reading of the clock is an argument for each call of `time.Now`. Random bytes are arguments.
pub mod Bootstrap
pub mod Authorization
pub mod Isolation
pub mod Offers
pub mod Sequences
pub mod Lifetime
pub mod Codes
use devcontainer_manager.Base.Map
use devcontainer_manager.Base.Map.{Map, index}
use devcontainer_manager.Base.Json.{Json, string, stamp}
use devcontainer_manager.Go.Strings.{has_prefix, to_lower, trim_space}
use devcontainer_manager.Model.{Environment}
use devcontainer_manager.T3.{BrowserToken, TokenStore, Gateway, PairingCode}
use devcontainer_manager.T3.Random.{random_code, random_token}
use devcontainer_manager.Base.{
  ltb, if◌then◌else◌, drop, Str, lit, is_empty, ◌==◌, first_non_empty, Result, ok, err, ℕ, ◌+◌,
  Bool, true, false, not, ◌&&◌, ◌||◌, Option, none, some, [], ◌∷◌,
}

-- What a handler writes: `http.Error(w, text, code)`, or `writeJSON(w, code, fields)`.
pub data Reply : Type 0 where
  http_error : ℕ → Str → Reply
  json : ℕ → Map Json → Reply

-- `5 * time.Minute` and `24 * time.Hour`
abbrev pub pairing_lifetime : ℕ
pairing_lifetime = 300_000_000_000

abbrev pub token_lifetime : ℕ
token_lifetime = 86_400_000_000_000

-- `now.Before(t)` and `now.After(t)`
abbrev pub before : ℕ → ℕ → Bool
before now t = ltb now t

abbrev pub after : ℕ → ℕ → Bool
after now t = ltb t now

-- The readings of the clock that `authorizedWithStore` makes, in their order.
pub record Readings : Type 0 where
  pub cached : ℕ
  pub stored : ℕ
  pub purged : ℕ

-- The token in an `Authorization` header: `none` where the header is no bearer header.
unfoldable pub bearer_token : Str → Option Str
bearer_token auth =
    if not (has_prefix (to_lower auth) (lit "bearer "))
    then none
    else some (trim_space (drop 7 auth))

-- The code of a decoded body.
unfoldable pub payload_code : Map Str → Str
payload_code payload =
    let code = index (lit "code") payload in
    if is_empty code then index (lit "pairingCode") payload else code

abbrev is_accepted : Str → ℕ → Option PairingCode → Bool
is_accepted env_id now none = false
is_accepted env_id now (some entry) = entry.env_id == env_id && not (after now entry.expires_at)

abbrev is_live : Str → ℕ → Option BrowserToken → Bool
is_live env_id now none = false
is_live env_id now (some entry) = entry.env_id == env_id && before now entry.expires_at

module _ (S : TokenStore) where
  unfoldable pub generate_pairing_code : Str → Str → ℕ → Gateway S → Gateway S × Str × ℕ
  generate_pairing_code env_id bytes now g =
      let code = random_code bytes in
      let expires = now + pairing_lifetime in
      (
        record g {
          pairing =
              Map.insert code (record { code = code; env_id = env_id; expires_at = expires })
                g.pairing;
        },
        code,
        expires,
      )

  -- `deleteBrowserTokensLocked`
  unfoldable pub delete_browser_tokens : Str → Gateway S → Gateway S
  delete_browser_tokens env_id g = record g {
    browser_auth = Map.delete_where (λ e. e.env_id == env_id) g.browser_auth;
  }

  -- The guard of `handleBootstrap`: the code is known, of this environment and not expired.
  unfoldable pub accepts_code : Gateway S → Str → Str → ℕ → Bool
  accepts_code g code env_id now = is_accepted env_id now (Map.lookup code g.pairing)

  -- `g.tokenStore.Save`, which is not called on a nil store.
  unfoldable pub save_token : Str → Str → ℕ → Gateway S → Gateway S × Result (Unit {0})
  save_token store_id token expires g = elim g.token_store [
    | none ↦ (g, ok tt)
    | some s ↦ (
      record g { token_store = some (S.save s store_id token expires).0 },
      (S.save s store_id token expires).1,
    )
  ]

  -- The end of `handleBootstrap`, after `Save`.
  unfoldable pub install_token : Str → Str → ℕ → Gateway S × Result (Unit {0}) → Gateway S × Reply
  unfolding delete_browser_tokens
  install_token env_id token expires (g, err e) = (g, http_error 500 e)
  install_token env_id token expires (g, ok _) = (
    record g {
      browser_auth =
          Map.insert token (record { token = token; env_id = env_id; expires_at = expires })
            (delete_browser_tokens env_id g).browser_auth;
    },
    json 200 (
        (lit "bearerToken", string token)
        ∷ (lit "token", string token)
        ∷ (lit "tokenType", string (lit "Bearer"))
        ∷ (lit "expiresAt", stamp expires)
        ∷ []),
  )

  unfoldable pub handle_bootstrap :
      Map Str → Environment → Str → ℕ → ℕ → Gateway S → Gateway S × Reply
  unfolding accepts_code save_token install_token
  handle_bootstrap payload env bytes checked issued g =
      let code = payload_code payload in
      let used = record g { pairing = Map.delete code g.pairing } in
      let token = random_token bytes in
      let expires = issued + token_lifetime in
      let store_id = first_non_empty (env.container_id ∷ env.id ∷ []) in
      if accepts_code g code env.id checked
      then install_token env.id token expires (save_token store_id token expires used)
      else (g, http_error 401 (lit "invalid pairing code"))

  -- The part of `authorizedWithStore` that follows a `Get`.
  unfoldable pub check_stored :
      Str
      → Str
      → Str
      → Readings
      → S.State
      → Result (Option BrowserToken)
      → Gateway S
      → Gateway S × Bool
  check_stored env_id store_id token r s (err e) g = (g, false)
  check_stored env_id store_id token r s (ok none) g = (g, false)
  check_stored env_id store_id token r s (ok (some entry)) g =
      if not (entry.token == token) || after r.stored entry.expires_at
      then (
        (if after r.purged entry.expires_at
            then record g { token_store = some (S.delete s store_id).0 }
            else g),
        false,
      )
      else (
        record g {
          browser_auth = Map.insert token (record entry { env_id = env_id }) g.browser_auth;
        },
        true,
      )

  -- The part that follows a miss in the cache.
  unfoldable pub check_store : Str → Str → Str → Readings → Gateway S → Gateway S × Bool
  unfolding check_stored
  check_store env_id store_id token r g = elim g.token_store [
    | none ↦ (g, false)
    | some s ↦ check_stored env_id store_id token r s (S.get s store_id) g
  ]

  unfoldable pub cache_hit : Str → Str → ℕ → Gateway S → Bool
  cache_hit env_id token now g = is_live env_id now (Map.lookup token g.browser_auth)

  -- `authorizedWithStore`, from the token that the header carries.
  unfoldable pub authorize_token : Str → Str → Readings → Option Str → Gateway S → Gateway S × Bool
  unfolding check_store cache_hit
  authorize_token env_id store_id r none g = (g, false)
  authorize_token env_id store_id r (some token) g =
      if cache_hit env_id token r.cached g then (g, true) else check_store env_id store_id token r g

  unfoldable pub authorized_with_store : Str → Str → Str → Readings → Gateway S → Gateway S × Bool
  unfolding authorize_token
  authorized_with_store auth env_id store_id r g =
      authorize_token env_id store_id r (bearer_token auth) g

  -- `Authorized` and `authorized`
  unfoldable pub authorized : Str → Str → Readings → Gateway S → Gateway S × Bool
  authorized auth env_id r g = authorized_with_store auth env_id env_id r g
