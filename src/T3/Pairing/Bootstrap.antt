-- ===== src/T3/Pairing/Bootstrap.antt =====
-- internal/t3/gateway.go: what `handleBootstrap` does to the gateway, on each of its branches.
use devcontainer_manager.Base.Map
use devcontainer_manager.Base.Map.{Map}
use devcontainer_manager.Model.{Environment}
use devcontainer_manager.T3.{BrowserToken, TokenStore, Gateway}
use devcontainer_manager.T3.Random.{random_token}
use devcontainer_manager.T3.Pairing.{
  Reply, http_error, json, token_lifetime, payload_code, delete_browser_tokens, accepts_code,
  save_token, install_token, handle_bootstrap,
}
use devcontainer_manager.Base.{
  Bool-cases, Str, lit, first_non_empty, Result, ok, err, ℕ, ◌+◌, ◌≡◌, refl, ◌∙◌, inl, inr, true,
  false, [], ◌∷◌, arith, some, Option-cases,
}

-- A token was granted.
abbrev pub IsGranted : Reply → Type 0
IsGranted (http_error _ _) = ⊥
IsGranted (json _ _) = Unit

abbrev pub store_id : Environment → Str
store_id env = first_non_empty (env.container_id ∷ env.id ∷ [])

module _ (S : TokenStore) (id token : Str) (expires : ℕ) (g : Gateway S) where
  pub save_token-pairing : (save_token S id token expires g).0.pairing ≡ g.pairing
  unfolding save_token
  save_token-pairing = ground arith

  pub save_token-browser_auth : (save_token S id token expires g).0.browser_auth ≡ g.browser_auth
  unfolding save_token
  save_token-browser_auth = ground arith

pub install_token-pairing :
    (S : TokenStore) (env_id token : Str) (expires : ℕ) (p : Gateway S × Result (Unit {0}))
    → (install_token S env_id token expires p).0.pairing ≡ p.0.pairing
unfolding install_token
install_token-pairing S env_id token expires (g, ok _) = refl
install_token-pairing S env_id token expires (g, err _) = refl

-- What `install_token` leaves where it grants the token.
install_token-granted :
    (S : TokenStore) (env_id token : Str) (expires : ℕ) (p : Gateway S × Result (Unit {0}))
    → IsGranted (install_token S env_id token expires p).1
    → (p.1 ≡ ok tt)
      × ((install_token S env_id token expires p).0.token_store ≡ p.0.token_store)
      × ((install_token S env_id token expires p).0.pairing ≡ p.0.pairing)
      × ((install_token S env_id token expires p).0.browser_auth
          ≡ Map.insert token
              (record { token = token; env_id = env_id; expires_at = expires })
              (delete_browser_tokens S env_id p.0).browser_auth)
unfolding install_token
install_token-granted S env_id token expires (g, ok tt) h = (refl, refl, refl, refl)
install_token-granted S env_id token expires (g, err e) h = absurd h

module _ (S : TokenStore) (payload : Map Str) (env : Environment) (bytes : Str) (checked issued : ℕ)
    (g : Gateway S) where
  abbrev pub used : Gateway S
  used = record g { pairing = Map.delete (payload_code payload) g.pairing }

  abbrev pub saved : Gateway S × Result (Unit {0})
  saved = save_token S (store_id env) (random_token bytes) (issued + token_lifetime) used

  abbrev pub entry : BrowserToken
  entry = record {
    token = random_token bytes;
    env_id = env.id;
    expires_at = issued + token_lifetime;
  }

  abbrev pub result : Gateway S × Reply
  result = handle_bootstrap S payload env bytes checked issued g

  -- The state after a token was granted.
  pub record Granted : Type 0 where
    pub accepted : accepts_code S g (payload_code payload) env.id checked ≡ true
    pub save_ok : saved.1 ≡ ok tt
    pub token_store : result.0.token_store ≡ saved.0.token_store
    pub pairing : result.0.pairing ≡ Map.delete (payload_code payload) g.pairing
    pub browser_auth :
        result.0.browser_auth
        ≡ Map.insert (random_token bytes) entry (delete_browser_tokens S env.id g).browser_auth

  pub handle_bootstrap_refused :
      accepts_code S g (payload_code payload) env.id checked ≡ false
      → result ≡ (g, http_error 401 (lit "invalid pairing code"))
  unfolding handle_bootstrap
  handle_bootstrap_refused h = rw h refl

  pub handle_bootstrap_accepted :
      accepts_code S g (payload_code payload) env.id checked ≡ true
      → result ≡ install_token S env.id (random_token bytes) (issued + token_lifetime) saved
  unfolding handle_bootstrap
  handle_bootstrap_accepted h = rw h refl

  abbrev pub installed : Gateway S × Reply
  installed = install_token S env.id (random_token bytes) (issued + token_lifetime) saved

  granted_of_accepted :
      accepts_code S g (payload_code payload) env.id checked ≡ true
      → IsGranted installed.1
      → Granted
  unfolding delete_browser_tokens
  granted_of_accepted accepted h =
      let same = handle_bootstrap_accepted accepted in
      let (save_ok, store, pairing, auth) = install_token-granted S env.id _ _ saved h in
      record {
        accepted = accepted;
        save_ok = save_ok;
        token_store = rw same store;
        pairing = rw same (pairing ∙ save_token-pairing S (store_id env) _ _ used);
        browser_auth = rw same (
            auth
            ∙ rw
                (save_token-browser_auth S (store_id env) (random_token bytes)
                  (issued + token_lifetime) used)
                refl);
      }

  -- A token is granted only for a known code, after a successful save, and leaves this state.
  pub handle_bootstrap-Granted : IsGranted result.1 → Granted
  handle_bootstrap-Granted h =
      elim (Bool-cases (accepts_code S g (payload_code payload) env.id checked)) [
        | inl accepted ↦ granted_of_accepted accepted (rw (handle_bootstrap_accepted accepted) at h)
        | inr refused ↦ absurd (rw (handle_bootstrap_refused refused) at h)
      ]

  -- The store of the gateway before a save that succeeded, and after it.
  pub saved_state :
      saved.1 ≡ ok tt
      → (t : S.State) → saved.0.token_store ≡ some t
      → (s : S.State) × (g.token_store ≡ some s)
        × ((S.save s (store_id env) (random_token bytes) (issued + token_lifetime)).1 ≡ ok tt)
        × ((S.save s (store_id env) (random_token bytes) (issued + token_lifetime)).0 ≡ t)
  unfolding save_token
  saved_state save_ok t has = elim (Option-cases g.token_store) [
    | inl e ↦ absurd (ground arith)
    | inr (s, e) ↦ (s, e, ground arith, ground arith)
  ]
