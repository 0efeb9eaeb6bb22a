-- ===== src/T3/Pairing/Authorization.antt =====
-- internal/t3/gateway.go: what `authorizedWithStore` decides, and what a bootstrap does to it.
use devcontainer_manager.Base.Map
use devcontainer_manager.Base.Map.{Map, lookup-insert, lookup-delete_where_kept}
use devcontainer_manager.Model.{Environment}
use devcontainer_manager.T3.{BrowserToken, TokenStore, Gateway, IsLawful}
use devcontainer_manager.T3.Random.{random_token}
use devcontainer_manager.T3.Pairing.{
  Readings, token_lifetime, bearer_token, delete_browser_tokens, handle_bootstrap, check_stored,
  check_store, cache_hit, authorized_with_store,
}
use devcontainer_manager.T3.Pairing.Bootstrap.{
  IsGranted, Granted, store_id, handle_bootstrap-Granted, saved_state,
}
use devcontainer_manager.Base.{
  if◌then◌else◌, Bool-cases, Option-cases, Str, ◌==◌, eq_iff, eq_refl, Result, ok, err, ℕ, ◌+◌, ◌≤◌,
  ◌<◌, ◌≡◌, refl, sym, ap, ◌∙◌, ◌↔◌, ◌⊎◌, inl, inr, true, Option, none, some, arith, false,
}

module _ (S : TokenStore) where
  -- The cache holds a live entry of this environment under the token.
  abbrev pub Cached : Str → Str → ℕ → Gateway S → Type 0
  Cached env_id token now g =
      (e : BrowserToken) × (Map.lookup token g.browser_auth ≡ some e)
      × (e.env_id ≡ env_id)
      × (now < e.expires_at)

  -- The store holds this token under the key, and it has not expired.
  abbrev pub Stored : Str → Str → ℕ → Gateway S → Type 0
  Stored id token now g =
      (s : S.State) × (e : BrowserToken) × (g.token_store ≡ some s)
      × (S.get s id ≡ ok (some e))
      × (e.token ≡ token)
      × (now ≤ e.expires_at)

  pub cache_hit_sound :
      (env_id token : Str) (now : ℕ) (g : Gateway S)
      → cache_hit S env_id token now g ≡ true
      → Cached env_id token now g
  unfolding cache_hit
  cache_hit_sound env_id token now g h = elim (Option-cases (Map.lookup token g.browser_auth)) [
    | inl e ↦ absurd (ground arith)
    | inr (e, found) ↦ (e, found, ground (arith, eq_iff e.env_id env_id), ground arith)
  ]

  pub cache_hit_complete :
      (env_id token : Str) (now : ℕ) (g : Gateway S)
      → Cached env_id token now g
      → cache_hit S env_id token now g ≡ true
  unfolding cache_hit
  cache_hit_complete env_id token now g (e, found, env, live) =
      rw (found, cache_hit) (ground (arith, eq_iff e.env_id env_id))

  check_store_sound :
      (env_id id token : Str) (r : Readings) (g : Gateway S)
      → (check_store S env_id id token r g).1 ≡ true
      → Stored id token r.stored g
  unfolding check_store
  check_store_sound env_id id token r g h = elim (Option-cases g.token_store) [
    | inl e ↦ absurd (ground arith)
    | inr (s, e) ↦ from_get s e (S.get s id) refl (rw (e, check_store) at h)
  ]
    where
      from_get :
          (s : S.State)
          → g.token_store ≡ some s
          → (got : Result (Option BrowserToken)) → S.get s id ≡ got
          → (check_stored S env_id id token r s got g).1 ≡ true
          → Stored id token r.stored g
      from_get s e (err m) same k = cc
      from_get s e (ok none) same k = cc
      from_get s e (ok (some b)) same k =
          (s, b, e, same, ground (arith, eq_iff b.token token), ground arith)

  check_store_complete :
      (env_id id token : Str) (r : Readings) (g : Gateway S)
      → Stored id token r.stored g
      → (check_store S env_id id token r g).1 ≡ true
  unfolding check_store
  check_store_complete env_id id token r g (s, e, has, got, same, live) =
      rw (has, check_store, got) (ground (arith, eq_iff e.token token))

  module _ (auth env_id id : Str) (r : Readings) (g : Gateway S) where
    abbrev pub IsAuthorized : Type 0
    IsAuthorized =
        (token : Str) × (bearer_token auth ≡ some token)
        × (Cached env_id token r.cached g ⊎ Stored id token r.stored g)

    by_token :
        (token : Str)
        → bearer_token auth ≡ some token
        → (authorized_with_store S auth env_id id r g).1 ≡ (
            if cache_hit S env_id token r.cached g
            then true
            else (check_store S env_id id token r g).1)
    unfolding authorized_with_store
    by_token token e = rw (e, authorized_with_store) (ground arith)

    unauthorized : bearer_token auth ≡ none → (authorized_with_store S auth env_id id r g).1 ≡ false
    unfolding authorized_with_store
    unauthorized e = rw (e, authorized_with_store) refl

    authorized_with_store_sound :
        (authorized_with_store S auth env_id id r g).1 ≡ true → IsAuthorized
    authorized_with_store_sound h = elim (Option-cases (bearer_token auth)) [
      | inl e ↦ absurd (cc (unauthorized e))
      | inr (token, e) ↦ elim (Bool-cases (cache_hit S env_id token r.cached g)) [
        | inl hit ↦ (token, e, inl (cache_hit_sound env_id token r.cached g hit))
        | inr miss ↦ (
          token,
          e,
          inr (check_store_sound env_id id token r g (ground (arith, by_token token e))),
        )
      ]
    ]

    authorized_with_store_complete :
        IsAuthorized → (authorized_with_store S auth env_id id r g).1 ≡ true
    authorized_with_store_complete (token, e, inl cached) =
        by_token token e ∙ rw (cache_hit_complete env_id token r.cached g cached) refl
    authorized_with_store_complete (token, e, inr stored) =
        by_token token e ∙ ground (arith, check_store_complete env_id id token r g stored)

    -- A request is authorized exactly when its header carries a bearer token for which the cache has
    -- a live entry of this environment, or which the store holds, not expired, under the store key.
    pub authorized_with_store_iff :
        ((authorized_with_store S auth env_id id r g).1 ≡ true) ↔ IsAuthorized
    authorized_with_store_iff = (authorized_with_store_sound, authorized_with_store_complete)

-- What a granted bootstrap means for later requests, whatever the state of the gateway was.
module _ (S : TokenStore) (lawful : IsLawful S) (payload : Map Str) (env : Environment)
    (bytes : Str) (checked issued : ℕ) (g : Gateway S) where
  abbrev pub next : Gateway S
  next = (handle_bootstrap S payload env bytes checked issued g).0

  module _ (granted : Granted S payload env bytes checked issued g) where
    -- In the cache, this environment has the new token only.
    Cached-is_new :
        (token : Str) (now : ℕ) → Cached S env.id token now next → token ≡ random_token bytes
    unfolding delete_browser_tokens
    Cached-is_new token now (e, found, same, live) =
        let after_insert = rw (granted.browser_auth, lookup-insert) at found in
        elim (Bool-cases (random_token bytes == token)) [
          | inl new ↦ sym ((eq_iff (random_token bytes) token).0 new)
          | inr other ↦
              let kept =
                lookup-delete_where_kept (λ (b : BrowserToken). b.env_id == env.id) token
                  g.browser_auth (rw other at after_insert) in
              absurd (ground (arith, eq_iff e.env_id env.id))
        ]

    -- The entry of the store under this environment's key.
    pub stored_entry :
        (t : S.State)
        → next.token_store ≡ some t
        → S.get t (store_id env)
          ≡ ok (
              some (record {
                token = random_token bytes;
                env_id = store_id env;
                expires_at = issued + token_lifetime;
              }))
    stored_entry t has =
        let (s, _, save_ok, same) =
          saved_state S payload env bytes checked issued g granted.save_ok t
            (sym granted.token_store ∙ has) in
        rw (← same) (
          lawful.get-save s (store_id env) (random_token bytes) (issued + token_lifetime) save_ok
            (store_id env)
          ∙ rw (eq_refl (store_id env)) refl)

    Stored-is_new :
        (token : Str) (now : ℕ)
        → Stored S (store_id env) token now next
        → token ≡ random_token bytes
    Stored-is_new token now (s, e, has, got, same, live) = cc (stored_entry s has)

  -- After a granted bootstrap, over a token store whose `Get` sees what a successful `Save` stored, no
  -- token but the new one is accepted for the environment, in the cache or through the store: all
  -- earlier tokens of it are revoked.
  pub bootstrap-revokes :
      IsGranted (handle_bootstrap S payload env bytes checked issued g).1
      → (auth : Str) (r : Readings)
      → (authorized_with_store S auth env.id (store_id env) r next).1 ≡ true
      → bearer_token auth ≡ some (random_token bytes)
  bootstrap-revokes h auth r accepted =
      let granted = handle_bootstrap-Granted S payload env bytes checked issued g h in
      let (token, e, found) =
        (authorized_with_store_iff S auth env.id (store_id env) r next).0 accepted in
      elim found [
        | inl cached ↦ e ∙ ap some (Cached-is_new granted token r.cached cached)
        | inr stored ↦ e ∙ ap some (Stored-is_new granted token r.stored stored)
      ]
