-- ===== src/T3/Pairing/Isolation.antt =====
-- internal/t3/gateway.go: what a bootstrap leaves to the other environments.
use devcontainer_manager.T3.Pairing.{
  save_token, Readings, token_lifetime, bearer_token, delete_browser_tokens, handle_bootstrap,
  authorized_with_store,
}
use devcontainer_manager.Base.Map.{Map, lookup-insert, lookup-delete_where_other}
use devcontainer_manager.Model.{Environment}
use devcontainer_manager.T3.{BrowserToken, TokenStore, Gateway, IsLawful}
use devcontainer_manager.T3.Random.{random_token}
use devcontainer_manager.T3.Pairing.Bootstrap.{
  IsGranted, Granted, store_id, handle_bootstrap-Granted, saved,
}
use devcontainer_manager.T3.Pairing.Authorization.{Cached, Stored, authorized_with_store_iff}
use devcontainer_manager.Base.{
  Str, ◌==◌, eq-false_of_ne, ok, ℕ, ◌+◌, ◌≡◌, sym, ap, ◌∙◌, ◌≢◌, inl, inr, true, some, arith,
}

module _ (S : TokenStore) (lawful : IsLawful S) (payload : Map Str) (env : Environment)
    (bytes : Str) (checked issued : ℕ) (g : Gateway S) where
  abbrev next : Gateway S
  next = (handle_bootstrap S payload env bytes checked issued g).0

  module _ (granted : Granted S payload env bytes checked issued g) where
    Cached-other :
        (env_id token : Str) (now : ℕ)
        → env_id ≢ env.id
        → token ≢ random_token bytes
        → Cached S env_id token now g
        → Cached S env_id token now next
    unfolding delete_browser_tokens
    Cached-other env_id token now other_env other_token (e, found, same, live) =
        let kept =
          lookup-delete_where_other (λ (b : BrowserToken). b.env_id == env.id) token g.browser_auth
            found (eq-false_of_ne e.env_id env.id (λ p. other_env (sym same ∙ p))) in
        let apart = eq-false_of_ne (random_token bytes) token (λ p. other_token (sym p)) in
        (
          e,
          rw granted.browser_auth (lookup-insert (random_token bytes) token _ _ ∙ rw apart kept),
          same,
          live,
        )

    saved_store :
        (s : S.State)
        → g.token_store ≡ some s
        → (saved S payload env bytes checked issued g).0.token_store
          ≡ some (S.save s (store_id env) (random_token bytes) (issued + token_lifetime)).0
    unfolding save_token
    saved_store s has = ground arith

    saved_result :
        (s : S.State)
        → g.token_store ≡ some s
        → (S.save s (store_id env) (random_token bytes) (issued + token_lifetime)).1 ≡ ok tt
    unfolding save_token
    saved_result s has =
        let done : (saved S payload env bytes checked issued g).1 ≡ ok tt = granted.save_ok in
        ground arith

    Stored-other :
        (id token : Str) (now : ℕ)
        → id ≢ store_id env
        → Stored S id token now g
        → Stored S id token now next
    Stored-other id token now other_key (s, e, has, got, same, live) =
        let apart = eq-false_of_ne (store_id env) id (λ p. other_key (sym p)) in
        (
          (S.save s (store_id env) (random_token bytes) (issued + token_lifetime)).0,
          e,
          granted.token_store ∙ saved_store s has,
          lawful.get-save s (store_id env) (random_token bytes) (issued + token_lifetime)
                (saved_result s has) id
              ∙ rw apart got,
          same,
          live,
        )

  -- A granted bootstrap takes nothing from the other environments: a request that was authorized for one of
  -- them before is authorized after it, over a token store whose `Get` sees what a successful `Save`
  -- stored, where the environments have different keys and the new token is another one.
  pub bootstrap-isolates :
      IsGranted (handle_bootstrap S payload env bytes checked issued g).1
      → (auth env_id id : Str) (r : Readings) → env_id ≢ env.id
      → id ≢ store_id env
      → bearer_token auth ≢ some (random_token bytes)
      → (authorized_with_store S auth env_id id r g).1 ≡ true
      → (authorized_with_store S auth env_id id r next).1 ≡ true
  bootstrap-isolates h auth env_id id r other_env other_key other_token before =
      let granted = handle_bootstrap-Granted S payload env bytes checked issued g h in
      let (token, e, found) = (authorized_with_store_iff S auth env_id id r g).0 before in
      let apart : token ≢ random_token bytes = λ p. other_token (e ∙ ap some p) in
      (authorized_with_store_iff S auth env_id id r next).1 (
        token,
        e,
        elim found [
          | inl cached ↦ inl (Cached-other granted env_id token r.cached other_env apart cached)
          | inr stored ↦ inr (Stored-other granted id token r.stored other_key stored)
        ],
      )
