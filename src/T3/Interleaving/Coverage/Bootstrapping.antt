-- ===== src/T3/Interleaving/Coverage/Bootstrapping.antt =====
-- internal/t3/gateway.go: a bootstrap of an environment adds at most the token that it makes to the tokens of
-- that environment.
use devcontainer_manager.Base.Map
use devcontainer_manager.Base.Map.{Map}
use devcontainer_manager.Model.{Environment}
use devcontainer_manager.T3.{TokenStore, Gateway, IsFaithful}
use devcontainer_manager.T3.Random.{random_token}
use devcontainer_manager.T3.Pairing.{
  token_lifetime, payload_code, accepts_code, handle_bootstrap, save_token, install_token,
  delete_browser_tokens,
}
use devcontainer_manager.T3.Pairing.Bootstrap.{
  store_id, used, handle_bootstrap_accepted, handle_bootstrap_refused, save_token-browser_auth,
}
use devcontainer_manager.T3.Interleaving.{issued, System, bootstrap_label}
use devcontainer_manager.T3.Interleaving.Coverage.{
  Tokens, IsCachedIn, StoredIn, IsCovered, With, IsCovered-add,
}
use devcontainer_manager.Base.{
  Bool-cases, Option-cases, All, Str, Result, ok, err, ℕ, ◌+◌, ◌≡◌, refl, sym, ◌∙◌, inl, inr, some,
}

module _ (S : TokenStore) (faithful : IsFaithful S) (key : Str → Str)
    (injective : (i j : Str) → key i ≡ key j → i ≡ j) (E : Str) where
  module _ (P : Tokens S key E) where
    save_token-StoredIn :
        (env : Environment) (token : Str) (expires : ℕ) (g : Gateway S)
        → store_id env ≡ key env.id
        → StoredIn S key E P g.token_store
        → StoredIn S key E
            (With S key E P (issued env.id token))
            (save_token S (store_id env) token expires g).0.token_store
    unfolding save_token
    save_token-StoredIn env token expires g keyed c = elim (Option-cases g.token_store) [
      | inl e ↦ rw (e, save_token, e) tt
      | inr (s, e) ↦ rw (e, save_token) (from_save s (rw e at c))
    ]
      where
        from_save :
            (s : S.State)
            → StoredIn S key E P (some s)
            → StoredIn S key E
                (With S key E P (issued env.id token))
                (some (S.save s (store_id env) token expires).0)
        from_save s old e got =
            elim (faithful.get-save_origin s (store_id env) token expires (key E) e got) [
              | inl before ↦ inl (old e before)
              | inr (same, own) ↦
                  let env_same : env.id ≡ E = injective env.id E (sym keyed ∙ same) in
                  inr (cc (env_same, own))
            ]

    module _ (env_id token : Str) (expires : ℕ) where
      abbrev Q : Tokens S key E
      Q = With S key E P (issued env_id token)

      install_token-StoredIn :
          (p : Gateway S × Result (Unit {0}))
          → StoredIn S key E Q p.0.token_store
          → StoredIn S key E Q (install_token S env_id token expires p).0.token_store
      unfolding install_token
      install_token-StoredIn (g, ok _) c = c
      install_token-StoredIn (g, err e) c = c

      install_token-IsCachedIn :
          (p : Gateway S × Result (Unit {0}))
          → All (IsCachedIn S key E Q) p.0.browser_auth
          → All (IsCachedIn S key E Q) (install_token S env_id token expires p).0.browser_auth
      unfolding install_token delete_browser_tokens
      install_token-IsCachedIn (g, err e) c = c
      install_token-IsCachedIn (g, ok _) c =
          Map.insert-All (IsCachedIn S key E Q) token _ _ (λ same. inr (cc same))
            (Map.delete_where-All (IsCachedIn S key E Q) _ g.browser_auth c)

    installed-Covered :
        (env : Environment) (token : Str) (expires : ℕ) (s : System S) (g : Gateway S)
        → store_id env ≡ key env.id
        → (c : IsCovered S key E P s) → g.token_store ≡ s.gateway.token_store
        → g.browser_auth ≡ s.gateway.browser_auth
        → IsCovered S key E (With S key E P (issued env.id token)) (record s {
          gateway =
              (install_token S env.id token expires
                (save_token S (store_id env) token expires g)).0;
        })
    installed-Covered env token expires s g keyed c same_store same_auth = record {
      cached =
          install_token-IsCachedIn env.id token expires
            (save_token S (store_id env) token expires g)
            (rw (save_token-browser_auth S (store_id env) token expires g, same_auth)
              (IsCovered-add S key E P (issued env.id token) s c).cached);
      in_flight = (IsCovered-add S key E P (issued env.id token) s c).in_flight;
      stored =
          install_token-StoredIn env.id token expires (save_token S (store_id env) token expires g)
            (save_token-StoredIn env token expires g keyed (rw same_store c.stored));
    }

    pub bootstrap-Covered :
        (payload : Map Str) (env : Environment) (bytes : Str) (checked made : ℕ) (s : System S)
        → store_id env ≡ key env.id
        → IsCovered S key E P s
        → IsCovered S key E
            (With S key E P (bootstrap_label S payload env bytes checked s.gateway))
            (record s { gateway = (handle_bootstrap S payload env bytes checked made s.gateway).0 })
    unfolding bootstrap_label
    bootstrap-Covered payload env bytes checked made s keyed c =
        elim (Bool-cases (accepts_code S s.gateway (payload_code payload) env.id checked)) [
          | inr refused ↦
              rw (handle_bootstrap_refused S payload env bytes checked made s.gateway refused)
                (IsCovered-add S key E P _ s c)
          | inl fits ↦
              rw (handle_bootstrap_accepted S payload env bytes checked made s.gateway fits)
                (rw fits (installed-Covered env token expires s before keyed c refl refl))
        ]
      where
        token : Str
        token = random_token bytes

        expires : ℕ
        expires = made + token_lifetime

        before : Gateway S
        before = used S payload env bytes checked made s.gateway
