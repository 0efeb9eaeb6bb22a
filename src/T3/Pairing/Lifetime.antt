-- ===== src/T3/Pairing/Lifetime.antt =====
-- internal/t3/gateway.go: how long the token of a bootstrap is accepted.
use devcontainer_manager.Base.Map.{Map, lookup-insert}
use devcontainer_manager.Model.{Environment}
use devcontainer_manager.T3.{TokenStore, Gateway}
use devcontainer_manager.T3.Random.{random_token}
use devcontainer_manager.T3.Pairing.{
  Readings, token_lifetime, bearer_token, handle_bootstrap, authorized_with_store,
}
use devcontainer_manager.T3.Pairing.Bootstrap.{IsGranted, Granted, entry, handle_bootstrap-Granted}
use devcontainer_manager.T3.Pairing.Authorization.{authorized_with_store_iff}
use devcontainer_manager.T3.Pairing.Sequences.{
  Call, LeaveAll, Holds, perform_all, perform_all-Holds,
}
use devcontainer_manager.Base.{
  Str, eq_refl, ℕ, ◌+◌, ◌<◌, ◌≡◌, refl, sym, subst, inl, true, some, List,
}

module _ (S : TokenStore) (payload : Map Str) (env : Environment) (bytes : Str) (checked issued : ℕ)
    (g : Gateway S) where
  abbrev next : Gateway S
  next = (handle_bootstrap S payload env bytes checked issued g).0

  granted-Holds :
      Granted S payload env bytes checked issued g
      → Holds S env.id (random_token bytes) (issued + token_lifetime) next
  granted-Holds granted = (
    entry S payload env bytes checked issued g,
    rw (granted.browser_auth, lookup-insert, eq_refl (random_token bytes)) refl,
    refl,
    refl,
  )

  -- The token that a bootstrap grants is accepted for its environment until 24 hours after it was
  -- issued, directly after the bootstrap and after further calls of the gateway, one after the other,
  -- that take nothing from it: no other bootstrap of the environment is granted, a granted bootstrap
  -- of another environment draws another token, and a request with this token is for the environment
  -- and comes in these 24 hours.
  pub bootstrap-authorizes :
      IsGranted (handle_bootstrap S payload env bytes checked issued g).1
      → (calls : List Call)
      → LeaveAll S env.id (random_token bytes) (issued + token_lifetime) calls next
      → (auth id : Str) (r : Readings) → bearer_token auth ≡ some (random_token bytes)
      → r.cached < issued + token_lifetime
      → (authorized_with_store S auth env.id id r (perform_all S calls next)).1 ≡ true
  bootstrap-authorizes h calls leave auth id r e live =
      let granted = handle_bootstrap-Granted S payload env bytes checked issued g h in
      let (b, found, own, until) =
        perform_all-Holds S env.id (random_token bytes) (issued + token_lifetime) calls next leave
          (granted-Holds granted) in
      (authorized_with_store_iff S auth env.id id r (perform_all S calls next)).1
        (random_token bytes, e, inl (b, found, own, subst (λ n. r.cached < n) (sym until) live))
