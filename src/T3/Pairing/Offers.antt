-- ===== src/T3/Pairing/Offers.antt =====
-- internal/t3/gateway.go: what the calls of the gateway do to the pairing codes that it has offered.
use devcontainer_manager.Base.{
  Bool-cases, Option-cases, All, Str, eq_iff, Result, ok, err, ℕ, ◌≡◌, refl, inl, inr, true, Option,
  none, some, arith,
}
use devcontainer_manager.Base.Map
use devcontainer_manager.Base.Map.{Map}
use devcontainer_manager.Model.{Environment}
use devcontainer_manager.T3.{PairingCode, BrowserToken, TokenStore, Gateway}
use devcontainer_manager.T3.Pairing.{
  payload_code, Readings, accepts_code, check_stored, check_store, authorize_token, cache_hit,
  authorized_with_store, handle_bootstrap, bearer_token,
}
use devcontainer_manager.T3.Pairing.Bootstrap.{
  store_id, handle_bootstrap_accepted, handle_bootstrap_refused, install_token-pairing,
  save_token-pairing,
}

module _ (S : TokenStore) where
  check_stored-pairing :
      (env_id id token : Str) (r : Readings) (s : S.State) (got : Result (Option BrowserToken))
      (g : Gateway S)
      → (check_stored S env_id id token r s got g).0.pairing ≡ g.pairing
  unfolding check_stored
  check_stored-pairing env_id id token r s (err e) g = refl
  check_stored-pairing env_id id token r s (ok none) g = refl
  check_stored-pairing env_id id token r s (ok (some b)) g = ground arith

  check_store-pairing :
      (env_id id token : Str) (r : Readings) (g : Gateway S)
      → (check_store S env_id id token r g).0.pairing ≡ g.pairing
  unfolding check_store
  check_store-pairing env_id id token r g = elim (Option-cases g.token_store) [
    | inl e ↦ rw (e, check_store) refl
    | inr (s, e) ↦ rw (e, check_store) (check_stored-pairing env_id id token r s (S.get s id) g)
  ]

  authorize_token-pairing :
      (env_id id : Str) (r : Readings) (bearer : Option Str) (g : Gateway S)
      → (authorize_token S env_id id r bearer g).0.pairing ≡ g.pairing
  unfolding authorize_token
  authorize_token-pairing env_id id r none g = refl
  authorize_token-pairing env_id id r (some token) g =
      elim (Bool-cases (cache_hit S env_id token r.cached g)) [
        | inl hit ↦ rw hit refl
        | inr miss ↦ rw miss (check_store-pairing env_id id token r g)
      ]

  -- A check of a token leaves the codes.
  pub authorized_with_store-pairing :
      (auth env_id id : Str) (r : Readings) (g : Gateway S)
      → (authorized_with_store S auth env_id id r g).0.pairing ≡ g.pairing
  unfolding authorized_with_store
  authorized_with_store-pairing auth env_id id r g =
      authorize_token-pairing env_id id r (bearer_token auth) g

  -- A bootstrap offers no code.
  pub handle_bootstrap-offers :
      (P : Str × PairingCode → Type 0) (payload : Map Str) (env : Environment) (bytes : Str)
      (checked issued : ℕ) (g : Gateway S)
      → All P g.pairing
      → All P (handle_bootstrap S payload env bytes checked issued g).0.pairing
  handle_bootstrap-offers P payload env bytes checked issued g h =
      elim (Bool-cases (accepts_code S g (payload_code payload) env.id checked)) [
        | inl accepted ↦
            rw
              (
                handle_bootstrap_accepted S payload env bytes checked issued g accepted,
                install_token-pairing S env.id _ _ _,
                save_token-pairing S (store_id env) _ _ _,
              )
              (Map.delete-All P (payload_code payload) g.pairing h)
        | inr refused ↦ rw (handle_bootstrap_refused S payload env bytes checked issued g refused) h
      ]

  -- A code that is accepted for an environment was offered to it.
  pub accepts_code-offered :
      (g : Gateway S) (code env_id : Str) (now : ℕ)
      → accepts_code S g code env_id now ≡ true
      → (e : PairingCode) × (Map.lookup code g.pairing ≡ some e) × (e.env_id ≡ env_id)
  unfolding accepts_code
  accepts_code-offered g code env_id now h = elim (Option-cases (Map.lookup code g.pairing)) [
    | inl e ↦ absurd (ground arith)
    | inr (entry, e) ↦ (entry, e, ground (arith, eq_iff entry.env_id env_id))
  ]
