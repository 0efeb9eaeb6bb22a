-- ===== src/T3/Pairing/Codes.antt =====
-- internal/t3/gateway.go: the life of a pairing code, from `GeneratePairingCode` to its one use.
use devcontainer_manager.Base.Map
use devcontainer_manager.Base.Map.{Map, lookup-insert, lookup-delete}
use devcontainer_manager.Model.{Environment}
use devcontainer_manager.T3.{TokenStore, Gateway}
use devcontainer_manager.T3.Random.{random_code}
use devcontainer_manager.T3.Pairing.{
  http_error, pairing_lifetime, payload_code, generate_pairing_code, accepts_code, handle_bootstrap,
}
use devcontainer_manager.T3.Pairing.Bootstrap.{
  store_id, handle_bootstrap_accepted, install_token-pairing, save_token-pairing,
}
use devcontainer_manager.T3.Pairing.Sequences.{Call, DrawsOther, perform_all, perform_all-absent}
use devcontainer_manager.Base.{
  All, List, Str, lit, eq_iff, eq_refl, ℕ, ◌+◌, ◌≤◌, ◌≡◌, refl, ap, ◌∙◌, ◌↔◌, true, none, arith,
}

module _ (S : TokenStore) where
  -- A new code is good for its own environment, up to five minutes after it was made, and for no
  -- other environment.
  pub generate-accepts_code :
      (env_id bytes : Str) (now : ℕ) (g : Gateway S) (other : Str) (later : ℕ)
      → (accepts_code S
            (generate_pairing_code S env_id bytes now g).0
            (random_code bytes)
            other
            later
          ≡ true)
        ↔ ((env_id ≡ other) × (later ≤ now + pairing_lifetime))
  unfolding accepts_code generate_pairing_code
  generate-accepts_code env_id bytes now g other later =
      rw (lookup-insert, eq_refl (random_code bytes)) (ground (arith, eq_iff env_id other))

  module _ (payload : Map Str) (env : Environment) (bytes : Str) (checked issued : ℕ)
      (g : Gateway S) where
    abbrev next : Gateway S
    next = (handle_bootstrap S payload env bytes checked issued g).0

    code_is_spent :
        accepts_code S g (payload_code payload) env.id checked ≡ true
        → next.pairing ≡ Map.delete (payload_code payload) g.pairing
    code_is_spent h =
        ap (λ p. p.0.pairing) (handle_bootstrap_accepted S payload env bytes checked issued g h)
        ∙ install_token-pairing S env.id _ _ _
        ∙ save_token-pairing S (store_id env) _ _ _

    is_spent :
        accepts_code S g (payload_code payload) env.id checked ≡ true
        → Map.lookup (payload_code payload) next.pairing ≡ none
    is_spent h = rw (code_is_spent h, lookup-delete, eq_refl (payload_code payload)) refl

    -- A pairing code works once. After a bootstrap that accepted it, whether or not the token could be
    -- saved, and after any further calls of the gateway, one after the other and none of which draws the
    -- same code again, a bootstrap with this code is answered 401 and changes nothing.
    pub bootstrap-once :
        accepts_code S g (payload_code payload) env.id checked ≡ true
        → (calls : List Call) → All (DrawsOther S (payload_code payload)) calls
        → (payload' : Map Str) (env' : Environment) (bytes' : Str) (checked' issued' : ℕ)
        → payload_code payload' ≡ payload_code payload
        → handle_bootstrap S payload' env' bytes' checked' issued' (perform_all S calls next)
          ≡ (perform_all S calls next, http_error 401 (lit "invalid pairing code"))
    unfolding handle_bootstrap accepts_code
    bootstrap-once h calls others payload' env' bytes' checked' issued' same =
        let gone = perform_all-absent S (payload_code payload) calls next others (is_spent h) in
        rw (same, gone) refl
