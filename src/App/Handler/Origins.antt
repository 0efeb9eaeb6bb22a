-- ===== src/App/Handler/Origins.antt =====
-- internal/app/service.go and internal/t3/gateway.go: which requests the pairing codes and the tokens of the
-- gateway come from.
use devcontainer_manager.Base.{
  Bool-cases, All, In, here, there, Str, lit, ◌≡◌, refl, sym, subst, ◌⊎◌, inl, inr, true, Option,
  some, List, [], ◌∷◌,
}
use devcontainer_manager.Base.Map
use devcontainer_manager.Base.Map.{Map}
use devcontainer_manager.Go.Strings.{has_prefix}
use devcontainer_manager.Model.{Container, Environment, Session}
use devcontainer_manager.T3.{PairingCode, TokenStore, Gateway, IsFaithful}
use devcontainer_manager.T3.Random.{random_token}
use devcontainer_manager.T3.Pairing.{payload_code, generate_pairing_code, accepts_code}
use devcontainer_manager.T3.Pairing.Bootstrap.{store_id}
use devcontainer_manager.T3.Pairing.Offers.{
  authorized_with_store-pairing, handle_bootstrap-offers, accepts_code-offered,
}
use devcontainer_manager.T3.Interleaving.{silent, issued, bootstrap_label}
use devcontainer_manager.T3.Interleaving.Coverage.{IsCovered-mono}
use devcontainer_manager.T3.Interleaving.Revocation.{HeldBy}
use devcontainer_manager.T3.Interleaving.Calls
use devcontainer_manager.T3.Interleaving.Calls.{idle, authorized_with_store-Covers, generate-Covers}
use devcontainer_manager.T3.Backend.{Backend}
use devcontainer_manager.T3.Proxy.{Web}
use devcontainer_manager.T3.Serve.{rest_of, is_bootstrap}
use devcontainer_manager.T3.Stage.{Codec}
use devcontainer_manager.App.Lookup.{environment}
use devcontainer_manager.App.Proxy.{requested_env}
use devcontainer_manager.App.Handler.{handle, routes}
use devcontainer_manager.App.Mux.{
  Target, healthz, containers_api, environments_api, sessions_api, environment_action, env_proxy,
  web_page, by_mux, mux, mux-action, mux-proxy,
}
use devcontainer_manager.App.Handler.Changes.{
  Change, unchanged, bootstrapped, env_checked, container_checked, container_key, action_env,
  handle_env_proxy-Change, handle_environment_action-gateway,
}
use devcontainer_manager.App.Handler.History.{Call, now, IsPairing, IsPaired, IsPaired-more, answer}

module _ (B : Backend) (W : Web) (J : Codec) (S : TokenStore)
    (sort : List Container → List Container) (sort_sessions : List Session → List Session) where
  -- The gateway after a call.
  pub data After (c : Call S) : Gateway S → Type 0 where
    kept : After c c.gateway
    paired :
        (env : Environment)
        → environment sort (action_env c.request) c.world.shared ≡ some env
        → c.request.incoming.method ≡ lit "POST"
        → has_prefix c.request.incoming.path (lit "/api/environments/") ≡ true
        → After c (generate_pairing_code S (action_env c.request) c.bytes c.now c.gateway).0
    proxied :
        {g : Gateway S}
        → has_prefix c.request.incoming.path (lit "/env/") ≡ true
        → Change B W J S sort c.request c.gateway c.world g
        → After c g

  handle-After :
      (c : Call S) (t : Target)
      → mux c.request.incoming.method c.request.incoming.path ≡ t
      → After c
          (handle B W J S sort sort_sessions t c.request c.bytes c.now c.sessions c.gateway
            c.world).0
  unfolding handle
  handle-After c healthz e = kept
  handle-After c containers_api e = kept
  handle-After c environments_api e = kept
  handle-After c sessions_api e = kept
  handle-After c web_page e = kept
  handle-After c by_mux e = kept
  handle-After c environment_action e =
      let (post, below) = mux-action c.request.incoming.method c.request.incoming.path e in
      elim (handle_environment_action-gateway S sort c.request c.bytes c.now c.world.shared
        c.gateway) [
          | inl same ↦ subst (After c) (sym same) kept
          | inr (env, known, same) ↦ subst (After c) (sym same) (paired env known post below)
        ]
  handle-After c env_proxy e =
      proxied (mux-proxy c.request.incoming.method c.request.incoming.path e)
        (handle_env_proxy-Change B W J S sort c.request c.gateway c.world)

  pub answer-After : (c : Call S) → After c (answer B W J S sort sort_sessions c).0
  unfolding routes
  answer-After c = handle-After c _ refl

  -- What was offered: each code with a request for it among the calls.
  abbrev IsOffered : List (Call S) → Str × PairingCode → Type 0
  IsOffered cs (code, e) = (d : Call S) × In d cs × IsPairing S sort d e.env_id code

  abbrev pub Offered : List (Call S) → Gateway S → Type 0
  Offered cs g = All (IsOffered cs) g.pairing

  All-more :
      (c : Call S) (cs : List (Call S)) (m : Map PairingCode)
      → All (IsOffered cs) m
      → All (IsOffered (c ∷ cs)) m
  All-more c cs [] h = tt
  All-more c cs ((code, e) ∷ m) ((d, i, p), hs) = ((d, there i, p), All-more c cs m hs)

  Change-Offered :
      (c : Call S) (cs : List (Call S)) {g : Gateway S}
      → Change B W J S sort c.request c.gateway c.world g
      → Offered cs c.gateway
      → Offered cs g
  Change-Offered c cs unchanged h = h
  Change-Offered c cs (bootstrapped env known boot) h =
      handle_bootstrap-offers S (IsOffered cs) c.request.draw.payload env c.request.draw.bytes
        c.request.draw.checked c.request.draw.issued c.gateway h
  Change-Offered c cs (env_checked env known) h =
      rw
        (authorized_with_store-pairing S c.request.auth env.id (store_id env)
          c.request.draw.readings c.gateway)
        h
  Change-Offered c cs (container_checked env d known found) h =
      rw
        (authorized_with_store-pairing S c.request.auth d.t3.environment_id (container_key d)
          c.request.draw.readings c.gateway)
        h

  pub After-Offered :
      (c : Call S) (cs : List (Call S)) {g : Gateway S}
      → After c g
      → Offered cs c.gateway
      → Offered (c ∷ cs) g
  unfolding generate_pairing_code
  After-Offered c cs kept h = All-more c cs c.gateway.pairing h
  After-Offered c cs (paired env known post below) h =
      Map.insert-All (IsOffered (c ∷ cs)) _ _ c.gateway.pairing
        (
          c,
          here refl,
          record {
            post = post;
            below = below;
            named = refl;
            env = env;
            known = known;
            drawn = refl;
          },
        )
        (All-more c cs c.gateway.pairing h)
  After-Offered c cs (proxied below change) h = All-more c cs _ (Change-Offered c cs change h)

  module _ (faithful : IsFaithful S)
      (adds_none : (x : Container) (xs : List Container) → In x (sort xs) → In x xs)
      (key : Str → Str) (injective : (i j : Str) → key i ≡ key j → i ≡ j) (store : Option S.State)
      (E : Str) where
    -- The tokens that a request for `E` may have.
    abbrev pub Known : List (Call S) → Str → Type 0
    Known cs t = HeldBy S faithful key injective store E t ⊎ IsPaired S sort cs E t

    abbrev pub Covers : List (Call S) → Gateway S → Type 0
    Covers cs = Calls.Covers S faithful key injective E (Known cs)

    pub Known-more : (c : Call S) (cs : List (Call S)) (t : Str) → Known cs t → Known (c ∷ cs) t
    Known-more c cs t (inl held) = inl held
    Known-more c cs t (inr made) = inr (IsPaired-more S sort c cs E t made)

    pub Covers-more :
        (c : Call S) (cs : List (Call S)) (g : Gateway S) → Covers cs g → Covers (c ∷ cs) g
    Covers-more c cs g h = IsCovered-mono S key E (Known-more c cs) _ h

    -- The token that a bootstrap makes.
    pub made-Known :
        (c : Call S) (cs : List (Call S)) (env : Environment)
        → has_prefix c.request.incoming.path (lit "/env/") ≡ true
        → environment sort (requested_env c.request) c.world.shared ≡ some env
        → is_bootstrap c.request.incoming.method (rest_of c.request.incoming.path env.id) ≡ true
        → Offered cs c.gateway
        → (t : Str)
        → bootstrap_label S c.request.draw.payload env c.request.draw.bytes c.request.draw.checked
            c.gateway
          ≡ issued E t
        → Known (c ∷ cs) t
    unfolding bootstrap_label
    made-Known c cs env below known boot offered t e =
        elim (Bool-cases (
          accepts_code S c.gateway (payload_code c.request.draw.payload) env.id
            c.request.draw.checked)) [
              | inr refused ↦ absurd (not_silent (rw refused at e))
              | inl accepted ↦
                  let shown : issued env.id (random_token c.request.draw.bytes) ≡ issued E t =
                    rw accepted at e in
                  let own : env.id ≡ E = cc in
                  let drawn : t ≡ random_token c.request.draw.bytes = cc in
                  let accepted_too =
                    subst
                      (λ i.
                        accepts_code S c.gateway (payload_code c.request.draw.payload) i
                          c.request.draw.checked
                        ≡ true)
                      own accepted in
                  let (entry, found, mine) =
                    accepts_code-offered S c.gateway _ E c.request.draw.checked accepted_too in
                  let (d, i, pairing) =
                    Map.lookup-All (IsOffered cs) _ c.gateway.pairing entry offered found in
                  inr (record {
                    bootstrap = c;
                    before = cs;
                    pairing = d;
                    placed = now;
                    requested = i;
                    bootstrapped = record {
                      below = below;
                      env = env;
                      known = known;
                      own = own;
                      asked = boot;
                      accepted = accepted_too;
                      drawn = drawn;
                    };
                    offered =
                        subst (λ i. IsPairing S sort d i (payload_code c.request.draw.payload)) mine
                          pairing;
                  })
            ]
      where
        not_silent : silent ≡ issued E t → ⊥
        not_silent h = cc
