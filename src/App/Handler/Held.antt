-- ===== src/App/Handler/Held.antt =====
-- internal/app/service.go and internal/t3/gateway.go: the codes and tokens that the gateway holds after the
-- requests that a service has answered.
use devcontainer_manager.Base.{In, Str, lit, ◌≡◌, sym, subst, inl, inr, true, Option, List, ◌∷◌}
use devcontainer_manager.Go.Strings.{has_prefix}
use devcontainer_manager.Model.{Container, Session}
use devcontainer_manager.T3.{TokenStore, Gateway, IsFaithful}
use devcontainer_manager.T3.Pairing.{authorized_with_store}
use devcontainer_manager.T3.Pairing.Bootstrap.{store_id}
use devcontainer_manager.T3.Interleaving.Coverage.{IsCovered-mono}
use devcontainer_manager.T3.Interleaving.Coverage.Bootstrapping.{bootstrap-Covered}
use devcontainer_manager.T3.Interleaving.Revocation.{start-Covered}
use devcontainer_manager.T3.Interleaving.Calls.{idle, authorized_with_store-Covers, generate-Covers}
use devcontainer_manager.T3.Backend.{Backend}
use devcontainer_manager.T3.Proxy.{Web}
use devcontainer_manager.T3.Stage.{Codec}
use devcontainer_manager.App.Handler.Changes.{
  Change, unchanged, bootstrapped, env_checked, container_checked, container_key, action_env,
}
use devcontainer_manager.App.Handler.History.{Call, IsKeyed, History, begin, next}
use devcontainer_manager.App.Handler.Origins.{
  After, kept, paired, proxied, answer-After, Offered, After-Offered, Known, Covers, Known-more,
  Covers-more, made-Known,
}
use devcontainer_manager.App.Handler.Keys.{environment-keyed, container-keyed}

module _ (B : Backend) (W : Web) (J : Codec) (S : TokenStore)
    (sort : List Container → List Container) (sort_sessions : List Session → List Session)
    (faithful : IsFaithful S)
    (adds_none : (x : Container) (xs : List Container) → In x (sort xs) → In x xs) (key : Str → Str)
    (injective : (i j : Str) → key i ≡ key j → i ≡ j) (store : Option S.State) (E : Str) where
  abbrev Tokens : List (Call S) → Str → Type 0
  Tokens = Known B W J S sort sort_sessions faithful adds_none key injective store E

  abbrev IsHeld : List (Call S) → Gateway S → Type 0
  IsHeld = Covers B W J S sort sort_sessions faithful adds_none key injective store E

  abbrev AreOffered : List (Call S) → Gateway S → Type 0
  AreOffered = Offered B W J S sort sort_sessions

  more : (c : Call S) (cs : List (Call S)) (g : Gateway S) → IsHeld cs g → IsHeld (c ∷ cs) g
  more = Covers-more B W J S sort sort_sessions faithful adds_none key injective store E

  checked-IsHeld :
      (c : Call S) (cs : List (Call S)) (env_id id : Str)
      → id ≡ key env_id
      → IsHeld cs c.gateway
      → IsHeld cs
          (authorized_with_store S c.request.auth env_id id c.request.draw.readings c.gateway).0
  checked-IsHeld c cs env_id id keyed h =
      subst
        (λ (i : Str).
          IsHeld cs
            (authorized_with_store S c.request.auth env_id i c.request.draw.readings c.gateway).0)
        (sym keyed)
        (authorized_with_store-Covers S faithful key injective E (Tokens cs) c.request.auth env_id
          c.request.draw.readings c.gateway h).0

  Change-IsHeld :
      (c : Call S) (cs : List (Call S)) {g : Gateway S}
      → has_prefix c.request.incoming.path (lit "/env/") ≡ true
      → Change B W J S sort c.request c.gateway c.world g
      → IsKeyed key c.world.shared
      → AreOffered cs c.gateway
      → IsHeld cs c.gateway
      → IsHeld (c ∷ cs) g
  Change-IsHeld c cs below unchanged keyed offered h = more c cs c.gateway h
  Change-IsHeld c cs below (bootstrapped env known boot) keyed offered h =
      let (_, _, own) = environment-keyed sort adds_none key c.world.shared keyed _ env known in
      IsCovered-mono S key E
        (λ t x. elim x [
          | inl old ↦
              Known-more B W J S sort sort_sessions faithful adds_none key injective store E c cs t
                old
          | inr made ↦
              made-Known B W J S sort sort_sessions faithful adds_none key injective store E c cs
                env below known boot offered t made
        ])
        _
        (bootstrap-Covered S faithful key injective E (Tokens cs) c.request.draw.payload env
          c.request.draw.bytes c.request.draw.checked c.request.draw.issued
          (idle S faithful key injective E (Tokens cs) c.gateway) own h)
  Change-IsHeld c cs below (env_checked env known) keyed offered h =
      let (_, _, own) = environment-keyed sort adds_none key c.world.shared keyed _ env known in
      more c cs _ (checked-IsHeld c cs env.id (store_id env) own h)
  Change-IsHeld c cs below (container_checked env d known found) keyed offered h =
      let (_, set, _) = environment-keyed sort adds_none key c.world.shared keyed _ env known in
      let (_, own) = container-keyed sort adds_none key c.world.shared keyed _ d set found in
      more c cs _ (checked-IsHeld c cs d.t3.environment_id (container_key d) own h)

  After-IsHeld :
      (c : Call S) (cs : List (Call S)) {g : Gateway S}
      → After B W J S sort sort_sessions c g
      → IsKeyed key c.world.shared
      → AreOffered cs c.gateway
      → IsHeld cs c.gateway
      → IsHeld (c ∷ cs) g
  After-IsHeld c cs kept keyed offered h = more c cs c.gateway h
  After-IsHeld c cs (paired env known post below) keyed offered h = more c cs _ (
      generate-Covers S faithful key injective E (Tokens cs) (action_env c.request) c.bytes c.now
        c.gateway h)
  After-IsHeld c cs (proxied below change) keyed offered h =
      Change-IsHeld c cs below change keyed offered h

  pub History-IsHeld :
      {cs : List (Call S)} {g : Gateway S}
      → History B W J S sort sort_sessions key store cs g
      → AreOffered cs g × IsHeld cs g
  History-IsHeld begin = (
    tt,
    IsCovered-mono S key E (λ t held. inl held) _ (start-Covered S faithful key injective E store),
  )
  History-IsHeld (next {cs = cs} before c same keyed) =
      let (offered, held) = History-IsHeld before in
      let changed = answer-After B W J S sort sort_sessions c in
      let offered_now = subst (AreOffered cs) (sym same) offered in
      (
        After-Offered B W J S sort sort_sessions c cs changed offered_now,
        After-IsHeld c cs changed keyed offered_now (subst (IsHeld cs) (sym same) held),
      )
