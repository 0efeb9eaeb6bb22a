-- ===== src/T3/Pairing/Sequences.antt =====
-- internal/t3/gateway.go: whole calls of the gateway, one after the other.
use devcontainer_manager.Base.{
  if◌then◌else◌, Bool-cases, Option-cases, All, Str, ◌==◌, eq_iff, eq-false_of_ne, Result, ok, err,
  ℕ, ◌+◌, ◌<◌, ◌≡◌, refl, sym, ap, ◌∙◌, subst, ◌≢◌, ◌⊎◌, inl, inr, Bool, true, false, not, ◌||◌,
  Option, none, some, List, [], ◌∷◌, arith,
}
use devcontainer_manager.Base.Map
use devcontainer_manager.Base.Map.{Map, lookup-insert, lookup-delete, lookup-delete_where_other}
use devcontainer_manager.Model.{Environment}
use devcontainer_manager.T3.{BrowserToken, TokenStore, Gateway}
use devcontainer_manager.T3.Random.{random_code, random_token}
use devcontainer_manager.T3.Pairing.{
  Readings, payload_code, token_lifetime, bearer_token, generate_pairing_code, accepts_code,
  handle_bootstrap, install_token, delete_browser_tokens, cache_hit, check_stored, check_store,
  authorize_token, authorized_with_store, after,
}
use devcontainer_manager.T3.Pairing.Bootstrap.{
  IsGranted, store_id, saved, used, handle_bootstrap_accepted, handle_bootstrap_refused,
  install_token-pairing, save_token-pairing, save_token-browser_auth,
}
use devcontainer_manager.T3.Pairing.Authorization.{cache_hit_complete}
use devcontainer_manager.T3.Pairing.Offers.{authorized_with_store-pairing}

pub data Call : Type 0 where
  generate : (env_id bytes : Str) (now : ℕ) → Call
  bootstrap : (payload : Map Str) (env : Environment) (bytes : Str) (checked issued : ℕ) → Call
  authorize : (auth env_id id : Str) (r : Readings) → Call

module _ (S : TokenStore) where
  unfoldable pub perform : Call → Gateway S → Gateway S
  perform (generate env_id bytes now) g = (generate_pairing_code S env_id bytes now g).0
  perform (bootstrap payload env bytes checked issued) g =
      (handle_bootstrap S payload env bytes checked issued g).0
  perform (authorize auth env_id id r) g = (authorized_with_store S auth env_id id r g).0

  -- The gateway after the calls, the first one first.
  unfoldable pub perform_all : List Call → Gateway S → Gateway S
  unfolding perform
  perform_all [] g = g
  perform_all (c ∷ cs) g = perform_all cs (perform c g)

  module _ (code : Str) where
    -- The call does not draw this code.
    abbrev pub DrawsOther : Call → Type 0
    DrawsOther (generate env_id bytes now) = random_code bytes ≢ code
    DrawsOther (bootstrap payload env bytes checked issued) = Unit
    DrawsOther (authorize auth env_id id r) = Unit

    bootstrap-absent :
        (payload : Map Str) (env : Environment) (bytes : Str) (checked issued : ℕ) (g : Gateway S)
        → Map.lookup code g.pairing ≡ none
        → Map.lookup code (handle_bootstrap S payload env bytes checked issued g).0.pairing ≡ none
    bootstrap-absent payload env bytes checked issued g h =
        elim (Bool-cases (accepts_code S g (payload_code payload) env.id checked)) [
          | inl accepted ↦
              rw
                (
                  handle_bootstrap_accepted S payload env bytes checked issued g accepted,
                  install_token-pairing S env.id _ _ _,
                  save_token-pairing S (store_id env) _ _ _,
                  lookup-delete (payload_code payload) code g.pairing,
                )
                (gone (payload_code payload == code))
          | inr refused ↦
              rw (handle_bootstrap_refused S payload env bytes checked issued g refused) h
        ]
      where
        gone : (b : Bool) → (if b then none else Map.lookup code g.pairing) ≡ none
        gone true = refl
        gone false = h

    perform-absent :
        (c : Call) (g : Gateway S)
        → DrawsOther c
        → Map.lookup code g.pairing ≡ none
        → Map.lookup code (perform c g).pairing ≡ none
    unfolding perform generate_pairing_code
    perform-absent (generate env_id bytes now) g other h =
        lookup-insert (random_code bytes) code _ g.pairing
        ∙ rw (eq-false_of_ne (random_code bytes) code other) h
    perform-absent (bootstrap payload env bytes checked issued) g other h =
        bootstrap-absent payload env bytes checked issued g h
    perform-absent (authorize auth env_id id r) g other h =
        rw (authorized_with_store-pairing S auth env_id id r g) h

    -- A code that the gateway does not know stays unknown until it is drawn.
    pub perform_all-absent :
        (cs : List Call) (g : Gateway S)
        → All DrawsOther cs
        → Map.lookup code g.pairing ≡ none
        → Map.lookup code (perform_all cs g).pairing ≡ none
    unfolding perform_all
    perform_all-absent [] g tt h = h
    perform_all-absent (c ∷ cs) g (other, others) h =
        perform_all-absent cs (perform c g) others (perform-absent c g other h)

  module _ (E t : Str) (until : ℕ) where
    -- The call takes nothing from the token `t` of `E`: a bootstrap is refused, or is one of another
    -- environment that draws another token, and a request that is checked has another token, or is for
    -- `E` and comes in time.
    abbrev pub Leaves : Gateway S → Call → Type 0
    Leaves g (generate env_id bytes now) = Unit
    Leaves g (bootstrap payload env bytes checked issued) =
        (IsGranted (handle_bootstrap S payload env bytes checked issued g).1 → ⊥)
        ⊎ ((env.id ≢ E) × (random_token bytes ≢ t))
    Leaves g (authorize auth env_id id r) =
        (bearer_token auth ≢ some t) ⊎ ((env_id ≡ E) × (r.cached < until))

    abbrev pub LeaveAll : List Call → Gateway S → Type 0
    LeaveAll [] g = Unit
    LeaveAll (c ∷ cs) g = Leaves g c × LeaveAll cs (perform c g)

    -- The cache has the token.
    abbrev pub Holds : Gateway S → Type 0
    Holds g =
        (e : BrowserToken) × (Map.lookup t g.browser_auth ≡ some e)
        × (e.env_id ≡ E)
        × (e.expires_at ≡ until)

    install_token-Holds :
        (env_id token : Str) (expires : ℕ) (p : Gateway S × Result (Unit {0}))
        → (IsGranted (install_token S env_id token expires p).1 → ⊥) ⊎ ((env_id ≢ E) × (token ≢ t))
        → Holds p.0
        → Holds (install_token S env_id token expires p).0
    unfolding install_token delete_browser_tokens
    install_token-Holds env_id token expires (g, err m) leaves h = h
    install_token-Holds env_id token expires (g, ok _) (inl refused) h = absurd (refused tt)
    install_token-Holds env_id token expires (g, ok _) (inr (other, apart)) (e, found, own, live) =
        let kept =
          lookup-delete_where_other (λ (b : BrowserToken). b.env_id == env_id) t g.browser_auth
            found (eq-false_of_ne e.env_id env_id (λ p. other (sym p ∙ own))) in
        (e, lookup-insert token t _ _ ∙ rw (eq-false_of_ne token t apart) kept, own, live)

    bootstrap-Holds :
        (payload : Map Str) (env : Environment) (bytes : Str) (checked issued : ℕ) (g : Gateway S)
        → Leaves g (bootstrap payload env bytes checked issued)
        → Holds g
        → Holds (handle_bootstrap S payload env bytes checked issued g).0
    bootstrap-Holds payload env bytes checked issued g leaves h =
        elim (Bool-cases (accepts_code S g (payload_code payload) env.id checked)) [
          | inr refused ↦
              rw (handle_bootstrap_refused S payload env bytes checked issued g refused) h
          | inl accepted ↦
              let same = handle_bootstrap_accepted S payload env bytes checked issued g accepted in
              rw same (
                install_token-Holds env.id (random_token bytes) (issued + token_lifetime)
                  (saved S payload env bytes checked issued g) (rw same at leaves)
                  (rw
                    (save_token-browser_auth S (store_id env) (random_token bytes)
                      (issued + token_lifetime) (used S payload env bytes checked issued g))
                    h))
        ]

    check_stored-other :
        (env_id id token : Str) (r : Readings) (s : S.State) (got : Result (Option BrowserToken))
        (g : Gateway S)
        → token ≢ t
        → Map.lookup t (check_stored S env_id id token r s got g).0.browser_auth
          ≡ Map.lookup t g.browser_auth
    unfolding check_stored
    check_stored-other env_id id token r s (err m) g apart = refl
    check_stored-other env_id id token r s (ok none) g apart = refl
    check_stored-other env_id id token r s (ok (some b)) g apart =
        elim (Bool-cases (not (b.token == token) || after r.stored b.expires_at)) [
          | inl bad ↦ rw bad (ground arith)
          | inr good ↦
              rw good
                (lookup-insert token t _ g.browser_auth ∙ rw (eq-false_of_ne token t apart) refl)
        ]

    check_store-other :
        (env_id id token : Str) (r : Readings) (g : Gateway S)
        → token ≢ t
        → Map.lookup t (check_store S env_id id token r g).0.browser_auth
          ≡ Map.lookup t g.browser_auth
    unfolding check_store
    check_store-other env_id id token r g apart = elim (Option-cases g.token_store) [
      | inl e ↦ rw (e, check_store) refl
      | inr (s, e) ↦
          rw (e, check_store) (check_stored-other env_id id token r s (S.get s id) g apart)
    ]

    token-Holds :
        (env_id id token : Str) (r : Readings) (g : Gateway S)
        → (token ≢ t) ⊎ ((env_id ≡ E) × (r.cached < until))
        → Holds g
        → Holds (authorize_token S env_id id r (some token) g).0
    unfolding authorize_token
    token-Holds env_id id token r g leaves (e, found, own, live) =
        elim (Bool-cases (cache_hit S env_id token r.cached g)) [
          | inl hit ↦ rw hit (e, found, own, live)
          | inr miss ↦ elim (Bool-cases (token == t)) [
            | inr other ↦
                let apart : token ≢ t = λ p. cc (other, (eq_iff token t).1 p) in
                rw miss (e, check_store-other env_id id token r g apart ∙ found, own, live)
            | inl same ↦ elim leaves [
              | inl apart ↦ absurd (apart ((eq_iff token t).0 same))
              | inr (mine, early) ↦
                  let in_cache = cache_hit_complete S env_id token r.cached g (
                    e,
                    ap (λ k. Map.lookup k g.browser_auth) ((eq_iff token t).0 same) ∙ found,
                    own ∙ sym mine,
                    subst (λ n. r.cached < n) (sym live) early,
                  ) in
                  cc (miss, in_cache)
            ]
          ]
        ]

    authorized-Holds :
        (auth env_id id : Str) (r : Readings) (g : Gateway S)
        → Leaves g (authorize auth env_id id r)
        → Holds g
        → Holds (authorized_with_store S auth env_id id r g).0
    unfolding authorized_with_store authorize_token
    authorized-Holds auth env_id id r g leaves h = elim (Option-cases (bearer_token auth)) [
      | inl e ↦ rw (e, authorized_with_store) h
      | inr (token, e) ↦ rw e (
          token-Holds env_id id token r g
            (elim leaves [ inl apart ↦ inl (λ p. apart (e ∙ ap some p)) | inr mine ↦ inr mine ]) h)
    ]

    -- The cache keeps the token over calls that take nothing from it.
    pub perform_all-Holds :
        (cs : List Call) (g : Gateway S) → LeaveAll cs g → Holds g → Holds (perform_all cs g)
    unfolding perform_all perform generate_pairing_code
    perform_all-Holds [] g tt h = h
    perform_all-Holds (generate env_id bytes now ∷ cs) g (_, leaves) h =
        perform_all-Holds cs _ leaves h
    perform_all-Holds (bootstrap payload env bytes checked issued ∷ cs) g (leave, leaves) h =
        perform_all-Holds cs _ leaves (bootstrap-Holds payload env bytes checked issued g leave h)
    perform_all-Holds (authorize auth env_id id r ∷ cs) g (leave, leaves) h =
        perform_all-Holds cs _ leaves (authorized-Holds auth env_id id r g leave h)
