-- ===== src/T3/Interleaving/Coverage/Steps.antt =====
-- internal/t3/gateway.go: each step of the gateway keeps the tokens of an environment among those that were
-- there and those that a bootstrap of it makes.
use devcontainer_manager.Base.Map
use devcontainer_manager.Base.Map.{Map}
use devcontainer_manager.T3.{BrowserToken, TokenStore, Gateway, IsFaithful}
use devcontainer_manager.T3.Pairing.{Readings, generate_pairing_code, cache_hit, after}
use devcontainer_manager.T3.Pairing.Authorization.{cache_hit_sound}
use devcontainer_manager.T3.Interleaving.{
  Label, silent, accepted, System, look, examine, load, fill_cache, purge, bootstrap_label, Step,
  generate, bootstrap, looks, loads, fills, purges,
}
use devcontainer_manager.T3.Interleaving.Coverage.Bootstrapping.{bootstrap-Covered}
use devcontainer_manager.T3.Interleaving.Coverage.{
  Tokens, Covers, IsCachedIn, StoredIn, IsCovered, With, IsCovered-add,
}
use devcontainer_manager.Base.{
  Bool-cases, Option-cases, All, All-append, Str, ◌==◌, eq_iff, Result, ok, err, ℕ, ◌≡◌, refl, sym,
  ap, ◌∙◌, subst, inl, inr, not, ◌||◌, Option, none, some, List, [], ◌∷◌, ◌++◌, arith,
}

-- The parts of a list round one element.
All-around {ℓ κ} :
    {A : Type ℓ} (P : A → Type κ) (front back : List A) (x : A)
    → All P (front ++ x ∷ back)
    → All P front × P x × All P back
All-around P [] back x (h, hs) = (tt, h, hs)
All-around P (y ∷ front) back x (h, hs) =
    let (a, b, c) = All-around P front back x hs in ((h, a), b, c)

module _ (S : TokenStore) (faithful : IsFaithful S) (key : Str → Str)
    (injective : (i j : Str) → key i ≡ key j → i ≡ j) (E : Str) where
  module _ (P : Tokens S key E) where
    look-Covered :
        (env_id token : Str) (now : ℕ) (s : System S)
        → IsCovered S key E P s
        → IsCovered S key E P (look S env_id (key env_id) token now s).1
    unfolding look
    look-Covered env_id token now s c = elim (Bool-cases (cache_hit S env_id token now s.gateway)) [
      | inl hit ↦ rw hit c
      | inr miss ↦ rw miss (elim (Option-cases s.gateway.token_store) [
        | inl e ↦ rw e c
        | inr (t, e) ↦
            rw e (record { cached = c.cached; in_flight = (refl, c.in_flight); stored = c.stored })
      ])
    ]

    examine-Covers :
        (env_id id token : Str) (r : Readings) (t : S.State)
        → id ≡ key env_id
        → StoredIn S key E P (some t)
        → (got : Result (Option BrowserToken)) → S.get t id ≡ got
        → All (Covers S key E P) (examine S env_id id token r got)
    unfolding examine
    examine-Covers env_id id token r t keyed c (err e) has = tt
    examine-Covers env_id id token r t keyed c (ok none) has = tt
    examine-Covers env_id id token r t keyed c (ok (some entry)) has =
        elim (Bool-cases (not (entry.token == token) || after r.stored entry.expires_at)) [
          | inl bad ↦ rw bad (elim (Bool-cases (after r.purged entry.expires_at)) [
            | inl late ↦ rw late (tt, tt)
            | inr early ↦ rw early tt
          ])
          | inr good ↦ rw good ((refl, own (ground (arith, eq_iff entry.token token))), tt)
        ]
      where
        own : entry.token ≡ token → env_id ≡ E → P token
        own here_too same =
            subst P here_too
              (c entry (subst (λ j. S.get t j ≡ ok (some entry)) (keyed ∙ ap key same) has))

    load-Covers :
        (env_id id token : Str) (r : Readings) (g : Gateway S)
        → id ≡ key env_id
        → StoredIn S key E P g.token_store
        → All (Covers S key E P) (load S env_id id token r g)
    unfolding load
    load-Covers env_id id token r g keyed c = elim (Option-cases g.token_store) [
      | inl e ↦ rw (e, load) tt
      | inr (t, e) ↦ rw (e, load) (examine-Covers env_id id token r t keyed (rw e at c) _ refl)
    ]

    purge-StoredIn :
        (id : Str) (g : Gateway S)
        → StoredIn S key E P g.token_store
        → StoredIn S key E P (purge S id g).token_store
    unfolding purge
    purge-StoredIn id g c = elim (Option-cases g.token_store) [
      | inl e ↦ rw (e, purge) tt
      | inr (t, e) ↦ rw (e, purge) (after_delete t (rw e at c))
    ]
      where
        after_delete :
            (t : S.State)
            → StoredIn S key E P (some t)
            → StoredIn S key E P (some (S.delete t id).0)
        after_delete t old e got = old e (faithful.get-delete_origin t id (key E) e got)

    purge-cached :
        (id : Str) (g : Gateway S)
        → All (IsCachedIn S key E P) g.browser_auth
        → All (IsCachedIn S key E P) (purge S id g).browser_auth
    unfolding purge
    purge-cached id g c = c

    -- Each step adds to the tokens of `E` at most the one that a bootstrap of `E` makes.
    pub Step-Covered :
        {s u : System S} {l : Label}
        → Step S key s l u
        → IsCovered S key E P s
        → IsCovered S key E (With S key E P l) u
    unfolding generate_pairing_code fill_cache
    Step-Covered {s} (generate env_id bytes now) c =
        IsCovered-add S key E P silent _
          (record { cached = c.cached; in_flight = c.in_flight; stored = c.stored })
    Step-Covered {s} (bootstrap payload env bytes checked made keyed) c =
        bootstrap-Covered S faithful key injective E P payload env bytes checked made s keyed c
    Step-Covered {s} (looks env_id token now) c =
        IsCovered-add S key E P (look S env_id (key env_id) token now s).0 _
          (look-Covered env_id token now s c)
    Step-Covered {s} (loads front back env_id id token r split) c =
        let (fs, keyed, bs) =
          All-around (Covers S key E P) front back _ (rw split at c.in_flight) in
        IsCovered-add S key E P silent _ (record {
          cached = c.cached;
          in_flight =
              All-append (Covers S key E P) (front ++ load S env_id id token r s.gateway) back
                (All-append (Covers S key E P) front _ fs
                  (load-Covers env_id id token r s.gateway keyed c.stored))
                bs;
          stored = c.stored;
        })
    Step-Covered {s} (fills front back env_id token entry split) c =
        let (fs, (same, own), bs) =
          All-around (Covers S key E P) front back _ (rw split at c.in_flight) in
        IsCovered-add S key E P (accepted env_id token) _ (record {
          cached =
              Map.insert-All (IsCachedIn S key E P) token entry s.gateway.browser_auth
                (λ e. own (sym same ∙ e)) c.cached;
          in_flight = All-append (Covers S key E P) front back fs bs;
          stored = c.stored;
        })
    Step-Covered {s} (purges front back id split) c =
        let (fs, _, bs) = All-around (Covers S key E P) front back _ (rw split at c.in_flight) in
        IsCovered-add S key E P silent _ (record {
          cached = purge-cached id s.gateway c.cached;
          in_flight = All-append (Covers S key E P) front back fs bs;
          stored = purge-StoredIn id s.gateway c.stored;
        })

    look-accepted :
        (env_id token t : Str) (now : ℕ) (s : System S)
        → IsCovered S key E P s
        → (look S env_id (key env_id) token now s).0 ≡ accepted E t
        → P t
    unfolding look
    look-accepted env_id token t now s c h =
        elim (Bool-cases (cache_hit S env_id token now s.gateway)) [
          | inr miss ↦ absurd (not_silent (rw miss at h))
          | inl hit ↦
              let shown : accepted env_id token ≡ accepted E t = rw hit at h in
              let (e, found, same, live) = cache_hit_sound S env_id token now s.gateway hit in
              let env_same : env_id ≡ E = cc in
              let token_same : token ≡ t = cc in
              subst P token_same (
                Map.lookup-All (IsCachedIn S key E P) token s.gateway.browser_auth e c.cached found
                  (same ∙ env_same))
        ]
      where
        not_silent : silent ≡ accepted E t → ⊥
        not_silent e = cc

    -- A token that a step accepts for `E` is one of those of `E`.
    pub Step-accepted :
        {s u : System S} {l : Label}
        → Step S key s l u
        → IsCovered S key E P s
        → (t : Str) → l ≡ accepted E t
        → P t
    unfolding bootstrap_label
    Step-accepted (generate env_id bytes now) c t h = cc
    Step-accepted {s} (bootstrap payload env bytes checked made keyed) c t h = absurd (ground arith)
    Step-accepted {s} (looks env_id token now) c t h = look-accepted env_id token t now s c h
    Step-accepted (loads front back env_id id token r split) c t h = cc
    Step-accepted (fills front back env_id token entry split) c t h =
        let (_, (_, own), _) =
          All-around (Covers S key E P) front back _ (rw split at c.in_flight) in
        let env_same : env_id ≡ E = cc in
        let token_same : token ≡ t = cc in subst P token_same (own env_same)
    Step-accepted (purges front back id split) c t h = cc
