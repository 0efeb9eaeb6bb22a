-- ===== src/T3/Interleaving/Sequential.antt =====
-- internal/t3/gateway.go: `authorizedWithStore` without an interruption is one of the runs.
use devcontainer_manager.T3.{BrowserToken, TokenStore, Gateway}
use devcontainer_manager.T3.Pairing.{
  Readings, bearer_token, cache_hit, check_stored, check_store, authorize_token,
  authorized_with_store, after,
}
use devcontainer_manager.T3.Interleaving.{
  Flight, missed, loaded, expired, Label, silent, accepted, issued, System, look, examine, load,
  fill_cache, purge, looks, loads, fills, purges, Run, begin, next,
}
use devcontainer_manager.Base.{
  Bool-cases, Option-cases, All, In, here, there, Str, ◌==◌, Result, ok, err, ◌≡◌, refl, subst, ◌↔◌,
  inl, inr, Bool, true, false, not, ◌||◌, Option, none, some, List, [], ◌∷◌, ◌++◌, arith,
}

-- A step that is no bootstrap makes no token.
abbrev pub IsQuiet : Label → Type 0
IsQuiet silent = Unit
IsQuiet (accepted env_id token) = Unit
IsQuiet (issued env_id token) = ⊥

module _ (S : TokenStore) (key : Str → Str) (env_id token : Str) (r : Readings)
    (fs : List Flight) where
  abbrev id : Str
  id = key env_id

  abbrev at : Gateway S → System S
  at g = record { gateway = g; flights = fs }

  -- The labels of a run that does what a call of `authorizedWithStore` does, and shows that it
  -- accepts the token exactly if the call returns true.
  pub record IsRun (g : Gateway S) (p : Gateway S × Bool) : Type 0 where
    pub labels : List Label
    pub run : Run S key (at g) labels (at p.0)
    pub shown : (p.1 ≡ true) ↔ In (accepted env_id token) labels
    pub makes_none : All IsQuiet labels

  not_silent : In (accepted env_id token) [] → ⊥
  not_silent i = elim i [ ]

  quiet :
      {ls : List Label}
      → (In (accepted env_id token) ls → ⊥)
      → In (accepted env_id token) (silent ∷ ls)
      → ⊥
  quiet h (here e) = cc
  quiet h (there i) = h i

  refused :
      {ls : List Label}
      → (In (accepted env_id token) ls → ⊥)
      → (false ≡ true) ↔ In (accepted env_id token) ls
  refused h = ((λ e. absurd (cc e)), (λ i. absurd (h i)))

  hit-IsRun : (g : Gateway S) → cache_hit S env_id token r.cached g ≡ true → IsRun g (g, true)
  unfolding look
  hit-IsRun g hit = record {
    labels = accepted env_id token ∷ [];
    makes_none = (tt, tt);
    run =
        subst (λ (p : Label × System S). Run S key (at g) (p.0 ∷ []) p.1) (ground arith)
          (next begin (looks env_id token r.cached));
    shown = ((λ _. here refl), (λ _. refl));
  }

  looked :
      (g : Gateway S) (t : S.State)
      → cache_hit S env_id token r.cached g ≡ false
      → g.token_store ≡ some t
      → Run S key
          (at g)
          (silent ∷ [])
          (record { gateway = g; flights = missed env_id id token ∷ fs })
  unfolding look
  looked g t miss has =
      subst (λ (p : Label × System S). Run S key (at g) (p.0 ∷ []) p.1) (ground arith)
        (next begin (looks env_id token r.cached))

  none-IsRun :
      (g : Gateway S)
      → cache_hit S env_id token r.cached g ≡ false
      → g.token_store ≡ none
      → IsRun g (g, false)
  unfolding look
  none-IsRun g miss has = record {
    labels = silent ∷ [];
    makes_none = (tt, tt);
    run =
        subst (λ (p : Label × System S). Run S key (at g) (p.0 ∷ []) p.1) (ground arith)
          (next begin (looks env_id token r.cached));
    shown = refused (quiet not_silent);
  }

  -- The run up to the `Get`, and what is left then.
  got :
      (g : Gateway S) (t : S.State) (left : List Flight)
      → cache_hit S env_id token r.cached g ≡ false
      → g.token_store ≡ some t
      → examine S env_id id token r (S.get t id) ≡ left
      → Run S key (at g) (silent ∷ silent ∷ []) (record { gateway = g; flights = left ++ fs })
  unfolding load
  got g t left miss has same =
      subst
        (λ (l : List Flight).
          Run S key (at g) (silent ∷ silent ∷ []) (record { gateway = g; flights = l ++ fs }))
        (rw (has, load) same) (next (looked g t miss has) (loads [] fs env_id id token r refl))

  bad-IsRun :
      (g : Gateway S) (t : S.State) (entry : BrowserToken)
      → cache_hit S env_id token r.cached g ≡ false
      → g.token_store ≡ some t
      → S.get t id ≡ ok (some entry)
      → (not (entry.token == token) || after r.stored entry.expires_at) ≡ true
      → IsRun g (check_stored S env_id id token r t (ok (some entry)) g)
  unfolding check_stored examine purge
  bad-IsRun g t entry miss has e bad = elim (Bool-cases (after r.purged entry.expires_at)) [
    | inr early ↦
        rw (bad, early)
          (record {
            labels = silent ∷ silent ∷ [];
            makes_none = (tt, (tt, tt));
            run = got g t [] miss has (rw e (rw (bad, early) refl));
            shown = refused (quiet (quiet not_silent));
          })
    | inl late ↦
        rw (bad, late)
          (record {
            labels = silent ∷ silent ∷ silent ∷ [];
            makes_none = (tt, (tt, (tt, tt)));
            run =
                subst (λ (h : Gateway S). Run S key (at g) (silent ∷ silent ∷ silent ∷ []) (at h))
                  (ground arith)
                  (next (got g t (expired id ∷ []) miss has (rw e (rw (bad, late) refl)))
                    (purges [] fs id refl));
            shown = refused (quiet (quiet (quiet not_silent)));
          })
  ]

  good-IsRun :
      (g : Gateway S) (t : S.State) (entry : BrowserToken)
      → cache_hit S env_id token r.cached g ≡ false
      → g.token_store ≡ some t
      → S.get t id ≡ ok (some entry)
      → (not (entry.token == token) || after r.stored entry.expires_at) ≡ false
      → IsRun g (check_stored S env_id id token r t (ok (some entry)) g)
  unfolding check_stored examine fill_cache
  good-IsRun g t entry miss has e good = rw good (record {
    labels = accepted env_id token ∷ silent ∷ silent ∷ [];
    makes_none = (tt, (tt, (tt, tt)));
    run =
        next
          (got g t (loaded env_id token (record entry { env_id = env_id }) ∷ []) miss has
            (rw e (rw good refl)))
          (fills [] fs env_id token _ refl);
    shown = ((λ _. here refl), (λ _. refl));
  })

  stored-IsRun :
      (g : Gateway S) (t : S.State) (result : Result (Option BrowserToken))
      → cache_hit S env_id token r.cached g ≡ false
      → g.token_store ≡ some t
      → S.get t id ≡ result
      → IsRun g (check_stored S env_id id token r t result g)
  unfolding check_stored examine
  stored-IsRun g t (err m) miss has e = record {
    labels = silent ∷ silent ∷ [];
    makes_none = (tt, (tt, tt));
    run = got g t [] miss has (rw e refl);
    shown = refused (quiet (quiet not_silent));
  }
  stored-IsRun g t (ok none) miss has e = record {
    labels = silent ∷ silent ∷ [];
    makes_none = (tt, (tt, tt));
    run = got g t [] miss has (rw e refl);
    shown = refused (quiet (quiet not_silent));
  }
  stored-IsRun g t (ok (some entry)) miss has e =
      elim (Bool-cases (not (entry.token == token) || after r.stored entry.expires_at)) [
        | inl bad ↦ bad-IsRun g t entry miss has e bad
        | inr good ↦ good-IsRun g t entry miss has e good
      ]

  store-IsRun :
      (g : Gateway S)
      → cache_hit S env_id token r.cached g ≡ false
      → IsRun g (check_store S env_id id token r g)
  unfolding check_store
  store-IsRun g miss = elim (Option-cases g.token_store) [
    | inl has ↦ subst (IsRun g) (ground arith) (none-IsRun g miss has)
    | inr (t, has) ↦ subst (IsRun g) (ground arith) (stored-IsRun g t (S.get t id) miss has refl)
  ]

  token-IsRun : (g : Gateway S) → IsRun g (authorize_token S env_id id r (some token) g)
  unfolding authorize_token
  token-IsRun g = elim (Bool-cases (cache_hit S env_id token r.cached g)) [
    | inl hit ↦ rw hit (hit-IsRun g hit)
    | inr miss ↦ rw miss (store-IsRun g miss)
  ]

  -- A call of `authorizedWithStore` that nothing interrupts, with a bearer token in its header, is a run
  -- of the interleaved gateway, which leaves the same state and the same other requests in flight,
  -- and accepts the token exactly if the call returns true.
  pub authorized_with_store-IsRun :
      (auth : Str) (g : Gateway S)
      → bearer_token auth ≡ some token
      → IsRun g (authorized_with_store S auth env_id id r g)
  unfolding authorized_with_store
  authorized_with_store-IsRun auth g e = rw (e, authorized_with_store) (token-IsRun g)
