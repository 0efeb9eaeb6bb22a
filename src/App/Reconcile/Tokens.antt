-- ===== src/App/Reconcile/Tokens.antt =====
-- internal/app/service.go: what `reconcile` keeps of a container that stays.
use devcontainer_manager.Base.Map.{Map}
use devcontainer_manager.Base.Map
use devcontainer_manager.Config.{Config}
use devcontainer_manager.Model.{Container}
use devcontainer_manager.T3.Backend.{World, Backend}
use devcontainer_manager.T3.Reconcile.{
  reconcile_container, asked, enabled_container, reconcile_container-probed, probed, ensure_token,
  t3_enabled, issued,
}
use devcontainer_manager.App.Reconcile.{
  carry_token, apply_sync_summaries, Outside, by_id, after_listing, reconcile_listed,
  public_base_url, reconcile, probe_all, Service, Connections,
}
use devcontainer_manager.App.Summaries.{apply_sync_summaries}
use devcontainer_manager.App.{Service, Session}
use devcontainer_manager.Dockerx.{Connections}
use devcontainer_manager.Base.{
  if◌then◌else◌, Bool-cases, All, Str, is_empty, ◌==◌, eq_iff, Result, ok, err, ℕ, ◌≡◌, refl, sym,
  ap, ◌∙◌, subst, ◌⊎◌, inl, inr, Bool, false, ◌&&◌, Option, none, some, List, [], ◌∷◌,
}

-- The same container with the same token of its backend.
abbrev IsKept : Container → Container → Type 0
IsKept c c' = (c'.id ≡ c.id) × (c'.t3.backend_token ≡ c.t3.backend_token)

module _ (A : Type 0) (B : Backend) (cfg : Config) (public_base : Str) where
  ensure_token-IsKept :
      (c : Container) (w : World A)
      → is_empty c.t3.backend_token ≡ false
      → IsKept c (ensure_token A B cfg c w).1
  unfolding ensure_token
  ensure_token-IsKept c w h = elim (Bool-cases cfg.t3.auto_issue_backend_token) [
    | inl e ↦ simp (e, h) (refl, refl)
    | inr e ↦ simp e (refl, refl)
  ]

  probed-IsKept :
      (c : Container)
      → is_empty c.t3.backend_token ≡ false
      → (w : World A) (r : Result Str) → IsKept c (probed A B cfg public_base c (w, r)).1
  unfolding probed
  probed-IsKept c h w (err e) = (refl, refl)
  probed-IsKept c h w (ok id) = ensure_token-IsKept _ w h

  reconcile_container-IsKept :
      (now : ℕ) (c : Container) (w : World A)
      → is_empty c.t3.backend_token ≡ false
      → IsKept c (reconcile_container A B cfg public_base now c w).1
  unfolding reconcile_container
  reconcile_container-IsKept now c w h = elim (Bool-cases (t3_enabled cfg c.rule)) [
    | inr e ↦ simp e (refl, refl)
    | inl enabled ↦ elim (Bool-cases c.running) [
      | inr e ↦ simp (enabled, e) (refl, refl)
      | inl running ↦ elim (Bool-cases (is_empty c.container_ip)) [
        | inl e ↦ simp (enabled, running, e) (refl, refl)
        | inr ip ↦
            subst (λ p. IsKept c p.1)
              (sym (reconcile_container-probed A B cfg public_base now c w enabled running ip))
              (probed-IsKept (asked cfg now (enabled_container A B cfg public_base now c w)) h _ _)
      ]
    ]
  ]

  issued-id : (c : Container) (w : World A) (r : Result Str) → (issued A B c (w, r)).1.id ≡ c.id
  unfolding issued
  issued-id c w (err e) = refl
  issued-id c w (ok token) = refl

  ensure_token-id : (c : Container) (w : World A) → (ensure_token A B cfg c w).1.id ≡ c.id
  unfolding ensure_token
  ensure_token-id c w =
      elim (Bool-cases (cfg.t3.auto_issue_backend_token && is_empty c.t3.backend_token)) [
        | inl e ↦ rw e (issued-id c _ _)
        | inr e ↦ rw e refl
      ]

  probed-id :
      (c : Container) (w : World A) (r : Result Str)
      → (probed A B cfg public_base c (w, r)).1.id ≡ c.id
  unfolding probed
  probed-id c w (err e) = refl
  probed-id c w (ok id) = ensure_token-id _ w

  reconcile_container-id :
      (now : ℕ) (c : Container) (w : World A)
      → (reconcile_container A B cfg public_base now c w).1.id ≡ c.id
  unfolding reconcile_container
  reconcile_container-id now c w = elim (Bool-cases (t3_enabled cfg c.rule)) [
    | inr e ↦ simp e refl
    | inl enabled ↦ elim (Bool-cases c.running) [
      | inr e ↦ simp (enabled, e) refl
      | inl running ↦ elim (Bool-cases (is_empty c.container_ip)) [
        | inl e ↦ simp (enabled, running, e) refl
        | inr ip ↦
            subst (λ p. p.1.id ≡ c.id)
              (sym (reconcile_container-probed A B cfg public_base now c w enabled running ip))
              (probed-id (asked cfg now (enabled_container A B cfg public_base now c w)) _ _)
      ]
    ]
  ]

-- The token that a container has after the listing: that of the container before, if there is one.
module _ (previous : Map Container) where
  -- A container with the token that its predecessor has.
  abbrev Carries : Container → Type 0
  Carries c =
      (old : Container)
      → Map.lookup c.id previous ≡ some old
      → is_empty old.t3.backend_token ≡ false
      → c.t3.backend_token ≡ old.t3.backend_token

  carried :
      (c c' : Container) (o : Option Container)
      → Map.lookup c.id previous ≡ o
      → (is_empty (carry_token o c).t3.backend_token ≡ false → IsKept (carry_token o c) c')
      → c'.id ≡ c.id
      → Carries c'
  unfolding carry_token
  carried c c' none e kept same old found set =
      absurd (none_some (sym e ∙ (ap (λ i. Map.lookup i previous) (sym same) ∙ found)))
    where
      none_some : ◌≡◌ {A = Option Container} none (some old) → ⊥
      none_some h = cc
  carried c c' (some o) e kept same old found set =
      let same_old : ◌≡◌ {A = Option Container} (some o) (some old) =
        sym e ∙ (ap (λ i. Map.lookup i previous) (sym same) ∙ found) in
      let eq : o ≡ old = cc in
      (kept (subst (λ (x : Container). is_empty x.t3.backend_token ≡ false) (sym eq) set)).1
      ∙ ap (λ (x : Container). x.t3.backend_token) eq

  carry_token-id : (o : Option Container) (c : Container) → (carry_token o c).id ≡ c.id
  unfolding carry_token
  carry_token-id none c = refl
  carry_token-id (some old) c = refl

  module _ (O : Outside) (cfg : Config) where
    abbrev base_url : Str
    base_url = public_base_url cfg.server.listen

    probe_all-Carries :
        (cs : List Container) (w : World (Map Container))
        → All Carries (probe_all O cfg previous cs w).1
    unfolding probe_all
    probe_all-Carries [] w = tt
    probe_all-Carries (c ∷ cs) w =
        let old = Map.lookup c.id previous in
        let next =
          reconcile_container (Map Container) O.backend cfg base_url (O.probed c.id)
            (carry_token old c) w in
        (
          carried c next.1 old refl
              (reconcile_container-IsKept (Map Container) O.backend cfg base_url (O.probed c.id)
                (carry_token old c) w)
              (reconcile_container-id (Map Container) O.backend cfg base_url (O.probed c.id)
                  (carry_token old c) w
                ∙ carry_token-id old c),
          probe_all-Carries cs next.0,
        )

  summaries-Carries :
      (cs : List Container) (sessions : List Session) (enabled : Bool)
      → All Carries cs
      → All Carries (apply_sync_summaries cs sessions enabled)
  unfolding apply_sync_summaries
  summaries-Carries [] sessions enabled h = tt
  summaries-Carries (c ∷ cs) sessions enabled (h, hs) =
      (h, summaries-Carries cs sessions enabled hs)

-- What is found in the map that the last loop builds is a container of the list, under its id.
by_id-All :
    (P : Container → Type 0) (cs : List Container) (m : Map Container)
    → All P cs
    → (id : Str) (c : Container) → Map.lookup id (by_id cs m) ≡ some c
    → (P c × (c.id ≡ id)) ⊎ (Map.lookup id m ≡ some c)
unfolding by_id
by_id-All P [] m h id c e = inr e
by_id-All P (d ∷ cs) m (h, hs) id c e = elim (by_id-All P cs (Map.insert d.id d m) hs id c e) [
  | inl found ↦ inl found
  | inr inserted ↦
      let at : (if d.id == id then some d else Map.lookup id m) ≡ some c =
        sym (Map.lookup-insert d.id id d m) ∙ inserted in
      elim (Bool-cases (d.id == id)) [
        | inl own ↦
            let same : ◌≡◌ {A = Option Container} (some d) (some c) = simp own at at in
            let eq : d ≡ c = cc in
            inl (subst P eq h, ap (λ (x : Container). x.id) (sym eq) ∙ (eq_iff d.id id).0 own)
        | inr other ↦ inr (simp other at at)
      ]
]

module _ (O : Outside) where
  listed_tokens :
      (s : Service) (cs : Connections) (listed : List Container) (id : Str) (c : Container)
      → Map.lookup id (reconcile_listed O s cs listed).containers ≡ some c
      → Carries s.containers c × (c.id ≡ id)
  unfolding reconcile_listed
  listed_tokens s cs listed id c h =
      elim (by_id-All (Carries s.containers) _ []
        (summaries-Carries s.containers _ _ _ (
          probe_all-Carries s.containers O s.cfg listed
            (record { trace = s.trace; shared = s.containers })))
        id c h) [
          | inl found ↦ found
          | inr in_empty ↦ absurd (nothing (sym (Map.lookup-nil id) ∙ in_empty))
        ]
    where
      nothing : ◌≡◌ {A = Option Container} none (some c) → ⊥
      nothing e = cc

  after_listing-tokens :
      (s s' : Service) (r : Result (Option (Connections × List Container)))
      → after_listing O s r ≡ some (s', ok tt)
      → (id : Str) (c : Container) → Map.lookup id s'.containers ≡ some c
      → Carries s.containers c × (c.id ≡ id)
  unfolding after_listing
  after_listing-tokens s s' (err e) h id c found = cc
  after_listing-tokens s s' (ok none) h id c found = cc
  after_listing-tokens s s' (ok (some (cs, listed))) h id c found =
      let same : reconcile_listed O s cs listed ≡ s' = cc in
      listed_tokens s cs listed id c
        (subst (λ (x : Service). Map.lookup id x.containers ≡ some c) (sym same) found)

  -- After a reconciliation that succeeds, a container that was there before, with a token of its backend,
  -- has the same token still, and it is kept under its own id.
  pub reconcile-tokens :
      (s s' : Service)
      → reconcile O s ≡ some (s', ok tt)
      → (id : Str) (c old : Container) → Map.lookup id s'.containers ≡ some c
      → Map.lookup id s.containers ≡ some old
      → is_empty old.t3.backend_token ≡ false
      → (c.id ≡ id) × (c.t3.backend_token ≡ old.t3.backend_token)
  unfolding reconcile
  reconcile-tokens s s' h id c old found before set =
      let (carries, own) = after_listing-tokens s s' _ h id c found in
      (own, carries old (rw own before) set)
