-- ===== src/T3/Interleaving/Revocation.antt =====
-- internal/t3/gateway.go: whose tokens are accepted while the calls of the gateway interleave.
use devcontainer_manager.Base.Map
use devcontainer_manager.Base.Map.{Map}
use devcontainer_manager.Model.{Environment}
use devcontainer_manager.T3.{BrowserToken, TokenStore, IsLawful, IsFaithful}
use devcontainer_manager.T3.Random.{random_token}
use devcontainer_manager.T3.Pairing.{handle_bootstrap, delete_browser_tokens}
use devcontainer_manager.T3.Pairing.Bootstrap.{
  store_id, IsGranted, Granted, handle_bootstrap-Granted,
}
use devcontainer_manager.T3.Pairing.Authorization.{stored_entry}
use devcontainer_manager.T3.Interleaving.{
  Flight, missed, loaded, expired, Label, issued, accepted, System, Step, Run, begin, next, start,
}
use devcontainer_manager.T3.Interleaving.Coverage.{
  Covers, IsCachedIn, StoredIn, IsCovered, IsCovered-mono,
}
use devcontainer_manager.T3.Interleaving.Coverage.Steps.{Step-Covered, Step-accepted}
use devcontainer_manager.Base.{
  All, In, here, there, Str, ◌==◌, eq_iff, ok, ℕ, ◌≡◌, refl, sym, ap, subst, ◌⊎◌, inl, inr, false,
  Option, none, some, List, [], ◌∷◌, arith,
}

module _ (S : TokenStore) (faithful : IsFaithful S) (key : Str → Str)
    (injective : (i j : Str) → key i ≡ key j → i ≡ j) where
  -- The tokens after a run: those before, and those that it made for the environment.
  abbrev pub WithAll : (E : Str) → (Str → Type 0) → List Label → Str → Type 0
  WithAll E P ls t = P t ⊎ In (issued E t) ls

  pub Run-Covered :
      (E : Str) (P : Str → Type 0) {s u : System S} {ls : List Label}
      → Run S key s ls u
      → IsCovered S key E P s
      → IsCovered S key E (WithAll E P ls) u
  Run-Covered E P begin c = IsCovered-mono S key E (λ t h. inl h) _ c
  Run-Covered E P (next {ls = ls} {l = l} run step) c =
      IsCovered-mono S key E (λ t h. merge t h) _
        (Step-Covered S faithful key injective E (WithAll E P ls) step (Run-Covered E P run c))
    where
      merge : (t : Str) → WithAll E P ls t ⊎ (l ≡ issued E t) → WithAll E P (l ∷ ls) t
      merge t (inl (inl old)) = inl old
      merge t (inl (inr before)) = inr (there before)
      merge t (inr made) = inr (here (sym made))

  -- The token that the store holds for an environment.
  abbrev pub HeldBy : Option S.State → Str → Str → Type 0
  HeldBy none E t = ⊥
  HeldBy (some store) E t = (e : BrowserToken) × (S.get store (key E) ≡ ok (some e)) × (e.token ≡ t)

  pub start-Covered :
      (E : Str) (store : Option S.State) → IsCovered S key E (HeldBy store E) (start S store)
  start-Covered E none = record { cached = tt; in_flight = tt; stored = tt }
  start-Covered E (some store) = record {
    cached = tt;
    in_flight = tt;
    stored = λ e got. (e, got, refl);
  }

  -- The case that each environment id has one container all along: there is one key of the store for
  -- each environment, which every bootstrap and every request of the whole run uses, and no two
  -- environments have the same key. Then, however the calls of a new gateway interleave, a token that is
  -- accepted for an environment was made before by a bootstrap of this environment that accepted its
  -- code, or the token store held it under the environment's key when the gateway was made. The store
  -- is one that makes nothing up.
  pub accepted-issued :
      (store : Option S.State) (E t : Str) {s u : System S} {ls : List Label} {l : Label}
      → Run S key (start S store) ls s
      → Step S key s l u
      → l ≡ accepted E t
      → In (issued E t) ls ⊎ HeldBy store E t
  accepted-issued store E t run step h =
      elim (Step-accepted S faithful key injective E _ step
        (Run-Covered E (HeldBy store E) run (start-Covered E store)) t h) [
          | inl held ↦ inr held
          | inr made ↦ inl made
        ]

  module _ (lawful : IsLawful S) (payload : Map Str) (env : Environment) (bytes : Str)
      (checked made : ℕ) (s : System S) where
    -- The state after the bootstrap, which holds the mutex to its end.
    abbrev pub bootstrapped : System S
    bootstrapped = record s {
      gateway = (handle_bootstrap S payload env bytes checked made s.gateway).0;
    }

    -- A request in flight has read this token of the environment from the store.
    abbrev pub InFlight : Str → Type 0
    InFlight t = (e : BrowserToken) × In (loaded env.id t e) s.flights

    abbrev Left : Str → Type 0
    Left t = (t ≡ random_token bytes) ⊎ InFlight t

    flights-Left :
        (fs : List Flight)
        → ((f : Flight) → In f fs → In f s.flights)
        → All (Covers S key env.id (λ _. Unit {0})) fs
        → All (Covers S key env.id Left) fs
    flights-Left [] sub c = tt
    flights-Left (missed env_id id token ∷ fs) sub (c, cs) =
        (c, flights-Left fs (λ f i. sub f (there i)) cs)
    flights-Left (loaded env_id token entry ∷ fs) sub (c, cs) = (
      (
        c.0,
        λ same.
            inr (entry, subst (λ i. In (loaded i token entry) s.flights) same (sub _ (here refl))),
      ),
      flights-Left fs (λ f i. sub f (there i)) cs,
    )
    flights-Left (expired id ∷ fs) sub (c, cs) = (tt, flights-Left fs (λ f i. sub f (there i)) cs)

    cleared :
        (m : Map BrowserToken)
        → All (λ (e : Str × BrowserToken). (e.1.env_id == env.id) ≡ false) m
        → All (IsCachedIn S key env.id Left) m
    cleared [] h = tt
    cleared ((t, e) ∷ m) (h, hs) =
        (λ same. absurd (ground (arith, eq_iff e.env_id env.id)), cleared m hs)

    module _ (granted : Granted S payload env bytes checked made s.gateway)
        (keyed : store_id env ≡ key env.id) where
      store-Left :
          (o : Option S.State) → bootstrapped.gateway.token_store ≡ o → StoredIn S key env.id Left o
      store-Left none has = tt
      store-Left (some t) has = λ e got.
          let there_now =
            stored_entry S lawful payload env bytes checked made s.gateway granted t has in
          inl (cc (there_now, got, ap (S.get t) keyed))

      bootstrapped-Covered :
          IsCovered S key env.id (λ _. Unit {0}) s → IsCovered S key env.id Left bootstrapped
      unfolding delete_browser_tokens
      bootstrapped-Covered c = record {
        cached = rw granted.browser_auth (
            Map.insert-All (IsCachedIn S key env.id Left) _ _ _ (λ _. inl refl)
              (cleared _ (Map.delete_where-All_kept _ s.gateway.browser_auth)));
        in_flight = flights-Left s.flights (λ f i. i) c.in_flight;
        stored = store-Left _ refl;
      }

    anything : (store : Option S.State) → IsCovered S key env.id (λ _. Unit {0}) (start S store)
    anything store = IsCovered-mono S key env.id (λ _ _. tt) _ (start-Covered env.id store)

    -- The case that each environment id has one container all along: there is one key of the store for
    -- each environment, which every bootstrap and every request of the whole run uses, before and after
    -- the bootstrap at hand, and no two environments have the same key. Then, after a bootstrap that
    -- granted a token, however the calls interleave before and after it, a token that is accepted for
    -- its environment is the new one, or was made by a later bootstrap of the environment, or had been
    -- read from the store for the environment by a request in flight at the time of the bootstrap. The
    -- store keeps what is saved and makes nothing up.
    pub bootstrapped-revokes :
        (store : Option S.State) (t : Str) {u v : System S} {early late : List Label} {l : Label}
        → Run S key (start S store) early s
        → store_id env ≡ key env.id
        → IsGranted (handle_bootstrap S payload env bytes checked made s.gateway).1
        → Run S key bootstrapped late u
        → Step S key u l v
        → l ≡ accepted env.id t
        → (t ≡ random_token bytes) ⊎ In (issued env.id t) late ⊎ InFlight t
    bootstrapped-revokes store t {late = late} run keyed h later step shown =
        let granted = handle_bootstrap-Granted S payload env bytes checked made s.gateway h in
        let earlier =
          IsCovered-mono S key env.id (λ _ _. tt) s (Run-Covered env.id _ run (anything store)) in
        sort (
          Step-accepted S faithful key injective env.id _ step
            (Run-Covered env.id Left later (bootstrapped-Covered granted keyed earlier)) t shown)
      where
        sort :
            Left t ⊎ In (issued env.id t) late
            → (t ≡ random_token bytes) ⊎ In (issued env.id t) late ⊎ InFlight t
        sort (inl (inl new)) = inl new
        sort (inl (inr flying)) = inr (inr flying)
        sort (inr made_later) = inr (inl made_later)
