-- ===== src/T3/Interleaving/Coverage.antt =====
-- internal/t3/gateway.go: where the tokens of one environment can be, in the cache, in the store and in the
-- requests in flight, and how each step of the gateway changes that.
pub mod Bootstrapping
pub mod Steps
use devcontainer_manager.Base.Map
use devcontainer_manager.Base.Map.{Map}
use devcontainer_manager.T3.{BrowserToken, TokenStore}
use devcontainer_manager.T3.Interleaving.{Label, issued, Flight, missed, loaded, expired, System}
use devcontainer_manager.Base.{
  ltb, leb, nat_eq, if◌then◌else◌, ltb→lt, leb→le, nat_eq_iff, Bool-cases, Option-cases, length,
  take, drop, length-append, length-take-le, All, In, here, there, All-append, Str, lit, is_empty,
  ◌==◌, eq_iff, eq_refl, eq-false_of_ne, first_non_empty, Result, ok, err, ◌>>=◌, ◌>>◌, >>=-eq-ok,
  ℕ, zero, suc, ◌+◌, ◌-◌, ◌*◌, ◌/◌, ◌%◌, ◌≤◌, ◌<◌, String, ◌≡◌, refl, sym, ap, ◌∙◌, subst, ◌≢◌, ◌↔◌,
  ◌⊎◌, inl, inr, Bool, true, false, not, ◌&&◌, ◌||◌, Option, none, some, List, [], ◌∷◌, ◌++◌, map,
  reverse, arith,
}

module _ (S : TokenStore) (key : Str → Str) (E : Str) where
  abbrev pub Tokens : Type 1
  Tokens = Str → Type 0

  -- What is known of a request in flight: it asks for the key of its environment, and if that is
  -- `E`, the token that it carries is one of `P`.
  abbrev pub Covers : Tokens → Flight → Type 0
  Covers P (missed env_id id token) = id ≡ key env_id
  Covers P (loaded env_id token entry) = (entry.env_id ≡ env_id) × (env_id ≡ E → P token)
  Covers P (expired id) = Unit

  abbrev pub IsCachedIn : Tokens → Str × BrowserToken → Type 0
  IsCachedIn P (token, entry) = entry.env_id ≡ E → P token

  abbrev pub StoredIn : Tokens → Option S.State → Type 0
  StoredIn P none = Unit
  StoredIn P (some t) = (e : BrowserToken) → S.get t (key E) ≡ ok (some e) → P e.token

  -- Every token of `E` is one of `P`.
  pub record IsCovered (P : Tokens) (s : System S) : Type 0 where
    pub cached : All (IsCachedIn P) s.gateway.browser_auth
    pub in_flight : All (Covers P) s.flights
    pub stored : StoredIn P s.gateway.token_store

  abbrev pub Within : Tokens → Tokens → Type 0
  Within P Q = (t : Str) → P t → Q t

  Covers-mono : {P Q : Tokens} → Within P Q → (f : Flight) → Covers P f → Covers Q f
  Covers-mono h (missed env_id id token) c = c
  Covers-mono h (loaded env_id token entry) c = (c.0, λ e. h token (c.1 e))
  Covers-mono h (expired id) c = tt

  All-Covers-mono :
      {P Q : Tokens} → Within P Q → (fs : List Flight) → All (Covers P) fs → All (Covers Q) fs
  All-Covers-mono h [] c = tt
  All-Covers-mono h (f ∷ fs) (c, cs) = (Covers-mono h f c, All-Covers-mono h fs cs)

  StoredIn-mono : {P Q : Tokens} → Within P Q → (o : Option S.State) → StoredIn P o → StoredIn Q o
  StoredIn-mono h none c = tt
  StoredIn-mono h (some t) c = λ e got. h e.token (c e got)

  All-IsCachedIn-mono :
      {P Q : Tokens}
      → Within P Q
      → (m : Map BrowserToken) → All (IsCachedIn P) m
      → All (IsCachedIn Q) m
  All-IsCachedIn-mono h [] c = tt
  All-IsCachedIn-mono h ((t, e) ∷ m) (c, cs) = (λ same. h t (c same), All-IsCachedIn-mono h m cs)

  pub IsCovered-mono : {P Q : Tokens} → Within P Q → (s : System S) → IsCovered P s → IsCovered Q s
  IsCovered-mono h s c = record {
    cached = All-IsCachedIn-mono h s.gateway.browser_auth c.cached;
    in_flight = All-Covers-mono h s.flights c.in_flight;
    stored = StoredIn-mono h s.gateway.token_store c.stored;
  }

  -- The tokens after a step: those before, and the one that it made for `E`.
  abbrev pub With : Tokens → Label → Tokens
  With P l t = P t ⊎ (l ≡ issued E t)

  pub IsCovered-add :
      (P : Tokens) (l : Label) (s : System S) → IsCovered P s → IsCovered (With P l) s
  IsCovered-add P l s c = IsCovered-mono (λ t h. inl h) s c
