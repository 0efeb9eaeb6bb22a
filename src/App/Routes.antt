-- ===== src/App/Routes.antt =====
-- internal/app/service.go: `handleEnvironmentAction`, and the closure by which `handleEnvProxy`
-- refreshes the token of a backend.
use mathlib.Core.Option.{get_or}
use devcontainer_manager.Base.Map
use devcontainer_manager.Base.Map.{Map}
use devcontainer_manager.Base.Json.{string, stamp}
use devcontainer_manager.Go.Strings.{trim_prefix, cut}
use devcontainer_manager.Model.{Container, Environment, zero_container}
use devcontainer_manager.T3.{TokenStore, Gateway}
use devcontainer_manager.T3.Pairing.{
  Reply, http_error, json, generate_pairing_code, accepts_code, pairing_lifetime,
}
use devcontainer_manager.T3.Backend.{World, Backend}
use devcontainer_manager.T3.Endpoints.{issue_backend_token}
use devcontainer_manager.T3.Backend.Retry.{requests, IsQuiet}
use devcontainer_manager.App.Lookup.{environment}
use devcontainer_manager.T3.Pairing.Codes.{generate-accepts_code}
use devcontainer_manager.T3.Random.{random_code}
use devcontainer_manager.Base.{
  if◌then◌else◌, Bool-cases, Str, lit, ◌==◌, eq_iff, Result, ok, err, ℕ, ◌+◌, ◌≤◌, ◌≡◌, refl, sym,
  ap, ◌∙◌, subst, ◌↔◌, ◌⊎◌, inl, inr, Bool, true, false, not, ◌||◌, Option, none, some, List, [],
  ◌∷◌, arith,
}

-- `http.NotFound`
abbrev pub not_found : Reply
not_found = http_error 404 (lit "404 page not found")

module _ (B : Backend) where
  -- The end of the closure: it writes the token to the container that the map holds now.
  unfoldable pub store_token :
      Container → World (Map Container) × Result Str → World (Map Container) × Result Str
  store_token c (w, err e) = (w, err e)
  store_token c (w, ok token) =
      let current = get_or (Map.lookup c.id w.shared) zero_container in
      (
        record w {
          shared =
              Map.insert c.id (record current { t3 = record current.t3 { backend_token = token } })
                w.shared;
        },
        ok token,
      )

  -- The closure `refresh`
  unfoldable pub refresh_token :
      Container → World (Map Container) → World (Map Container) × Result Str
  unfolding store_token
  refresh_token c w =
      store_token c (issue_backend_token (Map Container) B c.id c.workspace_folder w)

  store_token-requests :
      (c : Container) (w : World (Map Container)) (r : Result Str)
      → requests (store_token c (w, r)).0.trace ≡ requests w.trace
  unfolding store_token
  store_token-requests c w (err e) = refl
  store_token-requests c w (ok token) = refl

  pub refresh_token-IsQuiet : (c : Container) → IsQuiet (Map Container) B (some (refresh_token c))
  unfolding refresh_token issue_backend_token
  refresh_token-IsQuiet c w =
      let issued = issue_backend_token (Map Container) B c.id c.workspace_folder w in
      store_token-requests c issued.0 issued.1

  store_token-lookup :
      (c : Container) (w : World (Map Container)) (r : Result Str) (token : Str)
      → (store_token c (w, r)).1 ≡ ok token
      → (id : Str)
      → Map.lookup id (store_token c (w, r)).0.shared ≡ (
          let current = get_or (Map.lookup c.id w.shared) zero_container in
          if c.id == id
          then some (record current { t3 = record current.t3 { backend_token = token } })
          else Map.lookup id w.shared)
  unfolding store_token
  store_token-lookup c w (err e) token h id = cc
  store_token-lookup c w (ok t) token h id =
      let same : t ≡ token = cc in Map.lookup-insert c.id id _ w.shared ∙ rw same refl

  -- A refresh that succeeds writes its token to the container of this id and to no other. A container that has
  -- vanished by then becomes an entry that is empty but for the token.
  pub refresh_token-lookup :
      (c : Container) (w : World (Map Container)) (token : Str)
      → (refresh_token c w).1 ≡ ok token
      → (id : Str)
      → Map.lookup id (refresh_token c w).0.shared ≡ (
          let current = get_or (Map.lookup c.id w.shared) zero_container in
          if c.id == id
          then some (record current { t3 = record current.t3 { backend_token = token } })
          else Map.lookup id w.shared)
  unfolding refresh_token issue_backend_token
  refresh_token-lookup c w token h id = store_token-lookup c _ _ token h id

module _ (S : TokenStore) (sort : List Container → List Container) where
  -- An action for a known environment.
  unfoldable pub issue_code : Str → Str → ℕ → Gateway S → Option Environment → Gateway S × Reply
  issue_code env_id bytes now g none = (g, not_found)
  issue_code env_id bytes now g (some env) =
      let (g', code, expires) = generate_pairing_code S env_id bytes now g in
      (
        g',
        json 200 (
            (lit "environmentId", string env_id)
            ∷ (lit "pairingCode", string code)
            ∷ (lit "expiresAt", stamp expires)
            ∷ []),
      )

  unfoldable pub handle_environment_action :
      Str → Str → ℕ → Map Container → Gateway S → Gateway S × Reply
  unfolding issue_code
  handle_environment_action path bytes now containers g =
      let (env_id, action, found) = cut (trim_prefix path (lit "/api/environments/")) b'/' in
      if not found || not (action == lit "pairing-code")
      then (g, not_found)
      else issue_code env_id bytes now g (environment sort env_id containers)

  -- What follows "/api/environments/" in the path: the part before its first slash, the part after it, and
  -- whether there is one.
  abbrev pub action_parts : Str → Str × Str × Bool
  action_parts path = cut (trim_prefix path (lit "/api/environments/")) b'/'

  -- The path asks for a pairing code of a known environment.
  pub record IsAsked (path : Str) (containers : Map Container) (env_id : Str) : Type 0 where
    pub parts : action_parts path ≡ (env_id, lit "pairing-code", true)
    pub env : Environment
    pub known : environment sort env_id containers ≡ some env

  -- A code that was issued for this environment.
  pub record IsIssued (env_id bytes : Str) (now : ℕ) (g' : Gateway S) (reply : Reply) : Type 0 where
    pub shown :
        reply
        ≡ json 200 (
            (lit "environmentId", string env_id)
            ∷ (lit "pairingCode", string (random_code bytes))
            ∷ (lit "expiresAt", stamp (now + pairing_lifetime))
            ∷ [])
    pub accepted :
        (other : Str) (later : ℕ)
        → (accepts_code S g' (random_code bytes) other later ≡ true)
          ↔ ((env_id ≡ other) × (later ≤ now + pairing_lifetime))

  abbrev pub Issued : Str → Str → ℕ → Map Container → Gateway S → Gateway S × Reply → Type 0
  Issued path bytes now containers g acted =
      ((env_id : Str) × IsAsked path containers env_id × IsIssued env_id bytes now acted.0 acted.1)
      ⊎ (((env_id : Str) → IsAsked path containers env_id → ⊥)
          × (acted.0 ≡ g)
          × (acted.1 ≡ not_found))

  issue_code-Issued :
      (path env_id bytes : Str) (now : ℕ) (containers : Map Container) (g : Gateway S)
      → action_parts path ≡ (env_id, lit "pairing-code", true)
      → (env : Option Environment) → environment sort env_id containers ≡ env
      → Issued path bytes now containers g (issue_code env_id bytes now g env)
  unfolding issue_code generate_pairing_code
  issue_code-Issued path env_id bytes now containers g parts none unknown = inr (
    (λ other asked.
        let same : env_id ≡ other = ap (λ x. x.0) (sym parts ∙ asked.parts) in
        cc (sym unknown ∙ ap (λ i. environment sort i containers) same ∙ asked.known)),
    refl,
    refl,
  )
  issue_code-Issued path env_id bytes now containers g parts (some env) known = inl (
    env_id,
    record { parts = parts; env = env; known = known },
    record { shown = refl; accepted = generate-accepts_code S env_id bytes now g },
  )

  parts_agree :
      (path env_id action : Str) (found : Bool)
      → action_parts path ≡ (env_id, action, found)
      → (not found || not (action == lit "pairing-code")) ≡ false
      → action_parts path ≡ (env_id, lit "pairing-code", true)
  parts_agree path env_id action false e own = cc
  parts_agree path env_id action true e own =
      let same : action ≡ lit "pairing-code" =
        (eq_iff action (lit "pairing-code")).0 (ground arith) in
      subst (λ (a : Str). action_parts path ≡ (env_id, a, true)) same e

  -- An action is answered 200 exactly where its path is that of the pairing code of a known environment.
  -- The answer then shows this environment, a new code and the time five minutes later, and the gateway
  -- that the action leaves accepts the code for this environment up to that time, and for no other
  -- environment. Otherwise it is answered 404, and the gateway is as before.
  pub handle_environment_action-Issued :
      (path bytes : Str) (now : ℕ) (containers : Map Container) (g : Gateway S)
      → Issued path bytes now containers g (handle_environment_action path bytes now containers g)
  unfolding handle_environment_action
  handle_environment_action-Issued path bytes now containers g = from_parts (action_parts path) refl
    where
      from_parts :
          (p : Str × Str × Bool)
          → action_parts path ≡ p
          → Issued path bytes now containers g (
              if not p.2 || not (p.1 == lit "pairing-code")
              then (g, not_found)
              else issue_code p.0 bytes now g (environment sort p.0 containers))
      from_parts (env_id, action, found) e =
          elim (Bool-cases (not found || not (action == lit "pairing-code"))) [
            | inl other ↦ rw other (
                inr (
                  (λ id asked.
                      let same = sym e ∙ asked.parts in
                      let there_is : found ≡ true = ap (λ x. x.2) same in
                      let own : (action == lit "pairing-code") ≡ true =
                        (eq_iff action (lit "pairing-code")).1 (ap (λ x. x.1) same) in
                      cc (rw (there_is, own) at other)),
                  refl,
                  refl,
                ))
            | inr own ↦ rw own (
                issue_code-Issued path env_id bytes now containers g
                  (parts_agree path env_id action found e own) (environment sort env_id containers)
                  refl)
          ]
