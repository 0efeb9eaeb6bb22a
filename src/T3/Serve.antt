-- ===== src/T3/Serve.antt =====
-- internal/t3/gateway.go: `ServeEnv`, which routes the requests below "/env/<id>".
use devcontainer_manager.Base.Map.{Map}
use devcontainer_manager.Go.Strings.{trim_prefix}
use devcontainer_manager.Model.{T3Status, Environment}
use devcontainer_manager.T3.{TokenStore, Gateway}
use devcontainer_manager.T3.Titles.{public_path}
use devcontainer_manager.T3.Pairing.{
  Reply, http_error, Readings, authorized_with_store, handle_bootstrap,
}
use devcontainer_manager.T3.Backend.{World, Backend, Refresh}
use devcontainer_manager.T3.Proxy.{Web, Incoming, Answer, replied, proxy_http, proxy_websocket}
use devcontainer_manager.Base.{
  if◌then◌else◌, Bool-cases, Str, lit, is_empty, ◌==◌, eq_iff, first_non_empty, ℕ, ◌≡◌, refl, ◌⊎◌,
  inl, inr, Bool, true, false, ◌&&◌, Option, none, some, List, [], ◌∷◌, ◌++◌,
}

-- The readings of the clock and the random bytes that a request may use, and its decoded body.
pub record Draw : Type 0 where
  pub payload : Map Str
  pub bytes : Str
  pub checked : ℕ
  pub issued : ℕ
  pub readings : Readings

-- `r.Header.Get("Authorization")`
pub header_value : Option (List Str) → Str
header_value none = []
header_value (some []) = []
header_value (some (v ∷ _)) = v

abbrev pub unauthorized : Answer
unauthorized = replied (http_error 401 (lit "missing or invalid environment token"))

-- The path that is left below an environment.
unfoldable pub rest_of : Str → Str → Str
rest_of path env_id =
    let rest = trim_prefix path (lit "/env/" ++ env_id) in if is_empty rest then lit "/" else rest

unfoldable pub is_bootstrap : Str → Str → Bool
is_bootstrap method rest = rest == lit "/api/auth/bootstrap/bearer" && method == lit "POST"

module _ (A : Type 0) (B : Backend) (W : Web) (S : TokenStore) where
  -- A guarded handler: it runs only if the request is authorized.
  unfoldable pub guarded :
      (World A → World A × Answer) → World A → Gateway S × Bool → Gateway S × World A × Answer
  guarded handler w (g, false) = (g, w, unauthorized)
  guarded handler w (g, true) = let (w', answer) = handler w in (g, w', answer)

  abbrev unguarded :
      (World A → World A × Answer) → World A → Gateway S → Gateway S × World A × Answer
  unguarded handler w g = let (w', answer) = handler w in (g, w', answer)

  abbrev bootstrapped : World A → Gateway S × Reply → Gateway S × World A × Answer
  bootstrapped w (g, reply) = (g, w, replied reply)

  unfoldable pub serve_env :
      Incoming
      → Str
      → Draw
      → Environment
      → T3Status
      → Refresh A
      → Gateway S
      → World A
      → Gateway S × World A × Answer
  unfolding guarded
  serve_env r auth d env status refresh g w =
      let rest = rest_of r.path env.id in
      let store_id = first_non_empty (env.container_id ∷ env.id ∷ []) in
      let checked = authorized_with_store S auth env.id store_id d.readings g in
      if is_bootstrap r.method rest
      then bootstrapped w (handle_bootstrap S d.payload env d.bytes d.checked d.issued g)
      else if r.is_websocket
      then guarded (proxy_websocket A B W r rest status refresh) w checked
      else if public_path rest
      then unguarded (proxy_http A B W r rest status refresh) w g
      else guarded (proxy_http A B W r rest status refresh) w checked

  guarded-cases :
      (handler : World A → World A × Answer) (w : World A) (x : Gateway S × Bool)
      → (x.1 ≡ true) ⊎ (((guarded handler w x).1 ≡ w) × ((guarded handler w x).2 ≡ unauthorized))
  unfolding guarded
  guarded-cases handler w (g, false) = inr (refl, refl)
  guarded-cases handler w (g, true) = inl refl

  -- A request reaches the backend of an environment only if it is authorized, or if it asks for the
  -- public path and is no WebSocket upgrade. Otherwise it is a bootstrap, which sends nothing to
  -- the backend, or it is refused with 401 and sends nothing either.
  pub serve_env-guarded :
      (r : Incoming) (auth : Str) (d : Draw) (env : Environment) (status : T3Status)
      (refresh : Refresh A) (g : Gateway S) (w : World A)
      → ((authorized_with_store S auth env.id
            (first_non_empty (env.container_id ∷ env.id ∷ []))
            d.readings
            g).1
          ≡ true)
        ⊎ ((r.is_websocket ≡ false) × (rest_of r.path env.id ≡ lit "/.well-known/t3/environment"))
        ⊎ (((serve_env r auth d env status refresh g w).1 ≡ w)
            × ((is_bootstrap r.method (rest_of r.path env.id) ≡ true)
                ⊎ ((serve_env r auth d env status refresh g w).2 ≡ unauthorized)))
  unfolding serve_env public_path
  serve_env-guarded r auth d env status refresh g w =
      let rest = rest_of r.path env.id in
      let checked =
        authorized_with_store S auth env.id (first_non_empty (env.container_id ∷ env.id ∷ []))
          d.readings g in
      elim (Bool-cases (is_bootstrap r.method rest)) [
        | inl e ↦ inr (inr (rw e refl, inl e))
        | inr e ↦ elim (Bool-cases r.is_websocket) [
          | inl ws ↦ elim (guarded-cases (proxy_websocket A B W r rest status refresh) w checked) [
            | inl allowed ↦ inl allowed
            | inr (same, refused) ↦ inr (inr (simp (e, ws) same, inr (simp (e, ws) refused)))
          ]
          | inr http ↦ elim (Bool-cases (public_path rest)) [
            | inl public ↦ inr (inl (http, (eq_iff _ _).0 public))
            | inr private ↦
                elim (guarded-cases (proxy_http A B W r rest status refresh) w checked) [
                  | inl allowed ↦ inl allowed
                  | inr (same, refused) ↦
                      inr
                        (inr (simp (e, http, private) same, inr (simp (e, http, private) refused)))
                ]
          ]
        ]
      ]
