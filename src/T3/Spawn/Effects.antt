-- ===== src/T3/Spawn/Effects.antt =====
-- internal/t3/gateway.go: the checks of `ServeSpawnStage`.
use devcontainer_manager.Model.{Container}
use devcontainer_manager.T3.{TokenStore, Gateway}
use devcontainer_manager.T3.Titles.{
  SpawnStageRequest, IsValidRequest, validate_spawn_request, validate_spawn_request_iff,
}
use devcontainer_manager.T3.Pairing.{Reply, http_error, Readings, authorized_with_store}
use devcontainer_manager.T3.Backend.{World, Backend, Refresh}
use devcontainer_manager.T3.Spawn.{
  read_request, spawn_scoped, spawn_checked, spawn_decoded, spawn_authorized, serve_spawn_stage,
}
use devcontainer_manager.T3.Stage.{Codec, Randoms}
use devcontainer_manager.Base.{
  Bool-cases, Str, lit, ◌==◌, eq_iff, first_non_empty, Result, ok, err, ℕ, ◌≡◌, refl, ◌⊎◌, inl, inr,
  Bool, true, false, [], ◌∷◌,
}

-- The reply is `http.Error`.
abbrev pub IsError : Reply → Type 0
IsError reply = (code : ℕ) × (text : Str) × (reply ≡ http_error code text)

module _ (A : Type 0) (B : Backend) (J : Codec) where
  -- A body that passes all checks.
  pub record IsAccepted (body : Result Str) : Type 0 where
    pub req : SpawnStageRequest
    pub scope : Str
    pub decoded : read_request J body ≡ ok req
    pub valid : IsValidRequest req
    pub marshalled : J.marshal_scope req.scope ≡ ok scope

  module _ (refresh : Refresh A) (random : Randoms) (now : Str) (container : Container)
      (w : World A) where
    abbrev pub Gated : Type 0 → World A × Reply → Type 0
    Gated P (w', reply) = P ⊎ ((w' ≡ w) × IsError reply)

    scoped-Gated :
        (body : Result Str) (req : SpawnStageRequest)
        → read_request J body ≡ ok req
        → IsValidRequest req
        → (r : Result Str) → J.marshal_scope req.scope ≡ r
        → Gated (IsAccepted body) (spawn_scoped A B J refresh req random now container w r)
    unfolding spawn_scoped
    scoped-Gated body req decoded valid (err e) h = inr (refl, (_, _, refl))
    scoped-Gated body req decoded valid (ok scope) h =
        inl (record { req = req; scope = scope; decoded = decoded; valid = valid; marshalled = h })

    checked-Gated :
        (body : Result Str) (req : SpawnStageRequest)
        → read_request J body ≡ ok req
        → (r : Result (Unit {0})) → validate_spawn_request req ≡ r
        → Gated (IsAccepted body) (spawn_checked A B J refresh req random now container w r)
    unfolding spawn_checked
    checked-Gated body req decoded (err e) h = inr (refl, (_, _, refl))
    checked-Gated body req decoded (ok _) h =
        scoped-Gated body req decoded ((validate_spawn_request_iff req).0 h)
          (J.marshal_scope req.scope) refl

    decoded-Gated :
        (body : Result Str) (r : Result SpawnStageRequest)
        → read_request J body ≡ r
        → Gated (IsAccepted body) (spawn_decoded A B J refresh random now container w r)
    unfolding spawn_decoded
    decoded-Gated body (err e) h = inr (refl, (_, _, refl))
    decoded-Gated body (ok req) h = checked-Gated body req h (validate_spawn_request req) refl

    module _ (S : TokenStore) where
      abbrev Served : Type 0 → Gateway S × World A × Reply → Type 0
      Served P served = P ⊎ ((served.1 ≡ w) × IsError served.2)

      authorized-Gated :
          (body : Result Str) (g : Gateway S) (allowed : Bool)
          → Served
              ((allowed ≡ true) × IsAccepted body)
              (spawn_authorized A B J S body refresh random now container w (g, allowed))
      unfolding spawn_authorized
      authorized-Gated body g false = inr (refl, (_, _, refl))
      authorized-Gated body g true = elim (decoded-Gated body (read_request J body) refl) [
        | inl accepted ↦ inl (refl, accepted)
        | inr refused ↦ inr refused
      ]

      -- A stage is spawned only for a POST with a token of the environment whose body is a valid request.
      -- Every other request gets an error, and nothing is done in the container or sent to its backend.
      pub serve_spawn_stage-Gated :
          (method auth : Str) (body : Result Str) (readings : Readings) (g : Gateway S)
          → ((method ≡ lit "POST")
              × ((authorized_with_store S auth container.t3.environment_id
                    (first_non_empty (container.id ∷ container.t3.environment_id ∷ []))
                    readings
                    g).1
                  ≡ true)
              × IsAccepted body)
            ⊎ (((serve_spawn_stage A B J S method auth body readings refresh random now container g
                    w).1
                  ≡ w)
                × IsError
                    (serve_spawn_stage A B J S method auth body readings refresh random now
                      container g w).2)
      unfolding serve_spawn_stage
      serve_spawn_stage-Gated method auth body readings g =
          elim (Bool-cases (method == lit "POST")) [
            | inl e ↦
                rw e
                  (elim (authorized-Gated body
                    (authorized_with_store S auth container.t3.environment_id
                      (first_non_empty (container.id ∷ container.t3.environment_id ∷ [])) readings
                      g).0
                    (authorized_with_store S auth container.t3.environment_id
                      (first_non_empty (container.id ∷ container.t3.environment_id ∷ [])) readings
                      g).1) [
                        | inl (allowed, accepted) ↦
                            inl ((eq_iff method (lit "POST")).0 e, allowed, accepted)
                        | inr refused ↦ inr refused
                      ])
            | inr e ↦ rw e (inr (refl, (_, _, refl)))
          ]
