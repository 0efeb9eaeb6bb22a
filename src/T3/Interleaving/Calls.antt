-- ===== src/T3/Interleaving/Calls.antt =====
-- internal/t3/gateway.go: what whole calls of the gateway, one after the other, do to the tokens of one
-- environment.
use devcontainer_manager.Base.{
  Option-cases, All, In, here, there, Str, ℕ, ◌≡◌, sym, subst, inl, inr, true, some, List, [], ◌∷◌,
}
use devcontainer_manager.T3.{TokenStore, Gateway, IsFaithful}
use devcontainer_manager.T3.Pairing.{
  Readings, bearer_token, generate_pairing_code, authorize_token, authorized_with_store,
}
use devcontainer_manager.T3.Interleaving.{Label, issued, accepted, System, Run, begin, next}
use devcontainer_manager.T3.Interleaving.Coverage.{IsCovered, IsCovered-mono}
use devcontainer_manager.T3.Interleaving.Coverage.Steps.{Step-accepted}
use devcontainer_manager.T3.Interleaving.Revocation.{WithAll, Run-Covered}
use devcontainer_manager.T3.Interleaving.Sequential.{IsQuiet, authorized_with_store-IsRun}

none-made : (ls : List Label) (E t : Str) → All IsQuiet ls → In (issued E t) ls → ⊥
none-made [] E t h i = elim i [ ]
none-made (l ∷ ls) E t (h, hs) (here e) = subst IsQuiet (sym e) h
none-made (l ∷ ls) E t (h, hs) (there i) = none-made ls E t hs i

module _ (S : TokenStore) (faithful : IsFaithful S) (key : Str → Str)
    (injective : (i j : Str) → key i ≡ key j → i ≡ j) (E : Str) (P : Str → Type 0) where
  -- The gateway with no request in flight.
  abbrev pub idle : Gateway S → System S
  idle g = record { gateway = g; flights = [] }

  -- Every token of `E` is one of `P`.
  abbrev pub Covers : Gateway S → Type 0
  Covers g = IsCovered S key E P (idle g)

  Run-accepted :
      (t : Str) {s u : System S} {ls : List Label}
      → Run S key s ls u
      → IsCovered S key E P s
      → In (accepted E t) ls
      → WithAll S faithful key injective E P ls t
  Run-accepted t begin c i = elim i [ ]
  Run-accepted t (next run step) c (here e) =
      elim (Step-accepted S faithful key injective E _ step
        (Run-Covered S faithful key injective E P run c) t (sym e)) [
          | inl old ↦ inl old
          | inr made ↦ inr (there made)
        ]
  Run-accepted t (next run step) c (there i) = elim (Run-accepted t run c i) [
    | inl old ↦ inl old
    | inr made ↦ inr (there made)
  ]

  -- A call of `authorizedWithStore` keeps the tokens of `E`, and one for `E` accepts no other.
  pub authorized_with_store-Covers :
      (auth env_id : Str) (r : Readings) (g : Gateway S)
      → Covers g
      → Covers (authorized_with_store S auth env_id (key env_id) r g).0
        × ((authorized_with_store S auth env_id (key env_id) r g).1 ≡ true
            → env_id ≡ E
            → (t : Str) × (bearer_token auth ≡ some t) × P t)
  unfolding authorized_with_store authorize_token
  authorized_with_store-Covers auth env_id r g c = elim (Option-cases (bearer_token auth)) [
    | inl e ↦ rw e (c, λ h _. cc)
    | inr (token, e) ↦
        let run = authorized_with_store-IsRun S key env_id token r [] auth g e in
        let kept = none-made run.labels E in
        (
          IsCovered-mono S key E
              (λ t h. elim h [ inl old ↦ old | inr made ↦ absurd (kept t run.makes_none made) ]) _
              (Run-Covered S faithful key injective E P run.run c),
          λ shown same. (
            token,
            e,
            elim (Run-accepted token run.run c
                (subst (λ i. In (accepted i token) run.labels) same (run.shown.0 shown))) [
                  | inl old ↦ old
                  | inr made ↦ absurd (kept token run.makes_none made)
                ],
          ),
        )
  ]

  -- A pairing code leaves the tokens as they are.
  pub generate-Covers :
      (env_id bytes : Str) (now : ℕ) (g : Gateway S)
      → Covers g
      → Covers (generate_pairing_code S env_id bytes now g).0
  unfolding generate_pairing_code
  generate-Covers env_id bytes now g c = record {
    cached = c.cached;
    in_flight = c.in_flight;
    stored = c.stored;
  }
