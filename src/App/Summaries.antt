-- ===== src/App/Summaries.antt =====
-- internal/app/service.go: `applySyncSummaries`.
use devcontainer_manager.Config.{Rule}
use devcontainer_manager.Model.{Container, Session, SyncSummary}
use devcontainer_manager.Base.{
  nat_eq, if◌then◌else◌, Bool-cases, length, All, Str, lit, is_empty, ◌==◌, eq_iff, first_non_empty,
  suc, ◌+◌, ◌≡◌, refl, sym, ◌∙◌, subst, ◌≢◌, ◌↔◌, ◌⊎◌, inl, inr, Bool, true, false, not, ◌&&◌, ◌||◌,
  Option, none, some, List, [], ◌∷◌, map, arith,
}

-- One round of the inner loop.
unfoldable pub add_session : Str → SyncSummary → Session → SyncSummary
add_session container_id s session =
    if not (session.container_id == container_id)
    then s
    else if not (is_empty session.error)
    then record s {
      sessions = s.sessions + 1;
      status = lit "degraded";
      error = if is_empty s.error then session.error else s.error;
    }
    else if not (is_empty session.status) && not (session.status == lit "ready")
    then record s { sessions = s.sessions + 1; status = session.status }
    else record s { sessions = s.sessions + 1 }

unfoldable pub add_sessions : Str → SyncSummary → List Session → SyncSummary
unfolding add_session
add_sessions container_id s [] = s
add_sessions container_id s (session ∷ sessions) =
    add_sessions container_id (add_session container_id s session) sessions

unfoldable pub has_syncs : Option Rule → Bool
has_syncs none = false
has_syncs (some rule) = elim rule.syncs [ [] ↦ false | _ ∷ _ ↦ true ]

abbrev pub idle_if_none : SyncSummary → SyncSummary
idle_if_none s = if nat_eq s.sessions 0 then record s { status = lit "idle" } else s

abbrev pub fresh_summary : SyncSummary
fresh_summary = record { enabled = true; status = lit "ready"; sessions = 0; error = [] }

-- The summary of one container.
unfoldable pub summary_of : List Session → Bool → Container → SyncSummary
unfolding add_sessions has_syncs
summary_of sessions enabled c =
    if not enabled || not (has_syncs c.rule)
    then record { enabled = false; status = lit "disabled"; sessions = 0; error = [] }
    else idle_if_none (add_sessions c.id fresh_summary sessions)

unfoldable pub apply_sync_summaries : List Container → List Session → Bool → List Container
unfolding summary_of
apply_sync_summaries [] sessions enabled = []
apply_sync_summaries (c ∷ cs) sessions enabled =
    record c { sync = summary_of sessions enabled c } ∷ apply_sync_summaries cs sessions enabled

-- The sessions of a container, and their errors.
unfoldable pub sessions_of : Str → List Session → List Session
sessions_of container_id [] = []
sessions_of container_id (session ∷ sessions) =
    let rest = sessions_of container_id sessions in
    if session.container_id == container_id then session ∷ rest else rest

abbrev pub errors_of : List Session → List Str
errors_of sessions = map (λ (s : Session). s.error) sessions

-- A session that is in order.
abbrev pub IsHealthy : Session → Type 0
IsHealthy s = (s.error ≡ []) × ((s.status ≡ []) ⊎ (s.status ≡ lit "ready"))

degraded-ready : lit "degraded" ≢ lit "ready"
unfolding lit
degraded-ready h = cc

module _ (container_id : Str) where
  add_session-ready :
      (s : SyncSummary) (session : Session)
      → ((add_session container_id s session).status ≡ lit "ready")
        ↔ ((s.status ≡ lit "ready") × (session.container_id ≡ container_id → IsHealthy session))
  unfolding add_session
  add_session-ready s session = (
    λ h. ground (
      arith,
      eq_iff session.container_id container_id,
      eq_iff session.status (lit "ready"),
      degraded-ready,
    ),
    λ h. ground (
      arith,
      eq_iff session.container_id container_id,
      eq_iff session.status (lit "ready"),
      degraded-ready,
    ),
  )

  add_session-other :
      (s : SyncSummary) (session : Session)
      → (session.container_id == container_id) ≡ false
      → add_session container_id s session ≡ s
  unfolding add_session
  add_session-other s session other = rw other refl

  add_session-sessions :
      (s : SyncSummary) (session : Session)
      → (add_session container_id s session).sessions
        ≡ s.sessions + (if session.container_id == container_id then 1 else 0)
  unfolding add_session
  add_session-sessions s session = ground arith

  add_session-error :
      (s : SyncSummary) (session : Session)
      → (add_session container_id s session).error ≡ (
          if session.container_id == container_id
          then first_non_empty (s.error ∷ session.error ∷ [])
          else s.error)
  unfolding add_session first_non_empty
  add_session-error s session = ground arith

  -- The fold over all sessions, in terms of those of the container.
  pub record IsFold (sessions : List Session) (s s' : SyncSummary) : Type 0 where
    pub count : s'.sessions ≡ s.sessions + length (sessions_of container_id sessions)
    pub error : s'.error ≡ first_non_empty (s.error ∷ errors_of (sessions_of container_id sessions))
    pub ready :
        (s'.status ≡ lit "ready")
        ↔ ((s.status ≡ lit "ready") × All IsHealthy (sessions_of container_id sessions))

  first_non_empty-twice :
      (a b : Str) (rest : List Str)
      → first_non_empty (first_non_empty (a ∷ b ∷ []) ∷ rest) ≡ first_non_empty (a ∷ b ∷ rest)
  unfolding first_non_empty
  first_non_empty-twice [] [] rest = refl
  first_non_empty-twice [] (c ∷ b) rest = refl
  first_non_empty-twice (c ∷ a) b rest = refl

  first_non_empty-nil : (a : Str) → first_non_empty (a ∷ []) ≡ a
  unfolding first_non_empty
  first_non_empty-nil [] = refl
  first_non_empty-nil (c ∷ a) = refl

  IsFold-step :
      (session : Session) (sessions : List Session) (s s' : SyncSummary)
      → IsFold sessions (add_session container_id s session) s'
      → IsFold (session ∷ sessions) s s'
  unfolding sessions_of
  IsFold-step session sessions s s' h = elim (Bool-cases (session.container_id == container_id)) [
    | inl own ↦ record {
      count = h.count ∙ simp (add_session-sessions s session, own) (omega arith);
      error =
          h.error
          ∙ simp (add_session-error s session, own)
              (first_non_empty-twice s.error session.error
                (errors_of (sessions_of container_id sessions)));
      ready =
          let healthy = (eq_iff session.container_id container_id).0 own in
          let step = add_session-ready s session in
          (
            λ r.
                let (both, rest) = h.ready.0 r in
                let (ready, own_healthy) = step.0 both in
                rw own (ready, (own_healthy healthy, rest)),
            λ r.
                let (ready, all) : (s.status ≡ lit "ready")
                    × All IsHealthy (session ∷ sessions_of container_id sessions) =
                  rw own at r in
                let (own_healthy, rest) = all in h.ready.1 (step.1 (ready, λ _. own_healthy), rest),
          );
    }
    | inr other ↦
        let same : add_session container_id s session ≡ s = add_session-other s session other in
        let again : IsFold sessions s s' = subst (λ t. IsFold sessions t s') same h in
        record {
          count = rw other again.count;
          error = rw other again.error;
          ready = rw other again.ready;
        }
  ]

  add_sessions-IsFold :
      (sessions : List Session) (s : SyncSummary)
      → IsFold sessions s (add_sessions container_id s sessions)
  unfolding add_sessions sessions_of
  add_sessions-IsFold [] s = record {
    count = omega arith;
    error = sym (first_non_empty-nil s.error);
    ready = (λ h. (h, tt), λ h. h.0);
  }
  add_sessions-IsFold (session ∷ sessions) s =
      IsFold-step session sessions s _
        (add_sessions-IsFold sessions (add_session container_id s session))

-- The summary of a container that has syncs.
pub record IsSummary (own : List Session) (s : SyncSummary) : Type 0 where
  pub count : s.sessions ≡ length own
  pub error : s.error ≡ first_non_empty (errors_of own)
  pub ready : (s.status ≡ lit "ready") ↔ ((own ≢ []) × All IsHealthy own)

idle-ready : lit "idle" ≢ lit "ready"
unfolding lit
idle-ready h = cc

first_non_empty-skip : (rest : List Str) → first_non_empty ([] ∷ rest) ≡ first_non_empty rest
unfolding first_non_empty
first_non_empty-skip rest = refl

idle-IsSummary :
    (container_id : Str) (sessions : List Session) (s : SyncSummary)
    → IsFold container_id sessions fresh_summary s
    → (own : List Session) → sessions_of container_id sessions ≡ own
    → IsSummary own (idle_if_none s)
idle-IsSummary container_id sessions s h [] e =
    let zero : s.sessions ≡ 0 = h.count ∙ rw e refl in
    record {
      count = simp zero refl;
      error = simp zero (h.error ∙ rw e (first_non_empty-skip []));
      ready = simp zero (λ r. absurd (idle-ready r), λ both. absurd (both.0 refl));
    }
idle-IsSummary container_id sessions s h (x ∷ own) e =
    let some_left : nat_eq s.sessions 0 ≡ false =
      let count : s.sessions ≡ suc (length own) = h.count ∙ rw e (omega arith) in
      ground (arith, count) in
    record {
      count = simp some_left (h.count ∙ rw e (omega arith));
      error = simp some_left (h.error ∙ rw e (first_non_empty-skip (errors_of (x ∷ own))));
      ready = simp some_left (
        λ r. (λ none_left. cc, subst (λ l. All IsHealthy l) e (h.ready.0 r).1),
        λ both. h.ready.1 (refl, subst (λ l. All IsHealthy l) (sym e) both.1),
      );
    }

-- The summary of a container with syncs counts its sessions, shows the first error among them, and
-- is "ready" exactly when there are sessions and all of them are in order.
pub summary_of-IsSummary :
    (sessions : List Session) (c : Container)
    → has_syncs c.rule ≡ true
    → IsSummary (sessions_of c.id sessions) (summary_of sessions true c)
unfolding summary_of
summary_of-IsSummary sessions c syncs = simp syncs (
    idle-IsSummary c.id sessions (add_sessions c.id fresh_summary sessions)
      (add_sessions-IsFold c.id sessions fresh_summary) (sessions_of c.id sessions) refl)
