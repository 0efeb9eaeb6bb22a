-- ===== src/Syncx/Controller/Reports.antt =====
-- internal/syncx/controller.go: the sessions that `Reconcile` returns, one for each sync entry.
use mathlib.Core.List.{append-nil, append_assoc}
use devcontainer_manager.Base.Map
use devcontainer_manager.Base.Map.{Map}
use devcontainer_manager.Config.{Config, SyncEntry, SyncDefaults}
use devcontainer_manager.Model.{Container, Session}
use devcontainer_manager.Syncx.Daemon.{Library, Daemon}
use devcontainer_manager.Syncx.Client.{Client, LiveSession, create}
use devcontainer_manager.Syncx.Naming.{Wanted, desired_session}
use devcontainer_manager.Syncx.Controller.{
  Machine, Progress, start, validate_endpoints, find_live, pause_stopped, report_create,
  resume_or_create, start_valid, start_running, serve, reconcile_entry, finish, reconcile,
}
use devcontainer_manager.Syncx.Controller.Visits.{wanted, serve_all, reconcile_containers-serve_all}
use devcontainer_manager.Base.{
  Bool-cases, Str, lit, first_non_empty, Result, ok, err, ◌≡◌, refl, sym, ◌∙◌, subst, ◌⊎◌, inl, inr,
  true, false, Option, none, some, List, [], ◌∷◌, ◌++◌, arith,
}

-- The session is the one of its entry, but for its id, its status and its error.
pub record IsOf (d s : Session) : Type 0 where
  pub name : s.name ≡ d.name
  pub container_id : s.container_id ≡ d.container_id
  pub rule : s.rule ≡ d.rule
  pub sync_index : s.sync_index ≡ d.sync_index
  pub mode : s.mode ≡ d.mode
  pub alpha : s.alpha ≡ d.alpha
  pub beta : s.beta ≡ d.beta
  pub labels : s.labels ≡ d.labels

-- A status with no error, and one with an error.
abbrev pub Fine : Str → Session → Type 0
Fine status s = (s.status ≡ status) × (s.error ≡ [])

abbrev pub Failed : Str → Str → Session → Type 0
Failed status e s = (s.status ≡ status) × (s.error ≡ e)

module _ (M : Machine) (L : Library) (D : Daemon L) where
  -- What is shown of a session that is to be created, from the result of the creation.
  abbrev pub Created : Result (Unit {0}) → Session → Type 0
  Created (ok _) s = Fine (lit "ready") s
  Created (err e) s = Failed (lit "create-error") e s

  -- What is shown of an entry whose endpoints are valid: the daemon cannot be reached, it has the session, or
  -- the session is created, by the client as it is when the entry's turn comes.
  abbrev pub Reached :
      Session → SyncEntry → SyncDefaults → Client → Option (Map LiveSession) → Session → Type 0
  Reached d sync defaults c none s =
      Failed (lit "mutagen-daemon-unavailable") (lit "unable to connect to Mutagen daemon") s
  Reached d sync defaults c (some live) s =
      ((existing : LiveSession) × (Map.lookup d.name live ≡ some existing)
        × Fine (first_non_empty (existing.status ∷ lit "ready" ∷ [])) s)
      ⊎ ((Map.lookup d.name live ≡ none) × Created (create L D d sync defaults c).1 s)

  pub record Reports (cfg : Config) (live : Option (Map LiveSession)) (w : Wanted) (c : Client)
      (s : Session) : Type 0 where
    pub entry : IsOf (desired_session M.sha1 w) s
    pub outcome :
        ((w.container.running ≡ false) × Fine (lit "paused") s)
        ⊎ ((w.container.running ≡ true)
            × (((e : Str) × (validate_endpoints M L D w.container.id w.sync ≡ err e)
                  × Failed (lit "configuration-error") e s)
                ⊎ ((validate_endpoints M L D w.container.id w.sync ≡ ok tt)
                    × Reached (desired_session M.sha1 w) w.sync cfg.sync.defaults c live s)))

  -- One session for each entry, in order, with the client as it is before each.
  abbrev pub AllReport :
      Config → Option (Map LiveSession) → List Wanted → Client → List Session → Type 0
  AllReport cfg live [] c [] = Unit
  AllReport cfg live [] c (s ∷ ss) = ⊥
  AllReport cfg live (w ∷ ws) c [] = ⊥
  AllReport cfg live (w ∷ ws) c (s ∷ ss) =
      Reports cfg live w c s × AllReport cfg live ws (serve M L D cfg live w c).0 ss

  abbrev Shown : Session → (Session → Type 0) → Session → Type 0
  Shown d P s = IsOf d s × P s

  changed :
      (d : Session) (id status error : Str)
      → IsOf d (record d { id = id; status = status; error = error })
  changed d id status error = record {
    name = refl;
    container_id = refl;
    rule = refl;
    sync_index = refl;
    mode = refl;
    alpha = refl;
    beta = refl;
    labels = refl;
  }

  paused-Shown :
      (live : Option (Map LiveSession)) (d : Session) (c : Client)
      → d.error ≡ []
      → Shown d (Fine (lit "paused")) (pause_stopped M L D live d c).1
  unfolding pause_stopped
  paused-Shown none d c clear = (changed d _ _ _, (refl, clear))
  paused-Shown (some live) d c clear = (changed d _ _ _, (refl, clear))

  Created-Shown :
      (d : Session) (p : Client × Result (Unit {0}))
      → d.error ≡ []
      → Shown d (Created p.1) (report_create M L D d p).1
  unfolding report_create
  Created-Shown d (c, ok _) clear = (changed d _ _ _, (refl, clear))
  Created-Shown d (c, err e) clear = (changed d _ _ _, (refl, refl))

  found-Shown :
      (d : Session) (sync : SyncEntry) (defaults : SyncDefaults) (live : Map LiveSession)
      (found : Option LiveSession) (c : Client)
      → Map.lookup d.name live ≡ found
      → d.error ≡ []
      → Shown d
          (Reached d sync defaults c (some live))
          (resume_or_create M L D d sync defaults found c).1
  unfolding resume_or_create
  found-Shown d sync defaults live (some existing) c e clear =
      (changed d _ _ _, inl (existing, e, (refl, clear)))
  found-Shown d sync defaults live none c e clear =
      let (same, outcome) = Created-Shown d _ clear in (same, inr (e, outcome))

  valid-Shown :
      (live : Option (Map LiveSession)) (d : Session) (sync : SyncEntry) (defaults : SyncDefaults)
      (c : Client)
      → d.error ≡ []
      → Shown d (Reached d sync defaults c live) (start_valid M L D live d sync defaults c).1
  unfolding start_valid
  valid-Shown none d sync defaults c clear = (changed d _ _ _, (refl, refl))
  valid-Shown (some live) d sync defaults c clear =
      found-Shown d sync defaults live (Map.lookup d.name live) c refl clear

  running-Shown :
      (live : Option (Map LiveSession)) (d : Session) (sync : SyncEntry) (defaults : SyncDefaults)
      (r : Result (Unit {0})) (c : Client)
      → d.error ≡ []
      → Shown d
          (λ s.
            ((e : Str) × (r ≡ err e) × Failed (lit "configuration-error") e s)
            ⊎ ((r ≡ ok tt) × Reached d sync defaults c live s))
          (start_running M L D live d sync defaults r c).1
  unfolding start_running
  running-Shown live d sync defaults (err e) c clear =
      (changed d _ _ _, inl (e, refl, (refl, refl)))
  running-Shown live d sync defaults (ok _) c clear =
      let (same, outcome) = valid-Shown live d sync defaults c clear in (same, inr (refl, outcome))

  module _ (cfg : Config) (live : Option (Map LiveSession)) where
    serve-Reports : (w : Wanted) (c : Client) → Reports cfg live w c (serve M L D cfg live w c).1
    unfolding serve desired_session
    serve-Reports w c = elim (Bool-cases w.container.running) [
      | inr off ↦
          let (same, fine) = paused-Shown live (desired_session M.sha1 w) c refl in
          simp off (record { entry = same; outcome = inl (off, fine) })
      | inl on ↦
          let (same, outcome) =
            running-Shown live (desired_session M.sha1 w) w.sync cfg.sync.defaults
              (validate_endpoints M L D w.container.id w.sync) c refl in
          simp on (record { entry = same; outcome = inr (on, outcome) })
    ]

    -- The list that the loop makes grows at its end.
    serve_all-sessions :
        (ws : List Wanted) (p : Progress)
        → (ss : List Session) × ((serve_all M L D cfg live ws p).sessions ≡ p.sessions ++ ss)
          × AllReport cfg live ws p.client ss
    unfolding serve_all reconcile_entry
    serve_all-sessions [] p = ([], sym (append-nil p.sessions), tt)
    serve_all-sessions (w ∷ ws) p =
        let s = (serve M L D cfg live w p.client).1 in
        let (ss, e, h) = serve_all-sessions ws (reconcile_entry M L D cfg live w p) in
        (s ∷ ss, e ∙ append_assoc p.sessions (s ∷ []) ss, (serve-Reports w p.client, h))

    finish-sessions : (p : Progress) → (finish M L D live p).1 ≡ p.sessions
    unfolding finish
    finish-sessions p = ground arith

    entries-AllReport :
        (ws : List Wanted) (c : Client)
        → AllReport cfg live ws c (finish M L D live (serve_all M L D cfg live ws (start c))).1
    entries-AllReport ws c =
        let (ss, e, h) = serve_all-sessions ws (start c) in
        subst (AllReport cfg live ws c)
          (sym (finish-sessions (serve_all M L D cfg live ws (start c)) ∙ e)) h

  -- A reconciliation with syncing enabled reports one session for each entry of the rule of each container,
  -- in this order, whatever fails. It is the session of the entry, and shows "paused" for a container
  -- that is stopped; else "configuration-error" with the error of the endpoints; else that the daemon
  -- cannot be reached; else the status of the session that the daemon lists under the name, or "ready"
  -- if that is empty; else "ready" if the creation of the session succeeds, which the client makes
  -- in the state in which the entries before leave it, and "create-error" with its error if it fails.
  pub reconcile-AllReport :
      (containers : List Container) (cfg : Config) (c : Client)
      → cfg.sync.enabled ≡ true
      → AllReport cfg
          (find_live M L D c).1
          (wanted containers)
          (find_live M L D c).0
          (reconcile M L D containers cfg c).1
  unfolding reconcile
  reconcile-AllReport containers cfg c enabled =
      let (c', live) = find_live M L D c in
      simp enabled (
        subst (λ p. AllReport cfg live (wanted containers) c' (finish M L D live p).1)
          (sym (reconcile_containers-serve_all M L D cfg live containers (start c')))
          (entries-AllReport cfg live (wanted containers) c'))
