-- ===== src/App/Loops/Contents.antt =====
-- internal/app/service.go: what holds of the service while its loops and handlers interleave.
pub mod Environments
use devcontainer_manager.Base.Map
use devcontainer_manager.Base.Map.{Map}
use devcontainer_manager.Config.{Config}
use devcontainer_manager.Model.{Container, zero_container}
use devcontainer_manager.Dockerx.{Connections}
use devcontainer_manager.T3.Backend.{World, Backend}
use devcontainer_manager.T3.Endpoints.{issue_backend_token}
use devcontainer_manager.App.{Service, new_service}
use devcontainer_manager.App.Reconcile.{
  Outside, by_id, reconcile_listed, after_listing, probe_all, reconcile,
}
use devcontainer_manager.App.Routes.{store_token, refresh_token}
use devcontainer_manager.App.Loops.{
  finish, on_refresh, Patterns, after_list, on_received, on_file_event, on_ticked, Owner, Received,
  on_loaded, System, list_containers, LoadError, Label, Step, Run, event, closed, failed, run,
  started_with, receives, ticks, lists, finishes, watches, fires, cancels, stops, refreshes, begin,
  next,
}
use devcontainer_manager.Base.{
  All, Str, is_empty, Result, ok, err, ℕ, ◌≡◌, refl, sym, ap, subst, ◌⊎◌, inl, inr, Bool, true,
  Option, none, some, List, [], ◌∷◌, arith,
}
use mathlib.Core.Option.{get_or}
use devcontainer_manager.App.Summaries.{apply_sync_summaries}
use devcontainer_manager.Syncx.Controller
use devcontainer_manager.Config.Defaults.{IsComplete}
use devcontainer_manager.Config.Validation.{LoadError, load, IsValidRule, load-IsValid}
use devcontainer_manager.Config.Matching.{Patterns}

-- A container stands under its own id, or it is an entry that shows no environment.
abbrev pub IsPlaced : Str × Container → Type 0
IsPlaced (k, c) = (c.id ≡ k) ⊎ is_empty c.t3.environment_id ≡ true

by_id-IsPlaced :
    (cs : List Container) (m : Map Container) → All IsPlaced m → All IsPlaced (by_id cs m)
unfolding by_id
by_id-IsPlaced [] m h = h
by_id-IsPlaced (c ∷ cs) m h =
    by_id-IsPlaced cs (Map.insert c.id c m) (Map.insert-All IsPlaced c.id c m (inl refl) h)

module _ (B : Backend) (c : Container) where
  refreshed-IsPlaced :
      (token : Str) (m : Map Container) (old : Option Container)
      → Map.lookup c.id m ≡ old
      → All IsPlaced m
      → IsPlaced (
        c.id,
        (let current = get_or old zero_container in
            record current { t3 = record current.t3 { backend_token = token } }),
      )
  refreshed-IsPlaced token m none e h = inr refl
  refreshed-IsPlaced token m (some old) e h = elim (Map.lookup-All IsPlaced c.id m old h e) [
    | inl own ↦ inl own
    | inr blank ↦ inr blank
  ]

  store_token-IsPlaced :
      (w : World (Map Container)) (r : Result Str)
      → All IsPlaced w.shared
      → All IsPlaced (store_token B c (w, r)).0.shared
  unfolding store_token
  store_token-IsPlaced w (err e) h = h
  store_token-IsPlaced w (ok token) h =
      Map.insert-All IsPlaced c.id _ w.shared
        (refreshed-IsPlaced token w.shared (Map.lookup c.id w.shared) refl h) h

  on_refresh-IsPlaced :
      (s : Service) → All IsPlaced s.containers → All IsPlaced (on_refresh B c s).containers
  unfolding on_refresh refresh_token issue_backend_token
  on_refresh-IsPlaced s h = store_token-IsPlaced _ _ h

  on_refresh-cfg : (s : Service) → (on_refresh B c s).cfg ≡ s.cfg
  unfolding on_refresh
  on_refresh-cfg s = refl

reconcile_listed-IsPlaced :
    (O : Outside) (s : Service) (cs : Connections) (listed : List Container)
    → All IsPlaced (reconcile_listed O s cs listed).containers
unfolding reconcile_listed
reconcile_listed-IsPlaced O s cs listed =
    let (w, found) =
      probe_all O s.cfg s.containers listed (record { trace = s.trace; shared = s.containers }) in
    let made = Controller.reconcile O.machine O.library O.mutagen found s.cfg s.client in
    by_id-IsPlaced (apply_sync_summaries found made.1 s.cfg.sync.enabled) [] tt

finish-IsPlaced :
    (O : Outside) (cfg : Config) (previous : Map Container) (cs : Connections)
    (listed : List Container) (s : Service)
    → All IsPlaced (finish O cfg previous cs listed s).containers
unfolding finish
finish-IsPlaced O cfg previous cs listed s = reconcile_listed-IsPlaced O _ cs listed

received-service : (r : Received) (s : System) → (on_received r s).service ≡ s.service
unfolding on_received
received-service event s = refl
received-service closed s = ground arith
received-service (failed none) s = refl
received-service (failed (some canceled)) s = ground arith

after_list-service :
    (o : Owner) (cfg : Config) (r : Result (Option (Connections × List Container))) (s u : System)
    → after_list o cfg r s ≡ some u
    → u.service ≡ s.service
unfolding after_list
after_list-service o cfg (err e) s u h = ground arith
after_list-service o cfg (ok none) s u h = cc
after_list-service o cfg (ok (some (cs, listed))) s u h = ground arith

file_event-service :
    (path name : Str) (at : ℕ) (s : System) → (on_file_event path name at s).1.service ≡ s.service
unfolding on_file_event
file_event-service path name at s = ground arith

module _ (path : Str) (P : Patterns) (unmarshal : Str → Config → Result Config) where
  -- A configuration with nothing missing, which `Validate` accepts.
  abbrev pub IsUsable : Config → Type 0
  IsUsable cfg = IsComplete cfg × All (IsValidRule P) cfg.rules

  pub record IsSound (s : Service) : Type 0 where
    pub cfg : IsUsable s.cfg
    pub containers : All IsPlaced s.containers

  on_loaded-IsSound :
      (r : Config × Option LoadError) (s : System)
      → ((c : Config) → r ≡ (c, none) → IsUsable c)
      → IsSound s.service
      → IsSound (on_loaded r s).service
  unfolding on_loaded
  on_loaded-IsSound (cfg, some e) s usable h = h
  on_loaded-IsSound (cfg, none) s usable h = record {
    cfg = usable cfg refl;
    containers = h.containers;
  }

  Step-IsSound :
      {s u : System} {l : Label}
      → Step path P unmarshal s l u
      → IsSound s.service
      → IsSound u.service
  unfolding on_ticked list_containers finish
  Step-IsSound {s} (receives r free) h = subst IsSound (sym (received-service r s)) h
  Step-IsSound {s} (ticks free) h = h
  Step-IsSound {s} (lists o O cfg u at listed) h =
      subst IsSound (sym (after_list-service o cfg _ s u listed)) h
  Step-IsSound {s} (finishes o O cfg previous cs listed at) h = record {
    cfg = h.cfg;
    containers = finish-IsPlaced O cfg previous cs listed s.service;
  }
  Step-IsSound {s} (watches name at free) h =
      subst IsSound (sym (file_event-service path name at s)) h
  Step-IsSound {s} (fires deadline at file free has over) h =
      on_loaded-IsSound (load P unmarshal file) s (load-IsValid P unmarshal file) h
  Step-IsSound {s} cancels h = h
  Step-IsSound {s} (stops o free done) h = h
  Step-IsSound {s} (refreshes B c) h = record {
    cfg = subst IsUsable (sym (on_refresh-cfg B c s.service)) h.cfg;
    containers = on_refresh-IsPlaced B c s.service h.containers;
  }

  Run-IsSound_from :
      {s u : System} {ls : List Label}
      → Run path P unmarshal s ls u
      → IsSound s.service
      → IsSound u.service
  Run-IsSound_from begin h = h
  Run-IsSound_from (next run step) h = Step-IsSound step (Run-IsSound_from run h)

  first-IsSound :
      (O : Outside) (s t : Service) (e : Result (Unit {0}))
      (r : Result (Option (Connections × List Container)))
      → IsSound s
      → after_listing O s r ≡ some (t, e)
      → IsSound t
  unfolding after_listing reconcile_listed
  first-IsSound O s t e (err m) h same = let kept : s ≡ t = cc in subst IsSound kept h
  first-IsSound O s t e (ok none) h same = cc
  first-IsSound O s t e (ok (some (cs, listed))) h same =
      let made : reconcile_listed O s cs listed ≡ t = cc in
      subst IsSound made
        (record { cfg = h.cfg; containers = reconcile_listed-IsPlaced O s cs listed })

  started_with-IsSound :
      (watching : Bool) (r : Option (Service × Result (Unit {0}))) (u : System)
      → ((t : Service) (e : Result (Unit {0})) → r ≡ some (t, e) → IsSound t)
      → started_with watching r ≡ some u
      → IsSound u.service
  unfolding started_with
  started_with-IsSound watching none u h started = cc
  started_with-IsSound watching (some (t, e)) u h started =
      let same : t ≡ u.service = ap service_of started in subst IsSound same (h t e refl)
    where
      service_of : Option System → Service
      service_of none = t
      service_of (some v) = v.service

  after_first-IsSound :
      (O : Outside) (watching : Bool) (s : Service) (u : System)
      → IsSound s
      → run O watching s ≡ some u
      → IsSound u.service
  unfolding run reconcile
  after_first-IsSound O watching s u h started =
      started_with-IsSound watching (reconcile O s) u (λ t e same. first-IsSound O s t e _ h same)
        started

  pub Run-IsSound :
      (O : Outside) (watching : Bool) (cfg : Config) {s u : System} {ls : List Label}
      → IsUsable cfg
      → run O watching (new_service cfg) ≡ some s
      → Run path P unmarshal s ls u
      → IsSound u.service
  Run-IsSound O watching cfg {s} usable started r = Run-IsSound_from r (
      after_first-IsSound O watching (new_service cfg) s (record { cfg = usable; containers = tt })
        started)
