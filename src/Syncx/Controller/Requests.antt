-- ===== src/Syncx/Controller/Requests.antt =====
-- internal/syncx/controller.go: what the loop of `Reconcile` over the wanted sessions asks of the daemon.
use devcontainer_manager.Base.Map
use devcontainer_manager.Base.Map.{Map}
use devcontainer_manager.Config.{Config, SyncDefaults}
use devcontainer_manager.Model.{Session}
use devcontainer_manager.Syncx.Daemon.{Library, Daemon}
use devcontainer_manager.Syncx.Client.{Client, LiveSession, create}
use devcontainer_manager.Syncx.Client.Effects.{
  Emits, Emits-refl, create-Emits, pause-Emits, resume-Emits, Emits-trans,
}
use devcontainer_manager.Syncx.Naming.{Wanted, desired_session}
use devcontainer_manager.Syncx.Controller.{
  Machine, validate_endpoints, pause_stopped, report_create, resume_or_create, start_valid,
  start_running, serve, Progress, reconcile_entry,
}
use devcontainer_manager.Syncx.Controller.Visits.{wanted_name, serve_all}
use devcontainer_manager.Base.{
  Bool-cases, In, here, there, Str, first_non_empty, Result, ok, err, ◌≡◌, refl, ◌≢◌, inl, inr,
  true, false, Option, none, some, List, [], ◌∷◌,
}

module _ (M : Machine) (L : Library) (D : Daemon L) (cfg : Config) (live : Option (Map LiveSession))
    (ws : List Wanted) where
  abbrev name : Wanted → Str
  name = wanted_name M L D cfg live

  -- A wanted session of this name.
  abbrev pub IsWanted : Str → Wanted → Type 0
  IsWanted n w = In w ws × (name w ≡ n)

  abbrev IsStartable : Wanted → Type 0
  IsStartable w =
      (w.container.running ≡ true) × (validate_endpoints M L D w.container.id w.sync ≡ ok tt)

  abbrev pub MayCreate : Str → Type 0
  MayCreate n =
      (w : Wanted) × IsWanted n w
      × IsStartable w
      × ((l : Map LiveSession) × (live ≡ some l) × (Map.lookup n l ≡ none))

  abbrev pub MayPause : Str → Type 0
  MayPause n =
      (w : Wanted) × IsWanted n w
      × (w.container.running ≡ false)
      × ((l : Map LiveSession) × (live ≡ some l))

  abbrev pub MayResume : Str → Type 0
  MayResume n =
      (w : Wanted) × IsWanted n w
      × IsStartable w
      × ((l : Map LiveSession) × (s : LiveSession) × (live ≡ some l) × (Map.lookup n l ≡ some s))

  -- The target names a listed session, and no wanted session has that one's name.
  abbrev pub MayTerminate : Str → Type 0
  MayTerminate target =
      (n : Str) × (s : LiveSession) × (l : Map LiveSession) × (live ≡ some l)
      × In (n, s) l
      × ((w : Wanted) → In w ws → name w ≢ n)
      × (target ≡ first_non_empty (s.id ∷ s.name ∷ []))

  abbrev pub Justified : Client → Client → Type 0
  Justified = Emits MayCreate MayPause MayResume MayTerminate

  pub Justified-refl : (c : Client) → Justified c c
  Justified-refl = Emits-refl MayCreate MayPause MayResume MayTerminate

  pub Justified-trans : {a b c : Client} → Justified a b → Justified b c → Justified a c
  Justified-trans = Emits-trans MayCreate MayPause MayResume MayTerminate

  pause_stopped-Justified :
      (w : Wanted) (known : Option (Map LiveSession)) (c : Client)
      → In w ws
      → w.container.running ≡ false
      → live ≡ known
      → Justified c (pause_stopped M L D known (desired_session M.sha1 w) c).0
  unfolding pause_stopped
  pause_stopped-Justified w none c i off e = Justified-refl c
  pause_stopped-Justified w (some l) c i off e =
      pause-Emits MayCreate MayPause MayResume MayTerminate L D (name w) c
        (w, (i, refl), off, (l, e))

  report-Justified :
      (s : Session) (c : Client) (p : Client × Result (Unit {0}))
      → Justified c p.0
      → Justified c (report_create M L D s p).0
  unfolding report_create
  report-Justified s c (b, ok u) h = h
  report-Justified s c (b, err e) h = h

  resume_or_create-Justified :
      (w : Wanted) (d : SyncDefaults) (l : Map LiveSession) (found : Option LiveSession)
      (c : Client)
      → In w ws
      → IsStartable w
      → live ≡ some l
      → Map.lookup (name w) l ≡ found
      → Justified c (resume_or_create M L D (desired_session M.sha1 w) w.sync d found c).0
  unfolding resume_or_create
  resume_or_create-Justified w d l (some s) c i k e f =
      resume-Emits MayCreate MayPause MayResume MayTerminate L D (name w) c
        (w, (i, refl), k, (l, s, e, f))
  resume_or_create-Justified w d l none c i k e f =
      report-Justified (desired_session M.sha1 w) c
        (create L D (desired_session M.sha1 w) w.sync d c)
        (create-Emits MayCreate MayPause MayResume MayTerminate L D (desired_session M.sha1 w)
          w.sync d c (w, (i, refl), k, (l, e, f)))

  start_valid-Justified :
      (w : Wanted) (d : SyncDefaults) (known : Option (Map LiveSession)) (c : Client)
      → In w ws
      → IsStartable w
      → live ≡ known
      → Justified c (start_valid M L D known (desired_session M.sha1 w) w.sync d c).0
  unfolding start_valid
  start_valid-Justified w d none c i k e = Justified-refl c
  start_valid-Justified w d (some l) c i k e =
      resume_or_create-Justified w d l (Map.lookup (name w) l) c i k e refl

  start_running-Justified :
      (w : Wanted) (d : SyncDefaults) (r : Result (Unit {0})) (c : Client)
      → In w ws
      → w.container.running ≡ true
      → validate_endpoints M L D w.container.id w.sync ≡ r
      → Justified c (start_running M L D live (desired_session M.sha1 w) w.sync d r c).0
  unfolding start_running
  start_running-Justified w d (err e) c i up k = Justified-refl c
  start_running-Justified w d (ok tt) c i up k = start_valid-Justified w d live c i (up, k) refl

  serve-Justified : (w : Wanted) (c : Client) → In w ws → Justified c (serve M L D cfg live w c).0
  unfolding serve
  serve-Justified w c i = elim (Bool-cases w.container.running) [
    | inl up ↦ simp up (
        start_running-Justified w cfg.sync.defaults (validate_endpoints M L D w.container.id w.sync)
          c i up refl)
    | inr off ↦ simp off (pause_stopped-Justified w live c i off refl)
  ]

  entry-Justified :
      (w : Wanted) (p : Progress)
      → In w ws
      → Justified p.client (reconcile_entry M L D cfg live w p).client
  unfolding reconcile_entry
  entry-Justified w p i = serve-Justified w p.client i

  pub serve_all-Justified :
      (vs : List Wanted) (p : Progress)
      → ((w : Wanted) → In w vs → In w ws)
      → Justified p.client (serve_all M L D cfg live vs p).client
  unfolding serve_all
  serve_all-Justified [] p sub = Justified-refl p.client
  serve_all-Justified (v ∷ vs) p sub =
      Justified-trans (entry-Justified v p (sub v (here refl)))
        (serve_all-Justified vs _ (λ w i. sub w (there i)))
