-- ===== src/Syncx/Controller/Effects.antt =====
-- internal/syncx/controller.go: what `Reconcile` asks of the daemon, and for which sessions.
use devcontainer_manager.Base.Map
use devcontainer_manager.Base.Map.{Map}
use devcontainer_manager.Config.{Config}
use devcontainer_manager.Model.{Container}
use devcontainer_manager.Syncx.Daemon.{Library, Daemon}
use devcontainer_manager.Syncx.Client.{Client, LiveSession, ensure_connected, list_owned}
use devcontainer_manager.Syncx.Client.Effects.{
  Emits-refl, terminate-Emits, Emits-trans, ensure_connected-Emits, list_owned-Emits,
}
use devcontainer_manager.Syncx.Naming.{Wanted}
use devcontainer_manager.Syncx.Controller.{
  Machine, reconcile, Progress, list_after, terminate_stale, listed_sessions, find_live,
  terminate_target, finish, get_or, start,
}
use devcontainer_manager.Syncx.Controller.Visits.{
  wanted_name, serve_all, serve_all-desired, wanted, reconcile_containers-serve_all,
}
use devcontainer_manager.Base.{
  Bool-cases, In, here, there, Str, first_non_empty, Result, ok, err, ◌≡◌, refl, ◌≢◌, inl, inr,
  Bool, true, false, Option, none, some, List, [], ◌∷◌,
}
use devcontainer_manager.Syncx.Controller.Requests.{
  Justified, MayTerminate, Justified-refl, Justified-trans, serve_all-Justified,
}

module _ (M : Machine) (L : Library) (D : Daemon L) (cfg : Config) (live : Option (Map LiveSession))
    (ws : List Wanted) where
  abbrev name : Wanted → Str
  name = wanted_name M L D cfg live

  abbrev Asks : Client → Client → Type 0
  Asks = Justified M L D cfg live ws

  idle : (c : Client) → Asks c c
  idle = Justified-refl M L D cfg live ws

  followed : {a b c : Client} → Asks a b → Asks b c → Asks a c
  followed = Justified-trans M L D cfg live ws

  target-Justified :
      (target : Str) (c : Client)
      → MayTerminate M L D cfg live ws target
      → Asks c (terminate_target M L D target c)
  unfolding terminate_target
  target-Justified [] c m = idle c
  target-Justified (x ∷ t) c m = terminate-Emits _ _ _ _ L D (x ∷ t) c m

  -- Every wanted name is noted as desired.
  abbrev Notes : Map Bool → Type 0
  Notes desired = (w : Wanted) → In w ws → Map.lookup (name w) desired ≡ some true

  not_wanted :
      (desired : Map Bool) (n : Str)
      → Notes desired
      → get_or (Map.lookup n desired) false ≡ false
      → (w : Wanted) → In w ws
      → name w ≢ n
  not_wanted desired n notes off w i same =
      let found : Map.lookup n desired ≡ some true = rw (← same) (notes w i) in cc (rw found at off)

  terminate_stale-Justified :
      (desired : Map Bool) (l rest : Map LiveSession) (c : Client)
      → Notes desired
      → live ≡ some l
      → ((n : Str) (s : LiveSession) → In (n, s) rest → In (n, s) l)
      → Asks c (terminate_stale M L D desired rest c)
  unfolding terminate_stale
  terminate_stale-Justified desired l [] c notes e sub = idle c
  terminate_stale-Justified desired l ((n, s) ∷ rest) c notes e sub =
      let later = λ (b : Client).
        terminate_stale-Justified desired l rest b notes e (λ m t i. sub m t (there i)) in
      elim (Bool-cases (get_or (Map.lookup n desired) false)) [
        | inl on ↦ rw on (later c)
        | inr off ↦ rw off (
            followed
              (target-Justified (first_non_empty (s.id ∷ s.name ∷ [])) c
                (n, s, l, e, sub n s (here refl), not_wanted desired n notes off, refl))
              (later _))
      ]

  finish-Justified :
      (known : Option (Map LiveSession)) (p : Progress)
      → live ≡ known
      → Notes p.desired
      → Asks p.client (finish M L D known p).0
  unfolding finish
  finish-Justified none p e notes = idle p.client
  finish-Justified (some l) p e notes =
      terminate_stale-Justified p.desired l l p.client notes e (λ n s i. i)

  loops-Justified :
      (p : Progress) → Asks p.client (finish M L D live (serve_all M L D cfg live ws p)).0
  loops-Justified p =
      followed (serve_all-Justified M L D cfg live ws ws p (λ w i. i))
        (finish-Justified live _ refl (serve_all-desired M L D cfg live ws p))

  listed-Justified :
      (c : Client) (p : Client × Result (Map LiveSession))
      → Asks c p.0
      → Asks c (listed_sessions M L D p).0
  unfolding listed_sessions
  listed-Justified c (b, ok l) h = h
  listed-Justified c (b, err e) h = h

  list_after-Justified :
      (c : Client) (p : Client × Result (Unit {0})) → Asks c p.0 → Asks c (list_after M L D p).0
  unfolding list_after
  list_after-Justified c (b, ok u) h =
      followed h (listed-Justified b (list_owned L D b) (list_owned-Emits _ _ _ _ L D b))
  list_after-Justified c (b, err e) h = h

  find_live-Justified : (c : Client) → Asks c (find_live M L D c).0
  unfolding find_live
  find_live-Justified c =
      list_after-Justified c (ensure_connected L D c) (ensure_connected-Emits _ _ _ _ L D c)

-- Every request of a reconciliation is justified. It creates only sessions that a running container
-- wants, whose endpoints are valid and which the daemon does not list; it resumes only such as the
-- daemon lists, pauses only wanted sessions of stopped containers, and terminates only listed sessions
-- whose name no container wants. It makes none of these requests where the daemon could not list.
pub reconcile-Justified :
    (M : Machine) (L : Library) (D : Daemon L) (cfg : Config) (containers : List Container)
    (c : Client)
    → Justified M L D cfg
        (find_live M L D c).1
        (wanted containers)
        c
        (reconcile M L D containers cfg c).0
unfolding reconcile
reconcile-Justified M L D cfg containers c = elim (Bool-cases cfg.sync.enabled) [
  | inl on ↦
      simp (on, reconcile_containers-serve_all)
        (Emits-trans _ _ _ _
          (find_live-Justified M L D cfg (find_live M L D c).1 (wanted containers) c)
          (loops-Justified M L D cfg (find_live M L D c).1 (wanted containers)
            (start (find_live M L D c).0)))
  | inr off ↦ simp off (Emits-refl _ _ _ _ c)
]
