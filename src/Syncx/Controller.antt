-- ===== src/Syncx/Controller.antt =====
-- internal/syncx/controller.go: `Controller.Reconcile`.
--
-- `os.Stat` and `dockerx.Client.PathKind` are parameters. The availability of the daemon and the
-- map of its sessions are one value, `none` where the code has `mutagenAvailable` false.
pub mod Visits
pub mod Reports
pub mod Requests
pub mod Effects
use mathlib.Core.Option.{get_or}
use devcontainer_manager.Base.Map
use devcontainer_manager.Base.Map.{Map}
use devcontainer_manager.Config.{Config, Rule, SyncEntry, SyncDefaults}
use devcontainer_manager.Model.{Container, Session}
use devcontainer_manager.Syncx.Daemon.{Library, Daemon}
use devcontainer_manager.Syncx.Client.{
  Client, LiveSession, ensure_connected, list_owned, create, pause, resume, terminate,
}
use devcontainer_manager.Syncx.Naming.{Wanted, desired_session}
use devcontainer_manager.Base.{
  if◌then◌else◌, Str, lit, is_empty, ◌==◌, first_non_empty, Result, ok, err, ◌>>=◌, ℕ, suc, Bool,
  true, false, not, ◌&&◌, Option, none, some, List, [], ◌∷◌, ◌++◌,
}

-- The outcome of `os.Stat`.
pub data FileInfo : Type 0 where
  not_exist stat_error directory regular irregular : FileInfo

-- `localKind`
unfoldable pub local_kind : FileInfo → Str
local_kind not_exist = lit "missing"
local_kind stat_error = lit "other"
local_kind directory = lit "directory"
local_kind regular = lit "file"
local_kind irregular = lit "other"

-- What the controller asks of the machine.
pub record Machine : Type 0 where
  pub sha1 : Str → Str
  pub stat : Str → FileInfo
  pub path_kind : Str → Str → Result Str

unfoldable pub compare_kinds : SyncEntry → Str → Str → Result (Unit {0})
compare_kinds sync manager_kind container_kind =
    if manager_kind == lit "missing" && container_kind == lit "missing"
    then err
        (lit "both endpoints are missing: " ++ (sync.manager ++ (lit " and " ++ sync.container)))
    else if not (manager_kind == lit "missing")
        && (not (container_kind == lit "missing") && not (manager_kind == container_kind))
    then err (
        lit "endpoint type mismatch: manager is "
        ++ (manager_kind ++ (lit ", container is " ++ container_kind)))
    else ok tt

-- What the loops of `Reconcile` have done so far.
pub record Progress : Type 0 where
  pub client : Client
  pub sessions : List Session
  pub desired : Map Bool

abbrev pub start : Client → Progress
start c = record { client = c; sessions = []; desired = [] }

module _ (M : Machine) (L : Library) (D : Daemon L) where
  unfoldable pub validate_endpoints : Str → SyncEntry → Result (Unit {0})
  unfolding compare_kinds local_kind
  validate_endpoints container_id sync =
      M.path_kind container_id sync.container >>= λ container_kind.
      compare_kinds sync (local_kind (M.stat sync.manager)) container_kind

  unfoldable pub listed_sessions :
      Client × Result (Map LiveSession) → Client × Option (Map LiveSession)
  listed_sessions (c, ok live) = (c, some live)
  listed_sessions (c, err e) = (c, none)

  unfoldable pub list_after : Client × Result (Unit {0}) → Client × Option (Map LiveSession)
  unfolding listed_sessions
  list_after (c, ok _) = listed_sessions (list_owned L D c)
  list_after (c, err e) = (c, none)

  -- The daemon's sessions, where it can be reached.
  unfoldable pub find_live : Client → Client × Option (Map LiveSession)
  unfolding list_after
  find_live c = list_after (ensure_connected L D c)

  unfoldable pub pause_stopped : Option (Map LiveSession) → Session → Client → Client × Session
  pause_stopped none session c = (c, record session { status = lit "paused" })
  pause_stopped (some _) session c =
      ((pause L D session.name c).0, record session { status = lit "paused" })

  unfoldable pub report_create : Session → Client × Result (Unit {0}) → Client × Session
  report_create session (c, ok _) = (c, record session { status = lit "ready" })
  report_create session (c, err e) = (c, record session { status = lit "create-error"; error = e })

  unfoldable pub resume_or_create :
      Session → SyncEntry → SyncDefaults → Option LiveSession → Client → Client × Session
  unfolding report_create
  resume_or_create session sync defaults (some existing) c = (
    (resume L D session.name c).0,
    record session {
      id = first_non_empty (existing.id ∷ session.id ∷ []);
      status = first_non_empty (existing.status ∷ lit "ready" ∷ []);
    },
  )
  resume_or_create session sync defaults none c =
      report_create session (create L D session sync defaults c)

  unfoldable pub start_valid :
      Option (Map LiveSession) → Session → SyncEntry → SyncDefaults → Client → Client × Session
  unfolding resume_or_create
  start_valid none session sync defaults c = (
    c,
    record session {
      status = lit "mutagen-daemon-unavailable";
      error = lit "unable to connect to Mutagen daemon";
    },
  )
  start_valid (some live) session sync defaults c =
      resume_or_create session sync defaults (Map.lookup session.name live) c

  unfoldable pub start_running :
      Option (Map LiveSession)
      → Session
      → SyncEntry
      → SyncDefaults
      → Result (Unit {0})
      → Client
      → Client × Session
  unfolding start_valid
  start_running live session sync defaults (err e) c =
      (c, record session { status = lit "configuration-error"; error = e })
  start_running live session sync defaults (ok _) c = start_valid live session sync defaults c

  module _ (cfg : Config) (live : Option (Map LiveSession)) where
    -- The session of one sync entry.
    unfoldable pub serve : Wanted → Client → Client × Session
    unfolding pause_stopped start_running validate_endpoints
    serve w c =
        if not w.container.running
        then pause_stopped live (desired_session M.sha1 w) c
        else start_running live (desired_session M.sha1 w) w.sync cfg.sync.defaults
            (validate_endpoints w.container.id w.sync) c

    -- The body of the inner loop.
    unfoldable pub reconcile_entry : Wanted → Progress → Progress
    unfolding serve
    reconcile_entry w p =
        let (c, session) = serve w p.client in
        record {
          client = c;
          sessions = p.sessions ++ (session ∷ []);
          desired = Map.insert (desired_session M.sha1 w).name true p.desired;
        }

    unfoldable pub reconcile_syncs : Container → Str → ℕ → List SyncEntry → Progress → Progress
    unfolding reconcile_entry
    reconcile_syncs container rule index [] p = p
    reconcile_syncs container rule index (sync ∷ syncs) p =
        reconcile_syncs container rule (suc index) syncs (
          reconcile_entry
            (record { container = container; rule = rule; index = index; sync = sync }) p)

    unfoldable pub reconcile_rule : Container → Option Rule → Progress → Progress
    unfolding reconcile_syncs
    reconcile_rule container none p = p
    reconcile_rule container (some rule) p = reconcile_syncs container rule.name 0 rule.syncs p

    unfoldable pub reconcile_containers : List Container → Progress → Progress
    unfolding reconcile_rule
    reconcile_containers [] p = p
    reconcile_containers (container ∷ containers) p =
        reconcile_containers containers (reconcile_rule container container.rule p)

  -- The last loop: sessions of the manager that nothing asks for any more.
  unfoldable pub terminate_target : Str → Client → Client
  terminate_target target c = if is_empty target then c else (terminate L D target c).0

  unfoldable pub terminate_stale : Map Bool → Map LiveSession → Client → Client
  unfolding terminate_target
  terminate_stale desired [] c = c
  terminate_stale desired ((name, existing) ∷ live) c = terminate_stale desired live (
      if get_or (Map.lookup name desired) false
      then c
      else terminate_target (first_non_empty (existing.id ∷ existing.name ∷ [])) c)

  unfoldable pub finish : Option (Map LiveSession) → Progress → Client × List Session
  unfolding terminate_stale
  finish none p = (p.client, p.sessions)
  finish (some live) p = (terminate_stale p.desired live p.client, p.sessions)

  unfoldable pub reconcile : List Container → Config → Client → Client × List Session
  unfolding find_live reconcile_containers finish
  reconcile containers cfg c =
      let (c', live) = find_live c in
      if not cfg.sync.enabled
      then (c, [])
      else finish live (reconcile_containers cfg live containers (start c'))
