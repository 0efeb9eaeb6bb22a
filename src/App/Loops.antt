-- ===== src/App/Loops.antt =====
-- internal/app/service.go: `Run` with its three loops, `watchDocker`, `watchConfig` and `periodicReconcile`,
-- beside the HTTP handlers that write to the service.
--
-- A reconciliation that a loop runs is in flight while others go on: it reads the configuration and lists
-- the containers, then copies `s.containers` under the lock, and at last writes the new containers and
-- sessions under the lock. What it does in between, probing and syncing, is one step here. Times
-- are nanoseconds. What the outside answers may differ at each step.
pub mod Debounce
pub mod Shutdown
pub mod Contents
use devcontainer_manager.Go.Path.{clean}
use devcontainer_manager.Config.{Config}
use devcontainer_manager.Config.Matching.{Patterns}
use devcontainer_manager.Config.Validation.{ReadFile, LoadError, load}
use devcontainer_manager.Model.{Container}
use devcontainer_manager.Dockerx.{Connections}
use devcontainer_manager.Dockerx.Listing.{list_devcontainers}
use devcontainer_manager.T3.Backend.{Backend}
use devcontainer_manager.App.{Service, Map}
use devcontainer_manager.App.Reconcile.{Outside, reconcile_listed, reconcile}
use devcontainer_manager.App.Routes.{refresh_token}
use devcontainer_manager.Base.{
  if◌then◌else◌, Str, ◌==◌, Result, ok, err, ℕ, ◌+◌, ◌≤◌, ◌≡◌, Bool, true, false, Option, none,
  some, List, [], ◌∷◌,
}

-- `250 * time.Millisecond`
abbrev pub settling : ℕ
settling = 250_000_000

pub data Owner : Type 0 where
  docker config tick : Owner

-- Where a loop stands.
pub data Loop : Type 0 where
  -- it has returned
  stopped : Loop
  -- it waits in its `select`
  idle : Loop
  -- it reconciles, and has read the configuration
  listing : (cfg : Config) → Loop
  -- it reconciles, and has the containers of Docker and a copy of those of the service
  probing :
      (cfg : Config) (previous : Map Container) (cs : Connections) (listed : List Container) → Loop

pub record Loops : Type 0 where
  pub docker : Loop
  pub config : Loop
  pub tick : Loop

abbrev pub loop : Owner → Loops → Loop
loop docker ls = ls.docker
loop config ls = ls.config
loop tick ls = ls.tick

abbrev pub set_loop : Owner → Loop → Loops → Loops
set_loop docker l ls = record ls { docker = l }
set_loop config l ls = record ls { config = l }
set_loop tick l ls = record ls { tick = l }

pub record System : Type 0 where
  pub service : Service
  pub loops : Loops
  -- the deadline of the timer of `watchConfig`, if it has one
  pub timer : Option ℕ
  -- the calls of `docker.Events`
  pub streams : ℕ
  -- the context is done
  pub done : Bool

-- `watching` tells whether `watchConfig` got its watcher; without it, it returns at once.
abbrev pub running : Bool → Service → System
running watching s = record {
  service = s;
  loops = record { docker = idle; config = if watching then idle else stopped; tick = idle };
  timer = none;
  streams = 1;
  done = false;
}

unfoldable pub started_with : Bool → Option (Service × Result (Unit {0})) → Option System
started_with watching none = none
started_with watching (some (s, _)) = some (running watching s)

-- `Run` up to its `select`, where the loops have been started. An error of the first `reconcile` is only
-- logged; `none` is a panic.
unfoldable pub run : Outside → Bool → Service → Option System
unfolding started_with
run O watching s = started_with watching (reconcile O s)

-- What `watchDocker` receives: an event, the end of the channel of events, or an error (`none` is nil),
-- with whether it is `context.Canceled`.
pub data Received : Type 0 where
  event closed : Received
  failed : Option Bool → Received

abbrev subscribe : System → System
subscribe s = record s { streams = s.streams + 1 }

abbrev start_reconcile : Owner → System → System
start_reconcile o s = record s { loops = set_loop o (listing s.service.cfg) s.loops }

-- One round of the loop of `watchDocker`.
unfoldable pub on_received : Received → System → System
on_received event s = start_reconcile docker s
on_received closed s =
    if s.done then record s { loops = set_loop docker stopped s.loops } else subscribe s
on_received (failed none) s = s
on_received (failed (some canceled)) s = if canceled then s else subscribe s

-- `case <-ticker.C` of `periodicReconcile`
unfoldable pub on_ticked : System → System
on_ticked s = start_reconcile tick s

-- What a step shows: the configuration file changed, it was loaded, or neither.
pub data Label : Type 0 where
  other : Label
  changed : (now : ℕ) → Label
  reloaded : (now : ℕ) → Label

-- The branch of `watchConfig` for an event of the watcher.
unfoldable pub on_file_event : (path name : Str) → ℕ → System → Label × System
on_file_event path name now s =
    if clean name == clean path
    then (changed now, record s { timer = some (now + settling) })
    else (other, s)

-- The listing of a reconciliation, and the copy of the containers.
unfoldable pub after_list :
    Owner → Config → Result (Option (Connections × List Container)) → System → Option System
after_list o cfg (err e) s = some (record s { loops = set_loop o idle s.loops })
after_list o cfg (ok none) s = none
after_list o cfg (ok (some (cs, listed))) s =
    some (record s { loops = set_loop o (probing cfg s.service.containers cs listed) s.loops })

unfoldable pub list_containers : Outside → Owner → Config → System → Option System
unfolding after_list
list_containers O o cfg s =
    after_list o cfg
      (list_devcontainers O.docker O.patterns O.decoder O.seen cfg s.service.connections) s

-- The rest of a reconciliation, with the configuration and the containers that it has read: it writes the
-- containers and the sessions, and leaves a configuration alone that was loaded meanwhile.
unfoldable pub finish :
    Outside → Config → Map Container → Connections → List Container → Service → Service
finish O cfg previous cs listed s =
    let made = reconcile_listed O (record s { cfg = cfg; containers = previous }) cs listed in
    record made { cfg = s.cfg }

-- A timer of `watchConfig` that runs out, with the result of `config.Load`.
unfoldable pub on_loaded : Config × Option LoadError → System → System
on_loaded (cfg, some e) s = record s { timer = none }
on_loaded (cfg, none) s = record s {
  timer = none;
  service = record s.service { cfg = cfg };
  loops = set_loop config (listing cfg) s.loops;
}

-- The refresh of a token by a handler.
unfoldable pub on_refresh : Backend → Container → Service → Service
on_refresh B c s =
    let (w, r) = refresh_token B c (record { trace = s.trace; shared = s.containers }) in
    record s { containers = w.shared; trace = w.trace }

-- `path` is that of the configuration file. YAML and the regular expressions are parameters.
module _ (path : Str) (P : Patterns) (unmarshal : Str → Config → Result Config) where
  pub data Step (s : System) : Label → System → Type 1 where
    -- the select of `watchDocker`
    receives : (r : Received) → s.loops.docker ≡ idle → Step s other (on_received r s)
    -- the select of `periodicReconcile`
    ticks : s.loops.tick ≡ idle → Step s other (on_ticked s)
    lists :
        (o : Owner) (O : Outside) (cfg : Config) (u : System)
        → loop o s.loops ≡ listing cfg
        → list_containers O o cfg s ≡ some u
        → Step s other u
    finishes :
        (o : Owner) (O : Outside) (cfg : Config) (previous : Map Container) (cs : Connections)
        (listed : List Container)
        → loop o s.loops ≡ probing cfg previous cs listed
        → Step s other (record s {
          service = finish O cfg previous cs listed s.service;
          loops = set_loop o idle s.loops;
        })
    -- `case event := <-watcher.Events`
    watches :
        (name : Str) (now : ℕ)
        → s.loops.config ≡ idle
        → Step s (on_file_event path name now s).0 (on_file_event path name now s).1
    -- `case <-timerC`
    fires :
        (deadline now : ℕ) (file : ReadFile)
        → s.loops.config ≡ idle
        → s.timer ≡ some deadline
        → deadline ≤ now
        → Step s (reloaded now) (on_loaded (load P unmarshal file) s)
    -- the context is done, and a loop sees it
    cancels : Step s other (record s { done = true })
    stops :
        (o : Owner)
        → loop o s.loops ≡ idle
        → s.done ≡ true
        → Step s other (record s { loops = set_loop o stopped s.loops })
    -- a handler refreshes a token
    refreshes :
        (B : Backend) (c : Container)
        → Step s other (record s { service = on_refresh B c s.service })

  -- The runs, with their labels, the last one first.
  pub data Run (s : System) : List Label → System → Type 1 where
    begin : Run s [] s
    next : {t u : System} {ls : List Label} {l : Label} → Run s ls t → Step t l u → Run s (l ∷ ls) u
